-- ===== src/Bitmap/Tests.antt =====
-- Runs of the bitmap functions and the theorems at a bitmap of four words.
use shmmalloc.Base.{◌≡◌, refl, [], ◌∷◌, arith}
use shmmalloc.Bitmap.{
  Bitmap, bitmap_bits2groups, ffs_u64, bitmap_set, bitmap_ffu, bitmap_ffs, bitmap_ffsp, bitmap_sfu,
}
use shmmalloc.Bitmap.Update.{IsBitmap, IsBitmap-nil, IsBitmap-cons}
use shmmalloc.Bitmap.Scan.{IsTaken, bitmap_sfu-IsTaken}

abbrev units : Bitmap
units = 0x10208081 ∷ 0x1021 ∷ 0 ∷ 0 ∷ []

units-IsBitmap : IsBitmap units
units-IsBitmap = IsBitmap-cons _ _ (omega arith) (
    IsBitmap-cons _ _ (omega arith)
      (IsBitmap-cons _ _ (omega arith) (IsBitmap-cons _ _ (omega arith) IsBitmap-nil)))

-- As in the repository's tests of the bitmap.
set_bits :
    bitmap_set (bitmap_set (bitmap_set (0 ∷ 0 ∷ 0 ∷ 0 ∷ []) 64) 69) 76 ≡ 0 ∷ 0x1021 ∷ 0 ∷ 0 ∷ []
unfolding bitmap_set
set_bits = refl

searches :
    (bitmap_ffs units 256 ≡ 0)
    × (bitmap_ffu units 256 ≡ 1)
    × (bitmap_ffsp units 29 256 ≡ 64)
    × (bitmap_ffsp units 77 256 ≡ 256)
unfolding bitmap_ffs bitmap_ffu bitmap_ffsp bitmap_bits2groups ffs_u64
searches = (refl, refl, refl, refl)

bitmap_sfu-IsTaken_example : IsTaken units 256 (bitmap_sfu units 256)
bitmap_sfu-IsTaken_example = bitmap_sfu-IsTaken units 256 (omega arith) units-IsBitmap (omega arith)

-- ===== src/Bitmap.antt =====
-- src/builtin_wrapper.h (ffs_u64) and the bitmaps of src/shm_util.h.
-- A bitmap is the list of its 64-bit words; a read past the list gives 0.
pub mod Bits
pub mod Update
pub mod Scan
mod Tests
use shmmalloc.Base.{
  ℕ, zero, suc, ◌+◌, ◌-◌, ◌*◌, ◌/◌, ◌%◌, Bool, not, List, bit_and, bit_or, ltb, ◌==◌, if◌then◌else◌,
  u32, u64, not64, ◌<<<◌, ◌>>>◌, get_or, set,
}

abbrev pub Bitmap : Type 0
Bitmap = List ℕ

abbrev pub bitmap_bits : ℕ
bitmap_bits = 64

abbrev pub bitmap_shift : ℕ
bitmap_shift = 6

abbrev pub bitmap_mask : ℕ
bitmap_mask = bitmap_bits - 1

unfoldable pub bitmap_bits2groups : ℕ → ℕ
bitmap_bits2groups nbits = u32 (nbits + bitmap_mask) >>> bitmap_shift

-- `__builtin_ffsl`: one plus the index of the lowest bit that is set, 0 for 0. Here over the
-- `k` low bits of `w`, the first of which counts as bit `i`.
ffs_from : ℕ → ℕ → ℕ → ℕ
ffs_from zero i w = 0
ffs_from (suc k) i w = if w % 2 == 1 then suc i else ffs_from k (suc i) (w / 2)

unfoldable pub ffs_u64 : ℕ → ℕ
unfolding ffs_from
ffs_u64 w = ffs_from 64 0 w

abbrev pub word : Bitmap → ℕ → ℕ
word bitmap i = get_or bitmap i 0

unfoldable pub bitmap_set : Bitmap → ℕ → Bitmap
bitmap_set bitmap n =
    let w = n >>> bitmap_shift in
    let position = bit_and n bitmap_mask in set bitmap w (bit_or (word bitmap w) (1 <<< position))

unfoldable pub bitmap_get : Bitmap → ℕ → Bool
bitmap_get bitmap n =
    let w = n >>> bitmap_shift in
    let position = bit_and n bitmap_mask in not (bit_and (word bitmap w >>> position) 1 == 0)

unfoldable pub bitmap_clear : Bitmap → ℕ → Bitmap
bitmap_clear bitmap n =
    let w = n >>> bitmap_shift in
    let position = bit_and n bitmap_mask in
    set bitmap w (bit_and (word bitmap w) (not64 (1 <<< position)))

-- The loop of `bitmap_ffu` at word `i` with `k` rounds left; `r` is the result so far.
pub ffu_loop : Bitmap → ℕ → ℕ → ℕ → ℕ
ffu_loop bitmap r zero i = r
ffu_loop bitmap r (suc k) i =
    let bit = ffs_u64 (not64 (word bitmap i)) in
    let rest = ffu_loop bitmap r k (i + 1) in
    if bit == 0 then rest else u32 (i <<< bitmap_shift + (bit - 1))

unfoldable pub bitmap_ffu : Bitmap → ℕ → ℕ
unfolding ffu_loop
bitmap_ffu bitmap b = ffu_loop bitmap b (bitmap_bits2groups b) 0

pub ffs_loop : Bitmap → ℕ → ℕ → ℕ → ℕ
ffs_loop bitmap r zero i = r
ffs_loop bitmap r (suc k) i =
    let bit = ffs_u64 (word bitmap i) in
    let rest = ffs_loop bitmap r k (i + 1) in
    if bit == 0 then rest else u32 (i <<< bitmap_shift + (bit - 1))

unfoldable pub bitmap_ffs : Bitmap → ℕ → ℕ
unfolding ffs_loop
bitmap_ffs bitmap b = ffs_loop bitmap b (bitmap_bits2groups b) 0

-- The `do` loop of `bitmap_ffsp`: the word `g` at index `i`, then the `k` words behind it.
pub ffsp_loop : Bitmap → ℕ → ℕ → ℕ → ℕ → ℕ
ffsp_loop bitmap r zero i g =
    let bit = ffs_u64 g in if bit == 0 then r else u32 (i <<< bitmap_shift + (bit - 1))
ffsp_loop bitmap r (suc k) i g =
    let bit = ffs_u64 g in
    let rest = ffsp_loop bitmap r k (i + 1) (word bitmap (i + 1)) in
    if bit == 0 then rest else u32 (i <<< bitmap_shift + (bit - 1))

-- The caller has `n < b`, as the source asserts.
unfoldable pub bitmap_ffsp : Bitmap → ℕ → ℕ → ℕ
unfolding ffsp_loop
bitmap_ffsp bitmap n b =
    let l = bitmap_bits2groups b in
    let i = n >>> bitmap_shift in
    let g = bit_and (word bitmap i) (not64 (1 <<< bit_and n bitmap_mask - 1)) in
    ffsp_loop bitmap b (l - i - 1) i g

unfoldable pub bitmap_sfu : Bitmap → ℕ → Bitmap × ℕ
bitmap_sfu bitmap b =
    let r = bitmap_ffu bitmap b in if ltb r b then (bitmap_set bitmap r, r) else (bitmap, r)

-- ===== src/Position/Tests.antt =====
-- Runs of the position functions.
use shmmalloc.Base.{◌≡◌, refl}
use shmmalloc.Position.{index2pos, pos2index, align_size}

positions : (index2pos 3 0x100000 ≡ 0x300100000) × (pos2index 0x300100000 ≡ 3)
unfolding index2pos pos2index
positions = (refl, refl)

-- As in the repository's test of align_size.
aligned : (align_size 0 8 ≡ 0) × (align_size 1 8 ≡ 8) × (align_size 60 8 ≡ 64)
unfolding align_size
aligned = (refl, refl, refl)

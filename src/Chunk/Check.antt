-- ===== src/Chunk/Check.antt =====
-- check_chunk of src/shm_chunk.c at an offset beyond the chunk.
use shmmalloc.Base.{ℕ, ◌/◌, ◌^◌, ◌≤◌, ◌<◌, ◌≡◌, refl, true, false, some, arith, ltb, leb, u16}
use shmmalloc.Medium.{Medium, is_medium_offset, check_chunk_medium}
use shmmalloc.Context.{Context, ChunkType, chunk_empty, chunk_small, chunk_medium}
use shmmalloc.Chunk.Small.{find_run, check_chunk_small}
use shmmalloc.Chunk.Types.{check_chunk}

check_chunk_medium_far :
    (d : Medium) (offset : ℕ)
    → 2 ^ 20 ≤ offset
    → offset < 2 ^ 28
    → check_chunk_medium d offset ≡ some 0
unfolding check_chunk_medium is_medium_offset
check_chunk_medium_far d offset lo hi =
    let out : ltb (u16 (offset / 4096)) 256 ≡ false = ground arith in rw out refl

check_chunk_small_far :
    (c : Context) (pos offset : ℕ)
    → (c.chunks pos).type ≡ chunk_small
    → 2 ^ 20 ≤ offset
    → check_chunk_small c pos offset ≡ some 0
unfolding check_chunk_small find_run
check_chunk_small_far c pos offset e lo =
    let out : leb 256 (offset / 4096) ≡ true = ground arith in rw (e, out) refl

-- An offset beyond the chunk has the size 0, whatever stands in the chunk.
pub check_chunk_far :
    (c : Context) (pos offset : ℕ)
    → 2 ^ 20 ≤ offset
    → offset < 2 ^ 28
    → check_chunk c pos offset ≡ some 0
unfolding check_chunk
check_chunk_far c pos offset lo hi = at_type (c.chunks pos).type refl
  where
    at_type : (t : ChunkType) → (c.chunks pos).type ≡ t → check_chunk c pos offset ≡ some 0
    at_type chunk_small e = rw e (check_chunk_small_far c pos offset e lo)
    at_type chunk_medium e = rw e (check_chunk_medium_far (c.chunks pos).medium offset lo hi)
    at_type chunk_empty e = rw e refl

-- ===== src/Malloc/Realloc.antt =====
-- What shm_check_size and shm_realloc of src/shm_malloc.c make of a block in an arena of chunks,
-- by way of check_arena of src/shm_context.c.
use shmmalloc.Base.{
  ℕ, ◌+◌, ◌-◌, ◌^◌, ◌≤◌, ◌<◌, ◌≡◌, ◌≢◌, refl, inl, inr, ◌⊎◌, true, false, none, some, arith, ne→==,
  lt→ltb, ltb, ◌==◌, u32,
}
use shmmalloc.Position.{pos2index, pos2offset}
use shmmalloc.Context.{Context, arena_context, arena_chunk, is_arena_valid, get_arena_chunk}
use shmmalloc.Chunk.Types.{check_chunk}
use shmmalloc.Chunk.Check.{check_chunk_far}
use shmmalloc.Arena.{Os, get_or_update_addr}
use shmmalloc.Arena.Dispatch.{check_arena}
use shmmalloc.Malloc.{shm_realloc, shm_check_size}

-- `pos` lies in the chunk `chunk` of an arena of chunks that the process has mapped, and the
-- chunk is not the first of its arena.
pub record IsInLaterChunk (os : Os) (c : Context) (pos chunk : ℕ) : Type 0 where
  pub index : pos2index pos < 128
  pub type :
      ((c.arenas (pos2index pos)).type ≡ arena_context)
      ⊎ ((c.arenas (pos2index pos)).type ≡ arena_chunk)
  pub chunk_at : get_arena_chunk (c.arenas (pos2index pos)) (pos2offset pos) ≡ chunk
  pub some_chunk : chunk ≢ 0
  pub later : 2 ^ 20 ≤ pos2offset pos
  pub inside : pos2offset pos < 2 ^ 23
  pub in_chunk : u32 (pos2offset pos + 2 ^ 32 - pos2offset chunk) < 2 ^ 20
  pub mapped : get_or_update_addr os c chunk ≡ some (c, true)

check_arena_far :
    (os : Os) (c : Context) (pos chunk : ℕ)
    → IsInLaterChunk os c pos chunk
    → check_arena os c (pos2index pos) (pos2offset pos) ≡ some (c, 0)
unfolding check_arena is_arena_valid
check_arena_far os c pos chunk at =
    let no : (chunk == 0) ≡ false = ne→== chunk 0 at.some_chunk in
    let inside : ltb (pos2index pos) 128 ≡ true = lt→ltb (pos2index pos) 128 at.index in
    let near : ltb (u32 (pos2offset pos + 2 ^ 32 - pos2offset chunk)) (2 ^ 20) ≡ true =
      lt→ltb _ _ at.in_chunk in
    let size : check_chunk c chunk (pos2offset pos) ≡ some 0 =
      check_chunk_far c chunk (pos2offset pos) at.later (omega (arith, at.inside)) in
    elim at.type [
      | inl t ↦ rw (inside, t, at.chunk_at, no, at.mapped, near, size) refl
      | inr t ↦ rw (inside, t, at.chunk_at, no, at.mapped, near, size) refl
    ]

nonzero : (pos : ℕ) → 2 ^ 20 ≤ pos2offset pos → (pos == 0) ≡ false
unfolding pos2offset
nonzero pos h = ground arith

-- check_arena passes check_chunk the offset in the arena, not the one in the chunk: for every
-- position in a chunk other than its arena's first, of an arena that the process has mapped,
-- shm_check_size answers 0 and shm_realloc returns the old position, copies nothing and changes
-- nothing, whatever size is asked for.
pub shm_realloc_later :
    (os : Os) (c : Context) (pos chunk size : ℕ)
    → IsInLaterChunk os c pos chunk
    → (shm_check_size os c pos ≡ some (c, 0)) × (shm_realloc os c pos size ≡ some (c, (pos, none)))
unfolding shm_realloc shm_check_size
shm_realloc_later os c pos chunk size at =
    let no : (pos == 0) ≡ false = nonzero pos at.later in
    let zero_size = check_arena_far os c pos chunk at in
    (rw no zero_size, rw (no, zero_size) (ground arith))

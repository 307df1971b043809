-- ===== src/Arena/Dispatch.antt =====
-- free_arena and check_arena of src/shm_context.c, which go by the type of an arena.
use shmmalloc.Base.{
  ℕ, ◌+◌, ◌-◌, ◌^◌, not, ◌&&◌, Option, none, some, ltb, ◌==◌, if◌then◌else◌, u32, guard, ◌>>=◌,
}
use shmmalloc.Position.{shm_null, shm_chunk_unit_size, pos2offset}
use shmmalloc.Context.{
  Context, ArenaType, arena_empty, arena_context, arena_chunk, arena_large, is_context, put_arena,
  is_arena_valid, get_arena_chunk,
}
use shmmalloc.Chunk.Types.{free_chunk, check_chunk}
use shmmalloc.Arena.{Os, get_or_update_addr, delete_arena, delete_arena_chunk}

-- The arena at `index` loses its chunk at `pos`, and goes once it has none left.
unfoldable pub check_delete_chunk : Context → ℕ → ℕ → Option Context
check_delete_chunk c index pos = delete_arena_chunk (c.arenas index) pos >>= λ a.
    let c1 = put_arena c index a in
    if a.used == 0 && not (is_context a.type) then delete_arena c1 a.index else some c1

-- The chunk at `pos` is mapped and `offset`, an offset of its arena, lies in it.
reach_chunk : Os → Context → ℕ → ℕ → Option Context
reach_chunk os c pos offset = get_or_update_addr os c pos >>= λ (c1, mapped).
    guard (mapped && ltb (u32 (offset + 2 ^ 32 - pos2offset pos)) shm_chunk_unit_size) (some c1)

free_in_chunk : Os → Context → ℕ → ℕ → Option Context
free_in_chunk os c index offset =
    let pos = get_arena_chunk (c.arenas index) offset in
    if pos == shm_null
    then some c
    else reach_chunk os c pos offset >>= λ c1.
        free_chunk c1 pos (u32 (offset + 2 ^ 32 - pos2offset pos)) >>= λ (c2, check).
        if check then check_delete_chunk c2 index pos else some c2

free_by_type : Os → Context → ℕ → ℕ → ArenaType → Option Context
free_by_type os c index offset arena_context = free_in_chunk os c index offset
free_by_type os c index offset arena_chunk = free_in_chunk os c index offset
free_by_type os c index offset arena_large = delete_arena c index
free_by_type os c index offset arena_empty = none

unfoldable pub free_arena : Os → Context → ℕ → ℕ → Option Context
unfolding free_by_type free_in_chunk reach_chunk
free_arena os c index offset =
    if is_arena_valid c index then free_by_type os c index offset (c.arenas index).type else some c

-- check_chunk is given the offset in the arena, where free_chunk is given the one in the chunk.
check_in_chunk : Os → Context → ℕ → ℕ → Option (Context × ℕ)
check_in_chunk os c index offset =
    let pos = get_arena_chunk (c.arenas index) offset in
    if pos == shm_null
    then some (c, 0)
    else reach_chunk os c pos offset >>= λ c1. check_chunk c1 pos offset >>= λ size. some (c1, size)

check_of_type : Os → Context → ℕ → ℕ → ArenaType → Option (Context × ℕ)
check_of_type os c index offset arena_context = check_in_chunk os c index offset
check_of_type os c index offset arena_chunk = check_in_chunk os c index offset
check_of_type os c index offset arena_large = some (c, (c.arenas index).size)
check_of_type os c index offset arena_empty = none

-- The size of the block, 0 for a position that the arena does not know.
unfoldable pub check_arena : Os → Context → ℕ → ℕ → Option (Context × ℕ)
unfolding check_of_type check_in_chunk reach_chunk
check_arena os c index offset =
    if is_arena_valid c index
    then check_of_type os c index offset (c.arenas index).type
    else some (c, 0)

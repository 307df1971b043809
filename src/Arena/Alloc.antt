-- ===== src/Arena/Alloc.antt =====
-- new_chunk, malloc_arena and their helpers of src/shm_context.c.
use shmmalloc.Base.{
  ℕ, zero, suc, ◌+◌, ◌-◌, not, ◌&&◌, ◌||◌, Option, none, some, leb, ◌==◌, if◌then◌else◌, guard,
  ◌>>=◌,
}
use shmmalloc.Position.{
  shm_null, shm_page_size, shm_chunk_unit_size, shm_arena_unit_size, index2pos, align_size,
}
use shmmalloc.SizeClass.{chunk_small_limit, find_run_config}
use shmmalloc.Context.{
  Context, arena_chunk, arena_large, is_empty, is_context, shm_arena_max, put_arena, ChunkType,
  chunk_small, chunk_medium,
}
use shmmalloc.Chunk.Pool.{get_avaliable_chunk}
use shmmalloc.Chunk.Small.{new_chunk_run, malloc_chunk_run}
use shmmalloc.Chunk.Types.{init_chunk, malloc_medium}
use shmmalloc.Arena.{Os, get_or_update_addr, new_arena, new_arena_chunk}

abbrev pub chunk_medium_limit : ℕ
chunk_medium_limit = shm_chunk_unit_size - shm_page_size

-- The loop of new_chunk at arena `i` with `k` left: the chunk's position or SHM_NULL, and the
-- last empty arena that was seen. Its test names ARENA_TYPE_CONTEXT twice.
unfoldable pub find_chunk : ℕ → Context → ℕ → ℕ → Context × (ℕ × ℕ)
find_chunk zero c i empty_index = (c, (shm_null, empty_index))
find_chunk (suc k) c i empty_index =
    let a = c.arenas i in
    let taken = new_arena_chunk a in
    let rest = find_chunk k c (i + 1) empty_index in
    let rest_empty = find_chunk k c (i + 1) i in
    if is_context a.type || is_context a.type
    then (if taken.1 == shm_null then rest else (put_arena c i taken.0, (taken.1, empty_index)))
    else if is_empty a.type
    then rest_empty
    else rest

-- The block `if(pos == SHM_NULL && emptyIndex != 0)` of new_chunk.
chunk_of_new_arena : Os → Context → Option (Context × ℕ)
chunk_of_new_arena os c = new_arena os c arena_chunk shm_arena_unit_size >>= λ (c1, made).
    elim made [
      | none ↦ some (c1, shm_null)
      | some index ↦
          let taken = new_arena_chunk (c1.arenas index) in
          guard (not (taken.1 == shm_null)) (some (put_arena c1 index taken.0, taken.1))
    ]

-- The new chunk's position, SHM_NULL for NULL. A chunk that cannot be mapped is a failure.
unfoldable pub new_chunk : Os → Context → ChunkType → Option (Context × ℕ)
unfolding chunk_of_new_arena
new_chunk os c type =
    let (c1, (pos, empty_index)) = find_chunk shm_arena_max c 0 0 in
    let placed =
      if pos == shm_null && not (empty_index == 0)
      then chunk_of_new_arena os c1
      else some (c1, pos) in
    placed >>= λ (c2, at).
    if at == shm_null
    then some (c2, at)
    else get_or_update_addr os c2 at >>= λ (c3, mapped).
        guard mapped (init_chunk c3 at type >>= λ c4. some (c4, at))

unfoldable pub get_or_new_chunk : Os → Context → ChunkType → ℕ → Option (Context × ℕ)
get_or_new_chunk os c type size = get_avaliable_chunk c type size >>= λ chunk.
    if chunk == shm_null then new_chunk os c type else some (c, chunk)

-- The run at the root of the pool, SHM_NULL for NULL.
unfoldable pub try_run_pool : Os → Context → ℕ → Option (Context × ℕ)
try_run_pool os c runidx =
    let run_pos = (c.run_pool runidx).root in
    if run_pos == shm_null
    then some (c, shm_null)
    else get_or_update_addr os c run_pos >>= λ (c1, mapped). guard mapped (some (c1, run_pos))

malloc_small : Os → Context → ℕ → Option (Context × ℕ)
malloc_small os c size = find_run_config size >>= λ runidx.
    try_run_pool os c runidx >>= λ (c1, run).
    if not (run == shm_null)
    then malloc_chunk_run c1 run
    else get_or_new_chunk os c1 chunk_small size >>= λ (c2, chunk).
        if chunk == shm_null
        then some (c2, shm_null)
        else new_chunk_run c2 chunk runidx >>= λ (c3, run'). malloc_chunk_run c3 run'

malloc_pages : Os → Context → ℕ → Option (Context × ℕ)
malloc_pages os c size = get_or_new_chunk os c chunk_medium size >>= λ (c1, chunk).
    if chunk == shm_null then some (c1, shm_null) else malloc_medium c1 chunk size

malloc_large : Os → Context → ℕ → Option (Context × ℕ)
malloc_large os c size =
    new_arena os c arena_large (align_size size shm_chunk_unit_size) >>= λ (c1, made). elim made [
      | none ↦ some (c1, shm_null)
      | some index ↦ some (c1, index2pos (c1.arenas index).index 0)
    ]

unfoldable pub malloc_arena : Os → Context → ℕ → Option (Context × ℕ)
unfolding malloc_small malloc_pages malloc_large
malloc_arena os c size =
    if leb size chunk_small_limit
    then malloc_small os c size
    else if leb size chunk_medium_limit
    then malloc_pages os c size
    else malloc_large os c size

-- ===== src/Malloc.antt =====
-- The interface of src/shm_malloc.c: shm_malloc, shm_free, shm_realloc, shm_check_size and
-- shm_get_addr. Each is one step of the shared state, since each holds the context's mutex.
mod Realloc
pub mod Init
mod Tests
use shmmalloc.Base.{
  ℕ, zero, suc, Bool, true, false, not, ◌&&◌, Option, none, some, ltb, leb, ◌==◌, if◌then◌else◌,
  guard, ◌>>=◌,
}
use shmmalloc.Position.{shm_null, pos2index, pos2offset}
use shmmalloc.Context.{Context, shm_arena_max}
use shmmalloc.Arena.{Os, get_or_update_addr, get_or_update_arena_addr}
use shmmalloc.Arena.Alloc.{malloc_arena}
use shmmalloc.Arena.Dispatch.{free_arena, check_arena}

unfoldable pub shm_malloc : Os → Context → ℕ → Option (Context × ℕ)
shm_malloc os c size = if size == 0 then some (c, shm_null) else malloc_arena os c size

unfoldable pub shm_free : Os → Context → ℕ → Option Context
shm_free os c pos =
    if pos == shm_null then some c else free_arena os c (pos2index pos) (pos2offset pos)

-- What `memcpy` of shm_realloc moves: `size` bytes from one position to another.
pub record Copy : Type 0 where
  pub dest : ℕ
  pub src : ℕ
  pub size : ℕ

-- The block moves from `pos`, where it has `check_size` bytes, to `ret`.
move_block : Os → Context → ℕ → ℕ → ℕ → Option (Context × (ℕ × Option Copy))
move_block os c pos ret check_size = get_or_update_addr os c pos >>= λ (c1, src).
    get_or_update_addr os c1 ret >>= λ (c2, dest). guard (src && dest) (
      free_arena os c2 (pos2index pos) (pos2offset pos) >>= λ c3.
      some (c3, (ret, some (record { dest = ret; src = pos; size = check_size }))))

-- The block's position, and the copy that was made.
unfoldable pub shm_realloc : Os → Context → ℕ → ℕ → Option (Context × (ℕ × Option Copy))
unfolding move_block
shm_realloc os c pos size =
    if pos == shm_null
    then (shm_malloc os c size >>= λ (c1, ret). some (c1, (ret, none)))
    else check_arena os c (pos2index pos) (pos2offset pos) >>= λ (c1, check_size).
        if ltb check_size size && not (check_size == 0)
        then (malloc_arena os c1 size >>= λ (c2, ret).
            if ret == shm_null then some (c2, (ret, none)) else move_block os c2 pos ret check_size)
        else some (c1, (pos, none))

unfoldable pub shm_check_size : Os → Context → ℕ → Option (Context × ℕ)
shm_check_size os c pos =
    if pos == shm_null then some (c, 0) else check_arena os c (pos2index pos) (pos2offset pos)

unfoldable pub shm_set_userdata : Context → ℕ → Context
shm_set_userdata c d = record c { user_data = d }

unfoldable pub shm_get_userdata : Context → ℕ
shm_get_userdata c = c.user_data

-- The arena and the offset in its mapping, `none` for NULL.
unfoldable pub shm_get_addr : Os → Context → ℕ → Option (Context × Option (ℕ × ℕ))
shm_get_addr os c pos =
    let index = pos2index pos in
    if leb shm_arena_max index
    then some (c, none)
    else get_or_update_arena_addr os c index >>= λ (c1, mapped).
        some (c1, if mapped then some (index, pos2offset pos) else none)

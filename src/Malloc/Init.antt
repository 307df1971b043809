-- ===== src/Malloc/Init.antt =====
-- shm_init and shm_exit of src/shm_malloc.c. The path has been copied and the exit handler is set.
use shmmalloc.Base.{ℕ, zero, suc, ◌+◌, ◌-◌, Bool, true, false, Option, some, if◌then◌else◌, ◌>>=◌}
use shmmalloc.Context.{Context, shm_arena_max, is_arena_valid}
use shmmalloc.Arena.{Os, not_mapped, set_arena_addr, mmap_arena}
use shmmalloc.Arena.Init.{init_shared_context, exit_shared_context}

-- The loop that maps the arenas, at arena `i` with `k` left.
map_arenas : Os → ℕ → Context → ℕ → Option Context
map_arenas os zero c i = some c
map_arenas os (suc k) c i =
    let next =
      if is_arena_valid c i
      then (mmap_arena os c i >>= λ mapped. some (set_arena_addr c i mapped (c.arenas i).shmid))
      else some c in
    next >>= λ c1. map_arenas os k c1 (i + 1)

-- The result says whether shm_init returns 0.
unfoldable pub shm_init : Os → Context → Bool → Option (Context × Bool)
unfolding map_arenas
shm_init os c create =
    init_shared_context os (record c { addrs = λ i. not_mapped }) create >>= λ (c1, ok).
    if ok
    then (map_arenas os (shm_arena_max - 1) (set_arena_addr c1 0 true (c1.arenas 0).shmid) 1
        >>= λ c2. some (c2, true))
    else some (c1, false)

unfoldable pub shm_exit : Context → Context × Option ℕ
unfolding exit_shared_context
shm_exit c = exit_shared_context c

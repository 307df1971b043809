-- ===== src/Arena/Init.antt =====
-- init_shared_context and exit_shared_context of src/shm_context.c. The memory of the context's
-- segment is what stands there before: all zero, or what another process set up.
use shmmalloc.Base.{
  ℕ, ◌+◌, ◌-◌, ◌^◌, Bool, true, false, ◌&&◌, Option, none, some, ◌==◌, if◌then◌else◌, u32, guard,
  ◌>>=◌,
}
use shmmalloc.Position.{shm_arena_unit_size}
use shmmalloc.Context.{Context}
use shmmalloc.Context.Start.{shared_arenas}
use shmmalloc.Arena.{Os}

abbrev pub shm_init_flag : ℕ
shm_init_flag = 0x1020304a

unfoldable pub init_shm_shared_field : Context → ℕ → ℕ → Context
init_shm_shared_field c key shmid = record c {
  init_flag = shm_init_flag;
  key = key;
  count = 0;
  user_data = 0;
  arenas = shared_arenas shmid;
  run_pool = λ i. record { root = 0; size = 0 };
  chunk_small_pool = record { root = 0; size = 0 };
  chunk_medium_pool = record { root = 0; size = 0 };
}

-- The block `if(create)`: `none` where the file cannot be locked.
set_up : Os → Context → Bool → ℕ → ℕ → Option Context
unfolding init_shm_shared_field
set_up os c create key shmid =
    if create
    then guard os.lock_file
        (some (if c.init_flag == shm_init_flag then c else init_shm_shared_field c key shmid))
    else some c

-- The result says whether the context is not NULL.
unfoldable pub init_shared_context : Os → Context → Bool → Option (Context × Bool)
unfolding set_up
init_shared_context os c create =
    let reached : Option (Context × ℕ) = os.get_key 0 >>= λ key.
    (if create then os.create key shm_arena_unit_size else os.find key) >>= λ shmid.
    set_up os c create key shmid >>= λ c1. some (c1, key) in
    elim reached [
      | none ↦ some (c, false)
      | some (c1, key) ↦
          guard (c1.init_flag == shm_init_flag && c1.key == key)
            (some (record c1 { count = u32 (c1.count + 1) }, true))
    ]

-- The context after a process has left it, and the segment that is marked for removal.
unfoldable pub exit_shared_context : Context → Context × Option ℕ
exit_shared_context c =
    let count = u32 (c.count + 2 ^ 32 - 1) in
    (record c { count = count }, if count == 0 then some (c.arenas 0).shmid else none)

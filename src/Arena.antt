-- ===== src/Arena.antt =====
-- The arenas of src/shm_context.c and the mappings of src/shm_malloc.c and src/shm_malloc_inc.h:
-- which segments exist, which of their chunks are taken, and which this process has mapped.
pub mod Alloc
pub mod Init
pub mod Dispatch
pub mod Slots
mod Reuse
mod Large
pub mod Mapping
mod Tests
use shmmalloc.Base.{
  ℕ, zero, suc, ◌+◌, ◌-◌, ◌*◌, ◌/◌, ◌%◌, ◌^◌, Bool, true, false, not, ◌&&◌, ◌||◌, List, Option,
  none, some, ltb, ◌==◌, if◌then◌else◌, u32, guard, ◌>>=◌, get_or, set, replicate,
}
use shmmalloc.Position.{
  shm_null, shm_chunk_unit_size, shm_arena_unit_size, shm_arena_chunk_size, index2pos, pos2index,
  pos2offset,
}
use shmmalloc.Context.{
  Context, Arena, ArenaAddr, ArenaType, arena_empty, arena_context, arena_chunk, arena_large,
  is_empty, is_context, shm_arena_max, put_arena, write, is_arena_valid,
}

-- What the calls of src/shm_op_wrapper.c answer: the key for an arena's index, the segment that is
-- made for a key and a size or found for a key, whether it could be marked for removal or attached,
-- and whether shm_lock_file got the lock.
pub record Os : Type 0 where
  pub get_key : ℕ → Option ℕ
  pub create : ℕ → ℕ → Option ℕ
  pub find : ℕ → Option ℕ
  pub remove : ℕ → Bool
  pub attach : ℕ → Bool
  pub lock_file : Bool

abbrev pub put_addr : Context → ℕ → ArenaAddr → Context
put_addr c i a = record c { addrs = write c.addrs i a }

abbrev pub not_mapped : ArenaAddr
not_mapped = record { mapped = false; shmid = 0 }

unfoldable pub set_arena_addr : Context → ℕ → Bool → ℕ → Context
set_arena_addr c index mapped shmid = put_addr c index (record { mapped = mapped; shmid = shmid })

unfoldable pub clear_arena_addr : Context → ℕ → Context
clear_arena_addr c index = put_addr c index not_mapped

-- mmap_arena, with its assertion: whether the segment could be attached.
unfoldable pub mmap_arena : Os → Context → ℕ → Option Bool
mmap_arena os c index =
    let a = c.arenas index in
    guard (not (is_empty a.type) && not (is_context a.type)) (some (os.attach a.shmid))

-- The stale mapping of get_or_update_arena_addr goes.
unmap_stale : Context → ℕ → Option Context
unmap_stale c index =
    if not ((c.addrs index).shmid == 0)
    then guard (c.addrs index).mapped (some (put_addr c index not_mapped))
    else some c

-- The result says whether the address is not NULL.
unfoldable pub get_or_update_arena_addr : Os → Context → ℕ → Option (Context × Bool)
unfolding unmap_stale
get_or_update_arena_addr os c index =
    let shmid = (c.arenas index).shmid in
    if (c.addrs index).shmid == shmid
    then some (c, (c.addrs index).mapped)
    else unmap_stale c index >>= λ c1.
        if is_arena_valid c1 index
        then (mmap_arena os c1 index >>= λ mapped.
            some (set_arena_addr c1 index mapped shmid, mapped))
        else some (c1, (c1.addrs index).mapped)

unfoldable pub get_or_update_addr : Os → Context → ℕ → Option (Context × Bool)
get_or_update_addr os c pos =
    if pos == shm_null then some (c, false) else get_or_update_arena_addr os c (pos2index pos)

-- The first empty arena from `i` on with `k` places left, or shm_arena_max.
find_empty : Context → ℕ → ℕ → ℕ
find_empty c zero i = i
find_empty c (suc k) i =
    let rest = find_empty c k (i + 1) in if is_empty (c.arenas i).type then i else rest

abbrev pub no_chunks : List ℕ
no_chunks = replicate shm_arena_chunk_size shm_null

-- The new arena's index; `some (c, none)` where the source returns NULL.
unfoldable pub new_arena : Os → Context → ArenaType → ℕ → Option (Context × Option ℕ)
unfolding find_empty
new_arena os c type size =
    let index = find_empty c (shm_arena_max - 1) 1 in
    let made = os.get_key index >>= λ key. os.create key size in
    guard (size % shm_chunk_unit_size == 0) (
      if index == shm_arena_max then some (c, none) else elim made [
        | none ↦ some (c, none)
        | some shmid ↦
            let a : Arena = record {
              type = type;
              shmid = shmid;
              index = index;
              size = size;
              used = 0;
              chunks = no_chunks;
            } in
            if os.remove shmid
            then some (set_arena_addr (put_arena c index a) index true shmid, some index)
            else some (c, none)
      ])

abbrev pub blank_arena : Arena
blank_arena = record {
  type = arena_empty;
  shmid = 0;
  index = 0;
  size = 0;
  used = 0;
  chunks = no_chunks;
}

unfoldable pub delete_arena : Context → ℕ → Option Context
delete_arena c index =
    guard (c.addrs index).mapped (some (clear_arena_addr (put_arena c index blank_arena) index))

-- The loop of new_arena_chunk at `idx` with `k` entries left.
unfoldable pub take_chunk : ℕ → Arena → ℕ → Arena × ℕ
take_chunk zero a idx = (a, shm_null)
take_chunk (suc k) a idx =
    let rest = take_chunk k a (idx + 1) in
    let ret = index2pos a.index (idx * shm_chunk_unit_size) in
    if get_or a.chunks idx shm_null == shm_null
    then (record a { chunks = set a.chunks idx ret; used = u32 (a.used + 1) }, ret)
    else rest

-- The chunk's position, SHM_NULL if the arena has none left.
unfoldable pub new_arena_chunk : Arena → Arena × ℕ
new_arena_chunk a =
    if is_context a.type
    then take_chunk (shm_arena_chunk_size - 1) a 1
    else take_chunk shm_arena_chunk_size a 0

unfoldable pub delete_arena_chunk : Arena → ℕ → Option Arena
delete_arena_chunk a pos =
    let idx = pos2offset pos / shm_chunk_unit_size in
    guard (not (get_or a.chunks idx shm_null == shm_null))
      (some (record a { chunks = set a.chunks idx shm_null; used = u32 (a.used + 2 ^ 32 - 1) }))

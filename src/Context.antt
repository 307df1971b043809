-- ===== src/Context.antt =====
-- The state of src/shm_type.h: the shared context with its arenas and pools, the chunks and runs
-- in the shared memory, and the mappings that one process keeps in shm_malloc_context.
-- A chunk, a run or a tree node is named by its position.
pub mod Start
use shmmalloc.Base.{
  ℕ, zero, suc, ◌/◌, ◌<◌, Bool, true, false, not, ◌&&◌, List, Option, none, some, ltb, leb, ◌==◌,
  if◌then◌else◌, get_or,
}
use shmmalloc.Position.{shm_null, shm_chunk_unit_size}
use shmmalloc.Bitmap.{Bitmap}
use shmmalloc.PoolTree.{Heap, ShmPool}
use shmmalloc.Run.{Run}
use shmmalloc.RbTree.{Node, Rb}
use shmmalloc.Medium.{Medium}

pub data ArenaType : Type 0 where
  arena_empty arena_context arena_chunk arena_large : ArenaType

abbrev pub is_empty : ArenaType → Bool
is_empty arena_empty = true
is_empty arena_context = false
is_empty arena_chunk = false
is_empty arena_large = false

abbrev pub is_context : ArenaType → Bool
is_context arena_empty = false
is_context arena_context = true
is_context arena_chunk = false
is_context arena_large = false

pub record Arena : Type 0 where
  pub type : ArenaType
  pub shmid : ℕ
  pub index : ℕ
  pub size : ℕ
  pub used : ℕ
  pub chunks : List ℕ

pub data ChunkType : Type 0 where
  chunk_empty chunk_small chunk_medium : ChunkType

-- The detail of a small chunk: the number of units and the bitmap of the units in use.
pub record Small : Type 0 where
  pub used : ℕ
  pub bitmap : Bitmap

-- A chunk_header without its tree node. `small` and `medium` are the two uses of `detial`.
pub record Chunk : Type 0 where
  pub type : ChunkType
  pub pos : ℕ
  pub small : Small
  pub medium : Medium

pub record ChunkValue : Type 0 where
  pub index : ℕ
  pub maxsize : ℕ

-- A chunk_tree: its nodes stand at the head of the chunks.
pub record ChunkPool : Type 0 where
  pub root : ℕ
  pub size : ℕ

-- An entry of arena_addrs: `mapped` says that `addr` is not NULL.
pub record ArenaAddr : Type 0 where
  pub mapped : Bool
  pub shmid : ℕ

pub record Context : Type 0 where
  pub init_flag : ℕ
  pub key : ℕ
  pub count : ℕ
  pub user_data : ℕ
  pub arenas : ℕ → Arena
  pub run_pool : ℕ → ShmPool
  pub chunk_small_pool : ChunkPool
  pub chunk_medium_pool : ChunkPool
  pub run_nodes : Heap
  pub runs : ℕ → Run
  pub chunk_nodes : ℕ → Node ChunkValue
  pub chunks : ℕ → Chunk
  pub addrs : ℕ → ArenaAddr

abbrev pub shm_arena_max : ℕ
shm_arena_max = 128

-- A write to one entry of an array or of the memory.
abbrev pub write : {A : Type 0} → (ℕ → A) → ℕ → A → ℕ → A
write f p a q = if p == q then a else f q

abbrev pub put_arena : Context → ℕ → Arena → Context
put_arena c i a = record c { arenas = write c.arenas i a }

abbrev pub put_chunk : Context → ℕ → Chunk → Context
put_chunk c p chunk = record c { chunks = write c.chunks p chunk }

abbrev pub put_run : Context → ℕ → Run → Context
put_run c p run = record c { runs = write c.runs p run }

unfoldable pub is_arena_valid : Context → ℕ → Bool
is_arena_valid c index = ltb index shm_arena_max && not (is_empty (c.arenas index).type)

-- The callers ask for arenas of chunks, whose offsets below `size` all lie in one of the eight chunks.
unfoldable pub get_arena_chunk : Arena → ℕ → ℕ
get_arena_chunk a offset =
    if leb a.size offset then shm_null else get_or a.chunks (offset / shm_chunk_unit_size) shm_null

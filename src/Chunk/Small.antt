-- ===== src/Chunk/Small.antt =====
-- Small chunks, src/chunk_small.c: 256 pages, page 0 with the header and each other page a run
-- of slots of one class.
use shmmalloc.Base.{
  ℕ, ◌+◌, ◌-◌, ◌*◌, ◌/◌, ◌^◌, Bool, true, false, not, ◌&&◌, ◌||◌, Option, some, ltb, leb, ◌==◌,
  if◌then◌else◌, u32, u64, guard, ◌>>=◌,
}
use shmmalloc.Position.{shm_null, shm_chunk_unit_size}
use shmmalloc.Bitmap.{bitmap_get, bitmap_set, bitmap_clear, bitmap_sfu}
use shmmalloc.SizeClass.{shm_run_unit_size}
use shmmalloc.PoolTree.{TreeNode, ShmPool, shm_tree_push, shm_tree_pop, shm_tree_remove}
use shmmalloc.Run.{malloc_run, free_run, run_full, run_empty, init_run}
use shmmalloc.Context.{
  Context, ChunkType, chunk_small, chunk_medium, chunk_empty, Small, put_chunk, put_run, write,
}
use shmmalloc.Chunk.Pool.{update_chunk_pool}

abbrev pub shm_chunk_run_size : ℕ
shm_chunk_run_size = shm_chunk_unit_size / shm_run_unit_size

abbrev is_small : ChunkType → Bool
is_small chunk_small = true
is_small chunk_medium = false
is_small chunk_empty = false

abbrev pub put_small : Context → ℕ → Small → Context
put_small c pos d = put_chunk c pos (record (c.chunks pos) { small = d })

abbrev put_pool : Context → ℕ → (ℕ → TreeNode) × ShmPool → Context
put_pool c type (h, pool) = record c { run_nodes = h; run_pool = write c.run_pool type pool }

-- The position of the run that `offset` lies in, SHM_NULL for a unit that is not in use.
unfoldable pub find_run : Context → ℕ → ℕ → Option ℕ
find_run c chunk offset =
    let idx = offset / shm_run_unit_size in
    guard (is_small (c.chunks chunk).type) (
      some (
        if leb shm_chunk_run_size idx || not (bitmap_get (c.chunks chunk).small.bitmap idx)
        then shm_null
        else chunk + idx * shm_run_unit_size))

unfoldable pub init_chunk_small : Small → Small
init_chunk_small d = record { used = 1; bitmap = bitmap_set d.bitmap 0 }

-- A page that is cleared is a tree node without links.
abbrev no_links : TreeNode
no_links = record { rank = 0; root = 0; left = 0; right = 0 }

-- The new run's position.
unfoldable pub new_chunk_run : Context → ℕ → ℕ → Option (Context × ℕ)
new_chunk_run c chunk type =
    let header = c.chunks chunk in
    let d = header.small in
    let taken = bitmap_sfu d.bitmap shm_chunk_run_size in
    guard (is_small header.type && ltb d.used shm_chunk_run_size && ltb taken.1 shm_chunk_run_size)
      (let c1 = put_small c chunk (record { used = u32 (d.used + 1); bitmap = taken.0 }) in
        let pos = u64 (header.pos + taken.1 * shm_run_unit_size) in
        let c2 = put_run c1 pos (init_run pos type) in
        shm_tree_push (write c2.run_nodes pos no_links) (c2.run_pool type) pos >>= λ pushed.
        let c3 = put_pool c2 type pushed in
        let told =
          if (c3.chunks chunk).small.used == shm_chunk_run_size
          then update_chunk_pool chunk c3 0
          else some c3 in
        told >>= λ c4. some (c4, pos))

-- A slot of the run at `run`, which leaves the pool once it is full.
unfoldable pub malloc_chunk_run : Context → ℕ → Option (Context × ℕ)
malloc_chunk_run c run = malloc_run (c.runs run) >>= λ (r, offset).
    let c1 = put_run c run r in
    let pos = u64 ((c.runs run).pos + offset) in
    if run_full r
    then (shm_tree_pop c1.run_nodes (c1.run_pool r.conf_index) >>= λ popped.
        some (put_pool c1 r.conf_index popped, pos))
    else some (c1, pos)

unfoldable pub free_chunk_run : Context → ℕ → ℕ → Option Context
free_chunk_run c chunk pos =
    let header = c.chunks chunk in
    let d = header.small in
    let idx = u32 (u64 (pos + 2 ^ 64 - header.pos) / shm_run_unit_size) in
    guard (bitmap_get d.bitmap idx) (
      some (
        put_small c chunk
          (record { used = u32 (d.used + 2 ^ 32 - 1); bitmap = bitmap_clear d.bitmap idx })))

-- The slot of the run goes back, and a run that was full joins the pool again.
free_slot : Context → ℕ → ℕ → ℕ → Option Context
free_slot c chunk offset run =
    let r = c.runs run in
    let run_offset = u32 (u64 ((c.chunks chunk).pos + offset) + 2 ^ 64 - r.pos) in
    free_run r run_offset >>= λ r'.
    let c1 = put_run c run r' in
    if run_full r
    then (shm_tree_push c1.run_nodes (c1.run_pool r'.conf_index) r'.pos >>= λ pushed.
        some (put_pool c1 r'.conf_index pushed))
    else some c1

-- A run that has become empty gives its page back, unless it is the last of its pool. The result
-- says that the chunk has no run left.
drop_run : Context → ℕ → ℕ → Option (Context × Bool)
unfolding free_chunk_run
drop_run c chunk run =
    let r = c.runs run in
    let pool = c.run_pool r.conf_index in
    if run_empty r && ltb 1 pool.size
    then (shm_tree_remove c.run_nodes pool r.pos >>= λ removed.
        let c1 = put_pool c r.conf_index removed in
        let told =
          if (c1.chunks chunk).small.used == shm_chunk_run_size
          then update_chunk_pool chunk c1 1
          else some c1 in
        told >>= λ c2.
        free_chunk_run c2 chunk r.pos >>= λ c3. some (c3, (c3.chunks chunk).small.used == 1))
    else some (c, false)

unfoldable pub free_chunk_small : Context → ℕ → ℕ → Option (Context × Bool)
unfolding free_slot drop_run
free_chunk_small c chunk offset = find_run c chunk offset >>= λ run.
    if run == shm_null
    then some (c, false)
    else free_slot c chunk offset run >>= λ c1. drop_run c1 chunk run

unfoldable pub check_chunk_small : Context → ℕ → ℕ → Option ℕ
check_chunk_small c chunk offset =
    find_run c chunk offset >>= λ run. some (if run == shm_null then 0 else (c.runs run).elemsize)

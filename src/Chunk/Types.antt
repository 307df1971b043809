-- ===== src/Chunk/Types.antt =====
-- init_chunk, free_chunk and check_chunk of src/shm_chunk.c, which go by the chunk's type.
use shmmalloc.Base.{ℕ, Bool, false, Option, some, [], ◌∷◌, if◌then◌else◌, ◌>>=◌}
use shmmalloc.Position.{pos2index}
use shmmalloc.Bitmap.{Bitmap}
use shmmalloc.RbTree.{Node, red}
use shmmalloc.Medium.{
  Medium, init_chunk_medium, malloc_chunk_medium, free_chunk_medium, check_chunk_medium,
  get_medium_max_size,
}
use shmmalloc.Context.{
  Context, Chunk, ChunkType, chunk_empty, chunk_small, chunk_medium, ChunkValue, Small, put_chunk,
  write,
}
use shmmalloc.Chunk.Pool.{insert_chunk, delete_chunk, update_chunk_pool}
use shmmalloc.Chunk.Small.{init_chunk_small, free_chunk_small, check_chunk_small}

abbrev no_units : Bitmap
no_units = 0 ∷ 0 ∷ 0 ∷ 0 ∷ []

abbrev no_small : Small
no_small = record { used = 0; bitmap = no_units }

-- The node that init_chunk writes; rbtree_insert sets its links.
abbrev chunk_node : ℕ → ℕ → Node ChunkValue
chunk_node pos maxsize = record {
  s = pos;
  p = 0;
  left = 0;
  right = 0;
  v = record { index = pos2index pos; maxsize = maxsize };
  color = red;
}

abbrev place : Context → ℕ → Chunk → ℕ → Context
place c pos chunk maxsize = record (put_chunk c pos chunk) {
  chunk_nodes = write c.chunk_nodes pos (chunk_node pos maxsize);
}

init_medium : Context → ℕ → Option Context
init_medium c pos =
    let old = (c.chunks pos).medium in
    init_chunk_medium no_units old.tree.nodes >>= λ d.
    let chunk : Chunk = record { type = chunk_medium; pos = pos; small = no_small; medium = d } in
    insert_chunk (place c pos chunk (get_medium_max_size d)) chunk_medium pos

unfoldable pub init_chunk : Context → ℕ → ChunkType → Option Context
unfolding init_medium
init_chunk c pos chunk_small =
    let chunk : Chunk = record (c.chunks pos) {
      type = chunk_small;
      pos = pos;
      small = init_chunk_small no_small;
    } in
    insert_chunk (place c pos chunk 1) chunk_small pos
init_chunk c pos chunk_medium = init_medium c pos
init_chunk c pos chunk_empty = init_medium c pos

abbrev put_medium : Context → ℕ → Medium → Context
put_medium c pos d = put_chunk c pos (record (c.chunks pos) { medium = d })

unfoldable pub malloc_medium : Context → ℕ → ℕ → Option (Context × ℕ)
malloc_medium c pos len =
    malloc_chunk_medium (update_chunk_pool pos) c (c.chunks pos).pos (c.chunks pos).medium len
    >>= λ ((c1, d), ret). some (put_medium c1 pos d, ret)

free_medium : Context → ℕ → ℕ → Option (Context × Bool)
free_medium c pos offset =
    free_chunk_medium (update_chunk_pool pos) c (c.chunks pos).medium offset >>= λ ((c1, d), empty).
    some (put_medium c1 pos d, empty)

by_type : Context → ℕ → ℕ → ChunkType → Option (Context × Bool)
unfolding free_medium
by_type c pos offset chunk_small = free_chunk_small c pos offset
by_type c pos offset chunk_medium = free_medium c pos offset
by_type c pos offset chunk_empty = some (c, false)

unfoldable pub free_chunk : Context → ℕ → ℕ → Option (Context × Bool)
unfolding by_type
free_chunk c pos offset = by_type c pos offset (c.chunks pos).type >>= λ (c1, check).
    if check then (delete_chunk c1 pos >>= λ c2. some (c2, check)) else some (c1, check)

check_by_type : Context → ℕ → ℕ → ChunkType → Option ℕ
check_by_type c pos offset chunk_small = check_chunk_small c pos offset
check_by_type c pos offset chunk_medium = check_chunk_medium (c.chunks pos).medium offset
check_by_type c pos offset chunk_empty = some 0

unfoldable pub check_chunk : Context → ℕ → ℕ → Option ℕ
unfolding check_by_type
check_chunk c pos offset = check_by_type c pos offset (c.chunks pos).type

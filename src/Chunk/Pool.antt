-- ===== src/Chunk/Pool.antt =====
-- The two chunk pools of src/shm_chunk.c: chunk_tree_compare, get_avaliable_chunk, delete_chunk
-- and update_chunk_pool.
use shmmalloc.Base.{ℕ, ◌+◌, ◌-◌, ◌^◌, Option, some, ltb, ◌==◌, if◌then◌else◌, u32, ◌>>=◌}
use shmmalloc.RbTree.{Sign, negative, equal, positive, Rb, rbtree_lower}
use shmmalloc.RbTree.Update.{rbtree_insert, rbtree_delete}
use shmmalloc.Context.{
  Context, ChunkType, chunk_empty, chunk_small, chunk_medium, ChunkValue, put_chunk,
}

-- The sign of a uint32_t difference that is returned as an int.
abbrev int_sign : ℕ → Sign
int_sign r = if r == 0 then equal else if ltb r (2 ^ 31) then positive else negative

unfoldable pub chunk_tree_compare : ChunkValue → ChunkValue → Sign
chunk_tree_compare a b =
    if a.maxsize == b.maxsize
    then int_sign (u32 (a.index + 2 ^ 32 - b.index))
    else int_sign (u32 (a.maxsize + 2 ^ 32 - b.maxsize))

-- The pool of the chunks of a type, as a tree over the chunks' nodes, and its changed version.
abbrev pub chunk_tree : Context → ChunkType → Rb ChunkValue
chunk_tree c chunk_small = record {
  nodes = c.chunk_nodes;
  root = c.chunk_small_pool.root;
  size = c.chunk_small_pool.size;
}
chunk_tree c chunk_medium = record {
  nodes = c.chunk_nodes;
  root = c.chunk_medium_pool.root;
  size = c.chunk_medium_pool.size;
}
chunk_tree c chunk_empty = record {
  nodes = c.chunk_nodes;
  root = c.chunk_medium_pool.root;
  size = c.chunk_medium_pool.size;
}

abbrev pub put_chunk_tree : Context → ChunkType → Rb ChunkValue → Context
put_chunk_tree c chunk_small t = record c {
  chunk_nodes = t.nodes;
  chunk_small_pool = record { root = t.root; size = t.size };
}
put_chunk_tree c chunk_medium t = record c {
  chunk_nodes = t.nodes;
  chunk_medium_pool = record { root = t.root; size = t.size };
}
put_chunk_tree c chunk_empty t = record c {
  chunk_nodes = t.nodes;
  chunk_medium_pool = record { root = t.root; size = t.size };
}

unfoldable pub insert_chunk : Context → ChunkType → ℕ → Option Context
insert_chunk c type pos =
    rbtree_insert chunk_tree_compare (chunk_tree c type) pos >>= λ t. some (put_chunk_tree c type t)

abbrev search_value : ChunkType → ℕ → ChunkValue
search_value chunk_small size = record { index = 0; maxsize = 1 }
search_value chunk_medium size = record { index = 0; maxsize = u32 size }
search_value chunk_empty size = record { index = 0; maxsize = u32 size }

-- `some 0` is NULL.
unfoldable pub get_avaliable_chunk : Context → ChunkType → ℕ → Option ℕ
get_avaliable_chunk c type size =
    rbtree_lower chunk_tree_compare (chunk_tree c type) (search_value type size)

unfoldable pub delete_chunk : Context → ℕ → Option Context
delete_chunk c pos = rbtree_delete (chunk_tree c (c.chunks pos).type) pos >>= λ t.
    let c1 = put_chunk_tree c (c.chunks pos).type t in
    some (put_chunk c1 pos (record (c1.chunks pos) { type = chunk_empty }))

unfoldable pub update_chunk_pool : ℕ → Context → ℕ → Option Context
update_chunk_pool pos c new_max =
    let type = (c.chunks pos).type in
    rbtree_delete (chunk_tree c type) pos >>= λ t.
    let c1 = put_chunk_tree c type t in
    let n = c1.chunk_nodes pos in
    let v : ChunkValue = record n.v { maxsize = new_max } in
    let c2 = record c1 {
      chunk_nodes = λ q. if pos == q then record n { v = v } else c1.chunk_nodes q;
    } in
    insert_chunk c2 type pos

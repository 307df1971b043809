-- ===== src/Chunk/Tests.antt =====
-- Runs of the chunk pools: their order, searches, and a pool that a medium chunk joins or leaves.
use shmmalloc.Base.{ℕ, ◌<◌, ◌≤◌, ◌==◌, if◌then◌else◌, ◌⊎◌, some, refl, ◌≡◌, arith}
use shmmalloc.RbTree.{negative, black, Node}
use shmmalloc.RbTree.Ghost.{Tree, tip, fork, top}
use shmmalloc.RbTree.Insert.{Inserted}
use shmmalloc.RbTree.Insert.Start.{IsFresh}
use shmmalloc.RbTree.Found.{shape_of}
use shmmalloc.Chunk.Own.{own}
use shmmalloc.Chunk.Kept.{
  IsOrdered, Keeps, insert_chunk-Keeps, delete_chunk-Keeps, insert_chunk-get_avaliable_chunk,
}
use shmmalloc.Chunk.Pool.{
  chunk_tree_compare, chunk_tree, insert_chunk, delete_chunk, get_avaliable_chunk,
}
use shmmalloc.RbTree.Search.{Shape, leaf, branch, All, In}
use shmmalloc.Context.{Context, ChunkValue, chunk_empty, chunk_medium}
use shmmalloc.Context.Start.{start}
use shmmalloc.Chunk.Available.{IsPool, get_avaliable_chunk-enough}
use shmmalloc.Chunk.Order.{chunk_tree_compare-eq-lexicographic}

chunk_tree_compare-eq-lexicographic_example :
    chunk_tree_compare (record { index = 2; maxsize = 4096 }) (record { index = 1; maxsize = 8192 })
    ≡ negative
chunk_tree_compare-eq-lexicographic_example =
    chunk_tree_compare-eq-lexicographic (record { index = 2; maxsize = 4096 })
      (record { index = 1; maxsize = 8192 }) (omega arith) (omega arith) (omega arith) (omega arith)

-- A context with one medium chunk, in which 8192 bytes are free.
abbrev one_medium : Context
one_medium = record (start 7) {
  chunk_nodes = λ q.
      if q == 1048576
      then record {
        s = 1048576;
        p = 0;
        left = 0;
        right = 0;
        v = record { index = 0; maxsize = 8192 };
        color = black;
      }
      else (start 7).chunk_nodes q;
  chunk_medium_pool = record { root = 1048576; size = 1 };
}

abbrev one_shape : Shape
one_shape = branch leaf 1048576 leaf

one_medium-IsPool : IsPool one_medium one_shape
one_medium-IsPool = record {
  counted = omega arith;
  links = (refl, omega arith, refl, refl);
  fits = ((omega arith, omega arith), tt, tt);
  ordered = (tt, tt, tt, tt);
}

get_avaliable_chunk-enough_example :
    (chunk : ℕ) × (get_avaliable_chunk one_medium chunk_medium 5000 ≡ some chunk)
    × ((All (λ n. (one_medium.chunk_nodes n).v.maxsize < 5000) one_shape × (chunk ≡ 0))
        ⊎ (In chunk one_shape × (5000 ≤ (one_medium.chunk_nodes chunk).v.maxsize)))
get_avaliable_chunk-enough_example =
    get_avaliable_chunk-enough one_medium 5000 one_shape one_medium-IsPool (omega arith)

-- The same with a second medium chunk, in which 4096 bytes are free, that is in no pool.
abbrev medium_node : ℕ → ℕ → Node ChunkValue
medium_node pos size = record {
  s = pos;
  p = 0;
  left = 0;
  right = 0;
  v = record { index = 0; maxsize = size };
  color = black;
}

abbrev two_medium : Context
two_medium = record (start 7) {
  chunks = λ q. record ((start 7).chunks q) { type = chunk_medium };
  chunk_nodes = λ q.
      if q == 1048576
      then medium_node 1048576 8192
      else if q == 2097152
      then medium_node 2097152 4096
      else (start 7).chunk_nodes q;
  chunk_medium_pool = record { root = 1048576; size = 1 };
}

abbrev one_tree : Tree
one_tree = fork black tip 1048576 tip

two_medium-IsOrdered : IsOrdered (chunk_tree two_medium chunk_medium) one_tree
two_medium-IsOrdered = record {
  holds = record {
    label = λ n. n;
    at = record {
      lo = 0;
      hi = 1048577;
      stores = (omega arith, refl, tt, tt);
      around = refl;
      within = (omega arith, omega arith);
      outside = tt;
    };
    balanced = (tt, (1, (0, refl, refl, refl)));
    counted = refl;
  };
  fits = ((omega arith, omega arith), tt);
  sorted = (tt, tt);
}

two_medium-IsFresh :
    IsFresh
      (own (chunk_tree two_medium chunk_medium))
      (chunk_tree two_medium chunk_medium)
      2097152
      one_tree
two_medium-IsFresh = record {
  node = omega arith;
  self = refl;
  value = refl;
  absent = (omega arith, tt, tt);
}

insert_chunk-Keeps_example :
    (out : Context) × (tree2 : Tree) × (insert_chunk two_medium chunk_medium 2097152 ≡ some out)
    × Keeps (chunk_tree two_medium chunk_medium) (chunk_tree out chunk_medium) tree2
    × Inserted 2097152 one_tree tree2
insert_chunk-Keeps_example =
    insert_chunk-Keeps two_medium chunk_medium 2097152 one_tree two_medium-IsOrdered
      two_medium-IsFresh (omega arith) (omega arith, omega arith)

delete_chunk-Keeps_example :
    (out : Context) × (tree2 : Tree) × (delete_chunk two_medium 1048576 ≡ some out)
    × Keeps (chunk_tree two_medium chunk_medium) (chunk_tree out chunk_medium) tree2
    × Inserted 1048576 tree2 one_tree
    × ((out.chunks 1048576).type ≡ chunk_empty)
delete_chunk-Keeps_example =
    delete_chunk-Keeps two_medium top black tip 1048576 tip two_medium-IsOrdered (omega arith)

insert_chunk-get_avaliable_chunk_example :
    (out : Context) × (tree2 : Tree) × (chunk : ℕ) × (insert_chunk two_medium chunk_medium 2097152
      ≡ some out)
    × (get_avaliable_chunk out chunk_medium 4000 ≡ some chunk)
    × Keeps (chunk_tree two_medium chunk_medium) (chunk_tree out chunk_medium) tree2
    × Inserted 2097152 one_tree tree2
    × In chunk (shape_of tree2)
    × (4000 ≤ (out.chunk_nodes chunk).v.maxsize)
insert_chunk-get_avaliable_chunk_example =
    insert_chunk-get_avaliable_chunk two_medium 2097152 4000 one_tree two_medium-IsOrdered
      two_medium-IsFresh (omega arith) (omega arith, omega arith) (omega arith)

-- ===== src/Chunk/Kept.antt =====
-- The pools of chunks of src/shm_chunk.c as ordered red-black trees: what insert_chunk and
-- delete_chunk keep, and what get_avaliable_chunk then finds.
use shmmalloc.Base.{
  ℕ, ◌+◌, ◌^◌, ◌≤◌, ◌<◌, ◌≡◌, refl, sym, ap, ◌∙◌, inl, inr, arith, subst, some, ◌∷◌, ◌>>=◌, eq→==,
}
use shmmalloc.RbTree.{Colour, Rb}
use shmmalloc.RbTree.Ghost.{Tree, fork, Way, plug, inorder}
use shmmalloc.RbTree.Search.{In, Holds}
use shmmalloc.RbTree.Sorted.{AllIn, AllIn-split, AllIn-join, AllIn-zip, Sorted}
use shmmalloc.RbTree.Insert.{Inserted, rbtree_insert-IsRbTree}
use shmmalloc.RbTree.Insert.Start.{IsRbTree, IsFresh}
use shmmalloc.RbTree.Delete.{rbtree_delete-IsRbTree}
use shmmalloc.RbTree.Found.{
  shape_of, count-shape_of, shape-All, All-shape, Stores-Holds, values, Sorted-Ordered,
}
use shmmalloc.Context.{
  Context, Chunk, ChunkType, chunk_empty, chunk_small, chunk_medium, ChunkValue, put_chunk,
}
use shmmalloc.Chunk.Pool.{
  chunk_tree_compare, chunk_tree, put_chunk_tree, insert_chunk, delete_chunk, get_avaliable_chunk,
}
use shmmalloc.Chunk.Available.{FitsInt, IsPool, get_avaliable_chunk-enough}
use shmmalloc.Chunk.Own.{
  chunk_tree_compare-IsStrict, own, IsRbTree-own, Sorted-keys, without-Sorted,
}

-- A pool of chunks: a red-black tree whose keys are the values in its nodes, which fit, in order.
pub record IsOrdered (t : Rb ChunkValue) (tree : Tree) : Type 0 where
  pub holds : IsRbTree (own t) t tree
  pub fits : AllIn (λ n. FitsInt (own t n)) (inorder tree)
  pub sorted : Sorted chunk_tree_compare (own t) (inorder tree)

-- A pool after an operation: ordered again, and every chunk in it has the key that it had.
pub record Keeps (t out : Rb ChunkValue) (tree : Tree) : Type 0 where
  pub pool : IsOrdered out tree
  pub keys : AllIn (λ n. own out n ≡ own t n) (inorder tree)

renewed :
    (t out : Rb ChunkValue) (tree : Tree)
    → IsRbTree (own t) out tree
    → AllIn (λ n. FitsInt (own t n)) (inorder tree)
    → Sorted chunk_tree_compare (own t) (inorder tree)
    → Keeps t out tree
renewed t out tree rb fits sorted =
    let same : AllIn (λ n. own out n ≡ own t n) (inorder tree) =
      values (own t) out 0 tree rb.at.stores in
    record {
      pool = record {
        holds = IsRbTree-own chunk_tree_compare (own t) out tree rb;
        fits =
            AllIn-zip (λ n. FitsInt (own t n)) (λ n. own out n ≡ own t n) (λ n. FitsInt (own out n))
              (inorder tree) (λ n f e. subst FitsInt (sym e) f) fits same;
        sorted = Sorted-keys chunk_tree_compare (own t) (own out) (inorder tree) same sorted;
      };
      keys = same;
    }

fits_more :
    (key : ℕ → ChunkValue) (new : ℕ) (tree tree2 : Tree)
    → Inserted new tree tree2
    → FitsInt (key new)
    → AllIn (λ n. FitsInt (key n)) (inorder tree)
    → AllIn (λ n. FitsInt (key n)) (inorder tree2)
fits_more key new tree tree2 (left, right, e, f) fit fits =
    let Fit = λ (n : ℕ). FitsInt (key n) in
    let (a, b) = AllIn-split Fit left right (subst (AllIn Fit) e fits) in
    subst (AllIn Fit) (sym f) (AllIn-join Fit left (new ∷ right) a (fit, b))

fits_less :
    (key : ℕ → ChunkValue) (old : ℕ) (tree tree2 : Tree)
    → Inserted old tree tree2
    → AllIn (λ n. FitsInt (key n)) (inorder tree2)
    → AllIn (λ n. FitsInt (key n)) (inorder tree)
fits_less key old tree tree2 (left, right, e, f) fits =
    let Fit = λ (n : ℕ). FitsInt (key n) in
    let (a, (x, b)) = AllIn-split Fit left (old ∷ right) (subst (AllIn Fit) f fits) in
    subst (AllIn Fit) (sym e) (AllIn-join Fit left right a b)

less-Sorted :
    (key : ℕ → ChunkValue) (old : ℕ) (tree tree2 : Tree)
    → Inserted old tree tree2
    → Sorted chunk_tree_compare key (inorder tree2)
    → Sorted chunk_tree_compare key (inorder tree)
less-Sorted key old tree tree2 (left, right, e, f) sorted =
    subst (Sorted chunk_tree_compare key) (sym e) (
      without-Sorted chunk_tree_compare key left old right
        (subst (Sorted chunk_tree_compare key) f sorted))

chunk_tree-put_chunk_tree :
    (c : Context) (type : ChunkType) (t : Rb ChunkValue)
    → chunk_tree (put_chunk_tree c type t) type ≡ t
chunk_tree-put_chunk_tree c chunk_empty t = refl
chunk_tree-put_chunk_tree c chunk_small t = refl
chunk_tree-put_chunk_tree c chunk_medium t = refl

chunk_tree-put_chunk :
    (c : Context) (type : ChunkType) (pos : ℕ) (chunk : Chunk)
    → chunk_tree (put_chunk c pos chunk) type ≡ chunk_tree c type
chunk_tree-put_chunk c chunk_empty pos chunk = refl
chunk_tree-put_chunk c chunk_small pos chunk = refl
chunk_tree-put_chunk c chunk_medium pos chunk = refl

-- insert_chunk of a chunk whose node is in no place of the pool of its type, knows its position and
-- has a key that fits always returns: the pool is again an ordered red-black tree, with the chunk
-- at one place between the old ones, and no key changes.
pub insert_chunk-Keeps :
    (c : Context) (type : ChunkType) (pos : ℕ) (tree : Tree)
    → IsOrdered (chunk_tree c type) tree
    → IsFresh (own (chunk_tree c type)) (chunk_tree c type) pos tree
    → (chunk_tree c type).size + 1 < 2 ^ 32
    → FitsInt (own (chunk_tree c type) pos)
    → (out : Context) × (tree2 : Tree) × (insert_chunk c type pos ≡ some out)
      × Keeps (chunk_tree c type) (chunk_tree out type) tree2
      × Inserted pos tree tree2
unfolding insert_chunk
insert_chunk-Keeps c type pos tree pool fresh h fit =
    let t = chunk_tree c type in
    let done =
      rbtree_insert-IsRbTree chunk_tree_compare FitsInt chunk_tree_compare-IsStrict (own t) t pos
        tree pool.holds fresh h fit pool.fits pool.sorted in
    (
      put_chunk_tree c type done.out,
      done.tree2,
      ap (λ r. r >>= λ t2. some (put_chunk_tree c type t2)) done.runs,
      subst (λ t2. Keeps t t2 done.tree2) (sym (chunk_tree-put_chunk_tree c type done.out))
          (renewed t done.out done.tree2 done.holds
            (fits_more (own t) pos tree done.tree2 done.inserted fit pool.fits) done.sorted),
      done.inserted,
    )

-- delete_chunk of any chunk of the pool of its type always returns: the pool is again an ordered
-- red-black tree, with the other chunks in their order and their keys as they were, and the chunk
-- is of no type.
pub delete_chunk-Keeps :
    (c : Context) (path : Way) (color : Colour) (l : Tree) (pos : ℕ) (r : Tree)
    → IsOrdered (chunk_tree c (c.chunks pos).type) (plug path (fork color l pos r))
    → (chunk_tree c (c.chunks pos).type).size < 2 ^ 32
    → (out : Context) × (tree2 : Tree) × (delete_chunk c pos ≡ some out)
      × Keeps (chunk_tree c (c.chunks pos).type) (chunk_tree out (c.chunks pos).type) tree2
      × Inserted pos tree2 (plug path (fork color l pos r))
      × ((out.chunks pos).type ≡ chunk_empty)
unfolding delete_chunk
delete_chunk-Keeps c path color l pos r pool h =
    let type = (c.chunks pos).type in
    let t = chunk_tree c type in
    let tree = plug path (fork color l pos r) in
    let done = rbtree_delete-IsRbTree (own t) t path color l pos r pool.holds h in
    let c1 = put_chunk_tree c type done.out in
    let chunk = record (c1.chunks pos) { type = chunk_empty } in
    let same : chunk_tree (put_chunk c1 pos chunk) type ≡ done.out =
      chunk_tree-put_chunk c1 type pos chunk ∙ chunk_tree-put_chunk_tree c type done.out in
    (
      put_chunk c1 pos chunk,
      done.tree2,
      ap
          (λ r2. r2 >>= λ t2.
            let c2 = put_chunk_tree c type t2 in
            some (put_chunk c2 pos (record (c2.chunks pos) { type = chunk_empty })))
          done.runs,
      subst (λ t2. Keeps t t2 done.tree2) (sym same)
          (renewed t done.out done.tree2 done.holds
            (fits_less (own t) pos done.tree2 tree done.removed pool.fits)
            (less-Sorted (own t) pos done.tree2 tree done.removed pool.sorted)),
      done.removed,
      rw (eq→== pos pos refl) refl,
    )

IsPool-of :
    (c : Context) (tree : Tree)
    → IsOrdered (chunk_tree c chunk_medium) tree
    → IsPool c (shape_of tree)
IsPool-of c tree pool =
    let t = chunk_tree c chunk_medium in
    let stores = pool.holds.at.stores in
    record {
      counted = omega (arith, count-shape_of tree, pool.holds.counted);
      links =
          subst (λ r. Holds t (shape_of tree) r) (sym pool.holds.at.around)
            (Stores-Holds (own t) t 0 tree stores);
      fits = shape-All (λ n. FitsInt (own t n)) tree pool.fits;
      ordered = Sorted-Ordered chunk_tree_compare (own t) t 0 tree stores pool.sorted;
    }

-- A chunk that was put into a pool is not too small in it when its key was not.
not_all_small :
    (key key2 : ℕ → ChunkValue) (size new : ℕ) (tree tree2 : Tree)
    → Inserted new tree tree2
    → AllIn (λ n. key2 n ≡ key n) (inorder tree2)
    → AllIn (λ n. (key2 n).maxsize < size) (inorder tree2)
    → size ≤ (key new).maxsize
    → ⊥
not_all_small key key2 size new tree tree2 (left, right, e, f) keys small enough =
    let Same = λ (n : ℕ). key2 n ≡ key n in
    let Small = λ (n : ℕ). (key2 n).maxsize < size in
    let (a, (same, b)) = AllIn-split Same left (new ∷ right) (subst (AllIn Same) f keys) in
    let (a2, (less, b2)) = AllIn-split Small left (new ∷ right) (subst (AllIn Small) f small) in
    omega (arith, ap (λ v. v.maxsize) same, less, enough)

-- Under the conditions of insert_chunk on a medium pool, get_avaliable_chunk then finds, for every
-- size up to the one that is free in the new chunk, a chunk with that size free, of the ordered pool
-- with the old chunks and the new one: it never answers NULL.
pub insert_chunk-get_avaliable_chunk :
    (c : Context) (pos size : ℕ) (tree : Tree)
    → IsOrdered (chunk_tree c chunk_medium) tree
    → IsFresh (own (chunk_tree c chunk_medium)) (chunk_tree c chunk_medium) pos tree
    → c.chunk_medium_pool.size + 1 < 2 ^ 32
    → FitsInt (c.chunk_nodes pos).v
    → size ≤ (c.chunk_nodes pos).v.maxsize
    → (out : Context) × (tree2 : Tree) × (chunk : ℕ) × (insert_chunk c chunk_medium pos ≡ some out)
      × (get_avaliable_chunk out chunk_medium size ≡ some chunk)
      × Keeps (chunk_tree c chunk_medium) (chunk_tree out chunk_medium) tree2
      × Inserted pos tree tree2
      × In chunk (shape_of tree2)
      × (size ≤ (out.chunk_nodes chunk).v.maxsize)
insert_chunk-get_avaliable_chunk c pos size tree pool fresh h fit enough =
    let (out, tree2, runs, kept, inserted) =
      insert_chunk-Keeps c chunk_medium pos tree pool fresh h fit in
    let (chunk, found, which) =
      get_avaliable_chunk-enough out size (shape_of tree2) (IsPool-of out tree2 kept.pool)
        (omega (arith, fit.1, enough)) in
    elim which [
      | inl (small, e) ↦ absurd (
          not_all_small (own (chunk_tree c chunk_medium)) (own (chunk_tree out chunk_medium)) size
            pos tree tree2 inserted kept.keys
            (All-shape (λ n. (out.chunk_nodes n).v.maxsize < size) tree2 small) enough)
      | inr (at, ok) ↦ (out, tree2, chunk, runs, found, kept, inserted, at, ok)
    ]

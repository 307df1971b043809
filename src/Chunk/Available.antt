-- ===== src/Chunk/Available.antt =====
-- What get_avaliable_chunk of src/shm_chunk.c finds in a pool, by the search theorem of RbTree.
use shmmalloc.Base.{
  ℕ, ◌^◌, ◌≤◌, ◌<◌, ◌≡◌, refl, sym, ap, ltb→lt, ◌∙◌, inl, inr, ◌⊎◌, true, false, some, arith, ltb,
  ◌==◌, if◌then◌else◌, u32,
}
use shmmalloc.RbTree.{is_negative, Node, rbtree_lower}
use shmmalloc.RbTree.Search.{
  Shape, leaf, branch, count, All, In, Holds, Ordered, IsWeakOrder, rbtree_lower-Fits,
}
use shmmalloc.Context.{Context, chunk_medium, ChunkValue}
use shmmalloc.Chunk.Pool.{chunk_tree_compare, chunk_tree, get_avaliable_chunk}
use shmmalloc.Chunk.Order.{sign_nat, chunk_tree_compare-eq-lexicographic}

-- The fields of a chunk's key that is in use: 128 arenas, and sizes up to 1 MB.
abbrev pub FitsInt : ChunkValue → Type 0
FitsInt v = (v.index < 2 ^ 31) × (v.maxsize < 2 ^ 31)

lexicographic_below :
    (i m j n k p : ℕ)
    → is_negative (if m == p then sign_nat i k else sign_nat m p) ≡ true
    → is_negative (if m == n then sign_nat i j else sign_nat m n) ≡ false
    → is_negative (if n == p then sign_nat j k else sign_nat n p) ≡ true
lexicographic_below i m j n k p e f = ground (arith, e, f)

pub chunk_tree_compare-IsWeakOrder : IsWeakOrder chunk_tree_compare FitsInt
chunk_tree_compare-IsWeakOrder = record {
  below = λ a b v (ai, am) (bi, bm) (vi, vm) e f.
      let lex = chunk_tree_compare-eq-lexicographic in
      rw (lex b v bi vi bm vm) (
        lexicographic_below a.index a.maxsize b.index b.maxsize v.index v.maxsize
          (ap is_negative (sym (lex a v ai vi am vm)) ∙ e)
          (ap is_negative (sym (lex a b ai bi am bm)) ∙ f));
}

is_negative-lexicographic :
    (i m p : ℕ) → is_negative (if m == p then sign_nat i 0 else sign_nat m p) ≡ ltb m p
is_negative-lexicographic i m p = ground arith

is_negative-search :
    (v : ChunkValue) (size : ℕ)
    → FitsInt v
    → size < 2 ^ 31
    → is_negative (chunk_tree_compare v (record { index = 0; maxsize = size })) ≡ ltb v.maxsize size
is_negative-search v size (vi, vm) h =
    rw
      (chunk_tree_compare-eq-lexicographic v (record { index = 0; maxsize = size }) vi (omega arith)
        vm h)
      (is_negative-lexicographic v.index v.maxsize size)

leb_of : (m size : ℕ) → ltb m size ≡ false → size ≤ m
leb_of m size e = ground arith

All-In : (P : ℕ → Type 0) (n : ℕ) (shape : Shape) → All P shape → In n shape → P n
All-In P n leaf all at = absurd at
All-In P n (branch l x r) (px, pl, pr) (inl e) = rw e px
All-In P n (branch l x r) (px, pl, pr) (inr (inl at)) = All-In P n l pl at
All-In P n (branch l x r) (px, pl, pr) (inr (inr at)) = All-In P n r pr at

All-too_small :
    (nodes : ℕ → Node ChunkValue) (size : ℕ) (shape : Shape)
    → size < 2 ^ 31
    → All (λ n. FitsInt (nodes n).v) shape
    → All
        (λ n.
          is_negative (chunk_tree_compare (nodes n).v (record { index = 0; maxsize = size }))
          ≡ true)
        shape
    → All (λ n. (nodes n).v.maxsize < size) shape
All-too_small nodes size leaf h oks lows = tt
All-too_small nodes size (branch l x r) h (ox, ol, or') (b, bl, br) = (
  ltb→lt (nodes x).v.maxsize size (sym (is_negative-search (nodes x).v size ox h) ∙ b),
  All-too_small nodes size l h ol bl,
  All-too_small nodes size r h or' br,
)

-- The pool of medium chunks is a tree with the nodes `shape`, ordered by their free sizes, and its
-- header counts them.
pub record IsPool (c : Context) (shape : Shape) : Type 0 where
  pub counted : count shape ≤ (chunk_tree c chunk_medium).size
  pub links : Holds (chunk_tree c chunk_medium) shape c.chunk_medium_pool.root
  pub fits : All (λ n. FitsInt (c.chunk_nodes n).v) shape
  pub ordered : Ordered chunk_tree_compare (chunk_tree c chunk_medium) shape

-- On a well-formed pool, for a size below 2 ^ 31, get_avaliable_chunk always returns: a medium chunk
-- of the pool in which `size` bytes are free by its key, or NULL where every chunk's key is too
-- small.
pub get_avaliable_chunk-enough :
    (c : Context) (size : ℕ) (shape : Shape)
    → IsPool c shape
    → size < 2 ^ 31
    → (chunk : ℕ) × (get_avaliable_chunk c chunk_medium size ≡ some chunk)
      × ((All (λ n. (c.chunk_nodes n).v.maxsize < size) shape × (chunk ≡ 0))
          ⊎ (In chunk shape × (size ≤ (c.chunk_nodes chunk).v.maxsize)))
unfolding get_avaliable_chunk
get_avaliable_chunk-enough c size shape pool h =
    let whole : u32 size ≡ size = omega arith in
    let val : ChunkValue = record { index = 0; maxsize = size } in
    let same : get_avaliable_chunk c chunk_medium size
        ≡ rbtree_lower chunk_tree_compare (chunk_tree c chunk_medium) val =
      rw whole refl in
    let (chunk, found, which) =
      rbtree_lower-Fits chunk_tree_compare FitsInt chunk_tree_compare-IsWeakOrder
        (chunk_tree c chunk_medium) val shape pool.counted pool.links (omega arith, h) pool.fits
        pool.ordered in
    (
      chunk,
      same ∙ found,
      elim which [
        | inl (lows, zero_chunk) ↦
            inl (All-too_small c.chunk_nodes size shape h pool.fits lows, zero_chunk)
        | inr (at, ok) ↦
            let fits : FitsInt (c.chunk_nodes chunk).v =
              All-In (λ n. FitsInt (c.chunk_nodes n).v) chunk shape pool.fits at in
            inr (
              at,
              leb_of (c.chunk_nodes chunk).v.maxsize size
                  (sym (is_negative-search (c.chunk_nodes chunk).v size fits h) ∙ ok),
            )
      ],
    )

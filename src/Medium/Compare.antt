-- ===== src/Medium/Compare.antt =====
-- The order of the free blocks in src/chunk_medium.c, whose comparison keeps the difference of
-- two sizes in a uint16_t.
use shmmalloc.Base.{
  ℕ, zero, suc, ◌+◌, ◌-◌, ◌^◌, ◌<◌, ◌≡◌, ◌≢◌, refl, sym, Bool, true, false, Option, none, some,
  arith, ◌∙◌, ◌/◌, leb, ◌≤◌, ltb, ◌==◌, if◌then◌else◌, u16,
}
use shmmalloc.Position.{align_size, shm_page_size}
use shmmalloc.RbTree.{negative, equal, positive, Rb, lower_loop, rbtree_lower}
use shmmalloc.Medium.{MediumValue, Medium, medium_tree_compare, malloc_chunk_medium}

wrapped_positive :
    (x y : ℕ)
    → x < 2 ^ 16
    → y < 2 ^ 16
    → x ≢ y
    → (u16 (x + 2 ^ 16 - y) == 0 ≡ false) × (ltb (u16 (x + 2 ^ 16 - y)) 0 ≡ false)
wrapped_positive x y hx hy e =
    let pos : 0 < u16 (x + 2 ^ 16 - y) = omega arith in (ground arith, ground arith)

wrapped_zero : (x y : ℕ) → x < 2 ^ 16 → x ≡ y → u16 (x + 2 ^ 16 - y) ≡ 0
wrapped_zero x y hx e = omega arith

compare-positive :
    (a b : MediumValue)
    → a.size < 2 ^ 16
    → b.size < 2 ^ 16
    → a.size ≢ b.size
    → medium_tree_compare a b ≡ positive
unfolding medium_tree_compare
compare-positive a b ha hb e = let w = wrapped_positive a.size b.size ha hb e in rw (w.0, w.1) refl

-- What medium_tree_compare says of two blocks whose fields fit uint16_t: of blocks of different
-- sizes each is the greater one, and only blocks of the same size are in the order of their
-- indices.
pub medium_tree_compare_cases :
    (a b : MediumValue)
    → a.size < 2 ^ 16
    → b.size < 2 ^ 16
    → (a.size ≢ b.size
        → (medium_tree_compare a b ≡ positive) × (medium_tree_compare b a ≡ positive))
      × (a.size ≡ b.size
          → medium_tree_compare a b ≡ (
              if ltb a.index b.index
              then negative
              else if a.index == b.index
              then equal
              else positive))
unfolding medium_tree_compare
medium_tree_compare_cases a b ha hb = (
  λ e. (compare-positive a b ha hb e, compare-positive b a hb ha (λ q. e (sym q))),
  λ e. rw (wrapped_zero a.size b.size ha e) refl,
)

-- A block of the tree, with a size other than `size`.
abbrev OtherSize : Rb MediumValue → ℕ → ℕ → Type 0
OtherSize t size node =
    (node ≢ 0) × ((t.nodes node).v.size < 2 ^ 16) × ((t.nodes node).v.size ≢ size)

-- The left links lead from `node` over `k` more nodes to `last`, which has no left child, and no
-- block on the way has the size `size`.
abbrev pub LeftSpine : Rb MediumValue → ℕ → ℕ → ℕ → ℕ → Type 0
LeftSpine t size zero node last = OtherSize t size node × ((t.nodes node).left ≡ 0) × (node ≡ last)
LeftSpine t size (suc k) node last =
    OtherSize t size node × LeftSpine t size k (t.nodes node).left last

lower_loop_step :
    (t : Rb MediumValue) (size node prev fuel : ℕ) (big : Bool)
    → size < 2 ^ 16
    → OtherSize t size node
    → lower_loop medium_tree_compare (suc fuel) t (record { size = size; index = 0 }) node prev big
      ≡ lower_loop medium_tree_compare fuel t
          (record { size = size; index = 0 })
          (t.nodes node).left
          node
          true
unfolding lower_loop
lower_loop_step t size node prev fuel big hs (nz, fits, ne) =
    let off : (node == 0) ≡ false = ground arith in
    let val : MediumValue = record { size = size; index = 0 } in
    rw (off, compare-positive (t.nodes node).v val fits hs ne) refl

lower_loop-LeftSpine :
    (t : Rb MediumValue) (size k node last prev fuel : ℕ) (big : Bool)
    → size < 2 ^ 16
    → k + 2 ≤ fuel
    → LeftSpine t size k node last
    → lower_loop medium_tree_compare fuel t (record { size = size; index = 0 }) node prev big
      ≡ some last
unfolding lower_loop
lower_loop-LeftSpine t size k node last prev zero big hs h spine = absurd (omega arith)
lower_loop-LeftSpine t size k node last prev (suc zero) big hs h spine = absurd (omega arith)
lower_loop-LeftSpine t size zero node last prev (suc (suc fuel)) big hs h (here, end, e) =
    lower_loop_step t size node prev (suc fuel) big hs here ∙ rw (end, e) refl
lower_loop-LeftSpine t size (suc k) node last prev (suc (suc fuel)) big hs h (here, rest) =
    lower_loop_step t size node prev (suc fuel) big hs here
    ∙ lower_loop-LeftSpine t size k (t.nodes node).left last node (suc fuel) true hs (omega arith)
        rest

-- rbtree_lower for a size that no block on the left edge of the tree has answers with the
-- leftmost block, whatever size that block has.
pub rbtree_lower-LeftSpine :
    (t : Rb MediumValue) (size k last : ℕ)
    → size < 2 ^ 16
    → k < t.size
    → LeftSpine t size k t.root last
    → rbtree_lower medium_tree_compare t (record { size = size; index = 0 }) ≡ some last
unfolding rbtree_lower
rbtree_lower-LeftSpine t size k last hs hk spine =
    lower_loop-LeftSpine t size k t.root last 0 (t.size + 1) false hs (omega arith) spine

LeftSpine-nonzero :
    (t : Rb MediumValue) (size k node last : ℕ) → LeftSpine t size k node last → (last == 0) ≡ false
LeftSpine-nonzero t size zero node last ((nz, fits, ne), end, e) = ground arith
LeftSpine-nonzero t size (suc k) node last (here, rest) =
    LeftSpine-nonzero t size k (t.nodes node).left last rest

-- malloc_chunk_medium fails its assertion `n->v.size >= size` on a chunk whose leftmost block is
-- too small, however large the other free blocks are, when no block on the tree's left edge has
-- exactly the size that is asked for.
pub malloc_chunk_medium_stuck :
    {S : Type 0}
    → (update : S → ℕ → Option S) (pool : S) (base : ℕ) (d : Medium) (len k last : ℕ)
    → k < d.tree.size
    → LeftSpine d.tree (u16 (align_size len shm_page_size / shm_page_size)) k d.tree.root last
    → (d.tree.nodes last).v.size < u16 (align_size len shm_page_size / shm_page_size)
    → malloc_chunk_medium update pool base d len ≡ none
unfolding malloc_chunk_medium
malloc_chunk_medium_stuck update pool base d len k last hk spine small =
    let size = u16 (align_size len shm_page_size / shm_page_size) in
    let fits : size < 2 ^ 16 = omega arith in
    let found = rbtree_lower-LeftSpine d.tree size k last fits hk spine in
    let short : leb size (d.tree.nodes last).v.size ≡ false = ground arith in
    rw (found, LeftSpine-nonzero d.tree size k d.tree.root last spine, short) refl

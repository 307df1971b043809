-- ===== src/PoolTree/Shape.antt =====
-- What a heap of tree nodes stands for: a binary tree of positions.
use mathlib.Core.Bool.{false≢true}
use shmmalloc.Base.{
  ℕ, suc, ◌+◌, ◌≤◌, ◌<◌, ◌≡◌, ◌≢◌, sym, ap, ◌∙◌, Bool, true, false, ◌||◌, arith, ◌==◌, inl, inr,
  Bool-cases,
}
use shmmalloc.Position.{shm_null}
use shmmalloc.PoolTree.{TreeNode, Heap}

pub data Tree : Type 0 where
  leaf : Tree
  node : ℕ → Tree → Tree → Tree

abbrev pub top : Tree → ℕ
top leaf = shm_null
top (node p l r) = p

abbrev pub count : Tree → ℕ
count leaf = 0
count (node p l r) = suc (count l + count r)

abbrev pub mem : ℕ → Tree → Bool
mem a leaf = false
mem a (node p l r) = (a == p) || (mem a l || mem a r)

-- The `root` field of the top node is `q`.
abbrev pub HasRoot : Heap → ℕ → Tree → Type 0
HasRoot h q leaf = Unit {0}
HasRoot h q (node p l r) = (h p).root ≡ q

-- The links downwards and back up spell the tree; the top node's own `root` is left open.
abbrev pub IsTree : Heap → Tree → Type 0
IsTree h leaf = Unit {0}
IsTree h (node p l r) =
    (p ≢ shm_null)
    × ((h p).left ≡ top l)
    × ((h p).right ≡ top r)
    × HasRoot h p l
    × HasRoot h p r
    × IsTree h l
    × IsTree h r

abbrev pub Disjoint : Tree → Tree → Type 0
Disjoint s t = (a : ℕ) → mem a s ≡ true → mem a t ≡ false

-- No position occurs twice.
abbrev pub IsDistinct : Tree → Type 0
IsDistinct leaf = Unit {0}
IsDistinct (node p l r) =
    (mem p l ≡ false) × (mem p r ≡ false) × Disjoint l r × IsDistinct l × IsDistinct r

-- `p` is below every position of the tree.
abbrev pub Below : ℕ → Tree → Type 0
Below p t = (a : ℕ) → mem a t ≡ true → p < a

-- Each position is smaller than those under it.
abbrev pub IsHeap : Tree → Type 0
IsHeap leaf = Unit {0}
IsHeap (node p l r) = Below p l × Below p r × IsHeap l × IsHeap r

-- `g` differs from `h` at most at the positions of the trees.
abbrev pub SameOutside : Tree → Heap → Heap → Type 0
SameOutside t h g = (a : ℕ) → mem a t ≡ false → g a ≡ h a

pub mem_top : (p : ℕ) (l r : Tree) → mem p (node p l r) ≡ true
mem_top p l r = ground arith

pub HasRoot-same :
    {h g : Heap} (q : ℕ) (t : Tree)
    → ((a : ℕ) → mem a t ≡ true → g a ≡ h a)
    → HasRoot h q t
    → HasRoot g q t
HasRoot-same q leaf same is = tt
HasRoot-same q (node p l r) same is = ap (λ (n : TreeNode). n.root) (same p (ground arith)) ∙ is

-- A tree survives every change that spares its positions.
pub IsTree-same :
    {h g : Heap} (t : Tree) → ((a : ℕ) → mem a t ≡ true → g a ≡ h a) → IsTree h t → IsTree g t
IsTree-same leaf same is = tt
IsTree-same {h} {g} (node p l r) same (ne, el, er, hl, hr, il, ir) =
    let at : g p ≡ h p = same p (ground arith) in
    let same_l = λ (a : ℕ) (m : mem a l ≡ true). same a (ground arith) in
    let same_r = λ (a : ℕ) (m : mem a r ≡ true). same a (ground arith) in
    (
      ne,
      ap (λ (n : TreeNode). n.left) at ∙ el,
      ap (λ (n : TreeNode). n.right) at ∙ er,
      HasRoot-same p l same_l hl,
      HasRoot-same p r same_r hr,
      IsTree-same l same_l il,
      IsTree-same r same_r ir,
    )

pub ne_null : (h : Heap) (a : ℕ) (t : Tree) → IsTree h t → mem a t ≡ true → a ≢ shm_null
ne_null h a leaf is m = absurd (ground arith)
ne_null h a (node p l r) is m = elim (Bool-cases (a == p)) [
  | inl e ↦ ground arith
  | inr e ↦ elim (Bool-cases (mem a l)) [
    | inl m' ↦ ne_null h a l is.5 m'
    | inr m' ↦ ne_null h a r is.6 (ground arith)
  ]
]

pub Disjoint-sym : (s t : Tree) → Disjoint s t → Disjoint t s
Disjoint-sym s t apart a m = elim (Bool-cases (mem a s)) [
  | inl e ↦ absurd (false≢true (sym (apart a e) ∙ m))
  | inr e ↦ e
]

-- The top of a heap-ordered tree is its least position.
pub top_least : (a : ℕ) (t : Tree) → IsHeap t → mem a t ≡ true → top t ≤ a
top_least a leaf o m = absurd (false≢true m)
top_least a (node p l r) (bl, br, hl, hr) m = ground (arith, bl a, br a)

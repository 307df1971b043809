-- ===== src/PoolTree/Remove/Replace.antt =====
-- The place of a node in a tree, and the tree in which another stands at its place.
use mathlib.Core.Bool.{false≢true}
use native.Mathlib.Decide.{ℕ_discrete}
use shmmalloc.Base.{ℕ, ◌<◌, ◌≡◌, ◌≢◌, true, arith, ◌⊎◌, inl, inr}
use shmmalloc.Position.{shm_null}
use shmmalloc.PoolTree.{Heap}
use shmmalloc.PoolTree.Shape.{Tree, leaf, node, top, count, mem}
use shmmalloc.PoolTree.Merge.{IsHeapTree}

-- `x`, with the subtrees `l` and `r`, is a child of `q` in the tree.
pub data Child (q x : ℕ) (l r : Tree) : Tree → Type 0 where
  on_left : (t : Tree) → Child q x l r (node q (node x l r) t)
  on_right : (t : Tree) → Child q x l r (node q t (node x l r))
  in_left : (p : ℕ) {s : Tree} (t : Tree) → Child q x l r s → Child q x l r (node p s t)
  in_right : (p : ℕ) (t : Tree) {s : Tree} → Child q x l r s → Child q x l r (node p t s)

-- The tree with `m` in place of `x` and what is under it.
unfoldable pub replace : {q x : ℕ} {l r t : Tree} → Tree → Child q x l r t → Tree
replace {q} m (on_left t) = node q m t
replace {q} m (on_right t) = node q t m
replace m (in_left p t c) = node p (replace m c) t
replace m (in_right p t c) = node p t (replace m c)

-- Every position but the top is somewhere a child.
pub record Place (x : ℕ) (t : Tree) : Type 0 where
  pub parent : ℕ
  pub left : Tree
  pub right : Tree
  pub child : Child parent x left right t

Place-under :
    (p x : ℕ) (s t : Tree)
    → (x ≢ top s → mem x s ≡ true → Place x s)
    → (x ≢ top t → mem x t ≡ true → Place x t)
    → mem x s ≡ true ⊎ mem x t ≡ true
    → Place x (node p s t)
Place-under p x leaf t rs rt (inl i) = absurd (false≢true i)
Place-under p x (node q u v) t rs rt (inl i) = elim (ℕ_discrete x q) [
  | yes e ↦ record { parent = p; left = u; right = v; child = rw e (on_left t) }
  | no ne ↦
      let c = rs ne i in
      record { parent = c.parent; left = c.left; right = c.right; child = in_left p t c.child }
]
Place-under p x s leaf rs rt (inr i) = absurd (false≢true i)
Place-under p x s (node q u v) rs rt (inr i) = elim (ℕ_discrete x q) [
  | yes e ↦ record { parent = p; left = u; right = v; child = rw e (on_right s) }
  | no ne ↦
      let c = rt ne i in
      record { parent = c.parent; left = c.left; right = c.right; child = in_right p s c.child }
]

pub place : (x : ℕ) (t : Tree) → x ≢ top t → mem x t ≡ true → Place x t
place x leaf ne i = absurd (false≢true i)
place x (node p s t) ne i = Place-under p x s t (place x s) (place x t) (ground arith)

-- What the tree says of the child and its subtrees.
pub record ChildFacts (h : Heap) (q x : ℕ) (l r t : Tree) : Type 0 where
  pub parent : (h x).root ≡ q
  pub parent_ne : q ≢ shm_null
  pub sub : IsHeapTree h (node x l r)
  pub inside : (a : ℕ) → mem a (node x l r) ≡ true → mem a t ≡ true
  pub size : count (node x l r) < count t

pub sub_left : {h : Heap} {p : ℕ} {s t : Tree} → IsHeapTree h (node p s t) → IsHeapTree h s
sub_left is = record { tree = is.tree.5; distinct = is.distinct.3; ordered = is.ordered.2 }

pub sub_right : {h : Heap} {p : ℕ} {s t : Tree} → IsHeapTree h (node p s t) → IsHeapTree h t
sub_right is = record { tree = is.tree.6; distinct = is.distinct.4; ordered = is.ordered.3 }

pub child_facts :
    {h : Heap} {q x : ℕ} {l r t : Tree} → Child q x l r t → IsHeapTree h t → ChildFacts h q x l r t
child_facts (on_left t) is = record {
  parent = is.tree.3;
  parent_ne = is.tree.0;
  sub = sub_left is;
  inside = λ a i. ground arith;
  size = omega arith;
}
child_facts (on_right t) is = record {
  parent = is.tree.4;
  parent_ne = is.tree.0;
  sub = sub_right is;
  inside = λ a i. ground arith;
  size = omega arith;
}
child_facts (in_left p t c) is =
    let f = child_facts c (sub_left is) in
    record {
      parent = f.parent;
      parent_ne = f.parent_ne;
      sub = f.sub;
      inside = λ a i. let j = f.inside a i in ground arith;
      size = omega (arith, f.size);
    }
child_facts (in_right p t c) is =
    let f = child_facts c (sub_right is) in
    record {
      parent = f.parent;
      parent_ne = f.parent_ne;
      sub = f.sub;
      inside = λ a i. let j = f.inside a i in ground arith;
      size = omega (arith, f.size);
    }

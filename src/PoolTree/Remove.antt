-- ===== src/PoolTree/Remove.antt =====
-- shm_tree_remove of src/shm_tree.h.
mod Replace
mod Members
mod Splice
use shmmalloc.Base.{
  ℕ, suc, ◌+◌, ◌-◌, ◌^◌, ◌<◌, ◌≤◌, ◌≡◌, ◌≢◌, refl, sym, ap, ◌∙◌, Bool, true, false, not, ◌&&◌, ◌||◌,
  some, arith, ◌==◌, if◌then◌else◌, inl, inr, Bool-cases, ne→==, eq→==, u32,
}
use mathlib.Core.Bool.{false≢true}
use native.Mathlib.Decide.{ℕ_discrete}
use shmmalloc.Position.{shm_null}
use shmmalloc.PoolTree.{TreeNode, Heap, ShmPool, shm_tree_splice, shm_tree_pop, shm_tree_remove}
use shmmalloc.PoolTree.Shape.{
  Tree, leaf, node, top, count, mem, HasRoot, IsTree, Disjoint, IsDistinct, Below, HasRoot-same,
  IsTree-same, mem_top, Disjoint-sym, ne_null,
}
use shmmalloc.PoolTree.Merge.{IsHeapTree, IsUnion, merge-Merges}
use shmmalloc.PoolTree.Pool.{IsPool, Leaves, pop-Leaves}
use Replace.{
  Child, on_left, on_right, in_left, in_right, replace, sub_left, sub_right, child_facts, place,
}
use Members.{members_in_left, members_in_right, kept_in, kept_out, node_out, left_in, right_in}
use Splice.{Replaced, replace-on_left, replace-on_right}

HasRoot-at : (h : Heap) (q : ℕ) (t : Tree) → (h (top t)).root ≡ q → HasRoot h q t
HasRoot-at h q leaf e = tt
HasRoot-at h q (node p l r) e = e

root_at : (h : Heap) (q x : ℕ) (t : Tree) → mem x t ≡ true → HasRoot h q t → (h (top t)).root ≡ q
root_at h q x leaf i e = absurd (false≢true i)
root_at h q x (node p l r) i e = e

-- One level above the replacement.
module _ (h f : Heap) (p x : ℕ) (s t n : Tree) (i : mem x s ≡ true) (u : Replaced h x s f n) where
  child_root : HasRoot h p s → HasRoot f p n
  child_root e =
      HasRoot-at f p n (ap (λ a. (f a).root) u.top_kept ∙ u.top_root ∙ root_at h p x s i e)

  level_left : IsHeapTree h (node p s t) → Replaced h x (node p s t) f (node p n t)
  level_left is =
      let (ne, es, et, hs, ht, is', it) = is.tree in
      let (ps, pt, apart, ds, dt) = is.distinct in
      let (bs, bt, os, ot) = is.ordered in
      let at : f p ≡ h p = u.same p ps in
      let same_t : (a : ℕ) → mem a t ≡ true → f a ≡ h a =
        λ a j. u.same a (Disjoint-sym s t apart a j) in
      record {
        tree = record {
          tree = (
            ne,
            ap (λ (n : TreeNode). n.left) at ∙ es ∙ sym u.top_kept,
            ap (λ (n : TreeNode). n.right) at ∙ et,
            child_root hs,
            HasRoot-same p t same_t ht,
            u.tree.tree,
            IsTree-same t same_t it,
          );
          distinct = (
            kept_out p x s t n u.members i p ps,
            pt,
            λ a j. apart a (kept_in p x s t n u.members i a j),
            u.tree.distinct,
            dt,
          );
          ordered = (λ a j. bs a (kept_in p x s t n u.members i a j), bt, u.tree.ordered, ot);
        };
        top_kept = refl;
        members = members_in_left p x s t n u.members i is.distinct;
        size = omega (arith, u.size);
        same = λ a j. u.same a (node_out a p s t j).1;
        top_root = ap (λ (n : TreeNode). n.root) at;
      }

  level_right : IsHeapTree h (node p t s) → Replaced h x (node p t s) f (node p t n)
  level_right is =
      let (ne, et, es, ht, hs, it, is') = is.tree in
      let (pt, ps, apart, dt, ds) = is.distinct in
      let (bt, bs, ot, os) = is.ordered in
      let at : f p ≡ h p = u.same p ps in
      let same_t : (a : ℕ) → mem a t ≡ true → f a ≡ h a = λ a j. u.same a (apart a j) in
      record {
        tree = record {
          tree = (
            ne,
            ap (λ (n : TreeNode). n.left) at ∙ et,
            ap (λ (n : TreeNode). n.right) at ∙ es ∙ sym u.top_kept,
            HasRoot-same p t same_t ht,
            child_root hs,
            IsTree-same t same_t it,
            u.tree.tree,
          );
          distinct = (
            pt,
            kept_out p x s t n u.members i p ps,
            λ a j. kept_out p x s t n u.members i a (apart a j),
            dt,
            u.tree.distinct,
          );
          ordered = (bt, λ a j. bs a (kept_in p x s t n u.members i a j), ot, u.tree.ordered);
        };
        top_kept = refl;
        members = members_in_right p x s t n u.members i is.distinct;
        size = omega (arith, u.size);
        same = λ a j. u.same a (node_out a p t s j).2;
        top_root = ap (λ (n : TreeNode). n.root) at;
      }

replace-Replaced :
    (h g : Heap) (q x : ℕ) (l r m : Tree) {t : Tree}
    → IsUnion h l r g m
    → (c : Child q x l r t) → IsHeapTree h t
    → Replaced h x t (shm_tree_splice g q x (top m)) (replace m c)
unfolding replace
replace-Replaced h g q x l r m u (on_left t) is = replace-on_left h g q x l r m u t is
replace-Replaced h g q x l r m u (on_right t) is = replace-on_right h g q x l r m u t is
replace-Replaced h g q x l r m u (in_left p {s} t c) is =
    let inside = (child_facts c (sub_left is)).inside x (mem_top x l r) in
    level_left h _ p x s t _ inside (replace-Replaced h g q x l r m u c (sub_left is)) is
replace-Replaced h g q x l r m u (in_right p t {s} c) is =
    let inside = (child_facts c (sub_right is)).inside x (mem_top x l r) in
    level_right h _ p x s t _ inside (replace-Replaced h g q x l r m u c (sub_right is)) is

count_pos : (x : ℕ) (t : Tree) → mem x t ≡ true → 0 < count t
count_pos x leaf i = absurd (false≢true i)
count_pos x (node p l r) i = omega arith

remove_root :
    (h : Heap) (pool : ShmPool) (x : ℕ)
    → pool.root ≡ x
    → shm_tree_remove h pool x ≡ shm_tree_pop h pool
unfolding shm_tree_remove
remove_root h pool x e = rw (eq→== pool.root x e)

-- A node that is not the root: the merge of its children ends, and they take its place.
remove_inner :
    (h : Heap) (pool : ShmPool) (t : Tree) (x : ℕ)
    → IsPool h pool t
    → mem x t ≡ true
    → x ≢ top t
    → pool.size < 2 ^ 32
    → Leaves h (λ q. mem q t && not (q == x)) (shm_tree_remove h pool x)
unfolding shm_tree_remove
remove_inner h pool t x is i inner fits =
    let c = place x t inner i in
    let f = child_facts c.child is.tree in
    let (ne, el, er, hl, hr, il, ir) = f.sub.tree in
    let (xl, xr, lr, dl, dr) = f.sub.distinct in
    let m =
      merge-Merges (pool.size + 1) h c.left c.right (sub_left f.sub) (sub_right f.sub) lr
        (omega (arith, is.size, f.size)) in
    let at : m.heap x ≡ h x = m.is.same x xl xr in
    let parent : (m.heap x).root ≡ c.parent = ap (λ (n : TreeNode). n.root) at ∙ f.parent in
    let not_root : (pool.root == x) ≡ false = ne→== pool.root x (λ e. inner (sym e ∙ is.root)) in
    let u = replace-Replaced h m.heap c.parent x c.left c.right m.tree m.is c.child is.tree in
    let root_null = root_at h shm_null x t i is.unowned in
    record {
      heap = shm_tree_splice m.heap c.parent x (top m.tree);
      pool = record { root = pool.root; size = u32 (pool.size + 2 ^ 32 - 1) };
      tree = replace m.tree c.child;
      returns = rw (
        not_root,
        ne→== x shm_null ne,
        el,
        er,
        m.returns,
        parent,
        ne→== c.parent shm_null f.parent_ne,
      );
      is = record {
        tree = u.tree;
        root = is.root ∙ sym u.top_kept;
        size = omega (arith, is.size, u.size);
        unowned =
            HasRoot-at (shm_tree_splice m.heap c.parent x (top m.tree)) shm_null
              (replace m.tree c.child)
              (ap (λ a. (shm_tree_splice m.heap c.parent x (top m.tree) a).root) u.top_kept
                ∙ u.top_root
                ∙ root_null);
      };
      members = u.members;
    }

-- Removing a position of the pool takes exactly that one out of the tree, whether it is the root
-- or not.
pub remove-Leaves :
    (h : Heap) (pool : ShmPool) (t : Tree) (x : ℕ)
    → IsPool h pool t
    → mem x t ≡ true
    → pool.size < 2 ^ 32
    → Leaves h (λ q. mem q t && not (q == x)) (shm_tree_remove h pool x)
remove-Leaves h pool t x is i fits = elim (ℕ_discrete x (top t)) [
  | no inner ↦ remove_inner h pool t x is i inner fits
  | yes e ↦
      let at_root : pool.root ≡ x = is.root ∙ sym e in
      let popped = (pop-Leaves h pool t is (omega (arith, is.size, count_pos x t i))).0 in
      rw (remove_root h pool x at_root, ← at_root) popped
]

-- ===== src/PoolTree/Remove/Splice.antt =====
-- The end of shm_tree_remove: the merged children take the place of the removed node.
use mathlib.Core.Bool.{false≢true}
use shmmalloc.Base.{
  ℕ, suc, ◌≡◌, ◌≢◌, refl, sym, ap, ◌∙◌, true, false, not, ◌&&◌, ◌||◌, arith, ◌==◌, ne→==, eq→==,
}
use shmmalloc.Position.{shm_null}
use shmmalloc.PoolTree.{TreeNode, Heap, set_root, shm_tree_splice}
use shmmalloc.PoolTree.Shape.{
  Tree, leaf, node, top, count, mem, HasRoot, IsTree, HasRoot-same, IsTree-same, mem_top,
  Disjoint-sym,
}
use shmmalloc.PoolTree.Merge.{IsHeapTree, IsUnion}
use shmmalloc.PoolTree.Pool.{set_root_other, set_root-IsTree}
use shmmalloc.PoolTree.Remove.Members.{node_out, under_in, members_left, members_right}

set_root_outside :
    (g : Heap) (q : ℕ) (m : Tree) (a : ℕ) → mem a m ≡ false → set_root g (top m) q a ≡ g a
set_root_outside g q leaf a out = refl
set_root_outside g q (node p y z) a out = set_root_other g p q a (ground arith)

-- `q` is the parent of `x`, and `m` the union of the subtrees of `x`.
module _ (h g : Heap) (q x : ℕ) (l r m : Tree) (u : IsUnion h l r g m) (ql : mem q l ≡ false)
    (qr : mem q r ≡ false) where
  abbrev spliced : Heap
  spliced = shm_tree_splice g q x (top m)

  m_inside : (a : ℕ) → mem a m ≡ true → (mem a l || mem a r) ≡ true
  m_inside a i = sym (u.members a) ∙ i

  m_outside : (a : ℕ) → mem a l ≡ false → mem a r ≡ false → mem a m ≡ false
  m_outside a al ar = u.members a ∙ (rw (al, ar))

  rooted_q : set_root g (top m) q q ≡ h q
  rooted_q = set_root_outside g q m q (m_outside q ql qr) ∙ u.same q ql qr

  splice_other : (a : ℕ) → a ≢ q → spliced a ≡ set_root g (top m) q a
  unfolding shm_tree_splice
  splice_other a ne = ground arith

  splice_left : (h q).left ≡ x → spliced q ≡ record (h q) { left = top m }
  unfolding shm_tree_splice
  splice_left e = rw (rooted_q, e, eq→== x x refl, eq→== q q refl)

  splice_right : x ≢ (h q).left → spliced q ≡ record (h q) { right = top m }
  unfolding shm_tree_splice
  splice_right ne = rw (rooted_q, ne→== x (h q).left ne, eq→== q q refl)

  splice_outside : (a : ℕ) → a ≢ q → mem a l ≡ false → mem a r ≡ false → spliced a ≡ h a
  splice_outside a ne al ar =
      splice_other a ne ∙ set_root_outside g q m a (m_outside a al ar) ∙ u.same a al ar

  splice_m : IsTree spliced m × HasRoot spliced q m
  splice_m =
      let (tree, root) = set_root-IsTree g q m u.union in
      let same = λ (a : ℕ) (i : mem a m ≡ true).
        splice_other a
          (λ e. absurd (false≢true (sym (m_outside q ql qr) ∙ ap (λ b. mem b m) (sym e) ∙ i))) in
      (IsTree-same m same tree, HasRoot-same q m same root)

apart_ne : (a q : ℕ) (t : Tree) → mem a t ≡ true → mem q t ≡ false → a ≢ q
apart_ne a q t i out e = false≢true (sym out ∙ (rw (← e) i))

==_ne : (a q : ℕ) → (a == q) ≡ false → a ≢ q
==_ne a q e = ground arith

top_outside :
    (h : Heap) (x : ℕ) (t : Tree) → IsTree h t → mem x t ≡ false → x ≢ shm_null → x ≢ top t
top_outside h x leaf is out ne e = ne e
top_outside h x (node p y z) is out ne e =
    false≢true (sym out ∙ ap (λ b. mem b (node p y z)) e ∙ mem_top p y z)

-- The tree `t` with `m` for the child `x`, in the heap `f`.
pub record Replaced (h : Heap) (x : ℕ) (t : Tree) (f : Heap) (n : Tree) : Type 0 where
  pub tree : IsHeapTree f n
  pub top_kept : top n ≡ top t
  pub members : (a : ℕ) → mem a n ≡ (mem a t && not (a == x))
  pub size : count t ≡ suc (count n)
  pub same : (a : ℕ) → mem a t ≡ false → f a ≡ h a
  pub top_root : (f (top t)).root ≡ (h (top t)).root

module _ (h g : Heap) (q x : ℕ) (l r m : Tree) (u : IsUnion h l r g m) where
  inside_m : (a : ℕ) → mem a m ≡ true → mem a (node x l r) ≡ true
  inside_m a i = under_in a x l r (sym (u.members a) ∙ i)

  pub replace-on_left :
      (t : Tree)
      → IsHeapTree h (node q (node x l r) t)
      → Replaced h x (node q (node x l r) t) (shm_tree_splice g q x (top m)) (node q m t)
  replace-on_left t is =
      let (ne, el, er, hl, hr, il, ir) = is.tree in
      let (qx, qt, apart, dx, dt) = is.distinct in
      let (bx, bt, ox, ot) = is.ordered in
      let (q_ne_x, ql, qr) = node_out q x l r qx in
      let (tm, rm) = splice_m h g q x l r m u ql qr in
      let at = splice_left h g q x l r m u ql qr el in
      let outside = splice_outside h g q x l r m u ql qr in
      let same_t : (a : ℕ) → mem a t ≡ true → shm_tree_splice g q x (top m) a ≡ h a = λ a i.
        let (ax, al, ar) = node_out a x l r (Disjoint-sym (node x l r) t apart a i) in
        outside a (apart_ne a q t i qt) al ar in
      record {
        tree = record {
          tree = (
            ne,
            ap (λ (n : TreeNode). n.left) at,
            ap (λ (n : TreeNode). n.right) at ∙ er,
            rm,
            HasRoot-same q t same_t hr,
            tm,
            IsTree-same t same_t ir,
          );
          distinct = (
            m_outside h g q x l r m u ql qr q ql qr,
            qt,
            λ a i. apart a (inside_m a i),
            u.union.distinct,
            dt,
          );
          ordered = (λ a i. bx a (inside_m a i), bt, u.union.ordered, ot);
        };
        top_kept = refl;
        members = members_left q x l r t m u.members is.distinct;
        size = omega (arith, u.size);
        same = λ a i.
            let (aq, ax, at) = node_out a q (node x l r) t i in
            let (ax', al, ar) = node_out a x l r ax in outside a (==_ne a q aq) al ar;
        top_root = ap (λ (n : TreeNode). n.root) at;
      }

  pub replace-on_right :
      (t : Tree)
      → IsHeapTree h (node q t (node x l r))
      → Replaced h x (node q t (node x l r)) (shm_tree_splice g q x (top m)) (node q t m)
  replace-on_right t is =
      let (ne, el, er, hl, hr, il, ir) = is.tree in
      let (qt, qx, apart, dt, dx) = is.distinct in
      let (bt, bx, ot, ox) = is.ordered in
      let (q_ne_x, ql, qr) = node_out q x l r qx in
      let (tm, rm) = splice_m h g q x l r m u ql qr in
      let x_out : mem x t ≡ false = Disjoint-sym t (node x l r) apart x (mem_top x l r) in
      let at = splice_right h g q x l r m u ql qr (λ e. top_outside h x t il x_out ir.0 (e ∙ el)) in
      let outside = splice_outside h g q x l r m u ql qr in
      let same_t : (a : ℕ) → mem a t ≡ true → shm_tree_splice g q x (top m) a ≡ h a = λ a i.
        let (ax, al, ar) = node_out a x l r (apart a i) in outside a (apart_ne a q t i qt) al ar in
      record {
        tree = record {
          tree = (
            ne,
            ap (λ (n : TreeNode). n.left) at ∙ el,
            ap (λ (n : TreeNode). n.right) at,
            HasRoot-same q t same_t hl,
            rm,
            IsTree-same t same_t il,
            tm,
          );
          distinct = (
            qt,
            m_outside h g q x l r m u ql qr q ql qr,
            λ a i.
                m_outside h g q x l r m u ql qr a (node_out a x l r (apart a i)).1
                  (node_out a x l r (apart a i)).2,
            dt,
            u.union.distinct,
          );
          ordered = (bt, λ a i. bx a (inside_m a i), ot, u.union.ordered);
        };
        top_kept = refl;
        members = members_right q x l r t m u.members is.distinct;
        size = omega (arith, u.size);
        same = λ a i.
            let (aq, at, ax) = node_out a q t (node x l r) i in
            let (ax', al, ar) = node_out a x l r ax in outside a (==_ne a q aq) al ar;
        top_root = ap (λ (n : TreeNode). n.root) at;
      }

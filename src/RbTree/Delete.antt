-- ===== src/RbTree/Delete.antt =====
-- rbtree_delete of src/rbtree.h on the trees of RbTree/Ghost, as a whole.
pub mod Round
pub mod Moves
pub mod Cases
pub mod Ends
pub mod Step
pub mod Loop
pub mod Splice
pub mod Swap
pub mod Walk
pub mod Start
pub mod One
pub mod Two
use shmmalloc.Base.{
  ℕ, suc, ◌+◌, ◌^◌, ◌≤◌, ◌<◌, ◌≡◌, ◌≢◌, refl, sym, ap, arith, subst, [], ◌++◌, append-nil,
}
use shmmalloc.RbTree.{Colour, Rb}
use shmmalloc.RbTree.Side.{lft, rgt}
use shmmalloc.RbTree.Ghost.{Tree, tip, fork, Way, step, root_of, plug, inorder, count}
use shmmalloc.RbTree.Balance.{depth-count}
use shmmalloc.RbTree.Turn.{IsAt}
use shmmalloc.RbTree.Insert.Start.{IsRbTree}
use Walk.{close, Least, min_node-Least, descend_all}
use Start.{emptied, emptied-IsAt, from_left, from_right, from_both}
use One.{HasDeleted, one_child}
use Two.{two_children}

module _ {K : Type 0} (key : ℕ → K) where
  -- rbtree_delete of any node of a well-formed red-black tree, whose size is below 2^32, always
  -- returns, within the fuel of the model: the memory then holds a well-formed red-black tree with
  -- the other nodes in the order in which they were.
  pub rbtree_delete-IsRbTree :
      (t : Rb K) (path : Way) (c : Colour) (l : Tree) (node : ℕ) (r : Tree)
      → IsRbTree key t (plug path (fork c l node r))
      → t.size < 2 ^ 32
      → HasDeleted key t node (plug path (fork c l node r))
  rbtree_delete-IsRbTree t path c tip node r rb h =
      let here = fork c tip node r in
      let at : IsAt key rb.label (emptied t) path here =
        descend_all key rb.label (emptied t) path here
          (emptied-IsAt key rb.label t (plug path here) rb.at) in
      let (nz, cn, sl, sr) = at.stores in
      one_child key rgt t path c r node [] (inorder r) rb h
        (from_left (emptied t) t.size node (root_of r) (ap (λ n. n.left) cn) (ap (λ n. n.right) cn))
        refl refl
  rbtree_delete-IsRbTree t path c (fork cl ll lx lr) node tip rb h =
      let l = fork cl ll lx lr in
      let here = fork c l node tip in
      let at : IsAt key rb.label (emptied t) path here =
        descend_all key rb.label (emptied t) path here
          (emptied-IsAt key rb.label t (plug path here) rb.at) in
      let (nz, cn, sl, sr) = at.stores in
      one_child key lft t path c l node (inorder l) [] rb h
        (from_right (emptied t) t.size node lx (ap (λ n. n.left) cn) sl.0 (ap (λ n. n.right) cn))
        refl (sym (append-nil (inorder l)))
  rbtree_delete-IsRbTree t path c (fork cl ll lx lr) node (fork cr rl rx rr) rb h =
      let l = fork cl ll lx lr in
      let r = fork cr rl rx rr in
      let here = fork c l node r in
      let at : IsAt key rb.label (emptied t) path here =
        descend_all key rb.label (emptied t) path here
          (emptied-IsAt key rb.label t (plug path here) rb.at) in
      let (nz, cn, sl, sr) = at.stores in
      let enough : count r ≤ t.size + 1 = omega (arith, depth-count path here, rb.counted) in
      let least : Least key (t.size + 1) (emptied t) rx r =
        min_node-Least key (t.size + 1) (emptied t) node cr rl rx rr enough sr in
      subst (λ w. HasDeleted key t node (plug path (fork c l node w))) (sym least.is)
        (two_children key t path c l node least.spine least.color least.node least.right
          (subst (λ w. IsRbTree key t (plug path (fork c l node w))) least.is rb) h
          (from_both (emptied t) t.size node lx rx least.node (root_of least.right)
            (ap (λ n. n.left) cn) sl.0 (ap (λ n. n.right) cn) sr.0 least.finds least.child))

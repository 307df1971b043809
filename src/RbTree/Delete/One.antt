-- ===== src/RbTree/Delete/One.antt =====
-- rbtree_delete of src/rbtree.h at a node with one child or none.
use shmmalloc.Base.{ℕ, ◌+◌, ◌^◌, ◌<◌, ◌≡◌, sym, ap, ◌∙◌, arith, some, List, ◌∷◌, ◌++◌, append_assoc}
use shmmalloc.RbTree.{Colour, Rb, set_p}
use shmmalloc.RbTree.Side.{Side}
use shmmalloc.RbTree.Ghost.{
  Tree, tip, fork, Way, root_of, parent_of, fork_at, plug, inorder, count, Stores,
}
use shmmalloc.RbTree.Ghost.Frame.{Stores-fork_at}
use shmmalloc.RbTree.Update.{rbtree_delete, replace_child}
use shmmalloc.RbTree.Balance.{before, after, inorder-plug, depth, depth-count}
use shmmalloc.RbTree.Turn.{IsAt}
use shmmalloc.RbTree.Turn.Cells.{p-cell, s-cell, color-cell}
use shmmalloc.RbTree.Insert.{Inserted, count-Inserted}
use shmmalloc.RbTree.Insert.Start.{IsRbTree}
use shmmalloc.RbTree.Delete.Splice.{Spliced, splice-Spliced, split-Within, root_ne}
use shmmalloc.RbTree.Delete.Walk.{unplug-Balanced, descend_all}
use shmmalloc.RbTree.Delete.Start.{
  emptied, emptied_self, emptied-color, emptied-size, emptied-IsAt, delete_from, delete_as_from,
  tail, tail_splice, finish, after-same, Finished, finish-Finished,
}

-- Where the node `n` is taken out of a subtree, it is taken out of the whole.
pub middle :
    (n : ℕ) (path : Way) (tree2 tree : Tree) (a b : List ℕ)
    → inorder tree ≡ a ++ (n ∷ b)
    → inorder tree2 ≡ a ++ b
    → Inserted n (plug path tree2) (plug path tree)
middle n path tree2 tree a b e e2 =
    let joined : (c : List ℕ)
        → before path ++ ((a ++ c) ++ after path) ≡ (before path ++ a) ++ (c ++ after path) =
      λ c.
        ap (λ l. before path ++ l) (append_assoc a c (after path))
        ∙ sym (append_assoc (before path) a (c ++ after path)) in
    (
      before path ++ a,
      b ++ after path,
      inorder-plug path tree2 ∙ ap (λ l. before path ++ (l ++ after path)) e2 ∙ joined b,
      inorder-plug path tree ∙ ap (λ l. before path ++ (l ++ after path)) e ∙ joined (n ∷ b),
    )

Inserted-same :
    (n : ℕ) (tree3 tree2 tree : Tree)
    → inorder tree3 ≡ inorder tree2
    → Inserted n tree2 tree
    → Inserted n tree3 tree
Inserted-same n tree3 tree2 tree e (left, right, a, b) = (left, right, e ∙ a, b)

module _ {K : Type 0} (key : ℕ → K) where
  -- What a deletion leaves.
  pub record HasDeleted (t : Rb K) (node : ℕ) (tree : Tree) : Type 0 where
    pub out : Rb K
    pub tree2 : Tree
    pub runs : rbtree_delete t node ≡ some out
    pub holds : IsRbTree key out tree2
    pub removed : Inserted node tree2 tree

  pub root_self :
      (t : Rb K) (p : ℕ) (x : Tree)
      → (t.nodes 0).s ≡ 0
      → Stores key t p x
      → (t.nodes (root_of x)).s ≡ root_of x
  root_self t p tip e h = e
  root_self t p (fork c l x r) e (nx, cx, hl, hr) = ap (λ n. n.s) cx

  -- From the last step on.
  pub concluded :
      (t t3 : Rb K) (label : ℕ → ℕ) (fuel x node : ℕ) (c : Colour) (whole tree : Tree)
      → delete_from (emptied t) t.size node ≡ finish t3 fuel x c
      → t3.size ≡ (emptied t).size
      → t.size ≡ count tree
      → t.size < 2 ^ 32
      → Inserted node whole tree
      → Finished key t3 label fuel x c whole
      → HasDeleted t node tree
  concluded t t3 label fuel x node c whole tree goes size counted h inserted f =
      let removed : Inserted node f.tree tree =
        Inserted-same node f.tree whole tree f.same inserted in
      record {
        out = f.out;
        tree2 = f.tree;
        runs = delete_as_from t node ∙ goes ∙ f.runs;
        holds = record {
          label = label;
          at = f.at;
          balanced = f.balanced;
          counted =
              f.size
              ∙ size
              ∙ emptied-size key t (count f.tree)
                  (counted ∙ count-Inserted node f.tree tree removed) h;
        };
        removed = removed;
      }

  -- A node with one child `x` or none.
  pub one_child :
      (d : Side) (t : Rb K) (path : Way) (c : Colour) (x : Tree) (n : ℕ) (a b : List ℕ)
      → IsRbTree key t (plug path (fork_at d c x n tip))
      → t.size < 2 ^ 32
      → delete_from (emptied t) t.size n ≡ tail (emptied t) (t.size + 2) n n (root_of x)
      → inorder (fork_at d c x n tip) ≡ a ++ (n ∷ b)
      → inorder x ≡ a ++ b
      → HasDeleted t n (plug path (fork_at d c x n tip))
  one_child d t path c x n a b rb h goes e e2 =
      let t0 = emptied t in
      let q = parent_of path in
      let fuel = t.size + 2 in
      let here = fork_at d c x n tip in
      let at : IsAt key rb.label t0 path here =
        descend_all key rb.label t0 path here
          (emptied-IsAt key rb.label t (plug path here) rb.at) in
      let (nz, cn, sx, st) = Stores-fork_at key d t0 q c x n tip at.stores in
      let (wx, bounds, away) = split-Within key rb.label d c at.lo at.hi x n at.within in
      let t2 = replace_child (set_p t0 (root_of x) q) q n (root_of x) in
      let sp : Spliced key rb.label t0 path x n t2 =
        splice-Spliced key rb.label d c t0 path x n at (emptied_self key t) (emptied-color key t) in
      let unlinked =
        tail_splice t0 fuel n n (root_of x) q (ap (λ m. m.p) cn ∙ p-cell key d _ _ _ _ _)
          (ap (λ m. m.s) cn ∙ s-cell key d _ _ _ _ _) (root_self t0 n x (emptied_self key t) sx)
          (root_ne n x nz away) in
      let same =
        after-same t2 fuel n (root_of x) c
          (ap (λ m. m.color) sp.node ∙ ap (λ m. m.color) cn ∙ color-cell key d _ _ _ _ _) in
      let (k, hb, hp, room) = unplug-Balanced path here rb.balanced in
      let deep : depth path < fuel = omega (arith, depth-count path here, rb.counted) in
      concluded t t2 rb.label fuel (root_of x) n c (plug path x) (plug path here)
        (goes ∙ unlinked ∙ same) sp.size rb.counted h (middle n path x here a b e e2)
        (finish-Finished key rb.label d c t2 fuel k n path x deep sp.at sp.seen hb hp room)

-- ===== src/RbTree/Next.antt =====
-- rbtree_next of src/rbtree.h walks a well-formed tree in the order of its nodes.
use shmmalloc.Base.{
  ℕ, zero, suc, ◌+◌, ◌<◌, ◌≡◌, ◌≢◌, refl, sym, ap, ◌∙◌, arith, some, List, [], ◌∷◌, ◌++◌,
  append_assoc, ne→==, eq→==,
}
use shmmalloc.RbTree.{Colour, Rb, next_up, rbtree_next, rbtree_min_node}
use shmmalloc.RbTree.Side.{lft, rgt}
use shmmalloc.RbTree.Ghost.{Tree, tip, fork, Way, top, step, root_of, plug, inorder}
use shmmalloc.RbTree.Balance.{before, after, inorder-plug, depth, depth-count}
use shmmalloc.RbTree.Turn.{IsAt}
use shmmalloc.RbTree.Zipper.{rise, near-far}
use shmmalloc.RbTree.Insert.Moves.{root-parent, root_self}
use shmmalloc.RbTree.Insert.Start.{IsRbTree}
use shmmalloc.RbTree.Delete.Walk.{inorder-close, Least, min_node-Least, descend_all}

-- The first position, or 0 for NULL.
abbrev pub first : List ℕ → ℕ
first [] = 0
first (x ∷ xs) = x

module _ {K : Type 0} (key : ℕ → K) (label : ℕ → ℕ) where
  up_top :
      (fuel : ℕ) (t : Rb K) (node : ℕ) → (t.nodes node).p ≡ 0 → next_up (suc fuel) t node ≡ some 0
  unfolding next_up
  up_top fuel t node e = rw e refl

  up_left :
      (fuel : ℕ) (t : Rb K) (node p : ℕ)
      → (t.nodes node).p ≡ p
      → p ≢ 0
      → (t.nodes node).s ≢ (t.nodes p).right
      → next_up (suc fuel) t node ≡ some p
  unfolding next_up
  up_left fuel t node p e nz ne = rw (e, ne→== p 0 nz, ne→== _ _ ne) refl

  up_right :
      (fuel : ℕ) (t : Rb K) (node p : ℕ)
      → (t.nodes node).p ≡ p
      → p ≢ 0
      → (t.nodes node).s ≡ (t.nodes p).right
      → next_up (suc fuel) t node ≡ next_up fuel t p
  unfolding next_up
  up_right fuel t node p e nz same = rw (e, ne→== p 0 nz, eq→== _ _ same) refl

  climb :
      (t : Rb K) (fuel : ℕ) (path : Way) (tree : Tree)
      → depth path < fuel
      → IsAt key label t path tree
      → root_of tree ≢ 0
      → next_up fuel t (root_of tree) ≡ some (first (after path))
  climb t zero path tree lt at nz = absurd (omega (arith, lt))
  climb t (suc fuel) top tree lt at nz =
      up_top fuel t (root_of tree) (root-parent key label t 0 tree at.stores nz)
  climb t (suc fuel) (step lft c up x other) tree lt at nz =
      let (nx, cx, so, hu) = at.around in
      let apart =
        near-far key label lft t up c tree x other (rise key label lft c t up x tree other at) nz in
      up_left fuel t (root_of tree) x (root-parent key label t x tree at.stores nz) nx (λ e.
        apart (sym (ap (λ n. n.right) cx) ∙ sym e ∙ root_self key label t x tree at.stores nz))
  climb t (suc fuel) (step rgt c up x other) tree lt at nz =
      let (nx, cx, so, hu) = at.around in
      up_right fuel t (root_of tree) x (root-parent key label t x tree at.stores nz) nx
        (root_self key label t x tree at.stores nz ∙ sym (ap (λ n. n.right) cx))
      ∙ climb t fuel up (fork c other x tree) (omega (arith, lt))
          (rise key label rgt c t up x tree other at) nx

  next_above :
      (t : Rb K) (node : ℕ)
      → (t.nodes node).right ≡ 0
      → rbtree_next t node ≡ next_up (t.size + 1) t node
  unfolding rbtree_next
  next_above t node e = rw e refl

  next_below :
      (t : Rb K) (node r : ℕ)
      → (t.nodes node).right ≡ r
      → r ≢ 0
      → rbtree_next t node ≡ rbtree_min_node (t.size + 1) t r
  unfolding rbtree_next
  next_below t node r e nz = rw (e, ne→== r 0 nz) refl

module _ {K : Type 0} (key : ℕ → K) where
  next_of :
      (t : Rb K) (path : Way) (c : Colour) (l : Tree) (node : ℕ) (r : Tree)
      → IsRbTree key t (plug path (fork c l node r))
      → rbtree_next t node ≡ some (first (inorder r ++ after path))
  next_of t path c l node tip rb =
      let here = fork c l node tip in
      let at : IsAt key rb.label t path here = descend_all key rb.label t path here rb.at in
      let (nz, cn, sl, sr) = at.stores in
      next_above key rb.label t node (ap (λ n. n.right) cn)
      ∙ climb key rb.label t (t.size + 1) path here
          (omega (arith, depth-count path here, rb.counted)) at nz
  next_of t path c l node (fork cr rl x rr) rb =
      let r = fork cr rl x rr in
      let here = fork c l node r in
      let at : IsAt key rb.label t path here = descend_all key rb.label t path here rb.at in
      let (nz, cn, sl, sr) = at.stores in
      let least : Least key (t.size + 1) t x r =
        min_node-Least key (t.size + 1) t node cr rl x rr
          (omega (arith, depth-count path here, rb.counted)) sr in
      next_below key rb.label t node x (ap (λ n. n.right) cn) sr.0
      ∙ least.finds
      ∙ ap (λ l2. some (first (l2 ++ after path)))
          (sym (ap inorder least.is ∙ inorder-close least.spine least.color least.node least.right))

  -- rbtree_next of a node of a well-formed red-black tree always returns the node after it in the
  -- order of the tree, or NULL after the last one.
  pub rbtree_next-IsNext :
      (t : Rb K) (path : Way) (c : Colour) (l : Tree) (node : ℕ) (r : Tree)
      → IsRbTree key t (plug path (fork c l node r))
      → (left : List ℕ) × (right : List ℕ) × (inorder (plug path (fork c l node r))
          ≡ left ++ (node ∷ right))
        × (rbtree_next t node ≡ some (first right))
  rbtree_next-IsNext t path c l node r rb = (
    before path ++ inorder l,
    inorder r ++ after path,
    inorder-plug path (fork c l node r)
        ∙ ap (λ k. before path ++ k) (append_assoc (inorder l) (node ∷ inorder r) (after path))
        ∙ sym (append_assoc (before path) (inorder l) (node ∷ (inorder r ++ after path))),
    next_of t path c l node r rb,
  )

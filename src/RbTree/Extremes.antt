-- ===== src/RbTree/Extremes.antt =====
-- rbtree_max of src/rbtree.h against the tree that the links in the memory form.
use shmmalloc.Base.{
  ℕ, zero, suc, ◌+◌, ◌≤◌, ◌≡◌, refl, sym, ◌∙◌, inl, inr, ◌⊎◌, true, false, some, arith, ne→==,
  eq→==, ◌==◌, Bool-cases,
}
use shmmalloc.RbTree.{Sign, is_negative, Rb, rbtree_max_node, rbtree_max}
use shmmalloc.RbTree.Search.{Shape, leaf, branch, count, All, In, Holds, Ordered, IsWeakOrder}

-- On `Ok` keys the comparison is a weak order, and of two keys one at most is below the other.
pub record IsStrict {K : Type 0} (cmp : K → K → Sign) (Ok : K → Type 0) : Type 0 where
  pub weak : IsWeakOrder cmp Ok
  pub asym : (a b : K) → Ok a → Ok b → is_negative (cmp a b) ≡ true → is_negative (cmp b a) ≡ false
  pub irreflexive : (a : K) → Ok a → is_negative (cmp a a) ≡ false

module _ {K : Type 0} (cmp : K → K → Sign) (Ok : K → Type 0) (order : IsStrict cmp Ok) where
  -- No node of the tree is above `m`.
  abbrev pub Greatest : Rb K → Shape → ℕ → Type 0
  Greatest t shape m = All (λ y. is_negative (cmp (t.nodes m).v (t.nodes y).v) ≡ false) shape

  not_below :
      (m x y : K)
      → Ok m
      → Ok x
      → Ok y
      → is_negative (cmp m x) ≡ false
      → is_negative (cmp x y) ≡ false
      → is_negative (cmp m y) ≡ false
  not_below m x y om ox oy e f = elim (Bool-cases (is_negative (cmp m y))) [
    | inr g ↦ g
    | inl g ↦
        let clash : is_negative (cmp x y) ≡ true = order.weak.below m x y om ox oy g e in
        absurd (ground (arith, sym f ∙ clash))
  ]

  Greatest-left :
      (t : Rb K) (m x : ℕ) (shape : Shape)
      → Ok (t.nodes m).v
      → Ok (t.nodes x).v
      → All (λ y. Ok (t.nodes y).v) shape
      → is_negative (cmp (t.nodes m).v (t.nodes x).v) ≡ false
      → Greatest t shape x
      → Greatest t shape m
  Greatest-left t m x leaf om ox oks e ups = tt
  Greatest-left t m x (branch l y r) om ox (oy, ol, or') e (u, ul, ur) = (
    not_below (t.nodes m).v (t.nodes x).v (t.nodes y).v om ox oy e u,
    Greatest-left t m x l om ox ol e ul,
    Greatest-left t m x r om ox or' e ur,
  )

  All-at : (P : ℕ → Type 0) (n : ℕ) (shape : Shape) → All P shape → In n shape → P n
  All-at P n leaf all at = absurd at
  All-at P n (branch l x r) (px, pl, pr) (inl e) = rw e px
  All-at P n (branch l x r) (px, pl, pr) (inr (inl at)) = All-at P n l pl at
  All-at P n (branch l x r) (px, pl, pr) (inr (inr at)) = All-at P n r pr at

  max_node-Greatest :
      (t : Rb K) (l : Shape) (x : ℕ) (r : Shape) (fuel node : ℕ)
      → count (branch l x r) ≤ fuel
      → Holds t (branch l x r) node
      → All (λ y. Ok (t.nodes y).v) (branch l x r)
      → Ordered cmp t (branch l x r)
      → (m : ℕ) × (rbtree_max_node fuel t node ≡ some m)
        × In m (branch l x r)
        × Greatest t (branch l x r) m
  unfolding rbtree_max_node
  max_node-Greatest t l x r zero node h holds oks ord = absurd (omega arith)
  max_node-Greatest t l x leaf (suc fuel) node h (e, nz, hl, hr) (ox, ol, none_right)
        (lu, ru, ord_l, ord_r) =
      (
        x,
        rw (e, eq→== (t.nodes x).right 0 hr) refl,
        inl refl,
        (order.irreflexive (t.nodes x).v ox, lu, tt),
      )
  max_node-Greatest t l x (branch rl y rr) (suc fuel) node h (e, nz, hl, (ey, ny, hh, hk))
        (ox, ol, or') (lu, ru, ord_l, ord_r) =
      let (m, found, at, top) =
        max_node-Greatest t rl y rr fuel (t.nodes x).right (omega arith) (ey, ny, hh, hk) or'
          ord_r in
      let more : ((t.nodes x).right == 0) ≡ false =
        ne→== (t.nodes x).right 0 (λ z. ny (sym ey ∙ z)) in
      let om : Ok (t.nodes m).v = All-at (λ n. Ok (t.nodes n).v) m (branch rl y rr) or' at in
      let over : is_negative (cmp (t.nodes m).v (t.nodes x).v) ≡ false =
        All-at (λ n. is_negative (cmp (t.nodes n).v (t.nodes x).v) ≡ false) m (branch rl y rr) ru
          at in
      (m, rw (e, more) found, inr (inr at), (over, Greatest-left t m x l om ox ol over lu, top))

  -- rbtree_max on an ordered tree, whose header counts its nodes and whose comparison is a strict
  -- weak order of its keys, always returns: NULL for the empty tree, and otherwise a node of the
  -- tree that no other node is above.
  pub rbtree_max-Greatest :
      (t : Rb K) (shape : Shape)
      → count shape ≤ t.size
      → Holds t shape t.root
      → All (λ y. Ok (t.nodes y).v) shape
      → Ordered cmp t shape
      → (m : ℕ) × (rbtree_max t ≡ some m)
        × (((shape ≡ leaf) × (m ≡ 0)) ⊎ (In m shape × Greatest t shape m))
  unfolding rbtree_max
  rbtree_max-Greatest t leaf h holds oks ord = (0, rw (eq→== t.root 0 holds) refl, inl (refl, refl))
  rbtree_max-Greatest t (branch l x r) h (e, nz, hl, hr) oks ord =
      let (m, found, at, top) =
        max_node-Greatest t l x r (t.size + 1) t.root (omega arith) (e, nz, hl, hr) oks ord in
      (m, rw (ne→== t.root 0 (λ z. nz (sym e ∙ z))) found, inr (at, top))

-- ===== src/RbTree/Search.antt =====
-- The searches of src/rbtree.h against the tree that the links in the memory form.
use shmmalloc.Base.{
  ℕ, zero, suc, ◌+◌, ◌≤◌, ◌<◌, ◌≡◌, ◌≢◌, refl, ◌∙◌, inl, inr, ◌⊎◌, Bool, true, false, some, arith,
  ne→==, eq→==, if◌then◌else◌, Bool-cases,
}
use shmmalloc.RbTree.{Sign, is_negative, Rb, lower_loop, rbtree_lower}

-- A tree of positions.
pub data Shape : Type 0 where
  leaf : Shape
  branch : Shape → ℕ → Shape → Shape

abbrev pub count : Shape → ℕ
count leaf = 0
count (branch l x r) = suc (count l + count r)

abbrev pub All : (ℕ → Type 0) → Shape → Type 0
All P leaf = Unit
All P (branch l x r) = P x × All P l × All P r

abbrev pub In : ℕ → Shape → Type 0
In n leaf = ⊥
In n (branch l x r) = (n ≡ x) ⊎ (In n l ⊎ In n r)

module _ {K : Type 0} where
  -- The links from `node` on form the tree.
  abbrev pub Holds : Rb K → Shape → ℕ → Type 0
  Holds t leaf node = node ≡ 0
  Holds t (branch l x r) node =
      (node ≡ x) × (x ≢ 0) × Holds t l (t.nodes x).left × Holds t r (t.nodes x).right

module _ {K : Type 0} (cmp : K → K → Sign) where
  -- The nodes on the left are not above their root, and those on the right are not below it.
  abbrev pub Ordered : Rb K → Shape → Type 0
  Ordered t leaf = Unit
  Ordered t (branch l x r) =
      All (λ y. is_negative (cmp (t.nodes x).v (t.nodes y).v) ≡ false) l
      × All (λ y. is_negative (cmp (t.nodes y).v (t.nodes x).v) ≡ false) r
      × Ordered t l
      × Ordered t r

  abbrev pub Below : Rb K → K → ℕ → Type 0
  Below t val n = is_negative (cmp (t.nodes n).v val) ≡ true

  -- `r` is a node of the tree whose key is not below `val`.
  abbrev pub Fits : Rb K → K → Shape → ℕ → Type 0
  Fits t val shape r = In r shape × (is_negative (cmp (t.nodes r).v val) ≡ false)

  step_none :
      (t : Rb K) (val : K) (fuel node prev : ℕ) (big : Bool)
      → node ≡ 0
      → lower_loop cmp (suc fuel) t val node prev big ≡ some (if big then prev else 0)
  unfolding lower_loop
  step_none t val fuel node prev big e = rw (eq→== node 0 e) refl

  step-Fits :
      (t : Rb K) (val : K) (fuel node prev : ℕ) (big : Bool)
      → node ≢ 0
      → is_negative (cmp (t.nodes node).v val) ≡ false
      → lower_loop cmp (suc fuel) t val node prev big
        ≡ lower_loop cmp fuel t val (t.nodes node).left node true
  unfolding lower_loop
  step-Fits t val fuel node prev big nz e = rw (ne→== node 0 nz, e) refl

  step-Below :
      (t : Rb K) (val : K) (fuel node prev : ℕ) (big : Bool)
      → node ≢ 0
      → Below t val node
      → lower_loop cmp (suc fuel) t val node prev big
        ≡ (if big then some prev else lower_loop cmp fuel t val (t.nodes node).right node big)
  unfolding lower_loop
  step-Below t val fuel node prev true nz e = rw (ne→== node 0 nz, e) refl
  step-Below t val fuel node prev false nz e = rw (ne→== node 0 nz, e) refl

  -- Once a key that is not below `val` was seen, the walk ends at it or at another such node.
  lower_loop_big :
      (t : Rb K) (val : K) (shape : Shape) (fuel node prev : ℕ)
      → count shape < fuel
      → Holds t shape node
      → (r : ℕ) × (lower_loop cmp fuel t val node prev true ≡ some r)
        × ((r ≡ prev) ⊎ Fits t val shape r)
  lower_loop_big t val shape zero node prev h holds = absurd (omega arith)
  lower_loop_big t val leaf (suc fuel) node prev h holds =
      (prev, step_none t val fuel node prev true holds, inl refl)
  lower_loop_big t val (branch l x r) (suc fuel) node prev h (e, nz, hl, hr) =
      elim (Bool-cases (is_negative (cmp (t.nodes x).v val))) [
        | inl below ↦ (prev, rw e (step-Below t val fuel x prev true nz below), inl refl)
        | inr fits ↦
            let (n, found, which) =
              lower_loop_big t val l fuel (t.nodes x).left x (omega arith) hl in
            (
              n,
              rw e (step-Fits t val fuel x prev true nz fits) ∙ found,
              elim which [
                | inl same ↦ inr (inl same, rw same fits)
                | inr (at, ok) ↦ inr (inr (inl at), ok)
              ],
            )
      ]

-- `Ok` keys, on which the comparison is a weak order: a key that is not above another one is below
-- everything that the other one is below.
pub record IsWeakOrder {K : Type 0} (cmp : K → K → Sign) (Ok : K → Type 0) : Type 0 where
  pub below :
      (a b v : K)
      → Ok a
      → Ok b
      → Ok v
      → is_negative (cmp a v) ≡ true
      → is_negative (cmp a b) ≡ false
      → is_negative (cmp b v) ≡ true

module _ {K : Type 0} (cmp : K → K → Sign) (Ok : K → Type 0) (order : IsWeakOrder cmp Ok) where
  All-Below :
      (t : Rb K) (val : K) (x : ℕ) (shape : Shape)
      → Ok val
      → Ok (t.nodes x).v
      → Below cmp t val x
      → All (λ y. Ok (t.nodes y).v) shape
      → All (λ y. is_negative (cmp (t.nodes x).v (t.nodes y).v) ≡ false) shape
      → All (Below cmp t val) shape
  All-Below t val x leaf ov ox b oks ups = tt
  All-Below t val x (branch l y r) ov ox b (oy, ol, or') (uy, ul, ur) = (
    order.below (t.nodes x).v (t.nodes y).v val ox oy ov b uy,
    All-Below t val x l ov ox b ol ul,
    All-Below t val x r ov ox b or' ur,
  )

  lower_loop_first :
      (t : Rb K) (val : K) (shape : Shape) (fuel node prev : ℕ)
      → count shape < fuel
      → Holds t shape node
      → Ok val
      → All (λ y. Ok (t.nodes y).v) shape
      → Ordered cmp t shape
      → (r : ℕ) × (lower_loop cmp fuel t val node prev false ≡ some r)
        × ((All (Below cmp t val) shape × (r ≡ 0)) ⊎ Fits cmp t val shape r)
  lower_loop_first t val shape zero node prev h holds ov oks ord = absurd (omega arith)
  lower_loop_first t val leaf (suc fuel) node prev h holds ov oks ord =
      (0, step_none cmp t val fuel node prev false holds, inl (tt, refl))
  lower_loop_first t val (branch l x r) (suc fuel) node prev h (e, nz, hl, hr) ov (ox, ol, or')
        (left_up, right_up, ord_l, ord_r) =
      elim (Bool-cases (is_negative (cmp (t.nodes x).v val))) [
        | inl below ↦
            let (n, found, which) =
              lower_loop_first t val r fuel (t.nodes x).right x (omega arith) hr ov or' ord_r in
            let lefts : All (Below cmp t val) l = All-Below t val x l ov ox below ol left_up in
            (
              n,
              rw e (step-Below cmp t val fuel x prev false nz below) ∙ found,
              elim which [
                | inl (rights, zero_r) ↦ inl ((below, lefts, rights), zero_r)
                | inr (at, ok) ↦ inr (inr (inr at), ok)
              ],
            )
        | inr fits ↦
            let (n, found, which) =
              lower_loop_big cmp t val l fuel (t.nodes x).left x (omega arith) hl in
            (
              n,
              rw e (step-Fits cmp t val fuel x prev false nz fits) ∙ found,
              elim which [
                | inl same ↦ inr (inl same, rw same fits)
                | inr (at, ok) ↦ inr (inr (inl at), ok)
              ],
            )
      ]

  -- rbtree_lower on an ordered tree, whose header counts its nodes and whose comparison is a weak
  -- order of its keys and the key sought, always returns: NULL where every key is below the one
  -- sought, and otherwise a node of the tree whose key is not below it.
  pub rbtree_lower-Fits :
      (t : Rb K) (val : K) (shape : Shape)
      → count shape ≤ t.size
      → Holds t shape t.root
      → Ok val
      → All (λ y. Ok (t.nodes y).v) shape
      → Ordered cmp t shape
      → (r : ℕ) × (rbtree_lower cmp t val ≡ some r)
        × ((All (Below cmp t val) shape × (r ≡ 0)) ⊎ Fits cmp t val shape r)
  unfolding rbtree_lower
  rbtree_lower-Fits t val shape h holds ov oks ord =
      lower_loop_first t val shape (t.size + 1) t.root 0 (omega arith) holds ov oks ord

-- ===== src/RbTree/Rotate/Parts.antt =====
-- The three parts of the rotations of src/rbtree.h, and what each of them writes. The side `d` is
-- the one to which the node `x` goes down.
use shmmalloc.Base.{
  ℕ, arith, ◌≡◌, ◌≢◌, refl, sym, ap, ◌∙◌, inl, inr, false, ne→==, eq→==, ◌==◌, if◌then◌else◌,
  Bool-cases,
}
use shmmalloc.RbTree.{
  Node, Rb, put, set_p, set_left, set_right, rbtree_left_rotate, rbtree_right_rotate,
}
use shmmalloc.RbTree.Side.{
  Side, lft, rgt, opposite, child, with_child, set_child, rotate, child-with_child, s-with_child,
}

module _ {K : Type 0} where
  abbrev pub with_p : ℕ → Node K → Node K
  with_p q n = record n { p = q }

  put_here : (t : Rb K) (w : ℕ) (n : Node K) → (put t w n).nodes w ≡ n
  put_here t w n = rw (eq→== w w refl) refl

  put_away : (t : Rb K) (w r : ℕ) (n : Node K) → w ≢ r → (put t w n).nodes r ≡ t.nodes r
  put_away t w r n h = rw (ne→== w r h) refl

  -- The inner subtree of the child on the other side, `z` or none, goes under `x`.
  pub take_inner : Side → Rb K → ℕ → Rb K
  take_inner d t x =
      let t1 = set_child (opposite d) t x (child d (t.nodes (child (opposite d) (t.nodes x)))) in
      let y = child (opposite d) (t1.nodes x) in if y == 0 then t1 else set_p t1 y (t1.nodes x).s

  -- `x` goes under `y`.
  pub swap_links : Side → Rb K → ℕ → ℕ → Rb K
  swap_links d t x y = let t3 = set_p t x (t.nodes y).s in set_child d t3 y (t3.nodes x).s

  -- `y` goes under the old parent `p`.
  pub under_parent : Rb K → ℕ → ℕ → ℕ → Rb K
  under_parent t x y p =
      let at_root = record (set_p t y 0) { root = (t.nodes y).s } in
      let t5 =
        if (t.nodes p).left == (t.nodes x).s
        then set_left t p (t.nodes y).s
        else set_right t p (t.nodes y).s in
      if p == 0 then at_root else set_p t5 y (t5.nodes p).s

  pub rotate_parts :
      (d : Side) (t : Rb K) (x : ℕ)
      → rotate d t x
        ≡ under_parent
            (swap_links d (take_inner d t x) x (child (opposite d) (t.nodes x)))
            x
            (child (opposite d) (t.nodes x))
            (t.nodes x).p
  unfolding rbtree_left_rotate rbtree_right_rotate take_inner swap_links under_parent
  rotate_parts lft t x = refl
  rotate_parts rgt t x = refl

  pub record Inner (d : Side) (t : Rb K) (x z : ℕ) (out : Rb K) : Type 0 where
    pub at_x : out.nodes x ≡ with_child (opposite d) z (t.nodes x)
    pub at_z : z ≢ 0 → out.nodes z ≡ with_p (t.nodes x).s (t.nodes z)
    pub others : (n : ℕ) → x ≢ n → z ≢ n → out.nodes n ≡ t.nodes n
    pub size : out.size ≡ t.size
    pub root_kept : out.root ≡ t.root

  pub take_inner-Inner :
      (d : Side) (t : Rb K) (x z : ℕ)
      → child d (t.nodes (child (opposite d) (t.nodes x))) ≡ z
      → z ≢ x
      → Inner d t x z (take_inner d t x)
  unfolding take_inner
  take_inner-Inner d t x z e zx =
      let t1 = set_child (opposite d) t x z in
      let right_at : child (opposite d) (t1.nodes x) ≡ z =
        ap (child (opposite d)) (put_here t x _) ∙ child-with_child (opposite d) z _ in
      let s_at : (t1.nodes x).s ≡ (t.nodes x).s =
        ap (λ n. n.s) (put_here t x _) ∙ s-with_child (opposite d) z _ in
      elim (Bool-cases (z == 0)) [
        | inl z0 ↦
            rw (e, right_at, z0)
              (record {
                at_x = put_here t x _;
                at_z = λ h. absurd (ground (arith, z0, h));
                others = λ n a b. put_away t x n _ a;
                size = refl;
                root_kept = refl;
              })
        | inr z0 ↦
            rw (e, right_at, z0, s_at)
              (record {
                at_x = put_away t1 z x _ zx ∙ put_here t x _;
                at_z = λ h.
                    put_here t1 z _
                    ∙ ap (with_p (t.nodes x).s) (put_away t x z _ (λ q. zx (sym q)));
                others = λ n a b. put_away t1 z n _ b ∙ put_away t x n _ a;
                size = refl;
                root_kept = refl;
              })
      ]

  pub record Swapped (d : Side) (t : Rb K) (x y : ℕ) (out : Rb K) : Type 0 where
    pub at_x : out.nodes x ≡ with_p (t.nodes y).s (t.nodes x)
    pub at_y : out.nodes y ≡ with_child d (t.nodes x).s (t.nodes y)
    pub others : (n : ℕ) → x ≢ n → y ≢ n → out.nodes n ≡ t.nodes n
    pub size : out.size ≡ t.size
    pub root_kept : out.root ≡ t.root

  pub swap_links-Swapped :
      (d : Side) (t : Rb K) (x y : ℕ) → x ≢ y → Swapped d t x y (swap_links d t x y)
  unfolding swap_links
  swap_links-Swapped d t x y xy =
      let t3 = set_p t x (t.nodes y).s in
      let s_at : (t3.nodes x).s ≡ (t.nodes x).s = ap (λ n. n.s) (put_here t x _) in
      rw s_at (record {
        at_x = put_away t3 y x _ (λ q. xy (sym q)) ∙ put_here t x _;
        at_y = put_here t3 y _ ∙ ap (with_child d (t.nodes x).s) (put_away t x y _ xy);
        others = λ n a b. put_away t3 y n _ b ∙ put_away t x n _ a;
        size = refl;
        root_kept = refl;
      })

  -- The child link of `n` to the node `old` becomes one to `new`.
  abbrev pub relink : ℕ → ℕ → Node K → Node K
  relink old new n = if n.left == old then with_child lft new n else with_child rgt new n

  pub record Placed (t : Rb K) (x y p : ℕ) (out : Rb K) : Type 0 where
    pub at_y : out.nodes y ≡ with_p p (t.nodes y)
    pub at_p : p ≢ 0 → out.nodes p ≡ relink (t.nodes x).s (t.nodes y).s (t.nodes p)
    pub others : (n : ℕ) → y ≢ n → p ≢ n → out.nodes n ≡ t.nodes n
    pub root : p ≡ 0 → out.root ≡ (t.nodes y).s
    pub root_kept : p ≢ 0 → out.root ≡ t.root
    pub size : out.size ≡ t.size

  under_relinked :
      (t t5 : Rb K) (x y p : ℕ)
      → p ≢ y
      → (p == 0) ≡ false
      → (t.nodes p).s ≡ p
      → (t5.nodes p).s ≡ (t.nodes p).s
      → t5.nodes p ≡ relink (t.nodes x).s (t.nodes y).s (t.nodes p)
      → ((n : ℕ) → p ≢ n → t5.nodes n ≡ t.nodes n)
      → (t5.root ≡ t.root) × (t5.size ≡ t.size)
      → Placed t x y p (set_p t5 y (t5.nodes p).s)
  under_relinked t t5 x y p py p0 sp s5 at rest (kept_root, kept_size) =
      rw (s5, sp)
        (record {
          at_y = put_here t5 y _ ∙ ap (with_p p) (rest y py);
          at_p = λ h. put_away t5 y p _ (λ e. py (sym e)) ∙ at;
          others = λ n a b. put_away t5 y n _ a ∙ rest n b;
          root = λ e. absurd (ground (arith, p0, e));
          root_kept = λ e. kept_root;
          size = kept_size;
        })

  pub under_parent-Placed :
      (t : Rb K) (x y p : ℕ)
      → p ≢ y
      → (p ≢ 0 → (t.nodes p).s ≡ p)
      → Placed t x y p (under_parent t x y p)
  unfolding under_parent
  under_parent-Placed t x y p py sp = elim (Bool-cases (p == 0)) [
    | inl p0 ↦
        let zero_p : p ≡ 0 = ground (arith, p0) in
        rw p0 (record {
          at_y = put_here t y _ ∙ ap (λ q. with_p q (t.nodes y)) (sym zero_p);
          at_p = λ h. absurd (h zero_p);
          others = λ n a b. put_away t y n _ a;
          root = λ e. refl;
          root_kept = λ h. absurd (h zero_p);
          size = refl;
        })
    | inr p0 ↦
        let nz : p ≢ 0 = λ e. ground (arith, p0, e) in
        elim (Bool-cases ((t.nodes p).left == (t.nodes x).s)) [
          | inl left ↦
              let t5 = set_left t p (t.nodes y).s in
              let s5 : (t5.nodes p).s ≡ (t.nodes p).s = ap (λ n. n.s) (put_here t p _) in
              rw (p0, left)
                (under_relinked t t5 x y p py p0 (sp nz) s5 (put_here t p _ ∙ rw left refl)
                  (λ n a. put_away t p n _ a) (refl, refl))
          | inr right ↦
              let t5 = set_right t p (t.nodes y).s in
              let s5 : (t5.nodes p).s ≡ (t.nodes p).s = ap (λ n. n.s) (put_here t p _) in
              rw (p0, right)
                (under_relinked t t5 x y p py p0 (sp nz) s5 (put_here t p _ ∙ rw right refl)
                  (λ n a. put_away t p n _ a) (refl, refl))
        ]
  ]

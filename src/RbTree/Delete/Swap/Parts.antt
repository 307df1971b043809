-- ===== src/RbTree/Delete/Swap/Parts.antt =====
-- The steps in which rbtree_delete of src/rbtree.h puts the node `y` into the place of `n`.
use shmmalloc.Base.{
  ℕ, ◌≡◌, ◌≢◌, refl, sym, ap, ◌∙◌, ◌⊎◌, inl, inr, arith, ◌==◌, if◌then◌else◌, Bool-cases,
}
use shmmalloc.RbTree.{Rb, set_p}
use shmmalloc.RbTree.Side.{Side, lft, rgt, child, with_child, set_child}
use shmmalloc.RbTree.Rotate.Parts.{with_p, relink}
use shmmalloc.RbTree.Zipper.{with_color}
use shmmalloc.RbTree.Update.{replace_child, swap_color, swap_parent, swap_left, swap_right}
use shmmalloc.RbTree.Delete.Splice.{put_here, put_away, Replaced, replace_child-Replaced}

module _ {K : Type 0} where
  -- `y` has the colour of `n`; where `n` was the parent of `y`, the node `x` has the parent `y`.
  pub record Coloured (t : Rb K) (n x y : ℕ) (out : Rb K) : Type 0 where
    pub at_y : out.nodes y ≡ with_color (t.nodes n).color (t.nodes y)
    pub at_x : (t.nodes y).p ≡ n → out.nodes x ≡ with_p y (t.nodes x)
    pub others : (m : ℕ) → y ≢ m → ((t.nodes y).p ≢ n) ⊎ (x ≢ m) → out.nodes m ≡ t.nodes m
    pub root : out.root ≡ t.root
    pub size : out.size ≡ t.size

  pub swap_color-Coloured :
      (t : Rb K) (n x y : ℕ)
      → (t.nodes n).s ≡ n
      → (t.nodes y).s ≡ y
      → x ≢ y
      → x ≢ n
      → Coloured t n x y (swap_color t n x y)
  unfolding swap_color
  swap_color-Coloured t n x y sn sy xy xn = elim (Bool-cases ((t.nodes y).p == (t.nodes n).s)) [
    | inl direct ↦
        let t1 = set_p t x (t.nodes y).s in
        let is : (t.nodes y).p ≡ (t.nodes n).s = ground (arith, direct) in
        rw direct (record {
          at_y =
              put_here t1 y _
              ∙ ap (λ c. with_color c (t1.nodes y)) (ap (λ m. m.color) (put_away t x n _ xn))
              ∙ ap (with_color (t.nodes n).color) (put_away t x y _ xy);
          at_x = λ e.
              put_away t1 y x _ (λ h. xy (sym h))
              ∙ put_here t x _
              ∙ ap (λ s. with_p s (t.nodes x)) sy;
          others = λ m a h.
              put_away t1 y m _ a
              ∙ put_away t x m _ (elim h [ inl no_p ↦ absurd (no_p (is ∙ sn)) | inr b ↦ b ]);
          root = refl;
          size = refl;
        })
    | inr far ↦
        let not_p : (t.nodes y).p ≢ n = λ e. ground (arith, far, sn, e) in
        rw far (record {
          at_y = put_here t y _;
          at_x = λ e. absurd (not_p e);
          others = λ m a h. put_away t y m _ a;
          root = refl;
          size = refl;
        })
  ]

  -- `y` has the parent of `n`, which has none.
  pub record Parented (t : Rb K) (n y q : ℕ) (out : Rb K) : Type 0 where
    pub at_y : out.nodes y ≡ with_p q (t.nodes y)
    pub at_n : out.nodes n ≡ with_p 0 (t.nodes n)
    pub at_q : q ≢ 0 → out.nodes q ≡ relink n y (t.nodes q)
    pub others : (m : ℕ) → y ≢ m → n ≢ m → (q ≡ 0) ⊎ (q ≢ m) → out.nodes m ≡ t.nodes m
    pub root : q ≡ 0 → out.root ≡ y
    pub root_kept : q ≢ 0 → out.root ≡ t.root
    pub size : out.size ≡ t.size

  pub swap_parent-Parented :
      (t : Rb K) (n y q : ℕ)
      → (t.nodes n).p ≡ q
      → (t.nodes n).s ≡ n
      → (t.nodes y).s ≡ y
      → n ≢ y
      → q ≢ n
      → q ≢ y
      → Parented t n y q (swap_parent t n y)
  unfolding swap_parent
  swap_parent-Parented t n y q pn sn sy ny qn qy =
      let t3 = replace_child t q n y in
      let rep : Replaced t q n y t3 = replace_child-Replaced t q n y in
      let n3 : t3.nodes n ≡ t.nodes n = rep.others n (inr qn) in
      let y3 : t3.nodes y ≡ t.nodes y = rep.others y (inr qy) in
      let p3 : (t3.nodes n).p ≡ q = ap (λ m. m.p) n3 ∙ pn in
      let t4 = set_p t3 y q in
      rw (pn, sn, sy, p3)
        (record {
          at_y = put_away t4 n y _ ny ∙ put_here t3 y _ ∙ ap (with_p q) y3;
          at_n = put_here t4 n _ ∙ ap (with_p 0) (put_away t3 y n _ (λ e. ny (sym e)) ∙ n3);
          at_q = λ nq.
              put_away t4 n q _ (λ e. qn (sym e))
              ∙ put_away t3 y q _ (λ e. qy (sym e))
              ∙ rep.at_q nq;
          others = λ m a b c. put_away t4 n m _ b ∙ put_away t3 y m _ a ∙ rep.others m c;
          root = rep.root;
          root_kept = rep.root_kept;
          size = rep.size;
        })

  abbrev pub swap_child : Side → Rb K → ℕ → ℕ → Rb K
  swap_child lft t n y = swap_left t n y
  swap_child rgt t n y = swap_right t n y

  child_from : Side → Rb K → ℕ → ℕ → Rb K
  child_from d t n y =
      let l = child d (t.nodes n) in
      let t5 = if l == 0 then t else set_p t l (t.nodes y).s in
      set_child d (set_child d t5 y (child d (t5.nodes n))) n 0

  swap_child_as : (d : Side) (t : Rb K) (n y : ℕ) → swap_child d t n y ≡ child_from d t n y
  unfolding swap_left swap_right child_from
  swap_child_as lft t n y = refl
  swap_child_as rgt t n y = refl

  -- `y` has the child `l` of `n`, which has none.
  pub record Taken (d : Side) (t : Rb K) (n y l : ℕ) (out : Rb K) : Type 0 where
    pub at_y : out.nodes y ≡ with_child d l (t.nodes y)
    pub at_n : out.nodes n ≡ with_child d 0 (t.nodes n)
    pub at_l : l ≢ 0 → out.nodes l ≡ with_p y (t.nodes l)
    pub others : (m : ℕ) → y ≢ m → n ≢ m → (l ≡ 0) ⊎ (l ≢ m) → out.nodes m ≡ t.nodes m
    pub root : out.root ≡ t.root
    pub size : out.size ≡ t.size

  from-Taken :
      (d : Side) (t : Rb K) (n y l : ℕ)
      → child d (t.nodes n) ≡ l
      → (t.nodes y).s ≡ y
      → n ≢ y
      → l ≢ n
      → l ≢ y
      → Taken d t n y l (child_from d t n y)
  unfolding child_from
  from-Taken d t n y l cn sy ny ln ly = elim (Bool-cases (l == 0)) [
    | inl zero_l ↦
        let l0 : l ≡ 0 = ground (arith, zero_l) in
        let t6 = set_child d t y l in
        rw (cn, zero_l, cn)
          (record {
            at_y = put_away t6 n y _ ny ∙ put_here t y _;
            at_n = put_here t6 n _ ∙ ap (with_child d 0) (put_away t y n _ (λ e. ny (sym e)));
            at_l = λ h. absurd (h l0);
            others = λ m a b c. put_away t6 n m _ b ∙ put_away t y m _ a;
            root = refl;
            size = refl;
          })
    | inr some_l ↦
        let nz : l ≢ 0 = λ e. ground (arith, some_l, e) in
        let t5 = set_p t l (t.nodes y).s in
        let n5 : t5.nodes n ≡ t.nodes n = put_away t l n _ ln in
        let c5 : child d (t5.nodes n) ≡ l = ap (child d) n5 ∙ cn in
        let t6 = set_child d t5 y l in
        rw (cn, some_l, c5)
          (record {
            at_y =
                put_away t6 n y _ ny ∙ put_here t5 y _ ∙ ap (with_child d l) (put_away t l y _ ly);
            at_n = put_here t6 n _ ∙ ap (with_child d 0) (put_away t5 y n _ (λ e. ny (sym e)) ∙ n5);
            at_l = λ h.
                put_away t6 n l _ (λ e. ln (sym e))
                ∙ put_away t5 y l _ (λ e. ly (sym e))
                ∙ put_here t l _
                ∙ ap (λ s. with_p s (t.nodes l)) sy;
            others = λ m a b c.
                put_away t6 n m _ b
                ∙ put_away t5 y m _ a
                ∙ put_away t l m _ (λ e. elim c [ inl z ↦ nz z | inr ne ↦ ne e ]);
            root = refl;
            size = refl;
          })
  ]

  pub swap_child-Taken :
      (d : Side) (t : Rb K) (n y l : ℕ)
      → child d (t.nodes n) ≡ l
      → (t.nodes y).s ≡ y
      → n ≢ y
      → l ≢ n
      → l ≢ y
      → Taken d t n y l (swap_child d t n y)
  swap_child-Taken d t n y l cn sy ny ln ly =
      rw (swap_child_as d t n y) (from-Taken d t n y l cn sy ny ln ly)

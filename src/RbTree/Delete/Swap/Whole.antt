-- ===== src/RbTree/Delete/Swap/Whole.antt =====
-- The node `y` in the place of `n`, as rbtree_delete of src/rbtree.h writes it: all steps together.
use shmmalloc.Base.{ℕ, ◌≡◌, ◌≢◌, sym, ap, ◌∙◌, ◌⊎◌, inl, inr, arith, ◌==◌, Bool-cases, subst}
use shmmalloc.RbTree.{Colour, Node, Rb}
use shmmalloc.RbTree.Side.{lft, rgt, with_child}
use shmmalloc.RbTree.Rotate.Parts.{with_p, relink}
use shmmalloc.RbTree.Zipper.{with_color}
use shmmalloc.RbTree.Ghost.{cell}
use shmmalloc.RbTree.Update.{swap_color, swap_parent, swap_left, swap_right, delete_swap}
use shmmalloc.RbTree.Delete.Swap.Parts.{
  Coloured, swap_color-Coloured, Parented, swap_parent-Parented, Taken, swap_child-Taken,
}

pub same_or_not : (a b : ℕ) → (a ≡ b) ⊎ (a ≢ b)
same_or_not a b = elim (Bool-cases (a == b)) [
  | inl e ↦ inl (ground (arith, e))
  | inr e ↦ inr (λ h. ground (arith, e, h))
]

flip : {a b : ℕ} → a ≢ b → b ≢ a
flip h e = h (sym e)

module _ {K : Type 0} (key : ℕ → K) where
  -- `n` stands under `q` over `l` and `r`, and `y`, whose only child is at `x`, is none of them.
  pub record IsPlace (t : Rb K) (n x y q l r : ℕ) (c : Colour) : Type 0 where
    pub node : t.nodes n ≡ cell key q c n l r
    pub self : (t.nodes y).s ≡ y
    pub value : (t.nodes y).v ≡ key y
    pub nz : n ≢ 0
    pub yz : y ≢ 0
    pub ny : n ≢ y
    pub qn : q ≢ n
    pub qy : q ≢ y
    pub ln : l ≢ n
    pub ly : l ≢ y
    pub rn : r ≢ n
    pub ry : r ≢ y
    pub xn : x ≢ n
    pub xy : x ≢ y
    pub lq : q ≢ 0 → l ≢ q
    pub rq : q ≢ 0 → r ≢ q
    pub rl : l ≢ 0 → r ≢ l
    pub lr : r ≢ 0 → l ≢ r
    pub direct : (t.nodes y).p ≡ n → x ≡ r

  pub record Swapped (t : Rb K) (n x y q l r : ℕ) (c : Colour) (out : Rb K) : Type 0 where
    pub at_y : out.nodes y ≡ cell key q c y l r
    pub at_q : q ≢ 0 → out.nodes q ≡ relink n y (t.nodes q)
    pub at_l : l ≢ 0 → out.nodes l ≡ with_p y (t.nodes l)
    pub at_r : r ≢ 0 → out.nodes r ≡ with_p y (t.nodes r)
    pub others : (m : ℕ) → y ≢ m → n ≢ m → q ≢ m → l ≢ m → r ≢ m → out.nodes m ≡ t.nodes m
    pub null_direct : (t.nodes y).p ≡ n → x ≡ 0 → out.nodes 0 ≡ with_p y (t.nodes 0)
    pub null_far : (t.nodes y).p ≢ n → out.nodes 0 ≡ t.nodes 0
    pub root : q ≡ 0 → out.root ≡ y
    pub root_kept : q ≢ 0 → out.root ≡ t.root
    pub size : out.size ≡ t.size

  abbrev place : ℕ → K → ℕ → ℕ → ℕ → Colour → Node K
  place s v q l r c = record { s = s; p = q; left = l; right = r; v = v; color = c }

  pub delete_swap-Swapped :
      (t : Rb K) (n x y q l r : ℕ) (c : Colour)
      → IsPlace t n x y q l r c
      → Swapped t n x y q l r c (delete_swap t n x y)
  unfolding delete_swap
  delete_swap-Swapped t n x y q l r c h =
      let t1 = swap_color t n x y in
      let a : Coloured t n x y t1 =
        swap_color-Coloured t n x y (ap (λ m. m.s) h.node) h.self h.xy h.xn in
      let n1 : t1.nodes n ≡ cell key q c n l r = a.others n (flip h.ny) (inr h.xn) ∙ h.node in
      let y1 : t1.nodes y ≡ with_color c (t.nodes y) =
        a.at_y ∙ ap (λ k. with_color k (t.nodes y)) (ap (λ m. m.color) h.node) in
      let t2 = swap_parent t1 n y in
      let b : Parented t1 n y q t2 =
        swap_parent-Parented t1 n y q (ap (λ m. m.p) n1) (ap (λ m. m.s) n1)
          (ap (λ m. m.s) y1 ∙ h.self) h.ny h.qn h.qy in
      let n2 : t2.nodes n ≡ cell key 0 c n l r = b.at_n ∙ ap (with_p 0) n1 in
      let y2 : t2.nodes y ≡ with_p q (with_color c (t.nodes y)) = b.at_y ∙ ap (with_p q) y1 in
      let t3 = swap_left t2 n y in
      let d : Taken lft t2 n y l t3 =
        swap_child-Taken lft t2 n y l (ap (λ m. m.left) n2) (ap (λ m. m.s) y2 ∙ h.self) h.ny h.ln
          h.ly in
      let n3 : t3.nodes n ≡ cell key 0 c n 0 r = d.at_n ∙ ap (with_child lft 0) n2 in
      let y3 : t3.nodes y ≡ with_child lft l (with_p q (with_color c (t.nodes y))) =
        d.at_y ∙ ap (with_child lft l) y2 in
      let t4 = swap_right t3 n y in
      let e : Taken rgt t3 n y r t4 =
        swap_child-Taken rgt t3 n y r (ap (λ m. m.right) n3) (ap (λ m. m.s) y3 ∙ h.self) h.ny h.rn
          h.ry in
      let y4 : t4.nodes y ≡ place (t.nodes y).s (t.nodes y).v q l r c =
        e.at_y ∙ ap (with_child rgt r) y3 in
      let side : (m : ℕ) → r ≢ m → ((t.nodes y).p ≢ n) ⊎ (x ≢ m) = λ m rm.
        elim (same_or_not (t.nodes y).p n) [
          | inl p ↦ inr (λ xm. rm (sym (h.direct p) ∙ xm))
          | inr p ↦ inl p
        ] in
      let zero_q : (q ≡ 0) ⊎ (q ≢ 0) = same_or_not q 0 in
      let rest : (m : ℕ)
          → y ≢ m
          → n ≢ m
          → (q ≡ 0) ⊎ (q ≢ m)
          → (l ≡ 0) ⊎ (l ≢ m)
          → (r ≡ 0) ⊎ (r ≢ m)
          → t4.nodes m ≡ t1.nodes m =
        λ m ym nm qm lm rm. e.others m ym nm rm ∙ d.others m ym nm lm ∙ b.others m ym nm qm in
      record {
        at_y =
            y4
            ∙ ap (λ s. place s (t.nodes y).v q l r c) h.self
            ∙ ap (λ v. place y v q l r c) h.value;
        at_q = λ nq.
            e.others q (flip h.qy) (flip h.qn) (inr (h.rq nq))
            ∙ d.others q (flip h.qy) (flip h.qn) (inr (h.lq nq))
            ∙ b.at_q nq
            ∙ ap (relink n y) (a.others q (flip h.qy) (side q (h.rq nq)));
        at_l = λ nl.
            e.others l (flip h.ly) (flip h.ln) (inr (h.rl nl))
            ∙ d.at_l nl
            ∙ ap (with_p y) (
                b.others l (flip h.ly) (flip h.ln)
                  (elim zero_q [ inl z ↦ inl z | inr nq ↦ inr (flip (h.lq nq)) ])
                ∙ a.others l (flip h.ly) (side l (h.rl nl)));
        at_r = λ nr.
            let both : with_p y (t1.nodes r) ≡ with_p y (t.nodes r) =
              elim (same_or_not (t.nodes y).p n) [
                | inl p ↦
                    let same : t1.nodes r ≡ with_p y (t.nodes r) =
                      subst (λ m. t1.nodes m ≡ with_p y (t.nodes m)) (h.direct p) (a.at_x p) in
                    ap (with_p y) same
                | inr p ↦ ap (with_p y) (a.others r (flip h.ry) (inl p))
              ] in
            e.at_l nr
            ∙ ap (with_p y) (
                d.others r (flip h.ry) (flip h.rn) (inr (h.lr nr))
                ∙ b.others r (flip h.ry) (flip h.rn)
                    (elim zero_q [ inl z ↦ inl z | inr nq ↦ inr (flip (h.rq nq)) ]))
            ∙ both;
        others =
            λ m ym nm qm lm rm. rest m ym nm (inr qm) (inr lm) (inr rm) ∙ a.others m ym (side m rm);
        null_direct = λ p xz.
            rest 0 h.yz h.nz zero_q (same_or_not l 0) (same_or_not r 0)
            ∙ subst (λ m. t1.nodes m ≡ with_p y (t.nodes m)) xz (a.at_x p);
        null_far = λ p.
            rest 0 h.yz h.nz zero_q (same_or_not l 0) (same_or_not r 0) ∙ a.others 0 h.yz (inl p);
        root = λ z. e.root ∙ d.root ∙ b.root z;
        root_kept = λ nq. e.root ∙ d.root ∙ b.root_kept nq ∙ a.root;
        size = e.size ∙ d.size ∙ b.size ∙ a.size;
      }

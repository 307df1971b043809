-- ===== src/RbTree/Rotate.antt =====
-- The rotations of src/rbtree.h: what they write as a whole.
pub mod Parts
use shmmalloc.Base.{ℕ, ◌≡◌, ◌≢◌, refl, sym, ap, ◌∙◌}
use shmmalloc.RbTree.{Node, Rb}
use shmmalloc.RbTree.Side.{Side, opposite, child, with_child, rotate, s-with_child}
use Parts.{
  with_p, relink, take_inner, swap_links, under_parent, rotate_parts, Inner, take_inner-Inner,
  Swapped, swap_links-Swapped, Placed, under_parent-Placed,
}

flip : {a b : ℕ} → a ≢ b → b ≢ a
flip h e = h (sym e)

zq_of : (z q : ℕ) → (z ≢ 0 → z ≢ q) → q ≢ 0 → z ≢ q
zq_of z q h nz e = h (λ e0. nz (sym e ∙ e0)) e

module _ {K : Type 0} where
  -- `x` has the parent `q` and, away from the side `d`, the child `y`, whose child on the side `d`
  -- is `z`; 0 stands for none.
  pub record IsTurn (d : Side) (t : Rb K) (x y z q : ℕ) : Type 0 where
    pub outer : child (opposite d) (t.nodes x) ≡ y
    pub inner : child d (t.nodes y) ≡ z
    pub parent : (t.nodes x).p ≡ q
    pub self_x : (t.nodes x).s ≡ x
    pub self_y : (t.nodes y).s ≡ y
    pub self_q : q ≢ 0 → (t.nodes q).s ≡ q
    pub xy : x ≢ y
    pub zx : z ≢ x
    pub zy : z ≢ y
    pub qx : q ≢ x
    pub qy : q ≢ y
    pub zq : z ≢ 0 → z ≢ q

  -- What a rotation leaves behind.
  pub record Rotated (d : Side) (t : Rb K) (x y z q : ℕ) (out : Rb K) : Type 0 where
    pub at_x : out.nodes x ≡ with_p y (with_child (opposite d) z (t.nodes x))
    pub at_y : out.nodes y ≡ with_p q (with_child d x (t.nodes y))
    pub at_z : z ≢ 0 → out.nodes z ≡ with_p x (t.nodes z)
    pub at_q : q ≢ 0 → out.nodes q ≡ relink x y (t.nodes q)
    pub others : (n : ℕ) → x ≢ n → y ≢ n → z ≢ n → q ≢ n → out.nodes n ≡ t.nodes n
    pub root : q ≡ 0 → out.root ≡ y
    pub root_kept : q ≢ 0 → out.root ≡ t.root
    pub size : out.size ≡ t.size

  -- A rotation gives `x` the inner subtree, puts it under `y` and puts `y` in its place, in the
  -- parent or as the root; every other node, and every key and colour, stays as it is.
  pub rotate-Rotated :
      (d : Side) (t : Rb K) (x y z q : ℕ) → IsTurn d t x y z q → Rotated d t x y z q (rotate d t x)
  rotate-Rotated d t x y z q turn =
      let ta = take_inner d t x in
      let tb = swap_links d ta x y in
      let a : Inner d t x z ta =
        take_inner-Inner d t x z (ap (λ n. child d (t.nodes n)) turn.outer ∙ turn.inner) turn.zx in
      let b : Swapped d ta x y tb = swap_links-Swapped d ta x y turn.xy in
      let ta_y : ta.nodes y ≡ t.nodes y = a.others y turn.xy turn.zy in
      let ta_sx : (ta.nodes x).s ≡ x =
        ap (λ n. n.s) a.at_x ∙ s-with_child (opposite d) z _ ∙ turn.self_x in
      let ta_sy : (ta.nodes y).s ≡ y = ap (λ n. n.s) ta_y ∙ turn.self_y in
      let tb_x : tb.nodes x ≡ with_p y (with_child (opposite d) z (t.nodes x)) =
        b.at_x ∙ ap (λ s. with_p s (ta.nodes x)) ta_sy ∙ ap (with_p y) a.at_x in
      let tb_y : tb.nodes y ≡ with_child d x (t.nodes y) =
        b.at_y ∙ ap (λ s. with_child d s (ta.nodes y)) ta_sx ∙ ap (with_child d x) ta_y in
      let tb_sx : (tb.nodes x).s ≡ x =
        ap (λ n. n.s) tb_x ∙ s-with_child (opposite d) z _ ∙ turn.self_x in
      let tb_sy : (tb.nodes y).s ≡ y = ap (λ n. n.s) tb_y ∙ s-with_child d x _ ∙ turn.self_y in
      let tb_q : q ≢ 0 → tb.nodes q ≡ t.nodes q = λ nz.
        b.others q (flip turn.qx) (flip turn.qy)
        ∙ a.others q (flip turn.qx) (zq_of z q turn.zq nz) in
      let c : Placed tb x y q (under_parent tb x y q) =
        under_parent-Placed tb x y q turn.qy (λ nz. ap (λ n. n.s) (tb_q nz) ∙ turn.self_q nz) in
      rw (rotate_parts d t x, turn.outer, turn.parent)
        (record {
          at_x = c.others x (flip turn.xy) turn.qx ∙ tb_x;
          at_y = c.at_y ∙ ap (with_p q) tb_y;
          at_z = λ nz.
              c.others z (flip turn.zy) (flip (turn.zq nz))
              ∙ b.others z (flip turn.zx) (flip turn.zy)
              ∙ a.at_z nz
              ∙ ap (λ s. with_p s (t.nodes z)) turn.self_x;
          at_q = λ nz.
              c.at_p nz
              ∙ ap (λ s. relink s (tb.nodes y).s (tb.nodes q)) tb_sx
              ∙ ap (λ s. relink x s (tb.nodes q)) tb_sy
              ∙ ap (relink x y) (tb_q nz);
          others = λ n nx ny nz nq. c.others n ny nq ∙ b.others n nx ny ∙ a.others n nx nz;
          root = λ e. c.root e ∙ tb_sy;
          root_kept = λ h. c.root_kept h ∙ b.root_kept ∙ a.root_kept;
          size = c.size ∙ b.size ∙ a.size;
        })

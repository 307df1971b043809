-- ===== src/RbTree/Insert/Round.antt =====
-- The rounds of rbtree_fix_insert of src/rbtree.h, one equation for both sides.
use shmmalloc.Base.{ℕ, suc, ◌≡◌, ◌≢◌, refl, sym, ◌∙◌, true, false, some, ne→==, eq→==}
use shmmalloc.RbTree.{red, black, Rb, set_color, red_at}
use shmmalloc.RbTree.Side.{Side, lft, rgt, opposite, child, rotate}
use shmmalloc.RbTree.Update.{
  fix_insert_round, insert_turn_right, insert_turn_left, insert_recolour, rbtree_fix_insert,
}

module _ {K : Type 0} where
  -- The parent `p` of `node` is the child on the side `d` of `pp`, and `u` is the other child.
  pub record IsFamily (d : Side) (t : Rb K) (p pp u : ℕ) : Type 0 where
    pub parent : (t.nodes p).p ≡ pp
    pub self : (t.nodes p).s ≡ p
    pub near : child d (t.nodes pp) ≡ p
    pub far : child (opposite d) (t.nodes pp) ≡ u
    pub apart : u ≢ p

  pub round-recolour :
      (d : Side) (t : Rb K) (node p pp u : ℕ)
      → IsFamily d t p pp u
      → red_at t u ≡ true
      → fix_insert_round t node p ≡ (set_color (set_color (set_color t u black) p black) pp red, pp)
  unfolding fix_insert_round insert_recolour
  round-recolour lft t node p pp u f e =
      rw (f.parent, f.self, f.near, f.far, eq→== p p refl, e) refl
  round-recolour rgt t node p pp u f e =
      rw (f.parent, f.self, f.near, f.far, ne→== p u (λ h. f.apart (sym h)), e) refl

  abbrev insert_turn : Side → Rb K → ℕ → ℕ → ℕ → Rb K × ℕ
  insert_turn lft t node p pp = insert_turn_right t node p pp
  insert_turn rgt t node p pp = insert_turn_left t node p pp

  round_turn :
      (d : Side) (t : Rb K) (node p pp u : ℕ)
      → IsFamily d t p pp u
      → red_at t u ≡ false
      → fix_insert_round t node p ≡ insert_turn d t node p pp
  unfolding fix_insert_round
  round_turn lft t node p pp u f e = rw (f.parent, f.self, f.near, f.far, eq→== p p refl, e) refl
  round_turn rgt t node p pp u f e =
      rw (f.parent, f.self, f.near, f.far, ne→== p u (λ h. f.apart (sym h)), e) refl

  turn_outer :
      (d : Side) (t : Rb K) (node p pp : ℕ)
      → (t.nodes node).s ≢ child (opposite d) (t.nodes p)
      → insert_turn d t node p pp
        ≡ (rotate (opposite d) (set_color (set_color t p black) pp red) pp, node)
  unfolding insert_turn_right insert_turn_left
  turn_outer lft t node p pp ne = rw (ne→== _ _ ne) refl
  turn_outer rgt t node p pp ne = rw (ne→== _ _ ne) refl

  turn_inner :
      (d : Side) (t : Rb K) (node p pp : ℕ)
      → (t.nodes node).s ≡ child (opposite d) (t.nodes p)
      → insert_turn d t node p pp
        ≡ (rotate (opposite d) (set_color (set_color (rotate d t p) node black) pp red) pp, p)
  unfolding insert_turn_right insert_turn_left
  turn_inner lft t node p pp same = rw (eq→== _ _ same) refl
  turn_inner rgt t node p pp same = rw (eq→== _ _ same) refl

  pub round-outer :
      (d : Side) (t : Rb K) (node p pp u : ℕ)
      → IsFamily d t p pp u
      → red_at t u ≡ false
      → (t.nodes node).s ≢ child (opposite d) (t.nodes p)
      → fix_insert_round t node p
        ≡ (rotate (opposite d) (set_color (set_color t p black) pp red) pp, node)
  round-outer d t node p pp u f e ne = round_turn d t node p pp u f e ∙ turn_outer d t node p pp ne

  pub round-inner :
      (d : Side) (t : Rb K) (node p pp u : ℕ)
      → IsFamily d t p pp u
      → red_at t u ≡ false
      → (t.nodes node).s ≡ child (opposite d) (t.nodes p)
      → fix_insert_round t node p
        ≡ (rotate (opposite d) (set_color (set_color (rotate d t p) node black) pp red) pp, p)
  round-inner d t node p pp u f e same =
      round_turn d t node p pp u f e ∙ turn_inner d t node p pp same

  pub fix_insert-next :
      (fuel : ℕ) (t : Rb K) (node p : ℕ)
      → (t.nodes node).p ≡ p
      → red_at t p ≡ true
      → rbtree_fix_insert (suc fuel) t node
        ≡ rbtree_fix_insert fuel (fix_insert_round t node p).0 (fix_insert_round t node p).1
  unfolding rbtree_fix_insert
  fix_insert-next fuel t node p e r = rw (e, r) refl

  pub fix_insert-stop :
      (fuel : ℕ) (t : Rb K) (node p : ℕ)
      → (t.nodes node).p ≡ p
      → p ≢ 0
      → red_at t p ≡ false
      → rbtree_fix_insert (suc fuel) t node ≡ some t
  unfolding rbtree_fix_insert
  fix_insert-stop fuel t node p e nz r = rw (e, r, ne→== p 0 nz) refl

  pub fix_insert-top :
      (fuel : ℕ) (t : Rb K) (node : ℕ)
      → (t.nodes node).p ≡ 0
      → rbtree_fix_insert (suc fuel) t node ≡ some (set_color t node black)
  unfolding rbtree_fix_insert
  fix_insert-top fuel t node e = rw e refl

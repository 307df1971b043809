-- ===== src/RbTree/Delete/Round.antt =====
-- The rounds of rbtree_fix_delete of src/rbtree.h, one equation for both sides.
use shmmalloc.Base.{
  ℕ, suc, ◌≡◌, ◌≢◌, refl, Bool, true, false, ◌&&◌, some, ne→==, eq→==, if◌then◌else◌,
}
use shmmalloc.RbTree.{Colour, red, black, Rb, set_color, is_red}
use shmmalloc.RbTree.Side.{Side, lft, rgt, opposite, child, rotate}
use shmmalloc.RbTree.Update.{
  Round, go_on, break, black_at, red_sibling_right, red_sibling_left, black_sibling_right,
  black_sibling_left, last_left_turn, last_right_turn, near_left_turn, near_right_turn,
  fix_delete_round, rbtree_fix_delete,
}

side_test : {A : Type 0} (b : Bool) (x y : A) → (if b && false then x else y) ≡ y
side_test true x y = refl
side_test false x y = refl

module _ {K : Type 0} where
  abbrev pub black_sibling : Side → Rb K → ℕ → Rb K
  black_sibling lft t p = red_sibling_right t p
  black_sibling rgt t p = red_sibling_left t p

  abbrev pub rest_of_round : Side → Rb K → ℕ → Round K
  rest_of_round lft t p = black_sibling_right t p
  rest_of_round rgt t p = black_sibling_left t p

  abbrev pub last_turn : Side → Rb K → ℕ → ℕ → ℕ → Rb K
  last_turn lft t p w far = last_left_turn t p w far
  last_turn rgt t p w far = last_right_turn t p w far

  abbrev pub near_turn : Side → Rb K → ℕ → ℕ → Rb K
  near_turn lft t w near = near_left_turn t w near
  near_turn rgt t w near = near_right_turn t w near

  -- A round at a node that is the child of `p` on the side `d`.
  pub round_at :
      (d : Side) (t : Rb K) (node p : ℕ)
      → (t.nodes node).p ≡ p
      → (t.nodes node).s ≡ node
      → child d (t.nodes p) ≡ node
      → child (opposite d) (t.nodes p) ≢ node
      → fix_delete_round t node ≡ rest_of_round d (black_sibling d t p) p
  unfolding fix_delete_round
  round_at lft t node p e s at apart = rw (e, s, eq→== _ _ at) refl
  round_at rgt t node p e s at apart = rw (e, s, ne→== _ _ apart) refl

  pub black_sibling-red :
      (d : Side) (t : Rb K) (p w : ℕ)
      → child (opposite d) (t.nodes p) ≡ w
      → is_red (t.nodes w).color ≡ true
      → black_sibling d t p ≡ rotate d (set_color (set_color t w black) p red) p
  unfolding red_sibling_right red_sibling_left
  black_sibling-red lft t p w e r = rw (e, r) refl
  black_sibling-red rgt t p w e r = rw (e, r) refl

  pub black_sibling-black :
      (d : Side) (t : Rb K) (p w : ℕ)
      → child (opposite d) (t.nodes p) ≡ w
      → is_red (t.nodes w).color ≡ false
      → black_sibling d t p ≡ t
  unfolding red_sibling_right red_sibling_left
  black_sibling-black lft t p w e r = rw (e, r) refl
  black_sibling-black rgt t p w e r = rw (e, r) refl

  pub rest-both :
      (d : Side) (t : Rb K) (p w near far : ℕ)
      → child (opposite d) (t.nodes p) ≡ w
      → child d (t.nodes w) ≡ near
      → child (opposite d) (t.nodes w) ≡ far
      → black_at t near ≡ true
      → black_at t far ≡ true
      → rest_of_round d t p ≡ go_on (set_color t w red) p
  unfolding black_sibling_right black_sibling_left
  rest-both lft t p w near far ew en ef bn bf = rw (ew, en, ef, bn, bf) refl
  rest-both rgt t p w near far ew en ef bn bf = rw (ew, en, ef, bn, bf) refl

  pub rest-far :
      (d : Side) (t : Rb K) (p w far : ℕ)
      → child (opposite d) (t.nodes p) ≡ w
      → child (opposite d) (t.nodes w) ≡ far
      → black_at t far ≡ false
      → rest_of_round d t p ≡ break (last_turn d t p w far)
  unfolding black_sibling_right black_sibling_left
  rest-far lft t p w far ew ef bf = rw (ew, ef, bf) (side_test (black_at t (t.nodes w).left) _ _)
  rest-far rgt t p w far ew ef bf = rw (ew, ef, bf) refl

  pub rest-near :
      (d : Side) (t : Rb K) (p w near far w2 far2 : ℕ)
      → child (opposite d) (t.nodes p) ≡ w
      → child d (t.nodes w) ≡ near
      → child (opposite d) (t.nodes w) ≡ far
      → black_at t near ≡ false
      → black_at t far ≡ true
      → child (opposite d) ((near_turn d t w near).nodes p) ≡ w2
      → child (opposite d) ((near_turn d t w near).nodes w2) ≡ far2
      → rest_of_round d t p ≡ break (last_turn d (near_turn d t w near) p w2 far2)
  unfolding black_sibling_right black_sibling_left
  rest-near lft t p w near far w2 far2 ew en ef bn bf ew2 ef2 =
      rw (ew, en, ef, bn, bf, ew2, ef2) refl
  rest-near rgt t p w near far w2 far2 ew en ef bn bf ew2 ef2 =
      rw (ew, en, ef, bn, bf, ew2, ef2) refl

  pub near_turn-parts :
      (d : Side) (t : Rb K) (w near : ℕ)
      → near_turn d t w near ≡ rotate (opposite d) (set_color (set_color t near black) w red) w
  unfolding near_left_turn near_right_turn
  near_turn-parts lft t w near = refl
  near_turn-parts rgt t w near = refl

  pub last_turn-parts :
      (d : Side) (t : Rb K) (p w far : ℕ) (c : Colour)
      → (t.nodes p).color ≡ c
      → last_turn d t p w far
        ≡ rotate d (set_color (set_color (set_color t w c) p black) far black) p
  unfolding last_left_turn last_right_turn
  last_turn-parts lft t p w far c e = rw e refl
  last_turn-parts rgt t p w far c e = rw e refl

  -- The loop.
  pub fix_delete-stop :
      (fuel : ℕ) (t : Rb K) (node : ℕ)
      → (t.nodes node).p ≡ 0
      → rbtree_fix_delete (suc fuel) t node ≡ some (set_color t node black)
  unfolding rbtree_fix_delete
  fix_delete-stop fuel t node e = rw e refl

  pub fix_delete-red :
      (fuel : ℕ) (t : Rb K) (node : ℕ)
      → is_red (t.nodes node).color ≡ true
      → rbtree_fix_delete (suc fuel) t node ≡ some (set_color t node black)
  unfolding rbtree_fix_delete
  fix_delete-red fuel t node e = rw e (side_test _ _ _)

  pub fix_delete-go_on :
      (fuel : ℕ) (t : Rb K) (node p : ℕ) (t2 : Rb K) (node2 : ℕ)
      → (t.nodes node).p ≡ p
      → p ≢ 0
      → is_red (t.nodes node).color ≡ false
      → fix_delete_round t node ≡ go_on t2 node2
      → rbtree_fix_delete (suc fuel) t node ≡ rbtree_fix_delete fuel t2 node2
  unfolding rbtree_fix_delete
  fix_delete-go_on fuel t node p t2 node2 e nz r round = rw (e, ne→== p 0 nz, r, round) refl

  pub fix_delete-break :
      (fuel : ℕ) (t : Rb K) (node p : ℕ) (t2 : Rb K)
      → (t.nodes node).p ≡ p
      → p ≢ 0
      → is_red (t.nodes node).color ≡ false
      → fix_delete_round t node ≡ break t2
      → rbtree_fix_delete (suc fuel) t node ≡ some (set_color t2 node black)
  unfolding rbtree_fix_delete
  fix_delete-break fuel t node p t2 e nz r round = rw (e, ne→== p 0 nz, r, round) refl

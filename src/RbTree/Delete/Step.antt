-- ===== src/RbTree/Delete/Step.antt =====
-- One round of the loop of rbtree_fix_delete of src/rbtree.h, and the loop after it.
use shmmalloc.Base.{ℕ, suc, ◌≡◌, refl, ap, ◌∙◌, inl, inr, arith, subst}
use shmmalloc.RbTree.{Colour, red, black, Rb, set_color}
use shmmalloc.RbTree.Side.{Side, lft, rgt, rotate}
use shmmalloc.RbTree.Ghost.{Tree, tip, fork, Way, step, root_of, fork_at, plug}
use shmmalloc.RbTree.Update.{fix_delete_round}
use shmmalloc.RbTree.Balance.{
  IsBlack, Balanced, BalancedWay, red-Balanced, black-Balanced, Balanced-red, IsRed-fork_at,
  plug-inorder, inorder-fork_at,
}
use shmmalloc.RbTree.Turn.{IsAt, root-fork_at, inorder-turn}
use shmmalloc.RbTree.Delete.Round.{rest_of_round, black_sibling-red, black_sibling-black}
use shmmalloc.RbTree.Delete.Moves.{red_moved}
use shmmalloc.RbTree.Delete.Cases.{Links, links, black_round}
use shmmalloc.RbTree.Delete.Ends.{Almost-red, IsSeen, Mended, red_end, broken, gone_on, round_from}

module _ {K : Type 0} (key : ℕ → K) (label : ℕ → ℕ) where
  -- A round with a black sibling, given what the loop does from the parent on.
  pub black_step :
      (d : Side) (c : Colour) (t : Rb K) (fuel h : ℕ) (up : Way) (p : ℕ) (near : Tree) (w : ℕ)
      (far x : Tree)
      → IsAt key label t (step d c up p (fork_at d black near w far)) x
      → IsSeen t p x
      → IsBlack x
      → Balanced h x
      → BalancedWay (suc h) (step d c up p (fork_at d black near w far))
      → ((t2 : Rb K)
          → IsAt key label t2 up (fork_at d c x p (fork_at d red near w far))
          → IsBlack near
          → IsBlack far
          → Mended key label t2 fuel p (plug up (fork_at d c x p (fork_at d red near w far))))
      → Mended key label t
          (suc fuel)
          (root_of x)
          (plug (step d c up p (fork_at d black near w far)) x)
  black_step d c t fuel h up p near w far x at seen b hx hp rest =
      let (np, cp, sw, hu) = at.around in
      let whole = plug (step d c up p (fork_at d black near w far)) x in
      let (round, colour) = round_from key label d c black t up p near w far x at seen in
      let link : Links key label d c t p near w far x =
        links key label d c black t up p near w far x at in
      let same : fix_delete_round t (root_of x) ≡ rest_of_round d t p =
        round ∙ ap (λ t1. rest_of_round d t1 p) (black_sibling-black d t p w link.sibling colour) in
      elim (black_round key label d c t h up p near w far x at b hx hp) [
        | inl goes ↦
            gone_on key label t goes.out fuel p x whole
              (plug up (fork_at d c x p (fork_at d red near w far))) seen np b (same ∙ goes.is)
              (plug-inorder up (fork_at d c x p (fork_at d red near w far))
                (fork_at d c x p (fork_at d black near w far))
                (inorder-fork_at d c c x x p (fork_at d red near w far) (fork_at d black near w far)
                  refl (inorder-fork_at d red black near near w far far refl refl)))
              goes.size (rest goes.out goes.at goes.near_black goes.far_black)
        | inr ends ↦
            broken key label t t fuel p x whole whole (rest_of_round d t p) seen np b same refl refl
              ends
      ]

  -- A round with the red sibling `w`, whose near child is the black fork at `n`.
  red_case :
      (d : Side) (t : Rb K) (fuel h : ℕ) (up : Way) (p : ℕ) (na : Tree) (n : ℕ) (nb : Tree) (w : ℕ)
      (far x : Tree)
      → IsAt key label t (step d black up p (fork_at d red (fork_at d black na n nb) w far)) x
      → IsSeen t p x
      → IsBlack x
      → Balanced h x
      → Balanced (suc h) (fork_at d black na n nb)
      → IsBlack (fork_at d black na n nb)
      → Balanced (suc h) far
      → BalancedWay (suc (suc h)) up
      → Mended key label t
          (suc (suc fuel))
          (root_of x)
          (plug (step d black up p (fork_at d red (fork_at d black na n nb) w far)) x)
  red_case d t fuel h up p na n nb w far x at seen b hx hn bn hf hu =
      let near = fork_at d black na n nb in
      let sibling = fork_at d red near w far in
      let whole = plug (step d black up p sibling) x in
      let (np, cp, sw, hup) = at.around in
      let (round, colour) = round_from key label d black red t up p near w far x at seen in
      let link : Links key label d black t p near w far x =
        links key label d black red t up p near w far x at in
      let t1 = rotate d (set_color (set_color t w black) p red) p in
      let (at1, size1) = red_moved key label d black t up p near w far x at in
      let above = step d black up w far in
      let whole1 = plug (step d red above p near) x in
      let same : fix_delete_round t (root_of x) ≡ rest_of_round d t1 p =
        round ∙ ap (λ t2. rest_of_round d t2 p) (black_sibling-red d t p w link.sibling colour) in
      let order =
        plug-inorder up (fork_at d black (fork_at d red x p near) w far)
          (fork_at d black x p sibling) (inorder-turn d black red black red x p near w far) in
      elim (black_round key label d red t1 h above p na n nb x at1 b hx (bn, hn, tt, (hf, hu))) [
        | inl goes ↦
            let low = fork_at d red x p (fork_at d red na n nb) in
            let (hna, hnb) = black-Balanced d h na n nb hn in
            gone_on key label t goes.out (suc fuel) p x whole (plug above low) seen np b
              (same ∙ goes.is)
              (plug-inorder above low (fork_at d red x p near) (
                  inorder-fork_at d red red x x p (fork_at d red na n nb) near refl
                    (inorder-fork_at d red black na na n nb nb refl refl))
                ∙ order)
              (goes.size ∙ size1)
              (subst (λ m. Mended key label goes.out (suc fuel) m (plug above low))
                (root-fork_at d red x p (fork_at d red na n nb))
                (red_end key label goes.out fuel h above low goes.at
                  (IsRed-fork_at d x p (fork_at d red na n nb))
                  (Almost-red d h x p (fork_at d red na n nb) hx
                    (Balanced-red d h na n nb goes.near_black goes.far_black hna hnb))
                  (hf, hu)))
        | inr ends ↦
            broken key label t t1 (suc fuel) p x whole whole1 (rest_of_round d t1 p) seen np b same
              order size1 ends
      ]

  -- Its near child is a black fork by the colour rules.
  pub red_step :
      (d : Side) (t : Rb K) (fuel h : ℕ) (up : Way) (p : ℕ) (near : Tree) (w : ℕ) (far x : Tree)
      → IsAt key label t (step d black up p (fork_at d red near w far)) x
      → IsSeen t p x
      → IsBlack x
      → Balanced h x
      → Balanced (suc h) (fork_at d red near w far)
      → BalancedWay (suc (suc h)) up
      → Mended key label t
          (suc (suc fuel))
          (root_of x)
          (plug (step d black up p (fork_at d red near w far)) x)
  red_step d t fuel h up p tip w far x at seen b hx hw hu =
      let (bn, bf, hn, hf) = red-Balanced d (suc h) tip w far hw in absurd (omega (arith, hn))
  red_step d t fuel h up p (fork red l n r) w far x at seen b hx hw hu =
      let (bn, bf, hn, hf) = red-Balanced d (suc h) (fork red l n r) w far hw in absurd bn
  red_step lft t fuel h up p (fork black l n r) w far x at seen b hx hw hu =
      let (bn, bf, hn, hf) = red-Balanced lft (suc h) (fork black l n r) w far hw in
      red_case lft t fuel h up p l n r w far x at seen b hx hn tt hf hu
  red_step rgt t fuel h up p (fork black l n r) w far x at seen b hx hw hu =
      let (bn, bf, hn, hf) = red-Balanced rgt (suc h) (fork black l n r) w far hw in
      red_case rgt t fuel h up p r n l w far x at seen b hx hn tt hf hu

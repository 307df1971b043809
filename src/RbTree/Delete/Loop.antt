-- ===== src/RbTree/Delete/Loop.antt =====
-- The loop of rbtree_fix_delete of src/rbtree.h as a whole: it ends, with a balanced tree.
use shmmalloc.Base.{ℕ, zero, suc, ◌<◌, inl, inr, arith, subst}
use shmmalloc.RbTree.{Colour, red, black, Rb}
use shmmalloc.RbTree.Side.{Side, lft, rgt}
use shmmalloc.RbTree.Ghost.{Tree, tip, fork, Way, top, step, root_of, parent_of, fork_at, plug}
use shmmalloc.RbTree.Balance.{IsBlack, Balanced, BalancedWay, black-Balanced, Balanced-red, depth}
use shmmalloc.RbTree.Turn.{IsAt, root-fork_at}
use shmmalloc.RbTree.Delete.Ends.{
  Almost, Almost-red, Almost-black, black-Almost, either_colour, IsSeen, IsSeen-fork, Mended,
  red_end, top_end,
}
use shmmalloc.RbTree.Delete.Step.{black_step, red_step}

module _ {K : Type 0} (key : ℕ → K) (label : ℕ → ℕ) where
  goes_Almost :
      (d : Side) (c : Colour) (h : ℕ) (up : Way) (p : ℕ) (near : Tree) (w : ℕ) (far x : Tree)
      → BalancedWay (suc h) (step d c up p (fork_at d black near w far))
      → IsBlack near
      → IsBlack far
      → Balanced h x
      → (m : ℕ) × Almost m (fork_at d c x p (fork_at d red near w far)) × BalancedWay (suc m) up
  goes_Almost d red h up p near w far x (bw, hw, bs, hu) bn bf hx =
      let (hn, hf) = black-Balanced d h near w far hw in
      (
        h,
        Almost-red d h x p (fork_at d red near w far) hx (Balanced-red d h near w far bn bf hn hf),
        hu,
      )
  goes_Almost d black h up p near w far x (hw, hu) bn bf hx =
      let (hn, hf) = black-Balanced d h near w far hw in
      (
        suc h,
        Almost-black d h x p (fork_at d red near w far) hx
            (Balanced-red d h near w far bn bf hn hf),
        hu,
      )

  -- A round with a black sibling, where the loop is known from the parent on.
  under_black :
      (d : Side) (c : Colour) (t : Rb K) (fuel h : ℕ) (up : Way) (p : ℕ) (near : Tree) (w : ℕ)
      (far x : Tree)
      → ((t2 : Rb K) (m : ℕ) (x2 : Tree)
          → IsAt key label t2 up x2
          → IsSeen t2 (parent_of up) x2
          → Almost m x2
          → BalancedWay (suc m) up
          → Mended key label t2 fuel (root_of x2) (plug up x2))
      → IsAt key label t (step d c up p (fork_at d black near w far)) x
      → IsSeen t p x
      → IsBlack x
      → Balanced h x
      → BalancedWay (suc h) (step d c up p (fork_at d black near w far))
      → Mended key label t
          (suc fuel)
          (root_of x)
          (plug (step d c up p (fork_at d black near w far)) x)
  under_black d c t fuel h up p near w far x ih at seen b hx hp =
      let low = fork_at d c x p (fork_at d red near w far) in
      black_step key label d c t fuel h up p near w far x at seen b hx hp (λ t2 at2 bn bf.
        let (m, almost, hu) = goes_Almost d c h up p near w far x hp bn bf hx in
        subst (λ k. Mended key label t2 fuel k (plug up low))
          (root-fork_at d c x p (fork_at d red near w far))
          (ih t2 m low at2
            (IsSeen-fork key label d c t2 (parent_of up) x p (fork_at d red near w far) at2.stores)
            almost hu))

  black_any :
      (d : Side) (c : Colour) (t : Rb K) (fuel h : ℕ) (up : Way) (p : ℕ) (l : Tree) (w : ℕ)
      (r x : Tree)
      → ((t2 : Rb K) (m : ℕ) (x2 : Tree)
          → IsAt key label t2 up x2
          → IsSeen t2 (parent_of up) x2
          → Almost m x2
          → BalancedWay (suc m) up
          → Mended key label t2 fuel (root_of x2) (plug up x2))
      → IsAt key label t (step d c up p (fork black l w r)) x
      → IsSeen t p x
      → IsBlack x
      → Balanced h x
      → BalancedWay (suc h) (step d c up p (fork black l w r))
      → Mended key label t (suc fuel) (root_of x) (plug (step d c up p (fork black l w r)) x)
  black_any lft c t fuel h up p l w r x ih at seen b hx hp =
      under_black lft c t fuel h up p l w r x ih at seen b hx hp
  black_any rgt c t fuel h up p l w r x ih at seen b hx hp =
      under_black rgt c t fuel h up p r w l x ih at seen b hx hp

  red_any :
      (d : Side) (t : Rb K) (fuel h : ℕ) (up : Way) (p : ℕ) (l : Tree) (w : ℕ) (r x : Tree)
      → IsAt key label t (step d black up p (fork red l w r)) x
      → IsSeen t p x
      → IsBlack x
      → Balanced h x
      → Balanced (suc h) (fork red l w r)
      → BalancedWay (suc (suc h)) up
      → Mended key label t
          (suc (suc fuel))
          (root_of x)
          (plug (step d black up p (fork red l w r)) x)
  red_any lft t fuel h up p l w r x at seen b hx hw hu =
      red_step key label lft t fuel h up p l w r x at seen b hx hw hu
  red_any rgt t fuel h up p l w r x at seen b hx (bl, br, hl, hr) hu =
      red_step key label rgt t fuel h up p r w l x at seen b hx (bl, br, hl, hr) hu

  -- With fuel for every step of the way up, the loop returns a balanced tree with the same positions
  -- in order, where one black node was missing below the way up.
  pub fix_delete-Mended :
      (t : Rb K) (fuel h : ℕ) (path : Way) (x : Tree)
      → depth path < fuel
      → IsAt key label t path x
      → IsSeen t (parent_of path) x
      → Almost h x
      → BalancedWay (suc h) path
      → Mended key label t fuel (root_of x) (plug path x)
  fix_delete-Mended t zero h path x lt at seen hx hp = absurd (omega (arith, lt))
  fix_delete-Mended t (suc fuel) h top x lt at seen hx hp = elim (either_colour x) [
    | inl r ↦ red_end key label t fuel h top x at r hx hp
    | inr b ↦ top_end key label t fuel h x at seen b (black-Almost h x b hx)
  ]
  fix_delete-Mended t (suc fuel) h (step d black up p tip) x lt at seen hx (hw, hu) =
      absurd (omega (arith, hw))
  fix_delete-Mended t (suc fuel) h (step d red up p tip) x lt at seen hx (bw, hw, bs, hu) =
      absurd (omega (arith, hw))
  fix_delete-Mended t (suc fuel) h (step d c up p (fork black l w r)) x lt at seen hx hp =
      elim (either_colour x) [
        | inl is_red_x ↦
            red_end key label t fuel h (step d c up p (fork black l w r)) x at is_red_x hx hp
        | inr b ↦
            black_any d c t fuel h up p l w r x
              (λ t2 m x2 at2 seen2 hx2 hu2.
                fix_delete-Mended t2 fuel m up x2 (omega (arith, lt)) at2 seen2 hx2 hu2)
              at seen b (black-Almost h x b hx) hp
      ]
  fix_delete-Mended t (suc fuel) h (step d red up p (fork red l w r)) x lt at seen hx
        (bw, hw, bs, hu) =
      absurd bw
  fix_delete-Mended t (suc zero) h (step d black up p (fork red l w r)) x lt at seen hx hp =
      absurd (omega (arith, lt))
  fix_delete-Mended t (suc (suc fuel)) h (step d black up p (fork red l w r)) x lt at seen hx
        (hw, hu) =
      elim (either_colour x) [
        | inl is_red_x ↦
            red_end key label t (suc fuel) h (step d black up p (fork red l w r)) x at is_red_x hx
              (hw, hu)
        | inr b ↦ red_any d t fuel h up p l w r x at seen b (black-Almost h x b hx) hw hu
      ]

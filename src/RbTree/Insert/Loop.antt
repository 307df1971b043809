-- ===== src/RbTree/Insert/Loop.antt =====
-- The loop of rbtree_fix_insert of src/rbtree.h as a whole: it ends, with a balanced tree.
use shmmalloc.Base.{ℕ, zero, suc, ◌<◌, refl, arith, subst}
use shmmalloc.RbTree.{red, black, Rb, set_color}
use shmmalloc.RbTree.Side.{lft}
use shmmalloc.RbTree.Ghost.{Tree, tip, fork, Way, top, step, root_of, fork_at, plug}
use shmmalloc.RbTree.Balance.{
  IsRed, red-nonzero, IsRed-fork_at, IsBlack-fork_at, Balanced, BalancedWay, Balanced-red,
  Balanced-black, plug-inorder, inorder-fork_at, depth,
}
use shmmalloc.RbTree.Turn.{IsAt, root-fork_at}
use shmmalloc.RbTree.Zipper.{recolour}
use shmmalloc.RbTree.Insert.Round.{round-recolour, fix_insert-top}
use shmmalloc.RbTree.Insert.Moves.{root-parent, red-root, red_at-parent, family, recoloured}
use shmmalloc.RbTree.Insert.Turns.{Fixed, after, next_is, settled, turns}

module _ {K : Type 0} (key : ℕ → K) (label : ℕ → ℕ) where
  at_top :
      (t : Rb K) (fuel h : ℕ) (tree : Tree)
      → IsAt key label t top tree
      → IsRed tree
      → Balanced h tree
      → Fixed key label t (suc fuel) (root_of tree) tree
  at_top t fuel h tip at is_red hb = absurd is_red
  at_top t fuel h (fork black l n r) at is_red hb = absurd is_red
  at_top t fuel h (fork red l n r) at is_red (bl, br, hl, hr) = record {
    out = set_color t n black;
    tree = fork black l n r;
    runs =
        fix_insert-top fuel t n (root-parent key label t 0 (fork red l n r) at.stores at.stores.0);
    at = recolour key label lft t top red black l n r at;
    balanced = (tt, (suc h, (h, refl, hl, hr)));
    same = refl;
    size = refl;
  }

  -- With fuel for every step of the way up, the loop returns a balanced tree with the same
  -- positions in order.
  pub fix_insert-Fixed :
      (t : Rb K) (fuel h : ℕ) (path : Way) (tree : Tree)
      → depth path < fuel
      → IsAt key label t path tree
      → IsRed tree
      → Balanced h tree
      → BalancedWay h path
      → Fixed key label t fuel (root_of tree) (plug path tree)
  fix_insert-Fixed t zero h path tree lt at is_red hb hp = absurd (omega (arith, lt))
  fix_insert-Fixed t (suc fuel) h top tree lt at is_red hb hp = at_top t fuel h tree at is_red hb
  fix_insert-Fixed t (suc fuel) h (step d black up p other) tree lt at is_red hb hp =
      settled key label d t fuel h up p other tree at (red-nonzero key t p tree is_red at.stores) hb
        hp
  fix_insert-Fixed t (suc fuel) h (step d red top p other) tree lt at is_red hb (bo, ho, bs, hu) =
      absurd bs
  fix_insert-Fixed t (suc fuel) h (step d red (step d2 red up pp uncle) p other) tree lt at is_red
        hb (bo, ho, bs, hu) =
      absurd bs
  fix_insert-Fixed t (suc zero) h (step d red (step d2 black up pp uncle) p other) tree lt at is_red
        hb hp =
      absurd (omega (arith, lt))
  fix_insert-Fixed t (suc (suc fuel)) h (step d red (step d2 black up pp tip) p other) tree lt at
        is_red hb hp =
      turns key label d d2 t fuel h up pp tip p other tree at is_red hb tt hp
  fix_insert-Fixed t (suc (suc fuel)) h
        (step d red (step d2 black up pp (fork black ul u ur)) p other) tree lt at is_red hb hp =
      turns key label d d2 t fuel h up pp (fork black ul u ur) p other tree at is_red hb tt hp
  fix_insert-Fixed t (suc (suc fuel)) h
        (step d red (step d2 black up pp (fork red ul u ur)) p other) tree lt at is_red hb
        (bo, ho, bs, ((bul, bur, hul, hur), hup)) =
      let uncle = fork red ul u ur in
      let uncle' = fork black ul u ur in
      let above = fork_at d black tree p other in
      let next = fork_at d2 red above pp uncle' in
      let t2 = set_color (set_color (set_color t u black) p black) pp red in
      let nz = red-nonzero key t p tree is_red at.stores in
      let (np, cp, so, (npp, cpp, su, hu2)) = at.around in
      let round =
        round-recolour d2 t (root_of tree) p pp u
          (family key label d d2 t up pp uncle p other tree at)
          (red-root key label t pp ul u ur su) in
      let rest : Fixed key label t2 (suc fuel) pp (plug up next) =
        subst (λ w. Fixed key label t2 (suc fuel) w (plug up next))
          (root-fork_at d2 red above pp uncle')
          (fix_insert-Fixed t2 (suc fuel) (suc h) up next (omega (arith, lt))
            (recoloured key label d d2 t up pp ul u ur p other tree at)
            (IsRed-fork_at d2 above pp uncle')
            (Balanced-red d2 (suc h) above pp uncle' (IsBlack-fork_at d tree p other) tt
              (Balanced-black d h tree p other hb ho) (h, refl, hul, hur))
            hup) in
      after key label t t2 (suc fuel) (root_of tree) pp
        (plug (step d red (step d2 black up pp uncle) p other) tree) (plug up next)
        (next_is key label t t2 (suc fuel) (root_of tree) pp p
          (root-parent key label t p tree at.stores nz)
          (red_at-parent key label d red t (step d2 black up pp uncle) p other (root_of tree)
            at.around)
          round)
        refl
        (plug-inorder up next (fork_at d2 black (fork_at d red tree p other) pp uncle) (
          inorder-fork_at d2 red black above (fork_at d red tree p other) pp uncle' uncle
            (inorder-fork_at d black red tree tree p other other refl refl) refl))
        rest

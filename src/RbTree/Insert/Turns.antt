-- ===== src/RbTree/Insert/Turns.antt =====
-- The last rounds of rbtree_fix_insert of src/rbtree.h, which turn the tree and end.
use shmmalloc.Base.{ℕ, suc, ◌≡◌, ◌≢◌, refl, sym, ap, ◌∙◌, inr, some, subst, true}
use shmmalloc.RbTree.{red, black, Rb, set_color, red_at}
use shmmalloc.RbTree.Side.{Side, lft, rgt, opposite, child, rotate}
use shmmalloc.RbTree.Ghost.{Tree, tip, fork, Way, top, step, root_of, fork_at, plug, inorder}
use shmmalloc.RbTree.Update.{rbtree_fix_insert, fix_insert_round}
use shmmalloc.RbTree.Balance.{
  IsRed, red-nonzero, IsBlack, Balanced, IsBalanced, BalancedWay, Balanced-red, plug-IsBalanced,
  plug-inorder, inorder-fork_at,
}
use shmmalloc.RbTree.Turn.{IsAt, root-fork_at, inorder-turn}
use shmmalloc.RbTree.Turn.Cells.{child-near, child-far}
use shmmalloc.RbTree.Zipper.{opposite-fork_at, rise, rise_all, descend, near-far}
use shmmalloc.RbTree.Insert.Round.{round-outer, round-inner, fix_insert-next, fix_insert-stop}
use shmmalloc.RbTree.Insert.Moves.{
  root-parent, root_self, black-root, red_at-parent, family, outer_turned, inner_turned,
}

-- rbtree_fix_insert returns, and the memory then holds a balanced tree with the positions of
-- `whole` in their order.
pub record Fixed {K : Type 0} (key : ℕ → K) (label : ℕ → ℕ) (t : Rb K) (fuel node : ℕ)
    (whole : Tree) : Type 0 where
  pub out : Rb K
  pub tree : Tree
  pub runs : rbtree_fix_insert fuel t node ≡ some out
  pub at : IsAt key label out top tree
  pub balanced : IsBalanced tree
  pub same : inorder tree ≡ inorder whole
  pub size : out.size ≡ t.size

module _ {K : Type 0} (key : ℕ → K) (label : ℕ → ℕ) where
  -- A round that leads to another state.
  pub after :
      (t t2 : Rb K) (fuel node node2 : ℕ) (whole whole2 : Tree)
      → rbtree_fix_insert (suc fuel) t node ≡ rbtree_fix_insert fuel t2 node2
      → t2.size ≡ t.size
      → inorder whole2 ≡ inorder whole
      → Fixed key label t2 fuel node2 whole2
      → Fixed key label t (suc fuel) node whole
  after t t2 fuel node node2 whole whole2 e size same f = record {
    out = f.out;
    tree = f.tree;
    runs = e ∙ f.runs;
    at = f.at;
    balanced = f.balanced;
    same = f.same ∙ same;
    size = f.size ∙ size;
  }

  pub next_is :
      (t t2 : Rb K) (fuel node node2 p : ℕ)
      → (t.nodes node).p ≡ p
      → red_at t p ≡ true
      → fix_insert_round t node p ≡ (t2, node2)
      → rbtree_fix_insert (suc fuel) t node ≡ rbtree_fix_insert fuel t2 node2
  next_is t t2 fuel node node2 p e r round =
      fix_insert-next fuel t node p e r ∙ ap (λ next. rbtree_fix_insert fuel next.0 next.1) round

  -- Under a black parent the loop ends at once.
  pub settled :
      (d : Side) (t : Rb K) (fuel h : ℕ) (up : Way) (p : ℕ) (other tree : Tree)
      → IsAt key label t (step d black up p other) tree
      → root_of tree ≢ 0
      → Balanced h tree
      → BalancedWay h (step d black up p other)
      → Fixed key label t (suc fuel) (root_of tree) (plug (step d black up p other) tree)
  settled d t fuel h up p other tree at nz hb hp =
      let path = step d black up p other in
      let (np, cp, so, hu) = at.around in
      record {
        out = t;
        tree = plug path tree;
        runs =
            fix_insert-stop fuel t (root_of tree) p (root-parent key label t p tree at.stores nz) np
              (red_at-parent key label d black t up p other (root_of tree) at.around);
        at = rise_all key label t path tree at;
        balanced = plug-IsBalanced h path tree hp hb (inr tt);
        same = refl;
        size = refl;
      }

  -- The tree after the last rotation of the loop.
  turned :
      (d : Side) (t : Rb K) (fuel h : ℕ) (up : Way) (pp : ℕ) (uncle : Tree) (p : ℕ)
      (other tree : Tree)
      → IsAt key label t (step d red (step d black up pp uncle) p other) tree
      → root_of tree ≢ 0
      → Balanced h tree
      → IsBlack uncle
      → BalancedWay h (step d red (step d black up pp uncle) p other)
      → Fixed key label
          (rotate (opposite d) (set_color (set_color t p black) pp red) pp)
          (suc fuel)
          (root_of tree)
          (plug (step d red (step d black up pp uncle) p other) tree)
  turned d t fuel h up pp uncle p other tree at nz hb bu (bo, ho, bs, (hu, hup)) =
      let out = rotate (opposite d) (set_color (set_color t p black) pp red) pp in
      let side = fork_at d red other pp uncle in
      let (at1, size) = outer_turned key label d t up pp uncle p other tree at in
      let f =
        settled d out fuel h up p side tree (descend key label d black out up p tree side at1) nz hb
          (Balanced-red d h other pp uncle bo bu ho hu, hup) in
      record {
        out = f.out;
        tree = f.tree;
        runs = f.runs;
        at = f.at;
        balanced = f.balanced;
        same =
            f.same
            ∙ plug-inorder up (fork_at d black tree p side)
                (fork_at d black (fork_at d red tree p other) pp uncle)
                (sym (inorder-turn d black red black red tree p other pp uncle));
        size = f.size;
      }

  outer_case :
      (d : Side) (t : Rb K) (fuel h : ℕ) (up : Way) (pp : ℕ) (uncle : Tree) (p : ℕ)
      (other tree : Tree)
      → IsAt key label t (step d red (step d black up pp uncle) p other) tree
      → root_of tree ≢ 0
      → Balanced h tree
      → IsBlack uncle
      → BalancedWay h (step d red (step d black up pp uncle) p other)
      → Fixed key label t
          (suc (suc fuel))
          (root_of tree)
          (plug (step d red (step d black up pp uncle) p other) tree)
  outer_case d t fuel h up pp uncle p other tree at nz hb bu hp =
      let node = root_of tree in
      let out = rotate (opposite d) (set_color (set_color t p black) pp red) pp in
      let whole = plug (step d red (step d black up pp uncle) p other) tree in
      let (np, cp, so, (npp, cpp, su, hu)) = at.around in
      let far : child (opposite d) (t.nodes p) ≡ root_of other =
        ap (child (opposite d)) cp ∙ child-far key d _ _ _ _ _ in
      let sides =
        near-far key label d t (step d black up pp uncle) red tree p other
          (rise key label d red t (step d black up pp uncle) p tree other at) nz in
      let round =
        round-outer d t node p pp (root_of uncle)
          (family key label d d t up pp uncle p other tree at)
          (black-root key label t pp uncle su bu)
          (λ e. sides (sym far ∙ sym e ∙ root_self key label t p tree at.stores nz)) in
      let (at1, size) = outer_turned key label d t up pp uncle p other tree at in
      after t out (suc fuel) node node whole whole
        (next_is t out (suc fuel) node node p (root-parent key label t p tree at.stores nz)
          (red_at-parent key label d red t (step d black up pp uncle) p other node at.around) round)
        size refl (turned d t fuel h up pp uncle p other tree at nz hb bu hp)

  inner_case :
      (d : Side) (t : Rb K) (fuel h : ℕ) (up : Way) (pp : ℕ) (uncle : Tree) (p : ℕ)
      (other near : Tree) (n : ℕ) (far : Tree)
      → IsAt key label t
          (step (opposite d) red (step d black up pp uncle) p other)
          (fork_at d red near n far)
      → n ≢ 0
      → IsBlack near
      → IsBlack far
      → Balanced h near
      → Balanced h far
      → IsBlack uncle
      → BalancedWay h (step (opposite d) red (step d black up pp uncle) p other)
      → Fixed key label t (suc (suc fuel)) n (
          plug
            (step (opposite d) red (step d black up pp uncle) p other)
            (fork_at d red near n far))
  inner_case d t fuel h up pp uncle p other near n far at nn bn bf hn hf bu
        (bo, ho, bs, (hu, hup)) =
      let above = step d black up pp uncle in
      let tree = fork_at d red near n far in
      let t1 = rotate d t p in
      let low = fork_at d red other p near in
      let out = rotate (opposite d) (set_color (set_color t1 n black) pp red) pp in
      let (np, cp, so, (npp, cpp, su, hu2)) = at.around in
      let ne : root_of tree ≡ n = root-fork_at d red near n far in
      let pe : root_of low ≡ p = root-fork_at d red other p near in
      let nz : root_of tree ≢ 0 = λ z. nn (sym ne ∙ z) in
      let parent_n : (t.nodes n).p ≡ p =
        subst (λ w. (t.nodes w).p ≡ p) ne (root-parent key label t p tree at.stores nz) in
      let self_n : (t.nodes n).s ≡ n =
        subst (λ w. (t.nodes w).s ≡ w) ne (root_self key label t p tree at.stores nz) in
      let far_p : child (opposite d) (t.nodes p) ≡ n =
        ap (child (opposite d)) cp ∙ child-near key (opposite d) _ _ _ _ _ ∙ ne in
      let (at1, size1) = inner_turned key label d t above p other near n far at in
      let (at2, size2) = outer_turned key label d t1 up pp uncle n far low at1 in
      let round =
        round-inner d t n p pp (root_of uncle)
          (family key label (opposite d) d t up pp uncle p other tree at)
          (black-root key label t pp uncle su bu) (self_n ∙ sym far_p) in
      let f : Fixed key label out (suc fuel) p (plug (step d red above n far) low) =
        subst (λ w. Fixed key label out (suc fuel) w (plug (step d red above n far) low)) pe
          (turned d t1 fuel h up pp uncle n far low at1 (λ z. np (sym pe ∙ z))
            (Balanced-red d h other p near bo bn ho hn) bu (bf, hf, tt, (hu, hup))) in
      let order =
        inorder-turn d red red red red other p near n far
        ∙ sym (ap inorder (opposite-fork_at d red tree p other)) in
      after t out (suc fuel) n p (plug (step (opposite d) red above p other) tree)
        (plug (step d red above n far) low)
        (next_is t out (suc fuel) n p p parent_n
          (red_at-parent key label (opposite d) red t above p other (root_of tree) at.around) round)
        (size2 ∙ size1)
        (plug-inorder up (fork_at d black (fork_at d red low n far) pp uncle)
          (fork_at d black (fork_at (opposite d) red tree p other) pp uncle)
          (inorder-fork_at d black black (fork_at d red low n far)
            (fork_at (opposite d) red tree p other) pp uncle uncle order refl))
        f

  inner_any :
      (d : Side) (t : Rb K) (fuel h : ℕ) (up : Way) (pp : ℕ) (uncle : Tree) (p : ℕ)
      (other tree : Tree)
      → IsAt key label t (step (opposite d) red (step d black up pp uncle) p other) tree
      → IsRed tree
      → Balanced h tree
      → IsBlack uncle
      → BalancedWay h (step (opposite d) red (step d black up pp uncle) p other)
      → Fixed key label t
          (suc (suc fuel))
          (root_of tree)
          (plug (step (opposite d) red (step d black up pp uncle) p other) tree)
  inner_any d t fuel h up pp uncle p other tip at is_red hb bu hp = absurd is_red
  inner_any d t fuel h up pp uncle p other (fork black l n r) at is_red hb bu hp = absurd is_red
  inner_any lft t fuel h up pp uncle p other (fork red l n r) at is_red (bl, br, hl, hr) bu hp =
      inner_case lft t fuel h up pp uncle p other l n r at at.stores.0 bl br hl hr bu hp
  inner_any rgt t fuel h up pp uncle p other (fork red l n r) at is_red (bl, br, hl, hr) bu hp =
      inner_case rgt t fuel h up pp uncle p other r n l at at.stores.0 br bl hr hl bu hp

  -- Under a red parent and a black uncle, one round or two turn the tree and the loop ends.
  pub turns :
      (d d2 : Side) (t : Rb K) (fuel h : ℕ) (up : Way) (pp : ℕ) (uncle : Tree) (p : ℕ)
      (other tree : Tree)
      → IsAt key label t (step d red (step d2 black up pp uncle) p other) tree
      → IsRed tree
      → Balanced h tree
      → IsBlack uncle
      → BalancedWay h (step d red (step d2 black up pp uncle) p other)
      → Fixed key label t
          (suc (suc fuel))
          (root_of tree)
          (plug (step d red (step d2 black up pp uncle) p other) tree)
  turns lft lft t fuel h up pp uncle p other tree at is_red hb bu hp =
      outer_case lft t fuel h up pp uncle p other tree at
        (red-nonzero key t p tree is_red at.stores) hb bu hp
  turns rgt rgt t fuel h up pp uncle p other tree at is_red hb bu hp =
      outer_case rgt t fuel h up pp uncle p other tree at
        (red-nonzero key t p tree is_red at.stores) hb bu hp
  turns lft rgt t fuel h up pp uncle p other tree at is_red hb bu hp =
      inner_any rgt t fuel h up pp uncle p other tree at is_red hb bu hp
  turns rgt lft t fuel h up pp uncle p other tree at is_red hb bu hp =
      inner_any lft t fuel h up pp uncle p other tree at is_red hb bu hp

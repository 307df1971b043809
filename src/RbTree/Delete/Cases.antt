-- ===== src/RbTree/Delete/Cases.antt =====
-- A round of rbtree_fix_delete of src/rbtree.h with a black sibling: it ends the loop with a balanced
-- tree, or goes on at the parent.
use shmmalloc.Base.{ℕ, suc, ◌≡◌, refl, sym, ap, ◌∙◌, ◌⊎◌, inl, inr, false, subst}
use shmmalloc.RbTree.{Colour, red, black, Rb, set_color}
use shmmalloc.RbTree.Side.{Side, lft, rgt, opposite, child, rotate}
use shmmalloc.RbTree.Ghost.{Tree, tip, fork, Way, step, root_of, fork_at, plug, inorder, Stores}
use shmmalloc.RbTree.Ghost.Frame.{Stores-fork_at}
use shmmalloc.RbTree.Update.{Round, go_on, break, black_at}
use shmmalloc.RbTree.Balance.{
  IsBlack, Balanced, IsBalanced, BalancedWay, Balanced-red, Balanced-black, red-Balanced,
  black-Balanced, BalancedWay-other, sibling-Balanced, IsBlack-fork_at, plug-IsBalanced,
  plug-inorder, inorder-fork_at,
}
use shmmalloc.RbTree.Turn.{IsAt, root-fork_at, inorder-turn}
use shmmalloc.RbTree.Turn.Cells.{child-near, child-far, color-cell}
use shmmalloc.RbTree.Delete.Round.{
  rest_of_round, near_turn, last_turn, rest-both, rest-far, rest-near, near_turn-parts,
  last_turn-parts,
}
use shmmalloc.RbTree.Delete.Moves.{
  sibling_reddened, far_moved, near_moved, black_at-black, black_at-red,
}

module _ {K : Type 0} (key : ℕ → K) (label : ℕ → ℕ) where
  -- The round ends the loop.
  pub record Ends (t : Rb K) (whole x : Tree) (round : Round K) : Type 0 where
    pub out : Rb K
    pub way : Way
    pub is : round ≡ break out
    pub at : IsAt key label out way x
    pub balanced : IsBalanced (plug way x)
    pub same : inorder (plug way x) ≡ inorder whole
    pub size : out.size ≡ t.size

  -- The round goes on at the parent, with a red sibling.
  pub record Goes (d : Side) (c : Colour) (t : Rb K) (up : Way) (p : ℕ) (near : Tree) (w : ℕ)
      (far x : Tree) (round : Round K) : Type 0 where
    pub out : Rb K
    pub is : round ≡ go_on out p
    pub at : IsAt key label out up (fork_at d c x p (fork_at d red near w far))
    pub near_black : IsBlack near
    pub far_black : IsBlack far
    pub size : out.size ≡ t.size

  -- The links of a node and of the sibling of its child.
  pub record Links (d : Side) (c : Colour) (t : Rb K) (p : ℕ) (near : Tree) (w : ℕ) (far x : Tree)
      : Type 0 where
    pub color : (t.nodes p).color ≡ c
    pub node : child d (t.nodes p) ≡ root_of x
    pub sibling : child (opposite d) (t.nodes p) ≡ w
    pub near_child : child d (t.nodes w) ≡ root_of near
    pub far_child : child (opposite d) (t.nodes w) ≡ root_of far
    pub near_stores : Stores key t w near
    pub far_stores : Stores key t w far

  pub links :
      (d : Side) (c cw : Colour) (t : Rb K) (up : Way) (p : ℕ) (near : Tree) (w : ℕ) (far x : Tree)
      → IsAt key label t (step d c up p (fork_at d cw near w far)) x
      → Links d c t p near w far x
  links d c cw t up p near w far x at =
      let (np, cp, sw, hu) = at.around in
      let (nw, cellw, sn, sf) = Stores-fork_at key d t p cw near w far sw in
      record {
        color = ap (λ n. n.color) cp ∙ color-cell key d _ _ _ _ _;
        node = ap (child d) cp ∙ child-near key d _ _ _ _ _;
        sibling =
            ap (child (opposite d)) cp ∙ child-far key d _ _ _ _ _ ∙ root-fork_at d cw near w far;
        near_child = ap (child d) cellw ∙ child-near key d _ _ _ _ _;
        far_child = ap (child (opposite d)) cellw ∙ child-far key d _ _ _ _ _;
        near_stores = sn;
        far_stores = sf;
      }

  -- The end by the last rotation, where the far child of the sibling is the red fork at `f`.
  last_case :
      (d e : Side) (c : Colour) (t : Rb K) (h : ℕ) (up : Way) (p : ℕ) (near : Tree) (w : ℕ)
      (fa : Tree) (f : ℕ) (fb x : Tree)
      → IsAt key label t (step d c up p (fork_at d black near w (fork_at e red fa f fb))) x
      → IsBlack x
      → Balanced h x
      → Balanced h near
      → Balanced h fa
      → Balanced h fb
      → BalancedWay (suc h) (step d c up p (fork_at d black near w (fork_at e red fa f fb)))
      → Ends t
          (plug (step d c up p (fork_at d black near w (fork_at e red fa f fb))) x)
          x
          (break (last_turn d t p w f))
  last_case d e c t h up p near w fa f fb x at bx hx hn ha hb hp =
      let far = fork_at e red fa f fb in
      let far' = fork_at e black fa f fb in
      let old = fork_at d black near w far in
      let link : Links d c t p near w far x = links d c black t up p near w far x at in
      let (at2, size) = far_moved key label d e c t up p near w fa f fb x at in
      let way = step d black (step d c up w far') p near in
      let up_ok : BalancedWay (suc h) (step d c up w far') =
        BalancedWay-other d c (suc h) up p w old far' hp (IsBlack-fork_at e fa f fb)
          (Balanced-black e h fa f fb ha hb) in
      let swapped : inorder (fork_at d c (fork_at d black x p near) w far')
          ≡ inorder (fork_at d c (fork_at d black x p near) w far) =
        inorder-fork_at d c c (fork_at d black x p near) (fork_at d black x p near) w far' far refl
          (inorder-fork_at e black red fa fa f fb fb refl refl) in
      record {
        out = rotate d (set_color (set_color (set_color t w c) p black) f black) p;
        way = way;
        is = ap break (last_turn-parts d t p w f c link.color);
        at = at2;
        balanced = plug-IsBalanced h way x (hn, up_ok) hx (inl bx);
        same =
            plug-inorder up (fork_at d c (fork_at d black x p near) w far') (fork_at d c x p old)
              (swapped ∙ inorder-turn d c black c black x p near w far);
        size = size;
      }

  far_case :
      (d : Side) (c : Colour) (t : Rb K) (h : ℕ) (up : Way) (p : ℕ) (near : Tree) (w : ℕ)
      (fa : Tree) (f : ℕ) (fb x : Tree)
      → IsAt key label t (step d c up p (fork_at d black near w (fork red fa f fb))) x
      → IsBlack x
      → Balanced h x
      → BalancedWay (suc h) (step d c up p (fork_at d black near w (fork red fa f fb)))
      → Ends t
          (plug (step d c up p (fork_at d black near w (fork red fa f fb))) x)
          x
          (rest_of_round d t p)
  far_case d c t h up p near w fa f fb x at bx hx hp =
      let far = fork red fa f fb in
      let link : Links d c t p near w far x = links d c black t up p near w far x at in
      let (hn, (ba, bb, ha, hb)) =
        black-Balanced d h near w far
          (sibling-Balanced d c (suc h) up p (fork_at d black near w far) hp) in
      let done = last_case d lft c t h up p near w fa f fb x at bx hx hn ha hb hp in
      let round =
        rest-far d t p w f link.sibling link.far_child
          (black_at-red key label t w fa f fb link.far_stores) in
      record {
        out = done.out;
        way = done.way;
        is = round ∙ done.is;
        at = done.at;
        balanced = done.balanced;
        same = done.same;
        size = done.size;
      }

  near_case :
      (d : Side) (c : Colour) (t : Rb K) (h : ℕ) (up : Way) (p : ℕ) (na : Tree) (n : ℕ) (nb : Tree)
      (w : ℕ) (far x : Tree)
      → IsAt key label t (step d c up p (fork_at d black (fork_at d red na n nb) w far)) x
      → IsBlack x
      → Balanced h x
      → black_at t n ≡ false
      → IsBlack far
      → BalancedWay (suc h) (step d c up p (fork_at d black (fork_at d red na n nb) w far))
      → Ends t
          (plug (step d c up p (fork_at d black (fork_at d red na n nb) w far)) x)
          x
          (rest_of_round d t p)
  near_case d c t h up p na n nb w far x at bx hx red_n bf hp =
      let near = fork_at d red na n nb in
      let old = fork_at d black near w far in
      let new = fork_at d black na n (fork_at d red nb w far) in
      let link : Links d c t p near w far x = links d c black t up p near w far x at in
      let (hnear, hf) = black-Balanced d h near w far (sibling-Balanced d c (suc h) up p old hp) in
      let (bna, bnb, hna, hnb) = red-Balanced d h na n nb hnear in
      let (at1, size1) = near_moved key label d c t up p na n nb w far x at in
      let t2 = near_turn d t w n in
      let parts = near_turn-parts d t w n in
      let at2 : IsAt key label t2 (step d c up p new) x =
        subst (λ t3. IsAt key label t3 (step d c up p new) x) (sym parts) at1 in
      let link2 : Links d c t2 p na n (fork_at d red nb w far) x =
        links d c black t2 up p na n (fork_at d red nb w far) x at2 in
      let way_ok : BalancedWay (suc h) (step d c up p new) =
        BalancedWay-other d c (suc h) up p p old new hp
          (IsBlack-fork_at d na n (fork_at d red nb w far))
          (Balanced-black d h na n (fork_at d red nb w far) hna
            (Balanced-red d h nb w far bnb bf hnb hf)) in
      let done = last_case d d c t2 h up p na n nb w far x at2 bx hx hna hnb hf way_ok in
      let near_n : child d (t.nodes w) ≡ n = link.near_child ∙ root-fork_at d red na n nb in
      let far_w : child (opposite d) (t2.nodes n) ≡ w =
        link2.far_child ∙ root-fork_at d red nb w far in
      let round =
        rest-near d t p w n (root_of far) n w link.sibling near_n link.far_child red_n
          (black_at-black key label t w far link.far_stores bf) link2.sibling far_w in
      record {
        out = done.out;
        way = done.way;
        is = round ∙ done.is;
        at = done.at;
        balanced = done.balanced;
        same =
            done.same
            ∙ plug-inorder up (fork_at d c x p new) (fork_at d c x p old) (
                inorder-fork_at d c c x x p new old refl
                  (sym (inorder-turn d black red black red na n nb w far)));
        size = done.size ∙ ap (λ t3. t3.size) parts ∙ size1;
      }

  both_case :
      (d : Side) (c : Colour) (t : Rb K) (up : Way) (p : ℕ) (near : Tree) (w : ℕ) (far x : Tree)
      → IsAt key label t (step d c up p (fork_at d black near w far)) x
      → IsBlack near
      → IsBlack far
      → Goes d c t up p near w far x (rest_of_round d t p)
  both_case d c t up p near w far x at bn bf =
      let link : Links d c t p near w far x = links d c black t up p near w far x at in
      record {
        out = set_color t w red;
        is =
            rest-both d t p w (root_of near) (root_of far) link.sibling link.near_child
              link.far_child (black_at-black key label t w near link.near_stores bn)
              (black_at-black key label t w far link.far_stores bf);
        at = sibling_reddened key label d c t up p near w far x at;
        near_black = bn;
        far_black = bf;
        size = refl;
      }

  near_any :
      (d : Side) (c : Colour) (t : Rb K) (h : ℕ) (up : Way) (p : ℕ) (near : Tree) (w : ℕ)
      (far x : Tree)
      → IsAt key label t (step d c up p (fork_at d black near w far)) x
      → IsBlack x
      → Balanced h x
      → IsBlack far
      → BalancedWay (suc h) (step d c up p (fork_at d black near w far))
      → Goes d c t up p near w far x (rest_of_round d t p)
        ⊎ Ends t (plug (step d c up p (fork_at d black near w far)) x) x (rest_of_round d t p)
  near_any d c t h up p tip w far x at bx hx bf hp = inl (both_case d c t up p tip w far x at tt bf)
  near_any d c t h up p (fork black l n r) w far x at bx hx bf hp =
      inl (both_case d c t up p (fork black l n r) w far x at tt bf)
  near_any lft c t h up p (fork red l n r) w far x at bx hx bf hp =
      let link : Links lft c t p (fork red l n r) w far x =
        links lft c black t up p (fork red l n r) w far x at in
      inr (
        near_case lft c t h up p l n r w far x at bx hx
          (black_at-red key label t w l n r link.near_stores) bf hp)
  near_any rgt c t h up p (fork red l n r) w far x at bx hx bf hp =
      let link : Links rgt c t p (fork red l n r) w far x =
        links rgt c black t up p (fork red l n r) w far x at in
      inr (
        near_case rgt c t h up p r n l w far x at bx hx
          (black_at-red key label t w l n r link.near_stores) bf hp)

  -- All cases of a round from the black sibling `w` on.
  pub black_round :
      (d : Side) (c : Colour) (t : Rb K) (h : ℕ) (up : Way) (p : ℕ) (near : Tree) (w : ℕ)
      (far x : Tree)
      → IsAt key label t (step d c up p (fork_at d black near w far)) x
      → IsBlack x
      → Balanced h x
      → BalancedWay (suc h) (step d c up p (fork_at d black near w far))
      → Goes d c t up p near w far x (rest_of_round d t p)
        ⊎ Ends t (plug (step d c up p (fork_at d black near w far)) x) x (rest_of_round d t p)
  black_round d c t h up p near w tip x at bx hx hp =
      near_any d c t h up p near w tip x at bx hx tt hp
  black_round d c t h up p near w (fork black l f r) x at bx hx hp =
      near_any d c t h up p near w (fork black l f r) x at bx hx tt hp
  black_round d c t h up p near w (fork red l f r) x at bx hx hp =
      inr (far_case d c t h up p near w l f r x at bx hx hp)

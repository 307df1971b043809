-- ===== src/RbTree/Insert/Moves.antt =====
-- What the writes of a round of rbtree_fix_insert (src/rbtree.h) make of the tree around a node.
use shmmalloc.Base.{ℕ, ◌≡◌, ◌≢◌, refl, sym, ap, ◌∙◌, true, false, ne→==}
use shmmalloc.RbTree.{Colour, red, black, Rb, set_color, red_at, is_red}
use shmmalloc.RbTree.Side.{Side, lft, rgt, opposite, child, rotate}
use shmmalloc.RbTree.Ghost.{Tree, tip, fork, Way, step, root_of, fork_at, Stores, Around}
use shmmalloc.RbTree.Balance.{IsBlack}
use shmmalloc.RbTree.Turn.{IsAt, rotate-IsAt, root-fork_at}
use shmmalloc.RbTree.Turn.Cells.{child-near, child-far, s-cell, p-cell, color-cell}
use shmmalloc.RbTree.Zipper.{rise, descend, recolour, turn_about, turn_back, near-far}
use shmmalloc.RbTree.Insert.Round.{IsFamily}

module _ {K : Type 0} (key : ℕ → K) (label : ℕ → ℕ) where
  pub root-parent :
      (t : Rb K) (p : ℕ) (tree : Tree)
      → Stores key t p tree
      → root_of tree ≢ 0
      → (t.nodes (root_of tree)).p ≡ p
  root-parent t p tip h nz = absurd (nz refl)
  root-parent t p (fork c l x r) (nx, cx, hl, hr) nz = ap (λ n. n.p) cx

  pub root_self :
      (t : Rb K) (p : ℕ) (tree : Tree)
      → Stores key t p tree
      → root_of tree ≢ 0
      → (t.nodes (root_of tree)).s ≡ root_of tree
  root_self t p tip h nz = absurd (nz refl)
  root_self t p (fork c l x r) (nx, cx, hl, hr) nz = ap (λ n. n.s) cx

  red_at-node :
      (t : Rb K) (x : ℕ) (c : Colour) → x ≢ 0 → (t.nodes x).color ≡ c → red_at t x ≡ is_red c
  red_at-node t x c nz e = rw (ne→== x 0 nz, e) refl

  pub black-root :
      (t : Rb K) (p : ℕ) (tree : Tree)
      → Stores key t p tree
      → IsBlack tree
      → red_at t (root_of tree) ≡ false
  black-root t p tip h b = refl
  black-root t p (fork red l x r) h b = absurd b
  black-root t p (fork black l x r) (nx, cx, hl, hr) b =
      red_at-node t x black nx (ap (λ n. n.color) cx)

  pub red-root :
      (t : Rb K) (p : ℕ) (l : Tree) (x : ℕ) (r : Tree)
      → Stores key t p (fork red l x r)
      → red_at t x ≡ true
  red-root t p l x r (nx, cx, hl, hr) = red_at-node t x red nx (ap (λ n. n.color) cx)

  pub red_at-parent :
      (d : Side) (c : Colour) (t : Rb K) (up : Way) (x : ℕ) (other : Tree) (gap : ℕ)
      → Around key t (step d c up x other) gap
      → red_at t x ≡ is_red c
  red_at-parent d c t up x other gap (nx, cx, ho, hu) =
      red_at-node t x c nx (ap (λ n. n.color) cx ∙ color-cell key d _ _ _ _ _)

  pub family :
      (d d2 : Side) (t : Rb K) (up : Way) (pp : ℕ) (uncle : Tree) (p : ℕ) (other tree : Tree)
      → IsAt key label t (step d red (step d2 black up pp uncle) p other) tree
      → IsFamily d2 t p pp (root_of uncle)
  family d d2 t up pp uncle p other tree at =
      let (np, cp, so, (npp, cpp, su, hu)) = at.around in
      let above = fork_at d red tree p other in
      let pe : root_of above ≡ p = root-fork_at d red tree p other in
      let whole =
        rise key label d2 black t up pp above uncle
          (rise key label d red t (step d2 black up pp uncle) p tree other at) in
      record {
        parent = ap (λ n. n.p) cp ∙ p-cell key d _ _ _ _ _;
        self = ap (λ n. n.s) cp ∙ s-cell key d _ _ _ _ _;
        near = ap (child d2) cpp ∙ child-near key d2 _ _ _ _ _;
        far = ap (child (opposite d2)) cpp ∙ child-far key d2 _ _ _ _ _;
        apart = λ e.
            near-far key label d2 t up black above pp uncle whole (λ z. np (sym pe ∙ z))
              (e ∙ sym pe);
      }

  pub recoloured :
      (d d2 : Side) (t : Rb K) (up : Way) (pp : ℕ) (ul : Tree) (u : ℕ) (ur : Tree) (p : ℕ)
      (other tree : Tree)
      → IsAt key label t (step d red (step d2 black up pp (fork red ul u ur)) p other) tree
      → IsAt key label
          (set_color (set_color (set_color t u black) p black) pp red)
          up
          (fork_at d2 red (fork_at d black tree p other) pp (fork black ul u ur))
  recoloured d d2 t up pp ul u ur p other tree at =
      let uncle = fork red ul u ur in
      let uncle' = fork black ul u ur in
      let above = fork_at d red tree p other in
      let above' = fork_at d black tree p other in
      let t1 = set_color t u black in
      let t2 = set_color t1 p black in
      let at1 =
        rise key label d2 black t up pp above uncle
          (rise key label d red t (step d2 black up pp uncle) p tree other at) in
      let at2 =
        descend key label (opposite d2) black t up pp uncle above
          (turn_about key label d2 t up black above pp uncle at1) in
      let at3 =
        recolour key label lft t (step (opposite d2) black up pp above) red black ul u ur at2 in
      let at4 =
        turn_back key label d2 t1 up black uncle' pp above
          (rise key label (opposite d2) black t1 up pp uncle' above at3) in
      let at5 =
        recolour key label d t1 (step d2 black up pp uncle') red black tree p other
          (descend key label d2 black t1 up pp above uncle' at4) in
      recolour key label d2 t2 up black red above' pp uncle'
        (rise key label d2 black t2 up pp above' uncle' at5)

  -- Two forks of the side `d` by the other side, and back.
  pub lean :
      (d : Side) (t : Rb K) (up : Way) (c1 c2 : Colour) (a : Tree) (x : ℕ) (b : Tree) (y : ℕ)
      (e : Tree)
      → IsAt key label t up (fork_at d c1 (fork_at d c2 a x b) y e)
      → IsAt key label t up (fork_at (opposite d) c1 e y (fork_at (opposite d) c2 b x a))
  lean lft t up c1 c2 a x b y e at = at
  lean rgt t up c1 c2 a x b y e at = at

  pub lean_back :
      (d : Side) (t : Rb K) (up : Way) (c1 c2 : Colour) (a : Tree) (x : ℕ) (b : Tree) (y : ℕ)
      (e : Tree)
      → IsAt key label t up (fork_at (opposite d) c2 (fork_at (opposite d) c1 e y b) x a)
      → IsAt key label t up (fork_at d c2 a x (fork_at d c1 b y e))
  lean_back lft t up c1 c2 a x b y e at = at
  lean_back rgt t up c1 c2 a x b y e at = at

  pub outer_turned :
      (d : Side) (t : Rb K) (up : Way) (pp : ℕ) (uncle : Tree) (p : ℕ) (other tree : Tree)
      → IsAt key label t (step d red (step d black up pp uncle) p other) tree
      → IsAt key label
          (rotate (opposite d) (set_color (set_color t p black) pp red) pp)
          up
          (fork_at d black tree p (fork_at d red other pp uncle))
        × ((rotate (opposite d) (set_color (set_color t p black) pp red) pp).size ≡ t.size)
  outer_turned d t up pp uncle p other tree at =
      let t1 = set_color t p black in
      let t2 = set_color t1 pp red in
      let above' = fork_at d black tree p other in
      let at1 =
        recolour key label d t (step d black up pp uncle) red black tree p other
          (rise key label d red t (step d black up pp uncle) p tree other at) in
      let at2 =
        recolour key label d t1 up black red above' pp uncle
          (rise key label d black t1 up pp above' uncle at1) in
      let (at3, size) =
        rotate-IsAt key label (opposite d) t2 up red black uncle pp other p tree
          (lean d t2 up red black tree p other pp uncle at2) in
      (lean_back d (rotate (opposite d) t2 pp) up red black tree p other pp uncle at3, size)

  pub inner_turned :
      (d : Side) (t : Rb K) (above : Way) (p : ℕ) (other near : Tree) (n : ℕ) (far : Tree)
      → IsAt key label t (step (opposite d) red above p other) (fork_at d red near n far)
      → IsAt key label (rotate d t p) (step d red above n far) (fork_at d red other p near)
        × ((rotate d t p).size ≡ t.size)
  inner_turned d t above p other near n far at =
      let tree = fork_at d red near n far in
      let (at1, size) = rotate-IsAt key label d t above red red other p near n far (
        turn_back key label d t above red tree p other
          (rise key label (opposite d) red t above p tree other at)) in
      (descend key label d red (rotate d t p) above n (fork_at d red other p near) far at1, size)

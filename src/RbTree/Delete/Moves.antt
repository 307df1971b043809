-- ===== src/RbTree/Delete/Moves.antt =====
-- What the writes of a round of rbtree_fix_delete (src/rbtree.h) make of the tree around a node.
use shmmalloc.Base.{ℕ, ◌≡◌, ◌≢◌, refl, ap, ne→==, not, true, false}
use shmmalloc.RbTree.{Colour, red, black, Rb, set_color, is_red}
use shmmalloc.RbTree.Side.{Side, lft, opposite, rotate}
use shmmalloc.RbTree.Ghost.{Tree, tip, fork, Way, step, root_of, fork_at, Stores}
use shmmalloc.RbTree.Ghost.Frame.{AllWay-map, Around-frame}
use shmmalloc.RbTree.Update.{black_at}
use shmmalloc.RbTree.Balance.{IsBlack}
use shmmalloc.RbTree.Turn.{IsAt, rotate-IsAt}
use shmmalloc.RbTree.Turn.Free.{nonzero_path}
use shmmalloc.RbTree.Zipper.{rise, descend, recolour, turn_about, turn_back}
use shmmalloc.RbTree.Insert.Moves.{lean, lean_back}

module _ {K : Type 0} (key : ℕ → K) (label : ℕ → ℕ) where
  -- From a node to its sibling, and back.
  to_sibling :
      (d : Side) (c : Colour) (t : Rb K) (up : Way) (p : ℕ) (w x : Tree)
      → IsAt key label t (step d c up p w) x
      → IsAt key label t (step (opposite d) c up p x) w
  to_sibling d c t up p w x at =
      descend key label (opposite d) c t up p w x
        (turn_about key label d t up c x p w (rise key label d c t up p x w at))

  from_sibling :
      (d : Side) (c : Colour) (t : Rb K) (up : Way) (p : ℕ) (w x : Tree)
      → IsAt key label t (step (opposite d) c up p x) w
      → IsAt key label t (step d c up p w) x
  from_sibling d c t up p w x at =
      descend key label d c t up p x w
        (turn_back key label d t up c w p x (rise key label (opposite d) c t up p w x at))

  recolour_sibling :
      (d e : Side) (c c1 c2 : Colour) (t : Rb K) (up : Way) (p : ℕ) (a : Tree) (w : ℕ) (b x : Tree)
      → IsAt key label t (step d c up p (fork_at e c1 a w b)) x
      → IsAt key label (set_color t w c2) (step d c up p (fork_at e c2 a w b)) x
  recolour_sibling d e c c1 c2 t up p a w b x at =
      from_sibling d c (set_color t w c2) up p (fork_at e c2 a w b) x (
        recolour key label e t (step (opposite d) c up p x) c1 c2 a w b
          (to_sibling d c t up p (fork_at e c1 a w b) x at))

  recolour_parent :
      (d : Side) (c c2 : Colour) (t : Rb K) (up : Way) (p : ℕ) (w x : Tree)
      → IsAt key label t (step d c up p w) x
      → IsAt key label (set_color t p c2) (step d c2 up p w) x
  recolour_parent d c c2 t up p w x at =
      descend key label d c2 (set_color t p c2) up p x w
        (recolour key label d t up c c2 x p w (rise key label d c t up p x w at))

  turn_parent :
      (d : Side) (c1 c2 : Colour) (t : Rb K) (up : Way) (p : ℕ) (near : Tree) (w : ℕ) (far x : Tree)
      → IsAt key label t (step d c1 up p (fork_at d c2 near w far)) x
      → IsAt key label (rotate d t p) (step d c1 (step d c2 up w far) p near) x
        × ((rotate d t p).size ≡ t.size)
  turn_parent d c1 c2 t up p near w far x at =
      let (at1, size) =
        rotate-IsAt key label d t up c1 c2 x p near w far
          (rise key label d c1 t up p x (fork_at d c2 near w far) at) in
      (
        descend key label d c1 (rotate d t p) (step d c2 up w far) p x near
            (descend key label d c2 (rotate d t p) up w (fork_at d c1 x p near) far at1),
        size,
      )

  -- The red sibling goes above the parent.
  pub red_moved :
      (d : Side) (c : Colour) (t : Rb K) (up : Way) (p : ℕ) (near : Tree) (w : ℕ) (far x : Tree)
      → IsAt key label t (step d c up p (fork_at d red near w far)) x
      → IsAt key label
          (rotate d (set_color (set_color t w black) p red) p)
          (step d red (step d black up w far) p near)
          x
        × ((rotate d (set_color (set_color t w black) p red) p).size ≡ t.size)
  red_moved d c t up p near w far x at =
      let t1 = set_color t w black in
      turn_parent d red black (set_color t1 p red) up p near w far x (
        recolour_parent d c red t1 up p (fork_at d black near w far) x
          (recolour_sibling d d c red black t up p near w far x at))

  pub sibling_reddened :
      (d : Side) (c : Colour) (t : Rb K) (up : Way) (p : ℕ) (near : Tree) (w : ℕ) (far x : Tree)
      → IsAt key label t (step d c up p (fork_at d black near w far)) x
      → IsAt key label (set_color t w red) up (fork_at d c x p (fork_at d red near w far))
  sibling_reddened d c t up p near w far x at =
      rise key label d c (set_color t w red) up p x (fork_at d red near w far)
        (recolour_sibling d d c black red t up p near w far x at)

  -- The far child `f` of the sibling is red: the sibling takes the place of the parent.
  pub far_moved :
      (d e : Side) (c : Colour) (t : Rb K) (up : Way) (p : ℕ) (near : Tree) (w : ℕ) (fa : Tree)
      (f : ℕ) (fb x : Tree)
      → IsAt key label t (step d c up p (fork_at d black near w (fork_at e red fa f fb))) x
      → IsAt key label
          (rotate d (set_color (set_color (set_color t w c) p black) f black) p)
          (step d black (step d c up w (fork_at e black fa f fb)) p near)
          x
        × ((rotate d (set_color (set_color (set_color t w c) p black) f black) p).size ≡ t.size)
  far_moved d e c t up p near w fa f fb x at =
      let far = fork_at e red fa f fb in
      let far' = fork_at e black fa f fb in
      let t1 = set_color t w c in
      let t2 = set_color t1 p black in
      let t3 = set_color t2 f black in
      let at2 =
        recolour_parent d c black t1 up p (fork_at d c near w far) x
          (recolour_sibling d d c black c t up p near w far x at) in
      let way = step (opposite d) black up p x in
      let at3 = recolour key label e t2 (step (opposite d) c way w near) red black fa f fb (
        descend key label (opposite d) c t2 way w far near (
          turn_about key label d t2 way c near w far
            (to_sibling d black t2 up p (fork_at d c near w far) x at2))) in
      turn_parent d black c t3 up p near w far' x (
        from_sibling d black t3 up p (fork_at d c near w far') x (
          turn_back key label d t3 way c far' w near
            (rise key label (opposite d) c t3 way w far' near at3)))

  -- The near child `n` of the sibling is red: it goes above the sibling.
  pub near_moved :
      (d : Side) (c : Colour) (t : Rb K) (up : Way) (p : ℕ) (na : Tree) (n : ℕ) (nb : Tree) (w : ℕ)
      (far x : Tree)
      → IsAt key label t (step d c up p (fork_at d black (fork_at d red na n nb) w far)) x
      → IsAt key label
          (rotate (opposite d) (set_color (set_color t n black) w red) w)
          (step d c up p (fork_at d black na n (fork_at d red nb w far)))
          x
        × ((rotate (opposite d) (set_color (set_color t n black) w red) w).size ≡ t.size)
  near_moved d c t up p na n nb w far x at =
      let t1 = set_color t n black in
      let t2 = set_color t1 w red in
      let way = step (opposite d) c up p x in
      let near = fork_at d red na n nb in
      let near' = fork_at d black na n nb in
      let at1 = recolour key label d t (step d black way w far) red black na n nb (
        descend key label d black t way w near far
          (to_sibling d c t up p (fork_at d black near w far) x at)) in
      let at2 =
        recolour key label d t1 way black red near' w far
          (rise key label d black t1 way w near' far at1) in
      let (at3, size) =
        rotate-IsAt key label (opposite d) t2 way red black far w nb n na
          (lean key label d t2 way red black na n nb w far at2) in
      (
        from_sibling d c (rotate (opposite d) t2 w) up p
            (fork_at d black na n (fork_at d red nb w far)) x
            (lean_back key label d (rotate (opposite d) t2 w) way red black na n nb w far at3),
        size,
      )

  put_away : (t : Rb K) (n : ℕ) (c : Colour) → 0 ≢ n → (set_color t 0 c).nodes n ≡ t.nodes n
  put_away t n c h = rw (ne→== 0 n h) refl

  -- A black root, or the missing one, is made black.
  pub blackened :
      (t : Rb K) (path : Way) (tree : Tree)
      → IsBlack tree
      → IsAt key label t path tree
      → IsAt key label (set_color t (root_of tree) black) path tree
  blackened t path tip b at = record {
    lo = at.lo;
    hi = at.hi;
    stores = tt;
    around =
        Around-frame key t (set_color t 0 black) path 0
          (AllWay-map (λ n. 0 ≢ n) (λ n. (set_color t 0 black).nodes n ≡ t.nodes n) path
            (λ n h. put_away t n black h) (nonzero_path key t path 0 at.around))
          refl at.around;
    within = at.within;
    outside = at.outside;
  }
  blackened t path (fork red l x r) b at = absurd b
  blackened t path (fork black l x r) b at = recolour key label lft t path black black l x r at

  black_at-node :
      (t : Rb K) (x : ℕ) (c : Colour)
      → x ≢ 0
      → (t.nodes x).color ≡ c
      → black_at t x ≡ not (is_red c)
  black_at-node t x c nz e = rw (ne→== x 0 nz, e) refl

  pub black_at-black :
      (t : Rb K) (p : ℕ) (tree : Tree)
      → Stores key t p tree
      → IsBlack tree
      → black_at t (root_of tree) ≡ true
  black_at-black t p tip h b = refl
  black_at-black t p (fork red l x r) h b = absurd b
  black_at-black t p (fork black l x r) (nx, cx, hl, hr) b =
      black_at-node t x black nx (ap (λ n. n.color) cx)

  pub black_at-red :
      (t : Rb K) (p : ℕ) (l : Tree) (x : ℕ) (r : Tree)
      → Stores key t p (fork red l x r)
      → black_at t x ≡ false
  black_at-red t p l x r (nx, cx, hl, hr) = black_at-node t x red nx (ap (λ n. n.color) cx)

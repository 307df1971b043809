-- ===== src/RbTree/Zipper.antt =====
-- Moves in a tree that the memory of src/rbtree.h holds, up to a parent and down to a child, and
-- new colours.
use shmmalloc.Base.{inl, inr, ℕ, suc, ◌≤◌, ◌≡◌, ◌≢◌, refl, sym, ap, ◌∙◌, arith, subst, ne→==, eq→==}
use shmmalloc.RbTree.{Colour, Node, Rb, set_color, put}
use shmmalloc.RbTree.Side.{Side, lft, rgt, opposite}
use shmmalloc.RbTree.Ghost.{
  Tree, tip, fork, Way, top, step, root_of, parent_of, fork_at, plug, All, Around, Within, Outside,
}
use shmmalloc.RbTree.Ghost.Frame.{
  Within-le, All-Within, AllWay-Outside, All-map, AllWay-map, Stores-frame, Around-frame,
  Stores-fork_at, fork_at-Stores,
}
use shmmalloc.RbTree.Turn.Free.{root-label}
use shmmalloc.RbTree.Turn.{IsAt, root-fork_at}

pub opposite-fork_at :
    (d : Side) (c : Colour) (a : Tree) (x : ℕ) (b : Tree)
    → fork_at (opposite d) c a x b ≡ fork_at d c b x a
opposite-fork_at lft c a x b = refl
opposite-fork_at rgt c a x b = refl

pub Within-wider :
    (label : ℕ → ℕ) (lo hi lo2 hi2 : ℕ) (tree : Tree)
    → lo2 ≤ lo
    → hi ≤ hi2
    → Within label lo hi tree
    → Within label lo2 hi2 tree
Within-wider label lo hi lo2 hi2 tip a b h = omega (arith, a, b, h)
Within-wider label lo hi lo2 hi2 (fork c l x r) a b (hl, hr) = (
  Within-wider label lo (label x) lo2 (label x) l a (omega arith) hl,
  Within-wider label (suc (label x)) hi (suc (label x)) hi2 r (omega arith) b hr,
)

Outside-rise :
    (d : Side) (c : Colour) (label : ℕ → ℕ) (lo hi : ℕ) (up : Way) (x : ℕ) (tree other : Tree)
    → Within label lo hi tree
    → Outside label lo hi (step d c up x other)
    → (lo2 : ℕ) × (hi2 : ℕ) × Within label lo2 hi2 (fork_at d c tree x other)
      × Outside label lo2 hi2 up
Outside-rise lft c label lo hi up x tree other h (end, le, hw, ho) =
    (lo, end, (Within-wider label lo hi lo (label x) tree (omega arith) le h, hw), ho)
Outside-rise rgt c label lo hi up x tree other h (start, lt, hw, ho) =
    (start, hi, (hw, Within-wider label lo hi (suc (label x)) hi tree lt (omega arith) h), ho)

Outside-descend :
    (d : Side) (c : Colour) (label : ℕ → ℕ) (lo hi : ℕ) (up : Way) (x : ℕ) (tree other : Tree)
    → Within label lo hi (fork_at d c tree x other)
    → Outside label lo hi up
    → (lo2 : ℕ) × (hi2 : ℕ) × Within label lo2 hi2 tree
      × Outside label lo2 hi2 (step d c up x other)
Outside-descend lft c label lo hi up x tree other (ht, hw) ho =
    (lo, label x, ht, (hi, omega arith, hw, ho))
Outside-descend rgt c label lo hi up x tree other (hw, ht) ho =
    (suc (label x), hi, ht, (lo, omega arith, hw, ho))

abbrev pub with_color : {K : Type 0} → Colour → Node K → Node K
with_color c n = record n { color = c }

module _ {K : Type 0} (key : ℕ → K) (label : ℕ → ℕ) where
  pub rise :
      (d : Side) (c : Colour) (t : Rb K) (up : Way) (x : ℕ) (tree other : Tree)
      → IsAt key label t (step d c up x other) tree
      → IsAt key label t up (fork_at d c tree x other)
  rise d c t up x tree other at =
      let (nx, cx, so, hu) = at.around in
      let (lo2, hi2, hw, ho) =
        Outside-rise d c label at.lo at.hi up x tree other at.within at.outside in
      record {
        lo = lo2;
        hi = hi2;
        stores = fork_at-Stores key d t (parent_of up) c tree x other nx cx at.stores so;
        around = subst (λ g. Around key t up g) (sym (root-fork_at d c tree x other)) hu;
        within = hw;
        outside = ho;
      }

  pub descend :
      (d : Side) (c : Colour) (t : Rb K) (up : Way) (x : ℕ) (tree other : Tree)
      → IsAt key label t up (fork_at d c tree x other)
      → IsAt key label t (step d c up x other) tree
  descend d c t up x tree other at =
      let (nx, cx, st, so) = Stores-fork_at key d t (parent_of up) c tree x other at.stores in
      let (lo2, hi2, hw, ho) =
        Outside-descend d c label at.lo at.hi up x tree other at.within at.outside in
      record {
        lo = lo2;
        hi = hi2;
        stores = st;
        around =
            (nx, cx, so, subst (λ g. Around key t up g) (root-fork_at d c tree x other) at.around);
        within = hw;
        outside = ho;
      }

  put_away : (t : Rb K) (w r : ℕ) (n : Node K) → w ≢ r → (put t w n).nodes r ≡ t.nodes r
  put_away t w r n h = rw (ne→== w r h) refl

  recolour_fork :
      (t : Rb K) (path : Way) (c c2 : Colour) (l : Tree) (x : ℕ) (r : Tree)
      → IsAt key label t path (fork c l x r)
      → IsAt key label (set_color t x c2) path (fork c2 l x r)
  recolour_fork t path c c2 l x r at =
      let (nx, cx, sl, sr) = at.stores in
      let (wl, wr) = at.within in
      let low = Within-le label at.lo (label x) l wl in
      let high = Within-le label (suc (label x)) at.hi r wr in
      let out = set_color t x c2 in
      let keep : (tree : Tree) → All (λ n. x ≢ n) tree → All (λ n. out.nodes n ≡ t.nodes n) tree =
        λ tree h.
          All-map (λ n. x ≢ n) (λ n. out.nodes n ≡ t.nodes n) tree (λ n e. put_away t x n _ e) h in
      record {
        lo = at.lo;
        hi = at.hi;
        stores = (
          nx,
          rw (eq→== x x refl) (ap (with_color c2) cx),
          Stores-frame key t out x l
              (keep l (All-Within label x at.lo (label x) l wl (inr (omega arith)))) sl,
          Stores-frame key t out x r
              (keep r (All-Within label x (suc (label x)) at.hi r wr (inl (omega arith)))) sr,
        );
        around =
            Around-frame key t out path x
              (AllWay-map (λ n. x ≢ n) (λ n. out.nodes n ≡ t.nodes n) path
                (λ n e. put_away t x n _ e)
                (AllWay-Outside label x at.lo at.hi path at.outside low (omega (arith, high))))
              refl at.around;
        within = at.within;
        outside = at.outside;
      }

  pub recolour :
      (d : Side) (t : Rb K) (path : Way) (c c2 : Colour) (near : Tree) (x : ℕ) (far : Tree)
      → IsAt key label t path (fork_at d c near x far)
      → IsAt key label (set_color t x c2) path (fork_at d c2 near x far)
  recolour lft t path c c2 near x far at = recolour_fork t path c c2 near x far at
  recolour rgt t path c c2 near x far at = recolour_fork t path c c2 far x near at

  -- The same with the children by the other side.
  pub turn_about :
      (d : Side) (t : Rb K) (path : Way) (c : Colour) (a : Tree) (x : ℕ) (b : Tree)
      → IsAt key label t path (fork_at d c a x b)
      → IsAt key label t path (fork_at (opposite d) c b x a)
  turn_about lft t path c a x b at = at
  turn_about rgt t path c a x b at = at

  pub turn_back :
      (d : Side) (t : Rb K) (path : Way) (c : Colour) (a : Tree) (x : ℕ) (b : Tree)
      → IsAt key label t path (fork_at (opposite d) c a x b)
      → IsAt key label t path (fork_at d c b x a)
  turn_back lft t path c a x b at = at
  turn_back rgt t path c a x b at = at

  pub rise_all :
      (t : Rb K) (path : Way) (tree : Tree)
      → IsAt key label t path tree
      → IsAt key label t top (plug path tree)
  rise_all t top tree at = at
  rise_all t (step d c up x other) tree at =
      rise_all t up (fork_at d c tree x other) (rise d c t up x tree other at)

  -- The roots of the two children are different.
  pub near-far :
      (d : Side) (t : Rb K) (path : Way) (c : Colour) (a : Tree) (x : ℕ) (b : Tree)
      → IsAt key label t path (fork_at d c a x b)
      → root_of a ≢ 0
      → root_of b ≢ root_of a
  near-far lft t path c a x b at nz e =
      let (wa, wb) = at.within in
      let equal : label (root_of b) ≡ label (root_of a) = ap label e in
      elim (root-label label at.lo (label x) a wa) [
        | inl none ↦ nz none
        | inr ina ↦ elim (root-label label (suc (label x)) at.hi b wb) [
          | inl none ↦ nz (sym e ∙ none)
          | inr inb ↦ omega (arith, equal, ina, inb)
        ]
      ]
  near-far rgt t path c a x b at nz e =
      let (wb, wa) = at.within in
      let equal : label (root_of b) ≡ label (root_of a) = ap label e in
      elim (root-label label (suc (label x)) at.hi a wa) [
        | inl none ↦ nz none
        | inr ina ↦ elim (root-label label at.lo (label x) b wb) [
          | inl none ↦ nz (sym e ∙ none)
          | inr inb ↦ omega (arith, equal, ina, inb)
        ]
      ]

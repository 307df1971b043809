-- ===== src/RbTree/Insert/Attach.antt =====
-- rbtree_insert of src/rbtree.h hangs the new node into a gap: the links, and the new labels.
use shmmalloc.Base.{
  ℕ, suc, ◌+◌, ◌*◌, ◌≤◌, ◌≡◌, ◌≢◌, refl, sym, ap, ◌∙◌, inl, inr, arith, ne→==, eq→==, ◌==◌,
  if◌then◌else◌,
}
use shmmalloc.RbTree.{Colour, red, Node, Rb, put, set_p}
use shmmalloc.RbTree.Side.{Side, lft, rgt, set_child, with_child}
use shmmalloc.RbTree.Rotate.Parts.{with_p}
use shmmalloc.RbTree.Ghost.{
  Tree, tip, fork, Way, top, step, All, AllWay, cell, cell_at, Within, Outside,
}
use shmmalloc.RbTree.Ghost.Frame.{
  Within-le, All-Within, AllWay-Outside, All-zip, AllWay-zip, Stores-frame, Around-frame,
}
use shmmalloc.RbTree.Turn.{IsAt}
use shmmalloc.RbTree.Turn.Cells.{s-cell}

-- Labels with one between any two, for the new node.
pub relabel : (ℕ → ℕ) → ℕ → ℕ → ℕ → ℕ
relabel label new lo n = if new == n then 2 * lo else 2 * label n + 1

relabel-new : (label : ℕ → ℕ) (new lo : ℕ) → relabel label new lo new ≡ 2 * lo
unfolding relabel
relabel-new label new lo = rw (eq→== new new refl) refl

relabel-old : (label : ℕ → ℕ) (new lo n : ℕ) → new ≢ n → relabel label new lo n ≡ 2 * label n + 1
unfolding relabel
relabel-old label new lo n h = rw (ne→== new n h) refl

Within-relabel :
    (label : ℕ → ℕ) (new gap lo hi : ℕ) (tree : Tree)
    → All (λ n. new ≢ n) tree
    → Within label lo hi tree
    → Within (relabel label new gap) (2 * lo) (2 * hi + 1) tree
Within-relabel label new gap lo hi tip away h = omega (arith, h)
Within-relabel label new gap lo hi (fork c l x r) (ax, al, ar) (hl, hr) =
    let next : suc (2 * label x + 1) ≡ 2 * suc (label x) = omega arith in
    rw (relabel-old label new gap x ax) (
      Within-relabel label new gap lo (label x) l al hl,
      rw next (Within-relabel label new gap (suc (label x)) hi r ar hr),
    )

Outside-relabel :
    (label : ℕ → ℕ) (new gap lo hi : ℕ) (path : Way)
    → AllWay (λ n. new ≢ n) path
    → Outside label lo hi path
    → Outside (relabel label new gap) (2 * lo) (2 * hi + 1) path
Outside-relabel label new gap lo hi top away h = tt
Outside-relabel label new gap lo hi (step lft c up x other) (ax, ao, au) (end, le, hw, ho) =
    let next : suc (2 * label x + 1) ≡ 2 * suc (label x) = omega arith in
    rw (relabel-old label new gap x ax) (
      2 * end + 1,
      omega (arith, le),
      rw next (Within-relabel label new gap (suc (label x)) end other ao hw),
      Outside-relabel label new gap lo end up au ho,
    )
Outside-relabel label new gap lo hi (step rgt c up x other) (ax, ao, au) (start, lt, hw, ho) =
    rw (relabel-old label new gap x ax) (
      2 * start,
      omega (arith, lt),
      Within-relabel label new gap start (label x) other ao hw,
      Outside-relabel label new gap start hi up au ho,
    )

module _ {K : Type 0} (key : ℕ → K) (label : ℕ → ℕ) where
  put_here : (t : Rb K) (w : ℕ) (n : Node K) → (put t w n).nodes w ≡ n
  put_here t w n = rw (eq→== w w refl) refl

  put_away : (t : Rb K) (w r : ℕ) (n : Node K) → w ≢ r → (put t w n).nodes r ≡ t.nodes r
  put_away t w r n h = rw (ne→== w r h) refl

  -- The nodes of the way up, but for the last one, are not the last one.
  pub last_away :
      (d : Side) (c : Colour) (lo hi : ℕ) (up : Way) (x : ℕ) (other : Tree)
      → lo ≤ hi
      → Outside label lo hi (step d c up x other)
      → All (λ n. x ≢ n) other × AllWay (λ n. x ≢ n) up
  last_away lft c lo hi up x other le2 (end, le, hw, ho) =
      let ri = Within-le label (suc (label x)) end other hw in
      (
        All-Within label x (suc (label x)) end other hw (inl (omega arith)),
        AllWay-Outside label x lo end up ho (omega (arith, le, le2)) (omega (arith, ri)),
      )
  last_away rgt c lo hi up x other le2 (start, lt, hw, ho) =
      let ri = Within-le label start (label x) other hw in
      (
        All-Within label x start (label x) other hw (inr (omega arith)),
        AllWay-Outside label x start hi up ho ri (omega (arith, lt, le2)),
      )

  near-cell :
      (d : Side) (p : ℕ) (c : Colour) (x near far new : ℕ)
      → with_child d new (cell_at key d p c x near far) ≡ cell_at key d p c x new far
  near-cell lft p c x near far new = refl
  near-cell rgt p c x near far new = refl

  s-set_child : (d : Side) (n : Node K) (new : ℕ) → (with_child d new n).s ≡ n.s
  s-set_child lft n new = refl
  s-set_child rgt n new = refl

  -- The new node is red and has no children.
  pub attach :
      (d : Side) (c : Colour) (t : Rb K) (up : Way) (x : ℕ) (other : Tree) (new : ℕ)
      → (at : IsAt key label t (step d c up x other) tip) → new ≢ 0
      → t.nodes new ≡ cell key 0 red new 0 0
      → AllWay (λ n. new ≢ n) (step d c up x other)
      → IsAt key
          (relabel label new at.lo)
          (set_p (set_child d t x new) new ((set_child d t x new).nodes x).s)
          (step d c up x other)
          (fork red tip new tip)
  attach d c t up x other new at nn cn (ax, ao, au) =
      let t1 = set_child d t x new in
      let out = set_p t1 new (t1.nodes x).s in
      let (nx, cx, so, hu) = at.around in
      let (xo, xu) = last_away d c at.lo at.hi up x other at.within at.outside in
      let s_x : (t1.nodes x).s ≡ x =
        ap (λ n. n.s) (put_here t x _)
        ∙ s-set_child d (t.nodes x) new
        ∙ ap (λ n. n.s) cx
        ∙ s-cell key d _ _ _ _ _ in
      let keeps : (n : ℕ) → new ≢ n → x ≢ n → out.nodes n ≡ t.nodes n =
        λ n a b. put_away t1 new n _ a ∙ put_away t x n _ b in
      record {
        lo = 2 * at.lo;
        hi = 2 * at.hi + 1;
        stores = (
          nn,
          put_here t1 new _
              ∙ ap (λ s. with_p s (t1.nodes new)) s_x
              ∙ ap (with_p x) (put_away t x new _ (λ e. ax (sym e)) ∙ cn),
          tt,
          tt,
        );
        around = (
          nx,
          put_away t1 new x _ ax
              ∙ put_here t x _
              ∙ ap (with_child d new) cx
              ∙ near-cell d _ c x 0 _ new,
          Stores-frame key t out x other
              (All-zip (λ n. new ≢ n) (λ n. x ≢ n) (λ n. out.nodes n ≡ t.nodes n) other keeps ao xo)
              so,
          Around-frame key t out up x
              (AllWay-zip (λ n. new ≢ n) (λ n. x ≢ n) (λ n. out.nodes n ≡ t.nodes n) up keeps au xu)
              refl hu,
        );
        within = rw (relabel-new label new at.lo) (omega arith, omega (arith, at.within));
        outside =
            Outside-relabel label new at.lo at.lo at.hi (step d c up x other) (ax, ao, au)
              at.outside;
      }

-- ===== src/RbTree/Turn/Distinct.antt =====
-- The nodes that a rotation of src/rbtree.h touches are different, by the labels of RbTree/Ghost.
use shmmalloc.Base.{ℕ, suc, ◌≤◌, ◌<◌, ◌≡◌, ◌≢◌, sym, ap, ◌∙◌, ◌⊎◌, inl, inr, arith}
use shmmalloc.RbTree.{Colour, Rb}
use shmmalloc.RbTree.Side.{Side, lft, rgt}
use shmmalloc.RbTree.Ghost.{
  Tree, Way, top, step, root_of, parent_of, fork_at, Stores, Around, Within, Outside,
}
use shmmalloc.RbTree.Ghost.Frame.{Within-le}
use shmmalloc.RbTree.Turn.Free.{
  Free, FreeWay, FreeBelow, Free-of, FreeBelow-of, FreeWay-of, root-label, parent-label,
}

-- The parts of the way up that a rotation leaves: all but the link of the parent.
abbrev pub FreeUp : ℕ → ℕ → ℕ → Way → Type 0
FreeUp x y z top = Unit
FreeUp x y z (step d c up q other) = Free x y z q other × FreeWay x y z q up

pub record Apart (x y z : ℕ) (path : Way) (a b e : Tree) : Type 0 where
  pub xy : x ≢ y
  pub zx : z ≢ x
  pub zy : z ≢ y
  pub qx : parent_of path ≢ x
  pub qy : parent_of path ≢ y
  pub zq : z ≢ 0 → z ≢ parent_of path
  pub free_a : Free x y z (parent_of path) a
  pub free_b : FreeBelow x y z (parent_of path) b
  pub free_e : Free x y z (parent_of path) e
  pub free_up : FreeUp x y z path

ne_by :
    (label : ℕ → ℕ) (w x : ℕ)
    → x ≢ 0
    → (w ≡ 0) ⊎ ((label w < label x) ⊎ (label x < label w))
    → w ≢ x
ne_by label w x nz (inl e) same = nz (sym same ∙ e)
ne_by label w x nz (inr h) same =
    let equal : label w ≡ label x = ap label same in omega (arith, h, equal)

ne_both :
    (label : ℕ → ℕ) (z q lo hi : ℕ)
    → (z ≡ 0) ⊎ ((lo ≤ label z) × (label z < hi))
    → (q ≡ 0) ⊎ ((label q < lo) ⊎ (hi ≤ label q))
    → z ≢ 0
    → z ≢ q
ne_both label z q lo hi cz (inl e) nz same = nz (same ∙ e)
ne_both label z q lo hi (inl e) (inr c) nz same = nz e
ne_both label z q lo hi (inr (a, b)) (inr c) nz same =
    let equal : label z ≡ label q = ap label same in omega (arith, a, b, c, equal)

module _ {K : Type 0} (key : ℕ → K) where
  FreeUp-of :
      (t : Rb K) (label : ℕ → ℕ) (x y z lo hi gap : ℕ) (path : Way)
      → Around key t path gap
      → Outside label lo hi path
      → lo ≤ hi
      → (lo ≤ label x) × (label x < hi)
      → (lo ≤ label y) × (label y < hi)
      → (z ≡ 0) ⊎ ((lo ≤ label z) × (label z < hi))
      → FreeUp x y z path
  FreeUp-of t label x y z lo hi gap top h ho le cx cy cz = tt
  FreeUp-of t label x y z lo hi gap (step lft c up q other) (nz, at, hs, hu) (end, le, hw, ho) le2
        cx cy cz =
      let ri = Within-le label (suc (label q)) end other hw in
      (
        Free-of key t label x y z q q (suc (label q)) end other hs hw
            (inr (inl (omega (arith, le, cx)))) (inr (inl (omega (arith, le, cy))))
            (omega (arith, le, cz)) (inr (inl (omega arith))),
        FreeWay-of key t label x y z q lo end q up hu ho (inr (omega (arith, le, cx, ri)))
            (inr (omega (arith, le, cy, ri))) (omega (arith, le, cz, ri))
            (inr (omega (arith, le, le2, ri))),
      )
  FreeUp-of t label x y z lo hi gap (step rgt c up q other) (nz, at, hs, hu) (start, lt, hw, ho) le2
        cx cy cz =
      let ri = Within-le label start (label q) other hw in
      (
        Free-of key t label x y z q q start (label q) other hs hw
            (inr (inr (omega (arith, lt, cx)))) (inr (inr (omega (arith, lt, cy))))
            (omega (arith, lt, cz)) (inr (inr (omega arith))),
        FreeWay-of key t label x y z q start hi q up hu ho (inr (omega (arith, lt, cx, ri)))
            (inr (omega (arith, lt, cy, ri))) (omega (arith, lt, cz, ri))
            (inr (omega (arith, lt, le2, ri))),
      )

  pub Apart-of :
      (d : Side) (t : Rb K) (label : ℕ → ℕ) (path : Way) (c1 c2 : Colour) (a : Tree) (x : ℕ)
      (b : Tree) (y : ℕ) (e : Tree) (p r lo hi gap : ℕ)
      → Around key t path gap
      → x ≢ 0
      → y ≢ 0
      → Stores key t x a
      → Stores key t p b
      → Stores key t r e
      → Within label lo hi (fork_at d c1 a x (fork_at d c2 b y e))
      → Outside label lo hi path
      → Apart x y (root_of b) path a b e
  Apart-of lft t label path c1 c2 a x b y e p r lo hi gap hp nx ny sa sb se (wa, (wb, we)) ho =
      let z = root_of b in
      let q = parent_of path in
      let la = Within-le label lo (label x) a wa in
      let lb = Within-le label (suc (label x)) (label y) b wb in
      let le = Within-le label (suc (label y)) hi e we in
      let cz = root-label label (suc (label x)) (label y) b wb in
      let cq = parent-label label lo hi path ho in
      record {
        xy = ne_by label x y ny (inr (inl (omega (arith, lb))));
        zx = ne_by label z x nx (omega (arith, cz));
        zy = ne_by label z y ny (omega (arith, cz));
        qx = ne_by label q x nx (omega (arith, la, lb, le, cq));
        qy = ne_by label q y ny (omega (arith, la, lb, le, cq));
        zq = ne_both label z q (suc (label x)) (label y) cz (omega (arith, la, lb, le, cq));
        free_a =
            Free-of key t label x y z q x lo (label x) a sa wa (inr (inr (omega arith)))
              (inr (inr (omega (arith, lb)))) (omega (arith, cz)) (omega (arith, lb, le, cq));
        free_b =
            FreeBelow-of key t label x y q p (suc (label x)) (label y) b sb wb
              (inr (inl (omega arith))) (inr (inr (omega arith))) (omega (arith, la, le, cq));
        free_e =
            Free-of key t label x y z q r (suc (label y)) hi e se we (inr (inl (omega (arith, lb))))
              (inr (inl (omega arith))) (omega (arith, cz)) (omega (arith, la, lb, cq));
        free_up =
            FreeUp-of t label x y z lo hi gap path hp ho (omega (arith, la, lb, le))
              (omega (arith, la, lb, le)) (omega (arith, la, lb, le))
              (omega (arith, la, lb, le, cz));
      }
  Apart-of rgt t label path c1 c2 a x b y e p r lo hi gap hp nx ny sa sb se ((we, wb), wa) ho =
      let z = root_of b in
      let q = parent_of path in
      let le = Within-le label lo (label y) e we in
      let lb = Within-le label (suc (label y)) (label x) b wb in
      let la = Within-le label (suc (label x)) hi a wa in
      let cz = root-label label (suc (label y)) (label x) b wb in
      let cq = parent-label label lo hi path ho in
      record {
        xy = ne_by label x y ny (inr (inr (omega (arith, lb))));
        zx = ne_by label z x nx (omega (arith, cz));
        zy = ne_by label z y ny (omega (arith, cz));
        qx = ne_by label q x nx (omega (arith, la, lb, le, cq));
        qy = ne_by label q y ny (omega (arith, la, lb, le, cq));
        zq = ne_both label z q (suc (label y)) (label x) cz (omega (arith, la, lb, le, cq));
        free_a =
            Free-of key t label x y z q x (suc (label x)) hi a sa wa (inr (inl (omega arith)))
              (inr (inl (omega (arith, lb)))) (omega (arith, cz)) (omega (arith, lb, le, cq));
        free_b =
            FreeBelow-of key t label x y q p (suc (label y)) (label x) b sb wb
              (inr (inr (omega arith))) (inr (inl (omega arith))) (omega (arith, la, le, cq));
        free_e =
            Free-of key t label x y z q r lo (label y) e se we (inr (inr (omega (arith, lb))))
              (inr (inr (omega arith))) (omega (arith, cz)) (omega (arith, la, lb, cq));
        free_up =
            FreeUp-of t label x y z lo hi gap path hp ho (omega (arith, la, lb, le))
              (omega (arith, la, lb, le)) (omega (arith, la, lb, le))
              (omega (arith, la, lb, le, cz));
      }

-- ===== src/RbTree/Delete/Splice.antt =====
-- rbtree_delete of src/rbtree.h puts the only child of a node, or none, into the node's place.
use shmmalloc.Base.{
  ℕ, suc, ◌≤◌, ◌<◌, ◌≡◌, ◌≢◌, refl, sym, ap, ◌∙◌, ◌⊎◌, inl, inr, arith, false, ne→==, eq→==, ◌==◌,
  Bool-cases, subst,
}
use shmmalloc.RbTree.{Colour, Node, Rb, put, set_p, is_red}
use shmmalloc.RbTree.Side.{Side, lft, rgt}
use shmmalloc.RbTree.Rotate.Parts.{with_p, relink}
use shmmalloc.RbTree.Ghost.{
  Tree, tip, fork, Way, top, step, root_of, parent_of, fork_at, All, AllWay, Stores, Around, Within,
  Outside,
}
use shmmalloc.RbTree.Ghost.Frame.{
  Within-le, All-Within, AllWay-Outside, All-map, AllWay-map, Stores-frame, Around-frame,
  Stores-fork_at,
}
use shmmalloc.RbTree.Update.{replace_child}
use shmmalloc.RbTree.Turn.{IsAt, root-fork_at}
use shmmalloc.RbTree.Turn.Free.{nonzero_path, parent-label}
use shmmalloc.RbTree.Turn.Cells.{relink-cell}
use shmmalloc.RbTree.Zipper.{Within-wider}
use shmmalloc.RbTree.Insert.Attach.{last_away}
use shmmalloc.RbTree.Delete.Ends.{IsSeen, IsSeen-fork}

pub root_ne : (y : ℕ) (tree : Tree) → y ≢ 0 → All (λ n. y ≢ n) tree → root_of tree ≢ y
root_ne y tip nz h e = nz (sym e)
root_ne y (fork c l x r) nz (hx, hl, hr) e = hx (sym e)

module _ {K : Type 0} where
  pub put_here : (t : Rb K) (w : ℕ) (n : Node K) → (put t w n).nodes w ≡ n
  put_here t w n = rw (eq→== w w refl) refl

  pub put_away : (t : Rb K) (w r : ℕ) (n : Node K) → w ≢ r → (put t w n).nodes r ≡ t.nodes r
  put_away t w r n h = rw (ne→== w r h) refl

  -- `new` stands in the place of `old` under `q`, or as the root.
  pub record Replaced (t : Rb K) (q old new : ℕ) (out : Rb K) : Type 0 where
    pub at_q : q ≢ 0 → out.nodes q ≡ relink old new (t.nodes q)
    pub others : (n : ℕ) → (q ≡ 0) ⊎ (q ≢ n) → out.nodes n ≡ t.nodes n
    pub root : q ≡ 0 → out.root ≡ new
    pub root_kept : q ≢ 0 → out.root ≡ t.root
    pub size : out.size ≡ t.size

  pub replace_child-Replaced :
      (t : Rb K) (q old new : ℕ) → Replaced t q old new (replace_child t q old new)
  unfolding replace_child
  replace_child-Replaced t q old new = elim (Bool-cases (q == 0)) [
    | inl zero_q ↦
        let q0 : q ≡ 0 = ground (arith, zero_q) in
        rw zero_q (record {
          at_q = λ h. absurd (h q0);
          others = λ n h. refl;
          root = λ h. refl;
          root_kept = λ h. absurd (h q0);
          size = refl;
        })
    | inr some_q ↦
        let nz : q ≢ 0 = λ e. ground (arith, some_q, e) in
        elim (Bool-cases ((t.nodes q).left == old)) [
          | inl left ↦
              rw (some_q, left)
                (record {
                  at_q = λ h. put_here t q _ ∙ rw left refl;
                  others = λ n h. put_away t q n _ (λ e. elim h [ inl z ↦ nz z | inr ne ↦ ne e ]);
                  root = λ h. absurd (nz h);
                  root_kept = λ h. refl;
                  size = refl;
                })
          | inr right ↦
              rw (some_q, right)
                (record {
                  at_q = λ h. put_here t q _ ∙ rw right refl;
                  others = λ n h. put_away t q n _ (λ e. elim h [ inl z ↦ nz z | inr ne ↦ ne e ]);
                  root = λ h. absurd (nz h);
                  root_kept = λ h. refl;
                  size = refl;
                })
        ]
  ]

module _ {K : Type 0} (key : ℕ → K) (label : ℕ → ℕ) where
  -- The way up from the place of `old`, with `new` in it.
  pub Around-Replaced :
      (t out : Rb K) (path : Way) (old new lo hi : ℕ)
      → Replaced t (parent_of path) old new out
      → old ≢ 0
      → lo ≤ hi
      → AllWay (λ n. old ≢ n) path
      → Outside label lo hi path
      → Around key t path old
      → Around key out path new
  Around-Replaced t out top old new lo hi rep nold le away ho h = rep.root refl
  Around-Replaced t out (step d c up q other) old new lo hi rep nold le (oq, oo, ou) ho
        (nq, cq, so, hu) =
      let (qo, qu) = last_away key label d c lo hi up q other le ho in
      (
        nq,
        rep.at_q nq
            ∙ ap (relink old new) cq
            ∙ relink-cell key d _ c q old new (root_of other) (root_ne old other nold oo),
        Stores-frame key t out q other
            (All-map (λ n. q ≢ n) (λ n. out.nodes n ≡ t.nodes n) other (λ n e. rep.others n (inr e))
              qo)
            so,
        Around-frame key t out up q
            (AllWay-map (λ n. q ≢ n) (λ n. out.nodes n ≡ t.nodes n) up (λ n e. rep.others n (inr e))
              qu)
            (rep.root_kept nq) hu,
      )

  -- The tree gets another parent.
  pub reparent :
      (t : Rb K) (old q : ℕ) (lo hi : ℕ) (tree : Tree)
      → Stores key t old tree
      → Within label lo hi tree
      → Stores key (set_p t (root_of tree) q) q tree
  reparent t old q lo hi tip h w = tt
  reparent t old q lo hi (fork c l x r) (nx, cx, hl, hr) (wl, wr) =
      let out = set_p t x q in
      let keep : (n : ℕ) → x ≢ n → out.nodes n ≡ t.nodes n = λ n e. put_away t x n _ e in
      (
        nx,
        put_here t x _ ∙ ap (with_p q) cx,
        Stores-frame key t out x l
            (All-map (λ n. x ≢ n) (λ n. out.nodes n ≡ t.nodes n) l keep
              (All-Within label x lo (label x) l wl (inr (omega arith))))
            hl,
        Stores-frame key t out x r
            (All-map (λ n. x ≢ n) (λ n. out.nodes n ≡ t.nodes n) r keep
              (All-Within label x (suc (label x)) hi r wr (inl (omega arith))))
            hr,
      )

  -- The root of a tree in the gap, or 0, is not on the way up.
  pub gap_away :
      (t : Rb K) (path : Way) (gap lo hi : ℕ) (tree : Tree)
      → Around key t path gap
      → Outside label lo hi path
      → Within label lo hi tree
      → AllWay (λ n. root_of tree ≢ n) path
  gap_away t path gap lo hi tip h ho w = nonzero_path key t path gap h
  gap_away t path gap lo hi (fork c l x r) h ho (wl, wr) =
      AllWay-Outside label x lo hi path ho (Within-le label lo (label x) l wl)
        (omega (arith, Within-le label (suc (label x)) hi r wr))

  -- The only child `x` of `y`, or none, takes the place of `y`, which keeps its own fields.
  pub record Spliced (t : Rb K) (path : Way) (x : Tree) (y : ℕ) (out : Rb K) : Type 0 where
    pub at : IsAt key label out path x
    pub seen : IsSeen out (parent_of path) x
    pub node : out.nodes y ≡ t.nodes y
    pub size : out.size ≡ t.size

  IsSeen-after :
      (t out : Rb K) (q old : ℕ) (x : Tree)
      → (t.nodes 0).s ≡ 0
      → is_red (t.nodes 0).color ≡ false
      → Replaced (set_p t (root_of x) q) q old (root_of x) out
      → Stores key out q x
      → IsSeen out q x
  IsSeen-after t out q old tip s0 c0 rep h =
      let zero_q : (q ≡ 0) ⊎ (q ≢ 0) = elim (Bool-cases (q == 0)) [
        | inl z ↦ inl (ground (arith, z))
        | inr nz ↦ inr (λ e. ground (arith, nz, e))
      ] in
      let same : out.nodes 0 ≡ with_p q (t.nodes 0) = rep.others 0 zero_q ∙ put_here t 0 _ in
      record {
        p = ap (λ n. n.p) same;
        self = ap (λ n. n.s) same ∙ s0;
        color = ap (λ n. is_red n.color) same ∙ c0;
      }
  IsSeen-after t out q old (fork c l x r) s0 c0 rep h = IsSeen-fork key label lft c out q l x r h

  pub split-Within :
      (d : Side) (c : Colour) (lo hi : ℕ) (x : Tree) (y : ℕ)
      → Within label lo hi (fork_at d c x y tip)
      → Within label lo hi x × ((lo ≤ label y) × (label y < hi)) × All (λ n. y ≢ n) x
  split-Within lft c lo hi x y (wx, wt) = (
    Within-wider label lo (label y) lo hi x (omega arith) (omega (arith, wt)) wx,
    (Within-le label lo (label y) x wx, omega (arith, wt)),
    All-Within label y lo (label y) x wx (inr (omega arith)),
  )
  split-Within rgt c lo hi x y (wt, wx) = (
    Within-wider label (suc (label y)) hi lo hi x (omega (arith, wt)) (omega arith) wx,
    (wt, omega (arith, Within-le label (suc (label y)) hi x wx)),
    All-Within label y (suc (label y)) hi x wx (inl (omega arith)),
  )

  pub splice-Spliced :
      (d : Side) (c : Colour) (t : Rb K) (path : Way) (x : Tree) (y : ℕ)
      → IsAt key label t path (fork_at d c x y tip)
      → (t.nodes 0).s ≡ 0
      → is_red (t.nodes 0).color ≡ false
      → Spliced t path x y
          (replace_child (set_p t (root_of x) (parent_of path)) (parent_of path) y (root_of x))
  splice-Spliced d c t path x y at s0 c0 =
      let q = parent_of path in
      let t1 = set_p t (root_of x) q in
      let out = replace_child t1 q y (root_of x) in
      let rep : Replaced t1 q y (root_of x) out = replace_child-Replaced t1 q y (root_of x) in
      let (ny, cy, sx, st) = Stores-fork_at key d t q c x y tip at.stores in
      let (wx, (low, high), away_y) = split-Within d c at.lo at.hi x y at.within in
      let around_y : Around key t path y =
        subst (λ g. Around key t path g) (root-fork_at d c x y tip) at.around in
      let root_away : AllWay (λ n. root_of x ≢ n) path =
        gap_away t path y at.lo at.hi x around_y at.outside wx in
      let around1 : Around key t1 path y =
        Around-frame key t t1 path y
          (AllWay-map (λ n. root_of x ≢ n) (λ n. t1.nodes n ≡ t.nodes n) path
            (λ n e. put_away t (root_of x) n _ e) root_away)
          refl around_y in
      let parent_away : All (λ n. (q ≡ 0) ⊎ (q ≢ n)) x =
        elim (parent-label label at.lo at.hi path at.outside) [
          | inl z ↦ All-map (λ n. y ≢ n) (λ n. (q ≡ 0) ⊎ (q ≢ n)) x (λ n e. inl z) away_y
          | inr out_q ↦
              All-map (λ n. q ≢ n) (λ n. (q ≡ 0) ⊎ (q ≢ n)) x (λ n e. inr e)
                (All-Within label q at.lo at.hi x wx out_q)
        ] in
      let stores : Stores key out q x =
        Stores-frame key t1 out q x
          (All-map (λ n. (q ≡ 0) ⊎ (q ≢ n)) (λ n. out.nodes n ≡ t1.nodes n) x
            (λ n e. rep.others n e) parent_away)
          (reparent t y q at.lo at.hi x sx wx) in
      record {
        at = record {
          lo = at.lo;
          hi = at.hi;
          stores = stores;
          around =
              Around-Replaced t1 out path y (root_of x) at.lo at.hi rep ny
                (omega (arith, low, high))
                (AllWay-Outside label y at.lo at.hi path at.outside low high) at.outside around1;
          within = wx;
          outside = at.outside;
        };
        seen = IsSeen-after t out q y x s0 c0 rep stores;
        node =
            rep.others y (elim (parent-label label at.lo at.hi path at.outside) [
              | inl z ↦ inl z
              | inr out_q ↦ inr (λ e.
                  let same : label q ≡ label y = ap label e in
                  omega (arith, out_q, same, low, high))
            ])
            ∙ put_away t (root_of x) y _ (root_ne y x ny away_y);
        size = rep.size;
      }

-- ===== src/RbTree/Delete/Swap.antt =====
-- What rbtree_delete of src/rbtree.h makes of the tree where it puts `y` into the place of `n`.
pub mod Parts
pub mod Whole
use shmmalloc.Base.{
  ℕ, suc, ◌≤◌, ◌<◌, ◌≡◌, ◌≢◌, refl, sym, ap, ◌∙◌, ◌⊎◌, inl, inr, arith, ◌==◌, if◌then◌else◌, ne→==,
  eq→==, subst,
}
use shmmalloc.RbTree.{Colour, Rb}
use shmmalloc.RbTree.Side.{lft, rgt}
use shmmalloc.RbTree.Rotate.Parts.{with_p, relink}
use shmmalloc.RbTree.Ghost.{
  Tree, tip, fork, Way, top, step, root_of, parent_of, All, AllWay, cell, Stores, Around, Within,
  Outside,
}
use shmmalloc.RbTree.Ghost.Frame.{
  Within-le, All-Within, AllWay-Outside, All-map, All-zip, AllWay-zip, Stores-frame, Around-frame,
}
use shmmalloc.RbTree.Update.{delete_swap}
use shmmalloc.RbTree.Turn.{IsAt}
use shmmalloc.RbTree.Turn.Free.{Free, FreeBelow, FreeBelow-of, root-label, parent-label}
use shmmalloc.RbTree.Turn.Cells.{relink-cell}
use shmmalloc.RbTree.Zipper.{near-far, Within-wider}
use shmmalloc.RbTree.Insert.Attach.{last_away}
use shmmalloc.RbTree.Delete.Splice.{gap_away, root_ne}
use Whole.{IsPlace, Swapped, delete_swap-Swapped}

-- `y` gets the label of `n`.
pub renamed : (ℕ → ℕ) → ℕ → ℕ → ℕ → ℕ
renamed label n y m = if y == m then label n else label m

renamed-new : (label : ℕ → ℕ) (n y : ℕ) → renamed label n y y ≡ label n
unfolding renamed
renamed-new label n y = rw (eq→== y y refl) refl

renamed-old : (label : ℕ → ℕ) (n y m : ℕ) → y ≢ m → renamed label n y m ≡ label m
unfolding renamed
renamed-old label n y m h = rw (ne→== y m h) refl

Within-renamed :
    (label : ℕ → ℕ) (n y lo hi : ℕ) (tree : Tree)
    → All (λ m. y ≢ m) tree
    → Within label lo hi tree
    → Within (renamed label n y) lo hi tree
Within-renamed label n y lo hi tip away h = h
Within-renamed label n y lo hi (fork c l x r) (ax, al, ar) (hl, hr) =
    rw (renamed-old label n y x ax) (
      Within-renamed label n y lo (label x) l al hl,
      Within-renamed label n y (suc (label x)) hi r ar hr,
    )

Outside-renamed :
    (label : ℕ → ℕ) (n y lo hi : ℕ) (path : Way)
    → AllWay (λ m. y ≢ m) path
    → Outside label lo hi path
    → Outside (renamed label n y) lo hi path
Outside-renamed label n y lo hi top away h = tt
Outside-renamed label n y lo hi (step lft c up x other) (ax, ao, au) (end, le, hw, ho) =
    rw (renamed-old label n y x ax) (
      end,
      le,
      Within-renamed label n y (suc (label x)) end other ao hw,
      Outside-renamed label n y lo end up au ho,
    )
Outside-renamed label n y lo hi (step rgt c up x other) (ax, ao, au) (start, lt, hw, ho) =
    rw (renamed-old label n y x ax) (
      start,
      lt,
      Within-renamed label n y start (label x) other ao hw,
      Outside-renamed label n y start hi up au ho,
    )

parent_ne : (w : ℕ) (path : Way) → w ≢ 0 → AllWay (λ m. w ≢ m) path → parent_of path ≢ w
parent_ne w top nz h e = nz (sym e)
parent_ne w (step d c up x other) nz (hx, ho, hu) e = hx (sym e)

away_parent :
    (w : ℕ) (path : Way) → AllWay (λ m. w ≢ m) path → parent_of path ≢ 0 → w ≢ parent_of path
away_parent w top h nq = absurd (nq refl)
away_parent w (step d c up x other) (hx, ho, hu) nq = hx

module _ {K : Type 0} (key : ℕ → K) where
  -- None of the nodes that the swap writes.
  abbrev Apart : ℕ → ℕ → ℕ → ℕ → ℕ → Type 0
  Apart y n l r m = (y ≢ m) × (n ≢ m) × (l ≢ m) × (r ≢ m)

  child_moved :
      (t out : Rb K) (n y w q : ℕ) (s : Tree)
      → ((m : ℕ) → y ≢ m → n ≢ m → q ≢ m → root_of s ≢ m → w ≢ m → out.nodes m ≡ t.nodes m)
      → (root_of s ≢ 0 → out.nodes (root_of s) ≡ with_p y (t.nodes (root_of s)))
      → All (λ m. y ≢ m) s
      → FreeBelow n w (root_of s) q s
      → Stores key t n s
      → Stores key out y s
  child_moved t out n y w q tip others root away free h = tt
  child_moved t out n y w q (fork c l x r) others root (ax, al, ar) (fl, fr) (nx, cx, hl, hr) =
      let same : (tree : Tree)
          → All (λ m. y ≢ m) tree
          → Free n w x q tree
          → All (λ m. out.nodes m ≡ t.nodes m) tree =
        λ tree a f.
          All-zip (λ m. y ≢ m) (λ m. (n ≢ m) × (w ≢ m) × (x ≢ m) × (q ≢ m))
            (λ m. out.nodes m ≡ t.nodes m) tree (λ m ym (nm, wm, xm, qm). others m ym nm qm xm wm) a
            f in
      (
        nx,
        root nx ∙ ap (with_p y) cx,
        Stores-frame key t out x l (same l al fl) hl,
        Stores-frame key t out x r (same r ar fr) hr,
      )

  way_moved :
      (t out : Rb K) (label : ℕ → ℕ) (n y x l r lo hi : ℕ) (c : Colour) (path : Way)
      → Swapped key t n x y (parent_of path) l r c out
      → n ≢ 0
      → lo ≤ hi
      → AllWay (Apart y n l r) path
      → Outside label lo hi path
      → Around key t path n
      → Around key out path y
  way_moved t out label n y x l r lo hi c top sw nz le apart ho h = sw.root refl
  way_moved t out label n y x l r lo hi c (step d c2 up q other) sw nz le ((yq, nq, lq, rq), ao, au)
        ho (qz, cq, so, hu) =
      let (qo, qu) = last_away key label d c2 lo hi up q other le ho in
      let same : (m : ℕ) → q ≢ m → Apart y n l r m → out.nodes m ≡ t.nodes m =
        λ m qm (ym, nm, lm, rm). sw.others m ym nm qm lm rm in
      (
        qz,
        sw.at_q qz
            ∙ ap (relink n y) cq
            ∙ relink-cell key d _ c2 q n y (root_of other) (
                root_ne n other nz
                  (All-map (Apart y n l r) (λ m. n ≢ m) other (λ m (ym, nm, lm, rm). nm) ao)),
        Stores-frame key t out q other
            (All-zip (λ m. q ≢ m) (Apart y n l r) (λ m. out.nodes m ≡ t.nodes m) other same qo ao)
            so,
        Around-frame key t out up q
            (AllWay-zip (λ m. q ≢ m) (Apart y n l r) (λ m. out.nodes m ≡ t.nodes m) up same qu au)
            (sw.root_kept qz) hu,
      )

  -- `y` is a node outside the tree that can take the place of `n`; where `n` was its parent, its only
  -- child at `x` stands on the right of `n` already.
  pub record IsSpare (t : Rb K) (path : Way) (l : Tree) (n : ℕ) (r : Tree) (x y : ℕ) : Type 0 where
    pub yz : y ≢ 0
    pub self : (t.nodes y).s ≡ y
    pub value : (t.nodes y).v ≡ key y
    pub yn : y ≢ n
    pub in_left : All (λ m. y ≢ m) l
    pub in_right : All (λ m. y ≢ m) r
    pub in_way : AllWay (λ m. y ≢ m) path
    pub xn : x ≢ n
    pub xy : x ≢ y
    pub direct : (t.nodes y).p ≡ n → x ≡ root_of r

  pub swap-IsAt :
      (label : ℕ → ℕ) (t : Rb K) (path : Way) (c : Colour) (l : Tree) (n : ℕ) (r : Tree) (x y : ℕ)
      → IsAt key label t path (fork c l n r)
      → IsSpare t path l n r x y
      → IsAt key (renamed label n y) (delete_swap t n x y) path (fork c l y r)
        × Swapped key t n x y (parent_of path) (root_of l) (root_of r) c (delete_swap t n x y)
  swap-IsAt label t path c l n r x y at spare =
      let q = parent_of path in
      let out = delete_swap t n x y in
      let (nz, cn, sl, sr) = at.stores in
      let (wl, wr) = at.within in
      let low = Within-le label at.lo (label n) l wl in
      let high = Within-le label (suc (label n)) at.hi r wr in
      let n_l : All (λ m. n ≢ m) l = All-Within label n at.lo (label n) l wl (inr (omega arith)) in
      let n_r : All (λ m. n ≢ m) r =
        All-Within label n (suc (label n)) at.hi r wr (inl (omega arith)) in
      let n_way : AllWay (λ m. n ≢ m) path =
        AllWay-Outside label n at.lo at.hi path at.outside low (omega (arith, high)) in
      let wide_l : Within label at.lo at.hi l =
        Within-wider label at.lo (label n) at.lo at.hi l (omega arith) (omega (arith, high)) wl in
      let wide_r : Within label at.lo at.hi r =
        Within-wider label (suc (label n)) at.hi at.lo at.hi r (omega (arith, low)) (omega arith)
          wr in
      let l_way = gap_away key label t path n at.lo at.hi l at.around at.outside wide_l in
      let r_way = gap_away key label t path n at.lo at.hi r at.around at.outside wide_r in
      let place : IsPlace key t n x y q (root_of l) (root_of r) c = record {
        node = cn;
        self = spare.self;
        value = spare.value;
        nz = nz;
        yz = spare.yz;
        ny = λ e. spare.yn (sym e);
        qn = parent_ne n path nz n_way;
        qy = parent_ne y path spare.yz spare.in_way;
        ln = root_ne n l nz n_l;
        ly = root_ne y l spare.yz spare.in_left;
        rn = root_ne n r nz n_r;
        ry = root_ne y r spare.yz spare.in_right;
        xn = spare.xn;
        xy = spare.xy;
        lq = away_parent (root_of l) path l_way;
        rq = away_parent (root_of r) path r_way;
        rl = near-far key label lft t path c l n r at;
        lr = near-far key label rgt t path c r n l at;
        direct = spare.direct;
      } in
      let sw = delete_swap-Swapped key t n x y q (root_of l) (root_of r) c place in
      let cq = parent-label label at.lo at.hi path at.outside in
      let free_l =
        FreeBelow-of key t label n (root_of r) q n at.lo (label n) l sl wl (inr (inr (omega arith)))
          (omega (arith, root-label label (suc (label n)) at.hi r wr))
          (omega (arith, cq, low, high)) in
      let free_r =
        FreeBelow-of key t label n (root_of l) q n (suc (label n)) at.hi r sr wr
          (inr (inl (omega arith))) (omega (arith, root-label label at.lo (label n) l wl))
          (omega (arith, cq, low, high)) in
      let roots : AllWay (λ m. (root_of l ≢ m) × (root_of r ≢ m)) path =
        AllWay-zip (λ m. root_of l ≢ m) (λ m. root_of r ≢ m)
          (λ m. (root_of l ≢ m) × (root_of r ≢ m)) path (λ m a b. (a, b)) l_way r_way in
      let below : AllWay (λ m. (n ≢ m) × (root_of l ≢ m) × (root_of r ≢ m)) path =
        AllWay-zip (λ m. n ≢ m) (λ m. (root_of l ≢ m) × (root_of r ≢ m))
          (λ m. (n ≢ m) × (root_of l ≢ m) × (root_of r ≢ m)) path (λ m a (b, d). (a, b, d)) n_way
          roots in
      let apart : AllWay (Apart y n (root_of l) (root_of r)) path =
        AllWay-zip (λ m. y ≢ m) (λ m. (n ≢ m) × (root_of l ≢ m) × (root_of r ≢ m))
          (Apart y n (root_of l) (root_of r)) path (λ m a (b, d, e). (a, b, d, e)) spare.in_way
          below in
      let left : Stores key out y l =
        child_moved t out n y (root_of r) q l sw.others sw.at_l spare.in_left free_l sl in
      let right : Stores key out y r =
        child_moved t out n y (root_of l) q r (λ m ym nm qm rm lm. sw.others m ym nm qm lm rm)
          sw.at_r spare.in_right free_r sr in
      (
        record {
          lo = at.lo;
          hi = at.hi;
          stores = (spare.yz, sw.at_y, left, right);
          around =
              way_moved t out label n y x (root_of l) (root_of r) at.lo at.hi c path sw nz
                (omega (arith, low, high)) apart at.outside at.around;
          within = rw (renamed-new label n y) (
            Within-renamed label n y at.lo (label n) l spare.in_left wl,
            Within-renamed label n y (suc (label n)) at.hi r spare.in_right wr,
          );
          outside = Outside-renamed label n y at.lo at.hi path spare.in_way at.outside;
        },
        sw,
      )

-- ===== src/RbTree/Turn/Free.antt =====
-- Which nodes a rotation does not write, by the labels of RbTree/Ghost.
use shmmalloc.Base.{ℕ, suc, ◌≤◌, ◌<◌, ◌≡◌, ◌≢◌, refl, sym, ◌⊎◌, inl, inr, arith}
use shmmalloc.RbTree.{Rb}
use shmmalloc.RbTree.Side.{lft, rgt}
use shmmalloc.RbTree.Ghost.{
  Tree, tip, fork, Way, top, step, root_of, parent_of, All, AllWay, Stores, Around, Within, Outside,
}
use shmmalloc.RbTree.Ghost.Frame.{
  Beyond, Within-le, All-Within, AllWay-Outside, All-zip, AllWay-zip,
}

-- None of the four nodes that a rotation writes is in the tree.
abbrev pub Free : ℕ → ℕ → ℕ → ℕ → Tree → Type 0
Free x y z q tree = All (λ n. (x ≢ n) × (y ≢ n) × (z ≢ n) × (q ≢ n)) tree

abbrev pub FreeWay : ℕ → ℕ → ℕ → ℕ → Way → Type 0
FreeWay x y z q path = AllWay (λ n. (x ≢ n) × (y ≢ n) × (z ≢ n) × (q ≢ n)) path

abbrev pub FreeBelow : ℕ → ℕ → ℕ → ℕ → Tree → Type 0
FreeBelow x y z q tip = Unit
FreeBelow x y z q (fork c l n r) = Free x y z q l × Free x y z q r

-- No node, or one whose label is none of the tree's.
abbrev pub Clear : (ℕ → ℕ) → ℕ → ℕ → ℕ → Type 0
Clear label w lo hi = (w ≡ 0) ⊎ Beyond label w lo hi

pub root-label :
    (label : ℕ → ℕ) (lo hi : ℕ) (tree : Tree)
    → Within label lo hi tree
    → (root_of tree ≡ 0) ⊎ ((lo ≤ label (root_of tree)) × (label (root_of tree) < hi))
root-label label lo hi tip h = inl refl
root-label label lo hi (fork c l x r) (hl, hr) =
    inr (Within-le label lo (label x) l hl, omega (arith, Within-le label (suc (label x)) hi r hr))

pub parent-label :
    (label : ℕ → ℕ) (lo hi : ℕ) (path : Way)
    → Outside label lo hi path
    → Clear label (parent_of path) lo hi
parent-label label lo hi top h = inl refl
parent-label label lo hi (step lft c up x other) (end, le, hw, ho) = inr (inr le)
parent-label label lo hi (step rgt c up x other) (start, lt, hw, ho) = inr (inl lt)

module _ {K : Type 0} (key : ℕ → K) where
  pub nonzero : (t : Rb K) (p : ℕ) (tree : Tree) → Stores key t p tree → All (λ n. 0 ≢ n) tree
  nonzero t p tip h = tt
  nonzero t p (fork c l x r) (nz, at, hl, hr) =
      (λ e. nz (sym e), nonzero t x l hl, nonzero t x r hr)

  pub nonzero_path :
      (t : Rb K) (path : Way) (gap : ℕ) → Around key t path gap → AllWay (λ n. 0 ≢ n) path
  nonzero_path t top gap h = tt
  nonzero_path t (step d c up x other) gap (nz, at, ho, hu) =
      (λ e. nz (sym e), nonzero t x other ho, nonzero_path t up x hu)

  All-Clear :
      (t : Rb K) (label : ℕ → ℕ) (w p lo hi : ℕ) (tree : Tree)
      → Stores key t p tree
      → Within label lo hi tree
      → Clear label w lo hi
      → All (λ n. w ≢ n) tree
  All-Clear t label w p lo hi tree h hw (inl e) = rw e (nonzero t p tree h)
  All-Clear t label w p lo hi tree h hw (inr out) = All-Within label w lo hi tree hw out

  pub Free-of :
      (t : Rb K) (label : ℕ → ℕ) (x y z q p lo hi : ℕ) (tree : Tree)
      → Stores key t p tree
      → Within label lo hi tree
      → Clear label x lo hi
      → Clear label y lo hi
      → Clear label z lo hi
      → Clear label q lo hi
      → Free x y z q tree
  Free-of t label x y z q p lo hi tree h hw cx cy cz cq =
      let one : (w : ℕ) → Clear label w lo hi → All (λ n. w ≢ n) tree =
        λ w c. All-Clear t label w p lo hi tree h hw c in
      let zq =
        All-zip (λ n. z ≢ n) (λ n. q ≢ n) (λ n. (z ≢ n) × (q ≢ n)) tree (λ n a b. (a, b)) (one z cz)
          (one q cq) in
      let yzq =
        All-zip (λ n. y ≢ n) (λ n. (z ≢ n) × (q ≢ n)) (λ n. (y ≢ n) × (z ≢ n) × (q ≢ n)) tree
          (λ n a (b, c). (a, b, c)) (one y cy) zq in
      All-zip (λ n. x ≢ n) (λ n. (y ≢ n) × (z ≢ n) × (q ≢ n))
        (λ n. (x ≢ n) × (y ≢ n) × (z ≢ n) × (q ≢ n)) tree (λ n a (b, c, e). (a, b, c, e)) (one x cx)
        yzq

  pub FreeBelow-of :
      (t : Rb K) (label : ℕ → ℕ) (x y q p lo hi : ℕ) (tree : Tree)
      → Stores key t p tree
      → Within label lo hi tree
      → Clear label x lo hi
      → Clear label y lo hi
      → Clear label q lo hi
      → FreeBelow x y (root_of tree) q tree
  FreeBelow-of t label x y q p lo hi tip h hw cx cy cq = tt
  FreeBelow-of t label x y q p lo hi (fork c l z r) (nz, at, hl, hr) (wl, wr) cx cy cq =
      let le = Within-le label lo (label z) l wl in
      let ri = Within-le label (suc (label z)) hi r wr in
      (
        Free-of t label x y z q z lo (label z) l hl wl (omega (arith, ri)) (omega (arith, ri))
            (inr (inr (omega arith))) (omega (arith, ri)),
        Free-of t label x y z q z (suc (label z)) hi r hr wr (omega (arith, le)) (omega (arith, le))
            (inr (inl (omega arith))) (omega (arith, le)),
      )

  -- A node of the gap, or none.
  AllWay-Clear :
      (t : Rb K) (label : ℕ → ℕ) (w lo hi gap : ℕ) (path : Way)
      → Around key t path gap
      → Outside label lo hi path
      → (w ≡ 0) ⊎ ((lo ≤ label w) × (label w < hi))
      → AllWay (λ n. w ≢ n) path
  AllWay-Clear t label w lo hi gap path h ho (inl e) = rw e (nonzero_path t path gap h)
  AllWay-Clear t label w lo hi gap path h ho (inr (a, b)) = AllWay-Outside label w lo hi path ho a b

  pub FreeWay-of :
      (t : Rb K) (label : ℕ → ℕ) (x y z q lo hi gap : ℕ) (path : Way)
      → Around key t path gap
      → Outside label lo hi path
      → (x ≡ 0) ⊎ ((lo ≤ label x) × (label x < hi))
      → (y ≡ 0) ⊎ ((lo ≤ label y) × (label y < hi))
      → (z ≡ 0) ⊎ ((lo ≤ label z) × (label z < hi))
      → (q ≡ 0) ⊎ ((lo ≤ label q) × (label q < hi))
      → FreeWay x y z q path
  FreeWay-of t label x y z q lo hi gap path h ho cx cy cz cq =
      let one : (w : ℕ) → (w ≡ 0) ⊎ ((lo ≤ label w) × (label w < hi)) → AllWay (λ n. w ≢ n) path =
        λ w c. AllWay-Clear t label w lo hi gap path h ho c in
      let zq =
        AllWay-zip (λ n. z ≢ n) (λ n. q ≢ n) (λ n. (z ≢ n) × (q ≢ n)) path (λ n a b. (a, b))
          (one z cz) (one q cq) in
      let yzq =
        AllWay-zip (λ n. y ≢ n) (λ n. (z ≢ n) × (q ≢ n)) (λ n. (y ≢ n) × (z ≢ n) × (q ≢ n)) path
          (λ n a (b, c). (a, b, c)) (one y cy) zq in
      AllWay-zip (λ n. x ≢ n) (λ n. (y ≢ n) × (z ≢ n) × (q ≢ n))
        (λ n. (x ≢ n) × (y ≢ n) × (z ≢ n) × (q ≢ n)) path (λ n a (b, c, e). (a, b, c, e)) (one x cx)
        yzq

-- ===== src/RbTree/Turn/Cells.antt =====
-- The nodes of a rotation, and the trees of RbTree/Ghost that it leaves or re-parents.
use shmmalloc.Base.{ℕ, ◌≡◌, ◌≢◌, refl, sym, ap, ◌∙◌, ne→==, eq→==}
use shmmalloc.RbTree.{Colour, Rb}
use shmmalloc.RbTree.Side.{Side, lft, rgt, opposite, child, with_child}
use shmmalloc.RbTree.Rotate.Parts.{with_p, relink}
use shmmalloc.RbTree.Rotate.{Rotated}
use shmmalloc.RbTree.Ghost.{
  Tree, tip, fork, Way, top, step, root_of, parent_of, cell_at, Stores, Around,
}
use shmmalloc.RbTree.Ghost.Frame.{All-map, AllWay-map, Stores-frame, Around-frame}
use shmmalloc.RbTree.Turn.Free.{Free, FreeBelow}
use shmmalloc.RbTree.Turn.Distinct.{FreeUp}

root-ne : (x y z q : ℕ) (tree : Tree) → x ≢ 0 → Free x y z q tree → root_of tree ≢ x
root-ne x y z q tip nz h e = nz (sym e)
root-ne x y z q (fork c l n r) nz ((xn, yn, zn, qn), hl, hr) e = xn (sym e)

module _ {K : Type 0} (key : ℕ → K) where
  pub child-near :
      (d : Side) (p : ℕ) (c : Colour) (x near far : ℕ)
      → child d (cell_at key d p c x near far) ≡ near
  child-near lft p c x near far = refl
  child-near rgt p c x near far = refl

  pub child-far :
      (d : Side) (p : ℕ) (c : Colour) (x near far : ℕ)
      → child (opposite d) (cell_at key d p c x near far) ≡ far
  child-far lft p c x near far = refl
  child-far rgt p c x near far = refl

  pub s-cell :
      (d : Side) (p : ℕ) (c : Colour) (x near far : ℕ) → (cell_at key d p c x near far).s ≡ x
  s-cell lft p c x near far = refl
  s-cell rgt p c x near far = refl

  pub p-cell :
      (d : Side) (p : ℕ) (c : Colour) (x near far : ℕ) → (cell_at key d p c x near far).p ≡ p
  p-cell lft p c x near far = refl
  p-cell rgt p c x near far = refl

  pub color-cell :
      (d : Side) (p : ℕ) (c : Colour) (x near far : ℕ) → (cell_at key d p c x near far).color ≡ c
  color-cell lft p c x near far = refl
  color-cell rgt p c x near far = refl

  pub cell-down :
      (d : Side) (q y : ℕ) (c : Colour) (x a z : ℕ)
      → with_p y (with_child (opposite d) z (cell_at key d q c x a y)) ≡ cell_at key d y c x a z
  cell-down lft q y c x a z = refl
  cell-down rgt q y c x a z = refl

  pub cell-up :
      (d : Side) (q x : ℕ) (c : Colour) (y z e : ℕ)
      → with_p q (with_child d x (cell_at key d x c y z e)) ≡ cell_at key d q c y x e
  cell-up lft q x c y z e = refl
  cell-up rgt q x c y z e = refl

  pub relink-cell :
      (d : Side) (p : ℕ) (c : Colour) (q x y far : ℕ)
      → far ≢ x
      → relink x y (cell_at key d p c q x far) ≡ cell_at key d p c q y far
  relink-cell lft p c q x y far h = rw (eq→== x x refl) refl
  relink-cell rgt p c q x y far h = rw (ne→== far x h) refl

  pub parent_self :
      (t : Rb K) (path : Way) (gap : ℕ)
      → Around key t path gap
      → parent_of path ≢ 0
      → (t.nodes (parent_of path)).s ≡ parent_of path
  parent_self t top gap h nz = absurd (nz refl)
  parent_self t (step d c up q other) gap (nq, at, hs, hu) nz =
      ap (λ n. n.s) at ∙ s-cell d _ _ _ _ _

  pub Free-Stores :
      (d : Side) (t out : Rb K) (x y z q p : ℕ) (tree : Tree)
      → Rotated d t x y z q out
      → Free x y z q tree
      → Stores key t p tree
      → Stores key out p tree
  Free-Stores d t out x y z q p tree rot free h =
      Stores-frame key t out p tree
        (All-map (λ n. (x ≢ n) × (y ≢ n) × (z ≢ n) × (q ≢ n)) (λ n. out.nodes n ≡ t.nodes n) tree
          (λ n (a, b, c, e). rot.others n a b c e) free)
        h

  -- The inner subtree goes under `x`.
  pub FreeBelow-Stores :
      (d : Side) (t out : Rb K) (x y q : ℕ) (tree : Tree)
      → Rotated d t x y (root_of tree) q out
      → FreeBelow x y (root_of tree) q tree
      → Stores key t y tree
      → Stores key out x tree
  FreeBelow-Stores d t out x y q tip rot free h = tt
  FreeBelow-Stores d t out x y q (fork c l z r) rot (fl, fr) (nz, at, hl, hr) = (
    nz,
    rot.at_z nz ∙ ap (with_p x) at,
    Free-Stores d t out x y z q z l rot fl hl,
    Free-Stores d t out x y z q z r rot fr hr,
  )

  pub Around-turn :
      (d : Side) (t out : Rb K) (x y z : ℕ) (path : Way)
      → x ≢ 0
      → Rotated d t x y z (parent_of path) out
      → FreeUp x y z path
      → Around key t path x
      → Around key out path y
  Around-turn d t out x y z top nx rot free h = rot.root refl
  Around-turn d t out x y z (step d2 c up q other) nx rot (fo, fu) (nq, at, hs, hu) = (
    nq,
    rot.at_q nq ∙ ap (relink x y) at ∙ relink-cell d2 _ c q x y _ (root-ne x y z q other nx fo),
    Free-Stores d t out x y z q q other rot fo hs,
    Around-frame key t out up q
        (AllWay-map (λ n. (x ≢ n) × (y ≢ n) × (z ≢ n) × (q ≢ n)) (λ n. out.nodes n ≡ t.nodes n) up
          (λ n (a, b, c, e). rot.others n a b c e) fu)
        (rot.root_kept nq) hu,
  )

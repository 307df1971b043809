-- ===== src/RbTree/Found.antt =====
-- The searches of src/rbtree.h in the red-black trees that rbtree_insert leaves.
use shmmalloc.Base.{
  ℕ, ◌+◌, ◌^◌, ◌<◌, ◌≡◌, refl, sym, ap, ◌∙◌, ◌⊎◌, inl, inr, arith, subst, some, List, ◌∷◌, ◌++◌,
  false, true,
}
use shmmalloc.RbTree.{Sign, is_negative, Rb, rbtree_lower}
use shmmalloc.RbTree.Update.{rbtree_insert}
use shmmalloc.RbTree.Ghost.{Tree, tip, fork, root_of, inorder, Stores}
use shmmalloc.RbTree.Ghost
use shmmalloc.RbTree.Search
use shmmalloc.RbTree.Search.{Shape, leaf, branch, Holds, Ordered, Fits, Below, rbtree_lower-Fits}
use shmmalloc.RbTree.Sorted.{
  AllIn, AllIn-split, AllIn-join, AllIn-zip, NotBelow, Sorted, split-Sorted,
}
use shmmalloc.RbTree.Extremes.{IsStrict}
use shmmalloc.RbTree.Insert.{Inserted, rbtree_insert-IsRbTree}
use shmmalloc.RbTree.Insert.Start.{IsRbTree, IsFresh}

-- The tree without its colours.
abbrev pub shape_of : Tree → Shape
shape_of tip = leaf
shape_of (fork c l x r) = branch (shape_of l) x (shape_of r)

pub count-shape_of : (tree : Tree) → Search.count (shape_of tree) ≡ Ghost.count tree
count-shape_of tip = refl
count-shape_of (fork c l x r) = omega (arith, count-shape_of l, count-shape_of r)

pub shape-All :
    (P : ℕ → Type 0) (tree : Tree) → AllIn P (inorder tree) → Search.All P (shape_of tree)
shape-All P tip h = tt
shape-All P (fork c l x r) h =
    let (a, (px, b)) = AllIn-split P (inorder l) (x ∷ inorder r) h in
    (px, shape-All P l a, shape-All P r b)

pub All-shape :
    (P : ℕ → Type 0) (tree : Tree) → Search.All P (shape_of tree) → AllIn P (inorder tree)
All-shape P tip h = tt
All-shape P (fork c l x r) (px, a, b) =
    AllIn-join P (inorder l) (x ∷ inorder r) (All-shape P l a) (px, All-shape P r b)

module _ {K : Type 0} (key : ℕ → K) where
  pub Stores-Holds :
      (t : Rb K) (p : ℕ) (tree : Tree)
      → Stores key t p tree
      → Holds t (shape_of tree) (root_of tree)
  Stores-Holds t p tip h = refl
  Stores-Holds t p (fork c l x r) (nx, cx, hl, hr) =
      (refl, nx, rw cx (Stores-Holds t x l hl), rw cx (Stores-Holds t x r hr))

  pub values :
      (t : Rb K) (p : ℕ) (tree : Tree)
      → Stores key t p tree
      → AllIn (λ n. (t.nodes n).v ≡ key n) (inorder tree)
  values t p tip h = tt
  values t p (fork c l x r) (nx, cx, hl, hr) =
      AllIn-join (λ n. (t.nodes n).v ≡ key n) (inorder l) (x ∷ inorder r) (values t x l hl)
        (ap (λ n. n.v) cx, values t x r hr)

module _ {K : Type 0} (cmp : K → K → Sign) (key : ℕ → K) where
  -- A test of two keys is one of the values that the nodes have.
  by_values :
      (a b c d : K) → a ≡ c → b ≡ d → is_negative (cmp c d) ≡ false → is_negative (cmp a b) ≡ false
  by_values a b c d e f h =
      ap (λ k. is_negative (cmp k b)) e ∙ ap (λ k. is_negative (cmp c k)) f ∙ h

  pub Sorted-Ordered :
      (t : Rb K) (p : ℕ) (tree : Tree)
      → Stores key t p tree
      → Sorted cmp key (inorder tree)
      → Ordered cmp t (shape_of tree)
  Sorted-Ordered t p tip h sorted = tt
  Sorted-Ordered t p (fork c l x r) (nx, cx, hl, hr) sorted =
      let (sl, (xr, sr), across) = split-Sorted cmp key (inorder l) (x ∷ inorder r) sorted in
      let vx = ap (λ n. n.v) cx in
      let lefts =
        AllIn-zip (λ y. AllIn (λ z. NotBelow cmp key z y) (x ∷ inorder r))
          (λ n. (t.nodes n).v ≡ key n) (λ y. is_negative (cmp (t.nodes x).v (t.nodes y).v) ≡ false)
          (inorder l) (λ y (f, fs) vy. by_values _ _ (key x) (key y) vx vy f) across
          (values key t x l hl) in
      let rights =
        AllIn-zip (λ y. NotBelow cmp key y x) (λ n. (t.nodes n).v ≡ key n)
          (λ y. is_negative (cmp (t.nodes y).v (t.nodes x).v) ≡ false) (inorder r)
          (λ y f vy. by_values _ _ (key y) (key x) vy vx f) xr (values key t x r hr) in
      (
        shape-All (λ y. is_negative (cmp (t.nodes x).v (t.nodes y).v) ≡ false) l lefts,
        shape-All (λ y. is_negative (cmp (t.nodes y).v (t.nodes x).v) ≡ false) r rights,
        Sorted-Ordered t x l hl sl,
        Sorted-Ordered t x r hr sr,
      )

module _ {K : Type 0} (cmp : K → K → Sign) (Ok : K → Type 0) (order : IsStrict cmp Ok)
    (key : ℕ → K) where
  lower-in :
      (t : Rb K) (tree : Tree) (val : K)
      → IsRbTree key t tree
      → Ok val
      → AllIn (λ n. Ok (key n)) (inorder tree)
      → Sorted cmp key (inorder tree)
      → (r : ℕ) × (rbtree_lower cmp t val ≡ some r)
        × ((Search.All (Below cmp t val) (shape_of tree) × (r ≡ 0))
            ⊎ Fits cmp t val (shape_of tree) r)
  lower-in t tree val rb ov oks sorted =
      let stores = rb.at.stores in
      let root : t.root ≡ root_of tree = rb.at.around in
      let ok_nodes =
        AllIn-zip (λ n. Ok (key n)) (λ n. (t.nodes n).v ≡ key n) (λ n. Ok (t.nodes n).v)
          (inorder tree) (λ n o e. subst Ok (sym e) o) oks (values key t 0 tree stores) in
      rbtree_lower-Fits cmp Ok order.weak t val (shape_of tree)
        (omega (arith, count-shape_of tree, rb.counted))
        (subst (λ r. Holds t (shape_of tree) r) (sym root) (Stores-Holds key t 0 tree stores)) ov
        (shape-All (λ n. Ok (t.nodes n).v) tree ok_nodes)
        (Sorted-Ordered cmp key t 0 tree stores sorted)

  none_all :
      (t : Rb K) (new : ℕ) (left right : List ℕ)
      → Ok (key new)
      → AllIn (λ n. (t.nodes n).v ≡ key n) (left ++ (new ∷ right))
      → AllIn (Below cmp t (key new)) (left ++ (new ∷ right))
      → ⊥
  none_all t new left right on vs all =
      let (va, (vn, vb)) = AllIn-split (λ n. (t.nodes n).v ≡ key n) left (new ∷ right) vs in
      let (ba, (bn, bb)) = AllIn-split (Below cmp t (key new)) left (new ∷ right) all in
      let never : is_negative (cmp (key new) (key new)) ≡ false = order.irreflexive (key new) on in
      let always : is_negative (cmp (key new) (key new)) ≡ true =
        ap (λ k. is_negative (cmp k (key new))) (sym vn) ∙ bn in
      ground (arith, sym never ∙ always)

  -- After an insertion into a well-formed red-black tree, under the conditions of rbtree_insert, a
  -- search by rbtree_lower for the key inserted never fails: it returns a node whose key is not
  -- below that key, of the well-formed red-black tree with the old nodes and the new one.
  pub rbtree_insert-rbtree_lower :
      (t : Rb K) (new : ℕ) (tree : Tree)
      → IsRbTree key t tree
      → IsFresh key t new tree
      → t.size + 1 < 2 ^ 32
      → Ok (key new)
      → AllIn (λ n. Ok (key n)) (inorder tree)
      → Sorted cmp key (inorder tree)
      → (out : Rb K) × (tree2 : Tree) × (r : ℕ) × (rbtree_insert cmp t new ≡ some out)
        × (rbtree_lower cmp out (key new) ≡ some r)
        × IsRbTree key out tree2
        × Inserted new tree tree2
        × Fits cmp out (key new) (shape_of tree2) r
  rbtree_insert-rbtree_lower t new tree rb fresh h on oks sorted =
      let done = rbtree_insert-IsRbTree cmp Ok order key t new tree rb fresh h on oks sorted in
      let (left, right, a, b) = done.inserted in
      let (ok_left, ok_right) =
        AllIn-split (λ n. Ok (key n)) left right (subst (λ xs. AllIn (λ n. Ok (key n)) xs) a oks) in
      let ok_whole : AllIn (λ n. Ok (key n)) (inorder done.tree2) =
        subst (λ xs. AllIn (λ n. Ok (key n)) xs) (sym b)
          (AllIn-join (λ n. Ok (key n)) left (new ∷ right) ok_left (on, ok_right)) in
      let (r, found, which) =
        lower-in done.out done.tree2 (key new) done.holds on ok_whole done.sorted in
      let stores = done.holds.at.stores in
      (
        done.out,
        done.tree2,
        r,
        done.runs,
        found,
        done.holds,
        done.inserted,
        elim which [
          | inr fits ↦ fits
          | inl (all, zero_r) ↦ absurd (
              none_all done.out new left right on
                (subst (λ xs. AllIn (λ n. (done.out.nodes n).v ≡ key n) xs) b
                  (values key done.out 0 done.tree2 stores))
                (subst (λ xs. AllIn (Below cmp done.out (key new)) xs) b
                  (All-shape (Below cmp done.out (key new)) done.tree2 all)))
        ],
      )

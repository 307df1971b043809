-- ===== src/RbTree/Insert/Order.antt =====
-- The gap to which rbtree_insert of src/rbtree.h walks is the place of the new key in the order.
use shmmalloc.Base.{
  ℕ, ◌≡◌, sym, ◌∙◌, inl, inr, true, false, arith, List, [], ◌∷◌, ◌++◌, subst, Bool-cases,
}
use shmmalloc.RbTree.{Sign, is_negative}
use shmmalloc.RbTree.Side.{lft, rgt}
use shmmalloc.RbTree.Ghost.{Tree, fork, Way, top, step, plug, inorder}
use shmmalloc.RbTree.Balance.{before, after, inorder-plug}
use shmmalloc.RbTree.Extremes.{IsStrict}
use shmmalloc.RbTree.Sorted.{
  AllIn, AllIn-split, AllIn-join, AllIn-zip, NotBelow, Sorted, split-Sorted, join-Sorted,
}
use shmmalloc.RbTree.Insert.Walk.{Chosen}

module _ {K : Type 0} (cmp : K → K → Sign) (Ok : K → Type 0) (order : IsStrict cmp Ok)
    (key : ℕ → K) where
  below_chosen :
      (x y v : K)
      → Ok x
      → Ok y
      → Ok v
      → is_negative (cmp x v) ≡ true
      → is_negative (cmp x y) ≡ false
      → is_negative (cmp v y) ≡ false
  below_chosen x y v ox oy ov e f = order.asym y v oy ov (order.weak.below x y v ox oy ov e f)

  above_chosen :
      (x y v : K)
      → Ok x
      → Ok y
      → Ok v
      → is_negative (cmp x v) ≡ false
      → is_negative (cmp y x) ≡ false
      → is_negative (cmp y v) ≡ false
  above_chosen x y v ox oy ov e f = elim (Bool-cases (is_negative (cmp y v))) [
    | inr g ↦ g
    | inl g ↦
        let clash : is_negative (cmp x v) ≡ true = order.weak.below y x v oy ox ov g f in
        absurd (ground (arith, sym e ∙ clash))
  ]

  abbrev OkIn : List ℕ → Type 0
  OkIn xs = AllIn (λ n. Ok (key n)) xs

  -- No key on the left of a chosen gap is above the new one, and none on the right is below it.
  gap_order :
      (new : ℕ) (path : Way) (tree : Tree)
      → Ok (key new)
      → Chosen cmp key (key new) path
      → OkIn (inorder (plug path tree))
      → Sorted cmp key (inorder (plug path tree))
      → AllIn (λ y. NotBelow cmp key new y) (before path)
        × AllIn (λ y. NotBelow cmp key y new) (after path)
  gap_order new top tree on chosen oks sorted = (tt, tt)
  gap_order new (step lft c up x other) tree on (e, chosen) oks sorted =
      let here = fork c tree x other in
      let rest = x ∷ inorder other in
      let (sb, here_after, ab) =
        split-Sorted cmp key (before up) (inorder here ++ after up)
          (subst (λ l. Sorted cmp key l) (inorder-plug up here) sorted) in
      let (sh, sa, ha) = split-Sorted cmp key (inorder here) (after up) here_after in
      let (st, (so, sr), hr) = split-Sorted cmp key (inorder tree) rest sh in
      let ok_all =
        AllIn-split (λ n. Ok (key n)) (before up) (inorder here ++ after up)
          (subst (λ l. OkIn l) (inorder-plug up here) oks) in
      let (ok_here, ok_after) = AllIn-split (λ n. Ok (key n)) (inorder here) (after up) ok_all.1 in
      let (ok_tree, (ok_x, ok_other)) = AllIn-split (λ n. Ok (key n)) (inorder tree) rest ok_here in
      let (lows, highs) = gap_order new up here on chosen oks sorted in
      (
        lows,
        (
          e,
          AllIn-join (λ y. NotBelow cmp key y new) (inorder other) (after up)
              (AllIn-zip (λ n. Ok (key n)) (λ y. NotBelow cmp key y x) (λ y. NotBelow cmp key y new)
                (inorder other) (λ y oy f. above_chosen (key x) (key y) (key new) ok_x oy on e f)
                ok_other so)
              highs,
        ),
      )
  gap_order new (step rgt c up x other) tree on (e, chosen) oks sorted =
      let here = fork c other x tree in
      let rest = x ∷ inorder tree in
      let (sb, here_after, ab) =
        split-Sorted cmp key (before up) (inorder here ++ after up)
          (subst (λ l. Sorted cmp key l) (inorder-plug up here) sorted) in
      let (sh, sa, ha) = split-Sorted cmp key (inorder here) (after up) here_after in
      let (so, (st, sr), across) = split-Sorted cmp key (inorder other) rest sh in
      let ok_all =
        AllIn-split (λ n. Ok (key n)) (before up) (inorder here ++ after up)
          (subst (λ l. OkIn l) (inorder-plug up here) oks) in
      let (ok_here, ok_after) = AllIn-split (λ n. Ok (key n)) (inorder here) (after up) ok_all.1 in
      let (ok_other, (ok_x, ok_tree)) =
        AllIn-split (λ n. Ok (key n)) (inorder other) rest ok_here in
      let (lows, highs) = gap_order new up here on chosen oks sorted in
      (
        AllIn-join (λ y. NotBelow cmp key new y) (before up) (inorder other ++ (x ∷ [])) lows
            (AllIn-join (λ y. NotBelow cmp key new y) (inorder other) (x ∷ [])
              (AllIn-zip (λ n. Ok (key n)) (λ y. AllIn (λ z. NotBelow cmp key z y) rest)
                (λ y. NotBelow cmp key new y) (inorder other)
                (λ y oy (f, fs). below_chosen (key x) (key y) (key new) ok_x oy on e f) ok_other
                across)
              (order.asym (key x) (key new) ok_x on e, tt)),
        highs,
      )

  -- With the new node in the gap the whole is in order.
  pub gap-Sorted :
      (new : ℕ) (path : Way) (tree : Tree)
      → inorder tree ≡ []
      → Ok (key new)
      → Chosen cmp key (key new) path
      → OkIn (inorder (plug path tree))
      → Sorted cmp key (inorder (plug path tree))
      → Sorted cmp key (before path ++ (new ∷ after path))
  gap-Sorted new path tree none on chosen oks sorted =
      let (lows, highs) = gap_order new path tree on chosen oks sorted in
      let flat : Sorted cmp key (before path ++ after path) =
        subst (λ l. Sorted cmp key (before path ++ (l ++ after path))) none
          (subst (λ l. Sorted cmp key l) (inorder-plug path tree) sorted) in
      let (sb, sa, across) = split-Sorted cmp key (before path) (after path) flat in
      join-Sorted cmp key (before path) (new ∷ after path) sb (highs, sa)
        (AllIn-zip (λ y. NotBelow cmp key new y)
          (λ y. AllIn (λ z. NotBelow cmp key z y) (after path))
          (λ y. AllIn (λ z. NotBelow cmp key z y) (new ∷ after path)) (before path)
          (λ y f fs. (f, fs)) lows across)

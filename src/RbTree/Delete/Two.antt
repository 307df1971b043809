-- ===== src/RbTree/Delete/Two.antt =====
-- rbtree_delete of src/rbtree.h at a node with two children, whose successor takes its place.
use shmmalloc.Base.{
  ℕ, suc, ◌+◌, ◌^◌, ◌<◌, ◌≡◌, ◌≢◌, refl, sym, ap, ◌∙◌, ◌⊎◌, inl, inr, arith, subst, ◌++◌,
}
use shmmalloc.RbTree.{Colour, red, black, Rb, set_p, is_red}
use shmmalloc.RbTree.Side.{lft, rgt}
use shmmalloc.RbTree.Ghost.{
  Tree, tip, fork, Way, step, root_of, parent_of, plug, inorder, count, All, AllWay,
}
use shmmalloc.RbTree.Ghost.Frame.{All-Within, AllWay-Outside}
use shmmalloc.RbTree.Update.{replace_child, delete_swap}
use shmmalloc.RbTree.Balance.{IsBlack, IsBlackStep, IsBalanced, BalancedWay, depth, depth-count}
use shmmalloc.RbTree.Turn.{IsAt}
use shmmalloc.RbTree.Zipper.{rise, descend}
use shmmalloc.RbTree.Insert.{Inserted}
use shmmalloc.RbTree.Insert.Start.{IsRbTree}
use shmmalloc.RbTree.Delete.Ends.{IsSeen, IsSeen-fork}
use shmmalloc.RbTree.Delete.Splice.{Spliced, splice-Spliced, split-Within, gap_away, root_ne}
use shmmalloc.RbTree.Rotate.Parts.{with_p}
use shmmalloc.RbTree.Delete.Swap.Whole.{Swapped}
use shmmalloc.RbTree.Delete.Swap.{IsSpare, swap-IsAt, renamed}
use shmmalloc.RbTree.Delete.Walk.{
  Spine, end, lower, close, under, plug-under, inorder-close, AllWay-under, way_under, parent_under,
  same_parent, depth-under, BalancedWay-under, black_under, unplug-Balanced, descend_spine,
  rise_spine, descend_all,
}
use shmmalloc.RbTree.Delete.Start.{
  emptied, emptied_self, emptied-color, emptied-IsAt, delete_from, tail, tail_splice, after-swap,
  finish-Finished,
}
use shmmalloc.RbTree.Delete.One.{HasDeleted, middle, root_self, concluded}

module _ {K : Type 0} (key : ℕ → K) where
  -- The parent of the successor is `n` only where no left child was passed.
  direct_only :
      (s : Spine) (way : Way) (n : ℕ) (f x : Tree) (p : ℕ)
      → All (λ m. n ≢ m) (close s f)
      → p ≡ parent_of (under s way)
      → p ≡ n
      → root_of x ≡ root_of (close s x)
  direct_only end way n f x p away e same = refl
  direct_only (lower c y other s) way n f x p (ny, away, ao) e same =
      absurd (parent_under (λ m. n ≢ m) s (step lft c way y other) f ny away (sym same ∙ e))

  -- The successor can take the place of `n`, once it is unlinked.
  IsSpare-of :
      (label : ℕ → ℕ) (t0 t2 : Rb K) (path : Way) (c : Colour) (l : Tree) (n : ℕ) (s : Spine)
      (cy : Colour) (y : ℕ) (ry : Tree)
      → IsAt key label t0 (under s (step rgt c path n l)) (fork cy tip y ry)
      → All (λ m. n ≢ m) (close s (fork cy tip y ry))
      → Spliced key label t0 (under s (step rgt c path n l)) ry y t2
      → IsSpare key t2 path l n (close s ry) (root_of ry) y
  IsSpare-of label t0 t2 path c l n s cy y ry at away_n sp =
      let way = step rgt c path n l in
      let (yz, celly, st, sr) = at.stores in
      let (wr, (low, high), away) = split-Within key label rgt cy at.lo at.hi ry y at.within in
      let y_way : AllWay (λ m. y ≢ m) (under s way) =
        AllWay-Outside label y at.lo at.hi (under s way) at.outside low high in
      let ((yn, yl, yp), y_r) = AllWay-under (λ m. y ≢ m) s way ry y_way away in
      let x_way = gap_away key label t0 (under s way) y at.lo at.hi ry at.around at.outside wr in
      let (xn, xl, xp) = way_under (λ m. root_of ry ≢ m) s way x_way in
      record {
        yz = yz;
        self = ap (λ m. m.s) sp.node ∙ ap (λ m. m.s) celly;
        value = ap (λ m. m.v) sp.node ∙ ap (λ m. m.v) celly;
        yn = yn;
        in_left = yl;
        in_right = y_r;
        in_way = yp;
        xn = xn;
        xy = root_ne y ry yz away;
        direct =
            direct_only s way n (fork cy tip y ry) ry (t2.nodes y).p away_n
              (ap (λ m. m.p) sp.node ∙ ap (λ m. m.p) celly);
      }

  -- What the loop reads of the place of the successor, after the swap.
  IsSeen-of :
      (label : ℕ → ℕ) (t2 t3 : Rb K) (path : Way) (c : Colour) (l : Tree) (n : ℕ) (s : Spine)
      (f : Tree) (y : ℕ) (x : Tree) (q a b : ℕ)
      → IsAt key label t3 (under s (step rgt c path y l)) x
      → IsSeen t2 (parent_of (under s (step rgt c path n l))) x
      → Swapped key t2 n (root_of x) y q a b c t3
      → All (λ m. n ≢ m) (close s f)
      → (t2.nodes y).p ≡ parent_of (under s (step rgt c path n l))
      → IsSeen t3 (parent_of (under s (step rgt c path y l))) x
  IsSeen-of label t2 t3 path c l n s f y (fork cx xl x xr) q a b at seen sw away e =
      IsSeen-fork key label lft cx t3 (parent_of (under s (step rgt c path y l))) xl x xr at.stores
  IsSeen-of label t2 t3 path c l n end f y tip q a b at seen sw away e =
      let same : t3.nodes 0 ≡ with_p y (t2.nodes 0) = sw.null_direct e refl in
      record {
        p = ap (λ m. m.p) same;
        self = ap (λ m. m.s) same ∙ seen.self;
        color = ap (λ m. is_red m.color) same ∙ seen.color;
      }
  IsSeen-of label t2 t3 path c l n (lower c2 z other s) f y tip q a b at seen sw (nz, away, ao) e =
      let way = step lft c2 (step rgt c path n l) z other in
      let not_n : (t2.nodes y).p ≢ n =
        λ same. parent_under (λ m. n ≢ m) s way f nz away (sym same ∙ e) in
      let same : t3.nodes 0 ≡ t2.nodes 0 = sw.null_far not_n in
      record {
        p =
            ap (λ m. m.p) same
            ∙ seen.p
            ∙ same_parent s way (step lft c2 (step rgt c path y l) z other) refl;
        self = ap (λ m. m.s) same ∙ seen.self;
        color = ap (λ m. is_red m.color) same ∙ seen.color;
      }

  other_way :
      (c : Colour) (path : Way) (n y : ℕ) (l : Tree) (m : ℕ)
      → BalancedWay m (step rgt c path n l)
      → BalancedWay m (step rgt c path y l)
  other_way red path n y l m h = h
  other_way black path n y l m h = h

  other_black :
      (c : Colour) (path : Way) (n y : ℕ) (l : Tree)
      → IsBlackStep (step rgt c path n l)
      → IsBlackStep (step rgt c path y l)
  other_black red path n y l h = h
  other_black black path n y l h = h

  -- A node with two children, whose successor is the node `y` at the end of the spine `s`.
  pub two_children :
      (t : Rb K) (path : Way) (c : Colour) (l : Tree) (n : ℕ) (s : Spine) (cy : Colour) (y : ℕ)
      (ry : Tree)
      → IsRbTree key t (plug path (fork c l n (close s (fork cy tip y ry))))
      → t.size < 2 ^ 32
      → delete_from (emptied t) t.size n ≡ tail (emptied t) (t.size + 2) n y (root_of ry)
      → HasDeleted key t n (plug path (fork c l n (close s (fork cy tip y ry))))
  two_children t path c l n s cy y ry rb h goes =
      let t0 = emptied t in
      let fuel = t.size + 2 in
      let f = fork cy tip y ry in
      let here = fork c l n (close s f) in
      let way = step rgt c path n l in
      let way2 = step rgt c path y l in
      let q = parent_of (under s way) in
      let at : IsAt key rb.label t0 path here =
        descend_all key rb.label t0 path here
          (emptied-IsAt key rb.label t (plug path here) rb.at) in
      let (wl, wr) = at.within in
      let away_n =
        All-Within rb.label n (suc (rb.label n)) at.hi (close s f) wr (inl (omega arith)) in
      let aty : IsAt key rb.label t0 (under s way) f =
        descend_spine key rb.label t0 s way f
          (descend key rb.label rgt c t0 path n (close s f) l at) in
      let (yz, celly, st, sr) = aty.stores in
      let (wry, bounds, away) = split-Within key rb.label rgt cy aty.lo aty.hi ry y aty.within in
      let t2 = replace_child (set_p t0 (root_of ry) q) q y (root_of ry) in
      let sp : Spliced key rb.label t0 (under s way) ry y t2 =
        splice-Spliced key rb.label rgt cy t0 (under s way) ry y aty (emptied_self key t)
          (emptied-color key t) in
      let spare = IsSpare-of rb.label t0 t2 path c l n s cy y ry aty away_n sp in
      let (at3, sw) =
        swap-IsAt key rb.label t2 path c l n (close s ry) (root_of ry) y
          (rise key rb.label rgt c t2 path n (close s ry) l
            (rise_spine key rb.label t2 s way ry sp.at))
          spare in
      let label2 = renamed rb.label n y in
      let t3 = delete_swap t2 n (root_of ry) y in
      let at_x : IsAt key label2 t3 (under s way2) ry =
        descend_spine key label2 t3 s way2 ry
          (descend key label2 rgt c t3 path y (close s ry) l at3) in
      let seen =
        IsSeen-of label2 t2 t3 path c l n s f y ry _ _ _ at_x sp.seen sw away_n
          (ap (λ m. m.p) sp.node ∙ ap (λ m. m.p) celly) in
      let unlinked =
        tail_splice t0 fuel n y (root_of ry) q (ap (λ m. m.p) celly) (ap (λ m. m.s) celly)
          (root_self key t0 y ry (emptied_self key t) sr) (root_ne y ry yz away) in
      let swapped =
        after-swap t2 fuel n y (root_of ry) cy spare.yn
          (ap (λ m. m.color) sp.node ∙ ap (λ m. m.color) celly) in
      let whole_f : plug (under s way) f ≡ plug path here = plug-under s way f in
      let (k, hb, hp, room) =
        unplug-Balanced (under s way) f (subst (λ w. IsBalanced w) (sym whole_f) rb.balanced) in
      let deep : depth (under s way2) < fuel = omega (
        arith,
        depth-under s way way2 refl,
        depth-count (under s way) f,
        ap count whole_f,
        rb.counted,
      ) in
      let hp2 =
        BalancedWay-under s way way2 k (λ m. other_way c path n y l m) (other_black c path n y l)
          hp in
      let room2 : IsBlack f ⊎ IsBlackStep (under s way2) = elim room [
        | inl b ↦ inl b
        | inr b ↦ inr (black_under s way way2 (other_black c path n y l) b)
      ] in
      let removed : Inserted n (plug (under s way2) ry) (plug path here) =
        subst (λ w. Inserted n w (plug path here)) (sym (plug-under s way2 ry))
          (middle n path (fork c l y (close s ry)) here (inorder l) (inorder (close s f)) refl
            (ap (λ r. inorder l ++ r) (sym (inorder-close s cy y ry)))) in
      concluded key t t3 label2 fuel (root_of ry) n cy (plug (under s way2) ry) (plug path here)
        (goes ∙ unlinked ∙ swapped) (sw.size ∙ sp.size) rb.counted h removed
        (finish-Finished key label2 rgt cy t3 fuel k y (under s way2) ry deep at_x seen hb hp2
          room2)

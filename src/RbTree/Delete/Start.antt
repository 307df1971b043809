-- ===== src/RbTree/Delete/Start.antt =====
-- rbtree_delete of src/rbtree.h up to its loop, and what follows the unlinking.
use shmmalloc.Base.{
  ℕ, suc, ◌+◌, ◌-◌, ◌^◌, ◌<◌, ◌≡◌, ◌≢◌, refl, ap, ◌∙◌, ◌⊎◌, inl, arith, false, Option, some, subst,
  ne→==, eq→==, ◌==◌, ◌||◌, if◌then◌else◌, u32, ◌>>=◌,
}
use shmmalloc.RbTree.{Colour, red, black, Rb, put, set_p, is_red, rbtree_min_node}
use shmmalloc.RbTree.Side.{Side}
use shmmalloc.RbTree.Ghost.{Tree, tip, Way, top, root_of, parent_of, fork_at, plug, inorder}
use shmmalloc.RbTree.Ghost.Frame.{All-map, Stores-frame}
use shmmalloc.RbTree.Update.{replace_child, delete_swap, rbtree_fix_delete, rbtree_delete}
use shmmalloc.RbTree.Balance.{
  IsBlack, IsBlackStep, Balanced, IsBalanced, BalancedWay, red-Balanced, plug-IsBalanced, depth,
}
use shmmalloc.RbTree.Turn.{IsAt}
use shmmalloc.RbTree.Turn.Free.{nonzero}
use shmmalloc.RbTree.Zipper.{rise_all}
use shmmalloc.RbTree.Delete.Ends.{Balanced-Almost, IsSeen, Mended}
use shmmalloc.RbTree.Delete.Loop.{fix_delete-Mended}
use shmmalloc.RbTree.Delete.Splice.{put_here, put_away}
use shmmalloc.RbTree.Delete.Walk.{black_parts}

module _ {K : Type 0} where
  -- The memory with the node `enode` at 0 and the size counted down.
  pub emptied : Rb K → Rb K
  emptied t =
      let enode = record (t.nodes 0) { s = 0; p = 0; left = 0; right = 0; color = black } in
      record (put t 0 enode) { size = u32 (t.size + 2 ^ 32 - 1) }

  -- From the unlinked memory on.
  pub after_splice : Rb K → ℕ → ℕ → ℕ → ℕ → Option (Rb K)
  after_splice t2 fuel node y x =
      let t3 = if y == node then t2 else delete_swap t2 node x y in
      if is_red (t2.nodes y).color then some t3 else rbtree_fix_delete fuel t3 x

  pub tail : Rb K → ℕ → ℕ → ℕ → ℕ → Option (Rb K)
  tail t0 fuel node y x =
      let t1 = set_p t0 x (t0.nodes y).p in
      after_splice (replace_child t1 (t1.nodes y).p (t1.nodes y).s (t1.nodes x).s) fuel node y x

  pub delete_from : Rb K → ℕ → ℕ → Option (Rb K)
  delete_from t0 size node =
      let l = (t0.nodes node).left in
      let r = (t0.nodes node).right in
      let found = if l == 0 || r == 0 then some node else rbtree_min_node (size + 1) t0 r in
      found >>= λ y.
      let x = if l == 0 then r else if r == 0 then l else (t0.nodes y).right in
      tail t0 (size + 2) node y x

  pub delete_as_from :
      (t : Rb K) (node : ℕ) → rbtree_delete t node ≡ delete_from (emptied t) t.size node
  unfolding rbtree_delete delete_from emptied tail after_splice
  delete_as_from t node = refl

  pub from_left :
      (t0 : Rb K) (size node r : ℕ)
      → (t0.nodes node).left ≡ 0
      → (t0.nodes node).right ≡ r
      → delete_from t0 size node ≡ tail t0 (size + 2) node node r
  unfolding delete_from
  from_left t0 size node r el er = rw (el, er) refl

  pub from_right :
      (t0 : Rb K) (size node l : ℕ)
      → (t0.nodes node).left ≡ l
      → l ≢ 0
      → (t0.nodes node).right ≡ 0
      → delete_from t0 size node ≡ tail t0 (size + 2) node node l
  unfolding delete_from
  from_right t0 size node l el nl er = rw (el, er, ne→== l 0 nl) refl

  pub from_both :
      (t0 : Rb K) (size node l r y x : ℕ)
      → (t0.nodes node).left ≡ l
      → l ≢ 0
      → (t0.nodes node).right ≡ r
      → r ≢ 0
      → rbtree_min_node (size + 1) t0 r ≡ some y
      → (t0.nodes y).right ≡ x
      → delete_from t0 size node ≡ tail t0 (size + 2) node y x
  unfolding delete_from
  from_both t0 size node l r y x el nl er nr found ex =
      rw (el, er, ne→== l 0 nl, ne→== r 0 nr, found, ex) refl

  tail_with : Rb K → ℕ → ℕ → ℕ → ℕ → ℕ → ℕ → ℕ → ℕ → Option (Rb K)
  tail_with t0 fuel node y x p1 p2 s1 s2 =
      after_splice (replace_child (set_p t0 x p1) p2 s1 s2) fuel node y x

  tail_as_with :
      (t0 : Rb K) (fuel node y x : ℕ)
      → tail t0 fuel node y x ≡ (
          let t1 = set_p t0 x (t0.nodes y).p in
          tail_with t0 fuel node y x (t0.nodes y).p (t1.nodes y).p (t1.nodes y).s (t1.nodes x).s)
  unfolding tail tail_with
  tail_as_with t0 fuel node y x = refl

  pub tail_splice :
      (t0 : Rb K) (fuel node y x q : ℕ)
      → (t0.nodes y).p ≡ q
      → (t0.nodes y).s ≡ y
      → (t0.nodes x).s ≡ x
      → x ≢ y
      → tail t0 fuel node y x ≡ after_splice (replace_child (set_p t0 x q) q y x) fuel node y x
  unfolding tail_with
  tail_splice t0 fuel node y x q ep sy sx xy =
      let t1 = set_p t0 x (t0.nodes y).p in
      let y1 : t1.nodes y ≡ t0.nodes y = put_away t0 x y _ xy in
      let p1 : (t1.nodes y).p ≡ q = ap (λ n. n.p) y1 ∙ ep in
      let s1 : (t1.nodes y).s ≡ y = ap (λ n. n.s) y1 ∙ sy in
      let s2 : (t1.nodes x).s ≡ x = ap (λ n. n.s) (put_here t0 x _) ∙ sx in
      tail_as_with t0 fuel node y x
      ∙ ap (λ v. tail_with t0 fuel node y x v (t1.nodes y).p (t1.nodes y).s (t1.nodes x).s) ep
      ∙ ap (λ v. tail_with t0 fuel node y x q v (t1.nodes y).s (t1.nodes x).s) p1
      ∙ ap (λ v. tail_with t0 fuel node y x q q v (t1.nodes x).s) s1
      ∙ ap (λ v. tail_with t0 fuel node y x q q y v) s2

  -- The last step by the colour of the node taken out.
  pub finish : Rb K → ℕ → ℕ → Colour → Option (Rb K)
  finish t3 fuel x c = if is_red c then some t3 else rbtree_fix_delete fuel t3 x

  pub after-same :
      (t2 : Rb K) (fuel y x : ℕ) (c : Colour)
      → (t2.nodes y).color ≡ c
      → after_splice t2 fuel y y x ≡ finish t2 fuel x c
  unfolding after_splice finish
  after-same t2 fuel y x c e = rw (eq→== y y refl, e) refl

  pub after-swap :
      (t2 : Rb K) (fuel node y x : ℕ) (c : Colour)
      → y ≢ node
      → (t2.nodes y).color ≡ c
      → after_splice t2 fuel node y x ≡ finish (delete_swap t2 node x y) fuel x c
  unfolding after_splice finish
  after-swap t2 fuel node y x c ne e = rw (ne→== y node ne, e) refl

module _ {K : Type 0} (key : ℕ → K) where
  -- What is left at the end.
  pub record Finished (t3 : Rb K) (label : ℕ → ℕ) (fuel x : ℕ) (c : Colour) (whole : Tree)
      : Type 0 where
    pub out : Rb K
    pub tree : Tree
    pub runs : finish t3 fuel x c ≡ some out
    pub at : IsAt key label out top tree
    pub balanced : IsBalanced tree
    pub same : inorder tree ≡ inorder whole
    pub size : out.size ≡ t3.size

  pub finish-Finished :
      (label : ℕ → ℕ) (d : Side) (c : Colour) (t3 : Rb K) (fuel h y : ℕ) (path : Way) (x : Tree)
      → depth path < fuel
      → IsAt key label t3 path x
      → IsSeen t3 (parent_of path) x
      → Balanced h (fork_at d c x y tip)
      → BalancedWay h path
      → IsBlack (fork_at d c x y tip) ⊎ IsBlackStep path
      → Finished t3 label fuel (root_of x) c (plug path x)
  unfolding finish
  finish-Finished label d red t3 fuel h y path x lt at seen hb hp room =
      let (bx, bt, hx, ht) = red-Balanced d h x y tip hb in
      record {
        out = t3;
        tree = plug path x;
        runs = refl;
        at = rise_all key label t3 path x at;
        balanced = plug-IsBalanced h path x hp hx (inl bx);
        same = refl;
        size = refl;
      }
  finish-Finished label d black t3 fuel h y path x lt at seen hb hp room =
      let (m, e, hx, ht) = black_parts d h x y tip hb in
      let f : Mended key label t3 fuel (root_of x) (plug path x) =
        fix_delete-Mended key label t3 fuel m path x lt at seen (Balanced-Almost m x hx)
          (subst (λ k. BalancedWay k path) e hp) in
      record {
        out = f.out;
        tree = f.tree;
        runs = f.runs;
        at = f.at;
        balanced = f.balanced;
        same = f.same;
        size = f.size;
      }

  pub emptied-old : (t : Rb K) (m : ℕ) → 0 ≢ m → (emptied t).nodes m ≡ t.nodes m
  unfolding emptied
  emptied-old t m h = rw (ne→== 0 m h) refl

  pub emptied_self : (t : Rb K) → ((emptied t).nodes 0).s ≡ 0
  unfolding emptied
  emptied_self t = refl

  pub emptied-color : (t : Rb K) → is_red ((emptied t).nodes 0).color ≡ false
  unfolding emptied
  emptied-color t = refl

  emptied-root : (t : Rb K) → (emptied t).root ≡ t.root
  unfolding emptied
  emptied-root t = refl

  pub emptied-size : (t : Rb K) (k : ℕ) → t.size ≡ suc k → t.size < 2 ^ 32 → (emptied t).size ≡ k
  unfolding emptied
  emptied-size t k e h = omega (arith, e, h)

  pub emptied-IsAt :
      (label : ℕ → ℕ) (t : Rb K) (tree : Tree)
      → IsAt key label t top tree
      → IsAt key label (emptied t) top tree
  emptied-IsAt label t tree at = record {
    lo = at.lo;
    hi = at.hi;
    stores =
        Stores-frame key t (emptied t) 0 tree
          (All-map (λ n. 0 ≢ n) (λ n. (emptied t).nodes n ≡ t.nodes n) tree (emptied-old t)
            (nonzero key t 0 tree at.stores))
          at.stores;
    around = emptied-root t ∙ at.around;
    within = at.within;
    outside = tt;
  }

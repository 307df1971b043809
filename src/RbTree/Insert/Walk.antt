-- ===== src/RbTree/Insert/Walk.antt =====
-- The walk of rbtree_insert of src/rbtree.h down to a gap.
use shmmalloc.Base.{
  ℕ, zero, suc, ◌<◌, ◌≡◌, ◌≢◌, refl, ◌∙◌, ◌⊎◌, inl, inr, true, false, some, arith, subst, ne→==,
  Bool-cases,
}
use shmmalloc.RbTree.{Sign, is_negative, Colour, red, black, Rb}
use shmmalloc.RbTree.Side.{lft, rgt}
use shmmalloc.RbTree.Ghost.{Tree, tip, fork, Way, top, step, root_of, parent_of, plug, count, cell}
use shmmalloc.RbTree.Update.{insert_walk}
use shmmalloc.RbTree.Balance.{IsBlack, IsBlackStep, Balanced, BalancedWay}
use shmmalloc.RbTree.Turn.{IsAt}
use shmmalloc.RbTree.Zipper.{descend}

-- The children of a node, as what lies below a gap and around one.
record Parts (m : ℕ) (c : Colour) (path : Way) (l : Tree) (x : ℕ) (r : Tree) : Type 0 where
  left : Balanced m l
  right : Balanced m r
  at_left : BalancedWay m (step lft c path x r)
  at_right : BalancedWay m (step rgt c path x l)
  room_left : IsBlack l ⊎ IsBlackStep (step lft c path x r)
  room_right : IsBlack r ⊎ IsBlackStep (step rgt c path x l)

parts :
    (h : ℕ) (c : Colour) (path : Way) (l : Tree) (x : ℕ) (r : Tree)
    → Balanced h (fork c l x r)
    → BalancedWay h path
    → IsBlack (fork c l x r) ⊎ IsBlackStep path
    → (m : ℕ) × Parts m c path l x r
parts h red path l x r hb hp (inl bad) = absurd bad
parts h red path l x r (bl, br, hl, hr) hp (inr bs) = (
  h,
  record {
    left = hl;
    right = hr;
    at_left = (br, hr, bs, hp);
    at_right = (bl, hl, bs, hp);
    room_left = inl bl;
    room_right = inl br;
  },
)
parts h black path l x r (m, e, hl, hr) hp room = (
  m,
  record {
    left = hl;
    right = hr;
    at_left = (hr, subst (λ n. BalancedWay n path) e hp);
    at_right = (hl, subst (λ n. BalancedWay n path) e hp);
    room_left = inr tt;
    room_right = inr tt;
  },
)

module _ {K : Type 0} (cmp : K → K → Sign) (key : ℕ → K) where
  -- The way up goes to the right of the nodes below `val`, and to the left of the others.
  abbrev pub Chosen : K → Way → Type 0
  Chosen val top = Unit
  Chosen val (step lft c up x other) = (is_negative (cmp (key x) val) ≡ false) × Chosen val up
  Chosen val (step rgt c up x other) = (is_negative (cmp (key x) val) ≡ true) × Chosen val up

  -- The walk ends under the last node of a way down to a gap of the tree `whole`.
  pub record Landed (label : ℕ → ℕ) (t : Rb K) (val : K) (fuel node pnode : ℕ) (whole : Tree)
      : Type 0 where
    pub path : Way
    pub lands : insert_walk cmp fuel t val node pnode ≡ some (parent_of path)
    pub at : IsAt key label t path tip
    pub same : plug path tip ≡ whole
    pub chosen : Chosen val path
    pub balanced : BalancedWay 0 path

  walk_end :
      (fuel : ℕ) (t : Rb K) (val : K) (node : ℕ)
      → insert_walk cmp (suc fuel) t val node 0 ≡ some node
  unfolding insert_walk
  walk_end fuel t val node = refl

  walk_left :
      (fuel : ℕ) (t : Rb K) (val : K) (node p : ℕ) (c : Colour) (x l r : ℕ)
      → x ≢ 0
      → t.nodes x ≡ cell key p c x l r
      → is_negative (cmp (key x) val) ≡ false
      → insert_walk cmp (suc fuel) t val node x ≡ insert_walk cmp fuel t val x l
  unfolding insert_walk
  walk_left fuel t val node p c x l r nx cx e = rw (ne→== x 0 nx, cx, e) refl

  walk_right :
      (fuel : ℕ) (t : Rb K) (val : K) (node p : ℕ) (c : Colour) (x l r : ℕ)
      → x ≢ 0
      → t.nodes x ≡ cell key p c x l r
      → is_negative (cmp (key x) val) ≡ true
      → insert_walk cmp (suc fuel) t val node x ≡ insert_walk cmp fuel t val x r
  unfolding insert_walk
  walk_right fuel t val node p c x l r nx cx e = rw (ne→== x 0 nx, cx, e) refl

  one_more :
      (label : ℕ → ℕ) (t : Rb K) (val : K) (fuel node pnode node2 pnode2 : ℕ) (whole : Tree)
      → insert_walk cmp (suc fuel) t val node pnode ≡ insert_walk cmp fuel t val node2 pnode2
      → Landed label t val fuel node2 pnode2 whole
      → Landed label t val (suc fuel) node pnode whole
  one_more label t val fuel node pnode node2 pnode2 whole e rest = record {
    path = rest.path;
    lands = e ∙ rest.lands;
    at = rest.at;
    same = rest.same;
    chosen = rest.chosen;
    balanced = rest.balanced;
  }

  pub insert_walk-Landed :
      (label : ℕ → ℕ) (t : Rb K) (val : K) (fuel h : ℕ) (path : Way) (tree : Tree)
      → count tree < fuel
      → IsAt key label t path tree
      → Balanced h tree
      → BalancedWay h path
      → IsBlack tree ⊎ IsBlackStep path
      → Chosen val path
      → Landed label t val fuel (parent_of path) (root_of tree) (plug path tree)
  insert_walk-Landed label t val zero h path tree lt at hb hp room chosen =
      absurd (omega (arith, lt))
  insert_walk-Landed label t val (suc fuel) h path tip lt at hb hp room chosen = record {
    path = path;
    lands = walk_end fuel t val (parent_of path);
    at = at;
    same = refl;
    chosen = chosen;
    balanced = subst (λ n. BalancedWay n path) hb hp;
  }
  insert_walk-Landed label t val (suc fuel) h path (fork c l x r) lt at hb hp room chosen =
      let (m, part) = parts h c path l x r hb hp room in
      let (nx, cx, sl, sr) = at.stores in
      let whole = plug path (fork c l x r) in
      elim (Bool-cases (is_negative (cmp (key x) val))) [
        | inl below ↦
            one_more label t val fuel (parent_of path) x x (root_of r) whole
              (walk_right fuel t val (parent_of path) _ c x _ _ nx cx below)
              (insert_walk-Landed label t val fuel m (step rgt c path x l) r (omega (arith, lt))
                (descend key label rgt c t path x r l at) part.right part.at_right part.room_right
                (below, chosen))
        | inr above ↦
            one_more label t val fuel (parent_of path) x x (root_of l) whole
              (walk_left fuel t val (parent_of path) _ c x _ _ nx cx above)
              (insert_walk-Landed label t val fuel m (step lft c path x r) l (omega (arith, lt))
                (descend key label lft c t path x l r at) part.left part.at_left part.room_left
                (above, chosen))
      ]

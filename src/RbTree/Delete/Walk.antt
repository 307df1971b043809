-- ===== src/RbTree/Delete/Walk.antt =====
-- The walk of rbtree_delete of src/rbtree.h to the successor, down the left children.
use shmmalloc.Base.{
  ℕ, zero, suc, ◌≤◌, ◌≡◌, ◌≢◌, refl, ap, ◌∙◌, ◌⊎◌, inl, inr, arith, some, subst, ne→==, ◌∷◌, ◌++◌,
}
use shmmalloc.RbTree.{Colour, red, black, Rb, rbtree_min_node}
use shmmalloc.RbTree.Side.{Side, lft, rgt}
use shmmalloc.RbTree.Ghost.{
  Tree, tip, fork, Way, top, step, root_of, parent_of, fork_at, plug, inorder, count, All, AllWay,
  Stores,
}
use shmmalloc.RbTree.Balance.{
  IsBlack, IsBlackStep, Balanced, IsBalanced, BalancedWay, red-Balanced, depth,
}
use shmmalloc.RbTree.Turn.{IsAt}
use shmmalloc.RbTree.Zipper.{rise, descend}

-- The nodes passed, from the first one on, with their right children.
pub data Spine : Type 0 where
  end : Spine
  lower : Colour → ℕ → Tree → Spine → Spine

abbrev pub close : Spine → Tree → Tree
close end tree = tree
close (lower c x other s) tree = fork c (close s tree) x other

abbrev pub under : Spine → Way → Way
under end way = way
under (lower c x other s) way = under s (step lft c way x other)

pub plug-under :
    (s : Spine) (way : Way) (tree : Tree) → plug (under s way) tree ≡ plug way (close s tree)
plug-under end way tree = refl
plug-under (lower c x other s) way tree = plug-under s (step lft c way x other) tree

pub inorder-close :
    (s : Spine) (c : Colour) (y : ℕ) (r : Tree)
    → inorder (close s (fork c tip y r)) ≡ y ∷ inorder (close s r)
inorder-close end c y r = refl
inorder-close (lower c2 x other s) c y r =
    ap (λ l. l ++ (x ∷ inorder other)) (inorder-close s c y r)

pub AllWay-under :
    (P : ℕ → Type 0) (s : Spine) (way : Way) (tree : Tree)
    → AllWay P (under s way)
    → All P tree
    → AllWay P way × All P (close s tree)
AllWay-under P end way tree h a = (h, a)
AllWay-under P (lower c x other s) way tree h a =
    let ((px, po, hw), ac) = AllWay-under P s (step lft c way x other) tree h a in
    (hw, (px, ac, po))

pub way_under : (P : ℕ → Type 0) (s : Spine) (way : Way) → AllWay P (under s way) → AllWay P way
way_under P end way h = h
way_under P (lower c x other s) way h =
    let (px, po, hw) = way_under P s (step lft c way x other) h in hw

-- The parent at the end of a spine is a node of the tree around it.
pub parent_under :
    (P : ℕ → Type 0) (s : Spine) (way : Way) (tree : Tree)
    → P (parent_of way)
    → All P (close s tree)
    → P (parent_of (under s way))
parent_under P end way tree h a = h
parent_under P (lower c x other s) way tree h (px, a, ao) =
    parent_under P s (step lft c way x other) tree px a

-- It does not depend on the way above the spine.
pub same_parent :
    (s : Spine) (way way2 : Way)
    → parent_of way ≡ parent_of way2
    → parent_of (under s way) ≡ parent_of (under s way2)
same_parent end way way2 e = e
same_parent (lower c x other s) way way2 e =
    same_parent s (step lft c way x other) (step lft c way2 x other) refl

pub depth-under :
    (s : Spine) (way way2 : Way)
    → depth way ≡ depth way2
    → depth (under s way) ≡ depth (under s way2)
depth-under end way way2 e = e
depth-under (lower c x other s) way way2 e =
    depth-under s (step lft c way x other) (step lft c way2 x other) (ap suc e)

-- Ways with the same colours are balanced alike.
pub BalancedWay-under :
    (s : Spine) (way way2 : Way) (n : ℕ)
    → ((m : ℕ) → BalancedWay m way → BalancedWay m way2)
    → (IsBlackStep way → IsBlackStep way2)
    → BalancedWay n (under s way)
    → BalancedWay n (under s way2)
BalancedWay-under end way way2 n f g h = f n h
BalancedWay-under (lower red x other s) way way2 n f g h =
    BalancedWay-under s (step lft red way x other) (step lft red way2 x other) n
      (λ m (bo, ho, bs, hw). (bo, ho, g bs, f m hw)) (λ b. b) h
BalancedWay-under (lower black x other s) way way2 n f g h =
    BalancedWay-under s (step lft black way x other) (step lft black way2 x other) n
      (λ m (ho, hw). (ho, f (suc m) hw)) (λ b. b) h

pub black_under :
    (s : Spine) (way way2 : Way)
    → (IsBlackStep way → IsBlackStep way2)
    → IsBlackStep (under s way)
    → IsBlackStep (under s way2)
black_under end way way2 f h = f h
black_under (lower red x other s) way way2 f h =
    black_under s (step lft red way x other) (step lft red way2 x other) (λ b. b) h
black_under (lower black x other s) way way2 f h =
    black_under s (step lft black way x other) (step lft black way2 x other) (λ b. b) h

pub black_parts :
    (d : Side) (n : ℕ) (a : Tree) (x : ℕ) (b : Tree)
    → Balanced n (fork_at d black a x b)
    → (m : ℕ) × (n ≡ suc m) × Balanced m a × Balanced m b
black_parts lft n a x b h = h
black_parts rgt n a x b (m, e, hb, ha) = (m, e, ha, hb)

red_not_black : (d : Side) (a : Tree) (x : ℕ) (b : Tree) → IsBlack (fork_at d red a x b) → ⊥
red_not_black lft a x b h = h
red_not_black rgt a x b h = h

-- A balanced tree by one of its subtrees and the way up from it.
pub unplug-Balanced :
    (path : Way) (tree : Tree)
    → IsBalanced (plug path tree)
    → (n : ℕ) × Balanced n tree × BalancedWay n path × (IsBlack tree ⊎ IsBlackStep path)
unplug-Balanced top tree (b, (n, h)) = (n, h, tt, inl b)
unplug-Balanced (step d red up x other) tree h =
    let (n, hb, hw, room) = unplug-Balanced up (fork_at d red tree x other) h in
    let (bt, bo, ht, ho) = red-Balanced d n tree x other hb in
    elim room [
      | inl bad ↦ absurd (red_not_black d tree x other bad)
      | inr bs ↦ (n, ht, (bo, ho, bs, hw), inl bt)
    ]
unplug-Balanced (step d black up x other) tree h =
    let (n, hb, hw, room) = unplug-Balanced up (fork_at d black tree x other) h in
    let (m, e, ht, ho) = black_parts d n tree x other hb in
    (m, ht, (ho, subst (λ k. BalancedWay k up) e hw), inr tt)

module _ {K : Type 0} (key : ℕ → K) where
  min_here :
      (fuel : ℕ) (t : Rb K) (x : ℕ) → (t.nodes x).left ≡ 0 → rbtree_min_node (suc fuel) t x ≡ some x
  unfolding rbtree_min_node
  min_here fuel t x e = rw e refl

  min_left :
      (fuel : ℕ) (t : Rb K) (x l : ℕ)
      → (t.nodes x).left ≡ l
      → l ≢ 0
      → rbtree_min_node (suc fuel) t x ≡ rbtree_min_node fuel t l
  unfolding rbtree_min_node
  min_left fuel t x l e nz = rw (e, ne→== l 0 nz) refl

  -- The least node of a tree: the end of its left spine.
  pub record Least (fuel : ℕ) (t : Rb K) (x : ℕ) (tree : Tree) : Type 0 where
    pub spine : Spine
    pub color : Colour
    pub node : ℕ
    pub right : Tree
    pub finds : rbtree_min_node fuel t x ≡ some node
    pub is : tree ≡ close spine (fork color tip node right)
    pub child : (t.nodes node).right ≡ root_of right

  pub min_node-Least :
      (fuel : ℕ) (t : Rb K) (p : ℕ) (c : Colour) (l : Tree) (x : ℕ) (r : Tree)
      → count (fork c l x r) ≤ fuel
      → Stores key t p (fork c l x r)
      → Least fuel t x (fork c l x r)
  min_node-Least zero t p c l x r le h = absurd (omega (arith, le))
  min_node-Least (suc fuel) t p c tip x r le (nx, cx, hl, hr) = record {
    spine = end;
    color = c;
    node = x;
    right = r;
    finds = min_here fuel t x (ap (λ n. n.left) cx);
    is = refl;
    child = ap (λ n. n.right) cx;
  }
  min_node-Least (suc fuel) t p c (fork c2 ll y lr) x r le (nx, cx, hl, hr) =
      let rest = min_node-Least fuel t x c2 ll y lr (omega (arith, le)) hl in
      record {
        spine = lower c x r rest.spine;
        color = rest.color;
        node = rest.node;
        right = rest.right;
        finds = min_left fuel t x y (ap (λ n. n.left) cx) hl.0 ∙ rest.finds;
        is = ap (λ s. fork c s x r) rest.is;
        child = rest.child;
      }

  pub descend_spine :
      (label : ℕ → ℕ) (t : Rb K) (s : Spine) (way : Way) (tree : Tree)
      → IsAt key label t way (close s tree)
      → IsAt key label t (under s way) tree
  descend_spine label t end way tree at = at
  descend_spine label t (lower c x other s) way tree at =
      descend_spine label t s (step lft c way x other) tree
        (descend key label lft c t way x (close s tree) other at)

  pub rise_spine :
      (label : ℕ → ℕ) (t : Rb K) (s : Spine) (way : Way) (tree : Tree)
      → IsAt key label t (under s way) tree
      → IsAt key label t way (close s tree)
  rise_spine label t end way tree at = at
  rise_spine label t (lower c x other s) way tree at =
      rise key label lft c t way x (close s tree) other
        (rise_spine label t s (step lft c way x other) tree at)

  -- From the root down to a place.
  pub descend_all :
      (label : ℕ → ℕ) (t : Rb K) (path : Way) (tree : Tree)
      → IsAt key label t top (plug path tree)
      → IsAt key label t path tree
  descend_all label t top tree at = at
  descend_all label t (step d c up x other) tree at =
      descend key label d c t up x tree other (descend_all label t up (fork_at d c tree x other) at)

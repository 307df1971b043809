-- ===== src/RbTree/Turn.antt =====
-- The rotations of src/rbtree.h on the trees of RbTree/Ghost.
pub mod Free
pub mod Distinct
pub mod Cells
use shmmalloc.Base.{
  ℕ, suc, ◌≤◌, ◌<◌, ◌≡◌, ◌≢◌, refl, sym, ap, ◌∙◌, List, ◌∷◌, ◌++◌, append_assoc, subst,
}
use shmmalloc.RbTree.{Colour, Rb}
use shmmalloc.RbTree.Side.{Side, lft, rgt, opposite, child, with_child, rotate}
use shmmalloc.RbTree.Rotate.Parts.{with_p}
use shmmalloc.RbTree.Rotate.{IsTurn, Rotated, rotate-Rotated}
use shmmalloc.RbTree.Ghost.{
  Tree, Way, top, step, root_of, parent_of, fork_at, inorder, cell_at, Stores, Around, Within,
  Outside,
}
use shmmalloc.RbTree.Ghost.Frame.{Stores-fork_at, fork_at-Stores}
use Distinct.{Apart, Apart-of}
use Cells.{
  child-near, child-far, s-cell, p-cell, cell-down, cell-up, Free-Stores, FreeBelow-Stores,
  Around-turn, parent_self,
}

-- The memory holds a tree and the way up from it, and no node stands there twice.
pub record IsAt {K : Type 0} (key : ℕ → K) (label : ℕ → ℕ) (t : Rb K) (path : Way) (tree : Tree)
    : Type 0 where
  pub lo : ℕ
  pub hi : ℕ
  pub stores : Stores key t (parent_of path) tree
  pub around : Around key t path (root_of tree)
  pub within : Within label lo hi tree
  pub outside : Outside label lo hi path

pub root-fork_at :
    (d : Side) (c : Colour) (a : Tree) (x : ℕ) (b : Tree) → root_of (fork_at d c a x b) ≡ x
root-fork_at lft c a x b = refl
root-fork_at rgt c a x b = refl

Within-turn :
    (d : Side) (label : ℕ → ℕ) (lo hi : ℕ) (c1 c2 : Colour) (a : Tree) (x : ℕ) (b : Tree) (y : ℕ)
    (e : Tree)
    → Within label lo hi (fork_at d c1 a x (fork_at d c2 b y e))
    → Within label lo hi (fork_at d c2 (fork_at d c1 a x b) y e)
Within-turn lft label lo hi c1 c2 a x b y e (wa, (wb, we)) = ((wa, wb), we)
Within-turn rgt label lo hi c1 c2 a x b y e ((we, wb), wa) = (we, (wb, wa))

pub inorder-turn :
    (d : Side) (c1 c2 c3 c4 : Colour) (a : Tree) (x : ℕ) (b : Tree) (y : ℕ) (e : Tree)
    → inorder (fork_at d c3 (fork_at d c4 a x b) y e)
      ≡ inorder (fork_at d c1 a x (fork_at d c2 b y e))
inorder-turn lft c1 c2 c3 c4 a x b y e = append_assoc (inorder a) (x ∷ inorder b) (y ∷ inorder e)
inorder-turn rgt c1 c2 c3 c4 a x b y e =
    sym (append_assoc (inorder e) (y ∷ inorder b) (x ∷ inorder a))

module _ {K : Type 0} (key : ℕ → K) (label : ℕ → ℕ) where
  -- A rotation to the side `d` of the node `x` in a tree, where the child `y` of `x` away from that
  -- side is a node, re-associates the two: the memory then holds the tree with `y` above `x` at the
  -- same place, all child, parent and self links, keys and colours as they should be, and every
  -- other node of the whole tree as it was; the size stays.
  pub rotate-IsAt :
      (d : Side) (t : Rb K) (path : Way) (c1 c2 : Colour) (a : Tree) (x : ℕ) (b : Tree) (y : ℕ)
      (e : Tree)
      → IsAt key label t path (fork_at d c1 a x (fork_at d c2 b y e))
      → IsAt key label (rotate d t x) path (fork_at d c2 (fork_at d c1 a x b) y e)
        × ((rotate d t x).size ≡ t.size)
  rotate-IsAt d t path c1 c2 a x b y e at =
      let q = parent_of path in
      let z = root_of b in
      let out = rotate d t x in
      let ye = root-fork_at d c2 b y e in
      let inner = fork_at d c2 b y e in
      let ye : root_of inner ≡ y = root-fork_at d c2 b y e in
      let (nx, cx, sa, sy) = Stores-fork_at key d t q c1 a x inner at.stores in
      let (ny, cy, sb, se) = Stores-fork_at key d t x c2 b y e sy in
      let xe : root_of (fork_at d c1 a x inner) ≡ x = root-fork_at d c1 a x inner in
      let hp : Around key t path x = subst (λ g. Around key t path g) xe at.around in
      let cxy : t.nodes x ≡ cell_at key d q c1 x (root_of a) y =
        cx ∙ ap (λ r. cell_at key d q c1 x (root_of a) r) ye in
      let apart : Apart x y z path a b e =
        Apart-of key d t label path c1 c2 a x b y e y y at.lo at.hi x hp nx ny sa sb se at.within
          at.outside in
      let turn : IsTurn d t x y z q = record {
        outer = ap (child (opposite d)) cxy ∙ child-far key d _ _ _ _ _;
        inner = ap (child d) cy ∙ child-near key d _ _ _ _ _;
        parent = ap (λ n. n.p) cxy ∙ p-cell key d _ _ _ _ _;
        self_x = ap (λ n. n.s) cxy ∙ s-cell key d _ _ _ _ _;
        self_y = ap (λ n. n.s) cy ∙ s-cell key d _ _ _ _ _;
        self_q = parent_self key t path x hp;
        xy = apart.xy;
        zx = apart.zx;
        zy = apart.zy;
        qx = apart.qx;
        qy = apart.qy;
        zq = apart.zq;
      } in
      let rot : Rotated d t x y z q out = rotate-Rotated d t x y z q turn in
      let outer = fork_at d c1 a x b in
      let new_x : out.nodes x ≡ cell_at key d y c1 x (root_of a) z =
        rot.at_x
        ∙ ap (λ n. with_p y (with_child (opposite d) z n)) cxy
        ∙ cell-down key d _ _ _ _ _ _ in
      let new_y : out.nodes y ≡ cell_at key d q c2 y x (root_of e) =
        rot.at_y ∙ ap (λ n. with_p q (with_child d x n)) cy ∙ cell-up key d _ _ _ _ _ _ in
      let below : Stores key out y outer =
        fork_at-Stores key d out y c1 a x b nx new_x
          (Free-Stores key d t out x y z q x a rot apart.free_a sa)
          (FreeBelow-Stores key d t out x y q b rot apart.free_b sb) in
      let whole : Stores key out q (fork_at d c2 outer y e) =
        fork_at-Stores key d out q c2 outer y e ny
          (new_y ∙ ap (λ r. cell_at key d q c2 y r (root_of e)) (sym (root-fork_at d c1 a x b)))
          below (Free-Stores key d t out x y z q y e rot apart.free_e se) in
      (
        record {
          lo = at.lo;
          hi = at.hi;
          stores = whole;
          around =
              subst (λ g. Around key out path g) (sym (root-fork_at d c2 outer y e))
                (Around-turn key d t out x y z path nx rot apart.free_up hp);
          within = Within-turn d label at.lo at.hi c1 c2 a x b y e at.within;
          outside = at.outside;
        },
        rot.size,
      )

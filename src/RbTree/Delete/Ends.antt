-- ===== src/RbTree/Delete/Ends.antt =====
-- The loop of rbtree_fix_delete of src/rbtree.h: its ends, and what its rounds read.
use shmmalloc.Base.{ℕ, suc, ◌≡◌, ◌≢◌, refl, sym, ap, ◌∙◌, ◌⊎◌, inl, inr, Bool, false, some}
use shmmalloc.RbTree.{Colour, red, black, Rb, set_color, is_red}
use shmmalloc.RbTree.Side.{Side, lft, rgt}
use shmmalloc.RbTree.Ghost.{
  Tree, tip, fork, Way, top, step, root_of, fork_at, plug, inorder, Stores,
}
use shmmalloc.RbTree.Ghost.Frame.{Stores-fork_at}
use shmmalloc.RbTree.Update.{Round, go_on, fix_delete_round, rbtree_fix_delete}
use shmmalloc.RbTree.Balance.{
  IsRed, IsBlack, Balanced, IsBalanced, BalancedWay, plug-IsBalanced, plug-inorder,
}
use shmmalloc.RbTree.Turn.{IsAt, root-fork_at}
use shmmalloc.RbTree.Turn.Cells.{color-cell}
use shmmalloc.RbTree.Zipper.{rise, rise_all, recolour, near-far}
use shmmalloc.RbTree.Delete.Round.{
  rest_of_round, round_at, black_sibling, fix_delete-stop, fix_delete-red, fix_delete-go_on,
  fix_delete-break,
}
use shmmalloc.RbTree.Delete.Moves.{blackened}
use shmmalloc.RbTree.Delete.Cases.{Ends, Links, links}

-- Balanced, but for a red root with red children.
abbrev pub Almost : ℕ → Tree → Type 0
Almost n tip = n ≡ 0
Almost n (fork red l x r) = Balanced n l × Balanced n r
Almost n (fork black l x r) = Balanced n (fork black l x r)

pub Balanced-Almost : (n : ℕ) (tree : Tree) → Balanced n tree → Almost n tree
Balanced-Almost n tip h = h
Balanced-Almost n (fork red l x r) (bl, br, hl, hr) = (hl, hr)
Balanced-Almost n (fork black l x r) h = h

pub Almost-red :
    (d : Side) (n : ℕ) (a : Tree) (x : ℕ) (b : Tree)
    → Balanced n a
    → Balanced n b
    → Almost n (fork_at d red a x b)
Almost-red lft n a x b ha hb = (ha, hb)
Almost-red rgt n a x b ha hb = (hb, ha)

pub Almost-black :
    (d : Side) (n : ℕ) (a : Tree) (x : ℕ) (b : Tree)
    → Balanced n a
    → Balanced n b
    → Almost (suc n) (fork_at d black a x b)
Almost-black lft n a x b ha hb = (n, refl, ha, hb)
Almost-black rgt n a x b ha hb = (n, refl, hb, ha)

pub black-Almost : (n : ℕ) (tree : Tree) → IsBlack tree → Almost n tree → Balanced n tree
black-Almost n tip b h = h
black-Almost n (fork red l x r) b h = absurd b
black-Almost n (fork black l x r) b h = h

pub either_colour : (tree : Tree) → IsRed tree ⊎ IsBlack tree
either_colour tip = inr tt
either_colour (fork red l x r) = inl tt
either_colour (fork black l x r) = inr tt

abbrev pub red_root : Tree → Bool
red_root tip = false
red_root (fork c l x r) = is_red c

red_root-black : (tree : Tree) → IsBlack tree → red_root tree ≡ false
red_root-black tip b = refl
red_root-black (fork red l x r) b = absurd b
red_root-black (fork black l x r) b = refl

-- What the code reads of the node at the root of the tree, which may be the one at 0.
pub record IsSeen {K : Type 0} (t : Rb K) (parent : ℕ) (tree : Tree) : Type 0 where
  pub p : (t.nodes (root_of tree)).p ≡ parent
  pub self : (t.nodes (root_of tree)).s ≡ root_of tree
  pub color : is_red (t.nodes (root_of tree)).color ≡ red_root tree

-- rbtree_fix_delete returns, and the memory then holds a balanced tree with the positions of
-- `whole` in their order.
pub record Mended {K : Type 0} (key : ℕ → K) (label : ℕ → ℕ) (t : Rb K) (fuel node : ℕ)
    (whole : Tree) : Type 0 where
  pub out : Rb K
  pub tree : Tree
  pub runs : rbtree_fix_delete fuel t node ≡ some out
  pub at : IsAt key label out top tree
  pub balanced : IsBalanced tree
  pub same : inorder tree ≡ inorder whole
  pub size : out.size ≡ t.size

module _ {K : Type 0} (key : ℕ → K) (label : ℕ → ℕ) where
  pub IsSeen-fork :
      (d : Side) (c : Colour) (t : Rb K) (p : ℕ) (a : Tree) (x : ℕ) (b : Tree)
      → Stores key t p (fork_at d c a x b)
      → IsSeen t p (fork_at d c a x b)
  IsSeen-fork lft c t p a x b (nx, cx, sa, sb) = record {
    p = ap (λ n. n.p) cx;
    self = ap (λ n. n.s) cx;
    color = ap (λ n. is_red n.color) cx;
  }
  IsSeen-fork rgt c t p a x b (nx, cx, sa, sb) = record {
    p = ap (λ n. n.p) cx;
    self = ap (λ n. n.s) cx;
    color = ap (λ n. is_red n.color) cx;
  }

  -- At a red node the loop ends with a new black node.
  pub red_end :
      (t : Rb K) (fuel h : ℕ) (path : Way) (tree : Tree)
      → IsAt key label t path tree
      → IsRed tree
      → Almost h tree
      → BalancedWay (suc h) path
      → Mended key label t (suc fuel) (root_of tree) (plug path tree)
  red_end t fuel h path tip at is_red_tree hx hp = absurd is_red_tree
  red_end t fuel h path (fork black l x r) at is_red_tree hx hp = absurd is_red_tree
  red_end t fuel h path (fork red l x r) at is_red_tree (hl, hr) hp =
      let (nx, cx, sl, sr) = at.stores in
      record {
        out = set_color t x black;
        tree = plug path (fork black l x r);
        runs = fix_delete-red fuel t x (ap (λ n. is_red n.color) cx);
        at =
            rise_all key label (set_color t x black) path (fork black l x r)
              (recolour key label lft t path red black l x r at);
        balanced = plug-IsBalanced (suc h) path (fork black l x r) hp (h, refl, hl, hr) (inl tt);
        same = plug-inorder path (fork black l x r) (fork red l x r) refl;
        size = refl;
      }

  pub top_end :
      (t : Rb K) (fuel h : ℕ) (tree : Tree)
      → IsAt key label t top tree
      → IsSeen t 0 tree
      → IsBlack tree
      → Balanced h tree
      → Mended key label t (suc fuel) (root_of tree) tree
  top_end t fuel h tree at seen b hx = record {
    out = set_color t (root_of tree) black;
    tree = tree;
    runs = fix_delete-stop fuel t (root_of tree) seen.p;
    at = blackened key label t top tree b at;
    balanced = (b, (h, hx));
    same = refl;
    size = refl;
  }

  pub broken :
      (t t1 : Rb K) (fuel p : ℕ) (x whole whole1 : Tree) (round : Round K)
      → IsSeen t p x
      → p ≢ 0
      → IsBlack x
      → fix_delete_round t (root_of x) ≡ round
      → inorder whole1 ≡ inorder whole
      → t1.size ≡ t.size
      → Ends key label t1 whole1 x round
      → Mended key label t (suc fuel) (root_of x) whole
  broken t t1 fuel p x whole whole1 round seen np b e same size f = record {
    out = set_color f.out (root_of x) black;
    tree = plug f.way x;
    runs =
        fix_delete-break fuel t (root_of x) p f.out seen.p np (seen.color ∙ red_root-black x b)
          (e ∙ f.is);
    at =
        rise_all key label (set_color f.out (root_of x) black) f.way x
          (blackened key label f.out f.way x b f.at);
    balanced = f.balanced;
    same = f.same ∙ same;
    size = f.size ∙ size;
  }

  pub gone_on :
      (t t2 : Rb K) (fuel p : ℕ) (x whole whole2 : Tree)
      → IsSeen t p x
      → p ≢ 0
      → IsBlack x
      → fix_delete_round t (root_of x) ≡ go_on t2 p
      → inorder whole2 ≡ inorder whole
      → t2.size ≡ t.size
      → Mended key label t2 fuel p whole2
      → Mended key label t (suc fuel) (root_of x) whole
  gone_on t t2 fuel p x whole whole2 seen np b e same size f = record {
    out = f.out;
    tree = f.tree;
    runs =
        fix_delete-go_on fuel t (root_of x) p t2 p seen.p np (seen.color ∙ red_root-black x b) e
        ∙ f.runs;
    at = f.at;
    balanced = f.balanced;
    same = f.same ∙ same;
    size = f.size ∙ size;
  }

  -- The sibling is another node.
  sibling_ne :
      (d : Side) (c cw : Colour) (t : Rb K) (up : Way) (p : ℕ) (near : Tree) (w : ℕ) (far x : Tree)
      → IsAt key label t (step d c up p (fork_at d cw near w far)) x
      → w ≢ root_of x
  sibling_ne d c cw t up p near w far tip at e =
      let (np, cp, sw, hu) = at.around in
      let (nw, cellw, sn, sf) = Stores-fork_at key d t p cw near w far sw in nw e
  sibling_ne d c cw t up p near w far (fork cx l x r) at e =
      near-far key label d t up c (fork cx l x r) p (fork_at d cw near w far)
        (rise key label d c t up p (fork cx l x r) (fork_at d cw near w far) at) at.stores.0
        (root-fork_at d cw near w far ∙ e)

  pub round_from :
      (d : Side) (c cw : Colour) (t : Rb K) (up : Way) (p : ℕ) (near : Tree) (w : ℕ) (far x : Tree)
      → IsAt key label t (step d c up p (fork_at d cw near w far)) x
      → IsSeen t p x
      → (fix_delete_round t (root_of x) ≡ rest_of_round d (black_sibling d t p) p)
        × (is_red (t.nodes w).color ≡ is_red cw)
  round_from d c cw t up p near w far x at seen =
      let (np, cp, sw, hu) = at.around in
      let (nw, cellw, sn, sf) = Stores-fork_at key d t p cw near w far sw in
      let link : Links key label d c t p near w far x =
        links key label d c cw t up p near w far x at in
      (
        round_at d t (root_of x) p seen.p seen.self link.node
            (λ e. sibling_ne d c cw t up p near w far x at (sym link.sibling ∙ e)),
        ap (λ n. is_red n.color) cellw ∙ ap is_red (color-cell key d _ _ _ _ _),
      )

-- ===== src/RbTree/Insert.antt =====
-- rbtree_insert of src/rbtree.h on the trees of RbTree/Ghost, as a whole.
pub mod Round
pub mod Moves
pub mod Turns
pub mod Loop
pub mod Walk
pub mod Attach
pub mod Order
pub mod Start
use shmmalloc.Base.{
  ℕ, zero, suc, ◌+◌, ◌^◌, ◌≤◌, ◌<◌, ◌≡◌, ◌≢◌, refl, sym, ap, ◌∙◌, inl, inr, arith, subst, some,
  List, [], ◌∷◌, ◌++◌, length, ne→==, eq→==, ◌==◌, if◌then◌else◌,
}
use shmmalloc.RbTree.{Sign, Colour, red, black, Rb, set_color}
use shmmalloc.RbTree.Side.{lft}
use shmmalloc.RbTree.Ghost.{
  Tree, tip, fork, Way, top, root_of, parent_of, plug, inorder, count, cell, Stores, Around, All,
  step,
}
use shmmalloc.RbTree.Update.{rbtree_insert}
use shmmalloc.RbTree.Balance.{IsBalanced, before, after, inorder-plug, depth, depth-count}
use shmmalloc.RbTree.Turn.{IsAt}
use shmmalloc.RbTree.Extremes.{IsStrict}
use shmmalloc.RbTree.Sorted.{AllIn, Sorted}
use shmmalloc.RbTree.Zipper.{with_color}
use Loop.{fix_insert-Fixed}
use Turns.{Fixed}
use Walk.{Landed, insert_walk-Landed}
use Order.{gap-Sorted}
use Start.{
  IsRbTree, IsFresh, fork_ne, AllWay-plug, prepared, prepared-new, prepared-root, prepared-size,
  prepared-IsAt, insert_from, insert_as_from, from_first, from_gap,
}

length-join : (xs ys : List ℕ) → length (xs ++ ys) ≡ length xs + length ys
length-join [] ys = omega arith
length-join (x ∷ xs) ys = omega (arith, length-join xs ys)

count-inorder : (tree : Tree) → count tree ≡ length (inorder tree)
count-inorder tip = refl
count-inorder (fork c l x r) =
    omega (arith, count-inorder l, count-inorder r, length-join (inorder l) (x ∷ inorder r))

-- `tree2` has the nodes of `tree` and the node `new` between them.
abbrev pub Inserted : ℕ → Tree → Tree → Type 0
Inserted new tree tree2 =
    (left : List ℕ) × (right : List ℕ) × (inorder tree ≡ left ++ right)
    × (inorder tree2 ≡ left ++ (new ∷ right))

pub count-Inserted :
    (new : ℕ) (tree tree2 : Tree) → Inserted new tree tree2 → count tree2 ≡ suc (count tree)
count-Inserted new tree tree2 (left, right, a, b) =
    let joined2 : length (left ++ (new ∷ right)) ≡ length left + length (new ∷ right) =
      length-join left (new ∷ right) in
    let size2 : count tree2 ≡ length (left ++ (new ∷ right)) = count-inorder tree2 ∙ ap length b in
    let size : count tree ≡ length (left ++ right) = count-inorder tree ∙ ap length a in
    omega (arith, joined2, size2, size, length-join left right)

parent_nonzero :
    {K : Type 0} (key : ℕ → K) (t : Rb K) (path : Way) (gap : ℕ) (c : Colour) (l : Tree) (x : ℕ)
    (r : Tree)
    → Around key t path gap
    → plug path tip ≡ fork c l x r
    → parent_of path ≢ 0
parent_nonzero key t top gap c l x r at e = absurd (fork_ne c l x r e)
parent_nonzero key t (step d c2 up y other) gap c l x r (ny, cy, so, hu) e = ny

module _ {K : Type 0} (cmp : K → K → Sign) (Ok : K → Type 0) (order : IsStrict cmp Ok)
    (key : ℕ → K) where
  -- What an insertion leaves.
  pub record HasInserted (t : Rb K) (new : ℕ) (tree : Tree) : Type 0 where
    pub out : Rb K
    pub tree2 : Tree
    pub runs : rbtree_insert cmp t new ≡ some out
    pub holds : IsRbTree key out tree2
    pub sorted : Sorted cmp key (inorder tree2)
    pub inserted : Inserted new tree tree2

  into_empty :
      (t : Rb K) (new : ℕ)
      → IsRbTree key t tip
      → IsFresh key t new tip
      → t.size + 1 < 2 ^ 32
      → HasInserted t new tip
  into_empty t new rb fresh h =
      let t0 = prepared key t new in
      let cn : t0.nodes new ≡ cell key 0 red new 0 0 = prepared-new key t new tip fresh in
      let sn : (t0.nodes new).s ≡ new = ap (λ n. n.s) cn in
      let label : ℕ → ℕ = λ n. 0 in
      let out = record (set_color t0 new black) { root = (t0.nodes new).s } in
      let at : IsAt key label out top (fork black tip new tip) = record {
        lo = 0;
        hi = 1;
        stores = (fresh.node, rw (eq→== new new refl) (ap (with_color black) cn), tt, tt);
        around = sn;
        within = (omega arith, omega arith);
        outside = tt;
      } in
      record {
        out = out;
        tree2 = fork black tip new tip;
        runs =
            insert_as_from cmp key t new
            ∙ from_first cmp key t0 t.root (t.size + 2) new rb.at.around sn;
        holds = record {
          label = label;
          at = at;
          balanced = (tt, (1, (0, refl, refl, refl)));
          counted = prepared-size key t new h ∙ ap suc rb.counted;
        };
        sorted = (tt, tt);
        inserted = ([], [], refl, refl);
      }

  into_fork :
      (t : Rb K) (new : ℕ) (c : Colour) (l : Tree) (x : ℕ) (r : Tree)
      → IsRbTree key t (fork c l x r)
      → IsFresh key t new (fork c l x r)
      → t.size + 1 < 2 ^ 32
      → Ok (key new)
      → AllIn (λ n. Ok (key n)) (inorder (fork c l x r))
      → Sorted cmp key (inorder (fork c l x r))
      → HasInserted t new (fork c l x r)
  into_fork t new c l x r rb fresh h on oks sorted =
      let tree = fork c l x r in
      let t0 = prepared key t new in
      let fuel = t.size + 2 in
      let cn : t0.nodes new ≡ cell key 0 red new 0 0 = prepared-new key t new tree fresh in
      let root : t.root ≡ x = rb.at.around in
      let nr : t.root ≢ 0 = λ e. rb.at.stores.0 (sym root ∙ e) in
      let (bb, (n, hb)) = rb.balanced in
      let land : Landed cmp key rb.label t0 (key new) fuel 0 x tree =
        insert_walk-Landed cmp key rb.label t0 (key new) fuel n top tree (omega (arith, rb.counted))
          (prepared-IsAt key rb.label t new tree fresh.absent rb.at) hb tt (inl bb) tt in
      let path = land.path in
      let node = fork red tip new tip in
      let (away, unit) =
        AllWay-plug (λ n. new ≢ n) path tip
          (subst (λ w. All (λ n. new ≢ n) w) (sym land.same) fresh.absent) in
      let (label2, t2, goes, at2, size2) =
        from_gap cmp key rb.label t0 x fuel new path rb.at.stores.0 fresh.node cn land.at away
          land.chosen (parent_nonzero key t0 path 0 c l x r land.at.around land.same) land.lands in
      let deep : depth path < fuel =
        omega (arith, depth-count path tip, ap count land.same, rb.counted) in
      let f : Fixed key label2 t2 fuel new (plug path node) =
        fix_insert-Fixed key label2 t2 fuel 0 path node deep at2 tt (tt, tt, refl, refl)
          land.balanced in
      let inorder_tree : inorder tree ≡ before path ++ after path =
        ap inorder (sym land.same) ∙ inorder-plug path tip in
      let inorder_out : inorder f.tree ≡ before path ++ (new ∷ after path) =
        f.same ∙ inorder-plug path node in
      let inserted : Inserted new tree f.tree =
        (before path, after path, inorder_tree, inorder_out) in
      let whole : inorder tree ≡ inorder (plug path tip) = ap inorder (sym land.same) in
      record {
        out = f.out;
        tree2 = f.tree;
        runs =
            insert_as_from cmp key t new
            ∙ ap (λ q. insert_from cmp key t0 q fuel new) root
            ∙ goes
            ∙ f.runs;
        holds = record {
          label = label2;
          at = f.at;
          balanced = f.balanced;
          counted =
              f.size
              ∙ size2
              ∙ prepared-size key t new h
              ∙ ap suc rb.counted
              ∙ sym (count-Inserted new tree f.tree inserted);
        };
        sorted =
            subst (λ xs. Sorted cmp key xs) (sym inorder_out)
              (gap-Sorted cmp Ok order key new path tip refl on land.chosen
                (subst (λ xs. AllIn (λ n. Ok (key n)) xs) whole oks)
                (subst (λ xs. Sorted cmp key xs) whole sorted));
        inserted = inserted;
      }

  -- rbtree_insert of a fresh node into a well-formed red-black tree, whose keys are in order under a
  -- comparison that is a strict weak order of them and of the new one, and whose size can be counted
  -- in 32 bits, always returns, within the fuel of the model: the memory then holds a well-formed
  -- red-black tree, with the new node at one place between the old ones, in order again.
  pub rbtree_insert-IsRbTree :
      (t : Rb K) (new : ℕ) (tree : Tree)
      → IsRbTree key t tree
      → IsFresh key t new tree
      → t.size + 1 < 2 ^ 32
      → Ok (key new)
      → AllIn (λ n. Ok (key n)) (inorder tree)
      → Sorted cmp key (inorder tree)
      → HasInserted t new tree
  rbtree_insert-IsRbTree t new tip rb fresh h on oks sorted = into_empty t new rb fresh h
  rbtree_insert-IsRbTree t new (fork c l x r) rb fresh h on oks sorted =
      into_fork t new c l x r rb fresh h on oks sorted

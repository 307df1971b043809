-- ===== src/PoolTree/Pool.antt =====
-- shm_tree_push and shm_tree_pop of src/shm_tree.h on a pool whose heap holds a tree.
use mathlib.Core.Bool.{false≢true}
use shmmalloc.Base.{
  ℕ, ◌+◌, ◌-◌, ◌^◌, ◌≤◌, ◌<◌, ◌≡◌, ◌≢◌, refl, sym, ap, ◌∙◌, Bool, true, false, not, ◌&&◌, ◌||◌,
  some, arith, ◌==◌, inl, inr, Bool-cases, ne→==, eq→==, lt→ltb, u32, Option,
}
use shmmalloc.Position.{shm_null}
use shmmalloc.PoolTree.{TreeNode, ShmPool, Heap, set_root, shm_tree_push, shm_tree_pop}
use shmmalloc.PoolTree.Shape.{
  Tree, leaf, node, top, count, mem, HasRoot, IsTree, Disjoint, IsDistinct, IsHeap, HasRoot-same,
  IsTree-same, mem_top, top_least,
}
use shmmalloc.PoolTree.Merge.{IsHeapTree, IsUnion, merge-Merges}

-- The heap holds the pool's tree: the pool's root is its top, which has no parent, and the pool's
-- size counts its positions.
pub record IsPool (h : Heap) (pool : ShmPool) (t : Tree) : Type 0 where
  pub tree : IsHeapTree h t
  pub root : pool.root ≡ top t
  pub size : pool.size ≡ count t
  pub unowned : HasRoot h shm_null t

-- A node with no links, as the memset of new_chunk_run leaves it.
pub record IsBlank (n : TreeNode) : Type 0 where
  pub left : n.left ≡ shm_null
  pub right : n.right ≡ shm_null
  pub root : n.root ≡ shm_null

-- An operation returned a heap and a pool with a tree of exactly the positions that `keep` picks.
pub record Leaves (h : Heap) (keep : ℕ → Bool) (out : Option (Heap × ShmPool)) : Type 0 where
  pub heap : Heap
  pub pool : ShmPool
  pub tree : Tree
  pub returns : out ≡ some (heap, pool)
  pub is : IsPool heap pool tree
  pub members : (q : ℕ) → mem q tree ≡ keep q

abbrev single : ℕ → Tree
single p = node p leaf leaf

single-IsHeapTree : (h : Heap) (p : ℕ) → p ≢ shm_null → IsBlank (h p) → IsHeapTree h (single p)
single-IsHeapTree h p ne b = record {
  tree = (ne, b.left, b.right, tt, tt, tt, tt);
  distinct = (refl, refl, λ a e. refl, tt, tt);
  ordered = (λ a e. absurd (false≢true e), λ a e. absurd (false≢true e), tt, tt);
}

or_true : (b : Bool) → (b || true) ≡ true
or_true true = refl
or_true false = refl

-- Only the top of a heap-ordered tree is as small as the top.
root_of_least :
    (h : Heap) (t : Tree) (p : ℕ)
    → IsHeap t
    → HasRoot h shm_null t
    → mem p t ≡ true
    → p ≤ top t
    → (h p).root ≡ shm_null
root_of_least h leaf p o u i le = absurd (false≢true i)
root_of_least h (node q l r) p o u i le =
    let e : p ≡ q = ground (arith, top_least p (node q l r) o) in rw e u

-- The new top is the top of one of the two trees, and neither had a parent.
union_unowned :
    {h g : Heap} {s t : Tree} (m : Tree)
    → IsUnion h s t g m
    → IsHeap s
    → IsHeap t
    → HasRoot h shm_null s
    → HasRoot h shm_null t
    → HasRoot g shm_null m
union_unowned leaf u os ot rs rt = tt
union_unowned {h} {s} {t} (node p l r) u os ot rs rt = u.top_root ∙ (elim (Bool-cases (mem p s)) [
  | inl i ↦ root_of_least h s p os rs i (least s (λ q e. rw (u.members q, e)) i)
  | inr i ↦
      let j : mem p t ≡ true = sym (u.members p ∙ (rw i)) ∙ mem_top p l r in
      root_of_least h t p ot rt j (least t (λ q e. rw (u.members q, e) (or_true (mem q s))) j)
])
  where
    least :
        (v : Tree)
        → ((q : ℕ) → mem q v ≡ true → mem q (node p l r) ≡ true)
        → mem p v ≡ true
        → p ≤ top v
    least leaf inside i = absurd (false≢true i)
    least (node q x y) inside i =
        top_least q (node p l r) u.union.ordered (inside q (mem_top q x y))

single_out : (a x : ℕ) (t : Tree) → mem a t ≡ true → mem x t ≡ false → mem a (single x) ≡ false
single_out a x t i out = ground arith

-- Pushing a blank node that is not in the pool adds exactly that node, and shm_tree_merge's
-- recursion ends.
pub push-Leaves :
    (h : Heap) (pool : ShmPool) (t : Tree) (x : ℕ)
    → IsPool h pool t
    → x ≢ shm_null
    → mem x t ≡ false
    → IsBlank (h x)
    → pool.size + 1 < 2 ^ 32
    → Leaves h (λ q. q == x || mem q t) (shm_tree_push h pool x)
unfolding shm_tree_push
push-Leaves h pool t x is ne out blank fits =
    let one = single-IsHeapTree h x ne blank in
    let apart : Disjoint t (single x) = λ a i. single_out a x t i out in
    let r =
      merge-Merges (pool.size + 2) h t (single x) is.tree one apart (omega (arith, is.size)) in
    record {
      heap = r.heap;
      pool = record { root = top r.tree; size = u32 (pool.size + 1) };
      tree = r.tree;
      returns = rw (is.root, r.returns);
      is = record {
        tree = r.is.union;
        root = refl;
        size = omega (arith, r.is.size, is.size);
        unowned = union_unowned r.tree r.is is.tree.ordered one.ordered is.unowned blank.root;
      };
      members = λ q. r.is.members q ∙ ground arith;
    }

pub or_both : (b : Bool) → b ≡ (b && true)
or_both true = refl
or_both false = refl

pub set_root_other : (h : Heap) (p q a : ℕ) → a ≢ p → set_root h p q a ≡ h a
set_root_other h p q a ne = ground arith

-- Writing the `root` of the top leaves the tree.
pub set_root-IsTree :
    (h : Heap) (q : ℕ) (m : Tree)
    → IsHeapTree h m
    → IsTree (set_root h (top m) q) m × HasRoot (set_root h (top m) q) q m
set_root-IsTree h q leaf is = (tt, tt)
set_root-IsTree h q (node p x y) is =
    let (ne, el, er, hl, hr, il, ir) = is.tree in
    let g = set_root h p q in
    let known : (p == shm_null) ≡ false = ne→== p shm_null ne in
    let at : g p ≡ record (h p) { root = q } = rw known (rw (eq→== p p refl)) in
    let same_x = λ (a : ℕ) (i : mem a x ≡ true).
      set_root_other h p q a
        (λ e. absurd (false≢true (sym is.distinct.0 ∙ ap (λ b. mem b x) (sym e) ∙ i))) in
    let same_y = λ (a : ℕ) (i : mem a y ≡ true).
      set_root_other h p q a
        (λ e. absurd (false≢true (sym is.distinct.1 ∙ ap (λ b. mem b y) (sym e) ∙ i))) in
    (
      (
        ne,
        ap (λ (n : TreeNode). n.left) at ∙ el,
        ap (λ (n : TreeNode). n.right) at ∙ er,
        HasRoot-same p x same_x hl,
        HasRoot-same p y same_y hr,
        IsTree-same x same_x il,
        IsTree-same y same_y ir,
      ),
      ap (λ (n : TreeNode). n.root) at,
    )

pop_members :
    (q p : ℕ) (l r : Tree)
    → IsDistinct (node p l r)
    → (mem q l || mem q r) ≡ (mem q (node p l r) && not (q == p))
pop_members q p l r d = elim (Bool-cases (q == p)) [
  | inl e ↦ let e' : q ≡ p = ground arith in rw (e', d.0, d.1, eq→== p p refl)
  | inr e ↦ rw e (or_both (mem q l || mem q r))
]

-- Popping takes exactly the root, which is the pool's least position, out of the tree.
pub pop-Leaves :
    (h : Heap) (pool : ShmPool) (t : Tree)
    → IsPool h pool t
    → 0 < pool.size
    → Leaves h (λ q. mem q t && not (q == pool.root)) (shm_tree_pop h pool)
      × ((q : ℕ) → mem q t ≡ true → pool.root ≤ q)
unfolding shm_tree_pop
pop-Leaves h pool leaf is some_left = absurd (omega (arith, is.size))
pop-Leaves h pool (node p l r) is some_left =
    let (ne, el, er, hl, hr, il, ir) = is.tree.tree in
    let (pl, pr, lr, dl, dr) = is.tree.distinct in
    let (bl, br, ol, or) = is.tree.ordered in
    let left : IsHeapTree h l = record { tree = il; distinct = dl; ordered = ol } in
    let right : IsHeapTree h r = record { tree = ir; distinct = dr; ordered = or } in
    let m = merge-Merges (pool.size + 1) h l r left right lr (omega (arith, is.size)) in
    let (tree, top_null) = set_root-IsTree m.heap shm_null m.tree m.is.union in
    (
      record {
        heap = set_root m.heap (top m.tree) shm_null;
        pool = record { root = top m.tree; size = pool.size - 1 };
        tree = m.tree;
        returns =
            rw (lt→ltb 0 pool.size some_left, is.root, ne→== p shm_null ne, el, er, m.returns);
        is = record {
          tree = record {
            tree = tree;
            distinct = m.is.union.distinct;
            ordered = m.is.union.ordered;
          };
          root = refl;
          size = omega (arith, is.size, m.is.size);
          unowned = top_null;
        };
        members = λ q. m.is.members q ∙ (rw is.root (pop_members q p l r is.tree.distinct));
      },
      λ q i. rw is.root (top_least q (node p l r) is.tree.ordered i),
    )

-- ===== src/PoolTree/Merge.antt =====
-- shm_tree_merge on two trees that share no position.
pub mod Link
use shmmalloc.Base.{
  ℕ, zero, suc, ◌+◌, ◌≤◌, ◌<◌, ◌≡◌, ◌≢◌, refl, sym, ap, ◌∙◌, Bool, true, false, ◌||◌, some, arith,
  ltb, ◌==◌, if◌then◌else◌, inl, inr, Bool-cases, ne→==, ◌>>=◌,
}
use shmmalloc.Position.{shm_null}
use shmmalloc.PoolTree.{TreeNode, Heap, shm_tree_link, link_under, shm_tree_merge}
use shmmalloc.PoolTree.Shape.{
  Tree, leaf, node, top, count, mem, HasRoot, IsTree, Disjoint, Disjoint-sym, IsDistinct, Below,
  IsHeap, HasRoot-same, IsTree-same, mem_top, top_least, ne_null,
}
use Link.{
  linked, Parts, link-IsTree, mem-linked, top-linked, count-linked, linked-IsHeap,
  linked-IsDistinct, link-other, link-root,
}

-- A tree in the heap without repetition, each position smaller than those under it.
pub record IsHeapTree (h : Heap) (t : Tree) : Type 0 where
  pub tree : IsTree h t
  pub distinct : IsDistinct t
  pub ordered : IsHeap t

-- `g` holds the tree `m` of the positions of `s` and `t` together; other nodes and the `root` of
-- the new top are as in `h`.
pub record IsUnion (h : Heap) (s t : Tree) (g : Heap) (m : Tree) : Type 0 where
  pub union : IsHeapTree g m
  pub members : (q : ℕ) → mem q m ≡ (mem q s || mem q t)
  pub size : count m ≡ count s + count t
  pub same : (q : ℕ) → mem q s ≡ false → mem q t ≡ false → g q ≡ h q
  pub top_root : (g (top m)).root ≡ (h (top m)).root

IsUnion-swap : {h g : Heap} {s t m : Tree} → IsUnion h s t g m → IsUnion h t s g m
IsUnion-swap u = record {
  union = u.union;
  members = λ q. u.members q ∙ ground arith;
  size = omega (arith, u.size);
  same = λ q x y. u.same q y x;
  top_root = u.top_root;
}

union-Below :
    (a : ℕ) (r b m : Tree)
    → ((q : ℕ) → mem q m ≡ (mem q r || mem q b))
    → Below a r
    → Below a b
    → Below a m
union-Below a r b m members br bb q i = ground (arith, members q, br q, bb q)

-- One level: `a` is above the top of `b`, and `r` and `b` are already one tree.
module _ (h g : Heap) (a : ℕ) (l r b : Tree) (s : IsHeapTree h (node a l r)) (t : IsHeapTree h b)
    (apart : Disjoint (node a l r) b) (above : (q : ℕ) → mem q b ≡ true → a < q) where
  level-Parts : (m : Tree) → IsUnion h r b g m → Parts g a l m
  level-Parts m u =
      let (ne, el, er, hl, hr, il, ir) = s.tree in
      let a_out_b : mem a b ≡ false = apart a (mem_top a l r) in
      let (al, ar, lr, dl, dr) = s.distinct in
      let same_l = λ (q : ℕ) (i : mem q l ≡ true). u.same q (lr q i) (apart q (ground arith)) in
      record {
        a_ne = ne;
        left = ap (λ (n : TreeNode). n.left) (u.same a ar a_out_b) ∙ el;
        root_l = HasRoot-same a l same_l hl;
        tree_l = IsTree-same l same_l il;
        tree_m = u.union.tree;
        a_out_l = al;
        a_out_m = u.members a ∙ (rw (ar, a_out_b));
        apart = λ q i. u.members q ∙ (rw (lr q i, apart q (ground arith)));
        distinct_m = u.union.distinct;
      }

  level-IsUnion :
      (p : ℕ) (x y : Tree)
      → IsUnion h r b g (node p x y)
      → IsUnion h (node a l r) b (shm_tree_link g a p) (linked g a l (node p x y))
  level-IsUnion p x y u =
      let m = node p x y in
      let parts = level-Parts m u in
      let (bl, br, hl, hr) = s.ordered in
      let a_out_b : mem a b ≡ false = apart a (mem_top a l r) in
      let a_ne_p : a ≢ p = ground (arith, parts.a_out_m) in
      record {
        union = record {
          tree = link-IsTree g a p l x y parts;
          distinct =
              linked-IsDistinct g a l m parts.a_out_l parts.a_out_m parts.apart s.distinct.3
                u.union.distinct;
          ordered =
              linked-IsHeap g a l m bl (union-Below a r b m u.members br above) hl u.union.ordered;
        };
        members = λ q. mem-linked g a l m q ∙ (rw (u.members q) (ground arith));
        size = omega (arith, count-linked g a l m, u.size);
        same = λ q i j.
            link-other g a p a_ne_p q (ground arith) (ground (arith, u.members q))
            ∙ u.same q (ground arith) j;
        top_root = rw (top-linked g a l m) (
            link-root g a p a_ne_p ∙ ap (λ (n : TreeNode). n.root) (u.same a s.distinct.1 a_out_b));
      }

-- The merge returns, and what it returns is the union.
pub record Merges (k : ℕ) (h : Heap) (s t : Tree) : Type 0 where
  pub heap : Heap
  pub tree : Tree
  pub returns : shm_tree_merge k h (top s) (top t) ≡ some (heap, top tree)
  pub is : IsUnion h s t heap tree

-- The recursive call's result under one more level.
level :
    (k : ℕ) (h : Heap) (a : ℕ) (l r b : Tree)
    → IsHeapTree h (node a l r)
    → IsHeapTree h b
    → Disjoint (node a l r) b
    → a < top b
    → Merges k h r b
    → (g : Heap) × (m : Tree) × ((shm_tree_merge k h (top r) (top b) >>= link_under a)
        ≡ some (g, top m))
      × IsUnion h (node a l r) b g m
level k h a l r leaf s t apart lt rest = elim lt [ ]
level k h a l r (node q u v) s t apart lt rest = under rest.tree rest.is rest.returns
  where
    under :
        (m : Tree)
        → IsUnion h r (node q u v) rest.heap m
        → shm_tree_merge k h (top r) q ≡ some (rest.heap, top m)
        → (g : Heap) × (n : Tree) × ((shm_tree_merge k h (top r) q >>= link_under a)
            ≡ some (g, top n))
          × IsUnion h (node a l r) (node q u v) g n
    under leaf is e = absurd (ground (arith, is.members q))
    under (node p x y) is e = (
      shm_tree_link rest.heap a p,
      linked rest.heap a l (node p x y),
      rw e (rw (top-linked rest.heap a l (node p x y))),
      level-IsUnion h rest.heap a l r (node q u v) s t apart
          (λ j i. ground (arith, top_least j (node q u v) t.ordered)) p x y is,
    )

or_false : (b : Bool) → b ≡ (b || false)
or_false true = refl
or_false false = refl

right_part : {h : Heap} {a : ℕ} {l r : Tree} → IsHeapTree h (node a l r) → IsHeapTree h r
right_part s = record { tree = s.tree.6; distinct = s.distinct.4; ordered = s.ordered.3 }

pub merge-Merges :
    (k : ℕ) (h : Heap) (s t : Tree)
    → IsHeapTree h s
    → IsHeapTree h t
    → Disjoint s t
    → count s + count t < k
    → Merges k h s t
unfolding shm_tree_merge
merge-Merges zero h s t is it apart fuel = elim fuel [ ]
merge-Merges (suc k) h leaf t is it apart fuel = record {
  heap = h;
  tree = t;
  returns = refl;
  is = record {
    union = it;
    members = λ q. refl;
    size = omega arith;
    same = λ q i j. refl;
    top_root = refl;
  };
}
merge-Merges (suc k) h (node p x y) leaf is it apart fuel = record {
  heap = h;
  tree = node p x y;
  returns = rw (ne→== p shm_null is.tree.0);
  is = record {
    union = is;
    members = λ q. or_false (mem q (node p x y));
    size = omega arith;
    same = λ q i j. refl;
    top_root = refl;
  };
}
merge-Merges (suc k) h (node p x y) (node q u v) is it apart fuel =
    let p_ne : (p == shm_null) ≡ false = ne→== p shm_null is.tree.0 in
    let q_ne : (q == shm_null) ≡ false = ne→== q shm_null it.tree.0 in
    let differ : p ≢ q = ground (arith, apart p) in
    elim (Bool-cases (ltb q p)) [
      | inl swap ↦
          let apart' = Disjoint-sym (node p x y) (node q u v) apart in
          let rest =
            merge-Merges k h v (node p x y) (right_part it) is (λ j i. apart' j (ground arith))
              (omega arith) in
          let (g, m, e, union) = level k h q u v (node p x y) it is apart' (ground arith) rest in
          record {
            heap = g;
            tree = m;
            returns = rw (p_ne, q_ne, swap, it.tree.2) e;
            is = IsUnion-swap union;
          }
      | inr keep ↦
          let rest =
            merge-Merges k h y (node q u v) (right_part is) it (λ j i. apart j (ground arith))
              (omega arith) in
          let (g, m, e, union) = level k h p x y (node q u v) is it apart (ground arith) rest in
          record { heap = g; tree = m; returns = rw (p_ne, q_ne, keep, is.tree.2) e; is = union }
    ]

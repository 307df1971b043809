-- ===== src/PoolTree/Tests.antt =====
-- The pool's operations at small heaps.
use shmmalloc.Base.{ℕ, ◌≤◌, ◌≡◌, refl, true, not, ◌&&◌, ◌||◌, some, arith, ◌==◌}
use shmmalloc.PoolTree.{
  TreeNode, ShmPool, Heap, store, shm_tree_push, shm_tree_pop, shm_tree_remove,
}
use shmmalloc.PoolTree.Shape.{Tree, leaf, node, mem}
use shmmalloc.PoolTree.Merge.{IsHeapTree, Merges, merge-Merges}
use shmmalloc.PoolTree.Pool.{IsPool, IsBlank, Leaves, push-Leaves, pop-Leaves}
use shmmalloc.PoolTree.Remove.{remove-Leaves}
use shmmalloc.PoolTree.Stale.{refill, refill_cycle}

abbrev blank : TreeNode
blank = record { rank = 0; root = 0; left = 0; right = 0 }

-- Position 7 below position 3; position 5 is in no pool.
abbrev heap : Heap
heap = store (store (λ _. blank) 3 (record blank { left = 7 })) 7 (record blank { root = 3 })

abbrev pair : Tree
pair = node 3 (node 7 leaf leaf) leaf

abbrev pool : ShmPool
pool = record { root = 3; size = 2 }

pair-IsPool : IsPool heap pool pair
pair-IsPool = record {
  tree = record {
    tree = (omega arith, refl, refl, refl, tt, (omega arith, refl, refl, tt, tt, tt, tt), tt);
    distinct = (refl, refl, λ a i. refl, (refl, refl, λ a i. refl, tt, tt), tt);
    ordered = (
      λ a i. ground arith,
      λ a i. ground arith,
      (λ a i. ground arith, λ a i. ground arith, tt, tt),
      tt,
    );
  };
  root = refl;
  size = refl;
  unowned = refl;
}

five-IsBlank : IsBlank (heap 5)
five-IsBlank = record { left = refl; right = refl; root = refl }

one-IsHeapTree : IsHeapTree heap (node 5 leaf leaf)
one-IsHeapTree = record {
  tree = (omega arith, refl, refl, tt, tt, tt, tt);
  distinct = (refl, refl, λ a i. refl, tt, tt);
  ordered = (λ a i. ground arith, λ a i. ground arith, tt, tt);
}

merge-Merges_example : Merges 4 heap pair (node 5 leaf leaf)
merge-Merges_example =
    merge-Merges 4 heap pair (node 5 leaf leaf) pair-IsPool.tree one-IsHeapTree
      (λ a i. ground arith) (omega arith)

push-Leaves_example : Leaves heap (λ q. q == 5 || mem q pair) (shm_tree_push heap pool 5)
push-Leaves_example =
    push-Leaves heap pool pair 5 pair-IsPool (omega arith) refl five-IsBlank (omega arith)

pop-Leaves_example :
    Leaves heap (λ q. mem q pair && not (q == 3)) (shm_tree_pop heap pool)
    × ((q : ℕ) → mem q pair ≡ true → 3 ≤ q)
pop-Leaves_example = pop-Leaves heap pool pair pair-IsPool (omega arith)

remove-Leaves_example : Leaves heap (λ q. mem q pair && not (q == 7)) (shm_tree_remove heap pool 7)
remove-Leaves_example = remove-Leaves heap pool pair 7 pair-IsPool refl (omega arith)

refill_cycle_example :
    (g : Heap) × (p : ShmPool) × (refill (λ _. blank) 3 7 ≡ some (g, p))
    × (p.root ≡ 7)
    × ((g 7).left ≡ 7)
    × ((t : Tree) → ¬ IsPool g p t)
refill_cycle_example =
    refill_cycle (λ _. blank) 3 7 (omega arith) (omega arith)
      (record { left = refl; right = refl; root = refl })
      (record { left = refl; right = refl; root = refl })

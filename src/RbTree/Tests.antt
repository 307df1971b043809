-- ===== src/RbTree/Tests.antt =====
-- Runs of the red-black tree of src/rbtree.h on small trees of numbers.
use shmmalloc.Base.{
  ◌⊎◌, arith, ℕ, ◌==◌, Option, some, ◌>>=◌, if◌then◌else◌, List, ◌∷◌, [], ltb, ◌≡◌, refl,
}
use shmmalloc.RbTree.{
  Sign, negative, equal, positive, red, black, Node, Rb, rbtree_init, rbtree_lower, rbtree_min,
  rbtree_max, rbtree_left_rotate, rbtree_right_rotate, rbtree_min_node,
}
use shmmalloc.RbTree.Extremes.{IsStrict, Greatest, rbtree_max-Greatest}
use shmmalloc.RbTree.{rbtree_next, rbtree_prev, next_up, prev_up, rbtree_max_node}
use shmmalloc.RbTree.Ghost.{inorder}
use shmmalloc.Base.{◌++◌}
use shmmalloc.RbTree.Next.{first, rbtree_next-IsNext}
use shmmalloc.RbTree.Side.{lft}
use shmmalloc.RbTree.Ghost.{Tree, tip, fork, top}
use shmmalloc.RbTree.Turn.{IsAt, rotate-IsAt}
use shmmalloc.RbTree.Insert.{Inserted, HasInserted, rbtree_insert-IsRbTree}
use shmmalloc.RbTree.Insert.Start.{IsRbTree, IsFresh}
use shmmalloc.RbTree.Found.{shape_of, rbtree_insert-rbtree_lower}
use shmmalloc.RbTree.Search.{
  In, Shape, leaf, branch, All, Below, Fits, IsWeakOrder, rbtree_lower-Fits,
}
use shmmalloc.RbTree.Update.{
  rbtree_insert, rbtree_delete, fix_delete_round, black_sibling_right, black_sibling_left,
  red_sibling_right, red_sibling_left, last_left_turn, last_right_turn, near_left_turn,
  near_right_turn, delete_swap, swap_color, swap_parent, swap_left, swap_right, replace_child,
  rbtree_fix_delete,
}
use shmmalloc.RbTree.Delete.One.{HasDeleted}
use shmmalloc.RbTree.Delete.{rbtree_delete-IsRbTree}

cmp_nat : ℕ → ℕ → Sign
cmp_nat a b = if a == b then equal else if ltb a b then negative else positive

-- The key of the node at position x is x.
blank : ℕ → Node ℕ
blank x = record { s = x; p = 0; left = 0; right = 0; v = x; color = red }

insert_all : List ℕ → Rb ℕ → Option (Rb ℕ)
unfolding rbtree_insert cmp_nat
insert_all [] t = some t
insert_all (x ∷ xs) t = rbtree_insert cmp_nat t x >>= λ t'. insert_all xs t'

delete_all : List ℕ → Rb ℕ → Option (Rb ℕ)
unfolding rbtree_delete fix_delete_round black_sibling_right black_sibling_left red_sibling_right
    red_sibling_left last_left_turn last_right_turn near_left_turn near_right_turn delete_swap
    swap_color swap_parent swap_left swap_right replace_child rbtree_fix_delete
delete_all [] t = some t
delete_all (x ∷ xs) t = rbtree_delete t x >>= λ t'. delete_all xs t'

run : List ℕ → List ℕ → (Rb ℕ → Option ℕ) → Option ℕ
unfolding insert_all delete_all blank
run xs ys f = insert_all xs (rbtree_init blank) >>= λ t. delete_all ys t >>= λ t'. f t'

run_max : run (1 ∷ 2 ∷ 3 ∷ 4 ∷ 5 ∷ []) [] rbtree_max ≡ some 5
unfolding run rbtree_max rbtree_left_rotate rbtree_right_rotate rbtree_min_node
run_max = refl

run_root : run (1 ∷ 2 ∷ 3 ∷ 4 ∷ 5 ∷ []) [] (λ t. some t.root) ≡ some 2
unfolding run rbtree_left_rotate rbtree_right_rotate rbtree_min_node
run_root = refl

run_delete : run (1 ∷ 2 ∷ 3 ∷ 4 ∷ 5 ∷ []) (2 ∷ 1 ∷ []) rbtree_min ≡ some 3
unfolding run rbtree_min rbtree_left_rotate rbtree_right_rotate rbtree_min_node
run_delete = refl

run_size : run (1 ∷ 2 ∷ 3 ∷ []) (2 ∷ 1 ∷ 3 ∷ []) (λ t. some t.root) ≡ some 0
unfolding run rbtree_left_rotate rbtree_right_rotate rbtree_min_node
run_size = refl

-- The walk ends at the first smaller node below a bigger one, and so returns 6 where 4 is nearer.
run_lower : run (2 ∷ 6 ∷ 7 ∷ 4 ∷ []) [] (λ t. rbtree_lower cmp_nat t 3) ≡ some 6
unfolding run rbtree_lower cmp_nat rbtree_left_rotate rbtree_right_rotate rbtree_min_node
run_lower = refl

-- The tree of the keys 1, 2 and 3.
three : ℕ → Node ℕ
three x =
    if x == 2
    then record { s = 2; p = 0; left = 1; right = 3; v = 2; color = black }
    else record { s = x; p = 2; left = 0; right = 0; v = x; color = red }

abbrev three_tree : Rb ℕ
three_tree = record { nodes = three; root = 2; size = 3 }

abbrev three_shape : Shape
three_shape = branch (branch leaf 1 leaf) 2 (branch leaf 3 leaf)

cmp_nat-IsWeakOrder : IsWeakOrder cmp_nat (λ k. Unit)
unfolding cmp_nat
cmp_nat-IsWeakOrder = record { below = λ a b v x y z e f. ground (arith, e, f) }

rbtree_lower-Fits_example :
    (r : ℕ) × (rbtree_lower cmp_nat three_tree 3 ≡ some r)
    × ((All (Below cmp_nat three_tree 3) three_shape × (r ≡ 0))
        ⊎ Fits cmp_nat three_tree 3 three_shape r)
unfolding three cmp_nat
rbtree_lower-Fits_example =
    rbtree_lower-Fits cmp_nat (λ k. Unit) cmp_nat-IsWeakOrder three_tree 3 three_shape (omega arith)
      (refl, omega arith, (refl, omega arith, refl, refl), (refl, omega arith, refl, refl)) tt
      (tt, (tt, tt, tt), (tt, tt, tt))
      ((refl, tt, tt), (refl, tt, tt), (tt, tt, tt, tt), (tt, tt, tt, tt))

cmp_nat-IsStrict : IsStrict cmp_nat (λ k. Unit)
unfolding cmp_nat
cmp_nat-IsStrict = record {
  weak = cmp_nat-IsWeakOrder;
  asym = λ a b x y e. ground (arith, e);
  irreflexive = λ a x. ground arith;
}

rbtree_max-Greatest_example :
    (m : ℕ) × (rbtree_max three_tree ≡ some m)
    × (((three_shape ≡ leaf) × (m ≡ 0))
        ⊎ (In m three_shape
            × Greatest cmp_nat (λ k. Unit) cmp_nat-IsStrict three_tree three_shape m))
unfolding three cmp_nat
rbtree_max-Greatest_example =
    rbtree_max-Greatest cmp_nat (λ k. Unit) cmp_nat-IsStrict three_tree three_shape (omega arith)
      (refl, omega arith, (refl, omega arith, refl, refl), (refl, omega arith, refl, refl))
      (tt, (tt, tt, tt), (tt, tt, tt))
      ((refl, tt, tt), (refl, tt, tt), (tt, tt, tt, tt), (tt, tt, tt, tt))

abbrev leaf_at : ℕ → Tree
leaf_at x = fork red tip x tip

abbrev three_ghost : Tree
three_ghost = fork black (leaf_at 1) 2 (leaf_at 3)

three-IsAt : IsAt (λ n. n) (λ n. n) three_tree top three_ghost
unfolding three
three-IsAt = record {
  lo = 0;
  hi = 4;
  stores = (omega arith, refl, (omega arith, refl, tt, tt), (omega arith, refl, tt, tt));
  around = refl;
  within = ((omega arith, omega arith), (omega arith, omega arith));
  outside = tt;
}

rotate-IsAt_example :
    IsAt
      (λ n. n)
      (λ n. n)
      (rbtree_left_rotate three_tree 2)
      top
      (fork red (fork black (leaf_at 1) 2 tip) 3 tip)
    × ((rbtree_left_rotate three_tree 2).size ≡ 3)
rotate-IsAt_example =
    rotate-IsAt (λ n. n) (λ n. n) lft three_tree top black red (leaf_at 1) 2 tip 3 tip three-IsAt

three-IsRbTree : IsRbTree (λ n. n) three_tree three_ghost
three-IsRbTree = record {
  label = λ n. n;
  at = three-IsAt;
  balanced = (tt, (1, (0, refl, (tt, tt, refl, refl), (tt, tt, refl, refl))));
  counted = refl;
}

four-IsFresh : IsFresh (λ n. n) three_tree 4 three_ghost
unfolding three
four-IsFresh = record {
  node = omega arith;
  self = refl;
  value = refl;
  absent = (omega arith, (omega arith, tt, tt), (omega arith, tt, tt));
}

rbtree_insert-IsRbTree_example :
    HasInserted cmp_nat (λ k. Unit) cmp_nat-IsStrict (λ n. n) three_tree 4 three_ghost
unfolding cmp_nat
rbtree_insert-IsRbTree_example =
    rbtree_insert-IsRbTree cmp_nat (λ k. Unit) cmp_nat-IsStrict (λ n. n) three_tree 4 three_ghost
      three-IsRbTree four-IsFresh (omega arith) tt (tt, (tt, (tt, tt)))
      ((refl, (refl, tt)), ((refl, tt), (tt, tt)))

rbtree_insert-rbtree_lower_example :
    (out : Rb ℕ) × (tree2 : Tree) × (r : ℕ) × (rbtree_insert cmp_nat three_tree 4 ≡ some out)
    × (rbtree_lower cmp_nat out 4 ≡ some r)
    × IsRbTree (λ n. n) out tree2
    × Inserted 4 three_ghost tree2
    × Fits cmp_nat out 4 (shape_of tree2) r
unfolding cmp_nat
rbtree_insert-rbtree_lower_example =
    rbtree_insert-rbtree_lower cmp_nat (λ k. Unit) cmp_nat-IsStrict (λ n. n) three_tree 4
      three_ghost three-IsRbTree four-IsFresh (omega arith) tt (tt, (tt, (tt, tt)))
      ((refl, (refl, tt)), ((refl, tt), (tt, tt)))

rbtree_delete-IsRbTree_example : HasDeleted (λ n. n) three_tree 2 three_ghost
rbtree_delete-IsRbTree_example =
    rbtree_delete-IsRbTree (λ n. n) three_tree top black (leaf_at 1) 2 (leaf_at 3) three-IsRbTree
      (omega arith)

rbtree_next-IsNext_example :
    (left : List ℕ) × (right : List ℕ) × (inorder three_ghost ≡ left ++ (2 ∷ right))
    × (rbtree_next three_tree 2 ≡ some (first right))
rbtree_next-IsNext_example =
    rbtree_next-IsNext (λ n. n) three_tree top black (leaf_at 1) 2 (leaf_at 3) three-IsRbTree

run_next : run (2 ∷ 6 ∷ 7 ∷ 4 ∷ []) [] (λ t. rbtree_next t 4) ≡ some 6
unfolding run rbtree_next next_up rbtree_left_rotate rbtree_right_rotate rbtree_min_node
run_next = refl

run_prev : run (2 ∷ 6 ∷ 7 ∷ 4 ∷ []) [] (λ t. rbtree_prev t 7) ≡ some 6
unfolding run rbtree_prev prev_up rbtree_left_rotate rbtree_right_rotate rbtree_max_node
run_prev = refl

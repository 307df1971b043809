-- ===== src/Medium/Tests.antt =====
-- A new medium chunk whose pages hold nothing, and runs of src/chunk_medium.c on it.
use shmmalloc.Base.{
  ℕ, zero, suc, ◌^◌, ◌≡◌, refl, Bool, true, false, Option, none, some, ◌>>=◌, [], ◌∷◌, arith,
  if◌then◌else◌,
}
use shmmalloc.Position.{align_size}
use shmmalloc.Bitmap.{
  bitmap_get, bitmap_set, bitmap_clear, bitmap_ffsp, bitmap_bits2groups, ffs_u64,
}
use shmmalloc.RbTree.{
  Node, red, black, positive, rbtree_lower, rbtree_max, rbtree_left_rotate, rbtree_right_rotate,
  rbtree_min_node,
}
use shmmalloc.RbTree.Update.{
  rbtree_insert, rbtree_delete, fix_delete_round, black_sibling_right, black_sibling_left,
  red_sibling_right, red_sibling_left, last_left_turn, last_right_turn, near_left_turn,
  near_right_turn, delete_swap, swap_color, swap_parent, swap_left, swap_right, replace_child,
  rbtree_fix_delete,
}
use shmmalloc.Bitmap.Update.{bitmap_get-bitmap_set, length-bitmap_set}
use shmmalloc.Medium.Units.{
  zeros, bitmap_get-zeros, IsMirrored, zeros-IsMirrored, Changes, write-Changes,
  set_medium_unit-Changes, clear_medium_unit-Changes, IsLast, find_prev_medium_unit-IsLast,
  check_chunk_medium-eq-zero,
}
use shmmalloc.Medium.Compare.{medium_tree_compare_cases, malloc_chunk_medium_stuck}
use shmmalloc.Medium.{
  find_prev_medium_unit, Medium, MediumValue, medium_tree_compare, set_medium_unit, get_medium_unit,
  clear_medium_unit, find_next_medium_unit, init_chunk_medium, malloc_chunk_medium,
  free_chunk_medium, check_chunk_medium,
}

abbrev empty_pages : ℕ → Node MediumValue
empty_pages x = record {
  s = 0;
  p = 0;
  left = 0;
  right = 0;
  v = record { size = 0; index = 0 };
  color = red;
}

-- The pool only keeps the last maximum that it was told.
abbrev tell : ℕ → ℕ → Option ℕ
tell pool new_max = some new_max

-- What the caller of malloc_chunk_medium and the pool get, and the pages that are left.
summary : (ℕ × Medium) × ℕ → Option (ℕ × (ℕ × ℕ))
summary ((pool, d), a) = some (a, (pool, d.free_size))

malloc_on : Option ((ℕ × Medium) × Bool) → ℕ → Option ((ℕ × Medium) × ℕ)
unfolding malloc_chunk_medium
malloc_on state len = state >>= λ ((pool, d), empty). malloc_chunk_medium tell pool 0 d len

free_on : Option ((ℕ × Medium) × ℕ) → ℕ → Option ((ℕ × Medium) × Bool)
unfolding free_chunk_medium
free_on state offset = state >>= λ ((pool, d), a). free_chunk_medium tell pool d offset

fresh : Option ((ℕ × Medium) × Bool)
unfolding init_chunk_medium
fresh = init_chunk_medium zeros empty_pages >>= λ d. some ((0, d), false)

one_block : Option ((ℕ × Medium) × ℕ)
unfolding fresh malloc_on
one_block = malloc_on fresh 4096

two_blocks :
    malloc_on (one_block >>= λ ((pool, d), a). some ((pool, d), false)) 4096 >>= summary
    ≡ some (8192, (1036288, 253))
unfolding one_block malloc_on free_on summary rbtree_insert rbtree_delete fix_delete_round
    black_sibling_right black_sibling_left red_sibling_right red_sibling_left last_left_turn
    last_right_turn near_left_turn near_right_turn delete_swap swap_color swap_parent swap_left
    swap_right replace_child rbtree_fix_delete rbtree_lower rbtree_left_rotate rbtree_right_rotate
    rbtree_min_node rbtree_max medium_tree_compare set_medium_unit get_medium_unit clear_medium_unit
    find_next_medium_unit bitmap_get bitmap_set bitmap_clear bitmap_ffsp bitmap_bits2groups ffs_u64
    align_size find_prev_medium_unit
two_blocks = refl

-- The block of page 1 is freed while page 2 is in use, and two pages are asked for: the chunk has
-- 253 free pages in a row, and the assertion fails.
no_two_pages :
    malloc_on
      (free_on (malloc_on (one_block >>= λ ((pool, d), a). some ((pool, d), false)) 4096) 4096)
      8192
    ≡ none
unfolding one_block malloc_on free_on summary rbtree_insert rbtree_delete fix_delete_round
    black_sibling_right black_sibling_left red_sibling_right red_sibling_left last_left_turn
    last_right_turn near_left_turn near_right_turn delete_swap swap_color swap_parent swap_left
    swap_right replace_child rbtree_fix_delete rbtree_lower rbtree_left_rotate rbtree_right_rotate
    rbtree_min_node rbtree_max medium_tree_compare set_medium_unit get_medium_unit clear_medium_unit
    find_next_medium_unit bitmap_get bitmap_set bitmap_clear bitmap_ffsp bitmap_bits2groups ffs_u64
    align_size find_prev_medium_unit
no_two_pages = refl

-- A chunk whose one block is freed is empty again.
freed_empty :
    (free_on one_block 4096 >>= λ ((pool, d), empty). some (if empty then d.free_size else 0))
    ≡ some 255
unfolding one_block malloc_on free_on summary rbtree_insert rbtree_delete fix_delete_round
    black_sibling_right black_sibling_left red_sibling_right red_sibling_left last_left_turn
    last_right_turn near_left_turn near_right_turn delete_swap swap_color swap_parent swap_left
    swap_right replace_child rbtree_fix_delete rbtree_lower rbtree_left_rotate rbtree_right_rotate
    rbtree_min_node rbtree_max medium_tree_compare set_medium_unit get_medium_unit clear_medium_unit
    find_next_medium_unit bitmap_get bitmap_set bitmap_clear bitmap_ffsp bitmap_bits2groups ffs_u64
    align_size find_prev_medium_unit
freed_empty = refl

block : ℕ → ℕ → ℕ → ℕ → Node MediumValue
block x l r size = record {
  s = x;
  p = 0;
  left = l;
  right = r;
  v = record { size = size; index = x };
  color = black;
}

-- The chunk in which no_two_pages fails: blocks of 1 page at 1 and of 253 pages at 3.
abbrev two_free : ℕ → Node MediumValue
two_free zero = block 0 0 0 0
two_free (suc zero) = block 1 0 0 1
two_free (suc (suc x)) = block 3 1 0 253

abbrev apart : Medium
apart = record {
  max_size = 1;
  free_size = 254;
  tree = record { nodes = two_free; root = 3; size = 2 };
  bitmap_type = 4 ∷ 0 ∷ 0 ∷ 0 ∷ [];
  bitmap_up = zeros;
  bitmap_down = zeros;
}

apart-IsMirrored : IsMirrored apart
apart-IsMirrored = zeros-IsMirrored apart refl refl

medium_tree_compare_cases_example :
    medium_tree_compare (record { size = 2; index = 3 }) (record { size = 9; index = 12 })
    ≡ positive
medium_tree_compare_cases_example =
    ((medium_tree_compare_cases (record { size = 2; index = 3 }) (record { size = 9; index = 12 })
        (omega arith) (omega arith)).0
      (omega arith)).0

malloc_chunk_medium_stuck_example : malloc_chunk_medium tell 0 0 apart 8192 ≡ none
unfolding block align_size
malloc_chunk_medium_stuck_example =
    malloc_chunk_medium_stuck tell 0 0 apart 8192 1 1 (omega arith)
      (
        (omega arith, omega arith, omega arith),
        ((omega arith, omega arith, omega arith), refl, refl),
      )
      (omega arith)

set_medium_unit-Changes_example :
    (out : Medium) × (set_medium_unit apart 1 ≡ some out) × Changes apart 1 true out
set_medium_unit-Changes_example =
    (set_medium_unit-Changes apart 1 (omega arith) apart-IsMirrored).1 (bitmap_get-zeros 1)

clear_medium_unit-Changes_example : clear_medium_unit apart 7 ≡ none
clear_medium_unit-Changes_example =
    (clear_medium_unit-Changes apart 7 (omega arith) apart-IsMirrored).0 (bitmap_get-zeros 7)

find_prev_medium_unit-IsLast_example : IsLast apart 9 (find_prev_medium_unit apart 9)
find_prev_medium_unit-IsLast_example =
    find_prev_medium_unit-IsLast apart 9 (omega arith) apart-IsMirrored

-- The block at page 2 is in use and marked in both bitmaps.
abbrev page_2 : Medium
page_2 = record apart { bitmap_up = 4 ∷ 0 ∷ 0 ∷ 0 ∷ []; bitmap_down = 0 ∷ 0 ∷ 0 ∷ (2 ^ 61) ∷ [] }

page_2-IsMirrored : IsMirrored page_2
unfolding bitmap_set
page_2-IsMirrored =
    (write-Changes bitmap_set true (length-bitmap_set, bitmap_get-bitmap_set) apart 2 (omega arith)
      apart-IsMirrored).mirrored

check_chunk_medium-eq-zero_example : check_chunk_medium page_2 8192 ≡ some 0
check_chunk_medium-eq-zero_example =
    check_chunk_medium-eq-zero page_2 page_2-IsMirrored (λ p e. e) 8192

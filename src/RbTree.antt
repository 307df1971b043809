-- ===== src/RbTree.antt =====
-- The red-black trees of src/rbtree.h, generic in the key and its comparison as the macros are.
-- A pointer to a node is its position, where the memory `nodes` holds the node's fields. Position
-- 0 is RB_NULL; its place holds the `enode` that rbtree_delete keeps on the stack.
mod Tests
pub mod Update
pub mod Search
pub mod Extremes
pub mod Side
pub mod Ghost
pub mod Turn
pub mod Zipper
pub mod Sorted
pub mod Balance
pub mod Insert
pub mod Rotate
pub mod Delete
pub mod Found
pub mod Next
use shmmalloc.Base.{
  ℕ, zero, suc, ◌+◌, ◌-◌, ◌^◌, Bool, true, false, not, ◌&&◌, ◌||◌, Option, none, some, ◌==◌,
  if◌then◌else◌, u32,
}

-- What `RB_COMPARE(a, b)` says: negative, zero or positive.
pub data Sign : Type 0 where
  negative equal positive : Sign

pub data Colour : Type 0 where
  red black : Colour

abbrev pub is_red : Colour → Bool
is_red red = true
is_red black = false

abbrev pub is_negative : Sign → Bool
is_negative negative = true
is_negative equal = false
is_negative positive = false

pub record Node (K : Type 0) : Type 0 where
  pub s : ℕ
  pub p : ℕ
  pub left : ℕ
  pub right : ℕ
  pub v : K
  pub color : Colour

-- The tree's header and the memory of the nodes.
pub record Rb (K : Type 0) : Type 0 where
  pub nodes : ℕ → Node K
  pub root : ℕ
  pub size : ℕ

module _ {K : Type 0} where
  abbrev pub put : Rb K → ℕ → Node K → Rb K
  put t x n = record t { nodes = λ q. if x == q then n else t.nodes q }

  abbrev pub set_p : Rb K → ℕ → ℕ → Rb K
  set_p t x q = put t x (record (t.nodes x) { p = q })

  abbrev pub set_left : Rb K → ℕ → ℕ → Rb K
  set_left t x q = put t x (record (t.nodes x) { left = q })

  abbrev pub set_right : Rb K → ℕ → ℕ → Rb K
  set_right t x q = put t x (record (t.nodes x) { right = q })

  abbrev pub set_color : Rb K → ℕ → Colour → Rb K
  set_color t x c = put t x (record (t.nodes x) { color = c })

  -- `rbtree_check_node(x) && x->color == RB_RED`.
  abbrev pub red_at : Rb K → ℕ → Bool
  red_at t x = not (x == 0) && is_red (t.nodes x).color

  unfoldable pub rbtree_min_node : ℕ → Rb K → ℕ → Option ℕ
  rbtree_min_node zero t node = none
  rbtree_min_node (suc k) t node =
      let rest = rbtree_min_node k t (t.nodes node).left in
      if (t.nodes node).left == 0 then some node else rest

  unfoldable pub rbtree_max_node : ℕ → Rb K → ℕ → Option ℕ
  rbtree_max_node zero t node = none
  rbtree_max_node (suc k) t node =
      let rest = rbtree_max_node k t (t.nodes node).right in
      if (t.nodes node).right == 0 then some node else rest

  unfoldable pub rbtree_left_rotate : Rb K → ℕ → Rb K
  rbtree_left_rotate t node =
      let x = (t.nodes node).right in
      let p = (t.nodes node).p in
      let t1 = set_right t node (t.nodes x).left in
      let y = (t1.nodes node).right in
      let t2 = if y == 0 then t1 else set_p t1 y (t1.nodes node).s in
      let t3 = set_p t2 node (t2.nodes x).s in
      let t4 = set_left t3 x (t3.nodes node).s in
      let at_root = record (set_p t4 x 0) { root = (t4.nodes x).s } in
      let t5 =
        if (t4.nodes p).left == (t4.nodes node).s
        then set_left t4 p (t4.nodes x).s
        else set_right t4 p (t4.nodes x).s in
      if p == 0 then at_root else set_p t5 x (t5.nodes p).s

  unfoldable pub rbtree_right_rotate : Rb K → ℕ → Rb K
  rbtree_right_rotate t node =
      let x = (t.nodes node).left in
      let p = (t.nodes node).p in
      let t1 = set_left t node (t.nodes x).right in
      let y = (t1.nodes node).left in
      let t2 = if y == 0 then t1 else set_p t1 y (t1.nodes node).s in
      let t3 = set_p t2 node (t2.nodes x).s in
      let t4 = set_right t3 x (t3.nodes node).s in
      let at_root = record (set_p t4 x 0) { root = (t4.nodes x).s } in
      let t5 =
        if (t4.nodes p).left == (t4.nodes node).s
        then set_left t4 p (t4.nodes x).s
        else set_right t4 p (t4.nodes x).s in
      if p == 0 then at_root else set_p t5 x (t5.nodes p).s

  abbrev pub rbtree_init : (ℕ → Node K) → Rb K
  rbtree_init nodes = record { nodes = nodes; root = 0; size = 0 }

  pub rbtree_min : Rb K → Option ℕ
  unfolding rbtree_min_node
  rbtree_min t = if t.root == 0 then some 0 else rbtree_min_node (t.size + 1) t t.root

  -- `some 0` stands for NULL; `none`, out of fuel, for a walk that does not end.
  unfoldable pub rbtree_max : Rb K → Option ℕ
  unfolding rbtree_max_node
  rbtree_max t = if t.root == 0 then some 0 else rbtree_max_node (t.size + 1) t t.root

module _ {K : Type 0} where
  -- The loop of rbtree_next up to the first node of which `node` is on the left.
  unfoldable pub next_up : ℕ → Rb K → ℕ → Option ℕ
  next_up zero t node = none
  next_up (suc k) t node =
      let p = (t.nodes node).p in
      let rest = next_up k t p in
      if p == 0 then some 0 else if (t.nodes node).s == (t.nodes p).right then rest else some p

  unfoldable pub rbtree_next : Rb K → ℕ → Option ℕ
  rbtree_next t node =
      let right = (t.nodes node).right in
      if right == 0 then next_up (t.size + 1) t node else rbtree_min_node (t.size + 1) t right

  unfoldable pub prev_up : ℕ → Rb K → ℕ → Option ℕ
  prev_up zero t node = none
  prev_up (suc k) t node =
      let p = (t.nodes node).p in
      let rest = prev_up k t p in
      if p == 0 then some 0 else if (t.nodes node).s == (t.nodes p).left then rest else some p

  unfoldable pub rbtree_prev : Rb K → ℕ → Option ℕ
  rbtree_prev t node =
      let left = (t.nodes node).left in
      if left == 0 then prev_up (t.size + 1) t node else rbtree_max_node (t.size + 1) t left

module _ {K : Type 0} (cmp : K → K → Sign) where
  find_loop : ℕ → Rb K → K → ℕ → Option ℕ
  find_loop zero t val node = none
  find_loop (suc k) t val node =
      let right = find_loop k t val (t.nodes node).right in
      let left = find_loop k t val (t.nodes node).left in
      if node == 0 then some 0 else elim (cmp (t.nodes node).v val) [
        | negative ↦ right
        | positive ↦ left
        | equal ↦ some node
      ]

  pub rbtree_find : Rb K → K → Option ℕ
  unfolding find_loop
  rbtree_find t val = find_loop (t.size + 1) t val t.root

  -- The loop of rbtree_lower, with `prev` and `prev_bigger`.
  unfoldable pub lower_loop : ℕ → Rb K → K → ℕ → ℕ → Bool → Option ℕ
  lower_loop zero t val node prev prev_bigger = none
  lower_loop (suc k) t val node prev prev_bigger =
      let right = lower_loop k t val (t.nodes node).right node prev_bigger in
      let left = lower_loop k t val (t.nodes node).left node true in
      let result = some (if prev_bigger then prev else 0) in
      if node == 0
      then result
      else if is_negative (cmp (t.nodes node).v val)
      then (if prev_bigger then result else right)
      else left

  unfoldable pub rbtree_lower : Rb K → K → Option ℕ
  unfolding lower_loop
  rbtree_lower t val = lower_loop (t.size + 1) t val t.root 0 false

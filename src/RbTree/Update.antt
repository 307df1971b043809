-- ===== src/RbTree/Update.antt =====
-- rbtree_insert and rbtree_delete of src/rbtree.h with their rebalancing loops.
use shmmalloc.Base.{
  ℕ, zero, suc, ◌+◌, ◌-◌, ◌^◌, Bool, not, ◌&&◌, ◌||◌, Option, none, some, ◌==◌, if◌then◌else◌, u32,
  guard, ◌>>=◌,
}
use shmmalloc.RbTree.{
  Sign, red, black, is_red, is_negative, Rb, put, set_p, set_left, set_right, set_color, red_at,
  rbtree_min_node, rbtree_left_rotate, rbtree_right_rotate,
}

-- A round of the loop of rbtree_fix_delete ends at `break`, or goes on at a node.
pub data Round (K : Type 0) : Type 0 where
  go_on : Rb K → ℕ → Round K
  break : Rb K → Round K

module _ {K : Type 0} where
  unfoldable pub rbtree_node_init : Rb K → ℕ → Rb K
  rbtree_node_init t x = put t x (record (t.nodes x) { color = red; p = 0; left = 0; right = 0 })

  -- The `else` of the loop of rbtree_fix_insert where `p` is a left child and the uncle is not red.
  unfoldable pub insert_turn_right : Rb K → ℕ → ℕ → ℕ → Rb K × ℕ
  insert_turn_right t node p pp =
      let inner = (t.nodes node).s == (t.nodes p).right in
      let t1 = if inner then rbtree_left_rotate t p else t in
      let node' = if inner then p else node in
      let p' = if inner then node else p in
      (rbtree_right_rotate (set_color (set_color t1 p' black) pp red) pp, node')

  unfoldable pub insert_turn_left : Rb K → ℕ → ℕ → ℕ → Rb K × ℕ
  insert_turn_left t node p pp =
      let inner = (t.nodes node).s == (t.nodes p).left in
      let t1 = if inner then rbtree_right_rotate t p else t in
      let node' = if inner then p else node in
      let p' = if inner then node else p in
      (rbtree_left_rotate (set_color (set_color t1 p' black) pp red) pp, node')

  unfoldable pub insert_recolour : Rb K → ℕ → ℕ → ℕ → Rb K × ℕ
  insert_recolour t p pp uncle =
      (set_color (set_color (set_color t uncle black) p black) pp red, pp)

  -- One round of the loop of rbtree_fix_insert, whose test has found the red parent `p`.
  unfoldable pub fix_insert_round : Rb K → ℕ → ℕ → Rb K × ℕ
  unfolding insert_turn_right insert_turn_left insert_recolour
  fix_insert_round t node p =
      let pp = (t.nodes p).p in
      let left = (t.nodes pp).left in
      let right = (t.nodes pp).right in
      if (t.nodes p).s == left
      then (if red_at t right then insert_recolour t p pp right else insert_turn_right t node p pp)
      else if red_at t left
      then insert_recolour t p pp left
      else insert_turn_left t node p pp

  unfoldable pub rbtree_fix_insert : ℕ → Rb K → ℕ → Option (Rb K)
  unfolding fix_insert_round
  rbtree_fix_insert zero t node = none
  rbtree_fix_insert (suc k) t node =
      let p = (t.nodes node).p in
      let next = fix_insert_round t node p in
      let rest = rbtree_fix_insert k next.0 next.1 in
      if red_at t p then rest else some (if p == 0 then set_color t node black else t)

  abbrev pub black_at : Rb K → ℕ → Bool
  black_at t x = x == 0 || not (is_red (t.nodes x).color)

  -- The first `if`: `w` is red, and the sibling is black after the rotation.
  unfoldable pub red_sibling_right : Rb K → ℕ → Rb K
  red_sibling_right t p =
      let w = (t.nodes p).right in
      if is_red (t.nodes w).color
      then rbtree_left_rotate (set_color (set_color t w black) p red) p
      else t

  unfoldable pub red_sibling_left : Rb K → ℕ → Rb K
  red_sibling_left t p =
      let w = (t.nodes p).left in
      if is_red (t.nodes w).color
      then rbtree_right_rotate (set_color (set_color t w black) p red) p
      else t

  -- The red child `near` of `w` goes above it.
  unfoldable pub near_left_turn : Rb K → ℕ → ℕ → Rb K
  near_left_turn t w wl = rbtree_right_rotate (set_color (set_color t wl black) w red) w

  unfoldable pub near_right_turn : Rb K → ℕ → ℕ → Rb K
  near_right_turn t w wr = rbtree_left_rotate (set_color (set_color t wr black) w red) w

  -- The last colours and the last rotation.
  unfoldable pub last_left_turn : Rb K → ℕ → ℕ → ℕ → Rb K
  last_left_turn t p w wr =
      rbtree_left_rotate (set_color (set_color (set_color t w (t.nodes p).color) p black) wr black)
        p

  unfoldable pub last_right_turn : Rb K → ℕ → ℕ → ℕ → Rb K
  last_right_turn t p w wl =
      rbtree_right_rotate (set_color (set_color (set_color t w (t.nodes p).color) p black) wl black)
        p

  -- The rest of the round with the black sibling `w` on the right.
  unfoldable pub black_sibling_right : Rb K → ℕ → Round K
  black_sibling_right t p =
      let w = (t.nodes p).right in
      let wl = (t.nodes w).left in
      let wr = (t.nodes w).right in
      let far_black = black_at t wr in
      let t2 = if far_black then near_left_turn t w wl else t in
      let w' = if far_black then (t2.nodes p).right else w in
      let wr' = if far_black then (t2.nodes w').right else wr in
      if black_at t wl && far_black
      then go_on (set_color t w red) p
      else break (last_left_turn t2 p w' wr')

  unfoldable pub black_sibling_left : Rb K → ℕ → Round K
  black_sibling_left t p =
      let w = (t.nodes p).left in
      let wl = (t.nodes w).left in
      let wr = (t.nodes w).right in
      let far_black = black_at t wl in
      let t2 = if far_black then near_right_turn t w wr else t in
      let w' = if far_black then (t2.nodes p).left else w in
      let wl' = if far_black then (t2.nodes w').left else wl in
      if far_black && black_at t wr
      then go_on (set_color t w red) p
      else break (last_right_turn t2 p w' wl')

  unfoldable pub fix_delete_round : Rb K → ℕ → Round K
  fix_delete_round t node =
      let p = (t.nodes node).p in
      if (t.nodes p).left == (t.nodes node).s
      then black_sibling_right (red_sibling_right t p) p
      else black_sibling_left (red_sibling_left t p) p

  unfoldable pub rbtree_fix_delete : ℕ → Rb K → ℕ → Option (Rb K)
  rbtree_fix_delete zero t node = none
  rbtree_fix_delete (suc k) t node =
      if not ((t.nodes node).p == 0) && not (is_red (t.nodes node).color)
      then elim (fix_delete_round t node) [
        | go_on t' node' ↦ rbtree_fix_delete k t' node'
        | break t' ↦ some (set_color t' node black)
      ]
      else some (set_color t node black)

  -- `x` takes the place of `y` under the parent of `y`.
  unfoldable pub replace_child : Rb K → ℕ → ℕ → ℕ → Rb K
  replace_child t parent old new =
      if parent == 0
      then record t { root = new }
      else if (t.nodes parent).left == old
      then set_left t parent new
      else set_right t parent new

  -- The block `if(y != node)` of rbtree_delete in four steps: the colour,
  unfoldable pub swap_color : Rb K → ℕ → ℕ → ℕ → Rb K
  swap_color t node x y =
      let t1 = if (t.nodes y).p == (t.nodes node).s then set_p t x (t.nodes y).s else t in
      set_color t1 y (t1.nodes node).color

  -- the parent,
  unfoldable pub swap_parent : Rb K → ℕ → ℕ → Rb K
  swap_parent t node y =
      let t3 = replace_child t (t.nodes node).p (t.nodes node).s (t.nodes y).s in
      set_p (set_p t3 y (t3.nodes node).p) node 0

  -- and the children.
  unfoldable pub swap_left : Rb K → ℕ → ℕ → Rb K
  swap_left t node y =
      let l = (t.nodes node).left in
      let t5 = if l == 0 then t else set_p t l (t.nodes y).s in
      set_left (set_left t5 y (t5.nodes node).left) node 0

  unfoldable pub swap_right : Rb K → ℕ → ℕ → Rb K
  swap_right t node y =
      let r = (t.nodes node).right in
      let t7 = if r == 0 then t else set_p t r (t.nodes y).s in
      set_right (set_right t7 y (t7.nodes node).right) node 0

  unfoldable pub delete_swap : Rb K → ℕ → ℕ → ℕ → Rb K
  delete_swap t node x y =
      swap_right (swap_left (swap_parent (swap_color t node x y) node y) node y) node y

  unfoldable pub rbtree_delete : Rb K → ℕ → Option (Rb K)
  rbtree_delete t node =
      let enode = record (t.nodes 0) { s = 0; p = 0; left = 0; right = 0; color = black } in
      let t0 = record (put t 0 enode) { size = u32 (t.size + 2 ^ 32 - 1) } in
      let l = (t0.nodes node).left in
      let r = (t0.nodes node).right in
      let found = if l == 0 || r == 0 then some node else rbtree_min_node (t.size + 1) t0 r in
      found >>= λ y.
      let x = if l == 0 then r else if r == 0 then l else (t0.nodes y).right in
      let t1 = set_p t0 x (t0.nodes y).p in
      let t2 = replace_child t1 (t1.nodes y).p (t1.nodes y).s (t1.nodes x).s in
      let t3 = if y == node then t2 else delete_swap t2 node x y in
      if is_red (t2.nodes y).color then some t3 else rbtree_fix_delete (t.size + 2) t3 x

module _ {K : Type 0} (cmp : K → K → Sign) where
  -- The walk of rbtree_insert down to the node under which the new one goes.
  unfoldable pub insert_walk : ℕ → Rb K → K → ℕ → ℕ → Option ℕ
  insert_walk zero t val node pnode = none
  insert_walk (suc k) t val node pnode =
      let next =
        if is_negative (cmp (t.nodes pnode).v val)
        then (t.nodes pnode).right
        else (t.nodes pnode).left in
      let rest = insert_walk k t val pnode next in if pnode == 0 then some node else rest

  unfoldable pub rbtree_insert : Rb K → ℕ → Option (Rb K)
  unfolding insert_walk rbtree_node_init rbtree_fix_insert
  rbtree_insert t new_node =
      let t0 = record (rbtree_node_init t new_node) { size = u32 (t.size + 1) } in
      let s = (t0.nodes new_node).s in
      let first = record (set_color t0 new_node black) { root = s } in
      guard (s == new_node) (
        if t.root == 0
        then some first
        else insert_walk (t.size + 2) t0 (t0.nodes new_node).v 0 t.root >>= λ node.
            let t1 =
              if is_negative (cmp (t0.nodes node).v (t0.nodes new_node).v)
              then set_right t0 node s
              else set_left t0 node s in
            let t2 = set_p t1 new_node (t1.nodes node).s in
            rbtree_fix_insert (t.size + 2) t2 new_node)

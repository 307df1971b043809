-- ===== src/RbTree/Side.antt =====
-- The two sides of the symmetric code of src/rbtree.h, so that one proof serves both.
use shmmalloc.Base.{ℕ, ◌≡◌, refl}
use shmmalloc.RbTree.{Node, Rb, put, rbtree_left_rotate, rbtree_right_rotate}

pub data Side : Type 0 where
  lft rgt : Side

abbrev pub opposite : Side → Side
opposite lft = rgt
opposite rgt = lft

module _ {K : Type 0} where
  abbrev pub child : Side → Node K → ℕ
  child lft n = n.left
  child rgt n = n.right

  abbrev pub with_child : Side → ℕ → Node K → Node K
  with_child lft q n = record n { left = q }
  with_child rgt q n = record n { right = q }

  abbrev pub set_child : Side → Rb K → ℕ → ℕ → Rb K
  set_child d t x q = put t x (with_child d q (t.nodes x))

  -- The rotation that moves `x` down to the side `d`.
  abbrev pub rotate : Side → Rb K → ℕ → Rb K
  rotate lft t x = rbtree_left_rotate t x
  rotate rgt t x = rbtree_right_rotate t x

  pub child-with_child : (d : Side) (q : ℕ) (n : Node K) → child d (with_child d q n) ≡ q
  child-with_child lft q n = refl
  child-with_child rgt q n = refl

  pub s-with_child : (d : Side) (q : ℕ) (n : Node K) → (with_child d q n).s ≡ n.s
  s-with_child lft q n = refl
  s-with_child rgt q n = refl

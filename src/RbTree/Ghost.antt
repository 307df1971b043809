-- ===== src/RbTree/Ghost.antt =====
-- The trees that the memory of src/rbtree.h holds, with their colours, and trees around a gap.
-- A tree is a ghost: nothing of the code reads it. `key x` is the key of the node at `x`.
pub mod Frame
use shmmalloc.Base.{ℕ, zero, suc, ◌+◌, ◌≤◌, ◌<◌, ◌≡◌, ◌≢◌, ◌⊎◌, List, [], ◌∷◌, ◌++◌}
use shmmalloc.RbTree.{Colour, red, black, Node, Rb}
use shmmalloc.RbTree.Side.{Side, lft, rgt}

pub data Tree : Type 0 where
  tip : Tree
  fork : Colour → Tree → ℕ → Tree → Tree

-- The way up from a gap: the gap is the child of `x` on a side, and the other child is a tree.
pub data Way : Type 0 where
  top : Way
  step : Side → Colour → Way → ℕ → Tree → Way

abbrev pub root_of : Tree → ℕ
root_of tip = 0
root_of (fork c l x r) = x

abbrev pub parent_of : Way → ℕ
parent_of top = 0
parent_of (step d c up x other) = x

-- A fork whose children are named by their sides.
abbrev pub fork_at : Side → Colour → Tree → ℕ → Tree → Tree
fork_at lft c near x far = fork c near x far
fork_at rgt c near x far = fork c far x near

-- The whole tree, with a tree in the gap.
abbrev pub plug : Way → Tree → Tree
plug top tree = tree
plug (step d c up x other) tree = plug up (fork_at d c tree x other)

-- The positions from left to right.
abbrev pub inorder : Tree → List ℕ
inorder tip = []
inorder (fork c l x r) = inorder l ++ (x ∷ inorder r)

abbrev pub count : Tree → ℕ
count tip = 0
count (fork c l x r) = suc (count l + count r)

abbrev pub All : (ℕ → Type 0) → Tree → Type 0
All P tip = Unit
All P (fork c l x r) = P x × All P l × All P r

abbrev pub AllWay : (ℕ → Type 0) → Way → Type 0
AllWay P top = Unit
AllWay P (step d c up x other) = P x × All P other × AllWay P up

module _ {K : Type 0} (key : ℕ → K) where
  abbrev pub cell : ℕ → Colour → ℕ → ℕ → ℕ → Node K
  cell p c x l r = record { s = x; p = p; left = l; right = r; v = key x; color = c }

  -- A node whose child on the side `d` is `near`.
  abbrev pub cell_at : Side → ℕ → Colour → ℕ → ℕ → ℕ → Node K
  cell_at lft p c x near far = cell p c x near far
  cell_at rgt p c x near far = cell p c x far near

  -- The memory holds the tree, under the node `parent`.
  abbrev pub Stores : Rb K → ℕ → Tree → Type 0
  Stores t parent tip = Unit
  Stores t parent (fork c l x r) =
      (x ≢ 0) × (t.nodes x ≡ cell parent c x (root_of l) (root_of r)) × Stores t x l × Stores t x r

  -- The memory holds the way up from a gap in which the node `gap` stands.
  abbrev pub Around : Rb K → Way → ℕ → Type 0
  Around t top gap = t.root ≡ gap
  Around t (step d c up x other) gap =
      (x ≢ 0)
      × (t.nodes x ≡ cell_at d (parent_of up) c x gap (root_of other))
      × Stores t x other
      × Around t up x

-- The labels of the nodes grow from left to right, from `lo` on and below `hi`. So no node stands
-- in a tree twice.
abbrev pub Within : (ℕ → ℕ) → ℕ → ℕ → Tree → Type 0
Within label lo hi tip = lo ≤ hi
Within label lo hi (fork c l x r) = Within label lo (label x) l × Within label (suc (label x)) hi r

-- The same of a way up, whose gap has the labels from `lo` on and below `hi`.
abbrev pub Outside : (ℕ → ℕ) → ℕ → ℕ → Way → Type 0
Outside label lo hi top = Unit
Outside label lo hi (step lft c up x other) =
    (end : ℕ) × (hi ≤ label x) × Within label (suc (label x)) end other × Outside label lo end up
Outside label lo hi (step rgt c up x other) =
    (start : ℕ) × (label x < lo) × Within label start (label x) other × Outside label start hi up

-- ===== src/PoolTree.antt =====
-- The run pools' trees: src/shm_tree.h and src/shm_tree.c.
-- A node is named by its position, and the heap gives the node at each position. Positions of
-- nodes lie in arenas that are mapped, so shm_tree_getaddr finds every position but SHM_NULL.
pub mod Shape
pub mod Merge
pub mod Pool
pub mod Remove
pub mod Stale
mod Tests
use shmmalloc.Base.{
  ℕ, zero, suc, ◌+◌, ◌-◌, ◌^◌, not, ◌&&◌, Option, none, some, ltb, ◌==◌, if◌then◌else◌, u32, ◌>>=◌,
  guard,
}
use shmmalloc.Position.{shm_null}

pub record TreeNode : Type 0 where
  pub rank : ℕ
  pub root : ℕ
  pub left : ℕ
  pub right : ℕ

pub record ShmPool : Type 0 where
  pub root : ℕ
  pub size : ℕ

abbrev pub Heap : Type 0
Heap = ℕ → TreeNode

-- A write through the address of `p`.
abbrev pub store : Heap → ℕ → TreeNode → Heap
store h p n q = if p == q then n else h q

-- The end of shm_tree_merge, from `rnode.addr->root = tr1.pos` on: `a` is `tr1`, `r` is `rnode`.
unfoldable pub shm_tree_link : Heap → ℕ → ℕ → Heap
shm_tree_link h a r =
    let h1 = store h r (record (h r) { root = a }) in
    let h2 = store h1 a (record (h1 a) { right = r }) in
    let n = h2 a in
    let lrank = (h2 n.left).rank in
    let rrank = (h2 r).rank in
    if n.left == shm_null
    then store h2 a (record n { left = r; right = shm_null })
    else if ltb lrank rrank
    then store h2 a (record n { left = r; right = n.left; rank = u32 (lrank + 1) })
    else store h2 a (record n { rank = u32 (rrank + 1) })

abbrev pub link_under : ℕ → Heap × ℕ → Option (Heap × ℕ)
link_under a (h, r) = some (shm_tree_link h a r, a)

-- shm_tree_merge, on fuel for the depth of the recursion.
unfoldable pub shm_tree_merge : ℕ → Heap → ℕ → ℕ → Option (Heap × ℕ)
shm_tree_merge zero h tr1 tr2 = none
shm_tree_merge (suc k) h tr1 tr2 =
    let a = if ltb tr2 tr1 then tr2 else tr1 in
    let b = if ltb tr2 tr1 then tr1 else tr2 in
    let rest = shm_tree_merge k h (h a).right b >>= link_under a in
    if tr1 == shm_null then some (h, tr2) else if tr2 == shm_null then some (h, tr1) else rest

unfoldable pub shm_tree_push : Heap → ShmPool → ℕ → Option (Heap × ShmPool)
shm_tree_push h pool node = shm_tree_merge (pool.size + 2) h pool.root node >>= λ (h', r).
    some (h', record { root = r; size = u32 (pool.size + 1) })

-- `if(r.addr != NULL) r.addr->root = p`.
abbrev pub set_root : Heap → ℕ → ℕ → Heap
set_root h r p = if r == shm_null then h else store h r (record (h r) { root = p })

unfoldable pub shm_tree_pop : Heap → ShmPool → Option (Heap × ShmPool)
shm_tree_pop h pool = guard (ltb 0 pool.size && not (pool.root == shm_null)) (
    shm_tree_merge (pool.size + 1) h (h pool.root).left (h pool.root).right >>= λ (h', r).
    some (set_root h' r shm_null, record { root = r; size = pool.size - 1 }))

-- The end of shm_tree_remove: the child `node` of `root` is replaced by `r`.
pub shm_tree_splice : Heap → ℕ → ℕ → ℕ → Heap
shm_tree_splice h root node r =
    let h1 = set_root h r root in
    if node == (h1 root).left
    then store h1 root (record (h1 root) { left = r })
    else store h1 root (record (h1 root) { right = r })

unfoldable pub shm_tree_remove : Heap → ShmPool → ℕ → Option (Heap × ShmPool)
unfolding shm_tree_pop
shm_tree_remove h pool node =
    if pool.root == node
    then shm_tree_pop h pool
    else guard (not (node == shm_null)) (
        shm_tree_merge (pool.size + 1) h (h node).left (h node).right >>= λ (h', r).
        guard (not ((h' node).root == shm_null)) (
          some (
            shm_tree_splice h' (h' node).root node r,
            record { root = pool.root; size = u32 (pool.size + 2 ^ 32 - 1) },
          )))

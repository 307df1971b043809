-- ===== src/PoolTree/Stale.antt =====
-- A run that is full leaves its pool by shm_tree_pop and comes back by shm_tree_push
-- (malloc_chunk_run and free_chunk_small of src/chunk_small.c). Neither clears the node's links.
use mathlib.Core.Bool.{false≢true}
use shmmalloc.Base.{
  ℕ, suc, ◌<◌, ◌≡◌, ◌≢◌, refl, sym, ap, ◌∙◌, true, false, Option, some, arith, ltb, ◌==◌,
  if◌then◌else◌, ne→==, eq→==, lt→ltb, le→ltb, ◌>>=◌,
}
use shmmalloc.Position.{shm_null}
use shmmalloc.PoolTree.{
  TreeNode, ShmPool, Heap, store, shm_tree_link, shm_tree_merge, shm_tree_push, shm_tree_pop,
}
use shmmalloc.PoolTree.Shape.{Tree, leaf, node, top, mem, mem_top}
use shmmalloc.PoolTree.Merge.Link.{link-left, link-right, link-child}
use shmmalloc.PoolTree.Merge.{IsHeapTree}
use shmmalloc.PoolTree.Pool.{IsPool, IsBlank}

abbrev pub empty_pool : ShmPool
empty_pool = record { root = shm_null; size = 0 }

-- Two runs `a` and `b` enter the pool; `a` fills up, has a slot freed, and fills up again.
pub refill : Heap → ℕ → ℕ → Option (Heap × ShmPool)
refill h a b =
    shm_tree_push h empty_pool a
    >>= (λ (h, p). shm_tree_push h p b)
    >>= (λ (h, p). shm_tree_pop h p)
    >>= (λ (h, p). shm_tree_push h p a)
    >>= (λ (h, p). shm_tree_pop h p)

merge_null :
    (k : ℕ) (h : Heap) (a : ℕ) → a ≢ shm_null → shm_tree_merge (suc k) h a shm_null ≡ some (h, a)
unfolding shm_tree_merge
merge_null k h a ne = rw (ne→== a shm_null ne)

merge_end :
    (k : ℕ) (h : Heap) (a b : ℕ)
    → a ≢ shm_null
    → b ≢ shm_null
    → ltb b a ≡ false
    → (h a).right ≡ shm_null
    → shm_tree_merge (suc (suc k)) h a b ≡ some (shm_tree_link h a b, a)
unfolding shm_tree_merge
merge_end k h a b na nb lt e = rw (ne→== a shm_null na, ne→== b shm_null nb, lt, e)

merge_end_swapped :
    (k : ℕ) (h : Heap) (a b : ℕ)
    → a ≢ shm_null
    → b ≢ shm_null
    → ltb a b ≡ true
    → (h a).right ≡ shm_null
    → shm_tree_merge (suc (suc k)) h b a ≡ some (shm_tree_link h a b, a)
unfolding shm_tree_merge
merge_end_swapped k h a b na nb lt e = rw (ne→== a shm_null na, ne→== b shm_null nb, lt, e)

merge_first : (k : ℕ) (h : Heap) (a : ℕ) → shm_tree_merge (suc k) h shm_null a ≡ some (h, a)
unfolding shm_tree_merge
merge_first k h a = refl

linked_twice : (l b i j : ℕ) → l ≡ b → (if l == shm_null then b else if ltb i j then b else l) ≡ b
linked_twice l b i j e = ground arith

linked_other :
    (l b i j : ℕ)
    → l ≡ b
    → 0 < b
    → (if l == shm_null then shm_null else if ltb i j then l else b) ≡ b
linked_other l b i j e pos = ground arith

-- A node linked below itself.
link_self : (h : Heap) (b : ℕ) → (h b).left ≡ shm_null → (shm_tree_link h b b b).left ≡ b
unfolding shm_tree_link
link_self h b e = ground arith

abbrev pool : ℕ → ℕ → ShmPool
pool r n = record { root = r; size = n }

module _ (h : Heap) (a b : ℕ) (pos : 0 < a) (lt : a < b) (blank_a : IsBlank (h a))
    (blank_b : IsBlank (h b)) where
  abbrev h1 : Heap
  h1 = shm_tree_link h a b

  abbrev h2 : Heap
  h2 = store h1 b (record (h1 b) { root = shm_null })

  abbrev h3 : Heap
  h3 = shm_tree_link h2 a b

  abbrev h4 : Heap
  h4 = shm_tree_link h3 b b

  abbrev h5 : Heap
  h5 = store h4 b (record (h4 b) { root = shm_null })

  -- After the pop `a` still has the child `b`.
  first_links :
      ((h2 a).left ≡ b)
      × ((h2 a).right ≡ shm_null)
      × ((h2 b).left ≡ shm_null)
      × ((h2 b).right ≡ shm_null)
  unfolding shm_tree_link
  first_links = ground (arith, blank_a.left, blank_a.right, blank_b.left, blank_b.right)

  first_left : (h1 a).left ≡ b
  unfolding shm_tree_link
  first_left = ground (arith, blank_a.left)

  first_right : (h1 a).right ≡ shm_null
  unfolding shm_tree_link
  first_right = ground (arith, blank_a.left)

  -- After the second push it has it twice.
  second_links :
      ((h3 a).left ≡ b) × ((h3 a).right ≡ b) × ((h3 b).left ≡ shm_null) × ((h3 b).right ≡ shm_null)
  second_links =
      let (la, ra, lb, rb) = first_links in
      let ne : a ≢ b = omega arith in
      (
        link-left h2 a b ne ∙ linked_twice (h2 a).left b (h2 (h2 a).left).rank (h2 b).rank la,
        link-right h2 a b ne
            ∙ linked_other (h2 a).left b (h2 (h2 a).left).rank (h2 b).rank la (omega arith),
        ap (λ (n : TreeNode). n.left) (link-child h2 a b ne) ∙ lb,
        ap (λ (n : TreeNode). n.right) (link-child h2 a b ne) ∙ rb,
      )

  last_left : (h5 b).left ≡ b
  last_left = rw (eq→== b b refl) (link_self h3 b second_links.2)

  na : a ≢ shm_null
  na = omega arith

  nb : b ≢ shm_null
  nb = omega arith

  push_first : shm_tree_push h empty_pool a ≡ some (h, pool a 1)
  unfolding shm_tree_push
  push_first = rw (merge_first 1 h a)

  push_second : shm_tree_push h (pool a 1) b ≡ some (h1, pool a 2)
  unfolding shm_tree_push
  push_second = rw (merge_end 1 h a b na nb (le→ltb b a (omega arith)) blank_a.right)

  pop_first : shm_tree_pop h1 (pool a 2) ≡ some (h2, pool b 1)
  unfolding shm_tree_pop
  pop_first =
      rw (ne→== a shm_null na, first_left, first_right, merge_null 2 h1 b nb, ne→== b shm_null nb)

  push_again : shm_tree_push h2 (pool b 1) a ≡ some (h3, pool a 2)
  unfolding shm_tree_push
  push_again = rw (merge_end_swapped 1 h2 a b na nb (lt→ltb a b lt) first_links.1)

  pop_again : shm_tree_pop h3 (pool a 2) ≡ some (h5, pool b 1)
  unfolding shm_tree_pop
  pop_again =
      let (la, ra, lb, rb) = second_links in
      rw (
        ne→== a shm_null na,
        la,
        ra,
        merge_end 1 h3 b b nb nb (le→ltb b b (omega arith)) rb,
        ne→== b shm_null nb,
      )

  refill_runs : refill h a b ≡ some (h5, pool b 1)
  unfolding refill
  refill_runs = rw (push_first, push_second, pop_first, push_again, pop_again)

-- The top of a tree is not its own left child.
not_own_child :
    (g : Heap) (t : Tree) → IsHeapTree g t → (g (top t)).left ≡ top t → top t ≢ shm_null → ⊥
not_own_child g leaf is e ne = ne refl
not_own_child g (node p leaf r) is e ne = ne (sym e ∙ is.tree.1)
not_own_child g (node p (node q x y) r) is e ne =
    let same : p ≡ q = sym e ∙ is.tree.1 in
    false≢true (sym is.distinct.0 ∙ ap (λ a. mem a (node q x y)) same ∙ mem_top q x y)

-- Two runs `a` and `b` with blank links, `a` the lower one, go through an empty pool: push of `a`,
-- push of `b`, pop, push of `a` again, pop again. All five calls return; `b` is then the root of the
-- pool and its own left child, and the heap holds no tree for the pool.
pub refill_cycle :
    (h : Heap) (a b : ℕ)
    → 0 < a
    → a < b
    → IsBlank (h a)
    → IsBlank (h b)
    → (g : Heap) × (p : ShmPool) × (refill h a b ≡ some (g, p))
      × (p.root ≡ b)
      × ((g b).left ≡ b)
      × ((t : Tree) → ¬ IsPool g p t)
refill_cycle h a b pos lt blank_a blank_b = (
  h5 h a b pos lt blank_a blank_b,
  pool b 1,
  refill_runs h a b pos lt blank_a blank_b,
  refl,
  last_left h a b pos lt blank_a blank_b,
  λ t is.
      not_own_child (h5 h a b pos lt blank_a blank_b) t is.tree
        (ap (λ q. (h5 h a b pos lt blank_a blank_b q).left) (sym is.root)
          ∙ last_left h a b pos lt blank_a blank_b
          ∙ is.root)
        (λ e. nb h a b pos lt blank_a blank_b (is.root ∙ e)),
)

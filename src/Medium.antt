-- ===== src/Medium.antt =====
-- Medium chunks, src/chunk_medium.c: a chunk of 256 pages, page 0 with the header, whose free
-- blocks form a red-black tree that is kept in their own first pages. A chunk's pool is told of
-- a new maximum through `update_chunk_pool` of src/shm_chunk.c, here a parameter of the section.
mod Units
mod Compare
mod Tests
use shmmalloc.Base.{
  ℕ, zero, suc, ◌+◌, ◌-◌, ◌*◌, ◌/◌, ◌%◌, ◌^◌, Bool, true, false, not, ◌&&◌, ◌||◌, Option, none,
  some, ltb, leb, ◌==◌, if◌then◌else◌, u16, u32, u64, guard, ◌>>=◌,
}
use shmmalloc.Position.{shm_page_size, shm_chunk_unit_size, align_size}
use shmmalloc.Bitmap.{Bitmap, bitmap_get, bitmap_set, bitmap_clear, bitmap_ffsp}
use shmmalloc.RbTree.{
  Sign, negative, equal, positive, Node, Rb, put, rbtree_init, rbtree_max, rbtree_lower,
}
use shmmalloc.RbTree.Update.{rbtree_insert, rbtree_delete}

abbrev pub chunk_medium_units : ℕ
chunk_medium_units = shm_chunk_unit_size / shm_page_size

pub record MediumValue : Type 0 where
  pub size : ℕ
  pub index : ℕ

-- `return r` of an int whose value is `r`, and of `a - b`.
abbrev sign_of : ℕ → ℕ → Sign
sign_of a b = if ltb a b then negative else if a == b then equal else positive

-- The difference of the sizes is kept in a uint16_t.
unfoldable pub medium_tree_compare : MediumValue → MediumValue → Sign
medium_tree_compare a b =
    let r = u16 (a.size + 2 ^ 16 - b.size) in
    if not (r == 0) then sign_of r 0 else sign_of a.index b.index

pub record Medium : Type 0 where
  pub max_size : ℕ
  pub free_size : ℕ
  pub tree : Rb MediumValue
  pub bitmap_type : Bitmap
  pub bitmap_up : Bitmap
  pub bitmap_down : Bitmap

-- The unit that `p` is, counted from the chunk's end.
abbrev pub mirror : ℕ → ℕ
mirror p = u16 (2 ^ 16 + (chunk_medium_units - 1) - p)

unfoldable pub set_medium_unit : Medium → ℕ → Option Medium
set_medium_unit d p =
    guard (not (bitmap_get d.bitmap_up p) && not (bitmap_get d.bitmap_down (mirror p))) (
      some (record d {
        bitmap_up = bitmap_set d.bitmap_up p;
        bitmap_down = bitmap_set d.bitmap_down (mirror p);
      }))

pub get_medium_unit : Medium → ℕ → Option Bool
get_medium_unit d p =
    let r = bitmap_get d.bitmap_up p in
    let down = bitmap_get d.bitmap_down (mirror p) in guard (if r then down else not down) (some r)

pub clear_medium_unit : Medium → ℕ → Option Medium
clear_medium_unit d p = guard (bitmap_get d.bitmap_up p && bitmap_get d.bitmap_down (mirror p)) (
    some (record d {
      bitmap_up = bitmap_clear d.bitmap_up p;
      bitmap_down = bitmap_clear d.bitmap_down (mirror p);
    }))

pub find_next_medium_unit : Medium → ℕ → ℕ
find_next_medium_unit d p = u16 (bitmap_ffsp d.bitmap_up p chunk_medium_units)

pub find_prev_medium_unit : Medium → ℕ → ℕ
find_prev_medium_unit d p =
    let q = u16 (bitmap_ffsp d.bitmap_down (mirror p) chunk_medium_units) in
    if not (q == chunk_medium_units) then mirror q else chunk_medium_units

pub get_medium_max_size : Medium → ℕ
get_medium_max_size d = u32 (d.max_size * shm_page_size)

-- The free block that starts at page `s`, its links not yet set.
put_block : Rb MediumValue → ℕ → MediumValue → Rb MediumValue
put_block t s v = put t s (record (t.nodes s) { s = s; v = v })

-- A block's entry is cleared.
clear_block : Rb MediumValue → ℕ → Rb MediumValue
clear_block t n = put t n (record (t.nodes n) { s = 0; v = record { size = 0; index = 0 } })

-- The chunk is new: its bitmaps are all 0 and `nodes` is what its pages hold.
unfoldable pub init_chunk_medium : Bitmap → (ℕ → Node MediumValue) → Option Medium
unfolding put_block
init_chunk_medium zeros nodes =
    let first : MediumValue = record { size = chunk_medium_units - 1; index = 1 } in
    rbtree_insert medium_tree_compare (put_block (rbtree_init nodes) 1 first) 1 >>= λ t.
    set_medium_unit
      (record {
        max_size = chunk_medium_units - 1;
        free_size = chunk_medium_units - 1;
        tree = t;
        bitmap_type = zeros;
        bitmap_up = zeros;
        bitmap_down = zeros;
      })
      1

-- What the two merges of free_chunk_medium do when the block at `index` is free.
merge_block : Medium → ℕ → Option Medium
unfolding clear_block
merge_block d index = guard ((d.tree.nodes index).s == index && ltb 0 (d.tree.nodes index).v.size) (
    rbtree_delete d.tree index >>= λ t. clear_medium_unit (record d { tree = t }) index >>= λ d'.
    some (record d' { tree = clear_block d'.tree index }))

is_free_block : Medium → ℕ → Bool
is_free_block d index = not (index == chunk_medium_units) && not (bitmap_get d.bitmap_type index)

merge_next : Medium → MediumValue → ℕ → Option (Medium × MediumValue)
unfolding merge_block is_free_block
merge_next d insert index =
    if is_free_block d index
    then (merge_block d index >>= λ d'.
        some (d', record insert { size = u16 (insert.size + (d.tree.nodes index).v.size) }))
    else some (d, insert)

merge_prev : Medium → MediumValue → ℕ → Option (Medium × MediumValue)
unfolding merge_block is_free_block
merge_prev d insert index =
    if is_free_block d index
    then (merge_block d index >>= λ d'.
        some (d', record { size = u16 (insert.size + (d.tree.nodes index).v.size); index = index }))
    else some (d, insert)

-- `chunk_medium_units` and more, or an offset inside a page, is not a block.
unfoldable pub is_medium_offset : ℕ → Bool
is_medium_offset offset =
    ltb (u16 (offset / shm_page_size)) chunk_medium_units && offset % shm_page_size == 0

-- The size of the block in bytes, 0 for an offset that is not one of a block in use.
unfoldable pub check_chunk_medium : Medium → ℕ → Option ℕ
unfolding is_medium_offset
check_chunk_medium d offset =
    let curr = u16 (offset / shm_page_size) in
    let next = find_next_medium_unit d curr in
    if not (is_medium_offset offset)
    then some 0
    else if not (bitmap_get d.bitmap_type curr)
    then some 0
    else get_medium_unit d curr >>= λ used.
        guard used (some (u16 (next + 2 ^ 16 - curr) * shm_page_size))

module _ {S : Type 0} (update_chunk_pool : S → ℕ → Option S) where
  pub check_chunk_medium_max : S → Medium → ℕ → Option (S × Medium)
  check_chunk_medium_max pool d s =
      let largest =
        if s == 0
        then (rbtree_max d.tree >>= λ n. some (if n == 0 then 0 else (d.tree.nodes n).v.size))
        else some s in
      largest >>= λ s'.
      if not (d.max_size == s')
      then (update_chunk_pool pool (u32 (s' * shm_page_size)) >>= λ pool'.
          some (pool', record d { max_size = s' }))
      else some (pool, d)

  -- The block `n` is cut: the pages behind its first `size` become a free block.
  pub split_block : Medium → ℕ → ℕ → Option Medium
  unfolding put_block
  split_block d n size =
      let v = (d.tree.nodes n).v in
      let index = u16 (v.index + size) in
      let left = u16 (v.size + 2 ^ 16 - size) in
      if ltb size v.size
      then guard (leb (index + left) chunk_medium_units) (
          rbtree_insert medium_tree_compare
            (put_block d.tree index (record { size = left; index = index })) index
          >>= λ t. set_medium_unit (record d { tree = t }) index)
      else some d

  -- The pages from the block `n` on go to the caller. `base` is the chunk's position.
  unfoldable pub malloc_chunk_medium : S → ℕ → Medium → ℕ → Option ((S × Medium) × ℕ)
  unfolding check_chunk_medium_max split_block clear_block
  malloc_chunk_medium pool base d len =
      let size = u16 (align_size len shm_page_size / shm_page_size) in
      rbtree_lower medium_tree_compare d.tree (record { size = size; index = 0 }) >>= λ n.
      let v = (d.tree.nodes n).v in
      guard (not (n == 0)) (
        guard (leb size v.size && v.index == (d.tree.nodes n).s) (
          split_block d n size >>= λ d1. rbtree_delete d1.tree n >>= λ t.
          let d2 = record d1 {
            tree = t;
            bitmap_type = bitmap_set d1.bitmap_type (t.nodes n).s;
            free_size = u16 (d1.free_size + 2 ^ 16 - size);
          } in
          let told =
            if leb d2.max_size (t.nodes n).v.size
            then check_chunk_medium_max pool d2 0
            else some (pool, d2) in
          told >>= λ (pool', d3). some (
            (pool', record d3 { tree = clear_block d3.tree n }),
            u64 (base + (d1.tree.nodes n).s * shm_page_size),
          )))

  -- The block at page `curr`, which is in use, becomes free: the body of free_chunk_medium.
  pub free_block : S → Medium → ℕ → Option ((S × Medium) × Bool)
  unfolding check_chunk_medium_max merge_next merge_prev put_block
  free_block pool d curr = clear_medium_unit d curr >>= λ d1.
      let d2 = record d1 { bitmap_type = bitmap_clear d1.bitmap_type curr } in
      let next = find_next_medium_unit d2 curr in
      let curr_size = u16 (next + 2 ^ 16 - curr) in
      merge_next d2 (record { size = curr_size; index = curr }) next >>= λ (d3, v3).
      merge_prev d3 v3 (find_prev_medium_unit d3 curr) >>= λ (d4, v4).
      rbtree_insert medium_tree_compare (put_block d4.tree v4.index v4) v4.index >>= λ t.
      set_medium_unit (record d4 { tree = t }) v4.index >>= λ d5.
      let d6 = record d5 { free_size = u16 (d5.free_size + curr_size) } in
      let told =
        if leb d6.max_size (d6.tree.nodes v4.index).v.size
        then check_chunk_medium_max pool d6 (d6.tree.nodes v4.index).v.size
        else some (pool, d6) in
      told >>= λ (pool', d7). some ((pool', d7), d7.free_size == chunk_medium_units - 1)

  unfoldable pub free_chunk_medium : S → Medium → ℕ → Option ((S × Medium) × Bool)
  unfolding free_block is_medium_offset
  free_chunk_medium pool d offset =
      let curr = u16 (offset / shm_page_size) in
      if not (is_medium_offset offset)
      then some ((pool, d), false)
      else if not (bitmap_get d.bitmap_type curr)
      then some ((pool, d), false)
      else get_medium_unit d curr >>= λ used. guard used (free_block pool d curr)

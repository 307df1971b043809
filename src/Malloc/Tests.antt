-- ===== src/Malloc/Tests.antt =====
-- Runs of shm_malloc, shm_free and shm_realloc on a new context.
use shmmalloc.Base.{
  ℕ, ◌+◌, ◌^◌, ◌==◌, if◌then◌else◌, ◌∷◌, replicate, inl, arith, ◌≡◌, refl, true, Option, some, none,
  ◌>>=◌,
}
use shmmalloc.Position.{index2pos, pos2index, pos2offset}
use shmmalloc.SizeClass.{
  lookup_class, find_run_config, class_elemsize, class_total, run_config_list,
}
use shmmalloc.Bitmap.{
  bitmap_get, bitmap_set, bitmap_clear, bitmap_sfu, bitmap_ffu, bitmap_bits2groups, ffs_u64,
}
use shmmalloc.PoolTree.{shm_tree_push, shm_tree_pop, shm_tree_remove, shm_tree_merge, shm_tree_link}
use shmmalloc.Run.{malloc_run, free_run, run_full, run_empty, init_run}
use shmmalloc.RbTree.{rbtree_lower, rbtree_left_rotate, rbtree_right_rotate, rbtree_min_node}
use shmmalloc.RbTree.Update.{rbtree_insert, rbtree_delete}
use shmmalloc.Context.{arena_context, Context, is_arena_valid, get_arena_chunk}
use shmmalloc.Context.Start.{start}
use shmmalloc.Chunk.Pool.{
  chunk_tree_compare, insert_chunk, get_avaliable_chunk, delete_chunk, update_chunk_pool,
}
use shmmalloc.Chunk.Small.{
  find_run, init_chunk_small, new_chunk_run, malloc_chunk_run, free_chunk_run, free_chunk_small,
  check_chunk_small,
}
use shmmalloc.Chunk.Types.{init_chunk, free_chunk, check_chunk}
use shmmalloc.Arena.{
  mmap_arena, Os, get_or_update_addr, get_or_update_arena_addr, new_arena, new_arena_chunk,
  take_chunk, set_arena_addr,
}
use shmmalloc.Arena.Alloc.{find_chunk, new_chunk, get_or_new_chunk, try_run_pool, malloc_arena}
use shmmalloc.Arena.Dispatch.{free_arena, check_arena}
use shmmalloc.Malloc.{shm_malloc, shm_free, shm_realloc, shm_check_size}
use shmmalloc.Malloc.Init.{shm_init, shm_exit}
use shmmalloc.Arena.Init.{init_shared_context, init_shm_shared_field, exit_shared_context}
use shmmalloc.Malloc.Realloc.{IsInLaterChunk, shm_realloc_later}

-- A system that always makes and attaches the segment that is asked for.
abbrev os : Os
os = record {
  get_key = λ i. some (i + 100);
  create = λ key size. some (key + 1000);
  find = λ key. some (key + 1000);
  lock_file = true;
  remove = λ shmid. true;
  attach = λ shmid. true;
}

abbrev position : Option (Context × ℕ) → Option ℕ
position r = r >>= λ (c, pos). some pos

malloc_24 : position (shm_malloc os (start 7) 24) ≡ some 1052736
unfolding index2pos pos2index pos2offset find_run_config lookup_class class_elemsize class_total
    bitmap_get bitmap_set bitmap_clear bitmap_sfu bitmap_ffu bitmap_bits2groups ffs_u64
    shm_tree_push shm_tree_pop shm_tree_remove malloc_run free_run run_full run_empty init_run
    rbtree_lower rbtree_left_rotate rbtree_right_rotate rbtree_min_node rbtree_insert rbtree_delete
    is_arena_valid get_arena_chunk chunk_tree_compare insert_chunk get_avaliable_chunk delete_chunk
    update_chunk_pool find_run init_chunk_small new_chunk_run malloc_chunk_run free_chunk_run
    free_chunk_small check_chunk_small init_chunk free_chunk check_chunk get_or_update_addr
    get_or_update_arena_addr new_arena new_arena_chunk take_chunk set_arena_addr find_chunk
    new_chunk get_or_new_chunk try_run_pool malloc_arena free_arena check_arena shm_malloc shm_free
    shm_realloc shm_check_size shm_tree_merge shm_tree_link run_config_list
malloc_24 = refl

-- The second block of 24 bytes has the run's second slot, and the first slot is used again.
malloc_again :
    position (
      shm_malloc os (start 7) 24 >>= λ (c1, a).
      shm_malloc os c1 24 >>= λ (c2, b). shm_free os c2 a >>= λ c3. shm_malloc os c3 24)
    ≡ some 1052736
unfolding index2pos pos2index pos2offset find_run_config lookup_class class_elemsize class_total
    bitmap_get bitmap_set bitmap_clear bitmap_sfu bitmap_ffu bitmap_bits2groups ffs_u64
    shm_tree_push shm_tree_pop shm_tree_remove malloc_run free_run run_full run_empty init_run
    rbtree_lower rbtree_left_rotate rbtree_right_rotate rbtree_min_node rbtree_insert rbtree_delete
    is_arena_valid get_arena_chunk chunk_tree_compare insert_chunk get_avaliable_chunk delete_chunk
    update_chunk_pool find_run init_chunk_small new_chunk_run malloc_chunk_run free_chunk_run
    free_chunk_small check_chunk_small init_chunk free_chunk check_chunk get_or_update_addr
    get_or_update_arena_addr new_arena new_arena_chunk take_chunk set_arena_addr find_chunk
    new_chunk get_or_new_chunk try_run_pool malloc_arena free_arena check_arena shm_malloc shm_free
    shm_realloc shm_check_size shm_tree_merge shm_tree_link run_config_list
malloc_again = refl

check_24 : position (shm_malloc os (start 7) 24 >>= λ (c1, a). shm_check_size os c1 a) ≡ some 0
unfolding index2pos pos2index pos2offset find_run_config lookup_class class_elemsize class_total
    bitmap_get bitmap_set bitmap_clear bitmap_sfu bitmap_ffu bitmap_bits2groups ffs_u64
    shm_tree_push shm_tree_pop shm_tree_remove malloc_run free_run run_full run_empty init_run
    rbtree_lower rbtree_left_rotate rbtree_right_rotate rbtree_min_node rbtree_insert rbtree_delete
    is_arena_valid get_arena_chunk chunk_tree_compare insert_chunk get_avaliable_chunk delete_chunk
    update_chunk_pool find_run init_chunk_small new_chunk_run malloc_chunk_run free_chunk_run
    free_chunk_small check_chunk_small init_chunk free_chunk check_chunk get_or_update_addr
    get_or_update_arena_addr new_arena new_arena_chunk take_chunk set_arena_addr find_chunk
    new_chunk get_or_new_chunk try_run_pool malloc_arena free_arena check_arena shm_malloc shm_free
    shm_realloc shm_check_size shm_tree_merge shm_tree_link run_config_list
check_24 = refl

-- The context's arena has one chunk, at 1 MB.
abbrev one_chunk : Context
one_chunk = record (start 7) {
  arenas = λ i.
      if i == 0
      then record {
        type = arena_context;
        shmid = 7;
        index = 0;
        size = 2 ^ 23;
        used = 2;
        chunks = 1 ∷ 1048576 ∷ replicate 6 0;
      }
      else (start 7).arenas i;
}

one_chunk-IsInLaterChunk : IsInLaterChunk os one_chunk 1052736 1048576
unfolding pos2index pos2offset get_arena_chunk get_or_update_addr get_or_update_arena_addr
one_chunk-IsInLaterChunk = record {
  index = omega arith;
  type = inl refl;
  chunk_at = refl;
  some_chunk = omega arith;
  later = omega arith;
  inside = omega arith;
  in_chunk = omega arith;
  mapped = refl;
}

shm_realloc_later_example :
    (shm_check_size os one_chunk 1052736 ≡ some (one_chunk, 0))
    × (shm_realloc os one_chunk 1052736 4000 ≡ some (one_chunk, (1052736, none)))
shm_realloc_later_example =
    shm_realloc_later os one_chunk 1052736 1048576 4000 one_chunk-IsInLaterChunk

-- A segment that holds nothing is set up, and its one process has the count 1.
init_empty :
    (shm_init os (record (start 0) { init_flag = 0; count = 0 }) true >>= λ (c, ok).
    some (c.count + (c.arenas 0).used + (c.addrs 0).shmid))
    ≡ some 1102
unfolding shm_init shm_exit init_shared_context init_shm_shared_field exit_shared_context
    is_arena_valid mmap_arena set_arena_addr
init_empty = refl

-- The last process that leaves removes the segment.
exit_last : (shm_exit (start 7)).1 ≡ some 7
unfolding shm_init shm_exit init_shared_context init_shm_shared_field exit_shared_context
    is_arena_valid mmap_arena set_arena_addr
exit_last = refl

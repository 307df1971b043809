-- ===== src/Lib.antt =====
-- shmmalloc, a memory allocator on System V shared memory, written in C.
--
-- Parts, from the bottom up, with the files that model them:
--
--   Base          names shared by all modules: C tests and conditionals, fallible results, fixed
--                 widths, arrays as lists.
--   Bitmap        src/shm_util.h (bitmap_*) and src/builtin_wrapper.h (ffs_u64). A bitmap is the list
--                 of its 64-bit words.
--   Position      src/shm_type.h (index2pos, pos2index, pos2offset), src/shm_util.h (align_size). A
--                 position names a byte of shared memory in every process.
--   SizeClass     src/chunk_small.c: the tables of the slot sizes and find_run_config.
--   PoolTree      src/shm_tree.h and src/shm_tree.c: the pointer trees of the runs with free slots.
--   Run           src/chunk_small.c: one page of slots of one size and the list of its free slots.
--   RbTree        src/rbtree.h: the red-black tree that the two chunk pools and the medium chunks
--                 instantiate; RbTree/Update has insertion and deletion. The proofs compare the
--                 memory with a tree (RbTree/Ghost) and move in it (RbTree/Zipper).
--   Medium        src/chunk_medium.c: chunks of whole pages. Its free blocks are nodes of an RbTree.
--   Context       src/shm_type.h: the state of all other parts. Context/Start is a new context.
--   Chunk         src/shm_chunk.c and the rest of src/chunk_small.c: the pools of chunks (Pool), small
--                 chunks (Small) and the operations that go by a chunk's type (Types).
--   Arena         src/shm_context.c and get_or_update_arena_addr of src/shm_malloc.c: segments, their
--                 chunks and the mappings of a process; Init has init_shared_context, Alloc
--                 malloc_arena, Dispatch free_arena and check_arena.
--   Malloc        src/shm_malloc.c: the interface.
--   Segment       src/shm_op_wrapper.c and src/shm_lock.c over a record of system calls; Key is about
--                 shm_get_key.
--
-- A module of a part that has the name Tests holds runs of the code and uses of the theorems. The
-- interface calls malloc_arena, free_arena and check_arena; these choose an arena and call into
-- its chunks, which keep their runs and blocks and report to the pools. Medium takes the report
-- (update_chunk_pool) as a parameter, which Chunk/Types fills.
--
-- Memory. What a C pointer into shared memory reads is a function from positions: run headers
-- (`runs`), the tree nodes at the head of runs (`run_nodes`) and of chunks (`chunk_nodes`), the
-- chunk headers (`chunks`), and in a medium chunk the nodes in its pages. These are disjoint fields
-- of the same memory as long as no page is two things at once; a page that a user holds is read by
-- none of them, but for the free list's words in a run, which `words` has. `detial` of a chunk is
-- a union; the model has a field for each use.
--
-- Failure. A result `none` is an assertion that fails, a null pointer that is read, or a walk that
-- does not end. Walks are recursions on fuel: a walk down a red-black tree of n nodes has n + 1
-- steps and one up or down again n + 2, a wait for the file lock one step per signal, a merge of pool trees the sum of their sizes and 2, which
-- no path of a tree exceeds. Loops over words, entries or slots have one step per round.
-- Log messages are left out. An error that the code reports with NULL, false or 0 is that value.
--
-- Numbers are natural numbers; where a C type wraps, the wrap is written out (u16, u32, u64), and a
-- difference adds the modulus first.
--
-- Outside the model: the system calls, which Segment takes as a parameter, and Arena, above its
-- wrappers, as their answers (the record Os); umask, and waiting for the mutex, each interface call
-- being one step of the shared state; a
-- tree walk that finds a node in an arena not yet mapped maps it in the code, which has no other
-- effect, and the model reads the node; the failures of copystr and atexit in shm_init; and the
-- logger.
pub mod Base
pub mod Bitmap
pub mod Position
pub mod SizeClass
pub mod PoolTree
pub mod Run
pub mod RbTree
pub mod Medium
pub mod Context
pub mod Chunk
pub mod Arena
pub mod Malloc
pub mod Segment

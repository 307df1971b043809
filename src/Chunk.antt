-- ===== src/Chunk.antt =====
-- Chunks, src/shm_chunk.c: the pools of chunks that still have room, which are red-black trees
-- keyed by the largest free size, and the operations that go by the type of a chunk.
pub mod Pool
pub mod Small
pub mod Types
pub mod Check
pub mod Order
mod Available
mod Own
mod Kept
mod Tests

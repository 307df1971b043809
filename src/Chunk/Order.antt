-- ===== src/Chunk/Order.antt =====
-- The order of the chunk pools, chunk_tree_compare of src/shm_chunk.c.
use shmmalloc.Base.{
  ℕ, ◌+◌, ◌-◌, ◌^◌, ◌<◌, ◌≡◌, refl, inl, inr, arith, ne→==, le→ltb, ltb, ◌==◌, if◌then◌else◌,
  Bool-cases, u32,
}
use shmmalloc.RbTree.{Sign, negative, equal, positive}
use shmmalloc.Context.{ChunkValue}
use shmmalloc.Chunk.Pool.{chunk_tree_compare}

-- The sign of a comparison of two numbers.
abbrev pub sign_nat : ℕ → ℕ → Sign
sign_nat x y = if ltb x y then negative else if x == y then equal else positive

wrapped_sign :
    (x y : ℕ)
    → x < 2 ^ 31
    → y < 2 ^ 31
    → (if u32 (x + 2 ^ 32 - y) == 0
        then equal
        else if ltb (u32 (x + 2 ^ 32 - y)) (2 ^ 31)
        then positive
        else negative)
      ≡ sign_nat x y
wrapped_sign x y hx hy = elim (Bool-cases (ltb x y)) [
  | inl e ↦
      let r : u32 (x + 2 ^ 32 - y) ≡ x + 2 ^ 32 - y = ground arith in
      rw
        (
          e,
          ne→== (u32 (x + 2 ^ 32 - y)) 0 (ground arith),
          le→ltb (u32 (x + 2 ^ 32 - y)) (2 ^ 31) (ground arith),
        )
        refl
  | inr e ↦ let r : u32 (x + 2 ^ 32 - y) ≡ x - y = ground arith in rw (e, r) (ground arith)
]

-- On fields below 2 ^ 31, where the difference of two uint32_t keeps its sign as an int,
-- chunk_tree_compare is the lexicographic order by the free size and then by the index.
pub chunk_tree_compare-eq-lexicographic :
    (a b : ChunkValue)
    → a.index < 2 ^ 31
    → b.index < 2 ^ 31
    → a.maxsize < 2 ^ 31
    → b.maxsize < 2 ^ 31
    → chunk_tree_compare a b
      ≡ (if a.maxsize == b.maxsize then sign_nat a.index b.index else sign_nat a.maxsize b.maxsize)
unfolding chunk_tree_compare
chunk_tree_compare-eq-lexicographic a b hi hj hm hn =
    rw (wrapped_sign a.index b.index hi hj, wrapped_sign a.maxsize b.maxsize hm hn) refl

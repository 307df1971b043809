-- ===== src/Position.antt =====
-- Positions of src/shm_type.h (index2pos, pos2index, pos2offset) and align_size of src/shm_util.h.
-- A position is a uint64_t: the arena's index above, the byte offset in the arena below.
mod Tests
use native.Mathlib.Nat.{mul_comm, div-mul-le_self, lt-div-mul-add}
use shmmalloc.Base.{
  ℕ, ◌+◌, ◌-◌, ◌*◌, ◌/◌, ◌%◌, ◌^◌, ◌≤◌, ◌<◌, ◌≡◌, refl, ◌↔◌, arith, bit_or, u32, u64, ◌<<<◌, ◌>>>◌,
}
use shmmalloc.Bitmap.Bits.Fields.{bit_or_disjoint}

abbrev pub shm_null : ℕ
shm_null = 0

abbrev pub shm_page_size : ℕ
shm_page_size = 4 * 1024

abbrev pub shm_chunk_unit_size : ℕ
shm_chunk_unit_size = 1024 * 1024

abbrev pub shm_arena_unit_size : ℕ
shm_arena_unit_size = 8 * 1024 * 1024

abbrev pub shm_arena_chunk_size : ℕ
shm_arena_chunk_size = shm_arena_unit_size / shm_chunk_unit_size

unfoldable pub index2pos : ℕ → ℕ → ℕ
index2pos index offset = bit_or (u64 (index <<< 32)) offset

unfoldable pub pos2index : ℕ → ℕ
pos2index pos = u32 (pos >>> 32)

unfoldable pub pos2offset : ℕ → ℕ
pos2offset pos = u32 pos

unfoldable pub align_size : ℕ → ℕ → ℕ
align_size size align = u64 (align * (u64 (size + (align - 1)) / align))

pub index2pos-eq-sum :
    (index offset : ℕ)
    → index < 2 ^ 32
    → offset < 2 ^ 32
    → index2pos index offset ≡ index * 2 ^ 32 + offset
unfolding index2pos
index2pos-eq-sum index offset hi ho =
    let whole : u64 (index <<< 32) ≡ index <<< 32 = omega arith in
    rw (whole, bit_or_disjoint 32 index offset ho)

pub index2pos_fields :
    (index offset : ℕ)
    → index < 2 ^ 32
    → offset < 2 ^ 32
    → (pos2index (index2pos index offset) ≡ index) × (pos2offset (index2pos index offset) ≡ offset)
unfolding pos2index pos2offset
index2pos_fields index offset hi ho = omega (arith, index2pos-eq-sum index offset hi ho)

pub index2pos-pos2index :
    (pos : ℕ) → pos < 2 ^ 64 → index2pos (pos2index pos) (pos2offset pos) ≡ pos
unfolding pos2index pos2offset
index2pos-pos2index pos h =
    omega (arith, index2pos-eq-sum (u32 (pos >>> 32)) (u32 pos) (omega arith) (omega arith))

-- Positions are a bijection between uint64_t and pairs of uint32_t: both round trips.
position_roundtrip :
    (pos index offset : ℕ)
    → pos < 2 ^ 64
    → index < 2 ^ 32
    → offset < 2 ^ 32
    → (index2pos index offset ≡ pos) ↔ ((pos2index pos ≡ index) × (pos2offset pos ≡ offset))
unfolding pos2index pos2offset
position_roundtrip pos index offset hp hi ho = (
  λ e. omega (arith, index2pos-eq-sum index offset hi ho),
  λ h. omega (arith, index2pos-eq-sum index offset hi ho),
)

-- align_size gives the least multiple of `align` that is no smaller than `size`.
align_size_least :
    (size align : ℕ)
    → 0 < align
    → size + align ≤ 2 ^ 64
    → ((k : ℕ) × (align_size size align ≡ k * align))
      × (size ≤ align_size size align)
      × (align_size size align < size + align)
unfolding align_size
align_size_least size align pos fits =
    let t = size + (align - 1) in
    let whole : u64 t ≡ t = omega arith in
    let low : t / align * align ≤ t = div-mul-le_self t align in
    let high : t < t / align * align + align = lt-div-mul-add pos in
    let product : align * (t / align) ≡ t / align * align = mul_comm align (t / align) in
    let result : align_size size align ≡ t / align * align = rw whole (omega arith) in
    ((t / align, result), omega arith, omega arith)

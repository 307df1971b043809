-- ===== src/Arena/Large.antt =====
-- Blocks with an arena of their own: new_arena, and the large branches of malloc_arena,
-- check_arena and free_arena of src/shm_context.c.
use native.Mathlib.Decide.{dec_lt}
use shmmalloc.Base.{
  ℕ, zero, suc, ◌+◌, ◌%◌, ◌≤◌, ◌<◌, ◌≡◌, ◌≢◌, refl, ap, ◌∙◌, inl, inr, ◌⊎◌, true, false, none, some,
  arith, eq→==, ne→==, lt→ltb, leb, ◌==◌, ◌>>=◌, Bool-cases, Option-cases,
}
use shmmalloc.Position.{
  shm_null, shm_chunk_unit_size, index2pos, pos2index, pos2offset, index2pos_fields, align_size,
}
use shmmalloc.Context.{Context, Arena, ArenaType, arena_large, is_empty, is_arena_valid, put_arena}
use shmmalloc.Arena.{
  Os, find_empty, new_arena, no_chunks, blank_arena, set_arena_addr, clear_arena_addr, delete_arena,
}
use shmmalloc.Arena.Alloc.{chunk_medium_limit, malloc_arena}
use shmmalloc.Arena.Dispatch.{free_arena, check_arena}

-- `r` is the first empty arena from `i` on, or `hi` if there is none below `hi`.
record IsFirstEmpty (c : Context) (i hi r : ℕ) : Type 0 where
  above : i ≤ r
  bound : r ≤ hi
  empty : r < hi → is_empty (c.arenas r).type ≡ true
  taken : (j : ℕ) → i ≤ j → j < r → is_empty (c.arenas j).type ≡ false

find_empty-IsFirstEmpty :
    (c : Context) (k i hi : ℕ) → i + k ≡ hi → IsFirstEmpty c i hi (find_empty c k i)
unfolding find_empty
find_empty-IsFirstEmpty c zero i hi e = record {
  above = omega arith;
  bound = omega arith;
  empty = λ h. absurd (omega arith);
  taken = λ j p q. absurd (omega arith);
}
find_empty-IsFirstEmpty c (suc k) i hi e = elim (Bool-cases (is_empty (c.arenas i).type)) [
  | inl f ↦ rw f (record {
    above = omega arith;
    bound = omega arith;
    empty = λ h. f;
    taken = λ j p q. absurd (omega arith);
  })
  | inr f ↦
      let rest = find_empty-IsFirstEmpty c k (i + 1) hi (omega arith) in
      rw f (record {
        above = omega (arith, rest.above);
        bound = rest.bound;
        empty = rest.empty;
        taken = λ j p q. elim (dec_lt i j) [
          | yes h ↦ rest.taken j (omega arith) q
          | no h ↦ let same : j ≡ i = omega arith in rw same f
        ];
      })
]

lt_of_le : (r hi : ℕ) → r ≤ hi → (r == hi) ≡ false → r < hi
lt_of_le r hi h e = ground arith

abbrev made_arena : ArenaType → ℕ → ℕ → ℕ → Arena
made_arena type shmid index size = record {
  type = type;
  shmid = shmid;
  index = index;
  size = size;
  used = 0;
  chunks = no_chunks;
}

-- The arena at `index` was the first empty one and is now the new one, and it is mapped.
pub record Makes (c : Context) (type : ArenaType) (size index : ℕ) (out : Context) : Type 0 where
  pub first : 1 ≤ index
  pub bound : index < 128
  pub was_empty : is_empty (c.arenas index).type ≡ true
  pub before : (j : ℕ) → 1 ≤ j → j < index → is_empty (c.arenas j).type ≡ false
  pub shmid : ℕ
  pub made :
      out ≡ set_arena_addr (put_arena c index (made_arena type shmid index size)) index true shmid

-- For a size of whole chunks new_arena always returns: it reports that no arena could be made and
-- changes nothing, or it makes the first empty arena and maps it.
pub new_arena-Makes :
    (os : Os) (c : Context) (type : ArenaType) (size : ℕ)
    → size % shm_chunk_unit_size ≡ 0
    → (new_arena os c type size ≡ some (c, none))
      ⊎ ((index : ℕ) × (out : Context) × (new_arena os c type size ≡ some (out, some index))
          × Makes c type size index out)
unfolding new_arena
new_arena-Makes os c type size whole =
    let r = find_empty c 127 1 in
    let f = find_empty-IsFirstEmpty c 127 1 128 refl in
    let even : (size % shm_chunk_unit_size == 0) ≡ true = eq→== _ 0 whole in
    elim (Bool-cases (r == 128)) [
      | inl e ↦ inl (rw (even, e) refl)
      | inr e ↦ elim (Option-cases (os.get_key r >>= λ key. os.create key size)) [
        | inl n ↦ inl (rw (even, e, n) refl)
        | inr (shmid, m) ↦ elim (Bool-cases (os.remove shmid)) [
          | inr g ↦ inl (rw (even, e, m, g) refl)
          | inl g ↦
              let small : r < 128 = lt_of_le r 128 f.bound e in
              inr (
                r,
                _,
                rw (even, e, m, g) refl,
                record {
                  first = f.above;
                  bound = small;
                  was_empty = f.empty small;
                  before = f.taken;
                  shmid = shmid;
                  made = refl;
                },
              )
        ]
      ]
    ]

align_size-whole : (size : ℕ) → align_size size shm_chunk_unit_size % shm_chunk_unit_size ≡ 0
unfolding align_size
align_size-whole size = omega arith

-- `pos` is the start of an arena of its own: check_arena knows its size, the size asked for
-- rounded up to whole chunks; free_arena takes the arena and its mapping away and nothing else, so
-- that every other arena is as it was in `c`; and in a process that has not mapped the arena
-- free_arena fails its assertion instead.
pub record IsLarge (os : Os) (c : Context) (size : ℕ) (out : Context) (pos : ℕ) : Type 0 where
  pub index : ℕ
  pub pos_at : (pos2index pos ≡ index) × (pos2offset pos ≡ 0)
  pub was_empty : is_empty (c.arenas index).type ≡ true
  pub checked : check_arena os out index 0 ≡ some (out, align_size size shm_chunk_unit_size)
  pub freed : Context
  pub frees : free_arena os out index 0 ≡ some freed
  pub gone : freed.arenas index ≡ blank_arena
  pub others : (i : ℕ) → index ≢ i → freed.arenas i ≡ c.arenas i
  pub elsewhere : free_arena os (clear_arena_addr out index) index 0 ≡ none
  pub kept : record freed { arenas = c.arenas; addrs = c.addrs } ≡ c

check_arena-large :
    (os : Os) (c : Context) (index offset : ℕ)
    → index < 128
    → (c.arenas index).type ≡ arena_large
    → check_arena os c index offset ≡ some (c, (c.arenas index).size)
unfolding check_arena is_arena_valid
check_arena-large os c index offset h e = rw (lt→ltb index 128 h, e) refl

free_arena-large :
    (os : Os) (c : Context) (index offset : ℕ)
    → index < 128
    → (c.arenas index).type ≡ arena_large
    → (c.addrs index).mapped ≡ true
    → free_arena os c index offset ≡ some (clear_arena_addr (put_arena c index blank_arena) index)
unfolding free_arena is_arena_valid delete_arena
free_arena-large os c index offset h e m = rw (lt→ltb index 128 h, e, m) refl

free_arena_unmapped :
    (os : Os) (c : Context) (index offset : ℕ)
    → index < 128
    → (c.arenas index).type ≡ arena_large
    → (c.addrs index).mapped ≡ false
    → free_arena os c index offset ≡ none
unfolding free_arena is_arena_valid delete_arena
free_arena_unmapped os c index offset h e m = rw (lt→ltb index 128 h, e, m) refl

Makes-IsLarge :
    (os : Os) (c : Context) (size index : ℕ) (out : Context)
    → Makes c arena_large (align_size size shm_chunk_unit_size) index out
    → IsLarge os c size out (index2pos (out.arenas index).index 0)
unfolding set_arena_addr clear_arena_addr
Makes-IsLarge os c size index out m =
    let here : (index == index) ≡ true = eq→== index index refl in
    let a = made_arena arena_large m.shmid index (align_size size shm_chunk_unit_size) in
    let at : out.arenas index ≡ a = rw (m.made, here) refl in
    let mapped : (out.addrs index).mapped ≡ true = rw (m.made, here) refl in
    let large : (out.arenas index).type ≡ arena_large = ap (λ x. x.type) at in
    let size_at : (out.arenas index).size ≡ a.size = ap (λ x. x.size) at in
    let index_at : (out.arenas index).index ≡ index = ap (λ x. x.index) at in
    let fields = index2pos_fields index 0 (omega (arith, m.bound)) (omega arith) in
    record {
      index = index;
      pos_at = rw index_at fields;
      was_empty = m.was_empty;
      checked = check_arena-large os out index 0 m.bound large ∙ ap (λ n. some (out, n)) size_at;
      freed = _;
      frees = free_arena-large os out index 0 m.bound large mapped;
      gone = rw here refl;
      others = λ i h. rw (m.made, ne→== index i h) refl;
      elsewhere =
          free_arena_unmapped os (clear_arena_addr out index) index 0 m.bound large (rw here refl);
      kept = rw m.made refl;
    }

-- A block larger than a medium chunk: malloc_arena always returns, with SHM_NULL and no change or
-- with an arena of the block's own. check_arena then knows its size, rounded up to whole chunks.
-- free_arena undoes it in the process that made it, and fails its assertion in a process that
-- has not mapped the arena.
pub malloc_arena-IsLarge :
    (os : Os) (c : Context) (size : ℕ)
    → chunk_medium_limit < size
    → (malloc_arena os c size ≡ some (c, shm_null))
      ⊎ ((out : Context) × (pos : ℕ) × (malloc_arena os c size ≡ some (out, pos))
          × IsLarge os c size out pos)
unfolding malloc_arena
malloc_arena-IsLarge os c size h =
    let large : leb size 1920 ≡ false = ground arith in
    let larger : leb size chunk_medium_limit ≡ false = ground arith in
    let asize = align_size size shm_chunk_unit_size in
    elim (new_arena-Makes os c arena_large asize (align_size-whole size)) [
      | inl e ↦ inl (rw (large, larger, e) refl)
      | inr (index, out, e, m) ↦ inr (
        out,
        index2pos (out.arenas index).index 0,
        rw (large, larger, e) refl,
        Makes-IsLarge os c size index out m,
      )
    ]

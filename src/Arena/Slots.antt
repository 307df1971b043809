-- ===== src/Arena/Slots.antt =====
-- The chunk slots of an arena: new_arena_chunk and delete_arena_chunk of src/shm_context.c.
use native.Mathlib.Decide.{dec_lt}
use shmmalloc.Base.{
  ℕ, zero, suc, ◌+◌, ◌-◌, ◌*◌, ◌/◌, ◌^◌, ◌≤◌, ◌<◌, ◌≡◌, ◌≢◌, refl, sym, ap, ◌∙◌, inl, inr, false,
  some, arith, ◌==◌, if◌then◌else◌, Bool-cases, u32, length, get_or, set, get_or-set_self, set-set,
  set-get_or,
}
use shmmalloc.Position.{shm_chunk_unit_size, index2pos, pos2offset, index2pos_fields}
use shmmalloc.Context.{Arena, is_context}
use shmmalloc.Arena.{take_chunk, new_arena_chunk, delete_arena_chunk}

-- The position of the slot `i`.
abbrev slot_pos : Arena → ℕ → ℕ
slot_pos a i = index2pos a.index (i * shm_chunk_unit_size)

-- `out` is the arena `a` with its slot `i` taken.
abbrev taken_at : Arena → ℕ → Arena
taken_at a i = record a { chunks = set a.chunks i (slot_pos a i); used = u32 (a.used + 1) }

-- Either the slots from `lo` below `hi` are all taken and nothing changes, or the first free one
-- of them is taken and its position is the result.
pub data Takes (a : Arena) (lo hi : ℕ) (out : Arena × ℕ) : Type 0 where
  full : ((i : ℕ) → lo ≤ i → i < hi → get_or a.chunks i 0 ≢ 0) → out ≡ (a, 0) → Takes a lo hi out
  first :
      (i : ℕ)
      → lo ≤ i
      → i < hi
      → get_or a.chunks i 0 ≡ 0
      → ((j : ℕ) → lo ≤ j → j < i → get_or a.chunks j 0 ≢ 0)
      → out ≡ (taken_at a i, slot_pos a i)
      → Takes a lo hi out

Takes-extend :
    (a : Arena) (lo hi : ℕ) (out : Arena × ℕ)
    → get_or a.chunks lo 0 ≢ 0
    → Takes a (lo + 1) hi out
    → Takes a lo hi out
Takes-extend a lo hi out here (full all e) =
    full
      (λ i p q. elim (dec_lt lo i) [
        | yes r ↦ all i (omega arith) q
        | no r ↦ let same : i ≡ lo = omega arith in rw same here
      ])
      e
Takes-extend a lo hi out here (first i p q free before e) =
    first i (omega arith) q free
      (λ j r s. elim (dec_lt lo j) [
        | yes t ↦ before j (omega arith) s
        | no t ↦ let same : j ≡ lo = omega arith in rw same here
      ])
      e

take_chunk-Takes : (k : ℕ) (a : Arena) (lo hi : ℕ) → lo + k ≡ hi → Takes a lo hi (take_chunk k a lo)
unfolding take_chunk
take_chunk-Takes zero a lo hi e = full (λ i p q. absurd (omega arith)) refl
take_chunk-Takes (suc k) a lo hi e = elim (Bool-cases (get_or a.chunks lo 0 == 0)) [
  | inl f ↦
      first lo (omega arith) (omega arith) (ground arith) (λ j p q. absurd (omega arith))
        (rw f refl)
  | inr f ↦
      let rest = take_chunk-Takes k a (lo + 1) hi (omega arith) in
      rw f (Takes-extend a lo hi _ (ground arith) rest)
]

-- new_arena_chunk takes the first free slot of the arena, or reports that there is none; the
-- first slot of the context's own arena is never given out.
pub new_arena_chunk-Takes :
    (a : Arena) → Takes a (if is_context a.type then 1 else 0) 8 (new_arena_chunk a)
unfolding new_arena_chunk
new_arena_chunk-Takes a = elim (Bool-cases (is_context a.type)) [
  | inl e ↦ rw e (take_chunk-Takes 7 a 1 8 refl)
  | inr e ↦ rw e (take_chunk-Takes 8 a 0 8 refl)
]

slot_of :
    (a : Arena) (i : ℕ)
    → a.index < 2 ^ 32
    → i < 8
    → pos2offset (slot_pos a i) / shm_chunk_unit_size ≡ i
slot_of a i h hi =
    rw ((index2pos_fields a.index (i * shm_chunk_unit_size) h (omega arith)).1) (omega arith)

delete-taken_at :
    (a : Arena) (i : ℕ)
    → a.index < 2 ^ 32
    → a.used < 2 ^ 32
    → i < 8
    → length a.chunks ≡ 8
    → get_or a.chunks i 0 ≡ 0
    → slot_pos a i ≢ 0
    → delete_arena_chunk (taken_at a i) (slot_pos a i) ≡ some a
unfolding delete_arena_chunk
delete-taken_at a i hx hu hi len free nz =
    let at : get_or (set a.chunks i (slot_pos a i)) i 0 ≡ slot_pos a i =
      get_or-set_self a.chunks i (slot_pos a i) 0 (omega (arith, len)) in
    let ne : (slot_pos a i == 0) ≡ false = ground arith in
    let back : set (set a.chunks i (slot_pos a i)) i 0 ≡ a.chunks =
      set-set a.chunks i _ 0 ∙ ap (set a.chunks i) (sym free) ∙ set-get_or a.chunks i 0 in
    let count : u32 (u32 (a.used + 1) + 2 ^ 32 - 1) ≡ a.used = omega arith in
    rw (slot_of a i hx hi, at, ne, back, count) refl

-- delete_arena_chunk undoes new_arena_chunk: the arena that a chunk was taken from is the arena
-- again once the chunk's position is given back.
pub delete_arena_chunk-new_arena_chunk :
    (a out : Arena) (pos : ℕ)
    → a.index < 2 ^ 32
    → a.used < 2 ^ 32
    → length a.chunks ≡ 8
    → new_arena_chunk a ≡ (out, pos)
    → pos ≢ 0
    → delete_arena_chunk out pos ≡ some a
delete_arena_chunk-new_arena_chunk a out pos hx hu len e nz = elim (new_arena_chunk-Takes a) [
  | full all same ↦ absurd (nz (ap (λ o. o.1) (sym e ∙ same)))
  | first i p q free before taken ↦
      let eo : out ≡ taken_at a i = ap (λ o. o.0) (sym e ∙ taken) in
      let ep : pos ≡ slot_pos a i = ap (λ o. o.1) (sym e ∙ taken) in
      rw (eo, ep) (delete-taken_at a i hx hu q len free (λ z. nz (ep ∙ z)))
]

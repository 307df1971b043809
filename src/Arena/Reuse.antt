-- ===== src/Arena/Reuse.antt =====
-- Where new_chunk of src/shm_context.c looks for a free chunk.
use shmmalloc.Base.{ℕ, zero, suc, ◌+◌, ◌≡◌, refl, inl, inr, true, eq→==, ◌==◌, Bool-cases}
use shmmalloc.Context.{Context, is_context, is_empty}
use shmmalloc.Arena.{new_arena_chunk}
use shmmalloc.Arena.Alloc.{find_chunk}

-- The loop of new_chunk takes chunks from the context's own arena only: if that has none left, it
-- finds none and changes nothing, however many free chunks the other arenas have.
pub find_chunk_context_full :
    (k : ℕ) (c : Context) (i empty_index : ℕ)
    → ((j : ℕ) → is_context (c.arenas j).type ≡ true → (new_arena_chunk (c.arenas j)).1 ≡ 0)
    → ((find_chunk k c i empty_index).0 ≡ c) × ((find_chunk k c i empty_index).1.0 ≡ 0)
unfolding find_chunk
find_chunk_context_full zero c i empty_index full = (refl, refl)
find_chunk_context_full (suc k) c i empty_index full =
    let rest = find_chunk_context_full k c (i + 1) empty_index full in
    let rest_empty = find_chunk_context_full k c (i + 1) i full in
    elim (Bool-cases (is_context (c.arenas i).type)) [
      | inl e ↦
          let none_left : ((new_arena_chunk (c.arenas i)).1 == 0) ≡ true = eq→== _ 0 (full i e) in
          rw (e, none_left) rest
      | inr e ↦ elim (Bool-cases (is_empty (c.arenas i).type)) [
        | inl f ↦ rw (e, f) rest_empty
        | inr f ↦ rw (e, f) rest
      ]
    ]

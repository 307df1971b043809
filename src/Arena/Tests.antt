-- ===== src/Arena/Tests.antt =====
-- The theorems on arenas at a new context and at small changes of it.
use shmmalloc.Base.{
  ℕ, zero, suc, ◌+◌, ◌*◌, ◌^◌, ◌∷◌, replicate, ◌⊎◌, arith, ◌≡◌, refl, Bool, true, false, some, none,
}
use shmmalloc.Position.{shm_null}
use shmmalloc.Context.{Arena, arena_context, arena_chunk, is_context, Context, put_arena}
use shmmalloc.Context.Start.{start}
use shmmalloc.Arena.{Os, blank_arena, get_or_update_arena_addr, new_arena_chunk, take_chunk}
use shmmalloc.Arena.Alloc.{find_chunk, malloc_arena}
use shmmalloc.Arena.Slots.{Takes, new_arena_chunk-Takes}
use shmmalloc.Arena.Mapping.{
  IsMappable, Updates, get_or_update_arena_addr-Updates, get_or_update_arena_addr_failed,
}
use shmmalloc.Arena.Reuse.{find_chunk_context_full}
use shmmalloc.Arena.Large.{IsLarge, malloc_arena-IsLarge}

abbrev os : Bool → Os
os attached = record {
  get_key = λ i. some (i + 100);
  create = λ key size. some (key + 1000);
  find = λ key. some (key + 1000);
  lock_file = true;
  remove = λ shmid. true;
  attach = λ shmid. attached;
}

-- An arena of chunks whose first chunk is taken.
abbrev arena_3 : Arena
arena_3 = record {
  type = arena_chunk;
  shmid = 9;
  index = 3;
  size = 2 ^ 23;
  used = 1;
  chunks = 3 * 2 ^ 32 ∷ replicate 7 0;
}

new_arena_chunk-Takes_example : Takes arena_3 0 8 (new_arena_chunk arena_3)
new_arena_chunk-Takes_example = new_arena_chunk-Takes arena_3

-- The context with arena_3, made by another process.
abbrev with_3 : Context
with_3 = put_arena (start 7) 3 arena_3

with_3-IsMappable : IsMappable with_3 3
with_3-IsMappable = record { inside = omega arith; type = (refl, refl); segment = omega arith }

get_or_update_arena_addr-Updates_example :
    (out : Context × Bool) × (get_or_update_arena_addr (os true) with_3 3 ≡ some out)
    × Updates (os true) with_3 3 out
get_or_update_arena_addr-Updates_example =
    get_or_update_arena_addr-Updates (os true) with_3 3 (λ h. absurd (h refl)) with_3-IsMappable

get_or_update_arena_addr_failed_example :
    (out : Context) × (get_or_update_arena_addr (os false) with_3 3 ≡ some (out, false))
    × (get_or_update_arena_addr (os false) (put_arena out 3 blank_arena) 3 ≡ none)
get_or_update_arena_addr_failed_example =
    get_or_update_arena_addr_failed (os false) with_3 3 blank_arena (λ h. absurd (h refl))
      with_3-IsMappable (omega arith) refl (omega arith)

-- The context's arena is full; the arenas behind it have seven free chunks each.
full_arenas : ℕ → Arena
full_arenas zero = record {
  type = arena_context;
  shmid = 7;
  index = 0;
  size = 2 ^ 23;
  used = 8;
  chunks = replicate 8 1;
}
full_arenas (suc i) = arena_3

abbrev full_context : Context
full_context = record (start 7) { arenas = full_arenas }

full_context-full :
    (j : ℕ)
    → is_context (full_context.arenas j).type ≡ true
    → (new_arena_chunk (full_context.arenas j)).1 ≡ 0
unfolding full_arenas new_arena_chunk take_chunk
full_context-full zero e = refl
full_context-full (suc j) e = absurd (ground (arith, e))

find_chunk_context_full_example :
    ((find_chunk 128 full_context 0 0).0 ≡ full_context)
    × ((find_chunk 128 full_context 0 0).1.0 ≡ 0)
find_chunk_context_full_example = find_chunk_context_full 128 full_context 0 0 full_context-full

malloc_arena-IsLarge_example :
    (malloc_arena (os true) (start 7) 2000000 ≡ some (start 7, shm_null))
    ⊎ ((out : Context) × (pos : ℕ) × (malloc_arena (os true) (start 7) 2000000 ≡ some (out, pos))
        × IsLarge (os true) (start 7) 2000000 out pos)
malloc_arena-IsLarge_example = malloc_arena-IsLarge (os true) (start 7) 2000000 (omega arith)

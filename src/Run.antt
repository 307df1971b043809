-- ===== src/Run.antt =====
-- Runs: the slot lists of src/chunk_small.c (malloc_run, free_run and the set-up in new_chunk_run).
-- A run is one page. Its header's fields are a record; `words` gives the uint32_t that stands at a
-- byte offset of the page, of which the code reads and writes the first word of each slot; these do
-- not overlap, so that a store changes the one at its own offset.
mod Tests
pub mod Chain
pub mod Laws
use shmmalloc.Base.{
  ℕ, zero, suc, ◌+◌, ◌-◌, ◌*◌, ◌/◌, ◌^◌, Bool, not, ◌&&◌, Option, some, ltb, ◌==◌, if◌then◌else◌,
  u32, guard,
}
use shmmalloc.SizeClass.{run_header_size, shm_run_unit_size, class_elemsize, class_total}

abbrev pub run_list_null : ℕ
run_list_null = 0xffffffff

pub record Run : Type 0 where
  pub pos : ℕ
  pub conf_index : ℕ
  pub elemsize : ℕ
  pub total : ℕ
  pub used : ℕ
  pub free : ℕ
  pub words : ℕ → ℕ

abbrev pub write_word : (ℕ → ℕ) → ℕ → ℕ → ℕ → ℕ
write_word words offset v q = if offset == q then v else words q

unfoldable pub malloc_run : Run → Option (Run × ℕ)
malloc_run run =
    guard (not (run.free == run_list_null) && ltb run.used run.total)
      (some (record run { free = run.words run.free; used = u32 (run.used + 1) }, run.free))

unfoldable pub free_run : Run → ℕ → Option Run
free_run run offset = guard (ltb 0 run.used) (
    some (record run {
      words = write_word run.words offset run.free;
      free = offset;
      used = run.used - 1;
    }))

unfoldable pub run_full : Run → Bool
run_full run = run.used == run.total

unfoldable pub run_empty : Run → Bool
run_empty run = run.used == 0

-- The loop of new_chunk_run that links the slots, at slot `i` with `k` rounds left; `block` is the
-- offset of slot `i - 1`. The last slot's word ends the list.
link_slots : ℕ → ℕ → ℕ → ℕ → (ℕ → ℕ) → ℕ → ℕ
link_slots elemsize zero i block words = write_word words block run_list_null
link_slots elemsize (suc k) i block words =
    link_slots elemsize k (i + 1) (block + elemsize)
      (write_word words block (u32 (i * elemsize + run_header_size)))

-- The header and the free list that new_chunk_run sets up in a page that it has cleared.
unfoldable pub init_run : ℕ → ℕ → Run
unfolding link_slots
init_run pos type =
    let elemsize = class_elemsize type in
    let total = class_total type in
    record {
      pos = pos;
      conf_index = type;
      elemsize = elemsize;
      total = total;
      used = 0;
      free = run_header_size;
      words = link_slots elemsize (total - 1) 1 run_header_size (λ _. 0);
    }

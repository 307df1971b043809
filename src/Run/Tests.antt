-- ===== src/Run/Tests.antt =====
-- A run of class 13, with three slots of 1280 bytes, and the theorems at it.
use shmmalloc.Base.{◌≡◌, refl, ne→==, inl, inr, some, [], ◌∷◌, arith}
use shmmalloc.SizeClass.{class_elemsize, class_total}
use shmmalloc.Run.{Run, write_word, malloc_run, free_run, init_run}
use shmmalloc.Run.Chain.{slot_offset, IsRun, count_from}
use shmmalloc.Run.Laws.{
  Mallocs, Frees, init_run-IsRun, malloc_run-Mallocs, free_run-Frees, free_run-malloc_run,
  malloc_run-free_run,
}

abbrev run : Run
run = record {
  pos = 4096;
  conf_index = 13;
  elemsize = 1280;
  total = 3;
  used = 1;
  free = 1344;
  words = write_word (write_word (λ _. 0) 1344 2624) 2624 0xffffffff;
}

run-IsRun : IsRun run (1 ∷ 2 ∷ [])
run-IsRun = record {
  elem_pos = omega arith;
  inside = omega arith;
  chain = (refl, (refl, refl));
  distinct = (refl, (refl, tt));
  slots = λ s i. ground arith;
  counted = refl;
}

-- Three slots can be had from a new run of class 13, and no fourth.
first_slot :
    (malloc_run (init_run 4096 13) ≡ some (record (init_run 4096 13) { free = 1344; used = 1 }, 64))
unfolding init_run malloc_run class_elemsize class_total
first_slot = refl

init_run-IsRun_example : IsRun (init_run 4096 13) (count_from 0 (class_total 13))
init_run-IsRun_example = init_run-IsRun 4096 13 (omega arith) (omega arith)

malloc_run-Mallocs_example : Mallocs run 1 (2 ∷ [])
malloc_run-Mallocs_example = malloc_run-Mallocs run 1 (2 ∷ []) run-IsRun (omega arith)

free_run-Frees_example : Frees run 0 (1 ∷ 2 ∷ [])
free_run-Frees_example = free_run-Frees run 0 (1 ∷ 2 ∷ []) run-IsRun (omega arith) refl

free_run-malloc_run_example :
    (mid after : Run) × (free_run run (slot_offset 1280 0) ≡ some mid)
    × (malloc_run mid ≡ some (after, slot_offset 1280 0))
    × IsRun after (1 ∷ 2 ∷ [])
free_run-malloc_run_example =
    free_run-malloc_run run 0 (1 ∷ 2 ∷ []) run-IsRun (omega arith) refl (omega arith)

malloc_run-free_run_example :
    (mid after : Run) × (malloc_run run ≡ some (mid, slot_offset 1280 1))
    × (free_run (record mid { words = write_word run.words 1400 7 }) (slot_offset 1280 1)
        ≡ some after)
    × IsRun after (1 ∷ 2 ∷ [])
    × (after.used ≡ 1)
malloc_run-free_run_example =
    malloc_run-free_run run 1 (2 ∷ []) (write_word run.words 1400 7) run-IsRun (omega arith)
      (λ o out. elim out [
        | inl h ↦ rw (ne→== 1400 o (omega (arith, h)))
        | inr h ↦ rw (ne→== 1400 o (omega (arith, h)))
      ])

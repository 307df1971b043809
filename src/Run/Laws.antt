-- ===== src/Run/Laws.antt =====
-- malloc_run, free_run and the set-up of a run keep the free list of distinct slots.
use mathlib.Core.Bool.{false≢true}
use mathlib.Core.Path.{subst}
use shmmalloc.Base.{
  ℕ, zero, suc, ◌+◌, ◌-◌, ◌*◌, ◌^◌, ◌≤◌, ◌<◌, ◌≡◌, ◌≢◌, refl, sym, ap, ◌∙◌, true, false, none, some,
  List, [], ◌∷◌, arith, u32, length, eq→==, ne→==, lt→ltb,
}
use shmmalloc.SizeClass.{
  run_header_size, run_config_size, class_elemsize, class_total, class_total-IsCut,
}
use shmmalloc.Run.{Run, run_list_null, write_word, malloc_run, free_run, link_slots, init_run}
use shmmalloc.Run.Chain.{
  slot_offset, mem, IsDistinct, Chain, IsRun, Chain-same, slot_offset_ne, IsOutside, slot-IsOutside,
  count_from, length-count_from, mem-count_from, count_from-IsDistinct, length-le,
}

-- The offset of a slot of a run is no end mark.
offset_lt :
    (e s total : ℕ) → s < total → run_header_size + total * e ≤ 4096 → slot_offset e s + e ≤ 4096
offset_lt e s total h fits = let m : s * e + e ≤ total * e = grind arith in omega arith

-- malloc_run hands out the first free slot, which lies whole inside the page, and that slot is
-- then no longer free; the other free slots and all words of the page stay as they were.
pub record Mallocs (run : Run) (s : ℕ) (free : List ℕ) : Type 0 where
  pub after : Run
  pub returns : malloc_run run ≡ some (after, slot_offset run.elemsize s)
  pub in_page : slot_offset run.elemsize s + run.elemsize ≤ 4096
  pub is : IsRun after free
  pub taken : mem s free ≡ false
  pub used : after.used ≡ run.used + 1
  pub same : (after.words ≡ run.words) × (after.elemsize ≡ run.elemsize) × (after.total ≡ run.total)

-- malloc_run on a run with free slots, whose counter cannot overflow, returns the first of them;
-- the slot lies inside the page, and the others stay free.
pub malloc_run-Mallocs :
    (run : Run) (s : ℕ) (free : List ℕ)
    → IsRun run (s ∷ free)
    → run.total < 2 ^ 32
    → Mallocs run s free
unfolding malloc_run
malloc_run-Mallocs run s free is small =
    let (at, rest) = is.chain in
    let s_lt : s < run.total = is.slots s (ground arith) in
    let fits = offset_lt run.elemsize s run.total s_lt is.inside in
    record {
      after = record run { free = run.words run.free; used = u32 (run.used + 1) };
      returns = rw (
        at,
        ne→== (slot_offset run.elemsize s) run_list_null (omega (arith, is.elem_pos)),
        lt→ltb run.used run.total (omega (arith, is.counted)),
      );
      in_page = fits;
      is = record {
        elem_pos = is.elem_pos;
        inside = is.inside;
        chain = rw at rest;
        distinct = is.distinct.1;
        slots = λ a i. is.slots a (ground arith);
        counted = omega (arith, is.counted);
      };
      taken = is.distinct.0;
      used = omega (arith, is.counted);
      same = (refl, refl, refl);
    }

-- With no free slot malloc_run's assertions fail.
malloc_run-none : (run : Run) → IsRun run [] → malloc_run run ≡ none
unfolding malloc_run
malloc_run-none run is = rw is.chain

-- Freeing a slot in use puts it in front of the free list; the assertion on `used` holds.
pub record Frees (run : Run) (s : ℕ) (free : List ℕ) : Type 0 where
  pub after : Run
  pub returns : free_run run (slot_offset run.elemsize s) ≡ some after
  pub is : IsRun after (s ∷ free)
  pub same : (after.elemsize ≡ run.elemsize) × (after.total ≡ run.total)
  pub used : after.used + 1 ≡ run.used

-- free_run of a slot in use returns and puts that slot in front of the free list.
pub free_run-Frees :
    (run : Run) (s : ℕ) (free : List ℕ)
    → IsRun run free
    → s < run.total
    → mem s free ≡ false
    → Frees run s free
unfolding free_run
free_run-Frees run s free is lt out =
    let distinct : IsDistinct (s ∷ free) = (out, is.distinct) in
    let below = slots_below s free run.total lt is.slots in
    let room : suc (length free) ≤ run.total = length-le run.total (s ∷ free) distinct below in
    let new = write_word run.words (slot_offset run.elemsize s) run.free in
    record {
      after = record run { words = new; free = slot_offset run.elemsize s; used = run.used - 1 };
      returns = rw (lt→ltb 0 run.used (omega (arith, is.counted)));
      is = record {
        elem_pos = is.elem_pos;
        inside = is.inside;
        chain = (
          refl,
          rw (eq→== (slot_offset run.elemsize s) (slot_offset run.elemsize s) refl) (
              Chain-same run.words new run.elemsize run.free free
                (λ t i. rw (
                  ne→== (slot_offset run.elemsize s) (slot_offset run.elemsize t)
                    (slot_offset_ne run.elemsize t s is.elem_pos (other t i))))
                is.chain),
        );
        distinct = distinct;
        slots = below;
        counted = omega (arith, is.counted);
      };
      same = (refl, refl);
      used = omega (arith, is.counted);
    }
  where
    other : (t : ℕ) → mem t free ≡ true → t ≢ s
    other t i e = false≢true (sym out ∙ ap (λ a. mem a free) (sym e) ∙ i)

    slots_below :
        (s : ℕ) (free : List ℕ) (n : ℕ)
        → s < n
        → ((a : ℕ) → mem a free ≡ true → a < n)
        → (a : ℕ) → mem a (s ∷ free) ≡ true
        → a < n
    slots_below s free n lt below a i = ground (arith, below a)

-- A slot that is freed is the next one handed out: malloc_run after free_run gives its offset.
pub free_run-malloc_run :
    (run : Run) (s : ℕ) (free : List ℕ)
    → IsRun run free
    → s < run.total
    → mem s free ≡ false
    → run.total < 2 ^ 32
    → (mid after : Run) × (free_run run (slot_offset run.elemsize s) ≡ some mid)
      × (malloc_run mid ≡ some (after, slot_offset run.elemsize s))
      × IsRun after free
free_run-malloc_run run s free is lt out small =
    let f = free_run-Frees run s free is lt out in
    let m = malloc_run-Mallocs f.after s free f.is (omega (arith, f.same)) in
    (f.after, m.after, f.returns, m.returns ∙ (rw f.same.0), m.is)

-- The words of a slot that is not free can change in any way: the free list is as it was.
changed-IsRun :
    (run : Run) (free : List ℕ) (t : ℕ) (words : ℕ → ℕ)
    → IsRun run free
    → mem t free ≡ false
    → ((o : ℕ) → IsOutside run.elemsize t o → words o ≡ run.words o)
    → IsRun (record run { words = words }) free
changed-IsRun run free t words is out same = record {
  elem_pos = is.elem_pos;
  inside = is.inside;
  chain =
      Chain-same run.words words run.elemsize run.free free
        (λ s i. same (slot_offset run.elemsize s) (
          slot-IsOutside run.elemsize s t is.elem_pos
            (λ e. false≢true (sym out ∙ ap (λ a. mem a free) (sym e) ∙ i))))
        is.chain;
  distinct = is.distinct;
  slots = is.slots;
  counted = is.counted;
}

-- A slot is handed out by malloc_run, its bytes are overwritten in any way, as long as every word of
-- the page that overlaps none of them stays as it was, and it is given back to free_run: both
-- return, and the run has the same free slots in the same order as before, and as many in use.
pub malloc_run-free_run :
    (run : Run) (s : ℕ) (free : List ℕ) (words : ℕ → ℕ)
    → IsRun run (s ∷ free)
    → run.total < 2 ^ 32
    → ((o : ℕ) → IsOutside run.elemsize s o → words o ≡ run.words o)
    → (mid after : Run) × (malloc_run run ≡ some (mid, slot_offset run.elemsize s))
      × (free_run (record mid { words = words }) (slot_offset run.elemsize s) ≡ some after)
      × IsRun after (s ∷ free)
      × (after.used ≡ run.used)
malloc_run-free_run run s free words is small same =
    let m = malloc_run-Mallocs run s free is small in
    let (kept, size, total) = m.same in
    let held : Run = record m.after { words = words } in
    let held_same : (o : ℕ) → IsOutside m.after.elemsize s o → words o ≡ m.after.words o =
      λ o out. same o (subst (λ e. IsOutside e s o) size out) ∙ ap (λ w. w o) (sym kept) in
    let is_held = changed-IsRun m.after free s words m.is m.taken held_same in
    let inside : s < held.total = subst (λ n. s < n) (sym total) (is.slots s (ground arith)) in
    let f = free_run-Frees held s free is_held inside m.taken in
    (
      m.after,
      f.after,
      m.returns,
      ap (λ e. free_run held (slot_offset e s)) (sym size) ∙ f.returns,
      f.is,
      omega (arith, f.used, m.used),
    )

-- A run that is not full has a free slot to hand out, and malloc_run then returns.
pub malloc_run_total :
    (run : Run) (free : List ℕ)
    → IsRun run free
    → run.used < run.total
    → run.total < 2 ^ 32
    → (s : ℕ) × (rest : List ℕ) × (free ≡ s ∷ rest) × Mallocs run s rest
malloc_run_total run [] is room small = absurd (omega (arith, is.counted))
malloc_run_total run (s ∷ rest) is room small =
    (s, rest, refl, malloc_run-Mallocs run s rest is small)

-- Offsets below the slot that is being linked are not written.
link_slots-below :
    (e k i block : ℕ) (words : ℕ → ℕ) (o : ℕ) → o < block → link_slots e k i block words o ≡ words o
unfolding link_slots
link_slots-below e zero i block words o h = rw (ne→== block o (omega arith))
link_slots-below e (suc k) i block words o h =
    link_slots-below e k (i + 1) (block + e) _ o (omega arith) ∙ (rw (ne→== block o (omega arith)))

link_slots-Chain :
    (e k j block : ℕ) (words : ℕ → ℕ)
    → 8 ≤ e
    → block ≡ slot_offset e j
    → run_header_size + (j + suc k) * e ≤ 4096
    → Chain (link_slots e k (j + 1) block words) e block (count_from j (suc k))
unfolding link_slots
link_slots-Chain e zero j block words he at fits = (at, rw (← at) (rw (eq→== block block refl)))
link_slots-Chain e (suc k) j block words he at fits =
    let next : block + e ≡ slot_offset e (j + 1) = grind arith in
    let fits' : run_header_size + (j + 1 + suc k) * e ≤ 4096 =
      let sum : j + 1 + suc k ≡ j + suc (suc k) = omega arith in rw sum fits in
    let word = u32 ((j + 1) * e + run_header_size) in
    let rest =
      link_slots-Chain e k (j + 1) (block + e) (write_word words block word) he next fits' in
    let small : word ≡ slot_offset e (j + 1) = next_word e j (suc k) fits' in
    let read : link_slots e k (j + 1 + 1) (block + e) (write_word words block word) block
        ≡ block + e =
      link_slots-below e k (j + 1 + 1) (block + e) _ block (omega arith)
      ∙ (rw (eq→== block block refl))
      ∙ small
      ∙ sym next in
    (at, rw (← at) (rw read rest))
  where
    next_word :
        (e j k : ℕ)
        → run_header_size + (j + 1 + k) * e ≤ 4096
        → u32 ((j + 1) * e + run_header_size) ≡ slot_offset e (j + 1)
    next_word e j k fits = let le : (j + 1) * e ≤ (j + 1 + k) * e = grind arith in omega arith

-- A fresh run of any class has all its slots free, in order, and none in use.
pub init_run-IsRun :
    (pos type : ℕ)
    → 0 < type
    → type < run_config_size
    → IsRun (init_run pos type) (count_from 0 (class_total type))
unfolding init_run
init_run-IsRun pos type pos_type lt =
    let cut = class_total-IsCut type pos_type lt in
    record {
      elem_pos = cut.word_sized;
      inside = cut.inside;
      chain =
          linked (class_elemsize type) (class_total type) cut.word_sized
            (omega (arith, cut.several)) cut.inside;
      distinct = count_from-IsDistinct 0 (class_total type);
      slots = λ s i. omega (arith, mem-count_from s 0 (class_total type) i);
      counted = omega (arith, length-count_from 0 (class_total type));
    }
  where
    linked :
        (e n : ℕ)
        → 8 ≤ e
        → 0 < n
        → run_header_size + n * e ≤ 4096
        → Chain (link_slots e (n - 1) 1 run_header_size (λ _. 0)) e run_header_size (count_from 0 n)
    linked e zero he pos fits = absurd (omega arith)
    linked e (suc k) he pos fits =
        let less : suc k - 1 ≡ k = omega arith in
        let sum : 0 + suc k ≡ suc k = omega arith in
        subst
          (λ m.
            Chain (link_slots e m 1 run_header_size (λ _. 0)) e run_header_size
              (count_from 0 (suc k)))
          (sym less)
          (link_slots-Chain e k 0 run_header_size (λ _. 0) he (omega arith) (rw sum fits))

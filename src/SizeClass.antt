-- ===== src/SizeClass.antt =====
-- The size classes of src/chunk_small.c: run_config_list, its three lookup tables and
-- find_run_config, and how many slots new_chunk_run cuts from a page.
mod Tests
use shmmalloc.Base.{
  ℕ, zero, suc, ◌+◌, ◌-◌, ◌*◌, ◌/◌, ◌%◌, ◌≤◌, ◌<◌, ◌≡◌, refl, ap, Bool, true, ◌&&◌, List, [], ◌∷◌,
  arith, leb, ltb, ◌==◌, if◌then◌else◌, get_or, Option, some, guard,
}

abbrev pub chunk_small_limit : ℕ
chunk_small_limit = 1920

abbrev pub run_config_size : ℕ
run_config_size = 15

abbrev pub shm_run_unit_size : ℕ
shm_run_unit_size = 4 * 1024

abbrev pub run_header_size : ℕ
run_header_size = 64

pub record RunConfig : Type 0 where
  pub index : ℕ
  pub elemsize : ℕ

abbrev conf : ℕ → ℕ → RunConfig
conf i e = record { index = i; elemsize = e }

unfoldable pub run_config_list : List RunConfig
run_config_list =
    conf 0 0
    ∷ conf 1 8
    ∷ conf 2 16
    ∷ conf 3 32
    ∷ conf 4 48
    ∷ conf 5 64
    ∷ conf 6 96
    ∷ conf 7 128
    ∷ conf 8 192
    ∷ conf 9 256
    ∷ conf 10 384
    ∷ conf 11 512
    ∷ conf 12 768
    ∷ conf 13 1280
    ∷ conf 14 chunk_small_limit
    ∷ []

run_table8 : List ℕ
run_table8 = 1 ∷ 2 ∷ 3 ∷ 3 ∷ 4 ∷ 4 ∷ 5 ∷ 5 ∷ 6 ∷ 6 ∷ 6 ∷ 6 ∷ []

run_table32 : List ℕ
run_table32 = 7 ∷ 7 ∷ 7 ∷ 7 ∷ 8 ∷ 8 ∷ 9 ∷ 9 ∷ 10 ∷ 10 ∷ 10 ∷ 10 ∷ 11 ∷ 11 ∷ 11 ∷ 11 ∷ []

run_table128 : List ℕ
run_table128 = 12 ∷ 12 ∷ 12 ∷ 12 ∷ 12 ∷ 12 ∷ 13 ∷ 13 ∷ 13 ∷ 13 ∷ 14 ∷ 14 ∷ 14 ∷ 14 ∷ 14 ∷ 14 ∷ []

-- find_run_config behind its assertion.
unfoldable pub lookup_class : ℕ → ℕ
unfolding run_table8 run_table32 run_table128
lookup_class size =
    if leb size 96
    then get_or run_table8 ((size - 1) / 8) 0
    else if leb size 512
    then get_or run_table32 ((size - 1) / 32) 0
    else get_or run_table128 ((size - 1) / 128) 0

unfoldable pub find_run_config : ℕ → Option ℕ
find_run_config size = guard (ltb 0 size && leb size chunk_small_limit) (some (lookup_class size))

-- `run_config_list[type].elemsize`.
unfoldable pub class_elemsize : ℕ → ℕ
unfolding run_config_list
class_elemsize type = (get_or run_config_list type (conf 0 0)).elemsize

-- Every size from 1 to `n` passes the test.
sizes_pass : (ℕ → Bool) → ℕ → Bool
sizes_pass test zero = true
sizes_pass test (suc n) = test (suc n) && sizes_pass test n

sizes_pass_at :
    (test : ℕ → Bool) (n size : ℕ)
    → sizes_pass test n ≡ true
    → 0 < size
    → size ≤ n
    → test size ≡ true
unfolding sizes_pass
sizes_pass_at test zero size h pos le = absurd (omega arith)
sizes_pass_at test (suc n) size h pos le = ground (arith, sizes_pass_at test n size)

-- The class found for `size` holds it, and no class before it does.
abbrev best : ℕ → Bool
best size =
    let t = lookup_class size in
    ltb 0 t
    && ltb t run_config_size
    && leb size (class_elemsize t)
    && sizes_pass (λ j. ltb (class_elemsize (j - 1)) size) t

all_best : sizes_pass best chunk_small_limit ≡ true
unfolding sizes_pass lookup_class class_elemsize
all_best = refl

in_range :
    (size : ℕ)
    → 0 < size
    → size ≤ chunk_small_limit
    → (ltb 0 size && leb size chunk_small_limit) ≡ true
in_range size pos le = ground arith

-- find_run_config is best fit: for a size from 1 to 1920 it returns one of the classes 1 to 14,
-- whose slots hold the size, and the slots of every class with a smaller number are too small.
pub find_run_config_best_fit :
    (size : ℕ)
    → 0 < size
    → size ≤ chunk_small_limit
    → (type : ℕ) × (find_run_config size ≡ some type)
      × (0 < type)
      × (type < run_config_size)
      × (size ≤ class_elemsize type)
      × ((j : ℕ) → j < type → class_elemsize j < size)
unfolding find_run_config
find_run_config_best_fit size pos le =
    let ok = sizes_pass_at best chunk_small_limit size all_best pos le in
    (
      lookup_class size,
      ap (λ b. guard b (some (lookup_class size))) (in_range size pos le),
      ground arith,
      ground arith,
      ground arith,
      λ j h. ground (
        arith,
        sizes_pass_at (λ j. ltb (class_elemsize (j - 1)) size) (lookup_class size) (j + 1),
      ),
    )

-- `(SHM_RUN_UNIT_SIZE - RUN_HEADER_SIZE) / elemsize`.
unfoldable pub class_total : ℕ → ℕ
class_total type = (shm_run_unit_size - run_header_size) / class_elemsize type

abbrev cuts_page : ℕ → Bool
cuts_page type =
    let e = class_elemsize type in
    let t = class_total type in
    leb 8 e
    && e % 8 == 0
    && ltb 1 t
    && leb (run_header_size + t * e) shm_run_unit_size
    && ltb shm_run_unit_size (run_header_size + (t + 1) * e)

all_cut_page : sizes_pass cuts_page (run_config_size - 1) ≡ true
unfolding sizes_pass class_elemsize class_total
all_cut_page = refl

-- What new_chunk_run relies on: in every class a slot is a multiple of 8 bytes (so that the free
-- list's words in different slots do not overlap and are aligned), a page holds at least two
-- slots behind the header, the slots end inside the page, and one more would not.
pub record IsCut (type : ℕ) : Type 0 where
  pub word_sized : 8 ≤ class_elemsize type
  pub aligned : class_elemsize type % 8 ≡ 0
  pub several : 1 < class_total type
  pub inside : run_header_size + class_total type * class_elemsize type ≤ shm_run_unit_size
  pub maximal : shm_run_unit_size < run_header_size + (class_total type + 1) * class_elemsize type

pub class_total-IsCut : (type : ℕ) → 0 < type → type < run_config_size → IsCut type
class_total-IsCut type pos lt =
    let ok = sizes_pass_at cuts_page (run_config_size - 1) type all_cut_page pos (omega arith) in
    record {
      word_sized = ground arith;
      aligned = ground arith;
      several = ground arith;
      inside = ground arith;
      maximal = ground arith;
    }

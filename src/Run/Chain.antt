-- ===== src/Run/Chain.antt =====
-- What a run's free list stands for: the list of its free slots' numbers, in order.
use mathlib.Core.Bool.{false≢true}
use native.Mathlib.Decide.{dec_lt}
use shmmalloc.Base.{
  ℕ, zero, suc, ◌+◌, ◌*◌, ◌≤◌, ◌<◌, ◌≡◌, ◌≢◌, refl, sym, ap, ◌⊎◌, ◌∙◌, Bool, true, false, ◌||◌,
  List, [], ◌∷◌, arith, ◌==◌, if◌then◌else◌, length, Bool-cases, inl, inr,
}
use shmmalloc.Run.{Run, run_list_null}
use shmmalloc.SizeClass.{run_header_size}

-- The byte offset of slot `s`.
abbrev pub slot_offset : ℕ → ℕ → ℕ
slot_offset elemsize s = run_header_size + s * elemsize

abbrev pub mem : ℕ → List ℕ → Bool
mem a [] = false
mem a (x ∷ xs) = a == x || mem a xs

abbrev pub IsDistinct : List ℕ → Type 0
IsDistinct [] = Unit {0}
IsDistinct (x ∷ xs) = (mem x xs ≡ false) × IsDistinct xs

-- From `p` the words lead through the slots `xs` to the end of the list.
abbrev pub Chain : (ℕ → ℕ) → ℕ → ℕ → List ℕ → Type 0
Chain words elemsize p [] = p ≡ run_list_null
Chain words elemsize p (x ∷ xs) =
    (p ≡ slot_offset elemsize x) × Chain words elemsize (words (slot_offset elemsize x)) xs

-- The slots `free` and no others are free.
pub record IsRun (run : Run) (free : List ℕ) : Type 0 where
  pub elem_pos : 8 ≤ run.elemsize
  pub inside : run_header_size + run.total * run.elemsize ≤ 4096
  pub chain : Chain run.words run.elemsize run.free free
  pub distinct : IsDistinct free
  pub slots : (s : ℕ) → mem s free ≡ true → s < run.total
  pub counted : run.used + length free ≡ run.total

-- The chain depends on the words of its own slots only.
pub Chain-same :
    (words new : ℕ → ℕ) (e p : ℕ) (xs : List ℕ)
    → ((s : ℕ) → mem s xs ≡ true → new (slot_offset e s) ≡ words (slot_offset e s))
    → Chain words e p xs
    → Chain new e p xs
Chain-same words new e p [] same c = c
Chain-same words new e p (x ∷ xs) same (at, rest) = (
  at,
  rw (same x (ground arith))
      (Chain-same words new e (words (slot_offset e x)) xs (λ s i. same s (ground arith)) rest),
)

-- A word of four bytes that overlaps no byte of slot `t`.
abbrev pub IsOutside : ℕ → ℕ → ℕ → Type 0
IsOutside e t o = (o + 4 ≤ slot_offset e t) ⊎ (slot_offset e t + e ≤ o)

-- The first word of a slot overlaps no other slot.
pub slot-IsOutside : (e s t : ℕ) → 8 ≤ e → s ≢ t → IsOutside e t (slot_offset e s)
slot-IsOutside e s t he ne = elim (dec_lt s t) [
  | yes h ↦ let below : s * e + e ≤ t * e = next_slot e s t h in inl (omega arith)
  | no h ↦ let above : t * e + e ≤ s * e = next_slot e t s (omega arith) in inr (omega arith)
]
  where
    next_slot : (e s t : ℕ) → s < t → s * e + e ≤ t * e
    next_slot e s t h = grind arith

pub slot_offset_ne : (e s t : ℕ) → 8 ≤ e → s ≢ t → slot_offset e t ≢ slot_offset e s
slot_offset_ne e s t he ne h = elim (slot-IsOutside e s t he ne) [
  | inl x ↦ omega arith
  | inr x ↦ omega arith
]

-- The numbers from `j` on, `k` of them.
abbrev pub count_from : ℕ → ℕ → List ℕ
count_from j zero = []
count_from j (suc k) = j ∷ count_from (j + 1) k

pub length-count_from : (j k : ℕ) → length (count_from j k) ≡ k
length-count_from j zero = refl
length-count_from j (suc k) = ap suc (length-count_from (j + 1) k)

pub mem-count_from : (a j k : ℕ) → mem a (count_from j k) ≡ true → (j ≤ a) × (a < j + k)
mem-count_from a j zero i = absurd (false≢true i)
mem-count_from a j (suc k) i = ground (arith, mem-count_from a (j + 1) k)

pub count_from-IsDistinct : (j k : ℕ) → IsDistinct (count_from j k)
count_from-IsDistinct j zero = tt
count_from-IsDistinct j (suc k) = (
  elim (Bool-cases (mem j (count_from (j + 1) k))) [
    | inl i ↦ absurd (omega (arith, mem-count_from j (j + 1) k i))
    | inr o ↦ o
  ],
  count_from-IsDistinct (j + 1) k,
)

-- Distinct numbers below `n` are at most `n` many.
abbrev remove : ℕ → List ℕ → List ℕ
remove a [] = []
remove a (x ∷ xs) = if a == x then xs else x ∷ remove a xs

length-remove : (a : ℕ) (xs : List ℕ) → length xs ≤ suc (length (remove a xs))
length-remove a [] = omega arith
length-remove a (x ∷ xs) = ground (arith, length-remove a xs)

mem-remove :
    (a b : ℕ) (xs : List ℕ)
    → IsDistinct xs
    → mem b (remove a xs) ≡ true
    → (mem b xs ≡ true) × (b ≢ a)
mem-remove a b [] d i = absurd (false≢true i)
mem-remove a b (x ∷ xs) d i = ground (arith, mem-remove a b xs d.1, d.0)

remove-IsDistinct : (a : ℕ) (xs : List ℕ) → IsDistinct xs → IsDistinct (remove a xs)
remove-IsDistinct a [] d = tt
remove-IsDistinct a (x ∷ xs) (out, d) = elim (Bool-cases (a == x)) [
  | inl e ↦ rw e d
  | inr e ↦ rw e (
    elim (Bool-cases (mem x (remove a xs))) [
      | inl i ↦ absurd (false≢true (sym out ∙ (mem-remove a x xs d i).0))
      | inr o ↦ o
    ],
    remove-IsDistinct a xs d,
  )
]

pub length-le :
    (n : ℕ) (xs : List ℕ) → IsDistinct xs → ((a : ℕ) → mem a xs ≡ true → a < n) → length xs ≤ n
length-le n [] d below = omega arith
length-le zero (x ∷ xs) d below = absurd (omega (arith, below x (ground arith)))
length-le (suc n) (x ∷ xs) d below =
    let rest = length-le n (remove n (x ∷ xs)) (remove-IsDistinct n (x ∷ xs) d) (λ a i.
      let (j, ne) = mem-remove n a (x ∷ xs) d i in let lt : a < suc n = below a j in omega arith) in
    omega (arith, length-remove n (x ∷ xs))

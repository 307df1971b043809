-- ===== src/Bitmap/Scan/Loop.antt =====
-- The loops of the searches: the first index with a given bit, word by word.
use native.Mathlib.Decide.{dec_lt}
use shmmalloc.Base.{
  ℕ, zero, suc, ◌+◌, ◌-◌, ◌*◌, ◌/◌, ◌%◌, ◌^◌, ◌≤◌, ◌<◌, ◌≡◌, refl, ap, ◌∙◌, ◌⊎◌, inl, inr, arith,
  ◌==◌, if◌then◌else◌, Bool-cases, ◌<<<◌, not64, u32,
}
use shmmalloc.Bitmap.{Bitmap, word, ffs_from, ffs_u64, ffu_loop, ffs_loop, ffsp_loop}
use shmmalloc.Bitmap.Bits.{bit_at}
use shmmalloc.Bitmap.Bits.Fields.{bit_at_complement}
use shmmalloc.Bitmap.Update.{IsBitmap, bit}

-- `r` is one more than the index of the lowest bit of `w` that is set, counted from `i`, or 0.
abbrev Lowest : ℕ → ℕ → ℕ → ℕ → Type 0
Lowest k i w r =
    ((r ≡ 0) × ((p : ℕ) → p < k → bit_at w p ≡ 0))
    ⊎ ((p : ℕ) × (r ≡ suc (i + p))
        × (p < k)
        × (bit_at w p ≡ 1)
        × ((q : ℕ) → q < p → bit_at w q ≡ 0))

zeros-suc :
    (k w : ℕ)
    → w % 2 ≡ 0
    → ((p : ℕ) → p < k → bit_at (w / 2) p ≡ 0)
    → (p : ℕ) → p < suc k
    → bit_at w p ≡ 0
zeros-suc k w even rest zero h = even
zeros-suc k w even rest (suc p) h = rest p (omega arith)

ffs_from-Lowest : (k i w : ℕ) → Lowest k i w (ffs_from k i w)
unfolding ffs_from
ffs_from-Lowest zero i w = inl (refl, λ p h. elim h [ ])
ffs_from-Lowest (suc k) i w = elim (Bool-cases (w % 2 == 1)) [
  | inl odd ↦ rw odd (inr (0, omega arith, omega arith, ground arith, λ q h. elim h [ ]))
  | inr even ↦ rw even (
      let e : w % 2 ≡ 0 = ground arith in
      elim (ffs_from-Lowest k (suc i) (w / 2)) [
        | inl (none_set, zeros) ↦ inl (none_set, zeros-suc k w e zeros)
        | inr (p, at, below, set, zeros) ↦
            inr (suc p, omega arith, omega arith, set, zeros-suc p w e zeros)
      ])
]

ffs_u64-Lowest : (w : ℕ) → Lowest 64 0 w (ffs_u64 w)
unfolding ffs_u64
ffs_u64-Lowest w = ffs_from-Lowest 64 0 w

-- `r` is the first index from `lo` below `hi` at which `f` is 1, or `b` if there is none.
abbrev pub First : (ℕ → ℕ) → ℕ → ℕ → ℕ → ℕ → Type 0
First f lo hi b r =
    ((r ≡ b) × ((n : ℕ) → lo ≤ n → n < hi → f n ≡ 0))
    ⊎ ((lo ≤ r) × (r < hi) × (f r ≡ 1) × ((n : ℕ) → lo ≤ n → n < r → f n ≡ 0))

-- A word without a 1.
skip :
    (f : ℕ → ℕ) (i hi b r : ℕ)
    → First f (64 * (i + 1)) hi b r
    → ((n : ℕ) → 64 * i ≤ n → n < 64 * i + 64 → f n ≡ 0)
    → First f (64 * i) hi b r
skip f i hi b r (inl (e, zeros)) here = inl (e, joined)
  where
    joined : (n : ℕ) → 64 * i ≤ n → n < hi → f n ≡ 0
    joined n p q = elim (dec_lt n (64 * i + 64)) [
      | yes h ↦ here n p h
      | no h ↦ zeros n (omega arith) q
    ]
skip f i hi b r (inr (p, q, one, zeros)) here = inr (omega arith, q, one, joined)
  where
    joined : (n : ℕ) → 64 * i ≤ n → n < r → f n ≡ 0
    joined n p' q' = elim (dec_lt n (64 * i + 64)) [
      | yes h ↦ here n p' h
      | no h ↦ zeros n (omega arith) q'
    ]

-- One round: the word `g` holds the values of `f` from `64 * i` on.
round :
    (f : ℕ → ℕ) (i hi b rest g : ℕ)
    → 64 * i + 64 ≤ hi
    → hi ≤ 2 ^ 32
    → ((n : ℕ) → n / 64 ≡ i → f n ≡ bit_at g (n % 64))
    → First f (64 * (i + 1)) hi b rest
    → First f (64 * i) hi b (if ffs_u64 g == 0 then rest else u32 (i <<< 6 + (ffs_u64 g - 1)))
round f i hi b rest g fits small holds later = elim (ffs_u64-Lowest g) [
  | inl (none_set, zeros) ↦
      let out : (if ffs_u64 g == 0 then rest else u32 (i <<< 6 + (ffs_u64 g - 1))) ≡ rest =
        rw none_set in
      rw out
        (skip f i hi b rest later λ n p q. holds n (omega arith) ∙ zeros (n % 64) (omega arith))
  | inr (p, at, below, one, zeros) ↦
      let out : (if ffs_u64 g == 0 then rest else u32 (i <<< 6 + (ffs_u64 g - 1))) ≡ 64 * i + p =
        rw at (ground arith) in
      rw out (
        inr (
          omega arith,
          omega arith,
          holds (64 * i + p) (omega arith)
              ∙ ap (bit_at g) (let e : (64 * i + p) % 64 ≡ p = omega arith in e)
              ∙ one,
          λ n q r. holds n (omega arith) ∙ zeros (n % 64) (omega arith),
        ))
]

-- The loops with `k` words left, up to bit `64 * (i + k)`.
pub ffs_loop-First :
    (m : Bitmap) (b k i : ℕ)
    → 64 * (i + k) ≤ 2 ^ 32
    → First (bit m) (64 * i) (64 * (i + k)) b (ffs_loop m b k i)
unfolding ffs_loop
ffs_loop-First m b zero i small = inl (refl, λ n p q. absurd (omega arith))
ffs_loop-First m b (suc k) i small =
    let rest = ffs_loop-First m b k (i + 1) (omega arith) in
    round (bit m) i (64 * (i + suc k)) b (ffs_loop m b k (i + 1)) (word m i) (omega arith) small
      (λ n e. rw e) (let e : i + 1 + k ≡ i + suc k = omega arith in rw (← e) rest)

pub ffu_loop-First :
    (m : Bitmap) (b k i : ℕ)
    → IsBitmap m
    → 64 * (i + k) ≤ 2 ^ 32
    → First (λ n. 1 - bit m n) (64 * i) (64 * (i + k)) b (ffu_loop m b k i)
unfolding ffu_loop
ffu_loop-First m b zero i ok small = inl (refl, λ n p q. absurd (omega arith))
ffu_loop-First m b (suc k) i ok small =
    let rest = ffu_loop-First m b k (i + 1) ok (omega arith) in
    round (λ n. 1 - bit m n) i (64 * (i + suc k)) b (ffu_loop m b k (i + 1)) (not64 (word m i))
      (omega arith) small
      (λ n e. rw (e, bit_at_complement 64 (n % 64) (word m i) (ok.words i) (omega arith)))
      (let e : i + 1 + k ≡ i + suc k = omega arith in rw (← e) rest)

-- `f` agrees with the bitmap behind word `i`, and with `g` inside it.
pub ffsp_loop-First :
    (m : Bitmap) (f : ℕ → ℕ) (b k i g : ℕ)
    → 64 * (i + suc k) ≤ 2 ^ 32
    → ((n : ℕ) → n / 64 ≡ i → f n ≡ bit_at g (n % 64))
    → ((n : ℕ) → i < n / 64 → f n ≡ bit m n)
    → First f (64 * i) (64 * (i + suc k)) b (ffsp_loop m b k i g)
unfolding ffsp_loop
ffsp_loop-First m f b zero i g small here later =
    round f i (64 * (i + 1)) b b g (omega arith) small here
      (inl (refl, λ n p q. absurd (omega arith)))
ffsp_loop-First m f b (suc k) i g small here later =
    let rest =
      ffsp_loop-First m f b k (i + 1) (word m (i + 1)) (omega arith)
        (λ n e. later n (omega arith) ∙ (rw e)) (λ n p. later n (omega arith)) in
    round f i (64 * (i + suc (suc k))) b (ffsp_loop m b k (i + 1) (word m (i + 1))) g (omega arith)
      small here (let e : i + 1 + suc k ≡ i + suc (suc k) = omega arith in rw (← e) rest)

-- ===== src/Bitmap/Update.antt =====
-- What bitmap_set and bitmap_clear of src/shm_util.h do to each bit.
use native.Mathlib.Decide.{dec_lt}
use shmmalloc.Base.{
  ℕ, zero, suc, [], ◌∷◌, ◌*◌, ◌/◌, ◌%◌, ◌^◌, ◌<◌, ◌≡◌, ◌∙◌, inl, inr, true, false, bit_and, bit_or,
  arith, ◌==◌, if◌then◌else◌, Bool-cases, not64, ◌<<<◌, length, set, length-set, get_or-set_self,
  get_or-set_ne, set-beyond,
}
use shmmalloc.Bitmap.{Bitmap, bitmap_get, bitmap_set, bitmap_clear, word}
use shmmalloc.Bitmap.Bits.{bit_at, bit_at-le, bit_at-bit_or, bit_at-bit_and}
use shmmalloc.Bitmap.Bits.Fields.{
  bit_at-pow, bit_at_complement, shr-eq-bit_at, bit_and-one, bit_and_63, bit_or-lt_pow,
  bit_and-lt_pow, pow-lt-pow,
}

-- Every word fits 64 bits.
pub record IsBitmap (b : Bitmap) : Type 0 where
  pub words : (i : ℕ) → word b i < 2 ^ 64

-- Bit `n` of the bitmap.
abbrev pub bit : Bitmap → ℕ → ℕ
bit b n = bit_at (word b (n / 64)) (n % 64)

pub bitmap_get-bit : (b : Bitmap) (n : ℕ) → bitmap_get b n ≡ (bit b n == 1)
unfolding bitmap_get
bitmap_get-bit b n =
    rw (bit_and_63 n, bit_and-one, shr-eq-bit_at (n % 64) (word b (n / 64)))
      (ground (arith, bit_at-le (n % 64) (word b (n / 64))))

pub word-set :
    (b : Bitmap) (i j v : ℕ) → i < length b → word (set b i v) j ≡ (if i == j then v else word b j)
word-set b i j v h = elim (Bool-cases (i == j)) [
  | inl e ↦ let e' : i ≡ j = ground arith in rw (e, ← e') (get_or-set_self b i v 0 h)
  | inr e ↦ rw e (get_or-set_ne b i j v 0 (ground arith))
]

pub length-bitmap_set : (b : Bitmap) (n : ℕ) → length (bitmap_set b n) ≡ length b
unfolding bitmap_set
length-bitmap_set b n = length-set b _ _

pub length-bitmap_clear : (b : Bitmap) (n : ℕ) → length (bitmap_clear b n) ≡ length b
unfolding bitmap_clear
length-bitmap_clear b n = length-set b _ _

-- One word.
bit_at-set : (w p q : ℕ) → bit_at (bit_or w (1 <<< p)) q ≡ (if p == q then 1 else bit_at w q)
bit_at-set w p q =
    let one : 1 <<< p ≡ 2 ^ p = omega arith in
    rw (one, bit_at-bit_or q w (2 ^ p), bit_at-pow p q) (ground (arith, bit_at-le q w))

bit_at-clear :
    (w p q : ℕ)
    → p < 64
    → q < 64
    → bit_at (bit_and w (not64 (1 <<< p))) q ≡ (if p == q then 0 else bit_at w q)
bit_at-clear w p q hp hq =
    let one : 1 <<< p ≡ 2 ^ p = omega arith in
    let fits : 2 ^ p < 2 ^ 64 = pow-lt-pow p 64 hp in
    rw
      (
        one,
        bit_at-bit_and q w (not64 (2 ^ p)),
        bit_at_complement 64 q (2 ^ p) fits hq,
        bit_at-pow p q,
      )
      (ground (arith, bit_at-le q w))

bit-bitmap_set :
    (b : Bitmap) (n m : ℕ)
    → n / 64 < length b
    → bit (bitmap_set b n) m ≡ (if n == m then 1 else bit b m)
unfolding bitmap_set
bit-bitmap_set b n m h =
    let new = bit_or (word b (n / 64)) (1 <<< (n % 64)) in
    rw (bit_and_63 n, word-set b (n / 64) (m / 64) new h)
      (elim (Bool-cases (n / 64 == m / 64)) [
        | inl e ↦
            let same : n / 64 ≡ m / 64 = ground arith in
            rw (e, ← same) (bit_at-set (word b (n / 64)) (n % 64) (m % 64) ∙ ground arith)
        | inr e ↦ rw e (ground arith)
      ])

bit-bitmap_clear :
    (b : Bitmap) (n m : ℕ)
    → n / 64 < length b
    → bit (bitmap_clear b n) m ≡ (if n == m then 0 else bit b m)
unfolding bitmap_clear
bit-bitmap_clear b n m h =
    let new = bit_and (word b (n / 64)) (not64 (1 <<< (n % 64))) in
    rw (bit_and_63 n, word-set b (n / 64) (m / 64) new h)
      (elim (Bool-cases (n / 64 == m / 64)) [
        | inl e ↦
            let same : n / 64 ≡ m / 64 = ground arith in
            rw (e, ← same)
              (bit_at-clear (word b (n / 64)) (n % 64) (m % 64) (omega arith) (omega arith)
                ∙ ground arith)
        | inr e ↦ rw e (ground arith)
      ])

-- Setting bit `n` inside the bitmap sets that bit and leaves every other.
pub bitmap_get-bitmap_set :
    (b : Bitmap) (n m : ℕ)
    → n < 64 * length b
    → bitmap_get (bitmap_set b n) m ≡ (if n == m then true else bitmap_get b m)
bitmap_get-bitmap_set b n m h =
    rw (bitmap_get-bit, bitmap_get-bit, bit-bitmap_set b n m (omega arith)) (ground arith)

-- Clearing bit `n` inside the bitmap clears that bit and leaves every other.
pub bitmap_get-bitmap_clear :
    (b : Bitmap) (n m : ℕ)
    → n < 64 * length b
    → bitmap_get (bitmap_clear b n) m ≡ (if n == m then false else bitmap_get b m)
bitmap_get-bitmap_clear b n m h =
    rw (bitmap_get-bit, bitmap_get-bit, bit-bitmap_clear b n m (omega arith)) (ground arith)

word-set-lt : (b : Bitmap) (i v : ℕ) → v < 2 ^ 64 → IsBitmap b → IsBitmap (set b i v)
word-set-lt b i v hv ok = record {
  words = λ j. elim (dec_lt i (length b)) [
    | yes p ↦ rw (word-set b i j v p) (ground (arith, ok.words j))
    | no p ↦ rw (set-beyond b i v (omega arith)) (ok.words j)
  ];
}

pub bitmap_set-IsBitmap : (b : Bitmap) (n : ℕ) → IsBitmap b → IsBitmap (bitmap_set b n)
unfolding bitmap_set
bitmap_set-IsBitmap b n ok =
    let fits : 1 <<< (n % 64) < 2 ^ 64 = omega (arith, pow-lt-pow (n % 64) 64 (omega arith)) in
    rw (bit_and_63 n) (word-set-lt b (n / 64) _ (bit_or-lt_pow 64 _ _ (ok.words (n / 64)) fits) ok)

pub bitmap_clear-IsBitmap : (b : Bitmap) (n : ℕ) → IsBitmap b → IsBitmap (bitmap_clear b n)
unfolding bitmap_clear
bitmap_clear-IsBitmap b n ok = word-set-lt b _ _ (bit_and-lt_pow 64 _ _ (ok.words _)) ok

pub IsBitmap-nil : IsBitmap []
IsBitmap-nil = record { words = λ i. omega arith }

pub IsBitmap-cons : (v : ℕ) (b : Bitmap) → v < 2 ^ 64 → IsBitmap b → IsBitmap (v ∷ b)
IsBitmap-cons v b h ok = record { words = at }
  where
    at : (i : ℕ) → word (v ∷ b) i < 2 ^ 64
    at zero = h
    at (suc i) = ok.words i

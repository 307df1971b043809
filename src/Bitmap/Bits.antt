-- ===== src/Bitmap/Bits.antt =====
-- The bits of a word, and the bit operations of C bit by bit, at every width.
pub mod Fields
use Prim.Native.Nat.{digits, bitwise, bit_and-bitwise, bit_or-bitwise}
use native.Mathlib.Decide.{dec_le}
use shmmalloc.Base.{
  ℕ, zero, suc, ◌+◌, ◌*◌, ◌/◌, ◌%◌, ◌≤◌, min, max, bit_and, bit_or, ◌≡◌, refl, ◌∙◌, arith,
}

-- Bit `p` of `w`.
abbrev pub bit_at : ℕ → ℕ → ℕ
bit_at w zero = w % 2
bit_at w (suc p) = bit_at (w / 2) p

-- The native operations are defined on fuel, of which the first argument is enough.
module _ (top : ℕ → ℕ) (digit : ℕ → ℕ → ℕ) where
  digits-suc : (k a b : ℕ) → a ≤ k → digits top digit (suc k) a b ≡ digits top digit k a b
  digits-suc zero zero b h = refl
  digits-suc (suc k) zero b h = refl
  digits-suc zero (suc a) b h = elim h [ ]
  digits-suc (suc k) (suc a) b h =
      let halves = digits-suc k (suc a / 2) (b / 2) (omega arith) in rw halves

  digits-eq-bitwise : (k a b : ℕ) → a ≤ k → digits top digit k a b ≡ bitwise top digit a b
  digits-eq-bitwise zero zero b h = refl
  digits-eq-bitwise zero (suc a) b h = elim h [ ]
  digits-eq-bitwise (suc k) a b h = elim (dec_le a k) [
    | yes p ↦ digits-suc k a b p ∙ digits-eq-bitwise k a b p
    | no p ↦ let last : a ≡ suc k = omega arith in rw last
  ]

  bitwise_step :
      (a b : ℕ)
      → bitwise top digit (suc a) b
        ≡ bitwise top digit (suc a / 2) (b / 2) * 2 + digit (suc a % 2) (b % 2)
  bitwise_step a b = rw (← digits-eq-bitwise a (suc a / 2) (b / 2) (omega arith))

-- The result without its lowest digit, and that digit.
pub bit_or_digits :
    (x y : ℕ) → (bit_or x y / 2 ≡ bit_or (x / 2) (y / 2)) × (bit_or x y % 2 ≡ max (x % 2) (y % 2))
bit_or_digits zero y = (simp bit_or-bitwise (omega arith), simp bit_or-bitwise (omega arith))
bit_or_digits (suc x) y =
    let d = bitwise_step (λ z. z) max x y in
    (simp bit_or-bitwise (omega (arith, d)), simp bit_or-bitwise (omega (arith, d)))

pub bit_and_digits :
    (x y : ℕ)
    → (bit_and x y / 2 ≡ bit_and (x / 2) (y / 2)) × (bit_and x y % 2 ≡ min (x % 2) (y % 2))
bit_and_digits zero y = (simp bit_and-bitwise (omega arith), simp bit_and-bitwise (omega arith))
bit_and_digits (suc x) y =
    let d = bitwise_step (λ z. 0) min x y in
    (simp bit_and-bitwise (omega (arith, d)), simp bit_and-bitwise (omega (arith, d)))

pub bit_at-bit_or : (p a b : ℕ) → bit_at (bit_or a b) p ≡ max (bit_at a p) (bit_at b p)
bit_at-bit_or zero a b = (bit_or_digits a b).1
bit_at-bit_or (suc p) a b = rw (bit_or_digits a b).0 (bit_at-bit_or p (a / 2) (b / 2))

pub bit_at-bit_and : (p a b : ℕ) → bit_at (bit_and a b) p ≡ min (bit_at a p) (bit_at b p)
bit_at-bit_and zero a b = (bit_and_digits a b).1
bit_at-bit_and (suc p) a b = rw (bit_and_digits a b).0 (bit_at-bit_and p (a / 2) (b / 2))

pub bit_at-le : (p w : ℕ) → bit_at w p ≤ 1
bit_at-le zero w = omega arith
bit_at-le (suc p) w = bit_at-le p (w / 2)

pub bit_at-zero : (p : ℕ) → bit_at 0 p ≡ 0
bit_at-zero zero = refl
bit_at-zero (suc p) = bit_at-zero p

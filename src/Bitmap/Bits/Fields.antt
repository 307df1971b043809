-- ===== src/Bitmap/Bits/Fields.antt =====
-- Single bits, masks, complements and shifted fields.
use Prim.Native.Nat.{bit_and-bitwise}
use native.Mathlib.Nat.{pow-suc, one-le-pow, pow-le-pow_right, div-div-eq-div-mul}
use shmmalloc.Base.{
  ℕ, zero, suc, ◌+◌, ◌-◌, ◌*◌, ◌/◌, ◌%◌, ◌^◌, ◌≤◌, ◌<◌, bit_and, bit_or, ◌≡◌, refl, sym, ap, ◌∙◌,
  arith, ltb, ◌==◌, if◌then◌else◌, ◌<<<◌,
}
use shmmalloc.Bitmap.Bits.{bit_at, bit_at-zero, bit_or_digits, bit_and_digits}

pub bit_at-pow : (p q : ℕ) → bit_at (2 ^ p) q ≡ (if p == q then 1 else 0)
bit_at-pow zero zero = refl
bit_at-pow zero (suc q) = ground (arith, bit_at-zero q)
bit_at-pow (suc p) zero = ground (arith, pow-suc 2 p)
bit_at-pow (suc p) (suc q) =
    let half : 2 ^ suc p / 2 ≡ 2 ^ p = omega (arith, pow-suc 2 p) in
    rw half (ground (arith, bit_at-pow p q))

-- `2 ^ k - 1 - w` is the complement in `k` bits.
pub bit_at_complement : (k p w : ℕ) → w < 2 ^ k → p < k → bit_at (2 ^ k - 1 - w) p ≡ 1 - bit_at w p
bit_at_complement zero p w hw hp = elim hp [ ]
bit_at_complement (suc k) zero w hw hp = omega (arith, pow-suc 2 k)
bit_at_complement (suc k) (suc p) w hw hp =
    let half : (2 ^ suc k - 1 - w) / 2 ≡ 2 ^ k - 1 - w / 2 = omega (arith, pow-suc 2 k) in
    rw half (bit_at_complement k p (w / 2) (omega (arith, pow-suc 2 k)) (omega arith))

-- The bits of a mask of `p` ones.
pub bit_at_mask : (p q : ℕ) → bit_at (2 ^ p - 1) q ≡ (if ltb q p then 1 else 0)
bit_at_mask zero q = ground (arith, bit_at-zero q)
bit_at_mask (suc p) zero = ground (arith, pow-suc 2 p, one-le-pow p 2)
bit_at_mask (suc p) (suc q) =
    let half : (2 ^ suc p - 1) / 2 ≡ 2 ^ p - 1 = omega (arith, pow-suc 2 p) in
    rw half (ground (arith, bit_at_mask p q))

pub shr-eq-bit_at : (p w : ℕ) → w / 2 ^ p % 2 ≡ bit_at w p
shr-eq-bit_at zero w = omega arith
shr-eq-bit_at (suc p) w =
    let halves : w / 2 ^ suc p ≡ w / 2 / 2 ^ p =
      ap (λ (t : ℕ). w / t) (omega (arith, pow-suc 2 p)) ∙ sym (div-div-eq-div-mul w 2 (2 ^ p)) in
    rw halves (shr-eq-bit_at p (w / 2))

-- Bits at and above the width of a word are 0.
pub bit_at-lt_pow : (k p w : ℕ) → w < 2 ^ k → k ≤ p → bit_at w p ≡ 0
bit_at-lt_pow zero p w hw h = let e : w ≡ 0 = omega arith in rw e (bit_at-zero p)
bit_at-lt_pow (suc k) zero w hw h = absurd (omega arith)
bit_at-lt_pow (suc k) (suc p) w hw h =
    bit_at-lt_pow k p (w / 2) (omega (arith, pow-suc 2 k)) (omega arith)

bit_and-zero : (k a : ℕ) → a ≤ k → bit_and a 0 ≡ 0
bit_and-zero zero zero h = refl
bit_and-zero zero (suc a) h = elim h [ ]
bit_and-zero (suc k) zero h = refl
bit_and-zero (suc k) (suc a) h =
    omega (arith, bit_and_digits (suc a) 0, bit_and-zero k (suc a / 2) (omega arith))

bit_or-zero : (k a : ℕ) → a ≤ k → bit_or a 0 ≡ a
bit_or-zero zero zero h = refl
bit_or-zero zero (suc a) h = elim h [ ]
bit_or-zero (suc k) zero h = refl
bit_or-zero (suc k) (suc a) h =
    omega (arith, bit_or_digits (suc a) 0, bit_or-zero k (suc a / 2) (omega arith))

zero-bit_and : (b : ℕ) → bit_and 0 b ≡ 0
zero-bit_and b = bit_and-bitwise 0 b

pub bit_and-one : (a : ℕ) → bit_and a 1 ≡ a % 2
bit_and-one a = omega (arith, bit_and_digits a 1, bit_and-zero (a / 2) (a / 2) (omega arith))

pub bit_and_63 : (a : ℕ) → bit_and a 63 ≡ a % 64
bit_and_63 a = omega (
  arith,
  bit_and_digits a 63,
  bit_and_digits (a / 2) 31,
  bit_and_digits (a / 2 / 2) 15,
  bit_and_digits (a / 2 / 2 / 2) 7,
  bit_and_digits (a / 2 / 2 / 2 / 2) 3,
  bit_and-one (a / 2 / 2 / 2 / 2 / 2),
)

-- A field above the low `k` bits and one inside them do not meet.
pub bit_or_disjoint : (k hi lo : ℕ) → lo < 2 ^ k → bit_or (hi <<< k) lo ≡ hi * 2 ^ k + lo
bit_or_disjoint zero hi lo h =
    let e : lo ≡ 0 = omega arith in
    rw e (omega (arith, bit_or-zero (hi * 1) (hi * 1) (omega arith)))
bit_or_disjoint (suc k) hi lo h =
    let twice : hi * 2 ^ suc k ≡ 2 * (hi * 2 ^ k) =
      omega (arith, ap (λ (t : ℕ). hi * t) (pow-suc 2 k)) in
    let half : 2 * (hi * 2 ^ k) / 2 ≡ hi * 2 ^ k = omega arith in
    let upper : bit_or (2 * (hi * 2 ^ k)) lo / 2 ≡ hi * 2 ^ k + lo / 2 =
      (bit_or_digits (2 * (hi * 2 ^ k)) lo).0
      ∙ (rw half (bit_or_disjoint k hi (lo / 2) (omega (arith, pow-suc 2 k)))) in
    rw twice (omega (arith, bit_or_digits (2 * (hi * 2 ^ k)) lo))

pub bit_or-lt_pow : (k a b : ℕ) → a < 2 ^ k → b < 2 ^ k → bit_or a b < 2 ^ k
bit_or-lt_pow zero a b ha hb =
    let ea : a ≡ 0 = omega arith in let eb : b ≡ 0 = omega arith in rw (ea, eb) (omega arith)
bit_or-lt_pow (suc k) a b ha hb = omega (
  arith,
  bit_or_digits a b,
  pow-suc 2 k,
  bit_or-lt_pow k (a / 2) (b / 2) (omega (arith, pow-suc 2 k)) (omega (arith, pow-suc 2 k)),
)

pub bit_and-lt_pow : (k a b : ℕ) → a < 2 ^ k → bit_and a b < 2 ^ k
bit_and-lt_pow zero a b ha =
    let ea : a ≡ 0 = omega arith in rw ea (omega (arith, bit_and_digits 0 b, zero-bit_and (b / 2)))
bit_and-lt_pow (suc k) a b ha = omega (
  arith,
  bit_and_digits a b,
  pow-suc 2 k,
  bit_and-lt_pow k (a / 2) (b / 2) (omega (arith, pow-suc 2 k)),
)

pub pow-lt-pow : (p k : ℕ) → p < k → 2 ^ p < 2 ^ k
pow-lt-pow p k h =
    let above : 2 ^ suc p ≤ 2 ^ k = pow-le-pow_right (omega arith) h in
    omega (arith, pow-suc 2 p, one-le-pow p 2)

-- ===== src/Bitmap/Scan.antt =====
-- The searches bitmap_ffu, bitmap_ffs, bitmap_ffsp and bitmap_sfu of src/shm_util.h.
mod Loop
use shmmalloc.Base.{
  ℕ, suc, ◌+◌, ◌-◌, ◌*◌, ◌/◌, ◌%◌, ◌^◌, ◌≤◌, ◌<◌, ◌≡◌, refl, sym, ◌∙◌, Bool, true, false, not,
  arith, ltb, ◌==◌, if◌then◌else◌, length, bit_and, Bool-cases, inl, inr, ◌<<<◌, ◌>>>◌, not64,
}
use shmmalloc.Bitmap.{
  Bitmap, word, bitmap_get, bitmap_set, bitmap_bits2groups, ffu_loop, ffs_loop, ffsp_loop,
  bitmap_ffu, bitmap_ffs, bitmap_ffsp, bitmap_sfu,
}
use shmmalloc.Bitmap.Bits.{bit_at, bit_at-le, bit_at-bit_and}
use shmmalloc.Bitmap.Bits.Fields.{bit_at_complement, bit_at_mask, bit_and_63, pow-lt-pow}
use shmmalloc.Bitmap.Update.{IsBitmap, bit, bitmap_get-bit, bitmap_get-bitmap_set}
use Loop.{First, ffs_loop-First, ffu_loop-First, ffsp_loop-First}

-- `r` is the first index from `lo` on that passes the test; if none below `b` does, it is no
-- index below `b`, and it is `b` where `b` is a whole number of words.
pub record IsFirst (test : ℕ → Bool) (lo b r : ℕ) : Type 0 where
  pub above : lo ≤ r
  pub found : r < b → test r ≡ true
  pub before : (n : ℕ) → lo ≤ n → n < r → n < b → test n ≡ false
  pub bound : b % 64 ≡ 0 → r ≤ b

groups_lem : (b : ℕ) → b + 63 < 2 ^ 32 → bitmap_bits2groups b ≡ (b + 63) / 64
unfolding bitmap_bits2groups
groups_lem b h = omega arith

First-IsFirst :
    (f : ℕ → ℕ) (test : ℕ → Bool) (lo hi b r : ℕ)
    → lo ≤ b
    → hi ≡ 64 * ((b + 63) / 64)
    → ((n : ℕ) → test n ≡ (f n == 1))
    → First f lo hi b r
    → IsFirst test lo b r
First-IsFirst f test lo hi b r h e' same (inl (e, zeros)) = record {
  above = omega arith;
  found = λ p. absurd (omega arith);
  before = λ n p q s. same n ∙ ground (arith, zeros n);
  bound = λ _. omega arith;
}
First-IsFirst f test lo hi b r h e' same (inr (p, q, one, zeros)) = record {
  above = p;
  found = λ _. same r ∙ ground arith;
  before = λ n p q s. same n ∙ ground (arith, zeros n);
  bound = λ e. omega arith;
}

-- The first word of bitmap_ffsp, without its bits below `p`.
bit_at_masked :
    (w p q : ℕ)
    → p < 64
    → q < 64
    → bit_at (bit_and w (not64 (1 <<< p - 1))) q ≡ (if ltb q p then 0 else bit_at w q)
bit_at_masked w p q hp hq =
    let one : 1 <<< p ≡ 2 ^ p = omega arith in
    let fits : 2 ^ p - 1 < 2 ^ 64 = omega (arith, pow-lt-pow p 64 hp) in
    rw
      (
        one,
        bit_at-bit_and q w (not64 (2 ^ p - 1)),
        bit_at_complement 64 q (2 ^ p - 1) fits hq,
        bit_at_mask p q,
      )
      (ground (arith, bit_at-le q w))

-- The bits from `lo` on.
abbrev bit_from : Bitmap → ℕ → ℕ → ℕ
bit_from m lo n = if ltb n lo then 0 else bit m n

First-narrow :
    (m : Bitmap) (i lo hi b r : ℕ)
    → First (bit_from m lo) i hi b r
    → i ≤ lo
    → First (bit m) lo hi b r
First-narrow m i lo hi b r (inl (e, zeros)) h = inl (e, λ n p q. ground (arith, zeros n))
First-narrow m i lo hi b r (inr (p, q, one, zeros)) h = elim (Bool-cases (ltb r lo)) [
  | inl below ↦ absurd (ground arith)
  | inr above ↦ inr (ground arith, q, ground arith, λ n p' q'. ground (arith, zeros n))
]

module _ (m : Bitmap) (b : ℕ) (small : b + 63 < 2 ^ 32) where
  -- bitmap_ffs finds the first bit that is set.
  pub bitmap_ffs-IsFirst : IsFirst (bitmap_get m) 0 b (bitmap_ffs m b)
  unfolding bitmap_ffs
  bitmap_ffs-IsFirst =
      First-IsFirst (bit m) (bitmap_get m) 0 (64 * (0 + (b + 63) / 64)) b _ (omega arith)
        (omega arith) (bitmap_get-bit m)
        (rw (groups_lem b small) (ffs_loop-First m b ((b + 63) / 64) 0 (omega arith)))

  -- bitmap_ffu finds the first bit that is not set.
  pub bitmap_ffu-IsFirst : IsBitmap m → IsFirst (λ n. not (bitmap_get m n)) 0 b (bitmap_ffu m b)
  unfolding bitmap_ffu
  bitmap_ffu-IsFirst ok =
      First-IsFirst (λ n. 1 - bit m n) (λ n. not (bitmap_get m n)) 0 (64 * (0 + (b + 63) / 64)) b _
        (omega arith) (omega arith)
        (λ n. rw (bitmap_get-bit m n) (ground (arith, bit_at-le (n % 64) (word m (n / 64)))))
        (rw (groups_lem b small) (ffu_loop-First m b ((b + 63) / 64) 0 ok (omega arith)))

  -- bitmap_ffsp finds the first bit that is set from bit `n` on.
  pub bitmap_ffsp-IsFirst : (n : ℕ) → n < b → IsFirst (bitmap_get m) n b (bitmap_ffsp m n b)
  unfolding bitmap_ffsp
  bitmap_ffsp-IsFirst n h =
      let i = n / 64 in
      let k = (b + 63) / 64 - i - 1 in
      let masked = bit_and (word m i) (not64 (1 <<< (n % 64) - 1)) in
      let found =
        ffsp_loop-First m (bit_from m n) b k i masked (omega arith)
          (λ j e. sym (
            bit_at_masked (word m i) (n % 64) (j % 64) (omega arith) (omega arith)
            ∙ (rw (← e) (ground arith))))
          (λ j p. ground arith) in
      First-IsFirst (bit m) (bitmap_get m) n (64 * (i + suc k)) b _ (omega arith) (omega arith)
        (bitmap_get-bit m)
        (rw (groups_lem b small, bit_and_63 n)
          (First-narrow m (64 * i) n _ b _ found (omega arith)))

-- What bitmap_sfu reports and leaves behind: an index below `b` was the first clear bit and is
-- now set, and any other says that all bits below `b` were set and nothing changed.
pub record IsTaken (m : Bitmap) (b : ℕ) (out : Bitmap × ℕ) : Type 0 where
  pub first : IsFirst (λ n. not (bitmap_get m n)) 0 b out.1
  pub taken :
      out.1 < b → (n : ℕ) → bitmap_get out.0 n ≡ (if out.1 == n then true else bitmap_get m n)
  pub full : b ≤ out.1 → out.0 ≡ m

pub bitmap_sfu-IsTaken :
    (m : Bitmap) (b : ℕ)
    → b + 63 < 2 ^ 32
    → IsBitmap m
    → b ≤ 64 * length m
    → IsTaken m b (bitmap_sfu m b)
unfolding bitmap_sfu
bitmap_sfu-IsTaken m b small ok fits =
    let r = bitmap_ffu m b in
    let first = bitmap_ffu-IsFirst m b small ok in
    elim (Bool-cases (ltb r b)) [
      | inl below ↦ rw below (record {
        first = first;
        taken = λ _ n. bitmap_get-bitmap_set m r n (ground arith);
        full = λ h. absurd (ground arith);
      })
      | inr over ↦
          rw over (record { first = first; taken = λ h. absurd (ground arith); full = λ h. refl })
    ]

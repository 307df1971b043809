-- ===== src/Medium/Units.antt =====
-- The unit bitmaps of src/chunk_medium.c: bitmap_up marks where a block starts, bitmap_down is
-- its mirror image, in which find_prev_medium_unit looks backwards.
use native.Mathlib.Decide.{dec_lt}
use shmmalloc.Base.{
  ℕ, zero, suc, ◌+◌, ◌-◌, ◌*◌, ◌/◌, ◌%◌, ◌^◌, ◌≤◌, ◌<◌, ◌≡◌, refl, sym, ap, ◌∙◌, inl, inr, ◌⊎◌,
  Bool, true, false, not, none, some, arith, [], ◌∷◌, get_or, ◌==◌, if◌then◌else◌, Bool-cases, u16,
  length,
}
use shmmalloc.Bitmap.{Bitmap, bitmap_get, bitmap_set, bitmap_clear, bitmap_ffsp}
use shmmalloc.Bitmap.Bits.{bit_at-zero}
use shmmalloc.Bitmap.Update.{
  bitmap_get-bit, bitmap_get-bitmap_set, bitmap_get-bitmap_clear, length-bitmap_set,
  length-bitmap_clear,
}
use shmmalloc.Bitmap.Scan.{IsFirst, bitmap_ffsp-IsFirst}
use shmmalloc.Medium.{
  Medium, mirror, set_medium_unit, clear_medium_unit, get_medium_unit, find_next_medium_unit,
  find_prev_medium_unit, is_medium_offset, check_chunk_medium,
}

pub mirror-eq : (p : ℕ) → p < 256 → mirror p ≡ 255 - p
mirror-eq p h = omega arith

-- The two bitmaps have a bit for each unit and say the same of it.
pub record IsMirrored (d : Medium) : Type 0 where
  pub up_groups : length d.bitmap_up ≡ 4
  pub down_groups : length d.bitmap_down ≡ 4
  pub agree : (p : ℕ) → p < 256 → bitmap_get d.bitmap_down (255 - p) ≡ bitmap_get d.bitmap_up p

-- The four words of a bitmap that nothing is set in.
abbrev pub zeros : Bitmap
zeros = 0 ∷ 0 ∷ 0 ∷ 0 ∷ []

word-zeros : (i : ℕ) → get_or zeros i 0 ≡ 0
word-zeros zero = refl
word-zeros (suc zero) = refl
word-zeros (suc (suc zero)) = refl
word-zeros (suc (suc (suc zero))) = refl
word-zeros (suc (suc (suc (suc i)))) = refl

pub bitmap_get-zeros : (p : ℕ) → bitmap_get zeros p ≡ false
bitmap_get-zeros p = bitmap_get-bit zeros p ∙ rw (word-zeros (p / 64), bit_at-zero (p % 64)) refl

pub zeros-IsMirrored : (d : Medium) → d.bitmap_up ≡ zeros → d.bitmap_down ≡ zeros → IsMirrored d
zeros-IsMirrored d eu ed = record {
  up_groups = rw eu refl;
  down_groups = rw ed refl;
  agree = λ p h. rw (eu, ed) (bitmap_get-zeros (255 - p) ∙ sym (bitmap_get-zeros p));
}

-- `out` is `d` but for the unit `p`, which is `v` in both bitmaps.
pub record Changes (d : Medium) (p : ℕ) (v : Bool) (out : Medium) : Type 0 where
  pub mirrored : IsMirrored out
  pub units :
      (q : ℕ) → bitmap_get out.bitmap_up q ≡ (if p == q then v else bitmap_get d.bitmap_up q)
  pub others : record out { bitmap_up = d.bitmap_up; bitmap_down = d.bitmap_down } ≡ d

-- `f` is a bitmap operation that gives bit `n` the value `v`.
abbrev Writes : (Bitmap → ℕ → Bitmap) → Bool → Type 0
Writes f v =
    ((b : Bitmap) (n : ℕ) → length (f b n) ≡ length b)
    × ((b : Bitmap) (n m : ℕ)
        → n < 64 * length b
        → bitmap_get (f b n) m ≡ (if n == m then v else bitmap_get b m))

if_mirror :
    (p q : ℕ) (v a b : Bool)
    → p < 256
    → q < 256
    → a ≡ b
    → (if (255 - p) == (255 - q) then v else a) ≡ (if p == q then v else b)
if_mirror p q v a b hp hq e = ground arith

pub write-Changes :
    (f : Bitmap → ℕ → Bitmap) (v : Bool)
    → Writes f v
    → (d : Medium) (p : ℕ) → p < 256
    → IsMirrored d
    → Changes d p v
        (record d { bitmap_up = f d.bitmap_up p; bitmap_down = f d.bitmap_down (255 - p) })
write-Changes f v (len, at) d p hp ok =
    let up = at d.bitmap_up p in
    let down = at d.bitmap_down (255 - p) in
    let up_in : p < 64 * length d.bitmap_up = omega (arith, ok.up_groups) in
    let down_in : 255 - p < 64 * length d.bitmap_down = omega (arith, ok.down_groups) in
    record {
      mirrored = record {
        up_groups = len _ _ ∙ ok.up_groups;
        down_groups = len _ _ ∙ ok.down_groups;
        agree = λ q hq.
            down (255 - q) down_in ∙ if_mirror p q v _ _ hp hq (ok.agree q hq) ∙ sym (up q up_in);
      };
      units = λ q. up q up_in;
      others = refl;
    }

-- On mirrored bitmaps set_medium_unit marks exactly the unit `p` if it is not marked, and fails
-- its assertion if it is.
pub set_medium_unit-Changes :
    (d : Medium) (p : ℕ)
    → p < 256
    → IsMirrored d
    → (bitmap_get d.bitmap_up p ≡ true → set_medium_unit d p ≡ none)
      × (bitmap_get d.bitmap_up p ≡ false
          → (out : Medium) × (set_medium_unit d p ≡ some out) × Changes d p true out)
unfolding set_medium_unit
set_medium_unit-Changes d p hp ok = (
  λ e. rw e refl,
  λ e. (
    _,
    rw (mirror-eq p hp, e, ok.agree p hp, e) refl,
    write-Changes bitmap_set true (length-bitmap_set, bitmap_get-bitmap_set) d p hp ok,
  ),
)

-- On mirrored bitmaps clear_medium_unit takes away exactly the mark of the unit `p` if it has
-- one, and fails its assertion if it has none.
pub clear_medium_unit-Changes :
    (d : Medium) (p : ℕ)
    → p < 256
    → IsMirrored d
    → (bitmap_get d.bitmap_up p ≡ false → clear_medium_unit d p ≡ none)
      × (bitmap_get d.bitmap_up p ≡ true
          → (out : Medium) × (clear_medium_unit d p ≡ some out) × Changes d p false out)
unfolding clear_medium_unit
clear_medium_unit-Changes d p hp ok = (
  λ e. rw e refl,
  λ e. (
    _,
    rw (mirror-eq p hp, e, ok.agree p hp, e) refl,
    write-Changes bitmap_clear false (length-bitmap_clear, bitmap_get-bitmap_clear) d p hp ok,
  ),
)

-- `r` is the last marked unit up to `p`, or 256 if there is none.
pub record IsLast (d : Medium) (p r : ℕ) : Type 0 where
  pub below : (r ≤ p) ⊎ (r ≡ 256)
  pub found : r < 256 → bitmap_get d.bitmap_up r ≡ true
  pub after : (n : ℕ) → n ≤ p → (r < n) ⊎ (r ≡ 256) → bitmap_get d.bitmap_up n ≡ false

ffsp-bound : (b : Bitmap) (n : ℕ) → n < 256 → bitmap_ffsp b n 256 ≤ 256
ffsp-bound b n h = (bitmap_ffsp-IsFirst b 256 (omega arith) n h).bound refl

-- find_next_medium_unit finds the first marked unit from `p` on, or 256.
pub find_next_medium_unit-IsFirst :
    (d : Medium) (p : ℕ)
    → p < 256
    → IsFirst (bitmap_get d.bitmap_up) p 256 (find_next_medium_unit d p)
unfolding find_next_medium_unit
find_next_medium_unit-IsFirst d p h =
    let first = bitmap_ffsp-IsFirst d.bitmap_up 256 (omega arith) p h in
    let whole : u16 (bitmap_ffsp d.bitmap_up p 256) ≡ bitmap_ffsp d.bitmap_up p 256 =
      omega (arith, ffsp-bound d.bitmap_up p h) in
    rw whole first

First-IsLast :
    (d : Medium) (p q : ℕ)
    → p < 256
    → IsMirrored d
    → IsFirst (bitmap_get d.bitmap_down) (255 - p) 256 q
    → IsLast d p (if not (q == 256) then mirror q else 256)
First-IsLast d p q hp ok first = elim (Bool-cases (q == 256)) [
  | inl e ↦
      let e' : q ≡ 256 = ground arith in
      rw e (record {
        below = inr refl;
        found = λ h. absurd (omega arith);
        after = λ n h _.
            sym (ok.agree n (omega arith))
            ∙ first.before (255 - n) (omega arith) (omega arith) (omega arith);
      })
  | inr e ↦
      let small : q < 256 = ground (arith, first.bound refl) in
      let back : 255 - (255 - q) ≡ q = omega arith in
      rw (e, mirror-eq q small)
        (record {
          below = inl (omega (arith, first.above));
          found = λ h. sym (ok.agree (255 - q) (omega arith)) ∙ rw back (first.found small);
          after = λ n h c.
              sym (ok.agree n (omega arith))
              ∙ first.before (255 - n) (omega arith) (ground arith) (omega arith);
        })
]

-- find_prev_medium_unit, which scans the mirror image forwards, finds the last marked unit up
-- to `p`, or 256.
pub find_prev_medium_unit-IsLast :
    (d : Medium) (p : ℕ) → p < 256 → IsMirrored d → IsLast d p (find_prev_medium_unit d p)
unfolding find_prev_medium_unit
find_prev_medium_unit-IsLast d p h ok =
    let q = bitmap_ffsp d.bitmap_down (255 - p) 256 in
    let whole : u16 q ≡ q = omega (arith, ffsp-bound d.bitmap_down (255 - p) (omega arith)) in
    rw (mirror-eq p h, whole)
      (First-IsLast d p q h ok
        (bitmap_ffsp-IsFirst d.bitmap_down 256 (omega arith) (255 - p) (omega arith)))

first-here :
    (b : Bitmap) (p r : ℕ)
    → p < 256
    → bitmap_get b p ≡ true
    → IsFirst (bitmap_get b) p 256 r
    → r ≡ p
first-here b p r h e first = elim (dec_lt p r) [
  | yes q ↦
      let clash : bitmap_get b p ≡ false = first.before p (omega arith) q h in
      absurd (ground (arith, clash))
  | no q ↦ omega (arith, first.above)
]

medium_offset-lt : (offset : ℕ) → is_medium_offset offset ≡ true → u16 (offset / 4096) < 256
unfolding is_medium_offset
medium_offset-lt offset e = ground arith

-- check_chunk_medium looks for the next block from the block's own first unit on and so finds
-- that unit: on mirrored bitmaps in which each block in use is marked, it returns for every
-- offset, and the size that it returns is always 0.
pub check_chunk_medium-eq-zero :
    (d : Medium)
    → IsMirrored d
    → ((p : ℕ) → bitmap_get d.bitmap_type p ≡ true → bitmap_get d.bitmap_up p ≡ true)
    → (offset : ℕ) → check_chunk_medium d offset ≡ some 0
unfolding check_chunk_medium get_medium_unit
check_chunk_medium-eq-zero d ok marked offset = elim (Bool-cases (is_medium_offset offset)) [
  | inr e ↦ rw e refl
  | inl e ↦ elim (Bool-cases (bitmap_get d.bitmap_type (u16 (offset / 4096)))) [
    | inr f ↦ rw (e, f) refl
    | inl f ↦
        let p = u16 (offset / 4096) in
        let small : p < 256 = medium_offset-lt offset e in
        let up : bitmap_get d.bitmap_up p ≡ true = marked p f in
        let next : find_next_medium_unit d p ≡ p =
          first-here d.bitmap_up p _ small up (find_next_medium_unit-IsFirst d p small) in
        let none_left : u16 (p + 2 ^ 16 - p) * 4096 ≡ 0 = omega arith in
        let down : bitmap_get d.bitmap_down (255 - p) ≡ true = ok.agree p small ∙ up in
        rw (e, f, up, mirror-eq p small, down, next) (ap some none_left)
  ]
]

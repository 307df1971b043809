-- ===== src/Arena/Mapping.antt =====
-- The mappings of one process, get_or_update_arena_addr of src/shm_malloc.c: what a process knows
-- of an arena's segment against what the shared context says of it.
use shmmalloc.Base.{
  ℕ, ◌<◌, ◌≡◌, ◌≢◌, refl, sym, ap, ◌∙◌, inl, inr, Bool, true, false, none, some, arith, eq→==,
  ne→==, lt→ltb, ◌==◌, Bool-cases,
}
use shmmalloc.Context.{Context, Arena, is_empty, is_context, is_arena_valid, put_arena}
use shmmalloc.Arena.{Os, put_addr, not_mapped, set_arena_addr, mmap_arena, get_or_update_arena_addr}

-- If the process has recorded a segment's id for the arena, it has an address for it.
abbrev pub IsAttached : Context → ℕ → Type 0
IsAttached c index = (c.addrs index).shmid ≢ 0 → (c.addrs index).mapped ≡ true

-- An arena that can be mapped: not empty, not the context's own, with a segment.
pub record IsMappable (c : Context) (index : ℕ) : Type 0 where
  pub inside : index < 128
  pub type : (is_empty (c.arenas index).type ≡ false) × (is_context (c.arenas index).type ≡ false)
  pub segment : (c.arenas index).shmid ≢ 0

-- `out` differs from `c` in the entry of the arena in arena_addrs at most, which records the id of
-- the arena's segment; `out.1` says that the answer is not NULL. Where that id was recorded before,
-- nothing changes; where it was not, the answer is that of the attach.
pub record Updates (os : Os) (c : Context) (index : ℕ) (out : Context × Bool) : Type 0 where
  pub current : (out.0.addrs index).shmid ≡ (c.arenas index).shmid
  pub reports : out.1 ≡ (out.0.addrs index).mapped
  pub attached : (os.attach (c.arenas index).shmid ≡ true) → (out.1 ≡ true) × IsAttached out.0 index
  pub answer :
      (c.addrs index).shmid ≢ (c.arenas index).shmid → out.1 ≡ os.attach (c.arenas index).shmid
  pub kept : (c.addrs index).shmid ≡ (c.arenas index).shmid → out ≡ (c, true)
  pub others : (i : ℕ) → index ≢ i → out.0.addrs i ≡ c.addrs i
  pub shared : record out.0 { addrs = c.addrs } ≡ c

remap-Updates :
    (os : Os) (c c1 : Context) (index : ℕ)
    → (c.addrs index).shmid ≢ (c.arenas index).shmid
    → record c1 { addrs = c.addrs } ≡ c
    → ((i : ℕ) → index ≢ i → c1.addrs i ≡ c.addrs i)
    → (let shmid = (c.arenas index).shmid in
        Updates os c index (set_arena_addr c1 index (os.attach shmid) shmid, os.attach shmid))
unfolding set_arena_addr
remap-Updates os c c1 index differ shared same =
    let here : (index == index) ≡ true = eq→== index index refl in
    record {
      current = rw here refl;
      reports = rw here refl;
      attached = λ a. (a, λ h. rw here a);
      answer = λ h. refl;
      kept = λ h. absurd (differ h);
      others = λ i h. rw (ne→== index i h) (same i h);
      shared = shared;
    }

valid-arena : (c : Context) (index : ℕ) → IsMappable c index → is_arena_valid c index ≡ true
unfolding is_arena_valid
valid-arena c index able = rw (lt→ltb index 128 able.inside, able.type.0) refl

-- For an arena of index below 128 that is neither empty nor the context's own and has a segment, and
-- a process that has an address for the id it has recorded for the arena, if it has recorded one,
-- get_or_update_arena_addr always returns. If the recorded id is the segment's, nothing changes and
-- the answer is not NULL. Otherwise the process has recorded the segment's id afterwards, and an
-- address is recorded and answered exactly if the attach succeeds. Neither another mapping nor
-- anything shared changes.
pub get_or_update_arena_addr-Updates :
    (os : Os) (c : Context) (index : ℕ)
    → IsAttached c index
    → IsMappable c index
    → (out : Context × Bool) × (get_or_update_arena_addr os c index ≡ some out)
      × Updates os c index out
unfolding get_or_update_arena_addr is_arena_valid mmap_arena set_arena_addr
get_or_update_arena_addr-Updates os c index ok able =
    elim (Bool-cases ((c.addrs index).shmid == (c.arenas index).shmid)) [
      | inl e ↦ (
        (c, (c.addrs index).mapped),
        rw e refl,
        record {
          current = ground arith;
          reports = refl;
          attached = λ a. (ok (λ z. able.segment (ground arith)), ok);
          answer = λ h. absurd (h (ground arith));
          kept = λ h. ap (λ b. (c, b)) (ok (λ z. able.segment (ground arith)));
          others = λ i h. refl;
          shared = refl;
        },
      )
      | inr e ↦ elim (Bool-cases ((c.addrs index).shmid == 0)) [
        | inl z ↦ (
          _,
          rw (e, z, valid-arena c index able, able.type.0, able.type.1) refl,
          remap-Updates os c c index (λ h. ground (arith, e, h)) refl (λ i h. refl),
        )
        | inr z ↦
            let held : (c.addrs index).mapped ≡ true = ok (ground arith) in
            let c1 = put_addr c index not_mapped in
            let valid : is_arena_valid c1 index ≡ true = valid-arena c index able in
            (
              _,
              rw (e, z, held, valid, able.type.0, able.type.1) refl,
              remap-Updates os c c1 index (λ h. ground (arith, e, h)) refl
                  (λ i h. rw (ne→== index i h) refl),
            )
      ]
    ]

stale_none :
    (os : Os) (c : Context) (index : ℕ)
    → (c.addrs index).shmid ≢ 0
    → (c.addrs index).mapped ≡ false
    → (c.addrs index).shmid ≢ (c.arenas index).shmid
    → get_or_update_arena_addr os c index ≡ none
unfolding get_or_update_arena_addr
stale_none os c index nz off ne =
    rw
      (ne→== (c.addrs index).shmid (c.arenas index).shmid ne, ne→== (c.addrs index).shmid 0 nz, off)
      refl

-- A failed attach leaves the segment's id with no address. When the arena's segment is replaced,
-- the next call fails its assertion `arena->addr != NULL`.
pub get_or_update_arena_addr_failed :
    (os : Os) (c : Context) (index : ℕ) (a : Arena)
    → IsAttached c index
    → IsMappable c index
    → (c.addrs index).shmid ≢ (c.arenas index).shmid
    → os.attach (c.arenas index).shmid ≡ false
    → a.shmid ≢ (c.arenas index).shmid
    → (out : Context) × (get_or_update_arena_addr os c index ≡ some (out, false))
      × (get_or_update_arena_addr os (put_arena out index a) index ≡ none)
get_or_update_arena_addr_failed os c index a ok able stale fails other =
    let (out, e, u) = get_or_update_arena_addr-Updates os c index ok able in
    let no : out.1 ≡ false = u.answer stale ∙ fails in
    let off : (out.0.addrs index).mapped ≡ false = sym u.reports ∙ no in
    let here : (index == index) ≡ true = eq→== index index refl in
    let differ : (out.0.addrs index).shmid ≢ a.shmid = λ q. other (sym q ∙ u.current) in
    (
      out.0,
      e ∙ ap (λ b. some (out.0, b)) no,
      stale_none os (put_arena out.0 index a) index (λ z. able.segment (sym u.current ∙ z)) off
          (rw here differ),
    )

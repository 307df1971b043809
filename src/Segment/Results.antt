-- ===== src/Segment/Results.antt =====
-- What the wrappers of src/shm_op_wrapper.c and src/shm_lock.c report, whatever the system answers.
use shmmalloc.Base.{
  ℕ, zero, suc, ◌<◌, ◌≡◌, ◌≢◌, refl, sym, ◌∙◌, ◌⊎◌, inl, inr, arith, Bool, true, not, false, Option,
  none, some, ◌==◌, if◌then◌else◌, Bool-cases, ne→==, subst,
}
use shmmalloc.Segment.{
  System, Mapping, error_or, eperm, eintr, enomem, value_or_zero, shm_mmap, lock_once, do_lock_file,
}

pub error_or_nonzero : (errno other : ℕ) → other ≢ 0 → error_or errno other ≢ 0
error_or_nonzero errno other nz = elim (Bool-cases (errno == 0)) [
  | inl e ↦ rw e nz
  | inr e ↦ rw e (λ z. ground (arith, e, z))
]

value_of : (o : Option ℕ) → value_or_zero o ≢ 0 → o ≡ some (value_or_zero o)
value_of none nz = absurd (nz refl)
value_of (some n) nz = refl

abbrev lock_code : Bool → ℕ → ℕ
lock_code done errno = if not done then error_or errno enomem else 0

code_cases :
    (done : Bool) (errno : ℕ)
    → ((done ≡ true) × (lock_code done errno ≡ 0))
      ⊎ ((done ≡ false)
          × (lock_code done errno ≢ 0)
          × ((lock_code done errno ≡ errno) ⊎ ((errno ≡ 0) × (lock_code done errno ≡ enomem))))
code_cases true errno = inl (refl, refl)
code_cases false errno = inr (
  refl,
  error_or_nonzero errno enomem (omega arith),
  elim (Bool-cases (errno == 0)) [
    | inl z ↦ inr (ground (arith, z), rw z refl)
    | inr nz ↦ inl (rw nz refl)
  ],
)

code_ne : (done : Bool) (errno : ℕ) → (done ≡ true) ⊎ (errno ≢ eintr) → lock_code done errno ≢ eintr
code_ne true errno h e = omega (arith, e)
code_ne false errno (inl h) e = cc
code_ne false errno (inr h) e = elim (Bool-cases (errno == 0)) [
  | inl z ↦ let same : error_or errno enomem ≡ enomem = rw z refl in omega (arith, sym same ∙ e)
  | inr nz ↦ let same : error_or errno enomem ≡ errno = rw nz refl in absurd (h (sym same ∙ e))
]

module _ {S : Type 0} (sys : System S) where
  -- The segment that shm_mmap attaches, in the state `w`: the one of `id` without a key, and
  -- otherwise the one that shmget answers for the key, asked with the size only to create it.
  abbrev pub Found : S → ℕ → ℕ → Bool → ℕ → ℕ → S → Type 0
  Found s key size create_segment id shmid w =
      ((key ≡ 0) × (shmid ≡ id) × (w ≡ s))
      ⊎ ((key ≢ 0)
          × ((sys.shmget s key (if create_segment then size else 0) create_segment).0 ≡ some shmid)
          × (w ≡ (sys.shmget s key (if create_segment then size else 0) create_segment).1))

  -- An error with the id kept, or the address of the segment with its positive id.
  abbrev pub Reports : S → ℕ → ℕ → Bool → ℕ → Mapping S → Type 0
  Reports s key size create_segment id r =
      ((r.addr ≡ none) × (r.err_no ≢ 0) × (r.id ≡ id))
      ⊎ ((a : ℕ) × (r.addr ≡ some a)
          × (a ≢ 0)
          × (r.err_no ≡ 0)
          × (r.id ≢ 0)
          × ((w : S) × Found s key size create_segment id r.id w × ((sys.shmat w r.id).0 ≡ some a)))

  found_by :
      (s : S) (key size : ℕ) (create_segment : Bool) (id : ℕ)
      → (let found =
            if key == 0
            then (some id, s)
            else sys.shmget s key (if create_segment then size else 0) create_segment in
          value_or_zero found.0 ≢ 0
          → Found s key size create_segment id (value_or_zero found.0) found.1)
  found_by s key size create_segment id nz = elim (Bool-cases (key == 0)) [
    | inl e ↦ rw e (inl (ground (arith, e), refl, refl))
    | inr e ↦ rw e (
        inr (
          λ z. ground (arith, e, z),
          value_of (sys.shmget s key (if create_segment then size else 0) create_segment).0 (
              subst
                (λ b.
                  value_or_zero
                    (if b
                      then (some id, s)
                      else sys.shmget s key (if create_segment then size else 0) create_segment).0
                  ≢ 0)
                e nz),
          refl,
        ))
  ]

  -- shm_mmap returns NULL with a nonzero error number and leaves the id alone, or it returns an
  -- address that is not NULL, with the error number 0: the one at which the system attaches the
  -- segment that it finds, and the id is that segment's and not 0.
  pub shm_mmap-Reports :
      (s : S) (key size : ℕ) (create_segment : Bool) (id : ℕ)
      → Reports s key size create_segment id (shm_mmap sys s key size create_segment id)
  unfolding shm_mmap
  shm_mmap-Reports s key size create_segment id =
      let found =
        if key == 0
        then (some id, s)
        else sys.shmget s key (if create_segment then size else 0) create_segment in
      let at = sys.shmat found.1 (value_or_zero found.0) in
      elim (Bool-cases (value_or_zero found.0 == 0)) [
        | inl no_id ↦
            rw no_id (inl (refl, error_or_nonzero (sys.errno found.1) eperm (omega arith), refl))
        | inr has_id ↦ elim (Bool-cases (value_or_zero at.0 == 0)) [
          | inl no_addr ↦
              rw (has_id, no_addr)
                (inl (refl, error_or_nonzero (sys.errno at.1) eperm (omega arith), refl))
          | inr has_addr ↦
              rw (has_id, has_addr)
                (inr (
                  value_or_zero at.0,
                  refl,
                  λ e. ground (arith, has_addr, e),
                  refl,
                  λ e. ground (arith, has_id, e),
                  (
                    found.1,
                    found_by s key size create_segment id (λ e. ground (arith, has_id, e)),
                    value_of at.0 (λ e. ground (arith, has_addr, e)),
                  ),
                ))
        ]
      ]

  -- From `s` on fcntl fails `k` times with EINTR, and then the state is `s2`.
  abbrev pub Interrupted : ℕ → S → ℕ → S → Type 0
  Interrupted zero s fd s2 = s ≡ s2
  Interrupted (suc k) s fd s2 =
      ((sys.fcntl s fd).0 ≡ false)
      × (sys.errno (sys.fcntl s fd).1 ≡ eintr)
      × Interrupted k (sys.fcntl s fd).1 fd s2

  -- What is left of a call of fcntl that no signal has interrupted: it takes the lock and the
  -- result is 0, or it fails with an error number of its own, which is the result, ENOMEM for 0.
  abbrev pub Answers : S → ℕ → ℕ × S → Type 0
  Answers s fd r =
      (r.1 ≡ (sys.fcntl s fd).1)
      × ((((sys.fcntl s fd).0 ≡ true) × (r.0 ≡ 0))
          ⊎ (((sys.fcntl s fd).0 ≡ false)
              × (r.0 ≢ 0)
              × ((r.0 ≡ sys.errno (sys.fcntl s fd).1)
                  ⊎ ((sys.errno (sys.fcntl s fd).1 ≡ 0) × (r.0 ≡ enomem)))))

  lock-interrupted :
      (fuel : ℕ) (s : S) (fd : ℕ)
      → (sys.fcntl s fd).0 ≡ false
      → sys.errno (sys.fcntl s fd).1 ≡ eintr
      → do_lock_file sys (suc fuel) s fd ≡ do_lock_file sys fuel (sys.fcntl s fd).1 fd
  unfolding do_lock_file
  lock-interrupted fuel s fd e f = rw (e, f) refl

  once-Answers : (s : S) (fd : ℕ) → Answers s fd (lock_once sys s fd)
  once-Answers s fd = (refl, code_cases (sys.fcntl s fd).0 (sys.errno (sys.fcntl s fd).1))

  once_ne :
      (s : S) (fd : ℕ)
      → ((sys.fcntl s fd).0 ≡ true) ⊎ (sys.errno (sys.fcntl s fd).1 ≢ eintr)
      → (lock_once sys s fd).0 ≢ eintr
  once_ne s fd h = code_ne (sys.fcntl s fd).0 (sys.errno (sys.fcntl s fd).1) h

  lock-answered :
      (fuel : ℕ) (s : S) (fd : ℕ)
      → (lock_once sys s fd).0 ≢ eintr
      → do_lock_file sys (suc fuel) s fd ≡ some (lock_once sys s fd)
  unfolding do_lock_file
  lock-answered fuel s fd ne = rw (ne→== _ _ ne) refl

  -- However often the wait for the file lock is interrupted by signals, do_lock_file goes on, and
  -- after the first call of fcntl that no signal interrupts it returns: 0 if that call took the
  -- lock, and otherwise its error number.
  pub do_lock_file_waits :
      (fuel k : ℕ) (s s2 : S) (fd : ℕ)
      → k < fuel
      → Interrupted k s fd s2
      → ((sys.fcntl s2 fd).0 ≡ true) ⊎ (sys.errno (sys.fcntl s2 fd).1 ≢ eintr)
      → (r : ℕ × S) × (do_lock_file sys fuel s fd ≡ some r) × Answers s2 fd r
  do_lock_file_waits zero k s s2 fd lt h ne = absurd (omega (arith, lt))
  do_lock_file_waits (suc fuel) zero s s2 fd lt h ne = (
    lock_once sys s2 fd,
    subst (λ w. do_lock_file sys (suc fuel) w fd ≡ some (lock_once sys s2 fd)) (sym h)
        (lock-answered fuel s2 fd (once_ne s2 fd ne)),
    once-Answers s2 fd,
  )
  do_lock_file_waits (suc fuel) (suc k) s s2 fd lt (e, f, h) ne =
      let (r, runs, answers) =
        do_lock_file_waits fuel k (sys.fcntl s fd).1 s2 fd (omega (arith, lt)) h ne in
      (r, lock-interrupted fuel s fd e f ∙ runs, answers)

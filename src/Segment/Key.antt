-- ===== src/Segment/Key.antt =====
-- The key of the shared context, shm_get_key of src/shm_op_wrapper.c: exactly when it has one.
use shmmalloc.Base.{
  ℕ, ◌≡◌, ◌≢◌, refl, sym, ap, subst, ◌∙◌, ◌⊎◌, ◌↔◌, inl, inr, arith, Bool, true, false, Option,
  none, some, ◌==◌, if◌then◌else◌, Bool-cases, Option-cases, eq→==,
}
use shmmalloc.Segment.{
  System, error_or, enoent, eio, efault, is_value, shm_get_key, make_file, write_file,
  write_answered, write_opened, key_answer,
}
use shmmalloc.Segment.Results.{error_or_nonzero}

is_value-some : (o : Option ℕ) (n : ℕ) → is_value o n ≡ true → o ≡ some n
is_value-some none n e = cc
is_value-some (some m) n e = ap some (ground (arith, e))

-- An error number that is not 0 is not 0.
never : {A : Type 0} (errno other : ℕ) → other ≢ 0 → error_or errno other ≡ 0 → A
never errno other nz z = absurd (error_or_nonzero errno other nz z)

is_missing : (e : ℕ) → (error_or e enoent == enoent) ≡ true → (e ≡ 0) ⊎ (e ≡ enoent)
is_missing e h = elim (Bool-cases (e == 0)) [
  | inl z ↦ inl (ground (arith, z))
  | inr nz ↦ inr (ground (arith, h, nz))
]

missing-error_or : (e : ℕ) → (e ≡ 0) ⊎ (e ≡ enoent) → (error_or e enoent == enoent) ≡ true
missing-error_or e (inl z) = rw z refl
missing-error_or e (inr z) = rw z refl

module _ {S : Type 0} (sys : System S) where
  abbrev written : S → ℕ → ℕ → Option ℕ × S
  written s fd size = sys.write_bytes s fd size

  abbrev synced : S → ℕ → ℕ → Bool × S
  synced s fd size = sys.fsync (written s fd size).1 fd

  abbrev closed : S → ℕ → ℕ → S
  closed s fd size = sys.close_file (synced s fd size).1 fd

  -- The eight bytes are written to the open file, which reaches the disk and is closed.
  abbrev Writes : S → ℕ → S → Type 0
  Writes s fd w = ((written s fd 8).0 ≡ some 8) × ((synced s fd 8).0 ≡ true) × (w ≡ closed s fd 8)

  -- From `s`, where access has failed, to `w` the missing file is made, and no call fails.
  pub record Makes (s w : S) : Type 0 where
    pub missing : (sys.errno s ≡ 0) ⊎ (sys.errno s ≡ enoent)
    pub file : ℕ
    pub opened : (sys.open_file s true).0 ≡ some file
    pub ready : S
    pub writes : Writes (sys.open_file s true).1 file ready
    pub changed : (sys.chmod ready).0 ≡ true
    pub ends : w ≡ (sys.chmod ready).1

  -- From `s` to `w` shm_get_key finds or makes the file, and no call fails but the search for it.
  abbrev pub HasFile : S → S → Type 0
  HasFile s w =
      (((sys.access s).0 ≡ true) × (w ≡ (sys.access s).1))
      ⊎ (((sys.access s).0 ≡ false) × Makes (sys.access s).1 w)

  written_short :
      (s : S) (fd : ℕ)
      → is_value (written s fd 8).0 8 ≡ false
      → (write_opened sys s fd 8).0 ≡ error_or (sys.errno (written s fd 8).1) eio
  unfolding write_opened
  written_short s fd e = rw e refl

  written_lost :
      (s : S) (fd : ℕ)
      → is_value (written s fd 8).0 8 ≡ true
      → (synced s fd 8).0 ≡ false
      → (write_opened sys s fd 8).0 ≡ error_or (sys.errno (synced s fd 8).1) eio
  unfolding write_opened
  written_lost s fd e f = rw (e, f) refl

  written_whole :
      (s : S) (fd : ℕ)
      → is_value (written s fd 8).0 8 ≡ true
      → (synced s fd 8).0 ≡ true
      → write_opened sys s fd 8 ≡ (0, closed s fd 8)
  unfolding write_opened
  written_whole s fd e f = rw (e, f) refl

  write_opened-Writes :
      (s : S) (fd : ℕ) → (write_opened sys s fd 8).0 ≡ 0 → Writes s fd (write_opened sys s fd 8).1
  write_opened-Writes s fd e = elim (Bool-cases (is_value (written s fd 8).0 8)) [
    | inl whole ↦ elim (Bool-cases (synced s fd 8).0) [
      | inl on_disk ↦ (
        is_value-some (written s fd 8).0 8 whole,
        on_disk,
        ap (λ r. r.1) (written_whole s fd whole on_disk),
      )
      | inr lost ↦
          never (sys.errno (synced s fd 8).1) eio (omega arith)
            (sym (written_lost s fd whole lost) ∙ e)
    ]
    | inr short ↦
        never (sys.errno (written s fd 8).1) eio (omega arith) (sym (written_short s fd short) ∙ e)
  ]

  write_file-none :
      (s : S)
      → (sys.open_file s true).0 ≡ none
      → (write_file sys s 8).0 ≡ error_or (sys.errno (sys.open_file s true).1) eio
  unfolding write_file write_answered
  write_file-none s e = ap (λ o. (write_answered sys (o, (sys.open_file s true).1) 8).0) e

  write_file-some :
      (s : S) (fd : ℕ)
      → (sys.open_file s true).0 ≡ some fd
      → write_file sys s 8 ≡ write_opened sys (sys.open_file s true).1 fd 8
  unfolding write_file write_answered
  write_file-some s fd e = ap (λ o. write_answered sys (o, (sys.open_file s true).1) 8) e

  write_file-Writes :
      (s : S)
      → (write_file sys s 8).0 ≡ 0
      → (fd : ℕ) × ((sys.open_file s true).0 ≡ some fd)
        × Writes (sys.open_file s true).1 fd (write_file sys s 8).1
  write_file-Writes s e = elim (Option-cases (sys.open_file s true).0) [
    | inl no_file ↦
        never (sys.errno (sys.open_file s true).1) eio (omega arith)
          (sym (write_file-none s no_file) ∙ e)
    | inr (fd, open_fd) ↦
        let same = write_file-some s fd open_fd in
        (
          fd,
          open_fd,
          subst (λ r. Writes (sys.open_file s true).1 fd r.1) (sym same)
              (write_opened-Writes (sys.open_file s true).1 fd (sym (ap (λ r. r.0) same) ∙ e)),
        )
  ]

  Writes-write_file :
      (s : S) (fd : ℕ) (w : S)
      → (sys.open_file s true).0 ≡ some fd
      → Writes (sys.open_file s true).1 fd w
      → write_file sys s 8 ≡ (0, w)
  Writes-write_file s fd w e (a, b, c) =
      write_file-some s fd e
      ∙ written_whole (sys.open_file s true).1 fd (rw a refl) b
      ∙ ap (λ q. (0, q)) (sym c)

  made_other :
      (s : S)
      → (error_or (sys.errno s) enoent == enoent) ≡ false
      → (make_file sys s).0 ≡ error_or (sys.errno s) enoent
  unfolding make_file
  made_other s e = rw e refl

  module _ (s : S) (absent : (error_or (sys.errno s) enoent == enoent) ≡ true) where
    made_unwritten :
        ((write_file sys s 8).0 == 0) ≡ false → (make_file sys s).0 ≡ (write_file sys s 8).0
    unfolding make_file
    made_unwritten e = rw (absent, e) refl

    made_refused :
        ((write_file sys s 8).0 == 0) ≡ true
        → (sys.chmod (write_file sys s 8).1).0 ≡ false
        → (make_file sys s).0 ≡ error_or (sys.errno (sys.chmod (write_file sys s 8).1).1) efault
    unfolding make_file
    made_refused e f = rw (absent, e, f) refl

    made_whole :
        ((write_file sys s 8).0 == 0) ≡ true
        → (sys.chmod (write_file sys s 8).1).0 ≡ true
        → make_file sys s ≡ (0, (sys.chmod (write_file sys s 8).1).1)
    unfolding make_file
    made_whole e f = rw (absent, e, f) refl

  make_file-Makes : (s : S) → (make_file sys s).0 ≡ 0 → Makes s (make_file sys s).1
  make_file-Makes s e = elim (Bool-cases (error_or (sys.errno s) enoent == enoent)) [
    | inl absent ↦ elim (Bool-cases ((write_file sys s 8).0 == 0)) [
      | inl wrote ↦ elim (Bool-cases (sys.chmod (write_file sys s 8).1).0) [
        | inl done ↦
            let (fd, open_fd, writes) = write_file-Writes s (ground (arith, wrote)) in
            record {
              missing = is_missing (sys.errno s) absent;
              file = fd;
              opened = open_fd;
              ready = (write_file sys s 8).1;
              writes = writes;
              changed = done;
              ends = ap (λ r. r.1) (made_whole s absent wrote done);
            }
        | inr refused ↦
            never (sys.errno (sys.chmod (write_file sys s 8).1).1) efault (omega arith)
              (sym (made_refused s absent wrote refused) ∙ e)
      ]
      | inr unwritten ↦
          let same = made_unwritten s absent unwritten in
          absurd (ground (arith, unwritten, sym same ∙ e))
    ]
    | inr other ↦ never (sys.errno s) enoent (omega arith) (sym (made_other s other) ∙ e)
  ]

  Makes-make_file : (s w : S) → Makes s w → make_file sys s ≡ (0, w)
  Makes-make_file s w m =
      let wrote = Writes-write_file s m.file m.ready m.opened m.writes in
      let end = ap (λ r. sys.chmod r.1) wrote in
      made_whole s (missing-error_or (sys.errno s) m.missing) (rw wrote refl)
        (ap (λ r. r.0) end ∙ m.changed)
      ∙ ap (λ r. (0, r.1)) end
      ∙ ap (λ q. (0, q)) (sym m.ends)

  -- A nonzero error number and no key, or a key and 0.
  abbrev pub KeyReports : ℕ × Option ℕ → Type 0
  KeyReports r = ((r.0 ≢ 0) × (r.1 ≡ none)) ⊎ ((r.0 ≡ 0) × ((key : ℕ) × (r.1 ≡ some key)))

  key_answer-KeyReports : (answer : Option ℕ × S) → KeyReports (key_answer sys answer).0
  unfolding key_answer
  key_answer-KeyReports (none, s) = inl (error_or_nonzero (sys.errno s) efault (omega arith), refl)
  key_answer-KeyReports (some key, s) = inr (refl, (key, refl))

  -- What shm_get_key asks for the file.
  abbrev file_found : S → ℕ × S
  file_found s = if (sys.access s).0 then (0, (sys.access s).1) else make_file sys (sys.access s).1

  file_found-HasFile : (s : S) → (file_found s).0 ≡ 0 → HasFile s (file_found s).1
  file_found-HasFile s e = elim (Bool-cases (sys.access s).0) [
    | inl there ↦
        let same : file_found s ≡ (0, (sys.access s).1) = rw there refl in
        inl (there, ap (λ r. r.1) same)
    | inr absent ↦
        let same : file_found s ≡ make_file sys (sys.access s).1 = rw absent refl in
        inr (
          absent,
          subst (λ r. Makes (sys.access s).1 r.1) (sym same)
              (make_file-Makes (sys.access s).1 (sym (ap (λ r. r.0) same) ∙ e)),
        )
  ]

  HasFile-file_found : (s w : S) → HasFile s w → file_found s ≡ (0, w)
  HasFile-file_found s w (inl (there, e)) = rw (there, e) refl
  HasFile-file_found s w (inr (absent, made)) = rw absent (Makes-make_file (sys.access s).1 w made)

  key_of : (answer : Option ℕ × S) → (key_answer sys answer).0.1 ≡ answer.0
  unfolding key_answer
  key_of (none, s) = refl
  key_of (some key, s) = refl

  asked_found :
      (s : S) (proj_id : ℕ)
      → (file_found s).0 ≡ 0
      → shm_get_key sys s proj_id ≡ key_answer sys (sys.ftok (file_found s).1 proj_id)
  unfolding shm_get_key
  asked_found s proj_id e = rw (eq→== (file_found s).0 0 e) refl

  asked_failed :
      (s : S) (proj_id : ℕ)
      → ((file_found s).0 == 0) ≡ false
      → shm_get_key sys s proj_id ≡ (((file_found s).0, none), (file_found s).1)
  unfolding shm_get_key
  asked_failed s proj_id e = rw e refl

  reports : (s : S) (proj_id : ℕ) → KeyReports (shm_get_key sys s proj_id).0
  reports s proj_id = elim (Bool-cases ((file_found s).0 == 0)) [
    | inl ok ↦
        subst (λ r. KeyReports r.0) (sym (asked_found s proj_id (ground (arith, ok))))
          (key_answer-KeyReports (sys.ftok (file_found s).1 proj_id))
    | inr failed ↦
        subst (λ r. KeyReports r.0) (sym (asked_failed s proj_id failed))
          (inl (λ e. ground (arith, failed, e), refl))
  ]

  -- The call reaches ftok in the state `w`, and that answers `key`.
  abbrev pub HasKey : S → ℕ → ℕ → Type 0
  HasKey s proj_id key = (w : S) × HasFile s w × ((sys.ftok w proj_id).0 ≡ some key)

  key-HasKey :
      (s : S) (proj_id key : ℕ) → (shm_get_key sys s proj_id).0.1 ≡ some key → HasKey s proj_id key
  key-HasKey s proj_id key e = elim (Bool-cases ((file_found s).0 == 0)) [
    | inl ok ↦
        let found : (file_found s).0 ≡ 0 = ground (arith, ok) in
        (
          (file_found s).1,
          file_found-HasFile s found,
          sym (key_of (sys.ftok (file_found s).1 proj_id))
              ∙ ap (λ r. r.0.1) (sym (asked_found s proj_id found))
              ∙ e,
        )
    | inr failed ↦
        let never_none : none ≡ some key =
          ap (λ r. r.0.1) (sym (asked_failed s proj_id failed)) ∙ e in
        cc
  ]

  HasKey-key :
      (s : S) (proj_id key : ℕ) → HasKey s proj_id key → (shm_get_key sys s proj_id).0.1 ≡ some key
  HasKey-key s proj_id key (w, file, answered) =
      let found = HasFile-file_found s w file in
      ap (λ r. r.0.1) (asked_found s proj_id (ap (λ r. r.0) found))
      ∙ ap (λ r. (key_answer sys (sys.ftok r.1 proj_id)).0.1) found
      ∙ key_of (sys.ftok w proj_id)
      ∙ answered

  -- shm_get_key returns a nonzero error number and no key, or 0 and a key. It has the key `key`
  -- exactly if ftok answers it and no call before has failed: the file is there, or access reports
  -- ENOENT (or no error number) and the file is opened, its eight bytes are written and synced, and
  -- its mode is changed.
  pub shm_get_key-KeyReports :
      (s : S) (proj_id key : ℕ)
      → KeyReports (shm_get_key sys s proj_id).0
        × (((shm_get_key sys s proj_id).0.1 ≡ some key) ↔ HasKey s proj_id key)
  shm_get_key-KeyReports s proj_id key =
      (reports s proj_id, (key-HasKey s proj_id key, HasKey-key s proj_id key))

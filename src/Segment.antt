-- ===== src/Segment.antt =====
-- The wrappers of system calls of src/shm_op_wrapper.c and src/shm_lock.c. The system is a
-- parameter: its state, and one function for each call.
mod Tests
pub mod Results
pub mod Key
use shmmalloc.Base.{
  ℕ, zero, suc, Bool, true, false, not, ◌&&◌, Option, none, some, ◌==◌, if◌then◌else◌, ◌>>=◌,
}

abbrev pub eperm : ℕ
eperm = 1

abbrev pub enoent : ℕ
enoent = 2

abbrev pub eintr : ℕ
eintr = 4

abbrev pub eio : ℕ
eio = 5

abbrev pub enomem : ℕ
enomem = 12

abbrev pub eacces : ℕ
eacces = 13

abbrev pub efault : ℕ
efault = 14

-- The answer none stands for -1, false for a failure, and `errno` is what the last call left.
pub record System (S : Type 0) : Type 0 where
  pub errno : S → ℕ
  pub shmget : S → ℕ → ℕ → Bool → Option ℕ × S
  pub shmat : S → ℕ → Option ℕ × S
  pub shmdt : S → ℕ → Bool × S
  pub shmctl_remove : S → ℕ → Bool × S
  pub access : S → Bool × S
  pub open_file : S → Bool → Option ℕ × S
  pub write_bytes : S → ℕ → ℕ → Option ℕ × S
  pub fsync : S → ℕ → Bool × S
  pub close_file : S → ℕ → S
  pub chmod : S → Bool × S
  pub ftok : S → ℕ → Option ℕ × S
  pub fcntl : S → ℕ → Bool × S
  pub mutexattr_init : S → ℕ × S
  pub mutexattr_setpshared : S → ℕ × S
  pub mutexattr_settype : S → ℕ × S
  pub mutex_init : S → ℕ × S
  pub mutexattr_destroy : S → S

-- `errno != 0 ? errno : other`.
abbrev pub error_or : ℕ → ℕ → ℕ
error_or errno other = if errno == 0 then other else errno

-- 0 for -1: both are no segment, no address.
abbrev pub value_or_zero : Option ℕ → ℕ
value_or_zero none = 0
value_or_zero (some n) = n

abbrev pub is_value : Option ℕ → ℕ → Bool
is_value none n = false
is_value (some m) n = m == n

-- What shm_mmap returns and writes to `id` and `err_no`.
pub record Mapping (S : Type 0) : Type 0 where
  pub addr : Option ℕ
  pub id : ℕ
  pub err_no : ℕ
  pub system : S

module _ {S : Type 0} (sys : System S) where
  -- The key 0 stands for every key that is not positive, and the id 0 likewise.
  unfoldable pub shm_mmap : S → ℕ → ℕ → Bool → ℕ → Mapping S
  shm_mmap s key size create_segment id =
      let found =
        if key == 0
        then (some id, s)
        else sys.shmget s key (if create_segment then size else 0) create_segment in
      let shmid = value_or_zero found.0 in
      let at = sys.shmat found.1 shmid in
      let addr = value_or_zero at.0 in
      if shmid == 0
      then record {
        addr = none;
        id = id;
        err_no = error_or (sys.errno found.1) eperm;
        system = found.1;
      }
      else if addr == 0
      then record { addr = none; id = id; err_no = error_or (sys.errno at.1) eperm; system = at.1 }
      else record { addr = some addr; id = shmid; err_no = 0; system = at.1 }

  -- write_file from the open file on.
  unfoldable pub write_opened : S → ℕ → ℕ → ℕ × S
  write_opened s fd file_size =
      let written = sys.write_bytes s fd file_size in
      let synced = sys.fsync written.1 fd in
      if not (is_value written.0 file_size)
      then (error_or (sys.errno written.1) eio, sys.close_file written.1 fd)
      else if not synced.0
      then (error_or (sys.errno synced.1) eio, sys.close_file synced.1 fd)
      else (0, sys.close_file synced.1 fd)

  -- write_file from the answer of open on.
  unfoldable pub write_answered : Option ℕ × S → ℕ → ℕ × S
  write_answered (none, s) file_size = (error_or (sys.errno s) eio, s)
  write_answered (some fd, s) file_size = write_opened s fd file_size

  unfoldable pub write_file : S → ℕ → ℕ × S
  write_file s file_size = write_answered (sys.open_file s true) file_size

  -- The block of shm_get_key for a file that is not there.
  unfoldable pub make_file : S → ℕ × S
  make_file s =
      let result = error_or (sys.errno s) enoent in
      let wrote = write_file s 8 in
      let changed = sys.chmod wrote.1 in
      if not (result == enoent)
      then (result, s)
      else if not (wrote.0 == 0)
      then wrote
      else if not changed.0
      then (error_or (sys.errno changed.1) efault, changed.1)
      else (0, changed.1)

  -- The answer of ftok.
  unfoldable pub key_answer : Option ℕ × S → (ℕ × Option ℕ) × S
  key_answer (none, s) = ((error_or (sys.errno s) efault, none), s)
  key_answer (some key, s) = ((0, some key), s)

  unfoldable pub shm_get_key : S → ℕ → (ℕ × Option ℕ) × S
  shm_get_key s proj_id =
      let there = sys.access s in
      let file = if there.0 then (0, there.1) else make_file there.1 in
      if not (file.0 == 0) then ((file.0, none), file.1) else key_answer (sys.ftok file.1 proj_id)

  unfoldable pub shm_munmap : S → ℕ → ℕ × S
  shm_munmap s addr =
      let done = sys.shmdt s addr in
      (if done.0 then 0 else error_or (sys.errno done.1) eacces, done.1)

  unfoldable pub shm_remove : S → ℕ → ℕ × S
  shm_remove s shmid =
      let done = sys.shmctl_remove s shmid in
      (if not done.0 then error_or (sys.errno done.1) eacces else 0, done.1)

  -- One call of the loop of do_lock_file.
  abbrev pub lock_once : S → ℕ → ℕ × S
  lock_once s fd =
      let done = sys.fcntl s fd in
      (if not done.0 then error_or (sys.errno done.1) enomem else 0, done.1)

  unfoldable pub do_lock_file : ℕ → S → ℕ → Option (ℕ × S)
  do_lock_file zero s fd = none
  do_lock_file (suc k) s fd =
      let once = lock_once s fd in
      let rest = do_lock_file k once.1 fd in if once.0 == eintr then rest else some once

  abbrev pub locked_or_closed : ℕ → ℕ × S → Option ℕ × S
  locked_or_closed fd (result, s) =
      if not (result == 0) then (none, sys.close_file s fd) else (some fd, s)

  -- `some (none, s)` is the answer -1; `none`, out of fuel, a loop that does not end.
  unfoldable pub shm_lock_file : ℕ → S → Option (Option ℕ × S)
  shm_lock_file fuel s =
      let opened = sys.open_file s false in
      elim opened.0 [
        | none ↦ some (none, opened.1)
        | some fd ↦ do_lock_file fuel opened.1 fd >>= λ done. some (locked_or_closed fd done)
      ]

  unfoldable pub shm_unlock_file : S → ℕ → S
  shm_unlock_file s lock_fd = sys.close_file s lock_fd

  unfoldable pub shm_lock_init : S → ℕ × S
  shm_lock_init s =
      let a = sys.mutexattr_init s in
      let b = sys.mutexattr_setpshared a.1 in
      let c = sys.mutexattr_settype b.1 in
      let d = sys.mutex_init c.1 in
      if not (a.0 == 0)
      then a
      else if not (b.0 == 0)
      then b
      else if not (c.0 == 0)
      then c
      else if not (d.0 == 0)
      then d
      else (0, sys.mutexattr_destroy d.1)

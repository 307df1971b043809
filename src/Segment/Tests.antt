-- ===== src/Segment/Tests.antt =====
-- Runs of the wrappers of src/shm_op_wrapper.c and src/shm_lock.c on a small system.
use shmmalloc.Base.{ℕ, inr, suc, ◌-◌, ◌≡◌, refl, ◌↔◌, arith, true, false, some, ◌==◌, if◌then◌else◌}
use shmmalloc.Segment.{
  System, eintr, shm_mmap, shm_get_key, make_file, write_file, write_answered, write_opened,
  key_answer, do_lock_file, shm_lock_file, shm_munmap, shm_remove, shm_unlock_file, shm_lock_init,
}
use shmmalloc.Segment.Key.{KeyReports, HasKey, shm_get_key-KeyReports}
use shmmalloc.Segment.Results.{Reports, shm_mmap-Reports, Answers, do_lock_file_waits}

-- The state counts the signals to come; the file is missing; the segment of a key has its number.
small : System ℕ
small = record {
  errno = λ s. if s == 0 then 2 else eintr;
  shmget = λ s key size create. (some key, s);
  shmat = λ s shmid. (some (suc shmid), s);
  shmdt = λ s addr. (true, s);
  shmctl_remove = λ s shmid. (false, s);
  access = λ s. (false, s);
  open_file = λ s create. (some 3, s);
  write_bytes = λ s fd size. (some size, s);
  fsync = λ s fd. (true, s);
  close_file = λ s fd. s;
  chmod = λ s. (true, s);
  ftok = λ s proj_id. (some (suc proj_id), s);
  fcntl = λ s fd. (s == 0, s - 1);
  mutexattr_init = λ s. (0, s);
  mutexattr_setpshared = λ s. (0, s);
  mutexattr_settype = λ s. (0, s);
  mutex_init = λ s. (0, s);
  mutexattr_destroy = λ s. s;
}

run_mmap : (shm_mmap small 0 5 4096 true 0).addr ≡ some 6
unfolding small shm_mmap
run_mmap = refl

run_key : shm_get_key small 0 7 ≡ ((0, some 8), 0)
unfolding small shm_get_key make_file write_file write_answered write_opened key_answer
run_key = refl

run_lock : shm_lock_file small 5 0 ≡ some (some 3, 0)
unfolding small shm_lock_file do_lock_file
run_lock = refl

run_remove : shm_remove small 0 9 ≡ (2, 0)
unfolding small shm_remove
run_remove = refl

run_munmap : shm_munmap small 1 9 ≡ (0, 1)
unfolding small shm_munmap
run_munmap = refl

run_lock_init : shm_lock_init small 1 ≡ (0, 1)
unfolding small shm_lock_init
run_lock_init = refl

run_unlock : shm_unlock_file small 1 3 ≡ 1
unfolding small shm_unlock_file
run_unlock = refl

shm_mmap-Reports_example : Reports small 0 5 4096 true 7 (shm_mmap small 0 5 4096 true 7)
shm_mmap-Reports_example = shm_mmap-Reports small 0 5 4096 true 7

shm_get_key-KeyReports_example :
    KeyReports small (shm_get_key small 0 7).0
    × (((shm_get_key small 0 7).0.1 ≡ some 8) ↔ HasKey small 0 7 8)
shm_get_key-KeyReports_example = shm_get_key-KeyReports small 0 7 8

do_lock_file_waits_example : (r : ℕ × ℕ) × (do_lock_file small 4 3 3 ≡ some r) × Answers small 1 3 r
unfolding small
do_lock_file_waits_example =
    do_lock_file_waits small 4 2 3 1 3 (omega arith) (refl, refl, (refl, refl, refl))
      (inr (omega arith))

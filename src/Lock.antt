-- ===== src/Lock.antt =====
-- The lock of a cache directory in src/core/fce_file.c, as it is built for POSIX: the lock of the
-- process, a read-write lock, and then a lock on a file of the directory.
use fast_cache_engine.Common.{Bool, false, if◌then◌else◌}
use fast_cache_engine.Common.{not, true, ℕ, ◌&&◌, ◌+◌, ◌-◌, ◌==◌, ◌≡◌}
use fast_cache_engine.Status.{Result, err, fault, invalid_argument, io, ok, out_of_memory}

-- How the lock of the process is held, and how many files are open for their locks.
pub record LockState : Type 0 where
  pub readers : ℕ
  pub writer : Bool
  pub open_files : ℕ

-- `FceFileLock`; `fd` says whether it has an open file.
pub record FceFileLock : Type 0 where
  pub fd : Bool
  pub locked : Bool
  pub shared : Bool

-- What the calls answer: `pthread_rwlock_rdlock` or `pthread_rwlock_wrlock`, the allocation of the
-- path, and `open` and `fcntl` after the rounds that were interrupted.
pub record LockEnv : Type 0 where
  pub entered : Bool
  pub path : Bool
  pub opened : Bool
  pub file_locked : Bool

-- The lock of the process is free for the caller.
abbrev pub is_free : Bool → LockState → Bool
is_free true st = not st.writer
is_free false st = not st.writer && (st.readers == 0)

abbrev pub held : Bool → LockState → LockState
held true st = record st { readers = st.readers + 1 }
held false st = record st { writer = true }

unfoldable pub process_lock_enter : LockEnv → Bool → LockState → LockState × Result (Unit {0})
process_lock_enter e shared st = if e.entered then (held shared st, ok tt) else (st, err io)

unfoldable pub process_lock_leave : Bool → LockState → LockState
process_lock_leave true st = record st { readers = st.readers - 1 }
process_lock_leave false st = record st { writer = false }

-- `open` and `close` of the lock file.
abbrev pub open_file : LockState → LockState
open_file st = record st { open_files = st.open_files + 1 }

abbrev pub close_file : LockState → LockState
close_file st = record st { open_files = st.open_files - 1 }

-- After the lock of the process: the lock of the file, which is open from `open` on.
unfoldable pub lock_file : LockEnv → Bool → LockState → LockState × Result FceFileLock
unfolding process_lock_leave
lock_file e shared st =
    if not e.path
    then (process_lock_leave shared st, err out_of_memory)
    else if not e.opened
    then (process_lock_leave shared st, err io)
    else if not e.file_locked
    then (process_lock_leave shared (close_file (open_file st)), err io)
    else (open_file st, ok (record { fd = true; locked = true; shared = shared }))

-- A process that has not got its lock goes no further.
unfoldable pub after_enter :
    LockEnv → Bool → LockState × Result (Unit {0}) → LockState × Result FceFileLock
unfolding lock_file
after_enter e shared (st, ok _) = lock_file e shared st
after_enter e shared (st, err status) = (st, err status)
after_enter e shared (st, fault) = (st, fault)

-- `given`: neither of the two pointers is NULL.
unfoldable pub cache_lock_acquire_impl :
    LockEnv → Bool → Bool → LockState → LockState × Result FceFileLock
unfolding process_lock_enter after_enter
cache_lock_acquire_impl e given shared st =
    if not given
    then (st, err invalid_argument)
    else after_enter e shared (process_lock_enter e shared st)

unfoldable pub fce_cache_lock_acquire : LockEnv → Bool → LockState → LockState × Result FceFileLock
unfolding cache_lock_acquire_impl
fce_cache_lock_acquire e given st = cache_lock_acquire_impl e given false st

unfoldable pub fce_cache_lock_acquire_shared :
    LockEnv → Bool → LockState → LockState × Result FceFileLock
unfolding cache_lock_acquire_impl
fce_cache_lock_acquire_shared e given st = cache_lock_acquire_impl e given true st

unfoldable pub fce_cache_lock_release : FceFileLock → LockState → LockState
unfolding process_lock_leave
fce_cache_lock_release lock st =
    if not lock.locked
    then st
    else process_lock_leave lock.shared (if lock.fd then close_file st else st)

-- What an acquisition leaves: a lock whose release gives the state back, or an error and the state as
-- it was.
abbrev pub IsBalanced : LockState → LockState → Result FceFileLock → Type 0
IsBalanced before after (ok lock) = fce_cache_lock_release lock after ≡ before
IsBalanced before after (err e) = after ≡ before
IsBalanced before after fault = ⊥

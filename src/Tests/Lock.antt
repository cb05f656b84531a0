-- ===== src/Tests/Lock.antt =====
-- A lock whose file cannot be locked (src/core/fce_file.c).
use fast_cache_engine.Common.{false, true}
use fast_cache_engine.Lock.{LockEnv, LockState}

abbrev no_file_lock : LockEnv
no_file_lock = record { entered = true; path = true; opened = true; file_locked = false }

abbrev one_reader : LockState
one_reader = record { readers = 1; writer = false; open_files = 1 }

-- ===== src/Env.antt =====
-- What the builders take from the C library and the operating system.
use fast_cache_engine.Builder.{len}
use fast_cache_engine.Common.{Bool, arith, if◌then◌else◌, not, true, ℕ, ◌&&◌, ◌==◌, ◌≡◌}
use fast_cache_engine.Status.{Result, err, io, ok}

-- The files of a cache directory.
pub data File : Type 0 where
  index_file keys_file values_file manifest_file log_file : File

-- A call that may fail. `join_path f n` is the n-th allocation of the path of `f`, `fwrite f n` the
-- write of a piece at the offset `n`, and `reopen f` the `fopen` of `crc64_file`.
pub data Call : Type 0 where
  join_path : File → ℕ → Call
  fopen : File → Call
  fwrite : File → ℕ → Call
  fclose : File → Call
  reopen : File → Call

-- `succeeds c` says whether the call `c` succeeds, `malloc i n` whether the allocation `i` of a
-- builder's call, of `n` bytes, does, and `now` is the time.
pub record Env : Type 0 where
  pub succeeds : Call → Bool
  pub malloc : ℕ → ℕ → Bool
  pub now : ℕ

-- `write_file` of src/core/fce_file.c for a file of `len` bytes.
unfoldable pub write_file : Env → File → ℕ → Result (Unit {0})
write_file env f len =
    if not (env.succeeds (fopen f))
    then err io
    else if not (len == 0) && not (env.succeeds (fwrite f 0))
    then err io
    else if env.succeeds (fclose f)
    then ok tt
    else err io

-- A file is written where every call succeeds.
pub write_file_total :
    (env : Env) (f : File) (n : ℕ)
    → ((c : Call) → env.succeeds c ≡ true)
    → write_file env f n ≡ ok tt
unfolding write_file
write_file_total env f n all = ground (arith, all (fopen f), all (fwrite f 0), all (fclose f))

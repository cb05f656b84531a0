-- ===== src/Log/Append.antt =====
-- `fce_log_append` of src/backends/fce_backend_log.c.
use fast_cache_engine.Builder.{Buffer, content, is_null, len}
use fast_cache_engine.Bytes.Words.{Bytes}
use fast_cache_engine.Codec.{fce_codec_encode}
use fast_cache_engine.Common.{Bool, Option, if◌then◌else◌, length, not, some, take, ℕ, ◌%◌}
use fast_cache_engine.Common.{◌&&◌, ◌++◌, ◌+◌, ◌==◌, ◌||◌}
use fast_cache_engine.Env.{Env, fclose, fopen, fwrite, join_path, log_file, manifest_file}
use fast_cache_engine.Hash.{u64}
use fast_cache_engine.Log.{log_manifest, log_record, log_record_size, write_record}
use fast_cache_engine.Manifest.{FceManifestInfo, manifest_bytes, read_manifest}
use fast_cache_engine.Schema.{backend_log}
use fast_cache_engine.Status.{Result, err, fault, invalid_argument, io, ok, out_of_memory}
use fast_cache_engine.Status.{◌>>=◌, ◌>>◌}

-- A cache directory as the call finds it: its log file, and its manifest file if that can be read.
pub record LogDir : Type 0 where
  pub log : Bytes
  pub manifest : Option Bytes

-- What the call meets: the answer of `fce_cache_lock_acquire`, whether the allocations of the two
-- codecs succeed, and how many bytes of the record, or of the manifest, reach a file where a write
-- or the `fclose` fails.
pub record AppendEnv : Type 0 where
  pub env : Env
  pub acquired : Result (Unit {0})
  pub key_malloc : ℕ → Bool
  pub value_malloc : ℕ → Bool
  pub torn : ℕ

-- Under the lock, before the log is opened: the manifest with the encoded key and value.
unfoldable pub encode_append :
    AppendEnv → Bytes → Bytes → LogDir → Result (FceManifestInfo × Bytes × Bytes)
encode_append a key value dir =
    read_manifest (a.env.succeeds (join_path manifest_file 0)) dir.manifest >>= λ m.
    if not (m.backend_kind == backend_log)
    then err invalid_argument
    else (fce_codec_encode a.key_malloc m.key_codec key >>= λ encoded_key.
        fce_codec_encode a.value_malloc m.value_codec value >>= λ encoded_value.
        ok (m, encoded_key, encoded_value))

-- The manifest after the append; the counters are `uint64_t`.
unfoldable pub appended_manifest : Env → FceManifestInfo → Bytes → Bytes → Bytes → FceManifestInfo
appended_manifest env m key value log =
    log_manifest env m ((m.record_count + 1) % u64) ((m.log_size + log_record_size key value) % u64)
      log

-- `write_manifest` truncates the file before it writes.
unfoldable pub replace_manifest : AppendEnv → FceManifestInfo → LogDir → LogDir × Result (Unit {0})
replace_manifest a m dir =
    let bytes = manifest_bytes m in
    let torn_dir : LogDir = record dir { manifest = some (take a.torn bytes) } in
    if not (a.env.succeeds (join_path manifest_file 1))
    then (dir, err out_of_memory)
    else if not (a.env.succeeds (fopen manifest_file))
    then (dir, err io)
    else if not (a.env.succeeds (fwrite manifest_file 0))
    then (torn_dir, err io)
    else if not (a.env.succeeds (fclose manifest_file))
    then (torn_dir, err io)
    else (record dir { manifest = some bytes }, ok tt)

-- What is left in the directory after the four writes, and the answer. A part of the record stays in
-- the file if a write or the `fclose` fails.
unfoldable pub finish_append :
    AppendEnv → FceManifestInfo → Bytes → Bytes → LogDir → Result Bytes → LogDir × Result (Unit {0})
unfolding appended_manifest replace_manifest
finish_append a m key value dir (ok bytes) =
    let log = dir.log ++ bytes in
    if not (a.env.succeeds (fclose log_file))
    then (record dir { log = dir.log ++ take a.torn bytes }, err io)
    else replace_manifest a (appended_manifest a.env m key value log) (record dir { log = log })
finish_append a m key value dir (err e) =
    (record dir { log = dir.log ++ take a.torn (log_record key value) }, err e)
finish_append a m key value dir fault =
    (record dir { log = dir.log ++ take a.torn (log_record key value) }, fault)

-- From the path of the log file on.
unfoldable pub append_record :
    AppendEnv → FceManifestInfo → Bytes → Bytes → LogDir → LogDir × Result (Unit {0})
unfolding write_record finish_append
append_record a m key value dir =
    if not (a.env.succeeds (join_path log_file 0))
    then (dir, err out_of_memory)
    else if not (a.env.succeeds (fopen log_file))
    then (dir, err io)
    else finish_append a m key value dir (write_record a.env (length dir.log) key value)

-- An error before the log is opened changes nothing.
unfoldable pub append_encoded :
    AppendEnv → Result (FceManifestInfo × Bytes × Bytes) → LogDir → LogDir × Result (Unit {0})
unfolding append_record
append_encoded a (ok (m, key, value)) dir = append_record a m key value dir
append_encoded a (err e) dir = (dir, err e)
append_encoded a fault dir = (dir, fault)

-- A null pointer with a length is refused before the lock is taken.
unfoldable pub fce_log_append : AppendEnv → Buffer → Buffer → LogDir → LogDir × Result (Unit {0})
unfolding encode_append append_encoded
fce_log_append a key value dir =
    if (is_null key && not (len key == 0)) || (is_null value && not (len value == 0))
    then (dir, err invalid_argument)
    else append_encoded a (a.acquired >> encode_append a (content key) (content value) dir) dir

-- ===== src/Log/Keeps.antt =====
-- `fce_log_append` of src/backends/fce_backend_log.c only adds to the log.
use fast_cache_engine.Builder.{Buffer, content, is_null, len}
use fast_cache_engine.Bytes.Words.{Bytes}
use fast_cache_engine.Common.{Bool-cases, [], append-nil, arith, inl, inr, length, not}
use fast_cache_engine.Common.{refl, sym, take, ◌&&◌, ◌++◌, ◌==◌, ◌||◌, ◌≡◌}
use fast_cache_engine.Env.{fclose, fopen, join_path, log_file}
use fast_cache_engine.Log.{log_record, write_record}
use fast_cache_engine.Log.Append.{
  AppendEnv, LogDir, append_encoded, append_record, appended_manifest,
}
use fast_cache_engine.Log.Append.{encode_append, fce_log_append, finish_append, replace_manifest}
use fast_cache_engine.Manifest.{FceManifestInfo}
use fast_cache_engine.Status.{Result, err, fault, ok, ◌>>◌}

-- The old log file is the front of the new one.
abbrev pub Keeps : LogDir → LogDir → Type 0
Keeps dir out = (added : Bytes) × (out.log ≡ dir.log ++ added)

Keeps-all : (dir : LogDir) → Keeps dir dir
Keeps-all dir = ([], sym (append-nil dir.log))

replace_manifest-log :
    (a : AppendEnv) (m : FceManifestInfo) (dir : LogDir)
    → (replace_manifest a m dir).0.log ≡ dir.log
unfolding replace_manifest
replace_manifest-log a m dir = ground arith

finish_append-Keeps :
    (a : AppendEnv) (m : FceManifestInfo) (key value : Bytes) (dir : LogDir) (w : Result Bytes)
    → Keeps dir (finish_append a m key value dir w).0
unfolding finish_append
finish_append-Keeps a m key value dir (ok bytes) =
    elim (Bool-cases (a.env.succeeds (fclose log_file))) [
      | inl c ↦ rw c (
        bytes,
        replace_manifest-log a (appended_manifest a.env m key value (dir.log ++ bytes))
            (record dir { log = dir.log ++ bytes }),
      )
      | inr c ↦ rw c (take a.torn bytes, refl)
    ]
finish_append-Keeps a m key value dir (err e) = (take a.torn (log_record key value), refl)
finish_append-Keeps a m key value dir fault = (take a.torn (log_record key value), refl)

append_record-Keeps :
    (a : AppendEnv) (m : FceManifestInfo) (key value : Bytes) (dir : LogDir)
    → Keeps dir (append_record a m key value dir).0
unfolding append_record
append_record-Keeps a m key value dir = elim (Bool-cases (a.env.succeeds (join_path log_file 0))) [
  | inr p ↦ rw p (Keeps-all dir)
  | inl p ↦ elim (Bool-cases (a.env.succeeds (fopen log_file))) [
    | inr o ↦ rw (p, o) (Keeps-all dir)
    | inl o ↦
        rw (p, o)
          (finish_append-Keeps a m key value dir (write_record a.env (length dir.log) key value))
  ]
]

append_encoded-Keeps :
    (a : AppendEnv) (first : Result (FceManifestInfo × Bytes × Bytes)) (dir : LogDir)
    → Keeps dir (append_encoded a first dir).0
unfolding append_encoded
append_encoded-Keeps a (ok (m, key, value)) dir = append_record-Keeps a m key value dir
append_encoded-Keeps a (err e) dir = Keeps-all dir
append_encoded-Keeps a fault dir = Keeps-all dir

-- Whatever fails in an append, and however much of the record reaches the file, no byte that is already
-- in the log changes: the old log is the front of the new one.
pub fce_log_append-Keeps :
    (a : AppendEnv) (key value : Buffer) (dir : LogDir)
    → Keeps dir (fce_log_append a key value dir).0
unfolding fce_log_append
fce_log_append-Keeps a key value dir =
    let first = a.acquired >> encode_append a (content key) (content value) dir in
    elim (Bool-cases
      ((is_null key && not (len key == 0)) || (is_null value && not (len value == 0)))) [
        | inl p ↦ rw p (Keeps-all dir)
        | inr p ↦ rw p (append_encoded-Keeps a first dir)
      ]

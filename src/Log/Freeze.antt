-- ===== src/Log/Freeze.antt =====
-- `freeze_log` of src/backends/fce_backend_log.c, and what a lookup finds after it.
use fast_cache_engine.Bytes.Words.{Bytes}
use fast_cache_engine.Common.{All, Bool, List, [], ap, arith, length, sym, true, ℕ}
use fast_cache_engine.Common.{◌++◌, ◌+◌, ◌-◌, ◌/◌, ◌∙◌, ◌∷◌, ◌≡◌, ◌≤◌}
use fast_cache_engine.Env.{Env, manifest_file}
use fast_cache_engine.Env.{write_file}
use fast_cache_engine.Hash.{u64}
use fast_cache_engine.Log.{LogFiles, build_log_index, finish_log, freeze_log, frozen_log_manifest}
use fast_cache_engine.Log.{get_log, log_record, write_manifest, write_record, write_records}
use fast_cache_engine.Log.Index.{FitsLog, build_log_index-log_bytes}
use fast_cache_engine.Log.Lookup.{get_log-AnswersLatest}
use fast_cache_engine.Log.Replay.{log_bytes}
use fast_cache_engine.Manifest.{FceManifestInfo, manifest_bytes}
use fast_cache_engine.Qsort.{Qsort}
use fast_cache_engine.Record.{BuildRecord}
use fast_cache_engine.Record.Answers.{AnswersLatest}
use fast_cache_engine.Record.Log.{LogIndexEntry, cmp_log_index_entry}
use fast_cache_engine.Record.Numbered.{Numbered}
use fast_cache_engine.Schema.{FceSchema}
use fast_cache_engine.Sorted.{forced}
use fast_cache_engine.Status.{>>=-eq-ok, ok, ok-injective, ◌>>=◌}
use mathlib.Core.Path.{ap₂}

pub write_record-eq :
    (env : Env) (off : ℕ) (key value : Bytes) {bytes : Bytes}
    → write_record env off key value ≡ ok bytes
    → bytes ≡ log_record key value
unfolding write_record
write_record-eq env off key value h = ground arith

write_records-eq :
    (env : Env) (rs : List BuildRecord) (off : ℕ) {bytes : Bytes}
    → write_records env rs off ≡ ok bytes
    → bytes ≡ log_bytes rs
unfolding write_records
write_records-eq env [] off h = sym (ok-injective h)
write_records-eq env (r ∷ rs) off {bytes} h =
    let (one, p, f) =
      >>=-eq-ok (write_record env off r.key r.value)
        (λ one. write_records env rs (off + length one) >>= λ rest. ok (one ++ rest)) {b = bytes}
        h in
    let (rest, q, g) =
      >>=-eq-ok (write_records env rs (off + length one)) (λ rest. ok (one ++ rest)) {b = bytes}
        f in
    sym (ok-injective g)
    ∙ ap₂ (λ x y. x ++ y) (write_record-eq env off r.key r.value p)
        (write_records-eq env rs (off + length one) q)

written :
    (env : Env) (m : FceManifestInfo) {bytes : Bytes}
    → write_manifest env m ≡ ok bytes
    → bytes ≡ manifest_bytes m
unfolding write_manifest
written env m {bytes} h =
    let (u, wrote, f) =
      >>=-eq-ok (write_file env manifest_file (length (manifest_bytes m)))
        (λ _. ok (manifest_bytes m)) {b = bytes} (ground arith) in
    sym (ok-injective f)

finished :
    (env : Env) (s : FceSchema) (records : List BuildRecord) (log : Bytes) {files : LogFiles}
    → finish_log env s records log ≡ ok files
    → files
      ≡ record { log = log; manifest = manifest_bytes (frozen_log_manifest env s records log) }
unfolding finish_log
finished env s records log {files} h =
    let (manifest, q, g) =
      >>=-eq-ok (write_manifest env (frozen_log_manifest env s records log))
        (λ manifest. ok (record { log = log; manifest = manifest })) {b = files} (ground arith) in
    sym (ok-injective g)
    ∙ ap (λ x. record { log = log; manifest = x })
        (written env (frozen_log_manifest env s records log) q)

-- What a successful freeze leaves in the directory.
pub freeze_log-eq :
    (env : Env) (s : FceSchema) (records : List BuildRecord) {files : LogFiles}
    → freeze_log env s records ≡ ok files
    → files ≡ record {
      log = log_bytes records;
      manifest = manifest_bytes (frozen_log_manifest env s records (log_bytes records));
    }
unfolding freeze_log
freeze_log-eq env s records {files} h =
    let (log, p, f) =
      >>=-eq-ok (write_records env records 0) (finish_log env s records) {b = files}
        (ground arith) in
    let same = write_records-eq env records 0 p in rw same at (finished env s records log f)

-- From the puts to a log and back, for every schema and every permutation that `qsort` may choose: if
-- the freeze of records that are numbered by their places, have bytes as keys, and keys and values
-- shorter than 2^32, succeeds, and memory for the index of at most (2^64 - 1) / 48 records is
-- there, then the index can be built from the log file, and a lookup of any key in it answers with
-- the value of the last record with the key, or with "not found" if there was none.
pub freeze_log-get_log :
    (env : Env) (alloc : ℕ → Bool) (sort_entries : Qsort cmp_log_index_entry) (s : FceSchema)
    (records : List BuildRecord) (files : LogFiles) (key : Bytes)
    → ((n : ℕ) → alloc n ≡ true)
    → length records ≤ (u64 - 1) / 48
    → All FitsLog records
    → Numbered records 0
    → freeze_log env s records ≡ ok files
    → (index : List LogIndexEntry) × (build_log_index alloc sort_entries
          (forced s)
          files.log
          (length records)
        ≡ ok index)
      × AnswersLatest records key (get_log (forced s) files.log index key)
freeze_log-get_log env alloc sort_entries s records files key room small fits numbered h =
    let force : Bool = forced s in
    let log : Bytes = log_bytes records in
    let (es, built, described) =
      build_log_index-log_bytes alloc sort_entries force records room small fits in
    let same : files.log ≡ log = ap (λ x. x.log) (freeze_log-eq env s records h) in
    (
      sort_entries.sort es,
      rw same built,
      rw same (
          get_log-AnswersLatest force log records es (sort_entries.sort es) key numbered described
            (sort_entries.permutes es) (sort_entries.ascends es)),
    )

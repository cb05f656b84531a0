-- ===== src/Log/Answers.antt =====
-- A log that is frozen, appended to and read (src/backends/fce_backend_log.c).
use fast_cache_engine.Builder.{Buffer, content}
use fast_cache_engine.Bytes.Words.{Bytes}
use fast_cache_engine.Codec.{fce_codec_encode}
use fast_cache_engine.Common.{All, All-append, Bool, In, List, [], ap, arith, here, inl}
use fast_cache_engine.Common.{inr, length, length-append, refl, some, sym, there, true}
use fast_cache_engine.Common.{ℕ, ◌%◌, ◌++◌, ◌+◌, ◌-◌, ◌/◌, ◌<◌, ◌^◌, ◌∙◌, ◌∷◌, ◌≡◌, ◌≢◌}
use fast_cache_engine.Common.{◌≤◌, ◌⊎◌}
use fast_cache_engine.Env.{Env, log_file, reopen}
use fast_cache_engine.Hash.{u64}
use fast_cache_engine.Log.{LogFiles, build_log_index, freeze_log, frozen_log_manifest}
use fast_cache_engine.Log.{get_log, log_manifest, log_record, log_record_size, log_size_of}
use fast_cache_engine.Log.Append.{AppendEnv, LogDir, fce_log_append}
use fast_cache_engine.Log.Extend.{
  IsLog, appended_record, check_manifest-log_manifest, fce_log_append-IsLog,
}
use fast_cache_engine.Log.Extend.{log_manifest-Fits}
use fast_cache_engine.Log.Freeze.{freeze_log-eq}
use fast_cache_engine.Log.Index.{FitsLog, build_log_index-log_bytes, length-log_bytes}
use fast_cache_engine.Log.Lookup.{get_log-AnswersLatest}
use fast_cache_engine.Log.Replay.{length-log_record, log_bytes}
use fast_cache_engine.Manifest.{
  FceManifestInfo, make_manifest, manifest_bytes, schema_from_manifest,
}
use fast_cache_engine.Manifest.RoundTrip.{
  FitsManifest, IsSchema, check_manifest-make_manifest, make_manifest-Fits,
}
use fast_cache_engine.Manifest.RoundTrip.{
  read_manifest_file-manifest_bytes, schema_from_manifest-make_manifest,
}
use fast_cache_engine.Qsort.{Qsort}
use fast_cache_engine.Record.{BuildRecord}
use fast_cache_engine.Record.Answers.{AnswersLatest}
use fast_cache_engine.Record.Latest.{All-In}
use fast_cache_engine.Record.Log.{LogIndexEntry, cmp_log_index_entry}
use fast_cache_engine.Record.Numbered.{Numbered, Numbered-append, Numbered-bound}
use fast_cache_engine.Schema.{FceSchema, validate_schema}
use fast_cache_engine.Status.{Result, ok, ok-injective}
use mathlib.Core.Path.{subst}

log_size_of-log_bytes :
    (rs : List BuildRecord) (size : ℕ)
    → size + length (log_bytes rs) < u64
    → log_size_of rs size ≡ size + length (log_bytes rs)
unfolding log_size_of
log_size_of-log_bytes [] size h = omega arith
log_size_of-log_bytes (r ∷ rs) size h =
    let bytes = log_record r.key r.value in
    let whole = length-append {0} bytes (log_bytes rs) in
    let one = length-log_record r.key r.value in
    let next : (size + log_record_size r.key r.value) % u64 ≡ size + length bytes =
      omega (arith, whole, one) in
    rw next
      (log_size_of-log_bytes rs (size + length bytes) (omega (arith, whole)) ∙ omega (arith, whole))

schema_from_manifest-log_manifest :
    (env : Env) (m : FceManifestInfo) (count size : ℕ) (log : Bytes)
    → schema_from_manifest (log_manifest env m count size log) ≡ schema_from_manifest m
unfolding schema_from_manifest
schema_from_manifest-log_manifest env m count size log = refl

-- A freeze into a log leaves a log file and a manifest that agree, for a valid schema of version 1
-- whose fields fit their C types, with flags that are 0 or 1, if the time is a 64-bit word, the log
-- file has fewer than 2^64 bytes and could be read again for its checksum.
pub freeze_log-IsLog :
    (env : Env) (s : FceSchema) (records : List BuildRecord) (files : LogFiles)
    → IsSchema s
    → env.now < 2 ^ 64
    → s.schema_version ≡ 1
    → s.algorithm_version ≡ 1
    → validate_schema s ≡ ok tt
    → env.succeeds (reopen log_file) ≡ true
    → length files.log < u64
    → freeze_log env s records ≡ ok files
    → let m = frozen_log_manifest env s records files.log in
      (schema_from_manifest m ≡ s)
      × IsLog (record { log = files.log; manifest = some files.manifest }) m records
freeze_log-IsLog env s records files is now_fits v1 v2 valid open_again small h =
    let made = make_manifest env.now s (length records) in
    let log : Bytes = log_bytes records in
    let size : ℕ = log_size_of records 0 in
    let m : FceManifestInfo = log_manifest env made (length records) size log in
    let same = freeze_log-eq env s records h in
    let log_same : files.log ≡ log = ap (λ x. x.log) same in
    let manifest_same : files.manifest ≡ manifest_bytes m = ap (λ x. x.manifest) same in
    let short : length log < u64 = rw log_same at small in
    let sum : size ≡ length log = omega (arith, log_size_of-log_bytes records 0 (omega arith)) in
    let counted : length records < u64 = omega (arith, length-log_bytes records) in
    let m_fits : FitsManifest m =
      log_manifest-Fits env made (length records) size log counted (omega arith)
        (make_manifest-Fits env.now s (length records) is now_fits counted) in
    rw (log_same, manifest_same)
      (
        schema_from_manifest-log_manifest env made (length records) size log
            ∙ schema_from_manifest-make_manifest env.now s (length records) is,
        record {
          log_holds = refl;
          readable =
              read_manifest_file-manifest_bytes m m_fits
              ∙ check_manifest-log_manifest env made (length records) size log
                  (check_manifest-make_manifest env.now s (length records) is v1 v2 valid);
          fits = m_fits;
          counted = refl;
          sized = sum;
          checked = rw open_again refl;
        },
      )

In-last : (rs : List BuildRecord) (r s : BuildRecord) → In s (rs ++ (r ∷ [])) → In s rs ⊎ (s ≡ r)
In-last [] r s (here e) = inr e
In-last [] r s (there m) = elim m [ ]
In-last (x ∷ rs) r s (here e) = inl (here e)
In-last (x ∷ rs) r s (there m) = elim (In-last rs r s m) [ inl i ↦ inl (there i) | inr e ↦ inr e ]

last-In : (rs : List BuildRecord) (r : BuildRecord) → In r (rs ++ (r ∷ []))
last-In [] r = here refl
last-In (x ∷ rs) r = there (last-In rs r)

-- The last record answers for its key.
last_answers :
    (rs : List BuildRecord) (r : BuildRecord) (answer : Result Bytes)
    → Numbered rs 0
    → r.order ≡ length rs
    → AnswersLatest (rs ++ (r ∷ [])) r.key answer
    → answer ≡ ok r.value
last_answers rs r answer num e (inl (s, latest, p, q)) = elim (In-last rs r s latest.0) [
  | inr same ↦ q ∙ ap (λ x. ok x.value) same
  | inl i ↦
      let newer : r.order ≤ s.order =
        All-In (λ t. t.key ≡ s.key → t.order ≤ s.order) (rs ++ (r ∷ [])) latest.1 (last-In rs r)
          (sym p) in
      absurd (omega (arith, Numbered-bound rs s 0 num i))
]
last_answers rs r answer num e (inr (none_has, q)) =
    absurd (All-In (λ t. t.key ≢ r.key) (rs ++ (r ∷ [])) none_has (last-In rs r) refl)

-- A key and value that are appended are found: if the directory holds records that are numbered by
-- their places and fit the log, an append of a key and value that the codecs encode as `k` and `v`,
-- which fit too, succeeds, the log could be read again for its checksum, is shorter than 2^64 bytes,
-- and memory for the index of at most (2^64 - 1) / 48 records is there, then the index can be
-- built from the log, and a lookup of `k` answers with `v`.
pub fce_log_append-get_log :
    (a : AppendEnv) (alloc : ℕ → Bool) (sort_entries : Qsort cmp_log_index_entry) (force : Bool)
    (key value : Buffer) (dir out : LogDir) (m : FceManifestInfo) (rs : List BuildRecord)
    (k v : Bytes)
    → IsLog dir m rs
    → Numbered rs 0
    → All FitsLog rs
    → fce_codec_encode a.key_malloc m.key_codec (content key) ≡ ok k
    → fce_codec_encode a.value_malloc m.value_codec (content value) ≡ ok v
    → FitsLog (appended_record k v (length rs))
    → a.env.succeeds (reopen log_file) ≡ true
    → ((n : ℕ) → alloc n ≡ true)
    → length rs + 1 ≤ (u64 - 1) / 48
    → length out.log < u64
    → fce_log_append a key value dir ≡ (out, ok tt)
    → (index : List LogIndexEntry) × (build_log_index alloc sort_entries force out.log
          (length rs + 1)
        ≡ ok index)
      × (get_log force out.log index k ≡ ok v)
fce_log_append-get_log a alloc sort_entries force key value dir out m rs k v is num fits ek ev
      r_fits open_again room small short h =
    let (k2, v2, n, ek2, ev2, grown) =
      fce_log_append-IsLog a key value dir out m rs is open_again (omega arith) short h in
    let same_k : k2 ≡ k = ok-injective (sym ek2 ∙ ek) in
    let same_v : v2 ≡ v = ok-injective (sym ev2 ∙ ev) in
    let r : BuildRecord = appended_record k v (length rs) in
    let all : List BuildRecord = rs ++ (r ∷ []) in
    let log_same : out.log ≡ log_bytes all = rw (same_k, same_v) at grown.log_holds in
    let count : length all ≡ length rs + 1 = omega (arith, length-append {0} rs (r ∷ [])) in
    let (es, built, described) =
      build_log_index-log_bytes alloc sort_entries force all room (omega (arith, count))
        (All-append FitsLog rs (r ∷ []) fits (r_fits, tt)) in
    (
      sort_entries.sort es,
      rw log_same (
          subst
            (λ n.
              build_log_index alloc sort_entries force (log_bytes all) n
              ≡ ok (sort_entries.sort es))
            count built),
      rw log_same (
          last_answers rs r (get_log force (log_bytes all) (sort_entries.sort es) k) num refl (
            get_log-AnswersLatest force (log_bytes all) all es (sort_entries.sort es) k
              (Numbered-append rs r 0 num (omega arith)) described (sort_entries.permutes es)
              (sort_entries.ascends es))),
    )

-- ===== src/Reader/Stale.antt =====
-- A log that an earlier cache left in the directory of a sorted cache (src/api/fce_reader_api.c and
-- src/backends/fce_backend_sorted.c): a freeze writes its own files and removes none.
use fast_cache_engine.Bytes.Words.{Bytes}
use fast_cache_engine.Common.{
  ==_iff, Bool, List, ap, arith, false, length, refl, some, true, ℕ, ◌&&◌, ◌*◌, ◌<◌, ◌==◌, ◌∙◌, ◌≡◌,
}
use fast_cache_engine.Entry.{cmp_sorted_entry}
use fast_cache_engine.Entry.Write.{Written}
use fast_cache_engine.Env.{
  Call, Env, File, index_file, join_path, keys_file, log_file, manifest_file, reopen,
}
use fast_cache_engine.Env.{values_file}
use fast_cache_engine.Hash.{u64}
use fast_cache_engine.Manifest.{FceManifestInfo, make_manifest, read_manifest, schema_from_manifest}
use fast_cache_engine.Manifest.RoundTrip.{IsSchema, read_manifest_file-manifest_bytes}
use fast_cache_engine.Qsort.{Qsort}
use fast_cache_engine.Reader.{FceReader}
use fast_cache_engine.Reader.Accepts.{freeze_sorted_like-IsAccepted, sorted_reader}
use fast_cache_engine.Reader.Open.{
  CacheDir, OpenEnv, fce_reader_open_expected, open_files, read_file_arena,
}
use fast_cache_engine.Reader.Reopened.{
  check_manifest-sorted_manifest, dir_of, schema_from_manifest-sorted_manifest,
  sorted_manifest-Fits,
}
use fast_cache_engine.Reader.Validate.{validate_files, validate_reader_files, validate_sizes}
use fast_cache_engine.Record.{BuildRecord, cmp_build_by_key}
use fast_cache_engine.Record.Log.{cmp_log_index_entry}
use fast_cache_engine.Schema.{FceSchema, backend_sorted_index, fce_schema_hash, validate_schema}
use fast_cache_engine.Sorted.{Files, freeze_sorted_like, sorted_manifest}
use fast_cache_engine.Sorted.Described.{keys_total, values_total}
use fast_cache_engine.Status.{corrupt, err, ok}

-- The directory after a freeze into a sorted cache, with an old log in it.
abbrev pub dir_with_log : Bytes → Files → CacheDir
dir_with_log stale files = record (dir_of files) { log = some stale }

abbrev pub reader_with_log : Bytes → FceSchema → FceManifestInfo → Files → FceReader
reader_with_log stale s m files = record (sorted_reader s m files) { log_blob = stale }

opens_with_log :
    (o : OpenEnv) (stale : Bytes) (files : Files) (m : FceManifestInfo) {s : FceSchema}
    → ((c : Call) → o.env.succeeds c ≡ true)
    → ((f : File) → o.loaded f ≡ ok tt)
    → schema_from_manifest m ≡ s
    → open_files o (dir_with_log stale files) m ≡ ok (reader_with_log stale s m files)
unfolding open_files read_file_arena
opens_with_log o stale files m {s} all loaded schema =
    rw
      (
        all (join_path index_file 0),
        all (join_path keys_file 0),
        all (join_path values_file 0),
        all (join_path log_file 0),
        loaded index_file,
        loaded keys_file,
        loaded values_file,
        loaded log_file,
      )
      (ap (λ x. ok (reader_with_log stale x m files)) schema)

last_test_fails : (a b c : Bool) → (a && (b && (c && false))) ≡ false
last_test_fails a b c = ground arith

validate-stale :
    (env builder_env : Env) (s : FceSchema) (count : ℕ) (w : Written) (files : Files)
    (stale : Bytes)
    → 0 < length stale
    → validate_reader_files env
        (reader_with_log stale s (sorted_manifest builder_env s count w files.index) files)
        (some s)
      ≡ err corrupt
unfolding validate_reader_files validate_files validate_sizes sorted_manifest make_manifest
validate-stale env builder_env s count w files stale some_log =
    let hash : (fce_schema_hash s == fce_schema_hash s) ≡ true = (==_iff _ _).1 refl in
    let other_size : (0 == length stale) ≡ false = ground arith in
    rw (hash, other_size, last_test_fails) refl

-- A sorted cache that is frozen into a directory with a log of an earlier cache cannot be opened: under
-- the conditions under which the files of a successful freeze open without that log, the opening of the
-- directory with the log, if the log is not empty, ends as corrupt.
pub stale_log-fce_reader_open_expected :
    (o : OpenEnv) (sort_log : Qsort cmp_log_index_entry) (builder_env : Env)
    (sort_records : Qsort cmp_build_by_key) (sort_entries : Qsort cmp_sorted_entry) (s : FceSchema)
    (records : List BuildRecord) (files : Files) (stale : Bytes)
    → s.backend ≡ backend_sorted_index
    → IsSchema s
    → s.schema_version ≡ 1
    → s.algorithm_version ≡ 1
    → validate_schema s ≡ ok tt
    → builder_env.now < u64
    → keys_total records < u64
    → values_total records < u64
    → length records * 48 < u64
    → o.created ≡ ok tt
    → o.acquired ≡ ok tt
    → ((c : Call) → o.env.succeeds c ≡ true)
    → ((f : File) → o.loaded f ≡ ok tt)
    → ((f : File) → builder_env.succeeds (reopen f) ≡ true)
    → freeze_sorted_like builder_env sort_records sort_entries s backend_sorted_index records
      ≡ ok files
    → 0 < length stale
    → fce_reader_open_expected o sort_log (dir_with_log stale files) (some s) ≡ err corrupt
unfolding fce_reader_open_expected read_manifest
stale_log-fce_reader_open_expected o sort_log builder_env sort_records sort_entries s records files
      stale backend is v1 v2 valid now_fits a b c created acquired all loaded reopened h some_log =
    let (count, w, manifest, p, q, t, accepted) =
      freeze_sorted_like-IsAccepted o.env builder_env sort_records sort_entries s records files
        backend a b c all reopened h in
    let m = sorted_manifest builder_env s count w files.index in
    let schema = schema_from_manifest-sorted_manifest builder_env s count w files.index is in
    let readable =
      read_manifest_file-manifest_bytes m
        (sorted_manifest-Fits builder_env s count w files.index is now_fits p q t)
      ∙ check_manifest-sorted_manifest builder_env s count w files.index is v1 v2 valid in
    let opened = opens_with_log o stale files m all loaded schema in
    let refused = validate-stale o.env builder_env s count w files stale some_log in
    rw (created, acquired, all (join_path manifest_file 0), manifest, readable, opened, refused)
      refl

-- ===== src/Reader/Reopened.antt =====
-- A reader opens what `freeze_sorted_like` of src/backends/fce_backend_sorted.c has written
-- (src/api/fce_reader_api.c).
use fast_cache_engine.Bytes.Words.{Bytes, Fits}
use fast_cache_engine.Common.{==_iff, List, ap, arith, false, if◌then◌else◌, length, none}
use fast_cache_engine.Common.{refl, set, some, true, ℕ, ◌%◌, ◌*◌, ◌<◌, ◌==◌, ◌∙◌, ◌≡◌}
use fast_cache_engine.Crc.{crc64_file-lt}
use fast_cache_engine.Entry.{cmp_sorted_entry}
use fast_cache_engine.Entry.Write.{Written}
use fast_cache_engine.Env.{
  Call, Env, File, index_file, join_path, keys_file, log_file, manifest_file,
}
use fast_cache_engine.Env.{reopen, values_file}
use fast_cache_engine.Hash.{u64}
use fast_cache_engine.Layout.{AllFit-set}
use fast_cache_engine.Manifest.{FceManifestInfo, check_manifest, make_manifest, manifest_fields}
use fast_cache_engine.Manifest.{manifest_layout, read_manifest, schema_from_manifest}
use fast_cache_engine.Manifest.RoundTrip.{
  FitsManifest, IsSchema, check_manifest-make_manifest, make_manifest-Fits,
}
use fast_cache_engine.Manifest.RoundTrip.{
  passed, read_manifest_file-manifest_bytes, schema_from_manifest-make_manifest,
}
use fast_cache_engine.Qsort.{Qsort}
use fast_cache_engine.Reader.{FceReader, fce_reader_get_canonical}
use fast_cache_engine.Reader.Accepts.{freeze_sorted_like-IsAccepted, sorted_reader}
use fast_cache_engine.Reader.Open.{
  CacheDir, OpenEnv, fce_reader_open_expected, open_files, open_log_index,
}
use fast_cache_engine.Reader.Open.{read_file_arena}
use fast_cache_engine.Record.{BuildRecord, cmp_build_by_key}
use fast_cache_engine.Record.Answers.{AnswersLatest}
use fast_cache_engine.Record.Log.{cmp_log_index_entry}
use fast_cache_engine.Schema.{FceSchema, backend_log, backend_sorted_index, validate_schema}
use fast_cache_engine.Sorted.{
  Files, crc_of, forced, freeze_sorted_like, get_sorted, sorted_manifest,
}
use fast_cache_engine.Sorted.Described.{keys_total, values_total}
use fast_cache_engine.Sorted.Freeze.{freeze_sorted_like-get_sorted}
use fast_cache_engine.Status.{ok}

-- The directory that a freeze into a sorted cache leaves: it has no log.
abbrev pub dir_of : Files → CacheDir
dir_of files = record {
  manifest = some files.manifest;
  index = some files.index;
  keys = some files.keys;
  values = some files.values;
  log = none;
}

module _ (env : Env) (s : FceSchema) (count : ℕ) (w : Written) (index : Bytes)
    (is : IsSchema s) where
  pub schema_from_manifest-sorted_manifest :
      schema_from_manifest (sorted_manifest env s count w index) ≡ s
  unfolding schema_from_manifest sorted_manifest
  schema_from_manifest-sorted_manifest = schema_from_manifest-make_manifest env.now s count is

  pub sorted_manifest-Fits :
      env.now < u64
      → count < u64
      → w.keys_size < u64
      → w.values_size < u64
      → FitsManifest (sorted_manifest env s count w index)
  unfolding sorted_manifest
  sorted_manifest-Fits a b c d =
      let crc : File → Bytes → ℕ = crc_of env in
      let small : (f : File) (bytes : Bytes) → Fits 8 (crc f bytes) = λ f bytes.
        omega (arith, crc64_file-lt (if env.succeeds (reopen f) then some bytes else none)) in
      let f0 = manifest_fields (make_manifest env.now s count) in
      let f1 = set f0 12 (count * 48 % u64) in
      let f2 = set f1 13 w.keys_size in
      let f3 = set f2 14 w.values_size in
      let f4 = set f3 18 (crc index_file index) in
      let f5 = set f4 19 (crc keys_file w.keys) in
      AllFit-set manifest_layout f5 20 8 (crc values_file w.values) refl
        (small values_file w.values)
        (AllFit-set manifest_layout f4 19 8 (crc keys_file w.keys) refl (small keys_file w.keys) (
          AllFit-set manifest_layout f3 18 8 (crc index_file index) refl (small index_file index) (
            AllFit-set manifest_layout f2 14 8 w.values_size refl (omega arith) (
              AllFit-set manifest_layout f1 13 8 w.keys_size refl (omega arith) (
                AllFit-set manifest_layout f0 12 8 (count * 48 % u64) refl (omega arith)
                  (make_manifest-Fits env.now s count is a b))))))

  pub check_manifest-sorted_manifest :
      s.schema_version ≡ 1
      → s.algorithm_version ≡ 1
      → validate_schema s ≡ ok tt
      → check_manifest (sorted_manifest env s count w index)
        ≡ ok (sorted_manifest env s count w index)
  unfolding check_manifest sorted_manifest schema_from_manifest
  check_manifest-sorted_manifest v1 v2 valid =
      let (magic, tag, version, schema, algorithm, checked) =
        passed (make_manifest env.now s count)
          (check_manifest-make_manifest env.now s count is v1 v2 valid) in
      rw (magic, tag, version, schema, algorithm, checked) refl

opens :
    (o : OpenEnv) (files : Files) (m : FceManifestInfo) {s : FceSchema}
    → ((c : Call) → o.env.succeeds c ≡ true)
    → ((f : File) → o.loaded f ≡ ok tt)
    → schema_from_manifest m ≡ s
    → open_files o (dir_of files) m ≡ ok (sorted_reader s m files)
unfolding open_files read_file_arena
opens o files m {s} all loaded schema =
    rw
      (
        all (join_path index_file 0),
        all (join_path keys_file 0),
        all (join_path values_file 0),
        all (join_path log_file 0),
        loaded index_file,
        loaded keys_file,
        loaded values_file,
      )
      (ap (λ x. ok (sorted_reader x m files)) schema)

lookup :
    (s : FceSchema) (m : FceManifestInfo) (files : Files) (key : Bytes) (records : List BuildRecord)
    → s.backend ≡ backend_sorted_index
    → AnswersLatest records key (get_sorted (forced s) files.index files.keys files.values key)
    → AnswersLatest records key (fce_reader_get_canonical (sorted_reader s m files) key)
unfolding fce_reader_get_canonical
lookup s m files key records backend answers =
    let is_sorted : (s.backend == backend_sorted_index) ≡ true =
      (==_iff s.backend backend_sorted_index).1 backend in
    rw is_sorted answers

sorted_not_log :
    (s : FceSchema) → s.backend ≡ backend_sorted_index → (s.backend == backend_log) ≡ false
sorted_not_log s e = ground arith

-- A reader opens what a freeze into a sorted cache has written, and finds there what was put: for a
-- valid schema of version 1 with that backend, whose fields fit their C types, with flags that are 0
-- or 1, and records with fewer than 2^64 bytes of keys, of values and of index, at a time that is
-- a 64-bit word, the files of the freeze open under the schema of the builder, if the files could be
-- read again for the checksums and every call of the reader succeeds; and a lookup of any stored key
-- answers with the value of its last put, or with "not found" if there was none.
pub freeze_sorted_like-fce_reader_open_expected :
    (o : OpenEnv) (sort_log : Qsort cmp_log_index_entry) (builder_env : Env)
    (sort_records : Qsort cmp_build_by_key) (sort_entries : Qsort cmp_sorted_entry) (s : FceSchema)
    (records : List BuildRecord) (files : Files) (key : Bytes)
    → s.backend ≡ backend_sorted_index
    → IsSchema s
    → s.schema_version ≡ 1
    → s.algorithm_version ≡ 1
    → validate_schema s ≡ ok tt
    → builder_env.now < u64
    → keys_total records < u64
    → values_total records < u64
    → length records * 48 < u64
    → o.created ≡ ok tt
    → o.acquired ≡ ok tt
    → ((c : Call) → o.env.succeeds c ≡ true)
    → ((f : File) → o.loaded f ≡ ok tt)
    → ((f : File) → builder_env.succeeds (reopen f) ≡ true)
    → freeze_sorted_like builder_env sort_records sort_entries s backend_sorted_index records
      ≡ ok files
    → (r : FceReader) × (fce_reader_open_expected o sort_log (dir_of files) (some s) ≡ ok r)
      × AnswersLatest records key (fce_reader_get_canonical r key)
unfolding fce_reader_open_expected open_log_index read_manifest
freeze_sorted_like-fce_reader_open_expected o sort_log builder_env sort_records sort_entries s
      records files key backend is v1 v2 valid now_fits a b c created acquired all loaded reopened
      h =
    let (count, w, manifest, p, q, t, accepted) =
      freeze_sorted_like-IsAccepted o.env builder_env sort_records sort_entries s records files
        backend a b c all reopened h in
    let m = sorted_manifest builder_env s count w files.index in
    let schema = schema_from_manifest-sorted_manifest builder_env s count w files.index is in
    let readable =
      read_manifest_file-manifest_bytes m
        (sorted_manifest-Fits builder_env s count w files.index is now_fits p q t)
      ∙ check_manifest-sorted_manifest builder_env s count w files.index is v1 v2 valid in
    let r : FceReader = sorted_reader s m files in
    let opened : open_files o (dir_of files) m ≡ ok r = opens o files m all loaded schema in
    (
      r,
      rw
          (
            created,
            acquired,
            all (join_path manifest_file 0),
            manifest,
            readable,
            opened,
            accepted,
            sorted_not_log s backend,
          )
          refl,
      lookup s m files key records backend (
          freeze_sorted_like-get_sorted builder_env sort_records sort_entries s records files key a
            b h),
    )

-- ===== src/Tests/Log.antt =====
-- A log of three puts, and a fourth that is appended (src/backends/fce_backend_log.c).
use fast_cache_engine.Tests.{always, duplicates_schema, no_trouble, three_puts}
use fast_cache_engine.Tests.Insertion.{log_qsort}
use fast_cache_engine.Builder.{buffer}
use fast_cache_engine.Bytes.Words.{Bytes, le, load, split, un_le}
use fast_cache_engine.Codec.{codec_copy, fce_codec_encode}
use fast_cache_engine.Common.{All, Bool, List, [], arith, false, length, refl, some, true}
use fast_cache_engine.Common.{◌++◌, ◌+◌, ◌<◌, ◌∷◌, ◌≡◌}
use fast_cache_engine.Crc.{crc64_file, crc64_update}
use fast_cache_engine.Env.{Call, fwrite, write_file}
use fast_cache_engine.Hash.{fnv1a64, u64}
use fast_cache_engine.Layout.{fetch, store}
use fast_cache_engine.Log.{LogFiles, build_log_index, finish_log, freeze_log, frozen_log_manifest}
use fast_cache_engine.Log.{get_log, log_manifest, log_record, log_size_of, write_manifest}
use fast_cache_engine.Log.{write_record, write_records}
use fast_cache_engine.Log.Answers.{fce_log_append-get_log, freeze_log-IsLog}
use fast_cache_engine.Log.Append.{
  AppendEnv, LogDir, append_encoded, append_record, appended_manifest,
}
use fast_cache_engine.Log.Append.{encode_append, fce_log_append, finish_append, replace_manifest}
use fast_cache_engine.Log.Extend.{IsLog, appended_record, fce_log_append-IsLog}
use fast_cache_engine.Log.Freeze.{freeze_log-get_log}
use fast_cache_engine.Log.Index.{FitsLog}
use fast_cache_engine.Log.Keeps.{Keeps, fce_log_append-Keeps}
use fast_cache_engine.Manifest.{FceManifestInfo, check_manifest, make_manifest, manifest_bytes}
use fast_cache_engine.Manifest.{
  manifest_of_fields, pack_flags, read_manifest, read_manifest_file, schema_from_manifest,
}
use fast_cache_engine.Manifest.RoundTrip.{IsSchema}
use fast_cache_engine.Record.Answers.{AnswersLatest}
use fast_cache_engine.Record.Log.{LogIndexEntry}
use fast_cache_engine.Record.Numbered.{Numbered}
use fast_cache_engine.Schema.{
  FceSchema, backend_log, fce_schema_hash, schema_bytes, validate_schema,
}
use fast_cache_engine.Sorted.{forced}
use fast_cache_engine.Status.{Result, ok}

abbrev log_schema : FceSchema
log_schema = record duplicates_schema { backend = backend_log }

abbrev log_files_of : Result LogFiles → LogFiles
log_files_of (ok files) = files
log_files_of _ = record { log = []; manifest = [] }

abbrev log_files : LogFiles
log_files = log_files_of (freeze_log no_trouble log_schema three_puts)

log_freezes : freeze_log no_trouble log_schema three_puts ≡ ok log_files
unfolding freeze_log write_records write_record finish_log write_manifest write_file manifest_bytes
    store le
log_freezes = refl

three_puts-FitsLog : All FitsLog three_puts
three_puts-FitsLog = (
  ((omega arith, tt), omega arith, omega arith),
  (
    ((omega arith, tt), omega arith, omega arith),
    (((omega arith, tt), omega arith, omega arith), tt),
  ),
)

three_puts-Numbered : Numbered three_puts 0
three_puts-Numbered = (refl, (refl, (refl, tt)))

freeze_log-get_log_example :
    (index : List LogIndexEntry) × (build_log_index always log_qsort
        (forced log_schema)
        log_files.log
        3
      ≡ ok index)
    × AnswersLatest three_puts (97 ∷ []) (get_log (forced log_schema) log_files.log index (97 ∷ []))
freeze_log-get_log_example =
    freeze_log-get_log no_trouble always log_qsort log_schema three_puts log_files (97 ∷ [])
      (λ n. refl) (omega arith) three_puts-FitsLog three_puts-Numbered log_freezes

log_schema-IsSchema : IsSchema log_schema
log_schema-IsSchema = record {
  words =
      (refl, (refl, (refl, (refl, (refl, (refl, (refl, (refl, (refl, (refl, (refl, tt)))))))))));
  user_flags_word = omega arith;
  exact_key_check_flag = omega arith;
  mmap_read_flag = omega arith;
  read_only_flag = omega arith;
  duplicate_flag = omega arith;
}

log_schema_valid : validate_schema log_schema ≡ ok tt
unfolding validate_schema
log_schema_valid = refl

log_files_short : length log_files.log < u64
unfolding freeze_log write_records write_record finish_log write_manifest write_file le
    manifest_bytes store
log_files_short = omega arith

abbrev log_dir : LogDir
log_dir = record { log = log_files.log; manifest = some log_files.manifest }

abbrev log_info : FceManifestInfo
log_info = frozen_log_manifest no_trouble log_schema three_puts log_files.log

freeze_log-IsLog_example :
    (schema_from_manifest log_info ≡ log_schema) × IsLog log_dir log_info three_puts
freeze_log-IsLog_example =
    freeze_log-IsLog no_trouble log_schema three_puts log_files log_schema-IsSchema (omega arith)
      refl refl log_schema_valid refl log_files_short log_freezes

log_dir-IsLog : IsLog log_dir log_info three_puts
log_dir-IsLog =
    (freeze_log-IsLog no_trouble log_schema three_puts log_files log_schema-IsSchema (omega arith)
      refl refl log_schema_valid refl log_files_short log_freezes).1

abbrev append_env : AppendEnv
append_env = record {
  env = no_trouble;
  acquired = ok tt;
  key_malloc = always;
  value_malloc = always;
  torn = 0;
}

abbrev longer_dir : LogDir
longer_dir = record {
  log = log_files.log ++ log_record (97 ∷ []) (9 ∷ []);
  manifest = some (
      manifest_bytes (
        log_manifest no_trouble log_info 4 (length log_files.log + 34)
          (log_files.log ++ log_record (97 ∷ []) (9 ∷ []))));
}

appends :
    fce_log_append append_env (buffer (97 ∷ [])) (buffer (9 ∷ [])) log_dir ≡ (longer_dir, ok tt)
unfolding fce_log_append encode_append read_manifest read_manifest_file fetch load split un_le
    check_manifest manifest_of_fields schema_from_manifest validate_schema fce_codec_encode
    codec_copy append_encoded append_record write_record finish_append appended_manifest
    replace_manifest freeze_log write_records finish_log log_size_of write_manifest write_file
    manifest_bytes store le make_manifest pack_flags fce_schema_hash schema_bytes fnv1a64
    crc64_update crc64_file
appends = refl

longer_short : length longer_dir.log < u64
unfolding freeze_log write_records write_record finish_log write_manifest write_file le
    manifest_bytes store
longer_short = omega arith

fce_log_append-IsLog_example :
    (k : Bytes) × (v : Bytes) × (n : FceManifestInfo) × (fce_codec_encode always log_info.key_codec
        (97 ∷ [])
      ≡ ok k)
    × (fce_codec_encode always log_info.value_codec (9 ∷ []) ≡ ok v)
    × IsLog longer_dir n (three_puts ++ (appended_record k v 3 ∷ []))
fce_log_append-IsLog_example =
    fce_log_append-IsLog append_env (buffer (97 ∷ [])) (buffer (9 ∷ [])) log_dir longer_dir log_info
      three_puts log_dir-IsLog refl (omega arith) longer_short appends

plain_key : fce_codec_encode always log_info.key_codec (97 ∷ []) ≡ ok (97 ∷ [])
unfolding fce_codec_encode codec_copy make_manifest
plain_key = refl

plain_value : fce_codec_encode always log_info.value_codec (9 ∷ []) ≡ ok (9 ∷ [])
unfolding fce_codec_encode codec_copy make_manifest
plain_value = refl

fce_log_append-get_log_example :
    (index : List LogIndexEntry) × (build_log_index always log_qsort false longer_dir.log 4
      ≡ ok index)
    × (get_log false longer_dir.log index (97 ∷ []) ≡ ok (9 ∷ []))
fce_log_append-get_log_example =
    fce_log_append-get_log append_env always log_qsort false (buffer (97 ∷ [])) (buffer (9 ∷ []))
      log_dir longer_dir log_info three_puts (97 ∷ []) (9 ∷ []) log_dir-IsLog three_puts-Numbered
      three_puts-FitsLog plain_key plain_value ((omega arith, tt), omega arith, omega arith) refl
      (λ n. refl) (omega arith) longer_short appends

-- A disk that takes ten bytes of the record and then fails.
abbrev full_disk : Call → Bool
full_disk (fwrite f off) = false
full_disk c = true

abbrev failing_env : AppendEnv
failing_env = record append_env { env = record no_trouble { succeeds = full_disk }; torn = 10 }

fce_log_append-Keeps_example :
    Keeps log_dir (fce_log_append failing_env (buffer (97 ∷ [])) (buffer (9 ∷ [])) log_dir).0
fce_log_append-Keeps_example =
    fce_log_append-Keeps failing_env (buffer (97 ∷ [])) (buffer (9 ∷ [])) log_dir

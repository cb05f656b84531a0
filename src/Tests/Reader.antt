-- ===== src/Tests/Reader.antt =====
-- A reader of the sorted cache of three puts (src/api/fce_reader_api.c).
use fast_cache_engine.Tests.{
  always, always-Plentiful, duplicates_schema, no_trouble, put_a_again, three_files, three_puts,
  three_puts_freeze,
}
use fast_cache_engine.Tests.Insertion.{build_qsort, entry_qsort, log_qsort}
use fast_cache_engine.Builder.{Buffer, buffer}
use fast_cache_engine.Bytes.Compare.{memcmp, range_ok}
use fast_cache_engine.Bytes.Words.{Bytes, le, load, split, un_le}
use fast_cache_engine.Codec.{codec_copy, fce_codec_encode}
use fast_cache_engine.Common.{In, List, [], arith, here, length, none, refl}
use fast_cache_engine.Common.{some, there, true, ◌/◌, ◌<◌, ◌↔◌, ◌∷◌, ◌≡◌, ◌≢◌}
use fast_cache_engine.Crc.{crc64_file}
use fast_cache_engine.Entry.{cmp_sorted_entry, entries_bytes, entry_at}
use fast_cache_engine.Entry.Write.{write_keys_values, write_loop}
use fast_cache_engine.Env.{write_file}
use fast_cache_engine.Hash.{hash_key}
use fast_cache_engine.Layout.{element, fetch, skip, store, store_all}
use fast_cache_engine.Manifest.{FceManifestInfo, make_manifest, manifest_bytes}
use fast_cache_engine.Manifest.RoundTrip.{IsSchema}
use fast_cache_engine.Reader.{FceReader, GetEnv, fce_reader_get, fce_reader_get_canonical}
use fast_cache_engine.Reader.{fce_reader_get_copy}
use fast_cache_engine.Reader.Accepts.{freeze_sorted_like-validate, sorted_reader}
use fast_cache_engine.Reader.{BatchSlot}
use fast_cache_engine.Reader.Calls.{IsCopied, fce_reader_get_copy-IsCopied}
use fast_cache_engine.Reader.Frozen.{FitsCache, FrozenAs, sorted_files}
use fast_cache_engine.Reader.Get.{fce_reader_get-put}
use fast_cache_engine.Reader.Open.{OpenEnv, fce_reader_open_expected}
use fast_cache_engine.Reader.Range.{InRange, fce_reader_range_scan-InRange}
use fast_cache_engine.Reader.Reopened.{dir_of, freeze_sorted_like-fce_reader_open_expected}
use fast_cache_engine.Reader.Safe.{IsAnswer, validate_reader_files-get_sorted}
use fast_cache_engine.Reader.Scan.{FceIterator, ScanEnv, fce_reader_range_scan}
use fast_cache_engine.Reader.Stale.{dir_with_log, stale_log-fce_reader_open_expected}
use fast_cache_engine.Reader.Validate.{
  validate_backend, validate_entry, validate_file, validate_files,
}
use fast_cache_engine.Reader.Validate.{validate_reader_files, validate_sizes, validate_sorted}
use fast_cache_engine.Record.{cmp_build_by_key, dedupe_loop, dedupe_records, dedupe_sorted}
use fast_cache_engine.Record.{same_key}
use fast_cache_engine.Record.Answers.{AnswersLatest}
use fast_cache_engine.Record.Latest.{IsLatest}
use fast_cache_engine.Schema.{backend_direct_table, backend_sorted_index, validate_schema}
use fast_cache_engine.Sorted.{Files, finish_sorted, forced, freeze_records, freeze_sorted_like}
use fast_cache_engine.Sorted.{get_sorted}
use fast_cache_engine.Sorted.Total.{freeze_sorted_like_total}
use fast_cache_engine.Status.{corrupt, err, fault, ok}

abbrev info : FceManifestInfo
info = record (make_manifest 1700000000 duplicates_schema 2) {
  index_size = 96;
  keys_size = 2;
  values_size = 3;
  index_crc64 = crc64_file (some three_files.index);
  keys_crc64 = crc64_file (some three_files.keys);
  values_crc64 = crc64_file (some three_files.values);
}

abbrev reader : FceReader
reader = record {
  manifest = info;
  schema = duplicates_schema;
  index_blob = three_files.index;
  keys_blob = three_files.keys;
  values_blob = three_files.values;
  log_blob = [];
  log_index = [];
}

abbrev get_env : GetEnv
get_env = record { key_malloc = always; value_malloc = always; copy = true }

three_puts-FitsCache : FitsCache three_puts
three_puts-FitsCache = (
  (
    ((omega arith, tt), omega arith, omega arith),
    (
      ((omega arith, tt), omega arith, omega arith),
      (((omega arith, tt), omega arith, omega arith), tt),
    ),
  ),
  omega arith,
  omega arith,
  omega arith,
)

last_put : IsLatest put_a_again three_puts
last_put =
    (there (there (here refl)), (λ e. omega arith, (λ e. omega arith, (λ e. omega arith, tt))))

not_direct : reader.schema.backend ≡ backend_direct_table → length put_a_again.key ≡ 8
not_direct e = absurd (omega (arith, e))

plain_key : fce_codec_encode always reader.schema.key_codec (97 ∷ []) ≡ ok (97 ∷ [])
unfolding fce_codec_encode codec_copy
plain_key = refl

plain_value : fce_codec_encode always reader.schema.value_codec (3 ∷ 4 ∷ []) ≡ ok (3 ∷ 4 ∷ [])
unfolding fce_codec_encode codec_copy
plain_value = refl

reader-FrozenAs : FrozenAs three_puts reader
reader-FrozenAs =
    sorted_files no_trouble build_qsort entry_qsort three_files refl three_puts_freeze
      (refl, refl, refl)

fce_reader_get-put_example : fce_reader_get get_env reader (buffer (97 ∷ [])) ≡ ok (3 ∷ 4 ∷ [])
fce_reader_get-put_example =
    fce_reader_get-put get_env reader three_puts put_a_again (97 ∷ []) (3 ∷ 4 ∷ [])
      three_puts-FitsCache (refl, (refl, (refl, tt))) reader-FrozenAs last_put not_direct plain_key
      plain_value (omega arith, (omega arith, tt)) (omega arith) always-Plentiful refl

reads_a : fce_reader_get get_env reader (buffer (97 ∷ [])) ≡ ok (3 ∷ 4 ∷ [])
reads_a =
    fce_reader_get-put get_env reader three_puts put_a_again (97 ∷ []) (3 ∷ 4 ∷ [])
      three_puts-FitsCache (refl, (refl, (refl, tt))) reader-FrozenAs last_put not_direct plain_key
      plain_value (omega arith, (omega arith, tt)) (omega arith) always-Plentiful refl

abbrev four_bytes : Bytes
four_bytes = 9 ∷ 9 ∷ 9 ∷ 9 ∷ []

reads_no_fault : fce_reader_get get_env reader (buffer (97 ∷ [])) ≢ fault
reads_no_fault = rw reads_a λ h. cc

fce_reader_get_copy-IsCopied_example :
    IsCopied
      (fce_reader_get get_env reader (buffer (97 ∷ [])))
      four_bytes
      3
      (fce_reader_get_copy get_env reader (buffer (97 ∷ [])) (some four_bytes) (some 3))
fce_reader_get_copy-IsCopied_example =
    fce_reader_get_copy-IsCopied get_env reader (buffer (97 ∷ [])) four_bytes 3 (omega arith)
      reads_no_fault

-- The places of a batch of two keys, the first of them stored and the second not; a third stays.
abbrev used_slot : BatchSlot
used_slot = record { value = some four_bytes; value_len = 4; status = ok tt }

abbrev two_keys : List Buffer
two_keys = buffer (97 ∷ []) ∷ buffer (99 ∷ []) ∷ []

reader_valid : validate_reader_files no_trouble reader none ≡ ok tt
unfolding validate_reader_files validate_files validate_sizes validate_file validate_backend
    validate_sorted validate_entry entry_at element fetch skip load split un_le range_ok
    make_manifest freeze_sorted_like dedupe_records dedupe_sorted cmp_build_by_key memcmp
    dedupe_loop same_key freeze_records write_keys_values write_loop write_file entries_bytes
    store_all store cmp_sorted_entry hash_key le finish_sorted manifest_bytes crc64_file
reader_valid = refl

validate_reader_files-get_sorted_example : IsAnswer (
    get_sorted
      (forced duplicates_schema)
      reader.index_blob
      reader.keys_blob
      reader.values_blob
      (99 ∷ []))
unfolding make_manifest
validate_reader_files-get_sorted_example =
    validate_reader_files-get_sorted no_trouble reader none (99 ∷ []) refl reader_valid

abbrev scan_env : ScanEnv
scan_env = record { created = ok tt; array = always }

fce_reader_range_scan-InRange_example :
    (it : FceIterator) × (fce_reader_range_scan scan_env reader
        (buffer (97 ∷ []))
        (buffer (98 ∷ []))
      ≡ ok it)
    × (it.pos ≡ 0)
    × (In 0 it.matches
        ↔ ((0 < length reader.index_blob / 48) × InRange reader (97 ∷ []) (98 ∷ []) 0))
unfolding make_manifest
fce_reader_range_scan-InRange_example =
    fce_reader_range_scan-InRange no_trouble scan_env reader none (97 ∷ []) (98 ∷ []) 0 refl refl
      reader_valid refl refl (λ n. refl)

freeze_sorted_like_total_example :
    (files : Files) × (freeze_sorted_like no_trouble build_qsort entry_qsort duplicates_schema
        backend_sorted_index three_puts
      ≡ ok files)
    × AnswersLatest three_puts
        (98 ∷ [])
        (get_sorted (forced duplicates_schema) files.index files.keys files.values (98 ∷ []))
freeze_sorted_like_total_example =
    freeze_sorted_like_total no_trouble build_qsort entry_qsort duplicates_schema three_puts
      (98 ∷ []) (λ c. refl) (λ i n. refl) refl
      ((omega arith, omega arith), ((omega arith, omega arith), ((omega arith, omega arith), tt)))
      (omega arith) (omega arith)

freeze_sorted_like-validate_example :
    (m : FceManifestInfo) × (three_files.manifest ≡ manifest_bytes m)
    × (validate_reader_files no_trouble
          (sorted_reader duplicates_schema m three_files)
          (some duplicates_schema)
        ≡ ok tt)
freeze_sorted_like-validate_example =
    freeze_sorted_like-validate no_trouble no_trouble build_qsort entry_qsort duplicates_schema
      three_puts three_files refl (omega arith) (omega arith) (omega arith) (λ c. refl) (λ f. refl)
      three_puts_freeze

duplicates_schema-IsSchema : IsSchema duplicates_schema
duplicates_schema-IsSchema = record {
  words =
      (refl, (refl, (refl, (refl, (refl, (refl, (refl, (refl, (refl, (refl, (refl, tt)))))))))));
  user_flags_word = omega arith;
  exact_key_check_flag = omega arith;
  mmap_read_flag = omega arith;
  read_only_flag = omega arith;
  duplicate_flag = omega arith;
}

duplicates_schema_valid : validate_schema duplicates_schema ≡ ok tt
unfolding validate_schema
duplicates_schema_valid = refl

abbrev open_env : OpenEnv
open_env = record {
  env = no_trouble;
  created = ok tt;
  acquired = ok tt;
  loaded = λ f. ok tt;
  log_alloc = always;
}

freeze_sorted_like-fce_reader_open_expected_example :
    (r : FceReader) × (fce_reader_open_expected open_env log_qsort
        (dir_of three_files)
        (some duplicates_schema)
      ≡ ok r)
    × AnswersLatest three_puts (97 ∷ []) (fce_reader_get_canonical r (97 ∷ []))
freeze_sorted_like-fce_reader_open_expected_example =
    freeze_sorted_like-fce_reader_open_expected open_env log_qsort no_trouble build_qsort
      entry_qsort duplicates_schema three_puts three_files (97 ∷ []) refl duplicates_schema-IsSchema
      refl refl duplicates_schema_valid (omega arith) (omega arith) (omega arith) (omega arith) refl
      refl (λ c. refl) (λ f. refl) (λ f. refl) three_puts_freeze

stale_log-fce_reader_open_expected_example :
    fce_reader_open_expected open_env log_qsort
      (dir_with_log four_bytes three_files)
      (some duplicates_schema)
    ≡ err corrupt
stale_log-fce_reader_open_expected_example =
    stale_log-fce_reader_open_expected open_env log_qsort no_trouble build_qsort entry_qsort
      duplicates_schema three_puts three_files four_bytes refl duplicates_schema-IsSchema refl refl
      duplicates_schema_valid (omega arith) (omega arith) (omega arith) (omega arith) refl refl
      (λ c. refl) (λ f. refl) (λ f. refl) three_puts_freeze (omega arith)

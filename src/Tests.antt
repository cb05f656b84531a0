-- ===== src/Tests.antt =====
-- Runs of the models at concrete inputs.
mod Direct
mod Log
mod Lock
mod Radix
mod Reader
pub mod Insertion
use fast_cache_engine.Tests.Insertion.{build_qsort, entry_qsort}
use fast_cache_engine.Builder.{FceBuilder, PutEnv, buffer, fce_builder_put}
use fast_cache_engine.Builder.Put.{IsBuilder, PutOutcome, fce_builder_put-PutOutcome}
use fast_cache_engine.Bytes.Compare.{key_bytes_cmp, key_equal, memcmp}
use fast_cache_engine.Bytes.Lexical.{key_bytes_cmp-lex, lex}
use fast_cache_engine.Bytes.Range.{key_equal_iff, slice}
use fast_cache_engine.Bytes.Words.{Bytes, IsByte, le}
use fast_cache_engine.Codec.{encode_bitpack, fce_codec_decode, fce_codec_encode}
use fast_cache_engine.Codec.Bitpack.{bitpack_encode}
use fast_cache_engine.Codec.Overread.{rle_truncated_faults}
use fast_cache_engine.Codec.Rle.{rle_encode, rle_runs}
use fast_cache_engine.Codec.RoundTrip.{Plentiful, fce_codec_decode-fce_codec_encode}
use fast_cache_engine.Codec.Words32.{bytes32}
use fast_cache_engine.Common.{All, All-replicate, Bool, List, [], arith, false, none, refl}
use fast_cache_engine.Common.{replicate, some, true, ℕ, ◌*◌, ◌++◌, ◌+◌, ◌-◌, ◌<◌, ◌↔◌, ◌∷◌}
use fast_cache_engine.Common.{◌≡◌, ◌≢◌, ◌≤◌}
use fast_cache_engine.Common.Order.{then_by}
use fast_cache_engine.Crc.{crc64_file, crc64_file-eq_update, crc64_update, crc64_update-append}
use fast_cache_engine.Entry.{cmp_sorted_entry, entries_bytes}
use fast_cache_engine.Entry.Write.{write_keys_values, write_loop}
use fast_cache_engine.Env.{Env, write_file}
use fast_cache_engine.Hash.{hash_key, u64}
use fast_cache_engine.Layout.{store, store_all}
use fast_cache_engine.Manifest.{FceManifestInfo, make_manifest, manifest_bytes, read_manifest}
use fast_cache_engine.Manifest.{schema_from_manifest}
use fast_cache_engine.Manifest.RoundTrip.{IsSchema, read_manifest-make_manifest}
use fast_cache_engine.Memory.{MemoryCall, free, initial_memory, run, xcalloc, xmalloc, xrealloc}
use fast_cache_engine.Memory.Consistent.{IsConsistent, run-IsConsistent}
use Prim.Native.Nat.{compare}
use fast_cache_engine.Record.{BuildRecord, cmp_build_by_key, dedupe_loop, dedupe_records}
use fast_cache_engine.Record.{dedupe_sorted, same_key}
use fast_cache_engine.Record.Answers.{AnswersLatest}
use fast_cache_engine.Record.Dedupe.{dedupe_records-IsDeduped, dedupe_records_total}
use fast_cache_engine.Record.Latest.{IsDeduped}
use fast_cache_engine.Record.Order.{cmp_build_by_key-lex}
use fast_cache_engine.Schema.{FceSchema, backend_direct_table, backend_sorted_index, codec_bitpack}
use fast_cache_engine.Schema.{codec_rle, fce_schema_default, key_u64, lookup_exact, validate_schema}
use fast_cache_engine.Schema.Planner.{FcePlannerInput, fce_schema_plan, fce_schema_plan_direct}
use fast_cache_engine.Schema.Planner.{fce_schema_plan_ok, fce_schema_plan_wraps, plan_backend}
use fast_cache_engine.Schema.Valid.{IsValid, validate_schema_iff}
use fast_cache_engine.Sorted.{Files, finish_sorted, forced, freeze_records, freeze_sorted_like}
use fast_cache_engine.Sorted.{get_sorted}
use fast_cache_engine.Sorted.Freeze.{freeze_sorted_like-get_sorted}
use fast_cache_engine.Status.{Result, fault, ok}

abbrev pub always : ℕ → Bool
always n = true

abbrev pub always_nth : ℕ → ℕ → Bool
always_nth i n = true

abbrev pub no_trouble : Env
no_trouble = record { succeeds = λ c. true; malloc = always_nth; now = 1700000000 }

abbrev pub put_env : PutEnv
put_env = record {
  realloc = always;
  key_malloc = always;
  value_malloc = always;
  key_copy = true;
  value_copy = true;
}

pub always-Plentiful : Plentiful always
always-Plentiful n h = refl

-- Two puts of the key "a" around one of "b".
abbrev put_a : BuildRecord
put_a = record { key = 97 ∷ []; value = 1 ∷ []; order = 0 }

abbrev put_b : BuildRecord
put_b = record { key = 98 ∷ []; value = 2 ∷ []; order = 1 }

abbrev pub put_a_again : BuildRecord
put_a_again = record { key = 97 ∷ []; value = 3 ∷ 4 ∷ []; order = 2 }

abbrev pub three_puts : List BuildRecord
three_puts = put_a ∷ put_b ∷ put_a_again ∷ []

abbrev pub duplicates_schema : FceSchema
duplicates_schema = record fce_schema_default { allow_duplicate_put = 1 }

abbrev pub files_of : Result Files → Files
files_of (ok files) = files
files_of _ = record { index = []; keys = []; values = []; manifest = [] }

abbrev pub three_files : Files
three_files = files_of (
    freeze_sorted_like no_trouble build_qsort entry_qsort duplicates_schema backend_sorted_index
      three_puts)

pub three_puts_freeze :
    freeze_sorted_like no_trouble build_qsort entry_qsort duplicates_schema backend_sorted_index
      three_puts
    ≡ ok three_files
unfolding freeze_sorted_like dedupe_records dedupe_sorted cmp_build_by_key memcmp dedupe_loop
    same_key freeze_records write_keys_values write_loop write_file entries_bytes store_all store
    cmp_sorted_entry hash_key le finish_sorted manifest_bytes
three_puts_freeze = refl

freeze_sorted_like-get_sorted_example : AnswersLatest three_puts (97 ∷ []) (
    get_sorted
      (forced duplicates_schema)
      three_files.index
      three_files.keys
      three_files.values
      (97 ∷ []))
freeze_sorted_like-get_sorted_example =
    freeze_sorted_like-get_sorted no_trouble build_qsort entry_qsort duplicates_schema three_puts
      three_files (97 ∷ []) (omega arith) (omega arith) three_puts_freeze

two_latest : dedupe_records always_nth build_qsort true three_puts ≡ ok (put_a_again ∷ put_b ∷ [])
unfolding dedupe_records dedupe_sorted cmp_build_by_key memcmp dedupe_loop same_key
two_latest = refl

dedupe_records-IsDeduped_example : IsDeduped three_puts (put_a_again ∷ put_b ∷ [])
dedupe_records-IsDeduped_example =
    dedupe_records-IsDeduped always_nth build_qsort true three_puts (put_a_again ∷ put_b ∷ [])
      two_latest

dedupe_records_total_example :
    (out : List BuildRecord) × (dedupe_records always_nth build_qsort true three_puts ≡ ok out)
dedupe_records_total_example = dedupe_records_total always_nth build_qsort three_puts (λ i n. refl)

cmp_build_by_key-lex_example :
    cmp_build_by_key put_a put_a_again
    ≡ then_by (lex put_a.key put_a_again.key) (compare put_a.order put_a_again.order)
cmp_build_by_key-lex_example = cmp_build_by_key-lex put_a put_a_again

-- Runs of equal words, and the codecs on them.
abbrev some_words : Bytes
some_words = 7 ∷ 0 ∷ 0 ∷ 0 ∷ 7 ∷ 0 ∷ 0 ∷ 0 ∷ 9 ∷ 0 ∷ 0 ∷ 0 ∷ []

abbrev pub result_of : {A : Type 0} → A → Result A → A
result_of d (ok a) = a
result_of d _ = d

abbrev some_words_packed : Bytes
some_words_packed = result_of [] (fce_codec_encode always codec_bitpack some_words)

some_words_encode : fce_codec_encode always codec_bitpack some_words ≡ ok some_words_packed
unfolding fce_codec_encode encode_bitpack bitpack_encode
some_words_encode = refl

some_words_bytes : All IsByte some_words
some_words_bytes = (
  omega arith,
  (
    omega arith,
    (
      omega arith,
      (
        omega arith,
        (
          omega arith,
          (
            omega arith,
            (
              omega arith,
              (omega arith, (omega arith, (omega arith, (omega arith, (omega arith, tt))))),
            ),
          ),
        ),
      ),
    ),
  ),
)

fce_codec_decode-fce_codec_encode_example :
    fce_codec_decode always codec_bitpack some_words_packed ≡ ok some_words
fce_codec_decode-fce_codec_encode_example =
    fce_codec_decode-fce_codec_encode always always-Plentiful some_words some_words_bytes
      codec_bitpack some_words_packed (omega arith) some_words_encode

rle_truncated_faults_example :
    fce_codec_decode always codec_rle (bytes32 (3 ∷ 7 ∷ 2 ∷ 9 ∷ [])) ≡ fault
rle_truncated_faults_example =
    rle_truncated_faults always 7 (7 ∷ 9 ∷ []) (3 ∷ 7 ∷ 2 ∷ 9 ∷ []) 1 always-Plentiful
      (omega arith, (omega arith, (omega arith, tt))) (omega arith)
      (unfold rle_encode rle_runs in refl)

-- An empty builder, and a put that finds it full.
abbrev empty_builder : FceBuilder
empty_builder = record { schema = fce_schema_default; records = []; cap = 0; frozen = false }

empty_builder-IsBuilder : IsBuilder empty_builder
empty_builder-IsBuilder = record { room = omega arith; orders = λ i r h. absurd (none_some h) }
  where
    none_some : {r : BuildRecord} → none ≢ some r
    none_some e = cc

fce_builder_put-PutOutcome_example :
    PutOutcome put_env
      (buffer (97 ∷ []))
      (buffer (1 ∷ []))
      empty_builder
      (fce_builder_put put_env (buffer (97 ∷ [])) (buffer (1 ∷ [])) empty_builder).0
      (fce_builder_put put_env (buffer (97 ∷ [])) (buffer (1 ∷ [])) empty_builder).1
fce_builder_put-PutOutcome_example =
    fce_builder_put-PutOutcome put_env (buffer (97 ∷ [])) (buffer (1 ∷ [])) empty_builder
      empty_builder-IsBuilder

abbrev some_calls : List MemoryCall
some_calls =
    xmalloc (some 16) true 10
    ∷ xcalloc (some 32) true 3 8
    ∷ xrealloc (some 64) true 16 40
    ∷ free 32
    ∷ []

run-IsConsistent_example : IsConsistent (run some_calls initial_memory)
run-IsConsistent_example = run-IsConsistent some_calls (omega arith) (omega arith)

pub default_valid : validate_schema fce_schema_default ≡ ok tt
unfolding validate_schema
default_valid = refl

validate_schema_iff_example :
    (validate_schema fce_schema_default ≡ ok tt) ↔ IsValid fce_schema_default
validate_schema_iff_example = validate_schema_iff fce_schema_default

abbrev dense_input : FcePlannerInput
dense_input = record {
  estimated_record_count = 1000;
  dense_u64_max_key = 2000;
  average_key_size = 8;
  average_value_size = 16;
  wanted_lookup = lookup_exact;
  wanted_key_kind = key_u64;
  needs_online_append = false;
  prefers_prefix_scan = false;
  read_mostly = true;
  allow_mph = false;
}

abbrev wrapping_input : FcePlannerInput
wrapping_input = record dense_input { dense_u64_max_key = u64 - 1 }

fce_schema_plan_ok_example : (fce_schema_plan dense_input).1 ≡ ok tt
fce_schema_plan_ok_example = fce_schema_plan_ok dense_input (omega arith) (omega arith)

fce_schema_plan_direct_example :
    ((fce_schema_plan dense_input).0.key_kind ≡ key_u64)
    × ((fce_schema_plan dense_input).0.fixed_key_size ≡ 8)
    × (2000 + 1 ≤ 1000 * 4)
unfolding fce_schema_plan plan_backend
fce_schema_plan_direct_example = fce_schema_plan_direct dense_input refl (omega arith) (omega arith)

fce_schema_plan_wraps_example : (fce_schema_plan wrapping_input).0.backend ≡ backend_direct_table
fce_schema_plan_wraps_example =
    fce_schema_plan_wraps wrapping_input refl refl refl refl refl (omega arith)

abbrev ten_bytes : Bytes
ten_bytes = replicate 10 200

ten_bytes-IsByte : All IsByte ten_bytes
ten_bytes-IsByte = All-replicate IsByte 10 200 (omega arith)

crc64_file-eq_update_example : crc64_file (some ten_bytes) ≡ crc64_update 0 ten_bytes
crc64_file-eq_update_example = crc64_file-eq_update ten_bytes ten_bytes-IsByte

crc64_update-append_example :
    crc64_update (crc64_update 0 ten_bytes) (1 ∷ 2 ∷ [])
    ≡ crc64_update 0 (ten_bytes ++ (1 ∷ 2 ∷ []))
crc64_update-append_example =
    crc64_update-append 0 ten_bytes (1 ∷ 2 ∷ []) (omega arith) ten_bytes-IsByte

key_bytes_cmp-lex_example : key_bytes_cmp (1 ∷ 2 ∷ []) (1 ∷ []) ≡ lex (1 ∷ 2 ∷ []) (1 ∷ [])
key_bytes_cmp-lex_example = key_bytes_cmp-lex (1 ∷ 2 ∷ []) (1 ∷ [])

key_equal_iff_example :
    (key_equal (5 ∷ 6 ∷ 7 ∷ []) 1 2 (6 ∷ 7 ∷ []) ≡ true)
    ↔ ((1 + 2 ≤ 3) × (slice (5 ∷ 6 ∷ 7 ∷ []) 1 2 ≡ 6 ∷ 7 ∷ []))
key_equal_iff_example = key_equal_iff (5 ∷ 6 ∷ 7 ∷ []) 1 2 (6 ∷ 7 ∷ [])

pub default-IsSchema : IsSchema fce_schema_default
default-IsSchema = record {
  words =
      (refl, (refl, (refl, (refl, (refl, (refl, (refl, (refl, (refl, (refl, (refl, tt)))))))))));
  user_flags_word = omega arith;
  exact_key_check_flag = omega arith;
  mmap_read_flag = omega arith;
  read_only_flag = omega arith;
  duplicate_flag = omega arith;
}

abbrev default_manifest : FceManifestInfo
default_manifest = make_manifest 1700000000 fce_schema_default 3

read_manifest-make_manifest_example :
    (read_manifest true (some (manifest_bytes default_manifest)) ≡ ok default_manifest)
    × (schema_from_manifest default_manifest ≡ fce_schema_default)
read_manifest-make_manifest_example =
    read_manifest-make_manifest 1700000000 fce_schema_default 3 default-IsSchema (omega arith)
      (omega arith) refl refl default_valid

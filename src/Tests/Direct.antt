-- ===== src/Tests/Direct.antt =====
-- A direct table of two keys, put three times (src/backends/fce_backend_direct.c).
use fast_cache_engine.Tests.{duplicates_schema, files_of, no_trouble}
use fast_cache_engine.Tests.Insertion.{build_qsort}
use fast_cache_engine.Bytes.Compare.{memcmp}
use fast_cache_engine.Bytes.Words.{IsByte, le, le-IsByte, un_le}
use fast_cache_engine.Common.{All, List, [], arith, refl, ◌<◌, ◌∷◌, ◌≡◌}
use fast_cache_engine.Direct.{direct_records, fill_direct, fill_slots, finish_direct, freeze_direct}
use fast_cache_engine.Direct.{get_direct, greatest_key, slots_bytes}
use fast_cache_engine.Direct.Freeze.{freeze_direct-get_direct}
use fast_cache_engine.Entry.Write.{write_keys_values, write_loop}
use fast_cache_engine.Env.{write_file}
use fast_cache_engine.Hash.{hash_key, u64}
use fast_cache_engine.Layout.{store, store_all}
use fast_cache_engine.Manifest.{manifest_bytes}
use fast_cache_engine.Record.{BuildRecord, cmp_build_by_key, dedupe_loop, dedupe_records}
use fast_cache_engine.Record.{dedupe_sorted, same_key}
use fast_cache_engine.Record.Answers.{AnswersLatest}
use fast_cache_engine.Schema.{FceSchema, backend_direct_table}
use fast_cache_engine.Sorted.{Files}
use fast_cache_engine.Sorted.Described.{keys_total, values_total}
use fast_cache_engine.Status.{ok}

abbrev put_one : BuildRecord
put_one = record { key = le 8 1; value = 5 ∷ []; order = 0 }

abbrev put_two : BuildRecord
put_two = record { key = le 8 2; value = 6 ∷ 7 ∷ []; order = 1 }

abbrev put_one_again : BuildRecord
put_one_again = record { key = le 8 1; value = 8 ∷ []; order = 2 }

abbrev numbered_puts : List BuildRecord
numbered_puts = put_one ∷ put_two ∷ put_one_again ∷ []

abbrev numbered_schema : FceSchema
numbered_schema = record duplicates_schema { backend = backend_direct_table }

abbrev numbered_files : Files
numbered_files = files_of (freeze_direct no_trouble build_qsort numbered_schema numbered_puts)

numbered_puts_freeze :
    freeze_direct no_trouble build_qsort numbered_schema numbered_puts ≡ ok numbered_files
unfolding freeze_direct dedupe_records dedupe_sorted cmp_build_by_key memcmp dedupe_loop same_key
    direct_records greatest_key fill_direct fill_slots write_keys_values write_loop write_file
    slots_bytes store_all store hash_key le un_le finish_direct manifest_bytes
numbered_puts_freeze = refl

numbered_puts-IsByte : All (λ r. All IsByte r.key) numbered_puts
numbered_puts-IsByte = (le-IsByte 8 1, (le-IsByte 8 2, (le-IsByte 8 1, tt)))

small_total : (keys_total numbered_puts < u64) × (values_total numbered_puts < u64)
unfolding le
small_total = (omega arith, omega arith)

freeze_direct-get_direct_example :
    AnswersLatest numbered_puts (le 8 1) (get_direct numbered_files.index numbered_files.values 1)
freeze_direct-get_direct_example =
    freeze_direct-get_direct no_trouble build_qsort numbered_schema numbered_puts numbered_files 1
      numbered_puts-IsByte small_total.0 small_total.1 (omega arith) numbered_puts_freeze

-- ===== src/Sorted/Freeze.antt =====
-- `freeze_sorted_like` of src/backends/fce_backend_sorted.c, and what a lookup finds after it.
use fast_cache_engine.Bytes.Words.{Bytes}
use fast_cache_engine.Common.{Bool, List, arith, if◌then◌else◌, length, not, sym, ℕ, ◌<◌}
use fast_cache_engine.Common.{◌==◌, ◌≡◌}
use fast_cache_engine.Entry.{cmp_sorted_entry, entries_bytes}
use fast_cache_engine.Entry.Write.{Written, write_keys_values}
use fast_cache_engine.Env.{Env, index_file, join_path, manifest_file, write_file}
use fast_cache_engine.Hash.{u64}
use fast_cache_engine.Manifest.{manifest_bytes}
use fast_cache_engine.Qsort.{Qsort}
use fast_cache_engine.Record.{BuildRecord, cmp_build_by_key, dedupe_records}
use fast_cache_engine.Record.Answers.{Answers, AnswersLatest, Answers→AnswersLatest}
use fast_cache_engine.Record.Dedupe.{dedupe_records-IsDeduped, total-dedupe_records}
use fast_cache_engine.Schema.{FceSchema, backend_radix, backend_sorted_index}
use fast_cache_engine.Sorted.{Files, finish_sorted, forced, freeze_records, freeze_sorted_like}
use fast_cache_engine.Sorted.{get_sorted, sorted_manifest}
use fast_cache_engine.Sorted.Described.{keys_total, values_total, write_keys_values-DescribesAll}
use fast_cache_engine.Sorted.Lookup.{get_sorted-Answers}
use fast_cache_engine.Status.{>>=-eq-ok, err, ok, ok-injective, out_of_memory, ◌>>◌}

-- What a freeze leaves in the directory.
abbrev pub files_written : Env → FceSchema → ℕ → Written → Bytes → Files
files_written env s count w index = record {
  index = index;
  keys = w.keys;
  values = w.values;
  manifest = manifest_bytes (sorted_manifest env s count w index);
}

finished :
    (env : Env) (s : FceSchema) (count : ℕ) (w : Written) (index : Bytes) {files : Files}
    → finish_sorted env s count w index ≡ ok files
    → files ≡ files_written env s count w index
unfolding finish_sorted
finished env s count w index {files} h =
    let out : Files = files_written env s count w index in
    let (u, wrote, f) =
      >>=-eq-ok (write_file env manifest_file (length out.manifest)) (λ _. ok out) {b = files}
        (ground arith) in
    sym (ok-injective f)

pub freeze_records-eq :
    (env : Env) (sort_entries : Qsort cmp_sorted_entry) (s : FceSchema) (records : List BuildRecord)
    (files : Files)
    → freeze_records env sort_entries s backend_sorted_index records ≡ ok files
    → (w : Written) × (write_keys_values env (forced s) records ≡ ok w)
      × (files
          ≡ files_written env s (length records) w (entries_bytes (sort_entries.sort w.entries)))
unfolding freeze_records
freeze_records-eq env sort_entries s records files h =
    let (w, m, f) =
      >>=-eq-ok (write_keys_values env (forced s) records)
        (λ w.
          let es =
            if backend_sorted_index == backend_radix
            then w.entries
            else sort_entries.sort w.entries in
          let index = entries_bytes es in
          if not (env.succeeds (join_path index_file 0))
          then err out_of_memory
          else (write_file env index_file (length index)
              >> finish_sorted env s (length records) w index))
        {b = files} (ground arith) in
    let index : Bytes = entries_bytes (sort_entries.sort w.entries) in
    let (u, wrote, g) =
      >>=-eq-ok (write_file env index_file (length index))
        (λ _. finish_sorted env s (length records) w index) {b = files} (ground arith) in
    (w, m, finished env s (length records) w index g)

-- From the records to the files and back, for every order of the puts, every schema and every
-- permutation that `qsort` may choose: if the freeze of a cache with fewer than 2^64 bytes of keys
-- and of values succeeds, then a lookup of any key answers with the value of a record with that
-- key, or with "not found" if no record has it; no read leaves the index. This does not depend
-- on the hashes: also with all hashes forced to collide.
pub freeze_records-get_sorted :
    (env : Env) (sort_entries : Qsort cmp_sorted_entry) (s : FceSchema) (records : List BuildRecord)
    (files : Files) (key : Bytes)
    → keys_total records < u64
    → values_total records < u64
    → freeze_records env sort_entries s backend_sorted_index records ≡ ok files
    → Answers records key (get_sorted (forced s) files.index files.keys files.values key)
freeze_records-get_sorted env sort_entries s records files key a b h =
    let (w, m, same) = freeze_records-eq env sort_entries s records files h in
    rw same (
      get_sorted-Answers (forced s) w.keys w.values records w.entries (sort_entries.sort w.entries)
        key (write_keys_values-DescribesAll env (forced s) records a b m)
        (sort_entries.permutes w.entries) (sort_entries.ascends w.entries))

-- From the puts to the files and back, for every schema and every permutation that `qsort` may
-- choose: if the freeze of puts with fewer than 2^64 bytes of keys and of values succeeds, then a
-- lookup of any key in its files answers with the value of the last put with that key, or with
-- "not found" if there was none; no read leaves the index. This holds for any hashes, also
-- when the flag makes all of them collide.
pub freeze_sorted_like-get_sorted :
    (env : Env) (sort_records : Qsort cmp_build_by_key) (sort_entries : Qsort cmp_sorted_entry)
    (s : FceSchema) (records : List BuildRecord) (files : Files) (key : Bytes)
    → keys_total records < u64
    → values_total records < u64
    → freeze_sorted_like env sort_records sort_entries s backend_sorted_index records ≡ ok files
    → AnswersLatest records key (get_sorted (forced s) files.index files.keys files.values key)
unfolding freeze_sorted_like
freeze_sorted_like-get_sorted env sort_records sort_entries s records files key a b h =
    let allow : Bool = not (s.allow_duplicate_put == 0) in
    let (out, d, f) =
      >>=-eq-ok (dedupe_records env.malloc sort_records allow records)
        (freeze_records env sort_entries s backend_sorted_index) {b = files} h in
    let deduped = dedupe_records-IsDeduped env.malloc sort_records allow records out d in
    Answers→AnswersLatest records out key
      (get_sorted (forced s) files.index files.keys files.values key) deduped
      (freeze_records-get_sorted env sort_entries s out files key
        (omega (
          arith,
          total-dedupe_records env.malloc sort_records allow (λ r. length r.key) records out d,
        ))
        (omega (
          arith,
          total-dedupe_records env.malloc sort_records allow (λ r. length r.value) records out d,
        ))
        f)

-- ===== src/Reader/Accepts.antt =====
-- `validate_reader_files` of src/api/fce_reader_api.c accepts what `freeze_sorted_like` of
-- src/backends/fce_backend_sorted.c has written.
use fast_cache_engine.Bytes.Range.{range_ok_iff}
use fast_cache_engine.Bytes.Words.{Bytes}
use fast_cache_engine.Common.{==_iff, All, Bool, Bool-cases, In-get_elem?, List, [], arith}
use fast_cache_engine.Common.{get_elem?-lt, inl, inr, length, not, refl, some, suc, sym}
use fast_cache_engine.Common.{true, zero, ℕ, ◌%◌, ◌*◌, ◌+◌, ◌/◌, ◌<◌, ◌==◌, ◌∷◌, ◌≡◌, ◌≤◌}
use fast_cache_engine.Crc.{crc64_file}
use fast_cache_engine.Entry.{SortedEntry, cmp_sorted_entry, entries_bytes, entry_at}
use fast_cache_engine.Entry.Reads.{FitsEntry, entry_at-entries_bytes, length-entries_bytes_all}
use fast_cache_engine.Entry.Write.{Written}
use fast_cache_engine.Env.{Call, Env, File, index_file, join_path, keys_file, log_file}
use fast_cache_engine.Env.{reopen, values_file}
use fast_cache_engine.Hash.{u64}
use fast_cache_engine.Manifest.{FceManifestInfo, make_manifest, manifest_bytes}
use fast_cache_engine.Qsort.{Perm-All, Perm-In, Perm-length, Perm-sym, Qsort}
use fast_cache_engine.Reader.{FceReader}
use fast_cache_engine.Reader.Validate.{
  each, validate_backend, validate_entry, validate_file, validate_files,
}
use fast_cache_engine.Reader.Validate.{validate_reader_files, validate_sizes, validate_sorted}
use fast_cache_engine.Record.{BuildRecord, cmp_build_by_key, dedupe_records, total}
use fast_cache_engine.Record.Dedupe.{total-dedupe_records}
use fast_cache_engine.Schema.{FceSchema, backend_sorted_index, fce_schema_hash}
use fast_cache_engine.Sorted.{Files, crc_of, forced, freeze_records, freeze_sorted_like}
use fast_cache_engine.Sorted.{sorted_manifest}
use fast_cache_engine.Sorted.Described.{
  DescribesAll, keys_total, values_total, write_keys_values-DescribesAll,
}
use fast_cache_engine.Sorted.Described.{write_keys_values-loop}
use fast_cache_engine.Sorted.Freeze.{files_written, freeze_records-eq}
use fast_cache_engine.Sorted.Lookup.{described, described_FitsEntry}
use fast_cache_engine.Sorted.Measured.{IsMeasured, write_loop-IsMeasured}
use fast_cache_engine.Status.{>>=-eq-ok, Result, ok}
use mathlib.Core.List.{Permᴰ}
use mathlib.Core.Path.{subst}

each-ok :
    (n i : ℕ) (test : ℕ → Result (Unit {0}))
    → ((j : ℕ) → i ≤ j → j < i + n → test j ≡ ok tt)
    → each n i test ≡ ok tt
each-ok zero i test h = refl
each-ok (suc n) i test h =
    rw (h i (omega arith) (omega arith))
      (each-ok n (suc i) test (λ j a b. h j (omega arith) (omega arith)))

validate_entry-ok :
    (r : FceReader) (i : ℕ) (e : SortedEntry)
    → entry_at r.index_blob i ≡ some e
    → e.key_offset + e.key_len ≤ length r.keys_blob
    → e.value_offset + e.value_len ≤ length r.values_blob
    → validate_entry r i ≡ ok tt
unfolding validate_entry
validate_entry-ok r i e at k v =
    let key_fits = (range_ok_iff e.key_offset e.key_len (length r.keys_blob)).1 k in
    let value_fits = (range_ok_iff e.value_offset e.value_len (length r.values_blob)).1 v in
    rw (at, key_fits, value_fits) refl

-- The reader of the three files and their manifest.
abbrev pub sorted_reader : FceSchema → FceManifestInfo → Files → FceReader
sorted_reader s m files = record {
  manifest = m;
  schema = s;
  index_blob = files.index;
  keys_blob = files.keys;
  values_blob = files.values;
  log_blob = [];
  log_index = [];
}

validate_file-ok :
    (env builder_env : Env) (f : File) (blob : Bytes) (size : ℕ)
    → env.succeeds (reopen f) ≡ true
    → builder_env.succeeds (reopen f) ≡ true
    → validate_file env f blob size (crc_of builder_env f blob) ≡ ok tt
unfolding validate_file
validate_file-ok env builder_env f blob size a b =
    let crc : ℕ = crc64_file (some blob) in
    let same : (crc == crc) ≡ true = (==_iff crc crc).1 refl in
    rw (a, b, same) (elim (Bool-cases (size == 0)) [ inl e ↦ rw e refl | inr e ↦ rw e refl ])

-- The parts of the validation, for what the writer of the records returns.
module _ (env builder_env : Env) (s : FceSchema) (records : List BuildRecord) (w : Written)
    (sorted : List SortedEntry) where
  abbrev index : Bytes
  index = entries_bytes sorted

  abbrev m : FceManifestInfo
  m = sorted_manifest builder_env s (length records) w index

  abbrev files : Files
  files = files_written builder_env s (length records) w index

  abbrev r : FceReader
  r = sorted_reader s m files

  module _ (all : (c : Call) → env.succeeds c ≡ true)
      (reopened : (f : File) → builder_env.succeeds (reopen f) ≡ true)
      (perm : Permᴰ sorted w.entries) (measured : IsMeasured records 0 0 w)
      (small : length records * 48 < u64) where
    length-index : length index ≡ length records * 48
    length-index = omega (arith, length-entries_bytes_all sorted, Perm-length perm, measured.2)

    sizes_ok : validate_sizes r (some s) ≡ ok tt
    unfolding validate_sizes sorted_manifest make_manifest
    sizes_ok =
        let hash = (==_iff (fce_schema_hash s) (fce_schema_hash s)).1 refl in
        let index_size : ((length records * 48 % u64) == length index) ≡ true =
          (==_iff (length records * 48 % u64) (length index)).1 (omega (arith, length-index)) in
        let keys_size : (w.keys_size == length w.keys) ≡ true =
          (==_iff w.keys_size (length w.keys)).1 (omega (arith, measured.0)) in
        let values_size : (w.values_size == length w.values) ≡ true =
          (==_iff w.values_size (length w.values)).1 (omega (arith, measured.1)) in
        rw (hash, index_size, keys_size, values_size) refl

    index_ok : validate_file env index_file r.index_blob m.index_size m.index_crc64 ≡ ok tt
    unfolding sorted_manifest
    index_ok =
        validate_file-ok env builder_env index_file index (length records * 48 % u64)
          (all (reopen index_file)) (reopened index_file)

    keys_ok : validate_file env keys_file r.keys_blob m.keys_size m.keys_crc64 ≡ ok tt
    unfolding sorted_manifest
    keys_ok =
        validate_file-ok env builder_env keys_file w.keys w.keys_size (all (reopen keys_file))
          (reopened keys_file)

    values_ok : validate_file env values_file r.values_blob m.values_size m.values_crc64 ≡ ok tt
    unfolding sorted_manifest
    values_ok =
        validate_file-ok env builder_env values_file w.values w.values_size
          (all (reopen values_file)) (reopened values_file)

    log_ok : validate_file env log_file r.log_blob m.log_size m.log_crc64 ≡ ok tt
    unfolding validate_file sorted_manifest make_manifest
    log_ok = refl

    files_ok : validate_files env r (some s) ≡ ok tt
    unfolding validate_files
    files_ok =
        rw
          (
            sizes_ok,
            all (join_path index_file 1),
            all (join_path keys_file 1),
            all (join_path values_file 1),
            all (join_path log_file 1),
            index_ok,
            keys_ok,
            values_ok,
            log_ok,
          )
          refl

    backend_ok :
        s.backend ≡ backend_sorted_index
        → ((i : ℕ) → i < length records → validate_entry r i ≡ ok tt)
        → validate_backend r ≡ ok tt
    unfolding validate_backend validate_sorted sorted_manifest make_manifest
    backend_ok backend entries =
        let sorted_backend : (s.backend == backend_sorted_index) ≡ true =
          (==_iff s.backend backend_sorted_index).1 backend in
        let whole : (length records * 48 % u64 % 48 == 0) ≡ true =
          (==_iff (length records * 48 % u64 % 48) 0).1 (omega arith) in
        let count : length index / 48 ≡ length records = omega (arith, length-index) in
        let same : (length records == length records) ≡ true =
          (==_iff (length records) (length records)).1 refl in
        rw (sorted_backend, whole, count, same)
          (each-ok (length records) 0 (validate_entry r) (λ j a b. entries j (omega arith)))

    entries_ok :
        DescribesAll (forced s) w.keys w.values records w.entries
        → (i : ℕ) → i < length records
        → validate_entry r i ≡ ok tt
    entries_ok d i l =
        let (e, at) = get_elem?-lt sorted i (omega (arith, Perm-length perm, measured.2)) in
        let fits : All FitsEntry sorted =
          Perm-All FitsEntry (Perm-sym perm)
            (described_FitsEntry (forced s) w.keys w.values records w.entries d) in
        let (x, j, k) =
          described (forced s) w.keys w.values records w.entries d
            (Perm-In perm (In-get_elem? sorted i at)) in
        validate_entry-ok r i e (entry_at-entries_bytes sorted i fits at) k.key_fits k.value_fits

    accepted :
        s.backend ≡ backend_sorted_index
        → DescribesAll (forced s) w.keys w.values records w.entries
        → validate_reader_files env r (some s) ≡ ok tt
    unfolding validate_reader_files
    accepted backend d = rw files_ok (backend_ok backend (entries_ok d))

-- The reader's validation accepts the files with the manifest that they have, which is made of the
-- schema and of sizes that are 64-bit words.
abbrev pub IsAccepted : Env → Env → FceSchema → Files → Type 0
IsAccepted env builder_env s files =
    (count : ℕ) × (w : Written) × (files.manifest
      ≡ manifest_bytes (sorted_manifest builder_env s count w files.index))
    × (count < u64)
    × (w.keys_size < u64)
    × (w.values_size < u64)
    × (validate_reader_files env
          (sorted_reader s (sorted_manifest builder_env s count w files.index) files) (some s)
        ≡ ok tt)

total_const : (n : ℕ) (rs : List BuildRecord) → total (λ r. n) rs ≡ length rs * n
total_const n [] = omega arith
total_const n (r ∷ rs) = grind (arith, total_const n rs)

pub freeze_sorted_like-IsAccepted :
    (env builder_env : Env) (sort_records : Qsort cmp_build_by_key)
    (sort_entries : Qsort cmp_sorted_entry) (s : FceSchema) (records : List BuildRecord)
    (files : Files)
    → s.backend ≡ backend_sorted_index
    → keys_total records < u64
    → values_total records < u64
    → length records * 48 < u64
    → ((c : Call) → env.succeeds c ≡ true)
    → ((f : File) → builder_env.succeeds (reopen f) ≡ true)
    → freeze_sorted_like builder_env sort_records sort_entries s backend_sorted_index records
      ≡ ok files
    → IsAccepted env builder_env s files
unfolding freeze_sorted_like
freeze_sorted_like-IsAccepted env builder_env sort_records sort_entries s records files backend a b
      c all reopened h =
    let allow : Bool = not (s.allow_duplicate_put == 0) in
    let (out, d, f) =
      >>=-eq-ok (dedupe_records builder_env.malloc sort_records allow records)
        (freeze_records builder_env sort_entries s backend_sorted_index) {b = files} h in
    let (w, written_all, same) = freeze_records-eq builder_env sort_entries s out files f in
    let keys_less =
      total-dedupe_records builder_env.malloc sort_records allow (λ r. length r.key) records out
        d in
    let values_less =
      total-dedupe_records builder_env.malloc sort_records allow (λ r. length r.value) records out
        d in
    let fewer =
      total-dedupe_records builder_env.malloc sort_records allow (λ r. 48) records out d in
    let small : length out * 48 < u64 =
      omega (arith, fewer, total_const 48 out, total_const 48 records) in
    let measured =
      write_loop-IsMeasured builder_env (forced s) out 0 0 (omega arith) (omega arith)
        (write_keys_values-loop builder_env (forced s) out written_all) in
    let entries =
      write_keys_values-DescribesAll builder_env (forced s) out (omega arith) (omega arith)
        written_all in
    let sorted = sort_entries.sort w.entries in
    let perm = sort_entries.permutes w.entries in
    subst (IsAccepted env builder_env s) (sym same) (
      length out,
      w,
      refl,
      omega arith,
      omega (arith, measured.3, keys_less),
      omega (arith, measured.4, values_less),
      accepted env builder_env s out w sorted all reopened perm measured small backend entries,
    )

-- What a freeze into a sorted cache writes passes the validation of a reader that expects the schema of
-- the builder: for a schema with that backend and fewer than 2^64 bytes of keys, of values and of
-- index, if the builder could read its files again for their checksums, and the reader every file.
pub freeze_sorted_like-validate :
    (env builder_env : Env) (sort_records : Qsort cmp_build_by_key)
    (sort_entries : Qsort cmp_sorted_entry) (s : FceSchema) (records : List BuildRecord)
    (files : Files)
    → s.backend ≡ backend_sorted_index
    → keys_total records < u64
    → values_total records < u64
    → length records * 48 < u64
    → ((c : Call) → env.succeeds c ≡ true)
    → ((f : File) → builder_env.succeeds (reopen f) ≡ true)
    → freeze_sorted_like builder_env sort_records sort_entries s backend_sorted_index records
      ≡ ok files
    → (m : FceManifestInfo) × (files.manifest ≡ manifest_bytes m)
      × (validate_reader_files env (sorted_reader s m files) (some s) ≡ ok tt)
freeze_sorted_like-validate env builder_env sort_records sort_entries s records files backend a b c
      all reopened h =
    let (count, w, manifest, p, q, t, valid) =
      freeze_sorted_like-IsAccepted env builder_env sort_records sort_entries s records files
        backend a b c all reopened h in
    (sorted_manifest builder_env s count w files.index, manifest, valid)

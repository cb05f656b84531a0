-- ===== src/Sorted/Total.antt =====
-- `freeze_sorted_like` of src/backends/fce_backend_sorted.c where nothing fails.
use fast_cache_engine.Bytes.Words.{Bytes}
use fast_cache_engine.Common.{
  All, All-mono, Bool, Bool-cases, List, [], arith, false, if◌then◌else◌,
}
use fast_cache_engine.Common.{inl, inr, length, ltb, not, refl, true, ℕ, ◌%◌, ◌*◌, ◌+◌}
use fast_cache_engine.Common.{◌<◌, ◌==◌, ◌^◌, ◌∷◌, ◌≡◌}
use fast_cache_engine.Entry.{cmp_sorted_entry, entries_bytes}
use fast_cache_engine.Entry.Write.{Written, add_record, uint32_max, write_keys_values, write_loop}
use fast_cache_engine.Env.{Call, Env, fclose, fopen, fwrite, index_file, join_path, keys_file}
use fast_cache_engine.Env.{manifest_file, values_file, write_file_total}
use fast_cache_engine.Hash.{u64}
use fast_cache_engine.Manifest.{manifest_bytes}
use fast_cache_engine.Qsort.{Qsort}
use fast_cache_engine.Record.{BuildRecord, cmp_build_by_key}
use fast_cache_engine.Record.Answers.{AnswersLatest}
use fast_cache_engine.Record.Dedupe.{dedupe_records-IsDeduped, dedupe_records_total}
use fast_cache_engine.Record.Latest.{All-In, IsLatest}
use fast_cache_engine.Schema.{FceSchema, backend_radix, backend_sorted_index}
use fast_cache_engine.Sorted.{Files, finish_sorted, forced, freeze_records, freeze_sorted_like}
use fast_cache_engine.Sorted.{get_sorted, sorted_manifest}
use fast_cache_engine.Sorted.Described.{keys_total, values_total}
use fast_cache_engine.Sorted.Freeze.{freeze_sorted_like-get_sorted}
use fast_cache_engine.Status.{ok}

-- The key and the value have lengths that an entry can hold.
abbrev pub IsShort : BuildRecord → Type 0
IsShort r = (length r.key < 2 ^ 32) × (length r.value < 2 ^ 32)

module _ (env : Env) (all : (c : Call) → env.succeeds c ≡ true) where
  write_loop_total :
      (force : Bool) (rs : List BuildRecord) (ko vo : ℕ)
      → All IsShort rs
      → (w : Written) × (write_loop env force rs ko vo ≡ ok w)
  unfolding write_loop
  write_loop_total force [] ko vo h =
      (record { entries = []; keys = []; values = []; keys_size = ko; values_size = vo }, refl)
  write_loop_total force (r ∷ rs) ko vo h =
      let (w, p) =
        write_loop_total force rs ((ko + length r.key) % u64) ((vo + length r.value) % u64) h.1 in
      let key_short : ltb uint32_max (length r.key) ≡ false = ground arith in
      let value_short : ltb uint32_max (length r.value) ≡ false = ground arith in
      (
        add_record force r ko vo w,
        rw (key_short, value_short, p)
            (ground (arith, all (fwrite keys_file ko), all (fwrite values_file vo))),
      )

  write_keys_values_total :
      (force : Bool) (rs : List BuildRecord)
      → All IsShort rs
      → (w : Written) × (write_keys_values env force rs ≡ ok w)
  unfolding write_keys_values
  write_keys_values_total force rs h =
      let (w, p) = write_loop_total force rs 0 0 h in
      (
        w,
        rw
            (
              all (join_path keys_file 0),
              all (join_path values_file 0),
              all (fopen keys_file),
              all (fopen values_file),
              p,
              all (fclose keys_file),
              all (fclose values_file),
            )
            refl,
      )

  finish_sorted_total :
      (s : FceSchema) (count : ℕ) (w : Written) (index : Bytes)
      → (files : Files) × (finish_sorted env s count w index ≡ ok files)
  unfolding finish_sorted
  finish_sorted_total s count w index =
      let m = manifest_bytes (sorted_manifest env s count w index) in
      (
        record { index = index; keys = w.keys; values = w.values; manifest = m },
        rw
            (
              all (join_path index_file 1),
              all (join_path keys_file 1),
              all (join_path values_file 1),
              all (join_path manifest_file 0),
              write_file_total env manifest_file (length m) all,
            )
            refl,
      )

  freeze_records_total :
      (sort_entries : Qsort cmp_sorted_entry) (s : FceSchema) (backend : ℕ) (rs : List BuildRecord)
      → ((i n : ℕ) → env.malloc i n ≡ true)
      → All IsShort rs
      → (files : Files) × (freeze_records env sort_entries s backend rs ≡ ok files)
  unfolding freeze_records
  freeze_records_total sort_entries s backend rs room h =
      let (w, p) = write_keys_values_total (forced s) rs h in
      let es = if backend == backend_radix then w.entries else sort_entries.sort w.entries in
      let (files, q) = finish_sorted_total s (length rs) w (entries_bytes es) in
      (
        files,
        rw
            (
              room 2 (length rs * 48),
              p,
              all (join_path index_file 0),
              write_file_total env index_file (length (entries_bytes es)) all,
            )
            (elim (Bool-cases (length rs == 0)) [ inl e ↦ rw e q | inr e ↦ rw e q ]),
      )

-- Where every call of the operating system and every allocation succeeds, a freeze into a sorted cache
-- succeeds for all records with keys and values shorter than 2^32, if the schema allows duplicates,
-- and a lookup of any key in its files answers with the value of the last put of the key, or with "not found"
-- if there was none, as long as there are fewer than 2^64 bytes of keys and of values.
pub freeze_sorted_like_total :
    (env : Env) (sort_records : Qsort cmp_build_by_key) (sort_entries : Qsort cmp_sorted_entry)
    (s : FceSchema) (records : List BuildRecord) (key : Bytes)
    → ((c : Call) → env.succeeds c ≡ true)
    → ((i n : ℕ) → env.malloc i n ≡ true)
    → s.allow_duplicate_put ≡ 1
    → All IsShort records
    → keys_total records < u64
    → values_total records < u64
    → (files : Files) × (freeze_sorted_like env sort_records sort_entries s backend_sorted_index
          records
        ≡ ok files)
      × AnswersLatest records key (get_sorted (forced s) files.index files.keys files.values key)
unfolding freeze_sorted_like
freeze_sorted_like_total env sort_records sort_entries s records key all room dup short a b =
    let (out, d) = dedupe_records_total env.malloc sort_records records room in
    let allows : not (s.allow_duplicate_put == 0) ≡ true = ground arith in
    let deduped = dedupe_records-IsDeduped env.malloc sort_records true records out d in
    let out_short : All IsShort out =
      All-mono (λ r. IsLatest r records) IsShort out (λ r l. All-In IsShort records short l.0)
        deduped.latest in
    let (files, f) =
      freeze_records_total env all sort_entries s backend_sorted_index out room out_short in
    let h : freeze_sorted_like env sort_records sort_entries s backend_sorted_index records
        ≡ ok files =
      rw (allows, d) f in
    (
      files,
      h,
      freeze_sorted_like-get_sorted env sort_records sort_entries s records files key a b h,
    )

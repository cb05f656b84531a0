-- ===== src/Reader/Frozen.antt =====
-- A reader of the files that a freeze has left, and what its lookup answers (src/api/fce_reader_api.c).
use fast_cache_engine.Bytes.Words.{Bytes, Fits, IsByte, le, le-un_le, rd64, un_le, un_le-Fits}
use fast_cache_engine.Common.{==_iff, All, List, [], arith, length, refl, sym, take, take-all}
use fast_cache_engine.Common.{true, ◌-◌, ◌/◌, ◌<◌, ◌==◌, ◌∙◌, ◌∷◌, ◌≡◌, ◌≤◌}
use fast_cache_engine.Direct.{freeze_direct, get_direct}
use fast_cache_engine.Direct.Freeze.{freeze_direct-get_direct}
use fast_cache_engine.Entry.{cmp_sorted_entry}
use fast_cache_engine.Env.{Env}
use fast_cache_engine.Hash.{u64}
use fast_cache_engine.Log.{LogFiles, build_log_index, freeze_log}
use fast_cache_engine.Log.Freeze.{freeze_log-get_log}
use fast_cache_engine.Log.Index.{FitsLog}
use fast_cache_engine.Qsort.{Qsort}
use fast_cache_engine.Reader.{FceReader, fce_reader_get_canonical}
use fast_cache_engine.Record.{BuildRecord, cmp_build_by_key}
use fast_cache_engine.Record.Answers.{AnswersLatest}
use fast_cache_engine.Record.Log.{cmp_log_index_entry}
use fast_cache_engine.Record.Numbered.{Numbered}
use fast_cache_engine.Schema.{backend_direct_table, backend_log, backend_sorted_index}
use fast_cache_engine.Sorted.{Files, forced, freeze_sorted_like}
use fast_cache_engine.Sorted.Described.{keys_total, values_total}
use fast_cache_engine.Sorted.Freeze.{freeze_sorted_like-get_sorted}
use fast_cache_engine.Status.{ok, ok-injective}
use mathlib.Core.Path.{subst}

-- The three blobs of the reader are the files.
abbrev pub IsFiles : FceReader → Files → Type 0
IsFiles r files =
    (r.index_blob ≡ files.index) × (r.keys_blob ≡ files.keys) × (r.values_blob ≡ files.values)

-- The reader has the files of a successful freeze of the records, under the schema of the builder; that
-- of a log has built its index.
pub data FrozenAs (records : List BuildRecord) (r : FceReader) : Type 0 where
  sorted_files :
      (env : Env) (sort_records : Qsort cmp_build_by_key) (sort_entries : Qsort cmp_sorted_entry)
      (files : Files)
      → r.schema.backend ≡ backend_sorted_index
      → freeze_sorted_like env sort_records sort_entries r.schema backend_sorted_index records
        ≡ ok files
      → IsFiles r files
      → FrozenAs records r
  direct_files :
      (env : Env) (sort_records : Qsort cmp_build_by_key) (files : Files)
      → r.schema.backend ≡ backend_direct_table
      → freeze_direct env sort_records r.schema records ≡ ok files
      → IsFiles r files
      → FrozenAs records r
  log_files :
      (env : Env) (sort_entries : Qsort cmp_log_index_entry) (files : LogFiles)
      → r.schema.backend ≡ backend_log
      → freeze_log env r.schema records ≡ ok files
      → r.log_blob ≡ files.log
      → build_log_index (λ n. true) sort_entries (forced r.schema) r.log_blob (length records)
        ≡ ok r.log_index
      → FrozenAs records r

-- A record that every backend can hold.
abbrev pub FitsCache : List BuildRecord → Type 0
FitsCache records =
    All FitsLog records
    × (keys_total records < u64)
    × (values_total records < u64)
    × (length records ≤ (u64 - 1) / 48)

key_bytes : (rs : List BuildRecord) → All FitsLog rs → All (λ r. All IsByte r.key) rs
key_bytes [] h = tt
key_bytes (r ∷ rs) h = (h.0.0, key_bytes rs h.1)

le-rd64 : (key : Bytes) → All IsByte key → length key ≡ 8 → le 8 (rd64 key) ≡ key
le-rd64 key bytes e =
    let whole : take 8 key ≡ key = subst (λ n. take n key ≡ key) e (take-all key) in
    rw whole (subst (λ n. le n (un_le key) ≡ key) e (le-un_le key bytes))

rd64-lt : (key : Bytes) → All IsByte key → length key ≡ 8 → rd64 key < u64
rd64-lt key bytes e =
    let whole : take 8 key ≡ key = subst (λ n. take n key ≡ key) e (take-all key) in
    let fits : Fits 8 (un_le key) = subst (λ n. Fits n (un_le key)) e (un_le-Fits key bytes) in
    rw whole (omega (arith, fits))

-- What a reader of frozen files answers for a key: for every backend whose freeze is a step of the
-- relation, the value of the last record with the key, or that there was none.
pub FrozenAs-AnswersLatest :
    (records : List BuildRecord) (r : FceReader) (key : Bytes)
    → FitsCache records
    → Numbered records 0
    → All IsByte key
    → (r.schema.backend ≡ backend_direct_table → length key ≡ 8)
    → FrozenAs records r
    → AnswersLatest records key (fce_reader_get_canonical r key)
unfolding fce_reader_get_canonical
FrozenAs-AnswersLatest records r key fits num bytes eight
      (sorted_files env sort_records sort_entries files e h (p, q, t)) =
    rw (e, p, q, t)
      (freeze_sorted_like-get_sorted env sort_records sort_entries r.schema records files key fits.1
        fits.2 h)
FrozenAs-AnswersLatest records r key fits num bytes eight
      (direct_files env sort_records files e h (p, q, t)) =
    let same : le 8 (rd64 key) ≡ key = le-rd64 key bytes (eight e) in
    let small : rd64 key < u64 = rd64-lt key bytes (eight e) in
    let long : (length key == 8) ≡ true = (==_iff (length key) 8).1 (eight e) in
    rw (e, long, p, t)
      (subst (λ k. AnswersLatest records k (get_direct files.index files.values (rd64 key))) same
        (freeze_direct-get_direct env sort_records r.schema records files (rd64 key)
          (key_bytes records fits.0) fits.1 fits.2 small h))
FrozenAs-AnswersLatest records r key fits num bytes eight
      (log_files env sort_entries files e h p built) =
    let (index, built2, answers) =
      freeze_log-get_log env (λ n. true) sort_entries r.schema records files key (λ n. refl) fits.3
        fits.0 num h in
    let same : index ≡ r.log_index = ok-injective (sym built2 ∙ rw p at built) in
    rw (e, p, ← same) answers

-- ===== src/Log/Index.antt =====
-- `build_log_index` of src/backends/fce_backend_log.c on the log of a freeze.
use fast_cache_engine.Bytes.Words.{Bytes, IsByte}
use fast_cache_engine.Common.{All, Bool, List, [], append-nil, append_assoc, arith, false}
use fast_cache_engine.Common.{if◌then◌else◌, leb, length, length-append, ltb, refl, suc}
use fast_cache_engine.Common.{true, zero, ℕ, ◌*◌, ◌++◌, ◌+◌, ◌-◌, ◌/◌, ◌<◌, ◌==◌, ◌^◌, ◌∙◌}
use fast_cache_engine.Common.{◌∷◌, ◌≡◌, ◌≤◌}
use fast_cache_engine.Hash.{u64}
use fast_cache_engine.Log.{build_log_index, log_record, read_record, read_records}
use fast_cache_engine.Log.Replay.{
  LogDescribes, entry_of, length-log_record, log_bytes, log_describes,
}
use fast_cache_engine.Log.Replay.{read_record-log_record}
use fast_cache_engine.Qsort.{Qsort}
use fast_cache_engine.Record.{BuildRecord}
use fast_cache_engine.Record.Log.{LogIndexEntry, cmp_log_index_entry}
use fast_cache_engine.Status.{ok, ◌>>=◌}
use mathlib.Core.Path.{subst}

-- One entry for each record, with its place.
abbrev pub LogDescribesAll : Bool → Bytes → List BuildRecord → List LogIndexEntry → ℕ → Type 0
LogDescribesAll force log [] [] order = Unit
LogDescribesAll force log [] (e ∷ es) order = ⊥
LogDescribesAll force log (r ∷ rs) [] order = ⊥
LogDescribesAll force log (r ∷ rs) (e ∷ es) order =
    LogDescribes force log r.key r.value order e × LogDescribesAll force log rs es (suc order)

-- A record that the log can hold.
abbrev pub FitsLog : BuildRecord → Type 0
FitsLog r = All IsByte r.key × (length r.key < 2 ^ 32) × (length r.value < 2 ^ 32)

read_records_step :
    (fuel : ℕ) (force : Bool) (log : Bytes) (record_count pos order : ℕ) (e : LogIndexEntry)
    → pos + 32 ≤ length log
    → read_record force log record_count pos order ≡ ok e
    → read_records (suc fuel) force log record_count pos order ≡ (
        read_records fuel force log record_count (e.value_offset + e.value_len + 8) (suc order)
        >>= λ es. ok (e ∷ es))
unfolding read_records
read_records_step fuel force log record_count pos order e a h =
    let room : leb (pos + 32) (length log) ≡ true = ground arith in rw (room, h) refl

read_records_end :
    (fuel : ℕ) (force : Bool) (log : Bytes) (n : ℕ)
    → read_records fuel force log n (length log) n ≡ ok []
unfolding read_records
read_records_end zero force log n = ground arith
read_records_end (suc fuel) force log n = ground arith

-- What the loop reads from the records after `p`.
abbrev Reads : ℕ → Bool → List BuildRecord → Bytes → ℕ → ℕ → ℕ → Type 0
Reads fuel force rs log n pos order =
    (es : List LogIndexEntry) × (read_records fuel force log n pos order ≡ ok es)
    × LogDescribesAll force log rs es order

read_records-log_bytes :
    (fuel : ℕ) (force : Bool) (rs : List BuildRecord) (p : Bytes) (n order : ℕ)
    → length rs ≤ fuel
    → order + length rs ≡ n
    → All FitsLog rs
    → Reads fuel force rs (p ++ log_bytes rs) n (length p) order
read_records-log_bytes fuel force [] p n order a b h =
    let same : order ≡ n = omega arith in
    let whole : p ++ [] ≡ p = append-nil p in
    ([], rw (same, whole) (read_records_end fuel force p n), tt)
read_records-log_bytes zero force (r ∷ rs) p n order a b h = absurd (omega arith)
read_records-log_bytes (suc fuel) force (r ∷ rs) p n order a b h =
    let bytes = log_record r.key r.value in
    let e = entry_of p r.key r.value (log_bytes rs) force order in
    let log : Bytes = p ++ (bytes ++ log_bytes rs) in
    let (es, read, described) =
      read_records-log_bytes fuel force rs (p ++ bytes) n (suc order) (omega arith) (omega arith)
        h.1 in
    let next : length (p ++ bytes) ≡ e.value_offset + e.value_len + 8 =
      omega (arith, length-append {0} p bytes, length-log_record r.key r.value) in
    let moved : Reads fuel force rs log n (e.value_offset + e.value_len + 8) (suc order) =
      subst (λ x. Reads fuel force rs x n (e.value_offset + e.value_len + 8) (suc order))
        (append_assoc p bytes (log_bytes rs))
        (subst (λ x. Reads fuel force rs ((p ++ bytes) ++ log_bytes rs) n x (suc order)) next
          (es, read, described)) in
    let (fs, read2, described2) = moved in
    (
      e ∷ fs,
      read_records_step fuel force log n (length p) order e
            (omega (
              arith,
              length-append {0} p (bytes ++ log_bytes rs),
              length-append {0} bytes (log_bytes rs),
              length-log_record r.key r.value,
            ))
            (read_record-log_record p r.key r.value (log_bytes rs) force n order h.0.0 h.0.1 h.0.2
              (omega arith))
          ∙ rw read2 refl,
      (log_describes p r.key r.value (log_bytes rs) force order, described2),
    )

pub length-log_bytes : (rs : List BuildRecord) → length rs ≤ length (log_bytes rs)
length-log_bytes [] = omega arith
length-log_bytes (r ∷ rs) = omega (
  arith,
  length-log_bytes rs,
  length-append {0} (log_record r.key r.value) (log_bytes rs),
  length-log_record r.key r.value,
)

-- If the index of at most (2^64 - 1) / 48 records fits into memory, opening a log file of records
-- whose keys are bytes, with keys and values shorter than 2^32, succeeds: it reads one entry for
-- each record, with the hash of its key, the places of its key and value, and its number, in
-- some order that ascends.
pub build_log_index-log_bytes :
    (alloc : ℕ → Bool) (sort_entries : Qsort cmp_log_index_entry) (force : Bool)
    (rs : List BuildRecord)
    → ((n : ℕ) → alloc n ≡ true)
    → length rs ≤ (u64 - 1) / 48
    → All FitsLog rs
    → (es : List LogIndexEntry) × (build_log_index alloc sort_entries force
          (log_bytes rs)
          (length rs)
        ≡ ok (sort_entries.sort es))
      × LogDescribesAll force (log_bytes rs) rs es 0
unfolding build_log_index
build_log_index-log_bytes alloc sort_entries force rs room small h =
    let (es, read, described) =
      read_records-log_bytes (length (log_bytes rs)) force rs [] (length rs) 0 (length-log_bytes rs)
        (omega arith) h in
    let count : ltb ((u64 - 1) / 48) (length rs) ≡ false = ground arith in
    (es, rw (count, room ((if length rs == 0 then 1 else length rs) * 48), read) refl, described)

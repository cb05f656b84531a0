-- ===== src/Direct/Freeze.antt =====
-- What a lookup finds in a frozen direct table (src/backends/fce_backend_direct.c).
use fast_cache_engine.Bytes.Compare.{range_ok}
use fast_cache_engine.Bytes.Range.{range_ok_iff, slice}
use fast_cache_engine.Bytes.Words.{Bytes, Fits, IsByte, le, length-le, rd64, un_le-le}
use fast_cache_engine.Common.{==_iff, All, All-mono, All-replicate, Bool, Bool-cases, List}
use fast_cache_engine.Common.{[], ap, arith, false, get_or, get_or-replicate, if◌then◌else◌}
use fast_cache_engine.Common.{inl, inr, leb, length, length-replicate, ltb, not, refl, replicate}
use fast_cache_engine.Common.{sym, take, take-all, true, ℕ, ◌%◌, ◌&&◌, ◌*◌, ◌+◌, ◌-◌, ◌/◌}
use fast_cache_engine.Common.{◌<◌, ◌==◌, ◌||◌, ◌∙◌, ◌∷◌, ◌≡◌, ◌≢◌, ◌≤◌}
use fast_cache_engine.Direct.{DirectSlot, direct_manifest, direct_records, empty_slot, fill_direct}
use fast_cache_engine.Direct.{fill_slots, finish_direct, flag_allow_sparse, freeze_direct}
use fast_cache_engine.Direct.{full_slot, get_direct, greatest_key, slots_bytes}
use fast_cache_engine.Direct.Fill.{
  fill_slots-IsSlot, fill_slots-fits, greatest_key-le, length-fill_slots,
}
use fast_cache_engine.Direct.Fill.{rd64-key}
use fast_cache_engine.Direct.Slots.{FitsSlot, length-slots_bytes, slot_at-slots_bytes}
use fast_cache_engine.Entry.{SortedEntry}
use fast_cache_engine.Entry.Write.{Written, write_keys_values}
use fast_cache_engine.Env.{Env, index_file, join_path, keys_file, manifest_file, values_file}
use fast_cache_engine.Env.{write_file}
use fast_cache_engine.Hash.{u64}
use fast_cache_engine.Manifest.{manifest_bytes}
use Prim.Native.Nat.{bit_and}
use fast_cache_engine.Qsort.{Qsort}
use fast_cache_engine.Record.{BuildRecord, cmp_build_by_key, dedupe_records}
use fast_cache_engine.Record.Answers.{Answers, AnswersLatest, Answers→AnswersLatest}
use fast_cache_engine.Record.Dedupe.{dedupe_records-IsDeduped, total-dedupe_records}
use fast_cache_engine.Record.Latest.{All-In, IsLatest}
use fast_cache_engine.Schema.{FceSchema}
use fast_cache_engine.Sorted.{Files, forced}
use fast_cache_engine.Sorted.Described.{
  Describes, DescribesAll, keys_total, values_total, write_keys_values-DescribesAll,
}
use fast_cache_engine.Status.{>>-eq-ok, >>=-eq-ok, Result, corrupt, err, fault, invalid_argument}
use fast_cache_engine.Status.{not_found, ok, ok-injective, out_of_memory, ◌>>◌}
use mathlib.Core.Path.{subst}

-- A slot of the table answers for its number.
abbrev answer_of : Bytes → ℕ → DirectSlot → Result Bytes
answer_of values key slot =
    if (slot.present == 0) || not (slot.key_u64 == key)
    then err not_found
    else if range_ok slot.value_offset slot.value_len (length values)
    then ok (slice values slot.value_offset slot.value_len)
    else err corrupt

get_direct_inside :
    (slots : List DirectSlot) (values : Bytes) (key : ℕ)
    → All FitsSlot slots
    → key < length slots
    → get_direct (slots_bytes slots) values key ≡ answer_of values key (get_or slots key empty_slot)
unfolding get_direct
get_direct_inside slots values key fits h =
    let inside : leb (length slots) key ≡ false = ground arith in
    rw (length-slots_bytes slots, inside, slot_at-slots_bytes slots key fits h) refl

get_direct_outside :
    (slots : List DirectSlot) (values : Bytes) (key : ℕ)
    → length slots ≤ key
    → get_direct (slots_bytes slots) values key ≡ err not_found
unfolding get_direct
get_direct_outside slots values key h =
    let outside : leb (length slots) key ≡ true = ground arith in
    rw (length-slots_bytes slots, outside) refl

answer_of_full :
    (force : Bool) (keys values : Bytes) (r : BuildRecord) (e : SortedEntry) (key : ℕ)
    → rd64 r.key ≡ key
    → Describes force keys values r e
    → answer_of values key (full_slot r e) ≡ ok r.value
answer_of_full force keys values r e key same d =
    let range = (range_ok_iff e.value_offset e.value_len (length values)).1 d.value_fits in
    let number : (rd64 r.key == key) ≡ true = (==_iff (rd64 r.key) key).1 same in
    rw (number, range, d.value) refl

-- The keys of the records are bytes, eight of them each, and below the length of the table.
abbrev KeysFit : ℕ → List BuildRecord → Type 0
KeysFit n rs = All (λ r. All IsByte r.key × (length r.key ≡ 8) × (rd64 r.key < n)) rs

rd64-le : (key : ℕ) → Fits 8 key → rd64 (le 8 key) ≡ key
rd64-le key h =
    let whole : take 8 (le 8 key) ≡ le 8 key =
      subst (λ n. take n (le 8 key) ≡ le 8 key) (length-le 8 key) (take-all (le 8 key)) in
    rw whole (un_le-le 8 key h)

numbers_differ :
    (n key : ℕ) (rs : List BuildRecord)
    → Fits 8 key
    → All (λ r. rd64 r.key ≢ key) rs
    → All (λ r. r.key ≢ le 8 key) rs
numbers_differ n key rs small =
    All-mono (λ r. rd64 r.key ≢ key) (λ r. r.key ≢ le 8 key) rs
      (λ r h e. h (ap rd64 e ∙ rd64-le key small))

pub get_direct-Answers :
    (force : Bool) (keys values : Bytes) (rs : List BuildRecord) (es : List SortedEntry) (n key : ℕ)
    → DescribesAll force keys values rs es
    → KeysFit n rs
    → Fits 8 key
    → Answers rs
        (le 8 key)
        (get_direct (slots_bytes (fill_slots rs es (replicate n empty_slot))) values key)
get_direct-Answers force keys values rs es n key d fit small =
    let blank : List DirectSlot = replicate n empty_slot in
    let slots : List DirectSlot = fill_slots rs es blank in
    let size : length slots ≡ n = length-fill_slots rs es blank ∙ length-replicate n empty_slot in
    let fits : All FitsSlot slots =
      fill_slots-fits force keys values rs es blank d
        (All-mono (λ r. All IsByte r.key × (length r.key ≡ 8) × (rd64 r.key < n))
          (λ r. All IsByte r.key × (length r.key ≡ 8)) rs (λ r h. (h.0, h.1)) fit)
        (All-replicate FitsSlot n empty_slot
          (refl, (refl, (refl, (refl, (refl, (refl, (refl, tt)))))))) in
    elim (Bool-cases (ltb key n)) [
      | inl h ↦
          let inside = get_direct_inside slots values key fits (ground arith) in
          elim (fill_slots-IsSlot force keys values rs es blank key d
            (ground (arith, length-replicate n empty_slot))) [
              | inl (r, e, m, p, q, g) ↦
                  let (bytes, eight, less) =
                    All-In (λ r. All IsByte r.key × (length r.key ≡ 8) × (rd64 r.key < n)) rs fit
                      m in
                  inl (
                    r,
                    m,
                    sym (rd64-key r.key bytes eight) ∙ ap (le 8) p,
                    inside
                        ∙ ap (answer_of values key) g
                        ∙ answer_of_full force keys values r e key p q,
                  )
              | inr (others, g) ↦
                  let blank_slot : get_or slots key empty_slot ≡ empty_slot =
                    g ∙ get_or-replicate n key empty_slot in
                  inr (
                    numbers_differ n key rs small others,
                    inside ∙ ap (answer_of values key) blank_slot,
                  )
            ]
      | inr h ↦ inr (
        numbers_differ n key rs small (
            All-mono (λ r. All IsByte r.key × (length r.key ≡ 8) × (rd64 r.key < n))
              (λ r. rd64 r.key ≢ key) rs (λ r f e. absurd (ground (arith, f.2, e, h))) fit),
        get_direct_outside slots values key (ground (arith, size)),
      )
    ]

finished :
    (env : Env) (s : FceSchema) (count n : ℕ) (w : Written) (index : Bytes) {files : Files}
    → finish_direct env s count n w index ≡ ok files
    → (files.index ≡ index) × (files.keys ≡ w.keys) × (files.values ≡ w.values)
unfolding finish_direct
finished env s count n w index {files} h =
    let m : Bytes = manifest_bytes (direct_manifest env s count n w index) in
    let out : Files = record { index = index; keys = w.keys; values = w.values; manifest = m } in
    let wrote =
      >>-eq-ok (write_file env index_file (length index))
        (if not (env.succeeds (join_path index_file 1))
            || (not (env.succeeds (join_path keys_file 1))
                || not (env.succeeds (join_path values_file 1)))
          then fault
          else if not (env.succeeds (join_path manifest_file 0))
          then err out_of_memory
          else (write_file env manifest_file (length m) >> ok out))
        {b = files} (ground arith) in
    let last =
      >>-eq-ok (write_file env manifest_file (length m)) (ok out) {b = files} (ground arith) in
    let same : out ≡ files = ok-injective last in
    (sym (ap (λ x. x.index) same), sym (ap (λ x. x.keys) same), sym (ap (λ x. x.values) same))

filled :
    (env : Env) (s : FceSchema) (records : List BuildRecord) (n : ℕ) (files : Files)
    → fill_direct env s records n ≡ ok files
    → (w : Written) × (write_keys_values env (forced s) records ≡ ok w)
      × (files.index ≡ slots_bytes (fill_slots records w.entries (replicate n empty_slot)))
      × (files.values ≡ w.values)
unfolding fill_direct
filled env s records n files h =
    let (w, m, f) =
      >>=-eq-ok (write_keys_values env (forced s) records)
        (λ w.
          finish_direct env s (length records) n w
            (slots_bytes (fill_slots records w.entries (replicate n empty_slot))))
        {b = files} (ground arith) in
    let (p, q, r) =
      finished env s (length records) n w
        (slots_bytes (fill_slots records w.entries (replicate n empty_slot))) f in
    (w, m, p, r)

-- What a successful freeze has passed and written.
frozen :
    (env : Env) (s : FceSchema) (records : List BuildRecord) (files : Files)
    → direct_records env s records ≡ ok files
    → (n : ℕ) × (All (λ r. (length r.key ≡ 8) × (rd64 r.key < n)) records)
      × (fill_direct env s records n ≡ ok files)
unfolding direct_records
frozen env s records files h =
    let (max_key, m, f) =
      >>=-eq-ok (greatest_key records 0)
        (λ max_key.
          let slots_count = (max_key + 1) % u64 in
          if not (length records == 0)
            && (ltb (length records * 4 % u64) slots_count
                && (bit_and s.user_flags flag_allow_sparse == 0))
          then err invalid_argument
          else if ltb ((u64 - 1) / 40 - 1) max_key
          then err out_of_memory
          else fill_direct env s records slots_count)
        {b = files} h in
    let (least, keys) = greatest_key-le records 0 max_key m in
    let small : max_key ≤ (u64 - 1) / 40 - 1 = ground arith in
    let size : (max_key + 1) % u64 ≡ max_key + 1 = omega arith in
    (
      max_key + 1,
      All-mono (λ r. (length r.key ≡ 8) × (rd64 r.key ≤ max_key))
          (λ r. (length r.key ≡ 8) × (rd64 r.key < max_key + 1)) records
          (λ r k. (k.0, omega (arith, k.1))) keys,
      rw (← size) (ground arith),
    )

All-both :
    (P Q : BuildRecord → Type 0) (rs : List BuildRecord)
    → All P rs
    → All Q rs
    → All (λ r. P r × Q r) rs
All-both P Q [] h k = tt
All-both P Q (r ∷ rs) h k = ((h.0, k.0), All-both P Q rs h.1 k.1)

-- From the puts to a direct table and back, for every schema and every permutation that `qsort` may
-- choose: if the freeze of puts whose keys are bytes, with fewer than 2^64 bytes of keys and of
-- values, succeeds, then a lookup of any 64-bit number answers with the value of the last put
-- with the eight bytes of the number as key, or with "not found" if there was none.
pub freeze_direct-get_direct :
    (env : Env) (sort_records : Qsort cmp_build_by_key) (s : FceSchema) (records : List BuildRecord)
    (files : Files) (key : ℕ)
    → All (λ r. All IsByte r.key) records
    → keys_total records < u64
    → values_total records < u64
    → key < u64
    → freeze_direct env sort_records s records ≡ ok files
    → AnswersLatest records (le 8 key) (get_direct files.index files.values key)
unfolding freeze_direct
freeze_direct-get_direct env sort_records s records files key bytes a b small h =
    let allow : Bool = not (s.allow_duplicate_put == 0) in
    let (out, d, f) =
      >>=-eq-ok (dedupe_records env.malloc sort_records allow records) (direct_records env s)
        {b = files} h in
    let deduped = dedupe_records-IsDeduped env.malloc sort_records allow records out d in
    let (n, keys, g) = frozen env s out files f in
    let (w, m, p, q) = filled env s out n files g in
    let out_bytes : All (λ r. All IsByte r.key) out =
      All-mono (λ r. IsLatest r records) (λ r. All IsByte r.key) out
        (λ r l. All-In (λ x. All IsByte x.key) records bytes l.0) deduped.latest in
    let described =
      write_keys_values-DescribesAll env (forced s) out
        (omega (
          arith,
          total-dedupe_records env.malloc sort_records allow (λ r. length r.key) records out d,
        ))
        (omega (
          arith,
          total-dedupe_records env.malloc sort_records allow (λ r. length r.value) records out d,
        ))
        m in
    Answers→AnswersLatest records out (le 8 key) (get_direct files.index files.values key) deduped (
      rw (p, q)
        (get_direct-Answers (forced s) w.keys w.values out w.entries n key described
          (All-mono (λ r. All IsByte r.key × ((length r.key ≡ 8) × (rd64 r.key < n)))
            (λ r. All IsByte r.key × (length r.key ≡ 8) × (rd64 r.key < n)) out
            (λ r h. (h.0, h.1.0, h.1.1))
            (All-both (λ r. All IsByte r.key) (λ r. (length r.key ≡ 8) × (rd64 r.key < n)) out
              out_bytes keys))
          (omega arith)))

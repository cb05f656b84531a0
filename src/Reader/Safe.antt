-- ===== src/Reader/Safe.antt =====
-- What `validate_reader_files` of src/api/fce_reader_api.c guarantees for a sorted cache.
use fast_cache_engine.Bytes.Compare.{key_equal, range_ok}
use fast_cache_engine.Bytes.Range.{range_ok-le, range_ok_iff, slice}
use fast_cache_engine.Bytes.Words.{Bytes}
use fast_cache_engine.Common.{==_iff, Bool, Bool-cases, Option, Option-cases, ap, arith}
use fast_cache_engine.Common.{if◌then◌else◌, inl, inr, length, refl, some, suc, sym, true}
use fast_cache_engine.Common.{zero, ℕ, ◌%◌, ◌+◌, ◌-◌, ◌/◌, ◌<◌, ◌==◌, ◌∙◌, ◌≡◌, ◌≤◌, ◌⊎◌}
use fast_cache_engine.Entry.{SortedEntry, entry_at}
use fast_cache_engine.Entry.Order.{hash_below, hash_is}
use fast_cache_engine.Env.{Env}
use fast_cache_engine.Hash.{Hash128, hash_key}
use fast_cache_engine.Reader.{FceReader}
use fast_cache_engine.Reader.Validate.{each, guard, places_ok, validate_backend, validate_entry}
use fast_cache_engine.Reader.Validate.{validate_files, validate_reader_files, validate_sorted}
use fast_cache_engine.Schema.{FceSchema, backend_sorted_index}
use fast_cache_engine.Search.Safe.{lower_bound-Ends}
use fast_cache_engine.Sorted.{forced, get_sorted, scan, take_value}
use fast_cache_engine.Status.{>>-eq-ok, >>=-eq-ok, Result, err, fault, not_found, ok, ◌>>◌}
use mathlib.Core.Path.{subst}

each-all :
    (n i : ℕ) (test : ℕ → Result (Unit {0})) (j : ℕ)
    → each n i test ≡ ok tt
    → i ≤ j
    → j < i + n
    → test j ≡ ok tt
each-all zero i test j h a b = absurd (omega arith)
each-all (suc n) i test j h a b =
    let (u, first, rest) = >>=-eq-ok (test i) (λ _. each n (suc i) test) {b = tt} h in
    elim (Bool-cases (i == j)) [
      | inl e ↦
          let same : i ≡ j = (==_iff i j).0 e in
          subst (λ k. test k ≡ ok tt) same (first ∙ ap ok refl)
      | inr d ↦ each-all n (suc i) test j rest (ground arith) (omega arith)
    ]

-- The places of an entry, all inside.
abbrev pub Sound : FceReader → ℕ → Type 0
Sound r i =
    (e : SortedEntry) × (entry_at r.index_blob i ≡ some e)
    × (e.key_offset + e.key_len ≤ length r.keys_blob)
    × (e.value_offset + e.value_len ≤ length r.values_blob)

validate_entry-Sound : (r : FceReader) (i : ℕ) → validate_entry r i ≡ ok tt → Sound r i
unfolding validate_entry
validate_entry-Sound r i h = elim (Option-cases (entry_at r.index_blob i)) [
  | inl outside ↦ let faults : fault ≡ ok tt = rw (outside, validate_entry) at h in cc
  | inr (e, at) ↦
      let passes : guard (places_ok r e.key_offset e.key_len e.value_offset e.value_len) ≡ ok tt =
        rw (at, validate_entry) at h in
      (
        e,
        at,
        range_ok-le e.key_offset e.key_len (length r.keys_blob) (ground arith),
        range_ok-le e.value_offset e.value_len (length r.values_blob) (ground arith),
      )
]

validate_sorted-Sound :
    (r : FceReader) → validate_sorted r ≡ ok tt → (i : ℕ) → i < length r.index_blob / 48 → Sound r i
unfolding validate_sorted
validate_sorted-Sound r h i l =
    let n = length r.index_blob / 48 in
    let tests = each n 0 (validate_entry r) in
    let counted : tests ≡ ok tt =
      >>-eq-ok (guard (r.manifest.index_size % 48 == 0) >> guard (n == r.manifest.record_count))
        tests {b = tt} h in
    validate_entry-Sound r i (each-all n 0 (validate_entry r) i counted (omega arith) (omega arith))

-- A value or "not found".
abbrev pub IsAnswer : Result Bytes → Type 0
IsAnswer res = ((v : Bytes) × (res ≡ ok v)) ⊎ (res ≡ err not_found)

module _ (r : FceReader) (sound : (i : ℕ) → i < length r.index_blob / 48 → Sound r i) where
  scan_step :
      (fuel i : ℕ) (h : Hash128) (key : Bytes) (e : SortedEntry)
      → entry_at r.index_blob i ≡ some e
      → scan (suc fuel) r.index_blob r.keys_blob r.values_blob h key i ≡ (
          if hash_is e h
          then (if key_equal r.keys_blob e.key_offset e.key_len key
              then take_value r.values_blob e
              else scan fuel r.index_blob r.keys_blob r.values_blob h key (suc i))
          else err not_found)
  unfolding scan
  scan_step fuel i h key e at = rw (at, scan) refl

  value_IsAnswer :
      (e : SortedEntry)
      → e.value_offset + e.value_len ≤ length r.values_blob
      → IsAnswer (take_value r.values_blob e)
  unfolding take_value
  value_IsAnswer e v =
      let fits : range_ok e.value_offset e.value_len (length r.values_blob) ≡ true =
        (range_ok_iff e.value_offset e.value_len (length r.values_blob)).1 v in
      rw fits (inl (slice r.values_blob e.value_offset e.value_len, refl))

  scan-IsAnswer :
      (fuel i : ℕ) (h : Hash128) (key : Bytes)
      → i + fuel ≤ length r.index_blob / 48
      → IsAnswer (scan fuel r.index_blob r.keys_blob r.values_blob h key i)
  scan-IsAnswer zero i h key l = inr (unfold scan in refl)
  scan-IsAnswer (suc fuel) i h key l =
      let (e, at, k, v) = sound i (omega arith) in
      subst IsAnswer (sym (scan_step fuel i h key e at)) (elim (Bool-cases (hash_is e h)) [
        | inr b ↦ rw b (inr refl)
        | inl b ↦ elim (Bool-cases (key_equal r.keys_blob e.key_offset e.key_len key)) [
          | inl m ↦ rw (b, m) (value_IsAnswer e v)
          | inr m ↦ rw (b, m) (scan-IsAnswer fuel (suc i) h key (omega arith))
        ]
      ])

  get_sorted-IsAnswer :
      (force : Bool) (key : Bytes)
      → IsAnswer (get_sorted force r.index_blob r.keys_blob r.values_blob key)
  unfolding get_sorted
  get_sorted-IsAnswer force key =
      let n = length r.index_blob / 48 in
      let h : Hash128 = hash_key force key in
      let (lo, p, q) =
        lower_bound-Ends (entry_at r.index_blob) (λ e. hash_below e h) n
          (λ i l. let (e, at, k, v) = sound i l in (e, at)) n 0 n (omega arith) (omega arith)
          (omega arith) in
      rw p (scan-IsAnswer (n - lo) lo h key (omega arith))

-- Every entry of a validated sorted cache lies inside.
pub validate_reader_files-Sound :
    (env : Env) (r : FceReader) (expected : Option FceSchema)
    → r.manifest.backend_kind ≡ backend_sorted_index
    → validate_reader_files env r expected ≡ ok tt
    → (i : ℕ) → i < length r.index_blob / 48
    → Sound r i
unfolding validate_reader_files validate_backend
validate_reader_files-Sound env r expected e h =
    let last : validate_sorted r ≡ ok tt =
      rw e at (>>-eq-ok (validate_files env r expected) (validate_backend r) {b = tt} h) in
    validate_sorted-Sound r last

-- After a sorted cache has been validated, whatever its files hold, a lookup of any key is answered with
-- a value or with "not found": it finds no corruption, and reads nothing outside of the files.
pub validate_reader_files-get_sorted :
    (env : Env) (r : FceReader) (expected : Option FceSchema) (key : Bytes)
    → r.manifest.backend_kind ≡ backend_sorted_index
    → validate_reader_files env r expected ≡ ok tt
    → IsAnswer (get_sorted (forced r.schema) r.index_blob r.keys_blob r.values_blob key)
validate_reader_files-get_sorted env r expected key e h =
    get_sorted-IsAnswer r (validate_reader_files-Sound env r expected e h) (forced r.schema) key

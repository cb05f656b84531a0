-- ===== src/Reader/Range.antt =====
-- `fce_reader_range_scan` of src/api/fce_reader_api.c on a sorted cache.
use fast_cache_engine.Builder.{buffer}
use fast_cache_engine.Bytes.Compare.{range_ok}
use fast_cache_engine.Bytes.Lexical.{key_bytes_cmp-lex, lex}
use fast_cache_engine.Bytes.Range.{range_ok_iff, slice}
use fast_cache_engine.Bytes.Words.{Bytes}
use fast_cache_engine.Common.{==_iff, Bool, Bool-cases, In, List, Option, Option-cases}
use fast_cache_engine.Common.{[], ap, arith, false, here, if◌then◌else◌, inl, inr, length}
use fast_cache_engine.Common.{none, not, refl, some, suc, sym, there, true, zero, ℕ, ◌&&◌}
use fast_cache_engine.Common.{◌*◌, ◌+◌, ◌/◌, ◌<◌, ◌==◌, ◌↔◌, ◌∙◌, ◌∷◌, ◌≡◌, ◌≢◌, ◌≤◌, ◌⊎◌}
use fast_cache_engine.Entry.{SortedEntry, entry_at}
use fast_cache_engine.Env.{Env}
use Prim.Native.Nat.{Ordering}
use fast_cache_engine.Reader.{FceReader, plain}
use fast_cache_engine.Reader.Safe.{Sound, validate_reader_files-Sound}
use fast_cache_engine.Reader.Scan.{FceIterator, ScanEnv, fce_reader_range_scan, in_range, is_lt}
use fast_cache_engine.Reader.Scan.{range_matches, range_test, scan_with, select}
use fast_cache_engine.Reader.Validate.{validate_reader_files}
use fast_cache_engine.Schema.{FceSchema, backend_sorted_index}
use fast_cache_engine.Status.{Result, ok}

In-if :
    (j i : ℕ) (b : Bool) (xs : List ℕ)
    → In j (if b then i ∷ xs else xs)
    → ((j ≡ i) × (b ≡ true)) ⊎ In j xs
In-if j i true xs (here e) = inl (e, refl)
In-if j i true xs (there m) = inr m
In-if j i false xs m = inr m

module _ (test : ℕ → Result Bool) (f : ℕ → Bool) where
  -- The places from `i` on that `f` selects.
  abbrev selected : ℕ → ℕ → List ℕ
  selected zero i = []
  selected (suc n) i = if f i then i ∷ selected n (suc i) else selected n (suc i)

  select-selected :
      (n i : ℕ)
      → ((j : ℕ) → i ≤ j → j < i + n → test j ≡ ok (f j))
      → select n i test ≡ ok (selected n i)
  select-selected zero i h = refl
  select-selected (suc n) i h =
      rw
        (
          h i (omega arith) (omega arith),
          select-selected n (suc i) (λ j a b. h j (omega arith) (omega arith)),
        )
        refl

  In-selected : (n i j : ℕ) → In j (selected n i) → (i ≤ j) × (j < i + n) × (f j ≡ true)
  In-selected zero i j m = elim m [ ]
  In-selected (suc n) i j m = elim (In-if j i (f i) (selected n (suc i)) m) [
    | inl (e, p) ↦ (omega (arith, e), omega (arith, e), ap f e ∙ p)
    | inr k ↦ let (a, b, c) = In-selected n (suc i) j k in (omega arith, omega arith, c)
  ]

  selected-In : (n i j : ℕ) → i ≤ j → j < i + n → f j ≡ true → In j (selected n i)
  selected-In zero i j a b p = absurd (omega arith)
  selected-In (suc n) i j a b p = elim (Bool-cases (i == j)) [
    | inl e ↦
        let same : j ≡ i = sym ((==_iff i j).0 e) in
        let q : f i ≡ true = ap f (sym same) ∙ p in rw q (here same)
    | inr d ↦
        let rest = selected-In n (suc i) j (ground arith) (omega arith) p in
        elim (Bool-cases (f i)) [ inl q ↦ rw q (there rest) | inr q ↦ rw q rest ]
  ]

-- The place `i` of a sorted index has a key from `start` up to `end`, which is left out.
abbrev pub InRange : FceReader → Bytes → Bytes → ℕ → Type 0
InRange r start end i =
    (e : SortedEntry) × (entry_at r.index_blob i ≡ some e)
    × (lex (slice r.keys_blob e.key_offset e.key_len) start ≢ Ordering.lt)
    × (lex (slice r.keys_blob e.key_offset e.key_len) end ≡ Ordering.lt)

-- The test of the loop, on an entry.
unfoldable entry_passes : FceReader → Bytes → Bytes → Option SortedEntry → Bool
entry_passes r start end none = false
entry_passes r start end (some e) = in_range start end (slice r.keys_blob e.key_offset e.key_len)

in_range-lex :
    (start end key : Bytes)
    → (in_range start end key ≡ true)
      ↔ ((lex key start ≢ Ordering.lt) × (lex key end ≡ Ordering.lt))
unfolding in_range
in_range-lex start end key =
    rw (key_bytes_cmp-lex key start, key_bytes_cmp-lex key end) (both (lex key start) (lex key end))
  where
    both :
        (a b : Ordering)
        → ((not (is_lt a) && is_lt b) ≡ true) ↔ ((a ≢ Ordering.lt) × (b ≡ Ordering.lt))
    both Ordering.lt b = (λ h. cc, λ h. absurd (h.0 refl))
    both Ordering.eq Ordering.lt = (λ h. (λ e. cc, refl), λ h. refl)
    both Ordering.eq Ordering.eq = (λ h. cc, λ h. cc)
    both Ordering.eq Ordering.gt = (λ h. cc, λ h. cc)
    both Ordering.gt Ordering.lt = (λ h. (λ e. cc, refl), λ h. refl)
    both Ordering.gt Ordering.eq = (λ h. cc, λ h. cc)
    both Ordering.gt Ordering.gt = (λ h. cc, λ h. cc)

range_test-passes :
    (r : FceReader) (start end : Bytes) (i : ℕ)
    → Sound r i
    → range_test r start end i ≡ ok (entry_passes r start end (entry_at r.index_blob i))
unfolding range_test entry_passes
range_test-passes r start end i (e, at, k, v) =
    let fits : range_ok e.key_offset e.key_len (length r.keys_blob) ≡ true =
      (range_ok_iff e.key_offset e.key_len (length r.keys_blob)).1 k in
    rw (at, fits) refl

passes-InRange :
    (r : FceReader) (start end : Bytes) (i : ℕ)
    → entry_passes r start end (entry_at r.index_blob i) ≡ true
    → InRange r start end i
unfolding entry_passes
passes-InRange r start end i h = elim (Option-cases (entry_at r.index_blob i)) [
  | inl outside ↦ let fails : false ≡ true = rw outside at h in cc
  | inr (e, at) ↦
      let inside : in_range start end (slice r.keys_blob e.key_offset e.key_len) ≡ true =
        rw at at h in
      let bounds = (in_range-lex start end (slice r.keys_blob e.key_offset e.key_len)).0 inside in
      (e, at, bounds.0, bounds.1)
]

InRange-passes :
    (r : FceReader) (start end : Bytes) (i : ℕ)
    → InRange r start end i
    → entry_passes r start end (entry_at r.index_blob i) ≡ true
unfolding entry_passes
InRange-passes r start end i (e, at, a, b) =
    rw at ((in_range-lex start end (slice r.keys_blob e.key_offset e.key_len)).1 (a, b))

-- A range scan of a sorted cache whose files have been validated, without a key codec and with
-- memory for the iterator, succeeds, and matches exactly the places of the index whose keys lie,
-- lexicographically, from the start up to the end, which is left out.
pub fce_reader_range_scan-InRange :
    (env : Env) (e : ScanEnv) (r : FceReader) (expected : Option FceSchema) (start end : Bytes)
    (i : ℕ)
    → r.manifest.backend_kind ≡ backend_sorted_index
    → r.schema.backend ≡ backend_sorted_index
    → validate_reader_files env r expected ≡ ok tt
    → plain r.schema.key_codec ≡ true
    → e.created ≡ ok tt
    → ((n : ℕ) → e.array n ≡ true)
    → (it : FceIterator) × (fce_reader_range_scan e r (buffer start) (buffer end) ≡ ok it)
      × (it.pos ≡ 0)
      × (In i it.matches ↔ ((i < length r.index_blob / 48) × InRange r start end i))
unfolding fce_reader_range_scan scan_with range_matches entry_passes
fce_reader_range_scan-InRange env e r expected start end i kind backend valid codec made room =
    let n = length r.index_blob / 48 in
    let sound = validate_reader_files-Sound env r expected kind valid in
    let f : ℕ → Bool = λ j. entry_passes r start end (entry_at r.index_blob j) in
    let test = range_test r start end in
    let found =
      select-selected test f n 0
        (λ j a b. range_test-passes r start end j (sound j (omega arith))) in
    (
      record { matches = selected test f n 0; pos = 0; backend = r.schema.backend },
      rw (backend, codec, made, room ((if n == 0 then 1 else n) * 8), found) refl,
      refl,
      (
        λ m.
            let (a, b, p) = In-selected test f n 0 i m in
            (omega arith, passes-InRange r start end i p),
        λ h.
            selected-In test f n 0 i (omega arith) (omega (arith, h.0))
              (InRange-passes r start end i h.1),
      ),
    )

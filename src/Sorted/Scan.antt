-- ===== src/Sorted/Scan.antt =====
-- The linear scan of `get_sorted` (src/backends/fce_backend_sorted.c).
use fast_cache_engine.Bytes.Compare.{key_equal}
use fast_cache_engine.Bytes.Words.{Bytes}
use fast_cache_engine.Common.{All, All-by_place, Bool, Bool-cases, In, In-get_elem?, List}
use fast_cache_engine.Common.{arith, false, get_elem?, get_elem?-bound, if◌then◌else◌, inl}
use fast_cache_engine.Common.{inr, length, ltb, refl, some, suc, sym, true, zero, ℕ, ◌+◌}
use fast_cache_engine.Common.{◌<◌, ◌≡◌, ◌⊎◌}
use fast_cache_engine.Entry.{SortedEntry, cmp_sorted_entry, entry_at}
use fast_cache_engine.Entry.Order.{hash_above, hash_below, hash_is}
use fast_cache_engine.Hash.{Hash128}
use fast_cache_engine.Qsort.{Ascends, Ascends-get_elem?}
use fast_cache_engine.Search.Bound.{AboveFrom, BelowUpTo, Holds}
use fast_cache_engine.Sorted.{scan, take_value}
use fast_cache_engine.Status.{Result, err, not_found}
use mathlib.Core.Path.{subst}
use native.Mathlib.Nat.{le_refl}

module _ (index keys values : Bytes) (es : List SortedEntry) (h : Hash128) (key : Bytes)
    (holds : Holds (entry_at index) (λ e. hash_below e h) es)
    (sorted : Ascends cmp_sorted_entry es) where
  abbrev pub matches : SortedEntry → Bool
  matches e = key_equal keys e.key_offset e.key_len key

  -- What the search for the key gives: the value of an entry with the key, or none has it.
  abbrev pub IsFound : Result Bytes → Type 0
  IsFound r =
      ((e : SortedEntry) × In e es × (matches e ≡ true) × (r ≡ take_value values e))
      ⊎ (All (λ e. matches e ≡ false) es × (r ≡ err not_found))

  -- No entry before the place has the key.
  abbrev NoneBefore : ℕ → Type 0
  NoneBefore n = (i : ℕ) (a : SortedEntry) → i < n → get_elem? es i ≡ some a → matches a ≡ false

  scan_step :
      (fuel i : ℕ) (e : SortedEntry)
      → entry_at index i ≡ some e
      → scan (suc fuel) index keys values h key i ≡ (
          if hash_is e h
          then (if matches e
              then take_value values e
              else scan fuel index keys values h key (suc i))
          else err not_found)
  unfolding scan
  scan_step fuel i e at = rw (at, scan) refl

  module _ (same_hash : (e : SortedEntry) → In e es → matches e ≡ true → hash_is e h ≡ true) where
    -- The scan may stop at the first other hash.
    none_after :
        (i : ℕ) (e : SortedEntry)
        → get_elem? es i ≡ some e
        → hash_below e h ≡ false
        → hash_is e h ≡ false
        → NoneBefore i
        → All (λ a. matches a ≡ false) es
    none_after i e at above other before =
        All-by_place (λ a. matches a ≡ false) es
          (λ j a p. elim (Bool-cases (matches a)) [
            | inr q ↦ q
            | inl q ↦
                let hash = same_hash a (In-get_elem? es j p) q in
                elim (Bool-cases (ltb j i)) [
                  | inl k ↦ before j a (ground arith) p
                  | inr k ↦ elim (Bool-cases (ltb i j)) [
                    | inl l ↦
                        let contra =
                          hash_above e a h
                            (Ascends-get_elem? cmp_sorted_entry es i j sorted (ground arith) at p)
                            above other in
                        cc
                    | inr l ↦
                        let same : j ≡ i = ground arith in
                        let p2 : get_elem? es i ≡ some a =
                          subst (λ x. get_elem? es x ≡ some a) same p in
                        cc
                  ]
                ]
          ])

    before_next :
        (i : ℕ) (e : SortedEntry)
        → get_elem? es i ≡ some e
        → matches e ≡ false
        → NoneBefore i
        → NoneBefore (suc i)
    before_next i e at differs before j a l p = elim (Bool-cases (ltb j i)) [
      | inl k ↦ before j a (ground arith) p
      | inr k ↦
          let same : j ≡ i = ground arith in
          let p2 : get_elem? es i ≡ some a = subst (λ x. get_elem? es x ≡ some a) same p in cc
    ]

    pub scan-IsFound :
        (fuel i : ℕ)
        → i + fuel ≡ length es
        → AboveFrom (entry_at index) (λ e. hash_below e h) es i
        → NoneBefore i
        → IsFound (scan fuel index keys values h key i)
    scan-IsFound zero i f above before = inr (
      All-by_place (λ a. matches a ≡ false) es
          (λ j a p. before j a (omega (arith, get_elem?-bound es j p)) p),
      unfold scan in refl,
    )
    scan-IsFound (suc fuel) i f above before =
        let (e, at, read) = holds i (omega arith) in
        subst IsFound (sym (scan_step fuel i e read)) (elim (Bool-cases (hash_is e h)) [
          | inr b ↦ rw b (inr (none_after i e at (above i e (le_refl i) at) b before, refl))
          | inl b ↦ rw b (elim (Bool-cases (matches e)) [
            | inl m ↦ inl (e, In-get_elem? es i at, m, rw m refl)
            | inr m ↦ rw m (
                scan-IsFound fuel (suc i) (omega arith) (λ j a l. above j a (omega arith))
                  (before_next i e at m before))
          ])
        ])

    -- No entry below the hash has the key.
    pub none_below : (n : ℕ) → BelowUpTo (entry_at index) (λ e. hash_below e h) es n → NoneBefore n
    none_below n below i a l p = elim (Bool-cases (matches a)) [
      | inr q ↦ q
      | inl q ↦
          let hash = same_hash a (In-get_elem? es i p) q in
          let contra = below i a l p in absurd (not_both a hash contra)
    ]
      where
        not_both : (e : SortedEntry) → hash_is e h ≡ true → hash_below e h ≡ true → ⊥
        not_both e p1 p2 = unfold hash_is hash_below in ground arith

-- ===== src/Sorted/Lookup.antt =====
-- What `get_sorted` finds in the files of `freeze_sorted_like`
-- (src/backends/fce_backend_sorted.c).
use fast_cache_engine.Bytes.Compare.{key_equal, range_ok}
use fast_cache_engine.Bytes.Range.{key_equal_iff, range_ok_iff}
use fast_cache_engine.Bytes.Words.{Bytes}
use fast_cache_engine.Common.{All, Bool, In, List, [], arith, false, get_elem?-lt, here}
use fast_cache_engine.Common.{inl, inr, length, refl, sym, there, true, ◌-◌, ◌∙◌, ◌∷◌, ◌≡◌}
use fast_cache_engine.Common.{◌≢◌}
use fast_cache_engine.Entry.{SortedEntry, cmp_sorted_entry, entries_bytes, entry_at}
use fast_cache_engine.Entry.Order.{hash_below, hash_below_antitone, hash_is}
use fast_cache_engine.Entry.Reads.{FitsEntry, entry_at-entries_bytes, length-entries_bytes}
use fast_cache_engine.Hash.{Hash128, hash_key}
use fast_cache_engine.Qsort.{Ascends, Ascends-get_elem?, Perm-All, Perm-In, Perm-sym}
use fast_cache_engine.Record.{BuildRecord}
use fast_cache_engine.Record.Answers.{Answers}
use fast_cache_engine.Search.Bound.{Falls, Holds, lower_bound-IsBound}
use fast_cache_engine.Sorted.{get_sorted, take_value}
use fast_cache_engine.Sorted.Described.{Describes, DescribesAll}
use fast_cache_engine.Sorted.Scan.{matches, none_below, scan-IsFound}
use fast_cache_engine.Status.{ok}
use mathlib.Core.List.{Permᴰ}
use mathlib.Core.Path.{subst}

module _ (force : Bool) (keys values : Bytes) where
  -- The record of an entry.
  pub described :
      (rs : List BuildRecord) (es : List SortedEntry) {e : SortedEntry}
      → DescribesAll force keys values rs es
      → In e es
      → (r : BuildRecord) × In r rs × Describes force keys values r e
  described [] [] d m = elim m [ ]
  described [] (f ∷ es) d m = absurd d
  described (r ∷ rs) [] d m = elim m [ ]
  described (r ∷ rs) (f ∷ es) d (here p) =
      (r, here refl, subst (λ x. Describes force keys values r x) (sym p) d.0)
  described (r ∷ rs) (f ∷ es) d (there m) = let (s, i, k) = described rs es d.1 m in (s, there i, k)

  pub described_FitsEntry :
      (rs : List BuildRecord) (es : List SortedEntry)
      → DescribesAll force keys values rs es
      → All FitsEntry es
  described_FitsEntry [] [] d = tt
  described_FitsEntry [] (f ∷ es) d = absurd d
  described_FitsEntry (r ∷ rs) [] d = tt
  described_FitsEntry (r ∷ rs) (e ∷ es) d = (d.0.fits, described_FitsEntry rs es d.1)

  key_of_match :
      (r : BuildRecord) (e : SortedEntry) (key : Bytes)
      → Describes force keys values r e
      → key_equal keys e.key_offset e.key_len key ≡ true
      → r.key ≡ key
  key_of_match r e key d m = sym d.key ∙ ((key_equal_iff keys e.key_offset e.key_len key).0 m).1

  no_match :
      (key : Bytes) (rs : List BuildRecord) (es : List SortedEntry)
      → DescribesAll force keys values rs es
      → All (λ e. key_equal keys e.key_offset e.key_len key ≡ false) es
      → All (λ r. r.key ≢ key) rs
  no_match key [] [] d h = tt
  no_match key [] (e ∷ es) d h = tt
  no_match key (r ∷ rs) [] d h = absurd d
  no_match key (r ∷ rs) (e ∷ es) d h = (
    λ same.
        let found =
          (key_equal_iff keys e.key_offset e.key_len key).1 (d.0.key_fits, d.0.key ∙ same) in
        true_false (sym found ∙ h.0),
    no_match key rs es d.1 h.1,
  )
    where
      true_false : true ≢ false
      true_false e = cc

  value_of :
      (r : BuildRecord) (e : SortedEntry)
      → Describes force keys values r e
      → take_value values e ≡ ok r.value
  unfolding take_value
  value_of r e d = rw (range_of, d.value) refl
    where
      range_of : range_ok e.value_offset e.value_len (length values) ≡ true
      range_of = (range_ok_iff e.value_offset e.value_len (length values)).1 d.value_fits

  -- The entries may stand in any order that ascends.
  pub get_sorted-Answers :
      (rs : List BuildRecord) (es sorted : List SortedEntry) (key : Bytes)
      → DescribesAll force keys values rs es
      → Permᴰ sorted es
      → Ascends cmp_sorted_entry sorted
      → Answers rs key (get_sorted force (entries_bytes sorted) keys values key)
  unfolding get_sorted
  get_sorted-Answers rs es sorted key d perm asc =
      let fits : All FitsEntry sorted =
        Perm-All FitsEntry (Perm-sym perm) (described_FitsEntry rs es d) in
      let index : Bytes = entries_bytes sorted in
      let h : Hash128 = hash_key force key in
      let holds : Holds (entry_at index) (λ e. hash_below e h) sorted = λ i l.
        let (e, p) = get_elem?-lt sorted i l in (e, p, entry_at-entries_bytes sorted i fits p) in
      let falls : Falls (entry_at index) (λ e. hash_below e h) sorted = λ i j a b l p q k.
        hash_below_antitone a b h (Ascends-get_elem? cmp_sorted_entry sorted i j asc l p q) k in
      let same_hash : (e : SortedEntry)
          → In e sorted
          → matches index keys values sorted h key holds asc e ≡ true
          → hash_is e h ≡ true =
        λ e m k.
          let (r, i, c) = described rs es d (Perm-In perm m) in
          subst (λ x. hash_is e (hash_key force x) ≡ true) (key_of_match r e key c k) c.hash in
      let (lo, q, small, below, above) =
        lower_bound-IsBound (entry_at index) (λ e. hash_below e h) sorted holds falls in
      let found =
        scan-IsFound index keys values sorted h key holds asc same_hash (length sorted - lo) lo
          (omega arith) above
          (none_below index keys values sorted h key holds asc same_hash lo below) in
      rw (length-entries_bytes sorted, q)
        (elim found [
          | inl (e, m, k, v) ↦
              let (r, i, c) = described rs es d (Perm-In perm m) in
              inl (r, i, key_of_match r e key c k, v ∙ value_of r e c)
          | inr (others, v) ↦ inr (
            no_match key rs es d
                (Perm-All (λ e. key_equal keys e.key_offset e.key_len key ≡ false) perm others),
            v,
          )
        ])

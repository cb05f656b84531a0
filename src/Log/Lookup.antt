-- ===== src/Log/Lookup.antt =====
-- What `get_log` of src/backends/fce_backend_log.c finds.
use fast_cache_engine.Bytes.Compare.{key_equal, range_ok}
use fast_cache_engine.Bytes.Range.{key_equal_iff, range_ok_iff}
use fast_cache_engine.Bytes.Words.{Bytes}
use fast_cache_engine.Common.{All, All-at_drop, All-by_place, Bool, In, In-drop, In-get_elem?}
use fast_cache_engine.Common.{List, Option, [], arith, drop, false, get_elem?, get_elem?-drop}
use fast_cache_engine.Common.{get_elem?-lt, here, inl, inr, length, none, refl, some, suc}
use fast_cache_engine.Common.{sym, there, true, ℕ, ◌+◌, ◌∙◌, ◌∷◌, ◌≡◌, ◌≢◌, ◌≤◌, ◌⊎◌}
use fast_cache_engine.Hash.{Hash128, hash_key}
use fast_cache_engine.Log.{get_log, log_below, log_hash_is, newest, take_log_value}
use fast_cache_engine.Log.Index.{LogDescribesAll}
use fast_cache_engine.Log.Newest.{
  AtLeast, log_below_antitone, log_matches, log_not_both, newest-IsNewest,
}
use fast_cache_engine.Log.Replay.{LogDescribes}
use fast_cache_engine.Qsort.{Ascends, Ascends-drop, Ascends-get_elem?, Perm-All, Perm-In}
use fast_cache_engine.Record.{BuildRecord}
use fast_cache_engine.Record.Answers.{AnswersLatest}
use fast_cache_engine.Record.Log.{LogIndexEntry, cmp_log_index_entry}
use fast_cache_engine.Record.Numbered.{Numbered}
use fast_cache_engine.Search.Bound.{Falls, Holds, lower_bound-IsBound}
use fast_cache_engine.Status.{ok}
use mathlib.Core.List.{Permᴰ}
use mathlib.Core.Path.{subst}

-- Answers from the index of a log.
module _ (force : Bool) (log : Bytes) where
  -- What an entry says of a record.
  abbrev Same : BuildRecord → LogIndexEntry → Type 0
  Same r e = LogDescribes force log r.key r.value r.order e

  record_of :
      (rs : List BuildRecord) (es : List LogIndexEntry) (n : ℕ) {e : LogIndexEntry}
      → Numbered rs n
      → LogDescribesAll force log rs es n
      → In e es
      → (r : BuildRecord) × In r rs × Same r e
  record_of [] [] n num d m = elim m [ ]
  record_of [] (f ∷ es) n num d m = absurd d
  record_of (r ∷ rs) [] n num d m = elim m [ ]
  record_of (r ∷ rs) (f ∷ es) n num d (here p) = (
    r,
    here refl,
    subst (λ x. Same r x) (sym p)
        (subst (λ x. LogDescribes force log r.key r.value x f) (sym num.0) d.0),
  )
  record_of (r ∷ rs) (f ∷ es) n num d (there m) =
      let (s, i, k) = record_of rs es (suc n) num.1 d.1 m in (s, there i, k)

  -- What holds of all entries holds of what they say of all records.
  All-records :
      (P : LogIndexEntry → Type 0) (Q : BuildRecord → Type 0)
      → ((r : BuildRecord) (e : LogIndexEntry) → Same r e → P e → Q r)
      → (rs : List BuildRecord) (es : List LogIndexEntry) (n : ℕ) → Numbered rs n
      → LogDescribesAll force log rs es n
      → All P es
      → All Q rs
  All-records P Q f [] es n num d h = tt
  All-records P Q f (r ∷ rs) [] n num d h = absurd d
  All-records P Q f (r ∷ rs) (e ∷ es) n num d h = (
    f r e (subst (λ x. LogDescribes force log r.key r.value x e) (sym num.0) d.0) h.0,
    All-records P Q f rs es (suc n) num.1 d.1 h.1,
  )

  key_of_match :
      (r : BuildRecord) (e : LogIndexEntry) (key : Bytes)
      → Same r e
      → key_equal log e.key_offset e.key_len key ≡ true
      → r.key ≡ key
  key_of_match r e key d m =
      sym d.key_stored ∙ ((key_equal_iff log e.key_offset e.key_len key).0 m).1

  match_of_key :
      (r : BuildRecord) (e : LogIndexEntry) (key : Bytes)
      → Same r e
      → r.key ≡ key
      → key_equal log e.key_offset e.key_len key ≡ true
  match_of_key r e key d p =
      (key_equal_iff log e.key_offset e.key_len key).1 (d.key_fits, d.key_stored ∙ p)

  value_of :
      (r : BuildRecord) (e : LogIndexEntry) → Same r e → take_log_value log (some e) ≡ ok r.value
  unfolding take_log_value
  value_of r e d =
      let fits : range_ok e.value_offset e.value_len (length log) ≡ true =
        (range_ok_iff e.value_offset e.value_len (length log)).1 d.value_fits in
      rw (fits, d.value_stored) refl

  module _ (rs : List BuildRecord) (es sorted : List LogIndexEntry) (key : Bytes)
      (numbered : Numbered rs 0) (described : LogDescribesAll force log rs es 0)
      (perm : Permᴰ sorted es) where
    abbrev h : Hash128
    h = hash_key force key

    same_hash :
        (e : LogIndexEntry) → In e sorted → log_matches h log key e ≡ true → log_hash_is h e ≡ true
    same_hash e i m =
        let (r, j, d) = record_of rs es 0 numbered described (Perm-In perm i) in
        subst (λ k. log_hash_is (hash_key force k) e ≡ true) (key_of_match r e key d m) d.hash

    -- The newest of all entries is that of the last put.
    latest :
        (out : Option LogIndexEntry)
        → All (λ a. log_matches h log key a ≡ true → AtLeast a.order out) sorted
        → (out ≡ none)
          ⊎ ((e : LogIndexEntry) × In e sorted × (log_matches h log key e ≡ true) × (out ≡ some e))
        → AnswersLatest rs key (take_log_value log out)
    unfolding take_log_value
    latest out covers (inl p) = inr (
      All-records (λ a. log_matches h log key a ≡ true → AtLeast a.order out) (λ r. r.key ≢ key)
          (λ r e d c k. subst (λ o. AtLeast e.order o) p (c (match_of_key r e key d k))) rs es 0
          numbered described
          (Perm-All (λ a. log_matches h log key a ≡ true → AtLeast a.order out) perm covers),
      rw p refl,
    )
    latest out covers (inr (e, i, m, p)) =
        let (r, j, d) = record_of rs es 0 numbered described (Perm-In perm i) in
        let same = key_of_match r e key d m in
        inl (
          r,
          (
            j,
            All-records (λ a. log_matches h log key a ≡ true → AtLeast a.order out)
                (λ s. s.key ≡ r.key → s.order ≤ r.order)
                (λ s a ds c k.
                  let least : a.order ≤ e.order =
                    subst (λ o. AtLeast a.order o) p (c (match_of_key s a key ds (k ∙ same))) in
                  omega (arith, ds.place, d.place))
                rs es 0 numbered described
                (Perm-All (λ a. log_matches h log key a ≡ true → AtLeast a.order out) perm covers),
          ),
          same,
          rw p (value_of r e d),
        )

    -- A lookup of a key in the sorted index of a log answers with the value of the last record with
    -- the key, or that there is none.
    pub get_log-AnswersLatest :
        Ascends cmp_log_index_entry sorted → AnswersLatest rs key (get_log force log sorted key)
    unfolding get_log
    get_log-AnswersLatest asc =
        let holds : Holds (get_elem? sorted) (log_below h) sorted =
          λ i l. let (e, p) = get_elem?-lt sorted i l in (e, p, p) in
        let falls : Falls (get_elem? sorted) (log_below h) sorted = λ i j a b l p q k.
          log_below_antitone h a b (Ascends-get_elem? cmp_log_index_entry sorted i j asc l p q) k in
        let (lo, q, small, under, over) =
          lower_bound-IsBound (get_elem? sorted) (log_below h) sorted holds falls in
        let rest : List LogIndexEntry = drop lo sorted in
        let out : Option LogIndexEntry = newest h log key rest none in
        let (covers, keeps, from) =
          newest-IsNewest h log key rest none (λ e i. same_hash e (In-drop lo sorted i))
            (Ascends-drop cmp_log_index_entry lo sorted asc)
            (All-by_place (λ e. log_below h e ≡ false) rest
              (λ i e p. over (lo + i) e (omega arith) (sym (get_elem?-drop lo sorted i) ∙ p))) in
        let all_covered : All (λ a. log_matches h log key a ≡ true → AtLeast a.order out) sorted =
          All-at_drop (λ a. log_matches h log key a ≡ true → AtLeast a.order out) lo sorted
            (λ i a l p m.
              absurd (log_not_both h a (same_hash a (In-get_elem? sorted i p) m) (under i a l p)))
            covers in
        rw q (
          latest out all_covered
            (elim from [ inl p ↦ inl p | inr (e, i, m, p) ↦ inr (e, In-drop lo sorted i, m, p) ]))

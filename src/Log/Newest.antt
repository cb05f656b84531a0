-- ===== src/Log/Newest.antt =====
-- The second loop of `get_log` in src/backends/fce_backend_log.c, which looks for the newest entry.
use fast_cache_engine.Log.{newer}
use fast_cache_engine.Bytes.Compare.{key_equal}
use fast_cache_engine.Bytes.Words.{Bytes}
use fast_cache_engine.Common.{All, All-mono, Bool, Bool-cases, In, List, Option, [], arith}
use fast_cache_engine.Common.{false, here, if◌then◌else◌, inl, inr, ltb, ltb→le, none, refl}
use fast_cache_engine.Common.{some, sym, there, true, ℕ, ◌&&◌, ◌∙◌, ◌∷◌, ◌≡◌, ◌≢◌, ◌≤◌}
use fast_cache_engine.Common.{◌⊎◌}
use fast_cache_engine.Hash.{Hash128}
use fast_cache_engine.Log.{log_below, log_hash_is, newest}
use Prim.Native.Nat.{Ordering}
use fast_cache_engine.Qsort.{Ascends}
use fast_cache_engine.Record.Log.{LogIndexEntry, cmp_log_index_entry}
use mathlib.Core.Path.{subst}
use native.Mathlib.Nat.{le_refl}

pub log_below_antitone :
    (h : Hash128) (a b : LogIndexEntry)
    → cmp_log_index_entry a b ≢ Ordering.gt
    → log_below h b ≡ true
    → log_below h a ≡ true
unfolding cmp_log_index_entry log_below
log_below_antitone h a b c k = ground arith

log_above :
    (h : Hash128) (a b : LogIndexEntry)
    → cmp_log_index_entry a b ≢ Ordering.gt
    → log_below h a ≡ false
    → log_hash_is h a ≡ false
    → log_hash_is h b ≡ false
unfolding cmp_log_index_entry log_below log_hash_is
log_above h a b c k l = ground arith

pub log_not_both :
    (h : Hash128) (e : LogIndexEntry) → log_hash_is h e ≡ true → log_below h e ≡ true → ⊥
unfolding log_hash_is log_below
log_not_both h e p q = ground arith

-- There is an entry, and its number is at least `n`.
abbrev pub AtLeast : ℕ → Option LogIndexEntry → Type 0
AtLeast n none = ⊥
AtLeast n (some e) = n ≤ e.order

AtLeast-trans : (m n : ℕ) (o : Option LogIndexEntry) → m ≤ n → AtLeast n o → AtLeast m o
AtLeast-trans m n none l h = h
AtLeast-trans m n (some e) l h = omega arith

module _ (h : Hash128) (log key : Bytes) where
  abbrev pub log_matches : LogIndexEntry → Bool
  log_matches e = key_equal log e.key_offset e.key_len key

  -- What the loop makes of the best entry so far: the newest of it and of those with the key.
  abbrev pub IsNewest : List LogIndexEntry → Option LogIndexEntry → Option LogIndexEntry → Type 0
  IsNewest es best out =
      All (λ a. log_matches a ≡ true → AtLeast a.order out) es
      × ((n : ℕ) → AtLeast n best → AtLeast n out)
      × ((out ≡ best) ⊎ ((e : LogIndexEntry) × In e es × (log_matches e ≡ true) × (out ≡ some e)))

  -- One round.
  abbrev next : LogIndexEntry → Option LogIndexEntry → Option LogIndexEntry
  next e best = if log_matches e && newer e best then some e else best

  next_keeps :
      (e : LogIndexEntry) (best : Option LogIndexEntry) (n : ℕ)
      → AtLeast n best
      → AtLeast n (next e best)
  next_keeps e none n k = absurd k
  next_keeps e (some b) n k = elim (Bool-cases (log_matches e && newer e (some b))) [
    | inl t ↦ rw t (ground arith)
    | inr f ↦ rw f k
  ]

  next_covers :
      (e : LogIndexEntry) (best : Option LogIndexEntry)
      → log_matches e ≡ true
      → AtLeast e.order (next e best)
  next_covers e none m = rw m (le_refl e.order)
  next_covers e (some b) m = elim (Bool-cases (ltb b.order e.order)) [
    | inl t ↦ rw (m, t) (le_refl e.order)
    | inr f ↦ rw (m, f) (ltb→le b.order e.order f)
  ]

  next_cases :
      (e : LogIndexEntry) (best : Option LogIndexEntry)
      → (next e best ≡ best) ⊎ ((log_matches e ≡ true) × (next e best ≡ some e))
  next_cases e best = elim (Bool-cases (log_matches e && newer e best)) [
    | inl t ↦ inr (ground arith, rw t refl)
    | inr f ↦ inl (rw f refl)
  ]

  -- From the bound on, entries of another hash do not have the key.
  others :
      (es : List LogIndexEntry)
      → ((e : LogIndexEntry) → In e es → log_matches e ≡ true → log_hash_is h e ≡ true)
      → All (λ e. log_hash_is h e ≡ false) es
      → (o : Option LogIndexEntry) → All (λ a. log_matches a ≡ true → AtLeast a.order o) es
  others [] same hs o = tt
  others (e ∷ es) same hs o = (
    λ m. absurd (true_false (sym (same e (here refl) m) ∙ hs.0)),
    others es (λ a i. same a (there i)) hs.1 o,
  )
    where
      true_false : true ≢ false
      true_false p = cc

  newest_step :
      (e : LogIndexEntry) (es : List LogIndexEntry) (best : Option LogIndexEntry)
      → log_hash_is h e ≡ true
      → newest h log key (e ∷ es) best ≡ newest h log key es (next e best)
  unfolding newest
  newest_step e es best t = rw t refl

  newest_stop :
      (e : LogIndexEntry) (es : List LogIndexEntry) (best : Option LogIndexEntry)
      → log_hash_is h e ≡ false
      → newest h log key (e ∷ es) best ≡ best
  unfolding newest
  newest_stop e es best f = rw f refl

  pub newest-IsNewest :
      (es : List LogIndexEntry) (best : Option LogIndexEntry)
      → ((e : LogIndexEntry) → In e es → log_matches e ≡ true → log_hash_is h e ≡ true)
      → Ascends cmp_log_index_entry es
      → All (λ e. log_below h e ≡ false) es
      → IsNewest es best (newest h log key es best)
  unfolding newest
  newest-IsNewest [] best same asc above = (tt, λ n k. k, inl refl)
  newest-IsNewest (e ∷ es) best same asc above = elim (Bool-cases (log_hash_is h e)) [
    | inr f ↦
        let rest : All (λ a. log_hash_is h a ≡ false) es =
          All-mono (λ y. cmp_log_index_entry e y ≢ Ordering.gt) (λ a. log_hash_is h a ≡ false) es
            (λ a c. log_above h e a c above.0 f) asc.0 in
        subst (IsNewest (e ∷ es) best) (sym (newest_stop e es best f))
          (others (e ∷ es) same (f, rest) best, λ n k. k, inl refl)
    | inl t ↦
        let (covers, keeps, from) =
          newest-IsNewest es (next e best) (λ a i. same a (there i)) asc.1 above.1 in
        subst (IsNewest (e ∷ es) best) (sym (newest_step e es best t)) (
          (λ m. keeps e.order (next_covers e best m), covers),
          λ n k. keeps n (next_keeps e best n k),
          elim from [
            | inr (a, i, m, p) ↦ inr (a, there i, m, p)
            | inl p ↦ elim (next_cases e best) [
              | inl q ↦ inl (p ∙ q)
              | inr (m, q) ↦ inr (e, here refl, m, p ∙ q)
            ]
          ],
        )
  ]

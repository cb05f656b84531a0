-- ===== src/Search/Bound.antt =====
-- Where the binary search of src/backends/fce_backend_sorted.c and src/backends/fce_backend_log.c
-- ends.
use fast_cache_engine.Common.{
  Bool, Bool-cases, List, Option, arith, false, get_elem?, get_elem?-bound,
}
use fast_cache_engine.Common.{if◌then◌else◌, inl, inr, length, ltb, lt→ltb, refl, some}
use fast_cache_engine.Common.{suc, sym, true, zero, ℕ, ◌+◌, ◌-◌, ◌/◌, ◌<◌, ◌≡◌, ◌≤◌}
use fast_cache_engine.Search.{lower_bound}
use fast_cache_engine.Status.{Result, ok}
use mathlib.Core.Path.{subst}

module _ {E : Type 0} (read : ℕ → Option E) (below : E → Bool) (es : List E) where
  -- The reads give the entries.
  abbrev pub Holds : Type 0
  Holds = (i : ℕ) → i < length es → (e : E) × (get_elem? es i ≡ some e) × (read i ≡ some e)

  -- An entry before one that is below the hash is below it.
  abbrev pub Falls : Type 0
  Falls =
      (i j : ℕ) (a b : E)
      → i < j
      → get_elem? es i ≡ some a
      → get_elem? es j ≡ some b
      → below b ≡ true
      → below a ≡ true

  -- All entries before the place are below the hash, and none from it on.
  abbrev pub BelowUpTo : ℕ → Type 0
  BelowUpTo lo = (i : ℕ) (a : E) → i < lo → get_elem? es i ≡ some a → below a ≡ true

  abbrev pub AboveFrom : ℕ → Type 0
  AboveFrom hi = (i : ℕ) (a : E) → hi ≤ i → get_elem? es i ≡ some a → below a ≡ false

  abbrev pub IsBound : Result ℕ → Type 0
  IsBound r = (lo : ℕ) × (r ≡ ok lo) × (lo ≤ length es) × BelowUpTo lo × AboveFrom lo

  module _ (holds : Holds) (falls : Falls) where
    below_to : (mid : ℕ) (e : E) → get_elem? es mid ≡ some e → below e ≡ true → BelowUpTo (mid + 1)
    below_to mid e at under i a l p = elim (Bool-cases (ltb i mid)) [
      | inl k ↦ falls i mid a e (ground arith) p at under
      | inr k ↦
          let same : i ≡ mid = ground arith in
          let p2 : get_elem? es mid ≡ some a = subst (λ x. get_elem? es x ≡ some a) same p in cc
    ]

    above_to : (mid : ℕ) (e : E) → get_elem? es mid ≡ some e → below e ≡ false → AboveFrom mid
    above_to mid e at over i a l p = elim (Bool-cases (below a)) [
      | inl k ↦ elim (Bool-cases (ltb mid i)) [
        | inl q ↦ let contra = falls mid i e a (ground arith) at p k in cc
        | inr q ↦
            let same : i ≡ mid = ground arith in
            let p2 : get_elem? es mid ≡ some a = subst (λ x. get_elem? es x ≡ some a) same p in cc
      ]
      | inr k ↦ k
    ]

    lower_bound_step :
        (fuel lo hi : ℕ) (e : E)
        → lo < hi
        → read (lo + (hi - lo) / 2) ≡ some e
        → lower_bound read below (suc fuel) lo hi ≡ (
            if below e
            then lower_bound read below fuel (lo + (hi - lo) / 2 + 1) hi
            else lower_bound read below fuel lo (lo + (hi - lo) / 2))
    unfolding lower_bound
    lower_bound_step fuel lo hi e l at = rw (lt→ltb lo hi l, at) refl

    lower_bound_stop : (fuel lo hi : ℕ) → hi ≤ lo → lower_bound read below fuel lo hi ≡ ok lo
    unfolding lower_bound
    lower_bound_stop zero lo hi l = ground arith
    lower_bound_stop (suc fuel) lo hi l = ground arith

    lower_bound_from :
        (fuel lo hi : ℕ)
        → hi - lo ≤ fuel
        → lo ≤ hi
        → hi ≤ length es
        → BelowUpTo lo
        → AboveFrom hi
        → IsBound (lower_bound read below fuel lo hi)
    lower_bound_from zero lo hi f l n under over =
        let same : hi ≡ lo = omega arith in
        (
          lo,
          lower_bound_stop zero lo hi (omega arith),
          omega arith,
          under,
          subst AboveFrom same over,
        )
    lower_bound_from (suc fuel) lo hi f l n under over = elim (Bool-cases (ltb lo hi)) [
      | inr k ↦
          let same : hi ≡ lo = ground arith in
          (
            lo,
            lower_bound_stop (suc fuel) lo hi (omega arith),
            omega arith,
            under,
            subst AboveFrom same over,
          )
      | inl k ↦
          let mid = lo + (hi - lo) / 2 in
          let less : lo < hi = ground arith in
          let (e, at, found) = holds mid (omega arith) in
          subst IsBound (sym (lower_bound_step fuel lo hi e less found))
            (elim (Bool-cases (below e)) [
              | inl b ↦ rw b (
                  lower_bound_from fuel (mid + 1) hi (omega arith) (omega arith) n
                    (below_to mid e at b) over)
              | inr b ↦ rw b (
                  lower_bound_from fuel lo mid (omega arith) (omega arith) (omega arith) under
                    (above_to mid e at b))
            ])
    ]

    -- The search of the whole array ends, on the first entry that is not below.
    pub lower_bound-IsBound : IsBound (lower_bound read below (length es) 0 (length es))
    lower_bound-IsBound =
        lower_bound_from (length es) 0 (length es) (omega arith) (omega arith) (omega arith)
          (λ i a l p. absurd (omega arith))
          (λ i a l p. absurd (omega (arith, get_elem?-bound es i p)))

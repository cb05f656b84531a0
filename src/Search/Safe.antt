-- ===== src/Search/Safe.antt =====
-- The binary search of src/backends/fce_backend_sorted.c stays inside of the index.
use fast_cache_engine.Common.{Bool, Bool-cases, Option, arith, false, if◌then◌else◌, inl}
use fast_cache_engine.Common.{inr, ltb, ltb→lt, refl, some, suc, sym, true, zero, ℕ, ◌+◌}
use fast_cache_engine.Common.{◌-◌, ◌/◌, ◌<◌, ◌≡◌, ◌≤◌}
use fast_cache_engine.Search.{lower_bound}
use fast_cache_engine.Status.{Result, ok}
use mathlib.Core.Path.{subst}

module _ {E : Type 0} (read : ℕ → Option E) (below : E → Bool) (n : ℕ)
    (there_are : (i : ℕ) → i < n → (e : E) × (read i ≡ some e)) where
  -- The search ends on a place up to `hi`.
  abbrev pub Ends : ℕ → Result ℕ → Type 0
  Ends hi r = (lo : ℕ) × (r ≡ ok lo) × (lo ≤ hi)

  step :
      (fuel lo hi : ℕ) (e : E)
      → ltb lo hi ≡ true
      → read (lo + (hi - lo) / 2) ≡ some e
      → lower_bound read below (suc fuel) lo hi ≡ (
          if below e
          then lower_bound read below fuel (lo + (hi - lo) / 2 + 1) hi
          else lower_bound read below fuel lo (lo + (hi - lo) / 2))
  unfolding lower_bound
  step fuel lo hi e l at = rw (l, at) refl

  stop : (fuel lo hi : ℕ) → ltb lo hi ≡ false → lower_bound read below fuel lo hi ≡ ok lo
  unfolding lower_bound
  stop zero lo hi l = rw l refl
  stop (suc fuel) lo hi l = rw l refl

  -- In any order of the entries, the search ends without a read outside of the first `n`.
  pub lower_bound-Ends :
      (fuel lo hi : ℕ)
      → hi - lo ≤ fuel
      → lo ≤ hi
      → hi ≤ n
      → Ends hi (lower_bound read below fuel lo hi)
  lower_bound-Ends zero lo hi f l small = (lo, stop zero lo hi (ground arith), l)
  lower_bound-Ends (suc fuel) lo hi f l small = elim (Bool-cases (ltb lo hi)) [
    | inr k ↦ (lo, stop (suc fuel) lo hi k, l)
    | inl k ↦
        let less = ltb→lt lo hi k in
        let mid = lo + (hi - lo) / 2 in
        let (e, at) = there_are mid (omega arith) in
        subst (Ends hi) (sym (step fuel lo hi e k at)) (elim (Bool-cases (below e)) [
          | inl b ↦ rw b (lower_bound-Ends fuel (mid + 1) hi (omega arith) (omega arith) small)
          | inr b ↦
              let (x, p, q) =
                lower_bound-Ends fuel lo mid (omega arith) (omega arith) (omega arith) in
              rw b (x, p, omega arith)
        ])
  ]

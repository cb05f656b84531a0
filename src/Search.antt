-- ===== src/Search.antt =====
-- The binary search of `get_sorted` (src/backends/fce_backend_sorted.c) and of `get_log`
-- (src/backends/fce_backend_log.c), over the index of the one and the array of the other.
pub mod Bound
pub mod Safe
use fast_cache_engine.Common.{Bool, Option, if◌then◌else◌, ltb, none, some, suc, zero, ℕ}
use fast_cache_engine.Common.{◌+◌, ◌-◌, ◌/◌}
use fast_cache_engine.Status.{Result, fault, ok}

module _ {E : Type 0} (read : ℕ → Option E) (below : E → Bool) where
  -- The search for the first entry whose hash is not below the one that is looked up. The fuel is
  -- `hi - lo`; the entries are read where the C code reads them.
  unfoldable pub lower_bound : ℕ → ℕ → ℕ → Result ℕ
  lower_bound zero lo hi = if ltb lo hi then fault else ok lo
  lower_bound (suc fuel) lo hi =
      let mid = lo + (hi - lo) / 2 in
      let right = lower_bound fuel (mid + 1) hi in
      let left = lower_bound fuel lo mid in
      if ltb lo hi
      then elim (read mid) [ none ↦ fault | some e ↦ if below e then right else left ]
      else ok lo

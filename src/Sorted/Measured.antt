-- ===== src/Sorted/Measured.antt =====
-- The sizes that `write_keys_values` of src/core/fce_build_records.c returns.
use fast_cache_engine.Common.{Bool, List, [], ap, arith, length, length-append, refl, suc}
use fast_cache_engine.Common.{ℕ, ◌%◌, ◌+◌, ◌<◌, ◌∷◌, ◌≡◌}
use fast_cache_engine.Entry.Write.{Written, add_record, write_loop}
use fast_cache_engine.Env.{Env}
use fast_cache_engine.Hash.{u64}
use fast_cache_engine.Record.{BuildRecord}
use fast_cache_engine.Sorted.Described.{keys_total, values_total, write_loop_tests}
use fast_cache_engine.Status.{>>=-eq-ok, ok, ok-injective}
use mathlib.Core.Path.{subst}

-- What the array and the two files have in the end.
abbrev pub IsMeasured : List BuildRecord → ℕ → ℕ → Written → Type 0
IsMeasured rs ko vo w =
    (w.keys_size ≡ ko + length w.keys)
    × (w.values_size ≡ vo + length w.values)
    × (length w.entries ≡ length rs)
    × (w.keys_size ≡ ko + keys_total rs)
    × (w.values_size ≡ vo + values_total rs)

pub write_loop-IsMeasured :
    (env : Env) (force : Bool) (rs : List BuildRecord) (ko vo : ℕ) {w : Written}
    → ko + keys_total rs < u64
    → vo + values_total rs < u64
    → write_loop env force rs ko vo ≡ ok w
    → IsMeasured rs ko vo w
unfolding write_loop
write_loop-IsMeasured env force [] ko vo {w} a b h =
    subst (IsMeasured [] ko vo) (ok-injective h)
      (omega arith, omega arith, refl, omega arith, omega arith)
write_loop-IsMeasured env force (r ∷ rs) ko vo {w} a b h =
    let (c, d, g) = write_loop_tests env force r rs ko vo h in
    let kp : (ko + length r.key) % u64 ≡ ko + length r.key = omega arith in
    let vq : (vo + length r.value) % u64 ≡ vo + length r.value = omega arith in
    let (rest, m, f) =
      >>=-eq-ok (write_loop env force rs ((ko + length r.key) % u64) ((vo + length r.value) % u64))
        (λ rest. ok (add_record force r ko vo rest)) {b = w} g in
    let (p, q, n, kt, vt) =
      write_loop-IsMeasured env force rs (ko + length r.key) (vo + length r.value) (omega arith)
        (omega arith) (rw (kp, vq) at m) in
    subst (IsMeasured (r ∷ rs) ko vo) (ok-injective f)
      (added r rest p q n (omega arith) (omega arith))
  where
    added :
        (x : BuildRecord) (v : Written)
        → v.keys_size ≡ ko + length x.key + length v.keys
        → v.values_size ≡ vo + length x.value + length v.values
        → length v.entries ≡ length rs
        → v.keys_size ≡ ko + keys_total (x ∷ rs)
        → v.values_size ≡ vo + values_total (x ∷ rs)
        → IsMeasured (x ∷ rs) ko vo (add_record force x ko vo v)
    added x v p q n kt vt = (
      omega (arith, length-append {0} x.key v.keys),
      omega (arith, length-append {0} x.value v.values),
      ap suc n,
      kt,
      vt,
    )

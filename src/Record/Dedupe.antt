-- ===== src/Record/Dedupe.antt =====
-- `dedupe_records` of src/core/fce_build_records.c, whatever order the puts came in.
use fast_cache_engine.Common.{All-mono, Bool, Bool-cases, List, [], ap, arith, false, inl}
use fast_cache_engine.Common.{inr, length, ltb, refl, sym, true, ℕ, ◌*◌, ◌+◌, ◌==◌, ◌∙◌}
use fast_cache_engine.Common.{◌∷◌, ◌≡◌, ◌≢◌, ◌≤◌, ◌⊎◌}
use fast_cache_engine.Qsort.{Ascends, Perm-All, Perm-In, Qsort}
use fast_cache_engine.Record.{BuildRecord, cmp_build_by_key, dedupe_loop, dedupe_records}
use fast_cache_engine.Record.{dedupe_sorted, same_key, total}
use fast_cache_engine.Record.Latest.{
  HasKey, IsDeduped, IsLatest, ascends_by_key, dedupe_loop-IsDeduped,
}
use fast_cache_engine.Record.Latest.{differ_step, newer, same_fails, same_step}
use fast_cache_engine.Status.{>>=-eq-ok, err, invalid_argument, ok, ok-injective}
use mathlib.Core.List.{Permᴰ}
use mathlib.Core.Path.{subst}

-- What a deduplicated list is to the sorted records, it is to the records before the sort.
unsorted : {xs ys out : List BuildRecord} → Permᴰ xs ys → IsDeduped xs out → IsDeduped ys out
unsorted {xs} {ys} {out} p d = record {
  latest =
      All-mono (λ r. IsLatest r xs) (λ r. IsLatest r ys) out
        (λ r h. (Perm-In p h.0, Perm-All (λ s. s.key ≡ r.key → s.order ≤ r.order) p h.1)) d.latest;
  complete = Perm-All (λ s. HasKey s.key out) p d.complete;
  strict = d.strict;
}

dedupe_sorted-IsDeduped :
    (allow : Bool) (rs out : List BuildRecord)
    → Ascends cmp_build_by_key rs
    → dedupe_sorted allow rs ≡ ok out
    → IsDeduped rs out
unfolding dedupe_sorted
dedupe_sorted-IsDeduped allow [] out h e =
    subst (IsDeduped []) (ok-injective e) (record { latest = tt; complete = tt; strict = tt })
dedupe_sorted-IsDeduped allow (r ∷ rs) out h e =
    dedupe_loop-IsDeduped r r rs out allow (ascends_by_key (r ∷ rs) h) refl e

no_records : (rs : List BuildRecord) → length rs ≡ 0 → [] ≡ rs
no_records [] h = refl
no_records (r ∷ rs) h = absurd (omega arith)

total-Perm :
    (f : BuildRecord → ℕ) {xs ys : List BuildRecord} → Permᴰ xs ys → total f xs ≡ total f ys
total-Perm f Permᴰ.nil = refl
total-Perm f (Permᴰ.cons e p) = omega (arith, ap f e, total-Perm f p)
total-Perm f (Permᴰ.swap e g) = omega (arith, ap f e, ap f g)
total-Perm f (Permᴰ.trans p q) = total-Perm f p ∙ total-Perm f q

total-newer : (f : BuildRecord → ℕ) (a b : BuildRecord) → f (newer a b) ≤ f a + f b
total-newer f a b = elim (Bool-cases (ltb a.order b.order)) [
  | inl h ↦ rw h (omega arith)
  | inr h ↦ rw h (omega arith)
]

total-dedupe_loop :
    (f : BuildRecord → ℕ) (allow : Bool) (first latest : BuildRecord) (rs out : List BuildRecord)
    → dedupe_loop allow first latest rs ≡ ok out
    → total f out ≤ total f (latest ∷ rs)
unfolding dedupe_loop
total-dedupe_loop f allow first latest [] out e =
    subst (λ o. total f o ≤ total f (latest ∷ [])) (ok-injective e) (omega arith)
total-dedupe_loop f true first latest (r ∷ rs) out e = elim (Bool-cases (same_key r first)) [
  | inl t ↦ omega (
    arith,
    total-dedupe_loop f true first (newer latest r) rs out
        (sym (same_step first latest r rs t) ∙ e),
    total-newer f latest r,
  )
  | inr t ↦
      let (more, m, g) =
        >>=-eq-ok (dedupe_loop true r r rs) (λ o. ok (latest ∷ o)) {b = out}
          (sym (differ_step true first latest r rs t) ∙ e) in
      subst (λ o. total f o ≤ total f (latest ∷ r ∷ rs)) (ok-injective g)
        (omega (arith, total-dedupe_loop f true r r rs more m))
]
total-dedupe_loop f false first latest (r ∷ rs) out e = elim (Bool-cases (same_key r first)) [
  | inl t ↦ absurd (err≢ok (sym (same_fails first latest r rs t) ∙ e))
  | inr t ↦
      let (more, m, g) =
        >>=-eq-ok (dedupe_loop false r r rs) (λ o. ok (latest ∷ o)) {b = out}
          (sym (differ_step false first latest r rs t) ∙ e) in
      subst (λ o. total f o ≤ total f (latest ∷ r ∷ rs)) (ok-injective g)
        (omega (arith, total-dedupe_loop f false r r rs more m))
]
  where
    err≢ok : {o : List BuildRecord} → err invalid_argument ≢ ok o
    err≢ok q = cc

total-dedupe_sorted :
    (f : BuildRecord → ℕ) (allow : Bool) (rs out : List BuildRecord)
    → dedupe_sorted allow rs ≡ ok out
    → total f out ≤ total f rs
unfolding dedupe_sorted
total-dedupe_sorted f allow [] out e = subst (λ o. total f o ≤ 0) (ok-injective e) (omega arith)
total-dedupe_sorted f allow (r ∷ rs) out e = total-dedupe_loop f allow r r rs out e

module _ (malloc : ℕ → ℕ → Bool) (qsort : Qsort cmp_build_by_key) (allow : Bool) where
  sorted_or_empty :
      (records out : List BuildRecord)
      → dedupe_records malloc qsort allow records ≡ ok out
      → ((length records ≡ 0) × ([] ≡ out)) ⊎ (dedupe_sorted allow (qsort.sort records) ≡ ok out)
  unfolding dedupe_records
  sorted_or_empty records out e = ground arith

  -- Whenever `dedupe_records` succeeds, its result has, in strictly ascending order of the keys, exactly one
  -- record for each key that was put, and this is the last one put with that key.
  pub dedupe_records-IsDeduped :
      (records out : List BuildRecord)
      → dedupe_records malloc qsort allow records ≡ ok out
      → IsDeduped records out
  dedupe_records-IsDeduped records out e = elim (sorted_or_empty records out e) [
    | inl (h, g) ↦
        subst (λ rs. IsDeduped rs out) (no_records records h)
          (subst (IsDeduped []) g (record { latest = tt; complete = tt; strict = tt }))
    | inr g ↦
        unsorted (qsort.permutes records)
          (dedupe_sorted-IsDeduped allow (qsort.sort records) out (qsort.ascends records) g)
  ]

  -- The result is no larger than the records, whatever is added up.
  pub total-dedupe_records :
      (f : BuildRecord → ℕ) (records out : List BuildRecord)
      → dedupe_records malloc qsort allow records ≡ ok out
      → total f out ≤ total f records
  total-dedupe_records f records out e = elim (sorted_or_empty records out e) [
    | inl (h, g) ↦ subst (λ o. total f o ≤ total f records) g (omega arith)
    | inr g ↦ omega (
      arith,
      total-dedupe_sorted f allow (qsort.sort records) out g,
      total-Perm f (qsort.permutes records),
    )
  ]

dedupe_loop_total :
    (first latest : BuildRecord) (rs : List BuildRecord)
    → (out : List BuildRecord) × (dedupe_loop true first latest rs ≡ ok out)
unfolding dedupe_loop
dedupe_loop_total first latest [] = (latest ∷ [], refl)
dedupe_loop_total first latest (r ∷ rs) = elim (Bool-cases (same_key r first)) [
  | inl t ↦
      let (out, e) = dedupe_loop_total first (newer latest r) rs in
      (out, same_step first latest r rs t ∙ e)
  | inr t ↦
      let (out, e) = dedupe_loop_total r r rs in
      (latest ∷ out, differ_step true first latest r rs t ∙ rw e refl)
]

-- With duplicate puts allowed and memory at hand, `dedupe_records` succeeds for all records.
pub dedupe_records_total :
    (malloc : ℕ → ℕ → Bool) (qsort : Qsort cmp_build_by_key) (records : List BuildRecord)
    → ((i n : ℕ) → malloc i n ≡ true)
    → (out : List BuildRecord) × (dedupe_records malloc qsort true records ≡ ok out)
unfolding dedupe_records dedupe_sorted
dedupe_records_total malloc qsort records enough = elim (Bool-cases (length records == 0)) [
  | inl h ↦ ([], rw h refl)
  | inr h ↦
      let (out, e) = sorted_total (qsort.sort records) in
      (out, rw (h, enough 0 (length records * 40), enough 1 (length records * 40)) e)
]
  where
    sorted_total :
        (rs : List BuildRecord) → (out : List BuildRecord) × (dedupe_sorted true rs ≡ ok out)
    sorted_total [] = ([], refl)
    sorted_total (r ∷ rs) = dedupe_loop_total r r rs

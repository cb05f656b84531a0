-- ===== src/Direct/Fill.antt =====
-- The loops of `freeze_direct` (src/backends/fce_backend_direct.c) over the records.
use fast_cache_engine.Bytes.Words.{Bytes, Fits, IsByte, le, le-un_le, rd64, un_le, un_le-Fits}
use fast_cache_engine.Common.{==_ne, All, All-set, Bool, Bool-cases, In, List, [], arith}
use fast_cache_engine.Common.{get_or, get_or-set_ne, get_or-set_self, here, if◌then◌else◌}
use fast_cache_engine.Common.{inl, inr, length, length-set, ltb, refl, set, take, take-all}
use fast_cache_engine.Common.{there, ℕ, ◌<◌, ◌==◌, ◌∙◌, ◌∷◌, ◌≡◌, ◌≢◌, ◌≤◌, ◌⊎◌}
use fast_cache_engine.Direct.{DirectSlot, empty_slot, fill_slots, full_slot, greatest_key}
use fast_cache_engine.Direct.Slots.{FitsSlot}
use fast_cache_engine.Entry.{SortedEntry}
use fast_cache_engine.Record.{BuildRecord}
use fast_cache_engine.Sorted.Described.{Describes, DescribesAll}
use fast_cache_engine.Status.{ok, ok-injective}
use mathlib.Core.Path.{subst}

-- The first loop passes records with keys of eight bytes only, and finds a bound of them.
pub greatest_key-le :
    (rs : List BuildRecord) (least max_key : ℕ)
    → greatest_key rs least ≡ ok max_key
    → (least ≤ max_key) × All (λ r. (length r.key ≡ 8) × (rd64 r.key ≤ max_key)) rs
unfolding greatest_key
greatest_key-le [] least max_key h =
    let same : least ≡ max_key = ok-injective h in (omega arith, tt)
greatest_key-le (r ∷ rs) least max_key h =
    let (eight, rest) = passed r rs least max_key h in
    let (le_max, others) =
      greatest_key-le rs (if ltb least (rd64 r.key) then rd64 r.key else least) max_key rest in
    (ground arith, ((eight, ground arith), others))
  where
    passed :
        (r : BuildRecord) (rs : List BuildRecord) (least max_key : ℕ)
        → greatest_key (r ∷ rs) least ≡ ok max_key
        → (length r.key ≡ 8)
          × (greatest_key rs (if ltb least (rd64 r.key) then rd64 r.key else least) ≡ ok max_key)
    passed r rs least max_key h = (ground arith, ground arith)

pub length-fill_slots :
    (rs : List BuildRecord) (es : List SortedEntry) (slots : List DirectSlot)
    → length (fill_slots rs es slots) ≡ length slots
unfolding fill_slots
length-fill_slots [] es slots = refl
length-fill_slots (r ∷ rs) [] slots = refl
length-fill_slots (r ∷ rs) (e ∷ es) slots =
    length-fill_slots rs es (set slots (rd64 r.key) (full_slot r e))
    ∙ length-set slots (rd64 r.key) (full_slot r e)

-- A slot belongs to a record with its number, or it is as it was and no record has the number.
abbrev pub IsSlot : Bool → Bytes → Bytes → List BuildRecord → ℕ → DirectSlot → DirectSlot → Type 0
IsSlot force keys values rs k before slot =
    ((r : BuildRecord) × (e : SortedEntry) × In r rs
      × (rd64 r.key ≡ k)
      × Describes force keys values r e
      × (slot ≡ full_slot r e))
    ⊎ (All (λ r. rd64 r.key ≢ k) rs × (slot ≡ before))

pub fill_slots-IsSlot :
    (force : Bool) (keys values : Bytes) (rs : List BuildRecord) (es : List SortedEntry)
    (slots : List DirectSlot) (k : ℕ)
    → DescribesAll force keys values rs es
    → k < length slots
    → IsSlot force keys values rs k
        (get_or slots k empty_slot)
        (get_or (fill_slots rs es slots) k empty_slot)
unfolding fill_slots
fill_slots-IsSlot force keys values [] [] slots k d h = inr (tt, refl)
fill_slots-IsSlot force keys values [] (e ∷ es) slots k d h = absurd d
fill_slots-IsSlot force keys values (r ∷ rs) [] slots k d h = absurd d
fill_slots-IsSlot force keys values (r ∷ rs) (e ∷ es) slots k d h =
    let next = set slots (rd64 r.key) (full_slot r e) in
    elim (fill_slots-IsSlot force keys values rs es next k d.1
      (omega (arith, length-set slots (rd64 r.key) (full_slot r e)))) [
        | inl (s, f, m, p, q, g) ↦ inl (s, f, there m, p, q, g)
        | inr (others, g) ↦ elim (Bool-cases (rd64 r.key == k)) [
          | inl t ↦
              let same : rd64 r.key ≡ k = ground arith in
              inl (
                r,
                e,
                here refl,
                same,
                d.0,
                g
                    ∙ subst (λ j. get_or next j empty_slot ≡ full_slot r e) same
                        (get_or-set_self slots (rd64 r.key) (full_slot r e) empty_slot
                          (omega arith)),
              )
          | inr t ↦
              let other : rd64 r.key ≢ k = ==_ne (rd64 r.key) k t in
              inr (
                (other, others),
                g ∙ get_or-set_ne slots (rd64 r.key) k (full_slot r e) empty_slot other,
              )
        ]
      ]

-- A key of eight bytes is its number, written in bytes.
pub rd64-key : (key : Bytes) → All IsByte key → length key ≡ 8 → le 8 (rd64 key) ≡ key
rd64-key key bytes eight =
    let whole : take 8 key ≡ key = subst (λ n. take n key ≡ key) eight (take-all key) in
    rw whole (subst (λ n. le n (un_le key) ≡ key) eight (le-un_le key bytes))

rd64-Fits : (key : Bytes) → All IsByte key → length key ≡ 8 → Fits 8 (rd64 key)
rd64-Fits key bytes eight =
    let whole : take 8 key ≡ key = subst (λ n. take n key ≡ key) eight (take-all key) in
    rw whole (subst (λ n. Fits n (un_le key)) eight (un_le-Fits key bytes))

fits_full :
    (force : Bool) (keys values : Bytes) (r : BuildRecord) (e : SortedEntry)
    → All IsByte r.key
    → length r.key ≡ 8
    → Describes force keys values r e
    → FitsSlot (full_slot r e)
fits_full force keys values r e bytes eight d =
    let (lo, (hi, (ko, (kl, (zero_field, (vo, (vl, rest))))))) = d.fits in
    (refl, (refl, (rd64-Fits r.key bytes eight, (ko, (kl, (vl, (vo, tt)))))))

pub fill_slots-fits :
    (force : Bool) (keys values : Bytes) (rs : List BuildRecord) (es : List SortedEntry)
    (slots : List DirectSlot)
    → DescribesAll force keys values rs es
    → All (λ r. All IsByte r.key × (length r.key ≡ 8)) rs
    → All FitsSlot slots
    → All FitsSlot (fill_slots rs es slots)
unfolding fill_slots
fill_slots-fits force keys values [] [] slots d b h = h
fill_slots-fits force keys values [] (e ∷ es) slots d b h = absurd d
fill_slots-fits force keys values (r ∷ rs) [] slots d b h = absurd d
fill_slots-fits force keys values (r ∷ rs) (e ∷ es) slots d b h =
    fill_slots-fits force keys values rs es (set slots (rd64 r.key) (full_slot r e)) d.1 b.1 (
      All-set FitsSlot slots (rd64 r.key) (full_slot r e) h
        (fits_full force keys values r e b.0.0 b.0.1 d.0))

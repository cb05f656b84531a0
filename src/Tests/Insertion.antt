-- ===== src/Tests/Insertion.antt =====
-- A sort that does what the program relies on of the C library's `qsort`.
use fast_cache_engine.Bytes.Lexical.{lex, lex-flip, lex_eq, lex_trans}
use fast_cache_engine.Bytes.Words.{Bytes}
use fast_cache_engine.Common.{All-mono, Bool, Bool-cases, List, [], ap, arith, false, if◌then◌else◌}
use fast_cache_engine.Common.{inl, inr, refl, sym, true, ◌∷◌, ◌≡◌, ◌≢◌}
use fast_cache_engine.Entry.{SortedEntry, cmp_sorted_entry}
use Prim.Native.Nat.{Ordering}
use fast_cache_engine.Qsort.{Ascends, Perm-All, Perm-sym, Qsort}
use fast_cache_engine.Record.{BuildRecord, cmp_build_by_key}
use fast_cache_engine.Record.Log.{LogIndexEntry, cmp_log_index_entry}
use fast_cache_engine.Record.Order.{cmp_build_by_key-lex}
use mathlib.Core.List.{Permᴰ}

module _ {A : Type 0} (cmp : A → A → Ordering)
    (flips : (x y : A) → cmp x y ≡ Ordering.gt → cmp y x ≢ Ordering.gt)
    (trans : (x y z : A)
      → cmp x y ≢ Ordering.gt
      → cmp y z ≢ Ordering.gt
      → cmp x z ≢ Ordering.gt) where
  abbrev pub after : Ordering → Bool
  after Ordering.gt = true
  after _ = false

  after→gt : (o : Ordering) → after o ≡ true → o ≡ Ordering.gt
  after→gt Ordering.lt h = cc
  after→gt Ordering.eq h = cc
  after→gt Ordering.gt h = refl

  after→not_gt : (o : Ordering) → after o ≡ false → o ≢ Ordering.gt
  after→not_gt Ordering.lt h e = cc
  after→not_gt Ordering.eq h e = cc
  after→not_gt Ordering.gt h e = cc

  abbrev pub insert : A → List A → List A
  insert x [] = x ∷ []
  insert x (y ∷ ys) = let rest = insert x ys in if after (cmp x y) then y ∷ rest else x ∷ y ∷ ys

  abbrev pub insertion_sort : List A → List A
  insertion_sort [] = []
  insertion_sort (x ∷ xs) = insert x (insertion_sort xs)

  insert_permutes : (x : A) (ys : List A) → Permᴰ (insert x ys) (x ∷ ys)
  insert_permutes x [] = Permᴰ.cons refl Permᴰ.nil
  insert_permutes x (y ∷ ys) = elim (Bool-cases (after (cmp x y))) [
    | inl h ↦ rw h (Permᴰ.trans (Permᴰ.cons refl (insert_permutes x ys)) (Permᴰ.swap refl refl))
    | inr h ↦ rw h (Permᴰ.cons refl (Permᴰ.cons refl (all_same ys)))
  ]
    where
      all_same : (zs : List A) → Permᴰ zs zs
      all_same [] = Permᴰ.nil
      all_same (z ∷ zs) = Permᴰ.cons refl (all_same zs)

  pub sort_permutes : (xs : List A) → Permᴰ (insertion_sort xs) xs
  sort_permutes [] = Permᴰ.nil
  sort_permutes (x ∷ xs) =
      Permᴰ.trans (insert_permutes x (insertion_sort xs)) (Permᴰ.cons refl (sort_permutes xs))

  insert-Ascends : (x : A) (ys : List A) → Ascends cmp ys → Ascends cmp (insert x ys)
  insert-Ascends x [] h = (tt, tt)
  insert-Ascends x (y ∷ ys) h = elim (Bool-cases (after (cmp x y))) [
    | inl k ↦ rw k (
      Perm-All (λ z. cmp y z ≢ Ordering.gt) (Perm-sym (insert_permutes x ys))
          (flips x y (after→gt (cmp x y) k), h.0),
      insert-Ascends x ys h.1,
    )
    | inr k ↦
        let first = after→not_gt (cmp x y) k in
        rw k (
          (
            first,
            All-mono (λ z. cmp y z ≢ Ordering.gt) (λ z. cmp x z ≢ Ordering.gt) ys
                (λ z. trans x y z first) h.0,
          ),
          h,
        )
  ]

  pub sort-Ascends : (xs : List A) → Ascends cmp (insertion_sort xs)
  sort-Ascends [] = tt
  sort-Ascends (x ∷ xs) = insert-Ascends x (insertion_sort xs) (sort-Ascends xs)

  abbrev pub insertion_qsort : Qsort cmp
  insertion_qsort = record {
    sort = insertion_sort;
    permutes = sort_permutes;
    ascends = sort-Ascends;
  }

pub entry_flips :
    (x y : SortedEntry) → cmp_sorted_entry x y ≡ Ordering.gt → cmp_sorted_entry y x ≢ Ordering.gt
unfolding cmp_sorted_entry
entry_flips x y h k = ground arith

pub entry_trans :
    (x y z : SortedEntry)
    → cmp_sorted_entry x y ≢ Ordering.gt
    → cmp_sorted_entry y z ≢ Ordering.gt
    → cmp_sorted_entry x z ≢ Ordering.gt
unfolding cmp_sorted_entry
entry_trans x y z h k l = ground arith

abbrev pub entry_qsort : Qsort cmp_sorted_entry
entry_qsort = insertion_qsort cmp_sorted_entry entry_flips entry_trans

pub build_flips :
    (x y : BuildRecord) → cmp_build_by_key x y ≡ Ordering.gt → cmp_build_by_key y x ≢ Ordering.gt
build_flips x y h k =
    ground (arith, cmp_build_by_key-lex x y, cmp_build_by_key-lex y x, lex-flip x.key y.key)

lex_eq_left : (a b c : Bytes) → lex a b ≡ Ordering.eq → lex a c ≡ lex b c
lex_eq_left a b c h = ap (λ t. lex t c) (lex_eq a b h)

lex_eq_right : (a b c : Bytes) → lex b c ≡ Ordering.eq → lex a c ≡ lex a b
lex_eq_right a b c h = ap (lex a) (sym (lex_eq b c h))

pub build_trans :
    (x y z : BuildRecord)
    → cmp_build_by_key x y ≢ Ordering.gt
    → cmp_build_by_key y z ≢ Ordering.gt
    → cmp_build_by_key x z ≢ Ordering.gt
build_trans x y z h k l = ground (
  arith,
  cmp_build_by_key-lex x y,
  cmp_build_by_key-lex y z,
  cmp_build_by_key-lex x z,
  lex_trans x.key y.key z.key,
  lex_eq_left x.key y.key z.key,
  lex_eq_right x.key y.key z.key,
)

abbrev pub build_qsort : Qsort cmp_build_by_key
build_qsort = insertion_qsort cmp_build_by_key build_flips build_trans

pub log_flips :
    (x y : LogIndexEntry)
    → cmp_log_index_entry x y ≡ Ordering.gt
    → cmp_log_index_entry y x ≢ Ordering.gt
unfolding cmp_log_index_entry
log_flips x y h k = ground arith

pub log_trans :
    (x y z : LogIndexEntry)
    → cmp_log_index_entry x y ≢ Ordering.gt
    → cmp_log_index_entry y z ≢ Ordering.gt
    → cmp_log_index_entry x z ≢ Ordering.gt
unfolding cmp_log_index_entry
log_trans x y z h k l = ground arith

abbrev pub log_qsort : Qsort cmp_log_index_entry
log_qsort = insertion_qsort cmp_log_index_entry log_flips log_trans

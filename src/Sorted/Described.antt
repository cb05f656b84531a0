-- ===== src/Sorted/Described.antt =====
-- `write_keys_values` of src/core/fce_build_records.c: its entries describe the records.
use fast_cache_engine.Bytes.Range.{slice}
use fast_cache_engine.Bytes.Words.{Bytes}
use fast_cache_engine.Common.{==_iff, Bool, List, [], append_assoc, arith, drop-append}
use fast_cache_engine.Common.{if◌then◌else◌, length, length-append, not, refl, take-append}
use fast_cache_engine.Common.{true, ℕ, ◌%◌, ◌++◌, ◌+◌, ◌<◌, ◌^◌, ◌||◌, ◌∙◌, ◌∷◌, ◌≡◌, ◌≤◌}
use fast_cache_engine.Entry.{SortedEntry}
use fast_cache_engine.Entry.Order.{hash_is}
use fast_cache_engine.Entry.Reads.{FitsEntry}
use fast_cache_engine.Entry.Write.{Written, add_record, make_entry, write_keys_values, write_loop}
use fast_cache_engine.Env.{Env, fclose, keys_file, values_file}
use fast_cache_engine.Hash.{hash_key, hash_key-lt, u64}
use fast_cache_engine.Record.{BuildRecord, total}
use fast_cache_engine.Status.{>>=-eq-ok, err, io, ok, ok-injective, ◌>>=◌}
use mathlib.Core.Path.{subst}

-- The entry leads to the record in the two files.
pub record Describes (force : Bool) (keys values : Bytes) (r : BuildRecord) (e : SortedEntry)
    : Type 0 where
  pub hash : hash_is e (hash_key force r.key) ≡ true
  pub key_fits : e.key_offset + e.key_len ≤ length keys
  pub key : slice keys e.key_offset e.key_len ≡ r.key
  pub value_fits : e.value_offset + e.value_len ≤ length values
  pub value : slice values e.value_offset e.value_len ≡ r.value
  pub fits : FitsEntry e

-- One entry for each record, in their order.
abbrev pub DescribesAll : Bool → Bytes → Bytes → List BuildRecord → List SortedEntry → Type 0
DescribesAll force keys values [] [] = Unit
DescribesAll force keys values [] (e ∷ es) = ⊥
DescribesAll force keys values (r ∷ rs) [] = ⊥
DescribesAll force keys values (r ∷ rs) (e ∷ es) =
    Describes force keys values r e × DescribesAll force keys values rs es

-- The bytes that the records put into the two files.
abbrev pub keys_total : List BuildRecord → ℕ
keys_total rs = total (λ r. length r.key) rs

abbrev pub values_total : List BuildRecord → ℕ
values_total rs = total (λ r. length r.value) rs

slice_middle : (p k rest : Bytes) → slice (p ++ (k ++ rest)) (length p) (length k) ≡ k
slice_middle p k rest =
    rw (drop-append (length p) p (k ++ rest) refl) (take-append (length k) k rest refl)

make_entry-Describes :
    (force : Bool) (r : BuildRecord) (p q ks vs : Bytes)
    → length p < u64
    → length q < u64
    → length r.key < 2 ^ 32
    → length r.value < 2 ^ 32
    → Describes force
        (p ++ (r.key ++ ks))
        (q ++ (r.value ++ vs))
        r
        (make_entry force r (length p) (length q))
unfolding make_entry hash_is
make_entry-Describes force r p q ks vs a b c d = record {
  hash =
      rw
        (
          (==_iff (hash_key force r.key).hi (hash_key force r.key).hi).1 refl,
          (==_iff (hash_key force r.key).lo (hash_key force r.key).lo).1 refl,
        )
        refl;
  key_fits = omega (arith, length-append {0} p (r.key ++ ks), length-append {0} r.key ks);
  key = slice_middle p r.key ks;
  value_fits = omega (arith, length-append {0} q (r.value ++ vs), length-append {0} r.value vs);
  value = slice_middle q r.value vs;
  fits =
      let hash = hash_key-lt force r.key in
      (
        omega (arith, hash.0),
        (
          omega (arith, hash.1),
          (omega arith, (omega arith, (refl, (omega arith, (omega arith, (refl, tt)))))),
        ),
      );
}

-- The tests of a round.
pub write_loop_tests :
    (env : Env) (force : Bool) (r : BuildRecord) (rs : List BuildRecord) (ko vo : ℕ) {w : Written}
    → write_loop env force (r ∷ rs) ko vo ≡ ok w
    → (length r.key < 2 ^ 32)
      × (length r.value < 2 ^ 32)
      × ((write_loop env force rs ((ko + length r.key) % u64) ((vo + length r.value) % u64)
            >>= λ rest. ok (add_record force r ko vo rest))
          ≡ ok w)
unfolding write_loop
write_loop_tests env force r rs ko vo h = (ground arith, ground arith, ground arith)

pub write_loop-DescribesAll :
    (env : Env) (force : Bool) (rs : List BuildRecord) (p q : Bytes) {w : Written}
    → length p + keys_total rs < u64
    → length q + values_total rs < u64
    → write_loop env force rs (length p) (length q) ≡ ok w
    → DescribesAll force (p ++ w.keys) (q ++ w.values) rs w.entries
unfolding write_loop add_record
write_loop-DescribesAll env force [] p q {w} a b h =
    subst (λ v. DescribesAll force (p ++ v.keys) (q ++ v.values) [] v.entries) (ok-injective h) tt
write_loop-DescribesAll env force (r ∷ rs) p q {w} a b h =
    let (c, d, g) = write_loop_tests env force r rs (length p) (length q) h in
    let (more, m, f) =
      >>=-eq-ok
        (write_loop env force rs ((length p + length r.key) % u64)
          ((length q + length r.value) % u64))
        (λ rest. ok (add_record force r (length p) (length q) rest)) g in
    let kp : (length p + length r.key) % u64 ≡ length (p ++ r.key) =
      omega (arith, length-append {0} p r.key) in
    let vq : (length q + length r.value) % u64 ≡ length (q ++ r.value) =
      omega (arith, length-append {0} q r.value) in
    let later : DescribesAll force ((p ++ r.key) ++ more.keys) ((q ++ r.value) ++ more.values) rs
        more.entries =
      write_loop-DescribesAll env force rs (p ++ r.key) (q ++ r.value)
        (omega (arith, length-append {0} p r.key)) (omega (arith, length-append {0} q r.value))
        (rw (kp, vq) at m) in
    subst (λ v. DescribesAll force (p ++ v.keys) (q ++ v.values) (r ∷ rs) v.entries)
      (ok-injective f)
      (
        make_entry-Describes force r p q more.keys more.values (omega arith) (omega arith) c d,
        subst (λ k. DescribesAll force k (q ++ (r.value ++ more.values)) rs more.entries)
            (append_assoc p r.key more.keys)
            (subst (λ v. DescribesAll force ((p ++ r.key) ++ more.keys) v rs more.entries)
              (append_assoc q r.value more.values) later),
      )

-- The tests that a successful freeze has passed.
pub write_keys_values-loop :
    (env : Env) (force : Bool) (records : List BuildRecord) {w : Written}
    → write_keys_values env force records ≡ ok w
    → write_loop env force records 0 0 ≡ ok w
unfolding write_keys_values
write_keys_values-loop env force records {w} h =
    let (v, m, f) =
      >>=-eq-ok (write_loop env force records 0 0)
        (λ v.
          if not (env.succeeds (fclose keys_file)) || not (env.succeeds (fclose values_file))
          then err io
          else ok v)
        {b = w} (ground arith) in
    m ∙ ground arith

-- The entries that `write_keys_values` makes describe the records in the files that it writes.
pub write_keys_values-DescribesAll :
    (env : Env) (force : Bool) (records : List BuildRecord) {w : Written}
    → keys_total records < u64
    → values_total records < u64
    → write_keys_values env force records ≡ ok w
    → DescribesAll force w.keys w.values records w.entries
write_keys_values-DescribesAll env force records a b h =
    write_loop-DescribesAll env force records [] [] (omega arith) (omega arith)
      (write_keys_values-loop env force records h)

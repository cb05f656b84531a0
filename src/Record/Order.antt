-- ===== src/Record/Order.antt =====
-- `cmp_build_by_key` of src/core/fce_build_records.c orders by key and then by the order of the puts.
use fast_cache_engine.Bytes.Compare.{key_bytes_cmp, memcmp}
use fast_cache_engine.Bytes.Lexical.{key_bytes_cmp-lex, lex}
use fast_cache_engine.Bytes.Words.{Bytes}
use fast_cache_engine.Common.{==_iff, [], ap, arith, length, refl, suc, true, zero, ℕ, ◌∙◌}
use fast_cache_engine.Common.{◌∷◌, ◌≡◌, ◌≢◌}
use fast_cache_engine.Common.Order.{then_by}
use Prim.Native.Nat.{Ordering, compare}
use fast_cache_engine.Record.{BuildRecord, cmp_build_by_key, same_key}

-- Records are compared by their keys, lexicographically, and where these are equal by the order of the
-- puts.
pub cmp_build_by_key-lex :
    (a b : BuildRecord) → cmp_build_by_key a b ≡ then_by (lex a.key b.key) (compare a.order b.order)
unfolding cmp_build_by_key
cmp_build_by_key-lex a b =
    rw (← key_bytes_cmp-lex a.key b.key) (unfold key_bytes_cmp in ground arith)

-- The keys ascend in a list that ascends.
pub cmp_build_by_key_keys :
    (a b : BuildRecord) → cmp_build_by_key a b ≢ Ordering.gt → lex a.key b.key ≢ Ordering.gt
cmp_build_by_key_keys a b h e = h (cmp_build_by_key-lex a b ∙ rw e refl)

memcmp_eq :
    (n : ℕ) (xs ys : Bytes) → length xs ≡ n → length ys ≡ n → memcmp n xs ys ≡ Ordering.eq → xs ≡ ys
unfolding memcmp
memcmp_eq zero [] [] p q h = refl
memcmp_eq zero [] (y ∷ ys) p q h = absurd (omega arith)
memcmp_eq zero (x ∷ xs) ys p q h = absurd (omega arith)
memcmp_eq (suc n) [] ys p q h = absurd (omega arith)
memcmp_eq (suc n) (x ∷ xs) [] p q h = absurd (omega arith)
memcmp_eq (suc n) (x ∷ xs) (y ∷ ys) p q h =
    ground (arith, memcmp_eq n xs ys (omega arith) (omega arith))

memcmp_refl : (n : ℕ) (xs : Bytes) → memcmp n xs xs ≡ Ordering.eq
unfolding memcmp
memcmp_refl zero xs = refl
memcmp_refl (suc n) [] = refl
memcmp_refl (suc n) (x ∷ xs) = ground (arith, memcmp_refl n xs)

pub same_key→eq : (a b : BuildRecord) → same_key a b ≡ true → a.key ≡ b.key
unfolding same_key
same_key→eq a b h = memcmp_eq (length b.key) a.key b.key (ground arith) refl (ground arith)

pub same_key_of_eq : (a b : BuildRecord) → a.key ≡ b.key → same_key a b ≡ true
unfolding same_key
same_key_of_eq a b e =
    rw (ap length e, (==_iff (length b.key) (length b.key)).1 refl)
      (rw (e, memcmp_refl (length b.key) b.key) refl)

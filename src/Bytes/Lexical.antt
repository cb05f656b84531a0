-- ===== src/Bytes/Lexical.antt =====
-- `key_bytes_cmp` of src/core/fce_hash.c is the lexicographic order of byte strings.
use fast_cache_engine.Bytes.Compare.{key_bytes_cmp, memcmp}
use fast_cache_engine.Bytes.Words.{Bytes}
use fast_cache_engine.Common.{[], arith, if◌then◌else◌, length, ltb, refl, suc, zero, ℕ}
use fast_cache_engine.Common.{◌==◌, ◌↔◌, ◌∷◌, ◌≡◌}
use fast_cache_engine.Common.Order.{flip, then_by}
use Prim.Native.Nat.{Ordering, compare}

-- The order of the dictionary, byte by byte, a proper prefix first.
unfoldable pub lex : Bytes → Bytes → Ordering
lex [] [] = Ordering.eq
lex [] (y ∷ ys) = Ordering.lt
lex (x ∷ xs) [] = Ordering.gt
lex (x ∷ xs) (y ∷ ys) = then_by (compare x y) (lex xs ys)

-- The tie that the comparison of lengths breaks.
abbrev by_length : Bytes → Bytes → Ordering
by_length a b =
    if length a == length b
    then Ordering.eq
    else if ltb (length a) (length b)
    then Ordering.lt
    else Ordering.gt

memcmp-lex :
    (n : ℕ) (a b : Bytes)
    → n ≡ (if ltb (length a) (length b) then length a else length b)
    → then_by (memcmp n a b) (by_length a b) ≡ lex a b
unfolding memcmp lex
memcmp-lex n [] [] h = ground arith
memcmp-lex n [] (y ∷ ys) h = ground arith
memcmp-lex n (x ∷ xs) [] h = ground arith
memcmp-lex zero (x ∷ xs) (y ∷ ys) h = ground arith
memcmp-lex (suc n) (x ∷ xs) (y ∷ ys) h = ground (arith, memcmp-lex n xs ys (ground arith))

-- The comparison of a prefix and then of the lengths is the lexicographic order.
pub key_bytes_cmp-lex : (a b : Bytes) → key_bytes_cmp a b ≡ lex a b
unfolding key_bytes_cmp
key_bytes_cmp-lex a b =
    ground (arith, memcmp-lex (if ltb (length a) (length b) then length a else length b) a b refl)

-- Only equal strings compare as equal.
pub lex_eq : (a b : Bytes) → lex a b ≡ Ordering.eq → a ≡ b
unfolding lex
lex_eq [] [] h = refl
lex_eq [] (y ∷ ys) h = ground arith
lex_eq (x ∷ xs) [] h = ground arith
lex_eq (x ∷ xs) (y ∷ ys) h = ground (arith, lex_eq xs ys)

pub lex_refl : (a : Bytes) → lex a a ≡ Ordering.eq
unfolding lex
lex_refl [] = refl
lex_refl (x ∷ xs) = ground (arith, lex_refl xs)

pub lex-flip : (a b : Bytes) → lex b a ≡ flip (lex a b)
unfolding lex
lex-flip [] [] = refl
lex-flip [] (y ∷ ys) = refl
lex-flip (x ∷ xs) [] = refl
lex-flip (x ∷ xs) (y ∷ ys) = ground (arith, lex-flip xs ys)

pub lex_trans :
    (a b c : Bytes) → lex a b ≡ Ordering.lt → lex b c ≡ Ordering.lt → lex a c ≡ Ordering.lt
unfolding lex
lex_trans [] [] [] h k = h
lex_trans [] (y ∷ ys) [] h k = cc
lex_trans [] b (z ∷ zs) h k = refl
lex_trans (x ∷ xs) [] c h k = cc
lex_trans (x ∷ xs) (y ∷ ys) [] h k = cc
lex_trans (x ∷ xs) (y ∷ ys) (z ∷ zs) h k = ground (arith, lex_trans xs ys zs)

-- Keys compare as equal exactly when they are equal, a swap of the arguments flips the answer, and
-- "less" is transitive: `key_bytes_cmp` is a strict total order.
pub key_bytes_cmp_total :
    (a b c : Bytes)
    → ((key_bytes_cmp a b ≡ Ordering.eq) ↔ (a ≡ b))
      × (key_bytes_cmp b a ≡ flip (key_bytes_cmp a b))
      × (key_bytes_cmp a b ≡ Ordering.lt
          → key_bytes_cmp b c ≡ Ordering.lt
          → key_bytes_cmp a c ≡ Ordering.lt)
key_bytes_cmp_total a b c =
    rw (key_bytes_cmp-lex a b, key_bytes_cmp-lex b a, key_bytes_cmp-lex b c, key_bytes_cmp-lex a c)
      ((lex_eq a b, λ e. rw e (lex_refl b)), lex-flip a b, lex_trans a b c)

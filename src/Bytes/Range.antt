-- ===== src/Bytes/Range.antt =====
-- `range_ok` and `key_equal` of src/core/fce_hash.c say what the readers take them to say.
use fast_cache_engine.Bytes.Compare.{key_equal, memcmp, range_ok}
use fast_cache_engine.Bytes.Words.{Bytes}
use fast_cache_engine.Common.{[], arith, drop, length, length-drop, length-take, refl, suc}
use fast_cache_engine.Common.{take, true, zero, ℕ, ◌+◌, ◌↔◌, ◌∷◌, ◌≡◌, ◌≤◌}
use Prim.Native.Nat.{Ordering}

-- The check cannot overflow, and it holds exactly for the ranges inside the blob.
pub range_ok_iff : (off len size : ℕ) → (range_ok off len size ≡ true) ↔ (off + len ≤ size)
unfolding range_ok
range_ok_iff off len size = (λ h. ground arith, λ h. ground arith)

pub range_ok-le : (off len size : ℕ) → range_ok off len size ≡ true → off + len ≤ size
range_ok-le off len size h = (range_ok_iff off len size).0 h

memcmp_eq_take :
    (n : ℕ) (xs ys : Bytes)
    → n ≤ length xs
    → n ≡ length ys
    → memcmp n xs ys ≡ Ordering.eq
    → take n xs ≡ ys
unfolding memcmp
memcmp_eq_take zero xs [] p q h = refl
memcmp_eq_take zero xs (y ∷ ys) p q h = absurd (omega arith)
memcmp_eq_take (suc n) [] ys p q h = absurd (omega arith)
memcmp_eq_take (suc n) (x ∷ xs) [] p q h = absurd (omega arith)
memcmp_eq_take (suc n) (x ∷ xs) (y ∷ ys) p q h =
    ground (arith, memcmp_eq_take n xs ys (omega arith) (omega arith))

memcmp-take : (n : ℕ) (xs : Bytes) → memcmp n xs (take n xs) ≡ Ordering.eq
unfolding memcmp
memcmp-take zero xs = refl
memcmp-take (suc n) [] = refl
memcmp-take (suc n) (x ∷ xs) = ground (arith, memcmp-take n xs)

-- The key stored at an offset.
abbrev pub slice : Bytes → ℕ → ℕ → Bytes
slice base off len = take len (drop off base)

pub length-slice :
    (base : Bytes) (off len : ℕ) → off + len ≤ length base → length (slice base off len) ≡ len
length-slice base off len h =
    omega (arith, length-take {0} len (drop off base), length-drop {0} off base)

key_equal→slice :
    (base : Bytes) (off len : ℕ) (key : Bytes)
    → key_equal base off len key ≡ true
    → (off + len ≤ length base) × (slice base off len ≡ key)
unfolding key_equal
key_equal→slice base off len key h =
    let fits : off + len ≤ length base = range_ok-le off len (length base) (ground arith) in
    let same : length key ≡ len = ground arith in
    (
      fits,
      ground (
        arith,
        memcmp_eq_take len (drop off base) key (omega (arith, length-drop {0} off base))
            (omega arith),
        key_of_length_zero key,
      ),
    )
  where
    key_of_length_zero : (k : Bytes) → length k ≡ 0 → [] ≡ k
    key_of_length_zero [] e = refl
    key_of_length_zero (x ∷ xs) e = absurd (omega arith)

slice→key_equal :
    (base : Bytes) (off len : ℕ) (key : Bytes)
    → off + len ≤ length base
    → slice base off len ≡ key
    → key_equal base off len key ≡ true
unfolding key_equal
slice→key_equal base off len key h e = rw (← e) (
    ground (
      arith,
      length-slice base off len h,
      (range_ok_iff off len (length base)).1 h,
      memcmp-take len (drop off base),
    ))

-- A stored key counts as found exactly when it lies inside the blob and has the very bytes of the
-- key that is looked up: no hash takes part.
pub key_equal_iff :
    (base : Bytes) (off len : ℕ) (key : Bytes)
    → (key_equal base off len key ≡ true) ↔ ((off + len ≤ length base) × (slice base off len ≡ key))
key_equal_iff base off len key =
    (key_equal→slice base off len key, λ h. slice→key_equal base off len key h.0 h.1)

-- ===== src/Bytes/Words.antt =====
-- Little-endian words of `w` bytes: what `memcpy` of an integer stores and loads on the targets
-- whose tag `FCE_ENDIAN_TAG` the manifest records.
use fast_cache_engine.Common.{All, List, Option, [], ap, arith, length, none, refl, some}
use fast_cache_engine.Common.{suc, take, take-append, zero, ℕ, ◌%◌, ◌*◌, ◌++◌, ◌+◌, ◌/◌}
use fast_cache_engine.Common.{◌<◌, ◌^◌, ◌∷◌, ◌≡◌}

abbrev pub Bytes : Type 0
Bytes = List ℕ

abbrev pub IsByte : ℕ → Type 0
IsByte b = b < 256

-- The bytes of `v`, lowest first.
unfoldable pub le : ℕ → ℕ → Bytes
le zero v = []
le (suc w) v = v % 256 ∷ le w (v / 256)

unfoldable pub un_le : Bytes → ℕ
un_le [] = 0
un_le (b ∷ bs) = b + 256 * un_le bs

-- `v` needs at most `w` bytes.
abbrev pub Fits : ℕ → ℕ → Type 0
Fits zero v = v ≡ 0
Fits (suc w) v = Fits w (v / 256)

-- The first `n` bytes and what follows, or `none` where the object is shorter.
unfoldable pub split : ℕ → Bytes → Option (Bytes × Bytes)
split zero bs = some ([], bs)
split (suc n) [] = none
split (suc n) (b ∷ bs) = elim (split n bs) [ none ↦ none | some (xs, rest) ↦ some (b ∷ xs, rest) ]

-- A load of a word at the front, with the rest.
unfoldable pub load : ℕ → Bytes → Option (ℕ × Bytes)
unfolding split
load w bs = elim (split w bs) [ none ↦ none | some (xs, rest) ↦ some (un_le xs, rest) ]

pub length-le : (w v : ℕ) → length (le w v) ≡ w
unfolding le
length-le zero v = refl
length-le (suc w) v = ap suc (length-le w (v / 256))

pub un_le-le : (w v : ℕ) → Fits w v → un_le (le w v) ≡ v
unfolding le un_le
un_le-le zero v h = omega arith
un_le-le (suc w) v h = omega (arith, un_le-le w (v / 256) h)

pub le-IsByte : (w v : ℕ) → All IsByte (le w v)
unfolding le
le-IsByte zero v = tt
le-IsByte (suc w) v = (omega arith, le-IsByte w (v / 256))

pub split-append : (n : ℕ) (xs ys : Bytes) → length xs ≡ n → split n (xs ++ ys) ≡ some (xs, ys)
unfolding split
split-append zero [] ys h = refl
split-append zero (x ∷ xs) ys h = absurd (omega arith)
split-append (suc n) [] ys h = absurd (omega arith)
split-append (suc n) (x ∷ xs) ys h = rw (split-append n xs ys (omega arith))

pub load-le : (w v : ℕ) (rest : Bytes) → Fits w v → load w (le w v ++ rest) ≡ some (v, rest)
unfolding load
load-le w v rest h = ground (arith, split-append w (le w v) rest (length-le w v), un_le-le w v h)

-- What bytes hold fits as many bytes, and its bytes are these.
pub un_le-Fits : (bs : Bytes) → All IsByte bs → Fits (length bs) (un_le bs)
unfolding un_le
un_le-Fits [] h = refl
un_le-Fits (b ∷ bs) h =
    let rest : (b + 256 * un_le bs) / 256 ≡ un_le bs = omega (arith, h.0) in
    rw (Fits, rest) (un_le-Fits bs h.1)

pub le-un_le : (bs : Bytes) → All IsByte bs → le (length bs) (un_le bs) ≡ bs
unfolding le un_le
le-un_le [] h = refl
le-un_le (b ∷ bs) h =
    let first : (b + 256 * un_le bs) % 256 ≡ b = omega (arith, h.0) in
    let rest : (b + 256 * un_le bs) / 256 ≡ un_le bs = omega (arith, h.0) in
    rw (first, rest, le-un_le bs h.1) refl

-- `rd64` of src/core/fce_hash.c: eight bytes, the lowest first.
abbrev pub rd64 : Bytes → ℕ
rd64 p = un_le (take 8 p)

pub rd64-le : (v : ℕ) (rest : Bytes) → v < 2 ^ 64 → rd64 (le 8 v ++ rest) ≡ v
rd64-le v rest h = rw (take-append 8 (le 8 v) rest (length-le 8 v)) (un_le-le 8 v (omega arith))

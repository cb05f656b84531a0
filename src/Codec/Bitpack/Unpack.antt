-- ===== src/Codec/Bitpack/Unpack.antt =====
-- What the decoder of `FCE_CODEC_BITPACK` (src/codecs/fce_codecs.c) reads from a payload whose bits
-- are known.
use fast_cache_engine.Bytes.Words.{Bytes}
use fast_cache_engine.Codec.Bitpack.{unpack_word}
use fast_cache_engine.Codec.Bitpack.Bit.{bit_at}
use fast_cache_engine.Common.{ap, arith, get_elem?-eq-get_or, if◌then◌else◌, length, refl}
use fast_cache_engine.Common.{suc, zero, ℕ, ◌%◌, ◌*◌, ◌+◌, ◌/◌, ◌<◌, ◌==◌, ◌^◌, ◌∙◌, ◌≡◌}
use fast_cache_engine.Common.{◌≤◌}
use fast_cache_engine.Common.Bits.{bit_or-pow}
use Prim.Native.Nat.{bit_or}
use fast_cache_engine.Status.{ok}
use native.Mathlib.Nat.{add-mul-mod_self_left, add-zero, div-add-mod, mod-eq_of_lt}
use native.Mathlib.Nat.{mod-lt, one-le-pow, pow-suc, zero-add}
use native.Mathlib.Numerals.{add-one}

whole_of_parts : (v p q c a r : ℕ) → p * q + r ≡ v → q ≡ c + 2 * a → v ≡ c * p + r + p * 2 * a
whole_of_parts v p q c a r e f = omega (arith, e, ap (λ (t : ℕ). p * t) f)

digit_and_rest : (c r p : ℕ) → c < 2 → r < p → c * p + r < p * 2
digit_and_rest zero r p h k = omega arith
digit_and_rest (suc zero) r p h k = omega arith
digit_and_rest (suc (suc c)) r p h k = absurd (omega arith)

-- One more binary digit of a number.
low_digits : (v p : ℕ) → 0 < p → v % (p * 2) ≡ v / p % 2 * p + v % p
low_digits v p h =
    ap (λ (t : ℕ). t % (p * 2))
      (whole_of_parts v p (v / p) (v / p % 2) (v / p / 2) (v % p) (div-add-mod v p) (omega arith))
    ∙ add-mul-mod_self_left (v / p % 2 * p + v % p) (p * 2) (v / p / 2)
    ∙ mod-eq_of_lt (digit_and_rest (v / p % 2) (v % p) p (omega arith) (mod-lt v h))

-- `v |= 1U << b` where the digit is 1, and nothing where it is 0.
next_value :
    (v b d : ℕ)
    → d ≡ v / 2 ^ b % 2
    → (if d == 1 then bit_or (v % 2 ^ b) (2 ^ b) else v % 2 ^ b) ≡ v % 2 ^ (b + 1)
next_value v b d e =
    let power : 2 ^ (b + 1) ≡ 2 ^ b * 2 = ap (λ (t : ℕ). 2 ^ t) (add-one b) ∙ pow-suc 2 b in
    rw (power, low_digits v (2 ^ b) (one-le-pow b 2 (omega arith)), ← e)
      (by_digit d (v % 2 ^ b) (omega (arith, e)) (mod-lt v (one-le-pow b 2 (omega arith))))
  where
    by_digit :
        (d r : ℕ) → d < 2 → r < 2 ^ b → (if d == 1 then bit_or r (2 ^ b) else r) ≡ d * 2 ^ b + r
    by_digit zero r h k = omega arith
    by_digit (suc zero) r h k = bit_or-pow b r k ∙ omega arith
    by_digit (suc (suc d)) r h k = absurd (omega arith)

-- The digits that are read make up the number, as far as they go.
pub unpack_word_reads :
    (left b v bitpos : ℕ) (p : Bytes)
    → bitpos + left ≤ 8 * length p
    → ((k : ℕ) → k < left → bit_at p (bitpos + k) ≡ v / 2 ^ (b + k) % 2)
    → unpack_word left b bitpos p (v % 2 ^ b) ≡ ok (v % 2 ^ (b + left))
unfolding unpack_word
unpack_word_reads zero b v bitpos p inside bits = rw add-zero refl
unpack_word_reads (suc left) b v bitpos p inside bits =
    let here_bit : bit_at p bitpos ≡ v / 2 ^ b % 2 =
      rw (add-zero bitpos, add-zero b) at (bits 0 (omega arith)) in
    let later : b + suc left ≡ b + 1 + left = omega arith in
    rw
      (
        get_elem?-eq-get_or p (bitpos / 8) 0 (omega arith),
        next_value v b (bit_at p bitpos) here_bit,
        later,
        unpack_word,
      )
      (unpack_word_reads left (b + 1) v (bitpos + 1) p (omega arith)
        (λ k h. rw (shift bitpos k, shift b k) at (bits (suc k) (omega arith))))
  where
    shift : (n k : ℕ) → n + suc k ≡ n + 1 + k
    shift n k = omega arith

pub unpack_word_whole :
    (bits v bitpos : ℕ) (p : Bytes)
    → v < 2 ^ bits
    → bitpos + bits ≤ 8 * length p
    → ((k : ℕ) → k < bits → bit_at p (bitpos + k) ≡ v / 2 ^ k % 2)
    → unpack_word bits 0 bitpos p 0 ≡ ok v
unpack_word_whole bits v bitpos p small inside digits =
    let none_yet : v % 2 ^ 0 ≡ 0 = omega arith in
    rw (none_yet, zero-add bits, mod-eq_of_lt small) at
      (unpack_word_reads bits 0 v bitpos p inside (λ k h. rw (zero-add k) (digits k h)))

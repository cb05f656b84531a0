-- ===== src/Codec/Bitpack/Laws.antt =====
-- Where the bits of a packed word stand (`FCE_CODEC_BITPACK` of src/codecs/fce_codecs.c).
use fast_cache_engine.Bytes.Words.{Bytes, IsByte}
use fast_cache_engine.Codec.Bitpack.{pack_word, set_bit}
use fast_cache_engine.Codec.Bitpack.Bit.{bit_at, bit_at-set_bit, length-set_bit, set_bit-IsByte}
use fast_cache_engine.Common.{==_iff, ==_ne, All, Bool-cases, ap, arith, false, if◌then◌else◌}
use fast_cache_engine.Common.{inl, inr, length, refl, suc, sym, zero, ℕ, ◌%◌, ◌*◌, ◌+◌}
use fast_cache_engine.Common.{◌/◌, ◌<◌, ◌==◌, ◌^◌, ◌∙◌, ◌≡◌, ◌≤◌, ◌⊎◌}
use native.Mathlib.Nat.{add-zero}

-- `out` with the bit set or left.
abbrev put_bit : ℕ → ℕ → ℕ → Bytes → Bytes
put_bit b v bitpos out = if v / 2 ^ b % 2 == 1 then set_bit out bitpos else out

put_bit-length : (b v bitpos : ℕ) (out : Bytes) → length (put_bit b v bitpos out) ≡ length out
put_bit-length b v bitpos out = ground (arith, length-set_bit out bitpos)

pub put_bit-IsByte :
    (b v bitpos : ℕ) (out : Bytes) → All IsByte out → All IsByte (put_bit b v bitpos out)
put_bit-IsByte b v bitpos out h = elim (Bool-cases (v / 2 ^ b % 2 == 1)) [
  | inl one ↦ rw one (set_bit-IsByte out bitpos h)
  | inr zero_bit ↦ rw zero_bit h
]

clear_digit : (d : ℕ) → d < 2 → (d ≡ 1 → ⊥) → 0 ≡ d
clear_digit d h n = omega arith

put_bit-at :
    (b v bitpos q : ℕ) (out : Bytes)
    → All IsByte out
    → bitpos < 8 * length out
    → bit_at out bitpos ≡ 0
    → bit_at (put_bit b v bitpos out) q ≡ (if q == bitpos then v / 2 ^ b % 2 else bit_at out q)
put_bit-at b v bitpos q out h inside clear = elim (Bool-cases (v / 2 ^ b % 2 == 1)) [
  | inl one ↦
      rw (one, bit_at-set_bit out bitpos q h inside)
        (ap (λ (d : ℕ). if q == bitpos then d else bit_at out q) (sym ((==_iff _ 1).0 one)))
  | inr zero_bit ↦ rw zero_bit (elim (Bool-cases (q == bitpos)) [
    | inl same ↦ rw same (
        ap (bit_at out) ((==_iff q bitpos).0 same)
        ∙ clear
        ∙ clear_digit (v / 2 ^ b % 2) (omega arith) (==_ne (v / 2 ^ b % 2) 1 zero_bit))
    | inr other ↦ rw other refl
  ])
]

-- Every bit from `bitpos` on is still 0.
abbrev pub ClearFrom : ℕ → Bytes → Type 0
ClearFrom bitpos out = (r : ℕ) → bitpos ≤ r → bit_at out r ≡ 0

put_bit-ClearFrom :
    (b v bitpos : ℕ) (out : Bytes)
    → All IsByte out
    → bitpos < 8 * length out
    → ClearFrom bitpos out
    → ClearFrom (bitpos + 1) (put_bit b v bitpos out)
put_bit-ClearFrom b v bitpos out h inside clear r after =
    put_bit-at b v bitpos r out h inside (clear bitpos (omega arith))
    ∙ rw (later r bitpos after) (clear r (omega arith))
  where
    later : (r n : ℕ) → n + 1 ≤ r → (r == n) ≡ false
    later r n h = ground arith

pub pack_word_elsewhere :
    (left b v bitpos q : ℕ) (out : Bytes)
    → All IsByte out
    → bitpos + left ≤ 8 * length out
    → ClearFrom bitpos out
    → (q < bitpos) ⊎ (bitpos + left ≤ q)
    → bit_at (pack_word left b v bitpos out) q ≡ bit_at out q
unfolding pack_word
pack_word_elsewhere zero b v bitpos q out h inside clear away = refl
pack_word_elsewhere (suc left) b v bitpos q out h inside clear away =
    pack_word_elsewhere left (b + 1) v (bitpos + 1) q (put_bit b v bitpos out)
      (put_bit-IsByte b v bitpos out h) (omega (arith, put_bit-length b v bitpos out, inside))
      (put_bit-ClearFrom b v bitpos out h (omega arith) clear) (omega arith)
    ∙ put_bit-at b v bitpos q out h (omega arith) (clear bitpos (omega arith))
    ∙ rw (apart q bitpos (omega arith)) refl
  where
    apart : (r n : ℕ) → (r < n) ⊎ (n < r) → (r == n) ≡ false
    apart r n h = ground arith

pub pack_word_at :
    (left b v bitpos k : ℕ) (out : Bytes)
    → All IsByte out
    → bitpos + left ≤ 8 * length out
    → ClearFrom bitpos out
    → k < left
    → bit_at (pack_word left b v bitpos out) (bitpos + k) ≡ v / 2 ^ (b + k) % 2
unfolding pack_word
pack_word_at zero b v bitpos k out h inside clear before = absurd (omega arith)
pack_word_at (suc left) b v bitpos zero out h inside clear before =
    rw (add-zero bitpos, add-zero b)
      (pack_word_elsewhere left (b + 1) v (bitpos + 1) bitpos (put_bit b v bitpos out)
          (put_bit-IsByte b v bitpos out h) (omega (arith, put_bit-length b v bitpos out, inside))
          (put_bit-ClearFrom b v bitpos out h (omega arith) clear) (inl (omega arith))
        ∙ put_bit-at b v bitpos bitpos out h (omega arith) (clear bitpos (omega arith))
        ∙ rw ((==_iff bitpos bitpos).1 refl) refl)
pack_word_at (suc left) b v bitpos (suc k) out h inside clear before =
    let place : bitpos + suc k ≡ bitpos + 1 + k = omega arith in
    let digit : b + suc k ≡ b + 1 + k = omega arith in
    rw (place, digit)
      (pack_word_at left (b + 1) v (bitpos + 1) k (put_bit b v bitpos out)
        (put_bit-IsByte b v bitpos out h) (omega (arith, put_bit-length b v bitpos out, inside))
        (put_bit-ClearFrom b v bitpos out h (omega arith) clear) (omega arith))

pub pack_word-IsByte :
    (left b v bitpos : ℕ) (out : Bytes)
    → All IsByte out
    → All IsByte (pack_word left b v bitpos out)
unfolding pack_word
pack_word-IsByte zero b v bitpos out h = h
pack_word-IsByte (suc left) b v bitpos out h =
    pack_word-IsByte left (b + 1) v (bitpos + 1) (put_bit b v bitpos out)
      (put_bit-IsByte b v bitpos out h)

pub length-pack_word :
    (left b v bitpos : ℕ) (out : Bytes) → length (pack_word left b v bitpos out) ≡ length out
unfolding pack_word
length-pack_word zero b v bitpos out = refl
length-pack_word (suc left) b v bitpos out =
    length-pack_word left (b + 1) v (bitpos + 1) (put_bit b v bitpos out)
    ∙ put_bit-length b v bitpos out

pub pack_word-ClearFrom :
    (left b v bitpos : ℕ) (out : Bytes)
    → All IsByte out
    → bitpos + left ≤ 8 * length out
    → ClearFrom bitpos out
    → ClearFrom (bitpos + left) (pack_word left b v bitpos out)
pack_word-ClearFrom left b v bitpos out h inside clear r after =
    pack_word_elsewhere left b v bitpos r out h inside clear (inr after) ∙ clear r (omega arith)

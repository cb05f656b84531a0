-- ===== src/Codec/Bitpack/RoundTrip.antt =====
-- Packed words are unpacked to the same words (`FCE_CODEC_BITPACK` of src/codecs/fce_codecs.c).
use fast_cache_engine.Bytes.Words.{Bytes, Fits, IsByte, le, load-le}
use fast_cache_engine.Codec.Bitpack.{
  bit_width, bitpack_body, bitpack_decode, bitpack_encode, bits_for,
}
use fast_cache_engine.Codec.Bitpack.{max_word, pack_word, pack_words, unpack_words}
use fast_cache_engine.Codec.Bitpack.Bit.{bit_at}
use fast_cache_engine.Codec.Bitpack.Laws.{
  ClearFrom, length-pack_word, pack_word-ClearFrom, pack_word-IsByte,
}
use fast_cache_engine.Codec.Bitpack.Laws.{pack_word_at, pack_word_elsewhere}
use fast_cache_engine.Codec.Bitpack.Unpack.{unpack_word_whole}
use fast_cache_engine.Codec.Words32.{IsWord32}
use fast_cache_engine.Common.{==_iff, All, All-mono, All-replicate, Bool, Bool-cases, List}
use fast_cache_engine.Common.{[], ap, arith, false, get_or-replicate, if◌then◌else◌, inl}
use fast_cache_engine.Common.{inr, length, length-replicate, ltb, refl, replicate, some}
use fast_cache_engine.Common.{suc, true, zero, ℕ, ◌%◌, ◌*◌, ◌++◌, ◌+◌, ◌-◌, ◌/◌, ◌<◌, ◌==◌}
use fast_cache_engine.Common.{◌^◌, ◌||◌, ◌∙◌, ◌∷◌, ◌≡◌, ◌≤◌}
use fast_cache_engine.Hash.{u64}
use fast_cache_engine.Layout.{fetch}
use fast_cache_engine.Status.{ok}
use native.Mathlib.Nat.{add-zero, div-add-mod, mod-lt, one-le-pow, zero-add, zero-div}

-- A payload into which the words `vs` of `bits` bits can go from `bitpos` on.
record HasRoom (bits bitpos : ℕ) (vs : List ℕ) (out : Bytes) : Type 0 where
  bytes : All IsByte out
  room : bitpos + length vs * bits ≤ 8 * length out
  clear : ClearFrom bitpos out

after_word :
    (bits bitpos v : ℕ) (vs : List ℕ) (out : Bytes)
    → HasRoom bits bitpos (v ∷ vs) out
    → HasRoom bits (bitpos + bits) vs (pack_word bits 0 v bitpos out)
after_word bits bitpos v vs out h = record {
  bytes = pack_word-IsByte bits 0 v bitpos out h.bytes;
  room = omega (arith, length-pack_word bits 0 v bitpos out, h.room);
  clear = pack_word-ClearFrom bits 0 v bitpos out h.bytes (omega (arith, h.room)) h.clear;
}

length-pack_words :
    (bits : ℕ) (vs : List ℕ) (bitpos : ℕ) (out : Bytes)
    → length (pack_words bits vs bitpos out) ≡ length out
unfolding pack_words
length-pack_words bits [] bitpos out = refl
length-pack_words bits (v ∷ vs) bitpos out =
    length-pack_words bits vs (bitpos + bits) (pack_word bits 0 v bitpos out)
    ∙ length-pack_word bits 0 v bitpos out

pack_words_before :
    (bits : ℕ) (vs : List ℕ) (bitpos q : ℕ) (out : Bytes)
    → HasRoom bits bitpos vs out
    → q < bitpos
    → bit_at (pack_words bits vs bitpos out) q ≡ bit_at out q
unfolding pack_words
pack_words_before bits [] bitpos q out h before = refl
pack_words_before bits (v ∷ vs) bitpos q out h before =
    pack_words_before bits vs (bitpos + bits) q (pack_word bits 0 v bitpos out)
      (after_word bits bitpos v vs out h) (omega arith)
    ∙ pack_word_elsewhere bits 0 v bitpos q out h.bytes (omega (arith, h.room)) h.clear (inl before)

-- The bits of the first word are still there when the others have been written.
first_word_bits :
    (bits v : ℕ) (vs : List ℕ) (bitpos k : ℕ) (out : Bytes)
    → HasRoom bits bitpos (v ∷ vs) out
    → k < bits
    → bit_at (pack_words bits (v ∷ vs) bitpos out) (bitpos + k) ≡ v / 2 ^ k % 2
unfolding pack_words
first_word_bits bits v vs bitpos k out h before =
    pack_words_before bits vs (bitpos + bits) (bitpos + k) (pack_word bits 0 v bitpos out)
      (after_word bits bitpos v vs out h) (omega arith)
    ∙ rw zero-add at
        (pack_word_at bits 0 v bitpos k out h.bytes (omega (arith, h.room)) h.clear before)

unpack_words-pack_words :
    (bits : ℕ) (vs : List ℕ) (bitpos : ℕ) (out : Bytes)
    → HasRoom bits bitpos vs out
    → All (λ v. v < 2 ^ bits) vs
    → unpack_words (length vs) bits bitpos (pack_words bits vs bitpos out) ≡ ok vs
unfolding unpack_words pack_words
unpack_words-pack_words bits [] bitpos out h small = refl
unpack_words-pack_words bits (v ∷ vs) bitpos out h small =
    let p : Bytes = pack_words bits (v ∷ vs) bitpos out in
    let inside : bitpos + bits ≤ 8 * length p =
      omega (arith, length-pack_words bits (v ∷ vs) bitpos out, h.room) in
    rw
      (
        unpack_word_whole bits v bitpos p small.0 inside
            (λ k before. first_word_bits bits v vs bitpos k out h before),
        unpack_words-pack_words bits vs (bitpos + bits) (pack_word bits 0 v bitpos out)
            (after_word bits bitpos v vs out h) small.1,
      )
      refl

max_word-le : (m : ℕ) (ws : List ℕ) → (m ≤ max_word m ws) × All (λ w. w ≤ max_word m ws) ws
unfolding max_word
max_word-le m [] = (omega arith, tt)
max_word-le m (x ∷ xs) =
    let (above, rest) = max_word-le (if ltb m x then x else m) xs in
    (ground arith, (ground arith, rest))

max_word-lt : (m : ℕ) (ws : List ℕ) → m < 2 ^ 32 → All IsWord32 ws → max_word m ws < 2 ^ 32
unfolding max_word
max_word-lt m [] h k = h
max_word-lt m (x ∷ xs) h k = max_word-lt (if ltb m x then x else m) xs (ground arith) k.1

-- The loop stops at a width that the largest word fits.
bit_width_fits :
    (rounds maxv bits : ℕ)
    → maxv < 2 ^ (bits + rounds)
    → (maxv < 2 ^ bit_width rounds maxv bits) × (bit_width rounds maxv bits ≤ bits + rounds)
unfolding bit_width
bit_width_fits zero maxv bits h = (rw add-zero at h, omega arith)
bit_width_fits (suc rounds) maxv bits h = elim (Bool-cases (maxv / 2 ^ bits == 0)) [
  | inl done ↦ rw done (
    quotient_zero maxv (2 ^ bits) (one-le-pow bits 2 (omega arith)) ((==_iff _ 0).0 done),
    omega arith,
  )
  | inr more ↦
      let shift : bits + suc rounds ≡ bits + 1 + rounds = omega arith in
      rw more (
        let (fits, few) = bit_width_fits rounds maxv (bits + 1) (rw shift at h) in
        (fits, omega arith))
]
  where
    quotient_zero : (a b : ℕ) → 0 < b → a / b ≡ 0 → a < b
    quotient_zero a b h e = omega (arith, div-add-mod a b, mod-lt a h, ap (λ (t : ℕ). b * t) e)

some_bits :
    (m b : ℕ)
    → m < 2 ^ b
    → b ≤ 32
    → let bits = if b == 0 then 1 else b in (m < 2 ^ bits) × (0 < bits) × (bits ≤ 32)
some_bits m zero h k = (omega arith, omega arith, omega arith)
some_bits m (suc b) h k =
    let same : (if suc b == 0 then 1 else suc b) ≡ suc b = ground arith in
    rw same (h, omega arith, k)

pub bits_for_fits :
    (ws : List ℕ)
    → All IsWord32 ws
    → All (λ w. w < 2 ^ bits_for ws) ws × (0 < bits_for ws) × (bits_for ws ≤ 32)
unfolding bits_for
bits_for_fits ws h =
    let maxv : ℕ = max_word 0 ws in
    let (fits, few) = bit_width_fits 32 maxv 0 (max_word-lt 0 ws (omega arith) h) in
    let (room, one, most) = some_bits maxv (bit_width 32 maxv 0) fits (omega (arith, few)) in
    (
      All-mono (λ w. w ≤ maxv) _ ws (λ w le_max. omega (arith, le_max, room)) (max_word-le 0 ws).1,
      one,
      most,
    )

-- The payload that `calloc` gives has room for all words, and holds no bit yet.
fresh_payload :
    (bits : ℕ) (ws : List ℕ) → HasRoom bits 0 ws (replicate ((length ws * bits + 7) / 8) 0)
fresh_payload bits ws =
    let size : ℕ = (length ws * bits + 7) / 8 in
    record {
      bytes = All-replicate IsByte size 0 (omega arith);
      room = omega (arith, length-replicate {0} {A = ℕ} size 0);
      clear = λ r after. rw (get_or-replicate {A = ℕ} size (r / 8) 0) (zero_digit (2 ^ (r % 8)));
    }
  where
    zero_digit : (p : ℕ) → 0 / p % 2 ≡ 0
    zero_digit p = rw zero-div refl

read_header :
    (n bits : ℕ) (payload : Bytes)
    → Fits 8 n
    → Fits 8 bits
    → fetch (8 ∷ 8 ∷ []) (le 8 n ++ (le 8 bits ++ payload)) ≡ some (n ∷ bits ∷ [])
unfolding fetch
read_header n bits payload hn hb =
    rw (load-le 8 n (le 8 bits ++ payload) hn, fetch) (rw (load-le 8 bits payload hb, fetch) refl)

body_accepts :
    (malloc : ℕ → Bool) (n bits : ℕ) (payload : Bytes)
    → n < 2 ^ 56
    → 0 < bits
    → bits ≤ 32
    → length payload ≡ (n * bits + 7) / 8
    → malloc ((if n == 0 then 1 else n) * 4) ≡ true
    → bitpack_body malloc n bits (le 8 n ++ (le 8 bits ++ payload)) ≡ unpack_words n bits 0 payload
unfolding bitpack_body le
body_accepts malloc n bits payload few one most size mem =
    let bounded : n * bits ≤ n * 32 = grind arith in
    let width : ((bits == 0) || ltb 32 bits) ≡ false = ground arith in
    let total : (16 + (n * bits + 7) % u64 / 8) % u64 ≡ 16 + length payload = omega arith in
    let len : length (le 8 n ++ (le 8 bits ++ payload)) ≡ 16 + length payload = omega arith in
    let fits : ltb ((u64 - 1) / 4) (if n == 0 then 1 else n) ≡ false = ground arith in
    rw (width, total, len, (==_iff (16 + length payload) (16 + length payload)).1 refl, fits, mem)
      refl

-- Words that are packed are unpacked, if the allocations succeed and the sizes fit 64 bits.
pub bitpack_decode-bitpack_encode :
    (malloc : ℕ → Bool) (ws : List ℕ) (out : Bytes)
    → All IsWord32 ws
    → length ws < 2 ^ 56
    → malloc ((if length ws == 0 then 1 else length ws) * 4) ≡ true
    → bitpack_encode malloc ws ≡ ok out
    → bitpack_decode malloc out ≡ ok ws
unfolding bitpack_encode bitpack_decode
bitpack_decode-bitpack_encode malloc ws out h few mem e =
    elim (Bool-cases (malloc (16 + (length ws * bits_for ws + 7) / 8))) [
      | inl enough ↦ cc (packed, rw enough at e)
      | inr short ↦ absurd (cc (rw short at e))
    ]
  where
    bits : ℕ
    bits = bits_for ws

    payload : Bytes
    payload = pack_words bits ws 0 (replicate ((length ws * bits + 7) / 8) 0)

    size : length payload ≡ (length ws * bits + 7) / 8
    size =
        length-pack_words bits ws 0 (replicate ((length ws * bits + 7) / 8) 0)
        ∙ length-replicate {0} {A = ℕ} ((length ws * bits + 7) / 8) 0

    fitting : All (λ w. w < 2 ^ bits) ws × (0 < bits) × (bits ≤ 32)
    fitting = bits_for_fits ws h

    packed : bitpack_decode malloc (le 8 (length ws) ++ (le 8 bits ++ payload)) ≡ ok ws
    packed =
        rw
          (
            read_header (length ws) bits payload (omega (arith, few)) (omega (arith, fitting.2)),
            bitpack_decode,
          )
          (body_accepts malloc (length ws) bits payload few fitting.1 fitting.2 size mem
            ∙ unpack_words-pack_words bits ws 0 (replicate ((length ws * bits + 7) / 8) 0)
                (fresh_payload bits ws) fitting.0)

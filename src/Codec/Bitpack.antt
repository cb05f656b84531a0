-- ===== src/Codec/Bitpack.antt =====
-- The branch `FCE_CODEC_BITPACK` of src/codecs/fce_codecs.c: every word in as many bits as the
-- largest needs, the lowest bit first, bit `bitpos` in bit `bitpos % 8` of byte `bitpos / 8`.
pub mod Bit
pub mod Laws
pub mod Unpack
pub mod RoundTrip
use fast_cache_engine.Bytes.Words.{Bytes, le}
use fast_cache_engine.Common.{Bool, List, [], drop, get_elem?, get_or, if◌then◌else◌, length}
use fast_cache_engine.Common.{ltb, none, not, replicate, set, some, suc, zero, ℕ, ◌%◌, ◌*◌}
use fast_cache_engine.Common.{◌++◌, ◌+◌, ◌-◌, ◌/◌, ◌==◌, ◌^◌, ◌||◌, ◌∷◌}
use fast_cache_engine.Hash.{u64}
use fast_cache_engine.Layout.{fetch, field}
use Prim.Native.Nat.{bit_or}
use fast_cache_engine.Status.{Result, corrupt, err, fault, ok, out_of_memory, ◌>>=◌}

-- `for (i) if (in[i] > maxv) maxv = in[i];`
unfoldable pub max_word : ℕ → List ℕ → ℕ
max_word maxv [] = maxv
max_word maxv (x ∷ xs) = max_word (if ltb maxv x then x else maxv) xs

-- `while (bits < 32 && (maxv >> bits)) bits++;` with the rounds that are left.
unfoldable pub bit_width : ℕ → ℕ → ℕ → ℕ
bit_width zero maxv bits = bits
bit_width (suc rounds) maxv bits =
    let more = bit_width rounds maxv (bits + 1) in if maxv / 2 ^ bits == 0 then bits else more

-- `out[16 + bitpos / 8] |= (uint8_t)(1U << (bitpos % 8))`, on the payload.
unfoldable pub set_bit : Bytes → ℕ → Bytes
set_bit out bitpos = set out (bitpos / 8) (bit_or (get_or out (bitpos / 8) 0) (2 ^ (bitpos % 8)))

-- The loop over the bits `b` of `v`, of which `left` are to come.
unfoldable pub pack_word : ℕ → ℕ → ℕ → ℕ → Bytes → Bytes
unfolding set_bit
pack_word zero b v bitpos out = out
pack_word (suc left) b v bitpos out =
    pack_word left (b + 1) v (bitpos + 1) (if v / 2 ^ b % 2 == 1 then set_bit out bitpos else out)

unfoldable pub pack_words : ℕ → List ℕ → ℕ → Bytes → Bytes
unfolding pack_word
pack_words bits [] bitpos out = out
pack_words bits (v ∷ vs) bitpos out =
    pack_words bits vs (bitpos + bits) (pack_word bits 0 v bitpos out)

-- The widths that the words need, at least one bit.
unfoldable pub bits_for : List ℕ → ℕ
bits_for ws = let bits = bit_width 32 (max_word 0 ws) 0 in if bits == 0 then 1 else bits

-- `calloc` of the header and the payload, then the header and the bits.
unfoldable pub bitpack_encode : (ℕ → Bool) → List ℕ → Result Bytes
bitpack_encode malloc ws =
    let bits = bits_for ws in
    let payload = (length ws * bits + 7) / 8 in
    if malloc (16 + payload)
    then ok (le 8 (length ws) ++ (le 8 bits ++ pack_words bits ws 0 (replicate payload 0)))
    else err out_of_memory

-- `if ((p[bitpos / 8] >> (bitpos % 8)) & 1U) v |= 1U << b;` over the bits to come.
unfoldable pub unpack_word : ℕ → ℕ → ℕ → Bytes → ℕ → Result ℕ
unpack_word zero b bitpos p v = ok v
unpack_word (suc left) b bitpos p v = elim (get_elem? p (bitpos / 8)) [
  | none ↦ fault
  | some byte ↦
      unpack_word left (b + 1) (bitpos + 1) p
        (if byte / 2 ^ (bitpos % 8) % 2 == 1 then bit_or v (2 ^ b) else v)
]

unfoldable pub unpack_words : ℕ → ℕ → ℕ → Bytes → Result (List ℕ)
unfolding unpack_word
unpack_words zero bits bitpos p = ok []
unpack_words (suc n) bits bitpos p =
    let rest = unpack_words n bits (bitpos + bits) p in
    unpack_word bits 0 bitpos p 0 >>= λ v. rest >>= λ vs. ok (v ∷ vs)

-- The checks on the header's `n` and `bits`, then the bits. The sizes wrap at 64 bits, and
-- `fce_xcalloc` refuses a product that would.
unfoldable pub bitpack_body : (ℕ → Bool) → ℕ → ℕ → Bytes → Result (List ℕ)
bitpack_body malloc n bits input =
    if (bits == 0) || ltb 32 bits
    then err corrupt
    else if not ((16 + (n * bits + 7) % u64 / 8) % u64 == length input)
    then err corrupt
    else if ltb ((u64 - 1) / 4) (if n == 0 then 1 else n)
    then err out_of_memory
    else if malloc ((if n == 0 then 1 else n) * 4)
    then unpack_words n bits 0 (drop 16 input)
    else err out_of_memory

-- An input of less than 16 bytes has no header.
unfoldable pub bitpack_decode : (ℕ → Bool) → Bytes → Result (List ℕ)
unfolding bitpack_body
bitpack_decode malloc input = elim (fetch (8 ∷ 8 ∷ []) input) [
  | none ↦ err corrupt
  | some header ↦ bitpack_body malloc (field 0 header) (field 1 header) input
]

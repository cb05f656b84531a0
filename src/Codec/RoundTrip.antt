-- ===== src/Codec/RoundTrip.antt =====
-- Whatever a codec of src/codecs/fce_codecs.c encodes, it decodes to the same bytes.
use fast_cache_engine.Bytes.Words.{Bytes, IsByte}
use fast_cache_engine.Codec.{codec_copy, decode_bitpack, decode_delta, decode_rle, encode_bitpack}
use fast_cache_engine.Codec.{encode_delta, encode_rle, fce_codec_decode, fce_codec_encode}
use fast_cache_engine.Codec.Bitpack.RoundTrip.{bitpack_decode-bitpack_encode}
use fast_cache_engine.Codec.Delta.{
  delta_decode, delta_decode-delta_encode, delta_encode, delta_encode_shape,
}
use fast_cache_engine.Codec.Rle.{
  rle_decode-rle_encode, rle_encode, rle_encode-IsWord32, rle_encode_nonempty,
}
use fast_cache_engine.Codec.Words32.{
  IsWord32, bytes32, bytes32-words32, length-bytes32, length-words32,
}
use fast_cache_engine.Codec.Words32.{words32, words32-IsWord32, words32-bytes32}
use fast_cache_engine.Common.{==_iff, All, Bool, Bool-cases, List, ap, arith, false, if◌then◌else◌}
use fast_cache_engine.Common.{inl, inr, length, ltb, true, ℕ, ◌%◌, ◌*◌, ◌+◌, ◌/◌, ◌<◌, ◌==◌}
use fast_cache_engine.Common.{◌^◌, ◌≡◌}
use fast_cache_engine.Status.{>>=-eq-ok, ok, ok-injective}
use mathlib.Core.Path.{subst}

-- Allocations of less than 64 GiB succeed.
abbrev pub Plentiful : (ℕ → Bool) → Type 0
Plentiful malloc = (n : ℕ) → n < 2 ^ 36 → malloc n ≡ true

whole_words : (ds : List ℕ) → (length (bytes32 ds) % 4 == 0) ≡ true
whole_words ds = (==_iff _ 0).1 (omega (arith, length-bytes32 ds))

at_least_one-lt : (n : ℕ) → n < 2 ^ 35 → (if n == 0 then 1 else n) < 2 ^ 36
at_least_one-lt n h = ground arith

module _ (malloc : ℕ → Bool) (enough : Plentiful malloc) (input : Bytes)
    (bytes : All IsByte input) where
  words : (length input % 4 == 0) ≡ true → bytes32 (words32 input) ≡ input
  words whole = bytes32-words32 input ((==_iff _ 0).0 whole) bytes

  copy_back :
      (out : Bytes)
      → length input < 2 ^ 33
      → codec_copy malloc input ≡ ok out
      → codec_copy malloc out ≡ ok input
  unfolding codec_copy
  copy_back out short e =
      let mem =
        enough (if length input == 0 then 1 else length input)
          (at_least_one-lt (length input) (omega arith)) in
      cc (rw mem at e, e)

  delta_back :
      (out : Bytes)
      → length input < 2 ^ 33
      → encode_delta malloc input ≡ ok out
      → decode_delta malloc out ≡ ok input
  unfolding encode_delta decode_delta
  delta_back out short e = elim (Bool-cases (length input % 4 == 0)) [
    | inr odd ↦ absurd (cc (rw odd at e))
    | inl whole ↦
        let mem =
          enough (if length input == 0 then 1 else length input)
            (at_least_one-lt (length input) (omega arith)) in
        let (ds, e1, e2) =
          >>=-eq-ok (delta_encode (words32 input)) (λ (r : List ℕ). ok (bytes32 r))
            (rw (whole, mem) at e) in
        subst (λ t. decode_delta malloc t ≡ ok input) (ok-injective e2)
          (decoded ds (delta_encode_shape (words32 input) ds (words32-IsWord32 input bytes) e1)
            (delta_decode-delta_encode (words32 input) ds (words32-IsWord32 input bytes) e1)
            (words whole))
  ]
    where
      decoded :
          (ds : List ℕ)
          → All IsWord32 ds × (length ds ≡ length (words32 input))
          → delta_decode ds ≡ ok (words32 input)
          → bytes32 (words32 input) ≡ input
          → decode_delta malloc (bytes32 ds) ≡ ok input
      decoded ds shape back same =
          rw
            (
              whole_words ds,
              enough (if length (bytes32 ds) == 0 then 1 else length (bytes32 ds)) (
                  at_least_one-lt (length (bytes32 ds))
                    (omega (arith, length-bytes32 ds, shape.1, length-words32 input, short))),
              words32-bytes32 ds shape.0,
              back,
              decode_delta,
            )
            (ap ok same)

  rle_back :
      (out : Bytes)
      → length input < 2 ^ 33
      → encode_rle malloc input ≡ ok out
      → decode_rle malloc out ≡ ok input
  unfolding encode_rle decode_rle
  rle_back out short e = elim (Bool-cases (length input % 4 == 0)) [
    | inr odd ↦ absurd (cc (rw odd at e))
    | inl whole ↦
        subst (λ t. decode_rle malloc t ≡ ok input)
          (ok-injective (rw (whole, enough ((2 + length input / 4 * 2) * 4) (omega arith)) at e))
          (decoded (words whole))
  ]
    where
      ds : List ℕ
      ds = rle_encode (words32 input)

      long : ltb (length (bytes32 ds)) 4 ≡ false
      long = ground (arith, length-bytes32 ds, rle_encode_nonempty (words32 input))

      decoded : bytes32 (words32 input) ≡ input → decode_rle malloc (bytes32 ds) ≡ ok input
      decoded same =
          rw
            (
              long,
              whole_words ds,
              words32-bytes32 ds
                  (rle_encode-IsWord32 (words32 input) (words32-IsWord32 input bytes)),
              length-bytes32 ds,
              rle_decode-rle_encode malloc (words32 input)
                  (enough (length (words32 input) * 4) (omega (arith, length-words32 input, short)))
                  (omega (arith, length-words32 input, short)),
              decode_rle,
            )
            (ap ok same)

  bitpack_back :
      (out : Bytes)
      → length input < 2 ^ 33
      → encode_bitpack malloc input ≡ ok out
      → decode_bitpack malloc out ≡ ok input
  unfolding encode_bitpack decode_bitpack
  bitpack_back out short e = elim (Bool-cases (length input % 4 == 0)) [
    | inl whole ↦
        let n : ℕ = length (words32 input) in
        rw
          (bitpack_decode-bitpack_encode malloc (words32 input) out (words32-IsWord32 input bytes)
            (omega (arith, length-words32 input))
            (enough ((if n == 0 then 1 else n) * 4) (ground (arith, length-words32 input, short)))
            (rw whole at e))
          (ap ok (words whole))
    | inr odd ↦ absurd (cc (rw odd at e))
  ]

  -- For every codec that the library has without libzstd: an input below 8 GiB that is encoded is
  -- what decoding the result gives, when allocations of less than 64 GiB succeed.
  pub fce_codec_decode-fce_codec_encode :
      (codec : ℕ) (out : Bytes)
      → length input < 2 ^ 33
      → fce_codec_encode malloc codec input ≡ ok out
      → fce_codec_decode malloc codec out ≡ ok input
  unfolding fce_codec_encode fce_codec_decode
  fce_codec_decode-fce_codec_encode codec out short e =
      ground (arith, copy_back out, delta_back out, rle_back out, bitpack_back out)

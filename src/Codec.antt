-- ===== src/Codec.antt =====
-- The codecs of src/codecs/fce_codecs.c, in the build without libzstd. A buffer that is handed out
-- is a list of bytes, and `malloc n` says whether the one allocation of a call, of `n` bytes,
-- succeeds.
pub mod Words32
pub mod Delta
pub mod Rle
pub mod Bitpack
pub mod RoundTrip
pub mod Overread
use fast_cache_engine.Bytes.Words.{Bytes}
use fast_cache_engine.Codec.Bitpack.{bitpack_decode, bitpack_encode}
use fast_cache_engine.Codec.Delta.{delta_decode, delta_encode}
use fast_cache_engine.Codec.Rle.{rle_decode, rle_encode}
use fast_cache_engine.Codec.Words32.{bytes32, words32}
use fast_cache_engine.Common.{Bool, if◌then◌else◌, length, ltb, not, ℕ, ◌%◌, ◌*◌, ◌+◌, ◌/◌}
use fast_cache_engine.Common.{◌==◌, ◌||◌}
use fast_cache_engine.Schema.{
  codec_bitpack, codec_delta_i32, codec_none, codec_rle, codec_user_bytes,
}
use fast_cache_engine.Status.{Result, corrupt, err, invalid_argument, ok, out_of_memory}
use fast_cache_engine.Status.{unsupported, ◌>>=◌}

abbrev at_least_one : ℕ → ℕ
at_least_one n = if n == 0 then 1 else n

unfoldable pub codec_copy : (ℕ → Bool) → Bytes → Result Bytes
codec_copy malloc input =
    if malloc (at_least_one (length input)) then ok input else err out_of_memory

-- The branches for the three codecs of words.
unfoldable pub encode_delta : (ℕ → Bool) → Bytes → Result Bytes
encode_delta malloc input =
    if not (length input % 4 == 0)
    then err invalid_argument
    else if malloc (at_least_one (length input))
    then (delta_encode (words32 input) >>= λ out. ok (bytes32 out))
    else err out_of_memory

unfoldable pub encode_rle : (ℕ → Bool) → Bytes → Result Bytes
encode_rle malloc input =
    if not (length input % 4 == 0)
    then err invalid_argument
    else if malloc ((2 + length input / 4 * 2) * 4)
    then ok (bytes32 (rle_encode (words32 input)))
    else err out_of_memory

unfoldable pub encode_bitpack : (ℕ → Bool) → Bytes → Result Bytes
encode_bitpack malloc input =
    if not (length input % 4 == 0)
    then err invalid_argument
    else bitpack_encode malloc (words32 input)

unfoldable pub fce_codec_encode : (ℕ → Bool) → ℕ → Bytes → Result Bytes
fce_codec_encode malloc codec input =
    if (codec == codec_none) || (codec == codec_user_bytes)
    then codec_copy malloc input
    else if codec == codec_delta_i32
    then encode_delta malloc input
    else if codec == codec_rle
    then encode_rle malloc input
    else if codec == codec_bitpack
    then encode_bitpack malloc input
    else err unsupported

unfoldable pub decode_delta : (ℕ → Bool) → Bytes → Result Bytes
decode_delta malloc input =
    if not (length input % 4 == 0)
    then err corrupt
    else if malloc (at_least_one (length input))
    then (delta_decode (words32 input) >>= λ out. ok (bytes32 out))
    else err out_of_memory

unfoldable pub decode_rle : (ℕ → Bool) → Bytes → Result Bytes
decode_rle malloc input =
    if ltb (length input) 4 || not (length input % 4 == 0)
    then err corrupt
    else (rle_decode malloc (length input) (words32 input) >>= λ out. ok (bytes32 out))

unfoldable pub decode_bitpack : (ℕ → Bool) → Bytes → Result Bytes
decode_bitpack malloc input = bitpack_decode malloc input >>= λ out. ok (bytes32 out)

unfoldable pub fce_codec_decode : (ℕ → Bool) → ℕ → Bytes → Result Bytes
fce_codec_decode malloc codec input =
    if (codec == codec_none) || (codec == codec_user_bytes)
    then codec_copy malloc input
    else if codec == codec_delta_i32
    then decode_delta malloc input
    else if codec == codec_rle
    then decode_rle malloc input
    else if codec == codec_bitpack
    then decode_bitpack malloc input
    else err unsupported

unfoldable pub fce_codec_available : ℕ → Bool
fce_codec_available codec =
    (codec == codec_none)
    || ((codec == codec_delta_i32)
        || ((codec == codec_rle) || ((codec == codec_bitpack) || (codec == codec_user_bytes))))

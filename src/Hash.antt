-- ===== src/Hash.antt =====
-- `fnv1a64` and `hash_key` of src/core/fce_hash.c.
use fast_cache_engine.Bytes.Words.{Bytes}
use fast_cache_engine.Common.{Bool, [], arith, false, if◌then◌else◌, true, ℕ, ◌%◌, ◌*◌}
use fast_cache_engine.Common.{◌<◌, ◌^◌, ◌∷◌}
use fast_cache_engine.Common.Bits.{bit_xor-lt}
use Prim.Native.Nat.{bit_xor}

abbrev pub u64 : ℕ
u64 = 2 ^ 64

-- The loop over the bytes; the product wraps at 64 bits.
unfoldable pub fnv1a64_loop : Bytes → ℕ → ℕ
fnv1a64_loop [] h = h
fnv1a64_loop (b ∷ bs) h = fnv1a64_loop bs (bit_xor h b * 1099511628211 % u64)

unfoldable pub fnv1a64 : Bytes → ℕ → ℕ
unfolding fnv1a64_loop
fnv1a64 bs seed = fnv1a64_loop bs (bit_xor 1469598103934665603 seed)

pub record Hash128 : Type 0 where
  pub lo : ℕ
  pub hi : ℕ

-- The flag `FCE_FLAG_FORCE_HASH_COLLISION` gives every key the same hash.
unfoldable pub hash_key : Bool → Bytes → Hash128
unfolding fnv1a64
hash_key force_collision key =
    if force_collision
    then record { lo = 0x1111111111111111; hi = 0x2222222222222222 }
    else record { lo = fnv1a64 key 0xcbf29ce484222325; hi = fnv1a64 key 0x9e3779b97f4a7c15 }

fnv1a64_loop-lt : (bs : Bytes) (h : ℕ) → h < u64 → fnv1a64_loop bs h < u64
unfolding fnv1a64_loop
fnv1a64_loop-lt [] h p = p
fnv1a64_loop-lt (b ∷ bs) h p = fnv1a64_loop-lt bs (bit_xor h b * 1099511628211 % u64) (omega arith)

pub fnv1a64-lt : (bs : Bytes) (seed : ℕ) → seed < u64 → fnv1a64 bs seed < u64
unfolding fnv1a64
fnv1a64-lt bs seed h =
    fnv1a64_loop-lt bs (bit_xor 1469598103934665603 seed)
      (bit_xor-lt 64 1469598103934665603 seed (omega arith) h)

-- Both halves of a key's hash are 64-bit words, so that an index record can hold them.
pub hash_key-lt :
    (force : Bool) (key : Bytes) → ((hash_key force key).lo < u64) × ((hash_key force key).hi < u64)
unfolding hash_key
hash_key-lt true key = (omega arith, omega arith)
hash_key-lt false key = (
  fnv1a64-lt key 0xcbf29ce484222325 (omega arith),
  fnv1a64-lt key 0x9e3779b97f4a7c15 (omega arith),
)

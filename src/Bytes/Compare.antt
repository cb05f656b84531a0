-- ===== src/Bytes/Compare.antt =====
-- `range_ok`, `key_equal` and `key_bytes_cmp` of src/core/fce_hash.c.
use fast_cache_engine.Bytes.Words.{Bytes}
use fast_cache_engine.Common.{Bool, drop, false, if◌then◌else◌, leb, length, ltb, suc, true}
use fast_cache_engine.Common.{ℕ, ◌&&◌, ◌-◌, ◌==◌, ◌∷◌}
use fast_cache_engine.Common.Order.{then_by}
use Prim.Native.Nat.{Ordering, compare}

-- `memcmp` over `n` bytes. Every call stays inside both objects; the last clause is never reached.
unfoldable pub memcmp : ℕ → Bytes → Bytes → Ordering
memcmp (suc n) (x ∷ xs) (y ∷ ys) = then_by (compare x y) (memcmp n xs ys)
memcmp _ _ _ = Ordering.eq

abbrev pub is_eq : Ordering → Bool
is_eq Ordering.eq = true
is_eq _ = false

unfoldable pub range_ok : ℕ → ℕ → ℕ → Bool
range_ok off len size = leb off size && leb len (size - off)

-- The blob and the key come with their lengths.
unfoldable pub key_equal : Bytes → ℕ → ℕ → Bytes → Bool
unfolding range_ok memcmp
key_equal base off len key =
    (length key == len)
    && (range_ok off len (length base)
        && (if len == 0 then true else is_eq (memcmp len (drop off base) key)))

unfoldable pub key_bytes_cmp : Bytes → Bytes → Ordering
unfolding memcmp
key_bytes_cmp a b =
    let n = if ltb (length a) (length b) then length a else length b in
    let c = if n == 0 then Ordering.eq else memcmp n a b in
    elim c [
      | Ordering.eq ↦
          if length a == length b
          then Ordering.eq
          else if ltb (length a) (length b)
          then Ordering.lt
          else Ordering.gt
      | other ↦ other
    ]

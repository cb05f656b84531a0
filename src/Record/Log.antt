-- ===== src/Record/Log.antt =====
-- `LogIndexEntry` of src/internal/fce_internal.h and `cmp_log_index_entry` of
-- src/core/fce_build_records.c.
use fast_cache_engine.Common.{arith, if◌then◌else◌, ltb, not, ℕ, ◌==◌, ◌≡◌}
use Prim.Native.Nat.{Ordering, compare}

pub record LogIndexEntry : Type 0 where
  pub hash_lo : ℕ
  pub hash_hi : ℕ
  pub key_offset : ℕ
  pub key_len : ℕ
  pub value_len : ℕ
  pub value_offset : ℕ
  pub order : ℕ

unfoldable pub cmp_log_index_entry : LogIndexEntry → LogIndexEntry → Ordering
cmp_log_index_entry x y =
    if not (x.hash_hi == y.hash_hi)
    then (if ltb x.hash_hi y.hash_hi then Ordering.lt else Ordering.gt)
    else if not (x.hash_lo == y.hash_lo)
    then (if ltb x.hash_lo y.hash_lo then Ordering.lt else Ordering.gt)
    else if not (x.key_len == y.key_len)
    then (if ltb x.key_len y.key_len then Ordering.lt else Ordering.gt)
    else if not (x.key_offset == y.key_offset)
    then (if ltb x.key_offset y.key_offset then Ordering.lt else Ordering.gt)
    else if ltb x.order y.order
    then Ordering.lt
    else if ltb y.order x.order
    then Ordering.gt
    else Ordering.eq

-- Entries that agree up to the order ascend by the order of their puts.
pub cmp_log_index_entry_order :
    (x y : LogIndexEntry)
    → x.hash_hi ≡ y.hash_hi
    → x.hash_lo ≡ y.hash_lo
    → x.key_len ≡ y.key_len
    → x.key_offset ≡ y.key_offset
    → cmp_log_index_entry x y ≡ compare x.order y.order
unfolding cmp_log_index_entry
cmp_log_index_entry_order x y a b c d = ground arith

-- ===== src/Entry.antt =====
-- `SortedEntry` of src/internal/fce_internal.h, `cmp_sorted_entry` and `write_keys_values` of
-- src/core/fce_build_records.c.
pub mod Order
pub mod Write
pub mod Reads
use fast_cache_engine.Bytes.Words.{Bytes}
use fast_cache_engine.Common.{List, Option, [], if◌then◌else◌, ltb, map, none, not, some}
use fast_cache_engine.Common.{ℕ, ◌==◌, ◌∷◌}
use fast_cache_engine.Layout.{element, field, store_all}
use Prim.Native.Nat.{Ordering}

pub record SortedEntry : Type 0 where
  pub hash_lo : ℕ
  pub hash_hi : ℕ
  pub key_offset : ℕ
  pub key_len : ℕ
  pub reserved0 : ℕ
  pub value_offset : ℕ
  pub value_len : ℕ
  pub flags : ℕ

-- The widths of the fields; the struct has no padding.
abbrev pub entry_layout : List ℕ
entry_layout = 8 ∷ 8 ∷ 8 ∷ 4 ∷ 4 ∷ 8 ∷ 4 ∷ 4 ∷ []

abbrev pub entry_fields : SortedEntry → List ℕ
entry_fields e =
    e.hash_lo ∷ e.hash_hi ∷ e.key_offset ∷ e.key_len ∷ e.reserved0 ∷ e.value_offset ∷ e.value_len
    ∷ e.flags ∷ []

abbrev pub entry_of_fields : List ℕ → SortedEntry
entry_of_fields vs = record {
  hash_lo = field 0 vs;
  hash_hi = field 1 vs;
  key_offset = field 2 vs;
  key_len = field 3 vs;
  reserved0 = field 4 vs;
  value_offset = field 5 vs;
  value_len = field 6 vs;
  flags = field 7 vs;
}

-- `e[i]` of an index blob; `none` lies outside of it.
unfoldable pub entry_at : Bytes → ℕ → Option SortedEntry
entry_at index i = elim (element entry_layout index i) [
  | none ↦ none
  | some vs ↦ some (entry_of_fields vs)
]

-- The bytes of an array of entries.
unfoldable pub entries_bytes : List SortedEntry → Bytes
entries_bytes es = store_all entry_layout (map entry_fields es)

unfoldable pub cmp_sorted_entry : SortedEntry → SortedEntry → Ordering
cmp_sorted_entry x y =
    if not (x.hash_hi == y.hash_hi)
    then (if ltb x.hash_hi y.hash_hi then Ordering.lt else Ordering.gt)
    else if not (x.hash_lo == y.hash_lo)
    then (if ltb x.hash_lo y.hash_lo then Ordering.lt else Ordering.gt)
    else if not (x.key_len == y.key_len)
    then (if ltb x.key_len y.key_len then Ordering.lt else Ordering.gt)
    else if not (x.key_offset == y.key_offset)
    then (if ltb x.key_offset y.key_offset then Ordering.lt else Ordering.gt)
    else Ordering.eq

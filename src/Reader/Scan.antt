-- ===== src/Reader/Scan.antt =====
-- The scans and iterators of src/api/fce_reader_api.c.
use fast_cache_engine.Builder.{Buffer, content, is_null, len}
use fast_cache_engine.Bytes.Compare.{is_eq, key_bytes_cmp, memcmp, range_ok}
use fast_cache_engine.Bytes.Range.{slice}
use fast_cache_engine.Bytes.Words.{Bytes}
use fast_cache_engine.Common.{Bool, List, Option, [], drop, false, get_elem?, if◌then◌else◌}
use fast_cache_engine.Common.{leb, length, none, not, some, suc, true, zero, ℕ, ◌&&◌, ◌*◌}
use fast_cache_engine.Common.{◌+◌, ◌/◌, ◌==◌, ◌||◌, ◌∷◌}
use fast_cache_engine.Direct.{slot_at}
use fast_cache_engine.Entry.{entry_at}
use fast_cache_engine.Layout.{element, fetch, field}
use fast_cache_engine.Mph.{mph_header_layout, mph_slot_layout}
use Prim.Native.Nat.{Ordering}
use fast_cache_engine.Radix.{RadixHeader, radix_parts, radix_value, reads}
use fast_cache_engine.Reader.{FceReader, GetEnv, plain, returned_value}
use fast_cache_engine.Reader.Validate.{places_ok}
use fast_cache_engine.Schema.{
  backend_direct_table, backend_mph, backend_radix, backend_sorted_index,
}
use fast_cache_engine.Status.{Result, corrupt, err, fault, invalid_argument, not_found}
use fast_cache_engine.Status.{ok, out_of_memory, unsupported, ◌>>=◌, ◌>>◌}

-- A loop that collects the places from `i` on that pass a test.
abbrev pub select : ℕ → ℕ → (ℕ → Result Bool) → Result (List ℕ)
select zero i test = ok []
select (suc n) i test =
    test i >>= λ passes. select n (suc i) test >>= λ rest. ok (if passes then i ∷ rest else rest)

-- A stored key, where the C code compares it without a test of its place.
abbrev pub key_bytes_at : FceReader → ℕ → ℕ → Result Bytes
key_bytes_at r off n =
    if range_ok off n (length r.keys_blob) then ok (slice r.keys_blob off n) else fault

abbrev pub is_lt : Ordering → Bool
is_lt Ordering.lt = true
is_lt _ = false

-- `start <= key` and `key < end`
unfoldable pub in_range : Bytes → Bytes → Bytes → Bool
in_range start end key = not (is_lt (key_bytes_cmp key start)) && is_lt (key_bytes_cmp key end)

unfoldable pub range_test : FceReader → Bytes → Bytes → ℕ → Result Bool
unfolding in_range
range_test r start end i = reads (entry_at r.index_blob i) >>= λ e.
    key_bytes_at r e.key_offset e.key_len >>= λ key. ok (in_range start end key)

unfoldable pub radix_range_test : FceReader → RadixHeader → Bytes → Bytes → ℕ → Result Bool
unfolding in_range
radix_range_test r h start end i = reads (radix_value h r.index_blob i) >>= λ v.
    key_bytes_at r v.key_offset v.key_len >>= λ key. ok (in_range start end key)

unfoldable pub prefix_test : FceReader → Bytes → ℕ → Result Bool
prefix_test r prefix i = reads (entry_at r.index_blob i) >>= λ e. ok (
    leb (length prefix) e.key_len
    && (range_ok e.key_offset e.key_len (length r.keys_blob)
        && ((length prefix == 0)
            || is_eq (memcmp (length prefix) (drop e.key_offset r.keys_blob) prefix))))

-- `FceIterator`
pub record FceIterator : Type 0 where
  pub matches : List ℕ
  pub pos : ℕ
  pub backend : ℕ

-- What the allocations of a scan answer: the iterator with its arena, and the array of matches.
pub record ScanEnv : Type 0 where
  pub created : Result (Unit {0})
  pub array : ℕ → Bool

-- A scan after its arguments: an iterator at the front of its matches; `cap` is the size of the array.
unfoldable pub scan_with : ScanEnv → FceReader → ℕ → Result (List ℕ) → Result FceIterator
scan_with e r cap matches = e.created >>= λ _.
    if not (e.array ((if cap == 0 then 1 else cap) * 8))
    then err out_of_memory
    else (matches >>= λ ms. ok (record { matches = ms; pos = 0; backend = r.schema.backend }))

unfoldable pub range_matches : FceReader → Bytes → Bytes → Result (List ℕ)
unfolding range_test radix_range_test
range_matches r start end =
    if r.schema.backend == backend_radix
    then elim (radix_parts r.index_blob) [
      | none ↦ err corrupt
      | some h ↦ select h.value_count 0 (radix_range_test r h start end)
    ]
    else select (length r.index_blob / 48) 0 (range_test r start end)

unfoldable pub fce_reader_range_scan : ScanEnv → FceReader → Buffer → Buffer → Result FceIterator
unfolding scan_with range_matches
fce_reader_range_scan e r start end =
    let backend = r.schema.backend in
    if (is_null start && not (len start == 0)) || (is_null end && not (len end == 0))
    then err invalid_argument
    else if not (backend == backend_sorted_index) && not (backend == backend_radix)
    then err unsupported
    else if not (plain r.schema.key_codec)
    then err unsupported
    else scan_with e r
        (if backend == backend_radix then r.manifest.record_count else length r.index_blob / 48)
        (range_matches r (content start) (content end))

-- The scan of a sorted index for a prefix.
unfoldable pub prefix_matches : FceReader → Bytes → Result (List ℕ)
unfolding prefix_test
prefix_matches r prefix = select (length r.index_blob / 48) 0 (prefix_test r prefix)

unfoldable pub slot_present : FceReader → ℕ → Result Bool
slot_present r i = reads (slot_at r.index_blob i) >>= λ s. ok (not (s.present == 0))

unfoldable pub mph_slot_present : FceReader → ℕ → ℕ → Result Bool
mph_slot_present r slots_offset i =
    reads (element mph_slot_layout (drop slots_offset r.index_blob) i) >>= λ vs.
    ok (not (field 0 vs == 0))

unfoldable pub fce_reader_scan_all : ScanEnv → FceReader → Result FceIterator
unfolding scan_with slot_present mph_slot_present
fce_reader_scan_all e r =
    let backend = r.schema.backend in
    let n = length r.index_blob in
    if backend == backend_sorted_index
    then scan_with e r (n / 48) (select (n / 48) 0 (λ i. ok true))
    else if backend == backend_radix
    then scan_with e r r.manifest.record_count (select r.manifest.record_count 0 (λ i. ok true))
    else if backend == backend_direct_table
    then scan_with e r (n / 40) (select (n / 40) 0 (slot_present r))
    else if backend == backend_mph
    then scan_with e r r.manifest.record_count (
        reads (fetch mph_header_layout r.index_blob) >>= λ mh.
        select (field 2 mh) 0 (mph_slot_present r (field 4 mh)))
    else (e.created >> err unsupported)

-- The key and the stored value at two places.
unfoldable pub item_at : FceReader → ℕ → ℕ → ℕ → ℕ → Result (Bytes × Bytes)
item_at r key_offset key_len value_offset value_len =
    if places_ok r key_offset key_len value_offset value_len
    then ok (slice r.keys_blob key_offset key_len, slice r.values_blob value_offset value_len)
    else err corrupt

-- The item in the place `i` of the index.
unfoldable pub current_item : FceReader → ℕ → ℕ → Result (Bytes × Bytes)
unfolding item_at
current_item r backend i =
    if backend == backend_radix
    then elim (radix_parts r.index_blob) [
      | none ↦ err corrupt
      | some h ↦ reads (radix_value h r.index_blob i) >>= λ v.
          item_at r v.key_offset v.key_len v.value_offset v.value_len
    ]
    else if backend == backend_sorted_index
    then (reads (entry_at r.index_blob i) >>= λ e.
        item_at r e.key_offset e.key_len e.value_offset e.value_len)
    else if backend == backend_direct_table
    then (reads (slot_at r.index_blob i) >>= λ s.
        if s.present == 0
        then err corrupt
        else item_at r s.key_offset s.key_len s.value_offset s.value_len)
    else if backend == backend_mph
    then (reads (fetch mph_header_layout r.index_blob) >>= λ mh.
        reads (element mph_slot_layout (drop (field 4 mh) r.index_blob) i) >>= λ vs.
        if field 0 vs == 0
        then err corrupt
        else item_at r (field 4 vs) (field 5 vs) (field 7 vs) (field 6 vs))
    else err unsupported

-- The item with its value as the caller gets it; `e` says whether the allocations succeed.
unfoldable pub next_item : GetEnv → FceReader → ℕ → Option ℕ → Result (Bytes × Bytes)
unfolding current_item
next_item e r backend none = err not_found
next_item e r backend (some i) = current_item r backend i >>= λ item.
    returned_value e.value_malloc e.copy r item.1 >>= λ value. ok (item.0, value)

-- The place goes on where there is a match, unless no index can be read there.
unfoldable pub advanced : FceReader → FceIterator → FceIterator
advanced r it =
    let stays =
      if it.backend == backend_radix
      then elim (radix_parts r.index_blob) [ none ↦ true | some h ↦ false ]
      else not (
          (it.backend == backend_sorted_index)
          || ((it.backend == backend_direct_table) || (it.backend == backend_mph))) in
    if stays || leb (length it.matches) it.pos then it else record it { pos = it.pos + 1 }

unfoldable pub fce_iterator_next :
    GetEnv → FceReader → FceIterator → FceIterator × Result (Bytes × Bytes)
unfolding next_item advanced
fce_iterator_next e r it = (advanced r it, next_item e r it.backend (get_elem? it.matches it.pos))

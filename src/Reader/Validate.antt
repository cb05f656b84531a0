-- ===== src/Reader/Validate.antt =====
-- `validate_reader_files` of src/api/fce_reader_api.c.
use fast_cache_engine.Bytes.Compare.{range_ok}
use fast_cache_engine.Bytes.Words.{Bytes}
use fast_cache_engine.Common.{Bool, List, Option, drop, false, if◌then◌else◌, leb, length}
use fast_cache_engine.Common.{ltb, none, not, some, suc, true, zero, ℕ, ◌%◌, ◌&&◌, ◌*◌}
use fast_cache_engine.Common.{◌+◌, ◌/◌, ◌==◌, ◌^◌, ◌||◌}
use fast_cache_engine.Crc.{crc64_file}
use fast_cache_engine.Direct.{slot_at}
use fast_cache_engine.Entry.{entry_at}
use fast_cache_engine.Env.{Env, File, index_file, join_path, keys_file, log_file, reopen}
use fast_cache_engine.Env.{values_file}
use fast_cache_engine.Hash.{u64}
use fast_cache_engine.Layout.{element, fetch, field}
use fast_cache_engine.Mph.{fce_mph_magic, mph_header_layout, mph_slot_layout}
use fast_cache_engine.Radix.{RadixHeader, RadixNode, radix_edge, radix_header, radix_magic}
use fast_cache_engine.Radix.{radix_no_value, radix_node, radix_value, reads}
use fast_cache_engine.Reader.{FceReader}
use fast_cache_engine.Schema.{FceSchema, backend_direct_table, backend_mph, backend_radix}
use fast_cache_engine.Schema.{backend_sorted_index, fce_schema_hash}
use fast_cache_engine.Status.{Result, corrupt, err, ok, out_of_memory, schema_mismatch}
use fast_cache_engine.Status.{◌>>=◌, ◌>>◌}

-- `for (i = i; i < i + n; i++)` with a test that may return.
abbrev pub each : ℕ → ℕ → (ℕ → Result (Unit {0})) → Result (Unit {0})
each zero i test = ok tt
each (suc n) i test = test i >> each n (suc i) test

-- The same, counting the rounds that say so.
abbrev pub count_each : ℕ → ℕ → (ℕ → Result Bool) → Result ℕ
count_each zero i test = ok 0
count_each (suc n) i test = test i >>= λ counted.
    count_each n (suc i) test >>= λ rest. ok (if counted then suc rest else rest)

abbrev pub guard : Bool → Result (Unit {0})
guard passes = if passes then ok tt else err corrupt

-- The key and the value lie inside of their blobs.
abbrev pub places_ok : FceReader → ℕ → ℕ → ℕ → ℕ → Bool
places_ok r key_offset key_len value_offset value_len =
    range_ok key_offset key_len (length r.keys_blob)
    && range_ok value_offset value_len (length r.values_blob)

unfoldable pub validate_entry : FceReader → ℕ → Result (Unit {0})
validate_entry r i = reads (entry_at r.index_blob i) >>= λ e.
    guard (places_ok r e.key_offset e.key_len e.value_offset e.value_len)

unfoldable pub validate_sorted : FceReader → Result (Unit {0})
unfolding validate_entry
validate_sorted r =
    let n = length r.index_blob / 48 in
    guard (r.manifest.index_size % 48 == 0)
    >> guard (n == r.manifest.record_count)
    >> each n 0 (validate_entry r)

-- A slot of a direct table, or of an MPH index below, that is present counts.
unfoldable pub validate_slot : FceReader → ℕ → Result Bool
validate_slot r i = reads (slot_at r.index_blob i) >>= λ s.
    if s.present == 0
    then ok false
    else (guard (places_ok r s.key_offset s.key_len s.value_offset s.value_len) >> ok true)

unfoldable pub validate_direct : FceReader → Result (Unit {0})
unfolding validate_slot
validate_direct r =
    guard (r.manifest.index_size % 40 == 0)
    >> (count_each (length r.index_blob / 40) 0 (validate_slot r) >>= λ present.
        guard (present == r.manifest.record_count))

unfoldable pub validate_mph_slot : FceReader → ℕ → ℕ → Result Bool
validate_mph_slot r slots_offset i =
    reads (element mph_slot_layout (drop slots_offset r.index_blob) i) >>= λ vs.
    if field 0 vs == 0
    then ok false
    else (guard (places_ok r (field 4 vs) (field 5 vs) (field 7 vs) (field 6 vs)) >> ok true)

-- The header's fields are those of `mh`; the products and sums are 64-bit words.
unfoldable pub validate_mph_parts : FceReader → List ℕ → Result (Unit {0})
unfolding validate_mph_slot
validate_mph_parts r mh =
    let size = length r.index_blob in
    let buckets = field 1 mh * 8 % u64 in
    let slots = field 2 mh * 48 % u64 in
    guard (
      (field 0 mh == fce_mph_magic)
      && ((field 1 mh == r.manifest.record_count) && (field 2 mh == r.manifest.record_count)))
    >> guard (range_ok (field 3 mh) buckets size && range_ok (field 4 mh) slots size)
    >> guard (
        (field 3 mh == 40)
        && ((field 4 mh == (field 3 mh + buckets) % u64) && ((field 4 mh + slots) % u64 == size)))
    >> (count_each (field 2 mh) 0 (validate_mph_slot r (field 4 mh)) >>= λ present.
        guard (present == r.manifest.record_count))

unfoldable pub validate_mph : FceReader → Result (Unit {0})
unfolding validate_mph_parts
validate_mph r = elim (fetch mph_header_layout r.index_blob) [
  | none ↦ err corrupt
  | some mh ↦ validate_mph_parts r mh
]

-- The edges of a node from its `j`-th on, of which `prev` is the label before; the places of edges are
-- 32-bit words.
unfoldable pub validate_edges : FceReader → RadixHeader → RadixNode → ℕ → ℕ → ℕ → Result (Unit {0})
validate_edges r h node zero j prev = ok tt
validate_edges r h node (suc n) j prev =
    reads (radix_edge h r.index_blob ((node.first_edge + j) % 2 ^ 32)) >>= λ e.
    guard (ltb e.child_index h.node_count)
    >> guard ((j == 0) || ltb prev e.label)
    >> validate_edges r h node n (suc j) e.label

-- A node with a value counts.
unfoldable pub validate_node : FceReader → RadixHeader → ℕ → Result Bool
unfolding validate_edges
validate_node r h i = reads (radix_node h r.index_blob i) >>= λ node.
    guard (leb (node.first_edge + node.edge_count) h.edge_count)
    >> guard ((node.value_index == radix_no_value) || ltb node.value_index h.value_count)
    >> validate_edges r h node node.edge_count 0 0
    >> ok (not (node.value_index == radix_no_value))

unfoldable pub validate_radix_value : FceReader → RadixHeader → ℕ → Result (Unit {0})
validate_radix_value r h i = reads (radix_value h r.index_blob i) >>= λ v.
    guard (places_ok r v.key_offset v.key_len v.value_offset v.value_len)

unfoldable pub validate_radix_parts : FceReader → RadixHeader → Result (Unit {0})
unfolding validate_node validate_radix_value
validate_radix_parts r h =
    let size = length r.index_blob in
    let nodes = h.node_count * 16 % u64 in
    let edges = h.edge_count * 8 % u64 in
    let values = h.value_count * 24 % u64 in
    guard (
      (h.magic == radix_magic)
      && (not (h.node_count == 0) && (h.value_count == r.manifest.record_count)))
    >> guard (
        range_ok h.nodes_offset nodes size
        && (range_ok h.edges_offset edges size && range_ok h.values_offset values size))
    >> guard (
        (h.nodes_offset == 56)
        && ((h.edges_offset == (h.nodes_offset + nodes) % u64)
            && ((h.values_offset == (h.edges_offset + edges) % u64)
                && ((h.values_offset + values) % u64 == size))))
    >> (count_each h.node_count 0 (validate_node r h) >>= λ terminals.
        guard (terminals == r.manifest.record_count)
        >> each h.value_count 0 (validate_radix_value r h))

unfoldable pub validate_radix : FceReader → Result (Unit {0})
unfolding validate_radix_parts
validate_radix r = elim (radix_header r.index_blob) [
  | none ↦ err corrupt
  | some h ↦ validate_radix_parts r h
]

-- A file that is not empty has the checksum of the manifest. The blob is what the file holds.
unfoldable pub validate_file : Env → File → Bytes → ℕ → ℕ → Result (Unit {0})
validate_file env f blob size crc =
    guard ((size == 0) || (crc64_file (if env.succeeds (reopen f) then some blob else none) == crc))

-- `expected` is the hash of the expected schema, if there is one.
unfoldable pub validate_sizes : FceReader → Option FceSchema → Result (Unit {0})
validate_sizes r expected =
    let m = r.manifest in
    elim expected [
      | none ↦ ok tt
      | some s ↦ if fce_schema_hash s == m.schema_hash then ok tt else err schema_mismatch
    ]
    >> guard (
        (m.index_size == length r.index_blob)
        && ((m.keys_size == length r.keys_blob)
            && ((m.values_size == length r.values_blob) && (m.log_size == length r.log_blob))))

-- The tests of all backends.
unfoldable pub validate_files : Env → FceReader → Option FceSchema → Result (Unit {0})
unfolding validate_sizes validate_file
validate_files env r expected =
    let m = r.manifest in
    let path : File → Bool = λ f. env.succeeds (join_path f 1) in
    validate_sizes r expected
    >> (if path index_file && (path keys_file && (path values_file && path log_file))
        then ok tt
        else err out_of_memory)
    >> validate_file env index_file r.index_blob m.index_size m.index_crc64
    >> validate_file env keys_file r.keys_blob m.keys_size m.keys_crc64
    >> validate_file env values_file r.values_blob m.values_size m.values_crc64
    >> validate_file env log_file r.log_blob m.log_size m.log_crc64

-- Those of the backend.
unfoldable pub validate_backend : FceReader → Result (Unit {0})
unfolding validate_sorted validate_radix validate_direct validate_mph
validate_backend r =
    let backend = r.manifest.backend_kind in
    if backend == backend_sorted_index
    then validate_sorted r
    else if backend == backend_radix
    then validate_radix r
    else if backend == backend_direct_table
    then validate_direct r
    else if backend == backend_mph
    then validate_mph r
    else ok tt

unfoldable pub validate_reader_files : Env → FceReader → Option FceSchema → Result (Unit {0})
unfolding validate_files validate_backend
validate_reader_files env r expected = validate_files env r expected >> validate_backend r

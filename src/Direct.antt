-- ===== src/Direct.antt =====
-- `DirectSlot` of src/internal/fce_internal.h, and `freeze_direct` and `get_direct` of
-- src/backends/fce_backend_direct.c.
pub mod Slots
pub mod Fill
pub mod Freeze
use fast_cache_engine.Bytes.Compare.{range_ok}
use fast_cache_engine.Bytes.Range.{slice}
use fast_cache_engine.Bytes.Words.{Bytes, rd64}
use fast_cache_engine.Common.{List, Option, [], if◌then◌else◌, leb, length, ltb, map, none}
use fast_cache_engine.Common.{not, replicate, set, some, ℕ, ◌%◌, ◌&&◌, ◌*◌, ◌+◌, ◌-◌, ◌/◌}
use fast_cache_engine.Common.{◌==◌, ◌||◌, ◌∷◌}
use fast_cache_engine.Crc.{crc64_file}
use fast_cache_engine.Entry.{SortedEntry}
use fast_cache_engine.Entry.Write.{Written, write_keys_values}
use fast_cache_engine.Env.{Env, File, index_file, join_path, keys_file, manifest_file}
use fast_cache_engine.Env.{reopen, values_file, write_file}
use fast_cache_engine.Hash.{u64}
use fast_cache_engine.Layout.{element, field, store_all}
use fast_cache_engine.Manifest.{FceManifestInfo, make_manifest, manifest_bytes}
use Prim.Native.Nat.{bit_and}
use fast_cache_engine.Qsort.{Qsort}
use fast_cache_engine.Record.{BuildRecord, cmp_build_by_key, dedupe_records}
use fast_cache_engine.Schema.{FceSchema}
use fast_cache_engine.Sorted.{Files, forced}
use fast_cache_engine.Status.{Result, corrupt, err, fault, invalid_argument, not_found}
use fast_cache_engine.Status.{ok, out_of_memory, ◌>>=◌, ◌>>◌}

pub record DirectSlot : Type 0 where
  pub present : ℕ
  pub key_u64 : ℕ
  pub key_offset : ℕ
  pub key_len : ℕ
  pub value_len : ℕ
  pub value_offset : ℕ

-- The widths of the fields; the second is the array `reserved`.
abbrev pub slot_layout : List ℕ
slot_layout = 1 ∷ 7 ∷ 8 ∷ 8 ∷ 4 ∷ 4 ∷ 8 ∷ []

abbrev pub slot_fields : DirectSlot → List ℕ
slot_fields s =
    s.present ∷ 0 ∷ s.key_u64 ∷ s.key_offset ∷ s.key_len ∷ s.value_len ∷ s.value_offset ∷ []

abbrev pub slot_of_fields : List ℕ → DirectSlot
slot_of_fields vs = record {
  present = field 0 vs;
  key_u64 = field 2 vs;
  key_offset = field 3 vs;
  key_len = field 4 vs;
  value_len = field 5 vs;
  value_offset = field 6 vs;
}

-- `s[i]` of an index blob; `none` lies outside of it.
unfoldable pub slot_at : Bytes → ℕ → Option DirectSlot
slot_at index i = elim (element slot_layout index i) [
  | none ↦ none
  | some vs ↦ some (slot_of_fields vs)
]

unfoldable pub slots_bytes : List DirectSlot → Bytes
slots_bytes slots = store_all slot_layout (map slot_fields slots)

-- The first loop: every key has eight bytes; the greatest of them.
unfoldable pub greatest_key : List BuildRecord → ℕ → Result ℕ
greatest_key [] max_key = ok max_key
greatest_key (r ∷ rs) max_key =
    let rest = greatest_key rs (if ltb max_key (rd64 r.key) then rd64 r.key else max_key) in
    if length r.key == 8 then rest else err invalid_argument

abbrev pub empty_slot : DirectSlot
empty_slot = record {
  present = 0;
  key_u64 = 0;
  key_offset = 0;
  key_len = 0;
  value_len = 0;
  value_offset = 0;
}

abbrev pub full_slot : BuildRecord → SortedEntry → DirectSlot
full_slot r e = record {
  present = 1;
  key_u64 = rd64 r.key;
  key_offset = e.key_offset;
  key_len = e.key_len;
  value_len = e.value_len;
  value_offset = e.value_offset;
}

-- The second loop.
unfoldable pub fill_slots : List BuildRecord → List SortedEntry → List DirectSlot → List DirectSlot
fill_slots (r ∷ rs) (e ∷ es) slots = fill_slots rs es (set slots (rd64 r.key) (full_slot r e))
fill_slots _ _ slots = slots

abbrev pub flag_allow_sparse : ℕ
flag_allow_sparse = 1

abbrev crc_of : Env → File → Bytes → ℕ
crc_of env f bytes = crc64_file (if env.succeeds (reopen f) then some bytes else none)

unfoldable pub direct_manifest : Env → FceSchema → ℕ → ℕ → Written → Bytes → FceManifestInfo
direct_manifest env s count slots_count w index =
    let m = make_manifest env.now s count in
    record {
      magic = m.magic;
      manifest_version = m.manifest_version;
      schema_version = m.schema_version;
      algorithm_version = m.algorithm_version;
      backend_kind = m.backend_kind;
      lookup_kind = m.lookup_kind;
      key_kind = m.key_kind;
      value_kind = m.value_kind;
      key_codec = m.key_codec;
      value_codec = m.value_codec;
      record_count = m.record_count;
      index_size = slots_count * 40 % u64;
      keys_size = w.keys_size;
      values_size = w.values_size;
      log_size = m.log_size;
      build_unix_time = m.build_unix_time;
      schema_hash = m.schema_hash;
      index_crc64 = crc_of env index_file index;
      keys_crc64 = crc_of env keys_file w.keys;
      values_crc64 = crc_of env values_file w.values;
      log_crc64 = m.log_crc64;
      endian_tag = m.endian_tag;
      backend_meta0 = slots_count;
      backend_meta1 = m.backend_meta1;
      fixed_key_size = m.fixed_key_size;
      fixed_value_size = m.fixed_value_size;
      direct_table_key_bits = m.direct_table_key_bits;
      reserved0 = m.reserved0;
    }

-- The index file and the manifest. The paths for the checksums are not tested: without one,
-- `fopen` gets a null pointer.
unfoldable pub finish_direct : Env → FceSchema → ℕ → ℕ → Written → Bytes → Result Files
finish_direct env s count slots_count w index =
    let m = direct_manifest env s count slots_count w index in
    if not (env.succeeds (join_path index_file 0))
    then err out_of_memory
    else (write_file env index_file (length index)
        >> (if not (env.succeeds (join_path index_file 1))
              || (not (env.succeeds (join_path keys_file 1))
                  || not (env.succeeds (join_path values_file 1)))
            then fault
            else if not (env.succeeds (join_path manifest_file 0))
            then err out_of_memory
            else (write_file env manifest_file (length (manifest_bytes m))
                >> ok (record {
                  index = index;
                  keys = w.keys;
                  values = w.values;
                  manifest = manifest_bytes m;
                }))))

-- From the two arrays on; a cache without a record still has the slot 0.
unfoldable pub fill_direct : Env → FceSchema → List BuildRecord → ℕ → Result Files
fill_direct env s records slots_count =
    if not (env.malloc 2 (slots_count * 40))
      || not (env.malloc 3 ((if length records == 0 then 1 else length records) * 48))
    then err out_of_memory
    else (write_keys_values env (forced s) records >>= λ w.
        finish_direct env s (length records) slots_count w
          (slots_bytes (fill_slots records w.entries (replicate slots_count empty_slot))))

-- From the deduplicated records on: the tests of the greatest key.
unfoldable pub direct_records : Env → FceSchema → List BuildRecord → Result Files
direct_records env s records = greatest_key records 0 >>= λ max_key.
    let slots_count = (max_key + 1) % u64 in
    if not (length records == 0)
      && (ltb (length records * 4 % u64) slots_count
          && (bit_and s.user_flags flag_allow_sparse == 0))
    then err invalid_argument
    else if ltb ((u64 - 1) / 40 - 1) max_key
    then err out_of_memory
    else fill_direct env s records slots_count

unfoldable pub freeze_direct :
    Env → Qsort cmp_build_by_key → FceSchema → List BuildRecord → Result Files
freeze_direct env sort_records s records =
    dedupe_records env.malloc sort_records (not (s.allow_duplicate_put == 0)) records
    >>= direct_records env s

unfoldable pub get_direct : Bytes → Bytes → ℕ → Result Bytes
get_direct index values key =
    let n = length index / 40 in
    if leb n key then err not_found else elim (slot_at index key) [
      | none ↦ fault
      | some slot ↦
          if (slot.present == 0) || not (slot.key_u64 == key)
          then err not_found
          else if range_ok slot.value_offset slot.value_len (length values)
          then ok (slice values slot.value_offset slot.value_len)
          else err corrupt
    ]

-- ===== src/Sorted.antt =====
-- `freeze_sorted_like` and `get_sorted` of src/backends/fce_backend_sorted.c.
pub mod Scan
pub mod Described
pub mod Lookup
pub mod Freeze
pub mod Total
pub mod Measured
use fast_cache_engine.Bytes.Compare.{key_equal, range_ok}
use fast_cache_engine.Bytes.Range.{slice}
use fast_cache_engine.Bytes.Words.{Bytes}
use fast_cache_engine.Common.{Bool, List, if◌then◌else◌, length, none, not, some, suc, zero}
use fast_cache_engine.Common.{ℕ, ◌%◌, ◌&&◌, ◌*◌, ◌-◌, ◌/◌, ◌==◌, ◌||◌}
use fast_cache_engine.Crc.{crc64_file}
use fast_cache_engine.Entry.{SortedEntry, cmp_sorted_entry, entries_bytes, entry_at}
use fast_cache_engine.Entry.Order.{hash_below, hash_is}
use fast_cache_engine.Entry.Write.{Written, write_keys_values}
use fast_cache_engine.Env.{Env, File, index_file, join_path, keys_file, manifest_file}
use fast_cache_engine.Env.{reopen, values_file, write_file}
use fast_cache_engine.Hash.{Hash128, hash_key, u64}
use fast_cache_engine.Manifest.{FceManifestInfo, make_manifest, manifest_bytes}
use Prim.Native.Nat.{bit_and}
use fast_cache_engine.Qsort.{Qsort}
use fast_cache_engine.Record.{BuildRecord, cmp_build_by_key, dedupe_records}
use fast_cache_engine.Schema.{FceSchema, backend_radix}
use fast_cache_engine.Search.{lower_bound}
use fast_cache_engine.Status.{Result, corrupt, err, fault, not_found, ok, out_of_memory}
use fast_cache_engine.Status.{◌>>=◌, ◌>>◌}

abbrev flag_force_hash_collision : ℕ
flag_force_hash_collision = 2

abbrev pub forced : FceSchema → Bool
forced s = not (bit_and s.user_flags flag_force_hash_collision == 0)

-- The files that a builder leaves in the cache directory.
pub record Files : Type 0 where
  pub index : Bytes
  pub keys : Bytes
  pub values : Bytes
  pub manifest : Bytes

-- The CRC of a file that has just been written.
abbrev pub crc_of : Env → File → Bytes → ℕ
crc_of env f bytes = crc64_file (if env.succeeds (reopen f) then some bytes else none)

-- The manifest of the frozen cache, with its out-of-band sizes and checksums filled in.
unfoldable pub sorted_manifest : Env → FceSchema → ℕ → Written → Bytes → FceManifestInfo
sorted_manifest env s count w index =
    let m = make_manifest env.now s count in
    record {
      magic = m.magic;
      manifest_version = m.manifest_version;
      schema_version = m.schema_version;
      algorithm_version = m.algorithm_version;
      backend_kind = m.backend_kind;
      lookup_kind = m.lookup_kind;
      key_kind = m.key_kind;
      value_kind = m.value_kind;
      key_codec = m.key_codec;
      value_codec = m.value_codec;
      record_count = m.record_count;
      index_size = count * 48 % u64;
      keys_size = w.keys_size;
      values_size = w.values_size;
      log_size = m.log_size;
      build_unix_time = m.build_unix_time;
      schema_hash = m.schema_hash;
      index_crc64 = crc_of env index_file index;
      keys_crc64 = crc_of env keys_file w.keys;
      values_crc64 = crc_of env values_file w.values;
      log_crc64 = m.log_crc64;
      endian_tag = m.endian_tag;
      backend_meta0 = m.backend_meta0;
      backend_meta1 = m.backend_meta1;
      fixed_key_size = m.fixed_key_size;
      fixed_value_size = m.fixed_value_size;
      direct_table_key_bits = m.direct_table_key_bits;
      reserved0 = m.reserved0;
    }

-- After the index file: the manifest file, by `write_manifest`.
unfoldable pub finish_sorted : Env → FceSchema → ℕ → Written → Bytes → Result Files
finish_sorted env s count w index =
    let m = sorted_manifest env s count w index in
    if not (env.succeeds (join_path index_file 1))
      || (not (env.succeeds (join_path keys_file 1))
          || not (env.succeeds (join_path values_file 1)))
    then err out_of_memory
    else if not (env.succeeds (join_path manifest_file 0))
    then err out_of_memory
    else (write_file env manifest_file (length (manifest_bytes m))
        >> ok (record {
          index = index;
          keys = w.keys;
          values = w.values;
          manifest = manifest_bytes m;
        }))

-- From the deduplicated records on. The sort of the records for a radix cache changes nothing that
-- is written later.
unfoldable pub freeze_records :
    Env → Qsort cmp_sorted_entry → FceSchema → ℕ → List BuildRecord → Result Files
freeze_records env sort_entries s physical_backend records =
    if not (length records == 0) && not (env.malloc 2 (length records * 48))
    then err out_of_memory
    else (write_keys_values env (forced s) records >>= λ w.
        let es =
          if physical_backend == backend_radix then w.entries else sort_entries.sort w.entries in
        let index = entries_bytes es in
        if not (env.succeeds (join_path index_file 0))
        then err out_of_memory
        else (write_file env index_file (length index)
            >> finish_sorted env s (length records) w index))

unfoldable pub freeze_sorted_like :
    Env
    → Qsort cmp_build_by_key
    → Qsort cmp_sorted_entry
    → FceSchema
    → ℕ
    → List BuildRecord
    → Result Files
freeze_sorted_like env sort_records sort_entries s physical_backend records =
    dedupe_records env.malloc sort_records (not (s.allow_duplicate_put == 0)) records
    >>= freeze_records env sort_entries s physical_backend

-- The entry `e` has the key: its value.
unfoldable pub take_value : Bytes → SortedEntry → Result Bytes
take_value values e =
    if range_ok e.value_offset e.value_len (length values)
    then ok (slice values e.value_offset e.value_len)
    else err corrupt

-- The second loop, from entry `i` with `fuel` entries left up to `n`.
unfoldable pub scan : ℕ → Bytes → Bytes → Bytes → Hash128 → Bytes → ℕ → Result Bytes
unfolding take_value
scan zero index keys values h key i = err not_found
scan (suc fuel) index keys values h key i =
    let rest = scan fuel index keys values h key (suc i) in
    elim (entry_at index i) [
      | none ↦ fault
      | some e ↦
          if hash_is e h
          then (if key_equal keys e.key_offset e.key_len key then take_value values e else rest)
          else err not_found
    ]

unfoldable pub get_sorted : Bool → Bytes → Bytes → Bytes → Bytes → Result Bytes
unfolding scan
get_sorted force index keys values key =
    let n = length index / 48 in
    let h = hash_key force key in
    lower_bound (entry_at index) (λ e. hash_below e h) n 0 n >>= λ lo.
    scan (n - lo) index keys values h key lo

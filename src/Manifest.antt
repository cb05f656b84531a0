-- ===== src/Manifest.antt =====
-- `FceManifestInfo` of include/fce_cache.h and src/core/fce_manifest.c.
pub mod RoundTrip
use fast_cache_engine.Bytes.Words.{Bytes}
use fast_cache_engine.Common.{
  Bool, List, Option, false, true, ◌≡◌, [], if◌then◌else◌, none, not, some, ℕ, ◌%◌,
}
use fast_cache_engine.Common.{◌==◌, ◌^◌, ◌||◌, ◌∷◌}
use fast_cache_engine.Layout.{fetch, field, store}
use Prim.Native.Nat.{bit_and, bit_or}
use fast_cache_engine.Schema.{FceSchema, fce_schema_hash, validate_schema}
use fast_cache_engine.Status.{Result, corrupt, err, io, ok, out_of_memory, schema_mismatch, ◌>>=◌}

pub record FceManifestInfo : Type 0 where
  pub magic : ℕ
  pub manifest_version : ℕ
  pub schema_version : ℕ
  pub algorithm_version : ℕ
  pub backend_kind : ℕ
  pub lookup_kind : ℕ
  pub key_kind : ℕ
  pub value_kind : ℕ
  pub key_codec : ℕ
  pub value_codec : ℕ
  pub record_count : ℕ
  pub index_size : ℕ
  pub keys_size : ℕ
  pub values_size : ℕ
  pub log_size : ℕ
  pub build_unix_time : ℕ
  pub schema_hash : ℕ
  pub index_crc64 : ℕ
  pub keys_crc64 : ℕ
  pub values_crc64 : ℕ
  pub log_crc64 : ℕ
  pub endian_tag : ℕ
  pub backend_meta0 : ℕ
  pub backend_meta1 : ℕ
  pub fixed_key_size : ℕ
  pub fixed_value_size : ℕ
  pub direct_table_key_bits : ℕ
  pub reserved0 : ℕ

-- The eight characters "FCEv0001", as the word that they are in memory.
abbrev pub fce_magic : ℕ
fce_magic = 0x3130303076454346

abbrev pub fce_endian_tag : ℕ
fce_endian_tag = 0x0102030405060708

-- The four flag bits above the 32 user flags.
abbrev pub meta_exact_key_check : ℕ
meta_exact_key_check = 2 ^ 32

abbrev pub meta_mmap_read : ℕ
meta_mmap_read = 2 ^ 33

abbrev pub meta_read_only_after_freeze : ℕ
meta_read_only_after_freeze = 2 ^ 34

abbrev pub meta_allow_duplicate_put : ℕ
meta_allow_duplicate_put = 2 ^ 35

-- `if (flag) meta |= bit`
abbrev pub or_if : ℕ → ℕ → ℕ → ℕ
or_if flag bit meta = if flag == 0 then meta else bit_or meta bit

-- `(meta & bit) ? 1 : 0`
abbrev pub bit_set : ℕ → ℕ → ℕ
bit_set meta bit = if bit_and meta bit == 0 then 0 else 1

unfoldable pub pack_flags : FceSchema → ℕ
pack_flags s = or_if s.allow_duplicate_put meta_allow_duplicate_put (
    or_if s.read_only_after_freeze meta_read_only_after_freeze (
      or_if s.mmap_read meta_mmap_read (or_if s.exact_key_check meta_exact_key_check s.user_flags)))

-- `now` is what `time(NULL)` returns.
unfoldable pub make_manifest : ℕ → FceSchema → ℕ → FceManifestInfo
unfolding pack_flags
make_manifest now s records = record {
  magic = fce_magic;
  manifest_version = 1;
  schema_version = s.schema_version;
  algorithm_version = s.algorithm_version;
  backend_kind = s.backend;
  lookup_kind = s.lookup;
  key_kind = s.key_kind;
  value_kind = s.value_kind;
  key_codec = s.key_codec;
  value_codec = s.value_codec;
  record_count = records;
  index_size = 0;
  keys_size = 0;
  values_size = 0;
  log_size = 0;
  build_unix_time = now;
  schema_hash = fce_schema_hash s;
  index_crc64 = 0;
  keys_crc64 = 0;
  values_crc64 = 0;
  log_crc64 = 0;
  endian_tag = fce_endian_tag;
  backend_meta0 = 0;
  backend_meta1 = pack_flags s;
  fixed_key_size = s.fixed_key_size;
  fixed_value_size = s.fixed_value_size;
  direct_table_key_bits = s.direct_table_key_bits;
  reserved0 = 0;
}

unfoldable pub schema_from_manifest : FceManifestInfo → FceSchema
schema_from_manifest m = record {
  schema_version = m.schema_version;
  algorithm_version = m.algorithm_version;
  backend = m.backend_kind;
  lookup = m.lookup_kind;
  key_kind = m.key_kind;
  value_kind = m.value_kind;
  key_codec = m.key_codec;
  value_codec = m.value_codec;
  fixed_key_size = m.fixed_key_size;
  fixed_value_size = m.fixed_value_size;
  direct_table_key_bits = m.direct_table_key_bits;
  user_flags = m.backend_meta1 % 2 ^ 32;
  exact_key_check = bit_set m.backend_meta1 meta_exact_key_check;
  mmap_read = bit_set m.backend_meta1 meta_mmap_read;
  read_only_after_freeze = bit_set m.backend_meta1 meta_read_only_after_freeze;
  allow_duplicate_put = bit_set m.backend_meta1 meta_allow_duplicate_put;
}

-- The widths of the fields; the 4 in the eleventh place is the padding before `record_count`.
abbrev pub manifest_layout : List ℕ
manifest_layout =
    8 ∷ 4 ∷ 4 ∷ 4 ∷ 4 ∷ 4 ∷ 4 ∷ 4 ∷ 4 ∷ 4 ∷ 4 ∷ 8 ∷ 8 ∷ 8 ∷ 8 ∷ 8 ∷ 8 ∷ 8 ∷ 8 ∷ 8 ∷ 8 ∷ 8 ∷ 8 ∷ 8
    ∷ 8 ∷ 4 ∷ 4 ∷ 4 ∷ 4 ∷ []

abbrev pub manifest_fields : FceManifestInfo → List ℕ
manifest_fields m =
    m.magic ∷ m.manifest_version ∷ m.schema_version ∷ m.algorithm_version ∷ m.backend_kind
    ∷ m.lookup_kind ∷ m.key_kind ∷ m.value_kind ∷ m.key_codec ∷ m.value_codec ∷ 0 ∷ m.record_count
    ∷ m.index_size ∷ m.keys_size ∷ m.values_size ∷ m.log_size ∷ m.build_unix_time ∷ m.schema_hash
    ∷ m.index_crc64 ∷ m.keys_crc64 ∷ m.values_crc64 ∷ m.log_crc64 ∷ m.endian_tag ∷ m.backend_meta0
    ∷ m.backend_meta1 ∷ m.fixed_key_size ∷ m.fixed_value_size ∷ m.direct_table_key_bits
    ∷ m.reserved0 ∷ []

unfoldable pub manifest_of_fields : List ℕ → FceManifestInfo
manifest_of_fields vs = record {
  magic = field 0 vs;
  manifest_version = field 1 vs;
  schema_version = field 2 vs;
  algorithm_version = field 3 vs;
  backend_kind = field 4 vs;
  lookup_kind = field 5 vs;
  key_kind = field 6 vs;
  value_kind = field 7 vs;
  key_codec = field 8 vs;
  value_codec = field 9 vs;
  record_count = field 11 vs;
  index_size = field 12 vs;
  keys_size = field 13 vs;
  values_size = field 14 vs;
  log_size = field 15 vs;
  build_unix_time = field 16 vs;
  schema_hash = field 17 vs;
  index_crc64 = field 18 vs;
  keys_crc64 = field 19 vs;
  values_crc64 = field 20 vs;
  log_crc64 = field 21 vs;
  endian_tag = field 22 vs;
  backend_meta0 = field 23 vs;
  backend_meta1 = field 24 vs;
  fixed_key_size = field 25 vs;
  fixed_value_size = field 26 vs;
  direct_table_key_bits = field 27 vs;
  reserved0 = field 28 vs;
}

-- What `write_file` puts into the manifest file.
unfoldable pub manifest_bytes : FceManifestInfo → Bytes
manifest_bytes m = store manifest_layout (manifest_fields m)

-- The checks on a manifest that has been read.
unfoldable pub check_manifest : FceManifestInfo → Result FceManifestInfo
check_manifest m =
    if not (m.magic == fce_magic) || not (m.endian_tag == fce_endian_tag)
    then err corrupt
    else if not (m.manifest_version == 1)
        || (not (m.schema_version == 1) || not (m.algorithm_version == 1))
    then err schema_mismatch
    else (validate_schema (schema_from_manifest m) >>= λ _. ok m)

-- From the opening of the file. `none` is a file that cannot be opened; one shorter than the
-- struct is corrupt.
unfoldable pub read_manifest_file : Option Bytes → Result FceManifestInfo
read_manifest_file none = err io
read_manifest_file (some bytes) = elim (fetch manifest_layout bytes) [
  | none ↦ err corrupt
  | some vs ↦ check_manifest (manifest_of_fields vs)
]

-- `path`: the allocation of the path of the file succeeds.
unfoldable pub read_manifest : Bool → Option Bytes → Result FceManifestInfo
unfolding read_manifest_file
read_manifest path file = if path then read_manifest_file file else err out_of_memory

pub read_manifest-eq-ok :
    (path : Bool) (file : Option Bytes) {m : FceManifestInfo}
    → read_manifest path file ≡ ok m
    → read_manifest_file file ≡ ok m
unfolding read_manifest
read_manifest-eq-ok true file h = h
read_manifest-eq-ok false file h = cc

-- ===== src/Schema.antt =====
-- The schema of a cache: `FceSchema` and the enums of include/fce_cache.h, and src/core/fce_schema.c.
-- An enum is the number that the C `int` holds, since callers may pass any.
pub mod Valid
pub mod Planner
use fast_cache_engine.Bytes.Words.{Bytes, le}
use fast_cache_engine.Common.{Bool, if◌then◌else◌, ltb, not, ℕ, ◌&&◌, ◌++◌, ◌==◌, ◌||◌}
use fast_cache_engine.Hash.{fnv1a64}
use fast_cache_engine.Status.{Result, err, invalid_argument, ok, unsupported}

abbrev pub backend_sorted_index : ℕ
backend_sorted_index = 1

abbrev pub backend_mph : ℕ
backend_mph = 2

abbrev pub backend_direct_table : ℕ
backend_direct_table = 3

abbrev pub backend_radix : ℕ
backend_radix = 4

abbrev pub backend_log : ℕ
backend_log = 5

abbrev pub lookup_exact : ℕ
lookup_exact = 1

abbrev pub lookup_prefix : ℕ
lookup_prefix = 2

abbrev pub lookup_range : ℕ
lookup_range = 3

abbrev pub key_bytes : ℕ
key_bytes = 1

abbrev pub key_u64 : ℕ
key_u64 = 2

abbrev pub key_u128 : ℕ
key_u128 = 3

abbrev pub key_sequence : ℕ
key_sequence = 5

abbrev pub value_bytes : ℕ
value_bytes = 1

abbrev pub value_fixed_record : ℕ
value_fixed_record = 2

abbrev pub value_var_record : ℕ
value_var_record = 3

abbrev pub codec_none : ℕ
codec_none = 0

abbrev pub codec_delta_i32 : ℕ
codec_delta_i32 = 1

abbrev pub codec_rle : ℕ
codec_rle = 2

abbrev pub codec_bitpack : ℕ
codec_bitpack = 3

abbrev pub codec_user_bytes : ℕ
codec_user_bytes = 4

abbrev pub codec_zstd : ℕ
codec_zstd = 5

pub record FceSchema : Type 0 where
  pub schema_version : ℕ
  pub algorithm_version : ℕ
  pub backend : ℕ
  pub lookup : ℕ
  pub key_kind : ℕ
  pub value_kind : ℕ
  pub key_codec : ℕ
  pub value_codec : ℕ
  pub fixed_key_size : ℕ
  pub fixed_value_size : ℕ
  pub direct_table_key_bits : ℕ
  pub user_flags : ℕ
  pub exact_key_check : ℕ
  pub mmap_read : ℕ
  pub read_only_after_freeze : ℕ
  pub allow_duplicate_put : ℕ

abbrev pub fce_schema_default : FceSchema
fce_schema_default = record {
  schema_version = 1;
  algorithm_version = 1;
  backend = backend_sorted_index;
  lookup = lookup_exact;
  key_kind = key_bytes;
  value_kind = value_var_record;
  key_codec = codec_none;
  value_codec = codec_none;
  fixed_key_size = 0;
  fixed_value_size = 0;
  direct_table_key_bits = 0;
  user_flags = 0;
  exact_key_check = 1;
  mmap_read = 1;
  read_only_after_freeze = 1;
  allow_duplicate_put = 0;
}

-- The object representation of the struct: twelve words and four bytes, with no padding.
unfoldable pub schema_bytes : FceSchema → Bytes
schema_bytes s =
    le 4 s.schema_version
    ++ (le 4 s.algorithm_version
        ++ (le 4 s.backend
            ++ (le 4 s.lookup
                ++ (le 4 s.key_kind
                    ++ (le 4 s.value_kind
                        ++ (le 4 s.key_codec
                            ++ (le 4 s.value_codec
                                ++ (le 4 s.fixed_key_size
                                    ++ (le 4 s.fixed_value_size
                                        ++ (le 4 s.direct_table_key_bits
                                            ++ (le 4 s.user_flags
                                                ++ (le 1 s.exact_key_check
                                                    ++ (le 1 s.mmap_read
                                                        ++ (le 1 s.read_only_after_freeze
                                                            ++ le 1
                                                            s.allow_duplicate_put))))))))))))))

unfoldable pub fce_schema_hash : FceSchema → ℕ
unfolding schema_bytes
fce_schema_hash s = fnv1a64 (schema_bytes s) 0xfeedfacecafebeef

abbrev pub not_plain : ℕ → Bool
not_plain codec = not (codec == codec_none) && not (codec == codec_user_bytes)

-- The early returns, in their order; `s` is not null.
unfoldable pub validate_schema : FceSchema → Result (Unit {0})
validate_schema s =
    if ltb s.backend backend_sorted_index || ltb backend_log s.backend
    then err unsupported
    else if ltb s.lookup lookup_exact || ltb lookup_range s.lookup
    then err unsupported
    else if ltb s.key_kind key_bytes || ltb key_sequence s.key_kind
    then err unsupported
    else if ltb s.value_kind value_bytes || ltb value_var_record s.value_kind
    then err unsupported
    else if ltb codec_zstd s.key_codec || ltb codec_zstd s.value_codec
    then err unsupported
    else if (s.value_kind == value_fixed_record) && (s.fixed_value_size == 0)
    then err invalid_argument
    else if not (s.fixed_key_size == 0) && ((s.key_kind == key_u64) && not (s.fixed_key_size == 8))
    then err invalid_argument
    else if not (s.fixed_key_size == 0)
        && ((s.key_kind == key_u128) && not (s.fixed_key_size == 16))
    then err invalid_argument
    else if (s.backend == backend_direct_table) && not (s.key_kind == key_u64)
    then err invalid_argument
    else if (s.backend == backend_direct_table) && not_plain s.key_codec
    then err invalid_argument
    else if ((s.lookup == lookup_prefix) || (s.backend == backend_radix)) && not_plain s.key_codec
    then err invalid_argument
    else if (s.lookup == lookup_range) && not_plain s.key_codec
    then err invalid_argument
    else ok tt

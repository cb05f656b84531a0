-- ===== src/Schema/Valid.antt =====
-- What `validate_schema` of src/core/fce_schema.c accepts.
use fast_cache_engine.Common.{Bool, arith, false, ltb, not, refl, ℕ, ◌&&◌, ◌<◌, ◌==◌, ◌||◌}
use fast_cache_engine.Common.{◌↔◌, ◌≡◌, ◌≤◌, ◌⊎◌}
use fast_cache_engine.Schema.{FceSchema, backend_direct_table, backend_radix, codec_none}
use fast_cache_engine.Schema.{codec_user_bytes, key_u128, key_u64, lookup_prefix, lookup_range}
use fast_cache_engine.Schema.{not_plain, validate_schema, value_fixed_record}
use fast_cache_engine.Status.{ok}

-- A key whose stored bytes are the caller's.
abbrev pub IsPlain : ℕ → Type 0
IsPlain codec = (codec ≡ codec_none) ⊎ (codec ≡ codec_user_bytes)

-- The combinations of settings that a cache may have.
pub record IsValid (s : FceSchema) : Type 0 where
  pub backend_known : (1 ≤ s.backend) × (s.backend ≤ 5)
  pub lookup_known : (1 ≤ s.lookup) × (s.lookup ≤ 3)
  pub key_kind_known : (1 ≤ s.key_kind) × (s.key_kind ≤ 5)
  pub value_kind_known : (1 ≤ s.value_kind) × (s.value_kind ≤ 3)
  pub codecs_known : (s.key_codec ≤ 5) × (s.value_codec ≤ 5)
  pub fixed_record_sized : s.value_kind ≡ value_fixed_record → 0 < s.fixed_value_size
  pub u64_sized : s.key_kind ≡ key_u64 → (s.fixed_key_size ≡ 0) ⊎ (s.fixed_key_size ≡ 8)
  pub u128_sized : s.key_kind ≡ key_u128 → (s.fixed_key_size ≡ 0) ⊎ (s.fixed_key_size ≡ 16)
  pub direct_by_number : s.backend ≡ backend_direct_table → s.key_kind ≡ key_u64
  pub direct_plain : s.backend ≡ backend_direct_table → IsPlain s.key_codec
  pub radix_plain : s.backend ≡ backend_radix → IsPlain s.key_codec
  pub prefix_plain : s.lookup ≡ lookup_prefix → IsPlain s.key_codec
  pub range_plain : s.lookup ≡ lookup_range → IsPlain s.key_codec

pub validate_schema→IsValid : (s : FceSchema) → validate_schema s ≡ ok tt → IsValid s
unfolding validate_schema
validate_schema→IsValid s h = record {
  backend_known = ground arith;
  lookup_known = ground arith;
  key_kind_known = ground arith;
  value_kind_known = ground arith;
  codecs_known = ground arith;
  fixed_record_sized = ground arith;
  u64_sized = ground arith;
  u128_sized = ground arith;
  direct_by_number = ground arith;
  direct_plain = ground arith;
  radix_plain = ground arith;
  prefix_plain = ground arith;
  range_plain = ground arith;
}

-- Each test of the ladder fails where the setting that it guards is in order.
in_range : (lo hi x : ℕ) → (lo ≤ x) × (x ≤ hi) → (ltb x lo || ltb hi x) ≡ false
in_range lo hi x h = ground arith

below_both : (hi x y : ℕ) → (x ≤ hi) × (y ≤ hi) → (ltb hi x || ltb hi y) ≡ false
below_both hi x y h = ground arith

only_if : (a b : ℕ) (t : Bool) → (a ≡ b → t ≡ false) → ((a == b) && t) ≡ false
only_if a b t h = ground arith

either_plain :
    (a b c d : ℕ) (t : Bool)
    → (a ≡ b → t ≡ false)
    → (c ≡ d → t ≡ false)
    → (((a == b) || (c == d)) && t) ≡ false
either_plain a b c d t h k = ground arith

sized :
    (size kind which : ℕ) (want : ℕ)
    → (kind ≡ which → (size ≡ 0) ⊎ (size ≡ want))
    → (not (size == 0) && ((kind == which) && not (size == want))) ≡ false
sized size kind which want h = ground arith

plain : (codec : ℕ) → IsPlain codec → not_plain codec ≡ false
plain codec h = ground arith

nonzero : (n : ℕ) → 0 < n → (n == 0) ≡ false
nonzero n h = ground arith

IsValid→validate_schema : (s : FceSchema) → IsValid s → validate_schema s ≡ ok tt
unfolding validate_schema
IsValid→validate_schema s v =
    rw
      (
        in_range 1 5 s.backend v.backend_known,
        in_range 1 3 s.lookup v.lookup_known,
        in_range 1 5 s.key_kind v.key_kind_known,
        in_range 1 3 s.value_kind v.value_kind_known,
        below_both 5 s.key_codec s.value_codec v.codecs_known,
        only_if s.value_kind 2 (s.fixed_value_size == 0)
            (λ e. nonzero s.fixed_value_size (v.fixed_record_sized e)),
        sized s.fixed_key_size s.key_kind 2 8 v.u64_sized,
        sized s.fixed_key_size s.key_kind 3 16 v.u128_sized,
        only_if s.backend 3 (not (s.key_kind == 2)) (λ e. keyed s.key_kind (v.direct_by_number e)),
        only_if s.backend 3 (not_plain s.key_codec) (λ e. plain s.key_codec (v.direct_plain e)),
        either_plain s.lookup 2 s.backend 4 (not_plain s.key_codec)
            (λ e. plain s.key_codec (v.prefix_plain e)) (λ e. plain s.key_codec (v.radix_plain e)),
        only_if s.lookup 3 (not_plain s.key_codec) (λ e. plain s.key_codec (v.range_plain e)),
      )
      refl
  where
    keyed : (k : ℕ) → k ≡ key_u64 → not (k == 2) ≡ false
    keyed k e = ground arith

-- `validate_schema` accepts exactly the schemas of the description `IsValid`.
pub validate_schema_iff : (s : FceSchema) → (validate_schema s ≡ ok tt) ↔ IsValid s
validate_schema_iff s = (validate_schema→IsValid s, IsValid→validate_schema s)

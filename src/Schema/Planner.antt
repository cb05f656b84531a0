-- ===== src/Schema/Planner.antt =====
-- `fce_schema_plan` of src/core/fce_planner.c.
use fast_cache_engine.Common.{Bool, arith, false, if◌then◌else◌, leb, not, ℕ, ◌%◌, ◌&&◌}
use fast_cache_engine.Common.{◌*◌, ◌+◌, ◌-◌, ◌<◌, ◌==◌, ◌||◌, ◌≡◌, ◌≤◌}
use fast_cache_engine.Hash.{u64}
use fast_cache_engine.Schema.{FceSchema, backend_direct_table, backend_log, backend_mph}
use fast_cache_engine.Schema.{backend_radix, backend_sorted_index, fce_schema_default, key_bytes}
use fast_cache_engine.Schema.{key_sequence, key_u128, key_u64, lookup_exact, lookup_prefix}
use fast_cache_engine.Schema.{validate_schema}
use fast_cache_engine.Status.{Result, ok}

pub record FcePlannerInput : Type 0 where
  pub estimated_record_count : ℕ
  pub dense_u64_max_key : ℕ
  pub average_key_size : ℕ
  pub average_value_size : ℕ
  pub wanted_lookup : ℕ
  pub wanted_key_kind : ℕ
  pub needs_online_append : Bool
  pub prefers_prefix_scan : Bool
  pub read_mostly : Bool
  pub allow_mph : Bool

-- The backend that the ladder of tests picks, with the fields that go with it. Sums and products
-- of the 64-bit fields wrap.
unfoldable pub plan_backend : FcePlannerInput → FceSchema → FceSchema
plan_backend input s =
    if input.needs_online_append
    then record s { backend = backend_log; allow_duplicate_put = 1 }
    else if input.prefers_prefix_scan
        || ((s.lookup == lookup_prefix) || (s.key_kind == key_sequence))
    then record s { backend = backend_radix; lookup = lookup_prefix }
    else if (s.key_kind == key_u64)
        && (not (input.dense_u64_max_key == 0)
            && (not (input.estimated_record_count == 0)
                && leb ((input.dense_u64_max_key + 1) % u64)
                    (input.estimated_record_count * 4 % u64)))
    then record s { backend = backend_direct_table; fixed_key_size = 8 }
    else if s.key_kind == key_u128
    then record s {
      fixed_key_size = 16;
      backend = if input.allow_mph && input.read_mostly then backend_mph else backend_sorted_index;
    }
    else if input.allow_mph && (input.read_mostly && leb 1024 input.estimated_record_count)
    then record s { backend = backend_mph }
    else record s { backend = backend_sorted_index }

-- What is written to `*out_schema`, and the status.
unfoldable pub fce_schema_plan : FcePlannerInput → FceSchema × Result (Unit {0})
unfolding plan_backend validate_schema
fce_schema_plan input =
    let s = plan_backend input (record fce_schema_default {
      lookup = if input.wanted_lookup == 0 then lookup_exact else input.wanted_lookup;
      key_kind = if input.wanted_key_kind == 0 then key_bytes else input.wanted_key_kind;
    }) in
    (s, validate_schema s)

-- For a lookup and a key kind that are left open or known, the plan is a valid schema.
pub fce_schema_plan_ok :
    (input : FcePlannerInput)
    → input.wanted_lookup ≤ 3
    → input.wanted_key_kind ≤ 5
    → (fce_schema_plan input).1 ≡ ok tt
unfolding fce_schema_plan
fce_schema_plan_ok input h k = ground arith

-- A direct table is picked only for 64-bit keys, and it is at most four times as long as the records
-- that are expected, where the two 64-bit computations of the test do not wrap.
pub fce_schema_plan_direct :
    (input : FcePlannerInput)
    → (fce_schema_plan input).0.backend ≡ backend_direct_table
    → input.dense_u64_max_key + 1 < u64
    → input.estimated_record_count * 4 < u64
    → ((fce_schema_plan input).0.key_kind ≡ key_u64)
      × ((fce_schema_plan input).0.fixed_key_size ≡ 8)
      × (input.dense_u64_max_key + 1 ≤ input.estimated_record_count * 4)
unfolding fce_schema_plan
fce_schema_plan_direct input h p q = ground arith

-- When the greatest key is 2^64 - 1, the sum in the test wraps to 0: for an exact lookup of 64-bit
-- keys, with neither appends nor prefix scans asked for, the planner picks a direct table for any
-- positive number of expected records.
pub fce_schema_plan_wraps :
    (input : FcePlannerInput)
    → input.needs_online_append ≡ false
    → input.prefers_prefix_scan ≡ false
    → input.wanted_lookup ≡ lookup_exact
    → input.wanted_key_kind ≡ key_u64
    → input.dense_u64_max_key ≡ u64 - 1
    → 0 < input.estimated_record_count
    → (fce_schema_plan input).0.backend ≡ backend_direct_table
unfolding fce_schema_plan
fce_schema_plan_wraps input a b c d e f = ground arith

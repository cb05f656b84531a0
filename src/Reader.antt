-- ===== src/Reader.antt =====
-- The lookups of src/api/fce_reader_api.c.
pub mod Frozen
pub mod Get
pub mod Batch
pub mod Calls
pub mod Validate
pub mod Safe
pub mod Scan
pub mod Range
pub mod Accepts
pub mod Open
pub mod Reopened
pub mod Stale
use fast_cache_engine.Builder.{Buffer, buffer, content, is_null, len}
use fast_cache_engine.Bytes.Words.{Bytes, le, rd64}
use fast_cache_engine.Codec.{fce_codec_decode, fce_codec_encode}
use fast_cache_engine.Common.{
  Bool, List, Option, [], drop, get_elem?, if◌then◌else◌, length, ltb, none, not, set, some, suc, ℕ,
  ◌&&◌,
}
use fast_cache_engine.Common.{◌++◌, ◌==◌, ◌||◌, ◌∷◌}
use fast_cache_engine.Direct.{get_direct}
use fast_cache_engine.Log.{get_log}
use fast_cache_engine.Manifest.{FceManifestInfo}
use fast_cache_engine.Mph.{get_mph}
use fast_cache_engine.Radix.{get_radix}
use fast_cache_engine.Record.Log.{LogIndexEntry}
use fast_cache_engine.Schema.{FceSchema, backend_direct_table, backend_log, backend_mph}
use fast_cache_engine.Schema.{backend_radix, backend_sorted_index, codec_none, codec_user_bytes}
use fast_cache_engine.Sorted.{forced, get_sorted}
use fast_cache_engine.Status.{Result, err, fault, invalid_argument, ok, out_of_memory, unsupported}
use fast_cache_engine.Status.{◌>>=◌}

-- `FceReader`, as `fce_reader_open` leaves it.
pub record FceReader : Type 0 where
  pub manifest : FceManifestInfo
  pub schema : FceSchema
  pub index_blob : Bytes
  pub keys_blob : Bytes
  pub values_blob : Bytes
  pub log_blob : Bytes
  pub log_index : List LogIndexEntry

-- Whether the allocations of one lookup succeed: that of the encoded key, that of the decoded value,
-- and its copy in the arena.
pub record GetEnv : Type 0 where
  pub key_malloc : ℕ → Bool
  pub value_malloc : ℕ → Bool
  pub copy : Bool

unfoldable pub fce_reader_get_canonical : FceReader → Bytes → Result Bytes
fce_reader_get_canonical r key =
    let force = forced r.schema in
    let backend = r.schema.backend in
    if backend == backend_sorted_index
    then get_sorted force r.index_blob r.keys_blob r.values_blob key
    else if backend == backend_radix
    then get_radix r.index_blob r.keys_blob r.values_blob key
    else if backend == backend_direct_table
    then (if not (length key == 8)
        then err invalid_argument
        else get_direct r.index_blob r.values_blob (rd64 key))
    else if backend == backend_mph
    then get_mph force r.index_blob r.keys_blob r.values_blob key
    else if backend == backend_log
    then get_log force r.log_blob r.log_index key
    else err unsupported

abbrev pub plain : ℕ → Bool
plain codec = (codec == codec_none) || (codec == codec_user_bytes)

-- The key as the index has it.
unfoldable pub canonical_key : GetEnv → FceReader → Bytes → Result Bytes
canonical_key e r key =
    if plain r.schema.key_codec
    then ok key
    else fce_codec_encode e.key_malloc r.schema.key_codec key

-- The value as the caller gets it; `copy` says whether the arena has room for it. An iterator returns
-- its values in the same way.
unfoldable pub returned_value : (ℕ → Bool) → Bool → FceReader → Bytes → Result Bytes
returned_value malloc copy r value =
    if plain r.schema.value_codec
    then ok value
    else (fce_codec_decode malloc r.schema.value_codec value >>= λ decoded.
        if copy then ok decoded else err out_of_memory)

unfoldable pub fce_reader_get : GetEnv → FceReader → Buffer → Result Bytes
unfolding fce_reader_get_canonical canonical_key returned_value
fce_reader_get e r key =
    if is_null key && not (len key == 0)
    then err invalid_argument
    else (canonical_key e r (content key) >>= λ k.
        fce_reader_get_canonical r k >>= returned_value e.value_malloc e.copy r)

unfoldable pub fce_reader_get_u64 : GetEnv → FceReader → ℕ → Result Bytes
unfolding fce_reader_get
fce_reader_get_u64 e r key = fce_reader_get e r (buffer (le 8 key))

unfoldable pub fce_reader_get_u128 : GetEnv → FceReader → ℕ → ℕ → Result Bytes
unfolding fce_reader_get
fce_reader_get_u128 e r key_lo key_hi = fce_reader_get e r (buffer (le 8 key_lo ++ le 8 key_hi))

-- What a copy leaves: the caller's buffer and the length, each NULL or what it holds.
pub record Copied : Type 0 where
  pub buffer_left : Option Bytes
  pub inout_value_len : Option ℕ
  pub status : Result (Unit {0})

-- `memcpy` to the front of a buffer; past the end of the buffer it faults.
abbrev pub copy_front : ℕ → Bytes → Bytes → Copied
copy_front room v out =
    if ltb (length out) (length v)
    then record { buffer_left = some out; inout_value_len = some room; status = fault }
    else record {
      buffer_left = some (v ++ drop (length v) out);
      inout_value_len = some (length v);
      status = ok tt;
    }

-- After the lookup; `room` is the length that the caller gives.
unfoldable pub copy_out : Option Bytes → ℕ → Result Bytes → Copied
copy_out none room (ok v) = record {
  buffer_left = none;
  inout_value_len = some (length v);
  status = err invalid_argument;
}
copy_out (some out) room (ok v) =
    if ltb room (length v)
    then record {
      buffer_left = some out;
      inout_value_len = some (length v);
      status = err invalid_argument;
    }
    else copy_front room v out
copy_out out room (err e) = record {
  buffer_left = out;
  inout_value_len = some room;
  status = err e;
}
copy_out out room fault = record { buffer_left = out; inout_value_len = some room; status = fault }

unfoldable pub fce_reader_get_copy : GetEnv → FceReader → Buffer → Option Bytes → Option ℕ → Copied
unfolding fce_reader_get copy_out
fce_reader_get_copy e r key out none = record {
  buffer_left = out;
  inout_value_len = none;
  status = err invalid_argument;
}
fce_reader_get_copy e r key out (some room) = copy_out out room (fce_reader_get e r key)

-- One place of the three arrays of a batch: `out_values`, `out_value_lens` and `out_statuses`.
pub record BatchSlot : Type 0 where
  pub value : Option Bytes
  pub value_len : ℕ
  pub status : Result (Unit {0})

-- What `fce_reader_get` writes through its pointers, which a lookup that fails leaves alone, and the
-- status that it returns.
abbrev pub get_into : BatchSlot → Result Bytes → BatchSlot
get_into s (ok v) = record { value = some v; value_len = length v; status = ok tt }
get_into s (err e) = record s { status = err e }
get_into s fault = record s { status = fault }

abbrev pub reset : BatchSlot → BatchSlot
reset s = record s { value = none; value_len = 0 }

-- The loop over the keys, each with the environment of its own lookup; it faults where the arrays end
-- before the keys do.
unfoldable pub batch_loop :
    (ℕ → GetEnv) → FceReader → List Buffer → ℕ → List BatchSlot → Result (List BatchSlot)
unfolding fce_reader_get
batch_loop envs r [] i slots = ok slots
batch_loop envs r (key ∷ keys) i slots = elim (get_elem? slots i) [
  | none ↦ fault
  | some s ↦
      batch_loop envs r keys (suc i)
        (set slots i (get_into (reset s) (fce_reader_get (envs i) r key)))
]

-- `given`: none of the pointers is NULL.
unfoldable pub fce_reader_get_batch :
    Bool → (ℕ → GetEnv) → FceReader → List Buffer → List BatchSlot → Result (List BatchSlot)
unfolding batch_loop
fce_reader_get_batch given envs r keys slots =
    if not given then err invalid_argument else batch_loop envs r keys 0 slots

-- ===== src/Builder.antt =====
-- `FceBuilder` of src/internal/fce_internal.h, and the puts of src/api/fce_builder_api.c.
pub mod Put
pub mod Open
use fast_cache_engine.Bytes.Words.{Bytes, le}
use fast_cache_engine.Codec.{fce_codec_encode}
use fast_cache_engine.Common.{Bool, List, [], false, if◌then◌else◌, length, ltb, not, true}
use fast_cache_engine.Common.{ℕ, ◌%◌, ◌&&◌, ◌*◌, ◌++◌, ◌-◌, ◌/◌, ◌==◌, ◌||◌, ◌∷◌}
use fast_cache_engine.Hash.{u64}
use fast_cache_engine.Record.{BuildRecord}
use fast_cache_engine.Schema.{FceSchema}
use fast_cache_engine.Status.{Result, err, fault, invalid_argument, ok, out_of_memory, ◌>>=◌}

-- The records are `records[0 .. count)`, and `cap` is what the array has room for.
pub record FceBuilder : Type 0 where
  pub schema : FceSchema
  pub records : List BuildRecord
  pub cap : ℕ
  pub frozen : Bool

-- A pointer with a length: a null pointer, or an object of that many bytes.
pub data Buffer : Type 0 where
  null : ℕ → Buffer
  buffer : Bytes → Buffer

abbrev pub len : Buffer → ℕ
len (null n) = n
len (buffer bs) = length bs

abbrev pub is_null : Buffer → Bool
is_null (null n) = true
is_null (buffer bs) = false

abbrev pub content : Buffer → Bytes
content (null n) = []
content (buffer bs) = bs

-- Which allocations of one put succeed: that of the array, those of the two codecs, and those of the
-- two copies in the arena.
pub record PutEnv : Type 0 where
  pub realloc : ℕ → Bool
  pub key_malloc : ℕ → Bool
  pub value_malloc : ℕ → Bool
  pub key_copy : Bool
  pub value_copy : Bool

abbrev pub grown : FceBuilder → ℕ → FceBuilder
grown b cap = record { schema = b.schema; records = b.records; cap = cap; frozen = b.frozen }

-- A `BuildRecord` has 40 bytes.
unfoldable pub builder_grow : PutEnv → FceBuilder → Result FceBuilder
builder_grow env b =
    let nc = if b.cap == 0 then 64 else b.cap * 2 % u64 in
    if ltb (length b.records) b.cap
    then ok b
    else if ltb nc b.cap || ltb ((u64 - 1) / 40) nc
    then err out_of_memory
    else if env.realloc (nc * 40)
    then ok (grown b nc)
    else err out_of_memory

-- The guards of a put.
unfoldable pub check_put : Buffer → Buffer → FceBuilder → Result (Unit {0})
check_put key value b =
    if (is_null key && not (len key == 0)) || ((is_null value && not (len value == 0)) || b.frozen)
    then err invalid_argument
    else if not (b.schema.fixed_key_size == 0) && not (len key == b.schema.fixed_key_size)
    then err invalid_argument
    else if not (b.schema.fixed_value_size == 0) && not (len value == b.schema.fixed_value_size)
    then err invalid_argument
    else ok tt

-- The record that a put adds.
unfoldable pub encode_record : PutEnv → Bytes → Bytes → FceBuilder → Result BuildRecord
encode_record env key value b =
    fce_codec_encode env.key_malloc b.schema.key_codec key >>= λ encoded_key.
    fce_codec_encode env.value_malloc b.schema.value_codec value >>= λ encoded_value.
    if not env.key_copy || not env.value_copy
    then err out_of_memory
    else ok (record { key = encoded_key; value = encoded_value; order = length b.records })

abbrev pub pushed : FceBuilder → BuildRecord → FceBuilder
pushed b r = record {
  schema = b.schema;
  records = b.records ++ (r ∷ []);
  cap = b.cap;
  frozen = b.frozen;
}

-- The builder afterwards and the status: the array has grown even where a later step fails.
unfoldable pub fce_builder_put :
    PutEnv → Buffer → Buffer → FceBuilder → FceBuilder × Result (Unit {0})
fce_builder_put env key value b = elim (check_put key value b) [
  | ok u ↦ elim (builder_grow env b) [
    | ok g ↦ elim (encode_record env (content key) (content value) g) [
      | ok r ↦ (pushed g r, ok tt)
      | err e ↦ (g, err e)
      | fault ↦ (g, fault)
    ]
    | err e ↦ (b, err e)
    | fault ↦ (b, fault)
  ]
  | err e ↦ (b, err e)
  | fault ↦ (b, fault)
]

-- A `wr64` of the key into a buffer.
unfoldable pub fce_builder_put_u64 :
    PutEnv → ℕ → Buffer → FceBuilder → FceBuilder × Result (Unit {0})
fce_builder_put_u64 env key value b = fce_builder_put env (buffer (le 8 key)) value b

unfoldable pub fce_builder_put_u128 :
    PutEnv → ℕ → ℕ → Buffer → FceBuilder → FceBuilder × Result (Unit {0})
fce_builder_put_u128 env key_lo key_hi value b =
    fce_builder_put env (buffer (le 8 key_lo ++ le 8 key_hi)) value b

-- The puts of the loop in their order, each with its environment, up to the first that fails.
unfoldable pub fce_builder_bulk_put :
    List (PutEnv × Buffer × Buffer) → FceBuilder → FceBuilder × Result (Unit {0})
fce_builder_bulk_put [] b = (b, ok tt)
fce_builder_bulk_put ((env, key, value) ∷ puts) b =
    let (after, status) = fce_builder_put env key value b in
    let rest = fce_builder_bulk_put puts after in
    elim status [ ok u ↦ rest | err e ↦ (after, err e) | fault ↦ (after, fault) ]

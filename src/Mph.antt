-- ===== src/Mph.antt =====
-- `MphSlot`, `MphHeader` and `MphBucket` of src/internal/fce_internal.h, and the hash and the lookup of
-- src/backends/fce_backend_mph.c.
use fast_cache_engine.Bytes.Compare.{key_equal, range_ok}
use fast_cache_engine.Bytes.Range.{key_equal_iff, slice}
use fast_cache_engine.Bytes.Words.{Bytes}
use fast_cache_engine.Common.{Bool, List, [], arith, drop, if◌then◌else◌, length, none}
use fast_cache_engine.Common.{not, some, ℕ, ◌%◌, ◌&&◌, ◌*◌, ◌+◌, ◌/◌, ◌==◌, ◌^◌, ◌||◌, ◌∷◌}
use fast_cache_engine.Common.{◌≡◌, ◌≤◌}
use fast_cache_engine.Hash.{Hash128, fnv1a64, hash_key, u64}
use fast_cache_engine.Layout.{element, fetch, field}
use Prim.Native.Nat.{bit_xor}
use fast_cache_engine.Status.{Result, corrupt, err, fault, not_found, ok}

-- The widths of the fields; the second of a slot is the array `reserved`.
abbrev pub mph_header_layout : List ℕ
mph_header_layout = 8 ∷ 8 ∷ 8 ∷ 8 ∷ 8 ∷ []

abbrev pub mph_bucket_layout : List ℕ
mph_bucket_layout = 8 ∷ []

abbrev pub mph_slot_layout : List ℕ
mph_slot_layout = 1 ∷ 7 ∷ 8 ∷ 8 ∷ 8 ∷ 4 ∷ 4 ∷ 8 ∷ []

abbrev pub fce_mph_magic : ℕ
fce_mph_magic = 0x3148504d454346

unfoldable pub mph_mix64 : ℕ → ℕ
mph_mix64 x0 =
    let x1 = bit_xor x0 (x0 / 2 ^ 30) * 0xbf58476d1ce4e5b9 % u64 in
    let x2 = bit_xor x1 (x1 / 2 ^ 27) * 0x94d049bb133111eb % u64 in bit_xor x2 (x2 / 2 ^ 31)

-- The slot of a key under the seed of its bucket, cut to 32 bits; there is a slot.
unfoldable pub mph_slot_for : Bytes → ℕ → ℕ → ℕ
unfolding mph_mix64
mph_slot_for key seed slot_count = mph_mix64 (fnv1a64 key seed) % slot_count % 2 ^ 32

-- The slot that was found: its fields are `vs`.
unfoldable pub check_mph_slot : Bytes → Bytes → Hash128 → Bytes → List ℕ → Result Bytes
check_mph_slot keys values h key vs =
    if not (field 0 vs == 0)
      && ((field 2 vs == h.lo)
          && ((field 3 vs == h.hi) && key_equal keys (field 4 vs) (field 5 vs) key))
    then (if range_ok (field 7 vs) (field 6 vs) (length values)
        then ok (slice values (field 7 vs) (field 6 vs))
        else err corrupt)
    else err not_found

-- The lookup after the header, whose fields are `mh`; reads outside the index fault.
unfoldable pub find_mph : Bool → Bytes → Bytes → Bytes → Bytes → List ℕ → Result Bytes
find_mph force index keys values key mh =
    let h = hash_key force key in
    elim (element mph_bucket_layout (drop (field 3 mh) index) (h.hi % field 1 mh)) [
      | none ↦ fault
      | some bucket ↦
          let seed = field 0 bucket in
          if seed == 0
          then err not_found
          else elim (element mph_slot_layout (drop (field 4 mh) index)
              (mph_slot_for key seed (field 2 mh))) [
                | none ↦ fault
                | some vs ↦ check_mph_slot keys values h key vs
              ]
    ]

unfoldable pub get_mph : Bool → Bytes → Bytes → Bytes → Bytes → Result Bytes
get_mph force index keys values key = elim (fetch mph_header_layout index) [
  | none ↦ err corrupt
  | some mh ↦
      if not (field 0 mh == fce_mph_magic)
      then err corrupt
      else if (field 2 mh == 0) || (field 1 mh == 0)
      then err not_found
      else find_mph force index keys values key mh
]

-- A value that is found in a slot belongs to the key: the slot's key lies in the blob of the keys and
-- is the key itself.
pub check_mph_slot-key :
    (keys values : Bytes) (h : Hash128) (key : Bytes) (vs : List ℕ) (value : Bytes)
    → check_mph_slot keys values h key vs ≡ ok value
    → (field 4 vs + field 5 vs ≤ length keys) × (slice keys (field 4 vs) (field 5 vs) ≡ key)
unfolding check_mph_slot
check_mph_slot-key keys values h key vs value e =
    (key_equal_iff keys (field 4 vs) (field 5 vs) key).0 (ground arith)

-- ===== src/Record.antt =====
-- `BuildRecord` of src/internal/fce_internal.h, and `cmp_build_by_key` and `dedupe_records` of
-- src/core/fce_build_records.c.
pub mod Order
pub mod Latest
pub mod Dedupe
pub mod Log
pub mod Answers
pub mod Numbered
use fast_cache_engine.Bytes.Compare.{memcmp}
use fast_cache_engine.Bytes.Words.{Bytes}
use fast_cache_engine.Common.{Bool, List, [], false, if◌then◌else◌, length, ltb, not, true}
use fast_cache_engine.Common.{ℕ, ◌&&◌, ◌*◌, ◌+◌, ◌==◌, ◌∷◌}
use Prim.Native.Nat.{Ordering}
use fast_cache_engine.Qsort.{Qsort}
use fast_cache_engine.Status.{Result, err, invalid_argument, ok, out_of_memory, ◌>>=◌}

pub record BuildRecord : Type 0 where
  pub key : Bytes
  pub value : Bytes
  pub order : ℕ

unfoldable pub cmp_build_by_key : BuildRecord → BuildRecord → Ordering
cmp_build_by_key ra rb =
    let n = if ltb (length ra.key) (length rb.key) then length ra.key else length rb.key in
    let c = if n == 0 then Ordering.eq else memcmp n ra.key rb.key in
    elim c [
      | Ordering.eq ↦
          if not (length ra.key == length rb.key)
          then (if ltb (length ra.key) (length rb.key) then Ordering.lt else Ordering.gt)
          else if ltb ra.order rb.order
          then Ordering.lt
          else if ltb rb.order ra.order
          then Ordering.gt
          else Ordering.eq
      | other ↦ other
    ]

-- The test of the inner `while`.
unfoldable pub same_key : BuildRecord → BuildRecord → Bool
same_key r first =
    (length r.key == length first.key)
    && elim (memcmp (length first.key) r.key first.key) [ Ordering.eq ↦ true | _ ↦ false ]

-- A step of the inner `while`, which keeps the latest record of the group that began with `first`,
-- or of the outer `for`, which writes that record and begins the next group.
unfoldable pub dedupe_loop :
    Bool → BuildRecord → BuildRecord → List BuildRecord → Result (List BuildRecord)
dedupe_loop allow_duplicate first latest [] = ok (latest ∷ [])
dedupe_loop allow_duplicate first latest (r ∷ rs) = elim (same_key r first) [
  | true ↦ elim allow_duplicate [
    | true ↦ dedupe_loop allow_duplicate first (if ltb latest.order r.order then r else latest) rs
    | false ↦ err invalid_argument
  ]
  | false ↦ dedupe_loop allow_duplicate r r rs >>= λ out. ok (latest ∷ out)
]

unfoldable pub dedupe_sorted : Bool → List BuildRecord → Result (List BuildRecord)
dedupe_sorted allow_duplicate [] = ok []
dedupe_sorted allow_duplicate (r ∷ rs) = dedupe_loop allow_duplicate r r rs

-- `malloc i n` says whether the allocation `i` of the call, of `n` bytes, succeeds: first `tmp`,
-- then `dedup`, each of 40 bytes for a record.
unfoldable pub dedupe_records :
    (ℕ → ℕ → Bool) → Qsort cmp_build_by_key → Bool → List BuildRecord → Result (List BuildRecord)
dedupe_records malloc qsort allow_duplicate records =
    if length records == 0
    then ok []
    else if not (malloc 0 (length records * 40))
    then err out_of_memory
    else if not (malloc 1 (length records * 40))
    then err out_of_memory
    else dedupe_sorted allow_duplicate (qsort.sort records)

-- The sum over all records.
abbrev pub total : (BuildRecord → ℕ) → List BuildRecord → ℕ
total f [] = 0
total f (r ∷ rs) = f r + total f rs

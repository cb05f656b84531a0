-- ===== src/Log/Replay.antt =====
-- What `build_log_index` of src/backends/fce_backend_log.c reads from the records that `freeze_log`
-- and `fce_log_append` write.
use fast_cache_engine.Bytes.Compare.{range_ok}
use fast_cache_engine.Bytes.Range.{slice}
use fast_cache_engine.Bytes.Words.{Bytes, IsByte, le, le-IsByte, length-le, rd64-le}
use fast_cache_engine.Common.{==_iff, All, All-append, Bool, List, [], ap, append_assoc}
use fast_cache_engine.Common.{arith, drop, drop-append, length, length-append, refl, sym}
use fast_cache_engine.Common.{take-append, true, ℕ, ◌++◌, ◌+◌, ◌<◌, ◌^◌, ◌∙◌, ◌∷◌, ◌≡◌}
use fast_cache_engine.Common.{◌≤◌}
use fast_cache_engine.Crc.{crc64_update, crc64_update-append, crc64_update-lt}
use fast_cache_engine.Hash.{hash_key}
use fast_cache_engine.Log.{log_crc, log_hash_is, log_head, log_magic, log_record, read_record}
use fast_cache_engine.Record.{BuildRecord}
use fast_cache_engine.Record.Log.{LogIndexEntry}
use fast_cache_engine.Status.{ok}

-- The bytes of records, one after another.
abbrev pub log_bytes : List BuildRecord → Bytes
log_bytes [] = []
log_bytes (r ∷ rs) = log_record r.key r.value ++ log_bytes rs

-- What an entry of the index says of the record in the place `order` of the log.
pub record LogDescribes (force : Bool) (log key value : Bytes) (order : ℕ) (e : LogIndexEntry)
    : Type 0 where
  pub hash : log_hash_is (hash_key force key) e ≡ true
  pub key_fits : e.key_offset + e.key_len ≤ length log
  pub key_stored : slice log e.key_offset e.key_len ≡ key
  pub value_fits : e.value_offset + e.value_len ≤ length log
  pub value_stored : slice log e.value_offset e.value_len ≡ value
  pub place : e.order ≡ order

pub length-log_record :
    (key value : Bytes) → length (log_record key value) ≡ 32 + length key + length value
length-log_record key value =
    let kl = length key in
    let vl = length value in
    let crc = le 8 (log_crc key value) in
    omega (
      arith,
      length-append {0} (log_head kl vl) (key ++ (value ++ crc)),
      length-append {0} (le 8 log_magic) (le 8 kl ++ le 8 vl),
      length-append {0} (le 8 kl) (le 8 vl),
      length-append {0} key (value ++ crc),
      length-append {0} value crc,
      length-le 8 log_magic,
      length-le 8 kl,
      length-le 8 vl,
      length-le 8 (log_crc key value),
    )

-- A file that is cut where a piece of it begins.
drop_at : (log q tail : Bytes) (n : ℕ) → log ≡ q ++ tail → length q ≡ n → drop n log ≡ tail
drop_at log q tail n e l = rw e (drop-append n q tail l)

slice_at :
    (log q k tail : Bytes) (n m : ℕ)
    → log ≡ q ++ (k ++ tail)
    → length q ≡ n
    → length k ≡ m
    → slice log n m ≡ k
slice_at log q k tail n m e l j = rw (drop_at log q (k ++ tail) n e l) (take-append m k tail j)

module _ (p key value rest : Bytes) where
  abbrev log : Bytes
  log = p ++ (log_record key value ++ rest)

  abbrev head : Bytes
  head = log_head (length key) (length value)

  abbrev tail : Bytes
  tail = le 8 (log_crc key value) ++ rest

  abbrev after_head : Bytes
  after_head = key ++ (value ++ tail)

  -- The words of the head, the key, the value and the checksum, where they are read.
  magic_at :
      drop (length p) log
      ≡ le 8 log_magic ++ (le 8 (length key) ++ (le 8 (length value) ++ after_head))
  magic_at =
      drop_at log p (le 8 log_magic ++ (le 8 (length key) ++ (le 8 (length value) ++ after_head)))
        (length p) (simp append_assoc) refl

  key_len_at : drop (length p + 8) log ≡ le 8 (length key) ++ (le 8 (length value) ++ after_head)
  key_len_at =
      drop_at log (p ++ le 8 log_magic) (le 8 (length key) ++ (le 8 (length value) ++ after_head))
        (length p + 8) (simp append_assoc)
        (omega (arith, length-append {0} p (le 8 log_magic), length-le 8 log_magic))

  value_len_at : drop (length p + 16) log ≡ le 8 (length value) ++ after_head
  value_len_at =
      drop_at log (p ++ (le 8 log_magic ++ le 8 (length key))) (le 8 (length value) ++ after_head)
        (length p + 16) (simp append_assoc)
        (omega (
          arith,
          length-append {0} p (le 8 log_magic ++ le 8 (length key)),
          length-append {0} (le 8 log_magic) (le 8 (length key)),
          length-le 8 log_magic,
          length-le 8 (length key),
        ))

  length-head : length head ≡ 24
  length-head = omega (
    arith,
    length-append {0} (le 8 log_magic) (le 8 (length key) ++ le 8 (length value)),
    length-append {0} (le 8 (length key)) (le 8 (length value)),
    length-le 8 log_magic,
    length-le 8 (length key),
    length-le 8 (length value),
  )

  key_at : slice log (length p + 24) (length key) ≡ key
  key_at =
      slice_at log (p ++ head) key (value ++ tail) (length p + 24) (length key) (simp append_assoc)
        (omega (arith, length-append {0} p head, length-head)) refl

  value_at : slice log (length p + 24 + length key) (length value) ≡ value
  value_at =
      slice_at log (p ++ (head ++ key)) value tail (length p + 24 + length key) (length value)
        (simp append_assoc)
        (omega (arith, length-append {0} p (head ++ key), length-append {0} head key, length-head))
        refl

  length-checked : length (head ++ (key ++ value)) ≡ 24 + length key + length value
  length-checked =
      omega (arith, length-append {0} head (key ++ value), length-append {0} key value, length-head)

  checked_at : slice log (length p) (24 + length key + length value) ≡ head ++ (key ++ value)
  checked_at =
      slice_at log p (head ++ (key ++ value)) tail (length p) (24 + length key + length value)
        (simp append_assoc) refl length-checked

  crc_at : drop (length p + 24 + length key + length value) log ≡ tail
  crc_at =
      drop_at log (p ++ (head ++ (key ++ value))) tail (length p + 24 + length key + length value)
        (simp append_assoc)
        (omega (arith, length-append {0} p (head ++ (key ++ value)), length-checked))

  length-log : length log ≡ length p + 32 + length key + length value + length rest
  length-log = omega (
    arith,
    length-append {0} p (log_record key value ++ rest),
    length-append {0} (log_record key value) rest,
    length-log_record key value,
  )

  -- The checksum of the pieces is that of the whole.
  crc_of_pieces : All IsByte key → crc64_update 0 (head ++ (key ++ value)) ≡ log_crc key value
  crc_of_pieces bytes =
      let head_bytes : All IsByte head =
        All-append IsByte (le 8 log_magic) (le 8 (length key) ++ le 8 (length value))
          (le-IsByte 8 log_magic)
          (All-append IsByte (le 8 (length key)) (le 8 (length value)) (le-IsByte 8 (length key))
            (le-IsByte 8 (length value))) in
      sym (
        ap (λ c. crc64_update c value) (crc64_update-append 0 head key (omega arith) head_bytes)
        ∙ crc64_update-append 0 (head ++ key) value (omega arith)
            (All-append IsByte head key head_bytes bytes)
        ∙ ap (crc64_update 0) (append_assoc head key value))

  -- The entry of a record that begins where `p` ends.
  abbrev pub entry_of : Bool → ℕ → LogIndexEntry
  entry_of force order = record {
    hash_lo = (hash_key force key).lo;
    hash_hi = (hash_key force key).hi;
    key_offset = length p + 24;
    key_len = length key;
    value_len = length value;
    value_offset = length p + 24 + length key;
    order = order;
  }

  pub read_record-log_record :
      (force : Bool) (record_count order : ℕ)
      → All IsByte key
      → length key < 2 ^ 32
      → length value < 2 ^ 32
      → order < record_count
      → read_record force log record_count (length p) order ≡ ok (entry_of force order)
  unfolding read_record range_ok
  read_record-log_record force record_count order bytes a b c =
      rw
        (
          key_len_at,
          rd64-le (length key) (le 8 (length value) ++ after_head) (omega arith),
          value_len_at,
          rd64-le (length value) after_head (omega arith),
          checked_at,
          magic_at,
          rd64-le log_magic (le 8 (length key) ++ (le 8 (length value) ++ after_head))
              (omega arith),
          key_at,
          crc_of_pieces bytes,
          crc_at,
          rd64-le (log_crc key value) rest
              (crc64_update-lt (crc64_update (crc64_update 0 head) key) value),
          length-log,
        )
        (ground arith)

  pub log_describes :
      (force : Bool) (order : ℕ) → LogDescribes force log key value order (entry_of force order)
  unfolding log_hash_is
  log_describes force order = record {
    hash =
        rw
          (
            (==_iff (hash_key force key).hi (hash_key force key).hi).1 refl,
            (==_iff (hash_key force key).lo (hash_key force key).lo).1 refl,
          )
          refl;
    key_fits = omega (arith, length-log);
    key_stored = key_at;
    value_fits = omega (arith, length-log);
    value_stored = value_at;
    place = refl;
  }

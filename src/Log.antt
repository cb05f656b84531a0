-- ===== src/Log.antt =====
-- The append-only log of src/backends/fce_backend_log.c.
pub mod Append
pub mod Replay
pub mod Index
pub mod Newest
pub mod Lookup
pub mod Freeze
pub mod Extend
pub mod Answers
pub mod Keeps
use fast_cache_engine.Bytes.Compare.{key_equal, range_ok}
use fast_cache_engine.Bytes.Range.{slice}
use fast_cache_engine.Bytes.Words.{Bytes, le, rd64}
use fast_cache_engine.Common.{Bool, List, Option, [], drop, get_elem?, if◌then◌else◌, leb}
use fast_cache_engine.Common.{length, ltb, none, not, some, suc, true, zero, ℕ, ◌%◌, ◌&&◌}
use fast_cache_engine.Common.{◌*◌, ◌++◌, ◌+◌, ◌-◌, ◌/◌, ◌==◌, ◌||◌, ◌∷◌}
use fast_cache_engine.Crc.{crc64_file, crc64_update}
use fast_cache_engine.Entry.Write.{uint32_max}
use fast_cache_engine.Env.{Env, fclose, fopen, fwrite, join_path, log_file, manifest_file}
use fast_cache_engine.Env.{reopen, write_file}
use fast_cache_engine.Hash.{Hash128, hash_key, u64}
use fast_cache_engine.Manifest.{FceManifestInfo, make_manifest, manifest_bytes}
use fast_cache_engine.Qsort.{Qsort}
use fast_cache_engine.Record.{BuildRecord}
use fast_cache_engine.Record.Log.{LogIndexEntry, cmp_log_index_entry}
use fast_cache_engine.Schema.{FceSchema}
use fast_cache_engine.Search.{lower_bound}
use fast_cache_engine.Status.{Result, corrupt, err, fault, io, not_found, ok, out_of_memory}
use fast_cache_engine.Status.{◌>>=◌, ◌>>◌}

-- `FCE_LOG_MAGIC`
abbrev pub log_magic : ℕ
log_magic = 0x31474f4c454346

-- The three words in front of a key and its value.
abbrev pub log_head : ℕ → ℕ → Bytes
log_head key_len value_len = le 8 log_magic ++ (le 8 key_len ++ le 8 value_len)

-- The checksum behind them, from one call for each piece.
abbrev pub log_crc : Bytes → Bytes → ℕ
log_crc key value =
    crc64_update (crc64_update (crc64_update 0 (log_head (length key) (length value))) key) value

-- A record of the log file.
abbrev pub log_record : Bytes → Bytes → Bytes
log_record key value =
    log_head (length key) (length value) ++ (key ++ (value ++ le 8 (log_crc key value)))

-- The size of a record of the log file, as the C code adds it up.
abbrev pub log_record_size : Bytes → Bytes → ℕ
log_record_size key value = 24 + length key + length value + 8

-- The four writes of a record at the offset `off`; nothing is written of an empty key or value.
unfoldable pub write_record : Env → ℕ → Bytes → Bytes → Result Bytes
write_record env off key value =
    if not (env.succeeds (fwrite log_file off))
    then err io
    else if not (length key == 0) && not (env.succeeds (fwrite log_file (off + 24)))
    then err io
    else if not (length value == 0) && not (env.succeeds (fwrite log_file (off + 24 + length key)))
    then err io
    else if not (env.succeeds (fwrite log_file (off + 24 + length key + length value)))
    then err io
    else ok (log_record key value)

-- The loop over the records, from the offset `off`: the bytes of the file.
unfoldable pub write_records : Env → List BuildRecord → ℕ → Result Bytes
unfolding write_record
write_records env [] off = ok []
write_records env (r ∷ rs) off = write_record env off r.key r.value >>= λ bytes.
    write_records env rs (off + length bytes) >>= λ rest. ok (bytes ++ rest)

-- The sum `log_size` of the loop, a `uint64_t`.
unfoldable pub log_size_of : List BuildRecord → ℕ → ℕ
log_size_of [] size = size
log_size_of (r ∷ rs) size = log_size_of rs ((size + log_record_size r.key r.value) % u64)

-- The log file and the manifest file of a cache directory.
pub record LogFiles : Type 0 where
  pub log : Bytes
  pub manifest : Bytes

abbrev pub log_manifest : Env → FceManifestInfo → ℕ → ℕ → Bytes → FceManifestInfo
log_manifest env m count size log = record m {
  record_count = count;
  log_size = size;
  log_crc64 = crc64_file (if env.succeeds (reopen log_file) then some log else none);
}

-- `write_manifest` of src/core/fce_manifest.c.
unfoldable pub write_manifest : Env → FceManifestInfo → Result Bytes
write_manifest env m =
    if not (env.succeeds (join_path manifest_file 0))
    then err out_of_memory
    else (write_file env manifest_file (length (manifest_bytes m)) >> ok (manifest_bytes m))

-- What `freeze_log` writes into the manifest of the log file.
abbrev pub frozen_log_manifest : Env → FceSchema → List BuildRecord → Bytes → FceManifestInfo
frozen_log_manifest env s records log =
    log_manifest env (make_manifest env.now s (length records)) (length records)
      (log_size_of records 0) log

-- From the `fclose` of the log file on.
unfoldable pub finish_log : Env → FceSchema → List BuildRecord → Bytes → Result LogFiles
unfolding log_size_of write_manifest
finish_log env s records log =
    if not (env.succeeds (fclose log_file))
    then err io
    else (write_manifest env (frozen_log_manifest env s records log) >>= λ manifest.
        ok (record { log = log; manifest = manifest }))

unfoldable pub freeze_log : Env → FceSchema → List BuildRecord → Result LogFiles
unfolding write_records finish_log
freeze_log env s records =
    if not (env.succeeds (join_path log_file 0))
    then err out_of_memory
    else if not (env.succeeds (fopen log_file))
    then err io
    else (write_records env records 0 >>= finish_log env s records)

-- The body of the loop of `build_log_index`, at the position `pos` with at least 32 bytes after it:
-- the entry of the record there.
unfoldable pub read_record : Bool → Bytes → ℕ → ℕ → ℕ → Result LogIndexEntry
read_record force log record_count pos order =
    let size = length log in
    let kl = rd64 (drop (pos + 8) log) in
    let vl = rd64 (drop (pos + 16) log) in
    let key_offset = pos + 24 in
    let value_offset = key_offset + kl in
    let end = value_offset + vl in
    let h = hash_key force (slice log key_offset kl) in
    if not (rd64 (drop pos log) == log_magic) || (ltb uint32_max kl || ltb uint32_max vl)
    then err corrupt
    else if not (range_ok key_offset kl size)
    then err corrupt
    else if not (range_ok value_offset vl size)
    then err corrupt
    else if not (range_ok end 8 size)
    then err corrupt
    else if not (crc64_update 0 (slice log pos (24 + kl + vl)) == rd64 (drop end log))
    then err corrupt
    else if leb record_count order
    then err corrupt
    else ok (record {
      hash_lo = h.lo;
      hash_hi = h.hi;
      key_offset = key_offset;
      key_len = kl;
      value_len = vl;
      value_offset = value_offset;
      order = order;
    })

-- The loop, with what is tested after it. Every round goes on by 32 bytes at least; the fuel is the
-- size of the file.
unfoldable pub read_records : ℕ → Bool → Bytes → ℕ → ℕ → ℕ → Result (List LogIndexEntry)
unfolding read_record
read_records zero force log record_count pos order =
    if leb (pos + 32) (length log)
    then fault
    else if not (pos == length log) || not (order == record_count)
    then err corrupt
    else ok []
read_records (suc fuel) force log record_count pos order =
    if leb (pos + 32) (length log)
    then (read_record force log record_count pos order >>= λ e.
        read_records fuel force log record_count (e.value_offset + e.value_len + 8) (suc order)
        >>= λ es. ok (e ∷ es))
    else if not (pos == length log) || not (order == record_count)
    then err corrupt
    else ok []

-- The array of the entries, sorted. `alloc` says whether the arena has so many bytes.
unfoldable pub build_log_index :
    (ℕ → Bool) → Qsort cmp_log_index_entry → Bool → Bytes → ℕ → Result (List LogIndexEntry)
unfolding read_records
build_log_index alloc sort_entries force log record_count =
    if ltb ((u64 - 1) / 48) record_count
    then err out_of_memory
    else if not (alloc ((if record_count == 0 then 1 else record_count) * 48))
    then err out_of_memory
    else (read_records (length log) force log record_count 0 0 >>= λ es. ok (sort_entries.sort es))

unfoldable pub log_below : Hash128 → LogIndexEntry → Bool
log_below h e = ltb e.hash_hi h.hi || ((e.hash_hi == h.hi) && ltb e.hash_lo h.lo)

unfoldable pub log_hash_is : Hash128 → LogIndexEntry → Bool
log_hash_is h e = (e.hash_hi == h.hi) && (e.hash_lo == h.lo)

-- `!best || e->order > best->order`
abbrev pub newer : LogIndexEntry → Option LogIndexEntry → Bool
newer e none = true
newer e (some best) = ltb best.order e.order

-- The loop over the entries from the bound on, which remembers the newest one with the key.
unfoldable pub newest :
    Hash128 → Bytes → Bytes → List LogIndexEntry → Option LogIndexEntry → Option LogIndexEntry
unfolding log_hash_is
newest h log key [] best = best
newest h log key (e ∷ es) best =
    let next = if key_equal log e.key_offset e.key_len key && newer e best then some e else best in
    let rest = newest h log key es next in if log_hash_is h e then rest else best

unfoldable pub take_log_value : Bytes → Option LogIndexEntry → Result Bytes
take_log_value log none = err not_found
take_log_value log (some best) =
    if range_ok best.value_offset best.value_len (length log)
    then ok (slice log best.value_offset best.value_len)
    else err corrupt

unfoldable pub get_log : Bool → Bytes → List LogIndexEntry → Bytes → Result Bytes
unfolding log_below newest take_log_value
get_log force log es key =
    let h = hash_key force key in
    lower_bound (get_elem? es) (log_below h) (length es) 0 (length es) >>= λ lo.
    take_log_value log (newest h log key (drop lo es) none)

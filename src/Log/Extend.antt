-- ===== src/Log/Extend.antt =====
-- What `fce_log_append` of src/backends/fce_backend_log.c leaves in the directory.
use fast_cache_engine.Builder.{Buffer, content}
use fast_cache_engine.Bytes.Words.{Bytes}
use fast_cache_engine.Codec.{fce_codec_encode}
use fast_cache_engine.Common.{List, Option, Option-cases, [], ap, append-nil, append_assoc}
use fast_cache_engine.Common.{arith, if◌then◌else◌, inl, inr, length, length-append, none}
use fast_cache_engine.Common.{not, refl, set, some, sym, true, ℕ, ◌%◌, ◌++◌, ◌+◌, ◌<◌, ◌==◌}
use fast_cache_engine.Common.{◌∙◌, ◌∷◌, ◌≡◌}
use fast_cache_engine.Crc.{crc64_file, crc64_file-lt}
use fast_cache_engine.Env.{Env, join_path, log_file, manifest_file, reopen}
use fast_cache_engine.Hash.{u64}
use fast_cache_engine.Layout.{AllFit-set, fetch}
use fast_cache_engine.Log.{log_manifest, log_record, log_record_size, write_record}
use fast_cache_engine.Log.Append.{
  AppendEnv, LogDir, append_encoded, append_record, appended_manifest,
}
use fast_cache_engine.Log.Append.{encode_append, fce_log_append, finish_append, replace_manifest}
use fast_cache_engine.Log.Freeze.{write_record-eq}
use fast_cache_engine.Log.Replay.{length-log_record, log_bytes}
use fast_cache_engine.Manifest.{FceManifestInfo, check_manifest, manifest_bytes, manifest_fields}
use fast_cache_engine.Manifest.{
  manifest_layout, manifest_of_fields, read_manifest, read_manifest-eq-ok, read_manifest_file,
  schema_from_manifest,
}
use fast_cache_engine.Manifest.RoundTrip.{FitsManifest, passed, read_manifest_file-manifest_bytes}
use fast_cache_engine.Record.{BuildRecord}
use fast_cache_engine.Schema.{backend_log, validate_schema}
use fast_cache_engine.Status.{>>=-eq-ok, Result, corrupt, err, fault, invalid_argument}
use fast_cache_engine.Status.{ok, ok-injective, ◌>>=◌, ◌>>◌}
use mathlib.Core.Path.{subst}

-- The log file and the manifest file agree: the file holds the records, and the manifest its size,
-- its checksum and their number.
pub record IsLog (dir : LogDir) (m : FceManifestInfo) (rs : List BuildRecord) : Type 0 where
  pub log_holds : dir.log ≡ log_bytes rs
  pub readable : read_manifest_file dir.manifest ≡ ok m
  pub fits : FitsManifest m
  pub counted : m.record_count ≡ length rs
  pub sized : m.log_size ≡ length dir.log
  pub checked : m.log_crc64 ≡ crc64_file (some dir.log)

pub log_bytes-append :
    (rs ss : List BuildRecord) → log_bytes (rs ++ ss) ≡ log_bytes rs ++ log_bytes ss
log_bytes-append [] ss = refl
log_bytes-append (r ∷ rs) ss =
    ap (λ x. log_record r.key r.value ++ x) (log_bytes-append rs ss)
    ∙ sym (append_assoc (log_record r.key r.value) (log_bytes rs) (log_bytes ss))

-- A manifest with another count, size and checksum passes the checks too.
pub check_manifest-log_manifest :
    (env : Env) (m : FceManifestInfo) (count size : ℕ) (log : Bytes) {n : FceManifestInfo}
    → check_manifest m ≡ ok n
    → check_manifest (log_manifest env m count size log) ≡ ok (log_manifest env m count size log)
unfolding check_manifest schema_from_manifest
check_manifest-log_manifest env m count size log h =
    let (magic, tag, version, schema, algorithm, valid) = passed m h in
    rw (magic, tag, version, schema, algorithm, valid) refl

replaced :
    (a : AppendEnv) (m : FceManifestInfo) (dir : LogDir) {out : LogDir}
    → replace_manifest a m dir ≡ (out, ok tt)
    → (out.log ≡ dir.log) × (out.manifest ≡ some (manifest_bytes m))
unfolding replace_manifest
replaced a m dir h = ground arith

finished :
    (a : AppendEnv) (m : FceManifestInfo) (key value : Bytes) (dir : LogDir) (w : Result Bytes)
    {out : LogDir}
    → finish_append a m key value dir w ≡ (out, ok tt)
    → (bytes : Bytes) × (w ≡ ok bytes)
      × (out.log ≡ dir.log ++ bytes)
      × (out.manifest
          ≡ some (manifest_bytes (appended_manifest a.env m key value (dir.log ++ bytes))))
unfolding finish_append
finished a m key value dir (ok bytes) {out} h =
    let log : Bytes = dir.log ++ bytes in
    let next : LogDir = record dir { log = log } in
    let (p, q) =
      replaced a (appended_manifest a.env m key value log) next {out = out} (ground arith) in
    (bytes, refl, p, q)
finished a m key value dir (err e) h = cc
finished a m key value dir fault h = cc

abbrev Extends : AppendEnv → FceManifestInfo → Bytes → Bytes → LogDir → LogDir → Type 0
Extends a m key value dir out =
    (out.log ≡ dir.log ++ log_record key value)
    × (out.manifest
        ≡ some (
            manifest_bytes (appended_manifest a.env m key value (dir.log ++ log_record key value))))

appended :
    (a : AppendEnv) (m : FceManifestInfo) (key value : Bytes) (dir : LogDir) {out : LogDir}
    → append_record a m key value dir ≡ (out, ok tt)
    → Extends a m key value dir out
unfolding append_record
appended a m key value dir {out} h =
    let w : Result Bytes = write_record a.env (length dir.log) key value in
    let (bytes, p, q, r) = finished a m key value dir w {out = out} (ground arith) in
    let same = write_record-eq a.env (length dir.log) key value p in (rw same at q, rw same at r)

encoded :
    (a : AppendEnv) (first : Result (FceManifestInfo × Bytes × Bytes)) (dir : LogDir) {out : LogDir}
    → append_encoded a first dir ≡ (out, ok tt)
    → (m : FceManifestInfo) × (key : Bytes) × (value : Bytes) × (first ≡ ok (m, key, value))
      × Extends a m key value dir out
unfolding append_encoded
encoded a (ok (m, key, value)) dir h = (m, key, value, refl, appended a m key value dir h)
encoded a (err e) dir h = cc
encoded a fault dir h = cc

-- What has been done before the log is opened.
prepared :
    (a : AppendEnv) (key value : Bytes) (dir : LogDir) {m : FceManifestInfo} {k v : Bytes}
    → (a.acquired >> encode_append a key value dir) ≡ ok (m, k, v)
    → (read_manifest_file dir.manifest ≡ ok m)
      × (fce_codec_encode a.key_malloc m.key_codec key ≡ ok k)
      × (fce_codec_encode a.value_malloc m.value_codec value ≡ ok v)
unfolding encode_append
prepared a key value dir {m} {k} {v} h =
    let all : FceManifestInfo × Bytes × Bytes = (m, k, v) in
    let (u, p, f) = >>=-eq-ok a.acquired (λ _. encode_append a key value dir) {b = all} h in
    let (n, q, g) =
      >>=-eq-ok (read_manifest (a.env.succeeds (join_path manifest_file 0)) dir.manifest)
        (λ n.
          if not (n.backend_kind == backend_log)
          then err invalid_argument
          else (fce_codec_encode a.key_malloc n.key_codec key >>= λ x.
              fce_codec_encode a.value_malloc n.value_codec value >>= λ y. ok (n, x, y)))
        {b = all} f in
    let (x, r, i) =
      >>=-eq-ok (fce_codec_encode a.key_malloc n.key_codec key)
        (λ x. fce_codec_encode a.value_malloc n.value_codec value >>= λ y. ok (n, x, y)) {b = all}
        (ground arith) in
    let (y, s, j) =
      >>=-eq-ok (fce_codec_encode a.value_malloc n.value_codec value) (λ y. ok (n, x, y)) {b = all}
        i in
    subst
      (λ t.
        (read_manifest_file dir.manifest ≡ ok t.0)
        × (fce_codec_encode a.key_malloc t.0.key_codec key ≡ ok t.1)
        × (fce_codec_encode a.value_malloc t.0.value_codec value ≡ ok t.2))
      (ok-injective j)
      (read_manifest-eq-ok (a.env.succeeds (join_path manifest_file 0)) dir.manifest q, r, s)

pub log_manifest-Fits :
    (env : Env) (m : FceManifestInfo) (count size : ℕ) (log : Bytes)
    → count < u64
    → size < u64
    → FitsManifest m
    → FitsManifest (log_manifest env m count size log)
log_manifest-Fits env m count size log p q h =
    let crc : ℕ = crc64_file (if env.succeeds (reopen log_file) then some log else none) in
    let small = crc64_file-lt (if env.succeeds (reopen log_file) then some log else none) in
    let fields = manifest_fields m in
    AllFit-set manifest_layout (set (set fields 11 count) 15 size) 21 8 crc refl (omega arith) (
      AllFit-set manifest_layout (set fields 11 count) 15 8 size refl (omega arith)
        (AllFit-set manifest_layout fields 11 8 count refl (omega arith) h))

-- The record that an append adds to `n` others.
abbrev pub appended_record : Bytes → Bytes → ℕ → BuildRecord
appended_record key value n = record { key = key; value = value; order = n }

checked_alone :
    (n : FceManifestInfo) {m : FceManifestInfo} → check_manifest n ≡ ok m → check_manifest m ≡ ok m
unfolding check_manifest
checked_alone n {m} h =
    let (u, valid, same) =
      >>=-eq-ok (validate_schema (schema_from_manifest n)) (λ _. ok n) {b = m} (ground arith) in
    subst (λ x. check_manifest x ≡ ok m) (ok-injective same) h

-- A manifest that has been read passes the checks.
accepted :
    (file : Option Bytes) {m : FceManifestInfo}
    → read_manifest_file file ≡ ok m
    → check_manifest m ≡ ok m
unfolding read_manifest_file
accepted none h = cc
accepted (some bytes) {m} h = elim (Option-cases (fetch manifest_layout bytes)) [
  | inl e ↦ let no_fields : err corrupt ≡ ok m = rw (e, read_manifest_file) at h in cc
  | inr (vs, e) ↦ checked_alone (manifest_of_fields vs) (rw (e, read_manifest_file) at h)
]

extended :
    (a : AppendEnv) (m : FceManifestInfo) (rs : List BuildRecord) (key value : Bytes)
    (dir out : LogDir)
    → IsLog dir m rs
    → a.env.succeeds (reopen log_file) ≡ true
    → length rs + 1 < u64
    → length dir.log + length (log_record key value) < u64
    → Extends a m key value dir out
    → IsLog out
        (appended_manifest a.env m key value (dir.log ++ log_record key value))
        (rs ++ (appended_record key value (length rs) ∷ []))
unfolding appended_manifest
extended a m rs key value dir out is open_again p q (log, manifest) =
    let whole = dir.log ++ log_record key value in
    let size = length-append {0} dir.log (log_record key value) in
    let count : (m.record_count + 1) % u64 ≡ length rs + 1 = omega (arith, is.counted) in
    let sum : (m.log_size + log_record_size key value) % u64 ≡ length whole =
      omega (arith, is.sized, size, length-log_record key value) in
    let fits =
      log_manifest-Fits a.env m ((m.record_count + 1) % u64)
        ((m.log_size + log_record_size key value) % u64) whole (omega arith) (omega arith)
        is.fits in
    record {
      log_holds =
          log
          ∙ ap (λ x. x ++ log_record key value) is.log_holds
          ∙ sym (
              log_bytes-append rs (appended_record key value (length rs) ∷ [])
              ∙ ap (λ x. log_bytes rs ++ x) (append-nil (log_record key value)));
      readable = rw manifest (
          read_manifest_file-manifest_bytes (appended_manifest a.env m key value whole) fits
          ∙ check_manifest-log_manifest a.env m ((m.record_count + 1) % u64)
              ((m.log_size + log_record_size key value) % u64) whole
              (accepted dir.manifest is.readable));
      fits = fits;
      counted =
          omega (arith, count, length-append {0} rs (appended_record key value (length rs) ∷ []));
      sized = sum ∙ ap length (sym log);
      checked = rw (open_again, log) refl;
    }

-- After an append that succeeds, if the log could be read again for its checksum and there are fewer
-- than 2^64 records and bytes, the directory holds the old records and one more: the key and value
-- as the codecs of the manifest encode them.
pub fce_log_append-IsLog :
    (a : AppendEnv) (key value : Buffer) (dir out : LogDir) (m : FceManifestInfo)
    (rs : List BuildRecord)
    → IsLog dir m rs
    → a.env.succeeds (reopen log_file) ≡ true
    → length rs + 1 < u64
    → length out.log < u64
    → fce_log_append a key value dir ≡ (out, ok tt)
    → (k : Bytes) × (v : Bytes) × (n : FceManifestInfo) × (fce_codec_encode a.key_malloc m.key_codec
          (content key)
        ≡ ok k)
      × (fce_codec_encode a.value_malloc m.value_codec (content value) ≡ ok v)
      × IsLog out n (rs ++ (appended_record k v (length rs) ∷ []))
unfolding fce_log_append
fce_log_append-IsLog a key value dir out m rs is open_again p q h =
    let first = a.acquired >> encode_append a (content key) (content value) dir in
    let (n, k, v, e, x) = encoded a first dir {out = out} (ground arith) in
    let (r, ek, ev) = prepared a (content key) (content value) dir e in
    let same : n ≡ m = ok-injective (sym r ∙ is.readable) in
    let grew : length out.log ≡ length (dir.log ++ log_record k v) = ap length x.0 in
    let grown : length dir.log + length (log_record k v) < u64 =
      omega (arith, grew, length-append {0} dir.log (log_record k v)) in
    (
      k,
      v,
      appended_manifest a.env m k v (dir.log ++ log_record k v),
      rw same at ek,
      rw same at ev,
      extended a m rs k v dir out is open_again p grown (rw same at x),
    )

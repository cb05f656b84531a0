-- ===== src/Reader/Open.antt =====
-- The opening of a reader in src/api/fce_reader_api.c, with `fce_inspect` and `fce_validate`.
use fast_cache_engine.Bytes.Words.{Bytes}
use fast_cache_engine.Common.{Bool, List, Option, [], if◌then◌else◌, none, not, some, ℕ}
use fast_cache_engine.Common.{◌&&◌, ◌==◌}
use fast_cache_engine.Env.{
  Env, File, index_file, join_path, keys_file, log_file, manifest_file, values_file,
}
use fast_cache_engine.Log.{build_log_index}
use fast_cache_engine.Manifest.{FceManifestInfo, read_manifest, schema_from_manifest}
use fast_cache_engine.Qsort.{Qsort}
use fast_cache_engine.Reader.{FceReader}
use fast_cache_engine.Reader.Validate.{validate_reader_files}
use fast_cache_engine.Record.Log.{LogIndexEntry, cmp_log_index_entry}
use fast_cache_engine.Schema.{FceSchema, backend_log}
use fast_cache_engine.Sorted.{forced}
use fast_cache_engine.Status.{Result, err, ok, out_of_memory, ◌>>=◌, ◌>>◌}

-- A cache directory; `none` is a file that cannot be opened.
pub record CacheDir : Type 0 where
  pub manifest : Option Bytes
  pub index : Option Bytes
  pub keys : Option Bytes
  pub values : Option Bytes
  pub log : Option Bytes

-- What the opening meets: the answer of the allocations for the reader, of
-- `fce_cache_lock_acquire_shared`, and of reading or mapping a file that could be opened, and
-- whether the arena has room for the index of a log.
pub record OpenEnv : Type 0 where
  pub env : Env
  pub created : Result (Unit {0})
  pub acquired : Result (Unit {0})
  pub loaded : File → Result (Unit {0})
  pub log_alloc : ℕ → Bool

-- `read_file_arena` of src/core/fce_file.c: a file that cannot be opened is an empty blob.
unfoldable pub read_file_arena : OpenEnv → File → Option Bytes → Result Bytes
read_file_arena o f none = ok []
read_file_arena o f (some bytes) = o.loaded f >> ok bytes

-- The index of a log; the other backends have none.
unfoldable pub open_log_index :
    OpenEnv → Qsort cmp_log_index_entry → FceReader → Result (List LogIndexEntry)
open_log_index o sort_entries r =
    if r.schema.backend == backend_log
    then build_log_index o.log_alloc sort_entries (forced r.schema) r.log_blob
        r.manifest.record_count
    else ok []

-- The files after the manifest.
unfoldable pub open_files : OpenEnv → CacheDir → FceManifestInfo → Result FceReader
unfolding read_file_arena
open_files o dir m =
    let path : File → Bool = λ f. o.env.succeeds (join_path f 0) in
    if not (path index_file && (path keys_file && (path values_file && path log_file)))
    then err out_of_memory
    else (read_file_arena o index_file dir.index >>= λ index.
        read_file_arena o keys_file dir.keys >>= λ keys.
        read_file_arena o values_file dir.values >>= λ values.
        read_file_arena o log_file dir.log >>= λ log. ok (record {
          manifest = m;
          schema = schema_from_manifest m;
          index_blob = index;
          keys_blob = keys;
          values_blob = values;
          log_blob = log;
          log_index = [];
        }))

unfoldable pub fce_reader_open_expected :
    OpenEnv → Qsort cmp_log_index_entry → CacheDir → Option FceSchema → Result FceReader
unfolding open_files open_log_index
fce_reader_open_expected o sort_entries dir expected =
    o.created
    >> (o.acquired
        >> (read_manifest (o.env.succeeds (join_path manifest_file 0)) dir.manifest >>= λ m.
            open_files o dir m >>= λ r.
            validate_reader_files o.env r expected
            >> (open_log_index o sort_entries r >>= λ index. ok (record r { log_index = index }))))

unfoldable pub fce_reader_open : OpenEnv → Qsort cmp_log_index_entry → CacheDir → Result FceReader
unfolding fce_reader_open_expected
fce_reader_open o sort_entries dir = fce_reader_open_expected o sort_entries dir none

unfoldable pub fce_inspect : Bool → Result (Unit {0}) → Option Bytes → Result FceManifestInfo
fce_inspect path acquired manifest = acquired >> read_manifest path manifest

unfoldable pub fce_validate :
    OpenEnv → Qsort cmp_log_index_entry → CacheDir → Option FceSchema → Result (Unit {0})
unfolding fce_reader_open_expected
fce_validate o sort_entries dir expected =
    fce_reader_open_expected o sort_entries dir expected >>= λ _. ok tt

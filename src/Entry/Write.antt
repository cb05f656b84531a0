-- ===== src/Entry/Write.antt =====
-- `write_keys_values` of src/core/fce_build_records.c.
use fast_cache_engine.Bytes.Words.{Bytes}
use fast_cache_engine.Common.{Bool, List, [], if◌then◌else◌, length, ltb, not, ℕ, ◌%◌, ◌&&◌}
use fast_cache_engine.Common.{◌++◌, ◌+◌, ◌-◌, ◌==◌, ◌^◌, ◌||◌, ◌∷◌}
use fast_cache_engine.Entry.{SortedEntry}
use fast_cache_engine.Env.{Env, fclose, fopen, fwrite, join_path, keys_file, values_file}
use fast_cache_engine.Hash.{hash_key, u64}
use fast_cache_engine.Record.{BuildRecord}
use fast_cache_engine.Status.{Result, err, invalid_argument, io, ok, out_of_memory, ◌>>=◌}

abbrev pub uint32_max : ℕ
uint32_max = 2 ^ 32 - 1

-- The array of entries, the two files, and the out-parameters.
pub record Written : Type 0 where
  pub entries : List SortedEntry
  pub keys : Bytes
  pub values : Bytes
  pub keys_size : ℕ
  pub values_size : ℕ

unfoldable pub make_entry : Bool → BuildRecord → ℕ → ℕ → SortedEntry
make_entry force r ko vo = record {
  hash_lo = (hash_key force r.key).lo;
  hash_hi = (hash_key force r.key).hi;
  key_offset = ko;
  key_len = length r.key;
  reserved0 = 0;
  value_offset = vo;
  value_len = length r.value;
  flags = 0;
}

-- What a round of the loop adds in front of the later ones.
unfoldable pub add_record : Bool → BuildRecord → ℕ → ℕ → Written → Written
add_record force r ko vo w = record {
  entries = make_entry force r ko vo ∷ w.entries;
  keys = r.key ++ w.keys;
  values = r.value ++ w.values;
  keys_size = w.keys_size;
  values_size = w.values_size;
}

-- The loop over the records; the offsets are `uint64_t`.
unfoldable pub write_loop : Env → Bool → List BuildRecord → ℕ → ℕ → Result Written
unfolding add_record make_entry
write_loop env force [] ko vo =
    ok (record { entries = []; keys = []; values = []; keys_size = ko; values_size = vo })
write_loop env force (r ∷ rs) ko vo =
    let rest = write_loop env force rs ((ko + length r.key) % u64) ((vo + length r.value) % u64) in
    if ltb uint32_max (length r.key) || ltb uint32_max (length r.value)
    then err invalid_argument
    else if not (length r.key == 0) && not (env.succeeds (fwrite keys_file ko))
    then err io
    else if not (length r.value == 0) && not (env.succeeds (fwrite values_file vo))
    then err io
    else (rest >>= λ w. ok (add_record force r ko vo w))

unfoldable pub write_keys_values : Env → Bool → List BuildRecord → Result Written
write_keys_values env force records =
    if not (env.succeeds (join_path keys_file 0)) || not (env.succeeds (join_path values_file 0))
    then err out_of_memory
    else if not (env.succeeds (fopen keys_file)) || not (env.succeeds (fopen values_file))
    then err io
    else (write_loop env force records 0 0 >>= λ w.
        if not (env.succeeds (fclose keys_file)) || not (env.succeeds (fclose values_file))
        then err io
        else ok w)

-- ===== src/Reader/Batch.antt =====
-- `fce_reader_get_batch` of src/api/fce_reader_api.c.
use fast_cache_engine.Builder.{Buffer}
use fast_cache_engine.Bytes.Words.{Bytes}
use fast_cache_engine.Common.{List, get_elem?, length}
use fast_cache_engine.Common.{none, some, ℕ, ◌+◌}
use fast_cache_engine.Common.{◌<◌, ◌≡◌, ◌≤◌, ◌⊎◌}
use fast_cache_engine.Reader.{BatchSlot, FceReader, GetEnv, fce_reader_get}
use fast_cache_engine.Status.{Result, err, fault, ok}

-- What a batch says of one key: the value that its lookup finds, or NULL, length 0 and the error.
abbrev pub slot_of : Result Bytes → BatchSlot
slot_of (ok v) = record { value = some v; value_len = length v; status = ok tt }
slot_of (err e) = record { value = none; value_len = 0; status = err e }
slot_of fault = record { value = none; value_len = 0; status = fault }

-- What the loop leaves when it starts at a place of the arrays: one slot for each key, and the places
-- before and behind them as they were.
abbrev pub IsBatch :
    (ℕ → GetEnv) → FceReader → List Buffer → ℕ → List BatchSlot → List BatchSlot → Type 0
IsBatch envs r keys first slots left =
    (length left ≡ length slots)
    × ((i : ℕ) (key : Buffer)
        → get_elem? keys i ≡ some key
        → get_elem? left (first + i) ≡ some (slot_of (fce_reader_get (envs (first + i)) r key)))
    × ((j : ℕ) → (j < first) ⊎ (first + length keys ≤ j) → get_elem? left j ≡ get_elem? slots j)

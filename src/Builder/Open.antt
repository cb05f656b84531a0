-- ===== src/Builder/Open.antt =====
-- The opening of a builder in src/api/fce_builder_api.c.
use fast_cache_engine.Builder.{FceBuilder}
use fast_cache_engine.Common.{Bool, [], false, if◌then◌else◌, not}
use fast_cache_engine.Schema.{FceSchema, validate_schema}
use fast_cache_engine.Status.{Result, err, io, ok, out_of_memory, ◌>>=◌, ◌>>◌}

-- `fce_builder_open` with arguments that are not null: whether the directory could be made, the
-- struct and the arena could be allocated, and the path could be copied.
unfoldable pub fce_builder_open :
    Bool → Bool → Result (Unit {0}) → Bool → FceSchema → Result FceBuilder
fce_builder_open directory block arena path s = validate_schema s >>= λ _.
    if not directory
    then err io
    else if not block
    then err out_of_memory
    else (arena
        >> (if path
            then ok (record { schema = s; records = []; cap = 0; frozen = false })
            else err out_of_memory))

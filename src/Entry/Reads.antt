-- ===== src/Entry/Reads.antt =====
-- What is read back from an index file of src/backends/fce_backend_sorted.c is what was written.
use fast_cache_engine.Common.{All, List, [], ap, arith, get_elem?, length, map, refl, some}
use fast_cache_engine.Common.{suc, zero, ℕ, ◌*◌, ◌/◌, ◌∷◌, ◌≡◌}
use fast_cache_engine.Entry.{SortedEntry, entries_bytes, entry_at, entry_fields, entry_layout}
use fast_cache_engine.Layout.{AllFit, element-store_all, length-store_all}

abbrev pub FitsEntry : SortedEntry → Type 0
FitsEntry e = AllFit entry_layout (entry_fields e)

get_elem?-map :
    (es : List SortedEntry) (i : ℕ) {e : SortedEntry}
    → get_elem? es i ≡ some e
    → get_elem? (map entry_fields es) i ≡ some (entry_fields e)
get_elem?-map [] i h = cc
get_elem?-map (e ∷ es) zero h = cc
get_elem?-map (e ∷ es) (suc i) h = get_elem?-map es i h

All-map_fits :
    (es : List SortedEntry) → All FitsEntry es → All (AllFit entry_layout) (map entry_fields es)
All-map_fits [] h = tt
All-map_fits (e ∷ es) h = (h.0, All-map_fits es h.1)

pub entry_at-entries_bytes :
    (es : List SortedEntry) (i : ℕ) {e : SortedEntry}
    → All FitsEntry es
    → get_elem? es i ≡ some e
    → entry_at (entries_bytes es) i ≡ some e
unfolding entry_at entries_bytes
entry_at-entries_bytes es i {e} fits h =
    rw
      (
        element-store_all entry_layout (map entry_fields es) i (All-map_fits es fits)
            (get_elem?-map es i h),
        entry_at,
      )
      refl

length-map_fields : (es : List SortedEntry) → length (map entry_fields es) ≡ length es
length-map_fields [] = refl
length-map_fields (e ∷ es) = ap suc (length-map_fields es)

-- The number of entries that a reader finds.
pub length-entries_bytes : (es : List SortedEntry) → length (entries_bytes es) / 48 ≡ length es
unfolding entries_bytes
length-entries_bytes es =
    omega (arith, length-store_all entry_layout (map entry_fields es), length-map_fields es)

pub length-entries_bytes_all : (es : List SortedEntry) → length (entries_bytes es) ≡ length es * 48
unfolding entries_bytes
length-entries_bytes_all es =
    omega (arith, length-store_all entry_layout (map entry_fields es), length-map_fields es)

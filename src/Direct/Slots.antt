-- ===== src/Direct/Slots.antt =====
-- What is read back from an index file of src/backends/fce_backend_direct.c is what was written.
use fast_cache_engine.Common.{All, List, [], ap, arith, get_elem?, get_or, length, map}
use fast_cache_engine.Common.{refl, some, suc, zero, ℕ, ◌/◌, ◌<◌, ◌∷◌, ◌≡◌}
use fast_cache_engine.Direct.{DirectSlot, empty_slot, slot_at, slot_fields, slot_layout}
use fast_cache_engine.Direct.{slots_bytes}
use fast_cache_engine.Layout.{AllFit, element-store_all, length-store_all}

abbrev pub FitsSlot : DirectSlot → Type 0
FitsSlot s = AllFit slot_layout (slot_fields s)

get_elem?-map :
    (slots : List DirectSlot) (i : ℕ)
    → i < length slots
    → get_elem? (map slot_fields slots) i ≡ some (slot_fields (get_or slots i empty_slot))
get_elem?-map [] i h = absurd (omega arith)
get_elem?-map (s ∷ slots) zero h = refl
get_elem?-map (s ∷ slots) (suc i) h = get_elem?-map slots i (omega arith)

All-map_fits :
    (slots : List DirectSlot)
    → All FitsSlot slots
    → All (AllFit slot_layout) (map slot_fields slots)
All-map_fits [] h = tt
All-map_fits (s ∷ slots) h = (h.0, All-map_fits slots h.1)

pub slot_at-slots_bytes :
    (slots : List DirectSlot) (i : ℕ)
    → All FitsSlot slots
    → i < length slots
    → slot_at (slots_bytes slots) i ≡ some (get_or slots i empty_slot)
unfolding slot_at slots_bytes
slot_at-slots_bytes slots i fits h =
    rw
      (
        element-store_all slot_layout (map slot_fields slots) i (All-map_fits slots fits)
            (get_elem?-map slots i h),
        slot_at,
      )
      refl

length-map_fields : (slots : List DirectSlot) → length (map slot_fields slots) ≡ length slots
length-map_fields [] = refl
length-map_fields (s ∷ slots) = ap suc (length-map_fields slots)

-- The number of slots that a reader finds.
pub length-slots_bytes : (slots : List DirectSlot) → length (slots_bytes slots) / 40 ≡ length slots
unfolding slots_bytes
length-slots_bytes slots =
    omega (arith, length-store_all slot_layout (map slot_fields slots), length-map_fields slots)

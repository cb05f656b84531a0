-- ===== src/Layout.antt =====
-- The object representation of the structs that the files hold (include/fce_cache.h and
-- src/internal/fce_internal.h): a list of field widths, with padding as a field of its own, and
-- arrays of such structs.
use fast_cache_engine.Bytes.Words.{Bytes, Fits, IsByte, le, le-IsByte, length-le, load, load-le}
use fast_cache_engine.Bytes.Words.{split, un_le}
use fast_cache_engine.Common.{All, All-append, List, Option, [], append-nil, append_assoc}
use fast_cache_engine.Common.{arith, drop, drop-append, get_elem?, length, length-append}
use fast_cache_engine.Common.{length-drop, none, refl, set, some, suc, take, zero, ℕ, ◌*◌}
use fast_cache_engine.Common.{◌++◌, ◌+◌, ◌-◌, ◌∙◌, ◌∷◌, ◌≡◌, ◌≤◌}
use mathlib.Core.Path.{subst}

-- The values of the fields, stored one after another; a field with no value is zero.
unfoldable pub store : List ℕ → List ℕ → Bytes
store [] vs = []
store (w ∷ ws) [] = le w 0 ++ store ws []
store (w ∷ ws) (v ∷ vs) = le w v ++ store ws vs

-- The fields of the struct at the front, or `none` where the object ends before the struct does.
unfoldable pub fetch : List ℕ → Bytes → Option (List ℕ)
fetch [] bs = some []
fetch (w ∷ ws) bs = elim (load w bs) [
  | none ↦ none
  | some (v, rest) ↦ elim (fetch ws rest) [ none ↦ none | some vs ↦ some (v ∷ vs) ]
]

-- `sizeof`
abbrev pub size_of : List ℕ → ℕ
size_of [] = 0
size_of (w ∷ ws) = w + size_of ws

-- The value of field `i`.
abbrev pub field : ℕ → List ℕ → ℕ
field i [] = 0
field zero (v ∷ vs) = v
field (suc i) (v ∷ vs) = field i vs

-- The address of element `i` of an array of structs of `size` bytes.
unfoldable pub skip : ℕ → ℕ → Bytes → Bytes
skip size zero bs = bs
skip size (suc i) bs = skip size i (drop size bs)

-- `array[i]`
unfoldable pub element : List ℕ → Bytes → ℕ → Option (List ℕ)
unfolding fetch skip
element ws bs i = fetch ws (skip (size_of ws) i bs)

unfoldable pub store_all : List ℕ → List (List ℕ) → Bytes
unfolding store
store_all ws [] = []
store_all ws (vs ∷ vss) = store ws vs ++ store_all ws vss

-- There is a value for each field, and it has the field's width.
abbrev pub AllFit : List ℕ → List ℕ → Type 0
AllFit [] [] = Unit
AllFit [] (v ∷ vs) = ⊥
AllFit (w ∷ ws) [] = ⊥
AllFit (w ∷ ws) (v ∷ vs) = Fits w v × AllFit ws vs

pub length-store : (ws vs : List ℕ) → length (store ws vs) ≡ size_of ws
unfolding store
length-store [] vs = refl
length-store (w ∷ ws) [] =
    omega (arith, length-append {0} (le w 0) (store ws []), length-le w 0, length-store ws [])
length-store (w ∷ ws) (v ∷ vs) =
    omega (arith, length-append {0} (le w v) (store ws vs), length-le w v, length-store ws vs)

pub store-IsByte : (ws vs : List ℕ) → All IsByte (store ws vs)
unfolding store
store-IsByte [] vs = tt
store-IsByte (w ∷ ws) [] =
    All-append IsByte (le w 0) (store ws []) (le-IsByte w 0) (store-IsByte ws [])
store-IsByte (w ∷ ws) (v ∷ vs) =
    All-append IsByte (le w v) (store ws vs) (le-IsByte w v) (store-IsByte ws vs)

-- A stored struct is read back, whatever follows it.
pub fetch-store :
    (ws vs : List ℕ) (rest : Bytes) → AllFit ws vs → fetch ws (store ws vs ++ rest) ≡ some vs
unfolding fetch store
fetch-store [] [] rest h = refl
fetch-store [] (v ∷ vs) rest h = absurd h
fetch-store (w ∷ ws) [] rest h = absurd h
fetch-store (w ∷ ws) (v ∷ vs) rest h =
    rw append_assoc
      (ground (arith, load-le w v (store ws vs ++ rest) h.0, fetch-store ws vs rest h.1))

pub fetch-store_end : (ws vs : List ℕ) → AllFit ws vs → fetch ws (store ws vs) ≡ some vs
fetch-store_end ws vs h = rw append-nil at (fetch-store ws vs [] h)

pub length-store_all :
    (ws : List ℕ) (vss : List (List ℕ)) → length (store_all ws vss) ≡ length vss * size_of ws
unfolding store_all
length-store_all ws [] = omega arith
length-store_all ws (vs ∷ vss) = grind (
  arith,
  length-append {0} (store ws vs) (store_all ws vss),
  length-store ws vs,
  length-store_all ws vss,
)

pub store_all-IsByte : (ws : List ℕ) (vss : List (List ℕ)) → All IsByte (store_all ws vss)
unfolding store_all
store_all-IsByte ws [] = tt
store_all-IsByte ws (vs ∷ vss) =
    All-append IsByte (store ws vs) (store_all ws vss) (store-IsByte ws vs)
      (store_all-IsByte ws vss)

-- An array of stored structs is read back element by element.
pub element-store_all :
    (ws : List ℕ) (vss : List (List ℕ)) (i : ℕ) {vs : List ℕ}
    → All (AllFit ws) vss
    → get_elem? vss i ≡ some vs
    → element ws (store_all ws vss) i ≡ some vs
unfolding element store_all
element-store_all ws [] i h e = cc
element-store_all ws (us ∷ vss) zero h e = fetch-store ws us (store_all ws vss) h.0 ∙ e
element-store_all ws (us ∷ vss) (suc i) h e =
    rw (drop-append (size_of ws) (store ws us) (store_all ws vss) (length-store ws us))
      (element-store_all ws vss i h.1 e)

-- A struct is read whenever the object is long enough.
pub split-total : (n : ℕ) (bs : Bytes) → n ≤ length bs → split n bs ≡ some (take n bs, drop n bs)
unfolding split
split-total zero bs h = refl
split-total (suc n) [] h = absurd (omega arith)
split-total (suc n) (b ∷ bs) h = ground (arith, split-total n bs)

pub fetch-total :
    (ws : List ℕ) (bs : Bytes) → size_of ws ≤ length bs → (vs : List ℕ) × (fetch ws bs ≡ some vs)
unfolding fetch load
fetch-total [] bs h = ([], refl)
fetch-total (w ∷ ws) bs h =
    let (vs, e) = fetch-total ws (drop w bs) (omega (arith, length-drop {0} w bs)) in
    (un_le (take w bs) ∷ vs, ground (arith, split-total w bs, e))

length-skip : (size i : ℕ) (bs : Bytes) → length (skip size i bs) ≡ length bs - i * size
unfolding skip
length-skip size zero bs = omega arith
length-skip size (suc i) bs =
    grind (arith, length-skip size i (drop size bs), length-drop {0} size bs)

-- Element `i` of an array lies inside the object if the first `i + 1` elements do.
pub element-total :
    (ws : List ℕ) (bs : Bytes) (i : ℕ)
    → (i + 1) * size_of ws ≤ length bs
    → (vs : List ℕ) × (element ws bs i ≡ some vs)
unfolding element
element-total ws bs i h =
    fetch-total ws (skip (size_of ws) i bs) (grind (arith, length-skip (size_of ws) i bs))

-- A field takes another value that fits.
pub AllFit-set :
    (ws vs : List ℕ) (i w v : ℕ)
    → get_elem? ws i ≡ some w
    → Fits w v
    → AllFit ws vs
    → AllFit ws (set vs i v)
AllFit-set [] vs i w v e f h = cc
AllFit-set (u ∷ ws) [] i w v e f h = h
AllFit-set (u ∷ ws) (x ∷ vs) zero w v e f h = (subst (λ n. Fits n v) (some_back e) f, h.1)
  where
    some_back : {m n : ℕ} → some m ≡ some n → n ≡ m
    some_back p = cc
AllFit-set (u ∷ ws) (x ∷ vs) (suc i) w v e f h = (h.0, AllFit-set ws vs i w v e f h.1)

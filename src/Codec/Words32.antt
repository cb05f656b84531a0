-- ===== src/Codec/Words32.antt =====
-- A buffer read and written as an array of 32-bit words.
use mathlib.Core.Path.{ap₂}
use fast_cache_engine.Bytes.Words.{Bytes, IsByte, le, le-IsByte, un_le}
use fast_cache_engine.Common.{All, All-append, List, [], arith, length, refl, ℕ, ◌%◌, ◌*◌}
use fast_cache_engine.Common.{◌++◌, ◌/◌, ◌<◌, ◌^◌, ◌∷◌, ◌≡◌}

unfoldable pub words32 : Bytes → List ℕ
words32 (a ∷ b ∷ c ∷ d ∷ rest) = un_le (a ∷ b ∷ c ∷ d ∷ []) ∷ words32 rest
words32 _ = []

unfoldable pub bytes32 : List ℕ → Bytes
bytes32 [] = []
bytes32 (w ∷ ws) = le 4 w ++ bytes32 ws

abbrev pub IsWord32 : ℕ → Type 0
IsWord32 w = w < 2 ^ 32

pub length-bytes32 : (ws : List ℕ) → length (bytes32 ws) ≡ 4 * length ws
unfolding bytes32 le
length-bytes32 [] = omega arith
length-bytes32 (w ∷ ws) = omega (arith, length-bytes32 ws)

pub words32-bytes32 : (ws : List ℕ) → All IsWord32 ws → words32 (bytes32 ws) ≡ ws
unfolding words32 bytes32 le un_le
words32-bytes32 [] h = refl
words32-bytes32 (w ∷ ws) h = ap₂ ◌∷◌ (omega (arith, h.0)) (words32-bytes32 ws h.1)

pub bytes32-IsByte : (ws : List ℕ) → All IsByte (bytes32 ws)
unfolding bytes32
bytes32-IsByte [] = tt
bytes32-IsByte (w ∷ ws) =
    All-append IsByte (le 4 w) (bytes32 ws) (le-IsByte 4 w) (bytes32-IsByte ws)

le-un_le :
    (a b c d : ℕ)
    → a < 256
    → b < 256
    → c < 256
    → d < 256
    → le 4 (un_le (a ∷ b ∷ c ∷ d ∷ [])) ≡ a ∷ b ∷ c ∷ d ∷ []
unfolding le un_le
le-un_le a b c d ha hb hc hd = ground arith

pub bytes32-words32 : (bs : Bytes) → length bs % 4 ≡ 0 → All IsByte bs → bytes32 (words32 bs) ≡ bs
unfolding words32 bytes32
bytes32-words32 [] h k = refl
bytes32-words32 (a ∷ []) h k = absurd (omega arith)
bytes32-words32 (a ∷ b ∷ []) h k = absurd (omega arith)
bytes32-words32 (a ∷ b ∷ c ∷ []) h k = absurd (omega arith)
bytes32-words32 (a ∷ b ∷ c ∷ d ∷ rest) h k =
    ap₂ ◌++◌ (le-un_le a b c d k.0 k.1.0 k.1.1.0 k.1.1.1.0)
      (bytes32-words32 rest (omega arith) k.1.1.1.1)

pub words32-IsWord32 : (bs : Bytes) → All IsByte bs → All IsWord32 (words32 bs)
unfolding words32 un_le
words32-IsWord32 [] k = tt
words32-IsWord32 (a ∷ []) k = tt
words32-IsWord32 (a ∷ b ∷ []) k = tt
words32-IsWord32 (a ∷ b ∷ c ∷ []) k = tt
words32-IsWord32 (a ∷ b ∷ c ∷ d ∷ rest) k =
    (omega (arith, k.0, k.1.0, k.1.1.0, k.1.1.1.0), words32-IsWord32 rest k.1.1.1.1)

pub length-words32 : (bs : Bytes) → length (words32 bs) ≡ length bs / 4
unfolding words32
length-words32 [] = omega arith
length-words32 (a ∷ []) = omega arith
length-words32 (a ∷ b ∷ []) = omega arith
length-words32 (a ∷ b ∷ c ∷ []) = omega arith
length-words32 (a ∷ b ∷ c ∷ d ∷ rest) = omega (arith, length-words32 rest)

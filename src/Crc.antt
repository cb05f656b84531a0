-- ===== src/Crc.antt =====
-- `crc64_update` and `crc64_file` of src/core/fce_crc.c.
use fast_cache_engine.Bytes.Words.{Bytes, IsByte}
use fast_cache_engine.Common.{All, All-drop, All-take, List, Option, [], ap, arith, drop}
use fast_cache_engine.Common.{length, length-drop, none, refl, some, suc, take, take-append-drop}
use fast_cache_engine.Common.{zero, ℕ, ◌%◌, ◌++◌, ◌-◌, ◌/◌, ◌<◌, ◌∙◌, ◌∷◌, ◌≡◌, ◌≤◌}
use fast_cache_engine.Common.Bits.{bit_and-le, bit_xor-lt}
use fast_cache_engine.Hash.{u64}
use Prim.Native.Nat.{bit_and, bit_xor}

-- `~crc` of a 64-bit word.
abbrev pub complement : ℕ → ℕ
complement crc = u64 - 1 - crc

-- One round for a bit: `mask` is all ones if the lowest bit is set, else 0.
unfoldable pub crc64_bit : ℕ → ℕ
crc64_bit crc =
    let mask = (u64 - bit_and crc 1) % u64 in bit_xor (crc / 2) (bit_and 0xC96C5795D7870F42 mask)

unfoldable pub crc64_rounds : ℕ → ℕ → ℕ
crc64_rounds zero crc = crc
crc64_rounds (suc b) crc = crc64_rounds b (crc64_bit crc)

unfoldable pub crc64_loop : Bytes → ℕ → ℕ
crc64_loop [] crc = crc
crc64_loop (p ∷ ps) crc = crc64_loop ps (crc64_rounds 8 (bit_xor crc p))

unfoldable pub crc64_update : ℕ → Bytes → ℕ
unfolding crc64_loop crc64_rounds crc64_bit
crc64_update crc bytes = complement (crc64_loop bytes (complement crc))

-- The loop of `crc64_file` over the pieces that `fread` returns.
unfoldable pub crc64_chunks : List Bytes → ℕ → ℕ
unfolding crc64_update
crc64_chunks [] crc = crc
crc64_chunks (buf ∷ rest) crc = crc64_chunks rest (crc64_update crc buf)

crc64_bit-lt : (crc : ℕ) → crc < u64 → crc64_bit crc < u64
unfolding crc64_bit
crc64_bit-lt crc h =
    bit_xor-lt 64 (crc / 2) (bit_and 0xC96C5795D7870F42 ((u64 - bit_and crc 1) % u64)) (omega arith)
      (omega (
        arith,
        bit_and-le 0xC96C5795D7870F42 0xC96C5795D7870F42 ((u64 - bit_and crc 1) % u64)
            (omega arith),
      ))

crc64_rounds-lt : (n crc : ℕ) → crc < u64 → crc64_rounds n crc < u64
unfolding crc64_rounds
crc64_rounds-lt zero crc h = h
crc64_rounds-lt (suc n) crc h = crc64_rounds-lt n (crc64_bit crc) (crc64_bit-lt crc h)

crc64_loop-lt : (bs : Bytes) (crc : ℕ) → All IsByte bs → crc < u64 → crc64_loop bs crc < u64
unfolding crc64_loop
crc64_loop-lt [] crc bytes h = h
crc64_loop-lt (p ∷ ps) crc bytes h =
    crc64_loop-lt ps (crc64_rounds 8 (bit_xor crc p)) bytes.1
      (crc64_rounds-lt 8 (bit_xor crc p) (bit_xor-lt 64 crc p h (omega (arith, bytes.0))))

crc64_loop-append :
    (xs ys : Bytes) (crc : ℕ) → crc64_loop (xs ++ ys) crc ≡ crc64_loop ys (crc64_loop xs crc)
unfolding crc64_loop
crc64_loop-append [] ys crc = refl
crc64_loop-append (x ∷ xs) ys crc = crc64_loop-append xs ys (crc64_rounds 8 (bit_xor crc x))

pub crc64_update-lt : (crc : ℕ) (bs : Bytes) → crc64_update crc bs < u64
unfolding crc64_update
crc64_update-lt crc bs = omega arith

-- A checksum goes on where the last one ended: fed in two pieces the bytes give the checksum of the
-- whole, from any 64-bit start.
pub crc64_update-append :
    (crc : ℕ) (xs ys : Bytes)
    → crc < u64
    → All IsByte xs
    → crc64_update (crc64_update crc xs) ys ≡ crc64_update crc (xs ++ ys)
unfolding crc64_update
crc64_update-append crc xs ys h bytes =
    let inner : ℕ = crc64_loop xs (complement crc) in
    let small : inner < u64 = crc64_loop-lt xs (complement crc) bytes (omega arith) in
    let back : complement (complement inner) ≡ inner = omega (arith, small) in
    rw (crc64_loop-append xs ys (complement crc), back) refl

abbrev pub concat : List Bytes → Bytes
concat [] = []
concat (xs ∷ xss) = xs ++ concat xss

crc64_chunks_from :
    (chunks : List Bytes) (crc : ℕ)
    → crc < u64
    → All (All IsByte) chunks
    → crc64_chunks chunks crc ≡ crc64_update crc (concat chunks)
unfolding crc64_chunks
crc64_chunks_from [] crc h bytes = unfold crc64_loop in omega arith
crc64_chunks_from (buf ∷ rest) crc h bytes =
    crc64_chunks_from rest (crc64_update crc buf) (crc64_update-lt crc buf) bytes.1
    ∙ crc64_update-append crc buf (concat rest) h bytes.0

-- However `fread` cuts a file of bytes into pieces, `crc64_file` returns the checksum of the whole.
pub crc64_chunks-eq_update :
    (chunks : List Bytes)
    → All (All IsByte) chunks
    → crc64_chunks chunks 0 ≡ crc64_update 0 (concat chunks)
crc64_chunks-eq_update chunks bytes = crc64_chunks_from chunks 0 (omega arith) bytes

-- `fread` into a buffer of 8192 bytes: whole buffers, then what is left. The fuel is the size.
unfoldable pub chunks : ℕ → Bytes → List Bytes
chunks zero bs = []
chunks (suc fuel) [] = []
chunks (suc fuel) (b ∷ bs) = take 8192 (b ∷ bs) ∷ chunks fuel (drop 8192 (b ∷ bs))

-- A file that cannot be opened has the checksum 0.
unfoldable pub crc64_file : Option Bytes → ℕ
unfolding chunks crc64_chunks
crc64_file none = 0
crc64_file (some bs) = crc64_chunks (chunks (length bs) bs) 0

concat-chunks : (fuel : ℕ) (bs : Bytes) → length bs ≤ fuel → concat (chunks fuel bs) ≡ bs
unfolding chunks
concat-chunks zero [] h = refl
concat-chunks zero (b ∷ bs) h = absurd (omega arith)
concat-chunks (suc fuel) [] h = refl
concat-chunks (suc fuel) (b ∷ bs) h =
    ap (λ t. take 8192 (b ∷ bs) ++ t)
      (concat-chunks fuel (drop 8192 (b ∷ bs)) (omega (arith, length-drop {0} 8192 (b ∷ bs))))
    ∙ take-append-drop 8192 (b ∷ bs)

chunks-IsByte : (fuel : ℕ) (bs : Bytes) → All IsByte bs → All (All IsByte) (chunks fuel bs)
unfolding chunks
chunks-IsByte zero bs h = tt
chunks-IsByte (suc fuel) [] h = tt
chunks-IsByte (suc fuel) (b ∷ bs) h = (
  All-take IsByte 8192 (b ∷ bs) h,
  chunks-IsByte fuel (drop 8192 (b ∷ bs)) (All-drop IsByte 8192 (b ∷ bs) h),
)

-- `crc64_file` of a file of bytes is the checksum of the whole file, however long it is.
pub crc64_file-eq_update : (bs : Bytes) → All IsByte bs → crc64_file (some bs) ≡ crc64_update 0 bs
unfolding crc64_file
crc64_file-eq_update bs bytes =
    crc64_chunks-eq_update (chunks (length bs) bs) (chunks-IsByte (length bs) bs bytes)
    ∙ ap (crc64_update 0) (concat-chunks (length bs) bs (omega arith))

crc64_chunks-lt : (cs : List Bytes) (crc : ℕ) → crc < u64 → crc64_chunks cs crc < u64
unfolding crc64_chunks
crc64_chunks-lt [] crc h = h
crc64_chunks-lt (c ∷ cs) crc h = crc64_chunks-lt cs (crc64_update crc c) (crc64_update-lt crc c)

pub crc64_file-lt : (file : Option Bytes) → crc64_file file < u64
unfolding crc64_file
crc64_file-lt none = omega arith
crc64_file-lt (some bs) = crc64_chunks-lt (chunks (length bs) bs) 0 (omega arith)

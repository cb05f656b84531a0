-- ===== src/Codec/Bitpack/Bit.antt =====
-- Single bits of a payload (the loops of `FCE_CODEC_BITPACK` in src/codecs/fce_codecs.c).
use fast_cache_engine.Bytes.Words.{Bytes, IsByte}
use fast_cache_engine.Codec.Bitpack.{set_bit}
use fast_cache_engine.Common.{==_iff, ==_ne, All, All-get_or, All-set, Bool, Bool-cases}
use fast_cache_engine.Common.{ap, arith, false, get_or, get_or-set_ne, get_or-set_self}
use fast_cache_engine.Common.{if◌then◌else◌, inl, inr, length, length-set, ltb, refl, suc}
use fast_cache_engine.Common.{sym, true, zero, ℕ, ◌%◌, ◌&&◌, ◌*◌, ◌/◌, ◌<◌, ◌==◌, ◌^◌, ◌∙◌}
use fast_cache_engine.Common.{◌≡◌}
use Prim.Native.Nat.{bit_or}
use mathlib.Core.Path.{subst}

-- Bit `bitpos` of a payload.
abbrev pub bit_at : Bytes → ℕ → ℕ
bit_at p bitpos = get_or p (bitpos / 8) 0 / 2 ^ (bitpos % 8) % 2

-- The test holds of every number under the bound.
holds_under : (ℕ → Bool) → ℕ → Bool
holds_under test zero = true
holds_under test (suc bound) = holds_under test bound && test bound

holds_under-lt :
    (test : ℕ → Bool) (bound : ℕ) {i : ℕ}
    → i < bound
    → holds_under test bound ≡ true
    → test i ≡ true
unfolding holds_under
holds_under-lt test zero under all = absurd (omega arith)
holds_under-lt test (suc bound) {i} under all =
    let earlier : holds_under test bound ≡ true = ground arith in
    elim (Bool-cases (ltb i bound)) [
      | inl less ↦ holds_under-lt test bound (ground arith) earlier
      | inr other ↦
          let last : bound ≡ i = ground arith in subst (λ n. test n ≡ true) last (ground arith)
    ]

-- What a bit that is set does to a byte.
bit_set_in : ℕ → ℕ → ℕ → Bool
bit_set_in x k j =
    ltb (bit_or x (2 ^ k)) 256
    && (bit_or x (2 ^ k) / 2 ^ j % 2 == (if j == k then 1 else x / 2 ^ j % 2))

abbrev bit_row : ℕ → ℕ → Bool
bit_row x k = holds_under (bit_set_in x k) 8

abbrev bit_rows : ℕ → Bool
bit_rows x = holds_under (bit_row x) 8

bit_table : holds_under bit_rows 256 ≡ true
unfolding holds_under bit_set_in
bit_table = refl

byte_bit : (x k j : ℕ) → x < 256 → k < 8 → j < 8 → bit_set_in x k j ≡ true
byte_bit x k j hx hk hj =
    holds_under-lt (bit_set_in x k) 8 hj
      (holds_under-lt (bit_row x) 8 hk (holds_under-lt bit_rows 256 hx bit_table))

byte_bit_or : (x k : ℕ) → x < 256 → k < 8 → bit_or x (2 ^ k) < 256
unfolding bit_set_in
byte_bit_or x k hx hk = ground (arith, byte_bit x k 0 hx hk (omega arith))

byte_bit_at :
    (x k j : ℕ)
    → x < 256
    → k < 8
    → j < 8
    → bit_or x (2 ^ k) / 2 ^ j % 2 ≡ (if j == k then 1 else x / 2 ^ j % 2)
unfolding bit_set_in
byte_bit_at x k j hx hk hj = ground (arith, byte_bit x k j hx hk hj)

pub length-set_bit : (out : Bytes) (bitpos : ℕ) → length (set_bit out bitpos) ≡ length out
unfolding set_bit
length-set_bit out bitpos =
    length-set out (bitpos / 8) (bit_or (get_or out (bitpos / 8) 0) (2 ^ (bitpos % 8)))

pub set_bit-IsByte : (out : Bytes) (bitpos : ℕ) → All IsByte out → All IsByte (set_bit out bitpos)
unfolding set_bit
set_bit-IsByte out bitpos h =
    All-set IsByte out (bitpos / 8) (bit_or (get_or out (bitpos / 8) 0) (2 ^ (bitpos % 8))) h (
      byte_bit_or (get_or out (bitpos / 8) 0) (bitpos % 8)
        (All-get_or IsByte out (bitpos / 8) 0 h (omega arith)) (omega arith))

same_byte : (q p : ℕ) → q / 8 ≡ p / 8 → (q % 8 == p % 8) ≡ (q == p)
same_byte q p e = elim (Bool-cases (q == p)) [
  | inl yes_same ↦ rw yes_same (let d : q ≡ p = (==_iff q p).0 yes_same in ground arith)
  | inr differ_here ↦
      rw differ_here (
        let d : q ≡ p → ⊥ = ==_ne q p differ_here in
        not_same (q % 8) (p % 8) (λ m. d (omega arith)))
]
  where
    not_same : (a b : ℕ) → (a ≡ b → ⊥) → (a == b) ≡ false
    not_same a b h = ground arith

other_byte : (q p : ℕ) → (p / 8 ≡ q / 8 → ⊥) → (q == p) ≡ false
other_byte q p h = ground arith

-- Setting a bit inside the payload sets that bit and no other.
pub bit_at-set_bit :
    (out : Bytes) (bitpos q : ℕ)
    → All IsByte out
    → bitpos < 8 * length out
    → bit_at (set_bit out bitpos) q ≡ (if q == bitpos then 1 else bit_at out q)
unfolding set_bit
bit_at-set_bit out bitpos q h inside = elim (Bool-cases (q / 8 == bitpos / 8)) [
  | inl same ↦
      let e : q / 8 ≡ bitpos / 8 = (==_iff (q / 8) (bitpos / 8)).0 same in
      rw
        (
          e,
          get_or-set_self out (bitpos / 8) (bit_or (get_or out (bitpos / 8) 0) (2 ^ (bitpos % 8))) 0
              (omega arith),
        )
        (byte_bit_at (get_or out (bitpos / 8) 0) (bitpos % 8) (q % 8)
            (All-get_or IsByte out (bitpos / 8) 0 h (omega arith)) (omega arith) (omega arith)
          ∙ ap (λ (b : Bool). if b then 1 else get_or out (bitpos / 8) 0 / 2 ^ (q % 8) % 2)
              (same_byte q bitpos e))
  | inr other ↦
      let ne : bitpos / 8 ≡ q / 8 → ⊥ = λ e. ==_ne (q / 8) (bitpos / 8) other (sym e) in
      rw
        (
          get_or-set_ne out (bitpos / 8) (q / 8)
              (bit_or (get_or out (bitpos / 8) 0) (2 ^ (bitpos % 8))) 0 ne,
          other_byte q bitpos ne,
        )
        refl
]

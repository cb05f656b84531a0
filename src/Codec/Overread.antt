-- ===== src/Codec/Overread.antt =====
-- The decoder of `FCE_CODEC_RLE` in src/codecs/fce_codecs.c on an input that lacks its last word.
-- The decoder counts `input_len / 8` pairs, one too many for such an input, and reads `in[2 + i * 2]`
-- behind its end.
use fast_cache_engine.Codec.{decode_rle, fce_codec_decode}
use fast_cache_engine.Codec.Rle.{rle_decode, rle_encode, rle_encode-IsWord32, rle_expand, rle_runs}
use fast_cache_engine.Codec.Rle.{rle_runs_even, rle_runs_nonempty, rle_runs_other, rle_runs_same}
use fast_cache_engine.Codec.Rle.{sign_extend}
use fast_cache_engine.Codec.RoundTrip.{Plentiful}
use fast_cache_engine.Codec.Words32.{IsWord32, bytes32, length-bytes32, words32-bytes32}
use fast_cache_engine.Common.{All, Bool, Bool-cases, List, [], ap, arith, false, inl, inr}
use fast_cache_engine.Common.{length, length-append, ltb, not, refl, suc, zero, ℕ, ◌%◌}
use fast_cache_engine.Common.{◌&&◌, ◌*◌, ◌++◌, ◌+◌, ◌-◌, ◌/◌, ◌<◌, ◌==◌, ◌^◌, ◌||◌, ◌∙◌}
use fast_cache_engine.Common.{◌∷◌, ◌≡◌, ◌≤◌}
use fast_cache_engine.Hash.{u64}
use fast_cache_engine.Schema.{codec_rle}
use fast_cache_engine.Status.{fault}
use mathlib.Core.Path.{subst}

-- A pair that passes the checks is followed by what the loop does next, a fault too.
pair_then_fault :
    (pairs v c : ℕ) (rest : List ℕ) (n w : ℕ)
    → w + c ≤ n
    → n < 2 ^ 31
    → rle_expand pairs rest n (w + c) ≡ fault
    → rle_expand (suc pairs) (v ∷ c ∷ rest) n w ≡ fault
unfolding rle_expand
pair_then_fault pairs v c rest n w fits small e = ground arith

-- One round of the loop on a truncated input, given the rounds that follow.
truncated_round :
    (v count : ℕ) (rest : List ℕ) (pairs w n : ℕ) (init : List ℕ) (last : ℕ)
    → v ∷ count ∷ rest ≡ init ++ (last ∷ [])
    → length init + 1 ≡ 2 * pairs
    → w + count ≤ n
    → n < 2 ^ 31
    → ((p : ℕ) (less : List ℕ)
        → rest ≡ less ++ (last ∷ [])
        → length less + 1 ≡ 2 * p
        → rle_expand p less n (w + count) ≡ fault)
    → rle_expand pairs init n w ≡ fault
truncated_round v count rest pairs w n [] last e len fits small ih = absurd (omega arith)
truncated_round v count rest zero w n (a ∷ []) last e len fits small ih = absurd (omega arith)
truncated_round v count rest (suc p) w n (a ∷ []) last e len fits small ih =
    unfold rle_expand in refl
truncated_round v count rest zero w n (a ∷ b ∷ less) last e len fits small ih = absurd (omega arith)
truncated_round v count rest (suc p) w n (a ∷ b ∷ less) last e len fits small ih =
    let same : count ≡ b = cc in
    pair_then_fault p a b less n w (omega (arith, same, fits)) small
      (subst (λ t. rle_expand p less n (w + t) ≡ fault) same (ih p less (cc) (omega arith)))

rle_expand_truncated :
    (v count : ℕ) (xs : List ℕ) (pairs w n : ℕ) (init : List ℕ) (last : ℕ)
    → rle_runs v count xs ≡ init ++ (last ∷ [])
    → length init + 1 ≡ 2 * pairs
    → n ≡ w + count + length xs
    → n < 2 ^ 31
    → rle_expand pairs init n w ≡ fault
rle_expand_truncated v count [] pairs w n init last e len total small =
    truncated_round v count [] pairs w n init last (unfold rle_runs in e) len (omega arith) small
      (λ p less f. absurd (nothing_left less f))
  where
    nothing_left : (less : List ℕ) → [] ≡ less ++ (last ∷ []) → ⊥
    nothing_left [] f = cc
    nothing_left (y ∷ ys) f = cc
rle_expand_truncated v count (x ∷ xs) pairs w n init last e len total small =
    elim (Bool-cases ((x == v) && ltb count (2 ^ 31 - 1))) [
      | inl same ↦
          rle_expand_truncated v (suc count) xs pairs w n init last
            (rw (rle_runs_same v count x xs same) at e) len (omega arith) small
      | inr other ↦
          truncated_round v count (rle_runs x 1 xs) pairs w n init last
            (rw (rle_runs_other v count x xs other) at e) len (omega arith) small
            (λ p less f l.
              rle_expand_truncated x 1 xs p (w + count) n less last f l (omega arith) small)
    ]

rle_decode_truncated :
    (malloc : ℕ → Bool) (x : ℕ) (xs : List ℕ) (init : List ℕ) (last : ℕ)
    → Plentiful malloc
    → length (x ∷ xs) < 2 ^ 31
    → rle_encode (x ∷ xs) ≡ init ++ (last ∷ [])
    → rle_decode malloc (4 * length init) init ≡ fault
unfolding rle_decode rle_encode
rle_decode_truncated malloc x xs [] last enough small e =
    absurd (omega (arith, ap length e, rle_runs_nonempty x 1 xs))
rle_decode_truncated malloc x xs (n0 ∷ init) last enough small e =
    let n : ℕ = suc (length xs) in
    let runs : rle_runs x 1 xs ≡ init ++ (last ∷ []) = cc e in
    let first : n % 2 ^ 32 ≡ n0 = cc e in
    let count : sign_extend n0 ≡ n = ground (arith, first, small) in
    let sizes : length (rle_runs x 1 xs) ≡ length init + 1 =
      ap length runs ∙ length-append {0} init (last ∷ []) in
    rw (count, enough (n * 4 % u64) (omega (arith, small)))
      (rle_expand_truncated x 1 xs (4 * suc (length init) / 8) 0 n init last runs
        (omega (arith, sizes, rle_runs_even x 1 xs)) (omega arith) small)

All-front : (P : ℕ → Type 0) (init : List ℕ) (last : ℕ) → All P (init ++ (last ∷ [])) → All P init
All-front P [] last h = tt
All-front P (x ∷ xs) last h = (h.0, All-front P xs last h.1)

-- Decoding a run-length encoding of at least one and fewer than 2^31 words from which the last four
-- bytes are missing is not refused as corrupt: if allocations of less than 64 GiB succeed, the
-- decoder reads outside its input.
pub rle_truncated_faults :
    (malloc : ℕ → Bool) (x : ℕ) (xs : List ℕ) (init : List ℕ) (last : ℕ)
    → Plentiful malloc
    → All IsWord32 (x ∷ xs)
    → length (x ∷ xs) < 2 ^ 31
    → rle_encode (x ∷ xs) ≡ init ++ (last ∷ [])
    → fce_codec_decode malloc codec_rle (bytes32 init) ≡ fault
unfolding fce_codec_decode decode_rle
rle_truncated_faults malloc x xs init last enough words small e =
    let init_words : All IsWord32 init =
      All-front IsWord32 init last (rw e at (rle_encode-IsWord32 (x ∷ xs) words)) in
    let long : (ltb (length (bytes32 init)) 4 || not (length (bytes32 init) % 4 == 0)) ≡ false =
      ground (arith, length-bytes32 init, some_word) in
    rw
      (
        long,
        words32-bytes32 init init_words,
        length-bytes32 init,
        rle_decode_truncated malloc x xs init last enough small e,
      )
      refl
  where
    some_word : 0 < length init
    some_word =
        unfold rle_encode in
        omega (arith, ap length e, length-append {0} init (last ∷ []), rle_runs_nonempty x 1 xs)

-- ===== src/Codec/Rle.antt =====
-- The branch `FCE_CODEC_RLE` of src/codecs/fce_codecs.c: the number of words, then pairs of a word
-- and how often it repeats.
use fast_cache_engine.Codec.Words32.{IsWord32}
use fast_cache_engine.Common.{All, Bool, Bool-cases, List, [], ap, arith, false, if◌then◌else◌}
use fast_cache_engine.Common.{inl, inr, leb, length, ltb, refl, replicate, suc, true, zero}
use fast_cache_engine.Common.{ℕ, ◌%◌, ◌&&◌, ◌*◌, ◌++◌, ◌+◌, ◌-◌, ◌/◌, ◌<◌, ◌==◌, ◌^◌, ◌||◌}
use fast_cache_engine.Common.{◌∙◌, ◌∷◌, ◌≡◌, ◌≤◌}
use fast_cache_engine.Hash.{u64}
use fast_cache_engine.Status.{Result, corrupt, err, fault, ok, out_of_memory, ◌>>=◌}

-- One step of the inner `while`, which lengthens the run of `v`, or of the outer `for`, which
-- writes the pair and starts the next run. A run stops at INT32_MAX.
unfoldable pub rle_runs : ℕ → ℕ → List ℕ → List ℕ
rle_runs v count [] = v ∷ count ∷ []
rle_runs v count (x ∷ xs) = elim ((x == v) && ltb count (2 ^ 31 - 1)) [
  | true ↦ rle_runs v (suc count) xs
  | false ↦ v ∷ count ∷ rle_runs x 1 xs
]

-- `tmp[0] = (int32_t)n`, then the pairs.
unfoldable pub rle_encode : List ℕ → List ℕ
unfolding rle_runs
rle_encode [] = 0 ∷ []
rle_encode (x ∷ xs) = suc (length xs) % 2 ^ 32 ∷ rle_runs x 1 xs

-- The loop over `pairs` pairs of which `w` words have come out. A pair that the input has not in
-- full is read past its end.
unfoldable pub rle_expand : ℕ → List ℕ → ℕ → ℕ → Result (List ℕ)
rle_expand zero rest n w = if w == n then ok [] else err corrupt
rle_expand (suc pairs) (v ∷ c ∷ rest) n w =
    let more = rle_expand pairs rest n (w + c) in
    if leb (2 ^ 31) c || ltb n ((w + c) % u64)
    then err corrupt
    else (more >>= λ out. ok (replicate c v ++ out))
rle_expand (suc pairs) _ n w = fault

-- `(size_t)in[0]`: a negative count is extended with ones.
abbrev pub sign_extend : ℕ → ℕ
sign_extend w = if ltb w (2 ^ 31) then w else w + (u64 - 2 ^ 32)

-- The input of `input_len` bytes as words; its length has been checked.
unfoldable pub rle_decode : (ℕ → Bool) → ℕ → List ℕ → Result (List ℕ)
unfolding rle_expand
rle_decode malloc input_len [] = err corrupt
rle_decode malloc input_len (n0 ∷ rest) =
    let n = sign_extend n0 in
    if malloc (n * 4 % u64) then rle_expand (input_len / 8) rest n 0 else err out_of_memory

-- One more copy in front of a run is one more behind it.
replicate_shift : (c v : ℕ) (xs : List ℕ) → v ∷ (replicate c v ++ xs) ≡ replicate c v ++ (v ∷ xs)
replicate_shift zero v xs = refl
replicate_shift (suc c) v xs = ap (◌∷◌ v) (replicate_shift c v xs)

pub rle_runs_same :
    (v count x : ℕ) (xs : List ℕ)
    → ((x == v) && ltb count (2 ^ 31 - 1)) ≡ true
    → rle_runs v count (x ∷ xs) ≡ rle_runs v (suc count) xs
unfolding rle_runs
rle_runs_same v count x xs h = rw (h, rle_runs) refl

pub rle_runs_other :
    (v count x : ℕ) (xs : List ℕ)
    → ((x == v) && ltb count (2 ^ 31 - 1)) ≡ false
    → rle_runs v count (x ∷ xs) ≡ v ∷ count ∷ rle_runs x 1 xs
unfolding rle_runs
rle_runs_other v count x xs h = rw (h, rle_runs) refl

-- The loop takes a pair whose words are still to come.
rle_expand_pair :
    (pairs v c : ℕ) (rest out : List ℕ) (n w : ℕ)
    → w + c ≤ n
    → n < 2 ^ 31
    → rle_expand pairs rest n (w + c) ≡ ok out
    → rle_expand (suc pairs) (v ∷ c ∷ rest) n w ≡ ok (replicate c v ++ out)
unfolding rle_expand
rle_expand_pair pairs v c rest out n w fits small e = ground arith

new_run :
    (v count x : ℕ) (xs : List ℕ) (pairs w n : ℕ)
    → length (v ∷ count ∷ rle_runs x 1 xs) ≡ 2 * pairs
    → n ≡ w + count + length (x ∷ xs)
    → n < 2 ^ 31
    → ((p : ℕ)
        → length (rle_runs x 1 xs) ≡ 2 * p
        → n ≡ w + count + 1 + length xs
        → n < 2 ^ 31
        → rle_expand p (rle_runs x 1 xs) n (w + count) ≡ ok (replicate 1 x ++ xs))
    → rle_expand pairs (v ∷ count ∷ rle_runs x 1 xs) n w ≡ ok (replicate count v ++ (x ∷ xs))
new_run v count x xs zero w n len total small ih = absurd (omega arith)
new_run v count x xs (suc p) w n len total small ih =
    rle_expand_pair p v count (rle_runs x 1 xs) (x ∷ xs) n w (omega arith) small
      (ih p (omega arith) (omega arith) small)

-- The pairs of a run in progress expand to the run so far and the words to come.
rle_expand-rle_runs :
    (v count : ℕ) (xs : List ℕ) (pairs w n : ℕ)
    → length (rle_runs v count xs) ≡ 2 * pairs
    → n ≡ w + count + length xs
    → n < 2 ^ 31
    → rle_expand pairs (rle_runs v count xs) n w ≡ ok (replicate count v ++ xs)
rle_expand-rle_runs v count [] zero w n len total small =
    absurd (unfold rle_runs in omega (arith, len))
rle_expand-rle_runs v count [] (suc zero) w n len total small =
    unfold rle_runs in
    rle_expand_pair 0 v count [] [] n w (omega arith) small (unfold rle_expand in ground arith)
rle_expand-rle_runs v count [] (suc (suc p)) w n len total small =
    absurd (unfold rle_runs in omega (arith, len))
rle_expand-rle_runs v count (x ∷ xs) pairs w n len total small =
    elim (Bool-cases ((x == v) && ltb count (2 ^ 31 - 1))) [
      | inl same ↦
          let one_more = rle_runs_same v count x xs same in
          rw one_more (
            rle_expand-rle_runs v (suc count) xs pairs w n (rw one_more at len) (omega arith) small
            ∙ ap ok (
                replicate_shift count v xs
                ∙ ap (λ (t : ℕ). replicate count v ++ (t ∷ xs)) (ground arith)))
      | inr other ↦
          let next = rle_runs_other v count x xs other in
          rw next (
            new_run v count x xs pairs w n (rw next at len) total small
              (λ p. rle_expand-rle_runs x 1 xs p (w + count) n))
    ]

pub rle_runs_even : (v count : ℕ) (xs : List ℕ) → length (rle_runs v count xs) % 2 ≡ 0
unfolding rle_runs
rle_runs_even v count [] = omega arith
rle_runs_even v count (x ∷ xs) =
    ground (arith, rle_runs_even v (suc count) xs, rle_runs_even x 1 xs)

pub rle_runs_nonempty : (v count : ℕ) (xs : List ℕ) → 0 < length (rle_runs v count xs)
unfolding rle_runs
rle_runs_nonempty v count [] = omega arith
rle_runs_nonempty v count (x ∷ xs) =
    ground (arith, rle_runs_nonempty v (suc count) xs, rle_runs_nonempty x 1 xs)

-- The words that run-length coding stands for come back, if there are fewer than 2 ^ 31 of them.
pub rle_decode-rle_encode :
    (malloc : ℕ → Bool) (ws : List ℕ)
    → malloc (length ws * 4) ≡ true
    → length ws < 2 ^ 31
    → rle_decode malloc (4 * length (rle_encode ws)) (rle_encode ws) ≡ ok ws
unfolding rle_encode rle_decode
rle_decode-rle_encode malloc [] mem small = rw mem (ground arith)
rle_decode-rle_encode malloc (x ∷ xs) mem small =
    let n : ℕ = suc (length xs) in
    let count : sign_extend (n % 2 ^ 32) ≡ n = ground arith in
    let size : n * 4 % u64 ≡ n * 4 = omega arith in
    rw (count, size, mem)
      (rle_expand-rle_runs x 1 xs (4 * suc (length (rle_runs x 1 xs)) / 8) 0 n
        (omega (arith, rle_runs_even x 1 xs)) (omega arith) small)

rle_runs-IsWord32 :
    (v count : ℕ) (xs : List ℕ)
    → IsWord32 v
    → count < 2 ^ 31
    → All IsWord32 xs
    → All IsWord32 (rle_runs v count xs)
rle_runs-IsWord32 v count [] hv hc h = unfold rle_runs in (hv, (omega arith, tt))
rle_runs-IsWord32 v count (x ∷ xs) hv hc h =
    elim (Bool-cases ((x == v) && ltb count (2 ^ 31 - 1))) [
      | inl same ↦
          rw (rle_runs_same v count x xs same)
            (rle_runs-IsWord32 v (suc count) xs hv (ground arith) h.1)
      | inr other ↦
          rw (rle_runs_other v count x xs other)
            (hv, (omega (arith, hc), rle_runs-IsWord32 x 1 xs h.0 (omega arith) h.1))
    ]

pub rle_encode-IsWord32 : (ws : List ℕ) → All IsWord32 ws → All IsWord32 (rle_encode ws)
unfolding rle_encode
rle_encode-IsWord32 [] h = (omega arith, tt)
rle_encode-IsWord32 (x ∷ xs) h = (omega arith, rle_runs-IsWord32 x 1 xs h.0 (omega arith) h.1)

pub rle_encode_nonempty : (ws : List ℕ) → 0 < length (rle_encode ws)
unfolding rle_encode
rle_encode_nonempty [] = omega arith
rle_encode_nonempty (x ∷ xs) = omega arith

-- ===== src/Codec/Delta.antt =====
-- The branch `FCE_CODEC_DELTA_I32` of src/codecs/fce_codecs.c: differences of neighbours.
use fast_cache_engine.Codec.Words32.{IsWord32}
use fast_cache_engine.Common.{All, Bool, Bool-cases, List, [], ap, arith, false, if◌then◌else◌}
use fast_cache_engine.Common.{inl, inr, length, refl, suc, ℕ, ◌||◌, ◌∷◌, ◌≡◌}
use fast_cache_engine.Common.Int.{int32_max, int32_min, ltbℤ, signed32, word32, ℤ, ◌+ℤ◌, ◌-ℤ◌}
use fast_cache_engine.Status.{>>=-eq-ok, Result, corrupt, err, invalid_argument, ok, ok-injective}
use fast_cache_engine.Status.{◌>>=◌}
use mathlib.Core.Path.{subst}

abbrev pub outside_int32 : ℤ → Bool
outside_int32 d = ltbℤ d int32_min || ltbℤ int32_max d

-- The loop from element 1 on, `prev` being the element before; sums are in 64 bits.
unfoldable pub delta_encode_loop : ℕ → List ℕ → Result (List ℕ)
delta_encode_loop prev [] = ok []
delta_encode_loop prev (x ∷ xs) =
    let d = signed32 x -ℤ signed32 prev in
    let rest = delta_encode_loop x xs in
    if outside_int32 d then err invalid_argument else (rest >>= λ ds. ok (word32 d ∷ ds))

unfoldable pub delta_encode : List ℕ → Result (List ℕ)
unfolding delta_encode_loop
delta_encode [] = ok []
delta_encode (x ∷ xs) = delta_encode_loop x xs >>= λ ds. ok (x ∷ ds)

unfoldable pub delta_decode_loop : ℕ → List ℕ → Result (List ℕ)
delta_decode_loop prev [] = ok []
delta_decode_loop prev (d ∷ ds) =
    let v = signed32 prev +ℤ signed32 d in
    let rest = delta_decode_loop (word32 v) ds in
    if outside_int32 v then err corrupt else (rest >>= λ xs. ok (word32 v ∷ xs))

unfoldable pub delta_decode : List ℕ → Result (List ℕ)
unfolding delta_decode_loop
delta_decode [] = ok []
delta_decode (x ∷ ds) = delta_decode_loop x ds >>= λ xs. ok (x ∷ xs)

-- A difference that fits is added back without a carry out of range.
add_difference :
    (x prev : ℕ)
    → IsWord32 x
    → IsWord32 prev
    → outside_int32 (signed32 x -ℤ signed32 prev) ≡ false
    → let v = signed32 prev +ℤ signed32 (word32 (signed32 x -ℤ signed32 prev)) in
      (outside_int32 v ≡ false) × (word32 v ≡ x)
add_difference x prev hx hp h = ground arith

delta_loops :
    (prev : ℕ) (xs ds : List ℕ)
    → IsWord32 prev
    → All IsWord32 xs
    → delta_encode_loop prev xs ≡ ok ds
    → delta_decode_loop prev ds ≡ ok xs
unfolding delta_encode_loop delta_decode_loop
delta_loops prev [] ds hp hx e = ground arith
delta_loops prev (x ∷ xs) ds hp hx e =
    elim (Bool-cases (outside_int32 (signed32 x -ℤ signed32 prev))) [
      | inl out ↦ absurd (cc (rw out at e))
      | inr fine ↦
          let d : ℕ = word32 (signed32 x -ℤ signed32 prev) in
          let (ys, e1, e2) =
            >>=-eq-ok (delta_encode_loop x xs) (λ (r : List ℕ). ok (d ∷ r)) (rw fine at e) in
          let (inside, back) = add_difference x prev hx.0 hp fine in
          let step : delta_decode_loop prev (d ∷ ys) ≡ ok (x ∷ xs) =
            rw (inside, back, delta_loops x xs ys hx.0 hx.1 e1) refl in
          cc (step, e2)
    ]

-- Whatever the delta codec encodes, it decodes to the same words.
pub delta_decode-delta_encode :
    (xs ds : List ℕ) → All IsWord32 xs → delta_encode xs ≡ ok ds → delta_decode ds ≡ ok xs
unfolding delta_encode delta_decode
delta_decode-delta_encode [] ds h e = ground arith
delta_decode-delta_encode (x ∷ xs) ds h e =
    let (ys, e1, e2) = >>=-eq-ok (delta_encode_loop x xs) (λ (r : List ℕ). ok (x ∷ r)) e in
    let step : delta_decode (x ∷ ys) ≡ ok (x ∷ xs) = rw (delta_loops x xs ys h.0 h.1 e1) refl in
    cc (step, e2)

word32-IsWord32 : (d : ℤ) → IsWord32 (word32 d)
word32-IsWord32 d = ground arith

delta_encode_loop_shape :
    (prev : ℕ) (xs ds : List ℕ)
    → delta_encode_loop prev xs ≡ ok ds
    → All IsWord32 ds × (length ds ≡ length xs)
unfolding delta_encode_loop
delta_encode_loop_shape prev [] [] e = (tt, refl)
delta_encode_loop_shape prev [] (d ∷ ds) e = absurd (cc e)
delta_encode_loop_shape prev (x ∷ xs) ds e =
    elim (Bool-cases (outside_int32 (signed32 x -ℤ signed32 prev))) [
      | inl out ↦ absurd (cc (rw out at e))
      | inr fine ↦
          let d : ℕ = word32 (signed32 x -ℤ signed32 prev) in
          let (ys, e1, e2) =
            >>=-eq-ok (delta_encode_loop x xs) (λ (r : List ℕ). ok (d ∷ r)) (rw fine at e) in
          let (words, same) = delta_encode_loop_shape x xs ys e1 in
          let shape : All IsWord32 (d ∷ ys) × (length (d ∷ ys) ≡ length (x ∷ xs)) =
            ((word32-IsWord32 (signed32 x -ℤ signed32 prev), words), ap suc same) in
          subst (λ t. All IsWord32 t × (length t ≡ length (x ∷ xs))) (ok-injective e2) shape
    ]

-- An encoding has as many words as the input, all of 32 bits.
pub delta_encode_shape :
    (xs ds : List ℕ)
    → All IsWord32 xs
    → delta_encode xs ≡ ok ds
    → All IsWord32 ds × (length ds ≡ length xs)
unfolding delta_encode
delta_encode_shape [] [] h e = (tt, refl)
delta_encode_shape [] (d ∷ ds) h e = absurd (cc e)
delta_encode_shape (x ∷ xs) ds h e =
    let (ys, e1, e2) = >>=-eq-ok (delta_encode_loop x xs) (λ (r : List ℕ). ok (x ∷ r)) e in
    let (words, same) = delta_encode_loop_shape x xs ys e1 in
    let shape : All IsWord32 (x ∷ ys) × (length (x ∷ ys) ≡ length (x ∷ xs)) =
      ((h.0, words), ap suc same) in
    subst (λ t. All IsWord32 t × (length t ≡ length (x ∷ xs))) (ok-injective e2) shape

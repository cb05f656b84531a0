-- ===== src/Reader/Calls.antt =====
-- `fce_reader_get_copy` of src/api/fce_reader_api.c.
use fast_cache_engine.Builder.{Buffer}
use fast_cache_engine.Bytes.Words.{Bytes}
use fast_cache_engine.Common.{
  Bool-cases, [], ap, arith, drop, false, inl, inr, length, length-append,
}
use fast_cache_engine.Common.{
  length-drop, ltb, ltb→le, ltb→lt, refl, some, suc, sym, take, take-append,
}
use fast_cache_engine.Common.{true, zero, ℕ, ◌++◌, ◌<◌, ◌∷◌, ◌≡◌, ◌≢◌, ◌≤◌, ◌↔◌}
use fast_cache_engine.Reader.{Copied, FceReader, GetEnv, copy_out, fce_reader_get}
use fast_cache_engine.Reader.{fce_reader_get_copy}
use fast_cache_engine.Status.{Result, err, fault, invalid_argument, ok, ok-injective}
use mathlib.Core.Path.{subst}

-- What a copy into a buffer may leave, for what the lookup says.
abbrev pub IsCopied : Result Bytes → Bytes → ℕ → Copied → Type 0
IsCopied found out room left =
    (b : Bytes) × (n : ℕ) × (left.buffer_left ≡ some b)
    × (left.inout_value_len ≡ some n)
    × (length b ≡ length out)
    × (drop room b ≡ drop room out)
    × (left.status ≢ fault)
    × ((left.status ≡ ok tt) ↔ ((v : Bytes) × (found ≡ ok v) × (length v ≤ room)))
    × (left.status ≡ ok tt → (n ≤ room) × (found ≡ ok (take n b)))
    × (left.status ≢ ok tt → b ≡ out)
    × ((v : Bytes) → found ≡ ok v → n ≡ length v)

refused-IsCopied :
    (v out : Bytes) (room : ℕ)
    → room < length v
    → IsCopied (ok v) out room (record {
      buffer_left = some out;
      inout_value_len = some (length v);
      status = err invalid_argument;
    })
refused-IsCopied v out room short = (
  out,
  length v,
  refl,
  refl,
  refl,
  refl,
  (λ h. cc),
  (
    (λ h. cc),
    (λ (w, e, fits).
        let same : length v ≡ length w = ap length (ok-injective e) in absurd (omega arith)),
  ),
  (λ h. cc),
  (λ h. refl),
  (λ w e. ap length (ok-injective e)),
)

drop-written :
    (v out : Bytes) (room : ℕ)
    → length v ≤ room
    → room ≤ length out
    → drop room (v ++ drop (length v) out) ≡ drop room out
drop-written [] out room fits within = refl
drop-written (x ∷ v) out zero fits within = absurd (omega arith)
drop-written (x ∷ v) [] (suc room) fits within = absurd (omega arith)
drop-written (x ∷ v) (y ∷ out) (suc room) fits within =
    drop-written v out room (omega arith) (omega arith)

written-IsCopied :
    (v out : Bytes) (room : ℕ)
    → length v ≤ room
    → room ≤ length out
    → IsCopied (ok v) out room (record {
      buffer_left = some (v ++ drop (length v) out);
      inout_value_len = some (length v);
      status = ok tt;
    })
written-IsCopied v out room fits within = (
  v ++ drop (length v) out,
  length v,
  refl,
  refl,
  omega (arith, length-append v (drop (length v) out), length-drop (length v) out),
  drop-written v out room fits within,
  (λ h. cc),
  ((λ h. (v, refl, fits)), (λ h. refl)),
  (λ h. (fits, ap ok (sym (take-append (length v) v (drop (length v) out) refl)))),
  (λ h. absurd (h refl)),
  (λ w e. ap length (ok-injective e)),
)

copy_out-IsCopied :
    (found : Result Bytes) (out : Bytes) (room : ℕ)
    → room ≤ length out
    → found ≢ fault
    → IsCopied found out room (copy_out (some out) room found)
unfolding copy_out
copy_out-IsCopied (ok v) out room within there_is = elim (Bool-cases (ltb room (length v))) [
  | inl short ↦
      subst (IsCopied (ok v) out room) (sym (is_short short))
        (refused-IsCopied v out room (ltb→lt room (length v) short))
  | inr long ↦
      let fits = ltb→le room (length v) long in
      subst (IsCopied (ok v) out room) (sym (is_long long))
        (written-IsCopied v out room fits within)
]
  where
    is_short :
        ltb room (length v) ≡ true
        → copy_out (some out) room (ok v) ≡ record {
          buffer_left = some out;
          inout_value_len = some (length v);
          status = err invalid_argument;
        }
    is_short p = rw p refl

    is_long :
        ltb room (length v) ≡ false
        → copy_out (some out) room (ok v) ≡ record {
          buffer_left = some (v ++ drop (length v) out);
          inout_value_len = some (length v);
          status = ok tt;
        }
    is_long p =
        let inside : ltb (length out) (length v) ≡ false = ground arith in rw (p, inside) refl
copy_out-IsCopied (err e) out room within there_is = (
  out,
  room,
  refl,
  refl,
  refl,
  refl,
  (λ h. cc),
  ((λ h. cc), (λ h. let no_value = h.1 in cc)),
  (λ h. cc),
  (λ h. refl),
  (λ w h. cc),
)
copy_out-IsCopied fault out room within there_is = absurd (there_is refl)

-- A copy into a caller's buffer of at least the length that the caller gives, for every lookup that
-- does not fault: it never writes past that length and keeps the rest of the buffer; it succeeds
-- exactly if the lookup finds a value that fits; then the first bytes of the buffer, as many as the
-- returned length says, are the value, and otherwise the buffer is as it was. Where a value is found,
-- the returned length is that of the value, also if the value did not fit.
pub fce_reader_get_copy-IsCopied :
    (e : GetEnv) (r : FceReader) (key : Buffer) (out : Bytes) (room : ℕ)
    → room ≤ length out
    → fce_reader_get e r key ≢ fault
    → IsCopied
        (fce_reader_get e r key)
        out
        room
        (fce_reader_get_copy e r key (some out) (some room))
unfolding fce_reader_get_copy
fce_reader_get_copy-IsCopied e r key out room within there_is =
    copy_out-IsCopied (fce_reader_get e r key) out room within there_is

-- ===== src/Status.antt =====
-- `FceStatus` of include/fce_cache.h, and the outcome of a call.
use fast_cache_engine.Common.{inl, inr, refl, ◌≡◌, ◌⊎◌}

pub data Status : Type 0 where
  invalid_argument io corrupt not_found unsupported schema_mismatch out_of_memory : Status

-- `FCE_OK` with what the out-parameters receive, or an error status. A `fault` is no status: the
-- C code reads or writes outside an object there, which has no defined behaviour.
pub data Result {ℓ} (A : Type ℓ) : Type ℓ where
  ok : A → Result A
  err : Status → Result A
  fault : Result A

infixl 5 ◌>>=◌ ◌>>◌
-- The next call runs where the first one has succeeded.
abbrev pub ◌>>=◌ {ℓ κ} : {A : Type ℓ} {B : Type κ} → Result A → (A → Result B) → Result B
fault >>= next = fault
err status >>= next = err status
ok x >>= next = next x

abbrev pub ◌>>◌ {κ} : {B : Type κ} → Result (Unit {0}) → Result B → Result B
first >> second = first >>= λ _. second

-- Where a chain succeeds, its first call has succeeded.
pub >>=-eq-ok {ℓ κ} :
    {A : Type ℓ} {B : Type κ} (first : Result A) (next : A → Result B) {b : B}
    → (first >>= next) ≡ ok b
    → (x : A) × (first ≡ ok x) × (next x ≡ ok b)
>>=-eq-ok fault next e = cc
>>=-eq-ok (err status) next e = cc
>>=-eq-ok (ok x) next e = (x, refl, e)

pub ok-injective {ℓ} : {A : Type ℓ} {a b : A} → ok a ≡ ok b → a ≡ b
ok-injective h = cc

pub Result-cases {ℓ} :
    {A : Type ℓ} (m : Result A)
    → ((a : A) × (m ≡ ok a)) ⊎ (((e : Status) × (m ≡ err e)) ⊎ (m ≡ fault))
Result-cases (ok a) = inl (a, refl)
Result-cases (err e) = inr (inl (e, refl))
Result-cases fault = inr (inr refl)

-- Where a sequence succeeds, so does its second call.
pub >>-eq-ok {κ} :
    {B : Type κ} (first : Result (Unit {0})) (second : Result B) {b : B}
    → (first >> second) ≡ ok b
    → second ≡ ok b
>>-eq-ok fault second e = cc
>>-eq-ok (err status) second e = cc
>>-eq-ok (ok x) second e = e

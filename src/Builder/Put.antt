-- ===== src/Builder/Put.antt =====
-- A put of src/api/fce_builder_api.c takes effect as a whole or not at all.
use fast_cache_engine.Builder.{Buffer, FceBuilder, PutEnv, builder_grow, check_put, content}
use fast_cache_engine.Builder.{encode_record, fce_builder_put, grown, pushed}
use fast_cache_engine.Bytes.Words.{Bytes}
use fast_cache_engine.Codec.{fce_codec_encode}
use fast_cache_engine.Common.{Bool-cases, List, [], ap, arith, get_elem?, if◌then◌else◌}
use fast_cache_engine.Common.{inl, inr, length, length-append, none, not, refl, some, suc}
use fast_cache_engine.Common.{sym, zero, ℕ, ◌%◌, ◌*◌, ◌++◌, ◌<◌, ◌==◌, ◌||◌, ◌∙◌, ◌∷◌, ◌≡◌}
use fast_cache_engine.Common.{◌≢◌, ◌≤◌, ◌⊎◌}
use fast_cache_engine.Hash.{u64}
use fast_cache_engine.Record.{BuildRecord}
use fast_cache_engine.Status.{>>=-eq-ok, Result, Result-cases, Status, err, fault, ok, ok-injective}
use fast_cache_engine.Status.{out_of_memory, ◌>>=◌}
use mathlib.Core.Path.{subst}

-- There is room for the records, and the order of each is its place.
pub record IsBuilder (b : FceBuilder) : Type 0 where
  pub room : length b.records ≤ b.cap
  pub orders : (i : ℕ) (r : BuildRecord) → get_elem? b.records i ≡ some r → r.order ≡ i

abbrev next_cap : FceBuilder → ℕ
next_cap b = if b.cap == 0 then 64 else b.cap * 2 % u64

grow_cases :
    (env : PutEnv) (b g : FceBuilder)
    → builder_grow env b ≡ ok g
    → ((length b.records < b.cap) × (b ≡ g)) ⊎ ((b.cap < next_cap b) × (grown b (next_cap b) ≡ g))
unfolding builder_grow
grow_cases env b g h = ground arith

-- What the growth of `b` to `g` keeps.
abbrev Grew : FceBuilder → FceBuilder → Type 0
Grew b g =
    (g.records ≡ b.records)
    × (length g.records < g.cap)
    × ((env : PutEnv) (key value : Bytes)
        → encode_record env key value g ≡ encode_record env key value b)

-- After it, one more record has room.
grow_room : (env : PutEnv) (b g : FceBuilder) → IsBuilder b → builder_grow env b ≡ ok g → Grew b g
unfolding encode_record
grow_room env b g wf h = elim (grow_cases env b g h) [
  | inl (l, e) ↦ subst (Grew b) e (refl, l, λ env key value. refl)
  | inr (l, e) ↦ let room = wf.room in subst (Grew b) e (refl, omega arith, λ env key value. refl)
]

get_elem?-last :
    {A : Type 0} (xs : List A) (x : A) (i : ℕ) (y : A)
    → get_elem? (xs ++ (x ∷ [])) i ≡ some y
    → (get_elem? xs i ≡ some y) ⊎ ((i ≡ length xs) × (x ≡ y))
get_elem?-last [] x zero y h = inr (refl, cc)
get_elem?-last [] x (suc i) y h = absurd (none≢some h)
  where
    none≢some : {A : Type 0} {z : A} → none ≢ some z
    none≢some q = cc
get_elem?-last (z ∷ xs) x zero y h = inl h
get_elem?-last (z ∷ xs) x (suc i) y h = elim (get_elem?-last xs x i y h) [
  | inl p ↦ inl p
  | inr (p, q) ↦ inr (ap suc p, q)
]

pushed-IsBuilder :
    (b : FceBuilder) (r : BuildRecord)
    → ((i : ℕ) (x : BuildRecord) → get_elem? b.records i ≡ some x → x.order ≡ i)
    → length b.records < b.cap
    → r.order ≡ length b.records
    → IsBuilder (pushed b r)
pushed-IsBuilder b r orders l e = record {
  room = omega (arith, length-append b.records (r ∷ []));
  orders = λ i x h. elim (get_elem?-last b.records r i x h) [
    | inl p ↦ orders i x p
    | inr (p, q) ↦ ap (λ y. y.order) (sym q) ∙ e ∙ sym p
  ];
}

-- The builder after a put, and its status: a good builder, which has one record more, the encoded
-- one, if the status is OK, and the same records else.
abbrev pub PutOutcome :
    PutEnv → Buffer → Buffer → FceBuilder → FceBuilder → Result (Unit {0}) → Type 0
PutOutcome env key value b after status =
    IsBuilder after
    × (((status ≡ ok tt)
          × ((r : BuildRecord) × (encode_record env (content key) (content value) b ≡ ok r)
              × (after.records ≡ b.records ++ (r ∷ []))))
        ⊎ ((status ≢ ok tt) × (after.records ≡ b.records)))

encode_record_order :
    (env : PutEnv) (key value : Bytes) (b : FceBuilder) (r : BuildRecord)
    → encode_record env key value b ≡ ok r
    → r.order ≡ length b.records
unfolding encode_record
encode_record_order env key value b r h =
    let (k, p, f) =
      >>=-eq-ok (fce_codec_encode env.key_malloc b.schema.key_codec key)
        (λ k. fce_codec_encode env.value_malloc b.schema.value_codec value >>= λ v.
          if not env.key_copy || not env.value_copy
          then err out_of_memory
          else ok (record { key = k; value = v; order = length b.records }))
        {b = r} h in
    let (v, q, g) =
      >>=-eq-ok (fce_codec_encode env.value_malloc b.schema.value_codec value)
        (λ v.
          if not env.key_copy || not env.value_copy
          then err out_of_memory
          else ok (record { key = k; value = v; order = length b.records }))
        {b = r} f in
    elim (Bool-cases (not env.key_copy || not env.value_copy)) [
      | inl t ↦ absurd (err≢ok (rw t at g))
      | inr t ↦ ap (λ x. x.order) (sym (ok-injective (rw t at g)))
    ]
  where
    err≢ok : {o : BuildRecord} → err out_of_memory ≢ ok o
    err≢ok q = cc

err_is_not_ok : {e : Status} → err e ≢ ok (tt {0})
err_is_not_ok q = cc

fault_is_not_ok : fault ≢ ok (tt {0})
fault_is_not_ok q = cc

-- The same records, with at least the room there was.
kept : (b g : FceBuilder) → IsBuilder b → Grew b g → IsBuilder g
kept b g wf (same, room, e) = record {
  room = omega arith;
  orders = λ i r h. wf.orders i r (rw same at h);
}

after_growth :
    (env : PutEnv) (key value : Buffer) (b g : FceBuilder)
    → IsBuilder b
    → Grew b g
    → check_put key value b ≡ ok tt
    → builder_grow env b ≡ ok g
    → PutOutcome env key value b
        (fce_builder_put env key value b).0
        (fce_builder_put env key value b).1
unfolding fce_builder_put
after_growth env key value b g wf grew c h =
    let (same, room, encode) = grew in
    let good : IsBuilder g = kept b g wf grew in
    elim (Result-cases (encode_record env (content key) (content value) g)) [
      | inl (r, e) ↦
          rw (c, h, e, fce_builder_put)
            (
              pushed-IsBuilder g r good.orders room
                  (encode_record_order env (content key) (content value) g r e),
              inl (
                refl,
                (
                  r,
                  sym (encode env (content key) (content value)) ∙ e,
                  ap (λ x. x ++ (r ∷ [])) same,
                ),
              ),
            )
      | inr (inl (x, e)) ↦ rw (c, h, e, fce_builder_put) (good, inr (err_is_not_ok, same))
      | inr (inr e) ↦ rw (c, h, e, fce_builder_put) (good, inr (fault_is_not_ok, same))
    ]

-- Whatever fails, a put keeps the builder good, and it adds the encoded record exactly when it
-- returns OK.
pub fce_builder_put-PutOutcome :
    (env : PutEnv) (key value : Buffer) (b : FceBuilder)
    → IsBuilder b
    → PutOutcome env key value b
        (fce_builder_put env key value b).0
        (fce_builder_put env key value b).1
unfolding fce_builder_put
fce_builder_put-PutOutcome env key value b wf = elim (Result-cases (check_put key value b)) [
  | inr (inl (x, c)) ↦ rw (c, fce_builder_put) (wf, inr (err_is_not_ok, refl))
  | inr (inr c) ↦ rw (c, fce_builder_put) (wf, inr (fault_is_not_ok, refl))
  | inl (tt, c) ↦ elim (Result-cases (builder_grow env b)) [
    | inr (inl (x, h)) ↦ rw (c, h, fce_builder_put) (wf, inr (err_is_not_ok, refl))
    | inr (inr h) ↦ rw (c, h, fce_builder_put) (wf, inr (fault_is_not_ok, refl))
    | inl (g, h) ↦ after_growth env key value b g wf (grow_room env b g wf h) c h
  ]
]

-- ===== src/Record/Latest.antt =====
-- `dedupe_records` of src/core/fce_build_records.c keeps the last put of every key.
use fast_cache_engine.Bytes.Lexical.{lex, lex_eq, lex_refl, lex_trans}
use fast_cache_engine.Bytes.Words.{Bytes}
use fast_cache_engine.Common.{All, All-mono, Bool, Bool-cases, In, List, [], arith, false}
use fast_cache_engine.Common.{here, if◌then◌else◌, inl, inr, ltb, refl, sym, there, true}
use fast_cache_engine.Common.{◌∙◌, ◌∷◌, ◌≡◌, ◌≢◌, ◌≤◌, ◌⊎◌}
use Prim.Native.Nat.{Ordering}
use fast_cache_engine.Qsort.{Ascends}
use fast_cache_engine.Record.{BuildRecord, cmp_build_by_key, dedupe_loop, same_key}
use fast_cache_engine.Record.Order.{cmp_build_by_key_keys, same_key_of_eq, same_key→eq}
use fast_cache_engine.Status.{>>=-eq-ok, err, invalid_argument, ok, ok-injective, ◌>>=◌}
use mathlib.Core.Path.{subst}

-- `r` is the last of the records with its key.
abbrev pub IsLatest : BuildRecord → List BuildRecord → Type 0
IsLatest r records = In r records × All (λ s. s.key ≡ r.key → s.order ≤ r.order) records

-- Some record of the list has the key.
abbrev pub HasKey : Bytes → List BuildRecord → Type 0
HasKey k records = (r : BuildRecord) × In r records × (r.key ≡ k)

-- Every key is less than all later ones.
abbrev pub StrictKeys : List BuildRecord → Type 0
StrictKeys [] = Unit
StrictKeys (r ∷ rs) = All (λ s. lex r.key s.key ≡ Ordering.lt) rs × StrictKeys rs

-- What the list `out` is to the records that it was made of.
pub record IsDeduped (records out : List BuildRecord) : Type 0 where
  pub latest : All (λ r. IsLatest r records) out
  pub complete : All (λ s. HasKey s.key out) records
  pub strict : StrictKeys out

-- The order of keys in a list that ascends.
abbrev pub AscendsByKey : List BuildRecord → Type 0
AscendsByKey [] = Unit
AscendsByKey (r ∷ rs) = All (λ s. lex r.key s.key ≢ Ordering.gt) rs × AscendsByKey rs

pub ascends_by_key : (rs : List BuildRecord) → Ascends cmp_build_by_key rs → AscendsByKey rs
ascends_by_key [] h = tt
ascends_by_key (r ∷ rs) h = (
  All-mono (λ s. cmp_build_by_key r s ≢ Ordering.gt) (λ s. lex r.key s.key ≢ Ordering.gt) rs
      (cmp_build_by_key_keys r) h.0,
  ascends_by_key rs h.1,
)

-- The record that a group keeps when `r` joins it.
abbrev pub newer : BuildRecord → BuildRecord → BuildRecord
newer latest r = if ltb latest.order r.order then r else latest

-- The newer of two records with one key stands for both.
joined_into :
    (latest r n : BuildRecord) (rs out : List BuildRecord)
    → latest.key ≡ n.key
    → r.key ≡ n.key
    → (n ≡ latest) ⊎ (n ≡ r)
    → latest.order ≤ n.order
    → r.order ≤ n.order
    → IsDeduped (n ∷ rs) out
    → IsDeduped (latest ∷ r ∷ rs) out
joined_into latest r n rs out kl kr which hl hr d = record {
  latest =
      All-mono (λ x. IsLatest x (n ∷ rs)) (λ x. IsLatest x (latest ∷ r ∷ rs)) out
        (λ x h. (
          place which x h.0,
          (λ e. omega (arith, h.1.0 (sym kl ∙ e)), (λ e. omega (arith, h.1.0 (sym kr ∙ e)), h.1.1)),
        ))
        d.latest;
  complete = (rw kl d.complete.0, (rw kr d.complete.0, d.complete.1));
  strict = d.strict;
}
  where
    place : (n ≡ latest) ⊎ (n ≡ r) → (x : BuildRecord) → In x (n ∷ rs) → In x (latest ∷ r ∷ rs)
    place (inl e) x (here f) = here (f ∙ e)
    place (inr e) x (here f) = there (here (f ∙ e))
    place w x (there m) = there (there m)

-- `r` joins the group of `latest`: what holds with the newer of the two holds with both.
joined :
    (latest r : BuildRecord) (rs out : List BuildRecord)
    → r.key ≡ latest.key
    → IsDeduped (newer latest r ∷ rs) out
    → IsDeduped (latest ∷ r ∷ rs) out
joined latest r rs out same d = elim (Bool-cases (ltb latest.order r.order)) [
  | inl h ↦
      joined_into latest r r rs out (sym same) refl (inr refl) (ground arith) (omega arith)
        (rw h at d)
  | inr h ↦
      joined_into latest r latest rs out refl same (inl refl) (omega arith) (ground arith)
        (rw h at d)
]

lt_not_eq : (a b : Bytes) → lex a b ≡ Ordering.lt → a ≢ b
lt_not_eq a b h e = Ordering-lt≢eq (sym h ∙ rw e (lex_refl b))
  where
    Ordering-lt≢eq : Ordering.lt ≢ Ordering.eq
    Ordering-lt≢eq e = cc

-- What is in the list has the properties of its members.
pub All-In :
    (P : BuildRecord → Type 0) (xs : List BuildRecord) {x : BuildRecord} → All P xs → In x xs → P x
All-In P [] h m = elim m [ ]
All-In P (y ∷ ys) h (here e) = rw e h.0
All-In P (y ∷ ys) h (there m) = All-In P ys h.1 m

-- A new group begins with `r`: the group of `latest` is complete.
closed :
    (latest r : BuildRecord) (rs out : List BuildRecord)
    → All (λ s. lex latest.key s.key ≡ Ordering.lt) (r ∷ rs)
    → IsDeduped (r ∷ rs) out
    → IsDeduped (latest ∷ r ∷ rs) (latest ∷ out)
closed latest r rs out less d = record {
  latest = (
    (
      here refl,
      (
        λ e. omega arith,
        All-mono (λ s. lex latest.key s.key ≡ Ordering.lt)
            (λ s. s.key ≡ latest.key → s.order ≤ latest.order) (r ∷ rs)
            (λ s h e. absurd (lt_not_eq latest.key s.key h (sym e))) less,
      ),
    ),
    All-mono (λ x. IsLatest x (r ∷ rs)) (λ x. IsLatest x (latest ∷ r ∷ rs)) out
        (λ x h. (
          there h.0,
          (
            λ e. absurd (
                lt_not_eq latest.key x.key
                  (All-In (λ s. lex latest.key s.key ≡ Ordering.lt) (r ∷ rs) less h.0) e),
            h.1,
          ),
        ))
        d.latest,
  );
  complete = (
    (latest, here refl, refl),
    All-mono (λ s. HasKey s.key out) (λ s. HasKey s.key (latest ∷ out)) (r ∷ rs)
        (λ s h. (h.0, there h.1, h.2)) d.complete,
  );
  strict = (
    All-mono (λ x. IsLatest x (r ∷ rs)) (λ x. lex latest.key x.key ≡ Ordering.lt) out
        (λ x h. All-In (λ s. lex latest.key s.key ≡ Ordering.lt) (r ∷ rs) less h.0) d.latest,
    d.strict,
  );
}

not_gt : (a b : Bytes) → lex a b ≢ Ordering.gt → a ≢ b → lex a b ≡ Ordering.lt
not_gt a b h e = elim (Ordering-cases (lex a b)) [
  | inl p ↦ p
  | inr (inl p) ↦ absurd (e (lex_eq a b p))
  | inr (inr p) ↦ absurd (h p)
]
  where
    Ordering-cases : (o : Ordering) → (o ≡ Ordering.lt) ⊎ ((o ≡ Ordering.eq) ⊎ (o ≡ Ordering.gt))
    Ordering-cases Ordering.lt = inl refl
    Ordering-cases Ordering.eq = inr (inl refl)
    Ordering-cases Ordering.gt = inr (inr refl)

-- `a < b` and `b ≤ c` give `a < c`.
lt_le_trans :
    (a b c : Bytes) → lex a b ≡ Ordering.lt → lex b c ≢ Ordering.gt → lex a c ≡ Ordering.lt
lt_le_trans a b c h k = elim (Bool-cases (is_lt (lex b c))) [
  | inl p ↦ lex_trans a b c h (is_lt→ (lex b c) p)
  | inr p ↦ rw (lex_eq b c (is_eq (lex b c) k p)) at h
]
  where
    is_lt : Ordering → Bool
    is_lt Ordering.lt = true
    is_lt Ordering.eq = false
    is_lt Ordering.gt = false

    is_lt→ : (o : Ordering) → is_lt o ≡ true → o ≡ Ordering.lt
    is_lt→ Ordering.lt p = refl
    is_lt→ Ordering.eq p = cc
    is_lt→ Ordering.gt p = cc

    is_eq : (o : Ordering) → o ≢ Ordering.gt → is_lt o ≡ false → o ≡ Ordering.eq
    is_eq Ordering.lt n p = cc
    is_eq Ordering.eq n p = refl
    is_eq Ordering.gt n p = absurd (n refl)

above_first :
    (first r : BuildRecord) (rs : List BuildRecord)
    → AscendsByKey (first ∷ r ∷ rs)
    → same_key r first ≡ false
    → All (λ s. lex first.key s.key ≡ Ordering.lt) (r ∷ rs)
above_first first r rs h differ =
    let less : lex first.key r.key ≡ Ordering.lt =
      not_gt first.key r.key h.0.0
        (λ e. true_false (sym (same_key_of_eq r first (sym e)) ∙ differ)) in
    (
      less,
      All-mono (λ s. lex r.key s.key ≢ Ordering.gt) (λ s. lex first.key s.key ≡ Ordering.lt) rs
          (λ s k. lt_le_trans first.key r.key s.key less k) h.1.0,
    )
  where
    true_false : true ≢ false
    true_false e = cc

pub same_step :
    (first latest r : BuildRecord) (rs : List BuildRecord)
    → same_key r first ≡ true
    → dedupe_loop true first latest (r ∷ rs) ≡ dedupe_loop true first (newer latest r) rs
unfolding dedupe_loop
same_step first latest r rs h = rw (h, dedupe_loop) refl

pub same_fails :
    (first latest r : BuildRecord) (rs : List BuildRecord)
    → same_key r first ≡ true
    → dedupe_loop false first latest (r ∷ rs) ≡ err invalid_argument
unfolding dedupe_loop
same_fails first latest r rs h = rw (h, dedupe_loop) refl

pub differ_step :
    (allow : Bool) (first latest r : BuildRecord) (rs : List BuildRecord)
    → same_key r first ≡ false
    → dedupe_loop allow first latest (r ∷ rs)
      ≡ (dedupe_loop allow r r rs >>= λ out. ok (latest ∷ out))
unfolding dedupe_loop
differ_step allow first latest r rs h = rw (h, dedupe_loop) refl

-- The keys after the second record ascend after the first one too.
without_second :
    (first r : BuildRecord) (rs : List BuildRecord)
    → AscendsByKey (first ∷ r ∷ rs)
    → AscendsByKey (first ∷ rs)
without_second first r rs h = (h.0.1, h.1.1)

single : (r : BuildRecord) → IsDeduped (r ∷ []) (r ∷ [])
single r = record {
  latest = ((here refl, (λ e. omega arith, tt)), tt);
  complete = ((r, here refl, refl), tt);
  strict = (tt, tt);
}

newer_key :
    (first latest r : BuildRecord)
    → latest.key ≡ first.key
    → r.key ≡ first.key
    → (newer latest r).key ≡ first.key
newer_key first latest r p q = elim (Bool-cases (ltb latest.order r.order)) [
  | inl h ↦ rw h q
  | inr h ↦ rw h p
]

-- The next group.
next_group :
    (first latest r : BuildRecord) (rs out : List BuildRecord) (allow : Bool)
    → AscendsByKey (first ∷ r ∷ rs)
    → latest.key ≡ first.key
    → same_key r first ≡ false
    → dedupe_loop allow first latest (r ∷ rs) ≡ ok out
    → ((more : List BuildRecord) → dedupe_loop allow r r rs ≡ ok more → IsDeduped (r ∷ rs) more)
    → IsDeduped (latest ∷ r ∷ rs) out
next_group first latest r rs out allow h same t e rest =
    let (more, m, f) =
      >>=-eq-ok (dedupe_loop allow r r rs) (λ o. ok (latest ∷ o))
        (sym (differ_step allow first latest r rs t) ∙ e) in
    subst (IsDeduped (latest ∷ r ∷ rs)) (ok-injective f) (
      closed latest r rs more
        (subst (λ k. All (λ s. lex k s.key ≡ Ordering.lt) (r ∷ rs)) (sym same)
          (above_first first r rs h t))
        (rest more m))

pub dedupe_loop-IsDeduped :
    (first latest : BuildRecord) (rs out : List BuildRecord) (allow : Bool)
    → AscendsByKey (first ∷ rs)
    → latest.key ≡ first.key
    → dedupe_loop allow first latest rs ≡ ok out
    → IsDeduped (latest ∷ rs) out
unfolding dedupe_loop
dedupe_loop-IsDeduped first latest [] out allow h same e =
    subst (IsDeduped (latest ∷ [])) (ok-injective e) (single latest)
dedupe_loop-IsDeduped first latest (r ∷ rs) out true h same e =
    elim (Bool-cases (same_key r first)) [
      | inl t ↦
          let k = same_key→eq r first t in
          joined latest r rs out (k ∙ sym same) (
            dedupe_loop-IsDeduped first (newer latest r) rs out true (without_second first r rs h)
              (newer_key first latest r same k) (sym (same_step first latest r rs t) ∙ e))
      | inr t ↦
          next_group first latest r rs out true h same t e
            (λ more. dedupe_loop-IsDeduped r r rs more true h.1 refl)
    ]
dedupe_loop-IsDeduped first latest (r ∷ rs) out false h same e =
    elim (Bool-cases (same_key r first)) [
      | inl t ↦ absurd (err≢ok (sym (same_fails first latest r rs t) ∙ e))
      | inr t ↦
          next_group first latest r rs out false h same t e
            (λ more. dedupe_loop-IsDeduped r r rs more false h.1 refl)
    ]
  where
    err≢ok : {o : List BuildRecord} → err invalid_argument ≢ ok o
    err≢ok e = cc

-- ===== src/Record/Numbered.antt =====
-- Records with their places in the array as numbers, as `fce_builder_put` of src/api/fce_builder_api.c
-- leaves them.
use fast_cache_engine.Common.{In, List, [], ap, arith, here, length, suc, sym, there, ℕ}
use fast_cache_engine.Common.{◌++◌, ◌+◌, ◌<◌, ◌∙◌, ◌∷◌, ◌≡◌, ◌≤◌}
use fast_cache_engine.Record.{BuildRecord}

-- The numbers of the records are their places, from `n` on.
abbrev pub Numbered : List BuildRecord → ℕ → Type 0
Numbered [] n = Unit
Numbered (r ∷ rs) n = (r.order ≡ n) × Numbered rs (suc n)

pub Numbered-append :
    (rs : List BuildRecord) (r : BuildRecord) (n : ℕ)
    → Numbered rs n
    → r.order ≡ n + length rs
    → Numbered (rs ++ (r ∷ [])) n
Numbered-append [] r n h e = (omega arith, tt)
Numbered-append (s ∷ rs) r n h e = (h.0, Numbered-append rs r (suc n) h.1 (omega arith))

pub Numbered-bound :
    (rs : List BuildRecord) (s : BuildRecord) (n : ℕ)
    → Numbered rs n
    → In s rs
    → s.order < n + length rs
Numbered-bound [] s n h m = elim m [ ]
Numbered-bound (r ∷ rs) s n h (here e) = omega (arith, h.0, ap (λ x. x.order) e)
Numbered-bound (r ∷ rs) s n h (there m) = omega (arith, Numbered-bound rs s (suc n) h.1 m)

Numbered-least :
    (rs : List BuildRecord) (s : BuildRecord) (n : ℕ) → Numbered rs n → In s rs → n ≤ s.order
Numbered-least [] s n h m = elim m [ ]
Numbered-least (r ∷ rs) s n h (here e) = omega (arith, h.0, ap (λ x. x.order) e)
Numbered-least (r ∷ rs) s n h (there m) = omega (arith, Numbered-least rs s (suc n) h.1 m)

-- The number decides the record.
pub Numbered-unique :
    (rs : List BuildRecord) (r s : BuildRecord) (n : ℕ)
    → Numbered rs n
    → In r rs
    → In s rs
    → r.order ≡ s.order
    → r ≡ s
Numbered-unique [] r s n h i j e = elim i [ ]
Numbered-unique (x ∷ rs) r s n h (here p) (here q) e = p ∙ sym q
Numbered-unique (x ∷ rs) r s n h (here p) (there j) e =
    absurd (omega (arith, h.0, ap (λ y. y.order) p, Numbered-least rs s (suc n) h.1 j))
Numbered-unique (x ∷ rs) r s n h (there i) (here q) e =
    absurd (omega (arith, h.0, ap (λ y. y.order) q, Numbered-least rs r (suc n) h.1 i))
Numbered-unique (x ∷ rs) r s n h (there i) (there j) e = Numbered-unique rs r s (suc n) h.1 i j e

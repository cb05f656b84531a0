-- ===== src/Qsort.antt =====
-- The C library's `qsort`, as far as the program relies on it: it permutes the array, and the result
-- ascends in the order of the comparison function. Which of two equal elements comes first is open.
use mathlib.Core.Logic.{◌≢◌}
use fast_cache_engine.Common.{All, All-get_elem?, In, List, [], ap, arith, drop, get_elem?}
use fast_cache_engine.Common.{here, length, refl, some, suc, sym, there, zero, ℕ, ◌<◌, ◌∙◌}
use fast_cache_engine.Common.{◌∷◌, ◌≡◌}
use Prim.Native.Nat.{Ordering}
use mathlib.Core.List.{Permᴰ}
use mathlib.Core.Path.{subst}

-- No element compares as greater than a later one.
abbrev pub Ascends : {A : Type 0} → (A → A → Ordering) → List A → Type 0
Ascends cmp [] = Unit
Ascends cmp (x ∷ xs) = All (λ y. cmp x y ≢ Ordering.gt) xs × Ascends cmp xs

pub record Qsort {A : Type 0} (cmp : A → A → Ordering) : Type 0 where
  pub sort : List A → List A
  pub permutes : (xs : List A) → Permᴰ (sort xs) xs
  pub ascends : (xs : List A) → Ascends cmp (sort xs)

module _ {A : Type 0} where
  pub Perm-All : (P : A → Type 0) {xs ys : List A} → Permᴰ xs ys → All P xs → All P ys
  Perm-All P Permᴰ.nil h = h
  Perm-All P (Permᴰ.cons e p) h = (subst P e h.0, Perm-All P p h.1)
  Perm-All P (Permᴰ.swap e f) h = (subst P f h.1.0, (subst P e h.0, h.1.1))
  Perm-All P (Permᴰ.trans p q) h = Perm-All P q (Perm-All P p h)

  pub Perm-In : {a : A} {xs ys : List A} → Permᴰ xs ys → In a xs → In a ys
  Perm-In Permᴰ.nil m = m
  Perm-In (Permᴰ.cons e p) (here f) = here (f ∙ e)
  Perm-In (Permᴰ.cons e p) (there m) = there (Perm-In p m)
  Perm-In (Permᴰ.swap e f) (here g) = there (here (g ∙ e))
  Perm-In (Permᴰ.swap e f) (there (here g)) = here (g ∙ f)
  Perm-In (Permᴰ.swap e f) (there (there m)) = there (there m)
  Perm-In (Permᴰ.trans p q) m = Perm-In q (Perm-In p m)

  pub Perm-length : {xs ys : List A} → Permᴰ xs ys → length xs ≡ length ys
  Perm-length Permᴰ.nil = refl
  Perm-length (Permᴰ.cons e p) = ap suc (Perm-length p)
  Perm-length (Permᴰ.swap e f) = refl
  Perm-length (Permᴰ.trans p q) = Perm-length p ∙ Perm-length q

  pub Perm-sym : {xs ys : List A} → Permᴰ xs ys → Permᴰ ys xs
  Perm-sym Permᴰ.nil = Permᴰ.nil
  Perm-sym (Permᴰ.cons e p) = Permᴰ.cons (sym e) (Perm-sym p)
  Perm-sym (Permᴰ.swap e f) = Permᴰ.swap (sym f) (sym e)
  Perm-sym (Permᴰ.trans p q) = Permᴰ.trans (Perm-sym q) (Perm-sym p)

pub Ascends-get_elem? :
    {A : Type 0} (cmp : A → A → Ordering) (xs : List A) (i j : ℕ) {a b : A}
    → Ascends cmp xs
    → i < j
    → get_elem? xs i ≡ some a
    → get_elem? xs j ≡ some b
    → cmp a b ≢ Ordering.gt
Ascends-get_elem? cmp [] i j h l p q = cc
Ascends-get_elem? cmp (x ∷ xs) i zero h l p q = absurd (omega arith)
Ascends-get_elem? {A} cmp (x ∷ xs) zero (suc j) {a} {b} h l p q =
    subst (λ y. cmp y b ≢ Ordering.gt) (some-injective p)
      (All-get_elem? (λ y. cmp x y ≢ Ordering.gt) xs j h.0 q)
  where
    some-injective : {y z : A} → some y ≡ some z → y ≡ z
    some-injective r = cc
Ascends-get_elem? cmp (x ∷ xs) (suc i) (suc j) h l p q =
    Ascends-get_elem? cmp xs i j h.1 (omega arith) p q

pub Ascends-drop :
    {A : Type 0} (cmp : A → A → Ordering) (n : ℕ) (xs : List A)
    → Ascends cmp xs
    → Ascends cmp (drop n xs)
Ascends-drop cmp zero xs h = h
Ascends-drop cmp (suc n) [] h = tt
Ascends-drop cmp (suc n) (x ∷ xs) h = Ascends-drop cmp n xs h.1

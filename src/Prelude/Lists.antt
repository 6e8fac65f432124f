-- ===== src/Prelude/Lists.antt =====
-- Lists as the program uses them: membership tests, comprehensions, lengths.
use Prim.Native.Nat.{ℕ, zero, suc, ◌+◌}
use mathlib.Core.Path.{◌≡◌, refl, sym, subst}
use mathlib.Core.Logic.{◌⊎◌, inl, inr}
use mathlib.Core.Bool.{Bool, true, false, ◌&&◌, ◌||◌}
use mathlib.Core.Option.{Option, none, some}
use mathlib.Core.List.{List, [], ◌∷◌, ◌++◌}
use native.Mathlib.Omega.{arith}
use ixp_irc.Prelude.Tests.{if◌then◌else◌, Bool-cases}
use ixp_irc.Prelude.Classes.{Eq, ◌==◌, beq_refl}

module _ {ℓ} {A : Type ℓ} where
  abbrev pub length : List A → ℕ
  length [] = 0
  length (x ∷ xs) = suc (length xs)

  abbrev pub is_nil : List A → Bool
  is_nil [] = true
  is_nil (x ∷ xs) = false

  abbrev pub get_elem? : List A → ℕ → Option A
  get_elem? [] i = none
  get_elem? (x ∷ xs) zero = some x
  get_elem? (x ∷ xs) (suc i) = get_elem? xs i

  -- `[x for x in xs if p(x)]`
  unfoldable pub filter : (A → Bool) → List A → List A
  filter p [] = []
  filter p (x ∷ xs) = let rest = filter p xs in if p x then x ∷ rest else rest

  unfoldable pub any : (A → Bool) → List A → Bool
  any p [] = false
  any p (x ∷ xs) = p x || any p xs

  pub length-append : (xs ys : List A) → length (xs ++ ys) ≡ length xs + length ys
  length-append [] ys = omega arith
  length-append (x ∷ xs) ys = omega (arith, length-append xs ys)

  pub any-append : (p : A → Bool) (xs ys : List A) → any p (xs ++ ys) ≡ (any p xs || any p ys)
  unfolding any
  any-append p [] ys = refl
  any-append p (x ∷ xs) ys = ground (arith, any-append p xs ys)

  unfoldable pub every : (A → Bool) → List A → Bool
  every p [] = true
  every p (x ∷ xs) = p x && every p xs

  abbrev pub All {κ} : (A → Type κ) → List A → Type κ
  All P [] = Unit
  All P (x ∷ xs) = P x × All P xs

module _ {A : Type 0} where
  -- The value stands in the list.
  abbrev pub In : A → List A → Type 0
  In a [] = ⊥
  In a (x ∷ xs) = (a ≡ x) ⊎ In a xs

  pub All-In {κ} : {P : A → Type κ} (xs : List A) → ((a : A) → In a xs → P a) → All P xs
  All-In [] h = tt
  All-In (x ∷ xs) h = (h x (inl refl), All-In xs (λ a i. h a (inr i)))

  pub In-All {κ} : (P : A → Type κ) (a : A) (xs : List A) → All P xs → In a xs → P a
  In-All P a [] h i = absurd i
  In-All P a (x ∷ xs) h (inl q) = subst P (sym q) h.0
  In-All P a (x ∷ xs) h (inr i) = In-All P a xs h.1 i

  pub In-append : (a : A) (xs ys : List A) → In a (xs ++ ys) → In a xs ⊎ In a ys
  In-append a [] ys i = inr i
  In-append a (x ∷ xs) ys (inl e) = inl (inl e)
  In-append a (x ∷ xs) ys (inr i) = elim (In-append a xs ys i) [
    | inl l ↦ inl (inr l)
    | inr r ↦ inr r
  ]

  pub In-append_left : (a : A) (xs ys : List A) → In a xs → In a (xs ++ ys)
  In-append_left a [] ys i = absurd i
  In-append_left a (x ∷ xs) ys (inl e) = inl e
  In-append_left a (x ∷ xs) ys (inr i) = inr (In-append_left a xs ys i)

  pub In-append_right : (a : A) (xs ys : List A) → In a ys → In a (xs ++ ys)
  In-append_right a [] ys i = i
  In-append_right a (x ∷ xs) ys i = inr (In-append_right a xs ys i)

  In-filter_kept :
      (p : A → Bool) (a x : A) (xs : List A)
      → p x ≡ true
      → (In a (filter p xs) → In a xs × (p a ≡ true))
      → (a ≡ x) ⊎ In a (filter p xs)
      → In a (x ∷ xs) × (p a ≡ true)
  In-filter_kept p a x xs t ih (inl e) = (inl e, rw e t)
  In-filter_kept p a x xs t ih (inr j) = let (k, q) = ih j in (inr k, q)

  pub In-filter : (p : A → Bool) (a : A) (xs : List A) → In a (filter p xs) → In a xs × (p a ≡ true)
  unfolding filter
  In-filter p a [] i = absurd i
  In-filter p a (x ∷ xs) i = elim (Bool-cases (p x)) [
    | inl t ↦ In-filter_kept p a x xs t (In-filter p a xs) (rw (t, filter) at i)
    | inr f ↦ let (j, q) = In-filter p a xs (rw (f, filter) at i) in (inr j, q)
  ]

  pub In-filter_intro :
      (p : A → Bool) (a : A) (xs : List A) → In a xs → p a ≡ true → In a (filter p xs)
  unfolding filter
  In-filter_intro p a [] i h = i
  In-filter_intro p a (x ∷ xs) (inl e) h = rw (← e) (rw (h, filter) (inl refl))
  In-filter_intro p a (x ∷ xs) (inr i) h = elim (Bool-cases (p x)) [
    | inl t ↦ rw (t, filter) (inr (In-filter_intro p a xs i h))
    | inr f ↦ rw (f, filter) (In-filter_intro p a xs i h)
  ]

  pub any-In : (p : A → Bool) (xs : List A) → any p xs ≡ true → (a : A) × In a xs × (p a ≡ true)
  unfolding any
  any-In p [] h = absurd (ground arith)
  any-In p (x ∷ xs) h = elim (Bool-cases (p x)) [
    | inl t ↦ (x, inl refl, t)
    | inr f ↦ let (a, i, q) = any-In p xs (rw f at h) in (a, inr i, q)
  ]

  pub In-any : (p : A → Bool) (a : A) (xs : List A) → In a xs → p a ≡ true → any p xs ≡ true
  unfolding any
  In-any p a (x ∷ xs) (inl q) h = rw (← q) (rw h)
  In-any p a (x ∷ xs) (inr i) h = ground (arith, In-any p a xs i h)
  In-any p a [] i h = absurd i

  pub every-In : (p : A → Bool) (a : A) (xs : List A) → every p xs ≡ true → In a xs → p a ≡ true
  unfolding every
  every-In p a [] h i = absurd i
  every-In p a (x ∷ xs) h (inl q) = rw q (ground arith)
  every-In p a (x ∷ xs) h (inr i) = every-In p a xs (ground arith) i

  pub In-every : (p : A → Bool) (xs : List A) → ((a : A) → In a xs → p a ≡ true) → every p xs ≡ true
  unfolding every
  In-every p [] h = refl
  In-every p (x ∷ xs) h = rw (h x (inl refl)) (In-every p xs (λ a i. h a (inr i)))

  pub filter-append :
      (p : A → Bool) (xs ys : List A) → filter p (xs ++ ys) ≡ filter p xs ++ filter p ys
  unfolding filter
  filter-append p [] ys = refl
  filter-append p (x ∷ xs) ys = ground (arith, filter-append p xs ys)

module _ {ℓ} {A : Type ℓ} ⦃e : Eq A⦄ where
  -- `a in xs`
  unfoldable pub contains : A → List A → Bool
  contains a [] = false
  contains a (x ∷ xs) = (a == x) || contains a xs

  -- `set(xs)`: its values, each once, in the fixed order of their last places in `xs`
  unfoldable pub to_set : List A → List A
  to_set [] = []
  to_set (x ∷ xs) = let rest = to_set xs in if contains x xs then rest else x ∷ rest

  abbrev pub Distinct : List A → Type 0
  Distinct [] = Unit
  Distinct (x ∷ xs) = (contains x xs ≡ false) × Distinct xs

  pub contains-append :
      (a : A) (xs ys : List A) → contains a (xs ++ ys) ≡ (contains a xs || contains a ys)
  unfolding contains
  contains-append a [] ys = refl
  contains-append a (x ∷ xs) ys = ground (arith, contains-append a xs ys)

  pub contains-filter :
      (p : A → Bool) (a : A) (xs : List A) → contains a (filter p xs) ≡ (contains a xs && p a)
  unfolding contains filter
  contains-filter p a [] = refl
  contains-filter p a (x ∷ xs) = elim (Bool-cases (a == x)) [
    | inl q ↦
        let same : a ≡ x = (e.reflects a x).0 q in
        rw same (ground (arith, beq_refl x, contains-filter p x xs))
    | inr q ↦ ground (arith, contains-filter p a xs)
  ]

  pub contains-to_set : (a : A) (xs : List A) → contains a (to_set xs) ≡ contains a xs
  unfolding contains to_set
  contains-to_set a [] = refl
  contains-to_set a (x ∷ xs) = elim (Bool-cases (a == x)) [
    | inl q ↦
        let same : a ≡ x = (e.reflects a x).0 q in
        rw same (ground (arith, beq_refl x, contains-to_set x xs))
    | inr q ↦ ground (arith, contains-to_set a xs)
  ]

  pub to_set-Distinct : (xs : List A) → Distinct (to_set xs)
  unfolding to_set
  to_set-Distinct [] = tt
  to_set-Distinct (x ∷ xs) = elim (Bool-cases (contains x xs)) [
    | inl t ↦ rw (t, to_set) (to_set-Distinct xs)
    | inr f ↦ rw (f, to_set) (rw (contains-to_set x xs) f, to_set-Distinct xs)
  ]

module _ {A : Type 0} ⦃e : Eq A⦄ where
  pub contains-In : (a : A) (xs : List A) → contains a xs ≡ true → In a xs
  unfolding contains
  contains-In a [] h = cc
  contains-In a (x ∷ xs) h = elim (Bool-cases (a == x)) [
    | inl q ↦ inl ((e.reflects a x).0 q)
    | inr q ↦ inr (contains-In a xs (ground arith))
  ]

  pub In-contains : (a : A) (xs : List A) → In a xs → contains a xs ≡ true
  unfolding contains
  In-contains a [] i = absurd i
  In-contains a (x ∷ xs) (inl q) = rw q (ground (arith, beq_refl x))
  In-contains a (x ∷ xs) (inr i) = ground (arith, In-contains a xs i)

pub cons-cases {ℓ} : {A : Type ℓ} (l : List A) → (l ≡ []) ⊎ ((x : A) × (xs : List A) × (l ≡ x ∷ xs))
cons-cases [] = inl refl
cons-cases (x ∷ xs) = inr (x, xs, refl)

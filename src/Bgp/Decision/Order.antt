-- ===== src/Bgp/Decision/Order.antt =====
-- The order of texts and of column values, and what `lowest_med` and `with_lowest_med` choose by it.
use ixp_irc.Prelude.{
  true, false, List, [], ◌∷◌, ◌≡◌, ◌≢◌, refl, sym, arith, Bool-cases, inl, inr, ◌⊎◌, In, In-filter,
  In-filter_intro, list_beq_iff, either, ok, filter, nat_eq, list_eq,
}
use ixp_irc.Bgp.Text.{Text}
use ixp_irc.Bgp.Rib.{Scalar, null, number, text, Route}
use ixp_irc.Bgp.Decision.{text_lt, scalar_lt, scalar_eq, lowest_med, with_lowest_med}

pub text_lt_ntrans :
    (a b c : Text) → text_lt b a ≡ false → text_lt c b ≡ false → text_lt c a ≡ false
unfolding text_lt
text_lt_ntrans [] [] [] h k = refl
text_lt_ntrans [] [] (z ∷ c) h k = refl
text_lt_ntrans [] (y ∷ b) [] h k = cc
text_lt_ntrans [] (y ∷ b) (z ∷ c) h k = refl
text_lt_ntrans (x ∷ a) [] c h k = cc
text_lt_ntrans (x ∷ a) (y ∷ b) [] h k = cc
text_lt_ntrans (x ∷ a) (y ∷ b) (z ∷ c) h k = ground (arith, text_lt_ntrans a b c)

pub text_lt_irrefl : (a : Text) → text_lt a a ≡ false
unfolding text_lt
text_lt_irrefl [] = refl
text_lt_irrefl (x ∷ a) = ground (arith, text_lt_irrefl a)

-- Texts of which neither is less are equal.
pub text_eq_of_not_lt : (a b : Text) → text_lt a b ≡ false → text_lt b a ≡ false → a ≡ b
unfolding text_lt
text_eq_of_not_lt [] [] h k = refl
text_eq_of_not_lt [] (y ∷ b) h k = cc
text_eq_of_not_lt (x ∷ a) [] h k = cc
text_eq_of_not_lt (x ∷ a) (y ∷ b) h k = ground (arith, text_eq_of_not_lt a b)

not_lt_null : (c : Scalar) → scalar_lt c null ≡ false
unfolding scalar_lt
not_lt_null null = refl
not_lt_null (number n) = refl
not_lt_null (text t) = refl

pub scalar_lt_ntrans :
    (a b c : Scalar) → scalar_lt b a ≡ false → scalar_lt c b ≡ false → scalar_lt c a ≡ false
unfolding scalar_lt
scalar_lt_ntrans (text s) (text t) (text u) h k = text_lt_ntrans s t u h k
scalar_lt_ntrans (number l) (number m) (number n) h k = ground arith
scalar_lt_ntrans null b c h k = not_lt_null c
scalar_lt_ntrans _ _ _ h k = ground arith

pub scalar_lt_irrefl : (a : Scalar) → scalar_lt a a ≡ false
unfolding scalar_lt
scalar_lt_irrefl null = refl
scalar_lt_irrefl (number n) = ground arith
scalar_lt_irrefl (text t) = text_lt_irrefl t

pub text_lt_asym : (a b : Text) → text_lt a b ≡ true → text_lt b a ≡ false
unfolding text_lt
text_lt_asym [] [] h = cc
text_lt_asym [] (y ∷ b) h = refl
text_lt_asym (x ∷ a) [] h = cc
text_lt_asym (x ∷ a) (y ∷ b) h = ground (arith, text_lt_asym a b)

scalar_lt_asym : (a b : Scalar) → scalar_lt a b ≡ true → scalar_lt b a ≡ false
unfolding scalar_lt
scalar_lt_asym (text s) (text t) h = text_lt_asym s t h
scalar_lt_asym (number m) (number n) h = ground arith
scalar_lt_asym null b h = not_lt_null b
scalar_lt_asym _ _ h = ground arith

scalar_eq→eq : (a b : Scalar) → scalar_eq a b ≡ true → a ≡ b
unfolding scalar_eq
scalar_eq→eq null null h = refl
scalar_eq→eq (number m) (number n) h = ground arith
scalar_eq→eq (text s) (text t) h = ground (arith, list_beq_iff s t)
scalar_eq→eq _ _ h = cc

-- Values of which neither is less are equal.
scalar_eq_of_not_lt :
    (a b : Scalar) → scalar_lt a b ≡ false → scalar_lt b a ≡ false → scalar_eq a b ≡ true
unfolding scalar_eq scalar_lt
scalar_eq_of_not_lt null null h k = refl
scalar_eq_of_not_lt (number m) (number n) h k = ground arith
scalar_eq_of_not_lt (text s) (text t) h k = (list_beq_iff s t).1 (text_eq_of_not_lt s t h k)
scalar_eq_of_not_lt _ _ h k = ground arith

-- No route has a MED below `l`, and one has `l`.
record IsLowest (m l : Scalar) (rs : List Route) : Type 0 where
  below_start : scalar_lt m l ≡ false
  below : (r : Route) → In r rs → scalar_lt r.med l ≡ false
  attained : (l ≡ m) ⊎ ((r : Route) × In r rs × (r.med ≡ l))

lowest_med-IsLowest : (m : Scalar) (rs : List Route) → IsLowest m (lowest_med m rs) rs
unfolding lowest_med
lowest_med-IsLowest m [] = record {
  below_start = scalar_lt_irrefl m;
  below = λ r i. absurd i;
  attained = inl refl;
}
lowest_med-IsLowest m (r ∷ rs) = elim (Bool-cases (scalar_lt r.med m)) [
  | inl t ↦ rw t (lower t (lowest_med-IsLowest r.med rs))
  | inr f ↦ rw f (same f (lowest_med-IsLowest m rs))
]
  where
    lower : {l : Scalar} → scalar_lt r.med m ≡ true → IsLowest r.med l rs → IsLowest m l (r ∷ rs)
    lower {l} t s = record {
      below_start = scalar_lt_ntrans l r.med m s.below_start (scalar_lt_asym r.med m t);
      below = λ x i. either (λ q. rw q s.below_start) (s.below x) i;
      attained = elim s.attained [
        | inl q ↦ inr (r, inl refl, sym q)
        | inr (x, i, q) ↦ inr (x, inr i, q)
      ];
    }

    same : {l : Scalar} → scalar_lt r.med m ≡ false → IsLowest m l rs → IsLowest m l (r ∷ rs)
    same {l} f s = record {
      below_start = s.below_start;
      below = λ x i. either (λ q. rw q (scalar_lt_ntrans l m r.med s.below_start f)) (s.below x) i;
      attained = elim s.attained [ inl q ↦ inl q | inr (x, i, q) ↦ inr (x, inr i, q) ];
    }

-- The route's MED is not above that of any route of the list.
abbrev pub HasLowestMed : Route → List Route → Type 0
HasLowestMed r l = (r' : Route) → In r' l → scalar_lt r'.med r.med ≡ false

pub record KeepsLowest (l kept : List Route) : Type 0 where
  pub sound : (r : Route) → In r kept → In r l × HasLowestMed r l
  pub complete : (r : Route) → In r l → HasLowestMed r l → In r kept

-- Of a list that is not empty, the routes with the lowest MED are kept.
pub with_lowest_med-KeepsLowest :
    (l : List Route)
    → l ≢ []
    → (kept : List Route) × (with_lowest_med l ≡ ok kept) × KeepsLowest l kept
unfolding with_lowest_med
with_lowest_med-KeepsLowest [] h = absurd (h refl)
with_lowest_med-KeepsLowest (r ∷ rs) h = (
  filter (λ x. scalar_eq x.med lowest) (r ∷ rs),
  refl,
  record {
    sound = λ x i.
        let (j, q) = In-filter (λ (y : Route). scalar_eq y.med lowest) x (r ∷ rs) i in
        (j, λ y k. rw (scalar_eq→eq x.med lowest q) (all_above y k));
    complete = λ x i low.
        In-filter_intro (λ (y : Route). scalar_eq y.med lowest) x (r ∷ rs) i
          (scalar_eq_of_not_lt x.med lowest (all_above x i) (attained_by x low s.attained));
  },
)
  where
    lowest : Scalar
    lowest = lowest_med r.med rs

    s : IsLowest r.med lowest rs
    s = lowest_med-IsLowest r.med rs

    all_above : (y : Route) → In y (r ∷ rs) → scalar_lt y.med lowest ≡ false
    all_above y (inl q) = rw q s.below_start
    all_above y (inr i) = s.below y i

    attained_by :
        (x : Route)
        → HasLowestMed x (r ∷ rs)
        → (lowest ≡ r.med) ⊎ ((y : Route) × In y rs × (y.med ≡ lowest))
        → scalar_lt lowest x.med ≡ false
    attained_by x low (inl q) = rw q (low r (inl refl))
    attained_by x low (inr (y, i, q)) = rw (← q) (low y (inr i))

-- Some route has the lowest MED.
pub HasLowestMed-exists : (l : List Route) → l ≢ [] → (r : Route) × In r l × HasLowestMed r l
HasLowestMed-exists [] h = absurd (h refl)
HasLowestMed-exists (r ∷ rs) h = go s.attained
  where
    lowest : Scalar
    lowest = lowest_med r.med rs

    s : IsLowest r.med lowest rs
    s = lowest_med-IsLowest r.med rs

    above : (y : Route) → In y (r ∷ rs) → scalar_lt y.med lowest ≡ false
    above y (inl q) = rw q s.below_start
    above y (inr i) = s.below y i

    go :
        (lowest ≡ r.med) ⊎ ((y : Route) × In y rs × (y.med ≡ lowest))
        → (y : Route) × In y (r ∷ rs) × HasLowestMed y (r ∷ rs)
    go (inl q) = (r, inl refl, λ y i. rw (← q) (above y i))
    go (inr (x, i, q)) = (x, inr i, λ y j. rw q (above y j))

-- ===== src/SetOperations/Round.antt =====
-- The round of `decompose_simpler` for one key: it never raises, and it is `refine` with the set
-- that all groups with the key share.
use ixp_irc.Prelude.{
  Bool, true, false, ◌&&◌, List, [], ◌∷◌, ◌++◌, map, Eq, ◌≡◌, refl, sym, ap, ◌∙◌, arith, length,
  filter, filter-append, any, every, contains, contains-filter, contains-to_set, to_set, ltb,
  if◌then◌else◌, keys, ok, if_ok, Bool-cases, inl, inr, Distinct, All-lookup, In, In-any, In-filter,
  In-filter_intro, every-In,
}
use ixp_irc.SetOperations.{
  Group, items, Part2Prefix, has, inter_from, intersection, all_groups, gather, decompose_set,
  is_single, decompose_key,
}
use ixp_irc.SetOperations.Step.{common, refine, split_all-gather, gather-Distinct, Apart-nil}

module _ {P : Type 0} ⦃e : Eq P⦄ where
  contains-inter_from :
      (a : P) (s : List P) (ts : List (List P))
      → contains a (inter_from s ts) ≡ (contains a s && every (contains a) ts)
  unfolding inter_from every
  contains-inter_from a s [] = ground arith
  contains-inter_from a s (t ∷ ts) = ground (
    arith,
    contains-inter_from a (filter (λ x. contains x t) s) ts,
    contains-filter (λ x. contains x t) a s,
  )

  every-map-items :
      (a : P) (gs : List (Group P))
      → every (contains a) (map (λ h. to_set (items h)) gs) ≡ every (has a) gs
  unfolding every
  every-map-items a [] = refl
  every-map-items a (g ∷ gs) = ground (arith, contains-to_set a (items g), every-map-items a gs)

  -- A value is common when some group has it and all have it.
  pub contains-common :
      (a : P) (g : Group P) (gs : List (Group P))
      → contains a (common (g ∷ gs)) ≡ every (has a) (g ∷ gs)
  unfolding common every
  contains-common a g gs =
      contains-inter_from a (to_set (items g)) (map (λ h. to_set (items h)) gs)
      ∙ ground (arith, contains-to_set a (items g), every-map-items a gs)

  every-filter : (p : Group P → Bool) (gs : List (Group P)) → every p (filter p gs) ≡ true
  unfolding every filter
  every-filter p [] = refl
  every-filter p (g ∷ gs) = ground (arith, every-filter p gs)

  pub filter_empty :
      (p : Group P → Bool) (gs : List (Group P))
      → ltb 0 (length (filter p gs)) ≡ false
      → filter p gs ≡ []
  filter_empty p gs h = go (filter p gs) h
    where
      go : (l : List (Group P)) → ltb 0 (length l) ≡ false → l ≡ []
      go [] q = refl
      go (x ∷ l) q = absurd (ground arith)

  pub filter-cons_of_length :
      (p : Group P → Bool) (gs : List (Group P))
      → ltb 0 (length (filter p gs)) ≡ true
      → (g : Group P) × In g gs × (p g ≡ true)
  filter-cons_of_length p gs h = go (filter p gs) refl h
    where
      go :
          (l : List (Group P))
          → filter p gs ≡ l
          → ltb 0 (length l) ≡ true
          → (g : Group P) × In g gs × (p g ≡ true)
      go [] q h' = absurd (ground arith)
      go (x ∷ l) q h' = let (i, t) = In-filter p x gs (rw q (inl refl)) in (x, i, t)

  filter-cons_of_any :
      (p : Group P → Bool) (gs : List (Group P))
      → any p gs ≡ true
      → (g : Group P) × (l : List (Group P)) × (filter p gs ≡ g ∷ l)
  unfolding any filter
  filter-cons_of_any p [] h = absurd (ground arith)
  filter-cons_of_any p (g ∷ gs) h = elim (Bool-cases (p g)) [
    | inl t ↦ (g, filter p gs, rw (t, filter))
    | inr f ↦ let (g', l, q) = filter-cons_of_any p gs (rw f at h) in (g', l, rw (f, filter) q)
  ]

  length-pos_of_contains : (a : P) (xs : List P) → contains a xs ≡ true → ltb 0 (length xs) ≡ true
  unfolding contains
  length-pos_of_contains a [] h = cc
  length-pos_of_contains a (x ∷ xs) h = ground arith

module _ {N P : Type 0} ⦃n : Eq N⦄ ⦃e : Eq P⦄ where
  pub all_groups-gather :
      (k : P) (d : Part2Prefix N P) → all_groups (gather k d) ≡ filter (has k) (all_groups d)
  unfolding all_groups gather filter
  all_groups-gather k [] = refl
  all_groups-gather k ((p, gs) ∷ d) = elim (Bool-cases (ltb 0 (length (filter (has k) gs)))) [
    | inl t ↦
        rw (t, gather)
          (rw (filter-append (has k) gs (all_groups d))
            (ap (◌++◌ (filter (has k) gs)) (all_groups-gather k d)))
    | inr f ↦
        rw (f, gather)
          (rw (filter-append (has k) gs (all_groups d))
            (rw (filter_empty (has k) gs f) (all_groups-gather k d)))
  ]

  -- the set shared by the groups that hold the key
  unfoldable pub shared : P → Part2Prefix N P → List P
  shared k d = common (filter (has k) (all_groups d))

  pub contains-shared_self :
      (k : P) (d : Part2Prefix N P)
      → any (has k) (all_groups d) ≡ true
      → contains k (shared k d) ≡ true
  unfolding shared
  contains-shared_self k d h =
      let (g, l, q) = filter-cons_of_any (has k) (all_groups d) h in
      rw q (contains-common k g l ∙ rw (sym q) (every-filter (has k) (all_groups d)))

  pub shared-every :
      (k a : P) (g : Group P) (d : Part2Prefix N P)
      → In g (all_groups d)
      → has k g ≡ true
      → contains a (shared k d) ≡ every (has a) (filter (has k) (all_groups d))
  unfolding shared
  shared-every k a g d i held =
      let (g', l, q) =
        filter-cons_of_any (has k) (all_groups d) (In-any (has k) g (all_groups d) i held) in
      rw q (contains-common a g' l)

  -- What is shared stands in every group that holds the key.
  pub contains-shared :
      (k a : P) (g : Group P) (d : Part2Prefix N P)
      → In g (all_groups d)
      → has k g ≡ true
      → contains a (shared k d) ≡ true
      → has a g ≡ true
  contains-shared k a g d i held h =
      every-In (has a) g (filter (has k) (all_groups d)) (sym (shared-every k a g d i held) ∙ h)
        (In-filter_intro (has k) g (all_groups d) i held)

  intersection-gather :
      (k : P) (d : Part2Prefix N P)
      → any (has k) (all_groups d) ≡ true
      → intersection (map (λ g. to_set (items g)) (all_groups (gather k d))) ≡ ok (shared k d)
  unfolding intersection shared common
  intersection-gather k d h =
      let (g, l, q) = filter-cons_of_any (has k) (all_groups d) h in
      rw (all_groups-gather k d) (rw q)

  pub decompose_key_lem :
      (k : P) (d : Part2Prefix N P)
      → Distinct (keys d)
      → any (has k) (all_groups d) ≡ true
      → decompose_key k d ≡ ok (if is_single (gather k d) then d else refine k (shared k d) d)
  unfolding decompose_key decompose_set
  decompose_key_lem k d h some_group =
      let (t, eq) =
        split_all-gather k (shared k d) (gather k d) [] d (Apart-nil d h)
          (All-lookup (gather k d) (gather-Distinct k d h)) in
      rw (intersection-gather k d some_group) (
        rw (length-pos_of_contains k (shared k d) (contains-shared_self k d some_group))
          (rw eq (if_ok (is_single (gather k d)) d (refine k (shared k d) d))))

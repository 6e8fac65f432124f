-- ===== src/SetOperations/Progress.antt =====
-- What one round, and so every sequence of rounds, keeps: the participants and their prefixes,
-- the prefixes that are settled, and those that no group tells apart.
use ixp_irc.Prelude.{
  Bool, true, false, List, [], ◌∷◌, Eq, ◌≡◌, refl, ap, ◌∙◌, arith, filter, any, every, contains,
  Bool-cases, inl, inr, In, In-filter, In-append_left, In-append_right, lookup, none, some, keys,
  Distinct, ok, All, ◌==◌, either,
}
use ixp_irc.SetOperations.{
  Group, Part2Prefix, has, all_groups, gather, is_single, decompose_key, decompose_keys,
}
use ixp_irc.SetOperations.Step.{refine}
use ixp_irc.SetOperations.Round.{shared, contains-shared, shared-every, decompose_key_lem}
use ixp_irc.SetOperations.Origin.{Origin, kept, common_part, rest_part, In-refine}
use ixp_irc.SetOperations.Cover.{any-regroup, any-refine}
use ixp_irc.SetOperations.Partition.{Settled, refine-Settled, refine-Settled_self, single-Settled}

module _ {P : Type 0} ⦃e : Eq P⦄ where
  -- No group tells the two prefixes apart.
  abbrev pub Together : P → P → List (Group P) → Type 0
  Together x y gs = (g : Group P) → In g gs → has x g ≡ has y g

  every-Together :
      (x y : P) (l : List (Group P)) → Together x y l → every (has x) l ≡ every (has y) l
  unfolding every
  every-Together x y [] same = refl
  every-Together x y (g ∷ l) same =
      ground (arith, same g (inl refl), every-Together x y l (λ h i. same h (inr i)))

module _ {N P : Type 0} ⦃n : Eq N⦄ ⦃e : Eq P⦄ where
  -- The participant has a group with the prefix.
  unfoldable pub owns : Part2Prefix N P → N → P → Bool
  owns d p a = elim (lookup p d) [ none ↦ false | some gs ↦ any (has a) gs ]

  pub record Progress (d d' : Part2Prefix N P) : Type 0 where
    pub names : keys d' ≡ keys d
    pub same_prefixes : (p : N) (a : P) → owns d' p a ≡ owns d p a
    pub occurs : (a : P) → any (has a) (all_groups d') ≡ any (has a) (all_groups d)
    pub settled : (j : P) → Settled j (all_groups d) → Settled j (all_groups d')
    pub together : (x y : P) → Together x y (all_groups d) → Together x y (all_groups d')

  pub Progress-refl : (d : Part2Prefix N P) → Progress d d
  Progress-refl d = record {
    names = refl;
    same_prefixes = λ p a. refl;
    occurs = λ a. refl;
    settled = λ j s. s;
    together = λ x y t. t;
  }

  pub Progress-trans : {c d f : Part2Prefix N P} → Progress c d → Progress d f → Progress c f
  Progress-trans s t = record {
    names = t.names ∙ s.names;
    same_prefixes = λ p a. t.same_prefixes p a ∙ s.same_prefixes p a;
    occurs = λ a. t.occurs a ∙ s.occurs a;
    settled = λ j u. t.settled j (s.settled j u);
    together = λ x y u. t.together x y (s.together x y u);
  }

  keys-refine : (k : P) (m : List P) (d : Part2Prefix N P) → keys (refine k m d) ≡ keys d
  unfolding refine
  keys-refine k m [] = refl
  keys-refine k m ((p, gs) ∷ d) = ap (◌∷◌ p) (keys-refine k m d)

  owns-refine :
      (k : P) (m : List P) (a : P) (p : N) (d : Part2Prefix N P)
      → ((g : Group P)
          → In g (all_groups d)
          → has k g ≡ true
          → contains a m ≡ true
          → has a g ≡ true)
      → owns (refine k m d) p a ≡ owns d p a
  unfolding refine owns lookup all_groups
  owns-refine k m a p [] sub = refl
  owns-refine k m a p ((q, gs) ∷ d) sub = elim (Bool-cases (p == q)) [
    | inl t ↦
        rw (t, owns) (any-regroup a k m gs (λ g i. sub g (In-append_left g gs (all_groups d) i)))
    | inr f ↦
        rw (f, owns) (owns-refine k m a p d (λ g i. sub g (In-append_right g gs (all_groups d) i)))
  ]

  shared-Together :
      (k : P) (d : Part2Prefix N P) (g : Group P)
      → In g (all_groups d)
      → has k g ≡ true
      → (x y : P) → Together x y (all_groups d)
      → contains x (shared k d) ≡ contains y (shared k d)
  shared-Together k d g i t x y same =
      rw (shared-every k x g d i t, shared-every k y g d i t)
        (every-Together x y (filter (has k) (all_groups d))
          (λ h j. same h (In-filter (has k) h (all_groups d) j).0))

  refine-Together :
      (k : P) (d : Part2Prefix N P) (x y : P)
      → Together x y (all_groups d)
      → Together x y (all_groups (refine k (shared k d) d))
  refine-Together k d x y same h i = go (In-refine k (shared k d) h d i)
    where
      go : Origin k (shared k d) (all_groups d) h → has x h ≡ has y h
      go (kept j f) = same h j
      go (common_part g j t q) = rw q (shared-Together k d g j t x y same)
      go (rest_part g j t q) =
          ground (arith, q x, q y, same g j, shared-Together k d g j t x y same)

  refine-Progress :
      (k : P) (d : Part2Prefix N P)
      → any (has k) (all_groups d) ≡ true
      → Progress d (refine k (shared k d) d)
  refine-Progress k d h = record {
    names = keys-refine k (shared k d) d;
    same_prefixes = λ p a. owns-refine k (shared k d) a p d (λ g. contains-shared k a g d);
    occurs = λ a. any-refine a k (shared k d) d (λ g. contains-shared k a g d);
    settled = refine-Settled k d h;
    together = refine-Together k d;
  }

  decompose_key-Progress :
      (k : P) (d : Part2Prefix N P)
      → Distinct (keys d)
      → any (has k) (all_groups d) ≡ true
      → (d' : Part2Prefix N P) × (decompose_key k d ≡ ok d')
        × Progress d d'
        × Settled k (all_groups d')
  decompose_key-Progress k d h some_group = elim (Bool-cases (is_single (gather k d))) [
    | inl t ↦ (d, decompose_key_lem k d h some_group ∙ rw t, Progress-refl d, single-Settled k d t)
    | inr f ↦ (
      refine k (shared k d) d,
      decompose_key_lem k d h some_group ∙ rw f,
      refine-Progress k d some_group,
      refine-Settled_self k d some_group,
    )
  ]

  -- The loop over the keys: it never raises, and settles each of them.
  pub decompose_keys-Progress :
      (ks : List P) (d : Part2Prefix N P)
      → Distinct (keys d)
      → All (λ k. any (has k) (all_groups d) ≡ true) ks
      → (d' : Part2Prefix N P) × (decompose_keys ks d ≡ ok d')
        × Progress d d'
        × ((j : P) → In j ks → Settled j (all_groups d'))
  unfolding decompose_keys
  decompose_keys-Progress [] d h occ = (d, refl, Progress-refl d, λ j i. absurd i)
  decompose_keys-Progress (k ∷ ks) d h occ =
      let (d1, e1, p1, s1) = decompose_key-Progress k d h occ.0 in
      let (d2, e2, p2, s2) =
        decompose_keys-Progress ks d1 (rw p1.names h) (All_transfer p1 ks occ.1) in
      (d2, rw e1 e2, Progress-trans p1 p2, λ j. either (λ q. p2.settled j (rw q s1)) (s2 j))
    where
      All_transfer :
          {c f : Part2Prefix N P}
          → Progress c f
          → (l : List P) → All (λ k. any (has k) (all_groups c) ≡ true) l
          → All (λ k. any (has k) (all_groups f) ≡ true) l
      All_transfer p [] a = tt
      All_transfer p (x ∷ l) a = (p.occurs x ∙ a.0, All_transfer p l a.1)

-- ===== src/SetOperations/Partition.antt =====
-- The groups that `decompose_simpler` leaves are equal or disjoint, over all participants.
use ixp_irc.Prelude.{
  true, false, ◌&&◌, not, List, [], ◌∷◌, Eq, ◌≡◌, refl, sym, ◌∙◌, arith, filter, any, contains, In,
  In-filter_intro, either,
}
use ixp_irc.SetOperations.{Group, as_set, Part2Prefix, has, all_groups, gather, is_single}
use ixp_irc.SetOperations.Step.{refine}
use ixp_irc.SetOperations.Round.{all_groups-gather, shared, contains-shared_self, contains-shared}
use ixp_irc.SetOperations.Origin.{Origin, kept, common_part, rest_part, In-refine}

In-singleton : {A : Type 0} {g x : A} {l : List A} → l ≡ x ∷ [] → In g l → g ≡ x
In-singleton q i = either (λ s. s) (λ z. absurd z) (rw q at i)

module _ {P : Type 0} ⦃e : Eq P⦄ where
  abbrev pub Same : Group P → Group P → Type 0
  Same g h = (a : P) → has a g ≡ has a h

  -- Any two groups that hold `j` hold the same values.
  abbrev pub Settled : P → List (Group P) → Type 0
  Settled j gs = (g h : Group P) → In g gs → In h gs → has j g ≡ true → has j h ≡ true → Same g h

module _ {N P : Type 0} ⦃n : Eq N⦄ ⦃e : Eq P⦄ (k : P) (d : Part2Prefix N P)
    (some_group : any (has k) (all_groups d) ≡ true) where
  abbrev After : Group P → Type 0
  After h = Origin k (shared k d) (all_groups d) h

  -- only the shared set holds the key
  has-k-After : (h : Group P) → After h → has k h ≡ true → h ≡ as_set (shared k d)
  has-k-After h (kept i f) t = cc
  has-k-After h (common_part g i held q) t = q
  has-k-After h (rest_part g i held q) t =
      absurd (ground (arith, q k, contains-shared_self k d some_group))

  pub refine-Settled_self : Settled k (all_groups (refine k (shared k d) d))
  refine-Settled_self g h i j s t a =
      rw (has-k-After g (In-refine k _ g d i) s, has-k-After h (In-refine k _ h d j) t)

  module _ (j : P) (settled : Settled j (all_groups d)) where
    -- the shared set holds `j` only if each old group with the key does
    has-j-shared :
        (g h : Group P)
        → In g (all_groups d)
        → has k g ≡ true
        → h ≡ as_set (shared k d)
        → has j h ≡ true
        → has j g ≡ true
    has-j-shared g h i held q t = contains-shared k j g d i held (rw q at t)

    -- `j` does not stand both in a group without the key and in one with it
    apart :
        (g h : Group P)
        → In g (all_groups d)
        → In h (all_groups d)
        → has k g ≡ false
        → has k h ≡ true
        → has j g ≡ true
        → has j h ≡ true
        → ⊥
    apart g h i i' f held s t = ground (arith, settled g h i i' s t k)

    -- nor both in the shared set and in what it leaves of a group
    not_both :
        (g h h' : Group P)
        → h ≡ as_set (shared k d)
        → ((a : P) → has a h' ≡ (has a g && not (contains a (shared k d))))
        → has j h ≡ true
        → has j h' ≡ true
        → ⊥
    not_both g h h' q r s t =
        let m : contains j (shared k d) ≡ true = rw q at s in ground (arith, r j)

    in_rest :
        (g h : Group P)
        → ((a : P) → has a h ≡ (has a g && not (contains a (shared k d))))
        → has j h ≡ true
        → has j g ≡ true
    in_rest g h r t = ground (arith, r j)

    Settled-After : (g h : Group P) → After g → After h → has j g ≡ true → has j h ≡ true → Same g h
    Settled-After g h (kept i f) (kept i' f') s t = settled g h i i' s t
    Settled-After g h (kept i f) (common_part h' i' held q) s t =
        absurd (apart g h' i i' f held s (has-j-shared h' h i' held q t))
    Settled-After g h (kept i f) (rest_part h' i' held q) s t =
        absurd (apart g h' i i' f held s (in_rest h' h q t))
    Settled-After g h (common_part g' i held q) (kept i' f) s t =
        absurd (apart h g' i' i f held t (has-j-shared g' g i held q s))
    Settled-After g h (common_part g' i held q) (common_part h' i' held' q') s t = λ a. rw (q, q')
    Settled-After g h (common_part g' i held q) (rest_part h' i' held' q') s t =
        absurd (not_both h' g h q q' s t)
    Settled-After g h (rest_part g' i held q) (kept i' f) s t =
        absurd (apart h g' i' i f held t (in_rest g' g q s))
    Settled-After g h (rest_part g' i held q) (common_part h' i' held' q') s t =
        absurd (not_both g' h g q' q t s)
    Settled-After g h (rest_part g' i held q) (rest_part h' i' held' q') s t =
        λ a. ground (arith, q a, q' a, settled g' h' i i' (in_rest g' g q s) (in_rest h' h q' t) a)

    pub refine-Settled : Settled j (all_groups (refine k (shared k d) d))
    refine-Settled g h i i' = Settled-After g h (In-refine k _ g d i) (In-refine k _ h d i')

-- a single group holds the key
module _ {N P : Type 0} ⦃n : Eq N⦄ ⦃e : Eq P⦄ where
  all_groups-is_single :
      (t : Part2Prefix N P) → is_single t ≡ true → (x : Group P) × (all_groups t ≡ x ∷ [])
  unfolding all_groups
  all_groups-is_single [] h = cc
  all_groups-is_single ((p, []) ∷ []) h = absurd (ground arith)
  all_groups-is_single ((p, x ∷ []) ∷ []) h = (x, refl)
  all_groups-is_single ((p, x ∷ y ∷ l) ∷ []) h = absurd (ground arith)
  all_groups-is_single ((p, l) ∷ q ∷ d) h = cc

  pub single-Settled :
      (k : P) (d : Part2Prefix N P) → is_single (gather k d) ≡ true → Settled k (all_groups d)
  single-Settled k d t g h i j s u a =
      let (x, q) = all_groups-is_single (gather k d) t in
      let only : filter (has k) (all_groups d) ≡ x ∷ [] = sym (all_groups-gather k d) ∙ q in
      rw (
        In-singleton only (In-filter_intro (has k) g (all_groups d) i s),
        In-singleton only (In-filter_intro (has k) h (all_groups d) j u),
      )

-- ===== src/SetOperations/Catalogue.antt =====
-- The list `lcs` of the distinct sets of a dictionary's groups.
use ixp_irc.Prelude.{
  Bool, true, false, List, [], ◌∷◌, ◌++◌, Eq, ◌≡◌, refl, sym, ◌∙◌, any, any-In, In-any, contains,
  contains-to_set, In-contains, to_set, Bool-cases, inl, inr, In, In-append, In-append_left,
  In-append_right, All, either, All-In, append_assoc, append-nil, ◌⊎◌, In-All,
}
use ixp_irc.SetOperations.{Group, items, as_set, subset, group_eq, add_sets}
use ixp_irc.SetOperations.Partition.{Settled}
use ixp_irc.SetOperations.Step.{group_eq-has}

module _ {P : Type 0} ⦃e : Eq P⦄ where
  abbrev pub SameSet : List P → List P → Type 0
  SameSet s t = (a : P) → contains a s ≡ contains a t

  abbrev pub DisjointSets : List P → List P → Type 0
  DisjointSets s t = (a : P) → contains a s ≡ true → contains a t ≡ true → ⊥

  -- Each set is disjoint from all that stand behind it.
  abbrev pub PairwiseDisjoint : List (List P) → Type 0
  PairwiseDisjoint [] = Unit
  PairwiseDisjoint (s ∷ l) = All (DisjointSets s) l × PairwiseDisjoint l

  pub record IsCatalogue (gs : List (Group P)) (lcs : List (List P)) : Type 0 where
    pub listed : (g : Group P) → In g gs → (s : List P) × In s lcs × SameSet s (items g)
    pub drawn : (s : List P) → In s lcs → (g : Group P) × In g gs × SameSet s (items g)
    pub disjoint : PairwiseDisjoint lcs

  subset_complete :
      (xs ys : List P) → ((a : P) → In a xs → contains a ys ≡ true) → subset xs ys ≡ true
  unfolding subset
  subset_complete [] ys h = refl
  subset_complete (x ∷ xs) ys h = rw (h x (inl refl)) (subset_complete xs ys (λ a i. h a (inr i)))

  set_eq_of_same : (s t : List P) → SameSet s t → group_eq (as_set s) (as_set t) ≡ true
  set_eq_of_same s t same = rw (
    subset_complete s t (λ a i. sym (same a) ∙ In-contains a s i),
    subset_complete t s (λ a i. same a ∙ In-contains a t i),
  )

  -- the list so far, against the groups that it was drawn from
  PairwiseDisjoint-snoc :
      (l : List (List P)) (s : List P)
      → PairwiseDisjoint l
      → ((t : List P) → In t l → DisjointSets t s)
      → PairwiseDisjoint (l ++ s ∷ [])
  PairwiseDisjoint-snoc [] s d h = (tt, tt)
  PairwiseDisjoint-snoc (t ∷ l) s d h = (
    All-In (l ++ s ∷ []) (λ u i. last_or u (In-append u l (s ∷ []) i)),
    PairwiseDisjoint-snoc l s d.1 (λ u i. h u (inr i)),
  )
    where
      last_or : (u : List P) → In u l ⊎ In u (s ∷ []) → DisjointSets t u
      last_or u (inl i) = In-All (DisjointSets t) u l d.0 i
      last_or u (inr (inl q)) = rw q (h t (inl refl))
      last_or u (inr (inr z)) = absurd z

  module _ (done : List (Group P)) (g : Group P) (lcs : List (List P))
      (c : IsCatalogue done lcs) where
    abbrev tset : List P
    tset = to_set (items g)

    abbrev found : Bool
    found = any (λ h. group_eq (as_set tset) (as_set h)) lcs

    tset-SameSet : SameSet tset (items g)
    tset-SameSet a = contains-to_set a (items g)

    IsCatalogue-old : found ≡ true → IsCatalogue (done ++ g ∷ []) lcs
    IsCatalogue-old t = record {
      listed = λ h i. elim (In-append h done (g ∷ []) i) [
        | inl j ↦ c.listed h j
        | inr j ↦
            let (s, l, q) = any-In (λ s'. group_eq (as_set tset) (as_set s')) lcs t in
            (
              s,
              l,
              λ a.
                  sym (group_eq-has a (as_set tset) (as_set s) q)
                  ∙ tset-SameSet a
                  ∙ either (λ r. rw r) (λ z. absurd z) j,
            )
      ];
      drawn = λ s i. let (h, j, q) = c.drawn s i in (h, In-append_left h done (g ∷ []) j, q);
      disjoint = c.disjoint;
    }

    IsCatalogue-new :
        found ≡ false
        → ((j : P) → Settled j (done ++ g ∷ []))
        → IsCatalogue (done ++ g ∷ []) (lcs ++ tset ∷ [])
    IsCatalogue-new f settled = record {
      listed = λ h i. elim (In-append h done (g ∷ []) i) [
        | inl j ↦ let (s, l, q) = c.listed h j in (s, In-append_left s lcs (tset ∷ []) l, q)
        | inr j ↦ (
          tset,
          In-append_right tset lcs (tset ∷ []) (inl refl),
          λ a. tset-SameSet a ∙ either (λ r. rw r) (λ z. absurd z) j,
        )
      ];
      drawn = λ s i. elim (In-append s lcs (tset ∷ []) i) [
        | inl j ↦ let (h, l, q) = c.drawn s j in (h, In-append_left h done (g ∷ []) l, q)
        | inr j ↦ (
          g,
          In-append_right g done (g ∷ []) (inl refl),
          λ a. either (λ r. rw r (tset-SameSet a)) (λ z. absurd z) j,
        )
      ];
      disjoint = PairwiseDisjoint-snoc lcs tset c.disjoint (λ t i a u v. clash t i a u v);
    }
      where
        clash : (t : List P) → In t lcs → DisjointSets t tset
        clash t i a u v =
            let (h, j, q) = c.drawn t i in
            let same =
              settled a h g (In-append_left h done (g ∷ []) j)
                (In-append_right g done (g ∷ []) (inl refl)) (sym (q a) ∙ u)
                (sym (tset-SameSet a) ∙ v) in
            let equal = set_eq_of_same tset t (λ b. tset-SameSet b ∙ sym (same b) ∙ sym (q b)) in
            cc (In-any (λ s'. group_eq (as_set tset) (as_set s')) t lcs i equal, f)

  Settled-prefix : (j : P) (gs hs : List (Group P)) → Settled j (gs ++ hs) → Settled j gs
  Settled-prefix j gs hs s g h i i' = s g h (In-append_left g gs hs i) (In-append_left h gs hs i')

  pub add_sets-IsCatalogue :
      (gs done : List (Group P)) (lcs : List (List P))
      → ((j : P) → Settled j (done ++ gs))
      → IsCatalogue done lcs
      → IsCatalogue (done ++ gs) (add_sets gs lcs)
  unfolding add_sets
  add_sets-IsCatalogue [] done lcs s c = rw (append-nil done) c
  add_sets-IsCatalogue (g ∷ gs) done lcs s c =
      let s' = λ (j : P). rw (← append_assoc done (g ∷ []) gs) at (s j) in
      elim (Bool-cases (found done g lcs c)) [
        | inl t ↦ rw t (
            rw (append_assoc done (g ∷ []) gs) at
              (add_sets-IsCatalogue gs (done ++ g ∷ []) lcs s' (IsCatalogue-old done g lcs c t)))
        | inr f ↦ rw f (
            rw (append_assoc done (g ∷ []) gs) at (
              add_sets-IsCatalogue gs (done ++ g ∷ []) (lcs ++ tset done g lcs c ∷ []) s' (
                IsCatalogue-new done g lcs c f (λ j. Settled-prefix j (done ++ g ∷ []) gs (s' j)))))
      ]

  pub IsCatalogue-nil : IsCatalogue [] []
  IsCatalogue-nil = record { listed = λ g i. absurd i; drawn = λ s i. absurd i; disjoint = tt }

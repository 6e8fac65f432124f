-- ===== src/SetOperations/Decomposition.antt =====
-- `decompose_simpler` as a whole.
use ixp_irc.Prelude.{
  Bool, true, false, ◌&&◌, List, [], ◌∷◌, Eq, ◌==◌, ◌≡◌, refl, sym, ◌∙◌, arith, any, any-In, In-any,
  contains, contains-append, contains-to_set, contains-In, In-contains, to_set, ltb, length,
  Bool-cases, inl, inr, In, keys, Distinct, ok, All, All-In, subst, ok-injective,
}
use ixp_irc.SetOperations.{
  Group, items, Part2Prefix, has, all_groups, large_items, get_pdict, decompose_simpler, add_sets,
}
use ixp_irc.SetOperations.Partition.{Settled, Same}
use ixp_irc.SetOperations.Progress.{Progress, Together, owns, decompose_keys-Progress}
use ixp_irc.SetOperations.Catalogue.{IsCatalogue, add_sets-IsCatalogue, IsCatalogue-nil}

and_right : (a b : Bool) → (a && b) ≡ true → b ≡ true
and_right a b h = ground arith

module _ {P : Type 0} ⦃e : Eq P⦄ where
  contains-large_items :
      (k : P) (gs : List (Group P))
      → contains k (large_items gs) ≡ any (λ g. ltb 1 (length (items g)) && has k g) gs
  unfolding contains large_items any
  contains-large_items k [] = refl
  contains-large_items k (g ∷ gs) =
      ground (arith, contains-append k (items g) (large_items gs), contains-large_items k gs)

  large_items-occurs :
      (k : P) (gs : List (Group P)) → contains k (large_items gs) ≡ true → any (has k) gs ≡ true
  large_items-occurs k gs h =
      let (g, i, q) =
        any-In (λ g. ltb 1 (length (items g)) && has k g) gs
          (sym (contains-large_items k gs) ∙ h) in
      In-any (has k) g gs i (and_right (ltb 1 (length (items g))) (has k g) q)

  -- A group with at most one item and the key holds the key alone.
  alone :
      (k a : P) (l : List P)
      → ltb 1 (length l) ≡ false
      → contains k l ≡ true
      → contains a l ≡ (a == k)
  unfolding contains
  alone k a [] h t = cc
  alone k a (x ∷ []) h t = let q : k ≡ x = (e.reflects k x).0 (ground arith) in rw q (ground arith)
  alone k a (x ∷ y ∷ l) h t = absurd (ground arith)

  small-Settled : (k : P) (gs : List (Group P)) → contains k (large_items gs) ≡ false → Settled k gs
  small-Settled k gs absent g h i j s t a =
      alone k a (items g) (small g i s) s ∙ sym (alone k a (items h) (small h j t) t)
    where
      small : (g : Group P) → In g gs → has k g ≡ true → ltb 1 (length (items g)) ≡ false
      small g i s = elim (Bool-cases (ltb 1 (length (items g)))) [
        | inl large ↦ cc (
          absent,
          contains-large_items k gs,
          In-any (λ g'. ltb 1 (length (items g')) && has k g') g gs i (rw (large, s)),
        )
        | inr few ↦ few
      ]

module _ {N P : Type 0} ⦃n : Eq N⦄ ⦃e : Eq P⦄ where
  -- The keys of the round trip over `get_pdict` all occur.
  get_pdict-occurs :
      (d : Part2Prefix N P) → All (λ k. any (has k) (all_groups d) ≡ true) (get_pdict d)
  unfolding get_pdict
  get_pdict-occurs d = All-In (to_set (large_items (all_groups d))) λ k i.
      large_items-occurs k (all_groups d)
        (sym (contains-to_set k (large_items (all_groups d))) ∙ In-contains k _ i)

  -- What `decompose_simpler` promises of the new dictionary and of the list of sets.
  pub record IsDecomposition (d d' : Part2Prefix N P) (lcs : List (List P)) : Type 0 where
    pub progress : Progress d d'
    pub settled : (j : P) → Settled j (all_groups d')
    pub catalogue : IsCatalogue (all_groups d') lcs

  pub decompose_simpler-IsDecomposition :
      (d : Part2Prefix N P)
      → Distinct (keys d)
      → (d' : Part2Prefix N P) × (lcs : List (List P)) × (decompose_simpler d ≡ ok (d', lcs))
        × IsDecomposition d d' lcs
  unfolding decompose_simpler get_pdict
  decompose_simpler-IsDecomposition d h =
      let (d', eq, p, s) = decompose_keys-Progress (get_pdict d) d h (get_pdict-occurs d) in
      let all_settled : ((j : P) → Settled j (all_groups d')) = λ j.
        elim (Bool-cases (contains j (get_pdict d))) [
          | inl t ↦ s j (contains-In j (get_pdict d) t)
          | inr f ↦ p.settled j (
              small-Settled j (all_groups d)
                (sym (contains-to_set j (large_items (all_groups d))) ∙ f))
        ] in
      (
        d',
        add_sets (all_groups d') [],
        rw eq,
        record {
          progress = p;
          settled = all_settled;
          catalogue = add_sets-IsCatalogue (all_groups d') [] [] all_settled IsCatalogue-nil;
        },
      )

  IsDecomposition-of :
      (d : Part2Prefix N P) {r : Part2Prefix N P × List (List P)}
      → Distinct (keys d)
      → decompose_simpler d ≡ ok r
      → IsDecomposition d r.0 r.1
  IsDecomposition-of d {r} h eq =
      let (d', lcs, eq', dec) = decompose_simpler-IsDecomposition d h in
      subst (λ (s : Part2Prefix N P × List (List P)). IsDecomposition d s.0 s.1)
        (ok-injective (sym eq' ∙ eq)) dec

  -- On a dictionary, whose keys are distinct, `decompose_simpler` returns a result: none of its
  -- calls of `remove`, `set.intersection` and `[]` raises.
  pub decompose_simpler_total :
      (d : Part2Prefix N P)
      → Distinct (keys d)
      → (r : Part2Prefix N P × List (List P)) × (decompose_simpler d ≡ ok r)
  decompose_simpler_total d h =
      let (d', lcs, eq, _) = decompose_simpler-IsDecomposition d h in ((d', lcs), eq)

  -- If `decompose_simpler` returns, the participants are the same ones in the same order, and each
  -- of them has a group with a prefix exactly if it had one before.
  pub decompose_simpler-owns :
      (d : Part2Prefix N P) {r : Part2Prefix N P × List (List P)}
      → Distinct (keys d)
      → decompose_simpler d ≡ ok r
      → (keys r.0 ≡ keys d) × ((p : N) (a : P) → owns r.0 p a ≡ owns d p a)
  decompose_simpler-owns d h eq =
      let dec = IsDecomposition-of d h eq in (dec.progress.names, dec.progress.same_prefixes)

  -- If `decompose_simpler` returns, any two groups of the new dictionary, of one participant or of
  -- two, that have a prefix in common hold the same prefixes.
  pub decompose_simpler-Same :
      (d : Part2Prefix N P) {r : Part2Prefix N P × List (List P)}
      → Distinct (keys d)
      → decompose_simpler d ≡ ok r
      → (g g' : Group P) (j : P) → In g (all_groups r.0)
      → In g' (all_groups r.0)
      → has j g ≡ true
      → has j g' ≡ true
      → Same g g'
  decompose_simpler-Same d h eq g g' j = let dec = IsDecomposition-of d h eq in dec.settled j g g'

  -- If `decompose_simpler` returns, two prefixes that no given group tells apart are not told
  -- apart by any group of the new dictionary: the sets are as large as they can be.
  pub decompose_simpler-Together :
      (d : Part2Prefix N P) {r : Part2Prefix N P × List (List P)}
      → Distinct (keys d)
      → decompose_simpler d ≡ ok r
      → (x y : P) → Together x y (all_groups d)
      → Together x y (all_groups r.0)
  decompose_simpler-Together d h eq x y =
      let dec = IsDecomposition-of d h eq in dec.progress.together x y

  -- If `decompose_simpler` returns, each set of its list `lcs` is disjoint from the sets behind it,
  -- each group of the new dictionary has its set in the list, and each set of the list is that of
  -- a group.
  pub decompose_simpler-IsCatalogue :
      (d : Part2Prefix N P) {r : Part2Prefix N P × List (List P)}
      → Distinct (keys d)
      → decompose_simpler d ≡ ok r
      → IsCatalogue (all_groups r.0) r.1
  decompose_simpler-IsCatalogue d h eq = let dec = IsDecomposition-of d h eq in dec.catalogue

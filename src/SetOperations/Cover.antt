-- ===== src/SetOperations/Cover.antt =====
-- No prefix is lost and none is added: each participant's groups hold the same prefixes after a
-- round as before it.
use ixp_irc.Prelude.{
  Bool, true, false, ◌&&◌, ◌||◌, not, List, [], ◌∷◌, Eq, ◌≡◌, refl, sym, ◌∙◌, arith, length, filter,
  any, any-append, contains, to_set, ltb, Bool-cases, inl, inr, In, In-any, In-append_left,
  In-append_right,
}
use ixp_irc.SetOperations.{Group, as_set, items, Part2Prefix, has, diff, all_groups, split}
use ixp_irc.SetOperations.Step.{regroup, refine}
use ixp_irc.SetOperations.Round.{filter-cons_of_length}
use ixp_irc.SetOperations.Origin.{contains-diff}

module _ {P : Type 0} ⦃e : Eq P⦄ (a : P) where
  contains_empty : (xs : List P) → ltb 0 (length xs) ≡ false → contains a xs ≡ false
  unfolding contains
  contains_empty [] h = refl
  contains_empty (x ∷ xs) h = absurd (ground arith)

  any-split :
      (m : List P) (gs : List (Group P))
      → any (has a) (split m gs) ≡ (any (has a) gs && not (contains a m))
  unfolding any split
  any-split m [] = refl
  any-split m (g ∷ gs) = elim (Bool-cases (ltb 0 (length (diff (to_set (items g)) m)))) [
    | inl t ↦ rw t (ground (arith, contains-diff a (items g) m, any-split m gs))
    | inr f ↦ rw f (
        ground (
          arith,
          contains_empty (diff (to_set (items g)) m) f,
          contains-diff a (items g) m,
          any-split m gs,
        ))
  ]

  any-filter-not :
      (q : Group P → Bool) (gs : List (Group P))
      → (any (has a) (filter (λ g. not (q g)) gs) || any (has a) (filter q gs)) ≡ any (has a) gs
  unfolding any filter
  any-filter-not q [] = refl
  any-filter-not q (g ∷ gs) = ground (arith, any-filter-not q gs)

  any-parts :
      (k : P) (m : List P) (gs : List (Group P)) (g : Group P)
      → In g gs
      → (contains a m ≡ true → has a g ≡ true)
      → (any (has a) (filter (λ g'. not (has k g')) gs)
          || any (has a) (as_set m ∷ split m (filter (has k) gs)))
        ≡ any (has a) gs
  unfolding any
  any-parts k m gs g i sub = elim (Bool-cases (contains a m)) [
    | inl t ↦ rw (t, In-any (has a) g gs i (sub t)) (ground arith)
    | inr f ↦ ground (arith, any-filter-not (has k) gs, any-split m (filter (has k) gs))
  ]

  pub any-regroup :
      (k : P) (m : List P) (gs : List (Group P))
      → ((g : Group P) → In g gs → has k g ≡ true → contains a m ≡ true → has a g ≡ true)
      → any (has a) (regroup k m gs) ≡ any (has a) gs
  unfolding regroup
  any-regroup k m gs sub = elim (Bool-cases (ltb 0 (length (filter (has k) gs)))) [
    | inl t ↦
        let (g, i, held) = filter-cons_of_length (has k) gs t in
        rw (t, regroup)
          (any-append (has a) (filter (λ g'. not (has k g')) gs)
              (as_set m ∷ split m (filter (has k) gs))
            ∙ any-parts k m gs g i (sub g i held))
    | inr f ↦ rw (f, regroup)
  ]

  module _ {N : Type 0} ⦃n : Eq N⦄ where
    pub any-refine :
        (k : P) (m : List P) (d : Part2Prefix N P)
        → ((g : Group P)
            → In g (all_groups d)
            → has k g ≡ true
            → contains a m ≡ true
            → has a g ≡ true)
        → any (has a) (all_groups (refine k m d)) ≡ any (has a) (all_groups d)
    unfolding all_groups refine
    any-refine k m [] sub = refl
    any-refine k m ((p, gs) ∷ d) sub =
        any-append (has a) (regroup k m gs) (all_groups (refine k m d))
        ∙ rw
            (
              any-regroup k m gs (λ g i. sub g (In-append_left g gs (all_groups d) i)),
              any-refine k m d (λ g i. sub g (In-append_right g gs (all_groups d) i)),
            )
            (sym (any-append (has a) gs (all_groups d)))

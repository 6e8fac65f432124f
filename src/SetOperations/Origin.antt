-- ===== src/SetOperations/Origin.antt =====
-- Where a group comes from that stands in the dictionary after a round.
use ixp_irc.Prelude.{
  true, false, ◌&&◌, not, List, [], ◌∷◌, Eq, ◌≡◌, refl, arith, length, filter, contains,
  contains-filter, contains-to_set, to_set, ltb, Bool-cases, inl, inr, In, In-append,
  In-append_left, In-append_right, In-filter, In-filter_intro, either,
}
use ixp_irc.SetOperations.{Group, as_set, items, Part2Prefix, has, diff, all_groups, split}
use ixp_irc.SetOperations.Step.{regroup, refine}
use ixp_irc.SetOperations.Round.{filter_empty, filter-cons_of_length}

module _ {P : Type 0} ⦃e : Eq P⦄ where
  -- The group was there and does not hold the key, it is the shared set, or it is what the shared
  -- set leaves of an old group with the key.
  pub data Origin (k : P) (m : List P) (old : List (Group P)) (h : Group P) : Type 0 where
    kept : In h old → has k h ≡ false → Origin k m old h
    common_part : (g : Group P) → In g old → has k g ≡ true → h ≡ as_set m → Origin k m old h
    rest_part :
        (g : Group P)
        → In g old
        → has k g ≡ true
        → ((a : P) → has a h ≡ (has a g && not (contains a m)))
        → Origin k m old h

  pub contains-diff :
      (a : P) (xs m : List P)
      → contains a (diff (to_set xs) m) ≡ (contains a xs && not (contains a m))
  contains-diff a xs m =
      ground (arith, contains-filter (λ x. not (contains x m)) a (to_set xs), contains-to_set a xs)

  -- `h` is a group of the list without the set `m`
  abbrev LeftOf : List P → Group P → List (Group P) → Type 0
  LeftOf m h gs = (g : Group P) × In g gs × ((a : P) → has a h ≡ (has a g && not (contains a m)))

  LeftOf-cons :
      (m : List P) (h g : Group P) (gs : List (Group P)) → LeftOf m h gs → LeftOf m h (g ∷ gs)
  LeftOf-cons m h g gs (g', i, q) = (g', inr i, q)

  LeftOf-head :
      (m : List P) (h g : Group P) (gs : List (Group P))
      → h ≡ as_set (diff (to_set (items g)) m)
      → LeftOf m h (g ∷ gs)
  LeftOf-head m h g gs q = (g, inl refl, λ a. rw q (contains-diff a (items g) m))

  In-split : (m : List P) (h : Group P) (gs : List (Group P)) → In h (split m gs) → LeftOf m h gs
  unfolding split
  In-split m h [] i = absurd i
  In-split m h (g ∷ gs) i = elim (Bool-cases (ltb 0 (length (diff (to_set (items g)) m)))) [
    | inl t ↦
        either (LeftOf-head m h g gs) (λ j. LeftOf-cons m h g gs (In-split m h gs j)) (rw t at i)
    | inr f ↦ LeftOf-cons m h g gs (In-split m h gs (rw f at i))
  ]

  In-regroup :
      (k : P) (m : List P) (h : Group P) (gs : List (Group P))
      → In h (regroup k m gs)
      → Origin k m gs h
  unfolding regroup
  In-regroup k m h gs i = elim (Bool-cases (ltb 0 (length (filter (has k) gs)))) [
    | inl t ↦
        either kept_old (λ j. either (shared_set t) left_over j)
          (In-append h (filter (λ g. not (has k g)) gs) _ (rw t at i))
    | inr f ↦ elim (Bool-cases (has k h)) [
      | inl held ↦
          absurd
            (nothing (filter_empty (has k) gs f) (In-filter_intro (has k) h gs (rw f at i) held))
      | inr free ↦ kept (rw f at i) free
    ]
  ]
    where
      nothing : filter (has k) gs ≡ [] → In h (filter (has k) gs) → ⊥
      nothing q j = rw q at j

      kept_old : In h (filter (λ g. not (has k g)) gs) → Origin k m gs h
      kept_old j = let (l, q) = In-filter (λ g. not (has k g)) h gs j in kept l (ground arith)

      shared_set : ltb 0 (length (filter (has k) gs)) ≡ true → h ≡ as_set m → Origin k m gs h
      shared_set t q =
          let (g, l, held) = filter-cons_of_length (has k) gs t in common_part g l held q

      left_over : In h (split m (filter (has k) gs)) → Origin k m gs h
      left_over j =
          let (g, l, q) = In-split m h (filter (has k) gs) j in
          let (l', held) = In-filter (has k) g gs l in rest_part g l' held q

  Origin-mono :
      (k : P) (m : List P) (h : Group P) {old new : List (Group P)}
      → ((g : Group P) → In g old → In g new)
      → Origin k m old h
      → Origin k m new h
  Origin-mono k m h sub (kept i f) = kept (sub h i) f
  Origin-mono k m h sub (common_part g i t q) = common_part g (sub g i) t q
  Origin-mono k m h sub (rest_part g i t q) = rest_part g (sub g i) t q

module _ {N P : Type 0} ⦃n : Eq N⦄ ⦃e : Eq P⦄ where
  -- Every group after a round comes from the groups before it.
  pub In-refine :
      (k : P) (m : List P) (h : Group P) (d : Part2Prefix N P)
      → In h (all_groups (refine k m d))
      → Origin k m (all_groups d) h
  unfolding all_groups refine
  In-refine k m h [] i = absurd i
  In-refine k m h ((p, gs) ∷ d) i =
      either
        (λ j. Origin-mono k m h (λ g. In-append_left g gs (all_groups d)) (In-regroup k m h gs j))
        (λ j. Origin-mono k m h (λ g. In-append_right g gs (all_groups d)) (In-refine k m h d j))
        (In-append h (regroup k m gs) (all_groups (refine k m d)) i)

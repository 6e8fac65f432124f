-- ===== src/SetOperations/Step.antt =====
-- One round of `decompose_simpler`: what the calls of `remove` and the loop of `decompose_set`
-- come to, for a dictionary without duplicate keys.
use ixp_irc.Prelude.{
  true, false, not, List, [], ◌∷◌, ◌++◌, map, Eq, ◌==◌, list_beq_iff, beq_refl, ◌≡◌, refl, sym, ap,
  ◌∙◌, arith, length, filter, contains, contains-append, to_set, ltb, if◌then◌else◌, keys, get, put,
  lookup, Result, ok, some, raise, ◌>>=◌, Bool-cases, inl, inr, Distinct, All, append_assoc,
  put-append_skip, put_head, lookup-append_skip, lookup_head,
}
use ixp_irc.SetOperations.{
  Group, as_list, as_set, items, Part2Prefix, has, subset, group_eq, inter_from, remove, remove_all,
  split, gather, split_all,
}

module _ {P : Type 0} ⦃e : Eq P⦄ where
  subset_sound :
      (a : P) (xs ys : List P) → subset xs ys ≡ true → contains a xs ≡ true → contains a ys ≡ true
  unfolding subset contains
  subset_sound a [] ys h m = cc
  subset_sound a (x ∷ xs) ys h m = elim (Bool-cases (a == x)) [
    | inl q ↦ let same : a ≡ x = (e.reflects a x).0 q in rw same (ground arith)
    | inr q ↦ subset_sound a xs ys (ground arith) (ground arith)
  ]

  subset_cons : (x : P) (xs ys : List P) → subset xs ys ≡ true → subset xs (x ∷ ys) ≡ true
  unfolding subset contains
  subset_cons x [] ys h = refl
  subset_cons x (z ∷ xs) ys h = ground (arith, subset_cons x xs ys)

  subset_refl : (xs : List P) → subset xs xs ≡ true
  unfolding subset contains
  subset_refl [] = refl
  subset_refl (x ∷ xs) = ground (arith, beq_refl x, subset_cons x xs xs, subset_refl xs)

  pub group_eq_refl : (g : Group P) → group_eq g g ≡ true
  group_eq_refl (as_list xs) = (list_beq_iff xs xs).1 refl
  group_eq_refl (as_set xs) = ground (arith, subset_refl xs)

  -- Equal groups hold the same values.
  pub group_eq-has : (k : P) (g h : Group P) → group_eq g h ≡ true → has k g ≡ has k h
  group_eq-has k (as_list xs) (as_list ys) q = rw ((list_beq_iff xs ys).0 q)
  group_eq-has k (as_set xs) (as_set ys) q =
      ground (arith, subset_sound k xs ys, subset_sound k ys xs)
  group_eq-has k (as_list xs) (as_set ys) q = cc
  group_eq-has k (as_set xs) (as_list ys) q = cc

  remove_all_bind :
      (x : Group P) (gs : List (Group P)) (r : Result (List (Group P)))
      → ((l : List (Group P)) → remove_all gs (x ∷ l) ≡ (remove_all gs l >>= λ l'. ok (x ∷ l')))
      → ((r >>= λ l'. ok (x ∷ l')) >>= λ l'. remove_all gs l')
        ≡ ((r >>= λ l'. remove_all gs l') >>= λ l'. ok (x ∷ l'))
  remove_all_bind x gs (ok l) ih = ih l
  remove_all_bind x gs (raise _) ih = refl

  remove_all_skip :
      (k : P) (x : Group P) (gs l : List (Group P))
      → has k x ≡ false
      → All (λ g. has k g ≡ true) gs
      → remove_all gs (x ∷ l) ≡ (remove_all gs l >>= λ l'. ok (x ∷ l'))
  unfolding remove_all
  remove_all_skip k x [] l fresh held = refl
  remove_all_skip k x (g ∷ gs) l fresh held = elim (Bool-cases (group_eq g x)) [
    | inl q ↦ cc (group_eq-has k g x q, fresh, held.0)
    | inr q ↦
        rw q (remove_all_bind x gs (remove g l) (λ l'. remove_all_skip k x gs l' fresh held.1))
  ]

  All-filter : (k : P) (gs : List (Group P)) → All (λ g. has k g ≡ true) (filter (has k) gs)
  unfolding filter
  All-filter k [] = tt
  All-filter k (g ∷ gs) = elim (Bool-cases (has k g)) [
    | inl t ↦ rw (t, filter) (t, All-filter k gs)
    | inr f ↦ rw (f, filter) (All-filter k gs)
  ]

  -- The old groups that hold the key are all found, and what is left are the others.
  pub remove_all-filter :
      (k : P) (old new : List (Group P))
      → remove_all (filter (has k) old) (old ++ new) ≡ ok (filter (λ g. not (has k g)) old ++ new)
  unfolding remove_all filter
  remove_all-filter k [] new = refl
  remove_all-filter k (g ∷ old) new = elim (Bool-cases (has k g)) [
    | inl t ↦ rw (t, filter) (rw (group_eq_refl g) (remove_all-filter k old new))
    | inr f ↦
        rw (f, filter)
          (rw (remove_all_skip k g (filter (has k) old) (old ++ new) f (All-filter k old))
            (rw (remove_all-filter k old new)))
  ]

  All-nil : (l : List P) → All (λ q. contains q [] ≡ false) l
  unfolding contains
  All-nil [] = tt
  All-nil (q ∷ l) = (refl, All-nil l)

  -- the set that all the groups share
  unfoldable pub common : List (Group P) → List P
  common [] = []
  common (g ∷ gs) = inter_from (to_set (items g)) (map (λ h. to_set (items h)) gs)

  -- the groups of one participant after the round
  unfoldable pub regroup : P → List P → List (Group P) → List (Group P)
  regroup k m gs =
      let tlist = filter (has k) gs in
      if ltb 0 (length tlist)
      then filter (λ g. not (has k g)) gs ++ as_set m ∷ split m tlist
      else gs

module _ {N P : Type 0} ⦃n : Eq N⦄ ⦃e : Eq P⦄ where
  -- the round, without calls that may raise
  unfoldable pub refine : P → List P → Part2Prefix N P → Part2Prefix N P
  refine k m [] = []
  refine k m ((p, gs) ∷ d) = (p, regroup k m gs) ∷ refine k m d

  contains-keys-gather :
      (p : N) (k : P) (d : Part2Prefix N P)
      → contains p (keys d) ≡ false
      → contains p (keys (gather k d)) ≡ false
  unfolding gather contains
  contains-keys-gather p k [] h = refl
  contains-keys-gather p k ((q, gs) ∷ d) h = ground (arith, contains-keys-gather p k d)

  pub gather-Distinct :
      (k : P) (d : Part2Prefix N P) → Distinct (keys d) → Distinct (keys (gather k d))
  unfolding gather
  gather-Distinct k [] h = tt
  gather-Distinct k ((q, gs) ∷ d) h = elim (Bool-cases (ltb 0 (length (filter (has k) gs)))) [
    | inl t ↦ rw (t, gather) (contains-keys-gather q k d h.0, gather-Distinct k d h.1)
    | inr f ↦ rw (f, gather) (gather-Distinct k d h.1)
  ]

  get-of_lookup :
      (p : N) (gs : List (Group P)) (d : Part2Prefix N P) → lookup p d ≡ some gs → get d p ≡ ok gs
  unfolding get
  get-of_lookup p gs d h = rw (h, get)

  -- no key of `d` stands in `done`, and none twice in `d`
  abbrev pub Apart : Part2Prefix N P → Part2Prefix N P → Type 0
  Apart done d = All (λ p. contains p (keys done) ≡ false) (keys d) × Distinct (keys d)

  keys-append : (d1 d2 : Part2Prefix N P) → keys (d1 ++ d2) ≡ keys d1 ++ keys d2
  keys-append [] d2 = refl
  keys-append ((p, gs) ∷ d1) d2 = rw (keys-append d1 d2)

  All-fresh_snoc :
      (p : N) (gs : List (Group P)) (done d : Part2Prefix N P)
      → contains p (keys d) ≡ false
      → All (λ q. contains q (keys done) ≡ false) (keys d)
      → All (λ q. contains q (keys (done ++ (p, gs) ∷ [])) ≡ false) (keys d)
  unfolding contains
  All-fresh_snoc p gs done [] h a = tt
  All-fresh_snoc p gs done ((q, hs) ∷ d) h a = (
    rw (keys-append done ((p, gs) ∷ [])) (
        rw (contains-append q (keys done) (p ∷ []))
          (ground (arith, n.reflects p q, n.reflects q p))),
    All-fresh_snoc p gs done d (ground arith) a.1,
  )

  Apart-snoc :
      (p : N) (gs gs' : List (Group P)) (done d : Part2Prefix N P)
      → Apart done ((p, gs) ∷ d)
      → Apart (done ++ (p, gs') ∷ []) d
  Apart-snoc p gs gs' done d (a, b) = (All-fresh_snoc p gs' done d b.0 a.1, b.1)

  split_all_cons :
      (m : List P) (p : N) (lists gs old gs' : List (Group P)) (tdict u bk td u' : Part2Prefix N P)
      → lookup p u ≡ some gs
      → lookup p bk ≡ some old
      → remove_all old (gs ++ as_set m ∷ split m lists) ≡ ok gs'
      → split_all m tdict (put p gs' u) bk ≡ ok (td, u')
      → split_all m ((p, lists) ∷ tdict) u bk ≡ ok ((p, as_set m ∷ split m lists) ∷ td, u')
  unfolding split_all
  split_all_cons m p lists gs old gs' tdict u bk td u' a b c d =
      rw (get-of_lookup p gs u a) (rw (get-of_lookup p old bk b) (rw c (rw d)))

  put_middle :
      (p : N) (v w : List (Group P)) (done d : Part2Prefix N P)
      → contains p (keys done) ≡ false
      → put p v (done ++ (p, w) ∷ d) ≡ (done ++ (p, v) ∷ []) ++ d
  put_middle p v w done d h =
      put-append_skip p v done ((p, w) ∷ d) h
      ∙ ap (◌++◌ done) (put_head p v w d)
      ∙ sym (append_assoc done ((p, v) ∷ []) d)

  pub split_all-gather :
      (k : P) (m : List P) (bk done d : Part2Prefix N P)
      → Apart done d
      → All (λ (en : N × List (Group P)). lookup en.0 bk ≡ some en.1) (gather k d)
      → (t : Part2Prefix N P) × (split_all m (gather k d) (done ++ d) bk
          ≡ ok (t, done ++ refine k m d))
  unfolding gather refine split_all regroup
  split_all-gather k m bk done [] a b = ([], refl)
  split_all-gather k m bk done ((p, gs) ∷ d) a b =
      elim (Bool-cases (ltb 0 (length (filter (has k) gs)))) [
        | inl t ↦
            let tlist = filter (has k) gs in
            let gs' = filter (λ g. not (has k g)) gs ++ as_set m ∷ split m tlist in
            let held = rw (t, gather) at b in
            let (td, eq) =
              split_all-gather k m bk (done ++ (p, gs') ∷ []) d (Apart-snoc p gs gs' done d a)
                held.1 in
            (
              (p, as_set m ∷ split m tlist) ∷ td,
              rw (t, gather)
                  (split_all_cons m p tlist gs tlist gs' (gather k d) (done ++ (p, gs) ∷ d) bk td
                    (done ++ (p, gs') ∷ refine k m d)
                    (lookup-append_skip p done ((p, gs) ∷ d) a.0.0 ∙ lookup_head p gs d) held.0
                    (remove_all-filter k gs (as_set m ∷ split m tlist))
                    (rw (put_middle p gs' gs done d a.0.0)
                      (eq ∙ rw (append_assoc done ((p, gs') ∷ []) (refine k m d))))),
            )
        | inr f ↦
            let (td, eq) =
              split_all-gather k m bk (done ++ (p, gs) ∷ []) d (Apart-snoc p gs gs done d a)
                (rw (f, gather) at b) in
            (
              td,
              rw (f, gather)
                  (rw
                    (
                      append_assoc done ((p, gs) ∷ []) d,
                      append_assoc done ((p, gs) ∷ []) (refine k m d),
                    )
                    at eq),
            )
      ]

  pub Apart-nil : (d : Part2Prefix N P) → Distinct (keys d) → Apart [] d
  Apart-nil d h = (All-nil (keys d), h)

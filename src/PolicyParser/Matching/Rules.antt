-- ===== src/PolicyParser/Matching/Rules.antt =====
-- When a rule agrees with the inbound policies (policyparser/match_outbound_inbound.py).
use ixp_irc.Prelude.{
  Bool, true, false, ◌||◌, List, [], ◌∷◌, nat_eq, list_eq, ◌==◌, Dict, values, get, put, any, All,
  if◌then◌else◌, ok, bind_ok, bind_of, ◌≡◌, ◌≢◌, ◌⊎◌, inl, inr, refl, sym, ap, ◌∙◌, arith,
  Bool-cases, cons-cases, ok-injective,
}
use ixp_irc.Bgp.Text.{Text, codes}
use ixp_irc.PolicyParser.Json.{Json, Object, is_in, is_text, members}
use ixp_irc.PolicyParser.Matching.{
  Outbound, Inbound, no_conflicts, items_for, admits, all_admit, check_routes, check_rules,
}

-- The participant is not on the item's blacklist, and the whitelist is "*" or has it.
abbrev pub IsAdmitted : Text → Object → Type 0
IsAdmitted participant item =
    ((b : Json) × (get item (codes "blacklist") ≡ ok b) × (is_in participant b ≡ ok false))
    × ((w : Json) × (get item (codes "whitelist") ≡ ok w)
        × ((is_text (codes "*") w ≡ true) ⊎ (is_in participant w ≡ ok true)))

-- The route's inbound policy has an item for the prefix, and all that it has admit the participant.
abbrev pub RouteAgrees : Text → Text → Inbound → Text → Type 0
RouteAgrees participant prefix inbound route =
    (items : List Object) × (get inbound route ≡ ok items)
    × (items_for prefix items ≢ [])
    × All (IsAdmitted participant) (items_for prefix items)

abbrev pub RuleAgrees : Text → Text → Inbound → Object → Type 0
RuleAgrees participant prefix inbound rule =
    (value : Json) × (get rule (codes "routes") ≡ ok value)
    × ((routes : List Text) × (members value ≡ ok routes)
        × All (RouteAgrees participant prefix inbound) routes)

abbrev pub Agrees : Text → Inbound → Outbound → Type 0
Agrees participant inbound [] = Unit
Agrees participant inbound ((prefix, rules) ∷ rest) =
    All (RuleAgrees participant prefix inbound) rules × Agrees participant inbound rest

admits→IsAdmitted :
    (participant : Text) (item : Object)
    → admits participant item ≡ ok true
    → IsAdmitted participant item
unfolding admits
admits→IsAdmitted participant item h =
    let (b, p, h1) = bind_ok (get item (codes "blacklist")) _ h in
    let (black, q, h2) = bind_ok (is_in participant b) _ h1 in
    elim (Bool-cases black) [
      | inl t ↦ let z : ok false ≡ ok true = (rw t at h2) in cc
      | inr f ↦
          let (w, r, h3) = bind_ok (get item (codes "whitelist")) _ (rw f at h2) in
          (
            (b, p, q ∙ ap ok f),
            (
              w,
              r,
              elim (Bool-cases (is_text (codes "*") w)) [
                | inl t ↦ inl t
                | inr g ↦ inr (rw g at h3)
              ],
            ),
          )
    ]

IsAdmitted→admits :
    (participant : Text) (item : Object)
    → IsAdmitted participant item
    → admits participant item ≡ ok true
unfolding admits
IsAdmitted→admits participant item ((b, p, q), (w, r, e)) =
    bind_of _ p ∙ (bind_of _ q ∙ (bind_of _ r ∙ allowed e))
  where
    allowed :
        (is_text (codes "*") w ≡ true) ⊎ (is_in participant w ≡ ok true)
        → (elim (is_text (codes "*") w) [ true ↦ ok true | false ↦ is_in participant w ]) ≡ ok true
    allowed (inl t) = rw t refl
    allowed (inr t) = elim (Bool-cases (is_text (codes "*") w)) [
      | inl u ↦ rw u refl
      | inr u ↦ rw u t
    ]

All-admit→All :
    (participant : Text) (items : List Object)
    → all_admit participant items ≡ ok true
    → All (IsAdmitted participant) items
unfolding all_admit
All-admit→All participant [] h = tt
All-admit→All participant (item ∷ items) h =
    let (a, p, h1) = bind_ok (admits participant item) _ h in
    elim (Bool-cases a) [
      | inl t ↦ (
        admits→IsAdmitted participant item (p ∙ ap ok t),
        All-admit→All participant items (rw t at h1),
      )
      | inr f ↦ let z : ok false ≡ ok true = (rw f at h1) in cc
    ]

All→all_admit :
    (participant : Text) (items : List Object)
    → All (IsAdmitted participant) items
    → all_admit participant items ≡ ok true
unfolding all_admit
All→all_admit participant [] h = refl
All→all_admit participant (item ∷ items) h =
    rw (IsAdmitted→admits participant item h.0, all_admit) (All→all_admit participant items h.1)

-- No conflict is marked.
abbrev pub IsClean : Dict Text Bool → Type 0
IsClean conflicts = any (λ b. b) (values conflicts) ≡ false

not-IsClean-put : (k : Text) (d : Dict Text Bool) → IsClean (put k true d) → ⊥
unfolding put any
not-IsClean-put k [] h = cc
not-IsClean-put k ((j, b) ∷ d) h = elim (Bool-cases (k == j)) [
  | inl t ↦ let z : true ≡ false = (rw t at h) in cc
  | inr f ↦ not-IsClean-put k d (any_tail b (values (put k true d)) (rw f at h))
]
  where
    any_tail :
        (x : Bool) (xs : List Bool) → (x || any (λ y. y) xs) ≡ false → any (λ y. y) xs ≡ false
    any_tail true xs e = cc
    any_tail false xs e = e

IsClean-put-false : (k : Text) (d : Dict Text Bool) → IsClean d → IsClean (put k false d)
unfolding put any
IsClean-put-false k [] h = refl
IsClean-put-false k ((j, b) ∷ d) h = ground (arith, IsClean-put-false k d)

pub no_conflicts-IsClean :
    (participant : Text) (inbound : Inbound) (d : Dict Text Bool)
    → IsClean d
    → IsClean (no_conflicts participant inbound d)
unfolding no_conflicts
no_conflicts-IsClean participant [] d h = h
no_conflicts-IsClean participant ((key, items) ∷ rest) d h =
    elim (Bool-cases (key == participant)) [
      | inl t ↦ rw (t, no_conflicts) (no_conflicts-IsClean participant rest d h)
      | inr f ↦
          rw (f, no_conflicts)
            (no_conflicts-IsClean participant rest (put key false d) (IsClean-put-false key d h))
    ]

module _ (participant prefix : Text) (inbound : Inbound) where
  check_routes→All :
      (routes : List Text) (d : Dict Text Bool) {d' : Dict Text Bool}
      → check_routes participant prefix inbound routes d ≡ ok d'
      → IsClean d'
      → IsClean d × All (RouteAgrees participant prefix inbound) routes
  unfolding check_routes
  check_routes→All [] d h c = (rw (ok-injective h) c, tt)
  check_routes→All (route ∷ routes) d {d'} h c =
      let (items, p, h1) = bind_ok (get inbound route) _ h in
      elim (cons-cases (items_for prefix items)) [
        | inl q ↦
            let e : ok (put route true d) ≡ ok d' = (rw q at h1) in
            absurd (not-IsClean-put route d (rw (ok-injective e) c))
        | inr (i, is, q) ↦
            let (a, r, h2) =
              bind_ok (all_admit participant (i ∷ is)) _ (rw (q, check_routes) at h1) in
            let (before, agree) =
              check_routes→All routes (if a then d else put route true d) h2 c in
            elim (Bool-cases a) [
              | inl t ↦ (
                rw t at before,
                (
                  (
                    items,
                    p,
                    (λ z. let y : i ∷ is ≡ [] = sym q ∙ z in cc),
                    rw q (All-admit→All participant (i ∷ is) (r ∙ ap ok t)),
                  ),
                  agree,
                ),
              )
              | inr f ↦ absurd (not-IsClean-put route d (rw f at before))
            ]
      ]

  All→check_routes :
      (routes : List Text) (d : Dict Text Bool)
      → All (RouteAgrees participant prefix inbound) routes
      → check_routes participant prefix inbound routes d ≡ ok d
  unfolding check_routes
  All→check_routes [] d a = refl
  All→check_routes (route ∷ routes) d ((items, p, some_item, admitted), agree) =
      elim (cons-cases (items_for prefix items)) [
        | inl q ↦ absurd (some_item q)
        | inr (i, is, q) ↦
            bind_of _ p
            ∙ rw (q, check_routes)
                (bind_of _ (All→all_admit participant (i ∷ is) (rw q at admitted))
                  ∙ All→check_routes routes d agree)
      ]

  pub check_rules→All :
      (rules : List Object) (d : Dict Text Bool) {d' : Dict Text Bool}
      → check_rules participant prefix inbound rules d ≡ ok d'
      → IsClean d'
      → IsClean d × All (RuleAgrees participant prefix inbound) rules
  unfolding check_rules
  check_rules→All [] d h c = (rw (ok-injective h) c, tt)
  check_rules→All (rule ∷ rules) d h c =
      let (value, p, h1) = bind_ok (get rule (codes "routes")) _ h in
      let (routes, q, h2) = bind_ok (members value) _ h1 in
      let (d1, r, h3) = bind_ok (check_routes participant prefix inbound routes d) _ h2 in
      let (clean, agree) = check_rules→All rules d1 h3 c in
      let (before, route_agrees) = check_routes→All routes d r clean in
      (before, ((value, p, (routes, q, route_agrees)), agree))

  pub All→check_rules :
      (rules : List Object) (d : Dict Text Bool)
      → All (RuleAgrees participant prefix inbound) rules
      → check_rules participant prefix inbound rules d ≡ ok d
  unfolding check_rules
  All→check_rules [] d a = refl
  All→check_rules (rule ∷ rules) d ((value, p, (routes, q, route_agrees)), agree) =
      rw (p, check_rules)
        (rw (q, check_rules)
          (rw (All→check_routes routes d route_agrees, check_rules)
            (All→check_rules rules d agree)))

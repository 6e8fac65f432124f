-- ===== src/Bgp/Peer/Effects.antt =====
-- What the announcements and the withdrawals of a message do to a participant's tables
-- (bgp/peer.py).
use ixp_irc.Prelude.{
  true, false, List, [], ◌∷◌, ◌++◌, map, Option, none, some, nat_eq, list_eq, list_beq_iff, ◌==◌,
  if◌then◌else◌, inl, inr, contains, In, ok, ◌≡◌, refl, sym, ap, ◌∙◌, Dict, Result-cases,
  Bool-cases, not-ok_raise, Option-cases, cons-cases, ok-injective, append-nil, append_assoc,
}
use ixp_irc.Bgp.Text.{Text}
use ixp_irc.Bgp.Rib.{Route, Rib, add, delete, commit, get, get_all}
use ixp_irc.Bgp.Rib.Laws.{row_for, get_all-IsRowFor, get_all-add, get_all-delete, get-add}
use ixp_irc.Bgp.Peer.{
  Peer, Item, announced, withdrawn, Values, input_rib, get_routes, announced_route, announce_all,
  withdraw_all,
}

abbrev pub announced_items : List Route → List Item
announced_items = map (λ (r : Route). announced (some r))

abbrev pub prefixes : List Route → List Text
prefixes = map (λ (r : Route). r.prefix)

abbrev pub withdrawn_items : List (Option Route) → List Item
withdrawn_items = map (λ (r : Option Route). withdrawn r)

-- The prefixes of the routes that there were.
abbrev pub deleted_prefixes : List (Option Route) → List Text
deleted_prefixes [] = []
deleted_prefixes (none ∷ os) = deleted_prefixes os
deleted_prefixes (some r ∷ os) = r.prefix ∷ deleted_prefixes os

-- The announced prefixes have more rows in `input`, and nothing else changes.
abbrev pub Announces : Peer → List Route → Peer → Type 0
Announces p rs p' =
    (p'.local ≡ p.local)
    × ((j : Text) → get_routes input_rib j p' ≡ [] → get_routes input_rib j p ≡ [])
    × ((j : Text)
        → contains j (prefixes rs) ≡ false
        → get_routes input_rib j p' ≡ get_routes input_rib j p)

-- The deleted prefixes have fewer rows in `input`, and nothing else changes.
abbrev pub Withdraws : Peer → List (Option Route) → Peer → Type 0
Withdraws p os p' =
    (p'.local ≡ p.local)
    × ((j : Text) → get_routes input_rib j p ≡ [] → get_routes input_rib j p' ≡ [])
    × ((j : Text)
        → contains j (deleted_prefixes os) ≡ false
        → get_routes input_rib j p' ≡ get_routes input_rib j p)

abbrev put_input : Text → Route → Peer → Peer
put_input k r p = record p { input = commit (add k r p.input) }

abbrev drop_input : Text → Peer → Peer
drop_input k p = record p { input = commit (delete k p.input) }

input-put :
    (j k : Text) (r : Route) (p : Peer)
    → get_routes input_rib j (put_input k r p)
      ≡ (if j == k then get_routes input_rib j p ++ row_for k r ∷ [] else get_routes input_rib j p)
unfolding get_routes commit get_all
input-put j k r p = get_all-add j k r p.input

input-drop :
    (j k : Text) (p : Peer)
    → get_routes input_rib j (drop_input k p) ≡ (if j == k then [] else get_routes input_rib j p)
unfolding get_routes commit get_all
input-drop j k p = get_all-delete j k p.input

not-snoc : (l : List Route) (r : Route) → l ++ r ∷ [] ≡ [] → l ≡ []
not-snoc [] r h = refl
not-snoc (x ∷ l) r h = cc

get-prefix : (k : Text) (rib : Rib) {r : Route} → get k rib ≡ some r → r.prefix ≡ k
unfolding get
get-prefix k rib {r} h = elim (cons-cases (get_all (some k) rib)) [
  | inl q ↦ let z : none ≡ some r = (rw q at h) in cc
  | inr (x, xs, q) ↦
      let e : some x ≡ some r = (rw q at h) in
      let same : x ≡ r = (cc e) in
      let i : In x (get_all (some k) rib) = (rw q (inl refl)) in
      rw (← same) (get_all-IsRowFor k rib x i).0
]

get-put_input :
    (k : Text) (r : Route) (p : Peer)
    → get k (put_input k r p).input
      ≡ (elim (get k p.input) [ none ↦ some (row_for k r) | some old ↦ some old ])
unfolding commit get get_all
get-put_input k r p = get-add k r p.input

-- After `add` the table has a route for the key, whose prefix is the key.
get_after_add :
    (k : Text) (r : Route) (p : Peer)
    → (x : Route) × (get k (put_input k r p).input ≡ some x) × (x.prefix ≡ k)
get_after_add k r p = elim (Option-cases (get k p.input)) [
  | inl q ↦ (row_for k r, get-put_input k r p ∙ rw q refl, refl)
  | inr (x, q) ↦ (x, get-put_input k r p ∙ rw q refl, get-prefix k p.input q)
]

announce_turn :
    (v : Values) (k : Text) (h : Option Text) (rest : Dict Text (Option Text)) (l : List Item)
    (p : Peer) {items : List Item}
    → (announce_all v ((k, h) ∷ rest) l p).0 ≡ ok items
    → (r : Route) × (x : Route) × (x.prefix ≡ k)
      × (announce_all v ((k, h) ∷ rest) l p
          ≡ announce_all v rest (l ++ announced (some x) ∷ []) (put_input k r p))
unfolding announce_all
announce_turn v k h rest l p e = elim (Result-cases (announced_route v k h)) [
  | inl (r, q) ↦
      let (x, g, s) = get_after_add k r p in
      (r, x, s, rw (q, announce_all) (rw (g, announce_all) refl))
  | inr (z, q) ↦ absurd (not-ok_raise (rw (q, announce_all) at e))
]

Announces-put :
    (k : Text) (r x : Route) (rs : List Route) (p p' : Peer)
    → x.prefix ≡ k
    → Announces (put_input k r p) rs p'
    → Announces p (x ∷ rs) p'
unfolding contains
Announces-put k r x rs p p' s (same_local, more, others) = (
  same_local,
  (λ j e. elim (Bool-cases (j == k)) [
    | inl t ↦
        let q : get_routes input_rib j (put_input k r p)
            ≡ get_routes input_rib j p ++ row_for k r ∷ [] =
          input-put j k r p ∙ rw t refl in
        not-snoc (get_routes input_rib j p) (row_for k r) (sym q ∙ more j e)
    | inr f ↦ sym (input-put j k r p ∙ rw f refl) ∙ more j e
  ]),
  (λ j c. elim (Bool-cases (j == k)) [
    | inl t ↦ let z : true ≡ false = (rw t at (rw s at c)) in cc
    | inr f ↦ others j (rw f at (rw s at c)) ∙ (input-put j k r p ∙ rw f refl)
  ]),
)

pub announce_all-Announces :
    (v : Values) (ds : Dict Text (Option Text)) (l : List Item) (p : Peer) {items : List Item}
    → (announce_all v ds l p).0 ≡ ok items
    → (rs : List Route) × (items ≡ l ++ announced_items rs)
      × Announces p rs (announce_all v ds l p).1
unfolding announce_all
announce_all-Announces v [] l p {items} e =
    ([], sym (ok-injective e) ∙ sym (append-nil l), (refl, (λ j q. q), (λ j c. refl)))
announce_all-Announces v ((k, h) ∷ rest) l p {items} e =
    let (r, x, s, q) = announce_turn v k h rest l p e in
    let (rs, i, a) =
      announce_all-Announces v rest (l ++ announced (some x) ∷ []) (put_input k r p) (rw q at e) in
    (
      x ∷ rs,
      i ∙ append_assoc l (announced (some x) ∷ []) (announced_items rs),
      rw q (
          Announces-put k r x rs p
            (announce_all v rest (l ++ announced (some x) ∷ []) (put_input k r p)).1 s a),
    )

get-none : (k : Text) (p : Peer) → get k p.input ≡ none → get_routes input_rib k p ≡ []
unfolding get get_routes get_all
get-none k p h = elim (cons-cases (get_all (some k) p.input)) [
  | inl q ↦ q
  | inr (x, xs, q) ↦ let z : some x ≡ none = (rw q at h) in cc
]

Withdraws-drop :
    (k : Text) (o : Option Route) (os : List (Option Route)) (p p' : Peer)
    → get k p.input ≡ o
    → Withdraws (drop_input k p) os p'
    → Withdraws p (o ∷ os) p'
unfolding contains
Withdraws-drop k o os p p' g (same_local, fewer, others) = (
  same_local,
  (λ j e.
      fewer j
        (input-drop j k p ∙ elim (Bool-cases (j == k)) [ inl t ↦ rw t refl | inr f ↦ rw f e ])),
  kept o g,
)
  where
    other_key :
        (j : Text)
        → (j == k) ≡ false
        → contains j (deleted_prefixes os) ≡ false
        → get_routes input_rib j p' ≡ get_routes input_rib j p
    other_key j f c = others j c ∙ (input-drop j k p ∙ rw f refl)

    kept :
        (o' : Option Route)
        → get k p.input ≡ o'
        → (j : Text) → contains j (deleted_prefixes (o' ∷ os)) ≡ false
        → get_routes input_rib j p' ≡ get_routes input_rib j p
    kept none g' j c = elim (Bool-cases (j == k)) [
      | inl t ↦
          let e : j ≡ k = (list_beq_iff j k).0 t in
          others j c
          ∙ (input-drop j k p
              ∙ (rw t refl ∙ sym (ap (λ x. get_routes input_rib x p) e ∙ get-none k p g')))
      | inr f ↦ other_key j f c
    ]
    kept (some r) g' j c =
        let s : r.prefix ≡ k = get-prefix k p.input g' in
        elim (Bool-cases (j == k)) [
          | inl t ↦ let z : true ≡ false = (rw t at (rw s at c)) in cc
          | inr f ↦ other_key j f (rw f at (rw s at c))
        ]

pub withdraw_all-Withdraws :
    (ks : List Text) (l : List Item) (p : Peer)
    → (os : List (Option Route)) × ((withdraw_all ks l p).0 ≡ l ++ withdrawn_items os)
      × Withdraws p os (withdraw_all ks l p).1
unfolding withdraw_all
withdraw_all-Withdraws [] l p = ([], sym (append-nil l), (refl, (λ j q. q), (λ j c. refl)))
withdraw_all-Withdraws (k ∷ ks) l p =
    let o = get k p.input in
    let (os, i, w) = withdraw_all-Withdraws ks (l ++ withdrawn o ∷ []) (drop_input k p) in
    (
      o ∷ os,
      i ∙ append_assoc l ((withdrawn o) ∷ []) (withdrawn_items os),
      Withdraws-drop k o os p (withdraw_all ks (l ++ withdrawn o ∷ []) (drop_input k p)).1 refl w,
    )

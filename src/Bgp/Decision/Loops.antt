-- ===== src/Bgp/Decision/Loops.antt =====
-- What the loop for an announced prefix does to the best routes (bgp/decision_process.py).
use ixp_irc.Prelude.{
  Bool, true, false, List, [], ◌∷◌, ◌++◌, Option, none, some, nat_eq, list_eq, list_beq_iff,
  beq_refl, ◌==◌, if◌then◌else◌, Bool-cases, inl, inr, ◌⊎◌, contains, ok, ok-injective, ◌≡◌, refl,
  sym, ap, ◌∙◌, cons-cases, Result-cases, not-ok_raise,
}
use ixp_irc.Bgp.Rib.Laws.{IsRowFor}
use ixp_irc.Bgp.Text.{Text}
use ixp_irc.Bgp.Rib.{Route}
use ixp_irc.Bgp.Peer.{Peer, local_rib, add_route, delete_route}
use ixp_irc.Bgp.Decision.{
  Participants, Best, announce_best, on_peer, other_routes, best_path_selection, announce_loop,
}
use ixp_irc.Bgp.Decision.Inputs.{on_peer-SameOffers, replaced}
use ixp_irc.Bgp.Decision.Rows.{
  rows_of, choice, Decided, on_rows, rows_of-on_peer, rows-replace, best-IsRowFor,
}

-- If the others have no route, the participant has none.
abbrev pub Grown : Option (List Route) → List Route → Type 0
Grown rows offers = (l : List Route) → rows ≡ some l → offers ≡ [] → l ≡ []

pub Decided-Grown :
    (rows : Option (List Route)) (offers : List Route) → Decided rows offers → Grown rows offers
unfolding choice
Decided-Grown rows offers d l e q = sym (ok-injective (rw q at d l e))

pub some-injective : {x y : List Route} → some x ≡ some y → x ≡ y
some-injective e = cc

pub on_rows_id : (rows : Option (List Route)) → on_rows (λ l. l) rows ≡ rows
on_rows_id none = refl
on_rows_id (some l) = refl

pub either_way : (b : Bool) (x : Option (List Route)) → (if b then x else x) ≡ x
either_way true x = refl
either_way false x = refl

abbrev replace : Text → Route → Peer → Peer
replace k b p = add_route local_rib b.prefix b (delete_route local_rib k p)

-- One turn of the loop that does not raise.
announce_turn :
    (k m : Text) (ns : List Text) (ps : Participants) (best : List Best) {l : List Best}
    → (announce_loop k (m ∷ ns) ps best).0 ≡ ok l
    → ((other_routes m k ps ≡ []) × (announce_loop k (m ∷ ns) ps best ≡ announce_loop k ns ps best))
      ⊎ ((b : Route) × (choice (other_routes m k ps) ≡ ok (b ∷ []))
          × IsRowFor k b
          × (announce_loop k (m ∷ ns) ps best
              ≡ announce_loop k ns (on_peer m (replace k b) ps) (best ++ announce_best b ∷ [])))
unfolding announce_loop choice
announce_turn k m ns ps best h = elim (cons-cases (other_routes m k ps)) [
  | inl q ↦ inl (q, rw (q, announce_loop) refl)
  | inr (r, rs, q) ↦ elim (Result-cases (best_path_selection (r ∷ rs))) [
    | inl (b, e) ↦ inr (
      b,
      rw (q, choice) (rw e refl),
      best-IsRowFor m k ps {b = b} (ap best_path_selection q ∙ e),
      rw (q, announce_loop) (rw (e, announce_loop) refl),
    )
    | inr (z, e) ↦ absurd (not-ok_raise (rw (e, announce_loop) at (rw (q, announce_loop) at h)))
  ]
]

-- The participant's rows are decided, or they are still to be and can be.
abbrev pub Ready :
    (Option (List Route) → List Route → Type 0) → Text → Text → List Text → Participants → Type 0
Ready Can n k ns ps =
    Decided (rows_of n k ps) (other_routes n k ps)
    ⊎ (Can (rows_of n k ps) (other_routes n k ps) × (contains n ns ≡ true))

pub Decided-along :
    (rows rows' : Option (List Route)) (offers offers' : List Route)
    → rows' ≡ rows
    → offers' ≡ offers
    → Decided rows offers
    → Decided rows' offers'
Decided-along rows rows' offers offers' p q d l e = ap choice q ∙ d l (sym p ∙ e)

Grown-along :
    (rows rows' : Option (List Route)) (offers offers' : List Route)
    → rows' ≡ rows
    → offers' ≡ offers
    → Grown rows offers
    → Grown rows' offers'
Grown-along rows rows' offers offers' p q g l e o = g l (sym p ∙ e) (sym q ∙ o)

pub Decided-on_rows :
    (rows : Option (List Route)) (chosen : List Route) (offers : List Route)
    → choice offers ≡ ok chosen
    → Decided (on_rows (λ l. chosen) rows) offers
Decided-on_rows none chosen offers h = λ l e. cc
Decided-on_rows (some l0) chosen offers h = λ l e. h ∙ ap ok (some-injective e)

same_offers :
    (n m j k : Text) (b : Route) (ps : Participants)
    → other_routes n j (on_peer m (replace k b) ps) ≡ other_routes n j ps
same_offers n m j k b ps =
    on_peer-SameOffers m (replace k b) (λ q p. replaced q b.prefix b k p) ps n j

replaced_rows :
    (n m k : Text) (b : Route) (ps : Participants)
    → IsRowFor k b
    → rows_of n k (on_peer m (replace k b) ps)
      ≡ (if n == m then on_rows (λ l. b ∷ []) (rows_of n k ps) else rows_of n k ps)
replaced_rows n m k b ps h =
    rows_of-on_peer m (replace k b) k (λ l. b ∷ [])
      (λ p. rows-replace k k b p h ∙ rw (beq_refl k) refl) n ps

replaced_other :
    (n m j k : Text) (b : Route) (ps : Participants)
    → IsRowFor k b
    → (j == k) ≡ false
    → rows_of n j (on_peer m (replace k b) ps) ≡ rows_of n j ps
replaced_other n m j k b ps h f =
    rows_of-on_peer m (replace k b) j (λ l. l) (λ p. rows-replace j k b p h ∙ rw f refl) n ps
    ∙ rw (on_rows_id (rows_of n j ps)) (either_way (n == m) (rows_of n j ps))

Ready-turn :
    (n m k : Text) (ns : List Text) (b : Route) (ps : Participants)
    → choice (other_routes m k ps) ≡ ok (b ∷ [])
    → IsRowFor k b
    → Ready Grown n k (m ∷ ns) ps
    → Ready Grown n k ns (on_peer m (replace k b) ps)
unfolding contains
Ready-turn n m k ns b ps h hb r = elim (Bool-cases (n == m)) [
  | inl t ↦
      let e : n ≡ m = (list_beq_iff n m).0 t in
      inl (
        Decided-along (on_rows (λ l. b ∷ []) (rows_of n k ps)) _ (other_routes n k ps) _
          (replaced_rows n m k b ps hb ∙ rw t refl) (same_offers n m k k b ps)
          (Decided-on_rows (rows_of n k ps) (b ∷ []) (other_routes n k ps)
            (ap (λ x. choice (other_routes x k ps)) e ∙ h)))
  | inr f ↦
      let p : rows_of n k (on_peer m (replace k b) ps) ≡ rows_of n k ps =
        replaced_rows n m k b ps hb ∙ rw f refl in
      elim r [
        | inl d ↦ inl (
            Decided-along (rows_of n k ps) _ (other_routes n k ps) _ p (same_offers n m k k b ps) d)
        | inr g ↦ inr (
          Grown-along (rows_of n k ps) _ (other_routes n k ps) _ p (same_offers n m k k b ps) g.0,
          rw f at g.1,
        )
      ]
]

-- Without a route of the others, a turn decides that there is none.
Ready-none :
    (n m k : Text) (ns : List Text) (ps : Participants)
    → other_routes m k ps ≡ []
    → Ready Grown n k (m ∷ ns) ps
    → Ready Grown n k ns ps
unfolding contains choice
Ready-none n m k ns ps h (inl d) = inl d
Ready-none n m k ns ps h (inr (g, c)) = elim (Bool-cases (n == m)) [
  | inl t ↦
      let e : n ≡ m = (list_beq_iff n m).0 t in
      let none_offered : other_routes n k ps ≡ [] = ap (λ x. other_routes x k ps) e ∙ h in
      inl (λ l q. rw none_offered (ap ok (sym (g l q none_offered))))
  | inr f ↦ inr (g, rw f at c)
]

pub announce_loop-Decided :
    (n k : Text) (ns : List Text) (ps : Participants) (best : List Best) {l : List Best}
    → (announce_loop k ns ps best).0 ≡ ok l
    → Ready Grown n k ns ps
    → Decided
        (rows_of n k (announce_loop k ns ps best).1)
        (other_routes n k (announce_loop k ns ps best).1)
unfolding announce_loop contains
announce_loop-Decided n k [] ps best h (inl d) = d
announce_loop-Decided n k [] ps best h (inr (g, c)) = cc
announce_loop-Decided n k (m ∷ ns) ps best h r = elim (announce_turn k m ns ps best h) [
  | inl (none_offered, q) ↦
      rw q
        (announce_loop-Decided n k ns ps best (rw q at h) (Ready-none n m k ns ps none_offered r))
  | inr (b, chosen, hb, q) ↦ rw q (
      announce_loop-Decided n k ns (on_peer m (replace k b) ps) (best ++ announce_best b ∷ [])
        (rw q at h) (Ready-turn n m k ns b ps chosen hb r))
]

-- The rows of other prefixes stay.
pub announce_loop-other :
    (n j k : Text) (ns : List Text) (ps : Participants) (best : List Best) {l : List Best}
    → (announce_loop k ns ps best).0 ≡ ok l
    → (j == k) ≡ false
    → rows_of n j (announce_loop k ns ps best).1 ≡ rows_of n j ps
unfolding announce_loop
announce_loop-other n j k [] ps best h f = refl
announce_loop-other n j k (m ∷ ns) ps best h f = elim (announce_turn k m ns ps best h) [
  | inl (none_offered, q) ↦ rw q (announce_loop-other n j k ns ps best (rw q at h) f)
  | inr (b, chosen, hb, q) ↦ rw q (
      announce_loop-other n j k ns (on_peer m (replace k b) ps) (best ++ announce_best b ∷ [])
        (rw q at h) f
      ∙ replaced_other n m j k b ps hb f)
]

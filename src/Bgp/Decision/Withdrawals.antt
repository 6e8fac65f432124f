-- ===== src/Bgp/Decision/Withdrawals.antt =====
-- What the loop for a withdrawn prefix does to the best routes (bgp/decision_process.py).
use ixp_irc.Prelude.{
  true, false, List, [], ◌∷◌, ◌++◌, Option, none, some, nat_eq, list_eq, list_beq_iff, ◌==◌,
  Bool-cases, inl, inr, contains, ok, ◌≡◌, refl, sym, ap, ◌∙◌, cons-cases, Option-cases,
}
use ixp_irc.Bgp.Rib.Laws.{IsRowFor}
use ixp_irc.Bgp.Text.{Text}
use ixp_irc.Bgp.Rib.{Route}
use ixp_irc.Bgp.Peer.{local_rib, get_routes}
use ixp_irc.Bgp.Decision.{
  Participants, Best, withdraw_best, on_peer, peer_of, uses, other_routes, withdraw_loop,
}
use ixp_irc.Bgp.Decision.Rows.{rows_of, choice, Decided, on_rows, best-IsRowFor}
use ixp_irc.Bgp.Decision.Loops.{Ready, Decided-along, Decided-on_rows, some-injective}
use ixp_irc.Bgp.Decision.Dropped.{
  Shrunk, drop, put_best, withdraw_turn, offers_dropped, offers_put, rows_dropped,
  rows_dropped_other, rows_put, rows_put_other,
}

-- A participant that uses no route for the prefix has no row.
unused :
    (m k : Text) (ps : Participants) (l : List Route)
    → uses k (peer_of m ps) ≡ false
    → rows_of m k ps ≡ some l
    → l ≡ []
unfolding rows_of
unused m k ps l f e = elim (Option-cases (peer_of m ps)) [
  | inl q ↦ let z : none ≡ some l = (rw (q, rows_of) at e) in cc
  | inr (p, q) ↦ elim (cons-cases (get_routes local_rib k p)) [
    | inl z ↦ let v : some [] ≡ some l = (rw z at (rw (q, rows_of) at e)) in sym (some-injective v)
    | inr (r, rs, z) ↦ let v : true ≡ false = (rw (z, uses) at (rw q at f)) in cc
  ]
]

Shrunk-along :
    (rows rows' : Option (List Route)) (offers offers' : List Route)
    → rows' ≡ rows
    → offers' ≡ offers
    → Shrunk rows offers
    → Shrunk rows' offers'
Shrunk-along rows rows' offers offers' p q s e = q ∙ s (sym p ∙ e)

-- A turn for another participant leaves the state of this one.
Ready-along :
    (n m k : Text) (ns : List Text) (ps ps' : Participants)
    → (n == m) ≡ false
    → rows_of n k ps' ≡ rows_of n k ps
    → other_routes n k ps' ≡ other_routes n k ps
    → Ready Shrunk n k (m ∷ ns) ps
    → Ready Shrunk n k ns ps'
unfolding contains
Ready-along n m k ns ps ps' f p q (inl d) =
    inl (Decided-along (rows_of n k ps) _ (other_routes n k ps) _ p q d)
Ready-along n m k ns ps ps' f p q (inr (g, c)) =
    inr (Shrunk-along (rows_of n k ps) _ (other_routes n k ps) _ p q g, rw f at c)

Ready-unused :
    (n m k : Text) (ns : List Text) (ps : Participants)
    → uses k (peer_of m ps) ≡ false
    → Ready Shrunk n k (m ∷ ns) ps
    → Ready Shrunk n k ns ps
unfolding choice
Ready-unused n m k ns ps u (inl d) = inl d
Ready-unused n m k ns ps u (inr (g, c)) = elim (Bool-cases (n == m)) [
  | inl t ↦
      let e : n ≡ m = (list_beq_iff n m).0 t in
      inl (λ l q.
        let empty_rows : l ≡ [] = unused m k ps l u (ap (λ x. rows_of x k ps) (sym e) ∙ q) in
        let no_offer : other_routes n k ps ≡ [] = g (q ∙ ap some empty_rows) in
        ap choice no_offer ∙ ap ok (sym empty_rows))
  | inr f ↦ Ready-along n m k ns ps ps f refl refl (inr (g, c))
]

Ready-dropped :
    (n m k : Text) (ns : List Text) (ps : Participants)
    → other_routes m k (on_peer m (drop k) ps) ≡ []
    → Ready Shrunk n k (m ∷ ns) ps
    → Ready Shrunk n k ns (on_peer m (drop k) ps)
unfolding choice
Ready-dropped n m k ns ps h r = elim (Bool-cases (n == m)) [
  | inl t ↦
      let e : n ≡ m = (list_beq_iff n m).0 t in
      inl (
        Decided-along (on_rows (λ l. []) (rows_of n k ps)) _ [] _
          (rows_dropped n m k ps ∙ rw t refl)
          (ap (λ x. other_routes x k (on_peer m (drop k) ps)) e ∙ h)
          (Decided-on_rows (rows_of n k ps) [] [] refl))
  | inr f ↦
      Ready-along n m k ns ps _ f (rows_dropped n m k ps ∙ rw f refl) (offers_dropped n m k k ps) r
]

on_rows_twice :
    (b : Route) (rows : Option (List Route))
    → on_rows (λ l. l ++ b ∷ []) (on_rows (λ l. []) rows) ≡ on_rows (λ l. b ∷ []) rows
on_rows_twice b none = refl
on_rows_twice b (some l) = refl

Ready-chosen :
    (n m k : Text) (ns : List Text) (b : Route) (ps : Participants)
    → choice (other_routes m k (on_peer m (drop k) ps)) ≡ ok (b ∷ [])
    → IsRowFor k b
    → Ready Shrunk n k (m ∷ ns) ps
    → Ready Shrunk n k ns (on_peer m (put_best b) (on_peer m (drop k) ps))
Ready-chosen n m k ns b ps h hb r = elim (Bool-cases (n == m)) [
  | inl t ↦
      let e : n ≡ m = (list_beq_iff n m).0 t in
      let dropped : rows_of n k (on_peer m (drop k) ps) ≡ on_rows (λ l. []) (rows_of n k ps) =
        rows_dropped n m k ps ∙ rw t refl in
      inl (
        Decided-along (on_rows (λ l. b ∷ []) (rows_of n k ps)) _
          (other_routes n k (on_peer m (drop k) ps)) _
          (rows_put n m k b (on_peer m (drop k) ps) hb
            ∙ rw t (rw dropped (on_rows_twice b (rows_of n k ps))))
          (offers_put n m k b (on_peer m (drop k) ps))
          (Decided-on_rows (rows_of n k ps) (b ∷ []) _
            (ap (λ x. choice (other_routes x k (on_peer m (drop k) ps))) e ∙ h)))
  | inr f ↦
      Ready-along n m k ns ps _ f
        (rows_put n m k b (on_peer m (drop k) ps) hb ∙ rw f (rows_dropped n m k ps ∙ rw f refl))
        (offers_put n m k b (on_peer m (drop k) ps) ∙ offers_dropped n m k k ps) r
]

pub withdraw_loop-Decided :
    (n k : Text) (ns : List Text) (ps : Participants) (best : List Best) {l : List Best}
    → (withdraw_loop k ns ps best).0 ≡ ok l
    → Ready Shrunk n k ns ps
    → Decided
        (rows_of n k (withdraw_loop k ns ps best).1)
        (other_routes n k (withdraw_loop k ns ps best).1)
unfolding withdraw_loop contains
withdraw_loop-Decided n k [] ps best h (inl d) = d
withdraw_loop-Decided n k [] ps best h (inr (g, c)) = cc
withdraw_loop-Decided n k (m ∷ ns) ps best h r = elim (withdraw_turn k m ns ps best h) [
  | inl (u, q) ↦
      rw q (withdraw_loop-Decided n k ns ps best (rw q at h) (Ready-unused n m k ns ps u r))
  | inr (inl (no_offer, q)) ↦ rw q (
      withdraw_loop-Decided n k ns (on_peer m (drop k) ps) best (rw q at h)
        (Ready-dropped n m k ns ps no_offer r))
  | inr (inr (b, e, chosen, q)) ↦ rw q (
      withdraw_loop-Decided n k ns (on_peer m (put_best b) (on_peer m (drop k) ps))
        (best ++ withdraw_best b ∷ []) (rw q at h)
        (Ready-chosen n m k ns b ps chosen (best-IsRowFor m k (on_peer m (drop k) ps) e) r))
]

-- The rows of other prefixes stay.
pub withdraw_loop-other :
    (n j k : Text) (ns : List Text) (ps : Participants) (best : List Best) {l : List Best}
    → (withdraw_loop k ns ps best).0 ≡ ok l
    → (j == k) ≡ false
    → rows_of n j (withdraw_loop k ns ps best).1 ≡ rows_of n j ps
unfolding withdraw_loop
withdraw_loop-other n j k [] ps best h f = refl
withdraw_loop-other n j k (m ∷ ns) ps best h f = elim (withdraw_turn k m ns ps best h) [
  | inl (u, q) ↦ rw q (withdraw_loop-other n j k ns ps best (rw q at h) f)
  | inr (inl (no_offer, q)) ↦ rw q (
      withdraw_loop-other n j k ns (on_peer m (drop k) ps) best (rw q at h) f
      ∙ rows_dropped_other n m j k ps f)
  | inr (inr (b, e, chosen, q)) ↦ rw q (
      withdraw_loop-other n j k ns (on_peer m (put_best b) (on_peer m (drop k) ps))
        (best ++ withdraw_best b ∷ []) (rw q at h) f
      ∙ (rows_put_other n m j k b (on_peer m (drop k) ps)
            (best-IsRowFor m k (on_peer m (drop k) ps) e) f
          ∙ rows_dropped_other n m j k ps f))
]

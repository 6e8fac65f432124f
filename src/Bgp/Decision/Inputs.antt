-- ===== src/Bgp/Decision/Inputs.antt =====
-- `decision_process` changes the best routes only (bgp/decision_process.py).
use ixp_irc.Prelude.{
  List, [], ◌∷◌, ◌++◌, nat_eq, list_eq, some, none, Result, ok, raise, ◌≡◌, refl, ap, ◌∙◌, arith,
  Bool-cases, inl, inr, keys,
}
use ixp_irc.Bgp.Text.{Text}
use ixp_irc.Bgp.Rib.{Route}
use ixp_irc.Bgp.Peer.{
  Peer, Item, announced, withdrawn, input_rib, local_rib, get_routes, add_route, delete_route,
}
use ixp_irc.Bgp.Decision.{
  Participants, Best, announce_best, withdraw_best, other_routes, on_peer, peer_of, uses,
  best_path_selection, announce_loop, withdraw_loop, announce_none, decision_process,
}

-- Every participant is offered the same routes of the others.
abbrev pub SameOffers : Participants → Participants → Type 0
SameOffers ps ps' =
    (name prefix : Text) → other_routes name prefix ps' ≡ other_routes name prefix ps

pub on_peer-SameOffers :
    (who : Text) (f : Peer → Peer)
    → ((prefix : Text) (p : Peer)
        → get_routes input_rib prefix (f p) ≡ get_routes input_rib prefix p)
    → (ps : Participants) → SameOffers ps (on_peer who f ps)
unfolding other_routes on_peer
on_peer-SameOffers who f same [] name prefix = refl
on_peer-SameOffers who f same ((other, p) ∷ ps) name prefix =
    ground (arith, same prefix p, on_peer-SameOffers who f same ps name prefix)

pub replaced :
    (k prefix : Text) (b : Route) (q : Text) (p : Peer)
    → get_routes input_rib k (add_route local_rib prefix b (delete_route local_rib q p))
      ≡ get_routes input_rib k p
unfolding get_routes add_route delete_route
replaced k prefix b q p = refl

pub added :
    (k prefix : Text) (b : Route) (p : Peer)
    → get_routes input_rib k (add_route local_rib prefix b p) ≡ get_routes input_rib k p
unfolding get_routes add_route
added k prefix b p = refl

pub deleted :
    (k prefix : Text) (p : Peer)
    → get_routes input_rib k (delete_route local_rib prefix p) ≡ get_routes input_rib k p
unfolding get_routes delete_route
deleted k prefix p = refl

pub announce_loop-SameOffers :
    (prefix : Text) (names : List Text) (ps : Participants) (best : List Best)
    → SameOffers ps (announce_loop prefix names ps best).1
unfolding announce_loop
announce_loop-SameOffers prefix [] ps best n k = refl
announce_loop-SameOffers prefix (name ∷ names) ps best n k =
    go (other_routes name prefix ps) (announce_loop-SameOffers prefix names)
  where
    choose :
        (x : Result Route)
        → ((qs : Participants) (l : List Best) → SameOffers qs (announce_loop prefix names qs l).1)
        → other_routes n k
            (elim x as (λ z. Result (List Best) × Participants) [
              | raise z ↦ (raise z, ps)
              | ok b ↦
                  announce_loop prefix names
                    (on_peer name
                      (λ p. add_route local_rib b.prefix b (delete_route local_rib prefix p))
                      ps)
                    (best ++ announce_best b ∷ [])
            ]).1
          ≡ other_routes n k ps
    choose (raise z) ih = refl
    choose (ok b) ih =
        ih _ _ n k
        ∙ on_peer-SameOffers name
            (λ p. add_route local_rib b.prefix b (delete_route local_rib prefix p))
            (λ j p. replaced j b.prefix b prefix p) ps n k

    go :
        (rs : List Route)
        → ((qs : Participants) (l : List Best) → SameOffers qs (announce_loop prefix names qs l).1)
        → other_routes n k
            (elim rs as (λ z. Result (List Best) × Participants) [
              | [] ↦ announce_loop prefix names ps best
              | r ∷ rs' ↦
                  elim (best_path_selection (r ∷ rs')) as (λ z. Result (List Best) × Participants) [
                    | raise z ↦ (raise z, ps)
                    | ok b ↦
                        announce_loop prefix names
                          (on_peer name
                            (λ p. add_route local_rib b.prefix b (delete_route local_rib prefix p))
                            ps)
                          (best ++ announce_best b ∷ [])
                  ]
            ]).1
          ≡ other_routes n k ps
    go [] ih = ih ps best n k
    go (r ∷ rs') ih = choose (best_path_selection (r ∷ rs')) ih

-- A withdrawal for one participant that uses a route, from the participants `ps` without it.
withdraw_step :
    (prefix name : Text) (names : List Text) (ps : Participants) (best : List Best)
    → ((qs : Participants) (l : List Best) → SameOffers qs (withdraw_loop prefix names qs l).1)
    → (n k : Text) (rs : List Route)
    → other_routes n k
        (elim rs as (λ z. Result (List Best) × Participants) [
          | [] ↦ withdraw_loop prefix names ps best
          | r ∷ rs' ↦
              elim (best_path_selection (r ∷ rs')) as (λ z. Result (List Best) × Participants) [
                | raise z ↦ (raise z, ps)
                | ok b ↦
                    withdraw_loop prefix names
                      (on_peer name (add_route local_rib b.prefix b) ps)
                      (best ++ withdraw_best b ∷ [])
              ]
        ]).1
      ≡ other_routes n k ps
withdraw_step prefix name names ps best ih n k [] = ih ps best n k
withdraw_step prefix name names ps best ih n k (r ∷ rs) = choose (best_path_selection (r ∷ rs))
  where
    choose :
        (x : Result Route)
        → other_routes n k
            (elim x as (λ z. Result (List Best) × Participants) [
              | raise z ↦ (raise z, ps)
              | ok b ↦
                  withdraw_loop prefix names
                    (on_peer name (add_route local_rib b.prefix b) ps)
                    (best ++ withdraw_best b ∷ [])
            ]).1
          ≡ other_routes n k ps
    choose (raise z) = refl
    choose (ok b) =
        ih _ _ n k
        ∙ on_peer-SameOffers name (add_route local_rib b.prefix b) (λ j p. added j b.prefix b p) ps
            n k

pub withdraw_loop-SameOffers :
    (prefix : Text) (names : List Text) (ps : Participants) (best : List Best)
    → SameOffers ps (withdraw_loop prefix names ps best).1
unfolding withdraw_loop
withdraw_loop-SameOffers prefix [] ps best n k = refl
withdraw_loop-SameOffers prefix (name ∷ names) ps best n k =
    elim (Bool-cases (uses prefix (peer_of name ps))) [
      | inr f ↦ rw (f, withdraw_loop) (withdraw_loop-SameOffers prefix names ps best n k)
      | inl t ↦
          let ps' = on_peer name (delete_route local_rib prefix) ps in
          rw (t, withdraw_loop)
            (withdraw_step prefix name names ps' best (withdraw_loop-SameOffers prefix names) n k
                (other_routes name prefix ps')
              ∙ on_peer-SameOffers name (delete_route local_rib prefix) (λ j p. deleted j prefix p)
                  ps n k)
    ]

pub announce_none-participants : (ps : Participants) → (announce_none ps).1 ≡ ps
unfolding announce_none
announce_none-participants [] = refl
announce_none-participants (p ∷ []) = refl
announce_none-participants (p ∷ q ∷ ps) = refl

-- `decision_process`, for an announced or a withdrawn route and also where it raises, leaves to each
-- participant the same announced routes of the others to choose from, for every prefix.
pub decision_process-SameOffers :
    (ps : Participants) (item : Item) → SameOffers ps (decision_process ps item).1
unfolding decision_process
decision_process-SameOffers ps (announced none) n k =
    ap (other_routes n k) (announce_none-participants ps)
decision_process-SameOffers ps (announced (some r)) n k =
    announce_loop-SameOffers r.prefix (keys ps) ps [] n k
decision_process-SameOffers ps (withdrawn none) n k = refl
decision_process-SameOffers ps (withdrawn (some r)) n k =
    withdraw_loop-SameOffers r.prefix (keys ps) ps [] n k

-- ===== src/Bgp/RouteServer/Announcing.antt =====
-- What the last loops of the route server announce (bgp/route_server.py).
use ixp_irc.Prelude.{
  List, [], ◌∷◌, ◌++◌, Option, none, some, nat_eq, list_eq, Dict, get, In, In-append,
  In-append_left, In-append_right, ok, bind_of, ok-injective, subst, ◌≡◌, ◌↔◌, refl, sym, ap, ◌∙◌,
  inl, inr, Option-cases,
}
use ixp_irc.Bgp.Text.{Text}
use ixp_irc.Bgp.Rib.{Route}
use ixp_irc.Bgp.Peer.{local_rib, get_route}
use ixp_irc.Bgp.Decision.{Participants}
use ixp_irc.Bgp.RouteServer.{
  announce_route, announcement, announcements_for, announcements, put_all, and_then,
}

abbrev or_else : Option Route → Option Route → Option Route
or_else none o = o
or_else (some route) o = some route

-- The best route of the first participant that has one for the prefix.
abbrev pub first_route : Text → Participants → Option Route
first_route prefix [] = none
first_route prefix ((name, p) ∷ ps) = or_else (get_route local_rib prefix p) (first_route prefix ps)

-- The text announces such a route for one of the prefixes, with the address.
abbrev pub Announces : Participants → Text → List Text → Text → Type 0
Announces ps ip prefixes t =
    (prefix : Text) × In prefix prefixes
    × ((route : Route) × (first_route prefix ps ≡ some route) × (t ≡ announce_route route ip))

-- The text announces a route for a prefix of a virtual next hop, with the address of that.
abbrev pub AnnouncesVnh : Dict Text Text → Participants → Dict Text (List Text) → Text → Type 0
AnnouncesVnh ips ps vnhs t =
    (vnh : Text) × (prefixes : List Text) × In (vnh, prefixes) vnhs
    × ((ip : Text) × (get ips vnh ≡ ok ip) × Announces ps ip prefixes t)

-- Every virtual next hop has an address.
abbrev pub HaveAddresses : Dict Text Text → Dict Text (List Text) → Type 0
HaveAddresses ips [] = Unit
HaveAddresses ips ((vnh, prefixes) ∷ vnhs) =
    ((ip : Text) × (get ips vnh ≡ ok ip)) × HaveAddresses ips vnhs

-- The text for one prefix, if there is a route for it.
abbrev one_text : Option Route → Text → List Text
one_text none ip = []
one_text (some route) ip = announce_route route ip ∷ []

module _ (ips : Dict Text Text) where
  announcement_one :
      (vnh prefix : Text) (ps : Participants) {ip : Text}
      → get ips vnh ≡ ok ip
      → announcement ips vnh prefix ps ≡ ok (one_text (first_route prefix ps) ip)
  unfolding announcement
  announcement_one vnh prefix [] {ip} h = refl
  announcement_one vnh prefix ((name, p) ∷ ps) {ip} h =
      elim (Option-cases (get_route local_rib prefix p)) [
        | inl q ↦ rw (q, announcement) (announcement_one vnh prefix ps h)
        | inr (route, q) ↦ rw (q, announcement) (bind_of _ h)
      ]

  abbrev texts_for : List Text → Participants → Text → List Text
  texts_for [] ps ip = []
  texts_for (prefix ∷ prefixes) ps ip =
      one_text (first_route prefix ps) ip ++ texts_for prefixes ps ip

  announcements_for_all :
      (vnh : Text) (prefixes : List Text) (ps : Participants) {ip : Text}
      → get ips vnh ≡ ok ip
      → announcements_for ips vnh prefixes ps ≡ (texts_for prefixes ps ip, ok tt)
  unfolding announcements_for put_all
  announcements_for_all vnh [] ps h = refl
  announcements_for_all vnh (prefix ∷ prefixes) ps h =
      rw (announcement_one vnh prefix ps h) (rw (announcements_for_all vnh prefixes ps h) refl)

  In-one_text :
      (o : Option Route) (ip t : Text)
      → In t (one_text o ip)
      → (route : Route) × (o ≡ some route) × (t ≡ announce_route route ip)
  In-one_text none ip t i = absurd i
  In-one_text (some route) ip t (inl e) = (route, refl, e)
  In-one_text (some route) ip t (inr z) = absurd z

  one_text-In :
      (o : Option Route) (ip t : Text) {route : Route}
      → o ≡ some route
      → t ≡ announce_route route ip
      → In t (one_text o ip)
  one_text-In o ip t {route} h e = rw h (inl e)

  texts_for-Announces :
      (prefixes : List Text) (ps : Participants) (ip t : Text)
      → In t (texts_for prefixes ps ip) ↔ Announces ps ip prefixes t
  texts_for-Announces prefixes ps ip t = (to prefixes, from prefixes)
    where
      to : (ks : List Text) → In t (texts_for ks ps ip) → Announces ps ip ks t
      to [] i = absurd i
      to (k ∷ ks) i = elim (In-append t (one_text (first_route k ps) ip) (texts_for ks ps ip) i) [
        | inl j ↦ (k, inl refl, In-one_text (first_route k ps) ip t j)
        | inr j ↦ let (k', at_k, r) = to ks j in (k', inr at_k, r)
      ]

      from : (ks : List Text) → Announces ps ip ks t → In t (texts_for ks ps ip)
      from [] (k, at_k, r) = absurd at_k
      from (k ∷ ks) (k', inl q, (route, h, e)) =
          In-append_left t (one_text (first_route k ps) ip) (texts_for ks ps ip)
            (one_text-In (first_route k ps) ip t (ap (λ x. first_route x ps) (sym q) ∙ h) e)
      from (k ∷ ks) (k', inr at_k, r) =
          In-append_right t (one_text (first_route k ps) ip) (texts_for ks ps ip)
            (from ks (k', at_k, r))

  -- The texts of the first virtual next hop and of the others.
  cons_iff :
      (vnh : Text) (prefixes : List Text) (vnhs : Dict Text (List Text)) (ps : Participants)
      (ip : Text) (rest : List Text) (t : Text)
      → get ips vnh ≡ ok ip
      → In t rest ↔ AnnouncesVnh ips ps vnhs t
      → In t (texts_for prefixes ps ip ++ rest) ↔ AnnouncesVnh ips ps ((vnh, prefixes) ∷ vnhs) t
  cons_iff vnh prefixes vnhs ps ip rest t h e = (to, from)
    where
      to : In t (texts_for prefixes ps ip ++ rest) → AnnouncesVnh ips ps ((vnh, prefixes) ∷ vnhs) t
      to i = elim (In-append t (texts_for prefixes ps ip) rest i) [
        | inl j ↦ (vnh, prefixes, inl refl, (ip, h, (texts_for-Announces prefixes ps ip t).0 j))
        | inr j ↦ let (v, ks, at_v, r) = e.0 j in (v, ks, inr at_v, r)
      ]

      from :
          AnnouncesVnh ips ps ((vnh, prefixes) ∷ vnhs) t → In t (texts_for prefixes ps ip ++ rest)
      from (v, ks, inr at_v, r) =
          In-append_right t (texts_for prefixes ps ip) rest (e.1 (v, ks, at_v, r))
      from (v, ks, inl q, (ip', g, a)) =
          let same_vnh : v ≡ vnh = ap (λ x. x.0) q in
          let same_prefixes : ks ≡ prefixes = ap (λ x. x.1) q in
          let same_ip : ip' ≡ ip = ok-injective (sym g ∙ (ap (get ips) same_vnh ∙ h)) in
          In-append_left t (texts_for prefixes ps ip) rest (
            (texts_for-Announces prefixes ps ip t).1 (
              subst (λ x. Announces ps x prefixes t) same_ip
                (subst (λ x. Announces ps ip' x t) same_prefixes a)))

-- Where every virtual next hop has an address, the last loops of a round end without an exception, and a
-- text is sent exactly if it announces, for a prefix of some virtual next hop for which a participant
-- has a best route, the route of the first such participant with the address of the virtual next hop.
pub announcements_iff :
    (ips : Dict Text Text) (vnhs : Dict Text (List Text)) (ps : Participants)
    → HaveAddresses ips vnhs
    → (texts : List Text) × (announcements ips vnhs ps ≡ (texts, ok tt))
      × ((t : Text) → In t texts ↔ AnnouncesVnh ips ps vnhs t)
unfolding announcements and_then
announcements_iff ips [] ps h = ([], refl, λ t. ((λ i. absurd i), (λ a. absurd a.2)))
announcements_iff ips ((vnh, prefixes) ∷ vnhs) ps ((ip, q), h) =
    let (rest, p, e) = announcements_iff ips vnhs ps h in
    (
      texts_for ips prefixes ps ip ++ rest,
      rw (announcements_for_all ips vnh prefixes ps q) (rw p refl),
      λ t. cons_iff ips vnh prefixes vnhs ps ip rest t q (e t),
    )

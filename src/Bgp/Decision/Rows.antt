-- ===== src/Bgp/Decision/Rows.antt =====
-- The best routes that a participant holds, and what the changes of the decision process do to them
-- (bgp/decision_process.py).
use ixp_irc.Prelude.{
  true, false, List, [], ◌∷◌, ◌++◌, Option, none, some, nat_eq, list_eq, list_beq_iff, ◌==◌,
  if◌then◌else◌, Bool-cases, inl, inr, In, In-append, Result, ok, ◌>>=◌, ◌≡◌, refl, sym, ap, ◌∙◌,
  arith,
}
use ixp_irc.Bgp.Text.{Text}
use ixp_irc.Bgp.Rib.{Route, Rib, get_all, add, delete, commit}
use ixp_irc.Bgp.Rib.Laws.{IsRowFor, get_all-IsRowFor, get_all-add, get_all-delete}
use ixp_irc.Bgp.Peer.{Peer, local_rib, input_rib, get_routes, add_route, delete_route}
use ixp_irc.Bgp.Decision.{Participants, on_peer, peer_of, other_routes, best_path_selection}
use ixp_irc.Bgp.Decision.Members.{best_path_selection-In}

-- The rows of the prefix in the participant's `local`, if it is a participant.
unfoldable pub rows_of : Text → Text → Participants → Option (List Route)
unfolding peer_of
rows_of n j ps = elim (peer_of n ps) [ none ↦ none | some p ↦ some (get_routes local_rib j p) ]

-- What the rules choose among the routes: none of none, else the best one.
unfoldable pub choice : List Route → Result (List Route)
choice [] = ok []
choice (r ∷ rs) = best_path_selection (r ∷ rs) >>= λ b. ok (b ∷ [])

-- The rows are what the rules choose among the routes that the others announced.
abbrev pub Decided : Option (List Route) → List Route → Type 0
Decided rows offers = (l : List Route) → rows ≡ some l → choice offers ≡ ok l

abbrev pub on_rows : (List Route → List Route) → Option (List Route) → Option (List Route)
on_rows g none = none
on_rows g (some l) = some (g l)

pub rows_of-on_peer :
    (m : Text) (f : Peer → Peer) (j : Text) (g : List Route → List Route)
    → ((p : Peer) → get_routes local_rib j (f p) ≡ g (get_routes local_rib j p))
    → (n : Text) (ps : Participants)
    → rows_of n j (on_peer m f ps) ≡ (if n == m then on_rows g (rows_of n j ps) else rows_of n j ps)
unfolding rows_of on_peer peer_of
rows_of-on_peer m f j g h n [] = ground arith
rows_of-on_peer m f j g h n ((other, p) ∷ ps) = elim (Bool-cases (n == other)) [
  | inl t ↦ elim (Bool-cases (n == m)) [
    | inl u ↦
        let e : n ≡ other = (list_beq_iff n other).0 t in
        let e2 : n ≡ m = (list_beq_iff n m).0 u in
        let v : (m == other) ≡ true = (list_beq_iff m other).1 (sym e2 ∙ e) in
        rw (t, rows_of) (rw (u, v) (ap some (h p)))
    | inr u ↦
        let e : n ≡ other = (list_beq_iff n other).0 t in
        let v : (m == other) ≡ false =
          ground (arith, list_beq_iff m other, list_beq_iff n m, e, u) in
        rw (t, rows_of) (rw (u, v) refl)
  ]
  | inr f' ↦ rw (f', rows_of) (rows_of-on_peer m f j g h n ps)
]

commit_same : (j : Text) (rib : Rib) → get_all (some j) (commit rib) ≡ get_all (some j) rib
unfolding get_all commit
commit_same j rib = refl

-- Deleting the routes of a prefix, and adding one.
pub rows-delete :
    (j k : Text) (p : Peer)
    → get_routes local_rib j (delete_route local_rib k p)
      ≡ (if j == k then [] else get_routes local_rib j p)
unfolding get_routes delete_route
rows-delete j k p = commit_same j (delete k p.local) ∙ get_all-delete j k p.local

pub rows-add :
    (j k : Text) (b : Route) (p : Peer)
    → IsRowFor k b
    → get_routes local_rib j (add_route local_rib b.prefix b p)
      ≡ (if j == k then get_routes local_rib j p ++ b ∷ [] else get_routes local_rib j p)
unfolding get_routes add_route
rows-add j k b p h = rw (← h.0) (
    commit_same j (add b.prefix b p.local)
    ∙ (get_all-add j b.prefix b p.local
        ∙ ap
            (λ x.
              if j == b.prefix
              then get_routes local_rib j p ++ x ∷ []
              else get_routes local_rib j p)
            h.1))

pub rows-replace :
    (j k : Text) (b : Route) (p : Peer)
    → IsRowFor k b
    → get_routes local_rib j (add_route local_rib b.prefix b (delete_route local_rib k p))
      ≡ (if j == k then b ∷ [] else get_routes local_rib j p)
rows-replace j k b p h =
    rows-add j k b (delete_route local_rib k p) h ∙ ground (arith, rows-delete j k p)

-- The routes of the others are rows for the prefix.
pub other_routes-IsRowFor :
    (n k : Text) (ps : Participants) (r : Route) → In r (other_routes n k ps) → IsRowFor k r
unfolding other_routes get_routes
other_routes-IsRowFor n k [] r i = absurd i
other_routes-IsRowFor n k ((other, p) ∷ ps) r i = elim (Bool-cases (n == other)) [
  | inl t ↦ other_routes-IsRowFor n k ps r (rw (t, other_routes) at i)
  | inr f ↦
      elim (In-append r (get_routes input_rib k p) (other_routes n k ps)
        (rw (f, other_routes) at i)) [
          | inl j ↦ get_all-IsRowFor k p.input r j
          | inr j ↦ other_routes-IsRowFor n k ps r j
        ]
]

pub best-IsRowFor :
    (n k : Text) (ps : Participants) {b : Route}
    → best_path_selection (other_routes n k ps) ≡ ok b
    → IsRowFor k b
best-IsRowFor n k ps {b} h =
    other_routes-IsRowFor n k ps b (best_path_selection-In (other_routes n k ps) h)

-- ===== src/Bgp/Decision.antt =====
-- bgp/decision_process.py: the choice of the best path among routes, and its use for every
-- participant when a route is announced or withdrawn.
pub mod Paths
pub mod Order
pub mod Sorting
pub mod Med
pub mod Filter
pub mod Router
pub mod Selection
pub mod Inputs
pub mod Members
pub mod Rows
pub mod Loops
pub mod Dropped
pub mod Withdrawals
use ixp_irc.Prelude.{
  ℕ, zero, suc, ◌+◌, Bool, true, false, ◌&&◌, ◌||◌, not, List, [], ◌∷◌, ◌++◌, map, Option, none,
  some, nat_eq, list_eq, ◌==◌, ltb, eqb, length, filter, get_elem?, if◌then◌else◌, Dict, keys,
  Result, ok, raise, ◌>>=◌, index_error, stop_iteration, type_error,
}
use ixp_irc.Bgp.Text.{Text, aspath_length, get_advertised_as}
use ixp_irc.Bgp.Inet.{ip_to_long, long_to_ip}
use ixp_irc.Bgp.Rib.{Scalar, null, number, text, Route}
use ixp_irc.Bgp.Peer.{
  Peer, Item, announced, withdrawn, input_rib, local_rib, get_routes, add_route, delete_route,
}

-- `a < b` between texts, by code points
unfoldable pub text_lt : Text → Text → Bool
text_lt [] [] = false
text_lt [] (d ∷ ds) = true
text_lt (c ∷ cs) [] = false
text_lt (c ∷ cs) (d ∷ ds) = ltb c d || (eqb c d && text_lt cs ds)

-- `a < b` between values of different types, as Python 2 orders them: None, numbers, texts
unfoldable pub scalar_lt : Scalar → Scalar → Bool
unfolding text_lt
scalar_lt null null = false
scalar_lt null (number n) = true
scalar_lt null (text t) = true
scalar_lt (number m) null = false
scalar_lt (number m) (number n) = ltb m n
scalar_lt (number m) (text t) = true
scalar_lt (text s) null = false
scalar_lt (text s) (number n) = false
scalar_lt (text s) (text t) = text_lt s t

unfoldable pub scalar_eq : Scalar → Scalar → Bool
scalar_eq null null = true
scalar_eq (number m) (number n) = eqb m n
scalar_eq (text s) (text t) = s == t
scalar_eq _ _ = false

abbrev pub path_length : Route → ℕ
path_length r = aspath_length r.as_path

-- Step 1: the routes with the shortest AS path; `m` is `min_route_length`.
unfoldable pub shortest : List Route → ℕ → List Route → List Route
shortest best m [] = best
shortest [] m (r ∷ rs) = shortest (r ∷ []) (path_length r) rs
shortest (b ∷ bs) m (r ∷ rs) =
    let equal = shortest ((b ∷ bs) ++ r ∷ []) m rs in
    let shorter = shortest (r ∷ []) (path_length r) rs in
    let longer = shortest (b ∷ bs) m rs in
    if eqb m (path_length r) then equal else if ltb (path_length r) m then shorter else longer

-- `as_list`
unfoldable pub advertised : List Route → Result (List Text)
unfolding get_advertised_as
advertised [] = ok []
advertised (r ∷ rs) = do a ← get_advertised_as r.as_path; as_list ← advertised rs; ok (a ∷ as_list)

unfoldable pub insert_text : Text → List Text → List Text
unfolding text_lt
insert_text a [] = a ∷ []
insert_text a (b ∷ bs) = let rest = insert_text a bs in if text_lt b a then b ∷ rest else a ∷ b ∷ bs

-- `as_list.sort()`
unfoldable pub sort : List Text → List Text
unfolding insert_text
sort [] = []
sort (a ∷ as_list) = insert_text a (sort as_list)

unfoldable pub count : Text → List Text → ℕ
count a [] = 0
count a (b ∷ bs) = (if b == a then 1 else 0) + count a bs

-- `get_advertised_as(x['as_path']) == a`; the call has succeeded for each route before
unfoldable pub is_advertised_by : Text → Route → Bool
unfolding get_advertised_as
is_advertised_by a r = elim (get_advertised_as r.as_path) [ ok b ↦ b == a | raise x ↦ false ]

unfoldable pub lowest_med : Scalar → List Route → Scalar
unfolding scalar_lt
lowest_med m [] = m
lowest_med m (r ∷ rs) = lowest_med (if scalar_lt r.med m then r.med else m) rs

-- The routes of one AS with the lowest MED.
unfoldable pub with_lowest_med : List Route → Result (List Route)
unfolding lowest_med scalar_eq filter
with_lowest_med [] = raise index_error
with_lowest_med (r ∷ rs) =
    let lowest = lowest_med r.med rs in ok (filter (λ x. scalar_eq x.med lowest) (r ∷ rs))

-- Step 2: the loop over the sorted `as_list`, from the index `i`, with the routes kept so far.
unfoldable pub med_loop : ℕ → ℕ → List Text → List Route → List Route → Result (List Route)
unfolding count is_advertised_by with_lowest_med
med_loop zero i as_list best post = ok post
med_loop (suc fuel) i as_list best post = elim (get_elem? as_list i) [
  | none ↦ ok post
  | some a ↦
      let from_as = filter (is_advertised_by a) best in
      let several = with_lowest_med from_as >>= λ kept.
      med_loop fuel (i + count a as_list) as_list best (post ++ kept) in
      let single = med_loop fuel (i + 1) as_list best (post ++ from_as) in
      if ltb 1 (count a as_list) then several else single
]

unfoldable pub post_med : List Route → Result (List Route)
unfolding advertised sort med_loop
post_med best = do as_list ← advertised best; med_loop (length as_list) 0 (sort as_list) best []

-- Step 3: the loop for `lowest_ip_as_long`.
unfoldable pub lowest_ip : ℕ → List Route → Result ℕ
unfolding ip_to_long
lowest_ip m [] = ok m
lowest_ip m (r ∷ rs) = do n ← ip_to_long r.next_hop; lowest_ip (if ltb n m then n else m) rs

-- `seq[get_index(seq, 'next_hop', value)]`
unfoldable pub at_next_hop : Text → List Route → Result Route
at_next_hop value [] = raise stop_iteration
at_next_hop value (r ∷ rs) =
    let rest = at_next_hop value rs in if r.next_hop == value then ok r else rest

unfoldable pub lowest_router : List Route → Result Route
unfolding lowest_ip long_to_ip at_next_hop ip_to_long
lowest_router [] = raise index_error
lowest_router (r ∷ rs) = do
  m ← ip_to_long r.next_hop
  lowest ← lowest_ip m rs
  ip ← long_to_ip lowest
  at_next_hop ip (r ∷ rs)

-- `if len(l) == 1: return l.pop()`, and else what follows
abbrev pub only_or : List Route → Result Route → Result Route
only_or [] more = more
only_or (r ∷ []) more = ok r
only_or (r ∷ s ∷ rs) more = more

unfoldable pub best_path_selection : List Route → Result Route
unfolding shortest post_med lowest_router
best_path_selection routes =
    let best = shortest [] 0 routes in
    only_or best (post_med best >>= λ kept. only_or kept (lowest_router kept))

-- The participants, each with its `rs_client`.
abbrev pub Participants : Type 0
Participants = Dict Text Peer

-- An item of the result of `decision_process`.
pub data Best : Type 0 where
  announce_best withdraw_best : Route → Best

-- The routes for the prefix that the other participants announced.
unfoldable pub other_routes : Text → Text → Participants → List Route
unfolding get_routes
other_routes name prefix [] = []
other_routes name prefix ((other, p) ∷ ps) =
    let rest = other_routes name prefix ps in
    if name == other then rest else get_routes input_rib prefix p ++ rest

unfoldable pub on_peer : Text → (Peer → Peer) → Participants → Participants
on_peer name f [] = []
on_peer name f ((other, p) ∷ ps) = (other, (if name == other then f p else p)) ∷ on_peer name f ps

unfoldable pub peer_of : Text → Participants → Option Peer
peer_of name [] = none
peer_of name ((other, p) ∷ ps) = if name == other then some p else peer_of name ps

-- The loop over the participants for an announced prefix; the results so far are `best`.
unfoldable pub announce_loop :
    Text → List Text → Participants → List Best → Result (List Best) × Participants
unfolding other_routes on_peer add_route delete_route
announce_loop prefix [] ps best = (ok best, ps)
announce_loop prefix (name ∷ names) ps best = elim (other_routes name prefix ps) [
  | [] ↦ announce_loop prefix names ps best
  | r ∷ rs ↦ elim (best_path_selection (r ∷ rs)) [
    | raise x ↦ (raise x, ps)
    | ok b ↦
        announce_loop prefix names
          (on_peer name (λ p. add_route local_rib b.prefix b (delete_route local_rib prefix p)) ps)
          (best ++ announce_best b ∷ [])
  ]
]

-- `if get_routes('local', prefix):`
abbrev pub uses : Text → Option Peer → Bool
uses prefix none = false
uses prefix (some p) = elim (get_routes local_rib prefix p) [ [] ↦ false | r ∷ rs ↦ true ]

-- The loop for a withdrawn prefix, over the participants that use a route for it.
unfoldable pub withdraw_loop :
    Text → List Text → Participants → List Best → Result (List Best) × Participants
unfolding other_routes on_peer add_route delete_route peer_of get_routes
withdraw_loop prefix [] ps best = (ok best, ps)
withdraw_loop prefix (name ∷ names) ps best = elim (uses prefix (peer_of name ps)) [
  | false ↦ withdraw_loop prefix names ps best
  | true ↦
      let ps' = on_peer name (delete_route local_rib prefix) ps in
      elim (other_routes name prefix ps') [
        | [] ↦ withdraw_loop prefix names ps' best
        | r ∷ rs ↦ elim (best_path_selection (r ∷ rs)) [
          | raise x ↦ (raise x, ps')
          | ok b ↦
              withdraw_loop prefix names (on_peer name (add_route local_rib b.prefix b) ps')
                (best ++ withdraw_best b ∷ [])
        ]
      ]
]

-- The loops for an announced `None`: its prefix is asked for as soon as there are two participants.
unfoldable pub announce_none : Participants → Result {0} (List Best) × Participants
announce_none [] = (ok [], [])
announce_none (p ∷ []) = (ok [], p ∷ [])
announce_none (p ∷ q ∷ ps) = (raise type_error, p ∷ q ∷ ps)

unfoldable pub decision_process : Participants → Item → Result (List Best) × Participants
unfolding announce_loop withdraw_loop announce_none
decision_process ps (announced none) = announce_none ps
decision_process ps (announced (some r)) = announce_loop r.prefix (keys ps) ps []
decision_process ps (withdrawn none) = (ok [], ps)
decision_process ps (withdrawn (some r)) = withdraw_loop r.prefix (keys ps) ps []

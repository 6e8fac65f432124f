-- ===== src/Vnh/Prefixes.antt =====
-- `get_fwdPeer`, `get_prefix` and `get_part2prefixes` of lib/vnh_assignment.py, and the step of
-- `vnh_assignment` that adds the prefixes of the best routes. What `get_prefix` returns is not
-- used but by itself, and is left out; `pfxlist`, which it appends to, is its result here.
use ixp_irc.Prelude.{
  ℕ, not, List, [], ◌∷◌, ◌++◌, nat_eq, list_eq, contains, filter, is_nil, Dict, values, get, put,
  lookup, none, some, if◌then◌else◌, Result, ok, ◌>>=◌,
}
use ixp_irc.Bgp.Text.{Text}
use ixp_irc.Vnh.Policy.{
  Policy, parallel, sequential, if_, match_, match_prefixes_set, fwd, modify, passthrough, drop,
  opaque, Policies, nil, cons,
}
use ixp_irc.Vnh.State.{Participant, Sdx, bgp_get_best_routes, bgp_get_announced_routes}

unfoldable pub get_fwd_peer : Dict Text (List ℕ) → ℕ → Text
unfolding contains
get_fwd_peer [] ind = []
get_fwd_peer ((peer, ports) ∷ peers) ind =
    let rest = get_fwd_peer peers ind in if contains ind ports then peer else rest

unfoldable pub announced_via : Sdx → Text → ℕ → Result (List Text)
unfolding get get_fwd_peer bgp_get_announced_routes
announced_via sdx part outport = get sdx.participant_2_port part >>= λ plist.
    bgp_get_announced_routes sdx (get_fwd_peer plist outport)

-- `acc` is bound anew in a call and never changed in place: the caller's stays as it is.
-- `listed` is how `list(policy.map['dstip'])` ends for a dstip: its value is bound to `acc` and not
-- read, but Pyretic's address may refuse to be iterated.
module _ (announced : ℕ → Result (List Text)) (listed : Text → Result {0} Unit) where
  unfoldable mutual
    pub get_prefix : Policy → List Text → List (List Text) → Result (List (List Text))
    get_prefix (parallel ps) acc pfxlist = get_prefixes ps [] pfxlist
    get_prefix (sequential ps) acc pfxlist = get_prefixes ps [] pfxlist
    get_prefix (if_ p t f) acc pfxlist =
        get_prefix p acc pfxlist >>= λ l. (get_prefix t acc l >>= λ m. get_prefix f acc m)
    get_prefix (fwd outport) [] pfxlist =
        announced outport >>= λ routes. ok (pfxlist ++ routes ∷ [])
    get_prefix (fwd outport) (a ∷ acc) pfxlist = ok (pfxlist ++ (a ∷ acc) ∷ [])
    get_prefix (match_ m) acc pfxlist = elim m.dstip [
      | none ↦ ok pfxlist
      | some ip ↦ listed ip >>= λ u. ok pfxlist
    ]
    get_prefix (match_prefixes_set s) acc pfxlist = ok pfxlist
    get_prefix (modify m) acc pfxlist = ok pfxlist
    get_prefix passthrough acc pfxlist = ok pfxlist
    get_prefix drop acc pfxlist = ok pfxlist
    get_prefix (opaque n) acc pfxlist = ok pfxlist

    pub get_prefixes : Policies → List Text → List (List Text) → Result (List (List Text))
    get_prefixes nil acc pfxlist = ok pfxlist
    get_prefixes (cons p ps) acc pfxlist = get_prefix p acc pfxlist >>= λ l. get_prefixes ps acc l

unfoldable pub part2prefixes_from :
    (Text → Result {0} Unit)
    → Sdx
    → Dict Text Participant
    → Dict Text (List (List Text))
    → Result (Dict Text (List (List Text)))
unfolding get_prefix announced_via put filter
part2prefixes_from listed sdx [] p2pfx = ok p2pfx
part2prefixes_from listed sdx ((name, participant) ∷ rest) p2pfx = do
  pfxlist ← get_prefix (announced_via sdx name) listed participant.policies [] []
  let final_pfxlist = filter (λ l. not (is_nil l)) pfxlist
  part2prefixes_from listed sdx rest
      (if is_nil final_pfxlist then p2pfx else put name final_pfxlist p2pfx)

unfoldable pub get_part2prefixes :
    (Text → Result {0} Unit) → Sdx → Result (Dict Text (List (List Text)))
unfolding part2prefixes_from
get_part2prefixes listed sdx = part2prefixes_from listed sdx sdx.participants []

-- `participant_2_prefix[participant] + best_routes_list`, for each participant
unfoldable pub add_default_prefixes :
    Sdx → List Text → Dict Text (List (List Text)) → Result (Dict Text (List (List Text)))
unfolding bgp_get_best_routes put lookup filter
add_default_prefixes sdx [] p2pfx = ok p2pfx
add_default_prefixes sdx (name ∷ names) p2pfx = do
  best ← bgp_get_best_routes sdx name
  let best_routes_list = filter (λ l. not (is_nil l)) (values best)
  let old = elim (lookup name p2pfx) as (λ x. List (List Text)) [ none ↦ [] | some l ↦ l ]
  add_default_prefixes sdx names
      (if is_nil best_routes_list then p2pfx else put name (old ++ best_routes_list) p2pfx)

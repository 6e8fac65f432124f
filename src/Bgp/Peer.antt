-- ===== src/Bgp/Peer.antt =====
-- bgp/peer.py: a participant's object at the route server, with its tables `input` (what it
-- announced) and `local` (its best routes), and the handling of one message from ExaBGP.
pub mod Laws
pub mod Effects
pub mod Routine
use ixp_irc.Prelude.{
  ℕ, Bool, true, false, List, [], ◌∷◌, ◌++◌, Option, none, some, nat_eq, list_eq, ◌==◌, contains,
  if◌then◌else◌, Dict, keys, Result, ok, raise, ◌>>=◌, key_error, type_error,
}
use ixp_irc.Bgp.Text.{Text, AsItem, as_path_text}
use ixp_irc.Bgp.Rib.{
  Scalar, null, text, Route, Rib, TextColumn, add, add_many, get, get_all, delete, delete_all,
  commit, filter_rows,
}

-- `neighbor.update.attribute`; a key that the message lacks is `none`
pub record Attribute : Type 0 where
  pub origin : Option Scalar
  pub as_path : Option (List AsItem)
  pub med : Option Scalar
  pub atomic_aggregate : Option Scalar

-- `neighbor.update`; `announce` and `withdraw` hold what stands under "ipv4 unicast", if that is
-- there: the prefixes, and for an announced one its "next-hop"
pub record Update : Type 0 where
  pub attribute : Option Attribute
  pub announce : Option (Option (Dict Text (Option Text)))
  pub withdraw : Option (Option (List Text))

pub record Neighbor : Type 0 where
  pub ip : Option Text
  pub is_down : Bool
  pub update : Option Update

-- A decoded message: under "neighbor", else under "notification", else of neither.
pub data Message : Type 0 where
  neighbor : Neighbor → Message
  notification : (shutdown : Bool) → Message
  other : Message

-- An item of `route_list`.
pub data Item : Type 0 where
  announced : Option Route → Item
  withdrawn : Option Route → Item

pub record Peer : Type 0 where
  pub ips : List Text
  pub input : Rib
  pub local : Rib

pub data RibName : Type 0 where
  input_rib local_rib : RibName

abbrev pub rib : RibName → Peer → Rib
rib input_rib p = p.input
rib local_rib p = p.local

abbrev pub with_rib : RibName → Rib → Peer → Peer
with_rib input_rib r p = record p { input = r }
with_rib local_rib r p = record p { local = r }

-- The state "down": the prefixes of `input` leave `local`, then all rows leave `input`.
unfoldable pub delete_prefixes : List Route → Rib → Rib
unfolding delete
delete_prefixes [] local = local
delete_prefixes (r ∷ rs) local = delete_prefixes rs (delete r.prefix local)

unfoldable pub go_down : Peer → Peer
unfolding delete_prefixes delete_all commit get_all
go_down p =
    let routes = get_all none p.input in
    record p {
      local = commit (delete_prefixes routes p.local);
      input = commit (delete_all p.input);
    }

-- `attribute[k] if k in attribute else ''`
abbrev pub or_empty : Option Scalar → Scalar
or_empty none = text []
or_empty (some v) = v

-- The local variables `origin`, `as_path`, `med`, `atomic_aggregate`: `None` without attributes.
pub record Values : Type 0 where
  pub origin : Scalar
  pub as_path : Option (List AsItem)
  pub med : Scalar
  pub atomic_aggregate : Scalar

abbrev pub values_of : Option Attribute → Values
values_of none = record { origin = null; as_path = none; med = null; atomic_aggregate = null }
values_of (some a) = record {
  origin = or_empty a.origin;
  as_path = some (elim a.as_path [ none ↦ [] | some path ↦ path ]);
  med = or_empty a.med;
  atomic_aggregate = or_empty a.atomic_aggregate;
}

-- The tuple that is put under the prefix: a missing next hop is a KeyError, and `map(str, None)`
-- a TypeError.
abbrev pub announced_route : Values → Text → Option Text → Result Route
announced_route v prefix none = raise key_error
announced_route v prefix (some next_hop) = elim v.as_path [
  | none ↦ raise type_error
  | some path ↦ ok (record {
    prefix = prefix;
    next_hop = next_hop;
    origin = v.origin;
    as_path = as_path_text path;
    med = v.med;
    atomic_aggregate = v.atomic_aggregate;
  })
]

-- The loop over the announced prefixes: the result beside the peer as the loop leaves it.
unfoldable pub announce_all :
    Values → Dict Text (Option Text) → List Item → Peer → Result (List Item) × Peer
unfolding add commit get
announce_all v [] route_list p = (ok route_list, p)
announce_all v ((prefix, next_hop) ∷ rest) route_list p = elim (announced_route v prefix next_hop) [
  | raise x ↦ (raise x, p)
  | ok r ↦
      let p' = record p { input = commit (add prefix r p.input) } in
      announce_all v rest (route_list ++ announced (get prefix p'.input) ∷ []) p'
]

unfoldable pub withdraw_all : List Text → List Item → Peer → List Item × Peer
unfolding get delete commit
withdraw_all [] route_list p = (route_list, p)
withdraw_all (prefix ∷ rest) route_list p =
    let deleted_route = get prefix p.input in
    withdraw_all rest (route_list ++ withdrawn deleted_route ∷ [])
      (record p { input = commit (delete prefix p.input) })

unfoldable pub handle_update : Update → Peer → Result (List Item) × Peer
unfolding announce_all withdraw_all as_path_text
handle_update u p = elim u.announce [
  | some none ↦ (ok [], p)
  | some (some prefixes) ↦ announce_all (values_of u.attribute) prefixes [] p
  | none ↦ elim u.withdraw [
    | some (some prefixes) ↦ let (items, p') = withdraw_all prefixes [] p in (ok items, p')
    | _ ↦ (ok [], p)
  ]
]

unfoldable pub handle_neighbor : Neighbor → Peer → Result (List Item) × Peer
unfolding handle_update go_down contains
handle_neighbor m p = elim m.ip [
  | none ↦ (ok [], p)
  | some ip ↦
      if contains ip p.ips
      then (let p' = if m.is_down then go_down p else p in
          elim m.update [ none ↦ (ok [], p') | some u ↦ handle_update u p' ])
      else (ok [], p)
]

unfoldable pub shutdown : Peer → Peer
unfolding delete_all commit
shutdown p = record p { input = commit (delete_all p.input); local = commit (delete_all p.local) }

unfoldable pub update : Message → Peer → Result (List Item) × Peer
unfolding handle_neighbor shutdown
update (neighbor m) p = handle_neighbor m p
update (notification true) p = (ok [], shutdown p)
update (notification false) p = (ok [], p)
update other p = (ok [], p)

module _ (name : RibName) where
  unfoldable pub add_route : Text → Route → Peer → Peer
  unfolding add commit
  add_route prefix attributes p = with_rib name (commit (add prefix attributes (rib name p))) p

  unfoldable pub add_many_routes : List Route → Peer → Result Peer
  unfolding add_many commit
  add_many_routes routes p = add_many routes (rib name p) >>= λ r. ok (with_rib name (commit r) p)

  unfoldable pub get_route : Text → Peer → Option Route
  unfolding get
  get_route prefix p = get prefix (rib name p)

  unfoldable pub get_routes : Text → Peer → List Route
  get_routes prefix p = get_all (some prefix) (rib name p)

  unfoldable pub get_all_routes : Peer → List Route
  get_all_routes p = get_all none (rib name p)

  unfoldable pub delete_route : Text → Peer → Peer
  unfolding delete commit
  delete_route prefix p = with_rib name (commit (delete prefix (rib name p))) p

  unfoldable pub delete_all_routes : Peer → Peer
  unfolding delete_all commit
  delete_all_routes p = with_rib name (commit (delete_all (rib name p))) p

  unfoldable pub filter_route : TextColumn → Text → Peer → Result (List Route)
  filter_route item value p = filter_rows item value (rib name p)

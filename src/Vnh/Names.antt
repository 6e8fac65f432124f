-- ===== src/Vnh/Names.antt =====
-- Virtual next hops in lib/vnh_assignment.py: `step4`, which names them, and the lookups
-- `get_policy_name`, `get_vname`, `get_fwdMap`, `get_peerName`, `return_vnhop`. The address that
-- `step4` computes with netaddr from a number is the parameter `virtual_mac`.
pub mod Pool
use ixp_irc.Prelude.{
  ℕ, zero, suc, ◌+◌, Bool, true, false, ◌&&◌, ◌||◌, not, List, [], ◌∷◌, ◌++◌, nat_eq, list_eq, ◌==◌,
  contains, any, filter, is_nil, get_elem?, Dict, keys, has_key, get, put, lookup, Option, none,
  some, if◌then◌else◌, Result, ok, raise, ◌>>=◌, index_error, Exception,
}
use ixp_irc.Bgp.Text.{Text, codes, str}
use ixp_irc.SetOperations.{Group, as_list, items, group_eq, subset, Part2Prefix}
use ixp_irc.Vnh.State.{Sdx}

unfoldable pub get_policy_name : Dict Text (Dict Text (List Text)) → Text → Text → Result Text
unfolding get contains
get_policy_name policy_2_prefix participant prefix =
    get policy_2_prefix participant >>= λ policies. ok (first_with policies)
  where
    first_with : Dict Text (List Text) → Text
    first_with [] = []
    first_with ((policy, prefixes) ∷ rest) =
        let next = first_with rest in if contains prefix prefixes then policy else next

-- The last name whose set shares a prefix.
unfoldable pub get_vname : List Text → Text → Dict Text (List Text) → Text
unfolding filter contains
get_vname prefix_set vname [] = vname
get_vname prefix_set vname ((temp, prefixes) ∷ vdict) =
    let common = filter (λ p. contains p prefix_set) prefixes in
    get_vname prefix_set (if is_nil common then vname else temp) vdict

unfoldable pub get_peer_name : ℕ → Dict Text (List ℕ) → Text
unfolding contains
get_peer_name port [] = []
get_peer_name port ((peer, ports) ∷ p_list) =
    let rest = get_peer_name port p_list in if contains port ports then peer else rest

abbrev pub default_mac : Text
default_mac = codes "A1:A1:A1:A1:A1:A1"

unfoldable pub return_vnhop : Dict Text (List Text) → Dict Text Text → Text → Result Text
unfolding get contains
return_vnhop [] vnh_2_mac pfx = ok default_mac
return_vnhop ((vname, prefixes) ∷ vnh_2_prefix) vnh_2_mac pfx =
    let rest = return_vnhop vnh_2_prefix vnh_2_mac pfx in
    if contains pfx prefixes then get vnh_2_mac vname else rest

-- `fwd_map[participant][peer]` for one name and its set: the peer's other names for the same set,
-- of which the last one stays.
unfoldable pub same_set : Text → List Text → Dict Text (List Text) → Dict Text Text → Dict Text Text
unfolding subset put
same_set vname pfx [] found = found
same_set vname pfx ((vnm, prefixes) ∷ names) found =
    let same = subset prefixes pfx && subset pfx prefixes && not (vnm == vname) in
    same_set vname pfx names (if same then put vname vnm found else found)

unfoldable pub fwd_peers :
    Text
    → Text
    → List Text
    → Dict Text (Dict Text (List Text))
    → Dict Text (Dict Text Text)
    → Dict Text (Dict Text Text)
unfolding same_set put lookup
fwd_peers participant vname pfx [] fwd = fwd
fwd_peers participant vname pfx ((peer, names) ∷ part_2_vnh) fwd =
    let old : Dict Text Text = elim (lookup peer fwd) [ none ↦ [] | some d ↦ d ] in
    fwd_peers participant vname pfx part_2_vnh
      (if peer == participant then fwd else put peer (same_set vname pfx names old) fwd)

unfoldable pub fwd_names :
    Text
    → Dict Text (List Text)
    → Dict Text (Dict Text (List Text))
    → Dict Text (Dict Text Text)
    → Dict Text (Dict Text Text)
unfolding fwd_peers
fwd_names participant [] part_2_vnh fwd = fwd
fwd_names participant ((vname, pfx) ∷ names) part_2_vnh fwd =
    fwd_names participant names part_2_vnh (fwd_peers participant vname pfx part_2_vnh fwd)

unfoldable pub fwd_map_from :
    Dict Text (Dict Text (List Text))
    → Dict Text (Dict Text (List Text))
    → Dict Text (Dict Text (Dict Text Text))
unfolding fwd_names
fwd_map_from [] part_2_vnh = []
fwd_map_from ((participant, names) ∷ rest) part_2_vnh =
    (participant, fwd_names participant names part_2_vnh []) ∷ fwd_map_from rest part_2_vnh

unfoldable pub get_fwd_map :
    Dict Text (Dict Text (List Text)) → Dict Text (Dict Text (Dict Text Text))
unfolding fwd_map_from
get_fwd_map part_2_vnh = fwd_map_from part_2_vnh part_2_vnh

unfoldable pub vnh_name : ℕ → Text
unfolding str
vnh_name count = codes "VNH" ++ str count

-- The participants that have the set, as a list or as a set.
unfoldable pub assign :
    Text
    → Group Text
    → Part2Prefix Text Text
    → Dict Text (Dict Text (List Text))
    → Dict Text (Dict Text (List Text))
unfolding any subset put lookup
assign vname pset [] part_2_vnh = part_2_vnh
assign vname pset ((participant, groups) ∷ rest) part_2_vnh =
    let has_set = any (group_eq (as_list (items pset))) groups || any (group_eq pset) groups in
    let old : Dict Text (List Text) = elim (lookup participant part_2_vnh) [
      | none ↦ []
      | some d ↦ d
    ] in
    assign vname pset rest
      (if has_set then put participant (put vname (items pset) old) part_2_vnh else part_2_vnh)

module _ (virtual_mac : ℕ → Text) where
  unfoldable pub with_addresses : ℕ → Text → Sdx → Sdx
  unfolding put vnh_name
  with_addresses count ip sdx = record sdx {
    vnh_2_ip = put (vnh_name count) ip sdx.vnh_2_ip;
    vnh_2_mac = put (vnh_name count) (virtual_mac count) sdx.vnh_2_mac;
  }

  -- The addresses of a new name; those of an old one stay.
  unfoldable pub new_addresses : ℕ → Sdx → Result Sdx
  unfolding with_addresses contains
  new_addresses count sdx =
      if has_key (vnh_name count) sdx.vnh_2_ip
      then ok sdx
      else (elim (get_elem? sdx.vnh_pool count) [
        | none ↦ raise index_error
        | some ip ↦ ok (with_addresses count ip sdx)
      ])

  unfoldable pub name_set : ℕ → Group Text → Part2Prefix Text Text → Sdx → Sdx
  unfolding assign put vnh_name
  name_set count pset part_2_prefix sdx = record sdx {
    vnh_2_pfx = put (vnh_name count) (items pset) sdx.vnh_2_pfx;
    part_2_vnh = assign (vnh_name count) pset part_2_prefix sdx.part_2_vnh;
  }

  -- The state as the loop leaves it, and the exception that ended it, if one did.
  unfoldable pub step4_from :
      ℕ → Part2Prefix Text Text → List (Group Text) → Sdx → Option Exception × Sdx
  unfolding new_addresses name_set
  step4_from count part_2_prefix [] sdx = (none, sdx)
  step4_from count part_2_prefix (pset ∷ lcs) sdx = elim (new_addresses count sdx) [
    | raise x ↦ (some x, sdx)
    | ok sdx' ↦ step4_from (count + 1) part_2_prefix lcs (name_set count pset part_2_prefix sdx')
  ]

  unfoldable pub step4 : Part2Prefix Text Text → List (Group Text) → Sdx → Option Exception × Sdx
  unfolding step4_from
  step4 part_2_prefix lcs sdx = step4_from 1 part_2_prefix lcs sdx

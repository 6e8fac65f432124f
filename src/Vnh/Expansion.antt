-- ===== src/Vnh/Expansion.antt =====
-- The rewriting of policies in lib/vnh_assignment.py: `step5a`, `step5b` and `step5c` with the
-- functions they call, and `vnh_assignment`, which composes the steps. A Pyretic policy counts as
-- true in `if ans`.
pub mod Shared
use ixp_irc.Prelude.{
  ℕ, Bool, true, false, ◌&&◌, ◌||◌, not, List, [], ◌∷◌, ◌++◌, map, nat_eq, list_eq, ◌==◌, contains,
  to_set, filter, is_nil, Dict, keys, values, get, put, lookup, Option, none, some, if◌then◌else◌,
  Result, ok, raise, ◌>>=◌, index_error, type_error, Exception,
}
use ixp_irc.Bgp.Text.{Text}
use ixp_irc.SetOperations.{Group, as_list, Part2Prefix}
use ixp_irc.SetOperations.Parallel.{lcs_parallel, first}
use ixp_irc.Vnh.Policy.{
  Policy, parallel, sequential, if_, match_, match_prefixes_set, fwd, modify, passthrough, drop,
  opaque, Policies, nil, cons, Fields, no_fields, Operators,
}
use ixp_irc.Vnh.State.{Participant, Sdx, bgp_get_best_routes, bgp_get_announced_routes}
use ixp_irc.Vnh.Prefixes.{announced_via, get_part2prefixes, add_default_prefixes}
use ixp_irc.Vnh.Names.{return_vnhop, step4}

-- A dictionary of the fields with `dstip` makes `'dstip' in policy.map` true.
abbrev pub has_dstip : Fields → Bool
has_dstip m = elim m.dstip [ none ↦ false | some ip ↦ true ]

abbrev pub match_dstmac : Text → Policy
match_dstmac mac = match_ (record no_fields { dstmac = some mac })

-- Whether 'dstip' stands in the list `acc`: `shared` for the one list that is the default of the
-- parameter in all calls without `acc`, `own` for the list of the sequence around.
pub record Acc : Type 0 where
  pub shared : Bool
  pub own : Bool

abbrev pub seen : Bool → Acc → Bool
seen true acc = acc.own
seen false acc = acc.shared

abbrev pub mark : Bool → Acc → Acc
mark true acc = record acc { own = true }
mark false acc = record acc { shared = true }

module _ (ops : Operators) (announced : ℕ → Result (List Text)) where
  -- `step5a_expand_policy_with_prefixes`; the flag says whether the call is given the list of a
  -- sequence.
  unfoldable mutual
    pub expand_prefixes : Bool → Policy → Acc → Result (Policy × Acc)
    expand_prefixes own (parallel ps) acc = expand_all false ps acc >>= λ r. ok (parallel r.0, r.1)
    expand_prefixes own (sequential ps) acc =
        expand_all true ps (record acc { own = false }) >>= λ r.
        ok (sequential r.0, record r.1 { own = acc.own })
    expand_prefixes own (if_ p t f) acc = expand_prefixes false p acc >>= λ r.
        (expand_prefixes false t r.1 >>= λ s.
        (expand_prefixes false f s.1 >>= λ u. ok (if_ r.0 s.0 u.0, u.1)))
    expand_prefixes own (match_ m) acc = ok (match_ m, (if has_dstip m then mark own acc else acc))
    expand_prefixes own (match_prefixes_set s) acc = ok (match_prefixes_set s, mark own acc)
    expand_prefixes own (fwd port) acc =
        if seen own acc
        then ok (fwd port, acc)
        else (announced port >>= λ routes.
            ok (ops.then (match_prefixes_set routes) (fwd port), acc))
    expand_prefixes own (modify m) acc = ok (modify m, acc)
    expand_prefixes own passthrough acc = ok (passthrough, acc)
    expand_prefixes own drop acc = ok (drop, acc)
    expand_prefixes own (opaque n) acc = ok (opaque n, acc)

    pub expand_all : Bool → Policies → Acc → Result (Policies × Acc)
    expand_all own nil acc = ok (nil, acc)
    expand_all own (cons p ps) acc =
        expand_prefixes own p acc >>= λ r. (expand_all own ps r.1 >>= λ s. ok (cons r.0 s.0, s.1))

-- `get_default_forwarding_policy`
unfoldable pub default_rules :
    Operators → Dict Text (List ℕ) → Dict Text (List Text) → Result Policies
unfolding get to_set first
default_rules ops ports [] = ok nil
default_rules ops ports ((peer, prefixes) ∷ best_path) = do
  peer_ports ← get ports peer
  port ← first peer_ports
  rest ← default_rules ops ports best_path
  ok (cons (ops.then (match_prefixes_set (to_set prefixes)) (fwd port)) rest)

unfoldable pub get_default_forwarding_policy :
    Operators → Dict Text (List Text) → Text → Dict Text (Dict Text (List ℕ)) → Result Policy
unfolding default_rules get
get_default_forwarding_policy ops [] participant participant_list = ok (parallel nil)
get_default_forwarding_policy ops (b ∷ best_path) participant participant_list =
    get participant_list participant >>= λ ports.
    (default_rules ops ports (b ∷ best_path) >>= λ rules. ok (parallel rules))

unfoldable pub default_policy : Operators → Sdx → Text → Result Policy
unfolding get_default_forwarding_policy bgp_get_best_routes
default_policy ops sdx participant = bgp_get_best_routes sdx participant >>= λ best.
    get_default_forwarding_policy ops best participant sdx.participant_2_port

unfoldable pub step5a : Operators → Sdx → Text → Bool → Policy → Bool → Result (Policy × Bool)
unfolding expand_prefixes default_policy announced_via
step5a ops sdx participant include_default_policy policy shared = do
  r ←
      expand_prefixes ops (announced_via sdx participant) false policy
        (record { shared = shared; own = false })
  elim include_default_policy [
    | true ↦ default_policy ops sdx participant >>= λ p. ok (ops.plus r.0 p, r.1.shared)
    | false ↦ ok (r.0, r.1.shared)
  ]

-- The virtual next hops of the prefixes of a set.
unfoldable pub vnhops_of : Dict Text (List Text) → Dict Text Text → List Text → Result (List Text)
unfolding return_vnhop
vnhops_of names vnh_2_mac [] = ok []
vnhops_of names vnh_2_mac (pfx ∷ pfxes) = do
  vnhop ← return_vnhop names vnh_2_mac pfx
  rest ← vnhops_of names vnh_2_mac pfxes
  ok (vnhop ∷ rest)

unfoldable pub plus_all : Operators → Policy → List Text → Policy
plus_all ops p [] = p
plus_all ops p (mac ∷ macs) = plus_all ops (ops.plus p (match_dstmac mac)) macs

-- `match_vnhops`; without a prefix, the match on the address under 'VNH'
unfoldable pub match_vnhops : Operators → Text → List Text → Policy
unfolding plus_all to_set
match_vnhops ops vnh_mac macs = elim (to_set macs) [
  | [] ↦ match_dstmac vnh_mac
  | mac ∷ rest ↦ plus_all ops (match_dstmac mac) rest
]

-- `step5b_expand_policy_with_vnhop`; what it keeps in `acc` is not used
module _ (ops : Operators) (sdx : Sdx) (participant : Text) where
  unfoldable mutual
    unfolding vnhops_of match_vnhops get

    pub expand_vnhops : Policy → Result Policy
    expand_vnhops (parallel ps) = expand_vnhops_all ps >>= λ qs. ok (parallel qs)
    expand_vnhops (sequential ps) = expand_vnhops_all ps >>= λ qs. ok (sequential qs)
    expand_vnhops (if_ p t f) = expand_vnhops p >>= λ p'.
        (expand_vnhops t >>= λ t'. (expand_vnhops f >>= λ f'. ok (if_ p' t' f')))
    expand_vnhops (match_prefixes_set []) = ok (match_dstmac sdx.vnh_mac)
    expand_vnhops (match_prefixes_set (pfx ∷ pfxes)) = get sdx.part_2_vnh participant >>= λ names.
        (vnhops_of names sdx.vnh_2_mac (pfx ∷ pfxes) >>= λ macs.
        ok (match_vnhops ops sdx.vnh_mac macs))
    expand_vnhops (match_ m) = ok (match_ m)
    expand_vnhops (fwd port) = ok (fwd port)
    expand_vnhops (modify m) = ok (modify m)
    expand_vnhops passthrough = ok passthrough
    expand_vnhops drop = ok drop
    expand_vnhops (opaque n) = ok (opaque n)

    pub expand_vnhops_all : Policies → Result Policies
    expand_vnhops_all nil = ok nil
    expand_vnhops_all (cons p ps) =
        expand_vnhops p >>= λ q. (expand_vnhops_all ps >>= λ qs. ok (cons q qs))

-- `p = p | ans` for a policy `ans`: without a policy on the left, the operator raises.
unfoldable pub combine :
    (Policy → Policy → Policy) → Option Policy → Option Policy → Result (Option Policy)
combine op p none = ok p
combine op (some p) (some ans) = ok (some (op p ans))
combine op none (some ans) = raise type_error

unfoldable mutual
  unfolding combine

  pub extract_all_matches : Operators → Policy → Result (Option Policy)
  extract_all_matches ops (parallel nil) = raise index_error
  extract_all_matches ops (parallel (cons p ps)) =
      extract_all_matches ops p >>= λ m. extract_rest ops ops.union m ps
  extract_all_matches ops (sequential nil) = raise index_error
  extract_all_matches ops (sequential (cons p ps)) =
      extract_all_matches ops p >>= λ m. extract_rest ops ops.meet m ps
  extract_all_matches ops (if_ p t f) = ok (some p)
  extract_all_matches ops (match_ m) = ok (some (match_ m))
  extract_all_matches ops (match_prefixes_set s) = ok none
  extract_all_matches ops (fwd port) = ok none
  extract_all_matches ops (modify m) = ok none
  extract_all_matches ops passthrough = ok none
  extract_all_matches ops drop = ok none
  extract_all_matches ops (opaque n) = ok none

  pub extract_rest :
      Operators → (Policy → Policy → Policy) → Option Policy → Policies → Result (Option Policy)
  extract_rest ops op p nil = ok p
  extract_rest ops op p (cons q qs) =
      extract_all_matches ops q >>= λ ans. (combine op p ans >>= λ m. extract_rest ops op m qs)

unfoldable pub step5b : Operators → Sdx → Text → Policy → Result Policy
unfolding expand_vnhops extract_all_matches default_policy contains
step5b ops sdx participant policy = do
  expanded ← expand_vnhops ops sdx participant policy
  policy_matches ← extract_all_matches ops expanded
  elim policy_matches [
    | none ↦ ok expanded
    | some matches ↦ elim (contains participant (keys sdx.participants)) [
      | false ↦ ok expanded
      | true ↦ default_policy ops sdx participant >>= λ p.
          (expand_vnhops ops sdx participant p >>= λ bgp. ok (if_ matches expanded bgp))
    ]
  ]

abbrev pub with_policy : Text → Policy → Sdx → Sdx
with_policy name policy sdx = record sdx {
  participants =
      map
        (λ (en : Text × Participant).
          (en.0, (if en.0 == name then record en.1 { policies = policy } else en.1)))
        sdx.participants;
}

-- Step 5 for one participant after the other, each reading the state that the last one left.
unfoldable pub rewrite_policies : Operators → List Text → Bool → Sdx → Option Exception × Sdx
unfolding step5a step5b get
rewrite_policies ops [] shared sdx = (none, sdx)
rewrite_policies ops (name ∷ names) shared sdx =
    let rewritten : (Result (Policy × Bool)) = get sdx.participants name >>= λ p.
    (step5a ops sdx name false p.policies shared >>= λ a.
    (step5b ops sdx name a.0 >>= λ b. ok (b, a.1))) in
    elim rewritten [
      | raise x ↦ (some x, sdx)
      | ok r ↦ rewrite_policies ops names r.1 (with_policy name r.0 sdx)
    ]

abbrev pub drop_policies : Sdx → Sdx
drop_policies sdx = record sdx {
  participants =
      map (λ (en : Text × Participant). (en.0, record en.1 { policies = drop })) sdx.participants;
}

-- Steps 4 and 5, for the sets of the prefixes.
unfoldable pub assign_names :
    Operators
    → (ℕ → Text)
    → Bool
    → Part2Prefix Text Text
    → List (Group Text)
    → Sdx
    → Option Exception × Sdx
unfolding step4 rewrite_policies
assign_names ops virtual_mac shared part_2_prefix lcs sdx =
    let (raised, sdx') = step4 virtual_mac part_2_prefix lcs sdx in
    elim raised [
      | some x ↦ (some x, sdx')
      | none ↦ elim sdx'.part_2_vnh [
        | [] ↦ (none, sdx')
        | n ∷ ns ↦ rewrite_policies ops (keys sdx'.participants) shared sdx'
      ]
    ]

-- The copies that it keeps for a later run (`part_2_prefix_old`, `part_2_prefix_lcs`, `lcs_old`)
-- are left out, since nothing here reads them.
unfoldable pub vnh_assignment :
    Operators → (Text → Result {0} Unit) → (ℕ → Text) → Bool → Sdx → Option Exception × Sdx
unfolding get_part2prefixes add_default_prefixes lcs_parallel assign_names
vnh_assignment ops listed virtual_mac shared sdx =
    let prefixes : (Result (Dict Text (List (List Text)))) =
      get_part2prefixes listed sdx >>= λ d. add_default_prefixes sdx (keys sdx.participants) d in
    elim prefixes [
      | raise x ↦ (some x, sdx)
      | ok [] ↦ (none, drop_policies sdx)
      | ok (p ∷ ps) ↦ elim (lcs_parallel (as_groups (p ∷ ps))) [
        | raise x ↦ (some x, sdx)
        | ok r ↦ assign_names ops virtual_mac shared r.0 r.1 sdx
      ]
    ]
  where
    as_groups : Dict Text (List (List Text)) → Part2Prefix Text Text
    as_groups [] = []
    as_groups ((name, lists) ∷ d) = (name, map as_list lists) ∷ as_groups d

-- ===== src/PolicyParser/Matching.antt =====
-- policyparser/match_outbound_inbound.py: whether the outbound policy of a participant agrees with the
-- inbound policies of those that its rules name.
pub mod Rules
pub mod Agreement
use ixp_irc.Prelude.{
  Bool, true, false, not, List, [], ◌∷◌, nat_eq, list_eq, ◌==◌, Dict, values, get, lookup, put,
  filter, any, if◌then◌else◌, Result, ok, raise, ◌>>=◌,
}
use ixp_irc.Bgp.Text.{Text, codes}
use ixp_irc.PolicyParser.Json.{Json, Object, is_in, is_text, members}

-- `outbound_data['outbound']`: for each prefix its rules
abbrev pub Outbound : Type 0
Outbound = Dict Text (List Object)

-- `inbound_data`: for each participant the items of its policy
abbrev pub Inbound : Type 0
Inbound = Dict Text (List Object)

-- The loop that sets `False` for all but the participant.
unfoldable pub no_conflicts : Text → Inbound → Dict Text Bool → Dict Text Bool
unfolding put
no_conflicts participant [] conflicts = conflicts
no_conflicts participant ((key, items) ∷ rest) conflicts =
    no_conflicts participant rest
      (if key == participant then conflicts else put key false conflicts)

-- `item_list`
unfoldable pub items_for : Text → List Object → List Object
unfolding filter any
items_for prefix = filter (λ item. any (is_text prefix) (values item))

-- One turn of the loop over `item_list`: false where it breaks.
unfoldable pub admits : Text → Object → Result Bool
unfolding get is_in
admits participant item = do
  blacklist ← get item (codes "blacklist")
  black ← is_in participant blacklist
  elim black [
    | true ↦ ok false
    | false ↦ get item (codes "whitelist") >>= λ whitelist. elim (is_text (codes "*") whitelist) [
      | true ↦ ok true
      | false ↦ is_in participant whitelist
    ]
  ]

unfoldable pub all_admit : Text → List Object → Result Bool
unfolding admits
all_admit participant [] = ok true
all_admit participant (item ∷ items) =
    let rest = all_admit participant items in
    admits participant item >>= λ a. if a then rest else ok false

-- The loop over the routes of a rule, which ends at a route that has no item for the prefix.
unfoldable pub check_routes :
    Text → Text → Inbound → List Text → Dict Text Bool → Result (Dict Text Bool)
unfolding get put items_for all_admit
check_routes participant prefix inbound [] conflicts = ok conflicts
check_routes participant prefix inbound (route ∷ routes) conflicts = get inbound route >>= λ items.
    elim (items_for prefix items) [
      | [] ↦ ok (put route true conflicts)
      | i ∷ is ↦ all_admit participant (i ∷ is) >>= λ a.
          check_routes participant prefix inbound routes
            (if a then conflicts else put route true conflicts)
    ]

unfoldable pub check_rules :
    Text → Text → Inbound → List Object → Dict Text Bool → Result (Dict Text Bool)
unfolding get members check_routes
check_rules participant prefix inbound [] conflicts = ok conflicts
check_rules participant prefix inbound (rule ∷ rules) conflicts = do
  value ← get rule (codes "routes")
  routes ← members value
  conflicts' ← check_routes participant prefix inbound routes conflicts
  check_rules participant prefix inbound rules conflicts'

unfoldable pub check_prefixes : Text → Inbound → Outbound → Dict Text Bool → Result (Dict Text Bool)
unfolding check_rules
check_prefixes participant inbound [] conflicts = ok conflicts
check_prefixes participant inbound ((prefix, rules) ∷ rest) conflicts =
    check_rules participant prefix inbound rules conflicts >>= λ conflicts'.
    check_prefixes participant inbound rest conflicts'

-- `match`
unfoldable pub match_policies : Text → Outbound → Inbound → Result Bool
unfolding no_conflicts check_prefixes any
match_policies participant outbound inbound =
    check_prefixes participant inbound outbound (no_conflicts participant inbound [])
    >>= λ conflicts. ok (not (any (λ b. b) (values conflicts)))

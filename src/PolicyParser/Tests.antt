-- ===== src/PolicyParser/Tests.antt =====
-- Small inputs of policyparser/.
use ixp_irc.Prelude.{
  ◌+◌, ◌≤◌, ◌<◌, true, false, List, [], ◌∷◌, nat_eq, list_eq, get, lookup, filter, any, length, In,
  ok, raise, index_error, inl, refl, ◌≡◌, ◌↔◌,
}
use ixp_irc.Bgp.Text.{Text, codes}
use ixp_irc.PolicyParser.Json.{Json, text, texts, Object}
use ixp_irc.PolicyParser.Matching.{Outbound, Inbound, match_policies}
use ixp_irc.PolicyParser.Matching.Rules.{Agrees}
use ixp_irc.PolicyParser.Matching.Agreement.{match_policies_iff}
use ixp_irc.PolicyParser.Generator.{generate, get_rule, make_rule}
use ixp_irc.PolicyParser.Generator.Letters.{HaveKeys, count_rules, generate_lem}
use ixp_irc.PolicyParser.Parse.{main}
use ixp_irc.PolicyParser.Parse.Written.{Comes, main-Comes}

abbrev any_value : Json
any_value = text (codes "*")

abbrev rule_to : List Text → Object
rule_to routes =
    (codes "from", any_value)
    ∷ (codes "srcport", any_value)
    ∷ (codes "dstport", text (codes "80"))
    ∷ (codes "time", text (codes "0, 24"))
    ∷ (codes "latency", any_value)
    ∷ (codes "loss", any_value)
    ∷ (codes "cost", any_value)
    ∷ (codes "update_interval", any_value)
    ∷ (codes "routes", texts routes)
    ∷ (codes "default", texts [])
    ∷ (codes "policy_type", text (codes "loose"))
    ∷ (codes "check_interval", any_value)
    ∷ []

abbrev outbound_a : Outbound
outbound_a = (codes "10.0.0.0/8", rule_to (codes "X" ∷ []) ∷ []) ∷ []

abbrev inbound_x : List Text → Inbound
inbound_x blacklist =
    (
      codes "X",
      ((codes "subnet", text (codes "10.0.0.0/8"))
            ∷ (codes "whitelist", any_value)
            ∷ (codes "blacklist", texts blacklist)
            ∷ [])
          ∷ [],
    )
    ∷ []

match_a : match_policies (codes "A") outbound_a (inbound_x []) ≡ ok true
unfolding match_policies get lookup filter any
match_a = refl

match_blacklisted : match_policies (codes "A") outbound_a (inbound_x (codes "A" ∷ [])) ≡ ok false
unfolding match_policies get lookup filter any
match_blacklisted = refl

match_policies_iff_example :
    (match_policies (codes "A") outbound_a (inbound_x []) ≡ ok true)
    ↔ Agrees (codes "A") (inbound_x []) outbound_a
match_policies_iff_example = match_policies_iff (codes "A") outbound_a (inbound_x [])

get_rule_a :
    get_rule (codes "10.0.0.0/8") (rule_to (codes "X" ∷ [])) 0
    ≡ ok (
        codes
          "a = UpdatePolicy(\"10.0.0.0/8\", (match(dstip=IPPrefix(\"10.0.0.0/8\")) & match(time=HRange(0, 24)) & match(dstport=80)), b, [u'X'], [], \"*\", \"*\", \"*\", \"*\", \"loose\")")
unfolding get_rule get lookup
get_rule_a = refl

outbound_a-HaveKeys : HaveKeys outbound_a
unfolding make_rule get lookup
outbound_a-HaveKeys = (((_, refl), tt), tt)

generate_lem_example :
    (count_rules outbound_a ≤ 25
      → (ss : List Text) × (generate outbound_a ≡ ok ss) × (length ss ≡ count_rules outbound_a + 1))
    × (25 < count_rules outbound_a → generate outbound_a ≡ raise index_error)
generate_lem_example = generate_lem outbound_a outbound_a-HaveKeys

abbrev module_a : Text × List Text
module_a = (
  codes "A",
  codes "b = drop"
      ∷ codes
          "a = UpdatePolicy(\"10.0.0.0/8\", (match(dstip=IPPrefix(\"10.0.0.0/8\")) & match(time=HRange(0, 24)) & match(dstport=80)), b, [u'X'], [], \"*\", \"*\", \"*\", \"*\", \"loose\")"
      ∷ [],
)

main_a : (main (codes "A" ∷ []) (outbound_a ∷ []) (inbound_x [])).1 ≡ module_a ∷ []
unfolding main get lookup filter any
main_a = refl

written_a : In module_a (main (codes "A" ∷ []) (outbound_a ∷ []) (inbound_x [])).1
written_a = rw main_a (inl refl)

main-Comes_example : Comes (outbound_a ∷ []) (inbound_x []) module_a
main-Comes_example = main-Comes (codes "A" ∷ []) (outbound_a ∷ []) (inbound_x []) module_a written_a

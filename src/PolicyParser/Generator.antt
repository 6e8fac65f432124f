-- ===== src/PolicyParser/Generator.antt =====
-- policyparser/policy_generator.py: the texts of the rules of a policy module. Jinja fills them into a
-- template, which only puts each of them on a line.
pub mod Letters
use ixp_irc.Prelude.{
  ℕ, zero, suc, ◌+◌, Bool, true, false, List, [], ◌∷◌, ◌++◌, map, Option, none, some, nat_eq,
  list_eq, ◌==◌, get, lookup, length, get_elem?, if◌then◌else◌, Result, ok, raise, ◌>>=◌,
  index_error,
}
use ixp_irc.Bgp.Text.{Text, codes, join}
use ixp_irc.PolicyParser.Json.{Json, Object, str_json}
use ixp_irc.PolicyParser.Matching.{Outbound}

-- `list(ascii_lowercase)`
abbrev pub rules_alpha : List Text
rules_alpha = map (λ c. c ∷ []) (codes "abcdefghijklmnopqrstuvwxyz")

abbrev pub alpha : ℕ → Result Text
alpha i = elim (get_elem? rules_alpha i) [ none ↦ raise index_error | some a ↦ ok a ]

-- A `Rule`.
pub record Rule : Type 0 where
  pub ipprefix : Text
  pub srcip : Text
  pub dstport : Text
  pub srcport : Text
  pub time : Text
  pub latency : Text
  pub loss : Text
  pub cost : Text
  pub routes : Json
  pub default : Json
  pub update_interval : Text
  pub policy_type : Text
  pub check_interval : Text

unfoldable pub make_rule : Text → Object → Result Rule
unfolding get str_json
make_rule ipprefix rule = do
  srcip ← get rule (codes "from")
  dstport ← get rule (codes "dstport")
  srcport ← get rule (codes "srcport")
  time ← get rule (codes "time")
  latency ← get rule (codes "latency")
  loss ← get rule (codes "loss")
  cost ← get rule (codes "cost")
  routes ← get rule (codes "routes")
  default ← get rule (codes "default")
  update_interval ← get rule (codes "update_interval")
  policy_type ← get rule (codes "policy_type")
  check_interval ← get rule (codes "check_interval")
  ok (record {
    ipprefix = ipprefix;
    srcip = str_json srcip;
    dstport = str_json dstport;
    srcport = str_json srcport;
    time = str_json time;
    latency = str_json latency;
    loss = str_json loss;
    cost = str_json cost;
    routes = routes;
    default = default;
    update_interval = str_json update_interval;
    policy_type = str_json policy_type;
    check_interval = str_json check_interval;
  })

pub data Match : Type 0 where
  srcip dstip dstport srcport time : Match

unfoldable pub generate_match_case : Match → Text → Text
generate_match_case srcip value = codes "match(srcip=IPPrefix(\"" ++ (value ++ codes "\"))")
generate_match_case dstip value = codes "match(dstip=IPPrefix(\"" ++ (value ++ codes "\"))")
generate_match_case dstport value = codes "match(dstport=" ++ (value ++ codes ")")
generate_match_case srcport value = codes "match(srcport=" ++ (value ++ codes ")")
generate_match_case time value = codes "match(time=HRange(" ++ (value ++ codes "))")

-- `if value != '*': match_list.append(…)`
unfoldable pub match_unless_any : Match → Text → List Text
unfolding generate_match_case
match_unless_any case value = if value == codes "*" then [] else generate_match_case case value ∷ []

unfoldable pub match_list : Rule → List Text
unfolding match_unless_any
match_list r =
    match_unless_any srcip r.srcip
    ++ (match_unless_any dstip r.ipprefix
        ++ (match_unless_any time r.time
            ++ (match_unless_any dstport r.dstport ++ match_unless_any srcport r.srcport)))

-- The predicate: the matches after the first with " & " before them.
unfoldable pub pred : Rule → Text
unfolding match_list join
pred r = join (codes " & ") (match_list r)

-- `policy_string % (…)`
unfoldable pub policy_string : Text → Text → Rule → Text
unfolding pred str_json
policy_string name next r =
    name
    ++ (codes " = UpdatePolicy(\""
        ++ (r.ipprefix
            ++ (codes "\", ("
                ++ (pred r
                    ++ (codes "), "
                        ++ (next
                            ++ (codes ", "
                                ++ (str_json r.routes
                                    ++ (codes ", "
                                        ++ (str_json r.default
                                            ++ (codes ", \""
                                                ++ (join (codes "\", \"") (
                                                      r.latency ∷ r.loss ∷ r.update_interval
                                                      ∷ r.check_interval ∷ r.policy_type ∷ [])
                                                    ++ codes "\")"))))))))))))

unfoldable pub get_rule : Text → Object → ℕ → Result Text
unfolding make_rule policy_string
get_rule ipprefix rule i = do
  r ← make_rule ipprefix rule
  name ← alpha i
  next ← alpha (i + 1)
  ok (policy_string name next r)

-- The loops of `generate`, from the rule with the number `i`.
unfoldable pub rules_for : Text → List Object → ℕ → Result (List Text)
unfolding get_rule
rules_for ipprefix [] i = ok []
rules_for ipprefix (rule ∷ rules) i = do
  s ← get_rule ipprefix rule i
  rest ← rules_for ipprefix rules (i + 1)
  ok (s ∷ rest)

unfoldable pub rule_strings : Outbound → ℕ → Result (List Text)
unfolding rules_for
rule_strings [] i = ok []
rule_strings ((ipprefix, rules) ∷ rest) i = do
  ss ← rules_for ipprefix rules i
  more ← rule_strings rest (i + length rules)
  ok (ss ++ more)

unfoldable pub reverse : List Text → List Text
reverse [] = []
reverse (s ∷ ss) = reverse ss ++ s ∷ []

-- The `rule_strings_list` of the template: the rules from the last to the first, after `drop`.
unfoldable pub generate : Outbound → Result (List Text)
unfolding rule_strings reverse
generate outbound = do
  ss ← rule_strings outbound 0
  last ← alpha (length ss)
  ok (reverse (ss ++ (last ++ codes " = drop") ∷ []))

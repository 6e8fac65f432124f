-- ===== src/PolicyParser/Generator/Letters.antt =====
-- How many rules a policy module can have (policyparser/policy_generator.py).
use ixp_irc.Prelude.{
  ℕ, zero, suc, ◌+◌, ◌≤◌, ◌<◌, List, [], ◌∷◌, ◌++◌, none, some, nat_eq, list_eq, length,
  length-append, get_elem?, All, ok, raise, bind_of, bind_raise, index_error, ◌≡◌, refl, ap, ◌∙◌,
  arith, inl, inr, ◌⊎◌, Option-cases,
}
use ixp_irc.Bgp.Text.{Text, codes}
use ixp_irc.PolicyParser.Json.{Object}
use ixp_irc.PolicyParser.Matching.{Outbound}
use ixp_irc.PolicyParser.Generator.{
  rules_alpha, alpha, Rule, make_rule, policy_string, get_rule, rules_for, rule_strings, reverse,
  generate,
}

-- The number of the rules.
abbrev pub count_rules : Outbound → ℕ
count_rules [] = 0
count_rules ((ipprefix, rules) ∷ rest) = length rules + count_rules rest

-- The rules have the keys that `Rule` reads.
abbrev pub HaveKeys : Outbound → Type 0
HaveKeys [] = Unit
HaveKeys ((ipprefix, rules) ∷ rest) =
    All (λ rule. (r : Rule) × (make_rule ipprefix rule ≡ ok r)) rules × HaveKeys rest

get_elem-in {ℓ} :
    {A : Type ℓ} (l : List A) (i : ℕ) → i < length l → (a : A) × (get_elem? l i ≡ some a)
get_elem-in [] i h = absurd (omega arith)
get_elem-in (x ∷ l) zero h = (x, refl)
get_elem-in (x ∷ l) (suc i) h = get_elem-in l i (omega arith)

get_elem-out {ℓ} : {A : Type ℓ} (l : List A) (i : ℕ) → length l ≤ i → get_elem? l i ≡ none
get_elem-out [] i h = refl
get_elem-out (x ∷ l) zero h = absurd (omega arith)
get_elem-out (x ∷ l) (suc i) h = get_elem-out l i (omega arith)

le_or_gt : (a b : ℕ) → (a ≤ b) ⊎ (b < a)
le_or_gt a b = ground arith

alpha-in : (i : ℕ) → i < 26 → (a : Text) × (alpha i ≡ ok a)
alpha-in i h = let (a, p) = get_elem-in rules_alpha i h in (a, rw p refl)

alpha-out : (i : ℕ) → 26 ≤ i → alpha i ≡ raise index_error
alpha-out i h = rw (get_elem-out rules_alpha i h) refl

get_rule-in :
    (ipprefix : Text) (rule : Object) (i : ℕ) {r : Rule}
    → make_rule ipprefix rule ≡ ok r
    → i + 1 < 26
    → (s : Text) × (get_rule ipprefix rule i ≡ ok s)
unfolding get_rule
get_rule-in ipprefix rule i {r} h lt =
    let (name, p) = alpha-in i (omega arith) in
    let (next, q) = alpha-in (i + 1) lt in
    (policy_string name next r, bind_of _ h ∙ (bind_of _ p ∙ bind_of _ q))

-- Without a letter, or without a letter for the next rule.
get_rule-out :
    (ipprefix : Text) (rule : Object) (i : ℕ) {r : Rule}
    → make_rule ipprefix rule ≡ ok r
    → 26 ≤ i + 1
    → get_rule ipprefix rule i ≡ raise index_error
unfolding get_rule
get_rule-out ipprefix rule i {r} h le =
    bind_of _ h ∙ elim (Option-cases (get_elem? rules_alpha i)) [
      | inl q ↦ bind_raise _ (no_alpha i q)
      | inr (a, q) ↦ bind_of _ (alpha_found i a q) ∙ bind_raise _ (alpha-out (i + 1) le)
    ]
  where
    alpha_found : (j : ℕ) (a : Text) → get_elem? rules_alpha j ≡ some a → alpha j ≡ ok a
    alpha_found j a q = rw q refl

    no_alpha : (j : ℕ) → get_elem? rules_alpha j ≡ none → alpha j ≡ raise index_error
    no_alpha j q = rw q refl

abbrev HasKeys : Text → Object → Type 0
HasKeys ipprefix rule = (r : Rule) × (make_rule ipprefix rule ≡ ok r)

rules_for-in :
    (ipprefix : Text) (rules : List Object) (i : ℕ)
    → All (HasKeys ipprefix) rules
    → i + length rules ≤ 25
    → (ss : List Text) × (rules_for ipprefix rules i ≡ ok ss) × (length ss ≡ length rules)
unfolding rules_for
rules_for-in ipprefix [] i h le = ([], refl, refl)
rules_for-in ipprefix (rule ∷ rules) i ((r, k), ks) le =
    let (s, p) = get_rule-in ipprefix rule i k (omega arith) in
    let (ss, q, e) = rules_for-in ipprefix rules (i + 1) ks (omega arith) in
    (s ∷ ss, bind_of _ p ∙ bind_of _ q, ap suc e)

rules_for-out :
    (ipprefix : Text) (rules : List Object) (i : ℕ)
    → All (HasKeys ipprefix) rules
    → i ≤ 25
    → 26 ≤ i + length rules
    → rules_for ipprefix rules i ≡ raise index_error
unfolding rules_for
rules_for-out ipprefix [] i h le ge = absurd (omega arith)
rules_for-out ipprefix (rule ∷ rules) i ((r, k), ks) le ge = elim (le_or_gt 26 (i + 1)) [
  | inl out ↦ bind_raise _ (get_rule-out ipprefix rule i k out)
  | inr in_ ↦
      let (s, p) = get_rule-in ipprefix rule i k in_ in
      bind_of _ p
      ∙ bind_raise _ (rules_for-out ipprefix rules (i + 1) ks (omega arith) (omega arith))
]

rule_strings-in :
    (outbound : Outbound) (i : ℕ)
    → HaveKeys outbound
    → i + count_rules outbound ≤ 25
    → (ss : List Text) × (rule_strings outbound i ≡ ok ss) × (length ss ≡ count_rules outbound)
unfolding rule_strings
rule_strings-in [] i h le = ([], refl, refl)
rule_strings-in ((ipprefix, rules) ∷ rest) i (k, ks) le =
    let (ss, p, e) = rules_for-in ipprefix rules i k (omega arith) in
    let (more, q, f) = rule_strings-in rest (i + length rules) ks (omega arith) in
    (ss ++ more, bind_of _ p ∙ bind_of _ q, omega (arith, length-append ss more, e, f))

rule_strings-out :
    (outbound : Outbound) (i : ℕ)
    → HaveKeys outbound
    → i ≤ 25
    → 26 ≤ i + count_rules outbound
    → rule_strings outbound i ≡ raise index_error
unfolding rule_strings
rule_strings-out [] i h le ge = absurd (omega arith)
rule_strings-out ((ipprefix, rules) ∷ rest) i (k, ks) le ge =
    elim (le_or_gt 26 (i + length rules)) [
      | inl out ↦ bind_raise _ (rules_for-out ipprefix rules i k le out)
      | inr in_ ↦
          let (ss, p, e) = rules_for-in ipprefix rules i k (omega arith) in
          bind_of _ p
          ∙ bind_raise _ (rule_strings-out rest (i + length rules) ks (omega arith) (omega arith))
    ]

length-reverse : (ss : List Text) → length (reverse ss) ≡ length ss
unfolding reverse
length-reverse [] = refl
length-reverse (s ∷ ss) = omega (arith, length-append (reverse ss) (s ∷ []), length-reverse ss)

-- With all keys in its rules, an outbound policy of at most 25 rules has a module, of one line for each
-- rule and one for `drop`; with more rules `generate` raises an IndexError, as each rule and the line
-- after the last one take a letter.
pub generate_lem :
    (outbound : Outbound)
    → HaveKeys outbound
    → (count_rules outbound ≤ 25
        → (ss : List Text) × (generate outbound ≡ ok ss) × (length ss ≡ count_rules outbound + 1))
      × (25 < count_rules outbound → generate outbound ≡ raise index_error)
unfolding generate
generate_lem outbound h = (
  (λ le.
      let (ss, p, e) = rule_strings-in outbound 0 h (omega arith) in
      let (last, q) = alpha-in (length ss) (omega (arith, e)) in
      let all_lines = ss ++ (last ++ codes " = drop") ∷ [] in
      (
        reverse all_lines,
        bind_of _ p ∙ bind_of _ q,
        omega
            (arith, length-reverse all_lines, length-append ss ((last ++ codes " = drop") ∷ []), e),
      )),
  (λ gt. bind_raise _ (rule_strings-out outbound 0 h (omega arith) (omega arith))),
)

-- ===== src/PolicyParser/Matching/Agreement.antt =====
-- When an outbound policy agrees with the inbound ones (policyparser/match_outbound_inbound.py).
use ixp_irc.Prelude.{
  Bool, true, false, not, [], ◌∷◌, nat_eq, list_eq, Dict, values, any, ok, bind_ok, ◌≡◌, ◌↔◌, refl,
  ok-injective,
}
use ixp_irc.Bgp.Text.{Text}
use ixp_irc.PolicyParser.Matching.{
  Outbound, Inbound, no_conflicts, check_rules, check_prefixes, match_policies,
}
use ixp_irc.PolicyParser.Matching.Rules.{
  Agrees, IsClean, no_conflicts-IsClean, check_rules→All, All→check_rules,
}

module _ (participant : Text) (inbound : Inbound) where
  check_prefixes→Agrees :
      (outbound : Outbound) (d : Dict Text Bool) {d' : Dict Text Bool}
      → check_prefixes participant inbound outbound d ≡ ok d'
      → IsClean d'
      → IsClean d × Agrees participant inbound outbound
  unfolding check_prefixes
  check_prefixes→Agrees [] d h c = (rw (ok-injective h) c, tt)
  check_prefixes→Agrees ((prefix, rules) ∷ rest) d h c =
      let (d1, p, h1) = bind_ok (check_rules participant prefix inbound rules d) _ h in
      let (clean, agree) = check_prefixes→Agrees rest d1 h1 c in
      let (before, rules_agree) = check_rules→All participant prefix inbound rules d p clean in
      (before, (rules_agree, agree))

  Agrees→check_prefixes :
      (outbound : Outbound) (d : Dict Text Bool)
      → Agrees participant inbound outbound
      → check_prefixes participant inbound outbound d ≡ ok d
  unfolding check_prefixes
  Agrees→check_prefixes [] d a = refl
  Agrees→check_prefixes ((prefix, rules) ∷ rest) d (rules_agree, agree) =
      rw (All→check_rules participant prefix inbound rules d rules_agree, check_prefixes)
        (Agrees→check_prefixes rest d agree)

  match→Agrees :
      (outbound : Outbound)
      → match_policies participant outbound inbound ≡ ok true
      → Agrees participant inbound outbound
  unfolding match_policies
  match→Agrees outbound h =
      let (d, p, h1) =
        bind_ok (check_prefixes participant inbound outbound (no_conflicts participant inbound []))
          _ h in
      (check_prefixes→Agrees outbound (no_conflicts participant inbound []) p
        (clean (any (λ b. b) (values d)) (ok-injective h1))).1
    where
      clean : (b : Bool) → not b ≡ true → b ≡ false
      clean true e = cc
      clean false e = refl

  Agrees→match :
      (outbound : Outbound)
      → Agrees participant inbound outbound
      → match_policies participant outbound inbound ≡ ok true
  unfolding match_policies any
  Agrees→match outbound a =
      rw (Agrees→check_prefixes outbound (no_conflicts participant inbound []) a, match_policies)
        (rw (no_conflicts-IsClean participant inbound [] refl) refl)

-- `match` returns True exactly if, for every prefix of the outbound policy, every rule for it and every
-- route of the rule, the inbound policies have that route and in it an item for the prefix, and each
-- such item has the participant not on its blacklist and either the whitelist "*" or one with the
-- participant.
pub match_policies_iff :
    (participant : Text) (outbound : Outbound) (inbound : Inbound)
    → (match_policies participant outbound inbound ≡ ok true) ↔ Agrees participant inbound outbound
match_policies_iff participant outbound inbound =
    (match→Agrees participant inbound outbound, Agrees→match participant inbound outbound)

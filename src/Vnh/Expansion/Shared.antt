-- ===== src/Vnh/Expansion/Shared.antt =====
-- What the list that all calls of `step5a_expand_policy_with_prefixes` share does to later policies
-- (lib/vnh_assignment.py).
use ixp_irc.Prelude.{and_cases, ℕ, Bool, true, false, List, Result, ok, ◌≡◌, refl, arith, ◌&&◌}
use ixp_irc.Bgp.Text.{Text}
use ixp_irc.Vnh.Policy.{
  Policy, parallel, sequential, if_, match_, match_prefixes_set, fwd, modify, passthrough, drop,
  opaque, Policies, nil, cons, Operators,
}
use ixp_irc.Vnh.Expansion.{Acc, expand_prefixes, expand_all}

-- No part of the policy is a sequence.
unfoldable mutual
  pub has_no_sequence : Policy → Bool
  has_no_sequence (parallel ps) = all_without_sequence ps
  has_no_sequence (sequential ps) = false
  has_no_sequence (if_ p t f) = has_no_sequence p && (has_no_sequence t && has_no_sequence f)
  has_no_sequence _ = true

  pub all_without_sequence : Policies → Bool
  all_without_sequence nil = true
  all_without_sequence (cons p ps) = has_no_sequence p && all_without_sequence ps

abbrev pub marked : Acc
marked = record { shared = true; own = false }

module _ (ops : Operators) (announced : ℕ → Result (List Text)) where
  mutual
    unfolding expand_prefixes has_no_sequence

    expand_marked :
        (p : Policy)
        → has_no_sequence p ≡ true
        → expand_prefixes ops announced false p marked ≡ ok (p, marked)
    expand_marked (parallel ps) h = rw (expand_all-marked ps h) refl
    expand_marked (sequential ps) h = cc
    expand_marked (if_ p t f) h =
        let (hp, rest) = and_cases (has_no_sequence p) (has_no_sequence t && has_no_sequence f) h in
        let (ht, hf) = and_cases (has_no_sequence t) (has_no_sequence f) rest in
        rw (expand_marked p hp) (rw (expand_marked t ht) (rw (expand_marked f hf) refl))
    expand_marked (match_ m) h = ground arith
    expand_marked (match_prefixes_set s) h = refl
    expand_marked (fwd port) h = refl
    expand_marked (modify m) h = refl
    expand_marked passthrough h = refl
    expand_marked drop h = refl
    expand_marked (opaque n) h = refl

    expand_all-marked :
        (ps : Policies)
        → all_without_sequence ps ≡ true
        → expand_all ops announced false ps marked ≡ ok (ps, marked)
    expand_all-marked nil h = refl
    expand_all-marked (cons p ps) h =
        let (hp, hps) = and_cases (has_no_sequence p) (all_without_sequence ps) h in
        rw (expand_marked p hp) (rw (expand_all-marked ps hps) refl)

  -- Once a match on a destination outside a sequence has marked the shared list, the first part of
  -- step 5 leaves every policy without a sequence as it is: none of its forwards is restricted to
  -- the prefixes that are announced.
  pub expand_prefixes-marked :
      (p : Policy)
      → has_no_sequence p ≡ true
      → expand_prefixes ops announced false p marked ≡ ok (p, marked)
  expand_prefixes-marked p h = expand_marked p h

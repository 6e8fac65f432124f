-- ===== src/Vnh/States/Ports.antt =====
-- The ports that `extract_all_forward_actions_from_policy` finds (lib/vnh_assignment.py).
use ixp_irc.Prelude.{
  ℕ, Bool, false, ◌||◌, List, ◌++◌, contains, contains-append, contains-to_set, to_set, nat_eq,
  ◌==◌, ◌≡◌, refl, sym, ◌∙◌, arith,
}
use ixp_irc.Vnh.Policy.{
  Policy, parallel, sequential, if_, match_, match_prefixes_set, fwd, modify, passthrough, drop,
  opaque, Policies, nil, cons,
}
use ixp_irc.Vnh.States.{forward_actions, forward_actions_all}

-- The policy forwards to the port outside of the conditions.
unfoldable mutual
  pub forwards_to : ℕ → Policy → Bool
  forwards_to port (parallel ps) = some_forwards_to port ps
  forwards_to port (sequential ps) = some_forwards_to port ps
  forwards_to port (if_ p t f) = forwards_to port t || forwards_to port f
  forwards_to port (fwd q) = port == q
  forwards_to port _ = false

  pub some_forwards_to : ℕ → Policies → Bool
  some_forwards_to port nil = false
  some_forwards_to port (cons p ps) = forwards_to port p || some_forwards_to port ps

contains-union :
    (k : ℕ) (xs ys : List ℕ) → contains k (to_set (xs ++ ys)) ≡ (contains k xs || contains k ys)
contains-union k xs ys = contains-to_set k (xs ++ ys) ∙ contains-append k xs ys

mutual
  unfolding forward_actions forwards_to contains

  contains-actions : (k : ℕ) (p : Policy) → contains k (forward_actions p) ≡ forwards_to k p
  contains-actions k (parallel ps) = contains-actions_all k ps
  contains-actions k (sequential ps) = contains-actions_all k ps
  contains-actions k (if_ p t f) =
      contains-union k (forward_actions t) (forward_actions f)
      ∙ ground (arith, contains-actions k t, contains-actions k f)
  contains-actions k (fwd port) = ground arith
  contains-actions k (match_ m) = refl
  contains-actions k (match_prefixes_set s) = refl
  contains-actions k (modify m) = refl
  contains-actions k passthrough = refl
  contains-actions k drop = refl
  contains-actions k (opaque n) = refl

  contains-actions_all :
      (k : ℕ) (ps : Policies) → contains k (forward_actions_all ps) ≡ some_forwards_to k ps
  contains-actions_all k nil = refl
  contains-actions_all k (cons p ps) =
      contains-union k (forward_actions p) (forward_actions_all ps)
      ∙ ground (arith, contains-actions k p, contains-actions_all k ps)

-- A port is in the result exactly if the policy forwards to it outside of the conditions of its
-- `if_` parts; and two policies that forward to the same ports have the same set.
pub forward_actions-forwards_to :
    (p q : Policy)
    → ((k : ℕ) → forwards_to k p ≡ forwards_to k q)
    → (k : ℕ)
    → (contains k (forward_actions p) ≡ forwards_to k p)
      × (contains k (forward_actions p) ≡ contains k (forward_actions q))
forward_actions-forwards_to p q same k =
    (contains-actions k p, contains-actions k p ∙ same k ∙ sym (contains-actions k q))

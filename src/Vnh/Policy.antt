-- ===== src/Vnh/Policy.antt =====
-- Policies as lib/vnh_assignment.py takes them apart: Pyretic's classes `parallel`, `sequential`,
-- `if_`, `match`, `fwd`, `modify`, and `match_prefixes_set` of lib/language.py. What a policy does
-- to packets is Pyretic's; here it is the tree that the functions build and walk through.
use ixp_irc.Prelude.{Bool, false, ℕ, List, Option, none, []}
use ixp_irc.Bgp.Text.{Text}

-- The fields of a `match` or `modify` that the functions read or write, where `clears_state` is
-- that the field `state` is given as `None`; `other` stands for all
-- else that such a policy holds.
pub record Fields : Type 0 where
  pub dstip : Option Text
  pub dstmac : Option Text
  pub state : Option Text
  pub outport : Option ℕ
  pub inport : Option ℕ
  pub srcmac : Option Text
  pub clears_state : Bool
  pub other : List ℕ

abbrev pub no_fields : Fields
no_fields = record {
  dstip = none;
  dstmac = none;
  state = none;
  outport = none;
  inport = none;
  srcmac = none;
  clears_state = false;
  other = [];
}

-- `opaque` is a policy of a class that no function asks for.
mutual
  pub data Policy : Type 0 where
    parallel : Policies → Policy
    sequential : Policies → Policy
    if_ : Policy → Policy → Policy → Policy
    match_ : Fields → Policy
    match_prefixes_set : List Text → Policy
    fwd : ℕ → Policy
    modify : Fields → Policy
    passthrough : Policy
    drop : Policy
    opaque : ℕ → Policy

  pub data Policies : Type 0 where
    nil : Policies
    cons : Policy → Policies → Policies

-- Pyretic's operators `>>`, `+`, `|` and `&`, which build a policy from two.
pub record Operators : Type 0 where
  pub then : Policy → Policy → Policy
  pub plus : Policy → Policy → Policy
  pub union : Policy → Policy → Policy
  pub meet : Policy → Policy → Policy

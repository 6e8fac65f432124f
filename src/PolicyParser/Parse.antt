-- ===== src/PolicyParser/Parse.antt =====
-- policyparser/parse.py: `main`, over the decoded files. A module that was written stays written when a
-- later file raises an exception.
pub mod Written
use ixp_irc.Prelude.{
  ℕ, suc, ◌+◌, true, false, List, [], ◌∷◌, ◌++◌, Option, none, some, get_elem?, Dict, Result, ok,
  raise, index_error,
}
use ixp_irc.Bgp.Text.{Text}
use ixp_irc.PolicyParser.Matching.{Outbound, Inbound, match_policies}
use ixp_irc.PolicyParser.Generator.{generate}

-- For each module that was written its name and its rules.
abbrev pub Modules : Type 0
Modules = Dict Text (List Text)

-- The loop over `outbound_files`, from the file with the number `i`.
unfoldable pub main_from :
    List Text → ℕ → List Outbound → Inbound → Modules → Result {0} Unit × Modules
unfolding match_policies generate
main_from as_names i [] inbound written = (ok tt, written)
main_from as_names i (outbound ∷ files) inbound written = elim (get_elem? as_names i) [
  | none ↦ (raise index_error, written)
  | some as_name ↦ elim (match_policies as_name outbound inbound) [
    | raise x ↦ (raise x, written)
    | ok false ↦ main_from as_names (i + 1) files inbound written
    | ok true ↦ elim (generate outbound) [
      | raise x ↦ (raise x, written)
      | ok rules ↦ main_from as_names (i + 1) files inbound (written ++ (as_name, rules) ∷ [])
    ]
  ]
]

unfoldable pub main : List Text → List Outbound → Inbound → Result {0} Unit × Modules
unfolding main_from
main as_names files inbound = main_from as_names 0 files inbound []

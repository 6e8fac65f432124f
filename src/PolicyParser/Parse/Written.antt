-- ===== src/PolicyParser/Parse/Written.antt =====
-- Which modules are written (policyparser/parse.py).
use ixp_irc.Prelude.{
  ℕ, ◌+◌, List, [], ◌∷◌, ◌++◌, get_elem?, ok, In, In-append, inl, inr, ◌⊎◌, ◌≡◌, refl, ap, ◌∙◌,
  Option-cases, Result-cases, Bool-cases,
}
use ixp_irc.Bgp.Text.{Text}
use ixp_irc.PolicyParser.Matching.{Outbound, Inbound, match_policies}
use ixp_irc.PolicyParser.Matching.Rules.{Agrees}
use ixp_irc.PolicyParser.Matching.Agreement.{match_policies_iff}
use ixp_irc.PolicyParser.Generator.{generate}
use ixp_irc.PolicyParser.Parse.{Modules, main_from, main}

-- The module comes from a file of a policy that agrees with the inbound ones.
abbrev pub Comes : List Outbound → Inbound → Text × List Text → Type 0
Comes files inbound m =
    (outbound : Outbound) × In outbound files
    × Agrees m.0 inbound outbound
    × (generate outbound ≡ ok m.1)

Comes-cons :
    (f : Outbound) (files : List Outbound) (inbound : Inbound) (m : Text × List Text)
    → Comes files inbound m
    → Comes (f ∷ files) inbound m
Comes-cons f files inbound m (o, i, a, g) = (o, inr i, a, g)

main_from-Comes :
    (as_names : List Text) (i : ℕ) (files : List Outbound) (inbound : Inbound) (written : Modules)
    (m : Text × List Text)
    → In m (main_from as_names i files inbound written).1
    → In m written ⊎ Comes files inbound m
unfolding main_from
main_from-Comes as_names i [] inbound written m h = inl h
main_from-Comes as_names i (f ∷ files) inbound written m h =
    elim (Option-cases (get_elem? as_names i)) [
      | inl q ↦ inl (rw (q, main_from) at h)
      | inr (name, q) ↦ elim (Result-cases (match_policies name f inbound)) [
        | inr (x, p) ↦ inl (rw (p, main_from) at (rw (q, main_from) at h))
        | inl (b, p) ↦ elim (Bool-cases b) [
          | inr n ↦ later (
              main_from-Comes as_names (i + 1) files inbound written m
                (rw (p ∙ ap ok n, main_from) at (rw (q, main_from) at h)))
          | inl y ↦ elim (Result-cases (generate f)) [
            | inr (x, g) ↦
                inl (rw (g, main_from) at (rw (p ∙ ap ok y, main_from) at (rw (q, main_from) at h)))
            | inl (rules, g) ↦
                elim (main_from-Comes as_names (i + 1) files inbound (written ++ (name, rules) ∷ [])
                  m
                  (rw (g, main_from) at
                    (rw (p ∙ ap ok y, main_from) at (rw (q, main_from) at h)))) [
                      | inr c ↦ inr (Comes-cons f files inbound m c)
                      | inl w ↦ elim (In-append m written ((name, rules) ∷ []) w) [
                        | inl before ↦ inl before
                        | inr (inl e) ↦ inr (
                          f,
                          inl refl,
                          rw e ((match_policies_iff name f inbound).0 (p ∙ ap ok y)),
                          rw e g,
                        )
                        | inr (inr z) ↦ absurd z
                      ]
                    ]
          ]
        ]
      ]
    ]
  where
    later : In m written ⊎ Comes files inbound m → In m written ⊎ Comes (f ∷ files) inbound m
    later (inl w) = inl w
    later (inr c) = inr (Comes-cons f files inbound m c)

-- Whether `main` ends or raises an exception, each module that it wrote is of a file whose policy agrees,
-- for the participant that the module is named after, with the inbound policies, and has the rules that
-- `generate` makes of it.
pub main-Comes :
    (as_names : List Text) (files : List Outbound) (inbound : Inbound) (m : Text × List Text)
    → In m (main as_names files inbound).1
    → Comes files inbound m
unfolding main
main-Comes as_names files inbound m h = elim (main_from-Comes as_names 0 files inbound [] m h) [
  | inl z ↦ absurd z
  | inr c ↦ c
]

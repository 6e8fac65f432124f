-- ===== src/Controller/Imports.antt =====
-- When the modules of a participant can be imported and give policies (lib/core.py).
use ixp_irc.Prelude.{
  List, [], ◌∷◌, nat_eq, list_eq, All, Dict, Result, ok, bind_of, ◌>>=◌, ◌≡◌, refl, ◌∙◌,
}
use ixp_irc.Bgp.Text.{Text}
use ixp_irc.Vnh.Policy.{Policy, Policies, nil, cons}
use ixp_irc.Controller.{Held, Controller, Module, ImportModule, import_modules, module_policies}

-- A module that can be imported, whose `policy` returns for every participant.
abbrev pub Returns : Result Module → Type 0
Returns r =
    (m : Module) × (r ≡ ok m) × ((h : Held) (c : Controller) → (p : Policy) × (m h c ≡ ok p))

-- Each module that the policy file names is such a module.
abbrev pub HaveModules : ImportModule → Dict Text (List Text) → Type 0
HaveModules import_module files =
    All (λ (f : Text × List Text). All (λ name. Returns (import_module name)) f.1) files

-- Each of the modules returns a policy for the participant.
abbrev AllGive : Held → Controller → List Module → Type 0
AllGive h c ms = All (λ (m : Module). (p : Policy) × (m h c ≡ ok p)) ms

module _ (import_module : ImportModule) (h : Held) (c : Controller) where
  imports_return :
      (names : List Text)
      → All (λ name. Returns (import_module name)) names
      → (ms : List Module) × (import_modules import_module names ≡ ok ms) × AllGive h c ms
  unfolding import_modules
  imports_return [] a = ([], refl, tt)
  imports_return (n ∷ ns) ((m, e, give), a) =
      let (ms, q, gives) = imports_return ns a in
      (m ∷ ms, bind_of _ e ∙ bind_of _ q, (give h c, gives))

  policies_return :
      (ms : List Module) → AllGive h c ms → (ps : Policies) × (module_policies ms h c ≡ ok ps)
  unfolding module_policies
  policies_return [] a = (nil, refl)
  policies_return (m ∷ ms) ((p, e), a) =
      let (ps, q) = policies_return ms a in (cons p ps, bind_of _ e ∙ bind_of _ q)

  pub modules_return :
      (names : List Text)
      → All (λ name. Returns (import_module name)) names
      → (ps : Policies) × ((import_modules import_module names >>= λ ms. module_policies ms h c)
          ≡ ok ps)
  modules_return names have =
      let (ms, e, give) = imports_return names have in
      let (ps, q) = policies_return ms give in (ps, bind_of _ e ∙ q)

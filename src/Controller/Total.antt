-- ===== src/Controller/Total.antt =====
-- When `update_policy` returns (main.py).
use ixp_irc.Prelude.{
  true, false, List, [], ◌∷◌, some, nat_eq, list_eq, list_beq_iff, ◌==◌, Dict, get, lookup, put,
  lookup-put, has_key, contains, keys, All, Distinct, beq_comm, ok, bind_of, ◌≡◌, refl, sym, ◌∙◌,
  arith, Bool-cases, inl, inr, ◌⊎◌,
}
use ixp_irc.Bgp.Text.{Text, codes}
use ixp_irc.Vnh.Policy.{Policy, parallel, Operators}
use ixp_irc.Composition.{Composed}
use ixp_irc.Composition.Total.{Named, compose_total}
use ixp_irc.Utils.{ip_mac_from, get_ip_mac_list}
use ixp_irc.SetOperations.Parallel.Keys.{put-Distinct}
use ixp_irc.Controller.Imports.{HaveModules, modules_return}
use ixp_irc.Controller.{
  Held, Controller, ImportModule, Compile, compile_all, assign_policies, compose_all, update_policy,
}

-- The policy file names participants.
abbrev pub NamesParticipants : Dict Text (List Text) → Dict Text Held → Type 0
NamesParticipants files participants =
    All (λ (f : Text × List Text). (p : Held) × (lookup f.0 participants ≡ some p)) files

-- Every virtual next hop that has an address has a MAC address.
abbrev pub HaveMacs : Dict Text Text → Dict Text Text → Type 0
HaveMacs [] macs = Unit
HaveMacs ((vnh, ip) ∷ ips) macs =
    ((vnh == codes "VNH") ≡ true ⊎ ((mac : Text) × (lookup vnh macs ≡ some mac)))
    × HaveMacs ips macs

-- Every participant's state variable is known.
abbrev pub HeldNamed : Dict Text Text → Dict Text Held → Type 0
HeldNamed vars [] = Unit
HeldNamed vars ((name, h) ∷ participants) =
    ((v : Text) × (lookup h.id vars ≡ some v)) × HeldNamed vars participants

-- Every participant has policies, or the file gives it some.
abbrev pub HavePolicies : Dict Text (List Text) → Dict Text Held → Type 0
HavePolicies files [] = Unit
HavePolicies files ((name, h) ∷ participants) =
    (((p : Policy) × (h.policies ≡ some p)) ⊎ (has_key name files ≡ true))
    × HavePolicies files participants

-- The participant that is next in the file gets its policies.
HavePolicies-skip :
    (name : Text) (modules : List Text) (files : Dict Text (List Text)) (ps : Dict Text Held)
    → contains name (keys ps) ≡ false
    → HavePolicies ((name, modules) ∷ files) ps
    → HavePolicies files ps
unfolding contains
HavePolicies-skip name modules files [] h a = tt
HavePolicies-skip name modules files ((k, c) ∷ ps) h (inl p, a) =
    (inl p, HavePolicies-skip name modules files ps (ground arith) a)
HavePolicies-skip name modules files ((k, c) ∷ ps) h (inr t, a) = (
  inr (ground (arith, beq_comm name k, h, t)),
  HavePolicies-skip name modules files ps (ground arith) a,
)

HavePolicies-put :
    (name : Text) (modules : List Text) (files : Dict Text (List Text)) (q : Held) {policy : Policy}
    (ps : Dict Text Held)
    → q.policies ≡ some policy
    → Distinct (keys ps)
    → HavePolicies ((name, modules) ∷ files) ps
    → HavePolicies files (put name q ps)
unfolding put contains
HavePolicies-put name modules files q {policy} [] e d h = (inl (policy, e), tt)
HavePolicies-put name modules files q {policy} ((k, c) ∷ ps) e d h = elim (Bool-cases (name == k)) [
  | inl t ↦
      let same : name ≡ k = (list_beq_iff name k).0 t in
      rw (t, put) (inl (policy, e), HavePolicies-skip name modules files ps (rw same d.0) h.1)
  | inr f ↦
      rw (f, put)
        (
          elim h.0 [ inl p ↦ inl p | inr t ↦ inr (ground (arith, beq_comm name k, f, t)) ],
          HavePolicies-put name modules files q ps e d.1 h.1,
        )
]

HeldNamed-put :
    (vars : Dict Text Text) (name : Text) (p q : Held) (ps : Dict Text Held)
    → lookup name ps ≡ some p
    → q.id ≡ p.id
    → HeldNamed vars ps
    → HeldNamed vars (put name q ps)
unfolding lookup put
HeldNamed-put vars name p q [] h e n = cc
HeldNamed-put vars name p q ((k, c) ∷ ps) h e n = elim (Bool-cases (name == k)) [
  | inl t ↦
      let same : some c ≡ some p = (rw t at h) in
      let c_is : c ≡ p = (cc same) in rw (t, put) (rw e (rw (← c_is) n.0), n.1)
  | inr f ↦ rw (f, put) (n.0, HeldNamed-put vars name p q ps (rw f at h) e n.1)
]

NamesParticipants-put :
    (files : Dict Text (List Text)) (name : Text) (q : Held) (ps : Dict Text Held)
    → NamesParticipants files ps
    → NamesParticipants files (put name q ps)
NamesParticipants-put [] name q ps h = tt
NamesParticipants-put ((k, modules) ∷ files) name q ps ((p, e), hs) = (
  elim (Bool-cases (k == name)) [
    | inl t ↦ (q, lookup-put name k q ps ∙ rw t refl)
    | inr f ↦ (p, lookup-put name k q ps ∙ rw f e)
  ],
  NamesParticipants-put files name q ps hs,
)

get_found {ℓ} :
    {V : Type ℓ} (d : Dict Text V) (k : Text) {v : V} → lookup k d ≡ some v → get d k ≡ ok v
unfolding get
get_found d k h = rw (h, get) refl

-- What the composition reads of the controller, with the files that are still to be assigned.
abbrev IsReady : Dict Text (List Text) → Controller → Type 0
IsReady files c =
    HeldNamed c.participant_id_to_in_var c.participants
    × HaveMacs c.vnh.vnh_2_ip c.vnh_2_mac
    × Distinct (keys c.participants)
    × HavePolicies files c.participants

assign_policies_total :
    (import_module : ImportModule) (files : Dict Text (List Text)) (c : Controller)
    → HaveModules import_module files
    → NamesParticipants files c.participants
    → IsReady files c
    → ((assign_policies import_module files c).0 ≡ ok tt)
      × IsReady [] (assign_policies import_module files c).1
unfolding assign_policies
assign_policies_total import_module [] c have h r = (refl, r)
assign_policies_total import_module ((name, modules) ∷ files) c (have, haves) ((p, e), hs)
      (named, macs, d, some_policies) =
    let (ps, loaded) = modules_return import_module p c modules have in
    let q : Held = record p { policies = some (parallel ps) } in
    let c' : Controller = record c { participants = put name q c.participants } in
    rw (get_found c.participants name e, assign_policies)
      (rw (loaded, assign_policies)
        (assign_policies_total import_module files c' haves
          (NamesParticipants-put files name q c.participants hs)
          (
            HeldNamed-put c.participant_id_to_in_var name p q c.participants e refl named,
            macs,
            put-Distinct name q c.participants d,
            HavePolicies-put name modules files q c.participants refl d some_policies,
          )))

compile_all_total :
    (compile : Compile) (vars : Dict Text Text) (ps : Dict Text Held)
    → ((p : Policy) → compile p ≡ ok tt)
    → HeldNamed vars ps
    → HavePolicies [] ps
    → (cs : Dict Text Composed) × (compile_all compile ps ≡ ok cs) × Named vars cs
unfolding compile_all contains
compile_all_total compile vars [] compiles n h = ([], refl, tt)
compile_all_total compile vars ((name, c) ∷ ps) compiles n (inr z, h) = cc
compile_all_total compile vars ((name, c) ∷ ps) compiles n (inl (p, e), h) =
    let (cs, q, named) = compile_all_total compile vars ps compiles n.1 h in
    (
      (name, record { id = c.id; phys_ports = c.phys_ports; policies = p }) ∷ cs,
      rw (e, compile_all) (bind_of _ (compiles p) ∙ bind_of _ q),
      (n.0, named),
    )

ip_mac_from_total :
    (ips macs found : Dict Text Text)
    → HaveMacs ips macs
    → (d : Dict Text Text) × (ip_mac_from ips macs found ≡ ok d)
unfolding ip_mac_from
ip_mac_from_total [] macs found h = (found, refl)
ip_mac_from_total ((vnh, ip) ∷ ips) macs found (here, hs) = elim (Bool-cases (vnh == codes "VNH")) [
  | inl t ↦ let (d, q) = ip_mac_from_total ips macs found hs in (d, rw (t, ip_mac_from) q)
  | inr f ↦ elim here [
    | inl t ↦ let z : true ≡ false = sym t ∙ f in cc
    | inr (mac, e) ↦
        let (d, q) = ip_mac_from_total ips macs (put ip mac found) hs in
        (d, rw (f, ip_mac_from) (bind_of _ (bind_of _ (get_found macs vnh e)) ∙ q))
  ]
]

compose_all_total :
    (ops : Operators) (no_packets : Policy) (import_module : ImportModule) (compile : Compile)
    (c : Controller)
    → ((p : Policy) → compile p ≡ ok tt)
    → IsReady [] c
    → (compose_all ops no_packets import_module compile c).0 ≡ ok tt
unfolding compose_all get_ip_mac_list
compose_all_total ops no_packets import_module compile c compiles (held, macs, d, h) =
    let (cs, r, named) =
      compile_all_total compile c.participant_id_to_in_var c.participants compiles held h in
    let (p, q) =
      compose_total ops no_packets c.out_var_to_port c.participant_id_to_in_var cs named in
    let (m, e) = ip_mac_from_total c.vnh.vnh_2_ip c.vnh_2_mac [] macs in
    rw (r, compose_all) (rw (q, compose_all) (rw (e, compose_all) refl))

-- Where Pyretic compiles every policy, every module that the policy file names can be imported and
-- returns a policy for each participant, the file names participants, which are there once each, every
-- participant has policies or is in the file, every participant has its state variable, and every
-- virtual next hop with an address has a MAC address, `update_policy` returns.
pub update_policy_total :
    (ops : Operators) (no_packets : Policy) (import_module : ImportModule) (compile : Compile)
    (files : Dict Text (List Text)) (c : Controller)
    → ((p : Policy) → compile p ≡ ok tt)
    → HaveModules import_module files
    → NamesParticipants files c.participants
    → Distinct (keys c.participants)
    → HavePolicies files c.participants
    → HeldNamed c.participant_id_to_in_var c.participants
    → HaveMacs c.vnh.vnh_2_ip c.vnh_2_mac
    → (update_policy ops no_packets import_module compile files c).0 ≡ ok tt
unfolding update_policy
update_policy_total ops no_packets import_module compile files c compiles have h d some_policies
      named macs =
    let (q, r) =
      assign_policies_total import_module files c have h (named, macs, d, some_policies) in
    rw (q, update_policy)
      (compose_all_total ops no_packets import_module compile
        (assign_policies import_module files c).1 compiles r)

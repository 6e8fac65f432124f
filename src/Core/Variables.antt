-- ===== src/Core/Variables.antt =====
-- The state variables that `sdx_parse_config` gives the participants (lib/core.py).
use ixp_irc.Prelude.{
  ℕ, ◌+◌, List, [], ◌∷◌, ◌++◌, some, nat_eq, list_eq, beq_refl, ◌==◌, Dict, get, lookup, put,
  lookup-put, All, ok, bind_ok, ok-injective, not-ok_raise, cons-cases, ◌≡◌, refl, sym, ap, ◌∙◌,
  Bool-cases, inl, inr,
}
use ixp_irc.Bgp.Text.{Text, codes}
use ixp_irc.Vnh.State.{PhysicalPort}
use ixp_irc.Core.{
  ParticipantConfig, Member, Tables, no_tables, upper, add_ports, add_all_ports, add_peers,
  add_out_vars, add_participant, add_member, add_members, sdx_parse_config,
}

-- The participant has a state variable.
abbrev HasVar : Dict Text Text → Member → Type 0
HasVar vars m = (v : Text) × (lookup m.id vars ≡ some v)

-- Every participant has one.
abbrev pub HaveVars : Dict Text Text → Dict Text Member → Type 0
HaveVars vars participants = All (λ (e : Text × Member). HasVar vars e.1) participants

HasVar-put :
    (vars : Dict Text Text) (k v : Text) (m : Member) → HasVar vars m → HasVar (put k v vars) m
HasVar-put vars k v m (w, h) = elim (Bool-cases (m.id == k)) [
  | inl t ↦ (v, lookup-put k m.id v vars ∙ rw t refl)
  | inr f ↦ (w, lookup-put k m.id v vars ∙ rw f h)
]

HaveVars-vars :
    (vars : Dict Text Text) (k v : Text) (d : Dict Text Member)
    → HaveVars vars d
    → HaveVars (put k v vars) d
HaveVars-vars vars k v [] h = tt
HaveVars-vars vars k v ((name, m) ∷ d) h = (HasVar-put vars k v m h.0, HaveVars-vars vars k v d h.1)

HaveVars-put :
    (vars : Dict Text Text) (name : Text) (m : Member) (d : Dict Text Member)
    → HasVar vars m
    → HaveVars vars d
    → HaveVars vars (put name m d)
unfolding put
HaveVars-put vars name m [] h a = (h, tt)
HaveVars-put vars name m ((k, m') ∷ d) h a = elim (Bool-cases (name == k)) [
  | inl t ↦ rw (t, put) (h, a.1)
  | inr f ↦ rw (f, put) (a.0, HaveVars-put vars name m d h a.1)
]

abbrev IsNamed : Tables → Type 0
IsNamed t = HaveVars t.participant_id_to_in_var t.participants

add_out_vars-IsNamed :
    (id : Text) (i : ℕ) (ports : List PhysicalPort) (t : Tables)
    → IsNamed t
    → IsNamed (add_out_vars id i ports t)
unfolding add_out_vars
add_out_vars-IsNamed id i [] t h = h
add_out_vars-IsNamed id i (p ∷ ports) t h = add_out_vars-IsNamed id (i + 1) ports _ h

add_participant-IsNamed :
    (m : Member) (name : Text) (t : Tables) → IsNamed t → IsNamed (add_participant m name t)
unfolding add_participant
add_participant-IsNamed m name t h =
    let var = codes "in" ++ upper m.id in
    let vars = put m.id var t.participant_id_to_in_var in
    add_out_vars-IsNamed m.id 0 m.phys_ports _ (
      HaveVars-put vars name m t.participants
        (var, lookup-put m.id m.id var t.participant_id_to_in_var ∙ rw (beq_refl m.id) refl)
        (HaveVars-vars t.participant_id_to_in_var m.id var t.participants h))

add_member-IsNamed :
    (name : Text) (config : ParticipantConfig) (t : Tables) {t' : Tables}
    → add_member name config t ≡ ok t'
    → IsNamed t
    → IsNamed t'
unfolding add_member
add_member-IsNamed name config t {t'} e h =
    let (ports, p, e1) = bind_ok (get t.participant_2_port name) _ e in
    let (r, q, e2) = bind_ok (add_peers t.sdx_vports config.peers [] ports) _ e1 in
    let (vport, s, e3) = bind_ok (get t.sdx_vports name) _ e2 in
    let (phys_ports, u, e4) = bind_ok (get t.sdx_ports name) _ e3 in
    let m : Member = record { id = name; vport = vport; phys_ports = phys_ports; peers = r.0 } in
    let t1 : Tables = record t { participant_2_port = put name r.1 t.participant_2_port } in
    rw (← ok-injective e4) (add_participant-IsNamed m name t1 h)

add_members-IsNamed :
    (config : Dict Text ParticipantConfig) (t : Tables) {t' : Tables}
    → add_members config t ≡ ok t'
    → IsNamed t
    → IsNamed t'
unfolding add_members
add_members-IsNamed [] t e h = rw (← ok-injective e) h
add_members-IsNamed ((name, c) ∷ config) t e h =
    let (t1, p, e1) = bind_ok (add_member name c t) _ e in
    add_members-IsNamed config t1 e1 (add_member-IsNamed name c t p h)

-- The first loop adds no participants.
add_ports-same :
    (name : Text) (c : ParticipantConfig) (t : Tables) {t' : Tables}
    → add_ports name c t ≡ ok t'
    → t'.participants ≡ t.participants
unfolding add_ports
add_ports-same name c t {t'} e = elim (cons-cases c.ports) [
  | inl q ↦ absurd (not-ok_raise (rw (q, add_ports) at e))
  | inr (p, ps, q) ↦
      ap (λ (x : Tables). x.participants) (sym (ok-injective (rw (q, add_ports) at e)))
]

add_all_ports-none :
    (config : Dict Text ParticipantConfig) (t : Tables) {t' : Tables}
    → add_all_ports config t ≡ ok t'
    → t.participants ≡ []
    → t'.participants ≡ []
unfolding add_all_ports
add_all_ports-none [] t e h = rw (← ok-injective e) h
add_all_ports-none ((name, c) ∷ config) t e h =
    let (t1, p, e1) = bind_ok (add_ports name c t) _ e in
    add_all_ports-none config t1 e1 (add_ports-same name c t p ∙ h)

pub sdx_parse_config-HaveVars :
    (config : Dict Text ParticipantConfig) {t : Tables}
    → sdx_parse_config config ≡ ok t
    → HaveVars t.participant_id_to_in_var t.participants
unfolding sdx_parse_config
sdx_parse_config-HaveVars config e =
    let (t1, p, e1) = bind_ok (add_all_ports config no_tables) _ e in
    let none_yet : t1.participants ≡ [] = add_all_ports-none config no_tables p refl in
    add_members-IsNamed config t1 e1 (rw none_yet tt)

-- ===== src/Controller/Silence.antt =====
-- What the route server sends as long as the controller assigns no virtual next hop (main.py).
use ixp_irc.Prelude.{
  List, [], ◌∷◌, Option, none, some, nat_eq, list_eq, Dict, get, In, ok, ◌>>=◌, ◌≡◌, refl, ap, ◌∙◌,
  inl, inr, Result-cases, keys,
}
use ixp_irc.Bgp.Text.{Text}
use ixp_irc.Bgp.Peer.{Message, Item, announced, withdrawn}
use ixp_irc.Bgp.Decision.{Participants}
use ixp_irc.Bgp.RouteServer.{
  VnhTables, PolicyThread, Outcome, Sent, put_all, and_then, update_ribs, decide, withdrawal,
  withdrawals, announcements, send_all, after_update, round, serve,
}
use ixp_irc.Vnh.Policy.{Policy, Operators}
use ixp_irc.Composition.{simple_compose}
use ixp_irc.Utils.{get_ip_mac_list}
use ixp_irc.Controller.{
  Controller, ImportModule, Compile, import_modules, module_policies, assign_policies, compile_all,
  compose_all, update_policy, policy_thread,
}

assign_policies-vnh :
    (import_module : ImportModule) (files : Dict Text (List Text)) (c : Controller)
    → (assign_policies import_module files c).1.vnh ≡ c.vnh
unfolding assign_policies
assign_policies-vnh import_module [] c = refl
assign_policies-vnh import_module ((name, modules) ∷ rest) c =
    elim (Result-cases (get c.participants name)) [
      | inr (x, q) ↦ rw (q, assign_policies) refl
      | inl (participant, q) ↦
          elim (Result-cases
            (import_modules import_module modules >>= λ ms. module_policies ms participant c)) [
              | inr (x, e) ↦ rw (q, assign_policies) (rw (e, assign_policies) refl)
              | inl (ps, e) ↦
                  rw (q, assign_policies)
                    (rw (e, assign_policies) (assign_policies-vnh import_module rest _))
            ]
    ]

module _ (ops : Operators) (no_packets : Policy) (import_module : ImportModule)
    (compile : Compile) where
  compose_all-vnh :
      (c : Controller) → (compose_all ops no_packets import_module compile c).1.vnh ≡ c.vnh
  unfolding compose_all
  compose_all-vnh c = elim (Result-cases (compile_all compile c.participants)) [
    | inr (x, q) ↦ rw (q, compose_all) refl
    | inl (ps, q) ↦
        elim (Result-cases
          (simple_compose ops no_packets c.out_var_to_port c.participant_id_to_in_var ps)) [
            | inr (x, p) ↦ rw (q, compose_all) (rw (p, compose_all) refl)
            | inl (policy, p) ↦ elim (Result-cases (get_ip_mac_list c.vnh.vnh_2_ip c.vnh_2_mac)) [
              | inr (x, e) ↦ rw (q, compose_all) (rw (p, compose_all) (rw (e, compose_all) refl))
              | inl (mac_of, e) ↦
                  rw (q, compose_all) (rw (p, compose_all) (rw (e, compose_all) refl))
            ]
          ]
  ]

  update_policy-vnh :
      (files : Dict Text (List Text)) (c : Controller)
      → (update_policy ops no_packets import_module compile files c).1.vnh ≡ c.vnh
  unfolding update_policy
  update_policy-vnh files c = elim (Result-cases (assign_policies import_module files c).0) [
    | inr (x, q) ↦ rw (q, update_policy) (assign_policies-vnh import_module files c)
    | inl (u, q) ↦
        rw (q, update_policy)
          (compose_all-vnh (assign_policies import_module files c).1
            ∙ assign_policies-vnh import_module files c)
  ]

  policy_thread_same :
      (files : Dict Text (List Text)) (c : Controller) (ps : Participants) (t : VnhTables)
      → policy_thread ops no_packets import_module compile files c ps t ≡ t
  unfolding policy_thread
  policy_thread_same files c ps t = update_policy-vnh files (record c { vnh = t })

-- The round sends nothing and leaves the tables.
abbrev IsSilent : VnhTables → Outcome → Type 0
IsSilent t o = (o.tables ≡ t) × (o.sent ≡ [])

module _ (policies : PolicyThread) (same : (ps : Participants) (t : VnhTables) → policies ps t ≡ t)
    (t : VnhTables) (unassigned : t.vnh_2_pfx ≡ []) where
  no_withdrawals : (items : List Item) → withdrawals t items ≡ ([], ok tt)
  unfolding withdrawals withdrawal put_all
  no_withdrawals [] = refl
  no_withdrawals (announced r ∷ items) = no_withdrawals items
  no_withdrawals (withdrawn r ∷ items) =
      rw (none_for r, withdrawals) (rw (no_withdrawals items) refl)
    where
      none_for : (o : Option _) → withdrawal t.vnh_2_ip o t.vnh_2_pfx ≡ ok []
      none_for o = rw unassigned refl

  no_announcements : (ps : Participants) → announcements t.vnh_2_ip t.vnh_2_pfx ps ≡ ([], ok tt)
  unfolding announcements
  no_announcements ps = rw unassigned refl

  send_all-IsSilent :
      (items : List Item) (ps : Participants) → IsSilent t (send_all policies t items ps)
  unfolding send_all and_then
  send_all-IsSilent items ps =
      rw (ap (λ s. s.1) (no_withdrawals items), send_all)
        (rw (ap (λ s. s.0) (no_withdrawals items))
          (rw (same ps t, send_all) (refl, rw (no_announcements ps) refl)))

  after_update-IsSilent :
      (items : Option (List Item)) (ps : Participants)
      → IsSilent t (after_update policies t items ps)
  unfolding after_update
  after_update-IsSilent none ps = (refl, refl)
  after_update-IsSilent (some items) ps = elim (Result-cases (decide items [] ps).0) [
    | inr (x, q) ↦ rw (q, after_update) (refl, refl)
    | inl (updates, q) ↦ rw (q, after_update) (send_all-IsSilent items (decide items [] ps).1)
  ]

  round-IsSilent :
      (message : Message) (ps : Participants) → IsSilent t (round policies t message ps)
  unfolding round
  round-IsSilent message ps = elim (Result-cases (update_ribs message (keys ps) none ps).0) [
    | inr (x, q) ↦ rw (q, round) (refl, refl)
    | inl (items, q) ↦
        rw (q, round) (after_update-IsSilent items (update_ribs message (keys ps) none ps).1)
  ]

  serve-IsSilent :
      (messages : List Message) (ps : Participants) (r : Sent)
      → In r (serve policies messages t ps)
      → r.0 ≡ []
  unfolding serve
  serve-IsSilent [] ps r i = absurd i
  serve-IsSilent (message ∷ messages) ps r i =
      let (left, sent) = round-IsSilent message ps in
      elim (Result-cases (round policies t message ps).result) [
        | inr (x, q) ↦ elim (rw (q, serve) at i) [
          | inl e ↦ ap (λ o. o.0) e ∙ sent
          | inr z ↦ absurd z
        ]
        | inl (u, q) ↦ elim (rw (q, serve) at i) [
          | inl e ↦ ap (λ o. o.0) e ∙ sent
          | inr j ↦
              serve-IsSilent messages (round policies t message ps).participants r (rw left at j)
        ]
      ]

-- Whatever the policy file is and whatever the participants' modules and Pyretic return or raise: if no virtual next hop has prefixes at
-- first, then the route server, whose waits `update_policy` ends, sends nothing in any round, for
-- whatever messages arrive, also not in one that ends with an exception.
pub serve-silent :
    (ops : Operators) (no_packets : Policy) (import_module : ImportModule) (compile : Compile)
    (files : Dict Text (List Text)) (c : Controller) (messages : List Message) (ps : Participants)
    (r : Sent)
    → c.vnh.vnh_2_pfx ≡ []
    → In r (serve (policy_thread ops no_packets import_module compile files c) messages c.vnh ps)
    → r.0 ≡ []
serve-silent ops no_packets import_module compile files c messages ps r h =
    serve-IsSilent (policy_thread ops no_packets import_module compile files c)
      (policy_thread_same ops no_packets import_module compile files c) c.vnh h messages ps r

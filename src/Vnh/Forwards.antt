-- ===== src/Vnh/Forwards.antt =====
-- Which prefix lists `get_prefix` finds (lib/vnh_assignment.py).
use ixp_irc.Prelude.{
  bind_of, Option-cases, inl, inr, ℕ, List, [], ◌∷◌, ◌++◌, Result, ok, raise, ◌>>=◌, ◌≡◌, refl, sym,
  ap, ◌∙◌,
}
use ixp_irc.Bgp.Text.{Text}
use ixp_irc.Vnh.Policy.{
  Policy, parallel, sequential, if_, match_, match_prefixes_set, fwd, modify, passthrough, drop,
  opaque, Policies, nil, cons,
}
use ixp_irc.Vnh.Prefixes.{get_prefix, get_prefixes}

-- The ports to which a policy forwards, from left to right.
unfoldable mutual
  pub out_ports : Policy → List ℕ
  out_ports (parallel ps) = out_ports_all ps
  out_ports (sequential ps) = out_ports_all ps
  out_ports (if_ p t f) = out_ports p ++ (out_ports t ++ out_ports f)
  out_ports (fwd port) = port ∷ []
  out_ports (match_ m) = []
  out_ports (match_prefixes_set s) = []
  out_ports (modify m) = []
  out_ports passthrough = []
  out_ports drop = []
  out_ports (opaque n) = []

  pub out_ports_all : Policies → List ℕ
  out_ports_all nil = []
  out_ports_all (cons p ps) = out_ports p ++ out_ports_all ps

bind_cong :
    {A B : Type 0} (r : Result A) {f g : A → Result B}
    → ((a : A) → f a ≡ g a)
    → (r >>= f) ≡ (r >>= g)
bind_cong (ok a) h = h a
bind_cong (raise z) h = refl

bind_assoc :
    {A B C : Type 0} (r : Result A) (f : A → Result B) (g : B → Result C)
    → (r >>= f >>= g) ≡ (r >>= λ a. (f a >>= g))
bind_assoc (ok a) f g = refl
bind_assoc (raise z) f g = refl

module _ (announced : ℕ → Result (List Text)) where
  -- What is announced at each of the ports is put behind the list.
  unfoldable pub collect : List ℕ → List (List Text) → Result (List (List Text))
  collect [] l = ok l
  collect (port ∷ ports) l = announced port >>= λ routes. collect ports (l ++ routes ∷ [])

  collect-append :
      (xs ys : List ℕ) (l : List (List Text))
      → collect (xs ++ ys) l ≡ (collect xs l >>= λ m. collect ys m)
  unfolding collect
  collect-append [] ys l = refl
  collect-append (x ∷ xs) ys l =
      bind_cong (announced x) (λ routes. collect-append xs ys (l ++ routes ∷ []))
      ∙ sym (bind_assoc (announced x) (λ routes. collect xs (l ++ routes ∷ [])) (λ m. collect ys m))

module _ (announced : ℕ → Result (List Text)) (listed : Text → Result {0} Unit)
    (lists : (ip : Text) → listed ip ≡ ok tt) where
  mutual
    unfolding get_prefix collect out_ports

    get_prefix-collect :
        (p : Policy) (l : List (List Text))
        → get_prefix announced listed p [] l ≡ collect announced (out_ports p) l
    get_prefix-collect (parallel ps) l = get_prefixes-collect ps l
    get_prefix-collect (sequential ps) l = get_prefixes-collect ps l
    get_prefix-collect (if_ p t f) l =
        ap
          (λ r. r >>= λ m.
            (get_prefix announced listed t [] m >>= λ n. get_prefix announced listed f [] n))
          (get_prefix-collect p l)
        ∙ bind_cong (collect announced (out_ports p) l) (λ m.
          ap (λ r. r >>= λ n. get_prefix announced listed f [] n) (get_prefix-collect t m)
          ∙ bind_cong (collect announced (out_ports t) m) (λ n. get_prefix-collect f n)
          ∙ sym (collect-append announced (out_ports t) (out_ports f) m))
        ∙ sym (collect-append announced (out_ports p) (out_ports t ++ out_ports f) l)
    get_prefix-collect (fwd port) l = refl
    get_prefix-collect (match_ m) l = elim (Option-cases m.dstip) [
      | inl q ↦ rw (q, get_prefix) refl
      | inr (ip, q) ↦ rw (q, get_prefix) (bind_of _ (lists ip))
    ]
    get_prefix-collect (match_prefixes_set s) l = refl
    get_prefix-collect (modify m) l = refl
    get_prefix-collect passthrough l = refl
    get_prefix-collect drop l = refl
    get_prefix-collect (opaque n) l = refl

    get_prefixes-collect :
        (ps : Policies) (l : List (List Text))
        → get_prefixes announced listed ps [] l ≡ collect announced (out_ports_all ps) l
    get_prefixes-collect nil l = refl
    get_prefixes-collect (cons p ps) l =
        ap (λ r. r >>= λ m. get_prefixes announced listed ps [] m) (get_prefix-collect p l)
        ∙ bind_cong (collect announced (out_ports p) l) (λ m. get_prefixes-collect ps m)
        ∙ sym (collect-append announced (out_ports p) (out_ports_all ps) l)

  -- Where the `list` of a dstip does not raise, `get_prefix` collects the lists announced at the ports
  -- that a policy forwards to, in their order: two policies that forward to the same ports have the
  -- same lists, whatever prefixes they match.
  pub get_prefix-out_ports :
      (p q : Policy) (l : List (List Text))
      → out_ports p ≡ out_ports q
      → (get_prefix announced listed p [] l ≡ collect announced (out_ports p) l)
        × (get_prefix announced listed p [] l ≡ get_prefix announced listed q [] l)
  get_prefix-out_ports p q l same = (
    get_prefix-collect p l,
    get_prefix-collect p l
        ∙ ap (λ ports. collect announced ports l) same
        ∙ sym (get_prefix-collect q l),
  )

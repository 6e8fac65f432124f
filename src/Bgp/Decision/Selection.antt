-- ===== src/Bgp/Decision/Selection.antt =====
-- `best_path_selection` against the rules that its comment lists.
use ixp_irc.Prelude.{
  ℕ, ◌≤◌, false, List, [], ◌∷◌, ◌≡◌, ◌≢◌, refl, sym, ◌∙◌, inl, inr, In, either, ok, ◌>>=◌,
}
use ixp_irc.Bgp.Text.{Text, get_advertised_as}
use ixp_irc.Bgp.Rib.{Route}
use ixp_irc.Bgp.Decision.{
  path_length, scalar_lt, shortest, advertised, post_med, only_or, lowest_router,
  best_path_selection,
}
use ixp_irc.Bgp.Decision.Order.{scalar_lt_irrefl}
use ixp_irc.Bgp.Decision.Paths.{IsShortest, shortest-IsShortest}
use ixp_irc.Bgp.Decision.Filter.{
  SameAs, Unbeaten, IsMedFiltered, Unbeaten-exists, post_med-IsMedFiltered,
}
use ixp_irc.Bgp.Decision.Router.{IsDotted, RouterLe, RouterLe-refl, lowest_router_lem}

-- The AS path names an AS.
abbrev pub NamesAs : Route → Type 0
NamesAs r = (a : Text) × (get_advertised_as r.as_path ≡ ok a)

-- The rules for the route `r` chosen among `routes`.
pub record IsBest (routes : List Route) (r : Route) : Type 0 where
  pub member : In r routes
  pub shortest_path : (r' : Route) → In r' routes → path_length r ≤ path_length r'
  pub lowest_med :
      (r' : Route)
      → In r' routes
      → path_length r' ≡ path_length r
      → SameAs r r'
      → scalar_lt r'.med r.med ≡ false
  pub lowest_router_id :
      (r' : Route)
      → In r' routes
      → path_length r' ≡ path_length r
      → ((r'' : Route)
          → In r'' routes
          → path_length r'' ≡ path_length r
          → SameAs r' r''
          → scalar_lt r''.med r'.med ≡ false)
      → RouterLe r r'

-- The rules for steps 2 and 3, among the routes that step 1 leaves.
record IsBestOf (best : List Route) (r : Route) : Type 0 where
  member : In r best
  unbeaten : Unbeaten r best
  lowest : (r' : Route) → In r' best → Unbeaten r' best → RouterLe r r'

only : {r x : Route} → In r (x ∷ []) → r ≡ x
only = either (λ q. q) (λ z. absurd z)

only-IsBestOf : (r : Route) → IsBestOf (r ∷ []) r
only-IsBestOf r = record {
  member = inl refl;
  unbeaten = λ r' i same. rw (only i) (scalar_lt_irrefl r.med);
  lowest = λ r' i low. rw (only i) (RouterLe-refl r);
}

advertised_total :
    (best : List Route)
    → ((r : Route) → In r best → NamesAs r)
    → (l : List Text) × (advertised best ≡ ok l)
unfolding advertised
advertised_total [] named = ([], refl)
advertised_total (r ∷ best) named =
    let (a, ea) = named r (inl refl) in
    let (l, el) = advertised_total best (λ x i. named x (inr i)) in (a ∷ l, rw ea (rw el))

module _ (best post : List Route) (f : IsMedFiltered best post)
    (dotted : (r : Route) → In r best → IsDotted r) where
  router-IsBestOf :
      post ≢ [] → (x : Route) × (only_or post (lowest_router post) ≡ ok x) × IsBestOf best x
  router-IsBestOf ne =
      let (x, e, i, low) = pick post ne (λ r i. dotted r (f.sound r i).0) in
      (
        x,
        e,
        record {
          member = (f.sound x i).0;
          unbeaten = (f.sound x i).1;
          lowest = λ r' j u. low r' (f.complete r' j u);
        },
      )
    where
      pick :
          (l : List Route)
          → l ≢ []
          → ((r : Route) → In r l → IsDotted r)
          → (x : Route) × (only_or l (lowest_router l) ≡ ok x)
            × In x l
            × ((r : Route) → In r l → RouterLe x r)
      pick [] h d = absurd (h refl)
      pick (r ∷ []) h d = (r, refl, inl refl, λ r' i. rw (only i) (RouterLe-refl r))
      pick (r ∷ s ∷ l) h d = lowest_router_lem (r ∷ s ∷ l) h d

-- Steps 2 and 3 return a route that obeys their rules.
steps-IsBestOf :
    (best : List Route)
    → best ≢ []
    → ((r : Route) → In r best → NamesAs r)
    → ((r : Route) → In r best → IsDotted r)
    → (x : Route) × (only_or best (post_med best >>= λ kept. only_or kept (lowest_router kept))
        ≡ ok x)
      × IsBestOf best x
steps-IsBestOf [] ne named dotted = absurd (ne refl)
steps-IsBestOf (r ∷ []) ne named dotted = (r, refl, only-IsBestOf r)
steps-IsBestOf (r ∷ s ∷ rs) ne named dotted =
    let best = r ∷ s ∷ rs in
    let (l, el) = advertised_total best named in
    let (post, ep, f) = post_med-IsMedFiltered best l el in
    let (y, i, u) = Unbeaten-exists best l el r (inl refl) in
    let (x, e, b) = router-IsBestOf best post f dotted (not_nil y (f.complete y i u)) in
    (x, rw ep e, b)
  where
    not_nil : (y : Route) {m : List Route} → In y m → m ≢ []
    not_nil y j = λ q. rw q at j

IsBest-of_steps :
    (routes best : List Route) (m : ℕ) (r : Route)
    → IsShortest routes best m
    → IsBestOf best r
    → IsBest routes r
IsBest-of_steps routes best m r s b =
    let (i, q) = s.sound r b.member in
    record {
      member = i;
      shortest_path = λ r' j. rw q (s.least r' j);
      lowest_med = λ r' j same_length. b.unbeaten r' (s.complete r' j (same_length ∙ q));
      lowest_router_id = λ r' j same_length low.
          b.lowest r' (s.complete r' j (same_length ∙ q))
            (λ r'' k. low r'' (s.sound r'' k).0 ((s.sound r'' k).1 ∙ sym q));
    }

-- Let some routes be given, each with an AS path that names an AS and a next hop in dotted form.
-- Then `best_path_selection` returns one of them: no other has a shorter AS path; none with a path
-- of that length from the same AS has a lower MED; and its router address is not above that of
-- any route with a path of that length that no such route from its own AS beats by its MED.
pub best_path_selection-IsBest :
    (routes : List Route)
    → routes ≢ []
    → ((r : Route) → In r routes → NamesAs r)
    → ((r : Route) → In r routes → IsDotted r)
    → (r : Route) × (best_path_selection routes ≡ ok r) × IsBest routes r
unfolding best_path_selection
best_path_selection-IsBest [] ne named dotted = absurd (ne refl)
best_path_selection-IsBest (r ∷ rs) ne named dotted =
    let (m, s) = shortest-IsShortest r rs in
    let best = shortest [] 0 (r ∷ rs) in
    let (x, e, b) =
      steps-IsBestOf best s.some_route (λ y i. named y (s.sound y i).0)
        (λ y i. dotted y (s.sound y i).0) in
    (x, e, IsBest-of_steps (r ∷ rs) best m x s b)

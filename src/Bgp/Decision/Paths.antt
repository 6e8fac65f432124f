-- ===== src/Bgp/Decision/Paths.antt =====
-- Step 1 of the decision process: `shortest` keeps exactly the routes whose AS path is shortest.
use ixp_irc.Prelude.{
  ℕ, ◌≤◌, List, [], ◌∷◌, ◌++◌, ltb, eqb, ◌≡◌, ◌≢◌, refl, arith, Bool-cases, inl, inr, In, In-append,
  In-append_left, In-append_right, either, append_assoc, append-nil,
}
use ixp_irc.Bgp.Rib.{Route}
use ixp_irc.Bgp.Decision.{path_length, shortest}

-- `best` holds the routes of `seen` with the least length, `m`.
pub record IsShortest (seen best : List Route) (m : ℕ) : Type 0 where
  pub some_route : best ≢ []
  pub sound : (r : Route) → In r best → In r seen × (path_length r ≡ m)
  pub least : (r : Route) → In r seen → m ≤ path_length r
  pub complete : (r : Route) → In r seen → path_length r ≡ m → In r best

module _ (seen best : List Route) (m : ℕ) (s : IsShortest seen best m) (r : Route) where
  IsShortest-equal : path_length r ≡ m → IsShortest (seen ++ r ∷ []) (best ++ r ∷ []) m
  IsShortest-equal q = record {
    some_route = snoc_ne best;
    sound = λ x i. elim (In-append x best (r ∷ []) i) [
      | inl j ↦ let (k, u) = s.sound x j in (In-append_left x seen (r ∷ []) k, u)
      | inr j ↦ (In-append_right x seen (r ∷ []) j, either (λ u. rw u q) (λ z. absurd z) j)
    ];
    least = λ x i. elim (In-append x seen (r ∷ []) i) [
      | inl j ↦ s.least x j
      | inr j ↦ either (λ u. rw u (omega (arith, q))) (λ z. absurd z) j
    ];
    complete = λ x i u. elim (In-append x seen (r ∷ []) i) [
      | inl j ↦ In-append_left x best (r ∷ []) (s.complete x j u)
      | inr j ↦ In-append_right x best (r ∷ []) j
    ];
  }
    where
      snoc_ne : (l : List Route) → (l ++ r ∷ []) ≢ []
      snoc_ne [] = λ z. cc z
      snoc_ne (x ∷ l) = λ z. cc z

  IsShortest-longer : m ≤ path_length r → path_length r ≢ m → IsShortest (seen ++ r ∷ []) best m
  IsShortest-longer le ne = record {
    some_route = s.some_route;
    sound = λ x i. let (k, u) = s.sound x i in (In-append_left x seen (r ∷ []) k, u);
    least = λ x i. elim (In-append x seen (r ∷ []) i) [
      | inl j ↦ s.least x j
      | inr j ↦ either (λ u. rw u le) (λ z. absurd z) j
    ];
    complete = λ x i u. elim (In-append x seen (r ∷ []) i) [
      | inl j ↦ s.complete x j u
      | inr j ↦ absurd (either (λ v. ne (rw v at u)) (λ z. z) j)
    ];
  }

  IsShortest-shorter :
      path_length r ≤ m → path_length r ≢ m → IsShortest (seen ++ r ∷ []) (r ∷ []) (path_length r)
  IsShortest-shorter le ne = record {
    some_route = λ z. cc z;
    sound = λ x i. (In-append_right x seen (r ∷ []) i, either (λ u. rw u refl) (λ z. absurd z) i);
    least = λ x i. elim (In-append x seen (r ∷ []) i) [
      | inl j ↦ omega (arith, s.least x j)
      | inr j ↦ either (λ u. rw u (omega arith)) (λ z. absurd z) j
    ];
    complete = λ x i u. elim (In-append x seen (r ∷ []) i) [
      | inl j ↦ absurd (omega (arith, s.least x j))
      | inr j ↦ j
    ];
  }

shortest-from :
    (seen best : List Route) (m : ℕ) (rs : List Route)
    → IsShortest seen best m
    → (m' : ℕ) × IsShortest (seen ++ rs) (shortest best m rs) m'
unfolding shortest
shortest-from seen best m [] s = (m, rw (append-nil seen) s)
shortest-from seen [] m (r ∷ rs) s = absurd (s.some_route refl)
shortest-from seen (b ∷ bs) m (r ∷ rs) s = elim (Bool-cases (eqb m (path_length r))) [
  | inl t ↦ rw t (
      shift (
        shortest-from (seen ++ r ∷ []) ((b ∷ bs) ++ r ∷ []) m rs
          (IsShortest-equal seen (b ∷ bs) m s r (ground arith))))
  | inr f ↦ elim (Bool-cases (ltb (path_length r) m)) [
    | inl t ↦
        rw (f, t)
          (shift (
            shortest-from (seen ++ r ∷ []) (r ∷ []) (path_length r) rs
              (IsShortest-shorter seen (b ∷ bs) m s r (ground arith) (ground arith))))
    | inr g ↦
        rw (f, g)
          (shift (
            shortest-from (seen ++ r ∷ []) (b ∷ bs) m rs
              (IsShortest-longer seen (b ∷ bs) m s r (ground arith) (ground arith))))
  ]
]
  where
    shift :
        {best : List Route}
        → (m' : ℕ) × IsShortest ((seen ++ r ∷ []) ++ rs) best m'
        → (m' : ℕ) × IsShortest (seen ++ r ∷ rs) best m'
    shift (m', u) = (m', rw (append_assoc seen (r ∷ []) rs) at u)

-- Step 1 keeps the routes with the shortest AS path, and no others.
pub shortest-IsShortest :
    (r : Route) (rs : List Route) → (m : ℕ) × IsShortest (r ∷ rs) (shortest [] 0 (r ∷ rs)) m
unfolding shortest
shortest-IsShortest r rs = shortest-from (r ∷ []) (r ∷ []) (path_length r) rs (record {
  some_route = λ z. cc z;
  sound = λ x i. (i, either (λ u. rw u) (λ z. absurd z) i);
  least = λ x i. either (λ u. rw u (omega arith)) (λ z. absurd z) i;
  complete = λ x i u. i;
})

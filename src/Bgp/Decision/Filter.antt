-- ===== src/Bgp/Decision/Filter.antt =====
-- Step 2 as a whole: `post_med` keeps the routes that no route from the same AS beats by its MED.
use ixp_irc.Prelude.{
  true, false, List, [], ◌∷◌, length, ◌≡◌, ◌≢◌, refl, sym, ap, ◌∙◌, arith, inl, inr, In, In-filter,
  In-filter_intro, list_beq_iff, beq_refl, nat_eq, list_eq, Result, ok, raise,
}
use ixp_irc.Bgp.Text.{Text, get_advertised_as}
use ixp_irc.Bgp.Rib.{Route}
use ixp_irc.Bgp.Decision.{scalar_lt, advertised, sort, is_advertised_by, post_med}
use ixp_irc.Bgp.Decision.Order.{HasLowestMed, HasLowestMed-exists}
use ixp_irc.Bgp.Decision.Sorting.{sort-Sorted, count-sort, length-sort, count-pos, In-of_count}
use ixp_irc.Bgp.Decision.Med.{
  from_as, advertised-cons, is_advertised_by_lem, length-from_as, IsKept, med_loop-IsKept,
}

-- The two routes come from the same AS.
abbrev pub SameAs : Route → Route → Type 0
SameAs r r' = get_advertised_as r.as_path ≡ get_advertised_as r'.as_path

-- No route of the list from the same AS has a lower MED.
abbrev pub Unbeaten : Route → List Route → Type 0
Unbeaten r l = (r' : Route) → In r' l → SameAs r r' → scalar_lt r'.med r.med ≡ false

pub record IsMedFiltered (best post : List Route) : Type 0 where
  pub sound : (r : Route) → In r post → In r best × Unbeaten r best
  pub complete : (r : Route) → In r best → Unbeaten r best → In r post

In-advertised :
    (r : Route) (best : List Route) (l : List Text)
    → advertised best ≡ ok l
    → In r best
    → (a : Text) × (get_advertised_as r.as_path ≡ ok a) × In a l
In-advertised r [] l h i = absurd i
In-advertised r (x ∷ best) l h i =
    let (a, l', ea, el, q) = advertised-cons x best l h in
    elim i [
      | inl u ↦ (a, rw u ea, rw q (inl refl))
      | inr j ↦ let (b, eb, k) = In-advertised r best l' el j in (b, eb, rw q (inr k))
    ]

advertised_by :
    (a : Text) (r : Route) → is_advertised_by a r ≡ true → get_advertised_as r.as_path ≡ ok a
unfolding is_advertised_by
advertised_by a r h = go (get_advertised_as r.as_path) refl
  where
    go : (x : Result Text) → get_advertised_as r.as_path ≡ x → x ≡ ok a
    go (ok b) q = ap ok ((list_beq_iff b a).0 (sym (is_advertised_by_lem a b r q) ∙ h))
    go (raise z) q = cc (rw (q, is_advertised_by) at h)

In-from_as :
    (a : Text) (r : Route) (best : List Route)
    → In r best
    → get_advertised_as r.as_path ≡ ok a
    → In r (from_as a best)
In-from_as a r best i h =
    In-filter_intro (is_advertised_by a) r best i (is_advertised_by_lem a a r h ∙ beq_refl a)

module _ (best : List Route) (l : List Text) (h : advertised best ≡ ok l) where
  Unbeaten-of_lowest :
      (a : Text) (r : Route)
      → In r (from_as a best)
      → HasLowestMed r (from_as a best)
      → In r best × Unbeaten r best
  Unbeaten-of_lowest a r i low =
      let (j, t) = In-filter (is_advertised_by a) r best i in
      (j, λ r' k same. low r' (In-from_as a r' best k (sym same ∙ advertised_by a r t)))

  lowest_of_Unbeaten :
      (a : Text) (r : Route)
      → get_advertised_as r.as_path ≡ ok a
      → Unbeaten r best
      → HasLowestMed r (from_as a best)
  lowest_of_Unbeaten a r e low r' i =
      let (j, t) = In-filter (is_advertised_by a) r' best i in
      low r' j (e ∙ sym (advertised_by a r' t))

  In-sort : (a : Text) → In a l → In a (sort l)
  In-sort a i = In-of_count a (sort l) (omega (arith, count-sort a l, count-pos a l i))

  pub Unbeaten-exists : (r : Route) → In r best → (x : Route) × In x best × Unbeaten x best
  Unbeaten-exists r i =
      let (a, ea, ia) = In-advertised r best l h i in
      let (x, j, low) = HasLowestMed-exists (from_as a best) (not_nil (In-from_as a r best i ea)) in
      let (k, u) = Unbeaten-of_lowest a x j low in (x, k, u)
    where
      not_nil : {m : List Route} → In r m → m ≢ []
      not_nil j = λ q. rw q at j

  -- If every AS path names its first AS, step 2 returns, and keeps exactly the unbeaten routes.
  pub post_med-IsMedFiltered :
      (post : List Route) × (post_med best ≡ ok post) × IsMedFiltered best post
  unfolding post_med
  post_med-IsMedFiltered =
      let (post, e, k) =
        med_loop-IsKept best (sort l) [] (sort l) (length l) [] refl (sort-Sorted l) (λ a i j. i)
          (λ a. length-from_as a best l h ∙ sym (count-sort a l)) (omega (arith, length-sort l))
          nothing_yet in
      (
        post,
        rw h e,
        record {
          sound = λ r i. let (a, j, low) = k.sound r i in Unbeaten-of_lowest a r j low;
          complete = λ r i low.
              let (a, ea, ia) = In-advertised r best l h i in
              k.complete a r (In-sort a ia) (In-from_as a r best i ea)
                (lowest_of_Unbeaten a r ea low);
        },
      )
    where
      nothing_yet : IsKept best [] []
      nothing_yet = record { sound = λ r i. absurd i; complete = λ a r i. absurd i }

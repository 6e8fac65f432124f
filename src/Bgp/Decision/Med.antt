-- ===== src/Bgp/Decision/Med.antt =====
-- Step 2 of the decision process: of the routes that one AS advertised, those with the lowest MED
-- are kept, and of every AS some are.
use ixp_irc.Prelude.{
  ℕ, zero, suc, ◌+◌, ◌≤◌, ◌<◌, true, false, List, [], ◌∷◌, ◌++◌, length, get_elem?, none, some,
  filter, ◌≡◌, ◌≢◌, refl, sym, ap, ◌∙◌, arith, Bool-cases, inl, inr, In, nat_eq, list_eq, ◌==◌,
  In-append, In-append_left, In-append_right, length-append, append_assoc, append-nil, Result, ok,
  raise, ltb, ◌>>=◌, ok-injective, subst,
}
use ixp_irc.Bgp.Text.{Text, get_advertised_as}
use ixp_irc.Bgp.Rib.{Route}
use ixp_irc.Bgp.Decision.{advertised, count, is_advertised_by, with_lowest_med, med_loop}
use ixp_irc.Bgp.Decision.Order.{
  HasLowestMed, KeepsLowest, with_lowest_med-KeepsLowest, scalar_lt_irrefl, text_lt_irrefl,
}
use ixp_irc.Bgp.Decision.Sorting.{Sorted, count-zero, count-pos, Block, Sorted-Block}

abbrev pub from_as : Text → List Route → List Route
from_as a best = filter (is_advertised_by a) best

both_ok :
    (x : Result Text) (y : Result (List Text)) (l : List Text)
    → (x >>= λ a. y >>= λ l'. ok (a ∷ l')) ≡ ok l
    → (a : Text) × (l' : List Text) × (x ≡ ok a) × (y ≡ ok l') × (l ≡ a ∷ l')
both_ok (ok a) (ok l') l h = (a, l', refl, refl, sym (ok-injective h))
both_ok (ok a) (raise z) l h = cc
both_ok (raise z) y l h = cc

pub advertised-cons :
    (r : Route) (best : List Route) (l : List Text)
    → advertised (r ∷ best) ≡ ok l
    → (a : Text) × (l' : List Text) × (get_advertised_as r.as_path ≡ ok a)
      × (advertised best ≡ ok l')
      × (l ≡ a ∷ l')
unfolding advertised
advertised-cons r best l h = both_ok (get_advertised_as r.as_path) (advertised best) l h

pub is_advertised_by_lem :
    (a b : Text) (r : Route) → get_advertised_as r.as_path ≡ ok b → is_advertised_by a r ≡ (b == a)
unfolding is_advertised_by
is_advertised_by_lem a b r h = rw (h, is_advertised_by)

pub length-from_as :
    (a : Text) (best : List Route) (l : List Text)
    → advertised best ≡ ok l
    → length (from_as a best) ≡ count a l
unfolding advertised filter count
length-from_as a [] l h = rw (← ok-injective h)
length-from_as a (r ∷ best) l h =
    let (b, l', eb, el, q) = advertised-cons r best l h in
    rw (q, is_advertised_by_lem a b r eb) (ground (arith, length-from_as a best l' el))

-- A list with at most one route keeps it.
single-KeepsLowest : (l : List Route) → ltb 1 (length l) ≡ false → KeepsLowest l l
single-KeepsLowest l h = record {
  sound = λ r i. (i, λ r' i'. rw (one l h r r' i i') (scalar_lt_irrefl r'.med));
  complete = λ r i low. i;
}
  where
    one : (l : List Route) → ltb 1 (length l) ≡ false → (r r' : Route) → In r l → In r' l → r ≡ r'
    one [] h r r' i i' = absurd i
    one (x ∷ []) h r r' i i' = ground arith
    one (x ∷ y ∷ l) h r r' i i' = absurd (ground arith)

get_elem?_end : (l : List Text) → get_elem? (l ++ []) (length l) ≡ none
get_elem?_end [] = refl
get_elem?_end (a ∷ l) = get_elem?_end l

get_elem?_middle : (a : Text) (l m : List Text) → get_elem? (l ++ a ∷ m) (length l) ≡ some a
get_elem?_middle a [] m = refl
get_elem?_middle a (b ∷ l) m = get_elem?_middle a l m

count-append : (a : Text) (l m : List Text) → count a (l ++ m) ≡ count a l + count a m
unfolding count
count-append a [] m = omega arith
count-append a (b ∷ l) m = omega (arith, count-append a l m)

module _ (best : List Route) where
  -- what the loop has kept, when the texts of `done` have been visited
  pub record IsKept (done : List Text) (post : List Route) : Type 0 where
    pub sound :
        (r : Route)
        → In r post
        → (a : Text) × In r (from_as a best) × HasLowestMed r (from_as a best)
    pub complete :
        (a : Text) (r : Route)
        → In a done
        → In r (from_as a best)
        → HasLowestMed r (from_as a best)
        → In r post

  IsKept-more :
      (done block : List Text) (a : Text) (post kept : List Route)
      → ((b : Text) → In b block → b ≡ a)
      → IsKept done post
      → KeepsLowest (from_as a best) kept
      → IsKept (done ++ block) (post ++ kept)
  IsKept-more done block a post kept same s k = record {
    sound = λ r i. elim (In-append r post kept i) [
      | inl j ↦ s.sound r j
      | inr j ↦ let (l, low) = k.sound r j in (a, l, low)
    ];
    complete = λ b r i j low. elim (In-append b done block i) [
      | inl l ↦ In-append_left r post kept (s.complete b r l j low)
      | inr l ↦
          In-append_right r post kept (k.complete r (rw (same b l) at j) (rw (same b l) at low))
    ];
  }

  med_loop_stop :
      (fuel i : ℕ) (as_list : List Text) (post : List Route)
      → get_elem? as_list i ≡ none
      → med_loop (suc fuel) i as_list best post ≡ ok post
  unfolding med_loop
  med_loop_stop fuel i as_list post h = rw (h, med_loop)

  med_loop_single :
      (fuel i : ℕ) (as_list : List Text) (post : List Route) (a : Text)
      → get_elem? as_list i ≡ some a
      → ltb 1 (count a as_list) ≡ false
      → med_loop (suc fuel) i as_list best post
        ≡ med_loop fuel (i + 1) as_list best (post ++ from_as a best)
  unfolding med_loop
  med_loop_single fuel i as_list post a h f = rw (h, med_loop) (rw f)

  med_loop_several :
      (fuel i : ℕ) (as_list : List Text) (post kept : List Route) (a : Text)
      → get_elem? as_list i ≡ some a
      → ltb 1 (count a as_list) ≡ true
      → with_lowest_med (from_as a best) ≡ ok kept
      → med_loop (suc fuel) i as_list best post
        ≡ med_loop fuel (i + count a as_list) as_list best (post ++ kept)
  unfolding med_loop
  med_loop_several fuel i as_list post kept a h t e = rw (h, med_loop) (rw t (rw e))

  -- One round: some routes of the AS are kept, and the index passes all its places in the list.
  med_loop_round :
      (fuel i : ℕ) (as_list : List Text) (post : List Route) (a : Text)
      → get_elem? as_list i ≡ some a
      → length (from_as a best) ≡ count a as_list
      → 0 < count a as_list
      → (kept : List Route) × KeepsLowest (from_as a best) kept
        × (med_loop (suc fuel) i as_list best post
            ≡ med_loop fuel (i + count a as_list) as_list best (post ++ kept))
  med_loop_round fuel i as_list post a h size pos = elim (Bool-cases (ltb 1 (count a as_list))) [
    | inl t ↦
        let (kept, e, k) =
          with_lowest_med-KeepsLowest (from_as a best) (not_nil (from_as a best) size) in
        (kept, k, med_loop_several fuel i as_list post kept a h t e)
    | inr f ↦
        let one : count a as_list ≡ 1 = ground arith in
        (
          from_as a best,
          single-KeepsLowest (from_as a best) (rw size f),
          med_loop_single fuel i as_list post a h f ∙ rw one,
        )
  ]
    where
      not_nil : (l : List Route) → length l ≡ count a as_list → l ≢ []
      not_nil [] q = absurd (omega arith)
      not_nil (x ∷ l) q = λ z. cc z

  -- The rounds of the loop, where `rest` is what stands from the index on.
  pub med_loop-IsKept :
      (as_list done rest : List Text) (fuel : ℕ) (post : List Route)
      → as_list ≡ done ++ rest
      → Sorted rest
      → ((a : Text) → In a done → In a rest → ⊥)
      → ((a : Text) → length (from_as a best) ≡ count a as_list)
      → length rest ≤ fuel
      → IsKept done post
      → (post' : List Route) × (med_loop fuel (length done) as_list best post ≡ ok post')
        × IsKept as_list post'
  unfolding med_loop
  med_loop-IsKept as_list done [] zero post split s apart sizes few k =
      (post, refl, rw (split, append-nil done) k)
  med_loop-IsKept as_list done (a ∷ rest) zero post split s apart sizes few k = absurd (omega arith)
  med_loop-IsKept as_list done [] (suc fuel) post split s apart sizes few k = (
    post,
    med_loop_stop fuel (length done) as_list post (rw split (get_elem?_end done)),
    rw (split, append-nil done) k,
  )
  med_loop-IsKept as_list done (a ∷ rest) (suc fuel) post split s apart sizes few k =
      let b = Sorted-Block a (a ∷ rest) (text_lt_irrefl a, s.0) s in
      let whole : as_list ≡ (done ++ b.block) ++ b.rest =
        split ∙ ap (◌++◌ done) b.split ∙ sym (append_assoc done b.block b.rest) in
      let size : count a as_list ≡ length b.block = rw split (
        count-append a done (a ∷ rest)
        ∙ omega (arith, b.size, count-zero a done (λ i. apart a i (inl refl)))) in
      let many : 1 ≤ count a (a ∷ rest) = count-pos a (a ∷ rest) (inl refl) in
      let pos : 0 < count a as_list = omega (arith, b.size) in
      let (kept, lowest, round) =
        med_loop_round fuel (length done) as_list post a (rw split (get_elem?_middle a done rest))
          (sizes a) pos in
      let total : length (a ∷ rest) ≡ length b.block + length b.rest =
        ap length b.split ∙ length-append b.block b.rest in
      let (post', e, kept') =
        med_loop-IsKept as_list (done ++ b.block) b.rest fuel (post ++ kept) whole b.sorted
          (apart' b) sizes (omega arith) (IsKept-more done b.block a post kept b.equal k lowest) in
      (
        post',
        round ∙ rw (← (length-append done b.block ∙ ap (◌+◌ (length done)) (sym size))) e,
        kept',
      )
    where
      apart' : (b : Block a (a ∷ rest)) (c : Text) → In c (done ++ b.block) → In c b.rest → ⊥
      apart' b c i j = elim (In-append c done b.block i) [
        | inl l ↦ apart c l (subst (In c) (sym b.split) (In-append_right c b.block b.rest j))
        | inr l ↦ b.absent (rw (b.equal c l) at j)
      ]

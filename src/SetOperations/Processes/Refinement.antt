-- ===== src/SetOperations/Processes/Refinement.antt =====
-- The processes of lib/set_operations.py find the sets that the calls in one process find.
use ixp_irc.Prelude.{
  ℕ, zero, suc, ◌+◌, Bool, true, false, nat_eq, list_eq, [], ◌∷◌, Eq, if◌then◌else◌, keys, length,
  Result, ok, raise, recursion_error, ◌>>=◌, ◌≡◌, refl, sym, subst, ap, ◌∙◌, inl, inr, ◌⊎◌,
}
use ixp_irc.Bgp.Text.{Text}
use ixp_irc.SetOperations.{Part2Prefix}
use ixp_irc.SetOperations.Parallel.{
  evens, odds, divide_part2prefixes, merge, write_back, decmopose_from, decmopose_parallel,
}
use ixp_irc.SetOperations.Processes.{
  Run, done, raised, blocked, of_result, chain, await, run_in, endless, decompose_multi_from,
  decompose_multi,
}

-- A call that ends as the one in a single process does, but for the dictionary as it leaves it: what
-- that returns, this returns, and where that raises, this raises or, if it starts processes, waits for
-- ever.
abbrev pub Agrees : {A : Type 0} → Bool → Result (A × A) → Run (A × A) → Type 0
Agrees {A} b (ok s) run = (left : A) × (run ≡ done (left, s.1))
Agrees true (raise x) run = (run ≡ raised x) ⊎ (run ≡ blocked)
Agrees false (raise x) run = run ≡ raised x

Agrees-endless : (A : Type 0) (b : Bool) → Agrees {A = A} b (raise recursion_error) (endless b)
Agrees-endless A true = inr refl
Agrees-endless A false = refl

module _ {A : Type 0} where
  Agrees-of_result : (b : Bool) (r : Result (A × A)) → Agrees b r (of_result r)
  Agrees-of_result b (ok s) = (s.0, refl)
  Agrees-of_result true (raise x) = inl refl
  Agrees-of_result false (raise x) = refl

  Agrees-weaken :
      (b : Bool) (r : Result (A × A)) (run : Run (A × A)) → Agrees false r run → Agrees b r run
  Agrees-weaken b (ok s) run h = h
  Agrees-weaken true (raise x) run h = inl h
  Agrees-weaken false (raise x) run h = h

  Agrees-await :
      (b : Bool) (r : Result (A × A)) (run : Run (A × A))
      → Agrees b r run
      → Agrees true r (await run)
  Agrees-await b (ok s) run (left, h) = (left, ap await h)
  Agrees-await true (raise x) run (inl h) = inr (ap await h)
  Agrees-await true (raise x) run (inr h) = inr (ap await h)
  Agrees-await false (raise x) run h = inr (ap await h)

  -- The call of a half: where no process is started here, it starts none either.
  Agrees-run_in :
      (b b' : Bool) (r : Result (A × A)) (run : Run (A × A))
      → (b ≡ false → b' ≡ false)
      → Agrees b' r run
      → Agrees b r (run_in b run)
  Agrees-run_in true b' r run f h = Agrees-await b' r run h
  Agrees-run_in false b' r run f h = subst (λ z. Agrees z r run) (f refl) h

  Agrees-chain :
      (b : Bool) (r : Result (A × A)) (run : Run (A × A)) (f : A × A → Result (A × A))
      (g : A × A → Run (A × A))
      → Agrees b r run
      → ((s t : A × A) → s.1 ≡ t.1 → Agrees b (f s) (g t))
      → Agrees b (r >>= f) (chain run g)
  Agrees-chain b (ok s) run f g (left, h) k =
      subst (λ z. Agrees b (f s) (chain z g)) (sym h) (k s (left, s.1) refl)
  Agrees-chain true (raise x) run f g (inl h) k = inl (ap (λ z. chain z g) h)
  Agrees-chain true (raise x) run f g (inr h) k = inr (ap (λ z. chain z g) h)
  Agrees-chain false (raise x) run f g h k = ap (λ z. chain z g) h

  -- A step that both make.
  Agrees-same :
      {B : Type 0} (b : Bool) (x : Result B) (f : B → Result (A × A)) (g : B → Run (A × A))
      → ((y : B) → Agrees b (f y) (g y))
      → Agrees b (x >>= f) (chain (of_result x) g)
  Agrees-same b (ok y) f g k = k y
  Agrees-same true (raise x) f g k = inl refl
  Agrees-same false (raise x) f g k = refl

-- The two halves and the joined call, in one process and with processes.
module _ {P : Type 0} (b b' : Bool) (child : b ≡ false → b' ≡ false)
    (one : Part2Prefix Text P → Result (Part2Prefix Text P × Part2Prefix Text P))
    (half whole : Part2Prefix Text P → Run (Part2Prefix Text P × Part2Prefix Text P))
    (same_half : (d : Part2Prefix Text P) → Agrees b' (one d) (half d))
    (same_whole : (d : Part2Prefix Text P) → Agrees false (one d) (whole d))
    (left left' : Part2Prefix Text P → Part2Prefix Text P → Part2Prefix Text P) where
  halves_agree :
      (x y : Result (Part2Prefix Text P))
      → Agrees b
          (x >>= λ tmp1. y >>= λ tmp2. one tmp1 >>= λ r1.
            one tmp2 >>= λ r2. one (merge r1.1 r2.1) >>= λ r. ok (left r1.0 r2.0, r.1))
          (chain (of_result x) λ tmp1. chain (of_result y) λ tmp2.
            chain (run_in b (half tmp1)) λ r1.
              chain
                (run_in b (half tmp2))
                λ r2. chain (whole (merge r1.1 r2.1)) λ r. done (left' r1.0 r2.0, r.1))
  halves_agree x y = Agrees-same b x _ _ (λ tmp1. Agrees-same b y _ _ (λ tmp2.
      Agrees-chain b (one tmp1) _ _ _
        (Agrees-run_in b b' (one tmp1) (half tmp1) child (same_half tmp1))
        (λ s1 t1 q1.
          Agrees-chain b (one tmp2) _ _ _
            (Agrees-run_in b b' (one tmp2) (half tmp2) child (same_half tmp2))
            (λ s2 t2 q2.
              let q : merge s1.1 s2.1 ≡ merge t1.1 t2.1 =
                ap (λ a. merge a s2.1) q1 ∙ ap (merge t1.1) q2 in
              Agrees-chain b (one (merge s1.1 s2.1)) (whole (merge t1.1 t2.1)) _ _
                (Agrees-weaken b (one (merge s1.1 s2.1)) (whole (merge t1.1 t2.1)) (
                  subst (λ d. Agrees false (one d) (whole (merge t1.1 t2.1))) (sym q)
                    (same_whole (merge t1.1 t2.1))))
                (λ s t e. (left' t1.0 t2.0, ap (λ z. done (left' t1.0 t2.0, z)) (sym e)))))))

next_starts :
    (starts : ℕ → Bool) (b : Bool) (index : ℕ)
    → starts 0 ≡ false
    → b ≡ false
    → starts (if b then index + 1 else 0) ≡ false
next_starts starts b index none_at_0 h = rw h none_at_0

module _ {P : Type 0} ⦃e : Eq P⦄ (starts : ℕ → Bool) (none_at_0 : starts 0 ≡ false) where
  multi_from-Agrees :
      (fuel index : ℕ) (d : Part2Prefix Text P)
      → Agrees (starts index) (decmopose_from fuel d) (decompose_multi_from starts fuel index d)
  unfolding decompose_multi_from decmopose_from
  multi_from-Agrees zero index d = Agrees-endless (Part2Prefix Text P) (starts index)
  multi_from-Agrees (suc fuel) index (p ∷ []) = Agrees-of_result (starts index) _
  multi_from-Agrees (suc fuel) index (p ∷ q ∷ []) = Agrees-of_result (starts index) _
  multi_from-Agrees (suc fuel) index [] =
      let b = starts index in
      let next = if b then index + 1 else 0 in
      halves_agree b (starts next) (next_starts starts b index none_at_0) (decmopose_from fuel)
        (decompose_multi_from starts fuel next) (decompose_multi_from starts fuel 0)
        (multi_from-Agrees fuel next)
        (λ d.
          subst (λ z. Agrees z (decmopose_from fuel d) (decompose_multi_from starts fuel 0 d))
            none_at_0 (multi_from-Agrees fuel 0 d))
        (λ d1 d2. write_back d2 (write_back d1 []))
        (λ d1 d2. if b then [] else write_back d2 (write_back d1 []))
        (divide_part2prefixes (evens {A = Text} []) [])
        (divide_part2prefixes (odds {A = Text} []) [])
  multi_from-Agrees (suc fuel) index (p ∷ q ∷ t ∷ d) =
      let all : Part2Prefix Text P = p ∷ q ∷ t ∷ d in
      let b = starts index in
      let next = if b then index + 1 else 0 in
      halves_agree b (starts next) (next_starts starts b index none_at_0) (decmopose_from fuel)
        (decompose_multi_from starts fuel next) (decompose_multi_from starts fuel 0)
        (multi_from-Agrees fuel next)
        (λ x.
          subst (λ z. Agrees z (decmopose_from fuel x) (decompose_multi_from starts fuel 0 x))
            none_at_0 (multi_from-Agrees fuel 0 x))
        (λ d1 d2. write_back d2 (write_back d1 all))
        (λ d1 d2. if b then all else write_back d2 (write_back d1 all))
        (divide_part2prefixes (evens (keys all)) all) (divide_part2prefixes (odds (keys all)) all)

  -- `decompose_multi`, at whichever indices but 0 it starts processes, returns the sets that
  -- `decmopose_parallel` returns, if that returns; if that raises, it raises the same exception or,
  -- only where it starts processes, waits for ever.
  pub decompose_multi-decmopose_parallel :
      (index : ℕ) (d : Part2Prefix Text P)
      → Agrees (starts index) (decmopose_parallel d) (decompose_multi starts index d)
  unfolding decompose_multi decmopose_parallel
  decompose_multi-decmopose_parallel index d = multi_from-Agrees (length d) index d

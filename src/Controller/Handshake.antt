-- ===== src/Controller/Handshake.antt =====
-- The waiting of the route server for the policies (main.py, lib/bgp_interface.py).
use ixp_irc.Prelude.{
  ℕ, zero, suc, ◌+◌, ◌*◌, ◌<◌, true, false, List, [], ◌∷◌, ◌++◌, none, some, nat_eq, list_eq,
  list_beq_iff, ◌==◌, length, length-append, if◌then◌else◌, ◌≡◌, refl, arith, Bool-cases,
  Option-cases, cons-cases, inl, inr,
}
use ixp_irc.Bgp.Text.{Text, codes, is_part}
use ixp_irc.Controller.{
  Queues, initialize, bgp_trigger_update, handle_event, take_ready, Step, initializes, triggers,
  handles, takes, Reachable, at_start, after,
}

some_same : {x y : Queues} → some x ≡ some y → x ≡ y
some_same e = cc

not_none : {x : Queues} → some x ≡ none → ⊥
not_none e = cc

abbrev bgp : Text
bgp = codes "bgp"

-- How often "bgp" stands in a queue.
unfoldable pub calls : List Text → ℕ
calls [] = 0
calls (e ∷ es) = (if e == bgp then 1 else 0) + calls es

calls-append : (xs ys : List Text) → calls (xs ++ ys) ≡ calls xs + calls ys
unfolding calls
calls-append [] ys = omega arith
calls-append (x ∷ xs) ys = omega (arith, calls-append xs ys)

-- While the route server waits there is exactly one "bgp" in the two queues, and else none.
abbrev pub IsBalanced : Queues → Type 0
IsBalanced q = calls q.event_queue + calls q.ready_queue ≡ (if q.waits then 1 else 0)

bgp-is_part : (e : Text) → (e == bgp) ≡ true → is_part bgp e ≡ true
unfolding is_part
bgp-is_part e h = let same : e ≡ bgp = (list_beq_iff e bgp).0 h in rw same refl

initializes-IsBalanced : (q q' : Queues) → initialize q ≡ some q' → IsBalanced q → IsBalanced q'
unfolding initialize calls
initializes-IsBalanced q q' h b = elim (Bool-cases q.initialized) [
  | inl t ↦ let z : none ≡ some q' = (rw t at h) in cc
  | inr f ↦
      let e = some_same (rw f at h) in
      rw (← e) (omega (arith, calls-append q.event_queue (codes "init" ∷ []), b))
]

triggers-IsBalanced :
    (q q' : Queues) → bgp_trigger_update q ≡ some q' → IsBalanced q → IsBalanced q'
unfolding bgp_trigger_update calls
triggers-IsBalanced q q' h b = elim (Bool-cases q.waits) [
  | inl t ↦ let z : none ≡ some q' = (rw t at h) in cc
  | inr f ↦
      let e = some_same (rw f at h) in
      let c : calls q.event_queue + calls q.ready_queue ≡ 0 = (rw f at b) in
      rw (← e) (omega (arith, calls-append q.event_queue (bgp ∷ []), c))
]

handles-IsBalanced : (q q' : Queues) → handle_event q ≡ some q' → IsBalanced q → IsBalanced q'
unfolding handle_event calls
handles-IsBalanced q q' h b = elim (cons-cases q.event_queue) [
  | inl n ↦ let z : none ≡ some q' = (rw n at h) in cc
  | inr (x, xs, n) ↦ elim (Bool-cases (is_part bgp x)) [
    | inl t ↦
        let e = some_same (rw (t, is_part) at (rw n at h)) in
        let c : calls (x ∷ xs) + calls q.ready_queue ≡ (if q.waits then 1 else 0) = (rw n at b) in
        rw (← e) (omega (arith, calls-append q.ready_queue (x ∷ []), c))
    | inr f ↦
        let e = some_same (rw (f, is_part) at (rw n at h)) in
        let c : calls (x ∷ xs) + calls q.ready_queue ≡ (if q.waits then 1 else 0) = (rw n at b) in
        let no_call : (x == bgp) ≡ false = ground (arith, bgp-is_part x) in
        let same : calls (x ∷ xs) ≡ calls xs = (rw no_call (omega arith)) in
        rw (← e) (omega (arith, c, same))
  ]
]

takes-IsBalanced : (q q' : Queues) → take_ready q ≡ some q' → IsBalanced q → IsBalanced q'
unfolding take_ready calls
takes-IsBalanced q q' h b = elim (cons-cases q.ready_queue) [
  | inl n ↦ let z : none ≡ some q' = (rw n at h) in cc
  | inr (x, xs, n) ↦ elim (Bool-cases q.waits) [
    | inr f ↦ let z : none ≡ some q' = (rw f at (rw n at h)) in cc
    | inl t ↦
        let e = some_same (rw t at (rw n at h)) in
        let c : calls q.event_queue + calls (x ∷ xs) ≡ 1 = (rw t at (rw n at b)) in
        rw (← e) (ground (arith, c))
  ]
]

Step-IsBalanced : (q q' : Queues) → Step q q' → IsBalanced q → IsBalanced q'
Step-IsBalanced q q' (initializes h) = initializes-IsBalanced q q' h
Step-IsBalanced q q' (triggers h) = triggers-IsBalanced q q' h
Step-IsBalanced q q' (handles h) = handles-IsBalanced q q' h
Step-IsBalanced q q' (takes h) = takes-IsBalanced q q' h

-- In every state that the threads reach, in whatever order they take their turns, exactly one "bgp"
-- is on its way through the two queues while the route server waits, and none while it does not.
pub Reachable-IsBalanced : {q : Queues} → Reachable q → IsBalanced q
unfolding calls
Reachable-IsBalanced at_start = refl
Reachable-IsBalanced (after {q = q} {q' = q'} r s) = Step-IsBalanced q q' s (Reachable-IsBalanced r)

-- The route server does not wait, or some thread can take a turn and after any turn that one takes the
-- same holds again, so that the waiting ends.
pub data Resumes : Queues → Type 0 where
  resumed : {q : Queues} → q.waits ≡ false → Resumes q
  onward :
      {q : Queues}
      → (q' : Queues) × Step q q'
      → ((q' : Queues) → Step q q' → Resumes q')
      → Resumes q

-- An event has two ways to go, an item of the other queue one, and the first event one more.
abbrev ways : Queues → ℕ
ways q = 2 * length q.event_queue + length q.ready_queue + (if q.initialized then 0 else 3)

turn_left : (q : Queues) → q.waits ≡ true → IsBalanced q → (q' : Queues) × Step q q'
unfolding calls handle_event take_ready
turn_left q t b = elim (cons-cases q.event_queue) [
  | inr (x, xs, n) ↦ elim (Option-cases (handle_event q)) [
    | inr (q', e) ↦ (q', handles e)
    | inl e ↦ absurd (not_none (rw n at e))
  ]
  | inl n ↦ elim (cons-cases q.ready_queue) [
    | inr (y, ys, m) ↦ elim (Option-cases (take_ready q)) [
      | inr (q', e) ↦ (q', takes e)
      | inl e ↦ absurd (not_none (rw t at (rw m at e)))
    ]
    | inl m ↦ let c : 0 ≡ 1 = (rw t at (rw m at (rw n at b))) in absurd (omega (arith, c))
  ]
]

fewer_ways : (q q' : Queues) → q.waits ≡ true → Step q q' → ways q' < ways q
unfolding initialize handle_event take_ready bgp_trigger_update
fewer_ways q q' t (initializes h) = elim (Bool-cases q.initialized) [
  | inl u ↦ let z : none ≡ some q' = (rw u at h) in cc
  | inr f ↦
      let e = some_same (rw f at h) in
      rw (← e) (rw f (omega (arith, length-append q.event_queue (codes "init" ∷ []))))
]
fewer_ways q q' t (triggers h) = let z : none ≡ some q' = (rw t at h) in cc
fewer_ways q q' t (handles h) = elim (cons-cases q.event_queue) [
  | inl n ↦ let z : none ≡ some q' = (rw n at h) in cc
  | inr (x, xs, n) ↦ elim (Bool-cases (is_part bgp x)) [
    | inl u ↦
        let e = some_same (rw (u, is_part) at (rw n at h)) in
        rw (← e) (rw n (omega (arith, length-append q.ready_queue (x ∷ []))))
    | inr u ↦ let e = some_same (rw (u, is_part) at (rw n at h)) in rw (← e) (rw n (omega arith))
  ]
]
fewer_ways q q' t (takes h) = elim (cons-cases q.ready_queue) [
  | inl n ↦ let z : none ≡ some q' = (rw n at h) in cc
  | inr (x, xs, n) ↦ let e = some_same (rw t at (rw n at h)) in rw (← e) (rw n (omega arith))
]

Resumes-fuel : (fuel : ℕ) (q : Queues) → Reachable q → ways q < fuel → Resumes q
Resumes-fuel zero q r lt = absurd (omega arith)
Resumes-fuel (suc fuel) q r lt = elim (Bool-cases q.waits) [
  | inr f ↦ resumed f
  | inl t ↦
      onward (turn_left q t (Reachable-IsBalanced r))
        (λ q' s. Resumes-fuel fuel q' (after r s) (omega (arith, fewer_ways q q' t s)))
]

-- From every state that the threads reach, if `update_policy` returns each time, the route server
-- comes to a state in which it does not wait for the policies, in whatever order the threads take
-- their turns: they are never both stuck before.
pub Reachable-Resumes : {q : Queues} → Reachable q → Resumes q
Reachable-Resumes {q} r = Resumes-fuel (suc (ways q)) q r (omega arith)

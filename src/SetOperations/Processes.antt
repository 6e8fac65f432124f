-- ===== src/SetOperations/Processes.antt =====
-- The decomposition with processes of lib/set_operations.py: `decompose_multi` and
-- `lcs_multiprocess`, with `decompose_simpler_multi`, which without its prints is
-- `decompose_simpler`. A process that is started changes its own copy of the dictionary. Whether a
-- call at an index starts processes depends on the number of processors, and is the parameter
-- `starts`: the call at index 0 starts none. `lcs_multiprocess` starts as many processes as there are processors before it waits for
-- their results; the results do not depend on each other, and are read in the order of the
-- participants.
pub mod Refinement
use ixp_irc.Prelude.{
  ℕ, zero, suc, ◌+◌, Bool, true, false, nat_eq, list_eq, List, [], ◌∷◌, ◌++◌, Eq, if◌then◌else◌,
  Dict, keys, values, get, length, Result, ok, raise, recursion_error, Exception,
}
use ixp_irc.Bgp.Text.{Text}
use ixp_irc.SetOperations.{Group, as_set, Part2Prefix, decompose_simpler}
use ixp_irc.SetOperations.Parallel.{
  evens, odds, divide_part2prefixes, merge, write_back, leaf, first,
}

-- How a call ends: the parent of a process that dies of an exception waits for its result for ever.
pub data Run {ℓ} (A : Type ℓ) : Type ℓ where
  done : A → Run A
  raised : Exception → Run A
  blocked : Run A

abbrev pub of_result {ℓ} : {A : Type ℓ} → Result A → Run A
of_result (ok a) = done a
of_result (raise x) = raised x

abbrev pub chain {ℓ κ} : {A : Type ℓ} {B : Type κ} → Run A → (A → Run B) → Run B
chain (done a) f = f a
chain (raised x) f = raised x
chain blocked f = blocked

-- `queue.get()`, for a process that has been started
abbrev pub await {ℓ} : {A : Type ℓ} → Run A → Run A
await (done a) = done a
await (raised x) = blocked
await blocked = blocked

-- The call in a process that is started, or in this one.
abbrev pub run_in {ℓ} : {A : Type ℓ} → Bool → Run A → Run A
run_in true r = await r
run_in false r = r

-- A recursion without an end, in processes that are started or in this one.
abbrev pub endless {ℓ} : {A : Type ℓ} → Bool → Run A
endless true = blocked
endless false = raised recursion_error

module _ {P : Type 0} ⦃e : Eq P⦄ where
  unfoldable pub decompose_simpler_multi :
      Part2Prefix Text P → Result (Part2Prefix Text P × List (List P))
  unfolding decompose_simpler
  decompose_simpler_multi = decompose_simpler

  -- The dictionary as the call leaves it, and the result.
  unfoldable pub decompose_multi_from :
      (ℕ → Bool) → ℕ → ℕ → Part2Prefix Text P → Run (Part2Prefix Text P × Part2Prefix Text P)
  unfolding leaf divide_part2prefixes evens odds write_back merge
  decompose_multi_from starts zero index d = endless (starts index)
  decompose_multi_from starts (suc fuel) index (p ∷ []) = of_result (leaf p.0 (p ∷ []))
  decompose_multi_from starts (suc fuel) index (p ∷ q ∷ []) =
      of_result (leaf (p.0 ++ q.0) (p ∷ q ∷ []))
  decompose_multi_from starts (suc fuel) index d =
      let started = starts index in
      let next = if started then index + 1 else 0 in
      chain (of_result (divide_part2prefixes (evens (keys d)) d)) λ tmp1.
        chain (of_result (divide_part2prefixes (odds (keys d)) d)) λ tmp2.
          chain (run_in started (decompose_multi_from starts fuel next tmp1)) λ r1.
            chain (run_in started (decompose_multi_from starts fuel next tmp2)) λ r2.
              chain (decompose_multi_from starts fuel 0 (merge r1.1 r2.1))
                λ r. done ((if started then d else write_back r2.0 (write_back r1.0 d)), r.1)

  unfoldable pub decompose_multi :
      (ℕ → Bool) → ℕ → Part2Prefix Text P → Run (Part2Prefix Text P × Part2Prefix Text P)
  unfolding decompose_multi_from
  decompose_multi starts index d = decompose_multi_from starts (length d) index d

  -- Each participant's groups are refined in a process of its own.
  unfoldable pub refine_each :
      Part2Prefix Text P → Part2Prefix Text P → Part2Prefix Text P → Run (Part2Prefix Text P)
  unfolding merge decompose_simpler_multi get
  refine_each lcs [] updated = done updated
  refine_each lcs ((part, groups) ∷ parts) updated =
      chain (await (of_result (decompose_simpler_multi (merge ((part, groups) ∷ []) lcs)))) λ r.
        chain (of_result (get r.0 part)) λ gs. refine_each lcs parts (updated ++ (part, gs) ∷ [])

  unfoldable pub lcs_multiprocess :
      (ℕ → Bool) → Part2Prefix Text P → Run (Part2Prefix Text P × List (Group P))
  unfolding decompose_multi refine_each first
  lcs_multiprocess starts d = chain (decompose_multi starts 1 d) λ r.
      chain (refine_each r.1 r.0 [])
        λ updated. chain (of_result (first (values r.1))) λ lcs. done (updated, lcs)

-- ===== src/SetOperations/Tests.antt =====
-- Small inputs of lib/set_operations.py.
use ixp_irc.Prelude.{
  ltb, Bool, true, ◌&&◌, recursion_error, ℕ, nat_eq, list_eq, ◌>>=◌, List, [], ◌∷◌, ◌≡◌, refl, inl,
  inr, Distinct, keys, ok, get, put, lookup, filter, any, arith, contains, to_set,
}
use ixp_irc.Bgp.Text.{Text, codes}
use ixp_irc.SetOperations.Parallel.{decmopose_parallel}
use ixp_irc.SetOperations.Processes.{decompose_multi, blocked, raised}
use ixp_irc.SetOperations.Processes.Refinement.{Agrees, decompose_multi-decmopose_parallel}
use ixp_irc.SetOperations.Parallel.Halves.{IsLeaf, decmopose_parallel-IsLeaf}
use ixp_irc.SetOperations.{as_list, as_set, Part2Prefix, all_groups, decompose_simpler}
use ixp_irc.SetOperations.Partition.{Same}
use ixp_irc.SetOperations.Progress.{Together, owns}
use ixp_irc.SetOperations.Catalogue.{IsCatalogue}
use ixp_irc.SetOperations.Decomposition.{
  decompose_simpler_total, decompose_simpler-owns, decompose_simpler-Same,
  decompose_simpler-Together, decompose_simpler-IsCatalogue,
}

abbrev three_named : Part2Prefix Text ℕ
three_named =
    (codes "A", as_list (1 ∷ 2 ∷ []) ∷ [])
    ∷ (codes "AB", as_list (3 ∷ 4 ∷ []) ∷ [])
    ∷ (codes "B", as_list (5 ∷ 6 ∷ []) ∷ [])
    ∷ []

-- The sets of A and B are put under the name of AB, and lost.
decmopose_three :
    (decmopose_parallel three_named >>= λ r. ok r.1)
    ≡ ok ((codes "AB", as_set (3 ∷ 4 ∷ []) ∷ []) ∷ [])
unfolding decmopose_parallel get put lookup filter any contains to_set
decmopose_three = refl

three_Distinct : Distinct (keys three_named)
unfolding contains
three_Distinct = (refl, (refl, (refl, tt)))

decmopose_parallel-IsLeaf_example :
    (r : Part2Prefix Text ℕ × Part2Prefix Text ℕ) × (decmopose_parallel three_named ≡ ok r)
    × IsLeaf three_named r.0 r.1
decmopose_parallel-IsLeaf_example =
    decmopose_parallel-IsLeaf three_named three_Distinct (omega arith)

abbrev pub two_parts : Part2Prefix ℕ ℕ
two_parts =
    (1, as_list (1 ∷ 2 ∷ 3 ∷ []) ∷ as_list (3 ∷ 2 ∷ []) ∷ []) ∷ (2, as_list (2 ∷ 3 ∷ []) ∷ []) ∷ []

abbrev two_split : Part2Prefix ℕ ℕ
two_split = (1, as_set (1 ∷ []) ∷ as_set (2 ∷ 3 ∷ []) ∷ []) ∷ (2, as_set (2 ∷ 3 ∷ []) ∷ []) ∷ []

abbrev two_sets : List (List ℕ)
two_sets = (1 ∷ []) ∷ (2 ∷ 3 ∷ []) ∷ []

decompose_two : decompose_simpler two_parts ≡ ok (two_split, two_sets)
unfolding decompose_simpler get put lookup filter any contains to_set
decompose_two = refl

two_Distinct : Distinct (keys two_parts)
unfolding contains
two_Distinct = (refl, (refl, tt))

decompose_simpler_total_example :
    (r : Part2Prefix ℕ ℕ × List (List ℕ)) × (decompose_simpler two_parts ≡ ok r)
decompose_simpler_total_example = decompose_simpler_total two_parts two_Distinct

decompose_simpler-owns_example :
    (keys two_split ≡ keys two_parts) × ((p a : ℕ) → owns two_split p a ≡ owns two_parts p a)
decompose_simpler-owns_example = decompose_simpler-owns two_parts two_Distinct decompose_two

decompose_simpler-Same_example : Same {P = ℕ} (as_set (2 ∷ 3 ∷ [])) (as_set (2 ∷ 3 ∷ []))
unfolding all_groups contains
decompose_simpler-Same_example =
    decompose_simpler-Same two_parts two_Distinct decompose_two (as_set (2 ∷ 3 ∷ []))
      (as_set (2 ∷ 3 ∷ [])) 2 (inr (inl refl)) (inr (inr (inl refl))) refl refl

-- 2 and 3 stand in the same groups of `two_parts`.
two_Together : Together 2 3 (all_groups two_parts)
unfolding all_groups contains
two_Together g i = elim i [
  | inl q ↦ rw q refl
  | inr j ↦ elim j [ inl q ↦ rw q refl | inr k ↦ elim k [ inl q ↦ rw q refl | inr z ↦ absurd z ] ]
]

decompose_simpler-Together_example : Together 2 3 (all_groups two_split)
decompose_simpler-Together_example =
    decompose_simpler-Together two_parts two_Distinct decompose_two 2 3 two_Together

decompose_simpler-IsCatalogue_example : IsCatalogue (all_groups two_split) two_sets
decompose_simpler-IsCatalogue_example =
    decompose_simpler-IsCatalogue two_parts two_Distinct decompose_two

-- Four processors: the calls at the indices 1 and 2 start processes.
abbrev four_processors : ℕ → Bool
four_processors i = ltb 0 i && ltb i 3

decompose_multi-decmopose_parallel_example :
    Agrees true (decmopose_parallel three_named) (decompose_multi four_processors 1 three_named)
decompose_multi-decmopose_parallel_example =
    decompose_multi-decmopose_parallel four_processors refl 1 three_named

no_participants : Part2Prefix Text ℕ
no_participants = []

-- Without participants the processes die, and the parent waits.
waits_for_ever : decompose_multi four_processors 1 no_participants ≡ blocked
unfolding decompose_multi no_participants
waits_for_ever = refl

raises : decompose_multi four_processors 0 no_participants ≡ raised recursion_error
unfolding decompose_multi no_participants
raises = refl

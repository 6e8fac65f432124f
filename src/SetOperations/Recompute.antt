-- ===== src/SetOperations/Recompute.antt =====
-- `get_pset`, `prefix_decompose` and `lcs_recompute` of lib/set_operations.py. In the last one the
-- list under 'old' is one object in all the dictionaries it is put in, and each call of
-- `decompose_simpler` changes it: here it is passed on as `lcs`.
use ixp_irc.Prelude.{
  true, false, not, nat_eq, list_eq, List, [], ◌∷◌, ◌++◌, map, Eq, ◌==◌, filter, any, contains,
  is_nil, if◌then◌else◌, get, put, Result, ok, raise, type_error, ◌>>=◌,
}
use ixp_irc.Bgp.Text.{Text, codes}
use ixp_irc.SetOperations.{
  Group, as_list, as_set, Part2Prefix, has, group_eq, subset, remove_all, get_pdict, add_sets,
  decompose_simpler,
}
use ixp_irc.SetOperations.Parallel.{get_lcs}

module _ {P : Type 0} ⦃e : Eq P⦄ where
  unfoldable pub get_pset : List (Group P) → List (List P)
  unfolding add_sets
  get_pset plist = add_sets plist []

  -- The groups with the key are taken out of each participant's list.
  unfoldable pub take_out : P → Part2Prefix Text P → Result (Part2Prefix Text P)
  unfolding remove_all filter
  take_out k [] = ok []
  take_out k ((part, gs) ∷ d) = do
    gs' ← remove_all (filter (has k) gs) gs
    rest ← take_out k d
    ok ((part, gs') ∷ rest)

  -- The call of `decompose_set` with one argument raises.
  unfoldable pub prefix_decompose : Part2Prefix Text P → Result (Part2Prefix Text P)
  unfolding get_pdict take_out
  prefix_decompose d = elim (get_pdict d) [
    | [] ↦ ok d
    | k ∷ ks ↦ take_out k d >>= λ d'. raise type_error
  ]

  -- The new sets of each participant that has any, put behind the entry for 'old'.
  unfoldable pub new_sets :
      Part2Prefix Text P
      → Part2Prefix Text P
      → List Text
      → Part2Prefix Text P
      → Result (List Text × Part2Prefix Text P)
  unfolding get_pset get put subset filter any
  new_sets p2p_old [] affected p2p = ok (affected, p2p)
  new_sets p2p_old ((part, groups) ∷ p2p_new) affected p2p = do
    old ← get p2p_old part
    let fresh =
        filter (λ s. not (any (λ t. group_eq (as_set s) (as_set t)) (get_pset old)))
          (get_pset groups)
    elim fresh [
      | [] ↦ new_sets p2p_old p2p_new affected p2p
      | s ∷ sets ↦
          new_sets p2p_old p2p_new (affected ++ part ∷ []) (put part (map as_list (s ∷ sets)) p2p)
    ]

  unfoldable pub recompute_all :
      List Text
      → Part2Prefix Text P
      → List (Group P)
      → Part2Prefix Text P
      → Result (Part2Prefix Text P × List (Group P))
  unfolding decompose_simpler get put contains
  recompute_all affected [] lcs p2p = ok (p2p, lcs)
  recompute_all affected ((part, groups) ∷ updated) lcs p2p = elim (contains part affected) [
    | false ↦ recompute_all affected updated lcs (put part groups p2p)
    | true ↦ decompose_simpler (put part groups ((codes "new", lcs) ∷ [])) >>= λ r.
        (get r.0 (codes "new") >>= λ lcs'.
        (get r.0 part >>= λ gs. recompute_all affected updated lcs' (put part gs p2p)))
  ]

  unfoldable pub without : Text → Part2Prefix Text P → Part2Prefix Text P
  without k [] = []
  without k ((j, gs) ∷ d) = let rest = without k d in if k == j then rest else (j, gs) ∷ rest

  unfoldable pub lcs_recompute :
      Part2Prefix Text P
      → Part2Prefix Text P
      → Part2Prefix Text P
      → List (Group P)
      → Result (Part2Prefix Text P × List (Group P))
  unfolding get_lcs new_sets recompute_all without decompose_simpler get
  lcs_recompute p2p_old p2p_new updated lcs_old = do
    let start = if is_nil lcs_old then map as_list (get_lcs updated) else lcs_old
    found ← new_sets p2p_old p2p_new [] ((codes "old", start) ∷ [])
    r ← decompose_simpler found.1
    lcs ← get r.0 (codes "old")
    done ← recompute_all found.0 updated lcs r.0
    ok (without (codes "old") done.0, done.1)

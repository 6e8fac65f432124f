-- ===== src/SetOperations/Parallel.antt =====
-- The decomposition by halves of lib/set_operations.py: `divide_part2prefixes`,
-- `decmopose_parallel` and `lcs_parallel`, with `getLCS`. `decompose_simpler` changes the lists of
-- its dictionary in place, and the dictionaries that these functions build share their lists with
-- the one they are given: here each call also returns the dictionary as it leaves it.
-- `decmopose_parallel` calls itself without an end on an empty dictionary, which Python ends by an
-- exception; its fuel is the number of participants.
pub mod Keys
pub mod Halves
use ixp_irc.Prelude.{
  ℕ, zero, suc, Bool, true, false, nat_eq, list_eq, List, [], ◌∷◌, ◌++◌, map, Option, none, some,
  Eq, length, if◌then◌else◌, Dict, keys, values, has_key, get, put, lookup, Result, ok, raise,
  recursion_error, index_error, ◌>>=◌, contains,
}
use ixp_irc.Bgp.Text.{Text}
use ixp_irc.SetOperations.{
  Group, as_set, items, Part2Prefix, all_groups, add_sets, decompose_simpler,
}

-- `partList[::2]` and `partList[1::2]`
unfoldable pub evens : {A : Type 0} → List A → List A
evens [] = []
evens (x ∷ []) = x ∷ []
evens (x ∷ y ∷ l) = x ∷ evens l

unfoldable pub odds : {A : Type 0} → List A → List A
odds [] = []
odds (x ∷ []) = []
odds (x ∷ y ∷ l) = y ∷ odds l

-- `l[0]`
unfoldable pub first : {A : Type 0} → List A → Result A
first [] = raise index_error
first (a ∷ l) = ok a

module _ {V : Type 0} where
  -- The loop of `divide_part2prefixes`, with `tmp` so far.
  unfoldable pub divide_from : List Text → Dict Text V → Dict Text V → Result (Dict Text V)
  unfolding get put
  divide_from [] tmp d = ok tmp
  divide_from (elem ∷ plist) tmp d = get d elem >>= λ v. divide_from plist (put elem v tmp) d

  unfoldable pub divide_part2prefixes : List Text → Dict Text V → Result (Dict Text V)
  unfolding divide_from
  divide_part2prefixes plist d = divide_from plist [] d

  -- `dict(d1.items() + d2.items())`, for a dictionary `d1`
  unfoldable pub merge : Dict Text V → Dict Text V → Dict Text V
  unfolding put
  merge d1 [] = d1
  merge d1 ((k, v) ∷ d2) = merge (put k v d1) d2

  -- The dictionary after a call that changed the lists it shares with `shared`.
  unfoldable pub write_back : Dict Text V → Dict Text V → Dict Text V
  unfolding lookup
  write_back shared [] = []
  write_back shared ((k, v) ∷ d) =
      (k, (elim (lookup k shared) [ none ↦ v | some w ↦ w ])) ∷ write_back shared d

module _ {P : Type 0} ⦃e : Eq P⦄ where
  -- `lcs_out`, the distinct sets of all groups
  unfoldable pub get_lcs : {N : Type 0} → Part2Prefix N P → List (List P)
  unfolding all_groups add_sets
  get_lcs part_2_prefix = add_sets (all_groups part_2_prefix) []

  -- The two cases without a further division: the list of sets, under the name of all participants.
  unfoldable pub leaf : Text → Part2Prefix Text P → Result (Part2Prefix Text P × Part2Prefix Text P)
  unfolding decompose_simpler
  leaf nkey d = decompose_simpler d >>= λ r. ok (r.0, (nkey, map as_set r.1) ∷ [])

  -- The changed dictionary, and the result.
  unfoldable pub decmopose_from :
      ℕ → Part2Prefix Text P → Result (Part2Prefix Text P × Part2Prefix Text P)
  unfolding leaf divide_part2prefixes evens odds write_back merge
  decmopose_from zero d = raise recursion_error
  decmopose_from (suc fuel) (p ∷ []) = leaf p.0 (p ∷ [])
  decmopose_from (suc fuel) (p ∷ q ∷ []) = leaf (p.0 ++ q.0) (p ∷ q ∷ [])
  decmopose_from (suc fuel) d = do
    tmp1 ← divide_part2prefixes (evens (keys d)) d
    tmp2 ← divide_part2prefixes (odds (keys d)) d
    r1 ← decmopose_from fuel tmp1
    r2 ← decmopose_from fuel tmp2
    r ← decmopose_from fuel (merge r1.1 r2.1)
    ok (write_back r2.0 (write_back r1.0 d), r.1)

  unfoldable pub decmopose_parallel :
      Part2Prefix Text P → Result (Part2Prefix Text P × Part2Prefix Text P)
  unfolding decmopose_from
  decmopose_parallel d = decmopose_from (length d) d

  -- The loop of `lcs_parallel`: the dictionary and the common sets as it leaves them.
  unfoldable pub refine_all :
      List Text
      → Part2Prefix Text P
      → Part2Prefix Text P
      → Result (Part2Prefix Text P × Part2Prefix Text P)
  unfolding merge decompose_simpler write_back get put contains
  refine_all [] d lcs = ok (d, lcs)
  refine_all (part ∷ parts) d lcs = do
    gs ← get d part
    r ← decompose_simpler (merge ((part, gs) ∷ []) lcs)
    updated ← get r.0 part
    refine_all parts (if has_key part lcs then d else put part updated d) (write_back r.0 lcs)

  unfoldable pub lcs_parallel : Part2Prefix Text P → Result (Part2Prefix Text P × List (Group P))
  unfolding decmopose_parallel refine_all first
  lcs_parallel d = do
    r ← decmopose_parallel d
    r' ← refine_all (keys r.0) r.0 r.1
    lcs ← first (values r'.1)
    ok (r'.0, lcs)

-- ===== src/SetOperations.antt =====
-- lib/set_operations.py, the decomposition of the participants' prefix lists into the sets that
-- share a virtual next hop: `getLCS`, `get_pdict`, `decompose_set`, `decompose_simpler`.
-- `part_2_prefix` maps a participant to its groups of prefixes, each a list or a set. The
-- functions change it in place: here they return the changed dictionary.
pub mod Step
pub mod Round
pub mod Origin
pub mod Partition
pub mod Cover
pub mod Progress
pub mod Catalogue
pub mod Decomposition
pub mod Parallel
pub mod Processes
pub mod Recompute
mod Tests
use ixp_irc.Prelude.{
  ℕ, Bool, true, false, ◌&&◌, ◌||◌, not, List, [], ◌∷◌, ◌++◌, map, Eq, list_eq, ◌==◌, length,
  is_nil, filter, any, contains, to_set, ltb, eqb, if◌then◌else◌, Dict, keys, values, get, put,
  Result, ok, raise, type_error, value_error, ◌>>=◌,
}

-- A `list` or a `set` of prefixes; a set is given by its values in some order.
pub data Group (P : Type 0) : Type 0 where
  as_list : List P → Group P
  as_set : List P → Group P

abbrev pub items : {P : Type 0} → Group P → List P
items (as_list xs) = xs
items (as_set xs) = xs

abbrev pub Part2Prefix : Type 0 → Type 0 → Type 0
Part2Prefix N P = Dict N (List (Group P))

module _ {P : Type 0} ⦃e : Eq P⦄ where
  -- `key in temp`
  abbrev pub has : P → Group P → Bool
  has k g = contains k (items g)

  unfoldable pub subset : List P → List P → Bool
  subset [] ys = true
  subset (x ∷ xs) ys = contains x ys && subset xs ys

  -- `==` between groups: lists item by item, sets by their values, a list and a set never
  abbrev pub group_eq : Group P → Group P → Bool
  group_eq (as_list xs) (as_list ys) = xs == ys
  group_eq (as_set xs) (as_set ys) = subset xs ys && subset ys xs
  group_eq (as_list xs) (as_set ys) = false
  group_eq (as_set xs) (as_list ys) = false

  abbrev pub inter : List P → List P → List P
  inter xs ys = filter (λ x. contains x ys) xs

  abbrev pub diff : List P → List P → List P
  diff xs ys = filter (λ x. not (contains x ys)) xs

  unfoldable pub inter_from : List P → List (List P) → List P
  inter_from s [] = s
  inter_from s (t ∷ ts) = inter_from (inter s t) ts

  -- `set.intersection(*pmap)`
  unfoldable pub intersection : List (List P) → Result (List P)
  unfolding inter_from
  intersection [] = raise type_error
  intersection (s ∷ ss) = ok (inter_from s ss)

  -- `l.remove(elem)`: the first item that is equal to it
  unfoldable pub remove : Group P → List (Group P) → Result (List (Group P))
  remove g [] = raise value_error
  remove g (h ∷ l) =
      let rest = remove g l in if group_eq g h then ok l else (rest >>= λ l'. ok (h ∷ l'))

  unfoldable pub remove_all : List (Group P) → List (Group P) → Result (List (Group P))
  unfolding remove
  remove_all [] l = ok l
  remove_all (g ∷ gs) l = remove g l >>= λ l'. remove_all gs l'

  -- the sets of `pmap`, from the groups of every entry of `tdict`
  unfoldable pub all_groups {κ} : {N : Type κ} → Dict N (List (Group P)) → List (Group P)
  all_groups [] = []
  all_groups ((p, gs) ∷ d) = gs ++ all_groups d

  -- the new groups of one entry: the common set, and what is left of each old group
  unfoldable pub split : List P → List (Group P) → List (Group P)
  split m [] = []
  split m (g ∷ gs) =
      let temp = diff (to_set (items g)) m in
      let rest = split m gs in if ltb 0 (length temp) then as_set temp ∷ rest else rest

  -- the values of every group with more than one item: the keys of `get_pdict`
  unfoldable pub large_items : List (Group P) → List P
  large_items [] = []
  large_items (g ∷ gs) =
      let rest = large_items gs in if ltb 1 (length (items g)) then items g ++ rest else rest

  -- `if tset not in lcs: lcs.append(tset)`, for each group
  unfoldable pub add_sets : List (Group P) → List (List P) → List (List P)
  unfolding subset
  add_sets [] lcs = lcs
  add_sets (g ∷ gs) lcs =
      let tset = to_set (items g) in
      add_sets gs
        (if any (λ h. group_eq (as_set tset) (as_set h)) lcs then lcs else lcs ++ tset ∷ [])

module _ {N P : Type 0} ⦃e : Eq P⦄ where
  -- The keys, in the one order that `to_set` gives; the order of Python's dictionary is arbitrary.
  unfoldable pub get_pdict : Part2Prefix N P → List P
  unfolding all_groups large_items
  get_pdict d = to_set (large_items (all_groups d))

  -- the groups of each participant that hold the key, of those that have any
  unfoldable pub gather : P → Part2Prefix N P → Part2Prefix N P
  gather k [] = []
  gather k ((p, gs) ∷ d) =
      let tlist = filter (has k) gs in
      let rest = gather k d in if ltb 0 (length tlist) then (p, tlist) ∷ rest else rest

module _ {N P : Type 0} ⦃n : Eq N⦄ ⦃e : Eq P⦄ where
  -- the loop of `decompose_set` over `tdict`; the first result is `tdict` with its new lists
  unfoldable pub split_all :
      List P
      → Part2Prefix N P
      → Part2Prefix N P
      → Part2Prefix N P
      → Result (Part2Prefix N P × Part2Prefix N P)
  unfolding split remove_all
  split_all m [] updated bk = ok ([], updated)
  split_all m ((p, lists) ∷ tdict) updated bk =
      let tlist = as_set m ∷ split m lists in
      do
        gs ← get updated p
        old ← get bk p
        gs' ← remove_all old (gs ++ tlist)
        (tdict', updated') ← split_all m tdict (put p gs' updated) bk
        ok ((p, tlist) ∷ tdict', updated')

  unfoldable pub decompose_set :
      Part2Prefix N P
      → Part2Prefix N P
      → Part2Prefix N P
      → Result (Part2Prefix N P × Part2Prefix N P)
  unfolding all_groups split_all intersection
  decompose_set tdict updated bk = do
    min_set ← intersection (map (λ g. to_set (items g)) (all_groups tdict))
    if ltb 0 (length min_set) then split_all min_set tdict updated bk else ok (tdict, updated)

  -- `len(tempdict) == 1 and len(tempdict.values()[0]) == 1`
  abbrev pub is_single : Part2Prefix N P → Bool
  is_single [] = false
  is_single ((p, tlist) ∷ []) = eqb (length tlist) 1
  is_single ((p, tlist) ∷ q ∷ d) = false

  -- the body of the loop of `decompose_simpler` over the keys
  unfoldable pub decompose_key : P → Part2Prefix N P → Result (Part2Prefix N P)
  unfolding gather decompose_set
  decompose_key k updated =
      let tempdict = gather k updated in
      if is_single tempdict
      then ok updated
      else (decompose_set tempdict updated tempdict >>= λ r. ok r.1)

  unfoldable pub decompose_keys : List P → Part2Prefix N P → Result (Part2Prefix N P)
  unfolding decompose_key
  decompose_keys [] updated = ok updated
  decompose_keys (k ∷ ks) updated = decompose_key k updated >>= λ d. decompose_keys ks d

  unfoldable pub decompose_simpler : Part2Prefix N P → Result (Part2Prefix N P × List (List P))
  unfolding get_pdict decompose_keys add_sets all_groups
  decompose_simpler d = do
    updated ← decompose_keys (get_pdict d) d
    ok (updated, add_sets (all_groups updated) [])

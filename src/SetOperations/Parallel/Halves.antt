-- ===== src/SetOperations/Parallel/Halves.antt =====
-- `decmopose_parallel` returns, with pairwise disjoint sets.
use ixp_irc.Prelude.{
  ℕ, zero, suc, ◌≤◌, nat_eq, list_eq, List, [], ◌∷◌, ◌++◌, map, Eq, keys, put, ok, Distinct,
  contains, length, ◌≡◌, refl, ◌∙◌, arith,
}
use ixp_irc.Bgp.Text.{Text}
use ixp_irc.SetOperations.{Group, as_set, Part2Prefix}
use ixp_irc.SetOperations.Catalogue.{PairwiseDisjoint}
use ixp_irc.SetOperations.Decomposition.{decompose_simpler-IsDecomposition}
use ixp_irc.SetOperations.Parallel.{
  evens, odds, merge, write_back, leaf, decmopose_from, decmopose_parallel,
}
use ixp_irc.SetOperations.Parallel.Keys.{
  put-Distinct, length-put_le, length-put_pos, divide-IsDivision, keys-write_back, evens_keys,
  odds_keys, length-evens_le, length-odds_le, length-keys,
}

module _ {P : Type 0} ⦃e : Eq P⦄ where
  -- The result is one list of disjoint sets, under one name, beside a dictionary with the keys.
  pub record IsLeaf (d d' out : Part2Prefix Text P) : Type 0 where
    pub name : Text
    pub sets : List (List P)
    pub single : out ≡ (name, map as_set sets) ∷ []
    pub disjoint : PairwiseDisjoint sets
    pub same_keys : keys d' ≡ keys d

  leaf-IsLeaf :
      (k : Text) (d : Part2Prefix Text P)
      → Distinct (keys d)
      → (r : Part2Prefix Text P × Part2Prefix Text P) × (leaf k d ≡ ok r) × IsLeaf d r.0 r.1
  unfolding leaf
  leaf-IsLeaf k d h =
      let (d', lcs, eq, dec) = decompose_simpler-IsDecomposition d h in
      (
        (d', (k, map as_set lcs) ∷ []),
        rw eq refl,
        record {
          name = k;
          sets = lcs;
          single = refl;
          disjoint = dec.catalogue.disjoint;
          same_keys = dec.progress.names;
        },
      )

  merge-single :
      (k1 k2 : Text) (g1 g2 : List (Group P))
      → merge ((k1, g1) ∷ []) ((k2, g2) ∷ []) ≡ put k2 g2 ((k1, g1) ∷ [])
  unfolding merge
  merge-single k1 k2 g1 g2 = refl

  -- The two results have one name each, so that a call with two units of fuel joins them.
  joined :
      (d1 d1' o1 d2 d2' o2 : Part2Prefix Text P)
      → IsLeaf d1 d1' o1
      → IsLeaf d2 d2' o2
      → Distinct (keys (merge o1 o2)) × (1 ≤ length (merge o1 o2)) × (length (merge o1 o2) ≤ 2)
  unfolding contains
  joined d1 d1' o1 d2 d2' o2 l1 l2 =
      let g1 = map as_set l1.sets in
      let g2 = map as_set l2.sets in
      rw (l1.single, l2.single, merge-single l1.name l2.name g1 g2)
        (
          put-Distinct l2.name g2 ((l1.name, g1) ∷ []) (refl, tt),
          length-put_pos l2.name g2 ((l1.name, g1) ∷ []),
          omega (arith, length-put_le l2.name g2 ((l1.name, g1) ∷ [])),
        )

  decmopose_from-IsLeaf :
      (fuel : ℕ) (d : Part2Prefix Text P)
      → Distinct (keys d)
      → 1 ≤ length d
      → length d ≤ fuel
      → (r : Part2Prefix Text P × Part2Prefix Text P) × (decmopose_from fuel d ≡ ok r)
        × IsLeaf d r.0 r.1
  unfolding decmopose_from evens odds
  decmopose_from-IsLeaf zero d h pos enough = absurd (omega arith)
  decmopose_from-IsLeaf (suc fuel) [] h pos enough = absurd (omega arith)
  decmopose_from-IsLeaf (suc fuel) (p ∷ []) h pos enough = leaf-IsLeaf p.0 (p ∷ []) h
  decmopose_from-IsLeaf (suc fuel) (p ∷ q ∷ []) h pos enough =
      leaf-IsLeaf (p.0 ++ q.0) (p ∷ q ∷ []) h
  decmopose_from-IsLeaf (suc fuel) (p ∷ q ∷ t ∷ d) h pos enough =
      let all = p ∷ q ∷ t ∷ d in
      let rest = t.0 ∷ keys d in
      let (tmp1, e1, h1, pos1, most1) =
        divide-IsDivision p.0 (evens rest) all (evens_keys (keys all)) in
      let (tmp2, e2, h2, pos2, most2) =
        divide-IsDivision q.0 (odds rest) all (odds_keys (keys all)) in
      let few1 : length tmp1 ≤ fuel = omega (arith, length-evens_le rest, length-keys d) in
      let few2 : length tmp2 ≤ fuel = omega (arith, length-odds_le rest, length-keys d) in
      let (r1, f1, l1) = decmopose_from-IsLeaf fuel tmp1 h1 pos1 few1 in
      let (r2, f2, l2) = decmopose_from-IsLeaf fuel tmp2 h2 pos2 few2 in
      let (h3, pos3, most3) = joined tmp1 r1.0 r1.1 tmp2 r2.0 r2.1 l1 l2 in
      let (r, f, l) = decmopose_from-IsLeaf fuel (merge r1.1 r2.1) h3 pos3 (omega arith) in
      (
        (write_back r2.0 (write_back r1.0 all), r.1),
        rw e1 (rw e2 (rw f1 (rw f2 (rw f refl)))),
        record {
          name = l.name;
          sets = l.sets;
          single = l.single;
          disjoint = l.disjoint;
          same_keys = keys-write_back r2.0 (write_back r1.0 all) ∙ keys-write_back r1.0 all;
        },
      )

  -- On a dictionary with at least one participant, `decmopose_parallel` returns: its result is one
  -- list of pairwise disjoint sets, and the dictionary keeps its participants in their order.
  pub decmopose_parallel-IsLeaf :
      (d : Part2Prefix Text P)
      → Distinct (keys d)
      → 1 ≤ length d
      → (r : Part2Prefix Text P × Part2Prefix Text P) × (decmopose_parallel d ≡ ok r)
        × IsLeaf d r.0 r.1
  unfolding decmopose_parallel
  decmopose_parallel-IsLeaf d h pos = decmopose_from-IsLeaf (length d) d h pos (omega arith)

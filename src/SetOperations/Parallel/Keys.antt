-- ===== src/SetOperations/Parallel/Keys.antt =====
-- The keys of the dictionaries that the functions on halves build.
use ixp_irc.Prelude.{
  suc, ◌+◌, ◌≤◌, true, ◌||◌, nat_eq, list_eq, list_beq_iff, ◌==◌, List, [], ◌∷◌, Dict, keys, get,
  put, lookup, ok, contains, Distinct, length, ◌≡◌, refl, ap, ◌∙◌, arith, Bool-cases, inl, inr, All,
  beq_comm, In, All-In, In-contains,
}
use ixp_irc.Bgp.Text.{Text}
use ixp_irc.SetOperations.Parallel.{evens, odds, divide_from, divide_part2prefixes, write_back}

module _ {V : Type 0} where
  pub contains-keys-put :
      (j k : Text) (v : V) (m : Dict Text V)
      → contains j (keys (put k v m)) ≡ ((j == k) || contains j (keys m))
  unfolding put contains
  contains-keys-put j k v [] = refl
  contains-keys-put j k v ((i, w) ∷ m) =
      ground
        (arith, list_beq_iff k i, list_beq_iff j k, list_beq_iff j i, contains-keys-put j k v m)

  pub put-Distinct :
      (k : Text) (v : V) (m : Dict Text V) → Distinct (keys m) → Distinct (keys (put k v m))
  unfolding put contains
  put-Distinct k v [] h = (refl, tt)
  put-Distinct k v ((i, w) ∷ m) h = elim (Bool-cases (k == i)) [
    | inl t ↦ rw t (let same : k ≡ i = (list_beq_iff k i).0 t in rw same h)
    | inr f ↦
        rw f
          ((contains-keys-put i k v m ∙ ground (arith, beq_comm k i, h.0), put-Distinct k v m h.1))
  ]

  pub length-put_le : (k : Text) (v : V) (m : Dict Text V) → length (put k v m) ≤ length m + 1
  unfolding put
  length-put_le k v [] = omega arith
  length-put_le k v ((i, w) ∷ m) = ground (arith, length-put_le k v m)

  pub length-put_ge : (k : Text) (v : V) (m : Dict Text V) → length m ≤ length (put k v m)
  unfolding put
  length-put_ge k v [] = omega arith
  length-put_ge k v ((i, w) ∷ m) = ground (arith, length-put_ge k v m)

  pub length-put_pos : (k : Text) (v : V) (m : Dict Text V) → 1 ≤ length (put k v m)
  unfolding put
  length-put_pos k v [] = omega arith
  length-put_pos k v ((i, w) ∷ m) = ground arith

  pub get_of_key :
      (k : Text) (m : Dict Text V) → contains k (keys m) ≡ true → (v : V) × (get m k ≡ ok v)
  unfolding get lookup contains
  get_of_key k [] h = absurd (ground arith)
  get_of_key k ((j, v) ∷ m) h = elim (Bool-cases (k == j)) [
    | inl t ↦ (v, rw (t, get) refl)
    | inr f ↦ let (w, q) = get_of_key k m (rw f at h) in (w, rw (f, get) q)
  ]

  -- What `divide_from` returns, for keys of the dictionary.
  pub record IsDivision (plist : List Text) (acc tmp : Dict Text V) : Type 0 where
    pub distinct : Distinct (keys tmp)
    pub at_least : length acc ≤ length tmp
    pub at_most : length tmp ≤ length acc + length plist

  pub divide_from-IsDivision :
      (plist : List Text) (acc d : Dict Text V)
      → Distinct (keys acc)
      → All (λ k. contains k (keys d) ≡ true) plist
      → (tmp : Dict Text V) × (divide_from plist acc d ≡ ok tmp) × IsDivision plist acc tmp
  unfolding divide_from
  divide_from-IsDivision [] acc d h a =
      (acc, refl, record { distinct = h; at_least = omega arith; at_most = omega arith })
  divide_from-IsDivision (k ∷ plist) acc d h a =
      let (v, q) = get_of_key k d a.0 in
      let (tmp, e, s) = divide_from-IsDivision plist (put k v acc) d (put-Distinct k v acc h) a.1 in
      (
        tmp,
        rw q e,
        record {
          distinct = s.distinct;
          at_least = omega (arith, s.at_least, length-put_ge k v acc);
          at_most = omega (arith, s.at_most, length-put_le k v acc);
        },
      )

  pub divide-IsDivision :
      (k : Text) (plist : List Text) (d : Dict Text V)
      → All (λ j. contains j (keys d) ≡ true) (k ∷ plist)
      → (tmp : Dict Text V) × (divide_part2prefixes (k ∷ plist) d ≡ ok tmp)
        × Distinct (keys tmp)
        × (1 ≤ length tmp)
        × (length tmp ≤ length plist + 1)
  unfolding divide_part2prefixes divide_from
  divide-IsDivision k plist d a =
      let (v, q) = get_of_key k d a.0 in
      let (tmp, e, s) = divide_from-IsDivision plist (put k v []) d (put-Distinct k v [] tt) a.1 in
      (
        tmp,
        rw q e,
        s.distinct,
        omega (arith, s.at_least, length-put_pos k v []),
        omega (arith, s.at_most, length-put_le k v []),
      )

  pub keys-write_back : (shared d : Dict Text V) → keys (write_back shared d) ≡ keys d
  unfolding write_back
  keys-write_back shared [] = refl
  keys-write_back shared ((k, v) ∷ d) = ap (◌∷◌ k) (keys-write_back shared d)

module _ {A : Type 0} where
  In-evens : (a : A) (l : List A) → In a (evens l) → In a l
  unfolding evens
  In-evens a [] i = i
  In-evens a (x ∷ []) i = i
  In-evens a (x ∷ y ∷ l) (inl q) = inl q
  In-evens a (x ∷ y ∷ l) (inr i) = inr (inr (In-evens a l i))

  In-odds : (a : A) (l : List A) → In a (odds l) → In a l
  unfolding odds
  In-odds a [] i = i
  In-odds a (x ∷ []) i = absurd i
  In-odds a (x ∷ y ∷ l) (inl q) = inr (inl q)
  In-odds a (x ∷ y ∷ l) (inr i) = inr (inr (In-odds a l i))

  pub length-evens_le : (l : List A) → length (evens l) ≤ length l
  unfolding evens
  length-evens_le [] = omega arith
  length-evens_le (x ∷ []) = omega arith
  length-evens_le (x ∷ y ∷ l) = omega (arith, length-evens_le l)

  pub length-odds_le : (l : List A) → length (odds l) ≤ length l
  unfolding odds
  length-odds_le [] = omega arith
  length-odds_le (x ∷ []) = omega arith
  length-odds_le (x ∷ y ∷ l) = omega (arith, length-odds_le l)

pub evens_keys : (l : List Text) → All (λ k. contains k l ≡ true) (evens l)
evens_keys l = All-In (evens l) (λ k i. In-contains k l (In-evens k l i))

pub odds_keys : (l : List Text) → All (λ k. contains k l ≡ true) (odds l)
odds_keys l = All-In (odds l) (λ k i. In-contains k l (In-odds k l i))

pub length-keys : {V : Type 0} (d : Dict Text V) → length (keys d) ≡ length d
length-keys [] = refl
length-keys (p ∷ d) = ap suc (length-keys d)

-- ===== src/ByteCounter/Records.antt =====
-- The rows of the table of the received bytes (pending/byte_counter.py).
use ixp_irc.Prelude.{
  ℕ, Bool, true, false, ◌&&◌, List, [], ◌∷◌, Option, none, some, nat_eq, list_eq, list_beq_iff,
  beq_comm, ◌==◌, and_cases, ◌≡◌, refl, sym, ap, ◌∙◌, arith, Bool-cases, inl, inr,
}
use ixp_irc.ByteCounter.{
  ℤ, Count, Key, is_for, get_count_record, add_count_record, update_count_record,
}

abbrev pub read_of : Option Count → Option (ℤ × Option ℕ)
read_of none = none
read_of (some r) = some (r.bps, r.total)

-- The rate and the total of a key, if it has a row.
abbrev pub reading : Key → List Count → Option (ℤ × Option ℕ)
reading key rows = read_of (get_count_record key rows)

abbrev pub same_key : Key → Key → Bool
same_key j k = j.0 == k.0 && j.1 == k.1

-- A row for one key is for another one only if they are the same.
is_for-same : (j k : Key) (r : Count) → is_for k r ≡ true → is_for j r ≡ same_key j k
is_for-same j k r h = ground (
  arith,
  h,
  list_beq_iff r.ip j.0,
  list_beq_iff r.ip k.0,
  list_beq_iff j.0 k.0,
  list_beq_iff r.from_as j.1,
  list_beq_iff r.from_as k.1,
  list_beq_iff j.1 k.1,
)

get-here :
    (j : Key) (r : Count) (rows : List Count)
    → is_for j r ≡ true
    → get_count_record j (r ∷ rows) ≡ some r
unfolding get_count_record
get-here j r rows t = rw t refl

get-there :
    (j : Key) (r : Count) (rows : List Count)
    → is_for j r ≡ false
    → get_count_record j (r ∷ rows) ≡ get_count_record j rows
unfolding get_count_record
get-there j r rows f = rw f refl

same_false : (j k : Key) (r : Count) → is_for j r ≡ true → is_for k r ≡ false → same_key j k ≡ false
same_false j k r t f = elim (Bool-cases (same_key j k)) [
  | inr u ↦ u
  | inl u ↦
      let (e0, e1) = and_cases (j.0 == k.0) (j.1 == k.1) u in
      let z : true ≡ false =
        sym t ∙ (rw ((list_beq_iff j.0 k.0).0 e0) (rw ((list_beq_iff j.1 k.1).0 e1) refl) ∙ f) in
      cc
]

-- The row that is added.
unfoldable pub new_row : (k : Key) (bps : ℤ) (total : ℕ) → Count
new_row k bps total = record { ip = k.0; from_as = k.1; bps = bps; total = some total }

not_none : {r : Count} → some r ≡ none → ⊥
not_none e = cc

is_for-new : (j k : Key) (bps : ℤ) (total : ℕ) → is_for j (new_row k bps total) ≡ same_key j k
unfolding new_row
is_for-new j k bps total = rw (beq_comm k.0 j.0, beq_comm k.1 j.1) refl

same_row : (x z : Key) (q : Count) → same_key x z ≡ true → is_for x q ≡ is_for z q
same_row x z q y =
    let (e0, e1) = and_cases (x.0 == z.0) (x.1 == z.1) y in
    rw ((list_beq_iff x.0 z.0).0 e0) (rw ((list_beq_iff x.1 z.1).0 e1) refl)

-- A row that is added for a key that has none.
module _ (j k : Key) (bps : ℤ) (total : ℕ) where
  pub add-same :
      (rows : List Count)
      → same_key j k ≡ true
      → get_count_record k rows ≡ none
      → get_count_record j (add_count_record k bps total rows) ≡ some (new_row k bps total)
  unfolding add_count_record new_row
  add-same [] y h = get-here j (new_row k bps total) [] (is_for-new j k bps total ∙ y)
  add-same (r ∷ rows) y h = elim (Bool-cases (is_for k r)) [
    | inl t ↦ absurd (not_none (sym (get-here k r rows t) ∙ h))
    | inr f ↦
        get-there j r (add_count_record k bps total rows) (same_row j k r y ∙ f)
        ∙ add-same rows y (sym (get-there k r rows f) ∙ h)
  ]

  pub add-other :
      (rows : List Count)
      → same_key j k ≡ false
      → get_count_record j (add_count_record k bps total rows) ≡ get_count_record j rows
  unfolding add_count_record new_row
  add-other [] n = get-there j (new_row k bps total) [] (is_for-new j k bps total ∙ n)
  add-other (r ∷ rows) n = elim (Bool-cases (is_for j r)) [
    | inl t ↦ get-here j r (add_count_record k bps total rows) t ∙ sym (get-here j r rows t)
    | inr f ↦
        get-there j r (add_count_record k bps total rows) f
        ∙ (add-other rows n ∙ sym (get-there j r rows f))
  ]

-- The row that is updated.
changed : (bps : ℤ) (total : ℕ) → Count → Count
changed bps total r = record r { bps = bps; total = some total }

module _ (j k : Key) (bps : ℤ) (total : ℕ) where
  update-here :
      (r : Count) (rows : List Count)
      → is_for k r ≡ true
      → update_count_record k bps total (r ∷ rows)
        ≡ changed bps total r ∷ update_count_record k bps total rows
  unfolding update_count_record changed
  update-here r rows t = rw t refl

  update-there :
      (r : Count) (rows : List Count)
      → is_for k r ≡ false
      → update_count_record k bps total (r ∷ rows) ≡ r ∷ update_count_record k bps total rows
  unfolding update_count_record
  update-there r rows f = rw f refl

  is_for-changed : (r : Count) → is_for j (changed bps total r) ≡ is_for j r
  unfolding changed
  is_for-changed r = refl

  read_of-changed : (r : Count) → read_of (some (changed bps total r)) ≡ some (bps, some total)
  unfolding changed
  read_of-changed r = refl

  pub update-other :
      (rows : List Count)
      → same_key j k ≡ false
      → get_count_record j (update_count_record k bps total rows) ≡ get_count_record j rows
  unfolding update_count_record
  update-other [] n = refl
  update-other (r ∷ rows) n = elim (Bool-cases (is_for k r)) [
    | inl t ↦
        let u : is_for j r ≡ false = is_for-same j k r t ∙ n in
        ap (get_count_record j) (update-here r rows t)
        ∙ (get-there j (changed bps total r) (update_count_record k bps total rows)
              (is_for-changed r ∙ u)
            ∙ (update-other rows n ∙ sym (get-there j r rows u)))
    | inr f ↦ ap (get_count_record j) (update-there r rows f) ∙ elim (Bool-cases (is_for j r)) [
      | inl u ↦ get-here j r (update_count_record k bps total rows) u ∙ sym (get-here j r rows u)
      | inr u ↦
          get-there j r (update_count_record k bps total rows) u
          ∙ (update-other rows n ∙ sym (get-there j r rows u))
    ]
  ]

  pub update-same :
      (rows : List Count) {old : Count}
      → same_key j k ≡ true
      → get_count_record k rows ≡ some old
      → reading j (update_count_record k bps total rows) ≡ some (bps, some total)
  unfolding get_count_record
  update-same [] y h = cc
  update-same (r ∷ rows) y h = elim (Bool-cases (is_for k r)) [
    | inl t ↦
        ap read_of (
          ap (get_count_record j) (update-here r rows t)
          ∙ get-here j (changed bps total r) (update_count_record k bps total rows)
              (is_for-changed r ∙ (is_for-same j k r t ∙ y)))
        ∙ read_of-changed r
    | inr f ↦
        ap read_of (
          ap (get_count_record j) (update-there r rows f)
          ∙ get-there j r (update_count_record k bps total rows) (same_row j k r y ∙ f))
        ∙ update-same rows y (sym (get-there k r rows f) ∙ h)
  ]

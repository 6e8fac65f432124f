-- ===== src/Bgp/Rib/Laws.antt =====
-- What can be read from a table after a change (bgp/rib.py).
use ixp_irc.Prelude.{
  false, not, List, [], ◌∷◌, ◌++◌, none, some, nat_eq, list_eq, list_beq_iff, ◌==◌, filter,
  filter-append, if◌then◌else◌, ◌≡◌, refl, ◌∙◌, arith, Bool-cases, inl, inr, beq_refl, beq_comm,
  append-nil, map, sym, ap, In, In-filter, Option-cases,
}
use mathlib.Core.List.{map-append}
use ixp_irc.Bgp.Text.{Text}
use ixp_irc.Bgp.Inet.{digits}
use ixp_irc.Bgp.Rib.{
  Scalar, null, number, text, in_text_column, in_number_column, stored, Route, Rib, keyed, add,
  get_all, fetchone, get, delete,
}

filter_delete_self :
    (key : Text) (rows : List Route)
    → filter (λ (r : Route). r.prefix == key) (filter (λ (r : Route). not (r.prefix == key)) rows)
      ≡ []
unfolding filter
filter_delete_self key [] = refl
filter_delete_self key (r ∷ rows) = ground (arith, filter_delete_self key rows)

filter_delete_other :
    (k key : Text) (rows : List Route)
    → (k == key) ≡ false
    → filter (λ (r : Route). r.prefix == k) (filter (λ (r : Route). not (r.prefix == key)) rows)
      ≡ filter (λ (r : Route). r.prefix == k) rows
unfolding filter
filter_delete_other k key [] h = refl
filter_delete_other k key (r ∷ rows) h = ground (
  arith,
  list_beq_iff r.prefix k,
  list_beq_iff r.prefix key,
  list_beq_iff k key,
  filter_delete_other k key rows h,
)

-- The row that `rib[key] = item` adds, as it is read.
abbrev pub row_for : Text → Route → Route
row_for key item = stored (keyed key item)

text_column_twice : (s : Scalar) → in_text_column (in_text_column s) ≡ in_text_column s
unfolding in_text_column
text_column_twice null = refl
text_column_twice (number n) = refl
text_column_twice (text t) = refl

number_column_twice : (s : Scalar) → in_number_column (in_number_column s) ≡ in_number_column s
unfolding in_number_column
number_column_twice null = refl
number_column_twice (number n) = refl
number_column_twice (text t) = elim (Option-cases (digits 10 t)) [
  | inl q ↦ rw (q, in_number_column) (rw (q, in_number_column) refl)
  | inr (n, q) ↦ rw (q, in_number_column) refl
]

-- What is read from a table can be put there again.
stored_twice : (r : Route) → stored (stored r) ≡ stored r
stored_twice r =
    rw
      (
        text_column_twice r.origin,
        number_column_twice r.med,
        number_column_twice r.atomic_aggregate,
      )
      refl

-- A row for the key as a table gives it.
abbrev pub IsRowFor : Text → Route → Type 0
IsRowFor k r = (r.prefix ≡ k) × (stored r ≡ r)

In-stored :
    (l : List Route) (r : Route) → In r (map stored l) → (x : Route) × In x l × (r ≡ stored x)
In-stored [] r i = absurd i
In-stored (y ∷ l) r (inl e) = (y, inl refl, e)
In-stored (y ∷ l) r (inr i) = let (x, j, e) = In-stored l r i in (x, inr j, e)

pub get_all-IsRowFor :
    (k : Text) (rib : Rib) (r : Route) → In r (get_all (some k) rib) → IsRowFor k r
unfolding get_all
get_all-IsRowFor k rib r i =
    let (x, j, e) = In-stored (filter (λ (s : Route). s.prefix == k) rib.rows) r i in
    let at_key : x.prefix ≡ k =
      (list_beq_iff x.prefix k).0 (In-filter (λ (s : Route). s.prefix == k) x rib.rows j).1 in
    (ap (λ (s : Route). s.prefix) e ∙ at_key, ap stored e ∙ (stored_twice x ∙ sym e))

-- After `delete(key)` no row of the prefix is left, and the rows of any other prefix are as before.
pub get_all-delete :
    (k key : Text) (rib : Rib)
    → get_all (some k) (delete key rib) ≡ (if k == key then [] else get_all (some k) rib)
unfolding get_all delete
get_all-delete k key rib = elim (Bool-cases (k == key)) [
  | inl t ↦
      let same : k ≡ key = (list_beq_iff k key).0 t in
      rw t (rw same (ap (map stored) (filter_delete_self key rib.rows)))
  | inr f ↦ rw f (ap (map stored) (filter_delete_other k key rib.rows f))
]

-- After `rib[key] = item` the rows of `key` are the old ones, in their order, and the new one
-- behind them; the rows of any other prefix are as before.
pub get_all-add :
    (k key : Text) (item : Route) (rib : Rib)
    → get_all (some k) (add key item rib)
      ≡ (if k == key then get_all (some k) rib ++ row_for key item ∷ [] else get_all (some k) rib)
unfolding get_all add filter
get_all-add k key item rib =
    ap (map stored) (filter-append (λ (r : Route). r.prefix == k) rib.rows (keyed key item ∷ []))
    ∙ elim (Bool-cases (k == key)) [
      | inl t ↦
          rw (beq_comm key k, t)
            (map-append stored (filter (λ (r : Route). r.prefix == k) rib.rows)
              (keyed key item ∷ []))
      | inr f ↦ rw (beq_comm key k, f) (ap (map stored) (append-nil _))
    ]

-- After `rib[key] = item` the read `rib[key]` gives the oldest row of the prefix: the one that it gave
-- before, or if there was none the new one, with the values as the columns give them.
pub get-add :
    (key : Text) (item : Route) (rib : Rib)
    → get key (add key item rib)
      ≡ (elim (get key rib) [ none ↦ some (row_for key item) | some old ↦ some old ])
unfolding get
get-add key item rib =
    rw (get_all-add key key item rib, beq_refl key) (first_snoc (get_all (some key) rib))
  where
    first_snoc :
        (l : List Route)
        → fetchone (l ++ row_for key item ∷ [])
          ≡ (elim (fetchone l) [ none ↦ some (row_for key item) | some old ↦ some old ])
    first_snoc [] = refl
    first_snoc (r ∷ rs) = refl

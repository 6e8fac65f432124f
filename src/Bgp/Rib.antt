-- ===== src/Bgp/Rib.antt =====
-- bgp/rib.py: a table of routes in a database, with the changes of the open transaction.
-- `select` without an order gives the rows in the order of their insertion. A column of type text gives
-- a number as its digits, and one of type integer or boolean gives the digits of a number as that
-- number. Texts of numbers with a sign, a point, an exponent,
-- blanks around them or more than 63 bits are left out.
pub mod Laws
use ixp_irc.Prelude.{
  ℕ, Bool, true, false, not, List, [], ◌∷◌, ◌++◌, map, Option, none, some, nat_eq, list_eq, ◌==◌,
  filter, contains, if◌then◌else◌, Result, ok, raise, database_error,
}
use ixp_irc.Bgp.Text.{Text, str}
use ixp_irc.Bgp.Inet.{digits}

-- A value of a column.
pub data Scalar : Type 0 where
  null : Scalar
  number : ℕ → Scalar
  text : Text → Scalar

pub record Route : Type 0 where
  pub prefix : Text
  pub next_hop : Text
  pub origin : Scalar
  pub as_path : Text
  pub med : Scalar
  pub atomic_aggregate : Scalar

-- A value as the column gives it that it was put into: `origin` is of type text,
unfoldable pub in_text_column : Scalar → Scalar
unfolding str
in_text_column null = null
in_text_column (number n) = text (str n)
in_text_column (text t) = text t

-- `med` of type integer and `atomic_aggregate` of type boolean.
unfoldable pub in_number_column : Scalar → Scalar
unfolding digits
in_number_column null = null
in_number_column (number n) = number n
in_number_column (text t) = elim (digits 10 t) [ none ↦ text t | some n ↦ number n ]

-- A row as `select` gives it.
abbrev pub stored : Route → Route
stored r = record r {
  origin = in_text_column r.origin;
  med = in_number_column r.med;
  atomic_aggregate = in_number_column r.atomic_aggregate;
}

-- `rows` is what the connection sees, with the values as they were put there, and `committed` what
-- `rollback` goes back to.
pub record Rib : Type 0 where
  pub rows : List Route
  pub committed : List Route

-- A table whose file is new; the file of an earlier run would still have its rows.
abbrev pub empty : Rib
empty = record { rows = []; committed = [] }

-- The columns that hold text, by which the program filters and updates.
pub data TextColumn : Type 0 where
  prefix_column next_hop_column as_path_column : TextColumn

abbrev pub column : TextColumn → Route → Text
column prefix_column r = r.prefix
column next_hop_column r = r.next_hop
column as_path_column r = r.as_path

abbrev pub set_column : TextColumn → Text → Route → Route
set_column prefix_column v r = record r { prefix = v }
set_column next_hop_column v r = record r { next_hop = v }
set_column as_path_column v r = record r { as_path = v }

-- The row that `add` and `update_many` write: the attributes of the item under the key.
abbrev pub keyed : Text → Route → Route
keyed key item = record item { prefix = key }

unfoldable pub add : Text → Route → Rib → Rib
add key item rib = record rib { rows = rib.rows ++ keyed key item ∷ [] }

-- `cursor.execute` binds the list of rows to the six places of one statement, and raises.
unfoldable pub add_many : List Route → Rib → Result Rib
add_many items rib = raise database_error

unfoldable pub get_all : Option Text → Rib → List Route
unfolding filter in_text_column in_number_column
get_all none rib = map stored rib.rows
get_all (some key) rib = map stored (filter (λ r. r.prefix == key) rib.rows)

-- `cursor.fetchone()`: the first row, or None
abbrev pub fetchone : List Route → Option Route
fetchone [] = none
fetchone (r ∷ rs) = some r

unfoldable pub get : Text → Rib → Option Route
get key rib = fetchone (get_all (some key) rib)

-- A quote in a value would end the literal of the statement; such values are refused here.
abbrev pub quoted : Text → Bool
quoted v = contains 39 v

unfoldable pub filter_rows : TextColumn → Text → Rib → Result (List Route)
unfolding filter contains in_text_column in_number_column
filter_rows item value rib =
    if quoted value
    then raise database_error
    else ok (map stored (filter (λ r. column item r == value) rib.rows))

abbrev pub where_prefix : Text → (Route → Route) → List Route → List Route
where_prefix key f = map (λ r. if r.prefix == key then f r else r)

unfoldable pub update : Text → TextColumn → Text → Rib → Result Rib
unfolding contains
update key item value rib =
    if quoted value
    then raise database_error
    else if quoted key
    then raise database_error
    else ok (record rib { rows = where_prefix key (set_column item value) rib.rows })

unfoldable pub update_many : Text → Route → Rib → Rib
update_many key item rib = record rib { rows = where_prefix key (λ r. keyed key item) rib.rows }

unfoldable pub delete : Text → Rib → Rib
unfolding filter
delete key rib = record rib { rows = filter (λ r. not (r.prefix == key)) rib.rows }

unfoldable pub delete_all : Rib → Rib
delete_all rib = record rib { rows = [] }

unfoldable pub commit : Rib → Rib
commit rib = record rib { committed = rib.rows }

unfoldable pub rollback : Rib → Rib
rollback rib = record rib { rows = rib.committed }

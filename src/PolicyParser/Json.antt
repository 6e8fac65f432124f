-- ===== src/PolicyParser/Json.antt =====
-- The decoded JSON of the policies, and what Python does with its values: `in`, `for`, `str`. A value
-- is a text, a number or a list of texts, a text is ASCII, without quotes and backslashes where `str`
-- writes the list that it is in.
use ixp_irc.Prelude.{
  ℕ, Bool, false, List, [], ◌∷◌, ◌++◌, map, nat_eq, list_eq, ◌==◌, contains, Dict, Result, ok,
  raise, type_error,
}
use ixp_irc.Bgp.Text.{Text, is_part, codes, str, join}

pub data Json : Type 0 where
  number : ℕ → Json
  text : Text → Json
  texts : List Text → Json

-- An object, with its keys.
abbrev pub Object : Type 0
Object = Dict Text Json

-- `name in value`
unfoldable pub is_in : Text → Json → Result Bool
unfolding is_part contains
is_in name (number n) = raise type_error
is_in name (text whole) = ok (is_part name whole)
is_in name (texts names) = ok (contains name names)

-- `value == name`
abbrev pub is_text : Text → Json → Bool
is_text name (number n) = false
is_text name (text t) = t == name
is_text name (texts names) = false

-- What a loop over the value goes through.
unfoldable pub members : Json → Result (List Text)
members (number n) = raise type_error
members (text t) = ok (map (λ c. c ∷ []) t)
members (texts names) = ok names

-- `str(value)`; the texts of decoded JSON are `unicode`
unfoldable pub str_json : Json → Text
unfolding str join
str_json (number n) = str n
str_json (text t) = t
str_json (texts names) =
    codes "[" ++ (join (codes ", ") (map (λ t. codes "u'" ++ (t ++ codes "'")) names) ++ codes "]")

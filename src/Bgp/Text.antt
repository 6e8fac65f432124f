-- ===== src/Bgp/Text.antt =====
-- Texts as lists of code points, and what the route server does with them: `str.split`, `str.join`,
-- `str` of a number, and the texts of a JSON `as-path` (bgp/peer.py) and their length and first
-- item (bgp/decision_process.py).
pub mod Ases
use Prim.Native.Char.{code}
use Prim.Native.String.{String}
use ixp_irc.Prelude.{
  ℕ, zero, suc, ◌+◌, ◌/◌, ◌%◌, Bool, true, false, ◌&&◌, ◌||◌, not, List, [], ◌∷◌, ◌++◌, map, nat_eq,
  leb, ltb, eqb, if◌then◌else◌, contains, filter, is_nil, length, Result, ok, raise, index_error,
}

abbrev pub Text : Type 0
Text = List ℕ

-- A literal.
abbrev pub codes : String → Text
codes String.[] = []
codes (String.◌∷◌ c s) = code c ∷ codes s

-- The characters at which `unicode.split()` splits, up to U+00FF.
unfoldable pub is_space : ℕ → Bool
is_space c = (leb 9 c && leb c 13) || (leb 28 c && leb c 32) || eqb c 133 || eqb c 160

-- The words that follow, where `word` is the part of a word read so far.
unfoldable pub words_from : Text → Text → List Text
unfolding is_space
words_from word [] = if is_nil word then [] else word ∷ []
words_from word (c ∷ cs) =
    let skip = words_from [] cs in
    let more = words_from (word ++ c ∷ []) cs in
    if is_space c then (if is_nil word then skip else word ∷ skip) else more

-- `text.split()`
unfoldable pub split : Text → List Text
unfolding words_from
split = words_from []

unfoldable pub join : Text → List Text → Text
join sep [] = []
join sep (w ∷ []) = w
join sep (w ∷ v ∷ ws) = w ++ (sep ++ join sep (v ∷ ws))

-- `str(n)`; a number has at most as many digits as its value, and one
unfoldable pub str_from : ℕ → ℕ → Text
str_from zero n = []
str_from (suc fuel) n =
    let rest = str_from fuel (n / 10) in
    if ltb n 10 then (b'0' + n) ∷ [] else rest ++ (b'0' + n % 10) ∷ []

unfoldable pub str : ℕ → Text
unfolding str_from
str n = str_from (suc n) n

-- An item of a JSON `as-path`: a number, or a segment of numbers.
pub data AsItem : Type 0 where
  as_number : ℕ → AsItem
  segment : List ℕ → AsItem

unfoldable pub str_item : AsItem → Text
unfolding str join
str_item (as_number n) = str n
str_item (segment ns) = b'[' ∷ join (b',' ∷ b' ' ∷ []) (map str ns) ++ b']' ∷ []

-- `' '.join(map(str,as_path)).replace('[','').replace(']','').replace(',','')`
unfoldable pub as_path_text : List AsItem → Text
unfolding str_item join filter contains
as_path_text path =
    filter (λ c. not (contains c (b'[' ∷ b']' ∷ b',' ∷ []))) (join (b' ' ∷ []) (map str_item path))

unfoldable pub aspath_length : Text → ℕ
unfolding split
aspath_length as_path = length (split as_path)

unfoldable pub get_advertised_as : Text → Result Text
unfolding split
get_advertised_as as_path = elim (split as_path) [ [] ↦ raise index_error | a ∷ ases ↦ ok a ]

unfoldable pub starts_with : Text → Text → Bool
starts_with [] cs = true
starts_with (d ∷ ds) [] = false
starts_with (d ∷ ds) (c ∷ cs) = eqb d c && starts_with ds cs

-- `part in whole` for two texts
unfoldable pub is_part : Text → Text → Bool
unfolding starts_with
is_part part [] = starts_with part []
is_part part (c ∷ cs) = starts_with part (c ∷ cs) || is_part part cs

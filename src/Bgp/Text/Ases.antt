-- ===== src/Bgp/Text/Ases.antt =====
-- The AS path that the peer writes as a text and the decision process reads (bgp/peer.py,
-- bgp/decision_process.py).
use ixp_irc.Prelude.{
  ℕ, zero, suc, ◌+◌, ◌/◌, ◌%◌, ◌≤◌, ◌<◌, Bool, true, false, not, List, [], ◌∷◌, ◌++◌, map,
  append-nil, append_assoc, nat_eq, ltb, if◌then◌else◌, contains, filter, filter-append, is_nil,
  length, Result, ok, raise, index_error, All, ◌≡◌, refl, sym, ap, ◌∙◌, arith, Bool-cases, inl, inr,
  ltb→lt,
}
use ixp_irc.Bgp.Text.{
  Text, is_space, words_from, split, join, str_from, str, AsItem, as_number, segment, str_item,
  as_path_text, aspath_length, get_advertised_as,
}

-- The numbers of the path, in their order.
abbrev pub as_numbers : List AsItem → List ℕ
as_numbers [] = []
as_numbers (as_number n ∷ path) = n ∷ as_numbers path
as_numbers (segment ns ∷ path) = ns ++ as_numbers path

abbrev IsDigit : ℕ → Type 0
IsDigit c = (48 ≤ c) × (c ≤ 57)

abbrev keeps : ℕ → Bool
keeps c = not (contains c (b'[' ∷ b']' ∷ b',' ∷ []))

digit_kept : (c : ℕ) → IsDigit c → keeps c ≡ true
unfolding contains
digit_kept c h = ground arith

digit_no_space : (c : ℕ) → IsDigit c → is_space c ≡ false
unfolding is_space
digit_no_space c h = ground arith

All-append {ℓ} : (P : ℕ → Type ℓ) (xs ys : Text) → All P xs → All P ys → All P (xs ++ ys)
All-append P [] ys h k = k
All-append P (x ∷ xs) ys h k = (h.0, All-append P xs ys h.1 k)

str_from-IsDigit : (fuel n : ℕ) → All IsDigit (str_from fuel n)
unfolding str_from
str_from-IsDigit zero n = tt
str_from-IsDigit (suc fuel) n = elim (Bool-cases (ltb n 10)) [
  | inl t ↦ let small : n < 10 = ltb→lt n 10 t in rw (t, str_from) ((omega arith, omega arith), tt)
  | inr f ↦
      rw (f, str_from)
        (All-append IsDigit (str_from fuel (n / 10)) ((48 + n % 10) ∷ [])
          (str_from-IsDigit fuel (n / 10)) ((omega arith, omega arith), tt))
]

filter-digits : (w : Text) → All IsDigit w → filter keeps w ≡ w
unfolding filter
filter-digits [] h = refl
filter-digits (c ∷ w) h = rw (digit_kept c h.0, filter) (ap (λ x. c ∷ x) (filter-digits w h.1))

words_from-digits :
    (word w rest : Text) → All IsDigit w → words_from word (w ++ rest) ≡ words_from (word ++ w) rest
unfolding words_from
words_from-digits word [] rest h = ap (λ x. words_from x rest) (sym (append-nil word))
words_from-digits word (c ∷ w) rest h =
    rw (digit_no_space c h.0, words_from)
      (words_from-digits (word ++ c ∷ []) w rest h.1
        ∙ ap (λ x. words_from x rest) (append_assoc word (c ∷ []) w))

-- A blank between two texts.
words_from-blank :
    (word t rest : Text)
    → words_from word (t ++ 32 ∷ rest) ≡ words_from word t ++ words_from [] rest
unfolding words_from is_space
words_from-blank [] [] rest = refl
words_from-blank (x ∷ word) [] rest = refl
words_from-blank word (c ∷ t) rest = elim (Bool-cases (is_space c)) [
  | inl s ↦ rw (s, words_from) (after_word (is_nil word) (words_from-blank [] t rest))
  | inr s ↦ rw (s, words_from) (words_from-blank (word ++ c ∷ []) t rest)
]
  where
    after_word :
        (b : Bool)
        → words_from [] (t ++ 32 ∷ rest) ≡ words_from [] t ++ words_from [] rest
        → (if b then words_from [] (t ++ 32 ∷ rest) else word ∷ words_from [] (t ++ 32 ∷ rest))
          ≡ (if b then words_from [] t else word ∷ words_from [] t) ++ words_from [] rest
    after_word true h = h
    after_word false h = ap (λ x. word ∷ x) h

-- The words of all texts.
all_words : List Text → List Text
all_words [] = []
all_words (t ∷ ts) = split t ++ all_words ts

split-join : (ts : List Text) → split (join (32 ∷ []) ts) ≡ all_words ts
unfolding split join all_words words_from
split-join [] = refl
split-join (t ∷ []) = sym (append-nil (words_from [] t))
split-join (t ∷ u ∷ ts) =
    words_from-blank [] t (join (32 ∷ []) (u ∷ ts))
    ∙ ap (λ x. words_from [] t ++ x) (split-join (u ∷ ts))

not_empty : (fuel n : ℕ) → is_nil (str_from (suc fuel) n) ≡ false
unfolding str_from
not_empty fuel n = elim (Bool-cases (ltb n 10)) [
  | inl t ↦ rw (t, str_from) refl
  | inr f ↦ rw (f, str_from) (snoc (str_from fuel (n / 10)) (48 + n % 10))
]
  where
    snoc : (l : Text) (c : ℕ) → is_nil (l ++ c ∷ []) ≡ false
    snoc [] c = refl
    snoc (x ∷ l) c = refl

split-str : (n : ℕ) → split (str n) ≡ str n ∷ []
unfolding split str words_from
split-str n =
    ap (words_from []) (sym (append-nil (str_from (suc n) n)))
    ∙ (words_from-digits [] (str_from (suc n) n) [] (str_from-IsDigit (suc n) n)
        ∙ rw (not_empty n n) refl)

filter-str : (n : ℕ) → filter keeps (str n) ≡ str n
unfolding str
filter-str n = filter-digits (str_from (suc n) n) (str_from-IsDigit (suc n) n)

-- The separators of the texts that lists and paths are written with come out as blanks.
filter-join :
    (sep : Text) (ts : List Text)
    → filter keeps sep ≡ 32 ∷ []
    → filter keeps (join sep ts) ≡ join (32 ∷ []) (map (filter keeps) ts)
unfolding join filter
filter-join sep [] h = refl
filter-join sep (t ∷ []) h = refl
filter-join sep (t ∷ u ∷ ts) h =
    filter-append keeps t (sep ++ join sep (u ∷ ts))
    ∙ ap (λ x. filter keeps t ++ x)
        (filter-append keeps sep (join sep (u ∷ ts))
          ∙ (ap (λ x. x ++ filter keeps (join sep (u ∷ ts))) h
              ∙ ap (λ x. 32 ∷ x) (filter-join sep (u ∷ ts) h)))

map-filter-str : (ns : List ℕ) → map (filter keeps) (map str ns) ≡ map str ns
map-filter-str [] = refl
map-filter-str (n ∷ ns) = rw (filter-str n) (ap (λ x. str n ∷ x) (map-filter-str ns))

all_words-str : (ns : List ℕ) → all_words (map str ns) ≡ map str ns
unfolding all_words
all_words-str [] = refl
all_words-str (n ∷ ns) = rw (split-str n) (ap (λ x. str n ∷ x) (all_words-str ns))

split-item :
    (item : AsItem) → split (filter keeps (str_item item)) ≡ map str (as_numbers (item ∷ []))
unfolding str_item filter contains
split-item (as_number n) = ap split (filter-str n) ∙ split-str n
split-item (segment ns) =
    ap split (
      filter-append keeps (join (b',' ∷ b' ' ∷ []) (map str ns)) (b']' ∷ [])
      ∙ (append-nil _
          ∙ (filter-join (b',' ∷ b' ' ∷ []) (map str ns) refl
              ∙ ap (join (32 ∷ [])) (map-filter-str ns))))
    ∙ (split-join (map str ns) ∙ (all_words-str ns ∙ ap (map str) (sym (append-nil ns))))

map-append : (ns ms : List ℕ) → map str (ns ++ ms) ≡ map str ns ++ map str ms
map-append [] ms = refl
map-append (n ∷ ns) ms = ap (λ x. str n ∷ x) (map-append ns ms)

as_numbers-cons :
    (item : AsItem) (path : List AsItem)
    → as_numbers (item ∷ path) ≡ as_numbers (item ∷ []) ++ as_numbers path
as_numbers-cons (as_number n) path = refl
as_numbers-cons (segment ns) path = sym (ap (λ x. x ++ as_numbers path) (append-nil ns))

all_words-items :
    (path : List AsItem)
    → all_words (map (filter keeps) (map str_item path)) ≡ map str (as_numbers path)
unfolding all_words
all_words-items [] = refl
all_words-items (item ∷ path) =
    ap (λ x. x ++ all_words (map (filter keeps) (map str_item path))) (split-item item)
    ∙ (ap (λ x. map str (as_numbers (item ∷ [])) ++ x) (all_words-items path)
        ∙ (sym (map-append (as_numbers (item ∷ [])) (as_numbers path))
            ∙ ap (map str) (sym (as_numbers-cons item path))))

split-as_path_text : (path : List AsItem) → split (as_path_text path) ≡ map str (as_numbers path)
unfolding as_path_text contains filter
split-as_path_text path =
    ap split (filter-join (b' ' ∷ []) (map str_item path) refl)
    ∙ (split-join (map (filter keeps) (map str_item path)) ∙ all_words-items path)

length-map : (ns : List ℕ) → length (map str ns) ≡ length ns
length-map [] = refl
length-map (n ∷ ns) = ap suc (length-map ns)

-- The first number of a path, as a text; an empty path has none.
abbrev pub first_text : List ℕ → Result Text
first_text [] = raise index_error
first_text (n ∷ ns) = ok (str n)

advertised_first :
    (t : Text) (ns : List ℕ) → split t ≡ map str ns → get_advertised_as t ≡ first_text ns
unfolding get_advertised_as
advertised_first t [] h = rw (h, get_advertised_as) refl
advertised_first t (n ∷ ns) h = rw (h, get_advertised_as) refl

-- From the text that the peer stores for a path of numbers and segments of numbers the decision process
-- reads the path back: `aspath_length` is the number of the ASes in it, and `get_advertised_as` the first
-- one, with an IndexError if there is none.
pub aspath_length-as_path_text :
    (path : List AsItem)
    → (aspath_length (as_path_text path) ≡ length (as_numbers path))
      × (get_advertised_as (as_path_text path) ≡ first_text (as_numbers path))
unfolding aspath_length
aspath_length-as_path_text path = (
  ap length (split-as_path_text path) ∙ length-map (as_numbers path),
  advertised_first (as_path_text path) (as_numbers path) (split-as_path_text path),
)

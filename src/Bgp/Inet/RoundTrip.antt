-- ===== src/Bgp/Inet/RoundTrip.antt =====
-- `ip_to_long` reads back what `long_to_ip` writes (bgp/decision_process.py).
use ixp_irc.Prelude.{
  ◌≤◌, ◌⊎◌, ℕ, zero, suc, ◌+◌, ◌*◌, ◌/◌, ◌%◌, ◌^◌, ◌<◌, Bool, true, false, ◌&&◌, not, List, [], ◌∷◌,
  ◌++◌, Option, none, some, ◌≡◌, refl, sym, ap, ◌∙◌, arith, eqb, eqb_iff, ltb, every, ok, raise,
  struct_error, ltb→lt, append_assoc, append-nil, Bool-cases, inl, inr,
}
use ixp_irc.Bgp.Text.{Text}
use ixp_irc.Bgp.Inet.{
  c_number, parts_from, address_of, ip_to_long, byte_text, inet_ntoa, long_to_ip,
}

-- The test holds of each byte under the bound.
every_byte : (ℕ → Bool) → ℕ → Bool
every_byte test zero = true
every_byte test (suc bound) = every_byte test bound && test bound

every_byte_lem :
    (test : ℕ → Bool) (bound b : ℕ) → b < bound → every_byte test bound ≡ true → test b ≡ true
unfolding every_byte
every_byte_lem test zero b low h = absurd (omega arith)
every_byte_lem test (suc bound) b low h = elim (Bool-cases (eqb b bound)) [
  | inl t ↦ let same : b ≡ bound = (eqb_iff b bound).0 t in rw same (ground arith)
  | inr f ↦ every_byte_lem test bound b (ground arith) (ground arith)
]

-- The text of the byte is a number with its value.
is_value : ℕ → Option ℕ → Bool
is_value b none = false
is_value b (some n) = eqb n b

is_value_sound : (b : ℕ) (o : Option ℕ) → is_value b o ≡ true → o ≡ some b
unfolding is_value
is_value_sound b none h = cc
is_value_sound b (some n) h = ap some ((eqb_iff n b).0 h)

no_dot : ℕ → Bool
no_dot b = every (λ c. not (eqb c b'.')) (byte_text b)

reads_back_table : every_byte (λ b. is_value b (c_number (byte_text b))) 256 ≡ true
unfolding every_byte is_value c_number byte_text
reads_back_table = refl

no_dot_table : every_byte no_dot 256 ≡ true
unfolding every_byte no_dot byte_text every
no_dot_table = refl

c_number-byte_text : (b : ℕ) → b < 256 → c_number (byte_text b) ≡ some b
c_number-byte_text b h =
    is_value_sound b (c_number (byte_text b))
      (every_byte_lem (λ x. is_value x (c_number (byte_text x))) 256 b h reads_back_table)

parts_from_run :
    (w part rest : Text)
    → every (λ c. not (eqb c b'.')) w ≡ true
    → parts_from part (w ++ rest) ≡ parts_from (part ++ w) rest
unfolding every parts_from
parts_from_run [] part rest h = rw (append-nil part)
parts_from_run (c ∷ w) part rest h = elim (Bool-cases (eqb c b'.')) [
  | inl t ↦ absurd (ground arith)
  | inr f ↦
      rw f
        (parts_from_run w (part ++ c ∷ []) rest (ground arith) ∙ rw (append_assoc part (c ∷ []) w))
]

no_dot_byte : (b : ℕ) → b < 256 → every (λ c. not (eqb c b'.')) (byte_text b) ≡ true
unfolding no_dot
no_dot_byte b h = every_byte_lem no_dot 256 b h no_dot_table

parts_from_last : (b : ℕ) → b < 256 → parts_from [] (byte_text b) ≡ some (b ∷ [])
unfolding parts_from
parts_from_last b h =
    ap (parts_from []) (sym (append-nil (byte_text b)))
    ∙ parts_from_run (byte_text b) [] [] (no_dot_byte b h)
    ∙ rw (c_number-byte_text b h, parts_from)

parts_from_next :
    (b : ℕ) (rest : Text) (ns : List ℕ)
    → b < 256
    → parts_from [] rest ≡ some ns
    → parts_from [] (byte_text b ++ b'.' ∷ rest) ≡ some (b ∷ ns)
unfolding parts_from
parts_from_next b rest ns h q =
    parts_from_run (byte_text b) [] (b'.' ∷ rest) (no_dot_byte b h)
    ∙ rw (c_number-byte_text b h, parts_from, q)

parts-inet_ntoa :
    (n : ℕ)
    → n < 2 ^ 32
    → parts_from [] (inet_ntoa n)
      ≡ some (n / 2 ^ 24 ∷ n / 2 ^ 16 % 256 ∷ n / 256 % 256 ∷ n % 256 ∷ [])
unfolding inet_ntoa
parts-inet_ntoa n h = parts_from_next (n / 2 ^ 24) _ _ (omega arith) (
    parts_from_next (n / 2 ^ 16 % 256) _ _ (omega arith)
      (parts_from_next (n / 256 % 256) _ _ (omega arith) (parts_from_last (n % 256) (omega arith))))

address_of_bytes :
    (a b c d : ℕ)
    → a < 256
    → b < 256
    → c < 256
    → d < 256
    → address_of (a ∷ b ∷ c ∷ d ∷ []) ≡ some (a * 2 ^ 24 + b * 2 ^ 16 + c * 256 + d)
unfolding address_of
address_of_bytes a b c d ha hb hc hd = ground arith

ip_to_long_lem :
    (t : Text) (ns : List ℕ) (n : ℕ)
    → parts_from [] t ≡ some ns
    → address_of ns ≡ some n
    → ip_to_long t ≡ ok n
unfolding ip_to_long
ip_to_long_lem t ns n p q = rw (p, ip_to_long) (rw (q, ip_to_long))

-- The text that `inet_ntoa` writes for a number of 32 bits is read as that number.
pub ip_to_long-inet_ntoa : (n : ℕ) → n < 2 ^ 32 → ip_to_long (inet_ntoa n) ≡ ok n
ip_to_long-inet_ntoa n h = ip_to_long_lem (inet_ntoa n) _ n (parts-inet_ntoa n h) (
    address_of_bytes (n / 2 ^ 24) (n / 2 ^ 16 % 256) (n / 256 % 256) (n % 256) (omega arith)
      (omega arith) (omega arith) (omega arith)
    ∙ ap some (omega arith))

-- A number of 32 bits is written by `long_to_ip` as a text that `ip_to_long` reads as that number; for
-- any other number `long_to_ip` raises.
pub ip_to_long-long_to_ip :
    (n : ℕ)
    → ((n < 2 ^ 32) × ((t : Text) × (long_to_ip n ≡ ok t) × (ip_to_long t ≡ ok n)))
      ⊎ ((2 ^ 32 ≤ n) × (long_to_ip n ≡ raise struct_error))
unfolding long_to_ip
ip_to_long-long_to_ip n = elim (Bool-cases (ltb n (2 ^ 32))) [
  | inl l ↦
      let small : n < 2 ^ 32 = ltb→lt n (2 ^ 32) l in
      inl (small, (inet_ntoa n, rw (l, long_to_ip) refl, ip_to_long-inet_ntoa n small))
  | inr f ↦ inr (ground arith, rw (f, long_to_ip) refl)
]

pub long_to_ip_lem : (n : ℕ) → n < 2 ^ 32 → long_to_ip n ≡ ok (inet_ntoa n)
unfolding long_to_ip
long_to_ip_lem n h = ground arith

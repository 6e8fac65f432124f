-- ===== src/Bgp/Inet.antt =====
-- `ip_to_long` and `long_to_ip` of bgp/decision_process.py: `socket.inet_aton` and `inet_ntoa` as
-- numbers. `inet_aton` takes one to four parts, each decimal, octal (`0…`) or hexadecimal (`0x…`);
-- the last part fills the bytes that are left. Text behind a blank, which the C library also lets
-- pass, is not modelled.
pub mod RoundTrip
use ixp_irc.Prelude.{
  ℕ, zero, suc, ◌+◌, ◌-◌, ◌*◌, ◌/◌, ◌%◌, ◌^◌, ◌<◌, Bool, true, false, ◌&&◌, ◌||◌, List, [], ◌∷◌,
  ◌++◌, Option, none, some, ◌≡◌, refl, leb, ltb, eqb, if◌then◌else◌, Result, ok, raise,
  socket_error, struct_error,
}
use ixp_irc.Bgp.Text.{Text, codes}

-- The value of a digit of any base up to 16.
unfoldable pub digit_value : ℕ → Option ℕ
digit_value c =
    if leb b'0' c && leb c b'9'
    then some (c - b'0')
    else if leb b'a' c && leb c b'f'
    then some (c - b'a' + 10)
    else if leb b'A' c && leb c b'F'
    then some (c - b'A' + 10)
    else none

unfoldable pub digits_from : ℕ → ℕ → Text → Option ℕ
unfolding digit_value
digits_from base acc [] = some acc
digits_from base acc (c ∷ cs) = elim (digit_value c) [
  | none ↦ none
  | some v ↦ if ltb v base then digits_from base (acc * base + v) cs else none
]

unfoldable pub digits : ℕ → Text → Option ℕ
unfolding digits_from
digits base [] = none
digits base (c ∷ cs) = digits_from base 0 (c ∷ cs)

-- a number as C writes it
unfoldable pub c_number : Text → Option ℕ
unfolding digits
c_number [] = none
c_number (c ∷ []) = digits 10 (c ∷ [])
c_number (c ∷ d ∷ cs) =
    if eqb c b'0'
    then (if eqb d b'x' || eqb d b'X' then digits 16 cs else digits 8 (d ∷ cs))
    else digits 10 (c ∷ d ∷ cs)

-- The numbers between the dots; `part` is what has been read of the current one.
unfoldable pub parts_from : Text → Text → Option (List ℕ)
unfolding c_number
parts_from part [] = elim (c_number part) [ none ↦ none | some n ↦ some (n ∷ []) ]
parts_from part (c ∷ cs) =
    let next = parts_from [] cs in
    let more = parts_from (part ++ c ∷ []) cs in
    if eqb c b'.'
    then elim (c_number part) [
      | none ↦ none
      | some n ↦ elim next [ none ↦ none | some ns ↦ some (n ∷ ns) ]
    ]
    else more

unfoldable pub address_of : List ℕ → Option ℕ
address_of (a ∷ []) = if ltb a (2 ^ 32) then some a else none
address_of (a ∷ b ∷ []) = if ltb a 256 && ltb b (2 ^ 24) then some (a * 2 ^ 24 + b) else none
address_of (a ∷ b ∷ c ∷ []) =
    if ltb a 256 && ltb b 256 && ltb c (2 ^ 16) then some (a * 2 ^ 24 + b * 2 ^ 16 + c) else none
address_of (a ∷ b ∷ c ∷ d ∷ []) =
    if ltb a 256 && ltb b 256 && ltb c 256 && ltb d 256
    then some (a * 2 ^ 24 + b * 2 ^ 16 + c * 256 + d)
    else none
address_of _ = none

unfoldable pub ip_to_long : Text → Result ℕ
unfolding parts_from address_of
ip_to_long ip = elim (parts_from [] ip) [
  | none ↦ raise socket_error
  | some ns ↦ elim (address_of ns) [ none ↦ raise socket_error | some n ↦ ok n ]
]

-- A byte in decimal.
unfoldable pub byte_text : ℕ → Text
byte_text b =
    if ltb b 10
    then (b'0' + b) ∷ []
    else if ltb b 100
    then (b'0' + b / 10) ∷ (b'0' + b % 10) ∷ []
    else (b'0' + b / 100) ∷ (b'0' + b / 10 % 10) ∷ (b'0' + b % 10) ∷ []

-- The four bytes of a number below 2 ^ 32, as `inet_ntoa` writes them.
unfoldable pub inet_ntoa : ℕ → Text
unfolding byte_text
inet_ntoa n =
    byte_text (n / 2 ^ 24)
    ++ b'.'
      ∷ (byte_text (n / 2 ^ 16 % 256)
          ++ b'.' ∷ (byte_text (n / 256 % 256) ++ b'.' ∷ byte_text (n % 256)))

-- `struct.pack('!L', n)` takes a number of 32 bits.
unfoldable pub long_to_ip : ℕ → Result Text
unfolding inet_ntoa
long_to_ip n = if ltb n (2 ^ 32) then ok (inet_ntoa n) else raise struct_error

ip_to_long_sample :
    (ip_to_long (codes "128.64.32.16") ≡ ok 0x80402010)
    × (long_to_ip 0x80402010 ≡ ok (codes "128.64.32.16"))
    × (ip_to_long (codes "010.1") ≡ ok 0x08000001)
unfolding ip_to_long long_to_ip
ip_to_long_sample = (refl, refl, refl)

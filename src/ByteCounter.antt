-- ===== src/ByteCounter.antt =====
-- pending/byte_counter.py: the table of the bytes that were received for an address from a participant,
-- and the callback that writes it. No text of a key has a quote.
pub mod Records
pub mod Rates
pub mod Tests
use ixp_irc.Prelude.{
  ℕ, zero, suc, ◌+◌, ◌-◌, ◌*◌, ◌/◌, Bool, true, false, ◌&&◌, ltb, eqb, any, List, [], ◌∷◌, ◌++◌,
  map, Option, none, some, nat_eq, list_eq, ◌==◌, Dict, if◌then◌else◌, Result, ok, raise,
  zero_division_error, ◌>>=◌,
}
use ixp_irc.Bgp.Text.{Text, codes, starts_with}
use ixp_irc.Vnh.State.{PhysicalPort}

pub data ℤ : Type 0 where
  pos : ℕ → ℤ
  negsuc : ℕ → ℤ

-- `a - b`
abbrev pub difference : ℕ → ℕ → ℤ
difference a b = if ltb a b then negsuc (b - a - 1) else pos (a - b)

-- `n / k` for integers, which rounds down
abbrev pub quotient : ℤ → ℕ → ℤ
quotient (pos n) k = pos (n / k)
quotient (negsuc n) k = negsuc (n / k)

-- `n * 8`
abbrev pub times_8 : ℤ → ℤ
times_8 (pos n) = pos (n * 8)
times_8 (negsuc n) = negsuc (n * 8 + 7)

-- A row of `traffic_count`.
pub record Count : Type 0 where
  pub ip : Text
  pub from_as : Text
  pub bps : ℤ
  pub total : Option ℕ

abbrev pub Key : Type 0
Key = Text × Text

abbrev pub is_for : Key → Count → Bool
is_for key r = r.ip == key.0 && r.from_as == key.1

unfoldable pub get_count_record : Key → List Count → Option Count
get_count_record key [] = none
get_count_record key (r ∷ rows) =
    let rest = get_count_record key rows in if is_for key r then some r else rest

unfoldable pub add_count_record : Key → ℤ → ℕ → List Count → List Count
add_count_record key bps total rows =
    rows ++ record { ip = key.0; from_as = key.1; bps = bps; total = some total } ∷ []

unfoldable pub update_count_record : Key → ℤ → ℕ → List Count → List Count
update_count_record key bps total =
    map (λ r. if is_for key r then record r { bps = bps; total = some total } else r)

abbrev pub old_total : Option ℕ → ℕ
old_total none = 0
old_total (some n) = n

-- A division by 0 raises.
unfoldable pub rate : ℕ → Option ℕ → ℕ → Result ℤ
rate total old zero = raise zero_division_error
rate total old (suc i) = ok (times_8 (quotient (difference total (old_total old)) (suc i)))

unfoldable pub add_or_update_count : Key → ℕ → ℕ → List Count → Result (List Count)
unfolding get_count_record add_count_record update_count_record rate
add_or_update_count key total interval rows = elim (get_count_record key rows) [
  | none ↦ ok (add_count_record key (pos 0) total rows)
  | some old ↦ rate total old.total interval >>= λ bps. ok (update_count_record key bps total rows)
]

abbrev pub interval : ℕ
interval = 2

-- The ports of the participants.
abbrev pub Ports : Type 0
Ports = Dict Text (List PhysicalPort)

-- `__get_AS`
unfoldable pub get_as : ℕ → Ports → Option Text
unfolding any
get_as inport [] = none
get_as inport ((participant, ports) ∷ rest) =
    let later = get_as inport rest in
    if any (λ (p : PhysicalPort). eqb inport p.id) ports then some participant else later

-- `str(from_AS)`
abbrev pub str_as : Option Text → Text
str_as none = codes "None"
str_as (some name) = name

-- An entry of the counted packets; what the match lacks or has as `None` is `none`.
pub record Measurement : Type 0 where
  pub inport : Option ℕ
  pub dstip : Option Text
  pub byte_count : ℕ

-- The key under which an entry is counted, if it is.
unfoldable pub key_of : Ports → Measurement → Option Key
unfolding get_as starts_with
key_of ports m = elim m.inport [
  | none ↦ none
  | some inport ↦ elim m.dstip [
    | none ↦ none
    | some ip ↦
        if starts_with (codes "172.0.0.") ip then none else some (ip, str_as (get_as inport ports))
  ]
]

-- `__count_callback`
unfoldable pub count_callback : Ports → List Measurement → List Count → Result (List Count)
unfolding key_of add_or_update_count
count_callback ports [] rows = ok rows
count_callback ports (m ∷ ms) rows = elim (key_of ports m) [
  | none ↦ count_callback ports ms rows
  | some key ↦ add_or_update_count key m.byte_count interval rows >>= λ counted.
      count_callback ports ms counted
]

-- ===== src/ByteCounter/Rates.antt =====
-- What the table of the received bytes has after measurements (pending/byte_counter.py).
use native.Mathlib.Nat.{div-mul-le_self, lt-div-mul-add}
use ixp_irc.Prelude.{
  ℕ, zero, suc, ◌+◌, ◌-◌, ◌*◌, ◌/◌, ◌≤◌, ◌<◌, Bool, true, false, List, [], ◌∷◌, Option, none, some,
  nat_eq, list_eq, if◌then◌else◌, ltb, ◌≡◌, refl, ap, ◌∙◌, arith, Bool-cases, Option-cases, inl,
  inr, ◌⊎◌, ok, raise, zero_division_error, bind_of, bind_raise,
}
use ixp_irc.ByteCounter.{
  ℤ, pos, negsuc, Count, Key, get_count_record, add_count_record, update_count_record, old_total,
  quotient, times_8, rate, add_or_update_count, interval, Ports, Measurement, key_of,
  count_callback,
}
use ixp_irc.ByteCounter.Records.{
  read_of, reading, same_key, new_row, add-same, add-other, update-same, update-other,
}

-- `x` is eight times the quotient of `total - old` by `i`, rounded down.
abbrev pub IsRate : ℕ → ℕ → ℕ → ℤ → Type 0
IsRate total old i (pos n) =
    (q : ℕ) × (n ≡ 8 * q) × (old + q * i ≤ total) × (total < old + (q * i + i))
IsRate total old i (negsuc n) =
    (q : ℕ) × (n + 1 ≡ 8 * (q + 1)) × (old ≤ total + (q * i + i)) × (total + q * i < old)

-- The rate for a key: 0 if it has no row.
abbrev pub IsNextRate : Option (ℤ × Option ℕ) → ℕ → ℕ → ℤ → Type 0
IsNextRate none total i x = x ≡ pos 0
IsNextRate (some old) total i x = IsRate total (old_total old.1) i x

rounded_down :
    (total old k : ℕ) (b : Bool)
    → 0 < k
    → ltb total old ≡ b
    → IsRate total old k
        (times_8 (quotient (if b then negsuc (old - total - 1) else pos (total - old)) k))
rounded_down total old k true p h =
    let n = old - total - 1 in
    let q = n / k in
    let low : q * k ≤ n = div-mul-le_self n k in
    let high : n < q * k + k = lt-div-mul-add p in
    let less : total < old = ground arith in (q, omega arith, omega arith, omega arith)
rounded_down total old k false p h =
    let n = total - old in
    let q = n / k in
    let low : q * k ≤ n = div-mul-le_self n k in
    let high : n < q * k + k = lt-div-mul-add p in
    let most : old ≤ total = ground arith in (q, omega arith, omega arith, omega arith)

rate_lem :
    (total i : ℕ) (old : Option ℕ)
    → ((rate total old i ≡ raise zero_division_error) × (i ≡ 0))
      ⊎ ((x : ℤ) × (rate total old i ≡ ok x) × IsRate total (old_total old) i x)
unfolding rate
rate_lem total zero old = inl (refl, refl)
rate_lem total (suc i) old = inr (
  _,
  refl,
  rounded_down total (old_total old) (suc i) (ltb total (old_total old)) (omega arith) refl,
)

read_of-new :
    (k : Key) (bps : ℤ) (total : ℕ) → read_of (some (new_row k bps total)) ≡ some (bps, some total)
unfolding new_row
read_of-new k bps total = refl

-- The readings after a measurement: the key's is new, the others are as before.
abbrev pub IsRead : Key → ℤ → ℕ → List Count → List Count → Type 0
IsRead k x total rows rows' =
    (j : Key) → reading j rows' ≡ (if same_key j k then some (x, some total) else reading j rows)

-- A measurement raises a ZeroDivisionError exactly where the interval is 0 and the key has a row. Else
-- the key has the new total and, as its rate, 0 if it had no row, and eight times the difference of
-- the totals divided by the interval, rounded down, if it had one; the readings of all other keys are as
-- before.
pub reading-add_or_update_count :
    (k : Key) (total i : ℕ) (rows : List Count)
    → ((add_or_update_count k total i rows ≡ raise zero_division_error)
        × (i ≡ 0)
        × ((old : ℤ × Option ℕ) × (reading k rows ≡ some old)))
      ⊎ ((rows' : List Count) × (x : ℤ) × (add_or_update_count k total i rows ≡ ok rows')
          × IsNextRate (reading k rows) total i x
          × IsRead k x total rows rows')
unfolding add_or_update_count
reading-add_or_update_count k total i rows = elim (Option-cases (get_count_record k rows)) [
  | inl q ↦ inr (
    add_count_record k (pos 0) total rows,
    pos 0,
    rw (q, add_or_update_count) refl,
    rw q refl,
    λ j. elim (Bool-cases (same_key j k)) [
      | inl y ↦
          rw y (ap read_of (add-same j k (pos 0) total rows y q) ∙ read_of-new k (pos 0) total)
      | inr n ↦ rw n (ap read_of (add-other j k (pos 0) total rows n))
    ],
  )
  | inr (old, q) ↦ elim (rate_lem total i old.total) [
    | inl (e, z) ↦
        inl (rw (q, add_or_update_count) (bind_raise _ e), z, ((old.bps, old.total), ap read_of q))
    | inr (x, e, r) ↦ inr (
      update_count_record k x total rows,
      x,
      rw (q, add_or_update_count) (bind_of _ e),
      rw q r,
      λ j. elim (Bool-cases (same_key j k)) [
        | inl y ↦ rw y (update-same j k x total rows y q)
        | inr n ↦ rw n (ap read_of (update-other j k x total rows n))
      ],
    )
  ]
]

-- The total that the last measurement of the key gives, if there is one.
abbrev pub latest : Key → Ports → List Measurement → Option (Option ℕ) → Option (Option ℕ)
latest j ports [] before = before
latest j ports (m ∷ ms) before = latest j ports ms (elim (key_of ports m) [
  | none ↦ before
  | some k ↦ if same_key j k then some (some m.byte_count) else before
])

abbrev pub total_of : Option (ℤ × Option ℕ) → Option (Option ℕ)
total_of none = none
total_of (some r) = some r.1

total_after :
    (b : Bool) (x : ℤ) (total : ℕ) (before : Option (ℤ × Option ℕ))
    → total_of (if b then some (x, some total) else before)
      ≡ (if b then some (some total) else total_of before)
total_after true x total before = refl
total_after false x total before = refl

-- A callback returns, and after it each key has the total of the last of its measurements, if one of
-- them is counted under it, and else what it had.
pub count_callback-latest :
    (ports : Ports) (ms : List Measurement) (rows : List Count)
    → (rows' : List Count) × (count_callback ports ms rows ≡ ok rows')
      × ((j : Key) → total_of (reading j rows') ≡ latest j ports ms (total_of (reading j rows)))
unfolding count_callback
count_callback-latest ports [] rows = (rows, refl, λ j. refl)
count_callback-latest ports (m ∷ ms) rows = elim (Option-cases (key_of ports m)) [
  | inl q ↦
      let (rows', e, r) = count_callback-latest ports ms rows in
      (rows', rw (q, count_callback) e, λ j. rw q (r j))
  | inr (k, q) ↦ elim (reading-add_or_update_count k m.byte_count interval rows) [
    | inl (e, z, old) ↦ cc z
    | inr (counted, x, e, rate_is, read) ↦
        let (rows', e', r) = count_callback-latest ports ms counted in
        (
          rows',
          rw (q, count_callback) (bind_of _ e ∙ e'),
          λ j.
              r j
              ∙ rw q (
                  ap (latest j ports ms) (
                    ap total_of (read j)
                    ∙ total_after (same_key j k) x m.byte_count (reading j rows))),
        )
  ]
]

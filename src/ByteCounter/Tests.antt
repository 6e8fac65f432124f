-- ===== src/ByteCounter/Tests.antt =====
-- Small inputs of pending/byte_counter.py.
use ixp_irc.Prelude.{
  ℕ, ◌⊎◌, Option, ok, raise, zero_division_error, List, [], ◌∷◌, some, nat_eq, list_eq, any, refl,
  ◌≡◌,
}
use ixp_irc.Bgp.Text.{codes, starts_with}
use ixp_irc.ByteCounter.{
  ℤ, Count, Key, Ports, Measurement, pos, add_or_update_count, count_callback, get_count_record,
}
use ixp_irc.ByteCounter.Records.{reading}
use ixp_irc.ByteCounter.Rates.{
  IsNextRate, IsRead, latest, total_of, reading-add_or_update_count, count_callback-latest,
}

abbrev ports : Ports
ports =
    (codes "A", record { id = 1; mac = codes "08:00:27:89:3b:9f"; ip = codes "172.0.0.1" } ∷ [])
    ∷ []

abbrev key_a : Key
key_a = (codes "100.0.0.1", codes "A")

abbrev counted_at : List Measurement
counted_at =
    record { inport = some 1; dstip = some (codes "100.0.0.1"); byte_count = 1000 }
    ∷ record { inport = some 1; dstip = some (codes "172.0.0.2"); byte_count = 77 }
    ∷ record { inport = some 1; dstip = some (codes "100.0.0.1"); byte_count = 3000 }
    ∷ []

-- 2000 bytes in two seconds
after_two :
    count_callback ports counted_at []
    ≡ ok (record { ip = key_a.0; from_as = key_a.1; bps = pos 8000; total = some 3000 } ∷ [])
unfolding count_callback get_count_record starts_with any
after_two = refl

count_callback-latest_example :
    (rows : List Count) × (count_callback ports counted_at [] ≡ ok rows)
    × ((j : Key) → total_of (reading j rows) ≡ latest j ports counted_at (total_of (reading j [])))
count_callback-latest_example = count_callback-latest ports counted_at []

abbrev one_row : List Count
one_row = record { ip = key_a.0; from_as = key_a.1; bps = pos 0; total = some 1000 } ∷ []

reading-add_or_update_count_example :
    ((add_or_update_count key_a 3000 2 one_row ≡ raise zero_division_error)
      × (◌≡◌ {A = ℕ} 2 0)
      × ((old : ℤ × Option ℕ) × (reading key_a one_row ≡ some old)))
    ⊎ ((rows : List Count) × (x : ℤ) × (add_or_update_count key_a 3000 2 one_row ≡ ok rows)
        × IsNextRate (reading key_a one_row) 3000 2 x
        × IsRead key_a x 3000 one_row rows)
reading-add_or_update_count_example = reading-add_or_update_count key_a 3000 2 one_row

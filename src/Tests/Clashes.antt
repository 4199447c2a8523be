-- ===== src/Tests/Clashes.antt =====
-- A clash of three ids that the constructor and three insertions make, and the id 0 after an erasure.
use orderbook_engine.Base.{ℕ, ◌≤◌, ◌^◌, ◌<◌, ◌≡◌, ◌≢◌, refl, arith, none, some, true, Bool}
use orderbook_engine.Base.Steps.{◌>>=◌}
use orderbook_engine.IdMap
use orderbook_engine.IdMap.{IdMap, fill_slot, find, insert, erase, vacate, capacity}
use orderbook_engine.IdMap.Circle.{step}
use orderbook_engine.IdMap.Clash.{IsClash, erase_loses, find_zero_stale}
use orderbook_engine.IdMap.Init.{new-IsOrdered}
use orderbook_engine.IdMap.Ordered.{home, IsOrdered, Stored, IsVacant}
use orderbook_engine.IdMap.Shape.{HasWidth}
use orderbook_engine.Tests.Setup.{program}
use orderbook_engine.Tests.Tables.{table, table-HasWidth}

abbrev lone : IdMap
lone = fill_slot table 0 (record { id = 3; value = some 0 })

abbrev crowded : IdMap
crowded =
    fill_slot (fill_slot lone 1 (record { id = 10; value = some 1 })) 2
      (record { id = 8; value = some 2 })

crowded_inserted :
    ◌>>=◌ {B = Bool × IdMap}
      (insert table 3 (some 0))
      (λ r. ◌>>=◌ {B = Bool × IdMap} (insert r.1 10 (some 1)) (λ r. insert r.1 8 (some 2)))
    ≡ some (true, crowded)
unfolding program
crowded_inserted = refl

crowded-HasWidth : HasWidth 3 crowded
crowded-HasWidth = record { width = table-HasWidth.width; pos = omega arith; bound = omega arith }

crowded-IsClash : IsClash 3 crowded 3 10 8 (some 0) (some 2)
unfolding program home step
crowded-IsClash = record {
  width = crowded-HasWidth;
  first = record {
    in_table = omega arith;
    ne_zero = omega arith;
    holds_id = refl;
    holds_value = refl;
  };
  second_ne = omega arith;
  second = refl;
  second_ideal = refl;
  third = record {
    in_table = omega arith;
    ne_zero = omega arith;
    holds_id = refl;
    holds_value = refl;
  };
  third_ideal = refl;
  apart = omega arith;
  first_other = omega arith;
  second_other = omega arith;
  room = omega arith;
}

erase_loses_example :
    (find crowded 8 ≡ some (some 2))
    × (erase crowded 3 ≡ some (true, vacate crowded (home 3 3)))
    × Stored 3 (vacate crowded (home 3 3)) 8 (some 2) (step (2 ^ 3) (step (2 ^ 3) (home 3 3)))
    × (find (vacate crowded (home 3 3)) 8 ≡ some none)
erase_loses_example = erase_loses 3 crowded 3 10 8 (some 0) (some 2) crowded-IsClash

lone-HasWidth : HasWidth 3 lone
lone-HasWidth = record { width = table-HasWidth.width; pos = omega arith; bound = omega arith }

lone-Stored : Stored 3 lone 3 (some 0) (home 3 0)
unfolding program home
lone-Stored = record {
  in_table = omega arith;
  ne_zero = omega arith;
  holds_id = refl;
  holds_value = refl;
}

three_home : home 3 3 ≡ home 3 0
unfolding program home
three_home = refl

alone : (lone.slots (step (2 ^ 3) (home 3 0))).id ≡ 0
unfolding program home step
alone = refl

find_zero_stale_example :
    (erase lone 3 ≡ some (true, vacate lone (home 3 0)))
    × (find (vacate lone (home 3 0)) 0 ≡ some (some 0))
find_zero_stale_example =
    find_zero_stale 3 lone 3 (some 0) lone-HasWidth lone-Stored three_home alone

new-IsOrdered_example :
    (k : ℕ) × IsOrdered k (IdMap.new 6)
    × (capacity (IdMap.new 6) ≡ 2 ^ k)
    × (6 ≤ 2 ^ k)
    × (2 ^ k < 12)
    × ((q : ℕ) → q < 2 ^ k → IsVacant k (IdMap.new 6) q)
    × ((x : ℕ) → x ≢ 0 → find (IdMap.new 6) x ≡ some none)
new-IsOrdered_example = new-IsOrdered 6 (omega arith) (omega arith)

-- ===== src/Tests/Tables.antt =====
-- The table of ids at small sizes: tables of eight slots, in which the ids 3, 8 and 24 have the ideal
-- slot 0, and 10 has the ideal slot 1.
use mathlib.Core.Path.{subst}
use orderbook_engine.Base.{
  ℕ, ◌+◌, ◌-◌, ◌%◌, ◌^◌, ◌<◌, ◌≡◌, ◌≢◌, refl, sym, arith, none, some, true, Bool, update,
}
use orderbook_engine.Base.Steps.{◌>>=◌}
use orderbook_engine.IdMap
use orderbook_engine.IdMap.{IdMap, fill_slot, find, insert, erase, vacate, capacity}
use orderbook_engine.IdMap.Circle.{step, walk, gap}
use orderbook_engine.IdMap.Contract.{find-erase, find-insert}
use orderbook_engine.IdMap.Init.{empty-IsOrdered}
use orderbook_engine.IdMap.Insert.{IsFirst, Fits, IsOrdered-fill}
use orderbook_engine.IdMap.Ordered.{
  home, profile, Follows, IsOrdered, Stored, Absent, IsVacant, profile-none,
}
use orderbook_engine.IdMap.Shape.{HasWidth}
use orderbook_engine.Tests.Setup.{program}

abbrev pub table : IdMap
table = IdMap.new 8

pub table-HasWidth : HasWidth 3 table
unfolding program
table-HasWidth = record { width = refl; pos = omega arith; bound = omega arith }

pub table-IsOrdered : IsOrdered 3 table
table-IsOrdered = empty-IsOrdered 3 table table-HasWidth (λ i. (unfold IdMap.new in refl))

abbrev one : IdMap
one = fill_slot table 0 (record { id = 3; value = some 0 })

abbrev two : IdMap
two = fill_slot one 1 (record { id = 8; value = some 1 })

two_inserted :
    ◌>>=◌ {B = Bool × IdMap} (insert table 3 (some 0)) (λ r. insert r.1 8 (some 1))
    ≡ some (true, two)
unfolding program
two_inserted = refl

pub table-IsVacant : (q : ℕ) → q < 8 → IsVacant 3 table q
unfolding IdMap.new
table-IsVacant q lt = record { in_table = lt; empty = refl }

pub table-Absent : (x : ℕ) → x ≢ 0 → Absent 3 table x
unfolding IdMap.new
table-Absent x nz j lt e = nz (sym e)

pub IsFirst-slot : IsFirst 3 table (IdMap.ideal_slot table 3) 0 0
unfolding program walk
IsFirst-slot = record {
  vacant = table-IsVacant 0 (omega arith);
  arrives = refl;
  full = λ e lt. absurd (omega arith);
  short = omega arith;
}

pub first-Fits : Fits 3 table 3 (some 0) 0
unfolding program home gap
first-Fits p lt e = subst (λ z. Follows z (some 0)) (sym (profile-none 3 table.slots p refl)) refl

find-insert_example :
    (insert table 3 (some 0) ≡ some (true, one))
    × IsOrdered 3 one
    × (one.size ≡ (table.size + 1) % 2 ^ 64)
    × (find one 3 ≡ some (some 0))
    × ((y : ℕ) → y ≢ 0 → y ≢ 3 → find one y ≡ find table y)
find-insert_example =
    find-insert 3 table 3 (some 0) 0 0 5 table-IsOrdered (omega arith)
      (table-Absent 3 (omega arith)) IsFirst-slot first-Fits (table-IsVacant 5 (omega arith))
      (omega arith)

one-IsOrdered : IsOrdered 3 one
one-IsOrdered =
    IsOrdered-fill 3 table 3 (some 0) 0 table-IsOrdered (omega arith) (table-Absent 3 (omega arith))
      (table-IsVacant 0 (omega arith)) first-Fits

one-Absent : Absent 3 one 8
unfolding update IdMap.new
one-Absent j lt e = ground arith

second-Fits : Fits 3 one 8 (some 1) 1
unfolding program home gap profile step
second-Fits p lt e =
    let z : p ≡ 0 = ground arith in
    subst (λ p. Follows (profile 3 one.slots p) (some 1)) (sym z) (omega arith)

two-IsOrdered : IsOrdered 3 two
two-IsOrdered =
    IsOrdered-fill 3 one 8 (some 1) 1 one-IsOrdered (omega arith) one-Absent
      (record { in_table = omega arith; empty = (unfold update IdMap.new in refl) }) second-Fits

two-Stored : Stored 3 two 3 (some 0) 0
unfolding update
two-Stored = record {
  in_table = omega arith;
  ne_zero = omega arith;
  holds_id = refl;
  holds_value = refl;
}

two-IsVacant : IsVacant 3 two 5
unfolding update IdMap.new
two-IsVacant = record { in_table = omega arith; empty = refl }

find-erase_example :
    (m' : IdMap) × (erase two 3 ≡ some (true, m'))
    × IsOrdered 3 m'
    × (m'.size ≡ (two.size + 2 ^ 64 - 1) % 2 ^ 64)
    × (find m' 3 ≡ some none)
    × ((y : ℕ) → y ≢ 0 → y ≢ 3 → find m' y ≡ find two y)
find-erase_example = find-erase 3 two 3 (some 0) 0 5 two-IsOrdered two-Stored two-IsVacant

-- ===== src/IdMap.antt =====
-- `OrderIdMap` of include/lob/order_id_map.hpp, at `T = Order`: open addressing with linear probing
-- and backshift deletion. The array of slots is a function from indices. Each endless loop runs on
-- as many rounds as there are slots; `none` says that it was still running then.
pub mod Circle
pub mod Shape
pub mod Ordered
pub mod Lookup
pub mod Insert
pub mod Hole
pub mod Move
pub mod Erase
pub mod Contract
pub mod Clash
pub mod Init
use Prim.Native.Nat.{bit_and, bit_xor}
use orderbook_engine.Base.{
  ℕ, zero, suc, ◌+◌, ◌-◌, ◌*◌, ◌/◌, ◌%◌, ◌^◌, Bool, true, false, Option, none, some, ltb, ◌==◌,
  if◌then◌else◌, update,
}
use orderbook_engine.Base.Steps.{◌>>=◌}
use orderbook_engine.Base.Word.{shl64, countl_zero}
use orderbook_engine.Orders.{Ptr}
use orderbook_engine.Types.{OrderId, invalid_order_id}

pub record Slot : Type 0 where
  pub id : OrderId
  pub value : Ptr

pub record IdMap : Type 0 where
  pub mask : ℕ
  pub slots : ℕ → Slot
  pub size : ℕ

-- `hash`: the finaliser of splitmix64.
unfoldable pub hash : OrderId → ℕ
hash x =
    let a = bit_xor x (x / 2 ^ 30) * 0xbf58476d1ce4e5b9 % 2 ^ 64 in
    let b = bit_xor a (a / 2 ^ 27) * 0x94d049bb133111eb % 2 ^ 64 in bit_xor b (b / 2 ^ 31)

unfoldable pub round_up_pow2 : ℕ → ℕ
round_up_pow2 n = if ltb n 2 then 2 else shl64 1 (64 - countl_zero 64 (n - 1))

-- `make_unique` zeroes both fields of every slot.
unfoldable pub new : ℕ → IdMap
new initial_capacity = record {
  mask = round_up_pow2 initial_capacity - 1;
  slots = λ i. record { id = invalid_order_id; value = none };
  size = 0;
}

-- `hash(id) & mask_`
unfoldable pub ideal_slot : IdMap → OrderId → ℕ
ideal_slot m id = bit_and (hash id) m.mask

-- `(i + 1) & mask_`
unfoldable pub next_slot : IdMap → ℕ → ℕ
next_slot m i = bit_and ((i + 1) % 2 ^ 64) m.mask

abbrev pub capacity : IdMap → ℕ
capacity m = m.mask + 1

unfoldable pub find_loop : (k : ℕ) → IdMap → OrderId → ℕ → Option Ptr
find_loop zero m id i = none
find_loop (suc k) m id i =
    let rest = find_loop k m id (next_slot m i) in
    let s = m.slots i in
    if s.id == id then some s.value else if s.id == invalid_order_id then some none else rest

unfoldable pub find : IdMap → OrderId → Option Ptr
find m id = find_loop (capacity m) m id (ideal_slot m id)

-- `s.id = id; s.value = value; ++size_;`
abbrev pub fill_slot : IdMap → ℕ → Slot → IdMap
fill_slot m i s = record m { slots = update m.slots i s; size = (m.size + 1) % 2 ^ 64 }

unfoldable pub insert_loop : (k : ℕ) → IdMap → OrderId → Ptr → ℕ → Option (Bool × IdMap)
insert_loop zero m id value i = none
insert_loop (suc k) m id value i =
    let rest = insert_loop k m id value (next_slot m i) in
    let s = m.slots i in
    if s.id == invalid_order_id
    then some (true, fill_slot m i (record { id = id; value = value }))
    else if s.id == id
    then some (false, m)
    else rest

-- The assertion that the id is not 0 comes first.
unfoldable pub insert : IdMap → OrderId → Ptr → Option (Bool × IdMap)
insert m id value =
    if id == invalid_order_id then none else insert_loop (capacity m) m id value (ideal_slot m id)

-- The first loop of `erase`: the slot of the id, or that an empty slot came first.
unfoldable pub locate_loop : (k : ℕ) → IdMap → OrderId → ℕ → Option (Option ℕ)
locate_loop zero m id i = none
locate_loop (suc k) m id i =
    let rest = locate_loop k m id (next_slot m i) in
    let s = m.slots i in
    if s.id == id then some (some i) else if s.id == invalid_order_id then some none else rest

-- `slots_[hole].id = kInvalidOrderId; --size_;`, which leaves the slot's pointer as it is.
abbrev pub vacate : IdMap → ℕ → IdMap
vacate m hole = record m {
  slots = update m.slots hole (record (m.slots hole) { id = invalid_order_id });
  size = (m.size + 2 ^ 64 - 1) % 2 ^ 64;
}

-- `(next - ideal) & mask_`, the distance of an entry at `next` from its ideal slot.
unfoldable pub displacement : IdMap → (next : ℕ) → OrderId → ℕ
displacement m next id = bit_and ((next + 2 ^ 64 - ideal_slot m id) % 2 ^ 64) m.mask

-- The second loop of `erase`.
unfoldable pub shift_loop : (k : ℕ) → IdMap → (hole : ℕ) → Option IdMap
shift_loop zero m hole = none
shift_loop (suc k) m hole =
    let next = next_slot m hole in
    let n = m.slots next in
    let rest = shift_loop k (record m { slots = update m.slots hole n }) next in
    if n.id == invalid_order_id
    then some (vacate m hole)
    else if displacement m next n.id == 0
    then some (vacate m hole)
    else rest

unfoldable pub erase_at : IdMap → Option ℕ → Option (Bool × IdMap)
erase_at m none = some (false, m)
erase_at m (some i) = shift_loop (capacity m) m i >>= λ m'. some (true, m')

unfoldable pub erase : IdMap → OrderId → Option (Bool × IdMap)
erase m id = locate_loop (capacity m) m id (ideal_slot m id) >>= erase_at m

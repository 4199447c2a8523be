-- ===== src/IdMap/Ordered.antt =====
-- Tables in which the entries of each run of occupied slots stand in the order of their ideal
-- slots. In such a table every entry is found, and stopping a backshift at an entry that is in its
-- ideal slot loses nothing.
use native.Mathlib.Nat.{pow-suc, one-le-pow, mod-lt}
use orderbook_engine.Base.{
  ℕ, zero, suc, ◌+◌, ◌%◌, ◌^◌, ◌≤◌, ◌<◌, ◌≡◌, ◌≢◌, refl, ◌∙◌, sym, ap, arith, Option, none, some,
  ◌==◌, if◌then◌else◌,
}
use orderbook_engine.IdMap.{IdMap, Slot, hash, ideal_slot}
use orderbook_engine.IdMap.Circle.{step, walk, gap, walk-suc}
use orderbook_engine.IdMap.Shape.{HasWidth, bit_and-width}
use orderbook_engine.Orders.{Ptr}

-- The ideal slot in a table of `2 ^ k` slots.
unfoldable pub home : (k id : ℕ) → ℕ
home k id = hash id % 2 ^ k

pub ideal_slot-home : (k : ℕ) (m : IdMap) (id : ℕ) → HasWidth k m → ideal_slot m id ≡ home k id
unfolding ideal_slot home
ideal_slot-home k m id w = bit_and-width k m (hash id) w

pub home-lt : (k id : ℕ) → home k id < 2 ^ k
unfolding home
home-lt k id = mod-lt (hash id) (one-le-pow k 2 (omega arith))

pub wide : (k : ℕ) → 1 ≤ k → 1 < 2 ^ k
wide zero h = absurd (omega arith)
wide (suc k) h = omega (arith, pow-suc 2 k, one-le-pow k 2 (omega arith))

-- How far the entry of a slot is from its ideal slot, if there is an entry.
unfoldable pub profile : (k : ℕ) → (ℕ → Slot) → ℕ → Option ℕ
profile k s i = if (s i).id == 0 then none else some (gap (2 ^ k) (home k (s i).id) i)

-- What may stand behind a slot: an entry at most one further from its ideal slot, and behind an
-- empty slot only one that is in it.
abbrev pub Follows : Option ℕ → Option ℕ → Type 0
Follows a none = Unit
Follows none (some d) = d ≡ 0
Follows (some c) (some d) = d ≤ c + 1

abbrev pub Chained : (k : ℕ) → (ℕ → Option ℕ) → Type 0
Chained k p = (i : ℕ) → i < 2 ^ k → Follows (p i) (p (step (2 ^ k) i))

-- No id stands in two slots.
abbrev pub HasUnique : (k : ℕ) → (ℕ → Slot) → Type 0
HasUnique k s = (i j : ℕ) → i < 2 ^ k → j < 2 ^ k → (s i).id ≢ 0 → (s i).id ≡ (s j).id → i ≡ j

pub record IsOrdered (k : ℕ) (m : IdMap) : Type 0 where
  pub width : HasWidth k m
  pub chained : Chained k (profile k m.slots)
  pub unique : HasUnique k m.slots

-- The slot `j` holds the id with the pointer `v`.
pub record Stored (k : ℕ) (m : IdMap) (id : ℕ) (v : Ptr) (j : ℕ) : Type 0 where
  pub in_table : j < 2 ^ k
  pub ne_zero : id ≢ 0
  pub holds_id : (m.slots j).id ≡ id
  pub holds_value : (m.slots j).value ≡ v

abbrev pub Absent : (k : ℕ) → IdMap → ℕ → Type 0
Absent k m id = (j : ℕ) → j < 2 ^ k → (m.slots j).id ≢ id

pub record IsVacant (k : ℕ) (m : IdMap) (q : ℕ) : Type 0 where
  pub in_table : q < 2 ^ k
  pub empty : (m.slots q).id ≡ 0

pub profile-some :
    (k : ℕ) (s : ℕ → Slot) (i : ℕ)
    → (s i).id ≢ 0
    → profile k s i ≡ some (gap (2 ^ k) (home k (s i).id) i)
unfolding profile
profile-some k s i ne = ground arith

pub profile-none : (k : ℕ) (s : ℕ → Slot) (i : ℕ) → (s i).id ≡ 0 → profile k s i ≡ none
unfolding profile
profile-none k s i e = ground arith

pub occupied_of_profile : (k : ℕ) (s : ℕ → Slot) (i c : ℕ) → profile k s i ≡ some c → (s i).id ≢ 0
unfolding profile
occupied_of_profile k s i c e z = ground arith

Follows-behind :
    (a b : Option ℕ) (c d : ℕ)
    → Follows a b
    → b ≡ some c
    → suc d ≤ c
    → (c' : ℕ) × (a ≡ some c') × (d ≤ c')
Follows-behind a none c d h e le = cc
Follows-behind none (some d') c d h e le = absurd (let q : d' ≡ c = cc in omega arith)
Follows-behind (some c') (some d') c d h e le = (c', refl, (let q : d' ≡ c = cc in omega arith))

-- Every slot from an entry back to its ideal slot is occupied.
pub occupied_behind :
    (k : ℕ) (p : ℕ → Option ℕ) (d i c : ℕ)
    → Chained k p
    → ((e : ℕ) → walk (2 ^ k) i e < 2 ^ k)
    → p (walk (2 ^ k) i d) ≡ some c
    → d ≤ c
    → (c' : ℕ) × (p i ≡ some c')
unfolding walk
occupied_behind k p zero i c ch inside e le = (c, e)
occupied_behind k p (suc d) i c ch inside e le =
    let n = 2 ^ k in
    let last = ap p (sym (walk-suc n i d)) ∙ e in
    let (c', e', le') =
      Follows-behind (p (walk n i d)) _ c d (ch (walk n i d) (inside d)) last le in
    occupied_behind k p d i c' ch inside e' le'

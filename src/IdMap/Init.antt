-- ===== src/IdMap/Init.antt =====
-- The empty table that the constructor makes.
use orderbook_engine.Base.{
  false, ℕ, zero, suc, ◌-◌, ◌*◌, ◌^◌, ◌≤◌, ◌<◌, ◌≡◌, ◌≢◌, refl, sym, ap, arith, none, some, ltb,
}
use orderbook_engine.Base.Word.{bit_width, countl_zero, shl_one, bit_width_bounds, bit_width-lt}
use orderbook_engine.IdMap.{IdMap, new, round_up_pow2, find, capacity}
use orderbook_engine.IdMap.Circle.{step}
use orderbook_engine.IdMap.Shape.{HasWidth, capacity-HasWidth}
use orderbook_engine.IdMap.Ordered.{IsOrdered, IsVacant, profile-none}
use orderbook_engine.IdMap.Lookup.{find-Absent}

one_le_exponent : (b c : ℕ) → c < 2 ^ b → 1 ≤ c → 1 ≤ b
one_le_exponent zero c lt le = absurd (omega arith)
one_le_exponent (suc b) c lt le = omega arith

-- The rounded capacity is a power of two, at least the one asked for and less than twice it.
round_up_pow2_lem :
    (n : ℕ)
    → 2 ≤ n
    → n ≤ 2 ^ 62
    → (k : ℕ) × (round_up_pow2 n ≡ 2 ^ k) × (1 ≤ k) × (k < 64) × (n ≤ 2 ^ k) × (2 ^ k < 2 * n)
unfolding round_up_pow2 countl_zero
round_up_pow2_lem n lo hi =
    let t : ltb n 2 ≡ false = ground arith in
    let b = bit_width 64 (n - 1) in
    let (above, below) = bit_width_bounds 64 (n - 1) (omega arith) (omega arith) in
    let le : b ≤ 62 = bit_width-lt 64 62 (n - 1) (omega arith) (omega arith) in
    let e : 64 - (64 - b) ≡ b = omega arith in
    (
      b,
      rw (t, e) (shl_one b (omega arith)),
      one_le_exponent b (n - 1) below (omega arith),
      omega arith,
      omega arith,
      omega arith,
    )

-- A table in which every slot is empty is ordered.
pub empty-IsOrdered :
    (k : ℕ) (m : IdMap) → HasWidth k m → ((i : ℕ) → (m.slots i).id ≡ 0) → IsOrdered k m
empty-IsOrdered k m w e = record {
  width = w;
  chained = λ i lt. rw (profile-none k m.slots (step (2 ^ k) i) (e (step (2 ^ k) i))) tt;
  unique = λ i j li lj ne q. absurd (ne (e i));
}

-- Of a capacity from 2 to 2 ^ 62 the constructor makes an ordered table of a power of two of slots, at least as many as asked for
-- and less than twice as many, in which every slot is empty and nothing is found.
pub new-IsOrdered :
    (n : ℕ)
    → 2 ≤ n
    → n ≤ 2 ^ 62
    → (k : ℕ) × IsOrdered k (new n)
      × (capacity (new n) ≡ 2 ^ k)
      × (n ≤ 2 ^ k)
      × (2 ^ k < 2 * n)
      × ((q : ℕ) → q < 2 ^ k → IsVacant k (new n) q)
      × ((x : ℕ) → x ≢ 0 → find (new n) x ≡ some none)
unfolding new
new-IsOrdered n lo hi =
    let (k, e, pos, bound, above, below) = round_up_pow2_lem n lo hi in
    let w : HasWidth k (new n) = record {
      width = ap (λ (t : ℕ). t - 1) e;
      pos = pos;
      bound = bound;
    } in
    let vacant : (q : ℕ) → q < 2 ^ k → IsVacant k (new n) q =
      (λ q lt. record { in_table = lt; empty = refl }) in
    (
      k,
      empty-IsOrdered k (new n) w (λ i. refl),
      capacity-HasWidth k (new n) w,
      above,
      below,
      vacant,
      λ x nz. find-Absent k (new n) x 0 w (vacant 0 (omega arith)) nz (λ j lt z. nz (sym z)),
    )

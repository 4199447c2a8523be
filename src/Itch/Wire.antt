-- ===== src/Itch/Wire.antt =====
-- The wire format of the messages that the parser unpacks, written as an encoder.
use mathlib.Core.Path.{subst}
use orderbook_engine.Base.{
  ℕ, zero, suc, ◌+◌, ◌/◌, ◌%◌, ◌^◌, ◌<◌, ◌≡◌, refl, ap, ◌∙◌, Bool, true, false, List, [], ◌∷◌, ◌++◌,
  length, length-append, arith,
}
use orderbook_engine.Itch.{Bytes, Event}
use orderbook_engine.Itch.Numbers.{number}
use orderbook_engine.Types.{Side}
use native.Mathlib.Nat.{pow-suc}

-- A number in `n` bytes, the most significant one first.
abbrev pub to_bytes : (n v : ℕ) → List ℕ
to_bytes zero v = []
to_bytes (suc n) v = to_bytes n (v / 256) ++ v % 256 ∷ []

-- `B` or `S`, and `Y` or `N`
abbrev pub side_byte : Side → ℕ
side_byte Side.buy = 66
side_byte Side.sell = 83

abbrev pub flag_byte : Bool → ℕ
flag_byte true = 89
flag_byte false = 78

-- The type, the locate code, the tracking number and the time.
abbrev pub header : (type locate tracking ts : ℕ) → List ℕ → List ℕ
header type locate tracking ts rest =
    type ∷ to_bytes 2 locate ++ (to_bytes 2 tracking ++ (to_bytes 6 ts ++ rest))

abbrev pub message : Event → List ℕ
message (Event.on_system_event e) = header 83 0 0 e.ts_ns (e.event_code ∷ [])
message (Event.on_stock_directory e) =
    header 82 e.stock_locate 0 e.ts_ns (e.stock ++ e.market_category ∷ [])
message (Event.on_add_order e) = header 65 e.stock_locate e.tracking_number e.ts_ns (
    to_bytes 8 e.order_ref
    ++ side_byte e.side ∷ to_bytes 4 e.shares
    ++ (e.stock ++ (to_bytes 4 e.price ++ [])))
message (Event.on_order_executed e) =
    header 69 e.stock_locate 0 e.ts_ns (
      to_bytes 8 e.order_ref ++ (to_bytes 4 e.executed_shares ++ (to_bytes 8 e.match_number ++ [])))
message (Event.on_order_executed_with_price e) = header 67 e.stock_locate 0 e.ts_ns (
    to_bytes 8 e.order_ref
    ++ (to_bytes 4 e.executed_shares
        ++ (to_bytes 8 e.match_number
            ++ flag_byte e.printable ∷ to_bytes 4 e.execution_price
            ++ [])))
message (Event.on_order_cancel e) =
    header 88 e.stock_locate 0 e.ts_ns
      (to_bytes 8 e.order_ref ++ (to_bytes 4 e.cancelled_shares ++ []))
message (Event.on_order_delete e) =
    header 68 e.stock_locate 0 e.ts_ns (to_bytes 8 e.order_ref ++ [])
message (Event.on_order_replace e) = header 85 e.stock_locate 0 e.ts_ns (
    to_bytes 8 e.original_order_ref
    ++ (to_bytes 8 e.new_order_ref ++ (to_bytes 4 e.shares ++ (to_bytes 4 e.price ++ []))))
message (Event.on_unhandled type size) = type ∷ []

-- Each message behind its length.
abbrev pub stream : List Event → List ℕ
stream [] = []
stream (e ∷ es) = to_bytes 2 (length (message e)) ++ (message e ++ stream es)

-- From the position on, the bytes are those of the list.
abbrev pub Spells : Bytes → ℕ → List ℕ → Type 0
Spells d p [] = Unit {0}
Spells d p (x ∷ xs) = (d p ≡ x) × Spells d (p + 1) xs

pub Spells-append :
    (d : Bytes) (xs ys : List ℕ) (p : ℕ)
    → Spells d p (xs ++ ys)
    → Spells d p xs × Spells d (p + length xs) ys
Spells-append d [] ys p s =
    (tt, subst (λ z. Spells d z ys) (let e : p ≡ p + 0 = omega arith in e) s)
Spells-append d (x ∷ xs) ys p (e, s) =
    let (a, b) = Spells-append d xs ys (p + 1) s in
    (
      (e, a),
      subst (λ z. Spells d z ys)
          (let e : p + 1 + length xs ≡ p + suc (length xs) = omega arith in e) b,
    )

pub length-to_bytes : (n v : ℕ) → length (to_bytes n v) ≡ n
length-to_bytes zero v = refl
length-to_bytes (suc n) v =
    omega (arith, length-append (to_bytes n (v / 256)) (v % 256 ∷ []), length-to_bytes n (v / 256))

-- The bytes of a number stand for it.
number-to_bytes :
    (d : Bytes) (n v p : ℕ) → v < 256 ^ n → Spells d p (to_bytes n v) → number n d p ≡ v
number-to_bytes d zero v p lt s = omega (arith, lt)
number-to_bytes d (suc n) v p lt s =
    let (a, b) = Spells-append d (to_bytes n (v / 256)) (v % 256 ∷ []) p s in
    let high = number-to_bytes d n (v / 256) p (omega (arith, lt, pow-suc 256 n)) a in
    let low : d (p + n) ≡ v % 256 =
      ap d (
        let e : p + n ≡ p + length (to_bytes n (v / 256)) =
          omega (arith, length-to_bytes n (v / 256)) in
        e)
      ∙ b.0 in
    omega (arith, high, low)

-- Reading a number of `n` bytes, which is followed by the rest.
pub number-Spells :
    (d : Bytes) (n v p p' : ℕ) (rest : List ℕ)
    → v < 256 ^ n
    → p' ≡ p + n
    → Spells d p (to_bytes n v ++ rest)
    → (number n d p ≡ v) × Spells d p' rest
number-Spells d n v p p' rest lt e s =
    let (a, b) = Spells-append d (to_bytes n v) rest p s in
    (
      number-to_bytes d n v p lt a,
      subst (λ z. Spells d z rest)
          (let f : p + length (to_bytes n v) ≡ p' = omega (arith, length-to_bytes n v, e) in f) b,
    )

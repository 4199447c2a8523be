-- ===== src/Itch/Messages.antt =====
-- The dispatch of a message that the wire format spells.
use mathlib.Core.Path.{subst}
use orderbook_engine.Base.{
  ℕ, ◌+◌, ◌^◌, ◌<◌, ◌≡◌, ◌≢◌, refl, sym, ap, ◌∙◌, Bool, true, false, List, [], ◌∷◌, ◌++◌, length,
  ◌==◌, ==_ne, if◌then◌else◌, arith,
}
use orderbook_engine.Itch.{
  Bytes, Event, be16, be32, be48, be64, read_symbol, read_system_event, read_stock_directory,
  read_add_order, read_order_executed, read_order_executed_with_price, read_order_cancel,
  read_order_delete, read_order_replace, dispatch,
}
use orderbook_engine.Itch.Numbers.{IsBytes, be-number}
use orderbook_engine.Itch.Wire.{
  to_bytes, side_byte, flag_byte, header, message, Spells, number-Spells,
}
use orderbook_engine.Types.{Side}

-- Eight bytes.
pub record IsSymbol (stock : List ℕ) : Type 0 where
  pub a : ℕ
  pub b : ℕ
  pub c : ℕ
  pub d : ℕ
  pub e : ℕ
  pub f : ℕ
  pub g : ℕ
  pub h : ℕ
  pub eight : stock ≡ a ∷ b ∷ c ∷ d ∷ e ∷ f ∷ g ∷ h ∷ []

-- The fields fit into their bytes. A message of another type has the type's byte only.
abbrev pub IsMessage : Event → Type 0
IsMessage (Event.on_system_event e) = e.ts_ns < 2 ^ 48
IsMessage (Event.on_stock_directory e) =
    (e.stock_locate < 2 ^ 16) × (e.ts_ns < 2 ^ 48) × IsSymbol e.stock
IsMessage (Event.on_add_order e) =
    (e.stock_locate < 2 ^ 16)
    × (e.tracking_number < 2 ^ 16)
    × (e.ts_ns < 2 ^ 48)
    × (e.order_ref < 2 ^ 64)
    × (e.shares < 2 ^ 32)
    × IsSymbol e.stock
    × (e.price < 2 ^ 32)
IsMessage (Event.on_order_executed e) =
    (e.stock_locate < 2 ^ 16)
    × (e.ts_ns < 2 ^ 48)
    × (e.order_ref < 2 ^ 64)
    × (e.executed_shares < 2 ^ 32)
    × (e.match_number < 2 ^ 64)
IsMessage (Event.on_order_executed_with_price e) =
    (e.stock_locate < 2 ^ 16)
    × (e.ts_ns < 2 ^ 48)
    × (e.order_ref < 2 ^ 64)
    × (e.executed_shares < 2 ^ 32)
    × (e.match_number < 2 ^ 64)
    × (e.execution_price < 2 ^ 32)
IsMessage (Event.on_order_cancel e) =
    (e.stock_locate < 2 ^ 16)
    × (e.ts_ns < 2 ^ 48)
    × (e.order_ref < 2 ^ 64)
    × (e.cancelled_shares < 2 ^ 32)
IsMessage (Event.on_order_delete e) =
    (e.stock_locate < 2 ^ 16) × (e.ts_ns < 2 ^ 48) × (e.order_ref < 2 ^ 64)
IsMessage (Event.on_order_replace e) =
    (e.stock_locate < 2 ^ 16)
    × (e.ts_ns < 2 ^ 48)
    × (e.original_order_ref < 2 ^ 64)
    × (e.new_order_ref < 2 ^ 64)
    × (e.shares < 2 ^ 32)
    × (e.price < 2 ^ 32)
IsMessage (Event.on_unhandled type size) =
    (size ≡ 1)
    × (type ≢ 83)
    × (type ≢ 82)
    × (type ≢ 65)
    × (type ≢ 70)
    × (type ≢ 69)
    × (type ≢ 67)
    × (type ≢ 88)
    × (type ≢ 68)
    × (type ≢ 85)

side-byte : (s : Side) → (if side_byte s == 66 then Side.buy else Side.sell) ≡ s
side-byte Side.buy = refl
side-byte Side.sell = refl

flag-byte : (b : Bool) → (flag_byte b == 89) ≡ b
flag-byte true = refl
flag-byte false = refl

module _ (d : Bytes) (bytes : IsBytes d) where
  pub read16 :
      (p p' v : ℕ) (rest : List ℕ)
      → v < 2 ^ 16
      → p' ≡ p + 2
      → Spells d p (to_bytes 2 v ++ rest)
      → (be16 d p ≡ v) × Spells d p' rest
  read16 p p' v rest lt e s =
      let (n, more) = number-Spells d 2 v p p' rest lt e s in ((be-number d p bytes).0 ∙ n, more)

  read32 :
      (p p' v : ℕ) (rest : List ℕ)
      → v < 2 ^ 32
      → p' ≡ p + 4
      → Spells d p (to_bytes 4 v ++ rest)
      → (be32 d p ≡ v) × Spells d p' rest
  read32 p p' v rest lt e s =
      let (n, more) = number-Spells d 4 v p p' rest lt e s in ((be-number d p bytes).1 ∙ n, more)

  read48 :
      (p p' v : ℕ) (rest : List ℕ)
      → v < 2 ^ 48
      → p' ≡ p + 6
      → Spells d p (to_bytes 6 v ++ rest)
      → (be48 d p ≡ v) × Spells d p' rest
  read48 p p' v rest lt e s =
      let (n, more) = number-Spells d 6 v p p' rest lt e s in ((be-number d p bytes).2 ∙ n, more)

  read64 :
      (p p' v : ℕ) (rest : List ℕ)
      → v < 2 ^ 64
      → p' ≡ p + 8
      → Spells d p (to_bytes 8 v ++ rest)
      → (be64 d p ≡ v) × Spells d p' rest
  read64 p p' v rest lt e s =
      let (n, more) = number-Spells d 8 v p p' rest lt e s in ((be-number d p bytes).3 ∙ n, more)

  read_header :
      (m t locate tracking ts : ℕ) (rest : List ℕ)
      → locate < 2 ^ 16
      → tracking < 2 ^ 16
      → ts < 2 ^ 48
      → Spells d m (header t locate tracking ts rest)
      → (d m ≡ t)
        × (be16 d (m + 1) ≡ locate)
        × (be16 d (m + 3) ≡ tracking)
        × (be48 d (m + 5) ≡ ts)
        × Spells d (m + 11) rest
  read_header m t locate tracking ts rest l₁ l₂ l₃ (type, s₀) =
      let time = to_bytes 6 ts ++ rest in
      let (a, s₁) =
        read16 (m + 1) (m + 3) locate (to_bytes 2 tracking ++ time) l₁ (omega arith) s₀ in
      let (b, s₂) = read16 (m + 3) (m + 5) tracking time l₂ (omega arith) s₁ in
      let (c, s₃) = read48 (m + 5) (m + 11) ts rest l₃ (omega arith) s₂ in (type, a, b, c, s₃)

  -- The byte at a place, and the rest behind it.
  read8 :
      (p p' x : ℕ) (rest : List ℕ)
      → p' ≡ p + 1
      → Spells d p (x ∷ rest)
      → (d p ≡ x) × Spells d p' rest
  read8 p p' x rest e (at, s) = (at, subst (λ z. Spells d z rest) (sym e) s)

  read_symbol-Spells :
      (p p' : ℕ) (stock rest : List ℕ)
      → IsSymbol stock
      → p' ≡ p + 8
      → Spells d p (stock ++ rest)
      → (read_symbol d p ≡ stock) × Spells d p' rest
  unfolding read_symbol
  read_symbol-Spells p p' stock rest y e s =
      let s₀ = subst (λ z. Spells d p (z ++ rest)) y.eight s in
      let (a, t₁) = s₀ in
      let (b, t₂) = t₁ in
      let (c, t₃) = t₂ in
      let (f, t₄) = t₃ in
      let (g, t₅) = t₄ in
      let (h, t₆) = t₅ in
      let (i, t₇) = t₆ in
      let (j, more) = t₇ in
      let c' : d (p + 2) ≡ y.c = ap d (omega arith) ∙ c in
      let f' : d (p + 3) ≡ y.d = ap d (omega arith) ∙ f in
      let g' : d (p + 4) ≡ y.e = ap d (omega arith) ∙ g in
      let h' : d (p + 5) ≡ y.f = ap d (omega arith) ∙ h in
      let i' : d (p + 6) ≡ y.g = ap d (omega arith) ∙ i in
      let j' : d (p + 7) ≡ y.h = ap d (omega arith) ∙ j in
      (
        rw (a, b, c', f', g', h', i', j') (sym y.eight),
        subst (λ z. Spells d z rest)
            (let end : p + 1 + 1 + 1 + 1 + 1 + 1 + 1 + 1 ≡ p' = omega (arith, e) in end) more,
      )

  pub dispatch-message :
      (e : Event) (m size : ℕ)
      → IsMessage e
      → size ≡ length (message e)
      → Spells d m (message e)
      → dispatch d m size ≡ e
  unfolding dispatch read_system_event read_stock_directory read_add_order read_order_executed
      read_order_executed_with_price read_order_cancel read_order_delete read_order_replace
  dispatch-message (Event.on_system_event e) m size l len s =
      let (t, _, _, c, s₁) =
        read_header m 83 0 0 e.ts_ns (e.event_code ∷ []) (omega arith) (omega arith) l s in
      rw (t, c, s₁.0) refl
  dispatch-message (Event.on_stock_directory e) m size (l₁, l₂, y) len s =
      let rest = e.market_category ∷ [] in
      let (t, a, _, c, s₁) =
        read_header m 82 e.stock_locate 0 e.ts_ns (e.stock ++ rest) l₁ (omega arith) l₂ s in
      let (f, s₂) = read_symbol-Spells (m + 11) (m + 19) e.stock rest y (omega arith) s₁ in
      rw (t, a, c, f, s₂.0) refl
  dispatch-message (Event.on_add_order e) m size (l₁, l₂, l₃, l₄, l₅, y, l₆) len s =
      let price = to_bytes 4 e.price ++ [] in
      let shares = to_bytes 4 e.shares ++ (e.stock ++ price) in
      let ref = to_bytes 8 e.order_ref ++ side_byte e.side ∷ shares in
      let (t, a, b, c, s₁) =
        read_header m 65 e.stock_locate e.tracking_number e.ts_ns ref l₁ l₂ l₃ s in
      let (f, s₂) =
        read64 (m + 11) (m + 19) e.order_ref (side_byte e.side ∷ shares) l₄ (omega arith) s₁ in
      let (g, s₃) = read8 (m + 19) (m + 20) (side_byte e.side) shares (omega arith) s₂ in
      let (h, s₄) = read32 (m + 20) (m + 24) e.shares (e.stock ++ price) l₅ (omega arith) s₃ in
      let (i, s₅) = read_symbol-Spells (m + 24) (m + 32) e.stock price y (omega arith) s₄ in
      let (j, _) = read32 (m + 32) (m + 36) e.price [] l₆ (omega arith) s₅ in
      rw (t, a, b, c, f, g, h, i, j)
        (ap (λ z. Event.on_add_order (record e { side = z })) (side-byte e.side))
  dispatch-message (Event.on_order_executed e) m size (l₁, l₂, l₃, l₄, l₅) len s =
      let number = to_bytes 8 e.match_number ++ [] in
      let shares = to_bytes 4 e.executed_shares ++ number in
      let ref = to_bytes 8 e.order_ref ++ shares in
      let (t, a, _, c, s₁) = read_header m 69 e.stock_locate 0 e.ts_ns ref l₁ (omega arith) l₂ s in
      let (f, s₂) = read64 (m + 11) (m + 19) e.order_ref shares l₃ (omega arith) s₁ in
      let (g, s₃) = read32 (m + 19) (m + 23) e.executed_shares number l₄ (omega arith) s₂ in
      let (h, _) = read64 (m + 23) (m + 31) e.match_number [] l₅ (omega arith) s₃ in
      rw (t, a, c, f, g, h) refl
  dispatch-message (Event.on_order_executed_with_price e) m size (l₁, l₂, l₃, l₄, l₅, l₆) len s =
      let price = to_bytes 4 e.execution_price ++ [] in
      let number = to_bytes 8 e.match_number ++ flag_byte e.printable ∷ price in
      let shares = to_bytes 4 e.executed_shares ++ number in
      let ref = to_bytes 8 e.order_ref ++ shares in
      let (t, a, _, c, s₁) = read_header m 67 e.stock_locate 0 e.ts_ns ref l₁ (omega arith) l₂ s in
      let (f, s₂) = read64 (m + 11) (m + 19) e.order_ref shares l₃ (omega arith) s₁ in
      let (g, s₃) = read32 (m + 19) (m + 23) e.executed_shares number l₄ (omega arith) s₂ in
      let (h, s₄) =
        read64 (m + 23) (m + 31) e.match_number (flag_byte e.printable ∷ price) l₅ (omega arith)
          s₃ in
      let (i, s₅) = read8 (m + 31) (m + 32) (flag_byte e.printable) price (omega arith) s₄ in
      let (j, _) = read32 (m + 32) (m + 36) e.execution_price [] l₆ (omega arith) s₅ in
      rw (t, a, c, f, g, h, i, j)
        (ap (λ z. Event.on_order_executed_with_price (record e { printable = z }))
          (flag-byte e.printable))
  dispatch-message (Event.on_order_cancel e) m size (l₁, l₂, l₃, l₄) len s =
      let shares = to_bytes 4 e.cancelled_shares ++ [] in
      let ref = to_bytes 8 e.order_ref ++ shares in
      let (t, a, _, c, s₁) = read_header m 88 e.stock_locate 0 e.ts_ns ref l₁ (omega arith) l₂ s in
      let (f, s₂) = read64 (m + 11) (m + 19) e.order_ref shares l₃ (omega arith) s₁ in
      let (g, _) = read32 (m + 19) (m + 23) e.cancelled_shares [] l₄ (omega arith) s₂ in
      rw (t, a, c, f, g) refl
  dispatch-message (Event.on_order_delete e) m size (l₁, l₂, l₃) len s =
      let ref = to_bytes 8 e.order_ref ++ [] in
      let (t, a, _, c, s₁) = read_header m 68 e.stock_locate 0 e.ts_ns ref l₁ (omega arith) l₂ s in
      let (f, _) = read64 (m + 11) (m + 19) e.order_ref [] l₃ (omega arith) s₁ in
      rw (t, a, c, f) refl
  dispatch-message (Event.on_order_replace e) m size (l₁, l₂, l₃, l₄, l₅, l₆) len s =
      let price = to_bytes 4 e.price ++ [] in
      let shares = to_bytes 4 e.shares ++ price in
      let new_ref = to_bytes 8 e.new_order_ref ++ shares in
      let ref = to_bytes 8 e.original_order_ref ++ new_ref in
      let (t, a, _, c, s₁) = read_header m 85 e.stock_locate 0 e.ts_ns ref l₁ (omega arith) l₂ s in
      let (f, s₂) = read64 (m + 11) (m + 19) e.original_order_ref new_ref l₃ (omega arith) s₁ in
      let (g, s₃) = read64 (m + 19) (m + 27) e.new_order_ref shares l₄ (omega arith) s₂ in
      let (h, s₄) = read32 (m + 27) (m + 31) e.shares price l₅ (omega arith) s₃ in
      let (i, _) = read32 (m + 31) (m + 35) e.price [] l₆ (omega arith) s₄ in
      rw (t, a, c, f, g, h, i) refl
  dispatch-message (Event.on_unhandled type n) m size (one, a, b, c, e, f, g, h, i, j) len (t, _) =
      let a' : (type == 83) ≡ false = ==_ne type 83 a in
      let b' : (type == 82) ≡ false = ==_ne type 82 b in
      let c' : (type == 65) ≡ false = ==_ne type 65 c in
      let e' : (type == 70) ≡ false = ==_ne type 70 e in
      let f' : (type == 69) ≡ false = ==_ne type 69 f in
      let g' : (type == 67) ≡ false = ==_ne type 67 g in
      let h' : (type == 88) ≡ false = ==_ne type 88 h in
      let i' : (type == 68) ≡ false = ==_ne type 68 i in
      let j' : (type == 85) ≡ false = ==_ne type 85 j in
      rw (t, a', b', c', e', f', g', h', i', j')
        (ap (λ z. Event.on_unhandled type z) (len ∙ sym one))

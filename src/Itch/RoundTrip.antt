-- ===== src/Itch/RoundTrip.antt =====
-- The parser reads back what the wire format spells.
use orderbook_engine.Base.{
  ℕ, zero, suc, ◌+◌, ◌^◌, ◌<◌, ◌≡◌, refl, ap, ◌∙◌, true, false, some, List, [], ◌∷◌, ◌++◌, length,
  length-append, leb, ltb, arith,
}
use orderbook_engine.Base.Steps.{>>=-some}
use orderbook_engine.Itch.{Bytes, Event, emit, parse_loop, parse}
use orderbook_engine.Itch.Messages.{IsSymbol, IsMessage, read16, dispatch-message}
use orderbook_engine.Itch.Numbers.{IsBytes}
use orderbook_engine.Itch.Wire.{to_bytes, message, stream, Spells, Spells-append}

abbrev pub AreMessages : List Event → Type 0
AreMessages [] = Unit {0}
AreMessages (e ∷ es) = IsMessage e × AreMessages es

length-stock : (stock rest : List ℕ) → IsSymbol stock → length (stock ++ rest) ≡ 8 + length rest
length-stock stock rest y =
    length-append stock rest
    ∙ (let e : length stock ≡ 8 = ap (λ (z : List ℕ). length z) y.eight in omega (arith, e))

length-message : (e : Event) → IsMessage e → length (message e) < 2 ^ 16
length-message (Event.on_system_event e) l = omega arith
length-message (Event.on_stock_directory e) (l₁, l₂, y) =
    omega (arith, length-stock e.stock (e.market_category ∷ []) y)
length-message (Event.on_add_order e) (l₁, l₂, l₃, l₄, l₅, y, l₆) =
    omega (arith, length-stock e.stock (to_bytes 4 e.price ++ []) y)
length-message (Event.on_order_executed e) l = omega arith
length-message (Event.on_order_executed_with_price e) l = omega arith
length-message (Event.on_order_cancel e) l = omega arith
length-message (Event.on_order_delete e) l = omega arith
length-message (Event.on_order_replace e) l = omega arith
length-message (Event.on_unhandled type n) l = omega arith

parse_loop-stream :
    (d : Bytes) (k len pos : ℕ) (es : List Event)
    → IsBytes d
    → AreMessages es
    → Spells d pos (stream es)
    → len ≡ pos + length (stream es)
    → length (stream es) < k
    → parse_loop k d len pos ≡ some es
unfolding parse_loop
parse_loop-stream d zero len pos es bytes fit s e enough = absurd (omega arith)
parse_loop-stream d (suc k) len pos [] bytes fit s e enough =
    let end : leb (pos + 2) len ≡ false = ground arith in rw end refl
parse_loop-stream d (suc k) len pos (v ∷ es) bytes (l, fit) s e enough =
    let m = message v in
    let size = length m in
    let (a, s₁) = read16 d bytes pos (pos + 2) size (m ++ stream es) (length-message v l) refl s in
    let (body, more) = Spells-append d m (stream es) (pos + 2) s₁ in
    let count = length-append m (stream es) in
    let room : leb (pos + 2) len ≡ true = ground arith in
    let whole : ltb len (pos + 2 + size) ≡ false = ground (arith, count) in
    let rest =
      parse_loop-stream d k len (pos + 2 + size) es bytes fit more (omega (arith, e, count))
        (omega (arith, enough, count)) in
    let this = dispatch-message d bytes v (pos + 2) size l refl body in
    rw (a, room, whole, this) (>>=-some (parse_loop k d len (pos + 2 + size)) (emit v) rest)

-- Of a buffer of bytes that begins with the messages of a list, each behind its length and with fields that fit, and
-- whose length is theirs, `parse` returns the list.
pub parse-stream :
    (d : Bytes) (es : List Event)
    → IsBytes d
    → AreMessages es
    → Spells d 0 (stream es)
    → parse d (length (stream es)) ≡ some es
unfolding parse
parse-stream d es bytes fit s =
    parse_loop-stream d (length (stream es) + 1) (length (stream es)) 0 es bytes fit s (omega arith)
      (omega arith)

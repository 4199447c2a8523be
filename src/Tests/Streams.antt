-- ===== src/Tests/Streams.antt =====
-- The parser on small streams.
use orderbook_engine.Base.{
  ◌+◌, Bool, true, ◌==◌, ◌&&◌, ℕ, zero, suc, ◌*◌, ◌%◌, ◌≤◌, ◌≡◌, refl, arith, some, List, [], ◌∷◌,
  length,
}
use orderbook_engine.Itch.{
  Bytes, Event, be16, be32, be48, be64, read_order_delete, dispatch, parse_loop, parse,
}
use orderbook_engine.Itch.Frames.{IsFramed, parse-IsFramed}
use orderbook_engine.Itch.RoundTrip.{parse-stream}
use orderbook_engine.Itch.Wire.{stream, Spells}

-- The byte of the list at a position, and 7 behind it.
abbrev pub byte : List ℕ → Bytes
byte [] p = 7
byte (x ∷ xs) zero = x
byte (x ∷ xs) (suc p) = byte xs p

-- An order delete of 19 bytes and the length of another message.
abbrev deletion : Bytes
deletion = byte (
    0 ∷ 19 ∷ 68 ∷ 0 ∷ 3 ∷ 0 ∷ 0 ∷ 0 ∷ 0 ∷ 0 ∷ 0 ∷ 1 ∷ 0 ∷ 0 ∷ 0 ∷ 0 ∷ 0 ∷ 0 ∷ 0 ∷ 1 ∷ 2 ∷ 0 ∷ 19
    ∷ [])

parsed :
    parse deletion 23
    ≡ some (Event.on_order_delete (record { stock_locate = 3; ts_ns = 256; order_ref = 258 }) ∷ [])
unfolding parse parse_loop dispatch read_order_delete be16 be32 be48 be64
parsed = refl

-- A message of no bytes at the end of the stream: its type is the byte behind the end.
read_past_end : parse (byte (0 ∷ 0 ∷ [])) 2 ≡ some (Event.on_unhandled 7 0 ∷ [])
unfolding parse parse_loop dispatch be16
read_past_end = refl

parse-IsFramed_example :
    (es : List Event) × (parse deletion 23 ≡ some es)
    × IsFramed deletion 23 0 es
    × (2 * length es ≤ 23)
parse-IsFramed_example = parse-IsFramed deletion 23

abbrev counting : Bytes
counting p = p % 256

-- A deletion as its events, and as a buffer of bytes.
abbrev events : List Event
events = Event.on_order_delete (record { stock_locate = 3; ts_ns = 256; order_ref = 258 }) ∷ []

abbrev buffer : Bytes
buffer p = byte (stream events) p % 256

abbrev pub spells : Bytes → ℕ → List ℕ → Bool
spells d p [] = true
spells d p (x ∷ xs) = d p == x && spells d (p + 1) xs

pub Spells-test : (d : Bytes) (p : ℕ) (xs : List ℕ) → spells d p xs ≡ true → Spells d p xs
Spells-test d p [] e = tt
Spells-test d p (x ∷ xs) e = (ground arith, Spells-test d (p + 1) xs (ground arith))

buffer-Spells : Spells buffer 0 (stream events)
buffer-Spells = Spells-test buffer 0 (stream events) refl

parse-stream_example : parse buffer (length (stream events)) ≡ some events
parse-stream_example =
    parse-stream buffer events (λ p. omega arith) ((omega arith, omega arith, omega arith), tt)
      buffer-Spells

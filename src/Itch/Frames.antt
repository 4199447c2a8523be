-- ===== src/Itch/Frames.antt =====
-- The parser's division of the stream into frames.
use orderbook_engine.Base.{
  ℕ, zero, suc, ◌+◌, ◌*◌, ◌≤◌, ◌<◌, ◌≡◌, refl, arith, some, List, [], ◌∷◌, leb, ltb, length,
  Bool-cases, inl, inr,
}
use orderbook_engine.Base.Steps.{>>=-some}
use orderbook_engine.Itch.{Bytes, Event, be16, dispatch, emit, parse_loop, parse}

-- From `pos` on, the first `len` bytes of the stream are frames with the events `es`, up to a place where no
-- whole frame is left: a length in two bytes and as many bytes as it says.
pub data IsFramed (d : Bytes) (len : ℕ) : (pos : ℕ) → List Event → Type 0 where
  no_length : {pos : ℕ} → len < pos + 2 → IsFramed d len pos []
  truncated : {pos : ℕ} → pos + 2 ≤ len → len < pos + 2 + be16 d pos → IsFramed d len pos []
  frame :
      {pos : ℕ} {es : List Event}
      → pos + 2 + be16 d pos ≤ len
      → IsFramed d len (pos + 2 + be16 d pos) es
      → IsFramed d len pos (dispatch d (pos + 2) (be16 d pos) ∷ es)

parse_loop-IsFramed :
    (k : ℕ) (d : Bytes) (len pos : ℕ)
    → pos ≤ len
    → len < pos + k
    → (es : List Event) × (parse_loop k d len pos ≡ some es)
      × IsFramed d len pos es
      × (pos + 2 * length es ≤ len)
unfolding parse_loop
parse_loop-IsFramed zero d len pos le enough = absurd (omega arith)
parse_loop-IsFramed (suc k) d len pos le enough = elim (Bool-cases (leb (pos + 2) len)) [
  | inr end ↦ ([], rw end refl, IsFramed.no_length (ground arith), omega arith)
  | inl room ↦ elim (Bool-cases (ltb len (pos + 2 + be16 d pos))) [
    | inl cut ↦
        ([], rw (room, cut) refl, IsFramed.truncated (ground arith) (ground arith), omega arith)
    | inr whole ↦
        let fits : pos + 2 + be16 d pos ≤ len = ground arith in
        let (es, run, framed, count) =
          parse_loop-IsFramed k d len (pos + 2 + be16 d pos) fits (omega arith) in
        (
          dispatch d (pos + 2) (be16 d pos) ∷ es,
          rw (room, whole) (>>=-some _ (emit (dispatch d (pos + 2) (be16 d pos))) run),
          IsFramed.frame fits framed,
          omega arith,
        )
  ]
]

-- `parse` returns. Its events are those of the whole frames at the front of the stream, in their
-- order, and they are at most half as many as the stream has bytes.
pub parse-IsFramed :
    (d : Bytes) (len : ℕ)
    → (es : List Event) × (parse d len ≡ some es) × IsFramed d len 0 es × (2 * length es ≤ len)
unfolding parse
parse-IsFramed d len =
    let (es, run, framed, count) =
      parse_loop-IsFramed (len + 1) d len 0 (omega arith) (omega arith) in
    (es, run, framed, omega arith)

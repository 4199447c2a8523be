-- ===== src/Ring/Threads/Safety.antt =====
-- What the two threads cannot do to each other.
use mathlib.Core.Path.{subst}
use Prim.Native.Nat.{bit_and}
use orderbook_engine.Base.Modulo.{mod-ne}
use orderbook_engine.Base.{ℕ, ◌+◌, ◌^◌, ◌≤◌, ◌<◌, ◌≡◌, ◌≢◌, sym, ◌∙◌, List, ◌++◌, length, arith}
use orderbook_engine.Ring.{new}
use orderbook_engine.Ring.Window.{slot}
use orderbook_engine.Ring.Threads.{Producer, Consumer, System, Reach}
use orderbook_engine.Ring.Threads.Order.{Producing, Consuming, pushed_length, Reach-IsRun}

-- Whatever turns the two threads take on a new ring of `2 ^ k` slots, the values that `try_push` has
-- accepted are those that `try_pop` has returned, in their order, and behind them at most `2 ^ k` values that wait.
pub Reach-fifo :
    {A : Type 0} (k : ℕ) (init : A) (s : System A)
    → 1 ≤ k
    → k < 64
    → Reach (new init (2 ^ k)) s
    → (xs : List A) × (s.pushed ≡ s.popped ++ xs) × (length xs ≤ 2 ^ k)
Reach-fifo k init s pos bound r =
    let (xs, h) = Reach-IsRun k init s pos bound r in
    (xs, h.order, omega (arith, h.ring.room, h.ring.seen_tail))

-- In every state that the two threads can reach on a new ring, where the producer is about to write a
-- slot and the consumer is about to read one, the two slots differ.
pub Reach-apart :
    {A : Type 0} (k : ℕ) (init v : A) (s : System A)
    → 1 ≤ k
    → k < 64
    → Reach (new init (2 ^ k)) s
    → s.producer ≡ Producer.putting v
    → s.consumer ≡ Consumer.taking
    → bit_and s.ring.head s.ring.mask ≢ bit_and s.ring.tail s.ring.mask
Reach-apart k init v s pos bound r e f same =
    let (xs, h) = Reach-IsRun k init s pos bound r in
    let room : length s.pushed < s.seen_tails + 2 ^ k =
      subst (λ z. Producing k z (length s.pushed) s.seen_tails s.ring.buf) e h.producing in
    let more : length s.popped < s.seen_heads =
      subst (λ z. Consuming z (length s.popped) s.seen_heads xs) f h.consuming in
    let n = pushed_length k s xs h in
    mod-ne (2 ^ k) (length s.popped) (length xs) (omega (arith, h.ring.known))
      (omega (arith, h.ring.seen_tail))
      (sym (slot k s.ring _ _ _ xs h.ring s.ring.head _ h.ring.head)
        ∙ same
        ∙ slot k s.ring _ _ _ xs h.ring s.ring.tail _ h.ring.tail)

-- ===== src/Tests/Rings.antt =====
-- A ring of two slots.
use Prim.Native.Nat.{bit_and}
use orderbook_engine.Base.{
  ℕ, ◌^◌, ◌≤◌, ◌≡◌, ◌≢◌, refl, arith, false, List, [], ◌∷◌, ◌++◌, length, update,
}
use orderbook_engine.Ring.{
  Ring, new, looks_full, see_tail, put, publish_head, looks_empty, see_head, try_push, try_pop,
}
use orderbook_engine.Ring.Window.{new-IsRing}
use orderbook_engine.Ring.Queue.{
  IsQueue, push_answer, push_values, pop_answer, pop_values, try_push-IsQueue, try_pop-IsQueue,
}
use orderbook_engine.Ring.Threads.{
  Producer, Consumer, System, start, begin_push, put_value, end_push, begin_pop, refresh_head, Step,
  Reach, at_start, later,
}
use orderbook_engine.Ring.Threads.Safety.{Reach-fifo, Reach-apart}

abbrev pair : Ring ℕ
pair = new 0 (2 ^ 1)

pair-IsQueue : IsQueue 1 pair []
pair-IsQueue = record {
  t = 0;
  ct = 0;
  ch = 0;
  is_ring = new-IsRing 1 0 (omega arith) (omega arith);
}

try_push-IsQueue_example :
    ((try_push pair 5).0 ≡ push_answer {A = ℕ} 1 [])
    × IsQueue 1 (try_push pair 5).1 (push_values 1 [] 5)
try_push-IsQueue_example = try_push-IsQueue 1 pair [] 5 pair-IsQueue

one_value-IsQueue : IsQueue 1 (try_push pair 5).1 (5 ∷ [])
one_value-IsQueue = (try_push-IsQueue 1 pair [] 5 pair-IsQueue).1

try_pop-IsQueue_example :
    ((try_pop (try_push pair 5).1).0 ≡ pop_answer (5 ∷ []))
    × IsQueue 1 (try_pop (try_push pair 5).1).1 (pop_values (5 ∷ []))
try_pop-IsQueue_example = try_pop-IsQueue 1 (try_push pair 5).1 (5 ∷ []) one_value-IsQueue

-- A third value does not go in, and the first one comes out.
full_pair : (try_push (try_push (try_push pair 5).1 6).1 7).0 ≡ false
unfolding try_push looks_full see_tail put publish_head new
full_pair = refl

-- The producer has pushed 5 and is about to write 6, and the consumer is about to read.
abbrev filled : System ℕ
filled = end_push (put_value (begin_push (start pair) 5) 5) 5

abbrev overlap : System ℕ
overlap = refresh_head (begin_pop (begin_push filled 6)) 1

Reach-filled : Reach pair filled
unfolding new looks_full
Reach-filled =
    later (later (later at_start (Step.push_begins 5 refl)) (Step.push_puts 5 refl))
      (Step.push_ends 5 refl)

Reach-overlap : Reach pair overlap
unfolding new looks_full put publish_head looks_empty
Reach-overlap =
    later (later (later Reach-filled (Step.push_begins 6 refl)) (Step.pop_begins refl))
      (Step.pop_refreshes 1 refl (omega arith) (omega arith))

Reach-fifo_example : (xs : List ℕ) × (overlap.pushed ≡ overlap.popped ++ xs) × (length xs ≤ 2 ^ 1)
Reach-fifo_example = Reach-fifo 1 0 overlap (omega arith) (omega arith) Reach-overlap

overlap_producer : overlap.producer ≡ Producer.putting 6
unfolding new looks_full put publish_head
overlap_producer = refl

overlap_consumer : overlap.consumer ≡ Consumer.taking
unfolding new put publish_head looks_empty see_head update
overlap_consumer = refl

Reach-apart_example :
    bit_and overlap.ring.head overlap.ring.mask ≢ bit_and overlap.ring.tail overlap.ring.mask
Reach-apart_example =
    Reach-apart 1 0 6 overlap (omega arith) (omega arith) Reach-overlap overlap_producer
      overlap_consumer

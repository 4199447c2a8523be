-- ===== src/Ring/Threads.antt =====
-- The producer and the consumer at work side by side. Each goes from one access of shared memory to the
-- next, and the two take turns in any way. A load of the other thread's cursor returns a value that was
-- stored there, the newest or an older one, but none older than the thread has seen before.
pub mod Order
pub mod Safety
use orderbook_engine.Base.{
  ℕ, ◌+◌, ◌≤◌, ◌≡◌, refl, Bool, true, false, List, [], ◌∷◌, ◌++◌, length, if◌then◌else◌, update,
}
use orderbook_engine.Ring.{
  Ring, looks_full, see_tail, put, publish_head, looks_empty, see_head, take, publish_tail,
}

-- Where the producer stands: between calls, before the refresh of its view of the tail, before the
-- write of the slot, and before the store of the head.
pub data Producer (A : Type 0) : Type 0 where
  outside : Producer A
  refreshing : (v : A) → Producer A
  putting : (v : A) → Producer A
  publishing : (v : A) → Producer A

-- Where the consumer stands: between calls, before the refresh of its view of the head, before the read
-- of the slot, and before the store of the tail.
pub data Consumer (A : Type 0) : Type 0 where
  outside : Consumer A
  refreshing : Consumer A
  taking : Consumer A
  publishing : (v : A) → Consumer A

-- The state, and what has happened: the values that `try_push` has accepted and those that `try_pop` has
-- returned, the first ones first; the values that the stores of each cursor have left there, by the
-- number of the store; and how many stores each thread has seen of the other's.
pub record System (A : Type 0) : Type 0 where
  pub ring : Ring A
  pub producer : Producer A
  pub consumer : Consumer A
  pub pushed : List A
  pub popped : List A
  pub head_at : ℕ → ℕ
  pub tail_at : ℕ → ℕ
  pub seen_heads : ℕ
  pub seen_tails : ℕ

module _ {A : Type 0} where
  abbrev pub start : Ring A → System A
  start r = record {
    ring = r;
    producer = Producer.outside;
    consumer = Consumer.outside;
    pushed = [];
    popped = [];
    head_at = λ n. r.head;
    tail_at = λ n. r.tail;
    seen_heads = 0;
    seen_tails = 0;
  }

  -- `try_push` up to its refresh or its write.
  abbrev pub begin_push : System A → A → System A
  begin_push s v = record s {
    producer = if looks_full s.ring then Producer.refreshing v else Producer.putting v;
  }

  -- The refresh by the `n`-th store of the tail, and the second test.
  abbrev pub refresh_tail : System A → A → ℕ → System A
  refresh_tail s v n =
      let r = see_tail s.ring (s.tail_at n) in
      record s {
        ring = r;
        seen_tails = n;
        producer = if looks_full r then Producer.outside else Producer.putting v;
      }

  abbrev pub put_value : System A → A → System A
  put_value s v = record s { ring = put s.ring v; producer = Producer.publishing v }

  -- The store of the head, with which `try_push` returns true.
  abbrev pub end_push : System A → A → System A
  end_push s v =
      let r = publish_head s.ring in
      record s {
        ring = r;
        producer = Producer.outside;
        pushed = s.pushed ++ v ∷ [];
        head_at = update s.head_at (length s.pushed + 1) r.head;
      }

  abbrev pub begin_pop : System A → System A
  begin_pop s = record s {
    consumer = if looks_empty s.ring then Consumer.refreshing else Consumer.taking;
  }

  abbrev pub refresh_head : System A → ℕ → System A
  refresh_head s n =
      let r = see_head s.ring (s.head_at n) in
      record s {
        ring = r;
        seen_heads = n;
        consumer = if looks_empty r then Consumer.outside else Consumer.taking;
      }

  abbrev pub take_value : System A → System A
  take_value s = record s { consumer = Consumer.publishing (take s.ring) }

  -- The store of the tail, with which `try_pop` returns the value.
  abbrev pub end_pop : System A → A → System A
  end_pop s v =
      let r = publish_tail s.ring in
      record s {
        ring = r;
        consumer = Consumer.outside;
        popped = s.popped ++ v ∷ [];
        tail_at = update s.tail_at (length s.popped + 1) r.tail;
      }

pub data Step {A : Type 0} (s : System A) : System A → Type 0 where
  push_begins : (v : A) → s.producer ≡ Producer.outside → Step s (begin_push s v)
  push_refreshes :
      (v : A) (n : ℕ)
      → s.producer ≡ Producer.refreshing v
      → s.seen_tails ≤ n
      → n ≤ length s.popped
      → Step s (refresh_tail s v n)
  push_puts : (v : A) → s.producer ≡ Producer.putting v → Step s (put_value s v)
  push_ends : (v : A) → s.producer ≡ Producer.publishing v → Step s (end_push s v)
  pop_begins : s.consumer ≡ Consumer.outside → Step s (begin_pop s)
  pop_refreshes :
      (n : ℕ)
      → s.consumer ≡ Consumer.refreshing
      → s.seen_heads ≤ n
      → n ≤ length s.pushed
      → Step s (refresh_head s n)
  pop_takes : s.consumer ≡ Consumer.taking → Step s (take_value s)
  pop_ends : (v : A) → s.consumer ≡ Consumer.publishing v → Step s (end_pop s v)

-- The states that the two threads can reach on a ring.
pub data Reach {A : Type 0} (r : Ring A) : System A → Type 0 where
  at_start : Reach r (start r)
  later : {s t : System A} → Reach r s → Step s t → Reach r t

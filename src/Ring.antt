-- ===== src/Ring.antt =====
-- `SpscRing` of include/lob/spsc_ring.hpp: the fields of the ring, the two operations, and the parts
-- between two accesses of the memory that the threads share, of which both operations are made. The
-- buffer is a function from indices; the cursors are words of 64 bits.
pub mod Window
pub mod Queue
pub mod Threads
use Prim.Native.Nat.{bit_and}
use orderbook_engine.Base.{
  ℕ, ◌+◌, ◌-◌, ◌%◌, ◌^◌, Bool, true, false, Option, none, some, ltb, ◌==◌, if◌then◌else◌, update,
}

pub record Ring (A : Type 0) : Type 0 where
  pub mask : ℕ
  pub buf : ℕ → A
  pub head : ℕ
  pub cached_tail : ℕ
  pub tail : ℕ
  pub cached_head : ℕ

module _ {A : Type 0} where
  -- `init` is what `make_unique` puts into the buffer.
  unfoldable pub new : (init : A) (capacity : ℕ) → Ring A
  new init capacity = record {
    mask = capacity - 1;
    buf = λ i. init;
    head = 0;
    cached_tail = 0;
    tail = 0;
    cached_head = 0;
  }

  abbrev pub next_head : Ring A → ℕ
  next_head r = (r.head + 1) % 2 ^ 64

  -- `next - cached_tail_ > mask_ + 1`
  unfoldable pub looks_full : Ring A → Bool
  looks_full r = ltb (r.mask + 1) ((next_head r + 2 ^ 64 - r.cached_tail) % 2 ^ 64)

  -- `cached_tail_ = tail_.load(...)`, where the load returns `t`
  unfoldable pub see_tail : Ring A → (t : ℕ) → Ring A
  see_tail r t = record r { cached_tail = t }

  -- `buf_[head & mask_] = v`
  unfoldable pub put : Ring A → A → Ring A
  put r v = record r { buf = update r.buf (bit_and r.head r.mask) v }

  -- `head_.store(next, ...)`
  unfoldable pub publish_head : Ring A → Ring A
  publish_head r = record r { head = next_head r }

  unfoldable pub try_push : Ring A → A → Bool × Ring A
  try_push r v =
      let r' = see_tail r r.tail in
      if looks_full r
      then if looks_full r' then (false, r') else (true, publish_head (put r' v))
      else (true, publish_head (put r v))

  -- `tail == cached_head_`
  unfoldable pub looks_empty : Ring A → Bool
  looks_empty r = r.tail == r.cached_head

  -- `cached_head_ = head_.load(...)`, where the load returns `h`
  unfoldable pub see_head : Ring A → (h : ℕ) → Ring A
  see_head r h = record r { cached_head = h }

  -- `buf_[tail & mask_]`
  unfoldable pub take : Ring A → A
  take r = r.buf (bit_and r.tail r.mask)

  -- `tail_.store(tail + 1, ...)`
  unfoldable pub publish_tail : Ring A → Ring A
  publish_tail r = record r { tail = (r.tail + 1) % 2 ^ 64 }

  -- The value that goes through `out`, if the ring was not empty.
  unfoldable pub try_pop : Ring A → Option A × Ring A
  try_pop r =
      let r' = see_head r r.head in
      if looks_empty r
      then if looks_empty r' then (none, r') else (some (take r'), publish_tail r')
      else (some (take r), publish_tail r)

  unfoldable pub capacity : Ring A → ℕ
  capacity r = r.mask + 1

  unfoldable pub size_approx : Ring A → ℕ
  size_approx r = (r.head + 2 ^ 64 - r.tail) % 2 ^ 64

-- ===== src/Replay/Replaces.antt =====
-- The replay of a message that replaces an order.
use orderbook_engine.Base.{ℕ, ◌+◌, ◌≡◌, ◌≢◌, refl, ◌∙◌, Bool, Option, none, some, List, ==_refl}
use orderbook_engine.Base.Steps.{>>=-some}
use orderbook_engine.Book.Best.Levels.{IsShelved}
use orderbook_engine.Book.Fill.Sweep.{view}
use orderbook_engine.Book.Live.{without_id}
use orderbook_engine.Book.Live.Append.{IsPassive}
use orderbook_engine.Book.Live.Contract.{IsGone}
use orderbook_engine.Book.Live.Ids.{view-Lacks, without_id-Lacks}
use orderbook_engine.Book.Live.Insert.{HasRoom, append_at}
use orderbook_engine.Book.Live.Renew.{cancel-submit}
use orderbook_engine.Book.Rest.{cancel}
use orderbook_engine.Book.State.{Book, find, price_to_idx}
use orderbook_engine.Book.Stock.{Queues, IsStockedBook}
use orderbook_engine.Book.Submit.{Request}
use orderbook_engine.Itch.{OrderReplace}
use orderbook_engine.Replay.{
  ReplayHandler, inc64, resting_order, engine_price, time, timed_cancel, timed_submit,
  replace_found, on_order_replace,
}
use orderbook_engine.Types.{Side, OrderId, Price}

-- The run returns the handler with one replacement more counted, the same target, and a stocked and shelved book, in
-- which the original order has left its queue and the message's stands behind the others at its price.
pub record IsReplayedReplace (k : ℕ) (h : ReplayHandler) (q : Queues) (id : OrderId) (r : Request)
    (run : Option ReplayHandler) : Type 0 where
  pub handler : ReplayHandler
  pub queues : Queues
  pub free : List ℕ
  pub returns : run ≡ some handler
  pub counted : handler.replaces ≡ inc64 h.replaces
  pub target : handler.target_locate ≡ h.target_locate
  pub stocked : IsStockedBook k handler.book queues free
  pub shelved : IsShelved handler.book
  pub views :
      (s : Side) (i : ℕ)
      → view handler.book queues s i
        ≡ append_at
            (λ s' i'. without_id id (view h.book q s' i'))
            r.side
            (price_to_idx h.book r.price)
            (record { id = r.id; quantity = r.qty })
            s
            i

-- A replacement whose original order is not in the book is counted as skipped and changes nothing else.
pub on_order_replace-skipped :
    (now : ℕ → ℕ) (h : ReplayHandler) (m : OrderReplace)
    → m.stock_locate ≡ h.target_locate
    → find h.book m.original_order_ref ≡ some none
    → on_order_replace now m h ≡ some (record h { replaces_skipped = inc64 h.replaces_skipped })
unfolding on_order_replace replace_found
on_order_replace-skipped now h m at no_order =
    rw (at, ==_refl h.target_locate)
      (>>=-some (find h.book m.original_order_ref) (replace_found now m h) no_order)

-- A replacement for the target cancels the original order and puts the new one behind the others at its price,
-- on the original's side, in a stocked and shelved book: where the original has an id other than 0 and is
-- found, the tick is not 0, the new order has a new id other than 0, a positive quantity and a price in range,
-- also as a 32-bit level index, and in the book that the cancellation leaves it does not cross and has a free
-- slot and room in the table.
pub on_order_replace-IsReplayedReplace :
    (now : ℕ → ℕ) (k : ℕ) (h : ReplayHandler) (q : Queues) (free : List ℕ)
    (st : IsStockedBook k h.book q free) (shelved : IsShelved h.book) (m : OrderReplace) (x : ℕ)
    (p : Price) (c : Book) (was : Bool) (o : ℕ)
    → m.stock_locate ≡ h.target_locate
    → m.original_order_ref ≢ 0
    → find h.book m.original_order_ref ≡ some (some x)
    → engine_price h.itch_tick m.price ≡ some p
    → cancel h.book m.original_order_ref ≡ some (was, c)
    → IsGone k h.book q free st shelved m.new_order_ref
    → IsPassive c (resting_order m.new_order_ref (h.book.slab.storage x).side p m.shares m.ts_ns)
    → c.slab.free_head ≡ some o
    → HasRoom k c m.new_order_ref o
    → IsReplayedReplace k h q m.original_order_ref
        (resting_order m.new_order_ref (h.book.slab.storage x).side p m.shares m.ts_ns)
        (on_order_replace now m h)
unfolding on_order_replace replace_found timed_cancel timed_submit
on_order_replace-IsReplayedReplace now k h q free st shelved m x p c was o at nz found price ran
      gone passive head room =
    let r = resting_order m.new_order_ref (h.book.slab.storage x).side p m.shares m.ts_ns in
    let id = m.original_order_ref in
    let s =
      cancel-submit k h.book q free st shelved id nz r c was o ran
        (λ s i. without_id-Lacks r.id id (view h.book q s i) (view-Lacks h.book q r.id gone s i))
        passive head room in
    record {
      handler = record h {
        book = s.book;
        hist_cancel = time now h.hist_cancel h.readings;
        hist_submit = time now h.hist_submit (h.readings + 2);
        readings = h.readings + 2 + 2;
        replaces = inc64 h.replaces;
      };
      queues = s.queues;
      free = s.free;
      returns =
          rw (at, ==_refl h.target_locate)
            (>>=-some (find h.book id) (replace_found now m h) found
              ∙ rw (price, ran, s.returns) refl);
      counted = refl;
      target = refl;
      stocked = s.stocked;
      shelved = s.shelved;
      views = s.views;
    }

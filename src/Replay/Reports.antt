-- ===== src/Replay/Reports.antt =====
-- The replay of messages that report what happened to resting orders: executions, cancellations, deletions, and
-- messages for other symbols.
use mathlib.Core.Path.{subst}
use orderbook_engine.Base.{
  ℕ, ◌+◌, ◌≡◌, ◌≢◌, refl, sym, ap, ◌∙◌, false, ◌&&◌, Option, some, List, [], ◌∷◌, ◌==◌,
  if◌then◌else◌, Bool-cases, inl, inr, arith,
}
use orderbook_engine.Base.Steps.{◌>>=◌, >>=-some}
use orderbook_engine.Book.Best.Levels.{IsShelved}
use orderbook_engine.Book.Fill.{Entry}
use orderbook_engine.Book.Fill.Sweep.{view}
use orderbook_engine.Book.Live.{without_id, lower_id}
use orderbook_engine.Book.Live.Contract.{cancel-without_id, reduce-lower_id}
use orderbook_engine.Book.State.{Book}
use orderbook_engine.Book.Stock.{Queues, IsStockedBook}
use orderbook_engine.Itch.{Event}
use orderbook_engine.Replay.{
  ReplayHandler, if_target, symbol_matches, time, inc64, timed_cancel, timed_reduce,
  on_stock_directory, on_add_order, on_order_executed, on_order_executed_with_price,
  on_order_cancel, on_order_delete, on_order_replace, handle, handle_all,
}
use orderbook_engine.Types.{Side, OrderId, Quantity}

-- What a message for the target does to a queue.
abbrev pub effect : (target : ℕ) → Event → List Entry → List Entry
effect t (Event.on_order_executed e) es =
    if e.stock_locate == t then lower_id e.order_ref e.executed_shares es else es
effect t (Event.on_order_executed_with_price e) es =
    if e.stock_locate == t then lower_id e.order_ref e.executed_shares es else es
effect t (Event.on_order_cancel c) es =
    if c.stock_locate == t then lower_id c.order_ref c.cancelled_shares es else es
effect t (Event.on_order_delete d) es =
    if d.stock_locate == t then without_id d.order_ref es else es
effect t _ es = es

abbrev pub effects : (target : ℕ) → List Event → List Entry → List Entry
effects t [] es = es
effects t (e ∷ more) es = effects t more (effect t e es)

-- The message adds no order to the target's book, and the order that it names has an id.
abbrev pub IsReport : (target : ℕ) → Event → Type 0
IsReport t (Event.on_add_order a) = a.stock_locate ≢ t
IsReport t (Event.on_order_replace r) = r.stock_locate ≢ t
IsReport t (Event.on_order_executed e) = e.order_ref ≢ 0
IsReport t (Event.on_order_executed_with_price e) = e.order_ref ≢ 0
IsReport t (Event.on_order_cancel c) = c.order_ref ≢ 0
IsReport t (Event.on_order_delete d) = d.order_ref ≢ 0
IsReport t _ = Unit {0}

abbrev pub AreReports : (target : ℕ) → List Event → Type 0
AreReports t [] = Unit {0}
AreReports t (e ∷ es) = IsReport t e × AreReports t es

-- The run returns a handler with the same target and a stocked and shelved book, whose queues are those before
-- changed by `f`.
pub record IsReplayed (k : ℕ) (h : ReplayHandler) (q : Queues) (f : List Entry → List Entry)
    (run : Option ReplayHandler) : Type 0 where
  pub handler : ReplayHandler
  pub queues : Queues
  pub free : List ℕ
  pub returns : run ≡ some handler
  pub target : handler.target_locate ≡ h.target_locate
  pub tick : handler.itch_tick ≡ h.itch_tick
  pub cfg : handler.book.cfg ≡ h.book.cfg
  pub stocked : IsStockedBook k handler.book queues free
  pub shelved : IsShelved handler.book
  pub views : (s : Side) (i : ℕ) → view handler.book queues s i ≡ f (view h.book q s i)

module _ (now : ℕ → ℕ) (k : ℕ) where
  idle-IsReplayed :
      (h : ReplayHandler) (q : Queues) (free : List ℕ) (run : Option ReplayHandler)
      → IsStockedBook k h.book q free
      → IsShelved h.book
      → run ≡ some h
      → IsReplayed k h q (λ es. es) run
  idle-IsReplayed h q free run st shelved e = record {
    handler = h;
    queues = q;
    free = free;
    returns = e;
    target = refl;
    tick = refl;
    cfg = refl;
    stocked = st;
    shelved = shelved;
    views = λ s i. refl;
  }

  reduce-IsReplayed :
      (h : ReplayHandler) (q : Queues) (free : List ℕ) (id : OrderId) (by : Quantity)
      (count : ReplayHandler → ReplayHandler)
      → IsStockedBook k h.book q free
      → IsShelved h.book
      → id ≢ 0
      → ((h' : ReplayHandler)
          → ((count h').target_locate ≡ h'.target_locate)
            × ((count h').book ≡ h'.book)
            × ((count h').itch_tick ≡ h'.itch_tick))
      → IsReplayed k h q (lower_id id by) (timed_reduce now id by h >>= λ h'. some (count h'))
  unfolding timed_reduce
  reduce-IsReplayed h q free id by count st shelved nz same =
      let s = reduce-lower_id k h.book q free st shelved id by nz in
      let h' : ReplayHandler = record h {
        book = s.book;
        hist_reduce = time now h.hist_reduce h.readings;
        readings = h.readings + 2;
      } in
      let (target, book, tick) = same h' in
      record {
        handler = count h';
        queues = s.queues;
        free = s.free;
        returns = rw s.returns refl;
        target = target;
        tick = tick;
        cfg = ap (λ (z : Book). z.cfg) book ∙ s.cfg;
        stocked = subst (λ z. IsStockedBook k z s.queues s.free) (sym book) s.stocked;
        shelved = subst IsShelved (sym book) s.shelved;
        views = λ d i. ap (λ (z : Book). view z s.queues d i) book ∙ s.views d i;
      }

  target-IsReplayed :
      (h : ReplayHandler) (q : Queues) (free : List ℕ) (locate : ℕ) (f : List Entry → List Entry)
      (body : Option ReplayHandler)
      → IsStockedBook k h.book q free
      → IsShelved h.book
      → IsReplayed k h q f body
      → IsReplayed k h q
          (λ es. if locate == h.target_locate then f es else es)
          (if_target now locate h body)
  target-IsReplayed h q free locate f body st shelved r =
      elim (Bool-cases (locate == h.target_locate)) [
        | inl e ↦ rw e r
        | inr ne ↦ rw ne (idle-IsReplayed h q free (some h) st shelved refl)
      ]

  delete-IsReplayed :
      (h : ReplayHandler) (q : Queues) (free : List ℕ) (id : OrderId)
      → IsStockedBook k h.book q free
      → IsShelved h.book
      → id ≢ 0
      → IsReplayed k h q
          (without_id id)
          (timed_cancel now id h >>= λ h'. some (record h' { deletes = inc64 h'.deletes }))
  unfolding timed_cancel
  delete-IsReplayed h q free id st shelved nz =
      let s = cancel-without_id k h.book q free st shelved id nz in
      record {
        handler = record h {
          book = s.book;
          hist_cancel = time now h.hist_cancel h.readings;
          readings = h.readings + 2;
          deletes = inc64 h.deletes;
        };
        queues = s.queues;
        free = s.free;
        returns = rw s.returns refl;
        target = refl;
        tick = refl;
        cfg = s.cfg;
        stocked = s.stocked;
        shelved = s.shelved;
        views = s.views;
      }

  other-IsReplayed :
      (h : ReplayHandler) (q : Queues) (free : List ℕ) (locate : ℕ) (body : Option ReplayHandler)
      → IsStockedBook k h.book q free
      → IsShelved h.book
      → locate ≢ h.target_locate
      → IsReplayed k h q (λ es. es) (if_target now locate h body)
  other-IsReplayed h q free locate body st shelved ne =
      let other : (locate == h.target_locate) ≡ false = ground arith in
      rw other (idle-IsReplayed h q free (some h) st shelved refl)

  pub handle-IsReplayed :
      (e : Event) (h : ReplayHandler) (q : Queues) (free : List ℕ)
      → h.target_locate ≢ 0
      → IsStockedBook k h.book q free
      → IsShelved h.book
      → IsReport h.target_locate e
      → IsReplayed k h q (λ es. effect h.target_locate e es) (handle now e h)
  unfolding handle on_stock_directory on_add_order on_order_executed on_order_executed_with_price
      on_order_cancel on_order_delete on_order_replace
  handle-IsReplayed (Event.on_system_event e) h q free t st sh r =
      idle-IsReplayed h q free (some h) st sh refl
  handle-IsReplayed (Event.on_unhandled type length) h q free t st sh r =
      idle-IsReplayed h q free (some h) st sh refl
  handle-IsReplayed (Event.on_stock_directory d) h q free t st sh r =
      let known : (h.target_locate == 0 && symbol_matches d.stock h.symbol) ≡ false =
        ground arith in
      rw known (idle-IsReplayed h q free (some h) st sh refl)
  handle-IsReplayed (Event.on_add_order a) h q free t st sh r =
      other-IsReplayed h q free a.stock_locate _ st sh r
  handle-IsReplayed (Event.on_order_replace a) h q free t st sh r =
      other-IsReplayed h q free a.stock_locate _ st sh r
  handle-IsReplayed (Event.on_order_executed e) h q free t st sh r =
      target-IsReplayed h q free e.stock_locate (lower_id e.order_ref e.executed_shares) _ st sh (
        reduce-IsReplayed h q free e.order_ref e.executed_shares
          (λ h'. record h' { execs = inc64 h'.execs }) st sh r (λ h'. (refl, refl, refl)))
  handle-IsReplayed (Event.on_order_executed_with_price e) h q free t st sh r =
      target-IsReplayed h q free e.stock_locate (lower_id e.order_ref e.executed_shares) _ st sh (
        reduce-IsReplayed h q free e.order_ref e.executed_shares
          (λ h'. record h' { execs = inc64 h'.execs }) st sh r (λ h'. (refl, refl, refl)))
  handle-IsReplayed (Event.on_order_cancel c) h q free t st sh r =
      target-IsReplayed h q free c.stock_locate (lower_id c.order_ref c.cancelled_shares) _ st sh (
        reduce-IsReplayed h q free c.order_ref c.cancelled_shares
          (λ h'. record h' { cancels = inc64 h'.cancels }) st sh r (λ h'. (refl, refl, refl)))
  handle-IsReplayed (Event.on_order_delete d) h q free t st sh r =
      target-IsReplayed h q free d.stock_locate (without_id d.order_ref) _ st sh
        (delete-IsReplayed h q free d.order_ref st sh r)

  -- With a target set and its book stocked and shelved, the handler takes any sequence of reports of executions,
  -- cancellations and deletions, for the target or others: it returns, the book is stocked and shelved, and its queues
  -- are those before with the messages for the target done on them in their order.
  pub handle_all-IsReplayed :
      (es : List Event) (h : ReplayHandler) (q : Queues) (free : List ℕ)
      → h.target_locate ≢ 0
      → IsStockedBook k h.book q free
      → IsShelved h.book
      → AreReports h.target_locate es
      → IsReplayed k h q (λ queue. effects h.target_locate es queue) (handle_all now es h)
  unfolding handle_all
  handle_all-IsReplayed [] h q free t st sh r = idle-IsReplayed h q free (some h) st sh refl
  handle_all-IsReplayed (e ∷ es) h q free t st sh (r, rs) =
      let x = handle-IsReplayed e h q free t st sh r in
      let y =
        handle_all-IsReplayed es x.handler x.queues x.free (rw x.target t) x.stocked x.shelved
          (subst (λ z. AreReports z es) (sym x.target) rs) in
      record {
        handler = y.handler;
        queues = y.queues;
        free = y.free;
        returns = >>=-some (handle now e h) (handle_all now es) x.returns ∙ y.returns;
        target = y.target ∙ x.target;
        tick = y.tick ∙ x.tick;
        cfg = y.cfg ∙ x.cfg;
        stocked = y.stocked;
        shelved = y.shelved;
        views = λ s i.
            y.views s i
            ∙ ap (λ z. effects z es (view x.handler.book x.queues s i)) x.target
            ∙ ap (effects h.target_locate es) (x.views s i);
      }

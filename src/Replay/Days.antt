-- ===== src/Replay/Days.antt =====
-- The replay of sequences of messages that add orders and report what happens to them.
use mathlib.Core.Path.{subst}
use orderbook_engine.Base.{
  ℕ, ◌≡◌, ◌≢◌, refl, sym, ap, ◌∙◌, false, ◌==◌, ==_refl, Option, none, some, Bool-cases, inl, inr,
  ◌⊎◌, if◌then◌else◌, List, [], ◌∷◌, arith,
}
use orderbook_engine.Base.Steps.{>>=-some}
use orderbook_engine.Book.Best.Levels.{IsShelved}
use orderbook_engine.Book.Fill.{Entry}
use orderbook_engine.Book.Fill.Sweep.{view}
use orderbook_engine.Book.Live.Append.{IsPassive}
use orderbook_engine.Book.Live.Ids.{Lacks, Lacks-view}
use orderbook_engine.Book.Live.Insert.{HasRoom, append_at}
use orderbook_engine.Book.Live.Renew.{append_at-cong}
use orderbook_engine.Book.Live.Rest.{free_head-first, price_to_idx-cfg}
use orderbook_engine.Book.State.{price_to_idx}
use orderbook_engine.Book.Stock.{Queues, IsStockedBook}
use orderbook_engine.Itch.{Event, AddOrder}
use orderbook_engine.Replay.{
  ReplayHandler, engine_price, resting_order, on_add_order, handle, handle_all,
}
use orderbook_engine.Replay.Adds.{on_add_order-IsReplayedAdd}
use orderbook_engine.Replay.Reports.{effect, IsReport, IsReplayed, handle-IsReplayed}
use orderbook_engine.Types.{Side, Price}

-- The queues of a book, each as its entries.
abbrev pub View : Type 0
View = Side → ℕ → List Entry

-- The queues with the added order behind the others at its price; `h` gives the tick and the levels.
abbrev pub added : ReplayHandler → AddOrder → Option Price → View → View
added h a none v = v
added h a (some p) v =
    append_at v a.side (price_to_idx h.book p) (record { id = a.order_ref; quantity = a.shares })

-- What a message does to the queues.
abbrev pub outcome : ReplayHandler → Event → View → View
outcome h (Event.on_add_order a) v =
    if a.stock_locate == h.target_locate then added h a (engine_price h.itch_tick a.price) v else v
outcome h e v = λ s i. effect h.target_locate e (v s i)

abbrev pub outcomes : ReplayHandler → List Event → View → View
outcomes h [] v = v
outcomes h (e ∷ es) v = outcomes h es (outcome h e v)

-- The order can be added to the handler's book, whose queues are `v`: the tick is not 0, the order has a positive
-- quantity, a new id other than 0 and a price in range, also as a 32-bit level index, it does not cross, and there are a
-- free slot and room in the table.
pub record CanAdd (k : ℕ) (h : ReplayHandler) (v : View) (a : AddOrder) : Type 0 where
  pub price : Price
  pub slot : ℕ
  pub in_ticks : engine_price h.itch_tick a.price ≡ some price
  pub passive : IsPassive h.book (resting_order a.order_ref a.side price a.shares a.ts_ns)
  pub new_id : (s : Side) (i : ℕ) → Lacks a.order_ref (v s i)
  pub head : h.book.slab.free_head ≡ some slot
  pub room : HasRoom k h.book a.order_ref slot

-- The message can be taken.
abbrev pub IsTaken : (k : ℕ) → ReplayHandler → View → Event → Type 0
IsTaken k h v (Event.on_add_order a) = (a.stock_locate ≢ h.target_locate) ⊎ CanAdd k h v a
IsTaken k h v e = IsReport h.target_locate e

-- Each message of the list can be taken when its turn comes. `s` gives the tick and the levels.
abbrev pub AreTaken :
    (now : ℕ → ℕ) (k : ℕ) (s : ReplayHandler) → ReplayHandler → View → List Event → Type 0
AreTaken now k s h v [] = Unit {0}
AreTaken now k s h v (e ∷ es) =
    IsTaken k h v e
    × ((h' : ReplayHandler) → handle now e h ≡ some h' → AreTaken now k s h' (outcome s e v) es)

-- The run returns a handler like `s` with a stocked and shelved book, whose queues are `v`.
pub record IsPlayed (k : ℕ) (s : ReplayHandler) (v : View) (run : Option ReplayHandler)
    : Type 0 where
  pub handler : ReplayHandler
  pub queues : Queues
  pub free : List ℕ
  pub returns : run ≡ some handler
  pub target : handler.target_locate ≡ s.target_locate
  pub tick : handler.itch_tick ≡ s.itch_tick
  pub cfg : handler.book.cfg ≡ s.book.cfg
  pub stocked : IsStockedBook k handler.book queues free
  pub shelved : IsShelved handler.book
  pub views : (d : Side) (i : ℕ) → view handler.book queues d i ≡ v d i

module _ (now : ℕ → ℕ) (k : ℕ) (s : ReplayHandler) (known : s.target_locate ≢ 0) where
  -- A message that adds no order.
  reported-IsPlayed :
      (h : ReplayHandler) (q : Queues) (v : View) (f : List Entry → List Entry)
      (run : Option ReplayHandler)
      → h.target_locate ≡ s.target_locate
      → h.itch_tick ≡ s.itch_tick
      → h.book.cfg ≡ s.book.cfg
      → ((d : Side) (i : ℕ) → view h.book q d i ≡ v d i)
      → IsReplayed k h q f run
      → IsPlayed k s (λ d i. f (v d i)) run
  reported-IsPlayed h q v f run target tick cfg same r = record {
    handler = r.handler;
    queues = r.queues;
    free = r.free;
    returns = r.returns;
    target = r.target ∙ target;
    tick = r.tick ∙ tick;
    cfg = r.cfg ∙ cfg;
    stocked = r.stocked;
    shelved = r.shelved;
    views = λ d i. r.views d i ∙ ap f (same d i);
  }

  added-IsPlayed :
      (a : AddOrder) (h : ReplayHandler) (q : Queues) (free : List ℕ) (v : View)
      → IsStockedBook k h.book q free
      → IsShelved h.book
      → h.target_locate ≡ s.target_locate
      → h.itch_tick ≡ s.itch_tick
      → h.book.cfg ≡ s.book.cfg
      → ((d : Side) (i : ℕ) → view h.book q d i ≡ v d i)
      → a.stock_locate ≡ h.target_locate
      → CanAdd k h v a
      → IsPlayed k s (outcome s (Event.on_add_order a) v) (on_add_order now a h)
  added-IsPlayed a h q free v st shelved target tick cfg same at can =
      let (free', first) =
        free_head-first h.book.slab.storage h.book.slab.free_head free can.slot st.slots.linked
          can.head in
      let st' : IsStockedBook k h.book q (can.slot ∷ free') =
        subst (IsStockedBook k h.book q) first st in
      let gone =
        Lacks-view h.book q a.order_ref
          (λ d i. subst (Lacks a.order_ref) (sym (same d i)) (can.new_id d i)) in
      let r =
        on_add_order-IsReplayedAdd now k h q can.slot free' st' shelved a can.price at can.in_ticks
          can.passive gone can.room in
      let here : a.stock_locate ≡ s.target_locate = at ∙ target in
      let in_ticks : engine_price s.itch_tick a.price ≡ some can.price =
        subst (λ z. engine_price z a.price ≡ some can.price) tick can.in_ticks in
      record {
        handler = r.handler;
        queues = r.queues;
        free = r.free;
        returns = r.returns;
        target = r.target ∙ target;
        tick = r.tick ∙ tick;
        cfg = r.cfg ∙ cfg;
        stocked = r.stocked;
        shelved = r.shelved;
        views = λ d i.
            r.views d i
            ∙ append_at-cong (view h.book q) v a.side (price_to_idx h.book can.price)
                (price_to_idx s.book can.price) (record { id = a.order_ref; quantity = a.shares })
                same (price_to_idx-cfg s.book h.book can.price cfg) d i
            ∙ rw (here, ==_refl s.target_locate, in_ticks) refl;
      }

  report-IsPlayed :
      (e : Event) (h : ReplayHandler) (q : Queues) (free : List ℕ) (v : View)
      → IsStockedBook k h.book q free
      → IsShelved h.book
      → h.target_locate ≡ s.target_locate
      → h.itch_tick ≡ s.itch_tick
      → h.book.cfg ≡ s.book.cfg
      → ((d : Side) (i : ℕ) → view h.book q d i ≡ v d i)
      → IsReport h.target_locate e
      → IsPlayed k s (λ d i. effect s.target_locate e (v d i)) (handle now e h)
  report-IsPlayed e h q free v st shelved target tick cfg same report =
      subst (λ t. IsPlayed k s (λ d i. effect t e (v d i)) (handle now e h)) target
        (reported-IsPlayed h q v (effect h.target_locate e) (handle now e h) target tick cfg same
          (handle-IsReplayed now k e h q free (λ z. known (sym target ∙ z)) st shelved report))

  other-IsPlayed :
      (a : AddOrder) (h : ReplayHandler) (q : Queues) (free : List ℕ) (v : View)
      → IsStockedBook k h.book q free
      → IsShelved h.book
      → h.target_locate ≡ s.target_locate
      → h.itch_tick ≡ s.itch_tick
      → h.book.cfg ≡ s.book.cfg
      → ((d : Side) (i : ℕ) → view h.book q d i ≡ v d i)
      → a.stock_locate ≢ h.target_locate
      → IsPlayed k s (outcome s (Event.on_add_order a) v) (handle now (Event.on_add_order a) h)
  other-IsPlayed a h q free v st sh t c g same away =
      let other : (a.stock_locate == s.target_locate) ≡ false = ground (arith, t) in
      rw other (report-IsPlayed (Event.on_add_order a) h q free v st sh t c g same away)

  handle-IsPlayed :
      (e : Event) (h : ReplayHandler) (q : Queues) (free : List ℕ) (v : View)
      → IsStockedBook k h.book q free
      → IsShelved h.book
      → h.target_locate ≡ s.target_locate
      → h.itch_tick ≡ s.itch_tick
      → h.book.cfg ≡ s.book.cfg
      → ((d : Side) (i : ℕ) → view h.book q d i ≡ v d i)
      → IsTaken k h v e
      → IsPlayed k s (outcome s e v) (handle now e h)
  unfolding handle
  handle-IsPlayed (Event.on_add_order a) h q free v st sh t c g same (inr can) =
      elim (Bool-cases (a.stock_locate == h.target_locate)) [
        | inl here ↦ added-IsPlayed a h q free v st sh t c g same (ground arith) can
        | inr away ↦ other-IsPlayed a h q free v st sh t c g same (ground arith)
      ]
  handle-IsPlayed (Event.on_add_order a) h q free v st sh t c g same (inl away) =
      other-IsPlayed a h q free v st sh t c g same away
  handle-IsPlayed (Event.on_system_event e) h q free v st sh t c g same r =
      report-IsPlayed (Event.on_system_event e) h q free v st sh t c g same r
  handle-IsPlayed (Event.on_unhandled type length) h q free v st sh t c g same r =
      report-IsPlayed (Event.on_unhandled type length) h q free v st sh t c g same r
  handle-IsPlayed (Event.on_stock_directory e) h q free v st sh t c g same r =
      report-IsPlayed (Event.on_stock_directory e) h q free v st sh t c g same r
  handle-IsPlayed (Event.on_order_executed e) h q free v st sh t c g same r =
      report-IsPlayed (Event.on_order_executed e) h q free v st sh t c g same r
  handle-IsPlayed (Event.on_order_executed_with_price e) h q free v st sh t c g same r =
      report-IsPlayed (Event.on_order_executed_with_price e) h q free v st sh t c g same r
  handle-IsPlayed (Event.on_order_cancel e) h q free v st sh t c g same r =
      report-IsPlayed (Event.on_order_cancel e) h q free v st sh t c g same r
  handle-IsPlayed (Event.on_order_delete e) h q free v st sh t c g same r =
      report-IsPlayed (Event.on_order_delete e) h q free v st sh t c g same r
  handle-IsPlayed (Event.on_order_replace e) h q free v st sh t c g same r =
      report-IsPlayed (Event.on_order_replace e) h q free v st sh t c g same r

  handle_all-IsPlayed_later :
      (es : List Event) (h : ReplayHandler) (q : Queues) (free : List ℕ) (v : View)
      → IsStockedBook k h.book q free
      → IsShelved h.book
      → h.target_locate ≡ s.target_locate
      → h.itch_tick ≡ s.itch_tick
      → h.book.cfg ≡ s.book.cfg
      → ((d : Side) (i : ℕ) → view h.book q d i ≡ v d i)
      → AreTaken now k s h v es
      → IsPlayed k s (outcomes s es v) (handle_all now es h)
  unfolding handle_all
  handle_all-IsPlayed_later [] h q free v st sh t c g same r = record {
    handler = h;
    queues = q;
    free = free;
    returns = refl;
    target = t;
    tick = c;
    cfg = g;
    stocked = st;
    shelved = sh;
    views = same;
  }
  handle_all-IsPlayed_later (e ∷ es) h q free v st sh t c g same (taken, later) =
      let x = handle-IsPlayed e h q free v st sh t c g same taken in
      let y =
        handle_all-IsPlayed_later es x.handler x.queues x.free (outcome s e v) x.stocked x.shelved
          x.target x.tick x.cfg x.views (later x.handler x.returns) in
      subst (IsPlayed k s (outcomes s es (outcome s e v)))
        (sym (>>=-some (handle now e h) (handle_all now es) x.returns)) y

-- With a target set and its book stocked and shelved, let a sequence of messages add orders that can be added when
-- their turn comes, and report executions, cancellations and deletions, for the target or others. The handler takes it
-- and returns: its book is stocked and shelved, and its queues are those before with the messages for the target done
-- on them in their order, an added order going behind the others at its price.
pub handle_all-IsPlayed :
    (now : ℕ → ℕ) (k : ℕ) (es : List Event) (h : ReplayHandler) (q : Queues) (free : List ℕ)
    → h.target_locate ≢ 0
    → IsStockedBook k h.book q free
    → IsShelved h.book
    → AreTaken now k h h (view h.book q) es
    → IsPlayed k h (outcomes h es (view h.book q)) (handle_all now es h)
handle_all-IsPlayed now k es h q free known st shelved taken =
    handle_all-IsPlayed_later now k h known es h q free (view h.book q) st shelved refl refl refl
      (λ d i. refl) taken

-- ===== src/Replay/Tally.antt =====
-- The counters of the handler and the latencies that it has recorded.
use orderbook_engine.Base.{
  ℕ, ◌+◌, ◌%◌, ◌^◌, ◌≡◌, ◌≢◌, refl, ◌&&◌, Option, none, some, List, [], ◌∷◌, ◌==◌, Bool-cases, inl,
  inr, arith,
}
use orderbook_engine.Base.Steps.{◌>>=◌, Holds, Holds-bind, Holds-of}
use orderbook_engine.Histogram.{LatencyHistogram, count_ns, record_ns}
use orderbook_engine.Itch.{Event, OrderReplace}
use orderbook_engine.Book.Rest.{cancel, reduce}
use orderbook_engine.Book.State.{find}
use orderbook_engine.Book.Best.Levels.{IsShelved}
use orderbook_engine.Book.Stock.{Queues, IsStockedBook}
use orderbook_engine.Replay.Reports.{AreReports, handle_all-IsReplayed}
use orderbook_engine.Book.Submit.{Request, submit}
use orderbook_engine.Types.{OrderId, Quantity}
use orderbook_engine.Replay.{
  ReplayHandler, inc64, if_target, resting_order, symbol_matches, time, timed_submit, timed_cancel,
  timed_reduce, engine_price, on_stock_directory, on_add_order, on_order_executed,
  on_order_executed_with_price, on_order_cancel, on_order_delete, replace_found, on_order_replace,
  handle, handle_all,
}

-- Each call of the book that a counter counts has left a latency, in the histogram of its kind.
pub record IsTallied (h : ReplayHandler) : Type 0 where
  pub submits : h.hist_submit.total ≡ (h.adds + h.replaces) % 2 ^ 64
  pub cancels : h.hist_cancel.total ≡ (h.deletes + h.replaces) % 2 ^ 64
  pub reduces : h.hist_reduce.total ≡ (h.execs + h.cancels) % 2 ^ 64

time-total :
    (now : ℕ → ℕ) (hist : LatencyHistogram) (n : ℕ)
    → (time now hist n).total ≡ (hist.total + 1) % 2 ^ 64
unfolding time record_ns count_ns
time-total now hist n = ground arith

-- A timed call: the totals go through the given functions, and the counters stay.
record IsTimed (s c r : ℕ → ℕ) (h h' : ReplayHandler) : Type 0 where
  pub submits : h'.hist_submit.total ≡ s h.hist_submit.total
  pub cancels : h'.hist_cancel.total ≡ c h.hist_cancel.total
  pub reduces : h'.hist_reduce.total ≡ r h.hist_reduce.total
  pub adds_same : h'.adds ≡ h.adds
  pub execs_same : h'.execs ≡ h.execs
  pub cancels_same : h'.cancels ≡ h.cancels
  pub deletes_same : h'.deletes ≡ h.deletes
  pub replaces_same : h'.replaces ≡ h.replaces

abbrev keep : ℕ → ℕ
keep n = n

module _ (now : ℕ → ℕ) where
  timed_submit-IsTimed :
      (q : Request) (h : ReplayHandler) → Holds (IsTimed inc64 keep keep h) (timed_submit now q h)
  unfolding timed_submit
  timed_submit-IsTimed q h = Holds-bind (IsTimed inc64 keep keep h) (submit h.book q) _ (λ o e.
      record {
        submits = time-total now h.hist_submit h.readings;
        cancels = refl;
        reduces = refl;
        adds_same = refl;
        execs_same = refl;
        cancels_same = refl;
        deletes_same = refl;
        replaces_same = refl;
      })

  timed_cancel-IsTimed :
      (id : OrderId) (h : ReplayHandler) → Holds (IsTimed keep inc64 keep h) (timed_cancel now id h)
  unfolding timed_cancel
  timed_cancel-IsTimed id h = Holds-bind (IsTimed keep inc64 keep h) (cancel h.book id) _ (λ o e.
      record {
        submits = refl;
        cancels = time-total now h.hist_cancel h.readings;
        reduces = refl;
        adds_same = refl;
        execs_same = refl;
        cancels_same = refl;
        deletes_same = refl;
        replaces_same = refl;
      })

  timed_reduce-IsTimed :
      (id : OrderId) (by : Quantity) (h : ReplayHandler)
      → Holds (IsTimed keep keep inc64 h) (timed_reduce now id by h)
  unfolding timed_reduce
  timed_reduce-IsTimed id by h =
      Holds-bind (IsTimed keep keep inc64 h) (reduce h.book id by) _ (λ o e. record {
        submits = refl;
        cancels = refl;
        reduces = time-total now h.hist_reduce h.readings;
        adds_same = refl;
        execs_same = refl;
        cancels_same = refl;
        deletes_same = refl;
        replaces_same = refl;
      })

  if_target-Holds :
      (locate : ℕ) (h : ReplayHandler) (body : Option ReplayHandler)
      → IsTallied h
      → Holds IsTallied body
      → Holds IsTallied (if_target now locate h body)
  if_target-Holds locate h body t b = elim (Bool-cases (locate == h.target_locate)) [
    | inl e ↦ rw e b
    | inr e ↦ rw e t
  ]

  reduced-IsTallied :
      (id : OrderId) (by : Quantity) (h : ReplayHandler) (count : ReplayHandler → ReplayHandler)
      → ((h' : ReplayHandler) → IsTimed keep keep inc64 h h' → IsTallied (count h'))
      → Holds IsTallied (timed_reduce now id by h >>= λ h'. some (count h'))
  reduced-IsTallied id by h count step =
      Holds-bind IsTallied (timed_reduce now id by h) _ (λ h' e.
        step h' (Holds-of (IsTimed keep keep inc64 h) _ h' (timed_reduce-IsTimed id by h) e))

  executed-IsTallied :
      (h : ReplayHandler)
      → IsTallied h
      → (h' : ReplayHandler) → IsTimed keep keep inc64 h h'
      → IsTallied (record h' { execs = inc64 h'.execs })
  executed-IsTallied h t h' c = record {
    submits = omega (arith, c.submits, c.adds_same, c.replaces_same, t.submits);
    cancels = omega (arith, c.cancels, c.deletes_same, c.replaces_same, t.cancels);
    reduces = omega (arith, c.reduces, c.execs_same, c.cancels_same, t.reduces);
  }

  cancelled-IsTallied :
      (h : ReplayHandler)
      → IsTallied h
      → (h' : ReplayHandler) → IsTimed keep keep inc64 h h'
      → IsTallied (record h' { cancels = inc64 h'.cancels })
  cancelled-IsTallied h t h' c = record {
    submits = omega (arith, c.submits, c.adds_same, c.replaces_same, t.submits);
    cancels = omega (arith, c.cancels, c.deletes_same, c.replaces_same, t.cancels);
    reduces = omega (arith, c.reduces, c.execs_same, c.cancels_same, t.reduces);
  }

  replace_found-IsTallied :
      (r : OrderReplace) (h : ReplayHandler) (o : Option ℕ)
      → IsTallied h
      → Holds IsTallied (replace_found now r h o)
  unfolding replace_found
  replace_found-IsTallied r h none t = record {
    submits = t.submits;
    cancels = t.cancels;
    reduces = t.reduces;
  }
  replace_found-IsTallied r h (some o) t =
      Holds-bind IsTallied (engine_price h.itch_tick r.price) _ (λ p _.
        Holds-bind IsTallied (timed_cancel now r.original_order_ref h) _ (λ h₁ e₁.
          let c =
            Holds-of (IsTimed keep inc64 keep h) _ h₁ (timed_cancel-IsTimed r.original_order_ref h)
              e₁ in
          let q = resting_order r.new_order_ref (h.book.slab.storage o).side p r.shares r.ts_ns in
          Holds-bind IsTallied (timed_submit now q h₁) _ (λ h₂ e₂.
            let d = Holds-of (IsTimed inc64 keep keep h₁) _ h₂ (timed_submit-IsTimed q h₁) e₂ in
            record {
              submits = omega (
                arith, c.submits, c.adds_same, c.replaces_same, d.submits, d.adds_same,
                d.replaces_same, t.submits,
              );
              cancels = omega (
                arith, c.cancels, c.deletes_same, c.replaces_same, d.cancels, d.deletes_same,
                d.replaces_same, t.cancels,
              );
              reduces = omega (
                arith, c.reduces, c.execs_same, c.cancels_same, d.reduces, d.execs_same,
                d.cancels_same, t.reduces,
              );
            })))

  pub handle-IsTallied :
      (e : Event) (h : ReplayHandler) → IsTallied h → Holds IsTallied (handle now e h)
  unfolding handle on_stock_directory on_add_order on_order_executed on_order_executed_with_price
      on_order_cancel on_order_delete on_order_replace
  handle-IsTallied (Event.on_system_event e) h t = t
  handle-IsTallied (Event.on_unhandled type length) h t = t
  handle-IsTallied (Event.on_stock_directory d) h t =
      elim (Bool-cases (h.target_locate == 0 && symbol_matches d.stock h.symbol)) [
        | inl e ↦ rw e (record { submits = t.submits; cancels = t.cancels; reduces = t.reduces })
        | inr e ↦ rw e t
      ]
  handle-IsTallied (Event.on_add_order a) h t = if_target-Holds a.stock_locate h _ t (
      Holds-bind IsTallied (engine_price h.itch_tick a.price) _ (λ p _.
        Holds-bind IsTallied
          (timed_submit now (resting_order a.order_ref a.side p a.shares a.ts_ns) h) _
          (λ h' e.
            let c =
              Holds-of (IsTimed inc64 keep keep h) _ h'
                (timed_submit-IsTimed (resting_order a.order_ref a.side p a.shares a.ts_ns) h) e in
            record {
              submits = omega (arith, c.submits, c.adds_same, c.replaces_same, t.submits);
              cancels = omega (arith, c.cancels, c.deletes_same, c.replaces_same, t.cancels);
              reduces = omega (arith, c.reduces, c.execs_same, c.cancels_same, t.reduces);
            })))
  handle-IsTallied (Event.on_order_executed e) h t = if_target-Holds e.stock_locate h _ t (
      reduced-IsTallied e.order_ref e.executed_shares h (λ h'. record h' { execs = inc64 h'.execs })
        (executed-IsTallied h t))
  handle-IsTallied (Event.on_order_executed_with_price e) h t =
      if_target-Holds e.stock_locate h _ t (
        reduced-IsTallied e.order_ref e.executed_shares h
          (λ h'. record h' { execs = inc64 h'.execs }) (executed-IsTallied h t))
  handle-IsTallied (Event.on_order_cancel c) h t = if_target-Holds c.stock_locate h _ t (
      reduced-IsTallied c.order_ref c.cancelled_shares h
        (λ h'. record h' { cancels = inc64 h'.cancels }) (cancelled-IsTallied h t))
  handle-IsTallied (Event.on_order_delete d) h t = if_target-Holds d.stock_locate h _ t (
      Holds-bind IsTallied (timed_cancel now d.order_ref h) _ (λ h' e.
        let c = Holds-of (IsTimed keep inc64 keep h) _ h' (timed_cancel-IsTimed d.order_ref h) e in
        record {
          submits = omega (arith, c.submits, c.adds_same, c.replaces_same, t.submits);
          cancels = omega (arith, c.cancels, c.deletes_same, c.replaces_same, t.cancels);
          reduces = omega (arith, c.reduces, c.execs_same, c.cancels_same, t.reduces);
        }))
  handle-IsTallied (Event.on_order_replace r) h t = if_target-Holds r.stock_locate h _ t (
      Holds-bind IsTallied (find h.book r.original_order_ref) _
        (λ o _. replace_found-IsTallied r h o t))

  pub handle_all-Holds :
      (es : List Event) (h : ReplayHandler) → IsTallied h → Holds IsTallied (handle_all now es h)
  unfolding handle_all
  handle_all-Holds [] h t = t
  handle_all-Holds (e ∷ es) h t =
      Holds-bind IsTallied (handle now e h) (handle_all now es)
        (λ h' x. handle_all-Holds es h' (Holds-of IsTallied _ h' (handle-IsTallied e h t) x))

-- With a target set and its book stocked and shelved, a sequence of reports of executions, cancellations and deletions
-- leaves the handler's counters and histograms in step, if they were: each call of the book that a counter counts has
-- left a latency in the histogram of its kind, modulo 2 ^ 64.
pub handle_all-IsTallied :
    (now : ℕ → ℕ) (k : ℕ) (es : List Event) (h : ReplayHandler) (q : Queues) (free : List ℕ)
    → h.target_locate ≢ 0
    → IsStockedBook k h.book q free
    → IsShelved h.book
    → AreReports h.target_locate es
    → IsTallied h
    → (h' : ReplayHandler) × (handle_all now es h ≡ some h') × IsTallied h'
handle_all-IsTallied now k es h q free target st shelved reports t =
    let r = handle_all-IsReplayed now k es h q free target st shelved reports in
    (
      r.handler,
      r.returns,
      Holds-of IsTallied (handle_all now es h) r.handler (handle_all-Holds now es h t) r.returns,
    )

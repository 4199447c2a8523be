-- ===== src/Book/Live/Modify.antt =====
-- `modify` of a resting order: in place, or as a cancellation and a new order.
use mathlib.Core.Path.{subst}
use orderbook_engine.Base.{
  ℕ, ◌-◌, ◌≤◌, ◌<◌, ◌≡◌, ◌≢◌, refl, sym, ap, ◌∙◌, Bool, true, false, not, ◌&&◌, ◌||◌, ◌==◌, ==→eq,
  ==→ne, Option, some, Bool-cases, inl, inr, if◌then◌else◌, List, [], ◌∷◌, ◌∈◌, ltb, leb, arith,
}
use orderbook_engine.Base.Int.{◌-ℤ◌, eqb_ℤ, leb_ℤ, to_unsigned}
use orderbook_engine.Base.Steps.{>>=-some}
use orderbook_engine.Book.Best.Levels.{IsShelved}
use orderbook_engine.Book.Fill.{Entry, entries}
use orderbook_engine.Book.Fill.Sweep.{view}
use orderbook_engine.Book.Live.{without_id}
use orderbook_engine.Book.Live.Append.{IsPassive}
use orderbook_engine.Book.Live.Contract.{
  IsStep, view-changed, IsGone-Absent, one_slot, queued-find, cancel-without_id,
}
use orderbook_engine.Book.Live.Ids.{Lacks, Lacks-view, Lacks-without_id}
use orderbook_engine.Book.Live.Insert.{HasRoom}
use orderbook_engine.Book.Live.Renew.{IsRenewed, book_of, find-IsQueued, cancel-submit}
use orderbook_engine.Book.Rest.{cancel, reduce, reduce_at, shrink_order}
use orderbook_engine.Book.State.{Book, Config, find, in_range, price_offset}
use orderbook_engine.Book.Stock.{Queues, IsStockedBook}
use orderbook_engine.Book.Stock.Reduce.{reduce_lem}
use orderbook_engine.Book.Submit.{
  Request, Outcome, answer, refuse, duplicate_check, range_check, submit, resubmit, modify_at,
  modify,
}
use orderbook_engine.Orders.{Heap}
use orderbook_engine.Types.{
  Side, OrderId, OrderStatus, OrderType, TimeInForce, Price, Quantity, Timestamp,
}

-- The entries with the id's quantity replaced.
abbrev pub requote_id : OrderId → Quantity → List Entry → List Entry
requote_id id n [] = []
requote_id id n (e ∷ es) =
    let rest = requote_id id n es in
    if e.id == id then record e { quantity = n } ∷ rest else e ∷ rest

requote-entries :
    (h g : Heap) (n : Quantity) (x : ℕ) (xs : List ℕ)
    → ((y : ℕ) → y ∈ xs → (h y).order_id ≡ (h x).order_id → y ≡ x)
    → g x ≡ record (h x) { quantity = n }
    → ((y : ℕ) → y ≢ x → g y ≡ h y)
    → requote_id (h x).order_id n (entries h xs) ≡ entries g xs
requote-entries h g n x [] one at off = refl
requote-entries h g n x (y ∷ xs) one at off =
    let rest = requote-entries h g n x xs (λ z m. one z (ground arith)) at off in
    elim (Bool-cases ((h y).order_id == (h x).order_id)) [
      | inr ne ↦
          let same = off y (λ f. ==→ne _ _ ne (ap (λ (z : ℕ). (h z).order_id) f)) in
          rw (ne, same)
            (ap (λ z. record { id = (h y).order_id; quantity = (h y).quantity } ∷ z) rest)
      | inl i ↦
          let f = one y (ground arith) (==→eq _ _ i) in
          let at' : g y ≡ record (h y) { quantity = n } =
            subst (λ z. g z ≡ record (h z) { quantity = n }) (sym f) at in
          rw (i, at') (ap (λ z. record { id = (h y).order_id; quantity = n } ∷ z) rest)
    ]

-- The run accepts the new quantity and makes no trades; in its stocked and shelved book every order is at its place,
-- and the id's has the quantity.
pub record IsRequoted (k : ℕ) (b : Book) (q : Queues) (id : OrderId) (n : Quantity)
    (run : Option Outcome) : Type 0 where
  pub book : Book
  pub free : List ℕ
  pub returns :
      run ≡ some (record { result = answer OrderStatus.accepted 0 n; trades = []; book = book })
  pub stocked : IsStockedBook k book q free
  pub shelved : IsShelved book
  pub views : (s : Side) (i : ℕ) → view book q s i ≡ requote_id id n (view b q s i)

-- The order that `modify` submits in place of the order in the slot.
abbrev pub renewal : Book → ℕ → OrderId → Quantity → Price → Timestamp → Request
renewal b x id n price ts = record {
  id = id;
  side = (b.slab.storage x).side;
  type = OrderType.limit;
  tif = TimeInForce.gtc;
  price = price;
  qty = n;
  ts = ts;
}

module _ (k : ℕ) (b : Book) (q : Queues) (free : List ℕ) (st : IsStockedBook k b q free)
    (shelved : IsShelved b) (id : OrderId) (nz : id ≢ 0) (x : ℕ) (found : find b id ≡ some (some x))
    (n : Quantity) (price : Price) (ts : Timestamp) where
  abbrev h : Heap
  h = b.slab.storage

  -- A modification to the order's own price and to a positive quantity, at most the order's, keeps the order's place in
  -- a stocked and shelved book and gives it the quantity.
  pub modify-requote_id :
      eqb_ℤ price (h x).price ≡ true
      → 0 < n
      → n ≤ (h x).quantity
      → IsRequoted k b q id n (modify b id n price ts)
  unfolding modify modify_at reduce reduce_at
  modify-requote_id same pos le =
      let (w, at) = find-IsQueued k b q free st shelved id x nz found in
      let by = (h x).quantity - n in
      let less : by < (h x).quantity = omega (arith, pos, le) in
      let (b', run, st', shelved', own, off, cfg) =
        reduce_lem k b q free st w.s w.i x w.below w.member by less shelved in
      let part : leb (h x).quantity by ≡ false = ground arith in
      let run' : reduce b (h x).order_id by ≡ some (true, shrink_order b x by) =
        >>=-some _ (reduce_at b (h x).order_id by) (queued-find k b q free st shelved x w)
        ∙ rw part refl in
      let book : b' ≡ shrink_order b x by = ap (book_of b) (sym run ∙ run') in
      let left : (h x).quantity - by ≡ n = omega (arith, le) in
      let own' : b'.slab.storage x ≡ record (h x) { quantity = n } =
        own ∙ ap (λ (z : ℕ). record (h x) { quantity = z }) left in
      let few : leb n (h x).quantity ≡ true = ground arith in
      let some_n : ltb 0 n ≡ true = ground arith in
      record {
        book = b';
        free = free;
        returns =
            >>=-some (find b id) (modify_at b id n price ts) found
            ∙ rw (same, some_n, few)
                (ap
                  (λ (z : Book).
                    some
                      (record { result = answer OrderStatus.accepted 0 n; trades = []; book = z }))
                  (sym book));
        stocked = st';
        shelved = shelved';
        views =
            subst (λ z. (s : Side) (i : ℕ) → view b' q s i ≡ requote_id z n (view b q s i)) at
              (view-changed b b' q q (requote_id (h x).order_id n) cfg refl (λ s i lt. sym (
                requote-entries h b'.slab.storage n x (q s i)
                  (λ y mem e.
                    one_slot k b q free st shelved y x
                      (record { s = s; i = i; below = lt; member = mem }) w e)
                  own' off)));
      }

  module _ (moved : (eqb_ℤ price (h x).price && (ltb 0 n && leb n (h x).quantity)) ≡ false) where
    modify-resubmit : modify b id n price ts ≡ resubmit b id (h x).side n price ts
    unfolding modify modify_at
    modify-resubmit = >>=-some (find b id) (modify_at b id n price ts) found ∙ rw moved refl

    -- A modification of an order with an id other than 0 to another price or to a larger quantity, where the new
    -- quantity is positive and the new price is in range, also as a 32-bit level index, takes the order out of its
    -- place in a stocked and shelved book and puts it behind the others at its price, if it does not cross there
    -- and the book that the cancellation leaves has a free slot and room for the id.
    pub modify-IsRenewed :
        (c : Book) (was : Bool) (o : ℕ)
        → cancel b id ≡ some (was, c)
        → IsPassive c (renewal b x id n price ts)
        → c.slab.free_head ≡ some o
        → HasRoom k c id o
        → IsRenewed k b q id (renewal b x id n price ts) (modify b id n price ts)
    unfolding resubmit
    modify-IsRenewed c was o ran passive head room =
        subst (IsRenewed k b q id (renewal b x id n price ts))
          (sym (modify-resubmit ∙ >>=-some (cancel b id) _ ran))
          (cancel-submit k b q free st shelved id nz (renewal b x id n price ts) c was o ran
            (λ s i. Lacks-without_id id (view b q s i)) passive head room)

    in_range-cfg : (c : Book) → c.cfg ≡ b.cfg → in_range c price ≡ in_range b price
    unfolding in_range price_offset
    in_range-cfg c e =
        ap
          (λ (z : Config).
            leb_ℤ z.base_price price && ltb (to_unsigned 64 (price -ℤ z.base_price)) z.num_levels)
          e

    -- A modification to the quantity 0, or to a price out of range, is rejected in a stocked and shelved book, and the
    -- order is cancelled all the same.
    pub modify-without_id :
        ((n == 0) || not (in_range b price)) ≡ true
        → (s : IsStep k b q (without_id id) (cancel b id)) × (modify b id n price ts
            ≡ some (refuse s.book OrderStatus.rejected 0))
    unfolding resubmit submit duplicate_check range_check
    modify-without_id bad =
        let s = cancel-without_id k b q free st shelved id nz in
        let gone = Lacks-view s.book s.queues id (λ side i.
          subst (Lacks id) (sym (s.views side i)) (Lacks-without_id id (view b q side i))) in
        let fresh = (IsGone-Absent k s.book s.queues s.free s.stocked s.shelved id nz gone).0 in
        let some_id : (id == 0) ≡ false = ground arith in
        (
          s,
          modify-resubmit ∙ >>=-some (cancel b id) _ s.returns ∙ elim (Bool-cases (n == 0)) [
            | inl z ↦ rw z refl
            | inr some_n ↦
                let out : in_range s.book price ≡ false =
                  in_range-cfg s.book s.cfg ∙ (let e = bad in ground arith) in
                rw (some_n, some_id)
                  (>>=-some (find s.book id) (duplicate_check s.book (renewal b x id n price ts))
                      fresh
                    ∙ rw out refl)
          ],
        )

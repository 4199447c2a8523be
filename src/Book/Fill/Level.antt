-- ===== src/Book/Fill/Level.antt =====
-- The inner loop of the match against the queue of its level.
use Prim.Native.Nat.{min}
use mathlib.Core.Path.{subst}
use orderbook_engine.Base.{
  ℕ, zero, suc, ◌-◌, ◌≤◌, ◌<◌, ◌≡◌, ◌≢◌, refl, sym, ap, ◌∙◌, true, false, Option, none, some, leb,
  ◌==◌, Bool-cases, inl, inr, List, [], ◌∷◌, length, ◌∈◌, ◌∉◌, Distinct, arith,
}
use orderbook_engine.Base.Steps.{◌>>=◌, >>=-some}
use orderbook_engine.Book.Fill.{entries, Consumed, consume, fill_trade, trades_at}
use orderbook_engine.Book.Fill.Head.{fill_head_part, fill_head_whole}
use orderbook_engine.Book.Fill.Walk.{
  with_level, level-with_level, set_at_self, set_at-fold, set_at-keep, idx_to_price-with_level,
}
use orderbook_engine.Book.Match.{
  Matched, done, Aggressor, trade, fill_of, put_trade, fill_head, fill_round, fill_loop,
}
use orderbook_engine.Book.State.{Book, PriceLevel, level, idx_to_price}
use orderbook_engine.Book.Stock.{set_at, IsLevel, Queues, IsStocked}
use orderbook_engine.IdMap.{IdMap}
use orderbook_engine.Orders.{Heap, Order, set_quantity}
use orderbook_engine.Book.Stock.Amount.{set_quantity_ne, set_quantity_self}
use orderbook_engine.Orders.Fifo.Links.{payload}
use orderbook_engine.Orders.Slab.{Slab}
use orderbook_engine.Types.{Side, Quantity, opposite}

-- The run returns what the fills `t` make of the level at `i`, whose queue was `xs` in the storage `h`.
pub record IsFilled (k : ℕ) (b : Book) (a : Aggressor) (i : ℕ) (q : Queues) (h : Heap) (xs : List ℕ)
    (t : Consumed) (run : Option Matched) : Type 0 where
  pub lvl : PriceLevel
  pub slab : Slab
  pub id_map : IdMap
  pub free : List ℕ
  pub rest : List ℕ
  pub returns :
      run
      ≡ some (record {
        book = with_level b (opposite a.side) i lvl slab id_map;
        remaining = t.remaining;
        trades = trades_at a (idx_to_price b i) t.fills;
      })
  pub stocked :
      IsStocked k b.cfg.num_levels
        (set_at (level b) (opposite a.side) i lvl)
        slab
        id_map
        (set_at q (opposite a.side) i rest)
        free
  pub left : entries slab.storage rest ≡ t.left
  pub others : (y : ℕ) → y ∉ xs → payload (slab.storage y) ≡ payload (h y)

-- The entries look at the payloads.
pub entries-payload :
    (h g : Heap) (xs : List ℕ)
    → ((x : ℕ) → x ∈ xs → payload (g x) ≡ payload (h x))
    → entries g xs ≡ entries h xs
entries-payload h g [] same = refl
entries-payload h g (x ∷ xs) same =
    let e = same x (ground arith) in
    let rest = entries-payload h g xs (λ y mem. same y (ground arith)) in
    rw (ap (λ (o : Order). o.order_id) e, ap (λ (o : Order). o.quantity) e, rest) refl

module _ (k : ℕ) (b : Book) (a : Aggressor) (i : ℕ) (li : i < b.cfg.num_levels) where
  abbrev s : Side
  s = opposite a.side

  abbrev Stock : PriceLevel → Slab → IdMap → Queues → List ℕ → Type 0
  Stock l slab m q free = IsStocked k b.cfg.num_levels (set_at (level b) s i l) slab m q free

  IsFilled_none :
      (l : PriceLevel) (slab : Slab) (m : IdMap) (q : Queues) (free xs : List ℕ) (t : Consumed)
      (run : Option Matched)
      → Stock l slab m q free
      → q s i ≡ xs
      → t.fills ≡ []
      → t.left ≡ entries slab.storage xs
      → run ≡ some (done (with_level b s i l slab m) t.remaining)
      → IsFilled k b a i q slab.storage xs t run
  IsFilled_none l slab m q free xs t run st here none_filled all e = record {
    lvl = l;
    slab = slab;
    id_map = m;
    free = free;
    rest = xs;
    returns = rw none_filled e;
    stocked = rw (set_at-keep q s i xs here) st;
    left = sym all;
    others = λ y out. refl;
  }

  pub head-IsLevel :
      (l : PriceLevel) (slab : Slab) (m : IdMap) (q : Queues) (free xs : List ℕ)
      → Stock l slab m q free
      → q s i ≡ xs
      → IsLevel s i slab.storage l xs
  head-IsLevel l slab m q free xs st here =
      subst (λ z. IsLevel s i slab.storage z xs) (set_at_self (level b) s i l)
        (subst (IsLevel s i slab.storage (set_at (level b) s i l s i)) here (st.levels s i li))

  min-own : (r own : ℕ) → own ≤ r → min r own ≡ own
  min-own r own le = ground arith

  min-rest : (r own : ℕ) → r < own → min r own ≡ r
  min-rest r own lt = ground arith

  trade-fill_trade :
      (l : PriceLevel) (slab : Slab) (m : IdMap) (x : ℕ) (f : Quantity)
      → trade (with_level b s i l slab m) a i x f
        ≡ fill_trade a (idx_to_price b i) (record { id = (slab.storage x).order_id; quantity = f })
  trade-fill_trade l slab m x f =
      ap
        (λ z. record {
          resting_id = (slab.storage x).order_id;
          aggressor_id = a.id;
          price = z;
          quantity = f;
          ts = a.ts;
          aggressor_side = a.side;
        })
        (idx_to_price-with_level b s i l slab m i)

  round-some :
      (next : Book → Quantity → Option Matched) (c c' : Book) (r : Quantity) (x : ℕ) (f : Quantity)
      (m : Matched)
      → fill_of c x r ≡ f
      → fill_head c s i x f ≡ some c'
      → next c' (r - f) ≡ some m
      → fill_round next c a i r (some x) ≡ some (record m { trades = trade c a i x f ∷ m.trades })
  unfolding fill_round
  round-some next c c' r x f m e run rest = rw e (
      >>=-some (fill_head c s i x f) (λ b'. next b' (r - f) >>= put_trade (trade c a i x f)) run
      ∙ >>=-some (next c' (r - f)) (put_trade (trade c a i x f)) rest)

  fill_loop_zero : (n : ℕ) (c : Book) → 0 < n → fill_loop n c a i 0 ≡ some (done c 0)
  unfolding fill_loop
  fill_loop_zero zero c lt = absurd (omega arith)
  fill_loop_zero (suc n) c lt = refl

  -- The loop at a level with an order at its head and a quantity to fill.
  fill_loop-round :
      (n : ℕ) (l : PriceLevel) (slab : Slab) (m : IdMap) (r : Quantity) (x : ℕ)
      → (r == 0) ≡ false
      → l.orders.head ≡ some x
      → fill_loop (suc n) (with_level b s i l slab m) a i r
        ≡ fill_round (λ b' r'. fill_loop n b' a i r') (with_level b s i l slab m) a i r (some x)
  unfolding fill_loop
  fill_loop-round n l slab m r x ne first = rw (ne, level-with_level b s i l slab m, first) refl

  tail-ne : (x : ℕ) (ys : List ℕ) → Distinct (x ∷ ys) → (y : ℕ) → y ∈ ys → y ≢ x
  tail-ne x ys d y mem e = (let z = subst (λ t. t ∈ ys) e mem in let o = d.0 in cc)

  fill_loop-part :
      (n : ℕ) (l : PriceLevel) (slab : Slab) (m : IdMap) (q : Queues) (free : List ℕ) (x : ℕ)
      (ys : List ℕ) (r : Quantity)
      → Stock l slab m q free
      → q s i ≡ x ∷ ys
      → 0 < n
      → (r == 0) ≡ false
      → r < (slab.storage x).quantity
      → IsFilled k b a i q slab.storage
          (x ∷ ys)
          (consume r (entries slab.storage (x ∷ ys)))
          (fill_loop (suc n) (with_level b s i l slab m) a i r)
  fill_loop-part n l slab m q free x ys r st here more ne lt =
      let v = head-IsLevel l slab m q free (x ∷ ys) st here in
      let mem : x ∈ q s i = rw here (ground arith) in
      let c = with_level b s i l slab m in
      let (l', run, st') = fill_head_part k b s i li l slab m q free st x r mem lt in
      let slab' : Slab = record slab {
        storage = set_quantity slab.storage x ((slab.storage x).quantity - r);
      } in
      let c' = with_level b s i l' slab' m in
      let last : fill_loop n c' a i (r - r) ≡ some (done c' 0) =
        subst (λ z. fill_loop n c' a i z ≡ some (done c' 0)) (let e : 0 ≡ r - r = omega arith in e)
          (fill_loop_zero n c' more) in
      let part : leb (slab.storage x).quantity r ≡ false = ground arith in
      let whole =
        fill_loop-round n l slab m r x ne v.fifo.0
        ∙ round-some (λ b' r'. fill_loop n b' a i r') c c' r x r (done c' 0) (min-rest r _ lt) run
            last in
      rw (ne, part)
        (record {
          lvl = l';
          slab = slab';
          id_map = m;
          free = free;
          rest = x ∷ ys;
          returns = rw (sym (trade-fill_trade l slab m x r)) whole;
          stocked = rw (set_at-keep q s i (x ∷ ys) here) st';
          left =
              rw
                (
                  set_quantity_self slab.storage x ((slab.storage x).quantity - r),
                  entries-payload slab.storage slab'.storage ys (λ y w.
                      ap payload
                        (set_quantity_ne slab.storage x _ y (tail-ne x ys v.distinct y w))),
                )
                refl;
          others = λ y out. ap payload (set_quantity_ne slab.storage x _ y (ground arith));
        })

  -- Where the quantity takes the head whole, the loop goes on with the others.
  fill_loop-whole :
      (n : ℕ) (l : PriceLevel) (slab : Slab) (m : IdMap) (q : Queues) (free : List ℕ) (x : ℕ)
      (ys : List ℕ) (r : Quantity)
      → Stock l slab m q free
      → q s i ≡ x ∷ ys
      → (r == 0) ≡ false
      → (slab.storage x).quantity ≤ r
      → ((l' : PriceLevel) (slab' : Slab) (m' : IdMap)
          → Stock l' slab' m' (set_at q s i ys) (x ∷ free)
          → IsFilled k b a i
              (set_at q s i ys)
              slab'.storage
              ys
              (consume (r - (slab.storage x).quantity) (entries slab'.storage ys))
              (fill_loop n (with_level b s i l' slab' m') a i (r - (slab.storage x).quantity)))
      → IsFilled k b a i q slab.storage
          (x ∷ ys)
          (consume r (entries slab.storage (x ∷ ys)))
          (fill_loop (suc n) (with_level b s i l slab m) a i r)
  fill_loop-whole n l slab m q free x ys r st here ne le rest =
      let v = head-IsLevel l slab m q free (x ∷ ys) st here in
      let own = (slab.storage x).quantity in
      let c = with_level b s i l slab m in
      let (l', slab', m', run, st', kept) =
        fill_head_whole k b s i li l slab m q free st x ys here in
      let same =
        entries-payload slab.storage slab'.storage ys
          (λ y w. kept y (tail-ne x ys v.distinct y w)) in
      let f =
        subst
          (λ z.
            IsFilled k b a i (set_at q s i ys) slab'.storage ys (consume (r - own) z)
              (fill_loop n (with_level b s i l' slab' m') a i (r - own)))
          same (rest l' slab' m' st') in
      let all : leb own r ≡ true = ground arith in
      let whole =
        fill_loop-round n l slab m r x ne v.fifo.0
        ∙ round-some (λ b' r'. fill_loop n b' a i r') c (with_level b s i l' slab' m') r x own _
            (min-own r own le) run f.returns in
      rw (ne, all)
        (record {
          lvl = f.lvl;
          slab = f.slab;
          id_map = f.id_map;
          free = f.free;
          rest = f.rest;
          returns = rw (sym (trade-fill_trade l slab m x own)) whole;
          stocked =
              subst (λ z. Stock f.lvl f.slab f.id_map z f.free) (set_at-fold q s i ys f.rest)
                f.stocked;
          left = f.left;
          others = λ y out. f.others y (ground arith) ∙ kept y (ground arith);
        })

  fill_loop-done :
      (n : ℕ) (c : Book) (r : Quantity)
      → (r == 0) ≡ true
      → fill_loop (suc n) c a i r ≡ some (done c r)
  unfolding fill_loop
  fill_loop-done n c r e = rw e refl

  fill_loop_empty :
      (n : ℕ) (l : PriceLevel) (slab : Slab) (m : IdMap) (r : Quantity)
      → l.orders.head ≡ none
      → fill_loop (suc n) (with_level b s i l slab m) a i r
        ≡ some (done (with_level b s i l slab m) r)
  unfolding fill_loop fill_round
  fill_loop_empty n l slab m r e =
      rw (level-with_level b s i l slab m, e)
        (elim (Bool-cases (r == 0)) [ inl z ↦ rw z refl | inr ne ↦ rw ne refl ])

  -- The inner loop at a level of a stocked book makes the fills that the aggressor's quantity buys of its queue.
  pub fill_loop-IsFilled :
      (n : ℕ) (l : PriceLevel) (slab : Slab) (m : IdMap) (q : Queues) (free xs : List ℕ)
      (r : Quantity)
      → Stock l slab m q free
      → q s i ≡ xs
      → length xs < n
      → IsFilled k b a i q slab.storage xs
          (consume r (entries slab.storage xs))
          (fill_loop n (with_level b s i l slab m) a i r)
  fill_loop-IsFilled zero l slab m q free xs r st here lt = absurd (omega arith)
  fill_loop-IsFilled (suc n) l slab m q free [] r st here lt =
      IsFilled_none l slab m q free [] _ _ st here refl refl
        (fill_loop_empty n l slab m r (head-IsLevel l slab m q free [] st here).fifo.0)
  fill_loop-IsFilled (suc n) l slab m q free (x ∷ ys) r st here lt = elim (Bool-cases (r == 0)) [
    | inl e ↦ rw e (
        IsFilled_none l slab m q free (x ∷ ys) _ _ st here refl refl
          (fill_loop-done n (with_level b s i l slab m) r e))
    | inr ne ↦ elim (Bool-cases (leb (slab.storage x).quantity r)) [
      | inl whole ↦
          fill_loop-whole n l slab m q free x ys r st here ne (ground arith) (λ l' slab' m' st'.
            fill_loop-IsFilled n l' slab' m' (set_at q s i ys) (x ∷ free) ys
              (r - (slab.storage x).quantity) st' (set_at_self q s i ys) (omega (arith, lt)))
      | inr part ↦
          fill_loop-part n l slab m q free x ys r st here (omega (arith, lt)) ne (ground arith)
    ]
  ]

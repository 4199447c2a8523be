-- ===== src/Book/Live/Contract.antt =====
-- `cancel` and `reduce` of an id in a stocked and shelved book.
use mathlib.Core.Path.{subst}
use orderbook_engine.Base.{
  ℕ, ◌≤◌, ◌<◌, ◌≡◌, ◌≢◌, refl, sym, ap, ◌∙◌, Bool, true, false, ◌&&◌, ◌==◌, Option, none, some,
  Bool-cases, inl, inr, ◌⊎◌, if◌then◌else◌, List, [], ◌∷◌, ◌++◌, has-append, ◌∈◌, ◌∉◌, Distinct,
  leb, ltb, arith,
}
use orderbook_engine.Base.Steps.{>>=-some}
use orderbook_engine.Book.Best.Levels.{IsShelved}
use orderbook_engine.Book.Fill.{Entry, entries}
use orderbook_engine.Book.Fill.Sweep.{view}
use orderbook_engine.Book.Live.{
  without_id, lower_id, split_at, without-entries_other, without-entries, lower-entries_all,
  lower-entries_part,
}
use orderbook_engine.Book.Rest.{cancel, cancel_at, reduce, reduce_at}
use orderbook_engine.Book.State.{Book, Config, level, find}
use orderbook_engine.Book.Stock.{same_side, set_at, Queues, IsQueued, IsStockedBook}
use orderbook_engine.Book.Stock.Cancel.{cancel_lem}
use orderbook_engine.Book.Stock.Queues.{same_side→eq, out_of_removed}
use orderbook_engine.Book.Stock.Reduce.{reduce-cancel, reduce_lem}
use orderbook_engine.Book.Stock.Remove.{other_queue}
use orderbook_engine.IdMap.Contract.{Stored-or_Absent}
use orderbook_engine.IdMap.Lookup.{find-Absent, find-Stored}
use orderbook_engine.IdMap.Ordered.{Absent}
use orderbook_engine.Orders.{Heap}
use orderbook_engine.Types.{Side, OrderId, Quantity}

-- The run returns a stocked and shelved book with the same configuration, whose queues are those of `b`
-- changed by `f`.
pub record IsStep (k : ℕ) (b : Book) (q : Queues) (f : List Entry → List Entry)
    (run : Option (Bool × Book)) : Type 0 where
  pub found : Bool
  pub book : Book
  pub queues : Queues
  pub free : List ℕ
  pub returns : run ≡ some (found, book)
  pub stocked : IsStockedBook k book queues free
  pub shelved : IsShelved book
  pub cfg : book.cfg ≡ b.cfg
  pub views : (s : Side) (i : ℕ) → view book queues s i ≡ f (view b q s i)

pub view-changed :
    (b c : Book) (q p : Queues) (f : List Entry → List Entry)
    → c.cfg ≡ b.cfg
    → f [] ≡ []
    → ((s : Side) (i : ℕ)
        → i < b.cfg.num_levels
        → entries c.slab.storage (p s i) ≡ f (entries b.slab.storage (q s i)))
    → (s : Side) (i : ℕ) → view c p s i ≡ f (view b q s i)
view-changed b c q p f e nil same s i =
    ap (λ (z : Config). if ltb i z.num_levels then entries c.slab.storage (p s i) else []) e
    ∙ elim (Bool-cases (ltb i b.cfg.num_levels)) [
      | inl lt ↦ rw lt (same s i (ground arith))
      | inr out ↦ rw out (sym nil)
    ]

module _ (k : ℕ) (b : Book) (q : Queues) (free : List ℕ) (st : IsStockedBook k b q free)
    (shelved : IsShelved b) where
  abbrev h : Heap
  h = b.slab.storage

  abbrev n : ℕ
  n = b.cfg.num_levels

  -- An id stands in one slot.
  pub one_slot :
      (x y : ℕ) → IsQueued n q x → IsQueued n q y → (h x).order_id ≡ (h y).order_id → x ≡ y
  one_slot x y qx qy e =
      let (j, sx) = st.listed x qx in
      let (j', sy) = st.listed y qy in
      let at : j ≡ j' =
        st.table.unique j j' sx.in_table sy.in_table (λ z. sx.ne_zero (sym sx.holds_id ∙ z))
          (sx.holds_id ∙ e ∙ sym sy.holds_id) in
      let v : some x ≡ some y =
        sym sx.holds_value ∙ ap (λ (z : ℕ). (b.id_map.slots z).value) at ∙ sy.holds_value in
      cc

  -- No queued order has the id.
  abbrev pub IsGone : OrderId → Type 0
  IsGone id = (y : ℕ) → IsQueued n q y → (h y).order_id ≢ id

  pub found_or_not :
      (id : OrderId)
      → id ≢ 0
      → ((x : ℕ) × IsQueued n q x × ((h x).order_id ≡ id)) ⊎ ((find b id ≡ some none) × IsGone id)
  unfolding find
  found_or_not id nz = elim (Stored-or_Absent k b.id_map id nz) [
    | inl (v, j, s) ↦ (let (x, w, _, e) = st.only id v j s in inl (x, w, e))
    | inr out ↦ inr (
      find-Absent k b.id_map id st.vacancy st.table.width st.vacant nz out,
      λ y w e. (let (j, s) = st.listed y w in out j s.in_table (s.holds_id ∙ e)),
    )
  ]

  pub queued-find : (x : ℕ) → IsQueued n q x → find b (h x).order_id ≡ some (some x)
  unfolding find
  queued-find x w =
      (let (j, stored) = st.listed x w in
        find-Stored k b.id_map (h x).order_id (some x) j st.table stored)

  -- An id that no queued order has is not in the table.
  pub IsGone-Absent :
      (id : OrderId) → id ≢ 0 → IsGone id → (find b id ≡ some none) × Absent k b.id_map id
  unfolding find
  IsGone-Absent id nz gone = elim (Stored-or_Absent k b.id_map id nz) [
    | inl (v, j, s) ↦ (let (x, w, _, e) = st.only id v j s in absurd (gone x w e))
    | inr out ↦ (find-Absent k b.id_map id st.vacancy st.table.width st.vacant nz out, out)
  ]

  module _ (id : OrderId) (gone : IsGone id) where
    gone-without :
        (s : Side) (i : ℕ) → i < n → entries h (q s i) ≡ without_id id (entries h (q s i))
    gone-without s i lt = sym (
        without-entries_other h h id (q s i)
          (λ y mem. (gone y (record { s = s; i = i; below = lt; member = mem }), refl)))

    gone-lower :
        (by : Quantity) (s : Side) (i : ℕ)
        → i < n
        → entries h (q s i) ≡ lower_id id by (entries h (q s i))
    gone-lower by s i lt =
        gone-without s i lt
        ∙ sym (
            lower-entries_all h id by (q s i)
              (λ y mem e. absurd (gone y (record { s = s; i = i; below = lt; member = mem }) e)))

    unchanged-IsStep :
        (f : List Entry → List Entry) (run : Option (Bool × Book))
        → run ≡ some (false, b)
        → f [] ≡ []
        → ((s : Side) (i : ℕ) → i < n → entries h (q s i) ≡ f (entries h (q s i)))
        → IsStep k b q f run
    unchanged-IsStep f run e nil same = record {
      found = false;
      book = b;
      queues = q;
      free = free;
      returns = e;
      stocked = st;
      shelved = shelved;
      cfg = refl;
      views = view-changed b b q q f refl nil same;
    }

  module _ (x : ℕ) (w : IsQueued n q x) where
    abbrev id : OrderId
    id = (h x).order_id

    only_one : (s : Side) (i : ℕ) → i < n → (y : ℕ) → y ∈ q s i → (h y).order_id ≡ id → y ≡ x
    only_one s i lt y mem e = one_slot y x (record { s = s; i = i; below = lt; member = mem }) w e

    cancel_queued-IsStep : IsStep k b q (without_id id) (cancel b id)
    cancel_queued-IsStep =
        let (xs, ys, here) = split_at x (q w.s w.i) w.member in
        let (b', run, st', shelved', rest, cfg) =
          cancel_lem k b q free st w.s w.i x xs ys w.below here shelved in
        let distinct = subst Distinct here (st.levels w.s w.i w.below).distinct in
        let out = out_of_removed xs ys x distinct in
        let apart : (y : ℕ) → y ∈ xs ++ ys → (h y).order_id ≢ id = (λ y mem e.
          let z =
            only_one w.s w.i w.below y
              (rw here (ground (arith, has-append y xs (x ∷ ys), has-append y xs ys))) e in
          let c = subst (λ t. t ∈ xs ++ ys) z mem in cc) in
        let at_place : entries b'.slab.storage (xs ++ ys) ≡ without_id id (entries h (q w.s w.i)) =
          sym (
            ap (λ z. without_id id (entries h z)) here
            ∙ without-entries h b'.slab.storage id xs x ys refl (λ y mem. (apart y mem, rest y))) in
        record {
          found = true;
          book = b';
          queues = set_at q w.s w.i (xs ++ ys);
          free = x ∷ free;
          returns = run;
          stocked = st';
          shelved = shelved';
          cfg = cfg;
          views =
              view-changed b b' q (set_at q w.s w.i (xs ++ ys)) (without_id id) cfg refl
                (λ s' i' li'. elim (Bool-cases (same_side w.s s' && i' == w.i)) [
                  | inl e ↦
                      let es : w.s ≡ s' = same_side→eq w.s s' (ground arith) in
                      let ei : i' ≡ w.i = ground arith in
                      rw e (
                        at_place
                        ∙ ap (λ z. without_id id (entries h (q z w.i))) es
                        ∙ ap (λ z. without_id id (entries h (q s' z))) (sym ei))
                  | inr ne ↦ rw ne (
                      sym (
                        without-entries_other h b'.slab.storage id (q s' i') (λ y mem. (
                          λ e.
                              (let z = only_one s' i' li' y mem e in
                                let o =
                                  other_queue k n (level b) b.slab b.id_map q free st w.s s' w.i i'
                                    y w.below li' ne mem in
                                let c = subst (λ t. t ∉ q w.s w.i) z o in let m = w.member in cc),
                          rest y,
                        ))))
                ]);
        }

    reduce_queued-IsStep : (by : Quantity) → IsStep k b q (lower_id id by) (reduce b id by)
    reduce_queued-IsStep by = elim (Bool-cases (leb (h x).quantity by)) [
      | inl e ↦
          let le : (h x).quantity ≤ by = ground arith in
          let c = cancel_queued-IsStep in
          record {
            found = c.found;
            book = c.book;
            queues = c.queues;
            free = c.free;
            returns = reduce-cancel k b q free st w.s w.i x w.below w.member by le ∙ c.returns;
            stocked = c.stocked;
            shelved = c.shelved;
            cfg = c.cfg;
            views = λ s i. c.views s i ∙ elim (Bool-cases (ltb i n)) [
              | inr out ↦ rw out refl
              | inl lt ↦ rw lt (
                  sym (
                    lower-entries_all h id by (q s i) (λ y mem e.
                      (let z = only_one s i (ground arith) y mem e in
                        subst (λ t. (h t).quantity ≤ by) (sym z) le))))
            ];
          }
      | inr e ↦
          let less : by < (h x).quantity = ground arith in
          let (b', run, st', shelved', at, off, cfg) =
            reduce_lem k b q free st w.s w.i x w.below w.member by less shelved in
          record {
            found = true;
            book = b';
            queues = q;
            free = free;
            returns = run;
            stocked = st';
            shelved = shelved';
            cfg = cfg;
            views = view-changed b b' q q (lower_id id by) cfg refl (λ s i lt. sym (
                lower-entries_part h b'.slab.storage id by x (q s i) (only_one s i lt) refl less at
                  off));
          }
    ]

  -- In a stocked and shelved book, `cancel` of an id other than 0 returns a stocked and shelved book, whose queues
  -- are what they were without the entry of the id.
  pub cancel-without_id : (id : OrderId) → id ≢ 0 → IsStep k b q (without_id id) (cancel b id)
  unfolding cancel cancel_at
  cancel-without_id id nz = elim (found_or_not id nz) [
    | inl (x, w, e) ↦
        subst (λ z. IsStep k b q (without_id z) (cancel b z)) e (cancel_queued-IsStep x w)
    | inr (no_order, gone) ↦
        unchanged-IsStep id gone (without_id id) (cancel b id)
          (>>=-some (find b id) (cancel_at b id) no_order) refl (gone-without id gone)
  ]

  -- In a stocked and shelved book, `reduce` of an id other than 0 returns a stocked and shelved book, whose queues
  -- are what they were with the quantity of the id lowered, and without its entry if nothing is left of it.
  pub reduce-lower_id :
      (id : OrderId) (by : Quantity) → id ≢ 0 → IsStep k b q (lower_id id by) (reduce b id by)
  unfolding reduce reduce_at
  reduce-lower_id id by nz = elim (found_or_not id nz) [
    | inl (x, w, e) ↦
        subst (λ z. IsStep k b q (lower_id z by) (reduce b z by)) e (reduce_queued-IsStep x w by)
    | inr (no_order, gone) ↦
        unchanged-IsStep id gone (lower_id id by) (reduce b id by)
          (>>=-some (find b id) (reduce_at b id by) no_order) refl (gone-lower id gone by)
  ]

-- ===== src/Book/Stock/Enter.antt =====
-- An order enters a stocked book: it takes a slot, a place behind its level and a place in the table.
use mathlib.Core.Path.{subst}
use orderbook_engine.Base.{
  ℕ, suc, ◌≤◌, ◌<◌, ◌≡◌, ◌≢◌, refl, sym, ap, ◌∙◌, ◌⊎◌, ◌&&◌, none, some, ◌==◌, ==→eq, ==→ne,
  Bool-cases, inl, inr, List, [], ◌∷◌, ◌++◌, length, length-append, has, has-append, ◌∈◌, ◌∉◌,
  Distinct, arith, update, update_self, update_ne,
}
use orderbook_engine.Book.Rest.{add32}
use orderbook_engine.Book.State.{PriceLevel}
use orderbook_engine.Book.Stock.{same_side, set_at, IsResting, IsLevel, Queues, IsQueued, IsStocked}
use orderbook_engine.Book.Stock.Queues.{
  same_side_refl, same_side→eq, IsLevel-frame, IsResting-payload, length-Distinct,
  quantities-append, quantities-same,
}
use orderbook_engine.Book.Stock.Remove.{other_queue}
use orderbook_engine.IdMap.{IdMap, Slot, fill_slot}
use orderbook_engine.IdMap.Insert.{Fits, IsOrdered-fill, Stored-fill, Stored-fill_ne}
use orderbook_engine.IdMap.Ordered.{Stored, Absent, IsVacant}
use orderbook_engine.Orders.{Ptr, Heap, Order}
use orderbook_engine.Orders.Fifo.{push_back}
use orderbook_engine.Orders.Fifo.Links.{IsFifo, Relinks, Seg-frame, payload}
use orderbook_engine.Orders.Fifo.Push.{push_back_lem}
use orderbook_engine.Orders.Slab.{Slab, allocate}
use orderbook_engine.Orders.Slab.FreeList.{HasFree, Linked-frame, allocate-HasFree}
use orderbook_engine.Types.{Side, OrderId}

Distinct-snoc : (xs : List ℕ) (x : ℕ) → Distinct xs → x ∉ xs → Distinct (xs ++ x ∷ [])
Distinct-snoc [] x d out = (refl, tt)
Distinct-snoc (y ∷ xs) x (o, d) out =
    (ground (arith, has-append y xs (x ∷ [])), Distinct-snoc xs x d (ground arith))

module _ (k n : ℕ) (lv : Side → ℕ → PriceLevel) (slab : Slab) (m : IdMap) (q : Queues) (o : ℕ)
    (free : List ℕ) (st : IsStocked k n lv slab m q (o ∷ free)) (s : Side) (i : ℕ) (li : i < n)
    (order : Order) (resting : IsResting s i order) where
  abbrev l : PriceLevel
  l = lv s i

  abbrev h₀ : Heap
  h₀ = update slab.storage o order

  abbrev h : Heap
  h = (push_back h₀ l.orders o).0

  abbrev entered_level : PriceLevel
  entered_level = record {
    orders = (push_back h₀ l.orders o).1;
    total_qty = add32 l.total_qty order.quantity;
    count = add32 l.count 1;
  }

  o-ne : (y : ℕ) → IsQueued n q y → y ≢ o
  o-ne y w = (let out = (st.used y w).1 in ground arith)

  new_here : o ∉ q s i
  new_here = elim (Bool-cases (has o (q s i))) [
    | inr out ↦ out
    | inl mem ↦ absurd (o-ne o (record { s = s; i = i; below = li; member = mem }) refl)
  ]

  member-ne : (y : ℕ) → y ∈ q s i → y ≢ o
  member-ne y mem = o-ne y (record { s = s; i = i; below = li; member = mem })

  pushed : IsFifo h entered_level.orders (q s i ++ o ∷ []) × Relinks (q s i ++ o ∷ []) h₀ h
  pushed =
      push_back_lem h₀ l.orders o (q s i)
        (Seg-frame slab.storage h₀ none l.orders.head (q s i) l.orders.tail none
          (λ y mem. update_ne slab.storage o order y (member-ne y mem)) (st.levels s i li).fifo)
        (st.levels s i li).distinct new_here

  pub entered_outside : (y : ℕ) → y ∉ q s i → y ≢ o → h y ≡ slab.storage y
  entered_outside y out ne =
      pushed.1.outside y (ground (arith, has-append y (q s i) (o ∷ [])))
      ∙ update_ne slab.storage o order y ne

  pub entered_payload : (y : ℕ) → y ≢ o → payload (h y) ≡ payload (slab.storage y)
  entered_payload y ne = pushed.1.payloads y ∙ ap payload (update_ne slab.storage o order y ne)

  pub entered_order : payload (h o) ≡ payload order
  entered_order = pushed.1.payloads o ∙ ap payload (update_self slab.storage o order)

  pub room : suc (length (q s i)) ≤ slab.capacity
  room =
      length-Distinct slab.capacity (o ∷ q s i) (new_here, (st.levels s i li).distinct)
        (λ y mem. elim (Bool-cases (y == o)) [
          | inl e ↦ (let g = ==→eq y o e in let b = st.slots.below.0 in omega arith)
          | inr ne ↦ (st.used y (record { s = s; i = i; below = li; member = ground arith })).0
        ])

  entered-IsLevel : IsLevel s i h entered_level (q s i ++ o ∷ [])
  entered-IsLevel =
      let v = st.levels s i li in
      let sum =
        quantities-same slab.storage h (q s i)
          (λ y mem. ap (λ (z : Order). z.quantity) (entered_payload y (member-ne y mem))) in
      let own : (h o).quantity ≡ order.quantity = ap (λ (z : Order). z.quantity) entered_order in
      record {
        fifo = pushed.0;
        distinct = Distinct-snoc (q s i) o v.distinct new_here;
        count = omega (arith, v.count, room, st.small, length-append (q s i) (o ∷ []));
        total = omega (arith, v.total, sum, own, quantities-append h (q s i) (o ∷ []));
        members = λ y w. elim (Bool-cases (y == o)) [
          | inl e ↦
              subst (λ z. IsResting s i (h z)) (sym (==→eq y o e))
                (IsResting-payload s i order (h o) entered_order resting)
          | inr ne ↦
              let mem : y ∈ q s i = ground (arith, has-append y (q s i) (o ∷ [])) in
              IsResting-payload s i (slab.storage y) (h y) (entered_payload y (==→ne y o ne))
                (v.members y mem)
        ];
      }

  abbrev queues' : Queues
  queues' = set_at q s i (q s i ++ o ∷ [])

  -- What is queued now is `o`, or was queued before.
  queued_cases : (y : ℕ) → IsQueued n queues' y → (y ≡ o) ⊎ IsQueued n q y
  queued_cases y w = elim (Bool-cases (same_side s w.s && w.i == i)) [
    | inr ne ↦ inr (record { s = w.s; i = w.i; below = w.below; member = rw ne at w.member })
    | inl e ↦
        let mem : y ∈ q s i ++ o ∷ [] = rw e at w.member in
        elim (Bool-cases (y == o)) [
          | inl f ↦ inl (==→eq y o f)
          | inr ne ↦ inr (record {
            s = s;
            i = i;
            below = li;
            member = ground (arith, has-append y (q s i) (o ∷ []));
          })
        ]
  ]

  queued_new : IsQueued n queues' o
  queued_new = record {
    s = s;
    i = i;
    below = li;
    member = (let a = same_side_refl s in ground (arith, has-append o (q s i) (o ∷ [])));
  }

  queued_old : (y : ℕ) → IsQueued n q y → IsQueued n queues' y
  queued_old y w = elim (Bool-cases (same_side s w.s && w.i == i)) [
    | inr ne ↦ record { s = w.s; i = w.i; below = w.below; member = rw ne w.member }
    | inl e ↦
        let es : s ≡ w.s = same_side→eq s w.s (ground arith) in
        let ei : w.i ≡ i = ground arith in
        let mem : y ∈ q s i =
          subst (λ t. y ∈ q s t) ei (subst (λ t. y ∈ q t w.i) (sym es) w.member) in
        record {
          s = w.s;
          i = w.i;
          below = w.below;
          member = rw e (ground (arith, has-append y (q s i) (o ∷ [])));
        }
  ]

  levels_after :
      (s' : Side) (i' : ℕ)
      → i' < n
      → IsLevel s' i' h (set_at lv s i entered_level s' i') (queues' s' i')
  levels_after s' i' li' = elim (Bool-cases (same_side s s' && i' == i)) [
    | inl e ↦
        let es : s ≡ s' = same_side→eq s s' (ground arith) in
        let ei : i ≡ i' = ground arith in
        rw e (
          subst (λ t. IsLevel t i' h entered_level (q s i ++ o ∷ [])) es
            (subst (λ t. IsLevel s t h entered_level (q s i ++ o ∷ [])) ei entered-IsLevel))
    | inr ne ↦ rw ne (
        IsLevel-frame s' i' slab.storage h (lv s' i') (q s' i')
          (λ y mem.
            entered_outside y (other_queue k n lv slab m q (o ∷ free) st s s' i i' y li li' ne mem)
              (o-ne y (record { s = s'; i = i'; below = li'; member = mem })))
          (st.levels s' i' li'))
  ]

  abbrev slab' : Slab
  slab' = record (allocate slab).1 { storage = h }

  taken :
      ((allocate slab).0 ≡ some o)
      × HasFree (allocate slab).1 free
      × ((allocate slab).1.storage ≡ slab.storage)
  taken = allocate-HasFree slab o free st.slots

  capacity-allocate : (allocate slab).1.capacity ≡ slab.capacity
  unfolding allocate
  capacity-allocate = rw st.slots.linked.0 refl

  entered-HasFree : HasFree slab' free
  entered-HasFree =
      let f = taken.1 in
      let spare : (y : ℕ) → y ∈ free → (h y).prev ≡ ((allocate slab).1.storage y).prev = λ y mem.
        ap (λ (z : Order). z.prev)
          (entered_outside y
            (elim (Bool-cases (has y (q s i))) [
              | inr out ↦ out
              | inl w ↦
                  (let z = (st.used y (record { s = s; i = i; below = li; member = w })).1 in
                    absurd (ground arith))
            ])
            (λ e. (let z = subst (λ t. t ∉ free) (sym e) st.slots.distinct.0 in cc)))
        ∙ ap (λ (g : Heap). (g y).prev) (sym taken.2) in
      record {
        linked =
            Linked-frame (allocate slab).1.storage h (allocate slab).1.free_head free spare
              f.linked;
        distinct = f.distinct;
        below = f.below;
        counted = f.counted;
        fits = f.fits;
      }

  module _ (p p' : ℕ) (nz : order.order_id ≢ 0) (out : Absent k m order.order_id)
      (spot : IsVacant k m p) (fits : Fits k m order.order_id (some o) p) (other : IsVacant k m p')
      (apart : p' ≢ p) where
    abbrev entry : Slot
    entry = record { id = order.order_id; value = some o }

    abbrev m' : IdMap
    m' = fill_slot m p entry

    id_new : (h o).order_id ≡ order.order_id
    id_new = ap (λ (z : Order). z.order_id) entered_order

    id_old : (y : ℕ) → IsQueued n q y → (h y).order_id ≡ (slab.storage y).order_id
    id_old y w = ap (λ (z : Order). z.order_id) (entered_payload y (o-ne y w))

    listed_after : (y : ℕ) → IsQueued n queues' y → (j : ℕ) × Stored k m' (h y).order_id (some y) j
    listed_after y w = elim (queued_cases y w) [
      | inl e ↦ (
        p,
        subst (λ z. Stored k m' (h z).order_id (some z) p) (sym e)
            (subst (λ z. Stored k m' z (some o) p) (sym id_new)
              (Stored-fill k m order.order_id (some o) p nz spot)),
      )
      | inr before ↦
          let (j, sy) = st.listed y before in
          (
            j,
            subst (λ z. Stored k m' z (some y) j) (sym (id_old y before))
                (Stored-fill_ne k m order.order_id (some o) p j (slab.storage y).order_id (some y)
                  spot sy),
          )
    ]

    only_after :
        (id : OrderId) (v : Ptr) (j : ℕ)
        → Stored k m' id v j
        → (y : ℕ) × IsQueued n queues' y × (v ≡ some y) × ((h y).order_id ≡ id)
    only_after id v j sv = elim (Bool-cases (j == p)) [
      | inl e ↦
          let here : m'.slots j ≡ entry = ap m'.slots (==→eq j p e) ∙ update_self m.slots p entry in
          (
            o,
            queued_new,
            sym sv.holds_value ∙ ap (λ (z : Slot). z.value) here,
            id_new ∙ sym (ap (λ (z : Slot). z.id) here) ∙ sv.holds_id,
          )
      | inr ne ↦
          let same : m'.slots j ≡ m.slots j = update_ne m.slots p entry j (==→ne j p ne) in
          let (y, w, ev, eid) = st.only id v j (record {
            in_table = sv.in_table;
            ne_zero = sv.ne_zero;
            holds_id = sym (ap (λ (z : Slot). z.id) same) ∙ sv.holds_id;
            holds_value = sym (ap (λ (z : Slot). z.value) same) ∙ sv.holds_value;
          }) in
          (y, queued_old y w, ev, id_old y w ∙ eid)
    ]

    -- With the order in the slot, behind its level and in the table, the book is stocked.
    pub entered-IsStocked : IsStocked k n (set_at lv s i entered_level) slab' m' queues' free
    entered-IsStocked = record {
      levels = levels_after;
      slots = entered-HasFree;
      small = rw capacity-allocate st.small;
      used = λ y w. elim (queued_cases y w) [
        | inl e ↦ rw (capacity-allocate, e) (st.slots.below.0, st.slots.distinct.0)
        | inr before ↦
            (let (lt, clear) = st.used y before in (rw capacity-allocate lt, ground arith))
      ];
      listed = listed_after;
      only = only_after;
      table = IsOrdered-fill k m order.order_id (some o) p st.table nz out spot fits;
      vacancy = p';
      vacant = record {
        in_table = other.in_table;
        empty = ap (λ (z : Slot). z.id) (update_ne m.slots p entry p' apart) ∙ other.empty;
      };
    }

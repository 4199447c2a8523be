-- ===== src/Book/Stock/Remove.antt =====
-- An order leaves a stocked book: its level has let it go, and now its id and its slot go.
use mathlib.Core.Path.{subst}
use orderbook_engine.Base.{
  ℕ, ◌<◌, ◌≡◌, ◌≢◌, sym, ap, ◌∙◌, true, false, ◌&&◌, some, ◌==◌, ==→eq, Bool-cases, inl, inr, List,
  ◌∷◌, ◌++◌, has, has-append, ◌∈◌, ◌∉◌, Distinct, arith,
}
use orderbook_engine.Book.State.{PriceLevel}
use orderbook_engine.Book.Stock.{same_side, set_at, IsLevel, Queues, IsQueued, IsStocked}
use orderbook_engine.Book.Stock.Queues.{
  same_side_refl, same_side→eq, IsLevel-frame, length-Distinct, lt_of_Below, out_of_removed,
}
use orderbook_engine.IdMap
use orderbook_engine.IdMap.{IdMap}
use orderbook_engine.IdMap.Erase.{erase-Stored}
use orderbook_engine.IdMap.Ordered.{Stored}
use orderbook_engine.Orders.{Heap, Order, set_prev}
use orderbook_engine.Orders.Slab.{Slab, deallocate}
use orderbook_engine.Orders.Slab.FreeList.{HasFree, Linked-frame, deallocate-HasFree}
use orderbook_engine.Types.{Side}

module _ (k n : ℕ) (lv : Side → ℕ → PriceLevel) (slab : Slab) (m : IdMap) (q : Queues)
    (free : List ℕ) (st : IsStocked k n lv slab m q free) where
  -- A slot stands in one queue only.
  one_queue :
      (s s' : Side) (i i' x : ℕ) → i < n → i' < n → x ∈ q s i → x ∈ q s' i' → (s ≡ s') × (i ≡ i')
  one_queue s s' i i' x li li' a b =
      let r = (st.levels s i li).members x a in
      let r' = (st.levels s' i' li').members x b in
      (sym r.side ∙ r'.side, sym r.level_idx ∙ r'.level_idx)

  -- A queued slot stands in no other queue than that of its own place.
  pub other_queue :
      (s s' : Side) (i i' x : ℕ)
      → i < n
      → i' < n
      → (same_side s s' && i' == i) ≡ false
      → x ∈ q s' i'
      → x ∉ q s i
  other_queue s s' i i' x li li' apart a = elim (Bool-cases (has x (q s i))) [
    | inr out ↦ out
    | inl b ↦
        let (e, f) = one_queue s s' i i' x li li' b a in
        absurd (
          let same = same_side_refl s in
          let z = subst (λ z. (same_side s z && i' == i) ≡ false) (sym e) apart in ground arith)
  ]

  module _ (s : Side) (i x : ℕ) (xs ys : List ℕ) (li : i < n) (here : q s i ≡ xs ++ x ∷ ys) where
    at_place : x ∈ q s i
    at_place = rw here (ground (arith, has-append x xs (x ∷ ys)))

    here-Distinct : Distinct (xs ++ x ∷ ys)
    here-Distinct = subst Distinct here (st.levels s i li).distinct

    queued : IsQueued n q x
    queued = record { s = s; i = i; below = li; member = at_place }

    -- What is queued after the removal was queued before, and is not `x`.
    queued_before : (y : ℕ) → IsQueued n (set_at q s i (xs ++ ys)) y → IsQueued n q y × (y ≢ x)
    queued_before y w = elim (Bool-cases (same_side s w.s && w.i == i)) [
      | inl e ↦
          let mem : y ∈ xs ++ ys = rw e at w.member in
          let out = out_of_removed xs ys x here-Distinct in
          (
            record {
              s = s;
              i = i;
              below = li;
              member = rw here (ground (arith, has-append y xs (x ∷ ys), has-append y xs ys));
            },
            λ f. (let z = subst (λ t. t ∈ xs ++ ys) f mem in cc),
          )
      | inr ne ↦
          let mem : y ∈ q w.s w.i = rw ne at w.member in
          (
            record { s = w.s; i = w.i; below = w.below; member = mem },
            λ f.
                (let out = other_queue s w.s i w.i y li w.below ne mem in
                  let z = subst (λ t. t ∉ q s i) f out in let p = at_place in cc),
          )
    ]

    queued_after : (y : ℕ) → IsQueued n q y → y ≢ x → IsQueued n (set_at q s i (xs ++ ys)) y
    queued_after y w ne = elim (Bool-cases (same_side s w.s && w.i == i)) [
      | inl e ↦
          let es : s ≡ w.s = same_side→eq s w.s (ground arith) in
          let ei : w.i ≡ i = ground arith in
          let mem : y ∈ q s i =
            subst (λ t. y ∈ q s t) ei (subst (λ t. y ∈ q t w.i) (sym es) w.member) in
          let mem' : y ∈ xs ++ x ∷ ys = rw here at mem in
          record {
            s = w.s;
            i = w.i;
            below = w.below;
            member = rw e (ground (arith, has-append y xs (x ∷ ys), has-append y xs ys));
          }
      | inr ne' ↦ record { s = w.s; i = w.i; below = w.below; member = rw ne' w.member }
    ]

    module _ (h₁ : Heap) (l₁ : PriceLevel) (spared : (y : ℕ) → y ∉ q s i → h₁ y ≡ slab.storage y)
        (ids : (y : ℕ) → (h₁ y).order_id ≡ (slab.storage y).order_id)
        (left : IsLevel s i h₁ l₁ (xs ++ ys)) where
      abbrev slab₁ : Slab
      slab₁ = record slab { storage = h₁ }

      abbrev freed : Slab
      freed = deallocate slab₁ x

      freed_ne : (y : ℕ) → y ≢ x → freed.storage y ≡ h₁ y
      unfolding deallocate set_prev
      freed_ne y ne = ground arith

      freed_id : (y : ℕ) → (freed.storage y).order_id ≡ (slab.storage y).order_id
      unfolding deallocate set_prev
      freed_id y = elim (Bool-cases (y == x)) [
        | inl e ↦ rw e (let f = ids y in let g = ==→eq y x e in cc)
        | inr ne ↦ rw ne (ids y)
      ]

      freed-HasFree : HasFree freed (x ∷ free)
      freed-HasFree =
          let f = st.slots in
          let (lt, out) = st.used x queued in
          let spare : (y : ℕ) → y ∈ free → (h₁ y).prev ≡ (slab.storage y).prev = λ y mem.
            ap (λ (o : Order). o.prev)
              (spared y (elim (Bool-cases (has y (q s i))) [
                | inr o ↦ o
                | inl w ↦
                    (let z = (st.used y (record { s = s; i = i; below = li; member = w })).1 in
                      absurd (ground arith))
              ])) in
          let all : HasFree slab₁ free = record {
            linked = Linked-frame slab.storage h₁ slab.free_head free spare f.linked;
            distinct = f.distinct;
            below = f.below;
            counted = f.counted;
            fits = f.fits;
          } in
          let full =
            length-Distinct slab.capacity (x ∷ free) (out, f.distinct)
              (λ y mem. elim (Bool-cases (y == x)) [
                | inl e ↦ (let g = ==→eq y x e in omega arith)
                | inr ne ↦ lt_of_Below slab.capacity free f.below y (ground arith)
              ]) in
          deallocate-HasFree slab₁ x free all out lt full

      levels_after :
          (s' : Side) (i' : ℕ)
          → i' < n
          → IsLevel s' i' freed.storage (set_at lv s i l₁ s' i') (set_at q s i (xs ++ ys) s' i')
      levels_after s' i' li' = elim (Bool-cases (same_side s s' && i' == i)) [
        | inl e ↦
            let es : s ≡ s' = same_side→eq s s' (ground arith) in
            let ei : i ≡ i' = ground arith in
            let out = out_of_removed xs ys x here-Distinct in
            rw e (
              subst (λ t. IsLevel t i' freed.storage l₁ (xs ++ ys)) es
                (subst (λ t. IsLevel s t freed.storage l₁ (xs ++ ys)) ei
                  (IsLevel-frame s i h₁ freed.storage l₁ (xs ++ ys)
                    (λ y mem. freed_ne y (λ f. (let z = subst (λ t. t ∈ xs ++ ys) f mem in cc)))
                    left)))
        | inr ne ↦ rw ne (
            IsLevel-frame s' i' slab.storage freed.storage (lv s' i') (q s' i')
              (λ y mem.
                let out = other_queue s s' i i' y li li' ne mem in
                freed_ne y (λ f. (let z = subst (λ t. t ∉ q s i) f out in let p = at_place in cc))
                ∙ spared y out)
              (st.levels s' i' li'))
      ]

      -- `erase` of the order's id returns, and then with the slot given back the book is stocked with
      -- the queues less the order.
      pub removed-IsStocked :
          (m' : IdMap) × (IdMap.erase m (slab.storage x).order_id ≡ some (true, m'))
          × IsStocked k n (set_at lv s i l₁) freed m' (set_at q s i (xs ++ ys)) (x ∷ free)
      removed-IsStocked =
          let id = (slab.storage x).order_id in
          let (jx, sx) = st.listed x queued in
          let (m', run, w) = erase-Stored k m id (some x) jx st.vacancy st.table sx st.vacant in
          (
            m',
            run,
            record {
              levels = levels_after;
              slots = freed-HasFree;
              small = (unfold deallocate in st.small);
              used = λ y z.
                  (let (before, ne) = queued_before y z in
                    let (lt, out) = st.used y before in (unfold deallocate in (lt, ground arith)));
              listed = λ y z.
                  (let (before, ne) = queued_before y z in
                    let (j, sy) = st.listed y before in
                    let apart : j ≢ jx = (λ e. ne (
                      ground (
                        arith,
                        sy.holds_value,
                        sx.holds_value,
                        ap (λ (t : ℕ). (m.slots t).value) e,
                      ))) in
                    let (j', sy') = w.kept (slab.storage y).order_id (some y) j apart sy in
                    (j', subst (λ t. Stored k m' t (some y) j') (sym (freed_id y)) sy'));
              only = λ id' v j sv.
                  (let (j₀, apart, s₀) = w.only id' v j sv in
                    let (y, before, ev, eid) = st.only id' v j₀ s₀ in
                    let ne : y ≢ x = (λ e. apart (
                      st.table.unique j₀ jx s₀.in_table sx.in_table
                        (λ z. s₀.ne_zero (sym s₀.holds_id ∙ z))
                        (s₀.holds_id
                          ∙ sym eid
                          ∙ ap (λ (t : ℕ). (slab.storage t).order_id) e
                          ∙ sym sx.holds_id))) in
                    (y, queued_after y before ne, ev, freed_id y ∙ eid));
              table = w.ordered;
              vacancy = st.vacancy;
              vacant =
                  w.vacancies st.vacancy
                    (λ e.
                      sx.ne_zero (
                        sym sx.holds_id ∙ ap (λ (t : ℕ). (m.slots t).id) (sym e) ∙ st.vacant.empty))
                    st.vacant;
            },
          )

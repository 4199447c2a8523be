-- ===== src/Ring/Threads/Order.antt =====
-- What holds in every state that the two threads can reach.
use mathlib.Core.Path.{subst}
use mathlib.Core.List.{append_assoc}
use orderbook_engine.Base.{
  ℕ, suc, ◌+◌, ◌%◌, ◌^◌, ◌≤◌, ◌<◌, ◌≡◌, refl, sym, ap, ◌∙◌, leb, ◌==◌, Bool-cases, inl, inr, List,
  [], ◌∷◌, ◌++◌, length, length-append, arith, update,
}
use orderbook_engine.Ring.{Ring, new, publish_head, see_head, take, publish_tail}
use orderbook_engine.Ring.Window.{
  IsRing, looks_full_lem, see_tail-IsRing, put-IsRing, publish_head-IsRing, looks_empty_lem,
  see_head-IsRing, take_lem, publish_tail-IsRing, new-IsRing,
}
use orderbook_engine.Ring.Threads.{
  Producer, Consumer, System, begin_push, refresh_tail, put_value, end_push, begin_pop,
  refresh_head, take_value, end_pop, Step, push_begins, push_refreshes, push_puts, push_ends,
  pop_begins, pop_refreshes, pop_takes, pop_ends, Reach, at_start, later,
}

-- The cursor's stores counted up from 0.
abbrev pub IsCount : (ℕ → ℕ) → ℕ → Type 0
IsCount f bound = (n : ℕ) → n ≤ bound → f n ≡ n % 2 ^ 64

IsCount-next :
    (f : ℕ → ℕ) (b x : ℕ)
    → x ≡ (b + 1) % 2 ^ 64
    → IsCount f b
    → IsCount (update f (b + 1) x) (b + 1)
unfolding update
IsCount-next f b x e h n le = ground (arith, h n)

module _ {A : Type 0} where
  -- What the producer and the consumer know where they stand.
  abbrev pub Producing : (k : ℕ) → Producer A → (n seen : ℕ) → (buf : ℕ → A) → Type 0
  Producing k Producer.outside n seen buf = Unit {0}
  Producing k (Producer.refreshing v) n seen buf = Unit {0}
  Producing k (Producer.putting v) n seen buf = n < seen + 2 ^ k
  Producing k (Producer.publishing v) n seen buf = (n < seen + 2 ^ k) × (buf (n % 2 ^ k) ≡ v)

  abbrev pub Starts : A → List A → Type 0
  Starts v [] = ⊥
  Starts v (x ∷ xs) = x ≡ v

  abbrev pub Consuming : Consumer A → (t seen : ℕ) → List A → Type 0
  Consuming Consumer.outside t seen xs = Unit {0}
  Consuming Consumer.refreshing t seen xs = Unit {0}
  Consuming Consumer.taking t seen xs = t < seen
  Consuming (Consumer.publishing v) t seen xs = (t < seen) × Starts v xs

  -- The values of `xs` wait in the ring; both threads are where they may be.
  pub record IsRun (k : ℕ) (s : System A) (xs : List A) : Type 0 where
    pub ring : IsRing k s.ring (length s.popped) s.seen_tails s.seen_heads xs
    pub order : s.pushed ≡ s.popped ++ xs
    pub heads : IsCount s.head_at (length s.pushed)
    pub tails : IsCount s.tail_at (length s.popped)
    pub producing : Producing k s.producer (length s.pushed) s.seen_tails s.ring.buf
    pub consuming : Consuming s.consumer (length s.popped) s.seen_heads xs

  Consuming-snoc :
      (c : Consumer A) (t seen : ℕ) (xs : List A) (v : A)
      → Consuming c t seen xs
      → Consuming c t seen (xs ++ v ∷ [])
  Consuming-snoc Consumer.outside t seen xs v h = tt
  Consuming-snoc Consumer.refreshing t seen xs v h = tt
  Consuming-snoc Consumer.taking t seen xs v h = h
  Consuming-snoc (Consumer.publishing x) t seen [] v h = absurd h.1
  Consuming-snoc (Consumer.publishing x) t seen (y ∷ xs) v h = h

  Starts-take :
      (k : ℕ) (r : Ring A) (t ct ch : ℕ) (xs : List A)
      → IsRing k r t ct ch xs
      → t < ch
      → Starts (take r) xs
  Starts-take k r t ct ch [] h lt = absurd (omega (arith, h.known))
  Starts-take k r t ct ch (x ∷ xs) h lt = sym (take_lem k r t ct ch x xs h)

module _ {A : Type 0} (k : ℕ) (s : System A) (xs : List A) (h : IsRun k s xs) where
  pub pushed_length : length s.pushed ≡ length s.popped + length xs
  pushed_length = ap (λ (z : List A). length z) h.order ∙ length-append s.popped xs

  begin_push-IsRun : (v : A) → s.producer ≡ Producer.outside → IsRun k (begin_push s v) xs
  begin_push-IsRun v e =
      let full = looks_full_lem k s.ring _ _ _ xs h.ring in
      record {
        ring = h.ring;
        order = h.order;
        heads = h.heads;
        tails = h.tails;
        producing = elim (Bool-cases (leb (s.seen_tails + 2 ^ k) (length s.popped + length xs))) [
          | inl no_room ↦ rw (full, no_room) tt
          | inr room ↦ rw (full, room) (ground (arith, pushed_length))
        ];
        consuming = h.consuming;
      }

  refresh_tail-IsRun :
      (v : A) (n : ℕ) → s.seen_tails ≤ n → n ≤ length s.popped → IsRun k (refresh_tail s v n) xs
  refresh_tail-IsRun v n lo hi =
      let e = h.tails n hi in
      let r = see_tail-IsRing k s.ring _ _ _ xs h.ring n lo hi in
      let full = looks_full_lem k _ _ _ _ xs r in
      record {
        ring = rw e r;
        order = h.order;
        heads = h.heads;
        tails = h.tails;
        producing = rw e (elim (Bool-cases (leb (n + 2 ^ k) (length s.popped + length xs))) [
          | inl no_room ↦ rw (full, no_room) tt
          | inr room ↦ rw (full, room) (ground (arith, pushed_length))
        ]);
        consuming = h.consuming;
      }

  put_value-IsRun : (v : A) → s.producer ≡ Producer.putting v → IsRun k (put_value s v) xs
  put_value-IsRun v e =
      let room : length s.pushed < s.seen_tails + 2 ^ k =
        subst (λ z. Producing k z (length s.pushed) s.seen_tails s.ring.buf) e h.producing in
      let (r, at) = put-IsRing k s.ring _ _ _ xs h.ring v (omega (arith, pushed_length)) in
      record {
        ring = r;
        order = h.order;
        heads = h.heads;
        tails = h.tails;
        producing = (room, rw pushed_length at);
        consuming = h.consuming;
      }

  end_push-IsRun :
      (v : A) → s.producer ≡ Producer.publishing v → IsRun k (end_push s v) (xs ++ v ∷ [])
  unfolding publish_head
  end_push-IsRun v e =
      let (room, at) =
        subst (λ z. Producing k z (length s.pushed) s.seen_tails s.ring.buf) e h.producing in
      let r =
        publish_head-IsRing k s.ring _ _ _ xs h.ring v (omega (arith, pushed_length))
          (rw pushed_length at at) in
      let l = length-append s.pushed (v ∷ []) in
      record {
        ring = r;
        order = rw h.order (append_assoc s.popped xs (v ∷ []));
        heads = rw l (
            IsCount-next s.head_at (length s.pushed) _ (omega (arith, h.ring.head, pushed_length))
              h.heads);
        tails = h.tails;
        producing = tt;
        consuming = Consuming-snoc s.consumer _ _ xs v h.consuming;
      }

  begin_pop-IsRun : s.consumer ≡ Consumer.outside → IsRun k (begin_pop s) xs
  begin_pop-IsRun e =
      let empty = looks_empty_lem k s.ring _ _ _ xs h.ring in
      record {
        ring = h.ring;
        order = h.order;
        heads = h.heads;
        tails = h.tails;
        producing = h.producing;
        consuming = elim (Bool-cases (length s.popped == s.seen_heads)) [
          | inl drained ↦ rw (empty, drained) tt
          | inr more ↦ rw (empty, more) (ground (arith, h.ring.seen_head))
        ];
      }

  refresh_head-IsRun :
      (n : ℕ) → s.seen_heads ≤ n → n ≤ length s.pushed → IsRun k (refresh_head s n) xs
  unfolding see_head
  refresh_head-IsRun n lo hi =
      let e = h.heads n hi in
      let r = see_head-IsRing k s.ring _ _ _ xs h.ring n lo (omega (arith, pushed_length)) in
      let empty = looks_empty_lem k _ _ _ _ xs r in
      record {
        ring = rw e r;
        order = h.order;
        heads = h.heads;
        tails = h.tails;
        producing = h.producing;
        consuming = rw e (elim (Bool-cases (length s.popped == n)) [
          | inl drained ↦ rw (empty, drained) tt
          | inr more ↦ rw (empty, more) (ground (arith, r.seen_head))
        ]);
      }

  take_value-IsRun : s.consumer ≡ Consumer.taking → IsRun k (take_value s) xs
  take_value-IsRun e =
      let more : length s.popped < s.seen_heads =
        subst (λ z. Consuming z (length s.popped) s.seen_heads xs) e h.consuming in
      record {
        ring = h.ring;
        order = h.order;
        heads = h.heads;
        tails = h.tails;
        producing = h.producing;
        consuming = (more, Starts-take k s.ring _ _ _ xs h.ring more);
      }

-- The end of `try_pop`, with the value that is returned in front.
end_pop-IsRun :
    {A : Type 0} (k : ℕ) (s : System A) (x v : A) (xs : List A)
    → IsRun k s (x ∷ xs)
    → s.consumer ≡ Consumer.publishing v
    → IsRun k (end_pop s v) xs
unfolding publish_tail
end_pop-IsRun {A} k s x v xs h e =
    let (more, at) =
      subst (λ z. Consuming z (length s.popped) s.seen_heads (x ∷ xs)) e h.consuming in
    let l : length (s.popped ++ v ∷ []) ≡ suc (length s.popped) =
      length-append s.popped (v ∷ []) ∙ omega arith in
    let r = publish_tail-IsRing k s.ring _ _ _ x xs h.ring more in
    record {
      ring = rw l r;
      order =
          h.order ∙ ap (λ (z : A). s.popped ++ z ∷ xs) at ∙ sym (append_assoc s.popped (v ∷ []) xs);
      heads = h.heads;
      tails =
          rw length-append
            (IsCount-next s.tail_at (length s.popped) _ (omega (arith, h.ring.tail)) h.tails);
      producing = h.producing;
      consuming = tt;
    }

Step-IsRun :
    {A : Type 0} (k : ℕ) (s t : System A) (xs : List A)
    → IsRun k s xs
    → Step s t
    → (ys : List A) × IsRun k t ys
Step-IsRun k s _ xs h (push_begins v e) = (xs, begin_push-IsRun k s xs h v e)
Step-IsRun k s _ xs h (push_refreshes v n e lo hi) = (xs, refresh_tail-IsRun k s xs h v n lo hi)
Step-IsRun k s _ xs h (push_puts v e) = (xs, put_value-IsRun k s xs h v e)
Step-IsRun k s _ xs h (push_ends v e) = (xs ++ v ∷ [], end_push-IsRun k s xs h v e)
Step-IsRun k s _ xs h (pop_begins e) = (xs, begin_pop-IsRun k s xs h e)
Step-IsRun k s _ xs h (pop_refreshes n e lo hi) = (xs, refresh_head-IsRun k s xs h n lo hi)
Step-IsRun k s _ xs h (pop_takes e) = (xs, take_value-IsRun k s xs h e)
Step-IsRun k s _ [] h (pop_ends v e) =
    absurd (subst (λ z. Consuming z (length s.popped) s.seen_heads []) e h.consuming).1
Step-IsRun k s _ (x ∷ xs) h (pop_ends v e) = (xs, end_pop-IsRun k s x v xs h e)

pub Reach-IsRun :
    {A : Type 0} (k : ℕ) (init : A) (s : System A)
    → 1 ≤ k
    → k < 64
    → Reach (new init (2 ^ k)) s
    → (xs : List A) × IsRun k s xs
unfolding new
Reach-IsRun k init _ pos bound at_start = (
  [],
  record {
    ring = new-IsRing k init pos bound;
    order = refl;
    heads = λ n le. ground arith;
    tails = λ n le. ground arith;
    producing = tt;
    consuming = tt;
  },
)
Reach-IsRun k init t pos bound (later {s} r st) =
    let (xs, h) = Reach-IsRun k init s pos bound r in Step-IsRun k s t xs h st

-- ===== src/Ring/Window.antt =====
-- What the fields of a ring stand for: the values that wait in it, and how each part of the operations
-- changes them.
use Prim.Native.Nat.{bit_and}
use native.Mathlib.Nat.{one-le-pow, pow-le-pow_right}
use orderbook_engine.Base.{
  ℕ, suc, ◌+◌, ◌-◌, ◌%◌, ◌^◌, ◌≤◌, ◌<◌, ◌≡◌, ◌≢◌, refl, sym, ap, ◌∙◌, leb, ◌==◌, update,
  update_self, update_ne, List, [], ◌∷◌, ◌++◌, length, length-append, arith,
}
use orderbook_engine.Base.Bits.{bit_and-mask}
use orderbook_engine.Base.Modulo.{mod-word, mod-ne}
use orderbook_engine.Ring.{
  Ring, new, next_head, looks_full, see_tail, put, publish_head, looks_empty, see_head, take,
  publish_tail,
}

module _ {A : Type 0} where
  -- The slots from the count `t` on, around a buffer of `2 ^ k` slots, hold the values of the list.
  abbrev pub IsWindow : (k : ℕ) → (ℕ → A) → (t : ℕ) → List A → Type 0
  IsWindow k buf t [] = Unit {0}
  IsWindow k buf t (x ∷ xs) = (buf (t % 2 ^ k) ≡ x) × IsWindow k buf (suc t) xs

  -- A write behind the window, before its start comes round again, leaves it alone.
  IsWindow-update :
      (k : ℕ) (buf : ℕ → A) (t j : ℕ) (v : A) (xs : List A)
      → t + length xs ≤ j
      → j < t + 2 ^ k
      → IsWindow k buf t xs
      → IsWindow k (update buf (j % 2 ^ k) v) t xs
  IsWindow-update k buf t j v [] le lt w = tt
  IsWindow-update k buf t j v (x ∷ xs) le lt (e, w) =
      let d = j - t in
      let f : t + d ≡ j = omega arith in
      let ne : t % 2 ^ k ≢ j % 2 ^ k =
        λ q. mod-ne (2 ^ k) t d (omega arith) (omega arith) (ap (λ (z : ℕ). z % 2 ^ k) f ∙ sym q) in
      (
        update_ne buf (j % 2 ^ k) v (t % 2 ^ k) ne ∙ e,
        IsWindow-update k buf (suc t) j v xs (omega arith) (omega arith) w,
      )

  IsWindow-snoc :
      (k : ℕ) (buf : ℕ → A) (t : ℕ) (v : A) (xs : List A)
      → buf ((t + length xs) % 2 ^ k) ≡ v
      → IsWindow k buf t xs
      → IsWindow k buf t (xs ++ v ∷ [])
  IsWindow-snoc k buf t v [] at w = let e : t + 0 ≡ t = omega arith in (rw e at at, tt)
  IsWindow-snoc k buf t v (x ∷ xs) at (e, w) =
      let f : t + suc (length xs) ≡ suc t + length xs = omega arith in
      (e, IsWindow-snoc k buf (suc t) v xs (rw f at at) w)

  -- The ring has `2 ^ k` slots. The head was stored as often as there were values, the tail `t` times;
  -- the values of `xs` wait. The producer has seen `ct` stores of the tail, the consumer `ch` of the
  -- head.
  pub record IsRing (k : ℕ) (r : Ring A) (t ct ch : ℕ) (xs : List A) : Type 0 where
    pub width : r.mask ≡ 2 ^ k - 1
    pub pos : 1 ≤ k
    pub bound : k < 64
    pub head : r.head ≡ (t + length xs) % 2 ^ 64
    pub tail : r.tail ≡ t % 2 ^ 64
    pub cached_tail : r.cached_tail ≡ ct % 2 ^ 64
    pub cached_head : r.cached_head ≡ ch % 2 ^ 64
    pub seen_tail : ct ≤ t
    pub room : t + length xs ≤ ct + 2 ^ k
    pub seen_head : t ≤ ch
    pub known : ch ≤ t + length xs
    pub window : IsWindow k r.buf t xs

slots_bound : (k : ℕ) → k < 64 → 2 ^ k ≤ 2 ^ 63
slots_bound k lt = pow-le-pow_right {n = 2} (omega arith) {j = 63} (omega arith)

slots_pos : (k : ℕ) → 1 ≤ 2 ^ k
slots_pos k = one-le-pow k 2 (omega arith)

module _ {A : Type 0} (k : ℕ) (r : Ring A) (t ct ch : ℕ) (xs : List A)
    (h : IsRing k r t ct ch xs) where
  -- A word's slot is that of the count which it stands for.
  pub slot : (x y : ℕ) → x ≡ y % 2 ^ 64 → bit_and x r.mask ≡ y % 2 ^ k
  slot x y e = rw (e, h.width) (bit_and-mask k (y % 2 ^ 64) ∙ mod-word k y h.bound)

  pub looks_full_lem : looks_full r ≡ leb (ct + 2 ^ k) (t + length xs)
  unfolding looks_full
  looks_full_lem =
      let b = slots_bound k h.bound in
      let p = slots_pos k in
      let e : (next_head r + 2 ^ 64 - r.cached_tail) % 2 ^ 64 ≡ t + length xs + 1 - ct =
        omega (arith, h.head, h.cached_tail, h.seen_tail, h.room) in
      let f : r.mask + 1 ≡ 2 ^ k = omega (arith, h.width) in rw (e, f) (ground (arith, h.seen_tail))

  pub see_tail-IsRing : (n : ℕ) → ct ≤ n → n ≤ t → IsRing k (see_tail r (n % 2 ^ 64)) t n ch xs
  unfolding see_tail
  see_tail-IsRing n lo hi = record {
    width = h.width;
    pos = h.pos;
    bound = h.bound;
    head = h.head;
    tail = h.tail;
    cached_tail = refl;
    cached_head = h.cached_head;
    seen_tail = hi;
    room = omega (arith, h.room);
    seen_head = h.seen_head;
    known = h.known;
    window = h.window;
  }

  pub put-IsRing :
      (v : A)
      → t + length xs < ct + 2 ^ k
      → IsRing k (put r v) t ct ch xs × ((put r v).buf ((t + length xs) % 2 ^ k) ≡ v)
  unfolding put
  put-IsRing v lt =
      let e = slot r.head (t + length xs) h.head in
      let w =
        IsWindow-update k r.buf t (t + length xs) v xs (omega arith) (omega (arith, h.seen_tail))
          h.window in
      rw e (
        record {
          width = h.width;
          pos = h.pos;
          bound = h.bound;
          head = h.head;
          tail = h.tail;
          cached_tail = h.cached_tail;
          cached_head = h.cached_head;
          seen_tail = h.seen_tail;
          room = h.room;
          seen_head = h.seen_head;
          known = h.known;
          window = w;
        },
        update_self r.buf ((t + length xs) % 2 ^ k) v,
      )

  pub publish_head-IsRing :
      (v : A)
      → t + length xs < ct + 2 ^ k
      → r.buf ((t + length xs) % 2 ^ k) ≡ v
      → IsRing k (publish_head r) t ct ch (xs ++ v ∷ [])
  unfolding publish_head
  publish_head-IsRing v lt at =
      let l = length-append xs (v ∷ []) in
      record {
        width = h.width;
        pos = h.pos;
        bound = h.bound;
        head = omega (arith, h.head, l);
        tail = h.tail;
        cached_tail = h.cached_tail;
        cached_head = h.cached_head;
        seen_tail = h.seen_tail;
        room = omega (arith, l);
        seen_head = h.seen_head;
        known = omega (arith, l, h.known);
        window = IsWindow-snoc k r.buf t v xs at h.window;
      }

  pub looks_empty_lem : looks_empty r ≡ t == ch
  unfolding looks_empty
  looks_empty_lem =
      let b = slots_bound k h.bound in
      rw (h.tail, h.cached_head) (ground (arith, h.seen_head, h.known, h.room, h.seen_tail))

  pub see_head-IsRing :
      (n : ℕ) → ch ≤ n → n ≤ t + length xs → IsRing k (see_head r (n % 2 ^ 64)) t ct n xs
  unfolding see_head
  see_head-IsRing n lo hi = record {
    width = h.width;
    pos = h.pos;
    bound = h.bound;
    head = h.head;
    tail = h.tail;
    cached_tail = h.cached_tail;
    cached_head = refl;
    seen_tail = h.seen_tail;
    room = h.room;
    seen_head = omega (arith, h.seen_head);
    known = hi;
    window = h.window;
  }

-- The consumer's parts, at a value `x` that waits in front of `xs`.
module _ {A : Type 0} (k : ℕ) (r : Ring A) (t ct ch : ℕ) (x : A) (xs : List A)
    (h : IsRing k r t ct ch (x ∷ xs)) where
  pub take_lem : take r ≡ x
  unfolding take
  take_lem = ap r.buf (slot k r t ct ch (x ∷ xs) h r.tail t h.tail) ∙ h.window.0

  pub publish_tail-IsRing : t < ch → IsRing k (publish_tail r) (suc t) ct ch xs
  unfolding publish_tail
  publish_tail-IsRing lt = record {
    width = h.width;
    pos = h.pos;
    bound = h.bound;
    head = h.head ∙ ap (λ (z : ℕ). z % 2 ^ 64) (omega arith);
    tail = omega (arith, h.tail);
    cached_tail = h.cached_tail;
    cached_head = h.cached_head;
    seen_tail = omega (arith, h.seen_tail);
    room = omega (arith, h.room);
    seen_head = lt;
    known = omega (arith, h.known);
    window = h.window.1;
  }

-- A new ring of a power of two of slots, two at least, has no value in it.
pub new-IsRing :
    {A : Type 0} (k : ℕ) (init : A) → 1 ≤ k → k < 64 → IsRing k (new init (2 ^ k)) 0 0 0 []
unfolding new
new-IsRing k init pos bound = record {
  width = refl;
  pos = pos;
  bound = bound;
  head = refl;
  tail = refl;
  cached_tail = refl;
  cached_head = refl;
  seen_tail = omega arith;
  room = omega arith;
  seen_head = omega arith;
  known = omega arith;
  window = tt;
}

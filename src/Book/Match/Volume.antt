-- ===== src/Book/Match/Volume.antt =====
-- What the matching loop trades, whatever the state of the book.
use mathlib.Core.Path.{subst}
use orderbook_engine.Base.{
  ℕ, zero, suc, ◌+◌, ◌-◌, ◌≡◌, refl, ◌∙◌, sym, false, Option, none, some, List, [], ◌∷◌, ◌++◌, ◌==◌,
  arith, Bool-cases, inl, inr, All, All-append,
}
use orderbook_engine.Base.Steps.{Holds, Holds-bind, Holds-of}
use orderbook_engine.Book.State.{Book, Config, PriceLevel, level, set_level, is_empty}
use orderbook_engine.Book.Rest.{best_idx, set_best_idx, clear_bit}
use orderbook_engine.Book.Match.{
  Matched, done, put_trade, put_trades, fill_of, take_fill, unlink_head, release, fill_round,
  after_level, Aggressor, trade, retire_head, fill_head, fill_loop, is_breached, leave_level,
  match_loop, match_side, level_rounds, side_rounds,
}
use orderbook_engine.IdMap
use orderbook_engine.Types.{Trade, Side, opposite}

-- The quantity that the trades exchange.
abbrev pub volume : List Trade → ℕ
volume [] = 0
volume (t ∷ ts) = t.quantity + volume ts

pub volume-append : (xs ys : List Trade) → volume (xs ++ ys) ≡ volume xs + volume ys
volume-append [] ys = omega arith
volume-append (x ∷ xs) ys = omega (arith, volume-append xs ys)

-- The configuration never changes.
abbrev pub SameCfg : Book → Book → Type 0
SameCfg b b' = b'.cfg ≡ b.cfg

set_level-cfg : (b : Book) (s : Side) (i : ℕ) (l : PriceLevel) → (set_level b s i l).cfg ≡ b.cfg
unfolding set_level
set_level-cfg b Side.buy i l = refl
set_level-cfg b Side.sell i l = refl

pub fill_head-cfg : (b : Book) (s : Side) (i h q : ℕ) → Holds (SameCfg b) (fill_head b s i h q)
unfolding fill_head retire_head release take_fill unlink_head
fill_head-cfg b s i h q =
    let b' = take_fill b s i h q in
    let e : b'.cfg ≡ b.cfg = set_level-cfg _ s i _ in
    let b'' = unlink_head b' s i h in
    let e' : b''.cfg ≡ b.cfg = set_level-cfg _ s i _ ∙ e in
    elim (Bool-cases ((b'.slab.storage h).quantity == 0)) [
      | inl gone ↦ rw gone (
          Holds-bind (SameCfg b) (IdMap.erase b''.id_map (b''.slab.storage h).order_id)
            (release b'' h) (λ r _. e'))
      | inr left ↦ rw left e
    ]

pub leave_level-cfg : (b : Book) (s : Side) (i : ℕ) → (leave_level b s i).cfg ≡ b.cfg
unfolding leave_level set_best_idx clear_bit
leave_level-cfg b Side.buy i = refl
leave_level-cfg b Side.sell i = refl

-- What the loops keep: the configuration, the quantity that is filled or left, and a property that
-- every trade has.
pub record Keeps (P : Trade → Type 0) (b : Book) (qty : ℕ) (m : Matched) : Type 0 where
  pub cfg : m.book.cfg ≡ b.cfg
  pub conserved : m.remaining + volume m.trades ≡ qty
  pub all : All P m.trades

done-Keeps : (P : Trade → Type 0) (b : Book) (r : ℕ) → Keeps P b r (done b r)
done-Keeps P b r = record { cfg = refl; conserved = omega arith; all = tt }

module _ (P : Trade → Type 0) (a : Aggressor) (i : ℕ) where
  -- The property holds of every trade at this level of a book with this configuration.
  abbrev Grants : Config → Type 0
  Grants c = (b : Book) (h fill : ℕ) → b.cfg ≡ c → P (trade b a i h fill)

  fill_round-Keeps :
      (next : Book → ℕ → Option Matched) (b : Book) (r : ℕ) (head : Option ℕ)
      → Grants b.cfg
      → ((b' : Book) (r' : ℕ) → b'.cfg ≡ b.cfg → Holds (Keeps P b' r') (next b' r'))
      → Holds (Keeps P b r) (fill_round next b a i r head)
  unfolding fill_round
  fill_round-Keeps next b r none each rest = done-Keeps P b r
  fill_round-Keeps next b r (some h) each rest =
      let fill = fill_of b h r in
      Holds-bind (Keeps P b r) (fill_head b (opposite a.side) i h fill) _ λ b' e.
        let same = Holds-of (SameCfg b) _ b' (fill_head-cfg b (opposite a.side) i h fill) e in
        Holds-bind (Keeps P b r) (next b' (r - fill)) (put_trade (trade b a i h fill)) λ m e'.
          let k = Holds-of (Keeps P b' (r - fill)) _ m (rest b' (r - fill) same) e' in
          record {
            cfg = k.cfg ∙ same;
            conserved = omega (arith, k.conserved);
            all = (each b h fill refl, k.all);
          }

  fill_loop-Keeps :
      (k : ℕ) (b : Book) (r : ℕ) → Grants b.cfg → Holds (Keeps P b r) (fill_loop k b a i r)
  unfolding fill_loop
  fill_loop-Keeps zero b r each = tt
  fill_loop-Keeps (suc k) b r each = elim (Bool-cases (r == 0)) [
    | inl z ↦ rw z (done-Keeps P b r)
    | inr more ↦ rw more (
        fill_round-Keeps (λ b' r'. fill_loop k b' a i r') b r _ each
          (λ b' r' e. fill_loop-Keeps k b' r' (subst Grants (sym e) each)))
  ]

module _ (P : Trade → Type 0) (a : Aggressor) (limit : Option ℕ) where
  -- The property holds of every trade at a level that does not breach the limit.
  abbrev pub GrantsWithin : Config → Type 0
  GrantsWithin c =
      (b : Book) (i h fill : ℕ)
      → b.cfg ≡ c
      → is_breached a.side limit i ≡ false
      → P (trade b a i h fill)

  -- What the rest of the outer loop keeps.
  abbrev NextKeeps : Config → (Book → Option ℕ → ℕ → Option Matched) → Type 0
  NextKeeps c next =
      (b' : Book) (j : Option ℕ) (r : ℕ) → b'.cfg ≡ c → Holds (Keeps P b' r) (next b' j r)

  after_level-Keeps :
      (next : Book → Option ℕ → ℕ → Option Matched) (side : Side) (i : ℕ) (b : Book) (r : ℕ)
      (m : Matched)
      → NextKeeps b.cfg next
      → Keeps P b r m
      → Holds (Keeps P b r) (after_level next side i m)
  unfolding after_level
  after_level-Keeps next side i b r m rest k =
      let b' = leave_level m.book side i in
      let same : b'.cfg ≡ b.cfg = leave_level-cfg m.book side i ∙ k.cfg in
      elim (Bool-cases (is_empty (level m.book side i))) [
        | inr left ↦ rw left k
        | inl empty ↦ rw empty (
            Holds-bind (Keeps P b r) (next b' (best_idx b' side) m.remaining) (put_trades m.trades)
              λ n e.
                let k' = Holds-of (Keeps P b' m.remaining) _ n (rest b' _ m.remaining same) e in
                record {
                  cfg = k'.cfg ∙ same;
                  conserved =
                      omega (arith, k.conserved, k'.conserved, volume-append m.trades n.trades);
                  all = All-append P m.trades n.trades k.all k'.all;
                })
      ]

  match_loop-Keeps :
      (k : ℕ) (b : Book) (i : Option ℕ) (r : ℕ)
      → GrantsWithin b.cfg
      → Holds (Keeps P b r) (match_loop k b a limit i r)
  unfolding match_loop
  match_loop-Keeps zero b i r each = tt
  match_loop-Keeps (suc k) b none r each = done-Keeps P b r
  match_loop-Keeps (suc k) b (some i) r each = elim (Bool-cases (r == 0)) [
    | inl z ↦ rw z (done-Keeps P b r)
    | inr more ↦ elim (Bool-cases (is_breached a.side limit i)) [
      | inl out ↦ rw (more, out) (done-Keeps P b r)
      | inr within ↦
          rw (more, within)
            (Holds-bind (Keeps P b r) (fill_loop (level_rounds b) b a i r)
              (after_level (λ b' j r'. match_loop k b' a limit j r') (opposite a.side) i)
              λ m e.
                after_level-Keeps (λ b' j r'. match_loop k b' a limit j r') (opposite a.side) i b r
                  m
                  (λ b' j r' same. match_loop-Keeps k b' j r' (subst GrantsWithin (sym same) each))
                  (Holds-of (Keeps P b r) _ m
                    (fill_loop-Keeps P a i (level_rounds b) b r
                      (λ b' h fill same. each b' i h fill same within))
                    e))
    ]
  ]

  -- The whole walk.
  pub match_side-Keeps :
      (b : Book) (r : ℕ) → GrantsWithin b.cfg → Holds (Keeps P b r) (match_side b a limit r)
  unfolding match_side
  match_side-Keeps b r each = match_loop-Keeps (side_rounds b) b _ r each

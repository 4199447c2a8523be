-- ===== src/IdMap/Move.antt =====
-- A round of the backshift: the next entry moves into the hole.
use mathlib.Core.Path.{subst₂}
use orderbook_engine.Base.{
  true, false, ℕ, ◌+◌, ◌^◌, ◌≤◌, ◌<◌, ◌≡◌, ◌≢◌, ◌∙◌, sym, ap, arith, Option, none, some, ◌==◌,
  if◌then◌else◌, Bool-cases, inl, inr, ==→eq, ==→ne, update, update_self, update_ne,
}
use orderbook_engine.IdMap.{IdMap}
use orderbook_engine.IdMap.Circle.{step, walk, gap, walk-ne, gap-step, step-lt, step_injective}
use orderbook_engine.IdMap.Ordered.{home, home-lt, wide, profile, Follows, Chained, profile-some}
use orderbook_engine.IdMap.Hole.{HasHole}

module _ (k : ℕ) (m : IdMap) (hole : ℕ) where
  -- One round: the next entry moves into the hole, and its slot is the hole.
  abbrev pub moved : IdMap
  moved = record m { slots = update m.slots hole (m.slots (step (2 ^ k) hole)) }

  profile-moved :
      (i : ℕ)
      → (m.slots (step (2 ^ k) hole)).id ≢ 0
      → profile k moved.slots i ≡ (
          if i == hole
          then some (gap (2 ^ k) (home k (m.slots (step (2 ^ k) hole)).id) hole)
          else profile k m.slots i)
  unfolding profile update
  profile-moved i nz = elim (Bool-cases (i == hole)) [
    | inl e ↦
        let a : ((m.slots (step (2 ^ k) hole)).id == 0) ≡ false = ground arith in
        rw (e, a)
          (ap (λ (x : ℕ). some (gap (2 ^ k) (home k (m.slots (step (2 ^ k) hole)).id) x))
            (==→eq i hole e))
    | inr ne ↦ rw ne
  ]

  -- What the entries before the hole ask of the entry that moves into it.
  Follows-moved : (a : Option ℕ) (d g : ℕ) → Follows a (some d) → g ≤ d → Follows a (some g)
  Follows-moved none d g h le = omega arith
  Follows-moved (some c) d g h le = omega arith

  module _ (d : ℕ) (h : HasHole k m hole d) (nz : (m.slots (step (2 ^ k) hole)).id ≢ 0) where
    -- The distance of the next entry from its ideal slot, before and after it moves.
    abbrev pub before : ℕ
    before = gap (2 ^ k) (home k (m.slots (step (2 ^ k) hole)).id) (step (2 ^ k) hole)

    abbrev afterwards : ℕ
    afterwards = gap (2 ^ k) (home k (m.slots (step (2 ^ k) hole)).id) hole

    pub next-ne : step (2 ^ k) hole ≢ hole
    next-ne = unfold walk in walk-ne (2 ^ k) hole 0 h.in_table (wide k h.width.pos)

    before_lem : before ≢ 0 → before ≡ afterwards + 1
    before_lem ne =
        gap-step (2 ^ k) (home k (m.slots (step (2 ^ k) hole)).id) hole
          (home-lt k (m.slots (step (2 ^ k) hole)).id) h.in_table ne

    -- The chain at a slot other than the hole, and behind it.
    old_at : (i : ℕ) → i ≢ hole → update (profile k m.slots) hole (some d) i ≡ profile k m.slots i
    old_at i ne = update_ne (profile k m.slots) hole (some d) i ne

    pub at_next : profile k m.slots (step (2 ^ k) hole) ≡ some before
    at_next = profile-some k m.slots (step (2 ^ k) hole) nz

    before-le : before ≤ d + 1
    before-le =
        subst₂ Follows (update_self (profile k m.slots) hole (some d))
          (old_at (step (2 ^ k) hole) next-ne ∙ at_next) (h.chained hole h.in_table)

    new_at : (i : ℕ) → i ≢ hole → profile k moved.slots i ≡ profile k m.slots i
    new_at i ne = profile-moved i nz ∙ (let e : (i == hole) ≡ false = ground arith in rw e)

    new_at_hole : profile k moved.slots hole ≡ some afterwards
    new_at_hole = profile-moved hole nz ∙ (let e : (hole == hole) ≡ true = ground arith in rw e)

    new_after_next :
        before ≢ 0
        → Follows (some before) (profile k moved.slots (step (2 ^ k) (step (2 ^ k) hole)))
    new_after_next ne =
        let n = 2 ^ k in
        let next = step n hole in
        elim (Bool-cases (step n next == hole)) [
          | inl e ↦ rw (==→eq _ _ e, new_at_hole) (omega (arith, before_lem ne))
          | inr ne' ↦ rw (new_at (step n next) (==→ne _ _ ne')) (
              subst₂ Follows (old_at next next-ne ∙ at_next) (old_at (step n next) (==→ne _ _ ne'))
                (h.chained next (step-lt n hole h.in_table)))
        ]

    new_elsewhere :
        before ≢ 0
        → (i : ℕ) → i < 2 ^ k
        → i ≢ hole
        → Follows (profile k moved.slots i) (profile k moved.slots (step (2 ^ k) i))
    new_elsewhere ne i lt away =
        let n = 2 ^ k in
        elim (Bool-cases (step n i == hole)) [
          | inl e ↦
              rw (==→eq _ _ e, new_at_hole, new_at i away)
                (Follows-moved (profile k m.slots i) d afterwards
                  (subst₂ Follows (old_at i away)
                    (ap (update (profile k m.slots) hole (some d)) (==→eq _ _ e)
                      ∙ update_self (profile k m.slots) hole (some d))
                    (h.chained i lt))
                  (omega (arith, before_lem ne, before-le)))
          | inr ne' ↦
              rw (new_at i away, new_at (step n i) (==→ne _ _ ne'))
                (subst₂ Follows (old_at i away) (old_at (step n i) (==→ne _ _ ne'))
                  (h.chained i lt))
        ]

    pub Chained-moved :
        before ≢ 0 → Chained k (update (profile k moved.slots) (step (2 ^ k) hole) (some before))
    Chained-moved ne i lt =
        let n = 2 ^ k in
        let next = step n hole in
        let p = profile k moved.slots in
        elim (Bool-cases (i == next)) [
          | inl e ↦
              let there = walk-ne n next 0 (step-lt n hole h.in_table) (wide k h.width.pos) in
              subst₂ Follows
                (sym (
                  ap (update p next (some before)) (==→eq i next e)
                  ∙ update_self p next (some before)))
                (sym (
                  ap (λ (x : ℕ). update p next (some before) (step n x)) (==→eq i next e)
                  ∙ update_ne p next (some before) (step n next) (unfold walk in there)))
                (new_after_next ne)
          | inr away ↦ elim (Bool-cases (step n i == next)) [
            | inl e ↦
                let at_hole = step_injective n i hole lt h.in_table (==→eq _ _ e) in
                subst₂ Follows
                  (sym (
                    ap (update p next (some before)) at_hole
                    ∙ update_ne p next (some before) hole (λ q. next-ne (sym q))
                    ∙ new_at_hole))
                  (sym (
                    ap (update p next (some before)) (==→eq _ _ e)
                    ∙ update_self p next (some before)))
                  (let q : before ≤ afterwards + 1 = omega (arith, before_lem ne) in q)
            | inr ne' ↦
                let off : i ≢ hole = (λ q. ==→ne _ _ ne' (ap (step n) q)) in
                subst₂ Follows (sym (update_ne p next (some before) i (==→ne i next away)))
                  (sym (update_ne p next (some before) (step n i) (==→ne _ _ ne')))
                  (new_elsewhere ne i lt off)
          ]
        ]

    HasHole-moved_unique :
        (i j : ℕ)
        → i ≢ step (2 ^ k) hole
        → j ≢ step (2 ^ k) hole
        → i < 2 ^ k
        → j < 2 ^ k
        → (moved.slots i).id ≢ 0
        → (moved.slots i).id ≡ (moved.slots j).id
        → i ≡ j
    unfolding update
    HasHole-moved_unique i j ni nj li lj ne e =
        let next = step (2 ^ k) hole in
        let ln = step-lt (2 ^ k) hole h.in_table in
        ground (arith, next-ne, nz, h.unique i j, h.unique next j next-ne, h.unique next i next-ne)

    -- The slot that the entry left is the new hole.
    pub HasHole-moved : before ≢ 0 → HasHole k moved (step (2 ^ k) hole) before
    HasHole-moved ne = record {
      width = record { width = h.width.width; pos = h.width.pos; bound = h.width.bound };
      in_table = step-lt (2 ^ k) hole h.in_table;
      chained = Chained-moved ne;
      unique = HasHole-moved_unique;
    }

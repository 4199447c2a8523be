-- ===== src/IdMap/Circle.antt =====
-- The slots of the table as a circle of `n` positions: the step to the next one, walks of several
-- steps, and the length of the walk from one position to another.
use orderbook_engine.Base.{
  ℕ, zero, suc, ◌+◌, ◌-◌, ◌<◌, ◌≡◌, ◌≢◌, refl, ◌∙◌, arith, leb, ◌==◌, if◌then◌else◌,
}

unfoldable pub step : (n i : ℕ) → ℕ
step n i = if (i + 1) == n then 0 else i + 1

unfoldable pub walk : (n i e : ℕ) → ℕ
walk n i zero = i
walk n i (suc e) = walk n (step n i) e

-- The number of steps from `i` forward to `j`.
unfoldable pub gap : (n i j : ℕ) → ℕ
gap n i j = if leb i j then j - i else j + n - i

pub step-lt : (n i : ℕ) → i < n → step n i < n
unfolding step
step-lt n i lt = ground arith

pub walk-lt : (n i e : ℕ) → i < n → walk n i e < n
unfolding walk
walk-lt n i zero lt = lt
walk-lt n i (suc e) lt = walk-lt n (step n i) e (step-lt n i lt)

pub gap-lt : (n i j : ℕ) → i < n → j < n → gap n i j < n
unfolding gap
gap-lt n i j li lj = ground arith

-- The walk in closed form.
walk_lem : (n i e : ℕ) → i < n → e < n → walk n i e ≡ (if leb n (i + e) then i + e - n else i + e)
unfolding walk
walk_lem n i zero li le = ground arith
walk_lem n i (suc e) li le =
    walk_lem n (step n i) e (step-lt n i li) (omega arith) ∙ (unfold step in ground arith)

-- The walk of that many steps arrives.
pub walk-gap : (n i j : ℕ) → i < n → j < n → walk n i (gap n i j) ≡ j
walk-gap n i j li lj =
    walk_lem n i (gap n i j) li (gap-lt n i j li lj) ∙ (unfold gap in ground arith)

-- The last step of a walk.
pub walk-suc : (n i e : ℕ) → walk n i (suc e) ≡ step n (walk n i e)
unfolding walk
walk-suc n i zero = refl
walk-suc n i (suc e) = walk-suc n (step n i) e

-- A walk that is shorter than the circle does not return.
pub walk-ne : (n i e : ℕ) → i < n → suc e < n → walk n i (suc e) ≢ i
walk-ne n i e li le h = absurd (let c = walk_lem n i (suc e) li le in ground arith)

pub step_injective : (n i j : ℕ) → i < n → j < n → step n i ≡ step n j → i ≡ j
unfolding step
step_injective n i j li lj e = ground arith

-- A step forward lengthens the walk by one, unless it closes the circle.
pub gap-step :
    (n i j : ℕ) → i < n → j < n → gap n i (step n j) ≢ 0 → gap n i (step n j) ≡ gap n i j + 1
unfolding gap step
gap-step n i j li lj ne = ground arith

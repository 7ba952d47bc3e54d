-- ===== src/Battle/Motion/Search.antt =====
-- The search for a scaled component.
use loot_of_legends_public.Base.{
  ℕ, zero, suc, ◌+◌, ◌-◌, ◌*◌, ◌/◌, ◌^◌, ◌≤◌, ◌<◌, ◌≡◌, ◌⊎◌, true, false, leb, ltb, ◌==◌, ◌||◌,
  refl, arith, inl, inr, Bool-cases, leb→le, ℤ, pos, negsuc,
}
use native.Mathlib.Nat.{pow-suc, le_of_mul-le-mul_right}
use loot_of_legends_public.Base.Integers.{magnitude, neg}
use loot_of_legends_public.Battle.Motion.{
  search_scale, scaled_component, tick_delta, DirectionIntent,
}

-- The greatest number from `low` to `high` whose square times `m` is not over `n`, given that
-- `low` is one.
abbrev pub IsFloor : ℕ → ℕ → ℕ → ℕ → ℕ → Type 0
IsFloor low high m n r =
    (low ≤ r) × (r ≤ high) × (r * r * m ≤ n) × ((r ≡ high) ⊎ (n < (r + 1) * (r + 1) * m))

widen :
    (low middle high m n r : ℕ)
    → low ≤ middle
    → middle < high + 1
    → IsFloor middle high m n r
    → IsFloor low high m n r
widen low middle high m n r h k (a, b, c, d) = (omega arith, b, c, d)

narrow :
    (low middle high m n r : ℕ)
    → 0 < middle
    → middle ≤ high
    → n < middle * middle * m
    → IsFloor low (middle - 1) m n r
    → IsFloor low high m n r
narrow low middle high m n r p h k (a, b, c, inl d) =
    let e : r + 1 ≡ middle = omega arith in (a, omega arith, c, inr (rw e k))
narrow low middle high m n r p h k (a, b, c, inr d) = (a, omega arith, c, inr d)

search_from :
    (fuel low high m n : ℕ)
    → high - low < 2 ^ fuel
    → low ≤ high
    → low * low * m ≤ n
    → IsFloor low high m n (search_scale fuel low high m n)
unfolding search_scale
search_from zero low high m n h k b = ground arith
search_from (suc fuel) low high m n h k b = elim (Bool-cases (leb high low)) [
  | inl e ↦ ground arith
  | inr e ↦
      let middle = low + (high - low + 1) / 2 in
      elim (Bool-cases (leb (middle * middle * m) n)) [
        | inl f ↦
            let rest =
              search_from fuel middle high m n (omega (arith, pow-suc 2 fuel, h)) (ground arith)
                (leb→le (middle * middle * m) n f) in
            rw (e, f) (widen low middle high m n _ (omega arith) (ground arith) rest)
        | inr f ↦
            let rest =
              search_from fuel low (middle - 1) m n (ground (arith, pow-suc 2 fuel, h))
                (ground arith) b in
            rw (e, f)
              (narrow low middle high m n _ (ground arith) (ground arith) (ground arith) rest)
      ]
]

magnitude-neg : (n : ℕ) → magnitude (neg n) ≡ n
magnitude-neg zero = refl
magnitude-neg (suc n) = refl

magnitude-scaled_component :
    (component : ℤ) (m : ℕ)
    → 0 < magnitude component
    → 0 < m
    → let n = magnitude component * 250 in
      magnitude (scaled_component component m) ≡ search_scale 8 0 250 m (n * n)
unfolding scaled_component
magnitude-scaled_component (pos a) m h k = let e : (a == 0 || m == 0) ≡ false = ground arith in rw e
magnitude-scaled_component (negsuc a) m h k =
    let e : (suc a == 0 || m == 0) ≡ false = ground arith in rw e (magnitude-neg _)

-- A nonzero component of a direction whose squared length is `m` becomes the greatest whole number
-- of at most 250 millimetres whose square, times `m`, does not exceed that of 250 times the
-- component: the search ends within its eight iterations.
pub scaled_component_lem :
    (component : ℤ) (m : ℕ)
    → 0 < magnitude component
    → 0 < m
    → let n = magnitude component * 250 in
      IsFloor 0 250 m (n * n) (magnitude (scaled_component component m))
scaled_component_lem component m h k =
    rw (magnitude-scaled_component component m h k)
      (search_from 8 0 250 m _ (omega arith) (omega arith) (omega arith))

still :
    (component : ℤ) (m : ℕ)
    → (magnitude component == 0 || m == 0) ≡ true
    → scaled_component component m ≡ pos 0
unfolding scaled_component
still component m e = rw e

scaled_square :
    (component : ℤ) (m : ℕ)
    → let r = magnitude (scaled_component component m) in
      r * r * m ≤ 62500 * (magnitude component * magnitude component)
scaled_square component m = elim (Bool-cases (magnitude component == 0 || m == 0)) [
  | inl e ↦ rw (still component m e) (omega arith)
  | inr e ↦
      let (low, high, under, next) =
        scaled_component_lem component m (ground arith) (ground arith) in
      omega (arith, under)
]

-- In one tick nobody moves further than 250 millimetres, whatever the direction.
pub tick_delta_bound :
    (direction : DirectionIntent)
    → let (x, y) = tick_delta direction in
      magnitude x * magnitude x + magnitude y * magnitude y ≤ 62500
unfolding tick_delta
tick_delta_bound direction =
    let a = magnitude direction.desired_x in
    let b = magnitude direction.desired_y in
    let m = a * a + b * b in
    elim (Bool-cases (ltb 0 m)) [
      | inl e ↦
          let one = scaled_square direction.desired_x m in
          let two = scaled_square direction.desired_y m in
          le_of_mul-le-mul_right {k = m} (omega (arith, one, two)) (ground arith)
      | inr e ↦
          let none_left : m ≡ 0 = ground arith in
          let one = still direction.desired_x m (ground arith) in
          let two = still direction.desired_y m (ground arith) in rw (one, two) (omega arith)
    ]

-- ===== src/Battle/Result/Checks/Accepts.antt =====
-- The checked sum of ResultBuilder.cpp against the sum without bounds.
use loot_of_legends_public.Base.{
  ℕ, ◌+◌, ◌*◌, ◌/◌, ◌^◌, ◌≤◌, ◌<◌, ◌≡◌, ◌⊎◌, refl, true, ltb, ◌==◌, List, [], ◌∷◌, Option, none,
  some, All, arith, inl, inr, Bool-cases, Option-cases, if◌then◌else◌,
}
use native.Mathlib.Nat.{le-div_iff_mul-le}
use loot_of_legends_public.Battle.Drops.{RelicItem, unit_value_of, is_listed}
use loot_of_legends_public.Battle.Result.{
  LootHoldingProjection, Checked, failure, success, arithmetic_overflow,
}
use loot_of_legends_public.Battle.Result.Checks.{add_value, asset_total, largest}

-- The value of an item, if it is listed.
abbrev pub value_of : Option ℕ → ℕ
value_of none = 0
value_of (some value) = value

-- What a session's holdings are worth.
abbrev pub worth : List RelicItem → ℕ → List LootHoldingProjection → ℕ
worth catalog session [] = 0
worth catalog session (h ∷ hs) =
    let rest = worth catalog session hs in
    if h.session_id == session
    then h.quantity * value_of (unit_value_of catalog h.item_id) + rest
    else rest

-- A checked sum, against the sum: it is given when it fits in 64 bits, and is refused otherwise.
abbrev pub IsChecked : Checked ℕ → ℕ → Type 0
IsChecked x sum =
    ((x ≡ success sum) × (sum < 2 ^ 64)) ⊎ ((x ≡ failure arithmetic_overflow) × (2 ^ 64 ≤ sum))

over_quotient : (u q : ℕ) → 0 < u → ltb (largest / u) q ≡ ltb largest (q * u)
over_quotient u q h = elim (Bool-cases (ltb (largest / u) q)) [
  | inl e ↦ elim (Bool-cases (ltb largest (q * u))) [
    | inl f ↦ rw (e, f) refl
    | inr f ↦
        let fits : q ≤ largest / u = (le-div_iff_mul-le {x = q} {y = largest} h).1 (ground arith) in
        absurd (ground arith)
  ]
  | inr e ↦
      let fits : q * u ≤ largest = (le-div_iff_mul-le {x = q} {y = largest} h).0 (ground arith) in
      rw e (ground arith)
]

add_value-IsChecked :
    (u q total : ℕ) → total < 2 ^ 64 → IsChecked (add_value u q total) (total + q * u)
unfolding add_value
add_value-IsChecked u q total h = elim (Bool-cases (u == 0)) [
  | inl e ↦
      let none_left : u ≡ 0 = ground arith in
      let same : total + q * 0 ≡ total = omega arith in rw (none_left, same) (inl (refl, h))
  | inr e ↦ rw (e, over_quotient u q (ground arith)) (ground arith)
]

-- The sum of a session's holdings, in a catalog that lists them all: it is what they are worth,
-- when that fits in 64 bits, and an overflow is reported exactly when it does not.
pub asset_total-IsChecked :
    (catalog : List RelicItem) (session : ℕ) (hs : List LootHoldingProjection) (total : ℕ)
    → All (λ h. is_listed (unit_value_of catalog h.item_id) ≡ true) hs
    → total < 2 ^ 64
    → IsChecked (asset_total catalog session hs total) (total + worth catalog session hs)
unfolding asset_total
asset_total-IsChecked catalog session [] total a h = inl (ground arith, omega arith)
asset_total-IsChecked catalog session (x ∷ hs) total (listed, a) h =
    elim (Bool-cases (x.session_id == session)) [
      | inr e ↦ rw e (asset_total-IsChecked catalog session hs total a h)
      | inl e ↦ elim (Option-cases (unit_value_of catalog x.item_id)) [
        | inl f ↦ absurd (ground (arith, rw f at listed))
        | inr (u, f) ↦
            let sum = total + x.quantity * u in
            let grouped : total + (x.quantity * u + worth catalog session hs)
                ≡ sum + worth catalog session hs =
              omega arith in
            elim (add_value-IsChecked u x.quantity total h) [
              | inl (g, fits) ↦
                  rw (e, f, g, grouped) (asset_total-IsChecked catalog session hs sum a fits)
              | inr (g, over) ↦ rw (e, f, g, grouped) (inr (refl, omega (arith, over)))
            ]
      ]
    ]

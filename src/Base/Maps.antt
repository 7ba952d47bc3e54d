-- ===== src/Base/Maps.antt =====
-- `std::map` with numbers for keys, as an association list in which no key stands twice.
use Prim.Native.Nat.{ℕ}
use mathlib.Core.Path.{◌≡◌, refl, subst}
use mathlib.Core.Logic.{inl, inr}
use mathlib.Core.Bool.{Bool, true, false}
use mathlib.Core.List.{List, [], ◌∷◌}
use mathlib.Core.Option.{Option, none, some}
use native.Mathlib.Omega.{arith}
use loot_of_legends_public.Base.Tests.{ltb, ◌==◌, Bool-cases, if◌then◌else◌}
use loot_of_legends_public.Base.Lists.{All}

module _ {ℓ} {V : Type ℓ} where
  unfoldable pub find : ℕ → List (ℕ × V) → Option V
  find k [] = none
  find k ((j, v) ∷ m) = if j == k then some v else find k m

  unfoldable pub insert_or_assign : ℕ → V → List (ℕ × V) → List (ℕ × V)
  insert_or_assign k v [] = (k, v) ∷ []
  insert_or_assign k v ((j, w) ∷ m) = if j == k then (k, v) ∷ m else (j, w) ∷ insert_or_assign k v m

  -- The same, with the keys in ascending order, for a map that the code lists.
  unfoldable pub insert_in_order : ℕ → V → List (ℕ × V) → List (ℕ × V)
  insert_in_order k v [] = (k, v) ∷ []
  insert_in_order k v ((j, w) ∷ m) =
      let rest = insert_in_order k v m in
      if j == k then (k, v) ∷ m else if ltb k j then (k, v) ∷ (j, w) ∷ m else (j, w) ∷ rest

  unfoldable pub erase : ℕ → List (ℕ × V) → List (ℕ × V)
  erase k [] = []
  erase k ((j, w) ∷ m) = let rest = erase k m in if j == k then rest else (j, w) ∷ rest

  abbrev pub has_value : Option V → Bool
  has_value none = false
  has_value (some _) = true

  abbrev pub contains : ℕ → List (ℕ × V) → Bool
  contains k m = has_value (find k m)

  -- `emplace` leaves a key that is there alone.
  abbrev pub emplace : ℕ → V → List (ℕ × V) → List (ℕ × V)
  emplace k v m = if contains k m then m else insert_or_assign k v m

  pub find-insert_or_assign :
      (k j : ℕ) (v : V) (m : List (ℕ × V))
      → find j (insert_or_assign k v m) ≡ (if k == j then some v else find j m)
  unfolding find insert_or_assign
  find-insert_or_assign k j v [] = refl
  find-insert_or_assign k j v ((i, w) ∷ m) = ground (arith, find-insert_or_assign k j v m)

  pub find-insert_in_order :
      (k j : ℕ) (v : V) (m : List (ℕ × V))
      → find j (insert_in_order k v m) ≡ (if k == j then some v else find j m)
  unfolding find insert_in_order
  find-insert_in_order k j v [] = refl
  find-insert_in_order k j v ((i, w) ∷ m) = ground (arith, find-insert_in_order k j v m)

  pub find-erase :
      (k j : ℕ) (m : List (ℕ × V)) → find j (erase k m) ≡ (if k == j then none else find j m)
  unfolding find erase
  find-erase k j [] = ground arith
  find-erase k j ((i, w) ∷ m) = ground (arith, find-erase k j m)

-- What holds of every value of a map.
module _ {ℓ κ} {V : Type ℓ} (P : V → Type κ) where
  pub All-insert_in_order :
      (k : ℕ) (v : V) (m : List (ℕ × V))
      → P v
      → All (λ e. P e.1) m
      → All (λ e. P e.1) (insert_in_order k v m)
  unfolding insert_in_order
  All-insert_in_order k v [] h all = (h, tt)
  All-insert_in_order k v ((j, w) ∷ m) h all = elim (Bool-cases (j == k)) [
    | inl e ↦ rw e (h, all.1)
    | inr e ↦ elim (Bool-cases (ltb k j)) [
      | inl f ↦ rw (e, f) (h, all)
      | inr f ↦ rw (e, f) (all.0, All-insert_in_order k v m h all.1)
    ]
  ]

  pub All-erase : (k : ℕ) (m : List (ℕ × V)) → All (λ e. P e.1) m → All (λ e. P e.1) (erase k m)
  unfolding erase
  All-erase k [] all = tt
  All-erase k ((j, w) ∷ m) all = elim (Bool-cases (j == k)) [
    | inl e ↦ rw (e) (All-erase k m all.1)
    | inr e ↦ rw (e) (all.0, All-erase k m all.1)
  ]

  pub All-find : (k : ℕ) (m : List (ℕ × V)) (v : V) → All (λ e. P e.1) m → find k m ≡ some v → P v
  unfolding find
  All-find k [] v all e = absurd (ground arith)
  All-find k ((j, w) ∷ m) v all e = elim (Bool-cases (j == k)) [
    | inl f ↦ let same : w ≡ v = ground arith in subst P same all.0
    | inr f ↦ All-find k m v all.1 (ground arith)
  ]

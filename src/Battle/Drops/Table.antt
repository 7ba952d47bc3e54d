-- ===== src/Battle/Drops/Table.antt =====
-- What Drop.cpp generates, against the description in LootApi.hpp.
use loot_of_legends_public.Base.{
  ℕ, zero, suc, ◌+◌, ◌%◌, ◌≤◌, ◌<◌, ◌≡◌, ◌≢◌, refl, ltb, ◌==◌, if◌then◌else◌, List, [], ◌∷◌, some,
  ℤ, pos, negsuc, length, arith, Bool-cases, inl, inr,
}
use loot_of_legends_public.Battle.Drops.{
  RelicDrop, clamp_coordinate, from_bound, next_position, next, derive_battle_seed, v1_snapshot,
  generate_loop, generate_drops,
}

-- From -10000 to 10000 millimetres.
abbrev pub InArena : ℤ → Type 0
InArena (pos n) = n ≤ 10000
InArena (negsuc n) = n < 10000

pub record IsDrop (index : ℕ) (d : RelicDrop) : Type 0 where
  pub numbered : d.drop_id ≡ index + 1
  pub item : d.item_id ≡ (if index == 0 then 2 else 1)
  pub one : d.quantity ≡ 1
  pub x_in_arena : InArena d.position.x_millimeter
  pub y_in_arena : InArena d.position.y_millimeter

-- The drops are those of the places from `index` on.
abbrev pub IsTable : ℕ → List RelicDrop → Type 0
IsTable index [] = Unit {0}
IsTable index (d ∷ ds) = IsDrop index d × IsTable (index + 1) ds

clamp-InArena : (z : ℤ) → InArena (clamp_coordinate z)
clamp-InArena (pos n) = elim (Bool-cases (ltb 10000 n)) [
  | inl x ↦ rw x (omega arith)
  | inr x ↦ rw x (ground arith)
]
clamp-InArena (negsuc n) = elim (Bool-cases (ltb 9999 n)) [
  | inl x ↦ rw x (omega arith)
  | inr x ↦ rw x (ground arith)
]

generate_loop-IsTable :
    (count index state : ℕ)
    → IsTable index (generate_loop count index state)
      × (length (generate_loop count index state) ≡ count)
unfolding generate_loop next_position
generate_loop-IsTable zero index state = (tt, refl)
generate_loop-IsTable (suc count) index state =
    let (s, x) = next state in
    let (t, y) = next s in
    let (rest, counted) = generate_loop-IsTable count (index + 1) t in
    (
      (
        record {
          numbered = refl;
          item = refl;
          one = refl;
          x_in_arena = clamp-InArena (from_bound (x % 20001));
          y_in_arena = clamp-InArena (from_bound (y % 20001));
        },
        rest,
      ),
      omega (arith, counted),
    )

-- The same for any seed but 0.
pub generate_seeded-IsTable :
    (room battle seed count : ℕ)
    → seed ≢ 0
    → 2 ≤ count
    → count ≤ 10
    → (drops : List RelicDrop) × (generate_drops room battle seed 1 count v1_snapshot ≡ some drops)
      × (length drops ≡ count)
      × IsTable 0 drops
unfolding generate_drops v1_snapshot
generate_seeded-IsTable room battle seed count seeded low high =
    let (table, counted) = generate_loop-IsTable count 0 seed in
    (generate_loop count 0 seed, ground arith, counted, table)

derived_seed : (room battle : ℕ) → derive_battle_seed room battle 1 ≢ 0
unfolding derive_battle_seed
derived_seed room battle = ground arith

-- Every battle of 2 to 10 captured participants gets its drops, as many as they are: with the seed
-- that is derived for it and the catalog of version 1, drop `i` has the number `i`, the first is
-- the rare item and the others are the common one, each once, and all lie within 10 m of the
-- middle of the arena in either direction.
pub generate_drops-IsTable :
    (room battle count : ℕ)
    → 2 ≤ count
    → count ≤ 10
    → (drops : List RelicDrop) × (generate_drops room battle
          (derive_battle_seed room battle 1)
          1
          count
          v1_snapshot
        ≡ some drops)
      × (length drops ≡ count)
      × IsTable 0 drops
generate_drops-IsTable room battle count low high =
    generate_seeded-IsTable room battle (derive_battle_seed room battle 1) count
      (derived_seed room battle) low high

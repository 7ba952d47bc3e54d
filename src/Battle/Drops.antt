-- ===== src/Battle/Drops.antt =====
-- The drops of a won battle: game-server/modules/battle/src/domain/Drop.cpp and RelicCatalog.cpp,
-- with LootApi.hpp. Coordinates are signed.
pub mod Table
use loot_of_legends_public.Base.{
  ℕ, zero, suc, ◌+◌, ◌-◌, ◌*◌, ◌/◌, ◌%◌, ◌^◌, bit_xor, Bool, true, false, not, ◌||◌, ltb, ◌==◌,
  if◌then◌else◌, add64, List, [], ◌∷◌, Option, none, some, find_if, ℤ, pos, negsuc,
}

pub record DropPosition : Type 0 where
  pub x_millimeter : ℤ
  pub y_millimeter : ℤ

pub record RelicItem : Type 0 where
  pub item_id : ℕ
  pub unit_value : ℕ

pub record RelicDrop : Type 0 where
  pub drop_id : ℕ
  pub item_id : ℕ
  pub quantity : ℕ
  pub position : DropPosition

abbrev pub ruleset_version : ℕ
ruleset_version = 1

abbrev pub min_captured : ℕ
min_captured = 2

abbrev pub max_captured : ℕ
max_captured = 10

abbrev pub common_item : ℕ
common_item = 1

abbrev pub rare_item : ℕ
rare_item = 2

abbrev pub fnv_offset_basis : ℕ
fnv_offset_basis = 0xcbf29ce484222325

abbrev pub fnv_prime : ℕ
fnv_prime = 0x00000100000001b3

abbrev pub split_mix_gamma : ℕ
split_mix_gamma = 0x9e3779b97f4a7c15

abbrev pub mul64 : ℕ → ℕ → ℕ
mul64 a b = a * b % 2 ^ 64

-- The loop over `count` bytes, from the lowest one of what is left of the value.
unfoldable pub fnv_append_bytes : ℕ → ℕ → ℕ → ℕ
fnv_append_bytes state value zero = state
fnv_append_bytes state value (suc count) =
    fnv_append_bytes (mul64 (bit_xor state (value % 256)) fnv_prime) (value / 256) count

unfoldable pub seed_for : ℕ → ℕ → ℕ → ℕ → ℕ
unfolding fnv_append_bytes
seed_for room battle version version_bytes =
    fnv_append_bytes (fnv_append_bytes (fnv_append_bytes fnv_offset_basis room 8) battle 8) version
      version_bytes

-- `SplitMix64::next`: the new state and the number drawn.
unfoldable pub next : ℕ → ℕ × ℕ
next state =
    let s = add64 state split_mix_gamma in
    let y = mul64 (bit_xor s (s / 2 ^ 30)) 0xbf58476d1ce4e5b9 in
    let z = mul64 (bit_xor y (y / 2 ^ 27)) 0x94d049bb133111eb in (s, bit_xor z (z / 2 ^ 31))

-- `-arenaBoundMillimeters + offset`.
abbrev pub from_bound : ℕ → ℤ
from_bound offset = if ltb offset 10000 then negsuc (9999 - offset) else pos (offset - 10000)

abbrev pub clamp_coordinate : ℤ → ℤ
clamp_coordinate (negsuc n) = if ltb 9999 n then negsuc 9999 else negsuc n
clamp_coordinate (pos n) = if ltb 10000 n then pos 10000 else pos n

abbrev pub clamped_coordinate : ℕ → ℤ
clamped_coordinate random = clamp_coordinate (from_bound (random % 20001))

unfoldable pub next_position : ℕ → ℕ × DropPosition
unfolding next
next_position state =
    let (s, x) = next state in
    let (t, y) = next s in
    (t, record { x_millimeter = clamped_coordinate x; y_millimeter = clamped_coordinate y })

unfoldable pub derive_battle_seed : ℕ → ℕ → ℕ → ℕ
unfolding seed_for
derive_battle_seed room battle version =
    let seed = seed_for room battle version 2 in if seed == 0 then split_mix_gamma else seed

unfoldable pub v1_snapshot : List RelicItem
v1_snapshot =
    record { item_id = common_item; unit_value = 100 }
    ∷ record { item_id = rare_item; unit_value = 300 }
    ∷ []

abbrev pub value_of : Option RelicItem → Option ℕ
value_of none = none
value_of (some item) = some item.unit_value

abbrev pub unit_value_of : List RelicItem → ℕ → Option ℕ
unit_value_of items id = value_of (find_if (λ item. item.item_id == id) items)

abbrev pub is_listed : Option ℕ → Bool
is_listed none = false
is_listed (some _) = true

-- The loop, with `count` drops left from `index`, which is at most 10.
unfoldable pub generate_loop : ℕ → ℕ → ℕ → List RelicDrop
generate_loop zero index state = []
generate_loop (suc count) index state =
    let (s, position) = next_position state in
    record {
      drop_id = index + 1;
      item_id = if index == 0 then rare_item else common_item;
      quantity = 1;
      position = position;
    }
    ∷ generate_loop count (index + 1) s

-- The room and the battle are arguments that the code ignores.
unfoldable pub generate_drops : ℕ → ℕ → ℕ → ℕ → ℕ → List RelicItem → Option (List RelicDrop)
unfolding generate_loop
generate_drops room battle seed version count catalog =
    if ltb count min_captured
      || ltb max_captured count
      || seed == 0
      || not (version == ruleset_version)
    then none
    else if not (is_listed (unit_value_of catalog common_item))
        || not (is_listed (unit_value_of catalog rare_item))
    then none
    else some (generate_loop count 0 seed)

-- The overload without a seed.
abbrev pub generate_drops_unseeded : ℕ → ℕ → ℕ → ℕ → List RelicItem → Option (List RelicDrop)
generate_drops_unseeded room battle version count catalog =
    generate_drops room battle (seed_for room battle version 2) version count catalog

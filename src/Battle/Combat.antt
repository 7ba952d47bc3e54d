-- ===== src/Battle/Combat.antt =====
-- The monster and the fixed rules of combat: game-server/modules/battle/src/domain/CombatState.cpp,
-- with CombatApi.hpp.
use loot_of_legends_public.Base.{
  ℕ, zero, suc, ◌+◌, ◌-◌, ◌*◌, ◌%◌, ◌^◌, Bool, true, false, ◌||◌, ltb, leb, if◌then◌else◌, List, [],
  ◌∷◌, ℤ, pos,
}
use loot_of_legends_public.Base.Integers.{◌+ℤ◌, neg, negate, magnitude}

pub record CombatPosition : Type 0 where
  pub x_millimeter : ℤ
  pub y_millimeter : ℤ

pub data MonsterState : Type 0 where
  alive dying dead timed_out : MonsterState

pub data MonsterDamageResult : Type 0 where
  applied lethal not_alive : MonsterDamageResult

pub record Monster : Type 0 where
  pub id : ℕ
  pub position : CombatPosition
  pub hit_points : ℕ
  pub state : MonsterState

abbrev pub combat_version : ℕ
combat_version = 4

abbrev pub monster_id : ℕ
monster_id = 1

abbrev pub attack_damage : ℕ
attack_damage = 100

abbrev pub attack_range : ℕ
attack_range = 12000

abbrev pub at : ℤ → ℤ → CombatPosition
at x y = record { x_millimeter = x; y_millimeter = y }

abbrev pub origin : CombatPosition
origin = at (pos 0) (pos 0)

abbrev pub monster_hit_points_for_participants : ℕ → ℕ
monster_hit_points_for_participants count = count * 800 % 2 ^ 32

-- The range holds the square of each delta within 64 bits, so that nothing wraps.
unfoldable pub in_attack_range : CombatPosition → CombatPosition → Bool
in_attack_range attacker target =
    let delta_x = magnitude (attacker.x_millimeter +ℤ negate target.x_millimeter) in
    let delta_y = magnitude (attacker.y_millimeter +ℤ negate target.y_millimeter) in
    if ltb attack_range delta_x || ltb attack_range delta_y
    then false
    else leb (delta_x * delta_x + delta_y * delta_y) (attack_range * attack_range)

-- The rows of the table, from two participants on. The code pads each row to ten places; the test
-- on the index keeps it from reading them.
abbrev pub participant_spawn_positions : List (List CombatPosition)
participant_spawn_positions =
    (at (pos 2500) (pos 0) ∷ at (neg 2500) (pos 0) ∷ [])
    ∷ (at (pos 2500) (pos 0) ∷ at (neg 1250) (pos 2165) ∷ at (neg 1250) (neg 2165) ∷ [])
    ∷ (at (pos 2500) (pos 0)
        ∷ at (pos 0) (pos 2500)
        ∷ at (neg 2500) (pos 0)
        ∷ at (pos 0) (neg 2500)
        ∷ [])
    ∷ (at (pos 2500) (pos 0)
        ∷ at (pos 773) (pos 2378)
        ∷ at (neg 2023) (pos 1469)
        ∷ at (neg 2023) (neg 1469)
        ∷ at (pos 773) (neg 2378)
        ∷ [])
    ∷ (at (pos 2500) (pos 0)
        ∷ at (pos 1250) (pos 2165)
        ∷ at (neg 1250) (pos 2165)
        ∷ at (neg 2500) (pos 0)
        ∷ at (neg 1250) (neg 2165)
        ∷ at (pos 1250) (neg 2165)
        ∷ [])
    ∷ (at (pos 2500) (pos 0)
        ∷ at (pos 1559) (pos 1955)
        ∷ at (neg 556) (pos 2437)
        ∷ at (neg 2252) (pos 1085)
        ∷ at (neg 2252) (neg 1085)
        ∷ at (neg 556) (neg 2437)
        ∷ at (pos 1559) (neg 1955)
        ∷ [])
    ∷ (at (pos 2500) (pos 0)
        ∷ at (pos 1768) (pos 1768)
        ∷ at (pos 0) (pos 2500)
        ∷ at (neg 1768) (pos 1768)
        ∷ at (neg 2500) (pos 0)
        ∷ at (neg 1768) (neg 1768)
        ∷ at (pos 0) (neg 2500)
        ∷ at (pos 1768) (neg 1768)
        ∷ [])
    ∷ (at (pos 2500) (pos 0)
        ∷ at (pos 1915) (pos 1607)
        ∷ at (pos 434) (pos 2462)
        ∷ at (neg 1250) (pos 2165)
        ∷ at (neg 2349) (pos 855)
        ∷ at (neg 2349) (neg 855)
        ∷ at (neg 1250) (neg 2165)
        ∷ at (pos 434) (neg 2462)
        ∷ at (pos 1915) (neg 1607)
        ∷ [])
    ∷ (at (pos 2500) (pos 0)
        ∷ at (pos 2023) (pos 1469)
        ∷ at (pos 773) (pos 2378)
        ∷ at (neg 773) (pos 2378)
        ∷ at (neg 2023) (pos 1469)
        ∷ at (neg 2500) (pos 0)
        ∷ at (neg 2023) (neg 1469)
        ∷ at (neg 773) (neg 2378)
        ∷ at (pos 773) (neg 2378)
        ∷ at (pos 2023) (neg 1469)
        ∷ [])
    ∷ []

abbrev pub nth {ℓ} : {A : Type ℓ} → A → List A → ℕ → A
nth otherwise [] i = otherwise
nth otherwise (x ∷ xs) zero = x
nth otherwise (x ∷ xs) (suc i) = nth otherwise xs i

unfoldable pub participant_spawn_position : ℕ → ℕ → CombatPosition
participant_spawn_position count index =
    if ltb count 2 || ltb 10 count || leb count index
    then origin
    else nth origin (nth [] participant_spawn_positions (count - 2)) index

unfoldable pub spawn : ℕ → Monster
spawn maximum_hit_points = record {
  id = monster_id;
  position = origin;
  hit_points = maximum_hit_points;
  state = alive;
}

unfoldable pub restore : ℕ → CombatPosition → ℕ → MonsterState → Monster
restore id position hit_points state = record {
  id = id;
  position = position;
  hit_points = hit_points;
  state = state;
}

abbrev pub is_alive : MonsterState → Bool
is_alive alive = true
is_alive _ = false

abbrev pub is_dying : MonsterState → Bool
is_dying dying = true
is_dying _ = false

unfoldable pub apply_attack : Monster → Monster × MonsterDamageResult
apply_attack m =
    if is_alive m.state
    then if leb m.hit_points attack_damage
      then (record m { hit_points = 0; state = dying }, lethal)
      else (record m { hit_points = m.hit_points - attack_damage }, applied)
    else (m, not_alive)

unfoldable pub complete_death : Monster → Monster × Bool
complete_death m = if is_dying m.state then (record m { state = dead }, true) else (m, false)

unfoldable pub timeout : Monster → Monster × Bool
timeout m = if is_alive m.state then (record m { state = timed_out }, true) else (m, false)

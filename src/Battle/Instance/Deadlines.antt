-- ===== src/Battle/Instance/Deadlines.antt =====
-- The deadlines of the combat and of the loot, and an attack with its applied damage, in
-- BattleInstance.cpp.
use loot_of_legends_public.Base.{
  ℕ, ◌+◌, ◌-◌, ◌*◌, ◌^◌, Bool, true, false, not, ◌||◌, leb, ◌==◌, if◌then◌else◌, Option, none, some,
  map,
}
use loot_of_legends_public.Battle.AttackResults.{
  AttackCommand, AttackTerminalResult, AttackResultCode, CombatOutcome,
}
use loot_of_legends_public.Battle.AttackResults
use loot_of_legends_public.Battle.Time.{BattleTime}
use loot_of_legends_public.Battle.Combat.{Monster, timeout}
use loot_of_legends_public.Battle.Instance.{
  BattleInstance, EventId, resolved, has, value_or_zero, is_committed, is_open, observe_battle_time,
  terminal_outcome,
}
use loot_of_legends_public.Battle.Instance.Load.{is_reached, deadline_time}
use loot_of_legends_public.Battle.Instance.Commit.{commit_result_if_ready, is_resolved}
use loot_of_legends_public.Battle.Instance.Exit.{close_drop}
use loot_of_legends_public.Battle.Instance.Input.{next_sequence}
use loot_of_legends_public.Battle.Instance.Attack.{
  attack, combat_terminal_record, complete_attacks, hit_points_of,
}

pub data CombatDeadlineResultCode : Type 0 where
  combat_ok combat_not_eligible combat_stale_battle : CombatDeadlineResultCode
  combat_terminal_already_decided : CombatDeadlineResultCode

pub data LootDeadlineResultCode : Type 0 where
  loot_ok loot_not_eligible loot_stale_battle resolution_closed : LootDeadlineResultCode

abbrev pub end_combat :
    BattleInstance → BattleTime → Monster × Bool → BattleInstance × CombatDeadlineResultCode
end_combat b now (m, false) = (b, combat_terminal_already_decided)
end_combat b now (m, true) =
    let c = observe_battle_time b now in
    (
      commit_result_if_ready
          (record c {
            monster = some m;
            combat_terminal = some (combat_terminal_record c m AttackResults.combat_timeout);
            combat_deadline_tick = none;
            participant_records =
                map (complete_attacks now.battle_elapsed_nanos) c.participant_records;
          })
          now,
      combat_ok,
    )

unfoldable pub expire_combat :
    BattleInstance → ℕ → BattleTime → BattleInstance × CombatDeadlineResultCode
expire_combat b battle now =
    if not (battle == b.battle_id) then (b, combat_stale_battle) else elim b.monster [
      | none ↦ (b, combat_not_eligible)
      | some m ↦
          if not (is_committed b.state)
          then (b, combat_not_eligible)
          else if has b.combat_terminal || has b.battle_terminal_outcome
          then (b, combat_terminal_already_decided)
          else if not (is_reached b.combat_deadline_tick now)
          then (b, combat_not_eligible)
          else end_combat b now (timeout m)
    ]

unfoldable pub expire_loot :
    BattleInstance → ℕ → BattleTime → BattleInstance × LootDeadlineResultCode
expire_loot b battle now =
    if not (battle == b.battle_id)
    then (b, loot_stale_battle)
    else if not (is_open b.loot_resolution)
    then (b, if is_resolved b.loot_resolution then resolution_closed else loot_not_eligible)
    else if not (is_reached b.loot_deadline_tick now)
    then (b, loot_not_eligible)
    else let c = observe_battle_time b now in
      (
        commit_result_if_ready
            (record c {
              drops = map close_drop c.drops;
              loot_resolution = resolved;
              loot_deadline_tick = none;
            })
            now,
        loot_ok,
      )

-- The overloads without a time.
abbrev pub expire_combat_now : BattleInstance → ℕ → BattleInstance × CombatDeadlineResultCode
expire_combat_now b battle =
    expire_combat b battle (deadline_time b.combat_deadline_tick b.battle_time)

abbrev pub expire_loot_now : BattleInstance → ℕ → BattleInstance × LootDeadlineResultCode
expire_loot_now b battle = expire_loot b battle (deadline_time b.loot_deadline_tick b.battle_time)

pub record AttackAppliedRecord : Type 0 where
  pub event_id : EventId
  pub battle_id : ℕ
  pub event_sequence : ℕ
  pub attacker_session_id : ℕ
  pub monster_id : ℕ
  pub actual_damage : ℕ
  pub remaining_hit_points : ℕ
  pub server_tick : ℕ
  pub outcome : CombatOutcome

abbrev pub is_ok : AttackResultCode → Bool
is_ok AttackResults.ok = true
is_ok _ = false

abbrev pub id_of : Option Monster → ℕ
id_of none = 0
id_of (some m) = m.id

-- An attack that took hit points, which has its own 32-bit sequence number.
abbrev pub applied_record : BattleInstance → AttackCommand → ℕ → AttackAppliedRecord
applied_record b c before = record {
  event_id = record { high = b.battle_id; low = 3 * 2 ^ 32 + b.next_attack_applied_sequence };
  battle_id = b.battle_id;
  event_sequence = b.next_attack_applied_sequence;
  attacker_session_id = c.session_id;
  monster_id = id_of b.monster;
  actual_damage = before - hit_points_of b.monster;
  remaining_hit_points = hit_points_of b.monster;
  server_tick = value_or_zero b.last_integrated_server_tick;
  outcome = terminal_outcome b.combat_terminal;
}

abbrev pub with_applied :
    AttackCommand
    → ℕ
    → Option (BattleInstance × AttackTerminalResult)
    → Option (BattleInstance × (AttackTerminalResult × Option AttackAppliedRecord))
with_applied c before none = none
with_applied c before (some (b, result)) =
    if not (is_ok result.code) || leb before (hit_points_of b.monster)
    then some (b, (result, none))
    else some (
      record b { next_attack_applied_sequence = next_sequence b.next_attack_applied_sequence },
      (result, some (applied_record b c before)),
    )

unfoldable pub attack_with_applied :
    BattleInstance
    → AttackCommand
    → BattleTime
    → Option (BattleInstance × (AttackTerminalResult × Option AttackAppliedRecord))
attack_with_applied b c now = with_applied c (hit_points_of b.monster) (attack b c now)

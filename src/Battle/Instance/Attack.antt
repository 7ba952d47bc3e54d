-- ===== src/Battle/Instance/Attack.antt =====
-- An attack, in BattleInstance.cpp. No result is a call of `std::terminate`.
use loot_of_legends_public.Base.{
  ℕ, ◌-◌, Bool, true, false, not, ◌||◌, ltb, ◌==◌, if◌then◌else◌, List, Option, none, some, map,
  length,
}
use loot_of_legends_public.Battle.AttackResults.{
  AttackCommand, AttackTerminalResult, AttackResultCode, AttackResultStore,
  AttackResultStoreDecision, CombatOutcome, ok, not_eligible, stale_session, stale_battle,
  invalid_target, cooldown, attack_overloaded, command_conflict, terminal_already_decided,
  monster_defeated, available, replay, conflict, overloaded, scope_mismatch, evict_expired, inspect,
  retain, mark_battle_completed,
}
use loot_of_legends_public.Battle.AttackResults
use loot_of_legends_public.Battle.Drops.{RelicDrop, generate_drops, v1_snapshot}
use loot_of_legends_public.Battle.Time.{BattleTime, add_ticks}
use loot_of_legends_public.Battle.Motion.{refill_attack, rate_token_units, spend}
use loot_of_legends_public.Battle.Combat.{
  Monster, MonsterDamageResult, applied, lethal, not_alive, is_alive, monster_id, combat_version,
  at, in_attack_range, apply_attack, complete_death,
}
use loot_of_legends_public.Battle.Result.{LootDropState}
use loot_of_legends_public.Battle.Result
use loot_of_legends_public.Battle.Instance.{
  BattleInstance, ParticipantRecord, LootDropRecord, CombatTerminalRecord, resolution_open,
  result_generation_failed, has, value_or_zero, is_committed, participant_record, put_participant,
  observe_battle_time, terminal_outcome,
}
use loot_of_legends_public.Battle.Instance.Commit.{
  mark_loot_results_completed, commit_result_if_ready,
}

-- 15 s, at 20 ticks a second.
abbrev pub loot_resolution_duration_ticks : ℕ
loot_resolution_duration_ticks = 300

-- 750 ms in nanoseconds.
abbrev pub attack_cooldown_nanos : ℕ
attack_cooldown_nanos = 750000000

abbrev pub make_attack_result :
    AttackCommand → AttackResultCode → ℕ → CombatOutcome → AttackTerminalResult
make_attack_result c code remaining outcome = record {
  command_id = c.command_id;
  battle_id = c.battle_id;
  code = code;
  monster_id = monster_id;
  remaining_hit_points = remaining;
  ruleset_version = combat_version;
  outcome = outcome;
}

abbrev pub hit_points_of : Option Monster → ℕ
hit_points_of none = 0
hit_points_of (some m) = m.hit_points

abbrev pub current_result : BattleInstance → AttackCommand → AttackResultCode → AttackTerminalResult
current_result b c code =
    make_attack_result c code (hit_points_of b.monster) (terminal_outcome b.combat_terminal)

-- The lambda `retain` of `attack`, which stores the result with the participant.
abbrev pub store_result :
    BattleInstance
    → ParticipantRecord
    → AttackTerminalResult
    → AttackResultStore × Bool
    → Option (BattleInstance × AttackTerminalResult)
store_result b p result (store, false) = none
store_result b p result (store, true) =
    some (put_participant b (record p { attack_results = store }), result)

abbrev pub retain_of :
    BattleInstance
    → AttackCommand
    → AttackResultCode
    → Option ParticipantRecord
    → Option (BattleInstance × AttackTerminalResult)
retain_of b c code none = none
retain_of b c code (some p) =
    store_result b p (current_result b c code) (retain p.attack_results c (current_result b c code))

unfoldable pub retain_attack :
    BattleInstance
    → AttackCommand
    → AttackResultCode
    → Option (BattleInstance × AttackTerminalResult)
retain_attack b c code = retain_of b c code (participant_record b c.session_id)

abbrev pub available_drop : RelicDrop → LootDropRecord
available_drop d = record { drop = d; state = Result.available; owner = none }

-- The generated drops open the loot; that none are generated fails the result.
abbrev pub open_loot : BattleInstance → BattleTime → Option (List RelicDrop) → BattleInstance
open_loot b now (some drops) = record b {
  drops = map available_drop drops;
  loot_resolution = resolution_open;
  loot_deadline_tick = some (add_ticks now.logical_tick loot_resolution_duration_ticks);
}
open_loot b now none =
    mark_loot_results_completed (record b { result_state = result_generation_failed }) now

abbrev pub combat_terminal_record : BattleInstance → Monster → CombatOutcome → CombatTerminalRecord
combat_terminal_record b m outcome = record {
  event_id = record { high = b.battle_id; low = 2 };
  battle_id = b.battle_id;
  event_sequence = 2;
  outcome = outcome;
  monster_id = m.id;
  server_tick = value_or_zero b.last_integrated_server_tick;
  ruleset_version = combat_version;
}

abbrev pub complete_attacks : ℕ → ParticipantRecord → ParticipantRecord
complete_attacks nanos p = record p {
  attack_results = mark_battle_completed p.attack_results nanos;
}

abbrev pub finish_attacks :
    BattleTime
    → Option (BattleInstance × AttackTerminalResult)
    → Option (BattleInstance × AttackTerminalResult)
finish_attacks now none = none
finish_attacks now (some (b, result)) = some (
  commit_result_if_ready
      (record b {
        participant_records = map (complete_attacks now.battle_elapsed_nanos) b.participant_records;
      })
      now,
  result,
)

-- After the lethal blow: `m` is the dead monster.
unfoldable pub win :
    BattleInstance
    → Monster
    → AttackCommand
    → BattleTime
    → Option (BattleInstance × AttackTerminalResult)
win b m c now =
    let won : BattleInstance = (record b {
      monster = some m;
      combat_terminal = some (combat_terminal_record b m monster_defeated);
      combat_deadline_tick = none;
    }) in
    let drops =
      generate_drops b.room_id b.battle_id b.seed 1 (length b.captured_participants) v1_snapshot in
    finish_attacks now (retain_attack (open_loot won now drops) c ok)

abbrev pub kill :
    BattleInstance
    → Monster × Bool
    → AttackCommand
    → BattleTime
    → Option (BattleInstance × AttackTerminalResult)
kill b (m, false) c now = none
kill b (m, true) c now = win b m c now

abbrev pub damage_monster :
    BattleInstance
    → Monster × MonsterDamageResult
    → AttackCommand
    → BattleTime
    → Option (BattleInstance × AttackTerminalResult)
damage_monster b (m, applied) c now = retain_attack (record b { monster = some m }) c ok
damage_monster b (m, lethal) c now = kill b (complete_death m) c now
damage_monster b (m, not_alive) c now = none

abbrev pub is_cooling : Option ℕ → ℕ → Bool
is_cooling none now = false
is_cooling (some last) now = ltb now last || ltb (now - last) attack_cooldown_nanos

-- The attack once it is paid for.
unfoldable pub strike :
    BattleInstance
    → ParticipantRecord
    → Monster
    → AttackCommand
    → BattleTime
    → Option (BattleInstance × AttackTerminalResult)
strike b p m c now =
    if not (c.target_hint == m.id) || not (is_alive m.state)
    then retain_attack b c invalid_target
    else if not (in_attack_range (at p.pos_x p.pos_y) m.position)
    then retain_attack b c AttackResults.out_of_range
    else if is_cooling p.last_accepted_attack_nanos now.battle_elapsed_nanos
    then retain_attack b c cooldown
    else let accepted : ParticipantRecord = (record p {
      last_accepted_attack_nanos = some now.battle_elapsed_nanos;
    }) in
      damage_monster (put_participant b accepted) (apply_attack m) c now

-- The attack once it is known to be fresh.
unfoldable pub attack_fresh :
    BattleInstance
    → ParticipantRecord
    → Monster
    → AttackCommand
    → BattleTime
    → Option (BattleInstance × AttackTerminalResult)
attack_fresh b p m c now =
    if not p.gameplay_eligible
    then retain_attack b c not_eligible
    else if has b.combat_terminal
    then retain_attack b c terminal_already_decided
    else if not p.input_enabled
    then retain_attack b c not_eligible
    else let rate = refill_attack p.attack_rate now.battle_elapsed_nanos in
      if ltb rate.credit_units rate_token_units
      then retain_attack (put_participant b (record p { attack_rate = rate })) c attack_overloaded
      else let paid : ParticipantRecord = (record p { attack_rate = spend rate }) in
        strike (put_participant b paid) paid m c now

-- The store's decision on the command. A replay always has its result.
abbrev pub decide_attack :
    BattleInstance
    → ParticipantRecord
    → Monster
    → AttackCommand
    → BattleTime
    → AttackResultStoreDecision
    → Option AttackTerminalResult
    → Option (BattleInstance × AttackTerminalResult)
decide_attack b p m c now replay (some result) = some (b, result)
decide_attack b p m c now conflict _ = some (b, current_result b c command_conflict)
decide_attack b p m c now overloaded _ = some (b, current_result b c attack_overloaded)
decide_attack b p m c now available _ = attack_fresh (observe_battle_time b now) p m c now
decide_attack b p m c now _ _ = none

unfoldable pub attack_found :
    BattleInstance
    → ParticipantRecord
    → Monster
    → AttackCommand
    → BattleTime
    → Option (BattleInstance × AttackTerminalResult)
attack_found b p m c now =
    let (store, evicted) = evict_expired p.attack_results now.battle_elapsed_nanos in
    let kept : ParticipantRecord = (record p { attack_results = store }) in
    let timed = if evicted == 0 then b else observe_battle_time b now in
    let (decision, result) = inspect store c in
    decide_attack (put_participant timed kept) kept m c now decision result

unfoldable pub attack :
    BattleInstance → AttackCommand → BattleTime → Option (BattleInstance × AttackTerminalResult)
attack b c now =
    if not (c.battle_id == b.battle_id)
    then some (b, current_result b c stale_battle)
    else elim b.monster [
      | none ↦ some (b, current_result b c not_eligible)
      | some m ↦
          if not (is_committed b.state)
          then some (b, current_result b c not_eligible)
          else elim (participant_record b c.session_id) [
            | none ↦ some (b, current_result b c not_eligible)
            | some p ↦
                if not (p.generation == c.generation)
                then some (b, current_result b c stale_session)
                else attack_found b p m c now
          ]
    ]

-- ===== src/Battle/Instance/Input.antt =====
-- Input, movement and snapshots, in BattleInstance.cpp.
use loot_of_legends_public.Base.{
  ℕ, ◌+◌, ◌%◌, ◌^◌, Bool, true, false, not, ◌&&◌, ◌||◌, ltb, ◌==◌, if◌then◌else◌, List, Option,
  none, some, map, ℤ, pos, negsuc,
}
use loot_of_legends_public.Base.Integers.{magnitude}
use loot_of_legends_public.Battle.Time.{BattleTime, battle_time_from_live_clock, from_logical_tick}
use loot_of_legends_public.Battle.Motion.{
  DirectionIntent, RateLimit, serial_newer, tick_delta, move_by, refill_move, rate_token_units,
  spend,
}
use loot_of_legends_public.Battle.Instance.{
  BattleInstance, ParticipantRecord, is_committed, is_not_ready, participant_record,
  put_participant, observe_battle_time, value_or_zero, has,
}

pub data BattleInputResultCode : Type 0 where
  input_ok input_stale_session input_stale_battle input_not_eligible : BattleInputResultCode

pub data MovementResultCode : Type 0 where
  ok invalid_argument stale_session stale_battle not_eligible : MovementResultCode
  stale_action stale_tick rate_limited : MovementResultCode

pub record MoveCommand : Type 0 where
  pub session_id : ℕ
  pub generation : ℕ
  pub battle_id : ℕ
  pub action_sequence : ℕ
  pub direction : DirectionIntent

abbrev pub still : ParticipantRecord → ParticipantRecord
still p = record p { input_enabled = false; tick_delta_x = pos 0; tick_delta_y = pos 0 }

unfoldable pub suspend_input :
    BattleInstance → ℕ → ℕ → BattleTime → BattleInstance × BattleInputResultCode
suspend_input b session generation at =
    if not (is_committed b.state)
    then (b, input_not_eligible)
    else elim (participant_record b session) [
      | none ↦ (b, input_not_eligible)
      | some p ↦
          if not (p.generation == generation)
          then (b, input_stale_session)
          else if p.input_enabled
              || not (magnitude p.tick_delta_x == 0)
              || not (magnitude p.tick_delta_y == 0)
          then (put_participant (observe_battle_time b at) (still p), input_ok)
          else (b, input_ok)
    ]

abbrev pub same : Bool → Bool → Bool
same true b = b
same false b = not b

unfoldable pub resume_input :
    BattleInstance → ℕ → ℕ → BattleTime → BattleInstance × BattleInputResultCode
resume_input b session generation at =
    if not (is_committed b.state)
    then (b, input_not_eligible)
    else elim (participant_record b session) [
      | none ↦ (b, input_not_eligible)
      | some p ↦
          if not (p.generation == generation)
          then (b, input_stale_session)
          else let enabled = p.gameplay_eligible && is_not_ready b.result_state in
            if not (same p.input_enabled enabled)
            then (
              put_participant (observe_battle_time b at) (record p { input_enabled = enabled }),
              input_ok,
            )
            else (b, input_ok)
    ]

-- The least 16-bit number is refused.
abbrev pub is_least : ℤ → Bool
is_least (pos _) = false
is_least (negsuc n) = n == 32767

abbrev pub is_old : Option ℕ → ℕ → Bool
is_old none sequence = false
is_old (some latest) sequence = not (serial_newer sequence latest)

-- An accepted move.
unfoldable pub steer : ParticipantRecord → RateLimit → MoveCommand → ParticipantRecord
steer p rate m =
    let (x, y) = tick_delta m.direction in
    record p {
      move_rate = spend rate;
      latest_seen_action_sequence = some m.action_sequence;
      tick_delta_x = x;
      tick_delta_y = y;
    }

-- `acceptMove` once the command is known to be fresh.
unfoldable pub limit_move :
    BattleInstance
    → ParticipantRecord
    → MoveCommand
    → BattleTime
    → BattleInstance × MovementResultCode
limit_move b p m at =
    let c = observe_battle_time b at in
    let rate = refill_move p.move_rate at.battle_elapsed_nanos in
    if ltb rate.credit_units rate_token_units
    then (put_participant c (record p { move_rate = rate }), rate_limited)
    else (put_participant c (steer p rate m), ok)

unfoldable pub accept_move :
    BattleInstance → MoveCommand → BattleTime → BattleInstance × MovementResultCode
accept_move b m at =
    if not (m.battle_id == b.battle_id)
    then (b, stale_battle)
    else if not (is_committed b.state)
    then (b, not_eligible)
    else elim (participant_record b m.session_id) [
      | none ↦ (b, not_eligible)
      | some p ↦
          if not (p.generation == m.generation)
          then (b, stale_session)
          else if not p.gameplay_eligible || not p.input_enabled
          then (b, not_eligible)
          else if not (m.direction.input_flags == 0)
              || is_least m.direction.desired_x
              || is_least m.direction.desired_y
          then (b, invalid_argument)
          else if is_old p.latest_seen_action_sequence m.action_sequence
          then (b, stale_action)
          else limit_move b p m at
    ]

abbrev pub moved : ParticipantRecord → ParticipantRecord
moved p =
    if not p.gameplay_eligible || not p.input_enabled
    then p
    else record p { pos_x = move_by p.pos_x p.tick_delta_x; pos_y = move_by p.pos_y p.tick_delta_y }

unfoldable pub integrate_movement :
    BattleInstance → ℕ → ℕ → BattleTime → BattleInstance × MovementResultCode
integrate_movement b battle server_tick at =
    if not (battle == b.battle_id)
    then (b, stale_battle)
    else if not (is_committed b.state)
    then (b, not_eligible)
    else if is_old b.last_integrated_server_tick server_tick
    then (b, stale_tick)
    else let c = observe_battle_time b at in
      (
        record c {
          participant_records = map moved c.participant_records;
          last_integrated_server_tick = some server_tick;
        },
        ok,
      )

-- The overloads for a live clock and for a bare tick.
abbrev pub accept_move_live : BattleInstance → MoveCommand → ℤ → BattleInstance × MovementResultCode
accept_move_live b m at = accept_move b m (battle_time_from_live_clock at)

abbrev pub integrate_tick : BattleInstance → ℕ → ℕ → BattleInstance × MovementResultCode
integrate_tick b battle server_tick =
    integrate_movement b battle server_tick (from_logical_tick server_tick)

pub record PlayerPositionProjection : Type 0 where
  pub session_id : ℕ
  pub pos_x : ℤ
  pub pos_y : ℤ

pub record StateSnapshotProjection : Type 0 where
  pub battle_id : ℕ
  pub snapshot_sequence : ℕ
  pub server_tick : ℕ
  pub players : List PlayerPositionProjection

abbrev pub player_position : ParticipantRecord → PlayerPositionProjection
player_position p = record { session_id = p.session_id; pos_x = p.pos_x; pos_y = p.pos_y }

-- A 32-bit counter that leaves 0 out.
abbrev pub next_sequence : ℕ → ℕ
next_sequence n = if (n + 1) % 2 ^ 32 == 0 then 1 else (n + 1) % 2 ^ 32

-- With `movementProjection`, whose server tick is that of the last integration.
unfoldable pub capture_state_snapshot :
    BattleInstance → BattleInstance × Option StateSnapshotProjection
capture_state_snapshot b =
    if not (is_committed b.state) || not (has b.last_integrated_server_tick) then (b, none) else (
      record b { next_snapshot_sequence = next_sequence b.next_snapshot_sequence },
      some (record {
        battle_id = b.battle_id;
        snapshot_sequence = b.next_snapshot_sequence;
        server_tick = value_or_zero b.last_integrated_server_tick;
        players = map player_position b.participant_records;
      }),
    )

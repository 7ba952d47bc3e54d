-- ===== src/Battle/Instance.antt =====
-- The state of one battle: the fields of `BattleInstance` in
-- game-server/modules/battle/include/lol/battle/BattleLoadApi.hpp, and the helpers of
-- src/domain/BattleInstance.cpp that its operations share. A pointer to a participant is the
-- participant's session number, and a change through it is a change of the first record with it.
-- A call that would end the process, by `std::terminate`, has no result.
pub mod Load
pub mod Commit
pub mod Exit
pub mod Input
pub mod Attack
pub mod Claim
pub mod Deadlines
pub mod Views
pub mod Invariant
mod Tests
use loot_of_legends_public.Base.{
  ℕ, zero, suc, ◌+◌, ◌-◌, ◌*◌, Bool, true, false, not, ◌&&◌, ◌||◌, ltb, leb, ◌==◌, if◌then◌else◌,
  List, [], ◌∷◌, Option, none, some, length, find_if, map, ℤ, pos,
}
use loot_of_legends_public.Battle.AttackResults.{AttackResultStore, CombatOutcome, no_outcome}
use loot_of_legends_public.Battle.LootResults.{LootResultStore}
use loot_of_legends_public.Battle.Drops.{RelicDrop}
use loot_of_legends_public.Battle.Time.{BattleTime, valid, later, from_logical_tick}
use loot_of_legends_public.Battle.Motion.{RateLimit}
use loot_of_legends_public.Battle.Combat.{Monster}
use loot_of_legends_public.Battle.Result.{
  CapturedParticipant, LootDropState, LootHoldingProjection, LootDropProjection, BattleOutcome,
  BattleFinalResult, ParticipantExitStatus,
}

pub data BattleLoadState : Type 0 where
  created load_barrier_open gameplay_committed load_cancelled : BattleLoadState

pub data LoadCandidateState : Type 0 where
  pending_load ready disconnected timed_out : LoadCandidateState

pub data LootResolutionState : Type 0 where
  not_started resolution_open resolved : LootResolutionState

pub data BattleResultState : Type 0 where
  not_ready committed result_generation_failed : BattleResultState

pub record BattleStartCandidate : Type 0 where
  pub account_id : ℕ
  pub session_id : ℕ
  pub generation : ℕ
  pub nickname : List ℕ

pub record CandidateRecord : Type 0 where
  pub identity : BattleStartCandidate
  pub state : LoadCandidateState

pub record LootDropRecord : Type 0 where
  pub drop : RelicDrop
  pub state : LootDropState
  pub owner : Option ℕ

pub record EventId : Type 0 where
  pub high : ℕ
  pub low : ℕ

pub record CombatTerminalRecord : Type 0 where
  pub event_id : EventId
  pub battle_id : ℕ
  pub event_sequence : ℕ
  pub outcome : CombatOutcome
  pub monster_id : ℕ
  pub server_tick : ℕ
  pub ruleset_version : ℕ

-- The three pairs of a rate's last update and its credit are token buckets.
pub record ParticipantRecord : Type 0 where
  pub slot : ℕ
  pub session_id : ℕ
  pub generation : ℕ
  pub pos_x : ℤ
  pub pos_y : ℤ
  pub tick_delta_x : ℤ
  pub tick_delta_y : ℤ
  pub latest_seen_action_sequence : Option ℕ
  pub move_rate : RateLimit
  pub attack_rate : RateLimit
  pub claim_rate : RateLimit
  pub last_accepted_attack_nanos : Option ℕ
  pub attack_results : AttackResultStore
  pub loot_results : LootResultStore
  pub gameplay_eligible : Bool
  pub input_enabled : Bool
  pub exit_status : ParticipantExitStatus

pub record BattleInstance : Type 0 where
  pub room_id : ℕ
  pub battle_id : ℕ
  pub ruleset_version : ℕ
  pub seed : ℕ
  pub battle_time : BattleTime
  pub state : BattleLoadState
  pub candidates : List CandidateRecord
  pub captured_participants : List CapturedParticipant
  pub participant_records : List ParticipantRecord
  pub load_deadline_tick : Option ℕ
  pub combat_deadline_tick : Option ℕ
  pub loot_deadline_tick : Option ℕ
  pub last_integrated_server_tick : Option ℕ
  pub next_snapshot_sequence : ℕ
  pub next_attack_applied_sequence : ℕ
  pub monster : Option Monster
  pub combat_terminal : Option CombatTerminalRecord
  pub battle_terminal_outcome : Option BattleOutcome
  pub drops : List LootDropRecord
  pub holdings : List LootHoldingProjection
  pub loot_resolution : LootResolutionState
  pub result_state : BattleResultState
  pub committed_result : Option BattleFinalResult
  pub loot_results_completed_at_nanos : Option ℕ

abbrev pub has {ℓ} : {A : Type ℓ} → Option A → Bool
has none = false
has (some _) = true

abbrev pub value_or_zero : Option ℕ → ℕ
value_or_zero none = 0
value_or_zero (some n) = n

unfoldable pub observe_battle_time : BattleInstance → BattleTime → BattleInstance
observe_battle_time b at = record b {
  battle_time = if valid at && later at b.battle_time then at else b.battle_time;
}

abbrev pub is_committed : BattleLoadState → Bool
is_committed gameplay_committed = true
is_committed _ = false

abbrev pub is_not_ready : BattleResultState → Bool
is_not_ready not_ready = true
is_not_ready _ = false

abbrev pub is_open : LootResolutionState → Bool
is_open resolution_open = true
is_open _ = false

-- `participantRecord`.
abbrev pub find_participant : ℕ → List ParticipantRecord → Option ParticipantRecord
find_participant session = find_if (λ p. p.session_id == session)

abbrev pub participant_record : BattleInstance → ℕ → Option ParticipantRecord
participant_record b session = find_participant session b.participant_records

-- A change through the pointer that `participantRecord` gives.
unfoldable pub put : ParticipantRecord → List ParticipantRecord → List ParticipantRecord
put q [] = []
put q (p ∷ ps) = let rest = put q ps in if p.session_id == q.session_id then q ∷ ps else p ∷ rest

abbrev pub put_participant : BattleInstance → ParticipantRecord → BattleInstance
put_participant b p = record b { participant_records = put p b.participant_records }

abbrev pub terminal_outcome : Option CombatTerminalRecord → CombatOutcome
terminal_outcome none = no_outcome
terminal_outcome (some t) = t.outcome

-- The system's slot is 0.
abbrev pub slot_of : Option ParticipantRecord → ℕ
slot_of none = 0
slot_of (some p) = p.slot

unfoldable pub slot_for_session : BattleInstance → ℕ → ℕ
slot_for_session b session = slot_of (participant_record b session)

abbrev pub session_of : Option ParticipantRecord → Option ℕ
session_of none = none
session_of (some p) = some p.session_id

unfoldable pub session_for_slot : BattleInstance → ℕ → Option ℕ
session_for_slot b slot =
    if slot == 0 then none else session_of (find_if (λ p. p.slot == slot) b.participant_records)

-- The drops of `lootProjection`; its holdings are the battle's.
abbrev pub drop_projection : LootDropRecord → LootDropProjection
drop_projection r = record {
  drop_id = r.drop.drop_id;
  item_id = r.drop.item_id;
  quantity = r.drop.quantity;
  position = r.drop.position;
  state = r.state;
  owner = r.owner;
}

-- ===== src/Battle/Instance/Views.antt =====
-- What a battle shows of itself, in BattleInstance.cpp and LootHandler.cpp.
use loot_of_legends_public.Base.{
  ℕ, Bool, not, ◌==◌, if◌then◌else◌, List, Option, none, some, map, ℤ,
}
use loot_of_legends_public.Battle.AttackResults.{CombatOutcome}
use loot_of_legends_public.Battle.Combat.{Monster, MonsterState}
use loot_of_legends_public.Battle.Result.{
  CapturedParticipant, LootDropProjection, LootHoldingProjection, BattleFinalResult,
  ParticipantExitStatus,
}
use loot_of_legends_public.Battle.Instance.{
  BattleInstance, BattleLoadState, LoadCandidateState, CandidateRecord, ParticipantRecord,
  CombatTerminalRecord, LootResolutionState, BattleResultState, drop_projection, is_committed,
  participant_record, terminal_outcome, value_or_zero,
}

pub record CombatProjection : Type 0 where
  pub battle_id : ℕ
  pub monster_id : ℕ
  pub hit_points : ℕ
  pub monster_state : MonsterState
  pub outcome : CombatOutcome
  pub terminal : Option CombatTerminalRecord
  pub server_tick : ℕ

abbrev pub combat_of : BattleInstance → Option Monster → Option CombatProjection
combat_of b none = none
combat_of b (some m) = some (record {
  battle_id = b.battle_id;
  monster_id = m.id;
  hit_points = m.hit_points;
  monster_state = m.state;
  outcome = terminal_outcome b.combat_terminal;
  terminal = b.combat_terminal;
  server_tick = value_or_zero b.last_integrated_server_tick;
})

abbrev pub combat_projection : BattleInstance → Option CombatProjection
combat_projection b = combat_of b b.monster

pub record LoadCandidateProjection : Type 0 where
  pub session_id : ℕ
  pub generation : ℕ
  pub state : LoadCandidateState

pub record BattleLoadProjection : Type 0 where
  pub room_id : ℕ
  pub battle_id : ℕ
  pub state : BattleLoadState
  pub candidates : List LoadCandidateProjection
  pub captured_participants : List CapturedParticipant

abbrev pub candidate_projection : CandidateRecord → LoadCandidateProjection
candidate_projection c = record {
  session_id = c.identity.session_id;
  generation = c.identity.generation;
  state = c.state;
}

abbrev pub projection : BattleInstance → BattleLoadProjection
projection b = record {
  room_id = b.room_id;
  battle_id = b.battle_id;
  state = b.state;
  candidates = map candidate_projection b.candidates;
  captured_participants = b.captured_participants;
}

pub record LootProjection : Type 0 where
  pub battle_id : ℕ
  pub resolution : LootResolutionState
  pub drops : List LootDropProjection
  pub holdings : List LootHoldingProjection

abbrev pub loot_projection : BattleInstance → LootProjection
loot_projection b = record {
  battle_id = b.battle_id;
  resolution = b.loot_resolution;
  drops = map drop_projection b.drops;
  holdings = b.holdings;
}

pub record BattleResultProjection : Type 0 where
  pub state : BattleResultState
  pub result : Option BattleFinalResult

abbrev pub result_projection : BattleInstance → BattleResultProjection
result_projection b = record { state = b.result_state; result = b.committed_result }

pub record BattleResumeParticipantProjection : Type 0 where
  pub session_id : ℕ
  pub generation : ℕ
  pub pos_x : ℤ
  pub pos_y : ℤ
  pub exit_status : ParticipantExitStatus
  pub input_enabled : Bool

pub record BattleResumeProjection : Type 0 where
  pub room_id : ℕ
  pub battle_id : ℕ
  pub session_id : ℕ
  pub generation : ℕ
  pub battle_state : BattleLoadState
  pub server_tick : ℕ
  pub input_enabled : Bool
  pub participants : List BattleResumeParticipantProjection
  pub combat : Option CombatProjection
  pub loot : LootProjection
  pub result : BattleResultProjection

abbrev pub resume_participant : ParticipantRecord → BattleResumeParticipantProjection
resume_participant p = record {
  session_id = p.session_id;
  generation = p.generation;
  pos_x = p.pos_x;
  pos_y = p.pos_y;
  exit_status = p.exit_status;
  input_enabled = p.input_enabled;
}

abbrev pub resume_of :
    BattleInstance → ℕ → ℕ → Option ParticipantRecord → Option BattleResumeProjection
resume_of b session generation none = none
resume_of b session generation (some p) =
    if not (p.generation == generation)
    then none
    else some (record {
      room_id = b.room_id;
      battle_id = b.battle_id;
      session_id = session;
      generation = generation;
      battle_state = b.state;
      server_tick = value_or_zero b.last_integrated_server_tick;
      input_enabled = p.input_enabled;
      participants = map resume_participant b.participant_records;
      combat = combat_projection b;
      loot = loot_projection b;
      result = result_projection b;
    })

unfoldable pub resume_projection : BattleInstance → ℕ → ℕ → Option BattleResumeProjection
resume_projection b session generation =
    if not (is_committed b.state)
    then none
    else resume_of b session generation (participant_record b session)

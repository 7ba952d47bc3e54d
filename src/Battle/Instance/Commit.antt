-- ===== src/Battle/Instance/Commit.antt =====
-- The commit of a battle's result, in BattleInstance.cpp.
use loot_of_legends_public.Base.{ℕ, Bool, true, false, not, if◌then◌else◌, Option, none, some, map}
use loot_of_legends_public.Battle.AttackResults
use loot_of_legends_public.Battle.AttackResults.{CombatOutcome}
use loot_of_legends_public.Battle.LootResults
use loot_of_legends_public.Battle.LootResults.Retained.{RetainedLootResults}
use loot_of_legends_public.Battle.Time.{BattleTime}
use loot_of_legends_public.Battle.Drops.{v1_snapshot}
use loot_of_legends_public.Battle.Result.{
  CapturedParticipant, BattleOutcome, monster_defeated, combat_timeout,
  cancelled_no_active_participants, terminal_exit_status, ResultBuildSource, Checked, failure,
  success, BattleFinalResult,
}
use loot_of_legends_public.Battle.Result.Checks.{build_final_result}
use loot_of_legends_public.Battle.Instance.{
  BattleInstance, ParticipantRecord, CombatTerminalRecord, LootResolutionState, resolved, committed,
  result_generation_failed, has, is_not_ready, drop_projection,
}

abbrev pub complete_loot : ℕ → ParticipantRecord → ParticipantRecord
complete_loot nanos p = record p {
  loot_results = LootResults.mark_battle_completed p.loot_results nanos;
}

unfoldable pub mark_loot_results_completed : BattleInstance → BattleTime → BattleInstance
mark_loot_results_completed b at = if has b.loot_results_completed_at_nanos then b else record b {
  loot_results_completed_at_nanos = some at.battle_elapsed_nanos;
  participant_records = map (complete_loot at.battle_elapsed_nanos) b.participant_records;
}

abbrev pub clear_deadlines : BattleInstance → BattleInstance
clear_deadlines b = record b {
  load_deadline_tick = none;
  combat_deadline_tick = none;
  loot_deadline_tick = none;
}

abbrev pub is_resolved : LootResolutionState → Bool
is_resolved resolved = true
is_resolved _ = false

-- A defeat waits for the loot; any other outcome of a combat record is a timeout.
abbrev pub converted : LootResolutionState → CombatOutcome → Option BattleOutcome
converted resolution AttackResults.monster_defeated =
    if is_resolved resolution then some monster_defeated else none
converted resolution _ = some combat_timeout

abbrev pub outcome_of_combat :
    LootResolutionState → Option CombatTerminalRecord → Option BattleOutcome
outcome_of_combat resolution none = none
outcome_of_combat resolution (some t) = converted resolution t.outcome

-- The outcome to commit now, if there is one: a cancellation first, then the combat's.
abbrev pub ready_outcome :
    Option BattleOutcome → LootResolutionState → Option CombatTerminalRecord → Option BattleOutcome
ready_outcome (some outcome) resolution terminal = some outcome
ready_outcome none resolution terminal = outcome_of_combat resolution terminal

abbrev pub result_source : BattleInstance → BattleOutcome → ResultBuildSource
result_source b outcome = record {
  room_id = b.room_id;
  battle_id = b.battle_id;
  outcome = outcome;
  captured = b.captured_participants;
  drops = map drop_projection b.drops;
  holdings = b.holdings;
}

abbrev pub is_cancelled : BattleOutcome → Bool
is_cancelled cancelled_no_active_participants = true
is_cancelled _ = false

abbrev pub end_captured : CapturedParticipant → CapturedParticipant
end_captured p = record p { exit_status = terminal_exit_status p.exit_status }

abbrev pub end_participant : ParticipantRecord → ParticipantRecord
end_participant p = record p {
  input_enabled = false;
  exit_status = terminal_exit_status p.exit_status;
}

abbrev pub commit_built :
    BattleInstance → BattleOutcome → BattleTime → Checked BattleFinalResult → BattleInstance
commit_built b outcome at (failure _) =
    mark_loot_results_completed
      (record (clear_deadlines b) { result_state = result_generation_failed }) at
commit_built b outcome at (success result) =
    mark_loot_results_completed
      (record (clear_deadlines b) {
        committed_result = some result;
        result_state = committed;
        battle_terminal_outcome = some outcome;
        captured_participants =
            if is_cancelled outcome
            then b.captured_participants
            else map end_captured b.captured_participants;
        participant_records =
            if is_cancelled outcome
            then b.participant_records
            else map end_participant b.participant_records;
      })
      at

unfoldable pub commit_result_if_ready : BattleInstance → BattleTime → BattleInstance
commit_result_if_ready b at =
    if not (is_not_ready b.result_state)
    then b
    else elim (ready_outcome b.battle_terminal_outcome b.loot_resolution b.combat_terminal) [
      | none ↦ b
      | some outcome ↦
          commit_built b outcome at (build_final_result (result_source b outcome) v1_snapshot)
    ]

abbrev pub retained_from : BattleInstance → Option ℕ → Option RetainedLootResults
retained_from b none = none
retained_from b (some completed_at) = some (record {
  battle_id = b.battle_id;
  completed_at_nanos = completed_at;
  compatibility_completed_at_nanos = none;
  stores = map (λ p. p.loot_results) b.participant_records;
})

unfoldable pub retained_loot_results : BattleInstance → Option RetainedLootResults
retained_loot_results b = retained_from b b.loot_results_completed_at_nanos

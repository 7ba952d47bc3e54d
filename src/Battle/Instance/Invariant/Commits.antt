-- ===== src/Battle/Instance/Invariant/Commits.antt =====
-- The commit of a result keeps a battle sound.
use loot_of_legends_public.Base.{
  ℕ, ◌≡◌, ◌≤◌, ◌⊎◌, if◌then◌else◌, refl, sym, ◌∙◌, Bool, true, false, List, [], ◌∷◌, Option, none,
  some, All, map, length, arith, inl, inr, Bool-cases, Option-cases,
}
use loot_of_legends_public.Battle.LootResults.{mark_battle_completed}
use loot_of_legends_public.Battle.Time.{BattleTime}
use loot_of_legends_public.Battle.Drops.{v1_snapshot}
use loot_of_legends_public.Battle.Result.{
  ParticipantExitStatus, terminal_exit_status, gameplay_eligible, voluntary_left, disconnected,
  terminal_present, terminal_exited, BattleOutcome, BattleFinalResult, Checked, failure, success,
  CapturedParticipant,
}
use loot_of_legends_public.Battle.Result.Checks.{build_final_result}
use loot_of_legends_public.Battle.Instance.{
  BattleResultState, not_ready, committed, result_generation_failed, is_committed,
  LootResolutionState, CombatTerminalRecord, BattleInstance, ParticipantRecord, has, is_not_ready,
}
use loot_of_legends_public.Battle.Instance.Commit.{
  complete_loot, end_participant, end_captured, mark_loot_results_completed, commit_built,
  commit_result_if_ready, ready_outcome, result_source, is_cancelled,
}
use loot_of_legends_public.Battle.Instance.Invariant.{
  is_result_committed, IsPlayer, IsSound, IsFinal, Stays, is_present,
}
use loot_of_legends_public.Battle.Instance.Invariant.Participants.{map-IsPlayer}

terminal_presence : (s : ParticipantExitStatus) → is_present (terminal_exit_status s) ≡ is_present s
unfolding terminal_exit_status
terminal_presence gameplay_eligible = refl
terminal_presence voluntary_left = refl
terminal_presence disconnected = refl
terminal_presence terminal_present = refl
terminal_presence terminal_exited = refl

complete_loot-IsPlayer :
    (nanos battle : ℕ) (p : ParticipantRecord)
    → IsPlayer battle p
    → IsPlayer battle (complete_loot nanos p)
unfolding mark_battle_completed
complete_loot-IsPlayer nanos battle p v = v

end_participant-IsPlayer :
    (battle : ℕ) (p : ParticipantRecord) → IsPlayer battle p → IsPlayer battle (end_participant p)
end_participant-IsPlayer battle p (arena, limited, (able, present), scoped) =
    (arena, limited, (refl, present ∙ sym (terminal_presence p.exit_status)), scoped)

pub mark_loot_results_completed-IsSound :
    (start b : BattleInstance) (at : BattleTime)
    → IsSound start b
    → IsSound start (mark_loot_results_completed b at)
unfolding mark_loot_results_completed
mark_loot_results_completed-IsSound start b at (decided, staffed, ledger, players) =
    elim (Bool-cases (has b.loot_results_completed_at_nanos)) [
      | inl e ↦ rw (e, mark_loot_results_completed) (decided, staffed, ledger, players)
      | inr e ↦
          let done =
            map-IsPlayer b.battle_id (complete_loot at.battle_elapsed_nanos) b.participant_records
              (complete_loot-IsPlayer at.battle_elapsed_nanos b.battle_id) players in
          rw (e, mark_loot_results_completed) (decided, staffed, ledger, done)
    ]

length-map-end : (ps : List CapturedParticipant) → length (map end_captured ps) ≡ length ps
length-map-end [] = refl
length-map-end (p ∷ ps) = omega (arith, length-map-end ps)

-- The outcome that is committed is the one already decided, if one is.
ready_outcome_lem :
    (before now : Option BattleOutcome) (resolution : LootResolutionState)
    (terminal : Option CombatTerminalRecord) (outcome : BattleOutcome)
    → Stays before now
    → ready_outcome now resolution terminal ≡ some outcome
    → Stays before (some outcome)
ready_outcome_lem none now resolution terminal outcome h e = tt
ready_outcome_lem (some x) none resolution terminal outcome h e = absurd (ground arith)
ready_outcome_lem (some x) (some y) resolution terminal outcome h e = sym e ∙ h

-- A result that is not decided yet was not decided at the start.
pub undecided :
    (start b : BattleInstance)
    → IsFinal start b
    → is_not_ready b.result_state ≡ true
    → is_not_ready start.result_state ≡ true
undecided start b (inl e) n = e
undecided start b (inr (e, f)) n = rw (← e) n

not_ready_lem : (s : BattleResultState) → is_not_ready s ≡ true → is_result_committed s ≡ false
not_ready_lem not_ready e = refl
not_ready_lem committed e = absurd (ground arith)
not_ready_lem result_generation_failed e = refl

ended_captured :
    (state : Bool) (ps : List CapturedParticipant) (cancelled : Bool)
    → (state ≡ false) ⊎ ((2 ≤ length ps) × (length ps ≤ 10))
    → (state ≡ false)
      ⊎ ((2 ≤ length (if cancelled then ps else map end_captured ps))
          × (length (if cancelled then ps else map end_captured ps) ≤ 10))
ended_captured state ps true h = h
ended_captured state ps false h = rw (length-map-end ps) h

ended_players :
    (battle : ℕ) (ps : List ParticipantRecord) (cancelled : Bool)
    → All (IsPlayer battle) ps
    → All (IsPlayer battle) (if cancelled then ps else map end_participant ps)
ended_players battle ps true h = h
ended_players battle ps false h =
    map-IsPlayer battle end_participant ps (end_participant-IsPlayer battle) h

commit_built-IsSound :
    (start b : BattleInstance) (outcome : BattleOutcome) (at : BattleTime)
    (built : Checked BattleFinalResult)
    → IsSound start b
    → is_not_ready b.result_state ≡ true
    → Stays start.battle_terminal_outcome (some outcome)
    → IsSound start (commit_built b outcome at built)
commit_built-IsSound start b outcome at (failure status)
      ((reported, final, combat, before), staffed, ledger, players) n stays =
    mark_loot_results_completed-IsSound start _ at (
      (reported ∙ not_ready_lem b.result_state n, inl (undecided start b final n), combat, before),
      staffed,
      ledger,
      players,
    )
commit_built-IsSound start b outcome at (success result)
      ((reported, final, combat, before), (seeded, few, staffed), ledger, players) n stays =
    mark_loot_results_completed-IsSound start _ at (
      (refl, inl (undecided start b final n), combat, stays),
      (
        seeded,
        few,
        ended_captured (is_committed b.state) b.captured_participants (is_cancelled outcome)
            staffed,
      ),
      ledger,
      ended_players b.battle_id b.participant_records (is_cancelled outcome) players,
    )

pub commit_result_if_ready-IsSound :
    (start b : BattleInstance) (at : BattleTime)
    → IsSound start b
    → IsSound start (commit_result_if_ready b at)
unfolding commit_result_if_ready
commit_result_if_ready-IsSound start b at v =
    let (decided, staffed, ledger, players) = v in
    let (reported, final, combat, before) = decided in
    elim (Bool-cases (is_not_ready b.result_state)) [
      | inr e ↦ rw (e, commit_result_if_ready) v
      | inl e ↦
          elim (Option-cases
            (ready_outcome b.battle_terminal_outcome b.loot_resolution b.combat_terminal)) [
              | inl x ↦ rw (e, x, commit_result_if_ready) v
              | inr (outcome, x) ↦
                  let done =
                    commit_built-IsSound start b outcome at
                      (build_final_result (result_source b outcome) v1_snapshot) v e
                      (ready_outcome_lem start.battle_terminal_outcome b.battle_terminal_outcome
                        b.loot_resolution b.combat_terminal outcome before x) in
                  rw (e, x, commit_result_if_ready) done
            ]
    ]

-- ===== src/Battle/Instance/Exit.antt =====
-- Disconnection, leaving, and the cancellation they may bring, in BattleInstance.cpp.
use loot_of_legends_public.Base.{
  ℕ, Bool, true, false, not, ◌||◌, ◌==◌, if◌then◌else◌, List, [], ◌∷◌, none, some, map, ℤ, pos,
}
use loot_of_legends_public.Battle.Time.{BattleTime, battle_time_from_live_clock}
use loot_of_legends_public.Battle.Result.{
  CapturedParticipant, BattleOutcome, LootDropState, available, unclaimed,
  cancelled_no_active_participants, ParticipantExitStatus, voluntary_left,
}
use loot_of_legends_public.Battle.Result
use loot_of_legends_public.Battle.Result.Checks.{any_of}
use loot_of_legends_public.Battle.Instance.{
  BattleInstance, ParticipantRecord, LootDropRecord, resolved, disconnected, has, is_not_ready,
  is_open, is_committed, participant_record, put_participant, observe_battle_time,
}
use loot_of_legends_public.Battle.Instance.Load.{
  BattleLoadResultCode, ok, Correlation, refused, correlated, correlate, is_barrier_open,
  is_pending, set_candidate, resolve_if_complete,
}
use loot_of_legends_public.Battle.Instance.Commit.{clear_deadlines, commit_result_if_ready}

abbrev pub is_available : LootDropState → Bool
is_available available = true
is_available _ = false

-- What the end of the resolution does to a drop.
abbrev pub close_drop : LootDropRecord → LootDropRecord
close_drop r = if is_available r.state then record r { state = unclaimed } else r

abbrev pub close_loot : BattleInstance → BattleInstance
close_loot b =
    if is_open b.loot_resolution
    then record b { drops = map close_drop b.drops; loot_resolution = resolved }
    else b

unfoldable pub apply_cancellation_if_no_active_participants : BattleInstance → BattleInstance
apply_cancellation_if_no_active_participants b =
    if has b.battle_terminal_outcome
      || not (is_not_ready b.result_state)
      || any_of (λ p. p.gameplay_eligible) b.participant_records
    then b
    else close_loot (record (clear_deadlines b) {
      battle_terminal_outcome = some cancelled_no_active_participants;
    })

-- The loop over the captured participants, up to the first of the session.
unfoldable pub set_captured :
    ℕ → ParticipantExitStatus → List CapturedParticipant → List CapturedParticipant
set_captured session status [] = []
set_captured session status (p ∷ ps) =
    let rest = set_captured session status ps in
    if p.session_id == session then record p { exit_status = status } ∷ ps else p ∷ rest

abbrev pub is_eligible_status : ParticipantExitStatus → Bool
is_eligible_status Result.gameplay_eligible = true
is_eligible_status _ = false

abbrev pub frozen : ParticipantRecord → ParticipantExitStatus → ParticipantRecord
frozen p status = record p {
  gameplay_eligible = false;
  input_enabled = false;
  tick_delta_x = pos 0;
  tick_delta_y = pos 0;
  exit_status = status;
}

unfoldable pub freeze :
    BattleInstance → ParticipantRecord → ParticipantExitStatus → BattleTime → BattleInstance
freeze b p status at =
    let c = put_participant (observe_battle_time b at) (frozen p status) in
    commit_result_if_ready
      (apply_cancellation_if_no_active_participants (record c {
        captured_participants = set_captured p.session_id status c.captured_participants;
      }))
      at

-- `freezeExited` after its correlation.
unfoldable pub freeze_found :
    BattleInstance → ℕ → ParticipantExitStatus → BattleTime → BattleInstance
freeze_found b session status at =
    if not (is_committed b.state) then b else elim (participant_record b session) [
      | none ↦ b
      | some p ↦ if not (is_eligible_status p.exit_status) then b else freeze b p status at
    ]

abbrev pub freeze_correlated :
    BattleInstance
    → ℕ
    → ParticipantExitStatus
    → BattleTime
    → Correlation
    → BattleInstance × BattleLoadResultCode
freeze_correlated b session status at (refused code) = (b, code)
freeze_correlated b session status at (correlated _) = (freeze_found b session status at, ok)

unfoldable pub freeze_exited :
    BattleInstance
    → ℕ
    → ℕ
    → ℕ
    → ℕ
    → ParticipantExitStatus
    → BattleTime
    → BattleInstance × BattleLoadResultCode
freeze_exited b room battle session generation status at =
    freeze_correlated b session status at (correlate b room battle session generation)

-- `disconnect` after its correlation; `freezeExited` correlates again.
abbrev pub disconnect_correlated :
    BattleInstance
    → ℕ
    → BattleTime
    → Correlation
    → BattleInstance × BattleLoadResultCode
    → BattleInstance × BattleLoadResultCode
disconnect_correlated b session at (refused code) exited = (b, code)
disconnect_correlated b session at (correlated candidate) exited =
    if is_committed b.state
    then exited
    else if not (is_barrier_open b.state) || not (is_pending candidate.state)
    then (b, ok)
    else let c = observe_battle_time b at in
      (
        resolve_if_complete
            (record c { candidates = set_candidate session disconnected c.candidates }),
        ok,
      )

unfoldable pub disconnect :
    BattleInstance → ℕ → ℕ → ℕ → ℕ → BattleTime → BattleInstance × BattleLoadResultCode
unfolding freeze_exited
disconnect b room battle session generation at =
    disconnect_correlated b session at (correlate b room battle session generation)
      (freeze_exited b room battle session generation Result.disconnected at)

unfoldable pub leave :
    BattleInstance → ℕ → ℕ → ℕ → ℕ → BattleTime → BattleInstance × BattleLoadResultCode
leave b room battle session generation at =
    freeze_exited b room battle session generation voluntary_left at

-- The overloads for a live clock.
abbrev pub disconnect_live :
    BattleInstance → ℕ → ℕ → ℕ → ℕ → ℤ → BattleInstance × BattleLoadResultCode
disconnect_live b room battle session generation at =
    disconnect b room battle session generation (battle_time_from_live_clock at)

abbrev pub leave_live : BattleInstance → ℕ → ℕ → ℕ → ℕ → ℤ → BattleInstance × BattleLoadResultCode
leave_live b room battle session generation at =
    leave b room battle session generation (battle_time_from_live_clock at)

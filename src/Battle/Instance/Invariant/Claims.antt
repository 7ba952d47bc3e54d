-- ===== src/Battle/Instance/Invariant/Claims.antt =====
-- What a claim's result needs to be stored: the step that must not fail.
use loot_of_legends_public.Base.{
  ℕ, ◌≡◌, refl, Bool, true, false, not, ◌||◌, ◌==◌, some, map, arith, inl, inr, Bool-cases,
  Option-cases,
}
use loot_of_legends_public.Battle.LootResults.{
  ClaimLootCommand, ClaimLootTerminalResult, ClaimLootResultCode, LootResultStore, inspect, retain,
  is_available, mark_battle_completed, reject,
}
use loot_of_legends_public.Battle.Time.{BattleTime}
use loot_of_legends_public.Battle.Result.{
  BattleOutcome, BattleFinalResult, Checked, failure, success,
}
use loot_of_legends_public.Battle.Result.Checks.{build_final_result}
use loot_of_legends_public.Battle.Drops.{v1_snapshot}
use loot_of_legends_public.Battle.Instance.{
  BattleInstance, ParticipantRecord, participant_record, has, is_not_ready,
}
use loot_of_legends_public.Battle.Instance.Commit.{
  complete_loot, end_participant, mark_loot_results_completed, commit_built, commit_result_if_ready,
  ready_outcome, result_source, is_cancelled,
}
use loot_of_legends_public.Battle.Instance.Claim.{retain_claim, store_result}
use loot_of_legends_public.Battle.Instance.Invariant.{IsPlayer, IsSound, IsSafe}
use loot_of_legends_public.Battle.Instance.Invariant.Participants.{put-IsPlayer, find-map}
use loot_of_legends_public.Battle.Instance.Invariant.Inputs.{found-IsPlayer}

-- The claim's participant has a store that takes the claim's result.
abbrev pub Accepts : BattleInstance → ClaimLootCommand → Type 0
Accepts b c =
    (p : ParticipantRecord) × (participant_record b c.session_id ≡ some p)
    × (is_available (inspect p.loot_results c).0 ≡ true)

abbrev IsStoreOf : ℕ → ℕ → ℕ → LootResultStore → Type 0
IsStoreOf session generation battle s =
    (s.session_id ≡ session) × (s.generation ≡ generation) × (s.battle_id ≡ battle)

retained :
    (session generation battle : ℕ) (s : LootResultStore) (c : ClaimLootCommand)
    (code : ClaimLootResultCode)
    → is_available (inspect s c).0 ≡ true
    → IsStoreOf session generation battle s
    → ((retain s c (reject c code)).1 ≡ true)
      × IsStoreOf session generation battle (retain s c (reject c code)).0
unfolding retain reject
retained session generation battle s c code e (h, i, j) =
    let passes : (not (is_available (inspect s c).0)
          || not (c.command_id == c.command_id)
          || not (c.battle_id == c.battle_id)
          || not (c.drop_id == c.drop_id))
        ≡ false =
      ground arith in
    rw passes (refl, (h, i, j))

stored :
    (start b : BattleInstance) (p : ParticipantRecord) (x : ClaimLootTerminalResult)
    (s : LootResultStore × Bool)
    → IsSound start b
    → IsPlayer b.battle_id p
    → s.1 ≡ true
    → IsStoreOf p.session_id p.generation b.battle_id s.0
    → IsSafe start (store_result b p x s)
stored start b p x (s, false) v player e store = absurd (ground arith)
stored start b p x (s, true) (decided, staffed, ledger, players) (arena, limited, active, scoped) e
      (one, two, three) =
    let (a, g, t, session, generation, battle, valid) = scoped in
    (
      decided,
      staffed,
      ledger,
      put-IsPlayer b.battle_id (record p { loot_results = s }) b.participant_records
          (arena, limited, active, (a, g, t, one, two, three, valid)) players,
    )

-- Where the store takes the result, it is stored.
pub retain_claim-IsSafe :
    (start b : BattleInstance) (c : ClaimLootCommand) (code : ClaimLootResultCode)
    → IsSound start b
    → Accepts b c
    → IsSafe start (retain_claim b c code)
unfolding retain_claim
retain_claim-IsSafe start b c code v (p, found, takes) =
    let (player, named) = found-IsPlayer start b c.session_id p v found in
    let (arena, limited, active, (l, m, n, session, generation, battle, valid)) = player in
    let (kept, store) =
      retained p.session_id p.generation b.battle_id p.loot_results c code takes
        (session, generation, battle) in
    rw (retain_claim, found) (stored start b p (reject c code) _ v player kept store)

-- A change of the participants that keeps their sessions and stored results.
keeps-Accepts :
    (b : BattleInstance) (f : ParticipantRecord → ParticipantRecord) (c : ClaimLootCommand)
    → ((q : ParticipantRecord) → (f q).session_id ≡ q.session_id)
    → ((q : ParticipantRecord) → inspect (f q).loot_results c ≡ inspect q.loot_results c)
    → Accepts b c
    → Accepts (record b { participant_records = map f b.participant_records }) c
keeps-Accepts b f c h k (p, found, takes) =
    (f p, find-map f c.session_id b.participant_records p h found, rw (k p) takes)

mark-Accepts :
    (b : BattleInstance) (at : BattleTime) (c : ClaimLootCommand)
    → Accepts b c
    → Accepts (mark_loot_results_completed b at) c
unfolding mark_loot_results_completed inspect mark_battle_completed
mark-Accepts b at c a = elim (Bool-cases (has b.loot_results_completed_at_nanos)) [
  | inl e ↦ rw (e, mark_loot_results_completed) a
  | inr e ↦
      rw (e, mark_loot_results_completed)
        (keeps-Accepts b (complete_loot at.battle_elapsed_nanos) c (λ q. refl) (λ q. refl) a)
]

built-Accepts :
    (b : BattleInstance) (outcome : BattleOutcome) (at : BattleTime) (c : ClaimLootCommand)
    (x : Checked BattleFinalResult)
    → Accepts b c
    → Accepts (commit_built b outcome at x) c
built-Accepts b outcome at c (failure status) a = mark-Accepts _ at c a
built-Accepts b outcome at c (success result) a = elim (Bool-cases (is_cancelled outcome)) [
  | inl e ↦ rw e (mark-Accepts _ at c a)
  | inr e ↦ rw e (mark-Accepts _ at c (keeps-Accepts b end_participant c (λ q. refl) (λ q. refl) a))
]

pub commit-Accepts :
    (b : BattleInstance) (at : BattleTime) (c : ClaimLootCommand)
    → Accepts b c
    → Accepts (commit_result_if_ready b at) c
unfolding commit_result_if_ready
commit-Accepts b at c a = elim (Bool-cases (is_not_ready b.result_state)) [
  | inr e ↦ rw (e, commit_result_if_ready) a
  | inl e ↦
      elim (Option-cases
        (ready_outcome b.battle_terminal_outcome b.loot_resolution b.combat_terminal)) [
          | inl x ↦ rw (e, x, commit_result_if_ready) a
          | inr (outcome, x) ↦
              let done =
                built-Accepts b outcome at c
                  (build_final_result (result_source b outcome) v1_snapshot) a in
              rw (e, x, commit_result_if_ready) done
        ]
]

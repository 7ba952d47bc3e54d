-- ===== src/Battle/Instance/Invariant/Run.antt =====
-- Any history of calls on a battle.
use loot_of_legends_public.Base.{
  ℕ, either, ◌≡◌, refl, Bool, false, not, ◌||◌, ◌==◌, leb, List, [], ◌∷◌, Option, none, some, arith,
  inl, inr, Bool-cases, Option-cases,
}
use loot_of_legends_public.Battle.Time.{BattleTime}
use loot_of_legends_public.Battle.AttackResults.{AttackCommand, AttackTerminalResult}
use loot_of_legends_public.Battle.LootResults.{ClaimLootCommand}
use loot_of_legends_public.Battle.Result.{LootHoldingProjection}
use loot_of_legends_public.Battle.Combat.{Monster, timeout, is_alive}
use loot_of_legends_public.Battle.Instance.{
  BattleInstance, CombatTerminalRecord, LootDropRecord, is_committed, has, is_open,
  observe_battle_time,
}
use loot_of_legends_public.Battle.Instance.Load.{
  open_load_barrier, complete_load, expire_load_barrier, is_reached,
}
use loot_of_legends_public.Battle.Instance.Exit.{disconnect, leave}
use loot_of_legends_public.Battle.Instance.Input.{
  MoveCommand, suspend_input, resume_input, accept_move, integrate_movement, capture_state_snapshot,
}
use loot_of_legends_public.Battle.Instance.Attack.{attack, complete_attacks, hit_points_of}
use loot_of_legends_public.Battle.Instance.Claim.{claim_loot}
use loot_of_legends_public.Battle.Instance.Deadlines.{
  CombatDeadlineResultCode, expire_combat, end_combat, expire_loot, attack_with_applied,
  with_applied, is_ok,
}
use loot_of_legends_public.Battle.Instance.Invariant.{IsLedger, IsSound, IsSafe}
use loot_of_legends_public.Battle.Instance.Invariant.Participants.{map-IsPlayer}
use loot_of_legends_public.Battle.Instance.Invariant.Commits.{commit_result_if_ready-IsSound}
use loot_of_legends_public.Battle.Instance.Invariant.Loads.{
  open_load_barrier-IsSound, complete_load-IsSound, expire_load_barrier-IsSound,
}
use loot_of_legends_public.Battle.Instance.Invariant.Exits.{
  close_drops-IsLedger, undecided-Stays, leave-IsSound, disconnect-IsSound,
}
use loot_of_legends_public.Battle.Instance.Invariant.Inputs.{
  suspend_input-IsSound, resume_input-IsSound, accept_move-IsSound, integrate_movement-IsSound,
  capture_state_snapshot-IsSound,
}
use loot_of_legends_public.Battle.Instance.Invariant.SafeAttacks.{attack-IsSafe}
use loot_of_legends_public.Battle.Instance.Invariant.SafeBlows.{complete_attacks-IsPlayer}
use loot_of_legends_public.Battle.Instance.Invariant.SafeClaims.{claim_loot-IsSafe}

expire_loot-IsSound :
    (start b : BattleInstance) (battle : ℕ) (now : BattleTime)
    → IsSound start b
    → IsSound start (expire_loot b battle now).0
unfolding expire_loot observe_battle_time
expire_loot-IsSound start b battle now v = elim (Bool-cases (not (battle == b.battle_id))) [
  | inl e ↦ rw (e, expire_loot) v
  | inr e ↦ elim (Bool-cases (not (is_open b.loot_resolution))) [
    | inl f ↦ rw (e, f, expire_loot) v
    | inr f ↦ elim (Bool-cases (not (is_reached b.loot_deadline_tick now))) [
      | inl g ↦ rw (e, f, g, expire_loot) v
      | inr g ↦
          let (decided, staffed, ledger, players) = v in
          rw (e, f, g, expire_loot)
            (commit_result_if_ready-IsSound start _ now (
              decided,
              staffed,
              close_drops-IsLedger b.combat_terminal b.drops b.holdings ledger,
              players,
            ))
    ]
  ]
]

-- A decision of the combat leaves the loot as it is.
decided-IsLedger :
    (t : CombatTerminalRecord) (o : Option CombatTerminalRecord) (ds : List LootDropRecord)
    (hs : List LootHoldingProjection)
    → IsLedger o ds hs
    → IsLedger (some t) ds hs
decided-IsLedger t o ds hs v = record {
  begins = inl refl;
  each = v.each;
  distinct = v.distinct;
  few = v.few;
  conserved = v.conserved;
}

end_combat-IsSound :
    (start b : BattleInstance) (now : BattleTime) (m : Monster)
    → IsSound start b
    → has b.combat_terminal ≡ false
    → IsSound start (end_combat b now (timeout m)).0
unfolding timeout observe_battle_time
end_combat-IsSound start b now m v undecided = elim (Bool-cases (is_alive m.state)) [
  | inr e ↦ rw e v
  | inl e ↦
      let ((reported, final, combat, outcome), staffed, ledger, players) = v in
      rw e (
        commit_result_if_ready-IsSound start _ now (
          (
            reported,
            final,
            undecided-Stays start.combat_terminal b.combat_terminal _ combat undecided,
            outcome,
          ),
          staffed,
          decided-IsLedger _ b.combat_terminal b.drops b.holdings ledger,
          map-IsPlayer b.battle_id (complete_attacks now.battle_elapsed_nanos) b.participant_records
              (complete_attacks-IsPlayer now.battle_elapsed_nanos b.battle_id) players,
        ))
]

expire_combat-IsSound :
    (start b : BattleInstance) (battle : ℕ) (now : BattleTime)
    → IsSound start b
    → IsSound start (expire_combat b battle now).0
unfolding expire_combat
expire_combat-IsSound start b battle now v = elim (Option-cases b.monster) [
  | inl e ↦ rw (expire_combat, e) (either P (not (battle == b.battle_id)) _ _ v (λ _. v))
  | inr (m, e) ↦
      rw (expire_combat, e)
        (either P (not (battle == b.battle_id)) _ _ v (λ _.
          either P (not (is_committed b.state)) _ _ v (λ _.
            either P (has b.combat_terminal || has b.battle_terminal_outcome) _ _ v (λ undecided.
              either P (not (is_reached b.combat_deadline_tick now)) _ _ v
                (λ _. end_combat-IsSound start b now m v (ground (arith, undecided)))))))
]
  where
    P : BattleInstance × CombatDeadlineResultCode → Type 0
    P x = IsSound start x.0

-- The calls that change a battle.
pub data Call : Type 0 where
  opens : BattleTime → Call
  completes : ℕ → ℕ → ℕ → ℕ → Bool → BattleTime → Call
  expires_load : ℕ → ℕ → BattleTime → Call
  disconnects leaves : ℕ → ℕ → ℕ → ℕ → BattleTime → Call
  suspends resumes : ℕ → ℕ → BattleTime → Call
  moves : MoveCommand → BattleTime → Call
  integrates : ℕ → ℕ → BattleTime → Call
  captures : Call
  attacks attacks_with_applied : AttackCommand → BattleTime → Call
  claims : ClaimLootCommand → BattleTime → Call
  expires_combat expires_loot : ℕ → BattleTime → Call

abbrev pub battle_after {ℓ} : {R : Type ℓ} → Option (BattleInstance × R) → Option BattleInstance
battle_after none = none
battle_after (some (b, _)) = some b

-- There is no battle after a call of `std::terminate`.
unfoldable pub step : BattleInstance → Call → Option BattleInstance
step b (opens at) = some (open_load_barrier b at).0
step b (completes room battle session generation transport_ready at) =
    some (complete_load b room battle session generation transport_ready at).0
step b (expires_load room battle at) = some (expire_load_barrier b room battle at).0
step b (disconnects room battle session generation at) =
    some (disconnect b room battle session generation at).0
step b (leaves room battle session generation at) =
    some (leave b room battle session generation at).0
step b (suspends session generation at) = some (suspend_input b session generation at).0
step b (resumes session generation at) = some (resume_input b session generation at).0
step b (moves command at) = some (accept_move b command at).0
step b (integrates battle tick at) = some (integrate_movement b battle tick at).0
step b captures = some (capture_state_snapshot b).0
step b (attacks command at) = battle_after (attack b command at)
step b (attacks_with_applied command at) = battle_after (attack_with_applied b command at)
step b (claims command at) = battle_after (claim_loot b command at)
step b (expires_combat battle at) = some (expire_combat b battle at).0
step b (expires_loot battle at) = some (expire_loot b battle at).0

abbrev pub next :
    Option BattleInstance → (BattleInstance → Option BattleInstance) → Option BattleInstance
next none f = none
next (some b) f = f b

unfoldable pub run : BattleInstance → List Call → Option BattleInstance
unfolding step
run b [] = some b
run b (c ∷ cs) = next (step b c) (λ d. run d cs)

-- The call did not end the process, and gives a sound battle.
abbrev pub Reaches : BattleInstance → Option BattleInstance → Type 0
Reaches start x = (d : BattleInstance) × (x ≡ some d) × IsSound start d

reaches {ℓ} :
    {R : Type ℓ} (start : BattleInstance) (x : Option (BattleInstance × R))
    → IsSafe start x
    → Reaches start (battle_after x)
reaches start none h = absurd h
reaches start (some (b, r)) h = (b, refl, h)

with_applied-IsSafe :
    (start : BattleInstance) (c : AttackCommand) (before : ℕ)
    (x : Option (BattleInstance × AttackTerminalResult))
    → IsSafe start x
    → IsSafe start (with_applied c before x)
with_applied-IsSafe start c before none h = h
with_applied-IsSafe start c before (some (b, result)) h =
    either (IsSafe start) (not (is_ok result.code) || leb before (hit_points_of b.monster)) _ _ h
      (λ _. h)

step-IsSound : (start b : BattleInstance) (c : Call) → IsSound start b → Reaches start (step b c)
unfolding step attack_with_applied
step-IsSound start b (opens at) v = (_, refl, open_load_barrier-IsSound start b at v)
step-IsSound start b (completes room battle session generation transport_ready at) v =
    (_, refl, complete_load-IsSound start b room battle session generation transport_ready at v)
step-IsSound start b (expires_load room battle at) v =
    (_, refl, expire_load_barrier-IsSound start b room battle at v)
step-IsSound start b (disconnects room battle session generation at) v =
    (_, refl, disconnect-IsSound start b room battle session generation at v)
step-IsSound start b (leaves room battle session generation at) v =
    (_, refl, leave-IsSound start b room battle session generation at v)
step-IsSound start b (suspends session generation at) v =
    (_, refl, suspend_input-IsSound start b session generation at v)
step-IsSound start b (resumes session generation at) v =
    (_, refl, resume_input-IsSound start b session generation at v)
step-IsSound start b (moves command at) v = (_, refl, accept_move-IsSound start b command at v)
step-IsSound start b (integrates battle tick at) v =
    (_, refl, integrate_movement-IsSound start b battle tick at v)
step-IsSound start b captures v = (_, refl, capture_state_snapshot-IsSound start b v)
step-IsSound start b (attacks command at) v =
    reaches start (attack b command at) (attack-IsSafe start b command at v)
step-IsSound start b (attacks_with_applied command at) v =
    reaches start (attack_with_applied b command at) (
      with_applied-IsSafe start command (hit_points_of b.monster) (attack b command at)
        (attack-IsSafe start b command at v))
step-IsSound start b (claims command at) v =
    reaches start (claim_loot b command at) (claim_loot-IsSafe start b command at v)
step-IsSound start b (expires_combat battle at) v =
    (_, refl, expire_combat-IsSound start b battle at v)
step-IsSound start b (expires_loot battle at) v = (_, refl, expire_loot-IsSound start b battle at v)

pub run_from-IsSound :
    (start b : BattleInstance) (cs : List Call) → IsSound start b → Reaches start (run b cs)
unfolding run
run_from-IsSound start b [] v = (b, refl, v)
run_from-IsSound start b (c ∷ cs) v =
    let (d, e, w) = step-IsSound start b c v in rw e (run_from-IsSound start d cs w)

-- ===== src/Battle/Instance/Invariant/SafeClaims.antt =====
-- A claim keeps a battle sound and does not end the process.
use loot_of_legends_public.Base.{
  either, ◌≡◌, refl, true, false, not, ◌||◌, ◌&&◌, ◌==◌, ltb, leb, Option, none, some, length,
  arith, inl, inr, Bool-cases, Option-cases, if◌then◌else◌,
}
use loot_of_legends_public.Battle.Time.{BattleTime}
use loot_of_legends_public.Battle.Motion.{refill_claim, spend, rate_token_units}
use loot_of_legends_public.Battle.LootResults.{
  ClaimLootCommand, ClaimLootTerminalResult, ok, not_eligible, invalid_drop, unknown_drop,
  out_of_range, already_claimed, claim_overloaded, catalog_rejected, resolution_closed, inspect,
  is_available, scope_matches, find_record, maximum_results,
}
use loot_of_legends_public.Battle.Drops.{v1_snapshot, unit_value_of, is_listed}
use loot_of_legends_public.Battle.Result.{LootDropState, claimed, unclaimed, available}
use loot_of_legends_public.Battle.Result.Checks.{any_of, is_claimed}
use loot_of_legends_public.Battle.Instance.{
  BattleInstance, ParticipantRecord, LootDropRecord, CombatTerminalRecord, is_committed, has,
  is_open, is_not_ready, participant_record, put_participant, observe_battle_time,
}
use loot_of_legends_public.Battle.Instance.Exit
use loot_of_legends_public.Battle.Instance.Claim.{
  claim_loot, decide_claim, claim_fresh, claim_paid, claim_drop, claim_available, settle, take,
  retain_claim, find_drop, in_claim_range, is_defeat,
}
use loot_of_legends_public.Battle.Instance.Invariant.{IsPlayer, IsSound, IsSafe}
use loot_of_legends_public.Battle.Instance.Invariant.Participants.{find-put}
use loot_of_legends_public.Battle.Instance.Invariant.Commits.{commit_result_if_ready-IsSound}
use loot_of_legends_public.Battle.Instance.Invariant.Inputs.{
  put-IsSound, found-IsPlayer, refill-credit,
}
use loot_of_legends_public.Battle.Instance.Invariant.Ledgers.{take-IsLedger}
use loot_of_legends_public.Battle.Instance.Invariant.Claims.{
  Accepts, retain_claim-IsSafe, commit-Accepts,
}

settle-IsSafe :
    (start b : BattleInstance) (c : ClaimLootCommand) (now : BattleTime)
    → IsSound start b
    → Accepts b c
    → IsSafe start (retain_claim (settle b now) c ok)
unfolding settle
settle-IsSafe start b c now v a =
    elim (Bool-cases (any_of (λ r. Exit.is_available r.state) b.drops)) [
      | inl e ↦ rw (settle, e) (retain_claim-IsSafe start b c ok v a)
      | inr e ↦
          rw (settle, e)
            (retain_claim-IsSafe start _ c ok (commit_result_if_ready-IsSound start _ now v)
              (commit-Accepts _ now c a))
    ]

defeat_lem : (t : Option CombatTerminalRecord) → is_defeat t ≡ true → has t ≡ true
defeat_lem none h = absurd (ground arith)
defeat_lem (some t) h = refl

claim_available-IsSafe :
    (start b : BattleInstance) (p : ParticipantRecord) (r : LootDropRecord) (c : ClaimLootCommand)
    (now : BattleTime)
    → IsSound start b
    → Accepts b c
    → is_defeat b.combat_terminal ≡ true
    → find_drop c.drop_id b.drops ≡ some r
    → is_claimed r.state ≡ false
    → IsSafe start (claim_available b p r c now)
unfolding claim_available
claim_available-IsSafe start b p r c now v a won found free =
    either (IsSafe start) (not (in_claim_range r.drop.position p.pos_x p.pos_y)) _ _
      (retain_claim-IsSafe start b c out_of_range v a)
      (λ _.
        either (IsSafe start)
          (not (is_listed (unit_value_of v1_snapshot r.drop.item_id)) || r.drop.quantity == 0) _ _
          (retain_claim-IsSafe start b c catalog_rejected v a)
          (λ _.
            let (decided, staffed, ledger, players) = v in
            let kept =
              take-IsLedger b.combat_terminal b.drops b.holdings c.drop_id p.session_id r ledger
                (defeat_lem b.combat_terminal won) found free in
            settle-IsSafe start (take b p.session_id r.drop) c now (decided, staffed, kept, players)
              a))

claim_drop-IsSafe :
    (start b : BattleInstance) (p : ParticipantRecord) (r : LootDropRecord) (c : ClaimLootCommand)
    (now : BattleTime) (s : LootDropState)
    → IsSound start b
    → Accepts b c
    → is_defeat b.combat_terminal ≡ true
    → find_drop c.drop_id b.drops ≡ some r
    → r.state ≡ s
    → IsSafe start (claim_drop b p c now r s)
claim_drop-IsSafe start b p r c now claimed v a won found e =
    retain_claim-IsSafe start b c already_claimed v a
claim_drop-IsSafe start b p r c now unclaimed v a won found e =
    retain_claim-IsSafe start b c resolution_closed v a
claim_drop-IsSafe start b p r c now available v a won found e =
    claim_available-IsSafe start b p r c now v a won found (rw e refl)

claim_paid-IsSafe :
    (start b : BattleInstance) (p : ParticipantRecord) (c : ClaimLootCommand) (now : BattleTime)
    → IsSound start b
    → Accepts b c
    → IsSafe start (claim_paid b p c now)
unfolding claim_paid
claim_paid-IsSafe start b p c now v a = elim (Option-cases (find_drop c.drop_id b.drops)) [
  | inl e ↦
      rw (e, claim_paid)
        (guarded (retain_claim b c unknown_drop)
          (λ _. retain_claim-IsSafe start b c unknown_drop v a))
  | inr (r, e) ↦
      rw (e, claim_paid)
        (guarded (claim_drop b p c now r r.state)
          (λ won. claim_drop-IsSafe start b p r c now r.state v a won e refl))
]
  where
    guarded :
        (x : Option (BattleInstance × ClaimLootTerminalResult))
        → (is_defeat b.combat_terminal ≡ true → IsSafe start x)
        → IsSafe start (
            if not p.gameplay_eligible
              || not p.input_enabled && is_not_ready b.result_state
              || not (is_defeat b.combat_terminal)
            then retain_claim b c not_eligible
            else if not (is_open b.loot_resolution)
            then retain_claim b c resolution_closed
            else if c.drop_id == 0
            then retain_claim b c invalid_drop
            else x)
    guarded x h =
        either (IsSafe start)
          (not p.gameplay_eligible
            || not p.input_enabled && is_not_ready b.result_state
            || not (is_defeat b.combat_terminal))
          _ _ (retain_claim-IsSafe start b c not_eligible v a)
          (λ won.
            either (IsSafe start) (not (is_open b.loot_resolution)) _ _
              (retain_claim-IsSafe start b c resolution_closed v a)
              (λ _.
                either (IsSafe start) (c.drop_id == 0) _ _
                  (retain_claim-IsSafe start b c invalid_drop v a) (λ _. h (ground (arith, won)))))

claim_fresh-IsSafe :
    (start b : BattleInstance) (p : ParticipantRecord) (c : ClaimLootCommand) (now : BattleTime)
    → IsSound start b
    → participant_record b c.session_id ≡ some p
    → is_available (inspect p.loot_results c).0 ≡ true
    → IsSafe start (claim_fresh b p c now)
unfolding claim_fresh
claim_fresh-IsSafe start b p c now v found takes =
    let (player, named) = found-IsPlayer start b c.session_id p v found in
    let (arena, (move, strikes, claim), active, scoped) = player in
    let rate = refill_claim p.claim_rate now.battle_elapsed_nanos in
    let bound = refill-credit 4000000000 8 500000000 p.claim_rate now.battle_elapsed_nanos claim in
    let limited : ParticipantRecord = (record p { claim_rate = rate }) in
    let paid : ParticipantRecord = (record p { claim_rate = spend rate }) in
    let filled : IsPlayer b.battle_id limited = (arena, (move, strikes, bound), active, scoped) in
    let less : IsPlayer b.battle_id paid =
      (arena, (move, strikes, omega (arith, bound)), active, scoped) in
    either (IsSafe start) (ltb rate.credit_units rate_token_units) _ _
      (retain_claim-IsSafe start (put_participant b limited) c claim_overloaded
        (put-IsSound start b limited v filled)
        (limited, find-put c.session_id limited p b.participant_records named found, takes))
      (λ _.
        claim_paid-IsSafe start (put_participant b paid) paid c now
          (put-IsSound start b paid v less)
          (paid, find-put c.session_id paid p b.participant_records named found, takes))

decide_claim-IsSafe :
    (start b : BattleInstance) (p : ParticipantRecord) (c : ClaimLootCommand) (now : BattleTime)
    → IsSound start b
    → participant_record b c.session_id ≡ some p
    → scope_matches p.loot_results c ≡ true
    → let (decision, result) = inspect p.loot_results c in
      IsSafe start (decide_claim b p c now decision result)
unfolding inspect observe_battle_time
decide_claim-IsSafe start b p c now v found scoped =
    elim (Option-cases (find_record c.command_id p.loot_results.records)) [
      | inl e ↦ elim (Bool-cases (leb maximum_results (length p.loot_results.records))) [
        | inl f ↦ rw (scoped, e, f) v
        | inr f ↦
            let takes : is_available (inspect p.loot_results c).0 ≡ true =
              rw (inspect, scoped, e, f) refl in
            rw (scoped, e, f)
              (claim_fresh-IsSafe start (observe_battle_time b now) p c now v found takes)
      ]
      | inr (r, e) ↦ elim (Bool-cases (not (r.drop_id == c.drop_id))) [
        | inl f ↦ rw (scoped, e, f) v
        | inr f ↦ rw (scoped, e, f) v
      ]
    ]

-- A claim on a sound battle gives a sound battle.
pub claim_loot-IsSafe :
    (start b : BattleInstance) (c : ClaimLootCommand) (now : BattleTime)
    → IsSound start b
    → IsSafe start (claim_loot b c now)
unfolding claim_loot
claim_loot-IsSafe start b c now v = elim (Option-cases (participant_record b c.session_id)) [
  | inl f ↦
      rw (f, claim_loot)
        (either (IsSafe start) (not (c.battle_id == b.battle_id)) _ _ v
          (λ _. either (IsSafe start) (not (is_committed b.state)) _ _ v (λ _. v)))
  | inr (p, f) ↦
      let ((arena, limited, active, (l, m, n, session, generation, battle, valid)), named) =
        found-IsPlayer start b c.session_id p v f in
      rw (f, claim_loot)
        (either (IsSafe start) (not (c.battle_id == b.battle_id)) _ _ v (λ here.
          either (IsSafe start) (not (is_committed b.state)) _ _ v (λ _.
            either (IsSafe start) (not (p.generation == c.generation)) _ _ v (λ fresh.
              decide_claim-IsSafe start b p c now v f
                (ground (arith, here, fresh, session, generation, battle, named))))))
]

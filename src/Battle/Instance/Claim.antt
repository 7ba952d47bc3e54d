-- ===== src/Battle/Instance/Claim.antt =====
-- A claim of loot: game-server/modules/battle/src/application/LootHandler.cpp. No result is a call
-- of `std::terminate`.
use loot_of_legends_public.Base.{
  ℕ, ◌+◌, ◌*◌, Bool, true, false, not, ◌&&◌, ◌||◌, ltb, leb, ◌==◌, if◌then◌else◌, add64, List, [],
  ◌∷◌, Option, none, some, find_if, ℤ,
}
use loot_of_legends_public.Base.Integers.{◌+ℤ◌, negate, magnitude}
use loot_of_legends_public.Battle.AttackResults.{monster_defeated}
use loot_of_legends_public.Battle.LootResults.{
  ClaimLootCommand, ClaimLootTerminalResult, ClaimLootResultCode, LootResultStore,
  LootResultStoreDecision, ok, not_eligible, stale_session, stale_battle, invalid_drop,
  unknown_drop, out_of_range, already_claimed, claim_overloaded, command_conflict, catalog_rejected,
  resolution_closed, available, replay, conflict, overloaded, reject, inspect, retain,
}
use loot_of_legends_public.Battle.Drops.{
  RelicDrop, DropPosition, unit_value_of, is_listed, v1_snapshot,
}
use loot_of_legends_public.Battle.Time.{BattleTime}
use loot_of_legends_public.Battle.Motion.{refill_claim, rate_token_units, spend}
use loot_of_legends_public.Battle.Result.{LootDropState, LootHoldingProjection, claimed, unclaimed}
use loot_of_legends_public.Battle.Result
use loot_of_legends_public.Battle.Result.Checks.{any_of}
use loot_of_legends_public.Battle.Instance.{
  BattleInstance, ParticipantRecord, LootDropRecord, CombatTerminalRecord, resolved, is_open,
  is_not_ready, is_committed, participant_record, put_participant, observe_battle_time,
}
use loot_of_legends_public.Battle.Instance.Commit.{commit_result_if_ready}
use loot_of_legends_public.Battle.Instance.Exit.{is_available}

abbrev pub claim_range : ℕ
claim_range = 1500

unfoldable pub in_claim_range : DropPosition → ℤ → ℤ → Bool
in_claim_range drop x y =
    let delta_x = magnitude (drop.x_millimeter +ℤ negate x) in
    let delta_y = magnitude (drop.y_millimeter +ℤ negate y) in
    if ltb claim_range delta_x || ltb claim_range delta_y
    then false
    else leb (delta_x * delta_x + delta_y * delta_y) (claim_range * claim_range)

-- The lambda `retain` of `claimLoot`.
abbrev pub store_result :
    BattleInstance
    → ParticipantRecord
    → ClaimLootTerminalResult
    → LootResultStore × Bool
    → Option (BattleInstance × ClaimLootTerminalResult)
store_result b p result (store, false) = none
store_result b p result (store, true) =
    some (put_participant b (record p { loot_results = store }), result)

abbrev pub retain_of :
    BattleInstance
    → ClaimLootCommand
    → ClaimLootResultCode
    → Option ParticipantRecord
    → Option (BattleInstance × ClaimLootTerminalResult)
retain_of b c code none = none
retain_of b c code (some p) =
    store_result b p (reject c code) (retain p.loot_results c (reject c code))

unfoldable pub retain_claim :
    BattleInstance
    → ClaimLootCommand
    → ClaimLootResultCode
    → Option (BattleInstance × ClaimLootTerminalResult)
retain_claim b c code = retain_of b c code (participant_record b c.session_id)

abbrev pub find_drop : ℕ → List LootDropRecord → Option LootDropRecord
find_drop drop_id = find_if (λ r. r.drop.drop_id == drop_id)

-- The change of the first drop of that number.
unfoldable pub take_drop : ℕ → ℕ → List LootDropRecord → List LootDropRecord
take_drop drop_id session [] = []
take_drop drop_id session (r ∷ rs) =
    let rest = take_drop drop_id session rs in
    if r.drop.drop_id == drop_id
    then record r { state = claimed; owner = some session } ∷ rs
    else r ∷ rest

-- The holding of the session and the item grows, or a new one is put last.
unfoldable pub add_holding : ℕ → ℕ → ℕ → List LootHoldingProjection → List LootHoldingProjection
add_holding session item quantity [] =
    record { session_id = session; item_id = item; quantity = quantity } ∷ []
add_holding session item quantity (h ∷ hs) =
    let rest = add_holding session item quantity hs in
    if h.session_id == session && h.item_id == item
    then record h { quantity = add64 h.quantity quantity } ∷ hs
    else h ∷ rest

-- The end of the resolution when no drop is left.
unfoldable pub settle : BattleInstance → BattleTime → BattleInstance
settle b now =
    if any_of (λ r. is_available r.state) b.drops
    then b
    else commit_result_if_ready (record b { loot_resolution = resolved; loot_deadline_tick = none })
        now

abbrev pub take : BattleInstance → ℕ → RelicDrop → BattleInstance
take b session d = record b {
  drops = take_drop d.drop_id session b.drops;
  holdings = add_holding session d.item_id d.quantity b.holdings;
}

-- What a claim of an available drop comes to.
unfoldable pub claim_available :
    BattleInstance
    → ParticipantRecord
    → LootDropRecord
    → ClaimLootCommand
    → BattleTime
    → Option (BattleInstance × ClaimLootTerminalResult)
claim_available b p r c now =
    if not (in_claim_range r.drop.position p.pos_x p.pos_y)
    then retain_claim b c out_of_range
    else if not (is_listed (unit_value_of v1_snapshot r.drop.item_id)) || r.drop.quantity == 0
    then retain_claim b c catalog_rejected
    else retain_claim (settle (take b p.session_id r.drop) now) c ok

abbrev pub claim_drop :
    BattleInstance
    → ParticipantRecord
    → ClaimLootCommand
    → BattleTime
    → LootDropRecord
    → LootDropState
    → Option (BattleInstance × ClaimLootTerminalResult)
claim_drop b p c now r claimed = retain_claim b c already_claimed
claim_drop b p c now r unclaimed = retain_claim b c resolution_closed
claim_drop b p c now r Result.available = claim_available b p r c now

abbrev pub is_defeat : Option CombatTerminalRecord → Bool
is_defeat none = false
is_defeat (some t) = elim t.outcome [ monster_defeated ↦ true | _ ↦ false ]

-- The claim once it is paid for.
unfoldable pub claim_paid :
    BattleInstance
    → ParticipantRecord
    → ClaimLootCommand
    → BattleTime
    → Option (BattleInstance × ClaimLootTerminalResult)
claim_paid b p c now =
    if not p.gameplay_eligible
      || not p.input_enabled && is_not_ready b.result_state
      || not (is_defeat b.combat_terminal)
    then retain_claim b c not_eligible
    else if not (is_open b.loot_resolution)
    then retain_claim b c resolution_closed
    else if c.drop_id == 0
    then retain_claim b c invalid_drop
    else elim (find_drop c.drop_id b.drops) [
      | none ↦ retain_claim b c unknown_drop
      | some r ↦ claim_drop b p c now r r.state
    ]

unfoldable pub claim_fresh :
    BattleInstance
    → ParticipantRecord
    → ClaimLootCommand
    → BattleTime
    → Option (BattleInstance × ClaimLootTerminalResult)
claim_fresh b p c now =
    let rate = refill_claim p.claim_rate now.battle_elapsed_nanos in
    if ltb rate.credit_units rate_token_units
    then retain_claim (put_participant b (record p { claim_rate = rate })) c claim_overloaded
    else let paid : ParticipantRecord = (record p { claim_rate = spend rate }) in
      claim_paid (put_participant b paid) paid c now

abbrev pub decide_claim :
    BattleInstance
    → ParticipantRecord
    → ClaimLootCommand
    → BattleTime
    → LootResultStoreDecision
    → Option ClaimLootTerminalResult
    → Option (BattleInstance × ClaimLootTerminalResult)
decide_claim b p c now replay (some result) = some (b, result)
decide_claim b p c now conflict _ = some (b, reject c command_conflict)
decide_claim b p c now overloaded _ = some (b, reject c claim_overloaded)
decide_claim b p c now available _ = claim_fresh (observe_battle_time b now) p c now
decide_claim b p c now _ _ = none

unfoldable pub claim_loot :
    BattleInstance
    → ClaimLootCommand
    → BattleTime
    → Option (BattleInstance × ClaimLootTerminalResult)
claim_loot b c now =
    if not (c.battle_id == b.battle_id)
    then some (b, reject c stale_battle)
    else if not (is_committed b.state)
    then some (b, reject c not_eligible)
    else elim (participant_record b c.session_id) [
      | none ↦ some (b, reject c not_eligible)
      | some p ↦
          if not (p.generation == c.generation)
          then some (b, reject c stale_session)
          else let (decision, result) = inspect p.loot_results c in
            decide_claim b p c now decision result
    ]

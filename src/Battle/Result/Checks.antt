-- ===== src/Battle/Result/Checks.antt =====
-- The checks of ResultBuilder.cpp on a source, and the build itself.
pub mod Accepts
use loot_of_legends_public.Base.{
  ℕ, zero, suc, ◌+◌, ◌-◌, ◌*◌, ◌/◌, ◌^◌, Bool, true, false, not, ◌&&◌, ◌||◌, ltb, leb, ◌==◌,
  if◌then◌else◌, add64, List, [], ◌∷◌, Option, none, some, length, map,
}
use loot_of_legends_public.Battle.Drops.{RelicItem, unit_value_of, is_listed}
use loot_of_legends_public.Battle.Result.{
  CapturedParticipant, LootDropProjection, LootHoldingProjection, LootDropState, ResultBuildSource,
  ResultBuildStatus, Checked, BattleFinalResult, BattleResultEntry, BattleOutcome,
  ParticipantExitStatus, available, claimed, unclaimed, monster_defeated, combat_timeout,
  cancelled_no_active_participants, invariant_broken, catalog_incomplete, arithmetic_overflow,
  failure, success, terminal_exit_status, terminal_exited, entries_of, sort, by_session,
  rank_entries,
}

abbrev pub every {ℓ} : {A : Type ℓ} → (A → Bool) → List A → Bool
every p [] = true
every p (x ∷ xs) = p x && every p xs

abbrev pub any_of {ℓ} : {A : Type ℓ} → (A → Bool) → List A → Bool
any_of p [] = false
any_of p (x ∷ xs) = p x || any_of p xs

abbrev pub is_empty {ℓ} : {A : Type ℓ} → List A → Bool
is_empty [] = true
is_empty _ = false

abbrev pub owned_by_captured : ℕ → List CapturedParticipant → Bool
owned_by_captured session captured = any_of (λ p. p.session_id == session) captured

-- What the loop of `validResolvedDropLedger` asks of one drop's state and owner.
abbrev pub valid_owner : LootDropState → Option ℕ → List CapturedParticipant → Bool
valid_owner claimed (some owner) captured = owned_by_captured owner captured
valid_owner unclaimed none captured = true
valid_owner _ _ captured = false

abbrev pub valid_drops : List CapturedParticipant → List LootDropProjection → Bool
valid_drops captured [] = true
valid_drops captured (d ∷ ds) =
    not (d.drop_id == 0)
    && d.quantity == 1
    && valid_owner d.state d.owner captured
    && not (any_of (λ other. d.drop_id == other.drop_id) ds)
    && valid_drops captured ds

abbrev pub valid_resolved_drop_ledger : ResultBuildSource → Bool
valid_resolved_drop_ledger s =
    length s.drops == length s.captured && not (is_empty s.drops) && valid_drops s.captured s.drops

abbrev pub valid_holdings : ResultBuildSource → Bool
valid_holdings s =
    every (λ h. owned_by_captured h.session_id s.captured && not (h.quantity == 0)) s.holdings

abbrev pub catalog_complete : ResultBuildSource → List RelicItem → Bool
catalog_complete s catalog =
    every (λ d. is_listed (unit_value_of catalog d.item_id)) s.drops
    && every (λ h. is_listed (unit_value_of catalog h.item_id)) s.holdings

abbrev pub largest : ℕ
largest = 2 ^ 64 - 1

-- The product and the sum that a holding of known unit value adds, both checked.
unfoldable pub add_value : ℕ → ℕ → ℕ → Checked ℕ
add_value unit_value quantity total =
    if unit_value == 0
    then success total
    else if ltb (largest / unit_value) quantity
    then failure arithmetic_overflow
    else if ltb (largest - quantity * unit_value) total
    then failure arithmetic_overflow
    else success (total + quantity * unit_value)

-- The loop over the holdings for one participant.
unfoldable pub asset_total : List RelicItem → ℕ → List LootHoldingProjection → ℕ → Checked ℕ
unfolding add_value
asset_total catalog session [] total = success total
asset_total catalog session (h ∷ hs) total =
    let skipped = asset_total catalog session hs total in
    if not (h.session_id == session) then skipped else elim (unit_value_of catalog h.item_id) [
      | none ↦ failure catalog_incomplete
      | some unit_value ↦ elim (add_value unit_value h.quantity total) [
        | failure status ↦ failure status
        | success sum ↦ asset_total catalog session hs sum
      ]
    ]

unfoldable pub asset_totals :
    List RelicItem → List LootHoldingProjection → List CapturedParticipant → Checked (List ℕ)
unfolding asset_total
asset_totals catalog holdings [] = success []
asset_totals catalog holdings (p ∷ ps) = elim (asset_total catalog p.session_id holdings 0) [
  | failure status ↦ failure status
  | success total ↦ elim (asset_totals catalog holdings ps) [
    | failure status ↦ failure status
    | success totals ↦ success (total ∷ totals)
  ]
]

abbrev pub is_claimed : LootDropState → Bool
is_claimed claimed = true
is_claimed _ = false

abbrev pub same_owner : Option ℕ → ℕ → Bool
same_owner none session = false
same_owner (some owner) session = owner == session

abbrev pub claimed_by : LootHoldingProjection → LootDropProjection → Bool
claimed_by h d = is_claimed d.state && same_owner d.owner h.session_id && d.item_id == h.item_id

-- The quantity claimed of a holding's item by its owner, a 64-bit sum.
unfoldable pub claimed_quantity : LootHoldingProjection → List LootDropProjection → ℕ → ℕ
claimed_quantity h [] sum = sum
claimed_quantity h (d ∷ ds) sum =
    claimed_quantity h ds (if claimed_by h d then add64 sum d.quantity else sum)

abbrev pub backs : LootDropProjection → LootHoldingProjection → Bool
backs d h = same_owner d.owner h.session_id && h.item_id == d.item_id

unfoldable pub holdings_conserved : ResultBuildSource → Bool
unfolding claimed_quantity
holdings_conserved s =
    every (λ h. claimed_quantity h s.drops 0 == h.quantity) s.holdings
    && every (λ d. not (is_claimed d.state) || any_of (backs d) s.holdings) s.drops

abbrev pub valid_captured : List CapturedParticipant → Bool
valid_captured [] = true
valid_captured (p ∷ ps) =
    not (p.session_id == 0)
    && not (any_of (λ other. p.session_id == other.session_id) ps)
    && valid_captured ps

abbrev pub is_exited : ParticipantExitStatus → Bool
is_exited terminal_exited = true
is_exited _ = false

abbrev pub final_result : ResultBuildSource → List BattleResultEntry → BattleFinalResult
final_result s entries = record {
  room_id = s.room_id;
  battle_id = s.battle_id;
  outcome = s.outcome;
  entries = entries;
}

abbrev pub zeros : List CapturedParticipant → List ℕ
zeros ps = map (λ _. 0) ps

unfoldable pub build_timeout : ResultBuildSource → Checked BattleFinalResult
build_timeout s =
    if not (is_empty s.drops) || not (is_empty s.holdings)
    then failure invariant_broken
    else success (
        final_result s
          (sort by_session (entries_of terminal_exit_status s.captured (zeros s.captured))))

abbrev pub finish_cancelled :
    ResultBuildSource → Bool → Checked (List ℕ) → Checked BattleFinalResult
finish_cancelled s has_ledger (failure status) = failure status
finish_cancelled s has_ledger (success totals) =
    if has_ledger && not (holdings_conserved s)
    then failure invariant_broken
    else success
        (final_result s (sort by_session (entries_of (λ _. terminal_exited) s.captured totals)))

unfoldable pub build_cancelled : ResultBuildSource → List RelicItem → Checked BattleFinalResult
build_cancelled s catalog =
    let has_ledger = not (is_empty s.drops) in
    if not (every (λ p. is_exited (terminal_exit_status p.exit_status)) s.captured)
      || not has_ledger && not (is_empty s.holdings)
      || has_ledger && (not (valid_resolved_drop_ledger s) || not (valid_holdings s))
    then failure invariant_broken
    else if has_ledger && not (catalog_complete s catalog)
    then failure catalog_incomplete
    else finish_cancelled s has_ledger (asset_totals catalog s.holdings s.captured)

abbrev pub finish_defeated : ResultBuildSource → Checked (List ℕ) → Checked BattleFinalResult
finish_defeated s (failure status) = failure status
finish_defeated s (success totals) =
    if not (holdings_conserved s)
    then failure invariant_broken
    else success (final_result s (rank_entries (entries_of terminal_exit_status s.captured totals)))

unfoldable pub build_defeated : ResultBuildSource → List RelicItem → Checked BattleFinalResult
build_defeated s catalog =
    if not (valid_resolved_drop_ledger s) || not (valid_holdings s)
    then failure invariant_broken
    else if not (catalog_complete s catalog)
    then failure catalog_incomplete
    else finish_defeated s (asset_totals catalog s.holdings s.captured)

abbrev pub build_outcome :
    BattleOutcome → ResultBuildSource → List RelicItem → Checked BattleFinalResult
build_outcome combat_timeout s catalog = build_timeout s
build_outcome cancelled_no_active_participants s catalog = build_cancelled s catalog
build_outcome monster_defeated s catalog = build_defeated s catalog

-- The test for an outcome of none of the three values has no counterpart: there is no other.
unfoldable pub build_final_result : ResultBuildSource → List RelicItem → Checked BattleFinalResult
unfolding build_timeout build_cancelled build_defeated holdings_conserved asset_totals rank_entries
    sort entries_of terminal_exit_status
build_final_result s catalog =
    if s.room_id == 0
      || s.battle_id == 0
      || ltb (length s.captured) 2
      || ltb 10 (length s.captured)
      || not (valid_captured s.captured)
    then failure invariant_broken
    else build_outcome s.outcome s catalog

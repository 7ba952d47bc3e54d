-- ===== src/Battle/Instance/Invariant.antt =====
-- What holds of a battle between two calls, in terms of the battle `start` from which the calls
-- began: what is decided in `start` stays as it is.
pub mod Participants
pub mod Commits
pub mod Ledgers
pub mod Loads
pub mod Exits
pub mod Inputs
pub mod Attacks
pub mod SafeBlows
pub mod SafeAttacks
pub mod Claims
pub mod SafeClaims
pub mod Run
pub mod History
use loot_of_legends_public.Base.{
  ℕ, ◌+◌, ◌*◌, ◌≤◌, ◌<◌, ◌≡◌, ◌≢◌, ◌⊎◌, Bool, true, false, not, ◌&&◌, ◌||◌, ◌==◌, if◌then◌else◌,
  List, [], ◌∷◌, Option, none, some, length, All, ℤ, inl, inr,
}
use loot_of_legends_public.Base.Integers.{magnitude}
use loot_of_legends_public.Battle.AttackResults.{AttackResultStore}
use loot_of_legends_public.Battle.AttackResults.Invariant
use loot_of_legends_public.Battle.LootResults.{LootResultStore}
use loot_of_legends_public.Battle.Result.{
  ParticipantExitStatus, terminal_present, LootDropState, LootHoldingProjection, claimed, available,
  unclaimed, CapturedParticipant,
}
use loot_of_legends_public.Battle.Result
use loot_of_legends_public.Battle.Result.Checks.{same_owner, is_claimed, any_of}
use loot_of_legends_public.Battle.Instance.{
  BattleInstance, ParticipantRecord, LootDropRecord, BattleLoadState, BattleResultState,
  CombatTerminalRecord, is_not_ready, is_committed, has, committed,
}

abbrev pub is_present : ParticipantExitStatus → Bool
is_present Result.gameplay_eligible = true
is_present terminal_present = true
is_present _ = false

-- In the arena, and no faster than 250 mm a tick.
abbrev pub IsInArena : ParticipantRecord → Type 0
IsInArena p =
    (magnitude p.pos_x ≤ 10000)
    × (magnitude p.pos_y ≤ 10000)
    × (magnitude p.tick_delta_x * magnitude p.tick_delta_x
          + magnitude p.tick_delta_y * magnitude p.tick_delta_y
        ≤ 62500)

-- Each token bucket holds its capacity at most.
abbrev pub IsLimited : ParticipantRecord → Type 0
IsLimited p =
    (p.move_rate.credit_units ≤ 6000000000)
    × (p.attack_rate.credit_units ≤ 4000000000)
    × (p.claim_rate.credit_units ≤ 4000000000)

-- Only who is eligible has input, and who is eligible has not left.
abbrev pub IsActive : ParticipantRecord → Type 0
IsActive p =
    ((not p.input_enabled || p.gameplay_eligible) ≡ true)
    × (p.gameplay_eligible ≡ is_present p.exit_status)

-- The two stores are those of the participant in this battle.
abbrev pub IsScoped : ℕ → ParticipantRecord → Type 0
IsScoped battle p =
    (p.attack_results.session_id ≡ p.session_id)
    × (p.attack_results.generation ≡ p.generation)
    × (p.attack_results.battle_id ≡ battle)
    × (p.loot_results.session_id ≡ p.session_id)
    × (p.loot_results.generation ≡ p.generation)
    × (p.loot_results.battle_id ≡ battle)
    × Invariant.IsValid p.attack_results

-- What holds of a participant of the battle of that number.
abbrev pub IsPlayer : ℕ → ParticipantRecord → Type 0
IsPlayer battle p = IsInArena p × IsLimited p × IsActive p × IsScoped battle p

abbrev pub is_owned : LootDropState → Option ℕ → Bool
is_owned claimed (some _) = true
is_owned available none = true
is_owned unclaimed none = true
is_owned _ _ = false

-- A drop is a single item, with an owner exactly when it is claimed.
abbrev pub IsDrop : LootDropRecord → Type 0
IsDrop r = (r.drop.quantity ≡ 1) × (is_owned r.state r.owner ≡ true)

abbrev pub IsDistinct : List LootDropRecord → Type 0
IsDistinct [] = Unit {0}
IsDistinct (r ∷ rs) =
    (any_of (λ other. r.drop.drop_id == other.drop.drop_id) rs ≡ false) × IsDistinct rs

-- How much of an item a session holds, and how much of it its claimed drops come to.
abbrev pub held : ℕ → ℕ → List LootHoldingProjection → ℕ
held session item [] = 0
held session item (h ∷ hs) =
    (if h.session_id == session && h.item_id == item then h.quantity else 0) + held session item hs

abbrev pub taken : ℕ → ℕ → List LootDropRecord → ℕ
taken session item [] = 0
taken session item (r ∷ rs) =
    (if is_claimed r.state && same_owner r.owner session && r.drop.item_id == item
      then r.drop.quantity
      else 0)
    + taken session item rs

-- The loot: none before the battle is won, and what is held is what was claimed.
pub record IsLedger (terminal : Option CombatTerminalRecord) (drops : List LootDropRecord)
    (holdings : List LootHoldingProjection) : Type 0 where
  pub begins : (has terminal ≡ true) ⊎ ((drops ≡ []) × (holdings ≡ []))
  pub each : All IsDrop drops
  pub distinct : IsDistinct drops
  pub few : length drops ≤ 10
  pub conserved : (session item : ℕ) → held session item holdings ≡ taken session item drops

-- There is a result exactly when one is committed.
abbrev pub is_result_committed : BattleResultState → Bool
is_result_committed committed = true
is_result_committed _ = false

-- What was decided stays.
abbrev pub Stays {ℓ} : {A : Type ℓ} → Option A → Option A → Type ℓ
Stays none after = Unit
Stays (some x) after = after ≡ some x

abbrev pub IsStaffed : BattleInstance → Type 0
IsStaffed b =
    (b.seed ≢ 0)
    × (length b.candidates ≤ 10)
    × ((is_committed b.state ≡ false)
        ⊎ ((2 ≤ length b.captured_participants) × (length b.captured_participants ≤ 10)))

-- The result of `start`, once it is decided.
abbrev pub IsFinal : BattleInstance → BattleInstance → Type 0
IsFinal start b =
    (is_not_ready start.result_state ≡ true)
    ⊎ ((b.result_state ≡ start.result_state) × (b.committed_result ≡ start.committed_result))

-- What is decided in `start` is as it was, and there is a result exactly when one is committed.
abbrev pub IsDecided : BattleInstance → BattleInstance → Type 0
IsDecided start b =
    (has b.committed_result ≡ is_result_committed b.result_state)
    × IsFinal start b
    × Stays start.combat_terminal b.combat_terminal
    × Stays start.battle_terminal_outcome b.battle_terminal_outcome

abbrev pub IsSound : BattleInstance → BattleInstance → Type 0
IsSound start b =
    IsDecided start b
    × IsStaffed b
    × IsLedger b.combat_terminal b.drops b.holdings
    × All (IsPlayer b.battle_id) b.participant_records

-- A call that may end the process does not, and gives a sound battle.
abbrev pub IsSafe {ℓ} : {R : Type ℓ} → BattleInstance → Option (BattleInstance × R) → Type 0
IsSafe start none = ⊥
IsSafe start (some (b, _)) = IsSound start b

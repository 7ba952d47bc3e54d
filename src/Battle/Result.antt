-- ===== src/Battle/Result.antt =====
-- The final result of a battle: game-server/modules/battle/src/application/ResultBuilder.cpp, with
-- BattleResult.hpp, BattleProjections.hpp and the projections of LootApi.hpp. A nickname is the
-- list of its bytes.
pub mod Checks
pub mod Ranking
use loot_of_legends_public.Base.{
  ℕ, zero, suc, ◌+◌, ◌-◌, ◌*◌, ◌/◌, ◌^◌, Bool, true, false, not, ◌&&◌, ◌||◌, ltb, leb, ◌==◌,
  if◌then◌else◌, List, [], ◌∷◌, Option, none, some, length, map,
}
use loot_of_legends_public.Battle.Drops.{DropPosition}

pub data ParticipantExitStatus : Type 0 where
  gameplay_eligible voluntary_left disconnected : ParticipantExitStatus
  terminal_present terminal_exited : ParticipantExitStatus

pub record CapturedParticipant : Type 0 where
  pub account_id : ℕ
  pub session_id : ℕ
  pub generation : ℕ
  pub nickname : List ℕ
  pub exit_status : ParticipantExitStatus

pub data LootDropState : Type 0 where
  available claimed unclaimed : LootDropState

pub record LootDropProjection : Type 0 where
  pub drop_id : ℕ
  pub item_id : ℕ
  pub quantity : ℕ
  pub position : DropPosition
  pub state : LootDropState
  pub owner : Option ℕ

pub record LootHoldingProjection : Type 0 where
  pub session_id : ℕ
  pub item_id : ℕ
  pub quantity : ℕ

pub data BattleOutcome : Type 0 where
  monster_defeated combat_timeout cancelled_no_active_participants : BattleOutcome

pub record BattleResultEntry : Type 0 where
  pub session_id : ℕ
  pub nickname : List ℕ
  pub exit_status : ParticipantExitStatus
  pub final_asset_value : ℕ
  pub rank : Option ℕ
  pub is_top : Bool

pub record BattleFinalResult : Type 0 where
  pub room_id : ℕ
  pub battle_id : ℕ
  pub outcome : BattleOutcome
  pub entries : List BattleResultEntry

pub data ResultBuildStatus : Type 0 where
  built invariant_broken catalog_incomplete arithmetic_overflow : ResultBuildStatus

pub record ResultBuildSource : Type 0 where
  pub room_id : ℕ
  pub battle_id : ℕ
  pub outcome : BattleOutcome
  pub captured : List CapturedParticipant
  pub drops : List LootDropProjection
  pub holdings : List LootHoldingProjection

-- `ResultBuildOutcome`, or a step of the build: a status other than `built`, or what was built.
pub data Checked {ℓ} (A : Type ℓ) : Type ℓ where
  failure : ResultBuildStatus → Checked A
  success : A → Checked A

unfoldable pub terminal_exit_status : ParticipantExitStatus → ParticipantExitStatus
terminal_exit_status gameplay_eligible = terminal_present
terminal_exit_status voluntary_left = terminal_exited
terminal_exit_status disconnected = terminal_exited
terminal_exit_status terminal_present = terminal_present
terminal_exit_status terminal_exited = terminal_exited

abbrev pub entry_of :
    (ParticipantExitStatus → ParticipantExitStatus) → CapturedParticipant → ℕ → BattleResultEntry
entry_of terminal p total = record {
  session_id = p.session_id;
  nickname = p.nickname;
  exit_status = terminal p.exit_status;
  final_asset_value = total;
  rank = none;
  is_top = false;
}

-- The entries in captured order, with the totals of that order.
unfoldable pub entries_of :
    (ParticipantExitStatus → ParticipantExitStatus)
    → List CapturedParticipant
    → List ℕ
    → List BattleResultEntry
entries_of terminal (p ∷ ps) (t ∷ ts) = entry_of terminal p t ∷ entries_of terminal ps ts
entries_of terminal _ _ = []

-- `std::sort` by a comparison.
unfoldable pub insert :
    (BattleResultEntry → BattleResultEntry → Bool)
    → BattleResultEntry
    → List BattleResultEntry
    → List BattleResultEntry
insert before e [] = e ∷ []
insert before e (x ∷ xs) =
    let rest = insert before e xs in if before x e then x ∷ rest else e ∷ x ∷ xs

unfoldable pub sort :
    (BattleResultEntry → BattleResultEntry → Bool) → List BattleResultEntry → List BattleResultEntry
unfolding insert
sort before [] = []
sort before (x ∷ xs) = insert before x (sort before xs)

abbrev pub by_session : BattleResultEntry → BattleResultEntry → Bool
by_session a b = ltb a.session_id b.session_id

abbrev pub by_value : BattleResultEntry → BattleResultEntry → Bool
by_value a b =
    if not (a.final_asset_value == b.final_asset_value)
    then ltb b.final_asset_value a.final_asset_value
    else ltb a.session_id b.session_id

abbrev pub ranked : BattleResultEntry → ℕ → BattleResultEntry
ranked e rank = record e { rank = some rank; is_top = rank == 1 }

abbrev pub next_rank : Option ℕ → ℕ → ℕ → ℕ → ℕ
next_rank none value rank index = index + 1
next_rank (some before) value rank index = if not (value == before) then index + 1 else rank

-- The loop that ranks, from `index` on: `before` is the value of the entry before, if there is one.
unfoldable pub rank_from : Option ℕ → ℕ → ℕ → List BattleResultEntry → List BattleResultEntry
rank_from before rank index [] = []
rank_from before rank index (e ∷ es) =
    let now = next_rank before e.final_asset_value rank index in
    ranked e now ∷ rank_from (some e.final_asset_value) now (index + 1) es

-- Competition ranking: descending value, and among equals ascending session number.
unfoldable pub rank_entries : List BattleResultEntry → List BattleResultEntry
unfolding rank_from sort
rank_entries entries = rank_from none 0 0 (sort by_value entries)

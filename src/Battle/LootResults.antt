-- ===== src/Battle/LootResults.antt =====
-- The store of claim results and what remains of it after a battle:
-- game-server/modules/battle/src/application/LootResultStore.cpp, with LootResultStore.hpp.
-- An identifier is the number that its bytes spell. `Record` and `LootResultRecordState` have the
-- same fields and are one type here.
pub mod Retained
use loot_of_legends_public.Base.{
  ℕ, ◌-◌, ◌+◌, ◌^◌, Bool, true, false, not, ◌&&◌, ◌||◌, ltb, leb, ◌==◌, if◌then◌else◌, List, [],
  ◌∷◌, ◌++◌, Option, none, some, length, find_if, ℤ, pos, negsuc,
}

pub data ClaimLootResultCode : Type 0 where
  ok not_eligible stale_session stale_battle invalid_drop unknown_drop : ClaimLootResultCode
  out_of_range already_claimed claim_overloaded command_conflict : ClaimLootResultCode
  catalog_rejected resolution_closed : ClaimLootResultCode

pub record ClaimLootCommand : Type 0 where
  pub command_id : ℕ
  pub session_id : ℕ
  pub generation : ℕ
  pub battle_id : ℕ
  pub drop_id : ℕ

pub record ClaimLootTerminalResult : Type 0 where
  pub command_id : ℕ
  pub battle_id : ℕ
  pub drop_id : ℕ
  pub code : ClaimLootResultCode

pub record Record : Type 0 where
  pub command_id : ℕ
  pub drop_id : ℕ
  pub result : ClaimLootTerminalResult

pub record LootResultStore : Type 0 where
  pub session_id : ℕ
  pub generation : ℕ
  pub battle_id : ℕ
  pub records : List Record
  pub battle_completed_at : Option ℕ

pub record LootResultStoreState : Type 0 where
  pub battle_completed_at : Option ℕ
  pub records : List Record

pub data LootResultStoreDecision : Type 0 where
  available replay conflict overloaded scope_mismatch : LootResultStoreDecision

abbrev pub maximum_results : ℕ
maximum_results = 256

-- 30 s in nanoseconds.
abbrev pub retention : ℕ
retention = 30000000000

unfoldable pub reject : ClaimLootCommand → ClaimLootResultCode → ClaimLootTerminalResult
reject c code = record {
  command_id = c.command_id;
  battle_id = c.battle_id;
  drop_id = c.drop_id;
  code = code;
}

-- A steady clock's time point is a signed 64-bit count of nanoseconds.
abbrev pub clock_nanos : ℤ → ℕ
clock_nanos (pos count) = count
clock_nanos (negsuc _) = 0

unfoldable pub new_store : ℕ → ℕ → ℕ → LootResultStore
new_store session generation battle = record {
  session_id = session;
  generation = generation;
  battle_id = battle;
  records = [];
  battle_completed_at = none;
}

abbrev pub scope_matches : LootResultStore → ClaimLootCommand → Bool
scope_matches s c =
    c.session_id == s.session_id && c.generation == s.generation && c.battle_id == s.battle_id

abbrev pub find_record : ℕ → List Record → Option Record
find_record id = find_if (λ r. r.command_id == id)

abbrev pub inspect_record :
    LootResultStore
    → ClaimLootCommand
    → Option Record
    → LootResultStoreDecision × Option ClaimLootTerminalResult
inspect_record s c (some found) =
    if not (found.drop_id == c.drop_id) then (conflict, none) else (replay, some found.result)
inspect_record s c none =
    if leb maximum_results (length s.records) then (overloaded, none) else (available, none)

unfoldable pub inspect :
    LootResultStore → ClaimLootCommand → LootResultStoreDecision × Option ClaimLootTerminalResult
inspect s c =
    if not (scope_matches s c)
    then (scope_mismatch, none)
    else inspect_record s c (find_record c.command_id s.records)

abbrev pub is_available : LootResultStoreDecision → Bool
is_available available = true
is_available _ = false

unfoldable pub retain :
    LootResultStore → ClaimLootCommand → ClaimLootTerminalResult → LootResultStore × Bool
retain s c result =
    if not (is_available (inspect s c).0)
      || not (result.command_id == c.command_id)
      || not (result.battle_id == c.battle_id)
      || not (result.drop_id == c.drop_id)
    then (s, false)
    else (
      record s {
        records =
            s.records
            ++ record { command_id = c.command_id; drop_id = c.drop_id; result = result } ∷ [];
      },
      true,
    )

abbrev pub first_of : Option ℕ → ℕ → Option ℕ
first_of none at = some at
first_of (some before) at = some before

unfoldable pub mark_battle_completed : LootResultStore → ℕ → LootResultStore
mark_battle_completed s at = record s { battle_completed_at = first_of s.battle_completed_at at }

abbrev pub mark_battle_completed_at : LootResultStore → ℤ → LootResultStore
mark_battle_completed_at s completed_at = mark_battle_completed s (clock_nanos completed_at)

-- The battle was completed at least the retention ago.
abbrev pub is_over : Option ℕ → ℕ → Bool
is_over none now = false
is_over (some at) now = not (ltb now at || ltb (now - at) retention)

unfoldable pub evict_expired : LootResultStore → ℕ → LootResultStore × ℕ
evict_expired s now =
    if not (is_over s.battle_completed_at now)
    then (s, 0)
    else (record s { records = [] }, length s.records)

abbrev pub evict_expired_at : LootResultStore → ℤ → LootResultStore × ℕ
evict_expired_at s now = evict_expired s (clock_nanos now)

abbrev pub export_state : LootResultStore → LootResultStoreState
export_state s = record { battle_completed_at = s.battle_completed_at; records = s.records }

abbrev pub is_found : Option Record → Bool
is_found none = false
is_found (some _) = true

-- The loop of `importState`, with the records taken over so far.
unfoldable pub import_records : ℕ → List Record → List Record → Option (List Record)
import_records battle records [] = some records
import_records battle records (e ∷ es) =
    let rest = import_records battle (records ++ e ∷ []) es in
    if not (e.result.command_id == e.command_id)
      || not (e.result.battle_id == battle)
      || not (e.result.drop_id == e.drop_id)
      || is_found (find_record e.command_id records)
    then none
    else rest

unfoldable pub import_state : LootResultStore → LootResultStoreState → LootResultStore × Bool
unfolding import_records
import_state s state =
    if ltb maximum_results (length state.records)
    then (s, false)
    else elim (import_records s.battle_id [] state.records) [
      | none ↦ (s, false)
      | some records ↦
          (record s { records = records; battle_completed_at = state.battle_completed_at }, true)
    ]

abbrev pub size : LootResultStore → ℕ
size s = length s.records

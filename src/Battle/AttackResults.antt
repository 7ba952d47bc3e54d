-- ===== src/Battle/AttackResults.antt =====
-- The store of attack results, which makes a repeated attack command harmless:
-- game-server/modules/battle/src/application/AttackResultStore.cpp, with CombatResultStore.hpp.
-- An identifier is the number that its bytes spell. `Record` and `AttackResultRecordState` have the
-- same fields and are one type here.
pub mod Invariant
pub mod Import
pub mod Run
pub mod Replay
use loot_of_legends_public.Base.{
  ℕ, ◌-◌, Bool, true, false, not, ◌&&◌, ◌||◌, ltb, leb, ◌==◌, if◌then◌else◌, List, [], ◌∷◌, ◌++◌,
  Option, none, some, length, find_if, ℤ, pos, negsuc,
}

pub data AttackResultCode : Type 0 where
  ok not_eligible stale_session stale_battle invalid_target out_of_range : AttackResultCode
  cooldown attack_overloaded command_conflict terminal_already_decided : AttackResultCode

pub data CombatOutcome : Type 0 where
  no_outcome monster_defeated combat_timeout : CombatOutcome

pub record AttackCommand : Type 0 where
  pub command_id : ℕ
  pub session_id : ℕ
  pub generation : ℕ
  pub battle_id : ℕ
  pub target_hint : ℕ

pub record AttackTerminalResult : Type 0 where
  pub command_id : ℕ
  pub battle_id : ℕ
  pub code : AttackResultCode
  pub monster_id : ℕ
  pub remaining_hit_points : ℕ
  pub ruleset_version : ℕ
  pub outcome : CombatOutcome

pub record Record : Type 0 where
  pub command_id : ℕ
  pub target_hint : ℕ
  pub result : AttackTerminalResult

pub record AttackResultStore : Type 0 where
  pub session_id : ℕ
  pub generation : ℕ
  pub battle_id : ℕ
  pub records : List Record
  pub battle_completed_at : Option ℕ

pub record AttackResultStoreState : Type 0 where
  pub battle_completed_at : Option ℕ
  pub records : List Record

pub data AttackResultStoreDecision : Type 0 where
  available replay conflict overloaded scope_mismatch : AttackResultStoreDecision

abbrev pub maximum_results : ℕ
maximum_results = 256

-- 30 s in nanoseconds.
abbrev pub retention : ℕ
retention = 30000000000

unfoldable pub new_store : ℕ → ℕ → ℕ → AttackResultStore
new_store session generation battle = record {
  session_id = session;
  generation = generation;
  battle_id = battle;
  records = [];
  battle_completed_at = none;
}

abbrev pub scope_matches : AttackResultStore → AttackCommand → Bool
scope_matches s c =
    c.session_id == s.session_id && c.generation == s.generation && c.battle_id == s.battle_id

abbrev pub find_record : ℕ → List Record → Option Record
find_record id = find_if (λ r. r.command_id == id)

abbrev pub inspect_record :
    AttackResultStore
    → AttackCommand
    → Option Record
    → AttackResultStoreDecision × Option AttackTerminalResult
inspect_record s c (some found) =
    if not (found.target_hint == c.target_hint)
    then (conflict, none)
    else (replay, some found.result)
inspect_record s c none =
    if leb maximum_results (length s.records) then (overloaded, none) else (available, none)

unfoldable pub inspect :
    AttackResultStore → AttackCommand → AttackResultStoreDecision × Option AttackTerminalResult
inspect s c =
    if not (scope_matches s c)
    then (scope_mismatch, none)
    else inspect_record s c (find_record c.command_id s.records)

abbrev pub is_available : AttackResultStoreDecision → Bool
is_available available = true
is_available _ = false

unfoldable pub retain :
    AttackResultStore → AttackCommand → AttackTerminalResult → AttackResultStore × Bool
retain s c result =
    if not (is_available (inspect s c).0)
      || not (result.command_id == c.command_id)
      || not (result.battle_id == c.battle_id)
    then (s, false)
    else (
      record s {
        records =
            s.records
            ++ record { command_id = c.command_id; target_hint = c.target_hint; result = result }
              ∷ [];
      },
      true,
    )

abbrev pub first_of : Option ℕ → ℕ → Option ℕ
first_of none at = some at
first_of (some before) at = some before

unfoldable pub mark_battle_completed : AttackResultStore → ℕ → AttackResultStore
mark_battle_completed s at = record s { battle_completed_at = first_of s.battle_completed_at at }

-- The battle was completed at least the retention ago.
abbrev pub is_over : Option ℕ → ℕ → Bool
is_over none now = false
is_over (some at) now = not (ltb now at || ltb (now - at) retention)

unfoldable pub evict_expired : AttackResultStore → ℕ → AttackResultStore × ℕ
evict_expired s now =
    if not (is_over s.battle_completed_at now)
    then (s, 0)
    else (record s { records = [] }, length s.records)

abbrev pub export_state : AttackResultStore → AttackResultStoreState
export_state s = record { battle_completed_at = s.battle_completed_at; records = s.records }

abbrev pub is_found : Option Record → Bool
is_found none = false
is_found (some _) = true

-- The loop of `importState`, with the records taken over so far.
unfoldable pub import_records : ℕ → List Record → List Record → Option (List Record)
import_records battle records [] = some records
import_records battle records (e ∷ es) =
    let rest = import_records battle (records ++ e ∷ []) es in
    if not (e.result.command_id == e.command_id)
      || not (e.result.battle_id == battle)
      || is_found (find_record e.command_id records)
    then none
    else rest

unfoldable pub import_state : AttackResultStore → AttackResultStoreState → AttackResultStore × Bool
unfolding import_records
import_state s state =
    if ltb maximum_results (length state.records)
    then (s, false)
    else elim (import_records s.battle_id [] state.records) [
      | none ↦ (s, false)
      | some records ↦
          (record s { records = records; battle_completed_at = state.battle_completed_at }, true)
    ]

-- `compatibilityNanos` of a steady clock's time point, a signed 64-bit count of nanoseconds.
abbrev pub compatibility_nanos : ℤ → ℕ
compatibility_nanos (pos count) = count
compatibility_nanos (negsuc _) = 0

abbrev pub mark_battle_completed_at : AttackResultStore → ℤ → AttackResultStore
mark_battle_completed_at s completed_at = mark_battle_completed s (compatibility_nanos completed_at)

abbrev pub evict_expired_at : AttackResultStore → ℤ → AttackResultStore × ℕ
evict_expired_at s now = evict_expired s (compatibility_nanos now)

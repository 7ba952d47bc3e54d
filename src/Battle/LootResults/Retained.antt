-- ===== src/Battle/LootResults/Retained.antt =====
-- `RetainedLootResults` of LootResultStore.cpp, which answers for a battle that is gone.
-- The store of the moment of the legacy clock is state: the code keeps it in a mutable field.
use loot_of_legends_public.Base.{
  ℕ, ◌-◌, ◌+◌, ◌^◌, Bool, false, not, ◌&&◌, ◌||◌, ltb, leb, ◌==◌, if◌then◌else◌, List, [], ◌∷◌,
  Option, none, some, ℤ,
}
use loot_of_legends_public.Battle.LootResults.{
  ClaimLootCommand, ClaimLootTerminalResult, LootResultStore, LootResultStoreDecision, replay,
  conflict, scope_mismatch, stale_battle, command_conflict, retention, reject, inspect, clock_nanos,
  first_of,
}

pub record RetainedLootResults : Type 0 where
  pub battle_id : ℕ
  pub completed_at_nanos : ℕ
  pub compatibility_completed_at_nanos : Option ℕ
  pub stores : List LootResultStore

unfoldable pub expired : RetainedLootResults → ℕ → Bool
expired r now = leb r.completed_at_nanos now && leb retention (now - r.completed_at_nanos)

-- What the loop over the stores does with an inspection; `rest` is the rest of the loop.
abbrev pub route_decision :
    ClaimLootCommand
    → LootResultStoreDecision × Option ClaimLootTerminalResult
    → ClaimLootTerminalResult
    → ClaimLootTerminalResult
route_decision c (scope_mismatch, _) rest = rest
route_decision c (replay, some result) rest = result
route_decision c (conflict, _) rest = reject c command_conflict
route_decision c (_, _) rest = reject c stale_battle

unfoldable pub route_stores : ClaimLootCommand → List LootResultStore → ClaimLootTerminalResult
route_stores c [] = reject c stale_battle
route_stores c (s ∷ rest) =
    let others = route_stores c rest in route_decision c (inspect s c) others

unfoldable pub route : RetainedLootResults → ClaimLootCommand → ℕ → ClaimLootTerminalResult
unfolding route_stores
route r c now =
    if not (c.battle_id == r.battle_id) || expired r now
    then reject c stale_battle
    else route_stores c r.stores

-- The battle's nanoseconds of a moment of the legacy clock, once its first moment is `first`.
abbrev pub relative : RetainedLootResults → ℕ → ℕ → ℕ
relative r first now =
    let elapsed = now - first in
    if ltb (2 ^ 64 - 1 - elapsed) r.completed_at_nanos
    then 2 ^ 64 - 1
    else r.completed_at_nanos + elapsed

abbrev pub value_or_zero : Option ℕ → ℕ
value_or_zero none = 0
value_or_zero (some n) = n

abbrev pub observe_clock : RetainedLootResults → ℤ → RetainedLootResults
observe_clock r now = record r {
  compatibility_completed_at_nanos = first_of r.compatibility_completed_at_nanos (clock_nanos now);
}

unfoldable pub expired_at : RetainedLootResults → ℤ → RetainedLootResults × Bool
expired_at r now =
    let q = observe_clock r now in
    let first = value_or_zero q.compatibility_completed_at_nanos in
    if leb (clock_nanos now) first
    then (q, false)
    else (q, expired q (relative q first (clock_nanos now)))

unfoldable pub route_at :
    RetainedLootResults → ClaimLootCommand → ℤ → RetainedLootResults × ClaimLootTerminalResult
route_at r c now =
    let q = observe_clock r now in
    let first = value_or_zero q.compatibility_completed_at_nanos in
    if leb (clock_nanos now) first
    then (q, route q c q.completed_at_nanos)
    else (q, route q c (relative q first (clock_nanos now)))

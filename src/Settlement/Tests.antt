-- ===== src/Settlement/Tests.antt =====
-- Runs of the capacity gate on small inputs.
use loot_of_legends_public.Base.{◌≡◌, ◌↔◌, true, false, not, ◌&&◌, ◌||◌, List, [], ◌∷◌, arith}
use loot_of_legends_public.Settlement.Capacity.{
  OutboxBacklogSnapshot, SettlementCapacityState, reserved, initial_state, at_high_watermark,
  below_every_low_watermark, update_backlog, try_reserve,
}
use loot_of_legends_public.Settlement.Capacity.Admission.{
  HasRoom, try_reserve_exactly, update_backlog_hysteresis,
}
use loot_of_legends_public.Settlement.Capacity.System.{
  Action, updates, reserves, releases, move_constructs, move_assigns, act_all,
}
use loot_of_legends_public.Settlement.Capacity.Balance.{IsBalanced, act_all-IsBalanced}

abbrev backlog : OutboxBacklogSnapshot
backlog = record {
  unretired_records = 4500;
  unretired_bytes = 9000;
  oldest_pending_age = 20;
  storage_healthy = true;
}

abbrev gate : SettlementCapacityState
gate = record {
  backlog = backlog;
  reserved_batches = 2;
  reserved_records = 22;
  reserved_bytes = 4756;
  high_watermark_blocked = false;
  initialized = true;
}

try_reserve_exactly_example : ((try_reserve gate).1 ≡ reserved) ↔ HasRoom gate
try_reserve_exactly_example = try_reserve_exactly gate (omega arith) (omega arith)

update_backlog_hysteresis_example : (update_backlog gate backlog).high_watermark_blocked ≡ (
    not true
    || at_high_watermark backlog
    || (true && false && not (below_every_low_watermark backlog)))
update_backlog_hysteresis_example = update_backlog_hysteresis gate backlog

abbrev actions : List Action
actions =
    updates backlog ∷ reserves ∷ reserves ∷ move_constructs 0 ∷ move_assigns 1 2 ∷ releases 1 ∷ []

act_all-IsBalanced_example :
    IsBalanced (act_all (record { gate = initial_state; handles = [] }) actions)
act_all-IsBalanced_example = act_all-IsBalanced actions

-- ===== src/Battle/Tests.antt =====
-- Runs of the store of attack results and of the drops on small inputs.
use loot_of_legends_public.Base.{
  ◌≡◌, refl, true, ◌==◌, if◌then◌else◌, [], ◌∷◌, none, some, List, arith,
}
use loot_of_legends_public.Battle.AttackResults.{
  AttackCommand, AttackTerminalResult, AttackResultStore, ok, no_outcome, new_store, inspect,
  retain, replay, conflict, export_state, import_state,
}
use loot_of_legends_public.Battle.AttackResults.Invariant.{IsValid}
use loot_of_legends_public.Battle.AttackResults.Import.{import_state-export_state}
use loot_of_legends_public.Battle.AttackResults.Run.{
  Call, retains, completes, evicts, run, run-new_store-IsValid,
}
use loot_of_legends_public.Base.{length}
use loot_of_legends_public.Battle.Drops.{RelicDrop, derive_battle_seed, generate_drops, v1_snapshot}
use loot_of_legends_public.Battle.Drops.Table.{IsTable, generate_drops-IsTable}
use loot_of_legends_public.Battle.AttackResults.Replay.{retain_replays}

abbrev command : AttackCommand
command = record { command_id = 5; session_id = 1; generation = 2; battle_id = 3; target_hint = 40 }

abbrev result : AttackTerminalResult
result = record {
  command_id = 5;
  battle_id = 3;
  code = ok;
  monster_id = 40;
  remaining_hit_points = 12;
  ruleset_version = 1;
  outcome = no_outcome;
}

abbrev calls : List Call
calls = retains command result ∷ retains command result ∷ completes 100 ∷ evicts 200 ∷ []

run-new_store-IsValid_example : IsValid (run (new_store 1 2 3) calls)
run-new_store-IsValid_example = run-new_store-IsValid 1 2 3 calls

accepted : (retain (new_store 1 2 3) command result).1 ≡ true
unfolding retain inspect new_store
accepted = refl

retain_replays_example :
    inspect (run (retain (new_store 1 2 3) command result).0 (completes 100 ∷ [])) command
    ≡ (if 40 == 40 then (replay, some result) else (conflict, none))
unfolding new_store
retain_replays_example =
    retain_replays (new_store 1 2 3) command command result (completes 100 ∷ []) accepted refl refl
      (refl, tt)

abbrev stocked : AttackResultStore
stocked = record {
  session_id = 1;
  generation = 2;
  battle_id = 3;
  records = record { command_id = 5; target_hint = 40; result = result } ∷ [];
  battle_completed_at = some 100;
}

stocked-IsValid : IsValid stocked
stocked-IsValid = record { distinct = (refl, tt); own = ((refl, refl), tt); bounded = omega arith }

abbrev restored : AttackResultStore
restored = record stocked { session_id = 9; generation = 9 }

import_state-export_state_example :
    (import_state (new_store 9 9 3) (export_state stocked) ≡ (restored, true))
    × (export_state (import_state (new_store 9 9 3) (export_state stocked)).0
        ≡ export_state stocked)
unfolding new_store
import_state-export_state_example =
    import_state-export_state stocked (new_store 9 9 3) stocked-IsValid refl

generate_drops-IsTable_example :
    (drops : List RelicDrop) × (generate_drops 7 9 (derive_battle_seed 7 9 1) 1 3 v1_snapshot
      ≡ some drops)
    × (length drops ≡ 3)
    × IsTable 0 drops
generate_drops-IsTable_example = generate_drops-IsTable 7 9 3 (omega arith) (omega arith)

-- ===== src/Battle/Instance/Tests.antt =====
-- Runs of a battle and of its parts on small inputs.
use loot_of_legends_public.Base.{
  ℕ, ◌⊎◌, ◌≡◌, refl, arith, true, List, [], ◌∷◌, none, some, ◌+◌, ◌*◌, ◌≤◌, ◌<◌, false, Option, map,
  All, pos, negsuc,
}
use loot_of_legends_public.Base.Integers.{magnitude}
use loot_of_legends_public.Battle.Time.{
  from_logical_tick, valid, from_elapsed_nanos, from_elapsed_nanos-valid,
}
use loot_of_legends_public.Battle.Motion.{scaled_component, tick_delta}
use loot_of_legends_public.Battle.Motion.Search.{IsFloor, scaled_component_lem, tick_delta_bound}
use loot_of_legends_public.Battle.Drops.{unit_value_of, is_listed, v1_snapshot}
use loot_of_legends_public.Battle.Result
use loot_of_legends_public.Battle.Result.{
  BattleResultEntry, LootHoldingProjection, rank_entries, rank_from, sort, insert,
}
use loot_of_legends_public.Battle.Result.Ranking.{
  IsRanked, IsDescending, occurrences, rank_entries_lem,
}
use loot_of_legends_public.Battle.Result.Checks.{asset_total, any_of}
use loot_of_legends_public.Battle.Result.Checks.Accepts.{IsChecked, worth, asset_total-IsChecked}
use loot_of_legends_public.Battle.Instance.{
  BattleInstance, BattleStartCandidate, gameplay_committed, resolution_open, is_not_ready,
}
use loot_of_legends_public.Battle.AttackResults
use loot_of_legends_public.Battle.Combat.{origin, dead}
use loot_of_legends_public.Battle.Instance.Exit.{is_available}
use loot_of_legends_public.Battle.Instance.Deadlines.{expire_loot, loot_ok}
use loot_of_legends_public.Battle.Instance.Load.{
  captured_of, BattleAdmissionSnapshot, new_battle, create, valid_admission,
}
use loot_of_legends_public.Battle.Instance.Invariant
use loot_of_legends_public.Battle.Instance.Invariant.Run.{
  Call, run, opens, completes, moves, integrates, attacks, leaves, claims, expires_combat,
}
use loot_of_legends_public.Battle.Instance.Invariant.History.{
  run_further, run_created-IsSound, first_decision, expire_loot_commits,
}

scaled_component_lem_example : IsFloor 0 250 25 1000000 (magnitude (scaled_component (negsuc 3) 25))
scaled_component_lem_example = scaled_component_lem (negsuc 3) 25 (omega arith) (omega arith)

tick_delta_bound_example :
    let (x, y) = tick_delta (record { desired_x = pos 3; desired_y = negsuc 3; input_flags = 0 }) in
    magnitude x * magnitude x + magnitude y * magnitude y ≤ 62500
tick_delta_bound_example =
    tick_delta_bound (record { desired_x = pos 3; desired_y = negsuc 3; input_flags = 0 })

from_elapsed_nanos-valid_example :
    (valid (from_elapsed_nanos 50000001) ≡ true)
    × ((from_elapsed_nanos 50000001).battle_elapsed_nanos
        ≡ (from_elapsed_nanos 50000001).logical_tick * 50000000)
    × (((50000001 ≤ (from_elapsed_nanos 50000001).battle_elapsed_nanos)
          × ((from_elapsed_nanos 50000001).battle_elapsed_nanos < 50000001 + 50000000))
        ⊎ ((368934881474 * 50000000 < 50000001)
            × ((from_elapsed_nanos 50000001).logical_tick ≡ 368934881474)))
from_elapsed_nanos-valid_example = from_elapsed_nanos-valid 50000001 (omega arith)

abbrev entry : ℕ → ℕ → BattleResultEntry
entry session total = record {
  session_id = session;
  nickname = 65 ∷ [];
  exit_status = Result.terminal_present;
  final_asset_value = total;
  rank = none;
  is_top = false;
}

-- Two winners and one behind them.
abbrev entries : List BattleResultEntry
entries = entry 7 100 ∷ entry 8 300 ∷ entry 9 300 ∷ []

ranks : map (λ e. e.rank) (rank_entries entries) ≡ some 1 ∷ some 1 ∷ some 3 ∷ []
unfolding rank_entries rank_from sort insert
ranks = refl

rank_entries_lem_example :
    All (IsRanked entries) (rank_entries entries)
    × IsDescending (rank_entries entries)
    × ((s v : ℕ) → occurrences s v (rank_entries entries) ≡ occurrences s v entries)
rank_entries_lem_example = rank_entries_lem entries

abbrev holdings : List LootHoldingProjection
holdings =
    record { session_id = 7; item_id = 1; quantity = 2 }
    ∷ record { session_id = 7; item_id = 2; quantity = 1 }
    ∷ []

listed : All (λ h. is_listed (unit_value_of v1_snapshot h.item_id) ≡ true) holdings
unfolding v1_snapshot
listed = (refl, (refl, tt))

asset_total-IsChecked_example :
    IsChecked (asset_total v1_snapshot 7 holdings 0) (0 + worth v1_snapshot 7 holdings)
asset_total-IsChecked_example = asset_total-IsChecked v1_snapshot 7 holdings 0 listed (omega arith)

abbrev candidate : ℕ → BattleStartCandidate
candidate session = record {
  account_id = session;
  session_id = session;
  generation = 1;
  nickname = 65 ∷ [];
}

abbrev admission : BattleAdmissionSnapshot
admission = record {
  room_id = 1;
  battle_id = 3;
  candidates = candidate 7 ∷ candidate 8 ∷ [];
  ruleset_version = 1;
  seed = 5;
}

abbrev battle : BattleInstance
battle = new_battle admission

battle_created : create admission ≡ some battle
unfolding create valid_admission
battle_created = refl

-- Both load, one moves and strikes; then both leave, which cancels the battle.
abbrev first_calls : List Call
first_calls =
    opens (from_logical_tick 0)
    ∷ completes 1 3 7 1 true (from_logical_tick 1)
    ∷ completes 1 3 8 1 true (from_logical_tick 2)
    ∷ moves
        (record {
          session_id = 7;
          generation = 1;
          battle_id = 3;
          action_sequence = 1;
          direction = record { desired_x = pos 100; desired_y = pos 0; input_flags = 0 };
        })
        (from_logical_tick 3)
    ∷ integrates 3 4 (from_logical_tick 4)
    ∷ attacks
        (record { command_id = 11; session_id = 7; generation = 1; battle_id = 3; target_hint = 1 })
        (from_logical_tick 5)
    ∷ leaves 1 3 7 1 (from_logical_tick 6)
    ∷ leaves 1 3 8 1 (from_logical_tick 7)
    ∷ []

abbrev later_calls : List Call
later_calls =
    attacks
      (record { command_id = 12; session_id = 8; generation = 1; battle_id = 3; target_hint = 1 })
      (from_logical_tick 30)
    ∷ claims
        (record { command_id = 13; session_id = 7; generation = 1; battle_id = 3; drop_id = 1 })
        (from_logical_tick 31)
    ∷ expires_combat 3 (from_logical_tick 900)
    ∷ []

run_created-IsSound_example :
    (d : BattleInstance) × (run battle first_calls ≡ some d) × Invariant.IsSound battle d
run_created-IsSound_example = run_created-IsSound admission battle first_calls battle_created

abbrev reached : Option BattleInstance → BattleInstance
reached none = battle
reached (some b) = b

abbrev cancelled : BattleInstance
cancelled = reached (run battle first_calls)

abbrev ended : BattleInstance
ended = reached (run cancelled later_calls)

reached_lem :
    (x : Option BattleInstance) → ((d : BattleInstance) × (x ≡ some d)) → x ≡ some (reached x)
reached_lem none (d, e) = absurd (ground arith)
reached_lem (some b) (d, e) = refl

first_reached : run battle first_calls ≡ some cancelled
first_reached =
    let (d, e, s) = run_created-IsSound admission battle first_calls battle_created in
    reached_lem (run battle first_calls) (d, e)

later_reached : run cancelled later_calls ≡ some ended
later_reached =
    let (d, e, s) =
      run_further admission battle cancelled first_calls later_calls battle_created first_reached in
    reached_lem (run cancelled later_calls) (d, e)

first_decision_example : Invariant.IsDecided cancelled ended
first_decision_example =
    first_decision admission battle cancelled ended first_calls later_calls battle_created
      first_reached later_reached

-- The monster is dead and one of the two drops is left.
abbrev open_battle : BattleInstance
open_battle = record battle {
  state = gameplay_committed;
  captured_participants = captured_of (candidate 7) ∷ captured_of (candidate 8) ∷ [];
  monster = some (record { id = 1; position = origin; hit_points = 0; state = dead });
  combat_terminal = some (record {
    event_id = record { high = 3; low = 2 };
    battle_id = 3;
    event_sequence = 2;
    outcome = AttackResults.monster_defeated;
    monster_id = 1;
    server_tick = 4;
    ruleset_version = 4;
  });
  drops =
      record {
        drop = record {
          drop_id = 1;
          item_id = 2;
          quantity = 1;
          position = record { x_millimeter = pos 0; y_millimeter = pos 5 };
        };
        state = Result.available;
        owner = none;
      }
      ∷ [];
  loot_resolution = resolution_open;
  loot_deadline_tick = some 300;
}

deadline_taken : (expire_loot open_battle 3 (from_logical_tick 300)).1 ≡ loot_ok
unfolding expire_loot valid from_logical_tick new_battle
deadline_taken = refl

expire_loot_commits_example :
    let c = (expire_loot open_battle 3 (from_logical_tick 300)).0 in
    (any_of (λ r. is_available r.state) c.drops ≡ false) × (is_not_ready c.result_state ≡ false)
expire_loot_commits_example =
    expire_loot_commits open_battle 3 (from_logical_tick 300) refl deadline_taken

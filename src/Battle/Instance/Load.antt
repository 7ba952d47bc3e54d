-- ===== src/Battle/Instance/Load.antt =====
-- Admission and the load barrier of BattleInstance.cpp.
use loot_of_legends_public.Base.{
  ℕ, suc, ◌+◌, Bool, true, false, not, ◌&&◌, ◌||◌, ltb, leb, ◌==◌, if◌then◌else◌, List, [], ◌∷◌,
  Option, none, some, length, find_if, map, pos,
}
use loot_of_legends_public.Battle.AttackResults
use loot_of_legends_public.Battle.LootResults
use loot_of_legends_public.Battle.Time.{BattleTime, valid, add_ticks, from_logical_tick}
use loot_of_legends_public.Battle.Combat.{
  CombatPosition, spawn, participant_spawn_position, monster_hit_points_for_participants,
}
use loot_of_legends_public.Battle.Result.{CapturedParticipant, gameplay_eligible}
use loot_of_legends_public.Battle.Result.Checks.{any_of, every}
use loot_of_legends_public.Battle.Instance.{
  BattleInstance, BattleStartCandidate, CandidateRecord, ParticipantRecord, BattleLoadState,
  LoadCandidateState, created, load_barrier_open, gameplay_committed, load_cancelled, pending_load,
  ready, timed_out, not_started, not_ready, observe_battle_time,
}

pub data BattleLoadResultCode : Type 0 where
  ok invalid_argument room_not_found room_not_open not_in_room not_host : BattleLoadResultCode
  not_enough_players not_all_ready start_gate_closed stale_session : BattleLoadResultCode
  stale_battle not_eligible overloaded : BattleLoadResultCode

pub record BattleAdmissionSnapshot : Type 0 where
  pub room_id : ℕ
  pub battle_id : ℕ
  pub candidates : List BattleStartCandidate
  pub ruleset_version : ℕ
  pub seed : ℕ

-- 10 s, at 20 ticks a second.
abbrev pub load_barrier_duration_ticks : ℕ
load_barrier_duration_ticks = 200

-- 30 s.
abbrev pub combat_duration_ticks : ℕ
combat_duration_ticks = 600

abbrev pub valid_candidates : List BattleStartCandidate → Bool
valid_candidates [] = true
valid_candidates (c ∷ cs) =
    not (c.session_id == 0)
    && not (c.generation == 0)
    && not (length c.nickname == 0)
    && not (any_of (λ other. c.session_id == other.session_id) cs)
    && valid_candidates cs

unfoldable pub valid_admission : BattleAdmissionSnapshot → Bool
valid_admission a =
    not (a.room_id == 0)
    && not (a.battle_id == 0)
    && a.ruleset_version == 1
    && not (a.seed == 0)
    && leb 2 (length a.candidates)
    && leb (length a.candidates) 10
    && valid_candidates a.candidates

abbrev pub admitted : BattleStartCandidate → CandidateRecord
admitted c = record { identity = c; state = pending_load }

-- The constructor.
unfoldable pub new_battle : BattleAdmissionSnapshot → BattleInstance
new_battle a = record {
  room_id = a.room_id;
  battle_id = a.battle_id;
  ruleset_version = a.ruleset_version;
  seed = a.seed;
  battle_time = record { logical_tick = 0; battle_elapsed_nanos = 0 };
  state = created;
  candidates = map admitted a.candidates;
  captured_participants = [];
  participant_records = [];
  load_deadline_tick = none;
  combat_deadline_tick = none;
  loot_deadline_tick = none;
  last_integrated_server_tick = none;
  next_snapshot_sequence = 1;
  next_attack_applied_sequence = 1;
  monster = none;
  combat_terminal = none;
  battle_terminal_outcome = none;
  drops = [];
  holdings = [];
  loot_resolution = not_started;
  result_state = not_ready;
  committed_result = none;
  loot_results_completed_at_nanos = none;
}

unfoldable pub create : BattleAdmissionSnapshot → Option BattleInstance
create a = if not (valid_admission a) then none else some (new_battle a)

abbrev pub open_from :
    BattleInstance → BattleTime → BattleLoadState → BattleInstance × BattleLoadResultCode
open_from b at created =
    let c = observe_battle_time b at in
    (
      record c {
        state = load_barrier_open;
        load_deadline_tick =
            some (add_ticks c.battle_time.logical_tick load_barrier_duration_ticks);
      },
      ok,
    )
open_from b at load_barrier_open = (b, ok)
open_from b at _ = (b, not_eligible)

unfoldable pub open_load_barrier :
    BattleInstance → BattleTime → BattleInstance × BattleLoadResultCode
open_load_barrier b at = open_from b at b.state

abbrev pub find_candidate : ℕ → List CandidateRecord → Option CandidateRecord
find_candidate session = find_if (λ c. c.identity.session_id == session)

-- What `correlate` finds: the candidate when its code is `ok`, and no candidate for another code.
pub data Correlation : Type 0 where
  refused : BattleLoadResultCode → Correlation
  correlated : CandidateRecord → Correlation

abbrev pub correlate_found : ℕ → Option CandidateRecord → Correlation
correlate_found generation none = refused not_eligible
correlate_found generation (some c) =
    if not (c.identity.generation == generation) then refused stale_session else correlated c

unfoldable pub correlate : BattleInstance → ℕ → ℕ → ℕ → ℕ → Correlation
correlate b room battle session generation =
    if not (room == b.room_id) || not (battle == b.battle_id)
    then refused stale_battle
    else correlate_found generation (find_candidate session b.candidates)

abbrev pub is_pending : LoadCandidateState → Bool
is_pending pending_load = true
is_pending _ = false

abbrev pub is_ready : LoadCandidateState → Bool
is_ready ready = true
is_ready _ = false

abbrev pub is_barrier_open : BattleLoadState → Bool
is_barrier_open load_barrier_open = true
is_barrier_open _ = false

-- A change of a candidate's state through the pointer that `correlate` gives.
unfoldable pub set_candidate : ℕ → LoadCandidateState → List CandidateRecord → List CandidateRecord
set_candidate session state [] = []
set_candidate session state (c ∷ cs) =
    let rest = set_candidate session state cs in
    if c.identity.session_id == session then record c { state = state } ∷ cs else c ∷ rest

abbrev pub count_ready : List CandidateRecord → ℕ
count_ready [] = 0
count_ready (c ∷ cs) = if is_ready c.state then suc (count_ready cs) else count_ready cs

abbrev pub captured_of : BattleStartCandidate → CapturedParticipant
captured_of c = record {
  account_id = c.account_id;
  session_id = c.session_id;
  generation = c.generation;
  nickname = c.nickname;
  exit_status = gameplay_eligible;
}

abbrev pub participant_of : ℕ → BattleStartCandidate → ℕ → CombatPosition → ParticipantRecord
participant_of battle c slot spawned = record {
  slot = slot;
  session_id = c.session_id;
  generation = c.generation;
  pos_x = spawned.x_millimeter;
  pos_y = spawned.y_millimeter;
  tick_delta_x = pos 0;
  tick_delta_y = pos 0;
  latest_seen_action_sequence = none;
  move_rate = record { last_update = none; credit_units = 6000000000 };
  attack_rate = record { last_update = none; credit_units = 4000000000 };
  claim_rate = record { last_update = none; credit_units = 4000000000 };
  last_accepted_attack_nanos = none;
  attack_results = AttackResults.new_store c.session_id c.generation battle;
  loot_results = LootResults.new_store c.session_id c.generation battle;
  gameplay_eligible = true;
  input_enabled = true;
  exit_status = gameplay_eligible;
}

-- The two lists that the loop over the ready candidates fills.
unfoldable pub capture : List CandidateRecord → List CapturedParticipant
capture [] = []
capture (c ∷ cs) =
    let rest = capture cs in if is_ready c.state then captured_of c.identity ∷ rest else rest

unfoldable pub enlist : ℕ → ℕ → ℕ → List CandidateRecord → List ParticipantRecord
enlist battle ready_count ready_index [] = []
enlist battle ready_count ready_index (c ∷ cs) =
    let rest = enlist battle ready_count (ready_index + 1) cs in
    let same = enlist battle ready_count ready_index cs in
    if is_ready c.state
    then participant_of battle c.identity (ready_index + 1)
        (participant_spawn_position ready_count ready_index)
      ∷ rest
    else same

unfoldable pub resolve_if_complete : BattleInstance → BattleInstance
resolve_if_complete b =
    if not (every (λ c. not (is_pending c.state)) b.candidates)
    then b
    else if ltb (count_ready b.candidates) 2
    then record b { state = load_cancelled; load_deadline_tick = none }
    else let participants = enlist b.battle_id (count_ready b.candidates) 0 b.candidates in
      record b {
        captured_participants = capture b.candidates;
        participant_records = participants;
        monster = some (spawn (monster_hit_points_for_participants (length participants)));
        state = gameplay_committed;
        load_deadline_tick = none;
        combat_deadline_tick = some (add_ticks b.battle_time.logical_tick combat_duration_ticks);
      }

-- `completeLoad` after its correlation.
abbrev pub complete_correlated :
    BattleInstance → ℕ → Bool → BattleTime → Correlation → BattleInstance × BattleLoadResultCode
complete_correlated b session transport_ready at (refused code) = (b, code)
complete_correlated b session transport_ready at (correlated candidate) =
    if is_ready candidate.state
    then (b, ok)
    else if not (is_barrier_open b.state) || not (is_pending candidate.state)
    then (b, not_eligible)
    else if not transport_ready
    then (b, ok)
    else let c = observe_battle_time b at in
      (resolve_if_complete (record c { candidates = set_candidate session ready c.candidates }), ok)

unfoldable pub complete_load :
    BattleInstance → ℕ → ℕ → ℕ → ℕ → Bool → BattleTime → BattleInstance × BattleLoadResultCode
complete_load b room battle session generation transport_ready at =
    complete_correlated b session transport_ready at (correlate b room battle session generation)

abbrev pub time_out : CandidateRecord → CandidateRecord
time_out c = if is_pending c.state then record c { state = timed_out } else c

-- `at.valid()` and a deadline that is reached.
abbrev pub is_reached : Option ℕ → BattleTime → Bool
is_reached none at = false
is_reached (some deadline) at = valid at && leb deadline at.logical_tick

abbrev pub expire_from :
    BattleInstance → BattleTime → BattleLoadState → BattleInstance × BattleLoadResultCode
expire_from b at created = (b, not_eligible)
expire_from b at load_barrier_open =
    if not (is_reached b.load_deadline_tick at)
    then (b, not_eligible)
    else let c = observe_battle_time b at in
      (resolve_if_complete (record c { candidates = map time_out c.candidates }), ok)
expire_from b at _ = (b, ok)

unfoldable pub expire_load_barrier :
    BattleInstance → ℕ → ℕ → BattleTime → BattleInstance × BattleLoadResultCode
expire_load_barrier b room battle at =
    if not (room == b.room_id) || not (battle == b.battle_id)
    then (b, stale_battle)
    else expire_from b at b.state

-- The overloads without a time.
abbrev pub deadline_time : Option ℕ → BattleTime → BattleTime
deadline_time none now = now
deadline_time (some tick) now = from_logical_tick tick

abbrev pub expire_load_barrier_now : BattleInstance → ℕ → ℕ → BattleInstance × BattleLoadResultCode
expire_load_barrier_now b room battle =
    expire_load_barrier b room battle (deadline_time b.load_deadline_tick b.battle_time)

-- ===== src/Runtime/Process.antt =====
-- The phases of the process: game-server/platform/runtime/src/ProcessLifecycle.cpp. Each call gives
-- the new phase and whether it was accepted.
use loot_of_legends_public.Base.{
  ℕ, suc, ◌+◌, ◌≡◌, Bool, true, false, if◌then◌else◌, List, [], ◌∷◌, arith,
}

pub data ProcessPhase : Type 0 where
  constructed running stop_requested stopped : ProcessPhase

unfoldable pub start : ProcessPhase → ProcessPhase × Bool
start constructed = (running, true)
start phase = (phase, false)

unfoldable pub request_stop : ProcessPhase → ProcessPhase × Bool
request_stop running = (stop_requested, true)
request_stop phase = (phase, false)

unfoldable pub mark_stopped : ProcessPhase → ProcessPhase × Bool
mark_stopped stop_requested = (stopped, true)
mark_stopped phase = (phase, false)

pub data Call : Type 0 where
  starts requests_stop marks_stopped : Call

abbrev pub call : ProcessPhase → Call → ProcessPhase × Bool
call phase starts = start phase
call phase requests_stop = request_stop phase
call phase marks_stopped = mark_stopped phase

unfoldable pub run : ProcessPhase → List Call → ProcessPhase
run phase [] = phase
run phase (c ∷ cs) = run (call phase c).0 cs

-- How many of the calls are accepted.
unfoldable pub accepted : ProcessPhase → List Call → ℕ
accepted phase [] = 0
accepted phase (c ∷ cs) =
    let rest = accepted (call phase c).0 cs in if (call phase c).1 then suc rest else rest

abbrev pub rank : ProcessPhase → ℕ
rank constructed = 0
rank running = 1
rank stop_requested = 2
rank stopped = 3

call-rank :
    (phase : ProcessPhase) (c : Call)
    → rank (call phase c).0 ≡ (if (call phase c).1 then suc (rank phase) else rank phase)
unfolding start request_stop mark_stopped
call-rank phase starts = ground arith
call-rank phase requests_stop = ground arith
call-rank phase marks_stopped = ground arith

-- The process goes through its four phases in order and never back: after any calls it is as many
-- phases further as calls were accepted, so each of the three transitions happens at most once.
pub run-rank :
    (phase : ProcessPhase) (cs : List Call) → rank (run phase cs) ≡ rank phase + accepted phase cs
unfolding run accepted
run-rank phase [] = omega arith
run-rank phase (c ∷ cs) = ground (arith, call-rank phase c, run-rank (call phase c).0 cs)

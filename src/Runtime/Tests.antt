-- ===== src/Runtime/Tests.antt =====
-- Runs of the process phases and the deadline scheduler on small inputs.
use loot_of_legends_public.Base.{◌≡◌, List, [], ◌∷◌}
use loot_of_legends_public.Runtime.Process.{Call, starts, requests_stop, marks_stopped}
use loot_of_legends_public.Base.{refl, some, false, arith, pos, All, ◌≤◌}
use loot_of_legends_public.Base.Maps.{find}
use loot_of_legends_public.Runtime.Deadlines
use loot_of_legends_public.Runtime.Deadlines.{
  ScheduledTask, Scheduler, pending, fresh, new_scheduler, take_due,
}
use loot_of_legends_public.Runtime.Deadlines.Invariant.{IsValid}
use loot_of_legends_public.Runtime.Deadlines.Run.{
  Step, schedules, reserves, arms, cancels, releases, stops, passes, run_started-IsValid,
}
use loot_of_legends_public.Runtime.Deadlines.Order.{IsLive, take_due-IsLive}

abbrev process_calls : List Call
process_calls = marks_stopped ∷ starts ∷ starts ∷ requests_stop ∷ marks_stopped ∷ []

abbrev steps : List Step
steps =
    schedules 10 (pos 5) (some 1)
    ∷ reserves
    ∷ arms 1 10 (pos 2) (some 2)
    ∷ cancels 1
    ∷ arms 1 20 (pos 3) (some 3)
    ∷ passes 4000000
    ∷ releases 1
    ∷ stops
    ∷ []

built : new_scheduler 4 ≡ some (fresh 4)
unfolding new_scheduler
built = refl

run_started-IsValid_example : IsValid (Deadlines.Run.run (fresh 4) steps)
run_started-IsValid_example =
    run_started-IsValid 4 (fresh 4) steps built (omega arith) (omega arith)

abbrev timer : ScheduledTask
timer = record { deadline = 70; ordinal = 1; lease_id = 1; gate = some 0; task = 2 }

abbrev armed : Scheduler
armed = record {
  queue_capacity = 4;
  tasks = timer ∷ [];
  leases = (1, some 0) ∷ [];
  next_ordinal = 2;
  next_lease_id = 2;
  unreserved_task_count = 0;
  stopping = false;
  gates = (0, pending) ∷ [];
}

armed-IsValid : IsValid armed
unfolding find
armed-IsValid = record {
  sorted = (tt, tt);
  single = (refl, tt);
  counted = refl;
  roomy = omega arith;
  sized = omega arith;
  named = refl;
  next_named = omega arith;
}

fired : (take_due armed 80).1 ≡ some 2
unfolding take_due find
fired = refl

take_due-IsLive_example :
    (armed.stopping ≡ false)
    × ((t : ScheduledTask) × (rest : List ScheduledTask) × (armed.tasks ≡ t ∷ rest)
        × (t.task ≡ 2)
        × (t.deadline ≤ 80)
        × All (λ u. t.deadline ≤ u.deadline) rest
        × IsLive armed t)
take_due-IsLive_example = take_due-IsLive armed 80 2 armed-IsValid fired

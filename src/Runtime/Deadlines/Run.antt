-- ===== src/Runtime/Deadlines/Run.antt =====
-- Any history of steps of the scheduler of DeadlineScheduler.cpp.
use loot_of_legends_public.Base.{
  ℕ, ◌+◌, ◌≤◌, ◌<◌, ◌≡◌, ◌^◌, refl, List, [], ◌∷◌, Option, some, length, arith, ℤ,
}
use loot_of_legends_public.Base.Maps.{find}
use loot_of_legends_public.Runtime.Deadlines.{
  fresh, Scheduler, new_scheduler, schedule_after, try_reserve, arm_lease, cancel_lease,
  release_lease, stop, take_due,
}
use loot_of_legends_public.Runtime.Deadlines.Invariant.{IsValid}
use loot_of_legends_public.Runtime.Deadlines.Keeps.{schedule_after-IsValid, try_reserve-IsValid}
use loot_of_legends_public.Runtime.Deadlines.LeaseKeeps.{
  arm_lease-IsValid, cancel_lease-IsValid, release_lease-IsValid, stop-IsValid, take_due-IsValid,
}

-- The calls, those on a lease by its number, and the passes of the thread.
pub data Step : Type 0 where
  schedules : ℕ → ℤ → Option ℕ → Step
  reserves : Step
  arms : ℕ → ℕ → ℤ → Option ℕ → Step
  cancels releases : ℕ → Step
  stops : Step
  passes : ℕ → Step

unfoldable pub step : Scheduler → Step → Scheduler
step s (schedules now delay task) = (schedule_after s now delay task).0
step s reserves = (try_reserve s).0
step s (arms lease now delay task) = (arm_lease s lease now delay task).0
step s (cancels lease) = cancel_lease s lease
step s (releases lease) = release_lease s lease
step s stops = stop s
step s (passes now) = (take_due s now).0

unfoldable pub run : Scheduler → List Step → Scheduler
run s [] = s
run s (c ∷ cs) = run (step s c) cs

step-IsValid :
    (s : Scheduler) (c : Step) → IsValid s → s.next_lease_id + 1 < 2 ^ 64 → IsValid (step s c)
unfolding step
step-IsValid s (schedules now delay task) v h = schedule_after-IsValid s now delay task v
step-IsValid s reserves v h = try_reserve-IsValid s v h
step-IsValid s (arms lease now delay task) v h = arm_lease-IsValid s lease now delay task v
step-IsValid s (cancels lease) v h = cancel_lease-IsValid s lease v
step-IsValid s (releases lease) v h = release_lease-IsValid s lease v
step-IsValid s stops v h = stop-IsValid s v
step-IsValid s (passes now) v h = take_due-IsValid s now v

-- Only a reservation takes a lease number, and only one.
step_next :
    (s : Scheduler) (c : Step)
    → s.next_lease_id + 1 < 2 ^ 64
    → (step s c).next_lease_id ≤ s.next_lease_id + 1
unfolding step schedule_after try_reserve arm_lease cancel_lease release_lease stop take_due
step_next s (schedules now delay task) h = ground arith
step_next s reserves h = ground arith
step_next s (arms lease now delay task) h = ground arith
step_next s (cancels lease) h = ground arith
step_next s (releases lease) h = ground arith
step_next s stops h = ground arith
step_next s (passes now) h = ground arith

run_from-IsValid :
    (s : Scheduler) (cs : List Step)
    → IsValid s
    → s.next_lease_id + length cs < 2 ^ 64
    → IsValid (run s cs)
unfolding run
run_from-IsValid s [] v h = v
run_from-IsValid s (c ∷ cs) v h =
    let more : s.next_lease_id + 1 < 2 ^ 64 = omega arith in
    let next = step_next s c more in
    run_from-IsValid (step s c) cs (step-IsValid s c v more) (omega arith)

fresh-IsValid : (capacity : ℕ) → capacity < 2 ^ 64 → IsValid (fresh capacity)
unfolding find
fresh-IsValid capacity small = record {
  sorted = tt;
  single = tt;
  counted = refl;
  roomy = omega arith;
  sized = small;
  named = refl;
  next_named = omega arith;
}

-- After fewer than 2^64 - 1 steps of a new scheduler whose capacity fits in 64 bits, in any order,
-- its tasks are sorted by deadline, no lease has two of them, its count of tasks without a lease is
-- exact, and those and the leases together never exceed the capacity.
pub run_started-IsValid :
    (capacity : ℕ) (s : Scheduler) (cs : List Step)
    → new_scheduler capacity ≡ some s
    → capacity < 2 ^ 64
    → length cs + 1 < 2 ^ 64
    → IsValid (run s cs)
unfolding new_scheduler
run_started-IsValid capacity s cs h small few =
    let same : fresh capacity ≡ s = ground arith in
    rw (← same) (run_from-IsValid (fresh capacity) cs (fresh-IsValid capacity small) (omega arith))

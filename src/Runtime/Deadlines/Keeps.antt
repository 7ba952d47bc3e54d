-- ===== src/Runtime/Deadlines/Keeps.antt =====
-- Scheduling and reserving in DeadlineScheduler.cpp keep the invariant.
use loot_of_legends_public.Base.{
  ℕ, suc, ◌+◌, ◌≤◌, ◌<◌, ◌≡◌, ◌^◌, refl, false, ◌==◌, if◌then◌else◌, List, [], ◌∷◌, Option, none,
  some, length, arith, Bool-cases, Option-cases, inl, inr, ℤ, ap,
}
use loot_of_legends_public.Base.Maps.{
  find, erase, insert_or_assign, has_value, find-insert_or_assign,
}
use loot_of_legends_public.Runtime.Deadlines.{
  ScheduledTask, Scheduler, withdraw, set_gate, enqueue_task, schedule_after, try_reserve,
  deadline_of, is_full,
}
use loot_of_legends_public.Runtime.Deadlines.Invariant.{
  IsValid, has_task, insert_task-IsSorted, insert_task-IsSingle, unreserved-insert_task,
  others-IsSorted, others-IsSingle, unreserved-others,
}

abbrev pub LeaseMap : Type 0
LeaseMap = List (ℕ × Option ℕ)

length-insert_or_assign :
    (k : ℕ) (v : Option ℕ) (m : LeaseMap)
    → length (insert_or_assign k v m) ≡ (if has_value (find k m) then length m else suc (length m))
unfolding insert_or_assign find
length-insert_or_assign k v [] = refl
length-insert_or_assign k v ((j, w) ∷ m) = ground (arith, length-insert_or_assign k v m)

pub length-erase : (k : ℕ) (m : LeaseMap) → length (erase k m) ≤ length m
unfolding erase
length-erase k [] = omega arith
length-erase k ((j, w) ∷ m) = ground (arith, length-erase k m)

-- A lease that is there has a number other than 0.
pub lease_nonzero :
    (s : Scheduler) (lease : ℕ) (gate : Option ℕ)
    → IsValid s
    → find lease s.leases ≡ some gate
    → (lease == 0) ≡ false
lease_nonzero s lease gate v e = elim (Bool-cases (lease == 0)) [
  | inr x ↦ x
  | inl x ↦
      let zeroth : lease ≡ 0 = ground arith in
      absurd (ground (arith, v.named, ap (λ k. find k s.leases) zeroth))
]

pub withdraw-IsValid :
    (s : Scheduler) (lease : ℕ) (old : Option ℕ)
    → IsValid s
    → (lease == 0) ≡ false
    → IsValid (withdraw s lease old)
withdraw-IsValid s lease old v h = record {
  sorted = others-IsSorted lease s.tasks v.sorted;
  single = others-IsSingle lease s.tasks v.single;
  counted = ground (arith, v.counted, unreserved-others lease s.tasks);
  roomy = v.roomy;
  sized = v.sized;
  named = v.named;
  next_named = v.next_named;
}

pub set_gate-IsValid :
    (s : Scheduler) (lease : ℕ) (old new : Option ℕ)
    → IsValid s
    → find lease s.leases ≡ some old
    → IsValid (set_gate s lease new)
set_gate-IsValid s lease old new v e = record {
  sorted = v.sorted;
  single = v.single;
  counted = v.counted;
  roomy = ground (arith, v.roomy, length-insert_or_assign lease new s.leases);
  sized = v.sized;
  named =
      ground
        (arith, v.named, find-insert_or_assign lease 0 new s.leases, lease_nonzero s lease old v e);
  next_named = v.next_named;
}

pub enqueue_task-IsValid :
    (s : Scheduler) (deadline lease : ℕ) (gate : Option ℕ) (task : ℕ)
    → IsValid s
    → (lease == 0) ≡ false
    → has_task lease s.tasks ≡ false
    → IsValid (enqueue_task s deadline lease gate task)
enqueue_task-IsValid s deadline lease gate task v h k =
    let t : ScheduledTask = (record {
      deadline = deadline;
      ordinal = s.next_ordinal;
      lease_id = lease;
      gate = gate;
      task = task;
    }) in
    record {
      sorted = insert_task-IsSorted t s.tasks v.sorted;
      single = insert_task-IsSingle t s.tasks (ground arith) v.single;
      counted = ground (arith, v.counted, unreserved-insert_task t s.tasks);
      roomy = v.roomy;
      sized = v.sized;
      named = v.named;
      next_named = v.next_named;
    }

pub schedule_after-IsValid :
    (s : Scheduler) (now : ℕ) (delay : ℤ) (task : Option ℕ)
    → IsValid s
    → IsValid (schedule_after s now delay task).0
unfolding schedule_after
schedule_after-IsValid s now delay task v = elim (Option-cases (deadline_of now delay task)) [
  | inl e ↦ rw (schedule_after, e) v
  | inr ((d, f), e) ↦ elim (Bool-cases (is_full s)) [
    | inl x ↦ rw (schedule_after, e, x) v
    | inr x ↦
        let t : ScheduledTask = (record {
          deadline = d;
          ordinal = s.next_ordinal;
          lease_id = 0;
          gate = none;
          task = f;
        }) in
        let small : s.unreserved_task_count + length s.leases < s.queue_capacity =
          ground (arith, v.roomy, v.sized) in
        rw (schedule_after, e, x)
          (record {
            sorted = insert_task-IsSorted t s.tasks v.sorted;
            single = insert_task-IsSingle t s.tasks refl v.single;
            counted = ground (arith, v.counted, small, v.sized, unreserved-insert_task t s.tasks);
            roomy = ground (arith, small, v.sized);
            sized = v.sized;
            named = v.named;
            next_named = v.next_named;
          })
  ]
]

pub try_reserve-IsValid :
    (s : Scheduler) → IsValid s → s.next_lease_id + 1 < 2 ^ 64 → IsValid (try_reserve s).0
unfolding try_reserve
try_reserve-IsValid s v h = elim (Bool-cases (is_full s)) [
  | inl x ↦ rw (try_reserve, x) v
  | inr x ↦
      let small : s.unreserved_task_count + length s.leases < s.queue_capacity =
        ground (arith, v.roomy, v.sized) in
      let longer = length-insert_or_assign s.next_lease_id none s.leases in
      let found = find-insert_or_assign s.next_lease_id 0 none s.leases in
      rw (try_reserve, x)
        (record {
          sorted = v.sorted;
          single = v.single;
          counted = v.counted;
          roomy = ground (arith, small, longer);
          sized = v.sized;
          named = ground (arith, v.named, v.next_named, found);
          next_named = ground (arith, v.next_named);
        })
]

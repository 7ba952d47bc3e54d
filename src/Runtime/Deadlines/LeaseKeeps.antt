-- ===== src/Runtime/Deadlines/LeaseKeeps.antt =====
-- What is done to a lease, stopping, and the thread's passes in DeadlineScheduler.cpp keep the
-- invariant.
use loot_of_legends_public.Base.{
  ℕ, ◌≡◌, refl, Bool, true, false, ltb, ◌==◌, if◌then◌else◌, List, [], ◌∷◌, Option, none, some,
  length, arith, Bool-cases, Option-cases, inl, inr, ℤ,
}
use loot_of_legends_public.Base.Maps.{find, insert_or_assign, find-erase}
use loot_of_legends_public.Runtime.Deadlines.{
  InvocationState, running, stopped, ScheduledTask, Scheduler, reset_gates, stop, take_due,
  take_front, dispatch, claim, cancel_lease, release_lease, arm_lease, arm_with, withdraw, set_gate,
  make_gate, deadline_of, same_gate, is_pending,
}
use loot_of_legends_public.Runtime.Deadlines.Invariant.{IsValid, has_task-others}
use loot_of_legends_public.Runtime.Deadlines.Keeps.{
  LeaseMap, length-erase, lease_nonzero, withdraw-IsValid, set_gate-IsValid, enqueue_task-IsValid,
}

-- Whichever way a test goes.
either-IsValid {ℓ} :
    {X : Type ℓ} (b : Bool) (p q : Scheduler × X)
    → IsValid p.0
    → IsValid q.0
    → IsValid (if b then p else q).0
either-IsValid true p q v w = v
either-IsValid false p q v w = w

gates-IsValid :
    (s : Scheduler) (gates : List (ℕ × InvocationState))
    → IsValid s
    → IsValid (record s { gates = gates })
gates-IsValid s gates v = record {
  sorted = v.sorted;
  single = v.single;
  counted = v.counted;
  roomy = v.roomy;
  sized = v.sized;
  named = v.named;
  next_named = v.next_named;
}

arm_with-IsValid :
    (s : Scheduler) (lease : ℕ) (old : Option ℕ) (deadline task : ℕ)
    → IsValid s
    → find lease s.leases ≡ some old
    → IsValid (arm_with s lease old deadline task)
arm_with-IsValid s lease old deadline task v e =
    let h = lease_nonzero s lease old v e in
    let t = withdraw s lease old in
    let u = make_gate t in
    let cleared = gates-IsValid t u.gates (withdraw-IsValid s lease old v h) in
    enqueue_task-IsValid (set_gate u lease (some (length t.gates))) deadline lease
      (some (length t.gates)) task (set_gate-IsValid u lease old (some (length t.gates)) cleared e)
      h (ground (arith, has_task-others lease lease s.tasks))

pub arm_lease-IsValid :
    (s : Scheduler) (lease now : ℕ) (delay : ℤ) (task : Option ℕ)
    → IsValid s
    → IsValid (arm_lease s lease now delay task).0
unfolding arm_lease
arm_lease-IsValid s lease now delay task v = elim (Option-cases (deadline_of now delay task)) [
  | inl e ↦ rw (arm_lease, e) v
  | inr ((d, f), e) ↦ elim (Option-cases (find lease s.leases)) [
    | inl g ↦ rw (arm_lease, e, g) v
    | inr (old, g) ↦
        rw (arm_lease, e, g)
          (either-IsValid s.stopping (s, false) (arm_with s lease old d f, true) v
            (arm_with-IsValid s lease old d f v g))
  ]
]

pub cancel_lease-IsValid : (s : Scheduler) (lease : ℕ) → IsValid s → IsValid (cancel_lease s lease)
unfolding cancel_lease
cancel_lease-IsValid s lease v = elim (Option-cases (find lease s.leases)) [
  | inl e ↦ rw (cancel_lease, e) v
  | inr (old, e) ↦
      rw (cancel_lease, e)
        (set_gate-IsValid (withdraw s lease old) lease old none
          (withdraw-IsValid s lease old v (lease_nonzero s lease old v e)) e)
]

pub release_lease-IsValid :
    (s : Scheduler) (lease : ℕ) → IsValid s → IsValid (release_lease s lease)
unfolding release_lease
release_lease-IsValid s lease v = elim (Option-cases (find lease s.leases)) [
  | inl e ↦ rw (release_lease, e) v
  | inr (old, e) ↦
      let w = withdraw-IsValid s lease old v (lease_nonzero s lease old v e) in
      rw (release_lease, e)
        (record {
          sorted = w.sorted;
          single = w.single;
          counted = w.counted;
          roomy = omega (arith, w.roomy, length-erase lease s.leases);
          sized = w.sized;
          named = ground (arith, w.named, find-erase lease 0 s.leases);
          next_named = w.next_named;
        })
]

length-reset_gates : (m : LeaseMap) → length (reset_gates m) ≡ length m
unfolding reset_gates
length-reset_gates [] = refl
length-reset_gates ((j, w) ∷ m) = ground (arith, length-reset_gates m)

find-reset_gates : (k : ℕ) (m : LeaseMap) → find k m ≡ none → find k (reset_gates m) ≡ none
unfolding find reset_gates
find-reset_gates k [] h = refl
find-reset_gates k ((j, w) ∷ m) h = ground (arith, find-reset_gates k m)

stopped-IsValid : (s : Scheduler) → IsValid s → IsValid (stopped s)
stopped-IsValid s v = record {
  sorted = tt;
  single = tt;
  counted = refl;
  roomy = omega (arith, v.roomy, length-reset_gates s.leases);
  sized = v.sized;
  named = find-reset_gates 0 s.leases v.named;
  next_named = v.next_named;
}

pub stop-IsValid : (s : Scheduler) → IsValid s → IsValid (stop s)
unfolding stop
stop-IsValid s v = go s.stopping
  where
    go : (b : Bool) → IsValid (if b then s else stopped s)
    go true = v
    go false = stopped-IsValid s v

-- The scheduler without its first task, which had a lease.
leased_front :
    (s : Scheduler) (t : ScheduledTask) (ts : List ScheduledTask)
    → IsValid s
    → s.tasks ≡ t ∷ ts
    → (t.lease_id == 0) ≡ false
    → IsValid (record s { tasks = ts })
leased_front s t ts v e h =
    let (_, sorted) = rw e at v.sorted in
    let (_, single) = rw e at v.single in
    let counted = rw e at v.counted in
    record {
      sorted = sorted;
      single = single;
      counted = ground arith;
      roomy = v.roomy;
      sized = v.sized;
      named = v.named;
      next_named = v.next_named;
    }

claim-IsValid :
    (s : Scheduler) (t : ScheduledTask) (old gate : Option ℕ)
    → IsValid s
    → find t.lease_id s.leases ≡ some old
    → IsValid (claim s t gate).0
claim-IsValid s t old none v e = v
claim-IsValid s t old (some g) v e = elim (Bool-cases (is_pending (find g s.gates))) [
  | inl x ↦
      let t' = record s { gates = insert_or_assign g running s.gates } in
      rw x (set_gate-IsValid t' t.lease_id old none (gates-IsValid s t'.gates v) e)
  | inr x ↦ rw x v
]

dispatch-IsValid :
    (s : Scheduler) (t : ScheduledTask) (ts : List ScheduledTask)
    → IsValid s
    → s.tasks ≡ t ∷ ts
    → IsValid (dispatch (record s { tasks = ts }) t).0
dispatch-IsValid s t ts v e = elim (Bool-cases (t.lease_id == 0)) [
  | inl x ↦
      let (_, sorted) = rw e at v.sorted in
      let (_, single) = rw e at v.single in
      let counted = rw e at v.counted in
      rw x (record {
        sorted = sorted;
        single = single;
        counted = ground (arith, v.roomy, v.sized);
        roomy = ground (arith, v.roomy, v.sized);
        sized = v.sized;
        named = v.named;
        next_named = v.next_named;
      })
  | inr x ↦
      let rest = leased_front s t ts v e x in
      elim (Option-cases (find t.lease_id s.leases)) [
        | inl f ↦ rw (x, f) rest
        | inr (gate, f) ↦ elim (Bool-cases (same_gate gate t.gate)) [
          | inl y ↦ rw (x, f, y) (claim-IsValid (record s { tasks = ts }) t gate gate rest f)
          | inr y ↦ rw (x, f, y) rest
        ]
      ]
]

pub take_due-IsValid : (s : Scheduler) (now : ℕ) → IsValid s → IsValid (take_due s now).0
unfolding take_due
take_due-IsValid s now v =
    either-IsValid s.stopping (s, none) (take_front s now s.tasks) v (front s.tasks refl)
  where
    front : (ts : List ScheduledTask) → s.tasks ≡ ts → IsValid (take_front s now ts).0
    front [] e = v
    front (t ∷ ts) e =
        either-IsValid (ltb now t.deadline) (s, none) (dispatch (record s { tasks = ts }) t) v
          (dispatch-IsValid s t ts v e)

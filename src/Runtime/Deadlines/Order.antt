-- ===== src/Runtime/Deadlines/Order.antt =====
-- Which task a pass of the thread in DeadlineScheduler.cpp runs.
use loot_of_legends_public.Base.{
  ℕ, ◌≤◌, ◌≡◌, refl, true, false, ◌==◌, List, [], ◌∷◌, Option, none, some, All, arith, Bool-cases,
  Option-cases, inl, inr, ◌⊎◌,
}
use loot_of_legends_public.Base.Maps.{find}
use loot_of_legends_public.Runtime.Deadlines.{
  ScheduledTask, Scheduler, take_due, take_front, dispatch, claim, is_pending, same_gate,
}
use loot_of_legends_public.Runtime.Deadlines.Invariant.{IsValid}

-- The task has no lease, or its gate is the lease's present one and was not canceled.
abbrev pub IsLive : Scheduler → ScheduledTask → Type 0
IsLive s t =
    (t.lease_id ≡ 0)
    ⊎ ((g : ℕ) × (find t.lease_id s.leases ≡ some (some g))
        × (t.gate ≡ some g)
        × (is_pending (find g s.gates) ≡ true))

claim-IsLive :
    (s : Scheduler) (t : ScheduledTask) (gate : Option ℕ) (f : ℕ)
    → find t.lease_id s.leases ≡ some gate
    → same_gate gate t.gate ≡ true
    → (claim s t gate).1 ≡ some f
    → IsLive s t × (t.task ≡ f)
claim-IsLive s t none f e k h = absurd (ground arith)
claim-IsLive s t (some g) f e k h = elim (Option-cases t.gate) [
  | inl x ↦ absurd (ground arith)
  | inr (j, x) ↦ (inr (g, e, ground arith, ground arith), ground arith)
]

dispatch-IsLive :
    (s : Scheduler) (t : ScheduledTask) (f : ℕ)
    → (dispatch s t).1 ≡ some f
    → IsLive s t × (t.task ≡ f)
dispatch-IsLive s t f h = elim (Bool-cases (t.lease_id == 0)) [
  | inl x ↦ (inl (ground arith), ground arith)
  | inr x ↦ elim (Option-cases (find t.lease_id s.leases)) [
    | inl e ↦ absurd (ground arith)
    | inr (gate, e) ↦ elim (Bool-cases (same_gate gate t.gate)) [
      | inl y ↦ claim-IsLive s t gate f e y (ground arith)
      | inr y ↦ absurd (ground arith)
    ]
  ]
]

-- A pass of a valid scheduler runs a task only while it is not stopping, and then the first one:
-- its deadline has come, no other task has an earlier one, and it has no lease or its lease still
-- has the task's gate, pending.
pub take_due-IsLive :
    (s : Scheduler) (now f : ℕ)
    → IsValid s
    → (take_due s now).1 ≡ some f
    → (s.stopping ≡ false)
      × ((t : ScheduledTask) × (rest : List ScheduledTask) × (s.tasks ≡ t ∷ rest)
          × (t.task ≡ f)
          × (t.deadline ≤ now)
          × All (λ u. t.deadline ≤ u.deadline) rest
          × IsLive s t)
unfolding take_due
take_due-IsLive s now f v h = (ground arith, front s.tasks refl (ground arith))
  where
    front :
        (ts : List ScheduledTask)
        → s.tasks ≡ ts
        → (take_front s now ts).1 ≡ some f
        → (t : ScheduledTask) × (rest : List ScheduledTask) × (s.tasks ≡ t ∷ rest)
          × (t.task ≡ f)
          × (t.deadline ≤ now)
          × All (λ u. t.deadline ≤ u.deadline) rest
          × IsLive s t
    front [] e k = absurd (ground arith)
    front (t ∷ rest) e k =
        let due : t.deadline ≤ now = ground arith in
        let (live, named) = dispatch-IsLive (record s { tasks = rest }) t f (ground arith) in
        let (earliest, _) = rw e at v.sorted in (t, rest, e, named, due, earliest, live)

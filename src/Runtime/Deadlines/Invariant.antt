-- ===== src/Runtime/Deadlines/Invariant.antt =====
-- What holds of the scheduler of DeadlineScheduler.cpp between two steps.
use loot_of_legends_public.Base.{
  ℕ, suc, ◌+◌, ◌≤◌, ◌<◌, ◌≡◌, ◌^◌, refl, Bool, true, false, not, ◌&&◌, ◌||◌, ◌==◌, if◌then◌else◌,
  List, [], ◌∷◌, none, length, keep_if, All, arith, Bool-cases, inl, inr,
}
use loot_of_legends_public.Base.Maps.{find}
use loot_of_legends_public.Runtime.Deadlines.{ScheduledTask, Scheduler, insert_task, is_before}

abbrev pub has_task : ℕ → List ScheduledTask → Bool
has_task lease [] = false
has_task lease (t ∷ ts) = t.lease_id == lease || has_task lease ts

-- No lease has two tasks; 0 stands for no lease.
abbrev pub IsSingle : List ScheduledTask → Type 0
IsSingle [] = Unit {0}
IsSingle (t ∷ ts) = ((t.lease_id == 0 || not (has_task t.lease_id ts)) ≡ true) × IsSingle ts

-- Every later task has a deadline at least as late.
abbrev pub IsSorted : List ScheduledTask → Type 0
IsSorted [] = Unit {0}
IsSorted (t ∷ ts) = All (λ u. t.deadline ≤ u.deadline) ts × IsSorted ts

abbrev pub unreserved : List ScheduledTask → ℕ
unreserved [] = 0
unreserved (t ∷ ts) = if t.lease_id == 0 then suc (unreserved ts) else unreserved ts

pub record IsValid (s : Scheduler) : Type 0 where
  pub sorted : IsSorted s.tasks
  pub single : IsSingle s.tasks
  pub counted : s.unreserved_task_count ≡ unreserved s.tasks
  pub roomy : s.unreserved_task_count + length s.leases ≤ s.queue_capacity
  pub sized : s.queue_capacity < 2 ^ 64
  pub named : find 0 s.leases ≡ none
  pub next_named : 0 < s.next_lease_id

insert_task-All :
    (t : ScheduledTask) (d : ℕ) (ts : List ScheduledTask)
    → d ≤ t.deadline
    → All (λ u. d ≤ u.deadline) ts
    → All (λ u. d ≤ u.deadline) (insert_task t ts)
unfolding insert_task
insert_task-All t d [] h a = (h, tt)
insert_task-All t d (e ∷ es) h (p, a) = elim (Bool-cases (is_before t e)) [
  | inl x ↦ rw (x, insert_task) (h, (p, a))
  | inr x ↦ rw (x, insert_task) (p, insert_task-All t d es h a)
]

later_All :
    (c d : ℕ) (ts : List ScheduledTask)
    → c ≤ d
    → All (λ u. d ≤ u.deadline) ts
    → All (λ u. c ≤ u.deadline) ts
later_All c d [] h a = tt
later_All c d (t ∷ ts) h (p, a) = (omega arith, later_All c d ts h a)

pub insert_task-IsSorted :
    (t : ScheduledTask) (ts : List ScheduledTask) → IsSorted ts → IsSorted (insert_task t ts)
unfolding insert_task
insert_task-IsSorted t [] s = (tt, tt)
insert_task-IsSorted t (e ∷ es) (p, s) = elim (Bool-cases (is_before t e)) [
  | inl x ↦
      let first : t.deadline ≤ e.deadline = ground arith in
      rw (x, insert_task) ((first, later_All t.deadline e.deadline es first p), (p, s))
  | inr x ↦
      let first : e.deadline ≤ t.deadline = ground arith in
      rw (x, insert_task) (insert_task-All t e.deadline es first p, insert_task-IsSorted t es s)
]

has_task-insert_task :
    (lease : ℕ) (t : ScheduledTask) (ts : List ScheduledTask)
    → has_task lease (insert_task t ts) ≡ (t.lease_id == lease || has_task lease ts)
unfolding insert_task
has_task-insert_task lease t [] = refl
has_task-insert_task lease t (e ∷ es) = ground (arith, has_task-insert_task lease t es)

pub insert_task-IsSingle :
    (t : ScheduledTask) (ts : List ScheduledTask)
    → (t.lease_id == 0 || not (has_task t.lease_id ts)) ≡ true
    → IsSingle ts
    → IsSingle (insert_task t ts)
unfolding insert_task
insert_task-IsSingle t [] h s = (h, tt)
insert_task-IsSingle t (e ∷ es) h (p, s) = elim (Bool-cases (is_before t e)) [
  | inl x ↦ rw (x, insert_task) (h, (p, s))
  | inr x ↦
      rw (x, insert_task)
        (
          ground (arith, has_task-insert_task e.lease_id t es),
          insert_task-IsSingle t es (ground arith) s,
        )
]

pub unreserved-insert_task :
    (t : ScheduledTask) (ts : List ScheduledTask)
    → unreserved (insert_task t ts)
      ≡ (if t.lease_id == 0 then suc (unreserved ts) else unreserved ts)
unfolding insert_task
unreserved-insert_task t [] = refl
unreserved-insert_task t (e ∷ es) = ground (arith, unreserved-insert_task t es)

module _ (lease : ℕ) where
  abbrev pub others : List ScheduledTask → List ScheduledTask
  others = keep_if (λ t. not (t.lease_id == lease))

  others-All :
      (d : ℕ) (ts : List ScheduledTask)
      → All (λ u. d ≤ u.deadline) ts
      → All (λ u. d ≤ u.deadline) (others ts)
  others-All d [] a = tt
  others-All d (t ∷ ts) (p, a) = elim (Bool-cases (t.lease_id == lease)) [
    | inl x ↦ rw x (others-All d ts a)
    | inr x ↦ rw x (p, others-All d ts a)
  ]

  pub others-IsSorted : (ts : List ScheduledTask) → IsSorted ts → IsSorted (others ts)
  others-IsSorted [] s = tt
  others-IsSorted (t ∷ ts) (p, s) = elim (Bool-cases (t.lease_id == lease)) [
    | inl x ↦ rw x (others-IsSorted ts s)
    | inr x ↦ rw x (others-All t.deadline ts p, others-IsSorted ts s)
  ]

  pub has_task-others :
      (j : ℕ) (ts : List ScheduledTask)
      → has_task j (others ts) ≡ (not (j == lease) && has_task j ts)
  has_task-others j [] = ground arith
  has_task-others j (t ∷ ts) = ground (arith, has_task-others j ts)

  pub others-IsSingle : (ts : List ScheduledTask) → IsSingle ts → IsSingle (others ts)
  others-IsSingle [] s = tt
  others-IsSingle (t ∷ ts) (p, s) = elim (Bool-cases (t.lease_id == lease)) [
    | inl x ↦ rw x (others-IsSingle ts s)
    | inr x ↦ rw x (ground (arith, has_task-others t.lease_id ts), others-IsSingle ts s)
  ]

  pub unreserved-others :
      (ts : List ScheduledTask) → (lease == 0) ≡ false → unreserved (others ts) ≡ unreserved ts
  unreserved-others [] h = refl
  unreserved-others (t ∷ ts) h = ground (arith, unreserved-others ts)

-- ===== src/Runtime/Deadlines.antt =====
-- The deadline scheduler: game-server/platform/runtime/src/DeadlineScheduler.cpp, with
-- DeadlineScheduler.hpp. Every call, and every pass of the thread's loop up to the task it runs,
-- holds the mutex throughout, so each is one step; waiting changes nothing. A clock reading is an
-- argument, in nanoseconds, and a task is a number, where none is an empty function. A lease's gate
-- and its task's gate are one shared object, a place in `gates`.
pub mod Invariant
pub mod Keeps
pub mod LeaseKeeps
pub mod Run
pub mod Order
use loot_of_legends_public.Base.{
  ℕ, ◌+◌, ◌*◌, Bool, true, false, not, ◌&&◌, ◌||◌, ltb, leb, ◌==◌, if◌then◌else◌, add64, sub64,
  List, [], ◌∷◌, Option, none, some, length, keep_if, ℤ, pos, negsuc,
}
use loot_of_legends_public.Base.Maps.{find, emplace, erase, insert_or_assign}

pub data InvocationState : Type 0 where
  pending running canceled : InvocationState

pub record ScheduledTask : Type 0 where
  pub deadline : ℕ
  pub ordinal : ℕ
  pub lease_id : ℕ
  pub gate : Option ℕ
  pub task : ℕ

pub record Scheduler : Type 0 where
  pub queue_capacity : ℕ
  pub tasks : List ScheduledTask
  pub leases : List (ℕ × Option ℕ)
  pub next_ordinal : ℕ
  pub next_lease_id : ℕ
  pub unreserved_task_count : ℕ
  pub stopping : Bool
  pub gates : List (ℕ × InvocationState)

abbrev pub fresh : ℕ → Scheduler
fresh capacity = record {
  queue_capacity = capacity;
  tasks = [];
  leases = [];
  next_ordinal = 1;
  next_lease_id = 1;
  unreserved_task_count = 0;
  stopping = false;
  gates = [];
}

-- The constructor; none is the exception for a capacity of 0.
unfoldable pub new_scheduler : ℕ → Option Scheduler
new_scheduler capacity = if capacity == 0 then none else some (fresh capacity)

-- `std::tie(deadline, ordinal)` compared.
abbrev pub is_before : ScheduledTask → ScheduledTask → Bool
is_before a b = ltb a.deadline b.deadline || (a.deadline == b.deadline && ltb a.ordinal b.ordinal)

-- `std::upper_bound` on a sorted vector gives the first place whose task is after the new one.
unfoldable pub insert_task : ScheduledTask → List ScheduledTask → List ScheduledTask
insert_task t [] = t ∷ []
insert_task t (e ∷ es) = if is_before t e then t ∷ e ∷ es else e ∷ insert_task t es

abbrev pub cancel_gate : Option ℕ → List (ℕ × InvocationState) → List (ℕ × InvocationState)
cancel_gate none gates = gates
cancel_gate (some g) gates = insert_or_assign g canceled gates

unfoldable pub cancel_tasks :
    ℕ → List ScheduledTask → List (ℕ × InvocationState) → List (ℕ × InvocationState)
cancel_tasks lease [] gates = gates
cancel_tasks lease (t ∷ ts) gates =
    cancel_tasks lease ts (if t.lease_id == lease then cancel_gate t.gate gates else gates)

abbrev pub erase_lease_task : Scheduler → ℕ → Scheduler
erase_lease_task s lease = record s {
  tasks = keep_if (λ t. not (t.lease_id == lease)) s.tasks;
  gates = cancel_tasks lease s.tasks s.gates;
}

-- The deadline of a task, unless its delay is negative or it is empty; a delay is in milliseconds.
abbrev pub deadline_of : ℕ → ℤ → Option ℕ → Option (ℕ × ℕ)
deadline_of now (pos delay) (some task) = some (now + delay * 1000000, task)
deadline_of now _ _ = none

abbrev pub is_full : Scheduler → Bool
is_full s = s.stopping || leb s.queue_capacity (add64 s.unreserved_task_count (length s.leases))

abbrev pub enqueue_task : Scheduler → ℕ → ℕ → Option ℕ → ℕ → Scheduler
enqueue_task s deadline lease gate task = record s {
  tasks =
      insert_task
        (record {
          deadline = deadline;
          ordinal = s.next_ordinal;
          lease_id = lease;
          gate = gate;
          task = task;
        })
        s.tasks;
  next_ordinal = add64 s.next_ordinal 1;
}

abbrev pub add_unreserved : Scheduler → Scheduler
add_unreserved s = record s { unreserved_task_count = add64 s.unreserved_task_count 1 }

unfoldable pub schedule_after : Scheduler → ℕ → ℤ → Option ℕ → Scheduler × Bool
schedule_after s now delay task = elim (deadline_of now delay task) [
  | none ↦ (s, false)
  | some (deadline, run) ↦
      if is_full s then (s, false) else (add_unreserved (enqueue_task s deadline 0 none run), true)
]

unfoldable pub try_reserve : Scheduler → Scheduler × Option ℕ
try_reserve s = if is_full s then (s, none) else (
  record s {
    next_lease_id = add64 s.next_lease_id 1;
    leases = emplace s.next_lease_id none s.leases;
  },
  some s.next_lease_id,
)

abbrev pub set_gate : Scheduler → ℕ → Option ℕ → Scheduler
set_gate s lease gate = record s { leases = insert_or_assign lease gate s.leases }

-- The lease's own gate is canceled, and its task goes.
abbrev pub withdraw : Scheduler → ℕ → Option ℕ → Scheduler
withdraw s lease gate = erase_lease_task (record s { gates = cancel_gate gate s.gates }) lease

-- `std::make_shared<InvocationGate>`: an object that nothing else has, since none is ever dropped
-- from `gates`.
abbrev pub make_gate : Scheduler → Scheduler
make_gate s = record s { gates = insert_or_assign (length s.gates) pending s.gates }

abbrev pub arm_with : Scheduler → ℕ → Option ℕ → ℕ → ℕ → Scheduler
arm_with s lease old deadline task =
    let t = withdraw s lease old in
    let gate = length t.gates in
    enqueue_task (set_gate (make_gate t) lease (some gate)) deadline lease (some gate) task

unfoldable pub arm_lease : Scheduler → ℕ → ℕ → ℤ → Option ℕ → Scheduler × Bool
arm_lease s lease now delay task = elim (deadline_of now delay task) [
  | none ↦ (s, false)
  | some (deadline, run) ↦ elim (find lease s.leases) [
    | none ↦ (s, false)
    | some old ↦ if s.stopping then (s, false) else (arm_with s lease old deadline run, true)
  ]
]

unfoldable pub cancel_lease : Scheduler → ℕ → Scheduler
cancel_lease s lease = elim (find lease s.leases) [
  | none ↦ s
  | some gate ↦ set_gate (withdraw s lease gate) lease none
]

unfoldable pub release_lease : Scheduler → ℕ → Scheduler
release_lease s lease = elim (find lease s.leases) [
  | none ↦ s
  | some gate ↦ let t = withdraw s lease gate in record t { leases = erase lease t.leases }
]

unfoldable pub stop_gates :
    List (ℕ × Option ℕ) → List (ℕ × InvocationState) → List (ℕ × InvocationState)
stop_gates [] gates = gates
stop_gates ((_, gate) ∷ leases) gates = stop_gates leases (cancel_gate gate gates)

unfoldable pub reset_gates : List (ℕ × Option ℕ) → List (ℕ × Option ℕ)
reset_gates [] = []
reset_gates ((lease, _) ∷ leases) = (lease, none) ∷ reset_gates leases

abbrev pub stopped : Scheduler → Scheduler
stopped s = record s {
  stopping = true;
  gates = stop_gates s.leases s.gates;
  leases = reset_gates s.leases;
  tasks = [];
  unreserved_task_count = 0;
}

-- The thread is joinable exactly until the first call.
unfoldable pub stop : Scheduler → Scheduler
stop s = if s.stopping then s else stopped s

abbrev pub same_gate : Option ℕ → Option ℕ → Bool
same_gate none none = true
same_gate (some a) (some b) = a == b
same_gate _ _ = false

abbrev pub is_pending : Option InvocationState → Bool
is_pending (some pending) = true
is_pending _ = false

-- The compare-and-exchange of the task's gate, which the lease still has.
abbrev pub claim : Scheduler → ScheduledTask → Option ℕ → Scheduler × Option ℕ
claim s t none = (s, none)
claim s t (some g) =
    if is_pending (find g s.gates)
    then (
      set_gate (record s { gates = insert_or_assign g running s.gates }) t.lease_id none,
      some t.task,
    )
    else (s, none)

abbrev pub dispatch : Scheduler → ScheduledTask → Scheduler × Option ℕ
dispatch s t =
    if t.lease_id == 0
    then (record s { unreserved_task_count = sub64 s.unreserved_task_count 1 }, some t.task)
    else elim (find t.lease_id s.leases) [
      | none ↦ (s, none)
      | some gate ↦ if same_gate gate t.gate then claim s t gate else (s, none)
    ]

-- One pass of `run` at `now`: the task to be run, if there is one.
abbrev pub take_front : Scheduler → ℕ → List ScheduledTask → Scheduler × Option ℕ
take_front s now [] = (s, none)
take_front s now (t ∷ ts) =
    if ltb now t.deadline then (s, none) else dispatch (record s { tasks = ts }) t

unfoldable pub take_due : Scheduler → ℕ → Scheduler × Option ℕ
take_due s now = if s.stopping then (s, none) else take_front s now s.tasks

-- ===== src/Settlement/Capacity/System.antt =====
-- The reservation objects of SettlementCapacityGate.cpp and what is done with them.
use loot_of_legends_public.Base.{
  ℕ, suc, zero, ◌==◌, if◌then◌else◌, List, [], ◌∷◌, ◌++◌, Option, none, some,
}
use loot_of_legends_public.Settlement.Capacity.{
  OutboxBacklogSnapshot, SettlementCapacityState, SettlementCapacityReservation, moved_from,
  update_backlog, try_reserve, release,
}

-- The gate and the reservation objects that share its state.
pub record System : Type 0 where
  pub gate : SettlementCapacityState
  pub handles : List SettlementCapacityReservation

unfoldable pub lookup :
    ℕ → List SettlementCapacityReservation → Option SettlementCapacityReservation
lookup i [] = none
lookup zero (h ∷ hs) = some h
lookup (suc i) (h ∷ hs) = lookup i hs

unfoldable pub put :
    ℕ
    → SettlementCapacityReservation
    → List SettlementCapacityReservation
    → List SettlementCapacityReservation
put i x [] = []
put zero x (h ∷ hs) = x ∷ hs
put (suc i) x (h ∷ hs) = h ∷ put i x hs

-- The objects are numbered in the order of their construction.
pub data Action : Type 0 where
  updates : OutboxBacklogSnapshot → Action
  reserves : Action
  releases : ℕ → Action
  move_constructs : ℕ → Action
  move_assigns : ℕ → ℕ → Action

abbrev pub keep_reservation :
    List SettlementCapacityReservation
    → Option SettlementCapacityReservation
    → List SettlementCapacityReservation
keep_reservation hs none = hs
keep_reservation hs (some h) = hs ++ h ∷ []

-- `release()` on the object; the destructor does the same.
abbrev pub release_at : System → ℕ → Option SettlementCapacityReservation → System
release_at s i none = s
release_at s i (some h) =
    let (gate, h') = release s.gate h in record { gate = gate; handles = put i h' s.handles }

-- The move constructor: a new object takes over, and the other one is left empty.
abbrev pub construct_from : System → ℕ → Option SettlementCapacityReservation → System
construct_from s j none = s
construct_from s j (some h) = record s { handles = put j moved_from s.handles ++ h ∷ [] }

abbrev pub move_from : System → ℕ → ℕ → Option SettlementCapacityReservation → System
move_from s i j none = s
move_from s i j (some h) = record s { handles = put i h (put j moved_from s.handles) }

-- The move assignment: nothing for the same object, else the target is released first.
abbrev pub assign_from : System → ℕ → ℕ → System
assign_from s i j =
    if i == j
    then s
    else let t = release_at s i (lookup i s.handles) in move_from t i j (lookup j t.handles)

unfoldable pub act : System → Action → System
act s (updates snapshot) = record s { gate = update_backlog s.gate snapshot }
act s reserves =
    let (gate, code, reservation) = try_reserve s.gate in
    record { gate = gate; handles = keep_reservation s.handles reservation }
act s (releases i) = release_at s i (lookup i s.handles)
act s (move_constructs j) = construct_from s j (lookup j s.handles)
act s (move_assigns i j) = elim (lookup i s.handles) [
  | none ↦ s
  | some _ ↦ elim (lookup j s.handles) [ none ↦ s | some _ ↦ assign_from s i j ]
]

unfoldable pub act_all : System → List Action → System
act_all s [] = s
act_all s (a ∷ rest) = act_all (act s a) rest

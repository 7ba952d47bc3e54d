-- ===== src/Settlement/Capacity.antt =====
-- The capacity gate: game-server/modules/settlement/src/application/SettlementCapacityGate.cpp, with
-- the types of SettlementCapacityGate.hpp. Each call holds the mutex throughout, so it is one step.
-- A reservation is an object with its `state_` pointer (set or not) and its `active_` flag.
pub mod Admission
pub mod System
pub mod Balance
use loot_of_legends_public.Base.{
  ℕ, ◌+◌, ◌*◌, Bool, true, false, not, ◌&&◌, ◌||◌, ltb, leb, ◌==◌, if◌then◌else◌, sub64, add64,
  List, [], ◌∷◌, ◌++◌, Option, none, some,
}

pub record OutboxBacklogSnapshot : Type 0 where
  pub unretired_records : ℕ
  pub unretired_bytes : ℕ
  pub oldest_pending_age : ℕ
  pub storage_healthy : Bool

pub data CapacityReservationCode : Type 0 where
  reserved storage_unhealthy high_watermark reservation_capacity_exhausted : CapacityReservationCode

pub record SettlementCapacityState : Type 0 where
  pub backlog : OutboxBacklogSnapshot
  pub reserved_batches : ℕ
  pub reserved_records : ℕ
  pub reserved_bytes : ℕ
  pub high_watermark_blocked : Bool
  pub initialized : Bool

pub record SettlementCapacityReservation : Type 0 where
  pub attached : Bool
  pub active : Bool

abbrev pub maximum_unretired_records : ℕ
maximum_unretired_records = 5000

abbrev pub maximum_unretired_bytes : ℕ
maximum_unretired_bytes = 64 * 1024 * 1024

-- Milliseconds.
abbrev pub maximum_oldest_pending_age : ℕ
maximum_oldest_pending_age = 15 * 60000

abbrev pub recovery_low_records : ℕ
recovery_low_records = 4000

abbrev pub recovery_low_bytes : ℕ
recovery_low_bytes = 48 * 1024 * 1024

abbrev pub recovery_low_oldest_age : ℕ
recovery_low_oldest_age = 10 * 60000

abbrev pub maximum_reserved_batches : ℕ
maximum_reserved_batches = 128

abbrev pub reserved_records_per_battle : ℕ
reserved_records_per_battle = 11

abbrev pub batch_commit_bytes : ℕ
batch_commit_bytes = 60 + 18 + 10 * 40

abbrev pub reserved_bytes_per_battle : ℕ
reserved_bytes_per_battle = 10 * (60 + 130) + batch_commit_bytes

abbrev pub at_high_watermark : OutboxBacklogSnapshot → Bool
at_high_watermark snapshot =
    leb maximum_unretired_records snapshot.unretired_records
    || leb maximum_unretired_bytes snapshot.unretired_bytes
    || (not (snapshot.unretired_records == 0)
        && leb maximum_oldest_pending_age snapshot.oldest_pending_age)

abbrev pub below_every_low_watermark : OutboxBacklogSnapshot → Bool
below_every_low_watermark snapshot =
    leb snapshot.unretired_records recovery_low_records
    && leb snapshot.unretired_bytes recovery_low_bytes
    && (snapshot.unretired_records == 0 || ltb snapshot.oldest_pending_age recovery_low_oldest_age)

unfoldable pub would_exceed : ℕ → ℕ → ℕ → ℕ → Bool
would_exceed current reserved_now addition limit =
    ltb limit current
    || ltb (sub64 limit current) reserved_now
    || ltb (sub64 (sub64 limit current) reserved_now) addition

unfoldable pub initial_state : SettlementCapacityState
initial_state = record {
  backlog = record {
    unretired_records = 0;
    unretired_bytes = 0;
    oldest_pending_age = 0;
    storage_healthy = false;
  };
  reserved_batches = 0;
  reserved_records = 0;
  reserved_bytes = 0;
  high_watermark_blocked = true;
  initialized = false;
}

unfoldable pub release :
    SettlementCapacityState
    → SettlementCapacityReservation
    → SettlementCapacityState × SettlementCapacityReservation
release s h = if not h.active || not h.attached then (s, h) else (
  record s {
    reserved_batches = sub64 s.reserved_batches 1;
    reserved_records = sub64 s.reserved_records reserved_records_per_battle;
    reserved_bytes = sub64 s.reserved_bytes reserved_bytes_per_battle;
  },
  record h { active = false },
)

-- What `std::move(state_)` and `std::exchange(active_, false)` leave behind.
abbrev pub moved_from : SettlementCapacityReservation
moved_from = record { attached = false; active = false }

unfoldable pub update_backlog :
    SettlementCapacityState → OutboxBacklogSnapshot → SettlementCapacityState
update_backlog s snapshot =
    let t = record s { backlog = snapshot } in
    if not s.initialized
    then record t {
      initialized = true;
      high_watermark_blocked = not snapshot.storage_healthy || at_high_watermark snapshot;
    }
    else if not snapshot.storage_healthy
    then record t { high_watermark_blocked = true }
    else if s.high_watermark_blocked
    then record t { high_watermark_blocked = not (below_every_low_watermark snapshot) }
    else if at_high_watermark snapshot
    then record t { high_watermark_blocked = true }
    else t

abbrev pub is_exhausted : SettlementCapacityState → Bool
is_exhausted s =
    leb maximum_reserved_batches s.reserved_batches
    || would_exceed s.backlog.unretired_records s.reserved_records reserved_records_per_battle
        maximum_unretired_records
    || would_exceed s.backlog.unretired_bytes s.reserved_bytes reserved_bytes_per_battle
        maximum_unretired_bytes

unfoldable pub try_reserve :
    SettlementCapacityState
    → SettlementCapacityState × CapacityReservationCode × Option SettlementCapacityReservation
unfolding would_exceed
try_reserve s =
    if not s.backlog.storage_healthy
    then (s, storage_unhealthy, none)
    else if s.high_watermark_blocked
    then (s, high_watermark, none)
    else if is_exhausted s
    then (s, reservation_capacity_exhausted, none)
    else (
      record s {
        reserved_batches = add64 s.reserved_batches 1;
        reserved_records = add64 s.reserved_records reserved_records_per_battle;
        reserved_bytes = add64 s.reserved_bytes reserved_bytes_per_battle;
      },
      reserved,
      some (record { attached = true; active = true }),
    )

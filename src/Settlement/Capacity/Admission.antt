-- ===== src/Settlement/Capacity/Admission.antt =====
-- When SettlementCapacityGate.cpp admits a battle, and how its watermarks work.
use loot_of_legends_public.Base.{
  ℕ, ◌+◌, ◌^◌, ◌<◌, ◌≤◌, ◌≡◌, ◌↔◌, true, false, not, arith, ◌||◌, ◌&&◌,
}
use loot_of_legends_public.Settlement.Capacity.{
  OutboxBacklogSnapshot, SettlementCapacityState, reserved, would_exceed, at_high_watermark,
  below_every_low_watermark, update_backlog, try_reserve,
}

-- The test without overflow is the plain comparison of the sum.
would_exceed_lem :
    (current held addition limit : ℕ)
    → limit < 2 ^ 64
    → held < 2 ^ 64
    → (would_exceed current held addition limit ≡ false) ↔ (current + held + addition ≤ limit)
unfolding would_exceed
would_exceed_lem current held addition limit h k = (λ e. ground arith, λ e. ground arith)

-- The admission as plain arithmetic.
abbrev pub HasRoom : SettlementCapacityState → Type 0
HasRoom s =
    (s.backlog.storage_healthy ≡ true)
    × (s.high_watermark_blocked ≡ false)
    × (s.reserved_batches < 128)
    × (s.backlog.unretired_records + s.reserved_records + 11 ≤ 5000)
    × (s.backlog.unretired_bytes + s.reserved_bytes + 2378 ≤ 67108864)

-- Where the reserved counters fit in 64 bits, a battle is admitted exactly when the storage is
-- healthy, the gate is not blocked, fewer than 128 batches are reserved, and backlog,
-- reservations and the 11 records and 2378 bytes of one more battle together stay within 5000
-- records and 64 MiB; no wrapped sum lets one through.
pub try_reserve_exactly :
    (s : SettlementCapacityState)
    → s.reserved_records < 2 ^ 64
    → s.reserved_bytes < 2 ^ 64
    → ((try_reserve s).1 ≡ reserved) ↔ HasRoom s
unfolding try_reserve
try_reserve_exactly s h k =
    let records =
      would_exceed_lem s.backlog.unretired_records s.reserved_records 11 5000 (omega arith) h in
    let bytes =
      would_exceed_lem s.backlog.unretired_bytes s.reserved_bytes 2378 67108864 (omega arith) k in
    (
      λ e. (
        ground arith,
        ground arith,
        ground arith,
        records.0 (ground arith),
        bytes.0 (ground arith),
      ),
      λ (healthy, unblocked, few, small, short). ground (arith, records.1 small, bytes.1 short),
    )

-- The hysteresis, as one formula: after an update the gate is blocked exactly when the storage is
-- unhealthy, the backlog is at a high watermark, or the gate had seen a backlog before, was blocked
-- and the new one is not below every low watermark.
pub update_backlog_hysteresis :
    (s : SettlementCapacityState) (b : OutboxBacklogSnapshot)
    → (update_backlog s b).high_watermark_blocked ≡ (
        not b.storage_healthy
        || at_high_watermark b
        || (s.initialized && s.high_watermark_blocked && not (below_every_low_watermark b)))
unfolding update_backlog
update_backlog_hysteresis s b = ground arith

-- ===== src/Battle/Time.antt =====
-- The time of a battle: game-server/modules/battle/include/lol/battle/BattleTime.hpp, and what
-- src/domain/BattleInstance.cpp makes of a live clock.
use loot_of_legends_public.Base.{
  ℕ, zero, ◌+◌, ◌-◌, ◌*◌, ◌/◌, ◌%◌, ◌^◌, ◌≤◌, ◌<◌, ◌≡◌, ◌⊎◌, Bool, true, ◌&&◌, ◌||◌, ltb, leb, ◌==◌,
  if◌then◌else◌, ℤ, pos, negsuc, arith,
}

pub record BattleTime : Type 0 where
  pub logical_tick : ℕ
  pub battle_elapsed_nanos : ℕ

abbrev pub tick_hertz : ℕ
tick_hertz = 20

abbrev pub tick_nanos : ℕ
tick_nanos = 50000000

-- The greatest 64-bit number divided by `tick_nanos`.
abbrev pub maximum_tick : ℕ
maximum_tick = 368934881474

unfoldable pub from_logical_tick : ℕ → BattleTime
from_logical_tick tick = record {
  logical_tick = tick;
  battle_elapsed_nanos = tick * tick_nanos % 2 ^ 64;
}

unfoldable pub from_elapsed_nanos : ℕ → BattleTime
from_elapsed_nanos elapsed =
    let whole = elapsed / tick_nanos in
    from_logical_tick (
      if leb maximum_tick whole
      then maximum_tick
      else whole + (if elapsed % tick_nanos == 0 then 0 else 1))

unfoldable pub valid : BattleTime → Bool
valid t =
    leb t.logical_tick maximum_tick
    && t.battle_elapsed_nanos == t.logical_tick * tick_nanos % 2 ^ 64

-- `battleTimeFromLiveClock` of a time point, a signed 64-bit count of nanoseconds. The branch for
-- a wider count than 64 bits is not compiled.
unfoldable pub battle_time_from_live_clock : ℤ → BattleTime
unfolding from_logical_tick
battle_time_from_live_clock (negsuc _) = from_logical_tick 0
battle_time_from_live_clock (pos zero) = from_logical_tick 0
battle_time_from_live_clock (pos count) = from_elapsed_nanos count

unfoldable pub later : BattleTime → BattleTime → Bool
later at t =
    ltb t.logical_tick at.logical_tick
    || at.logical_tick == t.logical_tick && ltb t.battle_elapsed_nanos at.battle_elapsed_nanos

-- `addTicks`, which stops at the greatest 64-bit number.
unfoldable pub add_ticks : ℕ → ℕ → ℕ
add_ticks base duration = if ltb (2 ^ 64 - 1 - duration) base then 2 ^ 64 - 1 else base + duration

-- Every 64-bit count of nanoseconds gives a valid time. Up to the last tick whose nanoseconds have
-- 64 bits it is the first tick that is not before that count; above, it is that last tick.
pub from_elapsed_nanos-valid :
    (n : ℕ)
    → n < 2 ^ 64
    → (valid (from_elapsed_nanos n) ≡ true)
      × ((from_elapsed_nanos n).battle_elapsed_nanos
          ≡ (from_elapsed_nanos n).logical_tick * 50000000)
      × (((n ≤ (from_elapsed_nanos n).battle_elapsed_nanos)
            × ((from_elapsed_nanos n).battle_elapsed_nanos < n + 50000000))
          ⊎ ((368934881474 * 50000000 < n) × ((from_elapsed_nanos n).logical_tick ≡ 368934881474)))
unfolding from_elapsed_nanos valid from_logical_tick
from_elapsed_nanos-valid n h = ground arith

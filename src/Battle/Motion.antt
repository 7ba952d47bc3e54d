-- ===== src/Battle/Motion.antt =====
-- Movement and rate limits of game-server/modules/battle/src/domain/BattleInstance.cpp: the
-- displacement of one tick, the arena's bounds and the token buckets.
pub mod Search
use loot_of_legends_public.Base.{
  ℕ, zero, suc, ◌+◌, ◌-◌, ◌*◌, ◌/◌, ◌%◌, ◌^◌, min, Bool, true, false, not, ◌&&◌, ◌||◌, ltb, leb,
  ◌==◌, if◌then◌else◌, sub32, add64, Option, none, some, ℤ, pos, negsuc,
}
use loot_of_legends_public.Base.Integers.{◌+ℤ◌, neg, magnitude, is_negative}

pub record DirectionIntent : Type 0 where
  pub desired_x : ℤ
  pub desired_y : ℤ
  pub input_flags : ℕ

abbrev pub movement_per_tick : ℕ
movement_per_tick = 250

-- -10000 and 10000 millimetres.
abbrev pub clamp_position : ℤ → ℤ
clamp_position (negsuc n) = if ltb 9999 n then negsuc 9999 else negsuc n
clamp_position (pos n) = if ltb 10000 n then pos 10000 else pos n

unfoldable pub serial_newer : ℕ → ℕ → Bool
serial_newer candidate reference =
    let distance = sub32 candidate reference in not (distance == 0) && ltb distance 0x80000000

-- The loop of `scaledComponent`, with fuel for its iterations.
unfoldable pub search_scale : ℕ → ℕ → ℕ → ℕ → ℕ → ℕ
search_scale zero low high magnitude_squared numerator_squared = low
search_scale (suc fuel) low high magnitude_squared numerator_squared =
    let middle = low + (high - low + 1) / 2 in
    let up = search_scale fuel middle high magnitude_squared numerator_squared in
    let down = search_scale fuel low (middle - 1) magnitude_squared numerator_squared in
    if leb high low
    then low
    else if leb (middle * middle * magnitude_squared) numerator_squared
    then up
    else down

-- From 0 to 250 the loop runs eight times at most.
abbrev pub search_fuel : ℕ
search_fuel = 8

unfoldable pub scaled_component : ℤ → ℕ → ℤ
unfolding search_scale
scaled_component component squared_magnitude =
    if magnitude component == 0 || squared_magnitude == 0
    then pos 0
    else let numerator = magnitude component * movement_per_tick in
      let scaled =
        search_scale search_fuel 0 movement_per_tick squared_magnitude (numerator * numerator) in
      if is_negative component then neg scaled else pos scaled

unfoldable pub tick_delta : DirectionIntent → ℤ × ℤ
tick_delta direction =
    let x = magnitude direction.desired_x in
    let y = magnitude direction.desired_y in
    let squared_magnitude = x * x + y * y in
    (
      scaled_component direction.desired_x squared_magnitude,
      scaled_component direction.desired_y squared_magnitude,
    )

abbrev pub move_by : ℤ → ℤ → ℤ
move_by position delta = clamp_position (position +ℤ delta)

-- A token bucket: when it was last filled, and its credit.
pub record RateLimit : Type 0 where
  pub last_update : Option ℕ
  pub credit_units : ℕ

-- The refill that `acceptMove`, `attack` and `claimLoot` write out, each with its capacity, its
-- units per nanosecond and the nanoseconds of a full refill.
abbrev pub refill_since : ℕ → ℕ → ℕ → Option ℕ → ℕ → ℕ → RateLimit
refill_since capacity rate full none credit now = record {
  last_update = some now;
  credit_units = credit;
}
refill_since capacity rate full (some last) credit now =
    if ltb last now
    then record {
      last_update = some now;
      credit_units = min capacity (add64 credit (min (now - last) full * rate % 2 ^ 64));
    }
    else record { last_update = some last; credit_units = credit }

unfoldable pub refill : ℕ → ℕ → ℕ → RateLimit → ℕ → RateLimit
refill capacity rate full l now = refill_since capacity rate full l.last_update l.credit_units now

abbrev pub rate_token_units : ℕ
rate_token_units = 1000000000

abbrev pub refill_move : RateLimit → ℕ → RateLimit
refill_move = refill 6000000000 30 200000000

abbrev pub refill_attack : RateLimit → ℕ → RateLimit
refill_attack = refill 4000000000 8 500000000

abbrev pub refill_claim : RateLimit → ℕ → RateLimit
refill_claim = refill 4000000000 8 500000000

abbrev pub spend : RateLimit → RateLimit
spend l = record l { credit_units = l.credit_units - rate_token_units }

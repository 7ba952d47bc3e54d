-- ===== src/Rudp/Rtt.antt =====
-- The round-trip estimator: game-server/platform/transport-rudp/src/RttEstimator.cpp.
-- Samples and smoothed values are microseconds, the timeout is milliseconds. A duration is a
-- natural number here: the code refuses a negative sample as it refuses 0.
pub mod Bounds
use loot_of_legends_public.Base.{
  ℕ, ◌+◌, ◌-◌, ◌*◌, ◌/◌, Bool, true, false, ◌||◌, ltb, leb, ◌==◌, if◌then◌else◌, max, add64, List,
  [], ◌∷◌,
}

pub record RttEstimate : Type 0 where
  pub samples : ℕ
  pub srtt : ℕ
  pub rttvar : ℕ
  pub rto : ℕ

-- Milliseconds.
abbrev pub bootstrap_rto : ℕ
bootstrap_rto = 200

abbrev pub minimum_rto : ℕ
minimum_rto = 200

abbrev pub maximum_rto : ℕ
maximum_rto = 1000

abbrev pub expiry : ℕ
expiry = 5000

-- `std::clamp` for a lower bound that is not above the upper one.
abbrev pub clamp : ℕ → ℕ → ℕ → ℕ
clamp x lo hi = if ltb x lo then lo else if ltb hi x then hi else x

-- `std::chrono::ceil<std::chrono::milliseconds>`.
abbrev pub ceil_ms : ℕ → ℕ
ceil_ms us = (us + 999) / 1000

unfoldable pub initial : RttEstimate
initial = record { samples = 0; srtt = 0; rttvar = 0; rto = 200 }

abbrev pub difference : ℕ → ℕ → ℕ
difference srtt sample = if ltb sample srtt then srtt - sample else sample - srtt

-- The new smoothed values; both are read before either is written, as in the code.
pub smooth : RttEstimate → ℕ → RttEstimate
smooth e sample =
    if e.samples == 0 then record e { srtt = sample; rttvar = sample / 2 } else record e {
      srtt = (e.srtt * 7 + sample) / 8;
      rttvar = (e.rttvar * 3 + difference e.srtt sample) / 4;
    }

pub set_rto : RttEstimate → RttEstimate
set_rto e = record e {
  samples = add64 e.samples 1;
  rto = clamp (ceil_ms (e.srtt + max 1000 (e.rttvar * 4))) minimum_rto maximum_rto;
}

unfoldable pub observe : RttEstimate → ℕ → RttEstimate × Bool
unfolding smooth set_rto
observe e sample =
    if sample == 0 || leb (expiry * 1000) sample
    then (e, false)
    else (set_rto (smooth e sample), true)

unfoldable pub observe_all : RttEstimate → List ℕ → RttEstimate
observe_all e [] = e
observe_all e (s ∷ rest) = observe_all (observe e s).0 rest

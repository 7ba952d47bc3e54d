-- ===== src/Rudp/Rtt/Bounds.antt =====
-- What the estimator holds after a history of samples.
use loot_of_legends_public.Base.{
  ℕ, ◌*◌, ◌≤◌, ◌<◌, ◌≡◌, ◌⊎◌, true, false, arith, List, [], ◌∷◌, All, min,
}
use loot_of_legends_public.Rudp.Rtt.{
  RttEstimate, initial, observe, observe_all, minimum_rto, maximum_rto,
}

-- All that holds of an estimate whose samples lay between `lo` and `hi`.
pub record IsWithin (lo hi : ℕ) (e : RttEstimate) : Type 0 where
  pub srtt_low : (e.samples ≡ 0) ⊎ (lo ≤ e.srtt)
  pub srtt_high : e.srtt ≤ hi
  pub rttvar_high : e.rttvar ≤ hi
  pub rto_low : minimum_rto ≤ e.rto
  pub rto_high : e.rto ≤ maximum_rto
  pub rto_covers : min e.srtt 1000000 ≤ e.rto * 1000

pub observe-IsWithin :
    (lo hi : ℕ) (e : RttEstimate) (sample : ℕ)
    → IsWithin lo hi e
    → lo ≤ sample
    → sample ≤ hi
    → IsWithin lo hi (observe e sample).0
unfolding observe
observe-IsWithin lo hi e sample v h k = ground arith

observe_all_from :
    (lo hi : ℕ) (e : RttEstimate) (samples : List ℕ)
    → IsWithin lo hi e
    → All (λ s. (lo ≤ s) × (s ≤ hi)) samples
    → IsWithin lo hi (observe_all e samples)
unfolding observe_all
observe_all_from lo hi e [] v h = v
observe_all_from lo hi e (s ∷ rest) v h =
    observe_all_from lo hi (observe e s).0 rest (observe-IsWithin lo hi e s v h.0.0 h.0.1) h.1

initial-IsWithin : (lo hi : ℕ) → IsWithin lo hi initial
unfolding initial
initial-IsWithin lo hi = ground arith

-- Where every sample lies from `lo` to `hi`, the smoothed round trip lies there too once a sample
-- is taken, its variation is at most `hi`, the timeout lies from 200 ms to 1 s, and it is not
-- below the smoothed round trip unless that is over 1 s.
pub observe_all-IsWithin :
    (lo hi : ℕ) (samples : List ℕ)
    → All (λ s. (lo ≤ s) × (s ≤ hi)) samples
    → IsWithin lo hi (observe_all initial samples)
observe_all-IsWithin lo hi samples h =
    observe_all_from lo hi initial samples (initial-IsWithin lo hi) h

-- A sample of zero, or of five seconds or more, is refused and changes nothing; any other is taken.
pub observe_verdict :
    (e : RttEstimate) (sample : ℕ)
    → (((observe e sample).1 ≡ true) × (0 < sample) × (sample < 5000000))
      ⊎ (((sample ≡ 0) ⊎ (5000000 ≤ sample)) × (observe e sample ≡ (e, false)))
unfolding observe
observe_verdict e sample = ground arith

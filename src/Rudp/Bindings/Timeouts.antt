-- ===== src/Rudp/Bindings/Timeouts.antt =====
-- The round-trip times and the recovery floor of a binding, in RudpBindingRegistry.cpp.
use loot_of_legends_public.Base.{
  ℕ, ◌*◌, Bool, true, false, not, ◌&&◌, ◌||◌, ltb, ◌==◌, if◌then◌else◌, add64, max, min, List,
  Option, none, some, map,
}
use loot_of_legends_public.Base.Maps.{find}
use loot_of_legends_public.Rudp.Rtt.{RttEstimate, observe, minimum_rto, maximum_rto}
use loot_of_legends_public.Rudp.Bindings.{
  RudpBindingRegistry, RudpEndpoint, Binding, Recovery, status, is_current, put_binding,
}

pub record RudpRtoPolicy : Type 0 where
  pub initial_rto : ℕ
  pub recovery_floor : ℕ
  pub revision : ℕ

unfoldable pub policy : Binding → RudpRtoPolicy
policy b = record {
  initial_rto = max b.estimator.rto b.recovery_floor;
  recovery_floor = b.recovery_floor;
  revision = b.recovery_revision;
}

-- The binding of a packet that is current.
unfoldable pub current_binding : RudpBindingRegistry → ℕ → ℕ → ℕ → RudpEndpoint → Option Binding
current_binding r session generation epoch endpoint =
    if is_current (status r session generation epoch endpoint)
    then find session r.bindings
    else none

abbrev pub estimate_of : Option Binding → Option RttEstimate
estimate_of none = none
estimate_of (some b) = some b.estimator

abbrev pub rtt : RudpBindingRegistry → ℕ → ℕ → ℕ → RudpEndpoint → Option RttEstimate
rtt r session generation epoch endpoint =
    estimate_of (current_binding r session generation epoch endpoint)

abbrev pub policy_of : Option Binding → Option RudpRtoPolicy
policy_of none = none
policy_of (some b) = some (policy b)

abbrev pub rto_policy : RudpBindingRegistry → ℕ → ℕ → ℕ → RudpEndpoint → Option RudpRtoPolicy
rto_policy r session generation epoch endpoint =
    policy_of (current_binding r session generation epoch endpoint)

abbrev pub is_revision : Option ℕ → ℕ → Bool
is_revision none revision = false
is_revision (some asked) revision = asked == revision

-- A sample of the revision in force ends the recovery.
abbrev pub ends_recovery : Binding → Option ℕ → Bool
ends_recovery b revision = is_revision revision b.recovery_revision && not (b.recovery_floor == 0)

abbrev pub end_recovery : Binding → Binding
end_recovery b = record b { recovery_floor = 0; recovery_revision = add64 b.recovery_revision 1 }

abbrev pub count_reset : Recovery → Recovery
count_reset c = record c { reset = add64 c.reset 1 }

abbrev pub record_sample :
    RudpBindingRegistry → ℕ → Binding → RttEstimate × Bool → Option ℕ → RudpBindingRegistry × Bool
record_sample r session b (estimate, false) revision = (r, false)
record_sample r session b (estimate, true) revision =
    let measured : Binding = (record b { estimator = estimate }) in
    if ends_recovery b revision
    then (
      record (put_binding r session (end_recovery measured)) { recovery = count_reset r.recovery },
      true,
    )
    else (put_binding r session measured, true)

unfoldable pub record_rtt :
    RudpBindingRegistry → ℕ → ℕ → ℕ → RudpEndpoint → ℕ → Option ℕ → RudpBindingRegistry × Bool
record_rtt r session generation epoch endpoint sample revision =
    elim (current_binding r session generation epoch endpoint) [
      | none ↦ (r, false)
      | some b ↦ record_sample r session b (observe b.estimator sample) revision
    ]

abbrev pub count_stale : RudpBindingRegistry → RudpBindingRegistry
count_stale r =
    let c = r.recovery in
    record r { recovery = record c { stale_timeouts = add64 c.stale_timeouts 1 } }

abbrev pub count_raised : Recovery → ℕ → Recovery
count_raised c floor =
    if floor == 0
    then record c { entered = add64 c.entered 1 }
    else record c { escalated = add64 c.escalated 1 }

abbrev pub raised_floor : ℕ → ℕ → ℕ
raised_floor floor interval = max floor (min (interval * 2) maximum_rto)

abbrev pub raise : Binding → ℕ → Binding
raise b interval = record b {
  recovery_floor = raised_floor b.recovery_floor interval;
  recovery_revision = add64 b.recovery_revision 1;
}

unfoldable pub record_timeout :
    RudpBindingRegistry → ℕ → ℕ → ℕ → RudpEndpoint → ℕ → ℕ → RudpBindingRegistry × Bool
record_timeout r session generation epoch endpoint revision interval =
    elim (current_binding r session generation epoch endpoint) [
      | none ↦ (count_stale r, false)
      | some b ↦
          if not (revision == b.recovery_revision)
          then (count_stale r, false)
          else if ltb interval minimum_rto || ltb maximum_rto interval
          then (r, false)
          else if raised_floor b.recovery_floor interval == b.recovery_floor
          then (r, false)
          else (
            record (put_binding r session (raise b interval)) {
              recovery = count_raised r.recovery b.recovery_floor;
            },
            true,
          )
    ]

-- The counters are the registry's; these are the policies beside them.
abbrev pub recovery_observation : RudpBindingRegistry → Recovery × List RudpRtoPolicy
recovery_observation r = (r.recovery, map (λ e. policy e.1) r.bindings)

abbrev pub rtt_snapshots : RudpBindingRegistry → List RttEstimate
rtt_snapshots r = map (λ e. e.1.estimator) r.bindings

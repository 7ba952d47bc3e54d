-- ===== src/Rudp/Bindings/History.antt =====
-- The registry after any calls, whatever the operating system draws.
use loot_of_legends_public.Base.{
  ℕ, either, ◌^◌, ◌<◌, ◌≤◌, ◌≡◌, refl, not, ◌==◌, leb, List, [], ◌∷◌, Option, none, some, All,
  arith, Bool-cases, inl, inr,
}
use loot_of_legends_public.Base.Maps.{find, All-find}
use loot_of_legends_public.Rudp.Peer
use loot_of_legends_public.Rudp.Peer.Window.{IsValid, observe-IsValid}
use loot_of_legends_public.Rudp.Rtt
use loot_of_legends_public.Rudp.Header.{RudpHeader}
use loot_of_legends_public.Rudp.Bindings.{
  RudpBindingRegistry, RudpEndpoint, Binding, PendingCapability, new_registry, request_capability,
  entropy_attempts, receive, expire_timed_out, next_outbound, invalidate, same_capability,
}
use loot_of_legends_public.Rudp.Bindings.Bind.{
  RudpBindResult, bind, bind_epoch, bind_found, bind_pending, random_epoch, epoch_of, is_hello,
  is_repeated, drop_pending, is_newest,
}
use loot_of_legends_public.Rudp.Bindings.Timeouts.{record_rtt, record_timeout}
use loot_of_legends_public.Rudp.Bindings.Accepted.{draw_epoch_lem}
use loot_of_legends_public.Rudp.Bindings.Invariant.{
  IsSound, AllSound, put-AllSound, request_capability-AllSound, receive-AllSound,
  split_expired-AllSound, next_outbound-AllSound, invalidate-AllSound, record_rtt-AllSound,
  record_timeout-AllSound,
}

-- Every draw is a number of 32 bits.
abbrev pub AreWords : (ℕ → Option ℕ) → Type 0
AreWords random = (i epoch : ℕ) → random i ≡ some epoch → epoch < 2 ^ 32

first-IsValid : (s : ℕ) → s < 2 ^ 32 → IsValid (Peer.observe Peer.initial s).0
unfolding Peer.initial
first-IsValid s small =
    observe-IsValid Peer.initial s
      (record { ack_fits = omega arith; bits_fit = omega arith; starts_empty = λ _. refl }) small

rtt_started : (200 ≤ Rtt.initial.rto) × (Rtt.initial.rto ≤ 1000)
unfolding Rtt.initial
rtt_started = omega arith

bind_epoch-AllSound :
    (r : RudpBindingRegistry) (random : ℕ → Option ℕ) (h : RudpHeader) (capability : List ℕ)
    (endpoint : RudpEndpoint) (now : ℕ) (previous drawn : Option ℕ)
    → random_epoch random previous ≡ drawn
    → AreWords random
    → h.sequence < 2 ^ 32
    → AllSound r.bindings
    → AllSound (bind_epoch r h capability endpoint now drawn).0.bindings
unfolding bind_epoch random_epoch
bind_epoch-AllSound r random h capability endpoint now previous none e words small all = all
bind_epoch-AllSound r random h capability endpoint now previous (some epoch) e words small all =
    let ((i, from), nonzero, _) = draw_epoch_lem random previous entropy_attempts 0 epoch e in
    either P (not (is_newest (Peer.observe Peer.initial h.sequence).1)) _ _ all (λ _.
      put-AllSound r h.session_id _
        (
          (
            (ground (arith, nonzero), words i epoch from),
            (omega arith, omega arith),
            first-IsValid h.sequence small,
          ),
          rtt_started,
          inl refl,
        )
        all)
  where
    P : RudpBindingRegistry × RudpBindResult → Type 0
    P x = AllSound x.0.bindings

bind_pending-AllSound :
    (r : RudpBindingRegistry) (random : ℕ → Option ℕ) (h : RudpHeader) (capability : List ℕ)
    (endpoint : RudpEndpoint) (now : ℕ) (o : Option PendingCapability)
    → AreWords random
    → h.sequence < 2 ^ 32
    → AllSound r.bindings
    → AllSound (bind_pending r random h capability endpoint now o).0.bindings
bind_pending-AllSound r random h capability endpoint now none words small all = all
bind_pending-AllSound r random h capability endpoint now (some p) words small all =
    either P (not (p.session_generation == h.session_generation)) _ _ all (λ _.
      either P (leb p.expires_at now) _ _ all (λ _.
        either P (not (same_capability p.capability capability)) _ _ all (λ _.
          bind_epoch-AllSound (drop_pending r h.session_id) random h capability endpoint now
            (epoch_of (find h.session_id r.bindings)) _ refl words small all)))
  where
    P : RudpBindingRegistry × RudpBindResult → Type 0
    P x = AllSound x.0.bindings

bind_found-AllSound :
    (r : RudpBindingRegistry) (random : ℕ → Option ℕ) (h : RudpHeader) (capability : List ℕ)
    (endpoint : RudpEndpoint) (now : ℕ) (o : Option Binding)
    → find h.session_id r.bindings ≡ o
    → AreWords random
    → h.sequence < 2 ^ 32
    → AllSound r.bindings
    → AllSound (bind_found r random h capability endpoint now o).0.bindings
bind_found-AllSound r random h capability endpoint now none f words small all =
    bind_pending-AllSound r random h capability endpoint now _ words small all
bind_found-AllSound r random h capability endpoint now (some b) f words small all =
    elim (Bool-cases (is_repeated b h capability endpoint)) [
      | inl e ↦
          let v = All-find IsSound h.session_id r.bindings b all f in
          rw (e) (put-AllSound r h.session_id _ v all)
      | inr e ↦ rw (e) (bind_pending-AllSound r random h capability endpoint now _ words small all)
    ]

bind-AllSound :
    (r : RudpBindingRegistry) (random : ℕ → Option ℕ) (h : RudpHeader) (capability : List ℕ)
    (endpoint : RudpEndpoint) (now : ℕ)
    → AreWords random
    → h.sequence < 2 ^ 32
    → AllSound r.bindings
    → AllSound (bind r random h capability endpoint now).0.bindings
unfolding bind
bind-AllSound r random h capability endpoint now words small all =
    elim (Bool-cases (is_hello h endpoint)) [
      | inl e ↦
          rw (bind, e)
            (bind_found-AllSound r random h capability endpoint now _ refl words small all)
      | inr e ↦ rw (bind, e) all
    ]

-- The calls that change the registry, each with what it draws.
pub data Call : Type 0 where
  requests : (ℕ → Option (List ℕ)) → ℕ → ℕ → ℕ → Call
  binds : (ℕ → Option ℕ) → RudpHeader → List ℕ → RudpEndpoint → ℕ → Call
  receives : RudpHeader → RudpEndpoint → ℕ → Call
  samples : ℕ → ℕ → ℕ → RudpEndpoint → ℕ → Option ℕ → Call
  times_out : ℕ → ℕ → ℕ → RudpEndpoint → ℕ → ℕ → Call
  expires : ℕ → Call
  sends : ℕ → Call
  invalidates : ℕ → ℕ → Call

unfoldable pub step : RudpBindingRegistry → Call → RudpBindingRegistry
step r (requests random session generation now) =
    (request_capability r random session generation now).0
step r (binds random h capability endpoint now) = (bind r random h capability endpoint now).0
step r (receives h endpoint now) = (receive r h endpoint now).0
step r (samples session generation epoch endpoint sample revision) =
    (record_rtt r session generation epoch endpoint sample revision).0
step r (times_out session generation epoch endpoint revision interval) =
    (record_timeout r session generation epoch endpoint revision interval).0
step r (expires now) = (expire_timed_out r now).0
step r (sends session) = (next_outbound r session).0
step r (invalidates session generation) = (invalidate r session generation).0

unfoldable pub run : RudpBindingRegistry → List Call → RudpBindingRegistry
unfolding step
run r [] = r
run r (c ∷ cs) = run (step r c) cs

-- Draws and sequence numbers have 32 bits.
abbrev pub IsCall : Call → Type 0
IsCall (binds random h capability endpoint now) = AreWords random × (h.sequence < 2 ^ 32)
IsCall (receives h endpoint now) = h.sequence < 2 ^ 32
IsCall _ = Unit

step-AllSound :
    (r : RudpBindingRegistry) (c : Call)
    → IsCall c
    → AllSound r.bindings
    → AllSound (step r c).bindings
unfolding step expire_timed_out
step-AllSound r (requests random session generation now) ok all =
    request_capability-AllSound r random session generation now all
step-AllSound r (binds random h capability endpoint now) ok all =
    bind-AllSound r random h capability endpoint now ok.0 ok.1 all
step-AllSound r (receives h endpoint now) ok all = receive-AllSound r h endpoint now ok all
step-AllSound r (samples session generation epoch endpoint sample revision) ok all =
    record_rtt-AllSound r session generation epoch endpoint sample revision all
step-AllSound r (times_out session generation epoch endpoint revision interval) ok all =
    record_timeout-AllSound r session generation epoch endpoint revision interval all
step-AllSound r (expires now) ok all = split_expired-AllSound now r.bindings all
step-AllSound r (sends session) ok all = next_outbound-AllSound r session all
step-AllSound r (invalidates session generation) ok all =
    invalidate-AllSound r session generation all

run_from-AllSound :
    (r : RudpBindingRegistry) (calls : List Call)
    → All IsCall calls
    → AllSound r.bindings
    → AllSound (run r calls).bindings
unfolding run
run_from-AllSound r [] ok all = all
run_from-AllSound r (c ∷ cs) ok all =
    run_from-AllSound (step r c) cs ok.1 (step-AllSound r c ok.0 all)

-- Whatever is called on a new registry, in whatever order and whatever is drawn, where draws and
-- sequence numbers have 32 bits: every binding has an epoch and a next outbound sequence number of
-- 32 bits that are not 0 and a valid receive window, its timeout lies from 200 ms to 1 s, and its
-- recovery floor is 0 or lies from 400 ms to 1 s.
pub run-AllSound :
    (calls : List Call) → All IsCall calls → AllSound (run new_registry calls).bindings
unfolding new_registry
run-AllSound calls ok = run_from-AllSound new_registry calls ok tt

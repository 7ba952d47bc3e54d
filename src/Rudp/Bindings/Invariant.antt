-- ===== src/Rudp/Bindings/Invariant.antt =====
-- What holds of every binding of the registry, whatever is called.
use loot_of_legends_public.Base.{
  ℕ, ◌+◌, ◌^◌, ◌≤◌, ◌<◌, ◌≡◌, refl, ◌⊎◌, inl, inr, Bool, true, false, not, ◌||◌, ◌==◌, List, [],
  ◌∷◌, Option, some, All, arith, either, Bool-cases, Option-cases, ltb,
}
use loot_of_legends_public.Base.Maps.{find, All-insert_in_order, All-erase, All-find}
use loot_of_legends_public.Rudp.Peer.Window.{IsValid, observe-IsValid}
use loot_of_legends_public.Rudp.Rtt
use loot_of_legends_public.Rudp.Header.{RudpHeader}
use loot_of_legends_public.Rudp.Bindings.{
  RudpBindingRegistry, RudpEndpoint, Binding, request_capability, draw_capability, entropy_attempts,
  status, is_current, receive, split_expired, next_sequence, next_outbound, put_binding, invalidate,
  is_bound_of,
}
use loot_of_legends_public.Rudp.Bindings.Timeouts.{
  current_binding, record_sample, record_rtt, record_timeout, raise, raised_floor, ends_recovery,
}

abbrev pub IsSerial : ℕ → Type 0
IsSerial n = (0 < n) × (n < 2 ^ 32)

-- Serial numbers of 32 bits that are not 0, a window of the peer, and timeouts up to 1 s.
abbrev pub IsSound : Binding → Type 0
IsSound b =
    (IsSerial b.transport_epoch × IsSerial b.next_outbound_sequence × IsValid b.delivery)
    × ((200 ≤ b.estimator.rto) × (b.estimator.rto ≤ 1000))
    × ((b.recovery_floor ≡ 0) ⊎ ((400 ≤ b.recovery_floor) × (b.recovery_floor ≤ 1000)))

abbrev pub AllSound : List (ℕ × Binding) → Type 0
AllSound m = All (λ e. IsSound e.1) m

pub put-AllSound :
    (r : RudpBindingRegistry) (session : ℕ) (b : Binding)
    → IsSound b
    → AllSound r.bindings
    → AllSound (put_binding r session b).bindings
put-AllSound r session b h all = All-insert_in_order IsSound session b r.bindings h all

next_sequence-IsSerial : (n : ℕ) → IsSerial (next_sequence n)
next_sequence-IsSerial n = ground arith

pub request_capability-AllSound :
    (r : RudpBindingRegistry) (random : ℕ → Option (List ℕ)) (session generation now : ℕ)
    → AllSound r.bindings
    → AllSound (request_capability r random session generation now).0.bindings
unfolding request_capability
request_capability-AllSound r random session generation now all =
    elim (Bool-cases (session == 0 || generation == 0)) [
      | inl e ↦ rw (request_capability, e) all
      | inr e ↦ elim (Option-cases (draw_capability random entropy_attempts 0)) [
        | inl f ↦ rw (request_capability, e, f) all
        | inr (bytes, f) ↦ rw (request_capability, e, f) all
      ]
    ]

pub receive-AllSound :
    (r : RudpBindingRegistry) (h : RudpHeader) (endpoint : RudpEndpoint) (now : ℕ)
    → h.sequence < 2 ^ 32
    → AllSound r.bindings
    → AllSound (receive r h endpoint now).0.bindings
unfolding receive
receive-AllSound r h endpoint now small all =
    elim (Bool-cases
      (not (is_current (status r h.session_id h.session_generation h.transport_epoch endpoint)))) [
        | inl e ↦ rw (receive, e) all
        | inr e ↦ elim (Option-cases (find h.session_id r.bindings)) [
          | inl f ↦ rw (receive, e, f) all
          | inr (b, f) ↦
              let ((epoch, next, delivery), rto, floor) =
                All-find IsSound h.session_id r.bindings b all f in
              rw (receive, e, f)
                (put-AllSound r h.session_id _
                  ((epoch, next, observe-IsValid b.delivery h.sequence delivery small), rto, floor)
                  all)
        ]
      ]

pub split_expired-AllSound :
    (now : ℕ) (m : List (ℕ × Binding)) → AllSound m → AllSound (split_expired now m).0
unfolding split_expired
split_expired-AllSound now [] all = tt
split_expired-AllSound now ((session, b) ∷ rest) all =
    elim (Bool-cases (ltb now (b.last_seen + 5000000000))) [
      | inl e ↦ rw (e) (all.0, split_expired-AllSound now rest all.1)
      | inr e ↦ rw (e) (split_expired-AllSound now rest all.1)
    ]

pub next_outbound-AllSound :
    (r : RudpBindingRegistry) (session : ℕ)
    → AllSound r.bindings
    → AllSound (next_outbound r session).0.bindings
unfolding next_outbound
next_outbound-AllSound r session all = elim (Option-cases (find session r.bindings)) [
  | inl f ↦ rw (next_outbound, f) all
  | inr (b, f) ↦
      let ((epoch, next, delivery), rto, floor) = All-find IsSound session r.bindings b all f in
      rw (next_outbound, f)
        (put-AllSound r session _
          ((epoch, next_sequence-IsSerial b.next_outbound_sequence, delivery), rto, floor) all)
]

pub invalidate-AllSound :
    (r : RudpBindingRegistry) (session generation : ℕ)
    → AllSound r.bindings
    → AllSound (invalidate r session generation).0.bindings
unfolding invalidate
invalidate-AllSound r session generation all =
    elim (Bool-cases (is_bound_of (find session r.bindings) generation)) [
      | inl e ↦ rw (invalidate, e) (All-erase IsSound session r.bindings all)
      | inr e ↦ rw (invalidate, e) all
    ]

raise-IsSound :
    (b : Binding) (interval : ℕ) → 200 ≤ interval → IsSound b → IsSound (raise b interval)
raise-IsSound b interval h (serial, rto, floor) = (serial, rto, ground arith)

observe-rto :
    (e : Rtt.RttEstimate) (sample : ℕ)
    → (200 ≤ e.rto) × (e.rto ≤ 1000)
    → (200 ≤ (Rtt.observe e sample).0.rto) × ((Rtt.observe e sample).0.rto ≤ 1000)
unfolding Rtt.observe
observe-rto e sample h = ground arith

pub record_sample-AllSound :
    (r : RudpBindingRegistry) (session : ℕ) (b : Binding) (x : Rtt.RttEstimate × Bool)
    (revision : Option ℕ)
    → IsSound b
    → (200 ≤ x.0.rto) × (x.0.rto ≤ 1000)
    → AllSound r.bindings
    → AllSound (record_sample r session b x revision).0.bindings
record_sample-AllSound r session b (estimate, false) revision v rto all = all
record_sample-AllSound r session b (estimate, true) revision (serial, _, floor) rto all =
    elim (Bool-cases (ends_recovery b revision)) [
      | inl e ↦ rw (e) (put-AllSound r session _ (serial, rto, inl refl) all)
      | inr e ↦ rw (e) (put-AllSound r session _ (serial, rto, floor) all)
    ]

current_binding-found :
    (r : RudpBindingRegistry) (session generation epoch : ℕ) (endpoint : RudpEndpoint) (b : Binding)
    → current_binding r session generation epoch endpoint ≡ some b
    → find session r.bindings ≡ some b
unfolding current_binding
current_binding-found r session generation epoch endpoint b e =
    elim (Bool-cases (is_current (status r session generation epoch endpoint))) [
      | inl f ↦ ground (arith, f)
      | inr f ↦ absurd (ground (arith, f))
    ]

current-IsSound :
    (r : RudpBindingRegistry) (session generation epoch : ℕ) (endpoint : RudpEndpoint) (b : Binding)
    → AllSound r.bindings
    → current_binding r session generation epoch endpoint ≡ some b
    → IsSound b
current-IsSound r session generation epoch endpoint b all e =
    All-find IsSound session r.bindings b all
      (current_binding-found r session generation epoch endpoint b e)

pub record_rtt-AllSound :
    (r : RudpBindingRegistry) (session generation epoch : ℕ) (endpoint : RudpEndpoint) (sample : ℕ)
    (revision : Option ℕ)
    → AllSound r.bindings
    → AllSound (record_rtt r session generation epoch endpoint sample revision).0.bindings
unfolding record_rtt
record_rtt-AllSound r session generation epoch endpoint sample revision all =
    elim (Option-cases (current_binding r session generation epoch endpoint)) [
      | inl e ↦ rw (record_rtt, e) all
      | inr (b, e) ↦
          let v = current-IsSound r session generation epoch endpoint b all e in
          rw (record_rtt, e)
            (record_sample-AllSound r session b (Rtt.observe b.estimator sample) revision v
              (observe-rto b.estimator sample v.1) all)
    ]

pub record_timeout-AllSound :
    (r : RudpBindingRegistry) (session generation epoch : ℕ) (endpoint : RudpEndpoint)
    (revision interval : ℕ)
    → AllSound r.bindings
    → AllSound (record_timeout r session generation epoch endpoint revision interval).0.bindings
unfolding record_timeout
record_timeout-AllSound r session generation epoch endpoint revision interval all =
    elim (Option-cases (current_binding r session generation epoch endpoint)) [
      | inl e ↦ rw (record_timeout, e) all
      | inr (b, e) ↦
          rw (record_timeout, e)
            (either P (not (revision == b.recovery_revision)) _ _ all (λ _.
              either P (ltb interval 200 || ltb 1000 interval) _ _ all (λ long.
                either P (raised_floor b.recovery_floor interval == b.recovery_floor) _ _ all (λ _.
                  put-AllSound r session _
                    (raise-IsSound b interval (ground (arith, long))
                      (current-IsSound r session generation epoch endpoint b all e))
                    all))))
    ]
  where
    P : RudpBindingRegistry × Bool → Type 0
    P x = AllSound x.0.bindings

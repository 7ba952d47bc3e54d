-- ===== src/Rudp/Bindings.antt =====
-- The bindings of sessions to peers: game-server/platform/transport-rudp/src/RudpBindingRegistry.cpp,
-- with RudpBindingRegistry.hpp. Times are nanoseconds of the steady clock, timeouts milliseconds,
-- samples microseconds; an address is the number that its bytes spell. The operating system's
-- random numbers are a parameter: what it gives at each attempt of a call, if anything. A
-- `std::map` is a list here, in the ascending order of its keys, in which the code lists it.
pub mod Bind
pub mod Timeouts
pub mod Invariant
pub mod Accepted
pub mod History
use loot_of_legends_public.Base.{
  ℕ, zero, suc, ◌+◌, ◌%◌, ◌^◌, bit_or, bit_xor, Bool, true, false, not, ◌&&◌, ◌||◌, ltb, leb, ◌==◌,
  if◌then◌else◌, List, [], ◌∷◌, Option, none, some, length,
}
use loot_of_legends_public.Base.Maps.{find, insert_in_order, erase}
use loot_of_legends_public.Rudp.Peer.{AckState, ReceiveDisposition, observe}
use loot_of_legends_public.Rudp.Peer
use loot_of_legends_public.Rudp.Header.{RudpHeader}
use loot_of_legends_public.Rudp.Rtt.{RttEstimate}

pub record RudpEndpoint : Type 0 where
  pub address : ℕ
  pub port : ℕ
  pub scope_id : ℕ

pub record Binding : Type 0 where
  pub session_generation : ℕ
  pub transport_epoch : ℕ
  pub next_outbound_sequence : ℕ
  pub endpoint : RudpEndpoint
  pub accepted_capability : List ℕ
  pub accepted_hello_sequence : ℕ
  pub accepted_ack : AckState
  pub delivery : AckState
  pub last_seen : ℕ
  pub estimator : RttEstimate
  pub recovery_floor : ℕ
  pub recovery_revision : ℕ

pub record PendingCapability : Type 0 where
  pub session_generation : ℕ
  pub capability : List ℕ
  pub expires_at : ℕ

-- The counters of `RudpRecoveryObservation`.
pub record Recovery : Type 0 where
  pub entered : ℕ
  pub escalated : ℕ
  pub reset : ℕ
  pub stale_timeouts : ℕ

pub record RudpBindingRegistry : Type 0 where
  pub pending_capabilities : List (ℕ × PendingCapability)
  pub bindings : List (ℕ × Binding)
  pub recovery : Recovery

unfoldable pub new_registry : RudpBindingRegistry
new_registry = record {
  pending_capabilities = [];
  bindings = [];
  recovery = record { entered = 0; escalated = 0; reset = 0; stale_timeouts = 0 };
}

pub data RudpPacketStatus : Type 0 where
  current not_bound wrong_generation stale_epoch wrong_endpoint : RudpPacketStatus

abbrev pub entropy_attempts : ℕ
entropy_attempts = 4

-- 15 s and 5 s in nanoseconds.
abbrev pub capability_ttl : ℕ
capability_ttl = 15000000000

abbrev pub confirmed_peer_timeout : ℕ
confirmed_peer_timeout = 5000000000

abbrev pub same_endpoint : RudpEndpoint → RudpEndpoint → Bool
same_endpoint a b = a.address == b.address && a.port == b.port && a.scope_id == b.scope_id

abbrev pub nonzero : List ℕ → Bool
nonzero [] = false
nonzero (x ∷ xs) = not (x == 0) || nonzero xs

-- The loop of `sameCapability`, over two arrays of one length.
abbrev pub difference_of : ℕ → List ℕ → List ℕ → ℕ
difference_of difference (l ∷ ls) (r ∷ rs) = difference_of (bit_or difference (bit_xor l r)) ls rs
difference_of difference _ _ = difference

abbrev pub same_capability : List ℕ → List ℕ → Bool
same_capability left right = difference_of 0 left right == 0

-- The capability of the first attempt that gives one that is not all zeros.
unfoldable pub draw_capability : (ℕ → Option (List ℕ)) → ℕ → ℕ → Option (List ℕ)
draw_capability random zero attempt = none
draw_capability random (suc attempts) attempt =
    let rest = draw_capability random attempts (attempt + 1) in
    elim (random attempt) [ none ↦ none | some bytes ↦ if nonzero bytes then some bytes else rest ]

unfoldable pub request_capability :
    RudpBindingRegistry → (ℕ → Option (List ℕ)) → ℕ → ℕ → ℕ → RudpBindingRegistry × Option (List ℕ)
unfolding draw_capability
request_capability r random session generation now =
    if session == 0 || generation == 0
    then (r, none)
    else elim (draw_capability random entropy_attempts 0) [
      | none ↦ (r, none)
      | some bytes ↦ (
        record r {
          pending_capabilities =
              insert_in_order session
                (record {
                  session_generation = generation;
                  capability = bytes;
                  expires_at = now + capability_ttl;
                })
                r.pending_capabilities;
        },
        some bytes,
      )
    ]

abbrev pub status_of : Option Binding → ℕ → ℕ → RudpEndpoint → RudpPacketStatus
status_of none generation epoch endpoint = not_bound
status_of (some b) generation epoch endpoint =
    if not (b.session_generation == generation)
    then wrong_generation
    else if not (b.transport_epoch == epoch)
    then stale_epoch
    else if not (same_endpoint b.endpoint endpoint)
    then wrong_endpoint
    else current

-- `status` and `statusLocked`.
unfoldable pub status : RudpBindingRegistry → ℕ → ℕ → ℕ → RudpEndpoint → RudpPacketStatus
status r session generation epoch endpoint =
    status_of (find session r.bindings) generation epoch endpoint

abbrev pub is_current : RudpPacketStatus → Bool
is_current current = true
is_current _ = false

pub record RudpReceiveResult : Type 0 where
  pub status : RudpPacketStatus
  pub disposition : Option ReceiveDisposition
  pub ack : AckState

abbrev pub not_received : RudpPacketStatus → RudpReceiveResult
not_received packet_status = record {
  status = packet_status;
  disposition = none;
  ack = Peer.initial;
}

abbrev pub put_binding : RudpBindingRegistry → ℕ → Binding → RudpBindingRegistry
put_binding r session b = record r { bindings = insert_in_order session b r.bindings }

unfoldable pub receive :
    RudpBindingRegistry → RudpHeader → RudpEndpoint → ℕ → RudpBindingRegistry × RudpReceiveResult
receive r h endpoint now =
    let found = status r h.session_id h.session_generation h.transport_epoch endpoint in
    if not (is_current found)
    then (r, not_received found)
    else elim (find h.session_id r.bindings) [
      | none ↦ (r, not_received found)
      | some b ↦
          let (delivery, disposition) = observe b.delivery h.sequence in
          (
            put_binding r h.session_id (record b { last_seen = now; delivery = delivery }),
            record { status = current; disposition = some disposition; ack = delivery },
          )
    ]

pub record ExpiredRudpBinding : Type 0 where
  pub session_id : ℕ
  pub session_generation : ℕ

-- The bindings that stay, and those that have timed out.
unfoldable pub split_expired : ℕ → List (ℕ × Binding) → List (ℕ × Binding) × List ExpiredRudpBinding
split_expired now [] = ([], [])
split_expired now ((session, b) ∷ rest) =
    let (kept, expired) = split_expired now rest in
    if ltb now (b.last_seen + confirmed_peer_timeout) then ((session, b) ∷ kept, expired) else (
      kept,
      record { session_id = session; session_generation = b.session_generation } ∷ expired,
    )

unfoldable pub expire_timed_out :
    RudpBindingRegistry → ℕ → RudpBindingRegistry × List ExpiredRudpBinding
unfolding split_expired
expire_timed_out r now =
    let (kept, expired) = split_expired now r.bindings in (record r { bindings = kept }, expired)

pub record RudpOutboundRoute : Type 0 where
  pub session_id : ℕ
  pub session_generation : ℕ
  pub transport_epoch : ℕ
  pub sequence : ℕ
  pub ack : AckState
  pub endpoint : RudpEndpoint

-- A 32-bit increment that leaves 0 out.
abbrev pub next_sequence : ℕ → ℕ
next_sequence n = if (n + 1) % 2 ^ 32 == 0 then 1 else (n + 1) % 2 ^ 32

unfoldable pub next_outbound :
    RudpBindingRegistry → ℕ → RudpBindingRegistry × Option RudpOutboundRoute
next_outbound r session = elim (find session r.bindings) [
  | none ↦ (r, none)
  | some b ↦ (
    put_binding r session
        (record b { next_outbound_sequence = next_sequence b.next_outbound_sequence }),
    some (record {
      session_id = session;
      session_generation = b.session_generation;
      transport_epoch = b.transport_epoch;
      sequence = b.next_outbound_sequence;
      ack = b.delivery;
      endpoint = b.endpoint;
    }),
  )
]

abbrev pub is_pending_of : Option PendingCapability → ℕ → Bool
is_pending_of none generation = false
is_pending_of (some p) generation = p.session_generation == generation

abbrev pub is_bound_of : Option Binding → ℕ → Bool
is_bound_of none generation = false
is_bound_of (some b) generation = b.session_generation == generation

unfoldable pub invalidate : RudpBindingRegistry → ℕ → ℕ → RudpBindingRegistry × Bool
invalidate r session generation =
    let pending = is_pending_of (find session r.pending_capabilities) generation in
    let bound = is_bound_of (find session r.bindings) generation in
    (
      record r {
        pending_capabilities =
            if pending then erase session r.pending_capabilities else r.pending_capabilities;
        bindings = if bound then erase session r.bindings else r.bindings;
      },
      pending || bound,
    )

abbrev pub bound_count : RudpBindingRegistry → ℕ
bound_count r = length r.bindings

abbrev pub is_bound : RudpBindingRegistry → ℕ → ℕ → Bool
is_bound r session generation = is_bound_of (find session r.bindings) generation

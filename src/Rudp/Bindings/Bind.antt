-- ===== src/Rudp/Bindings/Bind.antt =====
-- `RudpBindingRegistry::bind`. A draw of the operating system is the 32-bit number that its four
-- bytes spell.
use loot_of_legends_public.Base.{
  ℕ, zero, suc, ◌+◌, Bool, true, false, not, ◌&&◌, leb, ◌==◌, if◌then◌else◌, List, Option, none,
  some,
}
use loot_of_legends_public.Base.Maps.{find, erase}
use loot_of_legends_public.Rudp.Peer.{AckState, ReceiveDisposition, newest, observe}
use loot_of_legends_public.Rudp.Peer
use loot_of_legends_public.Rudp.Rtt
use loot_of_legends_public.Rudp.Header.{RudpHeader, RudpFlag, reliable}
use loot_of_legends_public.Rudp.Bindings.{
  RudpBindingRegistry, RudpEndpoint, Binding, PendingCapability, entropy_attempts, same_endpoint,
  same_capability, put_binding,
}

pub data RudpBindStatus : Type 0 where
  accepted invalid_hello capability_missing capability_expired : RudpBindStatus
  capability_mismatch wrong_generation entropy_unavailable : RudpBindStatus

pub record RudpBindResult : Type 0 where
  pub status : RudpBindStatus
  pub transport_epoch : ℕ
  pub sequence : ℕ
  pub ack : AckState

abbrev pub rejected : RudpBindStatus → RudpBindResult
rejected status = record { status = status; transport_epoch = 0; sequence = 0; ack = Peer.initial }

abbrev pub is_previous : ℕ → Option ℕ → Bool
is_previous value none = false
is_previous value (some previous) = value == previous

unfoldable pub draw_epoch : (ℕ → Option ℕ) → Option ℕ → ℕ → ℕ → Option ℕ
draw_epoch random previous zero attempt = none
draw_epoch random previous (suc attempts) attempt =
    let rest = draw_epoch random previous attempts (attempt + 1) in
    elim (random attempt) [
      | none ↦ none
      | some value ↦
          if not (value == 0) && not (is_previous value previous) then some value else rest
    ]

unfoldable pub random_epoch : (ℕ → Option ℕ) → Option ℕ → Option ℕ
unfolding draw_epoch
random_epoch random previous = draw_epoch random previous entropy_attempts 0

abbrev pub epoch_of : Option Binding → Option ℕ
epoch_of none = none
epoch_of (some b) = some b.transport_epoch

abbrev pub is_newest : ReceiveDisposition → Bool
is_newest newest = true
is_newest _ = false

abbrev pub is_reliable : RudpFlag → Bool
is_reliable reliable = true
is_reliable _ = false

abbrev pub is_hello : RudpHeader → RudpEndpoint → Bool
is_hello h endpoint =
    is_reliable h.flag
    && h.message_id == 22
    && h.transport_epoch == 0
    && not (h.session_id == 0)
    && not (h.session_generation == 0)
    && not (h.sequence == 0)
    && not (endpoint.port == 0)

abbrev pub is_repeated : Binding → RudpHeader → List ℕ → RudpEndpoint → Bool
is_repeated b h capability endpoint =
    b.session_generation == h.session_generation
    && same_endpoint b.endpoint endpoint
    && b.accepted_hello_sequence == h.sequence
    && same_capability b.accepted_capability capability

abbrev pub new_binding : RudpHeader → List ℕ → RudpEndpoint → ℕ → ℕ → AckState → Binding
new_binding h capability endpoint now epoch delivery = record {
  session_generation = h.session_generation;
  transport_epoch = epoch;
  next_outbound_sequence = 2;
  endpoint = endpoint;
  accepted_capability = capability;
  accepted_hello_sequence = h.sequence;
  accepted_ack = delivery;
  delivery = delivery;
  last_seen = now;
  estimator = Rtt.initial;
  recovery_floor = 0;
  recovery_revision = 0;
}

-- The binding under a drawn epoch; `r` no longer has the capability.
unfoldable pub bind_epoch :
    RudpBindingRegistry
    → RudpHeader
    → List ℕ
    → RudpEndpoint
    → ℕ
    → Option ℕ
    → RudpBindingRegistry × RudpBindResult
bind_epoch r h capability endpoint now none = (r, rejected entropy_unavailable)
bind_epoch r h capability endpoint now (some epoch) =
    let (delivery, disposition) = observe Peer.initial h.sequence in
    if not (is_newest disposition) then (r, rejected invalid_hello) else (
      put_binding r h.session_id (new_binding h capability endpoint now epoch delivery),
      record { status = accepted; transport_epoch = epoch; sequence = 1; ack = delivery },
    )

abbrev pub drop_pending : RudpBindingRegistry → ℕ → RudpBindingRegistry
drop_pending r session = record r { pending_capabilities = erase session r.pending_capabilities }

abbrev pub bind_pending :
    RudpBindingRegistry
    → (ℕ → Option ℕ)
    → RudpHeader
    → List ℕ
    → RudpEndpoint
    → ℕ
    → Option PendingCapability
    → RudpBindingRegistry × RudpBindResult
bind_pending r random h capability endpoint now none = (r, rejected capability_missing)
bind_pending r random h capability endpoint now (some p) =
    if not (p.session_generation == h.session_generation)
    then (r, rejected wrong_generation)
    else if leb p.expires_at now
    then (drop_pending r h.session_id, rejected capability_expired)
    else if not (same_capability p.capability capability)
    then (r, rejected capability_mismatch)
    else bind_epoch (drop_pending r h.session_id) h capability endpoint now
        (random_epoch random (epoch_of (find h.session_id r.bindings)))

-- A hello that is accepted already is answered as before.
abbrev pub bind_found :
    RudpBindingRegistry
    → (ℕ → Option ℕ)
    → RudpHeader
    → List ℕ
    → RudpEndpoint
    → ℕ
    → Option Binding
    → RudpBindingRegistry × RudpBindResult
bind_found r random h capability endpoint now none =
    bind_pending r random h capability endpoint now (find h.session_id r.pending_capabilities)
bind_found r random h capability endpoint now (some b) =
    let fresh =
      bind_pending r random h capability endpoint now (find h.session_id r.pending_capabilities) in
    if is_repeated b h capability endpoint
    then (
      put_binding r h.session_id (record b { last_seen = now }),
      record {
        status = accepted;
        transport_epoch = b.transport_epoch;
        sequence = 1;
        ack = b.accepted_ack;
      },
    )
    else fresh

unfoldable pub bind :
    RudpBindingRegistry
    → (ℕ → Option ℕ)
    → RudpHeader
    → List ℕ
    → RudpEndpoint
    → ℕ
    → RudpBindingRegistry × RudpBindResult
unfolding bind_epoch random_epoch
bind r random h capability endpoint now =
    if not (is_hello h endpoint)
    then (r, rejected invalid_hello)
    else bind_found r random h capability endpoint now (find h.session_id r.bindings)

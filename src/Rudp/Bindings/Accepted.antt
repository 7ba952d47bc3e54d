-- ===== src/Rudp/Bindings/Accepted.antt =====
-- What an accepted hello has shown.
use loot_of_legends_public.Base.{
  ℕ, suc, zero, ◌+◌, ◌<◌, ◌≡◌, ◌≢◌, ◌⊎◌, inl, inr, refl, true, false, not, ◌==◌, ◌&&◌, List, Option,
  none, some, arith, Bool-cases, Option-cases,
}
use loot_of_legends_public.Base.Maps.{find}
use loot_of_legends_public.Rudp.Peer
use loot_of_legends_public.Rudp.Header.{RudpHeader}
use loot_of_legends_public.Rudp.Bindings.{
  RudpBindingRegistry, RudpEndpoint, Binding, PendingCapability, same_capability, put_binding,
  current, status,
}
use loot_of_legends_public.Rudp.Bindings.Bind.{
  accepted, RudpBindResult, draw_epoch, epoch_of, is_repeated, is_previous, drop_pending,
}

-- A drawn epoch is one of the draws, is not 0, and is not the previous one.
pub draw_epoch_lem :
    (random : ℕ → Option ℕ) (previous : Option ℕ) (attempts attempt epoch : ℕ)
    → draw_epoch random previous attempts attempt ≡ some epoch
    → ((i : ℕ) × (random i ≡ some epoch))
      × ((epoch == 0) ≡ false)
      × (is_previous epoch previous ≡ false)
unfolding draw_epoch
draw_epoch_lem random previous zero attempt epoch e = absurd (ground arith)
draw_epoch_lem random previous (suc attempts) attempt epoch e =
    elim (Option-cases (random attempt)) [
      | inl f ↦ absurd (ground arith)
      | inr (value, f) ↦ elim (Bool-cases (not (value == 0) && not (is_previous value previous))) [
        | inr g ↦ draw_epoch_lem random previous attempts (attempt + 1) epoch (ground arith)
        | inl g ↦
            let same : value ≡ epoch = ground arith in
            rw (← same) ((attempt, f), ground arith, ground arith)
      ]
    ]

bindings_of_pending :
    (r : RudpBindingRegistry) (session : ℕ) → (drop_pending r session).bindings ≡ r.bindings
bindings_of_pending r session = refl

abbrev pub Repeats :
    RudpBindingRegistry
    → RudpHeader
    → List ℕ
    → RudpEndpoint
    → ℕ
    → RudpBindingRegistry × RudpBindResult
    → Type 0
Repeats r h capability endpoint now x =
    (b : Binding) × (find h.session_id r.bindings ≡ some b)
    × (is_repeated b h capability endpoint ≡ true)
    × (x.0 ≡ put_binding r h.session_id (record b { last_seen = now }))
    × (x.1.transport_epoch ≡ b.transport_epoch)

abbrev pub Redeems :
    RudpBindingRegistry
    → RudpHeader
    → List ℕ
    → RudpEndpoint
    → ℕ
    → RudpBindingRegistry × RudpBindResult
    → Type 0
Redeems r h capability endpoint now x =
    ((p : PendingCapability) × (find h.session_id r.pending_capabilities ≡ some p)
      × (p.session_generation ≡ h.session_generation)
      × (now < p.expires_at)
      × (same_capability p.capability capability ≡ true))
    × (find h.session_id x.0.pending_capabilities ≡ none)
    × (x.1.transport_epoch ≢ 0)
    × (is_previous x.1.transport_epoch (epoch_of (find h.session_id r.bindings)) ≡ false)
    × (status x.0 h.session_id h.session_generation x.1.transport_epoch endpoint ≡ current)

abbrev Accepts :
    RudpBindingRegistry
    → RudpHeader
    → List ℕ
    → RudpEndpoint
    → ℕ
    → RudpBindingRegistry × RudpBindResult
    → Type 0
Accepts r h capability endpoint now x =
    x.1.status ≡ accepted
    → Repeats r h capability endpoint now x ⊎ Redeems r h capability endpoint now x

refused :
    (r : RudpBindingRegistry) (h : RudpHeader) (capability : List ℕ) (endpoint : RudpEndpoint)
    (now : ℕ)
    → (x : RudpBindingRegistry × RudpBindResult) → x.1.status ≢ accepted
    → Accepts r h capability endpoint now x
refused r h capability endpoint now x not_accepted bad = absurd (not_accepted bad)

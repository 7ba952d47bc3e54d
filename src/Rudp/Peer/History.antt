-- ===== src/Rudp/Peer/History.antt =====
-- What a peer acknowledges after a whole history of arrivals.
use loot_of_legends_public.Base.{
  ℕ, ◌^◌, ◌<◌, ◌≡◌, Bool, true, false, ◌||◌, ◌==◌, arith, List, [], ◌∷◌, All,
}
use loot_of_legends_public.Rudp.Sequence.{is_sequence_newer}
use loot_of_legends_public.Rudp.Peer.{
  AckState, ReceiveDisposition, duplicate, initial, observe, observe_all, is_acknowledged, fill,
}
use loot_of_legends_public.Rudp.Peer.Window.{IsValid, observe-IsValid, observe-is_acknowledged}

-- A 32-bit sequence number other than the reserved 0.
abbrev pub IsSequence : ℕ → Type 0
IsSequence s = (0 < s) × (s < 2 ^ 32)

pub contains : ℕ → List ℕ → Bool
contains s [] = false
contains s (x ∷ xs) = s == x || contains s xs

initial-IsValid : IsValid initial
unfolding initial
initial-IsValid = ground arith

observe_all-IsValid :
    (p : AckState) (xs : List ℕ) → IsValid p → All IsSequence xs → IsValid (observe_all p xs)
unfolding observe_all
observe_all-IsValid p [] v h = v
observe_all-IsValid p (x ∷ xs) v h =
    observe_all-IsValid (observe p x).0 xs (observe-IsValid p x v h.0.1) h.1

observe_all_sound :
    (p : AckState) (xs : List ℕ) (s : ℕ)
    → IsValid p
    → All IsSequence xs
    → IsSequence s
    → is_acknowledged s (observe_all p xs) ≡ true
    → (is_acknowledged s p || contains s xs) ≡ true
unfolding observe_all contains
observe_all_sound p [] s v h k a = ground arith
observe_all_sound p (x ∷ xs) s v h k a = ground (
  arith,
  observe_all_sound (observe p x).0 xs s (observe-IsValid p x v h.0.1) h.1 k a,
  observe-is_acknowledged p x s v h.0.0 h.0.1 k.0 k.1,
)

initial_acknowledges_none : (s : ℕ) → is_acknowledged s initial ≡ false
unfolding is_acknowledged initial
initial_acknowledges_none s = ground arith

-- A peer acknowledges only what has arrived: whatever the history of nonzero 32-bit numbers from
-- the initial state, in whatever order and with whatever repetitions, a nonzero 32-bit number
-- that is acknowledged is in it.
pub acknowledged_arrived :
    (xs : List ℕ) (s : ℕ)
    → All IsSequence xs
    → IsSequence s
    → is_acknowledged s (observe_all initial xs) ≡ true
    → contains s xs ≡ true
acknowledged_arrived xs s h k a =
    ground
      (arith, observe_all_sound initial xs s initial-IsValid h k a, initial_acknowledges_none s)

abbrev pub is_duplicate : ReceiveDisposition → Bool
is_duplicate duplicate = true
is_duplicate _ = false

-- At a valid peer, the arrival of a nonzero 32-bit number is reported as a duplicate exactly when
-- the number is acknowledged already.
pub observe_duplicate :
    (p : AckState) (q : ℕ)
    → IsValid p
    → IsSequence q
    → is_duplicate (observe p q).1 ≡ is_acknowledged q p
unfolding observe is_acknowledged fill is_sequence_newer
observe_duplicate p q v h = ground arith

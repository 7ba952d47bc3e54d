-- ===== src/Rudp/Peer.antt =====
-- The receiving side of a peer: game-server/platform/transport-rudp/src/RudpPeer.cpp.
-- `ack` is the newest sequence number seen, and digit `i` of `ack_bits` stands for `ack - (i + 1)`.
pub mod Window
pub mod History
use loot_of_legends_public.Base.{
  ℕ, ◌-◌, ◌^◌, Bool, true, false, not, ◌&&◌, ◌||◌, ltb, leb, ◌==◌, if◌then◌else◌, bit_and, bit_or,
  sub32, shl32, List, [], ◌∷◌,
}
use loot_of_legends_public.Rudp.Sequence.{is_sequence_newer}

pub data ReceiveDisposition : Type 0 where
  newest reordered duplicate stale invalid_sequence : ReceiveDisposition

-- `AckState`, which is also the whole state of `RudpPeerDelivery`.
pub record AckState : Type 0 where
  pub ack : ℕ
  pub ack_bits : ℕ

unfoldable pub initial : AckState
initial = record { ack = 0; ack_bits = 0 }

-- `1U << (distance - 1U)`, for a distance from 1 to 32.
abbrev pub distance_bit : ℕ → ℕ
distance_bit distance = 2 ^ (distance - 1)

-- A newer sequence number becomes `ack`, and the window moves.
unfoldable pub advance : AckState → ℕ → ℕ → AckState
advance p sequence distance = record {
  ack = sequence;
  ack_bits =
      if ltb 32 distance
      then 0
      else bit_or (if distance == 32 then 0 else shl32 p.ack_bits distance) (distance_bit distance);
}

-- An older sequence number fills its place in the window, if it still has one.
unfoldable pub fill : AckState → ℕ → AckState × ReceiveDisposition
fill p distance =
    if ltb 32 distance
    then (p, stale)
    else if not (bit_and p.ack_bits (distance_bit distance) == 0)
    then (p, duplicate)
    else (record p { ack_bits = bit_or p.ack_bits (distance_bit distance) }, reordered)

unfoldable pub observe : AckState → ℕ → AckState × ReceiveDisposition
observe p sequence =
    if sequence == 0
    then (p, invalid_sequence)
    else if p.ack == 0
    then (record p { ack = sequence }, newest)
    else if sequence == p.ack
    then (p, duplicate)
    else if is_sequence_newer sequence p.ack
    then (advance p sequence (sub32 sequence p.ack), newest)
    else fill p (sub32 p.ack sequence)

unfoldable pub is_acknowledged : ℕ → AckState → Bool
is_acknowledged sequence state =
    if sequence == 0 || state.ack == 0
    then false
    else if sequence == state.ack
    then true
    else if is_sequence_newer sequence state.ack
    then false
    else let distance = sub32 state.ack sequence in
      leb 1 distance && leb distance 32 && not (bit_and state.ack_bits (distance_bit distance) == 0)

-- The state after a history of arrivals, oldest first.
unfoldable pub observe_all : AckState → List ℕ → AckState
observe_all p [] = p
observe_all p (s ∷ rest) = observe_all (observe p s).0 rest

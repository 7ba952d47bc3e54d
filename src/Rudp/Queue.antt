-- ===== src/Rudp/Queue.antt =====
-- The sending side of a peer: game-server/platform/transport-rudp/src/ReliableQueue.cpp.
-- A time point is a number of nanoseconds. A difference of two points is used only in `>=` against
-- a positive bound, or as a sample that is refused at 0 and below, so it may stop at 0.
pub mod Acknowledge
pub mod Invariant
pub mod PollKeeps
pub mod AcknowledgeKeeps
pub mod EnqueueKeeps
pub mod Run
pub mod Poll
pub mod Selection
use loot_of_legends_public.Base.{
  ℕ, ◌+◌, ◌-◌, ◌*◌, ◌/◌, Bool, true, false, not, ◌&&◌, ◌||◌, ltb, leb, ◌==◌, if◌then◌else◌, min,
  add64, sub64, List, [], ◌∷◌, ◌++◌, Option, none, some, length,
}
use loot_of_legends_public.Rudp.Peer.{AckState, is_acknowledged}
use loot_of_legends_public.Rudp.Rtt.{bootstrap_rto, minimum_rto, maximum_rto, clamp}

pub data ReliableLane : Type 0 where
  application control : ReliableLane

pub data ReliableQueueAdmission : Type 0 where
  accepted invalid_sequence invalid_datagram duplicate_sequence : ReliableQueueAdmission
  application_limit_reached entry_limit_reached byte_limit_reached : ReliableQueueAdmission

pub record Entry : Type 0 where
  pub sequence : ℕ
  pub lane : ReliableLane
  pub datagram : List ℕ
  pub queued_at : ℕ
  pub next_transmission_at : ℕ
  pub last_transmission_at : ℕ
  pub first_successful_send : Option ℕ
  pub last_successful_send : Option ℕ
  pub retry_delay : ℕ
  pub transmissions : ℕ
  pub recorded_attempt : ℕ
  pub revision : ℕ

pub record ReliableQueue : Type 0 where
  pub entries : List Entry
  pub application_entries : ℕ
  pub bytes : ℕ

abbrev pub maximum_entries : ℕ
maximum_entries = 256

abbrev pub maximum_application_entries : ℕ
maximum_application_entries = 224

abbrev pub maximum_bytes : ℕ
maximum_bytes = 262144

abbrev pub maximum_datagram_bytes : ℕ
maximum_datagram_bytes = 1200

abbrev pub maximum_transmissions : ℕ
maximum_transmissions = 5

-- `RttEstimator::kExpiry` in nanoseconds, and a millisecond.
abbrev pub expiry_ns : ℕ
expiry_ns = 5000000000

abbrev pub ms : ℕ
ms = 1000000

unfoldable pub empty_queue : ReliableQueue
empty_queue = record { entries = []; application_entries = 0; bytes = 0 }

unfoldable pub contains : ℕ → List Entry → Bool
contains sequence [] = false
contains sequence (e ∷ es) = e.sequence == sequence || contains sequence es

abbrev pub is_application : ReliableLane → Bool
is_application application = true
is_application control = false

pub new_entry : ℕ → List ℕ → ReliableLane → ℕ → Entry
new_entry sequence datagram lane now = record {
  sequence = sequence;
  lane = lane;
  datagram = datagram;
  queued_at = now;
  next_transmission_at = now;
  last_transmission_at = now;
  first_successful_send = none;
  last_successful_send = none;
  retry_delay = bootstrap_rto;
  transmissions = 0;
  recorded_attempt = 0;
  revision = 0;
}

unfoldable pub enqueue :
    ReliableQueue → ℕ → List ℕ → ReliableLane → ℕ → ReliableQueue × ReliableQueueAdmission
unfolding new_entry
enqueue q sequence datagram lane now =
    if sequence == 0
    then (q, invalid_sequence)
    else if length datagram == 0 || ltb maximum_datagram_bytes (length datagram)
    then (q, invalid_datagram)
    else if contains sequence q.entries
    then (q, duplicate_sequence)
    else if is_application lane && leb maximum_application_entries q.application_entries
    then (q, application_limit_reached)
    else if leb maximum_entries (length q.entries)
    then (q, entry_limit_reached)
    else if ltb (sub64 maximum_bytes q.bytes) (length datagram)
    then (q, byte_limit_reached)
    else (
      record {
        entries = q.entries ++ new_entry sequence datagram lane now ∷ [];
        application_entries =
            if is_application lane then add64 q.application_entries 1 else q.application_entries;
        bytes = add64 q.bytes (length datagram);
      },
      accepted,
    )

-- What both loops do when they erase an entry.
abbrev pub drop_lane : Entry → ℕ → ℕ
drop_lane e count = if is_application e.lane then sub64 count 1 else count

abbrev pub drop_bytes : Entry → ℕ → ℕ
drop_bytes e bytes = sub64 bytes (length e.datagram)

pub record ReliableTransmission : Type 0 where
  pub sequence : ℕ
  pub attempt : ℕ
  pub datagram : List ℕ

pub record Timeout : Type 0 where
  pub revision : ℕ
  pub interval : ℕ

pub record ReliablePollResult : Type 0 where
  pub transmissions : List ReliableTransmission
  pub expired_sequences : List ℕ
  pub timeouts : List Timeout

abbrev pub is_expired : ℕ → Entry → Bool
is_expired now e = leb expiry_ns (now - e.queued_at)

abbrev pub is_due : ℕ → Entry → Bool
is_due now e = ltb e.transmissions maximum_transmissions && leb e.next_transmission_at now

-- The last attempt was recorded as sent, after it was handed out.
abbrev pub is_confirmed : Entry → Bool
is_confirmed e =
    e.recorded_attempt == e.transmissions
    && elim e.last_successful_send [ none ↦ false | some t ↦ leb e.last_transmission_at t ]

-- The timeout that a retransmission reports, before the entry changes.
pub timeout_of : Entry → List Timeout
timeout_of e =
    if e.transmissions == 0
    then []
    else if is_confirmed e
    then record {
      revision = e.revision;
      interval = (e.next_transmission_at - e.last_transmission_at) / ms;
    }
      ∷ []
    else []

abbrev pub start : ℕ → ℕ → Entry → Entry
start initial_rto revision e =
    if e.transmissions == 0
    then record e { revision = revision; retry_delay = clamp initial_rto minimum_rto maximum_rto }
    else e

-- One due entry after its transmission. `transmissions` is below 5 here, so it does not wrap.
pub transmit : ℕ → ℕ → ℕ → Entry → Entry
transmit now initial_rto revision e =
    let s = start initial_rto revision e in
    let t = record s { last_transmission_at = now; transmissions = s.transmissions + 1 } in
    if ltb t.transmissions maximum_transmissions
    then record t {
      next_transmission_at = now + t.retry_delay * ms;
      retry_delay = min (t.retry_delay * 2) maximum_rto;
    }
    else t

abbrev pub transmission_of : Entry → ReliableTransmission
transmission_of e = record {
  sequence = e.sequence;
  attempt = e.transmissions;
  datagram = e.datagram;
}

abbrev pub hold : Entry → ReliableQueue × ReliablePollResult → ReliableQueue × ReliablePollResult
hold e (q, r) = (record q { entries = e ∷ q.entries }, r)

abbrev pub expire : Entry → ReliableQueue × ReliablePollResult → ReliableQueue × ReliablePollResult
expire e (q, r) = (q, record r { expired_sequences = e.sequence ∷ r.expired_sequences })

abbrev pub send :
    Entry → Entry → ReliableQueue × ReliablePollResult → ReliableQueue × ReliablePollResult
send old e (q, r) = (
  record q { entries = e ∷ q.entries },
  record r {
    transmissions = transmission_of e ∷ r.transmissions;
    timeouts = timeout_of old ++ r.timeouts;
  },
)

-- The loop of `poll`, over the entries left; the counters are those of the queue so far.
pub poll_loop : ℕ → ℕ → ℕ → List Entry → ℕ → ℕ → ReliableQueue × ReliablePollResult
poll_loop now rto revision [] lanes bytes = (
  record { entries = []; application_entries = lanes; bytes = bytes },
  record { transmissions = []; expired_sequences = []; timeouts = [] },
)
poll_loop now rto revision (e ∷ es) lanes bytes =
    let rest =
      poll_loop now rto revision es (if is_expired now e then drop_lane e lanes else lanes)
        (if is_expired now e then drop_bytes e bytes else bytes) in
    if is_expired now e
    then expire e rest
    else if is_due now e
    then send e (transmit now rto revision e) rest
    else hold e rest

unfoldable pub poll : ReliableQueue → ℕ → ℕ → ℕ → ReliableQueue × ReliablePollResult
unfolding poll_loop transmit timeout_of
poll q now initial_rto revision =
    poll_loop now initial_rto revision q.entries q.application_entries q.bytes

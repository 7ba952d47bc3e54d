-- ===== src/Rudp/Queue/Acknowledge.antt =====
-- `acknowledge`, `discardAcknowledged`, `recordSend` and the read-only operations of ReliableQueue.cpp.
use loot_of_legends_public.Base.{
  ℕ, ◌+◌, ◌-◌, ◌/◌, Bool, true, false, not, ◌&&◌, ◌||◌, ltb, ◌==◌, if◌then◌else◌, List, [], ◌∷◌,
  Option, none, some,
}
use loot_of_legends_public.Rudp.Peer.{AckState, is_acknowledged}
use loot_of_legends_public.Rudp.Queue.{
  Entry, ReliableQueue, is_expired, drop_lane, drop_bytes, maximum_transmissions, ms,
}

-- The sample is in microseconds. The counters are at most the number of entries.
pub record ReliableAckResult : Type 0 where
  pub removed : ℕ
  pub sample : Option ℕ
  pub sample_revision : ℕ
  pub retransmitted : ℕ
  pub send_unconfirmed : ℕ
  pub nonpositive : ℕ
  pub expired : ℕ
  pub coalesced : ℕ

-- What the loop carries: the counters of the queue, the result and `selectedSentAt`.
pub record Progress : Type 0 where
  pub lanes : ℕ
  pub bytes : ℕ
  pub result : ReliableAckResult
  pub selected : Option ℕ

abbrev pub no_result : ReliableAckResult
no_result = record {
  removed = 0;
  sample = none;
  sample_revision = 0;
  retransmitted = 0;
  send_unconfirmed = 0;
  nonpositive = 0;
  expired = 0;
  coalesced = 0;
}

-- The entry was transmitted, and the acknowledgement names it.
abbrev pub is_removed : AckState → Entry → Bool
is_removed ack e = not (e.transmissions == 0 || not (is_acknowledged e.sequence ack))

-- `!selectedSentAt || *entry->firstSuccessfulSend > *selectedSentAt`.
abbrev pub is_later : ℕ → Option ℕ → Bool
is_later sent_at none = true
is_later sent_at (some selected) = ltb selected sent_at

abbrev pub is_some {ℓ} : {A : Type ℓ} → Option A → Bool
is_some none = false
is_some (some _) = true

-- A positive sample: the one sent last is kept.
unfoldable pub select : ℕ → ℕ → Entry → Progress → Progress
select sample sent_at e p =
    let counted : ReliableAckResult =
      (if is_some p.selected
        then record (p.result) { coalesced = p.result.coalesced + 1 }
        else p.result) in
    if is_later sent_at p.selected
    then record p {
      selected = some sent_at;
      result = record counted { sample = some sample; sample_revision = e.revision };
    }
    else record p { result = counted }

abbrev pub measure_sent : ℕ → Option ℕ → Entry → Progress → Progress
measure_sent received none e p = record p {
  result = record (p.result) { send_unconfirmed = p.result.send_unconfirmed + 1 };
}
measure_sent received (some sent_at) e p =
    if (received - sent_at) / 1000 == 0
    then record p { result = record (p.result) { nonpositive = p.result.nonpositive + 1 } }
    else select ((received - sent_at) / 1000) sent_at e p

-- The body under `if (receivedAt)`.
abbrev pub measure : Option ℕ → Entry → Progress → Progress
measure none e p = p
measure (some received) e p =
    if is_expired received e
    then record p { result = record (p.result) { expired = p.result.expired + 1 } }
    else if not (e.transmissions == 1)
    then record p { result = record (p.result) { retransmitted = p.result.retransmitted + 1 } }
    else measure_sent received e.first_successful_send e p

abbrev pub erase : Entry → Progress → Progress
erase e p = record p {
  lanes = drop_lane e p.lanes;
  bytes = drop_bytes e p.bytes;
  result = record (p.result) { removed = p.result.removed + 1 };
}

unfoldable pub remove_loop : AckState → Option ℕ → List Entry → Progress → List Entry × Progress
remove_loop ack received [] p = ([], p)
remove_loop ack received (e ∷ es) p =
    let (kept, final) =
      remove_loop ack received es
        (if is_removed ack e then erase e (measure received e p) else p) in
    (if is_removed ack e then kept else e ∷ kept, final)

unfoldable pub finish : List Entry × Progress → ReliableQueue × ReliableAckResult
finish (kept, p) =
    (record { entries = kept; application_entries = p.lanes; bytes = p.bytes }, p.result)

abbrev pub first_progress : ReliableQueue → Progress
first_progress q = record {
  lanes = q.application_entries;
  bytes = q.bytes;
  result = no_result;
  selected = none;
}

unfoldable pub remove_acknowledged :
    ReliableQueue → AckState → Option ℕ → ReliableQueue × ReliableAckResult
unfolding remove_loop finish select
remove_acknowledged q ack received = finish (remove_loop ack received q.entries (first_progress q))

abbrev pub acknowledge : ReliableQueue → AckState → ℕ → ReliableQueue × ReliableAckResult
acknowledge q ack received = remove_acknowledged q ack (some received)

abbrev pub discard_acknowledged : ReliableQueue → AckState → ReliableQueue × ℕ
discard_acknowledged q ack =
    let (q', result) = remove_acknowledged q ack none in (q', result.removed)

-- The conditions of `recordSend` on the entry that it found.
abbrev pub is_refused : ℕ → ℕ → Entry → Bool
is_refused attempt sent_at e =
    attempt == 0
    || not (e.transmissions == attempt)
    || e.recorded_attempt == attempt
    || ltb sent_at e.last_transmission_at
    || is_expired sent_at e

unfoldable pub recorded : ℕ → ℕ → Bool → Entry → Entry
recorded attempt sent_at succeeded e =
    let marked = record e { recorded_attempt = attempt } in
    if succeeded
    then record marked {
      first_successful_send = if attempt == 1 then some sent_at else marked.first_successful_send;
      last_successful_send = some sent_at;
    }
    else marked

-- The first entry of that number is the one that `std::ranges::find` gives.
unfoldable pub record_entries : ℕ → ℕ → ℕ → Bool → List Entry → List Entry × Bool
record_entries sequence attempt sent_at succeeded [] = ([], false)
record_entries sequence attempt sent_at succeeded (e ∷ es) =
    let (rest, done) = record_entries sequence attempt sent_at succeeded es in
    if e.sequence == sequence
    then (if is_refused attempt sent_at e
        then (e ∷ es, false)
        else (recorded attempt sent_at succeeded e ∷ es, true))
    else (e ∷ rest, done)

unfoldable pub record_send : ReliableQueue → ℕ → ℕ → ℕ → Bool → ReliableQueue × Bool
unfolding record_entries recorded
record_send q sequence attempt sent_at succeeded =
    let (entries, done) = record_entries sequence attempt sent_at succeeded q.entries in
    (record q { entries = entries }, done)

-- Milliseconds between the last transmission of each entry that has attempts left and its next.
unfoldable pub effective_rtos : List Entry → List ℕ
effective_rtos [] = []
effective_rtos (e ∷ es) =
    if ltb 0 e.transmissions && ltb e.transmissions maximum_transmissions
    then (e.next_transmission_at - e.last_transmission_at) / ms ∷ effective_rtos es
    else effective_rtos es

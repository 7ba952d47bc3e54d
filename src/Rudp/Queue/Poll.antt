-- ===== src/Rudp/Queue/Poll.antt =====
-- `poll` of ReliableQueue.cpp against a description of it by filters.
use loot_of_legends_public.Base.{
  ℕ, ◌+◌, ◌-◌, ◌*◌, ◌/◌, ◌≤◌, ◌<◌, ◌≡◌, ◌⊎◌, ◌++◌, ◌==◌, some, Option-cases, ◌&&◌, leb, max, min,
  refl, Bool, true, false, not, if◌then◌else◌, List, [], ◌∷◌, map, All, arith, keep_if, Bool-cases,
  inl, inr,
}
use loot_of_legends_public.Rudp.Queue.{
  Entry, ReliableQueue, ReliablePollResult, poll, poll_loop, is_expired, is_due, transmit,
  transmission_of, drop_lane, drop_bytes, Timeout, timeout_of, expire, send, hold,
}
use loot_of_legends_public.Rudp.Queue.Invariant.{IsEntry, IsValid}

-- An entry after a poll at `now` that did not expire it.
abbrev pub after : ℕ → ℕ → ℕ → Entry → Entry
after now rto revision e = if is_due now e then transmit now rto revision e else e

abbrev pub is_live : ℕ → Entry → Bool
is_live now e = not (is_expired now e)

module _ (now rto revision : ℕ) where
  poll_loop_effects :
      (es : List Entry) (n c : ℕ)
      → let (q, r) = poll_loop now rto revision es n c in
        (q.entries ≡ map (after now rto revision) (keep_if (is_live now) es))
        × (r.expired_sequences ≡ map (λ e. e.sequence) (keep_if (is_expired now) es))
        × (r.transmissions
            ≡ map
                (λ e. transmission_of (transmit now rto revision e))
                (keep_if (is_due now) (keep_if (is_live now) es)))
  unfolding poll_loop
  poll_loop_effects [] n c = (refl, refl, refl)
  poll_loop_effects (e ∷ es) n c = elim (Bool-cases (is_expired now e)) [
    | inl x ↦ rw x (ground (arith, poll_loop_effects es (drop_lane e n) (drop_bytes e c)))
    | inr x ↦ rw x (ground (arith, poll_loop_effects es n c))
  ]

  after_quiet :
      (e : Entry)
      → IsEntry e
      → is_live now e ≡ true
      → (is_due now (after now rto revision e) ≡ false)
        × (is_expired now (after now rto revision e) ≡ false)
  unfolding transmit
  after_quiet e v l = ground arith

-- The delay of an entry in milliseconds before its next attempt, and the revision it is under: a
-- first attempt takes both from the poll, the delay within 200 ms and 1 s.
abbrev pub delay_of : ℕ → Entry → ℕ
delay_of rto e = if e.transmissions == 0 then max 200 (min rto 1000) else e.retry_delay

abbrev pub revision_of : ℕ → Entry → ℕ
revision_of revision e = if e.transmissions == 0 then revision else e.revision

-- `e` is attempted once more: a fifth attempt has no time for a next one, any other has it after the
-- delay, which doubles up to 1 s.
abbrev pub attempted : ℕ → ℕ → ℕ → Entry → Entry
attempted now rto revision e = record {
  sequence = e.sequence;
  lane = e.lane;
  datagram = e.datagram;
  queued_at = e.queued_at;
  next_transmission_at =
      if e.transmissions == 4 then e.next_transmission_at else now + delay_of rto e * 1000000;
  last_transmission_at = now;
  first_successful_send = e.first_successful_send;
  last_successful_send = e.last_successful_send;
  retry_delay = if e.transmissions == 4 then delay_of rto e else min (delay_of rto e * 2) 1000;
  transmissions = e.transmissions + 1;
  recorded_attempt = e.recorded_attempt;
  revision = revision_of revision e;
}

-- The attempt before, which is recorded as sent no earlier than it was made, has timed out.
abbrev pub ConfirmedAt : Entry → ℕ → Type 0
ConfirmedAt e sent_at =
    (0 < e.transmissions)
    × (e.recorded_attempt ≡ e.transmissions)
    × (e.last_successful_send ≡ some sent_at)
    × (e.last_transmission_at ≤ sent_at)

abbrev pub Reports : Entry → List Timeout → Type 0
Reports e reported =
    (((sent_at : ℕ) × ConfirmedAt e sent_at)
      × (reported
          ≡ record {
            revision = e.revision;
            interval = (e.next_transmission_at - e.last_transmission_at) / 1000000;
          }
            ∷ []))
    ⊎ (((sent_at : ℕ) → ¬ ConfirmedAt e sent_at) × (reported ≡ []))

-- A poll at `now` of a list of entries: the entries it keeps, and what it reports.
pub data Polls (now rto revision : ℕ) : List Entry → List Entry → ReliablePollResult → Type 0 where
  done :
      Polls now rto revision [] []
        (record { transmissions = []; expired_sequences = []; timeouts = [] })
  expires :
      {es kept : List Entry} {r : ReliablePollResult} (e : Entry)
      → 5000000000 ≤ now - e.queued_at
      → Polls now rto revision es kept r
      → Polls now rto revision
          (e ∷ es)
          kept
          (record r { expired_sequences = e.sequence ∷ r.expired_sequences })
  sends :
      {es kept : List Entry} {r : ReliablePollResult} (e : Entry) (reported : List Timeout)
      → now - e.queued_at < 5000000000
      → e.transmissions < 5
      → e.next_transmission_at ≤ now
      → Reports e reported
      → Polls now rto revision es kept r
      → Polls now rto revision (e ∷ es) (attempted now rto revision e ∷ kept) (record r {
        transmissions =
            record { sequence = e.sequence; attempt = e.transmissions + 1; datagram = e.datagram }
            ∷ r.transmissions;
        timeouts = reported ++ r.timeouts;
      })
  waits :
      {es kept : List Entry} {r : ReliablePollResult} (e : Entry)
      → now - e.queued_at < 5000000000
      → (5 ≤ e.transmissions) ⊎ (now < e.next_transmission_at)
      → Polls now rto revision es kept r
      → Polls now rto revision (e ∷ es) (e ∷ kept) r

transmit-attempted :
    (now rto revision : ℕ) (e : Entry)
    → e.transmissions < 5
    → transmit now rto revision e ≡ attempted now rto revision e
unfolding transmit
transmit-attempted now rto revision e h = ground arith

timeout_of-Reports : (e : Entry) → Reports e (timeout_of e)
unfolding timeout_of
timeout_of-Reports e = elim (Option-cases e.last_successful_send) [
  | inl unsent ↦ inr ((λ t c. absurd (ground arith)), ground (arith, unsent))
  | inr (t, sent) ↦
      elim (Bool-cases (
        not (e.transmissions == 0)
        && e.recorded_attempt == e.transmissions
        && leb e.last_transmission_at t)) [
          | inl confirmed ↦ inl (
            (
              t,
              (
                ground (arith, confirmed),
                ground (arith, confirmed),
                sent,
                ground (arith, confirmed),
              ),
            ),
            ground (arith, sent, confirmed),
          )
          | inr missed ↦
              inr ((λ u c. absurd (ground (arith, sent, missed))), ground (arith, sent, missed))
        ]
]

module _ (now rto revision : ℕ) where
  -- One round of the loop, over what the rest of it gives.
  step-Polls :
      (e : Entry) (es kept : List Entry) (lanes bytes : ℕ) (r : ReliablePollResult)
      → Polls now rto revision es kept r
      → let rest : ReliableQueue × ReliablePollResult =
          (record { entries = kept; application_entries = lanes; bytes = bytes }, r) in
        let (q', r') =
          if is_expired now e
          then expire e rest
          else if is_due now e
          then send e (transmit now rto revision e) rest
          else hold e rest in
        Polls now rto revision (e ∷ es) q'.entries r'
  step-Polls e es kept lanes bytes r h = elim (Bool-cases (is_expired now e)) [
    | inl old ↦ rw old (expires e (ground arith) h)
    | inr young ↦ elim (Bool-cases (is_due now e)) [
      | inr wait ↦ rw (young, wait) (waits e (ground arith) (ground arith) h)
      | inl due ↦
          rw (young, due, transmit-attempted now rto revision e (ground arith))
            (sends e (timeout_of e) (ground arith) (ground arith) (ground arith)
              (timeout_of-Reports e) h)
    ]
  ]

  poll_loop-Polls :
      (es : List Entry) (n c : ℕ)
      → let (q, r) = poll_loop now rto revision es n c in Polls now rto revision es q.entries r
  unfolding poll_loop
  poll_loop-Polls [] n c = done
  poll_loop-Polls (e ∷ es) n c =
      let m = if is_expired now e then drop_lane e n else n in
      let d = if is_expired now e then drop_bytes e c else c in
      let (q, r) = poll_loop now rto revision es m d in
      step-Polls e es q.entries q.application_entries q.bytes r (poll_loop-Polls es m d)

-- What a poll keeps and reports, entry by entry in the order of the queue. An entry that is 5 s old
-- or more is dropped and its number reported. Any other is sent when it has fewer than 5 attempts
-- and is due: the report has its number, the new attempt's number and its datagram, and the entry
-- counts that attempt, made at `now`; a first attempt takes its delay, within 200 ms and 1 s, and its
-- revision from the poll; every attempt but the fifth sets the time of the next, after the delay,
-- which then doubles up to 1 s. Where the attempt before was confirmed as sent, its revision and the
-- time between its two dates are reported as a time-out, and else none is. The other entries stay
-- as they are.
pub poll_effects :
    (now rto revision : ℕ) (q : ReliableQueue)
    → let (q', r) = poll q now rto revision in Polls now rto revision q.entries q'.entries r
unfolding poll
poll_effects now rto revision q =
    poll_loop-Polls now rto revision q.entries q.application_entries q.bytes

abbrev pub IsQuiet : ReliablePollResult → Type 0
IsQuiet r = (r.transmissions ≡ []) × (r.expired_sequences ≡ []) × (r.timeouts ≡ [])

module _ (now rto revision rto' revision' : ℕ) where
  poll_loop-IsQuiet :
      (es : List Entry) (n c : ℕ)
      → All IsEntry es
      → IsQuiet
          (poll_loop now rto' revision'
            (map (after now rto revision) (keep_if (is_live now) es))
            n
            c).1
  unfolding poll_loop
  poll_loop-IsQuiet [] n c h = (refl, refl, refl)
  poll_loop-IsQuiet (e ∷ es) n c h =
      ground (arith, poll_loop-IsQuiet es n c h.1, after_quiet now rto revision e h.0)

  -- A second poll at the same instant as a poll of a valid queue sends, expires and reports
  -- nothing.
  pub poll_again-IsQuiet :
      (q : ReliableQueue)
      → IsValid q
      → IsQuiet (poll (poll q now rto revision).0 now rto' revision').1
  unfolding poll
  poll_again-IsQuiet q v =
      let (entries, expired, sent) =
        poll_loop_effects now rto revision q.entries q.application_entries q.bytes in
      rw entries (poll_loop-IsQuiet q.entries _ _ v.each)

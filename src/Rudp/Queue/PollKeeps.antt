-- ===== src/Rudp/Queue/PollKeeps.antt =====
-- `poll` of ReliableQueue.cpp keeps the queue valid.
use loot_of_legends_public.Base.{
  ℕ, ◌+◌, ◌-◌, ◌^◌, ◌<◌, ◌≡◌, refl, true, false, List, [], ◌∷◌, All, arith, Bool-cases, inl, inr,
}
use loot_of_legends_public.Rudp.Queue.{
  Entry, ReliableQueue, contains, poll, poll_loop, is_expired, is_due, transmit, drop_lane,
  drop_bytes,
}
use loot_of_legends_public.Rudp.Queue.Invariant.{
  IsEntry, IsValid, IsDistinct, Counted, lanes, size_of, shrink-IsValid,
}

pub transmit-IsEntry :
    (now rto revision : ℕ) (e : Entry)
    → IsEntry e
    → is_due now e ≡ true
    → IsEntry (transmit now rto revision e)
unfolding transmit
transmit-IsEntry now rto revision e v h = ground arith

pub transmit_fields :
    (now rto revision : ℕ) (e : Entry)
    → let t = transmit now rto revision e in
      (t.sequence ≡ e.sequence) × (t.lane ≡ e.lane) × (t.datagram ≡ e.datagram)
unfolding transmit
transmit_fields now rto revision e = ground arith

module _ (now rto revision : ℕ) where
  poll_loop-Counted :
      (es : List Entry) (k b n c : ℕ)
      → n ≡ k + lanes es
      → c ≡ b + size_of es
      → n < 2 ^ 64
      → c < 2 ^ 64
      → Counted k b es (poll_loop now rto revision es n c).0
  unfolding poll_loop
  poll_loop-Counted [] k b n c hn hc ln lc = ground arith
  poll_loop-Counted (e ∷ es) k b n c hn hc ln lc = elim (Bool-cases (is_expired now e)) [
    | inl x ↦ rw x (ground (arith, poll_loop-Counted es k b (drop_lane e n) (drop_bytes e c)))
    | inr x ↦ rw x (
        ground (
          arith,
          poll_loop-Counted es (n - lanes es) (c - size_of es) n c,
          transmit_fields now rto revision e,
        ))
  ]

  poll_loop-contains :
      (s : ℕ) (es : List Entry) (n c : ℕ)
      → contains s es ≡ false
      → contains s (poll_loop now rto revision es n c).0.entries ≡ false
  unfolding poll_loop contains
  poll_loop-contains s [] n c h = refl
  poll_loop-contains s (e ∷ es) n c h = elim (Bool-cases (is_expired now e)) [
    | inl x ↦ rw x (ground (arith, poll_loop-contains s es (drop_lane e n) (drop_bytes e c)))
    | inr x ↦ rw x (ground (arith, poll_loop-contains s es n c, transmit_fields now rto revision e))
  ]

  poll_loop-entries :
      (es : List Entry) (n c : ℕ)
      → All IsEntry es
      → IsDistinct es
      → All IsEntry (poll_loop now rto revision es n c).0.entries
        × IsDistinct (poll_loop now rto revision es n c).0.entries
  unfolding poll_loop contains
  poll_loop-entries [] n c h d = (tt, tt)
  poll_loop-entries (e ∷ es) n c h d = elim (Bool-cases (is_expired now e)) [
    | inl x ↦ rw x (poll_loop-entries es (drop_lane e n) (drop_bytes e c) h.1 d.1)
    | inr x ↦ rw x (
        ground (
          arith,
          poll_loop-entries es n c h.1 d.1,
          poll_loop-contains e.sequence es n c d.0,
          transmit_fields now rto revision e,
          transmit-IsEntry now rto revision e h.0,
        ))
  ]

pub poll-IsValid :
    (q : ReliableQueue) (now rto revision : ℕ) → IsValid q → IsValid (poll q now rto revision).0
unfolding poll
poll-IsValid q now rto revision v =
    shrink-IsValid q _ v
      (poll_loop-Counted now rto revision q.entries 0 0 q.application_entries q.bytes (omega arith)
        (omega arith) (omega arith) (omega arith))
      (poll_loop-entries now rto revision q.entries q.application_entries q.bytes v.each v.distinct)

-- ===== src/Rudp/Queue/Run.antt =====
-- Any history of calls on a ReliableQueue.
use loot_of_legends_public.Base.{
  ◌≤◌, All, arith, Bool-cases, inl, inr, ltb, ◌&&◌, ℕ, Bool, List, [], ◌∷◌, none, some,
}
use loot_of_legends_public.Rudp.Peer.{AckState}
use loot_of_legends_public.Rudp.Queue.{
  Entry, maximum_transmissions, ReliableQueue, ReliableLane, enqueue, poll, empty_queue,
}
use loot_of_legends_public.Rudp.Queue.Acknowledge.{
  effective_rtos, acknowledge, discard_acknowledged, record_send,
}
use loot_of_legends_public.Rudp.Queue.Invariant.{IsValid, IsEntry, empty-IsValid}
use loot_of_legends_public.Rudp.Queue.PollKeeps.{poll-IsValid}
use loot_of_legends_public.Rudp.Queue.AcknowledgeKeeps.{
  remove_acknowledged-IsValid, record_send-IsValid,
}
use loot_of_legends_public.Rudp.Queue.EnqueueKeeps.{enqueue-IsValid}

-- The calls that change a queue.
pub data Call : Type 0 where
  enqueues : ℕ → List ℕ → ReliableLane → ℕ → Call
  polls : ℕ → ℕ → ℕ → Call
  records : ℕ → ℕ → ℕ → Bool → Call
  acknowledges : AckState → ℕ → Call
  discards : AckState → Call

pub step : ReliableQueue → Call → ReliableQueue
step q (enqueues sequence datagram lane now) = (enqueue q sequence datagram lane now).0
step q (polls now rto revision) = (poll q now rto revision).0
step q (records sequence attempt at succeeded) = (record_send q sequence attempt at succeeded).0
step q (acknowledges ack received) = (acknowledge q ack received).0
step q (discards ack) = (discard_acknowledged q ack).0

pub run : ReliableQueue → List Call → ReliableQueue
run q [] = q
run q (c ∷ cs) = run (step q c) cs

pub step-IsValid : (q : ReliableQueue) (c : Call) → IsValid q → IsValid (step q c)
unfolding step
step-IsValid q (enqueues sequence datagram lane now) v =
    enqueue-IsValid q sequence datagram lane now v
step-IsValid q (polls now rto revision) v = poll-IsValid q now rto revision v
step-IsValid q (records sequence attempt at b) v = record_send-IsValid q sequence attempt at b v
step-IsValid q (acknowledges ack received) v = remove_acknowledged-IsValid q ack (some received) v
step-IsValid q (discards ack) v = remove_acknowledged-IsValid q ack none v

run_from-IsValid : (q : ReliableQueue) (cs : List Call) → IsValid q → IsValid (run q cs)
unfolding run
run_from-IsValid q [] v = v
run_from-IsValid q (c ∷ cs) v = run_from-IsValid (step q c) cs (step-IsValid q c v)

-- After any calls on an empty queue, the numbers of its entries differ, its counters of entries on
-- the application lane and of bytes are exact and never wrapped, at most 256 entries, 224 on the
-- application lane and 262144 bytes are held, and every entry has a nonzero number, 1 to 1200
-- bytes, at most 5 transmissions, a retry delay from 200 ms to 1 s, and, between its first and its
-- last transmission, at least 200 ms from one transmission to the next.
pub run_empty-IsValid : (cs : List Call) → IsValid (run empty_queue cs)
run_empty-IsValid cs = run_from-IsValid empty_queue cs empty-IsValid

effective_rtos_low : (es : List Entry) → All IsEntry es → All (λ rto. 200 ≤ rto) (effective_rtos es)
unfolding effective_rtos
effective_rtos_low [] v = tt
effective_rtos_low (e ∷ es) (h, v) =
    elim (Bool-cases (ltb 0 e.transmissions && ltb e.transmissions maximum_transmissions)) [
      | inl x ↦ rw (x, effective_rtos) (ground (arith, h.spaced), effective_rtos_low es v)
      | inr x ↦ rw (x, effective_rtos) (effective_rtos_low es v)
    ]

-- After any calls on a new queue, every retransmission timeout that it reports in force is at least
-- 200 ms.
run-effective_rtos :
    (calls : List Call) → All (λ rto. 200 ≤ rto) (effective_rtos (run empty_queue calls).entries)
run-effective_rtos calls = effective_rtos_low _ (run_empty-IsValid calls).each

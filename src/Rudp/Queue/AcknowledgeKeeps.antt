-- ===== src/Rudp/Queue/AcknowledgeKeeps.antt =====
-- `acknowledge`, `discardAcknowledged` and `recordSend` of ReliableQueue.cpp keep the queue valid.
use loot_of_legends_public.Base.{
  ℕ, ◌+◌, ◌-◌, ◌^◌, ◌<◌, ◌≡◌, refl, Bool, false, if◌then◌else◌, List, [], ◌∷◌, Option, length, All,
  arith, Bool-cases, inl, inr,
}
use loot_of_legends_public.Rudp.Peer.{AckState}
use loot_of_legends_public.Rudp.Queue.{Entry, ReliableQueue, contains}
use loot_of_legends_public.Rudp.Queue.Acknowledge.{
  remove_acknowledged, remove_loop, record_send, record_entries, recorded, Progress, is_removed,
  measure, select, erase, first_progress,
}
use loot_of_legends_public.Rudp.Queue.Invariant.{
  IsEntry, IsValid, IsDistinct, Counted, lanes, size_of, shrink-IsValid,
}

-- Measuring a sample leaves the counters of the queue alone.
measure_counters :
    (received : Option ℕ) (e : Entry) (p : Progress)
    → ((measure received e p).lanes ≡ p.lanes) × ((measure received e p).bytes ≡ p.bytes)
unfolding select
measure_counters received e p = ground arith

module _ (ack : AckState) (received : Option ℕ) where
  abbrev left : List Entry → Progress → ReliableQueue
  left es p =
      let (kept, final) = remove_loop ack received es p in
      record { entries = kept; application_entries = final.lanes; bytes = final.bytes }

  remove_loop-Counted :
      (es : List Entry) (k b : ℕ) (p : Progress)
      → p.lanes ≡ k + lanes es
      → p.bytes ≡ b + size_of es
      → p.lanes < 2 ^ 64
      → p.bytes < 2 ^ 64
      → Counted k b es (left es p)
  unfolding remove_loop
  remove_loop-Counted [] k b p hn hc ln lc = ground arith
  remove_loop-Counted (e ∷ es) k b p hn hc ln lc = elim (Bool-cases (is_removed ack e)) [
    | inl x ↦ rw x (
        ground (
          arith,
          remove_loop-Counted es k b (erase e (measure received e p)),
          measure_counters received e p,
        ))
    | inr x ↦
        rw x (ground (arith, remove_loop-Counted es (p.lanes - lanes es) (p.bytes - size_of es) p))
  ]

  remove_loop-contains :
      (s : ℕ) (es : List Entry) (p : Progress)
      → contains s es ≡ false
      → contains s (remove_loop ack received es p).0 ≡ false
  unfolding remove_loop contains
  remove_loop-contains s [] p h = refl
  remove_loop-contains s (e ∷ es) p h =
      let p' = (if is_removed ack e then erase e (measure received e p) else p) in
      ground (arith, remove_loop-contains s es p')

  remove_loop-entries :
      (es : List Entry) (p : Progress)
      → All IsEntry es
      → IsDistinct es
      → All IsEntry (remove_loop ack received es p).0 × IsDistinct (remove_loop ack received es p).0
  unfolding remove_loop
  remove_loop-entries [] p h d = (tt, tt)
  remove_loop-entries (e ∷ es) p h d =
      let p' = (if is_removed ack e then erase e (measure received e p) else p) in
      ground (arith, remove_loop-entries es p' h.1 d.1, remove_loop-contains e.sequence es p' d.0)

pub remove_acknowledged-IsValid :
    (q : ReliableQueue) (ack : AckState) (received : Option ℕ)
    → IsValid q
    → IsValid (remove_acknowledged q ack received).0
unfolding remove_acknowledged
remove_acknowledged-IsValid q ack received v =
    shrink-IsValid q _ v
      (remove_loop-Counted ack received q.entries 0 0 (first_progress q) (omega arith) (omega arith)
        (omega arith) (omega arith))
      (remove_loop-entries ack received q.entries (first_progress q) v.each v.distinct)

recorded-IsEntry :
    (attempt sent_at : ℕ) (b : Bool) (e : Entry)
    → IsEntry e
    → IsEntry (recorded attempt sent_at b e)
unfolding recorded
recorded-IsEntry attempt sent_at b e v = ground arith

module _ (sequence attempt sent_at : ℕ) (succeeded : Bool) where
  abbrev noted : List Entry → List Entry
  noted es = (record_entries sequence attempt sent_at succeeded es).0

  recorded_fields :
      (e : Entry)
      → let t = recorded attempt sent_at succeeded e in
        (t.sequence ≡ e.sequence) × (t.lane ≡ e.lane) × (t.datagram ≡ e.datagram)
  unfolding recorded
  recorded_fields e = ground arith

  record_entries-counts :
      (es : List Entry)
      → (lanes (noted es) ≡ lanes es)
        × (size_of (noted es) ≡ size_of es)
        × (length (noted es) ≡ length es)
  unfolding record_entries
  record_entries-counts [] = (refl, refl, refl)
  record_entries-counts (e ∷ es) = ground (arith, record_entries-counts es, recorded_fields e)

  record_entries-contains : (s : ℕ) (es : List Entry) → contains s (noted es) ≡ contains s es
  unfolding record_entries contains
  record_entries-contains s [] = refl
  record_entries-contains s (e ∷ es) =
      ground (arith, record_entries-contains s es, recorded_fields e)

  record_entries-entries :
      (es : List Entry)
      → All IsEntry es
      → IsDistinct es
      → All IsEntry (noted es) × IsDistinct (noted es)
  unfolding record_entries
  record_entries-entries [] h d = (tt, tt)
  record_entries-entries (e ∷ es) h d = ground (
    arith,
    record_entries-entries es h.1 d.1,
    record_entries-contains e.sequence es,
    recorded_fields e,
    recorded-IsEntry attempt sent_at succeeded e h.0,
  )

pub record_send-IsValid :
    (q : ReliableQueue) (sequence attempt sent_at : ℕ) (b : Bool)
    → IsValid q
    → IsValid (record_send q sequence attempt sent_at b).0
unfolding record_send
record_send-IsValid q sequence attempt sent_at b v =
    let (counted, sized, kept) = record_entries-counts sequence attempt sent_at b q.entries in
    shrink-IsValid q _ v (omega arith, omega arith, omega arith, omega arith, omega arith)
      (record_entries-entries sequence attempt sent_at b q.entries v.each v.distinct)

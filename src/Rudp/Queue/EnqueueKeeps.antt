-- ===== src/Rudp/Queue/EnqueueKeeps.antt =====
-- `enqueue` of ReliableQueue.cpp keeps the queue valid.
use loot_of_legends_public.Base.{
  ℕ, ◌+◌, ◌≡◌, refl, false, ◌||◌, ◌==◌, List, [], ◌∷◌, ◌++◌, length, length-append, All-append,
  arith,
}
use loot_of_legends_public.Rudp.Queue.{
  Entry, ReliableQueue, ReliableLane, contains, enqueue, new_entry,
}
use loot_of_legends_public.Rudp.Queue.Invariant.{IsEntry, IsValid, IsDistinct, lanes, size_of}

contains-append :
    (s : ℕ) (es : List Entry) (e : Entry)
    → contains s (es ++ e ∷ []) ≡ (contains s es || e.sequence == s)
unfolding contains
contains-append s [] e = ground arith
contains-append s (x ∷ es) e = ground (arith, contains-append s es e)

append-IsDistinct :
    (es : List Entry) (e : Entry)
    → contains e.sequence es ≡ false
    → IsDistinct es
    → IsDistinct (es ++ e ∷ [])
unfolding contains
append-IsDistinct [] e h d = (refl, tt)
append-IsDistinct (x ∷ es) e h d =
    ground (arith, append-IsDistinct es e, contains-append x.sequence es e, d.1)

append_counts :
    (es : List Entry) (e : Entry)
    → (lanes (es ++ e ∷ []) ≡ lanes es + lanes (e ∷ []))
      × (size_of (es ++ e ∷ []) ≡ size_of es + length e.datagram)
append_counts [] e = ground arith
append_counts (x ∷ es) e = ground (arith, append_counts es e)

pub enqueue-IsValid :
    (q : ReliableQueue) (sequence : ℕ) (datagram : List ℕ) (lane : ReliableLane) (now : ℕ)
    → IsValid q
    → IsValid (enqueue q sequence datagram lane now).0
unfolding enqueue
enqueue-IsValid q sequence datagram lane now v =
    let e = new_entry sequence datagram lane now in
    ground (
      arith,
      append-IsDistinct q.entries e,
      append_counts q.entries e,
      length-append q.entries (e ∷ []),
      All-append IsEntry q.entries (e ∷ []) v.each,
    )

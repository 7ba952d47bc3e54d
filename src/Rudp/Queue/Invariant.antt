-- ===== src/Rudp/Queue/Invariant.antt =====
-- What holds of a queue between two calls.
use loot_of_legends_public.Base.{
  ℕ, suc, ◌+◌, ◌*◌, ◌≤◌, ◌<◌, ◌≡◌, false, if◌then◌else◌, List, [], ◌∷◌, length, All, arith,
}
use loot_of_legends_public.Rudp.Queue.{
  Entry, ReliableQueue, is_application, contains, empty_queue, ms,
}

-- An entry by itself: its number, its size, its attempts and its back-off.
pub record IsEntry (e : Entry) : Type 0 where
  pub numbered : 0 < e.sequence
  pub nonempty : 0 < length e.datagram
  pub small : length e.datagram ≤ 1200
  pub attempts : e.transmissions ≤ 5
  pub delay_low : 200 ≤ e.retry_delay
  pub delay_high : e.retry_delay ≤ 1000
  pub spaced :
      0 < e.transmissions
      → e.transmissions < 5
      → e.last_transmission_at + 200 * ms ≤ e.next_transmission_at

abbrev pub lanes : List Entry → ℕ
lanes [] = 0
lanes (e ∷ es) = if is_application e.lane then suc (lanes es) else lanes es

abbrev pub size_of : List Entry → ℕ
size_of [] = 0
size_of (e ∷ es) = length e.datagram + size_of es

-- No two entries have one sequence number.
abbrev pub IsDistinct : List Entry → Type 0
IsDistinct [] = Unit {0}
IsDistinct (e ∷ es) = (contains e.sequence es ≡ false) × IsDistinct es

pub record IsValid (q : ReliableQueue) : Type 0 where
  pub each : All IsEntry q.entries
  pub distinct : IsDistinct q.entries
  pub lanes_counted : q.application_entries ≡ lanes q.entries
  pub bytes_counted : q.bytes ≡ size_of q.entries
  pub entries_bounded : length q.entries ≤ 256
  pub lanes_bounded : q.application_entries ≤ 224
  pub bytes_bounded : q.bytes ≤ 262144

pub empty-IsValid : IsValid empty_queue
unfolding empty_queue
empty-IsValid = ground arith

-- A loop that drops or changes entries keeps the counters exact. `k` and `b` are what the entries
-- before these ones hold.
abbrev pub Counted : ℕ → ℕ → List Entry → ReliableQueue → Type 0
Counted k b es q =
    (q.application_entries ≡ k + lanes q.entries)
    × (q.bytes ≡ b + size_of q.entries)
    × (lanes q.entries ≤ lanes es)
    × (size_of q.entries ≤ size_of es)
    × (length q.entries ≤ length es)

-- Entries that were dropped or changed, with exact counters, leave a valid queue.
pub shrink-IsValid :
    (q r : ReliableQueue)
    → IsValid q
    → Counted 0 0 q.entries r
    → All IsEntry r.entries × IsDistinct r.entries
    → IsValid r
shrink-IsValid q r v c h = record {
  each = h.0;
  distinct = h.1;
  lanes_counted = omega arith;
  bytes_counted = omega arith;
  entries_bounded = omega arith;
  lanes_bounded = omega arith;
  bytes_bounded = omega arith;
}

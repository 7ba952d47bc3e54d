-- ===== src/Rudp/Queue/Selection.antt =====
-- Which entries an acknowledgement removes, and which of them gives the round-trip sample.
use loot_of_legends_public.Base.{
  ℕ, suc, ◌+◌, ◌-◌, ◌/◌, ◌<◌, ◌≡◌, refl, ap, true, false, not, List, [], ◌∷◌, Option, none, some,
  length, arith, keep_if, Bool-cases, inl, inr, ◌⊎◌, ◌==◌,
}
use loot_of_legends_public.Rudp.Peer.{AckState, is_acknowledged}
use loot_of_legends_public.Rudp.Queue.{Entry, ReliableQueue, is_expired}
use loot_of_legends_public.Rudp.Queue.Acknowledge.{
  Progress, remove_acknowledged, acknowledge, remove_loop, is_removed, measure, measure_sent,
  is_later, select, erase, first_progress,
}

-- The number of entries taken and left.
removed-measure :
    (received : Option ℕ) (e : Entry) (p : Progress)
    → (measure received e p).result.removed ≡ p.result.removed
unfolding select
removed-measure received e p = ground arith

module _ (ack : AckState) (received : Option ℕ) where
  remove_loop_effects :
      (es : List Entry) (p : Progress)
      → let (kept, final) = remove_loop ack received es p in
        (kept ≡ keep_if (λ e. not (is_removed ack e)) es)
        × (final.result.removed + length kept ≡ p.result.removed + length es)
  unfolding remove_loop
  remove_loop_effects [] p = (refl, omega arith)
  remove_loop_effects (e ∷ es) p = elim (Bool-cases (is_removed ack e)) [
    | inl x ↦ rw x (
        ground (
          arith,
          remove_loop_effects es (erase e (measure received e p)),
          removed-measure received e p,
        ))
    | inr x ↦ rw x (ground (arith, remove_loop_effects es p))
  ]

-- What is left of a list of entries by an acknowledgement, and the number of entries it takes.
pub data Removes (ack : AckState) : List Entry → List Entry → ℕ → Type 0 where
  done : Removes ack [] [] 0
  removes :
      {es kept : List Entry} {n : ℕ} (e : Entry)
      → 0 < e.transmissions
      → is_acknowledged e.sequence ack ≡ true
      → Removes ack es kept n
      → Removes ack (e ∷ es) kept (suc n)
  keeps :
      {es kept : List Entry} {n : ℕ} (e : Entry)
      → (e.transmissions ≡ 0) ⊎ (is_acknowledged e.sequence ack ≡ false)
      → Removes ack es kept n
      → Removes ack (e ∷ es) (e ∷ kept) n

keep_if-Removes :
    (ack : AckState) (es : List Entry)
    → (n : ℕ) × (n + length (keep_if (λ e. not (is_removed ack e)) es) ≡ length es)
      × Removes ack es (keep_if (λ e. not (is_removed ack e)) es) n
keep_if-Removes ack [] = (0, refl, done)
keep_if-Removes ack (e ∷ es) =
    let (n, counted, removed) = keep_if-Removes ack es in
    elim (Bool-cases (is_removed ack e)) [
      | inl x ↦ rw x (suc n, omega arith, removes e (ground arith) (ground arith) removed)
      | inr x ↦ rw x (n, omega arith, keeps e (ground arith) removed)
    ]

same-Removes :
    (ack : AckState) (es kept kept' : List Entry) (n n' : ℕ)
    → Removes ack es kept n
    → kept' ≡ kept
    → n' ≡ n
    → Removes ack es kept' n'
same-Removes ack es kept kept' n n' h same counted = rw (same, counted) h

-- An acknowledgement removes exactly the entries that were transmitted and whose number it
-- acknowledges, keeps the others in order and unchanged, and reports how many it removed.
pub remove_acknowledged_effects :
    (ack : AckState) (received : Option ℕ) (q : ReliableQueue)
    → let (q', r) = remove_acknowledged q ack received in Removes ack q.entries q'.entries r.removed
unfolding remove_acknowledged
remove_acknowledged_effects ack received q =
    let (kept, counted) = remove_loop_effects ack received q.entries (first_progress q) in
    let (n, total, removed) = keep_if-Removes ack q.entries in
    let same : (remove_acknowledged q ack received).1.removed ≡ n =
      omega (arith, counted, total, ap length kept) in
    same-Removes ack q.entries _ _ n _ removed kept same

-- An entry that may give a sample: acknowledged, transmitted once, sent, and not expired.
abbrev pub Samples : AckState → ℕ → ℕ → Entry → Type 0
Samples ack received sample e =
    (is_acknowledged e.sequence ack ≡ true)
    × (e.transmissions ≡ 1)
    × (is_expired received e ≡ false)
    × ((sent_at : ℕ) × (e.first_successful_send ≡ some sent_at)
        × (sample ≡ (received - sent_at) / 1000)
        × (0 < sample))

abbrev pub Any : (Entry → Type 0) → List Entry → Type 0
Any P [] = ⊥
Any P (e ∷ es) = P e ⊎ Any P es

abbrev Sent : ℕ → ℕ → Option ℕ → Type 0
Sent received sample o =
    (sent_at : ℕ) × (o ≡ some sent_at) × (sample ≡ (received - sent_at) / 1000) × (0 < sample)

measure_sent_sample :
    (received : ℕ) (o : Option ℕ) (e : Entry) (p : Progress) (sample : ℕ)
    → (measure_sent received o e p).result.sample ≡ some sample
    → (p.result.sample ≡ some sample) ⊎ Sent received sample o
unfolding select
measure_sent_sample received none e p sample k = inl k
measure_sent_sample received (some t) e p sample k =
    elim (Bool-cases ((received - t) / 1000 == 0)) [
      | inl x ↦ inl (ground arith)
      | inr x ↦ elim (Bool-cases (is_later t p.selected)) [
        | inl y ↦ inr (t, refl, ground arith, ground arith)
        | inr y ↦ inl (ground arith)
      ]
    ]

measure_sample :
    (ack : AckState) (received : ℕ) (e : Entry) (p : Progress) (sample : ℕ)
    → is_removed ack e ≡ true
    → (erase e (measure (some received) e p)).result.sample ≡ some sample
    → (p.result.sample ≡ some sample) ⊎ Samples ack received sample e
measure_sample ack received e p sample h k = elim (Bool-cases (is_expired received e)) [
  | inl x ↦ inl (ground arith)
  | inr x ↦ elim (Bool-cases (e.transmissions == 1)) [
    | inl y ↦
        elim (measure_sent_sample received e.first_successful_send e p sample (ground arith)) [
          | inl z ↦ inl z
          | inr z ↦ inr (ground arith, ground arith, x, z)
        ]
    | inr y ↦ inl (ground arith)
  ]
]

module _ (ack : AckState) (received sample : ℕ) where
  remove_loop_sample :
      (es : List Entry) (p : Progress)
      → (remove_loop ack (some received) es p).1.result.sample ≡ some sample
      → (p.result.sample ≡ some sample) ⊎ Any (Samples ack received sample) es
  unfolding remove_loop
  remove_loop_sample [] p k = inl k
  remove_loop_sample (e ∷ es) p k = elim (Bool-cases (is_removed ack e)) [
    | inl x ↦ elim (remove_loop_sample es (erase e (measure (some received) e p)) (rw x at k)) [
      | inl y ↦ elim (measure_sample ack received e p sample x y) [
        | inl z ↦ inl z
        | inr z ↦ inr (inl z)
      ]
      | inr y ↦ inr (inr y)
    ]
    | inr x ↦ elim (remove_loop_sample es p (rw x at k)) [ inl y ↦ inl y | inr y ↦ inr (inr y) ]
  ]

  -- A round-trip sample comes only from an entry of the queue that the acknowledgement names, that
  -- was transmitted exactly once and that is less than 5 s old; it is the positive time from that
  -- entry's confirmed first send to the arrival. So no retransmitted entry is ever measured.
  pub acknowledge_sample :
      (q : ReliableQueue)
      → (acknowledge q ack received).1.sample ≡ some sample
      → Any (Samples ack received sample) q.entries
  unfolding remove_acknowledged
  acknowledge_sample q k = elim (remove_loop_sample q.entries (first_progress q) k) [
    | inl x ↦ cc
    | inr x ↦ x
  ]

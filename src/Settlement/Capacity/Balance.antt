-- ===== src/Settlement/Capacity/Balance.antt =====
-- The counters of SettlementCapacityGate.cpp against the reservation objects in use.
use loot_of_legends_public.Base.{
  ℕ, suc, zero, ◌+◌, ◌*◌, ◌≤◌, ◌≡◌, refl, true, false, not, arith, Bool-cases, Option-cases, inl,
  inr, ◌==◌, ◌||◌, if◌then◌else◌, List, [], ◌∷◌, ◌++◌, some, All, All-append,
}
use loot_of_legends_public.Settlement.Capacity.{
  OutboxBacklogSnapshot, SettlementCapacityReservation, moved_from, update_backlog, try_reserve,
  release, initial_state,
}
use loot_of_legends_public.Settlement.Capacity.System.{
  System, Action, updates, reserves, releases, move_constructs, move_assigns, lookup, put, act,
  act_all, release_at, construct_from, move_from, assign_from,
}

-- How many objects are `valid()`.
pub count : List SettlementCapacityReservation → ℕ
count [] = 0
count (h ∷ hs) = if h.active then suc (count hs) else count hs

abbrev pub IsSound : SettlementCapacityReservation → Type 0
IsSound h = (not h.active || h.attached) ≡ true

pub record IsBalanced (s : System) : Type 0 where
  pub batches : s.gate.reserved_batches ≡ count s.handles
  pub records : s.gate.reserved_records ≡ 11 * s.gate.reserved_batches
  pub bytes : s.gate.reserved_bytes ≡ 2378 * s.gate.reserved_batches
  pub few : s.gate.reserved_batches ≤ 128
  pub sound : All IsSound s.handles

abbrev weight : SettlementCapacityReservation → ℕ
weight h = if h.active then 1 else 0

count-put :
    (i : ℕ) (h x : SettlementCapacityReservation) (hs : List SettlementCapacityReservation)
    → lookup i hs ≡ some h
    → count (put i x hs) + weight h ≡ count hs + weight x
unfolding put lookup count
count-put i h x [] e = absurd (ground arith)
count-put zero h x (y ∷ hs) e = ground arith
count-put (suc i) h x (y ∷ hs) e = ground (arith, count-put i h x hs)

put-IsSound :
    (i : ℕ) (x : SettlementCapacityReservation) (hs : List SettlementCapacityReservation)
    → IsSound x
    → All IsSound hs
    → All IsSound (put i x hs)
unfolding put
put-IsSound i x [] v a = a
put-IsSound zero x (y ∷ hs) v (p, a) = (v, a)
put-IsSound (suc i) x (y ∷ hs) v (p, a) = (p, put-IsSound i x hs v a)

lookup-IsSound :
    (i : ℕ) (h : SettlementCapacityReservation) (hs : List SettlementCapacityReservation)
    → lookup i hs ≡ some h
    → All IsSound hs
    → IsSound h
unfolding lookup
lookup-IsSound i h [] e a = absurd (ground arith)
lookup-IsSound zero h (y ∷ hs) e (p, a) = ground arith
lookup-IsSound (suc i) h (y ∷ hs) e (p, a) = lookup-IsSound i h hs e a

lookup_other :
    (i j : ℕ) (x : SettlementCapacityReservation) (hs : List SettlementCapacityReservation)
    → (i == j) ≡ false
    → lookup i (put j x hs) ≡ lookup i hs
unfolding lookup put
lookup_other i j x [] e = refl
lookup_other zero zero x (y ∷ hs) e = absurd (ground arith)
lookup_other zero (suc j) x (y ∷ hs) e = refl
lookup_other (suc i) zero x (y ∷ hs) e = refl
lookup_other (suc i) (suc j) x (y ∷ hs) e = lookup_other i j x hs (ground arith)

lookup_same :
    (i : ℕ) (h x : SettlementCapacityReservation) (hs : List SettlementCapacityReservation)
    → lookup i hs ≡ some h
    → lookup i (put i x hs) ≡ some x
unfolding lookup put
lookup_same i h x [] e = absurd (ground arith)
lookup_same zero h x (y ∷ hs) e = refl
lookup_same (suc i) h x (y ∷ hs) e = lookup_same i h x hs e

count_append : (hs ks : List SettlementCapacityReservation) → count (hs ++ ks) ≡ count hs + count ks
unfolding count
count_append [] ks = omega arith
count_append (h ∷ hs) ks = ground (arith, count_append hs ks)

release-IsBalanced :
    (s : System) (i : ℕ) (h : SettlementCapacityReservation)
    → IsBalanced s
    → lookup i s.handles ≡ some h
    → IsBalanced (release_at s i (some h))
unfolding release
release-IsBalanced s i h v e =
    let counted = count-put i h (release s.gate h).1 s.handles e in
    let fine = lookup-IsSound i h s.handles e v.sound in
    elim (Bool-cases h.active) [
      | inl x ↦ record {
        batches = ground (arith, counted, v.batches);
        records = ground (arith, counted, v.batches, v.records, v.few);
        bytes = ground (arith, counted, v.batches, v.bytes, v.few);
        few = ground (arith, v.few, counted, v.batches);
        sound = put-IsSound i (release s.gate h).1 s.handles (ground arith) v.sound;
      }
      | inr x ↦ record {
        batches = ground (arith, counted, v.batches);
        records = ground (arith, v.records);
        bytes = ground (arith, v.bytes);
        few = ground (arith, v.few);
        sound = put-IsSound i (release s.gate h).1 s.handles (ground arith) v.sound;
      }
    ]

IsSound-after : (s : System) → IsBalanced s → All IsSound (act s reserves).handles
unfolding act try_reserve
IsSound-after s v =
    let more =
      All-append IsSound s.handles (record { attached = true; active = true } ∷ []) v.sound
        (refl, tt) in
    ground arith

reserve-IsBalanced : (s : System) → IsBalanced s → IsBalanced (act s reserves)
unfolding act try_reserve count
reserve-IsBalanced s v =
    let added = count_append s.handles (record { attached = true; active = true } ∷ []) in
    record {
      batches = ground (arith, v.batches, v.few, added);
      records = ground (arith, v.records, v.few);
      bytes = ground (arith, v.bytes, v.few);
      few = ground (arith, v.few);
      sound = IsSound-after s v;
    }

move-IsBalanced :
    (s : System) (i j : ℕ) (g h : SettlementCapacityReservation)
    → IsBalanced s
    → lookup i s.handles ≡ some g
    → g.active ≡ false
    → (i == j) ≡ false
    → lookup j s.handles ≡ some h
    → IsBalanced (move_from s i j (some h))
move-IsBalanced s i j g h v e idle apart f =
    let first = count-put j h moved_from s.handles f in
    let same = lookup_other i j moved_from s.handles apart in
    let second = count-put i g h (put j moved_from s.handles) (ground arith) in
    record {
      batches = ground (arith, first, second, v.batches);
      records = v.records;
      bytes = v.bytes;
      few = v.few;
      sound =
          put-IsSound i h (put j moved_from s.handles) (lookup-IsSound j h s.handles f v.sound)
            (put-IsSound j moved_from s.handles refl v.sound);
    }

construct-IsBalanced :
    (s : System) (j : ℕ) (h : SettlementCapacityReservation)
    → IsBalanced s
    → lookup j s.handles ≡ some h
    → IsBalanced (construct_from s j (some h))
unfolding count
construct-IsBalanced s j h v f =
    let first = count-put j h moved_from s.handles f in
    record {
      batches =
          ground (arith, first, v.batches, count_append (put j moved_from s.handles) (h ∷ []));
      records = v.records;
      bytes = v.bytes;
      few = v.few;
      sound =
          All-append IsSound (put j moved_from s.handles) (h ∷ [])
            (put-IsSound j moved_from s.handles refl v.sound)
            (lookup-IsSound j h s.handles f v.sound, tt);
    }

update-IsBalanced :
    (s : System) (b : OutboxBacklogSnapshot) → IsBalanced s → IsBalanced (act s (updates b))
unfolding act update_backlog
update-IsBalanced s b v = record {
  batches = ground (arith, v.batches);
  records = ground (arith, v.records);
  bytes = ground (arith, v.bytes);
  few = ground (arith, v.few);
  sound = v.sound;
}

assign-IsBalanced :
    (s : System) (i j : ℕ) (g h : SettlementCapacityReservation)
    → IsBalanced s
    → lookup i s.handles ≡ some g
    → lookup j s.handles ≡ some h
    → IsBalanced (assign_from s i j)
unfolding release
assign-IsBalanced s i j g h v e f = elim (Bool-cases (i == j)) [
  | inl x ↦ rw x v
  | inr x ↦
      let t = release_at s i (some g) in
      let freed = release-IsBalanced s i g v e in
      let idle : (release s.gate g).1.active ≡ false =
        ground (arith, lookup-IsSound i g s.handles e v.sound) in
      let at = lookup_same i g (release s.gate g).1 s.handles e in
      let there : lookup j t.handles ≡ some h =
        ground (arith, lookup_other j i (release s.gate g).1 s.handles) in
      rw (x, e, there) (move-IsBalanced t i j (release s.gate g).1 h freed at idle x there)
]

act-IsBalanced : (s : System) (a : Action) → IsBalanced s → IsBalanced (act s a)
unfolding act
act-IsBalanced s (updates b) v = update-IsBalanced s b v
act-IsBalanced s reserves v = reserve-IsBalanced s v
act-IsBalanced s (releases i) v = elim (Option-cases (lookup i s.handles)) [
  | inl e ↦ rw e v
  | inr (h, e) ↦ rw e (release-IsBalanced s i h v e)
]
act-IsBalanced s (move_constructs j) v = elim (Option-cases (lookup j s.handles)) [
  | inl e ↦ rw e v
  | inr (h, e) ↦ rw e (construct-IsBalanced s j h v e)
]
act-IsBalanced s (move_assigns i j) v = elim (Option-cases (lookup i s.handles)) [
  | inl e ↦ rw (e, act) v
  | inr (g, e) ↦ elim (Option-cases (lookup j s.handles)) [
    | inl f ↦ rw (e, f, act) v
    | inr (h, f) ↦ rw (act, e, f) (assign-IsBalanced s i j g h v e f)
  ]
]

act_all_from-IsBalanced :
    (s : System) (actions : List Action) → IsBalanced s → IsBalanced (act_all s actions)
unfolding act_all
act_all_from-IsBalanced s [] v = v
act_all_from-IsBalanced s (a ∷ rest) v =
    act_all_from-IsBalanced (act s a) rest (act-IsBalanced s a v)

-- No reservation is leaked or given back twice: after any updates, reservations, releases and moves
-- from a new gate, the reserved batches are as many as the objects that are `valid()`, at most 128,
-- with 11 records and 2378 bytes each; every valid object still has its gate.
pub act_all-IsBalanced :
    (actions : List Action)
    → IsBalanced (act_all (record { gate = initial_state; handles = [] }) actions)
unfolding initial_state count
act_all-IsBalanced actions =
    act_all_from-IsBalanced _ actions
      (record { batches = refl; records = refl; bytes = refl; few = omega arith; sound = tt })

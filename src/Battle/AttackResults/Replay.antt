-- ===== src/Battle/AttackResults/Replay.antt =====
-- A result that AttackResultStore.cpp retained is what every repetition of the command gets.
use loot_of_legends_public.Base.{
  ℕ, ◌≡◌, refl, Bool, true, false, ◌==◌, if◌then◌else◌, List, [], ◌∷◌, ◌++◌, none, some, All, arith,
  Option-cases, inl, inr,
}
use loot_of_legends_public.Battle.AttackResults.{
  Record, AttackCommand, AttackTerminalResult, AttackResultStore, inspect, retain,
  mark_battle_completed, find_record, replay, conflict, scope_matches,
}
use loot_of_legends_public.Battle.AttackResults.Run.{
  Call, retains, completes, completes_at, evicts, evicts_at, imports, step, run,
}

find_record-append :
    (id : ℕ) (rs qs : List Record) (r : Record)
    → find_record id rs ≡ some r
    → find_record id (rs ++ qs) ≡ some r
find_record-append id [] qs r h = absurd (ground arith)
find_record-append id (q ∷ rs) qs r h = ground (arith, find_record-append id rs qs r)

find_record-last :
    (id : ℕ) (rs : List Record) (r : Record)
    → find_record id rs ≡ none
    → r.command_id ≡ id
    → find_record id (rs ++ r ∷ []) ≡ some r
find_record-last id [] r h e = ground arith
find_record-last id (q ∷ rs) r h e = ground (arith, find_record-last id rs r)

-- The calls that take no record away.
abbrev pub is_keeping : Call → Bool
is_keeping (retains c x) = true
is_keeping (completes at) = true
is_keeping (completes_at at) = true
is_keeping _ = false

-- The store has that record for the command, whose scope is the store's.
record Holds (s : AttackResultStore) (d : AttackCommand) (r : Record) : Type 0 where
  in_scope : scope_matches s d ≡ true
  found : find_record d.command_id s.records ≡ some r

step-Holds :
    (s : AttackResultStore) (c : Call) (d : AttackCommand) (r : Record)
    → is_keeping c ≡ true
    → Holds s d r
    → Holds (step s c) d r
unfolding step retain mark_battle_completed
step-Holds s (retains c x) d r k h =
    let new : Record = (record {
      command_id = c.command_id;
      target_hint = c.target_hint;
      result = x;
    }) in
    let kept = find_record-append d.command_id s.records (new ∷ []) r h.found in
    record { in_scope = ground (arith, h.in_scope); found = ground (arith, kept, h.found) }
step-Holds s (completes at) d r k h = record { in_scope = h.in_scope; found = h.found }
step-Holds s (completes_at at) d r k h = record { in_scope = h.in_scope; found = h.found }
step-Holds s (evicts_at at) d r k h = absurd (ground arith)
step-Holds s (evicts at) d r k h = absurd (ground arith)
step-Holds s (imports x) d r k h = absurd (ground arith)

run-Holds :
    (s : AttackResultStore) (cs : List Call) (d : AttackCommand) (r : Record)
    → All (λ c. is_keeping c ≡ true) cs
    → Holds s d r
    → Holds (run s cs) d r
unfolding run
run-Holds s [] d r k h = h
run-Holds s (c ∷ cs) d r (k, ks) h = run-Holds (step s c) cs d r ks (step-Holds s c d r k h)

retain-Holds :
    (s : AttackResultStore) (c d : AttackCommand) (x : AttackTerminalResult)
    → (retain s c x).1 ≡ true
    → scope_matches s d ≡ true
    → d.command_id ≡ c.command_id
    → Holds
        (retain s c x).0
        d
        (record { command_id = c.command_id; target_hint = c.target_hint; result = x })
unfolding retain inspect
retain-Holds s c d x h scope same = elim (Option-cases (find_record c.command_id s.records)) [
  | inr (r, e) ↦ absurd (ground arith)
  | inl e ↦
      let new : Record = (record {
        command_id = c.command_id;
        target_hint = c.target_hint;
        result = x;
      }) in
      let last = find_record-last c.command_id s.records new e refl in
      record { in_scope = ground arith; found = rw same (ground arith) }
]

-- Once a result is retained, and whatever is retained or completed after it, the command asked
-- again in the store's scope gets that result as a replay, and a command with its number but
-- another target conflicts; neither is available to be executed again.
pub retain_replays :
    (s : AttackResultStore) (c d : AttackCommand) (x : AttackTerminalResult) (cs : List Call)
    → (retain s c x).1 ≡ true
    → scope_matches s d ≡ true
    → d.command_id ≡ c.command_id
    → All (λ call. is_keeping call ≡ true) cs
    → inspect (run (retain s c x).0 cs) d
      ≡ (if d.target_hint == c.target_hint then (replay, some x) else (conflict, none))
unfolding inspect
retain_replays s c d x cs h scope same keeping =
    let held = run-Holds (retain s c x).0 cs d _ keeping (retain-Holds s c d x h scope same) in
    ground (arith, held.in_scope, held.found)

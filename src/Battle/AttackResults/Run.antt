-- ===== src/Battle/AttackResults/Run.antt =====
-- Any history of calls on a store of attack results.
use loot_of_legends_public.Base.{ℕ, List, [], ◌∷◌, arith, ℤ, Bool-cases, inl, inr}
use loot_of_legends_public.Battle.AttackResults.{
  AttackCommand, AttackTerminalResult, AttackResultStore, AttackResultStoreState, new_store, retain,
  mark_battle_completed, evict_expired, import_state, is_over, compatibility_nanos,
  mark_battle_completed_at, evict_expired_at,
}
use loot_of_legends_public.Battle.AttackResults.Invariant.{IsValid, retain-IsValid}
use loot_of_legends_public.Battle.AttackResults.Import.{import_state-IsValid}

-- The calls that change a store.
pub data Call : Type 0 where
  retains : AttackCommand → AttackTerminalResult → Call
  completes evicts : ℕ → Call
  completes_at evicts_at : ℤ → Call
  imports : AttackResultStoreState → Call

unfoldable pub step : AttackResultStore → Call → AttackResultStore
step s (retains c x) = (retain s c x).0
step s (completes at) = mark_battle_completed s at
step s (evicts now) = (evict_expired s now).0
step s (completes_at point) = mark_battle_completed_at s point
step s (evicts_at point) = (evict_expired_at s point).0
step s (imports x) = (import_state s x).0

unfoldable pub run : AttackResultStore → List Call → AttackResultStore
run s [] = s
run s (c ∷ cs) = run (step s c) cs

pub mark_battle_completed-IsValid :
    (s : AttackResultStore) (at : ℕ) → IsValid s → IsValid (mark_battle_completed s at)
unfolding mark_battle_completed
mark_battle_completed-IsValid s at v = record {
  distinct = v.distinct;
  own = v.own;
  bounded = v.bounded;
}

pub evict_expired-IsValid :
    (s : AttackResultStore) (now : ℕ) → IsValid s → IsValid (evict_expired s now).0
unfolding evict_expired
evict_expired-IsValid s now v = elim (Bool-cases (is_over s.battle_completed_at now)) [
  | inl e ↦ rw (evict_expired, e) (record { distinct = tt; own = tt; bounded = omega arith })
  | inr e ↦ rw (evict_expired, e) v
]

step-IsValid : (s : AttackResultStore) (c : Call) → IsValid s → IsValid (step s c)
unfolding step
step-IsValid s (retains c x) v = retain-IsValid s c x v
step-IsValid s (completes at) v = mark_battle_completed-IsValid s at v
step-IsValid s (completes_at p) v = mark_battle_completed-IsValid s (compatibility_nanos p) v
step-IsValid s (evicts now) v = evict_expired-IsValid s now v
step-IsValid s (evicts_at p) v = evict_expired-IsValid s (compatibility_nanos p) v
step-IsValid s (imports x) v = import_state-IsValid s x v

run_from-IsValid : (s : AttackResultStore) (cs : List Call) → IsValid s → IsValid (run s cs)
unfolding run
run_from-IsValid s [] v = v
run_from-IsValid s (c ∷ cs) v = run_from-IsValid (step s c) cs (step-IsValid s c v)

-- After any calls on a new store, imports of any state included, it holds at most 256 records, no
-- command has two of them, and every record's result is of the record's command and the store's
-- battle.
pub run-new_store-IsValid :
    (session generation battle : ℕ) (cs : List Call)
    → IsValid (run (new_store session generation battle) cs)
unfolding new_store
run-new_store-IsValid session generation battle cs =
    run_from-IsValid (new_store session generation battle) cs
      (record { distinct = tt; own = tt; bounded = omega arith })

-- ===== src/Battle/Instance/Invariant/History.antt =====
-- What the calls on an admitted battle come to.
use loot_of_legends_public.Base.{
  ℕ, ◌≡◌, refl, ap, true, false, not, ◌==◌, List, [], ◌∷◌, Option, none, some, map, length, arith,
  inl, inr, Bool-cases, Option-cases, leb→le,
}
use mathlib.Core.Path.{subst}
use loot_of_legends_public.Battle.Time.{BattleTime}
use loot_of_legends_public.Battle.AttackResults
use loot_of_legends_public.Battle.Result.Checks.{any_of}
use loot_of_legends_public.Battle.Drops.{v1_snapshot}
use loot_of_legends_public.Battle.Result.{
  BattleOutcome, BattleFinalResult, Checked, failure, success,
}
use loot_of_legends_public.Battle.Result.Checks.{build_final_result}
use loot_of_legends_public.Battle.Instance.{
  BattleInstance, BattleStartCandidate, CombatTerminalRecord, LootResolutionState, resolved,
  LootDropRecord, is_open, is_not_ready, has, observe_battle_time,
}
use loot_of_legends_public.Battle.Instance.Load.{
  BattleAdmissionSnapshot, admitted, new_battle, create, valid_admission, is_reached,
}
use loot_of_legends_public.Battle.Instance.Exit.{close_drop, is_available}
use loot_of_legends_public.Battle.Instance.Commit.{
  converted, is_resolved, commit_result_if_ready, commit_built, ready_outcome, result_source,
  mark_loot_results_completed,
}
use loot_of_legends_public.Battle.Instance.Deadlines.{loot_ok, expire_loot}
use loot_of_legends_public.Battle.Instance.Invariant.{IsSound, IsDecided, Stays}
use loot_of_legends_public.Battle.Instance.Invariant.Run.{Call, run, run_from-IsSound}

length-admitted : (cs : List BattleStartCandidate) → length (map admitted cs) ≡ length cs
length-admitted [] = refl
length-admitted (c ∷ cs) = omega (arith, length-admitted cs)

new_battle-IsSound :
    (a : BattleAdmissionSnapshot) → valid_admission a ≡ true → IsSound (new_battle a) (new_battle a)
unfolding new_battle valid_admission
new_battle-IsSound a h = (
  (refl, inl refl, tt, tt),
  (
    ground (arith, h),
    omega
        (arith, length-admitted a.candidates, leb→le (length a.candidates) 10 (ground (arith, h))),
    inl refl,
  ),
  record {
    begins = inr (refl, refl);
    each = tt;
    distinct = tt;
    few = omega arith;
    conserved = λ s i. refl;
  },
  tt,
)

create-IsSound :
    (a : BattleAdmissionSnapshot) (b : BattleInstance) → create a ≡ some b → IsSound b b
unfolding create
create-IsSound a b e = elim (Bool-cases (valid_admission a)) [
  | inr f ↦ absurd (ground arith)
  | inl f ↦
      let same : new_battle a ≡ b = ground arith in
      subst (λ x. IsSound x x) same (new_battle-IsSound a f)
]

stays {ℓ} : {A : Type ℓ} (o : Option A) → Stays o o
stays none = tt
stays (some x) = refl

-- A battle that is sound for an earlier one is so for itself.
renewed : (start b : BattleInstance) → IsSound start b → IsSound b b
renewed start b ((reported, final, combat, outcome), staffed, ledger, players) = (
  (reported, inr (refl, refl), stays b.combat_terminal, stays b.battle_terminal_outcome),
  staffed,
  ledger,
  players,
)

-- Whatever is called on an admitted battle, and in whatever order, the process is not ended, and:
-- every participant is in the arena and set to move at most 250 mm a tick; no token bucket holds
-- more than its capacity; only who is eligible has input, and who is eligible has not left; the
-- stores of results are the participant's own, and that of attacks is valid; each drop has an owner
-- exactly when it is claimed, and no two have one number; what a session holds of an item is what
-- its claimed drops come to; there is a result exactly when one is committed; and what `create`
-- left decided, which is nothing, stays.
pub run_created-IsSound :
    (a : BattleAdmissionSnapshot) (b : BattleInstance) (cs : List Call)
    → create a ≡ some b
    → (d : BattleInstance) × (run b cs ≡ some d) × IsSound b d
run_created-IsSound a b cs e = run_from-IsSound b b cs (create-IsSound a b e)

-- From a battle that calls on an admitted battle lead to, further calls lead to one that is sound
-- for it.
pub run_further :
    (a : BattleAdmissionSnapshot) (b c : BattleInstance) (cs ds : List Call)
    → create a ≡ some b
    → run b cs ≡ some c
    → (d : BattleInstance) × (run c ds ≡ some d) × IsSound c d
run_further a b c cs ds e f =
    let (x, found, sound) = run_created-IsSound a b cs e in
    let same : x ≡ c = ground (arith, found, f) in
    run_from-IsSound c c ds (renewed b c (subst (IsSound b) same sound))

-- The first decision stands: from any battle that calls on an admitted battle lead to, whatever is
-- called next, a combat terminal, a terminal outcome, and a result that is committed or has failed
-- stay what they are; and there is a result exactly when one is committed.
pub first_decision :
    (a : BattleAdmissionSnapshot) (b c d : BattleInstance) (cs ds : List Call)
    → create a ≡ some b
    → run b cs ≡ some c
    → run c ds ≡ some d
    → IsDecided c d
first_decision a b c d cs ds e f g =
    let (y, next, later) = run_further a b c cs ds e f in
    let same : y ≡ d = ground (arith, next, g) in subst (IsDecided c) same later.0

-- With the loot resolved, a decided combat has an outcome to commit.
decided_outcome :
    (o : Option BattleOutcome) (r : LootResolutionState) (t : Option CombatTerminalRecord)
    → is_resolved r ≡ true
    → has t ≡ true
    → has (ready_outcome o r t) ≡ true
decided_outcome (some x) r t h k = refl
decided_outcome none r none h k = absurd (ground arith)
decided_outcome none r (some t) h k = over t.outcome
  where
    over : (c : AttackResults.CombatOutcome) → has (converted r c) ≡ true
    over AttackResults.monster_defeated = rw h refl
    over AttackResults.no_outcome = refl
    over AttackResults.combat_timeout = refl

mark_keeps :
    (b : BattleInstance) (at : BattleTime)
    → ((mark_loot_results_completed b at).drops ≡ b.drops)
      × ((mark_loot_results_completed b at).result_state ≡ b.result_state)
unfolding mark_loot_results_completed
mark_keeps b at = elim (Bool-cases (has b.loot_results_completed_at_nanos)) [
  | inl e ↦ rw (e, mark_loot_results_completed) (refl, refl)
  | inr e ↦ rw (e, mark_loot_results_completed) (refl, refl)
]

built_keeps :
    (b : BattleInstance) (o : BattleOutcome) (at : BattleTime) (x : Checked BattleFinalResult)
    → ((commit_built b o at x).drops ≡ b.drops)
      × (is_not_ready (commit_built b o at x).result_state ≡ false)
built_keeps b o at (failure status) =
    let (kept, state) = mark_keeps _ at in (kept, ap is_not_ready state)
built_keeps b o at (success result) =
    let (kept, state) = mark_keeps _ at in (kept, ap is_not_ready state)

-- A commit leaves the drops alone, and decides where there is an outcome.
commit_decides :
    (b : BattleInstance) (at : BattleTime)
    → is_resolved b.loot_resolution ≡ true
    → has b.combat_terminal ≡ true
    → ((commit_result_if_ready b at).drops ≡ b.drops)
      × (is_not_ready (commit_result_if_ready b at).result_state ≡ false)
unfolding commit_result_if_ready
commit_decides b at h k =
    let decided =
      decided_outcome b.battle_terminal_outcome b.loot_resolution b.combat_terminal h k in
    elim (Bool-cases (is_not_ready b.result_state)) [
      | inr e ↦ rw (e, commit_result_if_ready) (refl, e)
      | inl e ↦
          elim (Option-cases
            (ready_outcome b.battle_terminal_outcome b.loot_resolution b.combat_terminal)) [
              | inl x ↦ absurd (ground (arith, rw x at decided))
              | inr (outcome, x) ↦
                  let done =
                    built_keeps b outcome at
                      (build_final_result (result_source b outcome) v1_snapshot) in
                  rw (e, x, commit_result_if_ready) done
            ]
    ]

none_available :
    (rs : List LootDropRecord) → any_of (λ r. is_available r.state) (map close_drop rs) ≡ false
none_available [] = refl
none_available (r ∷ rs) = elim (Bool-cases (is_available r.state)) [
  | inl e ↦ rw e (none_available rs)
  | inr e ↦ rw (e, e) (none_available rs)
]

-- A deadline of the loot that is acted on, in a battle whose combat is decided, leaves no drop
-- available, and the result no longer open: it is committed, or its generation has failed.
pub expire_loot_commits :
    (b : BattleInstance) (battle : ℕ) (now : BattleTime)
    → has b.combat_terminal ≡ true
    → (expire_loot b battle now).1 ≡ loot_ok
    → let c = (expire_loot b battle now).0 in
      (any_of (λ r. is_available r.state) c.drops ≡ false) × (is_not_ready c.result_state ≡ false)
unfolding expire_loot observe_battle_time
expire_loot_commits b battle now h e = elim (Bool-cases (not (battle == b.battle_id))) [
  | inl f ↦ absurd (ground (arith, rw (expire_loot, f) at e))
  | inr f ↦ elim (Bool-cases (not (is_open b.loot_resolution))) [
    | inl g ↦ absurd (ground (arith, rw (expire_loot, f, g) at e))
    | inr g ↦ elim (Bool-cases (not (is_reached b.loot_deadline_tick now))) [
      | inl i ↦ absurd (ground (arith, rw (expire_loot, f, g, i) at e))
      | inr i ↦
          let closed : BattleInstance = (record (observe_battle_time b now) {
            drops = map close_drop b.drops;
            loot_resolution = resolved;
            loot_deadline_tick = none;
          }) in
          let (kept, over) = commit_decides closed now refl h in
          rw (expire_loot, f, g, i) (rw kept (none_available b.drops), over)
    ]
  ]
]

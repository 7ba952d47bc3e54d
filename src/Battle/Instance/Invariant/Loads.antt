-- ===== src/Battle/Instance/Invariant/Loads.antt =====
-- Admission and the load barrier keep a battle sound.
use loot_of_legends_public.Base.{
  ℕ, zero, suc, ◌+◌, ◌-◌, ◌≤◌, ◌≡◌, refl, Bool, not, ◌||◌, ◌==◌, ltb, leb, List, [], ◌∷◌, All, map,
  length, arith, inl, inr, Bool-cases,
}
use loot_of_legends_public.Base.Integers.{magnitude}
use loot_of_legends_public.Battle.AttackResults
use loot_of_legends_public.Battle.LootResults
use loot_of_legends_public.Battle.Time.{BattleTime}
use loot_of_legends_public.Battle.Combat.{
  CombatPosition, participant_spawn_position, nth, origin, participant_spawn_positions,
}
use loot_of_legends_public.Battle.Result.Checks.{every}
use loot_of_legends_public.Battle.Instance.{
  BattleInstance, BattleStartCandidate, CandidateRecord, LoadCandidateState, BattleLoadState,
  created, load_barrier_open, gameplay_committed, load_cancelled, observe_battle_time, ready,
}
use loot_of_legends_public.Battle.Instance.Load.{
  open_load_barrier, open_from, set_candidate, count_ready, capture, enlist, participant_of,
  resolve_if_complete, complete_load, complete_correlated, correlate, Correlation, refused,
  correlated, is_ready, is_pending, is_barrier_open, expire_load_barrier, expire_from, time_out,
  is_reached,
}
use loot_of_legends_public.Battle.Instance.Invariant.{IsPlayer, IsSound}

-- The positions of the table lie in the arena.
abbrev pub IsNear : CombatPosition → Type 0
IsNear s = (magnitude s.x_millimeter ≤ 10000) × (magnitude s.y_millimeter ≤ 10000)

nth-IsNear : (row : List CombatPosition) (i : ℕ) → All IsNear row → IsNear (nth origin row i)
nth-IsNear [] i a = omega arith
nth-IsNear (s ∷ row) zero (x, a) = x
nth-IsNear (s ∷ row) (suc i) (x, a) = nth-IsNear row i a

nth-rows :
    (rows : List (List CombatPosition)) (i : ℕ) → All (All IsNear) rows → All IsNear (nth [] rows i)
nth-rows [] i a = tt
nth-rows (row ∷ rows) zero (x, a) = x
nth-rows (row ∷ rows) (suc i) (x, a) = nth-rows rows i a

rows-IsNear : All (All IsNear) participant_spawn_positions
rows-IsNear = omega arith

spawn-IsNear : (count index : ℕ) → IsNear (participant_spawn_position count index)
unfolding participant_spawn_position
spawn-IsNear count index = elim (Bool-cases (ltb count 2 || ltb 10 count || leb count index)) [
  | inl e ↦ rw e (omega arith)
  | inr e ↦ rw e (nth-IsNear _ index (nth-rows participant_spawn_positions (count - 2) rows-IsNear))
]

participant_of-IsPlayer :
    (battle : ℕ) (c : BattleStartCandidate) (slot : ℕ) (s : CombatPosition)
    → IsNear s
    → IsPlayer battle (participant_of battle c slot s)
unfolding AttackResults.new_store LootResults.new_store
participant_of-IsPlayer battle c slot s (x, y) = (
  (x, y, omega arith),
  (omega arith, omega arith, omega arith),
  (refl, refl),
  (refl, refl, refl, refl, refl, refl, record { distinct = tt; own = tt; bounded = omega arith }),
)

enlist-IsPlayer :
    (battle count index : ℕ) (cs : List CandidateRecord)
    → All (IsPlayer battle) (enlist battle count index cs)
unfolding enlist
enlist-IsPlayer battle count index [] = tt
enlist-IsPlayer battle count index (c ∷ cs) = elim (Bool-cases (is_ready c.state)) [
  | inl e ↦
      let one =
        participant_of-IsPlayer battle c.identity (index + 1)
          (participant_spawn_position count index) (spawn-IsNear count index) in
      rw e (one, enlist-IsPlayer battle count (index + 1) cs)
  | inr e ↦ rw e (enlist-IsPlayer battle count index cs)
]

length-capture :
    (cs : List CandidateRecord)
    → (length (capture cs) ≡ count_ready cs) × (length (capture cs) ≤ length cs)
unfolding capture
length-capture [] = (refl, omega arith)
length-capture (c ∷ cs) = let h = length-capture cs in ground arith

pub length-set_candidate :
    (session : ℕ) (state : LoadCandidateState) (cs : List CandidateRecord)
    → length (set_candidate session state cs) ≡ length cs
unfolding set_candidate
length-set_candidate session state [] = refl
length-set_candidate session state (c ∷ cs) = ground (arith, length-set_candidate session state cs)

length-map-time_out : (cs : List CandidateRecord) → length (map time_out cs) ≡ length cs
length-map-time_out [] = refl
length-map-time_out (c ∷ cs) = omega (arith, length-map-time_out cs)

pub resolve_if_complete-IsSound :
    (start b : BattleInstance) → IsSound start b → IsSound start (resolve_if_complete b)
unfolding resolve_if_complete
resolve_if_complete-IsSound start b (decided, (seeded, few, staffed), ledger, players) =
    elim (Bool-cases (not (every (λ c. not (is_pending c.state)) b.candidates))) [
      | inl e ↦ rw (resolve_if_complete, e) (decided, (seeded, few, staffed), ledger, players)
      | inr e ↦ elim (Bool-cases (ltb (count_ready b.candidates) 2)) [
        | inl f ↦ rw (resolve_if_complete, e, f) (decided, (seeded, few, inl refl), ledger, players)
        | inr f ↦
            let (counted, bounded) = length-capture b.candidates in
            let enough : 2 ≤ length (capture b.candidates) = ground arith in
            let room : length (capture b.candidates) ≤ 10 = omega arith in
            let enlisted = enlist-IsPlayer b.battle_id (count_ready b.candidates) 0 b.candidates in
            rw (resolve_if_complete, e, f)
              (decided, (seeded, few, inr (enough, room)), ledger, enlisted)
      ]
    ]

pub open_load_barrier-IsSound :
    (start b : BattleInstance) (at : BattleTime)
    → IsSound start b
    → IsSound start (open_load_barrier b at).0
unfolding open_load_barrier observe_battle_time
open_load_barrier-IsSound start b at (decided, (seeded, few, staffed), ledger, players) =
    opened b.state
  where
    opened : (s : BattleLoadState) → IsSound start (open_from b at s).0
    opened created = (decided, (seeded, few, inl refl), ledger, players)
    opened load_barrier_open = (decided, (seeded, few, staffed), ledger, players)
    opened gameplay_committed = (decided, (seeded, few, staffed), ledger, players)
    opened load_cancelled = (decided, (seeded, few, staffed), ledger, players)

-- A change of the candidates' states, at a time that is observed.
pub resolved-IsSound :
    (start b : BattleInstance) (at : BattleTime) (cs : List CandidateRecord)
    → length cs ≡ length b.candidates
    → IsSound start b
    → IsSound start (resolve_if_complete (record (observe_battle_time b at) { candidates = cs }))
unfolding observe_battle_time
resolved-IsSound start b at cs same (decided, (seeded, few, staffed), ledger, players) =
    resolve_if_complete-IsSound start _ (decided, (seeded, rw same few, staffed), ledger, players)

pub complete_load-IsSound :
    (start b : BattleInstance) (room battle session generation : ℕ) (transport_ready : Bool)
    (at : BattleTime)
    → IsSound start b
    → IsSound start (complete_load b room battle session generation transport_ready at).0
unfolding complete_load observe_battle_time
complete_load-IsSound start b room battle session generation transport_ready at v =
    done (correlate b room battle session generation)
  where
    done : (x : Correlation) → IsSound start (complete_correlated b session transport_ready at x).0
    done (refused code) = v
    done (correlated candidate) = elim (Bool-cases (is_ready candidate.state)) [
      | inl e ↦ rw e v
      | inr e ↦
          elim (Bool-cases (not (is_barrier_open b.state) || not (is_pending candidate.state))) [
            | inl f ↦ rw (e, f) v
            | inr f ↦ elim (Bool-cases (not transport_ready)) [
              | inl g ↦ rw (e, f, g) v
              | inr g ↦
                  rw (e, f, g)
                    (resolved-IsSound start b at _ (length-set_candidate session ready b.candidates)
                      v)
            ]
          ]
    ]

pub expire_load_barrier-IsSound :
    (start b : BattleInstance) (room battle : ℕ) (at : BattleTime)
    → IsSound start b
    → IsSound start (expire_load_barrier b room battle at).0
unfolding expire_load_barrier observe_battle_time
expire_load_barrier-IsSound start b room battle at v =
    elim (Bool-cases (not (room == b.room_id) || not (battle == b.battle_id))) [
      | inl e ↦ rw (e, expire_load_barrier) v
      | inr e ↦ rw (e, expire_load_barrier) (expired b.state)
    ]
  where
    expired : (s : BattleLoadState) → IsSound start (expire_from b at s).0
    expired created = v
    expired gameplay_committed = v
    expired load_cancelled = v
    expired load_barrier_open = elim (Bool-cases (not (is_reached b.load_deadline_tick at))) [
      | inl f ↦ rw f v
      | inr f ↦ rw f (resolved-IsSound start b at _ (length-map-time_out b.candidates) v)
    ]

-- ===== src/Battle/Instance/Invariant/SafeBlows.antt =====
-- A blow keeps a battle sound and does not end the process.
use loot_of_legends_public.Base.{
  ℕ, either, ◌≤◌, ◌≡◌, ◌⊎◌, refl, true, false, not, ◌||◌, ◌==◌, leb, List, [], Option, none, some,
  length, arith, inl, inr, Bool-cases,
}
use loot_of_legends_public.Battle.Time.{BattleTime}
use loot_of_legends_public.Battle.AttackResults.{
  AttackCommand, AttackTerminalResult, AttackResultStore, AttackResultStoreDecision, ok, available,
  replay, conflict, overloaded, scope_mismatch, inspect, is_available, evict_expired, is_over,
  mark_battle_completed, monster_defeated, scope_matches, find_record, maximum_results,
}
use loot_of_legends_public.Battle.AttackResults
use loot_of_legends_public.Battle.AttackResults.Run.{mark_battle_completed-IsValid}
use loot_of_legends_public.Battle.Drops.Table.{generate_seeded-IsTable}
use loot_of_legends_public.Battle.Result.{LootHoldingProjection}
use loot_of_legends_public.Battle.Combat.{
  Monster, is_alive, apply_attack, complete_death, attack_damage, at, in_attack_range,
}
use loot_of_legends_public.Battle.Instance.{
  BattleInstance, ParticipantRecord, CombatTerminalRecord, LootDropRecord, is_committed, has,
  put_participant,
}
use loot_of_legends_public.Battle.Instance.Attack.{
  strike, damage_monster, win, finish_attacks, complete_attacks, combat_terminal_record, is_cooling,
}
use loot_of_legends_public.Battle.Instance.Invariant.{IsLedger, IsPlayer, IsSound, IsSafe}
use loot_of_legends_public.Battle.Instance.Invariant.Participants.{map-IsPlayer}
use loot_of_legends_public.Battle.Instance.Invariant.Commits.{commit_result_if_ready-IsSound}
use loot_of_legends_public.Battle.Instance.Invariant.Exits.{undecided-Stays}
use loot_of_legends_public.Battle.Instance.Invariant.Inputs.{put-IsSound}
use loot_of_legends_public.Battle.Instance.Invariant.Ledgers.{fresh-IsLedger}
use loot_of_legends_public.Battle.Instance.Invariant.Attacks.{
  Accepts, retain_attack-IsSafe, put-Accepts,
}

pub complete_attacks-IsPlayer :
    (nanos battle : ℕ) (p : ParticipantRecord)
    → IsPlayer battle p
    → IsPlayer battle (complete_attacks nanos p)
unfolding mark_battle_completed
complete_attacks-IsPlayer nanos battle p
      (arena, limited, active, (session, generation, same, l, m, n, valid)) =
    (
      arena,
      limited,
      active,
      (
        session,
        generation,
        same,
        l,
        m,
        n,
        mark_battle_completed-IsValid p.attack_results nanos valid,
      ),
    )

finish_attacks-IsSafe :
    (start : BattleInstance) (now : BattleTime) (x : Option (BattleInstance × AttackTerminalResult))
    → IsSafe start x
    → IsSafe start (finish_attacks now x)
finish_attacks-IsSafe start now none h = absurd h
finish_attacks-IsSafe start now (some (b, result)) (decided, staffed, ledger, players) =
    commit_result_if_ready-IsSound start _ now (
      decided,
      staffed,
      ledger,
      map-IsPlayer b.battle_id (complete_attacks now.battle_elapsed_nanos) b.participant_records
          (complete_attacks-IsPlayer now.battle_elapsed_nanos b.battle_id) players,
    )

-- Before the battle is decided nobody holds anything.
nothing_held :
    (t : Option CombatTerminalRecord) (ds : List LootDropRecord) (hs : List LootHoldingProjection)
    → IsLedger t ds hs
    → has t ≡ false
    → hs ≡ []
nothing_held t ds hs v e = elim v.begins [ inl f ↦ absurd (ground arith) | inr (f, g) ↦ g ]

win-IsSafe :
    (start b : BattleInstance) (p : ParticipantRecord) (m : Monster) (c : AttackCommand)
    (now : BattleTime)
    → IsSound start b
    → Accepts b p c
    → is_committed b.state ≡ true
    → has b.combat_terminal ≡ false
    → IsSafe start (win b m c now)
unfolding win
win-IsSafe start b p m c now
      ((reported, final, combat, outcome), (seeded, few, staffed), ledger, players) a playing
      undecided =
    let (low, high) = captured_of staffed in
    let (drops, made, counted, table) =
      generate_seeded-IsTable b.room_id b.battle_id b.seed (length b.captured_participants) seeded
        low high in
    let terminal = combat_terminal_record b m monster_defeated in
    let decided =
      undecided-Stays start.combat_terminal b.combat_terminal (some terminal) combat undecided in
    let held = nothing_held b.combat_terminal b.drops b.holdings ledger undecided in
    let opened = fresh-IsLedger terminal drops table (omega (arith, counted, high)) in
    rw made (
      finish_attacks-IsSafe start now _ (
        retain_attack-IsSafe start _ p c ok
          ((reported, final, decided, outcome), (seeded, few, staffed), rw held opened, players)
          (record { found = a.found; player = a.player; named = a.named; takes = a.takes })))
  where
    captured_of :
        (is_committed b.state ≡ false)
          ⊎ ((2 ≤ length b.captured_participants) × (length b.captured_participants ≤ 10))
        → (2 ≤ length b.captured_participants) × (length b.captured_participants ≤ 10)
    captured_of (inl e) = absurd (ground arith)
    captured_of (inr h) = h

-- A blow on a monster that is alive.
damage_monster-IsSafe :
    (start b : BattleInstance) (p : ParticipantRecord) (m : Monster) (c : AttackCommand)
    (now : BattleTime)
    → IsSound start b
    → Accepts b p c
    → is_committed b.state ≡ true
    → has b.combat_terminal ≡ false
    → is_alive m.state ≡ true
    → IsSafe start (damage_monster b (apply_attack m) c now)
unfolding apply_attack complete_death
damage_monster-IsSafe start b p m c now v a playing undecided alive =
    elim (Bool-cases (leb m.hit_points attack_damage)) [
      | inl e ↦ rw (alive, e) (win-IsSafe start b p _ c now v a playing undecided)
      | inr e ↦
          rw (alive, e)
            (retain_attack-IsSafe start _ p c ok v
              (record { found = a.found; player = a.player; named = a.named; takes = a.takes }))
    ]

pub strike-IsSafe :
    (start b : BattleInstance) (p : ParticipantRecord) (m : Monster) (c : AttackCommand)
    (now : BattleTime)
    → IsSound start b
    → Accepts b p c
    → is_committed b.state ≡ true
    → has b.combat_terminal ≡ false
    → IsSafe start (strike b p m c now)
unfolding strike
strike-IsSafe start b p m c now v a playing undecided =
    either (IsSafe start) (not (c.target_hint == m.id) || not (is_alive m.state)) _ _
      (retain_attack-IsSafe start b p c AttackResults.invalid_target v a)
      (λ e.
        either (IsSafe start) (not (in_attack_range (at p.pos_x p.pos_y) m.position)) _ _
          (retain_attack-IsSafe start b p c AttackResults.out_of_range v a)
          (λ _.
            either (IsSafe start) (is_cooling p.last_accepted_attack_nanos now.battle_elapsed_nanos)
              _ _ (retain_attack-IsSafe start b p c AttackResults.cooldown v a)
              (λ _.
                let accepted : ParticipantRecord = (record p {
                  last_accepted_attack_nanos = some now.battle_elapsed_nanos;
                }) in
                damage_monster-IsSafe start (put_participant b accepted) accepted m c now
                  (put-IsSound start b accepted v a.player)
                  (put-Accepts b p accepted c a refl refl a.player) playing undecided
                  (ground (arith, e)))))

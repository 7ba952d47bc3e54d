-- ===== src/Battle/Instance/Invariant/SafeAttacks.antt =====
-- An attack keeps a battle sound and does not end the process.
use loot_of_legends_public.Base.{
  ℕ, either, ◌≡◌, refl, true, false, not, ◌==◌, ltb, leb, some, length, arith, inl, inr, Bool-cases,
  Option-cases, if◌then◌else◌,
}
use loot_of_legends_public.Battle.Time.{BattleTime}
use loot_of_legends_public.Battle.Motion.{RateLimit, refill_attack, spend, rate_token_units}
use loot_of_legends_public.Battle.AttackResults.{
  AttackCommand, AttackTerminalResult, AttackResultStore, AttackResultStoreDecision, ok, available,
  replay, conflict, overloaded, scope_mismatch, inspect, is_available, evict_expired, is_over,
  mark_battle_completed, monster_defeated, scope_matches, find_record, maximum_results,
}
use loot_of_legends_public.Battle.AttackResults
use loot_of_legends_public.Battle.AttackResults.Run.{evict_expired-IsValid}
use loot_of_legends_public.Battle.Combat.{Monster}
use loot_of_legends_public.Battle.Instance.{
  BattleInstance, ParticipantRecord, is_committed, has, participant_record, put_participant,
  observe_battle_time,
}
use loot_of_legends_public.Battle.Instance.Attack.{
  attack, attack_found, decide_attack, attack_fresh, strike, retain_attack,
}
use loot_of_legends_public.Battle.Instance.Invariant.{IsPlayer, IsSound, IsSafe}
use loot_of_legends_public.Battle.Instance.Invariant.Participants.{find-put}
use loot_of_legends_public.Battle.Instance.Invariant.Inputs.{
  put-IsSound, found-IsPlayer, refill-credit,
}
use loot_of_legends_public.Battle.Instance.Invariant.Attacks.{
  Accepts, IsStoreOf, retain_attack-IsSafe, put-Accepts,
}
use loot_of_legends_public.Battle.Instance.Invariant.SafeBlows.{strike-IsSafe}

attack_fresh-IsSafe :
    (start b : BattleInstance) (p : ParticipantRecord) (m : Monster) (c : AttackCommand)
    (now : BattleTime)
    → IsSound start b
    → Accepts b p c
    → is_committed b.state ≡ true
    → IsSafe start (attack_fresh b p m c now)
unfolding attack_fresh
attack_fresh-IsSafe start b p m c now v a playing =
    either (IsSafe start) (not p.gameplay_eligible) _ _
      (retain_attack-IsSafe start b p c AttackResults.not_eligible v a)
      (λ _.
        either (IsSafe start) (has b.combat_terminal) _ _
          (retain_attack-IsSafe start b p c AttackResults.terminal_already_decided v a)
          (λ undecided.
            either (IsSafe start) (not p.input_enabled) _ _
              (retain_attack-IsSafe start b p c AttackResults.not_eligible v a)
              (λ _. paid undecided)))
  where
    rate : RateLimit
    rate = refill_attack p.attack_rate now.battle_elapsed_nanos

    limited : ParticipantRecord
    limited = record p { attack_rate = rate }

    spent : ParticipantRecord
    spent = record p { attack_rate = spend rate }

    filled : IsPlayer b.battle_id limited
    filled =
        let (arena, (move, strikes, claim), active, scoped) = a.player in
        let bound =
          refill-credit 4000000000 8 500000000 p.attack_rate now.battle_elapsed_nanos strikes in
        (arena, (move, bound, claim), active, scoped)

    less : IsPlayer b.battle_id spent
    less =
        let (arena, (move, bound, claim), active, scoped) = filled in
        (arena, (move, omega (arith, bound), claim), active, scoped)

    paid :
        has b.combat_terminal ≡ false
        → IsSafe start (
            if ltb rate.credit_units rate_token_units
            then retain_attack (put_participant b limited) c AttackResults.attack_overloaded
            else strike (put_participant b spent) spent m c now)
    paid undecided =
        either (IsSafe start) (ltb rate.credit_units rate_token_units) _ _
          (retain_attack-IsSafe start (put_participant b limited) limited c
            AttackResults.attack_overloaded (put-IsSound start b limited v filled)
            (put-Accepts b p limited c a refl refl filled))
          (λ _.
            strike-IsSafe start (put_participant b spent) spent m c now
              (put-IsSound start b spent v less) (put-Accepts b p spent c a refl refl less) playing
              undecided)

-- The store's decision is acted on, given that the command is in the store's scope.
decide_attack-IsSafe :
    (start b : BattleInstance) (p : ParticipantRecord) (m : Monster) (c : AttackCommand)
    (now : BattleTime)
    → IsSound start b
    → participant_record b c.session_id ≡ some p
    → IsPlayer b.battle_id p
    → p.session_id ≡ c.session_id
    → is_committed b.state ≡ true
    → scope_matches p.attack_results c ≡ true
    → let (decision, result) = inspect p.attack_results c in
      IsSafe start (decide_attack b p m c now decision result)
unfolding inspect observe_battle_time
decide_attack-IsSafe start b p m c now v found player named playing scoped =
    elim (Option-cases (find_record c.command_id p.attack_results.records)) [
      | inl e ↦ elim (Bool-cases (leb maximum_results (length p.attack_results.records))) [
        | inl f ↦ rw (scoped, e, f) v
        | inr f ↦
            let takes : is_available (inspect p.attack_results c).0 ≡ true =
              rw (inspect, scoped, e, f) refl in
            rw (scoped, e, f)
              (attack_fresh-IsSafe start (observe_battle_time b now) p m c now v
                (record { found = found; player = player; named = named; takes = takes }) playing)
      ]
      | inr (r, e) ↦ elim (Bool-cases (not (r.target_hint == c.target_hint))) [
        | inl f ↦ rw (scoped, e, f) v
        | inr f ↦ rw (scoped, e, f) v
      ]
    ]

evicted :
    (session generation battle now : ℕ) (s : AttackResultStore)
    → IsStoreOf session generation battle s
    → IsStoreOf session generation battle (evict_expired s now).0
unfolding evict_expired
evicted session generation battle now s (e, f, g, valid) =
    let kept = evict_expired-IsValid s now valid in
    elim (Bool-cases (is_over s.battle_completed_at now)) [
      | inl x ↦ rw (evict_expired, x) (e, f, g, rw (evict_expired, x) at kept)
      | inr x ↦ rw (evict_expired, x) (e, f, g, valid)
    ]

attack_found-IsSafe :
    (start b : BattleInstance) (p : ParticipantRecord) (m : Monster) (c : AttackCommand)
    (now : BattleTime)
    → IsSound start b
    → participant_record b c.session_id ≡ some p
    → is_committed b.state ≡ true
    → c.battle_id ≡ b.battle_id
    → p.generation ≡ c.generation
    → IsSafe start (attack_found b p m c now)
unfolding attack_found observe_battle_time
attack_found-IsSafe start b p m c now v found playing here fresh =
    either-store (evict_expired p.attack_results now.battle_elapsed_nanos).1
  where
    owner : IsPlayer b.battle_id p × (p.session_id ≡ c.session_id)
    owner = found-IsPlayer start b c.session_id p v found

    store : AttackResultStore
    store = (evict_expired p.attack_results now.battle_elapsed_nanos).0

    kept : ParticipantRecord
    kept = record p { attack_results = store }

    own : IsStoreOf p.session_id p.generation b.battle_id store
    own =
        let (arena, limited, active, (s, g, t, l, o, n, valid)) = owner.0 in
        evicted p.session_id p.generation b.battle_id now.battle_elapsed_nanos p.attack_results
          (s, g, t, valid)

    player : IsPlayer b.battle_id kept
    player =
        let (arena, limited, active, (s, g, t, l, o, n, valid)) = owner.0 in
        let (i, j, k, still) = own in (arena, limited, active, (i, j, k, l, o, n, still))

    scoped : scope_matches store c ≡ true
    scoped = let (i, j, k, still) = own in ground (arith, i, j, k, owner.1)

    again : participant_record (put_participant b kept) c.session_id ≡ some kept
    again = find-put c.session_id kept p b.participant_records owner.1 found

    either-store :
        (n : ℕ)
        → IsSafe start (
            decide_attack
              (put_participant (if n == 0 then b else observe_battle_time b now) kept)
              kept
              m
              c
              now
              (inspect store c).0
              (inspect store c).1)
    either-store n = elim (Bool-cases (n == 0)) [
      | inl e ↦ rw e (
          decide_attack-IsSafe start (put_participant b kept) kept m c now
            (put-IsSound start b kept v player) again player owner.1 playing scoped)
      | inr e ↦ rw e (
          decide_attack-IsSafe start (put_participant (observe_battle_time b now) kept) kept m c now
            (put-IsSound start (observe_battle_time b now) kept v player) again player owner.1
            playing scoped)
    ]

-- An attack on a sound battle gives a sound battle.
pub attack-IsSafe :
    (start b : BattleInstance) (c : AttackCommand) (now : BattleTime)
    → IsSound start b
    → IsSafe start (attack b c now)
unfolding attack
attack-IsSafe start b c now v = elim (Option-cases b.monster) [
  | inl e ↦ rw (attack, e) (either (IsSafe start) (not (c.battle_id == b.battle_id)) _ _ v (λ _. v))
  | inr (m, e) ↦ elim (Option-cases (participant_record b c.session_id)) [
    | inl f ↦
        rw (attack, e, f)
          (either (IsSafe start) (not (c.battle_id == b.battle_id)) _ _ v
            (λ _. either (IsSafe start) (not (is_committed b.state)) _ _ v (λ _. v)))
    | inr (p, f) ↦
        rw (attack, e, f)
          (either (IsSafe start) (not (c.battle_id == b.battle_id)) _ _ v (λ here.
            either (IsSafe start) (not (is_committed b.state)) _ _ v (λ playing.
              either (IsSafe start) (not (p.generation == c.generation)) _ _ v (λ fresh.
                attack_found-IsSafe start b p m c now v f (ground (arith, playing))
                  (ground (arith, here)) (ground (arith, fresh))))))
  ]
]

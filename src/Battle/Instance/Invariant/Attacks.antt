-- ===== src/Battle/Instance/Invariant/Attacks.antt =====
-- What an attack's result needs to be stored: the step that must not fail.
use loot_of_legends_public.Base.{ℕ, ◌≡◌, refl, ◌∙◌, Bool, true, false, not, ◌||◌, ◌==◌, some, arith}
use loot_of_legends_public.Battle.AttackResults.{
  AttackCommand, AttackTerminalResult, AttackResultCode, AttackResultStore, inspect, retain,
  is_available,
}
use loot_of_legends_public.Battle.AttackResults.Invariant
use loot_of_legends_public.Battle.AttackResults.Invariant.{retain-IsValid}
use loot_of_legends_public.Battle.Instance.{
  BattleInstance, ParticipantRecord, participant_record, put_participant,
}
use loot_of_legends_public.Battle.Instance.Attack.{retain_attack, store_result, current_result}
use loot_of_legends_public.Battle.Instance.Invariant.{IsPlayer, IsSound, IsSafe}
use loot_of_legends_public.Battle.Instance.Invariant.Participants.{put-IsPlayer, find-put}

-- The store is of that session and generation in that battle.
abbrev pub IsStoreOf : ℕ → ℕ → ℕ → AttackResultStore → Type 0
IsStoreOf session generation battle s =
    (s.session_id ≡ session)
    × (s.generation ≡ generation)
    × (s.battle_id ≡ battle)
    × Invariant.IsValid s

-- The participant of the attack is in the battle, and its store takes the command's result.
pub record Accepts (b : BattleInstance) (p : ParticipantRecord) (c : AttackCommand) : Type 0 where
  pub found : participant_record b c.session_id ≡ some p
  pub player : IsPlayer b.battle_id p
  pub named : p.session_id ≡ c.session_id
  pub takes : is_available (inspect p.attack_results c).0 ≡ true

retained :
    (session generation battle : ℕ) (s : AttackResultStore) (c : AttackCommand)
    (x : AttackTerminalResult)
    → is_available (inspect s c).0 ≡ true
    → x.command_id ≡ c.command_id
    → x.battle_id ≡ c.battle_id
    → IsStoreOf session generation battle s
    → ((retain s c x).1 ≡ true) × IsStoreOf session generation battle (retain s c x).0
unfolding retain
retained session generation battle s c x e f g (h, i, j, v) =
    let valid = retain-IsValid s c x v in
    let passes : (not (is_available (inspect s c).0)
          || not (x.command_id == c.command_id)
          || not (x.battle_id == c.battle_id))
        ≡ false =
      ground arith in
    rw (retain, passes) (refl, (h, i, j, rw (retain, passes) at valid))

stored :
    (start b : BattleInstance) (p : ParticipantRecord) (x : AttackTerminalResult)
    (s : AttackResultStore × Bool)
    → IsSound start b
    → IsPlayer b.battle_id p
    → s.1 ≡ true
    → IsStoreOf p.session_id p.generation b.battle_id s.0
    → IsSafe start (store_result b p x s)
stored start b p x (s, false) v player e store = absurd (ground arith)
stored start b p x (s, true) (decided, staffed, ledger, players) (arena, limited, active, scoped) e
      (one, two, three, valid) =
    let (a, g, t, session, generation, battle, before) = scoped in
    (
      decided,
      staffed,
      ledger,
      put-IsPlayer b.battle_id (record p { attack_results = s }) b.participant_records
          (arena, limited, active, (one, two, three, session, generation, battle, valid)) players,
    )

-- Where the store takes the result, it is stored.
pub retain_attack-IsSafe :
    (start b : BattleInstance) (p : ParticipantRecord) (c : AttackCommand) (code : AttackResultCode)
    → IsSound start b
    → Accepts b p c
    → IsSafe start (retain_attack b c code)
unfolding retain_attack
retain_attack-IsSafe start b p c code v a =
    let (arena, limited, active, (session, generation, battle, l, m, n, valid)) = a.player in
    let (kept, store) =
      retained p.session_id p.generation b.battle_id p.attack_results c (current_result b c code)
        a.takes refl refl (session, generation, battle, valid) in
    rw (retain_attack, a.found) (stored start b p (current_result b c code) _ v a.player kept store)

-- A change of the participant that leaves its store alone.
pub put-Accepts :
    (b : BattleInstance) (p q : ParticipantRecord) (c : AttackCommand)
    → Accepts b p c
    → q.session_id ≡ p.session_id
    → q.attack_results ≡ p.attack_results
    → IsPlayer b.battle_id q
    → Accepts (put_participant b q) q c
put-Accepts b p q c a e f player = record {
  found = find-put c.session_id q p b.participant_records (e ∙ a.named) a.found;
  player = player;
  named = e ∙ a.named;
  takes = rw f a.takes;
}

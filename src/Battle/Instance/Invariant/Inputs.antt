-- ===== src/Battle/Instance/Invariant/Inputs.antt =====
-- Input and movement keep a battle sound.
use loot_of_legends_public.Base.{
  ℕ, ◌≤◌, ◌≡◌, refl, Bool, true, false, not, ◌||◌, ◌&&◌, ◌==◌, ltb, Option, none, some, arith, inl,
  inr, Bool-cases, Option-cases, if◌then◌else◌, ℤ, pos, negsuc,
}
use loot_of_legends_public.Base.Integers.{magnitude, ◌+ℤ◌}
use loot_of_legends_public.Battle.Time.{BattleTime}
use loot_of_legends_public.Battle.Motion.{
  RateLimit, clamp_position, refill, refill_since, refill_move, spend, rate_token_units,
}
use loot_of_legends_public.Battle.Motion.Search.{tick_delta_bound}
use loot_of_legends_public.Battle.Instance.{
  BattleInstance, ParticipantRecord, is_committed, is_not_ready, has, participant_record,
  observe_battle_time, put,
}
use loot_of_legends_public.Battle.Instance.Input.{
  still, suspend_input, same, resume_input, is_least, is_old, steer, limit_move, MoveCommand,
  accept_move, moved, integrate_movement, capture_state_snapshot,
}
use loot_of_legends_public.Battle.Instance.Invariant.{IsPlayer, IsSound}
use loot_of_legends_public.Battle.Instance.Invariant.Participants.{
  find_participant_lem, put-IsPlayer, map-IsPlayer,
}

-- A refill leaves the credit within the capacity, and `spend` lowers it.
pub refill-credit :
    (capacity rate full : ℕ) (l : RateLimit) (now : ℕ)
    → l.credit_units ≤ capacity
    → (refill capacity rate full l now).credit_units ≤ capacity
unfolding refill
refill-credit capacity rate full l now h = since l.last_update
  where
    since :
        (o : Option ℕ)
        → (refill_since capacity rate full o l.credit_units now).credit_units ≤ capacity
    since none = h
    since (some last) = ground arith

clamp_position-bounded : (z : ℤ) → magnitude (clamp_position z) ≤ 10000
clamp_position-bounded (pos n) = elim (Bool-cases (ltb 10000 n)) [
  | inl e ↦ rw e (omega arith)
  | inr e ↦ rw e (ground arith)
]
clamp_position-bounded (negsuc n) = elim (Bool-cases (ltb 9999 n)) [
  | inl e ↦ rw e (omega arith)
  | inr e ↦ rw e (ground arith)
]

moved-IsPlayer :
    (battle : ℕ) (p : ParticipantRecord) → IsPlayer battle p → IsPlayer battle (moved p)
moved-IsPlayer battle p (arena, limited, active, scoped) =
    elim (Bool-cases (not p.gameplay_eligible || not p.input_enabled)) [
      | inl e ↦ rw e (arena, limited, active, scoped)
      | inr e ↦
          let (x, y, slow) = arena in
          let one = clamp_position-bounded (p.pos_x +ℤ p.tick_delta_x) in
          let two = clamp_position-bounded (p.pos_y +ℤ p.tick_delta_y) in
          rw e ((one, two, slow), limited, active, scoped)
    ]

-- A participant of the battle is changed.
pub put-IsSound :
    (start b : BattleInstance) (q : ParticipantRecord)
    → IsSound start b
    → IsPlayer b.battle_id q
    → IsSound start (record b { participant_records = put q b.participant_records })
put-IsSound start b q (decided, staffed, ledger, players) player =
    (decided, staffed, ledger, put-IsPlayer b.battle_id q b.participant_records player players)

-- What is found is a participant of the battle.
pub found-IsPlayer :
    (start b : BattleInstance) (session : ℕ) (p : ParticipantRecord)
    → IsSound start b
    → participant_record b session ≡ some p
    → IsPlayer b.battle_id p × (p.session_id ≡ session)
found-IsPlayer start b session p (decided, staffed, ledger, players) e =
    find_participant_lem b.battle_id session b.participant_records p players e

pub observe-IsSound :
    (start b : BattleInstance) (at : BattleTime)
    → IsSound start b
    → IsSound start (observe_battle_time b at)
unfolding observe_battle_time
observe-IsSound start b at v = v

-- Either branch of a test.
either {ℓ} :
    {R : Type ℓ} (P : BattleInstance → Type 0) (test : Bool) (x y : BattleInstance × R)
    → P x.0
    → P y.0
    → P (if test then x else y).0
either P true x y h k = h
either P false x y h k = k

pub suspend_input-IsSound :
    (start b : BattleInstance) (session generation : ℕ) (at : BattleTime)
    → IsSound start b
    → IsSound start (suspend_input b session generation at).0
unfolding suspend_input observe_battle_time
suspend_input-IsSound start b session generation at v = elim (Bool-cases (is_committed b.state)) [
  | inr e ↦ rw (e, suspend_input) v
  | inl e ↦ elim (Option-cases (participant_record b session)) [
    | inl f ↦ rw (e, suspend_input, f) v
    | inr (p, f) ↦ elim (Bool-cases (not (p.generation == generation))) [
      | inl g ↦ rw (e, suspend_input, f, g) v
      | inr g ↦
          elim (Bool-cases (
            p.input_enabled
            || not (magnitude p.tick_delta_x == 0)
            || not (magnitude p.tick_delta_y == 0))) [
              | inr h ↦ rw (e, suspend_input, f, g, h) v
              | inl h ↦
                  let (((x, y, slow), limited, (able, present), scoped), named) =
                    found-IsPlayer start b session p v f in
                  let player : IsPlayer b.battle_id (still p) =
                    ((x, y, omega arith), limited, (refl, present), scoped) in
                  rw (e, suspend_input, f, g, h)
                    (put-IsSound start (observe_battle_time b at) (still p) v player)
            ]
    ]
  ]
]

pub resume_input-IsSound :
    (start b : BattleInstance) (session generation : ℕ) (at : BattleTime)
    → IsSound start b
    → IsSound start (resume_input b session generation at).0
unfolding resume_input observe_battle_time
resume_input-IsSound start b session generation at v = elim (Bool-cases (is_committed b.state)) [
  | inr e ↦ rw (e, resume_input) v
  | inl e ↦ elim (Option-cases (participant_record b session)) [
    | inl f ↦ rw (e, resume_input, f) v
    | inr (p, f) ↦ elim (Bool-cases (not (p.generation == generation))) [
      | inl g ↦ rw (e, resume_input, f, g) v
      | inr g ↦
          let enabled = p.gameplay_eligible && is_not_ready b.result_state in
          elim (Bool-cases (not (same p.input_enabled enabled))) [
            | inr h ↦ rw (e, resume_input, f, g, h) v
            | inl h ↦
                let ((arena, limited, (able, present), scoped), named) =
                  found-IsPlayer start b session p v f in
                let allowed : (not enabled || p.gameplay_eligible) ≡ true = ground arith in
                let player : IsPlayer b.battle_id (record p { input_enabled = enabled }) =
                  (arena, limited, (allowed, present), scoped) in
                rw (e, resume_input, f, g, h)
                  (put-IsSound start (observe_battle_time b at)
                    (record p { input_enabled = enabled }) v player)
          ]
    ]
  ]
]

limit_move-IsSound :
    (start b : BattleInstance) (p : ParticipantRecord) (m : MoveCommand) (at : BattleTime)
    → IsSound start b
    → IsPlayer b.battle_id p
    → IsSound start (limit_move b p m at).0
unfolding limit_move steer observe_battle_time
limit_move-IsSound start b p m at v ((x, y, slow), (move, strike, claim), active, scoped) =
    let rate = refill_move p.move_rate at.battle_elapsed_nanos in
    let bound = refill-credit 6000000000 30 200000000 p.move_rate at.battle_elapsed_nanos move in
    elim (Bool-cases (ltb rate.credit_units rate_token_units)) [
      | inl e ↦
          let limited : IsPlayer b.battle_id (record p { move_rate = rate }) =
            ((x, y, slow), (bound, strike, claim), active, scoped) in
          rw (e, limit_move)
            (put-IsSound start (observe_battle_time b at) (record p { move_rate = rate }) v limited)
      | inr e ↦
          let less : (spend rate).credit_units ≤ 6000000000 = omega (arith, bound) in
          let steered : IsPlayer b.battle_id (steer p rate m) =
            ((x, y, tick_delta_bound m.direction), (less, strike, claim), active, scoped) in
          rw (e, limit_move)
            (put-IsSound start (observe_battle_time b at) (steer p rate m) v steered)
    ]

-- A predicate that holds of the battle, and after a fresh move of one of its participants, holds
-- after any move.
accept_move_cases :
    (P : BattleInstance → Type 0) (b : BattleInstance) (m : MoveCommand) (at : BattleTime)
    → P b
    → ((p : ParticipantRecord)
        → participant_record b m.session_id ≡ some p
        → P (limit_move b p m at).0)
    → P (accept_move b m at).0
unfolding accept_move
accept_move_cases P b m at h k = elim (Option-cases (participant_record b m.session_id)) [
  | inl f ↦
      rw (f, accept_move)
        (either P (not (m.battle_id == b.battle_id)) _ _ h
          (either P (not (is_committed b.state)) _ _ h h))
  | inr (p, f) ↦
      rw (f, accept_move)
        (either P (not (m.battle_id == b.battle_id)) _ _ h (
          either P (not (is_committed b.state)) _ _ h (
            either P (not (p.generation == m.generation)) _ _ h (
              either P (not p.gameplay_eligible || not p.input_enabled) _ _ h (
                either P
                  (not (m.direction.input_flags == 0)
                    || is_least m.direction.desired_x
                    || is_least m.direction.desired_y)
                  _ _ h
                  (either P (is_old p.latest_seen_action_sequence m.action_sequence) _ _ h
                    (k p f)))))))
]

pub accept_move-IsSound :
    (start b : BattleInstance) (m : MoveCommand) (at : BattleTime)
    → IsSound start b
    → IsSound start (accept_move b m at).0
accept_move-IsSound start b m at v =
    accept_move_cases (IsSound start) b m at v
      (λ p f. limit_move-IsSound start b p m at v (found-IsPlayer start b m.session_id p v f).0)

pub integrate_movement-IsSound :
    (start b : BattleInstance) (battle server_tick : ℕ) (at : BattleTime)
    → IsSound start b
    → IsSound start (integrate_movement b battle server_tick at).0
unfolding integrate_movement observe_battle_time
integrate_movement-IsSound start b battle server_tick at v =
    elim (Bool-cases (not (battle == b.battle_id))) [
      | inl e ↦ rw (e, integrate_movement) v
      | inr e ↦ elim (Bool-cases (not (is_committed b.state))) [
        | inl f ↦ rw (e, f, integrate_movement) v
        | inr f ↦ elim (Bool-cases (is_old b.last_integrated_server_tick server_tick)) [
          | inl g ↦ rw (e, f, g, integrate_movement) v
          | inr g ↦
              let (decided, staffed, ledger, players) = v in
              let walked =
                map-IsPlayer b.battle_id moved b.participant_records (moved-IsPlayer b.battle_id)
                  players in
              rw (e, f, g, integrate_movement) (decided, staffed, ledger, walked)
        ]
      ]
    ]

pub capture_state_snapshot-IsSound :
    (start b : BattleInstance) → IsSound start b → IsSound start (capture_state_snapshot b).0
unfolding capture_state_snapshot
capture_state_snapshot-IsSound start b v =
    elim (Bool-cases (not (is_committed b.state) || not (has b.last_integrated_server_tick))) [
      | inl e ↦ rw (e, capture_state_snapshot) v
      | inr e ↦ rw (e, capture_state_snapshot) v
    ]

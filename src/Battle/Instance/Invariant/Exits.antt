-- ===== src/Battle/Instance/Invariant/Exits.antt =====
-- Disconnection, leaving and cancellation keep a battle sound.
use loot_of_legends_public.Base.{
  ℕ, ◌≡◌, refl, sym, ◌∙◌, true, false, not, ◌||◌, ◌==◌, List, [], ◌∷◌, Option, none, some, All, map,
  length, arith, inl, inr, Bool-cases, Option-cases,
}
use loot_of_legends_public.Battle.Time.{BattleTime}
use loot_of_legends_public.Battle.Result.{
  ParticipantExitStatus, voluntary_left, CapturedParticipant, LootDropState, claimed, available,
  unclaimed, cancelled_no_active_participants, LootHoldingProjection,
}
use loot_of_legends_public.Battle.Result
use loot_of_legends_public.Battle.Result.Checks.{any_of, is_claimed}
use loot_of_legends_public.Battle.Instance.{
  BattleInstance, ParticipantRecord, LootDropRecord, CombatTerminalRecord, is_committed,
  is_not_ready, is_open, has, participant_record, observe_battle_time, disconnected,
}
use loot_of_legends_public.Battle.Instance.Load.{
  BattleLoadResultCode, Correlation, refused, correlated, correlate, is_barrier_open, is_pending,
}
use loot_of_legends_public.Battle.Instance.Exit.{
  close_drop, close_loot, apply_cancellation_if_no_active_participants, set_captured,
  is_eligible_status, frozen, freeze, freeze_found, freeze_exited, freeze_correlated, disconnect,
  disconnect_correlated, leave,
}
use loot_of_legends_public.Battle.Instance.Invariant.{
  IsPlayer, IsSound, IsLedger, IsDrop, IsDistinct, is_present, is_owned, taken, Stays,
}
use loot_of_legends_public.Battle.Instance.Invariant.Participants.{
  find_participant_lem, put-IsPlayer,
}
use loot_of_legends_public.Battle.Instance.Invariant.Commits.{commit_result_if_ready-IsSound}
use loot_of_legends_public.Battle.Instance.Invariant.Loads.{resolved-IsSound, length-set_candidate}

-- A closed drop keeps its number, and is claimed as much as before.
abbrev pub IsClosed : LootDropRecord → LootDropRecord → Type 0
IsClosed r q =
    IsDrop q × (q.drop ≡ r.drop) × (is_claimed q.state ≡ is_claimed r.state) × (q.owner ≡ r.owner)

unowned : (o : Option ℕ) → is_owned available o ≡ true → is_owned unclaimed o ≡ true
unowned none h = refl
unowned (some _) h = absurd (ground arith)

close_drop_lem : (r : LootDropRecord) → IsDrop r → IsClosed r (close_drop r)
close_drop_lem r (one, owned) = closed r.state refl
  where
    closed : (s : LootDropState) → r.state ≡ s → IsClosed r (close_drop r)
    closed available e = rw e ((one, unowned r.owner (rw e at owned)), refl, refl, refl)
    closed claimed e = rw e ((one, rw e at owned), refl, refl, refl)
    closed unclaimed e = rw e ((one, rw e at owned), refl, refl, refl)

close_drops-each : (rs : List LootDropRecord) → All IsDrop rs → All IsDrop (map close_drop rs)
close_drops-each [] a = tt
close_drops-each (r ∷ rs) (x, a) = ((close_drop_lem r x).0, close_drops-each rs a)

close_drops-same :
    (id : ℕ) (rs : List LootDropRecord)
    → All IsDrop rs
    → any_of (λ other. id == other.drop.drop_id) (map close_drop rs)
      ≡ any_of (λ other. id == other.drop.drop_id) rs
close_drops-same id [] a = refl
close_drops-same id (r ∷ rs) (x, a) =
    let (kept, drop, state, owner) = close_drop_lem r x in rw (drop, close_drops-same id rs a)

close_drops-IsDistinct :
    (rs : List LootDropRecord) → All IsDrop rs → IsDistinct rs → IsDistinct (map close_drop rs)
close_drops-IsDistinct [] a d = tt
close_drops-IsDistinct (r ∷ rs) (x, a) (fresh, d) =
    let (kept, drop, state, owner) = close_drop_lem r x in
    (rw (drop, close_drops-same r.drop.drop_id rs a) fresh, close_drops-IsDistinct rs a d)

taken-close_drops :
    (session item : ℕ) (rs : List LootDropRecord)
    → All IsDrop rs
    → taken session item (map close_drop rs) ≡ taken session item rs
taken-close_drops session item [] a = refl
taken-close_drops session item (r ∷ rs) (x, a) =
    let (kept, drop, state, owner) = close_drop_lem r x in
    rw (drop, state, owner, taken-close_drops session item rs a)

length-close_drops : (rs : List LootDropRecord) → length (map close_drop rs) ≡ length rs
length-close_drops [] = refl
length-close_drops (r ∷ rs) = omega (arith, length-close_drops rs)

none_to_close : (rs : List LootDropRecord) → rs ≡ [] → map close_drop rs ≡ []
none_to_close rs e = rw e

pub close_drops-IsLedger :
    (terminal : Option CombatTerminalRecord) (drops : List LootDropRecord)
    (holdings : List LootHoldingProjection)
    → IsLedger terminal drops holdings
    → IsLedger terminal (map close_drop drops) holdings
close_drops-IsLedger terminal drops holdings v = record {
  begins = elim v.begins [ inl e ↦ inl e | inr (e, f) ↦ inr (none_to_close drops e, f) ];
  each = close_drops-each drops v.each;
  distinct = close_drops-IsDistinct drops v.each v.distinct;
  few = rw (length-close_drops drops) v.few;
  conserved =
      λ session item. v.conserved session item ∙ sym (taken-close_drops session item drops v.each);
}

-- What is not decided yet was not decided at the start, and may be now.
pub undecided-Stays {ℓ} :
    {A : Type ℓ} (before now after : Option A)
    → Stays before now
    → has now ≡ false
    → Stays before after
undecided-Stays none now after h e = tt
undecided-Stays (some x) now after h e =
    let there : has now ≡ true = rw h refl in absurd (ground arith)

close_loot-IsSound : (start b : BattleInstance) → IsSound start b → IsSound start (close_loot b)
close_loot-IsSound start b (decided, staffed, ledger, players) =
    elim (Bool-cases (is_open b.loot_resolution)) [
      | inl e ↦ rw e (
        decided,
        staffed,
        close_drops-IsLedger b.combat_terminal b.drops b.holdings ledger,
        players,
      )
      | inr e ↦ rw e (decided, staffed, ledger, players)
    ]

pub cancellation-IsSound :
    (start b : BattleInstance)
    → IsSound start b
    → IsSound start (apply_cancellation_if_no_active_participants b)
unfolding apply_cancellation_if_no_active_participants
cancellation-IsSound start b v =
    elim (Bool-cases (
      has b.battle_terminal_outcome
      || not (is_not_ready b.result_state)
      || any_of (λ p. p.gameplay_eligible) b.participant_records)) [
        | inl e ↦ rw (e, apply_cancellation_if_no_active_participants) v
        | inr e ↦
            let ((reported, final, combat, before), staffed, ledger, players) = v in
            let free =
              undecided-Stays start.battle_terminal_outcome b.battle_terminal_outcome
                (some cancelled_no_active_participants) before (ground arith) in
            rw (e, apply_cancellation_if_no_active_participants)
              (close_loot-IsSound start _
                ((reported, final, combat, free), staffed, ledger, players))
      ]

length-set_captured :
    (session : ℕ) (status : ParticipantExitStatus) (ps : List CapturedParticipant)
    → length (set_captured session status ps) ≡ length ps
unfolding set_captured
length-set_captured session status [] = refl
length-set_captured session status (p ∷ ps) = ground (arith, length-set_captured session status ps)

frozen-IsPlayer :
    (battle : ℕ) (p : ParticipantRecord) (status : ParticipantExitStatus)
    → is_present status ≡ false
    → IsPlayer battle p
    → IsPlayer battle (frozen p status)
frozen-IsPlayer battle p status gone ((x, y, slow), limited, active, scoped) =
    ((x, y, omega arith), limited, (refl, sym gone), scoped)

freeze-IsSound :
    (start b : BattleInstance) (p : ParticipantRecord) (status : ParticipantExitStatus)
    (at : BattleTime)
    → is_present status ≡ false
    → IsPlayer b.battle_id p
    → IsSound start b
    → IsSound start (freeze b p status at)
unfolding freeze observe_battle_time
freeze-IsSound start b p status at gone player (decided, (seeded, few, staffed), ledger, players) =
    commit_result_if_ready-IsSound start _ at (
      cancellation-IsSound start _ (
        decided,
        (seeded, few, rw (length-set_captured p.session_id status b.captured_participants) staffed),
        ledger,
        put-IsPlayer b.battle_id (frozen p status) b.participant_records
            (frozen-IsPlayer b.battle_id p status gone player) players,
      ))

freeze_found-IsSound :
    (start b : BattleInstance) (session : ℕ) (status : ParticipantExitStatus) (at : BattleTime)
    → is_present status ≡ false
    → IsSound start b
    → IsSound start (freeze_found b session status at)
unfolding freeze_found
freeze_found-IsSound start b session status at gone v = elim (Bool-cases (is_committed b.state)) [
  | inr e ↦ rw (e, freeze_found) v
  | inl e ↦ elim (Option-cases (participant_record b session)) [
    | inl f ↦ rw (e, freeze_found, f) v
    | inr (p, f) ↦ elim (Bool-cases (is_eligible_status p.exit_status)) [
      | inr g ↦ rw (e, freeze_found, f, g) v
      | inl g ↦
          let (decided, staffed, ledger, players) = v in
          let (player, named) =
            find_participant_lem b.battle_id session b.participant_records p players f in
          rw (e, freeze_found, f, g) (freeze-IsSound start b p status at gone player v)
    ]
  ]
]

freeze_exited-IsSound :
    (start b : BattleInstance) (room battle session generation : ℕ) (status : ParticipantExitStatus)
    (at : BattleTime)
    → is_present status ≡ false
    → IsSound start b
    → IsSound start (freeze_exited b room battle session generation status at).0
unfolding freeze_exited
freeze_exited-IsSound start b room battle session generation status at gone v =
    done (correlate b room battle session generation)
  where
    done : (x : Correlation) → IsSound start (freeze_correlated b session status at x).0
    done (refused code) = v
    done (correlated c) = freeze_found-IsSound start b session status at gone v

pub leave-IsSound :
    (start b : BattleInstance) (room battle session generation : ℕ) (at : BattleTime)
    → IsSound start b
    → IsSound start (leave b room battle session generation at).0
unfolding leave
leave-IsSound start b room battle session generation at v =
    freeze_exited-IsSound start b room battle session generation voluntary_left at refl v

pub disconnect-IsSound :
    (start b : BattleInstance) (room battle session generation : ℕ) (at : BattleTime)
    → IsSound start b
    → IsSound start (disconnect b room battle session generation at).0
unfolding disconnect observe_battle_time
disconnect-IsSound start b room battle session generation at v =
    done (correlate b room battle session generation)
  where
    exited : BattleInstance × BattleLoadResultCode
    exited = freeze_exited b room battle session generation Result.disconnected at

    done : (x : Correlation) → IsSound start (disconnect_correlated b session at x exited).0
    done (refused code) = v
    done (correlated c) = elim (Bool-cases (is_committed b.state)) [
      | inl e ↦ rw e (
          freeze_exited-IsSound start b room battle session generation Result.disconnected at refl
            v)
      | inr e ↦ elim (Bool-cases (not (is_barrier_open b.state) || not (is_pending c.state))) [
        | inl f ↦ rw (e, f) v
        | inr f ↦
            rw (e, f)
              (resolved-IsSound start b at _
                (length-set_candidate session disconnected b.candidates) v)
      ]
    ]

-- ===== src/Battle/Instance/Invariant/Participants.antt =====
-- The participants of a battle, found and changed.
use loot_of_legends_public.Base.{
  ℕ, ◌≡◌, ◌==◌, List, [], ◌∷◌, some, All, map, arith, inl, inr, Bool-cases,
}
use loot_of_legends_public.Battle.Instance.{ParticipantRecord, find_participant, put}
use loot_of_legends_public.Battle.Instance.Invariant.{IsPlayer}

-- What `find_participant` finds is a participant, of that session.
pub find_participant_lem :
    (battle session : ℕ) (ps : List ParticipantRecord) (p : ParticipantRecord)
    → All (IsPlayer battle) ps
    → find_participant session ps ≡ some p
    → IsPlayer battle p × (p.session_id ≡ session)
find_participant_lem battle session [] p a e = absurd (ground arith)
find_participant_lem battle session (q ∷ qs) p (x, a) e =
    elim (Bool-cases (q.session_id == session)) [
      | inl y ↦ let same : q ≡ p = ground arith in (rw same at x, rw (← same) (ground arith))
      | inr y ↦ find_participant_lem battle session qs p a (ground arith)
    ]

pub put-IsPlayer :
    (battle : ℕ) (q : ParticipantRecord) (ps : List ParticipantRecord)
    → IsPlayer battle q
    → All (IsPlayer battle) ps
    → All (IsPlayer battle) (put q ps)
unfolding put
put-IsPlayer battle q [] h a = tt
put-IsPlayer battle q (p ∷ ps) h (x, a) = elim (Bool-cases (p.session_id == q.session_id)) [
  | inl y ↦ rw y (h, a)
  | inr y ↦ rw y (x, put-IsPlayer battle q ps h a)
]

pub map-IsPlayer :
    (battle : ℕ) (f : ParticipantRecord → ParticipantRecord) (ps : List ParticipantRecord)
    → ((p : ParticipantRecord) → IsPlayer battle p → IsPlayer battle (f p))
    → All (IsPlayer battle) ps
    → All (IsPlayer battle) (map f ps)
map-IsPlayer battle f [] h a = tt
map-IsPlayer battle f (p ∷ ps) h (x, a) = (h p x, map-IsPlayer battle f ps h a)

-- What was put is found again.
pub find-put :
    (session : ℕ) (q p : ParticipantRecord) (ps : List ParticipantRecord)
    → q.session_id ≡ session
    → find_participant session ps ≡ some p
    → find_participant session (put q ps) ≡ some q
unfolding put
find-put session q p [] h e = absurd (ground arith)
find-put session q p (r ∷ rs) h e = ground (arith, find-put session q p rs h)

pub find-map :
    (f : ParticipantRecord → ParticipantRecord) (session : ℕ) (ps : List ParticipantRecord)
    (p : ParticipantRecord)
    → ((q : ParticipantRecord) → (f q).session_id ≡ q.session_id)
    → find_participant session ps ≡ some p
    → find_participant session (map f ps) ≡ some (f p)
find-map f session [] p h e = absurd (ground arith)
find-map f session (q ∷ qs) p h e = ground (arith, h q, find-map f session qs p h)

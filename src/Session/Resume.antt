-- ===== src/Session/Resume.antt =====
-- Detaching, resuming and taking over a session.
use loot_of_legends_public.Base.{
  ℕ, ◌<◌, ◌≡◌, ◌≢◌, ◌↔◌, refl, ap, ◌∙◌, true, ◌==◌, none, some, arith, Bool-cases, Option-cases,
  inl, inr,
}
use loot_of_legends_public.Base.Maps.{find, erase, find-insert_or_assign, find-erase}
use loot_of_legends_public.Session.{
  ActiveSession, SessionRegistry, ClaimedGameIdentity, AuthenticateSessionResult, ReplacedSession,
  install, authenticate, detach, resume, resume_code, finish_resume, ResumeSessionCode, ok, routed,
  matching, assign,
}
use loot_of_legends_public.Session.Invariant.{IsValid, fresh_route}
use loot_of_legends_public.Session.Run.{matching_lem, routed_lem}

-- The session of that number and account may be resumed with that generation at that time.
abbrev pub Resumable : SessionRegistry → ClaimedGameIdentity → ℕ → ℕ → ℕ → Type 0
Resumable r identity k g now =
    (s : ActiveSession) × (find k r.account_by_session ≡ some identity.account_id)
    × (find identity.account_id r.current_by_account ≡ some s)
    × (s.session_id ≡ k)
    × (s.resume_proof_generation ≡ some g)
    × ((t : ℕ) × (s.detached_until ≡ some t) × (now < t))

resume_code_ok :
    (s : ActiveSession) (g now : ℕ)
    → resume_code s g now ≡ ok
    → (s.resume_proof_generation ≡ some g) × ((t : ℕ) × (s.detached_until ≡ some t) × (now < t))
resume_code_ok s g now h = elim (Option-cases s.detached_until) [
  | inl x ↦ absurd (ground arith)
  | inr (t, x) ↦ (ground arith, (t, x, ground arith))
]

finish_resume_code :
    (r : SessionRegistry) (a : ℕ) (s : ActiveSession) (c : ResumeSessionCode)
    → (finish_resume r a s c).1 ≡ c
finish_resume_code r a s ok = refl
finish_resume_code r a s _ = refl

resume_ok :
    (r : SessionRegistry) (identity : ClaimedGameIdentity) (k g now : ℕ)
    → (resume r identity k g now).1 ≡ ok
    → Resumable r identity k g now
unfolding resume
resume_ok r identity k g now h = elim (Option-cases (find k r.account_by_session)) [
  | inl x ↦ absurd (ground arith)
  | inr (a, x) ↦ elim (Bool-cases (a == identity.account_id)) [
    | inr y ↦ absurd (ground arith)
    | inl y ↦
        let same : a ≡ identity.account_id = ground arith in
        elim (Option-cases (matching k (find a r.current_by_account))) [
          | inl z ↦ absurd (ground arith)
          | inr (s, z) ↦
              let (found, named) = matching_lem k _ s z in
              let code : resume_code s g now ≡ ok =
                ground (arith, finish_resume_code r a s (resume_code s g now)) in
              let (proved, until) = resume_code_ok s g now code in
              (s, x ∙ ap some same, rw same at found, named, proved, until)
        ]
  ]
]

Resumable-ok :
    (r : SessionRegistry) (identity : ClaimedGameIdentity) (k g now : ℕ)
    → Resumable r identity k g now
    → (resume r identity k g now).1 ≡ ok
unfolding resume
Resumable-ok r identity k g now (s, x, found, named, proved, (t, until, early)) = ground arith

-- A resumption succeeds exactly when the session is routed to the claimed account, is that
-- account's session, is detached with a deadline still to come, and proves the generation given.
pub resume_exactly :
    (r : SessionRegistry) (identity : ClaimedGameIdentity) (k g now : ℕ)
    → ((resume r identity k g now).1 ≡ ok) ↔ Resumable r identity k g now
resume_exactly r identity k g now = (resume_ok r identity k g now, Resumable-ok r identity k g now)

abbrev waiting : ActiveSession → ℕ → ℕ → ActiveSession
waiting s g t = record s { detached_until = some t; resume_proof_generation = some g }

abbrev attached : ActiveSession → ActiveSession
attached s = record s { detached_until = none; resume_proof_generation = none }

-- A session that was detached can be resumed by its account, with the generation that it had, at
-- any time before its deadline.
pub detach-resume :
    (r : SessionRegistry) (identity : ClaimedGameIdentity) (k g t now : ℕ)
    → (detach r k g t).1 ≡ true
    → find k r.account_by_session ≡ some identity.account_id
    → now < t
    → (resume (detach r k g t).0 identity k g now).1 ≡ ok
unfolding detach
detach-resume r identity k g t now h owned early =
    elim (Option-cases (routed r k (find k r.account_by_session))) [
      | inl x ↦ absurd (ground arith)
      | inr ((a, s), x) ↦
          let (route, found, named) = routed_lem r k _ a s x in
          let same : a ≡ identity.account_id = ground arith in
          let changed : (detach r k g t).0 ≡ assign r a (waiting s g t) = ground arith in
          let at =
            find-insert_or_assign a identity.account_id (waiting s g t) r.current_by_account in
          rw changed (
            Resumable-ok (assign r a (waiting s g t)) identity k g now
              (waiting s g t, owned, ground arith, named, refl, (t, refl, early)))
    ]

resume_changes :
    (r : SessionRegistry) (identity : ClaimedGameIdentity) (k g now : ℕ)
    → (can : Resumable r identity k g now)
    → (resume r identity k g now).0 ≡ assign r identity.account_id (attached can.0)
unfolding resume
resume_changes r identity k g now (s, x, found, named, proved, (t, until, early)) = ground arith

-- No resumption can be repeated: right after one that succeeded, no other of that session
-- succeeds, whatever the claimed identity, the generation and the time.
pub resume_once :
    (r : SessionRegistry) (identity other : ClaimedGameIdentity) (k g g' now later : ℕ)
    → (resume r identity k g now).1 ≡ ok
    → (resume (resume r identity k g now).0 other k g' later).1 ≢ ok
resume_once r identity other k g g' now later h again =
    let can = resume_ok r identity k g now h in
    let (s, x, found, named, proved, until) = can in
    let changed = resume_changes r identity k g now can in
    let next = resume_ok _ other k g' later again in
    let (u, y, found', named', proved', (t, waits, early)) = rw changed at next in
    let at =
      find-insert_or_assign identity.account_id other.account_id (attached s)
        r.current_by_account in
    ground arith

-- A login takes the account over: in a valid registry, the session that it replaces is no longer
-- routed, the new one is routed to the account, and it has a generation above that of the
-- replaced one.
pub authenticate_takes_over :
    (r q : SessionRegistry) (identity : ClaimedGameIdentity) (x : AuthenticateSessionResult)
    (old : ReplacedSession)
    → IsValid r
    → authenticate r identity ≡ some (q, x)
    → x.replaced ≡ some old
    → (find old.session_id q.account_by_session ≡ none)
      × (find x.session_id q.account_by_session ≡ some identity.account_id)
      × (old.generation < x.generation)
unfolding authenticate install
authenticate_takes_over r q identity x old v h replaced =
    elim (Option-cases (find identity.account_id r.current_by_account)) [
      | inl e ↦ absurd (ground arith)
      | inr (s, e) ↦
          let route = v.routes identity.account_id s e in
          let below = v.fresh_session s.session_id identity.account_id route in
          let older = v.fresh_generation identity.account_id s e in
          let gone = find-erase s.session_id s.session_id r.account_by_session in
          let fresh = rw e at (fresh_route r identity v) in
          let kept = erase s.session_id r.account_by_session in
          let place =
            λ (k : ℕ). find-insert_or_assign r.next_session_id k identity.account_id kept in
          let same : old.session_id ≡ s.session_id = ground arith in
          (
            rw same (ground (arith, place s.session_id)),
            ground (arith, place x.session_id, place r.next_session_id),
            ground arith,
          )
    ]

-- ===== src/Session/Run.antt =====
-- Any history of calls on a SessionRegistry.
use loot_of_legends_public.Base.{
  ℕ, ◌≡◌, refl, ap, not, ◌||◌, ◌==◌, List, [], ◌∷◌, Option, none, some, arith, Bool-cases,
  Option-cases, inl, inr,
}
use mathlib.Core.Path.{subst}
use loot_of_legends_public.Base.Maps.{find, erase, has_value}
use loot_of_legends_public.Session.{
  ActiveSession, SessionRegistry, ClaimedGameIdentity, AuthenticateSessionResult, new_registry,
  install, authenticate, detach, disconnect, resume, resume_code, finish_resume, ResumeSessionCode,
  ok, routed, matching,
}
use loot_of_legends_public.Session.Recover.{RecoveredDetachedSession, install_recovered_detached}
use loot_of_legends_public.Session.RecoverKeeps.{install_recovered-IsValid}
use loot_of_legends_public.Session.Invariant.{
  IsValid, new_registry-IsValid, install-IsValid, assign-IsValid, erase-IsValid,
}

pub matching_lem :
    (k : ℕ) (o : Option ActiveSession) (s : ActiveSession)
    → matching k o ≡ some s
    → (o ≡ some s) × (s.session_id ≡ k)
matching_lem k none s h = absurd (ground arith)
matching_lem k (some t) s h = (ground arith, ground arith)

-- What `routed` finds is the account's session, of that number.
pub routed_lem :
    (r : SessionRegistry) (k : ℕ) (o : Option ℕ) (a : ℕ) (s : ActiveSession)
    → routed r k o ≡ some (a, s)
    → (o ≡ some a) × (find a r.current_by_account ≡ some s) × (s.session_id ≡ k)
routed_lem r k none a s h = absurd (ground arith)
routed_lem r k (some b) a s h = elim (Option-cases (matching k (find b r.current_by_account))) [
  | inl x ↦ absurd (ground arith)
  | inr (t, x) ↦
      let (found, named) = matching_lem k (find b r.current_by_account) t x in
      let same : b ≡ a = ground arith in
      let one : t ≡ s = ground arith in (ap some same, rw (← same, ← one) found, rw (← one) named)
]

authenticate-IsValid :
    (r : SessionRegistry) (identity : ClaimedGameIdentity) (q : SessionRegistry)
    (x : AuthenticateSessionResult)
    → IsValid r
    → authenticate r identity ≡ some (q, x)
    → IsValid q
unfolding authenticate
authenticate-IsValid r identity q x v h =
    let e : (install r identity (find identity.account_id r.current_by_account)).0 ≡ q =
      ground arith in
    rw e at (install-IsValid r identity v)

detach-IsValid : (r : SessionRegistry) (k g t : ℕ) → IsValid r → IsValid (detach r k g t).0
unfolding detach
detach-IsValid r k g t v = elim (Option-cases (routed r k (find k r.account_by_session))) [
  | inl x ↦ rw (x, detach) v
  | inr ((a, s), x) ↦
      let (owned, at, named) = routed_lem r k _ a s x in
      elim (Bool-cases (not (s.generation == g) || has_value s.detached_until)) [
        | inl y ↦ rw (x, detach, y) v
        | inr y ↦ rw (x, detach, y) (assign-IsValid r a s _ v at refl refl refl)
      ]
]

disconnect-IsValid : (r : SessionRegistry) (k g : ℕ) → IsValid r → IsValid (disconnect r k g).0
unfolding disconnect
disconnect-IsValid r k g v = elim (Option-cases (routed r k (find k r.account_by_session))) [
  | inl x ↦ rw (x, disconnect) v
  | inr ((a, s), x) ↦
      let (owned, at, named) = routed_lem r k _ a s x in
      elim (Bool-cases (s.generation == g)) [
        | inl y ↦
            let done = erase-IsValid r a s v at in
            rw (x, disconnect, y)
              (subst
                (λ t. IsValid (record r {
                  current_by_account = erase a r.current_by_account;
                  account_by_session = erase t r.account_by_session;
                }))
                named done)
        | inr y ↦ rw (x, disconnect, y) v
      ]
]

finish_resume-IsValid :
    (r : SessionRegistry) (a : ℕ) (s : ActiveSession) (c : ResumeSessionCode)
    → IsValid r
    → find a r.current_by_account ≡ some s
    → IsValid (finish_resume r a s c).0
finish_resume-IsValid r a s ok v at = assign-IsValid r a s _ v at refl refl refl
finish_resume-IsValid r a s _ v at = v

resume-IsValid :
    (r : SessionRegistry) (identity : ClaimedGameIdentity) (k g now : ℕ)
    → IsValid r
    → IsValid (resume r identity k g now).0
unfolding resume
resume-IsValid r identity k g now v = elim (Option-cases (find k r.account_by_session)) [
  | inl x ↦ rw (x, resume) v
  | inr (a, x) ↦ elim (Bool-cases (a == identity.account_id)) [
    | inr y ↦ rw (x, resume, y) v
    | inl y ↦ elim (Option-cases (matching k (find a r.current_by_account))) [
      | inl z ↦ rw (x, resume, y, z) v
      | inr (s, z) ↦
          rw (x, resume, y, z)
            (finish_resume-IsValid r a s (resume_code s g now) v (matching_lem k _ s z).0)
    ]
  ]
]

-- The calls that change a registry; a call that throws leaves it as it was.
pub data Call : Type 0 where
  authenticates : ClaimedGameIdentity → Call
  recovers : List RecoveredDetachedSession → ℕ → Call
  detaches : ℕ → ℕ → ℕ → Call
  resumes : ClaimedGameIdentity → ℕ → ℕ → ℕ → Call
  disconnects : ℕ → ℕ → Call

abbrev pub after {ℓ} :
    {X : Type ℓ} → SessionRegistry → Option (SessionRegistry × X) → SessionRegistry
after r none = r
after r (some (q, _)) = q

unfoldable pub step : SessionRegistry → Call → SessionRegistry
step r (authenticates identity) = after r (authenticate r identity)
step r (recovers sessions expires_at) = (install_recovered_detached r sessions expires_at).0
step r (detaches session generation expires_at) = (detach r session generation expires_at).0
step r (resumes identity session generation now) = (resume r identity session generation now).0
step r (disconnects session generation) = (disconnect r session generation).0

unfoldable pub run : SessionRegistry → List Call → SessionRegistry
run r [] = r
run r (c ∷ cs) = run (step r c) cs

step-IsValid : (r : SessionRegistry) (c : Call) → IsValid r → IsValid (step r c)
unfolding step
step-IsValid r (authenticates identity) v = elim (Option-cases (authenticate r identity)) [
  | inl x ↦ rw x v
  | inr ((q, y), x) ↦ rw x (authenticate-IsValid r identity q y v x)
]
step-IsValid r (recovers sessions t) v = install_recovered-IsValid r sessions t v
step-IsValid r (detaches k g t) v = detach-IsValid r k g t v
step-IsValid r (resumes identity k g now) v = resume-IsValid r identity k g now v
step-IsValid r (disconnects k g) v = disconnect-IsValid r k g v

run_from-IsValid : (r : SessionRegistry) (cs : List Call) → IsValid r → IsValid (run r cs)
unfolding run
run_from-IsValid r [] v = v
run_from-IsValid r (c ∷ cs) v = run_from-IsValid (step r c) cs (step-IsValid r c v)

-- After any calls on a new registry the two maps agree: an account's session is routed to the
-- account, and a route leads to the account's session of that number; every routed session number
-- and every generation is below its counter, so the next one is new; and a session is detached
-- exactly when it has a generation to prove on resumption.
pub run_new-IsValid :
    (g : ℕ) (r : SessionRegistry) (cs : List Call) → new_registry g ≡ some r → IsValid (run r cs)
run_new-IsValid g r cs h = run_from-IsValid r cs (new_registry-IsValid g r h)

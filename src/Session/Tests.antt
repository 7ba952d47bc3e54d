-- ===== src/Session/Tests.antt =====
-- Runs of the session registry on small inputs.
use loot_of_legends_public.Base.{◌≡◌, ◌≢◌, ◌↔◌, ◌<◌, refl, true, List, [], ◌∷◌, some, none, arith}
use loot_of_legends_public.Base.Maps.{find, insert_or_assign, erase}
use loot_of_legends_public.Session.{
  ActiveSession, SessionRegistry, ClaimedGameIdentity, AuthenticateSessionResult, new_registry,
  authenticate, install, detach, resume, ok,
}
use loot_of_legends_public.Session.Invariant.{IsValid}
use loot_of_legends_public.Session.Run.{
  Call, authenticates, recovers, detaches, resumes, disconnects, run, step, run_new-IsValid,
}
use loot_of_legends_public.Session.Resume.{
  Resumable, resume_exactly, detach-resume, resume_once, authenticate_takes_over,
}

abbrev identity : ClaimedGameIdentity
identity = record { account_id = 77; nickname = 65 ∷ [] }

abbrev fresh : SessionRegistry
fresh = record {
  current_by_account = [];
  account_by_session = [];
  next_session_id = 1;
  next_generation = 10;
}

started : new_registry 10 ≡ some fresh
unfolding new_registry
started = refl

abbrev calls : List Call
calls =
    authenticates identity
    ∷ detaches 1 10 500
    ∷ resumes identity 1 10 400
    ∷ recovers
        (record {
          identity = record { account_id = 5; nickname = 66 ∷ [] };
          session_id = 8;
          previous_generation = 3;
        }
          ∷ [])
        900
    ∷ disconnects 1 10
    ∷ []

run_new-IsValid_example : IsValid (run fresh calls)
run_new-IsValid_example = run_new-IsValid 10 fresh calls started

abbrev session : ActiveSession
session = record {
  session_id = 1;
  generation = 10;
  nickname = 65 ∷ [];
  detached_until = none;
  resume_proof_generation = none;
}

abbrev online : SessionRegistry
online = record {
  current_by_account = (77, session) ∷ [];
  account_by_session = (1, 77) ∷ [];
  next_session_id = 2;
  next_generation = 11;
}

logged_in : run fresh (authenticates identity ∷ []) ≡ online
unfolding run step authenticate install insert_or_assign erase find
logged_in = refl

online-IsValid : IsValid online
online-IsValid = rw logged_in at (run_new-IsValid 10 fresh (authenticates identity ∷ []) started)

detached : (detach online 1 10 500).1 ≡ true
unfolding detach find
detached = refl

routed_now : find 1 online.account_by_session ≡ some 77
unfolding find
routed_now = refl

detach-resume_example : (resume (detach online 1 10 500).0 identity 1 10 400).1 ≡ ok
detach-resume_example = detach-resume online identity 1 10 500 400 detached routed_now (omega arith)

resume_exactly_example :
    ((resume (detach online 1 10 500).0 identity 1 10 400).1 ≡ ok)
    ↔ Resumable (detach online 1 10 500).0 identity 1 10 400
resume_exactly_example = resume_exactly (detach online 1 10 500).0 identity 1 10 400

resume_once_example :
    (resume (resume (detach online 1 10 500).0 identity 1 10 400).0 identity 1 10 450).1 ≢ ok
resume_once_example =
    resume_once (detach online 1 10 500).0 identity identity 1 10 10 400 450
      (detach-resume online identity 1 10 500 400 detached routed_now (omega arith))

abbrev login : AuthenticateSessionResult
login = record {
  session_id = 2;
  generation = 11;
  replaced = some (record { session_id = 1; generation = 10 });
}

abbrev taken_over : SessionRegistry
taken_over = record {
  current_by_account = (77, record session { session_id = 2; generation = 11 }) ∷ [];
  account_by_session = (2, 77) ∷ [];
  next_session_id = 3;
  next_generation = 12;
}

logged_in_again : authenticate online identity ≡ some (taken_over, login)
unfolding authenticate install insert_or_assign erase find
logged_in_again = refl

authenticate_takes_over_example :
    (find 1 taken_over.account_by_session ≡ none)
    × (find 2 taken_over.account_by_session ≡ some 77)
    × (10 < 11)
authenticate_takes_over_example =
    authenticate_takes_over online taken_over identity login
      (record { session_id = 1; generation = 10 }) online-IsValid logged_in_again refl

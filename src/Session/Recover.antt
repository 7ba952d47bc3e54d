-- ===== src/Session/Recover.antt =====
-- `installRecoveredDetached` of SessionRegistry.cpp: the sessions of a recovered batch come back,
-- detached, all or none.
use loot_of_legends_public.Base.{
  ℕ, ◌+◌, ◌-◌, Bool, true, false, ◌||◌, leb, ◌==◌, if◌then◌else◌, List, [], ◌∷◌, Option, none, some,
  length, max, sub64,
}
use loot_of_legends_public.Base.Maps.{contains, emplace}
use loot_of_legends_public.Session.{
  ActiveSession, SessionRegistry, ClaimedGameIdentity, AuthenticateSessionResult, maximum,
  is_exhausted,
}

pub record RecoveredDetachedSession : Type 0 where
  pub identity : ClaimedGameIdentity
  pub session_id : ℕ
  pub previous_generation : ℕ

-- What the first loop carries: the two sets and the two counters.
pub record Batch : Type 0 where
  pub accounts : List ℕ
  pub session_ids : List ℕ
  pub next_session_id : ℕ
  pub first_generation : ℕ

unfoldable pub member : ℕ → List ℕ → Bool
member k [] = false
member k (x ∷ xs) = x == k || member k xs

-- The condition under which the batch is refused. The account number 0 is the all-zero account id.
abbrev pub is_refused : SessionRegistry → Batch → RecoveredDetachedSession → Bool
is_refused r b c =
    c.identity.account_id == 0
    || c.session_id == 0
    || c.previous_generation == 0
    || leb (maximum - 1) c.session_id
    || c.previous_generation == maximum
    || member c.identity.account_id b.accounts
    || member c.session_id b.session_ids
    || contains c.identity.account_id r.current_by_account
    || contains c.session_id r.account_by_session

-- `previousGeneration == maximum` inside the second test cannot hold after the first check.
abbrev pub admit : Batch → RecoveredDetachedSession → Batch
admit b c = record {
  accounts = c.identity.account_id ∷ b.accounts;
  session_ids = c.session_id ∷ b.session_ids;
  next_session_id =
      if leb b.next_session_id c.session_id then c.session_id + 1 else b.next_session_id;
  first_generation =
      if leb b.first_generation c.previous_generation
      then c.previous_generation + 1
      else b.first_generation;
}

unfoldable pub check_batch : SessionRegistry → List RecoveredDetachedSession → Batch → Option Batch
check_batch r [] b = some b
check_batch r (c ∷ cs) b =
    let rest = check_batch r cs (admit b c) in if is_refused r b c then none else rest

-- The loop over the sessions that are there.
unfoldable pub raise_generation : List (ℕ × ActiveSession) → ℕ → Option ℕ
raise_generation [] first = some first
raise_generation ((_, s) ∷ m) first =
    let rest = raise_generation m (max first (s.generation + 1)) in
    if s.generation == maximum then none else rest

abbrev pub recovered : RecoveredDetachedSession → ℕ → ℕ → ActiveSession
recovered c generation expires_at = record {
  session_id = c.session_id;
  generation = generation;
  nickname = c.identity.nickname;
  detached_until = some expires_at;
  resume_proof_generation = some c.previous_generation;
}

abbrev pub reinstate : SessionRegistry → RecoveredDetachedSession → ℕ → ℕ → SessionRegistry
reinstate r c generation expires_at = record r {
  current_by_account =
      emplace c.identity.account_id (recovered c generation expires_at) r.current_by_account;
  account_by_session = emplace c.session_id c.identity.account_id r.account_by_session;
}

-- The last loop; `generation` is `firstGeneration + index`.
unfoldable pub reinstate_all :
    SessionRegistry
    → List RecoveredDetachedSession
    → ℕ
    → ℕ
    → SessionRegistry × List AuthenticateSessionResult
reinstate_all r [] generation expires_at = (r, [])
reinstate_all r (c ∷ cs) generation expires_at =
    let (final, results) =
      reinstate_all (reinstate r c generation expires_at) cs (generation + 1) expires_at in
    (
      final,
      record { session_id = c.session_id; generation = generation; replaced = none } ∷ results,
    )

abbrev pub commit_batch :
    SessionRegistry
    → List RecoveredDetachedSession
    → ℕ
    → Batch
    → ℕ
    → SessionRegistry × Option (List AuthenticateSessionResult)
commit_batch r sessions expires_at b first =
    if leb (sub64 maximum first) (length sessions)
    then (r, none)
    else let (final, results) = reinstate_all r sessions first expires_at in
      (
        record final {
          next_session_id = b.next_session_id;
          next_generation = first + length sessions;
        },
        some results,
      )

abbrev pub start_batch : SessionRegistry → Batch
start_batch r = record {
  accounts = [];
  session_ids = [];
  next_session_id = r.next_session_id;
  first_generation = r.next_generation;
}

abbrev pub finish_batch :
    SessionRegistry
    → List RecoveredDetachedSession
    → ℕ
    → Option Batch
    → SessionRegistry × Option (List AuthenticateSessionResult)
finish_batch r sessions expires_at none = (r, none)
finish_batch r sessions expires_at (some b) =
    elim (raise_generation r.current_by_account b.first_generation) [
      | none ↦ (r, none)
      | some first ↦ commit_batch r sessions expires_at b first
    ]

abbrev pub is_empty_batch : List RecoveredDetachedSession → Bool
is_empty_batch [] = true
is_empty_batch (_ ∷ _) = false

unfoldable pub install_recovered_detached :
    SessionRegistry
    → List RecoveredDetachedSession
    → ℕ
    → SessionRegistry × Option (List AuthenticateSessionResult)
install_recovered_detached r sessions expires_at =
    if is_empty_batch sessions
    then (r, some [])
    else if is_exhausted r
    then (r, none)
    else finish_batch r sessions expires_at (check_batch r sessions (start_batch r))

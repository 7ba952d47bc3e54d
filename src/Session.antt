-- ===== src/Session.antt =====
-- The session registry: game-server/modules/session/src/SessionRegistry.cpp. An account id is the
-- number that its 16 bytes spell, a time point a number of nanoseconds. Both maps are association
-- lists; the order of iteration matters nowhere.
pub mod Recover
pub mod RecoverKeeps
pub mod Invariant
pub mod Run
pub mod Resume
mod Tests
use loot_of_legends_public.Base.{
  ℕ, ◌+◌, ◌-◌, ◌^◌, Bool, true, false, not, ◌&&◌, ◌||◌, ltb, leb, ◌==◌, if◌then◌else◌, List, [],
  Option, none, some, length,
}
use loot_of_legends_public.Base.Maps.{find, insert_or_assign, erase, emplace, has_value}

pub record ActiveSession : Type 0 where
  pub session_id : ℕ
  pub generation : ℕ
  pub nickname : List ℕ
  pub detached_until : Option ℕ
  pub resume_proof_generation : Option ℕ

pub record SessionRegistry : Type 0 where
  pub current_by_account : List (ℕ × ActiveSession)
  pub account_by_session : List (ℕ × ℕ)
  pub next_session_id : ℕ
  pub next_generation : ℕ

pub record ClaimedGameIdentity : Type 0 where
  pub account_id : ℕ
  pub nickname : List ℕ

pub record ReplacedSession : Type 0 where
  pub session_id : ℕ
  pub generation : ℕ

pub record AuthenticateSessionResult : Type 0 where
  pub session_id : ℕ
  pub generation : ℕ
  pub replaced : Option ReplacedSession

abbrev pub maximum : ℕ
maximum = 2 ^ 64 - 1

-- The constructor; none is the exception for a zero first generation.
unfoldable pub new_registry : ℕ → Option SessionRegistry
new_registry first_generation =
    if first_generation == 0
    then none
    else some (record {
      current_by_account = [];
      account_by_session = [];
      next_session_id = 1;
      next_generation = first_generation;
    })

abbrev pub replaced_of : Option ActiveSession → Option ReplacedSession
replaced_of none = none
replaced_of (some s) = some (record { session_id = s.session_id; generation = s.generation })

abbrev pub drop_route : Option ActiveSession → List (ℕ × ℕ) → List (ℕ × ℕ)
drop_route none routes = routes
drop_route (some s) routes = erase s.session_id routes

-- Both identifier counters are below the maximum here, so the increments do not wrap.
pub install :
    SessionRegistry
    → ClaimedGameIdentity
    → Option ActiveSession
    → SessionRegistry × AuthenticateSessionResult
install r identity current = (
  record {
    current_by_account =
        insert_or_assign identity.account_id
          (record {
            session_id = r.next_session_id;
            generation = r.next_generation;
            nickname = identity.nickname;
            detached_until = none;
            resume_proof_generation = none;
          })
          r.current_by_account;
    account_by_session =
        emplace r.next_session_id identity.account_id (drop_route current r.account_by_session);
    next_session_id = r.next_session_id + 1;
    next_generation = r.next_generation + 1;
  },
  record {
    session_id = r.next_session_id;
    generation = r.next_generation;
    replaced = replaced_of current;
  },
)

abbrev pub is_exhausted : SessionRegistry → Bool
is_exhausted r =
    r.next_session_id == 0
    || r.next_session_id == maximum
    || r.next_generation == 0
    || r.next_generation == maximum

-- None is the exception `std::overflow_error`, thrown before any change.
unfoldable pub authenticate :
    SessionRegistry → ClaimedGameIdentity → Option (SessionRegistry × AuthenticateSessionResult)
unfolding install
authenticate r identity =
    if is_exhausted r
    then none
    else some (install r identity (find identity.account_id r.current_by_account))

-- The session that a route leads to, if both maps and the session id agree.
abbrev pub matching : ℕ → Option ActiveSession → Option ActiveSession
matching session none = none
matching session (some s) = if s.session_id == session then some s else none

abbrev pub routed : SessionRegistry → ℕ → Option ℕ → Option (ℕ × ActiveSession)
routed r session none = none
routed r session (some account) = elim (matching session (find account r.current_by_account)) [
  | none ↦ none
  | some s ↦ some (account, s)
]

abbrev pub assign : SessionRegistry → ℕ → ActiveSession → SessionRegistry
assign r account s = record r {
  current_by_account = insert_or_assign account s r.current_by_account;
}

unfoldable pub detach : SessionRegistry → ℕ → ℕ → ℕ → SessionRegistry × Bool
detach r session generation expires_at =
    elim (routed r session (find session r.account_by_session)) [
      | none ↦ (r, false)
      | some (account, s) ↦
          if not (s.generation == generation) || has_value s.detached_until then (r, false) else (
            assign r account (record s {
              detached_until = some expires_at;
              resume_proof_generation = some generation;
            }),
            true,
          )
    ]

unfoldable pub disconnect : SessionRegistry → ℕ → ℕ → SessionRegistry × Bool
disconnect r session generation = elim (routed r session (find session r.account_by_session)) [
  | none ↦ (r, false)
  | some (account, s) ↦ if not (s.generation == generation) then (r, false) else (
    record r {
      current_by_account = erase account r.current_by_account;
      account_by_session = erase session r.account_by_session;
    },
    true,
  )
]

unfoldable pub active_session_count : SessionRegistry → ℕ
active_session_count r = length r.current_by_account

pub data ResumeSessionCode : Type 0 where
  ok not_detached identity_mismatch stale_session expired : ResumeSessionCode

abbrev pub proof_matches : ℕ → Option ℕ → Bool
proof_matches generation none = false
proof_matches generation (some proved) = proved == generation

-- The checks on the session found, in the order of the code, up to the change.
abbrev pub resume_code : ActiveSession → ℕ → ℕ → ResumeSessionCode
resume_code s generation now =
    if not (s.generation == generation) && not (proof_matches generation s.resume_proof_generation)
    then stale_session
    else elim s.detached_until [
      | none ↦ not_detached
      | some until ↦
          if leb until now
          then expired
          else if proof_matches generation s.resume_proof_generation
          then ok
          else stale_session
    ]

abbrev pub finish_resume :
    SessionRegistry
    → ℕ
    → ActiveSession
    → ResumeSessionCode
    → SessionRegistry × ResumeSessionCode × Option AuthenticateSessionResult
finish_resume r account s ok = (
  assign r account (record s { detached_until = none; resume_proof_generation = none }),
  ok,
  some (record { session_id = s.session_id; generation = s.generation; replaced = none }),
)
finish_resume r account s code = (r, code, none)

unfoldable pub resume :
    SessionRegistry
    → ClaimedGameIdentity
    → ℕ
    → ℕ
    → ℕ
    → SessionRegistry × ResumeSessionCode × Option AuthenticateSessionResult
resume r identity session generation now = elim (find session r.account_by_session) [
  | none ↦ (r, stale_session, none)
  | some account ↦
      if not (account == identity.account_id)
      then (r, identity_mismatch, none)
      else elim (matching session (find account r.current_by_account)) [
        | none ↦ (r, stale_session, none)
        | some s ↦ finish_resume r account s (resume_code s generation now)
      ]
]

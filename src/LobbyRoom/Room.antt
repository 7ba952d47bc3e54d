-- ===== src/LobbyRoom/Room.antt =====
-- The room aggregate: game-server/modules/lobby-room/src/domain/Room.cpp, with the types of
-- RoomApi.hpp, RoomCommands.hpp and RoomProjections.hpp. Identifiers are numbers, an account id is
-- its bytes. A method that changes the room returns the new one.
pub mod Commit
pub mod Invariant
pub mod Lifecycle
pub mod Membership
use loot_of_legends_public.Base.{
  ℕ, ◌%◌, Bool, true, false, not, ◌&&◌, ◌||◌, ltb, leb, ◌==◌, if◌then◌else◌, List, [], ◌∷◌, ◌++◌,
  map, Option, none, some, length, find_if,
}
use loot_of_legends_public.LobbyRoom.Text.{is_empty, valid_utf8, normalize_title}

pub data RoomResultCode : Type 0 where
  ok invalid_argument already_in_room room_not_found room_closed room_full : RoomResultCode
  not_in_room not_host not_enough_players not_all_ready invalid_target : RoomResultCode
  room_overloaded stale_session : RoomResultCode

pub data RoomLifecycle : Type 0 where
  open_ loading in_progress awaiting_settlement_durability : RoomLifecycle

pub record RoomMemberIdentity : Type 0 where
  pub account_id : List ℕ
  pub session_id : ℕ
  pub generation : ℕ
  pub nickname : List ℕ

pub record RoomMemberSnapshot : Type 0 where
  pub account_id : List ℕ
  pub session_id : ℕ
  pub session_generation : ℕ
  pub nickname : List ℕ
  pub ready : Bool

pub record Room : Type 0 where
  pub room_id : ℕ
  pub title : List ℕ
  pub capacity : ℕ
  pub lifecycle : RoomLifecycle
  pub members : List RoomMemberSnapshot

pub record BattleAdmissionSnapshot : Type 0 where
  pub room_id : ℕ
  pub host : ℕ
  pub members : List RoomMemberSnapshot

abbrev pub minimum_capacity : ℕ
minimum_capacity = 2

abbrev pub maximum_capacity : ℕ
maximum_capacity = 10

unfoldable pub any_nonzero : List ℕ → Bool
any_nonzero [] = false
any_nonzero (b ∷ bs) = not (b == 0) || any_nonzero bs

unfoldable pub valid_member : RoomMemberIdentity → Bool
unfolding any_nonzero
valid_member member =
    any_nonzero member.account_id
    && not (member.session_id == 0)
    && not (member.generation == 0)
    && not (is_empty member.nickname)
    && leb (length member.nickname) 65535
    && valid_utf8 member.nickname false

abbrev pub seat : RoomMemberIdentity → RoomMemberSnapshot
seat m = record {
  account_id = m.account_id;
  session_id = m.session_id;
  session_generation = m.generation;
  nickname = m.nickname;
  ready = false;
}

abbrev pub capacity_allowed : ℕ → Bool
capacity_allowed capacity = not (ltb capacity minimum_capacity || ltb maximum_capacity capacity)

unfoldable pub create : ℕ → List ℕ → ℕ → RoomMemberIdentity → RoomResultCode × Option Room
create room_id title capacity creator = elim (normalize_title title) [
  | none ↦ (invalid_argument, none)
  | some normalized ↦
      if room_id == 0 || not (capacity_allowed capacity) || not (valid_member creator)
      then (invalid_argument, none)
      else (
        ok,
        some (record {
          room_id = room_id;
          title = normalized;
          capacity = capacity;
          lifecycle = open_;
          members = seat creator ∷ [];
        }),
      )
]

abbrev pub closed : Room → Bool
closed r = is_empty r.members

abbrev pub is_open : RoomLifecycle → Bool
is_open open_ = true
is_open _ = false

-- `find_if` by session.
abbrev pub find_member : ℕ → List RoomMemberSnapshot → Option RoomMemberSnapshot
find_member session = find_if (λ m. m.session_id == session)

abbrev pub seat_new : Room → RoomMemberIdentity → Option RoomMemberSnapshot → Room × RoomResultCode
seat_new r member (some existing) =
    (r, if existing.session_generation == member.generation then ok else stale_session)
seat_new r member none =
    if leb r.capacity (length r.members)
    then (r, room_full)
    else (record r { members = r.members ++ seat member ∷ [] }, ok)

unfoldable pub join : Room → RoomMemberIdentity → Room × RoomResultCode
join r member =
    if not (valid_member member)
    then (r, invalid_argument)
    else if closed r || not (is_open r.lifecycle)
    then (r, room_closed)
    else seat_new r member (find_member member.session_id r.members)

-- `members_.erase` at what `find_member` gives.
unfoldable pub erase_member : ℕ → List RoomMemberSnapshot → List RoomMemberSnapshot
erase_member session [] = []
erase_member session (m ∷ ms) = if m.session_id == session then ms else m ∷ erase_member session ms

unfoldable pub leave : Room → ℕ → ℕ → Room × RoomResultCode
unfolding erase_member
leave r session generation = elim (find_member session r.members) [
  | none ↦ (r, not_in_room)
  | some member ↦
      if not (member.session_generation == generation)
      then (r, stale_session)
      else (record r { members = erase_member session r.members }, ok)
]

-- `member->ready = ready` at what `find_member` gives.
unfoldable pub mark_ready : ℕ → Bool → List RoomMemberSnapshot → List RoomMemberSnapshot
mark_ready session ready [] = []
mark_ready session ready (m ∷ ms) =
    if m.session_id == session
    then record m { ready = ready } ∷ ms
    else m ∷ mark_ready session ready ms

unfoldable pub set_ready : Room → ℕ → ℕ → Bool → Room × RoomResultCode
unfolding mark_ready
set_ready r session generation ready =
    if not (is_open r.lifecycle) then (r, room_closed) else elim (find_member session r.members) [
      | none ↦ (r, not_in_room)
      | some member ↦
          if not (member.session_generation == generation)
          then (r, stale_session)
          else (record r { members = mark_ready session ready r.members }, ok)
    ]

-- `actor == end() || actor != begin()` fails exactly when the first member has that session.
abbrev pub find_host : ℕ → List RoomMemberSnapshot → Option RoomMemberSnapshot
find_host session [] = none
find_host session (m ∷ ms) = if m.session_id == session then some m else none

abbrev pub is_target : ℕ → Option RoomMemberSnapshot → Bool
is_target generation none = false
is_target generation (some target) = target.session_generation == generation

unfoldable pub kick : Room → ℕ → ℕ → ℕ → ℕ → Room × RoomResultCode
unfolding erase_member
kick r actor_session actor_generation target_session target_generation =
    if not (is_open r.lifecycle)
    then (r, room_closed)
    else elim (find_host actor_session r.members) [
      | none ↦ (r, not_host)
      | some actor ↦
          if not (actor.session_generation == actor_generation)
          then (r, stale_session)
          else if actor_session == target_session
          then (r, invalid_target)
          else if not (is_target target_generation (find_member target_session r.members))
          then (r, invalid_target)
          else (record r { members = erase_member target_session r.members }, ok)
    ]

unfoldable pub all_ready : List RoomMemberSnapshot → Bool
all_ready [] = true
all_ready (m ∷ ms) = m.ready && all_ready ms

unfoldable pub prepare_host_start : Room → ℕ → ℕ → RoomResultCode × Option BattleAdmissionSnapshot
unfolding all_ready
prepare_host_start r actor_session actor_generation =
    if not (is_open r.lifecycle)
    then (room_closed, none)
    else elim (find_host actor_session r.members) [
      | none ↦ (not_host, none)
      | some actor ↦
          if not (actor.session_generation == actor_generation)
          then (stale_session, none)
          else if ltb (length r.members) minimum_capacity
          then (not_enough_players, none)
          else if not (all_ready r.members)
          then (not_all_ready, none)
          else (
            ok,
            some (record { room_id = r.room_id; host = actor.session_id; members = r.members }),
          )
    ]

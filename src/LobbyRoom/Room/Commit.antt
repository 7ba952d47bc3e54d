-- ===== src/LobbyRoom/Room/Commit.antt =====
-- The changes of lifecycle and the projections of Room.cpp.
use loot_of_legends_public.Base.{
  ℕ, ◌%◌, Bool, true, false, not, ◌&&◌, ◌||◌, ◌==◌, if◌then◌else◌, List, [], ◌∷◌, Option, none,
  some, length,
}
use loot_of_legends_public.LobbyRoom.Room.{
  Room, RoomMemberSnapshot, BattleAdmissionSnapshot, RoomLifecycle, open_, loading, in_progress,
  awaiting_settlement_durability, RoomResultCode, ok, room_closed, invalid_argument, closed,
  is_open,
}

-- The defaulted comparisons of the snapshot types.
unfoldable pub bytes_equal : List ℕ → List ℕ → Bool
bytes_equal [] [] = true
bytes_equal [] (b ∷ bs) = false
bytes_equal (a ∷ as') [] = false
bytes_equal (a ∷ as') (b ∷ bs) = a == b && bytes_equal as' bs

abbrev pub bool_equal : Bool → Bool → Bool
bool_equal true b = b
bool_equal false b = not b

unfoldable pub member_equal : RoomMemberSnapshot → RoomMemberSnapshot → Bool
member_equal a b =
    bytes_equal a.account_id b.account_id
    && a.session_id == b.session_id
    && a.session_generation == b.session_generation
    && bytes_equal a.nickname b.nickname
    && bool_equal a.ready b.ready

unfoldable pub members_equal : List RoomMemberSnapshot → List RoomMemberSnapshot → Bool
members_equal [] [] = true
members_equal [] (b ∷ bs) = false
members_equal (a ∷ as') [] = false
members_equal (a ∷ as') (b ∷ bs) = member_equal a b && members_equal as' bs

-- `members_.front().sessionId`, read only where the room is not closed.
abbrev pub is_front : ℕ → List RoomMemberSnapshot → Bool
is_front session [] = false
is_front session (m ∷ _) = session == m.session_id

unfoldable pub commit_loading : Room → BattleAdmissionSnapshot → Room × RoomResultCode
commit_loading r admission =
    if closed r || not (is_open r.lifecycle)
    then (r, room_closed)
    else if not (admission.room_id == r.room_id)
        || not (is_front admission.host r.members)
        || not (members_equal admission.members r.members)
    then (r, invalid_argument)
    else (record r { lifecycle = loading }, ok)

abbrev pub enter_in_progress : RoomLifecycle → Room → Room × RoomResultCode
enter_in_progress in_progress r = (r, ok)
enter_in_progress loading r =
    if closed r then (r, room_closed) else (record r { lifecycle = in_progress }, ok)
enter_in_progress _ r = (r, room_closed)

unfoldable pub commit_in_progress : Room → Room × RoomResultCode
commit_in_progress r = enter_in_progress r.lifecycle r

abbrev pub enter_awaiting : RoomLifecycle → Room → Room × RoomResultCode
enter_awaiting awaiting_settlement_durability r = (r, ok)
enter_awaiting in_progress r = (record r { lifecycle = awaiting_settlement_durability }, ok)
enter_awaiting _ r = (r, room_closed)

unfoldable pub commit_awaiting_settlement_durability : Room → Room × RoomResultCode
commit_awaiting_settlement_durability r = enter_awaiting r.lifecycle r

unfoldable pub clear_ready : List RoomMemberSnapshot → List RoomMemberSnapshot
clear_ready [] = []
clear_ready (m ∷ ms) = record m { ready = false } ∷ clear_ready ms

abbrev pub reopened : Room → Room × RoomResultCode
reopened r = (record r { lifecycle = open_; members = clear_ready r.members }, ok)

abbrev pub leave_loading : RoomLifecycle → Room → Room × RoomResultCode
leave_loading open_ r = (r, ok)
leave_loading loading r = reopened r
leave_loading _ r = (r, room_closed)

unfoldable pub reopen_after_load_cancelled : Room → Room × RoomResultCode
reopen_after_load_cancelled r = leave_loading r.lifecycle r

abbrev pub leave_awaiting : RoomLifecycle → Room → Room × RoomResultCode
leave_awaiting open_ r = (r, ok)
leave_awaiting awaiting_settlement_durability r = reopened r
leave_awaiting _ r = (r, room_closed)

unfoldable pub reopen_after_settlement_durability : Room → Room × RoomResultCode
reopen_after_settlement_durability r = leave_awaiting r.lifecycle r

pub record RoomSummary : Type 0 where
  pub room_id : ℕ
  pub title : List ℕ
  pub member_count : ℕ
  pub capacity : ℕ

-- The cast of the member count to 8 bits is written out.
unfoldable pub summary : Room → Option RoomSummary
summary r =
    if closed r
    then none
    else some (record {
      room_id = r.room_id;
      title = r.title;
      member_count = length r.members % 256;
      capacity = r.capacity;
    })

pub record RoomDetailProjection : Type 0 where
  pub room_id : ℕ
  pub lifecycle : RoomLifecycle
  pub title : List ℕ
  pub capacity : ℕ
  pub host_session_id : ℕ
  pub host_session_generation : ℕ
  pub members : List RoomMemberSnapshot

abbrev pub detail_of : Room → List RoomMemberSnapshot → Option RoomDetailProjection
detail_of r [] = none
detail_of r (m ∷ _) = some (record {
  room_id = r.room_id;
  lifecycle = r.lifecycle;
  title = r.title;
  capacity = r.capacity;
  host_session_id = m.session_id;
  host_session_generation = m.session_generation;
  members = r.members;
})

unfoldable pub detail : Room → Option RoomDetailProjection
detail r = detail_of r r.members

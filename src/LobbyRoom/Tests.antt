-- ===== src/LobbyRoom/Tests.antt =====
-- Runs of a room on small inputs.
use loot_of_legends_public.Base.{
  ◌≢◌, ℕ, ◌≡◌, ◌⊎◌, ◌↔◌, refl, true, false, List, [], ◌∷◌, some, arith, All, if◌then◌else◌, length,
  ◌≤◌,
}
use loot_of_legends_public.LobbyRoom.Text.{
  valid_utf8, normalize_title, trim, trim_front, ascii_whitespace, valid_utf8_loop, scan, classify,
  continuations,
}
use loot_of_legends_public.LobbyRoom.Text.Encoding.{Allowed, encode_all}
use loot_of_legends_public.LobbyRoom.Text.Utf8.{valid_utf8_exactly}
use loot_of_legends_public.LobbyRoom.Room.{
  loading, invalid_argument, room_closed, Room, RoomMemberSnapshot, RoomMemberIdentity,
  BattleAdmissionSnapshot, ok, open_, create, any_nonzero, valid_member, prepare_host_start,
  all_ready,
}
use loot_of_legends_public.LobbyRoom.Room.Commit.{commit_loading}
use loot_of_legends_public.LobbyRoom.Room.Invariant.{IsValid}
use loot_of_legends_public.LobbyRoom.Room.Lifecycle.{
  joins, readies, kicks, commits_loading, step, run, follow, is_ok, run_created-IsValid,
  step_lifecycle,
}
use loot_of_legends_public.LobbyRoom.Room.Membership.{
  IsJoined, Admits, commit_loading_exactly, prepared_commit, prepared_commit_accepted,
}

-- "é!" and a lone lead byte.
valid_utf8_exactly_example :
    (valid_utf8 (0xC3 ∷ 0xA9 ∷ 0x21 ∷ []) true ≡ true)
    ↔ ((cs : List ℕ) × All (Allowed true) cs × ((0xC3 ∷ 0xA9 ∷ 0x21 ∷ []) ≡ encode_all cs))
valid_utf8_exactly_example = valid_utf8_exactly (0xC3 ∷ 0xA9 ∷ 0x21 ∷ []) true

abbrev creator : RoomMemberIdentity
creator = record { account_id = 1 ∷ []; session_id = 1; generation = 4; nickname = 65 ∷ [] }

abbrev guest : RoomMemberIdentity
guest = record { account_id = 2 ∷ []; session_id = 2; generation = 7; nickname = 66 ∷ [] }

abbrev host_seat : RoomMemberSnapshot
host_seat = record {
  account_id = 1 ∷ [];
  session_id = 1;
  session_generation = 4;
  nickname = 65 ∷ [];
  ready = true;
}

abbrev guest_seat : RoomMemberSnapshot
guest_seat = record {
  account_id = 2 ∷ [];
  session_id = 2;
  session_generation = 7;
  nickname = 66 ∷ [];
  ready = true;
}

abbrev created : Room
created = record {
  room_id = 9;
  title = 82 ∷ [];
  capacity = 4;
  lifecycle = open_;
  members = record host_seat { ready = false } ∷ [];
}

-- The title is trimmed.
create_example : (create 9 (32 ∷ 82 ∷ 32 ∷ []) 4 creator).1 ≡ some created
unfolding create normalize_title trim trim_front ascii_whitespace valid_utf8 valid_utf8_loop scan
    classify continuations valid_member any_nonzero
create_example = refl

run_created-IsValid_example :
    IsValid (run created (joins guest ∷ readies 2 7 true ∷ kicks 1 4 2 7 ∷ []))
run_created-IsValid_example =
    run_created-IsValid 9 (32 ∷ 82 ∷ 32 ∷ []) 4 creator created
      (joins guest ∷ readies 2 7 true ∷ kicks 1 4 2 7 ∷ []) create_example

abbrev full : Room
full = record {
  room_id = 9;
  title = 82 ∷ [];
  capacity = 4;
  lifecycle = open_;
  members = host_seat ∷ guest_seat ∷ [];
}

full-IsValid : IsValid full
full-IsValid = record {
  identified = omega arith;
  capacity_low = omega arith;
  capacity_high = omega arith;
  seated = omega arith;
  distinct = (refl, (refl, tt));
  members_valid = (
    record { session_set = omega arith; generation_set = omega arith },
    (record { session_set = omega arith; generation_set = omega arith }, tt),
  );
}

abbrev admission : BattleAdmissionSnapshot
admission = record { room_id = 9; host = 1; members = host_seat ∷ guest_seat ∷ [] }

step_lifecycle_example :
    ((step full (commits_loading admission)).0.lifecycle ≡ (
      if is_ok (step full (commits_loading admission)).1
      then follow open_ (commits_loading admission)
      else open_))
    × (((step full (commits_loading admission)).1 ≡ ok)
        ⊎ ((step full (commits_loading admission)).0 ≡ full))
step_lifecycle_example = step_lifecycle full (commits_loading admission)

commit_loading_exactly_example :
    (IsJoined full
      × Admits full admission
      × (commit_loading full admission ≡ (record full { lifecycle = loading }, ok)))
    ⊎ (IsJoined full
        × (¬ Admits full admission)
        × (commit_loading full admission ≡ (full, invalid_argument)))
    ⊎ (((full.lifecycle ≢ open_) ⊎ (full.members ≡ []))
        × (commit_loading full admission ≡ (full, room_closed)))
commit_loading_exactly_example = commit_loading_exactly full admission

prepared : (prepare_host_start full 1 4).1 ≡ some admission
unfolding prepare_host_start all_ready
prepared = refl

prepared_commit_example :
    (full.members ≡ full.members)
    × (full.room_id ≡ full.room_id)
    × (2 ≤ length full.members)
    × (all_ready full.members ≡ true)
prepared_commit_example =
    prepared_commit full full 1 4 admission prepared
      (prepared_commit_accepted full 1 4 admission prepared)

-- ===== src/LobbyRoom/Room/Lifecycle.antt =====
-- The commands of a room, and the lifecycle that they follow.
use loot_of_legends_public.Base.{
  ℕ, ◌≡◌, ◌⊎◌, Bool, true, false, List, [], ◌∷◌, some, arith, if◌then◌else◌,
}
use loot_of_legends_public.LobbyRoom.Room.{
  Room, RoomMemberIdentity, BattleAdmissionSnapshot, RoomResultCode, ok, RoomLifecycle, open_,
  loading, in_progress, awaiting_settlement_durability, create, join, leave, set_ready, kick,
}
use loot_of_legends_public.LobbyRoom.Room.Commit.{
  commit_loading, commit_in_progress, commit_awaiting_settlement_durability,
  reopen_after_load_cancelled, reopen_after_settlement_durability,
}
use loot_of_legends_public.LobbyRoom.Room.Invariant.{
  IsValid, create-IsValid, join-IsValid, leave-IsValid, kick-IsValid, set_ready-IsValid,
  clear_members,
}

pub data Command : Type 0 where
  joins : RoomMemberIdentity → Command
  leaves : ℕ → ℕ → Command
  readies : ℕ → ℕ → Bool → Command
  kicks : ℕ → ℕ → ℕ → ℕ → Command
  commits_loading : BattleAdmissionSnapshot → Command
  commits_in_progress commits_awaiting cancels_load settles : Command

pub step : Room → Command → Room × RoomResultCode
step r (joins m) = join r m
step r (leaves session generation) = leave r session generation
step r (readies session generation ready) = set_ready r session generation ready
step r (kicks actor generation target target_generation) =
    kick r actor generation target target_generation
step r (commits_loading admission) = commit_loading r admission
step r commits_in_progress = commit_in_progress r
step r commits_awaiting = commit_awaiting_settlement_durability r
step r cancels_load = reopen_after_load_cancelled r
step r settles = reopen_after_settlement_durability r

pub run : Room → List Command → Room
run r [] = r
run r (c ∷ cs) = run (step r c).0 cs

step-IsValid : (r : Room) (c : Command) → IsValid r → IsValid (step r c).0
unfolding step commit_loading commit_in_progress commit_awaiting_settlement_durability
    reopen_after_load_cancelled reopen_after_settlement_durability
step-IsValid r (joins m) v = join-IsValid r m v
step-IsValid r (leaves s g) v = leave-IsValid r s g v
step-IsValid r (readies s g b) v = set_ready-IsValid r s g b v
step-IsValid r (kicks a g t h) v = kick-IsValid r a g t h v
step-IsValid r (commits_loading admission) v = ground arith
step-IsValid r commits_in_progress v = ground arith
step-IsValid r commits_awaiting v = ground arith
step-IsValid r cancels_load v = ground (arith, clear_members r.members v.distinct v.members_valid)
step-IsValid r settles v = ground (arith, clear_members r.members v.distinct v.members_valid)

pub run_from-IsValid : (r : Room) (cs : List Command) → IsValid r → IsValid (run r cs)
unfolding run
run_from-IsValid r [] v = v
run_from-IsValid r (c ∷ cs) v = run_from-IsValid (step r c).0 cs (step-IsValid r c v)

-- A created room keeps, after any commands, its number nonzero, a capacity from 2 to 10, no more
-- members than that, no session twice, and no session or generation that is 0.
pub run_created-IsValid :
    (room_id : ℕ) (title : List ℕ) (capacity : ℕ) (creator : RoomMemberIdentity) (r : Room)
    (cs : List Command)
    → (create room_id title capacity creator).1 ≡ some r
    → IsValid (run r cs)
run_created-IsValid room_id title capacity creator r cs h =
    run_from-IsValid r cs (create-IsValid room_id title capacity creator r h)

-- The state diagram: where an accepted command takes the lifecycle.
abbrev pub follow : RoomLifecycle → Command → RoomLifecycle
follow open_ (commits_loading admission) = loading
follow loading commits_in_progress = in_progress
follow loading cancels_load = open_
follow in_progress commits_awaiting = awaiting_settlement_durability
follow awaiting_settlement_durability settles = open_
follow l _ = l

abbrev pub is_ok : RoomResultCode → Bool
is_ok ok = true
is_ok _ = false

-- Whatever the room's state, an accepted command moves the lifecycle along the diagram (and a
-- command with no edge there leaves it), and a refused command leaves the whole room as it was.
pub step_lifecycle :
    (r : Room) (c : Command)
    → ((step r c).0.lifecycle ≡ (if is_ok (step r c).1 then follow r.lifecycle c else r.lifecycle))
      × (((step r c).1 ≡ ok) ⊎ ((step r c).0 ≡ r))
unfolding step join leave set_ready kick commit_loading commit_in_progress
    commit_awaiting_settlement_durability reopen_after_load_cancelled
    reopen_after_settlement_durability
step_lifecycle r (joins m) = (ground arith, ground arith)
step_lifecycle r (leaves s g) = (ground arith, ground arith)
step_lifecycle r (readies s g b) = (ground arith, ground arith)
step_lifecycle r (kicks a g t i) = (ground arith, ground arith)
step_lifecycle r (commits_loading admission) = (ground arith, ground arith)
step_lifecycle r commits_in_progress = (ground arith, ground arith)
step_lifecycle r _ = (ground arith, ground arith)

-- ===== src/LobbyRoom/Room/Invariant.antt =====
-- What holds of a room after any history of commands.
use loot_of_legends_public.Base.{
  ℕ, ◌≤◌, ◌≡◌, ◌≢◌, refl, Bool, true, false, ◌||◌, ◌==◌, List, [], ◌∷◌, ◌++◌, none, some, length,
  length-append, arith, All,
}
use loot_of_legends_public.LobbyRoom.Room.{
  Room, RoomMemberSnapshot, RoomMemberIdentity, create, seat, join, leave, set_ready, kick,
  erase_member, mark_ready, find_member, valid_member,
}
use loot_of_legends_public.LobbyRoom.Room.Commit.{clear_ready}

abbrev pub has_session : ℕ → List RoomMemberSnapshot → Bool
has_session session [] = false
has_session session (m ∷ ms) = m.session_id == session || has_session session ms

-- No session sits in the room twice.
abbrev pub IsDistinct : List RoomMemberSnapshot → Type 0
IsDistinct [] = Unit {0}
IsDistinct (m ∷ ms) = (has_session m.session_id ms ≡ false) × IsDistinct ms

pub record IsMember (m : RoomMemberSnapshot) : Type 0 where
  pub session_set : m.session_id ≢ 0
  pub generation_set : m.session_generation ≢ 0

pub record IsValid (r : Room) : Type 0 where
  pub identified : r.room_id ≢ 0
  pub capacity_low : 2 ≤ r.capacity
  pub capacity_high : r.capacity ≤ 10
  pub seated : length r.members ≤ r.capacity
  pub distinct : IsDistinct r.members
  pub members_valid : All IsMember r.members

valid_member-IsMember : (m : RoomMemberIdentity) → valid_member m ≡ true → IsMember (seat m)
unfolding valid_member
valid_member-IsMember m h = ground arith

pub create-IsValid :
    (room_id : ℕ) (title : List ℕ) (capacity : ℕ) (creator : RoomMemberIdentity) (r : Room)
    → (create room_id title capacity creator).1 ≡ some r
    → IsValid r
unfolding create
create-IsValid room_id title capacity creator r h = ground (arith, valid_member-IsMember creator)

find_member-has_session :
    (s : ℕ) (ms : List RoomMemberSnapshot) → find_member s ms ≡ none → has_session s ms ≡ false
find_member-has_session s [] h = refl
find_member-has_session s (m ∷ ms) h = ground (arith, find_member-has_session s ms)

has_session-append :
    (s : ℕ) (ms : List RoomMemberSnapshot) (m : RoomMemberSnapshot)
    → has_session s (ms ++ m ∷ []) ≡ (has_session s ms || m.session_id == s)
has_session-append s [] m = ground arith
has_session-append s (x ∷ ms) m = ground (arith, has_session-append s ms m)

append_members :
    (ms : List RoomMemberSnapshot) (m : RoomMemberSnapshot)
    → has_session m.session_id ms ≡ false
    → IsDistinct ms
    → All IsMember ms
    → IsMember m
    → IsDistinct (ms ++ m ∷ []) × All IsMember (ms ++ m ∷ [])
append_members [] m h d v w = ((refl, tt), (w, tt))
append_members (x ∷ ms) m h d v w =
    ground (arith, append_members ms m, has_session-append x.session_id ms m, d.1, v.1)

has_session-erase_member :
    (s t : ℕ) (ms : List RoomMemberSnapshot)
    → has_session s ms ≡ false
    → has_session s (erase_member t ms) ≡ false
unfolding erase_member
has_session-erase_member s t [] h = refl
has_session-erase_member s t (m ∷ ms) h = ground (arith, has_session-erase_member s t ms)

pub erase_members :
    (t : ℕ) (ms : List RoomMemberSnapshot)
    → IsDistinct ms
    → All IsMember ms
    → IsDistinct (erase_member t ms)
      × All IsMember (erase_member t ms)
      × (length (erase_member t ms) ≤ length ms)
unfolding erase_member
erase_members t [] d v = (tt, tt, omega arith)
erase_members t (m ∷ ms) d v =
    ground (arith, erase_members t ms d.1 v.1, has_session-erase_member m.session_id t ms d.0)

mark_members :
    (t : ℕ) (b : Bool) (ms : List RoomMemberSnapshot)
    → ((s : ℕ) → has_session s (mark_ready t b ms) ≡ has_session s ms)
      × (length (mark_ready t b ms) ≡ length ms)
unfolding mark_ready
mark_members t b [] = (λ s. refl, refl)
mark_members t b (m ∷ ms) =
    (λ s. ground (arith, (mark_members t b ms).0 s), ground (arith, (mark_members t b ms).1))

mark_ready_members :
    (t : ℕ) (b : Bool) (ms : List RoomMemberSnapshot)
    → IsDistinct ms
    → All IsMember ms
    → IsDistinct (mark_ready t b ms) × All IsMember (mark_ready t b ms)
unfolding mark_ready
mark_ready_members t b [] d v = (tt, tt)
mark_ready_members t b (m ∷ ms) d v =
    ground (arith, mark_ready_members t b ms d.1 v.1, (mark_members t b ms).0 m.session_id)

pub clear_session :
    (s : ℕ) (ms : List RoomMemberSnapshot) → has_session s (clear_ready ms) ≡ has_session s ms
unfolding clear_ready
clear_session s [] = refl
clear_session s (m ∷ ms) = ground (arith, clear_session s ms)

pub clear_members :
    (ms : List RoomMemberSnapshot)
    → IsDistinct ms
    → All IsMember ms
    → IsDistinct (clear_ready ms)
      × All IsMember (clear_ready ms)
      × (length (clear_ready ms) ≡ length ms)
unfolding clear_ready
clear_members [] d v = (tt, tt, refl)
clear_members (m ∷ ms) d v = ground (arith, clear_members ms d.1 v.1, clear_session m.session_id ms)

pub join-IsValid : (r : Room) (m : RoomMemberIdentity) → IsValid r → IsValid (join r m).0
unfolding join
join-IsValid r m v = ground (
  arith,
  append_members r.members (seat m),
  find_member-has_session m.session_id r.members,
  valid_member-IsMember m,
  length-append r.members (seat m ∷ []),
)

pub leave-IsValid : (r : Room) (s g : ℕ) → IsValid r → IsValid (leave r s g).0
unfolding leave
leave-IsValid r s g v = ground (arith, erase_members s r.members v.distinct v.members_valid)

pub kick-IsValid : (r : Room) (a g t h : ℕ) → IsValid r → IsValid (kick r a g t h).0
unfolding kick
kick-IsValid r a g t h v = ground (arith, erase_members t r.members v.distinct v.members_valid)

pub set_ready-IsValid : (r : Room) (s g : ℕ) (b : Bool) → IsValid r → IsValid (set_ready r s g b).0
unfolding set_ready
set_ready-IsValid r s g b v = ground (
  arith,
  mark_ready_members s b r.members v.distinct v.members_valid,
  (mark_members s b r.members).1,
)

-- ===== src/LobbyRoom/Room/Membership.antt =====
-- Who sits in the room after a command, and when a battle may be admitted.
use loot_of_legends_public.Base.{
  ℕ, ◌≡◌, ◌≤◌, ◌≢◌, ◌⊎◌, ◌↔◌, refl, inl, inr, true, false, not, ◌&&◌, ◌||◌, ◌==◌, List, [], ◌∷◌,
  some, arith, length, Bool-cases, Option-cases, ap,
}
use loot_of_legends_public.LobbyRoom.Text.{is_empty}
use loot_of_legends_public.LobbyRoom.Room.{
  Room, RoomMemberSnapshot, BattleAdmissionSnapshot, ok, open_, leave, kick, prepare_host_start,
  all_ready, find_host, erase_member, closed, is_open, invalid_argument, room_closed, loading,
  RoomLifecycle, in_progress, awaiting_settlement_durability,
}
use loot_of_legends_public.LobbyRoom.Room.Commit.{
  commit_loading, members_equal, member_equal, bytes_equal, is_front,
}
use loot_of_legends_public.LobbyRoom.Room.Invariant.{IsValid, IsDistinct, has_session}

erase_member-has_session :
    (s t : ℕ) (ms : List RoomMemberSnapshot)
    → IsDistinct ms
    → has_session t (erase_member s ms) ≡ (not (t == s) && has_session t ms)
unfolding erase_member
erase_member-has_session s t [] d = ground arith
erase_member-has_session s t (m ∷ ms) d = elim (Bool-cases (m.session_id == s)) [
  | inl x ↦
      let e : m.session_id ≡ s = ground arith in
      let f = ap (λ (u : ℕ). has_session u ms) e in
      elim (Bool-cases (t == s)) [
        | inl y ↦
            let g : t ≡ s = ground arith in
            let k = ap (λ (u : ℕ). has_session u ms) g in ground (arith, d.0)
        | inr y ↦ ground arith
      ]
  | inr x ↦ ground (arith, erase_member-has_session s t ms d.1)
]

-- A member whose leaving a valid room accepts is gone, and everyone else is still there.
leave_members :
    (r : Room) (s g t : ℕ)
    → IsValid r
    → (leave r s g).1 ≡ ok
    → has_session t (leave r s g).0.members ≡ (not (t == s) && has_session t r.members)
unfolding leave
leave_members r s g t v h = ground (arith, erase_member-has_session s t r.members v.distinct)

find_host-erase_member :
    (a s : ℕ) (ms : List RoomMemberSnapshot) (m : RoomMemberSnapshot)
    → (a == s) ≡ false
    → find_host a ms ≡ some m
    → find_host a (erase_member s ms) ≡ some m
unfolding erase_member
find_host-erase_member a s [] m h e = cc
find_host-erase_member a s (x ∷ ms) m h e = ground arith

-- Only the host kicks: a kick accepted by a valid room was asked for by the first member, who
-- stays first; the target is gone and everyone else is still there.
kick_members :
    (r : Room) (a g s h t : ℕ)
    → IsValid r
    → (kick r a g s h).1 ≡ ok
    → (has_session t (kick r a g s h).0.members ≡ (not (t == s) && has_session t r.members))
      × ((m : RoomMemberSnapshot) × (find_host a r.members ≡ some m)
          × (find_host a (kick r a g s h).0.members ≡ some m))
unfolding kick
kick_members r a g s h t v e = elim (Option-cases (find_host a r.members)) [
  | inl x ↦ absurd (ground arith)
  | inr (m, x) ↦ (
    ground (arith, erase_member-has_session s t r.members v.distinct),
    (m, x, ground (arith, find_host-erase_member a s r.members m)),
  )
]

bytes_equal-eq : (a b : List ℕ) → bytes_equal a b ≡ true → a ≡ b
unfolding bytes_equal
bytes_equal-eq [] [] h = refl
bytes_equal-eq [] (y ∷ b) h = cc
bytes_equal-eq (x ∷ a) [] h = cc
bytes_equal-eq (x ∷ a) (y ∷ b) h = ground (arith, bytes_equal-eq a b)

bytes_equal_self : (a : List ℕ) → bytes_equal a a ≡ true
unfolding bytes_equal
bytes_equal_self [] = refl
bytes_equal_self (x ∷ a) = ground (arith, bytes_equal_self a)

member_equal-eq : (a b : RoomMemberSnapshot) → member_equal a b ≡ true → a ≡ b
unfolding member_equal
member_equal-eq a b h =
    ground (arith, bytes_equal-eq a.account_id b.account_id, bytes_equal-eq a.nickname b.nickname)

member_equal_self : (a : RoomMemberSnapshot) → member_equal a a ≡ true
unfolding member_equal
member_equal_self a = ground (arith, bytes_equal_self a.account_id, bytes_equal_self a.nickname)

members_equal-eq : (a b : List RoomMemberSnapshot) → members_equal a b ≡ true → a ≡ b
unfolding members_equal
members_equal-eq [] [] h = refl
members_equal-eq [] (y ∷ b) h = cc
members_equal-eq (x ∷ a) [] h = cc
members_equal-eq (x ∷ a) (y ∷ b) h = ground (arith, member_equal-eq x y, members_equal-eq a b)

members_equal_self : (a : List RoomMemberSnapshot) → members_equal a a ≡ true
unfolding members_equal
members_equal_self [] = refl
members_equal_self (x ∷ a) = ground (arith, member_equal_self x, members_equal_self a)

-- The first member's test, as the host that it finds.
front_host :
    (s : ℕ) (ms : List RoomMemberSnapshot)
    → is_front s ms ≡ true
    → (m : RoomMemberSnapshot) × (find_host s ms ≡ some m)
front_host s [] h = cc
front_host s (m ∷ ms) h = (m, ground arith)

host_front :
    (s : ℕ) (ms : List RoomMemberSnapshot) (m : RoomMemberSnapshot)
    → find_host s ms ≡ some m
    → (is_front m.session_id ms ≡ true) × (is_front s ms ≡ true) × (is_empty ms ≡ false)
host_front s [] m h = cc
host_front s (x ∷ ms) m h = ground arith

-- The admissions that are accepted.
commit_loading_accepts :
    (r : Room) (a : BattleAdmissionSnapshot)
    → ((commit_loading r a).1 ≡ ok) ↔ (
        (r.lifecycle ≡ open_)
        × (a.room_id ≡ r.room_id)
        × ((m : RoomMemberSnapshot) × (find_host a.host r.members ≡ some m))
        × (a.members ≡ r.members))
unfolding commit_loading
commit_loading_accepts r a = (
  λ h. (
    ground arith,
    ground arith,
    front_host a.host r.members (ground arith),
    ground (arith, members_equal-eq a.members r.members),
  ),
  λ (opened, numbered, (m, hosted), same). ground (
    arith,
    ap (λ t. members_equal t r.members) same,
    members_equal_self r.members,
    host_front a.host r.members m,
  ),
)

-- The room's own number, first member and member list at that moment.
abbrev pub Admits : Room → BattleAdmissionSnapshot → Type 0
Admits r a =
    (a.room_id ≡ r.room_id)
    × ((m : RoomMemberSnapshot) × (find_host a.host r.members ≡ some m))
    × (a.members ≡ r.members)

-- Open, with members.
abbrev pub IsJoined : Room → Type 0
IsJoined r = (r.lifecycle ≡ open_) × (r.members ≢ [])

joins_or_not :
    (r : Room)
    → ((closed r || not (is_open r.lifecycle)) ≡ false) × IsJoined r
      ⊎ (((closed r || not (is_open r.lifecycle)) ≡ true)
          × ((r.lifecycle ≢ open_) ⊎ (r.members ≡ [])))
joins_or_not r = cases r.members r.lifecycle
  where
    cases :
        (ms : List RoomMemberSnapshot) (l : RoomLifecycle)
        → ((is_empty ms || not (is_open l)) ≡ false) × ((l ≡ open_) × (ms ≢ []))
          ⊎ (((is_empty ms || not (is_open l)) ≡ true) × ((l ≢ open_) ⊎ (ms ≡ [])))
    cases [] l = inr (refl, inr refl)
    cases (m ∷ ms) open_ = inl (refl, (refl, λ e. absurd (ground arith)))
    cases (m ∷ ms) loading = inr (refl, inl (λ e. absurd (ground arith)))
    cases (m ∷ ms) in_progress = inr (refl, inl (λ e. absurd (ground arith)))
    cases (m ∷ ms) awaiting_settlement_durability = inr (refl, inl (λ e. absurd (ground arith)))

-- In an open room with members, an admission of the room's own number, first member and member
-- list at that moment puts the room in loading and changes nothing else of it; any other admission
-- is an invalid argument and leaves the room as it is. A room that is not open or has no members
-- is closed for it and stays as it is.
pub commit_loading_exactly :
    (r : Room) (a : BattleAdmissionSnapshot)
    → (IsJoined r × Admits r a × (commit_loading r a ≡ (record r { lifecycle = loading }, ok)))
      ⊎ (IsJoined r × (¬ Admits r a) × (commit_loading r a ≡ (r, invalid_argument)))
      ⊎ (((r.lifecycle ≢ open_) ⊎ (r.members ≡ [])) × (commit_loading r a ≡ (r, room_closed)))
unfolding commit_loading
commit_loading_exactly r a = elim (joins_or_not r) [
  | inr (shut, why) ↦ inr (inr (why, rw (commit_loading, shut) refl))
  | inl (free, joined) ↦
      elim (Bool-cases (
        not (a.room_id == r.room_id)
        || not (is_front a.host r.members)
        || not (members_equal a.members r.members))) [
          | inl bad ↦ inr (
              inl (
                joined,
                (λ admits. absurd (
                    ground (
                      arith,
                      (commit_loading_accepts r a).1 (joined.0, admits.0, admits.1, admits.2),
                    ))),
                rw (commit_loading, free, bad) refl,
              ))
          | inr good ↦
              let (_, number, host, members) =
                (commit_loading_accepts r a).0 (rw (commit_loading, free, good) refl) in
              inl (joined, (number, host, members), rw (commit_loading, free, good) refl)
        ]
]

-- What the host's start and the later commit together ensure: if the commit of a prepared
-- admission is accepted, the members are those of the preparation, at least two, and all ready.
pub prepared_commit :
    (r r' : Room) (s g : ℕ) (a : BattleAdmissionSnapshot)
    → (prepare_host_start r s g).1 ≡ some a
    → (commit_loading r' a).1 ≡ ok
    → (r'.members ≡ r.members)
      × (r'.room_id ≡ r.room_id)
      × (2 ≤ length r'.members)
      × (all_ready r'.members ≡ true)
unfolding prepare_host_start
prepared_commit r r' s g a h k =
    let (opened, numbered, host, same) = (commit_loading_accepts r' a).0 k in
    elim (Option-cases (find_host s r.members)) [
      | inl x ↦ absurd (ground arith)
      | inr (m, x) ↦
          let taken : a.members ≡ r.members = ground arith in
          let room : a.room_id ≡ r.room_id = ground arith in
          let many : 2 ≤ length r.members = ground arith in
          let readied : all_ready r.members ≡ true = ground arith in
          let kept : r'.members ≡ r.members = cc in (kept, cc, rw kept many, rw kept readied)
    ]

-- A room accepts the loading commit of an admission that it has just prepared, when nothing changed
-- it in between.
pub prepared_commit_accepted :
    (r : Room) (s g : ℕ) (a : BattleAdmissionSnapshot)
    → (prepare_host_start r s g).1 ≡ some a
    → (commit_loading r a).1 ≡ ok
unfolding prepare_host_start
prepared_commit_accepted r s g a h = elim (Option-cases (find_host s r.members)) [
  | inl x ↦ absurd (ground arith)
  | inr (m, x) ↦ (commit_loading_accepts r a).1 (
    ground arith,
    ground arith,
    front_host a.host r.members (ground (arith, host_front s r.members m)),
    ground arith,
  )
]

-- ===== src/GameFlow/Routes.antt =====
-- Which room a session is in: game-server/modules/game-flow/src/execution/SessionRouteIndex.cpp.
-- Each call holds the mutex throughout, so it is one step. The map is an association list.
pub mod Lookup
use loot_of_legends_public.Base.{
  ℕ, Bool, true, false, not, ◌&&◌, ◌||◌, ◌==◌, if◌then◌else◌, List, [], Option, none, some, length,
}
use loot_of_legends_public.Base.Maps.{find, emplace, erase}

pub record SessionRoomRoute : Type 0 where
  pub session_id : ℕ
  pub generation : ℕ
  pub room_id : ℕ

pub data RouteBindResult : Type 0 where
  inserted already_bound conflict : RouteBindResult

pub record SessionRouteIndex : Type 0 where
  pub routes : List (ℕ × SessionRoomRoute)

unfoldable pub empty_index : SessionRouteIndex
empty_index = record { routes = [] }

abbrev pub same_route : SessionRoomRoute → SessionRoomRoute → Bool
same_route a b =
    a.session_id == b.session_id && a.generation == b.generation && a.room_id == b.room_id

unfoldable pub bind : SessionRouteIndex → SessionRoomRoute → SessionRouteIndex × RouteBindResult
bind index route = elim (find route.session_id index.routes) [
  | some current ↦ (index, if same_route current route then already_bound else conflict)
  | none ↦ (record { routes = emplace route.session_id route index.routes }, inserted)
]

unfoldable pub lookup : SessionRouteIndex → ℕ → ℕ → Option ℕ
lookup index session generation = elim (find session index.routes) [
  | none ↦ none
  | some route ↦ if not (route.generation == generation) then none else some route.room_id
]

unfoldable pub clear : SessionRouteIndex → ℕ → ℕ → ℕ → SessionRouteIndex × Bool
clear index session generation room = elim (find session index.routes) [
  | none ↦ (index, false)
  | some route ↦
      if not (route.generation == generation) || not (route.room_id == room)
      then (index, false)
      else (record { routes = erase session index.routes }, true)
]

unfoldable pub size : SessionRouteIndex → ℕ
size index = length index.routes

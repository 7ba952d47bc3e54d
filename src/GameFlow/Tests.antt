-- ===== src/GameFlow/Tests.antt =====
-- Runs of the route index on small inputs.
use loot_of_legends_public.Base.{◌≡◌, not, ◌&&◌, ◌==◌, if◌then◌else◌, none, some, [], ◌∷◌}
use loot_of_legends_public.GameFlow.Routes.{SessionRoomRoute, SessionRouteIndex, bind, lookup}
use loot_of_legends_public.GameFlow.Routes.Lookup.{is_conflict, lookup-bind}

abbrev route : SessionRoomRoute
route = record { session_id = 4; generation = 2; room_id = 9 }

abbrev index : SessionRouteIndex
index = record { routes = (4, route) ∷ [] }

abbrev other : SessionRoomRoute
other = record { session_id = 4; generation = 3; room_id = 9 }

lookup-bind_example : lookup (bind index other).0 4 2 ≡ (
    if 4 == 4 && not (is_conflict (bind index other).1)
    then (if 3 == 2 then some 9 else none)
    else lookup index 4 2)
lookup-bind_example = lookup-bind index other 4 2

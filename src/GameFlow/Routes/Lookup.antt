-- ===== src/GameFlow/Routes/Lookup.antt =====
-- What SessionRouteIndex.cpp answers after a route is bound or cleared.
use loot_of_legends_public.Base.{
  ℕ, ◌≡◌, Bool, true, false, not, ◌&&◌, ◌==◌, if◌then◌else◌, none, some, arith, Bool-cases,
  Option-cases, inl, inr,
}
use loot_of_legends_public.Base.Maps.{find, find-insert_or_assign, find-erase}
use loot_of_legends_public.GameFlow.Routes.{
  SessionRoomRoute, SessionRouteIndex, RouteBindResult, conflict, bind, lookup, clear, same_route,
}

abbrev pub is_conflict : RouteBindResult → Bool
is_conflict conflict = true
is_conflict _ = false

-- A bound route is found at once, and no other session's answer changes; a route that conflicts
-- with the one there changes nothing.
pub lookup-bind :
    (index : SessionRouteIndex) (route : SessionRoomRoute) (k g : ℕ)
    → lookup (bind index route).0 k g ≡ (
        if route.session_id == k && not (is_conflict (bind index route).1)
        then (if route.generation == g then some route.room_id else none)
        else lookup index k g)
unfolding lookup bind
lookup-bind index route k g = elim (Option-cases (find route.session_id index.routes)) [
  | inl e ↦
      let after = find-insert_or_assign route.session_id k route index.routes in
      ground (arith, after)
  | inr (current, e) ↦ elim (Bool-cases (route.session_id == k)) [
    | inr x ↦ ground arith
    | inl x ↦
        let same : route.session_id ≡ k = ground arith in
        let at : find k index.routes ≡ some current = rw (← same) e in
        elim (Bool-cases (same_route current route)) [ inl y ↦ ground arith | inr y ↦ ground arith ]
  ]
]

-- A cleared route is gone, and no other session's answer changes; a call that does not name the
-- route's generation and room clears nothing.
pub lookup-clear :
    (index : SessionRouteIndex) (k g room j h : ℕ)
    → lookup (clear index k g room).0 j h
      ≡ (if k == j && (clear index k g room).1 then none else lookup index j h)
unfolding lookup clear
lookup-clear index k g room j h =
    let after = find-erase k j index.routes in
    elim (Option-cases (find k index.routes)) [
      | inl e ↦ ground arith
      | inr (current, e) ↦ ground (arith, after)
    ]

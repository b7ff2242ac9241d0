-- ===== src/Dispatcher.antt =====
-- include/request_handler_dispatcher.h and src/request_handler_dispatcher.cc: the routes, and the
-- handler of a request. `routes_` is an unordered map: here it is listed in the order of insertion,
-- and Dispatcher/LongestPrefix shows that the order in which it is walked does not matter.
pub mod LongestPrefix
pub mod Routing
use creeper_url_shortening_w.Config.{NginxConfig}
use creeper_url_shortening_w.Config.Locations.{NginxLocation, NginxLocationResult, get_locations}
use creeper_url_shortening_w.Http.{Request}
use creeper_url_shortening_w.Registry.{
  Registry, returned, RequestHandlerFactory, get_handler_factory,
}
use creeper_url_shortening_w.Prelude.Assoc
use creeper_url_shortening_w.Prelude.Assoc.{Assoc, insert}
use creeper_url_shortening_w.Prelude.Text.{Bytes, str_eq}
use creeper_url_shortening_w.Prelude.{
  ℕ, Bool, true, false, ◌&&◌, List, [], ◌∷◌, Option, none, some, ltb, length, take, if◌then◌else◌,
}

-- The tuple that `routes_` holds; the factory may be the null pointer.
pub record Route (A H : Type 0) : Type 0 where
  pub factory : Option (RequestHandlerFactory A H)
  pub uri : Bytes
  pub args : A

-- `url.substr(0, route_uri.size()) == route_uri`
unfoldable pub starts_with : Bytes → Bytes → Bool
starts_with url route_uri = str_eq (take (length route_uri) url) route_uri

-- `url` matches `route_uri`, which is longer than what was found before.
unfoldable pub improves : Bytes → ℕ → Bytes → Bool
unfolding starts_with
improves url max_length route_uri = starts_with url route_uri && ltb max_length (length route_uri)

-- the loop of `longest_prefix_match`
unfoldable pub match_from : {V : Type 0} → Bytes → ℕ → Bytes → Assoc V → Bytes
unfolding improves
match_from url max_length longest_match [] = longest_match
match_from url max_length longest_match ((route_uri, route) ∷ routes) =
    match_from url (if improves url max_length route_uri then length route_uri else max_length)
      (if improves url max_length route_uri then route_uri else longest_match) routes

unfoldable pub longest_prefix_match : {V : Type 0} → Assoc V → Bytes → Bytes
unfolding match_from
longest_prefix_match routes url = match_from url 0 [] routes

module _ {A H : Type 0} where
  abbrev pub made_route : Registry A H → NginxLocation A → Route A H
  made_route registry location = record {
    factory = get_handler_factory location.handler registry;
    uri = location.path;
    args = location.args;
  }

  -- The new routes, and whether the location was added.
  unfoldable pub add_route :
      Registry A H → NginxLocation A → Assoc (Route A H) → Assoc (Route A H) × Bool
  add_route registry location routes = elim (Assoc.lookup location.path routes) [
    | some _ ↦ (routes, false)
    | none ↦ (insert location.path (made_route registry location) routes, true)
  ]

  -- the loop of `add_routes`, which goes on where `add_route` fails
  unfoldable pub add_locations :
      Registry A H → List (NginxLocation A) → Assoc (Route A H) → Assoc (Route A H)
  unfolding add_route
  add_locations registry [] routes = routes
  add_locations registry (l ∷ ls) routes = add_locations registry ls (add_route registry l routes).0

  -- `none`: `add_routes` returns false and the constructor throws, or the call below it throws or
  -- reads through a null pointer.
  abbrev pub routes_of : Registry A H → NginxLocationResult A → Option (Assoc (Route A H))
  routes_of registry (returned (some locations)) = some (add_locations registry locations [])
  routes_of registry _ = none

  -- The constructor.
  unfoldable pub dispatcher : Registry A H → NginxConfig → Option (Assoc (Route A H))
  unfolding add_locations
  dispatcher registry config = routes_of registry (get_locations registry config)

  -- `none`: it reads through the null pointer that `routes_[location]` inserts, or calls a null
  -- factory.
  abbrev pub call : Option (Route A H) → Option H
  call none = none
  call (some route) = elim route.factory [
    | none ↦ none
    | some factory ↦ some (factory route.uri route.args)
  ]

  unfoldable pub get_handler : Assoc (Route A H) → Request → Option H
  unfolding longest_prefix_match
  get_handler routes request = call (Assoc.lookup (longest_prefix_match routes request.uri) routes)

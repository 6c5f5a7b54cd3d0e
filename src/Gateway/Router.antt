-- ===== src/Gateway/Router.antt =====
-- services/crates/gateway/src/router.rs: which route a request takes, and the upstream's URI.
pub mod Best
pub mod Boundary
use oj_monorepo.Base.{
  ℕ, zero, suc, ◌+◌, ◌-◌, ltb, ◌==◌, not, ◌&&◌, ◌||◌, String, str_eq, str_append, len, slice,
  starts_with, List, [], ◌∷◌, Bool, true, false, Option, none, some, if◌then◌else◌,
}
use oj_monorepo.Gateway.Config.{MatchType, RouteConfig}

-- The byte after the prefix is the one at the prefix's length.
unfoldable pub is_prefix_match : String → String → Bool
is_prefix_match prefix path =
    if not (starts_with path prefix)
    then false
    else len path == len prefix || str_eq (slice path (len prefix) (len prefix + len "/")) "/"

abbrev matches_as : MatchType → String → String → Bool
matches_as MatchType.exact route_path path = str_eq path route_path
matches_as MatchType.prefix route_path path = is_prefix_match route_path path

abbrev pub matches : RouteConfig → String → Bool
matches route path = matches_as route.match_type route.path path

abbrev pub is_exact : MatchType → Bool
is_exact MatchType.exact = true
is_exact MatchType.prefix = false

-- `(route.path.len(), is_exact)`, and the order of tuples.
abbrev pub key : RouteConfig → ℕ × Bool
key route = (len route.path, is_exact route.match_type)

abbrev pub key_gt : ℕ × Bool → ℕ × Bool → Bool
key_gt a b = ltb b.0 a.0 || (a.0 == b.0 && a.1 && not b.1)

-- One turn of the fold; the key of the best route is computed from it.
unfoldable pub better : String → Option RouteConfig → RouteConfig → Option RouteConfig
better path none route = if matches route path then some route else none
better path (some best) route =
    if matches route path
    then if key_gt (key route) (key best) then some route else some best
    else some best

unfoldable pub best_of : String → Option RouteConfig → List RouteConfig → Option RouteConfig
unfolding better
best_of path best [] = best
best_of path best (route ∷ routes) = best_of path (better path best route) routes

-- `match_route`: a `RouteMatch` is its route.
unfoldable pub match_route : List RouteConfig → String → Option RouteConfig
unfolding best_of
match_route routes request_path = best_of request_path none routes

-- `trim_end_matches('/')`, on the number of bytes that there may be to trim.
unfoldable pub trim_slashes : ℕ → String → String
trim_slashes zero s = s
trim_slashes (suc n) s =
    let rest = trim_slashes n (slice s 0 (len s - len "/")) in
    if str_eq (slice s (len s - len "/") (len s)) "/" then rest else s

unfoldable pub with_query : String → Option String → String
with_query uri none = uri
with_query uri (some q) = str_append (str_append uri "?") q

-- `build_upstream_uri`, up to `Uri`'s own parser.
unfoldable pub build_upstream_uri : String → String → Option String → String
unfolding trim_slashes with_query
build_upstream_uri upstream path query =
    with_query (str_append (trim_slashes (len upstream) upstream) path) query

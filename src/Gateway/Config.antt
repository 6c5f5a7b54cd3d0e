-- ===== src/Gateway/Config.antt =====
-- services/crates/gateway/src/config.rs: the configuration and its validation.
pub mod Validity
use oj_monorepo.Base.{
  ℕ, suc, ◌==◌, String, str_eq, List, [], ◌∷◌, ◌++◌, Bool, Result, ok, err, if◌then◌else◌,
}

pub data AuthenticationLevel : Type 0 where
  optional : AuthenticationLevel
  required : AuthenticationLevel
  open_to_all : AuthenticationLevel
  bypass_and_strip : AuthenticationLevel

pub data MatchType : Type 0 where
  prefix : MatchType
  exact : MatchType

pub record RateLimitConfig : Type 0 where
  pub per_sec : ℕ
  pub burst : ℕ

pub record RouteConfig : Type 0 where
  pub path : String
  pub auth : AuthenticationLevel
  pub rate_limit : RateLimitConfig
  pub upstream : String
  pub match_type : MatchType

pub record GatewayConfig : Type 0 where
  pub routes : List RouteConfig
  pub jwks_url : String
  pub addr : String
  pub upstream_timeout_secs : ℕ
  pub max_connections : ℕ
  pub drain_timeout_secs : ℕ

-- The field that an error is about, and the message. A field of a route has the route's index,
-- which the source prints into the name.
pub data Field : Type 0 where
  top : String → Field
  of_route : ℕ → String → Field

pub record FieldError : Type 0 where
  pub field : Field
  pub message : String

-- `if test { errors.push(..) }`
unfoldable pub check : Bool → Field → String → List FieldError
check test field message = if test then record { field = field; message = message } ∷ [] else []

unfoldable pub route_errors : ℕ → RouteConfig → List FieldError
unfolding check
route_errors i route =
    check (str_eq route.path "") (Field.of_route i "path") "must not be empty"
    ++ (check (str_eq route.upstream "") (Field.of_route i "upstream") "must not be empty"
        ++ (check (route.rate_limit.per_sec == 0) (Field.of_route i "rate_limit.per_sec")
              "must be > 0"
            ++ check (route.rate_limit.burst == 0) (Field.of_route i "rate_limit.burst")
                "must be > 0"))

-- The loop over the routes, from the index `i` on.
unfoldable pub routes_errors : ℕ → List RouteConfig → List FieldError
unfolding route_errors
routes_errors i [] = []
routes_errors i (route ∷ routes) = route_errors i route ++ routes_errors (suc i) routes

unfoldable pub config_errors : GatewayConfig → List FieldError
unfolding check routes_errors
config_errors c =
    check (str_eq c.addr "") (Field.top "addr") "must not be empty"
    ++ (check (str_eq c.jwks_url "") (Field.top "jwks_url") "must not be empty"
        ++ (check (c.upstream_timeout_secs == 0) (Field.top "upstream_timeout_secs") "must be > 0"
            ++ (check (c.max_connections == 0) (Field.top "max_connections") "must be > 0"
                ++ (check (c.drain_timeout_secs == 0) (Field.top "drain_timeout_secs") "must be > 0"
                    ++ routes_errors 0 c.routes))))

unfoldable pub verdict_on : List FieldError → Result {0, 0} Unit (List FieldError)
verdict_on [] = ok tt
verdict_on (e ∷ es) = err (e ∷ es)

unfoldable pub validate : GatewayConfig → Result {0, 0} Unit (List FieldError)
unfolding config_errors verdict_on
validate c = verdict_on (config_errors c)

-- ===== src/Gateway/Layers.antt =====
-- services/crates/gateway/src/layers/{health, route, rate_limit, auth}.rs and services/{proxy,
-- gateway}.rs: the pipeline that main.rs puts together, for one request.
pub mod Identity
pub mod Passage
use oj_monorepo.Base.{
  ℕ, zero, suc, ◌+◌, ◌-◌, ◌%◌, ◌==◌, String, str_eq, str_append, len, slice, starts_with, List, [],
  ◌∷◌, Bool, true, false, Option, none, some, Result, ok, err, and_then, ◌||◌, if◌then◌else◌,
  u32_mod,
}
use oj_monorepo.Auth.Token.{Claims, Jwt}
use oj_monorepo.Gateway.Config.{AuthenticationLevel, RouteConfig}
use oj_monorepo.Gateway.Router.{match_route, build_upstream_uri}
use oj_monorepo.Gateway.Jwks.{JwksCache, verify}
use oj_monorepo.Gateway.Limiter.{Governor, Limiters, rate_limit}
use oj_monorepo.Shared.Headers.{HeaderValue, Headers, get, remove, insert}
use oj_monorepo.Gateway.Requests.{GatewayError, status_code, Request, Response}

module _ (jwt : Jwt) (cache : Option JwksCache) where
  unfoldable pub bearer : String → Option String
  bearer header =
      if starts_with header "Bearer "
      then some (slice header (len "Bearer ") (len header))
      else none

  unfoldable pub subject_of : String → Option String
  unfolding verify
  subject_of token = elim (verify jwt cache token) [
    | err e ↦ none
    | ok claims ↦ jwt.parse_uuid claims.sub
  ]

  -- `verify_token`; `none` is its error.
  unfoldable pub verify_token : Option HeaderValue → Option String
  unfolding bearer subject_of
  verify_token none = none
  verify_token (some HeaderValue.opaque) = none
  verify_token (some (HeaderValue.text header)) = elim (bearer header) [
    | none ↦ none
    | some token ↦ subject_of token
  ]

  abbrev pub with_user : String → Request → Request
  with_user user_id req = record req {
    headers = insert "x-user-id" (HeaderValue.text user_id) req.headers;
  }

  -- `AuthService`: the request that goes on.
  unfoldable pub authenticate : AuthenticationLevel → Request → Result Request GatewayError
  unfolding verify_token
  authenticate AuthenticationLevel.open_to_all req = ok req
  authenticate AuthenticationLevel.bypass_and_strip req =
      ok (record req { headers = remove "authorization" req.headers })
  authenticate AuthenticationLevel.required req =
      elim (verify_token (get "authorization" req.headers)) [
        | none ↦ err GatewayError.auth_failed
        | some user_id ↦ ok (with_user user_id req)
      ]
  authenticate AuthenticationLevel.optional req =
      elim (verify_token (get "authorization" req.headers)) [
        | none ↦ ok req
        | some user_id ↦ ok (with_user user_id req)
      ]

-- What the upstream's client answers within the time.
pub data Upstream : Type 0 where
  answered : Response → Upstream
  failed : String → Upstream
  timed_out : Upstream

pub record Uri : Type 0 where
  pub text : String
  pub authority : Option String

-- `Uri`'s parser and `HeaderValue::from_str` on an authority are parameters, and so is the upstream.
module _ (parse : String → Result Uri String) (is_header : String → Bool)
    (client : Uri → Request → Upstream) where
  upstream_request : Uri → Request → Option String → Result Request GatewayError
  upstream_request uri req none = err (GatewayError.upstream "invalid upstream authority")
  upstream_request uri req (some authority) =
      if is_header authority
      then ok (record req { headers = insert "host" (HeaderValue.text authority) req.headers })
      else err (GatewayError.upstream "invalid upstream authority")

  answer_of : Upstream → Result Response GatewayError
  answer_of (Upstream.answered res) =
      ok (record res { headers = remove "content-length" res.headers })
  answer_of (Upstream.failed e) = err (GatewayError.upstream e)
  answer_of Upstream.timed_out = err GatewayError.timeout

  parsed : Result Uri String → Result Uri GatewayError
  parsed (ok uri) = ok uri
  parsed (err e) = err (GatewayError.upstream e)

  -- `ProxyService`.
  unfoldable pub proxy : RouteConfig → Request → Result Response GatewayError
  unfolding upstream_request answer_of parsed build_upstream_uri
  proxy route req =
      and_then (parsed (parse (build_upstream_uri route.upstream req.path req.query))) (λ uri.
        and_then (upstream_request uri req uri.authority) (λ out. answer_of (client uri out)))

  module _ (governor : Governor) (alive : String → Bool) (now : ℕ) (jwt : Jwt)
      (cache : Option JwksCache) (routes : List RouteConfig) where
    -- `AuthService` around the proxy.
    unfoldable pub authenticated : RouteConfig → Request → Result Response GatewayError
    unfolding authenticate proxy
    authenticated route req = and_then (authenticate jwt cache route.auth req) (proxy route)

    -- `RateLimitService` around that; the outer `none` is a panic.
    unfoldable pub passed :
        RouteConfig
        → Request
        → Option (Bool × Limiters governor alive now)
        → Option (Result Response GatewayError × Limiters governor alive now)
    unfolding authenticated
    passed route req none = none
    passed route req (some (false, limiters)) = some (err GatewayError.rate_limited, limiters)
    passed route req (some (true, limiters)) = some (authenticated route req, limiters)

    -- `RouteService` around that.
    unfoldable pub routed :
        Request
        → Limiters governor alive now
        → Option (Result Response GatewayError × Limiters governor alive now)
    unfolding match_route rate_limit passed
    routed req limiters = elim (match_route routes req.path) [
      | none ↦ some (err GatewayError.route_not_found, limiters)
      | some route ↦ passed route req (rate_limit governor alive now route req limiters)
    ]

    abbrev pub health_response : Option JwksCache → Response
    health_response none = record {
      status = 503;
      headers = ("content-type", HeaderValue.text "application/json") ∷ [];
      body = "{\"status\":\"degraded\",\"reason\":\"jwks_unavailable\"}";
    }
    health_response (some keys) = record {
      status = 200;
      headers = ("content-type", HeaderValue.text "application/json") ∷ [];
      body = "{\"status\":\"ok\"}";
    }

    -- `HealthService` around that: the whole pipeline.
    unfoldable pub pipeline :
        Request
        → Limiters governor alive now
        → Option (Result Response GatewayError × Limiters governor alive now)
    unfolding routed
    pipeline req limiters =
        if str_eq req.path "/healthz"
        then some (ok (health_response cache), limiters)
        else routed req limiters

-- `GatewayService`: an error becomes a response with its status and its text, which `thiserror`
-- derives.
unfoldable pub respond : (GatewayError → String) → Result Response GatewayError → Response
unfolding status_code
respond display (ok res) = res
respond display (err e) = record { status = status_code e; headers = []; body = display e }

-- ===== src/Gateway/Tests.antt =====
-- The gateway at a concrete configuration, with a limiter that counts and a toy token format.
use oj_monorepo.Base.{
  replicate, ℕ, suc, ◌^◌, ◌≡◌, ◌↔◌, refl, ltb, String, str_eq, List, [], ◌∷◌, Bool, true, false,
  none, some, Result, ok, if◌then◌else◌, arith,
}
use oj_monorepo.Auth.Token.{Jwt, Claims, TokenType}
use oj_monorepo.Auth.Extractor.{user_id}
use oj_monorepo.Auth.Extractor.Trust.{user_id-authenticate}
use oj_monorepo.Gateway.Connections
use oj_monorepo.Gateway.Connections.{advance_all}
use oj_monorepo.Gateway.Connections.Permits.{IsUnlimited, limit_not_enforced}
use oj_monorepo.Gateway.Config.{
  AuthenticationLevel, MatchType, RouteConfig, GatewayConfig, validate,
}
use oj_monorepo.Gateway.Router.{match_route, is_prefix_match, build_upstream_uri}
use oj_monorepo.Gateway.Router.Best.{IsBest, match_route-IsBest}
use oj_monorepo.Gateway.Router.Boundary.{IsBelow, is_prefix_match_iff}
use oj_monorepo.Gateway.Jwks.{JwksCache, verify}
use oj_monorepo.Gateway.Jwks.Verified.{Holds, verify_sound}
use oj_monorepo.Shared.Headers.{HeaderValue, get}
use oj_monorepo.Gateway.Requests.{Request, Response}
use oj_monorepo.Gateway.Layers.{Uri, Upstream, verify_token, authenticate, pipeline}
use oj_monorepo.Gateway.Limiter.{Governor, new_limiter, client_ip}
use oj_monorepo.Gateway.Layers.Identity.{IsAuthenticated, authenticate-IsAuthenticated}
use oj_monorepo.Gateway.Layers.Passage.{
  Passed, through, IsPassage, pipeline-IsPassage, pipeline-some,
}

abbrev api : RouteConfig
api = record {
  path = "/api";
  auth = AuthenticationLevel.required;
  rate_limit = record { per_sec = 10; burst = 2 };
  upstream = "http://api/";
  match_type = MatchType.prefix;
}

abbrev api_exact : RouteConfig
api_exact = record api { match_type = MatchType.exact; auth = AuthenticationLevel.optional }

abbrev routes : List RouteConfig
routes = api ∷ api_exact ∷ []

abbrev config : GatewayConfig
config = record {
  routes = routes;
  jwks_url = "http://auth/jwks.json";
  addr = "0.0.0.0:80";
  upstream_timeout_secs = 30;
  max_connections = 100;
  drain_timeout_secs = 10;
}

valid_config : validate config ≡ ok tt
unfolding validate
valid_config = refl

below_api : is_prefix_match "/api" "/api/x" ≡ true
unfolding is_prefix_match
below_api = refl

beside_api : is_prefix_match "/api" "/apix" ≡ false
unfolding is_prefix_match
beside_api = refl

is_prefix_match_iff_example : (is_prefix_match "/api" "/api/x" ≡ true) ↔ IsBelow "/api" "/api/x"
is_prefix_match_iff_example = is_prefix_match_iff "/api" "/api/x"

exact_first : match_route routes "/api" ≡ some api_exact
unfolding match_route is_prefix_match
exact_first = refl

match_route-IsBest_example : IsBest "/api" routes (match_route routes "/api")
match_route-IsBest_example = match_route-IsBest routes "/api"

upstream_uri : build_upstream_uri "http://api//" "/api/x" (some "q=1") ≡ "http://api/api/x?q=1"
unfolding build_upstream_uri
upstream_uri = refl

-- A token is the name of its user, signed by nobody.
abbrev claims_of : String → Claims
claims_of token = record {
  aud = "onlinejudge";
  exp = 100;
  iat = 0;
  iss = "auth";
  nbf = 0;
  sub = token;
  typ = TokenType.access;
}

abbrev jwt : Jwt
jwt = record {
  decode_header = λ token. some none;
  raw_to_der = λ raw. some raw;
  decode_pem = λ token key. some (claims_of token);
  decode_der = λ token key. if str_eq token "forged" then none else some (claims_of token);
  encode = λ claims key. some claims.sub;
  parse_uuid = λ s. some s;
}

abbrev keys : JwksCache
keys = ("k1", "raw") ∷ []

verify_sound_example :
    ((claims_of "u1").typ ≡ TokenType.access)
    × ((held : JwksCache) × (some keys ≡ some held)
        × ((raw : String) × (der : String) × Holds held raw
            × (jwt.raw_to_der raw ≡ some der)
            × (jwt.decode_der "u1" der ≡ some (claims_of "u1"))))
unfolding verify
verify_sound_example = verify_sound jwt (some keys) "u1" (claims_of "u1") refl

abbrev request : Request
request = record {
  path = "/api/x";
  query = none;
  headers =
      ("authorization", HeaderValue.text "Bearer u1")
      ∷ ("x-user-id", HeaderValue.text "admin")
      ∷ [];
  peer_addr = some "10.0.0.1";
  body = "";
}

abbrev forwarded : Request
forwarded = record request {
  headers =
      ("x-user-id", HeaderValue.text "u1") ∷ ("authorization", HeaderValue.text "Bearer u1") ∷ [];
}

authenticate-IsAuthenticated_example :
    IsAuthenticated jwt (some keys) AuthenticationLevel.required request forwarded
unfolding authenticate
authenticate-IsAuthenticated_example =
    authenticate-IsAuthenticated jwt (some keys) AuthenticationLevel.required request forwarded refl

abbrev governor : Governor
governor = record {
  Limiter = ℕ × ℕ;
  direct = λ per_sec burst. (0, burst);
  check_at = λ now l. if ltb l.0 l.1 then (true, (suc l.0, l.1)) else (false, l);
}

abbrev alive : String → Bool
alive key = true

abbrev parse : String → Result Uri String
parse s = ok (record { text = s; authority = some "api" })

abbrev is_header : String → Bool
is_header s = true

abbrev response : Response
response = record { status = 200; headers = []; body = "hello" }

abbrev client : Uri → Request → Upstream
client uri req = Upstream.answered response

pipeline-IsPassage_example :
    IsPassage parse is_header client governor alive 0 jwt
      (some keys)
      routes
      request
      []
      response
      (("/api:10.0.0.1", (1, 2)) ∷ [])
unfolding pipeline is_prefix_match client_ip
pipeline-IsPassage_example =
    pipeline-IsPassage parse is_header client governor alive 0 jwt (some keys) routes request []
      (("/api:10.0.0.1", (1, 2)) ∷ []) response (λ e. cc) refl

pipeline-some_example :
    (out : Passed parse is_header client governor alive 0 jwt (some keys) routes) × (through parse
        is_header client governor alive 0 jwt
        (some keys)
        routes
        request
        []
      ≡ some out)
pipeline-some_example =
    pipeline-some parse is_header client governor alive 0 jwt (some keys) routes request [] (
      (omega arith, omega arith, omega arith, omega arith),
      ((omega arith, omega arith, omega arith, omega arith), tt),
    )

-- A limit that is a multiple of 2 ^ 32 passes the validation and makes the limiter panic.
limiter_panics : new_limiter governor alive 0 (2 ^ 32) 1 ≡ none
unfolding new_limiter
limiter_panics = refl

user_id-authenticate_example :
    (u : String) × (verify_token jwt (some keys) (get "authorization" request.headers) ≡ some u)
    × (user_id jwt forwarded.headers ≡ ok u)
unfolding authenticate
user_id-authenticate_example =
    user_id-authenticate jwt (some keys) request forwarded (λ s u h. refl) refl

-- A limit of two, and three connections; one ends, and the server is told to stop.
limit_not_enforced_example :
    IsUnlimited 2 (
      advance_all
        (Connections.Event.accepted ∷ Connections.Event.accepted ∷ Connections.Event.accepted
          ∷ Connections.Event.served ∷ Connections.Event.interrupted ∷ [])
        (Connections.listening 2))
    × ((advance_all (replicate 5 Connections.Event.accepted) (Connections.listening 2)).serving ≡ 5)
limit_not_enforced_example =
    limit_not_enforced 2
      (Connections.Event.accepted ∷ Connections.Event.accepted ∷ Connections.Event.accepted
        ∷ Connections.Event.served ∷ Connections.Event.interrupted ∷ [])
      5 (omega arith)

-- With a limit of zero, everybody is refused.
nobody_served :
    (advance_all (Connections.Event.accepted ∷ []) (Connections.listening 0)).refusing ≡ 1
unfolding advance_all Connections.listening
nobody_served = refl

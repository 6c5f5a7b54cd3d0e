-- ===== src/Gateway/Requests.antt =====
-- Requests as the gateway's layers see them, and services/crates/gateway/src/error.rs.
use oj_monorepo.Base.{ℕ, String, Option}
use oj_monorepo.Shared.Headers.{Headers}

pub data GatewayError : Type 0 where
  route_not_found : GatewayError
  rate_limited : GatewayError
  auth_failed : GatewayError
  upstream : String → GatewayError
  timeout : GatewayError

-- `StatusCode` is its number.
unfoldable pub status_code : GatewayError → ℕ
status_code GatewayError.route_not_found = 404
status_code GatewayError.rate_limited = 429
status_code GatewayError.auth_failed = 401
status_code (GatewayError.upstream e) = 502
status_code GatewayError.timeout = 504

pub record Request : Type 0 where
  pub path : String
  pub query : Option String
  pub headers : Headers
  -- The address that `ConnectionService` has added.
  pub peer_addr : Option String
  pub body : String

pub record Response : Type 0 where
  pub status : ℕ
  pub headers : Headers
  pub body : String

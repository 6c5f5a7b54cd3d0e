-- ===== src/Auth/Endpoints/Tests.antt =====
-- The endpoints on a small database, with a toy token format and a toy hash.
use oj_monorepo.Base.{
  ◌+◌, ◌≡◌, refl, String, str_eq, str_append, [], ◌∷◌, false, none, some, ok, err,
}
use oj_monorepo.Auth.Token.{Jwt, Claims, TokenType}
use oj_monorepo.Auth.Store.{User, RefreshToken, Db, World, AppState}
use oj_monorepo.Auth.Endpoints.{
  HandlerError, TokenResponse, TokenIntrospectionResponse, password_grant, refresh_grant, revoke,
  introspect,
}
use oj_monorepo.Auth.Endpoints.Lifecycle.{revoke-refuses}
use oj_monorepo.Auth.Endpoints.Granting.{GrantOutcome, password_grant-GrantOutcome}
use oj_monorepo.Auth.Registration.{RegisterRequest, register}
use oj_monorepo.Auth.Registration.Uniqueness.{Registered, register-Registered}

abbrev named : TokenType → String → String
named TokenType.access s = str_append "a:" s
named TokenType.refresh s = str_append "r:" s

abbrev claims : TokenType → Claims
claims typ = record {
  aud = "onlinejudge";
  exp = 100;
  iat = 0;
  iss = "auth";
  nbf = 0;
  sub = "u1";
  typ = typ;
}

abbrev jwt : Jwt
jwt = record {
  decode_header = λ token. some none;
  raw_to_der = λ raw. some raw;
  decode_pem = λ token key. some (claims TokenType.refresh);
  decode_der = λ token der. some (claims TokenType.access);
  encode = λ c key. some (named c.typ c.sub);
  parse_uuid = λ s. some s;
}

abbrev world : World
world = record {
  jwt = jwt;
  hash = λ plain. some (str_append "#" plain);
  verify_hash = λ plain hashed. str_eq hashed (str_append "#" plain);
  now = 50;
  after = λ ttl. some (50 + ttl);
  new_id = "t1";
  faulty = λ q. false;
}

abbrev state : AppState
state = record {
  private_key_pem = "private";
  public_key_pem = "public";
  access_token_ttl_secs = 10;
  refresh_token_ttl_secs = 1000;
}

abbrev user : User
user = record { id = "u1"; username = "ada"; email = "ada@x"; password = "#secret12" }

abbrev db : Db
db = record { users = user ∷ []; refresh_tokens = [] }

abbrev row : RefreshToken
row = record { id = "t1"; user_id = "u1"; token = "#r:u1"; created_at = 50; expired_at = 1050 }

abbrev granted : Db
granted = record { users = user ∷ []; refresh_tokens = row ∷ [] }

grants :
    password_grant world state "ada" "secret12" db
    ≡ some (granted, ok (TokenResponse.password "a:u1" 10 "r:u1"))
unfolding password_grant
grants = refl

refreshes : refresh_grant world state "r:u1" granted ≡ ok (TokenResponse.refresh "a:u1" 10)
unfolding refresh_grant
refreshes = refl

active :
    introspect world state "r:u1" TokenType.refresh granted
    ≡ TokenIntrospectionResponse.successful "ada" TokenType.refresh
unfolding introspect
active = refl

revoke-refuses_example :
    (refresh_grant world state "r:u1" (revoke world state "r:u1" granted)
      ≡ err HandlerError.invalid_grant)
    × (introspect world state "r:u1" TokenType.refresh (revoke world state "r:u1" granted)
        ≡ TokenIntrospectionResponse.failed)
revoke-refuses_example = revoke-refuses world state "r:u1" "t1" granted refl refl ((λ _. refl), tt)

password_grant-GrantOutcome_example :
    GrantOutcome world state "ada" "secret12" db (password_grant world state "ada" "secret12" db)
password_grant-GrantOutcome_example = password_grant-GrantOutcome world state "ada" "secret12" db

abbrev request : RegisterRequest
request = record { username = "bob"; password = "longenough"; email = "bob@x" }

abbrev others : Db → Db
others d = d

register-Registered_example :
    Registered world state request db db (register world state request others db)
register-Registered_example = register-Registered world state request others db (tt, tt)

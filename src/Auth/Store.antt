-- ===== src/Auth/Store.antt =====
-- services/crates/auth/src/models/ and hash.rs: the tables, and the libraries that the endpoints
-- call. Hashing (argon2), the arithmetic of dates (chrono) and the faults of the database are
-- parameters.
use oj_monorepo.Base.{
  ℕ, String, str_eq, List, [], ◌∷◌, ◌++◌, keep, find, any, not, ◌||◌, Bool, Option,
}
use oj_monorepo.Auth.Token.{Jwt}

pub record User : Type 0 where
  pub id : String
  pub username : String
  pub email : String
  pub password : String

pub record RefreshToken : Type 0 where
  pub id : String
  pub user_id : String
  pub token : String
  pub created_at : ℕ
  pub expired_at : ℕ

pub record Db : Type 0 where
  pub users : List User
  pub refresh_tokens : List RefreshToken

-- The queries of the endpoints, by where they stand.
pub data Query : Type 0 where
  user_of_login : Query
  tokens_of_user : Query
  insert_token : Query
  delete_token : Query
  user_of_token : Query
  same_username : Query
  same_email : Query
  insert_user : Query
  same_username_again : Query
  same_email_again : Query

-- The libraries, and what one request gets from its surroundings.
pub record World : Type 0 where
  pub jwt : Jwt
  -- `hash`; `none` is an error.
  pub hash : String → Option String
  -- `verify(..).unwrap_or(false)`: the plain text, and the hash.
  pub verify_hash : String → String → Bool
  -- The time in seconds, and `now + Duration::seconds(ttl as i64)`; `none` is a panic.
  pub now : ℕ
  pub after : ℕ → Option ℕ
  -- `Uuid::now_v7` for a new row.
  pub new_id : String
  -- Whether a query fails.
  pub faulty : Query → Bool

pub record AppState : Type 0 where
  pub private_key_pem : String
  pub public_key_pem : String
  pub access_token_ttl_secs : ℕ
  pub refresh_token_ttl_secs : ℕ

abbrev pub by_username : String → Db → Option User
by_username username db = find (λ (u : User). str_eq u.username username) db.users

abbrev pub by_email : String → Db → Option User
by_email email db = find (λ (u : User). str_eq u.email email) db.users

abbrev pub by_id : String → Db → Option User
by_id id db = find (λ (u : User). str_eq u.id id) db.users

abbrev pub tokens_of : String → Db → List RefreshToken
tokens_of user_id db = keep (λ (t : RefreshToken). str_eq t.user_id user_id) db.refresh_tokens

abbrev pub without_token : String → Db → Db
without_token id db = record db {
  refresh_tokens = keep (λ (t : RefreshToken). not (str_eq t.id id)) db.refresh_tokens;
}

abbrev pub with_token : RefreshToken → Db → Db
with_token t db = record db { refresh_tokens = db.refresh_tokens ++ (t ∷ []) }

-- The unique columns of the table make an insertion fail.
abbrev pub is_taken : User → Db → Bool
is_taken u db =
    any (λ (v : User). (str_eq v.username u.username) || str_eq v.email u.email) db.users

abbrev pub with_user : User → Db → Db
with_user u db = record db { users = db.users ++ (u ∷ []) }

-- ===== src/Auth/Registration.antt =====
-- services/crates/auth/src/router.rs: `register_handler`.
pub mod Uniqueness
use Prim.Native.Char.{Char, code}
use Prim.Native.String.{String, [] as no_text, ◌∷◌ as char_first}
use oj_monorepo.Base.{
  ℕ, ltb, leb, ◌==◌, ◌||◌, ◌&&◌, len, not, Bool, true, false, Option, none, some, Result, ok, err,
  if◌then◌else◌,
}
use oj_monorepo.Auth.Store.{
  User, RefreshToken, Db, Query, World, AppState, by_username, by_email, is_taken, with_user,
}
use oj_monorepo.Auth.Endpoints.{Issued, issue_and_store}

pub record RegisterRequest : Type 0 where
  pub username : String
  pub password : String
  pub email : String

pub record RegisterResponse : Type 0 where
  pub access_token : String
  pub refresh_token : String

pub data RegisterError : Type 0 where
  username_taken : RegisterError
  email_taken : RegisterError
  invalid_request : RegisterError
  server_error : RegisterError

-- `char::is_whitespace`: the characters with the property White_Space.
abbrev pub is_whitespace : ℕ → Bool
is_whitespace n =
    (leb 9 n && leb n 13)
    || (n == 32
        || n == 133
        || n == 160
        || n == 5760
        || (leb 8192 n && leb n 8202)
        || (n == 8232 || n == 8233 || n == 8239 || n == 8287 || n == 12288))

-- `trim().is_empty()`.
unfoldable pub is_blank : String → Bool
is_blank no_text = true
is_blank (char_first c s) = let rest = is_blank s in is_whitespace (code c) && rest

unfoldable pub is_invalid : RegisterRequest → Bool
unfolding is_blank
is_invalid r =
    is_blank r.username || is_blank r.password || is_blank r.email || ltb (len r.password) 8

abbrev pub is_some {ℓ} : {A : Type ℓ} → Option A → Bool
is_some none = false
is_some (some a) = true

module _ (world : World) (state : AppState) where
  open world use {hash, faulty, new_id}

  -- What a failed insertion of the user answers, from the database as it then is.
  unfoldable pub insertion_error : RegisterRequest → Db → RegisterError
  insertion_error r db =
      if not (faulty Query.same_username_again) && is_some (by_username r.username db)
      then RegisterError.username_taken
      else if not (faulty Query.same_email_again) && is_some (by_email r.email db)
      then RegisterError.email_taken
      else RegisterError.server_error

  unfoldable pub register_response :
      Option (Db × Result Issued RegisterError)
      → Option (Db × Result RegisterResponse RegisterError)
  register_response none = none
  register_response (some (db, err e)) = some (db, err e)
  register_response (some (db, ok i)) =
      some (db, ok (record { access_token = i.access_token; refresh_token = i.refresh_token }))

  abbrev pub new_user : RegisterRequest → String → User
  new_user r password_hash = record {
    id = new_id;
    username = r.username;
    email = r.email;
    password = password_hash;
  }

  unfoldable pub insert_user :
      RegisterRequest → String → Db → Option (Db × Result RegisterResponse RegisterError)
  unfolding insertion_error register_response
  insert_user r password_hash db =
      if faulty Query.insert_user || is_taken (new_user r password_hash) db
      then some (db, err (insertion_error r db))
      else register_response (
          issue_and_store world state new_id RegisterError.server_error
            (with_user (new_user r password_hash) db))

  -- The two checks on the database as it is first.
  unfoldable pub refusal : RegisterRequest → Db → Option RegisterError
  unfolding is_invalid
  refusal r db =
      if is_invalid r
      then some RegisterError.invalid_request
      else if faulty Query.same_username
      then some RegisterError.server_error
      else if is_some (by_username r.username db)
      then some RegisterError.username_taken
      else if faulty Query.same_email
      then some RegisterError.server_error
      else if is_some (by_email r.email db)
      then some RegisterError.email_taken
      else none

  unfoldable pub hashed :
      RegisterRequest → Option String → Db → Option (Db × Result RegisterResponse RegisterError)
  unfolding insert_user
  hashed r none db = some (db, err RegisterError.server_error)
  hashed r (some password_hash) db = insert_user r password_hash db

  -- `register_handler`; the outer `none` is a panic. `others` is what other requests do to the
  -- database between the checks and the insertion.
  unfoldable pub register :
      RegisterRequest → (Db → Db) → Db → Option (Db × Result RegisterResponse RegisterError)
  unfolding refusal hashed
  register r others db = elim (refusal r db) [
    | some e ↦ some (db, err e)
    | none ↦ hashed r (hash r.password) (others db)
  ]

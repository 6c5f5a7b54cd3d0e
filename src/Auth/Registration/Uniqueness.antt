-- ===== src/Auth/Registration/Uniqueness.antt =====
-- Names and addresses stay unique, and what a registration leaves.
use oj_monorepo.Base.{
  ℕ, ◌≡◌, ◌≢◌, refl, ◌⊎◌, inl, inr, ◌||◌, String, str_eq, str_eq_iff, List, [], ◌∷◌, ◌++◌, any, All,
  All-append, Bool, true, false, Option, none, some, Result, ok, err, if◌then◌else◌, if_cases,
}
use oj_monorepo.Auth.Store.{User, Db, Query, World, AppState, is_taken, with_user, with_token}
use oj_monorepo.Auth.Endpoints.{Issued, issue, token_row, store_token, issue_and_store}
use oj_monorepo.Auth.Registration.{
  RegisterRequest, RegisterResponse, RegisterError, new_user, insertion_error, register_response,
  insert_user, refusal, hashed, register,
}

abbrev pub Differ : User → User → Type 0
Differ u v = (u.username ≢ v.username) × (u.email ≢ v.email)

-- No two users have one name or one address.
abbrev pub IsUnique : List User → Type 0
IsUnique [] = Unit
IsUnique (u ∷ us) = All (Differ u) us × IsUnique us

not_taken-Differ :
    (u : User) (us : List User)
    → any (λ (v : User). (str_eq v.username u.username) || str_eq v.email u.email) us ≡ false
    → All (λ (v : User). Differ v u) us
not_taken-Differ u [] h = tt
not_taken-Differ u (v ∷ vs) h =
    let (a, b, c) = all_false (str_eq v.username u.username) (str_eq v.email u.email) _ h in
    (
      ((λ e. differ v.username u.username a e), (λ e. differ v.email u.email b e)),
      not_taken-Differ u vs c,
    )
  where
    differ : (s t : String) → str_eq s t ≡ false → s ≢ t
    differ s t f e = let g = (str_eq_iff s t).1 e in cc

    all_false :
        (a b c : Bool)
        → (if a || b then true else c) ≡ false
        → (a ≡ false) × (b ≡ false) × (c ≡ false)
    all_false true b c h = absurd (cc)
    all_false false true c h = absurd (cc)
    all_false false false c h = (refl, refl, h)

append-IsUnique :
    (us : List User) (u : User)
    → IsUnique us
    → All (λ (v : User). Differ v u) us
    → IsUnique (us ++ (u ∷ []))
append-IsUnique [] u h d = (tt, tt)
append-IsUnique (v ∷ vs) u h d =
    (All-append (Differ v) vs (u ∷ []) h.0 (d.0, tt), append-IsUnique vs u h.1 d.1)

module _ (world : World) (state : AppState) where
  open world use {faulty, hash, after, new_id}

  -- The new user is there, and the others are those there were.
  abbrev pub HasJoined : RegisterRequest → Db → Db → Type 0
  HasJoined r before db =
      (h : String) × (hash r.password ≡ some h)
      × (db.users ≡ before.users ++ (new_user world state r h ∷ []))

  -- What a registration leaves of the users that were there before its insertion.
  abbrev pub Left :
      RegisterRequest → Db → Option (Db × Result RegisterResponse RegisterError) → Type 0
  Left r before none = after state.refresh_token_ttl_secs ≡ none
  Left r before (some (db, ok res)) = IsUnique db.users × HasJoined r before db
  Left r before (some (db, err e)) =
      IsUnique db.users × ((db.users ≡ before.users) ⊎ HasJoined r before db)

  stored_users :
      (r : RegisterRequest) (before db : Db) (i : Issued) (o : Option ℕ)
      → after state.refresh_token_ttl_secs ≡ o
      → IsUnique db.users
      → HasJoined r before db
      → Left r before (
          register_response world state (elim o [
            | none ↦ none
            | some expired_at ↦
                if faulty Query.insert_token
                then some (db, err RegisterError.server_error)
                else some
                    (with_token (token_row world state new_id i.token_hash expired_at) db, ok i)
          ]))
  unfolding register_response
  stored_users r before db i none e u j = e
  stored_users r before db i (some expired_at) e u j =
      if_cases
        (λ (o : Option (Db × Result Issued RegisterError)).
          Left r before (register_response world state o))
        (faulty Query.insert_token) (some (db, err RegisterError.server_error))
        (some (with_token (token_row world state new_id i.token_hash expired_at) db, ok i))
        (λ _. (u, inr j)) (λ _. (u, j))

  issued_users :
      (r : RegisterRequest) (before db : Db) (o : Result Issued RegisterError)
      → IsUnique db.users
      → HasJoined r before db
      → Left r before (
          register_response world state (elim o [
            | err e' ↦ some (db, err e')
            | ok issued ↦ store_token world state new_id RegisterError.server_error db issued
          ]))
  unfolding store_token register_response
  issued_users r before db (err e) u j = (u, inr j)
  issued_users r before db (ok i) u j =
      stored_users r before db i (after state.refresh_token_ttl_secs) refl u j

  insert_user-Left :
      (r : RegisterRequest) (h : String) (before : Db)
      → IsUnique before.users
      → hash r.password ≡ some h
      → Left r before (insert_user world state r h before)
  unfolding insert_user issue_and_store
  insert_user-Left r h before u k =
      let added = with_user (new_user world state r h) before in
      if_cases (Left r before)
        (faulty Query.insert_user || is_taken (new_user world state r h) before)
        (some (before, err (insertion_error world state r before)))
        (register_response world state
          (issue_and_store world state new_id RegisterError.server_error added))
        (λ _. (u, inl refl))
        (λ f.
          issued_users r before added (issue world state new_id RegisterError.server_error)
            (append-IsUnique before.users (new_user world state r h) u (
              not_taken-Differ (new_user world state r h) before.users
                (second (faulty Query.insert_user) _ f)))
            (h, k, refl))
    where
      second : (a b : Bool) → (a || b) ≡ false → b ≡ false
      second true b f = absurd (cc)
      second false b f = f

  hashed-Left :
      (r : RegisterRequest) (o : Option String) (before : Db)
      → IsUnique before.users
      → hash r.password ≡ o
      → Left r before (hashed world state r o before)
  unfolding hashed
  hashed-Left r none before u k = (u, inl refl)
  hashed-Left r (some h) before u k = insert_user-Left r h before u k

  -- What a registration may do to the users, from the database before it and that at its insertion.
  abbrev pub Registered :
      RegisterRequest → Db → Db → Option (Db × Result RegisterResponse RegisterError) → Type 0
  Registered r first later out =
      ((e : RegisterError) × (out ≡ some (first, err e))) ⊎ Left r later out

  refusal-Registered :
      (r : RegisterRequest) (others : Db → Db) (db : Db) (o : Option RegisterError)
      → IsUnique (others db).users
      → Registered r db (others db) (elim o [
        | some e ↦ some (db, err e)
        | none ↦ hashed world state r (hash r.password) (others db)
      ])
  refusal-Registered r others db (some e) u = inl (e, refl)
  refusal-Registered r others db none u = inr (hashed-Left r (hash r.password) (others db) u refl)

  -- A registration either refuses and leaves the database as it was, or works on the database as
  -- others have left it, where names and addresses are unique, and then: with a success, exactly
  -- the new user has joined; with an error, the users are as they were or the new user has joined
  -- all the same; names and addresses are unique again; and it panics only where the time of expiry
  -- cannot be computed.
  pub register-Registered :
      (r : RegisterRequest) (others : Db → Db) (db : Db)
      → IsUnique (others db).users
      → Registered r db (others db) (register world state r others db)
  unfolding register
  register-Registered r others db u = refusal-Registered r others db (refusal world state r db) u

-- ===== src/Manager/Provisioner/Waiting.antt =====
-- services/crates/judge_core_manager/src/provisioner.rs: `wait_for_socket`, and that it ends.
use oj_monorepo.Base.{
  ℕ, zero, suc, ◌+◌, ◌*◌, ◌≤◌, ◌<◌, ◌≡◌, refl, arith, ltb, ltb→lt, Bool, true, false, Bool-cases,
  ◌⊎◌, inl, inr, Option, none, some, Result, ok, err, if◌then◌else◌,
}
use oj_monorepo.Manager.Pool.{ProvisionError}

abbrev pub socket_wait_timeout_secs : ℕ
socket_wait_timeout_secs = 30

abbrev pub socket_wait_interval_ms : ℕ
socket_wait_interval_ms = 100

-- The time since the start and what `try_exists` answers, at the n-th round.
pub record Polls : Type 0 where
  pub elapsed_ms : ℕ → ℕ
  pub try_exists : ℕ → Result Bool ProvisionError

-- What one round makes of the answer.
unfoldable pub polled :
    Result Bool ProvisionError
    → Option (Result (Unit {0}) ProvisionError)
    → Option (Result (Unit {0}) ProvisionError)
polled (ok true) rest = some (ok tt)
polled (ok false) rest = rest
polled (err e) rest = some (err e)

-- The rounds that are enough, one to see that the time is over.
abbrev pub rounds : ℕ
rounds = 301

module _ (polls : Polls) where
  open polls use {elapsed_ms, try_exists}

  -- `wait_for_socket` from the n-th round on; `none` means that it goes on after the rounds given.
  unfoldable pub wait_for_socket : ℕ → ℕ → Option (Result (Unit {0}) ProvisionError)
  unfolding polled
  wait_for_socket zero n = none
  wait_for_socket (suc more) n =
      let rest = wait_for_socket more (suc n) in
      if ltb (elapsed_ms n) (socket_wait_timeout_secs * 1000)
      then polled (try_exists n) rest
      else some (err (ProvisionError.socket_timeout socket_wait_timeout_secs))

  -- `sleep` waits at least as long as it is told to.
  abbrev pub Sleeps : Type 0
  Sleeps = (n : ℕ) → elapsed_ms n + socket_wait_interval_ms ≤ elapsed_ms (suc n)

  -- No round before the n-th has found the socket, and each was in time.
  abbrev pub Awaited : ℕ → Type 0
  Awaited zero = Unit
  Awaited (suc n) =
      (elapsed_ms n < socket_wait_timeout_secs * 1000) × (try_exists n ≡ ok false) × Awaited n

  -- How the loop can end, and in which round.
  abbrev pub EndedIn : Result (Unit {0}) ProvisionError → ℕ → Type 0
  EndedIn (ok u) k = (elapsed_ms k < socket_wait_timeout_secs * 1000) × (try_exists k ≡ ok true)
  EndedIn (err e) k =
      ((socket_wait_timeout_secs * 1000 ≤ elapsed_ms k)
        × (e ≡ ProvisionError.socket_timeout socket_wait_timeout_secs))
      ⊎ ((elapsed_ms k < socket_wait_timeout_secs * 1000) × (try_exists k ≡ err e))

  abbrev pub Ends : ℕ → Option (Result (Unit {0}) ProvisionError) → Type 0
  Ends limit none = ⊥
  Ends limit (some r) = (k : ℕ) × (k < limit) × Awaited k × EndedIn r k

  elapsed-le : Sleeps → (n : ℕ) → n * socket_wait_interval_ms ≤ elapsed_ms n
  elapsed-le s zero = omega arith
  elapsed-le s (suc n) = omega (arith, elapsed-le s n, s n)

  polled-Ends :
      (limit n : ℕ) (r : Result Bool ProvisionError)
      (rest : Option (Result (Unit {0}) ProvisionError))
      → n < limit
      → elapsed_ms n < socket_wait_timeout_secs * 1000
      → Awaited n
      → try_exists n ≡ r
      → (r ≡ ok false → Ends limit rest)
      → Ends limit (polled r rest)
  unfolding polled
  polled-Ends limit n (ok true) rest h t w e f = (n, h, w, (t, e))
  polled-Ends limit n (ok false) rest h t w e f = f refl
  polled-Ends limit n (err x) rest h t w e f = (n, h, w, inr (t, e))

  wait-Ends :
      (more n limit : ℕ)
      → n + more ≡ limit
      → 300 < limit
      → Sleeps
      → Awaited n
      → n * socket_wait_interval_ms < suc (socket_wait_timeout_secs * 1000)
      → Ends limit (wait_for_socket more n)
  unfolding wait_for_socket
  wait-Ends zero n limit e l s w b = absurd (omega arith)
  wait-Ends (suc more) n limit e l s w b =
      elim (Bool-cases (ltb (elapsed_ms n) (socket_wait_timeout_secs * 1000))) [
        | inl t ↦
            let early = ltb→lt _ _ t in
            rw t (
              polled-Ends limit n (try_exists n) (wait_for_socket more (suc n)) (omega arith) early
                w refl
                (λ q.
                  wait-Ends more (suc n) limit (omega arith) l s (early, q, w)
                    (omega (arith, elapsed-le s n))))
        | inr t ↦ rw t (n, omega arith, w, inl (ground arith, refl))
      ]

  -- Where `sleep` waits as long as it is told to, the wait for a socket ends within 301 rounds: in the
  -- first round that finds the socket while the time is not over, with success; with the error of the
  -- first poll that fails; or, if no round in time has found it, with the error of a timeout, and only
  -- when 30 seconds have passed.
  pub wait_for_socket-Ends : Sleeps → Ends rounds (wait_for_socket rounds 0)
  wait_for_socket-Ends s = wait-Ends rounds 0 rounds (omega arith) (omega arith) s tt (omega arith)

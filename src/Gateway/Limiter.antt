-- ===== src/Gateway/Limiter.antt =====
-- services/crates/gateway/src/rate_limiter/ and layers/rate_limit.rs: whose requests are counted, and
-- the limiters in memory. `governor` and the eviction of the cache are parameters.
pub mod Limits
use Prim.Native.String.{find}
use oj_monorepo.Base.{
  ℕ, zero, suc, ◌+◌, ◌-◌, ◌%◌, ◌==◌, String, str_eq, str_append, len, slice, List, [], ◌∷◌, Bool,
  true, false, Option, none, some, ◌||◌, if◌then◌else◌, u32_mod,
}
use oj_monorepo.Gateway.Config.{RouteConfig}
use oj_monorepo.Shared.Headers.{HeaderValue, Headers, get}
use oj_monorepo.Gateway.Requests.{Request}

-- `trim` on the texts that `to_str` gives, whose only white space is blanks and tabs.
abbrev is_blank : String → Bool
is_blank c = str_eq c " " || str_eq c "\t"

trim_start : ℕ → String → String
trim_start zero s = s
trim_start (suc n) s =
    let rest = trim_start n (slice s 1 (len s)) in if is_blank (slice s 0 1) then rest else s

trim_end : ℕ → String → String
trim_end zero s = s
trim_end (suc n) s =
    let rest = trim_end n (slice s 0 (len s - 1)) in
    if is_blank (slice s (len s - 1) (len s)) then rest else s

-- `split(',').next()`: `find` answers more than the length where there is no comma.
unfoldable pub first_listed : String → String
unfolding trim_start trim_end
first_listed val = let s = trim_start (len val) (slice val 0 (find val ",")) in trim_end (len s) s

forwarded_ip : Option HeaderValue → Option String → Option String
unfolding first_listed
forwarded_ip (some (HeaderValue.text val)) peer_addr =
    if str_eq (first_listed val) "" then peer_addr else some (first_listed val)
forwarded_ip (some HeaderValue.opaque) peer_addr = peer_addr
forwarded_ip none peer_addr = peer_addr

-- `client_ip`: an address is its printed form.
unfoldable pub client_ip : Headers → Option String → Option String
unfolding forwarded_ip
client_ip headers peer_addr = forwarded_ip (get "x-forwarded-for" headers) peer_addr

-- The crate `governor`: a limiter for a quota, and its answer at a time.
pub record Governor : Type 1 where
  pub Limiter : Type 0
  pub direct : ℕ → ℕ → Limiter
  pub check_at : ℕ → Limiter → Bool × Limiter

-- The cache of limiters by their keys, the latest first; `alive` says which of them the cache has
-- not yet evicted.
module _ (governor : Governor) (alive : String → Bool) (now : ℕ) where
  open governor use {Limiter, direct, check_at}

  abbrev pub Limiters : Type 0
  Limiters = List (String × Limiter)

  find_limiter : String → Limiters → Option Limiter
  find_limiter key [] = none
  find_limiter key ((k, l) ∷ rest) = if str_eq k key then some l else find_limiter key rest

  unfoldable pub cached : String → Limiters → Option Limiter
  unfolding find_limiter
  cached key limiters = if alive key then find_limiter key limiters else none

  -- `NonZeroU32::new(..).expect(..)` on both numbers; `none` is the panic.
  unfoldable pub new_limiter : ℕ → ℕ → Option Limiter
  new_limiter per_sec burst =
      if per_sec % u32_mod == 0 || burst % u32_mod == 0
      then none
      else some (direct (per_sec % u32_mod) (burst % u32_mod))

  unfoldable pub limiter_for : String → ℕ → ℕ → Limiters → Option Limiter
  unfolding cached new_limiter
  limiter_for key per_sec burst limiters = elim (cached key limiters) [
    | some l ↦ some l
    | none ↦ new_limiter per_sec burst
  ]

  unfoldable pub check : String → ℕ → ℕ → Limiters → Option (Bool × Limiters)
  unfolding limiter_for
  check key per_sec burst limiters = elim (limiter_for key per_sec burst limiters) [
    | none ↦ none
    | some l ↦ some ((check_at now l).0, (key, (check_at now l).1) ∷ limiters)
  ]

  abbrev pub limit_key : RouteConfig → String → String
  limit_key route client_ip = str_append (str_append route.path ":") client_ip

  unfoldable pub limited : RouteConfig → Limiters → Option String → Option (Bool × Limiters)
  unfolding check
  limited route limiters none = some (true, limiters)
  limited route limiters (some ip) =
      check (limit_key route ip) route.rate_limit.per_sec route.rate_limit.burst limiters

  -- `RateLimitService`: whether the request goes on.
  unfoldable pub rate_limit : RouteConfig → Request → Limiters → Option (Bool × Limiters)
  unfolding limited
  rate_limit route req limiters = limited route limiters (client_ip req.headers req.peer_addr)

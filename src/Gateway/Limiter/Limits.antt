-- ===== src/Gateway/Limiter/Limits.antt =====
-- The limits that the limiter takes without a panic.
use oj_monorepo.Base.{
  ℕ, ◌%◌, ◌<◌, ◌≡◌, refl, ap, String, ◌∷◌, Bool, true, Option, none, some, arith, u32_mod,
}
use oj_monorepo.Gateway.Config.{RouteConfig}
use oj_monorepo.Gateway.Requests.{Request}
use oj_monorepo.Gateway.Limiter.{
  Governor, Limiters, new_limiter, cached, limiter_for, check, limited, rate_limit, client_ip,
  limit_key,
}

-- The numbers of a route's limit that the limiter can take.
abbrev pub HasLimits : RouteConfig → Type 0
HasLimits r =
    (0 < r.rate_limit.per_sec)
    × (r.rate_limit.per_sec < u32_mod)
    × (0 < r.rate_limit.burst)
    × (r.rate_limit.burst < u32_mod)

module _ (governor : Governor) (alive : String → Bool) (now : ℕ) where
  new_limiter-some :
      (n m : ℕ)
      → 0 < n
      → n < u32_mod
      → 0 < m
      → m < u32_mod
      → (l : governor.Limiter) × (new_limiter governor alive now n m ≡ some l)
  unfolding new_limiter
  new_limiter-some n m a b c d = (governor.direct (n % u32_mod) (m % u32_mod), ground arith)

  limiter-some :
      (o : Option governor.Limiter) (n m : ℕ)
      → 0 < n
      → n < u32_mod
      → 0 < m
      → m < u32_mod
      → (l : governor.Limiter) × ((elim o [
        | some l ↦ some l
        | none ↦ new_limiter governor alive now n m
      ])
          ≡ some l)
  limiter-some none n m a b c d = new_limiter-some n m a b c d
  limiter-some (some l) n m a b c d = (l, refl)

  check-some :
      (key : String) (n m : ℕ) (limiters : Limiters governor alive now)
      → 0 < n
      → n < u32_mod
      → 0 < m
      → m < u32_mod
      → (out : Bool × Limiters governor alive now) × (check governor alive now key n m limiters
          ≡ some out)
  unfolding check limiter_for
  check-some key n m limiters a b c d =
      let (l, e) = limiter-some (cached governor alive now key limiters) n m a b c d in
      (
        ((governor.check_at now l).0, (key, (governor.check_at now l).1) ∷ limiters),
        ap
            (λ (o : Option governor.Limiter). elim o [
              | none ↦ none
              | some l ↦
                  some ((governor.check_at now l).0, (key, (governor.check_at now l).1) ∷ limiters)
            ])
            e,
      )

  limited-some :
      (r : RouteConfig) (limiters : Limiters governor alive now) (ip : Option String)
      → HasLimits r
      → (out : Bool × Limiters governor alive now) × (limited governor alive now r limiters ip
          ≡ some out)
  unfolding limited
  limited-some r limiters none h = ((true, limiters), refl)
  limited-some r limiters (some ip) (a, b, c, d) =
      check-some (limit_key governor alive now r ip) r.rate_limit.per_sec r.rate_limit.burst
        limiters a b c d

  pub rate_limit-some :
      (r : RouteConfig) (req : Request) (limiters : Limiters governor alive now)
      → HasLimits r
      → (out : Bool × Limiters governor alive now) × (rate_limit governor alive now r req limiters
          ≡ some out)
  unfolding rate_limit
  rate_limit-some r req limiters h = limited-some r limiters (client_ip req.headers req.peer_addr) h

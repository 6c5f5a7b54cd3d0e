-- ===== src/Gateway/Layers/Passage.antt =====
-- Which requests get through the pipeline, and that it does not panic.
use oj_monorepo.Base.{
  ℕ, ◌≡◌, ◌≢◌, refl, ◌∙◌, ap, ◌++◌, String, str_eq, str_eq_iff, List, [], ◌∷◌, Bool, true, false,
  Option, none, some, Result, ok, err, and_then-ok, if_cases, subst, All,
}
use oj_monorepo.Auth.Token.{Jwt}
use oj_monorepo.Gateway.Config.{RouteConfig}
use oj_monorepo.Gateway.Router.{match_route}
use oj_monorepo.Gateway.Router.Best.{IsBest, match_route-IsBest}
use oj_monorepo.Gateway.Limiter.{Governor, Limiters, rate_limit}
use oj_monorepo.Gateway.Limiter.Limits.{HasLimits, rate_limit-some}
use oj_monorepo.Gateway.Jwks.{JwksCache}
use oj_monorepo.Gateway.Requests.{GatewayError, Request, Response}
use oj_monorepo.Gateway.Layers.{
  Uri, Upstream, authenticate, proxy, authenticated, passed, routed, pipeline,
}

pair-inj :
    {A B : Type 0} (a c : A) (b d : B)
    → Path (Option (A × B)) (some (a, b)) (some (c, d))
    → (a ≡ c) × (b ≡ d)
pair-inj {A} {B} a c b d h =
    let q : Path (A × B) (a, b) (c, d) = cc in
    (ap (λ (p : A × B). p.0) q, ap (λ (p : A × B). p.1) q)

All-middle :
    (P : RouteConfig → Type 0) (front : List RouteConfig) (r : RouteConfig)
    (back : List RouteConfig)
    → All P (front ++ (r ∷ back))
    → P r
All-middle P [] r back h = h.0
All-middle P (x ∷ xs) r back h = All-middle P xs r back h.1

module _ (parse : String → Result Uri String) (is_header : String → Bool)
    (client : Uri → Request → Upstream) (governor : Governor) (alive : String → Bool) (now : ℕ)
    (jwt : Jwt) (cache : Option JwksCache) (routes : List RouteConfig) where
  abbrev pub Passed : Type 0
  Passed = Result Response GatewayError × Limiters governor alive now

  abbrev pub through : Request → Limiters governor alive now → Option Passed
  through = pipeline parse is_header client governor alive now jwt cache routes

  -- What a request has gone through that the upstream has answered.
  abbrev pub IsPassage :
      Request → Limiters governor alive now → Response → Limiters governor alive now → Type 0
  IsPassage req before res after =
      (route : RouteConfig) × (match_route routes req.path ≡ some route)
      × (rate_limit governor alive now route req before ≡ some (true, after))
      × ((out : Request) × (authenticate jwt cache route.auth req ≡ ok out)
          × (proxy parse is_header client route out ≡ ok res))

  passed-ok :
      (route : RouteConfig) (req : Request) (o : Option (Bool × Limiters governor alive now))
      (res : Response) (after : Limiters governor alive now)
      → passed parse is_header client governor alive now jwt cache routes route req o
        ≡ some (ok res, after)
      → (o ≡ some (true, after))
        × ((out : Request) × (authenticate jwt cache route.auth req ≡ ok out)
            × (proxy parse is_header client route out ≡ ok res))
  unfolding passed authenticated
  passed-ok route req none res after h = absurd (cc)
  passed-ok route req (some (false, ls)) res after h =
      let (e, f) = pair-inj _ _ ls after h in absurd (cc)
  passed-ok route req (some (true, ls)) res after h =
      let (e, f) = pair-inj _ _ ls after h in
      (
        ap (λ l. some (true, l)) f,
        and_then-ok (authenticate jwt cache route.auth req) (proxy parse is_header client route) res
            e,
      )

  routed-ok :
      (o : Option RouteConfig) (req : Request) (before : Limiters governor alive now)
      (res : Response) (after : Limiters governor alive now)
      → match_route routes req.path ≡ o
      → Path
          (Option Passed)
          (elim o [
            | none ↦ some (err GatewayError.route_not_found, before)
            | some route ↦
                passed parse is_header client governor alive now jwt cache routes route req
                  (rate_limit governor alive now route req before)
          ])
          (some (ok res, after))
      → IsPassage req before res after
  routed-ok none req before res after e h = let (f, g) = pair-inj _ _ before after h in absurd (cc)
  routed-ok (some route) req before res after e h =
      let (f, g) =
        passed-ok route req (rate_limit governor alive now route req before) res after h in
      (route, e, f, g)

  passed-some :
      (route : RouteConfig) (req : Request) (out : Bool × Limiters governor alive now)
      → (q : Passed) × (passed parse is_header client governor alive now jwt cache routes route req
            (some out)
          ≡ some q)
  unfolding passed
  passed-some route req (false, ls) = ((err GatewayError.rate_limited, ls), refl)
  passed-some route req (true, ls) = (
    (authenticated parse is_header client governor alive now jwt cache routes route req, ls),
    refl,
  )

  routed-some :
      (o : Option RouteConfig) (req : Request) (before : Limiters governor alive now)
      → All HasLimits routes
      → IsBest req.path routes o
      → (q : Passed) × Path
          (Option Passed)
          (elim o [
            | none ↦ some (err GatewayError.route_not_found, before)
            | some route ↦
                passed parse is_header client governor alive now jwt cache routes route req
                  (rate_limit governor alive now route req before)
          ])
          (some q)
  routed-some none req before h b = ((err GatewayError.route_not_found, before), refl)
  routed-some (some route) req before h (front, back, e, m, b, a) =
      let (out, f) =
        rate_limit-some governor alive now route req before
          (All-middle HasLimits front route back (subst (All HasLimits) e h)) in
      let (q, g) = passed-some route req out in
      (q, ap (passed parse is_header client governor alive now jwt cache routes route req) f ∙ g)

  -- A request that is not for the gateway's own health gets a response that is not an error only
  -- by the route that `match_route` takes, with the consent of that route's limiter, and
  -- authenticated as the route asks; the response is then what the proxy makes of the upstream's.
  pub pipeline-IsPassage :
      (req : Request) (before after : Limiters governor alive now) (res : Response)
      → req.path ≢ "/healthz"
      → through req before ≡ some (ok res, after)
      → IsPassage req before res after
  unfolding pipeline routed
  pipeline-IsPassage req before after res n h =
      if_cases (λ (o : Option Passed). o ≡ some (ok res, after) → IsPassage req before res after)
        (str_eq req.path "/healthz") _
        (routed parse is_header client governor alive now jwt cache routes req before)
        (λ e k. absurd (n ((str_eq_iff req.path "/healthz").0 e)))
        (λ e k. routed-ok (match_route routes req.path) req before res after refl k) h

  -- Where every route has limits that a `u32` holds and that are not zero, no request makes the
  -- pipeline panic.
  pub pipeline-some :
      (req : Request) (limiters : Limiters governor alive now)
      → All HasLimits routes
      → (out : Passed) × (through req limiters ≡ some out)
  unfolding pipeline routed
  pipeline-some req limiters h =
      if_cases (λ (o : Option Passed). (out : Passed) × (o ≡ some out)) (str_eq req.path "/healthz")
        _ (routed parse is_header client governor alive now jwt cache routes req limiters)
        (λ e. (_, refl))
        (λ e.
          routed-some (match_route routes req.path) req limiters h
            (match_route-IsBest routes req.path))

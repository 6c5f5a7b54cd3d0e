-- ===== src/Gateway/Config/Validity.antt =====
-- What a validated configuration satisfies.
use oj_monorepo.Base.{
  ℕ, suc, ◌<◌, ◌≡◌, ◌≢◌, refl, ◌↔◌, ◌==◌, String, str_eq, str_eq_iff, List, [], ◌∷◌, ◌++◌, Bool,
  true, false, ok, All, arith, Bool-cases, inl, inr,
}
use oj_monorepo.Gateway.Config.{
  RouteConfig, GatewayConfig, Field, FieldError, check, route_errors, routes_errors, config_errors,
  verdict_on, validate,
}

abbrev pub IsValidRoute : RouteConfig → Type 0
IsValidRoute r =
    (r.path ≢ "") × (r.upstream ≢ "") × (0 < r.rate_limit.per_sec) × (0 < r.rate_limit.burst)

abbrev pub IsValid : GatewayConfig → Type 0
IsValid c =
    (c.addr ≢ "")
    × (c.jwks_url ≢ "")
    × (0 < c.upstream_timeout_secs)
    × (0 < c.max_connections)
    × (0 < c.drain_timeout_secs)
    × All IsValidRoute c.routes

append-nil_iff : (xs ys : List FieldError) → (xs ++ ys ≡ []) ↔ ((xs ≡ []) × (ys ≡ []))
append-nil_iff [] ys = ((λ h. (refl, h)), (λ h. h.1))
append-nil_iff (x ∷ xs) ys = ((λ h. absurd (cc)), (λ h. absurd (let k = h.0 in cc)))

check-nil_iff : (b : Bool) (f : Field) (m : String) → (check b f m ≡ []) ↔ (b ≡ false)
unfolding check
check-nil_iff true f m = ((λ h. absurd (cc)), (λ h. absurd (cc)))
check-nil_iff false f m = ((λ h. refl), (λ h. refl))

trans_iff : {A B C : Type 0} → A ↔ B → B ↔ C → A ↔ C
trans_iff (f, g) (h, k) = ((λ a. h (f a)), (λ c. g (k c)))

check-not_empty : (s : String) (f : Field) (m : String) → (check (str_eq s "") f m ≡ []) ↔ (s ≢ "")
check-not_empty s f m = trans_iff (check-nil_iff (str_eq s "") f m) (
  (λ h e. let k = (str_eq_iff s "").1 e in cc),
  λ h. elim (Bool-cases (str_eq s "")) [ inl e ↦ absurd (h ((str_eq_iff s "").0 e)) | inr e ↦ e ],
)

check-positive : (n : ℕ) (f : Field) (m : String) → (check (n == 0) f m ≡ []) ↔ (0 < n)
check-positive n f m =
    trans_iff (check-nil_iff (n == 0) f m) ((λ h. ground arith), (λ h. ground arith))

both :
    (xs ys : List FieldError) {B D : Type 0}
    → (xs ≡ []) ↔ B
    → (ys ≡ []) ↔ D
    → (xs ++ ys ≡ []) ↔ (B × D)
both xs ys (f, g) (h, k) = (
  (λ e. let (p, q) = (append-nil_iff xs ys).0 e in (f p, h q)),
  λ (b, d). (append-nil_iff xs ys).1 (g b, k d),
)

route_errors-nil_iff : (i : ℕ) (r : RouteConfig) → (route_errors i r ≡ []) ↔ IsValidRoute r
unfolding route_errors
route_errors-nil_iff i r = flat_four (
    both _ _ (check-not_empty r.path _ _) (
      both _ _ (check-not_empty r.upstream _ _) (
        both _ _ (check-positive r.rate_limit.per_sec _ _)
          (check-positive r.rate_limit.burst _ _))))
  where
    flat_four : {L A B C D : Type 0} → L ↔ (A × (B × (C × D))) → L ↔ (A × B × C × D)
    flat_four (f, g) =
        ((λ l. let (a, (b, (c, d))) = f l in (a, b, c, d)), λ (a, b, c, d). g (a, (b, (c, d))))

routes_errors-nil_iff :
    (i : ℕ) (rs : List RouteConfig) → (routes_errors i rs ≡ []) ↔ All IsValidRoute rs
unfolding routes_errors
routes_errors-nil_iff i [] = ((λ h. tt), (λ h. refl))
routes_errors-nil_iff i (r ∷ rs) =
    both (route_errors i r) (routes_errors (suc i) rs) (route_errors-nil_iff i r)
      (routes_errors-nil_iff (suc i) rs)

config_errors-nil_iff : (c : GatewayConfig) → (config_errors c ≡ []) ↔ IsValid c
unfolding config_errors
config_errors-nil_iff c = flat_six (
    both _ _ (check-not_empty c.addr _ _) (
      both _ _ (check-not_empty c.jwks_url _ _) (
        both _ _ (check-positive c.upstream_timeout_secs _ _) (
          both _ _ (check-positive c.max_connections _ _) (
            both _ _ (check-positive c.drain_timeout_secs _ _)
              (routes_errors-nil_iff 0 c.routes))))))
  where
    flat_six :
        {L A B C D E F : Type 0} → L ↔ (A × (B × (C × (D × (E × F))))) → L ↔ (A × B × C × D × E × F)
    flat_six (f, g) = (
      (λ l. let (a, (b, (c, (d, (e, h))))) = f l in (a, b, c, d, e, h)),
      λ (a, b, c, d, e, h). g (a, (b, (c, (d, (e, h))))),
    )

verdict_on-ok_iff : (es : List FieldError) → (verdict_on es ≡ ok tt) ↔ (es ≡ [])
unfolding verdict_on
verdict_on-ok_iff [] = ((λ h. refl), (λ h. refl))
verdict_on-ok_iff (e ∷ es) = ((λ h. absurd (cc)), (λ h. absurd (cc)))

-- Validation passes exactly the configurations in which the address and the JWKS address are
-- given, the two durations and the number of connections are positive, and every route has a path,
-- an upstream and positive limits.
pub validate-ok_iff : (c : GatewayConfig) → (validate c ≡ ok tt) ↔ IsValid c
unfolding validate
validate-ok_iff c = trans_iff (verdict_on-ok_iff (config_errors c)) (config_errors-nil_iff c)

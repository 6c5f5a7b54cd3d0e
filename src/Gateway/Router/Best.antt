-- ===== src/Gateway/Router/Best.antt =====
-- The route that is chosen.
use oj_monorepo.Base.{
  ℕ, ◌+◌, ◌*◌, ◌≤◌, ◌<◌, ◌≡◌, refl, sym, ◌∙◌, ap, Bool, true, false, String, len, List, [], ◌∷◌,
  ◌++◌, Option, none, some, if◌then◌else◌, if_cases, All, All-append, All-map, arith, subst,
}
use oj_monorepo.Gateway.Config.{RouteConfig}
use oj_monorepo.Gateway.Router.{matches, is_exact, key, key_gt, better, best_of, match_route}

-- The order of the routes: the longer path, and of the same length the exact one.
abbrev pub rank : RouteConfig → ℕ
rank route = 2 * len route.path + (if is_exact route.match_type then 1 else 0)

-- The order of tuples is the order of their ranks.
key_gt-lt :
    (n m : ℕ) (x y : Bool)
    → key_gt (n, x) (m, y) ≡ true
    → 2 * m + (if y then 1 else 0) < 2 * n + (if x then 1 else 0)
key_gt-lt n m true true h = ground arith
key_gt-lt n m true false h = ground arith
key_gt-lt n m false true h = ground arith
key_gt-lt n m false false h = ground arith

not-key_gt-le :
    (n m : ℕ) (x y : Bool)
    → key_gt (n, x) (m, y) ≡ false
    → 2 * n + (if x then 1 else 0) ≤ 2 * m + (if y then 1 else 0)
not-key_gt-le n m true true h = ground arith
not-key_gt-le n m true false h = ground arith
not-key_gt-le n m false true h = ground arith
not-key_gt-le n m false false h = ground arith

append_one :
    (routes : List RouteConfig) (r : RouteConfig) (rest : List RouteConfig)
    → (routes ++ (r ∷ [])) ++ rest ≡ routes ++ (r ∷ rest)
append_one [] r rest = refl
append_one (x ∷ xs) r rest = ap (λ ys. x ∷ ys) (append_one xs r rest)

append_assoc_cons :
    (before : List RouteConfig) (best : RouteConfig) (after rest : List RouteConfig)
    → (before ++ (best ∷ after)) ++ rest ≡ before ++ (best ∷ (after ++ rest))
append_assoc_cons [] best after rest = refl
append_assoc_cons (x ∷ xs) best after rest =
    ap (λ ys. x ∷ ys) (append_assoc_cons xs best after rest)

append-nil-list : (routes : List RouteConfig) → routes ++ [] ≡ routes
append-nil-list [] = refl
append-nil-list (x ∷ xs) = ap (λ ys. x ∷ ys) (append-nil-list xs)

module _ (path : String) where
  abbrev pub IsBelowRank : RouteConfig → RouteConfig → Type 0
  IsBelowRank best route = matches route path ≡ true → rank route < rank best

  abbrev pub IsUpToRank : RouteConfig → RouteConfig → Type 0
  IsUpToRank best route = matches route path ≡ true → rank route ≤ rank best

  -- The first of the matching routes of the highest rank, or none that matches.
  abbrev pub IsBest : List RouteConfig → Option RouteConfig → Type 0
  IsBest routes none = All (λ (r : RouteConfig). matches r path ≡ false) routes
  IsBest routes (some best) =
      (before : List RouteConfig) × (after : List RouteConfig) × (routes ≡ before ++ (best ∷ after))
      × (matches best path ≡ true)
      × All (IsBelowRank best) before
      × All (IsUpToRank best) after

  better-IsBest :
      (routes : List RouteConfig) (best : Option RouteConfig) (r : RouteConfig)
      → IsBest routes best
      → IsBest (routes ++ (r ∷ [])) (better path best r)
  unfolding better
  better-IsBest routes none r h =
      if_cases (IsBest (routes ++ (r ∷ []))) (matches r path) (some r) none
        (λ e. (
          routes,
          [],
          refl,
          e,
          All-map (λ (x : RouteConfig). matches x path ≡ false) (IsBelowRank r)
              (λ (x : RouteConfig) k m. absurd (cc)) routes h,
          tt,
        ))
        (λ e. All-append (λ (x : RouteConfig). matches x path ≡ false) routes (r ∷ []) h (e, tt))
  better-IsBest routes (some best) r (before, after, q, m, b, a) =
      if_cases (IsBest (routes ++ (r ∷ []))) (matches r path)
        (if key_gt (key r) (key best) then some r else some best) (some best)
        (λ e.
          if_cases (IsBest (routes ++ (r ∷ []))) (key_gt (key r) (key best)) (some r) (some best)
            (λ k. overtaken e (key_gt-lt _ _ _ _ k)) (λ k. kept (λ _. not-key_gt-le _ _ _ _ k)))
        (λ e. kept (λ f. absurd (cc)))
    where
      kept : IsUpToRank best r → IsBest (routes ++ (r ∷ [])) (some best)
      kept u = (
        before,
        after ++ (r ∷ []),
        ap (λ rs. rs ++ (r ∷ [])) q ∙ append_assoc_cons before best after (r ∷ []),
        m,
        b,
        All-append (IsUpToRank best) after (r ∷ []) a (u, tt),
      )

      overtaken : matches r path ≡ true → rank best < rank r → IsBest (routes ++ (r ∷ [])) (some r)
      overtaken e l = (
        routes,
        [],
        refl,
        e,
        subst (All (IsBelowRank r)) (sym q) (
            All-append (IsBelowRank r) before (best ∷ after)
              (All-map (IsBelowRank best) (IsBelowRank r)
                (λ (x : RouteConfig) k f. omega (arith, l, k f)) before b)
              (
                (λ f. l),
                All-map (IsUpToRank best) (IsBelowRank r)
                    (λ (x : RouteConfig) k f. omega (arith, l, k f)) after a,
              )),
        tt,
      )

  best_of-IsBest :
      (routes : List RouteConfig) (best : Option RouteConfig) (rest : List RouteConfig)
      → IsBest routes best
      → IsBest (routes ++ rest) (best_of path best rest)
  unfolding best_of
  best_of-IsBest routes best [] h = subst (λ rs. IsBest rs best) (sym (append-nil-list routes)) h
  best_of-IsBest routes best (r ∷ rest) h =
      subst (λ rs. IsBest rs (best_of path (better path best r) rest)) (append_one routes r rest)
        (best_of-IsBest (routes ++ (r ∷ [])) (better path best r) rest
          (better-IsBest routes best r h))

-- A request takes the first of the matching routes of the highest rank: the longest path, and of
-- two equally long ones the exact one. No route is taken only where none matches.
pub match_route-IsBest :
    (routes : List RouteConfig) (path : String) → IsBest path routes (match_route routes path)
unfolding match_route
match_route-IsBest routes path = best_of-IsBest path [] none routes tt

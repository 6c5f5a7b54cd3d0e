-- ===== src/Agent/Verdict/Collecting.antt =====
-- `handle` where all verdicts are collected.
use oj_monorepo.Base.{
  ℕ, zero, suc, ◌+◌, ◌<◌, ◌≡◌, ◌≢◌, refl, sym, ◌∙◌, ap, inl, inr, ◌==◌, false, List, [], ◌∷◌,
  Option, none, some, Result, ok, err, length, get_elem?, set, replicate, arith, Bool-cases, ==_iff,
  subst,
}
use oj_monorepo.Shared.Models.{Case, CaseVerdict, ResourcesLimit, VerdictTaskResult}
use oj_monorepo.Agent.Verdict.{
  Judge, Ended, Running, Progress, Handled, joined, unwrap_all, conclude, cleaned, final_result,
  judge_cases,
}
use oj_monorepo.Agent.Verdict.Joins.{Joined, Looped}
use oj_monorepo.Agent.Verdict.Batches.{IsSpawned, run_batches-Ends}
use oj_monorepo.Agent.Verdict.Answers.{CleanedUp, EndsAs, HasVerdict, IsCollection}

length-set : {A : Type 0} (xs : List A) (i : ℕ) (v : A) → length (set xs i v) ≡ length xs
length-set [] i v = refl
length-set (x ∷ xs) zero v = refl
length-set (x ∷ xs) (suc i) v = ap suc (length-set xs i v)

get-set :
    {A : Type 0} (xs : List A) (i : ℕ) (v : A) → i < length xs → get_elem? (set xs i v) i ≡ some v
get-set [] i v h = absurd (omega (arith, h))
get-set (x ∷ xs) zero v h = refl
get-set (x ∷ xs) (suc i) v h = get-set xs i v (omega (arith, h))

get-set-other :
    {A : Type 0} (xs : List A) (i j : ℕ) (v : A) → i ≢ j → get_elem? (set xs i v) j ≡ get_elem? xs j
get-set-other [] i j v h = refl
get-set-other (x ∷ xs) zero zero v h = absurd (h refl)
get-set-other (x ∷ xs) zero (suc j) v h = refl
get-set-other (x ∷ xs) (suc i) zero v h = refl
get-set-other (x ∷ xs) (suc i) (suc j) v h = get-set-other xs i j v (λ e. h (ap suc e))

length-replicate : {A : Type 0} (n : ℕ) (a : A) → length (replicate n a) ≡ n
length-replicate zero a = refl
length-replicate (suc n) a = ap suc (length-replicate n a)

below-length : {A : Type 0} (xs : List A) (i : ℕ) (x : A) → get_elem? xs i ≡ some x → i < length xs
below-length [] i x h = absurd (cc)
below-length (y ∷ ys) zero x h = omega arith
below-length (y ∷ ys) (suc i) x h = omega (arith, below-length ys i x h)

-- Where every entry is there, `unwrap` does not panic and keeps the entries.
unwrap_all-some :
    (vs : List (Option CaseVerdict))
    → ((i : ℕ) → i < length vs → (v : CaseVerdict) × (get_elem? vs i ≡ some (some v)))
    → (ws : List CaseVerdict) × (unwrap_all vs ≡ some ws)
      × (length ws ≡ length vs)
      × ((i : ℕ) (v : CaseVerdict) → get_elem? vs i ≡ some (some v) → get_elem? ws i ≡ some v)
unfolding unwrap_all
unwrap_all-some [] h = ([], refl, refl, λ i v e. absurd (cc))
unwrap_all-some (none ∷ vs) h = absurd (let (v, e) = h 0 (omega arith) in cc)
unwrap_all-some (some v ∷ vs) h =
    let (ws, e, l, g) = unwrap_all-some vs (λ i k. h (suc i) (omega (arith, k))) in
    (v ∷ ws, rw (e, unwrap_all) refl, ap suc l, λ i w f. kept v vs ws g i w f)
  where
    kept :
        (v : CaseVerdict) (vs : List (Option CaseVerdict)) (ws : List CaseVerdict)
        → ((i : ℕ) (w : CaseVerdict) → get_elem? vs i ≡ some (some w) → get_elem? ws i ≡ some w)
        → (i : ℕ) (w : CaseVerdict) → get_elem? (some v ∷ vs) i ≡ some (some w)
        → get_elem? (v ∷ ws) i ≡ some w
    kept v vs ws g zero w f = cc
    kept v vs ws g (suc i) w f = g i w f

module _ (picks : ℕ → ℕ) (judge : Judge) (limits : ResourcesLimit) (ids : ℕ → ℕ)
    (all : List Case) where
  abbrev Inv : Progress → Type 0
  Inv p = (length p.collected ≡ length all) × (p.cleanups ≡ 0)

  abbrev IsDone : Progress → ℕ → Type 0
  IsDone p i =
      (v : CaseVerdict) × HasVerdict judge limits ids all i v
      × (get_elem? p.collected i ≡ some (some v))

  joined-Joined :
      (r : Running) (p : Progress) (e : Ended)
      → EndsAs judge limits ids all r.index e
      → Inv p
      → Joined picks false
          (IsSpawned picks false judge limits ids all)
          Inv
          IsDone
          (CleanedUp (IsCollection judge limits ids all))
          r
          p
          (joined false r.index e (record p { joins = suc p.joins }))
  unfolding joined
  joined-Joined r p (Ended.returned (ok v)) s h =
      let p' = record p { joins = suc p.joins; collected = set p.collected r.index (some v) } in
      let fresh : IsDone p' r.index = (
        v,
        s,
        get-set p.collected r.index (some v)
            (subst (λ n. r.index < n) (sym h.0) (below-length all r.index s.0 s.1)),
      ) in
      (
        (length-set p.collected r.index (some v) ∙ h.0, h.1),
        fresh,
        λ i d. elim (Bool-cases (r.index == i)) [
          | inl e ↦ subst (IsDone p') ((==_iff r.index i).0 e) fresh
          | inr e ↦
              (d.0, d.1, get-set-other p.collected r.index i (some v) (λ k. ground arith) ∙ d.2)
        ],
      )
  joined-Joined r p (Ended.returned (err m)) s h = ((r.index, inl s), omega (arith, h.1))
  joined-Joined r p (Ended.panicked m) s h = ((r.index, inr s), omega (arith, h.1))

  conclude-Looped :
      (out : Result Progress Handled)
      → Looped picks false
          (IsSpawned picks false judge limits ids all)
          Inv
          IsDone
          (CleanedUp (IsCollection judge limits ids all))
          (length all)
          out
      → (h : Handled) × (conclude false out ≡ some h)
        × CleanedUp (IsCollection judge limits ids all) h
  unfolding conclude cleaned final_result
  conclude-Looped (err h) l = (h, refl, l)
  conclude-Looped (ok p) l =
      let (vs, e, n, g) =
        unwrap_all-some p.collected
          (λ i h. let d = l.1 i (subst (λ n. i < n) l.0.0 h) in (d.0, d.2)) in
      (
        record { result = VerdictTaskResult.collected vs; cleanups = p.cleanups + 1 },
        rw (e, conclude, final_result) refl,
        ((n ∙ l.0.0, λ i h. let d = l.1 i h in (d.0, g i d.0 d.2, d.1)), omega (arith, l.0.1)),
      )

-- A task of one case or more that asks for every verdict gets an answer in whatever order its cases end: either one
-- verdict for each case, in the order of the cases and as the judge gave them, or an internal
-- error with the message of a case that gave none. No `unwrap` panics, and `cleanup` has been called exactly once.
pub judge_cases-IsCollection :
    (picks : ℕ → ℕ) (judge : Judge) (ids : ℕ → ℕ) (limits : ResourcesLimit) (c : Case)
    (cs : List Case)
    → (h : Handled) × (judge_cases picks judge ids false limits (c ∷ cs) ≡ some h)
      × CleanedUp (IsCollection judge limits ids (c ∷ cs)) h
unfolding judge_cases
judge_cases-IsCollection picks judge ids limits c cs =
    conclude-Looped picks judge limits ids (c ∷ cs) _ (
      run_batches-Ends picks false judge limits ids (c ∷ cs) (Inv picks judge limits ids (c ∷ cs))
        (IsDone picks judge limits ids (c ∷ cs))
        (CleanedUp (IsCollection judge limits ids (c ∷ cs)))
        (λ r p s h. joined-Joined picks judge limits ids (c ∷ cs) r p r.ended s h) (length (c ∷ cs))
        0 (length (c ∷ cs)) (c ∷ cs) _ (omega arith) (omega arith)
        (λ j x h. ap (get_elem? (c ∷ cs)) (omega arith) ∙ h)
        (length-replicate (length (c ∷ cs)) none, refl) (λ i h. absurd (omega (arith, h))))

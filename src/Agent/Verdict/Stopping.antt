-- ===== src/Agent/Verdict/Stopping.antt =====
-- `handle` where the first verdict that is not accepted ends the task.
use oj_monorepo.Base.{
  ℕ, suc, ◌+◌, ◌<◌, ◌≡◌, refl, sym, ◌∙◌, ap, inl, inr, max, true, List, ◌∷◌, Option, none, some,
  Result, ok, err, length, get_elem?, arith, subst, ltb, Bool-cases,
}
use oj_monorepo.Shared.Models.{Case, CaseVerdict, ResourcesLimit, ResourcesUsage, VerdictTaskResult}
use oj_monorepo.Agent.Verdict.{
  Judge, Ended, Running, Progress, Handled, raise_usage, accept, joined, conclude, cleaned,
  final_result, judge_cases,
}
use oj_monorepo.Agent.Verdict.Joins.{Joined, Looped}
use oj_monorepo.Agent.Verdict.Batches.{IsSpawned, run_batches-Ends}
use oj_monorepo.Agent.Verdict.Answers.{
  CleanedUp, EndsAs, HasVerdict, IsWithin, IsAcceptedWithin, IsAttained, IsLeast, IsStop,
}

some-inj : {A : Type 0} (a b : A) → some a ≡ some b → a ≡ b
some-inj a b e = cc

module _ (picks : ℕ → ℕ) (judge : Judge) (limits : ResourcesLimit) (ids : ℕ → ℕ)
    (all : List Case) where
  abbrev Least : ResourcesUsage → Type 0
  Least m = IsLeast judge limits ids all m

  abbrev Within : ResourcesUsage → ResourcesUsage → Type 0
  Within u m = IsWithin judge limits ids all u m

  abbrev Accepts : ℕ → ResourcesUsage → Type 0
  Accepts i u = HasVerdict judge limits ids all i (CaseVerdict.accepted u)

  abbrev pub Inv : Progress → Type 0
  Inv p = ((m : ResourcesUsage) → p.max_usage ≡ some m → Least m) × (p.cleanups ≡ 0)

  abbrev pub IsDone : Progress → ℕ → Type 0
  IsDone p i =
      (m : ResourcesUsage) × (p.max_usage ≡ some m) × IsAcceptedWithin judge limits ids all m i

  attained-max :
      (f : ResourcesUsage → ℕ) (a i : ℕ) (u : ResourcesUsage)
      → IsAttained judge limits ids all (λ (v : ResourcesUsage). f v ≡ a)
      → Accepts i u
      → IsAttained judge limits ids all (λ (v : ResourcesUsage). f v ≡ max a (f u))
  attained-max f a i u (j, v, h, e) k = elim (Bool-cases (ltb a (f u))) [
    | inl l ↦ (i, u, k, ground arith)
    | inr l ↦ (j, v, h, ground arith)
  ]

  -- The usage of a further accepted case, and those before it, are within the raised one.
  raise_usage-Least :
      (o : Option ResourcesUsage) (i : ℕ) (u : ResourcesUsage)
      → ((m : ResourcesUsage) → o ≡ some m → Least m)
      → Accepts i u
      → Least (raise_usage o u)
        × Within u (raise_usage o u)
        × ((m : ResourcesUsage) → o ≡ some m → Within m (raise_usage o u))
  unfolding raise_usage
  raise_usage-Least none i u h k = (
    ((i, u, k, refl), (i, u, k, refl), (i, u, k, refl)),
    (omega arith, omega arith, omega arith),
    λ m e. absurd (cc),
  )
  raise_usage-Least (some n) i u h k =
      let l = h n refl in
      (
        (
          attained-max (λ (v : ResourcesUsage). v.cpu_time_ms) n.cpu_time_ms i u l.0 k,
          attained-max (λ (v : ResourcesUsage). v.wall_time_ms) n.wall_time_ms i u l.1 k,
          attained-max (λ (v : ResourcesUsage). v.memory_bytes) n.memory_bytes i u l.2 k,
        ),
        (omega arith, omega arith, omega arith),
        λ m e.
            subst (λ (m : ResourcesUsage). Within m (raise_usage (some n) u)) (some-inj n m e)
              (omega arith, omega arith, omega arith),
      )

  Within-trans : (u v w : ResourcesUsage) → Within u v → Within v w → Within u w
  Within-trans u v w h k =
      (omega (arith, h.0, k.0), omega (arith, h.1, k.1), omega (arith, h.2, k.2))

  joined-Joined :
      (r : Running) (p : Progress) (e : Ended)
      → EndsAs judge limits ids all r.index e
      → Inv p
      → Joined picks true
          (IsSpawned picks true judge limits ids all)
          Inv
          IsDone
          (CleanedUp (IsStop judge limits ids all))
          r
          p
          (joined true r.index e (record p { joins = suc p.joins }))
  unfolding joined accept
  joined-Joined r p (Ended.returned (ok (CaseVerdict.accepted u))) s h =
      let m = raise_usage p.max_usage u in
      let q = raise_usage-Least p.max_usage r.index u h.0 s in
      (
        ((λ m' e. subst Least (some-inj m m' e) q.0), h.1),
        (m, refl, (u, s, q.1)),
        λ i d. (m, refl, (d.2.0, d.2.1, Within-trans d.2.0 d.0 m d.2.2 (q.2 d.0 d.1))),
      )
  joined-Joined r p (Ended.returned (ok (CaseVerdict.wrong_answer c o e))) s h =
      ((tt, (r.index, s)), omega (arith, h.1))
  joined-Joined r p (Ended.returned (ok (CaseVerdict.killed k o e))) s h =
      ((tt, (r.index, s)), omega (arith, h.1))
  joined-Joined r p (Ended.returned (ok (CaseVerdict.runtime_error e c))) s h =
      ((tt, (r.index, s)), omega (arith, h.1))
  joined-Joined r p (Ended.returned (err m)) s h = ((r.index, inl s), omega (arith, h.1))
  joined-Joined r p (Ended.panicked m) s h = ((r.index, inr s), omega (arith, h.1))

  conclude-Looped :
      (out : Result Progress Handled)
      → 0 < length all
      → Looped picks true
          (IsSpawned picks true judge limits ids all)
          Inv
          IsDone
          (CleanedUp (IsStop judge limits ids all))
          (length all)
          out
      → (h : Handled) × (conclude true out ≡ some h) × CleanedUp (IsStop judge limits ids all) h
  unfolding conclude cleaned final_result
  conclude-Looped (err h) k l = (h, refl, l)
  conclude-Looped (ok p) k l =
      let d = l.1 0 k in
      (
        record { result = VerdictTaskResult.all_passed d.0; cleanups = p.cleanups + 1 },
        rw (d.1, conclude, final_result) refl,
        (
          (
            (λ i h.
                let d' = l.1 i h in
                subst (λ (m : ResourcesUsage). IsAcceptedWithin judge limits ids all m i)
                  (some-inj d'.0 d.0 (sym d'.1 ∙ d.1)) d'.2),
            l.0.0 d.0 d.1,
          ),
          omega (arith, l.0.1),
        ),
      )

-- A task of one case or more that stops on its first error gets an answer in whatever order its cases end: either
-- every case is accepted, and the usage reported is the least one that each of theirs is within;
-- or the verdict reported is not an acceptance and is the one of some case; or some case has given
-- no verdict, and its message is reported as an internal error. No `unwrap` panics, and `cleanup` has been called exactly once.
pub judge_cases-IsStop :
    (picks : ℕ → ℕ) (judge : Judge) (ids : ℕ → ℕ) (limits : ResourcesLimit) (c : Case)
    (cs : List Case)
    → (h : Handled) × (judge_cases picks judge ids true limits (c ∷ cs) ≡ some h)
      × CleanedUp (IsStop judge limits ids (c ∷ cs)) h
unfolding judge_cases
judge_cases-IsStop picks judge ids limits c cs =
    conclude-Looped picks judge limits ids (c ∷ cs) _ (omega arith) (
      run_batches-Ends picks true judge limits ids (c ∷ cs) (Inv picks judge limits ids (c ∷ cs))
        (IsDone picks judge limits ids (c ∷ cs)) (CleanedUp (IsStop judge limits ids (c ∷ cs)))
        (λ r p s h. joined-Joined picks judge limits ids (c ∷ cs) r p r.ended s h) (length (c ∷ cs))
        0 (length (c ∷ cs)) (c ∷ cs) _ (omega arith) (omega arith)
        (λ j x h. ap (get_elem? (c ∷ cs)) (omega arith) ∙ h) ((λ m e. absurd (cc)), refl)
        (λ i h. absurd (omega (arith, h))))

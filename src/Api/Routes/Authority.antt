-- ===== src/Api/Routes/Authority.antt =====
-- services/crates/api_server/src/routers/problems.rs: what the handlers change and show, and for
-- whom.
use mathlib.Core.List.{append_assoc, append-nil}
use oj_monorepo.Base.{
  ℕ, ◌+◌, tally, ◌≡◌, refl, ap, sym, ◌∙◌, subst, ◌⊎◌, inl, inr, arith, String, str_eq, str_eq_iff,
  List, [], ◌∷◌, ◌++◌, map, All, Bool, true, false, Bool-cases, some, Result, ok, err, and_then,
  and_then-ok, ok-inj, if◌then◌else◌,
}
use oj_monorepo.Api.Store.{
  is_example, Problem, TestCase, Tables, RepoError, Statement, World, Rearranges, live_problem,
  found_problem, in_transaction,
}
use oj_monorepo.Api.Store.Outcomes.{Transacted, in_transaction-Transacted, found_problem-ok}
use oj_monorepo.Api.Problems.{
  ProblemDetailResponse, UpdateProblemRequest, get_by_id, update, delete,
}
use oj_monorepo.Api.Problems.Changes.{
  Granted, Authorized, Updated, Deleted, update-Authorized, delete-Authorized,
}
use oj_monorepo.Api.Cases.{
  TestCaseSuccessfulResponse, TestCaseInput, cases_of, without_cases_of, shown_case, visible_cases,
  get_by_problem_id, new_case, insert_case, insert_cases, replace_cases, replace_found, replace,
}
use oj_monorepo.Api.Routes.{
  ProblemApiError, from_repo_error, answered, answered_after, update_problem, delete_problem,
  get_test_cases, replace_checked, replace_test_cases,
}

shown_examples :
    (problem_id : String) (rows : List TestCase)
    → All
        (λ (c : TestCaseSuccessfulResponse). is_example c.case_type ≡ true)
        (map shown_case (visible_cases false problem_id rows))
unfolding visible_cases
shown_examples problem_id [] = tt
shown_examples problem_id (c ∷ cs) = elim (Bool-cases (is_example c.case_type)) [
  | inl e ↦ elim (Bool-cases (str_eq c.problem_id problem_id)) [
    | inl f ↦ rw (e, f) (e, shown_examples problem_id cs)
    | inr f ↦ rw (e, f) (shown_examples problem_id cs)
  ]
  | inr e ↦ elim (Bool-cases (str_eq c.problem_id problem_id)) [
    | inl f ↦ rw (e, f) (shown_examples problem_id cs)
    | inr f ↦ rw (e, f) (shown_examples problem_id cs)
  ]
]

module _ (world : World) where
  open world use {now, faulty, case_rows}

  abbrev pub new_cases : String → ℕ → List TestCaseInput → List TestCase
  new_cases problem_id n [] = []
  new_cases problem_id n (c ∷ cs) = new_case world problem_id n c ∷ new_cases problem_id (n + 1) cs

  abbrev with_cases : Tables → List TestCase → Tables
  with_cases t rows = record t { test_cases = rows }

  insert_case-ok :
      (c : TestCase) (n : ℕ) (t t' : Tables)
      → insert_case world c n t ≡ ok t'
      → t' ≡ with_cases t (t.test_cases ++ (c ∷ []))
  unfolding insert_case
  insert_case-ok c n t t' h = ground arith

  insert_cases-ok :
      (problem_id : String) (n : ℕ) (cs : List TestCaseInput) (t t' : Tables)
      → insert_cases world problem_id n cs t ≡ ok t'
      → t' ≡ with_cases t (t.test_cases ++ new_cases problem_id n cs)
  unfolding insert_cases
  insert_cases-ok problem_id n [] t t' h = rw (append-nil t.test_cases) (sym (ok-inj t t' h))
  insert_cases-ok problem_id n (c ∷ cs) t t' h =
      let c' = new_case world problem_id n c in
      let (mid, e, f) = and_then-ok (insert_case world c' n t) _ t' h in
      insert_cases-ok problem_id (n + 1) cs mid t' f
      ∙ ap (λ (m : Tables). with_cases m (m.test_cases ++ new_cases problem_id (n + 1) cs))
          (insert_case-ok c' n t mid e)
      ∙ ap (with_cases t) (append_assoc t.test_cases (c' ∷ []) (new_cases problem_id (n + 1) cs))

  -- The cases of one problem are as asked for, and nothing else has changed.
  abbrev pub Replaced : String → List TestCaseInput → Tables → Tables → Type 0
  Replaced id cases t t' =
      t' ≡ with_cases t (without_cases_of id t.test_cases ++ new_cases id 0 cases)

  replace_cases-Replaced :
      (id : String) (cases : List TestCaseInput) (t t' : Tables)
      → replace_cases world id cases t ≡ ok t'
      → Replaced id cases t t'
  unfolding replace_cases
  replace_cases-Replaced id cases t t' h = elim (Bool-cases (faulty Statement.delete_cases)) [
    | inl b ↦ absurd (ground arith)
    | inr b ↦
        insert_cases-ok id 0 cases (with_cases t (without_cases_of id t.test_cases)) t' (rw b at h)
  ]

  -- An error and the tables as they were; or this user wrote the problem, and these tables.
  abbrev pub Allowed :
      String
      → String
      → Tables
      → Tables
      → (Tables → Type 0)
      → Tables × Result (ℕ × Unit {0}) ProblemApiError
      → Type 0
  Allowed id user seen t After out =
      ((e : ProblemApiError) × (out ≡ (t, err e))) ⊎ (Granted world id user seen × After out.0)

  answered-Allowed :
      (id user : String) (seen t : Tables) (After : Tables → Type 0)
      (out : Tables × Result (Unit {0}) RepoError)
      → Authorized world id user seen t After out
      → Allowed id user seen t After (answered_after 204 out)
  unfolding answered_after answered
  answered-Allowed id user seen t After (t', r) (inl (e, p)) =
      inl (from_repo_error e, ap (answered_after 204) p)
  answered-Allowed id user seen t After (t', r) (inr (g, a)) = inr (g, a)

  replace_found-Replaced :
      (id user : String) (cases : List TestCaseInput) (first t : Tables)
      (r : Result Problem RepoError)
      → Granted world id user first
      → Authorized world id user first t (Replaced id cases t) (replace_found world id cases t r)
  unfolding replace_found
  replace_found-Replaced id user cases first t (err e) g = inl (e, refl)
  replace_found-Replaced id user cases first t (ok p) g =
      done (in_transaction-Transacted world t (replace_cases world id cases t) tt)
    where
      done :
          Transacted t
            (replace_cases world id cases t)
            (in_transaction world t (replace_cases world id cases t) tt)
          → Authorized world id user first t
              (Replaced id cases t)
              (in_transaction world t (replace_cases world id cases t) tt)
      done (inl e) = inl e
      done (inr (t', e, f)) =
          inr (g, subst (Replaced id cases t) (sym f) (replace_cases-Replaced id cases t t' e))

  get_by_id-Granted :
      (id : String) (seen : Tables) (d : ProblemDetailResponse)
      → get_by_id world id seen seen ≡ ok d
      → Granted world id d.author_id seen
  unfolding get_by_id
  get_by_id-Granted id seen d h =
      let (p, e, f) = and_then-ok (found_problem world id seen) _ d h in
      (p, found_problem-ok world id seen p e, ground arith)

  replace_checked-Allowed :
      (id user : String) (cases : List TestCaseInput) (first seen t : Tables)
      (r : Result ProblemDetailResponse RepoError)
      → get_by_id world id first first ≡ r
      → Allowed id user first t (Replaced id cases t) (replace_checked world user id cases seen t r)
  unfolding replace_checked replace
  replace_checked-Allowed id user cases first seen t (err e) h = inl (from_repo_error e, refl)
  replace_checked-Allowed id user cases first seen t (ok d) h =
      elim (Bool-cases (str_eq d.author_id user)) [
        | inl b ↦ rw b (
            answered-Allowed id user first t (Replaced id cases t) (replace world id cases seen t) (
              replace_found-Replaced id user cases first t (found_problem world id seen) (
                subst (λ u. Granted world id u first) ((str_eq_iff d.author_id user).0 b)
                  (get_by_id-Granted id first d h))))
        | inr b ↦ rw b (inl (ProblemApiError.forbidden, refl))
      ]

  -- What a user sees of the test cases of a problem: all of them, in any order, having written it;
  -- or examples.
  abbrev pub SeesCases :
      String
      → String
      → Tables
      → Tables
      → Result (ℕ × List TestCaseSuccessfulResponse) ProblemApiError
      → Type 0
  SeesCases id user seen t (err e) = Unit
  SeesCases id user seen t (ok (status, cs)) =
      (Granted world id user seen
        × ((rows : List TestCase) × ((q : TestCase → Bool) → tally q rows ≡ tally q t.test_cases)
            × (cs ≡ map shown_case (cases_of id rows))))
      ⊎ All (λ (c : TestCaseSuccessfulResponse). is_example c.case_type ≡ true) cs

  get_test_cases-SeesCases :
      (id user : String) (seen t : Tables)
      → Rearranges case_rows
      → SeesCases id user seen t (get_test_cases world user id seen t)
  unfolding get_test_cases get_by_problem_id answered
  get_test_cases-SeesCases id user seen t any_order = problem (found_problem world id seen) refl
    where
      shown :
          (p : Problem)
          → live_problem id seen ≡ some p
          → (b f : Bool) → str_eq p.author_id user ≡ b
          → SeesCases id user seen t (
              answered 200 (
                if f
                then err RepoError.internal
                else ok (map shown_case (visible_cases b id (case_rows t.test_cases)))))
      shown p l b true e = tt
      shown p l true false e = inl (
        (p, l, (str_eq_iff p.author_id user).0 e),
        (case_rows t.test_cases, (λ q. any_order q t.test_cases), visible),
      )
        where
          visible :
              map shown_case (visible_cases true id (case_rows t.test_cases))
              ≡ map shown_case (cases_of id (case_rows t.test_cases))
          visible = refl
      shown p l false false e = inr (shown_examples id (case_rows t.test_cases))

      problem :
          (r : Result Problem RepoError)
          → found_problem world id seen ≡ r
          → SeesCases id user seen t (
              answered 200 (
                and_then r (λ p.
                  if faulty Statement.find_cases
                  then err RepoError.internal
                  else ok (
                      map shown_case
                        (visible_cases (str_eq p.author_id user) id (case_rows t.test_cases))))))
      problem (err e) h = tt
      problem (ok p) h =
          shown p (found_problem-ok world id seen p h) (str_eq p.author_id user)
            (faulty Statement.find_cases) refl

  -- Whatever other requests do between the queries of a handler: an update, a deletion and a
  -- replacement of the test cases either answer with an error and leave the tables as they are, or
  -- the user wrote the problem, which was there and not deleted, and they change what the request
  -- names of this problem and nothing else; and a user who did not write it sees examples only, where
  -- the database gives every row of the test cases as often as it is there, in any order. There
  -- are no admins: nobody but the author changes a problem.
  pub author_only :
      (id user : String) (first seen t : Tables)
      → Rearranges case_rows
      → ((req : UpdateProblemRequest)
          → Allowed id user seen t
              (Updated world id req t)
              (update_problem world user id req seen t))
        × Allowed id user seen t (Deleted world id t) (delete_problem world user id seen t)
        × ((cases : List TestCaseInput)
            → Allowed id user first t
                (Replaced id cases t)
                (replace_test_cases world user id cases first seen t))
        × SeesCases id user seen t (get_test_cases world user id seen t)
  unfolding update_problem delete_problem replace_test_cases
  author_only id user first seen t any_order = (
    (λ req.
        answered-Allowed id user seen t (Updated world id req t) (update world id user req seen t)
          (update-Authorized world id user req seen t)),
    answered-Allowed id user seen t (Deleted world id t) (delete world id user seen t)
        (delete-Authorized world id user seen t),
    (λ cases.
        replace_checked-Allowed id user cases first seen t (get_by_id world id first first) refl),
    get_test_cases-SeesCases id user seen t any_order,
  )

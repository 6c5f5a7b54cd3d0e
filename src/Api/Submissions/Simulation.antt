-- ===== src/Api/Submissions/Simulation.antt =====
-- services/crates/api_server_db/src/repositories/submissions.rs: each operation takes the view of
-- the table one step of the specification on.
use oj_monorepo.Base.{
  ℕ, ◌≡◌, refl, ap, sym, ◌∙◌, subst, String, str_eq, str_eq_iff, List, [], ◌∷◌, ◌++◌, All,
  All-append, true, false, Bool-cases, inl, inr, Option, none, some, Result, ok, err, if◌then◌else◌,
}
use oj_monorepo.Shared.Models.{VerdictTask}
use oj_monorepo.Shared.Http.{VerdictResponse}
use oj_monorepo.Api.Store.{
  SubmissionStatus, AcceptableLanguage, Problem, Submission, Tables, RepoError, Statement,
  ValueCodec, World,
}
use oj_monorepo.Api.Store.Outcomes.{Wrote, written-Wrote}
use oj_monorepo.Api.Cases.{cases_of}
use oj_monorepo.Api.Submissions.{
  submission_at, update_submission, with_submissions, verdict_task, completion, new_submission,
  insert_submission, create_found, complete_row, complete_found, mark_completed, result_of,
}
use oj_monorepo.Api.Submissions.Rows.{
  IsUnique, is_stored, submission_at-append, submission_at-update, not_stored, stored,
  update-IsUnique, append-IsUnique,
}
use oj_monorepo.Api.Submissions.Spec.{Entry, Ledger, Step, reading}

module _ (codec : ValueCodec) where
  open codec use {to_value, from_value}

  -- A value that was written is read back.
  abbrev pub IsFaithful : Type 0
  IsFaithful =
      (v : VerdictResponse) (json : String) → to_value v ≡ some json → from_value json ≡ some v

  abbrev pub verdict_in : SubmissionStatus → Option String → Option VerdictResponse
  verdict_in SubmissionStatus.pending result = none
  verdict_in SubmissionStatus.completed none = none
  verdict_in SubmissionStatus.completed (some json) = from_value json

  abbrev pub entry_of : Submission → Entry
  entry_of s = record { owner = s.user_id; verdict = verdict_in s.status s.result }

  abbrev pub entry : Option Submission → Option Entry
  entry none = none
  entry (some s) = some (entry_of s)

  abbrev pub view : Tables → Ledger
  view t id = entry (submission_at id t.submissions)

  -- A completed row has a result that can be read.
  abbrev pub IsReadable : Submission → Type 0
  IsReadable s = result_of codec s.status s.result ≡ ok (reading (verdict_in s.status s.result))

  abbrev pub IsValid : Tables → Type 0
  IsValid t = IsUnique t.submissions × All IsReadable t.submissions

  -- What one call does to the tables and to the view.
  abbrev pub Simulates : Tables → Tables → Type 0
  Simulates t t' = IsValid t' × Step (view t) (view t')

  same-Simulates : (t : Tables) → IsValid t → Simulates t t
  same-Simulates t v = (v, Step.idle (λ j. refl))

  Wrote-Simulates :
      {A : Type 0} (t t' : Tables) (out : Tables × Result A RepoError)
      → IsValid t
      → Wrote t t' out
      → Simulates t t'
      → Simulates t out.0
  Wrote-Simulates t t' (u, r) v (inl (e, p)) s =
      subst (Simulates t) (ap (λ (o : Tables × Result _ RepoError). o.0) (sym p))
        (same-Simulates t v)
  Wrote-Simulates t t' out v (inr p) s = subst (Simulates t) (sym p) s

  added-Simulates :
      (t : Tables) (s : Submission)
      → IsValid t
      → is_stored s.id t.submissions ≡ false
      → s.status ≡ SubmissionStatus.pending
      → Simulates t (with_submissions t (t.submissions ++ (s ∷ [])))
  unfolding result_of
  added-Simulates t s v fresh p = (
    (
      append-IsUnique t.submissions s fresh v.0,
      All-append IsReadable t.submissions (s ∷ []) v.1 (rw p refl, tt),
    ),
    Step.opened s.id s.user_id (ap entry (not_stored t.submissions s.id fresh)) changed,
  )
    where
      changed :
          (j : String)
          → entry (submission_at j (t.submissions ++ (s ∷ []))) ≡ (
              if str_eq s.id j
              then some (record { owner = s.user_id; verdict = none })
              else entry (submission_at j t.submissions))
      changed j =
          ap entry (submission_at-append t.submissions s j fresh)
          ∙ elim (Bool-cases (str_eq s.id j)) [ inl b ↦ rw (b, p) refl | inr b ↦ rw b refl ]

  completed-Readable :
      (rows : List Submission) (now : ℕ) (id json : String) (v : VerdictResponse)
      → from_value json ≡ some v
      → All IsReadable rows
      → All IsReadable (update_submission id (completion now json) rows)
  unfolding completion result_of
  completed-Readable [] now id json v d a = tt
  completed-Readable (r ∷ rs) now id json v d a = (
    elim (Bool-cases (str_eq r.id id)) [ inl b ↦ rw (b, d) refl | inr b ↦ rw b a.0 ],
    completed-Readable rs now id json v d a.1,
  )

  completed-Simulates :
      (t : Tables) (now : ℕ) (id json : String) (v : VerdictResponse)
      → IsValid t
      → from_value json ≡ some v
      → is_stored id t.submissions ≡ true
      → Simulates t (with_submissions t (update_submission id (completion now json) t.submissions))
  unfolding completion
  completed-Simulates t now id json v h d there =
      let (s, e) = stored t.submissions id there in
      (
        (
          update-IsUnique f (λ _. refl) t.submissions id h.0,
          completed-Readable t.submissions now id json v d h.1,
        ),
        Step.closed id (entry_of s) v (ap entry e) (changed s e),
      )
    where
      f : Submission → Submission
      f = completion now json

      changed :
          (s : Submission)
          → submission_at id t.submissions ≡ some s
          → (j : String)
          → entry (submission_at j (update_submission id f t.submissions)) ≡ (
              if str_eq id j
              then some (record { owner = s.user_id; verdict = some v })
              else entry (submission_at j t.submissions))
      changed s e j = elim (Bool-cases (str_eq id j)) [
        | inl b ↦
            let k = sym ((str_eq_iff id j).0 b) in
            ap entry (submission_at-update f (λ _. refl) t.submissions id j) ∙ rw (b, k, e, d) refl
        | inr b ↦ ap entry (submission_at-update f (λ _. refl) t.submissions id j) ∙ rw b refl
      ]

  insert_submission-Simulates :
      (world : World) (s : Submission) (task : VerdictTask) (t : Tables)
      → IsValid t
      → s.status ≡ SubmissionStatus.pending
      → Simulates t (insert_submission world s task t).0
  unfolding insert_submission
  insert_submission-Simulates world s task t v p =
      elim (Bool-cases (is_stored s.id t.submissions)) [
        | inl b ↦ rw b (same-Simulates t v)
        | inr b ↦ rw b (
            Wrote-Simulates t _ _ v
              (written-Wrote world Statement.insert_submission t
                (with_submissions t (t.submissions ++ (s ∷ []))) (s.id, task))
              (added-Simulates t s v b p))
      ]

  pub create_found-Simulates :
      (world : World) (problem_id user_id source_code : String) (language : AcceptableLanguage)
      (t : Tables) (r : Result Problem RepoError)
      → IsValid t
      → Simulates t (create_found world problem_id user_id source_code language t r).0
  unfolding create_found
  create_found-Simulates world problem_id user_id source_code language t (err e) v =
      same-Simulates t v
  create_found-Simulates world problem_id user_id source_code language t (ok p) v =
      elim (Bool-cases (world.faulty Statement.find_cases)) [
        | inl b ↦ rw b (same-Simulates t v)
        | inr b ↦ rw b (
            insert_submission-Simulates world
              (new_submission world problem_id user_id source_code language)
              (verdict_task p (cases_of problem_id (world.case_rows t.test_cases)) source_code
                language)
              t v refl)
      ]

  complete_row-Simulates :
      (world : World) (id : String) (o : Option String) (v : VerdictResponse) (t : Tables)
      → IsFaithful
      → to_value v ≡ o
      → IsValid t
      → Simulates t (complete_row world id o t).0
  unfolding complete_row
  complete_row-Simulates world id none v t c e h = same-Simulates t h
  complete_row-Simulates world id (some json) v t c e h =
      elim (Bool-cases (is_stored id t.submissions)) [
        | inl b ↦ rw b (
            Wrote-Simulates t _ _ h
              (written-Wrote world Statement.update_submission t
                (with_submissions t
                  (update_submission id (completion world.now json) t.submissions))
                tt)
              (completed-Simulates t world.now id json v h (c v json e) b))
        | inr b ↦ rw b (same-Simulates t h)
      ]

  complete_found-Simulates :
      (world : World) (id : String) (v : VerdictResponse) (t : Tables) (o : Option Submission)
      → IsFaithful
      → IsValid t
      → Simulates t (complete_found world codec id v t o).0
  unfolding complete_found
  complete_found-Simulates world id v t none c h = same-Simulates t h
  complete_found-Simulates world id v t (some s) c h =
      complete_row-Simulates world id (to_value v) v t c refl h

  pub mark_completed-Simulates :
      (world : World) (id : String) (v : VerdictResponse) (seen t : Tables)
      → IsFaithful
      → IsValid t
      → Simulates t (mark_completed world codec id v seen t).0
  unfolding mark_completed
  mark_completed-Simulates world id v seen t c h =
      elim (Bool-cases (world.faulty Statement.find_submission)) [
        | inl b ↦ rw b (same-Simulates t h)
        | inr b ↦
            rw b (complete_found-Simulates world id v t (submission_at id seen.submissions) c h)
      ]

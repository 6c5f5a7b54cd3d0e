-- ===== src/Api/Submissions/Refinement.antt =====
-- services/crates/api_server_db/src/repositories/submissions.rs: any run of the
-- repository of submissions against its specification.
use oj_monorepo.Base.{
  ◌≡◌, refl, ap, sym, subst, String, str_eq, List, [], ◌∷◌, All, false, Bool-cases, inl, inr,
  Option, none, some, ok, if◌then◌else◌,
}
use oj_monorepo.Shared.Http.{VerdictResponse}
use oj_monorepo.Api.Store.{
  AcceptableLanguage, Submission, Tables, Statement, ValueCodec, World, found_problem,
}
use oj_monorepo.Api.Submissions.{submission_at, create_pending, mark_completed, get_found, get}
use oj_monorepo.Api.Submissions.Rows.{IsUnique, find_owned, All-submission_at}
use oj_monorepo.Api.Submissions.Spec.{Ledger, Step, Steps, read, Kept, Steps-Kept}
use oj_monorepo.Api.Submissions.Simulation.{
  IsFaithful, entry_of, entry, view, IsReadable, IsValid, Simulates, create_found-Simulates,
  mark_completed-Simulates,
}

module _ (codec : ValueCodec) where
  -- A call on the repository, or anything that leaves its table alone. `seen` are the tables at the
  -- first query of the call.
  pub data Op : Type 0 where
    submit :
        (world : World) (problem_id user_id source_code : String) (language : AcceptableLanguage)
        (seen : Tables)
        → Op
    judged : (world : World) (id : String) (verdict : VerdictResponse) (seen : Tables) → Op
    elsewhere : (f : Tables → Tables) → ((t : Tables) → (f t).submissions ≡ t.submissions) → Op

  abbrev pub apply : Op → Tables → Tables
  apply (Op.submit world problem_id user_id source_code language seen) t =
      (create_pending world problem_id user_id source_code language seen t).0
  apply (Op.judged world id verdict seen) t = (mark_completed world codec id verdict seen t).0
  apply (Op.elsewhere f p) t = f t

  abbrev pub run : List Op → Tables → Tables
  run [] t = t
  run (op ∷ ops) t = run ops (apply op t)

  apply-Simulates :
      (op : Op) (t : Tables) → IsFaithful codec → IsValid codec t → Simulates codec t (apply op t)
  unfolding create_pending
  apply-Simulates (Op.submit world problem_id user_id source_code language seen) t c v =
      create_found-Simulates codec world problem_id user_id source_code language t
        (found_problem world problem_id seen) v
  apply-Simulates (Op.judged world id verdict seen) t c v =
      mark_completed-Simulates codec world id verdict seen t c v
  apply-Simulates (Op.elsewhere f p) t c v = (
    subst (λ rows. IsUnique rows × All (IsReadable codec) rows) (sym (p t)) v,
    Step.idle (λ j. ap (λ rows. entry codec (submission_at j rows)) (p t)),
  )

  run-Simulates :
      (ops : List Op) (l : Ledger) (t : Tables)
      → IsFaithful codec
      → IsValid codec t
      → Steps l (view codec t)
      → IsValid codec (run ops t) × Steps l (view codec (run ops t))
  run-Simulates [] l t c v r = (v, r)
  run-Simulates (op ∷ ops) l t c v r =
      let (v', s) = apply-Simulates op t c v in
      run-Simulates ops l (apply op t) c v' (Steps.next r s)

  -- A repository whose query does not fail answers what the view says.
  pub get-read :
      (world : World) (user_id id : String) (t : Tables)
      → IsValid codec t
      → world.faulty Statement.find_submission ≡ false
      → get codec world user_id id t ≡ ok (read user_id (view codec t id))
  unfolding get get_found
  get-read world user_id id t v f =
      rw (f, find_owned t.submissions id user_id v.0)
        (answered (submission_at id t.submissions) refl)
    where
      owned :
          (s : Submission)
          → IsReadable codec s
          → get_found codec (if str_eq s.user_id user_id then some s else none)
            ≡ ok (read user_id (some (entry_of codec s)))
      owned s h = elim (Bool-cases (str_eq s.user_id user_id)) [
        | inl b ↦ rw (b, h) refl
        | inr b ↦ rw b refl
      ]

      answered :
          (o : Option Submission)
          → submission_at id t.submissions ≡ o
          → get_found codec
              (elim o [ none ↦ none | some s ↦ if str_eq s.user_id user_id then some s else none ])
            ≡ ok (read user_id (entry codec o))
      answered none e = refl
      answered (some s) e = owned s (All-submission_at (IsReadable codec) t.submissions id s v.1 e)

  -- Whatever calls are made on the repository, with whatever failures and whatever else happens in
  -- between: from a table with unique ids and readable results, the table stays so, its view changes
  -- by steps of the specification alone, so that each submission keeps its owner and does not lose a
  -- verdict, and a query that does not fail answers what the view says. The JSON library must read
  -- back what it has written.
  pub run_refines :
      (ops : List Op) (t : Tables) (world : World) (user_id id : String)
      → IsFaithful codec
      → IsValid codec t
      → world.faulty Statement.find_submission ≡ false
      → IsValid codec (run ops t)
        × Steps (view codec t) (view codec (run ops t))
        × Kept (view codec t id) (view codec (run ops t) id)
        × (get codec world user_id id (run ops t) ≡ ok (read user_id (view codec (run ops t) id)))
  run_refines ops t world user_id id c v f =
      let (v', r) = run-Simulates ops (view codec t) t c v Steps.here in
      (
        v',
        r,
        Steps-Kept (view codec t) (view codec (run ops t)) r id,
        get-read world user_id id (run ops t) v' f,
      )

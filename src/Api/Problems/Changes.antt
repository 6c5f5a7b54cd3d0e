-- ===== src/Api/Problems/Changes.antt =====
-- services/crates/api_server_db/src/repositories/problems.rs: what `update` and `delete` change, and
-- for whom.
use oj_monorepo.Base.{
  ◌≡◌, refl, ap, sym, subst, ◌⊎◌, inl, inr, String, str_eq, str_eq_iff, Bool-cases, some, Result,
  ok, err, and_then, and_then-ok,
}
use oj_monorepo.Api.Store.{
  Problem, Tables, RepoError, Statement, World, tags_of, live_problem, found_problem,
  in_transaction,
}
use oj_monorepo.Api.Problems.{
  UpdateProblemRequest, or_keep, changed, deleted, update_at, is_there, without_tags_of,
  replace_tags, update_row, permitted, for_author, update, delete_row, delete,
}
use oj_monorepo.Api.Store.Outcomes.{
  Wrote, Transacted, written-Wrote, in_transaction-Transacted, found_problem-ok,
}
use oj_monorepo.Api.Problems.Rows.{replace_tags-Retagged, update_row-ok}

module _ (world : World) where
  open world use {now, faulty}

  -- The problem was there for all to see, and is this user's.
  abbrev pub Granted : String → String → Tables → Type 0
  Granted id author_id seen =
      (p : Problem) × (live_problem id seen ≡ some p) × (p.author_id ≡ author_id)

  abbrev pub Authored :
      String
      → String
      → Tables
      → Tables
      → Tables × Result (Unit {0}) RepoError
      → Tables × Result (Unit {0}) RepoError
      → Type 0
  Authored id author_id seen t rest out =
      ((e : RepoError) × (out ≡ (t, err e))) ⊎ (Granted id author_id seen × (out ≡ rest))

  pub for_author-Authored :
      (id author_id : String) (seen t : Tables) (rest : Tables × Result (Unit {0}) RepoError)
      → Authored id author_id seen t rest (for_author world id author_id seen t rest)
  unfolding for_author permitted
  for_author-Authored id author_id seen t rest = judged (found_problem world id seen) refl
    where
      judged :
          (r : Result Problem RepoError)
          → found_problem world id seen ≡ r
          → Authored id author_id seen t rest (permitted world author_id t rest r)
      judged (err e) f = inl (e, refl)
      judged (ok p) f = elim (Bool-cases (str_eq p.author_id author_id)) [
        | inl b ↦ rw b (
            inr (
              (p, found_problem-ok world id seen p f, (str_eq_iff p.author_id author_id).0 b),
              refl,
            ))
        | inr b ↦ rw b (inl (RepoError.forbidden, refl))
      ]

  -- An error and the tables as they were; or this user wrote the problem, and these tables.
  abbrev pub Authorized :
      String
      → String
      → Tables
      → Tables
      → (Tables → Type 0)
      → Tables × Result (Unit {0}) RepoError
      → Type 0
  Authorized id author_id seen t After out =
      ((e : RepoError) × (out ≡ (t, err e))) ⊎ (Granted id author_id seen × After out.0)

  -- After an update: the columns that the request names, and its tags, if it names any; no row of
  -- another problem, and no other table.
  abbrev pub Updated : String → UpdateProblemRequest → Tables → Tables → Type 0
  Updated id req t t' =
      (tags_of id t'.problems_tags ≡ or_keep req.tags (tags_of id t.problems_tags))
      × (without_tags_of id t'.problems_tags ≡ without_tags_of id t.problems_tags)
      × (t' ≡ record t {
        problems = update_at id (changed req now) t.problems;
        problems_tags = t'.problems_tags;
      })

  abbrev pub Deleted : String → Tables → Tables → Type 0
  Deleted id t t' = t' ≡ record t { problems = update_at id (deleted now) t.problems }

  body-Updated :
      (id : String) (req : UpdateProblemRequest) (t t' : Tables)
      → and_then (replace_tags world id req.tags t) (λ m. update_row world id (changed req now) m)
        ≡ ok t'
      → Updated id req t t'
  body-Updated id req t t' h =
      let (mid, e, f) = and_then-ok (replace_tags world id req.tags t) _ t' h in
      let (a, b, c) = replace_tags-Retagged world id req.tags t mid e in
      let g = update_row-ok world id (changed req now) mid t' f in
      subst (Updated id req t) (sym g) (
        a,
        b,
        ap (λ (m : Tables). record m { problems = update_at id (changed req now) m.problems }) c,
      )

  pub update-Authorized :
      (id author_id : String) (req : UpdateProblemRequest) (seen t : Tables)
      → Authorized id author_id seen t (Updated id req t) (update world id author_id req seen t)
  unfolding update
  update-Authorized id author_id req seen t = elim (for_author-Authored id author_id seen t rest) [
    | inl e ↦ inl e
    | inr (g, e) ↦ rw e (done g (in_transaction-Transacted world t body tt))
  ]
    where
      body : Result Tables RepoError
      body =
          and_then (replace_tags world id req.tags t) (λ m. update_row world id (changed req now) m)

      rest : Tables × Result (Unit {0}) RepoError
      rest = in_transaction world t body tt

      done :
          Granted id author_id seen
          → Transacted t body rest
          → Authorized id author_id seen t (Updated id req t) rest
      done g (inl e) = inl e
      done g (inr (t', e, f)) =
          inr (g, subst (Updated id req t) (sym f) (body-Updated id req t t' e))

  delete_row-Wrote :
      (id : String) (t : Tables)
      → Wrote t
          (record t { problems = update_at id (deleted now) t.problems })
          (delete_row world id t)
  unfolding delete_row
  delete_row-Wrote id t = elim (Bool-cases (is_there id t.problems)) [
    | inl b ↦ rw b (written-Wrote world Statement.update_problem t _ tt)
    | inr b ↦ rw b (inl (RepoError.internal, refl))
  ]

  pub delete-Authorized :
      (id author_id : String) (seen t : Tables)
      → Authorized id author_id seen t (Deleted id t) (delete world id author_id seen t)
  unfolding delete
  delete-Authorized id author_id seen t =
      elim (for_author-Authored id author_id seen t (delete_row world id t)) [
        | inl e ↦ inl e
        | inr (g, e) ↦ rw e (done g (delete_row-Wrote id t))
      ]
    where
      done :
          Granted id author_id seen
          → Wrote t
              (record t { problems = update_at id (deleted now) t.problems })
              (delete_row world id t)
          → Authorized id author_id seen t (Deleted id t) (delete_row world id t)
      done g (inl e) = inl e
      done g (inr e) = inr (g, e)

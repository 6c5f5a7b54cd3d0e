-- ===== src/Api/Problems/Creation.antt =====
-- services/crates/api_server_db/src/repositories/problems.rs: a new problem is read as it was
-- created.
use oj_monorepo.Base.{
  tally, str_eq, Bool, ◌&&◌, ◌≡◌, refl, ap, sym, ◌∙◌, subst, inl, inr, arith, String, List, [], ◌∷◌,
  ◌++◌, find, true, false, some, Result, ok, err, and_then-ok,
}
use oj_monorepo.Api.Store.{
  Problem, ProblemTag, Tables, RepoError, Rearranges, Statement, World, is_live_at, tags_of,
  found_problem, in_transaction, committed, written,
}
use oj_monorepo.Api.Store.Outcomes.{in_transaction-Transacted}
use oj_monorepo.Api.Problems.{
  CreateProblemRequest, ProblemDetailResponse, is_there, new_problem, insert_problem, create,
  get_by_id,
}
use oj_monorepo.Api.Problems.Rows.{
  rows_of, with_rows, tags_of-append, tags_of-rows_of, insert_tags-ok, str_eq_refl,
}

-- A row that is added is found, where no other has its id.
find-added :
    (ps : List Problem) (p : Problem)
    → is_live_at p.id p ≡ true
    → is_there p.id ps ≡ false
    → find (is_live_at p.id) (ps ++ (p ∷ [])) ≡ some p
find-added [] p live h = ground arith
find-added (q ∷ qs) p live h = ground (arith, find-added qs p live)

module _ (world : World) where
  open world use {now, new_id, faulty}

  -- The problem of a request, as its author wrote it and the time says.
  abbrev pub created : CreateProblemRequest → String → ProblemDetailResponse
  created req author_id = record {
    id = new_id 0;
    author_id = author_id;
    title = req.title;
    description = req.description;
    difficulty = req.difficulty;
    tags = req.tags;
    created_at = now;
    updated_at = now;
    limit = req.limit;
  }

  pub insert_problem-ok :
      (p : Problem) (t t' : Tables)
      → insert_problem world p t ≡ ok t'
      → (is_there p.id t.problems ≡ false) × (t' ≡ record t { problems = t.problems ++ (p ∷ []) })
  unfolding insert_problem
  insert_problem-ok p t t' h = ground arith

  committed_body :
      {A : Type 0} (t t' : Tables) (body : Result Tables RepoError) (a b : A)
      → in_transaction world t body a ≡ (t', ok b)
      → body ≡ ok t'
  committed_body t t' body a b h = elim (in_transaction-Transacted world t body a) [
    | inl (e, p) ↦ absurd (cc)
    | inr (u, p, q) ↦ cc
  ]

  committed_answer :
      {A : Type 0} (t t' : Tables) (body : Result Tables RepoError) (a b : A)
      → in_transaction world t body a ≡ (t', ok b)
      → b ≡ a
  unfolding in_transaction committed written
  committed_answer t t' (err e) a b h = ground arith
  committed_answer t t' (ok u) a b h = ground arith

  -- The tags of a problem, in the order of their rows, are those of its rows in any order.
  tally-tags_of :
      (reader : World) (id : String) (rows : List ProblemTag) (q : String → Bool)
      → Rearranges reader.tag_rows
      → tally q (tags_of id (reader.tag_rows rows)) ≡ tally q (tags_of id rows)
  tally-tags_of reader id rows q h =
      by_row (reader.tag_rows rows)
      ∙ h (λ (r : ProblemTag). str_eq r.problem_id id && q r.tag_id) rows
      ∙ sym (by_row rows)
    where
      by_row :
          (rs : List ProblemTag)
          → tally q (tags_of id rs)
            ≡ tally (λ (r : ProblemTag). str_eq r.problem_id id && q r.tag_id) rs
      by_row [] = refl
      by_row (r ∷ rs) = ground (arith, by_row rs)

  -- The tags that a request names, in some order.
  abbrev pub ReadAs :
      CreateProblemRequest → String → Result ProblemDetailResponse RepoError → Type 0
  ReadAs req author_id out =
      (tags : List String) × ((q : String → Bool) → tally q tags ≡ tally q req.tags)
      × (out ≡ ok (record (created req author_id) { tags = tags }))

  -- What the new row and its tags read as, for a reader whose queries do not fail.
  read_back :
      (reader : World) (req : CreateProblemRequest) (author_id : String) (t : Tables)
      → reader.faulty Statement.find_problem ≡ false
      → reader.faulty Statement.find_tags ≡ false
      → is_there (new_id 0) t.problems ≡ false
      → tags_of (new_id 0) t.problems_tags ≡ []
      → Rearranges reader.tag_rows
      → let t' : Tables = record t {
        problems = t.problems ++ (new_problem world req author_id ∷ []);
        problems_tags = t.problems_tags ++ rows_of (new_id 0) req.tags;
      } in
        ReadAs req author_id (get_by_id reader (new_id 0) t' t')
  unfolding get_by_id found_problem new_problem
  read_back reader req author_id t f g fresh bare any_order =
      let p = new_problem world req author_id in
      let live : is_live_at p.id p ≡ true = rw (str_eq_refl (new_id 0)) refl in
      let found = find-added t.problems p live fresh in
      let rows = t.problems_tags ++ rows_of (new_id 0) req.tags in
      let tags =
        tags_of-append (new_id 0) t.problems_tags (rows_of (new_id 0) req.tags)
        ∙ rw bare (tags_of-rows_of (new_id 0) req.tags) in
      (
        tags_of (new_id 0) (reader.tag_rows rows),
        (λ q. tally-tags_of reader (new_id 0) rows q any_order ∙ ap (tally q) tags),
        rw (f, g, found) refl,
      )

  -- Where no row of a tag is left over under the new id, a problem that has been created is read back
  -- with the title, the description, the difficulty and the limits of the request, its tags, each as
  -- often as the request names it and in any order, its author and its time, by whoever reads it
  -- without a failing query.
  pub get_by_id-create :
      (req : CreateProblemRequest) (author_id id : String) (t t' : Tables) (reader : World)
      → tags_of (new_id 0) t.problems_tags ≡ []
      → reader.faulty Statement.find_problem ≡ false
      → reader.faulty Statement.find_tags ≡ false
      → Rearranges reader.tag_rows
      → create world req author_id t ≡ (t', ok id)
      → (id ≡ new_id 0) × ReadAs req author_id (get_by_id reader id t' t')
  unfolding create
  get_by_id-create req author_id id t t' reader bare f g any_order h =
      let p = new_problem world req author_id in
      let body = committed_body t t' _ (new_id 0) id h in
      let (mid, e, k) = and_then-ok (insert_problem world p t) _ t' body in
      let (fresh, m) = insert_problem-ok p t mid e in
      let whole =
        insert_tags-ok world (new_id 0) 0 req.tags mid t' k
        ∙ ap (λ (u : Tables). with_rows u (u.problems_tags ++ rows_of (new_id 0) req.tags)) m in
      let answer = committed_answer t t' _ (new_id 0) id h in
      (
        answer,
        subst (λ (r : String × Tables). ReadAs req author_id (get_by_id reader r.0 r.1 r.1))
            (λ i. (sym answer i, sym whole i))
            (read_back reader req author_id t f g fresh bare any_order),
      )

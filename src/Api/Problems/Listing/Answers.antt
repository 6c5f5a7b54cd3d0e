-- ===== src/Api/Problems/Listing/Answers.antt =====
-- services/crates/api_server_db/src/repositories/problems.rs: where an error of `list` comes from.
use oj_monorepo.Base.{
  ℕ, ◌≡◌, refl, String, List, [], ◌∷◌, tally, true, Bool-cases, inl, inr, ◌⊎◌, Option, none, some,
  Result, ok, err, if◌then◌else◌,
}
use oj_monorepo.Api.Store.{Problem, ProblemTag, Tables, RepoError, Statement, World}
use oj_monorepo.Api.Problems.Listing.{
  ListProblemQueries, ListProblemResponse, tag_filtered_ids, selects, assembled, page_rows, fetched,
  listed, list, asks_for_tags,
}

module _ (world : World) where
  open world use {faulty}

  -- An error comes of a statement that fails, and of nothing else.
  abbrev pub Faulted : Result ListProblemResponse RepoError → Type 0
  Faulted out = (s : Statement) × (faulty s ≡ true) × (out ≡ err RepoError.internal)

  abbrev pub Answers : Result ListProblemResponse RepoError → Type 0
  Answers out = Faulted out ⊎ ((r : ListProblemResponse) × (out ≡ ok r))

  guarded :
      (s : Statement) (rest : Result ListProblemResponse RepoError)
      → Answers rest
      → Answers (if faulty s then err RepoError.internal else rest)
  guarded s rest h = elim (Bool-cases (faulty s)) [
    | inl b ↦ rw b (inl (s, b, refl))
    | inr b ↦ rw b h
  ]

  assembled-Answers :
      (ps : List Problem) (rows : List ProblemTag) (total : ℕ)
      → Answers (assembled world ps rows total)
  unfolding assembled
  assembled-Answers [] rows total = inr (_, refl)
  assembled-Answers (p ∷ ps) rows total = guarded Statement.find_tags _ (inr (_, refl))

  fetched-Answers :
      (q : ListProblemQueries) (ids : Option (List String)) (counted paged t : Tables)
      → Answers (fetched world q ids counted paged t)
  unfolding fetched
  fetched-Answers q ids counted paged t = elim (Bool-cases (faulty Statement.count_problems)) [
    | inl b ↦ rw b (inl (Statement.count_problems, b, refl))
    | inr b ↦ rw b (
        guarded Statement.fetch_page _ (
          assembled-Answers (page_rows world q ids paged) (world.tag_rows t.problems_tags)
            (tally (selects world q ids) counted.problems)))
  ]

  listed-Answers :
      (q : ListProblemQueries) (ids : Option (List String)) (counted paged t : Tables)
      → Answers (listed world q ids counted paged t)
  unfolding listed
  listed-Answers q none counted paged t = fetched-Answers q none counted paged t
  listed-Answers q (some []) counted paged t = inr (_, refl)
  listed-Answers q (some (id ∷ ids)) counted paged t =
      fetched-Answers q (some (id ∷ ids)) counted paged t

  pub list-Answers :
      (q : ListProblemQueries) (filtered counted paged t : Tables)
      → Answers (list world q filtered counted paged t)
  unfolding list
  list-Answers q filtered counted paged t = elim (Bool-cases (asks_for_tags q.tag)) [
    | inl b ↦ rw b (
        guarded Statement.filter_by_tags _
          (listed-Answers q (tag_filtered_ids q.tag filtered.problems_tags) counted paged t))
    | inr b ↦
        rw b (listed-Answers q (tag_filtered_ids q.tag filtered.problems_tags) counted paged t)
  ]

-- ===== src/Api/Problems/Listing/Pages.antt =====
-- services/crates/api_server_db/src/repositories/problems.rs: `list` against a description of what
-- it shows.
use oj_monorepo.Base.{
  subst, true, keep-same, tally-same, keep_none, none_kept, drop-nil, take-nil, length-take,
  length-map, ℕ, ◌*◌, ◌<◌, ◌≤◌, u64_mod, ok-inj, ◌≡◌, refl, sym, ap, ◌∙◌, arith, ◌==◌, String, List,
  [], ◌∷◌, map, keep, tally, length, take, drop, ◌&&◌, ◌||◌, Bool, false, Bool-cases, inl, inr, ◌⊎◌,
  Option, none, some, ok,
}
use native.Mathlib.Nat.{mod-eq_of_lt}
use oj_monorepo.Api.Store.{
  difficulty_code, Problem, ProblemTag, Tables, Statement, World, Rearranges, is_live,
}
use oj_monorepo.Api.Problems.Listing.{
  ListProblemQueries, ListProblemResponse, or_default, limit_of, offset_of, is_in, tag_filtered_ids,
  passes, by_age, item_of, selects, assembled, page_rows, fetched, listed, list, asks_for_tags,
}
use oj_monorepo.Api.Problems.Listing.Tagged.{IsKeyed, IsNodup, has_all, tagged_ids-has_all}
use oj_monorepo.Api.Problems.Listing.Order.{IsByAge, by_age-IsByAge, tally-by_age}
use oj_monorepo.Api.Problems.Listing.Answers.{Faulted, list-Answers}

module _ (world : World) where
  open world use {contains, faulty}

  -- The problems that a query asks for: not deleted, and with the title, the difficulty and every
  -- tag that it names.
  abbrev pub is_wanted : ListProblemQueries → List ProblemTag → Problem → Bool
  is_wanted q rows p =
      is_live p
      && passes (contains p.title) q.query
      && passes (λ d. difficulty_code p.difficulty == difficulty_code d) q.difficulty
      && passes (λ tags. has_all tags rows p.id) q.tag

  -- The tags that a query names are all different.
  abbrev pub HasDistinctTags : Option (List String) → Type 0
  HasDistinctTags none = Unit
  HasDistinctTags (some tags) = IsNodup tags

  passes-tagged :
      (tag : Option (List String)) (rows : List ProblemTag) (id : String)
      → IsKeyed rows
      → HasDistinctTags tag
      → passes (λ l. is_in l id) (tag_filtered_ids tag rows)
        ≡ passes (λ tags. has_all tags rows id) tag
  unfolding tag_filtered_ids
  passes-tagged none rows id k d = refl
  passes-tagged (some []) rows id k d = refl
  passes-tagged (some (tag ∷ tags)) rows id k d = tagged_ids-has_all rows tag tags id k d

  selects-is_wanted :
      (q : ListProblemQueries) (rows : List ProblemTag) (p : Problem)
      → IsKeyed rows
      → HasDistinctTags q.tag
      → selects world q (tag_filtered_ids q.tag rows) p ≡ is_wanted q rows p
  unfolding selects
  selects-is_wanted q rows p k d =
      ap
        (λ b.
          is_live p
          && passes (contains p.title) q.query
          && passes (λ d'. difficulty_code p.difficulty == difficulty_code d') q.difficulty
          && b)
        (passes-tagged q.tag rows p.id k d)

module _ (world : World) where
  open world use {faulty, problem_rows, tag_rows}

  abbrev selected :
      ListProblemQueries → Option (List String) → Tables → Tables → Tables → ListProblemResponse
  selected q ids counted paged t = record {
    problems = map (item_of (tag_rows t.problems_tags)) (page_rows world q ids paged);
    total = tally (selects world q ids) counted.problems;
  }

  assembled-ok :
      (ps : List Problem) (rows : List ProblemTag) (total : ℕ) (r : ListProblemResponse)
      → assembled world ps rows total ≡ ok r
      → r ≡ record { problems = map (item_of rows) ps; total = total }
  unfolding assembled
  assembled-ok [] rows total r h = sym (ok-inj _ r h)
  assembled-ok (p ∷ ps) rows total r h = ground arith

  fetched-ok :
      (q : ListProblemQueries) (ids : Option (List String)) (counted paged t : Tables)
      (r : ListProblemResponse)
      → fetched world q ids counted paged t ≡ ok r
      → r ≡ selected q ids counted paged t
  unfolding fetched
  fetched-ok q ids counted paged t r h =
      elim (Bool-cases (faulty Statement.count_problems || faulty Statement.fetch_page)) [
        | inl b ↦ absurd (ground arith)
        | inr b ↦
            assembled-ok (page_rows world q ids paged) (tag_rows t.problems_tags)
              (tally (selects world q ids) counted.problems) r (rw b at h)
      ]

  selects_none : (q : ListProblemQueries) (p : Problem) → selects world q (some []) p ≡ false
  unfolding selects
  selects_none q p = ground arith

  rows_none :
      (ps : List Problem)
      → tally (λ (_ : Problem). true) ps ≡ tally (λ (_ : Problem). true) []
      → ps ≡ []
  rows_none [] h = refl
  rows_none (p ∷ ps) h = absurd (omega (arith, h))

  selected_none :
      (q : ListProblemQueries) (counted paged t : Tables)
      → Rearranges problem_rows
      → selected q (some []) counted paged t ≡ record { problems = []; total = 0 }
  unfolding by_age
  selected_none q counted paged t h =
      rw
        (
          keep_none (selects world q (some [])) paged.problems (selects_none q),
          none_kept (selects world q (some [])) counted.problems (selects_none q),
          rows_none (problem_rows []) (h (λ _. true) []),
          drop-nil {A = Problem} (offset_of q),
          take-nil {A = Problem} (limit_of q),
        )
        refl

  listed-ok :
      (q : ListProblemQueries) (ids : Option (List String)) (counted paged t : Tables)
      (r : ListProblemResponse)
      → Rearranges problem_rows
      → listed world q ids counted paged t ≡ ok r
      → r ≡ selected q ids counted paged t
  unfolding listed
  listed-ok q none counted paged t r k h = fetched-ok q none counted paged t r h
  listed-ok q (some []) counted paged t r k h =
      sym (ok-inj _ r h) ∙ sym (selected_none q counted paged t k)
  listed-ok q (some (id ∷ ids)) counted paged t r k h =
      fetched-ok q (some (id ∷ ids)) counted paged t r h

  list-ok :
      (q : ListProblemQueries) (filtered counted paged t : Tables) (r : ListProblemResponse)
      → Rearranges problem_rows
      → list world q filtered counted paged t ≡ ok r
      → r ≡ selected q (tag_filtered_ids q.tag filtered.problems_tags) counted paged t
  unfolding list
  list-ok q filtered counted paged t r k h =
      elim (Bool-cases (asks_for_tags q.tag && faulty Statement.filter_by_tags)) [
        | inl b ↦ absurd (ground arith)
        | inr b ↦
            listed-ok q (tag_filtered_ids q.tag filtered.problems_tags) counted paged t r k
              (rw b at h)
      ]

  -- A page of the problems that are wanted, the oldest first, each with its tags, and how many there
  -- are: what is wanted goes by the tags at the filter, and the number, the page and the tags that are
  -- shown by the tables at the query for them.
  abbrev pub IsShown :
      ListProblemQueries → Tables → Tables → Tables → Tables → ListProblemResponse → Type 0
  IsShown q filtered counted paged t r =
      (order : List Problem) × (rows : List ProblemTag) × IsByAge order
      × ((c : Problem → Bool)
          → tally c order
            ≡ tally c (keep (is_wanted world q filtered.problems_tags) paged.problems))
      × ((c : ProblemTag → Bool) → tally c rows ≡ tally c t.problems_tags)
      × (r.problems
          ≡ map (item_of rows) (take (limit_of q) (drop (or_default q.page 0 * limit_of q) order)))
      × (r.total ≡ tally (is_wanted world q filtered.problems_tags) counted.problems)

  selected-IsShown :
      (q : ListProblemQueries) (filtered counted paged t : Tables)
      → IsKeyed filtered.problems_tags
      → HasDistinctTags world q.tag
      → or_default q.page 0 * limit_of q < u64_mod
      → Rearranges problem_rows
      → Rearranges tag_rows
      → IsShown q filtered counted paged t
          (selected q (tag_filtered_ids q.tag filtered.problems_tags) counted paged t)
  selected-IsShown q filtered counted paged t k d small any_order any_tags =
      let rows = filtered.problems_tags in
      let same = λ (p : Problem). selects-is_wanted world q rows p k d in
      let wanted = keep (is_wanted world q rows) paged.problems in
      let kept = keep-same _ (is_wanted world q rows) paged.problems same in
      let at : offset_of q ≡ or_default q.page 0 * limit_of q = mod-eq_of_lt small in
      (
        by_age (problem_rows wanted),
        tag_rows t.problems_tags,
        by_age-IsByAge (problem_rows wanted),
        (λ c. tally-by_age c (problem_rows wanted) ∙ any_order c wanted),
        (λ c. any_tags c t.problems_tags),
        rw (kept, at) refl,
        tally-same _ (is_wanted world q rows) counted.problems same,
      )

  -- Where no tag is asked for twice, the offset of the page fits in 64 bits, and the database gives
  -- every row as often as it is there, in any order, a list fails only where a statement does.
  -- Otherwise it is the page asked for of the problems that are not deleted and have the title, the
  -- difficulty and every tag asked for, the oldest first, each with its tags; the total counts all
  -- of them, whatever the page; and a page has at most the limit, and never more than 100 problems.
  -- Each of the four queries sees the tables of its own time.
  pub list-IsShown :
      (q : ListProblemQueries) (filtered counted paged t : Tables)
      → IsKeyed filtered.problems_tags
      → HasDistinctTags world q.tag
      → or_default q.page 0 * limit_of q < u64_mod
      → Rearranges problem_rows
      → Rearranges tag_rows
      → Faulted world (list world q filtered counted paged t)
        ⊎ ((r : ListProblemResponse) × (list world q filtered counted paged t ≡ ok r)
            × IsShown q filtered counted paged t r
            × (length r.problems ≤ limit_of q)
            × (length r.problems ≤ 100))
  list-IsShown q filtered counted paged t k d small any_order any_tags =
      elim (list-Answers world q filtered counted paged t) [
        | inl f ↦ inl f
        | inr (r, e) ↦
            let ids = tag_filtered_ids q.tag filtered.problems_tags in
            let same = list-ok q filtered counted paged t r any_order e in
            let within : length r.problems ≤ limit_of q =
              subst (λ (o : ListProblemResponse). length o.problems ≤ limit_of q) (sym same)
                (page_within q (page_rows world q ids paged) t (length-take (limit_of q) _)) in
            inr (
              r,
              e,
              subst (IsShown q filtered counted paged t) (sym same)
                  (selected-IsShown q filtered counted paged t k d small any_order any_tags),
              within,
              hundred (length r.problems) within,
            )
      ]
    where
      page_within :
          (q : ListProblemQueries) (ps : List Problem) (t : Tables)
          → length ps ≤ limit_of q
          → length (map (item_of (tag_rows t.problems_tags)) ps) ≤ limit_of q
      page_within q ps t h = omega (arith, length-map (item_of (tag_rows t.problems_tags)) ps, h)

      hundred : (n : ℕ) → n ≤ limit_of q → n ≤ 100
      hundred n h = ground arith

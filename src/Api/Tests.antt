-- ===== src/Api/Tests.antt =====
-- The repository and the routes of the problems on small tables.
use oj_monorepo.Base.{
  drop, ◌≡◌, refl, ◌⊎◌, ◌≤◌, length, arith, String, List, [], ◌∷◌, map, Option, none, some, ok, err,
}
use oj_monorepo.Api.Store.{
  Difficulty, CaseType, Tables, RepoError, tags_of, found_problem, in_transaction,
}
use oj_monorepo.Api.Problems.{CreateProblemRequest, UpdateProblemRequest, create, get_by_id, update}
use oj_monorepo.Api.Problems.History
use oj_monorepo.Api.Problems.Creation.{ReadAs, get_by_id-create}
use oj_monorepo.Api.Problems.Listing.{
  ListProblemQueries, ListProblemResponse, limit_of, item_of, list, visit_str,
}
use oj_monorepo.Api.Problems.Listing.Answers.{Faulted}
use oj_monorepo.Api.Problems.Listing.Pages.{IsShown, list-IsShown}
use oj_monorepo.Api.Problems.Changes.{Updated, Deleted}
use oj_monorepo.Api.Cases.{TestCaseInput, get_by_problem_id}
use oj_monorepo.Api.Routes.{update_problem, delete_problem, replace_test_cases, get_test_cases}
use oj_monorepo.Api.Routes.Authority.{Allowed, Replaced, SeesCases, author_only}
use oj_monorepo.Api.Samples.{world, problem, tables}

abbrev everything : ListProblemQueries
everything = record { limit = none; page = none; query = none; difficulty = none; tag = none }

abbrev with_tags : List String → ListProblemQueries
with_tags tags = record everything { tag = some tags }

abbrev listed_ids : ListProblemQueries → Option (List String)
listed_ids q = elim (list world q tables tables tables tables) [
  | ok r ↦ some (map (λ i. i.id) r.problems)
  | err e ↦ none
]

-- The oldest first, and without the deleted one.
list_everything : listed_ids everything ≡ some ("p1" ∷ "p2" ∷ [])
unfolding list
list_everything = refl

list_tagged : listed_ids (with_tags ("y" ∷ "x" ∷ [])) ≡ some ("p1" ∷ [])
unfolding list
list_tagged = refl

-- A tag that is asked for twice is asked for in vain: the rows are counted once.
list_tag_twice : listed_ids (with_tags ("x" ∷ "x" ∷ [])) ≡ some []
unfolding list
list_tag_twice = refl

-- The offset of a page wraps around at 64 bits.
list_page_wraps :
    listed_ids (record everything { limit = some 2; page = some 9_223_372_036_854_775_808 })
    ≡ some ("p1" ∷ "p2" ∷ [])
unfolding list
list_page_wraps = refl

visit_str_trims : visit_str (λ s. some s) " a, b ,,c" ≡ some (some ("a" ∷ "b" ∷ "c" ∷ []))
unfolding visit_str
visit_str_trims = refl

visit_str_blank : visit_str (λ s. some s) " , " ≡ some none
unfolding visit_str
visit_str_blank = refl

-- The second problem goes while the list is made: it is counted, but not shown.
abbrev later : Tables
later = record tables { problems = drop 1 tables.problems }

abbrev with_both : ListProblemQueries
with_both = with_tags ("y" ∷ "x" ∷ [])

list_between :
    list world everything tables tables later tables
    ≡ ok (record {
      problems = item_of tables.problems_tags (problem "p1" "first" 10 none) ∷ [];
      total = 2;
    })
unfolding list item_of
list_between = refl

list-IsShown_example :
    Faulted world (list world with_both tables tables later tables)
    ⊎ ((r : ListProblemResponse) × (list world with_both tables tables later tables ≡ ok r)
        × IsShown world with_both tables tables later tables r
        × (length r.problems ≤ limit_of with_both)
        × (length r.problems ≤ 100))
list-IsShown_example =
    list-IsShown world with_both tables tables later tables (refl, (refl, (refl, (refl, tt))))
      (refl, (refl, tt)) (omega arith) (λ c ps. refl) (λ c rs. refl)

abbrev a_request : CreateProblemRequest
a_request = record {
  title = "sum";
  description = "add";
  difficulty = Difficulty.beginner;
  limit = record { cpu_time_ms = 1; wall_time_ms = 2; memory_bytes = 3; output_bytes = 4 };
  tags = "y" ∷ "x" ∷ [];
}

after_create : Tables
after_create = (create world a_request "cat" tables).0

create_runs : create world a_request "cat" tables ≡ (after_create, ok "n")
unfolding create after_create in_transaction
create_runs = refl

get_by_id-create_example :
    ◌≡◌ {A = String} "n" "n"
    × ReadAs world a_request "cat" (get_by_id world "n" after_create after_create)
get_by_id-create_example =
    get_by_id-create world a_request "cat" "n" tables after_create world refl refl refl
      (λ c rs. refl) create_runs

abbrev a_change : UpdateProblemRequest
a_change = record {
  title = some "new";
  description = none;
  difficulty = none;
  limit = some (record {
    cpu_time_ms = none;
    wall_time_ms = some 9;
    memory_bytes = none;
    output_bytes = none;
  });
  tags = some ("y" ∷ []);
}

-- A stranger may not; nobody changes what is deleted.
update_forbidden : (update world "p1" "eve" a_change tables tables).1 ≡ err RepoError.forbidden
unfolding update found_problem in_transaction
update_forbidden = refl

update_deleted : (update world "p3" "ann" a_change tables tables).1 ≡ err RepoError.not_found
unfolding update found_problem in_transaction
update_deleted = refl

update_runs :
    tags_of "p1" ((update world "p1" "ann" a_change tables tables).0).problems_tags ≡ "y" ∷ []
unfolding update found_problem in_transaction
update_runs = refl

-- The tag "z" is not there, and the whole update is undone.
update_rolls_back :
    update world "p1" "ann" (record a_change { tags = some ("y" ∷ "z" ∷ []) }) tables tables
    ≡ (tables, err RepoError.internal)
unfolding update found_problem in_transaction
update_rolls_back = refl

author_only_example :
    ((req : UpdateProblemRequest)
      → Allowed world "p1" "ann" tables tables
          (Updated world "p1" req tables)
          (update_problem world "ann" "p1" req tables tables))
    × Allowed world "p1" "ann" tables tables
        (Deleted world "p1" tables)
        (delete_problem world "ann" "p1" tables tables)
    × ((cases : List TestCaseInput)
        → Allowed world "p1" "ann" tables tables
            (Replaced world "p1" cases tables)
            (replace_test_cases world "ann" "p1" cases tables tables tables))
    × SeesCases world "p1" "ann" tables tables (get_test_cases world "ann" "p1" tables tables)
author_only_example = author_only world "p1" "ann" tables tables tables (λ q cs. refl)

-- A stranger sees the example.
get_test_cases_runs :
    get_test_cases world "eve" "p1" tables tables
    ≡ ok (200, record { id = "c1"; input = "1"; output = "2"; case_type = CaseType.example } ∷ [])
unfolding get_test_cases found_problem get_by_problem_id
get_test_cases_runs = refl

-- A problem is made, an editor who has seen the tables before changes one that is then deleted, and the
-- deletion comes first.
abbrev edits : List History.Op
edits =
    History.Op.made world a_request "cat"
    ∷ History.Op.removed world "p1" "ann" tables
    ∷ History.Op.edited world "p1" "ann" a_change tables
    ∷ []

run-Preserves_example : History.Preserves "p1" tables (History.run edits tables)
run-Preserves_example =
    History.run-Preserves edits "p1" tables
      ((refl, (refl, (refl, (refl, tt)))), (refl, (refl, (refl, tt))))

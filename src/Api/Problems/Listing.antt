-- ===== src/Api/Problems/Listing.antt =====
-- services/crates/api_server_db/src/repositories/problems.rs: `list`, with the query string of
-- models/http.rs. The tables at
-- its four queries are four arguments.
pub mod Tagged
pub mod Answers
pub mod Order
pub mod Pages
use Prim.Native.Char.{Char, code}
use Prim.Native.String.{String, [] as no_text, ◌∷◌ as char_first}
use oj_monorepo.Base.{
  ℕ, ◌*◌, ◌%◌, min, leb, ◌==◌, u64_mod, str_eq, List, [], ◌∷◌, map, any, keep, tally, length, take,
  drop, not, ◌&&◌, ◌||◌, Bool, true, false, Option, none, some, Result, ok, err, and_then,
  if◌then◌else◌,
}
use oj_monorepo.Auth.Registration.{is_whitespace}
use oj_monorepo.Api.Store.{
  Difficulty, difficulty_code, Problem, ProblemTag, Tables, RepoError, Statement, World, is_live,
  tags_of,
}

pub record ListProblemQueries : Type 0 where
  pub limit : Option ℕ
  pub page : Option ℕ
  pub query : Option String
  pub difficulty : Option Difficulty
  pub tag : Option (List String)

pub record ListProblemResponseItem : Type 0 where
  pub id : String
  pub title : String
  pub difficulty : Difficulty
  pub tags : List String

pub record ListProblemResponse : Type 0 where
  pub problems : List ListProblemResponseItem
  pub total : ℕ

-- `split(',')`.
abbrev prepend : Char → List String → List String
prepend c [] = char_first c no_text ∷ []
prepend c (part ∷ parts) = char_first c part ∷ parts

split_commas : String → List String
split_commas no_text = no_text ∷ []
split_commas (char_first c s) =
    let rest = split_commas s in if code c == 44 then no_text ∷ rest else prepend c rest

is_empty : String → Bool
is_empty no_text = true
is_empty (char_first c s) = false

-- `str::trim`.
trim_start : String → String
trim_start no_text = no_text
trim_start (char_first c s) =
    let rest = trim_start s in if is_whitespace (code c) then rest else char_first c s

trim_end : String → String
unfolding is_empty
trim_end no_text = no_text
trim_end (char_first c s) =
    let rest = trim_end s in
    if is_whitespace (code c) && is_empty rest then no_text else char_first c rest

-- `map(Uuid::parse_str).collect::<Result<_, _>>()`; `none` is the error of the deserializer.
unfoldable pub parse_all : (String → Option String) → List String → Option (List String)
parse_all parse [] = some []
parse_all parse (s ∷ ss) = elim (parse s) [
  | none ↦ none
  | some id ↦ elim (parse_all parse ss) [ none ↦ none | some ids ↦ some (id ∷ ids) ]
]

unfoldable pub none_if_empty : Option (List String) → Option (Option (List String))
none_if_empty none = none
none_if_empty (some []) = some none
none_if_empty (some (id ∷ ids)) = some (some (id ∷ ids))

-- `TagVisitor::visit_str` and `visit_seq`.
unfoldable pub visit_str : (String → Option String) → String → Option (Option (List String))
unfolding split_commas trim_start trim_end parse_all none_if_empty is_empty
visit_str parse v = none_if_empty (
    parse_all parse
      (keep (λ s. not (is_empty s)) (map (λ s. trim_end (trim_start s)) (split_commas v))))

unfoldable pub visit_seq : (String → Option String) → List String → Option (Option (List String))
unfolding parse_all none_if_empty is_empty
visit_seq parse vs = none_if_empty (parse_all parse (keep (λ s. not (is_empty s)) vs))

abbrev pub or_default : Option ℕ → ℕ → ℕ
or_default none d = d
or_default (some n) d = n

abbrev pub limit_of : ListProblemQueries → ℕ
limit_of q = min (or_default q.limit 20) 100

-- `page * limit` on u64, as a release build computes it.
abbrev pub offset_of : ListProblemQueries → ℕ
offset_of q = (or_default q.page 0 * limit_of q) % u64_mod

-- GROUP BY: each problem id once.
unfoldable pub distinct : List String → List String
distinct [] = []
distinct (x ∷ xs) = x ∷ keep (λ y. not (str_eq y x)) (distinct xs)

-- `TagId.is_in(tag_ids)`.
abbrev pub is_in : List String → String → Bool
is_in ids id = any (str_eq id) ids

-- HAVING COUNT(tag_id) = the number of tags asked for, over the rows of one problem.
unfoldable pub has_count : List String → List ProblemTag → String → Bool
has_count tag_ids rows id =
    tally (λ (r : ProblemTag). str_eq r.problem_id id && is_in tag_ids r.tag_id) rows
    == length tag_ids

unfoldable pub tagged_ids : List String → List ProblemTag → List String
unfolding distinct has_count
tagged_ids tag_ids rows = keep (has_count tag_ids rows) (
    distinct (
      map (λ (r : ProblemTag). r.problem_id)
        (keep (λ (r : ProblemTag). is_in tag_ids r.tag_id) rows)))

unfoldable pub tag_filtered_ids : Option (List String) → List ProblemTag → Option (List String)
unfolding tagged_ids
tag_filtered_ids none rows = none
tag_filtered_ids (some []) rows = none
tag_filtered_ids (some (tag ∷ tags)) rows = some (tagged_ids (tag ∷ tags) rows)

abbrev pub asks_for_tags : Option (List String) → Bool
asks_for_tags none = false
asks_for_tags (some []) = false
asks_for_tags (some (tag ∷ tags)) = true

-- `if let Some(x) = .. { select = select.filter(..) }`.
abbrev pub passes {ℓ} : {A : Type ℓ} → (A → Bool) → Option A → Bool
passes test none = true
passes test (some a) = test a

-- ORDER BY created_at.
abbrev pub insert_by_age : Problem → List Problem → List Problem
insert_by_age p [] = p ∷ []
insert_by_age p (q ∷ qs) =
    let rest = insert_by_age p qs in if leb p.created_at q.created_at then p ∷ q ∷ qs else q ∷ rest

unfoldable pub by_age : List Problem → List Problem
by_age [] = []
by_age (p ∷ ps) = insert_by_age p (by_age ps)

unfoldable pub item_of : List ProblemTag → Problem → ListProblemResponseItem
item_of rows p = record {
  id = p.id;
  title = p.title;
  difficulty = p.difficulty;
  tags = tags_of p.id rows;
}

module _ (world : World) where
  open world use {contains, faulty, problem_rows, tag_rows}

  unfoldable pub selects : ListProblemQueries → Option (List String) → Problem → Bool
  selects q ids p =
      is_live p
      && passes (contains p.title) q.query
      && passes (λ d. difficulty_code p.difficulty == difficulty_code d) q.difficulty
      && passes (λ l. is_in l p.id) ids

  -- The tags of the returned problems are fetched if there are any.
  unfoldable pub assembled :
      List Problem → List ProblemTag → ℕ → Result ListProblemResponse RepoError
  unfolding item_of
  assembled [] rows total = ok (record { problems = []; total = total })
  assembled (p ∷ ps) rows total =
      if faulty Statement.find_tags
      then err RepoError.internal
      else ok (record { problems = map (item_of rows) (p ∷ ps); total = total })

  -- Problems of one age come in the order of the rows, which is free.
  abbrev pub page_rows : ListProblemQueries → Option (List String) → Tables → List Problem
  page_rows q ids t =
      take (limit_of q)
        (drop (offset_of q) (by_age (problem_rows (keep (selects q ids) t.problems))))

  -- The tables when the problems are counted, when the page is fetched and when its tags are.
  unfoldable pub fetched :
      ListProblemQueries
      → Option (List String)
      → Tables
      → Tables
      → Tables
      → Result ListProblemResponse RepoError
  unfolding selects assembled by_age
  fetched q ids counted paged t =
      if faulty Statement.count_problems || faulty Statement.fetch_page
      then err RepoError.internal
      else assembled (page_rows q ids paged) (tag_rows t.problems_tags)
          (tally (selects q ids) counted.problems)

  -- The early return: no problem has the tags.
  unfoldable pub listed :
      ListProblemQueries
      → Option (List String)
      → Tables
      → Tables
      → Tables
      → Result ListProblemResponse RepoError
  unfolding fetched
  listed q none counted paged t = fetched q none counted paged t
  listed q (some []) counted paged t = ok (record { problems = []; total = 0 })
  listed q (some (id ∷ ids)) counted paged t = fetched q (some (id ∷ ids)) counted paged t

  -- `list`; the first tables are those of the filter by tags.
  unfoldable pub list :
      ListProblemQueries → Tables → Tables → Tables → Tables → Result ListProblemResponse RepoError
  unfolding tag_filtered_ids listed
  list q filtered counted paged t =
      if asks_for_tags q.tag && faulty Statement.filter_by_tags
      then err RepoError.internal
      else listed q (tag_filtered_ids q.tag filtered.problems_tags) counted paged t

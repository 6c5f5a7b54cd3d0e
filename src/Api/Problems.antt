-- ===== src/Api/Problems.antt =====
-- services/crates/api_server_db/src/repositories/problems.rs: `create`, `get_stat`, `get_by_id`,
-- `update` and `delete`; the child Listing has `list`. Where an operation reads before it writes,
-- `seen` are the tables at its first query, and `t` those at the writes: what other requests do in
-- between is left open.
pub mod Listing
pub mod Rows
pub mod Changes
pub mod Creation
pub mod Keys
pub mod Persistence
pub mod History
use oj_monorepo.Base.{
  ℕ, ◌+◌, String, str_eq, List, [], ◌∷◌, ◌++◌, map, any, keep, tally, not, ◌&&◌, ◌||◌, Bool, Option,
  none, some, Result, ok, err, and_then, if◌then◌else◌,
}
use oj_monorepo.Api.Store.{
  Difficulty, Problem, ProblemTag, Tables, RepoError, Statement, World, is_live, has_tag, tags_of,
  found_problem, written, in_transaction,
}

pub record ProblemLimit : Type 0 where
  pub cpu_time_ms : ℕ
  pub wall_time_ms : ℕ
  pub memory_bytes : ℕ
  pub output_bytes : ℕ

pub record CreateProblemRequest : Type 0 where
  pub title : String
  pub description : String
  pub difficulty : Difficulty
  pub limit : ProblemLimit
  pub tags : List String

pub record ProblemDetailResponse : Type 0 where
  pub id : String
  pub author_id : String
  pub title : String
  pub description : String
  pub difficulty : Difficulty
  pub tags : List String
  pub created_at : ℕ
  pub updated_at : ℕ
  pub limit : ProblemLimit

pub record UpdateProblemLimit : Type 0 where
  pub cpu_time_ms : Option ℕ
  pub wall_time_ms : Option ℕ
  pub memory_bytes : Option ℕ
  pub output_bytes : Option ℕ

pub record UpdateProblemRequest : Type 0 where
  pub title : Option String
  pub description : Option String
  pub difficulty : Option Difficulty
  pub limit : Option UpdateProblemLimit
  pub tags : Option (List String)

-- `if let Some(x) = .. { active.column = Set(x) }`.
abbrev pub or_keep {ℓ} : {A : Type ℓ} → Option A → A → A
or_keep none a = a
or_keep (some b) a = b

-- The same for a limit, which stands in an option of its own.
abbrev pub limit_or_keep : Option UpdateProblemLimit → (UpdateProblemLimit → Option ℕ) → ℕ → ℕ
limit_or_keep none column a = a
limit_or_keep (some limit) column a = or_keep (column limit) a

-- The columns that an update sets; the last is set by `before_save`.
unfoldable pub changed : UpdateProblemRequest → ℕ → Problem → Problem
changed req now p = record p {
  title = or_keep req.title p.title;
  description = or_keep req.description p.description;
  difficulty = or_keep req.difficulty p.difficulty;
  limit_cpu_time_ms = limit_or_keep req.limit (λ l. l.cpu_time_ms) p.limit_cpu_time_ms;
  limit_wall_time_ms = limit_or_keep req.limit (λ l. l.wall_time_ms) p.limit_wall_time_ms;
  limit_memory_bytes = limit_or_keep req.limit (λ l. l.memory_bytes) p.limit_memory_bytes;
  limit_output_bytes = limit_or_keep req.limit (λ l. l.output_bytes) p.limit_output_bytes;
  updated_at = now;
}

-- The columns that a deletion sets.
unfoldable pub deleted : ℕ → Problem → Problem
deleted now p = record p { deleted_at = some now; updated_at = now }

-- An UPDATE of the row with a primary key.
abbrev pub update_at : String → (Problem → Problem) → List Problem → List Problem
update_at id f [] = []
update_at id f (p ∷ ps) = (if str_eq p.id id then f p else p) ∷ update_at id f ps

abbrev pub is_there : String → List Problem → Bool
is_there id ps = any (λ (p : Problem). str_eq p.id id) ps

abbrev pub without_tags_of : String → List ProblemTag → List ProblemTag
without_tags_of id rows = keep (λ (r : ProblemTag). not (str_eq r.problem_id id)) rows

module _ (world : World) where
  open world use {now, new_id, faulty, tag_rows}

  -- A row of problems_tags; its key is unique, and its tag must be there.
  unfoldable pub insert_tag : String → ℕ → String → Tables → Result Tables RepoError
  insert_tag id n tag t =
      if faulty (Statement.insert_tag n)
        || has_tag id tag t.problems_tags
        || not (any (str_eq tag) t.tags)
      then err RepoError.internal
      else ok (record t {
        problems_tags = t.problems_tags ++ (record { problem_id = id; tag_id = tag } ∷ []);
      })

  -- The loop over the tags, from the n-th.
  unfoldable pub insert_tags : String → ℕ → List String → Tables → Result Tables RepoError
  unfolding insert_tag
  insert_tags id n [] t = ok t
  insert_tags id n (tag ∷ tags) t =
      and_then (insert_tag id n tag t) (λ t'. insert_tags id (n + 1) tags t')

  unfoldable pub new_problem : CreateProblemRequest → String → Problem
  new_problem req author_id = record {
    id = new_id 0;
    title = req.title;
    description = req.description;
    difficulty = req.difficulty;
    author_id = author_id;
    created_at = now;
    updated_at = now;
    deleted_at = none;
    limit_cpu_time_ms = req.limit.cpu_time_ms;
    limit_wall_time_ms = req.limit.wall_time_ms;
    limit_memory_bytes = req.limit.memory_bytes;
    limit_output_bytes = req.limit.output_bytes;
  }

  unfoldable pub insert_problem : Problem → Tables → Result Tables RepoError
  insert_problem p t =
      if faulty Statement.insert_problem || is_there p.id t.problems
      then err RepoError.internal
      else ok (record t { problems = t.problems ++ (p ∷ []) })

  -- `create`; the answer is the id of the new problem.
  unfoldable pub create : CreateProblemRequest → String → Tables → Tables × Result String RepoError
  unfolding insert_tags new_problem insert_problem
  create req author_id t =
      in_transaction world t
        (and_then (insert_problem (new_problem req author_id) t)
          (λ t'. insert_tags (new_id 0) 0 req.tags t'))
        (new_id 0)

  -- `get_stat`; the answer is the total.
  unfoldable pub get_stat : Tables → Result ℕ RepoError
  get_stat t =
      if faulty Statement.count_problems
      then err RepoError.internal
      else ok (tally is_live t.problems)

  abbrev pub detail : Problem → List String → ProblemDetailResponse
  detail p tags = record {
    id = p.id;
    author_id = p.author_id;
    title = p.title;
    description = p.description;
    difficulty = p.difficulty;
    tags = tags;
    created_at = p.created_at;
    updated_at = p.updated_at;
    limit = record {
      cpu_time_ms = p.limit_cpu_time_ms;
      wall_time_ms = p.limit_wall_time_ms;
      memory_bytes = p.limit_memory_bytes;
      output_bytes = p.limit_output_bytes;
    };
  }

  unfoldable pub get_by_id : String → Tables → Tables → Result ProblemDetailResponse RepoError
  get_by_id id seen t = and_then (found_problem world id seen) (λ p.
      if faulty Statement.find_tags
      then err RepoError.internal
      else ok (detail p (tags_of id (tag_rows t.problems_tags))))

  unfoldable pub replace_tags : String → Option (List String) → Tables → Result Tables RepoError
  unfolding insert_tags
  replace_tags id none t = ok t
  replace_tags id (some tags) t =
      if faulty Statement.delete_tags
      then err RepoError.internal
      else insert_tags id 0 tags (record t { problems_tags = without_tags_of id t.problems_tags })

  -- `active.update(..)`: an error where the row is gone.
  unfoldable pub update_row : String → (Problem → Problem) → Tables → Result Tables RepoError
  update_row id f t =
      if faulty Statement.update_problem || not (is_there id t.problems)
      then err RepoError.internal
      else ok (record t { problems = update_at id f t.problems })

  -- The guard of `update` and `delete`.
  unfoldable pub permitted :
      String
      → Tables
      → Tables × Result (Unit {0}) RepoError
      → Result Problem RepoError
      → Tables × Result (Unit {0}) RepoError
  permitted author_id t rest (err e) = (t, err e)
  permitted author_id t rest (ok p) =
      if str_eq p.author_id author_id then rest else (t, err RepoError.forbidden)

  unfoldable pub for_author :
      String
      → String
      → Tables
      → Tables
      → Tables × Result (Unit {0}) RepoError
      → Tables × Result (Unit {0}) RepoError
  unfolding permitted
  for_author id author_id seen t rest = permitted author_id t rest (found_problem world id seen)

  unfoldable pub update :
      String
      → String
      → UpdateProblemRequest
      → Tables
      → Tables
      → Tables × Result (Unit {0}) RepoError
  unfolding changed replace_tags update_row for_author
  update id author_id req seen t = for_author id author_id seen t (
      in_transaction world t
        (and_then (replace_tags id req.tags t) (λ t'. update_row id (changed req now) t')) tt)

  unfoldable pub delete_row : String → Tables → Tables × Result (Unit {0}) RepoError
  unfolding deleted
  delete_row id t =
      if is_there id t.problems
      then written world Statement.update_problem t
          (record t { problems = update_at id (deleted now) t.problems }) tt
      else (t, err RepoError.internal)

  unfoldable pub delete : String → String → Tables → Tables → Tables × Result (Unit {0}) RepoError
  unfolding delete_row for_author
  delete id author_id seen t = for_author id author_id seen t (delete_row id t)

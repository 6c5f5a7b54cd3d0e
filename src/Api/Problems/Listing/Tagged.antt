-- ===== src/Api/Problems/Listing/Tagged.antt =====
-- services/crates/api_server_db/src/repositories/problems.rs: the filter by tags of `list`, which
-- counts rows, against what it is for.
use oj_monorepo.Base.{
  ℕ, ◌+◌, ◌≤◌, ◌≡◌, refl, ap, ◌∙◌, arith, ◌==◌, String, str_eq, str_eq_iff, List, [], ◌∷◌, map,
  keep, tally, length, not, ◌&&◌, Bool, true, false, Bool-cases, inl, inr, if◌then◌else◌,
}
use oj_monorepo.Api.Store.{ProblemTag, has_tag}
use oj_monorepo.Api.Problems.Listing.{distinct, is_in, has_count, tagged_ids}

-- The key of problems_tags is unique.
abbrev pub IsKeyed : List ProblemTag → Type 0
IsKeyed [] = Unit
IsKeyed (r ∷ rs) = (has_tag r.problem_id r.tag_id rs ≡ false) × IsKeyed rs

-- A list of ids names none twice.
abbrev pub IsNodup : List String → Type 0
IsNodup [] = Unit
IsNodup (x ∷ xs) = (is_in xs x ≡ false) × IsNodup xs

-- What the filter is for: a problem has every tag.
abbrev pub has_all : List String → List ProblemTag → String → Bool
has_all [] rows id = true
has_all (tag ∷ tags) rows id = has_tag id tag rows && has_all tags rows id

how_many : List String → List ProblemTag → String → ℕ
how_many [] rows id = 0
how_many (tag ∷ tags) rows id = (if has_tag id tag rows then 1 else 0) + how_many tags rows id

is_in-distinct : (xs : List String) (id : String) → is_in (distinct xs) id ≡ is_in xs id
unfolding distinct
is_in-distinct [] id = refl
is_in-distinct (x ∷ xs) id = rest (distinct xs) (is_in-distinct xs id)
  where
    others :
        (ys : List String)
        → str_eq id x ≡ false
        → is_in (keep (λ y. not (str_eq y x)) ys) id ≡ is_in ys id
    others [] e = refl
    others (y ∷ ys) e =
        ground (arith, others ys e, str_eq_iff id x, str_eq_iff id y, str_eq_iff y x)

    rest :
        (ys : List String)
        → is_in ys id ≡ is_in xs id
        → is_in (x ∷ keep (λ y. not (str_eq y x)) ys) id ≡ is_in (x ∷ xs) id
    rest ys h = ground (arith, others ys)

is_in-keep :
    (p : String → Bool) (xs : List String) (id : String)
    → is_in (keep p xs) id ≡ (is_in xs id && p id)
is_in-keep p [] id = refl
is_in-keep p (x ∷ xs) id = elim (Bool-cases (str_eq id x)) [
  | inl e ↦ let q = (str_eq_iff id x).0 e in ground (arith, is_in-keep p xs id, ap p q)
  | inr e ↦ ground (arith, is_in-keep p xs id)
]

-- The rows of one problem with one tag: one, or none.
tally-has_tag :
    (rows : List ProblemTag) (id tag : String)
    → IsKeyed rows
    → tally (λ (r : ProblemTag). str_eq r.problem_id id && str_eq r.tag_id tag) rows
      ≡ (if has_tag id tag rows then 1 else 0)
tally-has_tag [] id tag k = refl
tally-has_tag (r ∷ rs) id tag k =
    ground (arith, tally-has_tag rs id tag k.1, str_eq_iff r.problem_id id, str_eq_iff r.tag_id tag)

tally-either :
    (rows : List ProblemTag) (id tag : String) (tags : List String)
    → is_in tags tag ≡ false
    → tally (λ (r : ProblemTag). str_eq r.problem_id id && is_in (tag ∷ tags) r.tag_id) rows
      ≡ tally (λ (r : ProblemTag). str_eq r.problem_id id && str_eq r.tag_id tag) rows
        + tally (λ (r : ProblemTag). str_eq r.problem_id id && is_in tags r.tag_id) rows
tally-either [] id tag tags n = refl
tally-either (r ∷ rs) id tag tags n = elim (Bool-cases (str_eq r.tag_id tag)) [
  | inl e ↦
      let q = (str_eq_iff r.tag_id tag).0 e in
      let o : is_in tags r.tag_id ≡ false = ap (is_in tags) q ∙ n in
      ground (arith, tally-either rs id tag tags n)
  | inr e ↦ ground (arith, tally-either rs id tag tags n)
]

tally-how_many :
    (rows : List ProblemTag) (id : String) (tags : List String)
    → IsKeyed rows
    → IsNodup tags
    → tally (λ (r : ProblemTag). str_eq r.problem_id id && is_in tags r.tag_id) rows
      ≡ how_many tags rows id
unfolding how_many
tally-how_many rows id [] k n = none_there rows
  where
    none_there :
        (rs : List ProblemTag)
        → tally (λ (r : ProblemTag). str_eq r.problem_id id && is_in [] r.tag_id) rs ≡ 0
    none_there [] = refl
    none_there (r ∷ rs) = ground (arith, none_there rs)
tally-how_many rows id (tag ∷ tags) k n = omega (
  arith,
  tally-either rows id tag tags n.0,
  tally-has_tag rows id tag k,
  tally-how_many rows id tags k n.1,
)

how_many-le :
    (tags : List String) (rows : List ProblemTag) (id : String)
    → how_many tags rows id ≤ length tags
unfolding how_many
how_many-le [] rows id = omega arith
how_many-le (tag ∷ tags) rows id = ground (arith, how_many-le tags rows id)

how_many-has_all :
    (tags : List String) (rows : List ProblemTag) (id : String)
    → (how_many tags rows id == length tags) ≡ has_all tags rows id
unfolding how_many
how_many-has_all [] rows id = refl
how_many-has_all (tag ∷ tags) rows id =
    ground (arith, how_many-has_all tags rows id, how_many-le tags rows id)

-- Counting the rows of a problem tells whether it has every tag.
has_count-has_all :
    (rows : List ProblemTag) (id : String) (tags : List String)
    → IsKeyed rows
    → IsNodup tags
    → has_count tags rows id ≡ has_all tags rows id
unfolding has_count
has_count-has_all rows id tags k n =
    ap (λ c. c == length tags) (tally-how_many rows id tags k n) ∙ how_many-has_all tags rows id

-- A problem with one of the tags is among those that are grouped.
grouped_of_tag :
    (rows : List ProblemTag) (id tag : String) (tags : List String)
    → has_tag id tag rows ≡ true
    → is_in
        (map
          (λ (r : ProblemTag). r.problem_id)
          (keep (λ (r : ProblemTag). is_in (tag ∷ tags) r.tag_id) rows))
        id
      ≡ true
grouped_of_tag [] id tag tags h = absurd (cc)
grouped_of_tag (r ∷ rs) id tag tags h =
    ground
      (arith, grouped_of_tag rs id tag tags, str_eq_iff r.problem_id id, str_eq_iff id r.problem_id)

pub tagged_ids-has_all :
    (rows : List ProblemTag) (tag : String) (tags : List String) (id : String)
    → IsKeyed rows
    → IsNodup (tag ∷ tags)
    → is_in (tagged_ids (tag ∷ tags) rows) id ≡ has_all (tag ∷ tags) rows id
unfolding tagged_ids
tagged_ids-has_all rows tag tags id k n =
    is_in-keep (has_count (tag ∷ tags) rows) (distinct grouped) id
    ∙ ground (
      arith,
      is_in-distinct grouped id,
      has_count-has_all rows id (tag ∷ tags) k n,
      grouped_of_tag rows id tag tags,
    )
  where
    grouped : List String
    grouped =
        map (λ (r : ProblemTag). r.problem_id)
          (keep (λ (r : ProblemTag). is_in (tag ∷ tags) r.tag_id) rows)

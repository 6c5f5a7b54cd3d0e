-- ===== src/Api/Problems/Rows.antt =====
-- services/crates/api_server_db/src/repositories/problems.rs: what the statements of a transaction do
-- to the rows of a problem and of its tags.
use mathlib.Core.List.{append_assoc, append-nil}
use oj_monorepo.Base.{
  ℕ, ◌+◌, ◌≡◌, refl, ap, sym, ◌∙◌, subst, arith, String, str_eq, str_eq_iff, List, [], ◌∷◌, ◌++◌,
  Bool, true, false, Option, none, some, ok, err, and_then-ok, ok-inj, if◌then◌else◌,
}
use oj_monorepo.Api.Store.{Problem, ProblemTag, Tables, RepoError, Statement, World, tags_of}
use oj_monorepo.Api.Problems.{
  or_keep, update_at, without_tags_of, insert_tag, insert_tags, replace_tags, update_row,
}

pub str_eq_refl : (s : String) → str_eq s s ≡ true
str_eq_refl s = (str_eq_iff s s).1 refl

abbrev pub rows_of : String → List String → List ProblemTag
rows_of id [] = []
rows_of id (tag ∷ tags) = record { problem_id = id; tag_id = tag } ∷ rows_of id tags

pub tags_of-rows_of : (id : String) (tags : List String) → tags_of id (rows_of id tags) ≡ tags
tags_of-rows_of id [] = refl
tags_of-rows_of id (tag ∷ tags) = rw (str_eq_refl id) (ap (◌∷◌ tag) (tags_of-rows_of id tags))

pub tags_of-append :
    (id : String) (xs ys : List ProblemTag) → tags_of id (xs ++ ys) ≡ tags_of id xs ++ tags_of id ys
tags_of-append id [] ys = refl
tags_of-append id (x ∷ xs) ys = ground (arith, tags_of-append id xs ys)

pub tags_of-without : (id : String) (xs : List ProblemTag) → tags_of id (without_tags_of id xs) ≡ []
tags_of-without id [] = refl
tags_of-without id (x ∷ xs) = ground (arith, tags_of-without id xs)

pub without-append :
    (id : String) (xs ys : List ProblemTag)
    → without_tags_of id (xs ++ ys) ≡ without_tags_of id xs ++ without_tags_of id ys
without-append id [] ys = refl
without-append id (x ∷ xs) ys = ground (arith, without-append id xs ys)

pub without-without :
    (id : String) (xs : List ProblemTag)
    → without_tags_of id (without_tags_of id xs) ≡ without_tags_of id xs
without-without id [] = refl
without-without id (x ∷ xs) = ground (arith, without-without id xs)

pub without-rows_of : (id : String) (tags : List String) → without_tags_of id (rows_of id tags) ≡ []
without-rows_of id [] = refl
without-rows_of id (tag ∷ tags) = rw (str_eq_refl id) (without-rows_of id tags)

abbrev pub with_rows : Tables → List ProblemTag → Tables
with_rows t rows = record t { problems_tags = rows }

-- The tags of one problem are as asked for, and nothing else has changed.
abbrev pub Retagged : String → Option (List String) → Tables → Tables → Type 0
Retagged id tags t t' =
    (tags_of id t'.problems_tags ≡ or_keep tags (tags_of id t.problems_tags))
    × (without_tags_of id t'.problems_tags ≡ without_tags_of id t.problems_tags)
    × (t' ≡ with_rows t t'.problems_tags)

module _ (world : World) where
  open world use {now, faulty}

  pub insert_tag-ok :
      (id : String) (n : ℕ) (tag : String) (t t' : Tables)
      → insert_tag world id n tag t ≡ ok t'
      → t' ≡ with_rows t (t.problems_tags ++ rows_of id (tag ∷ []))
  unfolding insert_tag
  insert_tag-ok id n tag t t' h = ground arith

  pub insert_tags-ok :
      (id : String) (n : ℕ) (tags : List String) (t t' : Tables)
      → insert_tags world id n tags t ≡ ok t'
      → t' ≡ with_rows t (t.problems_tags ++ rows_of id tags)
  unfolding insert_tags
  insert_tags-ok id n [] t t' h = rw (append-nil t.problems_tags) (sym (ok-inj t t' h))
  insert_tags-ok id n (tag ∷ tags) t t' h =
      let (mid, e, f) = and_then-ok (insert_tag world id n tag t) _ t' h in
      let step = insert_tag-ok id n tag t mid e in
      let rest = insert_tags-ok id (n + 1) tags mid t' f in
      rest
      ∙ ap (λ (m : Tables). with_rows m (m.problems_tags ++ rows_of id tags)) step
      ∙ ap (with_rows t) (append_assoc t.problems_tags (rows_of id (tag ∷ [])) (rows_of id tags))

  pub replace_tags-Retagged :
      (id : String) (tags : Option (List String)) (t t' : Tables)
      → replace_tags world id tags t ≡ ok t'
      → Retagged id tags t t'
  unfolding replace_tags
  replace_tags-Retagged id none t t' h =
      subst (Retagged id none t) (ok-inj t t' h) (refl, refl, refl)
  replace_tags-Retagged id (some tags) t t' h = inserted (faulty Statement.delete_tags) h
    where
      bare : Tables
      bare = with_rows t (without_tags_of id t.problems_tags)

      inserted :
          (b : Bool)
          → (if b then err RepoError.internal else insert_tags world id 0 tags bare) ≡ ok t'
          → Retagged id (some tags) t t'
      inserted true k = absurd (cc)
      inserted false k =
          subst (Retagged id (some tags) t) (sym (insert_tags-ok id 0 tags bare t' k)) (
            tags_of-append id (without_tags_of id t.problems_tags) (rows_of id tags)
                ∙ rw (tags_of-without id t.problems_tags) (tags_of-rows_of id tags),
            without-append id (without_tags_of id t.problems_tags) (rows_of id tags)
                ∙ rw (without-without id t.problems_tags, without-rows_of id tags)
                    (append-nil (without_tags_of id t.problems_tags)),
            refl,
          )

  pub update_row-ok :
      (id : String) (f : Problem → Problem) (t t' : Tables)
      → update_row world id f t ≡ ok t'
      → t' ≡ record t { problems = update_at id f t.problems }
  unfolding update_row
  update_row-ok id f t t' h = ground arith

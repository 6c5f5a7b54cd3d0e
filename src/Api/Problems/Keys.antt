-- ===== src/Api/Problems/Keys.antt =====
-- services/crates/api_server_db/src/repositories/problems.rs: the key of problems_tags and the ids of
-- problems stay unique under the statements of the repository.
use oj_monorepo.Base.{
  ℕ, ◌+◌, ◌≡◌, refl, sym, subst, arith, String, str_eq, str_eq_iff, List, [], ◌∷◌, ◌++◌, ◌&&◌, ◌||◌,
  false, Bool-cases, inl, inr, Option, none, some, ok, and_then-ok, ok-inj, if◌then◌else◌,
}
use oj_monorepo.Api.Store.{Problem, ProblemTag, Tables, Statement, World, has_tag}
use oj_monorepo.Api.Problems.{
  update_at, is_there, without_tags_of, insert_tag, insert_tags, replace_tags,
}
use oj_monorepo.Api.Problems.Rows.{with_rows, insert_tag-ok}
use oj_monorepo.Api.Problems.Listing.Tagged.{IsKeyed}

-- No two problems have one id.
abbrev pub HasUniqueIds : List Problem → Type 0
HasUniqueIds [] = Unit
HasUniqueIds (p ∷ ps) = (is_there p.id ps ≡ false) × HasUniqueIds ps

has_tag-append :
    (id tag : String) (xs : List ProblemTag) (r : ProblemTag)
    → has_tag id tag (xs ++ (r ∷ []))
      ≡ (has_tag id tag xs || (str_eq r.problem_id id && str_eq r.tag_id tag))
has_tag-append id tag [] r = ground arith
has_tag-append id tag (x ∷ xs) r = ground (arith, has_tag-append id tag xs r)

append-IsKeyed :
    (xs : List ProblemTag) (r : ProblemTag)
    → IsKeyed xs
    → has_tag r.problem_id r.tag_id xs ≡ false
    → IsKeyed (xs ++ (r ∷ []))
append-IsKeyed [] r k h = (refl, tt)
append-IsKeyed (x ∷ xs) r k h = (
  ground (
    arith,
    has_tag-append x.problem_id x.tag_id xs r,
    k.0,
    str_eq_iff r.problem_id x.problem_id,
    str_eq_iff r.tag_id x.tag_id,
    str_eq_iff x.problem_id r.problem_id,
    str_eq_iff x.tag_id r.tag_id,
  ),
  append-IsKeyed xs r k.1 (ground arith),
)

has_tag-without :
    (id problem_id tag : String) (xs : List ProblemTag)
    → has_tag problem_id tag xs ≡ false
    → has_tag problem_id tag (without_tags_of id xs) ≡ false
has_tag-without id problem_id tag [] h = refl
has_tag-without id problem_id tag (x ∷ xs) h = ground (arith, has_tag-without id problem_id tag xs)

without-IsKeyed :
    (id : String) (xs : List ProblemTag) → IsKeyed xs → IsKeyed (without_tags_of id xs)
without-IsKeyed id [] k = tt
without-IsKeyed id (x ∷ xs) k = elim (Bool-cases (str_eq x.problem_id id)) [
  | inl b ↦ rw b (without-IsKeyed id xs k.1)
  | inr b ↦ rw b (has_tag-without id x.problem_id x.tag_id xs k.0, without-IsKeyed id xs k.1)
]

is_there-append :
    (id : String) (ps : List Problem) (p : Problem)
    → is_there id (ps ++ (p ∷ [])) ≡ (is_there id ps || str_eq p.id id)
is_there-append id [] p = ground arith
is_there-append id (q ∷ qs) p = ground (arith, is_there-append id qs p)

pub append-HasUniqueIds :
    (ps : List Problem) (p : Problem)
    → HasUniqueIds ps
    → is_there p.id ps ≡ false
    → HasUniqueIds (ps ++ (p ∷ []))
append-HasUniqueIds [] p u h = (refl, tt)
append-HasUniqueIds (q ∷ qs) p u h = (
  ground (arith, is_there-append q.id qs p, u.0, str_eq_iff p.id q.id, str_eq_iff q.id p.id),
  append-HasUniqueIds qs p u.1 (ground arith),
)

module _ (f : Problem → Problem) (keeps : (p : Problem) → (f p).id ≡ p.id) where
  updated-id : (id : String) (p : Problem) → (if str_eq p.id id then f p else p).id ≡ p.id
  updated-id id p = elim (Bool-cases (str_eq p.id id)) [
    | inl b ↦ rw b (keeps p)
    | inr b ↦ rw b refl
  ]

  is_there-update :
      (id j : String) (ps : List Problem) → is_there j (update_at id f ps) ≡ is_there j ps
  is_there-update id j [] = refl
  is_there-update id j (p ∷ ps) = rw (updated-id id p, is_there-update id j ps) refl

  pub update-HasUniqueIds :
      (id : String) (ps : List Problem) → HasUniqueIds ps → HasUniqueIds (update_at id f ps)
  update-HasUniqueIds id [] u = tt
  update-HasUniqueIds id (p ∷ ps) u =
      (rw (updated-id id p, is_there-update id p.id ps) u.0, update-HasUniqueIds id ps u.1)

module _ (world : World) where
  open world use {faulty}

  insert_tag-IsKeyed :
      (id : String) (n : ℕ) (tag : String) (t t' : Tables)
      → insert_tag world id n tag t ≡ ok t'
      → IsKeyed t.problems_tags
      → IsKeyed t'.problems_tags
  unfolding insert_tag
  insert_tag-IsKeyed id n tag t t' h k =
      subst (λ (u : Tables). IsKeyed u.problems_tags) (sym (insert_tag-ok world id n tag t t' h))
        (append-IsKeyed t.problems_tags (record { problem_id = id; tag_id = tag }) k (ground arith))

  pub insert_tags-IsKeyed :
      (id : String) (n : ℕ) (tags : List String) (t t' : Tables)
      → insert_tags world id n tags t ≡ ok t'
      → IsKeyed t.problems_tags
      → IsKeyed t'.problems_tags
  unfolding insert_tags
  insert_tags-IsKeyed id n [] t t' h k =
      subst (λ (u : Tables). IsKeyed u.problems_tags) (ok-inj t t' h) k
  insert_tags-IsKeyed id n (tag ∷ tags) t t' h k =
      let (mid, e, f) = and_then-ok (insert_tag world id n tag t) _ t' h in
      insert_tags-IsKeyed id (n + 1) tags mid t' f (insert_tag-IsKeyed id n tag t mid e k)

  pub replace_tags-IsKeyed :
      (id : String) (tags : Option (List String)) (t t' : Tables)
      → replace_tags world id tags t ≡ ok t'
      → IsKeyed t.problems_tags
      → IsKeyed t'.problems_tags
  unfolding replace_tags
  replace_tags-IsKeyed id none t t' h k =
      subst (λ (u : Tables). IsKeyed u.problems_tags) (ok-inj t t' h) k
  replace_tags-IsKeyed id (some tags) t t' h k = elim (Bool-cases (faulty Statement.delete_tags)) [
    | inl b ↦ absurd (ground arith)
    | inr b ↦
        insert_tags-IsKeyed id 0 tags (with_rows t (without_tags_of id t.problems_tags)) t'
          (rw b at h) (without-IsKeyed id t.problems_tags k)
  ]

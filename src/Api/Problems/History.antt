-- ===== src/Api/Problems/History.antt =====
-- services/crates/api_server_db/src/repositories/problems.rs: the table of problems under any calls on
-- the repository, whatever each of them has seen.
use oj_monorepo.Base.{
  ◌≡◌, ap, sym, subst, ◌∙◌, String, List, [], ◌∷◌, ◌++◌, inl, inr, Result, ok, and_then,
  and_then-ok,
}
use oj_monorepo.Api.Store.{Problem, Tables, RepoError, World, in_transaction}
use oj_monorepo.Api.Store.Outcomes.{Transacted, in_transaction-Transacted}
use oj_monorepo.Api.Problems.{
  CreateProblemRequest, UpdateProblemRequest, update_at, changed, deleted, new_problem,
  insert_problem, insert_tags, replace_tags, update_row, create, update, delete,
}
use oj_monorepo.Api.Problems.Rows.{insert_tags-ok, update_row-ok, replace_tags-Retagged}
use oj_monorepo.Api.Problems.Changes.{for_author-Authored, delete-Authorized}
use oj_monorepo.Api.Problems.Creation.{insert_problem-ok}
use oj_monorepo.Api.Problems.Keys.{
  HasUniqueIds, append-HasUniqueIds, update-HasUniqueIds, insert_tags-IsKeyed, replace_tags-IsKeyed,
}
use oj_monorepo.Api.Problems.Listing.Tagged.{IsKeyed}
use oj_monorepo.Api.Problems.Persistence.{
  problem_at, IsSound, KeepsRow, Persists, Persists-refl, Persists-trans, append-Persists,
  update-Persists, changed-KeepsRow, changed-id, deleted-KeepsRow, deleted-id,
}

-- A call on the repository, or anything that leaves its two tables alone. `seen` are the tables at the
-- first query of the call.
pub data Op : Type 0 where
  made : (world : World) (req : CreateProblemRequest) (author_id : String) → Op
  edited : (world : World) (id author_id : String) (req : UpdateProblemRequest) (seen : Tables) → Op
  removed : (world : World) (id author_id : String) (seen : Tables) → Op
  elsewhere :
      (f : Tables → Tables)
      → ((t : Tables) → (f t).problems ≡ t.problems)
      → ((t : Tables) → (f t).problems_tags ≡ t.problems_tags)
      → Op

abbrev pub apply : Op → Tables → Tables
apply (Op.made world req author_id) t = (create world req author_id t).0
apply (Op.edited world id author_id req seen) t = (update world id author_id req seen t).0
apply (Op.removed world id author_id seen) t = (delete world id author_id seen t).0
apply (Op.elsewhere f p q) t = f t

abbrev pub run : List Op → Tables → Tables
run [] t = t
run (op ∷ ops) t = run ops (apply op t)

-- The tables stay sound, and a problem persists.
abbrev pub Preserves : String → Tables → Tables → Type 0
Preserves j t t' = IsSound t' × Persists (problem_at j t.problems) (problem_at j t'.problems)

same-Preserves : (j : String) (t : Tables) → IsSound t → Preserves j t t
same-Preserves j t s = (s, Persists-refl (problem_at j t.problems))

Transacted-Preserves :
    {A : Type 0} (j : String) (t : Tables) (body : Result Tables RepoError)
    (out : Tables × Result A RepoError)
    → IsSound t
    → Transacted t body out
    → ((t' : Tables) → body ≡ ok t' → Preserves j t t')
    → Preserves j t out.0
Transacted-Preserves {A} j t body (u, r) s (inl (e, p)) f =
    subst (Preserves j t) (ap (λ (o : Tables × Result A RepoError). o.0) (sym p))
      (same-Preserves j t s)
Transacted-Preserves j t body out s (inr (t', e, p)) f = subst (Preserves j t) (sym p) (f t' e)

module _ (world : World) (j : String) (t : Tables) (sound : IsSound t) where
  create-Preserves :
      (req : CreateProblemRequest) (author_id : String)
      → Preserves j t (create world req author_id t).0
  unfolding create
  create-Preserves req author_id =
      Transacted-Preserves j t _ _ sound (in_transaction-Transacted world t _ (world.new_id 0)) made
    where
      made :
          (t' : Tables)
          → and_then
              (insert_problem world (new_problem world req author_id) t)
              (λ m. insert_tags world (world.new_id 0) 0 req.tags m)
            ≡ ok t'
          → Preserves j t t'
      made t' h =
          let p = new_problem world req author_id in
          let (mid, e, k) = and_then-ok (insert_problem world p t) _ t' h in
          let (fresh, m) = insert_problem-ok world p t mid e in
          let rows : t'.problems ≡ t.problems ++ (p ∷ []) =
            ap (λ (u : Tables). u.problems)
              (insert_tags-ok world (world.new_id 0) 0 req.tags mid t' k)
            ∙ ap (λ (u : Tables). u.problems) m in
          let keyed : IsKeyed mid.problems_tags =
            subst (λ (u : Tables). IsKeyed u.problems_tags) (sym m) sound.0 in
          (
            (
              insert_tags-IsKeyed world (world.new_id 0) 0 req.tags mid t' k keyed,
              subst HasUniqueIds (sym rows) (append-HasUniqueIds t.problems p sound.1 fresh),
            ),
            subst (λ ps. Persists (problem_at j t.problems) (problem_at j ps)) (sym rows)
                (append-Persists j t.problems p),
          )

  updated-Preserves :
      (f : Problem → Problem) (keeps : (p : Problem) → (f p).id ≡ p.id)
      (row : (p : Problem) → KeepsRow p (f p)) (id : String) (t' : Tables)
      → t'.problems ≡ update_at id f t.problems
      → IsKeyed t'.problems_tags
      → Preserves j t t'
  updated-Preserves f keeps row id t' e k = (
    (k, subst HasUniqueIds (sym e) (update-HasUniqueIds f keeps id t.problems sound.1)),
    subst (λ ps. Persists (problem_at j t.problems) (problem_at j ps)) (sym e)
        (update-Persists f keeps row id j t.problems),
  )

  update-Preserves :
      (id author_id : String) (req : UpdateProblemRequest) (seen : Tables)
      → Preserves j t (update world id author_id req seen t).0
  unfolding update
  update-Preserves id author_id req seen =
      elim (for_author-Authored world id author_id seen t rest) [
        | inl (e, p) ↦
            subst (λ (o : Tables × Result (Unit {0}) RepoError). Preserves j t o.0) (sym p)
              (same-Preserves j t sound)
        | inr (g, p) ↦
            subst (λ (o : Tables × Result (Unit {0}) RepoError). Preserves j t o.0) (sym p)
              (Transacted-Preserves j t body rest sound (in_transaction-Transacted world t body tt)
                edited)
      ]
    where
      body : Result Tables RepoError
      body =
          and_then (replace_tags world id req.tags t)
            (λ m. update_row world id (changed req world.now) m)

      rest : Tables × Result (Unit {0}) RepoError
      rest = in_transaction world t body tt

      edited :
          (t' : Tables)
          → and_then
              (replace_tags world id req.tags t)
              (λ m. update_row world id (changed req world.now) m)
            ≡ ok t'
          → Preserves j t t'
      edited t' h =
          let (mid, e, k) = and_then-ok (replace_tags world id req.tags t) _ t' h in
          let (a, b, c) = replace_tags-Retagged world id req.tags t mid e in
          let g = update_row-ok world id (changed req world.now) mid t' k in
          updated-Preserves (changed req world.now) (changed-id req world.now)
            (changed-KeepsRow req world.now) id t'
            (ap (λ (u : Tables). u.problems) g
              ∙ ap (λ (u : Tables). update_at id (changed req world.now) u.problems) c)
            (subst (λ (u : Tables). IsKeyed u.problems_tags) (sym g)
              (replace_tags-IsKeyed world id req.tags t mid e sound.0))

  delete-Preserves :
      (id author_id : String) (seen : Tables) → Preserves j t (delete world id author_id seen t).0
  delete-Preserves id author_id seen = elim (delete-Authorized world id author_id seen t) [
    | inl (e, p) ↦
        subst (λ (o : Tables × Result (Unit {0}) RepoError). Preserves j t o.0) (sym p)
          (same-Preserves j t sound)
    | inr (g, p) ↦
        updated-Preserves (deleted world.now) (deleted-id world.now) (deleted-KeepsRow world.now) id
          (delete world id author_id seen t).0 (ap (λ (u : Tables). u.problems) p)
          (subst (λ (u : Tables). IsKeyed u.problems_tags) (sym p) sound.0)
  ]

apply-Preserves : (op : Op) (j : String) (t : Tables) → IsSound t → Preserves j t (apply op t)
apply-Preserves (Op.made world req author_id) j t s = create-Preserves world j t s req author_id
apply-Preserves (Op.edited world id author_id req seen) j t s =
    update-Preserves world j t s id author_id req seen
apply-Preserves (Op.removed world id author_id seen) j t s =
    delete-Preserves world j t s id author_id seen
apply-Preserves (Op.elsewhere f p q) j t s = (
  (subst IsKeyed (sym (q t)) s.0, subst HasUniqueIds (sym (p t)) s.1),
  subst (λ ps. Persists (problem_at j t.problems) (problem_at j ps)) (sym (p t))
      (Persists-refl (problem_at j t.problems)),
)

-- Whatever calls are made on the repository of problems, whatever each of them had seen before others
-- changed the tables, and whichever statements fail: the keys of the two tables stay unique, and no
-- problem is lost, changes its author or its time of creation, or comes back once it is deleted.
pub run-Preserves :
    (ops : List Op) (j : String) (t : Tables) → IsSound t → Preserves j t (run ops t)
run-Preserves [] j t s = same-Preserves j t s
run-Preserves (op ∷ ops) j t s =
    let (s', p) = apply-Preserves op j t s in
    let (s'', q) = run-Preserves ops j (apply op t) s' in
    (
      s'',
      Persists-trans (problem_at j t.problems) (problem_at j (apply op t).problems)
          (problem_at j (run ops (apply op t)).problems) p q,
    )

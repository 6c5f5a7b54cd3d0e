-- ===== src/Api/Problems/Persistence.antt =====
-- services/crates/api_server_db/src/repositories/problems.rs: what the rows of problems keep when they
-- are written.
use oj_monorepo.Base.{
  ℕ, ◌≡◌, refl, ◌∙◌, String, str_eq, List, [], ◌∷◌, ◌++◌, find, false, Bool-cases, inl, inr, Option,
  none, some,
}
use oj_monorepo.Api.Store.{Problem, Tables, is_live}
use oj_monorepo.Api.Problems.{UpdateProblemRequest, update_at, changed, deleted}
use oj_monorepo.Api.Problems.Keys.{HasUniqueIds}
use oj_monorepo.Api.Problems.Listing.Tagged.{IsKeyed}

abbrev pub problem_at : String → List Problem → Option Problem
problem_at id ps = find (λ (p : Problem). str_eq p.id id) ps

-- The keys of the two tables are unique.
abbrev pub IsSound : Tables → Type 0
IsSound t = IsKeyed t.problems_tags × HasUniqueIds t.problems

-- What the row of a problem keeps: its author, its time, and that it is deleted.
abbrev pub KeepsRow : Problem → Problem → Type 0
KeepsRow p q =
    (q.author_id ≡ p.author_id)
    × (q.created_at ≡ p.created_at)
    × (is_live p ≡ false → is_live q ≡ false)

abbrev pub Persists : Option Problem → Option Problem → Type 0
Persists none o = Unit
Persists (some p) none = ⊥
Persists (some p) (some q) = KeepsRow p q

pub KeepsRow-refl : (p : Problem) → KeepsRow p p
KeepsRow-refl p = (refl, refl, (λ h. h))

pub Persists-refl : (o : Option Problem) → Persists o o
Persists-refl none = tt
Persists-refl (some p) = KeepsRow-refl p

pub Persists-trans : (a b c : Option Problem) → Persists a b → Persists b c → Persists a c
Persists-trans none b c h k = tt
Persists-trans (some p) none c h k = absurd h
Persists-trans (some p) (some q) none h k = absurd k
Persists-trans (some p) (some q) (some r) h k = (k.0 ∙ h.0, k.1 ∙ h.1, (λ e. k.2 (h.2 e)))

pub append-Persists :
    (id : String) (ps : List Problem) (p : Problem)
    → Persists (problem_at id ps) (problem_at id (ps ++ (p ∷ [])))
append-Persists id [] p = tt
append-Persists id (q ∷ qs) p = elim (Bool-cases (str_eq q.id id)) [
  | inl b ↦ rw b (KeepsRow-refl q)
  | inr b ↦ rw b (append-Persists id qs p)
]

module _ (f : Problem → Problem) (keeps : (p : Problem) → (f p).id ≡ p.id)
    (row : (p : Problem) → KeepsRow p (f p)) where
  pub update-Persists :
      (id j : String) (ps : List Problem)
      → Persists (problem_at j ps) (problem_at j (update_at id f ps))
  update-Persists id j [] = tt
  update-Persists id j (p ∷ ps) = elim (Bool-cases (str_eq p.id id)) [
    | inl b ↦ elim (Bool-cases (str_eq p.id j)) [
      | inl c ↦ rw (b, keeps p, c) (row p)
      | inr c ↦ rw (b, keeps p, c) (update-Persists id j ps)
    ]
    | inr b ↦ elim (Bool-cases (str_eq p.id j)) [
      | inl c ↦ rw (b, c) (KeepsRow-refl p)
      | inr c ↦ rw (b, c) (update-Persists id j ps)
    ]
  ]

pub changed-KeepsRow :
    (req : UpdateProblemRequest) (now : ℕ) (p : Problem) → KeepsRow p (changed req now p)
unfolding changed
changed-KeepsRow req now p = (refl, refl, (λ h. h))

pub changed-id :
    (req : UpdateProblemRequest) (now : ℕ) (p : Problem) → (changed req now p).id ≡ p.id
unfolding changed
changed-id req now p = refl

pub deleted-KeepsRow : (now : ℕ) (p : Problem) → KeepsRow p (deleted now p)
unfolding deleted
deleted-KeepsRow now p = (refl, refl, (λ h. refl))

pub deleted-id : (now : ℕ) (p : Problem) → (deleted now p).id ≡ p.id
unfolding deleted
deleted-id now p = refl

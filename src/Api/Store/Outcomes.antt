-- ===== src/Api/Store/Outcomes.antt =====
-- services/crates/api_server_db: what a write, a transaction and the first query of an operation can
-- end with.
use oj_monorepo.Base.{
  ◌≡◌, refl, ◌⊎◌, inl, inr, String, Bool, true, false, Option, none, some, Result, ok, err,
  if◌then◌else◌,
}
use oj_monorepo.Api.Store.{
  Problem, Tables, RepoError, Statement, World, live_problem, found_problem, written, committed,
  in_transaction,
}

-- The tables are as they were, with an error, or they are these.
abbrev pub Wrote : {A : Type 0} → Tables → Tables → Tables × Result A RepoError → Type 0
Wrote t t' out = ((e : RepoError) × (out ≡ (t, err e))) ⊎ (out.0 ≡ t')

-- A transaction ends with the tables as they were and an error, or with all its writes.
abbrev pub Transacted :
    {A : Type 0} → Tables → Result Tables RepoError → Tables × Result A RepoError → Type 0
Transacted t body out =
    ((e : RepoError) × (out ≡ (t, err e))) ⊎ ((t' : Tables) × (body ≡ ok t') × (out.0 ≡ t'))

module _ (world : World) where
  open world use {now, faulty}

  pub written-Wrote :
      {A : Type 0} (s : Statement) (t t' : Tables) (a : A) → Wrote t t' (written world s t t' a)
  unfolding written
  written-Wrote {A} s t t' a = cases (faulty s) world.kept
    where
      cases :
          (b k : Bool)
          → Wrote {A = A} t t'
              (if b then (if k then t' else t, err RepoError.internal) else (t', ok a))
      cases true true = inr refl
      cases true false = inl (RepoError.internal, refl)
      cases false k = inr refl

  pub in_transaction-Transacted :
      {A : Type 0} (t : Tables) (body : Result Tables RepoError) (a : A)
      → Transacted t body (in_transaction world t body a)
  unfolding in_transaction committed
  in_transaction-Transacted {A} t body a = begun (faulty Statement.begin) body
    where
      begun :
          (b : Bool) (r : Result Tables RepoError)
          → Transacted {A = A} t r
              (if b then (t, err RepoError.internal) else committed world t r a)
      begun true r = inl (RepoError.internal, refl)
      begun false (err e) = inl (e, refl)
      begun false (ok t') = elim (written-Wrote Statement.commit t t' a) [
        | inl e ↦ inl e
        | inr e ↦ inr (t', refl, e)
      ]

  pub found_problem-ok :
      (id : String) (t : Tables) (p : Problem)
      → found_problem world id t ≡ ok p
      → live_problem id t ≡ some p
  unfolding found_problem
  found_problem-ok id t p h = found (faulty Statement.find_problem) (live_problem id t) h
    where
      found :
          (b : Bool) (o : Option Problem)
          → (if b
              then err RepoError.internal
              else elim o [ none ↦ err RepoError.not_found | some q ↦ ok q ])
            ≡ ok p
          → o ≡ some p
      found true o k = absurd (cc)
      found false none k = absurd (cc)
      found false (some q) k = cc

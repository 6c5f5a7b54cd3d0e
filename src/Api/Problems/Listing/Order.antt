-- ===== src/Api/Problems/Listing/Order.antt =====
-- services/crates/api_server_db/src/repositories/problems.rs: ORDER BY created_at gives the rows that
-- there are, the oldest first.
use oj_monorepo.Base.{
  ◌≤◌, ◌≡◌, refl, ◌∙◌, arith, List, [], ◌∷◌, tally, leb, All, Bool, Bool-cases, inl, inr,
}
use oj_monorepo.Api.Store.{Problem}
use oj_monorepo.Api.Problems.Listing.{insert_by_age, by_age}

abbrev pub IsByAge : List Problem → Type 0
IsByAge [] = Unit
IsByAge (p ∷ ps) = All (λ (o : Problem). p.created_at ≤ o.created_at) ps × IsByAge ps

tally-insert :
    (q : Problem → Bool) (p : Problem) (ps : List Problem)
    → tally q (insert_by_age p ps) ≡ tally q (p ∷ ps)
tally-insert q p [] = refl
tally-insert q p (o ∷ os) = elim (Bool-cases (leb p.created_at o.created_at)) [
  | inl e ↦ rw e refl
  | inr e ↦ rw e (omega (arith, tally-insert q p os))
]

pub tally-by_age : (q : Problem → Bool) (ps : List Problem) → tally q (by_age ps) ≡ tally q ps
unfolding by_age
tally-by_age q [] = refl
tally-by_age q (p ∷ ps) = tally-insert q p (by_age ps) ∙ omega (arith, tally-by_age q ps)

All-insert :
    (P : Problem → Type 0) (p : Problem) (ps : List Problem)
    → P p
    → All P ps
    → All P (insert_by_age p ps)
All-insert P p [] h k = (h, tt)
All-insert P p (o ∷ os) h k = elim (Bool-cases (leb p.created_at o.created_at)) [
  | inl e ↦ rw e (h, k)
  | inr e ↦ rw e (k.0, All-insert P p os h k.1)
]

older :
    (p o : Problem) (os : List Problem)
    → p.created_at ≤ o.created_at
    → All (λ (r : Problem). o.created_at ≤ r.created_at) os
    → All (λ (r : Problem). p.created_at ≤ r.created_at) os
older p o [] h k = tt
older p o (r ∷ rs) h k = (omega (arith, h, k.0), older p o rs h k.1)

insert-IsByAge : (p : Problem) (ps : List Problem) → IsByAge ps → IsByAge (insert_by_age p ps)
insert-IsByAge p [] h = (tt, tt)
insert-IsByAge p (o ∷ os) h = elim (Bool-cases (leb p.created_at o.created_at)) [
  | inl e ↦
      let le : p.created_at ≤ o.created_at = ground arith in rw e ((le, older p o os le h.0), h)
  | inr e ↦
      let le : o.created_at ≤ p.created_at = ground arith in
      rw e (
        All-insert (λ (r : Problem). o.created_at ≤ r.created_at) p os le h.0,
        insert-IsByAge p os h.1,
      )
]

pub by_age-IsByAge : (ps : List Problem) → IsByAge (by_age ps)
unfolding by_age
by_age-IsByAge [] = tt
by_age-IsByAge (p ∷ ps) = insert-IsByAge p (by_age ps) (by_age-IsByAge ps)

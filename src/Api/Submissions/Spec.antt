-- ===== src/Api/Submissions/Spec.antt =====
-- services/crates/api_server_db/src/repositories/submissions.rs: what the repository of submissions
-- promises, a map from ids to an owner and a verdict that may still be to come.
use oj_monorepo.Base.{
  ◌≡◌, ◌≢◌, refl, ap, sym, ◌∙◌, String, str_eq, str_eq_iff, Bool-cases, inl, inr, Option, none,
  some, if◌then◌else◌,
}
use oj_monorepo.Shared.Http.{VerdictResponse}
use oj_monorepo.Api.Submissions.{SubmissionResult}

-- The abstract view of a submission.
pub record Entry : Type 0 where
  pub owner : String
  pub verdict : Option VerdictResponse

abbrev pub Ledger : Type 0
Ledger = String → Option Entry

-- One change of the abstract view.
pub data Step (l l' : Ledger) : Type 0 where
  idle : ((j : String) → l' j ≡ l j) → Step l l'
  opened :
      (id owner : String)
      → l id ≡ none
      → ((j : String)
          → l' j ≡ (if str_eq id j then some (record { owner = owner; verdict = none }) else l j))
      → Step l l'
  closed :
      (id : String) (e : Entry) (v : VerdictResponse)
      → l id ≡ some e
      → ((j : String) → l' j ≡ (if str_eq id j then some (record e { verdict = some v }) else l j))
      → Step l l'

pub data Steps (l : Ledger) : Ledger → Type 0 where
  here : Steps l l
  next : {m n : Ledger} → Steps l m → Step m n → Steps l n

-- What a user reads of it.
abbrev pub reading : Option VerdictResponse → SubmissionResult
reading none = SubmissionResult.pending
reading (some v) = SubmissionResult.completed v

abbrev pub read : String → Option Entry → Option SubmissionResult
read user_id none = none
read user_id (some e) = if str_eq e.owner user_id then some (reading e.verdict) else none

-- A submission keeps its owner, and does not lose a verdict.
abbrev pub Kept : Option Entry → Option Entry → Type 0
Kept none o = Unit
Kept (some e) none = ⊥
Kept (some e) (some e') = (e'.owner ≡ e.owner) × (e.verdict ≢ none → e'.verdict ≢ none)

Kept-refl : (o : Option Entry) → Kept o o
Kept-refl none = tt
Kept-refl (some e) = (refl, (λ h. h))

Kept-trans : (a b c : Option Entry) → Kept a b → Kept b c → Kept a c
Kept-trans none b c h k = tt
Kept-trans (some a) none c h k = absurd h
Kept-trans (some a) (some b) none h k = absurd k
Kept-trans (some a) (some b) (some c) h k = (k.0 ∙ h.0, (λ p. k.1 (h.1 p)))

Step-Kept : (l l' : Ledger) → Step l l' → (j : String) → Kept (l j) (l' j)
Step-Kept l l' (Step.idle same) j = rw (same j) (Kept-refl (l j))
Step-Kept l l' (Step.opened id owner fresh q) j = elim (Bool-cases (str_eq id j)) [
  | inl b ↦ let e : l j ≡ none = ap l (sym ((str_eq_iff id j).0 b)) ∙ fresh in rw e tt
  | inr b ↦ rw (q j, b) (Kept-refl (l j))
]
Step-Kept l l' (Step.closed id e v there q) j = elim (Bool-cases (str_eq id j)) [
  | inl b ↦
      let p : l j ≡ some e = ap l (sym ((str_eq_iff id j).0 b)) ∙ there in
      rw (q j, b, p) (refl, (λ h k. absurd (cc)))
  | inr b ↦ rw (q j, b) (Kept-refl (l j))
]

pub Steps-Kept : (l l' : Ledger) → Steps l l' → (j : String) → Kept (l j) (l' j)
Steps-Kept l l' Steps.here j = Kept-refl (l j)
Steps-Kept l l' (Steps.next {m} r s) j =
    Kept-trans (l j) (m j) (l' j) (Steps-Kept l m r j) (Step-Kept m l' s j)

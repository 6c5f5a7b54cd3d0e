-- ===== src/Api/Submissions/Rows.antt =====
-- services/crates/api_server_db/src/repositories/submissions.rs: what inserting and updating a row
-- does to the others.
use oj_monorepo.Base.{
  ◌≡◌, ◌≢◌, refl, sym, subst, ◌∙◌, arith, String, str_eq, str_eq_iff, List, [], ◌∷◌, ◌++◌, any,
  find, All, All-append, ◌&&◌, Bool, true, false, Bool-cases, inl, inr, Option, none, some,
  if◌then◌else◌,
}
use oj_monorepo.Api.Store.{Submission}
use oj_monorepo.Api.Submissions.{submission_at, update_submission}

-- No two rows have one id.
abbrev pub IsUnique : List Submission → Type 0
IsUnique [] = Unit
IsUnique (s ∷ ss) = All (λ (r : Submission). s.id ≢ r.id) ss × IsUnique ss

abbrev pub is_stored : String → List Submission → Bool
is_stored id rows = any (λ (s : Submission). str_eq s.id id) rows

abbrev pub on_row : (Submission → Submission) → Option Submission → Option Submission
on_row f none = none
on_row f (some s) = some (f s)

pub submission_at-append :
    (rows : List Submission) (s : Submission) (id : String)
    → is_stored s.id rows ≡ false
    → submission_at id (rows ++ (s ∷ []))
      ≡ (if str_eq s.id id then some s else submission_at id rows)
submission_at-append [] s id h = refl
submission_at-append (r ∷ rs) s id h = ground (
  arith,
  submission_at-append rs s id,
  str_eq_iff r.id id,
  str_eq_iff s.id id,
  str_eq_iff r.id s.id,
)

pub not_stored :
    (rows : List Submission) (id : String)
    → is_stored id rows ≡ false
    → submission_at id rows ≡ none
not_stored [] id h = refl
not_stored (r ∷ rs) id h = ground (arith, not_stored rs id)

pub stored :
    (rows : List Submission) (id : String)
    → is_stored id rows ≡ true
    → (s : Submission) × (submission_at id rows ≡ some s)
stored [] id h = absurd (cc)
stored (r ∷ rs) id h = elim (Bool-cases (str_eq r.id id)) [
  | inl e ↦ rw e (r, refl)
  | inr e ↦ rw e (stored rs id (rw e at h))
]

module _ (f : Submission → Submission) (keeps : (s : Submission) → (f s).id ≡ s.id) where
  pub submission_at-update :
      (rows : List Submission) (id j : String)
      → submission_at j (update_submission id f rows)
        ≡ (if str_eq id j then on_row f (submission_at j rows) else submission_at j rows)
  submission_at-update [] id j = ground arith
  submission_at-update (r ∷ rs) id j = ground (
    arith,
    submission_at-update rs id j,
    keeps r,
    str_eq_iff r.id id,
    str_eq_iff r.id j,
    str_eq_iff id j,
  )

  pub update-IsUnique :
      (rows : List Submission) (id : String)
      → IsUnique rows
      → IsUnique (update_submission id f rows)
  update-IsUnique [] id u = tt
  update-IsUnique (r ∷ rs) id u = (differs rs u.0, update-IsUnique rs id u.1)
    where
      head : (if str_eq r.id id then f r else r).id ≡ r.id
      head = elim (Bool-cases (str_eq r.id id)) [ inl e ↦ rw e (keeps r) | inr e ↦ rw e refl ]

      one :
          (q : Submission)
          → r.id ≢ q.id
          → (if str_eq r.id id then f r else r).id ≢ (if str_eq q.id id then f q else q).id
      one q d = elim (Bool-cases (str_eq q.id id)) [
        | inl e ↦ rw e (λ p. d (sym head ∙ p ∙ keeps q))
        | inr e ↦ rw e (λ p. d (sym head ∙ p))
      ]

      differs :
          (qs : List Submission)
          → All (λ (q : Submission). r.id ≢ q.id) qs
          → All
              (λ (q : Submission). (if str_eq r.id id then f r else r).id ≢ q.id)
              (update_submission id f qs)
      differs [] d = tt
      differs (q ∷ qs) d = (one q d.0, differs qs d.1)

pub append-IsUnique :
    (rows : List Submission) (s : Submission)
    → is_stored s.id rows ≡ false
    → IsUnique rows
    → IsUnique (rows ++ (s ∷ []))
append-IsUnique [] s h u = (tt, tt)
append-IsUnique (r ∷ rs) s h u = elim (Bool-cases (str_eq r.id s.id)) [
  | inl e ↦ absurd (ground arith)
  | inr e ↦ (
    All-append (λ (q : Submission). r.id ≢ q.id) rs (s ∷ []) u.0
        ((λ p. let q = (str_eq_iff r.id s.id).1 p in cc), tt),
    append-IsUnique rs s (rw e at h) u.1,
  )
]

-- Asking for a row with an id and an owner is asking for the row with the id, where ids are unique.
pub find_owned :
    (rows : List Submission) (id user_id : String)
    → IsUnique rows
    → find (λ (s : Submission). str_eq s.id id && str_eq s.user_id user_id) rows
      ≡ (elim (submission_at id rows) [
        | none ↦ none
        | some s ↦ if str_eq s.user_id user_id then some s else none
      ])
find_owned [] id user_id u = refl
find_owned (r ∷ rs) id user_id u = elim (Bool-cases (str_eq r.id id)) [
  | inl e ↦ elim (Bool-cases (str_eq r.user_id user_id)) [
    | inl o ↦ rw (e, o) refl
    | inr o ↦ rw (e, o) (absent rs u.0 ((str_eq_iff r.id id).0 e))
  ]
  | inr e ↦ rw e (find_owned rs id user_id u.1)
]
  where
    absent :
        (qs : List Submission)
        → All (λ (q : Submission). r.id ≢ q.id) qs
        → r.id ≡ id
        → find (λ (s : Submission). str_eq s.id id && str_eq s.user_id user_id) qs ≡ none
    absent [] d e = refl
    absent (q ∷ qs) d e = elim (Bool-cases (str_eq q.id id)) [
      | inl g ↦ absurd (d.0 (e ∙ sym ((str_eq_iff q.id id).0 g)))
      | inr g ↦ rw g (absent qs d.1 e)
    ]

pub All-submission_at {ℓ} :
    (P : Submission → Type ℓ) (rows : List Submission) (id : String) (s : Submission)
    → All P rows
    → submission_at id rows ≡ some s
    → P s
All-submission_at P [] id s h e = absurd (cc)
All-submission_at P (r ∷ rs) id s h e = elim (Bool-cases (str_eq r.id id)) [
  | inl b ↦ let q : r ≡ s = ground arith in subst P q h.0
  | inr b ↦ All-submission_at P rs id s h.1 (rw b at e)
]

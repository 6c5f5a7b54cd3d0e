-- ===== src/Gateway/Router/Boundary.antt =====
-- A prefix matches at the boundary of a path segment.
use oj_monorepo.Base.{
  ◌+◌, ◌≡◌, refl, sym, ◌∙◌, ◌↔◌, ◌⊎◌, inl, inr, ◌==◌, ==_iff, ==_refl, not, ◌||◌, Bool, true, false,
  String, str_eq, str_eq_iff, str_append, len, slice, starts_with, starts_with-same,
  starts_with-then, starts_with-append, append-nil, slice-append_middle, if◌then◌else◌, subst,
}
use oj_monorepo.Gateway.Router.{is_prefix_match}

-- A path that lies at a prefix or below it.
abbrev pub IsBelow : String → String → Type 0
IsBelow prefix path =
    (path ≡ prefix) ⊎ ((rest : String) × (path ≡ str_append prefix (str_append "/" rest)))

or-true : (a b : Bool) → (a || b) ≡ true → (a ≡ true) ⊎ (b ≡ true)
or-true true b h = inl refl
or-true false b h = inr h

-- The test, from its three parts.
test-true :
    (begins same slash : Bool)
    → (if not begins then false else same || slash) ≡ true
    → (begins ≡ true) × ((same ≡ true) ⊎ (slash ≡ true))
test-true true same slash h = (refl, or-true same slash h)
test-true false same slash h = absurd (cc)

test-same :
    (begins same slash : Bool)
    → begins ≡ true
    → same ≡ true
    → (if not begins then false else same || slash) ≡ true
test-same true true slash h k = refl
test-same true false slash h k = absurd (cc)
test-same false same slash h k = absurd (cc)

test-slash :
    (begins same slash : Bool)
    → begins ≡ true
    → slash ≡ true
    → (if not begins then false else same || slash) ≡ true
test-slash true true slash h k = refl
test-slash true false slash h k = k
test-slash false same slash h k = absurd (cc)

-- A prefix route takes exactly the paths that are its prefix or go on with a slash after it.
pub is_prefix_match_iff :
    (prefix path : String) → (is_prefix_match prefix path ≡ true) ↔ IsBelow prefix path
unfolding is_prefix_match
is_prefix_match_iff prefix path =
    let begins = starts_with path prefix in
    let same = len path == len prefix in
    let slash = str_eq (slice path (len prefix) (len prefix + len "/")) "/" in
    (
      (λ h.
          let (b, c) = test-true begins same slash h in
          elim c [
            | inl e ↦ inl (starts_with-same path prefix b ((==_iff (len path) (len prefix)).0 e))
            | inr e ↦ inr (
                starts_with-then path prefix "/" b
                  ((str_eq_iff (slice path (len prefix) (len prefix + len "/")) "/").0 e))
          ]),
      λ h. elim h [
        | inl e ↦
            test-same begins same slash
              (subst (λ p. starts_with p prefix ≡ true) (append-nil prefix ∙ sym e)
                (starts_with-append prefix ""))
              (subst (λ p. (len p == len prefix) ≡ true) (sym e) (==_refl (len prefix)))
        | inr (rest, e) ↦
            test-slash begins same slash
              (subst (λ p. starts_with p prefix ≡ true) (sym e)
                (starts_with-append prefix (str_append "/" rest)))
              (subst (λ p. str_eq (slice p (len prefix) (len prefix + len "/")) "/" ≡ true) (sym e)
                ((str_eq_iff _ "/").1 (slice-append_middle prefix "/" rest)))
      ],
    )

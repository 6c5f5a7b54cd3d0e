-- ===== src/Manager/Pool/Choice.antt =====
-- The agent that the dispatcher chooses.
use oj_monorepo.Base.{
  ℕ, ◌≤◌, ◌≡◌, refl, ltb, ◌==◌, List, [], ◌∷◌, Bool, true, false, none, some, if◌then◌else◌, All,
  any, keep, min_from, min_by_key, arith, subst, ==_refl, All-map, Bool-cases, sym, inl, inr,
}
use oj_monorepo.Manager.Pool.{AgentPool}
use oj_monorepo.Manager.Pool.Agents.{choose_agent, is_eligible}

-- `h` stands in the list.
abbrev pub Holds : ℕ → List ℕ → Type 0
Holds h xs = any (λ j. j == h) xs ≡ true

abbrev LeastOf : (ℕ → ℕ) → ℕ → List ℕ → Type 0
LeastOf key h xs = All (λ j. key h ≤ key j) xs

min_from-le-best : (key : ℕ → ℕ) (best : ℕ) (xs : List ℕ) → key (min_from key best xs) ≤ key best
min_from-le-best key best [] = omega arith
min_from-le-best key best (x ∷ xs) =
    ground (arith, min_from-le-best key (if ltb (key x) (key best) then x else best) xs)

min_from-LeastOf : (key : ℕ → ℕ) (best : ℕ) (xs : List ℕ) → LeastOf key (min_from key best xs) xs
min_from-LeastOf key best [] = tt
min_from-LeastOf key best (x ∷ xs) =
    let next = if ltb (key x) (key best) then x else best in
    (ground (arith, min_from-le-best key next xs), min_from-LeastOf key next xs)

min_from-Holds : (key : ℕ → ℕ) (best : ℕ) (xs : List ℕ) → Holds (min_from key best xs) (best ∷ xs)
min_from-Holds key best [] = ground (arith, ==_refl best)
min_from-Holds key best (x ∷ xs) =
    ground (arith, min_from-Holds key (if ltb (key x) (key best) then x else best) xs)

keep-Holds : (p : ℕ → Bool) (h : ℕ) (xs : List ℕ) → Holds h (keep p xs) → Holds h xs × (p h ≡ true)
keep-Holds p h [] k = ground arith
keep-Holds p h (x ∷ xs) k = ground (arith, keep-Holds p h xs)

keep-All :
    (P : ℕ → Type 0) (p : ℕ → Bool) (xs : List ℕ)
    → All P (keep p xs)
    → All (λ x. p x ≡ true → P x) xs
keep-All P p [] h = tt
keep-All P p (x ∷ xs) h = elim (Bool-cases (p x)) [
  | inl e ↦
      let h' = subst (λ b. All P (if b then x ∷ keep p xs else keep p xs)) e h in
      ((λ _. h'.0), keep-All P p xs h'.1)
  | inr e ↦
      let h' = subst (λ b. All P (if b then x ∷ keep p xs else keep p xs)) e h in
      ((λ t. absurd (cc)), keep-All P p xs h')
]

false_of : (b : Bool) → (b ≡ true → ⊥) → b ≡ false
false_of true h = absurd (h refl)
false_of false h = refl

module _ (key : ℕ → ℕ) where
  min_by_key-none : (xs : List ℕ) → min_by_key key xs ≡ none → xs ≡ []
  min_by_key-none [] e = refl
  min_by_key-none (x ∷ xs) e = cc

  min_by_key-some :
      (xs : List ℕ) (h : ℕ) → min_by_key key xs ≡ some h → Holds h xs × LeastOf key h xs
  min_by_key-some [] h e = absurd (cc)
  min_by_key-some (x ∷ xs) h e =
      let same : min_from key x xs ≡ h = cc in
      subst (λ m. Holds m (x ∷ xs) × LeastOf key m (x ∷ xs)) same
        (min_from-Holds key x xs, (min_from-le-best key x xs, min_from-LeastOf key x xs))

  -- The first least entry among those that pass a test.
  module _ (q : ℕ → Bool) (xs : List ℕ) where
    least_kept-none : min_by_key key (keep q xs) ≡ none → All (λ j. q j ≡ false) xs
    least_kept-none e =
        All-map (λ j. q j ≡ true → ⊥) (λ j. q j ≡ false) (λ j. false_of (q j)) xs
          (keep-All (λ _. ⊥) q xs (subst (All (λ _. ⊥)) (sym (min_by_key-none (keep q xs) e)) tt))

    least_kept-some :
        (h : ℕ)
        → min_by_key key (keep q xs) ≡ some h
        → Holds h xs × (q h ≡ true) × All (λ j. q j ≡ true → key h ≤ key j) xs
    least_kept-some h e =
        let (holds, least) = min_by_key-some (keep q xs) h e in
        let (held, passed) = keep-Holds q h xs holds in
        (held, passed, keep-All (λ j. key h ≤ key j) q xs least)

-- The dispatcher takes an agent exactly if one is healthy, not shutting down and below
-- `max_concurrent_per_agent`; the agent that it takes is such a one of the pool, and no other such
-- agent has fewer active tasks.
pub choose_agent-least :
    (p : AgentPool)
    → (choose_agent p ≡ none → All (λ j. is_eligible p j ≡ false) p.agents)
      × ((h : ℕ)
          → choose_agent p ≡ some h
          → Holds h p.agents
            × (is_eligible p h ≡ true)
            × All
                (λ j. is_eligible p j ≡ true → (p.store h).active_tasks ≤ (p.store j).active_tasks)
                p.agents)
unfolding choose_agent
choose_agent-least p = (
  least_kept-none (λ h. (p.store h).active_tasks) (is_eligible p) p.agents,
  least_kept-some (λ h. (p.store h).active_tasks) (is_eligible p) p.agents,
)

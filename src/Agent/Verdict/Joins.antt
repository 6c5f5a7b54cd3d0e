-- ===== src/Agent/Verdict/Joins.antt =====
-- The loops of `handle`: a rule for what holds of them, whatever the order of the completions.
use oj_monorepo.Base.{
  ℕ, zero, suc, ◌%◌, ◌<◌, ◌≡◌, refl, ◌⊎◌, inl, inr, ◌==◌, List, [], ◌∷◌, Bool, some, Result, ok,
  err, length, get_elem?, erase_at, tally, tally-erase_at, length-erase_at, All, All-get,
  All-erase_at, arith, Bool-cases, ==_iff, subst, false,
}
use oj_monorepo.Agent.Verdict.{Running, Progress, Handled, joined, join_all}

-- An index below the length has an entry.
pub get-below {ℓ} :
    {A : Type ℓ} (xs : List A) (i : ℕ) → i < length xs → (x : A) × (get_elem? xs i ≡ some x)
get-below [] i h = absurd (omega (arith, h))
get-below (x ∷ xs) zero h = (x, refl)
get-below (x ∷ xs) (suc i) h = get-below xs i (omega (arith, h))

counted-elsewhere :
    (running : List Running) (k : ℕ) (r : Running) (i : ℕ)
    → get_elem? running k ≡ some r
    → (r.index == i) ≡ false
    → 0 < tally (λ (r : Running). r.index == i) running
    → 0 < tally (λ (r : Running). r.index == i) (erase_at running k)
counted-elsewhere running k r i e other t =
    ground (arith, tally-erase_at (λ (r : Running). r.index == i) running k r e)

none-counted :
    (running : List Running) (i : ℕ)
    → 0 ≡ length running
    → ¬ (0 < tally (λ (r : Running). r.index == i) running)
none-counted [] i e t = omega (arith, t)
none-counted (r ∷ rs) i e t = omega (arith, e)

module _ (picks : ℕ → ℕ) (stop : Bool) (IsSpawned : Running → Type 0) (Inv : Progress → Type 0)
    (IsDone : Progress → ℕ → Type 0) (IsEnd : Handled → Type 0) where
  -- What one join leaves.
  abbrev pub Joined : Running → Progress → Result Progress Handled → Type 0
  Joined r p (ok p') = Inv p' × IsDone p' r.index × ((i : ℕ) → IsDone p i → IsDone p' i)
  Joined r p (err result) = IsEnd result

  -- Every index below `end` is done, or still running.
  abbrev pub Covered : ℕ → List Running → Progress → Type 0
  Covered end running p =
      (i : ℕ) → i < end → (0 < tally (λ (r : Running). r.index == i) running) ⊎ IsDone p i

  -- What a loop leaves: the invariant with every index below `end` done, or a final result.
  abbrev pub Looped : ℕ → Result Progress Handled → Type 0
  Looped end (ok p) = Inv p × ((i : ℕ) → i < end → IsDone p i)
  Looped end (err result) = IsEnd result

  module _
      (join : (r : Running) (p : Progress)
        → IsSpawned r
        → Inv p
        → Joined r p (joined stop r.index r.ended (record p { joins = suc p.joins }))) where
    erase-Covered :
        (end : ℕ) (running : List Running) (p p' : Progress) (k : ℕ) (r : Running)
        → get_elem? running k ≡ some r
        → IsDone p' r.index
        → ((i : ℕ) → IsDone p i → IsDone p' i)
        → Covered end running p
        → Covered end (erase_at running k) p'
    erase-Covered end running p p' k r e d m c i h = elim (c i h) [
      | inr done ↦ inr (m i done)
      | inl t ↦ elim (Bool-cases (r.index == i)) [
        | inl same ↦ inr (subst (IsDone p') ((==_iff r.index i).0 same) d)
        | inr other ↦ inl (counted-elsewhere running k r i e other t)
      ]
    ]

    after-Looped :
        (n end : ℕ) (running : List Running) (p : Progress) (k : ℕ) (r : Running)
        → get_elem? running k ≡ some r
        → All IsSpawned running
        → Covered end running p
        → ((p' : Progress)
            → Inv p'
            → All IsSpawned (erase_at running k)
            → Covered end (erase_at running k) p'
            → Looped end (join_all picks stop n (erase_at running k) p'))
        → (out : Result Progress Handled) → Joined r p out
        → Looped end (elim out [
          | ok p' ↦ join_all picks stop n (erase_at running k) p'
          | err result ↦ err result
        ])
    after-Looped n end running p k r e s c rest (ok p') j =
        rest p' j.0 (All-erase_at IsSpawned running k s)
          (erase-Covered end running p p' k r e j.1 j.2 c)
    after-Looped n end running p k r e s c rest (err result) j = j

    pub join_all-Looped :
        (n end : ℕ) (running : List Running) (p : Progress)
        → n ≡ length running
        → All IsSpawned running
        → Inv p
        → Covered end running p
        → Looped end (join_all picks stop n running p)
    unfolding join_all
    join_all-Looped zero end running p e s v c =
        (v, λ i h. elim (c i h) [ inl t ↦ absurd (none-counted running i e t) | inr done ↦ done ])
    join_all-Looped (suc n) end running p e s v c =
        let k = picks p.joins % length running in
        let (r, f) = get-below running k (grind arith) in
        rw (f, join_all)
          (after-Looped n end running p k r f s c
            (λ p' v' s' c'.
              join_all-Looped n end (erase_at running k) p'
                (omega (arith, length-erase_at running k r f, e)) s' v' c')
            (joined stop r.index r.ended (record p { joins = suc p.joins }))
            (join r p (All-get IsSpawned running k r s f) v))

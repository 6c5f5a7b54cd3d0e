-- ===== src/Agent/Verdict/Batches.antt =====
-- The loops of `handle`: the same rule for all batches together.
use oj_monorepo.Base.{
  ℕ, zero, suc, ◌+◌, ◌-◌, ◌≤◌, ◌<◌, ◌≡◌, refl, sym, ◌∙◌, ap, inl, inr, min, ltb, ◌==◌, Bool-cases,
  List, [], ◌∷◌, Bool, some, Result, ok, err, length, get_elem?, take, drop, tally, All, arith,
}
use oj_monorepo.Shared.Models.{Case, ResourcesLimit}
use oj_monorepo.Agent.Verdict.{
  Running, Progress, Handled, Judge, batch_max, joined, join_all, spawned, run_batches,
}
use oj_monorepo.Agent.Verdict.Joins.{Joined, Covered, Looped, join_all-Looped}

length-take : {A : Type 0} (n : ℕ) (xs : List A) → n ≤ length xs → length (take n xs) ≡ n
length-take zero xs h = refl
length-take (suc n) [] h = absurd (omega (arith, h))
length-take (suc n) (x ∷ xs) h = ap suc (length-take n xs (omega (arith, h)))

length-drop : {A : Type 0} (n : ℕ) (xs : List A) → length (drop n xs) ≡ length xs - n
length-drop zero xs = omega arith
length-drop (suc n) [] = omega arith
length-drop (suc n) (x ∷ xs) = omega (arith, length-drop n xs)

get-take :
    {A : Type 0} (n : ℕ) (xs : List A) (j : ℕ) (x : A)
    → get_elem? (take n xs) j ≡ some x
    → get_elem? xs j ≡ some x
get-take zero xs j x h = absurd (cc)
get-take (suc n) [] j x h = absurd (cc)
get-take (suc n) (y ∷ ys) zero x h = h
get-take (suc n) (y ∷ ys) (suc j) x h = get-take n ys j x h

suc_add : (n j : ℕ) → suc (n + j) ≡ suc n + j
suc_add n j = omega arith

get-drop :
    {A : Type 0} (n : ℕ) (xs : List A) (j : ℕ) → get_elem? (drop n xs) j ≡ get_elem? xs (n + j)
get-drop zero xs j = ap (get_elem? xs) (omega arith)
get-drop (suc n) [] j = refl
get-drop (suc n) (x ∷ xs) j = get-drop n xs j ∙ ap (get_elem? (x ∷ xs)) (suc_add n j)

module _ (picks : ℕ → ℕ) (stop : Bool) (judge : Judge) (limits : ResourcesLimit) (ids : ℕ → ℕ)
    (all : List Case) where
  -- A running case is one of the task's, and ends as the judge says.
  abbrev pub IsSpawned : Running → Type 0
  IsSpawned r =
      (c : Case) × (get_elem? all r.index ≡ some c)
      × (judge.verdict c limits (ids r.index) ≡ r.ended)

  -- The cases that remain are those from `case_idx` on.
  abbrev Remains : ℕ → List Case → Type 0
  Remains case_idx cases =
      (j : ℕ) (c : Case) → get_elem? cases j ≡ some c → get_elem? all (case_idx + j) ≡ some c

  length-spawned :
      (case_idx : ℕ) (cases : List Case)
      → length (spawned picks stop judge limits ids case_idx cases) ≡ length cases
  unfolding spawned
  length-spawned case_idx [] = refl
  length-spawned case_idx (c ∷ cs) = ap suc (length-spawned (suc case_idx) cs)

  Remains-tail :
      (case_idx : ℕ) (c : Case) (cs : List Case)
      → Remains case_idx (c ∷ cs)
      → Remains (suc case_idx) cs
  Remains-tail case_idx c cs h j d e = ap (get_elem? all) (omega arith) ∙ h (suc j) d e

  spawned-IsSpawned :
      (case_idx : ℕ) (cases : List Case)
      → Remains case_idx cases
      → All IsSpawned (spawned picks stop judge limits ids case_idx cases)
  unfolding spawned
  spawned-IsSpawned case_idx [] h = tt
  spawned-IsSpawned case_idx (c ∷ cs) h = (
    (c, ap (get_elem? all) (omega arith) ∙ h 0 c refl, refl),
    spawned-IsSpawned (suc case_idx) cs (Remains-tail case_idx c cs h),
  )

  spawned-counted :
      (case_idx : ℕ) (cases : List Case) (i : ℕ)
      → case_idx ≤ i
      → i < case_idx + length cases
      → 0
        < tally (λ (r : Running). r.index == i) (spawned picks stop judge limits ids case_idx cases)
  unfolding spawned
  spawned-counted case_idx [] i h k = absurd (omega (arith, h, k))
  spawned-counted case_idx (c ∷ cs) i h k = elim (Bool-cases (case_idx == i)) [
    | inl e ↦ ground arith
    | inr e ↦ ground (arith, spawned-counted (suc case_idx) cs i (ground arith) (omega (arith, k)))
  ]

  module _ (Inv : Progress → Type 0) (IsDone : Progress → ℕ → Type 0) (IsEnd : Handled → Type 0)
      (join : (r : Running) (p : Progress)
        → IsSpawned r
        → Inv p
        → Joined picks stop IsSpawned Inv IsDone IsEnd r p
            (joined stop r.index r.ended (record p { joins = suc p.joins }))) where
    abbrev Ends : ℕ → Result Progress Handled → Type 0
    Ends = Looped picks stop IsSpawned Inv IsDone IsEnd

    batch-Covered :
        (case_idx : ℕ) (cases : List Case) (p : Progress)
        → ((i : ℕ) → i < case_idx → IsDone p i)
        → Covered picks stop IsSpawned Inv IsDone IsEnd
            (case_idx + length cases)
            (spawned picks stop judge limits ids case_idx cases)
            p
    batch-Covered case_idx cases p d i h = elim (Bool-cases (ltb i case_idx)) [
      | inl e ↦ inr (d i (ground arith))
      | inr e ↦ inl (spawned-counted case_idx cases i (ground arith) h)
    ]

    rest-Ends :
        (middle total : ℕ) (next : Progress → Result Progress Handled)
        → ((p : Progress) → Inv p → ((i : ℕ) → i < middle → IsDone p i) → Ends total (next p))
        → (out : Result Progress Handled) → Ends middle out
        → Ends total (elim out [ ok p ↦ next p | err result ↦ err result ])
    rest-Ends middle total next h (ok p) l = h p l.0 l.1
    rest-Ends middle total next h (err result) l = l

    batch-Ends :
        (case_idx size : ℕ) (batch : List Case) (p : Progress)
        → size ≡ length batch
        → Remains case_idx batch
        → Inv p
        → ((i : ℕ) → i < case_idx → IsDone p i)
        → Ends
            (case_idx + size)
            (join_all picks stop size (spawned picks stop judge limits ids case_idx batch) p)
    batch-Ends case_idx size batch p e m v d =
        join_all-Looped picks stop IsSpawned Inv IsDone IsEnd join size (case_idx + size)
          (spawned picks stop judge limits ids case_idx batch) p
          (e ∙ sym (length-spawned case_idx batch)) (spawned-IsSpawned case_idx batch m) v
          (λ i h. batch-Covered case_idx batch p d i (omega (arith, h, e)))

    pub run_batches-Ends :
        (fuel case_idx total : ℕ) (cases : List Case) (p : Progress)
        → length cases ≤ fuel
        → case_idx + length cases ≡ total
        → Remains case_idx cases
        → Inv p
        → ((i : ℕ) → i < case_idx → IsDone p i)
        → Looped picks stop IsSpawned Inv IsDone IsEnd total
            (run_batches picks stop judge limits ids fuel case_idx cases p)
    unfolding run_batches
    run_batches-Ends zero case_idx total cases p f e m v d =
        (v, λ i h. d i (omega (arith, h, f, e)))
    run_batches-Ends (suc fuel) case_idx total [] p f e m v d =
        (v, λ i h. d i (omega (arith, h, e)))
    run_batches-Ends (suc fuel) case_idx total (c ∷ cs) p f e m v d =
        let size = min batch_max (length (c ∷ cs)) in
        rest-Ends (case_idx + size) total
          (run_batches picks stop judge limits ids fuel (case_idx + size) (drop size (c ∷ cs)))
          (λ p' v' d'.
            run_batches-Ends fuel (case_idx + size) total (drop size (c ∷ cs)) p'
              (omega (arith, length-drop size (c ∷ cs), f))
              (omega (arith, length-drop size (c ∷ cs), e))
              (λ j x h.
                ap (get_elem? all) (omega arith)
                ∙ m (size + j) x (sym (get-drop size (c ∷ cs) j) ∙ h))
              v' d')
          _
          (batch-Ends case_idx size (take size (c ∷ cs)) p
            (sym (length-take size (c ∷ cs) (omega arith)))
            (λ j x h. m j x (get-take size (c ∷ cs) j x h)) v d)

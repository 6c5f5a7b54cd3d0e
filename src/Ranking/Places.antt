-- ===== src/Ranking/Places.antt =====
-- What `rank` promises: standard competition ranks, for every order of equal entries that
-- `sort_unstable_by` may choose.
use mathlib.Core.List.{Perm}
use oj_monorepo.Base.{
  ℕ, suc, ◌+◌, ◌%◌, ◌<◌, ◌≡◌, refl, sym, ◌∙◌, ap, List, [], ◌∷◌, ◌++◌, map, Bool, true, false,
  if◌then◌else◌, All, All-map, All-append, length, length-append, tally, tally_all, tally_none,
  length-tally, tally-append, arith, u64_mod, Bool-cases, inl, inr,
}
use oj_monorepo.Ranking.{IcpcEntry, IcpcRanker, is_tie, rank_from, rank_sorted, insert, sort, rank}
use oj_monorepo.Ranking.Order.{
  is_better, IsRanked, is_better_trans, not_better_trans, sort-perm, sort-IsRanked,
}

-- One more than the number of entries that stand strictly before `x`.
abbrev pub place : IcpcRanker → List IcpcEntry → IcpcEntry → ℕ
place r xs x = suc (tally (λ y. is_better r y x) xs)

is_tie-is_better :
    (r : IcpcRanker) (c p x : IcpcEntry) → is_tie r c p ≡ true → is_better r x c ≡ is_better r x p
unfolding is_tie is_better
is_tie-is_better r c p x h = ground arith

not_tie-is_better :
    (r : IcpcRanker) (c p : IcpcEntry)
    → is_tie r c p ≡ false
    → is_better r c p ≡ false
    → is_better r p c ≡ true
unfolding is_tie is_better
not_tie-is_better r c p h k = ground arith

is_better_irrefl : (r : IcpcRanker) (x : IcpcEntry) → is_better r x x ≡ false
unfolding is_better
is_better_irrefl r x = ground arith

tally_ext {ℓ} :
    {A : Type ℓ} (p q : A → Bool) → ((x : A) → p x ≡ q x) → (xs : List A) → tally p xs ≡ tally q xs
tally_ext p q h [] = refl
tally_ext p q h (x ∷ xs) = rw (h x, tally_ext p q h xs)

-- `done` has been ranked and ends with `previous`; no later entry beats an earlier one.
module _ (r : IcpcRanker) where
  record At (done : List IcpcEntry) (previous : IcpcEntry) (rest : List IcpcEntry) : Type 0 where
    before : All (λ d. is_better r previous d ≡ false) done
    after : All (λ y. is_better r y previous ≡ false) rest
    ranked : IsRanked r rest

  place_fresh :
      (done : List IcpcEntry) (previous current : IcpcEntry) (rest : List IcpcEntry)
      → At done previous (current ∷ rest)
      → is_tie r current previous ≡ false
      → place r (done ++ current ∷ rest) current ≡ suc (length done)
  place_fresh done previous current rest a h =
      let beats = not_tie-is_better r current previous h a.after.0 in
      omega (
        arith,
        tally-append (λ y. is_better r y current) done (current ∷ rest),
        tally_all (λ y. is_better r y current) done
            (All-map _ _ (λ d k. is_better_trans r d previous current k beats) done a.before),
        tally_none (λ y. is_better r y current) (current ∷ rest)
            (is_better_irrefl r current, a.ranked.0),
      )

  snoc_append : (xs ys : List IcpcEntry) (x : IcpcEntry) → xs ++ x ∷ ys ≡ (xs ++ x ∷ []) ++ ys
  snoc_append [] ys x = refl
  snoc_append (z ∷ xs) ys x = ap (◌∷◌ z) (snoc_append xs ys x)

  At-next :
      (done : List IcpcEntry) (previous current : IcpcEntry) (rest : List IcpcEntry)
      → At done previous (current ∷ rest)
      → At (done ++ current ∷ []) current rest
  At-next done previous current rest a = record {
    before =
        All-append (λ d. is_better r current d ≡ false) done (current ∷ [])
          (All-map _ _ (λ d k. not_better_trans r d previous current k a.after.0) done a.before)
          (is_better_irrefl r current, tt);
    after = a.ranked.0;
    ranked = a.ranked.1;
  }

  next_rank :
      (done : List IcpcEntry) (previous current : IcpcEntry) (last : ℕ) (rest : List IcpcEntry)
      → At done previous (current ∷ rest)
      → last ≡ place r (done ++ current ∷ rest) previous
      → length (done ++ current ∷ rest) < u64_mod
      → (if is_tie r current previous then last else (length done + 1) % u64_mod)
        ≡ place r (done ++ current ∷ rest) current
  next_rank done previous current last rest a e h = elim (Bool-cases (is_tie r current previous)) [
    | inl tie ↦ rw tie (
        e
        ∙ ap suc (
            sym (
              tally_ext _ _ (λ x. is_tie-is_better r current previous x tie)
                (done ++ current ∷ rest))))
    | inr fresh ↦ rw fresh (
        omega (
          arith,
          length-append done (current ∷ rest),
          place_fresh done previous current rest a fresh,
        ))
  ]

  rank_from-place :
      (whole done : List IcpcEntry) (i : ℕ) (previous : IcpcEntry) (last : ℕ)
      (rest : List IcpcEntry)
      → whole ≡ done ++ rest
      → i ≡ length done
      → At done previous rest
      → last ≡ place r whole previous
      → length whole < u64_mod
      → All (λ e. e.rank ≡ place r whole e.entry) (rank_from r i previous last rest)
  unfolding rank_from
  rank_from-place whole done i previous last [] w l a e h = tt
  rank_from-place whole done i previous last (current ∷ rest) w l a e h =
      let here : (if is_tie r current previous then last else (i + 1) % u64_mod)
          ≡ place r whole current =
        rw (w, l) (next_rank done previous current last rest a (rw w at e) (rw w at h)) in
      (
        here,
        rank_from-place whole (done ++ current ∷ []) (suc i) current _ rest
            (w ∙ snoc_append done rest current) (omega (arith, length-append done (current ∷ [])))
            (At-next done previous current rest a) here h,
      )

  -- Every order of equal entries that a sort may leave gets the same, standard competition ranks:
  -- on a list in ranking order of fewer than 2 ^ 64 entries, each entry's rank is one more than
  -- the number of entries that stand strictly before it.
  pub rank_sorted-place :
      (xs : List IcpcEntry)
      → IsRanked r xs
      → length xs < u64_mod
      → All (λ e. e.rank ≡ place r xs e.entry) (rank_sorted r xs)
  unfolding rank_sorted
  rank_sorted-place [] s h = tt
  rank_sorted-place (x ∷ xs) s h =
      let first : 1 ≡ place r (x ∷ xs) x =
        omega (arith, tally_none (λ y. is_better r y x) (x ∷ xs) (is_better_irrefl r x, s.0)) in
      (
        first,
        rank_from-place (x ∷ xs) (x ∷ []) 1 x 1 xs refl refl
            (record { before = (is_better_irrefl r x, tt); after = s.0; ranked = s.1 }) first h,
      )

  rank_from-entries :
      (i : ℕ) (previous : IcpcEntry) (last : ℕ) (xs : List IcpcEntry)
      → map (λ e. e.entry) (rank_from r i previous last xs) ≡ xs
  unfolding rank_from
  rank_from-entries i previous last [] = refl
  rank_from-entries i previous last (x ∷ xs) =
      ap (◌∷◌ x)
        (rank_from-entries (suc i) x (if is_tie r x previous then last else (i + 1) % u64_mod) xs)

  rank_sorted-entries : (xs : List IcpcEntry) → map (λ e. e.entry) (rank_sorted r xs) ≡ xs
  unfolding rank_sorted
  rank_sorted-entries [] = refl
  rank_sorted-entries (x ∷ xs) = ap (◌∷◌ x) (rank_from-entries 1 x 1 xs)

  tally-insert :
      (p : IcpcEntry → Bool) (x : IcpcEntry) (ys : List IcpcEntry)
      → tally p (insert r x ys) ≡ (if p x then 1 else 0) + tally p ys
  unfolding insert
  tally-insert p x [] = refl
  tally-insert p x (y ∷ ys) = ground (arith, tally-insert p x ys)

  tally-sort : (p : IcpcEntry → Bool) (xs : List IcpcEntry) → tally p (sort r xs) ≡ tally p xs
  unfolding sort
  tally-sort p [] = refl
  tally-sort p (x ∷ xs) = omega (arith, tally-insert p x (sort r xs), tally-sort p xs)

  -- `rank` of fewer than 2 ^ 64 entries ranks every entry that it is given once, and the rank is
  -- one more than the number of given entries that stand strictly before it.
  pub rank_lem :
      (entries : List IcpcEntry)
      → length entries < u64_mod
      → Perm (map (λ e. e.entry) (rank r entries)) entries
        × All (λ e. e.rank ≡ place r entries e.entry) (rank r entries)
  unfolding rank
  rank_lem entries h = (
    rw (rank_sorted-entries (sort r entries)) (sort-perm r entries),
    All-map (λ e. e.rank ≡ place r (sort r entries) e.entry) _
        (λ e k. k ∙ ap suc (tally-sort (λ y. is_better r y e.entry) entries)) (rank r entries)
        (rank_sorted-place (sort r entries) (sort-IsRanked r entries) (
          omega (
            arith,
            length-tally entries,
            length-tally (sort r entries),
            tally-sort (λ _. true) entries,
          ))),
  )

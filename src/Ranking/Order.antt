-- ===== src/Ranking/Order.antt =====
-- The order of the ICPC ranking described apart from the comparator, and that `sort` follows it
-- and rearranges its input.
use mathlib.Core.List.{Perm}
use mathlib.Core.List.Perm
use oj_monorepo.Base.{
  ◌≡◌, List, [], ◌∷◌, Bool, true, false, ◌&&◌, ◌||◌, ltb, ◌==◌, All, All-map, arith, Bool-cases,
  inl, inr,
}
use oj_monorepo.Ranking.{IcpcEntry, IcpcRanker, penalty, compare_entries, is_le, insert, sort}

-- `a` stands strictly before `b`: more problems, or as many with less penalty.
unfoldable pub is_better : IcpcRanker → IcpcEntry → IcpcEntry → Bool
is_better r a b =
    ltb b.solved_problems a.solved_problems
    || ((a.solved_problems == b.solved_problems) && ltb (penalty r a) (penalty r b))

-- No entry stands strictly before one that the list has earlier.
abbrev pub IsRanked : IcpcRanker → List IcpcEntry → Type 0
IsRanked r [] = Unit
IsRanked r (x ∷ xs) = All (λ y. is_better r y x ≡ false) xs × IsRanked r xs

pub is_better_trans :
    (r : IcpcRanker) (a b c : IcpcEntry)
    → is_better r b a ≡ false
    → is_better r b c ≡ true
    → is_better r a c ≡ true
unfolding is_better
is_better_trans r a b c h k = ground arith

pub not_better_trans :
    (r : IcpcRanker) (a b c : IcpcEntry)
    → is_better r b a ≡ false
    → is_better r c b ≡ false
    → is_better r c a ≡ false
unfolding is_better
not_better_trans r a b c h k = ground arith

comes_first :
    (r : IcpcRanker) (a b : IcpcEntry)
    → is_le (compare_entries r a b) ≡ true
    → is_better r b a ≡ false
unfolding is_better compare_entries is_le
comes_first r a b h = ground arith

comes_later :
    (r : IcpcRanker) (a b : IcpcEntry)
    → is_le (compare_entries r a b) ≡ false
    → is_better r a b ≡ false
unfolding is_better compare_entries is_le
comes_later r a b h = ground arith

insert-All :
    (P : IcpcEntry → Type 0) (r : IcpcRanker) (x : IcpcEntry) (ys : List IcpcEntry)
    → P x
    → All P ys
    → All P (insert r x ys)
unfolding insert
insert-All P r x [] p h = (p, tt)
insert-All P r x (y ∷ ys) p h = elim (Bool-cases (is_le (compare_entries r x y))) [
  | inl first ↦ rw first (p, h)
  | inr later ↦ rw later (h.0, insert-All P r x ys p h.1)
]

insert-IsRanked :
    (r : IcpcRanker) (x : IcpcEntry) (ys : List IcpcEntry)
    → IsRanked r ys
    → IsRanked r (insert r x ys)
unfolding insert
insert-IsRanked r x [] h = (tt, tt)
insert-IsRanked r x (y ∷ ys) h = elim (Bool-cases (is_le (compare_entries r x y))) [
  | inl first ↦
      let xy = comes_first r x y first in
      rw first ((xy, All-map _ _ (λ z k. not_better_trans r x y z xy k) ys h.0), h)
  | inr later ↦ rw later (
    insert-All (λ z. is_better r z y ≡ false) r x ys (comes_later r x y later) h.0,
    insert-IsRanked r x ys h.1,
  )
]

insert-perm : (r : IcpcRanker) (x : IcpcEntry) (ys : List IcpcEntry) → Perm (insert r x ys) (x ∷ ys)
unfolding insert
insert-perm r x [] = Perm.rfl
insert-perm r x (y ∷ ys) = elim (Bool-cases (is_le (compare_entries r x y))) [
  | inl first ↦ rw first Perm.rfl
  | inr later ↦ rw later (Perm.trans (Perm.cons y (insert-perm r x ys)) (Perm.swap x y ys))
]

pub sort-perm : (r : IcpcRanker) (xs : List IcpcEntry) → Perm (sort r xs) xs
unfolding sort
sort-perm r [] = Perm.rfl
sort-perm r (x ∷ xs) = Perm.trans (insert-perm r x (sort r xs)) (Perm.cons x (sort-perm r xs))

pub sort-IsRanked : (r : IcpcRanker) (xs : List IcpcEntry) → IsRanked r (sort r xs)
unfolding sort
sort-IsRanked r [] = tt
sort-IsRanked r (x ∷ xs) = insert-IsRanked r x (sort r xs) (sort-IsRanked r xs)

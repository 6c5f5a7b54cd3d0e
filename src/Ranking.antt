-- ===== src/Ranking.antt =====
-- services/crates/algorithm/src/ranking.rs: the ICPC ranking.
-- `u64` sums and products wrap, as in a release build.
pub mod Places
pub mod Order
mod Tests
use oj_monorepo.Base.{
  ℕ, suc, ◌+◌, ◌*◌, ◌%◌, ◌&&◌, String, List, [], ◌∷◌, ◌++◌, Bool, true, false, ltb, leb, ◌==◌,
  if◌then◌else◌, u64_mod,
}
use Prim.Native.Nat.{compare, Ordering}

pub record IcpcEntry : Type 0 where
  pub id : String
  pub solved_problems : ℕ
  pub penalty_count : ℕ
  pub time_using : ℕ

pub record IcpcOptions : Type 0 where
  pub penalty_seconds : ℕ

pub record RankedEntry : Type 0 where
  pub entry : IcpcEntry
  pub rank : ℕ

pub record IcpcRanker : Type 0 where
  pub penalty_seconds : ℕ

pub new : IcpcOptions → IcpcRanker
new options = record { penalty_seconds = options.penalty_seconds }

unfoldable pub penalty : IcpcRanker → IcpcEntry → ℕ
penalty r e = (e.time_using + e.penalty_count * r.penalty_seconds % u64_mod) % u64_mod

-- The comparator handed to `sort_unstable_by`: more solved problems first, then less penalty.
unfoldable pub compare_entries : IcpcRanker → IcpcEntry → IcpcEntry → Ordering
compare_entries r a b = elim (compare b.solved_problems a.solved_problems) [
  | Ordering.eq ↦ compare (penalty r a) (penalty r b)
  | Ordering.lt ↦ Ordering.lt
  | Ordering.gt ↦ Ordering.gt
]

is_le : Ordering → Bool
is_le Ordering.gt = false
is_le _ = true

insert : IcpcRanker → IcpcEntry → List IcpcEntry → List IcpcEntry
insert r x [] = x ∷ []
insert r x (y ∷ ys) =
    let rest = insert r x ys in if is_le (compare_entries r x y) then x ∷ y ∷ ys else y ∷ rest

-- One of the orders that `sort_unstable_by` may return: the order of equal entries is open there,
-- and the theorems about ranks hold for each of them.
unfoldable pub sort : IcpcRanker → List IcpcEntry → List IcpcEntry
unfolding insert is_le compare_entries penalty
sort r [] = []
sort r (x ∷ xs) = insert r x (sort r xs)

is_tie : IcpcRanker → IcpcEntry → IcpcEntry → Bool
is_tie r current previous =
    (current.solved_problems == previous.solved_problems)
    && (penalty r current == penalty r previous)

-- The loop from its second round on: `i` is the index of the first entry that is left, `previous`
-- is `result[i - 1].entry`, and `rank` is the last rank given.
unfoldable pub rank_from : IcpcRanker → ℕ → IcpcEntry → ℕ → List IcpcEntry → List RankedEntry
unfolding is_tie penalty
rank_from r i previous rank [] = []
rank_from r i previous rank (current ∷ rest) =
    let rank' = (if is_tie r current previous then rank else (i + 1) % u64_mod) in
    record { entry = current; rank = rank' } ∷ rank_from r (suc i) current rank' rest

unfoldable pub rank_sorted : IcpcRanker → List IcpcEntry → List RankedEntry
unfolding rank_from
rank_sorted r [] = []
rank_sorted r (first ∷ rest) = record { entry = first; rank = 1 } ∷ rank_from r 1 first 1 rest

unfoldable pub rank : IcpcRanker → List IcpcEntry → List RankedEntry
unfolding sort rank_sorted
rank r entries = rank_sorted r (sort r entries)

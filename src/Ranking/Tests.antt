-- ===== src/Ranking/Tests.antt =====
-- The ranking of three entries, two of them equal, and its theorems there.
use mathlib.Core.List.{Perm}
use oj_monorepo.Base.{◌≡◌, refl, List, [], ◌∷◌, map, All, arith}
use oj_monorepo.Ranking.{IcpcEntry, IcpcRanker, RankedEntry, rank}
use oj_monorepo.Ranking.Places.{place, rank_lem}

abbrev ranker : IcpcRanker
ranker = record { penalty_seconds = 1200 }

abbrev first : IcpcEntry
first = record { id = "a"; solved_problems = 3; penalty_count = 1; time_using = 3000 }

abbrev same : IcpcEntry
same = record { id = "b"; solved_problems = 3; penalty_count = 0; time_using = 4200 }

abbrev slower : IcpcEntry
slower = record { id = "c"; solved_problems = 2; penalty_count = 0; time_using = 100 }

abbrev entries : List IcpcEntry
entries = slower ∷ same ∷ first ∷ []

ranks : map (λ (e : RankedEntry). e.rank) (rank ranker entries) ≡ 1 ∷ 1 ∷ 3 ∷ []
unfolding rank
ranks = refl

rank_lem_example :
    Perm (map (λ e. e.entry) (rank ranker entries)) entries
    × All (λ e. e.rank ≡ place ranker entries e.entry) (rank ranker entries)
rank_lem_example = rank_lem ranker entries (omega arith)

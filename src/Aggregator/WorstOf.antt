-- ===== src/Aggregator/WorstOf.antt =====
-- src/aggregator.cpp: worst_of(), the roll-up of severities.
pub mod Laws
use edge_healthd.Prelude.{ℕ, List, [], ◌∷◌, if◌then◌else◌}
use edge_healthd.Prelude.Int.{ℤ, pos, negsuc, ltb_ℤ}
use edge_healthd.Types.Enums.{Severity}

unfoldable pub rank : Severity → ℕ
rank Severity.unknown = 0
rank Severity.ok = 1
rank Severity.stale = 2
rank Severity.unavailable = 3
rank Severity.warn = 4
rank Severity.crit = 5

-- The loop: the worst rank and severity so far.
worst_from : ℤ → Severity → List Severity → Severity
worst_from worst_rank worst [] = worst
worst_from worst_rank worst (s ∷ ss) =
    let worse = ltb_ℤ worst_rank (pos (rank s)) in
    worst_from (if worse then pos (rank s) else worst_rank) (if worse then s else worst) ss

unfoldable pub worst_of : List Severity → Severity
unfolding worst_from rank
worst_of severities = worst_from (negsuc 0) Severity.unknown severities

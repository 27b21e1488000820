-- ===== src/Aggregator.antt =====
-- src/aggregator.cpp: the evaluation of the collected data. `WorstOf` is the ranking, `Evaluate` the
-- evaluation of each section, `Reasons` the reason codes, `Aggregate` the summary.
pub mod WorstOf
pub mod Evaluate
pub mod Reasons
pub mod Aggregate

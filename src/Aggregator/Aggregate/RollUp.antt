-- ===== src/Aggregator/Aggregate/RollUp.antt =====
-- The summary of src/aggregator.cpp: the roll-up hides no domain.
use edge_healthd.Prelude.{
  ℕ, ◌≤◌, ◌≡◌, sym, ◌∙◌, ◌↔◌, true, false, ◌&&◌, List, [], ◌∷◌, Memᴰ, ltb, is_empty, if◌then◌else◌,
  arith,
}
use edge_healthd.Prelude.Double.{Double}
use edge_healthd.Types.Enums.{Severity}
use edge_healthd.Types.Sections.{
  SectionFreshness, DeviceInfo, BootStatus, ServicesStatus, ResourcesStatus, TimeSyncStatus,
  UpdateStatus, JournalStatus, CrashStatus,
}
use edge_healthd.Types.Snapshot.{DomainSeverities, domain_list, is_quiet, degraded_domains}
use edge_healthd.Types.Snapshot.Degraded.{all_quiet, is_empty-degraded_domains}
use edge_healthd.Config.{Config}
use edge_healthd.Aggregator.WorstOf.{worst_of, rank}
use edge_healthd.Aggregator.WorstOf.Laws.{worst_of-le, worst_of-mem, RankAtMost}
use edge_healthd.Aggregator.Evaluate.{
  evaluate_boot, evaluate_services, evaluate_resources, evaluate_time_sync, evaluate_update,
  evaluate_journal, evaluate_crash,
}
use edge_healthd.Aggregator.Aggregate.{raise_stale, aggregate, domain_severities, compute_overall}

is_quiet-rank : (s : Severity) → (is_quiet s ≡ true) ↔ (rank s ≤ 1)
unfolding rank
is_quiet-rank s = ground arith

all_quiet-RankAtMost : (ss : List Severity) → (all_quiet ss ≡ true) ↔ RankAtMost 1 ss
all_quiet-RankAtMost [] = ground arith
all_quiet-RankAtMost (s ∷ ss) = ground (arith, is_quiet-rank s, all_quiet-RankAtMost ss)

is_quiet-worst_of : (ss : List Severity) → is_quiet (worst_of ss) ≡ all_quiet ss
is_quiet-worst_of ss =
    ground (arith, is_quiet-rank (worst_of ss), worst_of-le 1 ss, all_quiet-RankAtMost ss)

-- What staleness should do to a severity.
abbrev pub staleness : SectionFreshness → Severity → Severity
staleness f s = if f.stale && ltb (rank s) (rank Severity.stale) then Severity.stale else s

raise_stale_lem : (f : SectionFreshness) (s : Severity) → raise_stale f s ≡ staleness f s
unfolding raise_stale worst_of rank
raise_stale_lem f s = ground arith

-- How a crash section that has been read in time is judged.
abbrev pub judged_crash : CrashStatus → Severity
judged_crash crash = if crash.acknowledged then Severity.ok else evaluate_crash crash

fresh-judged :
    (crash : CrashStatus)
    → crash.freshness.stale ≡ false
    → raise_stale crash.freshness (evaluate_crash crash) ≡ judged_crash crash
unfolding raise_stale evaluate_crash
fresh-judged crash f = simp f (ground arith)

module _ {F : Type 0} (fp : Double F) (config : Config F) (cores now : ℕ) where
  -- Artifacts that have been read in time are judged, and leave the domain ok if acknowledged.
  pub aggregate-judged :
      (device : DeviceInfo) (boot : BootStatus) (services : ServicesStatus)
      (resources : ResourcesStatus F) (time_sync : TimeSyncStatus) (update : UpdateStatus)
      (journal : JournalStatus) (crash : CrashStatus)
      → crash.freshness.stale ≡ false
      → (aggregate fp config cores now device boot services resources time_sync update journal
          crash).summary.domains.crash
        ≡ judged_crash crash
  unfolding aggregate domain_severities
  aggregate-judged device boot services resources time_sync update journal crash f =
      fresh-judged crash f

  -- The overall severity is at least as bad as that of every domain in the summary, and is that of
  -- one of them.
  pub aggregate_worst :
      (device : DeviceInfo) (boot : BootStatus) (services : ServicesStatus)
      (resources : ResourcesStatus F) (time_sync : TimeSyncStatus) (update : UpdateStatus)
      (journal : JournalStatus) (crash : CrashStatus)
      → let summary =
          (aggregate fp config cores now device boot services resources time_sync update journal
            crash).summary in
        RankAtMost (rank summary.severity) (domain_list summary.domains)
        × Memᴰ summary.severity (domain_list summary.domains)
  unfolding aggregate compute_overall
  aggregate_worst device boot services resources time_sync update journal crash =
      ((worst_of-le _ (domain_list d)).0 (omega arith), worst_of-mem d.boot _)
    where
      d : DomainSeverities
      d =
          domain_severities fp config cores now boot services resources time_sync update journal
            crash

  -- The heartbeat log names no domain exactly when the overall severity is ok or unknown.
  pub degraded_domains-aggregate :
      (device : DeviceInfo) (boot : BootStatus) (services : ServicesStatus)
      (resources : ResourcesStatus F) (time_sync : TimeSyncStatus) (update : UpdateStatus)
      (journal : JournalStatus) (crash : CrashStatus)
      → let summary =
          (aggregate fp config cores now device boot services resources time_sync update journal
            crash).summary in
        is_empty (degraded_domains summary.domains) ≡ is_quiet summary.severity
  unfolding aggregate compute_overall
  degraded_domains-aggregate device boot services resources time_sync update journal crash =
      is_empty-degraded_domains _ ∙ sym (is_quiet-worst_of _)

  -- A stale section never counts as less than stale, keeps a worse severity that it had, and a
  -- fresh section is judged as it is.
  pub aggregate_stale :
      (device : DeviceInfo) (boot : BootStatus) (services : ServicesStatus)
      (resources : ResourcesStatus F) (time_sync : TimeSyncStatus) (update : UpdateStatus)
      (journal : JournalStatus) (crash : CrashStatus)
      → let d =
          (aggregate fp config cores now device boot services resources time_sync update journal
            crash).summary.domains in
        (d.boot ≡ staleness boot.freshness (evaluate_boot config.thresholds boot))
        × (d.services ≡ staleness services.freshness (evaluate_services services))
        × (d.resources
            ≡ staleness resources.freshness
                (evaluate_resources fp cores config.thresholds resources))
        × (d.time_sync ≡ staleness time_sync.freshness (evaluate_time_sync time_sync))
        × (d.update ≡ staleness update.freshness (evaluate_update update))
        × (d.journal ≡ staleness journal.freshness (evaluate_journal journal))
        × (d.crash ≡ staleness crash.freshness (evaluate_crash crash))
  unfolding aggregate domain_severities
  aggregate_stale device boot services resources time_sync update journal crash = (
    raise_stale_lem boot.freshness (evaluate_boot config.thresholds boot),
    raise_stale_lem services.freshness (evaluate_services services),
    raise_stale_lem resources.freshness (evaluate_resources fp cores config.thresholds resources),
    raise_stale_lem time_sync.freshness (evaluate_time_sync time_sync),
    raise_stale_lem update.freshness (evaluate_update update),
    raise_stale_lem journal.freshness (evaluate_journal journal),
    raise_stale_lem crash.freshness (evaluate_crash crash),
  )

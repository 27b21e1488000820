-- ===== src/Json/Serializer.antt =====
-- src/json.cpp: to_json of the summary and of the whole snapshot; the children have the sections. Times
-- go through the library's gmtime_r and put_time, a parameter. The text of the result is nlohmann's.
pub mod Sections
pub mod Resources
use edge_healthd.Prelude.{ℕ, List, [], ◌∷◌, ◌++◌, Str, str}
use edge_healthd.Prelude.Double.{Double}
use edge_healthd.Types.Enums.{Severity, severity_to_string}
use edge_healthd.Types.Snapshot.{SnapshotState, SnapshotSummary, DomainSeverities}
use edge_healthd.Json.{Json, string, natural, object_of, array_of, optional}
use edge_healthd.Json.Serializer.Sections.{
  time, device_json, boot_json, services_json, time_sync_json, update_json, journal_json,
  crash_json,
}
use edge_healthd.Json.Serializer.Resources.{resources_json}

abbrev pub schema : Str
schema = str "edge.health.state"

abbrev pub schema_version : Str
schema_version = str "1.1"

module _ {F : Type 0} where
  -- The lambda `sev`.
  abbrev sev : Severity → Json F
  sev s = string (severity_to_string s)

  abbrev pub domains_fields : DomainSeverities → List (Str × Json F)
  domains_fields domains =
      ((str "boot", sev domains.boot)
        ∷ (str "services", sev domains.services)
        ∷ (str "resources", sev domains.resources)
        ∷ (str "time_sync", sev domains.time_sync)
        ∷ (str "update", sev domains.update)
        ∷ (str "journal", sev domains.journal)
        ∷ (str "crash", sev domains.crash)
        ∷ [])

  abbrev pub domains_json : DomainSeverities → Json F
  domains_json domains = object_of (domains_fields domains)

  abbrev pub summary_fields : SnapshotSummary → List (Str × Json F)
  summary_fields summary =
      (((str "severity", sev summary.severity)
          ∷ (str "domains", domains_json summary.domains)
          ∷ (str "reasons", array_of string summary.reasons)
          ∷ [])
        ++ optional (str "notes") string summary.notes)

  abbrev pub summary_json : SnapshotSummary → Json F
  summary_json summary = object_of (summary_fields summary)

-- What serialize() and serialize_pretty() hand to the library.
abbrev pub snapshot_fields :
    {F : Type 0} → Double F → (ℕ → Str) → SnapshotState F → List (Str × Json F)
snapshot_fields fp format_time state =
    ((str "schema", string schema)
      ∷ (str "schema_version", string schema_version)
      ∷ (str "generated_at", time format_time state.generated_at)
      ∷ (str "cycle", natural state.cycle)
      ∷ (str "device", device_json format_time state.device)
      ∷ (str "boot", boot_json format_time state.boot)
      ∷ (str "services", services_json format_time state.services)
      ∷ (str "resources", resources_json fp format_time state.resources)
      ∷ (str "time_sync", time_sync_json format_time state.time_sync)
      ∷ (str "update", update_json format_time state.update)
      ∷ (str "journal", journal_json format_time state.journal)
      ∷ (str "crash", crash_json format_time state.crash)
      ∷ (str "summary", summary_json state.summary)
      ∷ [])

abbrev pub snapshot_json : {F : Type 0} → Double F → (ℕ → Str) → SnapshotState F → Json F
snapshot_json fp format_time state = object_of (snapshot_fields fp format_time state)

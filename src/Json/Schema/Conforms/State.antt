-- ===== src/Json/Schema/Conforms/State.antt =====
-- The whole snapshot conforms to the schema.
use edge_healthd.Prelude.{
  ℕ, Bool, true, false, ◌≡◌, refl, none, some, List, [], ◌∷◌, All, Str, str, str_eq,
}
use edge_healthd.Prelude.Double.{Double}
use edge_healthd.Types.Snapshot.{DomainSeverities, SnapshotSummary, SnapshotState}
use edge_healthd.Json.{string, find}
use edge_healthd.Json.Serializer.{
  domains_fields, domains_json, summary_fields, summary_json, snapshot_fields, snapshot_json,
}
use edge_healthd.Json.Schema.{pattern_text, text, find_property, accepts_text, conforms}
use edge_healthd.Json.Schema.Conforms.{
  Fits, Accepted, object-conforms, array-conforms, optional-Fits, string-conforms,
  severity-conforms,
}
use edge_healthd.Json.Schema.Conforms.Sections.{
  IsShort, HasShortExcerpt, device-conforms, boot-conforms, services-conforms, time_sync-conforms,
  update-conforms, journal-conforms, crash-conforms,
}
use edge_healthd.Json.Schema.Conforms.Resources.{HasZero, IsResources, resources-conforms}
use edge_healthd.Json.Schema.Snapshot.{
  source_schema, domains_properties, domains_schema, summary_properties, summary_schema,
  snapshot_properties, snapshot_schema,
}

module _ {F : Type 0} (fp : Double F) (matches : Str → Bool) where
  domains-conforms :
      (d : DomainSeverities) → conforms fp matches (domains_json d) domains_schema ≡ true
  unfolding conforms find find_property str str_eq
  domains-conforms d =
      object-conforms fp matches [] domains_properties false (domains_fields d) refl (
        severity-conforms fp matches d.boot,
        (
          severity-conforms fp matches d.services,
          (
            severity-conforms fp matches d.resources,
            (
              severity-conforms fp matches d.time_sync,
              (
                severity-conforms fp matches d.update,
                (
                  severity-conforms fp matches d.journal,
                  (severity-conforms fp matches d.crash, tt),
                ),
              ),
            ),
          ),
        ),
      )

  reasons-conform :
      (reasons : List Str)
      → All (λ r. matches r ≡ true) reasons
      → All (Accepted fp matches string pattern_text) reasons
  unfolding conforms
  reasons-conform [] h = tt
  reasons-conform (r ∷ rs) h = (h.0, reasons-conform rs h.1)

  summary-conforms :
      (s : SnapshotSummary)
      → All (λ r. matches r ≡ true) s.reasons
      → conforms fp matches (summary_json s) summary_schema ≡ true
  unfolding conforms find find_property str str_eq
  summary-conforms s h =
      object-conforms fp matches (str "severity" ∷ str "reasons" ∷ []) summary_properties true
        (summary_fields s) refl
        (
          severity-conforms fp matches s.severity,
          (
            domains-conforms s.domains,
            (
              array-conforms fp matches string pattern_text s.reasons (reasons-conform s.reasons h),
              optional-Fits fp matches summary_properties true _ _ s.notes
                  (λ n _. string-conforms fp matches n),
            ),
          ),
        )

  -- What the schema asks of the values and not of their representation.
  pub record IsPublishable (s : SnapshotState F) : Type 0 where
    pub named_device : accepts_text fp matches s.device.device_id (text 1 none) ≡ true
    pub short_excerpts : All HasShortExcerpt s.services.units
    pub resources : IsResources fp s.resources
    pub short_errors : All IsShort s.journal.recent_errors
    pub known_source :
        (t : Str) → s.crash.source ≡ some t → accepts_text fp matches t source_schema ≡ true
    pub reasons_match : All (λ r. matches r ≡ true) s.summary.reasons

  snapshot-Fits :
      (format_time : ℕ → Str) (s : SnapshotState F)
      → HasZero fp
      → IsPublishable s
      → All (Fits fp matches snapshot_properties true) (snapshot_fields fp format_time s)
  unfolding conforms find find_property str str_eq
  snapshot-Fits format_time s z h = (
    refl,
    (
      refl,
      (
        string-conforms fp matches (format_time s.generated_at),
        (
          refl,
          (
            device-conforms fp matches format_time s.device h.named_device,
            (
              boot-conforms fp matches format_time s.boot,
              (
                services-conforms fp matches format_time s.services h.short_excerpts,
                (
                  resources-conforms fp matches format_time s.resources z h.resources,
                  (
                    time_sync-conforms fp matches format_time s.time_sync,
                    (
                      update-conforms fp matches format_time s.update,
                      (
                        journal-conforms fp matches format_time s.journal h.short_errors,
                        (
                          crash-conforms fp matches format_time s.crash h.known_source,
                          (summary-conforms s.summary h.reasons_match, tt),
                        ),
                      ),
                    ),
                  ),
                ),
              ),
            ),
          ),
        ),
      ),
    ),
  )

  -- What the serializer makes of a snapshot conforms to the repository's schema: every required
  -- property is there, every property has its type and range, the enumerations are those of the
  -- schema, and numbers that are not finite do not appear. The snapshot has a device name, excerpts
  -- and journal lines of the lengths allowed, a window of at least one second, percentages up to 100,
  -- loads that are not negative, a known crash source and reasons that match the pattern.
  pub snapshot_json-conforms :
      (format_time : ℕ → Str) (s : SnapshotState F)
      → HasZero fp
      → IsPublishable s
      → conforms fp matches (snapshot_json fp format_time s) snapshot_schema ≡ true
  unfolding find str str_eq
  snapshot_json-conforms format_time s z h =
      object-conforms fp matches _ snapshot_properties true (snapshot_fields fp format_time s) refl
        (snapshot-Fits format_time s z h)

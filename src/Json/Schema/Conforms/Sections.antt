-- ===== src/Json/Schema/Conforms/Sections.antt =====
-- The sections but the resources conform to the schema.
use edge_healthd.Prelude.{
  ℕ, Bool, true, not, ◌≡◌, refl, none, some, List, [], ◌∷◌, All, All-append, Str, str, str_eq, leb,
  length, arith, is_empty,
}
use edge_healthd.Prelude.Double.{Double}
use edge_healthd.Types.Sections.{
  SectionFreshness, OsInfo, DeviceInfo, BootStatus, ServiceUnit, ServicesStatus, NtpStatus,
  PtpStatus, TimeSyncStatus, LastUpdate, UpdateStatus, JournalStatus, CrashArtifact, CrashStatus,
}
use edge_healthd.Json.{boolean, string, optional, find}
use edge_healthd.Json.Serializer.Sections.{
  freshness_fields, time, log_excerpt_field, os_fields, os_json, device_fields, device_json,
  boot_fields, boot_json, unit_fields, unit_json, services_fields, services_json, ntp_fields,
  ntp_json, ptp_fields, ptp_json, time_sync_fields, time_sync_json, last_update_fields,
  last_update_json, update_fields, update_json, journal_fields, journal_json, artifact_fields,
  artifact_json, crash_fields, crash_json,
}
use edge_healthd.Json.Schema.{Properties, text, flag, find_property, conforms, accepts_text}
use edge_healthd.Json.Schema.Conforms.{
  Fits, Accepted, object-conforms, array-conforms, short_array-conforms, optional-Fits, on-Fits,
  All-every, string-conforms, natural-conforms, integer-conforms, severity-conforms,
  service_state-conforms, time_sync_source-conforms, time_sync_state-conforms,
  update_result-conforms,
}
use edge_healthd.Json.Schema.Snapshot.{
  source_schema, os_properties, os_schema, device_properties, device_schema, boot_properties,
  boot_schema, unit_properties, unit_schema, services_properties, services_schema, ntp_properties,
  ntp_schema, ptp_properties, ptp_schema, time_sync_properties, time_sync_schema,
  last_update_properties, last_update_schema, update_properties, update_schema, journal_properties,
  journal_schema, artifact_properties, artifact_schema, crash_properties, crash_schema,
}

-- The excerpt of a unit: at most 20 lines of at most 512 bytes.
abbrev pub IsShort : Str → Type 0
IsShort t = leb (length t) 512 ≡ true

abbrev pub HasShortExcerpt : ServiceUnit → Type 0
HasShortExcerpt unit = (leb (length unit.log_excerpt) 20 ≡ true) × All IsShort unit.log_excerpt

module _ {F : Type 0} (fp : Double F) (matches : Str → Bool) (format_time : ℕ → Str) where
  pub freshness-Fits :
      (props : Properties) (f : SectionFreshness)
      → find_property (str "collected_at") props ≡ some (text 0 none)
      → find_property (str "stale") props ≡ some flag
      → All (Fits fp matches props true) (freshness_fields format_time f)
  unfolding conforms
  freshness-Fits props f c s =
      All-append (Fits fp matches props true)
        (optional (str "collected_at") (time format_time) f.collected_at)
        ((str "stale", boolean f.stale) ∷ [])
        (optional-Fits fp matches props true (str "collected_at") (time format_time) f.collected_at
          (λ t _. rw c (string-conforms fp matches (format_time t))))
        (rw s refl, tt)

  os-Fits : (os : OsInfo) → All (Fits fp matches os_properties true) (os_fields format_time os)
  unfolding conforms find_property find str str_eq
  os-Fits os = (
    string-conforms fp matches (os.distro),
    (
      string-conforms fp matches (os.version),
      (string-conforms fp matches (os.build_id), (string-conforms fp matches (os.kernel), tt)),
    ),
  )

  pub os-conforms : (os : OsInfo) → conforms fp matches (os_json format_time os) os_schema ≡ true
  unfolding find str str_eq
  os-conforms os =
      object-conforms fp matches _ os_properties true (os_fields format_time os) refl (os-Fits os)

  device-Fits :
      (device : DeviceInfo)
      → accepts_text fp matches device.device_id (text 1 none) ≡ true
      → All (Fits fp matches device_properties true) (device_fields format_time device)
  unfolding conforms find_property find str str_eq
  device-Fits device h = (
    h,
    (
      string-conforms fp matches (device.hostname),
      (
        string-conforms fp matches (device.platform),
        (string-conforms fp matches (device.arch), (os-conforms device.os, tt)),
      ),
    ),
  )

  pub device-conforms :
      (device : DeviceInfo)
      → accepts_text fp matches device.device_id (text 1 none) ≡ true
      → conforms fp matches (device_json format_time device) device_schema ≡ true
  unfolding find str str_eq
  device-conforms device h =
      object-conforms fp matches _ device_properties true (device_fields format_time device) refl
        (device-Fits device h)

  boot-Fits :
      (boot : BootStatus)
      → All (Fits fp matches boot_properties true) (boot_fields format_time boot)
  unfolding conforms find_property find str str_eq
  boot-Fits boot = (
    string-conforms fp matches (boot.boot_id),
    (
      string-conforms fp matches (format_time (boot.last_boot_at)),
      (
        natural-conforms fp matches (boot.uptime),
        (
          refl,
          (
            natural-conforms fp matches (boot.boot_fail_count),
            All-append (Fits fp matches boot_properties true) _ _
                (optional-Fits fp matches boot_properties true _ _ boot.last_reboot_reason
                  (λ a _. string-conforms fp matches (a)))
                (freshness-Fits boot_properties boot.freshness refl refl),
          ),
        ),
      ),
    ),
  )

  pub boot-conforms :
      (boot : BootStatus) → conforms fp matches (boot_json format_time boot) boot_schema ≡ true
  unfolding find str str_eq
  boot-conforms boot =
      object-conforms fp matches _ boot_properties true (boot_fields format_time boot) refl
        (boot-Fits boot)

  short-conforms : (t : Str) → IsShort t → accepts_text fp matches t (text 0 (some 512)) ≡ true
  short-conforms t h = ground (arith, h)

  shorts-conform :
      (ts : List Str) → All IsShort ts → All (Accepted fp matches string (text 0 (some 512))) ts
  unfolding conforms
  shorts-conform [] h = tt
  shorts-conform (t ∷ ts) h = (short-conforms t h.0, shorts-conform ts h.1)

  log_excerpt-Fits :
      (ts : List Str)
      → leb (length ts) 20 ≡ true
      → All IsShort ts
      → All (Fits fp matches unit_properties true) (log_excerpt_field format_time ts)
  unfolding find_property str str_eq
  log_excerpt-Fits [] n h = tt
  log_excerpt-Fits (t ∷ ts) n h = (
    short_array-conforms fp matches string (text 0 (some 512)) 20 (t ∷ ts) n
        (shorts-conform (t ∷ ts) h),
    tt,
  )

  unit-Fits :
      (unit : ServiceUnit)
      → HasShortExcerpt unit
      → All (Fits fp matches unit_properties true) (unit_fields format_time unit)
  unfolding conforms find_property find str str_eq
  unit-Fits unit h = (
    string-conforms fp matches (unit.name),
    (
      service_state-conforms fp matches unit.state,
      (
        severity-conforms fp matches unit.severity,
        (
          natural-conforms fp matches (unit.restart_count),
          All-append (Fits fp matches unit_properties true) _ _
              (optional-Fits fp matches unit_properties true _ _ unit.since
                (λ a _. string-conforms fp matches (format_time (a))))
              (All-append (Fits fp matches unit_properties true) _ _
                (optional-Fits fp matches unit_properties true _ _ unit.result
                  (λ a _. string-conforms fp matches (a)))
                (All-append (Fits fp matches unit_properties true) _ _
                  (optional-Fits fp matches unit_properties true _ _ unit.detail
                    (λ a _. string-conforms fp matches (a)))
                  (log_excerpt-Fits unit.log_excerpt h.0 h.1))),
        ),
      ),
    ),
  )

  pub unit-conforms :
      (unit : ServiceUnit)
      → HasShortExcerpt unit
      → conforms fp matches (unit_json format_time unit) unit_schema ≡ true
  unfolding find str str_eq
  unit-conforms unit h =
      object-conforms fp matches _ unit_properties true (unit_fields format_time unit) refl
        (unit-Fits unit h)

  units-conform :
      (units : List ServiceUnit)
      → All HasShortExcerpt units
      → All (Accepted fp matches (unit_json format_time) unit_schema) units
  units-conform [] h = tt
  units-conform (u ∷ us) h = (unit-conforms u h.0, units-conform us h.1)

  services-Fits :
      (services : ServicesStatus)
      → All HasShortExcerpt services.units
      → All (Fits fp matches services_properties true) (services_fields format_time services)
  unfolding conforms find_property find str str_eq
  services-Fits services h = (
    severity-conforms fp matches services.overall,
    (
      array-conforms fp matches (unit_json format_time) unit_schema services.units
          (units-conform services.units h),
      freshness-Fits services_properties services.freshness refl refl,
    ),
  )

  pub services-conforms :
      (services : ServicesStatus)
      → All HasShortExcerpt services.units
      → conforms fp matches (services_json format_time services) services_schema ≡ true
  unfolding find str str_eq
  services-conforms services h =
      object-conforms fp matches _ services_properties true (services_fields format_time services)
        refl (services-Fits services h)

  ntp-Fits :
      (ntp : NtpStatus) → All (Fits fp matches ntp_properties true) (ntp_fields format_time ntp)
  unfolding conforms find_property find str str_eq
  ntp-Fits ntp = (
    refl,
    All-append (Fits fp matches ntp_properties true) _ _
        (optional-Fits fp matches ntp_properties true _ _ ntp.state
          (λ a _. time_sync_state-conforms fp matches a))
        (optional-Fits fp matches ntp_properties true _ _ ntp.last_sync_at
          (λ a _. string-conforms fp matches (format_time (a)))),
  )

  pub ntp-conforms :
      (ntp : NtpStatus) → conforms fp matches (ntp_json format_time ntp) ntp_schema ≡ true
  unfolding find str str_eq
  ntp-conforms ntp =
      object-conforms fp matches _ ntp_properties true (ntp_fields format_time ntp) refl
        (ntp-Fits ntp)

  ptp-Fits :
      (ptp : PtpStatus) → All (Fits fp matches ptp_properties true) (ptp_fields format_time ptp)
  unfolding conforms find_property find str str_eq
  ptp-Fits ptp = (
    refl,
    All-append (Fits fp matches ptp_properties true) _ _
        (optional-Fits fp matches ptp_properties true _ _ ptp.interface
          (λ a _. string-conforms fp matches (a)))
        (All-append (Fits fp matches ptp_properties true) _ _
          (optional-Fits fp matches ptp_properties true _ _ ptp.offset_ns
            (λ a _. integer-conforms fp matches a))
          (All-append (Fits fp matches ptp_properties true) _ _
            (optional-Fits fp matches ptp_properties true _ _ ptp.rms_ns
              (λ a _. natural-conforms fp matches (a)))
            (All-append (Fits fp matches ptp_properties true) _ _
              (optional-Fits fp matches ptp_properties true _ _ ptp.state
                (λ a _. time_sync_state-conforms fp matches a))
              (All-append (Fits fp matches ptp_properties true) _ _
                (optional-Fits fp matches ptp_properties true _ _ ptp.last_sync_at
                  (λ a _. string-conforms fp matches (format_time (a))))
                (optional-Fits fp matches ptp_properties true _ _ ptp.role
                  (λ a _. string-conforms fp matches (a))))))),
  )

  pub ptp-conforms :
      (ptp : PtpStatus) → conforms fp matches (ptp_json format_time ptp) ptp_schema ≡ true
  unfolding find str str_eq
  ptp-conforms ptp =
      object-conforms fp matches _ ptp_properties true (ptp_fields format_time ptp) refl
        (ptp-Fits ptp)

  time_sync-Fits :
      (time_sync : TimeSyncStatus)
      → All (Fits fp matches time_sync_properties true) (time_sync_fields format_time time_sync)
  unfolding conforms find_property find str str_eq
  time_sync-Fits time_sync = (
    severity-conforms fp matches time_sync.overall,
    (
      time_sync_source-conforms fp matches time_sync.source,
      (
        ntp-conforms time_sync.ntp,
        (
          ptp-conforms time_sync.ptp,
          (refl, freshness-Fits time_sync_properties time_sync.freshness refl refl),
        ),
      ),
    ),
  )

  pub time_sync-conforms :
      (time_sync : TimeSyncStatus)
      → conforms fp matches (time_sync_json format_time time_sync) time_sync_schema ≡ true
  unfolding find str str_eq
  time_sync-conforms time_sync =
      object-conforms fp matches _ time_sync_properties true
        (time_sync_fields format_time time_sync) refl (time_sync-Fits time_sync)

  last_update-Fits :
      (update : LastUpdate)
      → All (Fits fp matches last_update_properties true) (last_update_fields format_time update)
  unfolding conforms find_property find str str_eq
  last_update-Fits update = (
    string-conforms fp matches (update.id),
    (
      update_result-conforms fp matches update.result,
      All-append (Fits fp matches last_update_properties true) _ _
          (optional-Fits fp matches last_update_properties true _ _ update.installed_at
            (λ a _. string-conforms fp matches (format_time (a))))
          (optional-Fits fp matches last_update_properties true _ _ update.detail
            (λ a _. string-conforms fp matches (a))),
    ),
  )

  pub last_update-conforms :
      (update : LastUpdate)
      → conforms fp matches (last_update_json format_time update) last_update_schema ≡ true
  unfolding find str str_eq
  last_update-conforms update =
      object-conforms fp matches _ last_update_properties true
        (last_update_fields format_time update) refl (last_update-Fits update)

  update-Fits :
      (update : UpdateStatus)
      → All (Fits fp matches update_properties true) (update_fields format_time update)
  unfolding conforms find_property find str str_eq
  update-Fits update = (
    severity-conforms fp matches update.overall,
    All-append (Fits fp matches update_properties true) _ _
        (optional-Fits fp matches update_properties true _ _ update.active_slot
          (λ a _. string-conforms fp matches (a)))
        (All-append (Fits fp matches update_properties true) _ _
          (optional-Fits fp matches update_properties true _ _ update.last_update
            (λ a _. last_update-conforms a))
          (freshness-Fits update_properties update.freshness refl refl)),
  )

  pub update-conforms :
      (update : UpdateStatus)
      → conforms fp matches (update_json format_time update) update_schema ≡ true
  unfolding find str str_eq
  update-conforms update =
      object-conforms fp matches _ update_properties true (update_fields format_time update) refl
        (update-Fits update)

  journal-Fits :
      (journal : JournalStatus)
      → All IsShort journal.recent_errors
      → All (Fits fp matches journal_properties true) (journal_fields format_time journal)
  unfolding conforms find_property find str str_eq
  journal-Fits journal h = (
    severity-conforms fp matches journal.overall,
    (
      natural-conforms fp matches (journal.error_count),
      (
        array-conforms fp matches string (text 0 (some 512)) journal.recent_errors
            (shorts-conform journal.recent_errors h),
        freshness-Fits journal_properties journal.freshness refl refl,
      ),
    ),
  )

  pub journal-conforms :
      (journal : JournalStatus)
      → All IsShort journal.recent_errors
      → conforms fp matches (journal_json format_time journal) journal_schema ≡ true
  unfolding find str str_eq
  journal-conforms journal h =
      object-conforms fp matches _ journal_properties true (journal_fields format_time journal) refl
        (journal-Fits journal h)

  artifact-Fits :
      (artifact : CrashArtifact)
      → All (Fits fp matches artifact_properties true) (artifact_fields format_time artifact)
  unfolding conforms find_property find str str_eq
  artifact-Fits artifact = (
    string-conforms fp matches (artifact.name),
    (
      natural-conforms fp matches (artifact.size_bytes),
      All-append (Fits fp matches artifact_properties true) _ _
          (on-Fits fp matches artifact_properties true (not (is_empty artifact.kind)) _ _ refl)
          (optional-Fits fp matches artifact_properties true _ _ artifact.mtime
            (λ a _. string-conforms fp matches (format_time (a)))),
    ),
  )

  pub artifact-conforms :
      (artifact : CrashArtifact)
      → conforms fp matches (artifact_json format_time artifact) artifact_schema ≡ true
  unfolding find str str_eq
  artifact-conforms artifact =
      object-conforms fp matches _ artifact_properties true (artifact_fields format_time artifact)
        refl (artifact-Fits artifact)

  crash-Fits :
      (crash : CrashStatus)
      → ((t : Str) → crash.source ≡ some t → accepts_text fp matches t source_schema ≡ true)
      → All (Fits fp matches crash_properties true) (crash_fields format_time crash)
  unfolding conforms find_property find str str_eq
  crash-Fits crash h = (
    refl,
    (
      natural-conforms fp matches (crash.artifact_count),
      (
        array-conforms fp matches (artifact_json format_time) artifact_schema crash.artifacts
            (All-every fp matches _ artifact-conforms crash.artifacts),
        (
          refl,
          All-append (Fits fp matches crash_properties true) _ _
              (optional-Fits fp matches crash_properties true _ _ crash.source h)
              (All-append (Fits fp matches crash_properties true) _ _
                (optional-Fits fp matches crash_properties true _ _ crash.last_panic_at
                  (λ a _. string-conforms fp matches (format_time (a))))
                (All-append (Fits fp matches crash_properties true) _ _
                  (optional-Fits fp matches crash_properties true _ _ crash.fingerprint
                    (λ a _. string-conforms fp matches (a)))
                  (freshness-Fits crash_properties crash.freshness refl refl))),
        ),
      ),
    ),
  )

  pub crash-conforms :
      (crash : CrashStatus)
      → ((t : Str) → crash.source ≡ some t → accepts_text fp matches t source_schema ≡ true)
      → conforms fp matches (crash_json format_time crash) crash_schema ≡ true
  unfolding find str str_eq
  crash-conforms crash h =
      object-conforms fp matches _ crash_properties true (crash_fields format_time crash) refl
        (crash-Fits crash h)

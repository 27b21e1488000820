-- ===== src/Probe/Update/Slots.antt =====
-- What UpdateProbe::collect() reports, from the first booted slot or the state file.
use edge_healthd.Prelude.{
  ℕ, ◌≡◌, refl, Bool, true, false, Option, none, some, List, [], ◌∷◌, Str, if◌then◌else◌, arith,
}
use edge_healthd.Types.Enums.{Severity, UpdateResult}
use edge_healthd.Types.Sections.{LastUpdate, UpdateStatus, update_status_default}
use edge_healthd.Config.{Config}
use edge_healthd.Json.{Json}
use edge_healthd.Json.Get.{Getters}
use edge_healthd.Probe.Result.{value}
use edge_healthd.Probe.Update.{
  SlotProps, is_booted, slot_update, with_slot, scan_slots, collect_rauc_update, from_file, or_file,
  load_last_update, collect,
}

-- The severity says what the update does: a warning exactly for a failed one, healthy for any other,
-- unknown where there is none.
abbrev pub severity_of : Option LastUpdate → Severity
severity_of none = Severity.unknown
severity_of (some update) = elim update.result [
  | UpdateResult.failed ↦ Severity.warn
  | UpdateResult.success ↦ Severity.ok
  | UpdateResult.unknown ↦ Severity.ok
]

module _ (parse_time : Str → Option ℕ) where
  slot-severity :
      (props : SlotProps) (status : UpdateStatus)
      → status.overall ≡ Severity.ok
      → (with_slot parse_time props status).overall
        ≡ severity_of (with_slot parse_time props status).last_update
  unfolding slot_update
  slot-severity props status h = ground (arith, h)

  -- The severity of a status, where there is one, is that of its update.
  abbrev IsTold : Option UpdateStatus → Type 0
  IsTold none = Unit
  IsTold (some status) = status.overall ≡ severity_of status.last_update

  if-IsTold :
      (test : Bool) (a b : Option UpdateStatus)
      → IsTold a
      → IsTold b
      → IsTold (if test then a else b)
  if-IsTold true a b p q = p
  if-IsTold false a b p q = q

  scan_slots-IsTold :
      (slots : List SlotProps) (status : UpdateStatus)
      → status.overall ≡ Severity.ok
      → IsTold (scan_slots parse_time slots status)
  unfolding scan_slots
  scan_slots-IsTold [] status h = tt
  scan_slots-IsTold (props ∷ slots) status h =
      if-IsTold (is_booted parse_time props) (some (with_slot parse_time props status))
        (scan_slots parse_time slots status) (slot-severity props status h)
        (scan_slots-IsTold slots status h)

  from_file-severity :
      (file : Option LastUpdate) (status : UpdateStatus)
      → status.overall ≡ Severity.ok
      → (from_file parse_time file status).overall
        ≡ severity_of (from_file parse_time file status).last_update
  from_file-severity none status h = refl
  from_file-severity (some update) status h = ground (arith, h)

  or_file-severity :
      (file : Option LastUpdate) (status : UpdateStatus) (found : Option UpdateStatus)
      → status.overall ≡ Severity.ok
      → IsTold found
      → (or_file parse_time file status found).overall
        ≡ severity_of (or_file parse_time file status found).last_update
  or_file-severity file status none h t = from_file-severity file status h
  or_file-severity file status (some found) h t = t

  collect_rauc_update-IsTold :
      (rauc : Option (List SlotProps)) (status : UpdateStatus)
      → status.overall ≡ Severity.ok
      → IsTold (collect_rauc_update parse_time rauc status)
  unfolding collect_rauc_update
  collect_rauc_update-IsTold none status h = tt
  collect_rauc_update-IsTold (some slots) status h = scan_slots-IsTold slots status h

  -- Where updates are tracked, the probe answers with a status whose severity says what it reports:
  -- a warning exactly where the last update failed, unknown exactly where there is no update, and
  -- healthy otherwise; whether RAUC answers or the state file is read.
  pub collect-severity :
      {F : Type 0} (get : Getters F) (cfg : Config F) (rauc : Option (List SlotProps))
      (file : Option (Json F))
      → cfg.enable_update_tracking ≡ true
      → (s : UpdateStatus) × (collect parse_time get cfg rauc file ≡ value s)
        × (s.overall ≡ severity_of s.last_update)
  unfolding collect
  collect-severity get cfg rauc file e =
      let status : UpdateStatus = record update_status_default { overall = Severity.ok } in
      let last = load_last_update parse_time get file in
      let found = collect_rauc_update parse_time rauc status in
      (
        or_file parse_time last status found,
        simp e refl,
        or_file-severity last status found refl (collect_rauc_update-IsTold rauc status refl),
      )

-- ===== src/Probe/Update.antt =====
-- src/probes.cpp and src/probes_dbus.cpp: UpdateProbe. The answer of RAUC's GetSlotStatus is an
-- argument, none where there is no bus or the call throws; so is json::parse_time(), and the JSON of the
-- state file, none where it cannot be opened or parsed.
pub mod Slots
use edge_healthd.Prelude.{
  ℕ, Bool, true, false, not, ◌&&◌, Option, none, some, List, [], ◌∷◌, ◌++◌, Str, str, str_eq,
  is_empty, if◌then◌else◌,
}
use edge_healthd.Types.Enums.{Severity, UpdateResult}
use edge_healthd.Types.Sections.{
  LastUpdate, UpdateStatus, last_update_default, update_status_default,
}
use edge_healthd.Config.{Config}
use edge_healthd.Json.{Json}
use edge_healthd.Json.Get.{Getters, read, run}
use edge_healthd.Probe.Result.{ProbeResult, value}

-- A property of a slot: a text, or a variant of another type.
pub data Variant : Type 0 where
  text : Str → Variant
  other_type : Variant

-- The properties of a slot; its name is not read.
abbrev pub SlotProps : Type 0
SlotProps = List (Str × Variant)

abbrev as_text : Variant → Str
as_text (text s) = s
as_text other_type = []

unfoldable pub prop_str : SlotProps → Str → Str
prop_str [] key = []
prop_str ((k, v) ∷ props) key =
    let rest = prop_str props key in if str_eq k key then as_text v else rest

-- The bundle's identity, from its version and build.
abbrev pub bundle_id : Str → Str → Str
bundle_id version build =
    if not (is_empty version) && not (is_empty build)
    then version ++ (str "/" ++ build)
    else if not (is_empty build)
    then build
    else version

abbrev pub non_empty : Str → Option Str
non_empty s = if is_empty s then none else some s

-- The slot is in order.
abbrev pub is_good : SlotProps → Bool
is_good props =
    str_eq (prop_str props (str "boot-status")) (str "good")
    && str_eq (prop_str props (str "status")) (str "ok")

module _ (parse_time : Str → Option ℕ) where
  unfoldable pub slot_update : SlotProps → LastUpdate
  slot_update props =
      let boot_status = prop_str props (str "boot-status") in
      let slot_status = prop_str props (str "status") in
      record {
        id =
            bundle_id (prop_str props (str "bundle.version")) (prop_str props (str "bundle.build"));
        installed_at = parse_time (prop_str props (str "activated.timestamp"));
        result = if is_good props then UpdateResult.success else UpdateResult.failed;
        detail =
            if is_good props
            then non_empty (prop_str props (str "bundle.compatible"))
            else some (str "boot-status=" ++ (boot_status ++ (str " status=" ++ slot_status)));
      }

  abbrev pub is_booted : SlotProps → Bool
  is_booted props = str_eq (prop_str props (str "state")) (str "booted")

  -- What the booted slot makes of the status; `active_slot` is kept where it has no boot name.
  abbrev pub with_slot : SlotProps → UpdateStatus → UpdateStatus
  with_slot props status =
      let bootname = prop_str props (str "bootname") in
      record status {
        active_slot = if is_empty bootname then status.active_slot else some bootname;
        last_update = some (slot_update props);
        overall = if is_good props then status.overall else Severity.warn;
      }

  -- The loop over the slots: none where no slot is the booted one.
  unfoldable pub scan_slots : List SlotProps → UpdateStatus → Option UpdateStatus
  scan_slots [] status = none
  scan_slots (props ∷ slots) status =
      let rest = scan_slots slots status in
      if is_booted props then some (with_slot props status) else rest

  -- collect_rauc_update(): the status where it returns true.
  unfoldable pub collect_rauc_update : Option (List SlotProps) → UpdateStatus → Option UpdateStatus
  unfolding scan_slots
  collect_rauc_update none status = none
  collect_rauc_update (some slots) status = scan_slots slots status

  -- What follows parsing the state file; the texts of a result are the schema's.
  abbrev result_of : Str → LastUpdate → LastUpdate
  result_of result update =
      if str_eq result (str "success")
      then record update { result = UpdateResult.success }
      else if str_eq result (str "failed")
      then record update { result = UpdateResult.failed }
      else update

  abbrev pub read_last_update :
      {F : Type 0} → Getters F → Json F → List (LastUpdate → Option LastUpdate)
  read_last_update get json =
      read json (str "id") get.get_string (λ v u. record u { id = v })
      ∷ read json (str "installed_at") get.get_string
          (λ v u. record u { installed_at = parse_time v })
      ∷ read json (str "result") get.get_string result_of
      ∷ read json (str "detail") get.get_string (λ v u. record u { detail = some v })
      ∷ []

  -- Any exception is caught, and then there is no update.
  unfoldable pub load_last_update : {F : Type 0} → Getters F → Option (Json F) → Option LastUpdate
  load_last_update get none = none
  load_last_update get (some json) = run (read_last_update get json) last_update_default

  abbrev pub is_failed : UpdateResult → Bool
  is_failed UpdateResult.failed = true
  is_failed other = false

  -- Without RAUC: the state file's update, if it has one.
  abbrev pub from_file : Option LastUpdate → UpdateStatus → UpdateStatus
  from_file none status = record status { last_update = none; overall = Severity.unknown }
  from_file (some update) status = record status {
    last_update = some update;
    overall = if is_failed update.result then Severity.warn else status.overall;
  }

  abbrev pub or_file : Option LastUpdate → UpdateStatus → Option UpdateStatus → UpdateStatus
  or_file file status (some found) = found
  or_file file status none = from_file file status

  unfoldable pub collect :
      {F : Type 0}
      → Getters F
      → Config F
      → Option (List SlotProps)
      → Option (Json F)
      → ProbeResult UpdateStatus
  unfolding collect_rauc_update load_last_update
  collect get cfg rauc file =
      let status = record update_status_default { overall = Severity.ok } in
      if not cfg.enable_update_tracking
      then value status
      else value (or_file (load_last_update get file) status (collect_rauc_update rauc status))

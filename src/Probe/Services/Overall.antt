-- ===== src/Probe/Services/Overall.antt =====
-- The overall severity of the services, from those of the units.
use edge_healthd.Prelude.{
  ◌≡◌, refl, ap, Bool, true, false, ◌||◌, Option, some, List, [], ◌∷◌, map, Str, any, if◌then◌else◌,
  arith,
}
use edge_healthd.Types.Enums.{Severity}
use edge_healthd.Types.Sections.{ServiceUnit, services_status_default}
use edge_healthd.Config.{Config}
use edge_healthd.Probe.Result.{value}
use edge_healthd.Probe.Services.{
  Systemd, query_unit, evaluate_unit_severity, raise, collect_units, collect,
}

abbrev pub is_crit : Severity → Bool
is_crit Severity.crit = true
is_crit other = false

abbrev pub is_warn : Severity → Bool
is_warn Severity.warn = true
is_warn other = false

-- Critical if some unit is, a warning if some unit has one, and healthy otherwise: also where units
-- are unknown.
abbrev pub roll_up : List ServiceUnit → Severity
roll_up units =
    if any (λ u. is_crit u.severity) units
    then Severity.crit
    else if any (λ u. is_warn u.severity) units
    then Severity.warn
    else Severity.ok

module _ {F : Type 0} (cfg : Config F) (bus : Systemd) (journal : Option (Str → List Str)) where
  -- A unit as queried, with its own severity.
  abbrev pub judged : Str → ServiceUnit
  judged name =
      let unit = query_unit bus journal name in
      record unit { severity = evaluate_unit_severity cfg unit }

  -- The severity so far, before the roll-up of the units that follow.
  abbrev pub above : Severity → List ServiceUnit → Severity
  above overall units =
      if is_crit overall || any (λ u. is_crit u.severity) units
      then Severity.crit
      else if is_warn overall || any (λ u. is_warn u.severity) units
      then Severity.warn
      else overall

  above-raise :
      (overall severity : Severity) (crit warn : Bool)
      → (if is_crit (raise cfg overall severity) || crit
          then Severity.crit
          else if is_warn (raise cfg overall severity) || warn
          then Severity.warn
          else raise cfg overall severity)
        ≡ (if is_crit overall || (is_crit severity || crit)
            then Severity.crit
            else if is_warn overall || (is_warn severity || warn)
            then Severity.warn
            else overall)
  above-raise overall severity crit warn = ground arith

  above-nil : (overall : Severity) → overall ≡ above overall []
  above-nil overall = ground arith

  collect_units-judged :
      (overall : Severity) (names : List Str)
      → collect_units cfg bus journal overall names
        ≡ (above overall (map judged names), map judged names)
  unfolding collect_units
  collect_units-judged overall [] = ap (λ (s : Severity). (s, [])) (above-nil overall)
  collect_units-judged overall (name ∷ names) =
      let severity = evaluate_unit_severity cfg (query_unit bus journal name) in
      let units = map judged names in
      rw (collect_units-judged (raise cfg overall severity) names) (
        ap (λ (s : Severity). (s, judged name ∷ units))
          (above-raise overall severity (any (λ u. is_crit u.severity) units)
            (any (λ u. is_warn u.severity) units)))

  -- With a bus, the probe reports every monitored unit in order, each as queried with its own
  -- severity, and the overall severity is the roll-up of these: critical if some unit is, else a
  -- warning if some unit has one, else healthy, also where units are unknown.
  pub collect-roll_up :
      (names : List Str)
      → collect cfg (some bus) journal names
        ≡ value (record services_status_default {
          overall = roll_up (map judged names);
          units = map judged names;
        })
  unfolding collect
  collect-roll_up names = rw (collect_units-judged Severity.ok names) refl

-- ===== src/Probe/Thermal/Plausible.antt =====
-- What a sensor reports.
use edge_healthd.Prelude.{
  ◌≡◌, ◌&&◌, arith, refl, Bool, true, false, Option, none, some, List, [], ◌∷◌, str, starts_with,
  if◌then◌else◌, Bool-cases, inl, inr,
}
use edge_healthd.Prelude.Int.{ℤ, pos, negsuc}
use edge_healthd.Prelude.Double.{Double}
use edge_healthd.Types.Sections.{ThermalSensor}
use edge_healthd.Probe.Thermal.{
  ThermalEntry, sensor_name, is_plausible, read_temp, read_sensor, read_sensors, collect_thermal,
}

module _ {F : Type 0} (fp : Double F) where
  both : (a b : Bool) → (a && b) ≡ true → (a ≡ true) × (b ≡ true)
  both true b e = (refl, e)
  both false b e = absurd (ground (arith, e))

  -- In degrees.
  abbrev pub celsius_of : ℤ → F
  celsius_of m = fp.div (fp.of_int m) (fp.of_int (pos 1000))

  -- At least -40 and at most 150 degrees.
  abbrev pub IsInRange : F → Type 0
  IsInRange t = (fp.geb t (fp.of_int (negsuc 39)) ≡ true) × (fp.geb (fp.of_int (pos 150)) t ≡ true)

  -- A temperature is there exactly where the sensor is available; it is that of the file, and in
  -- range. Without one the file has no number, or one that is not in range.
  abbrev pub IsTruthful : Option ℤ → Bool → Option F → Type 0
  IsTruthful none available none = available ≡ false
  IsTruthful (some m) available none = (available ≡ false) × (IsInRange (celsius_of m) → ⊥)
  IsTruthful none available (some t) = ⊥
  IsTruthful (some m) available (some t) = (available ≡ true) × (t ≡ celsius_of m) × IsInRange t

  read_temp-IsTruthful : (m : Option ℤ) → IsTruthful m (read_temp fp m).0 (read_temp fp m).1
  unfolding read_temp
  read_temp-IsTruthful none = refl
  read_temp-IsTruthful (some m) = elim (Bool-cases (is_plausible fp (celsius_of m))) [
    | inl e ↦ rw e (refl, refl, ((both _ _ e).0, (both _ _ e).1))
    | inr e ↦ rw e (refl, λ h. absurd (ground (arith, e, h.0, h.1)))
  ]

  abbrev pub zones : List ThermalEntry → List ThermalEntry
  zones [] = []
  zones (e ∷ es) =
      let rest = zones es in if starts_with (str "thermal_zone") e.name then e ∷ rest else rest

  -- The sensors are those of the entries, in order.
  abbrev pub AreTruthful : List ThermalEntry → List (ThermalSensor F) → Type 0
  AreTruthful [] [] = Unit
  AreTruthful [] (s ∷ ss) = ⊥
  AreTruthful (e ∷ es) [] = ⊥
  AreTruthful (e ∷ es) (s ∷ ss) =
      (s.sensor ≡ sensor_name e.name e.type_line)
      × IsTruthful e.millidegrees s.available s.temp_c
      × AreTruthful es ss

  read_sensors-AreTruthful :
      (entries : List ThermalEntry) → AreTruthful (zones entries) (read_sensors fp entries)
  unfolding read_sensor
  read_sensors-AreTruthful [] = tt
  read_sensors-AreTruthful (e ∷ es) = elim (Bool-cases (starts_with (str "thermal_zone") e.name)) [
    | inl t ↦ rw t (refl, read_temp-IsTruthful e.millidegrees, read_sensors-AreTruthful es)
    | inr t ↦ rw t (read_sensors-AreTruthful es)
  ]

  -- There is one sensor for each entry of a thermal zone, in order, with its name. It has a
  -- temperature exactly where it is available: that of the file in degrees, which is then at least
  -- -40 and at most 150; where it has none, the file has no number or one out of this range.
  pub collect_thermal-AreTruthful :
      (entries : List ThermalEntry)
      → AreTruthful (zones entries) (collect_thermal fp (some entries))
  unfolding collect_thermal
  collect_thermal-AreTruthful entries = read_sensors-AreTruthful entries

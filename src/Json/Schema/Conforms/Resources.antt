-- ===== src/Json/Schema/Conforms/Resources.antt =====
-- The resources conform to the schema: numbers that are not finite are replaced.
use edge_healthd.Prelude.{
  ℕ, Bool, true, false, not, ◌||◌, ◌≡◌, refl, inl, inr, Bool-cases, none, some, List, [], ◌∷◌, All,
  All-append, Str, str, str_eq, leb, ltb, is_empty, arith,
}
use edge_healthd.Prelude.Int.{pos}
use edge_healthd.Prelude.Double.{Double}
use edge_healthd.Types.Sections.{
  CpuLoad, MemoryUsage, StorageMount, ThermalSensor, NetworkInterface, ResourcesStatus,
}
use edge_healthd.Json.{find}
use edge_healthd.Json.Serializer.Resources.{
  finite_or_zero, memory_fields, memory_json, mount_fields, mount_json, interface_fields,
  interface_json, cpu_fields, cpu_json, sensor_fields, sensor_json, resources_fields,
  resources_json,
}
use edge_healthd.Json.Schema.{whole, number, find_property, accepts_integer, accepts_real, conforms}
use edge_healthd.Json.Schema.Conforms.{
  Fits, Accepted, object-conforms, array-conforms, optional-Fits, on-Fits, All-every,
  string-conforms, natural-conforms, link_state-conforms, duplex-conforms,
}
use edge_healthd.Json.Schema.Conforms.Sections.{freshness-Fits}
use edge_healthd.Json.Schema.Snapshot.{
  memory_properties, memory_schema, mount_properties, mount_schema, interface_properties,
  interface_schema, cpu_properties, cpu_schema, sensor_properties, sensor_schema,
  resources_properties, resources_schema,
}

abbrev pub IsPercent : StorageMount → Type 0
IsPercent mount =
    (n : ℕ) → mount.used_pct ≡ some n → accepts_integer (pos n) (whole (some 0) (some 100)) ≡ true

-- Zero is a number, and finite.
abbrev pub HasZero : {F : Type 0} → Double F → Type 0
HasZero fp = (fp.is_nan (fp.of_int (pos 0)) ≡ false) × (fp.is_inf (fp.of_int (pos 0)) ≡ false)

-- A load that is a finite number is not negative.
abbrev pub IsLoad : {F : Type 0} → Double F → F → Type 0
IsLoad fp v = (fp.is_nan v || fp.is_inf v ≡ false) → fp.geb v (fp.of_int (pos 0)) ≡ true

-- What the probes keep to: a window of at least one second, percentages, loads.
abbrev pub IsResources : {F : Type 0} → Double F → ResourcesStatus F → Type 0
IsResources fp r =
    (leb 1 r.sample_window_sec ≡ true)
    × (IsLoad fp r.cpu.load1 × IsLoad fp r.cpu.load5 × IsLoad fp r.cpu.load15)
    × All IsPercent r.storage

module _ {F : Type 0} (fp : Double F) (matches : Str → Bool) where
  memory-Fits :
      (memory : MemoryUsage) → All (Fits fp matches memory_properties true) (memory_fields memory)
  unfolding conforms find_property find str str_eq
  memory-Fits memory = (
    natural-conforms fp matches (memory.mem_total_mb),
    (
      natural-conforms fp matches (memory.mem_used_mb),
      (natural-conforms fp matches (memory.swap_used_mb), tt),
    ),
  )

  pub memory-conforms :
      (memory : MemoryUsage) → conforms fp matches (memory_json memory) memory_schema ≡ true
  unfolding find str str_eq
  memory-conforms memory =
      object-conforms fp matches _ memory_properties true (memory_fields memory) refl
        (memory-Fits memory)

  mount-Fits :
      (mount : StorageMount)
      → IsPercent mount
      → All (Fits fp matches mount_properties true) (mount_fields mount)
  unfolding conforms find_property find str str_eq
  mount-Fits mount h = (
    string-conforms fp matches (mount.mount),
    (
      string-conforms fp matches (mount.fs),
      (
        refl,
        All-append (Fits fp matches mount_properties true) _ _
            (optional-Fits fp matches mount_properties true _ _ mount.used_pct h)
            (optional-Fits fp matches mount_properties true _ _ mount.avail_mb
              (λ a _. natural-conforms fp matches (a))),
      ),
    ),
  )

  pub mount-conforms :
      (mount : StorageMount)
      → IsPercent mount
      → conforms fp matches (mount_json mount) mount_schema ≡ true
  unfolding find str str_eq
  mount-conforms mount h =
      object-conforms fp matches _ mount_properties true (mount_fields mount) refl
        (mount-Fits mount h)

  mounts-conform :
      (mounts : List StorageMount)
      → All IsPercent mounts
      → All (Accepted fp matches mount_json mount_schema) mounts
  mounts-conform [] h = tt
  mounts-conform (m ∷ ms) h = (mount-conforms m h.0, mounts-conform ms h.1)

  interface-Fits :
      (iface : NetworkInterface)
      → All (Fits fp matches interface_properties true) (interface_fields iface)
  unfolding conforms find_property find str str_eq
  interface-Fits iface = (
    string-conforms fp matches (iface.ifname),
    (
      link_state-conforms fp matches iface.link,
      (
        natural-conforms fp matches (iface.rx_bytes),
        (
          natural-conforms fp matches (iface.tx_bytes),
          (
            natural-conforms fp matches (iface.rx_packets),
            (
              natural-conforms fp matches (iface.tx_packets),
              (
                natural-conforms fp matches (iface.rx_dropped),
                (
                  natural-conforms fp matches (iface.tx_dropped),
                  (
                    natural-conforms fp matches (iface.rx_err),
                    (
                      natural-conforms fp matches (iface.tx_err),
                      All-append (Fits fp matches interface_properties true) _ _
                          (optional-Fits fp matches interface_properties true _ _ iface.ip
                            (λ a _. string-conforms fp matches (a)))
                          ((
                            refl,
                            All-append (Fits fp matches interface_properties true) _ _
                                (on-Fits fp matches interface_properties true (ltb 0 iface.mtu) _ _
                                  refl)
                                (All-append (Fits fp matches interface_properties true) _ _
                                  (on-Fits fp matches interface_properties true
                                    (not (is_empty iface.mac)) _ _ refl)
                                  (All-append (Fits fp matches interface_properties true) _ _
                                    (on-Fits fp matches interface_properties true
                                      (not (is_empty iface.operstate)) _ _ refl)
                                    (All-append (Fits fp matches interface_properties true) _ _
                                      (on-Fits fp matches interface_properties true
                                        (ltb 0 iface.carrier_changes) _ _ refl)
                                      (All-append (Fits fp matches interface_properties true) _ _
                                        (on-Fits fp matches interface_properties true
                                          (ltb 0 iface.carrier_up_count) _ _ refl)
                                        (All-append (Fits fp matches interface_properties true) _ _
                                          (on-Fits fp matches interface_properties true
                                            (ltb 0 iface.carrier_down_count) _ _ refl)
                                          (All-append (Fits fp matches interface_properties true) _
                                            _
                                            (optional-Fits fp matches interface_properties true _ _
                                              iface.speed_mbps
                                              (λ a _. natural-conforms fp matches (a)))
                                            (optional-Fits fp matches interface_properties true _ _
                                              iface.duplex
                                              (λ a _. duplex-conforms fp matches a)))))))),
                          )),
                    ),
                  ),
                ),
              ),
            ),
          ),
        ),
      ),
    ),
  )

  pub interface-conforms :
      (iface : NetworkInterface)
      → conforms fp matches (interface_json iface) interface_schema ≡ true
  unfolding find str str_eq
  interface-conforms iface =
      object-conforms fp matches _ interface_properties true (interface_fields iface) refl
        (interface-Fits iface)

  finite_or_zero-conforms :
      (v : F) → HasZero fp → accepts_real fp matches (finite_or_zero fp v) (number false) ≡ true
  finite_or_zero-conforms v (a, b) = elim (Bool-cases (fp.is_nan v || fp.is_inf v)) [
    | inl e ↦ rw (e, a, b) refl
    | inr e ↦ rw (e, e) refl
  ]

  geb_refl : (v : F) → fp.is_nan v ≡ false → fp.geb v v ≡ true
  geb_refl v a = elim (Bool-cases (fp.geb v v)) [ inl e ↦ e | inr e ↦ fp.geb_total v v a a e ]

  load-conforms :
      (v : F)
      → HasZero fp
      → IsLoad fp v
      → accepts_real fp matches (finite_or_zero fp v) (number true) ≡ true
  load-conforms v (a, b) h = elim (Bool-cases (fp.is_nan v || fp.is_inf v)) [
    | inl e ↦ rw (e, a, b) (geb_refl (fp.of_int (pos 0)) a)
    | inr e ↦ rw (e, e) (h e)
  ]

  cpu-Fits :
      (cpu : CpuLoad F)
      → HasZero fp
      → IsLoad fp cpu.load1 × IsLoad fp cpu.load5 × IsLoad fp cpu.load15
      → All (Fits fp matches cpu_properties true) (cpu_fields fp cpu)
  unfolding conforms find_property find str str_eq
  cpu-Fits cpu z h = (
    load-conforms cpu.load1 z h.0,
    (load-conforms cpu.load5 z h.1, (load-conforms cpu.load15 z h.2, tt)),
  )

  pub cpu-conforms :
      (cpu : CpuLoad F)
      → HasZero fp
      → IsLoad fp cpu.load1 × IsLoad fp cpu.load5 × IsLoad fp cpu.load15
      → conforms fp matches (cpu_json fp cpu) cpu_schema ≡ true
  unfolding find str str_eq
  cpu-conforms cpu z h =
      object-conforms fp matches _ cpu_properties true (cpu_fields fp cpu) refl (cpu-Fits cpu z h)

  sensor-Fits :
      (sensor : ThermalSensor F)
      → HasZero fp
      → All (Fits fp matches sensor_properties true) (sensor_fields fp sensor)
  unfolding conforms find_property find str str_eq
  sensor-Fits sensor z = (
    string-conforms fp matches (sensor.sensor),
    (
      refl,
      optional-Fits fp matches sensor_properties true _ _ sensor.temp_c
          (λ a _. finite_or_zero-conforms a z),
    ),
  )

  pub sensor-conforms :
      (sensor : ThermalSensor F)
      → HasZero fp
      → conforms fp matches (sensor_json fp sensor) sensor_schema ≡ true
  unfolding find str str_eq
  sensor-conforms sensor z =
      object-conforms fp matches _ sensor_properties true (sensor_fields fp sensor) refl
        (sensor-Fits sensor z)

  window-conforms : (n : ℕ) → leb 1 n ≡ true → accepts_integer (pos n) (whole (some 1) none) ≡ true
  window-conforms n h = ground (arith, h)

  resources-Fits :
      (format_time : ℕ → Str) (resources : ResourcesStatus F)
      → HasZero fp
      → IsResources fp resources
      → All (Fits fp matches resources_properties true) (resources_fields fp format_time resources)
  unfolding conforms find_property find str str_eq
  resources-Fits format_time resources z h = (
    window-conforms resources.sample_window_sec h.0,
    (
      cpu-conforms resources.cpu z h.1,
      (
        memory-conforms resources.memory,
        (
          array-conforms fp matches mount_json mount_schema resources.storage
              (mounts-conform resources.storage h.2),
          (
            array-conforms fp matches (sensor_json fp) sensor_schema resources.thermal
                (All-every fp matches _ (λ t. sensor-conforms t z) resources.thermal),
            (
              array-conforms fp matches interface_json interface_schema resources.network
                  (All-every fp matches _ interface-conforms resources.network),
              freshness-Fits fp matches format_time resources_properties resources.freshness refl
                  refl,
            ),
          ),
        ),
      ),
    ),
  )

  pub resources-conforms :
      (format_time : ℕ → Str) (resources : ResourcesStatus F)
      → HasZero fp
      → IsResources fp resources
      → conforms fp matches (resources_json fp format_time resources) resources_schema ≡ true
  unfolding find str str_eq
  resources-conforms format_time resources z h =
      object-conforms fp matches _ resources_properties true
        (resources_fields fp format_time resources) refl (resources-Fits format_time resources z h)

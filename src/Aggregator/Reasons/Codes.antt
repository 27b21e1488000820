-- ===== src/Aggregator/Reasons/Codes.antt =====
-- Which codes of src/aggregator.cpp's generate_reasons() are there, and when.
use edge_healthd.Prelude.{
  ℕ, ◌≡◌, ◌↔◌, refl, ◌∙◌, ap, Bool, true, false, ◌&&◌, ◌||◌, List, [], ◌∷◌, ◌++◌, All, any, Str,
  str, str_eq, ◌==◌, arith, Bool-cases, inl, inr, is_empty,
}
use edge_healthd.Prelude.Double.{Double}
use edge_healthd.Types.Enums.{Severity}
use edge_healthd.Types.Sections.{
  BootStatus, ServiceUnit, ServicesStatus, MemoryUsage, StorageMount, ThermalSensor,
  ResourcesStatus, RtcStatus, TimeSyncStatus, UpdateStatus, JournalStatus, CrashStatus,
}
use edge_healthd.Config.{Thresholds}
use edge_healthd.Aggregator.Evaluate.{evaluate_crash}
use edge_healthd.Aggregator.Reasons.{
  push_if, is_failed, at_least, boot_reasons, service_reasons, memory_reasons, disk_reasons,
  rtc_reasons, time_reasons, update_reasons, journal_reasons, crash_reasons, temp_at_least,
  thermal_reasons, generate_reasons,
}

-- Whether a code is among the reasons.
abbrev pub has_reason : Str → List Str → Bool
has_reason code = any (str_eq code)

has_reason-append :
    (code : Str) (xs ys : List Str)
    → has_reason code (xs ++ ys) ≡ (has_reason code xs || has_reason code ys)
has_reason-append code [] ys = refl
has_reason-append code (x ∷ xs) ys = ground (arith, has_reason-append code xs ys)

abbrev BeginsWith : ℕ → Str → Type 0
BeginsWith c [] = ⊥
BeginsWith c (x ∷ xs) = c ≡ x

-- No code is among reasons that begin with another letter.
other_letter :
    (x c : ℕ) (xs : Str) (rs : List Str)
    → (x == c) ≡ false
    → All (BeginsWith c) rs
    → has_reason (x ∷ xs) rs ≡ false
unfolding str_eq
other_letter x c xs [] e h = refl
other_letter x c xs ([] ∷ rs) e h = absurd h.0
other_letter x c xs ((y ∷ r) ∷ rs) e h = rw (← h.0) (rw e (other_letter x c xs rs e h.1))

push_if-has :
    (code : Str) (b : Bool) (r : Str) → has_reason code (push_if b r) ≡ (b && str_eq code r)
push_if-has code true r = ground arith
push_if-has code false r = ground arith

service_reasons-letter : (us : List ServiceUnit) → All (BeginsWith 115) (service_reasons us)
unfolding service_reasons str
service_reasons-letter [] = tt
service_reasons-letter (u ∷ us) = elim (Bool-cases (is_failed u.state)) [
  | inl e ↦ rw e (refl, service_reasons-letter us)
  | inr e ↦ rw e (service_reasons-letter us)
]

-- A unit's code is there exactly if a unit of that name has failed.
service_reasons-has :
    (n : Str) (us : List ServiceUnit)
    → has_reason (str "svc_failed:" ++ n) (service_reasons us)
      ≡ any (λ u. is_failed u.state && str_eq n u.name) us
unfolding service_reasons str str_eq
service_reasons-has n [] = refl
service_reasons-has n (u ∷ us) = elim (Bool-cases (is_failed u.state)) [
  | inl e ↦ rw e (ap (λ b. str_eq n u.name || b) (service_reasons-has n us))
  | inr e ↦ rw e (service_reasons-has n us)
]

module _ {F : Type 0} (t : Thresholds F) where
  disk_reasons-letter : (ms : List StorageMount) → All (BeginsWith 100) (disk_reasons t ms)
  unfolding disk_reasons str
  disk_reasons-letter [] = tt
  disk_reasons-letter (m ∷ ms) = elim (Bool-cases (at_least m.used_pct t.disk_used_warn)) [
    | inl e ↦ rw e (refl, disk_reasons-letter ms)
    | inr e ↦ rw e (disk_reasons-letter ms)
  ]

  disk_reasons-has :
      (n : Str) (ms : List StorageMount)
      → has_reason (str "disk_used_high:" ++ n) (disk_reasons t ms)
        ≡ any (λ m. at_least m.used_pct t.disk_used_warn && str_eq n m.mount) ms
  unfolding disk_reasons str str_eq
  disk_reasons-has n [] = refl
  disk_reasons-has n (m ∷ ms) = elim (Bool-cases (at_least m.used_pct t.disk_used_warn)) [
    | inl e ↦ rw e (ap (λ b. str_eq n m.mount || b) (disk_reasons-has n ms))
    | inr e ↦ rw e (disk_reasons-has n ms)
  ]

  thermal_reasons-letter :
      (fp : Double F) (ss : List (ThermalSensor F)) → All (BeginsWith 116) (thermal_reasons fp t ss)
  unfolding thermal_reasons str
  thermal_reasons-letter fp [] = tt
  thermal_reasons-letter fp (s ∷ ss) = elim (Bool-cases (temp_at_least fp s.temp_c t.temp_warn_c)) [
    | inl e ↦ elim (Bool-cases (is_empty s.sensor)) [
      | inl k ↦ rw (e, k) (refl, thermal_reasons-letter fp ss)
      | inr k ↦ rw (e, k) (refl, thermal_reasons-letter fp ss)
    ]
    | inr e ↦ rw e (thermal_reasons-letter fp ss)
  ]

  rtc_reasons-letter : (rtc : RtcStatus) → All (BeginsWith 114) (rtc_reasons t rtc)
  unfolding rtc_reasons str
  rtc_reasons-letter rtc = ground arith

time_reasons-letter : (ts : TimeSyncStatus) → All (BeginsWith 116) (time_reasons ts)
unfolding time_reasons str
time_reasons-letter ts = ground arith

update_reasons-letter : (u : UpdateStatus) → All (BeginsWith 117) (update_reasons u)
unfolding update_reasons str
update_reasons-letter u = ground arith

journal_reasons-letter : (j : JournalStatus) → All (BeginsWith 106) (journal_reasons j)
unfolding journal_reasons str
journal_reasons-letter j = ground arith

boot_reasons-letter : (b : BootStatus) → All (BeginsWith 98) (boot_reasons b)
unfolding boot_reasons str
boot_reasons-letter b = ground arith

memory_reasons-letter :
    {F : Type 0} (t : Thresholds F) (m : MemoryUsage) → All (BeginsWith 109) (memory_reasons t m)
unfolding memory_reasons str
memory_reasons-letter t m = ground arith

has_reason-generate_reasons :
    {F : Type 0} (fp : Double F) (code : Str) (t : Thresholds F) (boot : BootStatus)
    (services : ServicesStatus) (resources : ResourcesStatus F) (time_sync : TimeSyncStatus)
    (update : UpdateStatus) (journal : JournalStatus) (crash : CrashStatus)
    → has_reason code (generate_reasons fp t boot services resources time_sync update journal crash)
      ≡ (has_reason code (boot_reasons boot)
          || (has_reason code (service_reasons services.units)
              || (has_reason code (memory_reasons t resources.memory)
                  || (has_reason code (disk_reasons t resources.storage)
                      || (has_reason code (thermal_reasons fp t resources.thermal)
                          || (has_reason code (time_reasons time_sync)
                              || (has_reason code (rtc_reasons t time_sync.rtc)
                                  || (has_reason code (update_reasons update)
                                      || (has_reason code (journal_reasons journal)
                                          || has_reason code (crash_reasons crash))))))))))
unfolding generate_reasons
has_reason-generate_reasons fp code t boot services resources time_sync update journal crash =
    simp (has_reason-append) refl

crash_reasons-panic :
    (c : CrashStatus)
    → (has_reason (str "kernel_panic_detected") (crash_reasons c) ≡ true)
      ↔ (evaluate_crash c ≡ Severity.crit)
unfolding crash_reasons evaluate_crash str str_eq
crash_reasons-panic c = ground arith

crash_reasons-other :
    (n : Str) (c : CrashStatus)
    → (has_reason (str "svc_failed:" ++ n) (crash_reasons c) ≡ false)
      × (has_reason (str "disk_used_high:" ++ n) (crash_reasons c) ≡ false)
unfolding crash_reasons str str_eq
crash_reasons-other n c = ground arith

-- A first letter that the codes of only services, disks and crashes can have.
abbrev IsOurs : ℕ → Type 0
IsOurs x =
    ((x == 98) ≡ false)
    × ((x == 109) ≡ false)
    × ((x == 116) ≡ false)
    × ((x == 114) ≡ false)
    × ((x == 117) ≡ false)
    × ((x == 106) ≡ false)

or_false : (b : Bool) → (b || false) ≡ b
or_false true = refl
or_false false = refl

module _ {F : Type 0} (fp : Double F) (t : Thresholds F) where
  has_reason-ours :
      (x : ℕ) (xs : Str) (boot : BootStatus) (services : ServicesStatus)
      (resources : ResourcesStatus F) (time_sync : TimeSyncStatus) (update : UpdateStatus)
      (journal : JournalStatus) (crash : CrashStatus)
      → IsOurs x
      → has_reason
          (x ∷ xs)
          (generate_reasons fp t boot services resources time_sync update journal crash)
        ≡ (has_reason (x ∷ xs) (service_reasons services.units)
            || (has_reason (x ∷ xs) (disk_reasons t resources.storage)
                || has_reason (x ∷ xs) (crash_reasons crash)))
  has_reason-ours x xs boot services resources time_sync update journal crash (b, m, tt', r, u, j) =
      has_reason-generate_reasons fp (x ∷ xs) t boot services resources time_sync update journal
        crash
      ∙ rw
          (
            other_letter x 98 xs _ b (boot_reasons-letter boot),
            other_letter x 109 xs _ m (memory_reasons-letter t resources.memory),
            other_letter x 116 xs _ tt' (thermal_reasons-letter t fp resources.thermal),
            other_letter x 116 xs _ tt' (time_reasons-letter time_sync),
            other_letter x 114 xs _ r (rtc_reasons-letter t time_sync.rtc),
            other_letter x 117 xs _ u (update_reasons-letter update),
            other_letter x 106 xs _ j (journal_reasons-letter journal),
          )
          refl

  -- The code for a kernel panic is among the reasons exactly if the crash domain is critical before
  -- staleness; the code for a failed unit exactly if a listed unit of that name has failed; the code
  -- for a full disk exactly if a listed mount of that name is at its warning threshold or above.
  pub generate_reasons-codes :
      (boot : BootStatus) (services : ServicesStatus) (resources : ResourcesStatus F)
      (time_sync : TimeSyncStatus) (update : UpdateStatus) (journal : JournalStatus)
      (crash : CrashStatus) (n : Str)
      → let rs = generate_reasons fp t boot services resources time_sync update journal crash in
        ((has_reason (str "kernel_panic_detected") rs ≡ true)
          ↔ (evaluate_crash crash ≡ Severity.crit))
        × (has_reason (str "svc_failed:" ++ n) rs
            ≡ any (λ u. is_failed u.state && str_eq n u.name) services.units)
        × (has_reason (str "disk_used_high:" ++ n) rs
            ≡ any (λ m. at_least m.used_pct t.disk_used_warn && str_eq n m.mount) resources.storage)
  unfolding str
  generate_reasons-codes boot services resources time_sync update journal crash n = (
    rw
        (
          has_reason-ours 107 _ boot services resources time_sync update journal crash
              (refl, refl, refl, refl, refl, refl),
          other_letter 107 115 _ _ refl (service_reasons-letter services.units),
          other_letter 107 100 _ _ refl (disk_reasons-letter t resources.storage),
        )
        (crash_reasons-panic crash),
    has_reason-ours 115 _ boot services resources time_sync update journal crash
          (refl, refl, refl, refl, refl, refl)
        ∙ rw
            (
              service_reasons-has n services.units,
              other_letter 115 100 _ _ refl (disk_reasons-letter t resources.storage),
              (crash_reasons-other n crash).0,
            )
            (or_false _),
    has_reason-ours 100 _ boot services resources time_sync update journal crash
          (refl, refl, refl, refl, refl, refl)
        ∙ rw
            (
              disk_reasons-has t n resources.storage,
              other_letter 100 115 _ _ refl (service_reasons-letter services.units),
              (crash_reasons-other n crash).1,
            )
            (or_false _),
  )

-- ===== src/Daemon/Cycle/Alarm/Latch.antt =====
-- When the crash alarm of collection_cycle() fires.
use edge_healthd.Prelude.{
  ◌≡◌, refl, Bool, true, false, not, ◌&&◌, Option, none, List, [], ◌∷◌, ◌++◌, Str, opt_str_eq,
  opt_str_eq_iff, has_value, if◌then◌else◌, Bool-cases, inl, inr, arith,
}
use edge_healthd.Types.Enums.{Severity}
use edge_healthd.Types.Sections.{CrashStatus}
use edge_healthd.HealthManager.{Signal}
use edge_healthd.Aggregator.Evaluate.{evaluate_crash}
use edge_healthd.Daemon.Cycle.Alarm.{is_active_panic, panic_alarm, crash_alarm}

-- The fingerprint of an active panic: one of this boot that is not acknowledged.
abbrev pub active_fingerprint : CrashStatus → Option Str
active_fingerprint crash = if is_active_panic crash then crash.fingerprint else none

abbrev pub is_crit : Severity → Bool
is_crit Severity.crit = true
is_crit _ = false

crash_alarm_lem :
    (crash : CrashStatus) (last : Option Str)
    → crash_alarm crash last ≡ (
      active_fingerprint crash,
      (if is_active_panic crash && not (opt_str_eq last crash.fingerprint)
          then panic_alarm crash ∷ []
          else []),
    )
unfolding crash_alarm
crash_alarm_lem crash last = elim (Bool-cases (is_active_panic crash)) [
  | inl a ↦ elim (Bool-cases (opt_str_eq last crash.fingerprint)) [
    | inl e ↦ rw (a, e, crash_alarm) (λ i. ((opt_str_eq_iff last crash.fingerprint).0 e i, []))
    | inr e ↦ rw (a, e)
  ]
  | inr n ↦ rw n
]

-- The alarms of a sequence of cycles, the latch passed on.
pub crash_alarms : Option Str → List CrashStatus → List Signal
crash_alarms last [] = []
crash_alarms last (c ∷ cs) =
    let (latch, alarms) = crash_alarm c last in alarms ++ crash_alarms latch cs

-- The alarm and the severity agree: a panic is active exactly if the crash section is evaluated to
-- crit and has a fingerprint.
pub is_active_panic-crit :
    (crash : CrashStatus)
    → is_active_panic crash ≡ (is_crit (evaluate_crash crash) && has_value crash.fingerprint)
unfolding is_active_panic evaluate_crash
is_active_panic-crit crash = ground arith

-- The fingerprint of a crash section that the aggregator judges critical.
abbrev pub critical_fingerprint : CrashStatus → Option Str
critical_fingerprint crash = if is_crit (evaluate_crash crash) then crash.fingerprint else none

critical_fingerprint_lem :
    (crash : CrashStatus) → active_fingerprint crash ≡ critical_fingerprint crash
unfolding is_active_panic evaluate_crash
critical_fingerprint_lem crash = ground arith

is_active_panic_lem :
    (crash : CrashStatus) → is_active_panic crash ≡ has_value (critical_fingerprint crash)
unfolding is_active_panic evaluate_crash
is_active_panic_lem crash = ground arith

-- An alarm where there is a critical fingerprint that is not the one before.
pub alarms_at_edges : Option Str → List CrashStatus → List Signal
alarms_at_edges before [] = []
alarms_at_edges before (c ∷ cs) =
    (if has_value (critical_fingerprint c) && not (opt_str_eq before (critical_fingerprint c))
      then panic_alarm c ∷ []
      else [])
    ++ alarms_at_edges (critical_fingerprint c) cs

edge_lem :
    (c : CrashStatus) (last : Option Str)
    → (if is_active_panic c && not (opt_str_eq last c.fingerprint) then panic_alarm c ∷ [] else [])
      ≡ (if has_value (critical_fingerprint c) && not (opt_str_eq last (critical_fingerprint c))
          then panic_alarm c ∷ []
          else [])
edge_lem c last =
    rw (← is_active_panic_lem c, ← critical_fingerprint_lem c)
      (elim (Bool-cases (is_active_panic c)) [ inl a ↦ rw a | inr n ↦ rw n ])

crash_alarms_from :
    (last : Option Str) (cs : List CrashStatus) → crash_alarms last cs ≡ alarms_at_edges last cs
unfolding crash_alarms alarms_at_edges
crash_alarms_from last [] = refl
crash_alarms_from last (c ∷ cs) =
    rw (crash_alarm_lem c last, critical_fingerprint_lem c)
      (λ i. edge_lem c last i ++ crash_alarms_from (critical_fingerprint c) cs i)

-- Over any sequence of cycles the crash alarm fires exactly in those whose crash section is judged
-- critical by the aggregator (before staleness) and has a fingerprint, which is not that of such a
-- section in the cycle before; before the first cycle there was none.
pub crash_alarms-edges : (cs : List CrashStatus) → crash_alarms none cs ≡ alarms_at_edges none cs
crash_alarms-edges cs = crash_alarms_from none cs

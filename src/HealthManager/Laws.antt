-- ===== src/HealthManager/Laws.antt =====
-- What D-Bus clients observe of HealthManager.
use edge_healthd.Prelude.{
  ℕ, zero, suc, min, ◌==◌, ◌≡◌, refl, ap, ◌↔◌, ◌++◌, true, List, [], ◌∷◌, length, take, Str, str,
  str_eq, str_eq_iff, ltb, if◌then◌else◌, arith,
}
use edge_healthd.Types.Enums.{Severity, severity_to_string, severity_to_string-injective}
use edge_healthd.Aggregator.WorstOf.{rank}
use edge_healthd.Aggregator.WorstOf.Laws.{rank-injective}
use edge_healthd.HealthManager.{
  HealthManager, Signal, properties_changed, health_alarm, is_degradation, update_severity,
  update_recent_logs, overall_severity, get_recent_logs,
}

-- The ranking is that of the roll-up.
is_degradation-rank : (a b : Severity) → is_degradation a b ≡ ltb (rank a) (rank b)
unfolding is_degradation rank
is_degradation-rank a b = ground arith

-- The manager's text is that of its severity.
abbrev pub IsInStep : HealthManager → Type 0
IsInStep m = m.severity_str ≡ severity_to_string m.last_sev

str_eq-severity :
    (a b : Severity) → (str_eq (severity_to_string a) (severity_to_string b) ≡ true) ↔ (a ≡ b)
str_eq-severity a b = (
  λ e. severity_to_string-injective a b ((str_eq_iff _ _).0 e),
  λ e. (str_eq_iff _ _).1 (ap severity_to_string e),
)

-- What a change from one overall severity to the next is announced as.
abbrev pub announced : Severity → Severity → List Signal
announced prev new =
    if rank prev == rank new
    then []
    else properties_changed (str "OverallSeverity")
      ∷ (if ltb (rank prev) (rank new)
          then health_alarm (str "overall")
              (severity_to_string prev ++ str " -> " ++ severity_to_string new)
              (severity_to_string new)
            ∷ []
          else [])

same_rank :
    (a b : Severity) → (str_eq (severity_to_string a) (severity_to_string b)) ≡ (rank a == rank b)
same_rank a b = ground (arith, str_eq-severity a b, rank-injective a b)

pub update_severity_lem :
    (new : Severity) (m : HealthManager)
    → IsInStep m
    → update_severity new m.last_sev m ≡ (
      record m { severity_str = severity_to_string new; last_sev = new },
      announced m.last_sev new,
    )
unfolding update_severity
update_severity_lem new m h = ground (
  arith,
  same_rank m.last_sev new,
  str_eq-severity m.last_sev new,
  is_degradation-rank m.last_sev new,
)

-- The calls of the daemon: each passes on the severity of the call before.
pub update_severities : List Severity → HealthManager → HealthManager × List Signal
update_severities [] m = (m, [])
update_severities (s ∷ ss) m =
    let (m', signals) = update_severity s m.last_sev m in
    let (m'', rest) = update_severities ss m' in (m'', signals ++ rest)

pub announcements : Severity → List Severity → List Signal
announcements prev [] = []
announcements prev (s ∷ ss) = announced prev s ++ announcements s ss

abbrev pub last_of : Severity → List Severity → Severity
last_of prev [] = prev
last_of prev (s ∷ ss) = last_of s ss

-- Over any sequence of cycles the property OverallSeverity is the text of the last overall severity,
-- PropertiesChanged is emitted exactly at the changes, and HealthAlarm "prev -> new" exactly at the
-- changes to a higher rank, in that order.
pub update_severities-announcements :
    (ss : List Severity) (m : HealthManager)
    → m.severity_str ≡ severity_to_string m.last_sev
    → (overall_severity (update_severities ss m).0 ≡ severity_to_string (last_of m.last_sev ss))
      × ((update_severities ss m).1 ≡ announcements m.last_sev ss)
unfolding update_severities announcements overall_severity
update_severities-announcements [] m h = (h, refl)
update_severities-announcements (s ∷ ss) m h = rw (update_severity_lem s m h) (
    let next = record m { severity_str = severity_to_string s; last_sev = s } in
    let (text, signals) = update_severities-announcements ss next refl in
    (text, ap (λ t. announced m.last_sev s ++ t) signals))

take-le : (n : ℕ) (xs : List Str) → take (min n (length xs)) xs ≡ take n xs
take-le zero xs = ground arith
take-le (suc n) [] = ground arith
take-le (suc n) (x ∷ xs) =
    let e : min (suc n) (suc (length xs)) ≡ suc (min n (length xs)) = omega arith in
    rw e (ap (λ t. x ∷ t) (take-le n xs))

-- GetRecentLogs serves the first `max_lines` lines of the last cache, all of them if there are
-- fewer.
pub get_recent_logs-take :
    (n : ℕ) (logs : List Str) (m : HealthManager)
    → get_recent_logs n (update_recent_logs logs m) ≡ take n logs
unfolding get_recent_logs update_recent_logs
get_recent_logs-take zero logs m = ground arith
get_recent_logs-take (suc n) [] m = ground arith
get_recent_logs-take (suc n) (l ∷ ls) m = ground (arith, take-le (suc n) (l ∷ ls))

-- ===== src/Log.antt =====
-- inc/log.hpp: the level filter, the rate limiters, and what the structured messages say. Writing a
-- message (sd_journal_send or stderr, with its time and colours) is an effect, given as a value. Times
-- are those of the steady clock, in nanoseconds; none is time_point::min().
pub mod Counted
use edge_healthd.Prelude.{
  ℕ, ◌+◌, ◌-◌, ◌*◌, ◌%◌, ◌^◌, Bool, true, false, ◌&&◌, Option, none, some, List, [], ◌∷◌, ◌++◌, Str,
  str, str_eq, is_empty, to_string, leb, ltb, if◌then◌else◌,
}

pub data Level : Type 0 where
  debug info warn error : Level

abbrev pub level_number : Level → ℕ
level_number debug = 0
level_number info = 1
level_number warn = 2
level_number error = 3

abbrev pub should_log : Level → Level → Bool
should_log minimum level = leb (level_number minimum) (level_number level)

pub record RateLimiter : Type 0 where
  pub last : Option ℕ
  pub suppressed : ℕ

abbrev pub rate_limiter_default : RateLimiter
rate_limiter_default = record { last = none; suppressed = 0 }

abbrev pub is_over : ℕ → Option ℕ → ℕ → Bool
is_over interval none now = true
is_over interval (some t) now = leb interval (now - t)

-- Whether a message is allowed, with how many were suppressed; a steady clock does not go back.
unfoldable pub allow_rate_limited : ℕ → ℕ → RateLimiter → Option ℕ × RateLimiter
allow_rate_limited interval now limiter =
    if is_over interval limiter.last now
    then (some limiter.suppressed, record { last = some now; suppressed = 0 })
    else (none, record limiter { suppressed = (limiter.suppressed + 1) % 2 ^ 32 })

abbrev pub probe_error_interval : ℕ
probe_error_interval = 60 * 1000000000

abbrev pub writer_error_interval : ℕ
writer_error_interval = 60 * 1000000000

abbrev pub snapshot_interval : ℕ
snapshot_interval = 5 * 60 * 1000000000

-- A line that is written: its level, its text, and its fields.
pub record Line : Type 0 where
  pub level : Level
  pub message : Str
  pub fields : List (Str × Str)

-- The limiters of probe_error(), by the name of the probe; the others share one.
pub record Limiters : Type 0 where
  pub device : RateLimiter
  pub boot : RateLimiter
  pub services : RateLimiter
  pub resources : RateLimiter
  pub time_sync : RateLimiter
  pub update : RateLimiter
  pub other : RateLimiter

pub data Owner : Type 0 where
  device boot services resources time_sync update other : Owner

unfoldable pub owner_of : Str → Owner
owner_of probe =
    if str_eq probe (str "device")
    then Owner.device
    else if str_eq probe (str "boot")
    then Owner.boot
    else if str_eq probe (str "services")
    then Owner.services
    else if str_eq probe (str "resources")
    then Owner.resources
    else if str_eq probe (str "time_sync")
    then Owner.time_sync
    else if str_eq probe (str "update")
    then Owner.update
    else Owner.other

abbrev pub limiter_of : Owner → Limiters → RateLimiter
limiter_of Owner.device l = l.device
limiter_of Owner.boot l = l.boot
limiter_of Owner.services l = l.services
limiter_of Owner.resources l = l.resources
limiter_of Owner.time_sync l = l.time_sync
limiter_of Owner.update l = l.update
limiter_of Owner.other l = l.other

abbrev pub with_limiter : Owner → RateLimiter → Limiters → Limiters
with_limiter Owner.device r l = record l { device = r }
with_limiter Owner.boot r l = record l { boot = r }
with_limiter Owner.services r l = record l { services = r }
with_limiter Owner.resources r l = record l { resources = r }
with_limiter Owner.time_sync r l = record l { time_sync = r }
with_limiter Owner.update r l = record l { update = r }
with_limiter Owner.other r l = record l { other = r }

unfoldable pub probe_error_text : Str → Str → ℕ → Str
probe_error_text probe message suppressed =
    str "Probe failed ["
    ++ (probe
        ++ (str "]: "
            ++ (message
                ++ (if ltb 0 suppressed
                    then str " (suppressed " ++ (to_string suppressed ++ str ")")
                    else []))))

abbrev pub probe_error_line : Str → Str → Option ℕ → List Line
probe_error_line probe message none = []
probe_error_line probe message (some suppressed) =
    record {
      level = warn;
      message = probe_error_text probe message suppressed;
      fields = (str "PROBE", probe) ∷ (str "ERROR", message) ∷ [];
    }
    ∷ []

unfoldable pub probe_error : Level → ℕ → Str → Str → Limiters → List Line × Limiters
unfolding allow_rate_limited owner_of probe_error_text
probe_error minimum now probe message limiters =
    let owner = owner_of probe in
    let (allowed, limiter) =
      allow_rate_limited probe_error_interval now (limiter_of owner limiters) in
    if should_log minimum warn
    then (probe_error_line probe message allowed, with_limiter owner limiter limiters)
    else ([], limiters)

-- The heartbeat: the severity that was logged last, and when.
pub record Heartbeat : Type 0 where
  pub last_severity : Str
  pub last_log : Option ℕ

unfoldable pub collected_text : Str → Str → Str
collected_text severity degraded =
    str "Snapshot collected: "
    ++ (severity ++ (if is_empty degraded then [] else str " (" ++ (degraded ++ str ")")))

abbrev pub heartbeat_line : Str → Str → List Line
heartbeat_line severity degraded =
    record {
      level = info;
      message = collected_text severity degraded;
      fields = (str "SEVERITY", severity) ∷ [];
    }
    ∷ []

unfoldable pub snapshot_collected : Level → ℕ → Str → Str → Heartbeat → List Line × Heartbeat
unfolding collected_text
snapshot_collected minimum now severity degraded h =
    if should_log minimum info
    then if str_eq h.last_severity severity
      then if is_over snapshot_interval h.last_log now
        then (heartbeat_line severity degraded, record h { last_log = some now })
        else ([], h)
      else (
        heartbeat_line severity degraded,
        record { last_severity = severity; last_log = some now },
      )
    else ([], h)

abbrev writer_line : Str → Option ℕ → List Line
writer_line message none = []
writer_line message (some suppressed) =
    record { level = error; message = message; fields = [] } ∷ []

-- The count of what was suppressed is not asked for.
unfoldable pub writer_error : Level → ℕ → Str → RateLimiter → List Line × RateLimiter
unfolding allow_rate_limited
writer_error minimum now message limiter =
    let (allowed, limiter') = allow_rate_limited writer_error_interval now limiter in
    if should_log minimum error then (writer_line message allowed, limiter') else ([], limiter)

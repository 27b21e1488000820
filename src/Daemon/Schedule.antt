-- ===== src/Daemon/Schedule.antt =====
-- inc/daemon.hpp: ProbeSchedule; src/daemon.cpp: the lambdas `maybe_collect` and `mark_stale` of
-- collection_cycle(), over any section type with a `freshness` member. Time points of the steady
-- clock count nanoseconds. An interval is in seconds; one below zero in the configuration is 0 here,
-- which every test of the code treats alike.
pub mod Refines
use edge_healthd.Prelude.{
  ℕ, ◌+◌, ◌*◌, max, ◌≡◌, Bool, true, false, not, ◌&&◌, ◌||◌, Option, none, some, ltb, leb,
  if◌then◌else◌,
}
use edge_healthd.Types.Sections.{SectionFreshness}
use edge_healthd.Probe.Result.{ProbeResult, ProbeError, value, failure}

pub record ProbeSchedule : Type 0 where
  pub interval : ℕ
  pub next_run : ℕ
  pub has_result : Bool

-- std::chrono::seconds on the steady clock's scale.
abbrev pub seconds : ℕ → ℕ
seconds n = n * 1000000000

-- What a probe answers if it is asked in this cycle, and the wall-clock time read after it.
pub record Reading (T : Type 0) : Type 0 where
  pub result : ProbeResult T
  pub read_at : ℕ

-- A section of the daemon: its schedule and the last known good value.
pub record Section (T : Type 0) : Type 0 where
  pub sched : ProbeSchedule
  pub cache : T

-- A struct with a member `freshness`.
pub record HasFreshness (T : Type 0) : Type 0 where
  pub freshness_of : T → SectionFreshness
  pub with_freshness : SectionFreshness → T → T
  pub of-with : (f : SectionFreshness) (x : T) → freshness_of (with_freshness f x) ≡ f
  pub with-with :
      (f g : SectionFreshness) (x : T) → with_freshness f (with_freshness g x) ≡ with_freshness f x

unfoldable pub due : ProbeSchedule → ℕ → Bool
due sched now = not sched.has_result || (ltb 0 sched.interval && leb sched.next_run now)

-- The body of `maybe_collect` once the probe is due. `stamp` sets the freshness of a section that
-- has one. The error is what is logged.
unfoldable pub take_reading :
    {T : Type 0} → (ℕ → T → T) → ℕ → ProbeResult T → ℕ → Section T → Section T × Option ProbeError
take_reading stamp now (value v) read_at s = (
  record {
    sched = record {
      interval = s.sched.interval;
      next_run = now + seconds s.sched.interval;
      has_result = true;
    };
    cache = stamp read_at v;
  },
  none,
)
take_reading stamp now (failure e) read_at s = (s, some e)

unfoldable pub maybe_collect :
    {T : Type 0} → (ℕ → T → T) → ℕ → Reading T → Section T → Section T × Option ProbeError
unfolding due take_reading
maybe_collect stamp now r s =
    if due s.sched now then take_reading stamp now r.result r.read_at s else (s, none)

-- `cache.freshness.collected_at = now(); cache.freshness.stale = false`.
abbrev pub fresh_at : ℕ → SectionFreshness
fresh_at wall = record { collected_at = some wall; stale = false }

abbrev pub stamp_fresh : {T : Type 0} ⦃h : HasFreshness T⦄ → ℕ → T → T
stamp_fresh ⦃h⦄ wall v = h.with_freshness (fresh_at wall) v

-- `mark_stale`: one missed cadence, of 30 seconds at least, past the next run.
unfoldable pub mark_stale : {T : Type 0} ⦃h : HasFreshness T⦄ → ℕ → Section T → Section T
mark_stale ⦃h⦄ now s =
    if s.sched.has_result && ltb 0 s.sched.interval
    then record s {
      cache =
          h.with_freshness
            (record (h.freshness_of s.cache) {
              stale = ltb (s.sched.next_run + seconds (max s.sched.interval 30)) now;
            })
            s.cache;
    }
    else s

-- `schedule.next_run = now`, where a signal has asked for an early collection.
unfoldable pub force_due : {T : Type 0} → Bool → ℕ → Section T → Section T
force_due pending now s =
    if pending then record s { sched = record s.sched { next_run = now } } else s

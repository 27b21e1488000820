-- ===== src/Daemon/Schedule/Refines.antt =====
-- A section over a history of cycles does what a machine does that remembers only the last success:
-- when it was, and what was read.
use edge_healthd.Prelude.{
  ℕ, ◌+◌, ◌≡◌, refl, Bool, true, false, ◌&&◌, Option, none, some, List, [], ◌∷◌, inl, inr, max, ltb,
  leb, if◌then◌else◌, Bool-cases, arith,
}
use edge_healthd.Probe.Result.{ProbeResult, value, failure}
use edge_healthd.Daemon.Schedule.{
  Reading, Section, HasFreshness, seconds, take_reading, maybe_collect, mark_stale, stamp_fresh,
}

-- The steady-clock time of the last success, its value and the wall-clock time.
abbrev pub Last : Type 0 → Type 0
Last T = Option (ℕ × T × ℕ)

-- A probe is asked if it never succeeded, or if an interval above 0 has passed since.
abbrev pub is_wanted : {T : Type 0} → ℕ → ℕ → Last T → Bool
is_wanted interval now none = true
is_wanted interval now (some (t, v, w)) = ltb 0 interval && leb (t + seconds interval) now

abbrev pub recall : {T : Type 0} → ℕ → ProbeResult T → ℕ → Last T → Last T
recall now (value v) read_at last = some (now, v, read_at)
recall now (failure e) read_at last = last

-- The specification of one cycle at a time, with what the probe would answer.
pub observe : {T : Type 0} → ℕ → ℕ × Reading T → Last T → Last T
observe interval (now, r) last =
    if is_wanted interval now last then recall now r.result r.read_at last else last

module _ {T : Type 0} ⦃h : HasFreshness T⦄ where
  -- The part of a cycle that concerns one section.
  unfoldable pub section_cycle : ℕ × Reading T → Section T → Section T
  section_cycle (now, r) s = mark_stale now (maybe_collect stamp_fresh now r s).0

  -- What the section holds after a cycle at `now`, given the last success; `s₀` is what it held
  -- before any.
  abbrev pub held : Section T → ℕ → Last T → Section T
  held s₀ now none = s₀
  held s₀ now (some (t, v, w)) = record {
    sched = record {
      interval = s₀.sched.interval;
      next_run = t + seconds s₀.sched.interval;
      has_result = true;
    };
    cache =
        h.with_freshness
          (record {
            collected_at = some w;
            stale =
                ltb 0 s₀.sched.interval
                && ltb (t + seconds s₀.sched.interval + seconds (max s₀.sched.interval 30)) now;
          })
          v;
  }

  abbrev IsUnread : Section T → Type 0
  IsUnread s = s.sched.has_result ≡ false

  mark_stale-held :
      (s₀ : Section T) (before now : ℕ) (last : Last T)
      → IsUnread s₀
      → mark_stale now (held s₀ before last) ≡ held s₀ now last
  unfolding mark_stale
  mark_stale-held s₀ before now none u = ground arith
  mark_stale-held s₀ before now (some (t, v, w)) u = elim (Bool-cases (ltb 0 s₀.sched.interval)) [
    | inl e ↦ rw (e, mark_stale, h.of-with, h.with-with)
    | inr e ↦ rw (e, mark_stale)
  ]

  -- A success is held as of its own time, when it is not stale.
  collected-held :
      (s₀ : Section T) (now : ℕ) (v : T) (w : ℕ)
      → held s₀ now (some (now, v, w)) ≡ record {
        sched = record {
          interval = s₀.sched.interval;
          next_run = now + seconds s₀.sched.interval;
          has_result = true;
        };
        cache = stamp_fresh w v;
      }
  collected-held s₀ now v w = ground arith

  take_reading-held :
      (s₀ : Section T) (before now : ℕ) (last : Last T) (res : ProbeResult T) (w : ℕ)
      → IsUnread s₀
      → mark_stale now (take_reading stamp_fresh now res w (held s₀ before last)).0
        ≡ held s₀ now (recall now res w last)
  unfolding take_reading
  take_reading-held s₀ before now none (value v) w u =
      rw (← collected-held s₀ now v w) (mark_stale-held s₀ now now (some (now, v, w)) u)
  take_reading-held s₀ before now (some (t, x, y)) (value v) w u =
      rw (← collected-held s₀ now v w) (mark_stale-held s₀ now now (some (now, v, w)) u)
  take_reading-held s₀ before now last (failure e) w u = mark_stale-held s₀ before now last u

  section_cycle-held :
      (s₀ : Section T) (before now : ℕ) (r : Reading T) (last : Last T)
      → IsUnread s₀
      → section_cycle (now, r) (held s₀ before last)
        ≡ held s₀ now (observe s₀.sched.interval (now, r) last)
  unfolding section_cycle observe maybe_collect
  section_cycle-held s₀ before now r none u =
      simp u (take_reading-held s₀ before now none r.result r.read_at u)
  section_cycle-held s₀ before now r (some (t, v, w)) u =
      elim (Bool-cases (is_wanted s₀.sched.interval now (some (t, v, w)))) [
        | inl e ↦ rw e (take_reading-held s₀ before now (some (t, v, w)) r.result r.read_at u)
        | inr e ↦ rw e (mark_stale-held s₀ before now (some (t, v, w)) u)
      ]

  unfoldable pub section_cycles : List (ℕ × Reading T) → Section T → Section T
  section_cycles [] s = s
  section_cycles (c ∷ cs) s = section_cycles cs (section_cycle c s)

  pub observe_all : ℕ → List (ℕ × Reading T) → Last T → Last T
  observe_all interval [] last = last
  observe_all interval (c ∷ cs) last = observe_all interval cs (observe interval c last)

  -- The time of the last cycle of a history.
  abbrev pub end_time : ℕ → List (ℕ × Reading T) → ℕ
  end_time now [] = now
  end_time now ((t, r) ∷ cs) = end_time t cs

  cycles-held :
      (s₀ : Section T) (before : ℕ) (cs : List (ℕ × Reading T)) (last : Last T)
      → IsUnread s₀
      → section_cycles cs (held s₀ before last)
        ≡ held s₀ (end_time before cs) (observe_all s₀.sched.interval cs last)
  unfolding section_cycles observe_all
  cycles-held s₀ before [] last u = refl
  cycles-held s₀ before ((now, r) ∷ cs) last u =
      rw (section_cycle-held s₀ before now r last u)
        (cycles-held s₀ now cs (observe s₀.sched.interval (now, r) last) u)

  -- After any history of cycles a section that had never been read holds the last success: its
  -- value and wall-clock time, a next run one interval after it, and the flag stale exactly if the
  -- interval is above 0 and the last cycle is later than that next run by more than the interval,
  -- and by more than 30 seconds. A probe has been asked in the cycles that found no success before,
  -- or one at least an interval (above 0) old. With no success it holds what it held at first.
  pub section_cycles-held :
      (s₀ : Section T) (cs : List (ℕ × Reading T))
      → s₀.sched.has_result ≡ false
      → section_cycles cs s₀ ≡ held s₀ (end_time 0 cs) (observe_all s₀.sched.interval cs none)
  section_cycles-held s₀ cs u = cycles-held s₀ 0 cs none u

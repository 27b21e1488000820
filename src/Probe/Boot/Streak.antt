-- ===== src/Probe/Boot/Streak.antt =====
-- Over a history of boots BootProbe counts the boots since the last successful one.
use edge_healthd.Prelude.{
  ℕ, ◌+◌, ◌%◌, ◌^◌, ◌≤◌, ◌<◌, ◌↔◌, ◌≡◌, refl, ◌∙◌, Bool, true, false, not, ◌&&◌, Option, none, some,
  List, [], ◌∷◌, Str, str_eq, is_empty, if◌then◌else◌, inl, inr, Bool-cases, length, arith,
}
use edge_healthd.Types.Enums.{Severity}
use edge_healthd.Types.Sections.{BootStatus}
use edge_healthd.Config.{Thresholds}
use edge_healthd.Aggregator.Evaluate.{evaluate_boot}
use edge_healthd.Probe.Boot.{
  BootState, BootJson, load_boot_state, load_parsed, load_fields, load_failures, load_last_boot_ok,
  save_boot_state, enter_boot, collect, mark_boot_success,
}

-- A boot: its id, and whether it came as far as mark_boot_success().
pub record Boot : Type 0 where
  pub boot_id : Str
  pub successful : Bool

-- The boots since the last successful one, after `n` before the history.
pub streak : ℕ → List Boot → ℕ
streak n [] = n
streak n (b ∷ bs) = streak (if b.successful then 0 else n + 1) bs

-- Each boot, and the one that follows, has another id than the one before it.
abbrev pub AreNew : Str → List Boot → Str → Type 0
AreNew before [] next = str_eq before next ≡ false
AreNew before (b ∷ bs) next =
    (str_eq before b.boot_id ≡ false) × ((is_empty b.boot_id ≡ false) × AreNew b.boot_id bs next)

evaluate_boot-crit :
    {F : Type 0} (t : Thresholds F) (status : BootStatus)
    → (evaluate_boot t status ≡ Severity.crit) ↔ (t.boot_fail_crit ≤ status.boot_fail_count)
unfolding evaluate_boot
evaluate_boot-crit t status = ground arith

module _ (json : BootJson) where
  load-save : (s : BootState) → load_boot_state json (some (json.dump s)) ≡ s
  unfolding load_boot_state load_parsed load_fields load_failures load_last_boot_ok
  load-save s = rw (json.parse-dump s)

  -- The file after a boot: a first collection, and the mark if it is successful.
  pub boot : ℕ → ℕ → Boot → Option Str → Option Str
  boot now uptime b file =
      let collected = (collect json b.boot_id now uptime true file).1 in
      if b.successful then mark_boot_success json b.boot_id true collected else collected

  pub boots : ℕ → ℕ → List Boot → Option Str → Option Str
  boots now uptime [] file = file
  boots now uptime (b ∷ bs) file = boots now uptime bs (boot now uptime b file)

  -- What the next boot, a new one, will report.
  abbrev pending : BootState → ℕ
  pending s =
      if not (is_empty s.last_boot_id) && not s.last_boot_ok
      then (s.consecutive_failures + 1) % 2 ^ 32
      else s.consecutive_failures

  collect-new :
      (boot_id : Str) (now uptime : ℕ) (file : Option Str)
      → str_eq (load_boot_state json file).last_boot_id boot_id ≡ false
      → ((collect json boot_id now uptime true file).0.boot_fail_count
          ≡ pending (load_boot_state json file))
        × ((collect json boot_id now uptime true file).1
            ≡ some (
                json.dump (record {
                  last_boot_id = boot_id;
                  consecutive_failures = pending (load_boot_state json file);
                  last_boot_ok = false;
                })))
  unfolding collect enter_boot save_boot_state
  collect-new boot_id now uptime file e = rw (e, enter_boot) (refl, refl)

  boot-new :
      (now uptime : ℕ) (b : Boot) (file : Option Str)
      → str_eq (load_boot_state json file).last_boot_id b.boot_id ≡ false
      → is_empty b.boot_id ≡ false
      → ((load_boot_state json (boot now uptime b file)).last_boot_id ≡ b.boot_id)
        × (pending (load_boot_state json (boot now uptime b file))
            ≡ (if b.successful then 0 else (pending (load_boot_state json file) + 1) % 2 ^ 32))
  unfolding boot mark_boot_success save_boot_state
  boot-new now uptime b file e k = elim (Bool-cases b.successful) [
    | inl ok ↦
        rw
          (
            ok,
            load-save (record {
              last_boot_id = b.boot_id;
              consecutive_failures = 0;
              last_boot_ok = true;
            }),
            k,
          )
          (refl, refl)
    | inr failed ↦
        rw (failed, (collect-new b.boot_id now uptime file e).1)
          (rw
            (
              load-save (record {
                last_boot_id = b.boot_id;
                consecutive_failures = pending (load_boot_state json file);
                last_boot_ok = false;
              }),
              k,
            )
            (refl, refl))
  ]

  boots-pending :
      (now uptime : ℕ) (bs : List Boot) (next : Str) (file : Option Str) (n : ℕ)
      → pending (load_boot_state json file) ≡ n
      → n + length bs < 2 ^ 32
      → AreNew (load_boot_state json file).last_boot_id bs next
      → (collect json next now uptime true (boots now uptime bs file)).0.boot_fail_count
        ≡ streak n bs
  unfolding boots streak
  boots-pending now uptime [] next file n e h new = (collect-new next now uptime file new).0 ∙ e
  boots-pending now uptime (b ∷ bs) next file n e h (new, (named, news)) =
      let (entered, counted) = boot-new now uptime b file new named in
      boots-pending now uptime bs next (boot now uptime b file) (if b.successful then 0 else n + 1)
        (counted ∙ ground arith) (ground arith) (rw entered news)

  -- With every write succeeding, and ids that change from boot to boot, the boot that follows a
  -- history reports how many boots there were since the last one that was marked successful, or
  -- since there is a state file, and its boot section is judged critical exactly if that number
  -- has reached the critical threshold. There are fewer than 2^32 boots.
  pub collect-streak :
      {F : Type 0} (t : Thresholds F) (now uptime : ℕ) (bs : List Boot) (next : Str)
      → length bs < 2 ^ 32
      → AreNew [] bs next
      → let status = (collect json next now uptime true (boots now uptime bs none)).0 in
        (status.boot_fail_count ≡ streak 0 bs)
        × ((evaluate_boot t status ≡ Severity.crit) ↔ (t.boot_fail_crit ≤ streak 0 bs))
  unfolding load_boot_state
  collect-streak t now uptime bs next h new =
      let e = boots-pending now uptime bs next none 0 refl (omega arith) new in
      (
        e,
        rw (← e)
            (evaluate_boot-crit t (collect json next now uptime true (boots now uptime bs none)).0),
      )

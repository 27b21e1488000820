-- ===== src/Daemon/Cycle/Written.antt =====
-- What a collection cycle writes, and that a failing writer does not disturb it.
use mathlib.Core.List.{append_assoc}
use edge_healthd.Prelude.{
  ◌+◌, ◌%◌, ◌^◌, ◌≡◌, refl, ◌∙◌, ap, Bool, Option, none, some, List, [], ◌∷◌, ◌++◌, map, Str,
}
use edge_healthd.Prelude.Double.{Double}
use edge_healthd.Types.Snapshot.{SnapshotState}
use edge_healthd.Probe.Result.{ProbeError}
use edge_healthd.HealthManager.{Signal}
use edge_healthd.Daemon.State.{
  Daemon, Sections, Inputs, Effect, WriteOutcome, log_probe_error, write_snapshot, log_writer_error,
  emit, log_snapshot_collected, notify_status, wake, write_acknowledgement, written, write_failed,
  write_threw,
}
use edge_healthd.Daemon.Cycle.{write_effects, publish, cycle_state, collection_cycle}
use edge_healthd.Daemon.Cycle.Collect.{logged, collect_sections}

module _ {F : Type 0} where
  -- The snapshots that are handed to the writer.
  unfoldable pub snapshots : List (Effect F) → List (SnapshotState F)
  snapshots [] = []
  snapshots (log_probe_error name e ∷ es) = snapshots es
  snapshots (write_snapshot s ∷ es) = s ∷ snapshots es
  snapshots (log_writer_error message ∷ es) = snapshots es
  snapshots (emit signal ∷ es) = snapshots es
  snapshots (log_snapshot_collected severity degraded ∷ es) = snapshots es
  snapshots (notify_status severity ∷ es) = snapshots es
  snapshots (wake ∷ es) = snapshots es
  snapshots (write_acknowledgement fingerprint ∷ es) = snapshots es

  pub snapshots-append :
      (es fs : List (Effect F)) → snapshots (es ++ fs) ≡ snapshots es ++ snapshots fs
  unfolding snapshots
  snapshots-append [] fs = refl
  snapshots-append (log_probe_error name e ∷ es) fs = snapshots-append es fs
  snapshots-append (write_snapshot s ∷ es) fs = ap (λ t. s ∷ t) (snapshots-append es fs)
  snapshots-append (log_writer_error message ∷ es) fs = snapshots-append es fs
  snapshots-append (emit signal ∷ es) fs = snapshots-append es fs
  snapshots-append (log_snapshot_collected severity degraded ∷ es) fs = snapshots-append es fs
  snapshots-append (notify_status severity ∷ es) fs = snapshots-append es fs
  snapshots-append (wake ∷ es) fs = snapshots-append es fs
  snapshots-append (write_acknowledgement fingerprint ∷ es) fs = snapshots-append es fs

  snapshots-logged :
      (name : Str) (e : Option ProbeError) (es : List (Effect F))
      → snapshots (logged name e ++ es) ≡ snapshots es
  unfolding snapshots
  snapshots-logged name none es = refl
  snapshots-logged name (some e) es = refl

  snapshots-collect_sections :
      (rauc ack : Bool) (i : Inputs F) (s : Sections F) (es : List (Effect F))
      → snapshots ((collect_sections rauc ack i s).1 ++ es) ≡ snapshots es
  unfolding collect_sections
  snapshots-collect_sections rauc ack i s es = simp (append_assoc, snapshots-logged) refl

  snapshots-signals :
      (signals : List Signal) (es : List (Effect F))
      → snapshots (map emit signals ++ es) ≡ snapshots es
  unfolding snapshots
  snapshots-signals [] es = refl
  snapshots-signals (x ∷ xs) es = snapshots-signals xs es

  snapshots-write_effects :
      (s : SnapshotState F) (o : WriteOutcome) (es : List (Effect F))
      → snapshots (write_effects s o ++ es) ≡ s ∷ snapshots es
  unfolding snapshots
  snapshots-write_effects s written es = refl
  snapshots-write_effects s (write_failed message) es = refl
  snapshots-write_effects s (write_threw what) es = refl

  collection_cycle-write_outcome :
      (fp : Double F) (i : Inputs F) (d : Daemon F) (o : WriteOutcome)
      → (collection_cycle fp (record i { write_outcome = o }) d).0 ≡ (collection_cycle fp i d).0
  unfolding collection_cycle collect_sections cycle_state
  collection_cycle-write_outcome fp i d o = refl

  -- Every cycle hands exactly one snapshot to the writer, the one that is the current state after
  -- it, and the state after it is the same whether the write succeeds, fails or throws.
  pub collection_cycle-snapshots :
      (fp : Double F) (i : Inputs F) (d : Daemon F) (o : WriteOutcome)
      → (snapshots (collection_cycle fp i d).1 ≡ (collection_cycle fp i d).0.current_state ∷ [])
        × ((collection_cycle fp (record i { write_outcome = o }) d).0 ≡ (collection_cycle fp i d).0)
  unfolding collection_cycle snapshots
  collection_cycle-snapshots fp i d o =
      let s =
        cycle_state fp d.config i ((d.cycle_count + 1) % 2 ^ 64)
          (collect_sections d.rauc_update_pending d.crash_ack_pending i d.sections).0 in
      (
        snapshots-collect_sections d.rauc_update_pending d.crash_ack_pending i d.sections _
            ∙ snapshots-write_effects s i.write_outcome _
            ∙ ap (λ t. s ∷ t)
                (snapshots-signals
                  (publish s d.last_severity d.last_alarmed_crash_fp d.health_manager).2 _),
        collection_cycle-write_outcome fp i d o,
      )

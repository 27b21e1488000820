-- ===== src/Lib.antt =====
-- edge-healthd: a daemon that collects the health of a device and publishes it.
--
-- The program. SnapshotDaemon (src/daemon.cpp) runs a collection cycle every collect_interval and
-- whenever its eventfd is written. A cycle asks each probe whose schedule is due, keeps the last good
-- value of each section, marks the sections stale that are overdue, lets SnapshotAggregator
-- (src/aggregator.cpp) judge them, hands the snapshot to SnapshotWriter, and tells HealthManager
-- (src/dbus_manager.cpp), which D-Bus clients read and which emits signals. Between cycles D-Bus
-- callbacks ask for an early cycle or acknowledge a crash, and RAUC reports an installed update.
--
-- The files:
-- - Prelude: library names, Boolean tests, lists, texts as bytes, signed integers, and the interface
--   of floating-point numbers.
-- - Types (inc/types.hpp): Enums, Sections (the structs that probes fill), Snapshot.
-- - Json: the values of nlohmann::json; Get (its conversions, as an interface), Serializer
--   (src/json.cpp), Schema (JSON Schema, and schemas/edge.health.state.v1.1.json in Schema.Snapshot).
-- - Config (inc/config.hpp), Config.Validate and Config.Load (src/config.cpp: validate; load,
--   load_or_default and to_json_string).
-- - Aggregator (src/aggregator.cpp): WorstOf (worst_of), Evaluate (evaluate_*), Reasons
--   (generate_reasons), Aggregate (aggregate, aggregate_partial, compute_overall).
-- - Probe: Result (inc/probes.hpp: ProbeError, ProbeResult); of src/probes.cpp: Device, Boot (with
--   boot_state.json), Crash, Resources (memory and storage), Thermal (load, sensors, and the probe's
--   collect), Update; of src/probes_dbus.cpp: Services, TimeSync, and the RAUC part of Update.
-- - Network: Monitor (src/netlink_monitor.cpp), Interfaces (collect_network of
--   src/probes.cpp), Ethtool (src/ethtool_link.cpp).
-- - Journal: Filter and Utf8 (inc/journal.hpp, src/journal.cpp), Buffer (journal_detail of
--   src/journal_reader.cpp, JournalProbe of src/probes.cpp), Entry (read_current), Reader
--   (JournalReader).
-- - Storage: FileSystem (the operations of POSIX, as an interface), Outcome (programs that a power cut
--   can end), AtomicFile (src/atomic_file.cpp), Writer (src/writer.cpp).
-- - Main (src/main.cpp): the command line, and what main() does with the configuration.
-- - Log (inc/log.hpp): levels, rate limiters and the structured messages.
-- - HealthManager (inc/dbus_manager.hpp, src/dbus_manager.cpp): the D-Bus object.
-- - Daemon (inc/daemon.hpp, src/daemon.cpp): Schedule (ProbeSchedule, maybe_collect, mark_stale),
--   State (SnapshotDaemon and what it does to the outside), Cycle (collection_cycle), Callbacks (the
--   D-Bus and RAUC callbacks), Run (histories of cycles and callbacks), Loop (run()), Watchdog
--   (the watchdog thread).
-- - Examples: the theorems at concrete inputs.
--
-- How the code is modelled. A function is one by the same name, with the object before as an argument
-- and the object after as a result. What a method does to the outside (a signal, a file, a log line
-- that carries a result) is a value of Signal or Effect, in order. What it reads (clocks, probes, the
-- outcome of writing) is an argument. double is a parameter with the comparison laws of IEEE 754 that
-- are used; thousandths stand for it in examples. Unsigned arithmetic that can wrap has its modulus
-- written out; the chrono arithmetic on intervals is unbounded, while in the code very large intervals
-- overflow. Steady-clock times are nanoseconds. A file's time is converted with the two clock readings
-- of that conversion as values. Callbacks and cycles run one after another: the
-- callbacks change only fields that the code guards by a mutex or that are atomic, and a cycle reads
-- each once.
--
-- Interfaces. Code outside the repository is a record of operations with the behaviour that its
-- documentation states: FileSystem (POSIX files; what may be found after a power cut is an observation
-- of the state), SdJournal (the cursor of sd-journal), Getters (the conversions of nlohmann::json),
-- Systemd, Timedate and the slots of RAUC (answers on D-Bus). inet_ntop, gmtime_r with put_time, strptime
-- and regular expressions are functions without laws. Each interface has an instance in Examples.
--
-- Bounds. Loops are recursions over the lists that the code walks, over the rest of a text, or over
-- the reads that a budget leaves. Fuel is used in three places. to_string of Prelude.Text has one more
-- than the number itself, which has no more digits than that; a fingerprint is printed as its 16
-- hexadecimal digits. The loop of atomic_write_file() needs one round for every byte and one for every
-- write that comes to nothing, which the kernel answers only finitely often. The scan of the journal
-- needs one round for every entry that is left.
--
-- Not modelled: threads and locks themselves, the parsing and printing of texts by libraries (a JSON
-- text and its value are taken as one, where nlohmann::json would print a number that is not finite as
-- null), the sockets of netlink and ethtool (their calls are parameters), the systemd protocol, and
-- the parts that the manifest lists with their reasons.
pub mod Prelude
pub mod Types
pub mod Config
pub mod Aggregator
pub mod Probe
pub mod HealthManager
pub mod Daemon
pub mod Examples
pub mod Journal
pub mod Storage
pub mod Json
pub mod Network
pub mod Log
pub mod Main

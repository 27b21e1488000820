-- ===== src/Storage.antt =====
-- src/atomic_file.cpp and src/writer.cpp: how the snapshot and the state files reach the disk.
pub mod FileSystem
pub mod Outcome
pub mod AtomicFile
pub mod Writer

-- ===== src/Storage/Writer.antt =====
-- src/writer.cpp and src/inc/writer.hpp: SnapshotWriter::write(). The text of the snapshot is an
-- argument (Serializer has it); creating the directories is an operation of the same state.
pub mod Safe
use edge_healthd.Prelude.{
  ℕ, ◌+◌, Option, none, some, ◌++◌, Str, str, to_string, ◌==◌, if◌then◌else◌,
}
use edge_healthd.Daemon.State.{WriteOutcome, written, write_failed}
use edge_healthd.Storage.FileSystem.{FileSystem}
use edge_healthd.Storage.Outcome.{Program, return, ◌>>=◌, check}
use edge_healthd.Storage.AtomicFile.{AtomicFileResult, atomic_write_file}

pub record WriterError : Type 0 where
  pub message : Str
  pub code : ℕ

abbrev pub WriterResult : Type 0
WriterResult = Option WriterError

-- WriterError::what(), and AtomicFileError::what() which reads the same.
abbrev pub what : Str → ℕ → Str
what message code =
    if code == 0 then message else message ++ str " (errno " ++ to_string code ++ str ")"

-- The error of the file as an error of the writer.
abbrev pub of_file : AtomicFileResult → WriterResult
of_file none = none
of_file (some e) = some (record { message = e.message; code = e.code })

module _ {S : Type 0} (fs : FileSystem S) (create_directories : S → S × Option ℕ) where
  unfoldable pub write_atomic : ℕ → ℕ → Str → Str → Str → Program S WriterResult
  write_atomic fuel pid target parent content =
      atomic_write_file fs fuel pid target parent content >>= λ r. return (of_file r)

  -- ensure_directory(), then the file.
  unfoldable pub write : ℕ → ℕ → Str → Str → Str → Program S WriterResult
  unfolding write_atomic
  write fuel pid target parent content =
      check create_directories
        (λ e.
          return
            (some (record { message = str "Failed to create directory: " ++ parent; code = e })))
        (write_atomic fuel pid target parent content)

-- What the collection cycle sees of it.
abbrev pub outcome_of : WriterResult → WriteOutcome
outcome_of none = written
outcome_of (some e) = write_failed e.message

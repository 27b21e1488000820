-- ===== src/Storage/AtomicFile.antt =====
-- src/atomic_file.cpp: atomic_write_file() as a program of file operations. Messages are those of the
-- code; the process id is an argument. The loop that writes runs on fuel.
pub mod Crash
pub mod Terminates
use edge_healthd.Prelude.{
  ℕ, zero, suc, Option, none, some, List, [], ◌∷◌, ◌++◌, Str, str, to_string, is_empty, drop,
  length, ◌+◌, if◌then◌else◌,
}
use edge_healthd.Storage.FileSystem.{FileSystem, Wrote, wrote, interrupted, failed}
use edge_healthd.Storage.Outcome.{
  Outcome, looping, Program, operation, return, ◌>>=◌, otherwise, check,
}

pub record AtomicFileError : Type 0 where
  pub message : Str
  pub code : ℕ

-- The result: nothing, or the error.
abbrev pub AtomicFileResult : Type 0
AtomicFileResult = Option AtomicFileError

abbrev pub temp_path_for : Str → ℕ → Str
temp_path_for target pid = target ++ str ".tmp." ++ to_string pid

abbrev pub failure : Str → ℕ → AtomicFileResult
failure message code = some (record { message = message; code = code })

module _ {S : Type 0} (fs : FileSystem S) where
  -- An operation that answers nothing.
  abbrev pub quietly : (S → S) → Program S (Unit {0})
  quietly f = operation (λ s. (f s, tt))

  -- The lambda `fail`: the temporary file is removed; an error of that is ignored.
  abbrev pub fail : Str → ℕ → Program S AtomicFileResult
  fail message code = operation fs.remove_temp >>= λ _. return (failure message code)

  -- `::close(fd); return fail(...)`.
  abbrev pub close_and_fail : Str → ℕ → Program S AtomicFileResult
  close_and_fail message code = operation fs.close_temp >>= λ _. fail message code

  -- What the loop does with the answer of write(), with the bytes that remained.
  abbrev pub continue_writing : (Str → Program S (Option ℕ)) → Str → Wrote → Program S (Option ℕ)
  continue_writing loop rest (wrote n) = loop (drop n rest)
  continue_writing loop rest interrupted = loop rest
  continue_writing loop rest (failed e) = return (some e)

  -- The loop, with the bytes that remain; the result is the error, if there was one.
  unfoldable pub write_loop : ℕ → Str → Program S (Option ℕ)
  write_loop fuel [] = return none
  write_loop zero (c ∷ cs) = λ budget s. looping s
  write_loop (suc fuel) (c ∷ cs) =
      operation (fs.write (c ∷ cs)) >>= continue_writing (write_loop fuel) (c ∷ cs)

  -- After rename(): the directory.
  unfoldable pub sync_dir : Str → Program S AtomicFileResult
  sync_dir parent =
      check fs.open_dir
        (λ e. return (failure (str "open(" ++ parent ++ str ") for dir fsync failed") e))
        (check fs.fsync_dir
          (λ e. quietly fs.close_dir >>= λ _.
            return (failure (str "fsync(" ++ parent ++ str ") failed") e))
          (quietly fs.close_dir >>= λ _. return none))

  -- From fsync() on.
  unfoldable pub finish : Str → Str → Str → Program S AtomicFileResult
  unfolding sync_dir
  finish target parent tmp =
      check fs.fsync_temp (λ e. close_and_fail (str "fsync(" ++ tmp ++ str ") failed") e)
        (check fs.close_temp (λ e. fail (str "close(" ++ tmp ++ str ") failed") e)
          (check fs.rename
            (λ e. fail (str "rename(" ++ tmp ++ str " -> " ++ target ++ str ") failed") e)
            (sync_dir parent)))

  -- What follows the loop.
  abbrev pub written_or_failed : Str → Str → Str → Option ℕ → Program S AtomicFileResult
  written_or_failed target parent tmp e =
      otherwise e (λ code. close_and_fail (str "write(" ++ tmp ++ str ") failed") code)
        (finish target parent tmp)

  -- `parent` is the target's parent path.
  unfoldable pub atomic_write_file : ℕ → ℕ → Str → Str → Str → Program S AtomicFileResult
  unfolding write_loop finish
  atomic_write_file fuel pid target parent content =
      let tmp = temp_path_for target pid in
      let dir = if is_empty parent then str "." else parent in
      check fs.open_temp (λ e. return (failure (str "open(" ++ tmp ++ str ") failed") e))
        (write_loop fuel content >>= written_or_failed target dir tmp)

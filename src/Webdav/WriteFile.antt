-- ===== src/Webdav/WriteFile.antt =====
-- writeFile of internal/webdav/fs.go: newWriteFile, Write and Close, over the local disk and the
-- client. A request that is nil in the context has no write state.
pub mod Opening
pub mod Commits
use idrive_unlimited.Base.{
  Bool, Option, Str, [], codes, false, if◌then◌else◌, length, ltb, negate, none, some, true, ℕ,
  ◌&&◌, ◌+◌, ◌/◌, ◌||◌,
}
use idrive_unlimited.Evs.Errors.{
  Error, Result, err, exist, file_too_large, is, is_directory, join_errors, not_found, ok, sentinel,
  wrap,
}
use idrive_unlimited.Evs.Files.{
  close_file, create_temp, offset_of, open_file, remove_file, seek_end, seek_start, truncate_file,
  write_file,
}
use idrive_unlimited.Evs.Journal.{max_upload_size}
use idrive_unlimited.Evs.Listing.{stat}
use idrive_unlimited.Evs.Monad.{
  Env, M, ask, attempt, guard, on_option, on_result, pure, raise, when, ◌>>=◌, ◌>>◌,
}
use idrive_unlimited.Evs.Transfer.{ask_result, download_to_file}
use idrive_unlimited.Evs.Types.{Node, clock, context_error, on_disk}
use idrive_unlimited.Evs.Upload.{upload_file}
use idrive_unlimited.Webdav.Discard.{or_discard}
use idrive_unlimited.Webdav.Maintenance.{ignoring}
use idrive_unlimited.Webdav.ReadCache.{FileCache, invalidate}
use idrive_unlimited.Webdav.Retention.{retain_upload}
use idrive_unlimited.Webdav.WriteState.{ReadError, WriteState, complete, fail, failure, no_error}

-- os.O_CREATE, os.O_EXCL, os.O_TRUNC and os.O_APPEND of the flags with which a file is opened.
pub record OpenFlags : Type 0 where
  pub creating : Bool
  pub exclusive : Bool
  pub truncating : Bool
  pub appending : Bool

pub record WriteFile : Type 0 where
  pub cache : Option FileCache
  pub remote : Str
  pub temp : Str
  pub commit_on_close : Bool
  pub dirty : Bool

abbrev pub failed_with : Option Error → Result (Unit {0})
failed_with none = ok tt
failed_with (some e) = err e

-- The number of bytes written and the error, with the file and the write state behind it.
abbrev pub Written : Type 0
Written = (ℕ × Option Error) × (WriteFile × Option WriteState)

abbrev pub read_error_of : Option Error → ReadError
read_error_of none = no_error
read_error_of (some e) = failure e

module _ {E : Env} where
  -- What newWriteFile makes of the file that is at the remote path: whether Close is to commit.
  unfoldable pub open_existing : Str → Str → OpenFlags → Node → M E Bool
  open_existing remote temp flags node = do
    or_discard true temp (guard (negate (flags.creating && flags.exclusive)) (sentinel exist))
    or_discard true temp (guard (negate node.is_dir) (sentinel is_directory))
    if flags.truncating then pure true else (do
      or_discard true temp (download_to_file remote temp)
      or_discard false temp (ask_result (ask (on_disk (close_file temp))))
      or_discard false temp (ask_result (ask (on_disk (open_file temp))))
      pure false)

  unfoldable pub open_target : Str → Str → OpenFlags → Result Node → M E Bool
  open_target remote temp flags (ok node) = open_existing remote temp flags node
  open_target remote temp flags (err e) = do
    or_discard true temp (guard (is e not_found && flags.creating) e)
    pure true

  unfoldable pub position : Str → OpenFlags → M E (Unit {0})
  position temp flags = do
    when flags.truncating (do
      or_discard true temp (ask_result (ask (on_disk (truncate_file temp))))
      or_discard true temp (ask_result (ask (on_disk (seek_start temp)))))
    or_discard true temp (
        if flags.appending
        then ask_result (ask (on_disk (seek_end temp)))
        else ask_result (ask (on_disk (seek_start temp))))

  unfoldable pub open_temp : Str → OpenFlags → Str → M E WriteFile
  open_temp remote flags temp = do
    target ← attempt (stat remote)
    commit ← open_target remote temp flags target
    position temp flags
    pure (record {
      cache = none;
      remote = remote;
      temp = temp;
      commit_on_close = commit;
      dirty = false;
    })

  unfoldable pub new_write_file : Str → OpenFlags → M E WriteFile
  new_write_file remote flags = do
    temp ← ask_result (ask (on_disk (create_temp [] (codes "idrive-gateway-write-*"))))
    open_temp remote flags temp

  unfoldable pub write_within : WriteFile → Option WriteState → Str → M E Written
  write_within f state bytes = do
    r ← ask (on_disk (write_file f.temp bytes))
    pure (r, (if ltb 0 r.0 then record f { dirty = true } else f, fail state (read_error_of r.1)))

  -- Write; `fail` of the write state ignores io.EOF, which a local write does not report.
  unfoldable pub write : WriteFile → Option WriteState → Str → M E Written
  write f state bytes = do
    offset ← attempt (ask_result (ask (on_disk (offset_of f.temp))))
    on_result offset
        (λ n.
          if ltb max_upload_size (n + length bytes)
          then pure (
            (0, some (sentinel file_too_large)),
            (f, fail state (failure (sentinel file_too_large))),
          )
          else write_within f state bytes)
        (λ e. pure ((0, some e), (f, state)))

  -- A failed commit: the bytes are retained, and the temporary file is removed where they are.
  unfoldable pub retain_failed : WriteFile → Error → M E (Unit {0})
  retain_failed f cause = do
    saved ← retain_upload f.temp f.remote cause
    on_result saved.1 (λ _. ignoring (remove_file f.temp)) (λ _. pure tt)
    raise (wrap "local recovery copy" cause)

  unfoldable pub commit : WriteFile → M E (Unit {0})
  commit f = do
    saved ← attempt (do
      on_option f.cache (pure tt) (λ c. invalidate c f.remote)
      now ← ask clock
      upload_file f.temp f.remote (now / 1000000))
    on_result saved (λ _. ask_result (ask (on_disk (remove_file f.temp)))) (retain_failed f)

  -- Close of a file with something to commit.
  unfoldable pub close_changed : WriteFile → Option WriteState → M E (Unit {0})
  close_changed f state = do
    ended ← ask context_error
    on_result (join_errors (failed_with ended) (complete state)) (λ _. commit f)
        (λ e. do ignoring (remove_file f.temp); raise e)

  unfoldable pub close : WriteFile → Option WriteState → M E (Unit {0})
  close f state = do
    closed ← ask (on_disk (close_file f.temp))
    on_result closed
        (λ _.
          if f.dirty || f.commit_on_close
          then close_changed f state
          else ignoring (remove_file f.temp))
        (λ e. do ignoring (remove_file f.temp); raise e)

-- ===== src/Webdav/Retention.antt =====
-- recoveryDir and retainUpload of internal/webdav/maintenance.go. recoveryMu is held throughout.
pub mod Asks
use idrive_unlimited.Base.{
  Bool, Str, [], codes, false, if◌then◌else◌, is_empty, length, ltb, true, ℕ, ◌++◌, ◌+◌, ◌-◌,
}
use idrive_unlimited.Evs.Errors.{Error, Result, err, message, ok}
use idrive_unlimited.Evs.Files.{
  close_file, copy_file, create_temp, env_value, make_dirs, marshal_retained, open_file,
  remove_file, stat_file, sync_file, temp_dir, user_cache_dir, write_atomic,
}
use idrive_unlimited.Evs.Monad.{Env, M, ask, attempt, on_result, pure, when, ◌>>=◌, ◌>>◌}
use idrive_unlimited.Evs.Types.{on_disk}
use idrive_unlimited.Path.{path_join}
use idrive_unlimited.Webdav.Maintenance.{
  configured_bytes, ignoring, json_ext, prune_files, retention_age,
}

-- Where the bytes of a failed upload are, and whether retaining them succeeded.
abbrev pub Retained : Type 0
Retained = Str × Result (Unit {0})

module _ {E : Env} where
  unfoldable pub default_recovery_dir : Result Str → M E Str
  default_recovery_dir (ok base) =
      pure (path_join (path_join base (codes "idrive-gateway")) (codes "recovery"))
  default_recovery_dir (err e) = do
    base ← ask (on_disk temp_dir)
    pure (path_join base (codes "idrive-gateway-recovery"))

  unfoldable pub recovery_dir : M E Str
  recovery_dir = do
    explicit ← ask (on_disk (env_value (codes "IDRIVE_GATEWAY_RECOVERY_DIR")))
    if is_empty explicit
        then (do base ← ask (on_disk user_cache_dir); default_recovery_dir base)
        else pure (path_join explicit (codes "idrive-gateway-recovery"))

  -- A call whose failure leaves the bytes where they are.
  unfoldable pub step_or : {A : Type 0} → Str → M E (Result A) → (A → M E Retained) → M E Retained
  step_or at m f = do r ← m; on_result r f (λ e. pure (at, err e))

  -- A step on the copy, which is removed where the step fails; `open_still` says that the copy is
  -- closed before.
  unfoldable pub step_on_copy :
      Bool → Str → Str → M E (Result (Unit {0})) → M E Retained → M E Retained
  step_on_copy open_still local dest m rest = do
    r ← m
    on_result r (λ _. rest)
        λ e. do
          when open_still (ignoring (close_file dest))
          ignoring (remove_file dest)
          pure (local, err e)

  -- retainUpload from the open source on.
  unfoldable pub copy_retained : Str → Str → Str → M E Retained
  copy_retained local top meta =
      step_or local (ask (on_disk (create_temp top (codes "upload-*.bin")))) λ dest.
        step_on_copy true local dest (ask (on_disk (copy_file local dest))) (
          step_on_copy true local dest (ask (on_disk (sync_file dest))) (
            step_on_copy false local dest (ask (on_disk (close_file dest))) (
              step_or dest (ask (on_disk (close_file local))) λ _.
                step_or dest (ask (on_disk (write_atomic (dest ++ json_ext) meta)))
                  λ _. pure (dest, ok tt))))

  unfoldable pub retain_within : Str → Str → Str → ℕ → ℕ → M E Retained
  retain_within local top meta size budget =
      if ltb budget (size + length meta)
      then pure
          (local, err (message "upload exceeds recovery budget; original staging file retained"))
      else step_or local
          (attempt (prune_files top [] (budget - (size + length meta)) retention_age))
          λ _.
            step_or local (ask (on_disk (open_file local)))
              λ _. do r ← copy_retained local top meta; ignoring (close_file local); pure r

  unfoldable pub retain_upload : Str → Str → Error → M E Retained
  retain_upload local remote cause = do
    top ← recovery_dir
    step_or local (ask (on_disk (make_dirs top))) λ _.
        step_or local (ask (on_disk (stat_file local))) λ info. do
          budget ← configured_bytes (codes "IDRIVE_GATEWAY_RECOVERY_MAX_BYTES")
          step_or local (ask (on_disk (marshal_retained remote cause)))
              λ meta. retain_within local top meta info.size budget

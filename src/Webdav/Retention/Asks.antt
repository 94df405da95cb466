-- ===== src/Webdav/Retention/Asks.antt =====
-- retainUpload of internal/webdav/maintenance.go asks the local disk and the clock alone.
use idrive_unlimited.Base.{Bool, Str, [], is_empty, length, ltb, ℕ, ◌+◌}
use idrive_unlimited.Evs.Errors.{Error, Result, err, ok}
use idrive_unlimited.Evs.Files.{
  FileOp, close_file, copy_file, create_temp, env_value, make_dirs, marshal_retained, open_file,
  remove_file, stat_file, sync_file, temp_dir, user_cache_dir, write_atomic,
}
use idrive_unlimited.Evs.Keeps.{
  Keeps, Keeps-attempt, Keeps-bind, Keeps-if, Keeps-on_result, Keeps-pure, Keeps-when,
}
use idrive_unlimited.Evs.Monad.{Env, M, pure}
use idrive_unlimited.Evs.Types.{Query, UploadRecord, clock, on_disk}
use idrive_unlimited.Webdav.Maintenance.{configured_bytes}
use idrive_unlimited.Webdav.Maintenance.Asks.{Keeps-disk, Keeps-disk_ignoring, Keeps-prune_files}
use idrive_unlimited.Webdav.Retention.{
  Retained, copy_retained, default_recovery_dir, recovery_dir, retain_upload, retain_within,
  step_on_copy, step_or,
}

module _ {E : Env} {P : Query → Type 0} {Q : UploadRecord → Type 0}
    (disk : (op : FileOp) → P (on_disk op)) (tick : P clock) where
  Keeps-step_or :
      {A : Type 0} (at : Str) (m : M E (Result A)) (f : A → M E Retained)
      → Keeps P Q m
      → ((a : A) → Keeps P Q (f a))
      → Keeps P Q (step_or at m f)
  unfolding step_or
  Keeps-step_or at m f k l = Keeps-bind _ _ k λ r. Keeps-on_result _ _ _ l λ e. Keeps-pure _

  Keeps-step_on_copy :
      (b : Bool) (local dest : Str) (m : M E (Result (Unit {0}))) (rest : M E Retained)
      → Keeps P Q m
      → Keeps P Q rest
      → Keeps P Q (step_on_copy b local dest m rest)
  unfolding step_on_copy
  Keeps-step_on_copy b local dest m rest k l = Keeps-bind _ _ k λ r.
      Keeps-on_result _ _ _ (λ _. l)
        λ e.
          Keeps-bind _ _ (Keeps-when _ _ λ _. Keeps-disk_ignoring disk (close_file dest))
            λ _. Keeps-bind _ _ (Keeps-disk_ignoring disk (remove_file dest)) λ _. Keeps-pure _

  Keeps-copy_retained : (local top meta : Str) → Keeps {E = E} P Q (copy_retained local top meta)
  unfolding copy_retained
  Keeps-copy_retained local top meta =
      Keeps-step_or local _ _ (Keeps-disk disk (create_temp top _)) λ dest.
        Keeps-step_on_copy _ _ _ _ _ (Keeps-disk disk (copy_file local dest)) (
          Keeps-step_on_copy _ _ _ _ _ (Keeps-disk disk (sync_file dest)) (
            Keeps-step_on_copy _ _ _ _ _ (Keeps-disk disk (close_file dest)) (
              Keeps-step_or dest _ _ (Keeps-disk disk (close_file local)) λ _.
                Keeps-step_or dest _ _ (Keeps-disk disk (write_atomic _ meta)) λ _. Keeps-pure _)))

  Keeps-retain_within :
      (local top meta : Str) (size budget : ℕ)
      → Keeps {E = E} P Q (retain_within local top meta size budget)
  unfolding retain_within
  Keeps-retain_within local top meta size budget =
      Keeps-if (ltb budget (size + length meta)) (pure _) _ (λ _. Keeps-pure _)
        λ _. Keeps-step_or local _ _ (Keeps-attempt _ (Keeps-prune_files disk tick top [] _ _)) λ _.
          Keeps-step_or local _ _ (Keeps-disk disk (open_file local)) λ _.
            Keeps-bind _ _ (Keeps-copy_retained local top meta)
              λ r. Keeps-bind _ _ (Keeps-disk_ignoring disk (close_file local)) λ _. Keeps-pure r

  Keeps-default_recovery_dir : (r : Result Str) → Keeps {E = E} P Q (default_recovery_dir r)
  unfolding default_recovery_dir
  Keeps-default_recovery_dir (ok base) = Keeps-pure _
  Keeps-default_recovery_dir (err e) =
      Keeps-bind _ _ (Keeps-disk disk temp_dir) λ base. Keeps-pure _

  Keeps-recovery_dir : Keeps {E = E} P Q recovery_dir
  unfolding recovery_dir
  Keeps-recovery_dir = Keeps-bind _ _ (Keeps-disk disk (env_value _)) λ explicit.
      Keeps-if (is_empty explicit) _ (pure _)
        (λ _. Keeps-bind _ _ (Keeps-disk disk user_cache_dir) Keeps-default_recovery_dir)
        λ _. Keeps-pure _

  pub Keeps-retain_upload :
      (local remote : Str) (cause : Error) → Keeps {E = E} P Q (retain_upload local remote cause)
  unfolding retain_upload configured_bytes
  Keeps-retain_upload local remote cause = Keeps-bind _ _ Keeps-recovery_dir λ top.
      Keeps-step_or local _ _ (Keeps-disk disk (make_dirs top)) λ _.
        Keeps-step_or local _ _ (Keeps-disk disk (stat_file local)) λ info.
          Keeps-bind _ _ (Keeps-bind _ _ (Keeps-disk disk (env_value _)) λ raw. Keeps-pure _)
            λ budget.
              Keeps-step_or local _ _ (Keeps-disk disk (marshal_retained remote cause))
                λ meta. Keeps-retain_within local top meta info.size budget

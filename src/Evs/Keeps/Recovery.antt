-- ===== src/Evs/Keeps/Recovery.antt =====
-- recoverUpload keeps an invariant that admits the questions the record allows: to delete the
-- stage name of an upload, to delete the backup of a ready record with an original, and to rename
-- that backup back while the record is not committed.
use idrive_unlimited.Base.{Str, arith, false, inl, inr, is_empty, true, ◌≡◌, ◌⊎◌}
use idrive_unlimited.Evs.Errors.{Error, Result, err, ok}
use idrive_unlimited.Evs.Journal.{
  delete_found, recover_committed, recover_staged, recover_uncommitted, recover_upload,
  restore_original, roll_back, settle_destination,
}
use idrive_unlimited.Evs.Keeps.{
  Keeps, Keeps-attempt, Keeps-bind, Keeps-get_tx, Keeps-guard, Keeps-if, Keeps-lift,
  Keeps-on_result, Keeps-pure, Keeps-raise, Keeps-when, keeps_rules,
}
use idrive_unlimited.Evs.Keeps.Reads.{Keeps-stat_fresh, Keeps-verify_upload, is_harmless}
use idrive_unlimited.Evs.Keeps.Writes.{
  Keeps-delete, Keeps-forget_upload, Keeps-remove_known, Keeps-rename, Keeps-save_upload,
  Keeps-wrapping,
}
use idrive_unlimited.Evs.Monad.{Env}
use idrive_unlimited.Evs.Types.{
  Node, Query, UploadRecord, delete_file, remove_record, rename_file, save_record,
}
use idrive_unlimited.Evs.Upload.{recover_after}
use idrive_unlimited.Path.{clean_path}

-- The questions of the recovery of `r`, each under the state of the record that it needs.
pub record Admits (P : Query → Type 0) (r : UploadRecord) : Type 0 where
  pub delete_stage :
      (r.ready ≡ false) ⊎ (is_empty r.source ≡ true) → P (delete_file (clean_path r.stage))
  pub delete_backup : r.ready ≡ true → r.had_original ≡ true → P (delete_file (clean_path r.backup))
  pub restore :
      r.ready ≡ true
      → r.committed ≡ false
      → r.had_original ≡ true
      → P (rename_file (clean_path r.backup) (clean_path r.dest))
  pub save : P (save_record r)
  pub save_committed : P (save_record (record r { committed = true }))
  pub forget : P (remove_record r.id)

module _ {E : Env} {P : Query → Type 0} {Q : UploadRecord → Type 0}
    (harmless : (q : Query) → is_harmless q ≡ true → P q) where
  Keeps-delete_found :
      (p : Str) (target : Result Node)
      → P (delete_file (clean_path p))
      → Keeps {E = E} P Q (delete_found p target)
  unfolding delete_found
  Keeps-delete_found p (ok node) h = Keeps-delete harmless p h
  Keeps-delete_found p (err e) h = search keeps_rules

  Keeps-recover_staged :
      (r : UploadRecord) → Admits P r → r.ready ≡ false → Keeps {E = E} P Q (recover_staged r)
  unfolding recover_staged
  Keeps-recover_staged r a unready =
      Keeps-bind _ _ (Keeps-attempt _ (Keeps-stat_fresh harmless r.stage)) λ target.
        Keeps-bind _ _ (Keeps-delete_found r.stage target (a.delete_stage (inl unready)))
          λ _. Keeps-bind _ _ (Keeps-forget_upload harmless r a.forget) λ _. Keeps-pure false

  -- `r` may be the record itself or its committed copy.
  Keeps-recover_committed :
      (r : UploadRecord)
      → P (save_record r)
      → (r.had_original ≡ true → P (delete_file (clean_path r.backup)))
      → (is_empty r.source ≡ true → P (delete_file (clean_path r.stage)))
      → P (remove_record r.id)
      → Keeps {E = E} P Q (recover_committed r)
  unfolding recover_committed
  Keeps-recover_committed r save backup stage forget =
      Keeps-bind _ _ (Keeps-save_upload harmless r save) λ _.
        Keeps-bind _ _ (Keeps-when _ _ λ h. Keeps-remove_known harmless r.backup _ _ (backup h))
          λ _.
            Keeps-bind _ _ (Keeps-when _ _ λ h. Keeps-remove_known harmless r.stage _ _ (stage h))
              λ _. Keeps-bind _ _ (Keeps-forget_upload harmless r forget) λ _. Keeps-pure true

  Keeps-restore_original :
      (r : UploadRecord) (target : Result Node)
      → P (rename_file (clean_path r.backup) (clean_path r.dest))
      → Keeps {E = E} P Q (restore_original r target)
  unfolding restore_original
  Keeps-restore_original r (ok node) h = Keeps-pure tt
  Keeps-restore_original r (err e) h =
      Keeps-bind _ _ (Keeps-verify_upload harmless _ _ _)
        λ _. Keeps-rename harmless r.backup r.dest h

  Keeps-settle_destination :
      (r : UploadRecord) (target : Result Node)
      → (r.had_original ≡ true → P (rename_file (clean_path r.backup) (clean_path r.dest)))
      → Keeps {E = E} P Q (settle_destination r target)
  unfolding settle_destination
  Keeps-settle_destination r target h =
      Keeps-if _ _ _
        (λ e.
          Keeps-bind _ _ (Keeps-restore_original r target (h e))
            λ _. Keeps-wrapping harmless _ _ (Keeps-verify_upload harmless _ _ _))
        λ _. Keeps-guard _ _

  Keeps-roll_back :
      (r : UploadRecord)
      → Admits P r
      → r.ready ≡ true
      → r.committed ≡ false
      → Keeps {E = E} P Q (roll_back r)
  unfolding roll_back
  Keeps-roll_back r a ready open_tx =
      Keeps-bind _ _
        (Keeps-when _ _ λ _. Keeps-wrapping harmless _ _ (Keeps-verify_upload harmless _ _ _))
        λ _. Keeps-bind _ _ (Keeps-attempt _ (Keeps-stat_fresh harmless r.dest)) λ target.
          Keeps-bind _ _ (Keeps-lift _) λ _.
            Keeps-bind _ _ (Keeps-settle_destination r target (a.restore ready open_tx)) λ _.
              Keeps-bind _ _
                (Keeps-when _ _
                  λ h. Keeps-remove_known harmless r.stage _ _ (a.delete_stage (inr h)))
                λ _.
                  Keeps-bind _ _
                    (Keeps-when _ _
                      λ h. Keeps-remove_known harmless r.backup _ _ (a.delete_backup ready h))
                    λ _.
                      Keeps-bind _ _ (Keeps-forget_upload harmless r a.forget) λ _. Keeps-pure false

  Keeps-recover_uncommitted :
      (r : UploadRecord)
      → Admits P r
      → r.ready ≡ true
      → r.committed ≡ false
      → Keeps {E = E} P Q (recover_uncommitted r)
  unfolding recover_uncommitted
  Keeps-recover_uncommitted r a ready open_tx =
      Keeps-bind _ _ (Keeps-attempt _ (Keeps-verify_upload harmless _ _ _)) λ arrived.
        Keeps-if _ _ _
          (λ _. Keeps-bind _ _ (Keeps-save_upload harmless _ a.save_committed) λ _.
            Keeps-recover_committed _ a.save_committed (a.delete_backup ready)
              (λ h. a.delete_stage (inr h)) a.forget)
          λ _. Keeps-roll_back r a ready open_tx

  pub Keeps-recover_upload : (r : UploadRecord) → Admits P r → Keeps {E = E} P Q (recover_upload r)
  unfolding recover_upload
  Keeps-recover_upload r a =
      Keeps-if _ _ _ (λ h. Keeps-recover_staged r a (ground arith))
        λ h.
          let ready : r.ready ≡ true = ground arith in
          Keeps-if _ _ _
            (λ done.
              Keeps-recover_committed r a.save (a.delete_backup ready) (λ e. a.delete_stage (inr e))
                a.forget)
            λ open_tx. Keeps-recover_uncommitted r a ready open_tx

  -- The deferred recovery, of a record that `Q` describes.
  pub Keeps-recover_after :
      ((r : UploadRecord) → Q r → Admits P r)
      → (cause : Error) → Keeps {E = E} P Q (recover_after cause)
  unfolding recover_after
  Keeps-recover_after admits cause = Keeps-get_tx _ λ r u.
      Keeps-bind _ _ (Keeps-attempt _ (Keeps-recover_upload r (admits r u)))
        λ recovered. Keeps-on_result _ _ _ (λ c. search keeps_rules) λ e. Keeps-raise _

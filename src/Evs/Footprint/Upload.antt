-- ===== src/Evs/Footprint/Upload.antt =====
-- UploadFile asks for nothing but the mutations of its own transaction.
use idrive_unlimited.Base.{All, Str, ap, false, inl, inr, refl, true, ℕ, ◌∙◌, ◌≡◌}
use idrive_unlimited.Evs.Errors.{Result, err, is_directory, ok, sentinel}
use idrive_unlimited.Evs.Footprint.{IsUploadOf, UploadAllows, backup_name-clean, stage_name-clean}
use idrive_unlimited.Evs.Footprint.Names.{
  IsUploadId, backup_name-IsBeside, random_upload_id-IsUploadId, stage_name-IsBeside,
}
use idrive_unlimited.Evs.Keeps.{
  AnyRecord, Keeps, Keeps-attempt, Keeps-begin, Keeps-bind, Keeps-bind_gives, Keeps-guard, Keeps-if,
  Keeps-lift, Keeps-on_result, Keeps-pure, Keeps-set_tx,
}
use idrive_unlimited.Evs.Keeps.Reads.{
  Keeps-check_context, Keeps-remote_sha256, Keeps-require_writable, Keeps-stat_fresh, is_harmless,
}
use idrive_unlimited.Evs.Keeps.Uploads.{
  AdmitsUpload, Keeps-cleanup_stage, Keeps-finish_upload, Keeps-or_cleanup, Keeps-recover_failed,
  Keeps-stage_upload, with_original-IsUploadOf, with_original_hash-IsUploadOf,
}
use idrive_unlimited.Evs.Keeps.Writes.{
  Keeps-ask_result, Keeps-file_sha256, Keeps-random_upload_id, Keeps-rename, Keeps-save_upload,
  Keeps-wrapping, asks_stat,
}
use idrive_unlimited.Evs.Monad.{Env, M, World}
use idrive_unlimited.Evs.Types.{
  Node, Query, UploadRecord, copy_paste, create_folder, delete_file, move_file, rename_file,
  save_record, upload_close, upload_part, upload_session,
}
use idrive_unlimited.Evs.Upload.{
  cleanup_stage, preserve, preserve_original, upload_file, upload_record, upload_staged,
  with_recovery,
}
use idrive_unlimited.Path.{clean_path, parent_dir, path_base}
use idrive_unlimited.Path.Clean.{clean_path-clean_path}

module _ (dest : Str) (clean : clean_path dest ≡ dest) where
  pub upload_harmless : (q : Query) → is_harmless q ≡ true → UploadAllows dest q
  upload_harmless (create_folder a b) e = cc
  upload_harmless (rename_file a b) e = cc
  upload_harmless (copy_paste a b) e = cc
  upload_harmless (move_file a b) e = cc
  upload_harmless (delete_file a) e = cc
  upload_harmless (upload_session a b) e = cc
  upload_harmless (upload_part a) e = cc
  upload_harmless (upload_close a) e = cc
  upload_harmless (save_record a) e = cc
  upload_harmless _ e = tt

  stage_deletes :
      (r : UploadRecord) → IsUploadOf dest r → UploadAllows dest (delete_file (clean_path r.stage))
  stage_deletes r u = (
    r.id,
    u.named,
    inl (
        stage_name-IsBeside dest r.id _ clean u.named
          (ap clean_path u.staged ∙ stage_name-clean dest r.id)),
  )

  pub backup_deletes :
      (r : UploadRecord) → IsUploadOf dest r → UploadAllows dest (delete_file (clean_path r.backup))
  backup_deletes r u = (
    r.id,
    u.named,
    inr (
        backup_name-IsBeside dest r.id _ clean u.named
          (ap clean_path u.backed ∙ backup_name-clean dest r.id)),
  )

  restores :
      (r : UploadRecord)
      → IsUploadOf dest r
      → UploadAllows dest (rename_file (clean_path r.backup) (clean_path r.dest))
  restores r u = (
    r.id,
    u.named,
    inr (
        inr
          (ap clean_path u.backed ∙ backup_name-clean dest r.id, ap clean_path u.to_dest ∙ clean)),
  )

  promotes :
      (r : UploadRecord)
      → IsUploadOf dest r
      → UploadAllows dest (rename_file (clean_path r.stage) (clean_path r.dest))
  promotes r u = (
    r.id,
    u.named,
    inr (
        inl (ap clean_path u.staged ∙ stage_name-clean dest r.id, ap clean_path u.to_dest ∙ clean)),
  )

  preserves :
      (r : UploadRecord)
      → IsUploadOf dest r
      → UploadAllows dest (rename_file (clean_path r.dest) (clean_path r.backup))
  preserves r u = (
    r.id,
    u.named,
    inl (ap clean_path u.to_dest ∙ clean, ap clean_path u.backed ∙ backup_name-clean dest r.id),
  )

  upload-AdmitsUpload : AdmitsUpload dest (UploadAllows dest)
  upload-AdmitsUpload = record {
    harmless = upload_harmless;
    stage_deletes = stage_deletes;
    backup_deletes = backup_deletes;
    restores = restores;
    promotes = promotes;
    saves = λ r u. u;
    forgets = λ id. tt;
    sends = λ r part u p q. (r.id, u.named, p ∙ ap parent_dir u.staged, q ∙ ap path_base u.staged);
    opens = λ r n u. (r.id, u.named, ap path_base u.staged);
    closes =
        λ r fields u p q. (r.id, u.named, p ∙ ap parent_dir u.staged, q ∙ ap path_base u.staged);
  }

  abbrev KeepsAllowed : {E : Env} {A : Type 0} → M E A → Type 0
  KeepsAllowed m = Keeps (UploadAllows dest) (IsUploadOf dest) m

  module _ {E : Env} (r : UploadRecord) (u : IsUploadOf dest r) where
    Keeps-preserve_original : (node : Node) → KeepsAllowed {E = E} (preserve_original r node)
    unfolding preserve_original
    Keeps-preserve_original node =
        Keeps-bind _ _ (Keeps-set_tx _ (with_original-IsUploadOf r node u)) λ _.
          Keeps-bind _ _
            (Keeps-or_cleanup upload-AdmitsUpload r _ u (Keeps-remote_sha256 upload_harmless _ _))
            λ hash.
              Keeps-bind _ _ (Keeps-set_tx _ (with_original_hash-IsUploadOf r node hash u)) λ _.
                Keeps-bind _ _
                  (Keeps-save_upload upload_harmless _
                    (with_original_hash-IsUploadOf r node hash u))
                  λ _.
                    Keeps-bind _ _
                      (Keeps-wrapping upload_harmless _ _
                        (Keeps-rename upload_harmless r.dest r.backup (preserves r u)))
                      λ _. Keeps-pure true

    Keeps-preserve : (target : Result Node) → KeepsAllowed {E = E} (preserve r target)
    unfolding preserve
    Keeps-preserve (err e) =
        Keeps-if _ _ _ (λ _. Keeps-pure false) λ _. Keeps-cleanup_stage upload-AdmitsUpload r e u
    Keeps-preserve (ok node) =
        Keeps-if node.is_dir (cleanup_stage r.stage (sentinel is_directory))
          (preserve_original r node)
          (λ _. Keeps-cleanup_stage upload-AdmitsUpload r (sentinel is_directory) u)
          λ _. Keeps-preserve_original node

    Keeps-upload_staged :
        (local : Str) (size : ℕ) (hash : Str) (t : ℕ)
        → KeepsAllowed {E = E} (upload_staged local r size hash t)
    unfolding upload_staged
    Keeps-upload_staged local size hash t =
        Keeps-bind _ _ (Keeps-stage_upload upload-AdmitsUpload local r size hash t u) λ _.
          Keeps-bind _ _ (Keeps-attempt _ (Keeps-stat_fresh upload_harmless r.dest)) λ target.
            Keeps-bind _ _ (Keeps-preserve target)
              λ preserved. Keeps-finish_upload upload-AdmitsUpload r preserved size hash u

  Keeps-with_recovery :
      {E : Env} (m : M E (Unit {0})) → KeepsAllowed m → KeepsAllowed (with_recovery m)
  unfolding with_recovery
  Keeps-with_recovery m k =
      Keeps-bind _ _ (Keeps-attempt m k)
        λ result. Keeps-on_result _ _ _ Keeps-pure (Keeps-recover_failed upload-AdmitsUpload)

pub upload_record-IsUploadOf :
    (dest id : Str) (size : ℕ) (hash : Str)
    → IsUploadId id
    → IsUploadOf dest (upload_record dest id size hash)
unfolding upload_record
upload_record-IsUploadOf dest id size hash n = record {
  named = n;
  no_source = refl;
  to_dest = refl;
  staged = refl;
  backed = refl;
}

module _ {E : Env} where
  pub Keeps-upload_file :
      (local remote : Str) (t : ℕ)
      → Keeps {E = E} (UploadAllows (clean_path remote)) AnyRecord (upload_file local remote t)
  unfolding upload_file
  Keeps-upload_file local remote t = Keeps-bind _ _ (Keeps-lift _) λ _.
      Keeps-bind _ _ (Keeps-require_writable safe dest) λ _.
        Keeps-bind _ _ (Keeps-ask_result safe _ (asks_stat safe local)) λ info.
          Keeps-bind _ _ (Keeps-guard _ _) λ _. Keeps-bind _ _ (Keeps-guard _ _) λ _.
            Keeps-bind _ _ (Keeps-guard _ _) λ _. Keeps-bind _ _ (Keeps-check_context safe) λ _.
              Keeps-bind _ _ (Keeps-attempt _ (Keeps-stat_fresh safe dest)) λ target.
                Keeps-bind _ _ (Keeps-lift _) λ _.
                  Keeps-bind _ _ (Keeps-file_sha256 safe local) λ hash.
                    Keeps-bind_gives IsUploadId _ _ (Keeps-random_upload_id safe)
                      random_upload_id-IsUploadId
                      λ id n.
                        let u = upload_record-IsUploadOf dest id info.size hash n in
                        Keeps-begin _ _ u (
                          Keeps-bind _ _ (Keeps-save_upload safe _ u) λ _.
                            Keeps-with_recovery dest clean _
                              (Keeps-upload_staged dest clean _ u local _ hash t))
    where
      dest : Str
      dest = clean_path remote

      clean : clean_path dest ≡ dest
      clean = clean_path-clean_path remote

      safe : (q : Query) → is_harmless q ≡ true → UploadAllows dest q
      safe = upload_harmless dest clean

  -- Whatever the service, the disk and the clock answer, and wherever the upload fails, every
  -- question asked by UploadFile and by its deferred recovery is one that `UploadAllows` lists for
  -- the cleaned destination, if this held of the questions asked before: files are deleted
  -- in the folder of the destination alone, under names made of a recovery prefix, an id of
  -- randomUploadID and the extension of the destination, renamed between the destination and
  -- recovery names with such an id alone, uploaded under stage names with such an id alone, and
  -- every record saved has those paths.
  pub upload_file-footprint :
      (local remote : Str) (mod_time : ℕ) (w : World E)
      → All (UploadAllows (clean_path remote)) w.trace
      → All (UploadAllows (clean_path remote)) (upload_file local remote mod_time w).1.trace
  upload_file-footprint local remote t w h = ((Keeps-upload_file local remote t).at w h tt).0

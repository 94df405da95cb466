-- ===== src/Evs/Keeps/Uploads.antt =====
-- The steps of UploadFile other than the rename of the original keep an invariant that admits the
-- questions of an upload.
use idrive_unlimited.Base.{
  Bool, Str, [], arith, false, if◌then◌else◌, is_empty, leb, negate, true, ℕ, ◌&&◌, ◌≡◌,
}
use idrive_unlimited.Evs.Errors.{Error, Result, err, is, not_found, ok, wrap}
use idrive_unlimited.Evs.Footprint.{IsUploadOf}
use idrive_unlimited.Evs.Keeps.{
  Keeps, Keeps-attempt, Keeps-bind, Keeps-get_journaling, Keeps-get_tx, Keeps-if, Keeps-on_result,
  Keeps-pure, Keeps-raise, Keeps-set_tx, Keeps-when, keeps_rules,
}
use idrive_unlimited.Evs.Keeps.Reads.{
  Keeps-invalidate_paths, Keeps-stat_fresh, Keeps-verify_upload, is_harmless,
}
use idrive_unlimited.Evs.Keeps.Recovery.{Admits, Keeps-recover_after}
use idrive_unlimited.Evs.Keeps.Writes.{
  Keeps-delete, Keeps-forget_upload, Keeps-remove_known, Keeps-rename, Keeps-save_upload,
  Keeps-upload_chunked, Keeps-upload_small, Keeps-wrapping,
}
use idrive_unlimited.Evs.Monad.{Env, M, raise}
use idrive_unlimited.Evs.Transfer.{chunk_enable_file_size, upload_chunked, upload_small}
use idrive_unlimited.Evs.Types.{
  Node, Query, UploadClose, UploadPart, UploadRecord, delete_file, remove_record, rename_file,
  save_record, upload_close, upload_part, upload_session,
}
use idrive_unlimited.Evs.Upload.{
  cleanup_found, cleanup_stage, finish_upload, mark_committed, mark_ready, or_cleanup, promote,
  recover_after, recover_failed, recover_replacement, remove_backup, restore_backup,
  roll_back_upload, stage_upload,
}
use idrive_unlimited.Path.{clean_path, parent_dir, path_base}

-- What an invariant of the uploads to `dest` admits: the questions of such an upload except the
-- rename of the original to its recovery name.
pub record AdmitsUpload (dest : Str) (P : Query → Type 0) : Type 0 where
  pub harmless : (q : Query) → is_harmless q ≡ true → P q
  pub stage_deletes : (r : UploadRecord) → IsUploadOf dest r → P (delete_file (clean_path r.stage))
  pub backup_deletes :
      (r : UploadRecord) → IsUploadOf dest r → P (delete_file (clean_path r.backup))
  pub restores :
      (r : UploadRecord)
      → IsUploadOf dest r
      → P (rename_file (clean_path r.backup) (clean_path r.dest))
  pub promotes :
      (r : UploadRecord)
      → IsUploadOf dest r
      → P (rename_file (clean_path r.stage) (clean_path r.dest))
  pub saves : (r : UploadRecord) → IsUploadOf dest r → P (save_record r)
  pub forgets : (id : Str) → P (remove_record id)
  pub sends :
      (r : UploadRecord) (part : UploadPart)
      → IsUploadOf dest r
      → part.parent ≡ parent_dir r.stage
      → part.file_name ≡ path_base r.stage
      → P (upload_part part)
  pub opens :
      (r : UploadRecord) (n : ℕ) → IsUploadOf dest r → P (upload_session (path_base r.stage) n)
  pub closes :
      (r : UploadRecord) (fields : UploadClose)
      → IsUploadOf dest r
      → fields.parent ≡ parent_dir r.stage
      → fields.file_name ≡ path_base r.stage
      → P (upload_close fields)

pub committed-IsUploadOf :
    {dest : Str} (r : UploadRecord)
    → IsUploadOf dest r
    → IsUploadOf dest (record r { committed = true })
committed-IsUploadOf r u = record {
  named = u.named;
  no_source = u.no_source;
  to_dest = u.to_dest;
  staged = u.staged;
  backed = u.backed;
}

pub ready-IsUploadOf :
    {dest : Str} (r : UploadRecord)
    → IsUploadOf dest r
    → IsUploadOf dest (record r { ready = true })
ready-IsUploadOf r u = record {
  named = u.named;
  no_source = u.no_source;
  to_dest = u.to_dest;
  staged = u.staged;
  backed = u.backed;
}

-- The record of an upload that found an original, and once it knows the original's hash.
abbrev pub with_original : UploadRecord → Node → UploadRecord
with_original r node = record r { had_original = true; original_size = node.size }

abbrev pub with_original_hash : UploadRecord → Node → Str → UploadRecord
with_original_hash r node hash = record (with_original r node) {
  original_hash = hash;
  ready = true;
}

pub with_original-IsUploadOf :
    {dest : Str} (r : UploadRecord) (node : Node)
    → IsUploadOf dest r
    → IsUploadOf dest (with_original r node)
with_original-IsUploadOf r node u = record {
  named = u.named;
  no_source = u.no_source;
  to_dest = u.to_dest;
  staged = u.staged;
  backed = u.backed;
}

pub with_original_hash-IsUploadOf :
    {dest : Str} (r : UploadRecord) (node : Node) (hash : Str)
    → IsUploadOf dest r
    → IsUploadOf dest (with_original_hash r node hash)
with_original_hash-IsUploadOf r node hash u = record {
  named = u.named;
  no_source = u.no_source;
  to_dest = u.to_dest;
  staged = u.staged;
  backed = u.backed;
}

module _ {dest : Str} {P : Query → Type 0} (admits : AdmitsUpload dest P) where
  abbrev pub KeepsUpload : {E : Env} {A : Type 0} → M E A → Type 0
  KeepsUpload m = Keeps P (IsUploadOf dest) m

  pub upload-Admits : (r : UploadRecord) → IsUploadOf dest r → Admits P r
  upload-Admits r u = record {
    delete_stage = λ _. admits.stage_deletes r u;
    delete_backup = λ _ _. admits.backup_deletes r u;
    restore = λ _ _ _. admits.restores r u;
    save = admits.saves r u;
    save_committed = admits.saves _ (committed-IsUploadOf r u);
    forget = admits.forgets r.id;
  }

  module _ {E : Env} {A : Type 0} where
    Keeps-cleanup_found :
        (r : UploadRecord) (cause : Error) (target : Result Node)
        → IsUploadOf dest r
        → KeepsUpload (cleanup_found {E = E} {A = A} r.stage cause target)
    unfolding cleanup_found
    Keeps-cleanup_found r cause (err e) u = search keeps_rules
    Keeps-cleanup_found r cause (ok node) u =
        Keeps-bind _ _
          (Keeps-attempt _ (Keeps-delete admits.harmless r.stage (admits.stage_deletes r u)))
          λ deleted. search keeps_rules

    pub Keeps-cleanup_stage :
        (r : UploadRecord) (cause : Error)
        → IsUploadOf dest r
        → KeepsUpload (cleanup_stage {E = E} {A = A} r.stage cause)
    unfolding cleanup_stage
    Keeps-cleanup_stage r cause u =
        Keeps-bind _ _ (Keeps-attempt _ (Keeps-stat_fresh admits.harmless r.stage))
          λ target. Keeps-cleanup_found r cause target u

    pub Keeps-or_cleanup :
        (r : UploadRecord) (m : M E A)
        → IsUploadOf dest r
        → KeepsUpload m
        → KeepsUpload (or_cleanup r.stage m)
    unfolding or_cleanup
    Keeps-or_cleanup r m u k =
        Keeps-bind _ _ (Keeps-attempt m k)
          λ result. Keeps-on_result _ _ _ Keeps-pure λ e. Keeps-cleanup_stage r e u

  module _ {E : Env} (r : UploadRecord) (u : IsUploadOf dest r) where
    Keeps-restore_backup :
        (cause : Error) → KeepsUpload {E = E} (restore_backup r.dest r.stage r.backup cause)
    unfolding restore_backup
    Keeps-restore_backup cause =
        Keeps-bind _ _
          (Keeps-attempt _ (Keeps-rename admits.harmless r.backup r.dest (admits.restores r u)))
          λ renamed. Keeps-on_result _ _ _ (λ _. Keeps-cleanup_stage r _ u) λ _. Keeps-raise _

    Keeps-roll_back_upload :
        (preserved : Bool) (cause : Error) (target : Result Node)
        → KeepsUpload {E = E}
            (roll_back_upload r.dest r.stage (if preserved then r.backup else []) cause target)
    unfolding roll_back_upload is_empty
    Keeps-roll_back_upload preserved cause (ok node) = Keeps-raise _
    Keeps-roll_back_upload true cause (err e) = search (keeps_rules, Keeps-restore_backup)
    Keeps-roll_back_upload false cause (err e) =
        Keeps-if (is e not_found && negate (is_empty [])) _
          (raise (wrap "replacement failed" cause)) (λ full. ground arith) λ _. Keeps-raise _

    pub Keeps-promote :
        (preserved : Bool) (size : ℕ) (hash : Str)
        → KeepsUpload {E = E} (promote r (if preserved then r.backup else []) size hash)
    unfolding promote recover_replacement
    Keeps-promote preserved size hash =
        Keeps-bind _ _
          (Keeps-attempt _ (Keeps-rename admits.harmless r.stage r.dest (admits.promotes r u)))
          λ renamed.
            Keeps-on_result _ _ _
              (λ _. Keeps-wrapping admits.harmless _ _ (Keeps-verify_upload admits.harmless _ _ _))
              λ cause.
                Keeps-bind _ _ (Keeps-attempt _ (Keeps-verify_upload admits.harmless _ _ _))
                  λ arrived.
                    Keeps-on_result _ _ _ (λ _. Keeps-raise _)
                      λ _.
                        Keeps-bind _ _ (Keeps-attempt _ (Keeps-stat_fresh admits.harmless r.dest))
                          λ target. Keeps-roll_back_upload preserved cause target

  module _ {E : Env} where
    Keeps-mark_ready : KeepsUpload {E = E} mark_ready
    unfolding mark_ready
    Keeps-mark_ready = Keeps-get_tx _ λ r u.
        Keeps-if _ _ _ (λ _. Keeps-pure tt)
          λ _.
            Keeps-bind _ _ (Keeps-set_tx _ (ready-IsUploadOf r u))
              λ _. Keeps-save_upload admits.harmless _ (admits.saves _ (ready-IsUploadOf r u))

    Keeps-mark_committed : KeepsUpload {E = E} mark_committed
    unfolding mark_committed
    Keeps-mark_committed = Keeps-get_tx _ λ r u.
        Keeps-bind _ _ (Keeps-set_tx _ (committed-IsUploadOf r u))
          λ _. Keeps-save_upload admits.harmless _ (admits.saves _ (committed-IsUploadOf r u))

    Keeps-remove_backup : (preserved : Bool) → KeepsUpload {E = E} (remove_backup preserved)
    unfolding remove_backup
    Keeps-remove_backup preserved = Keeps-when _ _ λ _. Keeps-get_tx _ λ r u.
        Keeps-wrapping admits.harmless _ _
          (Keeps-remove_known admits.harmless r.backup _ _ (admits.backup_deletes r u))

    Keeps-upload_parts :
        (local : Str) (r : UploadRecord) (size t : ℕ)
        → IsUploadOf dest r
        → KeepsUpload {E = E} (
            if leb chunk_enable_file_size size
            then upload_chunked local r.stage t
            else upload_small local r.stage t)
    Keeps-upload_parts local r size t u =
        Keeps-if _ _ _
          (λ _.
            Keeps-upload_chunked admits.harmless local r.stage t
              (λ part p q. admits.sends r part u p q) (λ n. admits.opens r n u)
              λ fields p q. admits.closes r fields u p q)
          λ _.
            Keeps-upload_small admits.harmless local r.stage t λ part p q. admits.sends r part u p q

    pub Keeps-stage_upload :
        (local : Str) (r : UploadRecord) (size : ℕ) (hash : Str) (t : ℕ)
        → IsUploadOf dest r
        → KeepsUpload {E = E} (stage_upload local r size hash t)
    unfolding stage_upload
    Keeps-stage_upload local r size hash t u =
        Keeps-bind _ _ (Keeps-or_cleanup r _ u (Keeps-upload_parts local r size t u)) λ _.
          Keeps-bind _ _ (Keeps-invalidate_paths admits.harmless _)
            λ _. Keeps-or_cleanup r _ u (Keeps-verify_upload admits.harmless _ _ _)

    pub Keeps-finish_upload :
        (r : UploadRecord) (preserved : Bool) (size : ℕ) (hash : Str)
        → IsUploadOf dest r
        → KeepsUpload {E = E} (finish_upload r preserved size hash)
    unfolding finish_upload
    Keeps-finish_upload r preserved size hash u = Keeps-bind _ _ Keeps-mark_ready λ _.
        Keeps-bind _ _ (Keeps-promote r u preserved size hash) λ _.
          Keeps-bind _ _ Keeps-mark_committed λ _.
            Keeps-bind _ _ (Keeps-remove_backup preserved) λ _.
              Keeps-bind _ _ (Keeps-invalidate_paths admits.harmless _) λ _.
                Keeps-get_tx _ λ last_tx v.
                  Keeps-forget_upload admits.harmless last_tx (admits.forgets last_tx.id)

    pub Keeps-recover_failed : (cause : Error) → KeepsUpload {E = E} (recover_failed cause)
    unfolding recover_failed
    Keeps-recover_failed cause = Keeps-bind _ _ Keeps-get_journaling λ journaling.
        Keeps-if journaling (recover_after cause) (raise cause)
          (λ _. Keeps-recover_after admits.harmless upload-Admits cause) λ _. Keeps-raise cause

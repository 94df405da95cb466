-- ===== src/Evs/Ahead/Upload.antt =====
-- UploadFile writes its journal ahead.
use idrive_unlimited.Base.{Str, String, ap, false, inr, refl, sym, true, ℕ, ◌∙◌, ◌≡◌}
use idrive_unlimited.Evs.Ahead.{
  Acknowledged, Covered, Kept-Covered, Leads-Plain, Leads-save_upload, Plain, Plain-Covered,
  WriteAhead, is_harmless-Kept, is_harmless-Plain,
}
use idrive_unlimited.Evs.Errors.{Result, err, is_directory, ok, sentinel}
use idrive_unlimited.Evs.Footprint.{IsUploadOf, backup_name-clean}
use idrive_unlimited.Evs.Footprint.Names.{IsUploadId, random_upload_id-IsUploadId}
use idrive_unlimited.Evs.Footprint.Upload.{upload_record-IsUploadOf}
use idrive_unlimited.Evs.Journal.{wrapping}
use idrive_unlimited.Evs.Keeps.{
  AnyRecord, Keeps, Keeps-attempt, Keeps-guard, Keeps-if, Keeps-lift, Keeps-on_result, Keeps-pure,
  Keeps-set_tx,
}
use idrive_unlimited.Evs.Keeps.Reads.{
  Keeps-check_context, Keeps-remote_sha256, Keeps-require_writable, Keeps-stat_fresh, is_harmless,
}
use idrive_unlimited.Evs.Keeps.Uploads.{
  AdmitsUpload, Keeps-cleanup_stage, Keeps-finish_upload, Keeps-or_cleanup, Keeps-recover_failed,
  Keeps-stage_upload, with_original-IsUploadOf, with_original_hash, with_original_hash-IsUploadOf,
}
use idrive_unlimited.Evs.Keeps.Writes.{
  Keeps-ask_result, Keeps-file_sha256, Keeps-random_upload_id, Keeps-rename, Keeps-save_upload,
  Keeps-wrapping, asks_stat,
}
use idrive_unlimited.Evs.Leads.{
  AnyEvents, Leads, Leads-Keeps, Leads-attempt, Leads-begin, Leads-bind, Leads-bind_gives, Leads-if,
  Leads-pure, Sound,
}
use idrive_unlimited.Evs.Monad.{Env, M, World}
use idrive_unlimited.Evs.Mutations.{rename}
use idrive_unlimited.Evs.Types.{Node, Query, UploadRecord}
use idrive_unlimited.Evs.Upload.{
  preserve, preserve_original, upload_file, upload_staged, with_recovery,
}
use idrive_unlimited.Path.{clean_path}
use idrive_unlimited.Path.Clean.{clean_path-clean_path}

module _ (dest : Str) (clean : clean_path dest ≡ dest) where
  back_to_dest : (r : UploadRecord) → IsUploadOf dest r → clean_path r.dest ≡ dest
  back_to_dest r u = ap clean_path u.to_dest ∙ clean

  Plain-AdmitsUpload : AdmitsUpload dest (Plain dest)
  Plain-AdmitsUpload = record {
    harmless = is_harmless-Plain dest;
    stage_deletes = λ r u. tt;
    backup_deletes = λ r u. tt;
    restores = back_to_dest;
    promotes = back_to_dest;
    saves = λ r u. tt;
    forgets = λ id. tt;
    sends = λ r part u p q. tt;
    opens = λ r n u. tt;
    closes = λ r fields u p q. tt;
  }

  abbrev LeadsOn : {E : Env} {A : Type 0} → M E A → Type 0
  LeadsOn m = Leads (Covered dest) true (IsUploadOf dest) AnyEvents m λ _. AnyEvents

  -- An action that asks plain questions alone.
  Keeps-Leads :
      {E : Env} {A : Type 0} (m : M E A) → Keeps (Plain dest) (IsUploadOf dest) m → LeadsOn m
  Keeps-Leads m k = Leads-Keeps (Plain-Covered dest) m k

  module _ {E : Env} (r : UploadRecord) (u : IsUploadOf dest r) where
    -- The rename of the original, once the record that knows of it is acknowledged.
    Leads-hide :
        (node : Node) (hash : Str) (text : String)
        → Leads {E = E}
            (Covered dest)
            true
            (IsUploadOf dest)
            (Acknowledged (with_original_hash r node hash))
            (wrapping text (rename r.dest r.backup))
            λ _. Acknowledged (with_original_hash r node hash)
    Leads-hide node hash text =
        Leads-Keeps (Kept-Covered dest (with_original_hash r node hash) refl refl) _ (
          Keeps-wrapping (is_harmless-Kept dest (with_original_hash r node hash)) _ _ (
            Keeps-rename (is_harmless-Kept dest (with_original_hash r node hash)) r.dest r.backup (
              inr (
                sym (ap clean_path u.to_dest ∙ clean ∙ sym u.to_dest),
                sym (ap clean_path u.backed ∙ backup_name-clean dest r.id ∙ sym u.backed),
              ))))

    Leads-preserve_original : (node : Node) → LeadsOn {E = E} (preserve_original r node)
    unfolding preserve_original
    Leads-preserve_original node =
        Leads-bind _ _ (Keeps-Leads _ (Keeps-set_tx _ (with_original-IsUploadOf r node u))) λ _.
          Leads-bind _ _
            (Keeps-Leads _ (
              Keeps-or_cleanup Plain-AdmitsUpload r _ u
                (Keeps-remote_sha256 (is_harmless-Plain dest) _ _)))
            λ hash.
              Leads-bind _ _
                (Keeps-Leads _ (Keeps-set_tx _ (with_original_hash-IsUploadOf r node hash u)))
                λ _.
                  Leads-bind _ _ (Leads-save_upload (with_original_hash r node hash))
                    λ _. Leads-bind _ _ (Leads-hide node hash _) λ _. Leads-pure true

    Leads-preserve : (target : Result Node) → LeadsOn {E = E} (preserve r target)
    unfolding preserve
    Leads-preserve (err e) =
        Keeps-Leads _
          (Keeps-if _ _ _ (λ _. Keeps-pure false) λ _. Keeps-cleanup_stage Plain-AdmitsUpload r e u)
    Leads-preserve (ok node) =
        Leads-if node.is_dir _ _
          (Keeps-Leads _ (Keeps-cleanup_stage Plain-AdmitsUpload r (sentinel is_directory) u))
          (Leads-preserve_original node)

    Leads-upload_staged :
        (local : Str) (size : ℕ) (hash : Str) (t : ℕ)
        → LeadsOn {E = E} (upload_staged local r size hash t)
    unfolding upload_staged
    Leads-upload_staged local size hash t =
        Leads-bind _ _ (Keeps-Leads _ (Keeps-stage_upload Plain-AdmitsUpload local r size hash t u))
          λ _.
            Leads-bind _ _
              (Keeps-Leads _ (Keeps-attempt _ (Keeps-stat_fresh (is_harmless-Plain dest) r.dest)))
              λ target. Leads-bind _ _ (Leads-preserve target) λ preserved.
                Keeps-Leads _ (Keeps-finish_upload Plain-AdmitsUpload r preserved size hash u)

  Leads-with_recovery : {E : Env} (m : M E (Unit {0})) → LeadsOn m → LeadsOn (with_recovery m)
  unfolding with_recovery
  Leads-with_recovery m k = Leads-bind _ _ (Leads-attempt m k) λ result.
      Keeps-Leads _ (Keeps-on_result _ _ _ Keeps-pure (Keeps-recover_failed Plain-AdmitsUpload))

module _ {E : Env} where
  Leads-upload_file :
      (local remote : Str) (t : ℕ)
      → Leads {E = E}
          (Covered (clean_path remote))
          true
          AnyRecord
          AnyEvents
          (upload_file local remote t)
          λ _. AnyEvents
  unfolding upload_file
  Leads-upload_file local remote t = Leads-Plain _ _ (Keeps-lift _) λ _.
      Leads-Plain _ _ (Keeps-require_writable safe dest) λ _.
        Leads-Plain _ _ (Keeps-ask_result safe _ (asks_stat safe local)) λ info.
          Leads-Plain _ _ (Keeps-guard _ _) λ _. Leads-Plain _ _ (Keeps-guard _ _) λ _.
            Leads-Plain _ _ (Keeps-guard _ _) λ _. Leads-Plain _ _ (Keeps-check_context safe) λ _.
              Leads-Plain _ _ (Keeps-attempt _ (Keeps-stat_fresh safe dest)) λ target.
                Leads-Plain _ _ (Keeps-lift _) λ _.
                  Leads-Plain _ _ (Keeps-file_sha256 safe local) λ hash.
                    Leads-bind_gives IsUploadId _ _
                      (Leads-Keeps (Plain-Covered dest) _ (Keeps-random_upload_id safe))
                      random_upload_id-IsUploadId
                      λ id n.
                        let u = upload_record-IsUploadOf dest id info.size hash n in
                        Leads-begin _ _ u (
                          Leads-bind _ _ (Keeps-Leads dest clean _ (Keeps-save_upload safe _ tt))
                            λ _.
                              Leads-with_recovery dest clean _
                                (Leads-upload_staged dest clean _ u local _ hash t))
    where
      dest : Str
      dest = clean_path remote

      clean : clean_path dest ≡ dest
      clean = clean_path-clean_path remote

      safe : (q : Query) → is_harmless q ≡ true → Plain dest q
      safe = is_harmless-Plain dest

  -- Whatever the service, the disk and the clock answer, and wherever the upload fails, with the
  -- journal open each rename by UploadFile and by its deferred recovery to another name than the
  -- cleaned destination comes after the journal acknowledged a record that is ready, says that
  -- there was an original, and names the two paths of the rename as destination and backup, if
  -- this held of the events before.
  pub upload_file-WriteAhead :
      (local remote : Str) (mod_time : ℕ) (w : World E)
      → w.journaling ≡ true
      → WriteAhead (clean_path remote) w.events
      → WriteAhead (clean_path remote) (upload_file local remote mod_time w).1.events
  upload_file-WriteAhead local remote t w j h =
      let start : Sound (Covered (clean_path remote)) true AnyRecord w = record {
        journal = j;
        ahead = h;
        tx = tt;
      } in
      let out = (Leads-upload_file local remote t).at w start tt in out.0.ahead

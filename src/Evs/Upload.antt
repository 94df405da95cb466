-- ===== src/Evs/Upload.antt =====
-- UploadFile, cleanupStage and recoverReplacement of internal/evs/upload.go.
use idrive_unlimited.Base.{
  Bool, Str, [], false, hex_encode, if◌then◌else◌, is_empty, leb, negate, pos, true, ℕ, ◌&&◌, ◌=s◌,
  ◌∷◌,
}
use idrive_unlimited.Evs.Cache.{invalidate_paths}
use idrive_unlimited.Evs.Errors.{
  Error, Result, both, err, file_too_large, is, is_directory, not_found, ok, sentinel, wrap,
}
use idrive_unlimited.Evs.Journal.{
  backup_name, forget_upload, max_upload_size, recover_upload, remove_known, save_upload,
  stage_name, wrapping,
}
use idrive_unlimited.Evs.Listing.{check_context, require_writable, stat_fresh}
use idrive_unlimited.Evs.Monad.{
  Env, M, ask, attempt, get_journaling, get_tx, guard, lift, on_result, pure, raise, set_tx, when,
  ◌>>=◌, ◌>>◌,
}
use idrive_unlimited.Evs.Mutations.{delete, mutable, rename}
use idrive_unlimited.Evs.Transfer.{
  ask_result, chunk_enable_file_size, file_sha256, random_upload_id, remote_sha256, upload_chunked,
  upload_small, verify_upload,
}
use idrive_unlimited.Evs.Types.{Node, UploadRecord, local_stat}
use idrive_unlimited.Path.{clean_path, parent_dir, root}

abbrev pub no_tx : UploadRecord
no_tx = record {
  source = [];
  move_started = false;
  version = pos 1;
  id = [];
  dest = [];
  stage = [];
  backup = [];
  size = pos 0;
  hash = [];
  had_original = false;
  original_size = pos 0;
  original_hash = [];
  ready = false;
  committed = false;
}

-- The record with which an upload begins.
unfoldable pub upload_record : Str → Str → ℕ → Str → UploadRecord
upload_record dest id size hash = record no_tx {
  id = id;
  dest = dest;
  stage = stage_name dest id;
  backup = backup_name dest id;
  size = pos size;
  hash = hex_encode hash;
}

-- What is at the destination before the upload: a directory is an error.
unfoldable pub not_directory : Result Node → Result (Unit {0})
not_directory (ok node) = if node.is_dir then err (sentinel is_directory) else ok tt
not_directory (err e) = if is e not_found then ok tt else err e

module _ {E : Env} where
  -- cleanupStage, which gives its cause back in every case.
  unfoldable pub cleanup_found : {A : Type 0} → Str → Error → Result Node → M E A
  cleanup_found stage cause (err e) =
      if is e not_found then raise cause else raise (wrap "inspect temporary upload" cause)
  cleanup_found stage cause (ok node) = do
    deleted ← attempt (delete stage)
    on_result deleted (λ _. raise cause) (λ _. raise (wrap "remove temporary upload" cause))

  unfoldable pub cleanup_stage : {A : Type 0} → Str → Error → M E A
  cleanup_stage stage cause = do
    staged ← attempt (stat_fresh stage)
    cleanup_found stage cause staged

  -- An action whose failure is followed by cleanupStage.
  unfoldable pub or_cleanup : {A : Type 0} → Str → M E A → M E A
  or_cleanup stage m = do r ← attempt m; on_result r pure (cleanup_stage stage)

  unfoldable pub restore_backup : Str → Str → Str → Error → M E (Unit {0})
  restore_backup dest stage backup cause = do
    renamed ← attempt (rename backup dest)
    on_result renamed
        (λ _. cleanup_stage stage (wrap "replacement failed; original restored" cause))
        (λ _. raise (wrap "replacement failed" cause))

  -- The original restored, if nothing is at the destination and there is an original.
  unfoldable pub roll_back_upload : Str → Str → Str → Error → Result Node → M E (Unit {0})
  roll_back_upload dest stage backup cause (ok _) = raise (wrap "replacement failed" cause)
  roll_back_upload dest stage backup cause (err e) =
      if is e not_found && negate (is_empty backup)
      then restore_backup dest stage backup cause
      else raise (wrap "replacement failed" cause)

  unfoldable pub recover_replacement : Str → Str → Str → ℕ → Str → Error → M E (Unit {0})
  recover_replacement dest stage backup size hash cause = do
    arrived ← attempt (verify_upload dest (pos size) hash)
    on_result arrived (λ _. raise (wrap "replacement appears saved after uncertain rename" cause))
        λ _. do target ← attempt (stat_fresh dest); roll_back_upload dest stage backup cause target

  -- The original under its recovery name, once its hash is durable.
  unfoldable pub preserve_original : UploadRecord → Node → M E Bool
  preserve_original tx node = do
    let seen = record tx { had_original = true; original_size = node.size }
    set_tx seen
    hash ← or_cleanup tx.stage (remote_sha256 tx.dest node.size)
    let ready = record seen { original_hash = hash; ready = true }
    set_tx ready
    save_upload ready
    wrapping "preserve original for replacement" (rename tx.dest tx.backup)
    pure true

  -- Whether there was an original to preserve.
  unfoldable pub preserve : UploadRecord → Result Node → M E Bool
  preserve tx (err e) = if is e not_found then pure false else cleanup_stage tx.stage e
  preserve tx (ok node) =
      if node.is_dir
      then cleanup_stage tx.stage (sentinel is_directory)
      else preserve_original tx node

  unfoldable pub mark_ready : M E (Unit {0})
  mark_ready = do
    tx ← get_tx
    if tx.ready
        then pure tt
        else do set_tx (record tx { ready = true }); save_upload (record tx { ready = true })

  unfoldable pub mark_committed : M E (Unit {0})
  mark_committed = do
    tx ← get_tx
    set_tx (record tx { committed = true })
    save_upload (record tx { committed = true })

  unfoldable pub remove_backup : Bool → M E (Unit {0})
  remove_backup preserved = when preserved (do
    tx ← get_tx
    wrapping "replacement saved; remove original recovery file"
        (remove_known tx.backup tx.original_size tx.original_hash))

  unfoldable pub promote : UploadRecord → Str → ℕ → Str → M E (Unit {0})
  promote tx backup size hash = do
    renamed ← attempt (rename tx.stage tx.dest)
    on_result renamed
        (λ _. wrapping "replacement verification failed" (verify_upload tx.dest (pos size) hash))
        (recover_replacement tx.dest tx.stage backup size hash)

  -- The new bytes under the stage name.
  unfoldable pub stage_upload : Str → UploadRecord → ℕ → Str → ℕ → M E (Unit {0})
  stage_upload local tx size hash mod_time = do
    or_cleanup tx.stage (
        if leb chunk_enable_file_size size
        then upload_chunked local tx.stage mod_time
        else upload_small local tx.stage mod_time)
    invalidate_paths (parent_dir tx.stage ∷ tx.stage ∷ [])
    or_cleanup tx.stage (verify_upload tx.stage (pos size) hash)

  -- UploadFile once the original, if there is one, has its recovery name.
  unfoldable pub finish_upload : UploadRecord → Bool → ℕ → Str → M E (Unit {0})
  finish_upload tx preserved size hash = do
    mark_ready
    promote tx (if preserved then tx.backup else []) size hash
    mark_committed
    remove_backup preserved
    invalidate_paths (parent_dir tx.dest ∷ tx.dest ∷ [])
    last_tx ← get_tx
    forget_upload last_tx

  -- UploadFile from the first saved record on.
  unfoldable pub upload_staged : Str → UploadRecord → ℕ → Str → ℕ → M E (Unit {0})
  upload_staged local tx size hash mod_time = do
    stage_upload local tx size hash mod_time
    target ← attempt (stat_fresh tx.dest)
    preserved ← preserve tx target
    finish_upload tx preserved size hash

  -- The deferred recovery of a transaction that failed.
  unfoldable pub recover_after : Error → M E (Unit {0})
  recover_after cause = do
    tx ← get_tx
    recovered ← attempt (recover_upload tx)
    on_result recovered (λ committed. if committed then pure tt else raise cause)
        (λ e. raise (both cause e))

  unfoldable pub recover_failed : Error → M E (Unit {0})
  recover_failed cause = do
    journaling ← get_journaling
    if journaling then recover_after cause else raise cause

  unfoldable pub with_recovery : M E (Unit {0}) → M E (Unit {0})
  with_recovery m = do r ← attempt m; on_result r pure recover_failed

  unfoldable pub upload_file : Str → Str → ℕ → M E (Unit {0})
  upload_file local remote mod_time = do
    let clean = clean_path remote
    lift (mutable clean)
    require_writable clean
    info ← ask_result (ask (local_stat local))
    guard (negate info.is_dir) (sentinel is_directory)
    guard (leb info.size max_upload_size) (sentinel file_too_large)
    guard (negate (clean =s root)) (sentinel is_directory)
    check_context
    target ← attempt (stat_fresh clean)
    lift (not_directory target)
    hash ← file_sha256 local
    id ← random_upload_id
    let tx = upload_record clean id info.size hash
    set_tx tx
    save_upload tx
    with_recovery (upload_staged local tx info.size hash mod_time)

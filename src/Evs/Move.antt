-- ===== src/Evs/Move.antt =====
-- MoveReplace of internal/evs/move.go.
use idrive_unlimited.Base.{
  Bool, Option, Str, false, if◌then◌else◌, negate, none, some, true, ℤ, ◌=s◌, ◌||◌,
}
use idrive_unlimited.Evs.Errors.{
  Result, err, invalid, is, is_directory, join_errors, message, not_found, ok, sentinel,
}
use idrive_unlimited.Evs.Journal.{
  backup_name, decode_hash, forget_upload, remove_known, save_upload, wrapping,
}
use idrive_unlimited.Evs.Listing.{protect_device_root, require_writable, stat_fresh}
use idrive_unlimited.Evs.Monad.{
  Env, M, attempt, get_tx, guard, lift, on_result, pure, raise, set_tx, when, ◌>>=◌, ◌>>◌,
}
use idrive_unlimited.Evs.Mutations.{join_checks, mutable, rename}
use idrive_unlimited.Evs.Transfer.{random_upload_id, remote_sha256, verify_upload}
use idrive_unlimited.Evs.Types.{Node, UploadRecord}
use idrive_unlimited.Evs.Upload.{mark_committed, no_tx, recover_after}
use idrive_unlimited.Path.{clean_path, root, strings_within}

-- The record with which a move begins; `original` is the size and hash of a file at the target.
unfoldable pub move_record : Str → Str → Str → ℤ → Str → Option (ℤ × Str) → UploadRecord
move_record source dest id size hash original =
    let plain : UploadRecord = record no_tx {
      source = source;
      id = id;
      dest = dest;
      stage = source;
      backup = backup_name dest id;
      size = size;
      hash = hash;
      ready = true;
    } in
    elim original [
      | none ↦ plain
      | some (n, h) ↦ record plain { had_original = true; original_size = n; original_hash = h }
    ]

unfoldable pub target_known : Result Node → Result (Option Node)
target_known (ok node) = ok (some node)
target_known (err e) = if is e not_found then ok none else err e

abbrev pub is_directory_node : Option Node → Bool
is_directory_node none = false
is_directory_node (some node) = node.is_dir

module _ {E : Env} where
  -- The fingerprint of a file at the target.
  unfoldable pub original_of : Str → Option Node → M E (Option (ℤ × Str))
  original_of dest none = pure none
  original_of dest (some node) = do
    hash ← remote_sha256 dest node.size
    pure (some (node.size, hash))

  unfoldable pub start_move : M E (Unit {0})
  start_move = do
    tx ← get_tx
    set_tx (record tx { move_started = true })
    save_upload (record tx { move_started = true })

  -- MoveReplace once the original, if there is one, has its recovery name.
  unfoldable pub move_on : UploadRecord → M E (Unit {0})
  move_on tx = do
    start_move
    rename tx.source tx.dest
    expected ← lift (decode_hash tx.hash)
    wrapping "renamed destination verification failed" (verify_upload tx.dest tx.size expected)
    mark_committed
    when tx.had_original (remove_known tx.backup tx.original_size tx.original_hash)
    last_tx ← get_tx
    forget_upload last_tx

  -- MoveReplace from the first saved record on.
  unfoldable pub move_recorded : UploadRecord → M E (Unit {0})
  move_recorded tx = do when tx.had_original (rename tx.dest tx.backup); move_on tx

  -- The deferred recovery, which does not ask whether a journal is open.
  unfoldable pub with_move_recovery : M E (Unit {0}) → M E (Unit {0})
  with_move_recovery m = do r ← attempt m; on_result r pure recover_after

  unfoldable pub move_file_replacing : Str → Str → Node → Option Node → M E (Unit {0})
  move_file_replacing source dest node target = do
    guard (negate (is_directory_node target)) (sentinel is_directory)
    hash ← remote_sha256 source node.size
    id ← random_upload_id
    original ← original_of dest target
    let tx = move_record source dest id node.size hash original
    set_tx tx
    save_upload tx
    with_move_recovery (move_recorded tx)

  unfoldable pub move_directory : Str → Str → Option Node → M E (Unit {0})
  move_directory source dest (some target) =
      raise (message "existing directory targets are unsupported")
  move_directory source dest none = rename source dest

  unfoldable pub move_replace_clean : Str → Str → M E (Unit {0})
  move_replace_clean source dest = do
    guard (negate (source =s root || dest =s root || strings_within dest source)) (sentinel invalid)
    join_checks (join_checks (require_writable source) (require_writable dest))
        (protect_device_root source)
    node ← stat_fresh source
    seen ← attempt (stat_fresh dest)
    target ← lift (target_known seen)
    if node.is_dir
        then move_directory source dest target
        else move_file_replacing source dest node target

  unfoldable pub move_replace : Str → Str → M E (Unit {0})
  move_replace source_path dest_path = do
    let source = clean_path source_path
    let dest = clean_path dest_path
    lift (join_errors (mutable source) (mutable dest))
    if source =s dest then pure tt else move_replace_clean source dest

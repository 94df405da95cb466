-- ===== src/Evs/Footprint/Move.antt =====
-- MoveReplace asks for nothing but the mutations of its own transaction.
use idrive_unlimited.Base.{
  All, Option, Str, ap, false, inl, inr, is_empty, none, refl, some, true, ℤ, ◌=s◌, ◌∙◌, ◌≡◌, ◌⊎◌,
}
use idrive_unlimited.Evs.Footprint.{IsMoveOf, MoveAllows, backup_name-clean}
use idrive_unlimited.Evs.Footprint.Names.{
  IsUploadId, backup_name-IsBeside, random_upload_id-IsUploadId,
}
use idrive_unlimited.Evs.Keeps.{
  AnyRecord, Keeps, Keeps-attempt, Keeps-begin, Keeps-bind, Keeps-bind_gives, Keeps-get_tx,
  Keeps-guard, Keeps-if, Keeps-lift, Keeps-on_result, Keeps-pure, Keeps-raise, Keeps-set_tx,
  Keeps-when,
}
use idrive_unlimited.Evs.Keeps.Reads.{
  Keeps-protect_device_root, Keeps-remote_sha256, Keeps-require_writable, Keeps-stat_fresh,
  Keeps-verify_upload, is_harmless,
}
use idrive_unlimited.Evs.Keeps.Recovery.{Admits, Keeps-recover_after}
use idrive_unlimited.Evs.Keeps.Writes.{
  Keeps-forget_upload, Keeps-join_checks, Keeps-random_upload_id, Keeps-remove_known, Keeps-rename,
  Keeps-save_upload, Keeps-wrapping,
}
use idrive_unlimited.Evs.Monad.{Env, M, World, pure}
use idrive_unlimited.Evs.Move.{
  move_directory, move_file_replacing, move_on, move_record, move_recorded, move_replace,
  move_replace_clean, original_of, start_move, with_move_recovery,
}
use idrive_unlimited.Evs.Types.{
  Node, Query, UploadRecord, copy_paste, create_folder, delete_file, move_file, rename_file,
  save_record, upload_close, upload_part, upload_session,
}
use idrive_unlimited.Evs.Upload.{mark_committed}
use idrive_unlimited.Path.{clean_path}
use idrive_unlimited.Path.Clean.{clean_path-clean_path, clean_path_lem}

module _ (source dest : Str) (clean_source : clean_path source ≡ source)
    (clean_dest : clean_path dest ≡ dest) (full : is_empty source ≡ false) where
  harmless : (q : Query) → is_harmless q ≡ true → MoveAllows source dest q
  harmless (create_folder a b) e = cc
  harmless (rename_file a b) e = cc
  harmless (copy_paste a b) e = cc
  harmless (move_file a b) e = cc
  harmless (delete_file a) e = cc
  harmless (upload_session a b) e = cc
  harmless (upload_part a) e = cc
  harmless (upload_close a) e = cc
  harmless (save_record a) e = cc
  harmless _ e = tt

  abbrev KeepsMove : {E : Env} {A : Type 0} → M E A → Type 0
  KeepsMove m = Keeps (MoveAllows source dest) (IsMoveOf source dest) m

  backup_deletes :
      (r : UploadRecord)
      → IsMoveOf source dest r
      → MoveAllows source dest (delete_file (clean_path r.backup))
  backup_deletes r u = (
    r.id,
    u.named,
    backup_name-IsBeside dest r.id _ clean_dest u.named
        (ap clean_path u.backed ∙ backup_name-clean dest r.id),
  )

  restores :
      (r : UploadRecord)
      → IsMoveOf source dest r
      → MoveAllows source dest (rename_file (clean_path r.backup) (clean_path r.dest))
  restores r u = inr (
    r.id,
    u.named,
    inr (
      ap clean_path u.backed ∙ backup_name-clean dest r.id,
      ap clean_path u.to_dest ∙ clean_dest,
    ),
  )

  preserves :
      (r : UploadRecord)
      → IsMoveOf source dest r
      → MoveAllows source dest (rename_file (clean_path r.dest) (clean_path r.backup))
  preserves r u = inr (
    r.id,
    u.named,
    inl (
      ap clean_path u.to_dest ∙ clean_dest,
      ap clean_path u.backed ∙ backup_name-clean dest r.id,
    ),
  )

  moves :
      (r : UploadRecord)
      → IsMoveOf source dest r
      → MoveAllows source dest (rename_file (clean_path r.source) (clean_path r.dest))
  moves r u = inl (ap clean_path u.from_source ∙ clean_source, ap clean_path u.to_dest ∙ clean_dest)

  committed-IsMoveOf :
      (r : UploadRecord)
      → IsMoveOf source dest r
      → IsMoveOf source dest (record r { committed = true })
  committed-IsMoveOf r u = record {
    named = u.named;
    from_source = u.from_source;
    to_dest = u.to_dest;
    backed = u.backed;
    is_ready = u.is_ready;
  }

  started-IsMoveOf :
      (r : UploadRecord)
      → IsMoveOf source dest r
      → IsMoveOf source dest (record r { move_started = true })
  started-IsMoveOf r u = record {
    named = u.named;
    from_source = u.from_source;
    to_dest = u.to_dest;
    backed = u.backed;
    is_ready = u.is_ready;
  }

  -- The stage name of a move is its source, which recovery has no leave to delete.
  keeps_source :
      (r : UploadRecord)
      → IsMoveOf source dest r
      → (r.ready ≡ false) ⊎ (is_empty r.source ≡ true)
      → ⊥
  keeps_source r u (inl e) = cc (u.is_ready)
  keeps_source r u (inr e) = cc (ap is_empty u.from_source, full)

  move-Admits : (r : UploadRecord) → IsMoveOf source dest r → Admits (MoveAllows source dest) r
  move-Admits r u = record {
    delete_stage = λ e. absurd (keeps_source r u e);
    delete_backup = λ _ _. backup_deletes r u;
    restore = λ _ _ _. restores r u;
    save = u;
    save_committed = committed-IsMoveOf r u;
    forget = tt;
  }

  move_record-IsMoveOf :
      (id : Str) (size : ℤ) (hash : Str) (original : Option (ℤ × Str))
      → IsUploadId id
      → IsMoveOf source dest (move_record source dest id size hash original)
  unfolding move_record
  move_record-IsMoveOf id size hash none n = record {
    named = n;
    from_source = refl;
    to_dest = refl;
    backed = refl;
    is_ready = refl;
  }
  move_record-IsMoveOf id size hash (some (k, h)) n = record {
    named = n;
    from_source = refl;
    to_dest = refl;
    backed = refl;
    is_ready = refl;
  }

  module _ {E : Env} where
    Keeps-start_move : KeepsMove {E = E} start_move
    unfolding start_move
    Keeps-start_move = Keeps-get_tx _ λ r u.
        Keeps-bind _ _ (Keeps-set_tx _ (started-IsMoveOf r u))
          λ _. Keeps-save_upload harmless _ (started-IsMoveOf r u)

    Keeps-mark_committed : KeepsMove {E = E} mark_committed
    unfolding mark_committed
    Keeps-mark_committed = Keeps-get_tx _ λ r u.
        Keeps-bind _ _ (Keeps-set_tx _ (committed-IsMoveOf r u))
          λ _. Keeps-save_upload harmless _ (committed-IsMoveOf r u)

    Keeps-move_recorded :
        (r : UploadRecord) → IsMoveOf source dest r → KeepsMove {E = E} (move_recorded r)
    unfolding move_recorded move_on
    Keeps-move_recorded r u =
        Keeps-bind _ _ (Keeps-when _ _ λ _. Keeps-rename harmless r.dest r.backup (preserves r u))
          λ _. Keeps-bind _ _ Keeps-start_move λ _.
            Keeps-bind _ _ (Keeps-rename harmless r.source r.dest (moves r u)) λ _.
              Keeps-bind _ _ (Keeps-lift _) λ expected.
                Keeps-bind _ _ (Keeps-wrapping harmless _ _ (Keeps-verify_upload harmless _ _ _))
                  λ _. Keeps-bind _ _ Keeps-mark_committed λ _.
                    Keeps-bind _ _
                      (Keeps-when _ _
                        λ _. Keeps-remove_known harmless r.backup _ _ (backup_deletes r u))
                      λ _. Keeps-get_tx _ λ last_tx v. Keeps-forget_upload harmless last_tx tt

    Keeps-with_move_recovery : (m : M E (Unit {0})) → KeepsMove m → KeepsMove (with_move_recovery m)
    unfolding with_move_recovery
    Keeps-with_move_recovery m k =
        Keeps-bind _ _ (Keeps-attempt m k)
          λ result. Keeps-on_result _ _ _ Keeps-pure (Keeps-recover_after harmless move-Admits)

    Keeps-original_of :
        (target : Option Node)
        → Keeps {E = E} (MoveAllows source dest) AnyRecord (original_of dest target)
    unfolding original_of
    Keeps-original_of none = Keeps-pure none
    Keeps-original_of (some node) =
        Keeps-bind _ _ (Keeps-remote_sha256 harmless dest node.size) λ hash. Keeps-pure _

    Keeps-move_file_replacing :
        (node : Node) (target : Option Node)
        → Keeps {E = E}
            (MoveAllows source dest)
            AnyRecord
            (move_file_replacing source dest node target)
    unfolding move_file_replacing
    Keeps-move_file_replacing node target = Keeps-bind _ _ (Keeps-guard _ _) λ _.
        Keeps-bind _ _ (Keeps-remote_sha256 harmless source node.size) λ hash.
          Keeps-bind_gives IsUploadId _ _ (Keeps-random_upload_id harmless)
            random_upload_id-IsUploadId
            λ id n. Keeps-bind _ _ (Keeps-original_of target) λ original.
              let u = move_record-IsMoveOf id node.size hash original n in
              Keeps-begin _ _ u (
                Keeps-bind _ _ (Keeps-save_upload harmless _ u)
                  λ _. Keeps-with_move_recovery _ (Keeps-move_recorded _ u))

    Keeps-move_directory :
        (target : Option Node)
        → Keeps {E = E} (MoveAllows source dest) AnyRecord (move_directory source dest target)
    unfolding move_directory
    Keeps-move_directory none = Keeps-rename harmless source dest (inl (clean_source, clean_dest))
    Keeps-move_directory (some node) = Keeps-raise _

    pub Keeps-move_replace_clean :
        Keeps {E = E} (MoveAllows source dest) AnyRecord (move_replace_clean source dest)
    unfolding move_replace_clean
    Keeps-move_replace_clean = Keeps-bind _ _ (Keeps-guard _ _) λ _.
        Keeps-bind _ _
          (Keeps-join_checks harmless _ _
            (Keeps-join_checks harmless _ _ (Keeps-require_writable harmless source)
              (Keeps-require_writable harmless dest))
            (Keeps-protect_device_root harmless source))
          λ _. Keeps-bind _ _ (Keeps-stat_fresh harmless source) λ node.
            Keeps-bind _ _ (Keeps-attempt _ (Keeps-stat_fresh harmless dest)) λ seen.
              Keeps-bind _ _ (Keeps-lift _) λ target.
                Keeps-if node.is_dir (move_directory source dest target)
                  (move_file_replacing source dest node target) (λ _. Keeps-move_directory target)
                  λ _. Keeps-move_file_replacing node target

clean_path-full : (s : Str) → is_empty (clean_path s) ≡ false
unfolding is_empty
clean_path-full s = rw (clean_path_lem s)

module _ {E : Env} where
  Keeps-move_replace :
      (source dest : Str)
      → Keeps {E = E}
          (MoveAllows (clean_path source) (clean_path dest))
          AnyRecord
          (move_replace source dest)
  unfolding move_replace
  Keeps-move_replace source dest = Keeps-bind _ _ (Keeps-lift _) λ _.
      Keeps-if (clean_path source =s clean_path dest) (pure tt)
        (move_replace_clean (clean_path source) (clean_path dest)) (λ _. Keeps-pure tt)
        λ _.
          Keeps-move_replace_clean (clean_path source) (clean_path dest)
            (clean_path-clean_path source) (clean_path-clean_path dest) (clean_path-full source)

  -- Whatever the service, the disk and the clock answer, and wherever the move fails, every
  -- question asked by MoveReplace and by its deferred recovery is one that `MoveAllows` lists for
  -- the cleaned paths, if this held of the questions asked before: nothing is deleted but
  -- files in the folder of the destination whose name is the prefix of a backup, an id of
  -- randomUploadID and the extension of the destination, renames go from the source to the
  -- destination or between the destination and its backups, nothing is uploaded, and every record
  -- saved is a ready one with those paths.
  pub move_replace-footprint :
      (source dest : Str) (w : World E)
      → All (MoveAllows (clean_path source) (clean_path dest)) w.trace
      → All (MoveAllows (clean_path source) (clean_path dest)) (move_replace source dest w).1.trace
  move_replace-footprint source dest w h = ((Keeps-move_replace source dest).at w h tt).0

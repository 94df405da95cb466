-- ===== src/Evs/Ahead/Move.antt =====
-- MoveReplace writes its journal ahead.
use idrive_unlimited.Base.{
  Bool, List, Option, Str, ap, false, inr, none, refl, some, sym, true, ℤ, ◌=s◌, ◌∙◌, ◌≡◌,
}
use idrive_unlimited.Evs.Ahead.{
  Acknowledged, Covered, Kept-Covered, Leads-Plain, Leads-save_upload, Plain, Plain-Covered,
  WriteAhead, is_harmless-Kept, is_harmless-Plain,
}
use idrive_unlimited.Evs.Footprint.{backup_name-clean}
use idrive_unlimited.Evs.Journal.{save_upload}
use idrive_unlimited.Evs.Keeps.{
  AnyRecord, Keeps, Keeps-attempt, Keeps-bind, Keeps-get_tx, Keeps-guard, Keeps-lift,
  Keeps-on_result, Keeps-pure, Keeps-raise, Keeps-set_tx, Keeps-when,
}
use idrive_unlimited.Evs.Keeps.Reads.{
  Keeps-protect_device_root, Keeps-remote_sha256, Keeps-require_writable, Keeps-stat_fresh,
  Keeps-verify_upload,
}
use idrive_unlimited.Evs.Keeps.Recovery.{Admits, Keeps-recover_after}
use idrive_unlimited.Evs.Keeps.Writes.{
  Keeps-forget_upload, Keeps-join_checks, Keeps-random_upload_id, Keeps-remove_known, Keeps-rename,
  Keeps-save_upload, Keeps-wrapping,
}
use idrive_unlimited.Evs.Leads.{
  AnyEvents, Leads, Leads-Keeps, Leads-any, Leads-attempt, Leads-begin, Leads-bind, Leads-if,
  Leads-pure, Sound,
}
use idrive_unlimited.Evs.Monad.{Env, M, World, set_tx, when, ◌>>◌}
use idrive_unlimited.Evs.Move.{
  move_directory, move_file_replacing, move_on, move_record, move_recorded, move_replace,
  move_replace_clean, original_of, start_move, with_move_recovery,
}
use idrive_unlimited.Evs.Mutations.{rename}
use idrive_unlimited.Evs.Types.{Event, Node, UploadRecord}
use idrive_unlimited.Evs.Upload.{mark_committed}
use idrive_unlimited.Path.{clean_path}
use idrive_unlimited.Path.Clean.{clean_path-clean_path}

module _ (source dest : Str) (clean : clean_path dest ≡ dest) where
  abbrev MovesTo : UploadRecord → Type 0
  MovesTo r = r.dest ≡ dest

  abbrev KeepsPlain : {E : Env} {A : Type 0} → M E A → Type 0
  KeepsPlain m = Keeps (Plain dest) MovesTo m

  Plain-Admits : (r : UploadRecord) → MovesTo r → Admits (Plain dest) r
  Plain-Admits r u = record {
    delete_stage = λ _. tt;
    delete_backup = λ _ _. tt;
    restore = λ _ _ _. ap clean_path u ∙ clean;
    save = tt;
    save_committed = tt;
    forget = tt;
  }

  module _ {E : Env} where
    Keeps-start_move : KeepsPlain {E = E} start_move
    unfolding start_move
    Keeps-start_move = Keeps-get_tx _ λ r u.
        Keeps-bind _ _ (Keeps-set_tx _ u) λ _. Keeps-save_upload (is_harmless-Plain dest) _ tt

    Keeps-mark_committed : KeepsPlain {E = E} mark_committed
    unfolding mark_committed
    Keeps-mark_committed = Keeps-get_tx _ λ r u.
        Keeps-bind _ _ (Keeps-set_tx _ u) λ _. Keeps-save_upload (is_harmless-Plain dest) _ tt

    -- MoveReplace once the original, if there is one, has its recovery name.
    Keeps-move_on : (r : UploadRecord) → MovesTo r → KeepsPlain {E = E} (move_on r)
    unfolding move_on
    Keeps-move_on r u = Keeps-bind _ _ Keeps-start_move λ _.
        Keeps-bind _ _
          (Keeps-rename (is_harmless-Plain dest) r.source r.dest (ap clean_path u ∙ clean))
          λ _. Keeps-bind _ _ (Keeps-lift _) λ expected.
            Keeps-bind _ _
              (Keeps-wrapping (is_harmless-Plain dest) _ _
                (Keeps-verify_upload (is_harmless-Plain dest) _ _ _))
              λ _. Keeps-bind _ _ Keeps-mark_committed λ _.
                Keeps-bind _ _
                  (Keeps-when _ _ λ _. Keeps-remove_known (is_harmless-Plain dest) r.backup _ _ tt)
                  λ _.
                    Keeps-get_tx _
                      λ last_tx v. Keeps-forget_upload (is_harmless-Plain dest) last_tx tt

  abbrev LeadsTo : {E : Env} {A : Type 0} → (List Event → Type 0) → M E A → Type 0
  LeadsTo S m = Leads (Covered dest) true MovesTo S m λ _. AnyEvents

  module _ {E : Env} (r : UploadRecord) (u : MovesTo r) (backed : clean_path r.backup ≡ r.backup)
      (ready : r.ready ≡ true) where
    Leads-hide :
        (b : Bool)
        → r.had_original ≡ b
        → LeadsTo {E = E} (Acknowledged r) (when b (rename r.dest r.backup))
    unfolding when
    Leads-hide false h = Leads-pure tt
    Leads-hide true h = Leads-any _ (
        Leads-Keeps (Kept-Covered dest r ready h) _ (
          Keeps-rename (is_harmless-Kept dest r) r.dest r.backup
            (inr (sym (ap clean_path u ∙ clean ∙ sym u), sym backed))))

    Leads-move_recorded : LeadsTo {E = E} (Acknowledged r) (move_recorded r)
    unfolding move_recorded
    Leads-move_recorded =
        Leads-bind _ _ (Leads-hide r.had_original refl)
          λ _. Leads-Keeps (Plain-Covered dest) _ (Keeps-move_on r u)

    Leads-with_move_recovery :
        (m : M E (Unit {0}))
        → LeadsTo (Acknowledged r) m
        → LeadsTo (Acknowledged r) (with_move_recovery m)
    unfolding with_move_recovery
    Leads-with_move_recovery m k = Leads-bind _ _ (Leads-attempt m k) λ result.
        Leads-Keeps (Plain-Covered dest) _ (
          Keeps-on_result _ _ _ Keeps-pure
            (Keeps-recover_after (is_harmless-Plain dest) Plain-Admits))

  abbrev LeadsPlainly : {E : Env} {A : Type 0} → M E A → Type 0
  LeadsPlainly m = Leads (Covered dest) true AnyRecord AnyEvents m λ _. AnyEvents

  module _ {E : Env} where
    Keeps-original_of :
        (target : Option Node) → Keeps {E = E} (Plain dest) AnyRecord (original_of dest target)
    unfolding original_of
    Keeps-original_of none = Keeps-pure none
    Keeps-original_of (some node) =
        Keeps-bind _ _ (Keeps-remote_sha256 (is_harmless-Plain dest) dest node.size)
          λ hash. Keeps-pure _

    Leads-recorded :
        (r : UploadRecord)
        → MovesTo r
        → clean_path r.backup ≡ r.backup
        → r.ready ≡ true
        → LeadsPlainly {E = E} (set_tx r >> (save_upload r >> with_move_recovery (move_recorded r)))
    Leads-recorded r u backed ready = Leads-begin _ _ u (
        Leads-bind _ _ (Leads-save_upload r)
          λ _. Leads-with_move_recovery r u backed ready _ (Leads-move_recorded r u backed ready))

    Leads-from_original :
        (id : Str) (size : ℤ) (hash : Str) (original : Option (ℤ × Str))
        → LeadsPlainly {E = E} (
            let tx = move_record source dest id size hash original in
            set_tx tx >> (save_upload tx >> with_move_recovery (move_recorded tx)))
    unfolding move_record
    Leads-from_original id size hash none = Leads-recorded _ refl (backup_name-clean dest id) refl
    Leads-from_original id size hash (some o) =
        Leads-recorded _ refl (backup_name-clean dest id) refl

    Leads-move_file_replacing :
        (node : Node) (target : Option Node)
        → LeadsPlainly {E = E} (move_file_replacing source dest node target)
    unfolding move_file_replacing
    Leads-move_file_replacing node target = Leads-Plain _ _ (Keeps-guard _ _) λ _.
        Leads-Plain _ _ (Keeps-remote_sha256 (is_harmless-Plain dest) source node.size) λ hash.
          Leads-Plain _ _ (Keeps-random_upload_id (is_harmless-Plain dest)) λ id.
            Leads-Plain _ _ (Keeps-original_of target)
              λ original. Leads-from_original id node.size hash original

    Keeps-move_directory :
        (target : Option Node)
        → Keeps {E = E} (Plain dest) AnyRecord (move_directory source dest target)
    unfolding move_directory
    Keeps-move_directory none = Keeps-rename (is_harmless-Plain dest) source dest clean
    Keeps-move_directory (some node) = Keeps-raise _

    Leads-move_replace_clean : LeadsPlainly {E = E} (move_replace_clean source dest)
    unfolding move_replace_clean
    Leads-move_replace_clean = Leads-Plain _ _ (Keeps-guard _ _) λ _.
        Leads-Plain _ _
          (Keeps-join_checks (is_harmless-Plain dest) _ _
            (Keeps-join_checks (is_harmless-Plain dest) _ _
              (Keeps-require_writable (is_harmless-Plain dest) source)
              (Keeps-require_writable (is_harmless-Plain dest) dest))
            (Keeps-protect_device_root (is_harmless-Plain dest) source))
          λ _. Leads-Plain _ _ (Keeps-stat_fresh (is_harmless-Plain dest) source) λ node.
            Leads-Plain _ _ (Keeps-attempt _ (Keeps-stat_fresh (is_harmless-Plain dest) dest))
              λ found_target. Leads-Plain _ _ (Keeps-lift _) λ target.
                Leads-if node.is_dir _ _
                  (Leads-Keeps (Plain-Covered dest) _ (Keeps-move_directory target))
                  (Leads-move_file_replacing node target)

module _ {E : Env} where
  Leads-move_replace :
      (source dest : Str)
      → Leads {E = E}
          (Covered (clean_path dest))
          true
          AnyRecord
          AnyEvents
          (move_replace source dest)
          λ _. AnyEvents
  unfolding move_replace
  Leads-move_replace source dest = Leads-Plain _ _ (Keeps-lift _) λ _.
      Leads-if (clean_path source =s clean_path dest) _ _ (Leads-pure tt) (
        Leads-move_replace_clean (clean_path source) (clean_path dest) (clean_path-clean_path dest))

  -- Whatever the service, the disk and the clock answer, and wherever the move fails, with the
  -- journal open each rename by MoveReplace and by its deferred recovery to another name than the
  -- cleaned destination comes after the journal acknowledged a record that is ready, says that
  -- there was an original, and names the two paths of the rename as destination and backup, if
  -- this held of the events before.
  pub move_replace-WriteAhead :
      (source dest : Str) (w : World E)
      → w.journaling ≡ true
      → WriteAhead (clean_path dest) w.events
      → WriteAhead (clean_path dest) (move_replace source dest w).1.events
  move_replace-WriteAhead source dest w j h =
      let start : Sound (Covered (clean_path dest)) true AnyRecord w = record {
        journal = j;
        ahead = h;
        tx = tt;
      } in
      let out = (Leads-move_replace source dest).at w start tt in out.0.ahead

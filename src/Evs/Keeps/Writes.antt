-- ===== src/Evs/Keeps/Writes.antt =====
-- Actions that change remote files or the journal keep an invariant that admits the questions
-- they ask for it.
use idrive_unlimited.Base.{List, Str, String, refl, suc, true, zero, ℕ, ℤ, ◌≡◌}
use idrive_unlimited.Evs.Errors.{Result, err, ok}
use idrive_unlimited.Evs.Journal.{forget_upload, remove_found, remove_known, save_upload, wrapping}
use idrive_unlimited.Evs.Keeps.{
  Keeps, Keeps-ask, Keeps-bind, Keeps-get_journaling, Keeps-guard, Keeps-lift, Keeps-pure,
  Keeps-when, keeps_rules,
}
use idrive_unlimited.Evs.Keeps.Reads.{
  Keeps-ask_harmless, Keeps-invalidate_paths, Keeps-protect_device_root, Keeps-require_writable,
  Keeps-stat_fresh, Keeps-verify_upload, is_harmless,
}
use idrive_unlimited.Evs.Monad.{Env, M, ask}
use idrive_unlimited.Evs.Mutations.{
  checked, delete, join_checks, rename, rename_clean, require_absent, with_invalidation,
}
use idrive_unlimited.Evs.Transfer.{
  ask_result, chunk_part, file_sha256, random_upload_id, upload_chunked, upload_chunks,
  upload_small,
}
use idrive_unlimited.Evs.Types.{
  ApiReply, Node, Query, Response, UploadClose, UploadPart, UploadRecord, delete_file, local_read,
  local_stat, random_bytes, remove_record, rename_file, save_record, sync_journal, upload_close,
  upload_part, upload_session,
}
use idrive_unlimited.Path.{clean_path, parent_dir, path_base}

module _ {E : Env} {P : Query → Type 0} {Q : UploadRecord → Type 0}
    (harmless : (q : Query) → is_harmless q ≡ true → P q) where
  Keeps-require_absent : (p : Str) → Keeps {E = E} P Q (require_absent p)
  unfolding require_absent
  Keeps-require_absent p = search (keeps_rules, Keeps-stat_fresh harmless)

  Keeps-with_invalidation :
      (paths : List Str) (m : M E (Unit {0})) → Keeps P Q m → Keeps P Q (with_invalidation paths m)
  unfolding with_invalidation
  Keeps-with_invalidation paths m k = search (keeps_rules, Keeps-invalidate_paths harmless) depth 7

  Keeps-checked : (r : Response ApiReply) → Keeps {E = E} P Q (checked r)
  unfolding checked
  Keeps-checked r = search keeps_rules

  pub Keeps-ask_result : {A : Type 0} (m : M E (Result A)) → Keeps P Q m → Keeps P Q (ask_result m)
  unfolding ask_result
  Keeps-ask_result m k = search keeps_rules

  pub Keeps-join_checks :
      (m n : M E (Unit {0})) → Keeps P Q m → Keeps P Q n → Keeps P Q (join_checks m n)
  unfolding join_checks
  Keeps-join_checks m n k l = search keeps_rules depth 7

  pub Keeps-delete : (p : Str) → P (delete_file (clean_path p)) → Keeps {E = E} P Q (delete p)
  unfolding delete
  Keeps-delete p h =
      search
        (
          keeps_rules,
          Keeps-with_invalidation,
          Keeps-invalidate_paths harmless,
          Keeps-require_writable harmless,
          Keeps-protect_device_root harmless,
        )
        depth 14

  pub Keeps-rename :
      (a b : Str) → P (rename_file (clean_path a) (clean_path b)) → Keeps {E = E} P Q (rename a b)
  unfolding rename rename_clean
  Keeps-rename a b h =
      search
        (
          keeps_rules,
          Keeps-with_invalidation,
          Keeps-join_checks,
          Keeps-require_absent,
          Keeps-checked,
          Keeps-require_writable harmless,
          Keeps-protect_device_root harmless,
        )
        depth 14

  pub Keeps-save_upload : (r : UploadRecord) → P (save_record r) → Keeps {E = E} P Q (save_upload r)
  unfolding save_upload
  Keeps-save_upload r h =
      Keeps-bind _ _ Keeps-get_journaling
        λ journaling. Keeps-when _ _ λ _. Keeps-ask_result _ (Keeps-ask (save_record r) h)

  asks_sync : Keeps {E = E} P Q (ask sync_journal)
  asks_sync = Keeps-ask_harmless harmless sync_journal refl

  pub Keeps-forget_upload :
      (r : UploadRecord) → P (remove_record r.id) → Keeps {E = E} P Q (forget_upload r)
  unfolding forget_upload
  Keeps-forget_upload r h = search (keeps_rules, Keeps-ask_result, asks_sync) depth 9

  pub Keeps-wrapping :
      (text : String) (m : M E (Unit {0})) → Keeps P Q m → Keeps P Q (wrapping text m)
  unfolding wrapping
  Keeps-wrapping text m k = search keeps_rules

  remove_found-Keeps :
      (p : Str) (size : ℤ) (hash : Str) (target : Result Node)
      → P (delete_file (clean_path p))
      → Keeps {E = E} P Q (remove_found p size hash target)
  unfolding remove_found
  remove_found-Keeps p size hash (ok node) h =
      search (keeps_rules, Keeps-wrapping, Keeps-verify_upload harmless, Keeps-delete) depth 9
  remove_found-Keeps p size hash (err e) h = search keeps_rules

  pub Keeps-remove_known :
      (p : Str) (size : ℤ) (hash : Str)
      → P (delete_file (clean_path p))
      → Keeps {E = E} P Q (remove_known p size hash)
  unfolding remove_known
  Keeps-remove_known p size hash h =
      search (keeps_rules, Keeps-stat_fresh harmless, remove_found-Keeps)

  pub Keeps-file_sha256 : (local : Str) → Keeps {E = E} P Q (file_sha256 local)
  unfolding file_sha256
  Keeps-file_sha256 local =
      Keeps-bind _ _ (Keeps-ask_result _ (Keeps-ask_harmless harmless (local_read local) refl))
        λ bytes. Keeps-pure _

  pub asks_stat : (p : Str) → Keeps {E = E} P Q (ask (local_stat p))
  asks_stat p = Keeps-ask_harmless harmless (local_stat p) refl

  asks_read : (p : Str) → Keeps {E = E} P Q (ask (local_read p))
  asks_read p = Keeps-ask_harmless harmless (local_read p) refl

  pub Keeps-random_upload_id : Keeps {E = E} P Q random_upload_id
  unfolding random_upload_id
  Keeps-random_upload_id =
      Keeps-bind _ _ (Keeps-ask_result _ (Keeps-ask_harmless harmless random_bytes refl))
        λ bytes. Keeps-pure _

  pub Keeps-upload_small :
      (local remote : Str) (t : ℕ)
      → ((part : UploadPart)
          → part.parent ≡ parent_dir remote
          → part.file_name ≡ path_base remote
          → P (upload_part part))
      → Keeps {E = E} P Q (upload_small local remote t)
  unfolding upload_small
  Keeps-upload_small local remote t h =
      Keeps-bind _ _ (Keeps-ask_result _ (asks_stat local)) λ info.
        Keeps-bind _ _ (Keeps-ask_result _ (asks_read local)) λ payload.
          Keeps-bind _ _ Keeps-random_upload_id
            λ uuid. Keeps-bind _ _ (Keeps-ask _ (h _ refl refl)) λ r. Keeps-lift _

  Keeps-upload_chunks :
      (part : ℕ → Str → UploadPart) (size chunk n index : ℕ) (left sent : Str)
      → ((i : ℕ) (payload : Str) → P (upload_part (part i payload)))
      → Keeps {E = E} P Q (upload_chunks part size chunk n index left sent)
  unfolding upload_chunks
  Keeps-upload_chunks part size chunk zero index left sent h = Keeps-pure sent
  Keeps-upload_chunks part size chunk (suc n) index left sent h =
      Keeps-bind _ _ (Keeps-guard _ _) λ _.
        Keeps-bind _ _ (Keeps-ask _ (h index _))
          λ r. Keeps-bind _ _ (Keeps-lift _) λ _. Keeps-upload_chunks part size chunk n _ _ _ h

  pub Keeps-upload_chunked :
      (local remote : Str) (t : ℕ)
      → ((part : UploadPart)
          → part.parent ≡ parent_dir remote
          → part.file_name ≡ path_base remote
          → P (upload_part part))
      → ((size : ℕ) → P (upload_session (path_base remote) size))
      → ((fields : UploadClose)
          → fields.parent ≡ parent_dir remote
          → fields.file_name ≡ path_base remote
          → P (upload_close fields))
      → Keeps {E = E} P Q (upload_chunked local remote t)
  unfolding upload_chunked chunk_part
  Keeps-upload_chunked local remote t h session_opens closes =
      Keeps-bind _ _ (Keeps-ask_result _ (asks_stat local)) λ info.
        Keeps-bind _ _ (Keeps-ask_result _ (asks_read local)) λ contents.
          Keeps-bind _ _ (Keeps-ask _ (session_opens info.size)) λ r.
            Keeps-bind _ _ (Keeps-lift _) λ session. Keeps-bind _ _ (Keeps-lift _) λ _.
              Keeps-bind _ _ (Keeps-guard _ _) λ _. Keeps-bind _ _ Keeps-random_upload_id λ uuid.
                Keeps-bind _ _ (Keeps-upload_chunks _ _ _ _ _ _ _ λ i payload. h _ refl refl)
                  λ sent. Keeps-bind _ _ (Keeps-ask _ (closes _ refl refl)) λ closed. Keeps-lift _

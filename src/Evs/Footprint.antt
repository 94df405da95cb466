-- ===== src/Evs/Footprint.antt =====
-- What UploadFile, MoveReplace and RecoverPending may ask of the remote side and of the journal.
pub mod Names
pub mod Upload
pub mod Move
pub mod Pending
use idrive_unlimited.Base.{Bool-cases, Str, [], inl, inr, true, ◌=s◌, ◌∷◌, ◌≡◌, ◌⊎◌}
use idrive_unlimited.Evs.Footprint.Names.{IsBeside, IsUploadId}
use idrive_unlimited.Evs.Journal.{backup_name, backup_prefix, stage_name, stage_prefix}
use idrive_unlimited.Evs.Types.{
  Query, UploadRecord, copy_paste, create_folder, delete_file, move_file, rename_file, save_record,
  upload_close, upload_part, upload_session,
}
use idrive_unlimited.Path.{clean_path, join_clean, parent_dir, path_base, path_join, root, slash}
use idrive_unlimited.Path.Clean.{clean_path-clean_path}

pub join_clean-clean : (a b : Str) → clean_path (join_clean a b) ≡ join_clean a b
unfolding join_clean
join_clean-clean a b = elim (Bool-cases (clean_path a =s root)) [
  | inl e ↦ rw e (clean_path-clean_path (slash ∷ b))
  | inr e ↦ rw e (clean_path-clean_path (path_join a b))
]

pub stage_name-clean : (dest id : Str) → clean_path (stage_name dest id) ≡ stage_name dest id
unfolding stage_name
stage_name-clean dest id = join_clean-clean _ _

pub backup_name-clean : (dest id : Str) → clean_path (backup_name dest id) ≡ backup_name dest id
unfolding backup_name
backup_name-clean dest id = join_clean-clean _ _

-- The record of an upload to `dest`: its id is one of randomUploadID, and its paths are the destination and the two names beside it.
pub record IsUploadOf (dest : Str) (r : UploadRecord) : Type 0 where
  pub named : IsUploadId r.id
  pub no_source : r.source ≡ []
  pub to_dest : r.dest ≡ dest
  pub staged : r.stage ≡ stage_name dest r.id
  pub backed : r.backup ≡ backup_name dest r.id

-- The mutations of an upload to `dest`: it deletes recovery names alone, renames between the
-- destination and recovery names alone, and uploads under stage names alone. A recovery name lies in
-- the folder of the destination, and is a prefix, an id of randomUploadID and an extension.
abbrev pub UploadAllows : Str → Query → Type 0
UploadAllows dest (delete_file p) =
    (id : Str) × IsUploadId id
    × (IsBeside stage_prefix dest id p ⊎ IsBeside backup_prefix dest id p)
UploadAllows dest (rename_file a b) =
    (id : Str) × IsUploadId id
    × (((a ≡ dest) × (b ≡ backup_name dest id))
        ⊎ (((a ≡ stage_name dest id) × (b ≡ dest)) ⊎ ((a ≡ backup_name dest id) × (b ≡ dest))))
UploadAllows dest (upload_part part) =
    (id : Str) × IsUploadId id
    × (part.parent ≡ parent_dir (stage_name dest id))
    × (part.file_name ≡ path_base (stage_name dest id))
UploadAllows dest (upload_session name size) =
    (id : Str) × IsUploadId id × (name ≡ path_base (stage_name dest id))
UploadAllows dest (upload_close fields) =
    (id : Str) × IsUploadId id
    × (fields.parent ≡ parent_dir (stage_name dest id))
    × (fields.file_name ≡ path_base (stage_name dest id))
UploadAllows dest (save_record r) = IsUploadOf dest r
UploadAllows dest (create_folder parent name) = ⊥
UploadAllows dest (copy_paste source folder) = ⊥
UploadAllows dest (move_file source folder) = ⊥
UploadAllows dest _ = Unit

-- The record of a move: with an id of randomUploadID, ready from the start, with a source that is not empty.
pub record IsMoveOf (source dest : Str) (r : UploadRecord) : Type 0 where
  pub named : IsUploadId r.id
  pub from_source : r.source ≡ source
  pub to_dest : r.dest ≡ dest
  pub backed : r.backup ≡ backup_name dest r.id
  pub is_ready : r.ready ≡ true

-- The mutations of a move: it deletes backups alone, in the folder of the destination and under a
-- backup's prefix, an id of randomUploadID and an extension; it renames the source to the destination, and the destination to a backup and
-- back; it uploads nothing.
abbrev pub MoveAllows : Str → Str → Query → Type 0
MoveAllows source dest (delete_file p) =
    (id : Str) × IsUploadId id × IsBeside backup_prefix dest id p
MoveAllows source dest (rename_file a b) =
    ((a ≡ source) × (b ≡ dest))
    ⊎ ((id : Str) × IsUploadId id
        × (((a ≡ dest) × (b ≡ backup_name dest id)) ⊎ ((a ≡ backup_name dest id) × (b ≡ dest))))
MoveAllows source dest (save_record r) = IsMoveOf source dest r
MoveAllows source dest (upload_part part) = ⊥
MoveAllows source dest (upload_session name size) = ⊥
MoveAllows source dest (upload_close fields) = ⊥
MoveAllows source dest (create_folder parent name) = ⊥
MoveAllows source dest (copy_paste from folder) = ⊥
MoveAllows source dest (move_file from folder) = ⊥
MoveAllows source dest _ = Unit

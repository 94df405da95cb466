-- ===== src/Webdav/FileSystem.antt =====
-- Mkdir, RemoveAll, Rename, Stat and mapError of internal/webdav/fs.go.
pub mod Renames
use idrive_unlimited.Base.{Bool, Option, Str, false, if◌then◌else◌, negate, none, some, ◌=s◌, ◌||◌}
use idrive_unlimited.Evs.Errors.{
  Error, is, not_exist, not_found, permission, read_only, sentinel, unauthorized, wrap,
}
use idrive_unlimited.Evs.Listing.{stat}
use idrive_unlimited.Evs.Monad.{
  Env, M, attempt, guard, on_option, on_result, pure, raise, when, ◌>>=◌, ◌>>◌,
}
use idrive_unlimited.Evs.Move.{move_replace}
use idrive_unlimited.Evs.Mutations.{delete, mkdir, rename}
use idrive_unlimited.Evs.Types.{Node}
use idrive_unlimited.Path.{clean_path, root}
use idrive_unlimited.Webdav.Paths.{is_protected_root_rename_path, remote_path, root_aliases}
use idrive_unlimited.Webdav.ReadCache.{FileCache, invalidate_all}

pub record FileSystem : Type 0 where
  pub top : Str
  pub cache : FileCache

-- mapError: the operation and the path are left out.
unfoldable pub map_error : Error → Error
map_error e =
    if is e not_found
    then wrap "PathError" (sentinel not_exist)
    else if is e read_only || is e unauthorized
    then wrap "PathError" (sentinel permission)
    else wrap "PathError" e

-- Whether a name is the destination of a MOVE that replaces it, where the request has one.
abbrev pub moves_to : Option Str → Str → Bool
moves_to none name = false
moves_to (some dest) name = dest =s clean_path name

module _ {E : Env} where
  unfoldable pub mapped : {A : Type 0} → M E A → M E A
  mapped m = do r ← attempt m; on_result r pure (λ e. raise (map_error e))

  unfoldable pub make_dir : FileSystem → Str → M E (Unit {0})
  make_dir f name = mapped (do p ← remote_path f.top name; mkdir p)

  unfoldable pub remove_path : FileSystem → Option Str → Str → M E (Unit {0})
  remove_path f destination name =
      if moves_to destination name
      then pure tt
      else (do invalidate_all f.cache; mapped (do p ← remote_path f.top name; delete p))

  unfoldable pub check_protected : Str → Str → M E (Unit {0})
  check_protected old_name new_name = do
    aliases ← root_aliases
    on_option aliases (pure tt) (λ a.
        guard (negate (is_protected_root_rename_path a old_name new_name))
          (wrap "PathError" (sentinel permission)))

  unfoldable pub rename_remote : FileSystem → Option Str → Str → Str → M E (Unit {0})
  rename_remote f destination old_name new_name = do
    old_path ← remote_path f.top old_name
    new_path ← remote_path f.top new_name
    if moves_to destination new_name
        then move_replace old_path new_path
        else rename old_path new_path

  unfoldable pub rename_path : FileSystem → Option Str → Str → Str → M E (Unit {0})
  rename_path f destination old_name new_name = do
    invalidate_all f.cache
    when (f.top =s root) (check_protected old_name new_name)
    mapped (rename_remote f destination old_name new_name)

  -- Stat, of which the node is kept.
  unfoldable pub stat_node : FileSystem → Str → M E Node
  stat_node f name = mapped (do p ← remote_path f.top name; stat p)

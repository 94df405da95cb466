-- ===== src/Webdav/Paths.antt =====
-- The paths of internal/webdav/fs.go: remotePath, exposedPath, the translation of the first
-- component, and isProtectedRootRenamePath.
pub mod Translate
pub mod Aliased
pub mod Rooted
pub mod Protected
use idrive_unlimited.Base.{
  Bool, List, Option, Str, [], has_prefix, if◌then◌else◌, is_empty, negate, none, some, trim_prefix,
  trim_suffix, ◌&&◌, ◌++◌, ◌==◌, ◌=s◌, ◌||◌, ◌∷◌,
}
use idrive_unlimited.Evs.Listing.{browse_cached, found}
use idrive_unlimited.Evs.Monad.{Env, M, attempt, on_option, on_result, pure, ◌>>=◌, ◌>>◌}
use idrive_unlimited.Path.{clean_path, path_join, root, slash}
use idrive_unlimited.Webdav.Aliases.{RootAliases, build_root_aliases, is_among, lookup_name}

abbrev pub before_slash : Str → Str
before_slash [] = []
before_slash (c ∷ cs) = let rest = before_slash cs in if c == slash then [] else c ∷ rest

abbrev pub from_slash : Str → Str
from_slash [] = []
from_slash (c ∷ cs) = let rest = from_slash cs in if c == slash then c ∷ cs else rest

-- splitFirstComponent
unfoldable pub split_first_component : Str → Str × Str
split_first_component path =
    let trimmed = trim_prefix (clean_path path) root in (before_slash trimmed, from_slash trimmed)

abbrev pub replaced : Option Str → Str → Str → Str
replaced none tail clean = clean
replaced (some name) tail clean = clean_path (slash ∷ name ++ tail)

-- What the two translations do with a map of names.
unfoldable pub translate : List (Str × Str) → Str → Str
translate names path =
    let clean = clean_path path in
    let (head, tail) = split_first_component clean in
    if clean =s root || is_empty head then clean else replaced (lookup_name head names) tail clean

abbrev pub resolved : RootAliases → Str → Str
resolved aliases name = elim (lookup_name name aliases.display_to_raw) [
  | none ↦ name
  | some raw ↦ raw
]

unfoldable pub is_protected_root_rename_path : RootAliases → Str → Str → Bool
is_protected_root_rename_path aliases old_name new_name =
    let (old_head, old_tail) = split_first_component old_name in
    let (new_head, new_tail) = split_first_component new_name in
    negate (is_empty old_head || is_empty new_head)
    && is_empty old_tail
    && is_among (resolved aliases old_head) aliases.protected_raw
    && (negate (resolved aliases old_head =s resolved aliases new_head)
        || negate (is_empty new_tail))

module _ {E : Env} where
  -- none where the listing of the root fails.
  unfoldable pub root_aliases : M E (Option RootAliases)
  root_aliases = do
    nodes ← attempt (browse_cached root)
    on_result nodes (λ found. pure (some (build_root_aliases found))) (λ e. pure none)

  unfoldable pub translate_root_display_to_raw : Str → M E Str
  translate_root_display_to_raw path = if clean_path path =s root then pure root else do
    aliases ← root_aliases
    on_option aliases (pure (clean_path path)) (λ a. pure (translate a.display_to_raw path))

  unfoldable pub translate_root_raw_to_display : Str → M E Str
  translate_root_raw_to_display path = if clean_path path =s root then pure root else do
    aliases ← root_aliases
    on_option aliases (pure (clean_path path)) (λ a. pure (translate a.raw_to_display path))

-- remotePath below a root that is not "/".
unfoldable pub rooted_remote : Str → Str → Str
rooted_remote base name =
    let clean = clean_path name in
    if clean =s root then base else clean_path (path_join base (trim_prefix clean root))

-- exposedPath below a root that is not "/".
unfoldable pub rooted_exposed : Str → Str → Str
rooted_exposed base path =
    let clean = clean_path path in
    let prefix = trim_suffix base root ++ root in
    if clean =s base
    then root
    else if has_prefix clean prefix
    then clean_path (slash ∷ trim_prefix clean prefix)
    else clean

module _ {E : Env} where
  -- remotePath, over the root of the FileSystem.
  unfoldable pub remote_path : Str → Str → M E Str
  remote_path base name =
      if base =s root
      then translate_root_display_to_raw (clean_path name)
      else pure (rooted_remote base name)

  unfoldable pub exposed_path : Str → Str → M E Str
  exposed_path base path =
      if base =s root
      then translate_root_raw_to_display (clean_path path)
      else pure (rooted_exposed base path)

-- ===== src/Webdav/Maintenance.antt =====
-- internal/webdav/maintenance.go: pruneFiles with its limits, removeRetainedFile, and retainUpload.
-- maintenanceMu and recoveryMu are held throughout, so the pinned paths stay as they are.
pub mod Safe
pub mod Totals
pub mod Budget
pub mod Asks
pub mod Listed
use idrive_unlimited.Base.{
  Bool, List, Option, Str, [], codes, false, has_prefix, has_suffix, if◌then◌else◌, leb, ltb,
  negate, negsuc, none, parse_int, pos, some, suc, trim_suffix, zero, ℕ, ℤ, ◌&&◌, ◌++◌, ◌+◌, ◌-◌,
  ◌=s◌, ◌||◌, ◌∷◌,
}
use idrive_unlimited.Evs.Errors.{Result, err, is, message, not_exist, ok}
use idrive_unlimited.Evs.Files.{
  FileInfo, FileOp, WalkEntry, cache_pins, entry_info, env_value, remove_file, stat_file, walk_dir,
}
use idrive_unlimited.Evs.Monad.{
  Env, M, ask, attempt, on_option, on_result, pure, raise, when, ◌>>=◌, ◌>>◌,
}
use idrive_unlimited.Evs.Transfer.{ask_result}
use idrive_unlimited.Evs.Types.{clock, on_disk}
use idrive_unlimited.Path.{path_base, root}

abbrev pub default_cache_bytes : ℕ
default_cache_bytes = 4294967296

-- Times in nanoseconds.
abbrev pub retention_age : ℕ
retention_age = 604800000000000

abbrev pub one_day : ℕ
one_day = 86400000000000

abbrev pub json_ext : Str
json_ext = codes ".json"

abbrev positive_or_default : Option ℤ → ℕ
positive_or_default none = default_cache_bytes
positive_or_default (some (pos zero)) = default_cache_bytes
positive_or_default (some (pos (suc n))) = suc n
positive_or_default (some (negsuc n)) = default_cache_bytes

unfoldable pub is_recovery_blob : Str → Bool
is_recovery_blob name =
    has_prefix (path_base name) (codes "upload-") && has_suffix name (codes ".bin")

-- The name of a file that describes a recovery blob.
unfoldable pub is_blob_metadata : Str → Bool
is_blob_metadata name =
    has_prefix (path_base name) (codes "upload-") && has_suffix (path_base name) (codes ".bin.json")

abbrev pub is_member : Str → List Str → Bool
is_member p [] = false
is_member p (q ∷ qs) = q =s p || is_member p qs

-- The requested file and the pinned ones are not to be removed.
unfoldable pub is_immune : Str → List Str → Str → Bool
is_immune protected pins p = p =s protected || is_member p pins

abbrev any_below : Str → List Str → Bool
any_below dir [] = false
any_below dir (p ∷ ps) = has_prefix p (dir ++ root) || any_below dir ps

-- Whether a directory holds the requested file or a pinned one.
unfoldable pub holds_immune : Str → List Str → Str → Bool
holds_immune protected pins dir = has_prefix protected (dir ++ root) || any_below dir pins

pub record Item : Type 0 where
  pub path : Str
  pub size : ℕ
  pub mtime : ℕ

-- What the walk has gathered; the directories in reverse.
pub record Found : Type 0 where
  pub files : List Item
  pub directories : List Str
  pub total : ℕ

abbrev pub nothing_found : Found
nothing_found = record { files = []; directories = []; total = 0 }

abbrev pub with_file : Str → ℕ → FileInfo → Found → Found
with_file p size info v = record v {
  files = record { path = p; size = size; mtime = info.mtime } ∷ v.files;
  total = v.total + size;
}

-- sort.Slice by modification time.
unfoldable pub insert_by_time : Item → List Item → List Item
insert_by_time f [] = f ∷ []
insert_by_time f (g ∷ gs) =
    let rest = insert_by_time f gs in if ltb g.mtime f.mtime then g ∷ rest else f ∷ g ∷ gs

unfoldable pub sort_by_time : List Item → List Item
sort_by_time [] = []
sort_by_time (f ∷ fs) = insert_by_time f (sort_by_time fs)

module _ {E : Env} where
  -- A call whose error the code does not look at.
  unfoldable pub ignoring : FileOp → M E (Unit {0})
  ignoring op = do _ ← ask (on_disk op); pure tt

  unfoldable pub configured_bytes : Str → M E ℕ
  configured_bytes name = do
    raw ← ask (on_disk (env_value name))
    pure (positive_or_default (parse_int raw))

  unfoldable pub missing_is_fine : Result (Unit {0}) → M E (Unit {0})
  missing_is_fine (ok _) = pure tt
  missing_is_fine (err e) = if is e not_exist then pure tt else raise e

  unfoldable pub remove_retained_file : Str → M E (Unit {0})
  remove_retained_file name = do
    ask_result (ask (on_disk (remove_file name)))
    when (is_recovery_blob name)
        (do r ← ask (on_disk (remove_file (name ++ json_ext))); missing_is_fine r)

  -- A blob counts with its metadata.
  unfoldable pub size_with_metadata : Str → ℕ → M E ℕ
  size_with_metadata p size =
      if is_recovery_blob p
      then (do
        meta ← ask (on_disk (stat_file (p ++ json_ext)))
        on_result meta (λ m. pure (if m.regular then size + m.size else size)) (λ _. pure size))
      else pure size

  unfoldable pub is_recent_download : Str → ℕ → M E Bool
  is_recent_download p mtime =
      if has_prefix (path_base p) (codes "download-")
      then (do now ← ask clock; pure (ltb now (mtime + one_day)))
      else pure false

  unfoldable pub is_outdated : Str → List Str → ℕ → Str → ℕ → M E Bool
  is_outdated protected pins max_age p mtime =
      if is_immune protected pins p
      then pure false
      else (do now ← ask clock; pure (ltb (mtime + max_age) now))

  unfoldable pub drop_orphan : Str → M E (Unit {0})
  drop_orphan p = do
    blob ← ask (on_disk (stat_file (trim_suffix p json_ext)))
    on_result blob (λ _. pure tt) (λ e. when (is e not_exist) (ignoring (remove_file p)))

  -- The file is removed if it is outdated, and else, or where that fails, counted.
  unfoldable pub remove_outdated : Str → List Str → ℕ → Str → ℕ → FileInfo → Found → M E Found
  remove_outdated protected pins max_age p size info v = do
    outdated ← is_outdated protected pins max_age p info.mtime
    removed ← attempt (if outdated then remove_retained_file p else raise (message "still wanted"))
    on_result removed (λ _. pure v) (λ _. pure (with_file p size info v))

  -- A regular file that is no metadata.
  unfoldable pub visit_file : Str → List Str → ℕ → Str → FileInfo → Found → M E Found
  visit_file protected pins max_age p info v = do
    size ← size_with_metadata p info.size
    recent ← is_recent_download p info.mtime
    if recent then pure v else remove_outdated protected pins max_age p size info v

  unfoldable pub visit_info : Str → List Str → ℕ → Str → Found → Result FileInfo → M E Found
  visit_info protected pins max_age p v (err e) = if is e not_exist then pure v else raise e
  visit_info protected pins max_age p v (ok info) =
      if negate info.regular
      then pure v
      else if is_blob_metadata p
      then (do drop_orphan p; pure v)
      else visit_file protected pins max_age p info v

  -- The function that pruneFiles passes to filepath.WalkDir.
  unfoldable pub visit : Str → Str → List Str → ℕ → WalkEntry → Found → M E Found
  visit top protected pins max_age entry v =
      on_option entry.walk_error
        (if entry.is_dir
          then pure (
              if entry.path =s top
              then v
              else record v { directories = entry.path ∷ v.directories })
          else if entry.symlink
          then pure v
          else (do
            info ← ask (on_disk (entry_info entry.path))
            visit_info protected pins max_age entry.path v info))
        λ e. if is e not_exist then pure v else raise e

  unfoldable pub visit_all : Str → Str → List Str → ℕ → List WalkEntry → Found → M E Found
  visit_all top protected pins max_age [] v = pure v
  visit_all top protected pins max_age (entry ∷ entries) v = do
    seen ← visit top protected pins max_age entry v
    visit_all top protected pins max_age entries seen

  -- One file of the loop that removes the oldest, and the total behind it.
  unfoldable pub evict_one : Str → List Str → Item → ℕ → M E ℕ
  evict_one protected pins f total = if is_immune protected pins f.path then pure total else (do
    removed ← attempt (remove_retained_file f.path)
    on_result removed (λ _. pure (total - f.size)) (λ _. pure total))

  -- The result is the total at the end of the loop.
  unfoldable pub evict : Str → List Str → ℕ → List Item → ℕ → M E ℕ
  evict protected pins max_bytes [] total = pure total
  evict protected pins max_bytes (f ∷ files) total =
      if leb total max_bytes
      then pure total
      else (do left ← evict_one protected pins f total; evict protected pins max_bytes files left)

  unfoldable pub remove_empty : Str → List Str → List Str → M E (Unit {0})
  remove_empty protected pins [] = pure tt
  remove_empty protected pins (dir ∷ dirs) = do
    when (negate (holds_immune protected pins dir)) (ignoring (remove_file dir))
    remove_empty protected pins dirs

  unfoldable pub prune_unpinned : Str → Str → List Str → ℕ → ℕ → M E (Unit {0})
  prune_unpinned top protected pins max_bytes max_age = do
    entries ← ask (on_disk (walk_dir top))
    v ← visit_all top protected pins max_age entries nothing_found
    evict protected pins max_bytes (sort_by_time v.files) v.total
    remove_empty protected pins v.directories

  unfoldable pub prune_files : Str → Str → ℕ → ℕ → M E (Unit {0})
  prune_files top protected max_bytes max_age = do
    pins ← ask (on_disk cache_pins)
    prune_unpinned top protected pins max_bytes max_age

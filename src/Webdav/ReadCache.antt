-- ===== src/Webdav/ReadCache.antt =====
-- fileCache of internal/webdav/cache.go: the names of cached files, Ensure and the download that
-- fills the cache.
pub mod Fill
pub mod Cleanup
use idrive_unlimited.Base.{
  Bool, Option, Str, [], codes, contains_any, false, hex_encode, if◌then◌else◌, is_empty, is_some,
  join, leb, length, ltb, negate, negsuc, none, pos, some, suc, true, zero, ℕ, ℤ, ◌%◌, ◌&&◌, ◌++◌,
  ◌+◌, ◌/◌, ◌==◌, ◌=ℤ◌, ◌||◌, ◌∷◌,
}
use idrive_unlimited.Evs.Errors.{Error, Result, canceled, err, is, message, not_exist, ok}
use idrive_unlimited.Evs.Files.{
  FileInfo, close_file, create_temp, lstat, make_dirs, open_file, pin_path, remove_all, remove_file,
  rename_local, touch, unpin_path,
}
use idrive_unlimited.Evs.Listing.{check_context}
use idrive_unlimited.Evs.Monad.{
  Env, M, ask, attempt, guard, lift, on_option, on_result, pure, raise, ◌>>=◌, ◌>>◌,
}
use idrive_unlimited.Evs.Transfer.{ask_result, download_to_file}
use idrive_unlimited.Evs.Types.{Node, clock, context_error, on_disk}
use idrive_unlimited.Path.{clean_path, path_dir, path_ext, path_join}
use idrive_unlimited.Webdav.Discard.{or_discard}
use idrive_unlimited.Webdav.Maintenance.{configured_bytes, ignoring, prune_files, retention_age}
use idrive_unlimited.Webdav.WriteState.Whole.{fits}

pub record FileCache : Type 0 where
  pub root_dir : Str
  pub namespace : Str

-- strconv.FormatInt in base 10; 20 digits are enough for an int64.
abbrev decimal_of : ℕ → ℕ → Str
decimal_of zero n = []
decimal_of (suc fuel) n =
    let rest = decimal_of fuel (n / 10) in (if ltb n 10 then [] else rest) ++ (b'0' + n % 10) ∷ []

unfoldable pub format_int : ℤ → Str
format_int (pos n) = decimal_of 20 n
format_int (negsuc n) = b'-' ∷ decimal_of 20 (n + 1)

-- Seconds since 1970; Go's zero time is the first of January of the year 1.
abbrev pub unix_of : Option ℕ → ℤ
unix_of none = negsuc 62135596799
unix_of (some seconds) = pos seconds

abbrev is_ext_byte : ℕ → Bool
is_ext_byte c =
    c == b'.'
    || c == b'-'
    || c == b'_'
    || (leb b'a' c && leb c b'z')
    || (leb b'A' c && leb c b'Z')
    || (leb b'0' c && leb c b'9')

abbrev all_ext_bytes : Str → Bool
all_ext_bytes [] = true
all_ext_bytes (c ∷ cs) = is_ext_byte c && all_ext_bytes cs

unfoldable pub safe_ext : Str → Str
safe_ext remote =
    let ext = path_ext (clean_path remote) in
    if is_empty ext || ltb 16 (length ext) || contains_any ext (codes "/\\")
    then []
    else if all_ext_bytes ext
    then ext
    else []

-- pathDir, over the hash function.
unfoldable pub path_dir_of : (Str → Str) → FileCache → Str → Str
path_dir_of hash c remote =
    path_join (path_join c.root_dir c.namespace) (hex_encode (hash (clean_path remote)))

-- The text whose hash names a cached file; `period` is time.Now().Unix() / 300.
unfoldable pub cache_key : Str → Node → ℕ → Str
cache_key remote node period = join b'|' (
    clean_path remote
    ∷ format_int node.size
    ∷ format_int (unix_of node.mod_time)
    ∷ node.version
    ∷ format_int (pos period)
    ∷ [])

unfoldable pub target_path : (Str → Str) → FileCache → Str → Node → ℕ → Str
target_path hash c remote node period =
    path_join (path_dir_of hash c remote)
      (hex_encode (hash (cache_key remote node period)) ++ safe_ext remote)

module _ {E : Env} where
  unfoldable pub invalidate : FileCache → Str → M E (Unit {0})
  invalidate c remote = ask_result (ask (on_disk (remove_all (path_dir_of E.sha256 c remote))))

  unfoldable pub invalidate_all : FileCache → M E (Unit {0})
  invalidate_all c = ask_result (ask (on_disk (remove_all (path_join c.root_dir c.namespace))))

  unfoldable pub file_fits : ℤ → Result FileInfo → M E Bool
  file_fits expected (ok info) = do
    guard info.regular (message "cache path is not a regular file")
    pure (pos info.size =ℤ expected)
  file_fits expected (err e) = if is e not_exist then pure false else raise e

  unfoldable pub cache_file_valid : Str → ℤ → M E Bool
  cache_file_valid local expected = do info ← ask (on_disk (lstat local)); file_fits expected info

  unfoldable pub prune_cache : FileCache → Str → M E (Unit {0})
  prune_cache c target = do
    max_bytes ← configured_bytes (codes "IDRIVE_GATEWAY_CACHE_MAX_BYTES")
    prune_files c.root_dir target max_bytes retention_age

  -- A rename that failed: another download may have taken the place.
  unfoldable pub published_by_other : Str → Node → Str → Error → M E Str
  published_by_other target node temp cause = do
    again ← attempt (cache_file_valid target node.size)
    ignoring (remove_file temp)
    on_result again (λ fits. if fits then pure target else raise cause) (λ _. raise cause)

  unfoldable pub publish : FileCache → Str → Node → Str → M E Str
  publish c target node temp = do
    renamed ← ask (on_disk (rename_local temp target))
    on_result renamed (λ _. do _ ← attempt (prune_cache c target); pure target)
        (published_by_other target node temp)

  -- fill from the creation of the temporary file on.
  unfoldable pub fill_temp : FileCache → Str → Node → Str → Str → M E Str
  fill_temp c remote node target temp = do
    or_discard false temp (ask_result (ask (on_disk (close_file temp))))
    or_discard false temp (download_to_file remote temp)
    or_discard false temp (do
      fits ← cache_file_valid temp node.size
      guard fits (message "cached download size mismatch"))
    publish c target node temp

  unfoldable pub fill_missing : FileCache → Str → Node → Str → M E Str
  fill_missing c remote node target = do
    ask_result (ask (on_disk (make_dirs (path_dir target))))
    temp ←
        ask_result
          (ask (on_disk (create_temp (path_dir target) (codes "download-*" ++ safe_ext remote))))
    fill_temp c remote node target temp

  unfoldable pub fill : FileCache → Str → Node → Str → M E Str
  fill c remote node target = do
    check_context
    valid ← cache_file_valid target node.size
    if valid then pure target else fill_missing c remote node target

  -- What waiting for the download of another request gives.
  unfoldable pub after_flight : FileCache → Str → Node → Str → Result Str → M E Str
  after_flight c remote node target r = do
    waiting ← ask context_error
    on_option waiting
        (do
          ended ← ask context_error
          on_result r pure λ e.
              if negate (is_some ended) && is e canceled
              then fill c remote node target
              else raise e)
        raise

  -- ensure; `other` is the outcome of another request's download of the target, if one is in
  -- progress.
  unfoldable pub ensure : FileCache → Str → Node → Str → Option (Result Str) → M E Str
  ensure c remote node target other = do
    prune_cache c target
    valid ← cache_file_valid target node.size
    if valid
        then (do ignoring (touch target); pure target)
        else on_option other (fill c remote node target) (after_flight c remote node target)

  -- An action on the target's path, which is pinned meanwhile.
  unfoldable pub pinned : {A : Type 0} → Str → M E A → M E A
  pinned target m = do
    _ ← ask (on_disk (pin_path target))
    r ← attempt m
    _ ← ask (on_disk (unpin_path target))
    lift r

  unfoldable pub current_target : FileCache → Str → Node → M E Str
  current_target c remote node = do
    now ← ask clock
    pure (target_path E.sha256 c remote node (now / 300000000000))

  -- Ensure
  unfoldable pub ensure_pinned : FileCache → Str → Node → Option (Result Str) → M E Str
  ensure_pinned c remote node other = do
    check_context
    target ← current_target c remote node
    pinned target (ensure c remote node target other)

  -- Open
  unfoldable pub open_cached : FileCache → Str → Node → Option (Result Str) → M E Str
  open_cached c remote node other = do
    target ← current_target c remote node
    pinned target (do
      local ← ensure c remote node target other
      ask_result (ask (on_disk (open_file local)))
      pure local)

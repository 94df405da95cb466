-- ===== src/Evs/Mutations.antt =====
-- Mkdir, Rename, Copy, Move, Delete and waitForPathState of internal/evs/client.go.
use idrive_unlimited.Base.{
  Bool, List, Option, Str, [], false, has_prefix, if◌then◌else◌, ltb, negate, none, some, suc, true,
  zero, ℕ, ◌++◌, ◌+◌, ◌=s◌, ◌||◌, ◌∷◌,
}
use idrive_unlimited.Evs.Api.{check_success, post_form, post_form_raw}
use idrive_unlimited.Evs.Cache.{invalidate_paths}
use idrive_unlimited.Evs.Errors.{
  Result, err, exist, invalid, is, join_errors, message, not_found, ok, read_only, sentinel,
  unsupported_path,
}
use idrive_unlimited.Evs.Listing.{protect_device_root, require_writable, stat_fresh}
use idrive_unlimited.Evs.Monad.{
  Env, M, ask, attempt, guard, lift, on_option, pure, raise, when, ◌>>=◌, ◌>>◌,
}
use idrive_unlimited.Evs.Types.{
  ApiReply, Node, Response, clock, copy_paste, create_folder, delete_file, move_file, rename_file,
  sleep,
}
use idrive_unlimited.Path.{clean_path, join_clean, mutable_path, parent_dir, path_base, root}

-- The outcome of a StatFresh that looks for a free name.
unfoldable pub absent : Result Node → Result (Unit {0})
absent (ok node) = err (sentinel exist)
absent (err e) = if is e not_found then ok tt else err e

abbrev pub mutable : Str → Result (Unit {0})
mutable name = if mutable_path name then ok tt else err (sentinel unsupported_path)

-- The end of one round of waitForPathState: `some` ends the loop.
unfoldable pub wait_outcome : Bool → Result Node → Option (Result (Unit {0}))
wait_outcome wanted (ok node) = if wanted then some (ok tt) else none
wait_outcome wanted (err e) =
    if is e not_found then (if wanted then none else some (ok tt)) else some (err e)

module _ {E : Env} where
  -- errors.Join of two checks, both of them made.
  unfoldable pub join_checks : M E (Unit {0}) → M E (Unit {0}) → M E (Unit {0})
  join_checks m n = do a ← attempt m; b ← attempt n; lift (join_errors a b)

  -- A deferred call of invalidatePaths, which runs whether or not the action failed.
  unfoldable pub with_invalidation : List Str → M E (Unit {0}) → M E (Unit {0})
  with_invalidation paths m = do result ← attempt m; invalidate_paths paths; lift result

  unfoldable pub require_absent : Str → M E (Unit {0})
  require_absent name = do target ← attempt (stat_fresh name); lift (absent target)

  -- A postForm with its last test.
  unfoldable pub checked : Response ApiReply → M E (Unit {0})
  checked r = do answer ← lift (post_form r); lift (check_success answer)

  unfoldable pub mkdir : Str → M E (Unit {0})
  mkdir remote = do
    let clean = clean_path remote
    lift (mutable clean)
    guard (negate (clean =s root)) (sentinel exist)
    require_absent clean
    require_writable clean
    with_invalidation (parent_dir clean ∷ clean ∷ []) (do
      r ← ask (create_folder (parent_dir clean) (path_base clean))
      checked r
      invalidate_paths (parent_dir clean ∷ clean ∷ []))

  -- Rename from the test of its paths on.
  unfoldable pub rename_clean : Str → Str → M E (Unit {0})
  rename_clean old new = do
    guard (negate (old =s root || new =s root)) (message "cannot rename the root directory")
    join_checks (require_writable old) (require_writable new)
    protect_device_root old
    require_absent new
    with_invalidation (parent_dir old ∷ parent_dir new ∷ old ∷ new ∷ [])
        (do r ← ask (rename_file old new); checked r)

  unfoldable pub rename : Str → Str → M E (Unit {0})
  rename old_path new_path = do
    let old = clean_path old_path
    let new = clean_path new_path
    lift (join_errors (mutable old) (mutable new))
    if old =s new then pure tt else rename_clean old new

  unfoldable pub delete : Str → M E (Unit {0})
  delete remote = do
    let clean = clean_path remote
    lift (mutable clean)
    guard (negate (clean =s root)) (message "cannot delete the root directory")
    require_writable clean
    protect_device_root clean
    with_invalidation (parent_dir clean ∷ clean ∷ []) (do
      r ← ask (delete_file clean)
      lift (post_form_raw r)
      invalidate_paths (parent_dir clean ∷ clean ∷ []))

  unfoldable pub wait_rounds : ℕ → Str → Bool → ℕ → M E (Unit {0})
  wait_rounds zero remote wanted deadline = raise (message "waiting rounds")
  wait_rounds (suc rounds) remote wanted deadline = do
    seen ← attempt (stat_fresh remote)
    let more = wait_rounds rounds remote wanted deadline
    on_option (wait_outcome wanted seen)
        (do
          now ← ask clock
          if ltb deadline now
              then raise (message "timed out waiting")
              else do slept ← ask sleep; on_option slept more raise)
        lift

  -- 45 seconds in rounds that sleep for one second, in nanoseconds.
  unfoldable pub wait_for_path_state : Str → Bool → M E (Unit {0})
  wait_for_path_state remote wanted = do
    now ← ask clock
    wait_rounds 47 remote wanted (now + 45000000000)

  -- The tests that Copy and Move share, from the target on.
  unfoldable pub paste : Bool → Str → Str → M E (Unit {0})
  paste moving source dest = do
    let target = join_clean dest (path_base source)
    let touched = parent_dir source ∷ dest ∷ source ∷ target ∷ []
    require_absent target
    with_invalidation touched (do
      if moving
          then (do r ← ask (move_file source dest); lift (post_form_raw r))
          else (do r ← ask (copy_paste source dest); lift (post_form_raw r))
      invalidate_paths touched
      wait_for_path_state target true
      when moving (wait_for_path_state source false)
      invalidate_paths (if moving then touched else dest ∷ target ∷ []))

  unfoldable pub copy : Str → Str → M E (Unit {0})
  copy source_path dest_dir = do
    let source = clean_path source_path
    let dest = clean_path dest_dir
    lift (join_errors (mutable source) (mutable dest))
    guard (negate (dest =s source || has_prefix dest (source ++ root))) (sentinel invalid)
    guard (negate (source =s root)) (sentinel read_only)
    join_checks (require_writable source) (require_writable dest)
    paste false source dest

  unfoldable pub move : Str → Str → M E (Unit {0})
  move source_path dest_dir = do
    let source = clean_path source_path
    let dest = clean_path dest_dir
    lift (join_errors (mutable source) (mutable dest))
    guard (negate (dest =s source || has_prefix dest (source ++ root))) (sentinel invalid)
    protect_device_root source
    join_checks (require_writable source) (require_writable dest)
    paste true source dest

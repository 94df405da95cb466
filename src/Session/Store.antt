-- ===== src/Session/Store.antt =====
-- Store of internal/session/store.go: a session is read from its file, and written to it under a
-- lock between processes.
pub mod Current
pub mod Saves
use idrive_unlimited.Base.{
  Bool, List, Option, Str, codes, false, hex_encode, if◌then◌else◌, is_empty, leb, length, negate,
  none, some, true, ℕ, ◌&&◌, ◌*◌, ◌++◌, ◌+◌, ◌==◌, ◌=s◌, ◌^◌,
}
use idrive_unlimited.Evs.Errors.{Error, Result, err, message, ok}
use idrive_unlimited.Evs.Files.{
  lock_file, make_dirs, read_at_most, stat_file, unlock_file, write_atomic,
}
use idrive_unlimited.Evs.Journal.{wrapped}
use idrive_unlimited.Evs.Monad.{Env, M, ask, attempt, guard, lift, pure, ◌>>=◌, ◌>>◌}
use idrive_unlimited.Evs.Transfer.{ask_result}
use idrive_unlimited.Evs.Types.{clock, on_disk}
use idrive_unlimited.Path.{path_dir}

-- `expires` is `none` for Go's zero time.
pub record Cookie : Type 0 where
  pub cookie_name : Str
  pub cookie_value : Str
  pub cookie_path : Str
  pub domain : Str
  pub expires : Option ℕ
  pub secure : Bool
  pub http_only : Bool
  pub origin_host : Str

-- `saved_at` is an instant, `none` for Go's zero time.
pub record Data : Type 0 where
  pub session_id : Str
  pub server_host : Str
  pub saved_at : Option ℕ
  pub cookies : List Cookie

-- Package encoding/json: json.Unmarshal into a Data, json.MarshalIndent of one, and json.Marshal
-- of a server host and cookies.
pub record Json : Type 0 where
  pub decode : Str → Option Data
  pub encode : Data → Result Str
  pub encode_login : Str → List Cookie → Str

-- 4 << 20
abbrev pub session_limit : ℕ
session_limit = 4 * 2 ^ 20

unfoldable pub decoded_session : Option Data → Result Data
decoded_session none = err (message "decode session file")
decoded_session (some saved) = ok saved

abbrev same_instant : Option ℕ → Option ℕ → Bool
same_instant none none = true
same_instant (some a) (some b) = a == b
same_instant none (some b) = false
same_instant (some a) none = false

-- Whether two sessions are one login, saved at one time.
unfoldable pub same_revision : Data → Data → Bool
same_revision old expected =
    old.session_id =s expected.session_id
    && old.server_host =s expected.server_host
    && same_instant old.saved_at expected.saved_at

abbrev pub session_changed : Error
session_changed = message "saved session changed; old server session was not persisted"

-- The session as it is written, at a time.
unfoldable pub stamped : Json → (Str → Str) → Data → ℕ → Data
stamped json sha256 saved now = record saved {
  session_id =
      if is_empty saved.session_id
      then hex_encode (sha256 (json.encode_login saved.server_host saved.cookies))
      else saved.session_id;
  saved_at = some now;
}

abbrev pub lock_name : Str → Str
lock_name path = path ++ codes ".lock"

module _ {E : Env} (json : Json) where
  unfoldable pub load : Str → M E Data
  load path = do
    info ← ask_result (ask (on_disk (stat_file path)))
    guard info.regular (message "session file must be regular")
    raw ← ask_result (ask (on_disk (read_at_most path (session_limit + 1))))
    guard (leb (length raw) session_limit) (message "session file exceeds 4 MiB")
    saved ← lift (decoded_session (json.decode raw))
    guard (negate (is_empty saved.server_host)) (message "session file is missing server_host")
    pure saved

  -- The file has to hold the session that a running server began with.
  unfoldable pub check_current : Str → Option Data → M E (Unit {0})
  check_current path none = pure tt
  check_current path (some expected) = do
    old ← load path
    guard (same_revision old expected) session_changed

  -- What is done under the lock: the session as it was written.
  unfoldable pub save_locked : Str → Data → Option Data → M E Data
  save_locked path saved expected = do
    check_current path expected
    now ← ask clock
    payload ← lift (wrapped "encode session file" (json.encode (stamped json E.sha256 saved now)))
    ask_result (ask (on_disk (write_atomic path payload)))
    pure (stamped json E.sha256 saved now)

  -- save, of data that are not nil, with its deferred Close of the lock.
  unfoldable pub save_session : Str → Data → Option Data → M E Data
  save_session path saved expected = do
    guard (negate (is_empty saved.server_host)) (message "session data is missing server_host")
    ask_result (ask (on_disk (make_dirs (path_dir path))))
    ask_result (ask (on_disk (lock_file (lock_name path))))
    outcome ← attempt (save_locked path saved expected)
    closed ← ask (on_disk (unlock_file (lock_name path)))
    lift outcome

  -- Save, SaveCurrent and SaveLoaded.
  unfoldable pub save_new : Str → Data → M E Data
  save_new path saved = save_session path saved none

  unfoldable pub save_current : Str → Data → M E Data
  save_current path saved = save_session path saved (some saved)

  unfoldable pub save_loaded : Str → Data → Data → M E Data
  save_loaded path saved loaded = save_session path saved (some loaded)

-- ===== src/Evs/Files.antt =====
-- The calls of packages os, io, path/filepath and of internal/atomicfile with which
-- internal/webdav/fs.go, cache.go and maintenance.go, DownloadToFile of internal/evs/client.go and
-- internal/session/store.go work on local files, with their answers. An open file is known by its
-- path. `read_at_most` is os.Open, io.ReadAll of an io.LimitReader and Close, and `lock_file` is
-- Acquire of internal/processlock.
use idrive_unlimited.Base.{Bool, List, Option, Str, ℕ}
use idrive_unlimited.Evs.Errors.{Error, Result}

pub record FileInfo : Type 0 where
  pub regular : Bool
  pub size : ℕ
  pub mtime : ℕ

-- What filepath.WalkDir passes to its function for one path.
pub record WalkEntry : Type 0 where
  pub path : Str
  pub walk_error : Option Error
  pub is_dir : Bool
  pub symlink : Bool

pub data FileOp : Type 0 where
  lstat : Str → FileOp
  stat_file : Str → FileOp
  make_dirs : Str → FileOp
  create_temp : Str → Str → FileOp
  create_file : Str → FileOp
  open_file : Str → FileOp
  write_file : Str → Str → FileOp
  copy_file : Str → Str → FileOp
  sync_file : Str → FileOp
  close_file : Str → FileOp
  offset_of : Str → FileOp
  seek_start : Str → FileOp
  seek_end : Str → FileOp
  truncate_file : Str → FileOp
  rename_local : Str → Str → FileOp
  remove_file : Str → FileOp
  remove_all : Str → FileOp
  touch : Str → FileOp
  walk_dir : Str → FileOp
  entry_info : Str → FileOp
  write_atomic : Str → Str → FileOp
  marshal_retained : Str → Error → FileOp
  env_value : Str → FileOp
  user_cache_dir : FileOp
  temp_dir : FileOp
  cache_pins : FileOp
  pin_path : Str → FileOp
  unpin_path : Str → FileOp
  read_at_most : Str → ℕ → FileOp
  lock_file : Str → FileOp
  unlock_file : Str → FileOp

-- A write tells how many bytes were written, and an error if there was one.
abbrev pub FileAnswer : FileOp → Type 0
FileAnswer (lstat p) = Result FileInfo
FileAnswer (stat_file p) = Result FileInfo
FileAnswer (create_temp dir pattern) = Result Str
FileAnswer (write_file p bytes) = ℕ × Option Error
FileAnswer (offset_of p) = Result ℕ
FileAnswer (walk_dir p) = List WalkEntry
FileAnswer (entry_info p) = Result FileInfo
FileAnswer (marshal_retained remote cause) = Result Str
FileAnswer (env_value name) = Str
FileAnswer user_cache_dir = Result Str
FileAnswer temp_dir = Str
FileAnswer cache_pins = List Str
FileAnswer (pin_path p) = Unit
FileAnswer (unpin_path p) = Unit
FileAnswer (read_at_most p n) = Result Str
FileAnswer _ = Result (Unit {0})

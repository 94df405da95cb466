-- ===== src/Tests/Service.antt =====
-- A service in memory: files of the root by name, one local file, a clock that ticks.
use idrive_unlimited.Base.{
  List, Option, Str, [], codes, false, if◌then◌else◌, length, none, some, suc, true, zero, ℕ, ◌++◌,
  ◌+◌, ◌=s◌, ◌∷◌,
}
use idrive_unlimited.Evs.Errors.{invalid, ok, sentinel}
use idrive_unlimited.Evs.Files.{
  FileAnswer, FileOp, WalkEntry, cache_pins, close_file, copy_file, create_file, create_temp,
  entry_info, env_value, lock_file, lstat, make_dirs, marshal_retained, offset_of, open_file,
  pin_path, read_at_most, remove_all, remove_file, rename_local, seek_end, seek_start, stat_file,
  sync_file, temp_dir, touch, truncate_file, unlock_file, unpin_path, user_cache_dir, walk_dir,
  write_atomic, write_file,
}
use idrive_unlimited.Evs.Monad.{Client, Env, World}
use idrive_unlimited.Evs.Types.{
  Answer, ApiReply, BrowseContent, Download, Query, Response, UploadRecord, browse, clock,
  context_error, copy_paste, create_folder, delete_file, download, journal_info, journal_read,
  local_read, local_stat, move_file, on_disk, pick, random_bytes, read_journal, remove_record,
  rename_file, reply, save_record, sleep, streamed, sync_journal, upload_close, upload_part,
  upload_session,
}
use idrive_unlimited.Evs.Upload.{no_tx}
use idrive_unlimited.Path.{join_clean, parent_dir, path_base}

pub record Disk : Type 0 where
  pub files : List (Str × Str)
  pub local : Str
  pub ticks : ℕ
  pub records : List UploadRecord

abbrev pub remote_file : Str → List (Str × Str) → Option Str
remote_file p [] = none
remote_file p ((q, bytes) ∷ files) = if q =s p then some bytes else remote_file p files

abbrev pub without_file : Str → List (Str × Str) → List (Str × Str)
without_file p [] = []
without_file p ((q, bytes) ∷ files) =
    let rest = without_file p files in if q =s p then rest else (q, bytes) ∷ rest

-- One digit is enough for the sizes here.
abbrev pub digit : ℕ → Str
digit n = (b'0' + n) ∷ []

abbrev pub entry_of : Str × Str → BrowseContent
entry_of (p, bytes) = record {
  is_dir = false;
  name = path_base p;
  size = digit (length bytes);
  version = [];
  lmd = [];
  save_time = [];
}

abbrev pub listing : Str → List (Str × Str) → List BrowseContent
listing folder [] = []
listing folder ((p, bytes) ∷ files) =
    let rest = listing folder files in
    if parent_dir p =s folder then entry_of (p, bytes) ∷ rest else rest

abbrev pub success : {A : Type 0} → A → Response A
success a = reply 200 100 (some a)

abbrev pub fine : ApiReply
fine = record { message = codes "SUCCESS"; desc = [] }

abbrev pub renamed : Str → Str → Disk → Disk
renamed a b d = elim (remote_file a d.files) [
  | none ↦ d
  | some bytes ↦ record d { files = (b, bytes) ∷ without_file a d.files }
]

abbrev pub streamed_file : Option Str → Download
streamed_file none = streamed 404 [] none
streamed_file (some bytes) = streamed 200 bytes none

abbrev pub transaction_id : Str
transaction_id = codes "00112233-4455-6677-8899-aabbccddeeff"

abbrev folder_entry : Str → WalkEntry
folder_entry p = record {
  path = p ++ codes "/d";
  walk_error = none;
  is_dir = true;
  symlink = false;
}

abbrev file_entry : Str → WalkEntry
file_entry p = record { path = p; walk_error = none; is_dir = false; symlink = false }

-- A disk with two files below every directory, on which every call succeeds but a write to one
-- path.
abbrev pub file_answer : (op : FileOp) → FileAnswer op
file_answer (lstat p) = ok (record { regular = true; size = 4; mtime = 0 })
file_answer (stat_file p) = ok (record { regular = true; size = 4; mtime = 0 })
file_answer (create_temp dir pattern) = ok (dir ++ codes "/1")
file_answer (write_file p bytes) =
    if p =s codes "/full" then (0, some (sentinel invalid)) else (length bytes, none)
file_answer (offset_of p) = ok 0
file_answer (walk_dir p) =
    folder_entry p ∷ file_entry (p ++ codes "/d/a") ∷ file_entry (p ++ codes "/d/b") ∷ []
file_answer (entry_info p) = ok (record { regular = true; size = 4; mtime = 0 })
file_answer (marshal_retained remote cause) = ok (codes "{}")
file_answer (env_value name) = codes "100"
file_answer user_cache_dir = ok (codes "/cache")
file_answer temp_dir = codes "/tmp"
file_answer cache_pins = []
file_answer (pin_path p) = tt
file_answer (unpin_path p) = tt
file_answer (make_dirs p) = ok tt
file_answer (create_file p) = ok tt
file_answer (open_file p) = ok tt
file_answer (copy_file a b) = ok tt
file_answer (sync_file p) = ok tt
file_answer (close_file p) = ok tt
file_answer (seek_start p) = ok tt
file_answer (seek_end p) = ok tt
file_answer (truncate_file p) = ok tt
file_answer (rename_local a b) = ok tt
file_answer (remove_file p) = ok tt
file_answer (remove_all p) = ok tt
file_answer (touch p) = ok tt
file_answer (write_atomic p bytes) = ok tt
file_answer (read_at_most p n) = ok (codes "{}")
file_answer (lock_file p) = ok tt
file_answer (unlock_file p) = ok tt

abbrev journal_files : List UploadRecord → List Str
journal_files [] = []
journal_files (r ∷ records) = (r.id ++ codes ".json") ∷ journal_files records

abbrev journal_file : Str → List UploadRecord → Option UploadRecord
journal_file name [] = none
journal_file name (r ∷ records) =
    if (r.id ++ codes ".json") =s name then some r else journal_file name records

abbrev pub answer : (q : Query) → Disk → Answer q × Disk
answer (browse p) d = (
  success (record {
    message = codes "SUCCESS";
    desc = [];
    path = p;
    contents = listing p d.files;
    devices = some [];
  }),
  d,
)
answer (create_folder a b) d = (success fine, d)
answer (rename_file a b) d = (success fine, renamed a b d)
answer (copy_paste a b) d = (success fine, d)
answer (move_file a b) d = (success fine, d)
answer (delete_file p) d = (success fine, record d { files = without_file p d.files })
answer (download p) d = (streamed_file (remote_file p d.files), d)
answer (upload_session a n) d =
    (success (record { message = []; desc = []; upload_session_id = codes "s" }), d)
answer (upload_part part) d = (
  success fine,
  record d { files = (join_clean part.parent part.file_name, part.payload) ∷ d.files },
)
answer (upload_close fields) d = (success fine, d)
answer clock d = (d.ticks, record d { ticks = d.ticks + 1 })
answer (pick n) d = (0, d)
answer context_error d = (none, d)
answer sleep d = (none, d)
answer random_bytes d = (ok [], d)
answer (local_stat p) d = (ok (record { is_dir = false; size = length d.local }), d)
answer (local_read p) d = (ok d.local, d)
answer (save_record r) d = (ok tt, record d { records = r ∷ d.records })
answer (remove_record id) d = (ok tt, d)
answer sync_journal d = (ok tt, d)
answer read_journal d = (ok (journal_files d.records), d)
answer (journal_info name) d = (ok (record { regular = true; size = 100 }), d)
answer (journal_read name) d = (ok (journal_file name d.records), d)
answer (on_disk op) d = (file_answer op, d)

-- The hashes are padded or cut to 32 bytes, so that short contents stay apart.
abbrev pub padded : ℕ → Str → Str
padded zero s = []
padded (suc n) [] = 0 ∷ padded n []
padded (suc n) (c ∷ s) = c ∷ padded n s

abbrev pub service : Env
service = record {
  State = Disk;
  sha256 = padded 32;
  md5 = padded 16;
  parse_time = λ text. none;
  respond = answer;
}

abbrev pub client : Client
client = record { devices = []; browse_cache = []; generation = 0 }

abbrev pub start : World service
start = record {
  env = record {
    files = (codes "/a.txt", codes "old") ∷ [];
    local = codes "new!";
    ticks = 0;
    records = [];
  };
  client = client;
  tx = no_tx;
  journaling = true;
  trace = [];
  events = [];
}

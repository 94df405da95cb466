-- ===== src/Evs/Types.antt =====
-- The records of internal/evs/client.go and journal.go, the questions that the client puts to its
-- surroundings, and the answers to them.
use idrive_unlimited.Base.{Bool, List, Option, Str, ℕ, ℤ}
use idrive_unlimited.Evs.Errors.{Error, Result}
use idrive_unlimited.Evs.Files.{FileAnswer, FileOp}

pub record DeviceMeta : Type 0 where
  pub type_name : Str
  pub identifier : Str
  pub referencing_folder : Str
  pub name : Str
  pub adid : Str
  pub backup_time : Str

pub record BrowseContent : Type 0 where
  pub is_dir : Bool
  pub name : Str
  pub size : Str
  pub version : Str
  pub lmd : Str
  pub save_time : Str

abbrev pub Devices : Type 0
Devices = List (Str × DeviceMeta)

-- `devices` is `none` where the response has no such field.
pub record BrowseResponse : Type 0 where
  pub message : Str
  pub desc : Str
  pub path : Str
  pub contents : List BrowseContent
  pub devices : Option Devices

pub record ApiReply : Type 0 where
  pub message : Str
  pub desc : Str

pub record UploadSessionReply : Type 0 where
  pub message : Str
  pub desc : Str
  pub upload_session_id : Str

-- `mod_time` is `none` for Go's zero time.
pub record Node : Type 0 where
  pub read_only : Bool
  pub root_class_known : Bool
  pub path : Str
  pub name : Str
  pub is_dir : Bool
  pub size : ℤ
  pub mod_time : Option ℕ
  pub version : Str
  pub device : Option DeviceMeta
  pub raw_entry : BrowseContent

pub record UploadRecord : Type 0 where
  pub source : Str
  pub move_started : Bool
  pub version : ℤ
  pub id : Str
  pub dest : Str
  pub stage : Str
  pub backup : Str
  pub size : ℤ
  pub hash : Str
  pub had_original : Bool
  pub original_size : ℤ
  pub original_hash : Str
  pub ready : Bool
  pub committed : Bool

pub record CacheEntry : Type 0 where
  pub nodes : List Node
  pub expires_at : ℕ

-- An HTTP exchange: a transport error, or a status with a body of some length that is JSON of the
-- expected shape or is not.
pub data Response (A : Type 0) : Type 0 where
  failed : Error → Response A
  reply : ℕ → ℕ → Option A → Response A

-- A download: a transport error, or a status with the bytes read before a read error, if any.
pub data Download : Type 0 where
  unreachable : Error → Download
  streamed : ℕ → Str → Option Error → Download

pub record LocalInfo : Type 0 where
  pub is_dir : Bool
  pub size : ℕ

-- What os.DirEntry.Info tells of a journal file.
pub record JournalInfo : Type 0 where
  pub regular : Bool
  pub size : ℕ

-- One multipart request to /evs/web/upload.
pub record UploadPart : Type 0 where
  pub parent : Str
  pub file_name : Str
  pub lmd : ℕ
  pub file_size : ℕ
  pub session_id : Option Str
  pub uuid : Str
  pub chunk_index : ℕ
  pub chunk_size : ℕ
  pub chunk_offset : ℕ
  pub total_chunks : ℕ
  pub payload : Str
  pub total_checksum : Option Str

pub record UploadClose : Type 0 where
  pub parent : Str
  pub file_name : Str
  pub session_id : Str
  pub lmd : ℕ
  pub file_size : ℕ
  pub total_chunks : ℕ
  pub total_checksum : Str

pub data Query : Type 0 where
  browse : Str → Query
  create_folder : Str → Str → Query
  rename_file : Str → Str → Query
  copy_paste : Str → Str → Query
  move_file : Str → Str → Query
  delete_file : Str → Query
  download : Str → Query
  upload_session : Str → ℕ → Query
  upload_part : UploadPart → Query
  upload_close : UploadClose → Query
  clock : Query
  pick : ℕ → Query
  context_error : Query
  sleep : Query
  random_bytes : Query
  local_stat : Str → Query
  local_read : Str → Query
  save_record : UploadRecord → Query
  remove_record : Str → Query
  sync_journal : Query
  read_journal : Query
  journal_info : Str → Query
  journal_read : Str → Query
  on_disk : FileOp → Query

abbrev pub Answer : Query → Type 0
Answer (browse p) = Response BrowseResponse
Answer (create_folder parent name) = Response ApiReply
Answer (rename_file old new) = Response ApiReply
Answer (copy_paste source dest) = Response ApiReply
Answer (move_file source dest) = Response ApiReply
Answer (delete_file p) = Response ApiReply
Answer (download p) = Download
Answer (upload_session name size) = Response UploadSessionReply
Answer (upload_part part) = Response ApiReply
Answer (upload_close fields) = Response ApiReply
Answer clock = ℕ
Answer (pick n) = ℕ
Answer context_error = Option Error
Answer sleep = Option Error
Answer random_bytes = Result Str
Answer (local_stat p) = Result LocalInfo
Answer (local_read p) = Result Str
Answer (save_record r) = Result (Unit {0})
Answer (remove_record id) = Result (Unit {0})
Answer sync_journal = Result (Unit {0})
Answer read_journal = Result (List Str)
Answer (journal_info name) = Result JournalInfo
Answer (journal_read name) = Result (Option UploadRecord)
Answer (on_disk op) = FileAnswer op

-- A question with the answer that it got.
pub record Event : Type 0 where
  pub question : Query
  pub answer : Answer question

-- ===== src/Webdav/ReadFile.antt =====
-- readFile of internal/webdav/fs.go before its local copy is opened: Seek.
pub mod Seeks
use idrive_unlimited.Base.{
  Bool, Option, if◌then◌else◌, leb, negsuc, none, pos, some, ℕ, ℤ, ◌%◌, ◌+◌, ◌-◌, ◌^◌,
}
use idrive_unlimited.Evs.Errors.{Result, err, invalid, message, ok, sentinel}

pub data Whence : Type 0 where
  from_start from_current from_end other_whence : Whence

-- `size` is that of the file's info; `pending` is the position at which the copy will be read.
pub record ReadFile : Type 0 where
  pub size : ℕ
  pub pending : ℕ
  pub closed : Bool

abbrev pub SeekResult : Type 0
SeekResult = Result ℕ

-- An int64 as its residue modulo 2 ^ 64.
abbrev pub residue : ℤ → ℕ
residue (pos n) = n % 2 ^ 64
residue (negsuc n) = 2 ^ 64 - 1 - n % 2 ^ 64

abbrev pub base_of : Whence → ReadFile → Option ℕ
base_of from_start f = some 0
base_of from_current f = some f.pending
base_of from_end f = some f.size
base_of other_whence f = none

abbrev pub moved_to : ReadFile → ℕ → SeekResult × ReadFile
moved_to f next =
    if leb (2 ^ 63) next
    then (err (sentinel invalid), f)
    else (ok next, record f { pending = next })

abbrev pub seek_based : ReadFile → ℤ → Option ℕ → SeekResult × ReadFile
seek_based f off none = (err (sentinel invalid), f)
seek_based f off (some base) = moved_to f ((base + residue off) % 2 ^ 64)

-- Seek, while there is no local copy.
unfoldable pub seek : ReadFile → ℤ → Whence → SeekResult × ReadFile
seek f off whence =
    if f.closed
    then (err (message "file already closed"), f)
    else seek_based f off (base_of whence f)

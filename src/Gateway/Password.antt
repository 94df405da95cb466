-- ===== src/Gateway/Password.antt =====
-- localPassword of cmd/idrive-gateway/password.go.
pub mod Line
use idrive_unlimited.Base.{
  Bool, Str, codes, contains_any, if◌then◌else◌, is_empty, length, ltb, negate, take, trim_suffix,
  ℕ, ◌%◌, ◌&&◌, ◌++◌, ◌+◌, ◌==◌, ◌||◌,
}
use idrive_unlimited.Evs.Errors.{Result, and_then, err, message, ok, required}

-- What os.Stat, os.Open, File.Stat and io.ReadAll tell of the password file: whether it is
-- regular, that it was opened, whether it is regular then and its permission bits, and its bytes.
pub record PasswordFile : Type 0 where
  pub found_regular : Result Bool
  pub opened : Result (Unit {0})
  pub status : Result (Bool × ℕ)
  pub contents : Result Str

abbrev pub newline : Str
newline = codes "\n"

abbrev pub carriage_return : Str
carriage_return = codes "\r"

abbrev pub password_limit : ℕ
password_limit = 4096

-- The password without the end of its line.
unfoldable pub line_of : Str → Str
line_of raw = trim_suffix (trim_suffix raw newline) carriage_return

unfoldable pub line_refused : Str → Bool
line_refused raw =
    ltb password_limit (length raw)
    || is_empty (line_of raw)
    || contains_any (line_of raw) (carriage_return ++ newline)

-- The password in a file, of which io.LimitReader lets the first bytes through.
unfoldable pub password_line : Str → Result Str
password_line bytes =
    let raw = take (password_limit + 1) bytes in
    if line_refused raw
    then err (message "WebDAV password file must contain one nonempty line of at most 4096 bytes")
    else ok (line_of raw)

-- Regular, and with no permission for others than the owner, where the system has those bits.
abbrev pub is_private : Bool → Bool × ℕ → Bool
is_private windows (regular, mode) = regular && (windows || mode % 64 == 0)

unfoldable pub read_password : Bool → PasswordFile → Result Str
read_password windows f = and_then f.found_regular λ regular.
    and_then (required regular (message "WebDAV password file must be regular")) λ _.
      and_then f.opened λ _. and_then f.status λ status.
        and_then
          (required (is_private windows status)
            (message "WebDAV password file must be a regular private file (0600 on Unix)"))
          λ _. and_then f.contents λ bytes. password_line bytes

-- `windows` says whether the system has no permission bits.
unfoldable pub local_password : Bool → Str → Str → PasswordFile → Result Str
local_password windows password filename f =
    if is_empty filename
    then ok password
    else if negate (is_empty password)
    then err (message "use only one of --dav-pass and --dav-pass-file")
    else read_password windows f

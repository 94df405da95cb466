-- ===== src/Webdav/WriteState.antt =====
-- writeState and requestBody of internal/webdav/handler.go: what the handler records of a request's
-- body, and whether a filesystem Close may commit it.
pub mod Whole
use idrive_unlimited.Base.{
  Bool, List, Option, [], false, if◌then◌else◌, is_negative, negate, negsuc, none, pos, some, true,
  ℕ, ℤ, ◌%◌, ◌&&◌, ◌+◌, ◌==◌, ◌^◌, ◌||◌, ◌∷◌,
}
use idrive_unlimited.Evs.Errors.{Error, Result, both, err, message, ok}

-- The error of a Read, by the test errors.Is(err, io.EOF).
pub data ReadError : Type 0 where
  no_error : ReadError
  end_of_file : ReadError
  failure : Error → ReadError

-- `received` is an int64, as its residue modulo 2 ^ 64.
pub record WriteState : Type 0 where
  pub put : Bool
  pub body_length : ℤ
  pub received : ℕ
  pub eof : Bool
  pub failed : Option Error

-- errors.Join(s.err, err)
abbrev pub join_failure : Option Error → Error → Error
join_failure none e = e
join_failure (some f) e = both f e

-- A state that is nil takes no error.
unfoldable pub fail : Option WriteState → ReadError → Option WriteState
fail none e = none
fail (some s) no_error = some s
fail (some s) end_of_file = some s
fail (some s) (failure e) = some (record s { failed = some (join_failure s.failed e) })

-- The int64 of a residue is the given length.
abbrev pub same_length : ℕ → ℤ → Bool
same_length received (pos n) = received == n
same_length received (negsuc n) = false

abbrev incomplete : WriteState → Bool
incomplete s =
    s.put
    && (negate s.eof
        || (negate (is_negative s.body_length) && negate (same_length s.received s.body_length)))

unfoldable pub complete : Option WriteState → Result (Unit {0})
complete none = err (message "writes require the request-aware WebDAV handler")
complete (some s) = elim s.failed [
  | some e ↦ err e
  | none ↦ if incomplete s then err (message "unexpected EOF") else ok tt
]

-- What one Read of the body returned: the number of bytes and the error.
abbrev pub ReadOutcome : Type 0
ReadOutcome = ℕ × ReadError

abbrev ends : ReadError → Bool
ends no_error = false
ends end_of_file = true
ends (failure e) = false

-- requestBody.Read, of which only the record is kept; the deadlines are the connection's.
unfoldable pub read_body : ReadOutcome → WriteState → Option WriteState
unfolding fail
read_body (n, e) s =
    fail (some (record s { received = (s.received + n) % 2 ^ 64; eof = s.eof || ends e })) e

-- The Reads of a request, in order.
unfoldable pub read_all : List ReadOutcome → Option WriteState → Option WriteState
read_all reads none = none
read_all [] (some s) = some s
read_all (r ∷ reads) (some s) = read_all reads (read_body r s)

-- The state with which the handler begins a request.
unfoldable pub new_state : Bool → ℤ → WriteState
new_state put body_length = record {
  put = put;
  body_length = body_length;
  received = 0;
  eof = false;
  failed = none;
}

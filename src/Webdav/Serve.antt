-- ===== src/Webdav/Serve.antt =====
-- NewHandler of internal/webdav/handler.go behind its semaphore: the checks that a request passes
-- before it reaches the handler of golang.org/x/net/webdav, and how it reaches it.
pub mod PassedOn
use idrive_unlimited.Base.{
  Bool, Option, Str, codes, exceeds, has_prefix, if◌then◌else◌, is_empty, is_some, ltb, negate,
  none, pos, some, trim_suffix, ℕ, ℤ, ◌&&◌, ◌++◌, ◌=s◌, ◌=ℤ◌, ◌^◌, ◌||◌,
}
use idrive_unlimited.Evs.Errors.{Result, err, ok}
use idrive_unlimited.Evs.Journal.{max_upload_size, recover_pending}
use idrive_unlimited.Evs.Monad.{Env, M, attempt, on_option, pure, when, ◌>>=◌, ◌>>◌}
use idrive_unlimited.Evs.Types.{Node}
use idrive_unlimited.Path.{clean_path, root}
use idrive_unlimited.Webdav.Admission.{read_only_method}
use idrive_unlimited.Webdav.FileSystem.{FileSystem}
use idrive_unlimited.Webdav.Paths.{remote_path}
use idrive_unlimited.Webdav.Preconditions.{
  Headers, Verdict, allowed, check_preconditions, precondition_failed, unavailable,
}
use idrive_unlimited.Webdav.ReadCache.{invalidate_all}
use idrive_unlimited.Webdav.WriteState.{ReadOutcome, WriteState, failure, new_state, read_body}

-- The parts of a request that the checks look at; an absent header is empty. `first_read` is what
-- the Read of one byte gives for the body of an MKCOL.
pub record Request : Type 0 where
  pub method : Str
  pub url_path : Str
  pub host : Str
  pub content_length : ℤ
  pub safe_move : Str
  pub overwrite : Str
  pub destination : Str
  pub conditions : Headers
  pub has_body : Bool
  pub first_read : ReadOutcome

-- What url.Parse tells of a Destination.
pub record ParsedUrl : Type 0 where
  pub url_host : Str
  pub decoded_path : Str

-- A request as the handler behind receives it.
pub record Passed : Type 0 where
  pub state : Option WriteState
  pub move_destination : Option Str
  pub overwrite : Str

-- An error status, or the request passed on.
pub data Served : Type 0 where
  refused : ℕ → Served
  passed_on : Passed → Served

abbrev pub safe_move_version : Str
safe_move_version = codes "verified-copy-v1"

abbrev pub is_put : Request → Bool
is_put r = r.method =s codes "PUT"

abbrev pub is_move : Request → Bool
is_move r = r.method =s codes "MOVE"

abbrev pub is_copy : Request → Bool
is_copy r = r.method =s codes "COPY"

-- Where a MOVE that negotiated the safe protocol goes, if it goes to this host.
abbrev pub on_this_host : Request → Option ParsedUrl → Option Str
on_this_host r none = none
on_this_host r (some u) =
    if negate (is_empty u.decoded_path) && (is_empty u.url_host || u.url_host =s r.host)
    then some (clean_path u.decoded_path)
    else none

unfoldable pub safe_destination : (Str → Option ParsedUrl) → Request → Option Str
safe_destination parse_url r =
    if is_move r && r.safe_move =s safe_move_version && negate (r.overwrite =s codes "F")
    then on_this_host r (parse_url r.destination)
    else none

-- The Overwrite header that is passed on.
unfoldable pub overwrite_passed : Request → Option Str → Str
overwrite_passed r destination =
    if is_copy r || (is_move r && negate (is_some destination)) then codes "F" else r.overwrite

unfoldable pub body_limit : Request → ℕ
body_limit r = if is_put r then max_upload_size else 2 ^ 20

abbrev reads_body : Request → Bool
reads_body r = r.method =s codes "MKCOL" && r.has_body && negate (r.content_length =ℤ pos 0)

abbrev refused_read : ReadOutcome → Option ℕ
refused_read (n, e) = if ltb 0 n then some 415 else elim e [ failure f ↦ some 400 | _ ↦ none ]

unfoldable pub check_body : Request → Option ℕ
check_body r = if reads_body r then refused_read r.first_read else none

-- The state of the request's body after that Read.
unfoldable pub state_passed : Request → Option WriteState
state_passed r =
    let begun = new_state (is_put r) r.content_length in
    if reads_body r then read_body r.first_read begun else some begun

abbrev pub after_recovery : Result (Unit {0}) → Option ℕ
after_recovery (ok _) = none
after_recovery (err e) = some 503

abbrev status_of : Verdict → Option ℕ
status_of allowed = none
status_of precondition_failed = some 412
status_of unavailable = some 503

abbrev no_conditions : Headers → Bool
no_conditions h = is_empty h.if_match && is_empty h.if_none_match && is_empty h.if_unmodified_since

abbrev pub refuse_if : Bool → ℕ → Option ℕ
refuse_if b code = if b then some code else none

-- Whether a path lies below another.
unfoldable pub lies_below : Str → Str → Bool
lies_below target source = has_prefix target (trim_suffix source root ++ root)

unfoldable pub passed_request : (Str → Option ParsedUrl) → Request → Passed
passed_request parse_url r =
    let destination = safe_destination parse_url r in
    record {
      state = state_passed r;
      move_destination = destination;
      overwrite = overwrite_passed r destination;
    }

abbrev pub answered : Passed → Option ℕ → Served
answered p none = passed_on p
answered p (some code) = refused code

module _ {E : Env} where
  -- The first of two checks that gives a status.
  unfoldable pub or_check : M E (Option ℕ) → M E (Option ℕ) → M E (Option ℕ)
  or_check m n = do status ← m; on_option status n (λ code. pure (some code))

  unfoldable pub check_length : Request → M E (Option ℕ)
  check_length r = pure (refuse_if (exceeds r.content_length (body_limit r)) 413)

  -- RecoverPending, and the cache of downloads cleared where it brought a transaction to an end.
  unfoldable pub recover_before : FileSystem → M E (Unit {0})
  recover_before f = do count ← recover_pending; when (ltb 0 count) (invalidate_all f.cache)

  unfoldable pub check_recovery : FileSystem → Request → M E (Option ℕ)
  check_recovery f r =
      if read_only_method r.method
      then pure none
      else (do recovered ← attempt (recover_before f); pure (after_recovery recovered))

  unfoldable pub check_conditions :
      (Str → Option ℕ) → (Node → Str) → FileSystem → Request → M E (Option ℕ)
  check_conditions parse_date tag_of f r =
      if (is_put r || r.method =s codes "DELETE" || is_copy r || is_move r)
        && negate (no_conditions r.conditions)
      then (do
        remote ← remote_path f.top r.url_path
        verdict ← check_preconditions parse_date tag_of r.conditions remote
        pure (status_of verdict))
      else pure none

  -- No directory is copied or moved into itself.
  unfoldable pub check_destination : FileSystem → Request → Option ParsedUrl → M E (Option ℕ)
  check_destination f r none = pure none
  check_destination f r (some u) = if is_empty u.decoded_path then pure none else (do
    source ← remote_path f.top r.url_path
    target ← remote_path f.top u.decoded_path
    pure (refuse_if (lies_below target source) 403))

  unfoldable pub check_itself : (Str → Option ParsedUrl) → FileSystem → Request → M E (Option ℕ)
  check_itself parse_url f r =
      if is_copy r || is_move r then check_destination f r (parse_url r.destination) else pure none

  -- The checks in their order.
  unfoldable pub refusal :
      (Str → Option ParsedUrl)
      → (Str → Option ℕ)
      → (Node → Str)
      → FileSystem
      → Request
      → M E (Option ℕ)
  refusal parse_url parse_date tag_of f r = or_check (check_length r) (
      or_check (check_recovery f r) (
        or_check (check_conditions parse_date tag_of f r)
          (or_check (check_itself parse_url f r) (pure (check_body r)))))

  unfoldable pub serve :
      (Str → Option ParsedUrl) → (Str → Option ℕ) → (Node → Str) → FileSystem → Request → M E Served
  serve parse_url parse_date tag_of f r = do
    status ← refusal parse_url parse_date tag_of f r
    pure (answered (passed_request parse_url r) status)

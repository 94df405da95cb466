-- ===== src/Evs/Api.antt =====
-- The replies of the EVS API: readAPIResponse, checkHTTPStatus, checkMaybeJSONReply, apiError,
-- isSuccess, postForm and its kin, parseSize and parseModTime of internal/evs/client.go.
use idrive_unlimited.Base.{
  Bool, List, Option, Str, [], codes, contains, equal_fold, if◌then◌else◌, is_empty, leb, length,
  ltb, negate, none, parse_int, pos, some, to_upper, trim_space, ℕ, ℤ, ◌&&◌, ◌==◌, ◌=s◌, ◌||◌, ◌∷◌,
}
use idrive_unlimited.Evs.Errors.{Error, Result, err, message, not_found, ok, sentinel, unauthorized}
use idrive_unlimited.Evs.Types.{ApiReply, Response, UploadSessionReply, failed, reply}

unfoldable pub is_success : Str → Bool
unfolding equal_fold trim_space
is_success text = equal_fold (trim_space text) (codes "SUCCESS")

unfoldable pub api_error : ℕ → Str → Str → Error
unfolding to_upper trim_space contains ◌=s◌
api_error status text desc =
    let upper_message = to_upper (trim_space text) in
    let upper_desc = to_upper (trim_space desc) in
    if status == 401 || status == 403
    then sentinel unauthorized
    else if upper_message =s codes "INVALID_SESSION"
    then sentinel unauthorized
    else if contains upper_desc (codes "AUTHENTICATION FAILED")
    then sentinel unauthorized
    else if contains upper_desc (codes "INVALID PATH")
    then sentinel not_found
    else if contains upper_desc (codes "NO SUCH FILE") || contains upper_desc (codes "NOT FOUND")
    then sentinel not_found
    else message "idrive API operation failed"

unfoldable pub check_http_status : ℕ → Result (Unit {0})
check_http_status status =
    if leb 200 status && ltb status 300
    then ok tt
    else if status == 401 || status == 403 || (leb 300 status && ltb status 400)
    then err (sentinel unauthorized)
    else if status == 404
    then err (sentinel not_found)
    else err (message "unexpected status")

-- 64 << 20
abbrev pub response_limit : ℕ
response_limit = 67108864

-- What readAPIResponse and checkHTTPStatus let through: the body, decoded or not.
unfoldable pub received : {A : Type 0} → Response A → Result (Option A)
unfolding check_http_status
received (failed e) = err e
received (reply status length body) =
    if ltb response_limit length
    then err (message "IDrive API response exceeds 64 MiB")
    else elim (check_http_status status) [ ok _ ↦ ok body | err e ↦ err e ]

abbrev decoded : {A : Type 0} → Option A → Result A
decoded none = err (message "decode response")
decoded (some a) = ok a

-- postForm, once its request has been answered.
unfoldable pub post_form : {A : Type 0} → Response A → Result A
unfolding received
post_form r = elim (received r) [ ok body ↦ decoded body | err e ↦ err e ]

unfoldable pub check_maybe_json_reply : Option ApiReply → Result (Unit {0})
unfolding trim_space is_empty is_success api_error
check_maybe_json_reply none = err (message "invalid mutation response: expected JSON success")
check_maybe_json_reply (some r) =
    if is_empty (trim_space r.message)
    then err (message "invalid mutation response: missing message")
    else if is_success r.message
    then ok tt
    else err (api_error 200 r.message r.desc)

-- postFormRaw and, with checkMaybeJSONReply after it, postMultipartRaw.
unfoldable pub post_form_raw : Response ApiReply → Result (Unit {0})
unfolding received check_maybe_json_reply
post_form_raw r = elim (received r) [ ok body ↦ check_maybe_json_reply body | err e ↦ err e ]

-- The last test of the callers of postForm.
unfoldable pub check_success : ApiReply → Result (Unit {0})
unfolding is_success api_error
check_success r = if is_success r.message then ok tt else err (api_error 200 r.message r.desc)

-- postRawJSONBody at the reply to an upload session.
unfoldable pub check_session_reply : UploadSessionReply → Result (Unit {0})
unfolding is_success api_error is_empty
check_session_reply r =
    if negate (is_empty r.message) && negate (is_success r.message)
    then err (api_error 200 r.message r.desc)
    else ok tt

unfoldable pub parse_size : Str → ℤ
unfolding parse_int is_empty ◌=s◌
parse_size raw =
    if is_empty raw || raw =s codes "-"
    then pos 0
    else elim (parse_int raw) [ none ↦ pos 0 | some n ↦ n ]

abbrev first_time : (Str → Option ℕ) → List Str → Option ℕ
first_time parse [] = none
first_time parse (value ∷ values) =
    let rest = first_time parse values in
    if is_empty (trim_space value) || value =s codes "-"
    then rest
    else elim (parse value) [ none ↦ rest | some t ↦ some t ]

unfoldable pub parse_mod_time : (Str → Option ℕ) → List Str → Option ℕ
unfolding is_empty trim_space ◌=s◌
parse_mod_time parse values = first_time parse values

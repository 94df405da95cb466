-- ===== src/Auth/Token.antt =====
-- validateTokenURL and tokenEndpoint of internal/auth/token.go and tokenCallback of
-- internal/auth/callback.go.
pub mod Trusted
use idrive_unlimited.Base.{
  Bool, Option, Str, codes, has_suffix, if◌then◌else◌, is_empty, leb, length, negate, none, some,
  to_lower, ℕ, ◌&&◌, ◌++◌, ◌=s◌, ◌^◌, ◌||◌,
}
use idrive_unlimited.Evs.Errors.{Error, Result, and_then, err, message, ok, required}

-- What url.Parse and the methods of url.URL tell of a URL.
pub record Url : Type 0 where
  pub scheme : Str
  pub has_user : Bool
  pub url_authority : Str
  pub hostname : Str
  pub port : Str
  pub escaped_path : Str

pub record TokenPayload : Type 0 where
  pub callback_nonce : Str
  pub server_address : Str
  pub address : Str
  pub redirect_address : Str
  pub token : Str
  pub sid : Str
  pub remember : Str

abbrev pub idrive_domain : Str
idrive_domain = codes "idrive.com"

abbrev pub idrive_suffix : Str
idrive_suffix = codes ".idrive.com"

unfoldable pub is_token_url : Url → Bool
is_token_url u =
    u.scheme =s codes "https"
    && negate u.has_user
    && (is_empty u.port || u.port =s codes "443")
    && (to_lower u.hostname =s idrive_domain || has_suffix (to_lower u.hostname) idrive_suffix)

unfoldable pub validate_token_url : Url → Result (Unit {0})
validate_token_url u =
    required (is_token_url u) (message "authentication URL must use HTTPS on an IDrive host")

-- What url.Parse gives, or an error.
abbrev pub parsed : Option Url → Error → Result Url
parsed none e = err e
parsed (some u) e = ok u

abbrev pub names_server : Str → Url → Bool
names_server server u = u.url_authority =s server && is_empty u.escaped_path

-- The server that the payload names, if it names one.
unfoldable pub check_server : (Str → Option Url) → Str → Result (Unit {0})
check_server parse_url server =
    if is_empty server
    then ok tt
    else and_then
        (parsed (parse_url (codes "https://" ++ server)) (message "invalid authentication server"))
        λ u.
          and_then (required (names_server server u) (message "invalid authentication server"))
            λ _. validate_token_url u

abbrev pub raw_endpoint : TokenPayload → Str
raw_endpoint p = if is_empty p.address then p.redirect_address else p.address

unfoldable pub token_endpoint : (Str → Option Url) → TokenPayload → Result Url
token_endpoint parse_url p =
    and_then
      (required (negate (is_empty (raw_endpoint p))) (message "token payload is missing url"))
      λ _.
        and_then (parsed (parse_url (raw_endpoint p)) (message "invalid authentication URL")) λ u.
          and_then (validate_token_url u)
            λ _. and_then (check_server parse_url p.server_address) λ _. ok u

-- 64 << 10
abbrev pub callback_limit : ℕ
callback_limit = 2 ^ 16

unfoldable pub is_callback : Str → TokenPayload → Bool
is_callback nonce p =
    negate (is_empty nonce)
    && p.callback_nonce =s nonce
    && negate (is_empty p.token)
    && negate (is_empty p.sid)

abbrev pub decoded_payload : Option TokenPayload → Result TokenPayload
decoded_payload none = err (message "invalid login callback")
decoded_payload (some p) = ok p

-- `unmarshal` is json.Unmarshal into a payload.
unfoldable pub token_callback : (Str → Option TokenPayload) → Str → Str → Result TokenPayload
token_callback unmarshal raw nonce =
    and_then (required (leb (length raw) callback_limit) (message "login callback exceeds 64 KiB"))
      λ _. and_then (decoded_payload (unmarshal raw)) λ p.
        and_then (required (is_callback nonce p) (message "untrusted or incomplete login callback"))
          λ _. ok p

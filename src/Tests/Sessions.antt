-- ===== src/Tests/Sessions.antt =====
-- A running server saves its session over the file that it read it from, and takes the password
-- of its clients from a line of a file; a sign-in sends its token to one host.
use idrive_unlimited.Base.{
  Option, Str, [], codes, contains_any, contains_byte, false, has_prefix, has_suffix, is_empty,
  lower, refl, some, to_lower, trim_prefix, trim_suffix, ◌=s◌, ◌↔◌, ◌≡◌,
}
use idrive_unlimited.Auth.Token.{
  TokenPayload, Url, check_server, is_token_url, raw_endpoint, token_endpoint, validate_token_url,
}
use idrive_unlimited.Auth.Token.Trusted.{OnIdrive, ServerTrusted, token_endpoint-OnIdrive}
use idrive_unlimited.Evs.Errors.{and_then, ok}
use idrive_unlimited.Evs.Journal.{wrapped}
use idrive_unlimited.Evs.Leads.{Obeyed}
use idrive_unlimited.Evs.Monad.{ask, attempt, guard, lift, pure, ◌>>=◌}
use idrive_unlimited.Evs.Transfer.{ask_result}
use idrive_unlimited.Gateway.Password.{line_of, line_refused, password_line}
use idrive_unlimited.Gateway.Password.Line.{IsPasswordLine, password_line_lem}
use idrive_unlimited.Session.Store.{
  Data, Json, check_current, decoded_session, load, same_revision, save_current, save_locked,
  save_session, stamped,
}
use idrive_unlimited.Session.Store.Current.{WritesCurrent}
use idrive_unlimited.Session.Store.Saves.{save_session-WritesCurrent}
use idrive_unlimited.Tests.Service.{start}

abbrev server_session : Data
server_session = record {
  session_id = codes "1";
  server_host = codes "evs.idrive.com";
  saved_at = some 7;
  cookies = [];
}

abbrev one_session : Json
one_session = record {
  decode = λ raw. some server_session;
  encode = λ saved. ok saved.server_host;
  encode_login = λ host cookies. host;
}

abbrev session_file : Str
session_file = codes "/config/session.json"

save_session-WritesCurrent_example :
    Obeyed
      (WritesCurrent one_session session_file (some server_session))
      (save_session one_session session_file server_session (some server_session) start).1.events
save_session-WritesCurrent_example =
    save_session-WritesCurrent one_session session_file server_session (some server_session) start
      tt

-- The run succeeds, and the session has the time of the write.
saves :
    (save_current one_session session_file server_session start).0
    ≡ ok (record server_session { saved_at = some 0 })
unfolding save_current save_session save_locked check_current load stamped decoded_session
    same_revision wrapped guard ask_result ask lift attempt pure is_empty ◌=s◌ ◌>>=◌
saves = refl

abbrev written_line : Str
written_line = codes "secret\r\n"

password_line_lem_example :
    (password_line written_line ≡ ok (codes "secret"))
    ↔ IsPasswordLine written_line (codes "secret")
password_line_lem_example = password_line_lem written_line (codes "secret")

takes_line : password_line written_line ≡ ok (codes "secret")
unfolding password_line line_refused line_of trim_suffix trim_prefix has_prefix is_empty
    contains_any contains_byte
takes_line = refl

-- A URL parser that knows one host.
abbrev one_url : Str → Option Url
one_url s = some (record {
  scheme = codes "https";
  has_user = false;
  url_authority = codes "evs.idrive.com";
  hostname = codes "evs.idrive.com";
  port = [];
  escaped_path = [];
})

abbrev sign_in : TokenPayload
sign_in = record {
  callback_nonce = codes "n";
  server_address = codes "evs.idrive.com";
  address = codes "https://evs.idrive.com";
  redirect_address = [];
  token = codes "t";
  sid = codes "s";
  remember = [];
}

abbrev idrive_url : Url
idrive_url = record {
  scheme = codes "https";
  has_user = false;
  url_authority = codes "evs.idrive.com";
  hostname = codes "evs.idrive.com";
  port = [];
  escaped_path = [];
}

endpoint_found : token_endpoint one_url sign_in ≡ ok idrive_url
unfolding token_endpoint and_then check_server validate_token_url is_token_url is_empty to_lower
    lower has_suffix has_prefix ◌=s◌
endpoint_found = refl

token_endpoint-OnIdrive_example :
    (one_url (raw_endpoint sign_in) ≡ some idrive_url)
    × OnIdrive idrive_url
    × ServerTrusted one_url sign_in.server_address
token_endpoint-OnIdrive_example = token_endpoint-OnIdrive one_url sign_in idrive_url endpoint_found

-- ===== src/Tests/Requests.antt =====
-- A request that writes behind a semaphore that counts, and a COPY that the handler passes on.
use idrive_unlimited.Base.{
  Bool, List, Option, Str, [], ap, arith, codes, contains_any, false, has_prefix, if◌then◌else◌,
  is_empty, is_space, join, leb, leb→le, none, pos, refl, some, some_injective, split, sym,
  trim_left, trim_prefix, trim_space, trim_suffix, true, ℕ, ◌+◌, ◌-◌, ◌=s◌, ◌||◌, ◌∷◌, ◌≡◌, ◌≤◌,
}
use idrive_unlimited.Evs.Errors.{ok}
use idrive_unlimited.Evs.Journal.{recover_files, recover_pending}
use idrive_unlimited.Evs.Monad.{ask, attempt, get_journaling, lift, on_option, pure, when, ◌>>=◌}
use idrive_unlimited.Evs.Transfer.{ask_result}
use idrive_unlimited.Evs.Types.{Node}
use idrive_unlimited.Path.{clean_path, path_clean, path_join, pop, resolve, resolve_one, root}
use idrive_unlimited.Tests.Service.{start}
use idrive_unlimited.Tests.Storage.{photo_cache}
use idrive_unlimited.Webdav.Admission.{
  Documented, Gate, Passages, Weighted, enter, enters, exclusive, no_passage, open_gate,
  read_only_method, then_passage, weight,
}
use idrive_unlimited.Webdav.Admission.Alone.{Passages-alone}
use idrive_unlimited.Webdav.FileSystem.{FileSystem}
use idrive_unlimited.Webdav.Paths.{remote_path, rooted_remote}
use idrive_unlimited.Webdav.Preconditions.{Headers}
use idrive_unlimited.Webdav.Serve.{
  ParsedUrl, Request, body_limit, check_body, check_conditions, check_destination, check_itself,
  check_length, check_recovery, is_copy, is_move, lies_below, or_check, passed_on, passed_request,
  recover_before, refusal, serve,
}
use idrive_unlimited.Webdav.Serve.PassedOn.{Careful, serve-Careful}
use idrive_unlimited.Webdav.WriteState.{end_of_file}

abbrev taken : ℕ → ℕ × ℕ → Option (ℕ × ℕ)
taken n (held, size) = if leb (held + n) size then some (held + n, size) else none

abbrev counting : Weighted
counting = record {
  Sem = ℕ × ℕ;
  new_weighted = λ n. (0, n);
  acquire = taken;
  release = λ n s. (s.0 - n, s.1);
}

taken_if : (b : Bool) (u t : ℕ × ℕ) → (if b then some u else none) ≡ some t → (b ≡ true) × (u ≡ t)
taken_if true u t h = (refl, some_injective h)
taken_if false u t h = cc

taken_fits :
    (n : ℕ) (s t : ℕ × ℕ) → taken n s ≡ some t → (t.0 ≡ s.0 + n) × (t.1 ≡ s.1) × (t.0 ≤ t.1)
taken_fits n s t h =
    let (fit, e) = taken_if (leb (s.0 + n) s.1) (s.0 + n, s.1) t h in
    let room = leb→le (s.0 + n) s.1 fit in
    let first : t.0 ≡ s.0 + n = ap (λ p. p.0) (sym e) in
    let second : t.1 ≡ s.1 = ap (λ p. p.1) (sym e) in
    (first, second, omega (arith, room, first, second))

counts : Documented counting
counts = record {
  held = λ s. s.0;
  size = λ s. s.1;
  held-new = λ n. refl;
  size-new = λ n. refl;
  held-acquire = λ n s t h. (taken_fits n s t h).0;
  size-acquire = λ n s t h. (taken_fits n s t h).1;
  fits_acquire = λ n s t h. (taken_fits n s t h).2;
  held-release = λ n s h. refl;
  size-release = λ n s h. refl;
}

abbrev put_inside : Gate counting
put_inside = record { sem = (exclusive, exclusive); inside = codes "PUT" ∷ [] }

put_enters : Passages counting (open_gate counting) put_inside
unfolding enter weight read_only_method ◌=s◌
put_enters =
    then_passage (no_passage (open_gate counting))
      (enters (codes "PUT") (open_gate counting) put_inside refl)

put_writes : read_only_method (codes "PUT") ≡ false
unfolding read_only_method ◌=s◌
put_writes = refl

abbrev no_methods : List Str
no_methods = []

Passages-alone_example : (no_methods ≡ no_methods) × (no_methods ≡ no_methods)
Passages-alone_example =
    Passages-alone counting counts put_enters [] (codes "PUT") [] refl put_writes

abbrev unconditional : Headers
unconditional = record { if_match = []; if_none_match = []; if_unmodified_since = [] }

abbrev copy_request : Request
copy_request = record {
  method = codes "COPY";
  url_path = codes "/a";
  host = codes "localhost";
  content_length = pos 0;
  safe_move = [];
  overwrite = codes "T";
  destination = codes "/b";
  conditions = unconditional;
  has_body = true;
  first_read = (0, end_of_file);
}

abbrev plain_url : Str → Option ParsedUrl
plain_url s = some (record { url_host = []; decoded_path = s })

abbrev no_date : Str → Option ℕ
no_date s = none

abbrev no_tag : Node → Str
no_tag n = []

abbrev base_folder : FileSystem
base_folder = record { top = codes "/base"; cache = photo_cache }

copy_passes :
    (serve plain_url no_date no_tag base_folder copy_request start).0
    ≡ ok (passed_on (passed_request plain_url copy_request))
unfolding serve refusal or_check check_length body_limit check_recovery read_only_method
    recover_before recover_pending recover_files get_journaling ask_result ask lift attempt pure
    when on_option check_conditions check_itself check_destination check_body remote_path
    rooted_remote lies_below is_empty ◌=s◌ ◌>>=◌ clean_path path_clean resolve resolve_one pop join
    split path_join trim_prefix trim_suffix has_prefix contains_any trim_space trim_left is_space
copy_passes = refl

inner_root : (base_folder.top =s root) ≡ false
unfolding ◌=s◌
inner_root = refl

is_copy_request : (is_copy copy_request || is_move copy_request) ≡ true
unfolding ◌=s◌
is_copy_request = refl

serve-Careful_example :
    Careful plain_url base_folder copy_request start (passed_request plain_url copy_request)
serve-Careful_example =
    serve-Careful plain_url no_date no_tag base_folder copy_request start
      (passed_request plain_url copy_request) inner_root is_copy_request copy_passes

-- ===== src/Tests/Devices.antt =====
-- A rename of a device over a service that lists one.
use idrive_unlimited.Base.{
  =s_iff, All, Option, Str, [], codes, contains, contains_any, contains_byte, equal_fold, false,
  has_prefix, is_empty, is_space, join, limit_after, lower, none, parse_int, refl, some, split,
  to_lower, to_upper, trim_left, trim_prefix, trim_space, true, upper, ◌=s◌, ◌∷◌, ◌≡◌, ◌≢◌,
}
use idrive_unlimited.Evs.Api.{
  api_error, check_http_status, is_success, parse_mod_time, parse_size, post_form, received,
}
use idrive_unlimited.Evs.Cache.{
  cached_entry, drop_all_stale, drop_expired, drop_one, drop_stale, fresh_entry, invalidate_paths,
  is_stale, lookup_entry, make_room, put_entry, remove_at, store_browse, store_current,
}
use idrive_unlimited.Evs.Errors.{Result, is, ok}
use idrive_unlimited.Evs.Listing.{
  browse_cached, browse_entries, browse_entry, browse_fresh, browse_fresh_at, browse_fresh_from,
  browse_fresh_with, browse_with, cached_or, check_context, flight, head_of, listed_or, node_of,
  require_writable_with,
}
use idrive_unlimited.Evs.Monad.{
  Env, World, ask, attempt, get_client, guard, lift, on_option, on_result, pure, raise, set_client,
  ◌>>=◌,
}
use idrive_unlimited.Evs.Transfer.{ask_result}
use idrive_unlimited.Evs.Types.{Answer, BrowseContent, DeviceMeta, Query, browse}
use idrive_unlimited.Evs.Upload.{no_tx}
use idrive_unlimited.Path.{
  clean_path, is_read_only_path, join_clean, parent_dir, path_base, path_clean, path_dir, path_join,
  pop, resolve, resolve_one, root,
}
use idrive_unlimited.Tests.Service.{Disk, answer, client, service, start, success}
use idrive_unlimited.Webdav.Aliases.{
  RootAliases, assign, build_root_aliases, device_candidates, is_among, lookup_name, valid_alias,
}
use idrive_unlimited.Webdav.FileSystem.{FileSystem, rename_path}
use idrive_unlimited.Webdav.FileSystem.Renames.{IsHarmless, IsRefused, rename_path-protected}
use idrive_unlimited.Webdav.Paths.{resolved, root_aliases, split_first_component, translate}
use idrive_unlimited.Webdav.ReadCache.{invalidate_all}

abbrev laptop_meta : DeviceMeta
laptop_meta = record {
  type_name = [];
  identifier = [];
  referencing_folder = [];
  name = codes "Laptop";
  adid = [];
  backup_time = [];
}

abbrev device_entry : BrowseContent
device_entry = record {
  is_dir = true;
  name = codes "D01";
  size = [];
  version = [];
  lmd = [];
  save_time = [];
}

abbrev device_answer : (q : Query) → Disk → Answer q × Disk
device_answer (browse p) d = (
  success (record {
    message = codes "SUCCESS";
    desc = [];
    path = p;
    contents = device_entry ∷ [];
    devices = some ((codes "D01", laptop_meta) ∷ []);
  }),
  d,
)
device_answer q d = answer q d

abbrev device_service : Env
device_service = record service { respond = device_answer }

abbrev device_start : World device_service
device_start = record {
  env = start.env;
  client = client;
  tx = no_tx;
  journaling = true;
  trace = [];
  events = [];
}

abbrev whole_drive : FileSystem
whole_drive = record {
  top = root;
  cache = record { root_dir = codes "/cache"; namespace = codes "n" };
}

abbrev aliases_or_none : Result (Option RootAliases) → RootAliases
aliases_or_none (ok (some a)) = a
aliases_or_none _ = record { raw_to_display = []; display_to_raw = []; protected_raw = [] }

abbrev cleared : World device_service
cleared = (invalidate_all whole_drive.cache device_start).1

abbrev listed_aliases : RootAliases
listed_aliases = aliases_or_none (root_aliases cleared).0

names_devices : (root_aliases cleared).0 ≡ ok (some listed_aliases)
unfolding root_aliases invalidate_all ask_result ◌>>=◌ on_result on_option clean_path browse_fresh
    browse_fresh_at browse_cached browse_with browse_fresh_with browse_fresh_from post_form
    is_success parent_dir path_dir browse_entries path_base contains_any limit_after parse_int
    contains contains_byte equal_fold has_prefix is_empty is_space join lower split to_lower
    to_upper trim_left trim_prefix trim_space upper api_error check_http_status parse_mod_time
    parse_size received cached_entry drop_all_stale drop_expired drop_one drop_stale fresh_entry
    invalidate_paths is_stale lookup_entry make_room put_entry remove_at store_browse store_current
    is ◌=s◌ browse_entry cached_or check_context flight head_of node_of require_writable_with ask
    attempt get_client lift pure raise set_client is_read_only_path join_clean path_clean path_join
    pop resolve resolve_one listed_or guard
names_devices = refl

is_device :
    is_among
      (resolved listed_aliases (split_first_component (codes "/Laptop")).0)
      listed_aliases.protected_raw
    ≡ true
unfolding split_first_component build_root_aliases device_candidates assign valid_alias root_aliases
    invalidate_all ask_result ◌>>=◌ on_result on_option clean_path browse_fresh browse_fresh_at
    browse_cached browse_with browse_fresh_with browse_fresh_from post_form is_success parent_dir
    path_dir browse_entries path_base contains_any limit_after parse_int contains contains_byte
    equal_fold has_prefix is_empty is_space join lower split to_lower to_upper trim_left trim_prefix
    trim_space upper api_error check_http_status parse_mod_time parse_size received cached_entry
    drop_all_stale drop_expired drop_one drop_stale fresh_entry invalidate_paths is_stale
    lookup_entry make_room put_entry remove_at store_browse store_current is ◌=s◌ browse_entry
    cached_or check_context flight head_of node_of require_writable_with ask attempt get_client lift
    pure raise set_client is_read_only_path join_clean path_clean path_join pop resolve resolve_one
    listed_or guard
is_device = refl

one_component : (split_first_component (codes "/Laptop")).1 ≡ []
unfolding split_first_component clean_path path_clean contains_any contains_byte trim_space
    trim_left is_space is_empty has_prefix trim_prefix resolve resolve_one pop join split ◌=s◌
one_component = refl

laptop_ne_root : clean_path (codes "/Laptop") ≢ root
unfolding clean_path path_clean contains_any contains_byte trim_space trim_left is_space is_empty
    has_prefix trim_prefix resolve resolve_one pop join split ◌=s◌
laptop_ne_root h = cc

old_ne_root : clean_path (codes "/Old") ≢ root
unfolding clean_path path_clean contains_any contains_byte trim_space trim_left is_space is_empty
    has_prefix trim_prefix resolve resolve_one pop join split ◌=s◌
old_ne_root h = cc

different : (s t : Str) → (s =s t) ≡ false → s ≢ t
different s t h e = cc ((=s_iff s t).1 e)

moved_elsewhere :
    translate listed_aliases.display_to_raw (codes "/Old")
    ≢ translate listed_aliases.display_to_raw (codes "/Laptop")
unfolding translate lookup_name split_first_component build_root_aliases device_candidates assign
    valid_alias root_aliases invalidate_all ask_result ◌>>=◌ on_result on_option clean_path
    browse_fresh browse_fresh_at browse_cached browse_with browse_fresh_with browse_fresh_from
    post_form is_success parent_dir path_dir browse_entries path_base contains_any limit_after
    parse_int contains contains_byte equal_fold has_prefix is_empty is_space join lower split
    to_lower to_upper trim_left trim_prefix trim_space upper api_error check_http_status
    parse_mod_time parse_size received cached_entry drop_all_stale drop_expired drop_one drop_stale
    fresh_entry invalidate_paths is_stale lookup_entry make_room put_entry remove_at store_browse
    store_current is ◌=s◌ browse_entry cached_or check_context flight head_of node_of
    require_writable_with ask attempt get_client lift pure raise set_client is_read_only_path
    join_clean path_clean path_join pop resolve resolve_one listed_or guard
moved_elsewhere = different _ _ refl

slash_is_root : (whole_drive.top =s root) ≡ true
unfolding ◌=s◌
slash_is_root = refl

rename_path-protected_example :
    IsRefused whole_drive none (codes "/Laptop") (codes "/Old") device_start
    × All IsHarmless
        (rename_path whole_drive none (codes "/Laptop") (codes "/Old") device_start).1.trace
rename_path-protected_example =
    rename_path-protected whole_drive none (codes "/Laptop") (codes "/Old") device_start
      listed_aliases slash_is_root names_devices laptop_ne_root old_ne_root one_component is_device
      moved_elsewhere tt

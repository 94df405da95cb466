-- ===== src/Tests/Gateway.antt =====
-- The theorems on WebDAV requests, at a request whose body comes in two pieces, at a drain that
-- waits for one request, and at a root with one device.
use idrive_unlimited.Base.{
  All, List, Str, [], arith, codes, contains_any, contains_byte, false, has_prefix, is_empty,
  is_space, join, negate, pos, refl, some, split, trim_left, trim_prefix, trim_space, true, ◌&&◌,
  ◌==◌, ◌=s◌, ◌||◌, ◌∷◌, ◌≡◌,
}
use idrive_unlimited.Evs.Journal.{is_ok}
use idrive_unlimited.Evs.Listing.{root_node}
use idrive_unlimited.Evs.Types.{DeviceMeta, Node}
use idrive_unlimited.Path.{clean_path, path_clean, pop, resolve, resolve_one}
use idrive_unlimited.Path.Clean.{IsName}
use idrive_unlimited.Webdav.Aliases.{
  RootAliases, assign, build_root_aliases, device_candidates, is_among, lookup_name, names_of_nodes,
  valid_alias,
}
use idrive_unlimited.Webdav.Aliases.RoundTrip.{build_root_aliases_round_trip}
use idrive_unlimited.Webdav.Handler.{
  Handler, Step, Steps, begin_request, drained, end_request, new_handler, no_step, request_begins,
  request_ends, start_drain, then_step,
}
use idrive_unlimited.Webdav.Handler.Drain.{drained_lem}
use idrive_unlimited.Webdav.Paths.{is_protected_root_rename_path, split_first_component, translate}
use idrive_unlimited.Webdav.Paths.Aliased.{translate-translate}
use idrive_unlimited.Webdav.Paths.Protected.{is_protected_root_rename_path-translate}
use idrive_unlimited.Webdav.WriteState.{
  ReadOutcome, complete, end_of_file, new_state, no_error, read_all,
}
use idrive_unlimited.Webdav.WriteState.Whole.{
  complete-read_all, fits, no_failure, reached_end, total,
}

abbrev two_pieces : List ReadOutcome
two_pieces = (3, no_error) ∷ (1, end_of_file) ∷ []

complete-read_all_example :
    is_ok (complete (read_all two_pieces (some (new_state true (pos 4))))) ≡ (
      no_failure two_pieces
      && (negate true || (reached_end two_pieces && fits (pos 4) (total two_pieces))))
complete-read_all_example = complete-read_all true (pos 4) two_pieces (omega arith)

abbrev one_request : Handler
one_request = record { active = 1; closing = false; idle = 1; closed = [] }

past : Steps new_handler one_request
unfolding begin_request
past = then_step (no_step new_handler) (request_begins new_handler one_request refl)

last_request : Step (start_drain one_request) (end_request (start_drain one_request))
unfolding start_drain
last_request = request_ends (start_drain one_request) (omega arith)

drained_lem_example :
    drained one_request (end_request (start_drain one_request))
    ≡ ((end_request (start_drain one_request)).active == 0)
drained_lem_example = drained_lem past (then_step (no_step (start_drain one_request)) last_request)

abbrev laptop : DeviceMeta
laptop = record {
  type_name = [];
  identifier = [];
  referencing_folder = [];
  name = codes "Laptop";
  adid = [];
  backup_time = [];
}

abbrev device_nodes : List Node
device_nodes = record root_node { name = codes "D01"; device = some laptop } ∷ []

shown :
    lookup_name (codes "D01") (build_root_aliases device_nodes).raw_to_display
    ≡ some (codes "Laptop")
unfolding build_root_aliases device_candidates assign valid_alias trim_space trim_left is_space
    is_empty contains_any contains_byte ◌=s◌
shown = refl

build_root_aliases_round_trip_example :
    lookup_name (codes "Laptop") (build_root_aliases device_nodes).display_to_raw
    ≡ some (codes "D01")
build_root_aliases_round_trip_example =
    build_root_aliases_round_trip device_nodes (codes "D01") (codes "Laptop") shown

abbrev device_file : Str
device_file = codes "/D01/a.txt"

d01_IsName : All IsName (names_of_nodes device_nodes)
unfolding is_empty contains_byte ◌=s◌
d01_IsName = (refl, tt)

in_listing : is_among (split_first_component device_file).0 (names_of_nodes device_nodes) ≡ true
unfolding split_first_component trim_prefix clean_path path_clean resolve resolve_one pop join split
    has_prefix contains_any trim_space trim_left is_space ◌=s◌ is_empty
in_listing = refl

translate-translate_example :
    translate
      (build_root_aliases device_nodes).display_to_raw
      (translate (build_root_aliases device_nodes).raw_to_display device_file)
    ≡ clean_path device_file
translate-translate_example = translate-translate device_nodes d01_IsName device_file in_listing

abbrev one_device : RootAliases
one_device = build_root_aliases device_nodes

same_place : is_protected_root_rename_path one_device (codes "/Laptop") (codes "/D01") ≡ false
unfolding is_protected_root_rename_path split_first_component trim_prefix clean_path path_clean
    resolve resolve_one pop join split has_prefix contains_any contains_byte trim_space trim_left
    is_space ◌=s◌ is_empty build_root_aliases device_candidates assign valid_alias
same_place = refl

is_protected_root_rename_path-translate_example :
    translate one_device.display_to_raw (codes "/D01")
    ≡ translate one_device.display_to_raw (codes "/Laptop")
unfolding is_protected_root_rename_path split_first_component trim_prefix clean_path path_clean
    resolve resolve_one pop join split has_prefix contains_any contains_byte trim_space trim_left
    is_space ◌=s◌ is_empty build_root_aliases device_candidates assign valid_alias
is_protected_root_rename_path-translate_example =
    is_protected_root_rename_path-translate one_device (codes "/Laptop") (codes "/D01") (λ h. cc)
      (λ h. cc) refl refl same_place

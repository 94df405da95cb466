-- ===== src/Tests/Storage.antt =====
-- The theorems on the local files of the gateway, over the service in memory.
use idrive_unlimited.Base.{
  All, List, Option, Str, [], arith, codes, contains, contains_any, contains_byte, equal_fold,
  false, has_prefix, is_empty, is_space, join, limit_after, lower, negate, negsuc, none, parse_int,
  pos, refl, some, split, to_lower, to_upper, trim_left, trim_prefix, trim_space, true, upper, ℕ, ℤ,
  ◌&&◌, ◌=s◌, ◌∷◌, ◌≡◌,
}
use idrive_unlimited.Evs.Api.{
  api_error, check_http_status, is_success, parse_mod_time, parse_size, post_form, received,
}
use idrive_unlimited.Evs.Cache.{
  cached_entry, drop_all_stale, drop_expired, drop_one, drop_stale, fresh_entry, invalidate_paths,
  is_stale, lookup_entry, make_room, put_entry, remove_at, store_browse, store_current,
}
use idrive_unlimited.Evs.Errors.{err, invalid, is, message, not_found, ok, sentinel}
use idrive_unlimited.Evs.Files.{WalkEntry, remove_file, walk_dir}
use idrive_unlimited.Evs.Footprint.{UploadAllows}
use idrive_unlimited.Evs.Journal.{is_ok}
use idrive_unlimited.Evs.Listing.{
  browse_cached, browse_entries, browse_entry, browse_fresh, browse_fresh_at, browse_fresh_from,
  browse_fresh_with, browse_with, cached_or, check_context, flight, head_of, listed_or, node_of,
  require_writable_with, root_node, stat,
}
use idrive_unlimited.Evs.Monad.{
  ask, attempt, get_client, guard, lift, on_option, on_result, pure, raise, set_client, when, ◌>>=◌,
}
use idrive_unlimited.Evs.Transfer.{ask_result, download_remote, download_to_file, opened}
use idrive_unlimited.Evs.Transfer.Chunks.{concat}
use idrive_unlimited.Evs.Types.{Node, on_disk}
use idrive_unlimited.Path.{
  clean_path, is_read_only_path, join_clean, parent_dir, path_base, path_clean, path_dir, path_join,
  pop, resolve, resolve_one,
}
use idrive_unlimited.Tests.Service.{file_answer, service, start}
use idrive_unlimited.Webdav.Directory.{DirFile, left_of}
use idrive_unlimited.Webdav.Directory.Pages.{read_pages, read_pages-left_of}
use idrive_unlimited.Webdav.Discard.{EndsWith, or_discard}
use idrive_unlimited.Webdav.Maintenance.{Found, evict, ignoring, sort_by_time}
use idrive_unlimited.Webdav.Maintenance.Budget.{Within, evict-sort-Within}
use idrive_unlimited.Webdav.Preconditions.{Headers, failed_tests, star}
use idrive_unlimited.Webdav.Preconditions.Meaning.{
  failed_tests_lem, match_holds, none_match_holds, since_holds,
}
use idrive_unlimited.Webdav.ReadCache.{FileCache, cache_file_valid, file_fits, fill, fill_temp}
use idrive_unlimited.Webdav.ReadCache.Cleanup.{fill_temp_discards}
use idrive_unlimited.Webdav.ReadCache.Fill.{Filled, fill-Filled}
use idrive_unlimited.Webdav.ReadFile.{ReadFile, Whence, from_current, from_end}
use idrive_unlimited.Webdav.ReadFile.Seeks.{exact_seeks, seek_all, seek_all-exact_seeks}
use idrive_unlimited.Webdav.WriteFile.{
  OpenFlags, WriteFile, close, new_write_file, open_target, open_temp, write, write_within,
}
use idrive_unlimited.Webdav.WriteFile.Commits.{
  IsLocal, close-footprint, close_incomplete, error_of, state_of, write-complete,
}
use idrive_unlimited.Webdav.WriteFile.Opening.{new_write_file_discards}
use idrive_unlimited.Webdav.WriteState.{WriteState, complete, new_state}

abbrev pruned_folder : Str
pruned_folder = codes "/cache"

abbrev walked : List WalkEntry
walked = file_answer (walk_dir pruned_folder)

abbrev two_files : Found
two_files = record {
  files =
      record { path = codes "/cache/d/b"; size = 4; mtime = 0 }
      ∷ record { path = codes "/cache/d/a"; size = 4; mtime = 0 }
      ∷ [];
  directories = codes "/cache/d" ∷ [];
  total = 8;
}

evict-sort-Within_example :
    Within
      (codes "/cache/d/a")
      []
      4
      two_files.files
      0
      (evict {E = service}
        (codes "/cache/d/a")
        []
        4
        (sort_by_time two_files.files)
        two_files.total
        start).0
evict-sort-Within_example =
    evict-sort-Within (λ p s. refl) (codes "/cache/d/a") [] 4 two_files start refl

abbrev no_flags : OpenFlags
no_flags = record { creating = false; exclusive = false; truncating = false; appending = false }

abbrev pub photo_cache : FileCache
photo_cache = record { root_dir = codes "/cache"; namespace = codes "n" }

abbrev changed_file : WriteFile
changed_file = record {
  cache = some photo_cache;
  remote = codes "/a.txt";
  temp = codes "/full";
  commit_on_close = false;
  dirty = true;
}

abbrev cut_short : Option WriteState
cut_short = some (new_state true (pos 4))

is_cut_short : complete cut_short ≡ err (message "unexpected EOF")
unfolding complete new_state
is_cut_short = refl

close_incomplete_example :
    (is_ok (close changed_file cut_short start).0 ≡ false)
    × All IsLocal (close changed_file cut_short start).1.trace
close_incomplete_example =
    close_incomplete changed_file cut_short (message "unexpected EOF") start is_cut_short refl tt

abbrev whole_body : Option WriteState
whole_body =
    some (record { put = true; body_length = pos 4; received = 4; eof = true; failed = none })

close-footprint_example :
    All
      (UploadAllows (clean_path changed_file.remote))
      (close changed_file whole_body start).1.trace
close-footprint_example = close-footprint changed_file whole_body start tt

write_fails : error_of (write changed_file cut_short (codes "x") start).0 ≡ some (sentinel invalid)
unfolding write write_within ask_result ◌>>=◌ on_result ◌=s◌
write_fails = refl

write-complete_example :
    is_ok (complete (state_of (write changed_file cut_short (codes "x") start).0)) ≡ false
write-complete_example =
    write-complete changed_file (new_state true (pos 4)) (codes "x") start 0 refl (sentinel invalid)
      write_fails

abbrev small_node : Node
small_node = record root_node { name = codes "a.txt"; is_dir = false; size = pos 4 }

from_cache :
    (fill photo_cache (codes "/a.txt") small_node (codes "/cache/n/k") start).0
    ≡ ok (codes "/cache/n/k")
unfolding fill check_context cache_file_valid file_fits guard ◌>>=◌ on_option
from_cache = refl

fill-Filled_example :
    Filled (codes "/a.txt") small_node (codes "/cache/n/k") photo_cache start (codes "/cache/n/k")
fill-Filled_example =
    fill-Filled small_node (codes "/cache/n/k") (codes "/cache/n/k") (codes "/a.txt") photo_cache
      start from_cache

not_there :
    (fill_temp photo_cache (codes "/b.txt") small_node (codes "/cache/n/k") (codes "/t") start).0
    ≡ err (sentinel not_found)
unfolding fill_temp or_discard download_to_file download_remote opened ask_result ◌>>=◌ on_result
    clean_path path_clean resolve resolve_one pop join split has_prefix contains_any contains_byte
    trim_space trim_left is_space is_empty ◌=s◌ ignoring when
not_there = refl

fill_temp_discards_example :
    EndsWith
      (on_disk (remove_file (codes "/t")))
      (fill_temp photo_cache
        (codes "/b.txt")
        small_node
        (codes "/cache/n/k")
        (codes "/t")
        start).1.trace
fill_temp_discards_example =
    fill_temp_discards (codes "/t") small_node (codes "/cache/n/k") photo_cache (codes "/b.txt")
      start (sentinel not_found) not_there

abbrev numbers : DirFile ℕ
numbers = record { entries = 1 ∷ 2 ∷ 3 ∷ []; position = 0 }

read_pages-left_of_example :
    (concat (read_pages 4 (pos 2) numbers).0 ≡ left_of numbers)
    × ((read_pages 4 (pos 2) numbers).1 ≡ true)
read_pages-left_of_example = read_pages-left_of 4 1 numbers (omega arith) (omega arith)

abbrev create_only : Headers
create_only = record { if_match = []; if_none_match = star; if_unmodified_since = [] }

failed_tests_lem_example :
    failed_tests create_only none [] (some small_node)
    ≡ negate (
        match_holds create_only (some small_node)
        && since_holds create_only none (some small_node)
        && none_match_holds create_only [] (some small_node))
failed_tests_lem_example = failed_tests_lem create_only none [] (some small_node)

refused_open : (new_write_file (codes "/b.txt") no_flags start).0 ≡ err (sentinel not_found)
unfolding new_write_file open_temp open_target or_discard ask_result ignoring when guard ◌>>=◌
    on_result on_option stat clean_path browse_fresh browse_fresh_at browse_cached browse_with
    browse_fresh_with browse_fresh_from post_form is_success parent_dir path_dir browse_entries
    path_base contains_any limit_after parse_int contains contains_byte equal_fold has_prefix
    is_empty is_space join lower split to_lower to_upper trim_left trim_prefix trim_space upper
    api_error check_http_status parse_mod_time parse_size received cached_entry drop_all_stale
    drop_expired drop_one drop_stale fresh_entry invalidate_paths is_stale lookup_entry make_room
    put_entry remove_at store_browse store_current is ◌=s◌ browse_entry cached_or check_context
    flight head_of node_of require_writable_with ask attempt get_client lift pure raise set_client
    is_read_only_path join_clean path_clean path_join pop resolve resolve_one listed_or
refused_open = refl

new_write_file_discards_example :
    EndsWith
      (on_disk (remove_file (codes "/1")))
      (new_write_file (codes "/b.txt") no_flags start).1.trace
new_write_file_discards_example =
    new_write_file_discards (codes "/b.txt") no_flags start (codes "/1") (sentinel not_found) refl
      refused_open

abbrev read_start : ReadFile
read_start = record { size = 10; pending = 0; closed = false }

abbrev some_moves : List (ℤ × Whence)
some_moves = (negsuc 3, from_end) ∷ (negsuc 9, from_current) ∷ (pos 1, from_current) ∷ []

seek_all-exact_seeks_example : seek_all some_moves read_start ≡ exact_seeks some_moves 10 0
seek_all-exact_seeks_example =
    seek_all-exact_seeks some_moves read_start refl (omega arith) (omega arith)
      (omega arith, (omega arith, (omega arith, tt)))

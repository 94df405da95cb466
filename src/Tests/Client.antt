-- ===== src/Tests/Client.antt =====
-- The theorems on listings, the cache, transfers and records over the service in memory.
use mathlib.Core.List.{Memᴰ}
use idrive_unlimited.Base.{
  All, Str, [], arith, codes, contains, contains_any, contains_byte, equal_fold, has_prefix,
  is_empty, is_space, join, limit_after, lower, none, parse_int, pos, refl, split, to_lower,
  to_upper, trim_left, trim_prefix, trim_space, upper, ℕ, ◌=s◌, ◌∷◌, ◌≡◌, ◌⊎◌,
}
use idrive_unlimited.Evs.Api.{
  api_error, check_http_status, is_success, parse_mod_time, parse_size, post_form, post_form_raw,
  received,
}
use idrive_unlimited.Evs.Cache.{
  cached_entry, drop_all_stale, drop_expired, drop_one, drop_stale, fresh_entry, invalidate_paths,
  is_stale, lookup_entry, make_room, put_entry, remove_at, store_browse, store_current,
}
use idrive_unlimited.Evs.Cache.Invalidate.{
  Covers, after_invalidation, before_invalidation, invalidate_paths-lookup,
}
use idrive_unlimited.Evs.Cache.Store.{Stored, store_browse-Stored, store_browse-stale}
use idrive_unlimited.Evs.Errors.{is, ok}
use idrive_unlimited.Evs.Listing.{
  browse_entries, browse_entry, browse_fresh, browse_fresh_at, browse_fresh_from, browse_fresh_with,
  browse_with, cached_or, check_context, flight, head_of, node_of, require_writable_with, root_node,
  stat_fresh,
}
use idrive_unlimited.Evs.Listing.Depth.{browse_fresh_at-depth}
use idrive_unlimited.Evs.Monad.{
  World, ask, attempt, get_client, guard, lift, on_option, pure, raise, set_client, ◌>>=◌,
}
use idrive_unlimited.Evs.Transfer.{
  chunk_part, download_remote, equal_hash, opened, read_limited, verify_upload,
}
use idrive_unlimited.Evs.Transfer.Chunks.{SendsFile, upload_chunks-SendsFile}
use idrive_unlimited.Evs.Transfer.Verify.{Verified, verify_upload_complete, verify_upload_sound}
use idrive_unlimited.Evs.Types.{UploadPart}
use idrive_unlimited.Path.{
  clean_path, is_read_only_path, join_clean, parent_dir, path_base, path_clean, path_dir, path_join,
  pop, resolve, resolve_one,
}
use idrive_unlimited.Tests.Service.{padded, service, start, transaction_id}

browse_fresh_at-depth_example :
    browse_fresh_at {E = service} 4 (codes "/Photos") ≡ browse_fresh (codes "/Photos")
browse_fresh_at-depth_example = browse_fresh_at-depth 2 (codes "/Photos")

abbrev old_hash : Str
old_hash = padded 32 (codes "old")

accepted : (verify_upload (codes "/a.txt") (pos 3) old_hash start).0 ≡ ok tt
unfolding verify_upload ◌>>=◌ stat_fresh ◌=s◌ clean_path browse_fresh browse_fresh_at
    browse_fresh_with browse_fresh_from post_form guard is_success parent_dir path_dir
    browse_entries path_base contains_any limit_after parse_int contains contains_byte equal_fold
    has_prefix is_empty is_space join lower split to_lower to_upper trim_left trim_prefix trim_space
    upper api_error check_http_status parse_mod_time parse_size received cached_entry drop_all_stale
    drop_expired drop_one drop_stale fresh_entry invalidate_paths is_stale lookup_entry make_room
    put_entry remove_at store_browse store_current is browse_entry browse_with cached_or
    check_context flight head_of node_of require_writable_with ask attempt get_client lift on_option
    pure raise set_client download_remote equal_hash opened read_limited is_read_only_path
    join_clean path_clean path_join pop resolve resolve_one
accepted = refl

verify_upload_sound_example : Verified (codes "/a.txt") (pos 3) old_hash start
verify_upload_sound_example = verify_upload_sound (codes "/a.txt") (pos 3) old_hash start accepted

verify_upload_complete_example : (verify_upload (codes "/a.txt") (pos 3) old_hash start).0 ≡ ok tt
verify_upload_complete_example =
    verify_upload_complete (codes "/a.txt") 3 old_hash start (omega arith)
      verify_upload_sound_example

abbrev part_of : ℕ → Str → UploadPart
part_of = chunk_part (codes "/a.txt") 0 4 1 (codes "s") transaction_id

upload_chunks-SendsFile_example : SendsFile part_of (codes "new!") start
unfolding post_form_raw
upload_chunks-SendsFile_example = upload_chunks-SendsFile part_of (codes "new!") start (λ p s. refl)

store_browse-Stored_example :
    Stored
      (codes "/Photos")
      (root_node ∷ [])
      (store_browse (codes "/Photos") (root_node ∷ []) none 0 start).1
store_browse-Stored_example =
    store_browse-Stored (codes "/Photos") (root_node ∷ []) none start (omega arith)

store_browse-stale_example :
    store_browse
      (codes "/Photos")
      (root_node ∷ [])
      none
      0
      (invalidate_paths (codes "/Photos/2023" ∷ []) start).1
    ≡ (ok tt, (invalidate_paths (codes "/Photos/2023" ∷ []) start).1)
store_browse-stale_example =
    store_browse-stale (codes "/Photos") (root_node ∷ []) none (codes "/Photos/2023" ∷ []) start
      (omega arith)

abbrev cached : World service
cached = (store_browse (codes "/Photos/2023") [] none 0 start).1

invalidate_paths-lookup_example :
    ((path : Str) × Memᴰ path (codes "/Photos" ∷ [])
      × Covers path (codes "/Photos/2023")
      × (after_invalidation (codes "/Photos" ∷ []) (codes "/Photos/2023") cached ≡ none))
    ⊎ (All (λ path. ¬ Covers path (codes "/Photos/2023")) (codes "/Photos" ∷ [])
        × (after_invalidation (codes "/Photos" ∷ []) (codes "/Photos/2023") cached
            ≡ before_invalidation (codes "/Photos" ∷ []) (codes "/Photos/2023") cached))
invalidate_paths-lookup_example =
    invalidate_paths-lookup (codes "/Photos" ∷ []) (codes "/Photos/2023") cached

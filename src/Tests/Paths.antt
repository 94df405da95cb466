-- ===== src/Tests/Paths.antt =====
-- The theorems on paths at paths of a drive.
use idrive_unlimited.Base.{
  Str, codes, contains_any, has_prefix, is_empty, is_space, join, split, trim_left, trim_space,
  ◌++◌, ◌=s◌, ◌≡◌, ◌≢◌,
}
use idrive_unlimited.Path.{
  clean_path, join_clean, parent_dir, path_base, path_clean, pop, resolve, resolve_one, root,
  strings_within,
}
use idrive_unlimited.Path.Parent.{strings_within_lem}
use idrive_unlimited.Path.Rejoin.{join_clean-parent_dir}
use idrive_unlimited.Webdav.Paths.{rooted_exposed, rooted_remote}
use idrive_unlimited.Webdav.Paths.Rooted.{
  IsInside, rooted_exposed-rooted_remote, rooted_remote-IsInside,
}

abbrev untidy : Str
untidy = codes "Photos//2024/./../2023/a.jpg"

untidy_ne_root : clean_path untidy ≢ root
unfolding clean_path path_clean resolve resolve_one pop join split has_prefix contains_any
    trim_space trim_left is_space ◌=s◌ is_empty
untidy_ne_root h = cc

join_clean-parent_dir_example :
    join_clean (parent_dir (clean_path untidy)) (path_base (clean_path untidy)) ≡ clean_path untidy
join_clean-parent_dir_example = join_clean-parent_dir untidy untidy_ne_root

strings_within_lem_example :
    strings_within (codes "/Photos/2023") (codes "/Photos")
    ≡ has_prefix (codes "/Photos/2023") (codes "/Photos" ++ root)
strings_within_lem_example = strings_within_lem (codes "/Photos/2023") (codes "/Photos")

photos_ne_root : clean_path (codes "Photos") ≢ root
unfolding clean_path path_clean resolve resolve_one pop join split has_prefix contains_any
    trim_space trim_left is_space ◌=s◌ is_empty
photos_ne_root h = cc

rooted_remote-IsInside_example :
    IsInside
      (clean_path (codes "Photos"))
      (rooted_remote (clean_path (codes "Photos")) (codes "2024/../../etc"))
rooted_remote-IsInside_example =
    rooted_remote-IsInside (codes "Photos") (codes "2024/../../etc") photos_ne_root

rooted_exposed-rooted_remote_example :
    rooted_exposed
      (clean_path (codes "Photos"))
      (rooted_remote (clean_path (codes "Photos")) (codes "/2024/a.jpg"))
    ≡ clean_path (codes "/2024/a.jpg")
rooted_exposed-rooted_remote_example =
    rooted_exposed-rooted_remote (codes "Photos") (codes "/2024/a.jpg") photos_ne_root

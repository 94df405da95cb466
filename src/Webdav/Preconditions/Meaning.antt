-- ===== src/Webdav/Preconditions/Meaning.antt =====
-- What checkPreconditions of internal/webdav/preconditions.go lets through.
use idrive_unlimited.Base.{
  Bool, Option, Str, arith, is_empty, is_some, negate, none, some, split, trim_space, true, ℕ, ◌&&◌,
  ◌=s◌, ◌||◌, ◌≡◌,
}
use idrive_unlimited.Evs.Types.{Node}
use idrive_unlimited.Webdav.Preconditions.{
  Headers, any_names, failed_tests, first_failed, star, unmodified_fails,
}

-- If-Match holds if it is absent, or if it is a star and there is a file: the tags are weak, and so
-- no tag matches strongly.
abbrev pub match_holds : Headers → Option Node → Bool
match_holds h node = is_empty h.if_match || (is_some node && trim_space h.if_match =s star)

-- If-Unmodified-Since counts where If-Match is absent, and where it is a date.
abbrev pub since_holds : Headers → Option ℕ → Option Node → Bool
since_holds h date none = true
since_holds h date (some node) =
    negate (is_empty h.if_match)
    || is_empty h.if_unmodified_since
    || negate (unmodified_fails node.mod_time date)

-- If-None-Match holds if it is absent, if there is no file, or if it neither is a star nor names
-- the tag of the file.
abbrev pub none_match_holds : Headers → Str → Option Node → Bool
none_match_holds h tag node =
    is_empty h.if_none_match
    || negate (is_some node)
    || negate (trim_space h.if_none_match =s star || any_names tag (split b',' h.if_none_match))

-- A write fails its preconditions if and only if one of the three headers does not hold.
pub failed_tests_lem :
    (h : Headers) (date : Option ℕ) (tag : Str) (node : Option Node)
    → failed_tests h date tag node
      ≡ negate (match_holds h node && since_holds h date node && none_match_holds h tag node)
unfolding failed_tests first_failed
failed_tests_lem h date tag none = ground arith
failed_tests_lem h date tag (some node) = ground arith

-- ===== src/Webdav/Preconditions.antt =====
-- checkPreconditions of internal/webdav/preconditions.go.
pub mod Meaning
use idrive_unlimited.Base.{
  Bool, List, Option, Str, [], codes, false, if◌then◌else◌, is_empty, is_some, ltb, negate, none,
  some, split, trim_prefix, trim_space, true, ℕ, ◌&&◌, ◌=s◌, ◌||◌, ◌∷◌,
}
use idrive_unlimited.Evs.Errors.{Result, err, is, not_found, ok}
use idrive_unlimited.Evs.Listing.{stat_fresh}
use idrive_unlimited.Evs.Monad.{Env, M, attempt, pure, ◌>>=◌, ◌>>◌}
use idrive_unlimited.Evs.Types.{Node}

-- The three headers; an absent header is empty.
pub record Headers : Type 0 where
  pub if_match : Str
  pub if_none_match : Str
  pub if_unmodified_since : Str

pub data Verdict : Type 0 where
  allowed : Verdict
  precondition_failed : Verdict
  unavailable : Verdict

abbrev pub weak_prefix : Str
weak_prefix = codes "W/"

abbrev pub star : Str
star = codes "*"

-- Whether a candidate of If-None-Match names the tag, by weak comparison.
unfoldable pub names_tag : Str → Str → Bool
names_tag tag candidate =
    trim_prefix (trim_space candidate) weak_prefix =s trim_prefix tag weak_prefix

abbrev pub any_names : Str → List Str → Bool
any_names tag [] = false
any_names tag (c ∷ cs) = names_tag tag c || any_names tag cs

-- The modification time, in seconds, is zero or later than the date.
abbrev modified_after : Option ℕ → ℕ → Bool
modified_after none date = true
modified_after (some seconds) date = ltb date seconds

abbrev pub unmodified_fails : Option ℕ → Option ℕ → Bool
unmodified_fails mod_time none = false
unmodified_fails mod_time (some date) = modified_after mod_time date

-- The first test: If-Match, or else If-Unmodified-Since.
unfoldable pub first_failed : Headers → Option ℕ → Option Node → Bool
first_failed h date node =
    if negate (is_empty h.if_match)
    then negate (is_some node) || negate (trim_space h.if_match =s star)
    else if negate (is_empty h.if_unmodified_since)
    then elim node [ none ↦ false | some n ↦ unmodified_fails n.mod_time date ]
    else false

unfoldable pub failed_tests : Headers → Option ℕ → Str → Option Node → Bool
failed_tests h date tag node =
    if negate (is_empty h.if_none_match) && is_some node
    then if trim_space h.if_none_match =s star
      then true
      else if any_names tag (split b',' h.if_none_match)
      then true
      else first_failed h date node
    else first_failed h date node

abbrev verdict : Bool → Verdict
verdict true = precondition_failed
verdict false = allowed

module _ {E : Env} where
  -- `parse_date` is http.ParseTime, in seconds, and `tag_of` the ETag of a node's info.
  unfoldable pub check_found : (Str → Option ℕ) → (Node → Str) → Headers → Result Node → M E Verdict
  check_found parse_date tag_of h (ok node) =
      pure (verdict (failed_tests h (parse_date h.if_unmodified_since) (tag_of node) (some node)))
  check_found parse_date tag_of h (err e) =
      if is e not_found
      then pure (verdict (failed_tests h (parse_date h.if_unmodified_since) [] none))
      else pure unavailable

  unfoldable pub check_preconditions : (Str → Option ℕ) → (Node → Str) → Headers → Str → M E Verdict
  check_preconditions parse_date tag_of h remote =
      if is_empty h.if_match && is_empty h.if_none_match && is_empty h.if_unmodified_since
      then pure allowed
      else (do node ← attempt (stat_fresh remote); check_found parse_date tag_of h node)

-- ===== src/Webdav/Directory.antt =====
-- dirFile of internal/webdav/fs.go: Readdir, with a count that is an int.
pub mod Pages
use idrive_unlimited.Base.{
  List, [], drop, if◌then◌else◌, leb, length, ltb, max_int64, negsuc, pos, suc, take, zero, ℕ, ℤ,
  ◌+◌,
}

-- A call outside the bounds of a slice panics.
pub data Page (A : Type 0) : Type 0 where
  page : List A → Page A
  no_more : Page A
  panics : Page A

pub record DirFile (A : Type 0) : Type 0 where
  pub entries : List A
  pub position : ℕ

module _ {A : Type 0} where
  abbrev pub left_of : DirFile A → List A
  left_of d = drop d.position d.entries

  abbrev pub rest_of : DirFile A → Page A × DirFile A
  rest_of d = (page (left_of d), record d { position = length d.entries })

  -- The sum of the position and the count wraps to a negative number above 2 ^ 63 - 1, which is no
  -- bound of a slice.
  unfoldable pub readdir : ℤ → DirFile A → Page A × DirFile A
  readdir (negsuc n) d = if leb (length d.entries) d.position then (page [], d) else rest_of d
  readdir (pos zero) d = if leb (length d.entries) d.position then (page [], d) else rest_of d
  readdir (pos (suc n)) d =
      if leb (length d.entries) d.position
      then (no_more, d)
      else if ltb max_int64 (d.position + suc n)
      then (panics, d)
      else if ltb (length d.entries) (d.position + suc n)
      then rest_of d
      else (page (take (suc n) (left_of d)), record d { position = d.position + suc n })

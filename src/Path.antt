-- ===== src/Path.antt =====
-- Remote paths: CleanPath, ParentDir, joinClean, mutablePath, IsReadOnlyPath of
-- internal/evs/client.go, stringsWithin of internal/evs/move.go, and the functions of Go's
-- package path that they call.
pub mod Clean
pub mod Parent
pub mod Rejoin
use idrive_unlimited.Base.{
  Bool, List, Option, Str, [], codes, contains_byte, drop, false, has_prefix, if◌then◌else◌,
  is_empty, join, length, ltb, negate, none, reverse, some, split, take, trim_prefix, true, ℕ, ◌&&◌,
  ◌++◌, ◌==◌, ◌=s◌, ◌||◌, ◌∷◌,
}

abbrev pub slash : ℕ
slash = b'/'

abbrev pub root : Str
root = slash ∷ []

abbrev pub dot : Str
dot = b'.' ∷ []

abbrev pub dotdot : Str
dotdot = b'.' ∷ b'.' ∷ []

-- A `..` component against the components kept so far, the last one first.
unfoldable pub pop : Bool → List Str → List Str
pop rooted [] = if rooted then [] else dotdot ∷ []
pop rooted (top ∷ rest) = if top =s dotdot then dotdot ∷ top ∷ rest else rest

unfoldable pub resolve_one : Bool → Str → List Str → List Str
unfolding pop
resolve_one rooted c kept =
    if is_empty c || c =s dot then kept else if c =s dotdot then pop rooted kept else c ∷ kept

unfoldable pub resolve : Bool → List Str → List Str → List Str
unfolding resolve_one
resolve rooted kept [] = kept
resolve rooted kept (c ∷ cs) = resolve rooted (resolve_one rooted c kept) cs

abbrev pub rooted_path : List Str → Str
rooted_path cs = slash ∷ join slash cs

-- What path.Clean writes for the components kept.
abbrev pub written : Bool → List Str → Str
written true cs = rooted_path cs
written false [] = dot
written false (c ∷ cs) = join slash (c ∷ cs)

-- path.Clean
unfoldable pub path_clean : Str → Str
unfolding resolve is_empty has_prefix split join ◌=s◌
path_clean s =
    if is_empty s
    then dot
    else let rooted = has_prefix s root in
      written rooted (reverse (resolve rooted [] (split slash s)))

unfoldable pub clean_path : Str → Str
unfolding path_clean
clean_path remote =
    if is_empty remote
    then root
    else let normalized = if has_prefix remote root then remote else slash ∷ remote in
      let clean = path_clean normalized in if clean =s dot then root else clean

abbrev pub last : List Str → Str
last [] = []
last (c ∷ []) = c
last (c ∷ d ∷ cs) = last (d ∷ cs)

abbrev pub init : List Str → List Str
init [] = []
init (c ∷ []) = []
init (c ∷ d ∷ cs) = c ∷ init (d ∷ cs)

-- The text up to and with its last slash.
abbrev pub dir_part : List Str → Str
dir_part [] = []
dir_part (c ∷ []) = []
dir_part (c ∷ d ∷ cs) = join slash (init (c ∷ d ∷ cs)) ++ root

-- path.Dir
unfoldable pub path_dir : Str → Str
unfolding path_clean
path_dir s = path_clean (dir_part (split slash s))

-- path.Base of a path that does not end in a slash, and of "/".
unfoldable pub path_base : Str → Str
unfolding ◌=s◌ is_empty split
path_base s = if is_empty s then dot else if s =s root then root else last (split slash s)

-- The part from the last dot of a component, empty if it has none.
unfoldable pub ext_of : Str → Str
unfolding contains_byte
ext_of [] = []
ext_of (c ∷ cs) = let rest = ext_of cs in if c == b'.' && is_empty rest then c ∷ cs else rest

-- path.Ext
unfoldable pub path_ext : Str → Str
unfolding ext_of split is_empty
path_ext s = ext_of (last (split slash s))

-- path.Join of two elements.
unfoldable pub path_join : Str → Str → Str
unfolding path_clean
path_join a b =
    if is_empty a
    then if is_empty b then [] else path_clean b
    else if is_empty b
    then path_clean a
    else path_clean (a ++ slash ∷ b)

unfoldable pub parent_dir : Str → Str
parent_dir remote =
    let clean = clean_path remote in
    if clean =s root
    then root
    else let parent = path_dir clean in if parent =s dot then root else parent

unfoldable pub join_clean : Str → Str → Str
join_clean parent name =
    if clean_path parent =s root
    then clean_path (slash ∷ name)
    else clean_path (path_join parent name)

abbrev pub last_byte : Str → Option ℕ
last_byte [] = none
last_byte (c ∷ []) = some c
last_byte (c ∷ d ∷ cs) = last_byte (d ∷ cs)

-- " \t\r\n\v\f"; every one is a single byte, so the last rune is one of them exactly when the
-- last byte is.
abbrev pub raw_whitespace : Str
raw_whitespace = 32 ∷ 9 ∷ 13 ∷ 10 ∷ 11 ∷ 12 ∷ []

abbrev pub ends_in_whitespace : Str → Bool
ends_in_whitespace component = elim (last_byte component) [
  | none ↦ false
  | some c ↦ contains_byte c raw_whitespace
]

abbrev pub any_component : List Str → Bool
any_component [] = false
any_component (c ∷ cs) = ends_in_whitespace c || any_component cs

-- The test of mutablePath: no component ends in whitespace.
unfoldable pub mutable_path : Str → Bool
unfolding split contains_byte
mutable_path name = negate (any_component (split slash name))

-- Second components that are read-only below a device.
abbrev pub is_special_folder : Str → Bool
is_special_folder name =
    name =s codes "Contacts"
    || name =s codes "Calendar"
    || name =s codes "Call Logs"
    || name =s codes "SMS"

abbrev pub special_second : List Str → Bool
special_second (device ∷ folder ∷ rest) = is_special_folder folder
special_second _ = false

unfoldable pub is_read_only_path : Str → Bool
unfolding trim_prefix split
is_read_only_path remote =
    let clean = clean_path remote in
    if clean =s root then false else special_second (split slash (trim_prefix clean root))

-- The byte at an index below the length.
abbrev pub byte_at : Str → ℕ → Option ℕ
byte_at s i = elim (drop i s) [ [] ↦ none | c ∷ rest ↦ some c ]

abbrev pub is_slash : Option ℕ → Bool
is_slash none = false
is_slash (some c) = c == slash

unfoldable pub strings_within : Str → Str → Bool
unfolding ◌=s◌
strings_within name parent =
    ltb (length parent) (length name)
    && (take (length parent) name =s parent)
    && is_slash (byte_at name (length parent))

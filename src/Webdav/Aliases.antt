-- ===== src/Webdav/Aliases.antt =====
-- The names under which the devices of the root are shown: buildRootAliases and its uses in
-- internal/webdav/fs.go. A Go map is the list of its assignments, the last one first.
pub mod Assigned
pub mod RoundTrip
use idrive_unlimited.Base.{
  Bool, List, Option, Str, [], contains_any, false, if◌then◌else◌, is_empty, negate, none, some,
  trim_space, ℕ, ◌&&◌, ◌+◌, ◌==◌, ◌=s◌, ◌||◌, ◌∷◌,
}
use idrive_unlimited.Evs.Types.{Node}
use idrive_unlimited.Path.{dot, dotdot, slash}

pub record RootAliases : Type 0 where
  pub raw_to_display : List (Str × Str)
  pub display_to_raw : List (Str × Str)
  pub protected_raw : List Str

abbrev pub lookup_name : Str → List (Str × Str) → Option Str
lookup_name k [] = none
lookup_name k ((l, v) ∷ rest) = if l =s k then some v else lookup_name k rest

abbrev pub is_among : Str → List Str → Bool
is_among n [] = false
is_among n (m ∷ ms) = m =s n || is_among n ms

-- A device of the root: its name on the service, and the name that it wants to have.
pub record Candidate : Type 0 where
  pub raw : Str
  pub display : Str

abbrev pub wanted_name : Str → Str → Str
wanted_name name device_name =
    let display = trim_space device_name in if is_empty display then name else display

unfoldable pub device_candidates : List Node → List Candidate
unfolding is_empty trim_space
device_candidates [] = []
device_candidates (node ∷ nodes) =
    let rest = device_candidates nodes in
    elim node.device [
      | none ↦ rest
      | some device ↦ record { raw = node.name; display = wanted_name node.name device.name } ∷ rest
    ]

abbrev pub names_of_nodes : List Node → List Str
names_of_nodes [] = []
names_of_nodes (node ∷ nodes) = node.name ∷ names_of_nodes nodes

abbrev pub candidate_count : Str → List Candidate → ℕ
candidate_count d [] = 0
candidate_count d (c ∷ cs) =
    let rest = candidate_count d cs in if c.display =s d then rest + 1 else rest

unfoldable pub valid_alias : Str → Bool
unfolding is_empty contains_any ◌=s◌
valid_alias name =
    negate (is_empty name)
    && negate (name =s dot)
    && negate (name =s dotdot)
    && negate (contains_any name (slash ∷ b'\\' ∷ 0 ∷ []))

-- Whether a device is shown under the name that it wants.
abbrev pub has_alias : List Str → List Candidate → Candidate → Bool
has_alias reserved cs c =
    negate (c.display =s c.raw)
    && valid_alias c.display
    && (candidate_count c.display cs == 1)
    && negate (is_among c.display reserved)

abbrev pub shown_name : List Str → List Candidate → Candidate → Str
shown_name reserved cs c = if has_alias reserved cs c then c.display else c.raw

-- The loop over the devices.
unfoldable pub assign : (Candidate → Str) → List Candidate → RootAliases → RootAliases
assign shown [] aliases = aliases
assign shown (c ∷ cs) aliases = assign shown cs (record {
  raw_to_display = (c.raw, shown c) ∷ aliases.raw_to_display;
  display_to_raw = (shown c, c.raw) ∷ aliases.display_to_raw;
  protected_raw = c.raw ∷ aliases.protected_raw;
})

abbrev pub no_aliases : RootAliases
no_aliases = record { raw_to_display = []; display_to_raw = []; protected_raw = [] }

unfoldable pub build_root_aliases : List Node → RootAliases
unfolding device_candidates assign
build_root_aliases nodes =
    let cs = device_candidates nodes in assign (shown_name (names_of_nodes nodes) cs) cs no_aliases

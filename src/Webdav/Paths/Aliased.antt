-- ===== src/Webdav/Paths/Aliased.antt =====
-- The translations with the aliases of a listing of the root.
use mathlib.Core.List.{Memᴰ}
use idrive_unlimited.Base.{
  =s_iff, All, Bool, Bool-cases, List, Option, Option-cases, Str, [], ap, arith, contains_any,
  contains_byte, false, if◌then◌else◌, inl, inr, none, refl, some, subst, sym, true, ◌=s◌, ◌∙◌, ◌∷◌,
  ◌≡◌,
}
use idrive_unlimited.Evs.Types.{Node}
use idrive_unlimited.Path.{clean_path, rooted_path, slash}
use idrive_unlimited.Path.Clean.{IsName, clean_path_lem, names_of, names_of-IsName}
use idrive_unlimited.Webdav.Aliases.{
  Candidate, build_root_aliases, device_candidates, has_alias, is_among, lookup_name,
  names_of_nodes, shown_name, valid_alias,
}
use idrive_unlimited.Webdav.Aliases.Assigned.{shown-Mem, shown_by, stands_by}
use idrive_unlimited.Webdav.Aliases.RoundTrip.{build_root_aliases_round_trip, reserved-candidates}
use idrive_unlimited.Webdav.Paths.{split_first_component, translate}
use idrive_unlimited.Webdav.Paths.Translate.{
  first_name, split_first_component-clean, split_first_component-names, translate-clean,
  translate-names, translate-root,
}

listed-IsName : (n : Str) (ns : List Str) → All IsName ns → is_among n ns ≡ true → IsName n
listed-IsName n [] h e = cc
listed-IsName n (m ∷ ns) h e = elim (Bool-cases (m =s n)) [
  | inl same ↦ subst IsName ((=s_iff m n).0 same) h.0
  | inr other ↦ listed-IsName n ns h.1 (ground arith)
]

no_slash :
    (n : Str) → contains_any n (slash ∷ b'\\' ∷ 0 ∷ []) ≡ false → contains_byte slash n ≡ false
unfolding contains_any contains_byte
no_slash [] h = refl
no_slash (c ∷ n) h = ground (arith, no_slash n)

valid_alias-IsName : (n : Str) → valid_alias n ≡ true → IsName n
unfolding valid_alias
valid_alias-IsName n h = ground (arith, no_slash n)

module _ (nodes : List Node) (valid : All IsName (names_of_nodes nodes)) where
  shown_as :
      (b : Bool) (c : Candidate)
      → Memᴰ c (device_candidates nodes)
      → has_alias (names_of_nodes nodes) (device_candidates nodes) c ≡ b
      → IsName (if b then c.display else c.raw)
  shown_as true c m e = valid_alias-IsName c.display (ground arith)
  shown_as false c m e = listed-IsName c.raw _ valid (reserved-candidates nodes c m)

  shown-IsName :
      (raw d : Str) → lookup_name raw (build_root_aliases nodes).raw_to_display ≡ some d → IsName d
  unfolding build_root_aliases
  shown-IsName raw d h =
      let (c, (m, (p, q))) =
        shown_by (shown_name (names_of_nodes nodes) (device_candidates nodes))
          (device_candidates nodes) raw d h in
      subst IsName q (shown_as _ c m refl)

  stands-IsName :
      (d raw : Str)
      → lookup_name d (build_root_aliases nodes).display_to_raw ≡ some raw
      → IsName raw
  unfolding build_root_aliases
  stands-IsName d raw h =
      let (c, (m, (p, q))) =
        stands_by (shown_name (names_of_nodes nodes) (device_candidates nodes))
          (device_candidates nodes) d raw h in
      subst IsName q (listed-IsName c.raw _ valid (reserved-candidates nodes c m))

module _ (nodes : List Node) where
  -- A listed name that is shown as it is stands for no other.
  stands_listed :
      (b : Bool) (c : Candidate) (name : Str)
      → is_among name (names_of_nodes nodes) ≡ true
      → has_alias (names_of_nodes nodes) (device_candidates nodes) c ≡ b
      → (if b then c.display else c.raw) ≡ name
      → c.raw ≡ name
  stands_listed true c name l h e =
      let taken : is_among c.display (names_of_nodes nodes) ≡ true =
        subst (λ x. is_among x (names_of_nodes nodes) ≡ true) (sym e) l in
      ground arith
  stands_listed false c name l h e = e

  stands-none :
      (name : Str)
      → is_among name (names_of_nodes nodes) ≡ true
      → lookup_name name (build_root_aliases nodes).raw_to_display ≡ none
      → lookup_name name (build_root_aliases nodes).display_to_raw ≡ none
  unfolding build_root_aliases
  stands-none name l n =
      elim (Option-cases (lookup_name name (build_root_aliases nodes).display_to_raw)) [
        | inl e ↦ e
        | inr (raw, e) ↦
            let (c, (m, (p, q))) =
              stands_by (shown_name (names_of_nodes nodes) (device_candidates nodes))
                (device_candidates nodes) name raw e in
            absurd (
              shown-Mem (shown_name (names_of_nodes nodes) (device_candidates nodes))
                (device_candidates nodes) c m
                (ap (λ k. lookup_name k (build_root_aliases nodes).raw_to_display)
                    (stands_listed _ c name l refl p)
                  ∙ n))
      ]

  -- The name that a listed name is shown as stands for it again.
  stands_again :
      (o : Option Str) (name : Str)
      → is_among name (names_of_nodes nodes) ≡ true
      → lookup_name name (build_root_aliases nodes).raw_to_display ≡ o
      → first_name
          (lookup_name (first_name o name) (build_root_aliases nodes).display_to_raw)
          (first_name o name)
        ≡ name
  stands_again none name l e = ap (λ r. first_name r name) (stands-none name l e)
  stands_again (some d) name l e =
      ap (λ r. first_name r d) (build_root_aliases_round_trip nodes name d e)

module _ (nodes : List Node) (valid : All IsName (names_of_nodes nodes)) where
  first-IsName :
      (o : Option Str) (c : Str) (cs : List Str)
      → lookup_name c (build_root_aliases nodes).raw_to_display ≡ o
      → All IsName (c ∷ cs)
      → All IsName (first_name o c ∷ cs)
  first-IsName none c cs e h = h
  first-IsName (some d) c cs e h = (shown-IsName nodes valid c d e, h.1)

  translate-names-again :
      (ns : List Str)
      → All IsName ns
      → is_among (split_first_component (rooted_path ns)).0 (names_of_nodes nodes) ≡ true
      → translate
          (build_root_aliases nodes).display_to_raw
          (translate (build_root_aliases nodes).raw_to_display (rooted_path ns))
        ≡ rooted_path ns
  translate-names-again [] h l =
      ap (translate (build_root_aliases nodes).display_to_raw)
        (translate-root (build_root_aliases nodes).raw_to_display)
      ∙ translate-root (build_root_aliases nodes).display_to_raw
  translate-names-again (c ∷ cs) h l =
      let listed : is_among c (names_of_nodes nodes) ≡ true =
        subst (λ s. is_among s.0 (names_of_nodes nodes) ≡ true) (split_first_component-names c cs h)
          l in
      let o = lookup_name c (build_root_aliases nodes).raw_to_display in
      ap (translate (build_root_aliases nodes).display_to_raw)
        (translate-names _ c cs (shown-IsName nodes valid c) h)
      ∙ translate-names _ (first_name o c) cs (stands-IsName nodes valid (first_name o c))
          (first-IsName o c cs refl h)
      ∙ ap (λ n. rooted_path (n ∷ cs)) (stands_again nodes o c listed refl)

  -- With the aliases of a listing of the root whose names are valid, a path on the service whose
  -- first component is in the listing is what its shown path stands for.
  pub translate-translate :
      (path : Str)
      → is_among (split_first_component path).0 (names_of_nodes nodes) ≡ true
      → translate
          (build_root_aliases nodes).display_to_raw
          (translate (build_root_aliases nodes).raw_to_display path)
        ≡ clean_path path
  translate-translate path l =
      ap (translate (build_root_aliases nodes).display_to_raw)
        (sym (translate-clean (build_root_aliases nodes).raw_to_display path))
      ∙ subst
          (λ p.
            translate (build_root_aliases nodes).display_to_raw
              (translate (build_root_aliases nodes).raw_to_display p)
            ≡ p)
          (sym (clean_path_lem path))
          (translate-names-again (names_of path) (names_of-IsName path) (
            subst (λ p. is_among (split_first_component p).0 (names_of_nodes nodes) ≡ true)
              (clean_path_lem path)
              (subst (λ s. is_among s.0 (names_of_nodes nodes) ≡ true)
                (sym (split_first_component-clean path)) l)))

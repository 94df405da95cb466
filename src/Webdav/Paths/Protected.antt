-- ===== src/Webdav/Paths/Protected.antt =====
-- The devices of the root keep their names: what isProtectedRootRenamePath lets through.
use mathlib.Core.List.{append-nil}
use idrive_unlimited.Base.{
  =s_iff, All, Bool, List, Option, Str, [], ap, false, is_empty, join, negate, none, refl, some,
  subst, sym, true, ◌&&◌, ◌=s◌, ◌||◌, ◌∙◌, ◌∷◌, ◌≡◌, ◌≢◌,
}
use idrive_unlimited.Path.{clean_path, root, rooted_path, slash}
use idrive_unlimited.Path.Clean.{
  IsName, clean_path-rooted_path, clean_path_lem, names_of, names_of-IsName,
}
use idrive_unlimited.Path.Parent.{IsName-nonempty, rooted_path-ne-root}
use idrive_unlimited.Webdav.Aliases.{RootAliases, is_among, lookup_name}
use idrive_unlimited.Webdav.Paths.{
  is_protected_root_rename_path, replaced, resolved, split_first_component, translate,
}
use idrive_unlimited.Webdav.Paths.Translate.{
  split_first_component-clean, split_first_component-names, tail_text, translate-clean,
}

replaced_single :
    (o : Option Str) (c : Str)
    → IsName c
    → replaced o [] (rooted_path (c ∷ []))
      ≡ clean_path (slash ∷ (elim o [ none ↦ c | some raw ↦ raw ]))
unfolding join
replaced_single none c h = sym (unfold join in clean_path-rooted_path (c ∷ []) (h, tt))
replaced_single (some n) c h = ap (λ t. clean_path (slash ∷ t)) (append-nil n)

-- The remote path of a path of one component.
translate_single :
    (a : RootAliases) (c : Str)
    → IsName c
    → translate a.display_to_raw (rooted_path (c ∷ [])) ≡ clean_path (slash ∷ resolved a c)
unfolding translate
translate_single a c h = rw (clean_path-rooted_path (c ∷ []) (h, tt)) (
    rw (split_first_component-names c [] (h, tt)) (
      rw (rooted_path-ne-root c [] h)
        (rw (IsName-nonempty c h) (replaced_single (lookup_name c a.display_to_raw) c h))))

no_tail : (cs : List Str) → is_empty (tail_text cs) ≡ true → cs ≡ []
unfolding is_empty
no_tail [] h = refl
no_tail (d ∷ ds) h = cc

allowed :
    (e f p q t : Bool)
    → e ≡ false
    → f ≡ false
    → p ≡ true
    → (negate (e || f) && true && p && (negate q || negate t)) ≡ false
    → (q ≡ true) × (t ≡ true)
allowed true f p q t h i j k = cc
allowed false true p q t h i j k = cc
allowed false false false q t h i j k = cc
allowed false false true false t h i j k = cc
allowed false false true true false h i j k = cc
allowed false false true true true h i j k = (refl, refl)

module _ (a : RootAliases) where
  protected-names :
      (c d : Str) (ds : List Str)
      → IsName c
      → All IsName (d ∷ ds)
      → is_among (resolved a c) a.protected_raw ≡ true
      → is_protected_root_rename_path a (rooted_path (c ∷ [])) (rooted_path (d ∷ ds)) ≡ false
      → ((resolved a c =s resolved a d) ≡ true) × (is_empty (tail_text ds) ≡ true)
  unfolding is_protected_root_rename_path is_empty
  protected-names c d ds h k p n =
      allowed (is_empty c) (is_empty d) _ _ _ (IsName-nonempty c h) (IsName-nonempty d k.0) p
        (rw (split_first_component-names c [] (h, tt), split_first_component-names d ds k) at n)

  moved_nowhere :
      (c d : Str) (ds : List Str)
      → IsName c
      → All IsName (d ∷ ds)
      → ((resolved a c =s resolved a d) ≡ true) × (is_empty (tail_text ds) ≡ true)
      → translate a.display_to_raw (rooted_path (d ∷ ds))
        ≡ translate a.display_to_raw (rooted_path (c ∷ []))
  moved_nowhere c d ds h k (same, single) =
      ap (λ l. translate a.display_to_raw (rooted_path (d ∷ l))) (no_tail ds single)
      ∙ translate_single a d k.0
      ∙ ap (λ n. clean_path (slash ∷ n)) (sym ((=s_iff (resolved a c) (resolved a d)).0 same))
      ∙ sym (translate_single a c h)

  let_through :
      (os ns : List Str)
      → All IsName os
      → All IsName ns
      → rooted_path os ≢ root
      → rooted_path ns ≢ root
      → (split_first_component (rooted_path os)).1 ≡ []
      → is_among (resolved a (split_first_component (rooted_path os)).0) a.protected_raw ≡ true
      → is_protected_root_rename_path a (rooted_path os) (rooted_path ns) ≡ false
      → translate a.display_to_raw (rooted_path ns) ≡ translate a.display_to_raw (rooted_path os)
  unfolding join
  let_through [] ns h k o n s p r = absurd (o refl)
  let_through (c ∷ cs) [] h k o n s p r = absurd (n refl)
  let_through (c ∷ e ∷ cs) (d ∷ ds) h k o n s p r =
      let t : slash ∷ join slash (e ∷ cs) ≡ [] =
        ap (λ q. q.1) (sym (split_first_component-names c (e ∷ cs) h)) ∙ s in
      cc
  let_through (c ∷ []) (d ∷ ds) h k o n s p r = moved_nowhere c d ds h.0 k (
      protected-names c d ds h.0 k
        (subst (λ q. is_among (resolved a q.0) a.protected_raw ≡ true)
          (split_first_component-names c [] h) p)
        r)

  protected-clean :
      (old new : Str)
      → is_protected_root_rename_path a (clean_path old) (clean_path new)
        ≡ is_protected_root_rename_path a old new
  unfolding is_protected_root_rename_path
  protected-clean old new = rw (split_first_component-clean old, split_first_component-clean new)

  -- A device of the root stays in its place: where the old name is that of a device, under its
  -- own name or its alias, and the new name is not the root, a rename that is let through has one
  -- remote path for both names.
  pub is_protected_root_rename_path-translate :
      (old new : Str)
      → clean_path old ≢ root
      → clean_path new ≢ root
      → (split_first_component old).1 ≡ []
      → is_among (resolved a (split_first_component old).0) a.protected_raw ≡ true
      → is_protected_root_rename_path a old new ≡ false
      → translate a.display_to_raw new ≡ translate a.display_to_raw old
  is_protected_root_rename_path-translate old new o n s p r =
      sym (translate-clean a.display_to_raw new)
      ∙ cleaned (clean_path old) (clean_path new) (names_of old) (names_of new) (clean_path_lem old)
          (clean_path_lem new) (names_of-IsName old) (names_of-IsName new) o n
          (ap (λ q. q.1) (split_first_component-clean old) ∙ s)
          (ap (λ q. is_among (resolved a q.0) a.protected_raw) (split_first_component-clean old)
            ∙ p)
          (protected-clean old new ∙ r)
      ∙ translate-clean a.display_to_raw old
    where
      cleaned :
          (o n : Str) (os ns : List Str)
          → o ≡ rooted_path os
          → n ≡ rooted_path ns
          → All IsName os
          → All IsName ns
          → o ≢ root
          → n ≢ root
          → (split_first_component o).1 ≡ []
          → is_among (resolved a (split_first_component o).0) a.protected_raw ≡ true
          → is_protected_root_rename_path a o n ≡ false
          → translate a.display_to_raw n ≡ translate a.display_to_raw o
      cleaned o n os ns e f h k = rw (e, f) (let_through os ns h k)

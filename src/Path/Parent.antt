-- ===== src/Path/Parent.antt =====
-- ParentDir, path.Base and joinClean on clean paths, stringsWithin, and the read-only test.
use mathlib.Core.List.{reverse-reverse, append-nil, append_assoc, reverse-append}
use idrive_unlimited.Base.{
  All, All-append, List, Str, [], ap, arith, false, has_prefix, is_empty, join, refl, reverse,
  split, sym, true, ◌++◌, ◌=s◌, ◌∙◌, ◌∷◌, ◌≡◌,
}
use idrive_unlimited.Path.{
  clean_path, dir_part, dot, init, join_clean, last, parent_dir, path_base, path_clean, path_dir,
  path_join, resolve, resolve_one, root, rooted_path, slash, strings_within,
}
use idrive_unlimited.Path.Clean.{
  IsName, IsNames-NoSlash, NoSlash, clean_path-rooted_path, components, components-rooted_path,
  path_clean-rooted, resolve_one_name, rooted_path-ne-dot, split-append, split-join,
}

-- stringsWithin says that a path is below a parent if and only if the path begins with the parent
-- and a slash.
pub strings_within_lem :
    (name parent : Str) → strings_within name parent ≡ has_prefix name (parent ++ root)
unfolding strings_within ◌=s◌ has_prefix
strings_within_lem [] [] = refl
strings_within_lem (c ∷ name) [] = ground arith
strings_within_lem [] (p ∷ parent) = ground arith
strings_within_lem (c ∷ name) (p ∷ parent) = ground (arith, strings_within_lem name parent)

init-append : (cs : List Str) (c : Str) → init (cs ++ c ∷ []) ≡ cs
init-append [] c = refl
init-append (d ∷ []) c = refl
init-append (d ∷ e ∷ cs) c = ap (λ l. d ∷ l) (init-append (e ∷ cs) c)

last-append : (cs : List Str) (c : Str) → last (cs ++ c ∷ []) ≡ c
last-append [] c = refl
last-append (d ∷ []) c = refl
last-append (d ∷ e ∷ cs) c = last-append (e ∷ cs) c

join-append :
    (d : Str) (cs : List Str) (c : Str)
    → join slash (d ∷ cs ++ c ∷ []) ≡ join slash (d ∷ cs) ++ slash ∷ c
unfolding join
join-append d [] c = refl
join-append d (e ∷ cs) c =
    ap (λ t. d ++ slash ∷ t) (join-append e cs c)
    ∙ sym (append_assoc d (slash ∷ join slash (e ∷ cs)) (slash ∷ c))

names-append : (cs : List Str) (c : Str) → All IsName cs → IsName c → All IsName (cs ++ c ∷ [])
names-append cs c h k = All-append IsName cs (c ∷ []) h (k, tt)

split-rooted_path :
    (d : Str) (cs : List Str)
    → All IsName (d ∷ cs)
    → split slash (rooted_path (d ∷ cs)) ≡ [] ∷ d ∷ cs
unfolding split
split-rooted_path d cs h = ap (λ l. [] ∷ l) (split-join d cs (IsNames-NoSlash (d ∷ cs) h))

-- A slash at the end adds an empty component, which path.Clean drops.
split_trailing :
    (d : Str) (cs : List Str)
    → All NoSlash (d ∷ cs)
    → split slash (join slash (d ∷ cs) ++ root) ≡ d ∷ cs ++ [] ∷ []
unfolding join
split_trailing d [] h = split-append d [] h.0 ∙ (unfold split in refl)
split_trailing d (e ∷ cs) h =
    ap (split slash) (append_assoc d (slash ∷ join slash (e ∷ cs)) root)
    ∙ split-append d (join slash (e ∷ cs) ++ root) h.0
    ∙ ap (λ l. d ∷ l) (split_trailing e cs h.1)

resolve_trailing :
    (cs kept : List Str) → All IsName cs → resolve true kept (cs ++ [] ∷ []) ≡ reverse cs ++ kept
unfolding resolve
resolve_trailing [] kept h = unfold resolve_one is_empty in refl
resolve_trailing (c ∷ cs) kept h =
    ap (λ k. resolve true k (cs ++ [] ∷ [])) (resolve_one_name c kept h.0)
    ∙ resolve_trailing cs (c ∷ kept) h.1
    ∙ sym (rw (reverse-append (c ∷ []) cs) (append_assoc (reverse cs) (c ∷ []) kept))

resolve_slashed :
    (d : Str) (cs : List Str)
    → All IsName (d ∷ cs)
    → resolve true [] ([] ∷ d ∷ cs ++ [] ∷ []) ≡ reverse (d ∷ cs)
unfolding resolve resolve_one is_empty
resolve_slashed d cs h = resolve_trailing (d ∷ cs) [] h ∙ append-nil (reverse (d ∷ cs))

split_slashed :
    (d : Str) (cs : List Str)
    → All IsName (d ∷ cs)
    → split slash (rooted_path (d ∷ cs) ++ root) ≡ [] ∷ d ∷ cs ++ [] ∷ []
unfolding split
split_slashed d cs h = ap (λ l. [] ∷ l) (split_trailing d cs (IsNames-NoSlash (d ∷ cs) h))

components_trailing :
    (d : Str) (cs : List Str)
    → All IsName (d ∷ cs)
    → components (rooted_path (d ∷ cs) ++ root) ≡ d ∷ cs
unfolding components
components_trailing d cs h =
    ap (λ l. reverse (resolve true [] l)) (split_slashed d cs h)
    ∙ ap reverse (resolve_slashed d cs h)
    ∙ reverse-reverse (d ∷ cs)

path_dir-append :
    (cs : List Str) (c : Str)
    → All IsName cs
    → IsName c
    → path_dir (rooted_path (cs ++ c ∷ [])) ≡ rooted_path cs
unfolding path_dir
path_dir-append [] c h k =
    ap (λ l. path_clean (dir_part l)) (split-rooted_path c [] (k, tt))
    ∙ (unfold join in path_clean-rooted root (unfold has_prefix in refl))
    ∙ ap (λ l. rooted_path l) (unfold join in components-rooted_path [] tt)
path_dir-append (d ∷ cs) c h k =
    ap (λ l. path_clean (dir_part l))
      (split-rooted_path d (cs ++ c ∷ []) (names-append (d ∷ cs) c h k))
    ∙ ap (λ l. path_clean (join slash ([] ∷ l) ++ root)) (init-append (d ∷ cs) c)
    ∙ (unfold join in path_clean-rooted (rooted_path (d ∷ cs) ++ root) (unfold has_prefix in refl))
    ∙ ap (λ l. rooted_path l) (components_trailing d cs h)

pub rooted_path-ne-root :
    (d : Str) (cs : List Str) → IsName d → (rooted_path (d ∷ cs) =s root) ≡ false
unfolding ◌=s◌ is_empty
rooted_path-ne-root [] cs k = cc
rooted_path-ne-root (x ∷ d) [] k = unfold join in refl
rooted_path-ne-root (x ∷ d) (e ∷ cs) k = unfold join in refl

parent_dir_clean :
    (s dir : Str)
    → clean_path s ≡ s
    → (s =s root) ≡ false
    → path_dir s ≡ dir
    → (dir =s dot) ≡ false
    → parent_dir s ≡ dir
unfolding parent_dir
parent_dir_clean s dir e n d m = rw e (rw n (rw d (rw m)))

-- The parent of a path below the root.
pub parent_dir-append :
    (cs : List Str) (c : Str)
    → All IsName cs
    → IsName c
    → parent_dir (rooted_path (cs ++ c ∷ [])) ≡ rooted_path cs
parent_dir-append [] c h k =
    parent_dir_clean _ _ (clean_path-rooted_path (c ∷ []) (k, tt)) (rooted_path-ne-root c [] k)
      (path_dir-append [] c h k) (rooted_path-ne-dot [])
parent_dir-append (d ∷ cs) c h k =
    parent_dir_clean _ _ (clean_path-rooted_path (d ∷ cs ++ c ∷ []) (names-append (d ∷ cs) c h k))
      (rooted_path-ne-root d (cs ++ c ∷ []) h.0) (path_dir-append (d ∷ cs) c h k)
      (rooted_path-ne-dot (d ∷ cs))

pub path_base-append :
    (cs : List Str) (c : Str)
    → All IsName cs
    → IsName c
    → path_base (rooted_path (cs ++ c ∷ [])) ≡ c
unfolding path_base
path_base-append [] c h k =
    rw (rooted_path-ne-root c [] k) (unfold is_empty in ap last (split-rooted_path c [] (k, tt)))
path_base-append (d ∷ cs) c h k = rw (rooted_path-ne-root d (cs ++ c ∷ []) h.0) (
    unfold is_empty in
    ap last (split-rooted_path d (cs ++ c ∷ []) (names-append (d ∷ cs) c h k))
    ∙ last-append (d ∷ cs) c)

pub IsName-nonempty : (c : Str) → IsName c → is_empty c ≡ false
IsName-nonempty c h = ground arith

path_join-append :
    (d : Str) (cs : List Str) (c : Str)
    → All IsName (d ∷ cs)
    → IsName c
    → path_join (rooted_path (d ∷ cs)) c ≡ rooted_path (d ∷ cs ++ c ∷ [])
unfolding path_join
path_join-append d cs c h k = rw (IsName-nonempty c k) (
    unfold is_empty in
    ap (λ t. path_clean (slash ∷ t)) (sym (join-append d cs c))
    ∙ (unfold has_prefix in path_clean-rooted (rooted_path (d ∷ cs ++ c ∷ [])) refl)
    ∙ ap (λ l. rooted_path l)
        (components-rooted_path (d ∷ cs ++ c ∷ []) (names-append (d ∷ cs) c h k)))

-- joinClean puts one plain name below a clean path.
pub join_clean-append :
    (cs : List Str) (c : Str)
    → All IsName cs
    → IsName c
    → join_clean (rooted_path cs) c ≡ rooted_path (cs ++ c ∷ [])
unfolding join_clean
join_clean-append [] c h k =
    rw (clean_path-rooted_path [] tt) (unfold ◌=s◌ join in clean_path-rooted_path (c ∷ []) (k, tt))
join_clean-append (d ∷ cs) c h k = rw (clean_path-rooted_path (d ∷ cs) h) (
    rw (rooted_path-ne-root d cs h.0) (
      ap clean_path (path_join-append d cs c h k)
      ∙ clean_path-rooted_path (d ∷ cs ++ c ∷ []) (names-append (d ∷ cs) c h k)))

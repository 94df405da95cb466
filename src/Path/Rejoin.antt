-- ===== src/Path/Rejoin.antt =====
-- A clean path is its parent joined with its base, and a path of one name is writable.
use idrive_unlimited.Base.{
  All, List, Str, [], ap, false, has_prefix, join, refl, subst, sym, ◌++◌, ◌∙◌, ◌∷◌, ◌≡◌, ◌≢◌,
}
use idrive_unlimited.Path.{
  clean_path, init, is_read_only_path, join_clean, last, parent_dir, path_base, root, rooted_path,
  special_second,
}
use idrive_unlimited.Path.Clean.{
  IsName, IsNames-NoSlash, clean_path-rooted_path, clean_path_lem, names_of, names_of-IsName,
  split-join,
}
use idrive_unlimited.Path.Parent.{
  join_clean-append, parent_dir-append, path_base-append, rooted_path-ne-root,
}

pub init-last-append : (d : Str) (cs : List Str) → init (d ∷ cs) ++ last (d ∷ cs) ∷ [] ≡ d ∷ cs
init-last-append d [] = refl
init-last-append d (e ∷ cs) = ap (λ l. d ∷ l) (init-last-append e cs)

pub All-init : (cs : List Str) → All IsName cs → All IsName (init cs)
All-init [] h = tt
All-init (c ∷ []) h = tt
All-init (c ∷ d ∷ cs) h = (h.0, All-init (d ∷ cs) h.1)

pub IsName-last : (d : Str) (cs : List Str) → All IsName (d ∷ cs) → IsName (last (d ∷ cs))
IsName-last d [] h = h.0
IsName-last d (e ∷ cs) h = IsName-last e cs h.1

abbrev rejoined : Str → Str
rejoined p = join_clean (parent_dir p) (path_base p)

rejoined-names :
    (cs : List Str)
    → All IsName cs
    → rooted_path cs ≢ root
    → rejoined (rooted_path cs) ≡ rooted_path cs
rejoined-names [] h n = absurd (n (unfold join in refl))
rejoined-names (d ∷ cs) h n =
    subst (λ l. rejoined (rooted_path l) ≡ rooted_path l) (init-last-append d cs) again
  where
    i : All IsName (init (d ∷ cs))
    i = All-init (d ∷ cs) h

    k : IsName (last (d ∷ cs))
    k = IsName-last d cs h

    again :
        rejoined (rooted_path (init (d ∷ cs) ++ last (d ∷ cs) ∷ []))
        ≡ rooted_path (init (d ∷ cs) ++ last (d ∷ cs) ∷ [])
    again = rw (parent_dir-append (init (d ∷ cs)) (last (d ∷ cs)) i k) (
        rw (path_base-append (init (d ∷ cs)) (last (d ∷ cs)) i k)
          (join_clean-append (init (d ∷ cs)) (last (d ∷ cs)) i k))

-- A cleaned path that is not the root is its parent joined with its last component.
pub join_clean-parent_dir :
    (s : Str)
    → clean_path s ≢ root
    → join_clean (parent_dir (clean_path s)) (path_base (clean_path s)) ≡ clean_path s
join_clean-parent_dir s n =
    subst (λ p. rejoined p ≡ p) (sym (clean_path_lem s))
      (rejoined-names (names_of s) (names_of-IsName s) (λ e. n (clean_path_lem s ∙ e)))

-- A path of one component is never in a read-only folder of a device.
pub is_read_only_path_single :
    (c : Str) → IsName c → is_read_only_path (rooted_path (c ∷ [])) ≡ false
unfolding is_read_only_path has_prefix
is_read_only_path_single c h = rw (clean_path-rooted_path (c ∷ []) (h, tt)) (
    rw (rooted_path-ne-root c [] h)
      (unfold join in ap special_second (split-join c [] (IsNames-NoSlash (c ∷ []) (h, tt)))))

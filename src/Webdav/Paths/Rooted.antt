-- ===== src/Webdav/Paths/Rooted.antt =====
-- A FileSystem below a folder of the drive: its paths on the service and the paths it shows.
use mathlib.Core.List.{append_assoc, reverse-append, reverse-reverse}
use idrive_unlimited.Base.{
  =s_refl, All, All-append, List, Str, [], ap, arith, contains_byte, false, has_prefix,
  has_prefix-append, inl, inr, is_empty, join, refl, reverse, subst, sym, trim_prefix, trim_suffix,
  true, ℕ, ◌++◌, ◌==◌, ◌=s◌, ◌∙◌, ◌∷◌, ◌≡◌, ◌≢◌, ◌⊎◌,
}
use idrive_unlimited.Path.{
  clean_path, path_clean, path_join, root, rooted_path, slash, strings_within,
}
use idrive_unlimited.Path.Clean.{
  IsName, IsName-NoSlash, clean_path-clean_path, clean_path-rooted_path, clean_path_lem,
  components-rooted_path, names_of, names_of-IsName, path_clean-rooted,
}
use idrive_unlimited.Path.Parent.{rooted_path-ne-root, strings_within_lem}
use idrive_unlimited.Webdav.Paths.{rooted_exposed, rooted_remote}

join-names :
    (c : Str) (cs : List Str) (d : Str) (ds : List Str)
    → join slash ((c ∷ cs) ++ d ∷ ds) ≡ join slash (c ∷ cs) ++ slash ∷ join slash (d ∷ ds)
unfolding join
join-names c [] d ds = refl
join-names c (e ∷ cs) d ds =
    ap (λ t. c ++ slash ∷ t) (join-names e cs d ds)
    ∙ sym (append_assoc c (slash ∷ join slash (e ∷ cs)) (slash ∷ join slash (d ∷ ds)))

pub trim_prefix_self : (p s : Str) → trim_prefix (p ++ s) p ≡ s
unfolding trim_prefix
trim_prefix_self [] s = refl
trim_prefix_self (c ∷ p) s = ground (arith, has_prefix-append p s, trim_prefix_self p s)

-- A path whose last byte is no slash.
abbrev EndsPlain : Str → Type 0
EndsPlain p = (s : Str) × (x : ℕ) × (p ≡ s ++ x ∷ []) × ((x == slash) ≡ false)

EndsPlain-append : (a p : Str) → EndsPlain p → EndsPlain (a ++ p)
EndsPlain-append a p (s, x, e, n) =
    (a ++ s, x, ap (λ t. a ++ t) e ∙ sym (append_assoc a s (x ∷ [])), n)

EndsPlain-name : (c : Str) → IsName c → EndsPlain c
unfolding contains_byte is_empty
EndsPlain-name [] h = ground arith
EndsPlain-name (x ∷ c) h = plain x c (IsName-NoSlash (x ∷ c) h)
  where
    plain : (x : ℕ) (c : Str) → contains_byte slash (x ∷ c) ≡ false → EndsPlain (x ∷ c)
    plain x [] h = ([], x, refl, ground arith)
    plain x (y ∷ c) h = EndsPlain-append (x ∷ []) (y ∷ c) (plain y c (ground arith))

EndsPlain-join : (c : Str) (cs : List Str) → All IsName (c ∷ cs) → EndsPlain (join slash (c ∷ cs))
unfolding join
EndsPlain-join c [] h = EndsPlain-name c h.0
EndsPlain-join c (d ∷ cs) h =
    EndsPlain-append c (slash ∷ join slash (d ∷ cs))
      (EndsPlain-append root (join slash (d ∷ cs)) (EndsPlain-join d cs h.1))

trim_suffix-snoc :
    (s : Str) (x : ℕ) → (x == slash) ≡ false → trim_suffix (s ++ x ∷ []) root ≡ s ++ x ∷ []
unfolding trim_suffix trim_prefix
trim_suffix-snoc s x n =
    ap (λ t. reverse (trim_prefix t root)) (reverse-append s (x ∷ []))
    ∙ rw n (reverse-append (x ∷ []) (reverse s) ∙ ap (λ t. t ++ x ∷ []) (reverse-reverse s))

trim_suffix-EndsPlain : (p : Str) → EndsPlain p → trim_suffix p root ≡ p
trim_suffix-EndsPlain p (s, x, e, n) =
    ap (λ t. trim_suffix t root) e ∙ trim_suffix-snoc s x n ∙ sym e

is_empty-join : (d : Str) (ds : List Str) → IsName d → is_empty (join slash (d ∷ ds)) ≡ false
unfolding is_empty join
is_empty-join [] ds h = ground arith
is_empty-join (x ∷ d) [] h = refl
is_empty-join (x ∷ d) (e ∷ ds) h = refl

path_join-names :
    (c : Str) (cs : List Str) (d : Str) (ds : List Str)
    → All IsName ((c ∷ cs) ++ d ∷ ds)
    → is_empty (join slash (d ∷ ds)) ≡ false
    → clean_path (path_join (rooted_path (c ∷ cs)) (join slash (d ∷ ds)))
      ≡ rooted_path ((c ∷ cs) ++ d ∷ ds)
unfolding path_join
path_join-names c cs d ds h e = rw e (
    unfold is_empty in
    ap (λ t. clean_path (path_clean (slash ∷ t))) (sym (join-names c cs d ds))
    ∙ ap clean_path (
        (unfold has_prefix in path_clean-rooted (rooted_path ((c ∷ cs) ++ d ∷ ds)) refl)
        ∙ ap (λ l. rooted_path l) (components-rooted_path ((c ∷ cs) ++ d ∷ ds) h))
    ∙ clean_path-rooted_path ((c ∷ cs) ++ d ∷ ds) h)

rooted_remote-names :
    (c : Str) (cs : List Str) (d : Str) (ds : List Str)
    → All IsName (c ∷ cs)
    → All IsName (d ∷ ds)
    → rooted_remote (rooted_path (c ∷ cs)) (rooted_path (d ∷ ds))
      ≡ rooted_path (c ∷ cs) ++ slash ∷ join slash (d ∷ ds)
unfolding rooted_remote
rooted_remote-names c cs d ds h k = rw (clean_path-rooted_path (d ∷ ds) k) (
    rw (rooted_path-ne-root d ds k.0) (
      ap (λ t. clean_path (path_join (rooted_path (c ∷ cs)) t))
        (trim_prefix_self root (join slash (d ∷ ds)))
      ∙ path_join-names c cs d ds (All-append IsName (c ∷ cs) (d ∷ ds) h k) (is_empty-join d ds k.0)
      ∙ ap (λ t. slash ∷ t) (join-names c cs d ds)))

ne_self : (p s : Str) (c : ℕ) → ((p ++ c ∷ s) =s p) ≡ false
unfolding ◌=s◌
ne_self [] s c = refl
ne_self (x ∷ p) s c = ground (arith, ne_self p s c)

below_prefix : (base j : Str) → has_prefix (base ++ slash ∷ j) (base ++ root) ≡ true
below_prefix base j =
    subst (λ t. has_prefix t (base ++ root) ≡ true) (append_assoc base root j)
      (has_prefix-append (base ++ root) j)

trim_below : (base j : Str) → trim_prefix (base ++ slash ∷ j) (base ++ root) ≡ j
trim_below base j =
    subst (λ t. trim_prefix t (base ++ root) ≡ j) (append_assoc base root j)
      (trim_prefix_self (base ++ root) j)

rooted_exposed-below :
    (base path j : Str)
    → clean_path path ≡ base ++ slash ∷ j
    → trim_suffix base root ≡ base
    → rooted_exposed base path ≡ clean_path (slash ∷ j)
unfolding rooted_exposed
rooted_exposed-below base path j e t = rw (e) (
    rw (ne_self base j slash)
      (rw (t) (rw (below_prefix base j) (ap (λ p. clean_path (slash ∷ p)) (trim_below base j)))))

rooted_exposed_self : (base : Str) → clean_path base ≡ base → rooted_exposed base base ≡ root
unfolding rooted_exposed
rooted_exposed_self base e = rw (e) (rw (=s_refl base))

rooted_remote-root : (base name : Str) → clean_path name ≡ root → rooted_remote base name ≡ base
unfolding rooted_remote
rooted_remote-root base name e = rw (e) (rw (=s_refl root))

-- The remote path of a name is a function of the cleaned name.
rooted_remote-clean :
    (base name : Str) → rooted_remote base (clean_path name) ≡ rooted_remote base name
unfolding rooted_remote
rooted_remote-clean base name = rw (clean_path-clean_path name)

below-clean :
    (c : Str) (cs : List Str) (d : Str) (ds : List Str)
    → All IsName (c ∷ cs)
    → All IsName (d ∷ ds)
    → clean_path (rooted_path (c ∷ cs) ++ slash ∷ join slash (d ∷ ds))
      ≡ rooted_path (c ∷ cs) ++ slash ∷ join slash (d ∷ ds)
below-clean c cs d ds h k =
    subst (λ t. clean_path (slash ∷ t) ≡ slash ∷ t) (join-names c cs d ds)
      (clean_path-rooted_path ((c ∷ cs) ++ d ∷ ds) (All-append IsName (c ∷ cs) (d ∷ ds) h k))

exposed-remote-names :
    (base ns : List Str)
    → All IsName base
    → All IsName ns
    → rooted_path base ≢ root
    → rooted_exposed (rooted_path base) (rooted_remote (rooted_path base) (rooted_path ns))
      ≡ rooted_path ns
unfolding join
exposed-remote-names [] ns h k r = absurd (r refl)
exposed-remote-names (c ∷ cs) [] h k r =
    ap (rooted_exposed (rooted_path (c ∷ cs)))
      (rooted_remote-root (rooted_path (c ∷ cs)) root (clean_path-rooted_path [] tt))
    ∙ rooted_exposed_self (rooted_path (c ∷ cs)) (clean_path-rooted_path (c ∷ cs) h)
exposed-remote-names (c ∷ cs) (d ∷ ds) h k r =
    ap (rooted_exposed (rooted_path (c ∷ cs))) (rooted_remote-names c cs d ds h k)
    ∙ rooted_exposed-below (rooted_path (c ∷ cs)) _ (join slash (d ∷ ds))
        (below-clean c cs d ds h k)
        (trim_suffix-EndsPlain _ (EndsPlain-append root _ (EndsPlain-join c cs h)))
    ∙ clean_path-rooted_path (d ∷ ds) k

-- Below a root of the FileSystem that is not "/", the path that exposedPath shows for the remote
-- path of a name is the cleaned name.
pub rooted_exposed-rooted_remote :
    (base name : Str)
    → clean_path base ≢ root
    → rooted_exposed (clean_path base) (rooted_remote (clean_path base) name) ≡ clean_path name
rooted_exposed-rooted_remote base name r =
    ap (rooted_exposed (clean_path base)) (sym (rooted_remote-clean (clean_path base) name))
    ∙ subst (λ b. rooted_exposed b (rooted_remote b (clean_path name)) ≡ clean_path name)
        (sym (clean_path_lem base))
        (subst
          (λ n.
            rooted_exposed (rooted_path (names_of base))
              (rooted_remote (rooted_path (names_of base)) n)
            ≡ n)
          (sym (clean_path_lem name))
          (exposed-remote-names (names_of base) (names_of name) (names_of-IsName base)
            (names_of-IsName name) (λ e. r (clean_path_lem base ∙ e))))

abbrev pub IsInside : Str → Str → Type 0
IsInside base path = (path ≡ base) ⊎ (strings_within path base ≡ true)

remote-names-IsInside :
    (base ns : List Str)
    → All IsName base
    → All IsName ns
    → rooted_path base ≢ root
    → IsInside (rooted_path base) (rooted_remote (rooted_path base) (rooted_path ns))
unfolding join
remote-names-IsInside [] ns h k r = absurd (r refl)
remote-names-IsInside (c ∷ cs) [] h k r =
    inl (rooted_remote-root (rooted_path (c ∷ cs)) root (clean_path-rooted_path [] tt))
remote-names-IsInside (c ∷ cs) (d ∷ ds) h k r = inr (
    ap (λ p. strings_within p (rooted_path (c ∷ cs))) (rooted_remote-names c cs d ds h k)
    ∙ strings_within_lem _ _
    ∙ below_prefix (rooted_path (c ∷ cs)) (join slash (d ∷ ds)))

-- Whatever name a request gives, with any number of `..` in it, its remote path is the root of the
-- FileSystem or lies below it, where that root is not "/".
pub rooted_remote-IsInside :
    (base name : Str)
    → clean_path base ≢ root
    → IsInside (clean_path base) (rooted_remote (clean_path base) name)
rooted_remote-IsInside base name r =
    subst (IsInside (clean_path base)) (rooted_remote-clean (clean_path base) name) (
      subst (λ b. IsInside b (rooted_remote b (clean_path name))) (sym (clean_path_lem base))
        (subst
          (λ n.
            IsInside (rooted_path (names_of base)) (rooted_remote (rooted_path (names_of base)) n))
          (sym (clean_path_lem name))
          (remote-names-IsInside (names_of base) (names_of name) (names_of-IsName base)
            (names_of-IsName name) (λ e. r (clean_path_lem base ∙ e)))))

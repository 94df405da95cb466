-- ===== src/Path/Clean.antt =====
-- CleanPath: its results are the rooted paths over plain names, and it leaves those alone.
use mathlib.Core.List.{append-nil, append_assoc, reverse-append, reverse-reverse}
use idrive_unlimited.Base.{
  All, All-append, Bool, Bool-cases, List, Str, [], ap, arith, contains_byte, false, has_prefix,
  if◌then◌else◌, inl, inr, is_empty, join, negate, refl, reverse, split, sym, true, ℕ, ◌&&◌, ◌++◌,
  ◌==◌, ◌=s◌, ◌∙◌, ◌∷◌, ◌≡◌,
}
use idrive_unlimited.Path.{
  clean_path, dot, dotdot, path_clean, resolve, resolve_one, root, rooted_path, slash,
}

-- A plain component: not empty, no dots alone, no slash.
abbrev pub is_name : Str → Bool
is_name c =
    negate (is_empty c)
    && negate (c =s dot)
    && negate (c =s dotdot)
    && negate (contains_byte slash c)

abbrev pub IsName : Str → Type 0
IsName c = is_name c ≡ true

abbrev pub NoSlash : Str → Type 0
NoSlash c = contains_byte slash c ≡ false

cons_head-NoSlash :
    (x : ℕ) (l : List Str)
    → (x == slash) ≡ false
    → All NoSlash l
    → All NoSlash (elim l [ [] ↦ (x ∷ []) ∷ [] | h ∷ t ↦ (x ∷ h) ∷ t ])
unfolding contains_byte
cons_head-NoSlash x [] e h = ground arith
cons_head-NoSlash x (c ∷ cs) e h = ground arith

pub split-NoSlash : (s : Str) → All NoSlash (split slash s)
unfolding split contains_byte
split-NoSlash [] = (refl, tt)
split-NoSlash (x ∷ xs) = elim (Bool-cases (x == slash)) [
  | inl e ↦ rw e (refl, split-NoSlash xs)
  | inr e ↦ rw e (cons_head-NoSlash x (split slash xs) e (split-NoSlash xs))
]

pub split-append :
    (c rest : Str) → NoSlash c → split slash (c ++ slash ∷ rest) ≡ c ∷ split slash rest
unfolding split contains_byte
split-append [] rest h = refl
split-append (x ∷ c) rest h = ground (arith, split-append c rest)

split_plain : (c : Str) → NoSlash c → split slash c ≡ c ∷ []
unfolding split contains_byte
split_plain [] h = refl
split_plain (x ∷ c) h = ground (arith, split_plain c)

pub split-join :
    (c : Str) (cs : List Str) → All NoSlash (c ∷ cs) → split slash (join slash (c ∷ cs)) ≡ c ∷ cs
unfolding join
split-join c [] h = split_plain c h.0
split-join c (d ∷ cs) h =
    split-append c (join slash (d ∷ cs)) h.0 ∙ ap (λ t. c ∷ t) (split-join d cs h.1)

pub IsName-NoSlash : (c : Str) → IsName c → NoSlash c
unfolding is_empty ◌=s◌
IsName-NoSlash c h = ground arith

pub IsNames-NoSlash : (cs : List Str) → All IsName cs → All NoSlash cs
IsNames-NoSlash [] h = tt
IsNames-NoSlash (c ∷ cs) h = (IsName-NoSlash c h.0, IsNames-NoSlash cs h.1)

resolve_one-IsName :
    (c : Str) (kept : List Str) → NoSlash c → All IsName kept → All IsName (resolve_one true c kept)
unfolding resolve_one
resolve_one-IsName c [] n h = ground arith
resolve_one-IsName c (top ∷ rest) n h = ground arith

resolve-IsName :
    (cs kept : List Str) → All NoSlash cs → All IsName kept → All IsName (resolve true kept cs)
unfolding resolve
resolve-IsName [] kept n h = h
resolve-IsName (c ∷ cs) kept n h =
    resolve-IsName cs _ n.1 (unfold resolve_one in resolve_one-IsName c kept n.0 h)

-- Plain names are kept as they are.
pub resolve_one_name : (c : Str) (kept : List Str) → IsName c → resolve_one true c kept ≡ c ∷ kept
unfolding resolve_one
resolve_one_name c kept h = ground arith

resolve_names : (cs kept : List Str) → All IsName cs → resolve true kept cs ≡ reverse cs ++ kept
unfolding resolve
resolve_names [] kept h = refl
resolve_names (c ∷ cs) kept h = rw (resolve_one_name c kept h.0) (
    resolve_names cs (c ∷ kept) h.1
    ∙ sym (rw (reverse-append (c ∷ []) cs) (append_assoc (reverse cs) (c ∷ []) kept)))

All-reverse : (cs : List Str) → All IsName cs → All IsName (reverse cs)
All-reverse [] h = tt
All-reverse (c ∷ cs) h =
    rw (reverse-append (c ∷ []) cs)
      (All-append IsName (reverse cs) (c ∷ []) (All-reverse cs h.1) (h.0, tt))

-- The components that path.Clean keeps of a rooted path.
unfoldable pub components : Str → List Str
components s = reverse (resolve true [] (split slash s))

pub components-IsName : (s : Str) → All IsName (components s)
unfolding components
components-IsName s = All-reverse _ (resolve-IsName (split slash s) [] (split-NoSlash s) tt)

resolve_rooted :
    (c : Str) (cs : List Str)
    → All IsName (c ∷ cs)
    → resolve true [] (split slash (rooted_path (c ∷ cs))) ≡ reverse (c ∷ cs)
unfolding resolve resolve_one is_empty
resolve_rooted c cs h = rw (split-append [] (join slash (c ∷ cs)) (unfold contains_byte in refl)) (
    rw (split-join c cs (IsNames-NoSlash (c ∷ cs) h))
      (resolve_names (c ∷ cs) [] h ∙ append-nil (reverse (c ∷ cs))))

pub components-rooted_path : (cs : List Str) → All IsName cs → components (rooted_path cs) ≡ cs
unfolding components join
components-rooted_path [] h = unfold split resolve resolve_one is_empty in refl
components-rooted_path (c ∷ cs) h = ap reverse (resolve_rooted c cs h) ∙ reverse-reverse (c ∷ cs)

-- The names of the path that CleanPath returns.
unfoldable pub names_of : Str → List Str
names_of s = components (if has_prefix s root then s else slash ∷ s)

pub names_of-IsName : (s : Str) → All IsName (names_of s)
unfolding names_of
names_of-IsName s = components-IsName _

pub path_clean-rooted :
    (s : Str) → has_prefix s root ≡ true → path_clean s ≡ rooted_path (components s)
unfolding path_clean components is_empty
path_clean-rooted [] h = unfold has_prefix in cc
path_clean-rooted (c ∷ s) h = rw h

pub rooted_path-ne-dot : (cs : List Str) → (rooted_path cs =s dot) ≡ false
unfolding ◌=s◌
rooted_path-ne-dot cs = refl

normalized-has_prefix :
    (s : Str) → has_prefix (if has_prefix s root then s else slash ∷ s) root ≡ true
unfolding has_prefix
normalized-has_prefix s = elim (Bool-cases (has_prefix s root)) [ inl e ↦ rw e e | inr e ↦ rw e ]

clean_normalized :
    (s : Str)
    → has_prefix s root ≡ true
    → (let clean = path_clean s in if clean =s dot then root else clean)
      ≡ rooted_path (components s)
clean_normalized s h = rw (path_clean-rooted s h) (rw rooted_path-ne-dot)

-- Every result of CleanPath is the rooted path over plain names.
pub clean_path_lem : (s : Str) → clean_path s ≡ rooted_path (names_of s)
unfolding clean_path names_of
clean_path_lem [] = unfold components is_empty has_prefix split join resolve resolve_one in refl
clean_path_lem (c ∷ s) = unfold is_empty in clean_normalized _ (normalized-has_prefix (c ∷ s))

pub clean_path-rooted_path :
    (cs : List Str) → All IsName cs → clean_path (rooted_path cs) ≡ rooted_path cs
clean_path-rooted_path cs h =
    clean_path_lem (rooted_path cs)
    ∙ ap (λ l. rooted_path l) (unfold names_of has_prefix in components-rooted_path cs h)

-- A cleaned path is left alone by another cleaning.
pub clean_path-clean_path : (s : Str) → clean_path (clean_path s) ≡ clean_path s
clean_path-clean_path s =
    ap clean_path (clean_path_lem s)
    ∙ clean_path-rooted_path (names_of s) (names_of-IsName s)
    ∙ sym (clean_path_lem s)

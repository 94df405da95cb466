-- ===== src/Webdav/Paths/Translate.antt =====
-- The names shown in place of the devices of the root, on whole paths.
use mathlib.Core.List.{append-nil}
use idrive_unlimited.Base.{
  =s_refl, All, List, Option, Str, [], ap, arith, contains_byte, join, none, refl, some, sym, ◌++◌,
  ◌∙◌, ◌∷◌, ◌≡◌,
}
use idrive_unlimited.Path.{clean_path, root, rooted_path, slash}
use idrive_unlimited.Path.Clean.{
  IsName, IsName-NoSlash, NoSlash, clean_path-clean_path, clean_path-rooted_path,
}
use idrive_unlimited.Path.Parent.{IsName-nonempty, rooted_path-ne-root}
use idrive_unlimited.Webdav.Aliases.{lookup_name}
use idrive_unlimited.Webdav.Paths.{
  before_slash, from_slash, replaced, split_first_component, translate,
}
use idrive_unlimited.Webdav.Paths.Rooted.{trim_prefix_self}

before_slash-append : (c r : Str) → NoSlash c → before_slash (c ++ slash ∷ r) ≡ c
unfolding contains_byte
before_slash-append [] r h = refl
before_slash-append (x ∷ c) r h = ground (arith, before_slash-append c r)

from_slash-append : (c r : Str) → NoSlash c → from_slash (c ++ slash ∷ r) ≡ slash ∷ r
unfolding contains_byte
from_slash-append [] r h = refl
from_slash-append (x ∷ c) r h = ground (arith, from_slash-append c r)

before_slash_plain : (c : Str) → NoSlash c → before_slash c ≡ c
unfolding contains_byte
before_slash_plain [] h = refl
before_slash_plain (x ∷ c) h = ground (arith, before_slash_plain c)

from_slash_plain : (c : Str) → NoSlash c → from_slash c ≡ []
unfolding contains_byte
from_slash_plain [] h = refl
from_slash_plain (x ∷ c) h = ground (arith, from_slash_plain c)

-- What follows the first component of a path.
abbrev pub tail_text : List Str → Str
tail_text [] = []
tail_text (d ∷ ds) = slash ∷ join slash (d ∷ ds)

join-tail_text : (c : Str) (cs : List Str) → join slash (c ∷ cs) ≡ c ++ tail_text cs
unfolding join
join-tail_text c [] = sym (append-nil c)
join-tail_text c (d ∷ ds) = refl

split_join :
    (c : Str) (cs : List Str)
    → NoSlash c
    → (before_slash (c ++ tail_text cs) ≡ c) × (from_slash (c ++ tail_text cs) ≡ tail_text cs)
split_join c [] h = rw (append-nil c) (before_slash_plain c h, from_slash_plain c h)
split_join c (d ∷ ds) h = (before_slash-append c _ h, from_slash-append c _ h)

pub split_first_component-names :
    (c : Str) (cs : List Str)
    → All IsName (c ∷ cs)
    → split_first_component (rooted_path (c ∷ cs)) ≡ (c, tail_text cs)
unfolding split_first_component
split_first_component-names c cs h = rw (clean_path-rooted_path (c ∷ cs) h) (
    rw (trim_prefix_self root (join slash (c ∷ cs))) (
      rw (join-tail_text c cs)
        (let s = split_join c cs (IsName-NoSlash c h.0) in rw (s.0, s.1) refl)))

replaced-names :
    (c n : Str) (cs : List Str)
    → All IsName (n ∷ cs)
    → replaced (some n) (tail_text cs) c ≡ rooted_path (n ∷ cs)
replaced-names c n cs h =
    ap (λ t. clean_path (slash ∷ t)) (sym (join-tail_text n cs)) ∙ clean_path-rooted_path (n ∷ cs) h

abbrev pub first_name : Option Str → Str → Str
first_name none c = c
first_name (some n) c = n

replaced-first :
    (o : Option Str) (c : Str) (cs : List Str)
    → ((n : Str) → o ≡ some n → IsName n)
    → All IsName (c ∷ cs)
    → replaced o (tail_text cs) (rooted_path (c ∷ cs)) ≡ rooted_path (first_name o c ∷ cs)
replaced-first none c cs f h = refl
replaced-first (some n) c cs f h = replaced-names (rooted_path (c ∷ cs)) n cs (f n refl, h.1)

-- A translation replaces the first component.
pub translate-names :
    (names : List (Str × Str)) (c : Str) (cs : List Str)
    → ((n : Str) → lookup_name c names ≡ some n → IsName n)
    → All IsName (c ∷ cs)
    → translate names (rooted_path (c ∷ cs)) ≡ rooted_path (first_name (lookup_name c names) c ∷ cs)
unfolding translate
translate-names names c cs f h = rw (clean_path-rooted_path (c ∷ cs) h) (
    rw (split_first_component-names c cs h) (
      rw (rooted_path-ne-root c cs h.0)
        (rw (IsName-nonempty c h.0) (replaced-first (lookup_name c names) c cs f h))))

pub translate-root : (names : List (Str × Str)) → translate names (rooted_path []) ≡ rooted_path []
unfolding translate join
translate-root names = rw (clean_path-rooted_path [] tt) (rw (=s_refl root))

pub translate-clean :
    (names : List (Str × Str)) (path : Str)
    → translate names (clean_path path) ≡ translate names path
unfolding translate
translate-clean names path = rw (clean_path-clean_path path)

pub split_first_component-clean :
    (path : Str) → split_first_component (clean_path path) ≡ split_first_component path
unfolding split_first_component
split_first_component-clean path = rw (clean_path-clean_path path)

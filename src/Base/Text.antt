-- ===== src/Base/Text.antt =====
-- Go strings as lists of bytes, with the functions of package strings that the program calls.
use Prim.Native.Nat.{ℕ, zero, suc, ◌+◌, ◌-◌}
use Prim.Native.Char.{code}
use Prim.Native.String.{String}
use mathlib.Core.Path.{◌≡◌, refl}
use mathlib.Core.Logic.{◌↔◌, ◌≢◌}
use mathlib.Core.Bool.{Bool, true, false, ◌&&◌, ◌||◌}
use mathlib.Core.List.{List, [], ◌∷◌, ◌++◌, reverse, map}
use native.Mathlib.Omega.{arith}
use idrive_unlimited.Base.Tests.{==_iff, leb, ◌==◌, if◌then◌else◌}

abbrev pub Str : Type 0
Str = List ℕ

-- The bytes of a literal.
abbrev pub codes : String → Str
codes String.[] = []
codes (String.◌∷◌ c s) = code c ∷ codes s

infix 50 ◌=s◌
unfoldable pub ◌=s◌ : Str → Str → Bool
[] =s [] = true
[] =s (y ∷ ys) = false
(x ∷ xs) =s [] = false
(x ∷ xs) =s (y ∷ ys) = x == y && xs =s ys

unfoldable pub is_empty : Str → Bool
is_empty [] = true
is_empty (x ∷ xs) = false

unfoldable pub has_prefix : Str → Str → Bool
has_prefix s [] = true
has_prefix [] (p ∷ ps) = false
has_prefix (x ∷ xs) (p ∷ ps) = x == p && has_prefix xs ps

unfoldable pub trim_prefix : Str → Str → Str
trim_prefix s [] = s
trim_prefix [] (p ∷ ps) = []
trim_prefix (x ∷ xs) (p ∷ ps) = if x == p && has_prefix xs ps then trim_prefix xs ps else x ∷ xs

unfoldable pub has_suffix : Str → Str → Bool
unfolding has_prefix
has_suffix s p = has_prefix (reverse s) (reverse p)

unfoldable pub trim_suffix : Str → Str → Str
unfolding trim_prefix
trim_suffix s p = reverse (trim_prefix (reverse s) (reverse p))

unfoldable pub contains_byte : ℕ → Str → Bool
contains_byte c [] = false
contains_byte c (x ∷ xs) = x == c || contains_byte c xs

-- strings.ContainsAny for a set of ASCII bytes.
unfoldable pub contains_any : Str → Str → Bool
unfolding contains_byte
contains_any [] set = false
contains_any (x ∷ xs) set = contains_byte x set || contains_any xs set

-- strings.Contains
unfoldable pub contains : Str → Str → Bool
unfolding has_prefix
contains [] p = has_prefix [] p
contains (x ∷ xs) p = has_prefix (x ∷ xs) p || contains xs p

-- The first component and the rest that `split` puts it before.
abbrev cons_head : ℕ → List Str → List Str
cons_head c [] = (c ∷ []) ∷ []
cons_head c (h ∷ t) = (c ∷ h) ∷ t

-- strings.Split by one byte: never empty.
unfoldable pub split : ℕ → Str → List Str
split c [] = [] ∷ []
split c (x ∷ xs) = let rest = split c xs in if x == c then [] ∷ rest else cons_head x rest

-- strings.Join by one byte.
unfoldable pub join : ℕ → List Str → Str
join c [] = []
join c (s ∷ []) = s
join c (s ∷ t ∷ rest) = s ++ c ∷ join c (t ∷ rest)

-- White space of strings.TrimSpace: one byte of ASCII, or the two or three bytes of another rune.
unfoldable pub is_space : ℕ → Bool
is_space c = c == 32 || (leb 9 c && leb c 13)

abbrev is_space_pair : ℕ → ℕ → Bool
is_space_pair a b = a == 194 && (b == 133 || b == 160)

abbrev is_space_triple : ℕ → ℕ → ℕ → Bool
is_space_triple a b c =
    (a == 225 && b == 154 && c == 128)
    || (a == 226 && b == 128 && ((leb 128 c && leb c 138) || c == 168 || c == 169 || c == 175))
    || (a == 226 && b == 129 && c == 159)
    || (a == 227 && b == 128 && c == 128)

-- The number of bytes of the white space with which a text begins.
abbrev space_width : Str → ℕ
space_width [] = 0
space_width (a ∷ []) = if is_space a then 1 else 0
space_width (a ∷ b ∷ []) = if is_space a then 1 else if is_space_pair a b then 2 else 0
space_width (a ∷ b ∷ c ∷ rest) =
    if is_space a
    then 1
    else if is_space_pair a b
    then 2
    else if is_space_triple a b c
    then 3
    else 0

-- The same for a text whose bytes stand in reverse.
abbrev space_width_back : Str → ℕ
space_width_back [] = 0
space_width_back (a ∷ []) = if is_space a then 1 else 0
space_width_back (a ∷ b ∷ []) = if is_space a then 1 else if is_space_pair b a then 2 else 0
space_width_back (a ∷ b ∷ c ∷ rest) =
    if is_space a
    then 1
    else if is_space_pair b a
    then 2
    else if is_space_triple c b a
    then 3
    else 0

-- A text without the bytes that are still to skip and the white space behind them.
unfoldable pub trim_left : (Str → ℕ) → ℕ → Str → Str
unfolding is_space
trim_left width n [] = []
trim_left width (suc n) (x ∷ xs) = trim_left width n xs
trim_left width zero (x ∷ xs) = elim (width (x ∷ xs)) [
  | zero ↦ x ∷ xs
  | suc n ↦ trim_left width n xs
]

unfoldable pub trim_space : Str → Str
unfolding trim_left
trim_space s = reverse (trim_left space_width_back 0 (reverse (trim_left space_width 0 s)))

-- ASCII letters; strings.ToUpper, ToLower and EqualFold on ASCII text.
unfoldable pub upper : ℕ → ℕ
upper c = if leb 97 c && leb c 122 then c - 32 else c

unfoldable pub lower : ℕ → ℕ
lower c = if leb 65 c && leb c 90 then c + 32 else c

unfoldable pub to_upper : Str → Str
unfolding upper
to_upper = map upper

unfoldable pub to_lower : Str → Str
unfolding lower
to_lower = map lower

unfoldable pub equal_fold : Str → Str → Bool
unfolding to_lower ◌=s◌
equal_fold a b = to_lower a =s to_lower b

pub =s_refl : (s : Str) → (s =s s) ≡ true
unfolding ◌=s◌
=s_refl [] = refl
=s_refl (x ∷ xs) = ground (arith, =s_refl xs)

pub =s_eq : (s t : Str) → (s =s t) ≡ true → s ≡ t
unfolding ◌=s◌
=s_eq [] [] h = refl
=s_eq [] (y ∷ ys) h = cc
=s_eq (x ∷ xs) [] h = cc
=s_eq (x ∷ xs) (y ∷ ys) h = ground (arith, =s_eq xs ys)

pub =s_iff : (s t : Str) → ((s =s t) ≡ true) ↔ (s ≡ t)
=s_iff s t = (=s_eq s t, λ e. rw e (=s_refl t))

pub =s_ne : (s t : Str) → s ≢ t → (s =s t) ≡ false
=s_ne s t h = ground (arith, =s_iff s t)

pub has_prefix-append : (p s : Str) → has_prefix (p ++ s) p ≡ true
unfolding has_prefix
has_prefix-append [] s = refl
has_prefix-append (x ∷ p) s = ground (arith, has_prefix-append p s)

pub trim_prefix-append : (p s : Str) → trim_prefix (p ++ s) p ≡ s
unfolding trim_prefix
trim_prefix-append [] s = refl
trim_prefix-append (x ∷ p) s = ground (arith, has_prefix-append p s, trim_prefix-append p s)

and_both : (a b : Bool) → (a && b) ≡ true → (a ≡ true) × (b ≡ true)
and_both true b h = (refl, h)
and_both false b h = cc

pub has_prefix_split : (s p : Str) → has_prefix s p ≡ true → (rest : Str) × (s ≡ p ++ rest)
unfolding has_prefix
has_prefix_split s [] h = (s, refl)
has_prefix_split [] (c ∷ p) h = cc
has_prefix_split (x ∷ s) (c ∷ p) h =
    let (same, within) = and_both (x == c) (has_prefix s p) h in
    let (rest, e) = has_prefix_split s p within in (rest, rw ((==_iff x c).0 same, e) refl)

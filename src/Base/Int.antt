-- ===== src/Base/Int.antt =====
-- int64 values, under the library's names over the native numbers, and strconv.ParseInt.
use Prim.Native.Nat.{ℕ, zero, suc, ◌+◌, ◌-◌, ◌*◌, ◌^◌}
use mathlib.Core.Path.{◌≡◌}
use mathlib.Core.Bool.{Bool, true, false, ◌&&◌}
use mathlib.Core.Option.{Option, none, some}
use mathlib.Core.List.{[], ◌∷◌}
use native.Mathlib.Omega.{arith}
use idrive_unlimited.Base.Tests.{ltb, leb, ◌==◌, if◌then◌else◌}
use idrive_unlimited.Base.Text.{Str}

-- `negsuc n` is -(n + 1).
pub data ℤ : Type 0 where
  pos : ℕ → ℤ
  negsuc : ℕ → ℤ

infix 50 ◌=ℤ◌
abbrev pub ◌=ℤ◌ : ℤ → ℤ → Bool
pos a =ℤ pos b = a == b
negsuc a =ℤ negsuc b = a == b
pos a =ℤ negsuc b = false
negsuc a =ℤ pos b = false

pub =ℤ_eq : (a b : ℤ) → (a =ℤ b) ≡ true → a ≡ b
=ℤ_eq (pos a) (pos b) h = ground arith
=ℤ_eq (negsuc a) (negsuc b) h = ground arith
=ℤ_eq (pos a) (negsuc b) h = cc
=ℤ_eq (negsuc a) (pos b) h = cc

pub =ℤ_refl : (a : ℤ) → (a =ℤ a) ≡ true
=ℤ_refl (pos a) = ground arith
=ℤ_refl (negsuc a) = ground arith

abbrev pub is_negative : ℤ → Bool
is_negative (pos n) = false
is_negative (negsuc n) = true

abbrev pub exceeds : ℤ → ℕ → Bool
exceeds (pos n) limit = ltb limit n
exceeds (negsuc n) limit = false

abbrev pub max_int64 : ℕ
max_int64 = 2 ^ 63 - 1

-- The bytes that io.LimitReader(r, size + 1) lets through: size + 1 as an int64, none if negative.
unfoldable pub limit_after : ℤ → ℕ
limit_after (pos n) = if ltb n max_int64 then n + 1 else 0
limit_after (negsuc n) = 0

abbrev digits : ℕ → Str → Option ℕ
digits n [] = some n
digits n (c ∷ rest) = if leb b'0' c && leb c b'9' then digits (n * 10 + (c - b'0')) rest else none

abbrev some_digits : Str → Option ℕ
some_digits [] = none
some_digits (c ∷ rest) = digits 0 (c ∷ rest)

abbrev signed : Bool → Option ℕ → Option ℤ
signed minus none = none
signed false (some n) = if leb n max_int64 then some (pos n) else none
signed true (some zero) = some (pos 0)
signed true (some (suc n)) = if leb n max_int64 then some (negsuc n) else none

-- strconv.ParseInt(raw, 10, 64)
unfoldable pub parse_int : Str → Option ℤ
parse_int [] = none
parse_int (c ∷ rest) =
    if c == b'-'
    then signed true (some_digits rest)
    else if c == b'+'
    then signed false (some_digits rest)
    else signed false (some_digits (c ∷ rest))

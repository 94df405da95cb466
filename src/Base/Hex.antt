-- ===== src/Base/Hex.antt =====
-- encoding/hex: EncodeToString and DecodeString.
use Prim.Native.Nat.{ℕ, ◌+◌, ◌-◌, ◌*◌, ◌/◌, ◌%◌, ◌<◌}
use mathlib.Core.Path.{◌≡◌, refl}
use mathlib.Core.Bool.{◌&&◌}
use mathlib.Core.Option.{Option, none, some}
use mathlib.Core.List.{[], ◌∷◌}
use native.Mathlib.Omega.{arith}
use idrive_unlimited.Base.Tests.{ltb, leb, if◌then◌else◌}
use idrive_unlimited.Base.Lists.{All}
use idrive_unlimited.Base.Text.{Str}

abbrev pub hex_digit : ℕ → ℕ
hex_digit d = if ltb d 10 then b'0' + d else b'a' + (d - 10)

abbrev hex_value : ℕ → Option ℕ
hex_value c =
    if leb b'0' c && leb c b'9'
    then some (c - b'0')
    else if leb b'a' c && leb c b'f'
    then some (c - b'a' + 10)
    else if leb b'A' c && leb c b'F'
    then some (c - b'A' + 10)
    else none

unfoldable pub hex_encode : Str → Str
hex_encode [] = []
hex_encode (b ∷ bs) = hex_digit (b / 16) ∷ hex_digit (b % 16) ∷ hex_encode bs

abbrev pair : Option ℕ → Option ℕ → Option Str → Option Str
pair (some hi) (some lo) (some rest) = some ((hi * 16 + lo) ∷ rest)
pair _ _ _ = none

-- An odd length or a byte that is no hexadecimal digit is an error.
unfoldable pub hex_decode : Str → Option Str
hex_decode [] = some []
hex_decode (c ∷ []) = none
hex_decode (c ∷ d ∷ rest) = pair (hex_value c) (hex_value d) (hex_decode rest)

abbrev pub IsByte : ℕ → Type 0
IsByte b = b < 256

hex_value-hex_digit : (d : ℕ) → d < 16 → hex_value (hex_digit d) ≡ some d
hex_value-hex_digit d h = ground arith

-- Bytes survive being written in hexadecimal and read back.
pub hex_decode-hex_encode : (bs : Str) → All IsByte bs → hex_decode (hex_encode bs) ≡ some bs
unfolding hex_decode hex_encode
hex_decode-hex_encode [] h = refl
hex_decode-hex_encode (b ∷ bs) h = rw (hex_value-hex_digit (b / 16) (omega arith)) (
    rw (hex_value-hex_digit (b % 16) (omega arith))
      (rw (hex_decode-hex_encode bs h.1) (ground arith)))

-- ===== src/Prelude/Hex.antt =====
-- Hexadecimal text: `Buffer.toString("hex")`, `Buffer.from(s, "hex")` and `toLowerCase`.
use Prim.Native.Nat.{ℕ, ◌+◌, ◌-◌, ◌*◌, ◌/◌, ◌%◌, ◌<◌}
use mathlib.Core.Path.{◌≡◌, refl, sym, ap, ◌∙◌}
use mathlib.Core.Bool.{◌&&◌}
use mathlib.Core.Option.{Option, none, some}
use mathlib.Core.List.{[], ◌∷◌}
use native.Mathlib.Omega.{arith}
use receipts_sdk.Prelude.Tests.{ltb, leb, if◌then◌else◌}
use receipts_sdk.Prelude.Lists.{All, length}
use receipts_sdk.Prelude.Texts.{Bytes, Text}

unfoldable pub hex_digit : ℕ → ℕ
hex_digit n = if ltb n 10 then 48 + n else 87 + n

digit_value : ℕ → Option ℕ
digit_value c =
    if leb 48 c && leb c 57
    then some (c - 48)
    else if leb 97 c && leb c 102
    then some (c - 87)
    else if leb 65 c && leb c 70
    then some (c - 55)
    else none

unfoldable pub to_hex : Bytes → Text
to_hex [] = []
to_hex (b ∷ bs) = hex_digit (b / 16) ∷ hex_digit (b % 16) ∷ to_hex bs

pair_value : Option ℕ → Option ℕ → Option ℕ
pair_value (some x) (some y) = some (16 * x + y)
pair_value _ _ = none

-- The byte that a pair of digits stands for.
unfoldable pub pair_byte : ℕ → ℕ → Option ℕ
unfolding digit_value pair_value
pair_byte a b = pair_value (digit_value a) (digit_value b)

abbrev cons_byte : Option ℕ → Bytes → Bytes
cons_byte none rest = []
cons_byte (some x) rest = x ∷ rest

-- Decoding ends before the first pair that is not hexadecimal, and an odd digit is dropped.
unfoldable pub from_hex : Text → Bytes
from_hex [] = []
from_hex (a ∷ []) = []
from_hex (a ∷ b ∷ r) = cons_byte (pair_byte a b) (from_hex r)

unfoldable pub lower_unit : ℕ → ℕ
lower_unit c = if leb 65 c && leb c 90 then c + 32 else c

-- `toLowerCase`, on texts of ASCII letters
unfoldable pub lower : Text → Text
lower [] = []
lower (c ∷ s) = lower_unit c ∷ lower s

abbrev pub AreBytes : Bytes → Type 0
AreBytes = All (λ b. b < 256)

-- What SHA-256 returns.
pub record IsDigest (b : Bytes) : Type 0 where
  pub size : length b ≡ 32
  pub bytes : AreBytes b

digit_value-hex_digit : (n : ℕ) → n < 16 → digit_value (hex_digit n) ≡ some n
unfolding digit_value hex_digit
digit_value-hex_digit n h = ground arith

pair_byte-hex_digit :
    (b : ℕ) → b < 256 → pair_byte (hex_digit (b / 16)) (hex_digit (b % 16)) ≡ some b
unfolding pair_byte
pair_byte-hex_digit b h =
    rw (digit_value-hex_digit (b / 16) (omega arith), digit_value-hex_digit (b % 16) (omega arith))
      (ap some (omega arith))

pub from_hex-to_hex : (bs : Bytes) → AreBytes bs → from_hex (to_hex bs) ≡ bs
unfolding from_hex to_hex
from_hex-to_hex [] h = refl
from_hex-to_hex (b ∷ bs) (h, hs) =
    rw (pair_byte-hex_digit b h) (ap (λ l. b ∷ l) (from_hex-to_hex bs hs))

lower_unit-hex_digit : (n : ℕ) → n < 16 → lower_unit (hex_digit n) ≡ hex_digit n
unfolding lower_unit hex_digit
lower_unit-hex_digit n h = ground arith

pub lower-to_hex : (bs : Bytes) → AreBytes bs → lower (to_hex bs) ≡ to_hex bs
unfolding lower to_hex
lower-to_hex [] h = refl
lower-to_hex (b ∷ bs) (h, hs) =
    rw (lower_unit-hex_digit (b / 16) (omega arith), lower_unit-hex_digit (b % 16) (omega arith))
      (ap (λ l. hex_digit (b / 16) ∷ hex_digit (b % 16) ∷ l) (lower-to_hex bs hs))

pub to_hex-injective : (a b : Bytes) → AreBytes a → AreBytes b → to_hex a ≡ to_hex b → a ≡ b
to_hex-injective a b ha hb e = sym (from_hex-to_hex a ha) ∙ ap from_hex e ∙ from_hex-to_hex b hb

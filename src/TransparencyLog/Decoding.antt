-- ===== src/TransparencyLog/Decoding.antt =====
-- `hexToBytes` of transparency-log/log.ts: each pair of characters goes through `parseInt(_, 16)`,
-- and the number, 0 for NaN, into a byte.
use receipts_sdk.Prelude.{
  ℕ, ◌+◌, ◌-◌, ◌*◌, ◌/◌, ◌%◌, ◌<◌, ◌≡◌, refl, ap, Bool, ◌&&◌, ◌||◌, Option, none, some, [], ◌∷◌,
  Bytes, Text, leb, ◌==◌, if◌then◌else◌, arith,
}
use receipts_sdk.Prelude.Hex.{AreBytes, to_hex, hex_digit}

-- The white space that `parseInt` skips.
is_space : ℕ → Bool
is_space c =
    (leb 9 c && leb c 13)
    || c == 32
    || c == 160
    || c == 5760
    || (leb 8192 c && leb c 8202)
    || c == 8232
    || c == 8233
    || c == 8239
    || c == 8287
    || c == 12288
    || c == 65279

unfoldable pub digit_value : ℕ → Option ℕ
digit_value c =
    if leb 48 c && leb c 57
    then some (c - 48)
    else if leb 97 c && leb c 102
    then some (c - 87)
    else if leb 65 c && leb c 70
    then some (c - 55)
    else none

-- Two digits; one digit before or after something else that is skipped; or 0. A minus sign gives the
-- byte of the negative number, and "0x" is 0 like any "0" before a character that is no digit.
abbrev two_units : ℕ → Option ℕ → Option ℕ → ℕ
two_units a (some x) (some y) = 16 * x + y
two_units a (some x) none = x
two_units a none none = 0
two_units a none (some y) =
    if is_space a || a == b'+' then y else if a == b'-' then (256 - y) % 256 else 0

unfoldable pub parse_byte : ℕ → ℕ → ℕ
unfolding is_space digit_value
parse_byte a b = two_units a (digit_value a) (digit_value b)

-- An odd last character is dropped.
unfoldable pub hex_to_bytes : Text → Bytes
hex_to_bytes [] = []
hex_to_bytes (a ∷ []) = []
hex_to_bytes (a ∷ b ∷ s) = parse_byte a b ∷ hex_to_bytes s

digit_value-hex_digit : (n : ℕ) → n < 16 → digit_value (hex_digit n) ≡ some n
unfolding digit_value hex_digit
digit_value-hex_digit n h = ground arith

pub hex_to_bytes-to_hex : (bs : Bytes) → AreBytes bs → hex_to_bytes (to_hex bs) ≡ bs
unfolding hex_to_bytes to_hex parse_byte
hex_to_bytes-to_hex [] h = refl
hex_to_bytes-to_hex (b ∷ bs) (h, hs) =
    rw
      (
        digit_value-hex_digit (b / 16) (omega arith),
        digit_value-hex_digit (b % 16) (omega arith),
        hex_to_bytes-to_hex bs hs,
      )
      (ap (λ x. x ∷ bs) (omega arith))

digit_value-lt : (c : ℕ) (x : ℕ) → digit_value c ≡ some x → x < 16
unfolding digit_value
digit_value-lt c x e = ground arith

two_units-lt :
    (a : ℕ) (x y : Option ℕ)
    → ((v : ℕ) → x ≡ some v → v < 16)
    → ((v : ℕ) → y ≡ some v → v < 16)
    → two_units a x y < 256
two_units-lt a (some x) (some y) hx hy = omega (arith, hx x refl, hy y refl)
two_units-lt a (some x) none hx hy = omega (arith, hx x refl)
two_units-lt a none none hx hy = omega arith
two_units-lt a none (some y) hx hy = ground (arith, hy y refl)

pub hex_to_bytes-AreBytes : (s : Text) → AreBytes (hex_to_bytes s)
unfolding hex_to_bytes parse_byte
hex_to_bytes-AreBytes [] = tt
hex_to_bytes-AreBytes (a ∷ []) = tt
hex_to_bytes-AreBytes (a ∷ b ∷ s) = (
  two_units-lt a (digit_value a) (digit_value b) (digit_value-lt a) (digit_value-lt b),
  hex_to_bytes-AreBytes s,
)

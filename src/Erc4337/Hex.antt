-- ===== src/Erc4337/Hex.antt =====
-- The hexadecimal numbers of erc4337/user_operation.go: the verbs `%x` and `%064x` of a `big.Int`, and
-- parseHexBig. A text is the list of its character codes.
pub mod RoundTrip
use samanager_backend.Base.{
  ℕ, zero, suc, ◌+◌, ◌-◌, ◌*◌, ◌/◌, ◌%◌, ◌<◌, ◌≡◌, refl, sym, ap, ◌∙◌, List, [], ◌∷◌, ◌++◌, map,
  Option, none, some, Reply, ok, err, failure, arith, ltb, leb, ◌==◌, ◌&&◌, if◌then◌else◌, length,
  All, String, Bool-cases, inl, inr, true, false, Bool,
}
use samanager_backend.Base.Int.{ℤ, pos, negsuc}
use samanager_backend.Base.Digits.{
  digits, zeros, of_digits_from, of_digits, of_digits-digits, digits_fuel,
}

unfoldable pub hex_char : ℕ → ℕ
hex_char d = if ltb d 10 then b'0' + d else b'a' + (d - 10)

unfoldable pub hex_value : ℕ → Option ℕ
hex_value c =
    if leb b'0' c && leb c b'9'
    then some (c - b'0')
    else if leb b'a' c && leb c b'f'
    then some (c - b'a' + 10)
    else if leb b'A' c && leb c b'F'
    then some (c - b'A' + 10)
    else none

-- `%x` of a magnitude
unfoldable pub hex_nat : ℕ → List ℕ
unfolding hex_char
hex_nat n = if n == 0 then b'0' ∷ [] else map hex_char (digits 16 n)

-- `%x`: the sign stands before the digits.
unfoldable pub hex_text : ℤ → List ℕ
unfolding hex_nat
hex_text (pos n) = hex_nat n
hex_text (negsuc n) = b'-' ∷ hex_nat (suc n)

-- `%064x` of a number that is not negative
unfoldable pub hex_text_64 : ℕ → List ℕ
unfolding hex_nat
hex_text_64 n = map (λ z. z + b'0') (zeros (64 - length (hex_nat n))) ++ hex_nat n

-- `"0x" + s`
abbrev pub with_0x : List ℕ → List ℕ
with_0x s = b'0' ∷ b'x' ∷ s

unfoldable pub hex_digits : ℕ → List ℕ → Option ℕ
unfolding hex_value
hex_digits acc [] = some acc
hex_digits acc (c ∷ cs) = elim (hex_value c) [ none ↦ none | some d ↦ hex_digits (acc * 16 + d) cs ]

-- The digits must be there.
unfoldable pub hex_magnitude : List ℕ → Option ℕ
unfolding hex_digits
hex_magnitude [] = none
hex_magnitude (c ∷ cs) = hex_digits 0 (c ∷ cs)

unfoldable pub negate : ℕ → ℤ
negate zero = pos 0
negate (suc n) = negsuc n

abbrev as_signed : (ℕ → ℤ) → Option ℕ → Option ℤ
as_signed f none = none
as_signed f (some n) = some (f n)

-- `new(big.Int).SetString(s, 16)`: an optional sign, then hexadecimal digits.
unfoldable pub set_string : List ℕ → Option ℤ
set_string [] = none
set_string (c ∷ cs) =
    if c == b'-'
    then as_signed negate (hex_magnitude cs)
    else if c == b'+'
    then as_signed pos (hex_magnitude cs)
    else as_signed pos (hex_magnitude (c ∷ cs))

unfoldable pub strip_0x : List ℕ → List ℕ
strip_0x [] = []
strip_0x (c ∷ []) = c ∷ []
strip_0x (c ∷ d ∷ cs) = if c == b'0' && d == b'x' then cs else c ∷ d ∷ cs

unfoldable pub parse_stripped : List ℕ → Reply ℤ
parse_stripped [] = ok (pos 0)
parse_stripped (c ∷ cs) = elim (set_string (c ∷ cs)) [
  | none ↦ err (failure "invalid hex string")
  | some x ↦ ok x
]

unfoldable pub parse_hex_big : List ℕ → Reply ℤ
parse_hex_big [] = ok (pos 0)
parse_hex_big (c ∷ cs) = parse_stripped (strip_0x (c ∷ cs))

-- ===== src/Visibility/Hex.antt =====
-- `hex_to_32` and `hex_32` of storage/visibility.rs.
use searchnos_db.Prelude.{
  ℕ, ◌+◌, ◌-◌, ◌*◌, ◌/◌, ◌%◌, Bytes, Bool, ◌&&◌, leb, ◌==◌, if◌then◌else◌, Option, none, some, [],
  ◌∷◌, Result, ok, err, panic, length,
}

-- A byte of a UTF-8 text that does not start a character: slicing a `str` there panics.
unfoldable pub is_continuation : ℕ → Bool
is_continuation b = leb 0x80 b && leb b 0xbf

-- A digit of `u8::from_str_radix(_, 16)`
unfoldable pub hex_digit : ℕ → Option ℕ
hex_digit c =
    if leb b'0' c && leb c b'9'
    then some (c - b'0')
    else if leb b'a' c && leb c b'f'
    then some (c - b'a' + 10)
    else if leb b'A' c && leb c b'F'
    then some (c - b'A' + 10)
    else none

abbrev two_digits : Option ℕ → Option ℕ → Option ℕ
two_digits (some x) (some y) = some (x * 16 + y)
two_digits _ _ = none

-- `u8::from_str_radix` of two bytes: a sign `+` is accepted before a digit.
unfoldable pub hex_pair : ℕ → ℕ → Option ℕ
hex_pair a b = if a == b'+' then hex_digit b else two_digits (hex_digit a) (hex_digit b)

-- The byte at the end of a slice must start a character.
unfoldable pub cuts_character : Bytes → Bool
cuts_character [] = Bool.false
cuts_character (b ∷ bs) = is_continuation b

abbrev pub cons_byte : ℕ → Result (Option Bytes) → Result (Option Bytes)
cons_byte v (ok (some bs)) = ok (some (v ∷ bs))
cons_byte v (ok none) = ok none
cons_byte v (err e) = err e

-- The loop over the pairs. A pair that is no number ends it, a pair that cuts a character panics.
unfoldable pub hex_pairs : Bytes → Result (Option Bytes)
hex_pairs [] = ok (some [])
hex_pairs (a ∷ []) = err panic
hex_pairs (a ∷ b ∷ rest) =
    let decoded : Result (Option Bytes) = elim (hex_pair a b) [
      | none ↦ ok none
      | some v ↦ cons_byte v (hex_pairs rest)
    ] in
    if cuts_character rest then err panic else decoded

unfoldable pub hex_to_32 : Bytes → Result (Option Bytes)
hex_to_32 value = if length value == 64 then hex_pairs value else ok none

-- `HEX[n]`
unfoldable pub hex_char : ℕ → ℕ
hex_char n = if leb n 9 then b'0' + n else b'a' + (n - 10)

unfoldable pub hex_32 : Bytes → Bytes
hex_32 [] = []
hex_32 (b ∷ bs) = hex_char (b / 16) ∷ hex_char (b % 16) ∷ hex_32 bs

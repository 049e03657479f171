-- ===== src/PurgePolicy/Duration.antt =====
-- Durations as text (db/purge_policy.rs): what `parse_duration` makes of a number and a unit.
use searchnos_db.Prelude.{
  Bool, ltb, ◌*◌, if◌then◌else◌, ℕ, suc, ◌^◌, ◌<◌, true, false, some, [], ◌∷◌, ◌++◌, ◌≡◌, refl,
  arith, Bytes,
}
use searchnos_db.Text.{
  trim, trim_start, trim_end, is_whitespace, is_ascii_alphabetic, to_ascii_lowercase,
}
use searchnos_db.Text.Decimal.{to_decimal, decimal_digits-head, IsDigit, parse_unsigned-to_decimal}
use searchnos_db.Text.{parse_unsigned}
use searchnos_db.PurgePolicy.{
  parse_duration, parse_amount, split_last, unit_seconds, scaled, parsed, failed,
  duration_exceeds_limit,
}

-- A text has nothing to trim at its end when its end has nothing to trim.
pub trim_end-append :
    (xs : Bytes) (c : ℕ) (cs : Bytes)
    → trim_end (c ∷ cs) ≡ c ∷ cs
    → trim_end (xs ++ c ∷ cs) ≡ xs ++ c ∷ cs
unfolding trim_end
trim_end-append [] c cs h = h
trim_end-append (x ∷ []) c cs h = ground (arith, h)
trim_end-append (x ∷ y ∷ xs) c cs h = rw (trim_end-append (y ∷ xs) c cs h) refl

pub trim_end-character : (c : ℕ) → is_whitespace c ≡ false → trim_end (c ∷ []) ≡ c ∷ []
unfolding trim_end
trim_end-character c h = rw h refl

pub digit-is_whitespace : (c : ℕ) → IsDigit c → is_whitespace c ≡ false
unfolding is_whitespace
digit-is_whitespace c h = ground arith

pub alphabetic-is_whitespace : (c : ℕ) → is_ascii_alphabetic c ≡ true → is_whitespace c ≡ false
unfolding is_whitespace is_ascii_alphabetic
alphabetic-is_whitespace c h = ground arith

split_last-append : (c : ℕ) (xs : Bytes) (d : ℕ) → split_last c (xs ++ d ∷ []) ≡ (c ∷ xs, d)
unfolding split_last
split_last-append c [] d = refl
split_last-append c (x ∷ xs) d = rw (split_last-append x xs d) refl

pub unit-is_ascii_alphabetic :
    (c m : ℕ) → unit_seconds (to_ascii_lowercase c) ≡ some m → is_ascii_alphabetic c ≡ true
unfolding unit_seconds to_ascii_lowercase is_ascii_alphabetic
unit-is_ascii_alphabetic c m h = ground arith

parse_amount-scaled :
    (d : ℕ) (ds : Bytes) (c n m : ℕ)
    → unit_seconds (to_ascii_lowercase c) ≡ some m
    → parse_unsigned (2 ^ 64) (d ∷ ds) ≡ some n
    → parse_amount (d ∷ ds) c ≡ scaled n m
unfolding parse_amount
parse_amount-scaled d ds c n m u h = rw (u, parse_amount) (rw h refl)

pub parse_duration-scaled :
    (n c m : ℕ)
    → n < 2 ^ 64
    → unit_seconds (to_ascii_lowercase c) ≡ some m
    → parse_duration (to_decimal n ++ c ∷ []) ≡ scaled n m
unfolding parse_duration trim trim_start to_decimal
parse_duration-scaled n c m h u =
    let (d, ds, e, digit) = decimal_digits-head (suc n) n (omega arith) in
    let number = parse_unsigned-to_decimal (2 ^ 64) n h in
    let letter = unit-is_ascii_alphabetic c m u in
    let parses : parse_unsigned (2 ^ 64) (d ∷ ds) ≡ some n = rw e at number in
    rw e (
      rw (digit-is_whitespace d digit) (
        rw
          (trim_end-append (d ∷ ds) c [] (trim_end-character c (alphabetic-is_whitespace c letter)))
          (rw (split_last-append d ds c)
            (rw (letter, parse_amount-scaled d ds c n m u parses) refl))))

-- The units of a duration, with their lengths in seconds and their letters.
pub data TimeUnit : Type 0 where
  years days hours minutes seconds : TimeUnit

unfoldable pub length_of : TimeUnit → ℕ
length_of years = 31536000
length_of days = 86400
length_of hours = 3600
length_of minutes = 60
length_of seconds = 1

abbrev pub letter_of : TimeUnit → ℕ
letter_of years = b'y'
letter_of days = b'd'
letter_of hours = b'h'
letter_of minutes = b'm'
letter_of seconds = b's'

abbrev pub capital_of : TimeUnit → ℕ
capital_of years = b'Y'
capital_of days = b'D'
capital_of hours = b'H'
capital_of minutes = b'M'
capital_of seconds = b'S'

unit_seconds-letter_of :
    (unit : TimeUnit) (capital : Bool)
    → unit_seconds (to_ascii_lowercase (if capital then capital_of unit else letter_of unit))
      ≡ some (length_of unit)
unfolding unit_seconds to_ascii_lowercase length_of
unit_seconds-letter_of years true = refl
unit_seconds-letter_of years false = refl
unit_seconds-letter_of days true = refl
unit_seconds-letter_of days false = refl
unit_seconds-letter_of hours true = refl
unit_seconds-letter_of hours false = refl
unit_seconds-letter_of minutes true = refl
unit_seconds-letter_of minutes false = refl
unit_seconds-letter_of seconds true = refl
unit_seconds-letter_of seconds false = refl

-- A number below 2^64 in decimal and the letter of a unit, small or capital, are parsed as the
-- number of seconds of that many units, with 365 days to a year, and as the error of a duration
-- that exceeds the limit exactly if these are 2^64 seconds or more.
pub parse_duration-to_decimal :
    (n : ℕ) (unit : TimeUnit) (capital : Bool)
    → n < 2 ^ 64
    → parse_duration (to_decimal n ++ (if capital then capital_of unit else letter_of unit) ∷ [])
      ≡ (if ltb (n * length_of unit) (2 ^ 64)
          then parsed (n * length_of unit)
          else failed duration_exceeds_limit)
unfolding scaled
parse_duration-to_decimal n unit capital h =
    parse_duration-scaled n (if capital then capital_of unit else letter_of unit) (length_of unit) h
      (unit_seconds-letter_of unit capital)

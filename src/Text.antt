-- ===== src/Text.antt =====
-- What the source uses of `str`: a text is the list of its characters' code points, or of its
-- UTF-8 bytes where the source looks at bytes; for the digits both are the same.
pub mod Decimal
use searchnos_db.Prelude.{
  ℕ, zero, suc, ◌+◌, ◌-◌, ◌*◌, ◌/◌, ◌%◌, Bool, true, false, ◌&&◌, ◌||◌, leb, ltb, ◌==◌,
  if◌then◌else◌, Option, none, some, List, [], ◌∷◌, ◌++◌,
}

-- `char::is_whitespace`
unfoldable pub is_whitespace : ℕ → Bool
is_whitespace c =
    leb 9 c && leb c 13
    || (c == 32
        || (c == 0x85
            || (c == 0xa0
                || (c == 0x1680
                    || (leb 0x2000 c && leb c 0x200a
                        || (c == 0x2028
                            || (c == 0x2029 || (c == 0x202f || (c == 0x205f || c == 0x3000)))))))))

unfoldable pub trim_start : List ℕ → List ℕ
trim_start [] = []
trim_start (c ∷ cs) = if is_whitespace c then trim_start cs else c ∷ cs

-- Without the whitespace at the end.
unfoldable pub trim_end : List ℕ → List ℕ
trim_end [] = []
trim_end (c ∷ cs) = elim (trim_end cs) [
  | [] ↦ if is_whitespace c then [] else c ∷ []
  | d ∷ ds ↦ c ∷ d ∷ ds
]

-- `trim`
unfoldable pub trim : List ℕ → List ℕ
unfolding trim_start trim_end is_whitespace
trim s = trim_end (trim_start s)

-- `split_once`
abbrev pub cons_first : ℕ → Option (List ℕ × List ℕ) → Option (List ℕ × List ℕ)
cons_first c none = none
cons_first c (some (before, after)) = some (c ∷ before, after)

unfoldable pub split_once : ℕ → List ℕ → Option (List ℕ × List ℕ)
split_once separator [] = none
split_once separator (c ∷ cs) =
    let rest = cons_first c (split_once separator cs) in
    if c == separator then some ([], cs) else rest

-- `to_ascii_lowercase`
unfoldable pub to_ascii_lowercase : ℕ → ℕ
to_ascii_lowercase c = if leb b'A' c && leb c b'Z' then c + 32 else c

-- `eq_ignore_ascii_case`
unfoldable pub eq_ignore_ascii_case : List ℕ → List ℕ → Bool
unfolding to_ascii_lowercase
eq_ignore_ascii_case [] [] = true
eq_ignore_ascii_case (a ∷ as') (b ∷ bs) =
    to_ascii_lowercase a == to_ascii_lowercase b && eq_ignore_ascii_case as' bs
eq_ignore_ascii_case _ _ = false

unfoldable pub is_ascii_alphabetic : ℕ → Bool
is_ascii_alphabetic c = leb b'a' c && leb c b'z' || leb b'A' c && leb c b'Z'

-- One digit of `parse` for an unsigned type with `limit` values, with its check for overflow.
unfoldable pub push_digit : ℕ → Option ℕ → ℕ → Option ℕ
push_digit limit none c = none
push_digit limit (some n) c =
    if leb b'0' c && (leb c b'9' && ltb (n * 10 + (c - b'0')) limit)
    then some (n * 10 + (c - b'0'))
    else none

unfoldable pub push_digits : ℕ → Option ℕ → List ℕ → Option ℕ
push_digits limit o [] = o
push_digits limit o (c ∷ cs) = push_digits limit (push_digit limit o c) cs

-- `parse::<u16>`, `parse::<u32>`, `parse::<u64>`: a sign `+` is accepted, an empty text is not.
unfoldable pub parse_unsigned : ℕ → List ℕ → Option ℕ
unfolding push_digits push_digit
parse_unsigned limit [] = none
parse_unsigned limit (c ∷ []) = push_digits limit (some 0) (c ∷ [])
parse_unsigned limit (c ∷ d ∷ cs) =
    if c == b'+'
    then push_digits limit (some 0) (d ∷ cs)
    else push_digits limit (some 0) (c ∷ d ∷ cs)

-- ===== src/Text/Decimal.antt =====
-- `to_string` of an unsigned number, and its way back through `parse`.
use searchnos_db.Prelude.{
  ℕ, zero, suc, ◌+◌, ◌/◌, ◌%◌, ◌≤◌, ◌<◌, false, ltb, ◌==◌, if◌then◌else◌, Option, some, List, [],
  ◌∷◌, ◌++◌, ◌≡◌, refl, ◌∙◌, arith, Bool-cases, inl, inr, All, All-append,
}
use searchnos_db.Text.{push_digit, push_digits, parse_unsigned}

-- The digits, on fuel: more fuel than the number is enough.
unfoldable pub decimal_digits : ℕ → ℕ → List ℕ
decimal_digits zero n = []
decimal_digits (suc fuel) n =
    let front = decimal_digits fuel (n / 10) in
    if ltb n 10 then (b'0' + n) ∷ [] else front ++ (b'0' + n % 10) ∷ []

unfoldable pub to_decimal : ℕ → List ℕ
to_decimal n = decimal_digits (suc n) n

push_digits-append :
    (limit : ℕ) (o : Option ℕ) (xs ys : List ℕ)
    → push_digits limit o (xs ++ ys) ≡ push_digits limit (push_digits limit o xs) ys
unfolding push_digits
push_digits-append limit o [] ys = refl
push_digits-append limit o (c ∷ xs) ys = push_digits-append limit (push_digit limit o c) xs ys

push_digits-decimal_digits :
    (limit fuel n : ℕ)
    → n < fuel
    → n < limit
    → push_digits limit (some 0) (decimal_digits fuel n) ≡ some n
unfolding decimal_digits push_digits push_digit
push_digits-decimal_digits limit zero n h k = elim h [ ]
push_digits-decimal_digits limit (suc fuel) n h k = elim (Bool-cases (ltb n 10)) [
  | inl small ↦ rw small (ground arith)
  | inr large ↦ rw large (
      rw (push_digits-append limit (some 0) (decimal_digits fuel (n / 10)) ((b'0' + n % 10) ∷ [])) (
        rw (push_digits-decimal_digits limit fuel (n / 10) (ground arith) (ground arith))
          (ground arith)))
]

-- No digit is a sign, so the sign's branch is not taken.
abbrev pub IsDigit : ℕ → Type 0
IsDigit c = (b'0' ≤ c) × (c ≤ b'9')

parse_unsigned-digits :
    (limit c : ℕ) (cs : List ℕ)
    → IsDigit c
    → parse_unsigned limit (c ∷ cs) ≡ push_digits limit (some 0) (c ∷ cs)
unfolding parse_unsigned
parse_unsigned-digits limit c [] h = refl
parse_unsigned-digits limit c (d ∷ cs) h =
    let other : (c == b'+') ≡ false = ground arith in rw other

-- Every digit of a number is one.
decimal_digits-IsDigit : (fuel n : ℕ) → All IsDigit (decimal_digits fuel n)
unfolding decimal_digits
decimal_digits-IsDigit zero n = tt
decimal_digits-IsDigit (suc fuel) n = elim (Bool-cases (ltb n 10)) [
  | inl small ↦ rw small (ground arith, tt)
  | inr large ↦ rw large (
      All-append IsDigit (decimal_digits fuel (n / 10)) ((b'0' + n % 10) ∷ [])
        (decimal_digits-IsDigit fuel (n / 10)) (ground arith, tt))
]

pub to_decimal-IsDigit : (n : ℕ) → All IsDigit (to_decimal n)
unfolding to_decimal
to_decimal-IsDigit n = decimal_digits-IsDigit (suc n) n

-- The digits begin with a digit.
pub decimal_digits-head :
    (fuel n : ℕ) → n < fuel → (c : ℕ) × (cs : List ℕ) × (decimal_digits fuel n ≡ c ∷ cs) × IsDigit c
unfolding decimal_digits
decimal_digits-head zero n h = elim h [ ]
decimal_digits-head (suc fuel) n h = elim (Bool-cases (ltb n 10)) [
  | inl small ↦ rw small (b'0' + n, [], refl, ground arith)
  | inr large ↦
      let (c, cs, e, d) = decimal_digits-head fuel (n / 10) (ground arith) in
      rw large (rw e (c, cs ++ (b'0' + n % 10) ∷ [], refl, d))
]

pub to_decimal-head : (n : ℕ) → (c : ℕ) × (cs : List ℕ) × (to_decimal n ≡ c ∷ cs) × IsDigit c
unfolding to_decimal
to_decimal-head n = decimal_digits-head (suc n) n (omega arith)

-- A number below the limit of its type parses back from its digits.
pub parse_unsigned-to_decimal :
    (limit n : ℕ) → n < limit → parse_unsigned limit (to_decimal n) ≡ some n
unfolding to_decimal
parse_unsigned-to_decimal limit n h =
    let (c, cs, e, d) = decimal_digits-head (suc n) n (omega arith) in
    rw e (
      parse_unsigned-digits limit c cs d
      ∙ rw (← e) (push_digits-decimal_digits limit (suc n) n (omega arith) h))

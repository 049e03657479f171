-- ===== src/Prelude/Results.antt =====
-- `Result<_, Box<dyn Error>>`: the errors of the source by name, and its panics as one more error.
use mathlib.Core.Path.{◌≡◌, refl}
use mathlib.Core.Logic.{◌⊎◌, inl, inr}
use mathlib.Core.List.{List, [], ◌∷◌}
use mathlib.Core.Option.{Option, none, some}

pub data Error : Type 0 where
  panic : Error
  decode : Error
  unexpected_eof : Error
  length_overflow : Error
  invalid_replace_value : Error
  invalid_replace_deletion_key : Error
  missing_search_index : Error
  truncated_index : Error
  position_overflow : Error
  invalid_magic : Error
  invalid_offsets : Error
  non_monotonic_offsets : Error
  fingerprint_mismatch : Error
  kinds_mismatch : Error
  record_offset_mismatch : Error
  record_length_mismatch : Error
  io : Error

pub data Result {ℓ} (A : Type ℓ) : Type ℓ where
  ok : A → Result A
  err : Error → Result A

-- `?`: what follows is done with the value, an error leaves at once.
infixl 5 ◌>>◌ ◌>>=◌
abbrev pub ◌>>=◌ {ℓ κ} : {A : Type ℓ} {T : Type κ} → Result A → (A → Result T) → Result T
◌>>=◌ (err e) next = err e
◌>>=◌ (ok value) next = next value

abbrev pub ◌>>◌ {ℓ κ} : {A : Type ℓ} {T : Type κ} → Result A → Result T → Result T
first >> second = first >>= (λ value. second)

-- `Result::ok`
abbrev pub to_option {ℓ} : {A : Type ℓ} → Result A → Option A
to_option (ok a) = some a
to_option (err e) = none

-- `Option::ok_or`
abbrev pub ok_or {ℓ} : {A : Type ℓ} → Error → Option A → Result A
ok_or e (some a) = ok a
ok_or e none = err e

-- A loop over a list with an early return by `?`.
abbrev pub fold_result {ℓ κ} :
    {A : Type ℓ} {S : Type κ} → (S → A → Result S) → S → List A → Result S
fold_result f s [] = ok s
fold_result f s (x ∷ xs) = elim (f s x) [ ok t ↦ fold_result f t xs | err e ↦ err e ]

pub Result-cases {ℓ} :
    {T : Type ℓ} (r : Result T) → ((t : T) × (r ≡ ok t)) ⊎ ((e : Error) × (r ≡ err e))
Result-cases (err e) = inr (e, refl)
Result-cases (ok t) = inl (t, refl)

-- If the whole chain succeeds, its first part does, and the rest does on its value.
pub >>=-eq-ok {ℓ κ} :
    {S : Type ℓ} {T : Type κ} (r : Result S) (next : S → Result T) {t : T}
    → (r >>= next) ≡ ok t
    → (s : S) × (r ≡ ok s) × (next s ≡ ok t)
>>=-eq-ok (err e) next chain = cc
>>=-eq-ok (ok s) next chain = (s, refl, chain)

pub fold_result-eq-ok {ℓ κ} :
    {A : Type ℓ} {S : Type κ} (f : S → A → Result S) (s : S) (x : A) (xs : List A) {t : S}
    → fold_result f s (x ∷ xs) ≡ ok t
    → (u : S) × (f s x ≡ ok u) × (fold_result f u xs ≡ ok t)
fold_result-eq-ok f s x xs h = elim (Result-cases (f s x)) [
  | inl (u, e) ↦ (u, e, rw (e, fold_result) at h)
  | inr (er, e) ↦ cc (rw (e, fold_result) at h)
]

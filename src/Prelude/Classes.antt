-- ===== src/Prelude/Classes.antt =====
-- Decidable equality as an interface, with the instances that the source derives.
use Prim.Native.Nat.{ℕ}
use mathlib.Core.Path.{◌≡◌, refl, ap}
use mathlib.Core.Logic.{◌↔◌}
use mathlib.Core.Bool.{Bool, true, false}
use mathlib.Core.Option.{Option, none, some}
use mathlib.Core.List.{List, [], ◌∷◌}
use native.Mathlib.Omega.{arith}
use searchnos_db.Prelude.Tests.{◌==◌, ==_iff}
use searchnos_db.Prelude.Orders.{cmp_bytes, is_eq, cmp_bytes-IsTotalOrder}

pub record Eq {ℓ} (A : Type ℓ) : Type ℓ where
  pub beq : A → A → Bool
  pub beq_iff : (a b : A) → (beq a b ≡ true) ↔ (a ≡ b)

-- Byte strings: `[u8; 32]`, `&[u8]`, and `str` by its UTF-8 bytes.
abbrev pub Bytes : Type 0
Bytes = List ℕ

pub bytes_beq_iff : (a b : Bytes) → (is_eq (cmp_bytes a b) ≡ true) ↔ (a ≡ b)
bytes_beq_iff a b = (
  λ h. cmp_bytes-IsTotalOrder.eq_of_cmp a b (ground arith),
  λ h. rw (h, cmp_bytes-IsTotalOrder.cmp-self b),
)

-- Equality of byte strings, read off the lexicographic comparison.
instance abbrev pub bytes_eq : Eq Bytes
bytes_eq = record { beq = λ a b. is_eq (cmp_bytes a b); beq_iff = bytes_beq_iff }

instance abbrev pub nat_eq : Eq ℕ
nat_eq = record { beq = ◌==◌; beq_iff = ==_iff }

infix 50 ◌=?◌
abbrev pub ◌=?◌ {ℓ} : {A : Type ℓ} ⦃e : Eq A⦄ → A → A → Bool
◌=?◌ ⦃e⦄ = e.beq

module _ {ℓ} {A : Type ℓ} ⦃e : Eq A⦄ where
  abbrev pub option_beq : Option A → Option A → Bool
  option_beq none none = true
  option_beq (some a) (some b) = e.beq a b
  option_beq _ _ = false

  pub option_beq_iff : (a b : Option A) → (option_beq a b ≡ true) ↔ (a ≡ b)
  option_beq_iff none none = (λ _. refl, λ _. refl)
  option_beq_iff none (some b) = (λ h. cc, λ h. cc)
  option_beq_iff (some a) none = (λ h. cc, λ h. cc)
  option_beq_iff (some a) (some b) =
      (λ h. ap some ((e.beq_iff a b).0 h), λ h. (e.beq_iff a b).1 (cc))

  instance abbrev pub option_eq : Eq (Option A)
  option_eq = record { beq = option_beq; beq_iff = option_beq_iff }

  pub beq_refl : (a : A) → e.beq a a ≡ true
  beq_refl a = (e.beq_iff a a).1 refl

  pub =?_iff : (a b : A) → ((a =? b) ≡ true) ↔ (a ≡ b)
  =?_iff a b = e.beq_iff a b

  -- `contains` of slices and sets.
  abbrev pub contains : List A → A → Bool
  contains [] a = false
  contains (x ∷ xs) a = elim (x =? a) [ true ↦ true | false ↦ contains xs a ]

-- ===== src/Prelude/Orders.antt =====
-- `std::cmp::Ordering`, and what the source asks of a comparison function.
use Prim.Native.Nat.{ℕ, compare, Ordering}
use Prim.Native.Nat.Ordering.{lt, eq, gt}
use mathlib.Core.Path.{◌≡◌, refl}
use mathlib.Core.Bool.{Bool, true, false}
use mathlib.Core.List.{List, [], ◌∷◌}
use native.Mathlib.Omega.{arith}

-- `Ordering::then_with`, `reverse`, `is_lt`, `is_gt`
abbrev pub then_with : Ordering → Ordering → Ordering
then_with eq second = second
then_with first second = first

abbrev pub reversed : Ordering → Ordering
reversed lt = gt
reversed eq = eq
reversed gt = lt

abbrev pub is_lt : Ordering → Bool
is_lt lt = true
is_lt _ = false

abbrev pub is_gt : Ordering → Bool
is_gt gt = true
is_gt _ = false

abbrev pub is_eq : Ordering → Bool
is_eq eq = true
is_eq _ = false

-- A comparison that is a strict total order.
pub record IsTotalOrder {ℓ} {A : Type ℓ} (cmp : A → A → Ordering) : Type ℓ where
  pub cmp-self : (a : A) → cmp a a ≡ eq
  pub eq_of_cmp : (a b : A) → cmp a b ≡ eq → a ≡ b
  pub cmp-reversed : (a b : A) → cmp b a ≡ reversed (cmp a b)
  pub lt_trans : (a b c : A) → cmp a b ≡ lt → cmp b c ≡ lt → cmp a c ≡ lt

pub compare-IsTotalOrder : IsTotalOrder compare
compare-IsTotalOrder = ground arith

-- `Ord` of byte arrays, slices and strings: lexicographic.
unfoldable pub cmp_bytes : List ℕ → List ℕ → Ordering
cmp_bytes [] [] = eq
cmp_bytes [] (b ∷ bs) = lt
cmp_bytes (a ∷ as') [] = gt
cmp_bytes (a ∷ as') (b ∷ bs) = then_with (compare a b) (cmp_bytes as' bs)

cmp_bytes_self : (a : List ℕ) → cmp_bytes a a ≡ eq
unfolding cmp_bytes
cmp_bytes_self [] = refl
cmp_bytes_self (a ∷ as') = ground (arith, cmp_bytes_self as')

eq_of_cmp_bytes : (a b : List ℕ) → cmp_bytes a b ≡ eq → a ≡ b
unfolding cmp_bytes
eq_of_cmp_bytes [] [] h = refl
eq_of_cmp_bytes [] (b ∷ bs) h = cc
eq_of_cmp_bytes (a ∷ as') [] h = cc
eq_of_cmp_bytes (a ∷ as') (b ∷ bs) h = ground (arith, eq_of_cmp_bytes as' bs)

cmp_bytes-reversed : (a b : List ℕ) → cmp_bytes b a ≡ reversed (cmp_bytes a b)
unfolding cmp_bytes
cmp_bytes-reversed [] [] = refl
cmp_bytes-reversed [] (b ∷ bs) = refl
cmp_bytes-reversed (a ∷ as') [] = refl
cmp_bytes-reversed (a ∷ as') (b ∷ bs) = ground (arith, cmp_bytes-reversed as' bs)

cmp_bytes-lt_trans : (a b c : List ℕ) → cmp_bytes a b ≡ lt → cmp_bytes b c ≡ lt → cmp_bytes a c ≡ lt
unfolding cmp_bytes
cmp_bytes-lt_trans [] [] c h k = cc
cmp_bytes-lt_trans [] (b ∷ bs) [] h k = cc
cmp_bytes-lt_trans [] (b ∷ bs) (c ∷ cs) h k = refl
cmp_bytes-lt_trans (a ∷ as') [] c h k = cc
cmp_bytes-lt_trans (a ∷ as') (b ∷ bs) [] h k = cc
cmp_bytes-lt_trans (a ∷ as') (b ∷ bs) (c ∷ cs) h k = ground (arith, cmp_bytes-lt_trans as' bs cs)

pub cmp_bytes-IsTotalOrder : IsTotalOrder cmp_bytes
cmp_bytes-IsTotalOrder = record {
  cmp-self = cmp_bytes_self;
  eq_of_cmp = eq_of_cmp_bytes;
  cmp-reversed = cmp_bytes-reversed;
  lt_trans = cmp_bytes-lt_trans;
}

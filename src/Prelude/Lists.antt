-- ===== src/Prelude/Lists.antt =====
-- Lists measured and indexed by native numbers, under the library's names.
use Prim.Native.Nat.{ℕ, zero, suc, ◌+◌, ◌-◌, ◌≤◌}
use mathlib.Core.Path.{◌≡◌, refl, sym, ap, ◌∙◌}
use mathlib.Core.Logic.{◌⊎◌, inl, inr}
use mathlib.Core.List.{List, [], ◌∷◌, ◌++◌}
use mathlib.Core.Option.{Option, none, some}
use mathlib.Core.Bool.{Bool, true, false, ◌&&◌, ◌||◌}
use native.Mathlib.Omega.{arith}
use searchnos_db.Prelude.Tests.{Bool-cases, ||-eq-true}

module _ {ℓ} {A : Type ℓ} where
  abbrev pub length : List A → ℕ
  length [] = 0
  length (x ∷ xs) = suc (length xs)

  abbrev pub get_elem? : List A → ℕ → Option A
  get_elem? [] i = none
  get_elem? (x ∷ xs) zero = some x
  get_elem? (x ∷ xs) (suc i) = get_elem? xs i

  abbrev pub get_or : List A → ℕ → A → A
  get_or [] i d = d
  get_or (x ∷ xs) zero d = x
  get_or (x ∷ xs) (suc i) d = get_or xs i d

  -- A write out of bounds changes nothing.
  abbrev pub set : List A → ℕ → A → List A
  set [] i v = []
  set (x ∷ xs) zero v = v ∷ xs
  set (x ∷ xs) (suc i) v = x ∷ set xs i v

  abbrev pub take : ℕ → List A → List A
  take zero xs = []
  take (suc n) [] = []
  take (suc n) (x ∷ xs) = x ∷ take n xs

  abbrev pub drop : ℕ → List A → List A
  drop zero xs = xs
  drop (suc n) [] = []
  drop (suc n) (x ∷ xs) = drop n xs

  abbrev pub replicate : ℕ → A → List A
  replicate zero a = []
  replicate (suc n) a = a ∷ replicate n a

  -- `iter().any` and `iter().all`
  abbrev pub any : (A → Bool) → List A → Bool
  any f [] = false
  any f (x ∷ xs) = f x || any f xs

  abbrev pub all : (A → Bool) → List A → Bool
  all f [] = true
  all f (x ∷ xs) = f x && all f xs

  -- Every element satisfies the predicate.
  abbrev pub All {κ} : (A → Type κ) → List A → Type κ
  All P [] = Unit
  All P (x ∷ xs) = P x × All P xs

-- Membership by recursion, which case splits take apart.
infix 4 ◌∈◌
abbrev pub ◌∈◌ : {A : Type 0} → A → List A → Type 0
a ∈ [] = ⊥
a ∈ (x ∷ xs) = (x ≡ a) ⊎ (a ∈ xs)

module _ {ℓ} {A : Type ℓ} where
  pub length-append : (xs ys : List A) → length (xs ++ ys) ≡ length xs + length ys
  length-append [] ys = omega arith
  length-append (x ∷ xs) ys = omega (arith, length-append xs ys)

  pub take-append : (xs ys : List A) → take (length xs) (xs ++ ys) ≡ xs
  take-append [] ys = refl
  take-append (x ∷ xs) ys = ap (λ l. x ∷ l) (take-append xs ys)

  pub drop-append : (xs ys : List A) → drop (length xs) (xs ++ ys) ≡ ys
  drop-append [] ys = refl
  drop-append (x ∷ xs) ys = drop-append xs ys

  pub length-replicate : (n : ℕ) (a : A) → length (replicate n a) ≡ n
  length-replicate zero a = refl
  length-replicate (suc n) a = ap suc (length-replicate n a)

  pub length-set : (xs : List A) (i : ℕ) (v : A) → length (set xs i v) ≡ length xs
  length-set [] i v = refl
  length-set (x ∷ xs) zero v = refl
  length-set (x ∷ xs) (suc i) v = ap suc (length-set xs i v)

  pub any-append : (f : A → Bool) (xs ys : List A) → any f (xs ++ ys) ≡ (any f xs || any f ys)
  any-append f [] ys = refl
  any-append f (x ∷ xs) ys = ground (arith, any-append f xs ys)

  pub All-append {κ} : (P : A → Type κ) (xs ys : List A) → All P xs → All P ys → All P (xs ++ ys)
  All-append P [] ys h k = k
  All-append P (x ∷ xs) ys h k = (h.0, All-append P xs ys h.1 k)

  pub any_or : (f g : A → Bool) (xs : List A) → any (λ x. f x || g x) xs ≡ (any f xs || any g xs)
  any_or f g [] = refl
  any_or f g (x ∷ xs) = rw (any_or f g xs) (ground arith)

  pub any-false : (f : A → Bool) (xs : List A) → ((x : A) → f x ≡ false) → any f xs ≡ false
  any-false f [] h = refl
  any-false f (x ∷ xs) h = rw (h x) (any-false f xs h)

module _ {A : Type 0} (f : A → Bool) where
  pub any_of_mem : (x : A) (xs : List A) → x ∈ xs → f x ≡ true → any f xs ≡ true
  any_of_mem x [] m h = elim m [ ]
  any_of_mem x (y ∷ xs) (inl here) h = rw here (rw h)
  any_of_mem x (y ∷ xs) (inr there) h = ground (arith, any_of_mem x xs there h)

  pub any_source : (xs : List A) → any f xs ≡ true → (x : A) × (x ∈ xs) × (f x ≡ true)
  any_source [] h = cc
  any_source (x ∷ xs) h = elim (||-eq-true (f x) (any f xs) h) [
    | inl here ↦ (x, inl refl, here)
    | inr there ↦ let (y, m, e) = any_source xs there in (y, inr m, e)
  ]

  -- Two lists with the same elements of a kind that includes all that pass the test.
  pub any_members :
      (xs ys : List A)
      → ((x : A) → f x ≡ true → x ∈ xs → x ∈ ys)
      → ((x : A) → f x ≡ true → x ∈ ys → x ∈ xs)
      → any f xs ≡ any f ys
  any_members xs ys to from = elim (Bool-cases (any f xs)) [
    | inl yes_x ↦
        let (x, m, e) = any_source xs yes_x in rw yes_x (sym (any_of_mem x ys (to x e m) e))
    | inr no_x ↦ elim (Bool-cases (any f ys)) [
      | inl yes_y ↦ let (y, m, e) = any_source ys yes_y in rw yes_y (any_of_mem y xs (from y e m) e)
      | inr no_y ↦ rw no_x (rw no_y)
    ]
  ]

module _ {ℓ} {A : Type ℓ} where
  -- Taking exactly the first part, or dropping it, at a number that is its length.
  pub take-append_at : (n : ℕ) (xs ys : List A) → length xs ≡ n → take n (xs ++ ys) ≡ xs
  take-append_at n xs ys h = rw (← h) (take-append xs ys)

  pub drop-append_at : (n : ℕ) (xs ys : List A) → length xs ≡ n → drop n (xs ++ ys) ≡ ys
  drop-append_at n xs ys h = rw (← h) (drop-append xs ys)

  pub length-take_le : (n : ℕ) (xs : List A) → n ≤ length xs → length (take n xs) ≡ n
  length-take_le zero xs h = refl
  length-take_le (suc n) [] h = omega arith
  length-take_le (suc n) (x ∷ xs) h = ap suc (length-take_le n xs (omega arith))

  pub length-drop : (n : ℕ) (xs : List A) → length (drop n xs) ≡ length xs - n
  length-drop zero xs = omega arith
  length-drop (suc n) [] = omega arith
  length-drop (suc n) (x ∷ xs) = omega (arith, length-drop n xs)

  -- Dropping twice, at a number that is the sum.
  pub drop-drop : (s k t : ℕ) (xs : List A) → t ≡ s + k → drop k (drop s xs) ≡ drop t xs
  drop-drop zero k t xs e = let f : t ≡ k = omega arith in rw f
  drop-drop (suc s) k zero xs e = absurd (omega arith)
  drop-drop (suc s) zero (suc t) [] e = refl
  drop-drop (suc s) (suc k) (suc t) [] e = refl
  drop-drop (suc s) k (suc t) (x ∷ xs) e = drop-drop s k t xs (omega arith)

  pub take-drop : (n : ℕ) (xs : List A) → take n xs ++ drop n xs ≡ xs
  take-drop zero xs = refl
  take-drop (suc n) [] = refl
  take-drop (suc n) (x ∷ xs) = ap (λ l. x ∷ l) (take-drop n xs)

  pub take-all : (xs : List A) → take (length xs) xs ≡ xs
  take-all [] = refl
  take-all (x ∷ xs) = ap (λ l. x ∷ l) (take-all xs)

  -- Equal concatenations whose first parts have one length agree in both parts.
  pub append_inj :
      (xs ys us vs : List A) → length xs ≡ length ys → xs ++ us ≡ ys ++ vs → (xs ≡ ys) × (us ≡ vs)
  append_inj xs ys us vs h e = (
    sym (take-append xs us) ∙ rw (h) (rw e (take-append ys vs)),
    sym (drop-append xs us) ∙ rw (h) (rw e (drop-append ys vs)),
  )

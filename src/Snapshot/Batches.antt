-- ===== src/Snapshot/Batches.antt =====
-- `split_pending`: nothing is lost, and no batch is more than one request larger than another.
use native.Mathlib.Nat.{le-div_iff_mul-le, div-lt_iff_lt-mul, lt-div-mul-add, div-mul-le_self}
use searchnos_db.Prelude.{
  take-drop, ℕ, zero, suc, ◌+◌, ◌-◌, ◌*◌, ◌/◌, ◌≤◌, ◌<◌, min, List, [], ◌∷◌, ◌++◌, ◌≡◌, ◌⊎◌, inl,
  inr, refl, ap, ◌∙◌, arith, length, take, drop, All, length-take_le, length-drop,
}
use searchnos_db.Snapshot.{div_ceil, split_batches, split_pending, concat}

div_ceil-le : (m n k : ℕ) → n ≤ m * suc k → div_ceil n (suc k) ≤ m
div_ceil-le m n k h =
    let below : div_ceil n (suc k) < m + 1 =
      (div-lt_iff_lt-mul {k = suc k} {x = n + (suc k - 1)} {y = m + 1} (omega arith)).1
        (omega arith) in
    omega arith

le-div_ceil : (m n k : ℕ) → m * suc k ≤ n + k → m ≤ div_ceil n (suc k)
le-div_ceil m n k h =
    (le-div_iff_mul-le {k = suc k} {x = m} {y = n + (suc k - 1)} (omega arith)).1 (omega arith)

-- Taking the first of `suc k` batches leaves the bounds for the others.
batch_bounds :
    (q n k : ℕ)
    → q * suc k ≤ n
    → n ≤ (q + 1) * suc k
    → let b = div_ceil n (suc k) in
      (q * k ≤ n - b) × (n - b ≤ (q + 1) * k) × (q ≤ b) × (b ≤ q + 1) × (b ≤ n)
batch_bounds q n k low high = elim (split_le low) [
  | inl exact ↦
      let upper = div_ceil-le q n k (omega arith) in
      let lower = le-div_ceil q n k (omega arith) in
      (omega arith, omega arith, lower, omega arith, omega arith)
  | inr above ↦
      let upper = div_ceil-le (q + 1) n k high in
      let lower = le-div_ceil (q + 1) n k (omega arith) in
      (omega arith, omega arith, omega arith, upper, omega arith)
]
  where
    split_le : {a b : ℕ} → a ≤ b → (a ≡ b) ⊎ (a < b)
    split_le h = ground arith

-- The bounds hold for the quotient by a positive number.
quotient_bounds : (n k : ℕ) → 1 ≤ k → k ≤ n → (1 ≤ n / k) × (n / k * k ≤ n) × (n ≤ (n / k + 1) * k)
quotient_bounds n k h fits = (
  (le-div_iff_mul-le {k = k} {x = 1} {y = n} (omega arith)).1 (omega arith),
  div-mul-le_self n k,
  successor (n / k) (lt-div-mul-add {a = n} {b = k} (omega arith)),
)
  where
    successor : (q : ℕ) → n < q * k + k → n ≤ (q + 1) * k
    successor q above = grind arith

module _ {ℓ} {A : Type ℓ} where
  -- The pending requests in batches of `q` or `q + 1`.
  pub record IsBalanced (q n : ℕ) (pending : List A) (split : List (List A) × List A) : Type ℓ where
    pub all_batched : concat split.0 ≡ pending
    pub none_left : split.1 ≡ []
    pub count : length split.0 ≡ n
    pub sizes : All (λ batch. (q ≤ length batch) × (length batch ≤ q + 1)) split.0

  split_batches-IsBalanced :
      (q n : ℕ) (pending : List A)
      → q * n ≤ length pending
      → length pending ≤ (q + 1) * n
      → IsBalanced q n pending (split_batches n pending)
  unfolding split_batches
  split_batches-IsBalanced q zero [] low high = record {
    all_batched = refl;
    none_left = refl;
    count = refl;
    sizes = tt;
  }
  split_batches-IsBalanced q zero (x ∷ pending) low high = absurd (omega arith)
  split_batches-IsBalanced q (suc n) pending low high =
      let b = div_ceil (length pending) (suc n) in
      let (low', high', at_least, at_most, fits) = batch_bounds q (length pending) n low high in
      let size = length-take_le b pending fits in
      let rest = length-drop b pending in
      let ih = split_batches-IsBalanced q n (drop b pending) (rw rest low') (rw rest high') in
      record {
        all_batched = ap (λ l. take b pending ++ l) ih.all_batched ∙ take-drop b pending;
        none_left = ih.none_left;
        count = ap suc ih.count;
        sizes = ((rw size at_least, rw size at_most), ih.sizes);
      }

  -- The pending requests are split, in their order and without a rest, into as many batches as
  -- there may be, or as many as there are requests if these are fewer; each batch has a request,
  -- and no two batches differ by more than one in size.
  pub split_pending-IsBalanced :
      (pending : List A) (max_batches : ℕ)
      → 1 ≤ max_batches
      → (q : ℕ) × ((length pending ≡ 0) ⊎ (1 ≤ q))
        × IsBalanced q
            (min (length pending) max_batches)
            pending
            (split_pending pending max_batches)
  unfolding split_pending
  split_pending-IsBalanced [] max_batches h =
      (0, inl refl, split_batches-IsBalanced 0 (min 0 max_batches) [] (omega arith) (omega arith))
  split_pending-IsBalanced (x ∷ xs) max_batches h =
      let n = length (x ∷ xs) in
      let k = min n max_batches in
      let (some_each, low, high) = quotient_bounds n k (omega arith) (omega arith) in
      (n / k, inr some_each, split_batches-IsBalanced (n / k) k (x ∷ xs) low high)

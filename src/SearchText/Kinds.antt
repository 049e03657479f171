-- ===== src/SearchText/Kinds.antt =====
-- `searchable_kinds_hash` does not depend on the order of the kinds or on repetitions.
use searchnos_db.Prelude.{ℕ, suc, ◌≤◌, List, [], ◌∷◌}

-- The kinds rise, from a number on.
abbrev pub Rises : ℕ → List ℕ → Type 0
Rises low [] = Unit
Rises low (kind ∷ kinds) = (low ≤ kind) × Rises kind kinds

abbrev pub RisesStrictly : ℕ → List ℕ → Type 0
RisesStrictly low [] = Unit
RisesStrictly low (kind ∷ kinds) = (low ≤ kind) × RisesStrictly (suc kind) kinds

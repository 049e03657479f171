-- ===== src/PurgePolicy/Entries.antt =====
-- The map by kind of a policy (db/purge_policy.rs): lookups after insertions, and its order.
use searchnos_db.Prelude.{ℕ, ◌==◌, if◌then◌else◌, some, List, [], ◌∷◌, ◌≡◌, refl, arith}
use searchnos_db.PurgePolicy.{PurgeSetting, get, insert}

pub get-insert :
    (kind other : ℕ) (s : PurgeSetting) (m : List (ℕ × PurgeSetting))
    → get other (insert kind s m) ≡ (if kind == other then some s else get other m)
unfolding get insert
get-insert kind other s [] = refl
get-insert kind other s ((k, t) ∷ m) = ground (arith, get-insert kind other s m)

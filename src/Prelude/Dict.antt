-- ===== src/Prelude/Dict.antt =====
-- `BTreeMap` as an association list. The order of the entries is not modelled: what the source
-- does while it iterates over a map does not depend on it.
use mathlib.Core.Path.{◌≡◌, refl, ap}
use mathlib.Core.Option.{Option, none, some}
use mathlib.Core.List.{List, [], ◌∷◌}
use mathlib.Core.Logic.{inl, inr}
use native.Mathlib.Omega.{arith}
use searchnos_db.Prelude.Tests.{if◌then◌else◌, Bool-cases, Option-cases}
use searchnos_db.Prelude.Classes.{Eq, ◌=?◌}

abbrev pub Dict {ℓ κ} : Type ℓ → Type κ → Type (ℓ ⊔ κ)
Dict K V = List (K × V)

abbrev pub updated {ℓ} : {V : Type ℓ} → (V → V) → V → Option V → V
updated f v none = v
updated f v (some w) = f w

module _ {ℓ κ} {K : Type ℓ} {V : Type κ} ⦃e : Eq K⦄ where
  -- `get`
  unfoldable pub lookup : K → Dict K V → Option V
  lookup k [] = none
  lookup k ((j, v) ∷ m) = if j =? k then some v else lookup k m

  -- `entry(k).and_modify(f).or_insert(v)`
  unfoldable pub upsert : K → (V → V) → V → Dict K V → Dict K V
  upsert k f v [] = (k, v) ∷ []
  upsert k f v ((j, w) ∷ m) = if j =? k then (j, f w) ∷ m else (j, w) ∷ upsert k f v m

  pub lookup-upsert :
      (k j : K) (f : V → V) (v : V) (m : Dict K V)
      → lookup j (upsert k f v m) ≡ (if k =? j then some (updated f v (lookup k m)) else lookup j m)
  unfolding lookup upsert
  lookup-upsert k j f v [] = refl
  lookup-upsert k j f v ((i, w) ∷ m) =
      ground (arith, e.beq_iff i k, e.beq_iff k j, e.beq_iff i j, lookup-upsert k j f v m)

-- Optional values joined by an operation.
module _ {ℓ} {V : Type ℓ} (op : V → V → V) where
  abbrev pub join : Option V → Option V → Option V
  join none o = o
  join (some v) none = some v
  join (some v) (some w) = some (op v w)

  pub join-none : (o : Option V) → join o none ≡ o
  join-none none = refl
  join-none (some v) = refl

  module _ (op_assoc : (u v w : V) → op (op u v) w ≡ op u (op v w)) where
    pub join_assoc : (o p q : Option V) → join (join o p) q ≡ join o (join p q)
    join_assoc none p q = refl
    join_assoc (some u) none q = refl
    join_assoc (some u) (some v) none = refl
    join_assoc (some u) (some v) (some w) = ap some (op_assoc u v w)

  module _ (op_comm : (u v : V) → op u v ≡ op v u) where
    pub join_comm : (o p : Option V) → join o p ≡ join p o
    join_comm none none = refl
    join_comm none (some v) = refl
    join_comm (some u) none = refl
    join_comm (some u) (some v) = ap some (op_comm u v)

  module _ (op_assoc : (u v w : V) → op (op u v) w ≡ op u (op v w))
      (op_comm : (u v : V) → op u v ≡ op v u) where
    join-updated :
        (o g : Option V) (v : V) → join (some (updated (op v) v o)) g ≡ join o (join (some v) g)
    join-updated none g v = refl
    join-updated (some w) g v = rw (op_comm v w) (join_assoc op_assoc (some w) (some v) g)

-- What all entries of a key amount to, and `for (key, value) in entries { map.entry(key)
-- .and_modify(...).or_insert(value) }`.
module _ {ℓ κ} {K : Type ℓ} {V : Type κ} ⦃e : Eq K⦄ (op : V → V → V) where
  unfoldable pub gathered : K → Dict K V → Option V
  gathered k [] = none
  gathered k ((j, v) ∷ m) = if j =? k then join op (some v) (gathered k m) else gathered k m

  unfoldable pub merge_entries : Dict K V → Dict K V → Dict K V
  merge_entries m [] = m
  merge_entries m ((k, v) ∷ entries) = merge_entries (upsert k (op v) v m) entries

  -- An operation on a map offers values for a key, as an optional one.
  abbrev pub offered : K → Option V → K → V → Option V
  offered k o j v = if j =? k then join op (some v) o else o

  module _ (op_assoc : (u v w : V) → op (op u v) w ≡ op u (op v w)) where
    pub gathered-upsert :
        (k j : K) (v : V) (m : Dict K V)
        → gathered k (upsert j (op v) v m) ≡ offered k (gathered k m) j v
    unfolding gathered upsert
    gathered-upsert k j v [] = refl
    gathered-upsert k j v ((i, w) ∷ m) = elim (Bool-cases (i =? j)) [
      | inl same ↦ rw same (
          ground (
            arith,
            e.beq_iff i j,
            e.beq_iff i k,
            e.beq_iff j k,
            join_assoc op op_assoc (some v) (some w) (gathered k m),
          ))
      | inr other ↦
          rw other
            (ground (arith, e.beq_iff i j, e.beq_iff i k, e.beq_iff j k, gathered-upsert k j v m))
    ]

    module _ (op_comm : (u v : V) → op u v ≡ op v u) where
      pub lookup-merge_entries :
          (k : K) (m entries : Dict K V)
          → lookup k (merge_entries m entries) ≡ join op (lookup k m) (gathered k entries)
      unfolding gathered merge_entries
      lookup-merge_entries k m [] = ground (arith, Option-cases (lookup k m))
      lookup-merge_entries k m ((j, v) ∷ entries) = elim (Bool-cases (j =? k)) [
        | inl same ↦ rw (lookup-merge_entries k (upsert j (op v) v m) entries) (
            rw (lookup-upsert j k (op v) v m) (
              rw same (
                rw ((e.beq_iff j k).0 same)
                  (join-updated op op_assoc op_comm (lookup k m) (gathered k entries) v))))
        | inr other ↦
            rw (lookup-merge_entries k (upsert j (op v) v m) entries)
              (rw (lookup-upsert j k (op v) v m) (rw other))
      ]

-- ===== src/Visibility/Store/Range.antt =====
-- The loop over the deletions of an address: in ascending keys it finds a deletion if there is one.
use searchnos_db.Prelude.{
  ℕ, ◌≤◌, ◌<◌, ◌^◌, Bytes, true, false, leb, ◌==◌, ==_iff, if◌then◌else◌, List, [], ◌∷◌, ◌++◌, ok,
  ◌≡◌, inl, inr, refl, sym, ap, ◌∙◌, arith, beq_refl, bytes_eq, length, length-append,
  take-append_at, drop-append_at, All, ◌∈◌, append_inj, Bool-cases, is_lt, cmp_bytes, &&-eq-true,
}
use searchnos_db.Prelude.Words.{to_le_bytes, length-to_le_bytes, from_le_bytes-to_le_bytes}
use searchnos_db.Visibility.Store.{starts_with, is_deleted_in, parse_strfry_replace_deletion_key}

-- Each key comes before those behind it.
abbrev pub IsAscending : List Bytes → Type 0
IsAscending [] = Unit
IsAscending (k ∷ keys) = All (λ other. is_lt (cmp_bytes k other) ≡ true) keys × IsAscending keys

ascending_before :
    (k : Bytes) (keys : List Bytes) (key : Bytes)
    → All (λ other. is_lt (cmp_bytes k other) ≡ true) keys
    → key ∈ keys
    → is_lt (cmp_bytes k key) ≡ true
ascending_before k [] key h m = elim m [ ]
ascending_before k (other ∷ keys) key h (inl here) = rw (← here) h.0
ascending_before k (other ∷ keys) key h (inr there) = ascending_before k keys key h.1 there

-- What stands between a prefix and a key that starts with it starts with it.
starts_with-between :
    (prefix a b : Bytes)
    → is_lt (cmp_bytes a prefix) ≡ false
    → is_lt (cmp_bytes a b) ≡ true
    → starts_with prefix b ≡ true
    → starts_with prefix a ≡ true
unfolding starts_with cmp_bytes
starts_with-between [] a b low high s = refl
starts_with-between (p ∷ prefix) a [] low high s = cc
starts_with-between (p ∷ prefix) [] (y ∷ b) low high s = cc
starts_with-between (p ∷ prefix) (x ∷ a) (y ∷ b) low high s =
    ground (arith, starts_with-between prefix a b)

starts_with-append : (prefix rest : Bytes) → starts_with prefix (prefix ++ rest) ≡ true
unfolding starts_with
starts_with-append [] rest = refl
starts_with-append (p ∷ prefix) rest = ground (arith, ==_iff p p, starts_with-append prefix rest)

pub not_below-append : (prefix rest : Bytes) → is_lt (cmp_bytes (prefix ++ rest) prefix) ≡ false
unfolding cmp_bytes
not_below-append [] [] = refl
not_below-append [] (x ∷ rest) = refl
not_below-append (p ∷ prefix) rest = ground (arith, not_below-append prefix rest)

starts_with-source :
    (prefix s : Bytes) → starts_with prefix s ≡ true → (rest : Bytes) × (s ≡ prefix ++ rest)
unfolding starts_with
starts_with-source [] s h = (s, refl)
starts_with-source (p ∷ prefix) [] h = cc
starts_with-source (p ∷ prefix) (x ∷ s) h =
    let (e, h') = &&-eq-true (p == x) (starts_with prefix s) h in
    let (rest, f) = starts_with-source prefix s h' in
    (rest, rw ((==_iff p x).0 e) (ap (λ l. x ∷ l) f))

-- A key of the database of deleted addresses: a hash and a time.
pub record IsStored (hash : Bytes) (time : ℕ) (key : Bytes) : Type 0 where
  pub key_is : key ≡ hash ++ to_le_bytes 8 time
  pub hash_length : length hash ≡ 32
  pub time_fits : time < 256 ^ 8

parsed-IsStored :
    (hash key : Bytes) (time : ℕ)
    → IsStored hash time key
    → parse_strfry_replace_deletion_key key ≡ ok (hash, time)
unfolding parse_strfry_replace_deletion_key
parsed-IsStored hash key time v = rw v.key_is (
    rw (length-append hash (to_le_bytes 8 time)) (
      rw (v.hash_length, length-to_le_bytes 8 time)
        (rw (take-append_at 32 hash (to_le_bytes 8 time) v.hash_length) (
          rw (drop-append_at 32 hash (to_le_bytes 8 time) v.hash_length)
            (rw (from_le_bytes-to_le_bytes 8 time v.time_fits) refl)))))

module _ (hash : Bytes) (created_at : ℕ) (hash_length : length hash ≡ 32) where
  -- A key that starts with the hash is one of the hash.
  own_hash :
      (h key : Bytes) (time : ℕ)
      → IsStored h time key
      → starts_with hash key ≡ true
      → IsStored hash time key
  own_hash h key time v s =
      let (rest, e) = starts_with-source hash key s in
      let same : h ≡ hash =
        (append_inj h hash (to_le_bytes 8 time) rest (v.hash_length ∙ sym hash_length)
          (sym v.key_is ∙ e)).0 in
      rw (← same) v

  step :
      (key : Bytes) (time : ℕ) (keys : List Bytes)
      → IsStored hash time key
      → is_deleted_in hash created_at (key ∷ keys)
        ≡ (if leb created_at time then ok true else is_deleted_in hash created_at keys)
  unfolding is_deleted_in
  step key time keys v =
      rw (starts v, is_deleted_in) (rw (parsed-IsStored hash key time v) (rw (beq_refl hash) refl))
    where
      starts : IsStored hash time key → starts_with hash key ≡ true
      starts w = rw w.key_is (starts_with-append hash (to_le_bytes 8 time))

  pub is_deleted_in-found :
      (keys : List Bytes) (key : Bytes) (time : ℕ)
      → All (λ k. (h : Bytes) × (t : ℕ) × IsStored h t k) keys
      → All (λ k. is_lt (cmp_bytes k hash) ≡ false) keys
      → IsAscending keys
      → IsStored hash time key
      → created_at ≤ time
      → key ∈ keys
      → is_deleted_in hash created_at keys ≡ ok true
  is_deleted_in-found [] key time stored low asc v h m = elim m [ ]
  is_deleted_in-found (k ∷ keys) key time stored low asc v h (inl here) =
      let late : leb created_at time ≡ true = ground arith in
      step k time keys (rw here v) ∙ rw late refl
  is_deleted_in-found (k ∷ keys) key time stored low asc v h (inr there) =
      let (h', t', w) = stored.0 in
      let between =
        starts_with-between hash k key low.0 (ascending_before k keys key asc.0 there)
          (rw v.key_is (starts_with-append hash (to_le_bytes 8 time))) in
      let ih = is_deleted_in-found keys key time stored.1 low.1 asc.1 v h there in
      step k t' keys (own_hash h' k t' w between) ∙ elim (Bool-cases (leb created_at t')) [
        | inl at_or_after ↦ rw at_or_after refl
        | inr before ↦ rw before ih
      ]

  -- It finds none if there is none of the hash at or after the time.
  pub is_deleted_in-none :
      (keys : List Bytes)
      → All (λ k. (h : Bytes) × (t : ℕ) × IsStored h t k) keys
      → ((key : Bytes) (time : ℕ) → key ∈ keys → IsStored hash time key → time < created_at)
      → is_deleted_in hash created_at keys ≡ ok false
  unfolding is_deleted_in
  is_deleted_in-none [] stored none_after = refl
  is_deleted_in-none (k ∷ keys) stored none_after = elim (Bool-cases (starts_with hash k)) [
    | inr other ↦ rw (other, is_deleted_in) refl
    | inl own ↦
        let (h', t', w) = stored.0 in
        let v = own_hash h' k t' w own in
        let before : leb created_at t' ≡ false = ground (arith, none_after k t' (inl refl) v) in
        step k t' keys v
        ∙ rw before (is_deleted_in-none keys stored.1 (λ key time m. none_after key time (inr m)))
  ]

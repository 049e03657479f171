-- ===== src/Visibility/Store/Keys.antt =====
-- What LMDB promises, and the keys and values of the store: different addresses have different
-- keys, and a stored winner reads back.
use searchnos_db.Prelude.{
  ℕ, ◌<◌, ◌^◌, Bytes, true, false, if◌then◌else◌, none, some, ◌++◌, ok, ◌≡◌, ◌⊎◌, ◌↔◌, inl, inr,
  refl, sym, ap, ◌∙◌, arith, ◌=?◌, =?_iff, bytes_eq, length, length-append, take-append_at,
  drop-append_at, append_inj, ◌∈◌, is_lt, cmp_bytes,
}
use searchnos_db.Prelude.Words.{
  to_le_bytes, from_le_bytes, length-to_le_bytes, from_le_bytes-to_le_bytes,
}
use searchnos_db.Visibility.Address.{ReplaceableKey, key_eq, is_regular_replaceable_kind}
use searchnos_db.Visibility.Summary.{Winner, or_empty}
use searchnos_db.Visibility.Store.{
  Lmdb, strfry_replace_key, winner_value, parse_winner_value, is_missing,
}
use searchnos_db.Visibility.Store.Range.{IsAscending}

-- The documented behaviour of LMDB: what is put is read back, other keys stay, and a cursor visits
-- the keys of the database from its start on in ascending order.
pub record IsLmdb (lmdb : Lmdb) : Type 0 where
  pub get-put :
      (db db' : lmdb.Database) (key value other : Bytes)
      → lmdb.put db key value ≡ ok db'
      → lmdb.get db' other ≡ (if key =? other then some value else lmdb.get db other)
  pub keys_from_iff :
      (db : lmdb.Database) (start key : Bytes)
      → (key ∈ lmdb.keys_from db start)
        ↔ ((is_lt (cmp_bytes key start) ≡ false) × (is_missing (lmdb.get db key) ≡ false))
  pub keys_from-IsAscending :
      (db : lmdb.Database) (start : Bytes) → IsAscending (lmdb.keys_from db start)

-- An address as the parsers and the decoder give it: of 32 bytes, with a number of 32 bits, and
-- without a value exactly for the kinds that have one event for each author.
pub record IsAddress (key : ReplaceableKey) : Type 0 where
  pub pubkey_length : length key.pubkey ≡ 32
  pub kind_fits : key.kind < 2 ^ 32
  pub d_iff :
      ((key.d ≡ none) × (is_regular_replaceable_kind key.kind ≡ true))
      ⊎ ((d : Bytes) × (key.d ≡ some d) × (is_regular_replaceable_kind key.kind ≡ false))

-- Equal concatenations whose second parts have one length agree in both parts.
append_inj_right :
    (xs ys us vs : Bytes) → length us ≡ length vs → xs ++ us ≡ ys ++ vs → (xs ≡ ys) × (us ≡ vs)
append_inj_right xs ys us vs h e =
    append_inj xs ys us vs (omega (arith, length-append xs us, length-append ys vs, ap length e)) e

pub to_le_bytes-inj :
    (x y : ℕ) → x < 256 ^ 8 → y < 256 ^ 8 → to_le_bytes 8 x ≡ to_le_bytes 8 y → x ≡ y
to_le_bytes-inj x y hx hy e =
    sym (from_le_bytes-to_le_bytes 8 x hx) ∙ ap from_le_bytes e ∙ from_le_bytes-to_le_bytes 8 y hy

d_unique :
    (a b : ReplaceableKey)
    → IsAddress a
    → IsAddress b
    → a.kind ≡ b.kind
    → or_empty a.d ≡ or_empty b.d
    → a.d ≡ b.d
d_unique a b u v k e = elim u.d_iff [
  | inl (none_a, regular) ↦ elim v.d_iff [
    | inl (none_b, regular') ↦ none_a ∙ sym none_b
    | inr (d, some_b, other) ↦ cc
  ]
  | inr (d, some_a, other) ↦ elim v.d_iff [
    | inl (none_b, regular') ↦ cc
    | inr (d', some_b, other') ↦
        let same : d ≡ d' = sym (ap or_empty some_a) ∙ e ∙ ap or_empty some_b in
        some_a ∙ ap some same ∙ sym some_b
  ]
]

pub strfry_replace_key-inj :
    (a b : ReplaceableKey)
    → IsAddress a
    → IsAddress b
    → strfry_replace_key a ≡ strfry_replace_key b
    → a ≡ b
unfolding strfry_replace_key
strfry_replace_key-inj a b u v e =
    let (pubkeys, rest) =
      append_inj a.pubkey b.pubkey _ _ (u.pubkey_length ∙ sym v.pubkey_length) e in
    let (ds, kinds) =
      append_inj_right (or_empty a.d) (or_empty b.d) (to_le_bytes 8 a.kind) (to_le_bytes 8 b.kind)
        (length-to_le_bytes 8 a.kind ∙ sym (length-to_le_bytes 8 b.kind)) rest in
    let kind : a.kind ≡ b.kind =
      to_le_bytes-inj a.kind b.kind (omega (arith, u.kind_fits)) (omega (arith, v.kind_fits))
        kinds in
    let d : a.d ≡ b.d = d_unique a b u v kind ds in cc

pub strfry_replace_key-eq :
    (a b : ReplaceableKey)
    → IsAddress a
    → IsAddress b
    → (strfry_replace_key a =? strfry_replace_key b) ≡ (a =? b)
strfry_replace_key-eq a b u v = ground (
  arith,
  =?_iff (strfry_replace_key a) (strfry_replace_key b),
  =?_iff a b,
  strfry_replace_key-inj a b u v,
  ap strfry_replace_key,
)

-- A winner as it is stored.
pub record IsWinner (winner : Winner) : Type 0 where
  pub id_length : length winner.id ≡ 32
  pub time_fits : winner.created_at < 2 ^ 64

pub parse_winner_value-winner_value :
    (winner : Winner) → IsWinner winner → parse_winner_value (winner_value winner) ≡ ok winner
unfolding parse_winner_value
parse_winner_value-winner_value winner v =
    rw (length-append winner.id (to_le_bytes 8 winner.created_at)) (
      rw (v.id_length, length-to_le_bytes 8 winner.created_at)
        (rw (take-append_at 32 winner.id (to_le_bytes 8 winner.created_at) v.id_length) (
          rw (drop-append_at 32 winner.id (to_le_bytes 8 winner.created_at) v.id_length) (
            rw (from_le_bytes-to_le_bytes 8 winner.created_at (omega (arith, v.time_fits))) refl))))

-- ===== src/Visibility/Address.antt =====
-- `parse_address_tag` of storage/visibility.rs, with the parts of `str` that it uses.
use searchnos_db.Prelude.{
  ℕ, ◌+◌, ◌-◌, ◌*◌, ◌^◌, Bytes, Bool, true, ◌&&◌, ◌||◌, leb, ltb, ◌==◌, if◌then◌else◌, Option, none,
  some, [], ◌∷◌, Result, ok, ◌>>=◌, Eq, ◌=?◌, =?_iff, ◌≡◌, ◌↔◌, arith, bytes_eq, option_eq,
}
use searchnos_db.Visibility.Hex.{hex_to_32}

-- `struct ReplaceableKey`
pub record ReplaceableKey : Type 0 where
  pub pubkey : Bytes
  pub kind : ℕ
  pub d : Option Bytes

-- The derived `==`.
abbrev pub key_beq : ReplaceableKey → ReplaceableKey → Bool
key_beq a b = a.pubkey =? b.pubkey && (a.kind == b.kind && a.d =? b.d)

pub key_beq_iff : (a b : ReplaceableKey) → (key_beq a b ≡ true) ↔ (a ≡ b)
key_beq_iff a b = (
  ground (arith, =?_iff a.pubkey b.pubkey, =?_iff a.d b.d),
  ground (arith, =?_iff a.pubkey b.pubkey, =?_iff a.d b.d),
)

instance abbrev pub key_eq : Eq ReplaceableKey
key_eq = record { beq = key_beq; beq_iff = key_beq_iff }

unfoldable pub is_regular_replaceable_kind : ℕ → Bool
is_regular_replaceable_kind kind =
    kind == 0 || (kind == 3 || (kind == 41 || (leb 10000 kind && ltb kind 20000)))

unfoldable pub is_addressable_kind : ℕ → Bool
is_addressable_kind kind = leb 30000 kind && ltb kind 40000

-- `split_once(':')`: what stands before the first colon, and what stands behind it if there is one
unfoldable pub split_colon : Bytes → Bytes × Option Bytes
split_colon [] = ([], none)
split_colon (c ∷ cs) =
    let (before, after) = split_colon cs in if c == b':' then ([], some cs) else (c ∷ before, after)

-- The digits of `parse::<u32>`, with its check for overflow at each of them.
unfoldable pub u32_digits : ℕ → Bytes → Option ℕ
u32_digits n [] = some n
u32_digits n (c ∷ cs) =
    let m = n * 10 + (c - b'0') in
    if leb b'0' c && leb c b'9' && ltb m (2 ^ 32) then u32_digits m cs else none

-- `parse::<u32>`: a sign `+` is accepted, an empty text is not.
unfoldable pub parse_u32 : Bytes → Option ℕ
parse_u32 [] = none
parse_u32 (c ∷ []) = u32_digits 0 (c ∷ [])
parse_u32 (c ∷ d ∷ cs) = if c == b'+' then u32_digits 0 (d ∷ cs) else u32_digits 0 (c ∷ d ∷ cs)

-- `parts.next().unwrap_or_default()`
abbrev pub or_default : Option Bytes → Bytes
or_default none = []
or_default (some s) = s

unfoldable pub address_key : ℕ → Bytes → Bytes → ReplaceableKey
address_key kind pubkey d = record {
  pubkey = pubkey;
  kind = kind;
  d = if is_regular_replaceable_kind kind then none else some d;
}

abbrev pub address_parts : ℕ → Option Bytes → Option Bytes → Option ReplaceableKey
address_parts kind none d = none
address_parts kind (some pubkey) d = some (address_key kind pubkey (or_default d))

-- `splitn(3, ':')`, the kind, the public key and the rest.
unfoldable pub parse_address_tag : Bytes → Result (Option ReplaceableKey)
parse_address_tag value =
    let (kind_part, rest) = split_colon value in
    elim (parse_u32 kind_part) [
      | none ↦ ok none
      | some kind ↦ elim rest [
        | none ↦ ok none
        | some tail ↦
            let (pubkey_part, d) = split_colon tail in
            do pubkey ← hex_to_32 pubkey_part; ok (address_parts kind pubkey d)
      ]
    ]

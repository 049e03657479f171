-- ===== src/Visibility/Pairwise.antt =====
-- What one event does to another, read off the two events alone: the specification against which
-- the indexes of the storage layer are proved.
use searchnos_db.Prelude.{
  Bytes, Bool, false, leb, ◌==◌, ◌&&◌, ◌||◌, not, Option, none, some, List, ◌∷◌, Result, ok, err,
  ◌=?◌, length, is_lt, bytes_eq, any, if◌then◌else◌,
}
use searchnos_db.Note.{Ndb, Tag, TagElement, as_str, tag_element_to_string}
use searchnos_db.Event.{EventPacket}
use searchnos_db.Visibility.Address.{ReplaceableKey, key_eq, parse_address_tag}
use searchnos_db.Visibility.Summary.{
  replaceable_key, tag_value_to_id, compare_winner, packet_winner, deletion_kind, e_text, a_text,
  max_indexed_tag_value_bytes,
}

-- The value of a tag with this name.
unfoldable pub named_value : Bytes → Result Tag → Option TagElement
named_value name (ok (ok n ∷ ok value ∷ rest)) = elim (as_str n) [
  | none ↦ none
  | some s ↦ if s =? name then some value else none
]
named_value name _ = none

-- A decoded identifier, if there is one, is this one.
abbrev pub found_id : Result (Option Bytes) → Bytes → Bool
found_id (ok (some named)) id = named =? id
found_id _ id = false

abbrev pub found_key : Result (Option ReplaceableKey) → ReplaceableKey → Bool
found_key (ok (some named)) key = named =? key
found_key _ key = false

-- A text is short enough to be indexed, and is this address.
abbrev pub found_address : Result Bytes → ReplaceableKey → Bool
found_address (ok address) key =
    leb (length address) max_indexed_tag_value_bytes && found_key (parse_address_tag address) key
found_address (err e) key = false

module _ (ndb : Ndb) where
  -- A tag `e` with this identifier.
  unfoldable pub names_id : Bytes → Result Tag → Bool
  names_id id tag = elim (named_value e_text tag) [
    | none ↦ false
    | some value ↦ found_id (tag_value_to_id ndb value) id
  ]

  -- A tag `a` with this address.
  unfoldable pub names_address : ReplaceableKey → Result Tag → Bool
  names_address key tag = elim (named_value a_text tag) [
    | none ↦ false
    | some value ↦ found_address (tag_element_to_string ndb value) key
  ]

  -- Some tag of the packet's note.
  unfoldable pub any_tag : (Result Tag → Bool) → EventPacket → Bool
  any_tag test q = elim (ndb.from_bytes q.payload) [ ok note ↦ any test note.tags | err e ↦ false ]

  -- `q` is a deletion request by `pubkey` for `id`.
  unfoldable pub deletes_id : Bytes → Bytes → EventPacket → Bool
  deletes_id id pubkey q =
      q.kind == deletion_kind && (q.pubkey =? pubkey && any_tag (names_id id) q)

  -- `q` is a deletion request for the address, by the author that the address names.
  unfoldable pub deletes_address : ReplaceableKey → EventPacket → Bool
  deletes_address key q =
      q.kind == deletion_kind && (q.pubkey =? key.pubkey && any_tag (names_address key) q)

  -- `q` has the address of `p` and comes before it: newer, or of the same time and a lower id.
  unfoldable pub supersedes : EventPacket → EventPacket → Bool
  supersedes q p = elim (replaceable_key ndb p) [
    | none ↦ false
    | some key ↦ elim (replaceable_key ndb q) [
      | none ↦ false
      | some other ↦ other =? key && is_lt (compare_winner (packet_winner q) (packet_winner p))
    ]
  ]

  -- `q` deletes the address of `p`, at or after the time of `p`.
  unfoldable pub retracts : EventPacket → EventPacket → Bool
  retracts q p = elim (replaceable_key ndb p) [
    | none ↦ false
    | some key ↦ deletes_address key q && leb p.created_at q.created_at
  ]

  -- `q` hides `p`.
  unfoldable pub hides : EventPacket → EventPacket → Bool
  hides q p = supersedes q p || (deletes_id p.id p.pubkey q || retracts q p)

  -- `p` is shown beside these events: it is a deletion request, or none of them hides it.
  unfoldable pub is_shown : List EventPacket → EventPacket → Bool
  is_shown packets p = p.kind == deletion_kind || not (any (λ q. hides q p) packets)

-- ===== src/Visibility/Summary.antt =====
-- `VisibilitySummary`, `update_winner` and `replaceable_key` of storage/visibility.rs: what a
-- batch of packets says about which events are superseded and which are deleted.
use searchnos_db.Prelude.{
  ℕ, max, Bytes, true, false, leb, ◌==◌, if◌then◌else◌, Option, none, some, List, [], ◌∷◌, Result,
  ok, err, ◌>>=◌, ◌=?◌, length, compare, Ordering, then_with, is_lt, cmp_bytes, contains, bytes_eq,
  fold_result,
}
use searchnos_db.Prelude.Dict.{Dict, upsert}
use searchnos_db.Note.{Ndb, Tag, TagElement, as_str, tag_element_to_string}
use searchnos_db.Event.{EventPacket}
use searchnos_db.Visibility.Hex.{hex_to_32}
use searchnos_db.Visibility.Address.{
  ReplaceableKey, key_eq, is_regular_replaceable_kind, is_addressable_kind, parse_address_tag,
}

abbrev pub deletion_kind : ℕ
deletion_kind = 5

abbrev pub max_indexed_tag_value_bytes : ℕ
max_indexed_tag_value_bytes = 255

-- `struct Winner`
pub record Winner : Type 0 where
  pub id : Bytes
  pub created_at : ℕ

-- `compare_winner`: the newer event first, then the lower identifier.
unfoldable pub compare_winner : Winner → Winner → Ordering
compare_winner a b = then_with (compare b.created_at a.created_at) (cmp_bytes a.id b.id)

abbrev pub better : Winner → Winner → Winner
better candidate current = if is_lt (compare_winner candidate current) then candidate else current

-- `update_winner`
unfoldable pub update_winner :
    Dict ReplaceableKey Winner → ReplaceableKey → Winner → Dict ReplaceableKey Winner
update_winner winners key candidate = upsert key (better candidate) candidate winners

-- The later of two times of deletion: `(*current).max(deleted_at)`
abbrev pub later : ℕ → ℕ → ℕ
later deleted_at current = max current deleted_at

-- `struct VisibilitySummary`. A set of public keys is a list without repetition.
pub record VisibilitySummary : Type 0 where
  pub replaceable_winners : Dict ReplaceableKey Winner
  pub deleted_ids : Dict Bytes (List Bytes)
  pub deleted_addresses : Dict ReplaceableKey ℕ

abbrev pub empty_summary : VisibilitySummary
empty_summary = record { replaceable_winners = []; deleted_ids = []; deleted_addresses = [] }

-- `BTreeSet::insert`
unfoldable pub insert_pubkey : Bytes → List Bytes → List Bytes
insert_pubkey pubkey set = if contains set pubkey then set else pubkey ∷ set

abbrev pub d_text : Bytes
d_text = b'd' ∷ []

abbrev pub e_text : Bytes
e_text = b'e' ∷ []

abbrev pub a_text : Bytes
a_text = b'a' ∷ []

abbrev pub or_empty : Option Bytes → Bytes
or_empty none = []
or_empty (some d) = d

-- The arm `"e"` of `apply_deletion`.
abbrev pub mark_id : Bytes → VisibilitySummary → Option Bytes → VisibilitySummary
mark_id pubkey s none = s
mark_id pubkey s (some id) = record s {
  deleted_ids = upsert id (insert_pubkey pubkey) (pubkey ∷ []) s.deleted_ids;
}

-- The arm `"a"`.
abbrev pub mark_address :
    EventPacket → VisibilitySummary → Option ReplaceableKey → VisibilitySummary
mark_address packet s none = s
mark_address packet s (some key) =
    if key.pubkey =? packet.pubkey
    then record s {
      deleted_addresses =
          upsert key (later packet.created_at) packet.created_at s.deleted_addresses;
    }
    else s

abbrev pub packet_winner : EventPacket → Winner
packet_winner packet = record { id = packet.id; created_at = packet.created_at }

abbrev pub offer_packet :
    VisibilitySummary → EventPacket → Option ReplaceableKey → VisibilitySummary
offer_packet s packet none = s
offer_packet s packet (some key) = record s {
  replaceable_winners = update_winner s.replaceable_winners key (packet_winner packet);
}

unfoldable pub delete_address_text :
    EventPacket → VisibilitySummary → Bytes → Result VisibilitySummary
delete_address_text packet s address =
    if leb (length address) max_indexed_tag_value_bytes
    then (do key ← parse_address_tag address; ok (mark_address packet s key))
    else ok s

module _ (ndb : Ndb) where
  -- The value of the tag that `first_d_tag` returns from.
  unfoldable pub d_value : Tag → Option Bytes
  d_value [] = none
  d_value (err e ∷ rest) = none
  d_value (ok element ∷ rest) = elim (tag_element_to_string ndb element) [
    | ok value ↦ if leb (length value) max_indexed_tag_value_bytes then some value else none
    | err e ↦ none
  ]

  -- The loop of `first_d_tag`. Each `?` in it leaves the function, not only the round.
  unfoldable pub find_d_tag : List (Result Tag) → Option Bytes
  find_d_tag [] = none
  find_d_tag (err e ∷ tags) = none
  find_d_tag (ok [] ∷ tags) = none
  find_d_tag (ok (err e ∷ rest) ∷ tags) = none
  find_d_tag (ok (ok name ∷ rest) ∷ tags) = elim (as_str name) [
    | none ↦ none
    | some n ↦ elim (n =? d_text) [ true ↦ d_value rest | false ↦ find_d_tag tags ]
  ]

  unfoldable pub first_d_tag : Bytes → Option Bytes
  first_d_tag payload = elim (ndb.from_bytes payload) [
    | ok note ↦ find_d_tag note.tags
    | err e ↦ none
  ]

  unfoldable pub replaceable_key : EventPacket → Option ReplaceableKey
  replaceable_key packet =
      if is_regular_replaceable_kind packet.kind
      then some (record { pubkey = packet.pubkey; kind = packet.kind; d = none })
      else if is_addressable_kind packet.kind
      then some (record {
        pubkey = packet.pubkey;
        kind = packet.kind;
        d = some (or_empty (first_d_tag packet.payload));
      })
      else none

  -- `tag_value_to_id`
  unfoldable pub tag_value_to_id : TagElement → Result (Option Bytes)
  tag_value_to_id value = do s ← tag_element_to_string ndb value; hex_to_32 s

  unfoldable pub delete_id :
      EventPacket → VisibilitySummary → Result TagElement → Result VisibilitySummary
  delete_id packet s value = do v ← value; id ← tag_value_to_id v; ok (mark_id packet.pubkey s id)

  unfoldable pub delete_address :
      EventPacket → VisibilitySummary → Result TagElement → Result VisibilitySummary
  delete_address packet s value = do
    v ← value
    address ← tag_element_to_string ndb v
    delete_address_text packet s address

  -- `match name`
  unfoldable pub deletion_value :
      EventPacket → VisibilitySummary → Bytes → Result TagElement → Result VisibilitySummary
  deletion_value packet s name value =
      if name =? e_text
      then delete_id packet s value
      else if name =? a_text
      then delete_address packet s value
      else ok s

  -- One round of the loop of `apply_deletion`.
  unfoldable pub deletion_tag :
      EventPacket → VisibilitySummary → Result Tag → Result VisibilitySummary
  deletion_tag packet s (err e) = err e
  deletion_tag packet s (ok []) = ok s
  deletion_tag packet s (ok (err e ∷ rest)) = err e
  deletion_tag packet s (ok (ok name ∷ [])) = ok s
  deletion_tag packet s (ok (ok name ∷ value ∷ rest)) = elim (as_str name) [
    | none ↦ ok s
    | some n ↦ deletion_value packet s n value
  ]

  unfoldable pub apply_deletion : VisibilitySummary → EventPacket → Result VisibilitySummary
  apply_deletion s packet = do
    note ← ndb.from_bytes packet.payload
    fold_result (deletion_tag packet) s note.tags

  unfoldable pub add_packet : VisibilitySummary → EventPacket → Result VisibilitySummary
  add_packet s packet =
      let offered = offer_packet s packet (replaceable_key packet) in
      if packet.kind == deletion_kind then apply_deletion offered packet else ok offered

  -- `VisibilitySummary::from_packets`
  unfoldable pub summary_from_packets : List EventPacket → Result VisibilitySummary
  summary_from_packets packets = fold_result add_packet empty_summary packets

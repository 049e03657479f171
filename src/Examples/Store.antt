-- ===== src/Examples/Store.antt =====
-- The visibility store after two compactions (storage/visibility.rs): a profile and its newer
-- version, and then a request to delete the older one.
use searchnos_db.Prelude.{
  ℕ, ◌<◌, ◌^◌, Bytes, List, [], ◌∷◌, replicate, length-replicate, Result, ok, err, decode, ◌≡◌,
  refl, arith, All, cmp_bytes, any, true,
}
use searchnos_db.Prelude.Dict.{lookup, upsert}
use searchnos_db.Prelude.Words.{to_le_bytes, from_le_bytes}
use searchnos_db.Note.{Ndb, Note, TagElement, tag_element_to_string}
use searchnos_db.Event.{EventPacket}
use searchnos_db.Visibility.Hex.{
  hex_32, hex_char, hex_to_32, hex_pairs, hex_pair, hex_digit, cuts_character, is_continuation,
}
use searchnos_db.Visibility.Address.{
  ReplaceableKey, is_regular_replaceable_kind, is_addressable_kind,
}
use searchnos_db.Visibility.Summary.{
  replaceable_key, summary_from_packets, add_packet, apply_deletion, deletion_tag, deletion_value,
  delete_id, tag_value_to_id, update_winner, compare_winner, insert_pubkey,
}
use searchnos_db.Visibility.Pairwise.{
  is_shown, deletes_address, any_tag, names_address, named_value,
}
use searchnos_db.Visibility.Store.{
  VisibilityStore, merge_summary, write_winner, write_deletions, write_deletion, write_address,
  strfry_replace_key, parse_winner_value, is_visible_in_txn,
}
use searchnos_db.Visibility.Store.Valid.{IsPacket}
use searchnos_db.Visibility.Store.Batches.{
  merge_batches, merged_packets, IsEmpty, HasOwnHash, is_visible_in_txn-merge_batches,
}
use searchnos_db.Examples.Lmdb.{memory, memory-IsLmdb}

abbrev note_of : Bytes → Result Note
note_of (kind ∷ created_at ∷ author ∷ number ∷ target ∷ []) = ok (record {
  created_at = created_at;
  id = replicate 32 number;
  pubkey = replicate 32 author;
  kind = kind;
  content = ok (number ∷ []);
  tags = ok (ok (TagElement.text (b'e' ∷ [])) ∷ ok (TagElement.id (replicate 32 target)) ∷ []) ∷ [];
})
note_of _ = err decode

abbrev element_text : TagElement → Result Bytes
element_text (TagElement.text value) = ok value
element_text (TagElement.id value) = ok (hex_32 value)

abbrev five_bytes : Ndb
five_bytes = record { from_bytes = note_of; to_json_string = element_text }

abbrev packet : ℕ → ℕ → ℕ → EventPacket
packet kind created_at number = record {
  created_at = created_at;
  id = replicate 32 number;
  pubkey = replicate 32 7;
  kind = kind;
  payload = kind ∷ created_at ∷ 7 ∷ number ∷ 1 ∷ [];
}

abbrev old_profile : EventPacket
old_profile = packet 0 10 1

abbrev batches : List (List EventPacket)
batches = (old_profile ∷ packet 0 20 2 ∷ []) ∷ (packet 5 30 3 ∷ []) ∷ []

packet-IsPacket :
    (kind created_at number : ℕ)
    → kind < 2 ^ 32
    → created_at < 2 ^ 64
    → IsPacket (packet kind created_at number)
packet-IsPacket kind created_at number h k = record {
  id_length = length-replicate {A = ℕ} 32 number;
  pubkey_length = length-replicate {A = ℕ} 32 7;
  kind_fits = h;
  time_fits = k;
}

batches-IsPacket : All (All IsPacket) batches
batches-IsPacket = (
  (
    packet-IsPacket 0 10 1 (omega arith) (omega arith),
    (packet-IsPacket 0 20 2 (omega arith) (omega arith), tt),
  ),
  ((packet-IsPacket 5 30 3 (omega arith) (omega arith), tt), tt),
)

-- A hash of 32 bytes.
abbrev zeros : Bytes → Bytes
zeros bytes = replicate 32 0

abbrev new_store : VisibilityStore memory
new_store = record { event_replace = []; event_deletion = []; event_replace_deletion = [] }

new_store-IsEmpty : IsEmpty five_bytes memory zeros new_store
unfolding lookup
new_store-IsEmpty = record {
  no_winners = λ key. refl;
  no_deletions = λ key. refl;
  no_addresses = λ key. refl;
}

abbrev store_of : Result (VisibilityStore memory) → VisibilityStore memory
store_of (ok store) = store
store_of (err e) = new_store

abbrev merged_store : VisibilityStore memory
merged_store = store_of (merge_batches five_bytes memory zeros new_store batches)

merged : merge_batches five_bytes memory zeros new_store batches ≡ ok merged_store
unfolding merge_batches summary_from_packets add_packet apply_deletion deletion_tag deletion_value
    delete_id tag_value_to_id tag_element_to_string hex_32 hex_char hex_to_32 hex_pairs hex_pair
    hex_digit cuts_character is_continuation replaceable_key is_regular_replaceable_kind
    is_addressable_kind update_winner compare_winner insert_pubkey upsert cmp_bytes merge_summary
    write_winner write_deletions write_deletion write_address strfry_replace_key lookup
    parse_winner_value to_le_bytes from_le_bytes
merged = refl

own_hash :
    HasOwnHash five_bytes zeros (merged_packets batches []) (replaceable_key five_bytes old_profile)
unfolding replaceable_key is_regular_replaceable_kind deletes_address any_tag names_address
    named_value cmp_bytes
own_hash = λ other deleted same. absurd (no_address other deleted)
  where
    no_address :
        (other : ReplaceableKey)
        → any (deletes_address five_bytes other) (merged_packets batches []) ≡ true
        → ⊥
    no_address other h = ground arith

is_visible_in_txn-merge_batches_example :
    is_visible_in_txn memory zeros five_bytes merged_store old_profile
    ≡ ok (is_shown five_bytes (merged_packets batches []) old_profile)
is_visible_in_txn-merge_batches_example =
    is_visible_in_txn-merge_batches five_bytes memory zeros memory-IsLmdb new_store merged_store
      batches old_profile (λ bytes. length-replicate {A = ℕ} 32 0) new_store-IsEmpty
      batches-IsPacket merged (packet-IsPacket 0 10 1 (omega arith) (omega arith)) own_hash

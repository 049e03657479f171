-- ===== src/Examples/Shown.antt =====
-- The index of a batch with two versions of a profile and a deletion (storage/visibility.rs).
use searchnos_db.Prelude.{
  true, none, some, [], ◌∷◌, Result, ok, err, ◌≡◌, refl, inl, inr, any, cmp_bytes,
}
use searchnos_db.Visibility.Address.{
  ReplaceableKey, key_eq, is_regular_replaceable_kind, is_addressable_kind,
}
use searchnos_db.Visibility.Summary.{
  summary_from_packets, add_packet, apply_deletion, deletion_tag, deletion_value, delete_id,
  tag_value_to_id, insert_pubkey, update_winner, compare_winner, replaceable_key,
}
use searchnos_db.Visibility.Hex.{
  hex_to_32, hex_32, hex_pairs, cuts_character, is_continuation, hex_char, hex_pair, hex_digit,
}
use searchnos_db.Note.{tag_element_to_string}
use searchnos_db.Visibility.Index.{
  merge, merge_deleted_ids, extend_pubkeys, VisibilityIndex, empty_index, from_packets, is_visible,
  is_deleted_by, is_superseded, is_after_deletion,
}
use searchnos_db.Visibility.Shown.{IdsAgree, is_visible-eq-is_shown}
use searchnos_db.Visibility.Authors.{SameByAuthor, is_visible-of-SameByAuthor, visible_unique}
use searchnos_db.Visibility.Pairwise.{is_shown, deletes_id}
use searchnos_db.Prelude.Dict.{lookup, upsert, merge_entries}
use searchnos_db.Visibility.Gather.{winner_in}
use searchnos_db.Visibility.DeletedAddresses.{deadline_in}
use searchnos_db.Visibility.Merged.{
  winner-from_packets, is_deleted_by-from_packets, deadline-from_packets,
}
use searchnos_db.Examples.Data.{
  five_bytes, old_profile, new_profile, batch, reordered, all-IdsAgree,
}

abbrev index_of : Result VisibilityIndex → VisibilityIndex
index_of (ok index) = index
index_of (err e) = empty_index

abbrev batch_index : VisibilityIndex
batch_index = index_of (from_packets five_bytes batch)

batch_built : from_packets five_bytes batch ≡ ok batch_index
unfolding from_packets merge merge_deleted_ids extend_pubkeys summary_from_packets add_packet
    apply_deletion deletion_tag deletion_value delete_id tag_value_to_id insert_pubkey
    tag_element_to_string hex_to_32 hex_32 cmp_bytes hex_pairs cuts_character is_continuation
    hex_char hex_pair hex_digit
batch_built = refl

abbrev reordered_index : VisibilityIndex
reordered_index = index_of (from_packets five_bytes reordered)

reordered_built : from_packets five_bytes reordered ≡ ok reordered_index
unfolding from_packets merge merge_deleted_ids extend_pubkeys summary_from_packets add_packet
    apply_deletion deletion_tag deletion_value delete_id tag_value_to_id insert_pubkey
    tag_element_to_string hex_to_32 hex_32 cmp_bytes hex_pairs cuts_character is_continuation
    hex_char hex_pair hex_digit
reordered_built = refl

batch-IdsAgree : IdsAgree batch new_profile
unfolding cmp_bytes
batch-IdsAgree = all-IdsAgree batch new_profile refl

is_visible-eq-is_shown_example :
    is_visible five_bytes batch_index new_profile ≡ is_shown five_bytes batch new_profile
is_visible-eq-is_shown_example =
    is_visible-eq-is_shown five_bytes batch batch_index new_profile batch_built (inr (inl refl))
      batch-IdsAgree

-- The old version is not shown.
old_IdsAgree : IdsAgree batch old_profile
unfolding cmp_bytes
old_IdsAgree = all-IdsAgree batch old_profile refl

old_IdsAgree-reordered : IdsAgree reordered old_profile
unfolding cmp_bytes
old_IdsAgree-reordered = all-IdsAgree reordered old_profile refl

same_by_author : SameByAuthor batch reordered old_profile
same_by_author q h = (
  λ m. elim m [
    | inl a ↦ inr (inr (inl a))
    | inr (inl b) ↦ inr (inl b)
    | inr (inr (inl c)) ↦ inl c
    | inr (inr (inr d)) ↦ inr (inr (inr d))
  ],
  λ m. elim m [
    | inl a ↦ inr (inr (inl a))
    | inr (inl b) ↦ inr (inl b)
    | inr (inr (inl c)) ↦ inl c
    | inr (inr (inr d)) ↦ inr (inr (inr d))
  ],
)

is_visible-of-SameByAuthor_example :
    is_visible five_bytes batch_index old_profile
    ≡ is_visible five_bytes reordered_index old_profile
is_visible-of-SameByAuthor_example =
    is_visible-of-SameByAuthor five_bytes batch reordered batch_index reordered_index old_profile
      batch_built reordered_built same_by_author (inl refl) old_IdsAgree old_IdsAgree-reordered

abbrev profile_key : ReplaceableKey
profile_key = record { pubkey = 7 ∷ []; kind = 0; d = none }

new_profile_key : replaceable_key five_bytes new_profile ≡ some profile_key
unfolding replaceable_key is_regular_replaceable_kind
new_profile_key = refl

new_profile_visible : is_visible five_bytes batch_index new_profile ≡ true
unfolding from_packets merge merge_deleted_ids extend_pubkeys summary_from_packets add_packet
    apply_deletion deletion_tag deletion_value delete_id tag_value_to_id insert_pubkey
    tag_element_to_string hex_to_32 hex_32 cmp_bytes hex_pairs cuts_character is_continuation
    hex_char hex_pair hex_digit is_visible is_superseded is_after_deletion is_deleted_by lookup
    merge_entries upsert update_winner compare_winner replaceable_key is_regular_replaceable_kind
    is_addressable_kind
new_profile_visible = refl

visible_unique_example : new_profile.id ≡ new_profile.id
visible_unique_example =
    visible_unique five_bytes batch batch_index new_profile new_profile profile_key batch_built
      (inr (inl refl)) (inr (inl refl)) batch-IdsAgree batch-IdsAgree new_profile_key
      new_profile_key new_profile_visible new_profile_visible

winner-from_packets_example :
    lookup profile_key batch_index.replaceable_winners ≡ winner_in five_bytes profile_key batch
winner-from_packets_example =
    winner-from_packets five_bytes batch batch_index batch_built profile_key

is_deleted_by-from_packets_example :
    is_deleted_by batch_index.deleted_ids old_profile.id old_profile.pubkey
    ≡ any (deletes_id five_bytes old_profile.id old_profile.pubkey) batch
is_deleted_by-from_packets_example =
    is_deleted_by-from_packets five_bytes batch batch_index batch_built old_profile.id
      old_profile.pubkey

deadline-from_packets_example :
    lookup profile_key batch_index.deleted_addresses ≡ deadline_in five_bytes profile_key batch
deadline-from_packets_example =
    deadline-from_packets five_bytes batch batch_index batch_built profile_key

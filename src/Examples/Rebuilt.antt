-- ===== src/Examples/Rebuilt.antt =====
-- A search over a partition whose sidecar is missing (storage/streaming_query.rs).
use searchnos_db.Prelude.{
  none, some, [], ◌∷◌, Result, ok, err, inl, ◌≡◌, refl, arith, cmp_bytes, nat_eq,
}
use searchnos_db.Prelude.Dict.{lookup, upsert}
use searchnos_db.Prelude.Words.{to_le_bytes, from_le_bytes}
use searchnos_db.Note.{tag_element_to_string}
use searchnos_db.Text.{is_whitespace}
use searchnos_db.Filter.{Filter, new_filter}
use searchnos_db.Search.Bloom.{text_terms, split_on, non_empty}
use searchnos_db.SearchText.{
  search_terms, folded, split_whitespace, split_at_whitespace, normalize_search_text, join_with,
  flat_map,
}
use searchnos_db.Visibility.Hex.{
  hex_32, hex_char, hex_to_32, hex_pairs, hex_pair, hex_digit, cuts_character, is_continuation,
}
use searchnos_db.Visibility.Address.{is_regular_replaceable_kind, is_addressable_kind}
use searchnos_db.Visibility.Summary.{
  VisibilitySummary, empty_summary, replaceable_key, summary_from_packets, add_packet,
  apply_deletion, deletion_tag, deletion_value, delete_id, tag_value_to_id, update_winner,
  compare_winner, insert_pubkey,
}
use searchnos_db.Visibility.Store.{
  VisibilityStore, merge_summary, write_winner, write_deletions, write_deletion, write_address,
  strfry_replace_key, parse_winner_value,
}
use searchnos_db.Streaming.Partition.{open_partition}
use searchnos_db.Streaming.Partition.Rebuilt.{rebuilt, cursor_searched, open_partition-rebuilt}
use searchnos_db.Examples.Data.{five_bytes, reordered}
use searchnos_db.Examples.Lmdb.{memory}
use searchnos_db.Examples.Filters.{ascii}
use searchnos_db.Examples.Sidecars.{length-empty_bits}
use searchnos_db.Examples.Queries.{context, partitions}
use searchnos_db.Examples.Reindexed.{
  file, written, decoded, index, built, found, small_events, small_sidecar,
}

abbrev summary_of : Result VisibilitySummary → VisibilitySummary
summary_of (ok summary) = summary
summary_of (err e) = empty_summary

abbrev summary : VisibilitySummary
summary = summary_of (summary_from_packets five_bytes reordered)

summarised : summary_from_packets five_bytes reordered ≡ ok summary
unfolding summary_from_packets add_packet apply_deletion deletion_tag deletion_value delete_id
    tag_value_to_id tag_element_to_string hex_32 hex_char hex_to_32 hex_pairs hex_pair hex_digit
    cuts_character is_continuation replaceable_key is_regular_replaceable_kind is_addressable_kind
    update_winner compare_winner insert_pubkey upsert cmp_bytes
summarised = refl

abbrev store_of : Result (VisibilityStore memory) → VisibilityStore memory
store_of (ok store) = store
store_of (err e) = partitions.visibility_store

abbrev store : VisibilityStore memory
store = store_of (merge_summary memory (λ bytes. bytes) partitions.visibility_store summary)

merged : merge_summary memory (λ bytes. bytes) partitions.visibility_store summary ≡ ok store
unfolding summary_from_packets add_packet apply_deletion deletion_tag deletion_value delete_id
    tag_value_to_id tag_element_to_string hex_32 hex_char hex_to_32 hex_pairs hex_pair hex_digit
    cuts_character is_continuation replaceable_key is_regular_replaceable_kind is_addressable_kind
    update_winner compare_winner insert_pubkey upsert cmp_bytes merge_summary write_winner
    write_deletions write_deletion write_address strfry_replace_key lookup parse_winner_value
    to_le_bytes from_le_bytes
merged = refl

-- A search for "aa".
abbrev search : Filter
search = record new_filter { search = some (b'a' ∷ b'a' ∷ []) }

one_term : search_terms ascii (b'a' ∷ b'a' ∷ []) ≡ (b'a' ∷ b'a' ∷ []) ∷ []
unfolding search_terms normalize_search_text folded flat_map split_whitespace split_at_whitespace
    is_whitespace join_with text_terms split_on non_empty
one_term = refl

no_sidecar : lookup 0 partitions.sidecars ≡ none
unfolding lookup
no_sidecar = refl

open_partition-rebuilt_example : open_partition context partitions 0 search none ≡ (
  rebuilt context length-empty_bits
      (λ bloom text. refl)
      partitions
      0
      file
      reordered
      index
      summary
      store
      found
      decoded
      written
      built
      summarised
      merged
      (omega arith)
      small_events
      small_sidecar,
  ok (
      cursor_searched context length-empty_bits
        (λ bloom text. refl)
        partitions
        0
        file
        reordered
        index
        summary
        store
        found
        decoded
        written
        built
        summarised
        merged
        (omega arith)
        small_events
        small_sidecar
        search
        none
        (b'a' ∷ b'a' ∷ [])
        (b'a' ∷ b'a' ∷ [])
        []
        refl
        one_term),
)
open_partition-rebuilt_example =
    open_partition-rebuilt context length-empty_bits (λ bloom text. refl) partitions 0 file
      reordered index summary store found decoded written built summarised merged (omega arith)
      small_events small_sidecar search none (b'a' ∷ b'a' ∷ []) (b'a' ∷ b'a' ∷ []) [] refl one_term
      partitions (inl (no_sidecar, refl))

-- ===== src/Examples/Days.antt =====
-- The compaction of a hot file with two packets of the first day (storage/compaction.rs).
use searchnos_db.Prelude.{
  ℕ, Bytes, List, [], ◌∷◌, none, Result, ok, err, ◌≡◌, refl, length, nat_eq, cmp_bytes,
}
use searchnos_db.Prelude.Dict.{lookup, upsert}
use searchnos_db.Prelude.Words.{to_le_bytes, from_le_bytes}
use searchnos_db.Note.{tag_element_to_string}
use searchnos_db.Event.{EventPacket, from_data, unix_day}
use searchnos_db.Event.Frame.{
  write_packet, read_event_packets, read_packets, read_event_packet, read_exact, read_payload,
  u32_try_from,
}
use searchnos_db.Event.Frame.RoundTrip.{write_packets}
use searchnos_db.Query.{compare_packets, insert_packet, sort_packets}
use searchnos_db.Search.Index.{append_to_search_index}
use searchnos_db.Visibility.Hex.{
  cuts_character, hex_digit, hex_pair, hex_pairs, hex_to_32, is_continuation, hex_32, hex_char,
}
use searchnos_db.Visibility.Summary.{
  add_packet, apply_deletion, compare_winner, delete_id, deletion_tag, deletion_value,
  insert_pubkey, replaceable_key, tag_value_to_id, update_winner,
}
use searchnos_db.Visibility.Address.{is_regular_replaceable_kind, is_addressable_kind}
use searchnos_db.Compaction.{
  Storage, CompactOutput, existing_packets, write_merged_packet, merge_packets,
  merge_packets_into_partition, merge_day, merge_days, packets_by_day, push_by_day,
  compact_hot_file,
}
use searchnos_db.Compaction.Days.{IsDone, joined, day_packets, compact_hot_file-IsDone}
use searchnos_db.Examples.Data.{five_bytes, plain_texts, deletion, new_profile}

abbrev bytes_of : Result Bytes → Bytes
bytes_of (ok bytes) = bytes
bytes_of (err e) = []

abbrev hot_file : Bytes
hot_file = bytes_of (write_packets (new_profile ∷ deletion ∷ []))

abbrev no_storage : Storage ℕ
no_storage = record { partitions = []; sidecars = []; summaries = [] }

abbrev stored : Storage ℕ
stored = (compact_hot_file five_bytes plain_texts no_storage hot_file).0

abbrev two_events : CompactOutput
two_events = record { output_partitions = 1; events = 2 }

compacted : compact_hot_file five_bytes plain_texts no_storage hot_file ≡ (stored, ok two_events)
unfolding compact_hot_file merge_days merge_day packets_by_day push_by_day unix_day lookup
    merge_packets_into_partition existing_packets read_event_packets read_packets read_event_packet
    read_exact write_packets write_packet to_le_bytes read_payload from_le_bytes from_data
    merge_packets sort_packets insert_packet compare_packets write_merged_packet
    append_to_search_index u32_try_from tag_element_to_string upsert cmp_bytes
    is_regular_replaceable_kind is_addressable_kind cuts_character hex_digit hex_pair hex_pairs
    hex_to_32 is_continuation hex_32 hex_char add_packet apply_deletion compare_winner delete_id
    deletion_tag deletion_value insert_pubkey replaceable_key tag_value_to_id update_winner
compacted = refl

compact_hot_file-IsDone_example :
    (packets : List EventPacket) × (read_event_packets five_bytes hot_file ≡ ok packets)
    × (2 ≡ length packets)
    × IsDone five_bytes plain_texts no_storage stored 0 (joined none (day_packets 0 packets))
compact_hot_file-IsDone_example =
    compact_hot_file-IsDone five_bytes plain_texts no_storage stored hot_file two_events 0 compacted

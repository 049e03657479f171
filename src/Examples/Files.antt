-- ===== src/Examples/Files.antt =====
-- Frames, a partition and its sidecar (storage/event.rs, storage/compaction.rs, storage/search.rs).
use searchnos_db.Prelude.{
  inl, ℕ, Bytes, List, [], ◌∷◌, ◌++◌, some, Result, ok, err, ◌≡◌, refl, arith,
}
use searchnos_db.Event.{EventPacket, from_data}
use searchnos_db.Event.Frame.{
  write_packet, read_event_packets, read_packets, read_event_packet, read_exact, read_payload,
  u32_try_from,
}
use searchnos_db.Prelude.Words.{to_le_bytes, from_le_bytes}
use searchnos_db.Prelude.Dict.{upsert}
use searchnos_db.Note.{tag_element_to_string}
use mathlib.Core.List.{Perm}
use searchnos_db.Visibility.Hex.{
  cuts_character, hex_digit, hex_pair, hex_pairs, hex_to_32, is_continuation, hex_32, hex_char,
}
use searchnos_db.Visibility.Summary.{
  add_packet, apply_deletion, compare_winner, delete_id, deletion_tag, deletion_value,
  insert_pubkey, replaceable_key, tag_value_to_id, update_winner,
}
use searchnos_db.Visibility.Address.{is_regular_replaceable_kind, is_addressable_kind}
use searchnos_db.Event.Frame.RoundTrip.{AreDecoded, write_packets, read_event_packets-write_packets}
use searchnos_db.Event.Frame.Read.{AreBytes, IsRead, read_event_packets-IsRead}
use searchnos_db.Prelude.{cmp_bytes}
use searchnos_db.Search.Index.{
  SearchIndex, empty_search_index, append_to_search_index, append_packets, build_search_index,
}
use searchnos_db.Search.Index.Build.{AgreeButBloom, build_search_index-append_packets}
use searchnos_db.Query.{compare_packets, insert_packet, sort_packets}
use searchnos_db.Query.Order.{IsSorted}
use searchnos_db.Compaction.{
  Output, empty_output, write_merged_packet, merge_packets, existing_packets,
  merge_packets_into_partition,
}
use searchnos_db.Compaction.Merge.{IsNewestFirst, merge_packets-IsNewestFirst}
use searchnos_db.Compaction.Partition.{IsMerge, merge_packets_into_partition-IsMerge}
use searchnos_db.Examples.Data.{five_bytes, plain_texts, old_profile, new_profile, deletion, batch}

abbrev pub bytes_of : Result Bytes → Bytes
bytes_of (ok bytes) = bytes
bytes_of (err e) = []

abbrev pub batch_file : Bytes
batch_file = bytes_of (write_packets batch)

pub batch_written : write_packets batch ≡ ok batch_file
unfolding write_packets write_packet
batch_written = refl

pub batch-AreDecoded : AreDecoded five_bytes batch
unfolding from_data
batch-AreDecoded = (refl, (refl, (refl, tt)))

read_event_packets-write_packets_example :
    read_event_packets five_bytes (batch_file ++ 9 ∷ 9 ∷ []) ≡ ok batch
read_event_packets-write_packets_example =
    read_event_packets-write_packets five_bytes batch batch_file (9 ∷ 9 ∷ []) batch-AreDecoded
      batch_written (omega arith)

batch-AreBytes : AreBytes (batch_file ++ 9 ∷ 9 ∷ [])
unfolding write_packets write_packet to_le_bytes
batch-AreBytes = ground arith

read_event_packets-IsRead_example : IsRead five_bytes (batch_file ++ 9 ∷ 9 ∷ []) batch
read_event_packets-IsRead_example =
    read_event_packets-IsRead five_bytes (batch_file ++ 9 ∷ 9 ∷ []) batch batch-AreBytes
      read_event_packets-write_packets_example

abbrev sidecar_of : Result (SearchIndex ℕ) → SearchIndex ℕ
sidecar_of (ok index) = index
sidecar_of (err e) = empty_search_index plain_texts

abbrev batch_sidecar : SearchIndex ℕ
batch_sidecar = sidecar_of (append_packets plain_texts (empty_search_index plain_texts) batch)

batch_appended :
    append_packets plain_texts (empty_search_index plain_texts) batch ≡ ok batch_sidecar
unfolding append_packets append_to_search_index u32_try_from
batch_appended = refl

build_search_index-append_packets_example :
    (built : SearchIndex ℕ) × (build_search_index plain_texts batch ≡ ok built)
    × AgreeButBloom built batch_sidecar
build_search_index-append_packets_example =
    build_search_index-append_packets plain_texts batch batch_sidecar batch_appended

-- Two runs of packets in their order.
abbrev first_run : List EventPacket
first_run = deletion ∷ old_profile ∷ []

abbrev pub second_run : List EventPacket
second_run = new_profile ∷ []

first_run-IsSorted : IsSorted first_run
unfolding compare_packets cmp_bytes
first_run-IsSorted = ((refl, tt), (tt, tt))

first_run-IsNewestFirst : IsNewestFirst first_run
first_run-IsNewestFirst = ((inl (omega arith), tt), (tt, tt))

merge_packets-IsNewestFirst_example :
    IsNewestFirst (merge_packets first_run (sort_packets batch))
    × Perm (merge_packets first_run (sort_packets batch)) (first_run ++ batch)
merge_packets-IsNewestFirst_example =
    merge_packets-IsNewestFirst first_run batch first_run-IsNewestFirst

abbrev pub first_file : Bytes
first_file = bytes_of (write_packets first_run)

first_existing : existing_packets five_bytes (some first_file) ≡ ok first_run
unfolding existing_packets read_event_packets read_packets read_event_packet read_exact
    write_packets write_packet to_le_bytes read_payload from_le_bytes from_data
first_existing = refl

abbrev output_of : Result (Output ℕ) → Output ℕ
output_of (ok output) = output
output_of (err e) = empty_output five_bytes plain_texts

abbrev merged_output : Output ℕ
merged_output =
    output_of (merge_packets_into_partition five_bytes plain_texts (some first_file) second_run)

merged :
    merge_packets_into_partition five_bytes plain_texts (some first_file) second_run
    ≡ ok merged_output
unfolding merge_packets_into_partition existing_packets read_event_packets read_packets
    read_event_packet read_exact write_packets write_packet to_le_bytes read_payload from_le_bytes
    from_data merge_packets sort_packets insert_packet compare_packets write_merged_packet
    append_to_search_index u32_try_from tag_element_to_string upsert cmp_bytes
    is_regular_replaceable_kind is_addressable_kind cuts_character hex_digit hex_pair hex_pairs
    hex_to_32 is_continuation hex_32 hex_char add_packet apply_deletion compare_winner delete_id
    deletion_tag deletion_value insert_pubkey replaceable_key tag_value_to_id update_winner
merged = refl

merge_packets_into_partition-IsMerge_example :
    IsMerge five_bytes plain_texts first_run second_run merged_output
unfolding from_data
merge_packets_into_partition-IsMerge_example =
    merge_packets_into_partition-IsMerge five_bytes plain_texts (some first_file) first_run
      second_run merged_output first_existing first_run-IsSorted (refl, tt) merged

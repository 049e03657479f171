-- ===== src/Examples/Sidecars.antt =====
-- The sidecar file of two packets with an empty Bloom filter (storage/search.rs).
use searchnos_db.Prelude.{
  ◌+◌, ◌∙◌, some, length-set, Bytes, Result, List, ℕ, ◌<◌, ◌^◌, Bytes, [], ◌∷◌, ◌++◌, ok, err,
  kinds_mismatch, record_length_mismatch, ◌==◌, if◌then◌else◌, ◌≡◌, refl, arith, length,
  length-append, length-replicate,
}
use searchnos_db.Search.Bloom.{search_bloom_bytes, empty_bits, set_bit}
use searchnos_db.Event.{from_data}
use searchnos_db.Event.Frame.{
  write_packet, read_event_packets, read_packets, read_event_packet, read_exact, read_payload,
  u32_try_from,
}
use searchnos_db.Prelude.Words.{to_le_bytes, from_le_bytes}
use searchnos_db.Prelude.Dict.{upsert}
use searchnos_db.Note.{tag_element_to_string}
use searchnos_db.Visibility.Hex.{
  cuts_character, hex_digit, hex_pair, hex_pairs, hex_to_32, is_continuation, hex_32, hex_char,
}
use searchnos_db.Visibility.Summary.{
  add_packet, apply_deletion, compare_winner, delete_id, deletion_tag, deletion_value,
  insert_pubkey, replaceable_key, tag_value_to_id, update_winner,
}
use searchnos_db.Visibility.Address.{is_regular_replaceable_kind, is_addressable_kind}
use searchnos_db.Event.Frame.RoundTrip.{write_packets}
use searchnos_db.Prelude.{cmp_bytes}
use searchnos_db.Search.Index.{empty_search_index, append_to_search_index}
use searchnos_db.Query.{compare_packets, insert_packet, sort_packets}
use searchnos_db.Compaction.{
  Output, empty_output, write_merged_packet, merge_packets, existing_packets,
  merge_packets_into_partition,
}
use searchnos_db.Search.Index.{Texts}
use searchnos_db.Compaction.Sidecar.{read_search_index-merge_packets_into_partition}
use searchnos_db.Examples.Data.{five_bytes}
use searchnos_db.Examples.Files.{first_file, second_run}
use searchnos_db.Search.File.{
  Index, search_index_magic, write_search_index_parts, record_bytes, offset_bytes, last_or,
  is_monotonic_after, validate_search_index_records, read_search_index_trusted,
  read_search_bloom_trusted,
}
use searchnos_db.Search.File.RoundTrip.{IsStorable, read_search_index-write_search_index}

abbrev index : Index
index = record {
  fingerprint = record { count = 2; bytes = 16; hash = 99 };
  searchable_kinds_hash = 7;
  records =
      record { packet_offset = 0; packet_len = 5 }
      ∷ record { packet_offset = 9; packet_len = 3 }
      ∷ [];
  offsets = 0 ∷ 1 ∷ 3 ∷ [];
  bloom = empty_bits;
  text = b'a' ∷ b'b' ∷ b'c' ∷ [];
}

pub length-empty_bits : length empty_bits ≡ search_bloom_bytes
unfolding empty_bits
length-empty_bits = length-replicate search_bloom_bytes 0

pub small_bloom : search_bloom_bytes < 2 ^ 20
unfolding search_bloom_bytes
small_bloom = omega arith

-- The file but for the filter and the text.
abbrev front : Bytes
front =
    search_index_magic
    ++ (to_le_bytes 8 2
        ++ (to_le_bytes 8 16
            ++ (to_le_bytes 8 99
                ++ (to_le_bytes 8 7
                    ++ (record_bytes index.records ++ offset_bytes index.offsets)))))

length-front : length front ≡ 88
unfolding record_bytes offset_bytes to_le_bytes
length-front = refl

file_parts : write_search_index_parts index ≡ front ++ (empty_bits ++ index.text)
unfolding write_search_index_parts record_bytes offset_bytes to_le_bytes
file_parts = refl

small_file : length (write_search_index_parts index) < 2 ^ 64
small_file = rw file_parts (
    omega (
      arith,
      length-append front (empty_bits ++ index.text),
      length-append empty_bits index.text,
      length-front,
      length-empty_bits,
      small_bloom,
    ))

index-IsStorable : IsStorable index
unfolding last_or is_monotonic_after validate_search_index_records
index-IsStorable = record {
  count = refl;
  offset_count = refl;
  small_bytes = omega arith;
  small_hash = omega arith;
  small_kinds = omega arith;
  small_records = ((omega arith, omega arith), ((omega arith, omega arith), tt));
  small_offsets = (omega arith, (omega arith, (omega arith, tt)));
  offsets_valid = refl;
  monotonic = refl;
  records_valid = refl;
  bloom_size = length-empty_bits;
  file_size = small_file;
}

read_search_index-write_search_index_example :
    (read_search_index_trusted (write_search_index_parts index) 16 7 ≡ (
      if index.searchable_kinds_hash == 7
      then (if index.fingerprint.bytes == 16 then ok index else err record_length_mismatch)
      else err kinds_mismatch))
    × (read_search_bloom_trusted (write_search_index_parts index) 16 7 ≡ ok empty_bits)
read_search_index-write_search_index_example =
    read_search_index-write_search_index index index-IsStorable 7 16

-- Every event has the text "a", and its length is the only bit that is set.
abbrev texts : Texts (List ℕ)
texts = record {
  normalized_search_text = λ payload. ok (b'a' ∷ []);
  searchable_kinds_hash = 1;
  empty_bloom = empty_bits;
  insert_text_grams = λ bloom text. set_bit bloom (length text);
}

length-set_bit :
    (bloom : List ℕ) (text : Bytes) → length (set_bit bloom (length text)) ≡ length bloom
unfolding set_bit
length-set_bit bloom text = length-set bloom _ _

abbrev output_of : Result (Output (List ℕ)) → Output (List ℕ)
output_of (ok output) = output
output_of (err e) = empty_output five_bytes texts

abbrev output : Output (List ℕ)
output = output_of (merge_packets_into_partition five_bytes texts (some first_file) second_run)

merged : merge_packets_into_partition five_bytes texts (some first_file) second_run ≡ ok output
unfolding merge_packets_into_partition existing_packets read_event_packets read_packets
    read_event_packet read_exact write_packets write_packet to_le_bytes read_payload from_le_bytes
    from_data merge_packets sort_packets insert_packet compare_packets write_merged_packet
    append_to_search_index u32_try_from tag_element_to_string upsert cmp_bytes
    is_regular_replaceable_kind is_addressable_kind cuts_character hex_digit hex_pair hex_pairs
    hex_to_32 is_continuation hex_32 hex_char add_packet apply_deletion compare_winner delete_id
    deletion_tag deletion_value insert_pubkey replaceable_key tag_value_to_id update_winner
merged = refl

-- The filter behind three packets.
abbrev bloom : List ℕ
bloom = set_bit (set_bit (set_bit empty_bits 1) 1) 1

length-bloom : length bloom ≡ search_bloom_bytes
length-bloom =
    length-set_bit (set_bit (set_bit empty_bits 1) 1) (b'a' ∷ [])
    ∙ length-set_bit (set_bit empty_bits 1) (b'a' ∷ [])
    ∙ length-set_bit empty_bits (b'a' ∷ [])
    ∙ length-empty_bits

sizes :
    (length output.partition ≡ 27)
    × (length (write_search_index_parts output.search_index)
        ≡ 108 + length (bloom ++ b'a' ∷ b'a' ∷ b'a' ∷ []))
unfolding merge_packets_into_partition existing_packets read_event_packets read_packets
    read_event_packet read_exact write_packets write_packet to_le_bytes read_payload from_le_bytes
    from_data merge_packets sort_packets insert_packet compare_packets write_merged_packet
    append_to_search_index u32_try_from tag_element_to_string upsert cmp_bytes
    is_regular_replaceable_kind is_addressable_kind cuts_character hex_digit hex_pair hex_pairs
    hex_to_32 is_continuation hex_32 hex_char add_packet apply_deletion compare_winner delete_id
    deletion_tag deletion_value insert_pubkey replaceable_key tag_value_to_id update_winner
    write_search_index_parts empty_search_index record_bytes offset_bytes
sizes = (refl, omega arith)

short_sidecar : length (write_search_index_parts output.search_index) < 2 ^ 64
short_sidecar =
    omega (arith, sizes.1, length-append bloom (b'a' ∷ b'a' ∷ b'a' ∷ []), length-bloom, small_bloom)

read_search_index-merge_packets_into_partition_example :
    (read_search_index_trusted
        (write_search_index_parts output.search_index)
        (length output.partition)
        1
      ≡ ok output.search_index)
    × (read_search_bloom_trusted
          (write_search_index_parts output.search_index)
          (length output.partition)
          1
        ≡ ok output.search_index.bloom)
read_search_index-merge_packets_into_partition_example =
    read_search_index-merge_packets_into_partition five_bytes texts length-empty_bits length-set_bit
      (some first_file) second_run output merged (omega arith) (omega (arith, sizes.0))
      short_sidecar

-- ===== src/Compaction/Sidecar.antt =====
-- The sidecar file that a compaction writes, and its reading (storage/compaction.rs,
-- storage/search.rs).
use searchnos_db.Prelude.{ℕ, ◌^◌, ◌<◌, Bytes, Option, List, ok, ◌≡◌, ap, arith, length, >>=-eq-ok}
use searchnos_db.Note.{Ndb}
use searchnos_db.Event.{EventPacket}
use searchnos_db.Query.{sort_packets}
use searchnos_db.Search.Bloom.{search_bloom_bytes}
use searchnos_db.Search.Index.{Texts, empty_search_index}
use searchnos_db.Search.File.{
  write_search_index_parts, read_search_index_trusted, read_search_bloom_trusted,
}
use searchnos_db.Search.File.Grown.{
  empty-IsGrown, append_packets-IsGrown, bytes-append_packets, read_search_index-IsGrown,
}
use searchnos_db.Compaction.{
  Output, empty_output, existing_packets, merge_packets, merge_packets_into_partition,
}
use searchnos_db.Compaction.Partition.{Extends, Extends-merged}

module _ (ndb : Ndb) (texts : Texts (List ℕ))
    (empty_size : length texts.empty_bloom ≡ search_bloom_bytes)
    (keeps_size : (bloom : List ℕ) (text : Bytes)
      → length (texts.insert_text_grams bloom text) ≡ length bloom) where
  merge_packets_into_partition-Extends :
      (file : Option Bytes) (new_packets : List EventPacket) (o : Output (List ℕ))
      → merge_packets_into_partition ndb texts file new_packets ≡ ok o
      → (packets : List EventPacket) × Extends ndb texts (empty_output ndb texts) packets o
  unfolding merge_packets_into_partition
  merge_packets_into_partition-Extends file new_packets o h =
      let (existing, e, merged) = >>=-eq-ok (existing_packets ndb file) _ h in
      (
        merge_packets existing (sort_packets new_packets),
        Extends-merged ndb texts (empty_output ndb texts) o _ merged,
      )

  -- If a compaction of one day succeeds, the sidecar file that it writes is read back, at the length
  -- of the partition file that it writes, as the index of the partition, and its Bloom filter as the
  -- filter of the index: the sidecar is current. The operations of the Bloom filter keep its size,
  -- and the hash of the kinds and the lengths of the two files fit into 64 bits.
  pub read_search_index-merge_packets_into_partition :
      (file : Option Bytes) (new_packets : List EventPacket) (o : Output (List ℕ))
      → merge_packets_into_partition ndb texts file new_packets ≡ ok o
      → texts.searchable_kinds_hash < 2 ^ 64
      → length o.partition < 2 ^ 64
      → length (write_search_index_parts o.search_index) < 2 ^ 64
      → (read_search_index_trusted
            (write_search_index_parts o.search_index)
            (length o.partition)
            texts.searchable_kinds_hash
          ≡ ok o.search_index)
        × (read_search_bloom_trusted
              (write_search_index_parts o.search_index)
              (length o.partition)
              texts.searchable_kinds_hash
            ≡ ok o.search_index.bloom)
  unfolding empty_search_index
  read_search_index-merge_packets_into_partition file new_packets o h kinds small size =
      let (packets, x) = merge_packets_into_partition-Extends file new_packets o h in
      let (grown, same) =
        append_packets-IsGrown texts empty_size keeps_size (empty_search_index texts) o.search_index
          packets x.search_index (empty-IsGrown texts empty_size keeps_size) in
      let bytes =
        bytes-append_packets texts empty_size keeps_size (empty_search_index texts) o.search_index
          packets x.written x.search_index x.frames in
      let whole : o.search_index.fingerprint.bytes ≡ length o.partition =
        omega (arith, bytes, ap length x.partition) in
      read_search_index-IsGrown o.search_index (length o.partition) texts.searchable_kinds_hash
        grown whole same small kinds size

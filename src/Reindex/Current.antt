-- ===== src/Reindex/Current.antt =====
-- The sidecar of a partition after its reindexing (storage/reindex.rs).
use mathlib.Core.List.{append-nil}
use searchnos_db.Prelude.{
  ℕ, ◌^◌, ◌<◌, Bytes, some, none, List, [], ok, ◌≡◌, refl, ◌∙◌, arith, length, nat_eq, Option,
  ==_iff,
}
use searchnos_db.Prelude.Dict.{lookup, lookup-upsert, updated}
use searchnos_db.Event.{EventPacket}
use searchnos_db.Event.Frame.RoundTrip.{write_packets, AreDecoded, read_event_packets-write_packets}
use searchnos_db.Compaction.{existing_packets}
use searchnos_db.Search.Bloom.{search_bloom_bytes}
use searchnos_db.Search.Index.{build_search_index}
use searchnos_db.Search.File.{Index, write_search_index_parts}
use searchnos_db.Search.File.Grown.{read_search_index-IsGrown}
use searchnos_db.Search.File.Built.{build_search_index-IsGrown}
use searchnos_db.Reindex.{
  Context, Partitions, reindex_partition, read_search_index_for_events,
  read_search_bloom_for_events,
}

updated_constant : (v : Bytes) (o : Option Bytes) → some (updated (λ _. v) v o) ≡ some v
updated_constant v none = refl
updated_constant v (some w) = refl

module _ (c : Context) (empty_size : length c.texts.empty_bloom ≡ search_bloom_bytes)
    (keeps_size : (bloom : List ℕ) (text : Bytes)
      → length (c.texts.insert_text_grams bloom text) ≡ length bloom) where
  module _ (p : Partitions c) (day : ℕ) (file : Bytes) (packets : List EventPacket) (index : Index)
      (there : lookup day p.files ≡ some file) (decoded : AreDecoded c.ndb packets)
      (written : write_packets packets ≡ ok file)
      (built : build_search_index c.texts packets ≡ ok index) where
    pub existing : existing_packets c.ndb (lookup day p.files) ≡ ok packets
    unfolding existing_packets
    existing = rw there (
        rw (← append-nil file)
          (read_event_packets-write_packets c.ndb packets file [] decoded written (omega arith)))

    pub files_kept : lookup day (reindex_partition c p day).0.files ≡ some file
    unfolding reindex_partition
    files_kept = rw (existing, built, reindex_partition) there

    sidecar_written :
        lookup day (reindex_partition c p day).0.sidecars ≡ some (write_search_index_parts index)
    unfolding reindex_partition
    sidecar_written =
        let sidecar = write_search_index_parts index in
        rw (existing, built, reindex_partition)
          (lookup-upsert day day (λ _. sidecar) sidecar p.sidecars
            ∙ rw ((==_iff day day).1 refl) (updated_constant sidecar (lookup day p.sidecars)))

    -- If the file of a partition has whole frames of events that decode, an index of these can be
    -- built, the operations of the Bloom filter keep its size, and the hash of the kinds and the
    -- lengths of the two files fit into 64 bits, then after the reindexing of the partition its
    -- sidecar is read for these events as this index, and its Bloom filter as that of the index.
    pub read_search_index_for_events-reindex_partition :
        c.texts.searchable_kinds_hash < 2 ^ 64
        → length file < 2 ^ 64
        → length (write_search_index_parts index) < 2 ^ 64
        → (read_search_index_for_events c (reindex_partition c p day).0 day ≡ ok index)
          × (read_search_bloom_for_events c (reindex_partition c p day).0 day ≡ ok index.bloom)
    unfolding read_search_index_for_events read_search_bloom_for_events
    read_search_index_for_events-reindex_partition kinds small size =
        let (grown, whole, kind) =
          build_search_index-IsGrown c.texts empty_size keeps_size packets index file built
            written in
        rw (files_kept, sidecar_written)
          (read_search_index-IsGrown index (length file) c.texts.searchable_kinds_hash grown whole
            kind small kinds size)

-- ===== src/Examples/Reindexed.antt =====
-- A partition without a sidecar is reindexed (storage/reindex.rs).
use searchnos_db.Prelude.{
  ◌+◌, ◌<◌, ◌^◌, Bytes, [], ◌∷◌, ◌++◌, some, Result, ok, err, ◌≡◌, refl, arith, length,
  length-append, nat_eq,
}
use searchnos_db.Prelude.Words.{to_le_bytes}
use searchnos_db.Prelude.Dict.{lookup}
use searchnos_db.Event.{from_data}
use searchnos_db.Event.Frame.{write_packet, u32_try_from}
use searchnos_db.Event.Frame.RoundTrip.{write_packets, AreDecoded}
use searchnos_db.Search.Bloom.{empty_bits}
use searchnos_db.Search.Index.{build_search_index, build_step, empty_search_index}
use searchnos_db.Search.File.{Index, write_search_index_parts, record_bytes, offset_bytes}
use searchnos_db.Reindex.{
  reindex_partition, read_search_index_for_events, read_search_bloom_for_events,
}
use searchnos_db.Reindex.Current.{read_search_index_for_events-reindex_partition}
use searchnos_db.Examples.Data.{five_bytes, reordered}
use searchnos_db.Examples.Files.{bytes_of}
use searchnos_db.Examples.Sidecars.{length-empty_bits, small_bloom}
use searchnos_db.Examples.Queries.{context, partitions}

abbrev pub file : Bytes
file = bytes_of (write_packets reordered)

pub written : write_packets reordered ≡ ok file
unfolding write_packets write_packet
written = refl

pub decoded : AreDecoded five_bytes reordered
unfolding from_data
decoded = (refl, (refl, (refl, tt)))

abbrev index_of : Result Index → Index
index_of (ok index) = index
index_of (err e) = empty_search_index context.texts

abbrev pub index : Index
index = index_of (build_search_index context.texts reordered)

pub built : build_search_index context.texts reordered ≡ ok index
unfolding build_search_index build_step u32_try_from
built = refl

pub found : lookup 0 partitions.files ≡ some file
unfolding lookup
found = refl

length-sidecar :
    length (write_search_index_parts index) ≡ 108 + length (empty_bits ++ b'a' ∷ b'a' ∷ b'a' ∷ [])
unfolding build_search_index build_step u32_try_from write_search_index_parts record_bytes
    offset_bytes to_le_bytes
length-sidecar = omega arith

length-events : length file ≡ 27
unfolding write_packets write_packet to_le_bytes
length-events = refl

pub small_events : length file < 2 ^ 64
small_events = omega (arith, length-events)

pub small_sidecar : length (write_search_index_parts index) < 2 ^ 64
small_sidecar = omega (
  arith,
  length-sidecar,
  length-append empty_bits (b'a' ∷ b'a' ∷ b'a' ∷ []),
  length-empty_bits,
  small_bloom,
)

read_search_index_for_events-reindex_partition_example :
    (read_search_index_for_events context (reindex_partition context partitions 0).0 0 ≡ ok index)
    × (read_search_bloom_for_events context (reindex_partition context partitions 0).0 0
        ≡ ok index.bloom)
read_search_index_for_events-reindex_partition_example =
    read_search_index_for_events-reindex_partition context length-empty_bits (λ bloom text. refl)
      partitions 0 file reordered index found decoded written built (omega arith) small_events
      small_sidecar

-- ===== src/Lib.antt =====
-- A model of searchnos-db, a store of Nostr events on disk with full-text search. Events come in
-- through the database, are appended to a hot file as encoded notes, move from there into one
-- partition file for each day, and are found again through a sidecar of each file and a store of
-- what supersedes or deletes what. The model covers these parts; paths are from the root of the
-- repository.
--
-- - Note: what the storage reads of a decoded note. The decoder, the crate ndb, is the parameter
--   Ndb.
-- - Event (src/storage/event.rs): EventPacket, and the framing of packets in files: write_packet,
--   read_event_packet, read_event_packets.
-- - Visibility (src/storage/visibility.rs): Summary has VisibilitySummary (add_packet,
--   apply_deletion, update_winner, replaceable_key), Index has VisibilityIndex (merge,
--   is_visible), Address and Hex have the parsing of addresses and identifiers. Pairwise is the
--   specification: what one event does to another, read off the two events alone. Store has
--   VisibilityStore.
-- - Search (src/storage/search.rs): Index has SearchIndex and how it grows (append_to_search_index)
--   or is built at once (build_search_index), Terms the search for terms by a binary search in the
--   offsets, Bloom the filter by which partitions are skipped, File the bytes of a sidecar file.
-- - SearchText (src/storage/text.rs): what text of an event is searched, and the terms of a query.
-- - Filter (src/nostr/nip01/filter.rs, src/storage/event.rs, src/db/mod.rs): filters, the test of an
--   event against one, and the configured limits.
-- - Query (src/storage/query.rs): the order of results, and the days that a filter can match in.
-- - Cursor (src/storage/cursor.rs): PacketCursor over any source and the merge of cursors, Sources
--   the sources: a list of packets, the scan of a partition, the search in one by its sidecar.
-- - Reindex (src/storage/reindex.rs, src/storage/reindex_runner.rs): the sidecars that are written
--   again, with the record of the partitions and of what comes from other crates.
-- - Streaming (src/storage/streaming_query.rs): query_streaming, day by day over the cursors of its
--   filters; Partition is what a filter reads of the partition of a day.
-- - Batched (src/storage/batched_query.rs): the filters and candidates of many subscriptions,
--   Matcher their terms, Source the partition that is read, Query the loop over days.
-- - Compaction (src/storage/compaction.rs): the merge of a hot file into the partitions.
-- - SidecarQueue (src/storage/sidecar_queue.rs): the lock that compactions and reindexes take, as a
--   step relation over the threads that are awake, that sleep and that hold a guard.
-- - Subscription (src/db/subscription.rs, src/db/mod.rs): the registry of subscriptions and the
--   broadcast of a new event.
-- - Snapshot (src/db/snapshot_batch.rs): the dispatcher of the queries for stored events.
-- - Dump (src/db/mod.rs): the dump of all events and its load, record by record.
-- - PurgePolicy (src/db/purge_policy.rs): the policy of purging and its textual specifications, with
--   the parts of str that they use in Text.
-- - Examples: concrete inputs, among them a decoder of notes of five bytes.
--
-- How they interact: a compaction reads the hot file by Event, sorts by the order of Query, and
-- writes for each day the frames of Event, the index of Search and the summary of Visibility; a
-- query skips days by Query and by the Bloom filter of Search, tests packets by Filter and drops
-- those that Visibility hides. Streaming and Batched go through the days, over the hot packets
-- and the partitions, and rebuild by Reindex a sidecar that they cannot read. A new event goes
-- through Subscription, and a new subscription through Snapshot.
--
-- A byte string, and a str by its UTF-8 bytes, is a list of numbers; where the source goes
-- through characters, a str is the list of these. A map is an association list, whose order no
-- function here depends on. An integer of w bits wraps, saturates or is checked where the
-- source's does. Result has the errors of the source by name, without their texts, and its
-- panics as one more error. Loops are structural; the binary search runs on the number of
-- offsets as fuel, and the reading and the scan of a file on its number of bytes, and the merge
-- of cursors and the loop of Streaming over a day on any fuel that exceeds their number of
-- packets; each of their rounds takes a packet or a byte. The loop of Batched over a day takes a
-- candidate in each round but the last, and runs on any fuel; where that is too little it ends
-- with the error of a panic. Files are byte strings: a failing disk, the mapping of sidecars
-- into memory and the threads of a compaction are not modelled, and counters that are only
-- logged are left out. The command line, the conversion of events from and to JSON with their
-- signatures, and the hot file's state machine are not modelled.
pub mod Prelude
pub mod Note
pub mod Text
pub mod Event
pub mod Visibility
pub mod Search
pub mod SearchText
pub mod Query
pub mod Filter
pub mod Compaction
pub mod SidecarQueue
pub mod Subscription
pub mod Snapshot
pub mod Dump
pub mod Cursor
pub mod Reindex
pub mod Streaming
pub mod Batched
pub mod PurgePolicy
pub mod Examples

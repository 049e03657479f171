-- ===== src/Streaming/Partition/Rebuilt.antt =====
-- A search over a partition whose sidecar is missing (storage/streaming_query.rs, storage/reindex.rs).
use searchnos_db.Prelude.{
  ℕ, ◌^◌, ◌<◌, Bytes, true, Option, none, some, List, ◌∷◌, map, ok, err, Error, ◌≡◌, ◌⊎◌, refl, ap,
  ◌∙◌, length, nat_eq, inl, inr,
}
use searchnos_db.Prelude.Dict.{lookup, upsert}
use searchnos_db.Event.{EventPacket}
use searchnos_db.Event.Frame.RoundTrip.{write_packets, AreDecoded}
use searchnos_db.Filter.{Filter}
use searchnos_db.Search.Bloom.{search_bloom_bytes, as_bytes, may_match_terms}
use searchnos_db.Search.Index.{build_search_index}
use searchnos_db.Search.File.{Index, write_search_index_parts}
use searchnos_db.SearchText.{search_terms}
use searchnos_db.Visibility.Index.{VisibilityIndex}
use searchnos_db.Visibility.Summary.{VisibilitySummary, summary_from_packets}
use searchnos_db.Visibility.Store.{VisibilityStore, merge_summary}
use searchnos_db.Cursor.Sources.{filter_terms}
use searchnos_db.Reindex.{
  Context, Partitions, reindex_partition, store_summary, rebuild_partition_sidecars,
  read_search_index_for_events, read_search_bloom_for_events,
}
use searchnos_db.Reindex.Current.{existing, read_search_index_for_events-reindex_partition}
use searchnos_db.Streaming.Partition.{
  Cursor, search_bloom_may_match, rebuild, ask_bloom, without_sidecar, query_partition,
  cursor_if_asked, open_partition,
}
use searchnos_db.Streaming.Partition.Searched.{
  search_cursor, searched, search_bloom_may_match-terms, ask_bloom-searched, cursor_at,
  cursor_if_asked-searched,
}

module _ (c : Context) (empty_size : length c.texts.empty_bloom ≡ search_bloom_bytes)
    (keeps_size : (bloom : List ℕ) (text : Bytes)
      → length (c.texts.insert_text_grams bloom text) ≡ length bloom) where
  module _ (p : Partitions c) (day : ℕ) (file : Bytes) (packets : List EventPacket) (index : Index)
      (summary : VisibilitySummary) (store : VisibilityStore c.lmdb)
      (there : lookup day p.files ≡ some file) (decoded : AreDecoded c.ndb packets)
      (written : write_packets packets ≡ ok file)
      (built : build_search_index c.texts packets ≡ ok index)
      (summarised : summary_from_packets c.ndb packets ≡ ok summary)
      (merged : merge_summary c.lmdb c.sha256 p.visibility_store summary ≡ ok store)
      (kinds : c.texts.searchable_kinds_hash < 2 ^ 64) (small : length file < 2 ^ 64)
      (size : length (write_search_index_parts index) < 2 ^ 64) where
    -- The directory after the rebuilding.
    abbrev pub with_sidecar : Partitions c
    with_sidecar = record p {
      sidecars =
          upsert day (λ _. write_search_index_parts index) (write_search_index_parts index)
            p.sidecars;
    }

    abbrev pub rebuilt : Partitions c
    rebuilt = record with_sidecar { visibility_store = store }

    reindexed :
        reindex_partition c p day
        ≡ (with_sidecar, ok (record { events = length packets; visibility_summary = summary }))
    unfolding reindex_partition
    reindexed =
        rw
          (
            existing c empty_size keeps_size p day file packets index there decoded written built,
            built,
            reindex_partition,
          )
          (rw summarised refl)

    rebuild-rebuilt : rebuild c p day ≡ (rebuilt, true)
    unfolding rebuild rebuild_partition_sidecars store_summary
    rebuild-rebuilt = rw (reindexed, rebuild_partition_sidecars) (rw (merged, store_summary) refl)

    reads :
        (read_search_index_for_events c rebuilt day ≡ ok index)
        × (read_search_bloom_for_events c rebuilt day ≡ ok index.bloom)
    unfolding read_search_index_for_events read_search_bloom_for_events
    reads = rw reindexed at (
        read_search_index_for_events-reindex_partition c empty_size keeps_size p day file packets
          index there decoded written built kinds small size)

    module _ (filter : Filter) (visibility : Option VisibilityIndex) (query : Bytes) (term : List ℕ)
        (terms : List (List ℕ)) (searches : filter.search ≡ some query)
        (asked : search_terms c.unicode query ≡ term ∷ terms) where
      -- What a search is given after the rebuilding.
      abbrev pub cursor_searched : Option (Cursor c)
      cursor_searched = searched c (may_match_terms index.bloom (term ∷ terms)) (
          search_cursor c file index (map as_bytes (term ∷ terms)) filter visibility store
            index.records)

      bloom_asked :
          ask_bloom c rebuilt day filter ≡ (rebuilt, may_match_terms index.bloom (term ∷ terms))
      bloom_asked =
          ask_bloom-searched c rebuilt day index filter visibility query term terms asked reads.1
            file there reads.0 searches

      open_partition-of_asked :
          (r : Partitions c)
          → query_partition c r day filter ≡ (rebuilt, may_match_terms index.bloom (term ∷ terms))
          → open_partition c r day filter visibility ≡ (rebuilt, ok cursor_searched)
      unfolding open_partition cursor_at
      open_partition-of_asked r e =
          ap (cursor_if_asked c day filter visibility) e
          ∙ cursor_if_asked-searched c rebuilt day index filter visibility query term terms asked
              reads.1 file there reads.0 searches (may_match_terms index.bloom (term ∷ terms))

      terms_of_filter : filter_terms c.unicode filter.search ≡ as_bytes term ∷ map as_bytes terms
      terms_of_filter = rw searches (ap (map as_bytes) asked)

      missing_asked :
          lookup day p.sidecars ≡ none
          → query_partition c p day filter ≡ (rebuilt, may_match_terms index.bloom (term ∷ terms))
      unfolding query_partition
      missing_asked missing =
          rw (terms_of_filter, missing, rebuild-rebuilt, query_partition) bloom_asked

      unreadable_asked :
          (r : Partitions c) (sidecar : Bytes) (e : Error)
          → without_sidecar c r day ≡ p
          → lookup day r.sidecars ≡ some sidecar
          → search_bloom_may_match c r day filter.search ≡ err e
          → query_partition c r day filter ≡ (rebuilt, may_match_terms index.bloom (term ∷ terms))
      unfolding query_partition ask_bloom
      unreadable_asked r sidecar e removed found failed =
          let again : rebuild c (without_sidecar c r day) day ≡ (rebuilt, true) =
            ap (λ x. rebuild c x day) removed ∙ rebuild-rebuilt in
          let matched : search_bloom_may_match c rebuilt day filter.search
              ≡ ok (may_match_terms index.bloom (term ∷ terms)) =
            rw searches (
              search_bloom_may_match-terms c rebuilt day index filter visibility query term terms
                asked reads.1) in
          rw (terms_of_filter, found, query_partition) (rw (failed, again, matched, ask_bloom) refl)

      -- The sidecar of the day is missing, or the Bloom filter in it cannot be read and the sidecar is
      -- removed; the directory without it is the one that is rebuilt.
      abbrev pub IsUnusable : Partitions c → Type 0
      IsUnusable r =
          ((lookup day r.sidecars ≡ none) × (r ≡ p))
          ⊎ ((sidecar : Bytes) × (e : Error) × (lookup day r.sidecars ≡ some sidecar)
              × (search_bloom_may_match c r day (some query) ≡ err e)
              × (without_sidecar c r day ≡ p))

      -- A search of a partition whose sidecar is missing, or has a Bloom filter that cannot be read,
      -- has no error and is given a cursor over all records of the index that is built from the
      -- events file, or none if that index is empty or its Bloom filter does not match the terms of
      -- the query; the sidecar is written again, and what the packets say of visibility goes into the
      -- store. The file has whole frames of events that decode, their index and their summary can be
      -- made and the summary can be stored, the operations of the Bloom filter keep its size, and the
      -- hash of the kinds and the lengths of the two files fit into 64 bits.
      pub open_partition-rebuilt :
          (r : Partitions c)
          → IsUnusable r
          → open_partition c r day filter visibility ≡ (rebuilt, ok cursor_searched)
      open_partition-rebuilt r (inl (missing, same)) =
          open_partition-of_asked r
            (ap (λ x. query_partition c x day filter) same ∙ missing_asked (rw same at missing))
      open_partition-rebuilt r (inr (sidecar, e, found, failed, removed)) =
          open_partition-of_asked r
            (unreadable_asked r sidecar e removed found (rw searches failed))

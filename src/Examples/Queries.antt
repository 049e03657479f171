-- ===== src/Examples/Queries.antt =====
-- Queries over a partition and the hot file, which share a packet (storage/streaming_query.rs,
-- storage/batched_query.rs).
use searchnos_db.Prelude.{ℕ, true, Result, none, some, List, [], ◌∷◌, ok}
use searchnos_db.Event.{EventPacket}
use searchnos_db.Event.Frame.RoundTrip.{write_packets}
use searchnos_db.Filter.{Filter, new_filter}
use searchnos_db.Search.Bloom.{empty_bits}
use searchnos_db.Reindex.{Context, Partitions}
use searchnos_db.Streaming.{query_streaming}
use searchnos_db.Streaming.Once.{AreOnce, IsOnce, query_streaming-IsOnce}
use searchnos_db.Batched.Query.{query_streaming_batch}
use searchnos_db.Batched.Delivered.{received, IsEnded}
use searchnos_db.Batched.Delivered.Days.{query_streaming_batch-IsDelivered}
use searchnos_db.Examples.Data.{five_bytes, new_profile, reordered}
use searchnos_db.Examples.Lmdb.{memory}
use searchnos_db.Examples.Files.{bytes_of}
use searchnos_db.Examples.Filters.{ascii}
use searchnos_db.Examples.Finder.{find_iter}
use searchnos_db.Examples.Cursors.{no_json, take_all}

abbrev pub context : Context
context = record {
  ndb = five_bytes;
  unicode = ascii;
  json = no_json;
  lmdb = memory;
  sha256 = λ bytes. bytes;
  texts = record {
    normalized_search_text = λ payload. ok (b'a' ∷ []);
    searchable_kinds_hash = 1;
    empty_bloom = empty_bits;
    insert_text_grams = λ bloom text. bloom;
  };
  searchable_kinds = none;
}

abbrev pub partitions : Partitions context
partitions = record {
  files = (0, bytes_of (write_packets reordered)) ∷ [];
  sidecars = [];
  visibility_store = record {
    event_replace = [];
    event_deletion = [];
    event_replace_deletion = [];
  };
}

-- Two packets of all, and all profiles.
abbrev filters : List Filter
filters = record new_filter { limit = some 2 } ∷ record new_filter { kinds = some (0 ∷ []) } ∷ []

query_streaming-IsOnce_example :
    IsOnce
      (query_streaming context take_all 10 find_iter
        (new_profile ∷ [])
        (0 ∷ 1 ∷ [], b'a' ∷ [])
        filters
        partitions).1
query_streaming-IsOnce_example =
    query_streaming-IsOnce take_all context 10 find_iter (new_profile ∷ []) (0 ∷ 1 ∷ [], b'a' ∷ [])
      filters partitions

-- The receiver gives back the second query.
abbrev give_back : EventPacket → List ℕ → Result (List ℕ)
give_back p queries = ok (1 ∷ [])

query_streaming_batch-IsDelivered_example :
    let (r, done) =
      query_streaming_batch context
        (λ patterns text. [])
        (λ day query. true)
        give_back
        10
        (filters ∷ filters ∷ [])
        (new_profile ∷ [])
        (0 ∷ 1 ∷ [], b'a' ∷ [])
        partitions in
    AreOnce (received 0 [] r.batch.output) × IsEnded 0 r.batch done
query_streaming_batch-IsDelivered_example =
    query_streaming_batch-IsDelivered context (λ patterns text. []) give_back 0 (λ day query. true)
      10 (filters ∷ filters ∷ []) (new_profile ∷ []) (0 ∷ 1 ∷ [], b'a' ∷ []) partitions

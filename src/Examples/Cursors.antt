-- ===== src/Examples/Cursors.antt =====
-- Cursors over lists and over a file, and their merge (storage/cursor.rs,
-- storage/streaming_query.rs).
use searchnos_db.Prelude.{
  ℕ, ◌<◌, Bytes, Bool, true, ◌==◌, Option, some, none, List, [], ◌∷◌, ◌++◌, Result, ok, ◌≡◌, refl,
  arith, length, inr, All, cmp_bytes,
}
use searchnos_db.Event.{EventPacket}
use searchnos_db.Query.{compare_packets, matches_since, matches_until}
use searchnos_db.Filter.{
  Filter, new_filter, matches_filter_without_search, matches_fields, matches_tags,
}
use searchnos_db.SearchText.{Json}
use searchnos_db.Cursor.{PacketCursor, MergedSource, new_cursor, next_merged_packet}
use searchnos_db.Cursor.Choice.{Each}
use searchnos_db.Cursor.Heads.{merge_all}
use searchnos_db.Cursor.Merged.{Holds, Yields, left}
use searchnos_db.Cursor.Yields.{next_merged_packet-Yields}
use searchnos_db.Cursor.Sources.{Source, buffered, partition_scan, next_packet}
use searchnos_db.Cursor.Scanned.{kept}
use searchnos_db.Cursor.Yielded.{IsDecided, keep, buffered-Yields, next_packet-Yields_scan}
use searchnos_db.Compaction.{merge_packets}
use searchnos_db.Event.Frame.{read_event_packets}
use searchnos_db.Event.Frame.RoundTrip.{read_event_packets-write_packets}
use searchnos_db.Streaming.{Emission}
use searchnos_db.Streaming.Emitted.{Emits, emit_day-Emits}
use searchnos_db.Examples.Data.{five_bytes, old_profile, new_profile, deletion, batch}
use searchnos_db.Examples.Lmdb.{memory}
use searchnos_db.Examples.Filters.{ascii}
use searchnos_db.Examples.Files.{batch_file, batch_written, batch-AreDecoded}

-- A parser that reads nothing.
abbrev pub no_json : Json
no_json = record { object_values = λ s. none }

abbrev MemorySource : Type 0
MemorySource = Source memory (List ℕ)

abbrev next : MemorySource → MemorySource × Result (Option EventPacket)
next = next_packet five_bytes memory (λ bytes. bytes) ascii no_json

-- Two cursors that share a packet, the later packets first.
abbrev cursors : List (PacketCursor MemorySource)
cursors =
    new_cursor (buffered (deletion ∷ old_profile ∷ []) 0)
    ∷ new_cursor (buffered (new_profile ∷ old_profile ∷ []) 0)
    ∷ []

abbrev lists : List (List EventPacket)
lists = (deletion ∷ old_profile ∷ []) ∷ (new_profile ∷ old_profile ∷ []) ∷ []

cursors-Holds : Each (Holds next) cursors lists
cursors-Holds = (
  inr (
    refl,
    buffered-Yields five_bytes memory (λ bytes. bytes) ascii no_json (List ℕ)
        (deletion ∷ old_profile ∷ []),
  ),
  (
    inr (
      refl,
      buffered-Yields five_bytes memory (λ bytes. bytes) ascii no_json (List ℕ)
          (new_profile ∷ old_profile ∷ []),
    ),
    tt,
  ),
)

abbrev source : MergedSource MemorySource
source = record { cursors = cursors; limit = some 3; seen = []; emitted = 0 }

merged_length : length (merge_all lists) < 5
unfolding merge_all merge_packets compare_packets cmp_bytes
merged_length = omega arith

next_merged_packet-Yields_example :
    Yields (next_merged_packet next 5) source (left next source lists)
next_merged_packet-Yields_example =
    next_merged_packet-Yields next 5 source lists cursors-Holds merged_length

abbrev day_cursors : List (ℕ × PacketCursor MemorySource)
day_cursors =
    (0, new_cursor (buffered (deletion ∷ old_profile ∷ []) 0))
    ∷ (1, new_cursor (buffered (new_profile ∷ old_profile ∷ []) 0))
    ∷ []

abbrev nothing_emitted : Emission
nothing_emitted = record { packets = []; emitted = new_profile.id ∷ []; states = [] }

abbrev pub take_all : EventPacket → Result (Unit {0})
take_all p = ok tt

emit_day-Emits_example : Emits next take_all (λ p. refl) 5 day_cursors lists nothing_emitted
emit_day-Emits_example =
    emit_day-Emits next take_all (λ p. refl) 5 day_cursors lists nothing_emitted cursors-Holds
      merged_length

-- The profiles of a file with a deletion.
abbrev profiles : Filter
profiles = record new_filter { kinds = some (0 ∷ []) }

abbrev is_profile : EventPacket → Bool
is_profile p = p.kind == 0

abbrev file : Bytes
file = batch_file ++ 9 ∷ 9 ∷ []

batch_read : read_event_packets five_bytes file ≡ ok batch
batch_read =
    read_event_packets-write_packets five_bytes batch batch_file (9 ∷ 9 ∷ []) batch-AreDecoded
      batch_written (omega arith)

-- There is no index and no store.
abbrev shown : EventPacket → Bool
shown p = true

batch-IsDecided :
    All
      (IsDecided five_bytes memory
        (λ bytes. bytes)
        ascii
        no_json
        (List ℕ)
        profiles
        none
        none
        is_profile
        shown)
      batch
unfolding matches_filter_without_search matches_fields matches_since matches_until matches_tags
batch-IsDecided = ((refl, refl), ((refl, refl), ((refl, refl), tt)))

next_packet-Yields_scan_example : Yields next (partition_scan file profiles none none) (
    kept
      (keep five_bytes memory
        (λ bytes. bytes)
        ascii
        no_json
        (List ℕ)
        profiles
        none
        none
        is_profile
        shown)
      batch)
next_packet-Yields_scan_example =
    next_packet-Yields_scan five_bytes memory (λ bytes. bytes) ascii no_json (List ℕ) profiles none
      none is_profile shown file batch batch_read batch-IsDecided

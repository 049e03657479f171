-- ===== src/Cursor/Sources.antt =====
-- The sources of storage/cursor.rs that are not merges: a list of packets, the scan of a partition
-- file and the search in one by its sidecar. A file is the bytes that are left to read, or all
-- bytes where it is read at an offset. `read_event_packet_at` is of storage/search.rs.
use searchnos_db.Prelude.{
  ℕ, zero, suc, ◌+◌, ◌-◌, Bytes, Bool, true, false, ◌==◌, Option, none, some, List, [], ◌∷◌, Result,
  ok, err, panic, record_length_mismatch, ◌>>=◌, get_elem?, drop, length, map, if◌then◌else◌,
}
use searchnos_db.Prelude.Words.{from_le_bytes}
use searchnos_db.Note.{Ndb}
use searchnos_db.Event.{EventPacket, from_data}
use searchnos_db.Event.Frame.{read_exact, read_event_packet}
use searchnos_db.Filter.{Filter, matches_filter_without_search, matches_filter}
use searchnos_db.Search.Bloom.{as_bytes}
use searchnos_db.Search.Index.{SearchIndex, SearchIndexRecord}
use searchnos_db.Search.Terms.{record_matches_terms}
use searchnos_db.SearchText.{Unicode, Json, search_terms}
use searchnos_db.Visibility.Index.{VisibilityIndex, is_visible}
use searchnos_db.Visibility.Store.{Lmdb, VisibilityStore, is_visible_in_txn}
use searchnos_db.Cursor.{PacketCursor, new_cursor}

-- `PacketCursorSource` but for its merge
pub data Source (lmdb : Lmdb) (Bloom : Type 0) : Type 0 where
  buffered : (packets : List EventPacket) (position : ℕ) → Source lmdb Bloom
  partition_scan :
      (file : Bytes) (filter : Filter) (visibility : Option VisibilityIndex)
      (visibility_store : Option (VisibilityStore lmdb))
      → Source lmdb Bloom
  partition_search :
      (file : Bytes) (index : SearchIndex Bloom) (event_index : ℕ) (search_terms : List Bytes)
      (filter : Filter) (searchable_kinds : Option (List ℕ)) (visibility : Option VisibilityIndex)
      (visibility_store : Option (VisibilityStore lmdb))
      → Source lmdb Bloom

-- `filter_has_search_terms` of storage/query.rs, and the terms
abbrev pub terms_of : Unicode → Option Bytes → Option (List Bytes)
terms_of unicode none = none
terms_of unicode (some query) = some (map as_bytes (search_terms unicode query))

abbrev pub filter_terms : Unicode → Option Bytes → List Bytes
filter_terms unicode none = []
filter_terms unicode (some query) = map as_bytes (search_terms unicode query)

-- `read_event_packet_at`
unfoldable pub read_event_packet_at : Ndb → Bytes → SearchIndexRecord → Result EventPacket
read_event_packet_at ndb file index_record = do
  (len_bytes, behind) ← read_exact 4 (drop index_record.packet_offset file)
  (payload, rest) ←
      (if from_le_bytes len_bytes == index_record.packet_len
        then read_exact (from_le_bytes len_bytes) behind
        else err record_length_mismatch)
  from_data ndb payload

-- `index.record(i)`, which panics behind the end
abbrev pub record_at : Option SearchIndexRecord → Result SearchIndexRecord
record_at none = err panic
record_at (some r) = ok r

-- The loop of the search over the records that are left: the next position, and the packet.
unfoldable pub search_from :
    (ℕ → Result (Option EventPacket)) → ℕ → ℕ → ℕ × Result (Option EventPacket)
search_from find zero i = (i, ok none)
search_from find (suc n) i = elim (find i) [
  | err e ↦ (i + 1, err e)
  | ok (some packet) ↦ (i + 1, ok (some packet))
  | ok none ↦ search_from find n (i + 1)
]

abbrev pub move_on : ℕ → Option EventPacket → ℕ
move_on position none = position
move_on position (some packet) = position + 1

-- The loop of a scan over a test, on fuel: what is left of the file, and the next packet.
unfoldable pub scan :
    Ndb → (EventPacket → Result Bool) → ℕ → Bytes → Bytes × Result (Option EventPacket)
scan ndb passes zero file = (file, err panic)
scan ndb passes (suc fuel) file = elim (read_event_packet ndb file) [
  | err e ↦ ([], err e)
  | ok none ↦ ([], ok none)
  | ok (some (packet, rest)) ↦ elim (passes packet) [
    | err e ↦ (rest, err e)
    | ok true ↦ (rest, ok (some packet))
    | ok false ↦ scan ndb passes fuel rest
  ]
]

module _ (ndb : Ndb) (lmdb : Lmdb) (sha256 : Bytes → Bytes) where
  abbrev pub visible_in : Option VisibilityIndex → EventPacket → Bool
  visible_in none packet = true
  visible_in (some index) packet = is_visible ndb index packet

  abbrev pub visible_in_store : Option (VisibilityStore lmdb) → EventPacket → Result Bool
  visible_in_store none packet = ok true
  visible_in_store (some store) packet = is_visible_in_txn lmdb sha256 ndb store packet

  -- `packet_is_visible`
  unfoldable pub packet_is_visible :
      Option VisibilityIndex → Option (VisibilityStore lmdb) → EventPacket → Result Bool
  packet_is_visible visibility store packet = elim (visible_in visibility packet) [
    | false ↦ ok false
    | true ↦ visible_in_store store packet
  ]

  -- The tests that a scanned packet passes.
  unfoldable pub passes_scan :
      Filter → Option VisibilityIndex → Option (VisibilityStore lmdb) → EventPacket → Result Bool
  passes_scan filter visibility store packet = do
    matches ← matches_filter_without_search ndb filter packet
    elim matches [ false ↦ ok false | true ↦ packet_is_visible visibility store packet ]

  module _ (unicode : Unicode) (json : Json) {Bloom : Type 0} where
    -- One record of the search: none if it is passed over.
    unfoldable pub search_record :
        Bytes
        → SearchIndex Bloom
        → List Bytes
        → Filter
        → Option (List ℕ)
        → Option VisibilityIndex
        → Option (VisibilityStore lmdb)
        → ℕ
        → Result (Option EventPacket)
    search_record file index terms filter kinds visibility store i =
        elim (record_matches_terms index.offsets index.text i terms) [
          | false ↦ ok none
          | true ↦ do
            index_record ← record_at (get_elem? index.records i)
            packet ← read_event_packet_at ndb file index_record
            matches ← matches_filter ndb unicode json filter kinds packet
            visible ← (elim matches [
              | false ↦ ok false
              | true ↦ packet_is_visible visibility store packet
            ])
            ok (if visible then some packet else none)
        ]

    -- `next_packet`
    unfoldable pub next_packet : Source lmdb Bloom → Source lmdb Bloom × Result (Option EventPacket)
    next_packet (buffered packets position) =
        let packet = get_elem? packets position in
        (buffered packets (move_on position packet), ok packet)
    next_packet (partition_scan file filter visibility store) =
        let (rest, packet) =
          scan ndb (passes_scan filter visibility store) (suc (length file)) file in
        (partition_scan rest filter visibility store, packet)
    next_packet (partition_search file index i terms filter kinds visibility store) =
        let (next, packet) =
          search_from (search_record file index terms filter kinds visibility store)
            (length index.records - i) i in
        (partition_search file index next terms filter kinds visibility store, packet)

    -- `PacketCursor::buffered`
    unfoldable pub buffered_cursor : List EventPacket → Option (PacketCursor (Source lmdb Bloom))
    buffered_cursor [] = none
    buffered_cursor (packet ∷ packets) = some (new_cursor (buffered (packet ∷ packets) 0))

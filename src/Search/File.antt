-- ===== src/Search/File.antt =====
-- The sidecar file of storage/search.rs: its bytes, and the reading of its Bloom filter and of the
-- whole index with its validation. A mapped file is its bytes, and the parts that the source
-- reads from the mapping later are read here at once. A usize has 64 bits.
pub mod Written
pub mod RoundTrip
pub mod Grown
pub mod Built
use searchnos_db.Prelude.{
  ℕ, zero, suc, ◌+◌, ◌-◌, ◌*◌, ◌^◌, Bytes, Bool, true, false, ◌&&◌, ◌||◌, not, leb, ltb, ◌==◌,
  if◌then◌else◌, Option, none, some, List, [], ◌∷◌, ◌++◌, Result, ok, err, ◌>>=◌, ◌>>◌,
  truncated_index, position_overflow, invalid_magic, invalid_offsets, non_monotonic_offsets,
  fingerprint_mismatch, kinds_mismatch, record_offset_mismatch, record_length_mismatch, length,
  take, drop, get_or, ◌=?◌, bytes_eq,
}
use searchnos_db.Prelude.Words.{to_le_bytes, from_le_bytes}
use searchnos_db.Search.Bloom.{search_bloom_bytes}
use searchnos_db.Search.Index.{SearchIndex, SearchIndexRecord, EventsFingerprint}

abbrev pub search_index_magic : Bytes
search_index_magic = b'S' ∷ b'R' ∷ b'C' ∷ b'H' ∷ b'S' ∷ b'I' ∷ b'0' ∷ b'1' ∷ []

abbrev pub Index : Type 0
Index = SearchIndex (List ℕ)

-- The loops of `write_search_index_parts` over the records and the offsets.
unfoldable pub record_bytes : List SearchIndexRecord → Bytes
record_bytes [] = []
record_bytes (r ∷ records) =
    to_le_bytes 8 r.packet_offset ++ (to_le_bytes 4 r.packet_len ++ record_bytes records)

unfoldable pub offset_bytes : List ℕ → Bytes
offset_bytes [] = []
offset_bytes (offset ∷ offsets) = to_le_bytes 8 offset ++ offset_bytes offsets

-- `write_search_index_parts`: what `write_built_search_index` writes of an index.
unfoldable pub write_search_index_parts : Index → Bytes
write_search_index_parts index =
    search_index_magic
    ++ (to_le_bytes 8 index.fingerprint.count
        ++ (to_le_bytes 8 index.fingerprint.bytes
            ++ (to_le_bytes 8 index.fingerprint.hash
                ++ (to_le_bytes 8 index.searchable_kinds_hash
                    ++ (record_bytes index.records
                        ++ (offset_bytes index.offsets ++ (index.bloom ++ index.text)))))))

-- `read_bytes`: the bytes and the position behind them
unfoldable pub read_bytes : Bytes → ℕ → ℕ → Result (Bytes × ℕ)
read_bytes bytes position len =
    if ltb (position + len) (2 ^ 64)
    then (if leb (position + len) (length bytes)
        then ok (take len (drop position bytes), position + len)
        else err truncated_index)
    else err position_overflow

-- `checked_advance`
unfoldable pub checked_advance : ℕ → ℕ → ℕ → Result ℕ
checked_advance position count item_size =
    if ltb (count * item_size) (2 ^ 64) && ltb (position + count * item_size) (2 ^ 64)
    then ok (position + count * item_size)
    else err position_overflow

-- `checked_advance`, and `read_bytes` of no bytes there
unfoldable pub read_section : Bytes → ℕ → ℕ → ℕ → Result ℕ
read_section bytes position count item_size = do
  next ← checked_advance position count item_size
  (nothing, same) ← read_bytes bytes next 0
  ok same

-- `read_u64_from`
unfoldable pub read_u64_from : Bytes → ℕ → Result (ℕ × ℕ)
read_u64_from bytes position = do
  (value, next) ← read_bytes bytes position 8
  ok (from_le_bytes value, next)

-- The mapped records and offsets: `get` at every index.
unfoldable pub mapped_records : ℕ → Bytes → List SearchIndexRecord
mapped_records zero bytes = []
mapped_records (suc count) bytes =
    record {
      packet_offset = from_le_bytes (take 8 bytes);
      packet_len = from_le_bytes (take 4 (drop 8 bytes));
    }
    ∷ mapped_records count (drop 4 (drop 8 bytes))

unfoldable pub mapped_offsets : ℕ → Bytes → List ℕ
mapped_offsets zero bytes = []
mapped_offsets (suc count) bytes =
    from_le_bytes (take 8 bytes) ∷ mapped_offsets count (drop 8 bytes)

-- `is_monotonic`, behind an offset
unfoldable pub is_monotonic_after : ℕ → List ℕ → Bool
is_monotonic_after previous [] = true
is_monotonic_after previous (current ∷ offsets) =
    leb previous current && is_monotonic_after current offsets

abbrev pub is_monotonic : List ℕ → Bool
is_monotonic [] = true
is_monotonic (offset ∷ offsets) = is_monotonic_after offset offsets

-- `offsets.last()`
unfoldable pub last_or : ℕ → List ℕ → ℕ
last_or d [] = d
last_or d (offset ∷ offsets) = last_or offset offsets

-- `offsets.len() == 0 || offsets.get(0) != 0 || offsets.last() != Some(text_len)`
abbrev pub are_invalid_offsets : List ℕ → ℕ → Bool
are_invalid_offsets [] text_len = true
are_invalid_offsets (first ∷ offsets) text_len =
    not (first == 0) || not (last_or first offsets == text_len)

-- `validate_search_index_records`, from an expected offset on
unfoldable pub validate_search_index_records : ℕ → List SearchIndexRecord → ℕ → Result (Unit {0})
validate_search_index_records expected_offset [] events_bytes =
    if expected_offset == events_bytes then ok tt else err record_length_mismatch
validate_search_index_records expected_offset (r ∷ records) events_bytes =
    if r.packet_offset == expected_offset
    then validate_search_index_records (expected_offset + (4 + r.packet_len)) records events_bytes
    else err record_offset_mismatch

-- The header of the file: count, bytes, hash and kinds, and the position behind it.
pub record Header : Type 0 where
  pub fingerprint : EventsFingerprint
  pub searchable_kinds_hash : ℕ
  pub position : ℕ

abbrev pub guard : Bool → Result (Unit {0}) → Result (Unit {0})
guard true failure = ok tt
guard false failure = failure

unfoldable pub read_header : Bytes → Result Header
read_header bytes = do
  (magic, p0) ← read_bytes bytes 0 8
  guard (magic =? search_index_magic) (err invalid_magic)
  (count, p1) ← read_u64_from bytes p0
  (packet_bytes, p2) ← read_u64_from bytes p1
  (hash, p3) ← read_u64_from bytes p2
  (kinds, p4) ← read_u64_from bytes p3
  ok (record {
    fingerprint = record { count = count; bytes = packet_bytes; hash = hash };
    searchable_kinds_hash = kinds;
    position = p4;
  })

-- `read_search_bloom_trusted`, on the length of the events file: the bits.
unfoldable pub read_search_bloom_trusted : Bytes → ℕ → ℕ → Result (List ℕ)
read_search_bloom_trusted bytes events_len expected_kinds = do
  header ← read_header bytes
  guard (header.fingerprint.bytes == events_len) (err record_length_mismatch)
  guard (header.searchable_kinds_hash == expected_kinds) (err kinds_mismatch)
  offsets_at ← checked_advance header.position header.fingerprint.count 12
  bloom_at ← checked_advance offsets_at (header.fingerprint.count + 1) 8
  end ← read_section bytes bloom_at search_bloom_bytes 1
  ok (take search_bloom_bytes (drop bloom_at bytes))

-- `read_search_index_inner`, without the expected fingerprint, which only tests give.
unfoldable pub read_search_index_inner : Bytes → ℕ → Result Index
read_search_index_inner bytes expected_kinds = do
  header ← read_header bytes
  let count = header.fingerprint.count
  offsets_at ← read_section bytes header.position count 12
  bloom_at ← read_section bytes offsets_at (count + 1) 8
  text_at ← read_section bytes bloom_at search_bloom_bytes 1
  let records = mapped_records count (drop header.position bytes)
  let offsets = mapped_offsets (count + 1) (drop offsets_at bytes)
  guard (not (are_invalid_offsets offsets (length bytes - text_at))) (err invalid_offsets)
  guard (is_monotonic offsets) (err non_monotonic_offsets)
  guard (header.searchable_kinds_hash == expected_kinds) (err kinds_mismatch)
  valid ← validate_search_index_records 0 records header.fingerprint.bytes
  ok (record {
    fingerprint = header.fingerprint;
    searchable_kinds_hash = header.searchable_kinds_hash;
    records = records;
    offsets = offsets;
    bloom = take search_bloom_bytes (drop bloom_at bytes);
    text = drop text_at bytes;
  })

-- `read_search_index_trusted`
unfoldable pub read_search_index_trusted : Bytes → ℕ → ℕ → Result Index
read_search_index_trusted bytes events_len expected_kinds = do
  index ← read_search_index_inner bytes expected_kinds
  guard (index.fingerprint.bytes == events_len) (err record_length_mismatch)
  ok index

-- ===== src/Search/File/RoundTrip.antt =====
-- The reading of a written sidecar file (storage/search.rs).
use searchnos_db.Prelude.{
  Bool, ◌>>=◌, ◌>>◌, ℕ, ◌+◌, ◌-◌, ◌*◌, ◌^◌, ◌<◌, Bytes, true, false, ◌++◌, ok, ◌≡◌, refl, arith,
  length, drop, take, All, bytes_eq, cmp_bytes, if◌then◌else◌, err, kinds_mismatch,
  record_length_mismatch, ==_iff, ◌==◌, length-append, take-append_at,
}
use searchnos_db.Search.Bloom.{search_bloom_bytes}
use searchnos_db.Prelude.Words.{to_le_bytes, length-to_le_bytes}
use searchnos_db.Search.File.{
  read_search_index_trusted, Index, search_index_magic, write_search_index_parts, record_bytes,
  offset_bytes, read_header, Header, guard, are_invalid_offsets, is_monotonic,
  validate_search_index_records, read_search_index_inner, read_search_bloom_trusted, mapped_records,
  mapped_offsets,
}
use searchnos_db.Search.File.Written.{
  At, At-next, read_bytes-At, read_u64_from-At, checked_advance-At, read_section-At,
  length-record_bytes, length-offset_bytes, IsSmallRecord, mapped_offsets-offset_bytes,
  mapped_records-record_bytes,
}

-- An index whose parts fit together and into the integers of the file.
pub record IsStorable (index : Index) : Type 0 where
  pub count : index.fingerprint.count ≡ length index.records
  pub offset_count : length index.offsets ≡ length index.records + 1
  pub small_bytes : index.fingerprint.bytes < 2 ^ 64
  pub small_hash : index.fingerprint.hash < 2 ^ 64
  pub small_kinds : index.searchable_kinds_hash < 2 ^ 64
  pub small_records : All IsSmallRecord index.records
  pub small_offsets : All (λ o. o < 2 ^ 64) index.offsets
  pub offsets_valid : are_invalid_offsets index.offsets (length index.text) ≡ false
  pub monotonic : is_monotonic index.offsets ≡ true
  pub records_valid : validate_search_index_records 0 index.records index.fingerprint.bytes ≡ ok tt
  pub bloom_size : length index.bloom ≡ search_bloom_bytes
  pub file_size : length (write_search_index_parts index) < 2 ^ 64

module _ (index : Index) (s : IsStorable index) where
  abbrev file : Bytes
  file = write_search_index_parts index

  -- What stands behind each part of the header.
  abbrev behind_offsets : Bytes
  behind_offsets = index.bloom ++ index.text

  abbrev behind_records : Bytes
  behind_records = offset_bytes index.offsets ++ behind_offsets

  abbrev behind_header : Bytes
  behind_header = record_bytes index.records ++ behind_records

  start_placed : At file 0 (
      search_index_magic
      ++ (to_le_bytes 8 index.fingerprint.count
          ++ (to_le_bytes 8 index.fingerprint.bytes
              ++ (to_le_bytes 8 index.fingerprint.hash
                  ++ (to_le_bytes 8 index.searchable_kinds_hash ++ behind_header)))))
  unfolding write_search_index_parts
  start_placed = record { dropped = refl; total = omega arith }

  small_count : index.fingerprint.count < 2 ^ 64
  small_count = omega (
    arith,
    s.count,
    s.file_size,
    start_placed.total,
    length-record_bytes index.records,
    length-append search_index_magic (
        to_le_bytes 8 index.fingerprint.count
        ++ (to_le_bytes 8 index.fingerprint.bytes
            ++ (to_le_bytes 8 index.fingerprint.hash
                ++ (to_le_bytes 8 index.searchable_kinds_hash ++ behind_header)))),
    length-append (to_le_bytes 8 index.fingerprint.count) (
        to_le_bytes 8 index.fingerprint.bytes
        ++ (to_le_bytes 8 index.fingerprint.hash
            ++ (to_le_bytes 8 index.searchable_kinds_hash ++ behind_header))),
    length-append (to_le_bytes 8 index.fingerprint.bytes) (
        to_le_bytes 8 index.fingerprint.hash
        ++ (to_le_bytes 8 index.searchable_kinds_hash ++ behind_header)),
    length-append (to_le_bytes 8 index.fingerprint.hash)
        (to_le_bytes 8 index.searchable_kinds_hash ++ behind_header),
    length-append (to_le_bytes 8 index.searchable_kinds_hash) behind_header,
    length-append (record_bytes index.records) behind_records,
  )

  count_placed : At file 8 (
      to_le_bytes 8 index.fingerprint.count
      ++ (to_le_bytes 8 index.fingerprint.bytes
          ++ (to_le_bytes 8 index.fingerprint.hash
              ++ (to_le_bytes 8 index.searchable_kinds_hash ++ behind_header))))
  count_placed = At-next file s.file_size 0 8 search_index_magic _ start_placed refl

  bytes_placed : At file 16 (
      to_le_bytes 8 index.fingerprint.bytes
      ++ (to_le_bytes 8 index.fingerprint.hash
          ++ (to_le_bytes 8 index.searchable_kinds_hash ++ behind_header)))
  bytes_placed =
      At-next file s.file_size 8 8 _ _ count_placed (length-to_le_bytes 8 index.fingerprint.count)

  hash_placed : At file 24 (
      to_le_bytes 8 index.fingerprint.hash
      ++ (to_le_bytes 8 index.searchable_kinds_hash ++ behind_header))
  hash_placed =
      At-next file s.file_size 16 8 _ _ bytes_placed (length-to_le_bytes 8 index.fingerprint.bytes)

  kinds_placed : At file 32 (to_le_bytes 8 index.searchable_kinds_hash ++ behind_header)
  kinds_placed =
      At-next file s.file_size 24 8 _ _ hash_placed (length-to_le_bytes 8 index.fingerprint.hash)

  records_placed : At file 40 behind_header
  records_placed =
      At-next file s.file_size 32 8 _ _ kinds_placed
        (length-to_le_bytes 8 index.searchable_kinds_hash)

  abbrev offsets_at : ℕ
  offsets_at = 40 + index.fingerprint.count * 12

  abbrev bloom_at : ℕ
  bloom_at = offsets_at + (index.fingerprint.count + 1) * 8

  records_size : length (record_bytes index.records) ≡ index.fingerprint.count * 12
  records_size = omega (arith, length-record_bytes index.records, s.count)

  offsets_size : length (offset_bytes index.offsets) ≡ (index.fingerprint.count + 1) * 8
  offsets_size = omega (arith, length-offset_bytes index.offsets, s.count, s.offset_count)

  offsets_placed : At file offsets_at behind_records
  offsets_placed = At-next file s.file_size 40 _ _ _ records_placed records_size

  bloom_placed : At file bloom_at behind_offsets
  bloom_placed = At-next file s.file_size offsets_at _ _ _ offsets_placed offsets_size

  bloom_size_1 : length index.bloom ≡ search_bloom_bytes * 1
  bloom_size_1 = omega (arith, s.bloom_size)

  text_placed : At file (bloom_at + search_bloom_bytes * 1) index.text
  text_placed = At-next file s.file_size bloom_at _ _ _ bloom_placed bloom_size_1

  abbrev header : Header
  header = record {
    fingerprint = index.fingerprint;
    searchable_kinds_hash = index.searchable_kinds_hash;
    position = 40;
  }

  read_header-written : read_header file ≡ ok header
  unfolding read_header cmp_bytes
  read_header-written =
      rw (read_bytes-At file s.file_size 0 8 search_index_magic _ start_placed refl) (
        rw (read_u64_from-At file s.file_size 8 index.fingerprint.count _ count_placed small_count)
          (rw
            (read_u64_from-At file s.file_size 16 index.fingerprint.bytes _ bytes_placed
              s.small_bytes)
            (rw
              (read_u64_from-At file s.file_size 24 index.fingerprint.hash _ hash_placed
                s.small_hash)
              (rw
                (read_u64_from-At file s.file_size 32 index.searchable_kinds_hash _ kinds_placed
                  s.small_kinds)
                refl))))

  offsets_read : mapped_offsets (index.fingerprint.count + 1) (drop offsets_at file) ≡ index.offsets
  offsets_read = rw offsets_placed.dropped (
      rw (s.count) (
        rw (← s.offset_count)
          (mapped_offsets-offset_bytes index.offsets behind_offsets s.small_offsets)))

  records_read : mapped_records index.fingerprint.count (drop 40 file) ≡ index.records
  records_read =
      rw records_placed.dropped
        (rw (s.count) (mapped_records-record_bytes index.records behind_records s.small_records))

  bloom_read : take search_bloom_bytes (drop bloom_at file) ≡ index.bloom
  bloom_read =
      rw bloom_placed.dropped
        (take-append_at search_bloom_bytes index.bloom index.text s.bloom_size)

  text_length : length file - (bloom_at + search_bloom_bytes * 1) ≡ length index.text
  text_length = omega (arith, text_placed.total)

  guarded :
      (test : Bool)
      → (guard test (err kinds_mismatch) >>= (λ _. ok index))
        ≡ (if test then ok index else err kinds_mismatch)
  guarded true = refl
  guarded false = refl

  read_search_index_inner-written :
      (kinds : ℕ)
      → read_search_index_inner file kinds
        ≡ (if index.searchable_kinds_hash == kinds then ok index else err kinds_mismatch)
  unfolding read_search_index_inner
  read_search_index_inner-written kinds = rw read_header-written (
      rw
        (read_section-At file s.file_size 40 index.fingerprint.count 12 _ _ records_placed
          records_size)
        (rw
          (read_section-At file s.file_size offsets_at (index.fingerprint.count + 1) 8 _ _
            offsets_placed offsets_size)
          (rw
            (read_section-At file s.file_size bloom_at search_bloom_bytes 1 _ _ bloom_placed
              bloom_size_1)
            (rw offsets_read (
              rw records_read (
                rw bloom_read (
                  rw text_length (
                    rw (s.offsets_valid) (
                      rw (s.monotonic) (
                        rw (s.records_valid) (
                          rw text_placed.dropped
                            (guarded (index.searchable_kinds_hash == kinds)))))))))))))

  same_length :
      (test : Bool)
      → (guard test (err record_length_mismatch) >> ok index)
        ≡ (if test then ok index else err record_length_mismatch)
  same_length true = refl
  same_length false = refl

  trusted :
      (a : Bool) (events_len : ℕ)
      → ((if a then ok index else err kinds_mismatch) >>= (λ (i : Index).
          guard (i.fingerprint.bytes == events_len) (err record_length_mismatch) >> ok i))
        ≡ (if a
            then (if index.fingerprint.bytes == events_len
                then ok index
                else err record_length_mismatch)
            else err kinds_mismatch)
  trusted true events_len = same_length (index.fingerprint.bytes == events_len)
  trusted false events_len = refl

  -- A sidecar file that an index of consistent parts was written to is read back as this index, and
  -- its Bloom filter as the filter of the index, if the kinds and the length of the events file are
  -- those of the index; for other kinds the reading of the index fails with the error for these,
  -- and else, for another length, with the error for that.
  pub read_search_index-write_search_index :
      (kinds events_len : ℕ)
      → (read_search_index_trusted file events_len kinds ≡ (
          if index.searchable_kinds_hash == kinds
          then (if index.fingerprint.bytes == events_len
              then ok index
              else err record_length_mismatch)
          else err kinds_mismatch))
        × (read_search_bloom_trusted file index.fingerprint.bytes index.searchable_kinds_hash
            ≡ ok index.bloom)
  unfolding read_search_index_trusted read_search_bloom_trusted
  read_search_index-write_search_index kinds events_len = (
    rw (read_search_index_inner-written kinds)
        (trusted (index.searchable_kinds_hash == kinds) events_len),
    rw read_header-written (
        rw ((==_iff index.fingerprint.bytes index.fingerprint.bytes).1 refl) (
          rw ((==_iff index.searchable_kinds_hash index.searchable_kinds_hash).1 refl) (
            rw
              (checked_advance-At file s.file_size 40 index.fingerprint.count 12 _ _ records_placed
                records_size)
              (rw
                (checked_advance-At file s.file_size offsets_at (index.fingerprint.count + 1) 8 _ _
                  offsets_placed offsets_size)
                (rw
                  (read_section-At file s.file_size bloom_at search_bloom_bytes 1 _ _ bloom_placed
                    bloom_size_1)
                  (rw bloom_read refl)))))),
  )

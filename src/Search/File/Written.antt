-- ===== src/Search/File/Written.antt =====
-- Reading what stands at a position of a sidecar file.
use searchnos_db.Prelude.{
  ℕ, ◌+◌, ◌*◌, ◌^◌, ◌<◌, Bytes, leb, ltb, true, List, [], ◌∷◌, ◌++◌, ok, ◌≡◌, refl, sym, ap, ◌∙◌,
  arith, length, length-append, drop, drop-drop, take-append_at, drop-append_at, All,
}
use mathlib.Core.List.{append_assoc}
use searchnos_db.Prelude.Words.{to_le_bytes, length-to_le_bytes, from_le_bytes-to_le_bytes}
use searchnos_db.Search.Index.{SearchIndexRecord}
use searchnos_db.Search.File.{
  read_bytes, read_u64_from, read_section, checked_advance, record_bytes, offset_bytes,
  mapped_records, mapped_offsets,
}

-- The file holds these bytes from the position on.
pub record At (bytes : Bytes) (position : ℕ) (rest : Bytes) : Type 0 where
  pub dropped : drop position bytes ≡ rest
  pub total : position + length rest ≡ length bytes

module _ (bytes : Bytes) (fits : length bytes < 2 ^ 64) where
  pub At-next :
      (position n : ℕ) (x rest : Bytes)
      → At bytes position (x ++ rest)
      → length x ≡ n
      → At bytes (position + n) rest
  At-next position n x rest here e = record {
    dropped =
        sym (drop-drop position n (position + n) bytes refl)
        ∙ rw here.dropped (drop-append_at n x rest e);
    total = omega (arith, here.total, length-append x rest);
  }

  pub read_bytes-At :
      (position n : ℕ) (x rest : Bytes)
      → At bytes position (x ++ rest)
      → length x ≡ n
      → read_bytes bytes position n ≡ ok (x, position + n)
  unfolding read_bytes
  read_bytes-At position n x rest here e =
      let inside : ltb (position + n) (2 ^ 64) ≡ true =
        ground (arith, here.total, length-append x rest) in
      let there : leb (position + n) (length bytes) ≡ true =
        ground (arith, here.total, length-append x rest) in
      rw inside (rw there (rw here.dropped (rw (take-append_at n x rest e) refl)))

  pub read_u64_from-At :
      (position value : ℕ) (rest : Bytes)
      → At bytes position (to_le_bytes 8 value ++ rest)
      → value < 2 ^ 64
      → read_u64_from bytes position ≡ ok (value, position + 8)
  unfolding read_u64_from
  read_u64_from-At position value rest here small =
      rw (read_bytes-At position 8 (to_le_bytes 8 value) rest here (length-to_le_bytes 8 value))
        (rw (from_le_bytes-to_le_bytes 8 value (omega arith)) refl)

  pub checked_advance-At :
      (position count item_size : ℕ) (x rest : Bytes)
      → At bytes position (x ++ rest)
      → length x ≡ count * item_size
      → checked_advance position count item_size ≡ ok (position + count * item_size)
  unfolding checked_advance
  checked_advance-At position count item_size x rest here e =
      let size : ltb (count * item_size) (2 ^ 64) ≡ true =
        ground (arith, here.total, length-append x rest) in
      let inside : ltb (position + count * item_size) (2 ^ 64) ≡ true =
        ground (arith, here.total, length-append x rest) in
      rw size (rw inside refl)

  pub read_section-At :
      (position count item_size : ℕ) (x rest : Bytes)
      → At bytes position (x ++ rest)
      → length x ≡ count * item_size
      → read_section bytes position count item_size ≡ ok (position + count * item_size)
  unfolding read_section
  read_section-At position count item_size x rest here e =
      let next = At-next position (count * item_size) x rest here e in
      rw (checked_advance-At position count item_size x rest here e) (
        rw (read_bytes-At (position + count * item_size) 0 [] rest next refl) (ap ok (omega arith)))

pub length-record_bytes :
    (records : List SearchIndexRecord) → length (record_bytes records) ≡ length records * 12
unfolding record_bytes
length-record_bytes [] = omega arith
length-record_bytes (r ∷ records) = omega (
  arith,
  length-record_bytes records,
  length-to_le_bytes 8 r.packet_offset,
  length-to_le_bytes 4 r.packet_len,
  length-append (to_le_bytes 8 r.packet_offset)
      (to_le_bytes 4 r.packet_len ++ record_bytes records),
  length-append (to_le_bytes 4 r.packet_len) (record_bytes records),
)

pub length-offset_bytes : (offsets : List ℕ) → length (offset_bytes offsets) ≡ length offsets * 8
unfolding offset_bytes
length-offset_bytes [] = omega arith
length-offset_bytes (offset ∷ offsets) = omega (
  arith,
  length-offset_bytes offsets,
  length-to_le_bytes 8 offset,
  length-append (to_le_bytes 8 offset) (offset_bytes offsets),
)

abbrev pub IsSmallRecord : SearchIndexRecord → Type 0
IsSmallRecord r = (r.packet_offset < 2 ^ 64) × (r.packet_len < 2 ^ 32)

pub mapped_offsets-offset_bytes :
    (offsets : List ℕ) (rest : Bytes)
    → All (λ o. o < 2 ^ 64) offsets
    → mapped_offsets (length offsets) (offset_bytes offsets ++ rest) ≡ offsets
unfolding mapped_offsets offset_bytes
mapped_offsets-offset_bytes [] rest h = refl
mapped_offsets-offset_bytes (o ∷ offsets) rest h =
    rw (append_assoc (to_le_bytes 8 o) (offset_bytes offsets) rest) (
      rw
        (take-append_at 8 (to_le_bytes 8 o) (offset_bytes offsets ++ rest) (length-to_le_bytes 8 o))
        (rw
          (drop-append_at 8 (to_le_bytes 8 o) (offset_bytes offsets ++ rest)
            (length-to_le_bytes 8 o))
          (rw (from_le_bytes-to_le_bytes 8 o (omega arith))
            (rw (mapped_offsets-offset_bytes offsets rest h.1) refl))))

pub mapped_records-record_bytes :
    (records : List SearchIndexRecord) (rest : Bytes)
    → All IsSmallRecord records
    → mapped_records (length records) (record_bytes records ++ rest) ≡ records
unfolding mapped_records record_bytes
mapped_records-record_bytes [] rest h = refl
mapped_records-record_bytes (r ∷ records) rest h =
    let others = record_bytes records ++ rest in
    let a = to_le_bytes 8 r.packet_offset in
    let b = to_le_bytes 4 r.packet_len in
    let whole : (a ++ (b ++ record_bytes records)) ++ rest ≡ a ++ (b ++ others) =
      append_assoc a (b ++ record_bytes records) rest
      ∙ ap (λ l. a ++ l) (append_assoc b (record_bytes records) rest) in
    rw whole (
      rw (take-append_at 8 a (b ++ others) (length-to_le_bytes 8 r.packet_offset)) (
        rw (drop-append_at 8 a (b ++ others) (length-to_le_bytes 8 r.packet_offset)) (
          rw (take-append_at 4 b others (length-to_le_bytes 4 r.packet_len)) (
            rw (drop-append_at 4 b others (length-to_le_bytes 4 r.packet_len)) (
              rw (from_le_bytes-to_le_bytes 8 r.packet_offset (omega (arith, h.0.0))) (
                rw (from_le_bytes-to_le_bytes 4 r.packet_len (omega (arith, h.0.1)))
                  (rw (mapped_records-record_bytes records rest h.1) refl)))))))

-- ===== src/Search/File/Grown.antt =====
-- The parts of an index that has grown packet by packet, and its sidecar file (storage/search.rs).
use searchnos_db.Prelude.{
  ==_iff, ℕ, ◌+◌, ◌^◌, ◌<◌, ◌≤◌, Bytes, true, List, [], ◌∷◌, ◌++◌, ok, ◌≡◌, refl, sym, ap, ◌∙◌,
  subst, arith, length, length-append, All, All-append, fold_result-eq-ok, >>=-eq-ok,
}
use searchnos_db.Event.{EventPacket}
use searchnos_db.Event.Frame.{u32_try_from, write_packet}
use searchnos_db.Event.Frame.RoundTrip.{write_packets}
use searchnos_db.Prelude.Words.{to_le_bytes, length-to_le_bytes}
use searchnos_db.Search.Bloom.{search_bloom_bytes}
use searchnos_db.Search.Index.{
  SearchIndexRecord, Texts, update_hash, hash_packet, framed_len, empty_search_index,
  append_to_search_index, append_packets, append_packet,
}
use searchnos_db.Search.File.{
  Index, write_search_index_parts, last_or, is_monotonic_after, validate_search_index_records,
  read_search_index_trusted, read_search_bloom_trusted, search_index_magic, record_bytes,
  offset_bytes,
}
use searchnos_db.Search.File.Written.{IsSmallRecord}
use searchnos_db.Search.File.RoundTrip.{IsStorable, read_search_index-write_search_index}

last_or-append : (d : ℕ) (offsets : List ℕ) (x : ℕ) → last_or d (offsets ++ x ∷ []) ≡ x
unfolding last_or
last_or-append d [] x = refl
last_or-append d (o ∷ offsets) x = last_or-append o offsets x

is_monotonic_after-append :
    (d : ℕ) (offsets : List ℕ) (x : ℕ)
    → is_monotonic_after d offsets ≡ true
    → last_or d offsets ≤ x
    → is_monotonic_after d (offsets ++ x ∷ []) ≡ true
unfolding is_monotonic_after last_or
is_monotonic_after-append d [] x h k = ground arith
is_monotonic_after-append d (o ∷ offsets) x h k =
    ground (arith, is_monotonic_after-append o offsets x)

-- The records up to a position are followed by one there.
validate_search_index_records-append :
    (expected : ℕ) (records : List SearchIndexRecord) (bytes len : ℕ)
    → validate_search_index_records expected records bytes ≡ ok tt
    → validate_search_index_records expected
        (records ++ record { packet_offset = bytes; packet_len = len } ∷ [])
        (bytes + (4 + len))
      ≡ ok tt
unfolding validate_search_index_records
validate_search_index_records-append expected [] bytes len h = ground arith
validate_search_index_records-append expected (r ∷ records) bytes len h =
    ground (
      arith,
      validate_search_index_records-append (expected + (4 + r.packet_len)) records bytes len,
    )

update_hash_below : (bytes : Bytes) (hash : ℕ) → hash < 2 ^ 64 → update_hash hash bytes < 2 ^ 64
unfolding update_hash
update_hash_below [] hash h = h
update_hash_below (byte ∷ bytes) hash h = update_hash_below bytes _ (omega arith)

abbrev IsWithin : ℕ → SearchIndexRecord → Type 0
IsWithin bytes r = (r.packet_offset ≤ bytes) × (r.packet_len < 2 ^ 32)

All-weaken_record :
    (a b : ℕ) (records : List SearchIndexRecord)
    → a ≤ b
    → All (IsWithin a) records
    → All (IsWithin b) records
All-weaken_record a b [] h k = tt
All-weaken_record a b (r ∷ records) h k =
    ((omega (arith, k.0.0), k.0.1), All-weaken_record a b records h k.1)

All-weaken_offset :
    (a b : ℕ) (offsets : List ℕ) → a ≤ b → All (λ o. o ≤ a) offsets → All (λ o. o ≤ b) offsets
All-weaken_offset a b [] h k = tt
All-weaken_offset a b (o ∷ offsets) h k = (omega (arith, k.0), All-weaken_offset a b offsets h k.1)

-- The parts of an index fit together.
pub record IsGrown (index : Index) : Type 0 where
  pub later : List ℕ
  pub offsets : index.offsets ≡ 0 ∷ later
  pub count : index.fingerprint.count ≡ length index.records
  pub offset_count : length later ≡ length index.records
  pub small_hash : index.fingerprint.hash < 2 ^ 64
  pub records_within : All (IsWithin index.fingerprint.bytes) index.records
  pub offsets_within : All (λ o. o ≤ length index.text) later
  pub last : last_or 0 later ≡ length index.text
  pub monotonic : is_monotonic_after 0 later ≡ true
  pub valid : validate_search_index_records 0 index.records index.fingerprint.bytes ≡ ok tt
  pub bloom_size : length index.bloom ≡ search_bloom_bytes

module _ (texts : Texts (List ℕ)) (empty_size : length texts.empty_bloom ≡ search_bloom_bytes)
    (keeps_size : (bloom : List ℕ) (text : Bytes)
      → length (texts.insert_text_grams bloom text) ≡ length bloom) where
  pub empty-IsGrown : IsGrown (empty_search_index texts)
  unfolding empty_search_index last_or is_monotonic_after validate_search_index_records
  empty-IsGrown = record {
    later = [];
    offsets = refl;
    count = refl;
    offset_count = refl;
    small_hash = omega arith;
    records_within = tt;
    offsets_within = tt;
    last = refl;
    monotonic = refl;
    valid = refl;
    bloom_size = empty_size;
  }

  -- The index with one packet more.
  abbrev with_packet : Index → Bytes → Bytes → Index
  with_packet index payload added = record {
    fingerprint = record {
      count = index.fingerprint.count + 1;
      bytes = index.fingerprint.bytes + framed_len payload;
      hash = hash_packet index.fingerprint.hash payload;
    };
    searchable_kinds_hash = index.searchable_kinds_hash;
    records =
        index.records
        ++ record { packet_offset = index.fingerprint.bytes; packet_len = length payload } ∷ [];
    offsets = index.offsets ++ length (index.text ++ added) ∷ [];
    bloom = texts.insert_text_grams index.bloom added;
    text = index.text ++ added;
  }

  append_to_search_index-with_packet :
      (index next : Index) (payload : Bytes)
      → append_to_search_index texts index payload ≡ ok next
      → (added : Bytes) × (length payload < 2 ^ 32) × (next ≡ with_packet index payload added)
  unfolding append_to_search_index u32_try_from
  append_to_search_index-with_packet index next payload h =
      let (added, e, h') = >>=-eq-ok (texts.normalized_search_text payload) _ h in
      let (len, f, done) = >>=-eq-ok (u32_try_from (length payload)) _ h' in
      let small : length payload < 2 ^ 32 = ground arith in
      let same : len ≡ length payload = ground arith in (added, small, cc)

  with_packet-IsGrown :
      (index : Index) (payload added : Bytes)
      → length payload < 2 ^ 32
      → IsGrown index
      → IsGrown (with_packet index payload added)
  unfolding hash_packet
  with_packet-IsGrown index payload added small g =
      let longer = length-append index.text added in
      let end = length (index.text ++ added) in
      record {
        later = g.later ++ end ∷ [];
        offsets = ap (λ os. os ++ end ∷ []) g.offsets;
        count = omega (
          arith,
          g.count,
          length-append index.records (
              record { packet_offset = index.fingerprint.bytes; packet_len = length payload } ∷ []),
        );
        offset_count = omega (
          arith,
          g.offset_count,
          length-append g.later (end ∷ []),
          length-append index.records (
              record { packet_offset = index.fingerprint.bytes; packet_len = length payload } ∷ []),
        );
        small_hash = update_hash_below payload _ (
            update_hash_below (to_le_bytes 4 (length payload)) index.fingerprint.hash g.small_hash);
        records_within =
            All-append (IsWithin (index.fingerprint.bytes + framed_len payload)) index.records _
              (All-weaken_record index.fingerprint.bytes _ index.records (omega arith)
                g.records_within)
              ((omega arith, small), tt);
        offsets_within =
            All-append (λ o. o ≤ end) g.later (end ∷ [])
              (All-weaken_offset (length index.text) end g.later (omega arith) g.offsets_within)
              (omega arith, tt);
        last = last_or-append 0 g.later end;
        monotonic = is_monotonic_after-append 0 g.later end g.monotonic (omega (arith, g.last));
        valid =
            validate_search_index_records-append 0 index.records index.fingerprint.bytes
              (length payload) g.valid;
        bloom_size = keeps_size index.bloom added ∙ g.bloom_size;
      }

  pub append_packets-IsGrown :
      (index last : Index) (packets : List EventPacket)
      → append_packets texts index packets ≡ ok last
      → IsGrown index
      → IsGrown last × (last.searchable_kinds_hash ≡ index.searchable_kinds_hash)
  unfolding append_packets
  append_packets-IsGrown index last [] h g =
      let e : index ≡ last = cc in
      subst (λ (l : Index). IsGrown l × (l.searchable_kinds_hash ≡ index.searchable_kinds_hash)) e
        (g, refl)
  append_packets-IsGrown index last (packet ∷ packets) h g =
      let (next, step, rest) = fold_result-eq-ok (append_packet texts) index packet packets h in
      let (added, small, e) = append_to_search_index-with_packet index next packet.payload step in
      let grown : IsGrown next =
        subst IsGrown (sym e) (with_packet-IsGrown index packet.payload added small g) in
      let ih = append_packets-IsGrown next last packets rest grown in
      (ih.0, ih.1 ∙ ap (λ (l : Index). l.searchable_kinds_hash) e)

  -- The fingerprint counts the bytes of the frames.
  pub bytes-append_packets :
      (index last : Index) (packets : List EventPacket) (file : Bytes)
      → append_packets texts index packets ≡ ok last
      → write_packets packets ≡ ok file
      → last.fingerprint.bytes ≡ index.fingerprint.bytes + length file
  unfolding append_packets write_packets write_packet u32_try_from
  bytes-append_packets index last [] file h w =
      let e : index ≡ last = cc in
      let f : [] ≡ file = cc in
      omega (arith, ap (λ (l : Index). l.fingerprint.bytes) e, ap length f)
  bytes-append_packets index last (packet ∷ packets) file h w =
      let (next, step, rest) = fold_result-eq-ok (append_packet texts) index packet packets h in
      let (added, small, e) = append_to_search_index-with_packet index next packet.payload step in
      let (frame, f, w') = >>=-eq-ok (write_packet packet.payload) _ w in
      let (others, g, done) = >>=-eq-ok (write_packets packets) _ w' in
      let (len, k, framed) = >>=-eq-ok (u32_try_from (length packet.payload)) _ f in
      let whole : frame ++ others ≡ file = cc in
      let one : to_le_bytes 4 len ++ packet.payload ≡ frame = cc in
      let ih = bytes-append_packets next last packets others rest g in
      omega (
        arith,
        ih,
        ap (λ (l : Index). l.fingerprint.bytes) e,
        ap length whole,
        ap length one,
        length-append frame others,
        length-append (to_le_bytes 4 len) packet.payload,
        length-to_le_bytes 4 len,
      )

small_records :
    (bytes : ℕ) (records : List SearchIndexRecord)
    → bytes < 2 ^ 64
    → All (IsWithin bytes) records
    → All IsSmallRecord records
small_records bytes [] h k = tt
small_records bytes (r ∷ records) h k =
    ((omega (arith, k.0.0), k.0.1), small_records bytes records h k.1)

small_offsets :
    (n : ℕ) (offsets : List ℕ)
    → n < 2 ^ 64
    → All (λ o. o ≤ n) offsets
    → All (λ o. o < 2 ^ 64) offsets
small_offsets n [] h k = tt
small_offsets n (o ∷ offsets) h k = (omega (arith, k.0), small_offsets n offsets h k.1)

length-behind : (n : ℕ) (xs ys : Bytes) → n ≤ length ys → n ≤ length (xs ++ ys)
length-behind n xs ys h = omega (arith, length-append xs ys)

length-text : (index : Index) → length index.text ≤ length (write_search_index_parts index)
unfolding write_search_index_parts
length-text index =
    let n = length index.text in
    length-behind n search_index_magic _ (
      length-behind n (to_le_bytes 8 index.fingerprint.count) _ (
        length-behind n (to_le_bytes 8 index.fingerprint.bytes) _ (
          length-behind n (to_le_bytes 8 index.fingerprint.hash) _ (
            length-behind n (to_le_bytes 8 index.searchable_kinds_hash) _ (
              length-behind n (record_bytes index.records) _ (
                length-behind n (offset_bytes index.offsets) _
                  (length-behind n index.bloom _ (omega arith))))))))

-- What has grown can be stored, if the numbers of bytes are within 64 bits.
IsGrown-IsStorable :
    (index : Index)
    → IsGrown index
    → index.fingerprint.bytes < 2 ^ 64
    → index.searchable_kinds_hash < 2 ^ 64
    → length (write_search_index_parts index) < 2 ^ 64
    → IsStorable index
IsGrown-IsStorable index g bytes kinds size = record {
  count = g.count;
  offset_count = rw g.offsets (omega (arith, g.offset_count));
  small_bytes = bytes;
  small_hash = g.small_hash;
  small_kinds = kinds;
  small_records = small_records index.fingerprint.bytes index.records bytes g.records_within;
  small_offsets = rw g.offsets (
    omega arith,
    small_offsets (length index.text) g.later (omega (arith, length-text index)) g.offsets_within,
  );
  offsets_valid = rw g.offsets (ground (arith, g.last));
  monotonic = rw g.offsets (g.monotonic);
  records_valid = g.valid;
  bloom_size = g.bloom_size;
  file_size = size;
}

-- Such a file is read back, at the length of the events file and at the kinds of the index.
pub read_search_index-IsGrown :
    (index : Index) (events_len kinds : ℕ)
    → IsGrown index
    → index.fingerprint.bytes ≡ events_len
    → index.searchable_kinds_hash ≡ kinds
    → events_len < 2 ^ 64
    → kinds < 2 ^ 64
    → length (write_search_index_parts index) < 2 ^ 64
    → (read_search_index_trusted (write_search_index_parts index) events_len kinds ≡ ok index)
      × (read_search_bloom_trusted (write_search_index_parts index) events_len kinds
          ≡ ok index.bloom)
read_search_index-IsGrown index events_len kinds grown whole kind small small_kind size =
    let stored = IsGrown-IsStorable index grown (omega (arith, whole)) (omega (arith, kind)) size in
    let (read, bloom) = read_search_index-write_search_index index stored kinds events_len in
    let this_kind = (==_iff index.searchable_kinds_hash kinds).1 kind in
    let this_length = (==_iff index.fingerprint.bytes events_len).1 whole in
    (read ∙ rw (this_kind, this_length) refl, rw (← whole, ← kind) bloom)

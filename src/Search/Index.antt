-- ===== src/Search/Index.antt =====
-- `SearchIndex` of storage/search.rs with its two ways of being built: packet by packet, as the
-- hot file grows and compaction writes, and from all packets of a file at once.
pub mod Build
use Prim.Native.Nat.{bit_xor}
use searchnos_db.Prelude.{
  ℕ, suc, ◌+◌, ◌*◌, ◌%◌, ◌^◌, Bytes, Option, some, none, List, [], ◌∷◌, ◌++◌, Result, ok, err,
  ◌>>=◌, ◌>>◌, length, fold_result,
}
use searchnos_db.Prelude.Words.{to_le_bytes}
use searchnos_db.Event.{EventPacket}
use searchnos_db.Event.Frame.{u32_try_from}

-- `struct SearchIndexRecord`
pub record SearchIndexRecord : Type 0 where
  pub packet_offset : ℕ
  pub packet_len : ℕ

-- `struct EventsFingerprint`
pub record EventsFingerprint : Type 0 where
  pub count : ℕ
  pub bytes : ℕ
  pub hash : ℕ

-- `struct SearchIndex` in its owned form. The Bloom filter is a parameter of this file.
pub record SearchIndex {ℓ} (Bloom : Type ℓ) : Type ℓ where
  pub fingerprint : EventsFingerprint
  pub searchable_kinds_hash : ℕ
  pub records : List SearchIndexRecord
  pub offsets : List ℕ
  pub bloom : Bloom
  pub text : Bytes

abbrev pub fnv_offset_basis : ℕ
fnv_offset_basis = 0xcbf29ce484222325

abbrev pub fnv_prime : ℕ
fnv_prime = 0x00000100000001b3

-- `update_hash`: FNV-1a on 64 bits
unfoldable pub update_hash : ℕ → Bytes → ℕ
update_hash hash [] = hash
update_hash hash (byte ∷ bytes) = update_hash (bit_xor hash byte * fnv_prime % 2 ^ 64) bytes

-- The bytes that a packet takes in its file: `size_of::<u32>() + data.len()`
abbrev pub framed_len : Bytes → ℕ
framed_len payload = 4 + length payload

-- The two updates of the hash for a packet.
unfoldable pub hash_packet : ℕ → Bytes → ℕ
hash_packet hash payload = update_hash (update_hash hash (to_le_bytes 4 (length payload))) payload

-- One round of `events_fingerprint`. Its count is the number of packets.
unfoldable pub add_to_fingerprint : EventsFingerprint → EventPacket → EventsFingerprint
add_to_fingerprint f packet = record f {
  bytes = f.bytes + framed_len packet.payload;
  hash = hash_packet f.hash packet.payload;
}

unfoldable pub add_all : EventsFingerprint → List EventPacket → EventsFingerprint
add_all f [] = f
add_all f (packet ∷ packets) = add_all (add_to_fingerprint f packet) packets

unfoldable pub events_fingerprint : List EventPacket → EventsFingerprint
unfolding add_all
events_fingerprint packets =
    add_all (record { count = length packets; bytes = 0; hash = fnv_offset_basis }) packets

-- The vectors that `build_search_index` fills.
pub record Parts : Type 0 where
  pub records : List SearchIndexRecord
  pub offsets : List ℕ
  pub text : Bytes
  pub packet_offset : ℕ

abbrev pub empty_parts : Parts
empty_parts = record { records = []; offsets = 0 ∷ []; text = []; packet_offset = 0 }

-- `normalized_search_text` at the kinds that the storage searches, `searchable_kinds_hash` of
-- these, and the operations of the Bloom filter.
pub record Texts {ℓ} (Bloom : Type ℓ) : Type ℓ where
  pub normalized_search_text : Bytes → Result Bytes
  pub searchable_kinds_hash : ℕ
  pub empty_bloom : Bloom
  pub insert_text_grams : Bloom → Bytes → Bloom

module _ {ℓ} {Bloom : Type ℓ} (texts : Texts Bloom) where
  -- `empty_search_index`
  unfoldable pub empty_search_index : SearchIndex Bloom
  empty_search_index = record {
    fingerprint = record { count = 0; bytes = 0; hash = fnv_offset_basis };
    searchable_kinds_hash = texts.searchable_kinds_hash;
    records = [];
    offsets = 0 ∷ [];
    bloom = texts.empty_bloom;
    text = [];
  }

  -- `append_to_search_index`
  unfoldable pub append_to_search_index : SearchIndex Bloom → Bytes → Result (SearchIndex Bloom)
  append_to_search_index index payload = do
    text ← texts.normalized_search_text payload
    len ← u32_try_from (length payload)
    ok (record {
      fingerprint = record {
        count = index.fingerprint.count + 1;
        bytes = index.fingerprint.bytes + framed_len payload;
        hash = hash_packet index.fingerprint.hash payload;
      };
      searchable_kinds_hash = index.searchable_kinds_hash;
      records =
          index.records
          ++ record { packet_offset = index.fingerprint.bytes; packet_len = len } ∷ [];
      offsets = index.offsets ++ length (index.text ++ text) ∷ [];
      bloom = texts.insert_text_grams index.bloom text;
      text = index.text ++ text;
    })

  -- One round of `build_search_index`.
  unfoldable pub build_step : Parts → EventPacket → Result Parts
  build_step parts packet = do
    len ← u32_try_from (length packet.payload)
    text ← texts.normalized_search_text packet.payload
    ok (record {
      records =
          parts.records ++ record { packet_offset = parts.packet_offset; packet_len = len } ∷ [];
      offsets = parts.offsets ++ length (parts.text ++ text) ∷ [];
      text = parts.text ++ text;
      packet_offset = parts.packet_offset + framed_len packet.payload;
    })

  -- `build_search_index`
  unfoldable pub build_search_index : List EventPacket → Result (SearchIndex Bloom)
  build_search_index packets = do
    parts ← fold_result build_step empty_parts packets
    ok (record {
      fingerprint = events_fingerprint packets;
      searchable_kinds_hash = texts.searchable_kinds_hash;
      records = parts.records;
      offsets = parts.offsets;
      bloom = texts.insert_text_grams texts.empty_bloom parts.text;
      text = parts.text;
    })

  abbrev pub append_packet : SearchIndex Bloom → EventPacket → Result (SearchIndex Bloom)
  append_packet index packet = append_to_search_index index packet.payload

  -- The index of the hot file or of a compacted partition: packet by packet.
  unfoldable pub append_packets : SearchIndex Bloom → List EventPacket → Result (SearchIndex Bloom)
  append_packets = fold_result append_packet

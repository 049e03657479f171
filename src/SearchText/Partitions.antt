-- ===== src/SearchText/Partitions.antt =====
-- The Bloom filter of an index that is built packet by packet (storage/search.rs), and the terms of a
-- query (storage/text.rs).
use searchnos_db.Prelude.{
  ◌∙◌, ℕ, ◌≤◌, Bytes, true, Option, some, List, [], ◌∷◌, Result, ok, ◌≡◌, ◌∈◌, ap, sym, subst,
  length, All, inl, inr, >>=-eq-ok, fold_result-eq-ok,
}
use searchnos_db.Event.{EventPacket}
use searchnos_db.Search.Index.{
  SearchIndex, Texts, empty_search_index, append_to_search_index, append_packet, append_packets,
}
use searchnos_db.Event.Frame.{u32_try_from}
use searchnos_db.Search.Bloom.{may_match_terms, insert_search_bloom_text_grams, empty_bits}
use searchnos_db.Search.Bloom.Bits.{IsBits, empty_bits-IsBits}
use searchnos_db.Search.Bloom.Complete.{
  StandsIn, insert_search_bloom_text_grams-IsBits, may_match_terms-keeps,
}
use searchnos_db.SearchText.{Unicode, search_terms}
use searchnos_db.SearchText.Words.{may_match_query}

module _ (normalized : Bytes → Result Bytes) (kinds_hash : ℕ)
    (from_utf8 : Bytes → Option (List ℕ)) where
  -- The operations of the storage: an empty filter, and the insertion of a text that is UTF-8.
  abbrev pub bloom_texts : Texts (List ℕ)
  bloom_texts = record {
    normalized_search_text = normalized;
    searchable_kinds_hash = kinds_hash;
    empty_bloom = empty_bits;
    insert_text_grams = λ bloom bytes. insert_search_bloom_text_grams bloom (from_utf8 bytes);
  }

  -- The filter after a packet.
  bloom-append_packet :
      (index next : SearchIndex (List ℕ)) (packet : EventPacket)
      → append_packet bloom_texts index packet ≡ ok next
      → (bytes : Bytes) × (normalized packet.payload ≡ ok bytes)
        × (insert_search_bloom_text_grams index.bloom (from_utf8 bytes) ≡ next.bloom)
  unfolding append_to_search_index
  bloom-append_packet index next packet h =
      let (bytes, e, h') = >>=-eq-ok (normalized packet.payload) _ h in
      let (len, f, done) = >>=-eq-ok (u32_try_from (length packet.payload)) _ h' in (bytes, e, cc)

  module _ (unicode : Unicode) (query : Bytes) where
    abbrev MayMatch : List ℕ → Type 0
    MayMatch bits = may_match_terms bits (search_terms unicode query) ≡ true

    append_packets-MayMatch :
        (index last : SearchIndex (List ℕ)) (packets : List EventPacket)
        → IsBits index.bloom
        → MayMatch index.bloom
        → append_packets bloom_texts index packets ≡ ok last
        → MayMatch last.bloom
    unfolding append_packets
    append_packets-MayMatch index last [] v m h = let e : index ≡ last = cc in rw e at m
    append_packets-MayMatch index last (packet ∷ packets) v m h =
        let (next, step, rest) =
          fold_result-eq-ok (append_packet bloom_texts) index packet packets h in
        let (bytes, e, same) = bloom-append_packet index next packet step in
        append_packets-MayMatch next last packets
          (subst IsBits same
            (insert_search_bloom_text_grams-IsBits index.bloom (from_utf8 bytes) v))
          (subst MayMatch same
            (may_match_terms-keeps index.bloom (from_utf8 bytes) (search_terms unicode query) v m))
          rest

    -- The texts of the packet.
    abbrev pub IsTextOf : EventPacket → Bytes → List ℕ → Type 0
    IsTextOf packet bytes text =
        (normalized packet.payload ≡ ok bytes) × (from_utf8 bytes ≡ some text)

    append_packets-MayMatch_of_held :
        (index last : SearchIndex (List ℕ)) (packets : List EventPacket) (packet : EventPacket)
        (bytes : Bytes) (text : List ℕ)
        → IsBits index.bloom
        → append_packets bloom_texts index packets ≡ ok last
        → packet ∈ packets
        → IsTextOf packet bytes text
        → All (λ term. (2 ≤ length term) × StandsIn term text) (search_terms unicode query)
        → MayMatch last.bloom
    unfolding append_packets
    append_packets-MayMatch_of_held index last [] packet bytes text v h m t stand = elim m [ ]
    append_packets-MayMatch_of_held index last (p ∷ packets) packet bytes text v h m t stand =
        let (next, step, rest) = fold_result-eq-ok (append_packet bloom_texts) index p packets h in
        let (inserted, e, same) = bloom-append_packet index next p step in
        let v' =
          subst IsBits same
            (insert_search_bloom_text_grams-IsBits index.bloom (from_utf8 inserted) v) in
        elim m [
          | inr later ↦
              append_packets-MayMatch_of_held next last packets packet bytes text v' rest later t
                stand
          | inl here ↦
              let equal : bytes ≡ inserted = cc in
              let this : insert_search_bloom_text_grams index.bloom (some text) ≡ next.bloom =
                ap (insert_search_bloom_text_grams index.bloom) (sym t.1)
                ∙ ap (λ b. insert_search_bloom_text_grams index.bloom (from_utf8 b)) equal
                ∙ same in
              append_packets-MayMatch next last packets v'
                (subst MayMatch this (may_match_query unicode index.bloom text query v stand)) rest
        ]

    -- The Bloom filter of an index that is built packet by packet may match a query if the
    -- searchable text of one of the packets holds every term of the query and each term has two
    -- characters or more, whatever the packets before and behind it are.
    pub may_match_query-append_packets :
        (last : SearchIndex (List ℕ)) (packets : List EventPacket) (packet : EventPacket)
        (bytes : Bytes) (text : List ℕ)
        → append_packets bloom_texts (empty_search_index bloom_texts) packets ≡ ok last
        → packet ∈ packets
        → IsTextOf packet bytes text
        → All (λ term. (2 ≤ length term) × StandsIn term text) (search_terms unicode query)
        → may_match_terms last.bloom (search_terms unicode query) ≡ true
    unfolding empty_search_index
    may_match_query-append_packets last packets packet bytes text h m t stand =
        append_packets-MayMatch_of_held (empty_search_index bloom_texts) last packets packet bytes
          text empty_bits-IsBits h m t stand

-- ===== src/Search/Index/Build.antt =====
-- The two ways to build a search index agree, and what holds of an index however it was built.
use searchnos_db.Prelude.{
  ℕ, suc, ◌+◌, List, [], ◌∷◌, ok, ◌≡◌, refl, sym, ◌∙◌, arith, length, fold_result,
  fold_result-eq-ok,
}
use searchnos_db.Event.{EventPacket}
use searchnos_db.Search.Index.{
  EventsFingerprint, SearchIndex, Parts, Texts, add_to_fingerprint, add_all, events_fingerprint,
  hash_packet, framed_len, empty_search_index, append_to_search_index, build_step,
  build_search_index, append_packets, append_packet,
}

-- Two indexes agree in all but the Bloom filter.
pub record AgreeButBloom {ℓ} {Bloom : Type ℓ} (a b : SearchIndex Bloom) : Type ℓ where
  pub fingerprint : a.fingerprint ≡ b.fingerprint
  pub searchable_kinds_hash : a.searchable_kinds_hash ≡ b.searchable_kinds_hash
  pub records : a.records ≡ b.records
  pub offsets : a.offsets ≡ b.offsets
  pub text : a.text ≡ b.text

module _ {ℓ} {Bloom : Type ℓ} (texts : Texts Bloom) where
  abbrev pub parts_of : SearchIndex Bloom → Parts
  parts_of index = record {
    records = index.records;
    offsets = index.offsets;
    text = index.text;
    packet_offset = index.fingerprint.bytes;
  }

  pub build_step-append :
      (index next : SearchIndex Bloom) (packet : EventPacket)
      → append_to_search_index texts index packet.payload ≡ ok next
      → build_step texts (parts_of index) packet ≡ ok (parts_of next)
  unfolding build_step append_to_search_index
  build_step-append index next packet h = ground arith

  fingerprint-append :
      (index next : SearchIndex Bloom) (packet : EventPacket)
      → append_to_search_index texts index packet.payload ≡ ok next
      → (next.fingerprint.count ≡ suc index.fingerprint.count)
        × (next.fingerprint.bytes ≡ index.fingerprint.bytes + framed_len packet.payload)
        × (next.fingerprint.hash ≡ hash_packet index.fingerprint.hash packet.payload)
        × (next.searchable_kinds_hash ≡ index.searchable_kinds_hash)
  unfolding append_to_search_index
  fingerprint-append index next packet h = ground arith

  build_steps-append_packets :
      (index last : SearchIndex Bloom) (packets : List EventPacket)
      → append_packets texts index packets ≡ ok last
      → fold_result (build_step texts) (parts_of index) packets ≡ ok (parts_of last)
  unfolding append_packets
  build_steps-append_packets index last [] h = let e : index ≡ last = cc in rw e
  build_steps-append_packets index last (packet ∷ packets) h =
      let (next, step, rest) = fold_result-eq-ok (append_packet texts) index packet packets h in
      rw (build_step-append index next packet step, fold_result)
        (build_steps-append_packets next last packets rest)

  -- The fingerprint of an index, with a count of one's choice.
  abbrev counted : ℕ → SearchIndex Bloom → EventsFingerprint
  counted count index = record {
    count = count;
    bytes = index.fingerprint.bytes;
    hash = index.fingerprint.hash;
  }

  counted-append :
      (count : ℕ) (index next : SearchIndex Bloom) (packet : EventPacket)
      → append_to_search_index texts index packet.payload ≡ ok next
      → add_to_fingerprint (counted count index) packet ≡ counted count next
  unfolding add_to_fingerprint
  counted-append count index next packet h = ground (arith, fingerprint-append index next packet h)

  add_all-append_packets :
      (count : ℕ) (index last : SearchIndex Bloom) (packets : List EventPacket)
      → append_packets texts index packets ≡ ok last
      → add_all (counted count index) packets ≡ counted count last
  unfolding append_packets add_all
  add_all-append_packets count index last [] h = let e : index ≡ last = cc in rw e
  add_all-append_packets count index last (packet ∷ packets) h =
      let (next, step, rest) = fold_result-eq-ok (append_packet texts) index packet packets h in
      rw (counted-append count index next packet step)
        (add_all-append_packets count next last packets rest)

  count-append_packets :
      (index last : SearchIndex Bloom) (packets : List EventPacket)
      → append_packets texts index packets ≡ ok last
      → (last.fingerprint.count ≡ index.fingerprint.count + length packets)
        × (last.searchable_kinds_hash ≡ index.searchable_kinds_hash)
  unfolding append_packets
  count-append_packets index last [] h = let e : index ≡ last = cc in rw (← e) (omega arith, refl)
  count-append_packets index last (packet ∷ packets) h =
      let (next, step, rest) = fold_result-eq-ok (append_packet texts) index packet packets h in
      let f = fingerprint-append index next packet step in
      let ih = count-append_packets next last packets rest in (omega arith, ih.1 ∙ f.3)

  -- An index that has grown packet by packet, as the hot file's and a compacted partition's, is
  -- in all but its Bloom filter the index that is built from all packets at once, as a reindex
  -- does it, which succeeds.
  pub build_search_index-append_packets :
      (packets : List EventPacket) (last : SearchIndex Bloom)
      → append_packets texts (empty_search_index texts) packets ≡ ok last
      → (built : SearchIndex Bloom) × (build_search_index texts packets ≡ ok built)
        × AgreeButBloom built last
  unfolding build_search_index empty_search_index events_fingerprint
  build_search_index-append_packets packets last h =
      let parts = build_steps-append_packets (empty_search_index texts) last packets h in
      let marks =
        add_all-append_packets (length packets) (empty_search_index texts) last packets h in
      let size = count-append_packets (empty_search_index texts) last packets h in
      (
        record {
          fingerprint = counted (length packets) last;
          searchable_kinds_hash = texts.searchable_kinds_hash;
          records = last.records;
          offsets = last.offsets;
          bloom = texts.insert_text_grams texts.empty_bloom last.text;
          text = last.text;
        },
        rw parts (rw marks),
        record {
          fingerprint = ground (arith, size);
          searchable_kinds_hash = sym size.1;
          records = refl;
          offsets = refl;
          text = refl;
        },
      )

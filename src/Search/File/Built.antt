-- ===== src/Search/File/Built.antt =====
-- The parts of an index that is built from all packets at once (storage/search.rs).
use searchnos_db.Prelude.{
  ℕ, Bytes, List, [], ◌∷◌, ok, ◌≡◌, refl, sym, ap, ◌∙◌, subst, arith, length, fold_result,
  fold_result-eq-ok, >>=-eq-ok, Result-cases, inl, inr,
}
use searchnos_db.Event.{EventPacket}
use searchnos_db.Event.Frame.RoundTrip.{write_packets}
use searchnos_db.Search.Bloom.{search_bloom_bytes}
use searchnos_db.Search.Index.{
  Parts, empty_parts, Texts, empty_search_index, append_to_search_index, append_packets,
  append_packet, build_step, build_search_index,
}
use searchnos_db.Search.Index.Build.{
  parts_of, build_step-append, AgreeButBloom, build_search_index-append_packets,
}
use searchnos_db.Search.File.{Index}
use searchnos_db.Search.File.Grown.{
  IsGrown, empty-IsGrown, append_packets-IsGrown, bytes-append_packets,
}

IsGrown-AgreeButBloom :
    (a b : Index) → AgreeButBloom a b → length a.bloom ≡ search_bloom_bytes → IsGrown b → IsGrown a
IsGrown-AgreeButBloom a b agree size g = record {
  later = g.later;
  offsets = agree.offsets ∙ g.offsets;
  count = rw (agree.fingerprint, agree.records) (g.count);
  offset_count = rw (agree.records) (g.offset_count);
  small_hash = rw (agree.fingerprint) (g.small_hash);
  records_within = rw (agree.fingerprint, agree.records) (g.records_within);
  offsets_within = rw (agree.text) (g.offsets_within);
  last = rw (agree.text) (g.last);
  monotonic = g.monotonic;
  valid = rw (agree.fingerprint, agree.records) (g.valid);
  bloom_size = size;
}

module _ (texts : Texts (List ℕ)) (empty_size : length texts.empty_bloom ≡ search_bloom_bytes)
    (keeps_size : (bloom : List ℕ) (text : Bytes)
      → length (texts.insert_text_grams bloom text) ≡ length bloom) where
  append_to_search_index-build_step :
      (index : Index) (packet : EventPacket) (parts : Parts)
      → build_step texts (parts_of texts index) packet ≡ ok parts
      → (next : Index) × (append_packet texts index packet ≡ ok next)
        × (parts ≡ parts_of texts next)
  unfolding build_step append_to_search_index
  append_to_search_index-build_step index packet parts h =
      elim (Result-cases (append_packet texts index packet)) [
        | inl (next, e) ↦ let same = build_step-append texts index next packet e in (next, e, cc)
        | inr (f, e) ↦ absurd (ground arith)
      ]

  append_packets-build_steps :
      (index : Index) (packets : List EventPacket) (parts : Parts)
      → fold_result (build_step texts) (parts_of texts index) packets ≡ ok parts
      → (last : Index) × (append_packets texts index packets ≡ ok last)
  unfolding append_packets
  append_packets-build_steps index [] parts h = (index, refl)
  append_packets-build_steps index (packet ∷ packets) parts h =
      let (mid, step, rest) =
        fold_result-eq-ok (build_step texts) (parts_of texts index) packet packets h in
      let (next, e, same) = append_to_search_index-build_step index packet mid step in
      let (last, f) = append_packets-build_steps next packets parts (rw same at rest) in
      (last, rw (e, fold_result) f)

  -- An index that is built is one that has grown, but for its filter.
  pub build_search_index-IsGrown :
      (packets : List EventPacket) (built : Index) (file : Bytes)
      → build_search_index texts packets ≡ ok built
      → write_packets packets ≡ ok file
      → IsGrown built
        × (built.fingerprint.bytes ≡ length file)
        × (built.searchable_kinds_hash ≡ texts.searchable_kinds_hash)
  unfolding build_search_index empty_search_index
  build_search_index-IsGrown packets built file h w =
      let (parts, e, done) = >>=-eq-ok (fold_result (build_step texts) empty_parts packets) _ h in
      let (last, f) = append_packets-build_steps (empty_search_index texts) packets parts e in
      let (other, again, agree) = build_search_index-append_packets texts packets last f in
      let same : other ≡ built = cc in
      let (g, kinds) =
        append_packets-IsGrown texts empty_size keeps_size (empty_search_index texts) last packets f
          (empty-IsGrown texts empty_size keeps_size) in
      let bytes =
        bytes-append_packets texts empty_size keeps_size (empty_search_index texts) last packets
          file f w in
      let filled : texts.insert_text_grams texts.empty_bloom parts.text ≡ built.bloom = cc in
      let agreed : AgreeButBloom built last =
        subst (λ (i : Index). AgreeButBloom i last) same agree in
      (
        IsGrown-AgreeButBloom built last agreed
            (ap length (sym filled) ∙ keeps_size texts.empty_bloom parts.text ∙ empty_size) g,
        rw (agreed.fingerprint) (omega (arith, bytes)),
        agreed.searchable_kinds_hash ∙ kinds,
      )

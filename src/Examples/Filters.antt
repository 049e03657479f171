-- ===== src/Examples/Filters.antt =====
-- Filters, their limits, and search terms (nostr/nip01/filter.rs, storage/event.rs, storage/text.rs).
use searchnos_db.Prelude.{
  Result, Option, err, ℕ, ◌≤◌, Bytes, true, ◌&&◌, some, List, [], ◌∷◌, ok, ◌≡◌, refl, arith, all,
  All, replicate, length, inl, inr,
}
use searchnos_db.Note.{Note, TagElement, tag_element_to_string}
use searchnos_db.Text.{is_whitespace}
use searchnos_db.Search.Bloom.{may_match_terms, text_terms, split_on, non_empty}
use searchnos_db.Search.Bloom.Complete.{StandsIn}
use searchnos_db.Visibility.Hex.{hex_32}
use searchnos_db.SearchText.{
  Unicode, search_terms, folded, split_whitespace, split_at_whitespace, normalize_search_text,
  join_with, flat_map,
}
use searchnos_db.SearchText.Words.{IsWord, search_terms-split_whitespace}
use searchnos_db.SearchText.Partitions.{bloom_texts, may_match_query-append_packets}
use searchnos_db.Event.{EventPacket}
use searchnos_db.Event.Frame.{u32_try_from}
use searchnos_db.Search.Index.{
  SearchIndex, empty_search_index, append_to_search_index, append_packets,
}
use searchnos_db.Filter.{
  Filter, new_filter, with_tag, matches_fields, matches_filter_without_search,
}
use searchnos_db.Filter.Matching.{
  ReadTag, AreRead, has_tags, tag_of, matches_filter_without_search-has_tags,
}
use searchnos_db.Examples.Data.{five_bytes, deletion, new_profile}

-- The only tag of the deletion request.
own_tag-AreRead :
    AreRead five_bytes
      (TagElement.text (b'e' ∷ []) ∷ TagElement.id (replicate 32 1) ∷ [])
      ((b'e' ∷ []) ∷ hex_32 (replicate 32 1) ∷ [])
unfolding tag_element_to_string
own_tag-AreRead = (refl, (refl, tt))

abbrev own_tag : ReadTag five_bytes
own_tag = record {
  elements = TagElement.text (b'e' ∷ []) ∷ TagElement.id (replicate 32 1) ∷ [];
  texts = (b'e' ∷ []) ∷ hex_32 (replicate 32 1) ∷ [];
  are_read = own_tag-AreRead;
}

abbrev deletion_note : Note
deletion_note = record {
  created_at = 30;
  id = replicate 32 3;
  pubkey = 7 ∷ [];
  kind = 5;
  content = ok (3 ∷ []);
  tags = tag_of five_bytes own_tag ∷ [];
}

abbrev asked : Filter
asked = with_tag b'e' (hex_32 (replicate 32 1)) new_filter

matches_filter_without_search-has_tags_example :
    matches_filter_without_search five_bytes asked deletion
    ≡ ok (
        matches_fields asked deletion_note
        && all (has_tags five_bytes (own_tag ∷ [])) asked.generic_tags)
matches_filter_without_search-has_tags_example =
    matches_filter_without_search-has_tags five_bytes asked deletion deletion_note (own_tag ∷ [])
      refl refl

-- ASCII without tables: every character is its own byte.
abbrev pub ascii : Unicode
ascii = record { chars = λ s. s; nfkc = λ s. s; to_lowercase = λ c. c ∷ [] }

abbrev query : Bytes
query = b'a' ∷ b'b' ∷ b' ' ∷ b' ' ∷ b'c' ∷ b'd' ∷ []

abbrev ab_cd : List (List ℕ)
ab_cd = (b'a' ∷ b'b' ∷ []) ∷ (b'c' ∷ b'd' ∷ []) ∷ []

search_terms-split_whitespace_example :
    (search_terms ascii query ≡ split_whitespace (folded ascii query))
    × All IsWord (search_terms ascii query)
search_terms-split_whitespace_example = search_terms-split_whitespace ascii query

query_terms : search_terms ascii query ≡ ab_cd
unfolding search_terms normalize_search_text folded flat_map split_whitespace split_at_whitespace
    is_whitespace join_with text_terms split_on non_empty
query_terms = refl

-- "cd x ab"
abbrev stored_text : List ℕ
stored_text = b'c' ∷ b'd' ∷ b' ' ∷ b'x' ∷ b' ' ∷ b'a' ∷ b'b' ∷ []

terms_stand : All (λ term. (2 ≤ length term) × StandsIn term stored_text) (search_terms ascii query)
terms_stand = rw query_terms (
  (omega arith, (b'c' ∷ b'd' ∷ b' ' ∷ b'x' ∷ b' ' ∷ [], [], refl)),
  ((omega arith, ([], b' ' ∷ b'x' ∷ b' ' ∷ b'a' ∷ b'b' ∷ [], refl)), tt),
)

-- Every payload is its text.
abbrev whole_text : Bytes → Result Bytes
whole_text payload = ok payload

abbrev ascii_text : Bytes → Option (List ℕ)
ascii_text bytes = some bytes

abbrev stored : EventPacket
stored = record new_profile { payload = stored_text }

abbrev text_index : Result (SearchIndex (List ℕ)) → SearchIndex (List ℕ)
text_index (ok index) = index
text_index (err e) = empty_search_index (bloom_texts whole_text 1 ascii_text)

abbrev stored_index : SearchIndex (List ℕ)
stored_index = text_index (
    append_packets (bloom_texts whole_text 1 ascii_text)
      (empty_search_index (bloom_texts whole_text 1 ascii_text))
      (new_profile ∷ stored ∷ deletion ∷ []))

index_stored :
    append_packets
      (bloom_texts whole_text 1 ascii_text)
      (empty_search_index (bloom_texts whole_text 1 ascii_text))
      (new_profile ∷ stored ∷ deletion ∷ [])
    ≡ ok stored_index
unfolding append_packets append_to_search_index u32_try_from
index_stored = refl

may_match_query-append_packets_example :
    may_match_terms stored_index.bloom (search_terms ascii query) ≡ true
may_match_query-append_packets_example =
    may_match_query-append_packets whole_text 1 ascii_text ascii query stored_index
      (new_profile ∷ stored ∷ deletion ∷ []) stored stored_text stored_text index_stored
      (inr (inl refl)) (refl, refl) terms_stand

-- ===== src/Examples/Bloom.antt =====
-- The Bloom filter of a text of two words (storage/search.rs).
use searchnos_db.Prelude.{ℕ, some, List, [], ◌∷◌, ◌≡◌, ◌↔◌, ◌∈◌}
use searchnos_db.Search.Bloom.{
  text_terms, insert_search_bloom_text_grams, empty_bits, append_search_bloom_grams,
}
use searchnos_db.Search.Bloom.Grams.{insert_grams}
use searchnos_db.Search.Bloom.Single.{terms_grams, insert_search_bloom_text_grams-single}

-- "ab cd"
abbrev two_words : List ℕ
two_words = b'a' ∷ b'b' ∷ b' ' ∷ b'c' ∷ b'd' ∷ []

insert_search_bloom_text_grams-single_example :
    (insert_search_bloom_text_grams empty_bits (some two_words)
      ≡ insert_grams (terms_grams (text_terms two_words)) empty_bits)
    × (append_search_bloom_grams (b'c' ∷ []) ≡ (b'c' ∷ []) ∷ [])
    × (((b'c' ∷ []) ∈ terms_grams (text_terms two_words)) ↔ ((b'c' ∷ []) ∈ text_terms two_words))
insert_search_bloom_text_grams-single_example =
    insert_search_bloom_text_grams-single empty_bits two_words b'c'

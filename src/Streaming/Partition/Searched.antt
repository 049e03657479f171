-- ===== src/Streaming/Partition/Searched.antt =====
-- The cursor of a search over a partition whose sidecar can be read (storage/streaming_query.rs,
-- storage/cursor.rs).
use searchnos_db.Prelude.{
  ℕ, Bytes, Bool, true, false, ◌&&◌, Option, none, some, List, [], ◌∷◌, ◌++◌, map, ok, ◌≡◌, refl,
  ap, ◌∙◌, all, nat_eq, Bool-cases, inl, inr,
}
use searchnos_db.Prelude.Dict.{lookup}
use searchnos_db.Filter.{Filter}
use searchnos_db.Search.Bloom.{as_bytes, contains_gram, append_search_bloom_grams, may_match_terms}
use searchnos_db.Search.Index.{SearchIndexRecord}
use searchnos_db.Search.File.{Index}
use searchnos_db.SearchText.{search_terms}
use searchnos_db.Visibility.Index.{VisibilityIndex}
use searchnos_db.Visibility.Store.{VisibilityStore}
use searchnos_db.Cursor.{new_cursor}
use searchnos_db.Cursor.Sources.{partition_search, filter_terms}
use searchnos_db.Reindex.{
  Context, Partitions, read_search_index_for_events, read_search_bloom_for_events,
}
use searchnos_db.Streaming.Partition.{
  Cursor, search_bloom_query_grams, grams_may_match, search_bloom_may_match, ask_bloom, partition,
  partition_cursor, cursor_if_asked,
}

all-append :
    {A : Type 0} (test : A → Bool) (xs ys : List A)
    → all test (xs ++ ys) ≡ (all test xs && all test ys)
all-append test [] ys = refl
all-append test (x ∷ xs) ys = elim (Bool-cases (test x)) [
  | inl passed ↦ rw (passed, all) (all-append test xs ys)
  | inr failed ↦ rw (failed, all) refl
]

-- The grams of all terms are asked for as those of each term.
all-search_bloom_query_grams :
    (bits : List ℕ) (terms : List (List ℕ))
    → all (λ gram. contains_gram bits (as_bytes gram)) (search_bloom_query_grams terms)
      ≡ may_match_terms bits terms
unfolding search_bloom_query_grams may_match_terms
all-search_bloom_query_grams bits [] = refl
all-search_bloom_query_grams bits (term ∷ terms) =
    all-append _ (append_search_bloom_grams term) (search_bloom_query_grams terms)
    ∙ ap
        (λ b.
          all (λ gram. contains_gram bits (as_bytes gram)) (append_search_bloom_grams term) && b)
        (all-search_bloom_query_grams bits terms)

module _ (c : Context) where
  grams_may_match-bits :
      (p : Partitions c) (day : ℕ) (bits : List ℕ) (grams : List (List ℕ))
      → read_search_bloom_for_events c p day ≡ ok bits
      → grams_may_match c p day grams ≡ ok (all (λ gram. contains_gram bits (as_bytes gram)) grams)
  unfolding grams_may_match
  grams_may_match-bits p day bits [] e = refl
  grams_may_match-bits p day bits (gram ∷ grams) e = rw (e, grams_may_match) refl

  -- The cursor over all records of an index, if it has any.
  abbrev pub search_cursor :
      Bytes
      → Index
      → List Bytes
      → Filter
      → Option VisibilityIndex
      → VisibilityStore c.lmdb
      → List SearchIndexRecord
      → Option (Cursor c)
  search_cursor file index terms filter visibility store [] = none
  search_cursor file index terms filter visibility store (r ∷ records) = some (
      new_cursor
        (partition_search file index 0 terms filter c.searchable_kinds visibility (some store)))

  -- The partition is searched, unless the Bloom filter says that it has no match.
  abbrev pub searched : Bool → Option (Cursor c) → Option (Cursor c)
  searched false cursor = none
  searched true cursor = cursor

  module _ (q : Partitions c) (day : ℕ) (index : Index) (filter : Filter)
      (visibility : Option VisibilityIndex) (query : Bytes) (term : List ℕ) (terms : List (List ℕ))
      (asked : search_terms c.unicode query ≡ term ∷ terms)
      (bloom : read_search_bloom_for_events c q day ≡ ok index.bloom) where
    pub search_bloom_may_match-terms :
        search_bloom_may_match c q day (some query)
        ≡ ok (may_match_terms index.bloom (term ∷ terms))
    unfolding search_bloom_may_match
    search_bloom_may_match-terms = rw asked (
        grams_may_match-bits q day index.bloom (search_bloom_query_grams (term ∷ terms)) bloom
        ∙ ap ok (all-search_bloom_query_grams index.bloom (term ∷ terms)))

    module _ (file : Bytes) (there : lookup day q.files ≡ some file)
        (reads : read_search_index_for_events c q day ≡ ok index)
        (searches : filter.search ≡ some query) where
      terms_asked : filter_terms c.unicode filter.search ≡ as_bytes term ∷ map as_bytes terms
      terms_asked = rw searches (ap (map as_bytes) asked)

      unfoldable pub cursor_at : List SearchIndexRecord → Option (Cursor c)
      cursor_at =
          search_cursor file index (map as_bytes (term ∷ terms)) filter visibility
            q.visibility_store

      partition-searched :
          (records : List SearchIndexRecord)
          → index.records ≡ records
          → partition c q day filter visibility ≡ ok (cursor_at records)
      unfolding partition cursor_at
      partition-searched [] e = rw (terms_asked, reads, partition) (simp e)
      partition-searched (r ∷ records) e = rw (terms_asked, reads, partition) (simp (e, there))

      partition_cursor-searched :
          partition_cursor c q day filter visibility ≡ (q, ok (cursor_at index.records))
      unfolding partition_cursor
      partition_cursor-searched = rw (partition-searched index.records refl, partition_cursor) refl

      pub ask_bloom-searched :
          ask_bloom c q day filter ≡ (q, may_match_terms index.bloom (term ∷ terms))
      unfolding ask_bloom
      ask_bloom-searched = rw (searches, search_bloom_may_match-terms, ask_bloom) refl

      pub cursor_if_asked-searched :
          (b : Bool)
          → cursor_if_asked c day filter visibility (q, b)
            ≡ (q, ok (searched b (cursor_at index.records)))
      cursor_if_asked-searched true = partition_cursor-searched
      cursor_if_asked-searched false = refl
